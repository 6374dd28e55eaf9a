-- ===== src/Macos/Locked.antt =====
-- macos/service/src/mnemosyne_macos/coordinator.py: the helpers that run under the coordinator's
-- condition (`_…_locked`), and `_publish_state`. A wake-up of the condition changes no field.
-- `hint` is what the resident's adapter answers to `capacity_hint`.
use mnemosyne_inference.Prelude.{
  ℕ, ◌+◌, ◌-◌, ◌&&◌, ◌||◌, not, Option, List, [], ◌∷◌, ltb, leb, ◌==◌, if◌then◌else◌,
}
use mnemosyne_inference.Macos.Targets.{ResolvedTarget, same_load, derived_limit, effective_limit}
use mnemosyne_inference.Macos.Types.{
  CoordinatorError, CoordinatorState, Waiter, Outcome, granted, failed, driving, task_done,
  Coordinator,
}

-- `capacity_for(…).available`
unfoldable pub available : Option ℕ → ResolvedTarget → Coordinator → ℕ
available hint t s =
    effective_limit s.configured_max_concurrency (derived_limit hint t) - s.inflight

unfoldable pub publish_state : CoordinatorState → Coordinator → Coordinator
publish_state state s = record s { state = state }

unfoldable pub live_waiters : List Waiter → List Waiter
live_waiters [] = []
live_waiters (w ∷ ws) = let rest = live_waiters ws in if w.cancelled then rest else w ∷ rest

unfoldable pub purge_cancelled : Coordinator → Coordinator
purge_cancelled s = record s { queue = live_waiters s.queue }

unfoldable pub ensure_driver : Coordinator → Coordinator
ensure_driver s =
    if task_done s.driver then record s { driver = driving; driver_task = s.driver_task + 1 } else s

-- What the loop of `_grant_head_group_locked` works on.
pub record Grants : Type 0 where
  pub queue : List Waiter
  pub inflight : ℕ
  pub count : ℕ
  pub futures : List (ℕ × Outcome)

-- The `while` loop, by recursion on the queue that it pops from.
unfoldable pub grant_loop :
    (epoch : ℕ)
    → ResolvedTarget
    → List Waiter
    → (available inflight count : ℕ) → List (ℕ × Outcome)
    → Grants
grant_loop e head [] n inflight count futures = record {
  queue = [];
  inflight = inflight;
  count = count;
  futures = futures;
}
grant_loop e head (w ∷ ws) n inflight count futures =
    let skipped = grant_loop e head ws n inflight count futures in
    let taken =
      grant_loop e head ws (n - 1) (inflight + 1) (count + 1)
        ((w.ticket, granted w.target e) ∷ futures) in
    if ltb 0 n && same_load w.target head
    then (if w.cancelled then skipped else taken)
    else record { queue = w ∷ ws; inflight = inflight; count = count; futures = futures }

unfoldable pub grant_head_group :
    Option ℕ → (resident head : ResolvedTarget) → Coordinator → Coordinator × ℕ
grant_head_group hint r head s =
    let g = grant_loop s.epoch head s.queue (available hint r s) s.inflight 0 s.futures in
    (record s { queue = g.queue; inflight = g.inflight; futures = g.futures }, g.count)

-- `set_exception`, unless the popped waiter's future is done: in the queue that is a cancelled one.
abbrev pub settle : CoordinatorError → Waiter → List (ℕ × Outcome) → List (ℕ × Outcome)
settle e w futures = if w.cancelled then futures else (w.ticket, failed e) ∷ futures

unfoldable pub fail_head_loop :
    ResolvedTarget
    → CoordinatorError
    → List Waiter
    → List (ℕ × Outcome)
    → List Waiter × List (ℕ × Outcome)
fail_head_loop t e [] futures = ([], futures)
fail_head_loop t e (w ∷ ws) futures =
    let rest = fail_head_loop t e ws (settle e w futures) in
    if same_load w.target t then rest else (w ∷ ws, futures)

unfoldable pub fail_head_group : ResolvedTarget → CoordinatorError → Coordinator → Coordinator
fail_head_group t e s =
    let r = fail_head_loop t e s.queue s.futures in record s { queue = r.0; futures = r.1 }

unfoldable pub fail_each : CoordinatorError → List Waiter → List (ℕ × Outcome) → List (ℕ × Outcome)
fail_each e [] futures = futures
fail_each e (w ∷ ws) futures = fail_each e ws (settle e w futures)

unfoldable pub fail_all : CoordinatorError → Coordinator → Coordinator
fail_all e s = record s { queue = []; futures = fail_each e s.queue s.futures }

unfoldable pub release_locked : (now epoch : ℕ) → Coordinator → Coordinator
release_locked now epoch s = if not (epoch == s.epoch) || leb s.inflight 0 then s else record s {
  inflight = s.inflight - 1;
  last_used = if s.inflight == 1 then now else s.last_used;
}
