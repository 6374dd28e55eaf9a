-- ===== src/Residency/Locked.antt =====
-- cuda_residency.py: the helpers that run under the coordinator's condition (`_…_locked`).
-- The observers `on_inflight_changed` and `on_transition_changed` and the wake-ups of the condition
-- change no field and are not modelled.
use mnemosyne_inference.Prelude.{
  ℕ, ◌+◌, ◌-◌, String, Bool, ◌&&◌, ◌||◌, not, Option, none, some, List, [], ◌∷◌, ltb, leb, min,
  ◌==◌, str_eq, opt_str_eq, if◌then◌else◌,
}
use mnemosyne_inference.Residency.Types.{
  Profile, ResidencyError, CoordinatorState, state_eq, Waiter, Outcome, granted, failed, driving,
  task_done, Coordinator,
}

unfoldable pub bump : Coordinator → Coordinator
bump s = record s { sequence = s.sequence + 1 }

unfoldable pub set_state :
    CoordinatorState → Option String → Option String → Coordinator → Coordinator
set_state state target diagnostic s =
    let changed =
      not (state_eq s.state state)
      || not (opt_str_eq s.transition_target target)
      || not (opt_str_eq s.diagnostic_code diagnostic) in
    record s {
      state = state;
      transition_target = target;
      diagnostic_code = diagnostic;
      sequence = if changed then s.sequence + 1 else s.sequence;
    }

unfoldable pub effective_limit : Coordinator → ℕ
effective_limit s = elim s.configured_max_concurrency [
  | none ↦ s.capacity.derived_limit
  | some configured ↦ min s.capacity.derived_limit configured
]

unfoldable pub admits : Coordinator → Bool
admits s = not s.is_stopping && s.accepting && s.authoritative

unfoldable pub live_waiters : List Waiter → List Waiter
live_waiters [] = []
live_waiters (w ∷ ws) = let rest = live_waiters ws in if w.cancelled then rest else w ∷ rest

unfoldable pub purge_cancelled : Coordinator → Coordinator
unfolding live_waiters
purge_cancelled s = record s { queue = live_waiters s.queue }

unfoldable pub ensure_driver : Coordinator → Coordinator
ensure_driver s =
    if task_done s.driver then record s { driver = driving; driver_task = s.driver_task + 1 } else s

-- What the loop of `_grant_head_locked` works on.
pub record Grants : Type 0 where
  pub queue : List Waiter
  pub active : ℕ
  pub count : ℕ
  pub futures : List (ℕ × Outcome)

-- The `while` loop, by recursion on the queue that it pops from.
unfoldable pub grant_loop :
    (profile : Profile) (epoch limit : ℕ) (deployment_id : String)
    → List Waiter
    → ℕ
    → ℕ
    → List (ℕ × Outcome)
    → Grants
grant_loop p e limit d [] active count futures = record {
  queue = [];
  active = active;
  count = count;
  futures = futures;
}
grant_loop p e limit d (w ∷ ws) active count futures =
    let skipped = grant_loop p e limit d ws active count futures in
    let taken =
      grant_loop p e limit d ws (active + 1) (count + 1) ((w.ticket, granted p e) ∷ futures) in
    if str_eq w.deployment_id d && ltb active limit
    then (if w.cancelled then skipped else taken)
    else record { queue = w ∷ ws; active = active; count = count; futures = futures }

unfoldable pub grant_with : Profile → String → Coordinator → Coordinator × ℕ
unfolding grant_loop effective_limit bump
grant_with p d s =
    let g = grant_loop p s.epoch (effective_limit s) d s.queue s.active 0 s.futures in
    let s' : Coordinator = record s { queue = g.queue; active = g.active; futures = g.futures } in
    (if g.count == 0 then s' else bump s', g.count)

-- `assert self._resident_profile is not None`: with no resident nothing is granted.
unfoldable pub grant_resident : Option Profile → String → Coordinator → Coordinator × ℕ
grant_resident none d s = (s, 0)
grant_resident (some p) d s = grant_with p d s

unfoldable pub grant_head : String → Coordinator → Coordinator × ℕ
unfolding grant_resident
grant_head d s = grant_resident s.resident_profile d s

-- `set_exception`, unless the popped waiter's future is done: in the queue that is a cancelled one.
abbrev pub settle : ResidencyError → Waiter → List (ℕ × Outcome) → List (ℕ × Outcome)
settle e w futures = if w.cancelled then futures else (w.ticket, failed e) ∷ futures

unfoldable pub fail_head_loop :
    String → ResidencyError → List Waiter → List (ℕ × Outcome) → List Waiter × List (ℕ × Outcome)
fail_head_loop d e [] futures = ([], futures)
fail_head_loop d e (w ∷ ws) futures =
    let rest = fail_head_loop d e ws (settle e w futures) in
    if str_eq w.deployment_id d then rest else (w ∷ ws, futures)

unfoldable pub fail_head : String → ResidencyError → Coordinator → Coordinator
unfolding fail_head_loop
fail_head d e s =
    let r = fail_head_loop d e s.queue s.futures in record s { queue = r.0; futures = r.1 }

unfoldable pub fail_each : ResidencyError → List Waiter → List (ℕ × Outcome) → List (ℕ × Outcome)
fail_each e [] futures = futures
fail_each e (w ∷ ws) futures = fail_each e ws (settle e w futures)

unfoldable pub fail_all : ResidencyError → Coordinator → Coordinator
unfolding fail_each bump
fail_all e s = bump (record s { queue = []; futures = fail_each e s.queue s.futures })

unfoldable pub release_locked : ℕ → ℕ → Coordinator → Coordinator
unfolding bump
release_locked now epoch s =
    if not (epoch == s.epoch) || leb s.active 0
    then s
    else bump (record s { active = s.active - 1; last_used = now })
