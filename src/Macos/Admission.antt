-- ===== src/Macos/Admission.antt =====
-- macos/service/src/mnemosyne_macos/coordinator.py: `acquire`, `_cancel_waiter` and `ModelLease.release`,
-- each critical section under the condition as one function.
use mnemosyne_inference.Prelude.{
  ℕ, ◌+◌, Bool, true, false, ◌&&◌, not, Option, none, some, List, [], ◌∷◌, ◌++◌, ltb, leb, ◌==◌,
  is_none, is_nil, length, if◌then◌else◌,
}
use mnemosyne_inference.Leasing.{outcome, drop_future, holds, remove_lease}
use mnemosyne_inference.Macos.Targets.{ResolvedTarget, same_load}
use mnemosyne_inference.Macos.Types.{
  CoordinatorError, queue_full, refused, ready, state_eq, Waiter, Outcome, granted, failed,
  Coordinator,
}
use mnemosyne_inference.Macos.Locked.{available, purge_cancelled, ensure_driver, release_locked}

-- What the first section of an `acquire` ends in: a lease of an epoch, an exception, or a wait.
pub data Reply : Type 0 where
  leased : (epoch : ℕ) → Reply
  raised : CoordinatorError → Reply
  waiting : Reply

-- The lease of the fast path: the permit is counted and the lease object is the caller's.
unfoldable pub grant_now : Coordinator → Coordinator
grant_now s = record s { inflight = s.inflight + 1; leases = s.epoch ∷ s.leases }

-- The part of the fast path's test that a transition keeps false.
unfoldable pub is_settled : Coordinator → Bool
is_settled s = state_eq s.state ready && is_none s.transition_target

unfoldable pub serves_at_once :
    Option ℕ → ResolvedTarget → Option ResolvedTarget → Coordinator → Bool
serves_at_once hint t none s = false
serves_at_once hint t (some r) s =
    is_nil s.queue && same_load r t && is_settled s && ltb 0 (available hint r s)

unfoldable pub enqueue : Waiter → Coordinator → Coordinator
enqueue w s = ensure_driver (record s { queue = s.queue ++ w ∷ [] })

unfoldable pub admit : Option ℕ → Waiter → Coordinator → Coordinator × Reply
admit hint w s =
    if serves_at_once hint w.target s.resident s
    then (grant_now s, leased s.epoch)
    else if leb s.max_queue_depth (length s.queue)
    then (s, raised queue_full)
    else (enqueue w s, waiting)

-- `acquire` up to its wait, for a target of a configured engine. The ticket names the new waiter.
unfoldable pub acquire :
    Option ℕ → (ticket : ℕ) → ResolvedTarget → Coordinator → Coordinator × Reply
acquire hint ticket t s =
    if s.is_stopping
    then (s, raised (refused "coordinator is stopping"))
    else if not s.initialized
    then (s, raised (refused "coordinator is not initialized"))
    else if not s.accepting
    then (s, raised (refused "coordinator is temporarily not accepting requests"))
    else admit hint (record { ticket = ticket; target = t; cancelled = false }) (purge_cancelled s)

-- The end of `acquire` when its future is done: the lease, or the exception.
unfoldable pub settle_wait : ℕ → Option Outcome → Coordinator → Coordinator × Reply
settle_wait t none s = (s, waiting)
settle_wait t (some (granted p e)) s =
    (record s { futures = drop_future t s.futures; leases = e ∷ s.leases }, leased e)
settle_wait t (some (failed e)) s = (record s { futures = drop_future t s.futures }, raised e)

unfoldable pub collect : ℕ → Coordinator → Coordinator × Reply
collect t s = settle_wait t (outcome t s.futures) s

unfoldable pub cancel_in : ℕ → List Waiter → List Waiter
cancel_in t [] = []
cancel_in t (w ∷ ws) = (if w.ticket == t then record w { cancelled = true } else w) ∷ cancel_in t ws

-- `_cancel_waiter` by what the waiter's future was settled with. A granted permit goes back; the
-- future is done with when the waiting task ends.
unfoldable pub return_permit : (now : ℕ) → ℕ → Option Outcome → Coordinator → Coordinator
return_permit now t none s = s
return_permit now t (some (granted p e)) s =
    release_locked now e (record s { futures = drop_future t s.futures })
return_permit now t (some (failed e)) s = record s { futures = drop_future t s.futures }

-- The end of `acquire` on a timeout or a cancellation.
unfoldable pub cancel_waiter : (now : ℕ) → ℕ → Coordinator → Coordinator
cancel_waiter now t s =
    return_permit now t (outcome t s.futures) (record s { queue = cancel_in t s.queue })

unfoldable pub release_section : (now epoch : ℕ) → Coordinator → Coordinator
release_section now e s =
    let s' = release_locked now e s in if is_nil s'.queue then s' else ensure_driver s'

-- `ModelLease.release` of a lease of epoch `e`: a lease is released once.
unfoldable pub release : (now epoch : ℕ) → Coordinator → Coordinator
release now e s =
    if holds e s.leases
    then release_section now e (record s { leases = remove_lease e s.leases })
    else s
