-- ===== src/Residency/Admission.antt =====
-- cuda_residency.py: `acquire`, `acquire_current`, `_cancel_waiter`, `_release`, `reconfigure` and
-- `status`, each critical section under the condition as one function.
use mnemosyne_inference.Prelude.{
  ℕ, ◌+◌, String, Bool, true, false, ◌&&◌, not, Option, none, some, List, [], ◌∷◌, ◌++◌, ltb, leb,
  ◌==◌, opt_str_eq, is_none, is_nil, length, if◌then◌else◌,
}
use mnemosyne_inference.Residency.Types.{
  Profile, ResidencyError, queue_full, not_accepting, ready, state_eq, Waiter, Outcome, granted,
  failed, Coordinator,
}
use mnemosyne_inference.Residency.Locked.{
  bump, effective_limit, admits, purge_cancelled, ensure_driver, release_locked,
}
unfoldable pub use mnemosyne_inference.Leasing.{outcome, drop_future, holds, remove_lease}

-- What the first section of an `acquire` ends in: a lease of an epoch, an exception, or a wait.
pub data Reply : Type 0 where
  leased : (epoch : ℕ) → Reply
  raised : ResidencyError → Reply
  waiting : Reply

-- The lease of the fast path: the permit is counted and the lease object is the caller's.
unfoldable pub grant_now : Coordinator → Coordinator
unfolding bump
grant_now s = bump (record s { active = s.active + 1; leases = s.epoch ∷ s.leases })

unfoldable pub enqueue : Waiter → Coordinator → Coordinator
unfolding bump ensure_driver
enqueue w s = ensure_driver (bump (record s { queue = s.queue ++ w ∷ [] }))

unfoldable pub is_warm : String → Coordinator → Bool
unfolding effective_limit
is_warm d s =
    is_nil s.queue
    && opt_str_eq s.resident_deployment_id (some d)
    && state_eq s.state ready
    && ltb s.active (effective_limit s)

unfoldable pub admit : Waiter → Coordinator → Coordinator × Reply
admit w s =
    if is_warm w.deployment_id s
    then (grant_now s, leased s.epoch)
    else if leb s.max_queue_depth (length s.queue)
    then (s, raised queue_full)
    else (enqueue w s, waiting)

-- `acquire` up to its wait. The ticket names the new waiter.
unfoldable pub acquire : ℕ → Profile → String → Coordinator → Coordinator × Reply
acquire ticket p d s =
    if admits s
    then admit (record { ticket = ticket; profile = p; deployment_id = d; cancelled = false })
        (purge_cancelled s)
    else (s, raised not_accepting)

unfoldable pub is_current : Coordinator → Bool
unfolding effective_limit
is_current s =
    not (is_none s.resident_profile)
    && not (is_none s.resident_deployment_id)
    && is_nil s.queue
    && state_eq s.state ready
    && ltb s.active (effective_limit s)

unfoldable pub acquire_current : Coordinator → Coordinator × Reply
acquire_current s =
    if admits s
    then (if is_current s then (grant_now s, leased s.epoch) else (s, raised queue_full))
    else (s, raised not_accepting)

unfoldable pub cancel_in : ℕ → List Waiter → List Waiter
cancel_in t [] = []
cancel_in t (w ∷ ws) = (if w.ticket == t then record w { cancelled = true } else w) ∷ cancel_in t ws

-- The end of `acquire` when its future is done: the lease, or the exception.
unfoldable pub settle_wait : ℕ → Option Outcome → Coordinator → Coordinator × Reply
settle_wait t none s = (s, waiting)
settle_wait t (some (granted p e)) s =
    (record s { futures = drop_future t s.futures; leases = e ∷ s.leases }, leased e)
settle_wait t (some (failed e)) s = (record s { futures = drop_future t s.futures }, raised e)

unfoldable pub collect : ℕ → Coordinator → Coordinator × Reply
collect t s = settle_wait t (outcome t s.futures) s

-- `_cancel_waiter` by what the waiter's future was settled with. A granted permit goes back; the
-- future is done with when the waiting task ends.
unfoldable pub return_permit : ℕ → ℕ → Option Outcome → Coordinator → Coordinator
return_permit now t none s = s
return_permit now t (some (granted p e)) s =
    release_locked now e (record s { futures = drop_future t s.futures })
return_permit now t (some (failed e)) s = record s { futures = drop_future t s.futures }

-- The end of `acquire` on a timeout or a cancellation.
unfoldable pub cancel_waiter : ℕ → ℕ → Coordinator → Coordinator
cancel_waiter now t s =
    let marked : Coordinator = record s { queue = cancel_in t s.queue } in
    bump (purge_cancelled (return_permit now t (outcome t s.futures) marked))

unfoldable pub release_section : ℕ → ℕ → Coordinator → Coordinator
release_section now e s =
    let s' = release_locked now e s in
    if not (is_nil s'.queue) && s'.accepting then ensure_driver s' else s'

-- `ModelLease.release` of a lease of epoch `e`: a lease is released once.
unfoldable pub release : ℕ → ℕ → Coordinator → Coordinator
release now e s =
    if holds e s.leases
    then release_section now e (record s { leases = remove_lease e s.leases })
    else s

unfoldable pub is_positive : Option ℕ → Bool
is_positive none = true
is_positive (some n) = leb 1 n

-- `none` is the `ValueError`.
unfoldable pub reconfigure : Option ℕ → ℕ → Coordinator → Option Coordinator
unfolding is_positive bump ensure_driver
reconfigure configured depth s =
    if is_positive configured && leb 1 depth
    then some (
        ensure_driver
          (bump (record s { configured_max_concurrency = configured; max_queue_depth = depth })))
    else none
