-- ===== src/Macos/Lock.antt =====
-- macos/service/src/mnemosyne_macos/coordinator.py: the operation lock against the tasks that work on the
-- engines, through the sections of callers and of the driver.
use mnemosyne_inference.Prelude.{
  ℕ, ◌+◌, ◌≡◌, refl, ◌∙◌, ◌||◌, not, Option, none, some, arith, leb, ◌==◌, is_nil, length,
  Bool-cases, inl, inr, if◌then◌else◌,
}
use mnemosyne_inference.Leasing.{outcome, holds, one_if}
use mnemosyne_inference.Macos.Targets.{ResolvedTarget}
use mnemosyne_inference.Macos.Types.{
  CoordinatorError, Waiter, Outcome, granted, failed, Driver, absent, driving, finishing,
  queued_for, unloading_for, emptying_for, loading_for, verifying_for, loaded_for, cleaning_for,
  task_done, holds_lock, Coordinator,
}
use mnemosyne_inference.Macos.Locked.{purge_cancelled, ensure_driver, fail_all, release_locked}
use mnemosyne_inference.Macos.Admission.{
  grant_now, serves_at_once, enqueue, admit, acquire, settle_wait, collect, return_permit,
  cancel_waiter, release_section, release,
}

-- The driver and the lock change together, and the other tasks stay.
pub record IsBalanced (s s' : Coordinator) : Type 0 where
  pub balance :
      one_if (holds_lock s'.driver) + one_if s.operation_lock
      ≡ one_if (holds_lock s.driver) + one_if s'.operation_lock
  pub same_barriers : s'.barriers ≡ s.barriers
  pub same_audits : s'.audits ≡ s.audits
  pub same_shutdown : s'.shutdown ≡ s.shutdown

pub IsBalanced-refl : (s : Coordinator) → IsBalanced s s
IsBalanced-refl s = record {
  balance = refl;
  same_barriers = refl;
  same_audits = refl;
  same_shutdown = refl;
}

pub IsBalanced-trans : (s t u : Coordinator) → IsBalanced s t → IsBalanced t u → IsBalanced s u
IsBalanced-trans s t u h k = record {
  balance = let a = h.balance in let b = k.balance in omega arith;
  same_barriers = k.same_barriers ∙ h.same_barriers;
  same_audits = k.same_audits ∙ h.same_audits;
  same_shutdown = k.same_shutdown ∙ h.same_shutdown;
}

pub ensure_driver-IsBalanced : (s : Coordinator) → IsBalanced s (ensure_driver s)
unfolding ensure_driver
ensure_driver-IsBalanced s = by_driver s.driver refl
  where
    by_driver :
        (d : Driver)
        → s.driver ≡ d
        → IsBalanced s (
            if task_done s.driver
            then record s { driver = driving; driver_task = s.driver_task + 1 }
            else s)
    by_driver absent e = simp e (ground (arith, e))
    by_driver driving e = simp e (IsBalanced-refl s)
    by_driver finishing e = simp e (IsBalanced-refl s)
    by_driver (queued_for t) e = simp e (IsBalanced-refl s)
    by_driver (unloading_for t) e = simp e (IsBalanced-refl s)
    by_driver (emptying_for t) e = simp e (IsBalanced-refl s)
    by_driver (loading_for t) e = simp e (IsBalanced-refl s)
    by_driver (verifying_for t) e = simp e (IsBalanced-refl s)
    by_driver (loaded_for t) e = simp e (IsBalanced-refl s)
    by_driver (cleaning_for t x) e = simp e (IsBalanced-refl s)

release_locked-IsBalanced : (now e : ℕ) (s : Coordinator) → IsBalanced s (release_locked now e s)
unfolding release_locked
release_locked-IsBalanced now e s = elim (Bool-cases (not (e == s.epoch) || leb s.inflight 0)) [
  | inl stale ↦ simp stale (IsBalanced-refl s)
  | inr current ↦ simp current (ground arith)
]

pub fail_all-IsBalanced : (e : CoordinatorError) (s : Coordinator) → IsBalanced s (fail_all e s)
unfolding fail_all
fail_all-IsBalanced e s = ground arith

pub purge_cancelled-IsBalanced : (s : Coordinator) → IsBalanced s (purge_cancelled s)
unfolding purge_cancelled
purge_cancelled-IsBalanced s = ground arith

admit-IsBalanced :
    (hint : Option ℕ) (w : Waiter) (s : Coordinator) → IsBalanced s (admit hint w s).0
unfolding admit enqueue grant_now
admit-IsBalanced hint w s = elim (Bool-cases (serves_at_once hint w.target s.resident s)) [
  | inl e ↦ rw e (ground arith)
  | inr e ↦ rw e (elim (Bool-cases (leb s.max_queue_depth (length s.queue))) [
    | inl full ↦ rw full (IsBalanced-refl s)
    | inr room ↦ rw room (IsBalanced-trans s _ _ (ground arith) (ensure_driver-IsBalanced _))
  ])
]

pub acquire-IsBalanced :
    (hint : Option ℕ) (ticket : ℕ) (t : ResolvedTarget) (s : Coordinator)
    → IsBalanced s (acquire hint ticket t s).0
unfolding acquire
acquire-IsBalanced hint ticket t s = elim (Bool-cases s.is_stopping) [
  | inl e ↦ simp e (IsBalanced-refl s)
  | inr e ↦ simp e (elim (Bool-cases s.initialized) [
    | inr e' ↦ simp e' (IsBalanced-refl s)
    | inl e' ↦ simp e' (elim (Bool-cases s.accepting) [
      | inr e'' ↦ simp e'' (IsBalanced-refl s)
      | inl e'' ↦
          simp e''
            (IsBalanced-trans s _ _ (purge_cancelled-IsBalanced s) (admit-IsBalanced hint _ _))
    ])
  ])
]

settle_wait-IsBalanced :
    (t : ℕ) (o : Option Outcome) (s : Coordinator) → IsBalanced s (settle_wait t o s).0
unfolding settle_wait
settle_wait-IsBalanced t none s = IsBalanced-refl s
settle_wait-IsBalanced t (some (granted p x)) s = ground arith
settle_wait-IsBalanced t (some (failed x)) s = ground arith

pub collect-IsBalanced : (t : ℕ) (s : Coordinator) → IsBalanced s (collect t s).0
unfolding collect
collect-IsBalanced t s = settle_wait-IsBalanced t (outcome t s.futures) s

return_permit-IsBalanced :
    (now t : ℕ) (o : Option Outcome) (s : Coordinator) → IsBalanced s (return_permit now t o s)
unfolding return_permit
return_permit-IsBalanced now t none s = IsBalanced-refl s
return_permit-IsBalanced now t (some (granted p x)) s =
    IsBalanced-trans s _ _ (ground arith) (release_locked-IsBalanced now x _)
return_permit-IsBalanced now t (some (failed x)) s = ground arith

pub cancel_waiter-IsBalanced : (now t : ℕ) (s : Coordinator) → IsBalanced s (cancel_waiter now t s)
unfolding cancel_waiter
cancel_waiter-IsBalanced now t s =
    IsBalanced-trans s _ _ (ground arith) (return_permit-IsBalanced now t (outcome t s.futures) _)

release_section-IsBalanced : (now e : ℕ) (s : Coordinator) → IsBalanced s (release_section now e s)
unfolding release_section
release_section-IsBalanced now e s = elim (Bool-cases (is_nil (release_locked now e s).queue)) [
  | inl none_left ↦ rw none_left (release_locked-IsBalanced now e s)
  | inr some_left ↦
      rw some_left
        (IsBalanced-trans s _ _ (release_locked-IsBalanced now e s) (ensure_driver-IsBalanced _))
]

pub release-IsBalanced : (now e : ℕ) (s : Coordinator) → IsBalanced s (release now e s)
unfolding release
release-IsBalanced now e s = elim (Bool-cases (holds e s.leases)) [
  | inl out ↦ rw out (IsBalanced-trans s _ _ (ground arith) (release_section-IsBalanced now e _))
  | inr gone ↦ rw gone (IsBalanced-refl s)
]
