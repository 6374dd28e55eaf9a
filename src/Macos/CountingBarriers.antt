-- ===== src/Macos/CountingBarriers.antt =====
-- macos/service/src/mnemosyne_macos/coordinator.py: `_inflight` against the permits that are out, through
-- the sections of the barriers, the audits and the shutdown.
use mnemosyne_inference.Prelude.{
  ℕ, ◌≡◌, refl, Bool, true, false, ◌&&◌, ◌||◌, not, Option, none, some, List, arith, String, ltb,
  leb, ◌==◌, ◌-◌, is_nil, is_none, Bool-cases, inl, inr,
}
use mnemosyne_inference.Leasing.{
  holds, remove_lease, one_if, held-remove_lease, remove_lease-LeasesUpTo,
}
use mnemosyne_inference.Macos.Targets.{
  ResidentInstance, Inspection, inspect_all, is_empty_inspection, matches,
}
use mnemosyne_inference.Macos.Types.{
  CoordinatorError, task_done, is_transition_state, Kind, unload_call, abort_call, maintenance_call,
  reconcile_call, initialize_call, Stage, evicting, drain, before_lock, inspecting, unloading_all,
  emptying_all, operating, verifying, failing, await_driver, closing, Audit, audit_waiting,
  audit_inspecting, audit_failed, audit_judging, Shutdown, not_called, drain_grace, before_cleanup,
  cleaning_up, shut_down, await_grace, Coordinator,
}
use mnemosyne_inference.Macos.Locked.{publish_state, fail_all}
use mnemosyne_inference.Macos.Barrier.{
  close_admission, drain_check, unload, run_empty_maintenance, reconcile, initialize, abort_epoch,
  abort, evict_if_idle, reopen, drain_timeout, await_check, lock_stage, take_lock, fail_closed,
  close_empty, close_reconcile, close_barrier, run_stage, compare_stage, inspect_stage, empty_stage,
  answer_stage,
}
use mnemosyne_inference.Macos.Audit.{degrade, run_audit, begin_shutdown, end_shutdown, run_shutdown}
use mnemosyne_inference.Macos.Counting.{
  IsCountedBut, IsCounted, fail_all-IsCountedBut, fail_all-IsCounted, release_locked-IsCounted,
  remove_lease-IsCounted,
}

module _ (tight : Bool) (k : ℕ) where
  close_admission-IsCountedBut :
      (x : ℕ) (reason : String) (s : Coordinator)
      → IsCountedBut tight k x s
      → IsCountedBut tight k x (close_admission reason s)
  unfolding close_admission
  close_admission-IsCountedBut x reason s h =
      fail_all-IsCountedBut tight k x _ _ (ground (arith, h))

  close_admission-IsCounted :
      (reason : String) (s : Coordinator)
      → IsCounted tight k s
      → IsCounted tight k (close_admission reason s)
  close_admission-IsCounted reason s h = close_admission-IsCountedBut 0 reason s h

  close_admission_epoch :
      (reason : String) (s : Coordinator) → (close_admission reason s).epoch ≡ s.epoch
  unfolding close_admission fail_all
  close_admission_epoch reason s = refl

  drain_check-IsCounted :
      (c : Kind) (s : Coordinator) → IsCounted tight k s → IsCounted tight k (drain_check c s).1
  unfolding drain_check publish_state
  drain_check-IsCounted c s h = elim (Bool-cases (ltb 0 s.inflight)) [
    | inl e ↦ simp e (ground (arith, h))
    | inr e ↦ simp e h
  ]

  pub unload-IsCounted : (s : Coordinator) → IsCounted tight k s → IsCounted tight k (unload s).1
  unfolding unload
  unload-IsCounted s h = drain_check-IsCounted _ _ (close_admission-IsCounted _ s h)

  pub run_empty_maintenance-IsCounted :
      (s : Coordinator) → IsCounted tight k s → IsCounted tight k (run_empty_maintenance s).1
  unfolding run_empty_maintenance
  run_empty_maintenance-IsCounted s h = drain_check-IsCounted _ _ (close_admission-IsCounted _ s h)

  pub reconcile-IsCounted :
      (s : Coordinator) → IsCounted tight k s → IsCounted tight k (reconcile s).1
  unfolding reconcile
  reconcile-IsCounted s h = elim (Bool-cases s.is_stopping) [
    | inl e ↦ simp e h
    | inr e ↦ simp e (drain_check-IsCounted _ _ (close_admission-IsCounted _ s h))
  ]

  pub initialize-IsCounted :
      (s : Coordinator) → IsCounted tight k s → IsCounted tight k (initialize s).1
  unfolding initialize
  initialize-IsCounted s h = elim (Bool-cases s.is_stopping) [
    | inl e ↦ simp e h
    | inr e ↦ simp e (ground (arith, h))
  ]

  closed_lease :
      (e : ℕ) (s : Coordinator)
      → holds e s.leases ≡ true
      → IsCounted tight k s
      → (let s1 =
            close_admission "resident request abort in progress"
              (record s { leases = remove_lease e s.leases }) in
          IsCountedBut tight k (one_if (e == s1.epoch)) s1)
  unfolding close_admission fail_all
  closed_lease e s out h =
      close_admission-IsCountedBut (one_if (e == s.epoch)) _ _
        (remove_lease-IsCounted tight k e s out h)

  abort_epoch-IsCounted :
      (now e : ℕ) (s : Coordinator)
      → holds e s.leases ≡ true
      → IsCounted tight k s
      → IsCounted tight k (abort_epoch now e (record s { leases = remove_lease e s.leases })).1
  unfolding abort_epoch
  abort_epoch-IsCounted now e s out h = elim (Bool-cases (e == s.epoch)) [
    | inl current ↦ simp current (
        drain_check-IsCounted _ _
          (release_locked-IsCounted tight k now e _ (closed_lease e s out h)))
    | inr old ↦ rw old (
        ground (
          arith,
          h,
          held-remove_lease e s.epoch s.leases out,
          remove_lease-LeasesUpTo e s.epoch s.leases h.leases_old,
        ))
  ]

  pub abort-IsCounted :
      (now e : ℕ) (s : Coordinator) → IsCounted tight k s → IsCounted tight k (abort now e s).1
  unfolding abort
  abort-IsCounted now e s h = elim (Bool-cases (holds e s.leases)) [
    | inr gone ↦ rw gone h
    | inl out ↦ rw out (abort_epoch-IsCounted now e s out h)
  ]

  pub evict_if_idle-IsCounted :
      (now n : ℕ) (s : Coordinator)
      → IsCounted tight k s
      → IsCounted tight k (evict_if_idle now n s).1
  unfolding evict_if_idle
  evict_if_idle-IsCounted now n s h =
      elim (Bool-cases (
        not (is_none s.resident)
        && s.inflight == 0
        && is_nil s.queue
        && s.accepting
        && leb n (now - s.last_used))) [ inl e ↦ simp e (ground (arith, h)) | inr e ↦ simp e h ]

  drain_timeout-IsCounted :
      (c : Kind) (s : Coordinator) → IsCounted tight k s → IsCounted tight k (drain_timeout c s).1
  unfolding drain_timeout reopen
  drain_timeout-IsCounted unload_call s h = ground (arith, h)
  drain_timeout-IsCounted reconcile_call s h = ground (arith, h)
  drain_timeout-IsCounted maintenance_call s h = h
  drain_timeout-IsCounted initialize_call s h = h
  drain_timeout-IsCounted abort_call s h = ground (arith, h)

  await_check-IsCounted :
      (c : Kind) (task : ℕ) (late well : Bool) (s : Coordinator)
      → IsCounted tight k s
      → IsCounted tight k (await_check c task late well s).1
  unfolding await_check
  await_check-IsCounted c task late well s h = ground (arith, h)

  take_lock-IsCounted :
      (c : Kind) (late : Bool) (s : Coordinator)
      → IsCounted tight k s
      → IsCounted tight k (take_lock c late s).1
  unfolding take_lock lock_stage publish_state
  take_lock-IsCounted c late s h = elim (Bool-cases late) [
    | inl e ↦ rw e h
    | inr e ↦
        rw e
          (elim (Bool-cases s.operation_lock) [ inl e' ↦ simp e' h | inr e' ↦ simp e' (locked c) ])
  ]
    where
      locked : (c : Kind) → IsCounted tight k (lock_stage c s).1
      locked unload_call = ground (arith, h)
      locked abort_call = ground (arith, h)
      locked maintenance_call = ground (arith, h)
      locked reconcile_call = ground (arith, h)
      locked initialize_call = ground (arith, h)

  close_barrier-IsCounted :
      (c : Kind) (matched : Bool) (now : ℕ) (s : Coordinator)
      → IsCounted tight k s
      → IsCounted tight k (close_barrier c matched now s)
  unfolding close_barrier close_empty close_reconcile
  close_barrier-IsCounted unload_call matched now s h = ground (arith, h)
  close_barrier-IsCounted abort_call matched now s h = ground (arith, h)
  close_barrier-IsCounted maintenance_call matched now s h = ground (arith, h)
  close_barrier-IsCounted reconcile_call matched now s h = ground (arith, h)
  close_barrier-IsCounted initialize_call matched now s h = ground (arith, h)

  pub run_stage-IsCounted :
      (c : Kind) (g : Stage) (now : ℕ) (late well : Bool) (s : Coordinator)
      → IsCounted tight k s
      → IsCounted tight k (run_stage c g now late well s).1
  unfolding run_stage fail_closed
  run_stage-IsCounted c evicting now late well s h = unload-IsCounted s h
  run_stage-IsCounted c drain now true well s h = drain_timeout-IsCounted c s h
  run_stage-IsCounted c drain now false well s h = drain_check-IsCounted c s h
  run_stage-IsCounted c (await_driver task) now late well s h =
      await_check-IsCounted c task late well s h
  run_stage-IsCounted c before_lock now late well s h = take_lock-IsCounted c late s h
  run_stage-IsCounted c failing now late well s h = ground (arith, h)
  run_stage-IsCounted c (closing matched) now late well s h =
      close_barrier-IsCounted c matched now s h
  run_stage-IsCounted c inspecting now late well s h = h
  run_stage-IsCounted c unloading_all now late well s h = h
  run_stage-IsCounted c emptying_all now late well s h = h
  run_stage-IsCounted c operating now late well s h = h
  run_stage-IsCounted c verifying now late well s h = h

  unlocked-IsCounted :
      (s : Coordinator)
      → IsCounted tight k s
      → IsCounted tight k (record s { operation_lock = false })
  unlocked-IsCounted s h = ground (arith, h)

  inspect_stage-IsCounted :
      (c : Kind) (o : Option (List ResidentInstance)) (s : Coordinator)
      → IsCounted tight k s
      → IsCounted tight k (inspect_stage c o s).1
  unfolding inspect_stage compare_stage
  inspect_stage-IsCounted c none s h = unlocked-IsCounted s h
  inspect_stage-IsCounted reconcile_call (some rs) s h = elim (Bool-cases (matches s.resident rs)) [
    | inl e ↦ rw e (unlocked-IsCounted s h)
    | inr e ↦ rw e h
  ]
  inspect_stage-IsCounted unload_call (some rs) s h = h
  inspect_stage-IsCounted abort_call (some rs) s h = h
  inspect_stage-IsCounted maintenance_call (some rs) s h = h
  inspect_stage-IsCounted initialize_call (some rs) s h = h

  empty_stage-IsCounted :
      (c : Kind) (s : Coordinator) → IsCounted tight k s → IsCounted tight k (empty_stage c s).1
  unfolding empty_stage
  empty_stage-IsCounted maintenance_call s h = h
  empty_stage-IsCounted unload_call s h = unlocked-IsCounted s h
  empty_stage-IsCounted abort_call s h = unlocked-IsCounted s h
  empty_stage-IsCounted reconcile_call s h = unlocked-IsCounted s h
  empty_stage-IsCounted initialize_call s h = unlocked-IsCounted s h

  pub answer_stage-IsCounted :
      (c : Kind) (g : Stage) (seen : Inspection) (done : Bool) (s : Coordinator)
      → IsCounted tight k s
      → IsCounted tight k (answer_stage c g seen done s).1
  unfolding answer_stage publish_state
  answer_stage-IsCounted c inspecting seen done s h =
      inspect_stage-IsCounted c (inspect_all seen) s h
  answer_stage-IsCounted c unloading_all seen done s h =
      elim (Bool-cases (done && not (is_none (inspect_all seen)))) [
        | inl e ↦ rw e (ground (arith, h))
        | inr e ↦ rw e (unlocked-IsCounted s h)
      ]
  answer_stage-IsCounted c emptying_all seen done s h =
      elim (Bool-cases (is_empty_inspection (inspect_all seen))) [
        | inl e ↦ rw e (empty_stage-IsCounted c s h)
        | inr e ↦ rw e (unlocked-IsCounted s h)
      ]
  answer_stage-IsCounted c operating seen true s h = h
  answer_stage-IsCounted c operating seen false s h = unlocked-IsCounted s h
  answer_stage-IsCounted c verifying seen done s h =
      elim (Bool-cases (is_empty_inspection (inspect_all seen))) [
        | inl e ↦ rw e (unlocked-IsCounted s h)
        | inr e ↦ rw e (unlocked-IsCounted s h)
      ]
  answer_stage-IsCounted c evicting seen done s h = h
  answer_stage-IsCounted c drain seen done s h = h
  answer_stage-IsCounted c before_lock seen done s h = h
  answer_stage-IsCounted c failing seen done s h = h
  answer_stage-IsCounted c (await_driver t) seen done s h = h
  answer_stage-IsCounted c (closing m) seen done s h = h

  degrade-IsCounted :
      (d r : String) (s : Coordinator) → IsCounted tight k s → IsCounted tight k (degrade d r s)
  unfolding degrade
  degrade-IsCounted d r s h = fail_all-IsCounted tight k _ _ (ground (arith, h))

  pub run_audit-IsCounted :
      (a : Audit) (late : Bool) (seen : Inspection) (s : Coordinator)
      → IsCounted tight k s
      → IsCounted tight k (run_audit a late seen s).1
  unfolding run_audit
  run_audit-IsCounted audit_waiting late seen s h = elim (Bool-cases late) [
    | inl e ↦ rw e h
    | inr e ↦ rw e (elim (Bool-cases s.operation_lock) [
      | inl e' ↦ simp e' h
      | inr e' ↦ simp e' (ground (arith, h))
    ])
  ]
  run_audit-IsCounted audit_inspecting late seen s h = unlocked-IsCounted s h
  run_audit-IsCounted (audit_failed timed_out) late seen s h =
      elim (Bool-cases (timed_out && is_transition_state s.state)) [
        | inl e ↦ rw e h
        | inr e ↦ rw e (degrade-IsCounted _ _ s h)
      ]
  run_audit-IsCounted (audit_judging rs) late seen s h =
      elim (Bool-cases (is_transition_state s.state || matches s.resident rs)) [
        | inl e ↦ rw e h
        | inr e ↦ rw e (degrade-IsCounted _ _ s h)
      ]

  pub run_shutdown-IsCounted :
      (g : Shutdown) (late : Bool) (s : Coordinator)
      → IsCounted tight k s
      → IsCounted tight k (run_shutdown g late s)
  unfolding run_shutdown end_shutdown begin_shutdown
  run_shutdown-IsCounted (drain_grace task) late s h = elim (Bool-cases (late || s.inflight == 0)) [
    | inl e ↦ simp e (ground (arith, h))
    | inr e ↦ simp e h
  ]
  run_shutdown-IsCounted (await_grace task) late s h =
      elim (Bool-cases (late || task_done s.driver || not (s.driver_task == task))) [
        | inl e ↦ simp e (ground (arith, h))
        | inr e ↦ simp e h
      ]
  run_shutdown-IsCounted before_cleanup late s h = elim (Bool-cases late) [
    | inl e ↦ rw e (ground (arith, h))
    | inr e ↦ rw e (elim (Bool-cases s.operation_lock) [
      | inl e' ↦ simp e' h
      | inr e' ↦ simp e' (ground (arith, h))
    ])
  ]
  run_shutdown-IsCounted cleaning_up late s h = ground (arith, h)
  run_shutdown-IsCounted not_called late s h =
      let kept =
        fail_all-IsCounted tight k (CoordinatorError.refused "coordinator is stopping") s h in
      record {
        lower = kept.lower;
        upper = kept.upper;
        leases_old = kept.leases_old;
        futures_old = kept.futures_old;
      }
  run_shutdown-IsCounted shut_down late s h = h
