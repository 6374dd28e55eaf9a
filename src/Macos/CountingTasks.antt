-- ===== src/Macos/CountingTasks.antt =====
-- macos/service/src/mnemosyne_macos/coordinator.py: `_inflight` against the permits that are out, through
-- the sections of the driver, the barriers, the audits and the shutdown.
use mnemosyne_inference.Prelude.{
  ℕ, ◌≤◌, ◌≡◌, Bool, true, false, ◌&&◌, ◌||◌, not, Option, none, some, List, [], ◌∷◌, arith, ltb,
  ◌==◌, is_nil, Bool-cases, inl, inr, if◌then◌else◌,
}
use native.Mathlib.Nat.{le_refl}
use mnemosyne_inference.Leasing.{held, held-past, owed-past, LeasesUpTo-suc, FuturesUpTo-suc}
use mnemosyne_inference.Macos.Targets.{
  ResolvedTarget, ResidentInstance, same_load, Inspection, inspect_all, is_empty_inspection,
  verifies,
}
use mnemosyne_inference.Macos.Types.{
  CoordinatorError, CoordinatorState, degraded, state_eq, Waiter, Driver, emptying_for, Coordinator,
}
use mnemosyne_inference.Macos.Locked.{publish_state, purge_cancelled, grant_head_group}
use mnemosyne_inference.Macos.Driver.{
  unless_degraded, drive_empty, serve_resident, begin_switch, drive_head, drive_queue, stop_driving,
  drive_open, drive, finish_driver, to_stage, lock_transition, raise_transition, answer_unload,
  answer_empty, answer_load, answer_verify, publish_handle, close_unclean, fail_transition,
  cancel_driver,
}
use mnemosyne_inference.Macos.Counting.{
  IsCounted, ensure_driver-IsCounted, fail_all-IsCounted, fail_head_group-IsCounted,
  grant_head_group-IsCounted,
}

module _ (tight : Bool) (k : ℕ) where
  unless_degraded-IsCounted :
      (x : CoordinatorState) (s : Coordinator)
      → IsCounted tight k s
      → IsCounted tight k (unless_degraded x s)
  unfolding unless_degraded publish_state
  unless_degraded-IsCounted x s h = elim (Bool-cases (state_eq s.state degraded)) [
    | inl e ↦ rw e h
    | inr e ↦ rw e (ground (arith, h))
  ]

  drive_empty-IsCounted :
      (r : Option ResolvedTarget) (s : Coordinator)
      → IsCounted tight k s
      → IsCounted tight k (drive_empty r s)
  unfolding drive_empty
  drive_empty-IsCounted none s h = unless_degraded-IsCounted _ _ (ground (arith, h))
  drive_empty-IsCounted (some r) s h = unless_degraded-IsCounted _ _ (ground (arith, h))

  serve_resident-IsCounted :
      (hint : Option ℕ) (r head : ResolvedTarget) (s : Coordinator)
      → IsCounted tight k s
      → IsCounted tight k (serve_resident hint r head s)
  unfolding serve_resident
  serve_resident-IsCounted hint r head s h =
      let s1 : Coordinator = record s { transition_target = none } in
      let kept : IsCounted tight k (grant_head_group hint r head s1).0 =
        grant_head_group-IsCounted tight k hint r head s1 (ground (arith, h)) in
      elim (Bool-cases ((grant_head_group hint r head s1).1 == 0)) [
        | inl e ↦ rw e (unless_degraded-IsCounted _ _ kept)
        | inr e ↦ rw e kept
      ]

  drive_head-IsCounted :
      (hint : Option ℕ) (r : Option ResolvedTarget) (head : ResolvedTarget) (s : Coordinator)
      → IsCounted tight k s
      → IsCounted tight k (drive_head hint r head s)
  unfolding drive_head begin_switch publish_state
  drive_head-IsCounted hint none head s h = ground (arith, h)
  drive_head-IsCounted hint (some r) head s h = elim (Bool-cases (same_load r head)) [
    | inl e ↦ rw e (serve_resident-IsCounted hint r head s h)
    | inr e ↦ rw e (elim (Bool-cases (ltb 0 s.inflight)) [
      | inl busy ↦ simp busy (ground (arith, h))
      | inr quiet ↦ simp quiet (ground (arith, h))
    ])
  ]

  drive_queue-IsCounted :
      (hint : Option ℕ) (ws : List Waiter) (s : Coordinator)
      → IsCounted tight k s
      → IsCounted tight k (drive_queue hint ws s)
  unfolding drive_queue
  drive_queue-IsCounted hint [] s h = drive_empty-IsCounted s.resident s h
  drive_queue-IsCounted hint (w ∷ ws) s h = drive_head-IsCounted hint s.resident w.target s h

  stop_driving-IsCounted :
      (e : CoordinatorError) (s : Coordinator)
      → IsCounted tight k s
      → IsCounted tight k (stop_driving e s)
  unfolding stop_driving
  stop_driving-IsCounted e s h =
      let kept = fail_all-IsCounted tight k e s h in
      record {
        lower = kept.lower;
        upper = kept.upper;
        leases_old = kept.leases_old;
        futures_old = kept.futures_old;
      }

  drive_open-IsCounted :
      (hint : Option ℕ) (s : Coordinator)
      → IsCounted tight k s
      → IsCounted tight k (drive_open hint s)
  unfolding drive_open
  drive_open-IsCounted hint s h = elim (Bool-cases s.is_stopping) [
    | inl e ↦ simp e (stop_driving-IsCounted _ s h)
    | inr e ↦ simp e (elim (Bool-cases (not s.initialized || not s.accepting)) [
      | inl e' ↦ simp e' (stop_driving-IsCounted _ s h)
      | inr e' ↦ simp e' (drive_queue-IsCounted hint s.queue s h)
    ])
  ]

  pub drive-IsCounted :
      (hint : Option ℕ) (s : Coordinator) → IsCounted tight k s → IsCounted tight k (drive hint s)
  unfolding drive
  drive-IsCounted hint s h =
      drive_open-IsCounted hint _ (unfold purge_cancelled in (ground (arith, h)))

  pub finish_driver-IsCounted :
      (s : Coordinator) → IsCounted tight k s → IsCounted tight k (finish_driver s)
  unfolding finish_driver
  finish_driver-IsCounted s h = elim (Bool-cases (not (is_nil s.queue) && not s.is_stopping)) [
    | inl e ↦ simp e (ensure_driver-IsCounted tight k _ (ground (arith, h)))
    | inr e ↦ simp e (ground (arith, h))
  ]

  pub to_stage-IsCounted :
      (d : Driver) (x : CoordinatorState) (s : Coordinator)
      → IsCounted tight k s
      → IsCounted tight k (to_stage d x s)
  unfolding to_stage publish_state
  to_stage-IsCounted d x s h = ground (arith, h)

  pub raise_transition-IsCounted :
      (t : ResolvedTarget) (e : CoordinatorError) (s : Coordinator)
      → IsCounted tight k s
      → IsCounted tight k (raise_transition t e s)
  unfolding raise_transition
  raise_transition-IsCounted t e s h = ground (arith, h)

  pub lock_transition-IsCounted :
      (t : ResolvedTarget) (s : Coordinator)
      → IsCounted tight k s
      → IsCounted tight k (lock_transition t s)
  unfolding lock_transition
  lock_transition-IsCounted t s h = to_stage-IsCounted _ _ _ (ground (arith, h))

  pub answer_unload-IsCounted :
      (t : ResolvedTarget) (seen : Inspection) (done : Bool) (s : Coordinator)
      → IsCounted tight k s
      → IsCounted tight k (answer_unload t seen done s)
  unfolding answer_unload
  answer_unload-IsCounted t seen done s h = by_answer (inspect_all seen) done
    where
      by_answer :
          (o : Option (List ResidentInstance)) (b : Bool)
          → IsCounted tight k (elim o [
            | none ↦ raise_transition t (CoordinatorError.refused "engine state is uncertain") s
            | some rs ↦
                (if b
                  then to_stage (emptying_for t) CoordinatorState.verifying_empty s
                  else raise_transition t (CoordinatorError.engine_error 0) s)
          ])
      by_answer none b = raise_transition-IsCounted t _ s h
      by_answer (some rs) true = to_stage-IsCounted _ _ s h
      by_answer (some rs) false = raise_transition-IsCounted t _ s h

  pub answer_empty-IsCounted :
      (t : ResolvedTarget) (seen : Inspection) (s : Coordinator)
      → IsCounted tight k s
      → IsCounted tight k (answer_empty t seen s)
  unfolding answer_empty
  answer_empty-IsCounted t seen s h = elim (Bool-cases (is_empty_inspection (inspect_all seen))) [
    | inl e ↦ rw e (to_stage-IsCounted _ _ s h)
    | inr e ↦ rw e (raise_transition-IsCounted t _ s h)
  ]

  pub answer_load-IsCounted :
      (t : ResolvedTarget) (done : Bool) (s : Coordinator)
      → IsCounted tight k s
      → IsCounted tight k (answer_load t done s)
  unfolding answer_load
  answer_load-IsCounted t true s h = to_stage-IsCounted _ _ s h
  answer_load-IsCounted t false s h = raise_transition-IsCounted t _ s h

  pub answer_verify-IsCounted :
      (t : ResolvedTarget) (seen : Inspection) (s : Coordinator)
      → IsCounted tight k s
      → IsCounted tight k (answer_verify t seen s)
  unfolding answer_verify
  answer_verify-IsCounted t seen s h = elim (Bool-cases (verifies t (inspect_all seen))) [
    | inl e ↦ rw e (ground (arith, h))
    | inr e ↦ rw e (raise_transition-IsCounted t _ s h)
  ]

  -- The next epoch has no permit out: what is in `_inflight` then stays there.
  pub publish_handle-IsCounted :
      (t : ResolvedTarget) (s : Coordinator)
      → (tight ≡ true → s.inflight ≤ k)
      → IsCounted tight k s
      → IsCounted tight k (publish_handle t s)
  unfolding publish_handle
  publish_handle-IsCounted t s few h =
      let no_lease = held-past s.epoch s.epoch s.leases h.leases_old (le_refl _) in
      let no_grant = owed-past s.epoch s.epoch s.futures h.futures_old (le_refl _) in
      let leases = LeasesUpTo-suc s.epoch s.leases h.leases_old in
      let futures = FuturesUpTo-suc s.epoch s.futures h.futures_old in
      elim (Bool-cases (s.initialized && s.accepting && not s.is_stopping)) [
        | inl e ↦ simp e (ground (arith, h, no_lease, no_grant, leases, futures, few))
        | inr e ↦ simp e (ground (arith, h, no_lease, no_grant, leases, futures, few))
      ]

  pub fail_transition-IsCounted :
      (t : ResolvedTarget) (e : CoordinatorError) (clean : Bool) (s : Coordinator)
      → IsCounted tight k s
      → IsCounted tight k (fail_transition t e clean s)
  unfolding fail_transition close_unclean
  fail_transition-IsCounted t e true s h =
      fail_head_group-IsCounted tight k t e _ (ground (arith, h))
  fail_transition-IsCounted t e false s h =
      fail_head_group-IsCounted tight k t e _ (ground (arith, h))

  pub cancel_driver-IsCounted :
      (held : Bool) (s : Coordinator)
      → IsCounted tight k s
      → IsCounted tight k (cancel_driver held s)
  unfolding cancel_driver
  cancel_driver-IsCounted held s h = ground (arith, h)
