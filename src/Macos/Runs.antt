-- ===== src/Macos/Runs.antt =====
-- macos/service/src/mnemosyne_macos/coordinator.py: `_inflight` against the permits that are out, through
-- every interleaving of the coordinator's tasks.
use mnemosyne_inference.Prelude.{
  ℕ, ◌≤◌, ◌≡◌, refl, Bool, true, false, Option, none, some, List, [], ◌∷◌, arith, Bool-cases, inl,
  inr,
}
use mnemosyne_inference.Macos.Targets.{ResolvedTarget, Inspection}
use mnemosyne_inference.Macos.Types.{
  CoordinatorError, Driver, absent, driving, finishing, queued_for, unloading_for, emptying_for,
  loading_for, verifying_for, loaded_for, cleaning_for, task_done, holds_lock, Barrier, Audit,
  Coordinator,
}
use mnemosyne_inference.Macos.Barrier.{Section}
use mnemosyne_inference.Macos.Audit.{run_audit, repairs}
use mnemosyne_inference.Macos.System.{
  Call, call_unload, call_maintenance, call_reconcile, call_initialize, call_abort, call_evict,
  Event, ask, take_outcome, give_up_wait, give_back, run_driver, engines_answered, engine_raised,
  cleaned_up, driver_cancelled, start, run_barrier, barrier_answered, barrier_cancelled,
  start_audit, audit_step, shutdown_step, nth, run_driver_at, answer_driver, raise_driver,
  clean_driver, add_barrier, call, put_barrier, run_barrier_at, answer_barrier_at,
  cancel_barrier_at, put_audit, audit_at, step, run,
}
use mnemosyne_inference.Macos.Counting.{
  IsCounted, acquire-IsCounted, collect-IsCounted, cancel_waiter-IsCounted, release-IsCounted,
}
use mnemosyne_inference.Macos.CountingTasks.{
  drive-IsCounted, finish_driver-IsCounted, raise_transition-IsCounted, lock_transition-IsCounted,
  answer_unload-IsCounted, answer_empty-IsCounted, answer_load-IsCounted, answer_verify-IsCounted,
  publish_handle-IsCounted, fail_transition-IsCounted, cancel_driver-IsCounted,
}
use mnemosyne_inference.Macos.CountingBarriers.{
  unload-IsCounted, run_empty_maintenance-IsCounted, reconcile-IsCounted, initialize-IsCounted,
  abort-IsCounted, evict_if_idle-IsCounted, run_stage-IsCounted, answer_stage-IsCounted,
  run_audit-IsCounted, run_shutdown-IsCounted,
}

-- The premise of a section that publishes a handle, and so starts an epoch: no more than the surplus
-- `k` is in flight.
abbrev pub IsQuiet : Bool → ℕ → Coordinator → Type 0
IsQuiet tight k s = (t : ResolvedTarget) → s.driver ≡ loaded_for t → tight ≡ true → s.inflight ≤ k

module _ (tight : Bool) (k : ℕ) where
  run_driver_at-IsCounted :
      (hint : Option ℕ) (d : Driver) (s : Coordinator)
      → ((t : ResolvedTarget) → d ≡ loaded_for t → tight ≡ true → s.inflight ≤ k)
      → IsCounted tight k s
      → IsCounted tight k (run_driver_at hint d s)
  unfolding run_driver_at
  run_driver_at-IsCounted hint driving s few h = drive-IsCounted tight k hint s h
  run_driver_at-IsCounted hint finishing s few h = finish_driver-IsCounted tight k s h
  run_driver_at-IsCounted hint (queued_for t) s few h = elim (Bool-cases s.operation_lock) [
    | inl e ↦ simp e h
    | inr e ↦ simp e (lock_transition-IsCounted tight k t s h)
  ]
  run_driver_at-IsCounted hint (loaded_for t) s few h =
      publish_handle-IsCounted tight k t s (few t refl) h
  run_driver_at-IsCounted hint absent s few h = h
  run_driver_at-IsCounted hint (unloading_for t) s few h = h
  run_driver_at-IsCounted hint (emptying_for t) s few h = h
  run_driver_at-IsCounted hint (loading_for t) s few h = h
  run_driver_at-IsCounted hint (verifying_for t) s few h = h
  run_driver_at-IsCounted hint (cleaning_for t e) s few h = h

  answer_driver-IsCounted :
      (d : Driver) (seen : Inspection) (done : Bool) (s : Coordinator)
      → IsCounted tight k s
      → IsCounted tight k (answer_driver d seen done s)
  unfolding answer_driver
  answer_driver-IsCounted (unloading_for t) seen done s h =
      answer_unload-IsCounted tight k t seen done s h
  answer_driver-IsCounted (emptying_for t) seen done s h = answer_empty-IsCounted tight k t seen s h
  answer_driver-IsCounted (loading_for t) seen done s h = answer_load-IsCounted tight k t done s h
  answer_driver-IsCounted (verifying_for t) seen done s h =
      answer_verify-IsCounted tight k t seen s h
  answer_driver-IsCounted absent seen done s h = h
  answer_driver-IsCounted driving seen done s h = h
  answer_driver-IsCounted finishing seen done s h = h
  answer_driver-IsCounted (queued_for t) seen done s h = h
  answer_driver-IsCounted (loaded_for t) seen done s h = h
  answer_driver-IsCounted (cleaning_for t e) seen done s h = h

  raise_driver-IsCounted :
      (e : CoordinatorError) (d : Driver) (s : Coordinator)
      → IsCounted tight k s
      → IsCounted tight k (raise_driver e d s)
  unfolding raise_driver
  raise_driver-IsCounted e (queued_for t) s h = ground (arith, h)
  raise_driver-IsCounted e (unloading_for t) s h = raise_transition-IsCounted tight k t e s h
  raise_driver-IsCounted e (emptying_for t) s h = raise_transition-IsCounted tight k t e s h
  raise_driver-IsCounted e (loading_for t) s h = raise_transition-IsCounted tight k t e s h
  raise_driver-IsCounted e (verifying_for t) s h = raise_transition-IsCounted tight k t e s h
  raise_driver-IsCounted e absent s h = h
  raise_driver-IsCounted e driving s h = h
  raise_driver-IsCounted e finishing s h = h
  raise_driver-IsCounted e (loaded_for t) s h = h
  raise_driver-IsCounted e (cleaning_for t e') s h = h

  clean_driver-IsCounted :
      (clean : Bool) (d : Driver) (s : Coordinator)
      → IsCounted tight k s
      → IsCounted tight k (clean_driver clean d s)
  unfolding clean_driver
  clean_driver-IsCounted clean (cleaning_for t e) s h =
      fail_transition-IsCounted tight k t e clean s h
  clean_driver-IsCounted clean absent s h = h
  clean_driver-IsCounted clean driving s h = h
  clean_driver-IsCounted clean finishing s h = h
  clean_driver-IsCounted clean (queued_for t) s h = h
  clean_driver-IsCounted clean (unloading_for t) s h = h
  clean_driver-IsCounted clean (emptying_for t) s h = h
  clean_driver-IsCounted clean (loading_for t) s h = h
  clean_driver-IsCounted clean (verifying_for t) s h = h
  clean_driver-IsCounted clean (loaded_for t) s h = h

  add_barrier-IsCounted : (r : Section) → IsCounted tight k r.1 → IsCounted tight k (add_barrier r)
  unfolding add_barrier
  add_barrier-IsCounted (b, s) h = ground (arith, h)

  put_barrier-IsCounted :
      (i : ℕ) (r : Section) → IsCounted tight k r.1 → IsCounted tight k (put_barrier i r)
  unfolding put_barrier
  put_barrier-IsCounted i (b, s) h = ground (arith, h)

  call-IsCounted :
      (c : Call) (s : Coordinator) → IsCounted tight k s → IsCounted tight k (call c s).1
  unfolding call
  call-IsCounted call_unload s h = unload-IsCounted tight k s h
  call-IsCounted call_maintenance s h = run_empty_maintenance-IsCounted tight k s h
  call-IsCounted call_reconcile s h = reconcile-IsCounted tight k s h
  call-IsCounted call_initialize s h = initialize-IsCounted tight k s h
  call-IsCounted (call_abort now e) s h = abort-IsCounted tight k now e s h
  call-IsCounted (call_evict now n) s h = evict_if_idle-IsCounted tight k now n s h

  run_barrier_at-IsCounted :
      (i now : ℕ) (late well : Bool) (b : Option Barrier) (s : Coordinator)
      → IsCounted tight k s
      → IsCounted tight k (run_barrier_at i now late well b s)
  unfolding run_barrier_at
  run_barrier_at-IsCounted i now late well none s h = h
  run_barrier_at-IsCounted i now late well (some b) s h =
      put_barrier-IsCounted i _ (run_stage-IsCounted tight k b.kind b.stage now late well s h)

  answer_barrier_at-IsCounted :
      (i : ℕ) (seen : Inspection) (done : Bool) (b : Option Barrier) (s : Coordinator)
      → IsCounted tight k s
      → IsCounted tight k (answer_barrier_at i seen done b s)
  unfolding answer_barrier_at
  answer_barrier_at-IsCounted i seen done none s h = h
  answer_barrier_at-IsCounted i seen done (some b) s h =
      put_barrier-IsCounted i _ (answer_stage-IsCounted tight k b.kind b.stage seen done s h)

  cancel_barrier_at-IsCounted :
      (i : ℕ) (b : Option Barrier) (s : Coordinator)
      → IsCounted tight k s
      → IsCounted tight k (cancel_barrier_at i b s)
  unfolding cancel_barrier_at
  cancel_barrier_at-IsCounted i none s h = h
  cancel_barrier_at-IsCounted i (some b) s h = put_barrier-IsCounted i _ (ground (arith, h))

  audit_at-IsCounted :
      (i : ℕ) (late wanted : Bool) (seen : Inspection) (a : Option Audit) (s : Coordinator)
      → IsCounted tight k s
      → IsCounted tight k (audit_at i late wanted seen a s)
  unfolding audit_at put_audit
  audit_at-IsCounted i late wanted seen none s h = h
  audit_at-IsCounted i late wanted seen (some a) s h =
      let judged = run_audit-IsCounted tight k a late seen s h in
      let put : IsCounted tight k (put_audit i (run_audit a late seen s)) = record {
        lower = judged.lower;
        upper = judged.upper;
        leases_old = judged.leases_old;
        futures_old = judged.futures_old;
      } in
      elim (Bool-cases (repairs a wanted s)) [
        | inl e ↦ rw e (add_barrier-IsCounted _ (reconcile-IsCounted tight k _ put))
        | inr e ↦ rw e put
      ]

  pub step-IsCounted :
      (e : Event) (s : Coordinator)
      → IsQuiet tight k s
      → IsCounted tight k s
      → IsCounted tight k (step e s)
  unfolding step
  step-IsCounted (ask hint t r) s few h = acquire-IsCounted tight k hint t r s h
  step-IsCounted (take_outcome t) s few h = collect-IsCounted tight k t s h
  step-IsCounted (give_up_wait now t) s few h = cancel_waiter-IsCounted tight k now t s h
  step-IsCounted (give_back now e) s few h = release-IsCounted tight k now e s h
  step-IsCounted (run_driver hint) s few h = run_driver_at-IsCounted hint s.driver s few h
  step-IsCounted (engines_answered seen done) s few h =
      answer_driver-IsCounted s.driver seen done s h
  step-IsCounted (engine_raised e) s few h = raise_driver-IsCounted e s.driver s h
  step-IsCounted (cleaned_up clean) s few h = clean_driver-IsCounted clean s.driver s h
  step-IsCounted driver_cancelled s few h = elim (Bool-cases (task_done s.driver)) [
    | inl e ↦ simp e h
    | inr e ↦ simp e (cancel_driver-IsCounted tight k (holds_lock s.driver) s h)
  ]
  step-IsCounted (start c) s few h = add_barrier-IsCounted _ (call-IsCounted c s h)
  step-IsCounted (run_barrier i now late well) s few h =
      run_barrier_at-IsCounted i now late well (nth i s.barriers) s h
  step-IsCounted (barrier_answered i seen done) s few h =
      answer_barrier_at-IsCounted i seen done (nth i s.barriers) s h
  step-IsCounted (barrier_cancelled i) s few h =
      cancel_barrier_at-IsCounted i (nth i s.barriers) s h
  step-IsCounted start_audit s few h = ground (arith, h)
  step-IsCounted (audit_step i late wanted seen) s few h =
      audit_at-IsCounted i late wanted seen (nth i s.audits) s h
  step-IsCounted (shutdown_step late) s few h = run_shutdown-IsCounted tight k s.shutdown late s h

-- The lower bound needs no such condition.
pub run-IsCounted :
    (k : ℕ) (es : List Event) (s : Coordinator) → IsCounted false k s → IsCounted false k (run es s)
unfolding run
run-IsCounted k [] s h = h
run-IsCounted k (e ∷ es) s h =
    run-IsCounted k es (step e s)
      (step-IsCounted false k e s (λ t d no. absurd (ground (arith, no))) h)
