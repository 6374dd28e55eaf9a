-- ===== src/Macos/FenceTasks.antt =====
-- macos/service/src/mnemosyne_macos/coordinator.py: a transition of the engines against the
-- permits that are out, through every event but those of a barrier.
use Prim.Native.String.{String}
use mnemosyne_inference.Prelude.{
  ℕ, ◌≡◌, refl, Bool, true, false, ◌&&◌, ◌||◌, not, Option, arith, ◌==◌, Bool-cases, inl, inr,
}
use mnemosyne_inference.Macos.Targets.{Inspection, matches}
use mnemosyne_inference.Macos.Types.{
  CoordinatorError, Driver, absent, driving, finishing, queued_for, unloading_for, emptying_for,
  loading_for, verifying_for, loaded_for, cleaning_for, task_done, is_transition_state, Audit,
  audit_waiting, audit_inspecting, audit_failed, audit_judging, Shutdown, not_called, drain_grace,
  before_cleanup, cleaning_up, shut_down, await_grace, Coordinator,
}
use mnemosyne_inference.Macos.Locked.{fail_all}
use mnemosyne_inference.Macos.Audit.{degrade, run_audit, begin_shutdown, end_shutdown, run_shutdown}
use mnemosyne_inference.Macos.System.{run_driver_at, answer_driver, raise_driver, clean_driver}
use mnemosyne_inference.Macos.Fence.{
  in_transition, is_called, IsFenced, IsFencedStep, IsFencedStep-trans, IsFencedStep-refl,
  fail_all-IsFenced,
}
use mnemosyne_inference.Macos.FenceDriver.{
  drive-IsFenced, finish_driver-IsFenced, lock_transition-IsFenced, raise_transition-IsFenced,
  answer_unload-IsFenced, answer_empty-IsFenced, answer_load-IsFenced, answer_verify-IsFenced,
  publish_handle-IsFenced, fail_transition-IsFenced,
}

at_stage :
    (d : Driver) (s : Coordinator)
    → s.driver ≡ d
    → in_transition d ≡ true
    → in_transition s.driver ≡ true
at_stage d s e on = rw e on

pub run_driver_at-IsFenced :
    (hint : Option ℕ) (d : Driver) (s : Coordinator)
    → s.driver ≡ d
    → IsFenced s
    → IsFencedStep s (run_driver_at hint d s)
unfolding run_driver_at
run_driver_at-IsFenced hint driving s e h = drive-IsFenced hint s e h
run_driver_at-IsFenced hint finishing s e h = finish_driver-IsFenced s h
run_driver_at-IsFenced hint (queued_for t) s e h = elim (Bool-cases s.operation_lock) [
  | inl taken ↦ simp taken (IsFencedStep-refl s h)
  | inr free ↦ simp free (lock_transition-IsFenced t s (at_stage _ s e refl) h)
]
run_driver_at-IsFenced hint (loaded_for t) s e h =
    publish_handle-IsFenced t s (at_stage _ s e refl) h
run_driver_at-IsFenced hint absent s e h = IsFencedStep-refl s h
run_driver_at-IsFenced hint (unloading_for t) s e h = IsFencedStep-refl s h
run_driver_at-IsFenced hint (emptying_for t) s e h = IsFencedStep-refl s h
run_driver_at-IsFenced hint (loading_for t) s e h = IsFencedStep-refl s h
run_driver_at-IsFenced hint (verifying_for t) s e h = IsFencedStep-refl s h
run_driver_at-IsFenced hint (cleaning_for t x) s e h = IsFencedStep-refl s h

pub answer_driver-IsFenced :
    (d : Driver) (seen : Inspection) (done : Bool) (s : Coordinator)
    → s.driver ≡ d
    → IsFenced s
    → IsFencedStep s (answer_driver d seen done s)
unfolding answer_driver
answer_driver-IsFenced (unloading_for t) seen done s e h =
    answer_unload-IsFenced t seen done s (at_stage _ s e refl) h
answer_driver-IsFenced (emptying_for t) seen done s e h =
    answer_empty-IsFenced t seen s (at_stage _ s e refl) h
answer_driver-IsFenced (loading_for t) seen done s e h =
    answer_load-IsFenced t done s (at_stage _ s e refl) h
answer_driver-IsFenced (verifying_for t) seen done s e h =
    answer_verify-IsFenced t seen s (at_stage _ s e refl) h
answer_driver-IsFenced absent seen done s e h = IsFencedStep-refl s h
answer_driver-IsFenced driving seen done s e h = IsFencedStep-refl s h
answer_driver-IsFenced finishing seen done s e h = IsFencedStep-refl s h
answer_driver-IsFenced (queued_for t) seen done s e h = IsFencedStep-refl s h
answer_driver-IsFenced (loaded_for t) seen done s e h = IsFencedStep-refl s h
answer_driver-IsFenced (cleaning_for t x) seen done s e h = IsFencedStep-refl s h

pub raise_driver-IsFenced :
    (x : CoordinatorError) (d : Driver) (s : Coordinator)
    → s.driver ≡ d
    → IsFenced s
    → IsFencedStep s (raise_driver x d s)
unfolding raise_driver
raise_driver-IsFenced x (queued_for t) s e h = ground (arith, h, at_stage _ s e refl)
raise_driver-IsFenced x (unloading_for t) s e h =
    raise_transition-IsFenced t x s (at_stage _ s e refl) h
raise_driver-IsFenced x (emptying_for t) s e h =
    raise_transition-IsFenced t x s (at_stage _ s e refl) h
raise_driver-IsFenced x (loading_for t) s e h =
    raise_transition-IsFenced t x s (at_stage _ s e refl) h
raise_driver-IsFenced x (verifying_for t) s e h =
    raise_transition-IsFenced t x s (at_stage _ s e refl) h
raise_driver-IsFenced x absent s e h = IsFencedStep-refl s h
raise_driver-IsFenced x driving s e h = IsFencedStep-refl s h
raise_driver-IsFenced x finishing s e h = IsFencedStep-refl s h
raise_driver-IsFenced x (loaded_for t) s e h = IsFencedStep-refl s h
raise_driver-IsFenced x (cleaning_for t y) s e h = IsFencedStep-refl s h

pub clean_driver-IsFenced :
    (clean : Bool) (d : Driver) (s : Coordinator)
    → s.driver ≡ d
    → IsFenced s
    → IsFencedStep s (clean_driver clean d s)
unfolding clean_driver
clean_driver-IsFenced clean (cleaning_for t x) s e h =
    fail_transition-IsFenced t x clean s (at_stage _ s e refl) h
clean_driver-IsFenced clean absent s e h = IsFencedStep-refl s h
clean_driver-IsFenced clean driving s e h = IsFencedStep-refl s h
clean_driver-IsFenced clean finishing s e h = IsFencedStep-refl s h
clean_driver-IsFenced clean (queued_for t) s e h = IsFencedStep-refl s h
clean_driver-IsFenced clean (unloading_for t) s e h = IsFencedStep-refl s h
clean_driver-IsFenced clean (emptying_for t) s e h = IsFencedStep-refl s h
clean_driver-IsFenced clean (loading_for t) s e h = IsFencedStep-refl s h
clean_driver-IsFenced clean (verifying_for t) s e h = IsFencedStep-refl s h
clean_driver-IsFenced clean (loaded_for t) s e h = IsFencedStep-refl s h

degrade-IsFenced : (d r : String) (s : Coordinator) → IsFenced s → IsFencedStep s (degrade d r s)
unfolding degrade
degrade-IsFenced d r s h = IsFencedStep-trans s _ _ (ground (arith, h)) (fail_all-IsFenced _ _)

pub run_audit-IsFenced :
    (a : Audit) (late : Bool) (seen : Inspection) (s : Coordinator)
    → IsFenced s
    → IsFencedStep s (run_audit a late seen s).1
unfolding run_audit
run_audit-IsFenced audit_waiting true seen s h = IsFencedStep-refl s h
run_audit-IsFenced audit_waiting false seen s h = elim (Bool-cases s.operation_lock) [
  | inl e ↦ simp e (IsFencedStep-refl s h)
  | inr e ↦ simp e (ground (arith, h))
]
run_audit-IsFenced audit_inspecting late seen s h = ground (arith, h)
run_audit-IsFenced (audit_failed timed_out) late seen s h =
    elim (Bool-cases (timed_out && is_transition_state s.state)) [
      | inl e ↦ simp e (IsFencedStep-refl s h)
      | inr e ↦ simp e (degrade-IsFenced _ _ s h)
    ]
run_audit-IsFenced (audit_judging rs) late seen s h =
    elim (Bool-cases (is_transition_state s.state || matches s.resident rs)) [
      | inl e ↦ simp e (IsFencedStep-refl s h)
      | inr e ↦ simp e (degrade-IsFenced _ _ s h)
    ]

called :
    (g : Shutdown) (s : Coordinator)
    → s.shutdown ≡ g
    → is_called g ≡ true
    → IsFenced s
    → s.is_stopping ≡ true
called g s e on h = h.stops (rw e on)

-- The shutdown forgets the resident behind the flag that stops admission for good.
pub run_shutdown-IsFenced :
    (g : Shutdown) (late : Bool) (s : Coordinator)
    → s.shutdown ≡ g
    → IsFenced s
    → IsFencedStep s (run_shutdown g late s)
unfolding run_shutdown end_shutdown begin_shutdown
run_shutdown-IsFenced not_called late s e h =
    let failed : IsFencedStep s (fail_all (CoordinatorError.refused "coordinator is stopping") s) =
      fail_all-IsFenced _ s h in
    ground (arith, h, failed)
run_shutdown-IsFenced (drain_grace task) late s e h = elim (Bool-cases (late || s.inflight == 0)) [
  | inl ended ↦ simp ended (ground (arith, h, called _ s e refl h))
  | inr more ↦ simp more (IsFencedStep-refl s h)
]
run_shutdown-IsFenced (await_grace task) late s e h =
    elim (Bool-cases (late || task_done s.driver || not (s.driver_task == task))) [
      | inl ended ↦ simp ended (ground (arith, h, called _ s e refl h))
      | inr more ↦ simp more (IsFencedStep-refl s h)
    ]
run_shutdown-IsFenced before_cleanup true s e h = ground (arith, h, called _ s e refl h)
run_shutdown-IsFenced before_cleanup false s e h = elim (Bool-cases s.operation_lock) [
  | inl taken ↦ simp taken (IsFencedStep-refl s h)
  | inr free ↦ simp free (ground (arith, h, called _ s e refl h))
]
run_shutdown-IsFenced cleaning_up late s e h = ground (arith, h, called _ s e refl h)
run_shutdown-IsFenced shut_down late s e h = IsFencedStep-refl s h
