-- ===== src/Macos/Audit.antt =====
-- macos/service/src/mnemosyne_macos/coordinator.py: `audit` and `shutdown`, cut where they wait.
use Prim.Native.String.{String}
use mnemosyne_inference.Prelude.{
  Bool, true, false, ◌&&◌, ◌||◌, not, Option, none, some, List, ◌==◌, if◌then◌else◌,
}
use mnemosyne_inference.Macos.Targets.{ResidentInstance, Inspection, inspect_all, matches}
use mnemosyne_inference.Macos.Types.{
  refused, degraded, stopping, is_transition_state, task_done, Audit, audit_waiting,
  audit_inspecting, audit_failed, audit_judging, Shutdown, not_called, drain_grace, before_cleanup,
  cleaning_up, shut_down, await_grace, Coordinator,
}
use mnemosyne_inference.Macos.Locked.{fail_all}

unfoldable pub begin_audit : Coordinator → Option Audit
begin_audit s = if is_transition_state s.state then none else some audit_waiting

-- Drift, or a failed inspection, closes admission.
unfoldable pub degrade : (diagnostic reason : String) → Coordinator → Coordinator
degrade diagnostic reason s = fail_all (refused reason) (record s {
  initialized = false;
  accepting = false;
  state = degraded;
  diagnostic = some diagnostic;
})

abbrev pub audit_failure : Coordinator → Coordinator
audit_failure s =
    degrade "residency audit failed" "residency audit could not establish engine state" s

abbrev pub drifted : String
drifted = "engine-observed residency drifted from coordinator state"

abbrev pub drift : Coordinator → Coordinator
drift s = degrade drifted drifted s

unfoldable pub inspected : Option (List ResidentInstance) → Audit
inspected none = audit_failed false
inspected (some rs) = audit_judging rs

-- One section of an audit; `late` says that its deadline has passed.
unfoldable pub run_audit :
    Audit → (late : Bool) → Inspection → Coordinator → Option Audit × Coordinator
run_audit audit_waiting late seen s =
    if late
    then (some (audit_failed true), s)
    else if s.operation_lock
    then (some audit_waiting, s)
    else (some audit_inspecting, record s { operation_lock = true })
run_audit audit_inspecting late seen s = (
  some (if late then audit_failed true else inspected (inspect_all seen)),
  record s { operation_lock = false },
)
run_audit (audit_failed timed_out) late seen s =
    (none, if timed_out && is_transition_state s.state then s else audit_failure s)
run_audit (audit_judging rs) late seen s =
    (none, if is_transition_state s.state || matches s.resident rs then s else drift s)

-- Whether the last section of an audit calls `reconcile`. It has failed every waiter by then.
unfoldable pub repairs : Audit → (repair_when_quiescent : Bool) → Coordinator → Bool
repairs (audit_judging rs) wanted s =
    not (is_transition_state s.state || matches s.resident rs) && wanted && s.inflight == 0
repairs a wanted s = false

-- The first section of `shutdown`. It cancels the driver, which is an event of its own.
unfoldable pub begin_shutdown : Coordinator → Coordinator
begin_shutdown s = record (fail_all (refused "coordinator is stopping") s) {
  is_stopping = true;
  accepting = false;
  state = stopping;
  shutdown = drain_grace s.driver_task;
}

unfoldable pub end_shutdown : Coordinator → Coordinator
end_shutdown s = record s {
  resident = none;
  transition_target = none;
  initialized = false;
  state = stopping;
  shutdown = shut_down;
}

-- The sections behind it; `late` says that the grace has passed. The cleanup runs under the
-- operation lock, and what it finds goes into the diagnostic only, which is kept here.
unfoldable pub run_shutdown : Shutdown → (late : Bool) → Coordinator → Coordinator
run_shutdown (drain_grace task) late s =
    if late || s.inflight == 0 then record s { shutdown = await_grace task } else s
run_shutdown (await_grace task) late s =
    if late || task_done s.driver || not (s.driver_task == task)
    then record s { shutdown = before_cleanup }
    else s
run_shutdown before_cleanup late s =
    if late
    then end_shutdown s
    else if s.operation_lock
    then s
    else record s { operation_lock = true; shutdown = cleaning_up }
run_shutdown cleaning_up late s = end_shutdown (record s { operation_lock = false })
run_shutdown not_called late s = begin_shutdown s
run_shutdown shut_down late s = s
