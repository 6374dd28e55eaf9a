-- ===== src/Macos/Barrier.antt =====
-- macos/service/src/mnemosyne_macos/coordinator.py: `unload`, `_abort_epoch`, `run_empty_maintenance`,
-- `reconcile`, `initialize` and `evict_if_idle`, cut where they wait. Each section gives the barrier's next
-- stage, or none where the call has ended.
use mnemosyne_inference.Prelude.{
  ℕ, ◌-◌, String, Bool, true, false, ◌&&◌, ◌||◌, not, Option, none, some, List, ltb, leb, ◌==◌,
  is_none, is_nil, if◌then◌else◌,
}
use mnemosyne_inference.Leasing.{holds, remove_lease}
use mnemosyne_inference.Macos.Targets.{
  ResolvedTarget, ResidentInstance, Inspection, inspect_all, is_empty_inspection, matches,
}
use mnemosyne_inference.Macos.Types.{
  refused, idle, draining, unloading, verifying_empty, ready, degraded, task_done, Kind,
  unload_call, abort_call, maintenance_call, reconcile_call, initialize_call, Stage, evicting,
  drain, before_lock, inspecting, unloading_all, emptying_all, operating, verifying, failing,
  await_driver, closing, Barrier, Coordinator,
}
use mnemosyne_inference.Macos.Locked.{publish_state, fail_all, release_locked}

abbrev pub Section : Type 0
Section = Option Barrier × Coordinator

abbrev pub at : Kind → Stage → Option Barrier
at k stage = some (record { kind = k; stage = stage })

unfoldable pub close_admission : String → Coordinator → Coordinator
close_admission reason s = fail_all (refused reason) (record s { accepting = false })

-- The driver task that the call captures and awaits once no lease is out.
unfoldable pub capture : Coordinator → Stage
capture s = if task_done s.driver then before_lock else await_driver s.driver_task

-- `while self._inflight > 0`
unfoldable pub drain_check : Kind → Coordinator → Section
drain_check k s =
    if ltb 0 s.inflight then (at k drain, publish_state draining s) else (at k (capture s), s)

unfoldable pub unload : Coordinator → Section
unload s = drain_check unload_call (close_admission "manual unload in progress" s)

unfoldable pub run_empty_maintenance : Coordinator → Section
run_empty_maintenance s = drain_check maintenance_call (close_admission "maintenance in progress" s)

-- With `is_stopping` it raises.
unfoldable pub reconcile : Coordinator → Section
reconcile s =
    if s.is_stopping
    then (none, s)
    else drain_check reconcile_call (close_admission "reconciliation in progress" s)

unfoldable pub initialize : Coordinator → Section
initialize s = if s.is_stopping then (none, s) else (
  at initialize_call before_lock,
  record s { accepting = false; state = unloading; diagnostic = none },
)

unfoldable pub abort_epoch : (now epoch : ℕ) → Coordinator → Section
abort_epoch now e s =
    if e == s.epoch
    then drain_check abort_call
        (release_locked now e (close_admission "resident request abort in progress" s))
    else (none, s)

-- `ModelLease.abort` of a lease that is out.
unfoldable pub abort : (now epoch : ℕ) → Coordinator → Section
abort now e s =
    if holds e s.leases
    then abort_epoch now e (record s { leases = remove_lease e s.leases })
    else (none, s)

unfoldable pub evict_if_idle : (now idle_for : ℕ) → Coordinator → Section
evict_if_idle now idle_for s =
    if not (is_none s.resident)
      && s.inflight == 0
      && is_nil s.queue
      && s.accepting
      && leb idle_for (now - s.last_used)
    then (at unload_call evicting, record s { accepting = false })
    else (none, s)

-- Admission opens again where the leases do not drain in time.
unfoldable pub reopen : Coordinator → Coordinator
reopen s = record s { accepting = true; state = if is_none s.resident then idle else ready }

unfoldable pub drain_timeout : Kind → Coordinator → Section
drain_timeout unload_call s = (none, reopen s)
drain_timeout reconcile_call s = (none, reopen s)
drain_timeout maintenance_call s = (at maintenance_call failing, s)
drain_timeout initialize_call s = (at initialize_call failing, s)
drain_timeout abort_call s = (
  none,
  record s {
    initialized = false;
    state = degraded;
    diagnostic = some "timed out draining active model leases after request abort";
  },
)

-- `ended_well` says that the awaited task was not cancelled and raised nothing. A late call cancels
-- the task, which is an event of its own.
unfoldable pub await_check : Kind → (task : ℕ) → (late ended_well : Bool) → Coordinator → Section
await_check k task late ended_well s =
    if task_done s.driver || not (s.driver_task == task)
    then (if ended_well then (at k before_lock, s) else (at k failing, s))
    else if late
    then (at k failing, s)
    else (at k (await_driver task), s)

unfoldable pub lock_stage : Kind → Coordinator → Section
lock_stage reconcile_call s = (at reconcile_call inspecting, record s { operation_lock = true })
lock_stage initialize_call s = (at initialize_call inspecting, record s { operation_lock = true })
lock_stage k s = (at k unloading_all, publish_state unloading (record s { operation_lock = true }))

unfoldable pub take_lock : Kind → (late : Bool) → Coordinator → Section
take_lock k late s =
    if late
    then (at k failing, s)
    else if s.operation_lock
    then (at k before_lock, s)
    else lock_stage k s

-- The `except` section.
unfoldable pub fail_closed : Coordinator → Coordinator
fail_closed s = record s {
  initialized = false;
  accepting = false;
  state = degraded;
  diagnostic = some "barrier failed";
}

-- The last section of a call that leaves the engines empty.
unfoldable pub close_empty : (now : ℕ) → Coordinator → Coordinator
close_empty now s = record s {
  resident = none;
  transition_target = none;
  initialized = true;
  accepting = true;
  state = idle;
  diagnostic = none;
  last_used = now;
}

unfoldable pub close_reconcile : (matched : Bool) → Coordinator → Coordinator
close_reconcile matched s =
    let kept : Option ResolvedTarget = if matched then s.resident else none in
    record s {
      resident = kept;
      transition_target = none;
      initialized = true;
      accepting = true;
      state = if is_none kept then idle else ready;
      diagnostic = none;
    }

unfoldable pub close_barrier : Kind → (matched : Bool) → (now : ℕ) → Coordinator → Coordinator
close_barrier reconcile_call matched now s = close_reconcile matched s
close_barrier k matched now s = close_empty now s

-- A section that waits for no adapter.
unfoldable pub run_stage :
    Kind → Stage → (now : ℕ) → (late ended_well : Bool) → Coordinator → Section
run_stage k evicting now late well s = unload s
run_stage k drain now late well s = if late then drain_timeout k s else drain_check k s
run_stage k (await_driver task) now late well s = await_check k task late well s
run_stage k before_lock now late well s = take_lock k late s
run_stage k failing now late well s = (none, fail_closed s)
run_stage k (closing matched) now late well s = (none, close_barrier k matched now s)
run_stage k stage now late well s = (at k stage, s)

abbrev pub unlocked : Coordinator → Coordinator
unlocked s = record s { operation_lock = false }

unfoldable pub compare_stage : Kind → List ResidentInstance → Coordinator → Section
compare_stage reconcile_call rs s =
    if matches s.resident rs
    then (at reconcile_call (closing true), unlocked s)
    else (at reconcile_call unloading_all, s)
compare_stage k rs s = (at k unloading_all, s)

unfoldable pub inspect_stage : Kind → Option (List ResidentInstance) → Coordinator → Section
inspect_stage k none s = (at k failing, unlocked s)
inspect_stage k (some rs) s = compare_stage k rs s

unfoldable pub empty_stage : Kind → Coordinator → Section
empty_stage maintenance_call s = (at maintenance_call operating, s)
empty_stage k s = (at k (closing false), unlocked s)

-- A section behind an adapter's answer: what it inspected, and whether the calls returned.
unfoldable pub answer_stage : Kind → Stage → Inspection → (done : Bool) → Coordinator → Section
answer_stage k inspecting seen done s = inspect_stage k (inspect_all seen) s
answer_stage k unloading_all seen done s =
    if done && not (is_none (inspect_all seen))
    then (at k emptying_all, publish_state verifying_empty s)
    else (at k failing, unlocked s)
answer_stage k emptying_all seen done s =
    if is_empty_inspection (inspect_all seen) then empty_stage k s else (at k failing, unlocked s)
answer_stage k operating seen done s =
    if done then (at k verifying, s) else (at k failing, unlocked s)
answer_stage k verifying seen done s =
    if is_empty_inspection (inspect_all seen)
    then (at k (closing false), unlocked s)
    else (at k failing, unlocked s)
answer_stage k stage seen done s = (at k stage, s)
