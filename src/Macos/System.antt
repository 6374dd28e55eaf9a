-- ===== src/Macos/System.antt =====
-- macos/service/src/mnemosyne_macos/coordinator.py: the coordinator's tasks as a transition system. An
-- event names the task that runs its next critical section and what its environment answers; an event
-- that is not possible in a state changes nothing. Any interleaving of the tasks is a list of events.
use mnemosyne_inference.Prelude.{
  ℕ, zero, suc, Bool, true, false, Option, none, some, List, [], ◌∷◌, ◌++◌, if◌then◌else◌,
}
use mnemosyne_inference.Macos.Targets.{ResolvedTarget, Inspection}
use mnemosyne_inference.Macos.Types.{
  CoordinatorError, Driver, driving, finishing, queued_for, unloading_for, emptying_for,
  loading_for, verifying_for, loaded_for, cleaning_for, task_done, holds_lock, Stage, inspecting,
  unloading_all, emptying_all, operating, verifying, evicting, drain, before_lock, failing,
  await_driver, closing, Barrier, Audit, Coordinator,
}
use mnemosyne_inference.Macos.Admission.{acquire, collect, cancel_waiter, release}
use mnemosyne_inference.Macos.Driver.{
  drive, finish_driver, lock_transition, raise_transition, answer_unload, answer_empty, answer_load,
  answer_verify, publish_handle, fail_transition, cancel_driver,
}
use mnemosyne_inference.Macos.Barrier.{
  Section, unload, run_empty_maintenance, reconcile, initialize, abort, evict_if_idle, run_stage,
  answer_stage,
}
use mnemosyne_inference.Macos.Audit.{begin_audit, run_audit, repairs, run_shutdown}

-- The calls that start a barrier.
pub data Call : Type 0 where
  call_unload call_maintenance call_reconcile call_initialize : Call
  call_abort : (now epoch : ℕ) → Call
  call_evict : (now idle_for : ℕ) → Call

pub data Event : Type 0 where
  -- callers
  ask : (hint : Option ℕ) → (ticket : ℕ) → ResolvedTarget → Event
  take_outcome : (ticket : ℕ) → Event
  give_up_wait : (now ticket : ℕ) → Event
  give_back : (now epoch : ℕ) → Event
  -- the driver task, and what its adapters answered
  run_driver : (hint : Option ℕ) → Event
  engines_answered : Inspection → (done : Bool) → Event
  engine_raised : CoordinatorError → Event
  cleaned_up : (clean : Bool) → Event
  driver_cancelled : Event
  -- the i-th barrier
  start : Call → Event
  run_barrier : (i now : ℕ) → (late ended_well : Bool) → Event
  barrier_answered : (i : ℕ) → Inspection → (done : Bool) → Event
  barrier_cancelled : (i : ℕ) → Event
  -- the i-th audit, and the shutdown
  start_audit : Event
  audit_step : (i : ℕ) → (late wanted : Bool) → Inspection → Event
  shutdown_step : (late : Bool) → Event

unfoldable pub nth : {A : Type 0} → ℕ → List A → Option A
nth i [] = none
nth zero (x ∷ xs) = some x
nth (suc i) (x ∷ xs) = nth i xs

abbrev pub prepend : {A : Type 0} → Option A → List A → List A
prepend none xs = xs
prepend (some x) xs = x ∷ xs

-- The i-th task goes on, or has ended.
unfoldable pub replace : {A : Type 0} → ℕ → Option A → List A → List A
replace i o [] = []
replace zero o (x ∷ xs) = prepend o xs
replace (suc i) o (x ∷ xs) = x ∷ replace i o xs

unfoldable pub run_driver_at : Option ℕ → Driver → Coordinator → Coordinator
run_driver_at hint driving s = drive hint s
run_driver_at hint finishing s = finish_driver s
run_driver_at hint (queued_for t) s = if s.operation_lock then s else lock_transition t s
run_driver_at hint (loaded_for t) s = publish_handle t s
run_driver_at hint d s = s

unfoldable pub answer_driver : Driver → Inspection → Bool → Coordinator → Coordinator
answer_driver (unloading_for t) seen done s = answer_unload t seen done s
answer_driver (emptying_for t) seen done s = answer_empty t seen s
answer_driver (loading_for t) seen done s = answer_load t done s
answer_driver (verifying_for t) seen done s = answer_verify t seen s
answer_driver d seen done s = s

-- A transition raises in each of its stages, the wait for the lock included.
unfoldable pub raise_driver : CoordinatorError → Driver → Coordinator → Coordinator
raise_driver e (queued_for t) s = record s { driver = cleaning_for t e }
raise_driver e (unloading_for t) s = raise_transition t e s
raise_driver e (emptying_for t) s = raise_transition t e s
raise_driver e (loading_for t) s = raise_transition t e s
raise_driver e (verifying_for t) s = raise_transition t e s
raise_driver e d s = s

unfoldable pub clean_driver : Bool → Driver → Coordinator → Coordinator
clean_driver clean (cleaning_for t e) s = fail_transition t e clean s
clean_driver clean d s = s

unfoldable pub add_barrier : Section → Coordinator
add_barrier (b, s) = record s { barriers = s.barriers ++ prepend b [] }

unfoldable pub call : Call → Coordinator → Section
call call_unload s = unload s
call call_maintenance s = run_empty_maintenance s
call call_reconcile s = reconcile s
call call_initialize s = initialize s
call (call_abort now e) s = abort now e s
call (call_evict now n) s = evict_if_idle now n s

unfoldable pub put_barrier : ℕ → Section → Coordinator
put_barrier i (b, s) = record s { barriers = replace i b s.barriers }

unfoldable pub run_barrier_at :
    ℕ → (now : ℕ) → (late ended_well : Bool) → Option Barrier → Coordinator → Coordinator
run_barrier_at i now late well none s = s
run_barrier_at i now late well (some b) s = put_barrier i (run_stage b.kind b.stage now late well s)

unfoldable pub answer_barrier_at :
    ℕ → Inspection → Bool → Option Barrier → Coordinator → Coordinator
answer_barrier_at i seen done none s = s
answer_barrier_at i seen done (some b) s = put_barrier i (answer_stage b.kind b.stage seen done s)

abbrev pub in_lock : Stage → Bool
in_lock inspecting = true
in_lock unloading_all = true
in_lock emptying_all = true
in_lock operating = true
in_lock verifying = true
in_lock evicting = false
in_lock drain = false
in_lock before_lock = false
in_lock failing = false
in_lock (await_driver k) = false
in_lock (closing m) = false

-- A cancelled call lets its lock go and runs no section of its own.
unfoldable pub cancel_barrier_at : ℕ → Option Barrier → Coordinator → Coordinator
cancel_barrier_at i none s = s
cancel_barrier_at i (some b) s =
    put_barrier i
      (none, record s { operation_lock = if in_lock b.stage then false else s.operation_lock })

unfoldable pub put_audit : ℕ → Option Audit × Coordinator → Coordinator
put_audit i (a, s) = record s { audits = replace i a s.audits }

unfoldable pub audit_at :
    ℕ → (late wanted : Bool) → Inspection → Option Audit → Coordinator → Coordinator
audit_at i late wanted seen none s = s
audit_at i late wanted seen (some a) s =
    let s' = put_audit i (run_audit a late seen s) in
    if repairs a wanted s then add_barrier (reconcile s') else s'

unfoldable pub step : Event → Coordinator → Coordinator
step (ask hint t r) s = (acquire hint t r s).0
step (take_outcome t) s = (collect t s).0
step (give_up_wait now t) s = cancel_waiter now t s
step (give_back now e) s = release now e s
step (run_driver hint) s = run_driver_at hint s.driver s
step (engines_answered seen done) s = answer_driver s.driver seen done s
step (engine_raised e) s = raise_driver e s.driver s
step (cleaned_up clean) s = clean_driver clean s.driver s
step driver_cancelled s = if task_done s.driver then s else cancel_driver (holds_lock s.driver) s
step (start c) s = add_barrier (call c s)
step (run_barrier i now late well) s = run_barrier_at i now late well (nth i s.barriers) s
step (barrier_answered i seen done) s = answer_barrier_at i seen done (nth i s.barriers) s
step (barrier_cancelled i) s = cancel_barrier_at i (nth i s.barriers) s
step start_audit s = record s { audits = s.audits ++ prepend (begin_audit s) [] }
step (audit_step i late wanted seen) s = audit_at i late wanted seen (nth i s.audits) s
step (shutdown_step late) s = run_shutdown s.shutdown late s

unfoldable pub run : List Event → Coordinator → Coordinator
run [] s = s
run (e ∷ es) s = run es (step e s)
