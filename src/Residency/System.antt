-- ===== src/Residency/System.antt =====
-- cuda_residency.py: the coordinator's tasks as a transition system. An event names the task that
-- runs its next critical section and what the environment answers; an event that is not possible
-- in a state changes nothing. Any interleaving of the tasks is a list of events.
use mnemosyne_inference.Prelude.{
  ℕ, String, Bool, true, false, not, Option, none, some, List, [], ◌∷◌, ◌==◌, ◌||◌, if◌then◌else◌,
}
use mnemosyne_inference.Residency.Types.{
  Profile, ResidencyError, CapacitySpec, Driver, driving, finishing, queued_for, stopping_for,
  loading_for, cleaning_for, task_done, Maintenance, no_maintenance, evicting, drain_active,
  await_driver, before_stop, stop_engine, Coordinator,
}
use mnemosyne_inference.Residency.Locked.{purge_cancelled}
use mnemosyne_inference.Residency.Admission.{
  acquire, acquire_current, collect, cancel_waiter, release, reconfigure,
}
use mnemosyne_inference.Residency.Driver.{
  drive, finish_driver, lock_transition, begin_loading, finish_transition, raise_transition,
  fail_transition,
}
use mnemosyne_inference.Residency.Maintenance.{
  unload, shutdown, evict, begin_drain, drain_check, drain_timeout, give_up, begin_stop, fail_stop,
  finish_unload,
}

pub data Event : Type 0 where
  -- callers
  ask : (ticket : ℕ) → Profile → String → Event
  ask_current poll_status : Event
  take_outcome : (ticket : ℕ) → Event
  give_up_wait : (now ticket : ℕ) → Event
  give_back : (now epoch : ℕ) → Event
  set_limits : Option ℕ → ℕ → Event
  -- the driver task, and what its callbacks answered
  run_driver engine_stopped : Event
  engine_raised : ResidencyError → Event
  engine_loaded : CapacitySpec → Event
  cleaned_up : (clean : Bool) → Event
  -- the maintenance task; `past_deadline` says that its deadline has passed
  call_unload call_shutdown : Event
  call_evict : (now idle_for : ℕ) → Event
  run_maintenance : (past_deadline : Bool) → Event
  unloaded : Event
  stop_failed : (code : String) → Event

unfoldable pub driver_step : Driver → Coordinator → Coordinator
driver_step driving s = drive s
driver_step finishing s = finish_driver s
driver_step (queued_for p d) s = if s.operation_lock then s else lock_transition p d s
driver_step _ s = s

unfoldable pub stopped_step : Driver → Coordinator → Coordinator
stopped_step (stopping_for p d) s = begin_loading p d s
stopped_step _ s = s

unfoldable pub raised_step : ResidencyError → Driver → Coordinator → Coordinator
raised_step e (stopping_for p d) s = raise_transition d e s
raised_step e (loading_for p d) s = raise_transition d e s
raised_step e _ s = s

unfoldable pub loaded_step : CapacitySpec → Driver → Coordinator → Coordinator
loaded_step c (loading_for p d) s = finish_transition p d c s
loaded_step c _ s = s

-- The cleanup waits for the operation lock too.
unfoldable pub cleaned_step : Bool → Driver → Coordinator → Coordinator
cleaned_step clean (cleaning_for d e) s =
    if s.operation_lock then s else fail_transition d e clean s
cleaned_step clean _ s = s

abbrev pub is_free : Maintenance → Bool
is_free no_maintenance = true
is_free _ = false

unfoldable pub maintenance_step : Bool → Maintenance → Coordinator → Coordinator
maintenance_step late evicting s = begin_drain true false true s
maintenance_step late (drain_active r b) s = if late then drain_timeout r b s else drain_check r b s
maintenance_step late (await_driver r b task) s =
    if task_done s.driver || not (s.driver_task == task)
    then record s { maintenance = before_stop r b }
    else if late
    then give_up b "transition_drain_timeout" s
    else s
maintenance_step late (before_stop r b) s =
    if late
    then give_up b "unload_deadline_expired" s
    else if s.operation_lock
    then s
    else begin_stop r b s
maintenance_step late _ s = s

unfoldable pub unloaded_step : Maintenance → Coordinator → Coordinator
unloaded_step (stop_engine r b) s = finish_unload r b s
unloaded_step _ s = s

unfoldable pub stop_failed_step : String → Maintenance → Coordinator → Coordinator
stop_failed_step code (stop_engine r b) s = fail_stop b code s
stop_failed_step code _ s = s

abbrev pub or_same : Option Coordinator → Coordinator → Coordinator
or_same none s = s
or_same (some s') s = s'

unfoldable pub step : Event → Coordinator → Coordinator
step (ask t p d) s = (acquire t p d s).0
step ask_current s = (acquire_current s).0
step poll_status s = purge_cancelled s
step (take_outcome t) s = (collect t s).0
step (give_up_wait now t) s = cancel_waiter now t s
step (give_back now e) s = release now e s
step (set_limits c d) s = or_same (reconfigure c d s) s
step run_driver s = driver_step s.driver s
step engine_stopped s = stopped_step s.driver s
step (engine_raised e) s = raised_step e s.driver s
step (engine_loaded c) s = loaded_step c s.driver s
step (cleaned_up clean) s = cleaned_step clean s.driver s
step call_unload s = if is_free s.maintenance then unload s else s
step call_shutdown s = if is_free s.maintenance then shutdown s else s
step (call_evict now n) s = if is_free s.maintenance then evict now n s else s
step (run_maintenance late) s = maintenance_step late s.maintenance s
step unloaded s = unloaded_step s.maintenance s
step (stop_failed code) s = stop_failed_step code s.maintenance s

unfoldable pub run : List Event → Coordinator → Coordinator
run [] s = s
run (e ∷ es) s = run es (step e s)
