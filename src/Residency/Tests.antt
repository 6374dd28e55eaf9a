-- ===== src/Residency/Tests.antt =====
-- cuda_residency.py: runs at concrete inputs, and the theorems applied to them.
use mnemosyne_inference.Prelude.{
  ℕ, ◌≤◌, ◌≡◌, refl, true, false, none, some, List, [], ◌∷◌, ◌+◌, ◌==◌, String, opt_str_eq, not,
}
use mnemosyne_inference.Residency.Types.{
  Coordinator, CapacitySpec, new, ready, idle, no_resident_capacity, absent, no_maintenance,
  engine_error, Waiter, driving, queued_for, not_accepting,
}
use mnemosyne_inference.Residency.Locked.{
  admits, effective_limit, live_waiters, purge_cancelled, ensure_driver, release_locked, grant_head,
  grant_with, fail_head, fail_all, set_state,
}
use mnemosyne_inference.Residency.Admission.{
  leased, raised, acquire, admit, collect, settle_wait, outcome, drop_future, release,
  release_section, holds, remove_lease, grant_now, enqueue, is_warm,
}
use mnemosyne_inference.Residency.Driver.{
  drive, drive_accepting, drive_queue, drive_head, serve_resident, finish_driver, lock_transition,
  begin_loading, finish_transition, raise_transition, fail_transition, clear_failed,
}
use mnemosyne_inference.Residency.Maintenance.{
  unload, begin_drain, drain_check, begin_stop, finish_unload,
}
use mnemosyne_inference.Residency.System.{
  Event, ask, take_outcome, give_back, run_driver, engine_stopped, engine_raised, engine_loaded,
  cleaned_up, call_unload, run_maintenance, unloaded, driver_step, stopped_step, raised_step,
  loaded_step, cleaned_step, maintenance_step, unloaded_step, step, run,
}
use mnemosyne_inference.Residency.Permits.{IsSafe, one_if}
use mnemosyne_inference.Residency.Runs.{run-IsSafe, new-IsSafe}
use mnemosyne_inference.Residency.Leases.{
  IsOpen, acquire_leased, release_active, finish_unload_strands, unload_events, unload_drained,
  failed_cleanup_closes,
}
use mnemosyne_inference.Residency.Switch.{IsHead, drive_switch, ServesInOrder, grant_loop_fifo}

abbrev fresh : Coordinator
fresh = record {
  queue = [];
  resident_profile = none;
  resident_deployment_id = none;
  capacity = no_resident_capacity;
  configured_max_concurrency = none;
  max_queue_depth = 8;
  epoch = 0;
  active = 0;
  state = idle;
  diagnostic_code = none;
  transition_target = none;
  driver = absent;
  driver_task = 0;
  accepting = true;
  authoritative = true;
  is_stopping = false;
  last_used = 0;
  sequence = 0;
  futures = [];
  leases = [];
  operation_lock = false;
  maintenance = no_maintenance;
}

new_runs : new none 8 0 ≡ some fresh
unfolding new
new_runs = refl

abbrev two_slots : CapacitySpec
two_slots = record { derived_limit = 2; source = "engine"; confidence = "authoritative" }

-- One caller loads a model and gets its lease.
abbrev load_a : List Event
load_a =
    ask 1 "a" "da"
    ∷ run_driver
    ∷ run_driver
    ∷ engine_stopped
    ∷ engine_loaded two_slots
    ∷ run_driver
    ∷ take_outcome 1
    ∷ []

-- Evaluates a run: all that `step` calls.
warm : Coordinator
unfolding run step acquire admits admit is_warm purge_cancelled live_waiters enqueue grant_now
    driver_step drive drive_accepting drive_queue drive_head serve_resident grant_head grant_with
    set_state finish_driver lock_transition begin_loading finish_transition raise_transition
    fail_transition clear_failed fail_head fail_all stopped_step raised_step loaded_step
    cleaned_step collect settle_wait outcome drop_future release release_section release_locked
    holds remove_lease ensure_driver unload begin_drain drain_check maintenance_step begin_stop
    unloaded_step finish_unload
warm = run load_a fresh

warm_facts : (warm.active ≡ 1) × (warm.epoch ≡ 1) × (warm.leases ≡ 1 ∷ []) × (warm.state ≡ ready)
unfolding warm
warm_facts = (refl, refl, refl, refl)

-- The transition fails cleanly while an unload waits for the driver, and the cleanup opens
-- admission again: a caller is served, and the unload then stops the engine under its lease.
abbrev reopened : List Event
reopened =
    ask 1 "a" "da"
    ∷ run_driver
    ∷ run_driver
    ∷ call_unload
    ∷ engine_raised (engine_error 0)
    ∷ cleaned_up true
    ∷ ask 2 "b" "db"
    ∷ run_driver
    ∷ run_driver
    ∷ engine_stopped
    ∷ engine_loaded two_slots
    ∷ run_driver
    ∷ take_outcome 2
    ∷ run_driver
    ∷ run_driver
    ∷ run_maintenance false
    ∷ run_maintenance false
    ∷ unloaded
    ∷ give_back 0 1
    ∷ []

-- No lease is out and no model is resident, and `active` is still 1.
reopened_runs :
    ((run reopened fresh).active ≡ 1)
    × ((run reopened fresh).leases ≡ [])
    × ((run reopened fresh).resident_profile ≡ none)
    × ((run reopened fresh).accepting ≡ true)
unfolding warm
reopened_runs = (refl, refl, refl, refl)

fresh-IsSafe : IsSafe fresh
fresh-IsSafe = new-IsSafe none 8 0 fresh new_runs

run-IsSafe_example : IsSafe (run load_a fresh)
run-IsSafe_example =
    run-IsSafe load_a fresh (tt, (tt, (tt, (tt, (tt, (tt, (tt, tt))))))) fresh-IsSafe

warm-IsSafe : IsSafe warm
unfolding warm
warm-IsSafe = run-IsSafe load_a fresh (tt, (tt, (tt, (tt, (tt, (tt, (tt, tt))))))) fresh-IsSafe

acquire_hit : (acquire 7 "a" "da" warm).1 ≡ leased 1
unfolding warm
acquire_hit = refl

acquire_leased_example :
    IsOpen warm
    × (warm.resident_deployment_id ≡ some "da")
    × (1 ≡ warm.epoch)
    × ((acquire 7 "a" "da" warm).0.active ≡ warm.active + 1)
    × (warm.active + 1 ≤ effective_limit warm)
acquire_leased_example = acquire_leased 7 "a" "da" warm 1 acquire_hit

lease_out : holds 1 warm.leases ≡ true
unfolding warm
lease_out = refl

release_active_example : (release 5 1 warm).active + one_if (1 == warm.epoch) ≡ warm.active
release_active_example = release_active 5 1 warm warm-IsSafe lease_out

finish_unload_strands_example :
    ((finish_unload true false warm).active ≡ warm.active)
    × ((release 5 1 (finish_unload true false warm)).active ≡ warm.active)
finish_unload_strands_example =
    finish_unload_strands true false 5 1 warm warm-IsSafe.leases_old lease_out

abbrev asked : Coordinator
asked = run (ask 1 "a" "da" ∷ []) fresh

asked_driving : asked.driver ≡ driving
unfolding warm
asked_driving = refl

asked_switches : (drive asked).driver ≡ queued_for "a" "da"
unfolding warm
asked_switches = refl

drive_switch_example :
    IsHead "a" "da" (live_waiters asked.queue)
    × (asked.active ≡ 0)
    × (asked.accepting ≡ true)
    × (asked.authoritative ≡ true)
    × (asked.is_stopping ≡ false)
    × (opt_str_eq asked.resident_deployment_id (some "da") ≡ false)
drive_switch_example = drive_switch asked "a" "da" asked_driving asked_switches

abbrev waiter : ℕ → String → Waiter
waiter t d = record { ticket = t; profile = d; deployment_id = d; cancelled = false }

grant_loop_fifo_example :
    ServesInOrder "da" 1 2 "da" (waiter 1 "da" ∷ waiter 2 "da" ∷ waiter 3 "db" ∷ []) 0 0 []
grant_loop_fifo_example =
    grant_loop_fifo "da" 1 2 "da" (waiter 1 "da" ∷ waiter 2 "da" ∷ waiter 3 "db" ∷ []) 0 0 []

abbrev drained : Coordinator
drained = record fresh { resident_profile = some "a"; resident_deployment_id = some "da" }

unload_drained_example :
    ((run unload_events drained).resident_profile ≡ none)
    × ((run unload_events drained).resident_deployment_id ≡ none)
    × ((run unload_events drained).epoch ≡ drained.epoch + 1)
    × ((run unload_events drained).queue ≡ [])
    × ((run unload_events drained).state ≡ idle)
    × (admits (run unload_events drained) ≡ not drained.is_stopping)
unload_drained_example = unload_drained drained refl refl refl refl

failed_cleanup_closes_example :
    (acquire 7 "a" "da" (fail_transition "da" (engine_error 0) false warm)).1 ≡ raised not_accepting
failed_cleanup_closes_example = failed_cleanup_closes 7 "a" "da" "da" (engine_error 0) warm
