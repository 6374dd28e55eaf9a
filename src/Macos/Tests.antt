-- ===== src/Macos/Tests.antt =====
-- macos/service/src/mnemosyne_macos/coordinator.py: runs at concrete inputs, and the theorems applied to
-- them.
use mnemosyne_inference.Prelude.{
  ℕ, String, ◌+◌, ◌≤◌, ◌≡◌, refl, true, false, none, some, List, [], ◌∷◌, ◌++◌, all_of, any_of,
}
use mnemosyne_inference.Prelude.Dict.{has}
use mnemosyne_inference.Leasing.{
  held, owed, LeasesUpTo, FuturesUpTo, outcome, drop_future, holds, remove_lease,
}
use mnemosyne_inference.Macos.Targets.{
  ResolvedTarget, Inspection, same_load, key_eq, llama_cpp_process_mode, mode_eq, derived_limit,
  effective_limit, or_one, validate_snapshot, add_residents, inspect_all, is_instance_of,
  only_resident, is_empty_inspection, verifies, matches,
}
use mnemosyne_inference.Macos.Types.{
  is_transition_state, engine_error, Coordinator, is_limit, new, loaded_for, unload_call,
  unloading_all, fresh,
}
use mnemosyne_inference.Macos.Locked.{
  available, publish_state, live_waiters, purge_cancelled, ensure_driver, grant_loop,
  grant_head_group, fail_each, fail_all, release_locked,
}
use mnemosyne_inference.Macos.Admission.{
  grant_now, is_settled, serves_at_once, enqueue, admit, acquire, settle_wait, collect,
  release_section, release,
}
use mnemosyne_inference.Macos.Driver.{
  unless_degraded, drive_empty, serve_resident, begin_switch, drive_head, drive_queue, drive_open,
  drive, finish_driver, to_stage, lock_transition, answer_unload, answer_empty, answer_load,
  answer_verify, publish_handle, raise_transition,
}
use mnemosyne_inference.Macos.Barrier.{
  close_admission, capture, drain_check, unload, reconcile, initialize, lock_stage, take_lock,
  close_empty, close_reconcile, close_barrier, run_stage, compare_stage, inspect_stage, empty_stage,
  answer_stage,
}
use mnemosyne_inference.Macos.Audit.{run_audit, inspected, begin_audit, repairs}
use mnemosyne_inference.Macos.System.{
  Event, start_audit, engine_raised, audit_step, raise_driver, put_audit, audit_at, ask,
  take_outcome, give_back, run_driver, engines_answered, start, run_barrier, barrier_answered,
  call_unload, call_reconcile, call_initialize, nth, replace, run_driver_at, answer_driver,
  add_barrier, call, put_barrier, run_barrier_at, answer_barrier_at, step, run,
}
use mnemosyne_inference.Macos.Fence.{in_transition}
use mnemosyne_inference.Macos.FenceRuns.{is_calm, is_calm_run}
use mnemosyne_inference.Macos.LockCounts.{lock_holders, engine_users}
use mnemosyne_inference.Macos.Permits.{
  run_counts_permits, calm_run_counts_exactly, calm_run_switches_idle, calm_run_barrier_alone,
  publish_strands_permits,
}

abbrev model : String → ResolvedTarget
model id = record {
  alias = id;
  key = record { engine = "llama.cpp"; canonical_model_id = id; load_config_digest = "" };
  wire_model = id;
  capabilities = "completions" ∷ [];
  parallel = some 4;
}

-- The one engine answers that it holds nothing, or the model.
abbrev nothing_loaded : Inspection
nothing_loaded =
    ("llama.cpp", some (record { engine = "llama.cpp"; residents = []; authoritative = true })) ∷ []

abbrev loaded : String → Inspection
loaded id =
    (
      "llama.cpp",
      some (record {
        engine = "llama.cpp";
        residents =
            record {
              engine = "llama.cpp";
              canonical_model_id = id;
              is_ready = true;
              managed = true;
            }
            ∷ [];
        authoritative = true;
      }),
    )
    ∷ []

abbrev begin : Coordinator
begin = fresh none 8 0

-- `initialize`
abbrev startup : List Event
startup =
    start call_initialize
    ∷ run_barrier 0 0 false true
    ∷ barrier_answered 0 nothing_loaded true
    ∷ barrier_answered 0 nothing_loaded true
    ∷ barrier_answered 0 nothing_loaded true
    ∷ run_barrier 0 1 false true
    ∷ []

-- A caller waits for a model that is not loaded; the driver loads it and has not yet published it.
abbrev switching : ℕ → String → Inspection → List Event
switching ticket id before =
    ask none ticket (model id)
    ∷ run_driver none
    ∷ run_driver none
    ∷ engines_answered before true
    ∷ engines_answered nothing_loaded true
    ∷ engines_answered nothing_loaded true
    ∷ engines_answered (loaded id) true
    ∷ []

-- The handle is published, the waiter is granted, and the driver ends.
abbrev serving : ℕ → List Event
serving ticket =
    run_driver none ∷ run_driver none ∷ take_outcome ticket ∷ run_driver none ∷ run_driver none ∷ []

abbrev one_model : List Event
one_model = startup ++ switching 1 "a" nothing_loaded ++ serving 1

-- A reconciliation ends while an unload waits for the operation lock: admission is open again, a
-- caller is served, and the unload empties the engines under its lease. The next model is loaded
-- without a drain.
abbrev overlapping : List Event
overlapping =
    give_back 2 1
    ∷ start call_reconcile
    ∷ start call_unload
    ∷ run_barrier 0 3 false true
    ∷ barrier_answered 0 (loaded "a") true
    ∷ run_barrier 0 3 false true
    ∷ ask none 2 (model "a")
    ∷ run_barrier 0 3 false true
    ∷ barrier_answered 0 (loaded "a") true
    ∷ barrier_answered 0 nothing_loaded true
    ∷ run_barrier 0 4 false true
    ∷ switching 3 "b" nothing_loaded

abbrev returned : List Event
returned =
    run_driver none
    ∷ take_outcome 3
    ∷ run_driver none
    ∷ run_driver none
    ∷ give_back 5 1
    ∷ give_back 5 2
    ∷ []

abbrev switching_to_b : Coordinator
switching_to_b = run (one_model ++ give_back 2 1 ∷ switching 3 "b" (loaded "a")) begin

abbrev unloading : Coordinator
unloading =
    run (one_model ++ give_back 2 1 ∷ start call_unload ∷ run_barrier 0 3 false true ∷ []) begin

abbrev served : Coordinator
served = run one_model begin

abbrev stranded : Coordinator
stranded = run (one_model ++ overlapping) begin

abbrev lost : Coordinator
lost = run returned (step (run_driver none) stranded)

started : new none 8 0 ≡ some begin
unfolding new is_limit
started = refl

-- Evaluates the runs.
evaluates : Coordinator → Coordinator
unfolding all_of any_of has outcome drop_future holds remove_lease same_load key_eq
    llama_cpp_process_mode mode_eq derived_limit effective_limit or_one validate_snapshot
    add_residents inspect_all is_instance_of only_resident is_empty_inspection verifies matches
    fresh available publish_state live_waiters purge_cancelled ensure_driver grant_loop
    grant_head_group fail_each fail_all release_locked grant_now is_settled serves_at_once enqueue
    admit acquire settle_wait collect release_section release unless_degraded drive_empty
    serve_resident begin_switch drive_head drive_queue drive_open drive finish_driver to_stage
    lock_transition answer_unload answer_empty answer_load answer_verify publish_handle
    close_admission capture drain_check unload reconcile initialize lock_stage take_lock close_empty
    close_reconcile close_barrier run_stage compare_stage inspect_stage empty_stage answer_stage nth
    replace run_driver_at answer_driver add_barrier call put_barrier run_barrier_at
    answer_barrier_at step run
evaluates s = s

served_counts : (served.inflight ≡ 1) × (served.leases ≡ 1 ∷ [])
unfolding evaluates
served_counts = (refl, refl)

-- The overlap leaves one permit in flight when every lease has been given back.
lost_permit : (lost.inflight ≡ 1) × ((lost.leases ≡ []) × (lost.futures ≡ []))
unfolding evaluates
lost_permit = (refl, (refl, refl))

stranded_at_publish : stranded.driver ≡ loaded_for (model "b")
unfolding evaluates
stranded_at_publish = refl

switching_to_b_moves : in_transition switching_to_b.driver ≡ true
unfolding evaluates
switching_to_b_moves = refl

unloading_in_lock :
    nth 0 unloading.barriers ≡ some (record { kind = unload_call; stage = unloading_all })
unfolding evaluates
unloading_in_lock = refl

to_b_is_calm : is_calm_run (one_model ++ give_back 2 1 ∷ switching 3 "b" (loaded "a")) begin ≡ true
unfolding is_calm_run is_calm evaluates
to_b_is_calm = refl

unloading_is_calm :
    is_calm_run
      (one_model ++ give_back 2 1 ∷ start call_unload ∷ run_barrier 0 3 false true ∷ [])
      begin
    ≡ true
unfolding is_calm_run is_calm evaluates
unloading_is_calm = refl

run_counts_permits_example :
    (held stranded.epoch stranded.leases + owed stranded.epoch stranded.futures ≤ stranded.inflight)
    × (LeasesUpTo stranded.epoch stranded.leases × FuturesUpTo stranded.epoch stranded.futures)
run_counts_permits_example = run_counts_permits none 8 0 (one_model ++ overlapping) begin started

calm_run_counts_exactly_example :
    switching_to_b.inflight
    ≡ held switching_to_b.epoch switching_to_b.leases
      + owed switching_to_b.epoch switching_to_b.futures
calm_run_counts_exactly_example =
    calm_run_counts_exactly none 8 0 (one_model ++ give_back 2 1 ∷ switching 3 "b" (loaded "a"))
      begin started to_b_is_calm

calm_run_switches_idle_example :
    held switching_to_b.epoch switching_to_b.leases
      + owed switching_to_b.epoch switching_to_b.futures
    ≡ 0
calm_run_switches_idle_example =
    calm_run_switches_idle none 8 0 (one_model ++ give_back 2 1 ∷ switching 3 "b" (loaded "a"))
      begin started to_b_is_calm switching_to_b_moves

calm_run_barrier_alone_example :
    (held unloading.epoch unloading.leases + owed unloading.epoch unloading.futures ≡ 0)
    × ((unloading.accepting ≡ false) × (in_transition unloading.driver ≡ false))
calm_run_barrier_alone_example =
    calm_run_barrier_alone none 8 0
      (one_model ++ give_back 2 1 ∷ start call_unload ∷ run_barrier 0 3 false true ∷ []) begin 0
      (record { kind = unload_call; stage = unloading_all }) started unloading_is_calm
      unloading_in_lock refl

publish_strands_permits_example :
    stranded.inflight ≤ (run returned (step (run_driver none) stranded)).inflight
publish_strands_permits_example =
    publish_strands_permits none 8 0 (one_model ++ overlapping) returned begin none (model "b")
      started stranded_at_publish

-- An audit that waited for the lock inspects the engines, while the driver cleans up after a failed
-- transition.
abbrev failing_beside : List Event
failing_beside =
    startup
    ++ start_audit
      ∷ ask none 1 (model "a")
      ∷ run_driver none
      ∷ run_driver none
      ∷ engine_raised (engine_error 0)
      ∷ audit_step 0 false false nothing_loaded
      ∷ []

abbrev beside : Coordinator
beside = run failing_beside begin

beside_runs : (engine_users beside ≡ 2) × (lock_holders beside ≡ 1)
unfolding evaluates engine_users lock_holders raise_transition run_audit inspected begin_audit
    put_audit audit_at raise_driver repairs is_transition_state
beside_runs = (refl, refl)
