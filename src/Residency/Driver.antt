-- ===== src/Residency/Driver.antt =====
-- cuda_residency.py: `_drive`, `_transition` and `_cleanup_after_failed_transition`, cut at the
-- points where the driver task waits or another task can run. The engine callbacks are the
-- environment: whether they return, raise, and with which capacity comes with the event.
use mnemosyne_inference.Prelude.{
  ◌+◌, String, Bool, true, false, ◌&&◌, ◌||◌, not, Option, none, some, List, [], ◌∷◌, ltb, str_eq,
  opt_str_eq, is_none, is_nil, ◌==◌, if◌then◌else◌,
}
use mnemosyne_inference.Residency.Types.{
  Profile, ResidencyError, not_accepting, idle, draining, unloading, loading, ready, degraded,
  stopping, CapacitySpec, no_resident_capacity, Waiter, absent, driving, finishing, queued_for,
  stopping_for, loading_for, cleaning_for, Coordinator,
}
use mnemosyne_inference.Residency.Locked.{
  bump, set_state, purge_cancelled, ensure_driver, grant_head, fail_head, fail_all,
}

-- The loop's `self._grant_head_locked(…)`: what was granted decides between `continue` and a wait.
unfoldable pub serve_resident : String → Coordinator → Coordinator
serve_resident d s =
    let (s', count) = grant_head d s in if count == 0 then set_state ready none none s' else s'

unfoldable pub drive_head : Waiter → Coordinator → Coordinator
drive_head head s =
    if opt_str_eq s.resident_deployment_id (some head.deployment_id)
    then serve_resident head.deployment_id s
    else if ltb 0 s.active
    then set_state draining (some head.deployment_id) none s
    else (let s' = set_state unloading (some head.deployment_id) none s in
        record s' { driver = queued_for head.profile head.deployment_id })

unfoldable pub drive_queue : List Waiter → Coordinator → Coordinator
drive_queue [] s =
    let s' = set_state (if is_none s.resident_profile then idle else ready) none none s in
    record s' { driver = finishing }
drive_queue (head ∷ rest) s = drive_head head s

unfoldable pub drive_accepting : Coordinator → Coordinator
drive_accepting s =
    if not s.accepting || not s.authoritative || s.is_stopping
    then record (fail_all not_accepting s) { driver = finishing }
    else drive_queue s.queue s

-- One round of the loop in `_drive` up to the next point where the condition is let go.
unfoldable pub drive : Coordinator → Coordinator
drive s = drive_accepting (purge_cancelled s)

-- The `finally` block.
unfoldable pub finish_driver : Coordinator → Coordinator
unfolding ensure_driver
finish_driver s =
    let s' : Coordinator = record s { driver = absent } in
    if not (is_nil s.queue) && s.accepting && not s.is_stopping then ensure_driver s' else s'

-- `_transition` has taken the operation lock and calls `stop_engine`.
unfoldable pub lock_transition : Profile → String → Coordinator → Coordinator
lock_transition p d s = record s { driver = stopping_for p d; operation_lock = true }

-- `stop_engine` returned.
unfoldable pub begin_loading : Profile → String → Coordinator → Coordinator
unfolding set_state
begin_loading p d s = record (set_state loading (some d) none s) { driver = loading_for p d }

-- `start_engine` and `derive_capacity` returned: the last section of a round of `_drive`.
unfoldable pub finish_transition : Profile → String → CapacitySpec → Coordinator → Coordinator
unfolding set_state bump
finish_transition p d capacity s =
    let loaded : Coordinator = record s {
      resident_profile = some p;
      resident_deployment_id = some d;
      capacity = capacity;
      epoch = s.epoch + 1;
      operation_lock = false;
      driver = driving;
    } in
    let code : String = elim s.diagnostic_code [
      | none ↦ "admission_barrier_incomplete"
      | some code ↦ (if str_eq code "" then "admission_barrier_incomplete" else code)
    ] in
    bump (
      if s.accepting && s.authoritative && not s.is_stopping
      then set_state ready none none loaded
      else set_state (if s.is_stopping then stopping else degraded) none (some code) loaded)

-- A callback of `_transition` raised: the operation lock is let go.
unfoldable pub raise_transition : String → ResidencyError → Coordinator → Coordinator
raise_transition d e s = record s { driver = cleaning_for d e; operation_lock = false }

-- The `except` section, after `_cleanup_after_failed_transition` returned `clean`: its part on the
-- coordinator's own fields, and the whole.
unfoldable pub clear_failed : Bool → Coordinator → Coordinator
unfolding set_state
clear_failed clean s =
    let unloaded : Coordinator = record s {
      resident_profile = none;
      resident_deployment_id = none;
      capacity = no_resident_capacity;
      transition_target = none;
      authoritative = clean;
      accepting = clean && not s.is_stopping;
      driver = driving;
    } in
    let code : Option String = if clean then none else some "transition_cleanup_failed" in
    set_state (if clean then idle else degraded) none code unloaded

unfoldable pub fail_transition : String → ResidencyError → Bool → Coordinator → Coordinator
fail_transition d e clean s = bump (fail_head d e (clear_failed clean s))
