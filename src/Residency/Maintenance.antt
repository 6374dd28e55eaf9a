-- ===== src/Residency/Maintenance.antt =====
-- cuda_residency.py: `unload`, `evict_if_idle`, `shutdown` and `_drain_and_unload`, cut at the points
-- where the maintenance task waits. Whether a deadline has passed comes with the event.
use mnemosyne_inference.Prelude.{
  ℕ, ◌+◌, String, Bool, true, false, ◌&&◌, not, none, some, ltb, leb, is_none, is_nil, ◌==◌,
  if◌then◌else◌,
}
use mnemosyne_inference.Residency.Types.{
  not_accepting, idle, draining, unloading, ready, degraded, stopping, no_resident_capacity,
  task_done, no_maintenance, evicting, drain_active, await_driver, before_stop, stop_engine,
  Coordinator,
}
use mnemosyne_inference.Residency.Locked.{bump, set_state, fail_all}

-- The head of the `while self._active > 0` loop: a wait, or on to the driver task. The code skips
-- the wait for a driver that is absent.
unfoldable pub drain_check : Bool → Bool → Coordinator → Coordinator
unfolding set_state
drain_check reopen is_stopping s =
    if ltb 0 s.active
    then record (set_state (if is_stopping then stopping else draining) none none s) {
      maintenance = drain_active reopen is_stopping;
    }
    else record s {
      maintenance =
          if task_done s.driver
          then before_stop reopen is_stopping
          else await_driver reopen is_stopping s.driver_task;
    }

unfoldable pub begin_drain : (reopen is_stopping already_closed : Bool) → Coordinator → Coordinator
begin_drain reopen is_stopping already_closed s =
    let closed : Coordinator =
      if already_closed then s else bump (record s { accepting = false }) in
    let marked = if is_stopping then set_state stopping none none closed else closed in
    drain_check reopen is_stopping (fail_all not_accepting marked)

unfoldable pub unload : Coordinator → Coordinator
unload s = begin_drain true false false s

unfoldable pub shutdown : Coordinator → Coordinator
shutdown s = begin_drain false true false (record s { is_stopping = true })

unfoldable pub is_evictable : ℕ → ℕ → Coordinator → Bool
is_evictable now idle_for s =
    not (is_none s.resident_profile)
    && s.active == 0
    && is_nil s.queue
    && s.accepting
    && s.authoritative
    && leb (s.last_used + idle_for) now

unfoldable pub evict : ℕ → ℕ → Coordinator → Coordinator
evict now idle_for s =
    if is_evictable now idle_for s
    then bump (record s { accepting = false; maintenance = evicting })
    else s

-- The drain's deadline passed: the exception `QueueTimeout` ends the call.
unfoldable pub drain_timeout : Bool → Bool → Coordinator → Coordinator
unfolding set_state bump
drain_timeout reopen is_stopping s =
    let free : Coordinator = record s { maintenance = no_maintenance } in
    if reopen && not is_stopping
    then set_state (if is_none s.resident_profile then idle else ready) none none
        (record free { accepting = true })
    else bump (record free { diagnostic_code = some "shutdown_drain_timeout" })

-- The deadline passed behind the drain, or the engine did not stop: admission stays closed, and
-- the call raises.
unfoldable pub give_up : Bool → String → Coordinator → Coordinator
unfolding set_state
give_up is_stopping code s =
    set_state (if is_stopping then stopping else degraded) none (some code)
      (record s { authoritative = false; accepting = false; maintenance = no_maintenance })

-- The operation lock is taken, and `stop_engine` is called.
unfoldable pub begin_stop : Bool → Bool → Coordinator → Coordinator
unfolding set_state
begin_stop reopen is_stopping s =
    let s' = set_state (if is_stopping then stopping else unloading) none none s in
    record s' { operation_lock = true; maintenance = stop_engine reopen is_stopping }

-- `stop_engine` timed out or raised.
unfoldable pub fail_stop : Bool → String → Coordinator → Coordinator
unfolding give_up
fail_stop is_stopping code s = give_up is_stopping code (record s { operation_lock = false })

-- `stop_engine` returned.
unfoldable pub finish_unload : Bool → Bool → Coordinator → Coordinator
unfolding set_state bump
finish_unload reopen is_stopping s =
    let unloaded : Coordinator = record s {
      resident_profile = none;
      resident_deployment_id = none;
      capacity = no_resident_capacity;
      epoch = s.epoch + 1;
      authoritative = true;
      diagnostic_code = none;
      accepting = reopen && not is_stopping;
      operation_lock = false;
      maintenance = no_maintenance;
    } in
    bump (set_state (if is_stopping then stopping else idle) none none unloaded)
