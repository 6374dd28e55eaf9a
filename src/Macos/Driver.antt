-- ===== src/Macos/Driver.antt =====
-- macos/service/src/mnemosyne_macos/coordinator.py: `_drive` and `_transition`, cut where the task lets
-- the condition go or waits for an adapter.
use mnemosyne_inference.Prelude.{
  ℕ, ◌+◌, Bool, true, false, ◌&&◌, ◌||◌, not, Option, none, some, List, [], ◌∷◌, ltb, ◌==◌, is_nil,
  if◌then◌else◌,
}
use mnemosyne_inference.Macos.Targets.{
  ResolvedTarget, same_load, Inspection, inspect_all, is_empty_inspection, verifies,
}
use mnemosyne_inference.Macos.Types.{
  CoordinatorError, refused, engine_error, CoordinatorState, idle, draining, unloading,
  verifying_empty, loading, verifying_target, ready, degraded, state_eq, Waiter, Driver, absent,
  driving, finishing, queued_for, unloading_for, emptying_for, loading_for, verifying_for,
  loaded_for, cleaning_for, Coordinator,
}
use mnemosyne_inference.Macos.Locked.{
  publish_state, purge_cancelled, ensure_driver, grant_head_group, fail_head_group, fail_all,
}

-- `if self._state != DEGRADED: self._state = …`
unfoldable pub unless_degraded : CoordinatorState → Coordinator → Coordinator
unless_degraded state s = if state_eq s.state degraded then s else publish_state state s

unfoldable pub drive_empty : Option ResolvedTarget → Coordinator → Coordinator
drive_empty none s =
    unless_degraded idle (record s { transition_target = none; driver = finishing })
drive_empty (some r) s =
    unless_degraded ready (record s { transition_target = none; driver = finishing })

-- What was granted decides between `continue` and a wait.
unfoldable pub serve_resident :
    Option ℕ → (resident head : ResolvedTarget) → Coordinator → Coordinator
serve_resident hint r head s =
    let (s', count) = grant_head_group hint r head (record s { transition_target = none }) in
    if count == 0 then unless_degraded ready s' else s'

unfoldable pub begin_switch : ResolvedTarget → Coordinator → Coordinator
begin_switch head s = record s { transition_target = some head; driver = queued_for head }

unfoldable pub drive_head :
    Option ℕ → Option ResolvedTarget → ResolvedTarget → Coordinator → Coordinator
drive_head hint none head s = begin_switch head s
drive_head hint (some r) head s =
    if same_load r head
    then serve_resident hint r head s
    else if ltb 0 s.inflight
    then publish_state draining (record s { transition_target = some head })
    else begin_switch head s

unfoldable pub drive_queue : Option ℕ → List Waiter → Coordinator → Coordinator
drive_queue hint [] s = drive_empty s.resident s
drive_queue hint (w ∷ ws) s = drive_head hint s.resident w.target s

unfoldable pub stop_driving : CoordinatorError → Coordinator → Coordinator
stop_driving e s = record (fail_all e s) { driver = finishing }

unfoldable pub drive_open : Option ℕ → Coordinator → Coordinator
drive_open hint s =
    if s.is_stopping
    then stop_driving (refused "coordinator is stopping") s
    else if not s.initialized || not s.accepting
    then stop_driving (refused "coordinator is temporarily not accepting requests") s
    else drive_queue hint s.queue s

-- One round of the loop in `_drive` up to the next point where the condition is let go.
unfoldable pub drive : Option ℕ → Coordinator → Coordinator
drive hint s = drive_open hint (purge_cancelled s)

-- The `finally` block.
unfoldable pub finish_driver : Coordinator → Coordinator
finish_driver s =
    let s' : Coordinator = record s { driver = absent } in
    if not (is_nil s.queue) && not s.is_stopping then ensure_driver s' else s'

unfoldable pub to_stage : Driver → CoordinatorState → Coordinator → Coordinator
to_stage d state s = publish_state state (record s { driver = d })

-- `_transition` has taken the operation lock.
unfoldable pub lock_transition : ResolvedTarget → Coordinator → Coordinator
lock_transition t s = to_stage (unloading_for t) unloading (record s { operation_lock = true })

-- An adapter or the transition itself raised: the operation lock is let go.
unfoldable pub raise_transition : ResolvedTarget → CoordinatorError → Coordinator → Coordinator
raise_transition t e s = record s { driver = cleaning_for t e; operation_lock = false }

-- The first half of `_unload_globally`: the inspection, and whether each `unload_all` returned.
unfoldable pub answer_unload : ResolvedTarget → Inspection → Bool → Coordinator → Coordinator
answer_unload t before done s = elim (inspect_all before) [
  | none ↦ raise_transition t (refused "engine state is uncertain") s
  | some rs ↦
      (if done
        then to_stage (emptying_for t) verifying_empty s
        else raise_transition t (engine_error 0) s)
]

-- The second half: nothing may be left.
unfoldable pub answer_empty : ResolvedTarget → Inspection → Coordinator → Coordinator
answer_empty t after s =
    if is_empty_inspection (inspect_all after)
    then to_stage (loading_for t) loading s
    else raise_transition t (refused "global unload left resident models") s

unfoldable pub answer_load : ResolvedTarget → Bool → Coordinator → Coordinator
answer_load t done s =
    if done
    then to_stage (verifying_for t) verifying_target s
    else raise_transition t (engine_error 1) s

-- The verification behind the load. The operation lock is let go before anything is published.
unfoldable pub answer_verify : ResolvedTarget → Inspection → Coordinator → Coordinator
answer_verify t seen s =
    if verifies t (inspect_all seen)
    then record s { driver = loaded_for t; operation_lock = false }
    else raise_transition t (refused "post-load verification failed") s

-- The last section of a round: the handle is published, whatever happened to the admission.
unfoldable pub publish_handle : ResolvedTarget → Coordinator → Coordinator
publish_handle t s =
    let loaded : Coordinator = record s {
      resident = some t;
      epoch = s.epoch + 1;
      transition_target = none;
      driver = driving;
    } in
    if s.initialized && s.accepting && not s.is_stopping
    then record loaded { state = ready; diagnostic = none }
    else loaded

unfoldable pub close_unclean : Bool → Coordinator → Coordinator
close_unclean clean s = if clean then s else record s { initialized = false; accepting = false }

-- The `except` section, after `_cleanup_best_effort` returned `clean`.
unfoldable pub fail_transition :
    ResolvedTarget → CoordinatorError → Bool → Coordinator → Coordinator
fail_transition t e clean s =
    let unloaded : Coordinator = record s {
      resident = none;
      state = degraded;
      diagnostic = some "transition failed";
      transition_target = none;
      driver = driving;
    } in
    fail_head_group t e (close_unclean clean unloaded)

-- The task was cancelled: `_transition` lets the operation lock go, and the `finally` block is next.
unfoldable pub cancel_driver : (held : Bool) → Coordinator → Coordinator
cancel_driver held s = record s {
  driver = finishing;
  operation_lock = if held then false else s.operation_lock;
}
