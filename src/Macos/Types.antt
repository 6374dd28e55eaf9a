-- ===== src/Macos/Types.antt =====
-- macos/service/src/mnemosyne_macos/coordinator.py: the data of the coordinator. Monotonic times are
-- whole numbers of ticks of the clock.
use mnemosyne_inference.Prelude.{
  ℕ, String, Bool, true, false, Option, none, some, List, [], leb, ◌==◌, ◌&&◌, if◌then◌else◌,
}
use mnemosyne_inference.Leasing
pub use mnemosyne_inference.Leasing.{granted, failed}
use mnemosyne_inference.Macos.Targets.{ResolvedTarget, ResidentInstance}

-- `refused` has the message of a `CoordinatorError`, less what a name, a count or an exception's text
-- fills in, and so has a diagnostic; `engine_error` is what an adapter raised.
pub data CoordinatorError : Type 0 where
  queue_timeout queue_full : CoordinatorError
  refused : String → CoordinatorError
  engine_error : ℕ → CoordinatorError

pub data CoordinatorState : Type 0 where
  idle draining unloading verifying_empty loading verifying_target ready degraded stopping :
      CoordinatorState

abbrev pub state_rank : CoordinatorState → ℕ
state_rank idle = 0
state_rank draining = 1
state_rank unloading = 2
state_rank verifying_empty = 3
state_rank loading = 4
state_rank verifying_target = 5
state_rank ready = 6
state_rank degraded = 7
state_rank stopping = 8

abbrev pub state_eq : CoordinatorState → CoordinatorState → Bool
state_eq a b = state_rank a == state_rank b

-- _TRANSITION_STATES
unfoldable pub is_transition_state : CoordinatorState → Bool
is_transition_state idle = false
is_transition_state ready = false
is_transition_state degraded = false
is_transition_state s = true

pub record Waiter : Type 0 where
  pub ticket : ℕ
  pub target : ResolvedTarget
  pub cancelled : Bool

-- A lease is for the target that its caller asked for.
abbrev pub Outcome : Type 0
Outcome = Leasing.Outcome ResolvedTarget CoordinatorError

-- The driver task: where it stands between two of its critical sections. From `unloading_for` to
-- `verifying_for` it holds the operation lock; `loaded_for` has let it go and has not yet published;
-- `cleaning_for` is the cleanup of a transition that raised, `finishing` the `finally` block.
pub data Driver : Type 0 where
  absent driving finishing : Driver
  queued_for unloading_for emptying_for loading_for verifying_for loaded_for :
      ResolvedTarget → Driver
  cleaning_for : ResolvedTarget → CoordinatorError → Driver

abbrev pub task_done : Driver → Bool
task_done absent = true
task_done d = false

abbrev pub holds_lock : Driver → Bool
holds_lock (unloading_for t) = true
holds_lock (emptying_for t) = true
holds_lock (loading_for t) = true
holds_lock (verifying_for t) = true
holds_lock absent = false
holds_lock driving = false
holds_lock finishing = false
holds_lock (queued_for t) = false
holds_lock (loaded_for t) = false
holds_lock (cleaning_for t e) = false

-- The calls that close admission until they have done.
pub data Kind : Type 0 where
  unload_call abort_call maintenance_call reconcile_call initialize_call : Kind

-- Where such a call stands. `await_driver` has the identity of the driver task that it waits for;
-- from `inspecting` to `verifying` the call holds the operation lock; `closing` is the last section,
-- with whether the cached resident matched; `failing` is the `except` section.
pub data Stage : Type 0 where
  evicting drain before_lock inspecting unloading_all emptying_all operating verifying failing :
      Stage
  await_driver : (task : ℕ) → Stage
  closing : (matched : Bool) → Stage

pub record Barrier : Type 0 where
  pub kind : Kind
  pub stage : Stage

-- An `audit`: it waits for the lock, inspects under it, and judges what it saw.
pub data Audit : Type 0 where
  audit_waiting audit_inspecting : Audit
  audit_failed : (timed_out : Bool) → Audit
  audit_judging : List ResidentInstance → Audit

pub data Shutdown : Type 0 where
  not_called before_cleanup cleaning_up shut_down : Shutdown
  drain_grace await_grace : (task : ℕ) → Shutdown

-- The fields of `ResidencyCoordinator`, the futures that its callers have not collected, the
-- epochs of the leases that are out, and its tasks. Any number of barriers and audits may be under
-- way: no lock keeps them apart.
pub record Coordinator : Type 0 where
  pub configured_max_concurrency : Option ℕ
  pub max_queue_depth : ℕ
  pub queue : List Waiter
  pub resident : Option ResolvedTarget
  pub epoch : ℕ
  pub inflight : ℕ
  pub state : CoordinatorState
  pub diagnostic : Option String
  pub driver : Driver
  pub driver_task : ℕ
  pub transition_target : Option ResolvedTarget
  pub is_stopping : Bool
  pub initialized : Bool
  pub accepting : Bool
  pub last_used : ℕ
  pub operation_lock : Bool
  pub futures : List (ℕ × Outcome)
  pub leases : List ℕ
  pub barriers : List Barrier
  pub audits : List Audit
  pub shutdown : Shutdown

unfoldable pub fresh : Option ℕ → ℕ → ℕ → Coordinator
fresh configured depth now = record {
  configured_max_concurrency = configured;
  max_queue_depth = depth;
  queue = [];
  resident = none;
  epoch = 0;
  inflight = 0;
  state = idle;
  diagnostic = none;
  driver = absent;
  driver_task = 0;
  transition_target = none;
  is_stopping = false;
  initialized = false;
  accepting = false;
  last_used = now;
  operation_lock = false;
  futures = [];
  leases = [];
  barriers = [];
  audits = [];
  shutdown = not_called;
}

unfoldable pub is_limit : Option ℕ → Bool
is_limit none = true
is_limit (some limit) = leb 1 limit

-- `__init__`: `none` is a `ValueError`.
unfoldable pub new : Option ℕ → ℕ → ℕ → Option Coordinator
new configured depth now =
    if is_limit configured && leb 1 depth then some (fresh configured depth now) else none
