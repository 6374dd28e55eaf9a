-- ===== src/Residency/Types.antt =====
-- cuda_residency.py: the data of the coordinator.
-- `Profile` stands for the profile object, which the coordinator passes on and never inspects.
-- Monotonic times are whole numbers of ticks of the clock.
use mnemosyne_inference.Prelude.{
  ℕ, String, Bool, true, false, Option, none, some, List, [], leb, ◌==◌, if◌then◌else◌,
}
use mnemosyne_inference.Leasing
pub use mnemosyne_inference.Leasing.{granted, failed}

abbrev pub Profile : Type 0
Profile = String

-- The exceptions that a caller of the coordinator sees; `engine_error` is what an engine callback
-- raised.
pub data ResidencyError : Type 0 where
  queue_full queue_timeout not_accepting : ResidencyError
  engine_error : ℕ → ResidencyError

pub data CoordinatorState : Type 0 where
  idle draining unloading loading ready degraded stopping : CoordinatorState

abbrev pub state_rank : CoordinatorState → ℕ
state_rank idle = 0
state_rank draining = 1
state_rank unloading = 2
state_rank loading = 3
state_rank ready = 4
state_rank degraded = 5
state_rank stopping = 6

abbrev pub state_eq : CoordinatorState → CoordinatorState → Bool
state_eq a b = state_rank a == state_rank b

pub record CapacitySpec : Type 0 where
  pub derived_limit : ℕ
  pub source : String
  pub confidence : String

-- `CapacitySpec(…)` with its `__post_init__`: `none` is the `ValueError`.
unfoldable pub capacity_spec : ℕ → String → String → Option CapacitySpec
capacity_spec limit source confidence =
    if leb 1 limit
    then some (record { derived_limit = limit; source = source; confidence = confidence })
    else none

abbrev pub no_resident_capacity : CapacitySpec
no_resident_capacity = record {
  derived_limit = 1;
  source = "no-resident-conservative";
  confidence = "conservative";
}

-- A queued `acquire`. `ticket` is the identity of its waiter object and of the future in it.
pub record Waiter : Type 0 where
  pub ticket : ℕ
  pub profile : Profile
  pub deployment_id : String
  pub cancelled : Bool

-- What a waiter's future was settled with; a future that is not in the list is pending.
abbrev pub Outcome : Type 0
Outcome = Leasing.Outcome Profile ResidencyError

-- The driver task: where it stands between two of its critical sections. `queued_for` waits for
-- the operation lock, `stopping_for` and `loading_for` hold it, `cleaning_for` is the cleanup of a
-- transition that raised, `finishing` the `finally` block.
pub data Driver : Type 0 where
  absent driving finishing : Driver
  queued_for stopping_for loading_for : Profile → String → Driver
  cleaning_for : String → ResidencyError → Driver

abbrev pub task_done : Driver → Bool
task_done absent = true
task_done _ = false

-- The one maintenance call that holds the maintenance lock, with its `reopen` and `stopping`.
-- `evicting` has closed admission and not yet begun to drain; `await_driver` holds the identity of
-- the driver task that it waits for.
pub data Maintenance : Type 0 where
  no_maintenance evicting : Maintenance
  drain_active before_stop stop_engine : (reopen is_stopping : Bool) → Maintenance
  await_driver : (reopen is_stopping : Bool) → (task : ℕ) → Maintenance

-- The fields of `CudaResidencyCoordinator`, the futures that its tasks have not collected, the
-- epochs of the leases that its callers have not released, and its tasks.
pub record Coordinator : Type 0 where
  pub queue : List Waiter
  pub resident_profile : Option Profile
  pub resident_deployment_id : Option String
  pub capacity : CapacitySpec
  pub configured_max_concurrency : Option ℕ
  pub max_queue_depth : ℕ
  pub epoch : ℕ
  pub active : ℕ
  pub state : CoordinatorState
  pub diagnostic_code : Option String
  pub transition_target : Option String
  pub driver : Driver
  pub driver_task : ℕ
  pub accepting : Bool
  pub authoritative : Bool
  pub is_stopping : Bool
  pub last_used : ℕ
  pub sequence : ℕ
  pub futures : List (ℕ × Outcome)
  pub leases : List ℕ
  pub operation_lock : Bool
  pub maintenance : Maintenance

-- `__init__`: `none` is the `ValueError`.
unfoldable pub new : Option ℕ → ℕ → ℕ → Option Coordinator
new configured depth now =
    let fresh : Coordinator = record {
      queue = [];
      resident_profile = none;
      resident_deployment_id = none;
      capacity = no_resident_capacity;
      configured_max_concurrency = configured;
      max_queue_depth = depth;
      epoch = 0;
      active = 0;
      state = idle;
      diagnostic_code = none;
      transition_target = none;
      driver = absent;
      driver_task = 0;
      accepting = true;
      authoritative = true;
      is_stopping = false;
      last_used = now;
      sequence = 0;
      futures = [];
      leases = [];
      operation_lock = false;
      maintenance = no_maintenance;
    } in
    let bounded : Option Coordinator = if leb 1 depth then some fresh else none in
    elim configured [ none ↦ bounded | some limit ↦ (if leb 1 limit then bounded else none) ]
