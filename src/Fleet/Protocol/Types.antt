-- ===== src/Fleet/Protocol/Types.antt =====
-- fleet/src/mnemosyne_fleet/protocol.py: the models of a snapshot. Floats are whole numbers of a
-- small unit: `observed_at` and `last_flush_at` of a tick, `saturation` of 10⁻⁹.
use mnemosyne_inference.Prelude.{ℕ, String, Bool, Option, List, ◌==◌}
use mnemosyne_inference.Prelude.Dict.{Dict}

pub data Platform : Type 0 where
  cuda macos : Platform

pub data HealthState : Type 0 where
  idle draining unloading loading verifying ready degraded stopping : HealthState

abbrev pub state_rank : HealthState → ℕ
state_rank idle = 0
state_rank draining = 1
state_rank unloading = 2
state_rank loading = 3
state_rank verifying = 4
state_rank ready = 5
state_rank degraded = 6
state_rank stopping = 7

abbrev pub state_eq : HealthState → HealthState → Bool
state_eq a b = state_rank a == state_rank b

pub data Confidence : Type 0 where
  authoritative configured derived conservative : Confidence

pub data IdentityConfidence : Type 0 where
  authoritative unverified : IdentityConfidence

pub record NodeDescriptor : Type 0 where
  pub node_id : String
  pub instance_id : String
  pub platform : Platform
  pub version : String

pub record Health : Type 0 where
  pub state : HealthState
  pub accepting : Bool
  pub authoritative : Bool
  pub diagnostic_code : Option String

pub record Residency : Type 0 where
  pub alias : Option String
  pub deployment_id : Option String
  pub engine : Option String
  pub epoch : ℕ
  pub transition_target : Option String

pub record Capacity : Type 0 where
  pub derived_limit : ℕ
  pub configured_max_concurrency : Option ℕ
  pub effective_limit : ℕ
  pub active : ℕ
  pub queued : ℕ
  pub available : ℕ
  pub source : String
  pub confidence : Confidence
  pub saturation : ℕ

pub record Admission : Type 0 where
  pub queue_depth : ℕ
  pub queue_limit : ℕ
  pub queued_by_deployment : Dict ℕ

pub record Artifact : Type 0 where
  pub format : String
  pub selected_files : List String
  pub quantization : Option String
  pub content_digest : Option String

pub record DeploymentIdentity : Type 0 where
  pub protocol : ℕ
  pub engine : String
  pub upstream_model : String
  pub resolved_revision : Option String
  pub artifact : Artifact
  pub kind : String
  pub capabilities : List String
  pub load_config_digest : String

pub record Deployment : Type 0 where
  pub alias : String
  pub deployment_id : String
  pub identity : DeploymentIdentity
  pub identity_confidence : IdentityConfidence
  pub fleet_eligible : Bool
  pub loadable : Bool
  pub warm : Bool
  pub capacity : Capacity

pub record UsageDelivery : Type 0 where
  pub enabled : Bool
  pub writer_ready : Bool
  pub outbox_pending : ℕ
  pub last_flush_at : Option ℕ
  pub last_error_code : Option String

pub record Snapshot : Type 0 where
  pub schema_version : ℕ
  pub snapshot_sequence : ℕ
  pub observed_at : ℕ
  pub node : NodeDescriptor
  pub health : Health
  pub residency : Residency
  pub admission : Admission
  pub capacity : Capacity
  pub deployments : List Deployment
  pub usage_delivery : UsageDelivery
