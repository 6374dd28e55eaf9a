-- ===== src/Fleet/Protocol/Samples.antt =====
-- fleet/src/mnemosyne_fleet/protocol.py: concrete snapshots for the tests.
use mnemosyne_inference.Prelude.{ℕ, String, true, false, none, some, [], ◌∷◌}
use mnemosyne_inference.Fleet.Config.{NodeConfig, ModelConfig}
use mnemosyne_inference.Fleet.Protocol.Types

abbrev pub digest_a : String
digest_a = "sha256:aaaaaaaaaaaaaaaaaaaaaaaaaaaaaaaaaaaaaaaaaaaaaaaaaaaaaaaaaaaaaaaa"

-- A hash function for the tests.
abbrev pub sample_digest : Types.DeploymentIdentity → String
sample_digest i = digest_a

abbrev pub capacity : ℕ → ℕ → ℕ → Types.Capacity
capacity limit active available = record {
  derived_limit = limit;
  configured_max_concurrency = none;
  effective_limit = limit;
  active = active;
  queued = 0;
  available = available;
  source = "engine";
  confidence = Types.Confidence.authoritative;
  saturation = 0;
}

abbrev pub identity : Types.DeploymentIdentity
identity = record {
  protocol = 1;
  engine = "vllm";
  upstream_model = "org/model";
  resolved_revision = none;
  artifact = record {
    format = "gguf";
    selected_files = "model.gguf" ∷ [];
    quantization = none;
    content_digest = some digest_a;
  };
  kind = "chat";
  capabilities = "chat/completions" ∷ "completions" ∷ [];
  load_config_digest = digest_a;
}

abbrev pub deployment : Types.Deployment
deployment = record {
  alias = "local";
  deployment_id = digest_a;
  identity = identity;
  identity_confidence = Types.IdentityConfidence.authoritative;
  fleet_eligible = true;
  loadable = true;
  warm = true;
  capacity = capacity 2 0 2;
}

-- A ready node with one resident deployment of two permits.
abbrev pub ready_snapshot : String → String → ℕ → Types.Snapshot
ready_snapshot node_id instance_id sequence = record {
  schema_version = 1;
  snapshot_sequence = sequence;
  observed_at = 0;
  node = record {
    node_id = node_id;
    instance_id = instance_id;
    platform = Types.cuda;
    version = "1";
  };
  health = record {
    state = Types.HealthState.ready;
    accepting = true;
    authoritative = true;
    diagnostic_code = none;
  };
  residency = record {
    alias = some "local";
    deployment_id = some digest_a;
    engine = some "vllm";
    epoch = 1;
    transition_target = none;
  };
  admission = record { queue_depth = 0; queue_limit = 4; queued_by_deployment = [] };
  capacity = capacity 2 0 2;
  deployments = deployment ∷ [];
  usage_delivery = record {
    enabled = false;
    writer_ready = false;
    outbox_pending = 0;
    last_flush_at = none;
    last_error_code = none;
  };
}

abbrev pub node : String → NodeConfig
node i = record {
  node_id = i;
  url = "http://node";
  fleet_token = "f";
  inference_token = "t";
  routing_weight = none;
}

abbrev pub model : ModelConfig
model = record {
  name = "public";
  deployment_id = digest_a;
  capabilities = "chat/completions" ∷ "completions" ∷ [];
  queue_depth = 2;
  queue_timeout = 100;
}
