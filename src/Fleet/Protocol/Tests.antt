-- ===== src/Fleet/Protocol/Tests.antt =====
-- fleet/src/mnemosyne_fleet/protocol.py: the validator at concrete snapshots.
use mnemosyne_inference.Prelude.{◌≡◌, refl, true, Option, some, any_of, all_of}
use mnemosyne_inference.Prelude.Dict.{get, has, distinct}
use mnemosyne_inference.Prelude.Text.{
  parses_hex, sorted_unique, split_on, starts_with, is_lower_text, drop,
}
use mnemosyne_inference.Fleet.Protocol.Types.{Snapshot}
use mnemosyne_inference.Fleet.Protocol.Fields.{
  is_sha256, accepts_node, accepts_health, accepts_residency, accepts_capacity, accepts_admission,
  accepts_artifact, accepts_identity, identity_is_consistent, is_revision, accepts_deployment,
  accepts_usage_delivery, total, admission_is_consistent, capacity_is_consistent,
}
use mnemosyne_inference.Fleet.Protocol.Validate.{
  queues_match, resident_matches, residency_matches, warmth_matches, target_matches, health_matches,
  queues_other, fully_open, permits_match, validate_admission_capacity, accepts_snapshot,
  validate_snapshot,
}
use mnemosyne_inference.Fleet.Protocol.Consistency.{IsConsistent, validate_snapshot-IsConsistent}
use mnemosyne_inference.Fleet.Protocol.Samples.{sample_digest, ready_snapshot}

-- Evaluates the validator: all that `validate_snapshot` calls.
unfoldable pub sample_runs : Option Snapshot → Option Snapshot
unfolding any_of all_of get has distinct parses_hex sorted_unique split_on starts_with is_lower_text
    drop is_sha256 accepts_node accepts_health accepts_residency accepts_capacity accepts_admission
    accepts_artifact accepts_identity identity_is_consistent is_revision accepts_deployment
    accepts_usage_delivery total admission_is_consistent capacity_is_consistent queues_match
    resident_matches residency_matches warmth_matches target_matches health_matches queues_other
    fully_open permits_match validate_admission_capacity accepts_snapshot validate_snapshot
sample_runs payload = validate_snapshot sample_digest true payload "n1"

sample_validates :
    validate_snapshot sample_digest true (some (ready_snapshot "n1" "i1" 5)) "n1"
    ≡ some (ready_snapshot "n1" "i1" 5)
unfolding sample_runs
sample_validates = refl

validate_snapshot-IsConsistent_example :
    (some (ready_snapshot "n1" "i1" 5) ≡ some (ready_snapshot "n1" "i1" 5))
    × ((ready_snapshot "n1" "i1" 5).node.node_id ≡ "n1")
    × IsConsistent (ready_snapshot "n1" "i1" 5)
validate_snapshot-IsConsistent_example =
    validate_snapshot-IsConsistent sample_digest true (some (ready_snapshot "n1" "i1" 5)) "n1"
      (ready_snapshot "n1" "i1" 5) sample_validates

pub sample_IsConsistent : IsConsistent (ready_snapshot "n1" "i1" 5)
sample_IsConsistent =
    (validate_snapshot-IsConsistent sample_digest true (some (ready_snapshot "n1" "i1" 5)) "n1"
      (ready_snapshot "n1" "i1" 5) sample_validates).2
