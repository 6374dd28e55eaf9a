-- ===== src/Fleet/Registry.antt =====
-- fleet/src/mnemosyne_fleet/registry.py: `NodeRegistry`. A poll is a function of what the HTTP client
-- delivered. Its callback `on_change`, the polling tasks and the logger keep no state here.
pub mod Fence
pub mod Fencing
pub mod Rollback
pub mod Tests
use mnemosyne_inference.Prelude.{
  ℕ, suc, ◌+◌, ◌*◌, ◌≤◌, String, Bool, true, false, ◌&&◌, ◌||◌, not, Option, none, some, List, [],
  ◌∷◌, ltb, leb, ◌==◌, str_eq, length, if◌then◌else◌,
}
use mnemosyne_inference.Prelude.Dict.{Dict, get, put, has, add}
use mnemosyne_inference.Fleet.Config.{NodeConfig}
use mnemosyne_inference.Fleet.Protocol.Types.{DeploymentIdentity, Snapshot}
use mnemosyne_inference.Fleet.Protocol.Validate.{validate_snapshot}

abbrev pub max_snapshot_bytes : ℕ
max_snapshot_bytes = 8 * 1024 * 1024

abbrev pub max_retired_instance_ids : ℕ
max_retired_instance_ids = 1024

pub record NodeRecord : Type 0 where
  pub enrollment : NodeConfig
  pub snapshot : Snapshot
  pub received_at : ℕ
  pub received_monotonic : ℕ
  pub poll_started_monotonic : ℕ

pub data PollError : Type 0 where
  not_polled snapshot_encoding_unsupported invalid_snapshot snapshot_too_large : PollError
  snapshot_instance_replayed snapshot_sequence_replayed snapshot_instance_churn_exhausted :
      PollError
  poll_timeout poll_transport_error : PollError
  http : (status_code : ℕ) → PollError

-- `int(…)` of the header `content-length`, if there is one.
pub data DeclaredLength : Type 0 where
  undeclared unreadable negative : DeclaredLength
  declared : ℕ → DeclaredLength

-- A response: `identity_encoded` says that the header `content-encoding` is missing, empty or
-- `identity`; `chunks` are the sizes of the body's pieces; `conforms` is the answer of the JSON
-- schema validator, and `payload` the decoded body where it has the shape of a snapshot.
pub record Response : Type 0 where
  pub status_code : ℕ
  pub identity_encoded : Bool
  pub content_length : DeclaredLength
  pub is_stream_consumed : Bool
  pub chunks : List ℕ
  pub conforms : Bool
  pub payload : Option Snapshot

-- What the HTTP client delivered. `refused_payload` is a `ValueError`, `TypeError` or
-- `RecursionError` of the decoder.
pub data Delivery : Type 0 where
  timed_out transport_error refused_payload : Delivery
  responded : Response → Delivery

pub record Registry : Type 0 where
  pub records : Dict NodeRecord
  pub errors : Dict (Option PollError)
  pub retired_instance_ids : Dict (List String)

abbrev pub or_empty : Option (List String) → List String
or_empty none = []
or_empty (some ids) = ids

-- `self._retired_instance_ids[node_id]`; the constructor has an entry for every node.
unfoldable pub retired : String → Registry → List String
retired node_id r = or_empty (get node_id r.retired_instance_ids)

unfoldable pub refuse : String → PollError → Registry → Registry × Bool
refuse node_id e r = (record r { errors = put node_id (some e) r.errors }, false)

unfoldable pub length_error : DeclaredLength → Option PollError
length_error undeclared = none
length_error unreadable = some invalid_snapshot
length_error negative = some invalid_snapshot
length_error (declared n) = if ltb max_snapshot_bytes n then some snapshot_too_large else none

-- The body grows chunk by chunk, and reading stops at the first chunk that passes the limit.
unfoldable pub exceeds : ℕ → List ℕ → Bool
exceeds read [] = false
exceeds read (n ∷ ns) = ltb max_snapshot_bytes (read + n) || exceeds (read + n) ns

unfoldable pub total_size : List ℕ → ℕ
total_size [] = 0
total_size (n ∷ ns) = n + total_size ns

unfoldable pub body_too_large : Response → Bool
unfolding exceeds total_size
body_too_large r =
    if r.is_stream_consumed
    then ltb max_snapshot_bytes (total_size r.chunks)
    else exceeds 0 r.chunks

unfoldable pub response_error : Response → Option PollError
unfolding length_error body_too_large
response_error r =
    if not (r.status_code == 200)
    then some (http r.status_code)
    else if not r.identity_encoded
    then some snapshot_encoding_unsupported
    else (elim (length_error r.content_length) [
      | some e ↦ some e
      | none ↦ (if body_too_large r then some snapshot_too_large else none)
    ])

-- `self._records[…] = NodeRecord(…)`, `self._errors[…] = None`.
unfoldable pub store : NodeConfig → Snapshot → (started now wall : ℕ) → Registry → Registry × Bool
store node s started now wall r = (
  record r {
    records =
        put node.node_id
          (record {
            enrollment = node;
            snapshot = s;
            received_at = wall;
            received_monotonic = now;
            poll_started_monotonic = started;
          })
          r.records;
    errors = put node.node_id none r.errors;
  },
  true,
)

unfoldable pub retire : String → String → Registry → Registry
unfolding retired
retire node_id instance_id r = record r {
  retired_instance_ids = put node_id (add instance_id (retired node_id r)) r.retired_instance_ids;
}

-- The fence against a replayed sequence and the retirement of the prior instance, by the prior
-- record of the node.
unfoldable pub advance :
    NodeConfig → Snapshot → (started now wall : ℕ) → Option NodeRecord → Registry → Registry × Bool
advance node s started now wall none r = store node s started now wall r
advance node s started now wall (some p) r =
    if str_eq p.snapshot.node.instance_id s.node.instance_id
    then (if leb s.snapshot_sequence p.snapshot.snapshot_sequence
        then refuse node.node_id snapshot_sequence_replayed r
        else store node s started now wall r)
    else if leb max_retired_instance_ids (length (retired node.node_id r))
    then refuse node.node_id snapshot_instance_churn_exhausted r
    else store node s started now wall (retire node.node_id p.snapshot.node.instance_id r)

-- What follows `validate_snapshot`: the fence against a retired instance comes first.
unfoldable pub accept : NodeConfig → Snapshot → (started now wall : ℕ) → Registry → Registry × Bool
accept node s started now wall r =
    if has s.node.instance_id (retired node.node_id r)
    then refuse node.node_id snapshot_instance_replayed r
    else advance node s started now wall (get node.node_id r.records) r

module _ (canonical_digest : DeploymentIdentity → String) where
  unfoldable pub receive_valid :
      NodeConfig → (started now wall : ℕ) → Option Snapshot → Registry → Registry × Bool
  receive_valid node started now wall none r = refuse node.node_id invalid_snapshot r
  receive_valid node started now wall (some s) r = accept node s started now wall r

  unfoldable pub receive :
      NodeConfig → (started now wall : ℕ) → Response → Option PollError → Registry → Registry × Bool
  receive node started now wall response (some e) r = refuse node.node_id e r
  receive node started now wall response none r =
      receive_valid node started now wall
        (validate_snapshot canonical_digest response.conforms response.payload node.node_id) r

  -- One poll: the registry behind it, and whether a snapshot was accepted.
  unfoldable pub poll_once :
      NodeConfig → (started now wall : ℕ) → Delivery → Registry → Registry × Bool
  poll_once node started now wall timed_out r = refuse node.node_id poll_timeout r
  poll_once node started now wall transport_error r = refuse node.node_id poll_transport_error r
  poll_once node started now wall refused_payload r = refuse node.node_id invalid_snapshot r
  poll_once node started now wall (responded response) r =
      receive node started now wall response (response_error response) r

-- `now - received_monotonic <= ttl`; the clock does not run backwards.
unfoldable pub is_live : (now ttl : ℕ) → NodeRecord → Bool
is_live now ttl p = leb now (p.received_monotonic + ttl)

unfoldable pub live_of : (now ttl : ℕ) → Dict NodeRecord → List NodeRecord
unfolding is_live
live_of now ttl [] = []
live_of now ttl ((k, p) ∷ ps) =
    let rest = live_of now ttl ps in if is_live now ttl p then p ∷ rest else rest

unfoldable pub live_records : (now ttl : ℕ) → Registry → List NodeRecord
unfolding live_of
live_records now ttl r = live_of now ttl r.records

unfoldable pub initial_errors : List NodeConfig → Dict (Option PollError)
initial_errors [] = []
initial_errors (n ∷ ns) = put n.node_id (some not_polled) (initial_errors ns)

unfoldable pub initial_retired : List NodeConfig → Dict (List String)
initial_retired [] = []
initial_retired (n ∷ ns) = put n.node_id [] (initial_retired ns)

-- `__init__`
unfoldable pub new : List NodeConfig → Registry
unfolding initial_errors initial_retired
new nodes = record {
  records = [];
  errors = initial_errors nodes;
  retired_instance_ids = initial_retired nodes;
}
