-- ===== src/Fleet/Protocol/Validate.antt =====
-- fleet/src/mnemosyne_fleet/protocol.py: `Snapshot.validate_admission_capacity` and
-- `validate_snapshot`, one function for each group of the validator's conditions.
use mnemosyne_inference.Prelude.{
  ℕ, ◌-◌, String, Bool, true, false, ◌&&◌, not, Option, none, some, List, [], ◌∷◌, map, leb, ◌==◌,
  str_eq, opt_str_eq, is_none, is_nil, length, any_of, all_of, if◌then◌else◌,
}
use mnemosyne_inference.Prelude.Dict.{Dict, get, has, distinct}
use mnemosyne_inference.Fleet.Protocol.Types.{
  HealthState, idle, draining, unloading, loading, verifying, ready, degraded, stopping, state_eq,
  DeploymentIdentity, Deployment, Snapshot,
}
use mnemosyne_inference.Fleet.Protocol.Fields.{
  accepts_node, accepts_health, accepts_residency, accepts_capacity, accepts_admission,
  accepts_deployment, accepts_usage_delivery,
}

abbrev pub is_moving : HealthState → Bool
is_moving draining = true
is_moving unloading = true
is_moving loading = true
is_moving verifying = true
is_moving _ = false

abbrev pub is_closed_state : HealthState → Bool
is_closed_state degraded = true
is_closed_state stopping = true
is_closed_state _ = false

abbrev pub or_zero : Option ℕ → ℕ
or_zero none = 0
or_zero (some n) = n

abbrev pub keys : Dict ℕ → List String
keys m = map (λ e. e.0) m

abbrev pub warm_deployments : List Deployment → List Deployment
warm_deployments [] = []
warm_deployments (d ∷ ds) = if d.warm then d ∷ warm_deployments ds else warm_deployments ds

abbrev pub with_id : String → List Deployment → List Deployment
with_id i [] = []
with_id i (d ∷ ds) = if str_eq d.deployment_id i then d ∷ with_id i ds else with_id i ds

abbrev pub ids : List Deployment → List String
ids ds = map (λ d. d.deployment_id) ds

abbrev pub aliases : List Deployment → List String
aliases ds = map (λ d. d.alias) ds

unfoldable pub queues_match : Snapshot → Bool
queues_match s =
    s.capacity.queued == s.admission.queue_depth
    && length (aliases s.deployments) == length (distinct (aliases s.deployments))
    && all_of (λ k. has k (ids s.deployments)) (keys s.admission.queued_by_deployment)
    && all_of
        (λ d. d.capacity.queued == or_zero (get d.deployment_id s.admission.queued_by_deployment))
        s.deployments

-- The branch of a resident deployment `r` of alias `a` and engine `e`.
unfoldable pub resident_matches : String → String → String → List Deployment → Bool
resident_matches r a e warm =
    not (is_nil (with_id r warm))
    && has a (aliases (with_id r warm))
    && not (any_of (λ d. not (str_eq d.identity.engine e)) (with_id r warm))

-- By the residency's `deployment_id`, `alias` and `engine`.
unfoldable pub residency_matches :
    Option String → Option String → Option String → List Deployment → Bool
residency_matches none a e warm = is_none a && is_none e && is_nil warm
residency_matches (some i) (some a) (some e) warm = resident_matches i a e warm
residency_matches (some i) _ _ warm = false

unfoldable pub warmth_matches : Snapshot → Bool
warmth_matches s =
    leb (length (distinct (ids (warm_deployments s.deployments)))) 1
    && residency_matches s.residency.deployment_id s.residency.alias s.residency.engine
        (warm_deployments s.deployments)

unfoldable pub target_matches : Snapshot → Bool
target_matches s = elim s.residency.transition_target [
  | none ↦ true
  | some t ↦ has t (ids s.deployments) && is_moving s.health.state && s.capacity.available == 0
]

unfoldable pub health_matches : Snapshot → Bool
health_matches s =
    not (state_eq s.health.state idle && not (is_none s.residency.deployment_id))
    && not (state_eq s.health.state ready && is_none s.residency.deployment_id)
    && not (s.health.accepting && not s.health.authoritative)
    && not (is_closed_state s.health.state && s.health.accepting)

unfoldable pub queues_other : Snapshot → Bool
queues_other s =
    any_of (λ k. not (opt_str_eq s.residency.deployment_id (some k)))
      (keys s.admission.queued_by_deployment)

unfoldable pub fully_open : Snapshot → Bool
fully_open s =
    s.health.accepting
    && s.health.authoritative
    && state_eq s.health.state ready
    && is_none s.residency.transition_target
    && not (queues_other s)

unfoldable pub permits_match : Snapshot → Bool
permits_match s =
    not
      (fully_open s && not (s.capacity.available == s.capacity.effective_limit - s.capacity.active))
    && not (not s.health.accepting && not (s.capacity.available == 0))

unfoldable pub validate_admission_capacity : Snapshot → Bool
validate_admission_capacity s =
    queues_match s && warmth_matches s && target_matches s && health_matches s && permits_match s

module _ (canonical_digest : DeploymentIdentity → String) where
  -- `Snapshot.model_validate` on a payload of the right shape.
  unfoldable pub accepts_snapshot : Snapshot → Bool
  accepts_snapshot s =
      s.schema_version == 1
      && accepts_node s.node
      && accepts_health s.health
      && accepts_residency s.residency
      && accepts_admission s.admission
      && accepts_capacity s.capacity
      && leb (length s.deployments) 10_000
      && all_of (accepts_deployment canonical_digest) s.deployments
      && accepts_usage_delivery s.usage_delivery
      && validate_admission_capacity s

  -- `validate_snapshot`: `none` is the `ValueError`. `conforms` is the answer of the JSON schema
  -- validator, and the payload is `none` where it does not have the shape of a snapshot.
  unfoldable pub validate_snapshot : (conforms : Bool) → Option Snapshot → String → Option Snapshot
  validate_snapshot conforms none expected = none
  validate_snapshot conforms (some s) expected =
      if conforms && accepts_snapshot s && str_eq s.node.node_id expected then some s else none
