-- ===== src/Fleet/Protocol/Consistency.antt =====
-- fleet/src/mnemosyne_fleet/protocol.py: what an accepted snapshot says about its node.
use mnemosyne_inference.Prelude.{
  ◌+◌, ◌≤◌, String, ◌≡◌, sym, ap, Bool, true, false, Option, none, some, List, [], ◌∷◌, ◌⊎◌, inl,
  inr, arith, eq_iff, leb, is_none, is_nil, length, All, Bool-cases,
}
use mnemosyne_inference.Prelude.Dict.{has, distinct}
use mnemosyne_inference.Prelude.Distinct.{All-map, distinct_one}
use mnemosyne_inference.Fleet.Protocol.Types.{
  idle, ready, Capacity, Deployment, DeploymentIdentity, Snapshot,
}
use mnemosyne_inference.Fleet.Protocol.Fields.{capacity_is_consistent, accepts_capacity}
use mnemosyne_inference.Fleet.Protocol.Validate.{
  is_moving, is_closed_state, warm_deployments, with_id, ids, warmth_matches, residency_matches,
  resident_matches, target_matches, health_matches, permits_match, validate_admission_capacity,
  accepts_snapshot, validate_snapshot,
}

module _ (canonical_digest : DeploymentIdentity → String) where
  pub validate_snapshot_accepts :
      (conforms : Bool) (payload : Option Snapshot) (expected : String) (s : Snapshot)
      → validate_snapshot canonical_digest conforms payload expected ≡ some s
      → (payload ≡ some s)
        × (conforms ≡ true)
        × (accepts_snapshot canonical_digest s ≡ true)
        × (s.node.node_id ≡ expected)
  unfolding validate_snapshot
  validate_snapshot_accepts conforms none expected s h = cc
  validate_snapshot_accepts conforms (some p) expected s h =
      ground (arith, eq_iff p.node.node_id expected)

  pub accepts_validated :
      (s : Snapshot)
      → accepts_snapshot canonical_digest s ≡ true
      → validate_admission_capacity s ≡ true
  unfolding accepts_snapshot
  accepts_validated s h = ground arith

  pub accepts_root_capacity :
      (s : Snapshot)
      → accepts_snapshot canonical_digest s ≡ true
      → accepts_capacity s.capacity ≡ true
  unfolding accepts_snapshot
  accepts_root_capacity s h = ground arith

-- Permits that an accepted capacity advertises are free.
pub capacity_free :
    (c : Capacity)
    → accepts_capacity c ≡ true
    → (c.available ≡ 0) ⊎ (c.active + c.available ≤ c.effective_limit)
unfolding accepts_capacity capacity_is_consistent
capacity_free c h = ground arith

with_id-has :
    (i : String) (ds : List Deployment) → is_nil (with_id i ds) ≡ false → has i (ids ds) ≡ true
unfolding has
with_id-has i [] h = cc
with_id-has i (d ∷ ds) h = ground (arith, with_id-has i ds)

-- From a fact about the ids of the warm deployments to the deployments.
All-warm :
    (P : String → Type 0) (ds : List Deployment)
    → All P (ids (warm_deployments ds))
    → All (λ d. d.warm ≡ true → P d.deployment_id) ds
All-warm P [] h = tt
All-warm P (d ∷ ds) h = elim (Bool-cases d.warm) [
  | inl w ↦ let k = (simp w at h) in (λ _. k.0, All-warm P ds k.1)
  | inr c ↦ (λ w. absurd (cc), All-warm P ds (simp c at h))
]

resident_warm :
    (i : String) (ds : List Deployment)
    → leb (length (distinct (ids (warm_deployments ds)))) 1 ≡ true
    → is_nil (with_id i (warm_deployments ds)) ≡ false
    → All (λ d. d.warm ≡ true → d.deployment_id ≡ i) ds
resident_warm i ds one some_warm =
    All-warm (λ j. j ≡ i) ds
      (distinct_one i (ids (warm_deployments ds)) (ground arith) (with_id-has i _ some_warm))

no_warm :
    (P : Deployment → Type 0) (ds : List Deployment)
    → is_nil (warm_deployments ds) ≡ true
    → All (λ d. d.warm ≡ true → P d) ds
no_warm P [] h = tt
no_warm P (d ∷ ds) h = elim (Bool-cases d.warm) [
  | inl w ↦ cc (simp w at h)
  | inr c ↦ (λ w. absurd (cc), no_warm P ds (simp c at h))
]

-- Every warm deployment of the list is the one that the residency names.
abbrev pub WarmIsResident : Option String → List Deployment → Type 0
WarmIsResident r ds = All (λ d. d.warm ≡ true → r ≡ some d.deployment_id) ds

matches-WarmIsResident :
    (r a e : Option String) (ds : List Deployment)
    → leb (length (distinct (ids (warm_deployments ds)))) 1 ≡ true
    → residency_matches r a e (warm_deployments ds) ≡ true
    → WarmIsResident r ds
unfolding residency_matches
matches-WarmIsResident none a e ds one m = no_warm _ ds (ground arith)
matches-WarmIsResident (some i) (some a) (some e) ds one m =
    All-map ds (λ d same w. sym (ap some (same w)))
      (resident_warm i ds one (unfold resident_matches in ground arith))
matches-WarmIsResident (some i) none e ds one m = cc
matches-WarmIsResident (some i) (some a) none ds one m = cc

warm-advertised :
    (i : String) (ds : List Deployment)
    → has i (ids (warm_deployments ds)) ≡ true
    → has i (ids ds) ≡ true
unfolding has
warm-advertised i [] h = h
warm-advertised i (d ∷ ds) h = ground (arith, warm-advertised i ds)

matches-advertised :
    (i : String) (r a e : Option String) (ds : List Deployment)
    → residency_matches r a e (warm_deployments ds) ≡ true
    → r ≡ some i
    → has i (ids ds) ≡ true
unfolding residency_matches
matches-advertised i none a e ds m q = cc
matches-advertised i (some j) (some a) (some e) ds m q =
    let j-has = with_id-has j (warm_deployments ds) (unfold resident_matches in ground arith) in
    let same : j ≡ i = cc in rw same at (warm-advertised j ds j-has)
matches-advertised i (some j) none e ds m q = cc
matches-advertised i (some j) (some a) none ds m q = cc

-- What a scheduler may rely on in a snapshot.
pub record IsConsistent (s : Snapshot) : Type 0 where
  pub warm : WarmIsResident s.residency.deployment_id s.deployments
  pub advertised :
      (i : String) → s.residency.deployment_id ≡ some i → has i (ids s.deployments) ≡ true
  pub idle_empty : s.health.state ≡ idle → s.residency.deployment_id ≡ none
  pub ready_full : s.health.state ≡ ready → is_none s.residency.deployment_id ≡ false
  pub opened :
      s.health.accepting ≡ true
      → (s.health.authoritative ≡ true) × (is_closed_state s.health.state ≡ false)
  pub closed : s.health.accepting ≡ false → s.capacity.available ≡ 0
  pub moving :
      is_none s.residency.transition_target ≡ false
      → (is_moving s.health.state ≡ true) × (s.capacity.available ≡ 0)
  pub free :
      (s.capacity.available ≡ 0)
      ⊎ (s.capacity.active + s.capacity.available ≤ s.capacity.effective_limit)

module _ (canonical_digest : DeploymentIdentity → String) where
  accepts-IsConsistent :
      (s : Snapshot) → accepts_snapshot canonical_digest s ≡ true → IsConsistent s
  accepts-IsConsistent s h =
      let valid = accepts_validated canonical_digest s h in
      let warmth : warmth_matches s ≡ true = unfold validate_admission_capacity in ground arith in
      record {
        warm =
            matches-WarmIsResident s.residency.deployment_id s.residency.alias s.residency.engine
              s.deployments (unfold warmth_matches in ground arith)
              (unfold warmth_matches in ground arith);
        advertised = λ i.
            matches-advertised i s.residency.deployment_id s.residency.alias s.residency.engine
              s.deployments (unfold warmth_matches in ground arith);
        idle_empty = λ q. unfold validate_admission_capacity health_matches in ground arith;
        ready_full = λ q. unfold validate_admission_capacity health_matches in ground arith;
        opened = λ q. unfold validate_admission_capacity health_matches in ground arith;
        closed = λ q. unfold validate_admission_capacity permits_match in ground arith;
        moving = λ q. unfold validate_admission_capacity target_matches in ground arith;
        free = capacity_free s.capacity (accepts_root_capacity canonical_digest s h);
      }

  -- A snapshot that validate_snapshot returns is the payload, of the expected node, and
  -- consistent: its warm deployments are the resident one, which is advertised; an idle node has
  -- no resident and a ready one has; an accepting node is authoritative and neither degraded nor
  -- stopping; a node that does not accept or that is switching advertises no free permit; and the
  -- permits that it advertises are free below its limit.
  pub validate_snapshot-IsConsistent :
      (conforms : Bool) (payload : Option Snapshot) (expected : String) (s : Snapshot)
      → validate_snapshot canonical_digest conforms payload expected ≡ some s
      → (payload ≡ some s) × (s.node.node_id ≡ expected) × IsConsistent s
  validate_snapshot-IsConsistent conforms payload expected s h =
      let (same, _, accepted, node) =
        validate_snapshot_accepts canonical_digest conforms payload expected s h in
      (same, node, accepts-IsConsistent s accepted)
