-- ===== src/Fleet/Scheduler/Selection.antt =====
-- fleet/src/mnemosyne_fleet/scheduler.py: which node `_select` chooses.
use mnemosyne_inference.Prelude.{
  ℕ, ◌≤◌, String, ◌≡◌, refl, sym, ap, ◌∙◌, Bool, true, false, ◌&&◌, ◌||◌, not, Option, none, some,
  List, [], ◌∷◌, ◌⊎◌, inl, inr, arith, eq_iff, All, Bool-cases, if◌then◌else◌,
}
use mathlib.Core.Path.{subst}
use native.Mathlib.Nat.{le_refl, le_trans}
use mnemosyne_inference.Prelude.Dict.{has}
use mnemosyne_inference.Prelude.Distinct.{In}
use mnemosyne_inference.Fleet.Config.{ModelConfig}
use mnemosyne_inference.Fleet.Protocol.Types.{Deployment}
use mnemosyne_inference.Fleet.Protocol.Fields.{is_authoritative}
use mnemosyne_inference.Fleet.Protocol.Validate.{is_closed_state}
use mnemosyne_inference.Fleet.Registry.{NodeRecord}
use mnemosyne_inference.Fleet.Scheduler.Types.{Candidate, Scheduler}
use mnemosyne_inference.Fleet.Scheduler.Select.{
  count_unaccounted, same_set, is_strict, is_routable, candidate_deployment, is_schedulable,
  tier_at, candidate, consider_deployment, consider, prepend, candidates, before, least, least_of,
  select,
}

-- A deployment that serves the model strictly and may be routed to.
pub record IsServing (m : ModelConfig) (capability : String) (d : Deployment) : Type 0 where
  pub same_id : d.deployment_id ≡ m.deployment_id
  pub same_capabilities : same_set d.identity.capabilities m.capabilities ≡ true
  pub authoritative : is_authoritative d.identity_confidence ≡ true
  pub eligible : d.fleet_eligible ≡ true
  pub capable : has capability d.identity.capabilities ≡ true
  pub loadable : d.loadable ≡ true

-- What a candidate of `_select` is.
pub record IsEligible (s : Scheduler) (m : ModelConfig) (capability : String)
    (excluded : List String) (c : Candidate) : Type 0 where
  pub not_excluded : has c.node.enrollment.node_id excluded ≡ false
  pub accepting : c.node.snapshot.health.accepting ≡ true
  pub authoritative : c.node.snapshot.health.authoritative ≡ true
  pub opened : is_closed_state c.node.snapshot.health.state ≡ false
  pub serving : IsServing m capability c.deployment
  pub advertised : In c.deployment c.node.snapshot.deployments
  pub tiered : tier_at m c.node c.deployment (count_unaccounted c.node s.reservations) ≡ some c.tier

IsServing-of :
    (m : ModelConfig) (capability : String) (d : Deployment)
    → is_strict m d && is_routable capability d ≡ true
    → IsServing m capability d
unfolding is_strict is_routable
IsServing-of m capability d h = record {
  same_id = (eq_iff d.deployment_id m.deployment_id).0 (ground arith);
  same_capabilities = ground arith;
  authoritative = ground arith;
  eligible = ground arith;
  capable = ground arith;
  loadable = ground arith;
}

pub candidate_deployment_sound :
    (m : ModelConfig) (capability : String) (ds : List Deployment) (d : Deployment)
    → candidate_deployment m capability ds ≡ some d
    → IsServing m capability d × In d ds
unfolding candidate_deployment
candidate_deployment_sound m capability [] d h = cc
candidate_deployment_sound m capability (x ∷ ds) d h =
    elim (Bool-cases (is_strict m x && is_routable capability x)) [
      | inl fits ↦
          let e : x ≡ d = some_eq x d (rw fits at h) in
          (subst (IsServing m capability) e (IsServing-of m capability x fits), inl e)
      | inr other ↦
          let (serving, there) = candidate_deployment_sound m capability ds d (rw other at h) in
          (serving, inr there)
    ]
  where
    some_eq : (x y : Deployment) → some x ≡ some y → x ≡ y
    some_eq x y h = cc

candidate_facts :
    (s : Scheduler) (p : NodeRecord) (d : Deployment) (local : ℕ) (o : Option ℕ) (c : Candidate)
    → candidate s p d local o ≡ some c
    → (c.node ≡ p) × (c.deployment ≡ d) × (o ≡ some c.tier)
unfolding candidate
candidate_facts s p d local none c h = cc
candidate_facts s p d local (some t) c h = (cc, cc, cc)

consider_deployment_facts :
    (s : Scheduler) (m : ModelConfig) (p : NodeRecord) (o : Option Deployment) (c : Candidate)
    → consider_deployment s m p o ≡ some c
    → (c.node ≡ p)
      × (o ≡ some c.deployment)
      × (tier_at m c.node c.deployment (count_unaccounted c.node s.reservations) ≡ some c.tier)
unfolding consider_deployment
consider_deployment_facts s m p none c h = cc
consider_deployment_facts s m p (some d) c h =
    let local = count_unaccounted p s.reservations in
    let (e, f, t) = candidate_facts s p d local (tier_at m p d local) c h in
    (
      e,
      ap some (sym f),
      subst (λ q. tier_at m q c.deployment (count_unaccounted q s.reservations) ≡ some c.tier)
          (sym e) (subst (λ x. tier_at m p x local ≡ some c.tier) (sym f) t),
    )

consider_sound :
    (s : Scheduler) (m : ModelConfig) (capability : String) (excluded : List String)
    (p : NodeRecord) (c : Candidate)
    → consider s m capability excluded p ≡ some c
    → (c.node ≡ p) × IsEligible s m capability excluded c
unfolding consider
consider_sound s m capability excluded p c h =
    elim (Bool-cases
      (has p.enrollment.node_id excluded || not (is_schedulable p.snapshot.health))) [
        | inl skip ↦ cc (rw skip at h)
        | inr go ↦
            let (e, f, t) =
              consider_deployment_facts s m p
                (candidate_deployment m capability p.snapshot.deployments) c (rw go at h) in
            let (serving, there) =
              candidate_deployment_sound m capability p.snapshot.deployments c.deployment f in
            (
              e,
              record {
                not_excluded = rw e (ground arith);
                accepting = rw e (unfold is_schedulable in ground arith);
                authoritative = rw e (unfold is_schedulable in ground arith);
                opened = rw e (unfold is_schedulable in ground arith);
                serving = serving;
                advertised = subst (λ q. In c.deployment q.snapshot.deployments) (sym e) there;
                tiered = t;
              },
            )
      ]

candidates_sound :
    (s : Scheduler) (m : ModelConfig) (capability : String) (excluded : List String)
    (ps : List NodeRecord) (c : Candidate)
    → In c (candidates s m capability excluded ps)
    → In c.node ps × IsEligible s m capability excluded c
unfolding candidates
candidates_sound s m capability excluded [] c h = elim h [ ]
candidates_sound s m capability excluded (p ∷ ps) c h =
    split (consider s m capability excluded p) refl h
      (candidates_sound s m capability excluded ps c)
  where
    found :
        (x : Candidate)
        → consider s m capability excluded p ≡ some x
        → x ≡ c
        → In c.node (p ∷ ps) × IsEligible s m capability excluded c
    found x e same =
        let (here, ok) = consider_sound s m capability excluded p c (e ∙ ap some same) in
        (inl (sym here), ok)

    split :
        (o : Option Candidate)
        → consider s m capability excluded p ≡ o
        → In c (prepend o (candidates s m capability excluded ps))
        → (In c (candidates s m capability excluded ps)
            → In c.node ps × IsEligible s m capability excluded c)
        → In c.node (p ∷ ps) × IsEligible s m capability excluded c
    split none e k ih = let r = ih k in (inr r.0, r.1)
    split (some x) e (inl same) ih = found x e same
    split (some x) e (inr k) ih = let r = ih k in (inr r.0, r.1)

before_tier : (s : Scheduler) (a b : Candidate) → before s a b ≡ true → a.tier ≤ b.tier
unfolding before
before_tier s a b h = ground arith

not_before_tier : (s : Scheduler) (a b : Candidate) → before s a b ≡ false → b.tier ≤ a.tier
unfolding before
not_before_tier s a b h = ground arith

-- The candidate `x` is `best` or one of the list, and none of these has a smaller tier.
abbrev IsLeast : Candidate → List Candidate → Candidate → Type 0
IsLeast best cs x = ((x ≡ best) ⊎ In x cs) × (x.tier ≤ best.tier) × All (λ c. x.tier ≤ c.tier) cs

least-IsLeast :
    (s : Scheduler) (best : Candidate) (cs : List Candidate) → IsLeast best cs (least s best cs)
unfolding least
least-IsLeast s best [] = (inl refl, le_refl _, tt)
least-IsLeast s best (c ∷ cs) =
    step (before s c best) refl (least-IsLeast s c cs) (least-IsLeast s best cs)
  where
    step :
        (b : Bool)
        → before s c best ≡ b
        → IsLeast c cs (least s c cs)
        → IsLeast best cs (least s best cs)
        → IsLeast best (c ∷ cs) (least s (if b then c else best) cs)
    step true e (inl from, low, all) _ =
        (inr (inl (sym from)), le_trans low (before_tier s c best e), (low, all))
    step true e (inr from, low, all) _ =
        (inr (inr from), le_trans low (before_tier s c best e), (low, all))
    step false e _ (inl from, low, all) =
        (inl from, low, (le_trans low (not_before_tier s c best e), all))
    step false e _ (inr from, low, all) =
        (inr (inr from), low, (le_trans low (not_before_tier s c best e), all))

least_of_facts :
    (s : Scheduler) (cs : List Candidate) (c : Candidate)
    → least_of s cs ≡ some c
    → In c cs × All (λ d. c.tier ≤ d.tier) cs
unfolding least_of
least_of_facts s [] c h = cc
least_of_facts s (x ∷ cs) c h =
    let e : least s x cs ≡ c = cc in
    subst (λ y. In y (x ∷ cs) × All (λ d. y.tier ≤ d.tier) (x ∷ cs)) e
      (let (from, low, all) = least-IsLeast s x cs in (among from, (low, all)))
  where
    among : (least s x cs ≡ x) ⊎ In (least s x cs) cs → In (least s x cs) (x ∷ cs)
    among (inl e) = inl (sym e)
    among (inr k) = inr k

-- The node that _select returns is live and not excluded, accepts requests with authority, is
-- neither degraded nor stopping, and advertises a loadable, eligible, authoritative deployment
-- that matches the model strictly and has the capability; and no candidate has a smaller tier.
pub select_sound :
    (s : Scheduler) (m : ModelConfig) (capability : String) (excluded : List String)
    (live : List NodeRecord) (c : Candidate)
    → select s m capability excluded live ≡ some c
    → In c.node live
      × IsEligible s m capability excluded c
      × All (λ d. c.tier ≤ d.tier) (candidates s m capability excluded live)
unfolding select
select_sound s m capability excluded live c h =
    let (there, low) = least_of_facts s (candidates s m capability excluded live) c h in
    let (here, ok) = candidates_sound s m capability excluded live c there in (here, ok, low)
