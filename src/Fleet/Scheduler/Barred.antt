-- ===== src/Fleet/Scheduler/Barred.antt =====
-- fleet/src/mnemosyne_fleet/scheduler.py: why `_select` chooses no node.
use mnemosyne_inference.Prelude.{
  ℕ, ◌+◌, ◌-◌, ◌≤◌, String, ◌≡◌, refl, Bool, true, false, ◌&&◌, Option, none, some, List, [], ◌∷◌,
  ◌⊎◌, inl, inr, arith, eq_iff, All, Bool-cases, leb, if◌then◌else◌,
}
use mnemosyne_inference.Prelude.Dict.{has}
use mnemosyne_inference.Prelude.Distinct.{In}
use mnemosyne_inference.Fleet.Config.{ModelConfig}
use mnemosyne_inference.Fleet.Protocol.Types.{Deployment, Snapshot, Health}
use mnemosyne_inference.Fleet.Protocol.Validate.{is_closed_state}
use mnemosyne_inference.Fleet.Registry.{NodeRecord}
use mnemosyne_inference.Fleet.Scheduler.Types.{Candidate, Scheduler}
use mnemosyne_inference.Fleet.Scheduler.Select.{
  count_unaccounted, is_strict, is_routable, is_resident, candidate_deployment, is_schedulable,
  advertised, tier_of, tier_at, candidate, consider_deployment, consider, prepend, candidates,
  least_of, select,
}
use mnemosyne_inference.Fleet.Scheduler.Selection.{IsServing, candidate_deployment_sound}

-- The node has no permit for the resident model, and no room in its queue, or no permits at all for
-- a model that it would have to load.
abbrev pub IsFull : ModelConfig → Snapshot → Deployment → (unseen : ℕ) → Type 0
IsFull m s d unseen =
    ((is_resident m s ≡ false) ⊎ (s.capacity.available ≤ unseen))
    × ((s.admission.queue_limit ≤ s.admission.queue_depth + unseen)
        ⊎ ((is_resident m s ≡ false) × (d.capacity.effective_limit ≡ 0)))

-- The node does not accept requests.
abbrev pub IsShut : Health → Type 0
IsShut h = (h.accepting ≡ false) ⊎ ((h.authoritative ≡ false) ⊎ (is_closed_state h.state ≡ true))

-- Why a live node cannot serve the model.
abbrev pub IsBarred : Scheduler → ModelConfig → String → List String → NodeRecord → Type 0
IsBarred s m capability excluded p =
    (has p.enrollment.node_id excluded ≡ true)
    ⊎ (IsShut p.snapshot.health
        ⊎ (All (λ d. ¬ IsServing m capability d) p.snapshot.deployments
            ⊎ ((d : Deployment) × In d p.snapshot.deployments
                × IsServing m capability d
                × IsFull m p.snapshot d (count_unaccounted p s.reservations))))

IsServing-fits :
    (m : ModelConfig) (capability : String) (d : Deployment)
    → IsServing m capability d
    → is_strict m d && is_routable capability d ≡ true
unfolding is_strict is_routable
IsServing-fits m capability d h =
    let same = (eq_iff d.deployment_id m.deployment_id).1 h.same_id in
    simp (same, h.same_capabilities, h.authoritative, h.eligible, h.capable, h.loadable) refl

none_serves :
    (m : ModelConfig) (capability : String) (ds : List Deployment)
    → candidate_deployment m capability ds ≡ none
    → All (λ d. ¬ IsServing m capability d) ds
unfolding candidate_deployment
none_serves m capability [] h = tt
none_serves m capability (d ∷ ds) h =
    elim (Bool-cases (is_strict m d && is_routable capability d)) [
      | inl fits ↦ cc (rw fits at h)
      | inr other ↦ (
        λ serving. let fits = IsServing-fits m capability d serving in cc,
        none_serves m capability ds (rw other at h),
      )
    ]

no_room :
    (resident empty : Bool) (free local queue_limit depth unseen limit : ℕ)
    → tier_of resident empty
        ((if resident then free else local) - unseen)
        (queue_limit - depth - unseen)
        limit
      ≡ none
    → ((resident ≡ false) ⊎ (free ≤ unseen))
      × ((queue_limit ≤ depth + unseen) ⊎ ((resident ≡ false) × (limit ≡ 0)))
unfolding tier_of
no_room true empty free local queue_limit depth unseen limit h =
    (inr (ground arith), inl (ground arith))
no_room false empty free local queue_limit depth unseen limit h = (
  inl refl,
  elim (Bool-cases (leb queue_limit (depth + unseen))) [
    | inl none_left ↦ inl (ground arith)
    | inr room ↦ inr (refl, ground arith)
  ],
)

full :
    (m : ModelConfig) (p : NodeRecord) (d : Deployment) (unseen : ℕ)
    → tier_at m p d unseen ≡ none
    → IsFull m p.snapshot d unseen
unfolding advertised
full m p d unseen h = no_room _ _ _ _ _ _ _ _ h

shut : (h : Health) → is_schedulable h ≡ false → IsShut h
unfolding is_schedulable
shut h closed = ground arith

no_tier :
    (s : Scheduler) (p : NodeRecord) (d : Deployment) (unseen : ℕ) (o : Option ℕ)
    → candidate s p d unseen o ≡ none
    → o ≡ none
unfolding candidate
no_tier s p d unseen none h = refl
no_tier s p d unseen (some t) h = cc

consider_deployment-IsBarred :
    (s : Scheduler) (m : ModelConfig) (capability : String) (excluded : List String)
    (p : NodeRecord) (o : Option Deployment)
    → candidate_deployment m capability p.snapshot.deployments ≡ o
    → consider_deployment s m p o ≡ none
    → IsBarred s m capability excluded p
unfolding consider_deployment
consider_deployment-IsBarred s m capability excluded p none e h =
    inr (inr (inl (none_serves m capability p.snapshot.deployments e)))
consider_deployment-IsBarred s m capability excluded p (some d) e h =
    let unseen = count_unaccounted p s.reservations in
    let (serving, there) = candidate_deployment_sound m capability p.snapshot.deployments d e in
    inr (inr (inr (d, there, serving, full m p d unseen (no_tier s p d unseen _ h))))

consider-IsBarred :
    (s : Scheduler) (m : ModelConfig) (capability : String) (excluded : List String)
    (p : NodeRecord)
    → consider s m capability excluded p ≡ none
    → IsBarred s m capability excluded p
unfolding consider
consider-IsBarred s m capability excluded p h =
    elim (Bool-cases (has p.enrollment.node_id excluded)) [
      | inl out ↦ inl out
      | inr there ↦ elim (Bool-cases (is_schedulable p.snapshot.health)) [
        | inl opened ↦
            consider_deployment-IsBarred s m capability excluded p _ refl (rw (there, opened) at h)
        | inr closed ↦ inr (inl (shut p.snapshot.health closed))
      ]
    ]

-- If _select returns nothing, then each live node is excluded, or does not accept requests with
-- authority or is degraded or stopping, or advertises no loadable, eligible, authoritative
-- deployment that matches the model strictly and has the capability, or advertises one and is
-- full: first, the model is not resident, or the reservations that the snapshot has not seen take
-- all its free permits; and second, with these reservations the queue of the node is full, or the
-- model is not resident and its effective_limit is zero.
pub select_complete :
    (s : Scheduler) (m : ModelConfig) (capability : String) (excluded : List String)
    (live : List NodeRecord)
    → select s m capability excluded live ≡ none
    → All (IsBarred s m capability excluded) live
unfolding select
select_complete s m capability excluded [] h = tt
select_complete s m capability excluded (p ∷ ps) h =
    none_of (consider s m capability excluded p) refl (unfold candidates in h)
      (select_complete s m capability excluded ps)
  where
    none_of :
        (o : Option Candidate)
        → consider s m capability excluded p ≡ o
        → least_of s (prepend o (candidates s m capability excluded ps)) ≡ none
        → (least_of s (candidates s m capability excluded ps) ≡ none
            → All (IsBarred s m capability excluded) ps)
        → All (IsBarred s m capability excluded) (p ∷ ps)
    none_of none e k ih = (consider-IsBarred s m capability excluded p e, ih k)
    none_of (some x) e k ih = absurd (unfold least_of in cc)
