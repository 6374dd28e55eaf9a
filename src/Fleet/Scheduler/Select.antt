-- ===== src/Fleet/Scheduler/Select.antt =====
-- fleet/src/mnemosyne_fleet/scheduler.py: `_select` and what it calls.
use mnemosyne_inference.Prelude.{
  ℕ, ◌+◌, ◌-◌, ◌*◌, String, Bool, true, ◌&&◌, ◌||◌, not, Option, none, some, List, [], ◌∷◌, ltb,
  leb, ◌==◌, str_eq, opt_str_eq, is_none, all_of, min, max, if◌then◌else◌,
}
use mnemosyne_inference.Prelude.Dict.{Dict, get, has}
use mnemosyne_inference.Prelude.Text.{codes, codes_lt}
use mnemosyne_inference.Fleet.Config.{NodeConfig, ModelConfig}
use mnemosyne_inference.Fleet.Protocol.Types.{Deployment, Snapshot, Health}
use mnemosyne_inference.Fleet.Protocol.Fields.{is_authoritative}
use mnemosyne_inference.Fleet.Protocol.Validate.{is_closed_state}
use mnemosyne_inference.Fleet.Registry.{NodeRecord}
use mnemosyne_inference.Fleet.Scheduler.Types.{Candidate, Reservation, Scheduler, last_selected_of}

-- The snapshot of a record whose poll started at `started` cannot have seen the reservation.
unfoldable pub is_pending : ℕ → Option ℕ → Bool
is_pending started none = true
is_pending started (some admitted) = leb started admitted

unfoldable pub is_unaccounted : NodeRecord → Reservation → Bool
unfolding is_pending
is_unaccounted p r =
    str_eq r.node_id p.enrollment.node_id
    && str_eq r.instance_id p.snapshot.node.instance_id
    && is_pending p.poll_started_monotonic r.admitted_at

unfoldable pub count_unaccounted : NodeRecord → Dict Reservation → ℕ
count_unaccounted p [] = 0
count_unaccounted p ((k, r) ∷ rs) = (if is_unaccounted p r then 1 else 0) + count_unaccounted p rs

-- set(a) == set(b)
unfoldable pub same_set : List String → List String → Bool
same_set a b = all_of (λ x. has x b) a && all_of (λ x. has x a) b

unfoldable pub is_strict : ModelConfig → Deployment → Bool
unfolding same_set
is_strict m d =
    str_eq d.deployment_id m.deployment_id && same_set d.identity.capabilities m.capabilities

unfoldable pub is_routable : String → Deployment → Bool
is_routable capability d =
    is_authoritative d.identity_confidence
    && d.fleet_eligible
    && has capability d.identity.capabilities
    && d.loadable

unfoldable pub candidate_deployment : ModelConfig → String → List Deployment → Option Deployment
candidate_deployment m capability [] = none
candidate_deployment m capability (d ∷ ds) =
    let rest = candidate_deployment m capability ds in
    if is_strict m d && is_routable capability d then some d else rest

unfoldable pub is_schedulable : Health → Bool
is_schedulable h = h.accepting && h.authoritative && not (is_closed_state h.state)

abbrev pub is_resident : ModelConfig → Snapshot → Bool
is_resident m s = opt_str_eq s.residency.deployment_id (some m.deployment_id)

-- The permits that a snapshot advertises for the model, less the reservations that it has not seen.
unfoldable pub advertised : ModelConfig → Snapshot → Deployment → ℕ
advertised m s d = if is_resident m s then s.capacity.available else d.capacity.available

abbrev pub queue_room : Snapshot → ℕ → ℕ
queue_room s local = s.admission.queue_limit - s.admission.queue_depth - local

-- `none` is the `continue` of the last branch.
unfoldable pub tier_of : (resident empty : Bool) → (available room limit : ℕ) → Option ℕ
tier_of resident empty available room limit =
    if resident && ltb 0 available
    then some 1
    else if resident && ltb 0 room
    then some 2
    else if empty && ltb 0 room && ltb 0 limit
    then some 3
    else if ltb 0 room && ltb 0 limit
    then some 4
    else none

abbrev pub configured_weight : Option NodeConfig → Option ℕ
configured_weight none = none
configured_weight (some n) = n.routing_weight

-- `max(weight, 1e-9)`
unfoldable pub weight_of : Option ℕ → ℕ → ℕ
weight_of none limit = max (limit * 1_000_000_000) 1
weight_of (some w) limit = max (min (limit * 1_000_000_000) w) 1

unfoldable pub candidate :
    Scheduler → NodeRecord → Deployment → (local : ℕ) → Option ℕ → Option Candidate
candidate s p d local none = none
candidate s p d local (some tier) = some (record {
  node = p;
  deployment = d;
  tier = tier;
  outstanding = p.snapshot.capacity.active + p.snapshot.admission.queue_depth + local;
  weight =
      weight_of (configured_weight (get p.enrollment.node_id s.nodes)) d.capacity.effective_limit;
})

abbrev pub tier_at : ModelConfig → NodeRecord → Deployment → ℕ → Option ℕ
tier_at m p d local =
    tier_of (is_resident m p.snapshot) (is_none p.snapshot.residency.deployment_id)
      (advertised m p.snapshot d - local) (queue_room p.snapshot local) d.capacity.effective_limit

unfoldable pub consider_deployment :
    Scheduler → ModelConfig → NodeRecord → Option Deployment → Option Candidate
consider_deployment s m p none = none
consider_deployment s m p (some d) =
    let local = count_unaccounted p s.reservations in candidate s p d local (tier_at m p d local)

-- The loop's body for one live record.
unfoldable pub consider :
    Scheduler → ModelConfig → String → List String → NodeRecord → Option Candidate
consider s m capability excluded p =
    if has p.enrollment.node_id excluded || not (is_schedulable p.snapshot.health)
    then none
    else consider_deployment s m p (candidate_deployment m capability p.snapshot.deployments)

abbrev pub prepend : Option Candidate → List Candidate → List Candidate
prepend none cs = cs
prepend (some c) cs = c ∷ cs

unfoldable pub candidates :
    Scheduler → ModelConfig → String → List String → List NodeRecord → List Candidate
candidates s m capability excluded [] = []
candidates s m capability excluded (p ∷ ps) =
    prepend (consider s m capability excluded p) (candidates s m capability excluded ps)

-- The order of the keys (tier, load_score, last selection, node id): `a` comes before `b`.
unfoldable pub before : Scheduler → Candidate → Candidate → Bool
before s a b =
    let load_a = a.outstanding * b.weight in
    let load_b = b.outstanding * a.weight in
    let last_a = last_selected_of a.node.enrollment.node_id s in
    let last_b = last_selected_of b.node.enrollment.node_id s in
    ltb a.tier b.tier
    || (a.tier == b.tier
        && (ltb load_a load_b
            || (load_a == load_b
                && (ltb last_a last_b
                    || (last_a == last_b
                        && codes_lt (codes a.node.enrollment.node_id)
                            (codes b.node.enrollment.node_id))))))

-- `min(candidates, key=…)`
unfoldable pub least : Scheduler → Candidate → List Candidate → Candidate
least s best [] = best
least s best (c ∷ cs) = least s (if before s c best then c else best) cs

unfoldable pub least_of : Scheduler → List Candidate → Option Candidate
least_of s [] = none
least_of s (c ∷ cs) = some (least s c cs)

unfoldable pub select :
    Scheduler → ModelConfig → String → List String → List NodeRecord → Option Candidate
select s m capability excluded live = least_of s (candidates s m capability excluded live)
