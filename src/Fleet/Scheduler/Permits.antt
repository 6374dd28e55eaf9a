-- ===== src/Fleet/Scheduler/Permits.antt =====
-- fleet/src/mnemosyne_fleet/scheduler.py: the reservations that a node's snapshot has not seen, and the
-- permits that it advertises.
use mnemosyne_inference.Prelude.{
  ℕ, ◌+◌, ◌-◌, ◌≤◌, ◌<◌, String, ◌≡◌, ap, ◌∙◌, Bool, true, none, some, List, [], ◌∷◌, inl, inr,
  arith, eq_iff, str_eq, Bool-cases, if◌then◌else◌,
}
use mnemosyne_inference.Prelude.Dict.{Dict, get, put, get-pop}
use mnemosyne_inference.Fleet.Protocol.Consistency.{IsConsistent}
use mnemosyne_inference.Fleet.Registry.{NodeRecord}
use mnemosyne_inference.Fleet.Scheduler.Types.{Candidate, Reservation, Scheduler}
use mnemosyne_inference.Fleet.Scheduler.Select.{
  is_unaccounted, count_unaccounted, advertised, tier_of, select,
}
use mnemosyne_inference.Fleet.Scheduler.Queue.{Request, reservation_of, reserve, release}
use mnemosyne_inference.Fleet.Scheduler.Selection.{select_sound}

abbrev pub one_if : Bool → ℕ
one_if b = if b then 1 else 0

-- A new reservation counts once.
count-put :
    (p : NodeRecord) (k : String) (r : Reservation) (rs : Dict Reservation)
    → get k rs ≡ none
    → count_unaccounted p (put k r rs) ≡ count_unaccounted p rs + one_if (is_unaccounted p r)
unfolding get put count_unaccounted
count-put p k r [] h = omega arith
count-put p k r ((j, q) ∷ rs) h = elim (Bool-cases (str_eq j k)) [
  | inl same ↦ cc (rw same at h)
  | inr other ↦ rw other (omega (arith, count-put p k r rs (rw other at h)))
]

reservation-is_unaccounted :
    (route_id : String) (c : Candidate) (q : Request) (now : ℕ)
    → is_unaccounted c.node (reservation_of route_id c q now) ≡ true
unfolding is_unaccounted reservation_of
reservation-is_unaccounted route_id c q now = ground (
  arith,
  eq_iff c.node.enrollment.node_id c.node.enrollment.node_id,
  eq_iff c.node.snapshot.node.instance_id c.node.snapshot.node.instance_id,
)

tier_one :
    (resident empty : Bool) (available room limit : ℕ)
    → tier_of resident empty available room limit ≡ some 1
    → (resident ≡ true) × (0 < available)
unfolding tier_of
tier_one resident empty available room limit h = ground arith

-- If _select returns a warm node (tier 1) with a consistent snapshot and the route is fresh, then
-- after the reservation the permits that the snapshot reports in use and all reservations that it
-- has not seen, the new one among them, are at most its effective_limit.
pub reserve_within :
    (s : Scheduler) (q : Request) (live : List NodeRecord) (c : Candidate) (route_id : String)
    (now : ℕ)
    → select s q.model q.capability q.excluded_nodes live ≡ some c
    → c.tier ≡ 1
    → IsConsistent c.node.snapshot
    → get route_id s.reservations ≡ none
    → c.node.snapshot.capacity.active
        + count_unaccounted c.node (reserve route_id c q now s).0.reservations
      ≤ c.node.snapshot.capacity.effective_limit
unfolding reserve
reserve_within s q live c route_id now h tier ok fresh =
    let (_, eligible, _) = select_sound s q.model q.capability q.excluded_nodes live c h in
    let warm = tier_one _ _ _ _ _ (eligible.tiered ∙ ap some tier) in
    let free : 0 < c.node.snapshot.capacity.available - count_unaccounted c.node s.reservations =
      unfold advertised in rw warm.0 at warm.1 in
    let counts = count-put c.node route_id (reservation_of route_id c q now) s.reservations fresh in
    let new = reservation-is_unaccounted route_id c q now in
    ground (arith, free, counts, new, ok.free)

-- A release removes its route and no other, and a second release changes nothing.
pub release_lem :
    (k j : String) (s : Scheduler)
    → (get j (release k s).reservations ≡ (if str_eq k j then none else get j s.reservations))
      × (get j (release k (release k s)).reservations ≡ get j (release k s).reservations)
unfolding release
release_lem k j s = (get-pop k j s.reservations, simp get-pop (ground arith))
