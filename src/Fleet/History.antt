-- ===== src/Fleet/History.antt =====
-- fleet/src/mnemosyne_fleet/store.py: how long the table of routes gets, and what finishing a route
-- changes.
use mnemosyne_inference.Prelude.{
  ℕ, zero, suc, ◌≤◌, ◌≡◌, refl, Bool, true, false, none, some, List, [], ◌∷◌, ◌++◌, inl, inr, All,
  arith, length, any_of, str_eq, Bool-cases,
}
use mathlib.Core.Path.{subst}
use text.Mathlib.TextPositions.{eq_refl}
use mnemosyne_inference.Prelude.Distinct.{All-map}
use mnemosyne_inference.Fleet.Store.{
  RouteRecord, FleetStore, filter, skip, has_route, opened_row, prune, start_route,
}

filter_kept : (p : RouteRecord → Bool) (rs : List RouteRecord) → length (filter p rs) ≤ length rs
unfolding filter
filter_kept p [] = omega arith
filter_kept p (r ∷ rs) = elim (Bool-cases (p r)) [
  | inl e ↦ rw e (omega (arith, filter_kept p rs))
  | inr e ↦ rw e (omega (arith, filter_kept p rs))
]

-- A filter that takes nothing behind the first n keeps at most n.
filter_first :
    (p : RouteRecord → Bool) (n : ℕ) (rs : List RouteRecord)
    → All (λ r. p r ≡ false) (skip n rs)
    → length (filter p rs) ≤ n
unfolding filter skip
filter_first p zero [] h = omega arith
filter_first p zero (r ∷ rs) (e, later) = rw e (filter_first p zero rs later)
filter_first p (suc n) [] h = omega arith
filter_first p (suc n) (r ∷ rs) h = elim (Bool-cases (p r)) [
  | inl e ↦ rw e (omega (arith, filter_first p n rs h))
  | inr e ↦ rw e (omega (arith, filter_first p n rs h))
]

has_route-All : (rs : List RouteRecord) → All (λ r. has_route r.route_id rs ≡ true) rs
unfolding has_route any_of
has_route-All [] = tt
has_route-All (r ∷ rs) = (simp eq_refl, All-map rs among (has_route-All rs))
  where
    among :
        (x : RouteRecord) → has_route x.route_id rs ≡ true → has_route x.route_id (r ∷ rs) ≡ true
    among x h = elim (Bool-cases (str_eq r.route_id x.route_id)) [
      | inl e ↦ rw e refl
      | inr e ↦ rw e h
    ]

module _ (newest_first : List RouteRecord → List RouteRecord)
    (reorders : (p : RouteRecord → Bool) (rs : List RouteRecord)
      → length (filter p (newest_first rs)) ≡ length (filter p rs)) where
  prune_bounded : (n : ℕ) (rs : List RouteRecord) → length (prune newest_first n rs) ≤ n
  unfolding prune
  prune_bounded n rs = rw (← reorders) (
      filter_first _ n (newest_first rs) (
        All-map (skip n (newest_first rs)) (λ r h. rw h refl)
          (has_route-All (skip n (newest_first rs)))))

  -- If the order that SQLite gives the rows is a rearrangement of them, then a start_route that
  -- writes leaves at most history_limit routes, however many there were before.
  pub start_route_bounded :
      (r : RouteRecord) (s s' : FleetStore)
      → start_route newest_first r s ≡ some s'
      → (length s'.routes ≤ s.history_limit) × (s'.history_limit ≡ s.history_limit)
  unfolding start_route
  start_route_bounded r s s' h = elim (Bool-cases (has_route r.route_id s.routes)) [
    | inl e ↦ absurd (clash e)
    | inr e ↦ written e
  ]
    where
      clash : has_route r.route_id s.routes ≡ true → ⊥
      clash e = let k : none ≡ some s' = simp e at h in cc

      written :
          has_route r.route_id s.routes ≡ false
          → (length s'.routes ≤ s.history_limit) × (s'.history_limit ≡ s.history_limit)
      written e =
          let stored : some (record s {
            routes = prune newest_first s.history_limit (s.routes ++ opened_row r ∷ []);
          })
              ≡ some s' =
            simp e at h in
          let same : record s {
            routes = prune newest_first s.history_limit (s.routes ++ opened_row r ∷ []);
          }
              ≡ s' =
            cc in
          subst (λ z. (length z.routes ≤ s.history_limit) × (z.history_limit ≡ s.history_limit))
            same (prune_bounded s.history_limit (s.routes ++ opened_row r ∷ []), refl)
