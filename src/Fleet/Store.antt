-- ===== src/Fleet/Store.antt =====
-- fleet/src/mnemosyne_fleet/store.py: the table of routes. SQLite's `ORDER BY started_at DESC` is the
-- parameter `newest_first`: what it does with equal times is its own.
use mnemosyne_inference.Prelude.{
  ℕ, zero, suc, min, max, String, Bool, not, Option, none, some, List, [], ◌∷◌, ◌++◌, map, any_of,
  str_eq, if◌then◌else◌,
}

-- `response_ms` is the difference of its two times.
pub record RouteRecord : Type 0 where
  pub route_id : String
  pub started_at : ℕ
  pub completed_at : Option ℕ
  pub public_model : String
  pub deployment_id : String
  pub node_id : String
  pub instance_id : String
  pub endpoint : String
  pub queue_ms : ℕ
  pub response_ms : Option (ℕ × ℕ)
  pub status_code : Option ℕ
  pub failure_code : Option String

pub record FleetStore : Type 0 where
  pub routes : List RouteRecord
  pub history_limit : ℕ

unfoldable pub filter : (RouteRecord → Bool) → List RouteRecord → List RouteRecord
filter p [] = []
filter p (r ∷ rs) = let rest = filter p rs in if p r then r ∷ rest else rest

unfoldable pub skip : ℕ → List RouteRecord → List RouteRecord
skip zero rs = rs
skip (suc n) [] = []
skip (suc n) (r ∷ rs) = skip n rs

unfoldable pub take : ℕ → List RouteRecord → List RouteRecord
take zero rs = []
take (suc n) [] = []
take (suc n) (r ∷ rs) = r ∷ take n rs

unfoldable pub has_route : String → List RouteRecord → Bool
has_route id rs = any_of (λ r. str_eq r.route_id id) rs

-- The row that `start_route` inserts: its last three columns are NULL.
abbrev pub opened_row : RouteRecord → RouteRecord
opened_row r = record r {
  completed_at = none;
  response_ms = none;
  status_code = none;
  failure_code = none;
}

unfoldable pub finish_row :
    String → Option ℕ → Option String → (completed_at : ℕ) → RouteRecord → RouteRecord
finish_row id status_code failure_code completed_at r =
    if str_eq r.route_id id
    then record r {
      completed_at = some completed_at;
      response_ms = some (completed_at, r.started_at);
      status_code = status_code;
      failure_code = failure_code;
    }
    else r

unfoldable pub finish_route :
    String → Option ℕ → Option String → (completed_at : ℕ) → FleetStore → FleetStore
finish_route id status_code failure_code completed_at s = record s {
  routes = map (finish_row id status_code failure_code completed_at) s.routes;
}

module _ (newest_first : List RouteRecord → List RouteRecord) where
  -- The `DELETE` behind the offset of the history limit.
  unfoldable pub prune : ℕ → List RouteRecord → List RouteRecord
  prune limit rs = filter (λ r. not (has_route r.route_id (skip limit (newest_first rs)))) rs

  -- `none` is the `IntegrityError` of a route id that is already there: nothing is written.
  unfoldable pub start_route : RouteRecord → FleetStore → Option FleetStore
  start_route r s =
      if has_route r.route_id s.routes
      then none
      else some (record s { routes = prune s.history_limit (s.routes ++ opened_row r ∷ []) })

  unfoldable pub recent_routes : ℕ → FleetStore → List RouteRecord
  recent_routes limit s = take (max 1 (min limit 1_000)) (newest_first s.routes)
