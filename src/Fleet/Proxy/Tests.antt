-- ===== src/Fleet/Proxy/Tests.antt =====
-- fleet/src/mnemosyne_fleet/proxy.py, store.py: requests on a fleet of two nodes, and the theorems
-- applied to them.
use mnemosyne_inference.Prelude.{
  ℕ, zero, suc, ◌≤◌, String, ◌≡◌, refl, true, false, none, some, List, [], ◌∷◌, length, any_of,
  all_of, All,
}
use mnemosyne_inference.Prelude.Dict.{get, put, pop, has, add}
use mnemosyne_inference.Prelude.Text.{codes_lt, is_white, starts_with, same_codes, lower}
use mnemosyne_inference.Fleet.Protocol.Samples.{ready_snapshot, node, model}
use mnemosyne_inference.Fleet.Registry.{NodeRecord}
use mnemosyne_inference.Fleet.Scheduler.Types.{Reservation, Scheduler, queue_of, last_selected_of}
use mnemosyne_inference.Fleet.Scheduler.Select.{
  is_pending, is_unaccounted, count_unaccounted, same_set, is_strict, is_routable,
  candidate_deployment, is_schedulable, advertised, tier_of, weight_of, candidate,
  consider_deployment, consider, candidates, before, least, least_of, select,
}
use mnemosyne_inference.Fleet.Scheduler.Queue.{
  expire, reservation_of, reserve, set_queue, enqueue, acquire_found, acquire_queued, acquire_model,
  acquire, release, mark_admitted,
}
use mnemosyne_inference.Fleet.Store.{
  RouteRecord, FleetStore, filter, skip, has_route, finish_row, finish_route, prune, start_route,
}
use mnemosyne_inference.Fleet.History.{start_route_bounded}
use mnemosyne_inference.Fleet.Proxy.Types.{
  Headers, Sending, connect_failed, responded, UpstreamResponse, streamed, Gateway, not_started,
  RouteOwnership,
}
use mnemosyne_inference.Fleet.Proxy.Headers.{
  names_key, has_prefix, forwards, keep, upstream_headers, returns, response_headers,
}
use mnemosyne_inference.Fleet.Proxy.Attempt.{
  Passage, waits_out, cancelled_at_once, route_record, release_owned, finish_owned, run_completion,
  advance_completion, make_task, await_shielded, complete, note_stream_failure, admit_entry,
  admit_owned, is_node_busy, end_with, build_response, consume, send, started_store, begin_route,
  attempt, sent, body_failed, note_body, note_delivery, deliver,
}
use mnemosyne_inference.Fleet.Proxy.Handle.{
  Turn, Answer, answer_error, Attempted, fleet_capacity_busy, object, resume, wake, more_rounds,
  wait_rounds, wait_model, acquire_turn, acquire_error, exhausted, attempt_turn, follow,
  answer_turn, attempts, first_turns, overflows, route, handle, Decoded,
}
use mnemosyne_inference.Fleet.Proxy.Retries.{
  NodesDiffer, RetriesUpToLast, handle_distinct, handle_retries,
}
use mnemosyne_inference.Fleet.Proxy.Busy.{IsProvenBusy, handle_busy}
use mnemosyne_inference.Fleet.Proxy.Ownership.{Settled, IsEnded, attempt-Settled, deliver_releases}

abbrev idle_scheduler : Scheduler
idle_scheduler = record {
  models = ("public", model) ∷ [];
  nodes = ("n1", node "n1") ∷ ("n2", node "n2") ∷ [];
  queues = [];
  reservations = [];
  selection_counter = 0;
  last_selected = [];
}

abbrev two_nodes : List NodeRecord
two_nodes =
    record {
      enrollment = node "n1";
      snapshot = ready_snapshot "n1" "i1" 5;
      received_at = 0;
      received_monotonic = 2;
      poll_started_monotonic = 1;
    }
    ∷ record {
      enrollment = node "n2";
      snapshot = ready_snapshot "n2" "i1" 5;
      received_at = 0;
      received_monotonic = 2;
      poll_started_monotonic = 1;
    }
    ∷ []

abbrev new_store : FleetStore
new_store = record { routes = []; history_limit = 1 }

abbrev in_order : List RouteRecord → List RouteRecord
in_order rs = rs

abbrev upstream : (status_code : ℕ) → Headers → UpstreamResponse
upstream status_code headers = record {
  status_code = status_code;
  headers = headers;
  consumption = streamed;
  is_deliverable = true;
}

abbrev busy : Sending
busy = responded (upstream 429 (("x-mnemosyne-error", "node_busy") ∷ []))

abbrev accepted : Sending
accepted = responded (upstream 200 [])

abbrev passage : Sending → Passage
passage sending = record {
  store_starts = true;
  store_finishes = true;
  start_cancelled = false;
  sending = sending;
  other_tasks = λ g. g;
  started_at = 3;
  admitted_at = 4;
  completed_at = 5;
  wait = waits_out;
}

abbrev turn_of : Sending → Turn
turn_of sending = record {
  ticket = 0;
  route_id = "r";
  started = 3;
  live = two_nodes;
  scheduler = idle_scheduler;
  store = new_store;
  rounds = [];
  passage = passage sending;
}

-- The first node cannot be reached, the second one answers.
abbrev failing_over : ℕ → Turn
failing_over zero = turn_of connect_failed
failing_over (suc i) = turn_of accepted

abbrev all_busy : ℕ → Turn
all_busy i = turn_of busy

abbrev chat : Decoded
chat = object (some "public")

-- The nodes of the attempts.
abbrev nodes_of : List Attempted → List String
nodes_of [] = []
nodes_of (a ∷ rest) = a.reservation.node_id ∷ nodes_of rest

-- Evaluates a request.
serves : (ℕ → Turn) → Answer × List Attempted
unfolding any_of all_of get put pop has add codes_lt is_white last_selected_of queue_of is_pending
    is_unaccounted count_unaccounted same_set is_strict is_routable candidate_deployment
    is_schedulable advertised tier_of weight_of candidate consider_deployment consider candidates
    before least least_of select reservation_of reserve set_queue enqueue acquire_found
    acquire_queued acquire_model acquire release mark_admitted filter skip has_route finish_row
    finish_route prune start_route lower same_codes names_key has_prefix forwards keep returns
    response_headers starts_with route_record release_owned finish_owned run_completion
    advance_completion make_task await_shielded complete note_stream_failure admit_entry admit_owned
    is_node_busy end_with build_response consume send started_store begin_route attempt note_body
    note_delivery deliver resume wake more_rounds wait_rounds expire wait_model acquire_turn
    acquire_error exhausted attempt_turn follow answer_turn attempts first_turns overflows route
    handle
serves turn = handle in_order 100 (10 ∷ []) 2 "chat/completions" "/v1/chat/completions" turn chat

failing_over_runs : nodes_of (serves failing_over).1 ≡ "n1" ∷ "n2" ∷ []
unfolding serves
failing_over_runs = refl

too_large_runs :
    handle in_order 9 (5 ∷ 5 ∷ []) 2 "chat/completions" "/v1/chat/completions" failing_over chat ≡ (
      answer_error (record { status_code = 413; code = "request_too_large"; retry_after = none }),
      [],
    )
unfolding serves
too_large_runs = refl

handle_distinct_example :
    NodesDiffer
      (handle in_order 100
        (10 ∷ [])
        2
        "chat/completions"
        "/v1/chat/completions"
        failing_over
        chat).1
    × (length
          (handle in_order 100
            (10 ∷ [])
            2
            "chat/completions"
            "/v1/chat/completions"
            failing_over
            chat).1
        ≤ 2)
handle_distinct_example =
    handle_distinct in_order 100 (10 ∷ []) 2 "chat/completions" "/v1/chat/completions" failing_over
      chat

handle_retries_example :
    RetriesUpToLast
      (handle in_order 100
        (10 ∷ [])
        2
        "chat/completions"
        "/v1/chat/completions"
        failing_over
        chat).1
handle_retries_example =
    handle_retries in_order 100 (10 ∷ []) 2 "chat/completions" "/v1/chat/completions" failing_over
      chat

all_busy_runs :
    (handle in_order 100 (10 ∷ []) 2 "chat/completions" "/v1/chat/completions" all_busy chat).0
    ≡ answer_error fleet_capacity_busy
unfolding serves
all_busy_runs = refl

handle_busy_example :
    All IsProvenBusy
      (handle in_order 100 (10 ∷ []) 2 "chat/completions" "/v1/chat/completions" all_busy chat).1
    × (length
          (handle in_order 100
            (10 ∷ [])
            2
            "chat/completions"
            "/v1/chat/completions"
            all_busy
            chat).1
        ≡ 2)
handle_busy_example =
    handle_busy in_order 100 (10 ∷ []) 2 "chat/completions" "/v1/chat/completions" all_busy chat
      all_busy_runs

abbrev reservation : Reservation
reservation = record {
  route_id = "r";
  public_model = "public";
  capability = "chat/completions";
  node_id = "n1";
  instance_id = "i1";
  deployment_id = "d";
  local_alias = "local";
  reserved_at = 3;
  queue_ms = 0;
  admitted_at = none;
}

abbrev gateway : Gateway
gateway = record {
  scheduler = record idle_scheduler { reservations = ("r", reservation) ∷ [] };
  store = new_store;
}

-- The client goes away while the attempt waits for its completion.
abbrev interrupted : Sending → Passage
interrupted sending = record (passage sending) { wait = cancelled_at_once }

-- The reservation is there still when the attempt ends.
interrupted_runs :
    get "r"
      (attempt in_order
        (interrupted connect_failed)
        reservation
        "/v1/embeddings"
        gateway).1.1.scheduler.reservations
    ≡ some reservation
unfolding serves
interrupted_runs = refl

attempt-Settled_example :
    Settled "r"
      (passage busy)
      gateway
      none
      none
      (attempt in_order (interrupted connect_failed) reservation "/v1/embeddings" gateway)
attempt-Settled_example =
    attempt-Settled in_order (interrupted connect_failed) reservation "/v1/embeddings" gateway
      (passage busy) gateway none none

abbrev owner : RouteOwnership
owner = record {
  reservation = reservation;
  route_started = true;
  completion = not_started;
  stream_failure_code = none;
}

deliver_releases_example :
    IsEnded "r"
      (passage busy)
      gateway
      (some 200)
      none
      (deliver (interrupted accepted) 200 body_failed sent (owner, gateway))
deliver_releases_example =
    deliver_releases (interrupted accepted) (passage busy) 200 body_failed sent owner gateway
      gateway (some 200) none refl

-- The client's credentials do not pass.
headers_runs :
    upstream_headers "Bearer t" "r" (("Authorization", "Bearer x") ∷ ("x-a", "1") ∷ [])
    ≡ ("x-a", "1")
      ∷ ("Authorization", "Bearer t")
      ∷ ("Content-Type", "application/json")
      ∷ ("X-Mnemosyne-Fleet-Route", "r")
      ∷ []
unfolding serves upstream_headers
headers_runs = refl

-- The client's content type stays beside the gateway's: dictionary keys differ by case.
content_type_runs :
    upstream_headers "Bearer t" "r" (("content-type", "text/plain") ∷ [])
    ≡ ("content-type", "text/plain")
      ∷ ("Authorization", "Bearer t")
      ∷ ("Content-Type", "application/json")
      ∷ ("X-Mnemosyne-Fleet-Route", "r")
      ∷ []
unfolding serves upstream_headers
content_type_runs = refl

abbrev client_headers : Headers
client_headers = ("cookie", "c") ∷ ("x-a", "1") ∷ []

abbrev first_route : RouteRecord
first_route = route_record reservation "/v1/embeddings" 3

abbrev second_route : RouteRecord
second_route = record first_route { route_id = "r2"; started_at = 4 }

abbrev full_store : FleetStore
full_store = record { routes = second_route ∷ []; history_limit = 1 }

-- The newest route comes first.
start_route_runs : start_route in_order first_route full_store ≡ some full_store
unfolding serves
start_route_runs = refl

start_route_bounded_example : (length full_store.routes ≤ 1) × (full_store.history_limit ≡ 1)
start_route_bounded_example =
    start_route_bounded in_order (λ p rs. refl) first_route full_store full_store start_route_runs
