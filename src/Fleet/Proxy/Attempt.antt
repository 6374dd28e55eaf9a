-- ===== src/Fleet/Proxy/Attempt.antt =====
-- fleet/src/mnemosyne_fleet/proxy.py: `_RouteOwnership`, `_finish_owned`, `_attempt` and the delivery
-- of a streaming response, over the shared scheduler and store. Failures of the store are logged only.
use mnemosyne_inference.Prelude.{
  ℕ, String, Bool, true, false, ◌&&◌, Option, none, some, List, ◌==◌, opt_str_eq, is_none,
  if◌then◌else◌,
}
use mnemosyne_inference.Prelude.Dict.{get, put}
use mnemosyne_inference.Fleet.Scheduler.Types.{Reservation, Scheduler}
use mnemosyne_inference.Fleet.Scheduler.Queue.{release, mark_admitted}
use mnemosyne_inference.Fleet.Store.{RouteRecord, FleetStore, finish_route, start_route}
use mnemosyne_inference.Fleet.Proxy.Types.{
  ErrorResponse, Consumption, consumed, streamed, consumption_cancelled, consumption_failed,
  UpstreamResponse, Sending, build_failed, send_cancelled, connect_failed, http_error, send_error,
  responded, Gateway, Completion, not_started, completed, releasing, finishing, RouteOwnership,
  Result, node_busy_retry, not_connected, cancelled, error_answer, streaming,
}
use mnemosyne_inference.Fleet.Proxy.Headers.{response_headers}

-- How the wait for the completion task ends: the request task may be cancelled again meanwhile,
-- before the completion task has released the reservation, or after it.
pub data Wait : Type 0 where
  waits_out cancelled_at_once cancelled_after_release : Wait

-- What one attempt meets: whether the store works, whether the task is cancelled while the row is
-- written, how the request is sent, what other tasks do to the shared state meanwhile, and how the
-- wait for the completion ends.
pub record Passage : Type 0 where
  pub store_starts : Bool
  pub store_finishes : Bool
  pub start_cancelled : Bool
  pub sending : Sending
  pub other_tasks : Gateway → Gateway
  pub started_at : ℕ
  pub admitted_at : ℕ
  pub completed_at : ℕ
  pub wait : Wait

abbrev pub upstream_failure : ErrorResponse
upstream_failure = record { status_code = 502; code = "upstream_failure"; retry_after = none }

unfoldable pub route_record : Reservation → (endpoint : String) → (started_at : ℕ) → RouteRecord
route_record r endpoint started_at = record {
  route_id = r.route_id;
  started_at = started_at;
  completed_at = none;
  public_model = r.public_model;
  deployment_id = r.deployment_id;
  node_id = r.node_id;
  instance_id = r.instance_id;
  endpoint = endpoint;
  queue_ms = r.queue_ms;
  response_ms = none;
  status_code = none;
  failure_code = none;
}

-- `_finish_owned` up to the release, which goes first, whatever the store does.
unfoldable pub release_owned : RouteOwnership → Gateway → Gateway
release_owned o g = record g { scheduler = release o.reservation.route_id g.scheduler }

-- The rest of `_finish_owned`.
unfoldable pub finish_owned :
    Passage → RouteOwnership → Option ℕ → Option String → Gateway → Gateway
finish_owned p o status_code failure_code g = record g {
  store =
      if o.route_started && p.store_finishes
      then finish_route o.reservation.route_id status_code failure_code p.completed_at g.store
      else g.store;
}

-- The completion task goes on to its next point.
unfoldable pub run_completion :
    Passage → Completion → RouteOwnership → Gateway → RouteOwnership × Gateway
run_completion p not_started o g = (o, g)
run_completion p completed o g = (o, g)
run_completion p (releasing status_code code) o g =
    (record o { completion = finishing status_code code }, release_owned o g)
run_completion p (finishing status_code code) o g =
    (record o { completion = completed }, finish_owned p o status_code code g)

unfoldable pub advance_completion : Passage → RouteOwnership × Gateway → RouteOwnership × Gateway
advance_completion p (o, g) = run_completion p o.completion o g

-- The first call of `complete` makes the task.
unfoldable pub make_task : Option ℕ → Option String → Completion → Completion
make_task status_code code not_started = releasing status_code code
make_task status_code code completed = completed
make_task status_code code (releasing x y) = releasing x y
make_task status_code code (finishing x y) = finishing x y

-- `await asyncio.shield(task)`, and whether it was cancelled, which leaves the task running.
unfoldable pub await_shielded :
    Passage → Wait → RouteOwnership × Gateway → Bool × (RouteOwnership × Gateway)
await_shielded p waits_out og = (false, advance_completion p (advance_completion p og))
await_shielded p cancelled_at_once og = (true, og)
await_shielded p cancelled_after_release og = (true, advance_completion p og)

-- `complete`: the first call decides, a later one waits for the same task.
unfoldable pub complete :
    Passage
    → Option ℕ
    → Option String
    → RouteOwnership
    → Gateway
    → Bool × (RouteOwnership × Gateway)
complete p status_code failure_code o g =
    await_shielded p p.wait
      (record o { completion = make_task status_code failure_code o.completion }, g)

unfoldable pub note_stream_failure : String → RouteOwnership → RouteOwnership
note_stream_failure code o =
    if is_none o.stream_failure_code then record o { stream_failure_code = some code } else o

-- The reservation in the scheduler is the object that the attempt marks.
unfoldable pub admit_entry : ℕ → String → Option Reservation → Scheduler → Scheduler
admit_entry now route_id none s = s
admit_entry now route_id (some r) s = record s {
  reservations = put route_id (mark_admitted now r) s.reservations;
}

unfoldable pub admit_owned : ℕ → RouteOwnership → Gateway → RouteOwnership × Gateway
admit_owned now o g = (
  record o { reservation = mark_admitted now o.reservation },
  record g {
    scheduler =
        admit_entry now o.reservation.route_id (get o.reservation.route_id g.scheduler.reservations)
          g.scheduler;
  },
)

unfoldable pub is_node_busy : UpstreamResponse → Bool
is_node_busy u = opt_str_eq (get "x-mnemosyne-error" u.headers) (some "node_busy")

-- A completion and the result that follows it, or the cancellation.
unfoldable pub end_with :
    Passage
    → Option ℕ
    → String
    → Result
    → RouteOwnership × Gateway
    → Result × (RouteOwnership × Gateway)
end_with p status_code code result (o, g) =
    let (interrupted, og) = complete p status_code (some code) o g in
    (if interrupted then cancelled else result, og)

unfoldable pub build_response :
    Passage
    → UpstreamResponse
    → (decoded : Bool) → RouteOwnership × Gateway
    → Result × (RouteOwnership × Gateway)
build_response p u decoded og =
    if u.is_deliverable
    then (streaming u.status_code (response_headers u.headers decoded), og)
    else end_with p (some u.status_code) "gateway_response_build_failed"
        (error_answer upstream_failure) og

-- Behind the admission boundary.
unfoldable pub consume :
    Passage
    → UpstreamResponse
    → Consumption
    → RouteOwnership × Gateway
    → Result × (RouteOwnership × Gateway)
consume p u consumption_cancelled og =
    end_with p (some u.status_code) "client_cancelled" cancelled og
consume p u consumption_failed og =
    end_with p (some u.status_code) "upstream_response_error" (error_answer upstream_failure) og
consume p u consumed og = build_response p u true og
consume p u streamed og = build_response p u false og

unfoldable pub send :
    Passage → Sending → RouteOwnership × Gateway → Result × (RouteOwnership × Gateway)
send p build_failed og =
    end_with p none "gateway_request_build_failed" (error_answer upstream_failure) og
send p send_cancelled og = end_with p none "client_cancelled" cancelled og
send p connect_failed og = end_with p none "connect_before_headers" not_connected og
send p http_error og =
    end_with p none "ambiguous_upstream_failure" (error_answer upstream_failure) og
send p send_error og = end_with p none "gateway_proxy_error" (error_answer upstream_failure) og
send p (responded u) (o, g) =
    if u.status_code == 429 && is_node_busy u
    then end_with p (some 429) "node_busy" node_busy_retry (o, g)
    else consume p u u.consumption (admit_owned p.admitted_at o g)

unfoldable pub started_store : Option FleetStore → FleetStore → FleetStore
started_store none s = s
started_store (some s') s = s'

module _ (newest_first : List RouteRecord → List RouteRecord) where
  unfoldable pub begin_route :
      Passage → Reservation → (endpoint : String) → Gateway → RouteOwnership × Gateway
  begin_route p r endpoint g =
      let written =
        if p.store_starts
        then start_route newest_first (route_record r endpoint p.started_at) g.store
        else none in
      (
        record {
          reservation = r;
          route_started = (if is_none written then false else true);
          completion = not_started;
          stream_failure_code = none;
        },
        record g { store = started_store written g.store },
      )

  -- `_attempt`.
  unfoldable pub attempt :
      Passage → Reservation → (endpoint : String) → Gateway → Result × (RouteOwnership × Gateway)
  attempt p r endpoint g =
      let (o, g') = begin_route p r endpoint g in
      let og : RouteOwnership × Gateway = (o, p.other_tasks g') in
      if p.start_cancelled
      then end_with p none "client_cancelled" cancelled og
      else send p p.sending og

-- How the delivery of the streaming response ends.
pub data Delivered : Type 0 where
  sent delivery_cancelled delivery_failed : Delivered

-- What the body's iterator notes first.
pub data BodyEnd : Type 0 where
  body_done body_cancelled body_failed : BodyEnd

unfoldable pub note_body : BodyEnd → RouteOwnership → RouteOwnership
note_body body_done o = o
note_body body_cancelled o = note_stream_failure "client_cancelled" o
note_body body_failed o = note_stream_failure "upstream_stream_error" o

unfoldable pub note_delivery : Delivered → RouteOwnership → RouteOwnership
note_delivery sent o = o
note_delivery delivery_cancelled o = note_stream_failure "client_cancelled" o
note_delivery delivery_failed o = note_stream_failure "stream_delivery_error" o

-- `_OwnedStreamingResponse.__call__`: the `finally` block completes the route, and may be cancelled.
unfoldable pub deliver :
    Passage
    → (status_code : ℕ) → BodyEnd
    → Delivered
    → RouteOwnership × Gateway
    → Bool × (RouteOwnership × Gateway)
deliver p status_code body delivered (o, g) =
    let o' = note_delivery delivered (note_body body o) in
    complete p (some status_code) o'.stream_failure_code o' g
