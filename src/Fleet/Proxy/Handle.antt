-- ===== src/Fleet/Proxy/Handle.antt =====
-- fleet/src/mnemosyne_fleet/proxy.py: `handle`, from the body to the answer. The decoder of JSON is a
-- parameter; each turn of the loop brings what its `acquire` and its attempt meet.
use mnemosyne_inference.Prelude.{
  ℕ, zero, suc, ◌+◌, max, String, Bool, true, false, ◌&&◌, ◌||◌, not, Option, none, some, List, [],
  ◌∷◌, ltb, is_nil, all_of, if◌then◌else◌,
}
use mnemosyne_inference.Prelude.Text.{codes, is_white}
use mnemosyne_inference.Prelude.Dict.{get, add}
use mnemosyne_inference.Fleet.Config.{ModelConfig}
use mnemosyne_inference.Fleet.Registry.{NodeRecord}
use mnemosyne_inference.Fleet.Scheduler.Types.{Reservation, Scheduler}
use mnemosyne_inference.Fleet.Scheduler.Queue.{
  AcquireError, unknown_model, capability_error, fleet_queue_full, fleet_queue_timeout, Reply,
  reserved, failed, waiting, Request, acquire, expire, round,
}
use mnemosyne_inference.Fleet.Store.{RouteRecord, FleetStore}
use mnemosyne_inference.Fleet.Proxy.Types.{
  ErrorResponse, Headers, Gateway, RouteOwnership, Result, node_busy_retry, not_connected,
  cancelled, error_answer, streaming,
}
use mnemosyne_inference.Fleet.Proxy.Attempt.{Passage, attempt}

-- A round of a waiting `acquire`, with the scheduler as the other tasks left it, and whether the wait
-- before it timed out.
pub record Round : Type 0 where
  pub timed_out : Bool
  pub now : ℕ
  pub live : List NodeRecord
  pub scheduler : Scheduler

-- One turn of the loop: the scheduler that its `acquire` finds, the rounds of its wait and its
-- attempt on the node.
pub record Turn : Type 0 where
  pub ticket : ℕ
  pub route_id : String
  pub started : ℕ
  pub live : List NodeRecord
  pub scheduler : Scheduler
  pub store : FleetStore
  pub rounds : List Round
  pub passage : Passage

unfoldable pub resume : (Scheduler → Scheduler × Reply) → Scheduler × Reply → Scheduler × Reply
resume wait (s, reserved r) = (s, reserved r)
resume wait (s, failed e) = (s, failed e)
resume wait (s, waiting) = wait s

-- Behind the wait for a notification.
unfoldable pub wake : (ticket : ℕ) (route_id : String) → Request → Round → Scheduler × Reply
wake ticket route_id q r =
    if r.timed_out
    then expire ticket q r.scheduler
    else round ticket route_id q r.now r.live r.scheduler

-- Where the rounds end without an answer the task waits on, or was cancelled.
unfoldable pub more_rounds :
    (ticket : ℕ) (route_id : String) → Request → List Round → Scheduler → Scheduler × Reply
more_rounds ticket route_id q [] s = (s, waiting)
more_rounds ticket route_id q (r ∷ rs) s =
    resume (λ s'. more_rounds ticket route_id q rs s') (wake ticket route_id q r)

-- The rounds behind the enqueueing; the first one comes at once.
unfoldable pub wait_rounds :
    (ticket : ℕ) (route_id : String) → Request → List Round → Scheduler → Scheduler × Reply
wait_rounds ticket route_id q [] s = (s, waiting)
wait_rounds ticket route_id q (r ∷ rs) s =
    resume (λ s'. more_rounds ticket route_id q rs s')
      (round ticket route_id q r.now r.live r.scheduler)

unfoldable pub wait_model :
    Turn
    → (capability : String) → List String
    → Option ModelConfig
    → Scheduler × Reply
    → Scheduler × Reply
wait_model t capability excluded (some m) (s, waiting) =
    wait_rounds t.ticket t.route_id
      (record {
        model = m;
        capability = capability;
        excluded_nodes = excluded;
        started = t.started;
      })
      t.rounds s
wait_model t capability excluded none (s, waiting) = (s, waiting)
wait_model t capability excluded m (s, reserved r) = (s, reserved r)
wait_model t capability excluded m (s, failed e) = (s, failed e)

-- The whole of `await self._scheduler.acquire(…)`.
unfoldable pub acquire_turn :
    Turn → (public_model capability : String) → List String → Scheduler × Reply
acquire_turn t public_model capability excluded =
    wait_model t capability excluded (get public_model t.scheduler.models)
      (acquire t.ticket t.route_id public_model capability excluded t.started t.live t.scheduler)

unfoldable pub acquire_error : AcquireError → ErrorResponse
acquire_error unknown_model = record {
  status_code = 404;
  code = "model_not_found";
  retry_after = none;
}
acquire_error capability_error = record {
  status_code = 400;
  code = "capability_not_supported";
  retry_after = none;
}
acquire_error fleet_queue_full = record {
  status_code = 429;
  code = "fleet_queue_full";
  retry_after = some 1;
}
acquire_error fleet_queue_timeout = record {
  status_code = 429;
  code = "fleet_queue_timeout";
  retry_after = some 1;
}

abbrev pub fleet_capacity_busy : ErrorResponse
fleet_capacity_busy = record {
  status_code = 429;
  code = "fleet_capacity_busy";
  retry_after = some 1;
}

abbrev pub no_eligible_node : ErrorResponse
no_eligible_node = record { status_code = 503; code = "no_eligible_node"; retry_after = some 1 }

-- How `handle` ends. `pending` is a task that still waits in `acquire`, or was cancelled there.
pub data Answer : Type 0 where
  pending interrupted : Answer
  answer_error : ErrorResponse → Answer
  answer_stream : (status_code : ℕ) → Headers → RouteOwnership → Answer

-- An attempt that was made, and how it ended.
pub record Attempted : Type 0 where
  pub reservation : Reservation
  pub passage : Passage
  pub result : Result
  pub owner : RouteOwnership
  pub gateway : Gateway

-- Behind the loop.
unfoldable pub exhausted : (excluded : List String) → (all_busy : Bool) → Answer
exhausted excluded all_busy =
    answer_error
      (if not (is_nil excluded) && all_busy then fleet_capacity_busy else no_eligible_node)

module _ (newest_first : List RouteRecord → List RouteRecord) where
  unfoldable pub attempt_turn : Turn → (endpoint : String) → Scheduler → Reservation → Attempted
  attempt_turn t endpoint s r =
      let (result, (o, g)) =
        attempt newest_first t.passage r endpoint (record { scheduler = s; store = t.store }) in
      record { reservation = r; passage = t.passage; result = result; owner = o; gateway = g }

  -- `return`, or the next turn with the node excluded; `rest` is what is left of the loop.
  unfoldable pub follow :
      (rest : List String → Bool → Answer × List Attempted)
      → (excluded : List String) → (all_busy : Bool) → Attempted
      → Result
      → Answer × List Attempted
  follow rest excluded all_busy a cancelled = (interrupted, a ∷ [])
  follow rest excluded all_busy a (error_answer e) = (answer_error e, a ∷ [])
  follow rest excluded all_busy a (streaming status_code headers) =
      (answer_stream status_code headers a.owner, a ∷ [])
  follow rest excluded all_busy a node_busy_retry =
      let (answer, later) = rest (add a.reservation.node_id excluded) all_busy in
      (answer, a ∷ later)
  follow rest excluded all_busy a not_connected =
      let (answer, later) = rest (add a.reservation.node_id excluded) false in (answer, a ∷ later)

  unfoldable pub answer_turn :
      (rest : List String → Bool → Answer × List Attempted)
      → (excluded : List String) → (all_busy : Bool) → Turn
      → (endpoint : String) → Scheduler × Reply
      → Answer × List Attempted
  answer_turn rest excluded all_busy t endpoint (s, waiting) = (pending, [])
  answer_turn rest excluded all_busy t endpoint (s, failed e) = (answer_error (acquire_error e), [])
  answer_turn rest excluded all_busy t endpoint (s, reserved r) =
      let a = attempt_turn t endpoint s r in follow rest excluded all_busy a a.result

  -- The loop over the turns that are left, and the attempts that it makes.
  unfoldable pub attempts :
      (public_model capability endpoint : String)
      → List Turn
      → (excluded : List String) → (all_busy : Bool) → Answer × List Attempted
  attempts name capability endpoint [] excluded all_busy = (exhausted excluded all_busy, [])
  attempts name capability endpoint (t ∷ ts) excluded all_busy =
      answer_turn (λ ex busy. attempts name capability endpoint ts ex busy) excluded all_busy t
        endpoint (acquire_turn t name capability excluded)

-- What the decoder makes of a body. The model is `none` where it is no text.
pub data Decoded : Type 0 where
  not_json not_object : Decoded
  object : (model : Option String) → Decoded

-- `range(max_attempts)`: the turns of the loop, from the turns that are there to come.
unfoldable pub first_turns : ℕ → (ℕ → Turn) → List Turn
first_turns zero turn = []
first_turns (suc n) turn = turn 0 ∷ first_turns n (λ i. turn (suc i))

-- `_read_body`: whether the body passes the limit at some chunk.
unfoldable pub overflows : (max_body_bytes read : ℕ) → (chunks : List ℕ) → Bool
overflows max_body_bytes read [] = false
overflows max_body_bytes read (n ∷ ns) =
    ltb max_body_bytes (read + n) || overflows max_body_bytes (read + n) ns

abbrev pub bad_request : String → ErrorResponse
bad_request code = record { status_code = 400; code = code; retry_after = none }

module _ (newest_first : List RouteRecord → List RouteRecord) where
  -- `handle` behind the decoder, for a fleet of `node_count` nodes.
  unfoldable pub route :
      (node_count : ℕ)
      → (capability endpoint : String) → (ℕ → Turn)
      → Decoded
      → Answer × List Attempted
  route node_count capability endpoint turn not_json =
      (answer_error (bad_request "invalid_json"), [])
  route node_count capability endpoint turn not_object =
      (answer_error (bad_request "invalid_request"), [])
  route node_count capability endpoint turn (object none) =
      (answer_error (bad_request "model_required"), [])
  route node_count capability endpoint turn (object (some name)) =
      let routed =
        attempts newest_first name capability endpoint (first_turns (max 1 node_count) turn) []
          true in
      if all_of is_white (codes name)
      then (answer_error (bad_request "model_required"), [])
      else routed

  -- `handle`, on the sizes of the body's chunks and what the decoder makes of them.
  unfoldable pub handle :
      (max_body_bytes : ℕ)
      → (chunks : List ℕ) → (node_count : ℕ) → (capability endpoint : String) → (ℕ → Turn)
      → Decoded
      → Answer × List Attempted
  handle max_body_bytes chunks node_count capability endpoint turn body =
      if overflows max_body_bytes 0 chunks
      then (
        answer_error (record { status_code = 413; code = "request_too_large"; retry_after = none }),
        [],
      )
      else route node_count capability endpoint turn body
