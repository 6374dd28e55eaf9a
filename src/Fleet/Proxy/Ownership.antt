-- ===== src/Fleet/Proxy/Ownership.antt =====
-- fleet/src/mnemosyne_fleet/proxy.py: the reservation of a route goes back to the scheduler, also
-- where the request is cancelled while it waits for that.
use mnemosyne_inference.Prelude.{
  ℕ, String, ◌≡◌, refl, ◌∙◌, Bool, true, false, ◌&&◌, Option, none, some, List, ◌⊎◌, if◌then◌else◌,
  inl, inr, Bool-cases, ◌==◌, is_none,
}
use text.Mathlib.TextPositions.{eq_refl}
use mnemosyne_inference.Prelude.Dict.{get, get-pop}
use mnemosyne_inference.Fleet.Scheduler.Types.{Reservation}
use mnemosyne_inference.Fleet.Scheduler.Queue.{release, mark_admitted}
use mnemosyne_inference.Fleet.Store.{RouteRecord}
use mnemosyne_inference.Fleet.Proxy.Types.{
  Result, node_busy_retry, not_connected, cancelled, error_answer, streaming, not_started,
  completed, releasing, RouteOwnership, Gateway, UpstreamResponse, Consumption, consumed, streamed,
  consumption_cancelled, consumption_failed, Sending, build_failed, send_cancelled, connect_failed,
  http_error, send_error, responded,
}
use mnemosyne_inference.Fleet.Proxy.Attempt.{
  Passage, Wait, waits_out, cancelled_at_once, cancelled_after_release, release_owned,
  run_completion, advance_completion, make_task, await_shielded, finish_owned, complete, end_with,
  build_response, consume, is_node_busy, send, admit_owned, begin_route, attempt, Delivered,
  BodyEnd, note_body, note_delivery, deliver, body_done, body_cancelled, body_failed, sent,
  delivery_cancelled, delivery_failed, note_stream_failure,
}

abbrev pub Released : String → Gateway → Type 0
Released id g = get id g.scheduler.reservations ≡ none

-- The completion task holds the route, whoever still waits for it: the reservation is released and
-- the task leaves the scheduler `later` alone to its end, or the next step of the task releases it;
-- a further call makes no other task, and the task ends in two steps.
abbrev pub IsHandedOver :
    String
    → (q : Passage) (later : Gateway) (s : Option ℕ) (c : Option String) → RouteOwnership
    → Gateway
    → Type 0
IsHandedOver id q later s c o g =
    ((Released id g
        × ((advance_completion q (advance_completion q (o, later))).1.scheduler ≡ later.scheduler))
      ⊎ Released id (advance_completion q (o, later)).1)
    × (make_task s c o.completion ≡ o.completion)
    × ((advance_completion q (advance_completion q (o, later))).0.completion ≡ completed)

-- The completion is done, and another one changes nothing.
abbrev pub IsDone :
    String
    → (q : Passage) (later : Gateway) (s : Option ℕ) (c : Option String) → RouteOwnership
    → Gateway
    → Type 0
IsDone id q later s c o g =
    Released id g × (o.completion ≡ completed) × ((complete q s c o later).1.1 ≡ later)

-- How a wait for the completion leaves the route, by whether it was cancelled.
abbrev pub IsEnded :
    String
    → (q : Passage) (later : Gateway) (s : Option ℕ) (c : Option String)
    → Bool × (RouteOwnership × Gateway)
    → Type 0
IsEnded id q later s c (false, (o, g)) = IsDone id q later s c o g
IsEnded id q later s c (true, (o, g)) = IsHandedOver id q later s c o g

-- A route that streams is owned by its response, which has not ended it.
abbrev pub Settled :
    String
    → (q : Passage) (later : Gateway) (s : Option ℕ) (c : Option String)
    → Result × (RouteOwnership × Gateway)
    → Type 0
Settled id q later s c (streaming code hs, (o, g)) =
    (o.completion ≡ not_started) × (o.reservation.route_id ≡ id)
Settled id q later s c (cancelled, (o, g)) = IsHandedOver id q later s c o g
Settled id q later s c (node_busy_retry, (o, g)) = IsDone id q later s c o g
Settled id q later s c (not_connected, (o, g)) = IsDone id q later s c o g
Settled id q later s c (error_answer e, (o, g)) = IsDone id q later s c o g

-- An owner of the route that has not ended it.
abbrev Owns : String → RouteOwnership → Type 0
Owns id o = (o.completion ≡ not_started) × (o.reservation.route_id ≡ id)

release_owned-Released :
    (id : String) (o : RouteOwnership) (g : Gateway)
    → o.reservation.route_id ≡ id
    → Released id (release_owned o g)
unfolding release_owned release
release_owned-Released id o g same = simp (same, get-pop, eq_refl)

IsDone-IsHandedOver :
    (id : String) (q : Passage) (later : Gateway) (s : Option ℕ) (c : Option String)
    (o : RouteOwnership) (g : Gateway)
    → IsDone id q later s c o g
    → IsHandedOver id q later s c o g
unfolding advance_completion run_completion make_task
IsDone-IsHandedOver id q later s c o g (out, done, _) = simp done (inl (out, refl), refl, refl)

done_again :
    (q : Passage) (w : Wait) (later : Gateway) (o : RouteOwnership)
    → o.completion ≡ completed
    → (await_shielded q w (o, later)).1.1 ≡ later
unfolding await_shielded advance_completion run_completion
done_again q waits_out later o done = simp done refl
done_again q cancelled_at_once later o done = refl
done_again q cancelled_after_release later o done = simp done refl

done_complete :
    (q : Passage) (later : Gateway) (s : Option ℕ) (c : Option String) (o : RouteOwnership)
    → o.completion ≡ completed
    → (complete q s c o later).1.1 ≡ later
unfolding complete make_task
done_complete q later s c o done = done_again q q.wait later _ (simp done refl)

await_shielded-IsEnded :
    (id : String) (q : Passage) (later : Gateway) (s : Option ℕ) (c : Option String) (p : Passage)
    (w : Wait) (x : Option ℕ) (y : Option String) (o : RouteOwnership) (g : Gateway)
    → o.completion ≡ releasing x y
    → o.reservation.route_id ≡ id
    → IsEnded id q later s c (await_shielded p w (o, g))
unfolding await_shielded advance_completion run_completion finish_owned make_task
await_shielded-IsEnded id q later s c p waits_out x y o g made same =
    simp made (release_owned-Released id o g same, refl, done_complete q later s c _ refl)
await_shielded-IsEnded id q later s c p cancelled_at_once x y o g made same =
    simp made (inr (release_owned-Released id o later same), refl, refl)
await_shielded-IsEnded id q later s c p cancelled_after_release x y o g made same =
    simp made (inl (release_owned-Released id o g same, refl), refl, refl)

complete-IsEnded :
    (id : String) (q : Passage) (later : Gateway) (s : Option ℕ) (c : Option String) (p : Passage)
    (x : Option ℕ) (y : Option String) (o : RouteOwnership) (g : Gateway)
    → Owns id o
    → IsEnded id q later s c (complete p x y o g)
unfolding complete make_task
complete-IsEnded id q later s c p x y o g (fresh, same) =
    await_shielded-IsEnded id q later s c p p.wait x y _ g (simp fresh refl) same

-- An attempt's result that a completion precedes.
abbrev IsFinal : Result → Type 0
IsFinal (streaming code hs) = ⊥
IsFinal cancelled = Unit
IsFinal node_busy_retry = Unit
IsFinal not_connected = Unit
IsFinal (error_answer e) = Unit

end_with-Settled :
    (id : String) (q : Passage) (later : Gateway) (s : Option ℕ) (c : Option String) (p : Passage)
    (x : Option ℕ) (code : String) (r : Result) (o : RouteOwnership) (g : Gateway)
    → IsFinal r
    → Owns id o
    → Settled id q later s c (end_with p x code r (o, g))
unfolding end_with
end_with-Settled id q later s c p x code r o g final h =
    ended r (complete p x (some code) o g) final
      (complete-IsEnded id q later s c p x (some code) o g h)
  where
    ended :
        (t : Result) (e : Bool × (RouteOwnership × Gateway))
        → IsFinal t
        → IsEnded id q later s c e
        → Settled id q later s c (if e.0 then cancelled else t, e.1)
    ended t (true, (o', g')) f k = k
    ended (streaming code hs) (false, (o', g')) f k = elim f [ ]
    ended cancelled (false, (o', g')) f k = IsDone-IsHandedOver id q later s c o' g' k
    ended node_busy_retry (false, (o', g')) f k = k
    ended not_connected (false, (o', g')) f k = k
    ended (error_answer e) (false, (o', g')) f k = k

build_response-Settled :
    (id : String) (q : Passage) (later : Gateway) (s : Option ℕ) (c : Option String) (p : Passage)
    (u : UpstreamResponse) (decoded : Bool) (o : RouteOwnership) (g : Gateway)
    → Owns id o
    → Settled id q later s c (build_response p u decoded (o, g))
unfolding build_response
build_response-Settled id q later s c p u decoded o g h = elim (Bool-cases u.is_deliverable) [
  | inl e ↦ simp e h
  | inr e ↦ simp e (end_with-Settled id q later s c p _ _ _ o g tt h)
]

consume-Settled :
    (id : String) (q : Passage) (later : Gateway) (s : Option ℕ) (c : Option String) (p : Passage)
    (u : UpstreamResponse) (k : Consumption) (o : RouteOwnership) (g : Gateway)
    → Owns id o
    → Settled id q later s c (consume p u k (o, g))
unfolding consume
consume-Settled id q later s c p u consumption_cancelled o g h =
    end_with-Settled id q later s c p _ _ cancelled o g tt h
consume-Settled id q later s c p u consumption_failed o g h =
    end_with-Settled id q later s c p _ _ _ o g tt h
consume-Settled id q later s c p u consumed o g h =
    build_response-Settled id q later s c p u true o g h
consume-Settled id q later s c p u streamed o g h =
    build_response-Settled id q later s c p u false o g h

mark_admitted-id : (now : ℕ) (r : Reservation) → (mark_admitted now r).route_id ≡ r.route_id
unfolding mark_admitted
mark_admitted-id now r = elim (Bool-cases (is_none r.admitted_at)) [
  | inl e ↦ simp e refl
  | inr e ↦ simp e refl
]

send-Settled :
    (id : String) (q : Passage) (later : Gateway) (s : Option ℕ) (c : Option String) (p : Passage)
    (x : Sending) (o : RouteOwnership) (g : Gateway)
    → Owns id o
    → Settled id q later s c (send p x (o, g))
unfolding send
send-Settled id q later s c p build_failed o g h = end_with-Settled id q later s c p _ _ _ o g tt h
send-Settled id q later s c p send_cancelled o g h =
    end_with-Settled id q later s c p _ _ cancelled o g tt h
send-Settled id q later s c p connect_failed o g h =
    end_with-Settled id q later s c p _ _ not_connected o g tt h
send-Settled id q later s c p http_error o g h = end_with-Settled id q later s c p _ _ _ o g tt h
send-Settled id q later s c p send_error o g h = end_with-Settled id q later s c p _ _ _ o g tt h
send-Settled id q later s c p (responded u) o g (fresh, same) =
    elim (Bool-cases (u.status_code == 429 && is_node_busy u)) [
      | inl e ↦ simp e (end_with-Settled id q later s c p _ _ node_busy_retry o g tt (fresh, same))
      | inr e ↦ simp e (
          unfold admit_owned in
          (consume-Settled id q later s c p u u.consumption _ _
            (fresh, mark_admitted-id p.admitted_at o.reservation ∙ same)))
    ]

-- When an attempt returns an answer or a retry, its completion is done, its route is no longer
-- reserved and a later completion changes nothing. When it is cancelled, also while it waits for
-- the completion, the completion task has the route: the reservation is released and the task
-- leaves the scheduler alone to its end, or its next step releases it, whatever other tasks do
-- meanwhile; a further completion makes no other task, and the task ends in two steps. When it
-- returns a streaming response, that response owns the route, whose completion has not begun.
pub attempt-Settled :
    (newest_first : List RouteRecord → List RouteRecord) (p : Passage) (r : Reservation)
    (endpoint : String) (g : Gateway) (q : Passage) (later : Gateway) (s : Option ℕ)
    (c : Option String)
    → Settled r.route_id q later s c (attempt newest_first p r endpoint g)
unfolding attempt begin_route
attempt-Settled nf p r endpoint g q later s c = elim (Bool-cases p.start_cancelled) [
  | inl e ↦ simp e (end_with-Settled r.route_id q later s c p _ _ cancelled _ _ tt (refl, refl))
  | inr e ↦ simp e (send-Settled r.route_id q later s c p p.sending _ _ (refl, refl))
]

note_failure-Owns :
    (id code : String) (o : RouteOwnership) → Owns id o → Owns id (note_stream_failure code o)
unfolding note_stream_failure
note_failure-Owns id code o h = elim (Bool-cases (is_none o.stream_failure_code)) [
  | inl e ↦ simp e h
  | inr e ↦ simp e h
]

note_body-Owns :
    (id : String) (b : BodyEnd) (o : RouteOwnership) → Owns id o → Owns id (note_body b o)
unfolding note_body
note_body-Owns id body_done o h = h
note_body-Owns id body_cancelled o h = note_failure-Owns id "client_cancelled" o h
note_body-Owns id body_failed o h = note_failure-Owns id "upstream_stream_error" o h

note_delivery-Owns :
    (id : String) (d : Delivered) (o : RouteOwnership) → Owns id o → Owns id (note_delivery d o)
unfolding note_delivery
note_delivery-Owns id sent o h = h
note_delivery-Owns id delivery_cancelled o h = note_failure-Owns id "client_cancelled" o h
note_delivery-Owns id delivery_failed o h = note_failure-Owns id "stream_delivery_error" o h

-- If the completion of a route has not begun when its streaming response is delivered, then
-- however the delivery ends, and also where it is cancelled while it waits for the completion, the
-- completion is done and the route no longer reserved, or the completion task has the route: the
-- reservation is released and the task leaves the scheduler alone to its end, or its next step
-- releases it; a further completion makes no other task, and the task ends in two steps.
pub deliver_releases :
    (p q : Passage) (status_code : ℕ) (body : BodyEnd) (delivered : Delivered) (o : RouteOwnership)
    (g later : Gateway) (s : Option ℕ) (c : Option String)
    → o.completion ≡ not_started
    → IsEnded o.reservation.route_id q later s c (deliver p status_code body delivered (o, g))
unfolding deliver
deliver_releases p q status_code body delivered o g later s c fresh =
    complete-IsEnded o.reservation.route_id q later s c p _ _ _ g (
      note_delivery-Owns o.reservation.route_id delivered _
        (note_body-Owns o.reservation.route_id body o (fresh, refl)))
