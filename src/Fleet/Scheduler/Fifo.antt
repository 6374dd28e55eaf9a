-- ===== src/Fleet/Scheduler/Fifo.antt =====
-- fleet/src/mnemosyne_fleet/scheduler.py: the queue of a model is bounded, and served in order.
use mnemosyne_inference.Prelude.{
  ℕ, ◌≤◌, String, ◌≡◌, ◌≢◌, refl, sym, ap, ◌∙◌, Option, none, some, List, [], ◌∷◌, inl, inr, arith,
  leb, ◌==◌, length, length-append, Bool-cases,
}
use mnemosyne_inference.Prelude.Dict.{get, get-put_self, has}
use mnemosyne_inference.Fleet.Config.{ModelConfig}
use mnemosyne_inference.Fleet.Registry.{NodeRecord}
use mnemosyne_inference.Fleet.Scheduler.Types.{Candidate, Reservation, Ticket, Scheduler, queue_of}
use mnemosyne_inference.Fleet.Scheduler.Select.{select}
use mnemosyne_inference.Fleet.Scheduler.Queue.{
  reserved, Request, reserve, set_queue, enqueue, acquire_found, acquire_queued, acquire_model,
  acquire, expire, wait_or_leave, round_found, round_queue, round,
}

queue_of-set :
    (name : String) (ts : List Ticket) (s : Scheduler) → queue_of name (set_queue name ts s) ≡ ts
unfolding queue_of set_queue
queue_of-set name ts s = rw get-put_self

queue_of-reserve :
    (name route_id : String) (c : Candidate) (q : Request) (now : ℕ) (s : Scheduler)
    → queue_of name (reserve route_id c q now s).0 ≡ queue_of name s
unfolding queue_of reserve
queue_of-reserve name route_id c q now s = refl

wait_or_leave-ne-reserved :
    (ticket : ℕ) (q : Request) (now : ℕ) (s : Scheduler) (r : Reservation)
    → (wait_or_leave ticket q now s).1 ≢ reserved r
unfolding wait_or_leave expire
wait_or_leave-ne-reserved ticket q now s r = ground arith

round_found_serves :
    (ticket : ℕ) (route_id : String) (q : Request) (now : ℕ) (rest : List Ticket)
    (o : Option Candidate) (s : Scheduler) (r : Reservation)
    → (round_found ticket route_id q now rest o s).1 ≡ reserved r
    → queue_of q.model.name (round_found ticket route_id q now rest o s).0 ≡ rest
unfolding round_found
round_found_serves ticket route_id q now rest none s r h =
    absurd (wait_or_leave-ne-reserved ticket q now s r h)
round_found_serves ticket route_id q now rest (some c) s r h =
    queue_of-reserve q.model.name route_id c q now _ ∙ queue_of-set q.model.name rest s

round_queue_serves :
    (ticket : ℕ) (route_id : String) (q : Request) (now : ℕ) (live : List NodeRecord)
    (ts : List Ticket) (s : Scheduler) (r : Reservation)
    → (round_queue ticket route_id q now live ts s).1 ≡ reserved r
    → (t : Ticket) × (t.ticket_id ≡ ticket)
      × (ts ≡ t ∷ queue_of q.model.name (round_queue ticket route_id q now live ts s).0)
unfolding round_queue
round_queue_serves ticket route_id q now live [] s r h =
    absurd (wait_or_leave-ne-reserved ticket q now s r h)
round_queue_serves ticket route_id q now live (t ∷ ts) s r h =
    elim (Bool-cases (t.ticket_id == ticket)) [
      | inl mine ↦
          let o = select s q.model q.capability q.excluded_nodes live in
          let kept = round_found_serves ticket route_id q now ts o s r (simp mine at h) in
          (t, ground arith, simp mine (ap (λ l. t ∷ l) (sym kept)))
      | inr other ↦ absurd (wait_or_leave-ne-reserved ticket q now s r (simp other at h))
    ]

-- A waiting request is given a node only at the head of its model's queue, which it then leaves;
-- all others keep their places.
pub round_serves_head :
    (ticket : ℕ) (route_id : String) (q : Request) (now : ℕ) (live : List NodeRecord)
    (s : Scheduler) (r : Reservation)
    → (round ticket route_id q now live s).1 ≡ reserved r
    → (t : Ticket) × (t.ticket_id ≡ ticket)
      × (queue_of q.model.name s ≡ t ∷ queue_of q.model.name (round ticket route_id q now live s).0)
unfolding round
round_serves_head ticket route_id q now live s r h =
    round_queue_serves ticket route_id q now live (queue_of q.model.name s) s r h

enqueue-ne-reserved :
    (ticket : ℕ) (q : Request) (s : Scheduler) (r : Reservation)
    → (enqueue ticket q s).1 ≢ reserved r
unfolding enqueue
enqueue-ne-reserved ticket q s r = ground arith

enqueue_fits :
    (ticket : ℕ) (q : Request) (s : Scheduler)
    → length (queue_of q.model.name s) ≤ q.model.queue_depth
    → length (queue_of q.model.name (enqueue ticket q s).0) ≤ q.model.queue_depth
unfolding enqueue
enqueue_fits ticket q s h =
    elim (Bool-cases (leb q.model.queue_depth (length (queue_of q.model.name s)))) [
      | inl full ↦ rw full h
      | inr room ↦ rw room (rw queue_of-set (rw length-append (ground arith)))
    ]

acquire_queued_fits :
    (ticket : ℕ) (route_id : String) (q : Request) (live : List NodeRecord) (ts : List Ticket)
    (s : Scheduler)
    → length (queue_of q.model.name s) ≤ q.model.queue_depth
    → length (queue_of q.model.name (acquire_queued ticket route_id q live ts s).0)
      ≤ q.model.queue_depth
unfolding acquire_queued
acquire_queued_fits ticket route_id q live (t ∷ ts) s h = enqueue_fits ticket q s h
acquire_queued_fits ticket route_id q live [] s h =
    by_candidate (select s q.model q.capability q.excluded_nodes live)
  where
    by_candidate :
        (o : Option Candidate)
        → length (queue_of q.model.name (acquire_found ticket route_id q o s).0)
          ≤ q.model.queue_depth
    by_candidate none = unfold acquire_found in enqueue_fits ticket q s h
    by_candidate (some c) = unfold acquire_found in (rw queue_of-reserve h)

-- A new request for a model whose queue is within the configured depth leaves that queue within
-- it.
pub acquire_fits :
    (ticket : ℕ) (route_id name capability : String) (excluded : List String) (started : ℕ)
    (live : List NodeRecord) (s : Scheduler) (m : ModelConfig)
    → get name s.models ≡ some m
    → length (queue_of m.name s) ≤ m.queue_depth
    → length (queue_of m.name (acquire ticket route_id name capability excluded started live s).0)
      ≤ m.queue_depth
unfolding acquire
acquire_fits ticket route_id name capability excluded started live s m found fits = rw found (
    unfold acquire_model in
    (elim (Bool-cases (has capability m.capabilities)) [
      | inl can ↦ rw can (acquire_queued_fits ticket route_id _ live (queue_of m.name s) s fits)
      | inr cannot ↦ rw cannot fits
    ]))

-- A new request is not given a node while another request for its model is queued.
pub acquire_waits :
    (ticket : ℕ) (route_id name capability : String) (excluded : List String) (started : ℕ)
    (live : List NodeRecord) (s : Scheduler) (m : ModelConfig) (t : Ticket) (ts : List Ticket)
    (r : Reservation)
    → get name s.models ≡ some m
    → queue_of m.name s ≡ t ∷ ts
    → (acquire ticket route_id name capability excluded started live s).1 ≢ reserved r
unfolding acquire
acquire_waits ticket route_id name capability excluded started live s m t ts r found queued =
    rw found (
      unfold acquire_model in
      (elim (Bool-cases (has capability m.capabilities)) [
        | inl can ↦ rw (can, queued) (unfold acquire_queued in enqueue-ne-reserved ticket _ s r)
        | inr cannot ↦ rw cannot (ground arith)
      ]))
