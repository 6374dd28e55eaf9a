-- ===== src/Fleet/Proxy/Exclusion.antt =====
-- fleet/src/mnemosyne_fleet/proxy.py, scheduler.py: `acquire` with excluded nodes, as `handle` calls
-- it.
use mnemosyne_inference.Prelude.{
  ℕ, String, ◌≡◌, refl, false, Option, none, some, List, [], ◌∷◌, inl, inr, Bool-cases, leb, length,
  ◌==◌, ◌+◌,
}
use mnemosyne_inference.Prelude.Dict.{get, has}
use mnemosyne_inference.Fleet.Config.{ModelConfig}
use mnemosyne_inference.Fleet.Registry.{NodeRecord}
use mnemosyne_inference.Fleet.Scheduler.Types.{Candidate, Ticket, Scheduler, queue_of}
use mnemosyne_inference.Fleet.Scheduler.Select.{select}
use mnemosyne_inference.Fleet.Scheduler.Selection.{select_sound}
use mnemosyne_inference.Fleet.Scheduler.Queue.{
  Reply, reserved, failed, waiting, Request, reservation_of, reserve, enqueue, acquire_found,
  acquire_queued, acquire_model, acquire, expire, wait_or_leave, round_found, round_queue, round,
}
use mnemosyne_inference.Fleet.Proxy.Handle.{
  Round, Turn, resume, wake, more_rounds, wait_rounds, wait_model, acquire_turn,
}

-- The reservations of a reply are on nodes that are not excluded.
abbrev pub Avoids : List String → Reply → Type 0
Avoids excluded (reserved r) = has r.node_id excluded ≡ false
Avoids excluded (failed e) = Unit
Avoids excluded waiting = Unit

enqueue-Avoids :
    (ticket : ℕ) (q : Request) (s : Scheduler) → Avoids q.excluded_nodes (enqueue ticket q s).1
unfolding enqueue
enqueue-Avoids ticket q s =
    elim (Bool-cases (leb q.model.queue_depth (length (queue_of q.model.name s)))) [
      | inl e ↦ rw e tt
      | inr e ↦ rw e tt
    ]

wait_or_leave-Avoids :
    (ticket : ℕ) (q : Request) (now : ℕ) (s : Scheduler)
    → Avoids q.excluded_nodes (wait_or_leave ticket q now s).1
unfolding wait_or_leave expire
wait_or_leave-Avoids ticket q now s =
    elim (Bool-cases (leb (q.started + q.model.queue_timeout) now)) [
      | inl e ↦ rw e tt
      | inr e ↦ rw e tt
    ]

acquire_found-Avoids :
    (ticket : ℕ) (route_id : String) (q : Request) (live : List NodeRecord) (o : Option Candidate)
    (s : Scheduler)
    → select s q.model q.capability q.excluded_nodes live ≡ o
    → Avoids q.excluded_nodes (acquire_found ticket route_id q o s).1
unfolding acquire_found reserve reservation_of
acquire_found-Avoids ticket route_id q live none s h = enqueue-Avoids ticket q s
acquire_found-Avoids ticket route_id q live (some c) s h =
    let (there, eligible, low) = select_sound s q.model q.capability q.excluded_nodes live c h in
    eligible.not_excluded

round_found-Avoids :
    (ticket : ℕ) (route_id : String) (q : Request) (now : ℕ) (live : List NodeRecord)
    (rest : List Ticket) (o : Option Candidate) (s : Scheduler)
    → select s q.model q.capability q.excluded_nodes live ≡ o
    → Avoids q.excluded_nodes (round_found ticket route_id q now rest o s).1
unfolding round_found reserve reservation_of
round_found-Avoids ticket route_id q now live rest none s h = wait_or_leave-Avoids ticket q now s
round_found-Avoids ticket route_id q now live rest (some c) s h =
    let (there, eligible, low) = select_sound s q.model q.capability q.excluded_nodes live c h in
    eligible.not_excluded

round_queue-Avoids :
    (ticket : ℕ) (route_id : String) (q : Request) (now : ℕ) (live : List NodeRecord)
    (ts : List Ticket) (s : Scheduler)
    → Avoids q.excluded_nodes (round_queue ticket route_id q now live ts s).1
unfolding round_queue
round_queue-Avoids ticket route_id q now live [] s = wait_or_leave-Avoids ticket q now s
round_queue-Avoids ticket route_id q now live (t ∷ ts) s =
    elim (Bool-cases (t.ticket_id == ticket)) [
      | inl e ↦ simp e (round_found-Avoids ticket route_id q now live ts _ s refl)
      | inr e ↦ simp e (wait_or_leave-Avoids ticket q now s)
    ]

acquire_queued-Avoids :
    (ticket : ℕ) (route_id : String) (q : Request) (live : List NodeRecord) (ts : List Ticket)
    (s : Scheduler)
    → Avoids q.excluded_nodes (acquire_queued ticket route_id q live ts s).1
unfolding acquire_queued
acquire_queued-Avoids ticket route_id q live [] s =
    acquire_found-Avoids ticket route_id q live _ s refl
acquire_queued-Avoids ticket route_id q live (t ∷ ts) s = enqueue-Avoids ticket q s

acquire_model-Avoids :
    (ticket : ℕ) (route_id capability : String) (excluded : List String) (started : ℕ)
    (live : List NodeRecord) (o : Option ModelConfig) (s : Scheduler)
    → Avoids excluded (acquire_model ticket route_id capability excluded started live o s).1
unfolding acquire_model
acquire_model-Avoids ticket route_id capability excluded started live none s = tt
acquire_model-Avoids ticket route_id capability excluded started live (some m) s =
    elim (Bool-cases (has capability m.capabilities)) [
      | inl e ↦ simp e (acquire_queued-Avoids ticket route_id _ live (queue_of m.name s) s)
      | inr e ↦ simp e tt
    ]

resume-Avoids :
    (excluded : List String) (wait : Scheduler → Scheduler × Reply) (sr : Scheduler × Reply)
    → ((s : Scheduler) → Avoids excluded (wait s).1)
    → Avoids excluded sr.1
    → Avoids excluded (resume wait sr).1
unfolding resume
resume-Avoids excluded wait (s, reserved x) ih h = h
resume-Avoids excluded wait (s, failed e) ih h = h
resume-Avoids excluded wait (s, waiting) ih h = ih s

round-Avoids :
    (ticket : ℕ) (route_id : String) (q : Request) (r : Round)
    → Avoids q.excluded_nodes (round ticket route_id q r.now r.live r.scheduler).1
unfolding round
round-Avoids ticket route_id q r = round_queue-Avoids ticket route_id q r.now r.live _ r.scheduler

wake-Avoids :
    (ticket : ℕ) (route_id : String) (q : Request) (r : Round)
    → Avoids q.excluded_nodes (wake ticket route_id q r).1
unfolding wake expire
wake-Avoids ticket route_id q r = elim (Bool-cases r.timed_out) [
  | inl e ↦ simp e tt
  | inr e ↦ simp e (round-Avoids ticket route_id q r)
]

more_rounds-Avoids :
    (ticket : ℕ) (route_id : String) (q : Request) (rs : List Round) (s : Scheduler)
    → Avoids q.excluded_nodes (more_rounds ticket route_id q rs s).1
unfolding more_rounds
more_rounds-Avoids ticket route_id q [] s = tt
more_rounds-Avoids ticket route_id q (r ∷ rs) s =
    resume-Avoids q.excluded_nodes _ _ (λ s'. more_rounds-Avoids ticket route_id q rs s')
      (wake-Avoids ticket route_id q r)

wait_rounds-Avoids :
    (ticket : ℕ) (route_id : String) (q : Request) (rs : List Round) (s : Scheduler)
    → Avoids q.excluded_nodes (wait_rounds ticket route_id q rs s).1
unfolding wait_rounds
wait_rounds-Avoids ticket route_id q [] s = tt
wait_rounds-Avoids ticket route_id q (r ∷ rs) s =
    resume-Avoids q.excluded_nodes _ _ (λ s'. more_rounds-Avoids ticket route_id q rs s')
      (round-Avoids ticket route_id q r)

wait_model-Avoids :
    (t : Turn) (capability : String) (excluded : List String) (m : Option ModelConfig)
    (sr : Scheduler × Reply)
    → Avoids excluded sr.1
    → Avoids excluded (wait_model t capability excluded m sr).1
unfolding wait_model
wait_model-Avoids t capability excluded (some m) (s, waiting) h =
    wait_rounds-Avoids t.ticket t.route_id _ t.rounds s
wait_model-Avoids t capability excluded none (s, waiting) h = tt
wait_model-Avoids t capability excluded none (s, reserved r) h = h
wait_model-Avoids t capability excluded (some m) (s, reserved r) h = h
wait_model-Avoids t capability excluded none (s, failed e) h = h
wait_model-Avoids t capability excluded (some m) (s, failed e) h = h

pub acquire_turn-Avoids :
    (t : Turn) (public_model capability : String) (excluded : List String)
    → Avoids excluded (acquire_turn t public_model capability excluded).1
unfolding acquire_turn acquire
acquire_turn-Avoids t public_model capability excluded =
    wait_model-Avoids t capability excluded (get public_model t.scheduler.models) _
      (acquire_model-Avoids t.ticket t.route_id capability excluded t.started t.live _ t.scheduler)
