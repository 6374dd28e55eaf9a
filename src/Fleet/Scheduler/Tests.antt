-- ===== src/Fleet/Scheduler/Tests.antt =====
-- fleet/src/mnemosyne_fleet/scheduler.py: requests at concrete inputs, and the theorems applied to them.
use mnemosyne_inference.Prelude.{
  ◌+◌, ◌≤◌, String, ◌≡◌, ◌≢◌, refl, arith, true, false, Option, none, some, List, [], ◌∷◌, length,
  any_of, all_of, All, str_eq, if◌then◌else◌,
}
use mnemosyne_inference.Prelude.Dict.{get, put, pop, has}
use mnemosyne_inference.Prelude.Text.{codes_lt}
use mnemosyne_inference.Fleet.Protocol.Samples.{ready_snapshot, node, model, deployment}
use mnemosyne_inference.Fleet.Protocol.Tests.{sample_IsConsistent}
use mnemosyne_inference.Fleet.Registry.{NodeRecord}
use mnemosyne_inference.Fleet.Scheduler.Types.{
  Candidate, Reservation, Ticket, Scheduler, queue_of, last_selected_of,
}
use mnemosyne_inference.Fleet.Scheduler.Select.{
  is_pending, is_unaccounted, count_unaccounted, same_set, is_strict, is_routable,
  candidate_deployment, is_schedulable, advertised, tier_of, weight_of, candidate,
  consider_deployment, consider, candidates, before, least, least_of, select,
}
use mnemosyne_inference.Fleet.Scheduler.Queue.{
  reserved, Request, reservation_of, reserve, set_queue, enqueue, acquire_found, acquire_queued,
  acquire_model, acquire, without_ticket, leave, expire, wait_or_leave, round_found, round_queue,
  round, release, mark_admitted,
}
use mnemosyne_inference.Prelude.Distinct.{In}
use mnemosyne_inference.Fleet.Scheduler.Selection.{IsEligible, select_sound}
use mnemosyne_inference.Fleet.Scheduler.Barred.{IsBarred, select_complete}
use mnemosyne_inference.Fleet.Scheduler.Permits.{reserve_within, release_lem}
use mnemosyne_inference.Fleet.Scheduler.Fairness.{IsCounted, reserve_rotates}
use mnemosyne_inference.Fleet.Scheduler.Fifo.{round_serves_head, acquire_fits, acquire_waits}

abbrev empty : Scheduler
empty = record {
  models = ("public", model) ∷ [];
  nodes = ("n1", node "n1") ∷ ("n2", node "n2") ∷ [];
  queues = [];
  reservations = [];
  selection_counter = 0;
  last_selected = [];
}

abbrev live_node : String → NodeRecord
live_node i = record {
  enrollment = node i;
  snapshot = ready_snapshot i "i1" 5;
  received_at = 0;
  received_monotonic = 2;
  poll_started_monotonic = 1;
}

abbrev live : List NodeRecord
live = live_node "n1" ∷ live_node "n2" ∷ []

abbrev chosen : String → Candidate
chosen i = record {
  node = live_node i;
  deployment = deployment;
  tier = 1;
  outstanding = 0;
  weight = 2_000_000_000;
}

abbrev request : Request
request = record {
  model = model;
  capability = "chat/completions";
  excluded_nodes = [];
  started = 10;
}

-- Evaluates a selection, and a scheduler's steps.
selects : Scheduler → Option Candidate
unfolding any_of all_of get put pop has codes_lt last_selected_of is_pending is_unaccounted
    count_unaccounted same_set is_strict is_routable candidate_deployment is_schedulable advertised
    tier_of weight_of candidate consider_deployment consider candidates before least least_of select
selects s = select s model "chat/completions" [] live

steps : Scheduler → Scheduler
unfolding selects queue_of reservation_of reserve set_queue enqueue acquire_found acquire_queued
    acquire_model acquire without_ticket leave expire wait_or_leave round_found round_queue round
    release mark_admitted
steps s = s

select_runs : select empty model "chat/completions" [] live ≡ some (chosen "n1")
unfolding selects
select_runs = refl

-- The nodes are equal: the next request goes to the other one.
rotation_runs :
    select (reserve "r1" (chosen "n1") request 10 empty).0 model "chat/completions" [] live
    ≡ some (chosen "n2")
unfolding selects steps
rotation_runs = refl

select_sound_example :
    In (live_node "n1") live
    × IsEligible empty model "chat/completions" [] (chosen "n1")
    × All (λ d. 1 ≤ d.tier) (candidates empty model "chat/completions" [] live)
select_sound_example = select_sound empty model "chat/completions" [] live (chosen "n1") select_runs

none_runs : select empty model "embeddings" [] live ≡ none
unfolding selects
none_runs = refl

select_complete_example : All (IsBarred empty model "embeddings" []) live
select_complete_example = select_complete empty model "embeddings" [] live none_runs

fresh_route : get "r1" empty.reservations ≡ none
unfolding get
fresh_route = refl

reserve_within_example :
    (chosen "n1").node.snapshot.capacity.active
      + count_unaccounted
          (chosen "n1").node
          (reserve "r1" (chosen "n1") request 10 empty).0.reservations
    ≤ (chosen "n1").node.snapshot.capacity.effective_limit
reserve_within_example =
    reserve_within empty request live (chosen "n1") "r1" 10 select_runs refl sample_IsConsistent
      fresh_route

release_lem_example :
    (get "r1" (release "r1" empty).reservations
      ≡ (if str_eq "r1" "r1" then none else get "r1" empty.reservations))
    × (get "r1" (release "r1" (release "r1" empty)).reservations
        ≡ get "r1" (release "r1" empty).reservations)
release_lem_example = release_lem "r1" "r1" empty

empty-IsCounted : IsCounted empty
unfolding last_selected_of get
empty-IsCounted = record { at = λ k. omega arith }

names_differ : str_eq "n1" "n2" ≡ false
names_differ = refl

reserve_rotates_example :
    before (reserve "r1" (chosen "n1") request 10 empty).0 (chosen "n2") (chosen "n1") ≡ true
reserve_rotates_example =
    reserve_rotates "r1" (chosen "n1") request 10 empty (chosen "n2") (chosen "n1") empty-IsCounted
      refl names_differ refl refl

abbrev queued : Scheduler
queued = (acquire 7 "r0" "public" "chat/completions" [] 10 [] empty).0

abbrev served : Reservation
served = reservation_of "r1" (chosen "n1") request 12

served_runs : (round 7 "r1" request 12 live queued).1 ≡ reserved served
unfolding selects steps
served_runs = refl

round_serves_head_example :
    (t : Ticket) × (t.ticket_id ≡ 7)
    × (queue_of model.name queued ≡ t ∷ queue_of model.name (round 7 "r1" request 12 live queued).0)
round_serves_head_example = round_serves_head 7 "r1" request 12 live queued served served_runs

model_found : get "public" empty.models ≡ some model
unfolding selects
model_found = refl

empty_fits : length (queue_of model.name empty) ≤ model.queue_depth
unfolding selects steps
empty_fits = omega arith

acquire_fits_example :
    length (queue_of model.name (acquire 7 "r0" "public" "chat/completions" [] 10 [] empty).0)
    ≤ model.queue_depth
acquire_fits_example =
    acquire_fits 7 "r0" "public" "chat/completions" [] 10 [] empty model model_found empty_fits

abbrev ticket : Ticket
ticket = record {
  ticket_id = 7;
  capability = "chat/completions";
  enqueued_at = 10;
  excluded_nodes = [];
}

queued_model : get "public" queued.models ≡ some model
unfolding selects steps
queued_model = refl

queued_ticket : queue_of model.name queued ≡ ticket ∷ []
unfolding selects steps
queued_ticket = refl

acquire_waits_example :
    (acquire 8 "r1" "public" "chat/completions" [] 11 live queued).1 ≢ reserved served
acquire_waits_example =
    acquire_waits 8 "r1" "public" "chat/completions" [] 11 live queued model ticket [] served
      queued_model queued_ticket
