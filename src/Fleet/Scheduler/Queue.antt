-- ===== src/Fleet/Scheduler/Queue.antt =====
-- fleet/src/mnemosyne_fleet/scheduler.py: `acquire`, cut where it waits, `_reserve`, `release` and
-- `Reservation.mark_admitted`. Fresh ids (`uuid4`) come as arguments.
use mnemosyne_inference.Prelude.{
  ℕ, ◌+◌, ◌-◌, String, Option, none, some, List, [], ◌∷◌, ◌++◌, leb, ◌==◌, is_none, length,
  if◌then◌else◌,
}
use mnemosyne_inference.Prelude.Dict.{get, put, pop, has}
use mnemosyne_inference.Fleet.Config.{ModelConfig}
use mnemosyne_inference.Fleet.Registry.{NodeRecord}
use mnemosyne_inference.Fleet.Scheduler.Types.{Candidate, Reservation, Ticket, Scheduler, queue_of}
use mnemosyne_inference.Fleet.Scheduler.Select.{select}

pub data AcquireError : Type 0 where
  unknown_model capability_error fleet_queue_full fleet_queue_timeout : AcquireError

pub data Reply : Type 0 where
  reserved : Reservation → Reply
  failed : AcquireError → Reply
  waiting : Reply

-- The arguments of one `acquire`, and the model that it names.
pub record Request : Type 0 where
  pub model : ModelConfig
  pub capability : String
  pub excluded_nodes : List String
  pub started : ℕ

unfoldable pub reservation_of : String → Candidate → Request → ℕ → Reservation
reservation_of route_id c q now = record {
  route_id = route_id;
  public_model = q.model.name;
  capability = q.capability;
  node_id = c.node.enrollment.node_id;
  instance_id = c.node.snapshot.node.instance_id;
  deployment_id = q.model.deployment_id;
  local_alias = c.deployment.alias;
  reserved_at = now;
  queue_ms = now - q.started;
  admitted_at = none;
}

unfoldable pub reserve : String → Candidate → Request → ℕ → Scheduler → Scheduler × Reply
reserve route_id c q now s =
    let r = reservation_of route_id c q now in
    (
      record s {
        reservations = put route_id r s.reservations;
        selection_counter = s.selection_counter + 1;
        last_selected = put c.node.enrollment.node_id (s.selection_counter + 1) s.last_selected;
      },
      reserved r,
    )

unfoldable pub set_queue : String → List Ticket → Scheduler → Scheduler
set_queue name q s = record s { queues = put name q s.queues }

unfoldable pub enqueue : ℕ → Request → Scheduler → Scheduler × Reply
enqueue ticket q s =
    if leb q.model.queue_depth (length (queue_of q.model.name s))
    then (s, failed fleet_queue_full)
    else (
      set_queue q.model.name
          (queue_of q.model.name s
            ++ record {
              ticket_id = ticket;
              capability = q.capability;
              enqueued_at = q.started;
              excluded_nodes = q.excluded_nodes;
            }
              ∷ [])
          s,
      waiting,
    )

-- With nobody queued: at once where a candidate is found.
unfoldable pub acquire_found :
    (ticket : ℕ) (route_id : String) → Request → Option Candidate → Scheduler → Scheduler × Reply
acquire_found ticket route_id q none s = enqueue ticket q s
acquire_found ticket route_id q (some c) s = reserve route_id c q q.started s

unfoldable pub acquire_queued :
    (ticket : ℕ) (route_id : String)
    → Request
    → List NodeRecord
    → List Ticket
    → Scheduler
    → Scheduler × Reply
acquire_queued ticket route_id q live [] s =
    acquire_found ticket route_id q (select s q.model q.capability q.excluded_nodes live) s
acquire_queued ticket route_id q live (t ∷ ts) s = enqueue ticket q s

unfoldable pub acquire_model :
    (ticket : ℕ) (route_id : String) (capability : String) (excluded : List String) (started : ℕ)
    → List NodeRecord
    → Option ModelConfig
    → Scheduler
    → Scheduler × Reply
acquire_model ticket route_id capability excluded started live none s = (s, failed unknown_model)
acquire_model ticket route_id capability excluded started live (some m) s =
    let q : Request = record {
      model = m;
      capability = capability;
      excluded_nodes = excluded;
      started = started;
    } in
    if has capability m.capabilities
    then acquire_queued ticket route_id q live (queue_of m.name s) s
    else (s, failed capability_error)

-- `acquire` up to its wait.
unfoldable pub acquire :
    (ticket : ℕ) (route_id public_model capability : String) (excluded : List String) (started : ℕ)
    → List NodeRecord
    → Scheduler
    → Scheduler × Reply
acquire ticket route_id public_model capability excluded started live s =
    acquire_model ticket route_id capability excluded started live (get public_model s.models) s

unfoldable pub without_ticket : ℕ → List Ticket → List Ticket
without_ticket t [] = []
without_ticket t (u ∷ us) =
    let rest = without_ticket t us in if u.ticket_id == t then us else u ∷ rest

-- The `finally` block: a ticket that is still queued leaves.
unfoldable pub leave : ℕ → Request → Scheduler → Scheduler
leave ticket q s = set_queue q.model.name (without_ticket ticket (queue_of q.model.name s)) s

-- The wait for a notification timed out: the loop ends without another attempt.
unfoldable pub expire : ℕ → Request → Scheduler → Scheduler × Reply
expire ticket q s = (leave ticket q s, failed fleet_queue_timeout)

-- Behind the attempt of a round: wait on, or give up when the deadline has passed.
unfoldable pub wait_or_leave : ℕ → Request → ℕ → Scheduler → Scheduler × Reply
wait_or_leave ticket q now s =
    if leb (q.started + q.model.queue_timeout) now then expire ticket q s else (s, waiting)

unfoldable pub round_found :
    (ticket : ℕ) (route_id : String)
    → Request
    → ℕ
    → List Ticket
    → Option Candidate
    → Scheduler
    → Scheduler × Reply
round_found ticket route_id q now rest none s = wait_or_leave ticket q now s
round_found ticket route_id q now rest (some c) s =
    reserve route_id c q now (set_queue q.model.name rest s)

unfoldable pub round_queue :
    (ticket : ℕ) (route_id : String)
    → Request
    → ℕ
    → List NodeRecord
    → List Ticket
    → Scheduler
    → Scheduler × Reply
round_queue ticket route_id q now live [] s = wait_or_leave ticket q now s
round_queue ticket route_id q now live (t ∷ ts) s =
    if t.ticket_id == ticket
    then round_found ticket route_id q now ts (select s q.model q.capability q.excluded_nodes live)
        s
    else wait_or_leave ticket q now s

-- One round of the loop of a waiting `acquire`.
unfoldable pub round :
    (ticket : ℕ) (route_id : String) → Request → ℕ → List NodeRecord → Scheduler → Scheduler × Reply
round ticket route_id q now live s =
    round_queue ticket route_id q now live (queue_of q.model.name s) s

unfoldable pub release : String → Scheduler → Scheduler
release route_id s = record s { reservations = pop route_id s.reservations }

-- The first upstream headers; a later call changes nothing.
unfoldable pub mark_admitted : ℕ → Reservation → Reservation
mark_admitted now r = if is_none r.admitted_at then record r { admitted_at = some now } else r
