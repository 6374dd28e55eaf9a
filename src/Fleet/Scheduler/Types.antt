-- ===== src/Fleet/Scheduler/Types.antt =====
-- fleet/src/mnemosyne_fleet/scheduler.py: candidates, reservations, tickets and the scheduler.
use mnemosyne_inference.Prelude.{ℕ, String, Option, List, none, some, []}
use mnemosyne_inference.Prelude.Dict.{Dict, get}
use mnemosyne_inference.Fleet.Config.{NodeConfig, ModelConfig}
use mnemosyne_inference.Fleet.Protocol.Types.{Deployment}
use mnemosyne_inference.Fleet.Registry.{NodeRecord}

-- `load_score` is the fraction `outstanding / weight`, the weight in units of 10⁻⁹.
pub record Candidate : Type 0 where
  pub node : NodeRecord
  pub deployment : Deployment
  pub tier : ℕ
  pub outstanding : ℕ
  pub weight : ℕ

pub record Reservation : Type 0 where
  pub route_id : String
  pub public_model : String
  pub capability : String
  pub node_id : String
  pub instance_id : String
  pub deployment_id : String
  pub local_alias : String
  pub reserved_at : ℕ
  pub queue_ms : ℕ
  pub admitted_at : Option ℕ

pub record Ticket : Type 0 where
  pub ticket_id : ℕ
  pub capability : String
  pub enqueued_at : ℕ
  pub excluded_nodes : List String

-- `models` and `nodes` do not change.
pub record Scheduler : Type 0 where
  pub models : Dict ModelConfig
  pub nodes : Dict NodeConfig
  pub queues : Dict (List Ticket)
  pub reservations : Dict Reservation
  pub selection_counter : ℕ
  pub last_selected : Dict ℕ

abbrev pub or_zero : Option ℕ → ℕ
or_zero none = 0
or_zero (some n) = n

abbrev pub or_no_tickets : Option (List Ticket) → List Ticket
or_no_tickets none = []
or_no_tickets (some q) = q

-- `self._queues[name]`, `self._last_selected[node_id]`: default dictionaries.
unfoldable pub queue_of : String → Scheduler → List Ticket
queue_of name s = or_no_tickets (get name s.queues)

unfoldable pub last_selected_of : String → Scheduler → ℕ
last_selected_of node_id s = or_zero (get node_id s.last_selected)
