-- ===== src/Fleet/Proxy/Types.antt =====
-- fleet/src/mnemosyne_fleet/proxy.py: the answers, the owner of a route, and what an attempt meets
-- outside the gateway.
use mnemosyne_inference.Prelude.{ℕ, String, Bool, Option, List}
use mnemosyne_inference.Fleet.Scheduler.Types.{Reservation, Scheduler}
use mnemosyne_inference.Fleet.Store.{FleetStore}

-- `error_response`, without its message.
pub record ErrorResponse : Type 0 where
  pub status_code : ℕ
  pub code : String
  pub retry_after : Option ℕ

abbrev pub Headers : Type 0
Headers = List (String × String)

-- The headers are those of httpx: keys in lower case, each once. The body may be in memory already, or the test of it raises.
pub data Consumption : Type 0 where
  consumed streamed consumption_cancelled consumption_failed : Consumption

pub record UpstreamResponse : Type 0 where
  pub status_code : ℕ
  pub headers : Headers
  pub consumption : Consumption
  -- The construction of the streaming response does not raise.
  pub is_deliverable : Bool

-- How `build_request` and `send` end.
pub data Sending : Type 0 where
  build_failed send_cancelled connect_failed http_error send_error : Sending
  responded : UpstreamResponse → Sending

-- The scheduler and the store that all requests share.
pub record Gateway : Type 0 where
  pub scheduler : Scheduler
  pub store : FleetStore

-- The completion task of a route, with its codes: it releases the reservation, then finishes the row.
pub data Completion : Type 0 where
  not_started completed : Completion
  releasing finishing : (status_code : Option ℕ) → (failure_code : Option String) → Completion

-- `_RouteOwnership`
pub record RouteOwnership : Type 0 where
  pub reservation : Reservation
  pub route_started : Bool
  pub completion : Completion
  pub stream_failure_code : Option String

-- What `_attempt` returns; `not_connected` is its `None`, and `cancelled` the `CancelledError`.
pub data Result : Type 0 where
  node_busy_retry not_connected cancelled : Result
  error_answer : ErrorResponse → Result
  streaming : (status_code : ℕ) → Headers → Result
