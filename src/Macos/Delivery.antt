-- ===== src/Macos/Delivery.antt =====
-- macos/service/src/mnemosyne_macos/usage_delivery.py: the delivery of the outbox to the Postgres ledger,
-- as a transition system. `flush_once` is cut between its calls of the store and of the database; an
-- event names the section that runs next and what the database answers.
use mnemosyne_inference.Prelude.{
  zero, suc, ℕ, zero, suc, String, Bool, true, false, Option, none, some, List, [], ◌∷◌, ◌++◌, ◌||◌,
  str_eq, is_nil, length, if◌then◌else◌,
}
use mnemosyne_inference.Macos.Outbox.{
  UsageEvent, Row, UsageStore, record_batch, take, row_ids, peek_outbox, ack_outbox, prune_outbox,
}

-- A row of public.token_usage.
pub record LedgerRow : Type 0 where
  pub event_id : String
  pub timestamp : ℕ
  pub node_id : String
  pub model : String
  pub prompt_tokens : ℕ
  pub completion_tokens : ℕ
  pub total_tokens : ℕ
  pub response_ms : ℕ
  pub endpoint : String
  pub status_code : ℕ

-- Python's `or` between texts that may be None.
unfoldable pub or_text : Option String → String → String
or_text none other = other
or_text (some s) other = if str_eq s "" then other else s

-- `_params`
unfoldable pub params : (node_id : String) → Row → LedgerRow
params node r = record {
  event_id = r.event.event_id;
  timestamp = r.event.timestamp;
  node_id = node;
  model = or_text r.event.alias (or_text r.event.requested_model "unknown");
  prompt_tokens = r.event.prompt_tokens;
  completion_tokens = r.event.completion_tokens;
  total_tokens = r.event.total_tokens;
  response_ms = r.event.response_ms;
  endpoint = r.event.endpoint;
  status_code = r.event.status_code;
}

unfoldable pub in_ledger : String → List LedgerRow → Bool
in_ledger e [] = false
in_ledger e (l ∷ ls) = str_eq l.event_id e || in_ledger e ls

-- INSERT … ON CONFLICT (event_id) DO NOTHING
unfoldable pub insert_row : LedgerRow → List LedgerRow → List LedgerRow
insert_row l ledger = if in_ledger l.event_id ledger then ledger else ledger ++ l ∷ []

-- `executemany` on a connection that commits each statement.
unfoldable pub write_rows : (node_id : String) → List Row → List LedgerRow → List LedgerRow
write_rows node [] ledger = ledger
write_rows node (r ∷ rs) ledger = write_rows node rs (insert_row (params node r) ledger)

-- Where `flush_once` stands: it holds the flush lock unless it is at rest.
pub data Flush : Type 0 where
  at_rest : Flush
  peeked : List Row → Flush
  written : List Row → Flush

pub record UsageService : Type 0 where
  pub store : UsageStore
  pub enabled : Bool
  pub batch_size : ℕ
  pub max_outbox_rows : ℕ
  pub node_id : String
  pub has_writer : Bool
  pub ledger : List LedgerRow
  pub flush : Flush
  pub last_flush_count : ℕ

pub data Event : Type 0 where
  -- `record`: its two calls of the store
  save : UsageEvent → Event
  prune : Event
  -- `flush_once`: its three calls. The database may fail behind some rows, and the store may fail.
  begin_flush : Event
  write : (failed_behind : Option ℕ) → Event
  acknowledge : (stored : Bool) → Event
  -- the process ends and starts again
  crash : Event

unfoldable pub begin : UsageService → UsageService
begin s =
    let rows = peek_outbox s.batch_size s.store in
    if is_nil rows then record s { last_flush_count = 0 } else record s { flush = peeked rows }

unfoldable pub write_batch : Option ℕ → List Row → UsageService → UsageService
write_batch none rows s = record s {
  ledger = write_rows s.node_id rows s.ledger;
  flush = written rows;
}
write_batch (some n) rows s = record s {
  ledger = write_rows s.node_id (take n rows) s.ledger;
  flush = at_rest;
  last_flush_count = 0;
}

unfoldable pub finish_flush : Bool → List Row → UsageService → UsageService
finish_flush true rows s = record s {
  store = (ack_outbox (row_ids rows) s.store).0;
  flush = at_rest;
  last_flush_count = length rows;
}
finish_flush false rows s = record s { flush = at_rest; last_flush_count = 0 }

unfoldable pub begin_at : Flush → UsageService → UsageService
begin_at at_rest s = if s.has_writer then begin s else s
begin_at f s = s

unfoldable pub write_at : Option ℕ → Flush → UsageService → UsageService
write_at failed (peeked rows) s = write_batch failed rows s
write_at failed f s = s

unfoldable pub acknowledge_at : Bool → Flush → UsageService → UsageService
acknowledge_at stored (written rows) s = finish_flush stored rows s
acknowledge_at stored f s = s

unfoldable pub step : Event → UsageService → UsageService
step (save e) s = record s { store = (record_batch (e ∷ []) s.enabled s.store).0 }
step prune s =
    if s.enabled then record s { store = (prune_outbox s.max_outbox_rows s.store).0 } else s
step begin_flush s = begin_at s.flush s
step (write failed) s = write_at failed s.flush s
step (acknowledge stored) s = acknowledge_at stored s.flush s
step crash s = record s { flush = at_rest }

unfoldable pub run : List Event → UsageService → UsageService
run [] s = s
run (e ∷ es) s = run es (step e s)

-- A service whose process starts on an empty file, beside a ledger.
unfoldable pub open_service :
    (enabled has_writer : Bool)
    → (batch_size max_outbox_rows : ℕ) → (node_id : String) → List LedgerRow
    → UsageService
open_service enabled has_writer batch keep node ledger = record {
  store = record {
    request_usage = record { rows = []; next_id = 1 };
    pg_usage_outbox = record { rows = []; next_id = 1 };
  };
  enabled = enabled;
  batch_size = batch;
  max_outbox_rows = keep;
  node_id = node;
  has_writer = has_writer;
  ledger = ledger;
  flush = at_rest;
  last_flush_count = 0;
}

-- `flush_once` where nothing fails and nothing comes between its calls.
unfoldable pub flush_once : UsageService → UsageService
flush_once s = step (acknowledge true) (step (write none) (step begin_flush s))

-- `_flush_loop`, n times.
unfoldable pub flush_times : ℕ → UsageService → UsageService
flush_times zero s = s
flush_times (suc n) s = flush_times n (flush_once s)
