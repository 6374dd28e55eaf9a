-- ===== src/Macos/DeliveryTests.antt =====
-- macos/service/src/mnemosyne_macos/usage_store.py and usage_delivery.py: runs at concrete inputs, and the
-- theorems applied to them.
use mnemosyne_inference.Prelude.{
  ◌≤◌, ◌≡◌, refl, String, true, false, none, some, List, [], ◌∷◌, arith, length,
}
use mnemosyne_inference.Macos.Outbox.{
  UsageEvent, has_event, insert_or_ignore, insert_event, insert_events, record_batch, take, drop,
  peek_outbox, count_outbox, prune_outbox, no_result,
}
use mnemosyne_inference.Macos.Delivery.{
  or_text, params, in_ledger, insert_row, write_rows, at_rest, UsageService, Event, save, prune,
  begin_flush, write, crash, begin, write_batch, begin_at, write_at, step, run, open_service,
  flush_times,
}
use mnemosyne_inference.Macos.Accounts.{pending, delivered, status, may_move, times}
use mnemosyne_inference.Macos.Draining.{runs_refine_accounts, flushes_deliver}
use mnemosyne_inference.Macos.Replay.{record_batch_replay}

abbrev usage : String → UsageEvent
usage id = record {
  event_id = id;
  timestamp = 7;
  requested_model = some "m";
  alias = some "";
  backend = "llama.cpp";
  endpoint = "chat/completions";
  streamed = false;
  prompt_tokens = 3;
  completion_tokens = 4;
  total_tokens = 7;
  usage_json = none;
  response_ms = 12;
  status_code = 200;
}

abbrev opened : UsageService
opened = open_service true true 1 2 "node" []

-- The database is left behind one row, and the process ends before that row is acknowledged.
abbrev interrupted : List Event
interrupted =
    save (usage "a") ∷ prune ∷ save (usage "b") ∷ prune ∷ begin_flush ∷ write none ∷ crash ∷ []

abbrev in_flight : List Event
in_flight = save (usage "a") ∷ save (usage "b") ∷ begin_flush ∷ []

written_twice :
    (run (begin_flush ∷ write none ∷ []) (run interrupted opened)).ledger
    ≡ (run interrupted opened).ledger
unfolding run step record_batch insert_events insert_event insert_or_ignore has_event prune_outbox
    count_outbox drop begin_at begin peek_outbox take write_at write_batch write_rows insert_row
    in_ledger params or_text open_service
written_twice = refl

interrupted_rests : (run interrupted opened).flush ≡ at_rest
unfolding run step
interrupted_rests = refl

interrupted_rows : length (run interrupted opened).store.pg_usage_outbox.rows ≤ 2
unfolding run step record_batch insert_events insert_event insert_or_ignore has_event prune_outbox
    count_outbox drop begin_at begin peek_outbox take write_at write_batch open_service
interrupted_rows = omega arith

b_waits : status "b" (run interrupted opened) ≡ pending
unfolding status run step record_batch insert_events insert_event insert_or_ignore has_event
    prune_outbox count_outbox drop begin_at begin peek_outbox take write_at write_batch write_rows
    insert_row in_ledger params or_text open_service
b_waits = refl

runs_refine_accounts_example :
    (may_move "a"
        (write none)
        (status "a" (run in_flight opened))
        (status "a" (step (write none) (run in_flight opened)))
      ≡ true)
    × (times "a" (step (write none) (run in_flight opened)).ledger ≤ 1)
runs_refine_accounts_example =
    runs_refine_accounts true true 1 2 "node" [] in_flight (write none) "a" (λ j. omega arith)

flushes_deliver_example :
    (status "b" (flush_times 2 (run interrupted opened)) ≡ delivered)
    × (length (flush_times 2 (run interrupted opened)).store.pg_usage_outbox.rows ≡ 0)
flushes_deliver_example =
    flushes_deliver true 1 2 "node" [] interrupted 2 "b" (omega arith) interrupted_rests
      interrupted_rows b_waits

record_batch_replay_example :
    record_batch
      (usage "a" ∷ usage "b" ∷ [])
      true
      (record_batch (usage "a" ∷ usage "b" ∷ []) true opened.store).0
    ≡ ((record_batch (usage "a" ∷ usage "b" ∷ []) true opened.store).0, no_result)
record_batch_replay_example = record_batch_replay (usage "a" ∷ usage "b" ∷ []) true opened.store
