-- ===== src/Macos/Replay.antt =====
-- macos/service/src/mnemosyne_macos/usage_store.py: `record_batch` of a batch that is already committed.
use mnemosyne_inference.Prelude.{
  ◌≡◌, refl, String, Bool, true, false, not, List, [], ◌∷◌, arith, ◌||◌, ◌&&◌, str_eq, eq_iff, All,
}
use mnemosyne_inference.Macos.Outbox.{
  UsageEvent, UsageStore, PersistResult, has_event, insert_or_ignore, no_result, insert_event,
  insert_events, record_batch,
}
use mnemosyne_inference.Macos.OutboxRows.{has_event-insert}

-- In each table that the call fills.
unfoldable is_recorded : Bool → String → UsageStore → Bool
is_recorded enqueue i s =
    has_event i s.request_usage.rows && (not enqueue || has_event i s.pg_usage_outbox.rows)

is_recorded-insert_event :
    (b : Bool) (e : UsageEvent) (s : UsageStore) (p : PersistResult) (i : String)
    → (is_recorded b i s || str_eq e.event_id i) ≡ true
    → is_recorded b i (insert_event b e (s, p)).0 ≡ true
unfolding is_recorded insert_event
is_recorded-insert_event true e s p i h =
    let analytics = has_event-insert i e s.request_usage in
    let outbox = has_event-insert i e s.pg_usage_outbox in ground (arith, h, analytics, outbox)
is_recorded-insert_event false e s p i h =
    let analytics = has_event-insert i e s.request_usage in ground (arith, h, analytics)

is_recorded-insert_events :
    (b : Bool) (es : List UsageEvent) (s : UsageStore) (p : PersistResult) (i : String)
    → is_recorded b i s ≡ true
    → is_recorded b i (insert_events b es (s, p)).0 ≡ true
unfolding insert_events
is_recorded-insert_events b [] s p i h = h
is_recorded-insert_events b (e ∷ es) s p i h =
    is_recorded-insert_events b es _ _ i (is_recorded-insert_event b e s p i (ground (arith, h)))

insert_events_record :
    (b : Bool) (es : List UsageEvent) (s : UsageStore) (p : PersistResult)
    → All (λ (e : UsageEvent). is_recorded b e.event_id (insert_events b es (s, p)).0 ≡ true) es
unfolding insert_events
insert_events_record b [] s p = tt
insert_events_record b (e ∷ es) s p = (
  is_recorded-insert_events b es _ _ e.event_id (
      is_recorded-insert_event b e s p e.event_id (
        let same : str_eq e.event_id e.event_id ≡ true = (eq_iff e.event_id e.event_id).1 refl in
        ground (arith, same))),
  insert_events_record b es _ _,
)

insert_event_replay :
    (b : Bool) (e : UsageEvent) (s : UsageStore)
    → is_recorded b e.event_id s ≡ true
    → insert_event b e (s, no_result) ≡ (s, no_result)
unfolding is_recorded insert_event insert_or_ignore
insert_event_replay true e s h =
    let analytics : has_event e.event_id s.request_usage.rows ≡ true = ground (arith, h) in
    let outbox : has_event e.event_id s.pg_usage_outbox.rows ≡ true = ground (arith, h) in
    simp (analytics, outbox)
insert_event_replay false e s h =
    let analytics : has_event e.event_id s.request_usage.rows ≡ true = ground (arith, h) in
    simp analytics

insert_events_replay :
    (b : Bool) (es : List UsageEvent) (s : UsageStore)
    → All (λ (e : UsageEvent). is_recorded b e.event_id s ≡ true) es
    → insert_events b es (s, no_result) ≡ (s, no_result)
unfolding insert_events
insert_events_replay b [] s h = refl
insert_events_replay b (e ∷ es) s h =
    rw (insert_event_replay b e s h.0) (insert_events_replay b es s h.1)

-- Recording a batch that has just been recorded, with the same choice of the outbox, changes no
-- table and reports no inserted row.
pub record_batch_replay :
    (events : List UsageEvent) (enqueue : Bool) (s : UsageStore)
    → record_batch events enqueue (record_batch events enqueue s).0
      ≡ ((record_batch events enqueue s).0, no_result)
unfolding record_batch
record_batch_replay events enqueue s =
    insert_events_replay enqueue events _ (insert_events_record enqueue events s no_result)
