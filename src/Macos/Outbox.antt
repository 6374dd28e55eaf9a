-- ===== src/Macos/Outbox.antt =====
-- macos/service/src/mnemosyne_macos/usage_store.py: the usage tables of the native service. A table is
-- its rows in the order of their ids, which AUTOINCREMENT never gives twice. A timestamp and a duration
-- are whole numbers of ticks; each statement sequence that the code puts into one transaction is one
-- function.
use mnemosyne_inference.Prelude.{
  ℕ, zero, suc, ◌+◌, ◌-◌, String, Bool, false, Option, List, [], ◌∷◌, ◌++◌, ◌||◌, ◌==◌, str_eq,
  length, if◌then◌else◌,
}

pub record UsageEvent : Type 0 where
  pub event_id : String
  pub timestamp : ℕ
  pub requested_model : Option String
  pub alias : Option String
  pub backend : String
  pub endpoint : String
  pub streamed : Bool
  pub prompt_tokens : ℕ
  pub completion_tokens : ℕ
  pub total_tokens : ℕ
  pub usage_json : Option String
  pub response_ms : ℕ
  pub status_code : ℕ

pub record Row : Type 0 where
  pub id : ℕ
  pub event : UsageEvent

pub record Table : Type 0 where
  pub rows : List Row
  pub next_id : ℕ

pub record UsageStore : Type 0 where
  pub request_usage : Table
  pub pg_usage_outbox : Table

pub record PersistResult : Type 0 where
  pub analytics_inserted : ℕ
  pub outbox_inserted : ℕ

-- The column `event_id` is UNIQUE.
unfoldable pub has_event : String → List Row → Bool
has_event e [] = false
has_event e (r ∷ rs) = str_eq r.event.event_id e || has_event e rs

-- INSERT OR IGNORE, with its row count.
unfoldable pub insert_or_ignore : UsageEvent → Table → Table × ℕ
insert_or_ignore e t = if has_event e.event_id t.rows then (t, 0) else (
  record { rows = t.rows ++ (record { id = t.next_id; event = e }) ∷ []; next_id = t.next_id + 1 },
  1,
)

abbrev pub no_result : PersistResult
no_result = record { analytics_inserted = 0; outbox_inserted = 0 }

unfoldable pub insert_event :
    (enqueue_outbox : Bool) → UsageEvent → UsageStore × PersistResult → UsageStore × PersistResult
insert_event enqueue e (s, p) =
    let (analytics, a) = insert_or_ignore e s.request_usage in
    let (outbox, o) =
      if enqueue then insert_or_ignore e s.pg_usage_outbox else (s.pg_usage_outbox, 0) in
    (
      record { request_usage = analytics; pg_usage_outbox = outbox },
      record {
        analytics_inserted = p.analytics_inserted + a;
        outbox_inserted = p.outbox_inserted + o;
      },
    )

unfoldable pub insert_events :
    (enqueue_outbox : Bool)
    → List UsageEvent
    → UsageStore × PersistResult
    → UsageStore × PersistResult
insert_events enqueue [] p = p
insert_events enqueue (e ∷ es) p = insert_events enqueue es (insert_event enqueue e p)

-- An empty batch inserts nothing either.
unfoldable pub record_batch :
    List UsageEvent → (enqueue_outbox : Bool) → UsageStore → UsageStore × PersistResult
record_batch events enqueue s = insert_events enqueue events (s, no_result)

-- ORDER BY id LIMIT n
unfoldable pub take : {A : Type 0} → ℕ → List A → List A
take zero xs = []
take (suc n) [] = []
take (suc n) (x ∷ xs) = x ∷ take n xs

unfoldable pub drop : {A : Type 0} → ℕ → List A → List A
drop zero xs = xs
drop (suc n) [] = []
drop (suc n) (x ∷ xs) = drop n xs

unfoldable pub peek_outbox : (limit : ℕ) → UsageStore → List Row
peek_outbox limit s = take limit s.pg_usage_outbox.rows

unfoldable pub row_ids : List Row → List ℕ
row_ids [] = []
row_ids (r ∷ rs) = r.id ∷ row_ids rs

unfoldable pub has_id : ℕ → List ℕ → Bool
has_id i [] = false
has_id i (j ∷ js) = j == i || has_id i js

-- DELETE … WHERE id IN (…)
unfoldable pub delete_ids : List ℕ → List Row → List Row
delete_ids ids [] = []
delete_ids ids (r ∷ rs) = let rest = delete_ids ids rs in if has_id r.id ids then rest else r ∷ rest

abbrev pub with_rows : List Row → UsageStore → UsageStore
with_rows rows s = record s {
  pg_usage_outbox = record { rows = rows; next_id = s.pg_usage_outbox.next_id };
}

-- With how many rows went.
unfoldable pub ack_outbox : List ℕ → UsageStore → UsageStore × ℕ
ack_outbox ids s =
    let rows = delete_ids ids s.pg_usage_outbox.rows in
    (with_rows rows s, length s.pg_usage_outbox.rows - length rows)

unfoldable pub count_outbox : UsageStore → ℕ
count_outbox s = length s.pg_usage_outbox.rows

-- ORDER BY id DESC LIMIT -1 OFFSET keep: all rows but the `keep` newest.
unfoldable pub prune_outbox : (keep : ℕ) → UsageStore → UsageStore × ℕ
prune_outbox keep s =
    let surplus = count_outbox s - keep in
    (with_rows (drop surplus s.pg_usage_outbox.rows) s, surplus)
