-- ===== src/Macos/Draining.antt =====
-- macos/service/src/mnemosyne_macos: what becomes of the events of the outbox (`usage_store.py`,
-- `usage_delivery.py`), in every run and where the flushes succeed.
use mnemosyne_inference.Prelude.{
  ℕ, zero, suc, ◌-◌, ◌≤◌, ◌<◌, ◌≡◌, refl, sym, ap, ◌∙◌, String, Bool, true, false, Option, none,
  some, List, [], ◌∷◌, arith, is_nil, length, Bool-cases, inl, inr,
}
use mnemosyne_inference.Macos.Outbox.{Row, has_event, take, drop, peek_outbox, ack_outbox}
use mnemosyne_inference.Macos.Delivery.{
  LedgerRow, in_ledger, Flush, at_rest, peeked, written, UsageService, Event, save, prune,
  begin_flush, write, acknowledge, crash, begin, write_batch, finish_flush, begin_at, write_at,
  acknowledge_at, step, run, open_service, flush_once, flush_times,
}
use mnemosyne_inference.Macos.OutboxRows.{delete_ids-take}
use mnemosyne_inference.Macos.Accounts.{
  Status, unknown, pending, delivered, status_of, status, may_move, times, IsSound,
}
use mnemosyne_inference.Macos.AccountRuns.{step-IsFaithful, run-IsSound}

open_service-IsSound :
    (enabled has_writer : Bool) (batch keep : ℕ) (node : String) (ledger : List LedgerRow)
    → IsSound (open_service enabled has_writer batch keep node ledger)
unfolding open_service
open_service-IsSound enabled has_writer batch keep node ledger = record {
  numbered = record { above = tt; below = tt };
  delivering = tt;
}

opened_ledger :
    (enabled has_writer : Bool) (batch keep : ℕ) (node : String) (ledger : List LedgerRow)
    → ((j : String) → times j ledger ≤ 1)
    → (j : String) → times j (open_service enabled has_writer batch keep node ledger).ledger ≤ 1
unfolding open_service
opened_ledger enabled has_writer batch keep node ledger one = one

-- After any run of saves, prunes, sections of flushes that may fail anywhere, and crashes, from an
-- empty outbox beside a ledger with each event at most once, the next event of the service moves
-- the status of each usage event (unknown, pending, or delivered where the ledger has it) only as
-- the abstract account allows: a save makes its own event pending, a prune drops a pending one, a
-- write delivers, nothing leaves the delivered status and no other event changes any; and the
-- ledger still has each event at most once.
pub runs_refine_accounts :
    (enabled has_writer : Bool) (batch keep : ℕ) (node : String) (ledger : List LedgerRow)
    (es : List Event) (e : Event) (i : String)
    → ((j : String) → times j ledger ≤ 1)
    → (let s = run es (open_service enabled has_writer batch keep node ledger) in
        (may_move i e (status i s) (status i (step e s)) ≡ true) × (times i (step e s).ledger ≤ 1))
runs_refine_accounts enabled has_writer batch keep node ledger es e i one =
    let (sound, once) =
      run-IsSound es (open_service enabled has_writer batch keep node ledger)
        (open_service-IsSound enabled has_writer batch keep node ledger) in
    let f =
      step-IsFaithful e (run es (open_service enabled has_writer batch keep node ledger)) sound in
    (f.moves i, f.once i (once i (opened_ledger enabled has_writer batch keep node ledger one i)))

length-drop : (n : ℕ) (rs : List Row) → length (drop n rs) ≡ length rs - n
unfolding drop
length-drop zero rs = omega arith
length-drop (suc n) [] = omega arith
length-drop (suc n) (r ∷ rs) = let rest = length-drop n rs in omega arith

-- What one flush of a service at rest does to the outbox.
pub record IsFlushed (s s' : UsageService) : Type 0 where
  pub left : s'.store.pg_usage_outbox.rows ≡ drop s.batch_size s.store.pg_usage_outbox.rows
  pub rests : s'.flush ≡ at_rest
  pub same_batch : s'.batch_size ≡ s.batch_size
  pub same_writer : s'.has_writer ≡ s.has_writer

drop-none : (n : ℕ) (rs : List Row) → is_nil (take n rs) ≡ true → drop n rs ≡ rs
unfolding take drop
drop-none zero rs e = refl
drop-none (suc n) [] e = refl
drop-none (suc n) (r ∷ rs) e = absurd (ground (arith, e))

-- At rest the two last calls of a flush do nothing.
rest_write : (s : UsageService) → s.flush ≡ at_rest → step (write none) s ≡ s
unfolding step write_at
rest_write s e = ap (λ f. write_at none f s) e

rest_acknowledge : (s : UsageService) → s.flush ≡ at_rest → step (acknowledge true) s ≡ s
unfolding step acknowledge_at
rest_acknowledge s e = ap (λ f. acknowledge_at true f s) e

begin_none :
    (s : UsageService)
    → s.flush ≡ at_rest
    → s.has_writer ≡ true
    → is_nil (take s.batch_size s.store.pg_usage_outbox.rows) ≡ true
    → step begin_flush s ≡ record s { last_flush_count = 0 }
unfolding step begin_at begin peek_outbox
begin_none s rests ready none_left = ap (λ f. begin_at f s) rests ∙ simp (ready, none_left)

begin_some :
    (s : UsageService)
    → s.flush ≡ at_rest
    → s.has_writer ≡ true
    → is_nil (take s.batch_size s.store.pg_usage_outbox.rows) ≡ false
    → step begin_flush s
      ≡ record s { flush = peeked (take s.batch_size s.store.pg_usage_outbox.rows) }
unfolding step begin_at begin peek_outbox
begin_some s rests ready some_left = ap (λ f. begin_at f s) rests ∙ simp (ready, some_left)

nothing-IsFlushed :
    (s : UsageService)
    → s.flush ≡ at_rest
    → is_nil (take s.batch_size s.store.pg_usage_outbox.rows) ≡ true
    → IsFlushed s (step (acknowledge true) (step (write none) (record s { last_flush_count = 0 })))
nothing-IsFlushed s rests none_left =
    let t : UsageService = record s { last_flush_count = 0 } in
    let still : IsFlushed s t = record {
      left = sym (drop-none s.batch_size s.store.pg_usage_outbox.rows none_left);
      rests = rests;
      same_batch = refl;
      same_writer = refl;
    } in
    simp (rest_write t rests) (simp (rest_acknowledge t rests) still)

batch-IsFlushed :
    (s : UsageService)
    → IsSound s
    → IsFlushed s (
        step (acknowledge true) (
          step
            (write none)
            (record s { flush = peeked (take s.batch_size s.store.pg_usage_outbox.rows) })))
unfolding step write_at write_batch acknowledge_at finish_flush ack_outbox
batch-IsFlushed s h = record {
  left = delete_ids-take 0 s.batch_size s.store.pg_usage_outbox.rows h.numbered.above;
  rests = refl;
  same_batch = refl;
  same_writer = refl;
}

flush_once-IsFlushed :
    (s : UsageService)
    → s.flush ≡ at_rest
    → s.has_writer ≡ true
    → IsSound s
    → IsFlushed s (flush_once s)
unfolding flush_once
flush_once-IsFlushed s rests ready h =
    elim (Bool-cases (is_nil (take s.batch_size s.store.pg_usage_outbox.rows))) [
      | inl none_left ↦
          simp (begin_none s rests ready none_left) (nothing-IsFlushed s rests none_left)
      | inr some_left ↦ simp (begin_some s rests ready some_left) (batch-IsFlushed s h)
    ]

-- The three calls of a flush forget no event.
abbrev is_known : Status → Bool
is_known unknown = false
is_known pending = true
is_known delivered = true

abbrev forgets : Event → Bool
forgets (save e) = false
forgets prune = true
forgets begin_flush = false
forgets (write failed) = false
forgets (acknowledge stored) = false
forgets crash = false

still_known :
    (i : String) (e : Event) (a b : Status)
    → forgets e ≡ false
    → may_move i e a b ≡ true
    → is_known a ≡ true
    → is_known b ≡ true
unfolding may_move
still_known i e unknown b f m k = absurd (ground (arith, k))
still_known i e a pending f m k = refl
still_known i e a delivered f m k = refl
still_known i (save x) pending unknown f m k = absurd (ground (arith, m))
still_known i begin_flush pending unknown f m k = absurd (ground (arith, m))
still_known i (write x) pending unknown f m k = absurd (ground (arith, m))
still_known i (acknowledge x) pending unknown f m k = absurd (ground (arith, m))
still_known i crash pending unknown f m k = absurd (ground (arith, m))
still_known i prune pending unknown f m k = absurd (ground (arith, f))
still_known i (save x) delivered unknown f m k = absurd (ground (arith, m))
still_known i begin_flush delivered unknown f m k = absurd (ground (arith, m))
still_known i (write x) delivered unknown f m k = absurd (ground (arith, m))
still_known i (acknowledge x) delivered unknown f m k = absurd (ground (arith, m))
still_known i crash delivered unknown f m k = absurd (ground (arith, m))
still_known i prune delivered unknown f m k = absurd (ground (arith, f))

flush_once_known :
    (i : String) (s : UsageService)
    → IsSound s
    → IsSound (flush_once s)
      × (is_known (status i s) ≡ true → is_known (status i (flush_once s)) ≡ true)
unfolding flush_once
flush_once_known i s h =
    let a = step-IsFaithful begin_flush s h in
    let b = step-IsFaithful (write none) (step begin_flush s) a.sound in
    let c = step-IsFaithful (acknowledge true) (step (write none) (step begin_flush s)) b.sound in
    (
      c.sound,
      λ k. still_known i (acknowledge true) _ _ refl (c.moves i) (
          still_known i (write none) _ _ refl (b.moves i)
            (still_known i begin_flush _ _ refl (a.moves i) k)),
    )

flush_times_drain :
    (i : String) (n : ℕ) (s : UsageService)
    → s.flush ≡ at_rest
    → s.has_writer ≡ true
    → 0 < s.batch_size
    → length s.store.pg_usage_outbox.rows ≤ n
    → IsSound s
    → (length (flush_times n s).store.pg_usage_outbox.rows ≡ 0)
      × (is_known (status i s) ≡ true → is_known (status i (flush_times n s)) ≡ true)
unfolding flush_times
flush_times_drain i zero s rests ready some_size few h = (omega arith, λ k. k)
flush_times_drain i (suc n) s rests ready some_size few h =
    let f = flush_once-IsFlushed s rests ready h in
    let (sound, known) = flush_once_known i s h in
    let shorter : length (flush_once s).store.pg_usage_outbox.rows ≤ n = fewer f.left in
    let (empty, later) =
      flush_times_drain i n (flush_once s) f.rests (f.same_writer ∙ ready)
        (rw f.same_batch some_size) shorter sound in
    (empty, λ k. later (known k))
  where
    fewer :
        {rows : List Row} → rows ≡ drop s.batch_size s.store.pg_usage_outbox.rows → length rows ≤ n
    fewer e =
        let d = length-drop s.batch_size s.store.pg_usage_outbox.rows in rw e (omega (arith, d))

delivered_by :
    (i : String) (s : UsageService)
    → length s.store.pg_usage_outbox.rows ≡ 0
    → is_known (status i s) ≡ true
    → status i s ≡ delivered
unfolding status has_event
delivered_by i s empty k = by_rows (in_ledger i s.ledger) s.store.pg_usage_outbox.rows empty k
  where
    by_rows :
        (sent : Bool) (rows : List Row)
        → length rows ≡ 0
        → is_known (status_of sent (has_event i rows)) ≡ true
        → status_of sent (has_event i rows) ≡ delivered
    by_rows true rows e k = refl
    by_rows false [] e k = absurd (ground (arith, k))
    by_rows false (r ∷ rs) e k = absurd (omega arith)

abbrev IsSameConfig : UsageService → UsageService → Type 0
IsSameConfig s s' = (s'.has_writer ≡ s.has_writer) × (s'.batch_size ≡ s.batch_size)

begin_config : (f : Flush) (s : UsageService) → IsSameConfig s (begin_at f s)
unfolding begin_at begin
begin_config at_rest s = ground arith
begin_config (peeked rs) s = (refl, refl)
begin_config (written rs) s = (refl, refl)

write_config :
    (failed : Option ℕ) (f : Flush) (s : UsageService) → IsSameConfig s (write_at failed f s)
unfolding write_at write_batch
write_config failed at_rest s = (refl, refl)
write_config none (peeked rs) s = (refl, refl)
write_config (some n) (peeked rs) s = (refl, refl)
write_config failed (written rs) s = (refl, refl)

acknowledge_config :
    (stored : Bool) (f : Flush) (s : UsageService) → IsSameConfig s (acknowledge_at stored f s)
unfolding acknowledge_at finish_flush
acknowledge_config stored at_rest s = (refl, refl)
acknowledge_config stored (peeked rs) s = (refl, refl)
acknowledge_config true (written rs) s = (refl, refl)
acknowledge_config false (written rs) s = (refl, refl)

step_config : (e : Event) (s : UsageService) → IsSameConfig s (step e s)
unfolding step
step_config (save e) s = (refl, refl)
step_config prune s = ground arith
step_config begin_flush s = begin_config s.flush s
step_config (write failed) s = write_config failed s.flush s
step_config (acknowledge stored) s = acknowledge_config stored s.flush s
step_config crash s = (refl, refl)

run_config : (es : List Event) (s : UsageService) → IsSameConfig s (run es s)
unfolding run
run_config [] s = (refl, refl)
run_config (e ∷ es) s =
    let first = step_config e s in
    let later = run_config es (step e s) in (later.0 ∙ first.0, later.1 ∙ first.1)

opened_config :
    (enabled has_writer : Bool) (batch keep : ℕ) (node : String) (ledger : List LedgerRow)
    → ((open_service enabled has_writer batch keep node ledger).has_writer ≡ has_writer)
      × ((open_service enabled has_writer batch keep node ledger).batch_size ≡ batch)
unfolding open_service
opened_config enabled has_writer batch keep node ledger = (refl, refl)

pending_known : (a : Status) → a ≡ pending → is_known a ≡ true
pending_known a e = rw e refl

-- After any run from an empty outbox of a service with a writer and a batch size of at least one,
-- when no flush is under way and the outbox has at most n rows, n flushes that succeed empty the
-- outbox and deliver every usage event that was pending.
pub flushes_deliver :
    (enabled : Bool) (batch keep : ℕ) (node : String) (ledger : List LedgerRow) (es : List Event)
    (n : ℕ) (i : String)
    → 0 < batch
    → (run es (open_service enabled true batch keep node ledger)).flush ≡ at_rest
    → length (run es (open_service enabled true batch keep node ledger)).store.pg_usage_outbox.rows
      ≤ n
    → status i (run es (open_service enabled true batch keep node ledger)) ≡ pending
    → (status i (flush_times n (run es (open_service enabled true batch keep node ledger)))
        ≡ delivered)
      × (length
            (flush_times n (
              run es (open_service enabled true batch keep node ledger))).store.pg_usage_outbox.rows
          ≡ 0)
flushes_deliver enabled batch keep node ledger es n i some_size rests few waits =
    let start : UsageService = open_service enabled true batch keep node ledger in
    let (sound, once) =
      run-IsSound es start (open_service-IsSound enabled true batch keep node ledger) in
    let opened = opened_config enabled true batch keep node ledger in
    let kept = run_config es start in
    let size = kept.1 ∙ opened.1 in
    let (empty, known) =
      flush_times_drain i n (run es start) rests (kept.0 ∙ opened.0) (rw size some_size) few
        sound in
    (delivered_by i (flush_times n (run es start)) empty (known (pending_known _ waits)), empty)
