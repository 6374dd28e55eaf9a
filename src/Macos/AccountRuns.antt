-- ===== src/Macos/AccountRuns.antt =====
-- macos/service/src/mnemosyne_macos: the runs of the outbox (`usage_store.py`) and of its delivery
-- (`usage_delivery.py`) against the abstract account.
use mnemosyne_inference.Prelude.{
  ℕ, ◌-◌, ◌≤◌, ◌≡◌, refl, String, Bool, true, false, Option, none, some, List, [], ◌∷◌, arith, ◌||◌,
  str_eq, is_nil, Bool-cases, inl, inr,
}
use mnemosyne_inference.Prelude.Distinct.{All-map}
use mnemosyne_inference.Macos.Outbox.{
  UsageEvent, Row, Table, has_event, insert_or_ignore, insert_event, insert_events, record_batch,
  take, drop, row_ids, delete_ids, peek_outbox, ack_outbox, count_outbox, prune_outbox,
}
use mnemosyne_inference.Macos.Delivery.{
  LedgerRow, in_ledger, Flush, at_rest, peeked, written, UsageService, Event, save, prune,
  begin_flush, write, acknowledge, crash, begin, write_batch, finish_flush, begin_at, write_at,
  acknowledge_at, step, run,
}
use mnemosyne_inference.Macos.OutboxRows.{
  IsBelow, insert_or_ignore-IsNumbered, IsAbove-drop, All-drop, All-take, All-delete_ids,
  IsAbove-delete_ids, IsCovered, IsCovered-take, insert_or_ignore-IsCovered, has_event-insert,
  has_event-drop, has_event-delete_ids,
}
use mnemosyne_inference.Macos.Accounts.{
  delivered, status_of, status, may_move, may_stay, in_ledger-write_rows, times, times-write_rows,
  IsDelivering, IsSound,
}

-- A section keeps the invariant and the account of every event, and the ledger free of duplicates.
pub record IsFaithful (e : Event) (s s' : UsageService) : Type 0 where
  pub sound : IsSound s'
  pub moves : (i : String) → may_move i e (status i s) (status i s') ≡ true
  pub once : (i : String) → times i s.ledger ≤ 1 → times i s'.ledger ≤ 1

stay : (e : Event) (s : UsageService) → IsSound s → IsFaithful e s s
stay e s h = record { sound = h; moves = λ i. may_stay i e (status i s); once = λ i one. one }

-- A section that only touches the flush.
to_rest :
    (e : Event) (s : UsageService) (n : ℕ)
    → IsSound s
    → IsFaithful e s (record s { flush = at_rest; last_flush_count = n })
unfolding status
to_rest e s n h = record {
  sound = record { numbered = h.numbered; delivering = tt };
  moves = λ i. may_stay i e (status i s);
  once = λ i one. one;
}

insert_next : (e : UsageEvent) (t : Table) → t.next_id ≤ (insert_or_ignore e t).0.next_id
unfolding insert_or_ignore
insert_next e t = ground arith

IsBelow-weaken : (m n : ℕ) (rs : List Row) → m ≤ n → IsBelow m rs → IsBelow n rs
IsBelow-weaken m n rs l b = All-map rs (λ r less. omega arith) b

-- The outbox changes to one that covers what the old one covers.
IsDelivering-to :
    (f : Flush) (t t' : Table) (ledger : List LedgerRow)
    → t.next_id ≤ t'.next_id
    → ((rs : List Row) → IsBelow t.next_id rs → IsCovered rs t.rows → IsCovered rs t'.rows)
    → IsDelivering f t ledger
    → IsDelivering f t' ledger
IsDelivering-to at_rest t t' ledger l go h = tt
IsDelivering-to (peeked rs) t t' ledger l go h =
    (IsBelow-weaken t.next_id t'.next_id rs l h.0, go rs h.0 h.1)
IsDelivering-to (written rs) t t' ledger l go ((b, c), d) =
    ((IsBelow-weaken t.next_id t'.next_id rs l b, go rs b c), d)

save_moves :
    (i : String) (e : UsageEvent) (sent kept same : Bool)
    → str_eq e.event_id i ≡ same
    → may_move i (save e) (status_of sent kept) (status_of sent (kept || same)) ≡ true
unfolding may_move
save_moves i e true kept same h = refl
save_moves i e false true same h = refl
save_moves i e false false true h = h
save_moves i e false false false h = refl

save-IsFaithful :
    (e : UsageEvent) (s : UsageService) → IsSound s → IsFaithful (save e) s (step (save e) s)
unfolding step status record_batch insert_events insert_event
save-IsFaithful e s h = by_enabled s.enabled
  where
    by_enabled :
        (b : Bool)
        → IsFaithful (save e) s (record s { store = (record_batch (e ∷ []) b s.store).0 })
    by_enabled false = record {
      sound = record { numbered = h.numbered; delivering = h.delivering };
      moves = λ i. may_stay i (save e) (status i s);
      once = λ i one. one;
    }
    by_enabled true = record {
      sound = record {
        numbered = insert_or_ignore-IsNumbered e s.store.pg_usage_outbox h.numbered;
        delivering =
            IsDelivering-to s.flush s.store.pg_usage_outbox _ s.ledger
              (insert_next e s.store.pg_usage_outbox)
              (λ rs b c. insert_or_ignore-IsCovered rs e s.store.pg_usage_outbox b c) h.delivering;
      };
      moves = λ i. rw (has_event-insert i e s.store.pg_usage_outbox) (
          save_moves i e (in_ledger i s.ledger) (has_event i s.store.pg_usage_outbox.rows)
            (str_eq e.event_id i) refl);
      once = λ i one. one;
    }

prune_moves :
    (i : String) (sent kept left : Bool)
    → (left ≡ true → kept ≡ true)
    → may_move i prune (status_of sent kept) (status_of sent left) ≡ true
unfolding may_move
prune_moves i true kept left h = refl
prune_moves i false true true h = refl
prune_moves i false true false h = refl
prune_moves i false false true h = absurd (let no = h refl in cc)
prune_moves i false false false h = refl

prune-IsFaithful : (s : UsageService) → IsSound s → IsFaithful prune s (step prune s)
unfolding step status prune_outbox
prune-IsFaithful s h = elim (Bool-cases s.enabled) [
  | inr off ↦ simp off (stay prune s h)
  | inl on ↦ simp on (record {
    sound = record {
      numbered = record {
        above = IsAbove-drop 0 surplus rows h.numbered.above;
        below = All-drop _ surplus rows h.numbered.below;
      };
      delivering =
          IsDelivering-to s.flush s.store.pg_usage_outbox _ s.ledger (omega arith)
            (λ rs b c. All-drop _ surplus rows c) h.delivering;
    };
    moves = λ i.
        prune_moves i (in_ledger i s.ledger) (has_event i rows) (has_event i (drop surplus rows))
          (has_event-drop i surplus rows);
    once = λ i one. one;
  })
]
  where
    rows : List Row
    rows = s.store.pg_usage_outbox.rows

    surplus : ℕ
    surplus = count_outbox s.store - s.max_outbox_rows

begin_at-IsFaithful :
    (f : Flush) (s : UsageService)
    → s.flush ≡ f
    → IsSound s
    → IsFaithful begin_flush s (begin_at f s)
unfolding begin_at begin peek_outbox status
begin_at-IsFaithful (peeked rs) s e h = stay begin_flush s h
begin_at-IsFaithful (written rs) s e h = stay begin_flush s h
begin_at-IsFaithful at_rest s e h = elim (Bool-cases s.has_writer) [
  | inr no_writer ↦ simp no_writer (stay begin_flush s h)
  | inl ready ↦ simp ready (elim (Bool-cases (is_nil (take s.batch_size rows))) [
    | inl none_left ↦ simp none_left (record {
      sound = record { numbered = h.numbered; delivering = h.delivering };
      moves = λ i. may_stay i begin_flush (status i s);
      once = λ i one. one;
    })
    | inr some_left ↦ simp some_left (record {
      sound = record {
        numbered = h.numbered;
        delivering = (
          All-take _ s.batch_size rows h.numbered.below,
          IsCovered-take 0 s.batch_size rows h.numbered.above,
        );
      };
      moves = λ i. may_stay i begin_flush (status i s);
      once = λ i one. one;
    })
  ])
]
  where
    rows : List Row
    rows = s.store.pg_usage_outbox.rows

write_moves :
    (i : String) (failed : Option ℕ) (sent wrote kept : Bool)
    → may_move i (write failed) (status_of sent kept) (status_of (sent || wrote) kept) ≡ true
unfolding may_move
write_moves i failed true wrote kept = refl
write_moves i failed false true true = refl
write_moves i failed false true false = refl
write_moves i failed false false true = refl
write_moves i failed false false false = refl

write_at-IsFaithful :
    (failed : Option ℕ) (f : Flush) (s : UsageService)
    → s.flush ≡ f
    → IsSound s
    → IsFaithful (write failed) s (write_at failed f s)
unfolding write_at write_batch status
write_at-IsFaithful failed at_rest s e h = stay (write failed) s h
write_at-IsFaithful failed (written rs) s e h = stay (write failed) s h
write_at-IsFaithful (some n) (peeked rs) s e h = record {
  sound = record { numbered = h.numbered; delivering = tt };
  moves = λ i. rw (in_ledger-write_rows s.node_id i (take n rs) s.ledger) (
      write_moves i (some n) (in_ledger i s.ledger) (has_event i (take n rs))
        (has_event i s.store.pg_usage_outbox.rows));
  once = λ i one. times-write_rows s.node_id i (take n rs) s.ledger one;
}
write_at-IsFaithful none (peeked rs) s e h =
    let d : IsDelivering (peeked rs) s.store.pg_usage_outbox s.ledger = simp e at h.delivering in
    record {
      sound = record {
        numbered = h.numbered;
        delivering = (
          d,
          λ i found. rw (in_ledger-write_rows s.node_id i rs s.ledger) (ground (arith, found)),
        );
      };
      moves = λ i. rw (in_ledger-write_rows s.node_id i rs s.ledger) (
          write_moves i none (in_ledger i s.ledger) (has_event i rs)
            (has_event i s.store.pg_usage_outbox.rows));
      once = λ i one. times-write_rows s.node_id i rs s.ledger one;
    }

-- An acknowledged event is in the ledger, so its row is no longer needed.
acknowledged_moves :
    (i : String) (stored : Bool) (rs rows : List Row) (sent : Bool)
    → (has_event i rs ≡ true → sent ≡ true)
    → IsCovered rs rows
    → may_move i
        (acknowledge stored)
        (status_of sent (has_event i rows))
        (status_of sent (has_event i (delete_ids (row_ids rs) rows)))
      ≡ true
acknowledged_moves i stored rs rows true found c = may_stay i (acknowledge stored) delivered
acknowledged_moves i stored rs rows false found c =
    let absent : has_event i rs ≡ false = ground (arith, found) in
    rw (has_event-delete_ids i rs rows absent c)
      (may_stay i (acknowledge stored) (status_of false (has_event i rows)))

acknowledge_at-IsFaithful :
    (stored : Bool) (f : Flush) (s : UsageService)
    → s.flush ≡ f
    → IsSound s
    → IsFaithful (acknowledge stored) s (acknowledge_at stored f s)
unfolding acknowledge_at finish_flush ack_outbox status
acknowledge_at-IsFaithful stored at_rest s e h = stay (acknowledge stored) s h
acknowledge_at-IsFaithful stored (peeked rs) s e h = stay (acknowledge stored) s h
acknowledge_at-IsFaithful false (written rs) s e h = to_rest (acknowledge false) s 0 h
acknowledge_at-IsFaithful true (written rs) s e h =
    let rows : List Row = s.store.pg_usage_outbox.rows in
    let ((b, c), d) = the_delivery in
    record {
      sound = record {
        numbered = record {
          above = IsAbove-delete_ids 0 (row_ids rs) rows h.numbered.above;
          below = All-delete_ids _ (row_ids rs) rows h.numbered.below;
        };
        delivering = tt;
      };
      moves = λ i. acknowledged_moves i true rs rows (in_ledger i s.ledger) (d i) c;
      once = λ i one. one;
    }
  where
    the_delivery : IsDelivering (written rs) s.store.pg_usage_outbox s.ledger
    the_delivery = simp e at h.delivering

crash-IsFaithful : (s : UsageService) → IsSound s → IsFaithful crash s (step crash s)
unfolding step status
crash-IsFaithful s h = record {
  sound = record { numbered = h.numbered; delivering = tt };
  moves = λ i. may_stay i crash (status i s);
  once = λ i one. one;
}

pub step-IsFaithful : (e : Event) (s : UsageService) → IsSound s → IsFaithful e s (step e s)
unfolding step
step-IsFaithful (save e) s h = save-IsFaithful e s h
step-IsFaithful prune s h = prune-IsFaithful s h
step-IsFaithful begin_flush s h = begin_at-IsFaithful s.flush s refl h
step-IsFaithful (write failed) s h = write_at-IsFaithful failed s.flush s refl h
step-IsFaithful (acknowledge stored) s h = acknowledge_at-IsFaithful stored s.flush s refl h
step-IsFaithful crash s h = crash-IsFaithful s h

pub run-IsSound :
    (es : List Event) (s : UsageService)
    → IsSound s
    → IsSound (run es s) × ((i : String) → times i s.ledger ≤ 1 → times i (run es s).ledger ≤ 1)
unfolding run
run-IsSound [] s h = (h, λ i one. one)
run-IsSound (e ∷ es) s h =
    let f = step-IsFaithful e s h in
    let (sound, once) = run-IsSound es (step e s) f.sound in (sound, λ i one. once i (f.once i one))
