-- ===== src/Macos/Accounts.antt =====
-- macos/service/src/mnemosyne_macos: the outbox (`usage_store.py`) and its delivery (`usage_delivery.py`)
-- against an abstract account of each event.
use mnemosyne_inference.Prelude.{
  ℕ, ◌+◌, ◌≤◌, ◌≡◌, refl, String, Bool, true, false, List, [], ◌∷◌, ◌++◌, arith, ◌||◌, str_eq,
  eq_iff, Bool-cases, inl, inr, if◌then◌else◌,
}
use mnemosyne_inference.Macos.Outbox.{Row, Table, has_event}
use mnemosyne_inference.Macos.Delivery.{
  LedgerRow, params, in_ledger, insert_row, write_rows, Flush, at_rest, peeked, written,
  UsageService, Event, save, prune, write,
}
use mnemosyne_inference.Macos.OutboxRows.{IsBelow, IsNumbered, IsCovered}

-- What has become of an event.
pub data Status : Type 0 where
  unknown pending delivered : Status

abbrev pub status_of : (sent kept : Bool) → Status
status_of true kept = delivered
status_of false true = pending
status_of false false = unknown

unfoldable pub status : String → UsageService → Status
status i s = status_of (in_ledger i s.ledger) (has_event i s.store.pg_usage_outbox.rows)

-- The abstract account: which events of the service may change the status of the usage event `i`, and
-- to what. A row that is pruned while it is being written may still arrive.
unfoldable pub may_move : String → Event → Status → Status → Bool
may_move i e unknown unknown = true
may_move i e pending pending = true
may_move i e delivered delivered = true
may_move i (save e) unknown pending = str_eq e.event_id i
may_move i prune pending unknown = true
may_move i (write f) unknown delivered = true
may_move i (write f) pending delivered = true
may_move i e a b = false

pub may_stay : (i : String) (e : Event) (a : Status) → may_move i e a a ≡ true
unfolding may_move
may_stay i e unknown = refl
may_stay i e pending = refl
may_stay i e delivered = refl

-- The ledger.
in_ledger-append :
    (i : String) (l : LedgerRow) (ls : List LedgerRow)
    → in_ledger i (ls ++ l ∷ []) ≡ (in_ledger i ls || str_eq l.event_id i)
unfolding in_ledger
in_ledger-append i l [] = ground arith
in_ledger-append i l (x ∷ ls) = ground (arith, in_ledger-append i l ls)

in_ledger-insert_row :
    (i : String) (l : LedgerRow) (ls : List LedgerRow)
    → in_ledger i (insert_row l ls) ≡ (in_ledger i ls || str_eq l.event_id i)
unfolding insert_row
in_ledger-insert_row i l ls = elim (Bool-cases (in_ledger l.event_id ls)) [
  | inl old ↦ rw old (by_event old (str_eq l.event_id i) refl)
  | inr new ↦ rw new (in_ledger-append i l ls)
]
  where
    by_event :
        in_ledger l.event_id ls ≡ true
        → (b : Bool) → str_eq l.event_id i ≡ b
        → in_ledger i ls ≡ (in_ledger i ls || b)
    by_event old true same =
        let e' : l.event_id ≡ i = (eq_iff l.event_id i).0 same in
        let found : in_ledger i ls ≡ true = rw e' at old in ground (arith, found)
    by_event old false other = ground arith

pub in_ledger-write_rows :
    (node i : String) (rs : List Row) (ls : List LedgerRow)
    → in_ledger i (write_rows node rs ls) ≡ (in_ledger i ls || has_event i rs)
unfolding write_rows has_event params
in_ledger-write_rows node i [] ls = ground arith
in_ledger-write_rows node i (r ∷ rs) ls =
    let rest = in_ledger-write_rows node i rs (insert_row (params node r) ls) in
    let first = in_ledger-insert_row i (params node r) ls in ground (arith, rest, first)

-- How often the ledger has an event.
abbrev pub times : String → List LedgerRow → ℕ
times i [] = 0
times i (l ∷ ls) = (if str_eq l.event_id i then 1 else 0) + times i ls

times-absent : (i : String) (ls : List LedgerRow) → in_ledger i ls ≡ false → times i ls ≡ 0
unfolding in_ledger
times-absent i [] h = refl
times-absent i (l ∷ ls) h = ground (arith, times-absent i ls)

times-append :
    (i : String) (l : LedgerRow) (ls : List LedgerRow)
    → times i (ls ++ l ∷ []) ≡ times i ls + (if str_eq l.event_id i then 1 else 0)
times-append i l [] = omega arith
times-append i l (x ∷ ls) = let rest = times-append i l ls in omega arith

times-insert_row :
    (i : String) (l : LedgerRow) (ls : List LedgerRow)
    → times i ls ≤ 1
    → times i (insert_row l ls) ≤ 1
unfolding insert_row
times-insert_row i l ls h = elim (Bool-cases (in_ledger l.event_id ls)) [
  | inl old ↦ rw old h
  | inr new ↦ rw new (by_event new (str_eq l.event_id i) refl)
]
  where
    by_event :
        in_ledger l.event_id ls ≡ false
        → (b : Bool) → str_eq l.event_id i ≡ b
        → times i (ls ++ l ∷ []) ≤ 1
    by_event new true same =
        let e' : l.event_id ≡ i = (eq_iff l.event_id i).0 same in
        let absent = times-absent i ls (rw e' at new) in
        let added = times-append i l ls in ground (arith, same, absent, added)
    by_event new false other = let added = times-append i l ls in ground (arith, other, added)

pub times-write_rows :
    (node i : String) (rs : List Row) (ls : List LedgerRow)
    → times i ls ≤ 1
    → times i (write_rows node rs ls) ≤ 1
unfolding write_rows
times-write_rows node i [] ls h = h
times-write_rows node i (r ∷ rs) ls h =
    times-write_rows node i rs _ (times-insert_row i (params node r) ls h)

-- What holds of a flush that is under way.
abbrev pub IsDelivering : Flush → Table → List LedgerRow → Type 0
IsDelivering at_rest t ledger = Unit
IsDelivering (peeked rs) t ledger = IsBelow t.next_id rs × IsCovered rs t.rows
IsDelivering (written rs) t ledger =
    (IsBelow t.next_id rs × IsCovered rs t.rows)
    × ((i : String) → has_event i rs ≡ true → in_ledger i ledger ≡ true)

pub record IsSound (s : UsageService) : Type 0 where
  pub numbered : IsNumbered s.store.pg_usage_outbox
  pub delivering : IsDelivering s.flush s.store.pg_usage_outbox s.ledger
