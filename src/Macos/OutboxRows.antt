-- ===== src/Macos/OutboxRows.antt =====
-- macos/service/src/mnemosyne_macos/usage_store.py: the rows of the outbox by their ids and by their
-- events.
use mnemosyne_inference.Prelude.{
  ℕ, zero, suc, ◌+◌, ◌≤◌, ◌<◌, ◌≡◌, refl, String, Bool, true, false, not, List, [], ◌∷◌, ◌++◌,
  arith, ◌||◌, str_eq, eq_iff, All, Bool-cases, inl, inr,
}
use mnemosyne_inference.Macos.Outbox.{
  UsageEvent, Row, Table, has_event, insert_or_ignore, take, drop, row_ids, has_id, delete_ids,
}

-- The ids grow from `n` on.
abbrev pub IsAbove : ℕ → List Row → Type 0
IsAbove n [] = Unit
IsAbove n (r ∷ rs) = (n ≤ r.id) × IsAbove (suc r.id) rs

abbrev pub IsBelow : ℕ → List Row → Type 0
IsBelow n rs = All (λ (r : Row). r.id < n) rs

pub record IsNumbered (t : Table) : Type 0 where
  pub above : IsAbove 0 t.rows
  pub below : IsBelow t.next_id t.rows

IsAbove-weaken : (m n : ℕ) (rs : List Row) → m ≤ n → IsAbove n rs → IsAbove m rs
IsAbove-weaken m n [] l h = tt
IsAbove-weaken m n (r ∷ rs) l h = let low = h.0 in (omega arith, h.1)

IsAbove-append :
    (m n : ℕ) (e : UsageEvent) (rs : List Row)
    → m ≤ n
    → IsAbove m rs
    → IsBelow n rs
    → IsAbove m (rs ++ (record { id = n; event = e }) ∷ [])
IsAbove-append m n e [] l h b = (l, tt)
IsAbove-append m n e (r ∷ rs) l h b =
    let less = b.0 in (h.0, IsAbove-append (suc r.id) n e rs (omega arith) h.1 b.1)

IsBelow-append :
    (n : ℕ) (e : UsageEvent) (rs : List Row)
    → IsBelow n rs
    → IsBelow (n + 1) (rs ++ (record { id = n; event = e }) ∷ [])
IsBelow-append n e [] b = (omega arith, tt)
IsBelow-append n e (r ∷ rs) b = let less = b.0 in (omega arith, IsBelow-append n e rs b.1)

pub insert_or_ignore-IsNumbered :
    (e : UsageEvent) (t : Table) → IsNumbered t → IsNumbered (insert_or_ignore e t).0
unfolding insert_or_ignore
insert_or_ignore-IsNumbered e t h = elim (Bool-cases (has_event e.event_id t.rows)) [
  | inl old ↦ rw old h
  | inr new ↦ rw new (record {
    above = IsAbove-append 0 t.next_id e t.rows (omega arith) h.above h.below;
    below = IsBelow-append t.next_id e t.rows h.below;
  })
]

pub IsAbove-drop : (m n : ℕ) (rs : List Row) → IsAbove m rs → IsAbove m (drop n rs)
unfolding drop
IsAbove-drop m zero rs h = h
IsAbove-drop m (suc n) [] h = tt
IsAbove-drop m (suc n) (r ∷ rs) h =
    let low = h.0 in IsAbove-drop m n rs (IsAbove-weaken m (suc r.id) rs (omega arith) h.1)

pub All-drop : (P : Row → Type 0) (n : ℕ) (rs : List Row) → All P rs → All P (drop n rs)
unfolding drop
All-drop P zero rs h = h
All-drop P (suc n) [] h = tt
All-drop P (suc n) (r ∷ rs) h = All-drop P n rs h.1

pub All-take : (P : Row → Type 0) (n : ℕ) (rs : List Row) → All P rs → All P (take n rs)
unfolding take
All-take P zero rs h = tt
All-take P (suc n) [] h = tt
All-take P (suc n) (r ∷ rs) h = (h.0, All-take P n rs h.1)

pub All-append :
    (P : Row → Type 0) (rs : List Row) (r : Row) → All P rs → P r → All P (rs ++ r ∷ [])
All-append P [] r h p = (p, tt)
All-append P (x ∷ rs) r h p = (h.0, All-append P rs r h.1 p)

pub All-delete_ids :
    (P : Row → Type 0) (is : List ℕ) (rs : List Row) → All P rs → All P (delete_ids is rs)
unfolding delete_ids
All-delete_ids P is [] h = tt
All-delete_ids P is (r ∷ rs) h = elim (Bool-cases (has_id r.id is)) [
  | inl gone ↦ rw gone (All-delete_ids P is rs h.1)
  | inr kept ↦ rw kept (h.0, All-delete_ids P is rs h.1)
]

pub IsAbove-delete_ids :
    (m : ℕ) (is : List ℕ) (rs : List Row) → IsAbove m rs → IsAbove m (delete_ids is rs)
unfolding delete_ids
IsAbove-delete_ids m is [] h = tt
IsAbove-delete_ids m is (r ∷ rs) h =
    let low = h.0 in
    elim (Bool-cases (has_id r.id is)) [
      | inl gone ↦
          rw gone (IsAbove-delete_ids m is rs (IsAbove-weaken m (suc r.id) rs (omega arith) h.1))
      | inr kept ↦ rw kept (h.0, IsAbove-delete_ids (suc r.id) is rs h.1)
    ]

-- A row whose id is in a batch has its event there.
unfoldable pub covers : List Row → Row → Bool
covers batch r = not (has_id r.id (row_ids batch)) || has_event r.event.event_id batch

abbrev pub IsCovered : List Row → List Row → Type 0
IsCovered batch rs = All (λ (r : Row). covers batch r ≡ true) rs

-- Ids below all of a list are not in it.
has_id-above :
    (m : ℕ) (i : ℕ) (rs : List Row) → i < m → IsAbove m rs → has_id i (row_ids rs) ≡ false
unfolding has_id row_ids
has_id-above m i [] l h = refl
has_id-above m i (r ∷ rs) l h =
    let low = h.0 in
    let rest = has_id-above (suc r.id) i rs (omega arith) h.1 in ground (arith, low, rest)

pub has_id-below : (n : ℕ) (rs : List Row) → IsBelow n rs → has_id n (row_ids rs) ≡ false
unfolding has_id row_ids
has_id-below n [] b = refl
has_id-below n (r ∷ rs) b =
    let less = b.0 in let rest = has_id-below n rs b.1 in ground (arith, less, rest)

covers-cons :
    (b : Row) (batch : List Row) (r : Row)
    → b.id < r.id
    → covers batch r ≡ true
    → covers (b ∷ batch) r ≡ true
unfolding covers has_id row_ids has_event
covers-cons b batch r l h = ground (arith, l, h)

IsCovered-cons :
    (m : ℕ) (b : Row) (batch rs : List Row)
    → b.id < m
    → IsAbove m rs
    → IsCovered batch rs
    → IsCovered (b ∷ batch) rs
IsCovered-cons m b batch [] l a h = tt
IsCovered-cons m b batch (r ∷ rs) l a h =
    let low = a.0 in
    (
      covers-cons b batch r (omega arith) h.0,
      IsCovered-cons (suc r.id) b batch rs (omega arith) a.1 h.1,
    )

covers_self : (r : Row) (batch : List Row) → covers (r ∷ batch) r ≡ true
unfolding covers has_event
covers_self r batch = ground (arith, eq_iff r.event.event_id r.event.event_id)

IsCovered-none : (rs : List Row) → IsCovered [] rs
unfolding covers has_id row_ids
IsCovered-none [] = tt
IsCovered-none (r ∷ rs) = (refl, IsCovered-none rs)

-- The rows that a batch is taken from.
pub IsCovered-take : (m n : ℕ) (rs : List Row) → IsAbove m rs → IsCovered (take n rs) rs
unfolding take
IsCovered-take m zero rs a = IsCovered-none rs
IsCovered-take m (suc n) [] a = tt
IsCovered-take m (suc n) (r ∷ rs) a = (
  covers_self r (take n rs),
  IsCovered-cons (suc r.id) r (take n rs) rs (omega arith) a.1 (IsCovered-take (suc r.id) n rs a.1),
)

-- A later insertion has an id of its own.
pub insert_or_ignore-IsCovered :
    (batch : List Row) (e : UsageEvent) (t : Table)
    → IsBelow t.next_id batch
    → IsCovered batch t.rows
    → IsCovered batch (insert_or_ignore e t).0.rows
unfolding insert_or_ignore covers
insert_or_ignore-IsCovered batch e t b h = elim (Bool-cases (has_event e.event_id t.rows)) [
  | inl old ↦ rw old h
  | inr new ↦ rw new (
      All-append _ t.rows (record { id = t.next_id; event = e }) h
        (rw (has_id-below t.next_id batch b) refl))
]

delete_ids-none : (rs : List Row) → delete_ids [] rs ≡ rs
unfolding delete_ids has_id
delete_ids-none [] = refl
delete_ids-none (r ∷ rs) = rw (delete_ids-none rs) refl

delete_ids-skip :
    (m j : ℕ) (is : List ℕ) (rs : List Row)
    → j < m
    → IsAbove m rs
    → delete_ids (j ∷ is) rs ≡ delete_ids is rs
unfolding delete_ids has_id
delete_ids-skip m j is [] l a = refl
delete_ids-skip m j is (r ∷ rs) l a =
    let low = a.0 in
    let rest = delete_ids-skip (suc r.id) j is rs (omega arith) a.1 in ground (arith, l, low, rest)

-- What a batch's own deletion leaves behind.
pub delete_ids-take :
    (m n : ℕ) (rs : List Row) → IsAbove m rs → delete_ids (row_ids (take n rs)) rs ≡ drop n rs
unfolding take drop delete_ids row_ids has_id
delete_ids-take m zero rs a = delete_ids-none rs
delete_ids-take m (suc n) [] a = refl
delete_ids-take m (suc n) (r ∷ rs) a =
    let skipped = delete_ids-skip (suc r.id) r.id (row_ids (take n rs)) rs (omega arith) a.1 in
    let rest = delete_ids-take (suc r.id) n rs a.1 in ground (arith, skipped, rest)

pub has_event-append :
    (e : String) (rs : List Row) (r : Row)
    → has_event e (rs ++ r ∷ []) ≡ (has_event e rs || str_eq r.event.event_id e)
unfolding has_event
has_event-append e [] r = ground arith
has_event-append e (x ∷ rs) r = ground (arith, has_event-append e rs r)

pub has_event-insert :
    (i : String) (e : UsageEvent) (t : Table)
    → has_event i (insert_or_ignore e t).0.rows ≡ (has_event i t.rows || str_eq e.event_id i)
unfolding insert_or_ignore
has_event-insert i e t = elim (Bool-cases (has_event e.event_id t.rows)) [
  | inl old ↦ rw old (by_event old (str_eq e.event_id i) refl)
  | inr new ↦ rw new (has_event-append i t.rows (record { id = t.next_id; event = e }))
]
  where
    by_event :
        has_event e.event_id t.rows ≡ true
        → (b : Bool) → str_eq e.event_id i ≡ b
        → has_event i t.rows ≡ (has_event i t.rows || b)
    by_event old true same =
        let e' : e.event_id ≡ i = (eq_iff e.event_id i).0 same in
        let found : has_event i t.rows ≡ true = rw e' at old in ground (arith, found)
    by_event old false other = ground arith

pub has_event-drop :
    (e : String) (n : ℕ) (rs : List Row) → has_event e (drop n rs) ≡ true → has_event e rs ≡ true
unfolding has_event drop
has_event-drop e zero rs h = h
has_event-drop e (suc n) [] h = h
has_event-drop e (suc n) (r ∷ rs) h = ground (arith, has_event-drop e n rs h)

-- A deletion by the ids of a batch forgets no event that is not in the batch.
pub has_event-delete_ids :
    (e : String) (batch rs : List Row)
    → has_event e batch ≡ false
    → IsCovered batch rs
    → has_event e (delete_ids (row_ids batch) rs) ≡ has_event e rs
unfolding has_event delete_ids covers
has_event-delete_ids e batch [] absent h = refl
has_event-delete_ids e batch (r ∷ rs) absent h =
    let rest = has_event-delete_ids e batch rs absent h.1 in
    elim (Bool-cases (has_id r.id (row_ids batch))) [
      | inr kept ↦ rw kept (ground (arith, rest))
      | inl gone ↦ rw gone (ground (arith, rest, other gone (str_eq r.event.event_id e) refl))
    ]
  where
    other :
        has_id r.id (row_ids batch) ≡ true → (b : Bool) → str_eq r.event.event_id e ≡ b → b ≡ false
    other gone true same =
        let e' : r.event.event_id ≡ e = (eq_iff r.event.event_id e).0 same in
        let covered = h.0 in
        let found : has_event e batch ≡ true =
          rw e' at (
            let c : has_event r.event.event_id batch ≡ true = ground (arith, gone, covered) in c) in
        absurd (ground (arith, found, absent))
    other gone false same = refl
