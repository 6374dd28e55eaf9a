-- ===== src/Usage/Chunks.antt =====
-- usage_normalization.py: the events of a stream do not depend on its chunks.
use mnemosyne_inference.Prelude.{
  ℕ, zero, suc, ◌≤◌, ◌<◌, ◌≡◌, refl, ap, Option, none, some, List, [], ◌∷◌, ◌++◌, ◌==◌, length,
  Bool-cases, arith, inl, inr,
}
use mnemosyne_inference.Usage.Framing.{
  newline, line_break, second_break, boundary, prefix_with, first_match, search, cons_event, frames,
  split_events,
}

newline-append : (xs ys r : List ℕ) → newline xs ≡ some r → newline (xs ++ ys) ≡ some (r ++ ys)
unfolding newline
newline-append [] ys r h = absurd cc
newline-append (c ∷ cs) ys r h = elim (Bool-cases (c == 10)) [
  | inl e ↦ rw e (
      let k : some cs ≡ some r = rw e at h in
      let same : cs ≡ r = cc in ap (λ z. some (z ++ ys)) same)
  | inr e ↦ absurd (let k : none ≡ some r = rw e at h in cc)
]

line_break-append :
    (xs ys r : List ℕ) → line_break xs ≡ some r → line_break (xs ++ ys) ≡ some (r ++ ys)
unfolding line_break
line_break-append [] ys r h = absurd cc
line_break-append (c ∷ cs) ys r h = elim (Bool-cases (c == 13)) [
  | inl e ↦ rw e (newline-append cs ys r (rw e at h))
  | inr e ↦ rw e (newline-append (c ∷ cs) ys r (rw e at h))
]

boundary-append : (xs ys r : List ℕ) → boundary xs ≡ some r → boundary (xs ++ ys) ≡ some (r ++ ys)
unfolding boundary second_break
boundary-append xs ys r h = by_first (line_break xs) refl h
  where
    by_first :
        (o : Option (List ℕ))
        → line_break xs ≡ o
        → second_break o ≡ some r
        → second_break (line_break (xs ++ ys)) ≡ some (r ++ ys)
    by_first none e k = absurd cc
    by_first (some z) e k = rw (line_break-append xs ys z e) (line_break-append z ys r k)

-- A buffer that only more bytes make start with a boundary has none in it.
pending_search :
    (xs ys r : List ℕ) → boundary xs ≡ none → boundary (xs ++ ys) ≡ some r → search xs ≡ none
unfolding boundary second_break line_break newline search first_match prefix_with
pending_search [] ys r h k = refl
pending_search (a ∷ []) ys r h k = ground arith
pending_search (a ∷ b ∷ []) ys r h k = ground arith
pending_search (a ∷ b ∷ c ∷ []) ys r h k = ground arith
pending_search (a ∷ b ∷ c ∷ d ∷ xs) ys r h k = absurd (ground arith)

search_step :
    (c : ℕ) (cs ys e b : List ℕ)
    → ((e' b' : List ℕ) → search cs ≡ some (e', b') → search (cs ++ ys) ≡ some (e', b' ++ ys))
    → search (c ∷ cs) ≡ some (e, b)
    → search (c ∷ (cs ++ ys)) ≡ some (e, b ++ ys)
unfolding search first_match prefix_with
search_step c cs ys e b ih h = by_head (boundary (c ∷ cs)) refl h
  where
    not_yet :
        (e' b' : List ℕ)
        → search cs ≡ some (e', b')
        → c ∷ e' ≡ e
        → b' ≡ b
        → boundary (c ∷ cs) ≡ none
        → (o : Option (List ℕ)) → boundary (c ∷ (cs ++ ys)) ≡ o
        → first_match o (prefix_with c (search (cs ++ ys))) ≡ some (e, b ++ ys)
    not_yet e' b' s k l n none q = rw (ih e' b' s) cc
    not_yet e' b' s k l n (some z) q = absurd (let nothing = pending_search (c ∷ cs) ys z n q in cc)

    later :
        (o : Option (List ℕ × List ℕ))
        → search cs ≡ o
        → prefix_with c o ≡ some (e, b)
        → boundary (c ∷ cs) ≡ none
        → first_match (boundary (c ∷ (cs ++ ys))) (prefix_with c (search (cs ++ ys)))
          ≡ some (e, b ++ ys)
    later none s k n = absurd cc
    later (some (e', b')) s k n =
        let front : c ∷ e' ≡ e = cc in
        let back : b' ≡ b = cc in not_yet e' b' s front back n (boundary (c ∷ (cs ++ ys))) refl

    by_head :
        (o : Option (List ℕ))
        → boundary (c ∷ cs) ≡ o
        → first_match o (prefix_with c (search cs)) ≡ some (e, b)
        → first_match (boundary (c ∷ (cs ++ ys))) (prefix_with c (search (cs ++ ys)))
          ≡ some (e, b ++ ys)
    by_head none q k = later (search cs) refl k q
    by_head (some z) q k = rw (boundary-append (c ∷ cs) ys z q) cc

search-append :
    (xs ys e b : List ℕ) → search xs ≡ some (e, b) → search (xs ++ ys) ≡ some (e, b ++ ys)
search-append [] ys e b h = absurd (unfold search in cc)
search-append (c ∷ cs) ys e b h = search_step c cs ys e b (λ e' b' k. search-append cs ys e' b' k) h

newline_shorter : (xs r : List ℕ) → newline xs ≡ some r → length r < length xs
unfolding newline
newline_shorter [] r h = absurd cc
newline_shorter (c ∷ cs) r h = elim (Bool-cases (c == 10)) [
  | inl e ↦
      (let k : some cs ≡ some r = rw e at h in let same : cs ≡ r = cc in rw same (omega arith))
  | inr e ↦ absurd (let k : none ≡ some r = rw e at h in cc)
]

line_break_shorter : (xs r : List ℕ) → line_break xs ≡ some r → length r < length xs
unfolding line_break
line_break_shorter [] r h = absurd cc
line_break_shorter (c ∷ cs) r h = elim (Bool-cases (c == 13)) [
  | inl e ↦ omega (arith, newline_shorter cs r (rw e at h))
  | inr e ↦ newline_shorter (c ∷ cs) r (rw e at h)
]

boundary_shorter : (xs r : List ℕ) → boundary xs ≡ some r → length r < length xs
unfolding boundary second_break
boundary_shorter xs r h = by_first (line_break xs) refl h
  where
    by_first :
        (o : Option (List ℕ)) → line_break xs ≡ o → second_break o ≡ some r → length r < length xs
    by_first none e k = absurd cc
    by_first (some z) e k = omega (arith, line_break_shorter xs z e, line_break_shorter z r k)

search_shorter : (xs e b : List ℕ) → search xs ≡ some (e, b) → length b < length xs
unfolding search first_match prefix_with
search_shorter [] e b h = absurd cc
search_shorter (c ∷ cs) e b h =
    by_head (boundary (c ∷ cs)) refl (λ e' b' k. search_shorter cs e' b' k) h
  where
    later :
        (o : Option (List ℕ × List ℕ))
        → search cs ≡ o
        → ((e' b' : List ℕ) → search cs ≡ some (e', b') → length b' < length cs)
        → prefix_with c o ≡ some (e, b)
        → length b < suc (length cs)
    later none s ih k = absurd cc
    later (some (e', b')) s ih k = let same : b' ≡ b = cc in rw (← same) (omega (arith, ih e' b' s))

    by_head :
        (o : Option (List ℕ))
        → boundary (c ∷ cs) ≡ o
        → ((e' b' : List ℕ) → search cs ≡ some (e', b') → length b' < length cs)
        → first_match o (prefix_with c (search cs)) ≡ some (e, b)
        → length b < suc (length cs)
    by_head none q ih k = later (search cs) refl ih k
    by_head (some z) q ih k = let same : z ≡ b = cc in rw (← same) (boundary_shorter (c ∷ cs) z q)

-- The events of the head, then those of the rest.
abbrev join : List (List ℕ) → List (List ℕ) × List ℕ → List (List ℕ) × List ℕ
join es (fs, left) = (es ++ fs, left)

-- Fuel beyond the length changes nothing.
frames_fuel : (n m : ℕ) (xs : List ℕ) → length xs ≤ n → length xs ≤ m → frames n xs ≡ frames m xs
unfolding frames cons_event
frames_fuel zero zero xs h k = refl
frames_fuel zero (suc m) [] h k = unfold search in (unfold cons_event in refl)
frames_fuel zero (suc m) (c ∷ cs) h k = absurd (omega arith)
frames_fuel (suc n) zero [] h k = unfold search in (unfold cons_event in refl)
frames_fuel (suc n) zero (c ∷ cs) h k = absurd (omega arith)
frames_fuel (suc n) (suc m) xs h k = by_match (search xs) refl (λ b l l'. frames_fuel n m b l l')
  where
    by_match :
        (o : Option (List ℕ × List ℕ))
        → search xs ≡ o
        → ((b : List ℕ) → length b ≤ n → length b ≤ m → frames n b ≡ frames m b)
        → cons_event (λ behind. frames n behind) xs o ≡ cons_event (λ behind. frames m behind) xs o
    by_match none e ih = refl
    by_match (some (event, behind)) e ih =
        let l = search_shorter xs event behind e in
        unfold cons_event in (rw (ih behind (omega arith) (omega arith)) refl)

split_events_match :
    (xs e b : List ℕ) → search xs ≡ some (e, b) → split_events xs ≡ join (e ∷ []) (split_events b)
unfolding split_events
split_events_match [] e b h = absurd (unfold search in cc)
split_events_match (c ∷ cs) e b h =
    unfold frames in
    (rw h (
      unfold cons_event in
      (rw
        (frames_fuel (length cs) (length b) b (let l = search_shorter (c ∷ cs) e b h in omega arith)
          (omega arith))
        refl)))

frames-append :
    (n : ℕ) (xs ys : List ℕ)
    → length xs ≤ n
    → split_events (xs ++ ys) ≡ join (frames n xs).0 (split_events ((frames n xs).1 ++ ys))
unfolding frames
frames-append zero xs ys h = refl
frames-append (suc n) xs ys h = by_match (search xs) refl (λ b l. frames-append n b ys l)
  where
    by_match :
        (o : Option (List ℕ × List ℕ))
        → search xs ≡ o
        → ((b : List ℕ)
            → length b ≤ n
            → split_events (b ++ ys) ≡ join (frames n b).0 (split_events ((frames n b).1 ++ ys)))
        → split_events (xs ++ ys)
          ≡ join
              (cons_event (λ behind. frames n behind) xs o).0
              (split_events ((cons_event (λ behind. frames n behind) xs o).1 ++ ys))
    by_match none e ih = unfold cons_event in refl
    by_match (some (event, behind)) e ih =
        let l = search_shorter xs event behind e in
        unfold cons_event in
        (rw
          (split_events_match (xs ++ ys) event (behind ++ ys) (search-append xs ys event behind e))
          (rw (ih behind (omega arith)) refl))

-- The events of a buffer with more bytes behind it are the events of the buffer, and then those of
-- what the buffer left, with these bytes behind it: a boundary found early is never found
-- differently later.
pub split_events-append :
    (xs ys : List ℕ)
    → split_events (xs ++ ys) ≡ (
      (split_events xs).0 ++ (split_events ((split_events xs).1 ++ ys)).0,
      (split_events ((split_events xs).1 ++ ys)).1,
    )
split_events-append xs ys = unfold split_events in (frames-append (length xs) xs ys (omega arith))
