-- ===== src/Usage/Framing.antt =====
-- usage_normalization.py: `_SSE_BOUNDARY_RE` and the loop of `StreamingUsageParser.feed`, on lists of
-- byte values.
use mnemosyne_inference.Prelude.{
  ℕ, zero, suc, Option, none, some, List, [], ◌∷◌, ◌==◌, length, if◌then◌else◌,
}

-- `\n`
unfoldable pub newline : List ℕ → Option (List ℕ)
newline [] = none
newline (c ∷ cs) = if c == 10 then some cs else none

-- `\r?\n`
unfoldable pub line_break : List ℕ → Option (List ℕ)
line_break [] = none
line_break (c ∷ cs) = if c == 13 then newline cs else newline (c ∷ cs)

unfoldable pub second_break : Option (List ℕ) → Option (List ℕ)
second_break none = none
second_break (some cs) = line_break cs

-- `\r?\n\r?\n` at the head of the buffer: what is behind it.
unfoldable pub boundary : List ℕ → Option (List ℕ)
boundary cs = second_break (line_break cs)

unfoldable pub prefix_with : ℕ → Option (List ℕ × List ℕ) → Option (List ℕ × List ℕ)
prefix_with c none = none
prefix_with c (some (event, rest)) = some (c ∷ event, rest)

-- `search`: the event before the first boundary, and the buffer behind it.
unfoldable pub first_match : Option (List ℕ) → Option (List ℕ × List ℕ) → Option (List ℕ × List ℕ)
first_match none later = later
first_match (some rest) later = some ([], rest)

unfoldable pub search : List ℕ → Option (List ℕ × List ℕ)
search [] = none
search (c ∷ cs) = first_match (boundary (c ∷ cs)) (prefix_with c (search cs))

unfoldable pub cons_event :
    (List ℕ → List (List ℕ) × List ℕ)
    → (buffer : List ℕ) → Option (List ℕ × List ℕ)
    → List (List ℕ) × List ℕ
cons_event rest buffer none = ([], buffer)
cons_event rest buffer (some (event, behind)) =
    let (events, left) = rest behind in (event ∷ events, left)

-- The loop: the events in the buffer and what stays in it. A match is two bytes or more, so the
-- length of the buffer is enough fuel.
unfoldable pub frames : (fuel : ℕ) → List ℕ → List (List ℕ) × List ℕ
frames zero buffer = ([], buffer)
frames (suc n) buffer = cons_event (λ behind. frames n behind) buffer (search buffer)

unfoldable pub split_events : List ℕ → List (List ℕ) × List ℕ
split_events buffer = frames (length buffer) buffer
