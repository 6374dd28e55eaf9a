-- ===== src/Prelude/Text.antt =====
-- Python texts as their code points. `lower`, `isalpha` and the parser `int(…, 16)` are those of
-- ASCII texts.
use Prim.Native.Nat.{ℕ, zero, suc, ◌+◌}
use Prim.Native.Char.{code}
use Prim.Native.String.{String}
use mathlib.Core.Bool.{Bool, true, false, ◌&&◌, ◌||◌, not}
use mathlib.Core.List.{List, [], ◌∷◌}
use mnemosyne_inference.Prelude.Tests.{ltb, leb, ◌==◌, if◌then◌else◌}
use mnemosyne_inference.Prelude.Lists.{all_of, length}

abbrev pub codes : String → List ℕ
codes String.[] = []
codes (String.◌∷◌ c s) = code c ∷ codes s

abbrev pub text_length : String → ℕ
text_length s = length (codes s)

unfoldable pub starts_with : List ℕ → List ℕ → Bool
starts_with [] s = true
starts_with (p ∷ ps) [] = false
starts_with (p ∷ ps) (c ∷ s) = p == c && starts_with ps s

unfoldable pub drop : ℕ → List ℕ → List ℕ
drop zero s = s
drop (suc n) [] = []
drop (suc n) (c ∷ s) = drop n s

-- value == value.lower()
unfoldable pub is_lower_text : List ℕ → Bool
unfolding all_of
is_lower_text s = all_of (λ c. not (leb b'A' c && leb c b'Z')) s

unfoldable pub is_hex_digit : ℕ → Bool
is_hex_digit c = leb b'0' c && leb c b'9' || (leb b'a' c && leb c b'f' || leb b'A' c && leb c b'F')

-- What `int` skips.
unfoldable pub is_space : ℕ → Bool
is_space c = c == 32 || leb 9 c && leb c 13

-- What `strip` and `lstrip` remove from a text: its white space, as Unicode has it.
unfoldable pub is_white : ℕ → Bool
is_white c =
    leb 9 c && leb c 13
    || leb 28 c && leb c 32
    || c == 0x85
    || c == 0xa0
    || c == 0x1680
    || leb 0x2000 c && leb c 0x200a
    || leb 0x2028 c && leb c 0x2029
    || c == 0x202f
    || c == 0x205f
    || c == 0x3000

-- What `int(…, 16)` takes for digits: hex digits with single underscores between them, and spaces
-- behind.
unfoldable pub hex_rest : (after_digit : Bool) → List ℕ → Bool
unfolding is_hex_digit is_space all_of
hex_rest after [] = after
hex_rest after (c ∷ s) =
    let digit = hex_rest true s in
    let underscore = hex_rest false s in
    if is_hex_digit c
    then digit
    else if c == b'_' && after
    then underscore
    else after && is_space c && all_of is_space s

unfoldable pub hex_after_x : List ℕ → Bool
unfolding hex_rest
hex_after_x [] = false
hex_after_x (c ∷ s) = if c == b'_' then hex_rest false s else hex_rest false (c ∷ s)

unfoldable pub hex_prefix : List ℕ → Bool
unfolding hex_after_x
hex_prefix (a ∷ b ∷ s) =
    if a == b'0' && (b == b'x' || b == b'X') then hex_after_x s else hex_rest false (a ∷ b ∷ s)
hex_prefix s = hex_rest false s

unfoldable pub hex_sign : List ℕ → Bool
unfolding hex_prefix
hex_sign [] = false
hex_sign (c ∷ s) = if c == b'+' || c == b'-' then hex_prefix s else hex_prefix (c ∷ s)

-- `int(s, 16)` does not raise.
unfoldable pub parses_hex : List ℕ → Bool
unfolding hex_sign is_space
parses_hex [] = false
parses_hex (c ∷ s) = let rest = parses_hex s in if is_space c then rest else hex_sign (c ∷ s)

-- The order of Python texts, by code points.
unfoldable pub codes_lt : List ℕ → List ℕ → Bool
codes_lt s [] = false
codes_lt [] (d ∷ t) = true
codes_lt (c ∷ s) (d ∷ t) = ltb c d || (c == d && codes_lt s t)

-- tuple(sorted(set(xs))) == xs: strictly increasing.
unfoldable pub sorted_unique : List String → Bool
unfolding codes_lt
sorted_unique [] = true
sorted_unique (x ∷ xs) =
    elim xs [ [] ↦ true | y ∷ ys ↦ codes_lt (codes x) (codes y) ] && sorted_unique xs

unfoldable pub reverse_onto : List ℕ → List ℕ → List ℕ
reverse_onto [] t = t
reverse_onto (c ∷ s) t = reverse_onto s (c ∷ t)

-- s.split(c): the pieces between the separators; `piece` is the one being read, in reverse.
unfoldable pub split_on : ℕ → List ℕ → List ℕ → List (List ℕ)
unfolding reverse_onto
split_on c piece [] = reverse_onto piece [] ∷ []
split_on c piece (d ∷ s) =
    let ended = reverse_onto piece [] ∷ split_on c [] s in
    let longer = split_on c (d ∷ piece) s in if d == c then ended else longer

unfoldable pub same_codes : List ℕ → List ℕ → Bool
same_codes [] [] = true
same_codes [] (d ∷ ds) = false
same_codes (c ∷ cs) [] = false
same_codes (c ∷ cs) (d ∷ ds) = c == d && same_codes cs ds

unfoldable pub lower : List ℕ → List ℕ
lower [] = []
lower (c ∷ cs) = (if leb 65 c && leb c 90 then c + 32 else c) ∷ lower cs
