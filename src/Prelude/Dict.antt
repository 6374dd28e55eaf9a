-- ===== src/Prelude/Dict.antt =====
-- Python's `dict` and `set` with text keys, as lists in the order of insertion.
use Prim.Native.String.{String}
use mathlib.Core.Path.{◌≡◌, refl}
use mathlib.Core.Logic.{inl, inr}
use mathlib.Core.Bool.{Bool, true, false, ◌||◌}
use mathlib.Core.Option.{Option, none, some}
use mathlib.Core.List.{List, [], ◌∷◌}
use native.Mathlib.Omega.{arith}
use text.Mathlib.TextEquality.{eq_iff}
use text.Mathlib.TextPositions.{eq_refl}
use mnemosyne_inference.Prelude.Tests.{str_eq, if◌then◌else◌, Bool-cases}

abbrev pub Dict {ℓ} : Type ℓ → Type ℓ
Dict V = List (String × V)

module _ {ℓ} {V : Type ℓ} where
  -- d.get(k)
  unfoldable pub get : String → Dict V → Option V
  get k [] = none
  get k ((j, v) ∷ m) = if str_eq j k then some v else get k m

  -- d[k] = v
  unfoldable pub put : String → V → Dict V → Dict V
  put k v [] = (k, v) ∷ []
  put k v ((j, w) ∷ m) = if str_eq j k then (j, v) ∷ m else (j, w) ∷ put k v m

  -- d.pop(k, None)
  unfoldable pub pop : String → Dict V → Dict V
  pop k [] = []
  pop k ((j, w) ∷ m) = let rest = pop k m in if str_eq j k then rest else (j, w) ∷ rest

  pub get-put :
      (k j : String) (v : V) (m : Dict V)
      → get j (put k v m) ≡ (if str_eq k j then some v else get j m)
  unfolding get put
  get-put k j v [] = refl
  get-put k j v ((i, w) ∷ m) = ground (arith, eq_iff i k, eq_iff i j, eq_iff k j, get-put k j v m)

  pub get-put_self : (k : String) (v : V) (m : Dict V) → get k (put k v m) ≡ some v
  get-put_self k v m = simp (get-put, eq_refl)

  pub get-pop :
      (k j : String) (m : Dict V) → get j (pop k m) ≡ (if str_eq k j then none else get j m)
  unfolding get pop
  get-pop k j [] = ground arith
  get-pop k j ((i, w) ∷ m) = ground (arith, eq_iff i k, eq_iff i j, eq_iff k j, get-pop k j m)

  pub pop_absent : (k : String) (m : Dict V) → get k m ≡ none → pop k m ≡ m
  unfolding get pop
  pop_absent k [] h = refl
  pop_absent k ((i, w) ∷ m) h = ground (arith, pop_absent k m)

  -- A fresh key that is put and popped leaves the dictionary as it was.
  pub pop-put : (k : String) (v : V) (m : Dict V) → get k m ≡ none → pop k (put k v m) ≡ m
  unfolding get put pop
  pop-put k v [] h = ground (arith, eq_iff k k)
  pop-put k v ((i, w) ∷ m) h = ground (arith, pop-put k v m)

-- x in s
unfoldable pub has : String → List String → Bool
has x [] = false
has x (y ∷ ys) = str_eq y x || has x ys

-- s.add(x)
unfoldable pub add : String → List String → List String
add x ys = if has x ys then ys else x ∷ ys

pub has-add : (x y : String) (ys : List String) → has y (add x ys) ≡ (str_eq x y || has y ys)
unfolding add has
has-add x y ys = elim (Bool-cases (has x ys)) [
  | inl old ↦ rw old (same old (str_eq x y) refl)
  | inr new ↦ rw new
]
  where
    same : has x ys ≡ true → (b : Bool) → str_eq x y ≡ b → has y ys ≡ (b || has y ys)
    same old true e = let e' : x ≡ y = (eq_iff x y).0 e in rw (← e') old
    same old false e = refl

-- set(xs)
unfoldable pub distinct : List String → List String
unfolding add
distinct [] = []
distinct (x ∷ xs) = add x (distinct xs)
