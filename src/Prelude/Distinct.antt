-- ===== src/Prelude/Distinct.antt =====
-- The elements of `set(xs)`.
use Prim.Native.Nat.{◌≤◌}
use Prim.Native.String.{String}
use mathlib.Core.Path.{◌≡◌}
use mathlib.Core.Bool.{true}
use mathlib.Core.Logic.{◌⊎◌}
use mathlib.Core.List.{List, [], ◌∷◌}
use native.Mathlib.Omega.{arith}
use text.Mathlib.TextEquality.{eq_iff}
use text.Mathlib.TextPositions.{eq_refl}
use mnemosyne_inference.Prelude.Lists.{length, All}
use mnemosyne_inference.Prelude.Dict.{has, add, has-add, distinct}

abbrev pub In : {A : Type 0} → A → List A → Type 0
In x [] = ⊥
In x (y ∷ ys) = (y ≡ x) ⊎ In x ys

pub All-map {ℓ κ μ} :
    {A : Type ℓ} {P : A → Type κ} {Q : A → Type μ} (xs : List A)
    → ((x : A) → P x → Q x)
    → All P xs
    → All Q xs
All-map [] f h = tt
All-map (x ∷ xs) f h = (f x h.0, All-map xs f h.1)

has-add_of : (x y : String) (ys : List String) → has y ys ≡ true → has y (add x ys) ≡ true
has-add_of x y ys h = ground (arith, has-add x y ys)

pub has-add_self : (x : String) (ys : List String) → has x (add x ys) ≡ true
has-add_self x ys = ground (arith, has-add x x ys, eq_refl x)

distinct-has : (xs : List String) → All (λ x. has x (distinct xs) ≡ true) xs
unfolding distinct
distinct-has [] = tt
distinct-has (x ∷ xs) =
    (has-add_self x (distinct xs), All-map xs (λ y. has-add_of x y (distinct xs)) (distinct-has xs))

has_one :
    (a b : String) (ys : List String) → length ys ≤ 1 → has a ys ≡ true → has b ys ≡ true → a ≡ b
unfolding has
has_one a b [] l p q = cc
has_one a b (y ∷ []) l p q = ground (arith, eq_iff y a, eq_iff y b)
has_one a b (y ∷ z ∷ ys) l p q = absurd (omega arith)

has-distinct : (a : String) (xs : List String) → has a xs ≡ true → has a (distinct xs) ≡ true
unfolding has distinct
has-distinct a [] h = cc
has-distinct a (x ∷ xs) h = ground (arith, has-add x a (distinct xs), has-distinct a xs)

-- If a set has at most one element, every listed text is that element.
pub distinct_one :
    (a : String) (xs : List String)
    → length (distinct xs) ≤ 1
    → has a xs ≡ true
    → All (λ x. x ≡ a) xs
distinct_one a xs l h =
    All-map xs (λ x k. has_one x a (distinct xs) l k (has-distinct a xs h)) (distinct-has xs)
