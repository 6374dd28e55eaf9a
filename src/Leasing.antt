-- ===== src/Leasing.antt =====
-- cuda_residency.py, macos/service/src/mnemosyne_macos/coordinator.py: the futures of waiting callers and
-- the leases that are out, which both coordinators keep in the same way. A permit belongs to the
-- epoch in which it was granted.
use mnemosyne_inference.Prelude.{
  ℕ, suc, ◌+◌, ◌≤◌, ◌≡◌, refl, Bool, true, false, Option, none, some, List, [], ◌∷◌, arith, ◌==◌,
  ◌||◌, All, if◌then◌else◌,
}

-- What a waiter's future was settled with: a permit of an epoch, with what it is for, or an
-- exception. A future that is not in the list is pending.
pub data Outcome (H E : Type 0) : Type 0 where
  granted : H → ℕ → Outcome H E
  failed : E → Outcome H E

abbrev pub Futures : Type 0 → Type 0 → Type 0
Futures H E = List (ℕ × Outcome H E)

unfoldable pub holds : ℕ → List ℕ → Bool
holds e [] = false
holds e (l ∷ ls) = l == e || holds e ls

unfoldable pub remove_lease : ℕ → List ℕ → List ℕ
remove_lease e [] = []
remove_lease e (l ∷ ls) = let rest = remove_lease e ls in if l == e then ls else l ∷ rest

abbrev pub one_if : Bool → ℕ
one_if b = if b then 1 else 0

-- The leases of an epoch among those not released.
abbrev pub held : ℕ → List ℕ → ℕ
held e [] = 0
held e (l ∷ ls) = one_if (l == e) + held e ls

abbrev pub LeasesUpTo : ℕ → List ℕ → Type 0
LeasesUpTo e ls = All (λ l. l ≤ e) ls

pub held-remove_lease :
    (e k : ℕ) (ls : List ℕ)
    → holds e ls ≡ true
    → held k ls ≡ one_if (e == k) + held k (remove_lease e ls)
unfolding holds remove_lease
held-remove_lease e k [] h = cc
held-remove_lease e k (l ∷ ls) h = ground (arith, held-remove_lease e k ls)

pub remove_lease-LeasesUpTo :
    (e k : ℕ) (ls : List ℕ) → LeasesUpTo k ls → LeasesUpTo k (remove_lease e ls)
unfolding remove_lease
remove_lease-LeasesUpTo e k [] h = tt
remove_lease-LeasesUpTo e k (l ∷ ls) h = ground (arith, remove_lease-LeasesUpTo e k ls h.1)

-- Behind the last epoch no permit is out.
pub held-past : (k e : ℕ) (ls : List ℕ) → LeasesUpTo k ls → k ≤ e → held (suc e) ls ≡ 0
held-past k e [] h le = refl
held-past k e (l ∷ ls) h le = ground (arith, held-past k e ls h.1 le)

pub LeasesUpTo-suc : (k : ℕ) (ls : List ℕ) → LeasesUpTo k ls → LeasesUpTo (suc k) ls
LeasesUpTo-suc k [] h = tt
LeasesUpTo-suc k (l ∷ ls) h = (omega arith, LeasesUpTo-suc k ls h.1)

module _ {H E : Type 0} where
  unfoldable pub outcome : ℕ → Futures H E → Option (Outcome H E)
  outcome t [] = none
  outcome t ((u, o) ∷ fs) = if u == t then some o else outcome t fs

  unfoldable pub drop_future : ℕ → Futures H E → Futures H E
  drop_future t [] = []
  drop_future t ((u, o) ∷ fs) = let rest = drop_future t fs in if u == t then fs else (u, o) ∷ rest

  abbrev pub is_grant : ℕ → Outcome H E → Bool
  is_grant e (granted p k) = k == e
  is_grant e (failed x) = false

  -- The permits of an epoch that are granted to waiters which have not collected them.
  abbrev pub owed : ℕ → Futures H E → ℕ
  owed e [] = 0
  owed e ((t, o) ∷ fs) = one_if (is_grant e o) + owed e fs

  abbrev pub OutcomeUpTo : ℕ → Outcome H E → Type 0
  OutcomeUpTo e (granted p k) = k ≤ e
  OutcomeUpTo e (failed x) = Unit

  abbrev pub FuturesUpTo : ℕ → Futures H E → Type 0
  FuturesUpTo e [] = Unit
  FuturesUpTo e ((t, o) ∷ fs) = OutcomeUpTo e o × FuturesUpTo e fs

  pub owed-drop_future :
      (t k : ℕ) (fs : Futures H E) (o : Outcome H E)
      → outcome t fs ≡ some o
      → owed k fs ≡ one_if (is_grant k o) + owed k (drop_future t fs)
  unfolding outcome drop_future
  owed-drop_future t k [] o h = cc
  owed-drop_future t k ((u, x) ∷ fs) o h = ground (arith, owed-drop_future t k fs o)

  pub drop_future-FuturesUpTo :
      (t k : ℕ) (fs : Futures H E) → FuturesUpTo k fs → FuturesUpTo k (drop_future t fs)
  unfolding drop_future
  drop_future-FuturesUpTo t k [] h = tt
  drop_future-FuturesUpTo t k ((u, x) ∷ fs) h = ground (arith, drop_future-FuturesUpTo t k fs h.1)

  pub outcome-UpTo :
      (t k : ℕ) (fs : Futures H E) (o : Outcome H E)
      → FuturesUpTo k fs
      → outcome t fs ≡ some o
      → OutcomeUpTo k o
  unfolding outcome
  outcome-UpTo t k [] o f h = cc
  outcome-UpTo t k ((u, granted p e) ∷ fs) (granted q l) f h =
      ground (arith, outcome-UpTo t k fs (granted q l) f.1)
  outcome-UpTo t k ((u, failed x) ∷ fs) (granted q l) f h =
      ground (arith, outcome-UpTo t k fs (granted q l) f.1)
  outcome-UpTo t k (f' ∷ fs) (failed x) f h = tt

  pub owed-past : (k e : ℕ) (fs : Futures H E) → FuturesUpTo k fs → k ≤ e → owed (suc e) fs ≡ 0
  owed-past k e [] h le = refl
  owed-past k e ((t, granted p l) ∷ fs) h le = ground (arith, owed-past k e fs h.1 le)
  owed-past k e ((t, failed x) ∷ fs) h le = omega (arith, owed-past k e fs h.1 le)

  pub FuturesUpTo-suc : (k : ℕ) (fs : Futures H E) → FuturesUpTo k fs → FuturesUpTo (suc k) fs
  FuturesUpTo-suc k [] h = tt
  FuturesUpTo-suc k ((t, granted p l) ∷ fs) h = (omega arith, FuturesUpTo-suc k fs h.1)
  FuturesUpTo-suc k ((t, failed x) ∷ fs) h = (tt, FuturesUpTo-suc k fs h.1)
