-- ===== src/Macos/LockCounts.antt =====
-- macos/service/src/mnemosyne_macos/coordinator.py: the tasks that hold the operation lock, those that
-- work on the engines, and how many there are. The closing of the adapters in `shutdown` is left out.
use mnemosyne_inference.Prelude.{
  ℕ, zero, suc, ◌+◌, ◌≤◌, ◌≡◌, refl, ap, Bool, true, false, Option, none, some, List, [], ◌∷◌, ◌++◌,
  arith,
}
use mnemosyne_inference.Leasing.{one_if}
use mnemosyne_inference.Macos.Types.{
  Driver, absent, driving, finishing, queued_for, unloading_for, emptying_for, loading_for,
  verifying_for, loaded_for, cleaning_for, holds_lock, Barrier, Audit, audit_waiting,
  audit_inspecting, audit_failed, audit_judging, Shutdown, not_called, drain_grace, before_cleanup,
  cleaning_up, shut_down, await_grace, Coordinator,
}
use mnemosyne_inference.Macos.System
use mnemosyne_inference.Macos.System.{
  Call, Event, ask, take_outcome, give_up_wait, give_back, run_driver, engines_answered,
  engine_raised, cleaned_up, driver_cancelled, start, run_barrier, barrier_answered,
  barrier_cancelled, start_audit, audit_step, shutdown_step, nth, replace, in_lock, add_barrier,
  call, put_barrier, run_barrier_at, answer_barrier_at, cancel_barrier_at, put_audit, audit_at,
  step, run,
}
use mnemosyne_inference.Macos.Lock.{IsBalanced}

abbrev pub count_by : {A : Type 0} → (A → Bool) → List A → ℕ
count_by f [] = 0
count_by f (x ∷ xs) = one_if (f x) + count_by f xs

abbrev pub holds_by : {A : Type 0} → (A → Bool) → Option A → Bool
holds_by f none = false
holds_by f (some x) = f x

abbrev pub works : Barrier → Bool
works b = in_lock b.stage

abbrev pub inspects : Audit → Bool
inspects audit_inspecting = true
inspects audit_waiting = false
inspects (audit_failed b) = false
inspects (audit_judging rs) = false

abbrev pub cleans : Shutdown → Bool
cleans cleaning_up = true
cleans not_called = false
cleans (drain_grace k) = false
cleans before_cleanup = false
cleans shut_down = false
cleans (await_grace k) = false

-- `_cleanup_best_effort` behind a failed transition runs without the lock.
abbrev pub cleans_up : Driver → Bool
cleans_up (cleaning_for t e) = true
cleans_up absent = false
cleans_up driving = false
cleans_up finishing = false
cleans_up (queued_for t) = false
cleans_up (unloading_for t) = false
cleans_up (emptying_for t) = false
cleans_up (loading_for t) = false
cleans_up (verifying_for t) = false
cleans_up (loaded_for t) = false

-- The driver inspects, unloads or loads.
abbrev pub uses_engines : Driver → Bool
uses_engines (unloading_for t) = true
uses_engines (emptying_for t) = true
uses_engines (loading_for t) = true
uses_engines (verifying_for t) = true
uses_engines (cleaning_for t e) = true
uses_engines absent = false
uses_engines driving = false
uses_engines finishing = false
uses_engines (queued_for t) = false
uses_engines (loaded_for t) = false

-- The tasks that work on the engines.
unfoldable pub engine_users : Coordinator → ℕ
engine_users s =
    one_if (uses_engines s.driver)
    + count_by works s.barriers
    + (count_by inspects s.audits + one_if (cleans s.shutdown))

-- The tasks inside `async with self._operation_lock`.
unfoldable pub lock_holders : Coordinator → ℕ
lock_holders s =
    one_if (holds_lock s.driver)
    + count_by works s.barriers
    + (count_by inspects s.audits + one_if (cleans s.shutdown))

abbrev pub IsLocked : Coordinator → Type 0
IsLocked s = lock_holders s ≡ one_if s.operation_lock

pub count_by-append :
    {A : Type 0} (f : A → Bool) (xs : List A) (o : Option A)
    → count_by f (xs ++ System.prepend o []) ≡ count_by f xs + one_if (holds_by f o)
count_by-append f [] none = omega arith
count_by-append f [] (some x) = omega arith
count_by-append f (x ∷ xs) o = let rest = count_by-append f xs o in omega arith

-- The i-th task goes on: the others count as before.
pub count_by-replace :
    {A : Type 0} (f : A → Bool) (i : ℕ) (o : Option A) (xs : List A) (x : A)
    → nth i xs ≡ some x
    → count_by f (replace i o xs) + one_if (f x) ≡ count_by f xs + one_if (holds_by f o)
unfolding nth replace
count_by-replace f i o [] x e = absurd cc
count_by-replace f zero none (y ∷ ys) x e =
    let same : y ≡ x = cc in let same_f : f y ≡ f x = ap f same in rw same_f (omega arith)
count_by-replace f zero (some z) (y ∷ ys) x e =
    let same : y ≡ x = cc in let same_f : f y ≡ f x = ap f same in rw same_f (omega arith)
count_by-replace f (suc i) o (y ∷ ys) x e = let rest = count_by-replace f i o ys x e in omega arith

count_by-nth :
    {A : Type 0} (f : A → Bool) (i : ℕ) (xs : List A) (x : A)
    → nth i xs ≡ some x
    → one_if (f x) ≤ count_by f xs
unfolding nth
count_by-nth f i [] x e = absurd cc
count_by-nth f zero (y ∷ ys) x e =
    let same : y ≡ x = cc in let same_f : f y ≡ f x = ap f same in rw same_f (omega arith)
count_by-nth f (suc i) (y ∷ ys) x e = let rest = count_by-nth f i ys x e in omega arith

-- Where a task works, the lock is taken.
lock_taken : (b l : Bool) (n : ℕ) → one_if b ≤ n → n ≤ one_if l → b ≡ true → l ≡ true
lock_taken b true n e e' on = refl
lock_taken true false n e e' on = absurd (omega arith)
lock_taken false false n e e' on = on

pub driver_taken :
    (s : Coordinator) → IsLocked s → holds_lock s.driver ≡ true → s.operation_lock ≡ true
unfolding lock_holders
driver_taken s h =
    lock_taken (holds_lock s.driver) s.operation_lock (lock_holders s) (omega arith) (omega arith)

pub barrier_taken :
    (i : ℕ) (b : Barrier) (s : Coordinator)
    → nth i s.barriers ≡ some b
    → IsLocked s
    → in_lock b.stage ≡ true
    → s.operation_lock ≡ true
unfolding lock_holders
barrier_taken i b s e h =
    let some_work = count_by-nth works i s.barriers b e in
    lock_taken (works b) s.operation_lock (lock_holders s) (omega arith) (omega arith)

pub audit_taken :
    (i : ℕ) (a : Audit) (s : Coordinator)
    → nth i s.audits ≡ some a
    → IsLocked s
    → inspects a ≡ true
    → s.operation_lock ≡ true
unfolding lock_holders
audit_taken i a s e h =
    let some_work = count_by-nth inspects i s.audits a e in
    lock_taken (inspects a) s.operation_lock (lock_holders s) (omega arith) (omega arith)

pub shutdown_taken :
    (s : Coordinator) → IsLocked s → cleans s.shutdown ≡ true → s.operation_lock ≡ true
unfolding lock_holders
shutdown_taken s h =
    lock_taken (cleans s.shutdown) s.operation_lock (lock_holders s) (omega arith) (omega arith)

pub IsBalanced-IsLocked : (s s' : Coordinator) → IsBalanced s s' → IsLocked s → IsLocked s'
unfolding lock_holders
IsBalanced-IsLocked s s' b h =
    let even = b.balance in rw (b.same_barriers, b.same_audits, b.same_shutdown) (omega arith)

driver_uses : (d : Driver) → one_if (uses_engines d) ≡ one_if (holds_lock d) + one_if (cleans_up d)
driver_uses absent = refl
driver_uses driving = refl
driver_uses finishing = refl
driver_uses (queued_for t) = refl
driver_uses (unloading_for t) = refl
driver_uses (emptying_for t) = refl
driver_uses (loading_for t) = refl
driver_uses (verifying_for t) = refl
driver_uses (loaded_for t) = refl
driver_uses (cleaning_for t e) = refl

-- Who works on the engines has the lock, but for the driver's cleanup.
pub engine_users_lem :
    (s : Coordinator) → engine_users s ≡ lock_holders s + one_if (cleans_up s.driver)
unfolding engine_users lock_holders
engine_users_lem s = let split = driver_uses s.driver in omega arith
