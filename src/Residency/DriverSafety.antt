-- ===== src/Residency/DriverSafety.antt =====
-- cuda_residency.py: each section of the driver task keeps the invariant.
use mnemosyne_inference.Prelude.{
  ℕ, ◌+◌, ◌≤◌, ◌≡◌, refl, ap, ◌∙◌, ◌⊎◌, Bool, true, false, ◌||◌, ◌&&◌, not, Option, none, some,
  List, [], ◌∷◌, arith, ◌==◌, String, Bool-cases, inl, inr, ltb, str_eq, max, opt_str_eq,
}
use native.Mathlib.Nat.{le_refl}
use mnemosyne_inference.Residency.Types.{
  Profile, Waiter, ResidencyError, not_accepting, Outcome, granted, failed, Coordinator,
  CapacitySpec, queued_for, stopping_for, loading_for, driving, finishing, CoordinatorState, ready,
  draining,
}
use mnemosyne_inference.Residency.Locked.{
  set_state, purge_cancelled, Grants, grant_loop, grant_with, grant_resident, grant_head,
  fail_head_loop, fail_head, fail_each, fail_all, effective_limit,
}
use mnemosyne_inference.Residency.Driver.{
  serve_resident, drive_head, drive_queue, drive_accepting, drive, finish_driver, lock_transition,
  begin_loading, finish_transition, raise_transition, clear_failed, fail_transition,
}
use mnemosyne_inference.Residency.System.{is_free}
use mnemosyne_inference.Residency.Permits.{
  IsSafe, owed, FuturesUpTo, held-past, owed-past, LeasesUpTo-suc, FuturesUpTo-suc, in_transition,
}
use mnemosyne_inference.Residency.Safety.{purge_cancelled-IsSafe, bump-IsSafe}

-- The loop counts every permit that it hands out, and stays within the limit.
pub record IsFair (e limit active count : ℕ) (fs : List (ℕ × Outcome)) (g : Grants) : Type 0 where
  pub owes : owed e g.futures + active ≡ owed e fs + g.active
  pub counts : g.count + active ≡ count + g.active
  pub fits : g.active ≤ max active limit
  pub up_to : FuturesUpTo e fs → FuturesUpTo e g.futures

pub grant_loop-IsFair :
    (p : Profile) (e limit : ℕ) (d : String) (ws : List Waiter) (active count : ℕ)
    (fs : List (ℕ × Outcome))
    → IsFair e limit active count fs (grant_loop p e limit d ws active count fs)
unfolding grant_loop
grant_loop-IsFair p e limit d [] active count fs = record {
  owes = refl;
  counts = refl;
  fits = omega arith;
  up_to = λ h. h;
}
grant_loop-IsFair p e limit d (w ∷ ws) active count fs =
    let skipped = grant_loop-IsFair p e limit d ws active count fs in
    let taken =
      grant_loop-IsFair p e limit d ws (active + 1) (count + 1) ((w.ticket, granted p e) ∷ fs) in
    elim (Bool-cases (str_eq w.deployment_id d && ltb active limit)) [
      | inl room ↦ rw room (elim (Bool-cases w.cancelled) [
        | inl gone ↦ rw gone skipped
        | inr live ↦ rw live (record {
          owes = ground (arith, taken.owes);
          counts = ground (arith, taken.counts);
          fits = ground (arith, taken.fits);
          up_to = λ h. taken.up_to (le_refl _, h);
        })
      ])
      | inr full ↦
          rw full (record { owes = refl; counts = refl; fits = omega arith; up_to = λ h. h })
    ]

abbrev NotInTransition : Coordinator → Type 0
NotInTransition s = in_transition s.driver ≡ false

grant_with-IsSafe :
    (p : Profile) (d : String) (s : Coordinator)
    → NotInTransition s
    → s.accepting ≡ true
    → IsSafe s
    → IsSafe (grant_with p d s).0
unfolding grant_with
grant_with-IsSafe p d s n a h =
    let fair = grant_loop-IsFair p s.epoch (effective_limit s) d s.queue s.active 0 s.futures in
    ground (arith, h, fair.owes, fair.up_to h.futures_old)

grant_resident-IsSafe :
    (o : Option Profile) (d : String) (s : Coordinator)
    → NotInTransition s
    → s.accepting ≡ true
    → IsSafe s
    → IsSafe (grant_resident o d s).0
unfolding grant_resident
grant_resident-IsSafe none d s n a h = h
grant_resident-IsSafe (some p) d s n a h = grant_with-IsSafe p d s n a h

grant_head-IsSafe :
    (d : String) (s : Coordinator)
    → NotInTransition s
    → s.accepting ≡ true
    → IsSafe s
    → IsSafe (grant_head d s).0
unfolding grant_head
grant_head-IsSafe d s = grant_resident-IsSafe s.resident_profile d s

grant_head_driver : (d : String) (s : Coordinator) → (grant_head d s).0.driver ≡ s.driver
unfolding grant_head grant_with
grant_head_driver d s = ground arith

set_state-IsSafe :
    (x : CoordinatorState) (t c : Option String) (s : Coordinator)
    → NotInTransition s
    → IsSafe s
    → IsSafe (set_state x t c s)
unfolding set_state
set_state-IsSafe x t c s n h = ground (arith, h)

serve_resident-IsSafe :
    (d : String) (s : Coordinator)
    → NotInTransition s
    → s.accepting ≡ true
    → IsSafe s
    → IsSafe (serve_resident d s)
unfolding serve_resident
serve_resident-IsSafe d s n a h =
    let kept = grant_head-IsSafe d s n a h in
    elim (Bool-cases ((grant_head d s).1 == 0)) [
      | inl e ↦
          rw e
            (set_state-IsSafe ready none none _ (ap in_transition (grant_head_driver d s) ∙ n) kept)
      | inr e ↦ rw e kept
    ]

drive_head-IsSafe :
    (w : Waiter) (s : Coordinator)
    → NotInTransition s
    → s.accepting ≡ true
    → IsSafe s
    → IsSafe (drive_head w s)
unfolding drive_head
drive_head-IsSafe w s n a h =
    elim (Bool-cases (opt_str_eq s.resident_deployment_id (some w.deployment_id))) [
      | inl same ↦ rw same (serve_resident-IsSafe w.deployment_id s n a h)
      | inr other ↦ rw other (elim (Bool-cases (ltb 0 s.active)) [
        | inl busy ↦ rw busy (set_state-IsSafe draining _ none s n h)
        | inr quiet ↦ rw quiet (unfold set_state in ground (arith, h))
      ])
    ]

drive_queue-IsSafe :
    (ws : List Waiter) (s : Coordinator)
    → NotInTransition s
    → s.accepting ≡ true
    → IsSafe s
    → IsSafe (drive_queue ws s)
unfolding drive_queue
drive_queue-IsSafe [] s n a h = unfold set_state in ground (arith, h)
drive_queue-IsSafe (w ∷ ws) s n a h = drive_head-IsSafe w s n a h

fail_each-owed :
    (e : ℕ) (x : ResidencyError) (ws : List Waiter) (fs : List (ℕ × Outcome))
    → (owed e (fail_each x ws fs) ≡ owed e fs)
      × (FuturesUpTo e fs → FuturesUpTo e (fail_each x ws fs))
unfolding fail_each
fail_each-owed e x [] fs = (refl, λ h. h)
fail_each-owed e x (w ∷ ws) fs = elim (Bool-cases w.cancelled) [
  | inl gone ↦ rw gone (fail_each-owed e x ws fs)
  | inr live ↦
      let ih = fail_each-owed e x ws ((w.ticket, failed x) ∷ fs) in
      rw live (omega (arith, ih.0), λ h. ih.1 (tt, h))
]

pub fail_all-IsSafe : (x : ResidencyError) (s : Coordinator) → IsSafe s → IsSafe (fail_all x s)
unfolding fail_all
fail_all-IsSafe x s h =
    let f = fail_each-owed s.epoch x s.queue s.futures in ground (arith, h, f.0, f.1 h.futures_old)

fail_head_owed :
    (e : ℕ) (d : String) (x : ResidencyError) (ws : List Waiter) (fs : List (ℕ × Outcome))
    → (owed e (fail_head_loop d x ws fs).1 ≡ owed e fs)
      × (FuturesUpTo e fs → FuturesUpTo e (fail_head_loop d x ws fs).1)
unfolding fail_head_loop
fail_head_owed e d x [] fs = (refl, λ h. h)
fail_head_owed e d x (w ∷ ws) fs = elim (Bool-cases (str_eq w.deployment_id d)) [
  | inl same ↦ rw same (elim (Bool-cases w.cancelled) [
    | inl gone ↦ rw gone (fail_head_owed e d x ws fs)
    | inr live ↦
        let ih = fail_head_owed e d x ws ((w.ticket, failed x) ∷ fs) in
        rw live (omega (arith, ih.0), λ h. ih.1 (tt, h))
  ])
  | inr other ↦ rw other (refl, λ h. h)
]

fail_head-IsSafe :
    (d : String) (x : ResidencyError) (s : Coordinator) → IsSafe s → IsSafe (fail_head d x s)
unfolding fail_head
fail_head-IsSafe d x s h =
    let f = fail_head_owed s.epoch d x s.queue s.futures in
    ground (arith, h, f.0, f.1 h.futures_old)

finishing-IsSafe : (s : Coordinator) → IsSafe s → IsSafe (record s { driver = finishing })
finishing-IsSafe s h = ground (arith, h)

drive_accepting-IsSafe :
    (s : Coordinator) → NotInTransition s → IsSafe s → IsSafe (drive_accepting s)
unfolding drive_accepting
drive_accepting-IsSafe s n h =
    elim (Bool-cases (not s.accepting || not s.authoritative || s.is_stopping)) [
      | inl shut ↦ rw shut (finishing-IsSafe _ (fail_all-IsSafe not_accepting s h))
      | inr open_ ↦ rw open_ (drive_queue-IsSafe s.queue s n (ground arith) h)
    ]

pub drive-IsSafe : (s : Coordinator) → s.driver ≡ driving → IsSafe s → IsSafe (drive s)
unfolding drive
drive-IsSafe s e h =
    drive_accepting-IsSafe _ (unfold purge_cancelled in ap in_transition e)
      (purge_cancelled-IsSafe s h)

pub finish_driver-IsSafe : (s : Coordinator) → IsSafe s → IsSafe (finish_driver s)
unfolding finish_driver
finish_driver-IsSafe s h = ground (arith, h)

pub lock_transition-IsSafe :
    (p : Profile) (d : String) (s : Coordinator)
    → s.driver ≡ queued_for p d
    → IsSafe s
    → IsSafe (lock_transition p d s)
unfolding lock_transition
lock_transition-IsSafe p d s e h = ground (arith, h)

pub begin_loading-IsSafe :
    (p : Profile) (d : String) (s : Coordinator)
    → s.driver ≡ stopping_for p d
    → IsSafe s
    → IsSafe (begin_loading p d s)
unfolding begin_loading
begin_loading-IsSafe p d s e h = ground (arith, h)

pub raise_transition-IsSafe :
    (d : String) (x : ResidencyError) (s : Coordinator)
    → in_transition s.driver ≡ true
    → IsSafe s
    → IsSafe (raise_transition d x s)
unfolding raise_transition
raise_transition-IsSafe d x s e h = ground (arith, h)

-- The new epoch starts with no permit out.
pub finish_transition-IsSafe :
    (p : Profile) (d : String) (c : CapacitySpec) (s : Coordinator)
    → s.driver ≡ loading_for p d
    → IsSafe s
    → IsSafe (finish_transition p d c s)
unfolding finish_transition
finish_transition-IsSafe p d c s e h =
    let no_held = held-past s.epoch s.epoch s.leases h.leases_old (le_refl _) in
    let no_owed = owed-past s.epoch s.epoch s.futures h.futures_old (le_refl _) in
    let leases = LeasesUpTo-suc s.epoch s.leases h.leases_old in
    let futures = FuturesUpTo-suc s.epoch s.futures h.futures_old in
    ground (arith, h, no_held, no_owed, leases, futures)

clear_failed-IsSafe :
    (clean : Bool) (s : Coordinator)
    → in_transition s.driver ≡ true
    → (is_free s.maintenance ≡ true) ⊎ (clean && not s.is_stopping ≡ false)
    → IsSafe s
    → IsSafe (clear_failed clean s)
unfolding clear_failed
clear_failed-IsSafe clean s e (inl free) h = ground (arith, h)
clear_failed-IsSafe clean s e (inr shut) h = ground (arith, h)

-- A failed transition keeps the invariant if its cleanup does not open admission in the middle
-- of a maintenance call.
pub fail_transition-IsSafe :
    (d : String) (x : ResidencyError) (clean : Bool) (s : Coordinator)
    → in_transition s.driver ≡ true
    → (is_free s.maintenance ≡ true) ⊎ (clean && not s.is_stopping ≡ false)
    → IsSafe s
    → IsSafe (fail_transition d x clean s)
unfolding fail_transition
fail_transition-IsSafe d x clean s e calm h =
    bump-IsSafe _
      (fail_head-IsSafe d x (clear_failed clean s) (clear_failed-IsSafe clean s e calm h))
