-- ===== src/Residency/MaintenanceSafety.antt =====
-- cuda_residency.py: each section of a maintenance call keeps the invariant.
use mnemosyne_inference.Prelude.{
  ℕ, ◌≡◌, refl, ap, ◌∙◌, ◌⊎◌, Bool, true, false, ◌||◌, not, none, arith, ◌==◌, String,
  if◌then◌else◌, Bool-cases, inl, inr,
}
use native.Mathlib.Nat.{le_refl}
use mnemosyne_inference.Residency.Types.{
  Coordinator, Maintenance, no_maintenance, evicting, drain_active, await_driver, before_stop,
  stop_engine, not_accepting, task_done, stopping,
}
use mnemosyne_inference.Residency.Locked.{bump, set_state, fail_all}
use mnemosyne_inference.Residency.Maintenance.{
  drain_check, begin_drain, unload, shutdown, evict, drain_timeout, give_up, begin_stop, fail_stop,
  finish_unload,
}
use mnemosyne_inference.Residency.System.{
  is_free, maintenance_step, unloaded_step, stop_failed_step,
}
use mnemosyne_inference.Residency.Permits.{
  IsSafe, held-past, owed-past, LeasesUpTo-suc, FuturesUpTo-suc, is_past_drain, is_draining,
}
use mnemosyne_inference.Residency.DriverSafety.{fail_all-IsSafe}

drain_check-IsSafe :
    (r b : Bool) (s : Coordinator) → s.accepting ≡ false → IsSafe s → IsSafe (drain_check r b s)
unfolding drain_check
drain_check-IsSafe r b s a h = ground (arith, h)

fail_all_accepting : (s : Coordinator) → (fail_all not_accepting s).accepting ≡ s.accepting
unfolding fail_all
fail_all_accepting s = refl

close-IsSafe : (s : Coordinator) → IsSafe s → IsSafe (bump (record s { accepting = false }))
unfolding bump
close-IsSafe s h = ground (arith, h)

-- A maintenance call marks the state `stopping`, which is not `ready`.
stopping-IsSafe : (s : Coordinator) → IsSafe s → IsSafe (set_state stopping none none s)
unfolding set_state
stopping-IsSafe s h = ground (arith, h)

marked-IsSafe :
    (b : Bool) (s : Coordinator)
    → IsSafe s
    → IsSafe (if b then set_state stopping none none s else s)
marked-IsSafe true s h = stopping-IsSafe s h
marked-IsSafe false s h = h

marked_accepting :
    (b : Bool) (s : Coordinator)
    → (if b then set_state stopping none none s else s).accepting ≡ s.accepting
unfolding set_state
marked_accepting true s = refl
marked_accepting false s = refl

begin_drain-IsSafe :
    (r b closed : Bool) (s : Coordinator)
    → (closed ≡ false) ⊎ (s.accepting ≡ false)
    → IsSafe s
    → IsSafe (begin_drain r b closed s)
unfolding begin_drain
begin_drain-IsSafe r b false s c h =
    let closed_safe = close-IsSafe s h in
    drain_check-IsSafe r b _ (fail_all_accepting _ ∙ marked_accepting b _ ∙ (unfold bump in refl))
      (fail_all-IsSafe not_accepting _ (marked-IsSafe b _ closed_safe))
begin_drain-IsSafe r b true s (inl c) h = cc
begin_drain-IsSafe r b true s (inr c) h =
    drain_check-IsSafe r b _ (fail_all_accepting _ ∙ marked_accepting b _ ∙ c)
      (fail_all-IsSafe not_accepting _ (marked-IsSafe b _ h))

pub unload-IsSafe : (s : Coordinator) → IsSafe s → IsSafe (unload s)
unfolding unload
unload-IsSafe s h = begin_drain-IsSafe true false false s (inl refl) h

pub shutdown-IsSafe : (s : Coordinator) → IsSafe s → IsSafe (shutdown s)
unfolding shutdown
shutdown-IsSafe s h = begin_drain-IsSafe false true false _ (inl refl) (ground (arith, h))

pub evict-IsSafe : (now n : ℕ) (s : Coordinator) → IsSafe s → IsSafe (evict now n s)
unfolding evict
evict-IsSafe now n s h = unfold bump in ground (arith, h)

drain_timeout-IsSafe :
    (r b : Bool) (s : Coordinator)
    → is_draining s.maintenance ≡ true
    → IsSafe s
    → IsSafe (drain_timeout r b s)
unfolding drain_timeout
drain_timeout-IsSafe r b s d h = ground (arith, h)

give_up-IsSafe : (b : Bool) (code : String) (s : Coordinator) → IsSafe s → IsSafe (give_up b code s)
unfolding give_up
give_up-IsSafe b code s h = ground (arith, h)

begin_stop-IsSafe :
    (r b : Bool) (s : Coordinator)
    → s.maintenance ≡ before_stop r b
    → IsSafe s
    → IsSafe (begin_stop r b s)
unfolding begin_stop
begin_stop-IsSafe r b s e h = ground (arith, h)

-- The engine is stopped with no permit out, so the new epoch starts with none.
finish_unload-IsSafe :
    (r b : Bool) (s : Coordinator)
    → is_past_drain s.maintenance ≡ true
    → IsSafe s
    → IsSafe (finish_unload r b s)
unfolding finish_unload
finish_unload-IsSafe r b s e h =
    let no_held = held-past s.epoch s.epoch s.leases h.leases_old (le_refl _) in
    let no_owed = owed-past s.epoch s.epoch s.futures h.futures_old (le_refl _) in
    let leases = LeasesUpTo-suc s.epoch s.leases h.leases_old in
    let futures = FuturesUpTo-suc s.epoch s.futures h.futures_old in
    ground (arith, h, no_held, no_owed, leases, futures)

waited-IsSafe :
    (r b : Bool) (task : ℕ) (s : Coordinator)
    → s.maintenance ≡ await_driver r b task
    → IsSafe s
    → IsSafe (record s { maintenance = before_stop r b })
waited-IsSafe r b task s e h = ground (arith, h)

pub maintenance_step-IsSafe :
    (late : Bool) (m : Maintenance) (s : Coordinator)
    → s.maintenance ≡ m
    → IsSafe s
    → IsSafe (maintenance_step late m s)
unfolding maintenance_step
maintenance_step-IsSafe late no_maintenance s e h = h
maintenance_step-IsSafe late evicting s e h =
    begin_drain-IsSafe true false true s (inr (h.barrier (ap is_free e))) h
maintenance_step-IsSafe true (drain_active r b) s e h =
    drain_timeout-IsSafe r b s (ap is_draining e) h
maintenance_step-IsSafe false (drain_active r b) s e h =
    drain_check-IsSafe r b s (h.barrier (ap is_free e)) h
maintenance_step-IsSafe late (await_driver r b task) s e h =
    elim (Bool-cases (task_done s.driver || not (s.driver_task == task))) [
      | inl over ↦ rw over (waited-IsSafe r b task s e h)
      | inr more ↦ rw more (elim (Bool-cases late) [
        | inl l ↦ rw l (give_up-IsSafe b "transition_drain_timeout" s h)
        | inr l ↦ rw l h
      ])
    ]
maintenance_step-IsSafe true (before_stop r b) s e h =
    give_up-IsSafe b "unload_deadline_expired" s h
maintenance_step-IsSafe false (before_stop r b) s e h = elim (Bool-cases s.operation_lock) [
  | inl taken ↦ simp taken h
  | inr open_ ↦ simp open_ (begin_stop-IsSafe r b s e h)
]
maintenance_step-IsSafe late (stop_engine r b) s e h = h

pub unloaded_step-IsSafe :
    (m : Maintenance) (s : Coordinator) → s.maintenance ≡ m → IsSafe s → IsSafe (unloaded_step m s)
unfolding unloaded_step
unloaded_step-IsSafe (stop_engine r b) s e h = finish_unload-IsSafe r b s (ap is_past_drain e) h
unloaded_step-IsSafe m s e h = h

pub stop_failed_step-IsSafe :
    (code : String) (m : Maintenance) (s : Coordinator)
    → IsSafe s
    → IsSafe (stop_failed_step code m s)
unfolding stop_failed_step fail_stop
stop_failed_step-IsSafe code (stop_engine r b) s h =
    give_up-IsSafe b code (record s { operation_lock = false }) (ground (arith, h))
stop_failed_step-IsSafe code m s h = h
