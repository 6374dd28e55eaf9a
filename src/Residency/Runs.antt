-- ===== src/Residency/Runs.antt =====
-- cuda_residency.py: the invariant holds along every interleaving of the coordinator's tasks.
use mnemosyne_inference.Prelude.{
  ℕ, ◌≡◌, refl, ap, ◌⊎◌, Bool, true, false, ◌&&◌, not, Option, some, List, [], ◌∷◌, arith,
  if◌then◌else◌, Bool-cases, inl, inr,
}
use mnemosyne_inference.Residency.Types.{
  Coordinator, ResidencyError, CapacitySpec, Driver, driving, finishing, queued_for, stopping_for,
  loading_for, cleaning_for, new,
}
use mnemosyne_inference.Residency.System.{
  Event, ask, ask_current, poll_status, take_outcome, give_up_wait, give_back, set_limits,
  run_driver, engine_stopped, engine_raised, engine_loaded, cleaned_up, call_unload, call_shutdown,
  call_evict, run_maintenance, unloaded, stop_failed, is_free, driver_step, stopped_step,
  raised_step, loaded_step, cleaned_step, step, run,
}
use mnemosyne_inference.Residency.Permits.{IsSafe, in_transition}
use mnemosyne_inference.Residency.Safety.{
  purge_cancelled-IsSafe, acquire-IsSafe, acquire_current-IsSafe, collect-IsSafe,
  cancel_waiter-IsSafe, release-IsSafe, reconfigure-IsSafe,
}
use mnemosyne_inference.Residency.DriverSafety.{
  drive-IsSafe, finish_driver-IsSafe, lock_transition-IsSafe, begin_loading-IsSafe,
  raise_transition-IsSafe, finish_transition-IsSafe, fail_transition-IsSafe,
}
use mnemosyne_inference.Residency.MaintenanceSafety.{
  unload-IsSafe, shutdown-IsSafe, evict-IsSafe, maintenance_step-IsSafe, unloaded_step-IsSafe,
  stop_failed_step-IsSafe,
}

-- No clean cleanup of a failed transition opens admission inside a maintenance call.
abbrev pub IsCalm : Event → Coordinator → Type 0
IsCalm (cleaned_up clean) s = (is_free s.maintenance ≡ true) ⊎ (clean && not s.is_stopping ≡ false)
IsCalm _ s = Unit

abbrev pub AreCalm : List Event → Coordinator → Type 0
AreCalm [] s = Unit
AreCalm (e ∷ es) s = IsCalm e s × AreCalm es (step e s)

driver_step-IsSafe :
    (d : Driver) (s : Coordinator) → s.driver ≡ d → IsSafe s → IsSafe (driver_step d s)
unfolding driver_step
driver_step-IsSafe driving s e h = drive-IsSafe s e h
driver_step-IsSafe finishing s e h = finish_driver-IsSafe s h
driver_step-IsSafe (queued_for p d) s e h = elim (Bool-cases s.operation_lock) [
  | inl taken ↦ simp taken h
  | inr open_ ↦ simp open_ (lock_transition-IsSafe p d s e h)
]
driver_step-IsSafe _ s e h = h

stopped_step-IsSafe :
    (d : Driver) (s : Coordinator) → s.driver ≡ d → IsSafe s → IsSafe (stopped_step d s)
unfolding stopped_step
stopped_step-IsSafe (stopping_for p d) s e h = begin_loading-IsSafe p d s e h
stopped_step-IsSafe _ s e h = h

raised_step-IsSafe :
    (x : ResidencyError) (d : Driver) (s : Coordinator)
    → s.driver ≡ d
    → IsSafe s
    → IsSafe (raised_step x d s)
unfolding raised_step
raised_step-IsSafe x (stopping_for p d) s e h = raise_transition-IsSafe d x s (ap in_transition e) h
raised_step-IsSafe x (loading_for p d) s e h = raise_transition-IsSafe d x s (ap in_transition e) h
raised_step-IsSafe x _ s e h = h

loaded_step-IsSafe :
    (c : CapacitySpec) (d : Driver) (s : Coordinator)
    → s.driver ≡ d
    → IsSafe s
    → IsSafe (loaded_step c d s)
unfolding loaded_step
loaded_step-IsSafe c (loading_for p d) s e h = finish_transition-IsSafe p d c s e h
loaded_step-IsSafe c _ s e h = h

cleaned_step-IsSafe :
    (clean : Bool) (d : Driver) (s : Coordinator)
    → s.driver ≡ d
    → IsCalm (cleaned_up clean) s
    → IsSafe s
    → IsSafe (cleaned_step clean d s)
unfolding cleaned_step
cleaned_step-IsSafe clean (cleaning_for d x) s e calm h = elim (Bool-cases s.operation_lock) [
  | inl taken ↦ simp taken h
  | inr open_ ↦ simp open_ (fail_transition-IsSafe d x clean s (ap in_transition e) calm h)
]
cleaned_step-IsSafe clean _ s e calm h = h

if_free-IsSafe : (b : Bool) {s t : Coordinator} → IsSafe s → IsSafe t → IsSafe (if b then t else s)
if_free-IsSafe true hs ht = ht
if_free-IsSafe false hs ht = hs

pub step-IsSafe : (e : Event) (s : Coordinator) → IsCalm e s → IsSafe s → IsSafe (step e s)
unfolding step
step-IsSafe (ask t p d) s c h = acquire-IsSafe t p d s h
step-IsSafe ask_current s c h = acquire_current-IsSafe s h
step-IsSafe poll_status s c h = purge_cancelled-IsSafe s h
step-IsSafe (take_outcome t) s c h = collect-IsSafe t s h
step-IsSafe (give_up_wait now t) s c h = cancel_waiter-IsSafe now t s h
step-IsSafe (give_back now e) s c h = release-IsSafe now e s h
step-IsSafe (set_limits l d) s c h = reconfigure-IsSafe l d s h
step-IsSafe run_driver s c h = driver_step-IsSafe s.driver s refl h
step-IsSafe engine_stopped s c h = stopped_step-IsSafe s.driver s refl h
step-IsSafe (engine_raised e) s c h = raised_step-IsSafe e s.driver s refl h
step-IsSafe (engine_loaded l) s c h = loaded_step-IsSafe l s.driver s refl h
step-IsSafe (cleaned_up clean) s c h = cleaned_step-IsSafe clean s.driver s refl c h
step-IsSafe call_unload s c h = if_free-IsSafe (is_free s.maintenance) h (unload-IsSafe s h)
step-IsSafe call_shutdown s c h = if_free-IsSafe (is_free s.maintenance) h (shutdown-IsSafe s h)
step-IsSafe (call_evict now n) s c h =
    if_free-IsSafe (is_free s.maintenance) h (evict-IsSafe now n s h)
step-IsSafe (run_maintenance late) s c h = maintenance_step-IsSafe late s.maintenance s refl h
step-IsSafe unloaded s c h = unloaded_step-IsSafe s.maintenance s refl h
step-IsSafe (stop_failed code) s c h = stop_failed_step-IsSafe code s.maintenance s h

-- From a safe state, every interleaving of the coordinator's tasks in which no clean cleanup of a
-- failed transition falls into a maintenance call leads to a safe state: active counts exactly the
-- unreleased leases and uncollected grants of the current epoch, none is of a later epoch, a
-- switch in flight has no active permit and no ready state, and a maintenance call keeps admission
-- closed and, once it has drained, has no active permit.
pub run-IsSafe : (es : List Event) (s : Coordinator) → AreCalm es s → IsSafe s → IsSafe (run es s)
unfolding run
run-IsSafe [] s c h = h
run-IsSafe (e ∷ es) s c h = run-IsSafe es (step e s) c.1 (step-IsSafe e s c.0 h)

-- A new coordinator is safe.
pub new-IsSafe :
    (l : Option ℕ) (depth now : ℕ) (s : Coordinator) → new l depth now ≡ some s → IsSafe s
unfolding new
new-IsSafe l depth now s e = ground arith
