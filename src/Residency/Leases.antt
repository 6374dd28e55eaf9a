-- ===== src/Residency/Leases.antt =====
-- cuda_residency.py: who is admitted at once, and what a returned lease frees.
use mnemosyne_inference.Prelude.{
  ℕ, ◌+◌, ◌≤◌, ◌<◌, ◌≡◌, refl, ap, ◌∙◌, Bool, true, false, not, Option, none, some, List, [], ◌∷◌,
  arith, ◌==◌, String, Bool-cases, inl, inr, is_nil, opt_str_eq, eq_iff,
}
use mnemosyne_inference.Residency.Types.{
  Profile, ResidencyError, Waiter, Coordinator, ready, idle, CoordinatorState, not_accepting,
  state_eq, no_maintenance, absent,
}
use mnemosyne_inference.Residency.Locked.{
  bump, set_state, admits, effective_limit, live_waiters, purge_cancelled, release_locked,
  ensure_driver, fail_all, fail_head,
}
use mnemosyne_inference.Residency.Admission.{
  leased, raised, grant_now, is_warm, admit, acquire, holds, remove_lease, release_section, release,
}
use mnemosyne_inference.Residency.Driver.{clear_failed, fail_transition}
use mnemosyne_inference.Residency.Maintenance.{
  finish_unload, unload, begin_drain, drain_check, begin_stop,
}
use mnemosyne_inference.Residency.System.{
  Event, call_unload, run_maintenance, unloaded, step, run, maintenance_step, unloaded_step,
}
use mnemosyne_inference.Residency.Permits.{IsSafe, one_if, LeasesUpTo, held-remove_lease}

opt_str_eq_sound : (a : Option String) (b : String) → opt_str_eq a (some b) ≡ true → a ≡ some b
opt_str_eq_sound none b h = cc
opt_str_eq_sound (some a) b h = ap some ((eq_iff a b).0 h)

-- What holds of a coordinator that hands out a permit at once.
pub record IsOpen (s : Coordinator) : Type 0 where
  pub accepting : s.accepting ≡ true
  pub authoritative : s.authoritative ≡ true
  pub running : s.is_stopping ≡ false
  pub no_waiters : live_waiters s.queue ≡ []
  pub state : s.state ≡ ready
  pub room : s.active < effective_limit s

ready_of_rank : (x : CoordinatorState) → state_eq x ready ≡ true → x ≡ ready
ready_of_rank x h = ground arith

is_nil_lem {ℓ} : {A : Type ℓ} (xs : List A) → is_nil xs ≡ true → xs ≡ []
is_nil_lem [] h = refl
is_nil_lem (x ∷ xs) h = cc

warm_facts :
    (d : String) (s : Coordinator)
    → admits s ≡ true
    → is_warm d (purge_cancelled s) ≡ true
    → IsOpen s × (s.resident_deployment_id ≡ some d)
unfolding admits is_warm purge_cancelled
warm_facts d s a w = (
  record {
    accepting = ground arith;
    authoritative = ground arith;
    running = ground arith;
    no_waiters = is_nil_lem (live_waiters s.queue) (ground arith);
    state = ready_of_rank s.state (ground arith);
    room = unfold effective_limit in ground arith;
  },
  opt_str_eq_sound s.resident_deployment_id d (ground arith),
)

admit_leased :
    (w : Waiter) (s : Coordinator) (e : ℕ)
    → (admit w s).1 ≡ leased e
    → (is_warm w.deployment_id s ≡ true) × (e ≡ s.epoch) × ((admit w s).0 ≡ grant_now s)
unfolding admit
admit_leased w s e h = ground arith

-- An acquire that returns a lease at once found an open coordinator with this deployment resident
-- and nobody waiting; the lease is of the current epoch, and active grows by one and stays within
-- the effective limit.
pub acquire_leased :
    (t : ℕ) (p : Profile) (d : String) (s : Coordinator) (e : ℕ)
    → (acquire t p d s).1 ≡ leased e
    → IsOpen s
      × (s.resident_deployment_id ≡ some d)
      × (e ≡ s.epoch)
      × ((acquire t p d s).0.active ≡ s.active + 1)
      × (s.active + 1 ≤ effective_limit s)
unfolding acquire
acquire_leased t p d s e h = elim (Bool-cases (admits s)) [
  | inl a ↦
      let w : Waiter = record { ticket = t; profile = p; deployment_id = d; cancelled = false } in
      let got = admit_leased w (purge_cancelled s) e (rw a at h) in
      let facts = warm_facts d s a got.0 in
      (
        facts.0,
        facts.1,
        got.1 ∙ (unfold purge_cancelled in refl),
        rw a
            (ap (λ (c : Coordinator). c.active) got.2 ∙ (unfold grant_now purge_cancelled in refl)),
        omega (arith, facts.0.room),
      )
  | inr a ↦ cc (rw a at h)
]

release_locked_active :
    (now e : ℕ) (s : Coordinator)
    → (e ≡ s.epoch → 0 < s.active)
    → (release_locked now e s).active + one_if (e == s.epoch) ≡ s.active
unfolding release_locked
release_locked_active now e s h = ground arith

ensure_driver_active : (s : Coordinator) → (ensure_driver s).active ≡ s.active
unfolding ensure_driver
ensure_driver_active s = ground arith

release_section_active :
    (now e : ℕ) (s : Coordinator)
    → (release_section now e s).active ≡ (release_locked now e s).active
unfolding release_section
release_section_active now e s = ground (arith, ensure_driver_active (release_locked now e s))

-- In a safe coordinator, releasing a lease that is out frees exactly one permit if the lease is of
-- the current epoch, and none if it is of an earlier one.
pub release_active :
    (now e : ℕ) (s : Coordinator)
    → IsSafe s
    → holds e s.leases ≡ true
    → (release now e s).active + one_if (e == s.epoch) ≡ s.active
unfolding release
release_active now e s h out =
    let s' : Coordinator = record s { leases = remove_lease e s.leases } in
    rw (out, release_section_active now e s')
      (release_locked_active now e s'
        (λ same. ground (arith, same, h.counted, held-remove_lease e s.epoch s.leases out)))

-- A lease that is not out cannot be released.
pub release_twice : (now e : ℕ) (s : Coordinator) → holds e s.leases ≡ false → release now e s ≡ s
unfolding release
release_twice now e s h = rw h

holds_up_to : (e k : ℕ) (ls : List ℕ) → LeasesUpTo k ls → holds e ls ≡ true → e ≤ k
unfolding holds
holds_up_to e k [] u h = cc
holds_up_to e k (l ∷ ls) u h = ground (arith, holds_up_to e k ls u.1)

-- If a maintenance call stops the engine while a lease is out and no lease is of a later epoch,
-- then active keeps its value and releasing that lease does not lower it: the permit is stranded.
pub finish_unload_strands :
    (r b : Bool) (now e : ℕ) (s : Coordinator)
    → LeasesUpTo s.epoch s.leases
    → holds e s.leases ≡ true
    → ((finish_unload r b s).active ≡ s.active)
      × ((release now e (finish_unload r b s)).active ≡ s.active)
unfolding finish_unload release
finish_unload_strands r b now e s u out =
    let old = holds_up_to e s.epoch s.leases u out in
    (
      unfold set_state bump in refl,
      rw out (release_section_active now e _ ∙ (unfold release_locked in ground (arith, old))),
    )

abbrev pub unload_events : List Event
unload_events = call_unload ∷ run_maintenance false ∷ unloaded ∷ []

-- An unload of a coordinator with no permit out, no driver task, no maintenance call and a free
-- operation lock, whose engine stops, ends with no resident, the next epoch, an empty queue, the
-- idle state, and admission open unless a shutdown had begun.
pub unload_drained :
    (s : Coordinator)
    → s.active ≡ 0
    → s.driver ≡ absent
    → s.maintenance ≡ no_maintenance
    → s.operation_lock ≡ false
    → ((run unload_events s).resident_profile ≡ none)
      × ((run unload_events s).resident_deployment_id ≡ none)
      × ((run unload_events s).epoch ≡ s.epoch + 1)
      × ((run unload_events s).queue ≡ [])
      × ((run unload_events s).state ≡ idle)
      × (admits (run unload_events s) ≡ not s.is_stopping)
unfolding run step unload begin_drain fail_all bump drain_check maintenance_step begin_stop
    unloaded_step finish_unload set_state admits
unload_drained s a d m l = ground arith

-- After a transition whose cleanup failed, an acquire is refused as not accepting, whatever the
-- state before.
pub failed_cleanup_closes :
    (t : ℕ) (p : Profile) (d d' : String) (e : ResidencyError) (s : Coordinator)
    → (acquire t p d (fail_transition d' e false s)).1 ≡ raised not_accepting
unfolding acquire admits fail_transition fail_head bump clear_failed
failed_cleanup_closes t p d d' e s = ground arith
