-- ===== src/Macos/Permits.antt =====
-- macos/service/src/mnemosyne_macos/coordinator.py: the permits, the transitions of the engines and the
-- maintenance calls in the runs from a new coordinator.
use mnemosyne_inference.Prelude.{
  ℕ, ◌+◌, ◌≤◌, ◌≡◌, refl, Bool, true, false, not, ◌&&◌, Option, some, List, [], ◌∷◌, arith, leb,
  Bool-cases, inl, inr,
}
use native.Mathlib.Nat.{le_refl}
use mnemosyne_inference.Leasing.{
  held, owed, FuturesUpTo, LeasesUpTo, held-past, owed-past, LeasesUpTo-suc, FuturesUpTo-suc,
}
use mnemosyne_inference.Macos.Targets.{ResolvedTarget}
use mnemosyne_inference.Macos.Types.{
  loaded_for, Stage, evicting, drain, before_lock, inspecting, unloading_all, emptying_all,
  operating, verifying, failing, await_driver, closing, Barrier, fresh, is_limit, new, Coordinator,
}
use mnemosyne_inference.Macos.Driver.{publish_handle}
use mnemosyne_inference.Macos.System.{Event, run_driver, run_driver_at, nth, in_lock, step, run}
use mnemosyne_inference.Macos.Counting.{IsCounted}
use mnemosyne_inference.Macos.Runs.{step-IsCounted, run-IsCounted}
use mnemosyne_inference.Macos.Fence.{in_transition}
use mnemosyne_inference.Macos.FenceBarriers.{IsDrained, IsHeldAt, IsHeldBy}
use mnemosyne_inference.Macos.FenceRuns.{is_calm, is_calm_run, IsApart, nth_lone, step-IsApart}

pub new-fresh :
    (configured : Option ℕ) (depth now : ℕ) (s : Coordinator)
    → new configured depth now ≡ some s
    → fresh configured depth now ≡ s
unfolding new
new-fresh configured depth now s e = elim (Bool-cases (is_limit configured && leb 1 depth)) [
  | inl fits ↦ let got = simp fits at e in cc
  | inr not_fits ↦ absurd (let no = simp not_fits at e in cc)
]

new-IsApart :
    (configured : Option ℕ) (depth now : ℕ) (s : Coordinator)
    → new configured depth now ≡ some s
    → IsApart s
unfolding fresh nth
new-IsApart configured depth now s e = rw (← new-fresh configured depth now s e) apart
  where
    apart : IsApart (fresh configured depth now)
    apart = ground arith

new-IsCounted :
    (tight : Bool) (configured : Option ℕ) (depth now : ℕ) (s : Coordinator)
    → new configured depth now ≡ some s
    → IsCounted tight 0 s
unfolding fresh
new-IsCounted tight configured depth now s e = rw (← new-fresh configured depth now s e) counted
  where
    counted : IsCounted tight 0 (fresh configured depth now)
    counted = ground arith

calm_run_keeps :
    (es : List Event) (s : Coordinator)
    → is_calm_run es s ≡ true
    → IsApart s
    → IsCounted true 0 s
    → IsApart (run es s) × IsCounted true 0 (run es s)
unfolding run is_calm_run
calm_run_keeps [] s calm a c = (a, c)
calm_run_keeps (e ∷ es) s calm a c =
    let calm_now : is_calm e s ≡ true = ground (arith, calm) in
    calm_run_keeps es (step e s) (ground (arith, calm)) (step-IsApart e s calm_now a) (
      step-IsCounted true 0 e s
        (λ t at_publish tight. ground (arith, a.fenced.quiet (rw at_publish refl))) c)

-- After any interleaving of callers, driver, maintenance calls, audits and shutdown from a new
-- macOS coordinator, _inflight is at least the number of permits of the current epoch that leases
-- hold or settled waiters are owed, and no lease and no granted future is of a later epoch.
pub run_counts_permits :
    (configured : Option ℕ) (depth now : ℕ) (es : List Event) (s : Coordinator)
    → new configured depth now ≡ some s
    → (held (run es s).epoch (run es s).leases + owed (run es s).epoch (run es s).futures
        ≤ (run es s).inflight)
      × (LeasesUpTo (run es s).epoch (run es s).leases
          × FuturesUpTo (run es s).epoch (run es s).futures)
run_counts_permits configured depth now es s e =
    let kept = run-IsCounted 0 es s (new-IsCounted false configured depth now s e) in
    let low = kept.lower in (omega (arith, low), (kept.leases_old, kept.futures_old))

-- After any run from a new macOS coordinator in which a maintenance call (also one that an audit
-- starts) begins only while no other is under way, and initialize only while nothing is in flight
-- and no driver runs, _inflight is exactly the number of permits of the current epoch that leases
-- hold or settled waiters are owed.
pub calm_run_counts_exactly :
    (configured : Option ℕ) (depth now : ℕ) (es : List Event) (s : Coordinator)
    → new configured depth now ≡ some s
    → is_calm_run es s ≡ true
    → (run es s).inflight
      ≡ held (run es s).epoch (run es s).leases + owed (run es s).epoch (run es s).futures
calm_run_counts_exactly configured depth now es s e calm =
    let (a, c) =
      calm_run_keeps es s calm (new-IsApart configured depth now s e)
        (new-IsCounted true configured depth now s e) in
    let up = c.upper refl in let low = c.lower in omega (arith, up, low)

-- After any run from a new macOS coordinator in which a maintenance call (also one that an audit
-- starts) begins only while no other is under way, and initialize only while nothing is in flight
-- and no driver runs, if the driver has decided to switch and has not yet published the handle or
-- recorded the failure, no permit of the current epoch is held or owed.
pub calm_run_switches_idle :
    (configured : Option ℕ) (depth now : ℕ) (es : List Event) (s : Coordinator)
    → new configured depth now ≡ some s
    → is_calm_run es s ≡ true
    → in_transition (run es s).driver ≡ true
    → held (run es s).epoch (run es s).leases + owed (run es s).epoch (run es s).futures ≡ 0
calm_run_switches_idle configured depth now es s e calm moving =
    let (a, c) =
      calm_run_keeps es s calm (new-IsApart configured depth now s e)
        (new-IsCounted true configured depth now s e) in
    let quiet = a.fenced.quiet moving in let low = c.lower in omega (arith, quiet, low)

publish_handle-strands :
    (t : ResolvedTarget) (s : Coordinator)
    → IsCounted false 0 s
    → IsCounted false s.inflight (publish_handle t s)
unfolding publish_handle
publish_handle-strands t s h =
    let no_lease = held-past s.epoch s.epoch s.leases h.leases_old (le_refl _) in
    let no_grant = owed-past s.epoch s.epoch s.futures h.futures_old (le_refl _) in
    let leases = LeasesUpTo-suc s.epoch s.leases h.leases_old in
    let futures = FuturesUpTo-suc s.epoch s.futures h.futures_old in
    elim (Bool-cases (s.initialized && s.accepting && not s.is_stopping)) [
      | inl e ↦ simp e (ground (arith, h, no_lease, no_grant, leases, futures))
      | inr e ↦ simp e (ground (arith, h, no_lease, no_grant, leases, futures))
    ]

run_driver-strands :
    (hint : Option ℕ) (t : ResolvedTarget) (s : Coordinator)
    → s.driver ≡ loaded_for t
    → IsCounted false 0 s
    → IsCounted false s.inflight (step (run_driver hint) s)
unfolding step run_driver_at
run_driver-strands hint t s e h = simp e (publish_handle-strands t s h)

-- In any run from a new macOS coordinator, when the driver publishes a handle, _inflight never
-- again falls below what it is at that moment, whatever happens later: a permit that is in flight
-- at a publication is never returned.
pub publish_strands_permits :
    (configured : Option ℕ) (depth now : ℕ) (es later : List Event) (s : Coordinator)
    (hint : Option ℕ) (t : ResolvedTarget)
    → new configured depth now ≡ some s
    → (run es s).driver ≡ loaded_for t
    → (run es s).inflight ≤ (run later (step (run_driver hint) (run es s))).inflight
publish_strands_permits configured depth now es later s hint t e at_publish =
    let counted = run-IsCounted 0 es s (new-IsCounted false configured depth now s e) in
    let kept =
      run-IsCounted (run es s).inflight later (step (run_driver hint) (run es s))
        (run_driver-strands hint t (run es s) at_publish counted) in
    let low = kept.lower in omega (arith, low)

locked-IsDrained : (g : Stage) (s : Coordinator) → in_lock g ≡ true → IsHeldAt g s → IsDrained s
locked-IsDrained inspecting s e h = h
locked-IsDrained unloading_all s e h = h
locked-IsDrained emptying_all s e h = h
locked-IsDrained operating s e h = h
locked-IsDrained verifying s e h = h
locked-IsDrained evicting s e h = absurd (ground (arith, e))
locked-IsDrained drain s e h = absurd (ground (arith, e))
locked-IsDrained before_lock s e h = h
locked-IsDrained failing s e h = absurd (ground (arith, e))
locked-IsDrained (await_driver k) s e h = absurd (ground (arith, e))
locked-IsDrained (closing m) s e h = h

-- After any run from a new macOS coordinator in which a maintenance call (also one that an audit
-- starts) begins only while no other is under way, and initialize only while nothing is in flight
-- and no driver runs, if a maintenance call stands between taking and releasing the operation
-- lock, no permit of the current epoch is held or owed, admission is closed and the driver is in
-- no transition.
pub calm_run_barrier_alone :
    (configured : Option ℕ) (depth now : ℕ) (es : List Event) (s : Coordinator) (i : ℕ)
    (b : Barrier)
    → new configured depth now ≡ some s
    → is_calm_run es s ≡ true
    → nth i (run es s).barriers ≡ some b
    → in_lock b.stage ≡ true
    → (held (run es s).epoch (run es s).leases + owed (run es s).epoch (run es s).futures ≡ 0)
      × (((run es s).accepting ≡ false) × (in_transition (run es s).driver ≡ false))
calm_run_barrier_alone configured depth now es s i b e calm at_i locked =
    let (a, c) =
      calm_run_keeps es s calm (new-IsApart configured depth now s e)
        (new-IsCounted true configured depth now s e) in
    let first = nth_lone i (run es s).barriers b a.lone at_i in
    let held_at : IsHeldBy (some b) (run es s) = simp first at a.held_by in
    let d = locked-IsDrained b.stage (run es s) locked held_at in
    let empty = d.empty in let low = c.lower in (omega (arith, empty, low), (d.shut, d.settled))
