-- ===== src/Macos/FenceRuns.antt =====
-- macos/service/src/mnemosyne_macos/coordinator.py: a transition of the engines against the
-- permits that are out, through every run in which no two barriers overlap.
use mnemosyne_inference.Prelude.{
  ℕ, zero, suc, ◌≤◌, ◌≡◌, refl, Bool, true, false, ◌&&◌, ◌||◌, not, Option, none, some, List, [],
  ◌∷◌, ◌++◌, arith, is_nil, length, Bool-cases, inl, inr,
}
use mnemosyne_inference.Macos.Targets.{Inspection}
use mnemosyne_inference.Macos.Types.{
  task_done, holds_lock, Stage, evicting, drain, before_lock, inspecting, unloading_all,
  emptying_all, operating, verifying, failing, await_driver, closing, Barrier, Audit, Coordinator,
}
use mnemosyne_inference.Macos.Barrier.{Section}
use mnemosyne_inference.Macos.Audit.{run_audit, repairs}
use mnemosyne_inference.Macos.System
use mnemosyne_inference.Macos.System.{
  Call, Event, ask, take_outcome, give_up_wait, give_back, run_driver, engines_answered,
  engine_raised, cleaned_up, driver_cancelled, start, run_barrier, barrier_answered,
  barrier_cancelled, start_audit, audit_step, shutdown_step, nth, replace, add_barrier, call,
  put_barrier, run_barrier_at, answer_barrier_at, cancel_barrier_at, put_audit, audit_at, step, run,
}
use mnemosyne_inference.Macos.Fence.{
  IsFenced, IsClosedStep, IsFencedStep, IsFencedStep-trans, acquire-IsFenced, collect-IsFenced,
  cancel_waiter-IsFenced, release-IsFenced,
}
use mnemosyne_inference.Macos.FenceDriver.{cancel_driver-IsFenced}
use mnemosyne_inference.Macos.FenceTasks.{
  run_driver_at-IsFenced, answer_driver-IsFenced, raise_driver-IsFenced, clean_driver-IsFenced,
  run_audit-IsFenced, run_shutdown-IsFenced,
}
use mnemosyne_inference.Macos.FenceBarriers.{
  IsHeldAt, IsHeldBy, IsFencedSection, IsHeldAt-step, reconcile-IsFenced, may_start, call-IsFenced,
}
use mnemosyne_inference.Macos.FenceStages.{run_stage-IsFenced, answer_stage-IsFenced}

unfoldable pub repairs_next : Option Audit → Bool → Coordinator → Bool
repairs_next none wanted s = false
repairs_next (some a) wanted s = repairs a wanted s

-- An event that starts no barrier beside another one, and initializes nothing that is in use.
unfoldable pub is_calm : Event → Coordinator → Bool
is_calm (start c) s = is_nil s.barriers && may_start c s
is_calm (audit_step i late wanted seen) s =
    is_nil s.barriers || not (repairs_next (nth i s.audits) wanted s)
is_calm e s = true

unfoldable pub is_calm_run : List Event → Coordinator → Bool
is_calm_run [] s = true
is_calm_run (e ∷ es) s = is_calm e s && is_calm_run es (step e s)

-- One barrier at most is under way, and what it has reached holds.
pub record IsApart (s : Coordinator) : Type 0 where
  pub fenced : IsFenced s
  pub lone : length s.barriers ≤ 1
  pub held_by : IsHeldBy (nth 0 s.barriers) s

IsHeldBy-step :
    (o : Option Barrier) (s s' : Coordinator) → IsClosedStep s s' → IsHeldBy o s → IsHeldBy o s'
IsHeldBy-step none s s' step h = tt
IsHeldBy-step (some b) s s' step h = IsHeldAt-step b.stage s s' step h

IsApart-step : (s s' : Coordinator) → IsApart s → IsFencedStep s s' → IsApart s'
IsApart-step s s' h f = record {
  fenced = f.fenced;
  lone = rw f.step.same_barriers h.lone;
  held_by = simp f.step.same_barriers (IsHeldBy-step (nth 0 s.barriers) s s' f.step h.held_by);
}

IsHeldAt-barriers :
    (g : Stage) (bs : List Barrier) (s : Coordinator)
    → IsHeldAt g s
    → IsHeldAt g (record s { barriers = bs })
IsHeldAt-barriers evicting bs s h = h
IsHeldAt-barriers drain bs s h = h
IsHeldAt-barriers failing bs s h = h
IsHeldAt-barriers (await_driver task) bs s h = ground (arith, h)
IsHeldAt-barriers before_lock bs s h = ground (arith, h)
IsHeldAt-barriers inspecting bs s h = ground (arith, h)
IsHeldAt-barriers unloading_all bs s h = ground (arith, h)
IsHeldAt-barriers emptying_all bs s h = ground (arith, h)
IsHeldAt-barriers operating bs s h = ground (arith, h)
IsHeldAt-barriers verifying bs s h = ground (arith, h)
IsHeldAt-barriers (closing m) bs s h = ground (arith, h)

put_lone :
    (o : Option Barrier) (s : Coordinator)
    → IsFenced s
    → IsHeldBy o s
    → IsApart (record s { barriers = System.prepend o [] })
unfolding nth
put_lone none s f h = ground (arith, f)
put_lone (some b) s f h = record {
  fenced = ground (arith, f);
  lone = ground arith;
  held_by = IsHeldAt-barriers b.stage (b ∷ []) s h;
}

pub nth_lone :
    (i : ℕ) (bs : List Barrier) (b : Barrier)
    → length bs ≤ 1
    → nth i bs ≡ some b
    → nth 0 bs ≡ some b
unfolding nth
nth_lone i [] b n e = absurd cc
nth_lone zero (c ∷ []) b n e = e
nth_lone (suc i) (c ∷ []) b n e = absurd cc
nth_lone i (c ∷ d ∷ bs) b n e = absurd (ground (arith, n))

replace_lone :
    (i : ℕ) (o : Option Barrier) (bs : List Barrier) (b : Barrier)
    → length bs ≤ 1
    → nth i bs ≡ some b
    → replace i o bs ≡ System.prepend o []
unfolding replace nth
replace_lone i o [] b n e = absurd cc
replace_lone zero o (c ∷ []) b n e = refl
replace_lone (suc i) o (c ∷ []) b n e = absurd cc
replace_lone i o (c ∷ d ∷ bs) b n e = absurd (ground (arith, n))

put_barrier-IsApart :
    (i : ℕ) (b : Barrier) (s : Coordinator) (r : Section)
    → nth i s.barriers ≡ some b
    → IsApart s
    → (IsHeldAt b.stage s → IsFencedSection s r)
    → IsApart (put_barrier i r)
unfolding put_barrier
put_barrier-IsApart i b s (o, s') e h go =
    let replaced = replace_lone i o s.barriers b h.lone e in
    let first = nth_lone i s.barriers b h.lone e in
    let held_at : IsHeldBy (some b) s = simp first at h.held_by in
    let k = go held_at in simp (k.same_barriers, replaced) (put_lone o s' k.fenced k.held_by)

run_barrier_at-IsApart :
    (i now : ℕ) (late well : Bool) (o : Option Barrier) (s : Coordinator)
    → nth i s.barriers ≡ o
    → IsApart s
    → IsApart (run_barrier_at i now late well o s)
unfolding run_barrier_at
run_barrier_at-IsApart i now late well none s e h = h
run_barrier_at-IsApart i now late well (some b) s e h =
    put_barrier-IsApart i b s _ e h
      (λ k. run_stage-IsFenced b.kind b.stage now late well s k h.fenced)

answer_barrier_at-IsApart :
    (i : ℕ) (seen : Inspection) (done : Bool) (o : Option Barrier) (s : Coordinator)
    → nth i s.barriers ≡ o
    → IsApart s
    → IsApart (answer_barrier_at i seen done o s)
unfolding answer_barrier_at
answer_barrier_at-IsApart i seen done none s e h = h
answer_barrier_at-IsApart i seen done (some b) s e h =
    put_barrier-IsApart i b s _ e h
      (λ k. answer_stage-IsFenced b.kind b.stage seen done s k h.fenced)

cancel_barrier_at-IsApart :
    (i : ℕ) (o : Option Barrier) (s : Coordinator)
    → nth i s.barriers ≡ o
    → IsApart s
    → IsApart (cancel_barrier_at i o s)
unfolding cancel_barrier_at
cancel_barrier_at-IsApart i none s e h = h
cancel_barrier_at-IsApart i (some b) s e h =
    let f = h.fenced in put_barrier-IsApart i b s _ e h (λ k. ground (arith, f))

add_barrier-IsApart :
    (s : Coordinator) (r : Section)
    → is_nil s.barriers ≡ true
    → IsFencedSection s r
    → IsApart (add_barrier r)
unfolding add_barrier
add_barrier-IsApart s (o, s') e k = by_barriers s.barriers e k.same_barriers
  where
    by_barriers :
        (bs : List Barrier)
        → is_nil bs ≡ true
        → s'.barriers ≡ bs
        → IsApart (record s' { barriers = s'.barriers ++ System.prepend o [] })
    by_barriers [] e same = simp same (put_lone o s' k.fenced k.held_by)
    by_barriers (b ∷ bs) e same = absurd (ground (arith, e))

audit_at-IsApart :
    (i : ℕ) (late wanted : Bool) (seen : Inspection) (o : Option Audit) (s : Coordinator)
    → is_nil s.barriers || not (repairs_next o wanted s) ≡ true
    → IsApart s
    → IsApart (audit_at i late wanted seen o s)
unfolding audit_at put_audit repairs_next
audit_at-IsApart i late wanted seen none s calm h = h
audit_at-IsApart i late wanted seen (some a) s calm h =
    let f = h.fenced in
    let judged = run_audit-IsFenced a late seen s f in
    let put : IsFencedStep s (put_audit i (run_audit a late seen s)) =
      IsFencedStep-trans s _ _ judged (λ g. ground (arith, g)) in
    elim (Bool-cases (repairs a wanted s)) [
      | inl e ↦ rw e (
          add_barrier-IsApart _ _ (simp put.step.same_barriers (ground (arith, e, calm)))
            (reconcile-IsFenced _ put.fenced))
      | inr e ↦ rw e (IsApart-step s _ h put)
    ]

pub step-IsApart :
    (e : Event) (s : Coordinator) → is_calm e s ≡ true → IsApart s → IsApart (step e s)
unfolding step is_calm
step-IsApart (ask hint t r) s calm h = IsApart-step s _ h (acquire-IsFenced hint t r s h.fenced)
step-IsApart (take_outcome t) s calm h = IsApart-step s _ h (collect-IsFenced t s h.fenced)
step-IsApart (give_up_wait now t) s calm h =
    IsApart-step s _ h (cancel_waiter-IsFenced now t s h.fenced)
step-IsApart (give_back now e) s calm h = IsApart-step s _ h (release-IsFenced now e s h.fenced)
step-IsApart (run_driver hint) s calm h =
    IsApart-step s _ h (run_driver_at-IsFenced hint s.driver s refl h.fenced)
step-IsApart (engines_answered seen done) s calm h =
    IsApart-step s _ h (answer_driver-IsFenced s.driver seen done s refl h.fenced)
step-IsApart (engine_raised e) s calm h =
    IsApart-step s _ h (raise_driver-IsFenced e s.driver s refl h.fenced)
step-IsApart (cleaned_up clean) s calm h =
    IsApart-step s _ h (clean_driver-IsFenced clean s.driver s refl h.fenced)
step-IsApart driver_cancelled s calm h = elim (Bool-cases (task_done s.driver)) [
  | inl e ↦ simp e h
  | inr e ↦ simp e (IsApart-step s _ h (cancel_driver-IsFenced (holds_lock s.driver) s h.fenced))
]
step-IsApart (start c) s calm h =
    add_barrier-IsApart s _ (ground (arith, calm))
      (call-IsFenced c s (ground (arith, calm)) h.fenced)
step-IsApart (run_barrier i now late well) s calm h =
    run_barrier_at-IsApart i now late well (nth i s.barriers) s refl h
step-IsApart (barrier_answered i seen done) s calm h =
    answer_barrier_at-IsApart i seen done (nth i s.barriers) s refl h
step-IsApart (barrier_cancelled i) s calm h =
    cancel_barrier_at-IsApart i (nth i s.barriers) s refl h
step-IsApart start_audit s calm h = let f = h.fenced in IsApart-step s _ h (ground (arith, f))
step-IsApart (audit_step i late wanted seen) s calm h =
    audit_at-IsApart i late wanted seen (nth i s.audits) s calm h
step-IsApart (shutdown_step late) s calm h =
    IsApart-step s _ h (run_shutdown-IsFenced s.shutdown late s refl h.fenced)
