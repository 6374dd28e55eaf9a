-- ===== src/Macos/Fence.antt =====
-- macos/service/src/mnemosyne_macos/coordinator.py: a transition of the engines against the
-- permits that are out, through the helpers under the condition and the sections of a caller.
use mnemosyne_inference.Prelude.{
  ℕ, ◌≤◌, ◌≡◌, refl, ◌∙◌, Bool, true, false, ◌||◌, not, Option, none, some, arith, leb, ◌==◌,
  is_nil, is_none, length, Bool-cases, inl, inr,
}
use mnemosyne_inference.Leasing.{outcome, holds}
use mnemosyne_inference.Macos.Targets.{ResolvedTarget}
use mnemosyne_inference.Macos.Types.{
  CoordinatorError, Waiter, Outcome, granted, failed, Driver, absent, driving, finishing,
  queued_for, unloading_for, emptying_for, loading_for, verifying_for, loaded_for, cleaning_for,
  task_done, Shutdown, not_called, Coordinator,
}
use mnemosyne_inference.Macos.Locked.{
  purge_cancelled, ensure_driver, fail_head_group, fail_all, release_locked,
}
use mnemosyne_inference.Macos.Admission.{
  grant_now, is_settled, serves_at_once, enqueue, admit, acquire, settle_wait, collect,
  return_permit, cancel_waiter, release_section, release,
}

-- From the decision to switch to the section that publishes the handle or records the failure.
abbrev pub in_transition : Driver → Bool
in_transition absent = false
in_transition driving = false
in_transition finishing = false
in_transition (queued_for t) = true
in_transition (unloading_for t) = true
in_transition (emptying_for t) = true
in_transition (loading_for t) = true
in_transition (verifying_for t) = true
in_transition (loaded_for t) = true
in_transition (cleaning_for t e) = true

abbrev pub is_called : Shutdown → Bool
is_called not_called = false
is_called g = true

pub record IsFenced (s : Coordinator) : Type 0 where
  pub quiet : in_transition s.driver ≡ true → s.inflight ≡ 0
  pub targeted :
      in_transition s.driver ≡ true → s.is_stopping ≡ false → is_none s.transition_target ≡ false
  pub cleared : s.is_stopping ≡ false → is_none s.resident ≡ true → s.inflight ≡ 0
  pub stops : is_called s.shutdown ≡ true → s.is_stopping ≡ true

-- What a section does while admission is closed: it grants nothing and starts no transition.
pub record IsClosedStep (s s' : Coordinator) : Type 0 where
  pub closed : s.accepting ≡ false → s'.accepting ≡ false
  pub falls : s.accepting ≡ false → s'.inflight ≤ s.inflight
  pub still : s.accepting ≡ false → in_transition s'.driver ≡ true → in_transition s.driver ≡ true
  pub same_task :
      s.accepting ≡ false → in_transition s'.driver ≡ true → s'.driver_task ≡ s.driver_task
  pub same_barriers : s'.barriers ≡ s.barriers

pub record IsFencedStep (s s' : Coordinator) : Type 0 where
  pub fenced : IsFenced s'
  pub step : IsClosedStep s s'

pub IsClosedStep-trans :
    (s t u : Coordinator) → IsClosedStep s t → IsClosedStep t u → IsClosedStep s u
IsClosedStep-trans s t u h k = record {
  closed = λ e. k.closed (h.closed e);
  falls = λ e. let a = h.falls e in let b = k.falls (h.closed e) in omega arith;
  still = λ e i. h.still e (k.still (h.closed e) i);
  same_task = λ e i. k.same_task (h.closed e) i ∙ h.same_task e (k.still (h.closed e) i);
  same_barriers = k.same_barriers ∙ h.same_barriers;
}

pub IsFencedStep-trans :
    (s t u : Coordinator) → IsFencedStep s t → (IsFenced t → IsFencedStep t u) → IsFencedStep s u
IsFencedStep-trans s t u h k = record {
  fenced = (k h.fenced).fenced;
  step = IsClosedStep-trans s t u h.step (k h.fenced).step;
}

pub IsFencedStep-refl : (s : Coordinator) → IsFenced s → IsFencedStep s s
IsFencedStep-refl s h = ground (arith, h)

pub ensure_driver-IsFenced : (s : Coordinator) → IsFenced s → IsFencedStep s (ensure_driver s)
unfolding ensure_driver
ensure_driver-IsFenced s h = elim (Bool-cases (task_done s.driver)) [
  | inl e ↦ simp e (ground (arith, h))
  | inr e ↦ simp e (IsFencedStep-refl s h)
]

pub release_locked-IsFenced :
    (now e : ℕ) (s : Coordinator) → IsFenced s → IsFencedStep s (release_locked now e s)
unfolding release_locked
release_locked-IsFenced now e s h = elim (Bool-cases (not (e == s.epoch) || leb s.inflight 0)) [
  | inl stale ↦ simp stale (IsFencedStep-refl s h)
  | inr current ↦ simp current (ground (arith, h))
]

pub fail_all-IsFenced :
    (e : CoordinatorError) (s : Coordinator) → IsFenced s → IsFencedStep s (fail_all e s)
unfolding fail_all
fail_all-IsFenced e s h = ground (arith, h)

pub fail_head_group-IsFenced :
    (t : ResolvedTarget) (e : CoordinatorError) (s : Coordinator)
    → IsFenced s
    → IsFencedStep s (fail_head_group t e s)
unfolding fail_head_group
fail_head_group-IsFenced t e s h = ground (arith, h)

-- The fast path serves the resident only where no transition is under way.
grant_now-IsFenced :
    (hint : Option ℕ) (t : ResolvedTarget) (s : Coordinator)
    → s.accepting ≡ true
    → s.is_stopping ≡ false
    → serves_at_once hint t s.resident s ≡ true
    → IsFenced s
    → IsFencedStep s (grant_now s)
unfolding grant_now is_settled serves_at_once
grant_now-IsFenced hint t s admits going served h =
    ground (arith, h, served_settled s.resident served)
  where
    served_settled :
        (r : Option ResolvedTarget)
        → serves_at_once hint t r s ≡ true
        → (is_none r ≡ false) × (is_none s.transition_target ≡ true)
    served_settled none e = absurd (ground (arith, e))
    served_settled (some r) e = ground (arith, e)

admit-IsFenced :
    (hint : Option ℕ) (w : Waiter) (s : Coordinator)
    → s.accepting ≡ true
    → s.is_stopping ≡ false
    → IsFenced s
    → IsFencedStep s (admit hint w s).0
unfolding admit enqueue
admit-IsFenced hint w s admits going h =
    elim (Bool-cases (serves_at_once hint w.target s.resident s)) [
      | inl e ↦ rw e (grant_now-IsFenced hint w.target s admits going e h)
      | inr e ↦ rw e (elim (Bool-cases (leb s.max_queue_depth (length s.queue))) [
        | inl full ↦ rw full (IsFencedStep-refl s h)
        | inr room ↦
            rw room (IsFencedStep-trans s _ _ (ground (arith, h)) (ensure_driver-IsFenced _))
      ])
    ]

pub purge_cancelled-IsFenced : (s : Coordinator) → IsFenced s → IsFencedStep s (purge_cancelled s)
unfolding purge_cancelled
purge_cancelled-IsFenced s h = ground (arith, h)

purge_cancelled_flags :
    (s : Coordinator)
    → ((purge_cancelled s).accepting ≡ s.accepting)
      × ((purge_cancelled s).is_stopping ≡ s.is_stopping)
unfolding purge_cancelled
purge_cancelled_flags s = (refl, refl)

admit_purged-IsFenced :
    (hint : Option ℕ) (w : Waiter) (s : Coordinator)
    → s.accepting ≡ true
    → s.is_stopping ≡ false
    → IsFenced s
    → IsFencedStep s (admit hint w (purge_cancelled s)).0
admit_purged-IsFenced hint w s admits going h =
    let (a, b) = purge_cancelled_flags s in
    IsFencedStep-trans s (purge_cancelled s) _ (purge_cancelled-IsFenced s h)
      (admit-IsFenced hint w (purge_cancelled s) (a ∙ admits) (b ∙ going))

pub acquire-IsFenced :
    (hint : Option ℕ) (ticket : ℕ) (t : ResolvedTarget) (s : Coordinator)
    → IsFenced s
    → IsFencedStep s (acquire hint ticket t s).0
unfolding acquire
acquire-IsFenced hint ticket t s h = elim (Bool-cases s.is_stopping) [
  | inl e ↦ simp e (IsFencedStep-refl s h)
  | inr e ↦ simp e (elim (Bool-cases s.initialized) [
    | inr e' ↦ simp e' (IsFencedStep-refl s h)
    | inl e' ↦ simp e' (elim (Bool-cases s.accepting) [
      | inr e'' ↦ simp e'' (IsFencedStep-refl s h)
      | inl e'' ↦ simp e'' (admit_purged-IsFenced hint _ s e'' e h)
    ])
  ])
]

settle_wait-IsFenced :
    (t : ℕ) (o : Option Outcome) (s : Coordinator)
    → IsFenced s
    → IsFencedStep s (settle_wait t o s).0
unfolding settle_wait
settle_wait-IsFenced t none s h = IsFencedStep-refl s h
settle_wait-IsFenced t (some (granted p x)) s h = ground (arith, h)
settle_wait-IsFenced t (some (failed x)) s h = ground (arith, h)

pub collect-IsFenced : (t : ℕ) (s : Coordinator) → IsFenced s → IsFencedStep s (collect t s).0
unfolding collect
collect-IsFenced t s h = settle_wait-IsFenced t (outcome t s.futures) s h

return_permit-IsFenced :
    (now t : ℕ) (o : Option Outcome) (s : Coordinator)
    → IsFenced s
    → IsFencedStep s (return_permit now t o s)
unfolding return_permit
return_permit-IsFenced now t none s h = IsFencedStep-refl s h
return_permit-IsFenced now t (some (granted p x)) s h =
    IsFencedStep-trans s _ _ (ground (arith, h)) (release_locked-IsFenced now x _)
return_permit-IsFenced now t (some (failed x)) s h = ground (arith, h)

pub cancel_waiter-IsFenced :
    (now t : ℕ) (s : Coordinator) → IsFenced s → IsFencedStep s (cancel_waiter now t s)
unfolding cancel_waiter
cancel_waiter-IsFenced now t s h =
    IsFencedStep-trans s _ _ (ground (arith, h))
      (return_permit-IsFenced now t (outcome t s.futures) _)

release_section-IsFenced :
    (now e : ℕ) (s : Coordinator) → IsFenced s → IsFencedStep s (release_section now e s)
unfolding release_section
release_section-IsFenced now e s h = elim (Bool-cases (is_nil (release_locked now e s).queue)) [
  | inl none_left ↦ rw none_left (release_locked-IsFenced now e s h)
  | inr some_left ↦
      rw some_left
        (IsFencedStep-trans s _ _ (release_locked-IsFenced now e s h) (ensure_driver-IsFenced _))
]

pub release-IsFenced : (now e : ℕ) (s : Coordinator) → IsFenced s → IsFencedStep s (release now e s)
unfolding release
release-IsFenced now e s h = elim (Bool-cases (holds e s.leases)) [
  | inl out ↦
      rw out (IsFencedStep-trans s _ _ (ground (arith, h)) (release_section-IsFenced now e _))
  | inr gone ↦ rw gone (IsFencedStep-refl s h)
]
