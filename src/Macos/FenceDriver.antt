-- ===== src/Macos/FenceDriver.antt =====
-- macos/service/src/mnemosyne_macos/coordinator.py: a transition of the engines against the
-- permits that are out, through the sections of the driver, an audit and the shutdown.
use mnemosyne_inference.Prelude.{
  ℕ, ◌≡◌, refl, ◌∙◌, Bool, true, false, ◌&&◌, not, Option, none, some, List, [], ◌∷◌, arith, ltb,
  ◌==◌, is_nil, Bool-cases, inl, inr, if◌then◌else◌,
}
use mnemosyne_inference.Macos.Targets.{
  ResolvedTarget, ResidentInstance, same_load, Inspection, inspect_all, is_empty_inspection,
  verifies,
}
use mnemosyne_inference.Macos.Types.{
  CoordinatorError, CoordinatorState, degraded, state_eq, Waiter, Driver, absent, driving,
  emptying_for, Coordinator,
}
use mnemosyne_inference.Macos.Locked.{publish_state, purge_cancelled, grant_head_group, fail_all}
use mnemosyne_inference.Macos.Driver.{
  unless_degraded, drive_empty, serve_resident, begin_switch, drive_head, drive_queue, stop_driving,
  drive_open, drive, finish_driver, to_stage, lock_transition, raise_transition, answer_unload,
  answer_empty, answer_load, answer_verify, publish_handle, close_unclean, fail_transition,
  cancel_driver,
}
use mnemosyne_inference.Macos.Fence.{
  in_transition, IsFenced, IsFencedStep, IsFencedStep-trans, IsFencedStep-refl,
  ensure_driver-IsFenced, fail_head_group-IsFenced, purge_cancelled-IsFenced,
}

unless_degraded-IsFenced :
    (x : CoordinatorState) (s : Coordinator) → IsFenced s → IsFencedStep s (unless_degraded x s)
unfolding unless_degraded publish_state
unless_degraded-IsFenced x s h = elim (Bool-cases (state_eq s.state degraded)) [
  | inl e ↦ simp e (IsFencedStep-refl s h)
  | inr e ↦ simp e (ground (arith, h))
]

drive_empty-IsFenced :
    (r : Option ResolvedTarget) (s : Coordinator) → IsFenced s → IsFencedStep s (drive_empty r s)
unfolding drive_empty
drive_empty-IsFenced none s h =
    IsFencedStep-trans s _ _ (ground (arith, h)) (unless_degraded-IsFenced _ _)
drive_empty-IsFenced (some r) s h =
    IsFencedStep-trans s _ _ (ground (arith, h)) (unless_degraded-IsFenced _ _)

-- A round of the driver that grants.
serve_resident-IsFenced :
    (hint : Option ℕ) (r head : ResolvedTarget) (s : Coordinator)
    → s.driver ≡ driving
    → s.accepting ≡ true
    → s.resident ≡ some r
    → IsFenced s
    → IsFencedStep s (serve_resident hint r head s)
unfolding serve_resident grant_head_group
serve_resident-IsFenced hint r head s on admits res h =
    let granted : IsFencedStep s
        (grant_head_group hint r head (record s { transition_target = none })).0 =
      ground (arith, h, on, admits, res) in
    elim (Bool-cases
      ((grant_head_group hint r head (record s { transition_target = none })).1 == 0)) [
        | inl e ↦ simp e (IsFencedStep-trans s _ _ granted (unless_degraded-IsFenced _ _))
        | inr e ↦ simp e granted
      ]

begin_switch-IsFenced :
    (head : ResolvedTarget) (s : Coordinator)
    → s.accepting ≡ true
    → s.inflight ≡ 0
    → IsFenced s
    → IsFencedStep s (begin_switch head s)
unfolding begin_switch
begin_switch-IsFenced head s admits free h = ground (arith, h, admits, free)

drive_head-IsFenced :
    (hint : Option ℕ) (o : Option ResolvedTarget) (head : ResolvedTarget) (s : Coordinator)
    → s.resident ≡ o
    → s.driver ≡ driving
    → s.accepting ≡ true
    → s.is_stopping ≡ false
    → IsFenced s
    → IsFencedStep s (drive_head hint o head s)
unfolding drive_head publish_state
drive_head-IsFenced hint none head s res on admits going h =
    begin_switch-IsFenced head s admits (h.cleared going (ground (arith, res))) h
drive_head-IsFenced hint (some r) head s res on admits going h =
    elim (Bool-cases (same_load r head)) [
      | inl e ↦ rw e (serve_resident-IsFenced hint r head s on admits res h)
      | inr e ↦ rw e (elim (Bool-cases (ltb 0 s.inflight)) [
        | inl busy ↦ simp busy (ground (arith, h, on))
        | inr free ↦ simp free (begin_switch-IsFenced head s admits (ground (arith, free)) h)
      ])
    ]

drive_queue-IsFenced :
    (hint : Option ℕ) (q : List Waiter) (s : Coordinator)
    → s.driver ≡ driving
    → s.accepting ≡ true
    → s.is_stopping ≡ false
    → IsFenced s
    → IsFencedStep s (drive_queue hint q s)
unfolding drive_queue
drive_queue-IsFenced hint [] s on admits going h = drive_empty-IsFenced s.resident s h
drive_queue-IsFenced hint (w ∷ ws) s on admits going h =
    drive_head-IsFenced hint s.resident w.target s refl on admits going h

stop_driving-IsFenced :
    (e : CoordinatorError) (s : Coordinator) → IsFenced s → IsFencedStep s (stop_driving e s)
unfolding stop_driving fail_all
stop_driving-IsFenced e s h = ground (arith, h)

drive_open-IsFenced :
    (hint : Option ℕ) (s : Coordinator)
    → s.driver ≡ driving
    → IsFenced s
    → IsFencedStep s (drive_open hint s)
unfolding drive_open
drive_open-IsFenced hint s on h = elim (Bool-cases s.is_stopping) [
  | inl e ↦ simp e (stop_driving-IsFenced _ s h)
  | inr e ↦ simp e (elim (Bool-cases s.initialized) [
    | inr e' ↦ simp e' (stop_driving-IsFenced _ s h)
    | inl e' ↦ simp e' (elim (Bool-cases s.accepting) [
      | inr e'' ↦ simp e'' (stop_driving-IsFenced _ s h)
      | inl e'' ↦ simp e'' (drive_queue-IsFenced hint s.queue s on e'' e h)
    ])
  ])
]

purge_cancelled_driver : (s : Coordinator) → (purge_cancelled s).driver ≡ s.driver
unfolding purge_cancelled
purge_cancelled_driver s = refl

pub drive-IsFenced :
    (hint : Option ℕ) (s : Coordinator)
    → s.driver ≡ driving
    → IsFenced s
    → IsFencedStep s (drive hint s)
unfolding drive
drive-IsFenced hint s on h =
    IsFencedStep-trans s _ _ (purge_cancelled-IsFenced s h)
      (drive_open-IsFenced hint (purge_cancelled s) (purge_cancelled_driver s ∙ on))

pub finish_driver-IsFenced : (s : Coordinator) → IsFenced s → IsFencedStep s (finish_driver s)
unfolding finish_driver
finish_driver-IsFenced s h =
    let ended : IsFencedStep s (record s { driver = absent }) = ground (arith, h) in
    elim (Bool-cases (not (is_nil s.queue) && not s.is_stopping)) [
      | inl e ↦ simp e (IsFencedStep-trans s _ _ ended (ensure_driver-IsFenced _))
      | inr e ↦ simp e ended
    ]

-- From one stage of a transition to the next.
to_stage-IsFenced :
    (d : Driver) (x : CoordinatorState) (s : Coordinator)
    → in_transition s.driver ≡ true
    → IsFenced s
    → IsFencedStep s (to_stage d x s)
unfolding to_stage publish_state
to_stage-IsFenced d x s on h = ground (arith, h, on)

pub raise_transition-IsFenced :
    (t : ResolvedTarget) (e : CoordinatorError) (s : Coordinator)
    → in_transition s.driver ≡ true
    → IsFenced s
    → IsFencedStep s (raise_transition t e s)
unfolding raise_transition
raise_transition-IsFenced t e s on h = ground (arith, h, on)

pub lock_transition-IsFenced :
    (t : ResolvedTarget) (s : Coordinator)
    → in_transition s.driver ≡ true
    → IsFenced s
    → IsFencedStep s (lock_transition t s)
unfolding lock_transition
lock_transition-IsFenced t s on h =
    IsFencedStep-trans s _ _ (ground (arith, h)) (to_stage-IsFenced _ _ _ on)

pub answer_unload-IsFenced :
    (t : ResolvedTarget) (seen : Inspection) (done : Bool) (s : Coordinator)
    → in_transition s.driver ≡ true
    → IsFenced s
    → IsFencedStep s (answer_unload t seen done s)
unfolding answer_unload
answer_unload-IsFenced t seen done s on h = by_answer (inspect_all seen) done
  where
    by_answer :
        (o : Option (List ResidentInstance)) (b : Bool)
        → IsFencedStep s (elim o [
          | none ↦ raise_transition t (CoordinatorError.refused "engine state is uncertain") s
          | some rs ↦
              (if b
                then to_stage (emptying_for t) CoordinatorState.verifying_empty s
                else raise_transition t (CoordinatorError.engine_error 0) s)
        ])
    by_answer none b = raise_transition-IsFenced t _ s on h
    by_answer (some rs) true = to_stage-IsFenced _ _ s on h
    by_answer (some rs) false = raise_transition-IsFenced t _ s on h

pub answer_empty-IsFenced :
    (t : ResolvedTarget) (seen : Inspection) (s : Coordinator)
    → in_transition s.driver ≡ true
    → IsFenced s
    → IsFencedStep s (answer_empty t seen s)
unfolding answer_empty
answer_empty-IsFenced t seen s on h = elim (Bool-cases (is_empty_inspection (inspect_all seen))) [
  | inl e ↦ rw e (to_stage-IsFenced _ _ s on h)
  | inr e ↦ rw e (raise_transition-IsFenced t _ s on h)
]

pub answer_load-IsFenced :
    (t : ResolvedTarget) (done : Bool) (s : Coordinator)
    → in_transition s.driver ≡ true
    → IsFenced s
    → IsFencedStep s (answer_load t done s)
unfolding answer_load
answer_load-IsFenced t true s on h = to_stage-IsFenced _ _ s on h
answer_load-IsFenced t false s on h = raise_transition-IsFenced t _ s on h

pub answer_verify-IsFenced :
    (t : ResolvedTarget) (seen : Inspection) (s : Coordinator)
    → in_transition s.driver ≡ true
    → IsFenced s
    → IsFencedStep s (answer_verify t seen s)
unfolding answer_verify
answer_verify-IsFenced t seen s on h = elim (Bool-cases (verifies t (inspect_all seen))) [
  | inl e ↦ rw e (ground (arith, h, on))
  | inr e ↦ rw e (raise_transition-IsFenced t _ s on h)
]

pub publish_handle-IsFenced :
    (t : ResolvedTarget) (s : Coordinator)
    → in_transition s.driver ≡ true
    → IsFenced s
    → IsFencedStep s (publish_handle t s)
unfolding publish_handle
publish_handle-IsFenced t s on h =
    elim (Bool-cases (s.initialized && s.accepting && not s.is_stopping)) [
      | inl e ↦ simp e (ground (arith, h, on))
      | inr e ↦ simp e (ground (arith, h, on))
    ]

pub fail_transition-IsFenced :
    (t : ResolvedTarget) (e : CoordinatorError) (clean : Bool) (s : Coordinator)
    → in_transition s.driver ≡ true
    → IsFenced s
    → IsFencedStep s (fail_transition t e clean s)
unfolding fail_transition close_unclean
fail_transition-IsFenced t e true s on h =
    IsFencedStep-trans s _ _ (ground (arith, h, on)) (fail_head_group-IsFenced t e _)
fail_transition-IsFenced t e false s on h =
    IsFencedStep-trans s _ _ (ground (arith, h, on)) (fail_head_group-IsFenced t e _)

pub cancel_driver-IsFenced :
    (held : Bool) (s : Coordinator) → IsFenced s → IsFencedStep s (cancel_driver held s)
unfolding cancel_driver
cancel_driver-IsFenced held s h = ground (arith, h)
