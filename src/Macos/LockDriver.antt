-- ===== src/Macos/LockDriver.antt =====
-- macos/service/src/mnemosyne_macos/coordinator.py: the operation lock against the tasks that work on the
-- engines, through the sections of the driver.
use mnemosyne_inference.Prelude.{
  ℕ, ◌≡◌, refl, ◌∙◌, Bool, true, false, ◌&&◌, not, Option, none, some, List, [], ◌∷◌, arith, ltb,
  ◌==◌, is_nil, Bool-cases, inl, inr, if◌then◌else◌,
}
use mnemosyne_inference.Macos.Targets.{
  ResolvedTarget, ResidentInstance, same_load, Inspection, inspect_all, is_empty_inspection,
  verifies,
}
use mnemosyne_inference.Macos.Types.{
  CoordinatorError, CoordinatorState, degraded, state_eq, Waiter, Driver, absent, driving,
  finishing, queued_for, unloading_for, emptying_for, loading_for, verifying_for, loaded_for,
  cleaning_for, holds_lock, Coordinator,
}
use mnemosyne_inference.Macos.Locked.{publish_state, purge_cancelled, grant_head_group, fail_all}
use mnemosyne_inference.Macos.Driver.{
  unless_degraded, drive_empty, serve_resident, begin_switch, drive_head, drive_queue, stop_driving,
  drive_open, drive, finish_driver, to_stage, raise_transition, answer_unload, answer_empty,
  answer_load, answer_verify,
}
use mnemosyne_inference.Macos.System.{answer_driver}
use mnemosyne_inference.Macos.Lock.{
  IsBalanced, IsBalanced-refl, IsBalanced-trans, ensure_driver-IsBalanced,
  purge_cancelled-IsBalanced,
}

unless_degraded-IsBalanced :
    (x : CoordinatorState) (s : Coordinator) → IsBalanced s (unless_degraded x s)
unfolding unless_degraded publish_state
unless_degraded-IsBalanced x s = elim (Bool-cases (state_eq s.state degraded)) [
  | inl e ↦ simp e (IsBalanced-refl s)
  | inr e ↦ simp e (ground arith)
]

serve_resident-IsBalanced :
    (hint : Option ℕ) (r head : ResolvedTarget) (s : Coordinator)
    → IsBalanced s (serve_resident hint r head s)
unfolding serve_resident grant_head_group
serve_resident-IsBalanced hint r head s =
    let granted : IsBalanced s
        (grant_head_group hint r head (record s { transition_target = none })).0 =
      ground arith in
    elim (Bool-cases
      ((grant_head_group hint r head (record s { transition_target = none })).1 == 0)) [
        | inl e ↦ simp e (IsBalanced-trans s _ _ granted (unless_degraded-IsBalanced _ _))
        | inr e ↦ simp e granted
      ]

drive_queue-IsBalanced :
    (hint : Option ℕ) (q : List Waiter) (s : Coordinator)
    → s.driver ≡ driving
    → IsBalanced s (drive_queue hint q s)
unfolding drive_queue drive_empty drive_head begin_switch publish_state
drive_queue-IsBalanced hint [] s e = by_resident s.resident
  where
    ended : IsBalanced s (record s { transition_target = none; driver = finishing })
    ended = ground (arith, e)

    by_resident : (o : Option ResolvedTarget) → IsBalanced s (drive_empty o s)
    by_resident none = IsBalanced-trans s _ _ ended (unless_degraded-IsBalanced _ _)
    by_resident (some r) = IsBalanced-trans s _ _ ended (unless_degraded-IsBalanced _ _)
drive_queue-IsBalanced hint (w ∷ ws) s e = by_resident s.resident
  where
    switched :
        IsBalanced s (record s { transition_target = some w.target; driver = queued_for w.target })
    switched = ground (arith, e)

    served : (r : ResolvedTarget) → IsBalanced s (serve_resident hint r w.target s)
    served r = serve_resident-IsBalanced hint r w.target s

    by_resident : (o : Option ResolvedTarget) → IsBalanced s (drive_head hint o w.target s)
    by_resident none = switched
    by_resident (some r) = elim (Bool-cases (same_load r w.target)) [
      | inl same ↦ rw same (served r)
      | inr other ↦ rw other (elim (Bool-cases (ltb 0 s.inflight)) [
        | inl busy ↦ simp busy (ground arith)
        | inr free ↦ simp free switched
      ])
    ]

stop_driving-IsBalanced :
    (x : CoordinatorError) (s : Coordinator) → s.driver ≡ driving → IsBalanced s (stop_driving x s)
unfolding stop_driving fail_all
stop_driving-IsBalanced x s e = ground (arith, e)

drive_open-IsBalanced :
    (hint : Option ℕ) (s : Coordinator) → s.driver ≡ driving → IsBalanced s (drive_open hint s)
unfolding drive_open
drive_open-IsBalanced hint s on = elim (Bool-cases s.is_stopping) [
  | inl e ↦ simp e (stop_driving-IsBalanced _ s on)
  | inr e ↦ simp e (elim (Bool-cases s.initialized) [
    | inr e' ↦ simp e' (stop_driving-IsBalanced _ s on)
    | inl e' ↦ simp e' (elim (Bool-cases s.accepting) [
      | inr e'' ↦ simp e'' (stop_driving-IsBalanced _ s on)
      | inl e'' ↦ simp e'' (drive_queue-IsBalanced hint s.queue s on)
    ])
  ])
]

purged_driver : (s : Coordinator) → (purge_cancelled s).driver ≡ s.driver
unfolding purge_cancelled
purged_driver s = refl

pub drive-IsBalanced :
    (hint : Option ℕ) (s : Coordinator) → s.driver ≡ driving → IsBalanced s (drive hint s)
unfolding drive
drive-IsBalanced hint s on =
    IsBalanced-trans s _ _ (purge_cancelled-IsBalanced s)
      (drive_open-IsBalanced hint (purge_cancelled s) (purged_driver s ∙ on))

pub finish_driver-IsBalanced :
    (s : Coordinator) → s.driver ≡ finishing → IsBalanced s (finish_driver s)
unfolding finish_driver
finish_driver-IsBalanced s on =
    let ended : IsBalanced s (record s { driver = absent }) = ground (arith, on) in
    elim (Bool-cases (not (is_nil s.queue) && not s.is_stopping)) [
      | inl e ↦ simp e (IsBalanced-trans s _ _ ended (ensure_driver-IsBalanced _))
      | inr e ↦ simp e ended
    ]

pub raise_transition-IsBalanced :
    (t : ResolvedTarget) (x : CoordinatorError) (s : Coordinator)
    → holds_lock s.driver ≡ true
    → s.operation_lock ≡ true
    → IsBalanced s (raise_transition t x s)
unfolding raise_transition
raise_transition-IsBalanced t x s on taken = ground (arith, on, taken)

-- A stage that keeps the lock.
pub to_stage-IsBalanced :
    (d : Driver) (x : CoordinatorState) (s : Coordinator)
    → holds_lock s.driver ≡ true
    → holds_lock d ≡ true
    → IsBalanced s (to_stage d x s)
unfolding to_stage publish_state
to_stage-IsBalanced d x s on keeps = ground (arith, on, keeps)

pub answer_driver-IsBalanced :
    (d : Driver) (seen : Inspection) (done : Bool) (s : Coordinator)
    → holds_lock s.driver ≡ holds_lock d
    → (holds_lock d ≡ true → s.operation_lock ≡ true)
    → IsBalanced s (answer_driver d seen done s)
unfolding answer_driver answer_unload answer_empty answer_load answer_verify
answer_driver-IsBalanced (unloading_for t) seen done s on taken = by_answer (inspect_all seen) done
  where
    by_answer :
        (o : Option (List ResidentInstance)) (b : Bool)
        → IsBalanced s (elim o [
          | none ↦ raise_transition t (CoordinatorError.refused "engine state is uncertain") s
          | some rs ↦
              (if b
                then to_stage (emptying_for t) CoordinatorState.verifying_empty s
                else raise_transition t (CoordinatorError.engine_error 0) s)
        ])
    by_answer none b = raise_transition-IsBalanced t _ s on (taken refl)
    by_answer (some rs) true = to_stage-IsBalanced _ _ s on refl
    by_answer (some rs) false = raise_transition-IsBalanced t _ s on (taken refl)
answer_driver-IsBalanced (emptying_for t) seen done s on taken =
    elim (Bool-cases (is_empty_inspection (inspect_all seen))) [
      | inl e ↦ rw e (to_stage-IsBalanced _ _ s on refl)
      | inr e ↦ rw e (raise_transition-IsBalanced t _ s on (taken refl))
    ]
answer_driver-IsBalanced (loading_for t) seen true s on taken = to_stage-IsBalanced _ _ s on refl
answer_driver-IsBalanced (loading_for t) seen false s on taken =
    raise_transition-IsBalanced t _ s on (taken refl)
answer_driver-IsBalanced (verifying_for t) seen done s on taken =
    elim (Bool-cases (verifies t (inspect_all seen))) [
      | inl e ↦ rw e (let locked = taken refl in ground (arith, on, locked))
      | inr e ↦ rw e (raise_transition-IsBalanced t _ s on (taken refl))
    ]
answer_driver-IsBalanced absent seen done s on taken = IsBalanced-refl s
answer_driver-IsBalanced driving seen done s on taken = IsBalanced-refl s
answer_driver-IsBalanced finishing seen done s on taken = IsBalanced-refl s
answer_driver-IsBalanced (queued_for t) seen done s on taken = IsBalanced-refl s
answer_driver-IsBalanced (loaded_for t) seen done s on taken = IsBalanced-refl s
answer_driver-IsBalanced (cleaning_for t x) seen done s on taken = IsBalanced-refl s
