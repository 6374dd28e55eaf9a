-- ===== src/Macos/LockTasks.antt =====
-- macos/service/src/mnemosyne_macos/coordinator.py: the operation lock against the tasks that work on the
-- engines, through the sections of the maintenance calls, an audit and the shutdown.
use Prim.Native.String.{String}
use mnemosyne_inference.Prelude.{
  ℕ, ◌+◌, ◌-◌, ◌≡◌, refl, ◌∙◌, Bool, true, false, ◌&&◌, ◌||◌, not, Option, none, some, List, arith,
  ltb, leb, ◌==◌, is_nil, is_none, Bool-cases, inl, inr,
}
use mnemosyne_inference.Leasing.{holds, remove_lease, one_if}
use mnemosyne_inference.Macos.Targets.{
  ResidentInstance, Inspection, inspect_all, is_empty_inspection, matches,
}
use mnemosyne_inference.Macos.Types.{
  CoordinatorError, Driver, absent, driving, finishing, queued_for, unloading_for, emptying_for,
  loading_for, verifying_for, loaded_for, cleaning_for, task_done, holds_lock, Kind, unload_call,
  abort_call, maintenance_call, reconcile_call, initialize_call, Stage, evicting, drain,
  before_lock, inspecting, unloading_all, emptying_all, operating, verifying, failing, await_driver,
  closing, Barrier, Coordinator,
}
use mnemosyne_inference.Macos.Locked.{publish_state, fail_head_group, fail_all, release_locked}
use mnemosyne_inference.Macos.Driver.{
  lock_transition, to_stage, publish_handle, close_unclean, fail_transition, cancel_driver,
}
use mnemosyne_inference.Macos.Barrier.{
  Section, close_admission, capture, drain_check, unload, run_empty_maintenance, reconcile,
  initialize, abort_epoch, abort, evict_if_idle, reopen, drain_timeout, await_check, lock_stage,
  take_lock, fail_closed, close_empty, close_reconcile, close_barrier, run_stage, compare_stage,
  inspect_stage, empty_stage, answer_stage,
}
use mnemosyne_inference.Macos.System.{
  Call, call_unload, call_maintenance, call_reconcile, call_initialize, call_abort, call_evict,
  call, in_lock, run_driver_at, raise_driver, clean_driver,
}
use mnemosyne_inference.Macos.Lock.{IsBalanced, IsBalanced-refl}
use mnemosyne_inference.Macos.LockDriver.{
  drive-IsBalanced, finish_driver-IsBalanced, raise_transition-IsBalanced,
}

-- The driver's other sections.
pub run_driver_at-IsBalanced :
    (hint : Option ℕ) (d : Driver) (s : Coordinator)
    → s.driver ≡ d
    → IsBalanced s (run_driver_at hint d s)
unfolding run_driver_at lock_transition to_stage publish_state publish_handle
run_driver_at-IsBalanced hint driving s e = drive-IsBalanced hint s e
run_driver_at-IsBalanced hint finishing s e = finish_driver-IsBalanced s e
run_driver_at-IsBalanced hint (queued_for t) s e = elim (Bool-cases s.operation_lock) [
  | inl taken ↦ simp taken (IsBalanced-refl s)
  | inr free ↦ simp free (ground (arith, e, free))
]
run_driver_at-IsBalanced hint (loaded_for t) s e =
    elim (Bool-cases (s.initialized && s.accepting && not s.is_stopping)) [
      | inl open_now ↦ simp open_now (ground (arith, e))
      | inr closed ↦ simp closed (ground (arith, e))
    ]
run_driver_at-IsBalanced hint absent s e = IsBalanced-refl s
run_driver_at-IsBalanced hint (unloading_for t) s e = IsBalanced-refl s
run_driver_at-IsBalanced hint (emptying_for t) s e = IsBalanced-refl s
run_driver_at-IsBalanced hint (loading_for t) s e = IsBalanced-refl s
run_driver_at-IsBalanced hint (verifying_for t) s e = IsBalanced-refl s
run_driver_at-IsBalanced hint (cleaning_for t x) s e = IsBalanced-refl s

at_work_driver : (d : Driver) (s : Coordinator) → s.driver ≡ d → holds_lock s.driver ≡ holds_lock d
at_work_driver d s e = rw e refl

pub raise_driver-IsBalanced :
    (x : CoordinatorError) (d : Driver) (s : Coordinator)
    → s.driver ≡ d
    → (holds_lock d ≡ true → s.operation_lock ≡ true)
    → IsBalanced s (raise_driver x d s)
unfolding raise_driver
raise_driver-IsBalanced x (queued_for t) s e taken = ground (arith, e)
raise_driver-IsBalanced x (unloading_for t) s e taken =
    raise_transition-IsBalanced t x s (at_work_driver _ s e) (taken refl)
raise_driver-IsBalanced x (emptying_for t) s e taken =
    raise_transition-IsBalanced t x s (at_work_driver _ s e) (taken refl)
raise_driver-IsBalanced x (loading_for t) s e taken =
    raise_transition-IsBalanced t x s (at_work_driver _ s e) (taken refl)
raise_driver-IsBalanced x (verifying_for t) s e taken =
    raise_transition-IsBalanced t x s (at_work_driver _ s e) (taken refl)
raise_driver-IsBalanced x absent s e taken = IsBalanced-refl s
raise_driver-IsBalanced x driving s e taken = IsBalanced-refl s
raise_driver-IsBalanced x finishing s e taken = IsBalanced-refl s
raise_driver-IsBalanced x (loaded_for t) s e taken = IsBalanced-refl s
raise_driver-IsBalanced x (cleaning_for t y) s e taken = IsBalanced-refl s

pub clean_driver-IsBalanced :
    (clean : Bool) (d : Driver) (s : Coordinator)
    → s.driver ≡ d
    → IsBalanced s (clean_driver clean d s)
unfolding clean_driver fail_transition close_unclean fail_head_group
clean_driver-IsBalanced true (cleaning_for t x) s e = ground (arith, e)
clean_driver-IsBalanced false (cleaning_for t x) s e = ground (arith, e)
clean_driver-IsBalanced clean absent s e = IsBalanced-refl s
clean_driver-IsBalanced clean driving s e = IsBalanced-refl s
clean_driver-IsBalanced clean finishing s e = IsBalanced-refl s
clean_driver-IsBalanced clean (queued_for t) s e = IsBalanced-refl s
clean_driver-IsBalanced clean (unloading_for t) s e = IsBalanced-refl s
clean_driver-IsBalanced clean (emptying_for t) s e = IsBalanced-refl s
clean_driver-IsBalanced clean (loading_for t) s e = IsBalanced-refl s
clean_driver-IsBalanced clean (verifying_for t) s e = IsBalanced-refl s
clean_driver-IsBalanced clean (loaded_for t) s e = IsBalanced-refl s

pub cancel_driver-IsBalanced :
    (s : Coordinator)
    → (holds_lock s.driver ≡ true → s.operation_lock ≡ true)
    → IsBalanced s (cancel_driver (holds_lock s.driver) s)
unfolding cancel_driver
cancel_driver-IsBalanced s taken = elim (Bool-cases (holds_lock s.driver)) [
  | inl on ↦ let locked = taken on in simp on (ground (arith, on, locked))
  | inr off ↦ simp off (ground (arith, off))
]

-- A section of a call that held the lock, or did not.
abbrev pub at_work : Option Barrier → Bool
at_work none = false
at_work (some b) = in_lock b.stage

pub record IsBalancedSection (before : Bool) (s : Coordinator) (r : Section) : Type 0 where
  pub balance :
      one_if (at_work r.0) + one_if s.operation_lock ≡ one_if before + one_if r.1.operation_lock
  pub same_driver : holds_lock r.1.driver ≡ holds_lock s.driver
  pub same_barriers : r.1.barriers ≡ s.barriers
  pub same_audits : r.1.audits ≡ s.audits
  pub same_shutdown : r.1.shutdown ≡ s.shutdown

drain_check-IsBalanced : (c : Kind) (s : Coordinator) → IsBalancedSection false s (drain_check c s)
unfolding drain_check capture publish_state
drain_check-IsBalanced c s = elim (Bool-cases (ltb 0 s.inflight)) [
  | inl busy ↦ simp busy (ground arith)
  | inr free ↦ simp free (elim (Bool-cases (task_done s.driver)) [
    | inl ended ↦ simp ended (ground arith)
    | inr live ↦ simp live (ground arith)
  ])
]

closing_call-IsBalanced :
    (c : Kind) (reason : String) (s : Coordinator)
    → IsBalancedSection false s (drain_check c (close_admission reason s))
unfolding close_admission fail_all
closing_call-IsBalanced c reason s =
    let r = drain_check-IsBalanced c (close_admission reason s) in
    record {
      balance = r.balance;
      same_driver = r.same_driver;
      same_barriers = r.same_barriers;
      same_audits = r.same_audits;
      same_shutdown = r.same_shutdown;
    }

pub reconcile-IsBalanced : (s : Coordinator) → IsBalancedSection false s (reconcile s)
unfolding reconcile
reconcile-IsBalanced s = elim (Bool-cases s.is_stopping) [
  | inl e ↦ simp e (ground arith)
  | inr e ↦ simp e (closing_call-IsBalanced reconcile_call _ s)
]

-- A section that leaves every task and the lock.
record IsIdle (s s' : Coordinator) : Type 0 where
  same_lock : s'.operation_lock ≡ s.operation_lock
  same_driver : holds_lock s'.driver ≡ holds_lock s.driver
  same_barriers : s'.barriers ≡ s.barriers
  same_audits : s'.audits ≡ s.audits
  same_shutdown : s'.shutdown ≡ s.shutdown

closed_release-IsIdle :
    (now e : ℕ) (reason : String) (s : Coordinator)
    → IsIdle s (release_locked now e (close_admission reason s))
unfolding release_locked close_admission fail_all
closed_release-IsIdle now e reason s = elim (Bool-cases (not (e == s.epoch) || leb s.inflight 0)) [
  | inl stale ↦ simp stale (ground arith)
  | inr current ↦ simp current (ground arith)
]

idle_first :
    (s t : Coordinator) (r : Section)
    → IsIdle s t
    → IsBalancedSection false t r
    → IsBalancedSection false s r
idle_first s t r h k = record {
  balance = rw (← h.same_lock) k.balance;
  same_driver = k.same_driver ∙ h.same_driver;
  same_barriers = k.same_barriers ∙ h.same_barriers;
  same_audits = k.same_audits ∙ h.same_audits;
  same_shutdown = k.same_shutdown ∙ h.same_shutdown;
}

abort_epoch-IsBalanced :
    (now e : ℕ) (s : Coordinator) → IsBalancedSection false s (abort_epoch now e s)
unfolding abort_epoch
abort_epoch-IsBalanced now e s = elim (Bool-cases (e == s.epoch)) [
  | inl current ↦ simp current (
      let t : Coordinator =
        release_locked now e (close_admission "resident request abort in progress" s) in
      idle_first s t _ (closed_release-IsIdle now e _ s) (drain_check-IsBalanced abort_call t))
  | inr old ↦ simp old (ground arith)
]

pub call-IsBalanced : (c : Call) (s : Coordinator) → IsBalancedSection false s (call c s)
unfolding call unload run_empty_maintenance initialize abort evict_if_idle
call-IsBalanced call_unload s = closing_call-IsBalanced unload_call _ s
call-IsBalanced call_maintenance s = closing_call-IsBalanced maintenance_call _ s
call-IsBalanced call_reconcile s = reconcile-IsBalanced s
call-IsBalanced call_initialize s = elim (Bool-cases s.is_stopping) [
  | inl e ↦ simp e (ground arith)
  | inr e ↦ simp e (ground arith)
]
call-IsBalanced (call_abort now e) s = elim (Bool-cases (holds e s.leases)) [
  | inr gone ↦ simp gone (ground arith)
  | inl out ↦ simp out (
      let r = abort_epoch-IsBalanced now e (record s { leases = remove_lease e s.leases }) in
      record {
        balance = r.balance;
        same_driver = r.same_driver;
        same_barriers = r.same_barriers;
        same_audits = r.same_audits;
        same_shutdown = r.same_shutdown;
      })
]
call-IsBalanced (call_evict now n) s =
    elim (Bool-cases (
      not (is_none s.resident)
      && s.inflight == 0
      && is_nil s.queue
      && s.accepting
      && leb n (now - s.last_used))) [
        | inl e ↦ simp e (ground arith)
        | inr e ↦ simp e (ground arith)
      ]

unlocked_section :
    (o : Option Barrier) (s : Coordinator)
    → at_work o ≡ false
    → s.operation_lock ≡ true
    → IsBalancedSection true s (o, record s { operation_lock = false })
unlocked_section o s off taken = ground (arith, off, taken)

working_section :
    (o : Option Barrier) (s : Coordinator) → at_work o ≡ true → IsBalancedSection true s (o, s)
working_section o s on = ground (arith, on)

pub run_stage-IsBalanced :
    (c : Kind) (g : Stage) (now : ℕ) (late well : Bool) (s : Coordinator)
    → IsBalancedSection (in_lock g) s (run_stage c g now late well s)
unfolding run_stage fail_closed unload await_check drain_timeout reopen take_lock lock_stage
    publish_state close_barrier close_empty close_reconcile
run_stage-IsBalanced c evicting now late well s = closing_call-IsBalanced unload_call _ s
run_stage-IsBalanced c drain now true well s = timed_out c
  where
    timed_out : (c : Kind) → IsBalancedSection false s (drain_timeout c s)
    timed_out unload_call = ground arith
    timed_out reconcile_call = ground arith
    timed_out maintenance_call = ground arith
    timed_out initialize_call = ground arith
    timed_out abort_call = ground arith
run_stage-IsBalanced c drain now false well s = drain_check-IsBalanced c s
run_stage-IsBalanced c (await_driver task) now late well s = ground arith
run_stage-IsBalanced c before_lock now late well s = by_lock late s.operation_lock refl
  where
    locked : (c : Kind) → s.operation_lock ≡ false → IsBalancedSection false s (lock_stage c s)
    locked unload_call free = ground (arith, free)
    locked abort_call free = ground (arith, free)
    locked maintenance_call free = ground (arith, free)
    locked reconcile_call free = ground (arith, free)
    locked initialize_call free = ground (arith, free)

    by_lock : (b l : Bool) → s.operation_lock ≡ l → IsBalancedSection false s (take_lock c b s)
    by_lock true l e = ground arith
    by_lock false true e = simp e (ground arith)
    by_lock false false e = simp e (locked c e)
run_stage-IsBalanced c failing now late well s = ground arith
run_stage-IsBalanced c (closing matched) now late well s = closed c
  where
    closed : (c : Kind) → IsBalancedSection false s (none, close_barrier c matched now s)
    closed unload_call = ground arith
    closed abort_call = ground arith
    closed maintenance_call = ground arith
    closed reconcile_call = ground arith
    closed initialize_call = ground arith
run_stage-IsBalanced c inspecting now late well s = working_section _ s refl
run_stage-IsBalanced c unloading_all now late well s = working_section _ s refl
run_stage-IsBalanced c emptying_all now late well s = working_section _ s refl
run_stage-IsBalanced c operating now late well s = working_section _ s refl
run_stage-IsBalanced c verifying now late well s = working_section _ s refl

inspect_stage-IsBalanced :
    (c : Kind) (o : Option (List ResidentInstance)) (s : Coordinator)
    → s.operation_lock ≡ true
    → IsBalancedSection true s (inspect_stage c o s)
unfolding inspect_stage compare_stage
inspect_stage-IsBalanced c none s taken = unlocked_section _ s refl taken
inspect_stage-IsBalanced reconcile_call (some rs) s taken =
    elim (Bool-cases (matches s.resident rs)) [
      | inl e ↦ rw e (unlocked_section _ s refl taken)
      | inr e ↦ rw e (working_section _ s refl)
    ]
inspect_stage-IsBalanced unload_call (some rs) s taken = working_section _ s refl
inspect_stage-IsBalanced abort_call (some rs) s taken = working_section _ s refl
inspect_stage-IsBalanced maintenance_call (some rs) s taken = working_section _ s refl
inspect_stage-IsBalanced initialize_call (some rs) s taken = working_section _ s refl

empty_stage-IsBalanced :
    (c : Kind) (s : Coordinator)
    → s.operation_lock ≡ true
    → IsBalancedSection true s (empty_stage c s)
unfolding empty_stage
empty_stage-IsBalanced maintenance_call s taken = working_section _ s refl
empty_stage-IsBalanced unload_call s taken = unlocked_section _ s refl taken
empty_stage-IsBalanced abort_call s taken = unlocked_section _ s refl taken
empty_stage-IsBalanced reconcile_call s taken = unlocked_section _ s refl taken
empty_stage-IsBalanced initialize_call s taken = unlocked_section _ s refl taken

pub answer_stage-IsBalanced :
    (c : Kind) (g : Stage) (seen : Inspection) (done : Bool) (s : Coordinator)
    → (in_lock g ≡ true → s.operation_lock ≡ true)
    → IsBalancedSection (in_lock g) s (answer_stage c g seen done s)
unfolding answer_stage publish_state
answer_stage-IsBalanced c inspecting seen done s taken =
    inspect_stage-IsBalanced c (inspect_all seen) s (taken refl)
answer_stage-IsBalanced c unloading_all seen done s taken =
    elim (Bool-cases (done && not (is_none (inspect_all seen)))) [
      | inl e ↦ simp e (ground arith)
      | inr e ↦ simp e (unlocked_section _ s refl (taken refl))
    ]
answer_stage-IsBalanced c emptying_all seen done s taken =
    elim (Bool-cases (is_empty_inspection (inspect_all seen))) [
      | inl e ↦ rw e (empty_stage-IsBalanced c s (taken refl))
      | inr e ↦ rw e (unlocked_section _ s refl (taken refl))
    ]
answer_stage-IsBalanced c operating seen true s taken = working_section _ s refl
answer_stage-IsBalanced c operating seen false s taken = unlocked_section _ s refl (taken refl)
answer_stage-IsBalanced c verifying seen done s taken =
    elim (Bool-cases (is_empty_inspection (inspect_all seen))) [
      | inl e ↦ rw e (unlocked_section _ s refl (taken refl))
      | inr e ↦ rw e (unlocked_section _ s refl (taken refl))
    ]
answer_stage-IsBalanced c evicting seen done s taken = ground arith
answer_stage-IsBalanced c drain seen done s taken = ground arith
answer_stage-IsBalanced c before_lock seen done s taken = ground arith
answer_stage-IsBalanced c failing seen done s taken = ground arith
answer_stage-IsBalanced c (await_driver t) seen done s taken = ground arith
answer_stage-IsBalanced c (closing m) seen done s taken = ground arith
