-- ===== src/Macos/FenceBarriers.antt =====
-- macos/service/src/mnemosyne_macos/coordinator.py: a transition of the engines against the
-- permits that are out, through the sections of one barrier.
use mnemosyne_inference.Prelude.{
  ℕ, ◌-◌, ◌≡◌, refl, ◌∙◌, String, Bool, true, false, ◌&&◌, not, Option, none, some, arith, ltb, leb,
  ◌==◌, is_nil, is_none, Bool-cases, inl, inr,
}
use mnemosyne_inference.Leasing.{holds, remove_lease}
use mnemosyne_inference.Macos.Types.{
  task_done, Kind, unload_call, abort_call, maintenance_call, reconcile_call, initialize_call,
  Stage, evicting, drain, before_lock, inspecting, unloading_all, emptying_all, operating,
  verifying, failing, await_driver, closing, Barrier, Coordinator,
}
use mnemosyne_inference.Macos.Locked.{publish_state, fail_all, release_locked}
use mnemosyne_inference.Macos.Barrier.{
  Section, close_admission, capture, drain_check, unload, run_empty_maintenance, reconcile,
  initialize, abort_epoch, abort, evict_if_idle, reopen, drain_timeout, await_check, lock_stage,
  take_lock, close_empty, close_reconcile, close_barrier,
}
use mnemosyne_inference.Macos.System.{
  Call, call_unload, call_maintenance, call_reconcile, call_initialize, call_abort, call_evict,
  call,
}
use mnemosyne_inference.Macos.Fence.{in_transition, IsFenced, IsClosedStep, release_locked-IsFenced}

-- Behind the drain and behind the wait for the driver.
pub record IsDrained (s : Coordinator) : Type 0 where
  pub shut : s.accepting ≡ false
  pub empty : s.inflight ≡ 0
  pub settled : in_transition s.driver ≡ false

pub record IsAwaiting (task : ℕ) (s : Coordinator) : Type 0 where
  pub shut : s.accepting ≡ false
  pub empty : s.inflight ≡ 0
  pub awaited : in_transition s.driver ≡ true → s.driver_task ≡ task

abbrev pub IsHeldAt : Stage → Coordinator → Type 0
IsHeldAt evicting s = s.accepting ≡ false
IsHeldAt drain s = s.accepting ≡ false
IsHeldAt failing s = s.accepting ≡ false
IsHeldAt (await_driver task) s = IsAwaiting task s
IsHeldAt before_lock s = IsDrained s
IsHeldAt inspecting s = IsDrained s
IsHeldAt unloading_all s = IsDrained s
IsHeldAt emptying_all s = IsDrained s
IsHeldAt operating s = IsDrained s
IsHeldAt verifying s = IsDrained s
IsHeldAt (closing m) s = IsDrained s

abbrev pub IsHeldBy : Option Barrier → Coordinator → Type 0
IsHeldBy none s = Unit
IsHeldBy (some b) s = IsHeldAt b.stage s

-- A section of the one barrier under way, from a state that it holds.
pub record IsFencedSection (s : Coordinator) (r : Section) : Type 0 where
  pub fenced : IsFenced r.1
  pub held_by : IsHeldBy r.0 r.1
  pub same_barriers : r.1.barriers ≡ s.barriers

IsDrained-step : (s s' : Coordinator) → IsClosedStep s s' → IsDrained s → IsDrained s'
IsDrained-step s s' step h = record {
  shut = step.closed h.shut;
  empty = let less = step.falls h.shut in let e = h.empty in omega arith;
  settled = let back = step.still h.shut in let e = h.settled in ground (arith, back, e);
}

-- The other tasks leave a barrier's hold alone.
pub IsHeldAt-step :
    (g : Stage) (s s' : Coordinator) → IsClosedStep s s' → IsHeldAt g s → IsHeldAt g s'
IsHeldAt-step evicting s s' step h = step.closed h
IsHeldAt-step drain s s' step h = step.closed h
IsHeldAt-step failing s s' step h = step.closed h
IsHeldAt-step (await_driver task) s s' step h = record {
  shut = step.closed h.shut;
  empty = let less = step.falls h.shut in let e = h.empty in omega arith;
  awaited = λ on.
      let same = step.same_task h.shut on in
      let e = h.awaited (step.still h.shut on) in omega arith;
}
IsHeldAt-step before_lock s s' step h = IsDrained-step s s' step h
IsHeldAt-step inspecting s s' step h = IsDrained-step s s' step h
IsHeldAt-step unloading_all s s' step h = IsDrained-step s s' step h
IsHeldAt-step emptying_all s s' step h = IsDrained-step s s' step h
IsHeldAt-step operating s s' step h = IsDrained-step s s' step h
IsHeldAt-step verifying s s' step h = IsDrained-step s s' step h
IsHeldAt-step (closing m) s s' step h = IsDrained-step s s' step h

pub drain_check-IsFenced :
    (c : Kind) (s : Coordinator)
    → s.accepting ≡ false
    → IsFenced s
    → IsFencedSection s (drain_check c s)
unfolding drain_check capture publish_state
drain_check-IsFenced c s shut h = elim (Bool-cases (ltb 0 s.inflight)) [
  | inl busy ↦ simp busy (ground (arith, h, shut))
  | inr free ↦ simp free (elim (Bool-cases (task_done s.driver)) [
    | inl ended ↦ simp ended (ground (arith, h, shut, free))
    | inr live ↦ simp live (ground (arith, h, shut, free))
  ])
]

close_admission-IsFenced :
    (reason : String) (s : Coordinator) → IsFenced s → IsFenced (close_admission reason s)
unfolding close_admission fail_all
close_admission-IsFenced reason s h = ground (arith, h)

-- A call that closes admission and then drains.
closing_call-IsFenced :
    (c : Kind) (reason : String) (s : Coordinator)
    → IsFenced s
    → IsFencedSection s (drain_check c (close_admission reason s))
unfolding close_admission fail_all
closing_call-IsFenced c reason s h =
    let r =
      drain_check-IsFenced c (close_admission reason s) refl
        (close_admission-IsFenced reason s h) in
    record { fenced = r.fenced; held_by = r.held_by; same_barriers = r.same_barriers }

pub unload-IsFenced : (s : Coordinator) → IsFenced s → IsFencedSection s (unload s)
unfolding unload
unload-IsFenced s h = closing_call-IsFenced unload_call _ s h

pub reconcile-IsFenced : (s : Coordinator) → IsFenced s → IsFencedSection s (reconcile s)
unfolding reconcile
reconcile-IsFenced s h = elim (Bool-cases s.is_stopping) [
  | inl e ↦ simp e (ground (arith, h))
  | inr e ↦ simp e (closing_call-IsFenced reconcile_call _ s h)
]

-- `initialize` does not drain: it is for a coordinator without a lease and without a driver.
initialize-IsFenced :
    (s : Coordinator)
    → s.inflight ≡ 0
    → task_done s.driver ≡ true
    → IsFenced s
    → IsFencedSection s (initialize s)
unfolding initialize
initialize-IsFenced s free ended h = elim (Bool-cases s.is_stopping) [
  | inl e ↦ simp e (ground (arith, h))
  | inr e ↦ simp e (ground (arith, h, free, ended))
]

closed_release :
    (now e : ℕ) (reason : String) (s : Coordinator)
    → IsFenced s
    → (let s1 = release_locked now e (close_admission reason s) in
        IsFenced s1 × ((s1.accepting ≡ false) × (s1.barriers ≡ s.barriers)))
unfolding close_admission fail_all
closed_release now e reason s h =
    let r =
      release_locked-IsFenced now e (close_admission reason s)
        (close_admission-IsFenced reason s h) in
    (r.fenced, (r.step.closed refl, r.step.same_barriers))

abort_epoch-IsFenced :
    (now e : ℕ) (s : Coordinator) → IsFenced s → IsFencedSection s (abort_epoch now e s)
unfolding abort_epoch
abort_epoch-IsFenced now e s h = elim (Bool-cases (e == s.epoch)) [
  | inl current ↦ simp current (
      let (f, (shut, same)) = closed_release now e "resident request abort in progress" s h in
      let r = drain_check-IsFenced abort_call _ shut f in
      record { fenced = r.fenced; held_by = r.held_by; same_barriers = r.same_barriers ∙ same })
  | inr old ↦ simp old (ground (arith, h))
]

abort-IsFenced : (now e : ℕ) (s : Coordinator) → IsFenced s → IsFencedSection s (abort now e s)
unfolding abort
abort-IsFenced now e s h = elim (Bool-cases (holds e s.leases)) [
  | inr gone ↦ simp gone (ground (arith, h))
  | inl out ↦ simp out (
      let r =
        abort_epoch-IsFenced now e (record s { leases = remove_lease e s.leases })
          (ground (arith, h)) in
      record { fenced = r.fenced; held_by = r.held_by; same_barriers = r.same_barriers })
]

evict_if_idle-IsFenced :
    (now n : ℕ) (s : Coordinator) → IsFenced s → IsFencedSection s (evict_if_idle now n s)
unfolding evict_if_idle
evict_if_idle-IsFenced now n s h =
    elim (Bool-cases (
      not (is_none s.resident)
      && s.inflight == 0
      && is_nil s.queue
      && s.accepting
      && leb n (now - s.last_used))) [
        | inl e ↦ simp e (ground (arith, h))
        | inr e ↦ simp e (ground (arith, h))
      ]

-- What a call of a barrier needs.
abbrev pub may_start : Call → Coordinator → Bool
may_start call_initialize s = s.inflight == 0 && task_done s.driver
may_start c s = true

pub call-IsFenced :
    (c : Call) (s : Coordinator) → may_start c s ≡ true → IsFenced s → IsFencedSection s (call c s)
unfolding call run_empty_maintenance
call-IsFenced call_unload s may h = unload-IsFenced s h
call-IsFenced call_maintenance s may h = closing_call-IsFenced maintenance_call _ s h
call-IsFenced call_reconcile s may h = reconcile-IsFenced s h
call-IsFenced call_initialize s may h =
    initialize-IsFenced s (ground (arith, may)) (ground (arith, may)) h
call-IsFenced (call_abort now e) s may h = abort-IsFenced now e s h
call-IsFenced (call_evict now n) s may h = evict_if_idle-IsFenced now n s h

pub drain_timeout-IsFenced :
    (c : Kind) (s : Coordinator)
    → s.accepting ≡ false
    → IsFenced s
    → IsFencedSection s (drain_timeout c s)
unfolding drain_timeout reopen
drain_timeout-IsFenced unload_call s shut h = ground (arith, h)
drain_timeout-IsFenced reconcile_call s shut h = ground (arith, h)
drain_timeout-IsFenced maintenance_call s shut h = ground (arith, h, shut)
drain_timeout-IsFenced initialize_call s shut h = ground (arith, h, shut)
drain_timeout-IsFenced abort_call s shut h = ground (arith, h)

pub await_check-IsFenced :
    (c : Kind) (task : ℕ) (late well : Bool) (s : Coordinator)
    → IsAwaiting task s
    → IsFenced s
    → IsFencedSection s (await_check c task late well s)
unfolding await_check
await_check-IsFenced c task late well s w h = ground (arith, h, w)

pub take_lock-IsFenced :
    (c : Kind) (late : Bool) (s : Coordinator)
    → IsDrained s
    → IsFenced s
    → IsFencedSection s (take_lock c late s)
unfolding take_lock lock_stage publish_state
take_lock-IsFenced c true s d h = ground (arith, h, d)
take_lock-IsFenced c false s d h = elim (Bool-cases s.operation_lock) [
  | inl e ↦ simp e (ground (arith, h, d))
  | inr e ↦ simp e (locked c)
]
  where
    locked : (c : Kind) → IsFencedSection s (lock_stage c s)
    locked unload_call = ground (arith, h, d)
    locked abort_call = ground (arith, h, d)
    locked maintenance_call = ground (arith, h, d)
    locked reconcile_call = ground (arith, h, d)
    locked initialize_call = ground (arith, h, d)

pub close_barrier-IsFenced :
    (c : Kind) (matched : Bool) (now : ℕ) (s : Coordinator)
    → IsDrained s
    → IsFenced s
    → IsFencedSection s (none, close_barrier c matched now s)
unfolding close_barrier close_empty close_reconcile
close_barrier-IsFenced unload_call matched now s d h = ground (arith, h, d)
close_barrier-IsFenced abort_call matched now s d h = ground (arith, h, d)
close_barrier-IsFenced maintenance_call matched now s d h = ground (arith, h, d)
close_barrier-IsFenced reconcile_call matched now s d h = ground (arith, h, d)
close_barrier-IsFenced initialize_call matched now s d h = ground (arith, h, d)
