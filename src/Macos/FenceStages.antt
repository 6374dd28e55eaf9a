-- ===== src/Macos/FenceStages.antt =====
-- macos/service/src/mnemosyne_macos/coordinator.py: a transition of the engines against the
-- permits that are out, through the stages of one barrier.
use mnemosyne_inference.Prelude.{
  ℕ, refl, Bool, true, false, ◌&&◌, not, Option, none, some, List, arith, is_none, Bool-cases, inl,
  inr,
}
use mnemosyne_inference.Macos.Targets.{
  ResidentInstance, Inspection, inspect_all, is_empty_inspection, matches,
}
use mnemosyne_inference.Macos.Types.{
  Kind, unload_call, abort_call, maintenance_call, reconcile_call, initialize_call, Stage, evicting,
  drain, before_lock, inspecting, unloading_all, emptying_all, operating, verifying, failing,
  await_driver, closing, Coordinator,
}
use mnemosyne_inference.Macos.Barrier.{
  fail_closed, run_stage, compare_stage, inspect_stage, empty_stage, answer_stage,
}
use mnemosyne_inference.Macos.Locked.{publish_state}
use mnemosyne_inference.Macos.Fence.{IsFenced}
use mnemosyne_inference.Macos.FenceBarriers.{
  IsDrained, IsHeldAt, IsFencedSection, drain_check-IsFenced, unload-IsFenced,
  drain_timeout-IsFenced, await_check-IsFenced, take_lock-IsFenced, close_barrier-IsFenced,
}

stay :
    (c : Kind) (g : Stage) (s : Coordinator)
    → IsHeldAt g s
    → IsFenced s
    → IsFencedSection s (some (record { kind = c; stage = g }), s)
stay c g s d h = record { fenced = h; held_by = d; same_barriers = refl }

pub run_stage-IsFenced :
    (c : Kind) (g : Stage) (now : ℕ) (late well : Bool) (s : Coordinator)
    → IsHeldAt g s
    → IsFenced s
    → IsFencedSection s (run_stage c g now late well s)
unfolding run_stage fail_closed
run_stage-IsFenced c evicting now late well s d h = unload-IsFenced s h
run_stage-IsFenced c drain now true well s d h = drain_timeout-IsFenced c s d h
run_stage-IsFenced c drain now false well s d h = drain_check-IsFenced c s d h
run_stage-IsFenced c (await_driver task) now late well s d h =
    await_check-IsFenced c task late well s d h
run_stage-IsFenced c before_lock now late well s d h = take_lock-IsFenced c late s d h
run_stage-IsFenced c failing now late well s d h = ground (arith, h)
run_stage-IsFenced c (closing matched) now late well s d h =
    close_barrier-IsFenced c matched now s d h
run_stage-IsFenced c inspecting now late well s d h = stay c inspecting s d h
run_stage-IsFenced c unloading_all now late well s d h = stay c unloading_all s d h
run_stage-IsFenced c emptying_all now late well s d h = stay c emptying_all s d h
run_stage-IsFenced c operating now late well s d h = stay c operating s d h
run_stage-IsFenced c verifying now late well s d h = stay c verifying s d h

-- The barrier lets the operation lock go.
failed_section :
    (c : Kind) (s : Coordinator)
    → IsDrained s
    → IsFenced s
    → IsFencedSection s
        (some (record { kind = c; stage = failing }), record s { operation_lock = false })
failed_section c s d h = ground (arith, h, d)

closing_section :
    (c : Kind) (m : Bool) (s : Coordinator)
    → IsDrained s
    → IsFenced s
    → IsFencedSection s
        (some (record { kind = c; stage = closing m }), record s { operation_lock = false })
closing_section c m s d h = ground (arith, h, d)

inspect_stage-IsFenced :
    (c : Kind) (o : Option (List ResidentInstance)) (s : Coordinator)
    → IsDrained s
    → IsFenced s
    → IsFencedSection s (inspect_stage c o s)
unfolding inspect_stage compare_stage
inspect_stage-IsFenced c none s d h = failed_section c s d h
inspect_stage-IsFenced reconcile_call (some rs) s d h = elim (Bool-cases (matches s.resident rs)) [
  | inl e ↦ rw e (closing_section reconcile_call true s d h)
  | inr e ↦ rw e (stay reconcile_call unloading_all s d h)
]
inspect_stage-IsFenced unload_call (some rs) s d h = stay unload_call unloading_all s d h
inspect_stage-IsFenced abort_call (some rs) s d h = stay abort_call unloading_all s d h
inspect_stage-IsFenced maintenance_call (some rs) s d h = stay maintenance_call unloading_all s d h
inspect_stage-IsFenced initialize_call (some rs) s d h = stay initialize_call unloading_all s d h

empty_stage-IsFenced :
    (c : Kind) (s : Coordinator) → IsDrained s → IsFenced s → IsFencedSection s (empty_stage c s)
unfolding empty_stage
empty_stage-IsFenced maintenance_call s d h = stay maintenance_call operating s d h
empty_stage-IsFenced unload_call s d h = closing_section unload_call false s d h
empty_stage-IsFenced abort_call s d h = closing_section abort_call false s d h
empty_stage-IsFenced reconcile_call s d h = closing_section reconcile_call false s d h
empty_stage-IsFenced initialize_call s d h = closing_section initialize_call false s d h

pub answer_stage-IsFenced :
    (c : Kind) (g : Stage) (seen : Inspection) (done : Bool) (s : Coordinator)
    → IsHeldAt g s
    → IsFenced s
    → IsFencedSection s (answer_stage c g seen done s)
unfolding answer_stage publish_state
answer_stage-IsFenced c inspecting seen done s d h =
    inspect_stage-IsFenced c (inspect_all seen) s d h
answer_stage-IsFenced c unloading_all seen done s d h =
    elim (Bool-cases (done && not (is_none (inspect_all seen)))) [
      | inl e ↦ simp e (ground (arith, h, d))
      | inr e ↦ simp e (failed_section c s d h)
    ]
answer_stage-IsFenced c emptying_all seen done s d h =
    elim (Bool-cases (is_empty_inspection (inspect_all seen))) [
      | inl e ↦ rw e (empty_stage-IsFenced c s d h)
      | inr e ↦ rw e (failed_section c s d h)
    ]
answer_stage-IsFenced c operating seen true s d h = stay c verifying s d h
answer_stage-IsFenced c operating seen false s d h = failed_section c s d h
answer_stage-IsFenced c verifying seen done s d h =
    elim (Bool-cases (is_empty_inspection (inspect_all seen))) [
      | inl e ↦ rw e (closing_section c false s d h)
      | inr e ↦ rw e (failed_section c s d h)
    ]
answer_stage-IsFenced c evicting seen done s d h = stay c evicting s d h
answer_stage-IsFenced c drain seen done s d h = stay c drain s d h
answer_stage-IsFenced c before_lock seen done s d h = stay c before_lock s d h
answer_stage-IsFenced c failing seen done s d h = stay c failing s d h
answer_stage-IsFenced c (await_driver t) seen done s d h = stay c (await_driver t) s d h
answer_stage-IsFenced c (closing m) seen done s d h = stay c (closing m) s d h
