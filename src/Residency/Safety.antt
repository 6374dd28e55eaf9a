-- ===== src/Residency/Safety.antt =====
-- cuda_residency.py: each section of a caller keeps the invariant.
use mnemosyne_inference.Prelude.{
  ℕ, ◌≡◌, refl, true, ◌&&◌, not, Option, none, some, arith, ◌==◌, String, Bool-cases, inl, inr, leb,
  length, is_nil,
}
use mnemosyne_inference.Residency.Types.{Profile, Waiter, Outcome, granted, failed, Coordinator}
use mnemosyne_inference.Residency.Locked.{
  bump, admits, purge_cancelled, ensure_driver, release_locked,
}
use mnemosyne_inference.Residency.Admission.{
  grant_now, enqueue, is_warm, admit, acquire, is_current, acquire_current, outcome, settle_wait,
  collect, return_permit, cancel_waiter, holds, release_section, release, reconfigure,
}
use mnemosyne_inference.Residency.System.{or_same}
use mnemosyne_inference.Residency.Permits.{
  IsSafe, IsSafeBut, one_if, held-remove_lease, remove_lease-LeasesUpTo, owed-drop_future,
  drop_future-FuturesUpTo, outcome-UpTo,
}

grant_now-IsSafe :
    (s : Coordinator) (d : String)
    → is_warm d s ≡ true
    → s.accepting ≡ true
    → IsSafe s
    → IsSafe (grant_now s)
unfolding grant_now is_warm
grant_now-IsSafe s d w a h = ground (arith, h)

grant_current-IsSafe :
    (s : Coordinator) → is_current s ≡ true → s.accepting ≡ true → IsSafe s → IsSafe (grant_now s)
unfolding grant_now is_current
grant_current-IsSafe s w a h = ground (arith, h)

enqueue-IsSafe : (w : Waiter) (s : Coordinator) → IsSafe s → IsSafe (enqueue w s)
unfolding enqueue
enqueue-IsSafe w s h = ground (arith, h)

pub purge_cancelled-IsSafe : (s : Coordinator) → IsSafe s → IsSafe (purge_cancelled s)
unfolding purge_cancelled
purge_cancelled-IsSafe s h = ground (arith, h)

pub admits-accepting : (s : Coordinator) → admits s ≡ true → s.accepting ≡ true
unfolding admits
admits-accepting s h = ground arith

admit-IsSafe : (w : Waiter) (s : Coordinator) → s.accepting ≡ true → IsSafe s → IsSafe (admit w s).0
unfolding admit
admit-IsSafe w s a h = elim (Bool-cases (is_warm w.deployment_id s)) [
  | inl warm ↦ rw warm (grant_now-IsSafe s w.deployment_id warm a h)
  | inr cold ↦ rw cold (elim (Bool-cases (leb s.max_queue_depth (length s.queue))) [
    | inl full ↦ rw full h
    | inr room ↦ rw room (enqueue-IsSafe w s h)
  ])
]

pub acquire-IsSafe :
    (t : ℕ) (p : Profile) (d : String) (s : Coordinator) → IsSafe s → IsSafe (acquire t p d s).0
unfolding acquire
acquire-IsSafe t p d s h = elim (Bool-cases (admits s)) [
  | inl open_ ↦ rw open_ (
      admit-IsSafe _ (purge_cancelled s) (unfold purge_cancelled in admits-accepting s open_)
        (purge_cancelled-IsSafe s h))
  | inr shut ↦ rw shut h
]

pub acquire_current-IsSafe : (s : Coordinator) → IsSafe s → IsSafe (acquire_current s).0
unfolding acquire_current
acquire_current-IsSafe s h = elim (Bool-cases (admits s)) [
  | inl open_ ↦ rw open_ (elim (Bool-cases (is_current s)) [
    | inl now ↦ rw now (grant_current-IsSafe s now (admits-accepting s open_) h)
    | inr other ↦ rw other h
  ])
  | inr shut ↦ rw shut h
]

settle_wait-IsSafe :
    (t : ℕ) (o : Option Outcome) (s : Coordinator)
    → outcome t s.futures ≡ o
    → IsSafe s
    → IsSafe (settle_wait t o s).0
unfolding settle_wait
settle_wait-IsSafe t none s e h = h
settle_wait-IsSafe t (some (granted p k)) s e h = ground (
  arith,
  h,
  owed-drop_future t s.epoch s.futures (granted p k) e,
  drop_future-FuturesUpTo t s.epoch s.futures h.futures_old,
  outcome-UpTo t s.epoch s.futures (granted p k) h.futures_old e,
)
settle_wait-IsSafe t (some (failed x)) s e h = ground (
  arith,
  h,
  owed-drop_future t s.epoch s.futures (failed x) e,
  drop_future-FuturesUpTo t s.epoch s.futures h.futures_old,
)

pub collect-IsSafe : (t : ℕ) (s : Coordinator) → IsSafe s → IsSafe (collect t s).0
unfolding collect
collect-IsSafe t s h = settle_wait-IsSafe t (outcome t s.futures) s refl h

-- A permit of epoch `e` that is on its way back is in `active` if `e` is the current epoch.
pub release_locked-IsSafe :
    (now e : ℕ) (s : Coordinator)
    → IsSafeBut (one_if (e == s.epoch)) s
    → IsSafe (release_locked now e s)
unfolding release_locked
release_locked-IsSafe now e s h = ground (arith, h)

return_permit-IsSafe :
    (now t : ℕ) (o : Option Outcome) (s : Coordinator)
    → outcome t s.futures ≡ o
    → IsSafe s
    → IsSafe (return_permit now t o s)
unfolding return_permit
return_permit-IsSafe now t none s e h = h
return_permit-IsSafe now t (some (granted p k)) s e h = release_locked-IsSafe now k _ (
    ground (
      arith,
      h,
      owed-drop_future t s.epoch s.futures (granted p k) e,
      drop_future-FuturesUpTo t s.epoch s.futures h.futures_old,
    ))
return_permit-IsSafe now t (some (failed x)) s e h = ground (
  arith,
  h,
  owed-drop_future t s.epoch s.futures (failed x) e,
  drop_future-FuturesUpTo t s.epoch s.futures h.futures_old,
)

pub bump-IsSafe : (s : Coordinator) → IsSafe s → IsSafe (bump s)
unfolding bump
bump-IsSafe s h = ground (arith, h)

pub cancel_waiter-IsSafe : (now t : ℕ) (s : Coordinator) → IsSafe s → IsSafe (cancel_waiter now t s)
unfolding cancel_waiter
cancel_waiter-IsSafe now t s h = bump-IsSafe _ (
    purge_cancelled-IsSafe _
      (return_permit-IsSafe now t (outcome t s.futures) _ refl (ground (arith, h))))

ensure_driver-IsSafe : (s : Coordinator) → IsSafe s → IsSafe (ensure_driver s)
unfolding ensure_driver
ensure_driver-IsSafe s h = ground (arith, h)

release_section-IsSafe :
    (now e : ℕ) (s : Coordinator)
    → IsSafeBut (one_if (e == s.epoch)) s
    → IsSafe (release_section now e s)
unfolding release_section
release_section-IsSafe now e s h =
    elim (Bool-cases
      (not (is_nil (release_locked now e s).queue) && (release_locked now e s).accepting)) [
        | inl more ↦ rw more (ensure_driver-IsSafe _ (release_locked-IsSafe now e s h))
        | inr none_left ↦ rw none_left (release_locked-IsSafe now e s h)
      ]

pub release-IsSafe : (now e : ℕ) (s : Coordinator) → IsSafe s → IsSafe (release now e s)
unfolding release
release-IsSafe now e s h = elim (Bool-cases (holds e s.leases)) [
  | inl out ↦ rw out (
      release_section-IsSafe now e _ (
        ground (
          arith,
          h,
          held-remove_lease e s.epoch s.leases out,
          remove_lease-LeasesUpTo e s.epoch s.leases h.leases_old,
        )))
  | inr back ↦ rw back h
]

pub reconfigure-IsSafe :
    (c : Option ℕ) (depth : ℕ) (s : Coordinator)
    → IsSafe s
    → IsSafe (or_same (reconfigure c depth s) s)
unfolding reconfigure
reconfigure-IsSafe c depth s h = ground (arith, h)
