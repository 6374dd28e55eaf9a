-- ===== src/Macos/Counting.antt =====
-- macos/service/src/mnemosyne_macos/coordinator.py: `_inflight` against the permits of the current epoch
-- that are out, through the helpers under the condition and the sections of a caller.
use mnemosyne_inference.Prelude.{
  ℕ, ◌+◌, ◌-◌, ◌≤◌, ◌≡◌, refl, Bool, true, ◌&&◌, Option, none, some, List, [], ◌∷◌, arith, ltb, leb,
  ◌==◌, is_nil, length, Bool-cases, inl, inr,
}
use native.Mathlib.Nat.{le_refl}
use mnemosyne_inference.Leasing.{
  outcome, holds, remove_lease, one_if, held, owed, FuturesUpTo, LeasesUpTo, held-remove_lease,
  remove_lease-LeasesUpTo, owed-drop_future, drop_future-FuturesUpTo, outcome-UpTo,
}
use mnemosyne_inference.Macos.Targets.{ResolvedTarget, same_load}
use mnemosyne_inference.Macos.Types.{
  CoordinatorError, task_done, Waiter, Outcome, granted, failed, Coordinator,
}
use mnemosyne_inference.Macos.Locked.{
  available, purge_cancelled, ensure_driver, Grants, grant_loop, grant_head_group, fail_head_loop,
  fail_head_group, fail_each, fail_all, release_locked,
}
use mnemosyne_inference.Macos.Admission.{
  grant_now, serves_at_once, enqueue, admit, acquire, settle_wait, collect, return_permit,
  cancel_waiter, release_section, release,
}

-- `_inflight` exceeds the permits of the current epoch by at least `k`, and, where `tight`, by no
-- more. `extra` counts permits that are on their way back: out of both lists, still in `_inflight`.
-- No permit is of a later epoch.
pub record IsCountedBut (tight : Bool) (k extra : ℕ) (s : Coordinator) : Type 0 where
  pub lower : k + extra + held s.epoch s.leases + owed s.epoch s.futures ≤ s.inflight
  pub upper : tight ≡ true → s.inflight ≤ k + extra + held s.epoch s.leases + owed s.epoch s.futures
  pub leases_old : LeasesUpTo s.epoch s.leases
  pub futures_old : FuturesUpTo s.epoch s.futures

abbrev pub IsCounted : Bool → ℕ → Coordinator → Type 0
IsCounted tight k s = IsCountedBut tight k 0 s

-- A loop over the queue that grants `n` permits of the epoch, or none and fails waiters.
pub fail_each-owed :
    (e : CoordinatorError) (k : ℕ) (ws : List Waiter) (fs : List (ℕ × Outcome))
    → (owed k (fail_each e ws fs) ≡ owed k fs)
      × (FuturesUpTo k fs → FuturesUpTo k (fail_each e ws fs))
unfolding fail_each
fail_each-owed e k [] fs = (refl, λ h. h)
fail_each-owed e k (w ∷ ws) fs = elim (Bool-cases w.cancelled) [
  | inl gone ↦ simp gone (fail_each-owed e k ws fs)
  | inr live ↦ simp live (
      let (same, up) = fail_each-owed e k ws ((w.ticket, failed e) ∷ fs) in
      (omega (arith, same), λ h. up (tt, h)))
]

pub fail_head_loop-owed :
    (t : ResolvedTarget) (e : CoordinatorError) (k : ℕ) (ws : List Waiter) (fs : List (ℕ × Outcome))
    → (owed k (fail_head_loop t e ws fs).1 ≡ owed k fs)
      × (FuturesUpTo k fs → FuturesUpTo k (fail_head_loop t e ws fs).1)
unfolding fail_head_loop
fail_head_loop-owed t e k [] fs = (refl, λ h. h)
fail_head_loop-owed t e k (w ∷ ws) fs = elim (Bool-cases (same_load w.target t)) [
  | inr other ↦ rw other (refl, λ h. h)
  | inl same ↦ rw same (elim (Bool-cases w.cancelled) [
    | inl gone ↦ simp gone (fail_head_loop-owed t e k ws fs)
    | inr live ↦ simp live (
        let (eq, up) = fail_head_loop-owed t e k ws ((w.ticket, failed e) ∷ fs) in
        (omega (arith, eq), λ h. up (tt, h)))
  ])
]

-- The loop counts every permit that it hands out, and stays within what was available.
pub record IsFair (e n inflight count : ℕ) (fs : List (ℕ × Outcome)) (g : Grants) : Type 0 where
  pub owes : owed e g.futures + inflight ≡ owed e fs + g.inflight
  pub counts : g.count + inflight ≡ count + g.inflight
  pub fits : g.inflight ≤ inflight + n
  pub up_to : FuturesUpTo e fs → FuturesUpTo e g.futures

pub grant_loop-IsFair :
    (e : ℕ) (head : ResolvedTarget) (ws : List Waiter) (n inflight count : ℕ)
    (fs : List (ℕ × Outcome))
    → IsFair e n inflight count fs (grant_loop e head ws n inflight count fs)
unfolding grant_loop
grant_loop-IsFair e head [] n inflight count fs = record {
  owes = refl;
  counts = refl;
  fits = omega arith;
  up_to = λ h. h;
}
grant_loop-IsFair e head (w ∷ ws) n inflight count fs =
    let skipped = grant_loop-IsFair e head ws n inflight count fs in
    let taken =
      grant_loop-IsFair e head ws (n - 1) (inflight + 1) (count + 1)
        ((w.ticket, granted w.target e) ∷ fs) in
    elim (Bool-cases (ltb 0 n && same_load w.target head)) [
      | inl room ↦ rw room (elim (Bool-cases w.cancelled) [
        | inl gone ↦ rw gone skipped
        | inr live ↦ rw live (record {
          owes = ground (arith, taken.owes);
          counts = ground (arith, taken.counts);
          fits = ground (arith, taken.fits);
          up_to = λ h. taken.up_to (le_refl _, h);
        })
      ])
      | inr full ↦
          rw full (record { owes = refl; counts = refl; fits = omega arith; up_to = λ h. h })
    ]

module _ (tight : Bool) (k : ℕ) where
  pub ensure_driver-IsCounted :
      (s : Coordinator) → IsCounted tight k s → IsCounted tight k (ensure_driver s)
  unfolding ensure_driver
  ensure_driver-IsCounted s h = elim (Bool-cases (task_done s.driver)) [
    | inl e ↦ simp e (ground (arith, h))
    | inr e ↦ simp e h
  ]

  pub fail_all-IsCountedBut :
      (x : ℕ) (e : CoordinatorError) (s : Coordinator)
      → IsCountedBut tight k x s
      → IsCountedBut tight k x (fail_all e s)
  unfolding fail_all
  fail_all-IsCountedBut x e s h =
      let (same, up) = fail_each-owed e s.epoch s.queue s.futures in
      ground (arith, h, same, up h.futures_old)

  pub fail_all-IsCounted :
      (e : CoordinatorError) (s : Coordinator)
      → IsCounted tight k s
      → IsCounted tight k (fail_all e s)
  fail_all-IsCounted e s h = fail_all-IsCountedBut 0 e s h

  pub fail_head_group-IsCounted :
      (t : ResolvedTarget) (e : CoordinatorError) (s : Coordinator)
      → IsCounted tight k s
      → IsCounted tight k (fail_head_group t e s)
  unfolding fail_head_group
  fail_head_group-IsCounted t e s h =
      let (same, up) = fail_head_loop-owed t e s.epoch s.queue s.futures in
      ground (arith, h, same, up h.futures_old)

  pub grant_head_group-IsCounted :
      (hint : Option ℕ) (r head : ResolvedTarget) (s : Coordinator)
      → IsCounted tight k s
      → IsCounted tight k (grant_head_group hint r head s).0
  unfolding grant_head_group
  grant_head_group-IsCounted hint r head s h =
      let fair =
        grant_loop-IsFair s.epoch head s.queue (available hint r s) s.inflight 0 s.futures in
      ground (arith, h, fair.owes, fair.up_to h.futures_old)

  -- A permit of epoch `e` that is on its way back is in `_inflight` if `e` is the current epoch.
  pub release_locked-IsCounted :
      (now e : ℕ) (s : Coordinator)
      → IsCountedBut tight k (one_if (e == s.epoch)) s
      → IsCounted tight k (release_locked now e s)
  unfolding release_locked
  release_locked-IsCounted now e s h = ground (arith, h)

  grant_now-IsCounted : (s : Coordinator) → IsCounted tight k s → IsCounted tight k (grant_now s)
  unfolding grant_now
  grant_now-IsCounted s h = ground (arith, h)

  admit-IsCounted :
      (hint : Option ℕ) (w : Waiter) (s : Coordinator)
      → IsCounted tight k s
      → IsCounted tight k (admit hint w s).0
  unfolding admit enqueue
  admit-IsCounted hint w s h = elim (Bool-cases (serves_at_once hint w.target s.resident s)) [
    | inl e ↦ rw e (grant_now-IsCounted s h)
    | inr e ↦ rw e (elim (Bool-cases (leb s.max_queue_depth (length s.queue))) [
      | inl full ↦ rw full h
      | inr room ↦ rw room (ensure_driver-IsCounted _ (ground (arith, h)))
    ])
  ]

  pub acquire-IsCounted :
      (hint : Option ℕ) (ticket : ℕ) (t : ResolvedTarget) (s : Coordinator)
      → IsCounted tight k s
      → IsCounted tight k (acquire hint ticket t s).0
  unfolding acquire purge_cancelled
  acquire-IsCounted hint ticket t s h = elim (Bool-cases s.is_stopping) [
    | inl e ↦ simp e h
    | inr e ↦ simp e (elim (Bool-cases s.initialized) [
      | inr e' ↦ simp e' h
      | inl e' ↦ simp e' (elim (Bool-cases s.accepting) [
        | inr e'' ↦ simp e'' h
        | inl e'' ↦ simp e'' (admit-IsCounted hint _ _ (ground (arith, h)))
      ])
    ])
  ]

  settle_wait-IsCounted :
      (t : ℕ) (o : Option Outcome) (s : Coordinator)
      → outcome t s.futures ≡ o
      → IsCounted tight k s
      → IsCounted tight k (settle_wait t o s).0
  unfolding settle_wait
  settle_wait-IsCounted t none s e h = h
  settle_wait-IsCounted t (some (granted p x)) s e h = ground (
    arith,
    h,
    owed-drop_future t s.epoch s.futures (granted p x) e,
    drop_future-FuturesUpTo t s.epoch s.futures h.futures_old,
    outcome-UpTo t s.epoch s.futures (granted p x) h.futures_old e,
  )
  settle_wait-IsCounted t (some (failed x)) s e h = ground (
    arith,
    h,
    owed-drop_future t s.epoch s.futures (failed x) e,
    drop_future-FuturesUpTo t s.epoch s.futures h.futures_old,
  )

  pub collect-IsCounted :
      (t : ℕ) (s : Coordinator) → IsCounted tight k s → IsCounted tight k (collect t s).0
  unfolding collect
  collect-IsCounted t s h = settle_wait-IsCounted t (outcome t s.futures) s refl h

  return_permit-IsCounted :
      (now t : ℕ) (o : Option Outcome) (s : Coordinator)
      → outcome t s.futures ≡ o
      → IsCounted tight k s
      → IsCounted tight k (return_permit now t o s)
  unfolding return_permit
  return_permit-IsCounted now t none s e h = h
  return_permit-IsCounted now t (some (granted p x)) s e h = release_locked-IsCounted now x _ (
      ground (
        arith,
        h,
        owed-drop_future t s.epoch s.futures (granted p x) e,
        drop_future-FuturesUpTo t s.epoch s.futures h.futures_old,
      ))
  return_permit-IsCounted now t (some (failed x)) s e h = ground (
    arith,
    h,
    owed-drop_future t s.epoch s.futures (failed x) e,
    drop_future-FuturesUpTo t s.epoch s.futures h.futures_old,
  )

  pub cancel_waiter-IsCounted :
      (now t : ℕ) (s : Coordinator)
      → IsCounted tight k s
      → IsCounted tight k (cancel_waiter now t s)
  unfolding cancel_waiter
  cancel_waiter-IsCounted now t s h =
      return_permit-IsCounted now t (outcome t s.futures) _ refl (ground (arith, h))

  -- A lease that leaves the list is on its way back.
  pub remove_lease-IsCounted :
      (e : ℕ) (s : Coordinator)
      → holds e s.leases ≡ true
      → IsCounted tight k s
      → IsCountedBut tight k (one_if (e == s.epoch)) (record s { leases = remove_lease e s.leases })
  remove_lease-IsCounted e s out h = ground (
    arith,
    h,
    held-remove_lease e s.epoch s.leases out,
    remove_lease-LeasesUpTo e s.epoch s.leases h.leases_old,
  )

  release_section-IsCounted :
      (now e : ℕ) (s : Coordinator)
      → IsCountedBut tight k (one_if (e == s.epoch)) s
      → IsCounted tight k (release_section now e s)
  unfolding release_section
  release_section-IsCounted now e s h = elim (Bool-cases (is_nil (release_locked now e s).queue)) [
    | inl none_left ↦ rw none_left (release_locked-IsCounted now e s h)
    | inr some_left ↦ rw some_left (ensure_driver-IsCounted _ (release_locked-IsCounted now e s h))
  ]

  pub release-IsCounted :
      (now e : ℕ) (s : Coordinator) → IsCounted tight k s → IsCounted tight k (release now e s)
  unfolding release
  release-IsCounted now e s h = elim (Bool-cases (holds e s.leases)) [
    | inl out ↦ rw out (release_section-IsCounted now e _ (remove_lease-IsCounted e s out h))
    | inr gone ↦ rw gone h
  ]
