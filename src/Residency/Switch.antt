-- ===== src/Residency/Switch.antt =====
-- cuda_residency.py: when the driver switches models, and how it serves its queue.
use mnemosyne_inference.Prelude.{
  ℕ, ◌+◌, ◌≤◌, ◌≡◌, refl, ap, ◌⊎◌, Bool, true, false, ◌||◌, ◌&&◌, not, some, List, [], ◌∷◌, ◌++◌,
  arith, String, if◌then◌else◌, Bool-cases, inl, inr, ltb, str_eq, opt_str_eq, eq_iff, All,
}
use mnemosyne_inference.Residency.Types.{
  Profile, Waiter, Coordinator, Outcome, granted, driving, queued_for,
}
use mnemosyne_inference.Residency.Locked.{
  set_state, live_waiters, purge_cancelled, grant_head, grant_with, grant_loop,
}
use mnemosyne_inference.Residency.Driver.{
  drive, drive_accepting, drive_queue, drive_head, serve_resident,
}

-- The futures of a run of waiters that are granted in queue order.
unfoldable pub granted_in_order :
    Profile → ℕ → List Waiter → List (ℕ × Outcome) → List (ℕ × Outcome)
granted_in_order p e [] fs = fs
granted_in_order p e (w ∷ ws) fs =
    granted_in_order p e ws (if w.cancelled then fs else (w.ticket, granted p e) ∷ fs)

-- The waiters that the queue still starts with could not be granted.
abbrev pub IsBlocked : String → ℕ → ℕ → List Waiter → Type 0
IsBlocked d active limit [] = Unit
IsBlocked d active limit (w ∷ ws) = (str_eq w.deployment_id d ≡ false) ⊎ (limit ≤ active)

-- The loop served a prefix of the queue, in order and for the resident deployment only, and
-- stopped at a waiter for another deployment, at the limit, or at the end.
abbrev pub ServesInOrder :
    (p : Profile) (e limit : ℕ) (d : String) (ws : List Waiter) (active count : ℕ)
    (fs : List (ℕ × Outcome))
    → Type 0
ServesInOrder p e limit d ws active count fs =
    (taken : List Waiter) × (ws ≡ taken ++ (grant_loop p e limit d ws active count fs).queue)
    × All (λ w. w.deployment_id ≡ d) taken
    × ((grant_loop p e limit d ws active count fs).futures ≡ granted_in_order p e taken fs)
    × IsBlocked d (grant_loop p e limit d ws active count fs).active limit
        (grant_loop p e limit d ws active count fs).queue

-- The loop of _grant_head_locked takes a prefix of the queue, all of it for the resident
-- deployment, settles the futures of its waiters that are not cancelled in queue order, and stops
-- only at a waiter for another deployment, at the limit or at the end of the queue.
pub grant_loop_fifo :
    (p : Profile) (e limit : ℕ) (d : String) (ws : List Waiter) (active count : ℕ)
    (fs : List (ℕ × Outcome))
    → ServesInOrder p e limit d ws active count fs
unfolding grant_loop granted_in_order
grant_loop_fifo p e limit d [] active count fs = ([], refl, tt, refl, tt)
grant_loop_fifo p e limit d (w ∷ ws) active count fs =
    elim (Bool-cases (str_eq w.deployment_id d && ltb active limit)) [
      | inr full ↦ rw full ([], refl, tt, refl, blocked (str_eq w.deployment_id d) full)
      | inl room ↦
          let same : w.deployment_id ≡ d = (eq_iff w.deployment_id d).0 (left _ room) in
          rw room (elim (Bool-cases w.cancelled) [
            | inl gone ↦
                let (taken, split, all, order, stop) =
                  grant_loop_fifo p e limit d ws active count fs in
                simp gone (w ∷ taken, ap (λ l. w ∷ l) split, (same, all), simp gone order, stop)
            | inr live ↦
                let (taken, split, all, order, stop) =
                  grant_loop_fifo p e limit d ws (active + 1) (count + 1)
                    ((w.ticket, granted p e) ∷ fs) in
                simp live (w ∷ taken, ap (λ l. w ∷ l) split, (same, all), simp live order, stop)
          ])
    ]
  where
    blocked : (same : Bool) → same && ltb active limit ≡ false → (same ≡ false) ⊎ (limit ≤ active)
    blocked true h = inr (ground arith)
    blocked false h = inl refl

    left : (same : Bool) → same && ltb active limit ≡ true → same ≡ true
    left true h = refl
    left false h = cc

-- The waiter at the head of the queue, once the cancelled ones are purged.
abbrev pub IsHead : Profile → String → List Waiter → Type 0
IsHead p d [] = ⊥
IsHead p d (w ∷ ws) = (w.profile ≡ p) × (w.deployment_id ≡ d)

grant_head_driver : (d : String) (s : Coordinator) → (grant_head d s).0.driver ≡ s.driver
unfolding grant_head grant_with
grant_head_driver d s = ground arith

serve_resident_driver : (d : String) (s : Coordinator) → (serve_resident d s).driver ≡ s.driver
unfolding serve_resident
serve_resident_driver d s = unfold set_state in ground (arith, grant_head_driver d s)

drive_head_switch :
    (w : Waiter) (s : Coordinator) (p : Profile) (d : String)
    → s.driver ≡ driving
    → (drive_head w s).driver ≡ queued_for p d
    → (w.profile ≡ p)
      × (w.deployment_id ≡ d)
      × (s.active ≡ 0)
      × (opt_str_eq s.resident_deployment_id (some w.deployment_id) ≡ false)
unfolding drive_head
drive_head_switch w s p d on h =
    unfold set_state in ground (arith, serve_resident_driver w.deployment_id s)

drive_queue_switch :
    (ws : List Waiter) (s : Coordinator) (p : Profile) (d : String)
    → s.driver ≡ driving
    → (drive_queue ws s).driver ≡ queued_for p d
    → IsHead p d ws × (s.active ≡ 0) × (opt_str_eq s.resident_deployment_id (some d) ≡ false)
unfolding drive_queue
drive_queue_switch [] s p d on h = cc
drive_queue_switch (w ∷ ws) s p d on h =
    let (profile, same, quiet, other) = drive_head_switch w s p d on h in
    ((profile, same), quiet, rw same at other)

-- A round of the driver begins a switch only for the waiter at the head of the queue, with
-- admission open and no permit out, and not to the deployment that is resident.
pub drive_switch :
    (s : Coordinator) (p : Profile) (d : String)
    → s.driver ≡ driving
    → (drive s).driver ≡ queued_for p d
    → IsHead p d (live_waiters s.queue)
      × (s.active ≡ 0)
      × (s.accepting ≡ true)
      × (s.authoritative ≡ true)
      × (s.is_stopping ≡ false)
      × (opt_str_eq s.resident_deployment_id (some d) ≡ false)
unfolding drive purge_cancelled drive_accepting
drive_switch s p d on h =
    elim (Bool-cases (not s.accepting || not s.authoritative || s.is_stopping)) [
      | inl shut ↦ cc (rw shut at h)
      | inr open_ ↦
          let (head, quiet, other) =
            drive_queue_switch (live_waiters s.queue) (record s { queue = live_waiters s.queue }) p
              d on (rw open_ at h) in
          (head, quiet, ground arith, ground arith, ground arith, other)
    ]
