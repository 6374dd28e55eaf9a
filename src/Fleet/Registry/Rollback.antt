-- ===== src/Fleet/Registry/Rollback.antt =====
-- fleet/src/mnemosyne_fleet/registry.py: runs of polls of any nodes in any order.
use mnemosyne_inference.Prelude.{
  ℕ, ◌≤◌, ◌<◌, String, ◌≡◌, ◌≢◌, ◌⊎◌, refl, sym, ◌∙◌, Bool, true, false, some, List, [], ◌∷◌, inl,
  inr, arith, eq_iff, str_eq, length, Bool-cases,
}
use mathlib.Core.Path.{subst}
use native.Mathlib.Nat.{le_refl}
use mnemosyne_inference.Prelude.Dict.{get, get-put, has}
use mnemosyne_inference.Fleet.Config.{NodeConfig}
use mnemosyne_inference.Fleet.Protocol.Types.{DeploymentIdentity, Snapshot}
use mnemosyne_inference.Fleet.Registry.{
  Registry, Delivery, retired, poll_once, new, initial_retired, or_empty, max_retired_instance_ids,
}
use mnemosyne_inference.Fleet.Registry.Fence.{
  IsFenced, IsAccepted, snapshot_of, PollCases, poll_once_cases,
}
use mnemosyne_inference.Fleet.Registry.Fencing.{
  kept-IsFenced, stored-IsCurrent, accepted_newer, accepted_leaves, accepted-IsFenced,
}

pub record Poll : Type 0 where
  pub node : NodeConfig
  pub started : ℕ
  pub now : ℕ
  pub wall : ℕ
  pub delivery : Delivery

-- The snapshot `t` is of another instance than `s`, or has a larger sequence.
abbrev pub IsNewer : Snapshot → Snapshot → Type 0
IsNewer s t =
    (s.node.instance_id ≢ t.node.instance_id) ⊎ (s.snapshot_sequence < t.snapshot_sequence)

none_retired :
    (k : String) (ns : List NodeConfig) → length (or_empty (get k (initial_retired ns))) ≡ 0
unfolding initial_retired get
none_retired k [] = refl
none_retired k (n ∷ ns) = simp get-put (ground (arith, none_retired k ns))

module _ (canonical_digest : DeploymentIdentity → String) where
  unfoldable pub poll : Poll → Registry → Registry × Bool
  unfolding poll_once
  poll p = poll_once canonical_digest p.node p.started p.now p.wall p.delivery

  unfoldable pub polls : List Poll → Registry → Registry
  polls [] r = r
  polls (p ∷ ps) r = polls ps (poll p r).0

  poll_cases : (p : Poll) (r : Registry) → PollCases p.node r (poll p r)
  unfolding poll
  poll_cases p r = poll_once_cases canonical_digest p.node p.started p.now p.wall p.delivery r

  poll-IsFenced :
      (k i : String) (n : ℕ) (p : Poll) (r : Registry)
      → IsFenced k i n r
      → IsFenced k i n (poll p r).0
  poll-IsFenced k i n p r h = elim (poll_cases p r) [
    | inl (_, records, ids) ↦ kept-IsFenced k i n r (poll p r).0 records ids h
    | inr (s, a) ↦ accepted-IsFenced p.node k i n s r (poll p r) a h
  ]

  polls-IsFenced :
      (k i : String) (n : ℕ) (ps : List Poll) (r : Registry)
      → IsFenced k i n r
      → IsFenced k i n (polls ps r)
  unfolding polls
  polls-IsFenced k i n [] r h = h
  polls-IsFenced k i n (p ∷ ps) r h =
      polls-IsFenced k i n ps (poll p r).0 (poll-IsFenced k i n p r h)

  poll_keeps_retired :
      (k i : String) (p : Poll) (r : Registry)
      → has i (retired k r) ≡ true
      → has i (retired k (poll p r).0) ≡ true
  unfolding retired
  poll_keeps_retired k i p r h = elim (poll_cases p r) [
    | inl (_, _, ids) ↦ rw ids h
    | inr (s, a) ↦ a.keeps_retired k i h
  ]

  polls_keep_retired :
      (k i : String) (ps : List Poll) (r : Registry)
      → has i (retired k r) ≡ true
      → has i (retired k (polls ps r)) ≡ true
  unfolding polls
  polls_keep_retired k i [] r h = h
  polls_keep_retired k i (p ∷ ps) r h =
      polls_keep_retired k i ps (poll p r).0 (poll_keeps_retired k i p r h)

  -- The poll was accepted and left the snapshot `s` with its node.
  abbrev pub Accepts : Poll → Registry → Snapshot → Type 0
  Accepts p r s =
      ((poll p r).1 ≡ true) × (snapshot_of (get p.node.node_id (poll p r).0.records) ≡ some s)

  Accepts-facts :
      (p : Poll) (r : Registry) (s : Snapshot) → Accepts p r s → IsAccepted p.node s r (poll p r)
  Accepts-facts p r s (done, stored) = elim (poll_cases p r) [
    | inl (failed, _, _) ↦ cc
    | inr (t, a) ↦
        let same : t ≡ s = cc (a.stored) in subst (λ u. IsAccepted p.node u r (poll p r)) same a
  ]

  Accepts-IsFenced :
      (p : Poll) (r : Registry) (s : Snapshot)
      → Accepts p r s
      → IsFenced p.node.node_id s.node.instance_id s.snapshot_sequence (poll p r).0
  Accepts-IsFenced p r s a = inr (stored-IsCurrent s.node.instance_id _ s _ a.1 refl (le_refl _))

  -- No snapshot of a retired instance is accepted.
  barred :
      (p : Poll) (r : Registry) (s : Snapshot) (i : String)
      → IsAccepted p.node s r (poll p r)
      → has i (retired p.node.node_id r) ≡ true
      → s.node.instance_id ≢ i
  barred p r s i a gone e = cc (rw e at a.not_retired)

  -- A later accepted snapshot of the same instance has a larger sequence.
  accepted_order :
      (k : String) (first : Poll) (between : List Poll) (last : Poll) (r : Registry)
      (s t : Snapshot)
      → Accepts first r s
      → Accepts last (polls between (poll first r).0) t
      → first.node.node_id ≡ k
      → last.node.node_id ≡ k
      → IsNewer s t
  accepted_order k first between last r s t a b here there =
      elim (Bool-cases (str_eq s.node.instance_id t.node.instance_id)) [
        | inr other ↦ inl (λ e. ground (arith, e, eq_iff s.node.instance_id t.node.instance_id))
        | inl same ↦
            let later =
              polls-IsFenced first.node.node_id _ _ between (poll first r).0
                (Accepts-IsFenced first r s a) in
            inr (
              accepted_newer last.node s.node.instance_id s.snapshot_sequence t _ _
                (Accepts-facts last _ t b) (sym ((eq_iff _ _).0 same))
                (subst
                  (λ j.
                    IsFenced j s.node.instance_id s.snapshot_sequence
                      (polls between (poll first r).0))
                  (here ∙ sym there) later))
      ]

  -- An instance that an accepted snapshot of another one has followed does not come back.
  accepted_replaces :
      (k : String) (second : Poll) (after : List Poll) (last : Poll) (r : Registry) (i : String)
      (n : ℕ) (t u : Snapshot)
      → Accepts second r t
      → Accepts last (polls after (poll second r).0) u
      → second.node.node_id ≡ k
      → last.node.node_id ≡ k
      → IsFenced k i n r
      → t.node.instance_id ≢ i
      → u.node.instance_id ≢ i
  accepted_replaces k second after last r i n t u b c here there fenced other =
      let fence : IsFenced second.node.node_id i n r =
        subst (λ j. IsFenced j i n r) (sym here) fenced in
      let left =
        accepted_leaves second.node i n t r (poll second r) (Accepts-facts second r t b) other
          fence in
      let gone = polls_keep_retired second.node.node_id i after (poll second r).0 left in
      let gone_there : has i (retired last.node.node_id (polls after (poll second r).0)) ≡ true =
        subst (λ j. has i (retired j (polls after (poll second r).0)) ≡ true) (here ∙ sym there)
          gone in
      barred last _ u i (Accepts-facts last _ u c) gone_there

  -- Of three polls of a node that accept their snapshots, one after the other and with any polls
  -- of any nodes between them, each later snapshot of two in a row is of another instance or has a
  -- larger sequence; and if the second one is of another instance than the first one, then the
  -- third one is not of the first one's instance: an instance that has been replaced is never
  -- accepted again.
  pub no_rollback :
      (k : String) (first : Poll) (between : List Poll) (second : Poll) (after : List Poll)
      (last : Poll) (r : Registry) (s t u : Snapshot)
      → Accepts first r s
      → Accepts second (polls between (poll first r).0) t
      → Accepts last (polls after (poll second (polls between (poll first r).0)).0) u
      → first.node.node_id ≡ k
      → second.node.node_id ≡ k
      → last.node.node_id ≡ k
      → IsNewer s t
        × IsNewer t u
        × ((t.node.instance_id ≡ s.node.instance_id) ⊎ (u.node.instance_id ≢ s.node.instance_id))
  no_rollback k first between second after last r s t u a b c e f g = (
    accepted_order k first between second r s t a b e f,
    accepted_order k second after last (polls between (poll first r).0) t u b c f g,
    elim (Bool-cases (str_eq t.node.instance_id s.node.instance_id)) [
      | inl same ↦ inl ((eq_iff _ _).0 same)
      | inr other ↦
          let fenced : IsFenced k s.node.instance_id s.snapshot_sequence
              (polls between (poll first r).0) =
            polls-IsFenced k _ _ between (poll first r).0 (
              subst (λ j. IsFenced j s.node.instance_id s.snapshot_sequence (poll first r).0) e
                (Accepts-IsFenced first r s a)) in
          inr (
            accepted_replaces k second after last (polls between (poll first r).0) _ _ t u b c f g
              fenced (λ x. ground (arith, x, eq_iff t.node.instance_id s.node.instance_id)))
    ],
  )

  -- A poll that is not accepted keeps every record and every retired instance.
  pub refused_keeps :
      (p : Poll) (r : Registry)
      → (poll p r).1 ≡ false
      → ((poll p r).0.records ≡ r.records)
        × ((poll p r).0.retired_instance_ids ≡ r.retired_instance_ids)
  refused_keeps p r h = elim (poll_cases p r) [
    | inl (_, records, ids) ↦ (records, ids)
    | inr (s, a) ↦ cc (a.done)
  ]

  polls_fit :
      (ps : List Poll) (r : Registry) (k : String)
      → length (retired k r) ≤ max_retired_instance_ids
      → length (retired k (polls ps r)) ≤ max_retired_instance_ids
  unfolding polls
  polls_fit [] r k h = h
  polls_fit (p ∷ ps) r k h = polls_fit ps (poll p r).0 k (one (poll_cases p r))
    where
      one :
          PollCases p.node r (poll p r) → length (retired k (poll p r).0) ≤ max_retired_instance_ids
      one (inl (_, _, ids)) = unfold retired in rw ids h
      one (inr (s, a)) = a.fits k h

  -- From a new registry, whatever is polled, at most max_retired_instance_ids (1,024) retired
  -- instances of a node are remembered.
  pub retired_bounded :
      (nodes : List NodeConfig) (ps : List Poll) (k : String)
      → length (retired k (polls ps (new nodes))) ≤ max_retired_instance_ids
  unfolding retired new
  retired_bounded nodes ps k = polls_fit ps (new nodes) k (omega (arith, none_retired k nodes))
