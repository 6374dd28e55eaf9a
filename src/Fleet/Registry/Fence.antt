-- ===== src/Fleet/Registry/Fence.antt =====
-- fleet/src/mnemosyne_fleet/registry.py: a node is never rolled back to an instance or a sequence
-- that the registry has left behind.
use mnemosyne_inference.Prelude.{
  ℕ, suc, ◌≤◌, ◌<◌, String, ◌≡◌, ◌≢◌, refl, ◌∙◌, Bool, true, false, Option, none, some, List, ◌⊎◌,
  inl, inr, arith, eq_iff, str_eq, leb, length, Bool-cases, if◌then◌else◌,
}
use mnemosyne_inference.Prelude.Dict.{get, has, add, has-add, get-put}
use mnemosyne_inference.Fleet.Config.{NodeConfig}
use mnemosyne_inference.Fleet.Protocol.Types.{DeploymentIdentity, Snapshot}
use mnemosyne_inference.Fleet.Registry.{
  Registry, NodeRecord, Delivery, timed_out, transport_error, refused_payload, responded, Response,
  PollError, retired, refuse, store, retire, advance, accept, receive_valid, receive, poll_once,
  response_error, max_retired_instance_ids,
}

-- The registry has left behind everything of instance `i` of node `k` up to sequence `n`.
abbrev pub IsCurrent : String → ℕ → Option NodeRecord → Type 0
IsCurrent i n none = ⊥
IsCurrent i n (some p) = (p.snapshot.node.instance_id ≡ i) × (n ≤ p.snapshot.snapshot_sequence)

abbrev pub IsFenced : String → String → ℕ → Registry → Type 0
IsFenced k i n r = (has i (retired k r) ≡ true) ⊎ IsCurrent i n (get k r.records)

-- A refused poll changes nothing but the node's error.
abbrev pub IsRefused : Registry → Registry × Bool → Type 0
IsRefused r (r', done) =
    (done ≡ false) × (r'.records ≡ r.records) × (r'.retired_instance_ids ≡ r.retired_instance_ids)

refuse-IsRefused : (k : String) (e : PollError) (r : Registry) → IsRefused r (refuse k e r)
unfolding refuse
refuse-IsRefused k e r = (refl, refl, refl)

-- The snapshot that a poll left with a node.
abbrev pub snapshot_of : Option NodeRecord → Option Snapshot
snapshot_of none = none
snapshot_of (some p) = some p.snapshot

-- A snapshot `s` was accepted: what held before, and what holds after.
pub record IsAccepted (node : NodeConfig) (s : Snapshot) (r : Registry) (out : Registry × Bool)
    : Type 0 where
  pub done : out.1 ≡ true
  pub stored : snapshot_of (get node.node_id out.0.records) ≡ some s
  pub not_retired : has s.node.instance_id (retired node.node_id r) ≡ false
  pub newer :
      (p : NodeRecord)
      → get node.node_id r.records ≡ some p
      → p.snapshot.node.instance_id ≡ s.node.instance_id
      → p.snapshot.snapshot_sequence < s.snapshot_sequence
  -- A prior record of another instance is retired.
  pub left :
      (p : NodeRecord)
      → get node.node_id r.records ≡ some p
      → p.snapshot.node.instance_id ≢ s.node.instance_id
      → has p.snapshot.node.instance_id (retired node.node_id out.0) ≡ true
  pub keeps_retired : (k i : String) → has i (retired k r) ≡ true → has i (retired k out.0) ≡ true
  pub fits :
      (k : String)
      → length (retired k r) ≤ max_retired_instance_ids
      → length (retired k out.0) ≤ max_retired_instance_ids
  pub others : (k : String) → str_eq node.node_id k ≡ false → get k out.0.records ≡ get k r.records

store_stored :
    (node : NodeConfig) (s : Snapshot) (a b c : ℕ) (r : Registry)
    → snapshot_of (get node.node_id (store node s a b c r).0.records) ≡ some s
unfolding store
store_stored node s a b c r = simp get-put (ground (arith, eq_iff node.node_id node.node_id))

store_others :
    (node : NodeConfig) (s : Snapshot) (a b c : ℕ) (r : Registry) (k : String)
    → str_eq node.node_id k ≡ false
    → get k (store node s a b c r).0.records ≡ get k r.records
unfolding store
store_others node s a b c r k h = simp get-put (rw h)

retired-store :
    (node : NodeConfig) (s : Snapshot) (a b c : ℕ) (r : Registry) (k : String)
    → retired k (store node s a b c r).0 ≡ retired k r
unfolding store retired
retired-store node s a b c r k = refl

retired-retire :
    (j i k : String) (r : Registry)
    → retired k (retire j i r) ≡ (if str_eq j k then add i (retired j r) else retired k r)
unfolding retire retired
retired-retire j i k r = simp get-put (ground arith)

retire_keeps :
    (j i k x : String) (r : Registry)
    → has x (retired k r) ≡ true
    → has x (retired k (retire j i r)) ≡ true
retire_keeps j i k x r h = elim (Bool-cases (str_eq j k)) [
  | inl e ↦
      let same : j ≡ k = (eq_iff j k).0 e in
      rw (retired-retire, e) (ground (arith, has-add i x (retired j r), h, same))
  | inr e ↦ rw (retired-retire, e) h
]

retire-has : (j i : String) (r : Registry) → has i (retired j (retire j i r)) ≡ true
retire-has j i r =
    rw (retired-retire, (eq_iff j j).1 refl) (ground (arith, has-add i i (retired j r), eq_iff i i))

length-add : (x : String) (ys : List String) → length (add x ys) ≤ suc (length ys)
unfolding add
length-add x ys = ground arith

retire_fits :
    (j i k : String) (r : Registry)
    → leb max_retired_instance_ids (length (retired j r)) ≡ false
    → length (retired k r) ≤ max_retired_instance_ids
    → length (retired k (retire j i r)) ≤ max_retired_instance_ids
retire_fits j i k r room h = elim (Bool-cases (str_eq j k)) [
  | inl e ↦ rw (retired-retire, e) (ground (arith, length-add i (retired j r)))
  | inr e ↦ rw (retired-retire, e) h
]

advance_cases :
    (node : NodeConfig) (s : Snapshot) (a b c : ℕ) (o : Option NodeRecord) (r : Registry)
    → get node.node_id r.records ≡ o
    → has s.node.instance_id (retired node.node_id r) ≡ false
    → IsRefused r (advance node s a b c o r) ⊎ IsAccepted node s r (advance node s a b c o r)
unfolding advance
advance_cases node s a b c none r e new = inr (record {
  done = unfold store in refl;
  stored = store_stored node s a b c r;
  not_retired = new;
  newer = λ p q _. cc;
  left = λ p q _. cc;
  keeps_retired = λ k i h. rw retired-store h;
  fits = λ k h. rw retired-store h;
  others = store_others node s a b c r;
})
advance_cases node s a b c (some p) r e new =
    elim (Bool-cases (str_eq p.snapshot.node.instance_id s.node.instance_id)) [
      | inl same ↦
          simp same (elim (Bool-cases (leb s.snapshot_sequence p.snapshot.snapshot_sequence)) [
            | inl old ↦ simp old (inl (refuse-IsRefused node.node_id _ r))
            | inr newer ↦ simp newer (
                inr (record {
                  done = unfold store in refl;
                  stored = store_stored node s a b c r;
                  not_retired = new;
                  newer = λ q f _. later q (prior q f) newer;
                  left = λ q f other. absurd (other (named q (prior q f) same));
                  keeps_retired = λ k i h. rw retired-store h;
                  fits = λ k h. rw retired-store h;
                  others = store_others node s a b c r;
                }))
          ])
      | inr other ↦
          simp other
            (elim (Bool-cases (leb max_retired_instance_ids (length (retired node.node_id r)))) [
              | inl full ↦ simp full (inl (refuse-IsRefused node.node_id _ r))
              | inr room ↦ simp room (
                  inr (record {
                    done = unfold store in refl;
                    stored = store_stored node s a b c _;
                    not_retired = new;
                    newer = λ q f twin. absurd (apart q (prior q f) other twin);
                    left = λ q f _. rw retired-store (gone q (prior q f));
                    keeps_retired = λ k i h. rw retired-store (retire_keeps node.node_id _ k i r h);
                    fits = λ k h. rw retired-store (retire_fits node.node_id _ k r room h);
                    others = λ k h. store_others node s a b c _ k h ∙ (unfold retire in refl);
                  }))
            ])
    ]
  where
    prior : (q : NodeRecord) → get node.node_id r.records ≡ some q → p ≡ q
    prior q f = cc

    apart :
        (q : NodeRecord)
        → p ≡ q
        → str_eq p.snapshot.node.instance_id s.node.instance_id ≡ false
        → q.snapshot.node.instance_id ≡ s.node.instance_id
        → ⊥
    apart q g h twin = ground (arith, g, eq_iff p.snapshot.node.instance_id s.node.instance_id)

    gone :
        (q : NodeRecord)
        → p ≡ q
        → has q.snapshot.node.instance_id
            (retired node.node_id (retire node.node_id p.snapshot.node.instance_id r))
          ≡ true
    gone q g = rw (← g) (retire-has node.node_id p.snapshot.node.instance_id r)

    later :
        (q : NodeRecord)
        → p ≡ q
        → leb s.snapshot_sequence p.snapshot.snapshot_sequence ≡ false
        → q.snapshot.snapshot_sequence < s.snapshot_sequence
    later q g h = rw (← g) (ground arith)

    named :
        (q : NodeRecord)
        → p ≡ q
        → str_eq p.snapshot.node.instance_id s.node.instance_id ≡ true
        → q.snapshot.node.instance_id ≡ s.node.instance_id
    named q g h = rw (← g) ((eq_iff _ _).0 h)

accept_cases :
    (node : NodeConfig) (s : Snapshot) (a b c : ℕ) (r : Registry)
    → IsRefused r (accept node s a b c r) ⊎ IsAccepted node s r (accept node s a b c r)
unfolding accept
accept_cases node s a b c r = elim (Bool-cases (has s.node.instance_id (retired node.node_id r))) [
  | inl old ↦ rw old (inl (refuse-IsRefused node.node_id _ r))
  | inr new ↦ rw new (advance_cases node s a b c (get node.node_id r.records) r refl new)
]

-- What a poll does: it changes nothing but the node's error, or it accepts a snapshot.
abbrev pub PollCases : NodeConfig → Registry → Registry × Bool → Type 0
PollCases node r out = IsRefused r out ⊎ ((s : Snapshot) × IsAccepted node s r out)

module _ (canonical_digest : DeploymentIdentity → String) where
  receive_valid_cases :
      (node : NodeConfig) (a b c : ℕ) (o : Option Snapshot) (r : Registry)
      → PollCases node r (receive_valid canonical_digest node a b c o r)
  unfolding receive_valid
  receive_valid_cases node a b c none r = inl (refuse-IsRefused node.node_id _ r)
  receive_valid_cases node a b c (some s) r = elim (accept_cases node s a b c r) [
    | inl refused ↦ inl refused
    | inr accepted ↦ inr (s, accepted)
  ]

  receive_cases :
      (node : NodeConfig) (a b c : ℕ) (x : Response) (o : Option PollError) (r : Registry)
      → PollCases node r (receive canonical_digest node a b c x o r)
  unfolding receive
  receive_cases node a b c x (some e) r = inl (refuse-IsRefused node.node_id _ r)
  receive_cases node a b c x none r = receive_valid_cases node a b c _ r

  pub poll_once_cases :
      (node : NodeConfig) (a b c : ℕ) (d : Delivery) (r : Registry)
      → PollCases node r (poll_once canonical_digest node a b c d r)
  unfolding poll_once
  poll_once_cases node a b c timed_out r = inl (refuse-IsRefused node.node_id _ r)
  poll_once_cases node a b c transport_error r = inl (refuse-IsRefused node.node_id _ r)
  poll_once_cases node a b c refused_payload r = inl (refuse-IsRefused node.node_id _ r)
  poll_once_cases node a b c (responded x) r = receive_cases node a b c x (response_error x) r
