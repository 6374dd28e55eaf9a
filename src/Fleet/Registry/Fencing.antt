-- ===== src/Fleet/Registry/Fencing.antt =====
-- fleet/src/mnemosyne_fleet/registry.py: what a poll leaves of the fence around an instance.
use mnemosyne_inference.Prelude.{
  ℕ, ◌≤◌, ◌<◌, String, ◌≡◌, ◌≢◌, refl, sym, ◌∙◌, Bool, true, Option, none, some, inl, inr, arith,
  eq_iff, str_eq, Bool-cases,
}
use mnemosyne_inference.Prelude.Dict.{get, has}
use mnemosyne_inference.Fleet.Config.{NodeConfig}
use mnemosyne_inference.Fleet.Protocol.Types.{Snapshot}
use mnemosyne_inference.Fleet.Registry.{Registry, NodeRecord, retired}
use mnemosyne_inference.Fleet.Registry.Fence.{IsCurrent, IsFenced, IsAccepted, snapshot_of}

pub kept-IsFenced :
    (k i : String) (n : ℕ) (r r' : Registry)
    → r'.records ≡ r.records
    → r'.retired_instance_ids ≡ r.retired_instance_ids
    → IsFenced k i n r
    → IsFenced k i n r'
unfolding retired
kept-IsFenced k i n r r' e f (inl h) = inl (rw f h)
kept-IsFenced k i n r r' e f (inr h) = inr (rw e h)

pub stored-IsCurrent :
    (i : String) (n : ℕ) (s : Snapshot) (o : Option NodeRecord)
    → snapshot_of o ≡ some s
    → s.node.instance_id ≡ i
    → n ≤ s.snapshot_sequence
    → IsCurrent i n o
stored-IsCurrent i n s none e same le = cc
stored-IsCurrent i n s (some p) e same le = let q : p.snapshot ≡ s = cc in (rw q same, rw q le)

-- An accepted snapshot of the same node and instance is newer than what is fenced.
pub accepted_newer :
    (node : NodeConfig) (i : String) (n : ℕ) (s : Snapshot) (r : Registry) (out : Registry × Bool)
    → IsAccepted node s r out
    → s.node.instance_id ≡ i
    → IsFenced node.node_id i n r
    → n < s.snapshot_sequence
accepted_newer node i n s r out a same (inl old) = cc (rw same at a.not_retired)
accepted_newer node i n s r out a same (inr now) = current (get node.node_id r.records) refl now
  where
    current :
        (o : Option NodeRecord)
        → get node.node_id r.records ≡ o
        → IsCurrent i n o
        → n < s.snapshot_sequence
    current none e h = elim h [ ]
    current (some p) e h = omega (arith, a.newer p e (h.0 ∙ sym same), h.1)

-- An accepted snapshot of another instance retires what is fenced.
pub accepted_leaves :
    (node : NodeConfig) (i : String) (n : ℕ) (s : Snapshot) (r : Registry) (out : Registry × Bool)
    → IsAccepted node s r out
    → s.node.instance_id ≢ i
    → IsFenced node.node_id i n r
    → has i (retired node.node_id out.0) ≡ true
accepted_leaves node i n s r out a other (inl old) = a.keeps_retired node.node_id i old
accepted_leaves node i n s r out a other (inr now) = behind (get node.node_id r.records) refl now
  where
    behind :
        (o : Option NodeRecord)
        → get node.node_id r.records ≡ o
        → IsCurrent i n o
        → has i (retired node.node_id out.0) ≡ true
    behind none e c = elim c [ ]
    behind (some p) e c = rw c.0 at (a.left p e (λ twin. other (sym twin ∙ c.0)))

pub accepted-IsFenced :
    (node : NodeConfig) (k i : String) (n : ℕ) (s : Snapshot) (r : Registry) (out : Registry × Bool)
    → IsAccepted node s r out
    → IsFenced k i n r
    → IsFenced k i n out.0
accepted-IsFenced node k i n s r out a (inl old) = inl (a.keeps_retired k i old)
accepted-IsFenced node k i n s r out a (inr now) = elim (Bool-cases (str_eq node.node_id k)) [
  | inr other ↦ inr (rw (a.others k other) now)
  | inl named ↦
      let here : node.node_id ≡ k = (eq_iff node.node_id k).0 named in
      rw (← here) (moved (rw (← here) at now))
]
  where
    moved : IsCurrent i n (get node.node_id r.records) → IsFenced node.node_id i n out.0
    moved h = elim (Bool-cases (str_eq s.node.instance_id i)) [
      | inl same ↦
          let twin = (eq_iff s.node.instance_id i).0 same in
          inr (
            stored-IsCurrent i n s _ a.stored twin
              (omega (arith, accepted_newer node i n s r out a twin (inr h))))
      | inr other ↦ inl (
          accepted_leaves node i n s r out a
            (λ twin. ground (arith, twin, eq_iff s.node.instance_id i)) (inr h))
    ]
