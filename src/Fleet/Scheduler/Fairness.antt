-- ===== src/Fleet/Scheduler/Fairness.antt =====
-- fleet/src/mnemosyne_fleet/scheduler.py: equal nodes take turns.
use mnemosyne_inference.Prelude.{
  ℕ, ◌+◌, ◌*◌, ◌≤◌, String, ◌≡◌, refl, true, false, arith, eq_iff, str_eq, if◌then◌else◌,
}
use mnemosyne_inference.Prelude.Dict.{get-put}
use mnemosyne_inference.Fleet.Scheduler.Types.{Candidate, Scheduler, last_selected_of}
use mnemosyne_inference.Fleet.Scheduler.Select.{before}
use mnemosyne_inference.Fleet.Scheduler.Queue.{Request, reserve}

-- No node was selected later than the counter says.
pub record IsCounted (s : Scheduler) : Type 0 where
  pub at : (k : String) → last_selected_of k s ≤ s.selection_counter

last_selected-reserve :
    (k route_id : String) (c : Candidate) (q : Request) (now : ℕ) (s : Scheduler)
    → last_selected_of k (reserve route_id c q now s).0 ≡ (
        if str_eq c.node.enrollment.node_id k
        then s.selection_counter + 1
        else last_selected_of k s)
unfolding reserve last_selected_of
last_selected-reserve k route_id c q now s = simp get-put (ground arith)

counter-reserve :
    (route_id : String) (c : Candidate) (q : Request) (now : ℕ) (s : Scheduler)
    → (reserve route_id c q now s).0.selection_counter ≡ s.selection_counter + 1
unfolding reserve
counter-reserve route_id c q now s = refl

pub reserve-IsCounted :
    (route_id : String) (c : Candidate) (q : Request) (now : ℕ) (s : Scheduler)
    → IsCounted s
    → IsCounted (reserve route_id c q now s).0
reserve-IsCounted route_id c q now s h = record {
  at = λ k. ground (
    arith,
    last_selected-reserve k route_id c q now s,
    counter-reserve route_id c q now s,
    h.at k,
  );
}

-- After a reservation on a node, from a scheduler whose last selections are within its counter,
-- any candidate on another node with the same tier and load comes before a candidate on that node.
pub reserve_rotates :
    (route_id : String) (c : Candidate) (q : Request) (now : ℕ) (s : Scheduler) (a b : Candidate)
    → IsCounted s
    → b.node.enrollment.node_id ≡ c.node.enrollment.node_id
    → str_eq c.node.enrollment.node_id a.node.enrollment.node_id ≡ false
    → a.tier ≡ b.tier
    → a.outstanding * b.weight ≡ b.outstanding * a.weight
    → before (reserve route_id c q now s).0 a b ≡ true
unfolding before
reserve_rotates route_id c q now s a b h same other tier load =
    let theirs = last_selected-reserve a.node.enrollment.node_id route_id c q now s in
    let ours = last_selected-reserve c.node.enrollment.node_id route_id c q now s in
    rw (tier, load, same)
      (ground (
        arith,
        theirs,
        ours,
        other,
        h.at a.node.enrollment.node_id,
        eq_iff c.node.enrollment.node_id c.node.enrollment.node_id,
      ))
