-- ===== src/Fleet/Proxy/Retries.antt =====
-- fleet/src/mnemosyne_fleet/proxy.py: which nodes the loop of `handle` tries, and when it goes on.
use mnemosyne_inference.Prelude.{
  ℕ, zero, suc, ◌+◌, ◌≤◌, max, String, ◌≡◌, refl, ap, ◌≢◌, ◌⊎◌, Bool, true, false, none, some, List,
  [], ◌∷◌, arith, inl, inr, All, Bool-cases, length, all_of,
}
use mathlib.Core.Path.{subst}
use mnemosyne_inference.Prelude.Text.{codes, is_white}
use mnemosyne_inference.Prelude.Dict.{has, add, has-add}
use mnemosyne_inference.Prelude.Distinct.{has-add_self}
use mnemosyne_inference.Fleet.Scheduler.Types.{Scheduler}
use mnemosyne_inference.Fleet.Scheduler.Queue.{Reply, reserved, failed, waiting}
use mnemosyne_inference.Fleet.Store.{RouteRecord}
use mnemosyne_inference.Fleet.Proxy.Types.{
  Result, node_busy_retry, not_connected, cancelled, error_answer, streaming,
}
use mnemosyne_inference.Fleet.Proxy.Handle.{
  Turn, Answer, Attempted, attempt_turn, follow, answer_turn, attempts, acquire_turn, Decoded,
  not_json, not_object, object, first_turns, overflows, route, handle,
}
use mnemosyne_inference.Fleet.Proxy.Reasons.{IsUntouched, Meets, attempt-Meets}
use mnemosyne_inference.Fleet.Proxy.Exclusion.{Avoids, acquire_turn-Avoids}

-- Each attempt but the last left its node without work.
abbrev pub RetriesUpToLast : List Attempted → Type 0
RetriesUpToLast [] = Unit
RetriesUpToLast (a ∷ later) = ((later ≡ []) ⊎ IsUntouched a.passage) × RetriesUpToLast later

-- No two attempts are on one node.
abbrev pub NodesDiffer : List Attempted → Type 0
NodesDiffer [] = Unit
NodesDiffer (a ∷ later) =
    All (λ b. b.reservation.node_id ≢ a.reservation.node_id) later × NodesDiffer later

-- No attempt is on an excluded node, and none on the node of an earlier one.
abbrev Avoiding : List String → List Attempted → Type 0
Avoiding excluded [] = Unit
Avoiding excluded (a ∷ later) =
    (has a.reservation.node_id excluded ≡ false)
    × Avoiding (add a.reservation.node_id excluded) later

Avoiding-excluded :
    (k : String) (excluded : List String) (later : List Attempted)
    → has k excluded ≡ true
    → Avoiding excluded later
    → All (λ b. b.reservation.node_id ≢ k) later
Avoiding-excluded k excluded [] h av = tt
Avoiding-excluded k excluded (a ∷ later) h (out, av) = (
  (λ e. absurd (differ (subst (λ n. has n excluded ≡ false) e out))),
  Avoiding-excluded k (add a.reservation.node_id excluded) later (rw has-add (ground arith)) av,
)
  where
    differ : has k excluded ≡ false → ⊥
    differ f = cc

Avoiding-NodesDiffer :
    (excluded : List String) (later : List Attempted) → Avoiding excluded later → NodesDiffer later
Avoiding-NodesDiffer excluded [] av = tt
Avoiding-NodesDiffer excluded (a ∷ later) (out, av) = (
  Avoiding-excluded a.reservation.node_id (add a.reservation.node_id excluded) later
      (has-add_self a.reservation.node_id excluded) av,
  Avoiding-NodesDiffer (add a.reservation.node_id excluded) later av,
)

module _ (newest_first : List RouteRecord → List RouteRecord) where
  follow-Avoiding :
      (rest : List String → Bool → Answer × List Attempted) (excluded : List String) (busy : Bool)
      (a : Attempted) (r : Result)
      → ((ex : List String) (b : Bool) → Avoiding ex (rest ex b).1)
      → has a.reservation.node_id excluded ≡ false
      → Avoiding excluded (follow newest_first rest excluded busy a r).1
  unfolding follow
  follow-Avoiding rest excluded busy a cancelled ih out = (out, tt)
  follow-Avoiding rest excluded busy a (error_answer e) ih out = (out, tt)
  follow-Avoiding rest excluded busy a (streaming code hs) ih out = (out, tt)
  follow-Avoiding rest excluded busy a node_busy_retry ih out = (out, ih _ busy)
  follow-Avoiding rest excluded busy a not_connected ih out = (out, ih _ false)

  answer_turn-Avoiding :
      (rest : List String → Bool → Answer × List Attempted) (excluded : List String) (busy : Bool)
      (t : Turn) (endpoint : String) (sr : Scheduler × Reply)
      → ((ex : List String) (b : Bool) → Avoiding ex (rest ex b).1)
      → Avoids excluded sr.1
      → Avoiding excluded (answer_turn newest_first rest excluded busy t endpoint sr).1
  unfolding answer_turn attempt_turn
  answer_turn-Avoiding rest excluded busy t endpoint (s, waiting) ih h = tt
  answer_turn-Avoiding rest excluded busy t endpoint (s, failed e) ih h = tt
  answer_turn-Avoiding rest excluded busy t endpoint (s, reserved r) ih h =
      follow-Avoiding rest excluded busy _ _ ih h

  attempts-Avoiding :
      (name capability endpoint : String) (ts : List Turn) (excluded : List String) (busy : Bool)
      → Avoiding excluded (attempts newest_first name capability endpoint ts excluded busy).1
  unfolding attempts
  attempts-Avoiding name capability endpoint [] excluded busy = tt
  attempts-Avoiding name capability endpoint (t ∷ ts) excluded busy =
      answer_turn-Avoiding _ excluded busy t endpoint (acquire_turn t name capability excluded)
        (λ ex b. attempts-Avoiding name capability endpoint ts ex b)
        (acquire_turn-Avoids t name capability excluded)

  follow_retries :
      (rest : List String → Bool → Answer × List Attempted) (excluded : List String) (busy : Bool)
      (a : Attempted) (r : Result)
      → ((ex : List String) (b : Bool) → RetriesUpToLast (rest ex b).1)
      → Meets a.passage r
      → RetriesUpToLast (follow newest_first rest excluded busy a r).1
  unfolding follow
  follow_retries rest excluded busy a cancelled ih e = (inl refl, tt)
  follow_retries rest excluded busy a (error_answer _) ih e = (inl refl, tt)
  follow_retries rest excluded busy a (streaming code hs) ih e = (inl refl, tt)
  follow_retries rest excluded busy a node_busy_retry ih e = (inr (e.0, inl e.1), ih _ busy)
  follow_retries rest excluded busy a not_connected ih e = (inr (e.0, inr e.1), ih _ false)

  turn_retries :
      (rest : List String → Bool → Answer × List Attempted) (excluded : List String) (busy : Bool)
      (t : Turn) (endpoint : String) (sr : Scheduler × Reply)
      → ((ex : List String) (b : Bool) → RetriesUpToLast (rest ex b).1)
      → RetriesUpToLast (answer_turn newest_first rest excluded busy t endpoint sr).1
  unfolding answer_turn
  turn_retries rest excluded busy t endpoint (s, waiting) ih = tt
  turn_retries rest excluded busy t endpoint (s, failed e) ih = tt
  turn_retries rest excluded busy t endpoint (s, reserved r) ih =
      follow_retries rest excluded busy _ _ ih
        (unfold attempt_turn in (attempt-Meets newest_first t.passage r endpoint _))

  attempts_retry :
      (name capability endpoint : String) (ts : List Turn) (excluded : List String) (busy : Bool)
      → RetriesUpToLast (attempts newest_first name capability endpoint ts excluded busy).1
  unfolding attempts
  attempts_retry name capability endpoint [] excluded busy = tt
  attempts_retry name capability endpoint (t ∷ ts) excluded busy =
      turn_retries _ excluded busy t endpoint (acquire_turn t name capability excluded)
        (λ ex b. attempts_retry name capability endpoint ts ex b)

  follow_bound :
      (rest : List String → Bool → Answer × List Attempted) (excluded : List String) (busy : Bool)
      (a : Attempted) (r : Result) (n : ℕ)
      → ((ex : List String) (b : Bool) → length (rest ex b).1 ≤ n)
      → length (follow newest_first rest excluded busy a r).1 ≤ n + 1
  unfolding follow
  follow_bound rest excluded busy a cancelled n ih = omega arith
  follow_bound rest excluded busy a (error_answer _) n ih = omega arith
  follow_bound rest excluded busy a (streaming code hs) n ih = omega arith
  follow_bound rest excluded busy a node_busy_retry n ih =
      omega (arith, ih (add a.reservation.node_id excluded) busy)
  follow_bound rest excluded busy a not_connected n ih =
      omega (arith, ih (add a.reservation.node_id excluded) false)

  turn_bound :
      (rest : List String → Bool → Answer × List Attempted) (excluded : List String) (busy : Bool)
      (t : Turn) (endpoint : String) (sr : Scheduler × Reply) (n : ℕ)
      → ((ex : List String) (b : Bool) → length (rest ex b).1 ≤ n)
      → length (answer_turn newest_first rest excluded busy t endpoint sr).1 ≤ n + 1
  unfolding answer_turn
  turn_bound rest excluded busy t endpoint (s, waiting) n ih = omega arith
  turn_bound rest excluded busy t endpoint (s, failed e) n ih = omega arith
  turn_bound rest excluded busy t endpoint (s, reserved r) n ih =
      follow_bound rest excluded busy _ _ n ih

  attempts_bound :
      (name capability endpoint : String) (ts : List Turn) (excluded : List String) (busy : Bool)
      → length (attempts newest_first name capability endpoint ts excluded busy).1 ≤ length ts
  unfolding attempts
  attempts_bound name capability endpoint [] excluded busy = omega arith
  attempts_bound name capability endpoint (t ∷ ts) excluded busy = omega (
    arith,
    turn_bound (λ ex b. attempts newest_first name capability endpoint ts ex b) excluded busy t
        endpoint (acquire_turn t name capability excluded) (length ts)
        (λ ex b. attempts_bound name capability endpoint ts ex b),
  )

pub length-first_turns : (n : ℕ) (turn : ℕ → Turn) → length (first_turns n turn) ≡ n
unfolding first_turns
length-first_turns zero turn = refl
length-first_turns (suc n) turn = ap suc (length-first_turns n (λ i. turn (suc i)))

-- What holds of no attempts, and of those of the loop, holds of those of `handle`.
handle_of :
    (P : List Attempted → Type 0) (newest_first : List RouteRecord → List RouteRecord)
    (max_body_bytes : ℕ) (chunks : List ℕ) (node_count : ℕ) (capability endpoint : String)
    (turn : ℕ → Turn) (body : Decoded)
    → P []
    → ((name : String)
        → P
            (attempts newest_first name capability endpoint
              (first_turns (max 1 node_count) turn)
              []
              true).1)
    → P (handle newest_first max_body_bytes chunks node_count capability endpoint turn body).1
unfolding handle
handle_of P nf limit chunks n capability endpoint turn body nothing looped =
    elim (Bool-cases (overflows limit 0 chunks)) [
      | inl e ↦ rw e nothing
      | inr e ↦ rw e (routed body)
    ]
  where
    routed : (b : Decoded) → P (route nf n capability endpoint turn b).1
    routed not_json = unfold route in nothing
    routed not_object = unfold route in nothing
    routed (object none) = unfold route in nothing
    routed (object (some name)) =
        unfold route in
        (elim (Bool-cases (all_of is_white (codes name))) [
          | inl e ↦ rw e nothing
          | inr e ↦ rw e (looped name)
        ])

-- The attempts for a request are on pairwise different nodes, and there are at most max(1,
-- node_count) of them.
pub handle_distinct :
    (newest_first : List RouteRecord → List RouteRecord) (max_body_bytes : ℕ) (chunks : List ℕ)
    (node_count : ℕ) (capability endpoint : String) (turn : ℕ → Turn) (body : Decoded)
    → NodesDiffer
        (handle newest_first max_body_bytes chunks node_count capability endpoint turn body).1
      × (length
            (handle newest_first max_body_bytes chunks node_count capability endpoint turn body).1
          ≤ max 1 node_count)
handle_distinct nf limit chunks n capability endpoint turn body = (
  handle_of NodesDiffer nf limit chunks n capability endpoint turn body tt
      (λ name. Avoiding-NodesDiffer [] _ (attempts-Avoiding nf name capability endpoint _ [] true)),
  handle_of (λ tried. length tried ≤ max 1 n) nf limit chunks n capability endpoint turn body
      (omega arith)
      (λ name. omega (
        arith,
        length-first_turns (max 1 n) turn,
        attempts_bound nf name capability endpoint (first_turns (max 1 n) turn) [] true,
      )),
)

-- For every attempt that the proxy makes for a request, except its last one, the node's manager
-- answered the request with status 429 and the header x-mnemosyne-error: node_busy, or no
-- connection to the node was made, and the task was not cancelled before: once a node may have
-- started work, no other node is tried.
pub handle_retries :
    (newest_first : List RouteRecord → List RouteRecord) (max_body_bytes : ℕ) (chunks : List ℕ)
    (node_count : ℕ) (capability endpoint : String) (turn : ℕ → Turn) (body : Decoded)
    → RetriesUpToLast
        (handle newest_first max_body_bytes chunks node_count capability endpoint turn body).1
handle_retries nf limit chunks n capability endpoint turn body =
    handle_of RetriesUpToLast nf limit chunks n capability endpoint turn body tt
      (λ name. attempts_retry nf name capability endpoint _ [] true)
