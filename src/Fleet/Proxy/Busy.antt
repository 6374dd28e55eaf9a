-- ===== src/Fleet/Proxy/Busy.antt =====
-- fleet/src/mnemosyne_fleet/proxy.py: when `handle` says that the whole fleet is busy.
use mnemosyne_inference.Prelude.{
  ℕ, ◌+◌, max, String, ◌≡◌, refl, ap, ◌∙◌, Bool, true, false, none, some, List, [], ◌∷◌, arith, inl,
  inr, All, Bool-cases, length, all_of, str_eq,
}
use mnemosyne_inference.Prelude.Text.{codes, is_white}
use mnemosyne_inference.Fleet.Scheduler.Types.{Scheduler}
use mnemosyne_inference.Fleet.Scheduler.Queue.{
  AcquireError, unknown_model, capability_error, fleet_queue_full, fleet_queue_timeout, Reply,
  reserved, failed, waiting,
}
use mnemosyne_inference.Fleet.Store.{RouteRecord}
use mnemosyne_inference.Fleet.Proxy.Types.{
  Result, node_busy_retry, not_connected, cancelled, error_answer, streaming,
}
use mnemosyne_inference.Fleet.Proxy.Handle.{
  Turn, Answer, pending, interrupted, answer_error, answer_stream, Attempted, acquire_error,
  fleet_capacity_busy, attempt_turn, follow, answer_turn, attempts, exhausted, acquire_turn,
  Decoded, not_json, not_object, object, first_turns, overflows, route, handle,
}
use mnemosyne_inference.Fleet.Proxy.Reasons.{IsRejected, Meets, attempt-Meets}
use mnemosyne_inference.Fleet.Proxy.Retries.{length-first_turns}

-- The node's manager rejected the request before work.
abbrev pub IsProvenBusy : Attempted → Type 0
IsProvenBusy a = (a.passage.start_cancelled ≡ false) × IsRejected a.passage.sending

-- The answer is the error `fleet_capacity_busy`, by its code.
abbrev reports_busy : Answer → Bool
reports_busy (answer_error e) = str_eq e.code "fleet_capacity_busy"
reports_busy pending = false
reports_busy interrupted = false
reports_busy (answer_stream code hs o) = false

reports_busy-acquire_error :
    (e : AcquireError) → reports_busy (answer_error (acquire_error e)) ≡ false
unfolding acquire_error
reports_busy-acquire_error unknown_model = refl
reports_busy-acquire_error capability_error = refl
reports_busy-acquire_error fleet_queue_full = refl
reports_busy-acquire_error fleet_queue_timeout = refl

module _ (newest_first : List RouteRecord → List RouteRecord) where
  -- The loop said that the fleet is busy: what it took.
  abbrev AllBusy : Bool → ℕ → List Attempted → Type 0
  AllBusy busy n tried = (busy ≡ true) × All IsProvenBusy tried × (length tried ≡ n)

  follow_busy :
      (rest : List String → Bool → Answer × List Attempted) (excluded : List String) (busy : Bool)
      (a : Attempted) (r : Result) (n : ℕ)
      → ((ex : List String) (b : Bool)
          → reports_busy (rest ex b).0 ≡ true
          → AllBusy b n (rest ex b).1)
      → Meets a.passage r
      → reports_busy (follow newest_first rest excluded busy a r).0 ≡ true
      → AllBusy busy (n + 1) (follow newest_first rest excluded busy a r).1
  unfolding follow
  follow_busy rest excluded busy a cancelled n ih ok h = absurd cc
  follow_busy rest excluded busy a (error_answer x) n ih ok h =
      absurd (let f = ap (λ y. str_eq y.code "fleet_capacity_busy") ok in cc)
  follow_busy rest excluded busy a (streaming code hs) n ih ok h = absurd cc
  follow_busy rest excluded busy a not_connected n ih ok h =
      let (fact, _, _) = ih _ false h in absurd cc
  follow_busy rest excluded busy a node_busy_retry n ih ok h =
      let (fact, all, len) = ih _ busy h in (fact, (ok, all), omega arith)

  turn_busy :
      (rest : List String → Bool → Answer × List Attempted) (excluded : List String) (busy : Bool)
      (t : Turn) (endpoint : String) (sr : Scheduler × Reply) (n : ℕ)
      → ((ex : List String) (b : Bool)
          → reports_busy (rest ex b).0 ≡ true
          → AllBusy b n (rest ex b).1)
      → reports_busy (answer_turn newest_first rest excluded busy t endpoint sr).0 ≡ true
      → AllBusy busy (n + 1) (answer_turn newest_first rest excluded busy t endpoint sr).1
  unfolding answer_turn
  turn_busy rest excluded busy t endpoint (s, waiting) n ih h = absurd cc
  turn_busy rest excluded busy t endpoint (s, failed e) n ih h =
      absurd (let f = reports_busy-acquire_error e in cc)
  turn_busy rest excluded busy t endpoint (s, reserved r) n ih h =
      follow_busy rest excluded busy _ _ n ih
        (unfold attempt_turn in (attempt-Meets newest_first t.passage r endpoint _)) h

  exhausted_busy :
      (excluded : List String) (busy : Bool)
      → reports_busy (exhausted excluded busy) ≡ true
      → busy ≡ true
  unfolding exhausted
  exhausted_busy excluded true h = refl
  exhausted_busy [] false h = absurd cc
  exhausted_busy (x ∷ xs) false h = absurd cc

  attempts_busy :
      (name capability endpoint : String) (ts : List Turn) (excluded : List String) (busy : Bool)
      → reports_busy (attempts newest_first name capability endpoint ts excluded busy).0 ≡ true
      → AllBusy busy (length ts) (attempts newest_first name capability endpoint ts excluded busy).1
  unfolding attempts
  attempts_busy name capability endpoint [] excluded busy h =
      (exhausted_busy excluded busy h, tt, refl)
  attempts_busy name capability endpoint (t ∷ ts) excluded busy h =
      let (fact, all, len) =
        turn_busy (λ ex b. attempts newest_first name capability endpoint ts ex b) excluded busy t
          endpoint (acquire_turn t name capability excluded) (length ts)
          (λ ex b. attempts_busy name capability endpoint ts ex b) h in
      (fact, all, omega arith)

-- If the proxy answers fleet_capacity_busy, then it made max(1, node_count) attempts, and in each
-- of them the request was sent and answered with status 429 and the header x-mnemosyne-error:
-- node_busy.
pub handle_busy :
    (newest_first : List RouteRecord → List RouteRecord) (max_body_bytes : ℕ) (chunks : List ℕ)
    (node_count : ℕ) (capability endpoint : String) (turn : ℕ → Turn) (body : Decoded)
    → (handle newest_first max_body_bytes chunks node_count capability endpoint turn body).0
      ≡ answer_error fleet_capacity_busy
    → All IsProvenBusy
        (handle newest_first max_body_bytes chunks node_count capability endpoint turn body).1
      × (length
            (handle newest_first max_body_bytes chunks node_count capability endpoint turn body).1
          ≡ max 1 node_count)
unfolding handle
handle_busy nf limit chunks n capability endpoint turn body h =
    elim (Bool-cases (overflows limit 0 chunks)) [
      | inl e ↦ absurd cc
      | inr e ↦ rw e (routed body (rw (← ap reports_busy h) (rw e refl)))
    ]
  where
    routed :
        (b : Decoded)
        → reports_busy (route nf n capability endpoint turn b).0 ≡ true
        → All IsProvenBusy (route nf n capability endpoint turn b).1
          × (length (route nf n capability endpoint turn b).1 ≡ max 1 n)
    routed not_json k = unfold route in absurd cc
    routed not_object k = unfold route in absurd cc
    routed (object none) k = unfold route in absurd cc
    routed (object (some name)) k =
        unfold route in
        (elim (Bool-cases (all_of is_white (codes name))) [
          | inl e ↦ absurd cc
          | inr e ↦ rw e (
              let (fact, all, len) =
                attempts_busy nf name capability endpoint (first_turns (max 1 n) turn) [] true cc in
              (all, len ∙ length-first_turns (max 1 n) turn))
        ])
