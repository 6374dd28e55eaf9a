-- ===== src/Fleet/Proxy/Reasons.antt =====
-- fleet/src/mnemosyne_fleet/proxy.py: what an attempt's result says of how the request was sent.
use mnemosyne_inference.Prelude.{
  ℕ, String, ◌≡◌, refl, Bool, true, false, ◌&&◌, ◌⊎◌, Option, none, some, List, arith, inl, inr,
  Bool-cases, ◌==◌, opt_str_eq, eq_iff, if◌then◌else◌,
}
use mnemosyne_inference.Prelude.Dict.{get}
use mnemosyne_inference.Fleet.Scheduler.Types.{Reservation}
use mnemosyne_inference.Fleet.Store.{RouteRecord}
use mnemosyne_inference.Fleet.Proxy.Types.{
  Result, node_busy_retry, not_connected, cancelled, error_answer, streaming, RouteOwnership,
  Gateway, UpstreamResponse, Consumption, consumed, streamed, consumption_cancelled,
  consumption_failed, Sending, build_failed, send_cancelled, connect_failed, http_error, send_error,
  responded,
}
use mnemosyne_inference.Fleet.Proxy.Attempt.{
  Passage, upstream_failure, end_with, build_response, consume, is_node_busy, send, attempt,
}

-- The node's manager answered that it took no work: status 429 with the reserved header.
abbrev pub IsRejected : Sending → Type 0
IsRejected (responded u) =
    (u.status_code ≡ 429) × (get "x-mnemosyne-error" u.headers ≡ some "node_busy")
IsRejected build_failed = ⊥
IsRejected send_cancelled = ⊥
IsRejected connect_failed = ⊥
IsRejected http_error = ⊥
IsRejected send_error = ⊥

-- What a result says of the sending; the error of an attempt is the gateway's 502.
abbrev pub Explains : Sending → Result → Type 0
Explains s node_busy_retry = IsRejected s
Explains s not_connected = s ≡ connect_failed
Explains s (error_answer e) = e ≡ upstream_failure
Explains s cancelled = Unit
Explains s (streaming code hs) = Unit

end_with-Explains :
    (s : Sending) (p : Passage) (status_code : Option ℕ) (code : String) (r : Result)
    (og : RouteOwnership × Gateway)
    → Explains s r
    → Explains s (end_with p status_code code r og).0
unfolding end_with
end_with-Explains s p status_code code r (o, g) h = either _
  where
    either : (b : Bool) → Explains s (if b then cancelled else r)
    either true = tt
    either false = h

build_response-Explains :
    (s : Sending) (p : Passage) (u : UpstreamResponse) (decoded : Bool)
    (og : RouteOwnership × Gateway)
    → Explains s (build_response p u decoded og).0
unfolding build_response
build_response-Explains s p u decoded og = elim (Bool-cases u.is_deliverable) [
  | inl e ↦ simp e tt
  | inr e ↦ simp e (end_with-Explains s p _ _ _ og refl)
]

consume-Explains :
    (s : Sending) (p : Passage) (u : UpstreamResponse) (c : Consumption)
    (og : RouteOwnership × Gateway)
    → Explains s (consume p u c og).0
unfolding consume
consume-Explains s p u consumption_cancelled og = end_with-Explains s p _ _ cancelled og tt
consume-Explains s p u consumption_failed og = end_with-Explains s p _ _ _ og refl
consume-Explains s p u consumed og = build_response-Explains s p u true og
consume-Explains s p u streamed og = build_response-Explains s p u false og

is_node_busy-get :
    (u : UpstreamResponse)
    → is_node_busy u ≡ true
    → get "x-mnemosyne-error" u.headers ≡ some "node_busy"
unfolding is_node_busy
is_node_busy-get u h = named (get "x-mnemosyne-error" u.headers) h
  where
    named : (o : Option String) → opt_str_eq o (some "node_busy") ≡ true → o ≡ some "node_busy"
    named none k = cc
    named (some x) k = let same = (eq_iff x "node_busy").0 k in cc

send-Explains :
    (p : Passage) (s : Sending) (og : RouteOwnership × Gateway) → Explains s (send p s og).0
unfolding send
send-Explains p build_failed og = end_with-Explains build_failed p _ _ _ og refl
send-Explains p send_cancelled og = end_with-Explains send_cancelled p _ _ cancelled og tt
send-Explains p connect_failed og = end_with-Explains connect_failed p _ _ not_connected og refl
send-Explains p http_error og = end_with-Explains http_error p _ _ _ og refl
send-Explains p send_error og = end_with-Explains send_error p _ _ _ og refl
send-Explains p (responded u) (o, g) = elim (Bool-cases (u.status_code == 429 && is_node_busy u)) [
  | inl e ↦ simp e (
      end_with-Explains (responded u) p _ _ node_busy_retry (o, g)
        (ground (arith, e), is_node_busy-get u (ground (arith, e))))
  | inr e ↦ simp e (consume-Explains (responded u) p u u.consumption _)
]

-- The node did no work: it rejected the request before, or there was no connection to it.
abbrev pub IsUntouched : Passage → Type 0
IsUntouched p = (p.start_cancelled ≡ false) × (IsRejected p.sending ⊎ (p.sending ≡ connect_failed))

-- What an attempt that ended with `r` met.
abbrev pub Meets : Passage → Result → Type 0
Meets p node_busy_retry = (p.start_cancelled ≡ false) × IsRejected p.sending
Meets p not_connected = (p.start_cancelled ≡ false) × (p.sending ≡ connect_failed)
Meets p (error_answer e) = e ≡ upstream_failure
Meets p cancelled = Unit
Meets p (streaming code hs) = Unit

Explains-Meets :
    (p : Passage) (r : Result) → p.start_cancelled ≡ false → Explains p.sending r → Meets p r
Explains-Meets p node_busy_retry e h = (e, h)
Explains-Meets p not_connected e h = (e, h)
Explains-Meets p (error_answer x) e h = h
Explains-Meets p cancelled e h = tt
Explains-Meets p (streaming code hs) e h = tt

-- The result `cancelled` whatever the wait does.
early_end :
    (p : Passage) (status_code : Option ℕ) (code : String) (og : RouteOwnership × Gateway)
    → (end_with p status_code code cancelled og).0 ≡ cancelled
unfolding end_with
early_end p status_code code (o, g) = either _
  where
    either : (b : Bool) → (if b then cancelled else cancelled) ≡ cancelled
    either true = refl
    either false = refl

module _ (newest_first : List RouteRecord → List RouteRecord) where
  pub attempt-Meets :
      (p : Passage) (r : Reservation) (endpoint : String) (g : Gateway)
      → Meets p (attempt newest_first p r endpoint g).0
  unfolding attempt
  attempt-Meets p r endpoint g = elim (Bool-cases p.start_cancelled) [
    | inl e ↦ simp e (rw early_end tt)
    | inr e ↦ simp e (Explains-Meets p _ e (send-Explains p p.sending _))
  ]
