-- ===== src/Usage/Endpoint.antt =====
-- usage_normalization.py: `_protocol_for_endpoint` and `normalize_usage`. An endpoint is its code
-- points.
use mnemosyne_inference.Prelude.{
  ℕ, String, ◌≡◌, refl, Bool, true, false, ◌&&◌, Option, none, some, List, [], ◌∷◌, ◌++◌, ◌==◌,
  is_nil, any_of, if◌then◌else◌, Bool-cases, inl, inr,
}
use mnemosyne_inference.Prelude.Text.{codes, same_codes, lower}
use mnemosyne_inference.Usage.Types.{
  Whole, Fields, UsageProtocol, openai, openai_responses, anthropic_messages, NormalizedUsage,
}
use mnemosyne_inference.Usage.Normalize.{usage_block, normalize_usage_block}

-- .rstrip("/")
unfoldable pub strip_slashes : List ℕ → List ℕ
strip_slashes [] = []
strip_slashes (c ∷ cs) =
    let rest = strip_slashes cs in if is_nil rest && c == 47 then [] else c ∷ rest

unfoldable pub has_slash : List ℕ → Bool
has_slash cs = any_of (λ c. c == 47) cs

-- .rsplit("/", 1)[-1]
unfoldable pub last_segment : List ℕ → List ℕ
last_segment [] = []
last_segment (c ∷ cs) =
    let rest = last_segment cs in if has_slash cs then rest else if c == 47 then cs else c ∷ cs

unfoldable pub endpoint_name : List ℕ → List ℕ
endpoint_name endpoint = last_segment (lower (strip_slashes endpoint))

unfoldable pub protocol_for_endpoint : List ℕ → UsageProtocol
protocol_for_endpoint endpoint =
    if same_codes (endpoint_name endpoint) (codes "messages")
    then anthropic_messages
    else if same_codes (endpoint_name endpoint) (codes "responses")
    then openai_responses
    else openai

unfoldable pub normalize_found :
    (String → Option Whole) → List ℕ → Option Fields → Option NormalizedUsage
normalize_found int_of_text endpoint none = none
normalize_found int_of_text endpoint (some usage) =
    normalize_usage_block int_of_text (protocol_for_endpoint endpoint) usage

unfoldable pub normalize_usage :
    (String → Option Whole) → Fields → (endpoint : List ℕ) → Option NormalizedUsage
normalize_usage int_of_text payload endpoint =
    normalize_found int_of_text endpoint (usage_block payload)

strip_slashes-append : (cs : List ℕ) → strip_slashes (cs ++ 47 ∷ []) ≡ strip_slashes cs
unfolding strip_slashes
strip_slashes-append [] = refl
strip_slashes-append (c ∷ cs) = rw (strip_slashes-append cs) refl

last_segment_plain : (cs : List ℕ) → has_slash cs ≡ false → last_segment cs ≡ cs
unfolding last_segment has_slash any_of
last_segment_plain [] h = refl
last_segment_plain (c ∷ cs) h = elim (Bool-cases (c == 47)) [
  | inl e ↦ absurd (let k : true ≡ false = rw e at h in cc)
  | inr e ↦ rw e (let k : any_of (λ x. x == 47) cs ≡ false = rw e at h in rw k refl)
]

slash-append : (cs ds : List ℕ) → any_of (λ x. x == 47) (cs ++ 47 ∷ ds) ≡ true
unfolding any_of
slash-append [] ds = refl
slash-append (c ∷ cs) ds = elim (Bool-cases (c == 47)) [
  | inl e ↦ rw e refl
  | inr e ↦ rw e (slash-append cs ds)
]

last_segment-append : (cs ds : List ℕ) → last_segment (cs ++ 47 ∷ ds) ≡ last_segment (47 ∷ ds)
unfolding last_segment has_slash
last_segment-append [] ds = refl
last_segment-append (c ∷ cs) ds = rw (slash-append cs ds) (last_segment-append cs ds)

lower-append : (cs ds : List ℕ) → lower (cs ++ ds) ≡ lower cs ++ lower ds
unfolding lower
lower-append [] ds = refl
lower-append (c ∷ cs) ds = rw (lower-append cs ds) refl

is_nil-append : (cs ds : List ℕ) (d : ℕ) → is_nil (cs ++ d ∷ ds) ≡ false
is_nil-append [] ds d = refl
is_nil-append (c ∷ cs) ds d = refl

-- Text that does not end in a slash keeps what stands before it.
strip_slashes_before :
    (cs ds : List ℕ) (d : ℕ)
    → strip_slashes (d ∷ ds) ≡ d ∷ ds
    → strip_slashes (cs ++ d ∷ ds) ≡ cs ++ d ∷ ds
unfolding strip_slashes
strip_slashes_before [] ds d h = h
strip_slashes_before (c ∷ cs) ds d h =
    rw (strip_slashes_before cs ds d h) (rw (is_nil-append cs ds d) refl)

endpoint_name-append :
    (cs ds : List ℕ) (d : ℕ)
    → strip_slashes (47 ∷ d ∷ ds) ≡ 47 ∷ d ∷ ds
    → endpoint_name (cs ++ 47 ∷ d ∷ ds) ≡ last_segment (47 ∷ lower (d ∷ ds))
unfolding endpoint_name lower
endpoint_name-append cs ds d h =
    rw (strip_slashes_before cs (d ∷ ds) 47 h)
      (rw (lower-append cs (47 ∷ d ∷ ds)) (last_segment-append (lower cs) (lower (d ∷ ds))))

-- Whatever path stands before it, an endpoint that ends in /messages has the Anthropic protocol,
-- one that ends in /responses the Responses protocol and one that ends in /completions the OpenAI
-- protocol; a slash at the end changes nothing.
pub protocol_for_endpoint_lem :
    (before : List ℕ)
    → (protocol_for_endpoint (before ++ codes "/messages") ≡ anthropic_messages)
      × (protocol_for_endpoint (before ++ codes "/responses") ≡ openai_responses)
      × (protocol_for_endpoint (before ++ codes "/completions") ≡ openai)
      × (protocol_for_endpoint (before ++ 47 ∷ []) ≡ protocol_for_endpoint before)
unfolding protocol_for_endpoint strip_slashes lower last_segment has_slash any_of same_codes
protocol_for_endpoint_lem before = (
  rw (endpoint_name-append before (codes "essages") 109 refl) refl,
  rw (endpoint_name-append before (codes "esponses") 114 refl) refl,
  rw (endpoint_name-append before (codes "ompletions") 99 refl) refl,
  unfold endpoint_name in (rw (strip_slashes-append before) refl),
)
