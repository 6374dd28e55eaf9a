-- ===== src/Usage/Stream.antt =====
-- usage_normalization.py: `StreamingUsageParser`. The decoding of bytes, the splitting into lines and
-- the JSON decoder are parameters. `splitlines` gives each line as its code points.
use mnemosyne_inference.Prelude.{
  ℕ, String, Option, none, some, List, [], ◌∷◌, ◌++◌, ◌&&◌, ◌||◌, is_nil, if◌then◌else◌,
}
use mnemosyne_inference.Prelude.Text.{codes, starts_with, same_codes, drop, is_white}
use mnemosyne_inference.Prelude.Dict.{has}
use mnemosyne_inference.Usage.Types.{
  Whole, Fields, no_fields, field, UsageProtocol, openai, openai_responses, anthropic_messages,
  NormalizedUsage,
}
use mnemosyne_inference.Usage.Normalize.{token_keys, assign, usage_block, normalize_usage_block}
use mnemosyne_inference.Usage.Framing.{split_events}

-- The fields of the parser but its buffer.
pub record Captured : Type 0 where
  pub protocol : UsageProtocol
  pub latest : Option NormalizedUsage
  pub anthropic_usage : Fields

pub record StreamingUsageParser : Type 0 where
  pub buffer : List ℕ
  pub captured : Captured

abbrev pub new : UsageProtocol → StreamingUsageParser
new protocol = record {
  buffer = [];
  captured = record { protocol = protocol; latest = none; anthropic_usage = no_fields };
}

unfoldable pub strip_left : List ℕ → List ℕ
strip_left [] = []
strip_left (c ∷ cs) = let rest = strip_left cs in if is_white c then rest else c ∷ cs

unfoldable pub strip_right : List ℕ → List ℕ
strip_right [] = []
strip_right (c ∷ cs) =
    let rest = strip_right cs in if is_nil rest && is_white c then [] else c ∷ rest

abbrev pub strip : List ℕ → List ℕ
strip cs = strip_right (strip_left cs)

-- `data_lines`
unfoldable pub data_lines : List (List ℕ) → List (List ℕ)
data_lines [] = []
data_lines (l ∷ ls) =
    let rest = data_lines ls in
    if starts_with (codes "data:") l then strip_left (drop 5 l) ∷ rest else rest

-- "\n".join(lines)
unfoldable pub join_lines : List (List ℕ) → List ℕ
join_lines [] = []
join_lines (l ∷ []) = l
join_lines (l ∷ m ∷ ls) = l ++ 10 ∷ join_lines (m ∷ ls)

-- The counters of a block are merged into those that the stream has shown.
unfoldable pub merge : Fields → Fields → Fields
merge no_fields usage = usage
merge (field k v fs) usage = merge fs (if has k token_keys then assign k v usage else usage)

unfoldable pub keep_latest : Option NormalizedUsage → Captured → Captured
keep_latest none c = c
keep_latest (some u) c = record c { latest = some u }

module _ (int_of_text : String → Option Whole) (lines_of : List ℕ → List (List ℕ))
    (loads : List ℕ → Option Fields) where
  -- `loads` is `none` where the decoder raises or gives no mapping.
  unfoldable pub decode_sse_payload : List ℕ → Option Fields
  decode_sse_payload event =
      let found = data_lines (lines_of event) in
      let joined = join_lines found in
      if is_nil found || same_codes (strip joined) (codes "[DONE]") then none else loads joined

  unfoldable pub consume_block : UsageProtocol → Fields → Captured → Captured
  consume_block anthropic_messages block c =
      let merged = merge block c.anthropic_usage in
      keep_latest (normalize_usage_block int_of_text anthropic_messages merged)
        (record c { anthropic_usage = merged })
  consume_block openai block c = keep_latest (normalize_usage_block int_of_text openai block) c
  consume_block openai_responses block c =
      keep_latest (normalize_usage_block int_of_text openai_responses block) c

  unfoldable pub consume_found : Option Fields → Captured → Captured
  consume_found none c = c
  consume_found (some block) c = consume_block c.protocol block c

  unfoldable pub consume_payload : Option Fields → Captured → Captured
  consume_payload none c = c
  consume_payload (some payload) c = consume_found (usage_block payload) c

  unfoldable pub consume_event : List ℕ → Captured → Captured
  consume_event event c = consume_payload (decode_sse_payload event) c

  unfoldable pub consume_events : List (List ℕ) → Captured → Captured
  consume_events [] c = c
  consume_events (e ∷ es) c = consume_events es (consume_event e c)

  unfoldable pub feed : List ℕ → StreamingUsageParser → StreamingUsageParser
  feed chunk p =
      let (events, left) = split_events (p.buffer ++ chunk) in
      record { buffer = left; captured = consume_events events p.captured }

  unfoldable pub feed_all : List (List ℕ) → StreamingUsageParser → StreamingUsageParser
  feed_all [] p = p
  feed_all (chunk ∷ chunks) p = feed_all chunks (feed chunk p)

  unfoldable pub finish : StreamingUsageParser → StreamingUsageParser
  finish p =
      if is_nil p.buffer
      then p
      else record { buffer = []; captured = consume_event p.buffer p.captured }
