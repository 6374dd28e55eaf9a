-- ===== src/Usage/Normalize.antt =====
-- usage_normalization.py: where the usage of a payload is, and its normalization. Python's `int(text)`
-- is the parameter `int_of_text`, `none` where it raises.
use mnemosyne_inference.Prelude.{
  ℕ, ◌+◌, String, Bool, false, ◌||◌, Option, none, some, List, [], ◌∷◌, str_eq, is_none,
  if◌then◌else◌,
}
use mnemosyne_inference.Prelude.Dict.{has}
use mnemosyne_inference.Usage.Types.{
  Whole, pos, negsuc, Json, null, fraction, boolean, whole, text, array, object, Fields, no_fields,
  field, UsageProtocol, openai, openai_responses, anthropic_messages, NormalizedUsage,
}

abbrev pub token_keys : List String
token_keys =
    "prompt_tokens" ∷ "completion_tokens" ∷ "input_tokens" ∷ "output_tokens" ∷ "total_tokens"
    ∷ "cache_creation_input_tokens" ∷ "cache_read_input_tokens" ∷ []

-- payload.get(key)
unfoldable pub lookup : String → Fields → Option Json
lookup key no_fields = none
lookup key (field k v fs) = if str_eq k key then some v else lookup key fs

-- d[key] = value
unfoldable pub assign : String → Json → Fields → Fields
assign key v no_fields = field key v no_fields
assign key v (field k w fs) =
    let rest = assign key v fs in if str_eq k key then field k v fs else field k w rest

unfoldable pub has_token_key : Fields → Bool
has_token_key no_fields = false
has_token_key (field k v fs) = has k token_keys || has_token_key fs

unfoldable pub as_mapping : Option Json → Option Fields
as_mapping (some (object fs)) = some fs
as_mapping none = none
as_mapping (some null) = none
as_mapping (some fraction) = none
as_mapping (some (boolean b)) = none
as_mapping (some (whole n)) = none
as_mapping (some (text s)) = none
as_mapping (some (array xs)) = none

unfoldable pub or_else : Option Fields → Option Fields → Option Fields
or_else none later = later
or_else (some fs) later = some fs

unfoldable pub usage_in : Option Fields → Option Fields
usage_in none = none
usage_in (some envelope) = as_mapping (lookup "usage" envelope)

-- `_usage_block`
unfoldable pub usage_block : Fields → Option Fields
usage_block payload = or_else (as_mapping (lookup "usage" payload)) (
    or_else (usage_in (as_mapping (lookup "response" payload))) (
      or_else (usage_in (as_mapping (lookup "message" payload))) (
        or_else (usage_in (as_mapping (lookup "delta" payload)))
          (if has_token_key payload then some payload else none))))

unfoldable pub non_negative : Whole → Option ℕ
non_negative (pos n) = some n
non_negative (negsuc n) = none

unfoldable pub converted : Option Whole → Option ℕ
converted none = none
converted (some n) = non_negative n

abbrev pub or_zero : Option ℕ → ℕ
or_zero none = 0
or_zero (some n) = n

abbrev pub or_total : Option ℕ → ℕ → ℕ
or_total none n = n
or_total (some t) n = t

module _ (int_of_text : String → Option Whole) where
  unfoldable pub optional_token_int : Option Json → Option ℕ
  optional_token_int none = none
  optional_token_int (some null) = none
  optional_token_int (some fraction) = none
  optional_token_int (some (boolean b)) = none
  optional_token_int (some (whole n)) = non_negative n
  optional_token_int (some (text s)) = converted (int_of_text s)
  optional_token_int (some (array xs)) = none
  optional_token_int (some (object fs)) = none

  -- `_token_int(usage.get(key))`
  unfoldable pub token_int : String → Fields → ℕ
  token_int key usage = or_zero (optional_token_int (lookup key usage))

  unfoldable pub prompt_of : UsageProtocol → Fields → ℕ
  prompt_of anthropic_messages usage =
      token_int "input_tokens" usage
      + token_int "cache_creation_input_tokens" usage
      + token_int "cache_read_input_tokens" usage
  prompt_of openai usage =
      token_int (if is_none (lookup "prompt_tokens" usage) then "input_tokens" else "prompt_tokens")
        usage
  prompt_of openai_responses usage =
      token_int (if is_none (lookup "prompt_tokens" usage) then "input_tokens" else "prompt_tokens")
        usage

  unfoldable pub completion_of : UsageProtocol → Fields → ℕ
  completion_of anthropic_messages usage = token_int "output_tokens" usage
  completion_of openai usage =
      token_int
        (if is_none (lookup "completion_tokens" usage)
          then "output_tokens"
          else "completion_tokens")
        usage
  completion_of openai_responses usage =
      token_int
        (if is_none (lookup "completion_tokens" usage)
          then "output_tokens"
          else "completion_tokens")
        usage

  unfoldable pub normalize_usage_block : UsageProtocol → Fields → Option NormalizedUsage
  normalize_usage_block protocol usage =
      let prompt = prompt_of protocol usage in
      let completion = completion_of protocol usage in
      if has_token_key usage
      then some (record {
        prompt_tokens = prompt;
        completion_tokens = completion;
        total_tokens =
            or_total (optional_token_int (lookup "total_tokens" usage)) (prompt + completion);
        raw = usage;
      })
      else none
