-- ===== src/Usage/Tests.antt =====
-- usage_normalization.py: a short stream, and the theorems applied to it.
use mnemosyne_inference.Prelude.{ℕ, String, ◌≡◌, refl, Option, none, some, List, [], ◌∷◌, ◌++◌}
use mnemosyne_inference.Prelude.Text.{codes}
use mnemosyne_inference.Usage.Types.{
  Whole, pos, Fields, no_fields, field, whole, object, openai, openai_responses, anthropic_messages,
}
use mnemosyne_inference.Usage.Framing.{
  newline, line_break, second_break, boundary, prefix_with, first_match, search, cons_event, frames,
  split_events,
}
use mnemosyne_inference.Usage.Chunks.{split_events-append}
use mnemosyne_inference.Usage.Stream.{new, feed_all, feed, finish}
use mnemosyne_inference.Usage.Endpoint.{protocol_for_endpoint, protocol_for_endpoint_lem}
use mnemosyne_inference.Usage.Parsing.{concat, finish-feed_all}

-- No text is a number, a line ends at the end, and every payload is one usage.
abbrev no_number : String → Option Whole
no_number s = none

abbrev one_line : List ℕ → List (List ℕ)
one_line event = event ∷ []

abbrev one_usage : List ℕ → Option Fields
one_usage cs =
    some (field "usage" (object (field "prompt_tokens" (whole (pos 7)) no_fields)) no_fields)

-- The boundary is cut between its bytes.
abbrev cut_stream : List (List ℕ)
cut_stream = (codes "data: {}" ++ 13 ∷ 10 ∷ 13 ∷ []) ∷ (10 ∷ codes "data:") ∷ []

abbrev whole_stream : List (List ℕ)
whole_stream = concat cut_stream ∷ []

split_runs : split_events (97 ∷ 13 ∷ 10 ∷ 10 ∷ 98 ∷ 10 ∷ []) ≡ ((97 ∷ []) ∷ [], 98 ∷ 10 ∷ [])
unfolding newline line_break second_break boundary prefix_with first_match search cons_event frames
    split_events
split_runs = refl

finish-feed_all_example :
    (feed_all no_number one_line one_usage cut_stream (new openai)
      ≡ feed_all no_number one_line one_usage whole_stream (new openai))
    × (finish no_number one_line one_usage
          (feed_all no_number one_line one_usage cut_stream (new openai))
        ≡ finish no_number one_line one_usage
            (feed no_number one_line one_usage (concat whole_stream) (new openai)))
finish-feed_all_example =
    finish-feed_all no_number one_line one_usage openai cut_stream whole_stream refl

split_events-append_example : split_events ((97 ∷ 10 ∷ []) ++ 10 ∷ 98 ∷ []) ≡ (
  (split_events (97 ∷ 10 ∷ [])).0
      ++ (split_events ((split_events (97 ∷ 10 ∷ [])).1 ++ 10 ∷ 98 ∷ [])).0,
  (split_events ((split_events (97 ∷ 10 ∷ [])).1 ++ 10 ∷ 98 ∷ [])).1,
)
split_events-append_example = split_events-append (97 ∷ 10 ∷ []) (10 ∷ 98 ∷ [])

protocol_for_endpoint_lem_example :
    (protocol_for_endpoint (codes "/anthropic/v1" ++ codes "/messages") ≡ anthropic_messages)
    × (protocol_for_endpoint (codes "/anthropic/v1" ++ codes "/responses") ≡ openai_responses)
    × (protocol_for_endpoint (codes "/anthropic/v1" ++ codes "/completions") ≡ openai)
    × (protocol_for_endpoint (codes "/anthropic/v1" ++ 47 ∷ [])
        ≡ protocol_for_endpoint (codes "/anthropic/v1"))
protocol_for_endpoint_lem_example = protocol_for_endpoint_lem (codes "/anthropic/v1")
