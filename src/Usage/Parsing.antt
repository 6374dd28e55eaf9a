-- ===== src/Usage/Parsing.antt =====
-- usage_normalization.py: `StreamingUsageParser` on a stream that arrives in chunks.
use mnemosyne_inference.Prelude.{ℕ, String, ◌≡◌, refl, ap, Option, List, [], ◌∷◌, ◌++◌}
use mathlib.Core.List.{append_assoc}
use mnemosyne_inference.Usage.Types.{Whole, Fields, UsageProtocol}
use mnemosyne_inference.Usage.Framing.{split_events, frames}
use mnemosyne_inference.Usage.Chunks.{split_events-append}
use mnemosyne_inference.Usage.Stream.{
  Captured, StreamingUsageParser, new, consume_event, consume_events, feed, feed_all, finish,
}

abbrev pub concat : List (List ℕ) → List ℕ
concat [] = []
concat (c ∷ cs) = c ++ concat cs

append_nil : (c : List ℕ) → c ++ [] ≡ c
append_nil [] = refl
append_nil (x ∷ c) = ap (λ z. x ∷ z) (append_nil c)

module _ (int_of_text : String → Option Whole) (lines_of : List ℕ → List (List ℕ))
    (loads : List ℕ → Option Fields) where
  consume_events-append :
      (es fs : List (List ℕ)) (c : Captured)
      → consume_events int_of_text lines_of loads (es ++ fs) c
        ≡ consume_events int_of_text lines_of loads fs
            (consume_events int_of_text lines_of loads es c)
  unfolding consume_events
  consume_events-append [] fs c = refl
  consume_events-append (e ∷ es) fs c =
      consume_events-append es fs (consume_event int_of_text lines_of loads e c)

  feed-append :
      (a b : List ℕ) (p : StreamingUsageParser)
      → feed int_of_text lines_of loads b (feed int_of_text lines_of loads a p)
        ≡ feed int_of_text lines_of loads (a ++ b) p
  unfolding feed
  feed-append a b p = rw (← append_assoc p.buffer a b) (
      rw (split_events-append (p.buffer ++ a) b)
        (rw (consume_events-append (split_events (p.buffer ++ a)).0) refl))

  feed_all-concat :
      (c : List ℕ) (cs : List (List ℕ)) (p : StreamingUsageParser)
      → feed_all int_of_text lines_of loads (c ∷ cs) p
        ≡ feed int_of_text lines_of loads (concat (c ∷ cs)) p
  unfolding feed_all
  feed_all-concat c [] p = rw (append_nil c) refl
  feed_all-concat c (d ∷ cs) p =
      rw (feed-append c d p) (rw (← append_assoc c d (concat cs)) (feed_all-concat (c ++ d) cs p))

  feed_all-new :
      (cs : List (List ℕ)) (protocol : UsageProtocol)
      → feed_all int_of_text lines_of loads cs (new protocol)
        ≡ feed int_of_text lines_of loads (concat cs) (new protocol)
  feed_all-new [] protocol =
      unfold feed_all in
      (unfold feed in (unfold split_events in (unfold frames in (unfold consume_events in refl))))
  feed_all-new (c ∷ cs) protocol = feed_all-concat c cs (new protocol)

  -- What the streaming parser has captured, before and after finish, depends only on the bytes of
  -- the stream and not on how they are cut into chunks: two sequences of chunks with the same
  -- concatenation leave a new parser in the same state.
  pub finish-feed_all :
      (protocol : UsageProtocol) (chunks others : List (List ℕ))
      → concat chunks ≡ concat others
      → (feed_all int_of_text lines_of loads chunks (new protocol)
          ≡ feed_all int_of_text lines_of loads others (new protocol))
        × (finish int_of_text lines_of loads
              (feed_all int_of_text lines_of loads chunks (new protocol))
            ≡ finish int_of_text lines_of loads
                (feed int_of_text lines_of loads (concat others) (new protocol)))
  finish-feed_all protocol chunks others same = (
    rw (feed_all-new chunks protocol) (rw (feed_all-new others protocol) (rw same refl)),
    rw (feed_all-new chunks protocol) (rw same refl),
  )
