-- ===== src/Ndjson/Examples.antt =====
-- Tests of the framer, and its theorems at concrete inputs: messages are numbers, and the message
-- `n` is written as a line of one code point, `n + 65`.
use kb_labs_host_agent.Common.{
  map, ◌≡◌, refl, List, [], ◌∷◌, ◌++◌, some, none, arith, true, false, Option,
}
use kb_labs_host_agent.Common.Text.{Text, is_space}
use kb_labs_host_agent.Ndjson.{
  is_blank, code_bytes, Chunk, Framer, feed, cut, messages, byte_length, write_ndjson, reset,
}
use kb_labs_host_agent.Ndjson.Chunks.{
  texts, whole_chunk, feed_all, feed_all_lem, round_trip, concat, written,
}

-- The messages are `a` and `b`.
data Letter : Type 0 where
  a b : Letter

abbrev stringify : Letter → Text
stringify a = 65 ∷ []
stringify b = 66 ∷ 66 ∷ []

unfoldable parse : Text → Option Letter
parse (c ∷ []) = some a
parse (c ∷ d ∷ []) = some b
parse _ = none

abbrev empty : Framer
empty = record { buffer = [] }

feed_test :
    feed_all parse
      (map whole_chunk ((65 ∷ []) ∷ (10 ∷ 66 ∷ []) ∷ (66 ∷ 10 ∷ 32 ∷ 10 ∷ 67 ∷ []) ∷ []))
      empty
    ≡ (record { buffer = 67 ∷ [] }, (a ∷ b ∷ [], true))
unfolding feed_all feed byte_length code_bytes cut messages is_blank is_space parse
feed_test = refl

write_test :
    (write_ndjson stringify false a ≡ some (65 ∷ 10 ∷ []))
    × (write_ndjson stringify true a ≡ none)
    × (reset (record { buffer = 67 ∷ [] }) ≡ empty)
unfolding write_ndjson reset
write_test = (refl, refl, refl)

abbrev chunks : List Chunk
chunks = map whole_chunk ((65 ∷ []) ∷ (10 ∷ 66 ∷ []) ∷ [])

feed_all_lem_example : feed_all parse chunks empty ≡ (
  record { buffer = (cut (empty.buffer ++ concat (texts chunks))).1 },
  (messages parse (cut (empty.buffer ++ concat (texts chunks))).0, true),
)
unfolding byte_length code_bytes concat
feed_all_lem_example = feed_all_lem parse chunks empty tt (refl, (refl, tt)) (ground arith)

round_trip_example :
    feed_all parse (map whole_chunk ((65 ∷ []) ∷ (10 ∷ 66 ∷ []) ∷ (66 ∷ 10 ∷ []) ∷ [])) empty
    ≡ (empty, (a ∷ b ∷ [], true))
unfolding is_blank is_space written concat write_ndjson byte_length code_bytes parse
round_trip_example =
    round_trip parse stringify (a ∷ b ∷ [])
      (map whole_chunk ((65 ∷ []) ∷ (10 ∷ 66 ∷ []) ∷ (66 ∷ 10 ∷ []) ∷ []))
      (((refl, tt), refl), (((refl, (refl, tt)), refl), tt)) (refl, (refl, tt))
      (refl, (refl, (refl, tt))) refl (ground arith)
