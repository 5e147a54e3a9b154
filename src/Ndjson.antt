-- ===== src/Ndjson.antt =====
-- packages/host-agent-transport/src/ndjson-framer.ts: the class `NdjsonFramer` and `writeNdjson`.
-- A chunk is taken by what the framer asks of it, its number of bytes and the text that it alone
-- decodes to, where a character that a chunk has only a part of is lost. `JSON.parse` and `JSON.stringify` are
-- arguments, over any type of messages; the socket is outside.
pub mod Lines
pub mod Chunks
pub mod Examples
use kb_labs_host_agent.Common.{
  ℕ, ◌+◌, ◌*◌, Bool, true, false, not, ◌&&◌, ◌||◌, Option, none, some, List, [], ◌∷◌, ◌++◌, ltb,
  leb, ◌==◌, if◌then◌else◌,
}
use kb_labs_host_agent.Common.Text.{Text, is_space, trim}

abbrev pub max_buffer_bytes : ℕ
max_buffer_bytes = 1024 * 1024

abbrev pub newline : ℕ
newline = 10

-- How many bytes a code point takes in UTF-8.
unfoldable pub code_bytes : ℕ → ℕ
code_bytes c = if ltb c 0x80 then 1 else if ltb c 0x800 then 2 else if ltb c 0x10000 then 3 else 4

-- `Buffer.byteLength`.
unfoldable pub byte_length : Text → ℕ
byte_length [] = 0
byte_length (c ∷ cs) = code_bytes c + byte_length cs

unfoldable pub put : ℕ → List Text → Text → List Text × Text
put c [] rest = ([], c ∷ rest)
put c (l ∷ ls) rest = ((c ∷ l) ∷ ls, rest)

-- `split('\n')`, with the last part apart from the others.
unfoldable pub cut : Text → List Text × Text
unfolding put
cut [] = ([], [])
cut (c ∷ cs) =
    let (lines, rest) = cut cs in if c == newline then ([] ∷ lines, rest) else put c lines rest

-- `!line.trim()`.
unfoldable pub is_blank : Text → Bool
is_blank [] = true
is_blank (c ∷ cs) = is_space c && is_blank cs

pub record Framer : Type 0 where
  pub buffer : Text

-- `chunk: Buffer | string`: `Buffer.byteLength` and `toString()` of it.
pub record Chunk : Type 0 where
  pub size : ℕ
  pub text : Text

module _ {ℓ} {M : Type ℓ} (parse : Text → Option M) where
  unfoldable pub message_of : Option M → List M
  message_of none = []
  message_of (some m) = m ∷ []

  -- The loop over the complete lines: a blank line and one that is no JSON give no message.
  unfoldable pub messages : List Text → List M
  unfolding message_of
  messages [] = []
  messages (l ∷ ls) = (if is_blank l then [] else message_of (parse l)) ++ messages ls

  -- `feed`: the messages for the callback, and whether the chunk was accepted; where it is not,
  -- the socket is destroyed.
  unfoldable pub feed : Chunk → Framer → Framer × (List M × Bool)
  feed chunk f =
      let (lines, rest) = cut (f.buffer ++ chunk.text) in
      if ltb max_buffer_bytes (byte_length f.buffer + chunk.size)
      then (f, ([], false))
      else (record { buffer = rest }, (messages lines, true))

unfoldable pub reset : Framer → Framer
reset f = record { buffer = [] }

-- `writeNdjson`, to a socket that is destroyed or not.
unfoldable pub write_ndjson {ℓ} : {M : Type ℓ} → (M → Text) → (destroyed : Bool) → M → Option Text
write_ndjson stringify true m = none
write_ndjson stringify false m = some (stringify m ++ (newline ∷ []))
