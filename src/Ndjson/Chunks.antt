-- ===== src/Ndjson/Chunks.antt =====
-- The framer over the chunks of a stream: where, between two characters, the chunks are cut makes
-- no difference, what was written comes out, and the buffer keeps its bound.
use kb_labs_host_agent.Common.{
  map, ◌+◌, ◌≤◌, ◌≡◌, refl, ap, sym, ◌∙◌, Bool, true, false, Option, none, some, List, [], ◌∷◌,
  ◌++◌, arith, append-nil, append_assoc, ◌==◌, if◌then◌else◌, Bool-cases, inl, inr, All, ltb, map,
}
use kb_labs_host_agent.Common.Text.{Text}
use kb_labs_host_agent.Ndjson.{
  Chunk, cut, newline, byte_length, messages, message_of, is_blank, Framer, feed, write_ndjson,
  max_buffer_bytes,
}
use kb_labs_host_agent.Ndjson.Lines.{
  byte_length-append, cut-byte_length, cut-append, cut-line, IsPartial, cut-partial, cut-IsPartial,
}

unfoldable pub concat : List Text → Text
concat [] = []
concat (c ∷ cs) = c ++ concat cs

abbrev pub texts : List Chunk → List Text
texts cs = map (λ c. c.text) cs

-- A chunk that is decoded to characters of as many bytes: it begins and ends between two.
abbrev pub IsWhole : Chunk → Type 0
IsWhole c = c.size ≡ byte_length c.text

-- The chunks that a text is cut into between characters.
abbrev pub whole_chunk : Text → Chunk
whole_chunk t = record { size = byte_length t; text = t }

-- What the sockets writes come to.
unfoldable pub written {ℓ} : {M : Type ℓ} → (M → Text) → List M → Text
written stringify [] = []
written stringify (m ∷ ms) = elim (write_ndjson stringify false m) [
  | none ↦ written stringify ms
  | some t ↦ t ++ written stringify ms
]

module _ {ℓ} {M : Type ℓ} (parse : Text → Option M) where
  -- The chunks one after the other, until one is not accepted.
  unfoldable pub feed_all : List Chunk → Framer → Framer × (List M × Bool)
  feed_all [] f = (f, ([], true))
  feed_all (c ∷ cs) f =
      let (g, (ms, ok)) = feed parse c f in
      let (h, (more, all)) = feed_all cs g in
      if ok then (h, (ms ++ more, all)) else (g, (ms, false))

  messages-append :
      (a b : List Text) → messages parse (a ++ b) ≡ messages parse a ++ messages parse b
  unfolding messages message_of
  messages-append [] b = refl
  messages-append (l ∷ a) b =
      let here = if is_blank l then [] else message_of parse (parse l) in
      ap (λ x. here ++ x) (messages-append a b)
      ∙ sym (append_assoc here (messages parse a) (messages parse b))

  feed_accepted :
      (c : Chunk) (f : Framer)
      → byte_length f.buffer + c.size ≤ max_buffer_bytes
      → feed parse c f ≡ (
        record { buffer = (cut (f.buffer ++ c.text)).1 },
        (messages parse (cut (f.buffer ++ c.text)).0, true),
      )
  unfolding feed
  feed_accepted c f small =
      let ok : ltb max_buffer_bytes (byte_length f.buffer + c.size) ≡ false = ground arith in
      rw ok refl

  feed_all_cons :
      (c : Chunk) (cs : List Chunk) (f g : Framer) (ms : List M)
      → feed parse c f ≡ (g, (ms, true))
      → feed_all (c ∷ cs) f ≡ ((feed_all cs g).0, (ms ++ (feed_all cs g).1.0, (feed_all cs g).1.1))
  unfolding feed_all
  feed_all_cons c cs f g ms fed = rw fed refl

  -- However a text that fits is cut into chunks between characters, the framer accepts them all,
  -- hands on the messages of the text as a whole, in order, and keeps its last, incomplete line.
  pub feed_all_lem :
      (cs : List Chunk) (f : Framer)
      → IsPartial f.buffer
      → All IsWhole cs
      → byte_length f.buffer + byte_length (concat (texts cs)) ≤ max_buffer_bytes
      → feed_all cs f ≡ (
        record { buffer = (cut (f.buffer ++ concat (texts cs))).1 },
        (messages parse (cut (f.buffer ++ concat (texts cs))).0, true),
      )
  unfolding concat feed_all messages
  feed_all_lem [] f part whole small = rw (append-nil f.buffer, cut-partial f.buffer part) refl
  feed_all_lem (c ∷ cs) f part (own, others) small =
      let a = f.buffer ++ c.text in
      let later = concat (texts cs) in
      let b = byte_length-append c.text later in
      let d = byte_length-append f.buffer c.text in
      let e = cut-byte_length a in
      let g : Framer = record { buffer = (cut a).1 } in
      let rest = feed_all_lem cs g (cut-IsPartial a) others (omega (arith, b, d, e)) in
      let all = ap cut (sym (append_assoc f.buffer c.text later)) ∙ cut-append a later in
      feed_all_cons c cs f g (messages parse (cut a).0) (feed_accepted c f (omega (arith, b, own)))
      ∙ ap (λ x. (x.0, (messages parse (cut a).0 ++ x.1.0, x.1.1))) rest
      ∙ ap (λ x. (record { buffer = (cut ((cut a).1 ++ later)).1 }, (x, true)))
          (sym (messages-append (cut a).0 (cut ((cut a).1 ++ later)).0))
      ∙ ap (λ x. (record { buffer = x.1 }, (messages parse x.0, true))) (sym all)

  -- No chunk that is decoded to characters of no more bytes makes the buffer larger than a megabyte,
  -- accepted or not.
  pub feed_bounded :
      (c : Chunk) (f : Framer)
      → byte_length c.text ≤ c.size
      → byte_length f.buffer ≤ max_buffer_bytes
      → byte_length (feed parse c f).0.buffer ≤ max_buffer_bytes
  unfolding feed
  feed_bounded c f decoded small =
      elim (Bool-cases (ltb max_buffer_bytes (byte_length f.buffer + c.size))) [
        | inl large ↦ rw large small
        | inr fits ↦ rw fits (
            let a = cut-byte_length (f.buffer ++ c.text) in
            let b = byte_length-append f.buffer c.text in ground arith)
      ]

  module _ (stringify : M → Text) where
    -- A written message is one line, not blank, that is read as the message.
    abbrev pub Readable : M → Type 0
    Readable m = All (λ c. (c == newline) ≡ false) (stringify m) × (is_blank (stringify m) ≡ false)

    pub cut-written :
        (ms : List M) → All Readable ms → cut (written stringify ms) ≡ (map stringify ms, [])
    unfolding written write_ndjson cut
    cut-written [] h = refl
    cut-written (m ∷ ms) ((line, filled), hs) =
        ap cut (append_assoc (stringify m) (newline ∷ []) (written stringify ms))
        ∙ cut-line (stringify m) (written stringify ms) line
        ∙ ap (λ x. (stringify m ∷ x.0, x.1)) (cut-written ms hs)

    messages-written :
        (ms : List M)
        → All Readable ms
        → All (λ m. parse (stringify m) ≡ some m) ms
        → messages parse (map stringify ms) ≡ ms
    unfolding messages message_of
    messages-written [] h back = refl
    messages-written (m ∷ ms) ((line, filled), hs) (same, back) =
        rw (filled, same) (ap (λ x. m ∷ x) (messages-written ms hs back))

    -- What is written to a socket comes out at the other end: the messages, all and in their order,
    -- however the bytes are cut into chunks between characters, and with nothing left in the
    -- buffer. It is required that no chunk begins or ends inside of a character: each is decoded
    -- alone, to characters of as many bytes, and the texts of the chunks come to the text that was
    -- written. And it is required that all fits the buffer, that no written message has a line
    -- break or is blank, and that parsing undoes printing on the messages.
    pub round_trip :
        (ms : List M) (cs : List Chunk)
        → All Readable ms
        → All (λ m. parse (stringify m) ≡ some m) ms
        → All IsWhole cs
        → concat (texts cs) ≡ written stringify ms
        → byte_length (concat (texts cs)) ≤ max_buffer_bytes
        → feed_all cs (record { buffer = [] }) ≡ (record { buffer = [] }, (ms, true))
    unfolding byte_length
    round_trip ms cs hs back whole same small =
        feed_all_lem cs (record { buffer = [] }) tt whole (omega arith)
        ∙ ap (λ x. (record { buffer = (cut x).1 }, (messages parse (cut x).0, true))) same
        ∙ ap (λ x. (record { buffer = x.1 }, (messages parse x.0, true))) (cut-written ms hs)
        ∙ ap (λ x. (record { buffer = [] }, (x, true))) (messages-written ms hs back)
