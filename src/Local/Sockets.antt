-- ===== src/Local/Sockets.antt =====
-- Several connections on one transport.
use kb_labs_host_agent.Common.{
  ℕ, true, ◌≡◌, refl, ap, ◌∙◌, Option, List, [], ◌∷◌, ◌++◌, ◌==◌, ==_iff, if◌then◌else◌, Bool-cases,
  inl, inr,
}
use kb_labs_host_agent.Common.Text.{Text}
use kb_labs_host_agent.Ndjson.{Chunk, Framer, feed}
use kb_labs_host_agent.Local.{LocalTransport, on_data, set_framer}

module _ {ℓ} {M : Type ℓ} (parse : Text → Option M) where
  -- What the handler gets from the socket `a`, of chunks that come on any sockets.
  unfoldable pub from_socket : ℕ → List (ℕ × Chunk) → LocalTransport → List M
  from_socket a [] t = []
  from_socket a ((s, chunk) ∷ more) t =
      let next = from_socket a more (on_data parse s chunk t).0 in
      (if s == a then (on_data parse s chunk t).1.0 else []) ++ next

  -- The messages of the chunks of one connection, by a framer of its own.
  unfoldable pub alone : ℕ → List (ℕ × Chunk) → Framer → List M
  alone a [] f = []
  alone a ((s, chunk) ∷ more) f =
      let own = (feed parse chunk f).1.0 ++ alone a more (feed parse chunk f).0 in
      let others = alone a more f in if s == a then own else others

  on_data-messages :
      (s : ℕ) (chunk : Chunk) (t : LocalTransport)
      → t.has_handler ≡ true
      → (on_data parse s chunk t).1.0 ≡ (feed parse chunk (t.framers s)).1.0
  unfolding on_data
  on_data-messages s chunk t heard = rw heard refl

  on_data-framers :
      (s a : ℕ) (chunk : Chunk) (t : LocalTransport)
      → (on_data parse s chunk t).0.framers a
        ≡ (if s == a then (feed parse chunk (t.framers s)).0 else t.framers a)
  unfolding on_data set_framer
  on_data-framers s a chunk t = refl

  on_data-has_handler :
      (s : ℕ) (chunk : Chunk) (t : LocalTransport)
      → (on_data parse s chunk t).0.has_handler ≡ t.has_handler
  unfolding on_data
  on_data-has_handler s chunk t = refl

  -- Connections do not mix: whatever chunks come on other sockets in between, what the handler gets
  -- from a socket is what a framer makes of the chunks of that socket alone.
  pub sockets_apart :
      (events : List (ℕ × Chunk)) (a : ℕ) (t : LocalTransport)
      → t.has_handler ≡ true
      → from_socket a events t ≡ alone a events (t.framers a)
  unfolding from_socket alone
  sockets_apart [] a t heard = refl
  sockets_apart ((s, chunk) ∷ more) a t heard =
      let g = (on_data parse s chunk t).0 in
      let later = sockets_apart more a g (on_data-has_handler s chunk t ∙ heard) in
      let held = on_data-framers s a chunk t in
      elim (Bool-cases (s == a)) [
        | inl same ↦
            let here = (==_iff s a).0 same in
            let fed = ap (λ k. feed parse chunk (t.framers k)) here in
            let kept =
              ap (λ b. if b then (feed parse chunk (t.framers s)).0 else t.framers a) same in
            rw same (
              ap (λ x. x ++ from_socket a more g)
                (on_data-messages s chunk t heard ∙ ap (λ x. x.1.0) fed)
              ∙ ap (λ x. (feed parse chunk (t.framers a)).1.0 ++ x)
                  (later ∙ ap (alone a more) (held ∙ kept ∙ ap (λ x. x.0) fed)))
        | inr other ↦
            let kept =
              ap (λ b. if b then (feed parse chunk (t.framers s)).0 else t.framers a) other in
            rw other (later ∙ ap (alone a more) (held ∙ kept))
      ]
