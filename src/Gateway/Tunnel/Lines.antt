-- ===== src/Gateway/Tunnel/Lines.antt =====
-- The callbacks over the lines of a body, and how a tunnel ends.
use kb_labs_host_agent.Common.{
  ℕ, ◌≡◌, refl, ap, sym, subst, ◌∙◌, true, false, String, Option, none, some, List, [], ◌∷◌, ◌++◌,
  append-nil, append_assoc, All, All-append, ◌==◌,
}
use kb_labs_host_agent.Common.Json.{Json}
use kb_labs_host_agent.Common.Text.{Text, trim}
use kb_labs_host_agent.Ndjson.{cut}
use kb_labs_host_agent.Ndjson.Lines.{cut-append, cut-partial, cut-IsPartial, IsPartial}
use kb_labs_host_agent.Ndjson.Chunks.{concat}
use kb_labs_host_agent.Gateway.Tunnel.{
  Callback, on_event, on_done, on_error, thrown, responded, Response, Body, read, line_callbacks,
  lines_callbacks, do_execute_http, event_callbacks, says_done, trimmed_callbacks, split_command,
  at_colon, colon, split_at,
}

-- A callback that does not end the tunnel.
unfoldable pub IsEvent : Callback → Type 0
IsEvent (on_event e) = Unit
IsEvent (on_done e) = ⊥
IsEvent (on_error e) = ⊥

module _ (parse : Text → Option Json) where
  lines_callbacks-append :
      (a b : List Text)
      → lines_callbacks parse (a ++ b) ≡ lines_callbacks parse a ++ lines_callbacks parse b
  unfolding lines_callbacks
  lines_callbacks-append [] b = refl
  lines_callbacks-append (l ∷ a) b =
      ap (λ x. line_callbacks parse l ++ x) (lines_callbacks-append a b)
      ∙ sym (
          append_assoc (line_callbacks parse l) (lines_callbacks parse a) (lines_callbacks parse b))

  -- The callbacks of a whole text.
  unfoldable pub text_callbacks : Text → List Callback
  text_callbacks t = lines_callbacks parse (cut t).0 ++ line_callbacks parse (cut t).1

  read_lem :
      (buffer : Text) (chunks : List Text)
      → IsPartial buffer
      → read parse buffer chunks none ≡ text_callbacks (buffer ++ concat chunks)
  unfolding read text_callbacks concat lines_callbacks
  read_lem buffer [] part = rw (append-nil buffer, cut-partial buffer part) refl
  read_lem buffer (chunk ∷ chunks) part =
      let a = buffer ++ chunk in
      let b = concat chunks in
      let whole = ap cut (sym (append_assoc buffer chunk b)) ∙ cut-append a b in
      let first = lines_callbacks parse (cut a).0 in
      let rest = cut ((cut a).1 ++ b) in
      ap (λ x. first ++ x) (read_lem (cut a).1 chunks (cut-IsPartial a))
      ∙ sym (append_assoc first (lines_callbacks parse rest.0) (line_callbacks parse rest.1))
      ∙ ap (λ x. x ++ line_callbacks parse rest.1) (sym (lines_callbacks-append (cut a).0 rest.0))
      ∙ ap (λ x. lines_callbacks parse x.0 ++ line_callbacks parse x.1) (sym whole)

  -- However a body is cut into chunks, the callbacks are those of its lines, the last one with or
  -- without its end, in order.
  pub tunnel_lines :
      (res : Response) (body : Body)
      → res.ok ≡ true
      → res.body ≡ some body
      → body.failure ≡ none
      → do_execute_http parse (responded res) ≡ text_callbacks (concat body.chunks)
  unfolding do_execute_http
  tunnel_lines res body ok has whole = rw (ok, has, whole) (read_lem [] body.chunks tt)

  read_failed :
      (buffer : Text) (chunks : List Text) (message : String)
      → IsPartial buffer
      → read parse buffer chunks (some message)
        ≡ lines_callbacks parse (cut (buffer ++ concat chunks)).0
          ++ (on_error (thrown message) ∷ [])
  unfolding read concat lines_callbacks
  read_failed buffer [] message part = rw (append-nil buffer, cut-partial buffer part) refl
  read_failed buffer (chunk ∷ chunks) message part =
      let a = buffer ++ chunk in
      let b = concat chunks in
      let whole = ap cut (sym (append_assoc buffer chunk b)) ∙ cut-append a b in
      let first = lines_callbacks parse (cut a).0 in
      let rest = cut ((cut a).1 ++ b) in
      let last = on_error (thrown message) ∷ [] in
      ap (λ x. first ++ x) (read_failed (cut a).1 chunks message (cut-IsPartial a))
      ∙ sym (append_assoc first (lines_callbacks parse rest.0) last)
      ∙ ap (λ x. x ++ last) (sym (lines_callbacks-append (cut a).0 rest.0))
      ∙ ap (λ x. lines_callbacks parse x.0 ++ last) (sym whole)

  -- A body whose reading fails calls `onEvent` and `onDone` for its complete lines, and last
  -- `onError`: an execution that was done is reported as failed too, and the incomplete line is lost.
  pub tunnel_fails :
      (res : Response) (body : Body) (message : String)
      → res.ok ≡ true
      → res.body ≡ some body
      → body.failure ≡ some message
      → do_execute_http parse (responded res)
        ≡ lines_callbacks parse (cut (concat body.chunks)).0 ++ (on_error (thrown message) ∷ [])
  unfolding do_execute_http
  tunnel_fails res body message ok has failed =
      rw (ok, has, failed) (read_failed [] body.chunks message tt)

  -- A line that is no `execution:done`.
  abbrev pub Continues : Text → Type 0
  Continues l = (e : Json) → parse (trim l) ≡ some e → says_done e ≡ false

  event_callbacks-IsEvent :
      (o : Option Json)
      → ((e : Json) → o ≡ some e → says_done e ≡ false)
      → All IsEvent (event_callbacks parse o)
  unfolding event_callbacks IsEvent
  event_callbacks-IsEvent none h = tt
  event_callbacks-IsEvent (some e) h = rw (h e refl) (tt, tt)

  trimmed-IsEvent :
      (t : Text)
      → ((e : Json) → parse t ≡ some e → says_done e ≡ false)
      → All IsEvent (trimmed_callbacks parse t)
  unfolding trimmed_callbacks
  trimmed-IsEvent [] h = tt
  trimmed-IsEvent (c ∷ t) h = event_callbacks-IsEvent (parse (c ∷ t)) h

  lines-IsEvent : (ls : List Text) → All Continues ls → All IsEvent (lines_callbacks parse ls)
  unfolding lines_callbacks line_callbacks
  lines-IsEvent [] h = tt
  lines-IsEvent (l ∷ ls) (h, hs) =
      All-append IsEvent (line_callbacks parse l) (lines_callbacks parse ls)
        (trimmed-IsEvent (trim l) h) (lines-IsEvent ls hs)

  -- A body that ends without an `execution:done` among its lines calls neither `onDone` nor
  -- `onError`: the caller is not told that the execution is over.
  pub tunnel_silent :
      (res : Response) (body : Body)
      → res.ok ≡ true
      → res.body ≡ some body
      → body.failure ≡ none
      → All Continues (cut (concat body.chunks)).0
      → Continues (cut (concat body.chunks)).1
      → All IsEvent (do_execute_http parse (responded res))
  unfolding line_callbacks text_callbacks
  tunnel_silent res body ok has whole lines last =
      subst (All IsEvent) (sym (tunnel_lines res body ok has whole)) (
        All-append IsEvent (lines_callbacks parse (cut (concat body.chunks)).0)
          (line_callbacks parse (cut (concat body.chunks)).1)
          (lines-IsEvent (cut (concat body.chunks)).0 lines)
          (trimmed-IsEvent (trim (cut (concat body.chunks)).1) last))

at_colon-plain : (t : Text) → All (λ c. (c == colon) ≡ false) t → at_colon t ≡ none
unfolding at_colon
at_colon-plain [] h = refl
at_colon-plain (c ∷ t) (h, hs) = rw (h, at_colon-plain t hs) refl

at_colon-append :
    (p h : Text) → All (λ c. (c == colon) ≡ false) p → at_colon (p ++ (colon ∷ h)) ≡ some (p, h)
unfolding at_colon
at_colon-append [] h plain = refl
at_colon-append (c ∷ p) h (here, more) = rw (here, at_colon-append p h more) refl

split_found : (t p h : Text) (c : ℕ) → at_colon t ≡ some (c ∷ p, h) → split_command t ≡ (c ∷ p, h)
unfolding split_command split_at
split_found t p h c found = ap (λ o. split_at o t) found

split_plain : (t : Text) → at_colon t ≡ none → split_command t ≡ (t, t)
unfolding split_command split_at
split_plain t found = ap (λ o. split_at o t) found

-- A command `plugin:handler`, whose plugin is not empty and has no colon, is taken apart into the
-- two, the handler with the colons that it has; a command without a colon names both.
pub split_command_lem :
    (c : ℕ) (p h : Text)
    → All (λ d. (d == colon) ≡ false) (c ∷ p)
    → (split_command ((c ∷ p) ++ (colon ∷ h)) ≡ (c ∷ p, h))
      × (split_command (c ∷ p) ≡ (c ∷ p, c ∷ p))
split_command_lem c p h plain = (
  split_found ((c ∷ p) ++ (colon ∷ h)) p h c (at_colon-append (c ∷ p) h plain),
  split_plain (c ∷ p) (at_colon-plain (c ∷ p) plain),
)
