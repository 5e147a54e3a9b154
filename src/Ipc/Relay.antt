-- ===== src/Ipc/Relay.antt =====
-- An execution from the answer of the gateway to the reader of the client's generator: the body of
-- the response, the callbacks of the tunnel, the messages on the local socket, the framer of the
-- client, its queue, and the reads.
use mathlib.Core.Bool.{false≢true}
use kb_labs_host_agent.Common.{
  ℕ, suc, ◌≡◌, refl, ap, sym, ◌∙◌, true, false, String, Option, none, some, List, [], ◌∷◌, ◌++◌,
  map, All, length, ◌≤◌, arith, All_mono, str_eq, append-nil,
}
use kb_labs_host_agent.Common.Dict.{
  lookup, count, count-insert, lookup-insert_self, count_of_lookup-eq-none,
}
use kb_labs_host_agent.Common.Json.{Json}
use kb_labs_host_agent.Common.Text.{Text, trim, trim_start, trim_end}
use kb_labs_host_agent.Gateway.Tunnel.{
  Callback, on_event, on_done, on_error, TunnelError, Response, Body, responded, do_execute_http,
  says_done, line_callbacks, lines_callbacks, event_callbacks, trimmed_callbacks,
}
use kb_labs_host_agent.Gateway.Tunnel.Lines.{tunnel_lines, text_callbacks}
use kb_labs_host_agent.HostClient.{Client, Stream, Pull, yields, returns, execute_call, pull}
use kb_labs_host_agent.HostClient
use kb_labs_host_agent.HostClient.Streams.{handle_all}
use kb_labs_host_agent.HostClient.Requests.{pulls}
use kb_labs_host_agent.Ipc.{Tunnelled, callback, to_json}
use kb_labs_host_agent.Ipc
use kb_labs_host_agent.Ipc.Ends.{tunnel_json, tunnel_reaches_client, ended_by}
use kb_labs_host_agent.Ndjson.{Chunk, cut, is_blank, byte_length, max_buffer_bytes}
use kb_labs_host_agent.Ndjson.Chunks.{
  texts, IsWhole, concat, written, feed_all, round_trip, Readable, cut-written,
}

-- The callback of the server that the tunnel calls; `message` is the text of an error.
unfoldable pub tunnelled : (TunnelError → String) → Callback → Tunnelled
tunnelled message (on_event e) = Ipc.on_event e
tunnelled message (on_done e) = Ipc.on_done e
tunnelled message (on_error e) = Ipc.on_error (message e)

-- What the server sends for the callbacks of a request.
unfoldable pub relayed : (TunnelError → String) → String → List Callback → List Json
unfolding tunnelled
relayed message id cs = map (λ c. to_json (callback id (tunnelled message c))) cs

module _ (parse : Text → Option Json) (stringify : Json → Text) where
  -- A value stands on one line that is not blank, has no white space around it, and is read back.
  abbrev pub IsLine : Json → Type 0
  IsLine m =
      Readable parse stringify m
      × (parse (stringify m) ≡ some m)
      × (trim (stringify m) ≡ stringify m)

  filled-callbacks :
      (t : Text) (m : Json)
      → is_blank t ≡ false
      → parse t ≡ some m
      → trimmed_callbacks parse t ≡ event_callbacks parse (some m)
  unfolding trimmed_callbacks is_blank
  filled-callbacks [] m filled read = absurd (false≢true (sym filled))
  filled-callbacks (c ∷ t) m filled read = ap (event_callbacks parse) read

  line_callbacks-IsLine :
      (m : Json) → IsLine m → line_callbacks parse (stringify m) ≡ event_callbacks parse (some m)
  unfolding line_callbacks
  line_callbacks-IsLine m ((line, filled), read, trimmed) =
      ap (trimmed_callbacks parse) trimmed ∙ filled-callbacks (stringify m) m filled read

  -- The callbacks for the lines of events and of the last one, which says that it is done.
  lines_callbacks-written :
      (es : List Json) (d : Json)
      → All (λ e. says_done e ≡ false) es
      → says_done d ≡ true
      → All IsLine (es ++ (d ∷ []))
      → lines_callbacks parse (map stringify (es ++ (d ∷ [])))
        ≡ map on_event es ++ (on_event d ∷ on_done d ∷ [])
  unfolding lines_callbacks event_callbacks
  lines_callbacks-written [] d going done (line, _) =
      ap (λ x. x ++ []) (line_callbacks-IsLine d line) ∙ rw done refl
  lines_callbacks-written (e ∷ es) d (here, going) done (line, lines) =
      ap (λ x. x ++ lines_callbacks parse (map stringify (es ++ (d ∷ []))))
        (line_callbacks-IsLine e line)
      ∙ rw here (ap (λ x. on_event e ∷ x) (lines_callbacks-written es d going done lines))

  -- The callbacks of a body that has those lines, however it is cut.
  http-callbacks :
      (es : List Json) (d : Json) (res : Response) (body : Body)
      → res.ok ≡ true
      → res.body ≡ some body
      → body.failure ≡ none
      → concat body.chunks ≡ written stringify (es ++ (d ∷ []))
      → All (λ e. says_done e ≡ false) es
      → says_done d ≡ true
      → All IsLine (es ++ (d ∷ []))
      → do_execute_http parse (responded res) ≡ map on_event es ++ (on_event d ∷ on_done d ∷ [])
  unfolding text_callbacks line_callbacks trimmed_callbacks trim trim_start trim_end
  http-callbacks es d res body ok has whole same going done lines =
      let split =
        ap cut same
        ∙ cut-written parse stringify (es ++ (d ∷ []))
            (All_mono (λ m l. l.0) (es ++ (d ∷ [])) lines) in
      tunnel_lines parse res body ok has whole
      ∙ ap (λ x. lines_callbacks parse x.0 ++ line_callbacks parse x.1) split
      ∙ append-nil (lines_callbacks parse (map stringify (es ++ (d ∷ []))))
      ∙ lines_callbacks-written es d going done lines

relayed-tunnel :
    (message : TunnelError → String) (id : String) (es : List Json) (d : Json)
    → relayed message id (map on_event es ++ (on_event d ∷ on_done d ∷ []))
      ≡ tunnel_json id (es ++ (d ∷ [])) (Ipc.on_done d)
unfolding relayed tunnelled
relayed-tunnel message id [] d = refl
relayed-tunnel message id (e ∷ es) d =
    ap (λ x. to_json (callback id (Ipc.on_event e)) ∷ x) (relayed-tunnel message id es d)

-- The client that begins an `execute` waits with it.
executing :
    (now : ℕ) (id command : String) (params : Json) (c : Client)
    → lookup id c.pending ≡ none
    → let c' = (HostClient.execute now id command params c).0 in
      (lookup id c'.pending ≡ some execute_call)
      × (count id c'.pending ≤ 1)
      × (lookup id c'.streams
          ≡ some (record { command = command; queue = []; done = false; error = none }))
unfolding HostClient.execute
executing now id command params c free = (
  lookup-insert_self id execute_call c.pending,
  ground (
    arith,
    count-insert id id execute_call c.pending free,
    count_of_lookup-eq-none id c.pending free,
  ),
  lookup-insert_self id _ c.streams,
)

pulls_filled :
    (vs : List Json) (command : String)
    → pulls
        (suc (length vs))
        (record { command = command; queue = map some vs; done = true; error = none })
      ≡ map (λ v. yields (some v)) vs ++ (returns ∷ [])
unfolding pulls pull
pulls_filled [] command = refl
pulls_filled (v ∷ vs) command = ap (λ more. yields (some v) ∷ more) (pulls_filled vs command)

-- An execution that succeeds, from end to end. The client of the command line begins it with a
-- request id that is not empty and not in use; the gateway answers with one line for each event,
-- the last of which, and no other, is `execution:done`, in chunks of decoded text of whatever
-- lengths; and what the server then writes to the local socket reaches the client, in chunks of
-- bytes of whatever lengths that are cut between characters, none inside of one, within the bound
-- of its buffer. Nothing else happens at the client in between: the timer that it has set for this
-- call, of ten seconds where it has not been told another time and which no event sets back, fires
-- after the last of these chunks, and the socket does not close before. Then the reader of the
-- generator gets all the events, each once and in their order, the last one too, and then its end.
-- It is required of the values that are sent that each is printed as one line that is not blank
-- and without white space around it, and is read back from it.
pub execution_relayed :
    (parse : Text → Option Json) (stringify : Json → Text) (message : TunnelError → String)
    (now : ℕ) (id command : String) (params : Json) (c : Client) (es : List Json) (d : Json)
    (res : Response) (body : Body) (cs : List Chunk)
    → str_eq id "" ≡ false
    → lookup id c.pending ≡ none
    → res.ok ≡ true
    → res.body ≡ some body
    → body.failure ≡ none
    → concat body.chunks ≡ written stringify (es ++ (d ∷ []))
    → All (λ e. says_done e ≡ false) es
    → says_done d ≡ true
    → All (IsLine parse stringify) (es ++ (d ∷ []))
    → All (IsLine parse stringify) (relayed message id (do_execute_http parse (responded res)))
    → All IsWhole cs
    → concat (texts cs)
      ≡ written stringify (relayed message id (do_execute_http parse (responded res)))
    → byte_length (concat (texts cs)) ≤ max_buffer_bytes
    → let (framer, (got, accepted)) = feed_all parse cs (record { buffer = [] }) in
      (accepted ≡ true)
      × (t : Stream) × (lookup id
            (handle_all got (HostClient.execute now id command params c).0).streams
          ≡ some t)
      × (pulls (suc (length (es ++ (d ∷ [])))) t
          ≡ map (λ e. yields (some e)) (es ++ (d ∷ [])) ++ (returns ∷ []))
unfolding ended_by
execution_relayed parse stringify message now id command params c es d res body cs filled free ok
      has whole same going done lines sendable whole_cs sent small =
    let all = es ++ (d ∷ []) in
    let out = relayed message id (do_execute_http parse (responded res)) in
    let calls =
      ap (relayed message id)
        (http-callbacks parse stringify es d res body ok has whole same going done lines)
      ∙ relayed-tunnel message id es d in
    let (waiting, one, held) = executing now id command params c free in
    let fed =
      round_trip parse stringify out cs (All_mono (λ m l. l.0) out sendable)
        (All_mono (λ m l. l.1) out sendable) whole_cs sent small in
    let c' = (HostClient.execute now id command params c).0 in
    let reached = tunnel_reaches_client id all (Ipc.on_done d) c' _ filled waiting one held in
    (
      ap (λ x. x.1.1) fed,
      record { command = command; queue = map some all; done = true; error = none },
      ap (λ x. lookup id (handle_all x.1.0 c').streams) fed
          ∙ ap (λ ms. lookup id (handle_all ms c').streams) calls
          ∙ reached,
      pulls_filled all command,
    )
