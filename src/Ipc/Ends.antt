-- ===== src/Ipc/Ends.antt =====
-- The answers of the server, as the client of the daemon takes them.
use kb_labs_host_agent.Common.{
  ◌≤◌, false, ◌≡◌, refl, ap, sym, ◌∙◌, String, none, some, List, [], ◌∷◌, ◌++◌, map, str_eq,
  eq_refl, append-nil, append_assoc,
}
use kb_labs_host_agent.Common.Dict.{lookup, count}
use kb_labs_host_agent.Common.Json.{Json, get, as_text, find_field}
use kb_labs_host_agent.HostClient.{
  Client, Stream, execute_call, finished, pushed, failed, type_is, is_object, error_message,
}
use kb_labs_host_agent.HostClient.Streams.{handle_all, told, is_for, events_in_order}
use kb_labs_host_agent.Ipc.{
  IpcExecuteRequest, execute_request, parse_request, handle_message, handle_execute, Status, sends,
  IpcResponse, error, no_gateway, callback, Tunnelled, on_event, on_done, on_error, to_json,
}

-- What the tunnel of the request `id` sends, for its events and its end.
abbrev pub tunnel_json : String → List Json → Tunnelled → List Json
tunnel_json id es last =
    map (λ e. to_json (callback id (on_event e))) es ++ (to_json (callback id last) ∷ [])

-- The end of a stream by the last callback of a tunnel.
unfoldable pub ended_by : Tunnelled → Stream → Stream
ended_by (on_event e) s = pushed (some e) s
ended_by (on_done result) s = finished none s
ended_by (on_error message) s = finished (some (failed message)) s

told-last :
    (id : String) (last : Tunnelled) (s : Stream)
    → str_eq id "" ≡ false
    → told id (to_json (callback id last) ∷ []) s ≡ ended_by last s
unfolding told to_json callback is_for ended_by type_is is_object get as_text find_field
    error_message
told-last id (on_event e) s filled = rw (filled, eq_refl id) refl
told-last id (on_done result) s filled = rw (filled, eq_refl id) refl
told-last id (on_error message) s filled = rw (filled, eq_refl id) refl

told-tunnel :
    (id : String) (es : List Json) (last : Tunnelled) (s : Stream)
    → str_eq id "" ≡ false
    → told id (tunnel_json id es last) s
      ≡ ended_by last (record s { queue = s.queue ++ map some es })
unfolding told to_json callback is_for type_is is_object get as_text find_field
told-tunnel id [] last s filled =
    told-last id last s filled
    ∙ ap (λ q. ended_by last (record s { queue = q })) (sym (append-nil s.queue))
told-tunnel id (e ∷ es) last s filled =
    rw (filled, eq_refl id)
      (told-tunnel id es last (pushed (some e) s) filled
        ∙ ap (λ q. ended_by last (record s { queue = q }))
            (append_assoc s.queue (some e ∷ []) (map some es)))

told-no_gateway :
    (id : String) (s : Stream)
    → str_eq id "" ≡ false
    → told id (to_json (error id "NO_GATEWAY" no_gateway) ∷ []) s
      ≡ finished (some (failed no_gateway)) s
unfolding told to_json is_for type_is is_object get as_text find_field error_message
told-no_gateway id s filled = rw (filled, eq_refl id) refl

-- From the callbacks of a tunnel to the generator of the client: the client, which waits with this
-- request, ends up with the data of all events in their order, and then the end that the tunnel
-- reported: done, or the message of its error. The request id is not empty and is taken once.
pub tunnel_reaches_client :
    (id : String) (es : List Json) (last : Tunnelled) (c : Client) (s : Stream)
    → str_eq id "" ≡ false
    → lookup id c.pending ≡ some execute_call
    → count id c.pending ≤ 1
    → lookup id c.streams ≡ some s
    → lookup id (handle_all (tunnel_json id es last) c).streams
      ≡ some (ended_by last (record s { queue = s.queue ++ map some es }))
tunnel_reaches_client id es last c s filled waiting one held =
    events_in_order (tunnel_json id es last) c id s waiting one held
    ∙ ap some (told-tunnel id es last s filled)

-- Without a gateway client the server answers an `execute` with one error message, and the
-- generator of the client that sent it ends with the text of that error.
pub no_gateway_reaches_client :
    (now : Status) (raw : Json) (req : IpcExecuteRequest) (c : Client) (s : Stream)
    → parse_request raw ≡ some (execute_request req)
    → str_eq req.request_id "" ≡ false
    → lookup req.request_id c.pending ≡ some execute_call
    → count req.request_id c.pending ≤ 1
    → lookup req.request_id c.streams ≡ some s
    → (reply : IpcResponse) × (handle_message false now raw ≡ sends reply ∷ [])
      × (lookup req.request_id (handle_all (to_json reply ∷ []) c).streams
          ≡ some (finished (some (failed no_gateway)) s))
unfolding handle_message handle_execute
no_gateway_reaches_client now raw req c s parsed filled waiting one held = (
  error req.request_id "NO_GATEWAY" no_gateway,
  rw parsed refl,
  events_in_order (to_json (error req.request_id "NO_GATEWAY" no_gateway) ∷ []) c req.request_id s
        waiting one held
      ∙ ap some (told-no_gateway req.request_id s filled),
)
