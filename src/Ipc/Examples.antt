-- ===== src/Ipc/Examples.antt =====
-- Tests of the server, and its theorems at concrete inputs.
use kb_labs_host_agent.Common.{true, false, ◌≡◌, refl, none, some, [], ◌∷◌, arith, map}
use kb_labs_host_agent.Common.Dict.{lookup}
use kb_labs_host_agent.Common.Json.{get, as_text, Json, null, num, str, obj, end, field}
use kb_labs_host_agent.HostClient.{Client, Stream, execute_call, status_json, execute_json}
use kb_labs_host_agent.HostClient.Streams.{handle_all}
use kb_labs_host_agent.Ipc.{
  handle_execute, default_bool, optional_record, parse_execute, handle_cancel, default_text,
  parse_cancel, IpcExecuteRequest, parse_request, handle_message, Status, sends, warns, cancels,
  tunnels, status,
}
use kb_labs_host_agent.Ipc.Relay.{execution_relayed}
use kb_labs_host_agent.Gateway.Tunnel.{Body, Response}
use kb_labs_host_agent.HostClient.Requests.{pulls}
use kb_labs_host_agent.HostClient.{new, yields, returns}
use kb_labs_host_agent.HostClient
use kb_labs_host_agent.Ndjson.Chunks.{whole_chunk, feed_all, concat, written}
use kb_labs_host_agent.Ndjson.{Chunk, write_ndjson, is_blank, cut, byte_length, code_bytes}
use kb_labs_host_agent.Gateway.Tunnel.{
  says_done, do_execute_http, read, line_callbacks, lines_callbacks, event_callbacks,
}
use kb_labs_host_agent.Ipc.{callback}
use kb_labs_host_agent.Ipc.Relay.{relayed, tunnelled}
use kb_labs_host_agent.Common.Json.{find_field}
use kb_labs_host_agent.Common.Text.{is_space, trim, trim_start, trim_end}
use kb_labs_host_agent.Ipc.{event, done, to_json}
use kb_labs_host_agent.Common.{Bool, Option, String, List, str_eq, ◌==◌, if◌then◌else◌}
use kb_labs_host_agent.Common.Text.{Text}

abbrev now : Status
now = record { connected = true; host_id = some "h"; gateway_url = none; reconnecting = false }

abbrev cancel_json : Json
cancel_json = obj (field "type" (str "cancel") (field "executionId" (str "x") end))

abbrev request : IpcExecuteRequest
request = record { request_id = "e"; command = "p:run"; params = some end; stream = false }

server_tests :
    (handle_message true now (status_json "s") ≡ sends (status now) ∷ [])
    × (handle_message true now cancel_json ≡ cancels "x" "user" ∷ [])
    × (handle_message false now cancel_json ≡ [])
    × (handle_message true now null ≡ warns null ∷ [])
    × (handle_message true now (execute_json "e" "p:run" (obj end)) ≡ tunnels request ∷ [])
unfolding handle_message parse_request as_text get parse_cancel default_text handle_cancel
    parse_execute optional_record default_bool handle_execute
server_tests = (refl, refl, refl, refl, refl)

-- An execution with one event, `1`, and its end. Each value is written as one letter or two.
abbrev done_event : Json
done_event = obj (field "type" (str "execution:done") end)

unfoldable letters : Option String → Bool → Text
letters none ends = 49 ∷ []
letters (some t) ends =
    if str_eq t "execution:done"
    then 68 ∷ []
    else if str_eq t "event"
    then 101 ∷ (if ends then 68 else 49) ∷ []
    else 100 ∷ 68 ∷ []

has_text : Option String → Bool
has_text none = false
has_text (some s) = true

typed : Option Json → Option Json
typed none = none
typed (some v) = get v "type"

unfoldable stringify : Json → Text
unfolding letters has_text typed
stringify v = letters (as_text (get v "type")) (has_text (as_text (typed (get v "data"))))

unfoldable parse : Text → Option Json
parse (c ∷ []) = some (if c == 68 then done_event else num 1)
parse (c ∷ d ∷ []) = some (
    if c == 100
    then to_json (done "e" done_event)
    else if d == 68
    then to_json (event "e" done_event)
    else to_json (event "e" (num 1)))
parse _ = none

abbrev body : Body
body = record { chunks = (49 ∷ 10 ∷ 68 ∷ []) ∷ (10 ∷ []) ∷ []; failure = none }

abbrev response : Response
response = record { ok = true; status = 200; text = ""; body = some body }

abbrev socket_chunks : List Chunk
socket_chunks =
    map whole_chunk ((101 ∷ []) ∷ (49 ∷ 10 ∷ 101 ∷ 68 ∷ 10 ∷ 100 ∷ []) ∷ (68 ∷ 10 ∷ []) ∷ [])

abbrev client : Client
client = new none

execution_relayed_example :
    let (framer, (got, accepted)) = feed_all parse socket_chunks (record { buffer = [] }) in
    (accepted ≡ true)
    × (t : Stream) × (lookup "e"
          (handle_all got (HostClient.execute 5 "e" "p:run" (obj end) client).0).streams
        ≡ some t)
    × (pulls 3 t ≡ yields (some (num 1)) ∷ yields (some done_event) ∷ returns ∷ [])
unfolding parse lookup new stringify letters typed has_text as_text get concat written write_ndjson
    says_done is_blank is_space trim trim_start trim_end do_execute_http read cut line_callbacks
    lines_callbacks event_callbacks relayed tunnelled to_json callback byte_length code_bytes
    find_field
execution_relayed_example =
    execution_relayed parse stringify (λ e. "failed") 5 "e" "p:run" (obj end) client (num 1 ∷ [])
      done_event response body socket_chunks refl refl refl refl refl refl (refl, tt) refl
      ((((refl, tt), refl), refl, refl), ((((refl, tt), refl), refl, refl), tt))
      (
        (((refl, (refl, tt)), refl), refl, refl),
        ((((refl, (refl, tt)), refl), refl, refl), ((((refl, (refl, tt)), refl), refl, refl), tt)),
      )
      (refl, (refl, (refl, tt))) refl (omega arith)
