-- ===== src/Gateway/Methods.antt =====
-- The methods of `GatewayClient`: each gives the client that it leaves and what it does outside.
-- Log calls are left out.
use kb_labs_host_agent.Common.{
  ℕ, ◌+◌, ◌*◌, min, Bool, true, false, String, List, [], ◌∷◌, ◌++◌, Option, none, some, str_eq,
  if◌then◌else◌,
}
use kb_labs_host_agent.Common.Dict.{lookup, insert, remove}
use kb_labs_host_agent.Common.Json.{Json, null, str, get, as_text}
use kb_labs_host_agent.Common.Text.{Text}
use kb_labs_host_agent.Gateway.State.{
  Client, Options, AdapterCallInput, AdapterCallResponse, Ready, connecting, closing, closed, Timer,
  Message, greeting, call_adapter, chunk, result, error, unknown_adapter, handler_error, Fault,
  not_connected, disconnected, timed_out, insecure_url, rejected_url, no_access_token,
  null_dereference, Action, open_socket, send_on, close_socket, resolve, reject, invoke,
  on_connected, on_disconnected, throws, is_open, set_ready, set_timer, clear_timer,
  heartbeat_interval_ms, hello_timeout_ms, backoff_initial_ms, backoff_max_ms,
  default_adapter_call_timeout_ms,
}
use kb_labs_host_agent.Gateway.Url.{connect_url, is_allowed}

abbrev pub Outcome : Type 0
Outcome = Client × List Action

-- One operation after another.
abbrev pub followed_by : Outcome → (Client → Outcome) → Outcome
followed_by (c, before) f = let (c', after) = f c in (c', before ++ after)

send_over : Option ℕ → Client → Message → List Action
send_over none c m = []
send_over (some s) c m = if is_open (c.ready s) then send_on s m ∷ [] else []

unfoldable pub send : Client → Message → List Action
unfolding send_over
send c m = send_over c.ws c m

unfoldable pub register_handler : String → ℕ → Client → Client
register_handler adapter handler c = record c { handlers = insert adapter handler c.handlers }

abbrev pub timeout_of : AdapterCallInput → ℕ
timeout_of call = elim call.timeout [ none ↦ default_adapter_call_timeout_ms | some ms ↦ ms ]

-- The body of the promise past its first test.
call_over : ℕ → String → AdapterCallInput → Client → Outcome
call_over s request_id call c =
    let timed =
      set_timer (Timer.adapter_call request_id (timeout_of call) call.adapter call.method)
        (timeout_of call) c in
    let c' = record timed {
      pending_adapter_calls = insert request_id c.next_timer c.pending_adapter_calls;
    } in
    (c', send c' (call_adapter request_id call))

call_on : Option ℕ → String → AdapterCallInput → Client → Outcome
unfolding call_over
call_on none request_id call c = (c, reject request_id not_connected ∷ [])
call_on (some s) request_id call c =
    if is_open (c.ready s)
    then call_over s request_id call c
    else (c, reject request_id not_connected ∷ [])

-- `request_id` is what `randomUUID` returned.
unfoldable pub send_adapter_call : String → AdapterCallInput → Client → Outcome
unfolding call_on
send_adapter_call request_id call c = call_on c.ws request_id call c

-- The callback of a pending call's timer.
unfoldable pub adapter_call_timeout : String → ℕ → String → String → Client → Outcome
adapter_call_timeout request_id ms adapter method c = (
  record c { pending_adapter_calls = remove request_id c.pending_adapter_calls },
  reject request_id (timed_out ms adapter method) ∷ [],
)

clear_option : Option ℕ → Client → Client
clear_option none c = c
clear_option (some t) c = clear_timer t c

unfoldable pub clear_timers : Client → Client
unfolding clear_option
clear_timers c =
    let c₁ = record (clear_option c.heartbeat_timer c) { heartbeat_timer = none } in
    record (clear_option c.reconnect_timer c₁) { reconnect_timer = none }

-- `close()` on a socket that is closed changes nothing.
abbrev after_close : Ready → Ready
after_close closed = closed
after_close _ = closing

close_over : Option ℕ → ℕ → Client → Outcome
close_over none code c = (c, [])
close_over (some s) code c = (set_ready s (after_close (c.ready s)) c, close_socket s code ∷ [])

-- `this.ws?.close(code, …)`.
unfoldable pub close_ws : ℕ → Client → Outcome
unfolding close_over
close_ws code c = close_over c.ws code c

unfoldable pub stop : Client → Outcome
stop c =
    let (c', acts) = close_ws 1000 (clear_timers (record c { stopped = true })) in
    (record c' { ws = none }, acts)

-- What `doConnect` does, by the token that `getAccessToken` returned, `none` where it threw.
pub data Plan : Type 0 where
  refuse : Fault → Plan
  dial : Text → String → Plan

unfoldable pub plan_connect : Options → Bool → Option String → Plan
plan_connect opts explicit none = refuse no_access_token
plan_connect opts explicit (some token) =
    let url = connect_url opts.gateway_url in
    if is_allowed explicit url then dial url token else refuse (insecure_url url)

-- The plan where the constructor of `WebSocket` throws: `this.ws` is then what it was.
unfoldable pub rejected : Plan → Plan
rejected (refuse e) = refuse e
rejected (dial url token) = refuse (rejected_url url)

unfoldable pub do_connect : Plan → Client → Outcome
do_connect (refuse e) c = (c, throws e ∷ [])
do_connect (dial url token) c = (
  record (set_ready c.next_socket connecting c) {
    ws = some c.next_socket;
    next_socket = c.next_socket + 1;
  },
  open_socket c.next_socket url token ∷ [],
)

unfoldable pub connect : Plan → Client → Outcome
connect plan c = do_connect plan (record c { stopped = false })

abbrev pub or_empty : Option (List String) → List String
or_empty none = []
or_empty (some l) = l

listen_once : Option ℕ → Client → Outcome
listen_once none c = (c, throws null_dereference ∷ [])
listen_once (some s) c = (record c { handshakes = (s, c.next_timer) ∷ c.handshakes }, [])

-- The handshake's listener goes to the socket that `this.ws` is then.
unfoldable pub on_open : Options → Client → Outcome
unfolding listen_once
on_open opts c =
    let hello =
      greeting opts.agent_version c.host_id (or_empty opts.capabilities) opts.host_type
        opts.workspaces opts.plugins in
    let sent : Outcome = (c, send c hello) in
    followed_by sent λ c₁.
      let (c₂, acts) = listen_once c₁.ws c₁ in (set_timer Timer.hello hello_timeout_ms c₂, acts)

unfoldable pub start_heartbeat : Client → Client
start_heartbeat c = record (set_timer Timer.heartbeat heartbeat_interval_ms c) {
  heartbeat_timer = some c.next_timer;
}

-- `msg.sessionId ?? ''`.
abbrev pub session_of : Option Json → Json
session_of none = str ""
session_of (some null) = str ""
session_of (some v) = v

-- `msg.type === 'connected' && msg.hostId && typeof msg.hostId === 'string'`.
host_of : Option String → Option String
host_of none = none
host_of (some host) = if str_eq host "" then none else some host

connected_with : Option String → Option String → Option String
unfolding host_of
connected_with none host = none
connected_with (some type) host = if str_eq type "connected" then host_of host else none

unfoldable pub connected_host : Json → Option String
unfolding connected_with
connected_host msg = connected_with (as_text (get msg "type")) (as_text (get msg "hostId"))

unfoldable pub handshake_with : Option String → Json → Client → Outcome
handshake_with none msg c = close_ws 1008 c
handshake_with (some host) msg c = (
  start_heartbeat (record c {
    host_id = some host;
    backoff_ms = backoff_initial_ms;
    disconnected_at = none;
    reconnect_count = 0;
  }),
  on_connected host (session_of (get msg "sessionId")) ∷ [],
)

unfoldable pub handshake_frame : Option Json → Client → Outcome
handshake_frame none c = close_ws 1008 c
handshake_frame (some null) c = (c, throws null_dereference ∷ [])
handshake_frame (some msg) c = handshake_with (connected_host msg) msg c

-- The `once` listener of `onOpen`; `timer` is its `helloTimeout`.
unfoldable pub on_handshake : ℕ → Option Json → Client → Outcome
on_handshake timer frame c = handshake_frame frame (clear_timer timer c)

-- `handleCall` up to the handler's promise; the test is `this.handlers.get(call.adapter)`.
handle_call_with : Option ℕ → Json → Client → List Action
handle_call_with none msg c =
    send c (error (get msg "requestId") (unknown_adapter (get msg "adapter")))
handle_call_with (some handler) msg c = invoke handler msg ∷ []

find_handler : Option String → Client → Option ℕ
find_handler none c = none
find_handler (some adapter) c = lookup adapter c.handlers

unfoldable pub handle_call : Json → Client → List Action
unfolding handle_call_with find_handler
handle_call msg c = handle_call_with (find_handler (as_text (get msg "adapter")) c) msg c

-- The rest of `handleCall`, when the handler's promise resolves or rejects.
unfoldable pub handler_returned : Option Json → Json → Client → List Action
handler_returned request_id value c = send c (chunk request_id value) ++ send c (result request_id)

unfoldable pub handler_threw : Option Json → String → Client → List Action
handler_threw request_id message c = send c (error request_id (handler_error message))

settle_found : Option ℕ → String → AdapterCallResponse → Client → Outcome
settle_found none request_id response c = (c, [])
settle_found (some timer) request_id response c = (
  record (clear_timer timer c) {
    pending_adapter_calls = remove request_id c.pending_adapter_calls;
  },
  resolve request_id response ∷ [],
)

-- An `adapter:response` or `adapter:error` frame, with the fields that go into the response.
unfoldable pub settle : Option String → Option Json → Option Json → Client → Outcome
unfolding settle_found
settle none res err c = (c, [])
settle (some request_id) res err c =
    settle_found (lookup request_id c.pending_adapter_calls) request_id
      (record { request_id = request_id; result = res; error = err }) c

unfoldable pub message_of_type : String → Json → Client → Outcome
message_of_type type msg c =
    if str_eq type "call"
    then (c, handle_call msg c)
    else if str_eq type "adapter:response"
    then settle (as_text (get msg "requestId")) (get msg "result") none c
    else if str_eq type "adapter:error"
    then settle (as_text (get msg "requestId")) none (get msg "error") c
    else (c, [])

unfoldable pub message_typed : Option String → Json → Client → Outcome
message_typed none msg c = (c, [])
message_typed (some type) msg c = message_of_type type msg c

unfoldable pub on_message : Option Json → Client → Outcome
on_message none c = (c, [])
on_message (some null) c = (c, throws null_dereference ∷ [])
on_message (some msg) c = message_typed (as_text (get msg "type")) msg c

-- The loop of `rejectAllPendingAdapterCalls`.
unfoldable pub reject_each : List (String × ℕ) → Client → Outcome
reject_each [] c = (c, [])
reject_each ((request_id, timer) ∷ rest) c =
    let (c', acts) = reject_each rest (clear_timer timer c) in
    (c', reject request_id disconnected ∷ acts)

unfoldable pub reject_all_pending_adapter_calls : Client → Outcome
reject_all_pending_adapter_calls c =
    let (c', acts) = reject_each c.pending_adapter_calls c in
    (record c' { pending_adapter_calls = [] }, acts)

unfoldable pub schedule_reconnect : Client → Client
schedule_reconnect c = record (set_timer Timer.reconnect c.backoff_ms c) {
  reconnect_count = c.reconnect_count + 1;
  reconnect_timer = some c.next_timer;
}

abbrev pub or_now : Option ℕ → ℕ → ℕ
or_now none now = now
or_now (some t) now = t

unfoldable pub on_close : ℕ → Client → Outcome
on_close now c =
    let c₁ = clear_timers c in
    let (c₂, acts) =
      reject_all_pending_adapter_calls
        (record c₁ { disconnected_at = some (or_now c.disconnected_at now) }) in
    (if c₂.stopped then c₂ else schedule_reconnect c₂, acts ++ on_disconnected ∷ [])

-- The reconnect timer's callback past its `await`, which may throw in `doConnect`.
unfoldable pub reconnect : Plan → Client → Outcome
reconnect (refuse e) c = do_connect (refuse e) c
reconnect (dial url token) c =
    let (c', acts) = do_connect (dial url token) c in
    (record c' { backoff_ms = min (c'.backoff_ms * 2) backoff_max_ms }, acts)
