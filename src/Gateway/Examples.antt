-- ===== src/Gateway/Examples.antt =====
-- Tests of the gateway client, and its theorems at concrete inputs.
use kb_labs_host_agent.Common.{
  ℕ, ◌+◌, ◌*◌, ◌≡◌, ◌≢◌, ◌↔◌, refl, min, String, List, [], ◌∷◌, none, some, true, false, arith,
  eq_iff,
}
use kb_labs_host_agent.Common.Dict.{lookup, insert, remove, count}
use kb_labs_host_agent.Common.Json.{Json, num, str, obj, end, field, get, as_text, find_field}
use kb_labs_host_agent.Common.Text.{codes, starts_with, strip_prefix}
use kb_labs_host_agent.Gateway.State.{
  Client, Options, AdapterCallInput, open_, Timer, Message, greeting, call_adapter, timed_out,
  open_socket, send_on, resolve, reject, on_connected, initial, disarm, backoff_max_ms,
}
use kb_labs_host_agent.Gateway.Url.{
  connect_url, replace_http, is_allowed, is_secure_ws, is_loopback, is_private_ip, is_private_host,
  is_second_block, after_172, after_scheme,
}
use kb_labs_host_agent.Gateway.Url.Trusted.{is_allowed_iff, IsAcceptable}
use kb_labs_host_agent.Gateway.Methods.{
  send, register_handler, send_adapter_call, adapter_call_timeout, clear_timers, close_ws, stop,
  plan_connect, do_connect, connect, on_open, start_heartbeat, connected_host, handshake_with,
  handshake_frame, on_handshake, handle_call, handler_returned, handler_threw, settle,
  message_of_type, message_typed, on_message, reject_each, reject_all_pending_adapter_calls,
  schedule_reconnect, on_close, reconnect,
}
use kb_labs_host_agent.Gateway.Events.{
  Event, sends_call, connects, opened, received, fires, find_handshake, drop_handshake,
  handshake_if, receive, find_timer, fire, step, run,
}
use kb_labs_host_agent.Gateway.Pending.Ledger.{settled_in}
use kb_labs_host_agent.Gateway.Pending.Runs.{AllFresh, run_settles}
use kb_labs_host_agent.Gateway.Reconnect.Closing.{on_close_lem, Closes, lost_round, round_events}
use kb_labs_host_agent.Gateway.Reconnect.Backoff.{InBounds, run-backoff_bounds}
use kb_labs_host_agent.Gateway.Sockets.{rotate_reconnects, rotate_events}

-- What a run needs to compute.
client : Unit {0}
unfolding run step fire find_timer receive handshake_if find_handshake drop_handshake reconnect
    on_close schedule_reconnect reject_all_pending_adapter_calls reject_each on_message
    message_typed message_of_type settle handler_threw handler_returned handle_call on_handshake
    handshake_frame handshake_with connected_host start_heartbeat on_open connect do_connect
    plan_connect stop close_ws clear_timers adapter_call_timeout send_adapter_call register_handler
    send lookup insert remove get as_text find_field disarm is_allowed is_secure_ws is_loopback
    is_private_ip is_private_host is_second_block after_172 after_scheme connect_url replace_http
    starts_with strip_prefix
client = tt

abbrev opts : Options
opts = record {
  gateway_url = codes "https://gw.example";
  agent_version = "0.1.0";
  capabilities = none;
  host_type = none;
  workspaces = none;
  plugins = none;
}

abbrev hello : Message
hello = greeting "0.1.0" none [] none none none

abbrev connected : Json
connected =
    obj (
      field "type" (str "connected") (field "hostId" (str "h1") (field "sessionId" (str "s1") end)))

abbrev call : AdapterCallInput
call = record {
  adapter = "llm";
  method = "complete";
  args = [];
  timeout = some 500;
  context = record {
    namespace_id = "ns";
    host_id = "h1";
    workspace_id = none;
    execution_request_id = none;
  };
}

abbrev response : Json
response = obj (
    field "type" (str "adapter:response")
      (field "requestId" (str "r1") (field "result" (num 7) end)))

-- Connecting, the handshake, one call and its response, one call that times out.
abbrev session : List (ℕ × Event)
session =
    (0, connects (some "tok"))
    ∷ (1, opened 0)
    ∷ (2, received 0 (some connected))
    ∷ (3, sends_call "r1" call)
    ∷ (4, received 0 (some response))
    ∷ (5, sends_call "r2" call)
    ∷ (6, fires 3)
    ∷ []

session_test :
    (run opts false initial session).1
    ≡ open_socket 0 (codes "wss://gw.example/hosts/connect") "tok"
      ∷ send_on 0 hello
      ∷ on_connected "h1" (str "s1")
      ∷ send_on 0 (call_adapter "r1" call)
      ∷ resolve "r1" (record { request_id = "r1"; result = some (num 7); error = none })
      ∷ send_on 0 (call_adapter "r2" call)
      ∷ reject "r2" (timed_out 500 "llm" "complete")
      ∷ []
unfolding client
session_test = refl

-- Connected, with a pending call.
abbrev up : Client
up = record initial {
  ws = some 0;
  ready = λ _. open_;
  next_socket = 1;
  handlers = ("shell", 9) ∷ [];
  pending_adapter_calls = ("r1", 5) ∷ [];
  timers =
      record { id = 5; kind = Timer.adapter_call "r1" 500 "llm" "complete"; delay = 500 }
      ∷ record { id = 4; kind = Timer.hello; delay = 5000 }
      ∷ [];
  next_timer = 6;
}

session-AllFresh : AllFresh opts false initial session
unfolding client
session-AllFresh = (tt, (tt, (tt, (refl, (tt, (refl, (tt, tt)))))))

run_settles_example :
    count "r2" (run opts false initial session).0.pending_adapter_calls
      + settled_in "r2" (run opts false initial session).1
    ≡ 1
run_settles_example = run_settles opts false "r2" session session-AllFresh

on_close_lem_example : Closes 9 up (on_close 9 up)
on_close_lem_example = on_close_lem 9 up

allowed : is_allowed false (connect_url opts.gateway_url) ≡ true
unfolding client
allowed = refl

lost_round_example :
    (run opts false up (round_events 1 2 3 0 "tok" up)).0.backoff_ms ≡ min (1000 * 2) backoff_max_ms
lost_round_example = (lost_round opts false 1 2 3 0 "tok" up refl allowed).2

run-backoff_bounds_example : InBounds (run opts false initial session).0.backoff_ms
run-backoff_bounds_example = run-backoff_bounds opts false session

nonempty : ◌≢◌ {A = String} "h1" ""
nonempty = ground (arith, eq_iff "h1" "")

rotate_reconnects_example :
    (run opts false up (rotate_events 7 0 "tok2")).0.reconnect_timer ≡ some 6
rotate_reconnects_example = (rotate_reconnects opts false 7 0 "tok2" up allowed).4

is_allowed_iff_example :
    (is_allowed false (codes "ws://172.20.0.3/x") ≡ true) ↔ IsAcceptable (codes "ws://172.20.0.3/x")
is_allowed_iff_example = is_allowed_iff (codes "ws://172.20.0.3/x")

url_tests :
    (is_allowed false (codes "ws://172.32.0.3") ≡ false)
    × (is_allowed false (codes "ws://10.0.0.1") ≡ true)
    × (is_allowed false (codes "ws://gateway:4000") ≡ false)
    × (is_allowed true (codes "ws://gateway:4000") ≡ true)
unfolding client
url_tests = (refl, refl, refl, refl)
