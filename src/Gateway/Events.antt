-- ===== src/Gateway/Events.antt =====
-- What calls the methods of `GatewayClient`: its users, its sockets and its timers, one event at a
-- time. `onTokenExpired` is awaited, so the reconnect timer's callback is two events.
use kb_labs_host_agent.Common.{
  ℕ, suc, ◌-◌, Bool, String, List, [], ◌∷◌, Option, none, some, ◌==◌, if◌then◌else◌,
}
use kb_labs_host_agent.Common.Json.{Json, null}
use kb_labs_host_agent.Gateway.State.{
  Client, Options, AdapterCallInput, open_, closed, Armed, Timer, beat, Action, on_token_expired,
  set_ready, clear_timer,
}
use kb_labs_host_agent.Gateway.Methods.{
  followed_by, send, register_handler, send_adapter_call, adapter_call_timeout, close_ws, stop,
  plan_connect, rejected, connect, on_open, on_handshake, handler_returned, handler_threw,
  on_message, on_close, reconnect,
}

pub data Event : Type 0 where
  registers : (adapter : String) (handler : ℕ) → Event
  sends_call : (request_id : String) → AdapterCallInput → Event
  -- With what `getAccessToken` returns.
  connects : Option String → Event
  -- The same, where `WebSocket` does not take the URL.
  connects_rejected : Option String → Event
  stops : Event
  -- A socket opens, gets a frame, closes.
  opened : ℕ → Event
  received : ℕ → Option Json → Event
  lost : ℕ → Event
  fires : ℕ → Event
  -- The promise of `onTokenExpired` resolves, with what `getAccessToken` then returns.
  token_refreshed : Option String → Event
  token_refreshed_rejected : Option String → Event
  -- The promise of a capability handler is settled.
  returned : Option Json → Json → Event
  threw : Option Json → String → Event

-- The listeners of a frame: `onMessage`, and then the handshake's, unless the first one threw.
unfoldable pub find_handshake : ℕ → List (ℕ × ℕ) → Option ℕ
find_handshake s [] = none
find_handshake s ((r, t) ∷ rest) = if r == s then some t else find_handshake s rest

unfoldable pub drop_handshake : ℕ → List (ℕ × ℕ) → List (ℕ × ℕ)
drop_handshake s [] = []
drop_handshake s ((r, t) ∷ rest) = if r == s then rest else (r, t) ∷ drop_handshake s rest

unfoldable pub handshake_if : Option ℕ → ℕ → Option Json → Client → Client × List Action
unfolding drop_handshake
handshake_if none s frame c = (c, [])
handshake_if (some t) s frame c =
    on_handshake t frame (record c { handshakes = drop_handshake s c.handshakes })

unfoldable pub receive : ℕ → Option Json → Client → Client × List Action
receive s (some null) c = on_message (some null) c
receive s frame c =
    followed_by (on_message frame c) λ c'. handshake_if (find_handshake s c'.handshakes) s frame c'

unfoldable pub find_timer : ℕ → List Armed → Option Timer
find_timer t [] = none
find_timer t (a ∷ more) = if a.id == t then some a.kind else find_timer t more

-- The callback of a timer. One that is set by `setTimeout` is no longer set when it runs.
unfoldable pub fire : Option Timer → ℕ → Client → Client × List Action
fire none t c = (c, [])
fire (some Timer.heartbeat) t c = (c, send c beat)
fire (some Timer.reconnect) t c =
    let c' = clear_timer t c in
    if c'.stopped
    then (c', [])
    else (record c' { awaiting_token = suc c'.awaiting_token }, on_token_expired ∷ [])
fire (some Timer.hello) t c = close_ws 1008 (clear_timer t c)
fire (some (Timer.adapter_call request_id ms adapter method)) t c =
    adapter_call_timeout request_id ms adapter method (clear_timer t c)

-- `explicit` is the setting `GATEWAY_ALLOW_WS`.
unfoldable pub step : Options → Bool → ℕ → Client → Event → Client × List Action
step opts explicit now c (registers adapter handler) = (register_handler adapter handler c, [])
step opts explicit now c (sends_call request_id call) = send_adapter_call request_id call c
step opts explicit now c (connects token) = connect (plan_connect opts explicit token) c
step opts explicit now c (connects_rejected token) =
    connect (rejected (plan_connect opts explicit token)) c
step opts explicit now c stops = stop c
step opts explicit now c (opened s) = on_open opts (set_ready s open_ c)
step opts explicit now c (received s frame) = receive s frame c
step opts explicit now c (lost s) = on_close now (set_ready s closed c)
step opts explicit now c (fires t) = fire (find_timer t c.timers) t c
step opts explicit now c (token_refreshed token) =
    reconnect (plan_connect opts explicit token)
      (record c { awaiting_token = c.awaiting_token - 1 })
step opts explicit now c (token_refreshed_rejected token) =
    reconnect (rejected (plan_connect opts explicit token))
      (record c { awaiting_token = c.awaiting_token - 1 })
step opts explicit now c (returned request_id value) = (c, handler_returned request_id value c)
step opts explicit now c (threw request_id message) = (c, handler_threw request_id message c)

-- A history: each event with the time at which it happens.
unfoldable pub run : Options → Bool → Client → List (ℕ × Event) → Client × List Action
run opts explicit c [] = (c, [])
run opts explicit c ((now, e) ∷ es) =
    followed_by (step opts explicit now c e) λ c'. run opts explicit c' es
