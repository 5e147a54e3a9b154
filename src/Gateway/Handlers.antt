-- ===== src/Gateway/Handlers.antt =====
-- The capability handlers of the client: only `registerHandler` changes them.
use kb_labs_host_agent.Common.{
  ℕ, Bool, true, false, ◌≡◌, refl, ◌∙◌, String, Option, none, some, List, [], ◌∷◌, arith,
}
use kb_labs_host_agent.Common.Json.{Json, null, as_text, get}
use kb_labs_host_agent.Gateway.State.{
  Client, Options, Timer, set_ready, clear_timer, AdapterCallInput, open_, closed,
}
use kb_labs_host_agent.Gateway.Methods.{
  send_adapter_call, adapter_call_timeout, clear_timers, close_ws, stop, Plan, do_connect, connect,
  on_open, start_heartbeat, handshake_with, handshake_frame, on_handshake, settle, message_of_type,
  message_typed, on_message, reject_each, reject_all_pending_adapter_calls, schedule_reconnect,
  on_close, reconnect, plan_connect, rejected, connected_host, refuse, dial, or_now,
}
use kb_labs_host_agent.Gateway.Events.{
  Event, connects_rejected, token_refreshed_rejected, registers, sends_call, connects, stops,
  opened, received, lost, fires, token_refreshed, returned, threw, handshake_if, receive, fire,
  find_timer, find_handshake, step,
}

close_ws-handlers : (code : ℕ) (c : Client) → (close_ws code c).0.handlers ≡ c.handlers
unfolding close_ws
close_ws-handlers code c = ground arith

clear_timers-handlers : (c : Client) → (clear_timers c).handlers ≡ c.handlers
unfolding clear_timers
clear_timers-handlers c = ground arith

stop-handlers : (c : Client) → (stop c).0.handlers ≡ c.handlers
unfolding stop
stop-handlers c =
    close_ws-handlers 1000 (clear_timers (record c { stopped = true }))
    ∙ clear_timers-handlers (record c { stopped = true })

call-handlers :
    (id : String) (call : AdapterCallInput) (c : Client)
    → (send_adapter_call id call c).0.handlers ≡ c.handlers
unfolding send_adapter_call
call-handlers id call c = ground arith

connect-handlers : (plan : Plan) (c : Client) → (do_connect plan c).0.handlers ≡ c.handlers
unfolding do_connect
connect-handlers (refuse e) c = refl
connect-handlers (dial url token) c = refl

on_open-handlers : (opts : Options) (c : Client) → (on_open opts c).0.handlers ≡ c.handlers
unfolding on_open
on_open-handlers opts c = ground arith

handshake_with-handlers :
    (o : Option String) (msg : Json) (c : Client) → (handshake_with o msg c).0.handlers ≡ c.handlers
unfolding handshake_with start_heartbeat
handshake_with-handlers none msg c = close_ws-handlers 1008 c
handshake_with-handlers (some host) msg c = refl

handshake_frame-handlers :
    (frame : Option Json) (c : Client) → (handshake_frame frame c).0.handlers ≡ c.handlers
unfolding handshake_frame
handshake_frame-handlers none c = close_ws-handlers 1008 c
handshake_frame-handlers (some null) c = refl
handshake_frame-handlers (some msg) c = handshake_with-handlers (connected_host msg) msg c

settle-handlers :
    (id : Option String) (res error : Option Json) (c : Client)
    → (settle id res error c).0.handlers ≡ c.handlers
unfolding settle
settle-handlers none res error c = refl
settle-handlers (some id) res error c = ground arith

message-handlers :
    (type : String) (msg : Json) (c : Client) → (message_of_type type msg c).0.handlers ≡ c.handlers
unfolding message_of_type
message-handlers type msg c = ground (
  arith,
  settle-handlers (as_text (get msg "requestId")) (get msg "result") none c,
  settle-handlers (as_text (get msg "requestId")) none (get msg "error") c,
)

typed-handlers :
    (o : Option String) (msg : Json) (c : Client) → (message_typed o msg c).0.handlers ≡ c.handlers
unfolding message_typed
typed-handlers none msg c = refl
typed-handlers (some type) msg c = message-handlers type msg c

on_message-handlers :
    (frame : Option Json) (c : Client) → (on_message frame c).0.handlers ≡ c.handlers
unfolding on_message
on_message-handlers none c = refl
on_message-handlers (some null) c = refl
on_message-handlers (some msg) c = typed-handlers (as_text (get msg "type")) msg c

handshake_if-handlers :
    (o : Option ℕ) (s : ℕ) (frame : Option Json) (c : Client)
    → (handshake_if o s frame c).0.handlers ≡ c.handlers
unfolding handshake_if on_handshake
handshake_if-handlers none s frame c = refl
handshake_if-handlers (some t) s frame c = handshake_frame-handlers frame _

receive-handlers :
    (s : ℕ) (frame : Option Json) (c : Client) → (receive s frame c).0.handlers ≡ c.handlers
unfolding receive
receive-handlers s none c =
    let c' = (on_message none c).0 in
    handshake_if-handlers (find_handshake s c'.handshakes) s none c' ∙ on_message-handlers none c
receive-handlers s (some null) c = on_message-handlers (some null) c
receive-handlers s (some msg) c =
    let c' = (on_message (some msg) c).0 in
    handshake_if-handlers (find_handshake s c'.handshakes) s (some msg) c'
    ∙ on_message-handlers (some msg) c

reject_each-handlers :
    (calls : List (String × ℕ)) (c : Client) → (reject_each calls c).0.handlers ≡ c.handlers
unfolding reject_each
reject_each-handlers [] c = refl
reject_each-handlers ((id, t) ∷ calls) c = reject_each-handlers calls (clear_timer t c)

clear_timers-disconnected : (c : Client) → (clear_timers c).disconnected_at ≡ c.disconnected_at
unfolding clear_timers
clear_timers-disconnected c = ground arith

on_close-handlers : (now : ℕ) (c : Client) → (on_close now c).0.handlers ≡ c.handlers
unfolding on_close reject_all_pending_adapter_calls schedule_reconnect
on_close-handlers now c =
    let c₁ = record (clear_timers c) {
      disconnected_at = some (or_now (clear_timers c).disconnected_at now);
    } in
    ground (
      arith,
      clear_timers-handlers c,
      clear_timers-disconnected c,
      reject_each-handlers c₁.pending_adapter_calls c₁,
    )

fire-handlers : (o : Option Timer) (t : ℕ) (c : Client) → (fire o t c).0.handlers ≡ c.handlers
unfolding fire adapter_call_timeout
fire-handlers none t c = refl
fire-handlers (some Timer.heartbeat) t c = refl
fire-handlers (some Timer.reconnect) t c = ground arith
fire-handlers (some Timer.hello) t c = close_ws-handlers 1008 (clear_timer t c)
fire-handlers (some (Timer.adapter_call id ms adapter method)) t c = refl

reconnect-handlers : (plan : Plan) (c : Client) → (reconnect plan c).0.handlers ≡ c.handlers
unfolding reconnect
reconnect-handlers (refuse e) c = connect-handlers (refuse e) c
reconnect-handlers (dial url token) c = connect-handlers (dial url token) c

-- An event other than a registration.
abbrev pub IsOther : Event → Type 0
IsOther (registers adapter handler) = ⊥
IsOther _ = Unit

pub step-handlers :
    (opts : Options) (explicit : Bool) (now : ℕ) (c : Client) (e : Event)
    → IsOther e
    → (step opts explicit now c e).0.handlers ≡ c.handlers
unfolding step connect
step-handlers opts explicit now c (registers adapter handler) h = absurd h
step-handlers opts explicit now c (sends_call id call) h = call-handlers id call c
step-handlers opts explicit now c (connects token) h =
    connect-handlers (plan_connect opts explicit token) (record c { stopped = false })
step-handlers opts explicit now c (connects_rejected token) h =
    connect-handlers (rejected (plan_connect opts explicit token)) (record c { stopped = false })
step-handlers opts explicit now c stops h = stop-handlers c
step-handlers opts explicit now c (opened s) h = on_open-handlers opts (set_ready s open_ c)
step-handlers opts explicit now c (received s frame) h = receive-handlers s frame c
step-handlers opts explicit now c (lost s) h = on_close-handlers now (set_ready s closed c)
step-handlers opts explicit now c (fires t) h = fire-handlers (find_timer t c.timers) t c
step-handlers opts explicit now c (token_refreshed token) h =
    reconnect-handlers (plan_connect opts explicit token) _
step-handlers opts explicit now c (token_refreshed_rejected token) h =
    reconnect-handlers (rejected (plan_connect opts explicit token)) _
step-handlers opts explicit now c (returned id value) h = refl
step-handlers opts explicit now c (threw id message) h = refl
