-- ===== src/Gateway/Reconnect/Backoff.antt =====
-- The backoff: its bounds on every history, and its value after repeated outages.
use kb_labs_host_agent.Common.{
  ℕ, zero, suc, ◌*◌, ◌^◌, ◌≤◌, ◌≡◌, refl, ap, ◌∙◌, min, String, List, [], ◌∷◌, Option, none, some,
  Bool, true, false, arith,
}
use native.Mathlib.Decide.{dec_le}
use native.Mathlib.Nat.{mul-le-mul_left, pow-suc, mul_comm}
use kb_labs_host_agent.Common.Json.{Json, null}
use kb_labs_host_agent.Gateway.State.{
  Client, Options, Timer, initial, set_ready, closed, clear_timer, backoff_initial_ms,
  backoff_max_ms,
}
use kb_labs_host_agent.Gateway.Url.{connect_url, is_allowed}
use kb_labs_host_agent.Gateway.Methods.{
  Plan, refuse, dial, do_connect, reconnect, handshake_with, handshake_frame, on_handshake,
  close_ws, clear_timers, start_heartbeat, send_adapter_call, stop, connect, on_open, settle,
  message_of_type, message_typed, on_message, adapter_call_timeout, plan_connect, rejected,
  register_handler,
}
use kb_labs_host_agent.Gateway.Events.{
  Event, connects_rejected, token_refreshed_rejected, registers, sends_call, connects, stops,
  opened, received, lost, fires, token_refreshed, returned, threw, fire, receive, handshake_if,
  step, run,
}
use kb_labs_host_agent.Gateway.Reconnect.Closing.{on_close_lem, lost_round, round_events}

abbrev pub InBounds : ℕ → Type 0
InBounds b = (backoff_initial_ms ≤ b) × (b ≤ backoff_max_ms)

close_ws-backoff : (code : ℕ) (c : Client) → (close_ws code c).0.backoff_ms ≡ c.backoff_ms
unfolding close_ws
close_ws-backoff code c = ground arith

handshake_with-InBounds :
    (host : Option String) (msg : Json) (c : Client)
    → InBounds c.backoff_ms
    → InBounds (handshake_with host msg c).0.backoff_ms
unfolding handshake_with start_heartbeat
handshake_with-InBounds none msg c h = rw (close_ws-backoff 1008 c) h
handshake_with-InBounds (some host) msg c h = omega arith

on_handshake-InBounds :
    (t : ℕ) (frame : Option Json) (c : Client)
    → InBounds c.backoff_ms
    → InBounds (on_handshake t frame c).0.backoff_ms
unfolding on_handshake handshake_frame
on_handshake-InBounds t none c h = rw (close_ws-backoff 1008 (clear_timer t c)) h
on_handshake-InBounds t (some null) c h = h
on_handshake-InBounds t (some msg) c h = handshake_with-InBounds _ _ (clear_timer t c) h

message_typed-backoff :
    (type : Option String) (msg : Json) (c : Client)
    → (message_typed type msg c).0.backoff_ms ≡ c.backoff_ms
unfolding message_typed message_of_type settle
message_typed-backoff type msg c = ground arith

on_message-backoff :
    (frame : Option Json) (c : Client) → (on_message frame c).0.backoff_ms ≡ c.backoff_ms
unfolding on_message
on_message-backoff none c = refl
on_message-backoff (some null) c = refl
on_message-backoff (some msg) c = message_typed-backoff _ _ c

receive_with-InBounds :
    (listener : Option ℕ) (s : ℕ) (frame : Option Json) (c : Client)
    → InBounds c.backoff_ms
    → InBounds (handshake_if listener s frame c).0.backoff_ms
unfolding handshake_if
receive_with-InBounds none s frame c h = h
receive_with-InBounds (some t) s frame c h = on_handshake-InBounds t frame _ h

receive-InBounds :
    (s : ℕ) (frame : Option Json) (c : Client)
    → InBounds c.backoff_ms
    → InBounds (receive s frame c).0.backoff_ms
unfolding receive
receive-InBounds s none c h = receive_with-InBounds _ s none _ (rw (on_message-backoff none c) h)
receive-InBounds s (some null) c h = rw (on_message-backoff (some null) c) h
receive-InBounds s (some msg) c h =
    receive_with-InBounds _ s (some msg) _ (rw (on_message-backoff (some msg) c) h)

fire-backoff :
    (kind : Option Timer) (t : ℕ) (c : Client) → (fire kind t c).0.backoff_ms ≡ c.backoff_ms
unfolding fire adapter_call_timeout
fire-backoff none t c = refl
fire-backoff (some Timer.heartbeat) t c = refl
fire-backoff (some Timer.reconnect) t c = ground arith
fire-backoff (some Timer.hello) t c = close_ws-backoff 1008 (clear_timer t c)
fire-backoff (some (Timer.adapter_call r ms a m)) t c = refl

reconnect-InBounds :
    (plan : Plan) (c : Client) → InBounds c.backoff_ms → InBounds (reconnect plan c).0.backoff_ms
unfolding reconnect do_connect
reconnect-InBounds (refuse e) c h = h
reconnect-InBounds (dial url token) c h = omega arith

connect-backoff : (plan : Plan) (c : Client) → (connect plan c).0.backoff_ms ≡ c.backoff_ms
unfolding connect do_connect
connect-backoff (refuse e) c = refl
connect-backoff (dial url token) c = refl

-- No event takes the backoff below one second or above one minute.
pub step-InBounds :
    (opts : Options) (explicit : Bool) (now : ℕ) (c : Client) (e : Event)
    → InBounds c.backoff_ms
    → InBounds (step opts explicit now c e).0.backoff_ms
unfolding step register_handler send_adapter_call stop clear_timers close_ws on_open
step-InBounds opts explicit now c (registers adapter handler) h = h
step-InBounds opts explicit now c (sends_call r call) h = ground arith
step-InBounds opts explicit now c (connects token) h = rw (connect-backoff _ c) h
step-InBounds opts explicit now c (connects_rejected token) h = rw (connect-backoff _ c) h
step-InBounds opts explicit now c stops h = ground arith
step-InBounds opts explicit now c (opened s) h = ground arith
step-InBounds opts explicit now c (received s frame) h = receive-InBounds s frame c h
step-InBounds opts explicit now c (lost s) h = rw ((on_close_lem now (set_ready s closed c)).4) h
step-InBounds opts explicit now c (fires t) h = rw (fire-backoff _ t c) h
step-InBounds opts explicit now c (token_refreshed token) h =
    reconnect-InBounds (plan_connect opts explicit token) _ h
step-InBounds opts explicit now c (token_refreshed_rejected token) h =
    reconnect-InBounds (rejected (plan_connect opts explicit token)) _ h
step-InBounds opts explicit now c (returned r value) h = h
step-InBounds opts explicit now c (threw r message) h = h

-- So after every history of a new client.
run-InBounds :
    (opts : Options) (explicit : Bool) (c : Client) (es : List (ℕ × Event))
    → InBounds c.backoff_ms
    → InBounds (run opts explicit c es).0.backoff_ms
unfolding run
run-InBounds opts explicit c [] h = h
run-InBounds opts explicit c ((now, e) ∷ es) h =
    run-InBounds opts explicit (step opts explicit now c e).0 es
      (step-InBounds opts explicit now c e h)

-- After every history of a new client the backoff lies between one second and one minute.
pub run-backoff_bounds :
    (opts : Options) (explicit : Bool) (es : List (ℕ × Event))
    → InBounds (run opts explicit initial es).0.backoff_ms
run-backoff_bounds opts explicit es = run-InBounds opts explicit initial es (omega arith)

-- `n` outages in a row: each time the socket `s` is lost, and no handshake comes between.
unfoldable pub outages : Options → Bool → (now s : ℕ) → String → ℕ → Client → Client
outages opts explicit now s token zero c = c
outages opts explicit now s token (suc n) c =
    outages opts explicit now s token n (run opts explicit c (round_events now now now s token c)).0

one-le-pow : (n : ℕ) → 1 ≤ 2 ^ n
one-le-pow zero = omega arith
one-le-pow (suc n) = simp pow-suc (omega (arith, one-le-pow n))

min-double :
    (b p : ℕ)
    → 1 ≤ p
    → min (min (b * 2) backoff_max_ms * p) backoff_max_ms ≡ min (b * (2 * p)) backoff_max_ms
min-double b p h = elim (dec_le (b * 2) backoff_max_ms) [
  | yes small ↦
      let e : min (b * 2) backoff_max_ms ≡ b * 2 = omega arith in
      rw e (ap (λ x. min x backoff_max_ms) (omega arith))
  | no large ↦
      let e : min (b * 2) backoff_max_ms ≡ backoff_max_ms = omega arith in
      let big : backoff_max_ms ≤ b * (2 * p) = omega (arith, mul-le-mul_left (b * 2) h) in
      rw e (omega arith)
]

doubled :
    (n b : ℕ)
    → min (min (b * 2) backoff_max_ms * 2 ^ n) backoff_max_ms ≡ min (b * 2 ^ suc n) backoff_max_ms
doubled n b = rw (pow-suc 2 n) (rw (mul_comm (2 ^ n) 2) (min-double b (2 ^ n) (one-le-pow n)))

-- After `n` outages in a row the backoff is its value at first doubled `n` times, or one minute.
pub outages-backoff :
    (opts : Options) (explicit : Bool) (now s : ℕ) (token : String) (n : ℕ) (c : Client)
    → c.stopped ≡ false
    → c.backoff_ms ≤ backoff_max_ms
    → is_allowed explicit (connect_url opts.gateway_url) ≡ true
    → (outages opts explicit now s token n c).backoff_ms ≡ min (c.backoff_ms * 2 ^ n) backoff_max_ms
unfolding outages
outages-backoff opts explicit now s token zero c going bound allowed = omega arith
outages-backoff opts explicit now s token (suc n) c going bound allowed =
    let c' = (run opts explicit c (round_events now now now s token c)).0 in
    let r = lost_round opts explicit now now now s token c going allowed in
    outages-backoff opts explicit now s token n c' r.3 (omega (arith, r.2)) allowed
    ∙ rw (r.2) (doubled n c.backoff_ms)
