-- ===== src/Gateway/Sockets.antt =====
-- Events of a socket that the client has already replaced.
use kb_labs_host_agent.Common.{
  ℕ, ◌≡◌, refl, String, List, [], ◌∷◌, some, arith, ◌∙◌, ◌++◌, append-nil, ap, subst, subst, Bool,
  true, false, ==_refl, ◌++◌,
}
use kb_labs_host_agent.Gateway.State.{
  Client, Options, open_, closed, closing, Timer, close_socket, set_ready, open_socket,
  on_disconnected, open_socket, on_disconnected,
}
use kb_labs_host_agent.Gateway.Url.{connect_url, is_allowed}
use kb_labs_host_agent.Gateway.Methods.{
  stop, connect, plan_connect, on_close, close_ws, clear_timers, do_connect,
}
use kb_labs_host_agent.Gateway.Events.{
  Event, stops, connects, lost, fires, step, run, find_timer, fire,
}
use kb_labs_host_agent.Gateway.Reconnect.Closing.{on_close_lem, rejections}

-- What the daemon does when a token is rotated, `stop` and then `connect`, and then the close event
-- of the socket that `stop` closed.
abbrev pub rotate_events : (now s : ℕ) → String → List (ℕ × Event)
rotate_events now s token = (now, stops) ∷ (now, connects (some token)) ∷ (now, lost s) ∷ []

-- The client between the two: stopped, and connecting again.
record Rotated (c c' : Client) : Type 0 where
  ws : c'.ws ≡ some c.next_socket
  stopped : c'.stopped ≡ false
  next_timer : c'.next_timer ≡ c.next_timer
  pending : c'.pending_adapter_calls ≡ c.pending_adapter_calls

connect-Rotated :
    (opts : Options) (explicit : Bool) (token : String) (c : Client)
    → is_allowed explicit (connect_url opts.gateway_url) ≡ true
    → Rotated c (connect (plan_connect opts explicit (some token)) (stop c).0).0
unfolding connect do_connect plan_connect stop close_ws clear_timers
connect-Rotated opts explicit token c allowed = rw allowed (record {
  ws = ground arith;
  stopped = refl;
  next_timer = ground arith;
  pending = ground arith;
})

connect-actions :
    (opts : Options) (explicit : Bool) (token : String) (c : Client)
    → is_allowed explicit (connect_url opts.gateway_url) ≡ true
    → (connect (plan_connect opts explicit (some token)) c).1
      ≡ open_socket c.next_socket (connect_url opts.gateway_url) token ∷ []
unfolding connect do_connect plan_connect
connect-actions opts explicit token c allowed = rw allowed refl

stop-next_socket : (c : Client) → (stop c).0.next_socket ≡ c.next_socket
unfolding stop close_ws clear_timers
stop-next_socket c = ground arith

-- The close event that follows `stop` and `connect` takes down the new connection's state: though
-- the client holds the new socket and is not stopped, every call that was pending is rejected,
-- after the new socket was opened and in the order in which they were made, the owner is told of a
-- loss, and a reconnect is armed that will dial once more. The URL is one that is allowed and that
-- `WebSocket` takes.
pub rotate_reconnects :
    (opts : Options) (explicit : Bool) (now s : ℕ) (token : String) (c : Client)
    → is_allowed explicit (connect_url opts.gateway_url) ≡ true
    → let (c', acts) = run opts explicit c (rotate_events now s token) in
      (acts
        ≡ (stop c).1
          ++ (open_socket c.next_socket (connect_url opts.gateway_url) token
                ∷ rejections c.pending_adapter_calls
              ++ (on_disconnected ∷ [])))
      × (c'.ws ≡ some c.next_socket)
      × (c'.stopped ≡ false)
      × (c'.pending_adapter_calls ≡ [])
      × (c'.reconnect_timer ≡ some c.next_timer)
      × (find_timer c.next_timer c'.timers ≡ some Timer.reconnect)
unfolding run step
rotate_reconnects opts explicit now s token c allowed =
    let c₂ = (connect (plan_connect opts explicit (some token)) (stop c).0).0 in
    let r = connect-Rotated opts explicit token c allowed in
    let h = on_close_lem now (set_ready s closed c₂) in
    let armed = h.8 r.stopped in
    (
      ap (λ x. (stop c).1 ++ (x ++ ((on_close now (set_ready s closed c₂)).1 ++ [])))
            (connect-actions opts explicit token (stop c).0 allowed
              ∙ ap (λ n. open_socket n (connect_url opts.gateway_url) token ∷ [])
                  (stop-next_socket c))
          ∙ ap
              (λ x.
                (stop c).1 ++ (open_socket c.next_socket (connect_url opts.gateway_url) token ∷ x))
              (append-nil (on_close now (set_ready s closed c₂)).1
                ∙ h.0
                ∙ ap (λ p. rejections p ++ (on_disconnected ∷ [])) r.pending),
      h.5 ∙ r.ws,
      h.6 ∙ r.stopped,
      h.1,
      armed.1 ∙ ap some r.next_timer,
      subst
          (λ t. find_timer t (on_close now (set_ready s closed c₂)).0.timers ≡ some Timer.reconnect)
          r.next_timer armed.2,
    )

-- The timer that waits for the handshake closes whatever socket the client holds when it fires:
-- one that was armed for an earlier socket closes the new one.
pub hello_closes_current :
    (opts : Options) (explicit : Bool) (now t s : ℕ) (c : Client)
    → find_timer t c.timers ≡ some Timer.hello
    → c.ws ≡ some s
    → c.ready s ≡ open_
    → let (c', acts) = step opts explicit now c (fires t) in
      (acts ≡ close_socket s 1008 ∷ []) × (c'.ready s ≡ closing)
unfolding step fire close_ws
hello_closes_current opts explicit now t s c armed held up =
    rw (armed, fire) (ground (arith, ==_refl s))
