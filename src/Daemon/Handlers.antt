-- ===== src/Daemon/Handlers.antt =====
-- Which calls of the gateway the daemon serves.
use kb_labs_host_agent.Common.{
  ℕ, Bool, ◌≡◌, refl, ap, ◌∙◌, String, Option, none, some, List, [], ◌∷◌, All, str_eq,
  if◌then◌else◌, Option-cases, inl, inr,
}
use kb_labs_host_agent.Common.Dict.{lookup, insert}
use kb_labs_host_agent.Common.Json.{Json, str, get}
use kb_labs_host_agent.Gateway.State.{Client, Action, invoke, error, unknown_adapter}
use kb_labs_host_agent.Gateway.Methods.{on_message, send, register_handler}
use kb_labs_host_agent.Gateway.Events.{
  Event, connects_rejected, token_refreshed_rejected, registers, sends_call, connects, stops,
  opened, received, lost, fires, token_refreshed, returned, threw,
}
use kb_labs_host_agent.Gateway.Handlers.{IsOther, step-handlers}
use kb_labs_host_agent.Gateway.Frames.{HasType, on_message_call}
use kb_labs_host_agent.Token.{
  Result, TokenPair, Manager, ok, err, Outcome, refreshed, retrying, gave_up,
}
use kb_labs_host_agent.Daemon.Config.{AgentConfig}
use kb_labs_host_agent.Daemon.{
  Daemon, DaemonEvent, client_event, refresh_fires, refresh_answers, signal, created, registered,
  step, run, start_daemon, started_with, connect_first, then_step, client_step, with_client,
  with_token, ws_reconnect, after_refresh, shutdown, gateway_options, get_access_token,
}

-- The place of the handler of an adapter.
unfoldable pub place : String → Option ℕ
place adapter =
    if str_eq "filesystem" adapter
    then some 0
    else if str_eq "search" adapter
    then some 1
    else if str_eq "shell" adapter
    then some 2
    else if str_eq "execution" adapter
    then some 3
    else none

registered-place : (adapter : String) → lookup adapter registered.handlers ≡ place adapter
unfolding place registered register_handler lookup insert
registered-place adapter = refl

-- What the client does for a call, by the place of the handler.
abbrev pub answer_to : Option ℕ → String → Json → Client → List Action
answer_to none adapter msg c =
    send c (error (get msg "requestId") (unknown_adapter (some (str adapter))))
answer_to (some handler) adapter msg c = invoke handler msg ∷ []

served :
    (c : Client) (msg : Json) (adapter : String)
    → c.handlers ≡ registered.handlers
    → HasType msg "call"
    → get msg "adapter" ≡ some (str adapter)
    → on_message (some msg) c ≡ (c, answer_to (place adapter) adapter msg c)
served c msg adapter same call named =
    let found = ap (lookup adapter) same ∙ registered-place adapter in
    let (known, unknown) = on_message_call c msg adapter call named in
    elim (Option-cases (place adapter)) [
      | inl absent ↦ rw absent (unknown (found ∙ absent))
      | inr (handler, at) ↦ rw at (known handler (found ∙ at))
    ]

-- The client has the handlers that the daemon registered.
abbrev Serves : Daemon → Type 0
Serves d = d.client.handlers ≡ registered.handlers

-- No event registers a handler.
abbrev pub IsCalm : DaemonEvent → Type 0
IsCalm (client_event e) = IsOther e
IsCalm _ = Unit

with_token-IsOther : (token : Option String) (e : Event) → IsOther e → IsOther (with_token token e)
unfolding with_token
with_token-IsOther token (registers a n) h = h
with_token-IsOther token (sends_call id call) h = h
with_token-IsOther token (connects t) h = tt
with_token-IsOther token (connects_rejected t) h = tt
with_token-IsOther token stops h = h
with_token-IsOther token (opened s) h = h
with_token-IsOther token (received s f) h = h
with_token-IsOther token (lost s) h = h
with_token-IsOther token (fires t) h = h
with_token-IsOther token (token_refreshed t) h = tt
with_token-IsOther token (token_refreshed_rejected t) h = tt
with_token-IsOther token (returned id v) h = h
with_token-IsOther token (threw id m) h = h

module _ (config : AgentConfig) (explicit : Bool) where
  client-Serves :
      (now : ℕ) (e : Event) (d : Daemon)
      → IsOther e
      → Serves d
      → Serves (client_step config explicit now e d).0
  unfolding client_step with_client
  client-Serves now e d other h =
      step-handlers (gateway_options config) explicit now d.client
        (with_token (get_access_token now d.manager) e)
        (with_token-IsOther (get_access_token now d.manager) e other)
      ∙ h

  reconnect-Serves :
      (now : ℕ) (d : Daemon) → Serves d → Serves (ws_reconnect config explicit now d).0
  unfolding ws_reconnect then_step
  reconnect-Serves now d h = client-Serves now (connects none) _ tt (client-Serves now stops d tt h)

  refresh-Serves :
      (now : ℕ) (o : Outcome) (d : Daemon)
      → Serves d
      → Serves (after_refresh config explicit now o d).0
  unfolding after_refresh
  refresh-Serves now (refreshed pair) d h = reconnect-Serves now d h
  refresh-Serves now (retrying delay) d h = h
  refresh-Serves now (gave_up e) d h = h

  step-Serves :
      (now : ℕ) (e : DaemonEvent) (d : Daemon)
      → IsCalm e
      → Serves d
      → Serves (step config explicit now e d).0
  unfolding step shutdown then_step
  step-Serves now (client_event e) d calm h = client-Serves now e d calm h
  step-Serves now (refresh_fires t) d calm h = h
  step-Serves now (refresh_answers answer) d calm h = refresh-Serves now _ _ h
  step-Serves now signal d calm h = client-Serves now stops _ tt h

  run-Serves :
      (es : List (ℕ × DaemonEvent)) (d : Daemon)
      → All (λ x. IsCalm x.1) es
      → Serves d
      → Serves (run config explicit es d)
  unfolding run
  run-Serves [] d calm h = h
  run-Serves ((now, e) ∷ es) d (calm, more) h = run-Serves es _ more (step-Serves now e d calm h)

  started-Serves :
      (now : ℕ) (started : Manager × Result String) (d : Daemon)
      → Serves d
      → Serves (started_with config explicit now started d).0
  unfolding started_with connect_first then_step with_client
  started-Serves now (m, err e) d h = h
  started-Serves now (m, ok t) d h =
      step-handlers (gateway_options config) explicit now d.client
        (connects (get_access_token now m)) tt
      ∙ h

  -- However the daemon starts, and whatever events come after it, of the client, of the token
  -- manager and of the process, in any order: a `call` frame for `filesystem`, `search`, `shell` or
  -- `execution` reaches the handler that was registered for it, and one for any other adapter, also
  -- for `git`, which the daemon tells the gateway among its capabilities, is answered with an error.
  pub daemon_serves :
      (now : ℕ) (answer : Result TokenPair) (es : List (ℕ × DaemonEvent)) (msg : Json)
      (adapter : String)
      → All (λ x. IsCalm x.1) es
      → HasType msg "call"
      → get msg "adapter" ≡ some (str adapter)
      → let c =
          (run config explicit es (start_daemon config explicit now answer created).0).client in
        on_message (some msg) c ≡ (c, answer_to (place adapter) adapter msg c)
  unfolding start_daemon created
  daemon_serves now answer es msg adapter calm call named =
      served (run config explicit es (start_daemon config explicit now answer created).0).client msg
        adapter (run-Serves es _ calm (started-Serves now _ created refl)) call named
