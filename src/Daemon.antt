-- ===== src/Daemon.antt =====
-- apps/host-agent-app/src/daemon.ts: how `startDaemon` joins the token manager and the gateway
-- client. The configuration is in Daemon/Config, the requests for tokens in Daemon/Tokens. The
-- client's `getAccessToken` is the manager's getter, and the manager's `onRefreshed` stops the
-- client and connects it again. Console output is left out.
pub mod Config
pub mod Registered
pub mod Tokens
pub mod Handlers
pub mod Rotation
pub mod Serving
pub mod Calls
pub mod Examples
use kb_labs_host_agent.Common.{
  ℕ, Bool, true, false, not, String, Option, none, some, List, [], ◌∷◌, ◌++◌, map, ◌==◌,
  if◌then◌else◌,
}
use kb_labs_host_agent.Common.Text.{codes}
use kb_labs_host_agent.Gateway.State
use kb_labs_host_agent.Gateway.State.{Client, Action, on_connected, on_disconnected, throws}
use kb_labs_host_agent.Gateway.Methods.{register_handler}
use kb_labs_host_agent.Gateway.Methods
use kb_labs_host_agent.Gateway.Events
use kb_labs_host_agent.Gateway.Events.{
  Event, connects_rejected, token_refreshed_rejected, connects, token_refreshed,
}
use kb_labs_host_agent.Ipc.{Status}
use kb_labs_host_agent.Token
use kb_labs_host_agent.Token.{
  Manager, TokenPair, Result, ok, err, disarm, start, access_token, do_refresh_request, do_refresh,
  Outcome, refreshed, retrying, gave_up,
}
use kb_labs_host_agent.Daemon.Config.{AgentConfig, HostType, local, cloud}

abbrev pub agent_version : String
agent_version = "0.1.0"

abbrev pub capabilities : List String
capabilities = "filesystem" ∷ "git" ∷ "execution" ∷ []

abbrev pub host_type_text : HostType → String
host_type_text local = "local"
host_type_text cloud = "cloud"

-- What the client is made with.
unfoldable pub gateway_options : AgentConfig → State.Options
gateway_options config = record {
  gateway_url = codes config.gateway_url;
  agent_version = agent_version;
  capabilities = some capabilities;
  host_type = some (host_type_text config.host_type);
  workspaces = none;
  plugins = none;
}

-- The handlers, each known by its place.
unfoldable pub registered : Client
registered = register_handler "execution" 3 (
    register_handler "shell" 2
      (register_handler "search" 1 (register_handler "filesystem" 0 State.initial)))

-- The options of the manager are its defaults.
abbrev pub token_options : Token.Options
token_options = Token.options none none

pub record Daemon : Type 0 where
  pub manager : Manager
  pub client : Client
  pub connected : Bool

-- What `startDaemon` has made before it awaits anything.
unfoldable pub created : Daemon
created = record { manager = Token.initial; client = registered; connected = false }

pub data DaemonAction : Type 0 where
  client_does : Action → DaemonAction
  requests_refresh : (refresh_token : String) → DaemonAction
  starts_ipc stops_background exits_with_failure exits : DaemonAction
  -- The promise of `startDaemon` rejects.
  start_rejects : DaemonAction

unfoldable pub ok_or_none : Result String → Option String
ok_or_none (ok t) = some t
ok_or_none (err e) = none

-- `getAccessToken`, which throws where the getter does.
unfoldable pub get_access_token : ℕ → Manager → Option String
unfolding ok_or_none
get_access_token now m = ok_or_none (access_token now m)

-- The callbacks `onConnected` and `onDisconnected`.
unfoldable pub after_action : Action → Bool → Bool
after_action (on_connected host session) connected = true
after_action on_disconnected connected = false
after_action _ connected = connected

unfoldable pub after_actions : List Action → Bool → Bool
after_actions [] connected = connected
after_actions (a ∷ as_) connected = after_actions as_ (after_action a connected)

-- What a method of the client leaves, and does.
unfoldable pub with_client : Daemon → Client × List Action → Daemon × List DaemonAction
with_client d (c, acts) =
    (record d { client = c; connected = after_actions acts d.connected }, map client_does acts)

-- The client's own events, with the token that `getAccessToken` gives at that time.
unfoldable pub with_token : Option String → Event → Event
with_token token (connects _) = connects token
with_token token (connects_rejected _) = connects_rejected token
with_token token (token_refreshed _) = token_refreshed token
with_token token (token_refreshed_rejected _) = token_refreshed_rejected token
with_token token e = e

pub data DaemonEvent : Type 0 where
  client_event : Event → DaemonEvent
  -- The manager's timer fires, and later the answer to its request comes.
  refresh_fires : (timer : ℕ) → DaemonEvent
  refresh_answers : Result TokenPair → DaemonEvent
  -- SIGTERM or SIGINT.
  signal : DaemonEvent

module _ (config : AgentConfig) (explicit : Bool) where
  unfoldable pub client_step : ℕ → Event → Daemon → Daemon × List DaemonAction
  client_step now e d = with_client d (
      Events.step (gateway_options config) explicit now d.client
        (with_token (get_access_token now d.manager) e))

  unfoldable pub then_step :
      Daemon × List DaemonAction
      → (Daemon → Daemon × List DaemonAction)
      → Daemon × List DaemonAction
  then_step (d, before) f = let (d', after) = f d in (d', before ++ after)

  -- `wsReconnect`: a rejection of `connect` is not awaited. `WebSocket` is taken to accept the URL,
  -- here and at the start.
  unfoldable pub ws_reconnect : ℕ → Daemon → Daemon × List DaemonAction
  ws_reconnect now d =
      then_step (client_step now Event.stops d) (λ d'. client_step now (connects none) d')

  unfoldable pub after_refresh : ℕ → Outcome → Daemon → Daemon × List DaemonAction
  after_refresh now (refreshed pair) d = ws_reconnect now d
  after_refresh now (retrying delay) d = (d, [])
  after_refresh now (gave_up e) d = (d, exits_with_failure ∷ [])

  unfoldable pub requested : Option String → List DaemonAction
  requested none = []
  requested (some t) = requests_refresh t ∷ []

  -- `shutdown`.
  unfoldable pub shutdown : ℕ → Daemon → Daemon × List DaemonAction
  shutdown now d =
      then_step (record d { manager = Token.stop d.manager }, stops_background ∷ [])
        (λ d'. then_step (client_step now Event.stops d') (λ d''. (d'', exits ∷ [])))

  unfoldable pub step : ℕ → DaemonEvent → Daemon → Daemon × List DaemonAction
  step now (client_event e) d = client_step now e d
  step now (refresh_fires t) d = (
    record d { manager = record d.manager { armed = disarm t d.manager.armed } },
    requested (do_refresh_request d.manager),
  )
  step now (refresh_answers answer) d =
      let (m, outcome) = do_refresh token_options now d.manager answer none in
      after_refresh now outcome (record d { manager = m })
  step now signal d = shutdown now d

  unfoldable pub run : List (ℕ × DaemonEvent) → Daemon → Daemon
  run [] d = d
  run ((now, e) ∷ es) d = run es (step now e d).0

  unfoldable pub has_thrown : List Action → Bool
  has_thrown [] = false
  has_thrown (throws f ∷ as_) = true
  has_thrown (a ∷ as_) = has_thrown as_

  -- The end of the start: a client that does not connect rejects it, before the IPC server starts.
  unfoldable pub connect_first : ℕ → Daemon → Daemon × List DaemonAction
  connect_first now d =
      let (c, acts) =
        Events.step (gateway_options config) explicit now d.client
          (connects (get_access_token now d.manager)) in
      then_step (with_client d (c, acts))
        (λ d'. (d', if has_thrown acts then start_rejects ∷ [] else starts_ipc ∷ []))

  unfoldable pub started_with : ℕ → Manager × Result String → Daemon → Daemon × List DaemonAction
  started_with now (m, err e) d = (record d { manager = m }, start_rejects ∷ [])
  started_with now (m, ok t) d = connect_first now (record d { manager = m })

  -- `startDaemon` from `tokenManager.start` on; `answer` is that of `fetchTokens`.
  unfoldable pub start_daemon : ℕ → Result TokenPair → Daemon → Daemon × List DaemonAction
  start_daemon now answer d = started_with now (start token_options now d.manager answer) d

  -- `getStatus` of the IPC server.
  unfoldable pub get_status : Daemon → Status
  get_status d = record {
    connected = d.connected;
    host_id = some config.host_id;
    gateway_url = some config.gateway_url;
    reconnecting = not d.connected;
  }
