-- ===== src/Local.antt =====
-- packages/host-agent-transport/src/tcp.ts, unix-socket.ts, named-pipe.ts and auto.ts: the three
-- classes of local transports, which share all but their addresses, and `createTransport`. Sockets
-- are numbers; the framers of the connections are a function of their sockets.
pub mod Sockets
pub mod Examples
use kb_labs_host_agent.Common.{
  ℕ, ◌*◌, Bool, true, false, String, Option, none, some, List, [], ◌∷◌, ◌++◌, ◌==◌, str_eq,
  if◌then◌else◌,
}
use kb_labs_host_agent.Common.Text.{Text}
use kb_labs_host_agent.Ndjson.{Chunk, Framer, feed, reset}

pub data Address : Type 0 where
  tcp : (port : ℕ) (host : String) → Address
  unix : (socket_path : String) → Address
  named_pipe : (path : String) → Address

pub data Mode : Type 0 where
  unix_mode named_pipe_mode tcp_mode auto : Mode

pub record TransportConfig : Type 0 where
  pub mode : Mode
  pub socket_path : Option String
  pub pipe_name : Option String
  pub port : Option ℕ
  pub host : Option String

abbrev pub or_default {ℓ} : {A : Type ℓ} → Option A → A → A
or_default none d = d
or_default (some a) d = a

abbrev default_pipe_name : String
default_pipe_name = "kb-agent"

abbrev default_tcp_port : ℕ
default_tcp_port = 7779

abbrev default_tcp_host : String
default_tcp_host = "127.0.0.1"

-- The mode that `auto` stands for.
unfoldable pub mode_on : (is_windows : Bool) → Mode → Mode
mode_on true auto = named_pipe_mode
mode_on false auto = unix_mode
mode_on is_windows mode = mode

of_mode :
    (default_socket_path : String)
    → (pipe_path : String → String) → TransportConfig
    → Mode
    → Option Address
of_mode path pipe config unix_mode = some (unix (or_default config.socket_path path))
of_mode path pipe config named_pipe_mode =
    some (named_pipe (pipe (or_default config.pipe_name default_pipe_name)))
of_mode path pipe config tcp_mode =
    some (tcp (or_default config.port default_tcp_port) (or_default config.host default_tcp_host))
of_mode path pipe config auto = none

-- `createTransport`, with `~/.kb/agent.sock` and `pipePath` as arguments; `none` where it throws.
unfoldable pub create_transport :
    String → (String → String) → (is_windows : Bool) → TransportConfig → Option Address
unfolding of_mode
create_transport path pipe is_windows config =
    of_mode path pipe config (mode_on is_windows config.mode)

pub data Action : Type 0 where
  unlinks : (path : String) → Action
  listens connects : Address → Action
  chmods : (path : String) → (mode : ℕ) → Action
  destroys : (socket : ℕ) → Action
  closes_server : Action

-- 0o600.
abbrev pub owner_only : ℕ
owner_only = 6 * 8 * 8

unfoldable pub listen_tcp : ℕ → String → List Action
listen_tcp port host = listens (tcp port host) ∷ []

-- A stale socket is removed first; whether that fails makes no difference.
unfoldable pub listen_unix : String → List Action
listen_unix path = unlinks path ∷ listens (unix path) ∷ chmods path owner_only ∷ []

unfoldable pub listen_pipe : String → List Action
listen_pipe path = listens (named_pipe path) ∷ []

pub record LocalTransport : Type 0 where
  pub server : Bool
  pub socket : Option ℕ
  pub has_handler : Bool
  pub framers : ℕ → Framer

unfoldable pub set_framer : ℕ → Framer → (ℕ → Framer) → ℕ → Framer
set_framer s f framers k = if s == k then f else framers k

-- `setupSocket`: a framer for the socket.
unfoldable pub setup_socket : ℕ → LocalTransport → LocalTransport
setup_socket s t = record t { framers = set_framer s (record { buffer = [] }) t.framers }

-- `handleConnection`, on the server.
unfoldable pub handle_connection : ℕ → LocalTransport → LocalTransport
handle_connection conn t = setup_socket conn (record t { socket = some conn })

-- `connect`, on the client; the socket is there before it is connected.
unfoldable pub connect : Address → ℕ → LocalTransport → LocalTransport × List Action
connect address s t = (setup_socket s (record t { socket = some s }), connects address ∷ [])

unfoldable pub on_message : LocalTransport → LocalTransport
on_message t = record t { has_handler = true }

destroyed : Option ℕ → List Action
destroyed none = []
destroyed (some s) = destroys s ∷ []

closed_server : Bool → List Action
closed_server true = closes_server ∷ []
closed_server false = []

unfoldable pub close : LocalTransport → LocalTransport × List Action
unfolding destroyed closed_server
close t = (record t { socket = none; server = false }, destroyed t.socket ++ closed_server t.server)

-- `send`: the socket that the message is written to, if it is not destroyed.
unfoldable pub send : LocalTransport → Option ℕ
send t = t.socket

-- The `close` event of a socket.
unfoldable pub on_close : ℕ → LocalTransport → LocalTransport
on_close s t = record t { framers = set_framer s (reset (t.framers s)) t.framers }

module _ {ℓ} {M : Type ℓ} (parse : Text → Option M) where
  -- The `data` event of a socket: the messages that the handler gets, if there is one, and whether
  -- the socket stays.
  unfoldable pub on_data : ℕ → Chunk → LocalTransport → LocalTransport × (List M × Bool)
  on_data s chunk t =
      let (f, (messages, ok)) = feed parse chunk (t.framers s) in
      (
        record t { framers = set_framer s f t.framers },
        (if t.has_handler then messages else [], ok),
      )
