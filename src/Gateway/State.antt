-- ===== src/Gateway/State.antt =====
-- The fields of `GatewayClient`, and what surrounds it: the sockets it has opened, and the timers
-- that are set. Socket and timer objects are numbers; a frame that came in is what `JSON.parse`
-- makes of it, `none` where it throws.
use kb_labs_host_agent.Common.{
  ℕ, ◌+◌, Bool, true, false, String, List, [], ◌∷◌, Option, none, ◌==◌, if◌then◌else◌,
}
use kb_labs_host_agent.Common.Json.{Json}
use kb_labs_host_agent.Common.Text.{Text}

abbrev pub heartbeat_interval_ms : ℕ
heartbeat_interval_ms = 30_000

abbrev pub hello_timeout_ms : ℕ
hello_timeout_ms = 5_000

abbrev pub backoff_initial_ms : ℕ
backoff_initial_ms = 1_000

abbrev pub backoff_max_ms : ℕ
backoff_max_ms = 60_000

abbrev pub default_adapter_call_timeout_ms : ℕ
default_adapter_call_timeout_ms = 30_000

-- `readyState` of a socket.
pub data Ready : Type 0 where
  connecting open_ closing closed : Ready

-- The callback of a timer, with what it closes over.
pub data Timer : Type 0 where
  heartbeat reconnect hello : Timer
  adapter_call : (request_id : String) (timeout_ms : ℕ) (adapter method : String) → Timer

-- A timer that is set: its number, its callback and its delay.
pub record Armed : Type 0 where
  pub id : ℕ
  pub kind : Timer
  pub delay : ℕ

pub record AdapterCallContext : Type 0 where
  pub namespace_id : String
  pub host_id : String
  pub workspace_id : Option String
  pub execution_request_id : Option String

pub record AdapterCallInput : Type 0 where
  pub adapter : String
  pub method : String
  pub args : List Json
  pub timeout : Option ℕ
  pub context : AdapterCallContext

-- The `result` of a response, or its `error`; `none` where the field is `undefined`.
pub record AdapterCallResponse : Type 0 where
  pub request_id : String
  pub result : Option Json
  pub error : Option Json

pub record Workspace : Type 0 where
  pub workspace_id : String
  pub repo_fingerprint : Option String
  pub branch : Option String

pub record Plugin : Type 0 where
  pub id : String
  pub version : String

pub record Options : Type 0 where
  pub gateway_url : Text
  pub agent_version : String
  pub capabilities : Option (List String)
  pub host_type : Option String
  pub workspaces : Option (List Workspace)
  pub plugins : Option (List Plugin)

-- Code and message of an error frame; none is retryable. The message of the first names the
-- adapter as it came.
pub data Failure : Type 0 where
  unknown_adapter : Option Json → Failure
  handler_error : String → Failure

-- What the client sends over the socket.
pub data Message : Type 0 where
  greeting :
      (agent_version : String) (host_id : Option String) (capabilities : List String)
      (host_type : Option String) (workspaces : Option (List Workspace))
      (plugins : Option (List Plugin))
      → Message
  beat : Message
  call_adapter : String → AdapterCallInput → Message
  -- Answers to a `call` frame, with its `requestId` as it came.
  chunk : Option Json → Json → Message
  result : Option Json → Message
  error : Option Json → Failure → Message

-- What makes a promise of the client reject, or an operation throw.
pub data Fault : Type 0 where
  not_connected disconnected : Fault
  timed_out : (timeout_ms : ℕ) (adapter method : String) → Fault
  insecure_url : Text → Fault
  rejected_url : Text → Fault
  no_access_token null_dereference : Fault

-- What an operation does to the outside, in order.
pub data Action : Type 0 where
  -- `new WebSocket(url)` with the token in its header.
  open_socket : (socket : ℕ) (url : Text) (token : String) → Action
  send_on : (socket : ℕ) → Message → Action
  close_socket : (socket code : ℕ) → Action
  -- The promise of an adapter call is settled.
  resolve : String → AdapterCallResponse → Action
  reject : String → Fault → Action
  -- A capability handler is called.
  invoke : (handler : ℕ) → Json → Action
  on_connected : (host_id : String) (session_id : Json) → Action
  on_disconnected on_token_expired : Action
  -- An exception leaves the operation.
  throws : Fault → Action

-- A handler is known by a number, a pending call by its request's id and its timer.
pub record Client : Type 0 where
  pub ws : Option ℕ
  pub heartbeat_timer : Option ℕ
  pub reconnect_timer : Option ℕ
  pub backoff_ms : ℕ
  pub stopped : Bool
  pub host_id : Option String
  pub reconnect_count : ℕ
  pub disconnected_at : Option ℕ
  pub handlers : List (String × ℕ)
  pub pending_adapter_calls : List (String × ℕ)
  -- The surroundings: each socket's `readyState`, the sockets on which the handshake's `once`
  -- listener waits, with the timer that it clears, the timers that are set, and how many
  -- reconnects await `onTokenExpired`.
  pub ready : ℕ → Ready
  pub next_socket : ℕ
  pub handshakes : List (ℕ × ℕ)
  pub timers : List Armed
  pub next_timer : ℕ
  pub awaiting_token : ℕ

abbrev pub initial : Client
initial = record {
  ws = none;
  heartbeat_timer = none;
  reconnect_timer = none;
  backoff_ms = backoff_initial_ms;
  stopped = false;
  host_id = none;
  reconnect_count = 0;
  disconnected_at = none;
  handlers = [];
  pending_adapter_calls = [];
  ready = λ _. closed;
  next_socket = 0;
  handshakes = [];
  timers = [];
  next_timer = 0;
  awaiting_token = 0;
}

abbrev pub is_open : Ready → Bool
is_open open_ = true
is_open _ = false

abbrev pub set_ready : ℕ → Ready → Client → Client
set_ready s r c = record c { ready = λ t. if t == s then r else c.ready t }

unfoldable pub disarm : ℕ → List Armed → List Armed
disarm t [] = []
disarm t (a ∷ more) = if a.id == t then disarm t more else a ∷ disarm t more

-- `clearTimeout(t)`.
abbrev pub clear_timer : ℕ → Client → Client
clear_timer t c = record c { timers = disarm t c.timers }

-- `setTimeout(kind, delay)`: the timer's number is `next_timer`.
abbrev pub set_timer : Timer → ℕ → Client → Client
set_timer kind delay c = record c {
  timers = record { id = c.next_timer; kind = kind; delay = delay } ∷ c.timers;
  next_timer = c.next_timer + 1;
}
