-- ===== src/HostClient.antt =====
-- packages/host-agent-client/src/client.ts: the class `HostAgentClient`. The local transport is
-- outside: what the client asks of it is an action, and what it delivers is an event. The random
-- request ids are arguments. An async generator is a stream with its queue, which `pull` reads; the
-- wake-up of a reader that waits is left out.
pub mod Streams
pub mod Requests
pub mod Examples
use kb_labs_host_agent.Common.{
  ℕ, ◌+◌, String, Bool, true, false, not, ◌&&◌, ◌||◌, Option, none, some, List, [], ◌∷◌, ◌++◌,
  str_eq, if◌then◌else◌,
}
use kb_labs_host_agent.Common.Dict.{lookup, insert, remove}
use kb_labs_host_agent.Common.Json.{Json, null, str, obj, arr, end, field, get, as_text}

-- `events` is `null` for a status request.
pub data Kind : Type 0 where
  status_call execute_call : Kind

pub data Error : Type 0 where
  closed status_timed_out : Error
  execute_timed_out : (command : String) → Error
  failed : (message : String) → Error

-- The variables of the generator that `execute` is.
pub record Stream : Type 0 where
  pub command : String
  pub queue : List (Option Json)
  pub done : Bool
  pub error : Option Error

pub record Client : Type 0 where
  pub timeout : ℕ
  pub pending : List (String × Kind)
  pub connected : Bool
  -- The generators that the callers hold, by request id.
  pub streams : List (String × Stream)
  -- The timers that run, by request id, with their times.
  pub armed : List (String × ℕ)

pub data Action : Type 0 where
  registers_handler connects_transport closes_transport : Action
  sends_status : (id : String) → Action
  sends_execute : (id command : String) → Json → Action
  resolves : (id : String) → Option Json → Action
  rejects : (id : String) → Error → Action

abbrev pub default_timeout_ms : ℕ
default_timeout_ms = 10_000

unfoldable pub new : Option ℕ → Client
new timeout = record {
  timeout = elim timeout [ none ↦ default_timeout_ms | some ms ↦ ms ];
  pending = [];
  connected = false;
  streams = [];
  armed = [];
}

-- `connect`; `accepted` is whether the transport's promise resolves.
unfoldable pub connect : (accepted : Bool) → Client → Client × List Action
connect true c = (record c { connected = true }, registers_handler ∷ connects_transport ∷ [])
connect false c = (c, registers_handler ∷ connects_transport ∷ [])

unfoldable pub change : (Stream → Stream) → String → List (String × Stream) → List (String × Stream)
change f id [] = []
change f id ((k, s) ∷ rest) = (k, if str_eq k id then f s else s) ∷ change f id rest

abbrev pub finished : Option Error → Stream → Stream
finished none s = record s { done = true }
finished (some e) s = record s { done = true; error = some e }

-- `pending.resolve(value)` of a request of either kind.
unfoldable pub resolve : Kind → String → Option Json → Client → Client × List Action
resolve status_call id v c = (c, resolves id v ∷ [])
resolve execute_call id v c = (record c { streams = change (finished none) id c.streams }, [])

unfoldable pub reject : Kind → String → Error → Client → Client × List Action
reject status_call id e c = (c, rejects id e ∷ [])
reject execute_call id e c = (record c { streams = change (finished (some e)) id c.streams }, [])

-- The loop of `close` over the requests that wait.
unfoldable pub reject_each : List (String × Kind) → Client → Client × List Action
reject_each [] c = (c, [])
reject_each ((id, kind) ∷ rest) c =
    let (c1, actions) = reject kind id closed (record c { armed = remove id c.armed }) in
    let (c2, more) = reject_each rest c1 in (c2, actions ++ more)

unfoldable pub close : Client → Client × List Action
close c =
    let (c1, actions) = reject_each c.pending (record c { connected = false }) in
    (record c1 { pending = [] }, actions ++ (closes_transport ∷ []))

-- `status`, up to its promise; `now` is the time of the call.
unfoldable pub status : ℕ → String → Client → Client × List Action
status now id c = (
  record c {
    pending = insert id status_call c.pending;
    armed = insert id (now + c.timeout) c.armed;
  },
  sends_status id ∷ [],
)

-- The first `next()` of the generator, up to its loop.
unfoldable pub execute : ℕ → String → String → Json → Client → Client × List Action
execute now id command params c = (
  record c {
    pending = insert id execute_call c.pending;
    armed = insert id (now + c.timeout) c.armed;
    streams =
        insert id (record { command = command; queue = []; done = false; error = none }) c.streams;
  },
  sends_execute id command params ∷ [],
)

-- What the loop of the generator comes to when its reader asks.
pub data Pull : Type 0 where
  yields : Option Json → Pull
  waits returns : Pull
  throws : Error → Pull

unfoldable pub ended : Option Error → Pull
ended none = returns
ended (some e) = throws e

unfoldable pub pull : Stream → Stream × Pull
unfolding ended
pull s = elim s.queue [
  | v ∷ rest ↦ (record s { queue = rest }, yields v)
  | [] ↦ (s, if s.done then ended s.error else waits)
]

-- The timer of a request, which still waits: only that of `status` takes the request out.
unfoldable pub fire_kind : Kind → String → Client → Client × List Action
fire_kind status_call id c =
    (record c { pending = remove id c.pending }, rejects id status_timed_out ∷ [])
fire_kind execute_call id c = (
  record c { streams = change (λ s. finished (some (execute_timed_out s.command)) s) id c.streams },
  [],
)

unfoldable pub fire : String → Kind → Client → Client × List Action
unfolding fire_kind
fire id kind c = fire_kind kind id (record c { armed = remove id c.armed })

unfoldable pub is_object : Json → Bool
is_object (obj fs) = true
is_object (arr vs) = true
is_object _ = false

is_text : Option String → String → Bool
is_text none t = false
is_text (some s) t = str_eq s t

unfoldable pub type_is : Json → String → Bool
unfolding is_text
type_is msg t = is_text (as_text (get msg "type")) t

-- A request that is answered leaves the map, with its timer.
abbrev pub taken : String → Client → Client
taken id c = record c { pending = remove id c.pending; armed = remove id c.armed }

-- The answer to a status request goes to the first one that waits.
unfoldable pub answer_status : List (String × Kind) → Json → Client → Client × List Action
answer_status [] msg c = (c, [])
answer_status ((id, status_call) ∷ rest) msg c = resolve status_call id (some msg) (taken id c)
answer_status ((id, execute_call) ∷ rest) msg c = answer_status rest msg c

abbrev pub pushed : Option Json → Stream → Stream
pushed v s = record s { queue = s.queue ++ (v ∷ []) }

unfoldable pub push : Kind → String → Option Json → Client → Client × List Action
push status_call id v c = (c, [])
push execute_call id v c = (record c { streams = change (pushed v) id c.streams }, [])

unfoldable pub error_message : Option String → String
error_message none = "Unknown error"
error_message (some m) = m

unfoldable pub answer : Option Kind → String → Json → Client → Client × List Action
unfolding push error_message
answer none id msg c = (c, [])
answer (some kind) id msg c =
    if type_is msg "event"
    then push kind id (get msg "data") c
    else if type_is msg "done"
    then resolve kind id (get msg "result") (taken id c)
    else if type_is msg "error"
    then reject kind id (failed (error_message (as_text (get msg "message")))) (taken id c)
    else (c, [])

-- A request id that is missing, no text or empty is none.
unfoldable pub with_id : Option String → Json → Client → Client × List Action
with_id none msg c = (c, [])
with_id (some id) msg c = if str_eq id "" then (c, []) else answer (lookup id c.pending) id msg c

unfoldable pub handle_message : Json → Client → Client × List Action
unfolding is_object with_id
handle_message msg c =
    if not (is_object msg)
    then (c, [])
    else if type_is msg "status"
    then answer_status c.pending msg c
    else with_id (as_text (get msg "requestId")) msg c

-- The messages of the two requests.
abbrev pub status_json : String → Json
status_json id = obj (field "type" (str "status") (field "requestId" (str id) end))

abbrev pub execute_json : String → String → Json → Json
execute_json id command params = obj (
    field "type" (str "execute")
      (field "requestId" (str id) (field "command" (str command) (field "params" params end))))
