-- ===== src/Ipc.antt =====
-- packages/host-agent-core/src/ipc/ipc-server.ts: the class `IpcServer`, with the request schemas of
-- packages/host-agent-contracts/src/ipc.ts. The local transport and the gateway client are outside:
-- what the server asks of them is an action, and the callbacks of a tunnel are events.
pub mod Requests
pub mod Ends
pub mod Relay
pub mod Examples
use kb_labs_host_agent.Common.{
  ℕ, Bool, true, false, String, Option, none, some, List, [], ◌∷◌, str_eq, if◌then◌else◌,
}
use kb_labs_host_agent.Common.Json.{
  Json, null, bool, num, str, arr, obj, Fields, end, field, get, as_text,
}

pub record IpcExecuteRequest : Type 0 where
  pub request_id : String
  pub command : String
  pub params : Option Fields
  pub stream : Bool

pub record IpcCancelRequest : Type 0 where
  pub execution_id : String
  pub reason : String

pub data IpcRequest : Type 0 where
  execute_request : IpcExecuteRequest → IpcRequest
  cancel_request : IpcCancelRequest → IpcRequest
  status_request : IpcRequest

-- What `getStatus` returns.
pub record Status : Type 0 where
  pub connected : Bool
  pub host_id : Option String
  pub gateway_url : Option String
  pub reconnecting : Bool

-- `z.record(z.unknown()).optional()`.
unfoldable pub optional_record : Option Json → Option (Option Fields)
optional_record none = some none
optional_record (some (obj fs)) = some (some fs)
optional_record (some _) = none

-- `z.boolean().default(b)`.
unfoldable pub default_bool : Bool → Option Json → Option Bool
default_bool b none = some b
default_bool b (some (bool c)) = some c
default_bool b (some _) = none

-- `z.string().default(s)`.
unfoldable pub default_text : String → Option Json → Option String
default_text s none = some s
default_text s (some (str t)) = some t
default_text s (some _) = none

execute_of :
    Option String → Option String → Option (Option Fields) → Option Bool → Option IpcRequest
execute_of (some request_id) (some command) (some params) (some stream) = some (
    execute_request
      (record { request_id = request_id; command = command; params = params; stream = stream }))
execute_of _ _ _ _ = none

-- `IpcExecuteRequestSchema`, on an object whose type is `execute`.
unfoldable pub parse_execute : Json → Option IpcRequest
unfolding execute_of
parse_execute raw =
    execute_of (as_text (get raw "requestId")) (as_text (get raw "command"))
      (optional_record (get raw "params")) (default_bool false (get raw "stream"))

cancel_of : Option String → Option String → Option IpcRequest
cancel_of (some id) (some reason) =
    some (cancel_request (record { execution_id = id; reason = reason }))
cancel_of _ _ = none

-- `IpcCancelRequestSchema`, on an object whose type is `cancel`.
unfoldable pub parse_cancel : Json → Option IpcRequest
unfolding cancel_of
parse_cancel raw =
    cancel_of (as_text (get raw "executionId")) (default_text "user" (get raw "reason"))

parse_typed : Option String → Json → Option IpcRequest
parse_typed none raw = none
parse_typed (some type) raw =
    if str_eq type "status"
    then some status_request
    else if str_eq type "execute"
    then parse_execute raw
    else if str_eq type "cancel"
    then parse_cancel raw
    else none

-- `parseRequest`. A value that is no object, or has no `type`, gives `none`.
unfoldable pub parse_request : Json → Option IpcRequest
unfolding parse_typed
parse_request raw = parse_typed (as_text (get raw "type")) raw

-- What the server sends.
pub data IpcResponse : Type 0 where
  status : Status → IpcResponse
  event done : (request_id : String) → Json → IpcResponse
  error : (request_id code message : String) → IpcResponse

pub data Action : Type 0 where
  warns : Json → Action
  sends : IpcResponse → Action
  tunnels : IpcExecuteRequest → Action
  cancels : (execution_id reason : String) → Action

abbrev pub no_gateway : String
no_gateway = "GatewayClient not configured — cannot tunnel execute requests"

-- `handleExecute`.
unfoldable pub handle_execute : (has_gateway : Bool) → IpcExecuteRequest → List Action
handle_execute false req = sends (error req.request_id "NO_GATEWAY" no_gateway) ∷ []
handle_execute true req = tunnels req ∷ []

-- `handleCancel`.
unfoldable pub handle_cancel : (has_gateway : Bool) → IpcCancelRequest → List Action
handle_cancel false req = []
handle_cancel true req = cancels req.execution_id req.reason ∷ []

handle_request : Option IpcRequest → Bool → Status → Json → List Action
handle_request none has_gateway now raw = warns raw ∷ []
handle_request (some status_request) has_gateway now raw = sends (status now) ∷ []
handle_request (some (cancel_request req)) has_gateway now raw = handle_cancel has_gateway req
handle_request (some (execute_request req)) has_gateway now raw = handle_execute has_gateway req

-- `handleMessage`; `now` is what `getStatus` returns.
unfoldable pub handle_message : Bool → Status → Json → List Action
unfolding handle_request
handle_message has_gateway now raw = handle_request (parse_request raw) has_gateway now raw

-- A callback of the tunnel of a request.
pub data Tunnelled : Type 0 where
  on_event on_done : Json → Tunnelled
  on_error : (message : String) → Tunnelled

unfoldable pub callback : String → Tunnelled → IpcResponse
callback request_id (on_event e) = event request_id e
callback request_id (on_done result) = done request_id result
callback request_id (on_error message) = error request_id "TUNNEL_ERROR" message

-- The messages as they stand on the wire.
abbrev pub text_fields : String → Option String → Fields → Fields
text_fields key none fs = fs
text_fields key (some s) fs = field key (str s) fs

unfoldable pub to_json : IpcResponse → Json
to_json (status now) = obj (
    field "type" (str "status") (
      field "connected" (bool now.connected) (
        text_fields "hostId" now.host_id (
          text_fields "gatewayUrl" now.gateway_url
            (field "reconnecting" (bool now.reconnecting) end)))))
to_json (event id d) =
    obj (field "type" (str "event") (field "requestId" (str id) (field "data" d end)))
to_json (done id result) =
    obj (field "type" (str "done") (field "requestId" (str id) (field "result" result end)))
to_json (error id code message) = obj (
    field "type" (str "error")
      (field "requestId" (str id) (field "code" (str code) (field "message" (str message) end))))
