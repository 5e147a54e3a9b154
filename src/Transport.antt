-- ===== src/Transport.antt =====
-- packages/host-agent-core/src/transport/gateway-transport.ts: the class `GatewayTransport`. The
-- call goes to `GatewayClient.sendAdapterCall`, which Gateway/Methods models; here it is what the
-- transport asks of it, and how it reads the response.
pub mod Laws
pub mod Examples
use kb_labs_host_agent.Common.{
  ℕ, Bool, true, false, not, String, Option, none, some, List, [], ◌∷◌, str_eq, ◌==◌, if◌then◌else◌,
}
use kb_labs_host_agent.Common.Json.{Json, null, bool, num, str, arr, obj}
use kb_labs_host_agent.Gateway.State.{AdapterCallInput, AdapterCallContext, AdapterCallResponse}

pub record AdapterCall : Type 0 where
  pub request_id : String
  pub adapter : String
  pub method : String
  pub args : List Json
  pub timeout : Option ℕ
  -- `context?.executionId`; the other fields are not read.
  pub execution_id : Option String

-- `none` where the field is missing, or `undefined`.
pub record AdapterResponse : Type 0 where
  pub request_id : String
  pub result : Option Json
  pub error : Option Json

pub record DefaultContext : Type 0 where
  pub namespace_id : String
  pub host_id : String
  pub workspace_id : Option String

pub record GatewayTransport : Type 0 where
  pub closed : Bool
  pub default_context : DefaultContext

unfoldable pub new : DefaultContext → GatewayTransport
new context = record { closed = false; default_context = context }

-- What `send` does first: it throws, or asks the client.
pub data Sent : Type 0 where
  throws_closed : Sent
  asks : AdapterCallInput → Sent

unfoldable pub call_input : DefaultContext → AdapterCall → AdapterCallInput
call_input context call = record {
  adapter = call.adapter;
  method = call.method;
  args = call.args;
  timeout = call.timeout;
  context = record {
    namespace_id = context.namespace_id;
    host_id = context.host_id;
    workspace_id = context.workspace_id;
    execution_request_id = call.execution_id;
  };
}

unfoldable pub send : AdapterCall → GatewayTransport → Sent
send call t = if t.closed then throws_closed else asks (call_input t.default_context call)

-- Whether a value counts as true in a condition.
unfoldable pub is_truthy : Option Json → Bool
is_truthy none = false
is_truthy (some null) = false
is_truthy (some (bool b)) = b
is_truthy (some (num n)) = not (n == 0)
is_truthy (some (str s)) = not (str_eq s "")
is_truthy (some (arr vs)) = true
is_truthy (some (obj fs)) = true

-- The end of `send`: the response of the client as one of the transport.
unfoldable pub map_response : AdapterCallResponse → AdapterResponse
map_response r =
    if is_truthy r.error
    then record { request_id = r.request_id; result = none; error = r.error }
    else record { request_id = r.request_id; result = r.result; error = none }

unfoldable pub close : GatewayTransport → GatewayTransport
close t = record t { closed = true }

unfoldable pub is_closed : GatewayTransport → Bool
is_closed t = t.closed
