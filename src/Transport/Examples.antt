-- ===== src/Transport/Examples.antt =====
-- Tests of the transport, and its theorems at concrete inputs.
use kb_labs_host_agent.Common.{◌≡◌, refl, none, some, [], ◌∷◌}
use kb_labs_host_agent.Common.Json.{str}
use kb_labs_host_agent.Transport.{AdapterCall, DefaultContext, new, send, asks, call_input}

abbrev context : DefaultContext
context = record { namespace_id = "n"; host_id = "h"; workspace_id = none }

abbrev call : AdapterCall
call = record {
  request_id = "r";
  adapter = "llm";
  method = "complete";
  args = str "hi" ∷ [];
  timeout = some 5;
  execution_id = some "x";
}

send_test : send call (new context) ≡ asks (call_input context call)
unfolding send new
send_test = refl
