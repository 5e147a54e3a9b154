-- ===== src/Gateway/Tunnel.antt =====
-- packages/host-agent-core/src/ws/gateway-client.ts: `executeTunnel`, `doExecuteHttp` and
-- `cancelExecute`, which speak HTTP with the gateway. The network is outside: what `fetch` and the
-- reader of the body give is an argument, a chunk as the text that the decoder makes of it, and so
-- is `JSON.parse`.
pub mod Lines
pub mod Examples
use kb_labs_host_agent.Common.{
  ℕ, ◌+◌, Bool, true, false, not, ◌&&◌, ◌||◌, String, Option, none, some, List, [], ◌∷◌, ◌++◌,
  str_eq, ◌==◌, if◌then◌else◌,
}
use kb_labs_host_agent.Common.Json.{Json, null, obj, end, get, as_text}
use kb_labs_host_agent.Common.Text.{Text, codes, is_space, trim}
use kb_labs_host_agent.Ndjson.{cut}

pub data TunnelError : Type 0 where
  http_status : ℕ → String → TunnelError
  no_body : TunnelError
  thrown : String → TunnelError

-- The callbacks of the caller, as they are called.
pub data Callback : Type 0 where
  on_event on_done : Json → Callback
  on_error : TunnelError → Callback

abbrev pub colon : ℕ
colon = 58

-- The text before the first colon and that behind it.
unfoldable pub at_colon : Text → Option (Text × Text)
at_colon [] = none
at_colon (c ∷ cs) =
    let more = at_colon cs in
    if c == colon
    then some ([], cs)
    else elim more [ none ↦ none | some (before, after) ↦ some (c ∷ before, after) ]

unfoldable pub split_at : Option (Text × Text) → Text → Text × Text
split_at none command = (command, command)
split_at (some ([], after)) command = (command, command)
split_at (some (c ∷ before, after)) command = (c ∷ before, after)

-- `pluginId` and `handlerRef` of a command: a colon at its start does not count, and hides others.
unfoldable pub split_command : Text → Text × Text
split_command command = split_at (at_colon command) command

-- `v ?? d`, where `v` may be `undefined`.
unfoldable pub or_else : Option Json → Json → Json
or_else none d = d
or_else (some null) d = d
or_else (some v) d = v

pub record ExecuteBody : Type 0 where
  pub plugin_id : Text
  pub handler_ref : Text
  -- `none` where the parameters name none: the handler.
  pub export_name : Option Json
  pub input : Json
  pub timeout_ms : Option Json

given : Option Json → Option Json
given none = none
given (some null) = none
given (some v) = some v

-- `params?.key`.
param : Option Json → String → Option Json
param none key = none
param (some params) key = get params key

unfoldable pub execute_body : Text → Option Json → ExecuteBody
unfolding given param
execute_body command params =
    let (plugin_id, handler_ref) = split_command command in
    record {
      plugin_id = plugin_id;
      handler_ref = handler_ref;
      export_name = given (param params "exportName");
      input = or_else (param params "input") (obj end);
      timeout_ms = given (param params "timeoutMs");
    }

-- The body of a response: its chunks, and the message with which a read rejects after them.
pub record Body : Type 0 where
  pub chunks : List Text
  pub failure : Option String

pub record Response : Type 0 where
  pub ok : Bool
  pub status : ℕ
  pub text : String
  pub body : Option Body

pub data Fetched : Type 0 where
  responded : Response → Fetched
  rejected : String → Fetched

is_done : Option String → Bool
is_done none = false
is_done (some t) = str_eq t "execution:done"

-- `event.type === 'execution:done'`.
unfoldable pub says_done : Json → Bool
unfolding is_done
says_done event = is_done (as_text (get event "type"))

module _ (parse : Text → Option Json) where
  unfoldable pub event_callbacks : Option Json → List Callback
  event_callbacks none = []
  event_callbacks (some event) =
      on_event event ∷ (if says_done event then on_done event ∷ [] else [])

  unfoldable pub trimmed_callbacks : Text → List Callback
  trimmed_callbacks [] = []
  trimmed_callbacks (c ∷ cs) = event_callbacks (parse (c ∷ cs))

  -- One line: a blank one and one that is no JSON call nothing.
  unfoldable pub line_callbacks : Text → List Callback
  unfolding trimmed_callbacks
  line_callbacks line = trimmed_callbacks (trim line)

  unfoldable pub lines_callbacks : List Text → List Callback
  lines_callbacks [] = []
  lines_callbacks (l ∷ ls) = line_callbacks l ++ lines_callbacks ls

  -- The loop over the chunks, from a buffer; in the end the buffer is a line too.
  unfoldable pub read : Text → List Text → Option String → List Callback
  read buffer [] none = line_callbacks buffer
  read buffer [] (some message) = on_error (thrown message) ∷ []
  read buffer (chunk ∷ chunks) failure =
      let (lines, rest) = cut (buffer ++ chunk) in lines_callbacks lines ++ read rest chunks failure

  unfoldable pub respond : Option Body → List Callback
  respond none = on_error no_body ∷ []
  respond (some body) = read [] body.chunks body.failure

  -- `doExecuteHttp`.
  unfoldable pub do_execute_http : Fetched → List Callback
  unfolding respond
  do_execute_http (rejected message) = on_error (thrown message) ∷ []
  do_execute_http (responded res) =
      if res.ok then respond res.body else on_error (http_status res.status res.text) ∷ []

-- The body of `cancelExecute`; whether its request fails makes no difference.
unfoldable pub cancel_reason : Option String → String
cancel_reason none = "user"
cancel_reason (some reason) = reason

-- `executeTunnel` and `cancelExecute` up to their request; `none` where `getAccessToken` throws.
pub record Post {ℓ} (Content : Type ℓ) : Type ℓ where
  pub url : Text
  pub token : String
  pub content : Content

unfoldable pub execute_tunnel :
    (gateway_url : Text)
    → (token : Option String) → (command : Text) → (params : Option Json)
    → Option (Post ExecuteBody)
unfolding execute_body
execute_tunnel gateway_url none command params = none
execute_tunnel gateway_url (some token) command params = some (record {
  url = gateway_url ++ codes "/api/v1/execute";
  token = token;
  content = execute_body command params;
})

unfoldable pub cancel_execute :
    (gateway_url : Text)
    → (token : Option String) → (execution_id : Text) → (reason : Option String)
    → Option (Post String)
unfolding cancel_reason
cancel_execute gateway_url none execution_id reason = none
cancel_execute gateway_url (some token) execution_id reason = some (record {
  url = gateway_url ++ (codes "/api/v1/execute/" ++ (execution_id ++ codes "/cancel"));
  token = token;
  content = cancel_reason reason;
})
