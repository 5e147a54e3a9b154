-- ===== src/Daemon/Examples.antt =====
-- Tests of the daemon, and its theorems at concrete inputs.
use kb_labs_host_agent.Common.{
  ◌<◌, Bool, true, false, ◌≡◌, refl, ◌↔◌, String, none, some, [], ◌∷◌, arith, length,
}
use kb_labs_host_agent.Common.Json.{
  Json, str, num, arr, obj, item, nil, field, end, get, find_field, as_text,
}
use kb_labs_host_agent.Common.Text.{Text, codes, starts_with}
use kb_labs_host_agent.Execution.{in_process}
use kb_labs_host_agent.Ipc.{default_text}
use kb_labs_host_agent.Gateway.State.{Client, open_socket, close_socket, connecting}
use kb_labs_host_agent.Gateway.State
use kb_labs_host_agent.Gateway.Methods.{on_message}
use kb_labs_host_agent.Gateway.Url.{connect_url, is_allowed}
use kb_labs_host_agent.Resolver.{contains}
use kb_labs_host_agent.Register.{is_config_url, assert_secure_url}
use kb_labs_host_agent.Register
use kb_labs_host_agent.Token.{TokenPair, ok, access_token}
use kb_labs_host_agent.Token
use kb_labs_host_agent.Daemon.Config.{
  AgentConfig, local, text, array, each, parse_config, config_url, host_type_of, some_texts,
  execution_or_default, parse_execution, mode_of, positive_or, load_config, loaded,
  validation_failed, validated, parse_token_pair,
}
use kb_labs_host_agent.Daemon.Config.Accepted.{accepted_config}
use kb_labs_host_agent.Daemon.Registered.{registered_json, registered_config}
use kb_labs_host_agent.Daemon.Registered.Read.{registered_accepted, Fits}
use kb_labs_host_agent.Daemon.Tokens.{
  Response, gives, fails, fetch_tokens, refresh_tokens, insecure_url, http_status, parse_fetched,
  parse_token_response,
}
use kb_labs_host_agent.Daemon.Tokens.Read.{fetch_tokens_iff, Carries}
use kb_labs_host_agent.Daemon.{
  Daemon, client_does, client_event, signal, refresh_answers, created, step, run, start_daemon,
  get_status, Event,
}
use kb_labs_host_agent.Daemon.Rotation.{rotation}
use kb_labs_host_agent.Files.Search.Words.{all_bare, is_bare}
use kb_labs_host_agent.Files.Search.Grep.Argv.{HasPlain}
use kb_labs_host_agent.Daemon.Calls.{HandlerCall, StaysIn, reached, allowed_paths, calls_confined}
use kb_labs_host_agent.Gateway.State.{invoke}
use kb_labs_host_agent.Resolver.{FileSystem, Resolver}
use kb_labs_host_agent.Daemon.Serving.{serve, serve_requests, unhandled_rejection, answers}
use kb_labs_host_agent.HostClient.{status_json, execute_json}
use kb_labs_host_agent.Ipc.{status}
use kb_labs_host_agent.Daemon.Handlers.{daemon_serves, answer_to, place}

abbrev is_url : String → Bool
is_url s = true

abbrev config_json : Json
config_json = obj (
    field "clientId" (str "c") (
      field "clientSecret" (str "secret") (
        field "hostId" (str "h") (
          field "gatewayUrl" (str "http://localhost:4000")
            (field "workspacePaths" (arr (item (str "/w") nil)) end)))))

abbrev config : AgentConfig
config = record {
  client_id = "c";
  client_secret = "secret";
  host_id = "h";
  gateway_url = "http://localhost:4000";
  private_key = none;
  public_key = none;
  namespace_id = "default";
  host_type = local;
  workspace_paths = "/w" ∷ [];
  workspaces = none;
  execution = record { mode = in_process; timeout_ms = 120_000; allowed_plugins = none };
}

parsed : parse_config is_url config_json ≡ some config
unfolding parse_config get find_field as_text config_url text default_text host_type_of some_texts
    array each execution_or_default parse_execution mode_of positive_or is_config_url starts_with
parsed = refl

accepted_config_example :
    (is_url config.gateway_url ≡ true)
    × (assert_secure_url (codes config.gateway_url) ≡ true)
    × (is_allowed false (connect_url (codes config.gateway_url)) ≡ true)
    × (0 < length config.workspace_paths)
    × (0 < config.execution.timeout_ms)
accepted_config_example = accepted_config is_url false config_json config parsed

-- A configuration as the command writes it, for a gateway that is not local.
abbrev text_of : Text → String
text_of t = "http://gateway"

abbrev written : Register.AgentConfig
written = record {
  client_id = some (str "c");
  client_secret = codes "0123456789abcdef";
  host_id = some (str "h");
  gateway_url = codes "http://gateway";
  namespace_id = "default";
  workspace_paths = (codes "w" ∷ []) ∷ [];
}

refused_test :
    load_config is_url (some (some (registered_json text_of written))) ≡ validation_failed
unfolding load_config parse_config get find_field as_text config_url is_config_url starts_with
    registered_json validated
refused_test = refl

registered_accepted_example :
    (load_config is_url (some (some (registered_json text_of written))) ≡ loaded config) ↔ (
      (i : String) × (h : String) × Fits text_of written is_url i h
      × (config ≡ registered_config text_of i h written))
registered_accepted_example = registered_accepted text_of written is_url config

abbrev response : Response
response = record {
  ok = true;
  status = 200;
  content_type = some (codes "application/json; charset=utf-8");
  body = some (
      obj (
        field "accessToken" (str "a") (
          field "refreshToken" (str "r")
            (field "expiresIn" (num 3600) (field "tokenType" (str "Bearer") end)))));
}

abbrev pair : TokenPair
pair = record { access_token = "a"; refresh_token = "r"; expires_in = 3600 }

fetch_tests :
    (fetch_tokens (codes "https://g") (some response) ≡ gives pair)
    × (fetch_tokens (codes "http://g") (some response) ≡ fails insecure_url)
    × (refresh_tokens (some (record response { ok = false; status = 401 }))
        ≡ fails (http_status 401))
unfolding fetch_tokens refresh_tokens parse_fetched parse_token_response contains starts_with
    parse_token_pair get find_field as_text assert_secure_url
fetch_tests = (refl, refl, refl)

fetch_tokens_iff_example :
    ((fetch_tokens (codes "https://g") (some response) ≡ gives pair)
      ↔ ((assert_secure_url (codes "https://g") ≡ true) × Carries (some response) pair))
    × ((refresh_tokens (some response) ≡ gives pair) ↔ Carries (some response) pair)
fetch_tokens_iff_example = fetch_tokens_iff (codes "https://g") (some response) pair

-- A daemon whose client holds the socket 0.
abbrev running : Daemon
running = record {
  manager = Token.initial;
  client = record State.initial { ws = some 0; next_socket = 1 };
  connected = true;
}

rotation_example :
    let (d', acts) = step config false 1_000 (refresh_answers (ok pair)) running in
    (access_token 1_000 d'.manager ≡ ok "a")
    × (acts
        ≡ client_does (close_socket 0 1000)
          ∷ client_does (open_socket 1 (connect_url (codes "http://localhost:4000")) "a")
          ∷ [])
    × (d'.client.ws ≡ some 1)
    × (d'.client.ready 1 ≡ connecting)
    × (get_status config false d' ≡ get_status config false running)
rotation_example =
    rotation is_url false config_json config 1_000 0 pair running parsed (omega arith, omega arith)
      refl

abbrev git_call : Json
git_call =
    obj (field "type" (str "call") (field "adapter" (str "git") (field "requestId" (str "1") end)))

daemon_serves_example :
    let c =
      (run config false
        ((5, client_event (Event.opened 0)) ∷ (9, signal) ∷ [])
        (start_daemon config false 1 (ok pair) created).0).client in
    on_message (some git_call) c ≡ (c, answer_to (place "git") "git" git_call c)
unfolding get find_field
daemon_serves_example =
    daemon_serves config false 1 (ok pair) ((5, client_event (Event.opened 0)) ∷ (9, signal) ∷ [])
      git_call "git" (tt, (tt, tt)) refl refl

-- A daemon whose token lapses at the time 100 000.
abbrev lapsing : Daemon
lapsing = record created {
  manager = record Token.initial { tokens = some pair; token_expires_at = 100_000 };
}

serve_requests_example :
    (serve config false 50_000 lapsing (status_json "e")
      ≡ answers (status (get_status config false lapsing)) ∷ [])
    × (serve config false 50_000 lapsing (execute_json "e" "p:run" (obj end))
        ≡ unhandled_rejection ∷ [])
serve_requests_example = serve_requests config false 50_000 lapsing "e" "p:run" end pair refl

abbrev no_files : FileSystem
no_files = record {
  read_dir = λ p. none;
  is_directory = λ p. none;
  read_manifest = λ p. none;
  real_path = λ p. none;
}

abbrev no_plugins : Resolver
no_plugins = record { cache = []; scanned = true }

abbrev shell_frame : Json
shell_frame =
    obj
      (field "type" (str "call") (field "adapter" (str "shell") (field "requestId" (str "1") end)))

abbrev shell_call_args : HandlerCall
shell_call_args = record {
  method = "exec";
  args = str "ls" ∷ [];
  grep_options = record {
    includes = none;
    excludes = none;
    max_results = none;
    context_lines = none;
  };
  glob_options = record { excludes = none; max_results = none };
  shell_options = record { cwd = none; timeout_ms = none; env = none };
  request = none;
}

default_safe : HasPlain none
unfolding all_bare is_bare
default_safe = (refl, (refl, (refl, (refl, (refl, (refl, tt))))))

-- The command `ls`.
calls_confined_example :
    let c =
      (run config false
        ((5, client_event (Event.opened 0)) ∷ [])
        (start_daemon config false 1 (ok pair) created).0).client in
    (on_message (some shell_frame) c ≡ (c, invoke 2 shell_frame ∷ []))
    × StaysIn true []
        (allowed_paths config)
        shell_call_args
        (reached config [] true no_files no_plugins 2 shell_call_args)
unfolding get find_field place allowed_paths
calls_confined_example =
    calls_confined config false [] true no_files no_plugins 1 (ok pair)
      ((5, client_event (Event.opened 0)) ∷ []) shell_frame "shell" 2 47 (codes "w") []
      shell_call_args (tt, tt) refl refl refl tt refl (default_safe, tt, default_safe)
