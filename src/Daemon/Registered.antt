-- ===== src/Daemon/Registered.antt =====
-- From the command `workspace:register` (packages/host-agent-cli/src/commands/register.ts) to the
-- start of the daemon: the JSON that the one writes, and whether the other accepts it. How a text
-- of code points stands in the file is an argument.
pub mod Read
use kb_labs_host_agent.Common.{
  ℕ, Bool, true, false, ◌&&◌, ◌≡◌, ◌≢◌, refl, ap, sym, ◌∙◌, subst, String, Option, none, some, List,
  [], ◌∷◌, arith, map, str_eq, if◌then◌else◌, Bool-cases, inl, inr,
}
use kb_labs_host_agent.Common.Json.{
  Json, null, bool, num, str, arr, obj, Items, nil, item, Fields, end, field, get, find_field,
  as_text, as_text_iff,
}
use kb_labs_host_agent.Common.Text.{Text, codes}
use kb_labs_host_agent.Execution.{in_process}
use kb_labs_host_agent.Files.{path_text}
use kb_labs_host_agent.Ipc.{default_text}
use kb_labs_host_agent.Register.{is_config_url}
use kb_labs_host_agent.Register
use kb_labs_host_agent.Daemon.Config.{
  AgentConfig, local, optional, text, array, each, parse_config, config_url, host_type_of,
  some_texts, parse_workspace, execution_or_default, parse_execution, mode_of, positive_or,
  positive, ◌>>=◌, load_config, loaded, validated,
}
use kb_labs_host_agent.Daemon.Config.Accepted.{
  next_step, config_url_sound, first_step, some_injective,
}

-- `JSON.stringify` leaves out what is `undefined`.
unfoldable pub optional_field : String → Option Json → Fields → Fields
optional_field key none fs = fs
optional_field key (some v) fs = field key v fs

unfoldable pub texts : List String → Items
texts [] = nil
texts (s ∷ ss) = item (str s) (texts ss)

module _ (text_of : Text → String) where
  -- The fields from `gatewayUrl` on.
  abbrev pub last_fields : Register.AgentConfig → Fields
  last_fields c = field "gatewayUrl" (str (text_of c.gateway_url)) (
      field "namespaceId" (str c.namespace_id) (
        field "hostType" (str "local") (
          field "workspacePaths" (arr (texts (map (λ p. text_of (path_text p)) c.workspace_paths)))
            (field "execution"
              (obj (field "mode" (str "in-process") (field "timeoutMs" (num 120_000) end))) end))))

  -- What the command writes.
  unfoldable pub registered_json : Register.AgentConfig → Json
  unfolding optional_field texts
  registered_json c = obj (
      optional_field "clientId" c.client_id (
        field "clientSecret" (str (text_of c.client_secret))
          (optional_field "hostId" c.host_id (last_fields c))))

  -- The configuration that the daemon then has.
  abbrev pub registered_config : (client_id host_id : String) → Register.AgentConfig → AgentConfig
  registered_config client_id host_id c = record {
    client_id = client_id;
    client_secret = text_of c.client_secret;
    host_id = host_id;
    gateway_url = text_of c.gateway_url;
    private_key = none;
    public_key = none;
    namespace_id = c.namespace_id;
    host_type = local;
    workspace_paths = map (λ p. text_of (path_text p)) c.workspace_paths;
    workspaces = none;
    execution = record { mode = in_process; timeout_ms = 120_000; allowed_plugins = none };
  }
