-- ===== src/Daemon/Config.antt =====
-- packages/host-agent-contracts/src/config.ts: the schemas of the configuration and of a token pair,
-- as what `safeParse` makes of a JSON value, and the loading of the file in
-- apps/host-agent-app/src/daemon.ts. Whether a text is a URL for the schema library is an argument.
-- Numbers are natural numbers.
pub mod Accepted
use kb_labs_host_agent.Common.{
  ℕ, Bool, true, false, ◌&&◌, not, String, Option, none, some, List, [], ◌∷◌, str_eq, if◌then◌else◌,
  ltb,
}
use kb_labs_host_agent.Common.Json.{
  Json, null, bool, num, str, arr, obj, Items, nil, item, Fields, end, field, get, as_text,
}
use kb_labs_host_agent.Common.Text.{codes}
use kb_labs_host_agent.Execution.{Mode, in_process, subprocess}
use kb_labs_host_agent.Register.{is_config_url}
use kb_labs_host_agent.Ipc.{default_text}
use kb_labs_host_agent.Token.{TokenPair}

pub data HostType : Type 0 where
  local cloud : HostType

pub record ExecutionConfig : Type 0 where
  pub mode : Mode
  pub timeout_ms : ℕ
  pub allowed_plugins : Option (List String)

pub record WorkspaceEntry : Type 0 where
  pub workspace_id : String
  pub path : String
  pub repo_fingerprint : Option String

pub record AgentConfig : Type 0 where
  pub client_id : String
  pub client_secret : String
  pub host_id : String
  pub gateway_url : String
  pub private_key : Option String
  pub public_key : Option String
  pub namespace_id : String
  pub host_type : HostType
  pub workspace_paths : List String
  pub workspaces : Option (List WorkspaceEntry)
  pub execution : ExecutionConfig

infixl 5 ◌>>=◌
abbrev pub ◌>>=◌ {ℓ κ} : {A : Type ℓ} {B : Type κ} → Option A → (A → Option B) → Option B
none >>= f = none
some a >>= f = f a

-- A schema that is `optional`: a missing field gives none, another has to fit.
abbrev pub optional : {A : Type 0} → (Json → Option A) → Option Json → Option (Option A)
optional parse none = some none
optional parse (some v) = parse v >>= λ a. some (some a)

-- `z.string()`.
unfoldable pub text : Json → Option String
text (str s) = some s
text _ = none

-- `z.array(…)`.
unfoldable pub each : {A : Type 0} → (Json → Option A) → Items → Option (List A)
each parse nil = some []
each parse (item v vs) = do a ← parse v; as_ ← each parse vs; some (a ∷ as_)

unfoldable pub array : {A : Type 0} → (Json → Option A) → Json → Option (List A)
array parse (arr vs) = each parse vs
array parse _ = none

-- `z.string().min(1)`.
unfoldable pub filled_text : Option String → Option String
filled_text (some s) = if str_eq s "" then none else some s
filled_text none = none

-- `z.number().positive()`.
unfoldable pub positive : Json → Option ℕ
positive (num n) = if ltb 0 n then some n else none
positive _ = none

-- A field with a default.
unfoldable pub positive_or : ℕ → Option Json → Option ℕ
unfolding positive
positive_or d none = some d
positive_or d (some v) = positive v

unfoldable pub mode_of : String → Option Mode
mode_of s =
    if str_eq s "in-process"
    then some in_process
    else if str_eq s "subprocess"
    then some subprocess
    else none

unfoldable pub host_type_of : String → Option HostType
host_type_of s =
    if str_eq s "local" then some local else if str_eq s "cloud" then some cloud else none

-- `ExecutionConfigSchema` on an object.
unfoldable pub parse_execution : Json → Option ExecutionConfig
parse_execution v = do
  mode_text ← default_text "in-process" (get v "mode")
  mode ← mode_of mode_text
  timeout ← positive_or 120_000 (get v "timeoutMs")
  plugins ← optional (array text) (get v "allowedPlugins")
  some (record { mode = mode; timeout_ms = timeout; allowed_plugins = plugins })

-- `.default({})`: a missing field is an empty object.
unfoldable pub execution_or_default : Option Json → Option ExecutionConfig
unfolding parse_execution
execution_or_default none = parse_execution (obj end)
execution_or_default (some (obj fs)) = parse_execution (obj fs)
execution_or_default (some _) = none

-- `WorkspaceEntrySchema`.
unfoldable pub parse_workspace : Json → Option WorkspaceEntry
parse_workspace v = do
  id ← as_text (get v "workspaceId")
  path ← as_text (get v "path")
  fingerprint ← optional text (get v "repoFingerprint")
  some (record { workspace_id = id; path = path; repo_fingerprint = fingerprint })

-- `z.array(z.string()).min(1)`.
unfoldable pub some_texts : Option Json → Option (List String)
unfolding array each text
some_texts none = none
some_texts (some v) = array text v >>= λ xs. elim xs [ [] ↦ none | x ∷ more ↦ some (x ∷ more) ]

module _ (is_url : String → Bool) where
  -- `z.string().url().refine(…)`.
  unfoldable pub config_url : Option String → Option String
  config_url none = none
  config_url (some s) = if is_url s && is_config_url (codes s) then some s else none

  -- `AgentConfigSchema`. On a value that is no object each required field is missing.
  unfoldable pub parse_config : Json → Option AgentConfig
  unfolding config_url some_texts execution_or_default
  parse_config v = do
    client_id ← as_text (get v "clientId")
    client_secret ← as_text (get v "clientSecret")
    host_id ← as_text (get v "hostId")
    gateway_url ← config_url (as_text (get v "gatewayUrl"))
    private_key ← optional text (get v "privateKey")
    public_key ← optional text (get v "publicKey")
    namespace_id ← default_text "default" (get v "namespaceId")
    host_type_text ← default_text "local" (get v "hostType")
    host_type ← host_type_of host_type_text
    paths ← some_texts (get v "workspacePaths")
    workspaces ← optional (array parse_workspace) (get v "workspaces")
    execution ← execution_or_default (get v "execution")
    some (record {
      client_id = client_id;
      client_secret = client_secret;
      host_id = host_id;
      gateway_url = gateway_url;
      private_key = private_key;
      public_key = public_key;
      namespace_id = namespace_id;
      host_type = host_type;
      workspace_paths = paths;
      workspaces = workspaces;
      execution = execution;
    })

-- How the start of the daemon goes on from the file: what `readFile` gives, and `JSON.parse`.
pub data Loaded : Type 0 where
  config_not_found invalid_json validation_failed : Loaded
  loaded : AgentConfig → Loaded

unfoldable pub validated : Option AgentConfig → Loaded
validated none = validation_failed
validated (some config) = loaded config

unfoldable pub load_config : (is_url : String → Bool) → (file : Option (Option Json)) → Loaded
unfolding validated
load_config is_url none = config_not_found
load_config is_url (some none) = invalid_json
load_config is_url (some (some v)) = validated (parse_config is_url v)

-- `z.literal('Bearer')`, in front of the pair.
unfoldable pub if_bearer : String → TokenPair → Option TokenPair
if_bearer token_type pair = if str_eq token_type "Bearer" then some pair else none

-- `TokenPairSchema`.
unfoldable pub parse_token_pair : Json → Option TokenPair
unfolding filled_text positive if_bearer
parse_token_pair v = do
  access ← filled_text (as_text (get v "accessToken"))
  refresh ← filled_text (as_text (get v "refreshToken"))
  lifetime_json ← get v "expiresIn"
  lifetime ← positive lifetime_json
  token_type ← as_text (get v "tokenType")
  if_bearer token_type
      (record { access_token = access; refresh_token = refresh; expires_in = lifetime })
