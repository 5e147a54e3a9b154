-- ===== src/Register.antt =====
-- packages/host-agent-cli/src/commands/register.ts: the command `workspace:register`, up to what it
-- writes into `~/.kb/agent.json`, and the checks of that URL where the daemon reads it:
-- packages/host-agent-contracts/src/config.ts and apps/host-agent-app/src/daemon.ts. The file
-- system, the network and the host name are arguments.
pub mod Written
pub mod Examples
use kb_labs_host_agent.Common.{
  ℕ, Bool, true, false, not, ◌&&◌, ◌||◌, String, Option, none, some, List, [], ◌∷◌, ◌==◌, leb,
  length, if◌then◌else◌,
}
use kb_labs_host_agent.Common.Json.{Json, str}
use kb_labs_host_agent.Common.Text.{Text, codes, starts_with}
use kb_labs_host_agent.Files.{sep, resolve}
use kb_labs_host_agent.Transport.{is_truthy}

pub record RegisterInput : Type 0 where
  pub gateway : Option Text
  pub name : Option String
  -- One path that is not in a list is a list of one.
  pub workspace : Option (List Text)
  pub namespace : Option String

-- The fields of the answer of the gateway.
pub record Registered : Type 0 where
  pub client_id : Option Json
  pub client_secret : Option Json
  pub host_id : Option Json

pub data Fetched : Type 0 where
  rejected : (message : String) → Fetched
  not_ok : (status : ℕ) → (text : String) → Fetched
  -- `none` where the body is no JSON.
  answered : Option Registered → Fetched

pub record AgentConfig : Type 0 where
  pub client_id : Option Json
  pub client_secret : Text
  pub host_id : Option Json
  pub gateway_url : Text
  pub namespace_id : String
  pub workspace_paths : List (List Text)

pub data Failure : Type 0 where
  not_a_directory : List Text → Failure
  no_gateway invalid_url : Failure
  unreachable : String → Failure
  http_status : ℕ → String → Failure
  not_json missing_fields invalid_secret : Failure

pub data Outcome : Type 0 where
  fails : Failure → Outcome
  writes : AgentConfig → Outcome

abbrev pub or_default {ℓ} : {A : Type ℓ} → Option A → A → A
or_default none d = d
or_default (some a) d = a

-- `replace(/\/$/, '')`.
unfoldable pub drop_slash : Text → Text
drop_slash [] = []
drop_slash (c ∷ []) = if c == sep then [] else c ∷ []
drop_slash (c ∷ d ∷ s) = c ∷ drop_slash (d ∷ s)

pub data Checked : Type 0 where
  bad : List Text → Checked
  good : List (List Text) → Checked

unfoldable pub first_good : List Text → Checked → Checked
first_good p (bad q) = bad q
first_good p (good ps) = good (p ∷ ps)

-- The loop over the workspace paths: the first that is no directory ends the command.
unfoldable pub check_paths : List Text → (List Text → Bool) → List Text → Checked
unfolding first_good
check_paths cwd is_directory [] = good []
check_paths cwd is_directory (p ∷ ps) =
    let more = check_paths cwd is_directory ps in
    if is_directory (resolve cwd p) then first_good (resolve cwd p) more else bad (resolve cwd p)

unfoldable pub is_http : Text → Bool
is_http url = starts_with (codes "http://") url || starts_with (codes "https://") url

-- `[A-Za-z0-9_\-+/=]`.
unfoldable pub is_secret_char : ℕ → Bool
is_secret_char c =
    (leb 65 c && leb c 90)
    || (leb 97 c && leb c 122)
    || (leb 48 c && leb c 57)
    || (c == 95)
    || (c == 45)
    || (c == 43)
    || (c == 47)
    || (c == 61)

unfoldable pub all_secret : Text → Bool
all_secret [] = true
all_secret (c ∷ s) = is_secret_char c && all_secret s

-- `SECRET_PATTERN.test(secret)`.
unfoldable pub is_secret : Text → Bool
is_secret s = leb 16 (length s) && all_secret s

unfoldable pub with_secret : Option Json → Registered → Text → String → List (List Text) → Outcome
with_secret (some (str s)) r url namespace_id paths =
    if is_secret (codes s)
    then writes (record {
      client_id = r.client_id;
      client_secret = codes s;
      host_id = r.host_id;
      gateway_url = url;
      namespace_id = namespace_id;
      workspace_paths = paths;
    })
    else fails invalid_secret
with_secret _ r url namespace_id paths = fails invalid_secret

-- What becomes of the answer of the gateway.
unfoldable pub finish : Fetched → Text → String → List (List Text) → Outcome
unfolding with_secret
finish (rejected message) url namespace_id paths = fails (unreachable message)
finish (not_ok status text) url namespace_id paths = fails (http_status status text)
finish (answered none) url namespace_id paths = fails not_json
finish (answered (some r)) url namespace_id paths =
    if is_truthy r.client_id && is_truthy r.client_secret && is_truthy r.host_id
    then with_secret r.client_secret r url namespace_id paths
    else fails missing_fields

unfoldable pub is_empty : Text → Bool
is_empty [] = true
is_empty (c ∷ s) = false

unfoldable pub with_paths : Checked → Text → String → Fetched → Outcome
unfolding is_empty
with_paths (bad p) url namespace_id fetched = fails (not_a_directory p)
with_paths (good paths) url namespace_id fetched =
    if is_empty url
    then fails no_gateway
    else if not (is_http url)
    then fails invalid_url
    else finish fetched url namespace_id paths

-- `execute`; `fetched` is what the request gives, where it is sent. Without `workspace` the path is
-- that of the working directory.
unfoldable pub execute : List Text → (List Text → Bool) → Fetched → RegisterInput → Outcome
unfolding with_paths
execute cwd is_directory fetched input =
    with_paths (check_paths cwd is_directory (or_default input.workspace ([] ∷ [])))
      (drop_slash (or_default input.gateway [])) (or_default input.namespace "default") fetched

-- The refinement of `gatewayUrl` in `AgentConfigSchema`, which the daemon reads the file with.
unfoldable pub is_config_url : Text → Bool
is_config_url url =
    starts_with (codes "https://") url
    || starts_with (codes "http://localhost") url
    || starts_with (codes "http://127.0.0.1") url

-- `assertSecureUrl`: whether it lets the URL pass.
unfoldable pub assert_secure_url : Text → Bool
assert_secure_url url = not (
    not (starts_with (codes "https://") url)
    && not (starts_with (codes "http://localhost") url)
    && not (starts_with (codes "http://127.0.0.1") url))
