-- ===== src/Commands/Status.antt =====
-- packages/host-agent-cli/src/commands/status.ts: what the command prints and returns, by the
-- status that the client of the daemon gives, or none where something on the way throws.
use kb_labs_host_agent.Common.{
  ℕ, Bool, true, false, ◌≡◌, refl, String, Option, none, some, List, [], ◌∷◌, ◌++◌, if◌then◌else◌,
  arith,
}
use kb_labs_host_agent.Common.Json.{Json, bool, str, get, find_field}
use kb_labs_host_agent.Transport.{is_truthy}
use kb_labs_host_agent.Ipc.{to_json, status}
use kb_labs_host_agent.Daemon.{Daemon, get_status}
use kb_labs_host_agent.Daemon.Config.{AgentConfig}

-- A field is `none` where it is left out or `undefined`.
pub record StatusResult : Type 0 where
  pub exit_code : ℕ
  pub running : Bool
  pub connected : Option Json
  pub host_id : Option Json
  pub gateway_url : Option Json

pub data Line : Type 0 where
  status_line : (label : String) → Line
  host_line gateway_line : Json → Line

pub data Output : Type 0 where
  prints_not_running_json prints_not_running : Output
  prints_json : StatusResult → Output
  prints_lines : List Line → Output

unfoldable pub status_label : Json → String
status_label v =
    if is_truthy (get v "connected")
    then "connected"
    else if is_truthy (get v "reconnecting")
    then "reconnecting..."
    else "disconnected"

-- A line for a value that counts as true.
unfoldable pub line_if : (Json → Line) → Option Json → List Line
line_if line none = []
line_if line (some v) = if is_truthy (some v) then line v ∷ [] else []

unfoldable pub result_of : Json → StatusResult
result_of v = record {
  exit_code = 0;
  running = true;
  connected = get v "connected";
  host_id = get v "hostId";
  gateway_url = get v "gatewayUrl";
}

unfoldable pub lines_of : Json → List Line
unfolding line_if
lines_of v =
    status_line (status_label v) ∷ line_if host_line (get v "hostId")
    ++ line_if gateway_line (get v "gatewayUrl")

abbrev pub not_running : StatusResult
not_running = record {
  exit_code = 0;
  running = false;
  connected = none;
  host_id = none;
  gateway_url = none;
}

-- `execute`.
unfoldable pub execute : (json : Bool) → (ipc_status : Option Json) → Output × StatusResult
execute json none = (if json then prints_not_running_json else prints_not_running, not_running)
execute json (some v) =
    (if json then prints_json (result_of v) else prints_lines (lines_of v), result_of v)

-- What the command shows of a daemon that answers, over the wire: `connected` exactly while the
-- daemon is connected, and otherwise that it is reconnecting, never that it is disconnected; the
-- result has the daemon's flag and the ids of its configuration, and the exit code 0.
pub daemon_shown :
    (config : AgentConfig) (explicit : Bool) (d : Daemon) (json : Bool)
    → let v = to_json (status (get_status config explicit d)) in
      (status_label v ≡ (if d.connected then "connected" else "reconnecting..."))
      × ((execute json (some v)).1 ≡ record {
        exit_code = 0;
        running = true;
        connected = some (bool d.connected);
        host_id = some (str config.host_id);
        gateway_url = some (str config.gateway_url);
      })
unfolding to_json get_status status_label execute result_of is_truthy get find_field
daemon_shown config explicit d json = (ground arith, refl)
