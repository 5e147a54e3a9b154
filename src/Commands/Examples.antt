-- ===== src/Commands/Examples.antt =====
-- Tests of the commands `workspace:status` and `workspace:list`.
use kb_labs_host_agent.Transport.{is_truthy}
use kb_labs_host_agent.Files.{text_eq}
use kb_labs_host_agent.Common.{
  ◌⊎◌, ℕ, true, false, ◌≡◌, refl, none, some, [], ◌∷◌, ◌≤◌, ◌*◌, ◌<◌, ◌≢◌,
}
use kb_labs_host_agent.Common.Json.{get, Json, bool, str, obj, end, field}
use kb_labs_host_agent.Common.Text.{digits, decimal, Text, codes}
use kb_labs_host_agent.Commands.List.{
  is_filled, count_status, HostEntry, ago, gateway_url, asks_token, authorization, execute,
  exit_code, cannot_reach, none_connected, unreachable, not_ok, answered, last_line, ago_parts,
}
use kb_labs_host_agent.Commands.List.Table.{ago_parts_lem, unit_size}
use kb_labs_host_agent.Commands.Status
use kb_labs_host_agent.Commands.Status.{
  prints_not_running_json, prints_not_running, prints_lines, not_running, status_line, gateway_line,
  lines_of, line_if, result_of, status_label,
}

abbrev laptop : HostEntry
laptop = record {
  name = codes "laptop";
  status = codes "online";
  capabilities = some (codes "filesystem" ∷ codes "shell" ∷ []);
  last_seen = 1_000_000;
}

abbrev desktop : HostEntry
desktop = record {
  name = codes "desktop";
  status = codes "offline";
  capabilities = none;
  last_seen = 0;
}

abbrev print : Json → Text
print (str s) = codes s
print _ = codes "?"

abbrev config : Json
config = obj (
    field "gatewayUrl" (str "https://gw")
      (field "clientId" (str "c") (field "clientSecret" (str "") end)))

ago_tests :
    (ago 1_059_999 1_000_000 ≡ codes "59s ago")
    × (ago 1_060_000 1_000_000 ≡ codes "1m ago")
    × (ago 4_600_000 1_000_000 ≡ codes "1h ago")
    × (ago 1_000_000 1_000_001 ≡ codes "-1s ago")
unfolding ago decimal digits
ago_tests = (refl, refl, refl, refl)

last_line_test : last_line (laptop ∷ desktop ∷ []) ≡ codes "  1 online, 1 offline (2 total)"
unfolding last_line decimal digits count_status text_eq
last_line_test = refl

url_tests :
    (gateway_url print (some (codes "http://g")) (some config) none ≡ codes "http://g")
    × (gateway_url print (some []) (some config) none ≡ codes "https://gw")
    × (gateway_url print (some []) none (some (codes "http://env")) ≡ [])
    × (gateway_url print none (some (obj end)) (some (codes "http://env")) ≡ codes "http://env")
    × (gateway_url print none none none ≡ codes "http://localhost:4000")
    × (asks_token print (some config) ≡ false)
    × (authorization print (some (str "t")) ≡ some (codes "Bearer t"))
unfolding gateway_url is_filled get asks_token is_truthy authorization
url_tests = (refl, refl, refl, refl, refl, refl, refl)

exit_tests :
    (execute 0 false unreachable ≡ cannot_reach)
    × (exit_code (execute 0 true (not_ok 500)) ≡ some 1)
    × (execute 0 false (answered (some [])) ≡ none_connected)
    × (exit_code (execute 0 false (answered none)) ≡ none)
unfolding execute exit_code
exit_tests = (refl, refl, refl, refl)

abbrev minutes : ℕ
minutes = b'm'

-- An age of five minutes.
ago_parts_lem_example :
    (5 * unit_size b'm' ≤ 300)
    × (300 < 6 * unit_size b'm')
    × ((300 < 60) ⊎ (0 < 5))
    × ((minutes ≡ b'd') ⊎ (5 < 60))
    × ((minutes ≢ b'h') ⊎ (5 < 24))
unfolding ago_parts
ago_parts_lem_example = ago_parts_lem 300

abbrev shown_status : Json
shown_status = obj (
    field "connected" (bool false) (
      field "reconnecting" (bool true)
        (field "hostId" (str "") (field "gatewayUrl" (str "https://gw") end))))

status_tests :
    (Status.execute true none ≡ (prints_not_running_json, not_running))
    × (Status.execute false none ≡ (prints_not_running, not_running))
    × ((Status.execute false (some shown_status)).0
        ≡ prints_lines (status_line "reconnecting..." ∷ gateway_line (str "https://gw") ∷ []))
    × ((Status.execute false (some shown_status)).1.host_id ≡ some (str ""))
unfolding Status.execute lines_of line_if status_label is_truthy get result_of
status_tests = (refl, refl, refl, refl)
