-- ===== src/Commands/List.antt =====
-- packages/host-agent-cli/src/commands/list.ts: the choice of the gateway's URL, the header with the
-- token, and the table of the hosts. What HTTP requests, the configuration file and the clock give
-- are arguments; how a value stands in a text is one too.
pub mod Table
use kb_labs_host_agent.Common.{
  ℕ, zero, suc, ◌+◌, ◌-◌, ◌*◌, ◌/◌, Bool, true, false, ◌&&◌, not, ◌≡◌, refl, String, Option, none,
  some, List, [], ◌∷◌, ◌++◌, map, leb, ltb, ◌==◌, str_eq, length, if◌then◌else◌,
}
use kb_labs_host_agent.Common.Json.{Json, null, get}
use kb_labs_host_agent.Common.Text.{Text, codes, decimal}
use kb_labs_host_agent.Files.{text_eq}
use kb_labs_host_agent.Transport.{is_truthy}

pub record HostEntry : Type 0 where
  pub name : Text
  pub status : Text
  -- `none` where the field is missing.
  pub capabilities : Option (List Text)
  pub last_seen : ℕ

abbrev pub or_else {ℓ} : {A : Type ℓ} → Option A → A → A
or_else none d = d
or_else (some a) d = a

-- `!gatewayUrl` is that of a missing or empty text.
unfoldable pub is_filled : Option Text → Bool
is_filled none = false
is_filled (some []) = false
is_filled (some (c ∷ s)) = true

module _ (print : Json → Text) where
  -- `undefined` and `null` are nothing.
  unfoldable pub printed : Option Json → Option Text
  printed none = none
  printed (some null) = none
  printed (some v) = some (print v)

  -- The assignment in the `try`: a file that cannot be read or parsed, and the value `null`, leave
  -- what was there.
  unfoldable pub from_config : (config : Option Json) → Option Text → Option Text
  from_config none url = url
  from_config (some null) url = url
  from_config (some v) url = printed (get v "gatewayUrl")

  unfoldable pub gateway_url :
      (flag : Option Text) → (config : Option Json) → (env : Option Text) → Text
  unfolding from_config printed
  gateway_url flag config env =
      or_else (if is_filled flag then flag else from_config config flag)
        (or_else env (codes "http://localhost:4000"))

  -- Whether the command asks for a token.
  unfoldable pub asks_token : (config : Option Json) → Bool
  asks_token none = false
  asks_token (some null) = false
  asks_token (some v) = is_truthy (get v "clientId") && is_truthy (get v "clientSecret")

  -- The token: `answered` is the body of a successful answer, if the request gave one.
  unfoldable pub token_of : (config : Option Json) → (answered : Option Json) → Option Json
  token_of config none = none
  token_of config (some null) = none
  token_of config (some body) = if asks_token config then get body "accessToken" else none

  unfoldable pub authorization : Option Json → Option Text
  authorization none = none
  authorization (some t) = if is_truthy (some t) then some (codes "Bearer " ++ print t) else none

-- The answer to the request for the hosts: no answer or no body that is an object; another status;
-- the field `hosts`.
pub data Hosts : Type 0 where
  unreachable : Hosts
  not_ok : (status : ℕ) → Hosts
  answered : Option (List HostEntry) → Hosts

-- `padEnd`.
unfoldable pub blanks : ℕ → Text
blanks zero = []
blanks (suc n) = 32 ∷ blanks n

unfoldable pub pad_end : ℕ → Text → Text
pad_end n s = s ++ blanks (n - length s)

abbrev esc : Text → Text
esc s = 27 ∷ (91 ∷ s)

-- A circle in a colour.
abbrev coloured : (colour : Text) → ℕ → Text
coloured colour circle = esc colour ++ (circle ∷ esc (codes "0m"))

unfoldable pub status_icon : Text → Text
status_icon s =
    if text_eq s (codes "online")
    then coloured (codes "32m") 0x25CF
    else if text_eq s (codes "reconnecting")
    then coloured (codes "33m") 0x25D0
    else if text_eq s (codes "degraded")
    then coloured (codes "33m") 0x25D0
    else if text_eq s (codes "offline")
    then coloured (codes "31m") 0x25CB
    else codes "?"

-- A count of a unit of time, and the letter of the unit.
unfoldable pub ago_parts : (sec : ℕ) → ℕ × ℕ
ago_parts sec =
    if ltb sec 60
    then (sec, b's')
    else if ltb sec 3600
    then (sec / 60, b'm')
    else if ltb sec 86400
    then (sec / 3600, b'h')
    else (sec / 86400, b'd')

abbrev ago_text : ℕ × ℕ → Text
ago_text (n, unit) = decimal n ++ (unit ∷ codes " ago")

-- `ago(ts)`. A time ahead of the clock is rounded away from it and counted in negative seconds.
unfoldable pub ago : (now ts : ℕ) → Text
unfolding ago_parts
ago now ts =
    if leb ts now
    then ago_text (ago_parts ((now - ts) / 1000))
    else b'-' ∷ ago_text ((ts - now + 999) / 1000, b's')

unfoldable pub joined_by : Text → List Text → Text
joined_by between [] = []
joined_by between (x ∷ []) = x
joined_by between (x ∷ y ∷ xs) = x ++ (between ++ joined_by between (y ∷ xs))

-- A row up to the column `Last Seen`.
unfoldable pub row_front : HostEntry → Text
row_front h =
    codes "  "
    ++ (status_icon h.status
        ++ (32 ∷ pad_end 28 h.name
            ++ (32 ∷ pad_end 14 h.status
                ++ (32 ∷ pad_end 30 (joined_by (codes ", ") (or_else h.capabilities []))
                    ++ (32 ∷ [])))))

unfoldable pub row : (now : ℕ) → HostEntry → Text
row now h = row_front h ++ ago now h.last_seen

unfoldable pub header_front : Text
header_front =
    codes "  "
    ++ (pad_end 30 (codes "Name")
        ++ (32 ∷ pad_end 14 (codes "Status")
            ++ (32 ∷ pad_end 30 (codes "Capabilities") ++ (32 ∷ []))))

unfoldable pub count_status : Text → List HostEntry → ℕ
count_status s [] = 0
count_status s (h ∷ hs) = (if text_eq h.status s then 1 else 0) + count_status s hs

unfoldable pub last_line : List HostEntry → Text
last_line hs =
    codes "  "
    ++ (decimal (count_status (codes "online") hs)
        ++ (codes " online, "
            ++ (decimal (count_status (codes "offline") hs)
                ++ (codes " offline (" ++ (decimal (length hs) ++ codes " total)")))))

pub data Shown : Type 0 where
  cannot_reach none_connected : Shown
  failed : (status : ℕ) → Shown
  json : Option (List HostEntry) → Shown
  table : (rows : List Text) → (last : Text) → Shown
  -- The `length` of `undefined`.
  type_error : Shown

unfoldable pub shown_hosts : (now : ℕ) → List HostEntry → Shown
shown_hosts now [] = none_connected
shown_hosts now (h ∷ hs) = table (map (row now) (h ∷ hs)) (last_line (h ∷ hs))

-- What the command does with the answer.
unfoldable pub execute : (now : ℕ) → (as_json : Bool) → Hosts → Shown
unfolding shown_hosts
execute now as_json unreachable = cannot_reach
execute now as_json (not_ok status) = failed status
execute now as_json (answered none) = if as_json then json none else type_error
execute now as_json (answered (some hs)) = if as_json then json (some hs) else shown_hosts now hs

-- `none` where the promise of the command rejects.
unfoldable pub exit_code : Shown → Option ℕ
exit_code cannot_reach = some 1
exit_code (failed status) = some 1
exit_code type_error = none
exit_code _ = some 0
