-- ===== src/Gateway/Url.antt =====
-- The URL that `doConnect` builds, and which URLs it accepts.
pub mod Trusted
use kb_labs_host_agent.Common.{
  ℕ, Bool, true, false, ◌&&◌, ◌||◌, List, [], ◌∷◌, ◌++◌, leb, ◌==◌, Option, none, some,
}
use kb_labs_host_agent.Common.Text.{Text, codes, starts_with, strip_prefix}

with_ws : Text → Option Text → Text
with_ws url none = url
with_ws url (some rest) = codes "ws" ++ rest

-- `gatewayUrl.replace(/^http/, 'ws')`.
unfoldable pub replace_http : Text → Text
unfolding with_ws
replace_http url = with_ws url (strip_prefix (codes "http") url)

unfoldable pub connect_url : Text → Text
unfolding replace_http
connect_url gateway_url = replace_http gateway_url ++ codes "/hosts/connect"

abbrev pub within : ℕ → ℕ → ℕ → Bool
within lo hi c = leb lo c && leb c hi

-- `(1[6-9]|2\d|3[01])\.` at the start of a text.
unfoldable pub is_second_block : Text → Bool
is_second_block (a ∷ b ∷ dot ∷ rest) =
    (a == b'1' && within b'6' b'9' b
      || a == b'2' && within b'0' b'9' b
      || a == b'3' && (b == b'0' || b == b'1'))
    && dot == b'.'
is_second_block _ = false

unfoldable pub after_172 : Option Text → Bool
after_172 none = false
after_172 (some rest) = is_second_block rest

-- `(10\.|172\.(1[6-9]|2\d|3[01])\.|192\.168\.|host\.docker\.internal)` at the start of a text.
unfoldable pub is_private_host : Text → Bool
is_private_host host =
    starts_with (codes "10.") host
    || after_172 (strip_prefix (codes "172.") host)
    || starts_with (codes "192.168.") host
    || starts_with (codes "host.docker.internal") host

unfoldable pub after_scheme : Option Text → Bool
after_scheme none = false
after_scheme (some host) = is_private_host host

unfoldable pub is_secure_ws : Text → Bool
is_secure_ws url = starts_with (codes "wss://") url

unfoldable pub is_loopback : Text → Bool
is_loopback url =
    starts_with (codes "ws://localhost") url || starts_with (codes "ws://127.0.0.1") url

unfoldable pub is_private_ip : Text → Bool
is_private_ip url = after_scheme (strip_prefix (codes "ws://") url)

-- The test under which `doConnect` goes on; `explicit` is `process.env.GATEWAY_ALLOW_WS === '1'`.
unfoldable pub is_allowed : Bool → Text → Bool
is_allowed explicit url = is_secure_ws url || is_loopback url || is_private_ip url || explicit
