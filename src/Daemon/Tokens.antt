-- ===== src/Daemon/Tokens.antt =====
-- apps/host-agent-app/src/daemon.ts: the requests for tokens, and how their responses are read.
pub mod Read
use kb_labs_host_agent.Common.{
  ℕ, Bool, true, false, not, String, Option, none, some, List, [], ◌∷◌, if◌then◌else◌,
}
use kb_labs_host_agent.Common.Json.{Json}
use kb_labs_host_agent.Common.Text.{Text, codes, starts_with}
use kb_labs_host_agent.Register.{assert_secure_url}
use kb_labs_host_agent.Resolver.{contains}
use kb_labs_host_agent.Token.{TokenPair, Result, ok, err, thrown}
use kb_labs_host_agent.Daemon.Config.{parse_token_pair}

-- `body` is `none` where `res.json()` rejects.
pub record Response : Type 0 where
  pub ok : Bool
  pub status : ℕ
  pub content_type : Option Text
  pub body : Option Json

pub data Failure : Type 0 where
  insecure_url fetch_rejected not_json invalid_response : Failure
  http_status : ℕ → Failure
  unexpected_content_type : Text → Failure

pub data Answer : Type 0 where
  fails : Failure → Answer
  gives : TokenPair → Answer

unfoldable pub or_empty : Option Text → Text
or_empty none = []
or_empty (some s) = s

unfoldable pub checked_pair : Option TokenPair → Answer
checked_pair none = fails invalid_response
checked_pair (some pair) = gives pair

unfoldable pub read_body : Option Json → Answer
unfolding checked_pair
read_body none = fails not_json
read_body (some v) = checked_pair (parse_token_pair v)

unfoldable pub parse_token_response : Response → Answer
unfolding read_body or_empty
parse_token_response r =
    if not r.ok
    then fails (http_status r.status)
    else if not (contains (codes "application/json") (or_empty r.content_type))
    then fails (unexpected_content_type (or_empty r.content_type))
    else read_body r.body

-- What the request gives: `none` where `fetch` rejects.
unfoldable pub parse_fetched : Option Response → Answer
parse_fetched none = fails fetch_rejected
parse_fetched (some r) = parse_token_response r

unfoldable pub fetch_tokens : (gateway_url : Text) → Option Response → Answer
unfolding parse_fetched
fetch_tokens gateway_url fetched =
    if assert_secure_url gateway_url then parse_fetched fetched else fails insecure_url

-- The URL is not checked again.
unfoldable pub refresh_tokens : Option Response → Answer
refresh_tokens fetched = parse_fetched fetched

-- The promise that the token manager awaits; `message` is the text of the error.
unfoldable pub promised : (message : Failure → String) → Answer → Result TokenPair
promised message (fails f) = err (thrown (message f))
promised message (gives pair) = Result.ok pair
