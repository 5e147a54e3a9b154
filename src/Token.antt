-- ===== src/Token.antt =====
-- packages/host-agent-core/src/token/token-manager.ts: the class `TokenManager`.
-- The clock is an argument `now` in Unix milliseconds. `armed` holds the timers that have been set
-- and neither cleared nor fired, with their delays; `this.timer` is the field `timer`. The method
-- `doRefresh` awaits the server, so it is two operations: the request it sends, and what it does
-- with the answer. Seconds are whole numbers.
pub mod Access
pub mod Retries
pub mod Timers
pub mod Examples
use kb_labs_host_agent.Common.{
  ℕ, ◌+◌, ◌-◌, ◌*◌, ◌^◌, String, Bool, ◌||◌, Option, none, some, List, [], ◌∷◌, ltb, leb, ◌==◌,
  if◌then◌else◌,
}

pub record TokenPair : Type 0 where
  pub access_token : String
  pub refresh_token : String
  pub expires_in : ℕ

pub data Error : Type 0 where
  not_started expired : Error
  invalid_expires_in : ℕ → Error
  -- What a callback threw, by its message.
  thrown : String → Error

pub data Result {ℓ} (A : Type ℓ) : Type ℓ where
  ok : A → Result A
  err : Error → Result A

-- The numbers among the options, with the constructor's defaults.
pub record Options : Type 0 where
  pub refresh_before : ℕ
  pub max_retries : ℕ

abbrev or_default : Option ℕ → ℕ → ℕ
or_default none d = d
or_default (some n) d = n

pub options : Option ℕ → Option ℕ → Options
options refresh_before_expiry max_refresh_retries = record {
  refresh_before = or_default refresh_before_expiry (5 * 60);
  max_retries = or_default max_refresh_retries 3;
}

abbrev pub retry_delay_ms : ℕ
retry_delay_ms = 30_000

abbrev pub clock_skew_margin_s : ℕ
clock_skew_margin_s = 60

abbrev pub max_expires_in_s : ℕ
max_expires_in_s = 86400 * 365

pub record Manager : Type 0 where
  pub tokens : Option TokenPair
  pub token_expires_at : ℕ
  pub timer : Option ℕ
  pub retry_count : ℕ
  pub armed : List (ℕ × ℕ)
  pub next_timer : ℕ

abbrev pub initial : Manager
initial = record {
  tokens = none;
  token_expires_at = 0;
  timer = none;
  retry_count = 0;
  armed = [];
  next_timer = 0;
}

unfoldable pub disarm : ℕ → List (ℕ × ℕ) → List (ℕ × ℕ)
disarm t [] = []
disarm t ((u, d) ∷ ts) = if u == t then disarm t ts else (u, d) ∷ disarm t ts

-- `this.timer = setTimeout(…, delay)`.
unfoldable pub set_timeout : Manager → ℕ → Manager
set_timeout m delay = record m {
  timer = some m.next_timer;
  armed = (m.next_timer, delay) ∷ m.armed;
  next_timer = m.next_timer + 1;
}

-- `if (this.timer) { clearTimeout(this.timer); }`.
clear_timeout : Option ℕ → Manager → Manager
unfolding disarm
clear_timeout none m = m
clear_timeout (some t) m = record m { armed = disarm t m.armed }

-- `Date.now() >= this.tokenExpiresAt - CLOCK_SKEW_MARGIN_S * 1000`, as an order of naturals.
abbrev pub has_expired : ℕ → Manager → Bool
has_expired now m = leb m.token_expires_at (now + clock_skew_margin_s * 1000)

current_token : ℕ → Manager → Option TokenPair → Result String
current_token now m none = err not_started
current_token now m (some pair) = if has_expired now m then err expired else ok pair.access_token

-- The getter `accessToken`.
unfoldable pub access_token : ℕ → Manager → Result String
unfolding current_token
access_token now m = current_token now m m.tokens

stop_timer : Option ℕ → Manager → Manager
unfolding clear_timeout
stop_timer none m = m
stop_timer (some t) m = record (clear_timeout (some t) m) { timer = none }

unfoldable pub stop : Manager → Manager
unfolding stop_timer
stop m = stop_timer m.timer m

unfoldable pub calc_expires_at : ℕ → ℕ → Result ℕ
calc_expires_at now expires_in =
    if expires_in == 0 || ltb max_expires_in_s expires_in
    then err (invalid_expires_in expires_in)
    else ok (now + expires_in * 1000)

-- `delaySec <= 0` is `expiresIn <= refreshBefore`.
unfoldable pub refresh_delay : Options → ℕ → ℕ
refresh_delay opts expires_in =
    if leb expires_in opts.refresh_before then 0 else (expires_in - opts.refresh_before) * 1000

unfoldable pub schedule_refresh : Options → Manager → TokenPair → Manager
unfolding clear_timeout set_timeout refresh_delay
schedule_refresh opts m pair =
    set_timeout (clear_timeout m.timer m) (refresh_delay opts pair.expires_in)

-- What `start` does with the answer of `fetchTokens`; a throw leaves what was assigned before it.
start_with : Options → Manager → TokenPair → Result ℕ → Manager × Result String
unfolding schedule_refresh
start_with opts m pair (err e) = (m, err e)
start_with opts m pair (ok at) =
    (schedule_refresh opts (record m { token_expires_at = at }) pair, ok pair.access_token)

unfoldable pub start : Options → ℕ → Manager → Result TokenPair → Manager × Result String
unfolding start_with calc_expires_at
start opts now m (err e) = (m, err e)
start opts now m (ok pair) =
    start_with opts (record m { tokens = some pair }) pair (calc_expires_at now pair.expires_in)

-- How a call of `doRefresh` ends: `onRefreshed` was called, a retry was scheduled after a delay,
-- or `onRefreshFailed` was called.
pub data Outcome : Type 0 where
  refreshed : TokenPair → Outcome
  retrying : ℕ → Outcome
  gave_up : Error → Outcome

-- `doRefresh` up to its `await`: the refresh token that it sends, if it does not return at once.
request_token : Option TokenPair → Option String
request_token none = none
request_token (some pair) = some pair.refresh_token

unfoldable pub do_refresh_request : Manager → Option String
unfolding request_token
do_refresh_request m = request_token m.tokens

-- The `catch` of `doRefresh`.
unfoldable pub refresh_failed : Options → ℕ → Manager → Error → Manager × Outcome
unfolding set_timeout
refresh_failed opts now m error =
    let counted : Manager = record m { retry_count = m.retry_count + 1 } in
    let delay : ℕ = retry_delay_ms * 2 ^ m.retry_count in
    if has_expired now counted
    then (counted, gave_up error)
    else if leb opts.max_retries counted.retry_count
    then (counted, gave_up error)
    else (set_timeout counted delay, retrying delay)

-- `onRefreshed` is the caller's; `notified` is what it threw, if it threw.
notify : Options → ℕ → Manager → TokenPair → Option Error → Manager × Outcome
unfolding refresh_failed
notify opts now m next none = (m, refreshed next)
notify opts now m next (some e) = refresh_failed opts now m e

accept : Options → ℕ → Manager → TokenPair → Option Error → Result ℕ → Manager × Outcome
unfolding notify refresh_failed schedule_refresh
accept opts now m next notified (err e) = refresh_failed opts now m e
accept opts now m next notified (ok at) =
    notify opts now
      (schedule_refresh opts (record m { token_expires_at = at; retry_count = 0 }) next) next
      notified

-- `doRefresh` from its `await` on, by the answer of `refreshTokens`.
unfoldable pub do_refresh :
    Options → ℕ → Manager → Result TokenPair → Option Error → Manager × Outcome
unfolding accept refresh_failed calc_expires_at
do_refresh opts now m (err e) notified = refresh_failed opts now m e
do_refresh opts now m (ok next) notified =
    accept opts now (record m { tokens = some next }) next notified
      (calc_expires_at now next.expires_in)
