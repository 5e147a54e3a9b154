-- ===== src/Token/Access.antt =====
-- When the getter `accessToken` returns a token, and that the refresh comes while it still does.
use kb_labs_host_agent.Common.{
  ℕ, ◌+◌, ◌*◌, ◌≤◌, ◌<◌, ◌≡◌, refl, ◌↔◌, String, Option, none, some, arith,
}
use kb_labs_host_agent.Token.{
  TokenPair, Options, Manager, ok, clock_skew_margin_s, max_expires_in_s, access_token,
  current_token, start, refresh_delay, do_refresh, refreshed,
}

current_token_iff :
    (now : ℕ) (m : Manager) (held : Option TokenPair) (t : String)
    → (current_token now m held ≡ ok t) ↔ (
        (pair : TokenPair) × (held ≡ some pair)
        × (pair.access_token ≡ t)
        × (now + clock_skew_margin_s * 1000 < m.token_expires_at))
unfolding current_token
current_token_iff now m none t = (λ e. cc, λ p. cc p.1)
current_token_iff now m (some pair) t =
    (λ e. (pair, refl, ground arith, ground arith), λ (q, same, token, live). ground arith)

-- The getter returns a text exactly when a pair is held, the text is that pair's access token,
-- and the held expiry lies more than the clock skew margin ahead.
pub access_token_iff :
    (now : ℕ) (m : Manager) (t : String)
    → (access_token now m ≡ ok t) ↔ (
        (pair : TokenPair) × (m.tokens ≡ some pair)
        × (pair.access_token ≡ t)
        × (now + clock_skew_margin_s * 1000 < m.token_expires_at))
unfolding access_token
access_token_iff now m t = current_token_iff now m m.tokens t

-- A pair that the manager accepts: its lifetime passes the check of `calcExpiresAt`.
abbrev pub IsAccepted : TokenPair → Type 0
IsAccepted pair = (0 < pair.expires_in) × (pair.expires_in ≤ max_expires_in_s)

-- With an accepted pair whose lifetime exceeds the refresh margin, and a margin above the clock
-- skew: after `start` the getter returns the pair's token at every moment up to the moment when
-- the scheduled refresh fires.
pub access_token-start :
    (opts : Options) (now later : ℕ) (m : Manager) (pair : TokenPair)
    → IsAccepted pair
    → opts.refresh_before < pair.expires_in
    → clock_skew_margin_s < opts.refresh_before
    → later ≤ now + refresh_delay opts pair.expires_in
    → access_token later (start opts now m (ok pair)).0 ≡ ok pair.access_token
unfolding access_token start refresh_delay
access_token-start opts now later m pair a margin skew h = ground arith

-- The same after a refresh that the server answers with such a pair and whose callback returns.
pub access_token-do_refresh :
    (opts : Options) (now later : ℕ) (m : Manager) (pair : TokenPair)
    → IsAccepted pair
    → opts.refresh_before < pair.expires_in
    → clock_skew_margin_s < opts.refresh_before
    → later ≤ now + refresh_delay opts pair.expires_in
    → (access_token later (do_refresh opts now m (ok pair) none).0 ≡ ok pair.access_token)
      × ((do_refresh opts now m (ok pair) none).1 ≡ refreshed pair)
      × ((do_refresh opts now m (ok pair) none).0.retry_count ≡ 0)
unfolding access_token do_refresh refresh_delay
access_token-do_refresh opts now later m pair a margin skew h =
    (ground arith, ground arith, ground arith)
