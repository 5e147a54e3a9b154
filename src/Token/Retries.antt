-- ===== src/Token/Retries.antt =====
-- Failed refreshes: the retry schedule, and that the manager gives up.
use kb_labs_host_agent.Common.{
  ℕ, ◌+◌, ◌*◌, ◌^◌, ◌≤◌, ◌<◌, ◌≡◌, List, [], ◌∷◌, some, none, Option, arith,
}
use kb_labs_host_agent.Token.{
  TokenPair, Options, Manager, Error, ok, err, clock_skew_margin_s, max_expires_in_s,
  retry_delay_ms, access_token, do_refresh, Outcome, retrying, gave_up,
}

-- The time and the error of each failed answer.
abbrev pub Failures : Type 0
Failures = List (ℕ × Error)

-- Consecutive failures, with what each does.
unfoldable pub fail_all : Options → Manager → Failures → Manager × List Outcome
fail_all opts m [] = (m, [])
fail_all opts m ((now, e) ∷ fs) =
    let (m', o) = do_refresh opts now m (err e) none in
    let (m'', os) = fail_all opts m' fs in (m'', o ∷ os)

abbrev pub IsRetry : Outcome → Type 0
IsRetry (retrying delay) = Unit
IsRetry _ = ⊥

-- A failed answer either gives up or schedules one retry, whose delay doubles with each failure
-- counted before; it gives up exactly when the held token counts as expired or the failure is the
-- `max_retries`-th. The pair and its expiry stay as they were.
pub do_refresh_failed :
    (opts : Options) (now : ℕ) (m : Manager) (e : Error) (notified : Option Error)
    → let (m', o) = do_refresh opts now m (err e) notified in
      (m'.tokens ≡ m.tokens)
      × (m'.token_expires_at ≡ m.token_expires_at)
      × (m'.retry_count ≡ m.retry_count + 1)
      × ((now + clock_skew_margin_s * 1000 < m.token_expires_at)
          → m.retry_count + 1 < opts.max_retries
          → (o ≡ retrying (retry_delay_ms * 2 ^ m.retry_count))
            × (m'.armed ≡ (m.next_timer, retry_delay_ms * 2 ^ m.retry_count) ∷ m.armed)
            × (m'.timer ≡ some m.next_timer))
      × (m.token_expires_at ≤ now + clock_skew_margin_s * 1000 → o ≡ gave_up e)
      × (opts.max_retries ≤ m.retry_count + 1 → (o ≡ gave_up e) × (m'.armed ≡ m.armed))
unfolding do_refresh
do_refresh_failed opts now m e notified =
    (ground arith, ground arith, ground arith, ground arith, ground arith, ground arith)

-- A pair with a lifetime outside the accepted range counts as a failed refresh and yet replaces
-- the held pair: while the old expiry is ahead the getter returns the refused pair's token.
pub do_refresh_refused :
    (opts : Options) (now later : ℕ) (m : Manager) (pair : TokenPair) (notified : Option Error)
    → max_expires_in_s < pair.expires_in
    → later + clock_skew_margin_s * 1000 < m.token_expires_at
    → let (m', o) = do_refresh opts now m (ok pair) notified in
      (m'.tokens ≡ some pair)
      × (m'.token_expires_at ≡ m.token_expires_at)
      × (m'.retry_count ≡ m.retry_count + 1)
      × (access_token later m' ≡ ok pair.access_token)
unfolding do_refresh access_token
do_refresh_refused opts now later m pair notified big live =
    (ground arith, ground arith, ground arith, ground arith)
