-- ===== src/Token/Examples.antt =====
-- Tests of the token manager, and its theorems at concrete inputs.
use kb_labs_host_agent.Common.{ℕ, ◌+◌, ◌*◌, ◌<◌, ◌≡◌, ◌↔◌, refl, List, [], ◌∷◌, some, none}
use kb_labs_host_agent.Token.{
  TokenPair, Options, options, Manager, initial, Error, not_started, expired, thrown, ok, err,
  access_token, start, do_refresh, retrying, gave_up, clock_skew_margin_s, do_refresh_request,
}
use kb_labs_host_agent.Token.Access.{access_token_iff}
use kb_labs_host_agent.Token.Retries.{fail_all}

abbrev pair : TokenPair
pair = record { access_token = "acc"; refresh_token = "ref"; expires_in = 3600 }

abbrev defaults : Options
defaults = record { refresh_before = 300; max_retries = 3 }

abbrev running : Manager
running = record {
  tokens = some pair;
  token_expires_at = 3_601_000;
  timer = some 0;
  retry_count = 0;
  armed = [];
  next_timer = 1;
}

options_test : options none none ≡ defaults
unfolding options
options_test = refl

start_test :
    start defaults 1000 initial (ok pair)
    ≡ (record running { armed = (0, 3_300_000) ∷ [] }, ok "acc")
unfolding start
start_test = refl

getter_tests :
    (access_token 1000 initial ≡ err not_started)
    × (access_token 3_541_000 running ≡ err expired)
    × (access_token 3_540_999 running ≡ ok "acc")
    × (do_refresh_request running ≡ some "ref")
unfolding access_token do_refresh_request
getter_tests = (refl, refl, refl, refl)

fail_test :
    (fail_all defaults running ((10, thrown "a") ∷ (20, thrown "b") ∷ (30, thrown "c") ∷ [])).1
    ≡ retrying 30_000 ∷ retrying 60_000 ∷ gave_up (thrown "c") ∷ []
unfolding fail_all do_refresh
fail_test = refl

access_token_iff_example : (access_token 5 running ≡ ok "acc") ↔ (
    (p : TokenPair) × (running.tokens ≡ some p)
    × (p.access_token ≡ "acc")
    × (5 + clock_skew_margin_s * 1000 < running.token_expires_at))
access_token_iff_example = access_token_iff 5 running "acc"

abbrev two_failures : List (ℕ × Error)
two_failures = (10, thrown "a") ∷ (20, thrown "b") ∷ []
