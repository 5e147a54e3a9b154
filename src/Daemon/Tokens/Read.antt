-- ===== src/Daemon/Tokens/Read.antt =====
-- Which responses give a token pair, and what the token manager makes of it.
use mathlib.Core.Bool.{false≢true}
use kb_labs_host_agent.Common.{
  ℕ, ◌<◌, true, ◌≡◌, ◌≢◌, refl, ap, ◌∙◌, subst, ◌↔◌, String, Option, none, some, arith, Bool-cases,
  inl, inr, eq_iff,
}
use kb_labs_host_agent.Common.Json.{Json, null, bool, num, str, arr, obj, get, as_text, as_text_iff}
use kb_labs_host_agent.Common.Text.{Text, codes}
use kb_labs_host_agent.Token.{TokenPair}
use kb_labs_host_agent.Resolver.{contains}
use kb_labs_host_agent.Register.{assert_secure_url}
use kb_labs_host_agent.Daemon.Config.{parse_token_pair, filled_text, positive, if_bearer}
use kb_labs_host_agent.Daemon.Config.Accepted.{first_step, next_step}
use kb_labs_host_agent.Daemon.Tokens.{
  Response, gives, or_empty, checked_pair, read_body, parse_token_response, parse_fetched,
  fetch_tokens, refresh_tokens,
}

-- The value has the fields of a token pair: two texts that are not empty, a positive number, and
-- the type `Bearer`.
abbrev pub IsPair : Json → TokenPair → Type 0
IsPair v pair =
    (get v "accessToken" ≡ some (str pair.access_token))
    × (pair.access_token ≢ "")
    × (get v "refreshToken" ≡ some (str pair.refresh_token))
    × (pair.refresh_token ≢ "")
    × (get v "expiresIn" ≡ some (num pair.expires_in))
    × (0 < pair.expires_in)
    × (get v "tokenType" ≡ some (str "Bearer"))

filled_iff :
    (o : Option Json) (t : String)
    → (filled_text (as_text o) ≡ some t) ↔ ((o ≡ some (str t)) × (t ≢ ""))
unfolding filled_text as_text
filled_iff none t = (λ e. cc, λ p. cc p.0)
filled_iff (some (str s)) t = (
  λ e. ground (arith, eq_iff s ""),
  λ p. let same : s ≡ t = cc p.0 in ground (arith, eq_iff s ""),
)
filled_iff (some null) t = (λ e. cc, λ p. cc p.0)
filled_iff (some (bool b)) t = (λ e. cc, λ p. cc p.0)
filled_iff (some (num n)) t = (λ e. cc, λ p. cc p.0)
filled_iff (some (arr vs)) t = (λ e. cc, λ p. cc p.0)
filled_iff (some (obj fs)) t = (λ e. cc, λ p. cc p.0)

positive_iff : (v : Json) (n : ℕ) → (positive v ≡ some n) ↔ ((v ≡ num n) × (0 < n))
unfolding positive
positive_iff (num k) n = ground arith
positive_iff (str s) n = (λ e. cc, λ p. cc p.0)
positive_iff null n = (λ e. cc, λ p. cc p.0)
positive_iff (bool b) n = (λ e. cc, λ p. cc p.0)
positive_iff (arr vs) n = (λ e. cc, λ p. cc p.0)
positive_iff (obj fs) n = (λ e. cc, λ p. cc p.0)

if_bearer_iff :
    (t : String) (p pair : TokenPair) → (if_bearer t p ≡ some pair) ↔ ((t ≡ "Bearer") × (p ≡ pair))
unfolding if_bearer
if_bearer_iff t p pair = ground (arith, eq_iff t "Bearer")

IsPair-sound : (v : Json) (pair : TokenPair) → parse_token_pair v ≡ some pair → IsPair v pair
unfolding parse_token_pair
IsPair-sound v pair h =
    let (a, e₁, h₁) = first_step (filled_text (as_text (get v "accessToken"))) _ h in
    let (r, e₂, h₂) = first_step (filled_text (as_text (get v "refreshToken"))) _ h₁ in
    let (lifetime, e₃, h₃) = first_step (get v "expiresIn") _ h₂ in
    let (n, e₄, h₄) = first_step (positive lifetime) _ h₃ in
    let (t, e₅, h₅) = first_step (as_text (get v "tokenType")) _ h₄ in
    let (bearer, same) =
      (if_bearer_iff t (record { access_token = a; refresh_token = r; expires_in = n }) pair).0
        h₅ in
    let (access, filled_a) = (filled_iff (get v "accessToken") a).0 e₁ in
    let (refresh, filled_r) = (filled_iff (get v "refreshToken") r).0 e₂ in
    let (is_num, pos) = (positive_iff lifetime n).0 e₄ in
    subst (IsPair v) same (
      access,
      filled_a,
      refresh,
      filled_r,
      e₃ ∙ ap some is_num,
      pos,
      (as_text_iff (get v "tokenType") t).0 e₅ ∙ ap (λ x. some (str x)) bearer,
    )

IsPair-complete : (v : Json) (pair : TokenPair) → IsPair v pair → parse_token_pair v ≡ some pair
unfolding parse_token_pair
IsPair-complete v pair (access, filled_a, refresh, filled_r, lifetime, pos, bearer) =
    next_step _ ((filled_iff (get v "accessToken") pair.access_token).1 (access, filled_a)) (
      next_step _ ((filled_iff (get v "refreshToken") pair.refresh_token).1 (refresh, filled_r)) (
        next_step _ lifetime (
          next_step _ ((positive_iff (num pair.expires_in) pair.expires_in).1 (refl, pos)) (
            next_step _ ((as_text_iff (get v "tokenType") "Bearer").1 bearer)
              ((if_bearer_iff "Bearer" pair pair).1 (refl, refl))))))

-- The response carries the pair: it is a success, is said to be JSON, and its body is a pair.
abbrev pub Carries : Option Response → TokenPair → Type 0
Carries fetched pair =
    (r : Response) × (v : Json) × (fetched ≡ some r)
    × (r.ok ≡ true)
    × (contains (codes "application/json") (or_empty r.content_type) ≡ true)
    × (r.body ≡ some v)
    × IsPair v pair

checked_inv :
    (o : Option TokenPair) (pair : TokenPair) → checked_pair o ≡ gives pair → o ≡ some pair
unfolding checked_pair
checked_inv none pair h = cc
checked_inv (some p) pair h = cc

body_inv :
    (o : Option Json) (pair : TokenPair)
    → read_body o ≡ gives pair
    → (v : Json) × (o ≡ some v) × IsPair v pair
unfolding read_body
body_inv none pair h = cc
body_inv (some v) pair h = (v, refl, IsPair-sound v pair (checked_inv (parse_token_pair v) pair h))

response_inv :
    (r : Response) (pair : TokenPair)
    → parse_token_response r ≡ gives pair
    → (r.ok ≡ true)
      × (contains (codes "application/json") (or_empty r.content_type) ≡ true)
      × (read_body r.body ≡ gives pair)
unfolding parse_token_response
response_inv r pair h = elim (Bool-cases r.ok) [
  | inr failed ↦ let bad = rw failed at h in cc
  | inl fine ↦ elim (Bool-cases (contains (codes "application/json") (or_empty r.content_type))) [
    | inr other ↦ let bad = rw (fine, other) at h in cc
    | inl json ↦ (fine, json, rw (fine, json) at h)
  ]
]

fetched_sound :
    (fetched : Option Response) (pair : TokenPair)
    → parse_fetched fetched ≡ gives pair
    → Carries fetched pair
unfolding parse_fetched
fetched_sound none pair h = cc
fetched_sound (some r) pair h =
    let (fine, json, read) = response_inv r pair h in
    let (v, body, is_pair) = body_inv r.body pair read in (r, v, refl, fine, json, body, is_pair)

fetched_complete :
    (fetched : Option Response) (pair : TokenPair)
    → Carries fetched pair
    → parse_fetched fetched ≡ gives pair
unfolding parse_fetched parse_token_response read_body checked_pair
fetched_complete fetched pair (r, v, same, fine, json, body, is_pair) =
    rw same (rw (fine, json, body, IsPair-complete v pair is_pair) refl)

-- `fetchTokens` gives a pair exactly if its URL is secure and a successful response that is said to
-- be JSON came, whose body has that pair: two tokens that are not empty, a positive lifetime and
-- the type `Bearer`. `refreshTokens` does so on such a response whatever the URL is.
pub fetch_tokens_iff :
    (url : Text) (fetched : Option Response) (pair : TokenPair)
    → ((fetch_tokens url fetched ≡ gives pair)
        ↔ ((assert_secure_url url ≡ true) × Carries fetched pair))
      × ((refresh_tokens fetched ≡ gives pair) ↔ Carries fetched pair)
unfolding fetch_tokens refresh_tokens
fetch_tokens_iff url fetched pair = (
  elim (Bool-cases (assert_secure_url url)) [
    | inl secure ↦
        rw secure
          (λ h. (refl, fetched_sound fetched pair h), λ p. fetched_complete fetched pair p.1)
    | inr insecure ↦ rw insecure (λ h. cc, λ p. absurd (false≢true p.0))
  ],
  (fetched_sound fetched pair, fetched_complete fetched pair),
)
