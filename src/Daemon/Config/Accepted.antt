-- ===== src/Daemon/Config/Accepted.antt =====
-- What a configuration is that the daemon accepts.
use kb_labs_host_agent.Common.{
  ℕ, ◌<◌, Bool, true, ◌&&◌, ◌≡◌, refl, ap, subst, String, Option, none, some, List, [], ◌∷◌, ◌++◌,
  arith, length, Bool-cases, inl, inr, ◌∙◌,
}
use kb_labs_host_agent.Common.Json.{Json, null, bool, num, str, arr, obj, end, get, as_text}
use kb_labs_host_agent.Common.Text.{Text, codes, starts_with, strip_prefix, starts_with_sound}
use kb_labs_host_agent.Ipc.{default_text}
use kb_labs_host_agent.Register.{is_config_url, assert_secure_url}
use kb_labs_host_agent.Gateway.Url.{
  connect_url, replace_http, is_allowed, is_secure_ws, is_loopback,
}
use kb_labs_host_agent.Daemon.Config.{
  AgentConfig, ExecutionConfig, optional, text, array, parse_config, config_url, host_type_of,
  some_texts, parse_workspace, execution_or_default, parse_execution, mode_of, positive_or,
  positive, ◌>>=◌,
}

-- A chain that gives a value gives one at its first step.
pub first_step {ℓ κ} :
    {A : Type ℓ} {B : Type κ} (o : Option A) (f : A → Option B) {b : B}
    → (o >>= f) ≡ some b
    → (a : A) × (o ≡ some a) × (f a ≡ some b)
first_step none f h = cc
first_step (some a) f h = (a, refl, h)

-- A step that gives a value goes on with it.
pub next_step {ℓ κ} :
    {A : Type ℓ} {B : Type κ} {o : Option A} {a : A} (f : A → Option B) {r : Option B}
    → o ≡ some a
    → f a ≡ r
    → (o >>= f) ≡ r
next_step f e k = ap (λ x. x >>= f) e ∙ k

pub some_injective {ℓ} : {A : Type ℓ} {a b : A} → some a ≡ some b → a ≡ b
some_injective h = cc

pub config_url_sound :
    (is_url : String → Bool) (o : Option String) (url : String)
    → config_url is_url o ≡ some url
    → (o ≡ some url) × (is_url url ≡ true) × (is_config_url (codes url) ≡ true)
unfolding config_url
config_url_sound is_url none url h = cc
config_url_sound is_url (some s) url h = elim (Bool-cases (is_url s && is_config_url (codes s))) [
  | inl fine ↦
      let e : some s ≡ some url = rw fine at h in
      let same : s ≡ url = cc in
      let both : (is_url s ≡ true) × (is_config_url (codes s) ≡ true) = ground arith in
      (
        ap some same,
        subst (λ t. is_url t ≡ true) same both.0,
        subst (λ t. is_config_url (codes t) ≡ true) same both.1,
      )
  | inr refused ↦ let bad : none ≡ some url = rw refused at h in cc
]

some_texts-filled : (o : Option Json) (xs : List String) → some_texts o ≡ some xs → 0 < length xs
unfolding some_texts
some_texts-filled none xs h = cc
some_texts-filled (some v) xs h =
    let (ys, e, rest) = first_step (array text v) _ h in filled ys rest
  where
    filled :
        (ys : List String)
        → (elim ys [ [] ↦ none | x ∷ more ↦ some (x ∷ more) ]) ≡ some xs
        → 0 < length xs
    filled [] r = cc
    filled (y ∷ ys) r =
        let same : y ∷ ys ≡ xs = cc in subst (λ zs. 0 < length zs) same (omega arith)

positive_or-positive : (d : ℕ) (o : Option Json) (n : ℕ) → 0 < d → positive_or d o ≡ some n → 0 < n
unfolding positive_or positive
positive_or-positive d none n h e = let same : d ≡ n = cc in subst (λ k. 0 < k) same h
positive_or-positive d (some (num k)) n h e = ground arith
positive_or-positive d (some null) n h e = cc
positive_or-positive d (some (bool b)) n h e = cc
positive_or-positive d (some (str s)) n h e = cc
positive_or-positive d (some (arr vs)) n h e = cc
positive_or-positive d (some (obj fs)) n h e = cc

execution-positive :
    (v : Json) (x : ExecutionConfig) → parse_execution v ≡ some x → 0 < x.timeout_ms
unfolding parse_execution
execution-positive v x h =
    let (_, _, h₁) = first_step (default_text "in-process" (get v "mode")) _ h in
    let (_, _, h₂) = first_step (mode_of _) _ h₁ in
    let (t, e, h₃) = first_step (positive_or 120_000 (get v "timeoutMs")) _ h₂ in
    let (_, _, h₄) = first_step (optional (array text) (get v "allowedPlugins")) _ h₃ in
    let pos = positive_or-positive 120_000 (get v "timeoutMs") t (omega arith) e in ground arith

execution_or_default-positive :
    (o : Option Json) (x : ExecutionConfig) → execution_or_default o ≡ some x → 0 < x.timeout_ms
unfolding execution_or_default
execution_or_default-positive none x h = execution-positive (obj end) x h
execution_or_default-positive (some (obj fs)) x h = execution-positive (obj fs) x h
execution_or_default-positive (some (num k)) x h = cc
execution_or_default-positive (some null) x h = cc
execution_or_default-positive (some (bool b)) x h = cc
execution_or_default-positive (some (str s)) x h = cc
execution_or_default-positive (some (arr vs)) x h = cc

https-allowed :
    (explicit : Bool) (rest : Text)
    → is_allowed explicit (connect_url (codes "https://" ++ rest)) ≡ true
unfolding is_allowed connect_url replace_http strip_prefix is_secure_ws starts_with
https-allowed explicit rest = refl

localhost-allowed :
    (explicit : Bool) (rest : Text)
    → is_allowed explicit (connect_url (codes "http://localhost" ++ rest)) ≡ true
unfolding is_allowed connect_url replace_http strip_prefix is_secure_ws is_loopback starts_with
localhost-allowed explicit rest = refl

loopback-allowed :
    (explicit : Bool) (rest : Text)
    → is_allowed explicit (connect_url (codes "http://127.0.0.1" ++ rest)) ≡ true
unfolding is_allowed connect_url replace_http strip_prefix is_secure_ws is_loopback starts_with
loopback-allowed explicit rest = refl

-- The client dials for every gateway that the schema accepts.
pub config_url-allowed :
    (explicit : Bool) (url : Text)
    → is_config_url url ≡ true
    → is_allowed explicit (connect_url url) ≡ true
unfolding is_config_url
config_url-allowed explicit url h = elim (Bool-cases (starts_with (codes "https://") url)) [
  | inl https ↦
      let (rest, e) = starts_with_sound (codes "https://") url https in
      rw e (https-allowed explicit rest)
  | inr other ↦ elim (Bool-cases (starts_with (codes "http://localhost") url)) [
    | inl local_ ↦
        let (rest, e) = starts_with_sound (codes "http://localhost") url local_ in
        rw e (localhost-allowed explicit rest)
    | inr last ↦
        let loop : starts_with (codes "http://127.0.0.1") url ≡ true = ground arith in
        let (rest, e) = starts_with_sound (codes "http://127.0.0.1") url loop in
        rw e (loopback-allowed explicit rest)
  ]
]

pub config_url-secure : (url : Text) → is_config_url url ≡ true → assert_secure_url url ≡ true
unfolding is_config_url assert_secure_url
config_url-secure url h = ground arith

-- Every configuration that the daemon accepts has a URL that the schema library takes for one, that
-- `fetchTokens` lets pass, and for which the gateway client dials whatever the environment says;
-- at least one workspace path; and a positive timeout of executions.
pub accepted_config :
    (is_url : String → Bool) (explicit : Bool) (v : Json) (config : AgentConfig)
    → parse_config is_url v ≡ some config
    → (is_url config.gateway_url ≡ true)
      × (assert_secure_url (codes config.gateway_url) ≡ true)
      × (is_allowed explicit (connect_url (codes config.gateway_url)) ≡ true)
      × (0 < length config.workspace_paths)
      × (0 < config.execution.timeout_ms)
unfolding parse_config
accepted_config is_url explicit v config h =
    let (_, _, h₁) = first_step (as_text (get v "clientId")) _ h in
    let (_, _, h₂) = first_step (as_text (get v "clientSecret")) _ h₁ in
    let (_, _, h₃) = first_step (as_text (get v "hostId")) _ h₂ in
    let (url, e, h₄) = first_step (config_url is_url (as_text (get v "gatewayUrl"))) _ h₃ in
    let (_, _, h₅) = first_step (optional text (get v "privateKey")) _ h₄ in
    let (_, _, h₆) = first_step (optional text (get v "publicKey")) _ h₅ in
    let (_, _, h₇) = first_step (default_text "default" (get v "namespaceId")) _ h₆ in
    let (_, _, h₈) = first_step (default_text "local" (get v "hostType")) _ h₇ in
    let (_, _, h₉) = first_step (host_type_of _) _ h₈ in
    let (paths, p, ha) = first_step (some_texts (get v "workspacePaths")) _ h₉ in
    let (_, _, hb) = first_step (optional (array parse_workspace) (get v "workspaces")) _ ha in
    let (x, q, hc) = first_step (execution_or_default (get v "execution")) _ hb in
    let (_, good, secure) = config_url_sound is_url (as_text (get v "gatewayUrl")) url e in
    let same = some_injective hc in
    (
      subst (λ (c : AgentConfig). is_url c.gateway_url ≡ true) same good,
      subst (λ (c : AgentConfig). assert_secure_url (codes c.gateway_url) ≡ true) same
          (config_url-secure (codes url) secure),
      subst (λ (c : AgentConfig). is_allowed explicit (connect_url (codes c.gateway_url)) ≡ true)
          same (config_url-allowed explicit (codes url) secure),
      subst (λ (c : AgentConfig). 0 < length c.workspace_paths) same
          (some_texts-filled (get v "workspacePaths") paths p),
      subst (λ (c : AgentConfig). 0 < c.execution.timeout_ms) same
          (execution_or_default-positive (get v "execution") x q),
    )
