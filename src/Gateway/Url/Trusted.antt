-- ===== src/Gateway/Url/Trusted.antt =====
-- Which URLs `doConnect` accepts, said without its tests.
use kb_labs_host_agent.Common.{
  ℕ, ◌+◌, ◌-◌, ◌*◌, ◌≤◌, true, ◌∷◌, ◌++◌, ◌≡◌, ◌↔◌, ◌⊎◌, arith, ap, ◌∙◌, refl, Bool, Option-cases,
  inr, inl, ◌||◌, sym, some, false,
}
use kb_labs_host_agent.Common.Text.{
  Text, codes, starts_with, starts_with-append, starts_with_sound, strip_prefix,
  strip_prefix-append, strip_prefix_sound,
}
use kb_labs_host_agent.Gateway.Url.{
  is_second_block, is_loopback, after_172, is_private_ip, is_private_host, after_scheme, is_allowed,
  connect_url, replace_http, is_secure_ws,
}

-- A text that begins with a prefix.
abbrev pub Begins : Text → Text → Type 0
Begins p s = (rest : Text) × (s ≡ p ++ rest)

Begins-iff : (p s : Text) → (starts_with p s ≡ true) ↔ Begins p s
Begins-iff p s =
    (λ h. starts_with_sound p s h, λ (rest, e). ap (starts_with p) e ∙ starts_with-append p rest)

-- Two decimal digits of a number from 16 to 31, and a dot.
abbrev pub BeginsSecondBlock : Text → Type 0
BeginsSecondBlock s =
    (a : ℕ) × (b : ℕ) × (rest : Text) × (s ≡ (b'0' + a) ∷ (b'0' + b) ∷ b'.' ∷ rest)
    × (b ≤ 9)
    × (16 ≤ 10 * a + b)
    × (10 * a + b ≤ 31)

is_second_block_sound : (s : Text) → is_second_block s ≡ true → BeginsSecondBlock s
unfolding is_second_block
is_second_block_sound (a ∷ b ∷ dot ∷ rest) h =
    (a - b'0', b - b'0', rest, ground arith, ground arith, ground arith, ground arith)
is_second_block_sound _ h = cc

is_second_block_complete : (s : Text) → BeginsSecondBlock s → is_second_block s ≡ true
unfolding is_second_block
is_second_block_complete s (a, b, rest, e, nine, lo, hi) = rw e (ground arith)

-- The host names and address prefixes that the comment in `doConnect` lists.
pub data IsTrusted (host : Text) : Type 0 where
  localhost : Begins (codes "localhost") host → IsTrusted host
  loopback : Begins (codes "127.0.0.1") host → IsTrusted host
  class_a : Begins (codes "10.") host → IsTrusted host
  class_b : (rest : Text) → host ≡ codes "172." ++ rest → BeginsSecondBlock rest → IsTrusted host
  class_c : Begins (codes "192.168.") host → IsTrusted host
  docker : Begins (codes "host.docker.internal") host → IsTrusted host

abbrev pub IsAcceptable : Text → Type 0
IsAcceptable url =
    Begins (codes "wss://") url ⊎ ((host : Text) × (url ≡ codes "ws://" ++ host) × IsTrusted host)

or_cases : (a b : Bool) → (a || b) ≡ true → (a ≡ true) ⊎ (b ≡ true)
or_cases true b h = inl refl
or_cases Bool.false b h = inr h

or_left : (a b : Bool) → a ≡ true → (a || b) ≡ true
or_left a b h = ground arith

or_right : (a b : Bool) → b ≡ true → (a || b) ≡ true
or_right a b h = ground arith

begins : (p s : Text) → starts_with p s ≡ true → Begins p s
begins p s h = (Begins-iff p s).0 h

after_172_sound :
    (host : Text) → after_172 (strip_prefix (codes "172.") host) ≡ true → IsTrusted host
unfolding after_172
after_172_sound host h = elim (Option-cases (strip_prefix (codes "172.") host)) [
  | inl e ↦ cc (h, ap after_172 e)
  | inr (rest, e) ↦
      class_b rest (strip_prefix_sound (codes "172.") host rest e)
        (is_second_block_sound rest (sym (ap after_172 e) ∙ h))
]

is_private_host_sound : (host : Text) → is_private_host host ≡ true → IsTrusted host
unfolding is_private_host
is_private_host_sound host h =
    let ten = starts_with (codes "10.") host in
    let block = after_172 (strip_prefix (codes "172.") host) in
    let c = starts_with (codes "192.168.") host in
    let d = starts_with (codes "host.docker.internal") host in
    elim (or_cases (ten || block || c) d h) [
      | inl front ↦ elim (or_cases (ten || block) c front) [
        | inl front' ↦ elim (or_cases ten block front') [
          | inl e ↦ class_a (begins (codes "10.") host e)
          | inr e ↦ after_172_sound host e
        ]
        | inr e ↦ class_c (begins (codes "192.168.") host e)
      ]
      | inr e ↦ docker (begins (codes "host.docker.internal") host e)
    ]

is_loopback_sound :
    (url : Text)
    → is_loopback url ≡ true
    → (host : Text) × (url ≡ codes "ws://" ++ host) × IsTrusted host
unfolding is_loopback
is_loopback_sound url h =
    elim (or_cases (starts_with (codes "ws://localhost") url)
      (starts_with (codes "ws://127.0.0.1") url) h) [
        | inl l ↦
            let (rest, e) = begins (codes "ws://localhost") url l in
            (codes "localhost" ++ rest, e, localhost (rest, refl))
        | inr l ↦
            let (rest, e) = begins (codes "ws://127.0.0.1") url l in
            (codes "127.0.0.1" ++ rest, e, loopback (rest, refl))
      ]

is_private_ip_sound :
    (url : Text)
    → is_private_ip url ≡ true
    → (host : Text) × (url ≡ codes "ws://" ++ host) × IsTrusted host
unfolding is_private_ip after_scheme
is_private_ip_sound url h = elim (Option-cases (strip_prefix (codes "ws://") url)) [
  | inl e ↦ cc (h, ap after_scheme e)
  | inr (host, e) ↦ (
    host,
    strip_prefix_sound (codes "ws://") url host e,
    is_private_host_sound host (sym (ap after_scheme e) ∙ h),
  )
]

starts_with_of_Begins : (p s : Text) → Begins p s → starts_with p s ≡ true
starts_with_of_Begins p s b = (Begins-iff p s).1 b

is_private_ip-host :
    (host : Text) → is_private_host host ≡ true → is_private_ip (codes "ws://" ++ host) ≡ true
unfolding is_private_ip after_scheme
is_private_ip-host host h = rw (strip_prefix-append (codes "ws://") host) h

-- A trusted host passes one of the two tests on `ws://` URLs.
trusted_passes :
    (host : Text)
    → IsTrusted host
    → (is_loopback (codes "ws://" ++ host) ≡ true) ⊎ (is_private_host host ≡ true)
unfolding is_loopback is_private_host after_172
trusted_passes host (localhost (rest, e)) =
    let b =
      starts_with_of_Begins (codes "ws://localhost") (codes "ws://" ++ host)
        (rest, ap (◌++◌ (codes "ws://")) e) in
    inl (ground arith)
trusted_passes host (loopback (rest, e)) =
    let b =
      starts_with_of_Begins (codes "ws://127.0.0.1") (codes "ws://" ++ host)
        (rest, ap (◌++◌ (codes "ws://")) e) in
    inl (ground arith)
trusted_passes host (class_a b) =
    let e = starts_with_of_Begins (codes "10.") host b in inr (ground arith)
trusted_passes host (class_b rest e b) =
    let cut : strip_prefix (codes "172.") host ≡ some rest =
      ap (strip_prefix (codes "172.")) e ∙ strip_prefix-append (codes "172.") rest in
    let two = is_second_block_complete rest b in inr (ground arith)
trusted_passes host (class_c b) =
    let e = starts_with_of_Begins (codes "192.168.") host b in inr (ground arith)
trusted_passes host (docker b) =
    let e = starts_with_of_Begins (codes "host.docker.internal") host b in inr (ground arith)

-- Without the explicit setting, a URL is accepted exactly when it begins with `wss://`, or with
-- `ws://` and one of the host names and address prefixes of the source's comment.
pub is_allowed_iff : (url : Text) → (is_allowed false url ≡ true) ↔ IsAcceptable url
unfolding is_allowed
is_allowed_iff url = (
  λ h. elim (or_cases (is_secure_ws url || is_loopback url || is_private_ip url) false h) [
    | inl front ↦ elim (or_cases (is_secure_ws url || is_loopback url) (is_private_ip url) front) [
      | inl front' ↦ elim (or_cases (is_secure_ws url) (is_loopback url) front') [
        | inl e ↦ inl (secure e)
        | inr e ↦ inr (is_loopback_sound url e)
      ]
      | inr e ↦ inr (is_private_ip_sound url e)
    ]
    | inr e ↦ cc
  ],
  accepted,
)
  where
    secure : is_secure_ws url ≡ true → Begins (codes "wss://") url
    secure e = begins (codes "wss://") url (unfold is_secure_ws in e)

    accepted : IsAcceptable url → is_allowed false url ≡ true
    accepted (inl b) =
        let e : is_secure_ws url ≡ true =
          unfold is_secure_ws in (starts_with_of_Begins (codes "wss://") url b) in
        ground arith
    accepted (inr (host, e, t)) = elim (trusted_passes host t) [
      | inl l ↦ let l' : is_loopback url ≡ true = ap is_loopback e ∙ l in ground arith
      | inr p ↦
          let p' : is_private_ip url ≡ true = ap is_private_ip e ∙ is_private_ip-host host p in
          ground arith
    ]

-- An accepted plain host name need not be a local one: any name that goes on after `localhost`
-- passes, whatever follows.
pub is_allowed_localhost_prefix :
    (rest : Text) → is_allowed false (connect_url (codes "http://localhost" ++ rest)) ≡ true
unfolding connect_url replace_http strip_prefix
is_allowed_localhost_prefix rest =
    (is_allowed_iff (connect_url (codes "http://localhost" ++ rest))).1 (
      inr (
        codes "localhost" ++ (rest ++ codes "/hosts/connect"),
        refl,
        localhost (rest ++ codes "/hosts/connect", refl),
      ))
