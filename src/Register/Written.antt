-- ===== src/Register/Written.antt =====
-- The configuration that the command writes.
use kb_labs_host_agent.Common.{
  ◌≤◌, Bool, true, ◌&&◌, ◌≡◌, refl, ap, sym, ◌∙◌, subst, String, Option, none, some, List, [], ◌∷◌,
  map, length, arith, All, Bool-cases, inl, inr, map,
}
use kb_labs_host_agent.Common.Json.{Json, null, bool, num, arr, obj, str}
use kb_labs_host_agent.Common.Text.{Text, codes}
use kb_labs_host_agent.Files.{resolve}
use kb_labs_host_agent.Transport.{is_truthy}
use kb_labs_host_agent.Register.{
  RegisterInput, Registered, Fetched, AgentConfig, writes, fails, rejected, not_ok, answered,
  invalid_secret, missing_fields, no_gateway, invalid_url, is_empty, execute, check_paths, Checked,
  good, bad, first_good, is_http, is_secret, finish, with_secret, with_paths, drop_slash,
  all_secret, or_default,
}

first_good-inv :
    (p : List Text) (c : Checked) (ps : List (List Text))
    → first_good p c ≡ good ps
    → (qs : List (List Text)) × (c ≡ good qs) × (p ∷ qs ≡ ps)
unfolding first_good
first_good-inv p (bad q) ps h = cc
first_good-inv p (good qs) ps h = (qs, refl, cc)

check_paths_sound :
    (cwd : List Text) (is_directory : List Text → Bool) (raw : List Text) (ps : List (List Text))
    → check_paths cwd is_directory raw ≡ good ps
    → (All (λ p. is_directory p ≡ true) ps) × (ps ≡ map (resolve cwd) raw)
unfolding check_paths
check_paths_sound cwd is_directory [] ps h =
    let same : [] ≡ ps = cc in
    subst (λ qs. (All (λ p. is_directory p ≡ true) qs) × (qs ≡ [])) same (tt, refl)
check_paths_sound cwd is_directory (p ∷ raw) ps h =
    let here = resolve cwd p in
    let more = check_paths cwd is_directory raw in
    elim (Bool-cases (is_directory here)) [
      | inr other ↦ let e : check_paths cwd is_directory (p ∷ raw) ≡ bad here = rw other refl in cc
      | inl dir ↦
          let e : check_paths cwd is_directory (p ∷ raw) ≡ first_good here more = rw dir refl in
          let (qs, held, split) = first_good-inv here more ps (sym e ∙ h) in
          let (dirs, same) = check_paths_sound cwd is_directory raw qs held in
          subst (λ rs. (All (λ p. is_directory p ≡ true) rs) × (rs ≡ here ∷ map (resolve cwd) raw))
            split ((dir, dirs), ap (λ rs. here ∷ rs) same)
    ]

-- What the last steps put into a configuration.
abbrev IsWritten : Text → String → List (List Text) → AgentConfig → Type 0
IsWritten url namespace_id ps c =
    (c.gateway_url ≡ url)
    × (c.namespace_id ≡ namespace_id)
    × (c.workspace_paths ≡ ps)
    × (is_secret c.client_secret ≡ true)

with_secret-IsWritten :
    (o : Option Json) (r : Registered) (url : Text) (namespace_id : String) (ps : List (List Text))
    (c : AgentConfig)
    → with_secret o r url namespace_id ps ≡ writes c
    → IsWritten url namespace_id ps c
unfolding with_secret
with_secret-IsWritten none r url n ps c h = cc
with_secret-IsWritten (some null) r url n ps c h = cc
with_secret-IsWritten (some (bool b)) r url n ps c h = cc
with_secret-IsWritten (some (num k)) r url n ps c h = cc
with_secret-IsWritten (some (arr vs)) r url n ps c h = cc
with_secret-IsWritten (some (obj fs)) r url n ps c h = cc
with_secret-IsWritten (some (str s)) r url n ps c h = elim (Bool-cases (is_secret (codes s))) [
  | inr weak ↦
      let e : with_secret (some (str s)) r url n ps ≡ fails invalid_secret = rw weak refl in cc
  | inl fine ↦
      let d : AgentConfig = record {
        client_id = r.client_id;
        client_secret = codes s;
        host_id = r.host_id;
        gateway_url = url;
        namespace_id = n;
        workspace_paths = ps;
      } in
      let e : with_secret (some (str s)) r url n ps ≡ writes d = rw fine refl in
      let same : d ≡ c = cc in subst (IsWritten url n ps) same (refl, refl, refl, fine)
]

finish-IsWritten :
    (f : Fetched) (url : Text) (namespace_id : String) (ps : List (List Text)) (c : AgentConfig)
    → finish f url namespace_id ps ≡ writes c
    → IsWritten url namespace_id ps c
unfolding finish
finish-IsWritten (rejected m) url n ps c h = cc
finish-IsWritten (not_ok k m) url n ps c h = cc
finish-IsWritten (answered none) url n ps c h = cc
finish-IsWritten (answered (some r)) url n ps c h =
    elim (Bool-cases (is_truthy r.client_id && is_truthy r.client_secret && is_truthy r.host_id)) [
      | inr missing ↦
          let e : finish (answered (some r)) url n ps ≡ fails missing_fields = rw missing refl in cc
      | inl full ↦
          let e : finish (answered (some r)) url n ps ≡ with_secret r.client_secret r url n ps =
            rw full refl in
          with_secret-IsWritten r.client_secret r url n ps c (sym e ∙ h)
    ]

with_paths-IsWritten :
    (o : Checked) (url : Text) (namespace_id : String) (f : Fetched) (c : AgentConfig)
    → with_paths o url namespace_id f ≡ writes c
    → (o ≡ good c.workspace_paths)
      × (is_http url ≡ true)
      × IsWritten url namespace_id c.workspace_paths c
unfolding with_paths
with_paths-IsWritten (bad p) url n f c h = cc
with_paths-IsWritten (good ps) url n f c h = elim (Bool-cases (is_empty url)) [
  | inl empty ↦ let e : with_paths (good ps) url n f ≡ fails no_gateway = rw empty refl in cc
  | inr full ↦ elim (Bool-cases (is_http url)) [
    | inr other ↦
        let e : with_paths (good ps) url n f ≡ fails invalid_url = rw (full, other) refl in cc
    | inl http ↦
        let e : with_paths (good ps) url n f ≡ finish f url n ps = rw (full, http) refl in
        let (a, b, d, fine) = finish-IsWritten f url n ps c (sym e ∙ h) in
        (ap good (sym d), http, (a, b, refl, fine))
  ]
]

-- Whatever the gateway answers, a configuration that the command writes has the URL that it was
-- given, less one slash at its end, which starts with http:// or https://; the workspace paths that
-- it was given, or the working directory, each resolved and a directory, in order; and a secret of
-- at least 16 characters, all of them letters, digits or one of `_`, `-`, `+`, `/` and `=`.
pub execute_written :
    (cwd : List Text) (is_directory : List Text → Bool) (f : Fetched) (input : RegisterInput)
    (c : AgentConfig)
    → execute cwd is_directory f input ≡ writes c
    → (c.gateway_url ≡ drop_slash (or_default input.gateway []))
      × (is_http c.gateway_url ≡ true)
      × (c.workspace_paths ≡ map (resolve cwd) (or_default input.workspace ([] ∷ [])))
      × All (λ p. is_directory p ≡ true) c.workspace_paths
      × (16 ≤ length c.client_secret)
      × (all_secret c.client_secret ≡ true)
unfolding execute is_secret
execute_written cwd is_directory f input c h =
    let raw = or_default input.workspace ([] ∷ []) in
    let url = drop_slash (or_default input.gateway []) in
    let (checked, http, (same, named, paths, fine)) =
      with_paths-IsWritten (check_paths cwd is_directory raw) url
        (or_default input.namespace "default") f c h in
    let (dirs, resolved) = check_paths_sound cwd is_directory raw c.workspace_paths checked in
    (same, ap is_http same ∙ http, resolved, dirs, ground arith, ground arith)
