-- ===== src/Daemon/Registered/Read.antt =====
-- What the daemon reads where the command has written.
mod Reads
use kb_labs_host_agent.Daemon.Registered.Read.Reads.{
  find_other, find_own, paths_read, execution_step, absent, given, host_type_local, no_paths-none,
}
use kb_labs_host_agent.Common.{
  Bool, true, false, ◌≡◌, ◌≢◌, refl, ap, sym, ◌∙◌, subst, String, Option, none, some, List, [], ◌∷◌,
  map, str_eq, ◌↔◌,
}
use kb_labs_host_agent.Common.Json.{Json, str, arr, Fields, get, find_field, as_text, as_text_iff}
use kb_labs_host_agent.Common.Text.{Text, codes}
use kb_labs_host_agent.Execution.{in_process}
use kb_labs_host_agent.Files.{path_text}
use kb_labs_host_agent.Ipc.{default_text}
use kb_labs_host_agent.Register.{is_config_url}
use kb_labs_host_agent.Register
use kb_labs_host_agent.Daemon.Config.{
  AgentConfig, local, optional, text, array, each, parse_config, config_url, host_type_of,
  some_texts, parse_workspace, execution_or_default, parse_execution, mode_of, positive_or,
  positive, load_config, loaded, validated,
}
use kb_labs_host_agent.Daemon.Config.Accepted.{
  next_step, config_url_sound, first_step, some_injective,
}
use kb_labs_host_agent.Daemon.Registered.{
  optional_field, texts, last_fields, registered_json, registered_config,
}

validated_inv :
    (o : Option AgentConfig) (config : AgentConfig) → validated o ≡ loaded config → o ≡ some config
unfolding validated
validated_inv none config e = cc
validated_inv (some d) config e = cc

module _ (text_of : Text → String) (c : Register.AgentConfig) where
  abbrev v : Json
  v = registered_json text_of c

  get-last :
      (k : String)
      → str_eq "clientId" k ≡ false
      → str_eq "clientSecret" k ≡ false
      → str_eq "hostId" k ≡ false
      → get v k ≡ find_field k (last_fields text_of c)
  unfolding get registered_json
  get-last k a b d =
      find_other k "clientId" c.client_id _ a
      ∙ (unfold find_field in rw b (find_other k "hostId" c.host_id (last_fields text_of c) d))

  get-client_id : get v "clientId" ≡ c.client_id
  unfolding get registered_json
  get-client_id =
      find_own "clientId" c.client_id _ refl
        (unfold find_field in find_other "clientId" "hostId" c.host_id (last_fields text_of c) refl)

  get-host_id : get v "hostId" ≡ c.host_id
  unfolding get registered_json
  get-host_id =
      find_other "hostId" "clientId" c.client_id _ refl
      ∙ (unfold find_field in find_own "hostId" c.host_id (last_fields text_of c) refl refl)

  get-client_secret : get v "clientSecret" ≡ some (str (text_of c.client_secret))
  unfolding get registered_json
  get-client_secret =
      find_other "clientSecret" "clientId" c.client_id _ refl ∙ (unfold find_field in refl)

  get-private_key : get v "privateKey" ≡ none
  unfolding find_field
  get-private_key = get-last "privateKey" refl refl refl

  get-public_key : get v "publicKey" ≡ none
  unfolding find_field
  get-public_key = get-last "publicKey" refl refl refl

  get-workspaces : get v "workspaces" ≡ none
  unfolding find_field
  get-workspaces = get-last "workspaces" refl refl refl

  get-namespace_id : get v "namespaceId" ≡ some (str c.namespace_id)
  unfolding find_field
  get-namespace_id = get-last "namespaceId" refl refl refl

  get-host_type : get v "hostType" ≡ some (str "local")
  unfolding find_field
  get-host_type = get-last "hostType" refl refl refl

  module _ (is_url : String → Bool) where
    -- What the daemon needs of a configuration that the command wrote.
    abbrev pub Fits : (client_id host_id : String) → Type 0
    Fits client_id host_id =
        (c.client_id ≡ some (str client_id))
        × (c.host_id ≡ some (str host_id))
        × (is_url (text_of c.gateway_url) ≡ true)
        × (is_config_url (codes (text_of c.gateway_url)) ≡ true)
        × (c.workspace_paths ≢ [])

    gateway_step :
        is_url (text_of c.gateway_url) ≡ true
        → is_config_url (codes (text_of c.gateway_url)) ≡ true
        → config_url is_url (as_text (get v "gatewayUrl")) ≡ some (text_of c.gateway_url)
    unfolding find_field as_text config_url
    gateway_step url secure = rw (get-last "gatewayUrl" refl refl refl) (rw (url, secure) refl)

    paths_step :
        c.workspace_paths ≢ []
        → some_texts (get v "workspacePaths")
          ≡ some (map (λ p. text_of (path_text p)) c.workspace_paths)
    unfolding find_field
    paths_step paths =
        rw (get-last "workspacePaths" refl refl refl)
          (paths_read (λ p. text_of (path_text p)) c.workspace_paths paths)

    accepts :
        (i h : String) → Fits i h → parse_config is_url v ≡ some (registered_config text_of i h c)
    unfolding parse_config
    accepts i h (client, host, url, secure, paths) =
        next_step _ ((as_text_iff (get v "clientId") i).1 (get-client_id ∙ client)) (
          next_step _
            ((as_text_iff (get v "clientSecret") (text_of c.client_secret)).1 get-client_secret)
            (next_step _ ((as_text_iff (get v "hostId") h).1 (get-host_id ∙ host)) (
              next_step _ (gateway_step url secure) (
                next_step _ (absent text (get v "privateKey") get-private_key) (
                  next_step _ (absent text (get v "publicKey") get-public_key) (
                    next_step _ (given "default" c.namespace_id get-namespace_id) (
                      next_step _ (given "local" "local" get-host_type) (
                        next_step _ host_type_local (
                          next_step _ (paths_step paths) (
                            next_step _
                              (absent (array parse_workspace) (get v "workspaces") get-workspaces)
                              (next_step _
                                (ap execution_or_default (get-last "execution" refl refl refl)
                                  ∙ execution_step c text_of)
                                refl)))))))))))

    secure_url :
        (url : String)
        → config_url is_url (as_text (get v "gatewayUrl")) ≡ some url
        → (is_url (text_of c.gateway_url) ≡ true)
          × (is_config_url (codes (text_of c.gateway_url)) ≡ true)
    unfolding find_field as_text
    secure_url url e =
        let e' = rw (get-last "gatewayUrl" refl refl refl) at e in
        let (own, good, secure) = config_url_sound is_url (some (text_of c.gateway_url)) url e' in
        let same = some_injective own in
        (
          subst (λ u. is_url u ≡ true) (sym same) good,
          subst (λ u. is_config_url (codes u) ≡ true) (sym same) secure,
        )

    some_path :
        (xs : List String) → some_texts (get v "workspacePaths") ≡ some xs → c.workspace_paths ≢ []
    unfolding find_field
    some_path xs e empty =
        let e' = rw (get-last "workspacePaths" refl refl refl) at e in
        let e'' = rw empty at e' in let bad : none ≡ some xs = sym no_paths-none ∙ e'' in cc

    needs :
        (config : AgentConfig)
        → parse_config is_url v ≡ some config
        → (i : String) × (h : String) × Fits i h
    unfolding parse_config
    needs config e =
        let (i, client, h₁) = first_step (as_text (get v "clientId")) _ e in
        let (_, _, h₂) = first_step (as_text (get v "clientSecret")) _ h₁ in
        let (h, host, h₃) = first_step (as_text (get v "hostId")) _ h₂ in
        let (url, at, h₄) = first_step (config_url is_url (as_text (get v "gatewayUrl"))) _ h₃ in
        let (_, _, h₅) = first_step (optional text (get v "privateKey")) _ h₄ in
        let (_, _, h₆) = first_step (optional text (get v "publicKey")) _ h₅ in
        let (_, _, h₇) = first_step (default_text "default" (get v "namespaceId")) _ h₆ in
        let (_, _, h₈) = first_step (default_text "local" (get v "hostType")) _ h₇ in
        let (_, _, h₉) = first_step (host_type_of _) _ h₈ in
        let (paths, some_paths, ha) = first_step (some_texts (get v "workspacePaths")) _ h₉ in
        let (good, secure) = secure_url url at in
        (
          i,
          h,
          (
            sym get-client_id ∙ (as_text_iff (get v "clientId") i).0 client,
            sym get-host_id ∙ (as_text_iff (get v "hostId") h).0 host,
            good,
            secure,
            some_path paths some_paths,
          ),
        )

accepted_load :
    (text_of : Text → String) (c : Register.AgentConfig) (is_url : String → Bool) (i h : String)
    → Fits text_of c is_url i h
    → validated (parse_config is_url (registered_json text_of c))
      ≡ loaded (registered_config text_of i h c)
unfolding validated
accepted_load text_of c is_url i h fits = ap validated (accepts text_of c is_url i h fits)

loaded_injective : {a b : AgentConfig} → loaded a ≡ loaded b → a ≡ b
loaded_injective h = cc

-- The daemon loads a configuration from what the command wrote exactly if the gateway gave texts
-- as the ids of client and host, the URL is one for the schema library and has https, or http and
-- `localhost` or 127.0.0.1 in front, and there is a workspace path; and it is then the
-- configuration that was written.
pub registered_accepted :
    (text_of : Text → String) (c : Register.AgentConfig) (is_url : String → Bool)
    (config : AgentConfig)
    → (load_config is_url (some (some (registered_json text_of c))) ≡ loaded config) ↔ (
        (i : String) × (h : String) × Fits text_of c is_url i h
        × (config ≡ registered_config text_of i h c))
unfolding load_config
registered_accepted text_of c is_url config = (
  λ e.
      let (i, h, fits) = needs text_of c is_url config (validated_inv _ config e) in
      let own = accepted_load text_of c is_url i h fits in
      (i, h, fits, loaded_injective (sym e ∙ own)),
  λ (i, h, fits, same). accepted_load text_of c is_url i h fits ∙ ap loaded (sym same),
)
