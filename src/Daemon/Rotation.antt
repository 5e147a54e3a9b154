-- ===== src/Daemon/Rotation.antt =====
-- What the daemon does when the token manager has rotated the token.
use kb_labs_host_agent.Common.{
  ℕ, ◌≤◌, ◌<◌, Bool, true, ◌≡◌, refl, ap, ◌∙◌, subst, String, none, some, [], ◌∷◌, arith, ==_refl,
}
use kb_labs_host_agent.Common.Json.{Json}
use kb_labs_host_agent.Common.Text.{Text, codes}
use kb_labs_host_agent.Gateway.State.{Client, close_socket, open_socket, connecting}
use kb_labs_host_agent.Gateway.Methods.{
  stop, connect, plan_connect, do_connect, dial, close_ws, clear_timers,
}
use kb_labs_host_agent.Gateway.Events.{Event, connects}
use kb_labs_host_agent.Gateway.Events
use kb_labs_host_agent.Gateway.Url.{connect_url, is_allowed}
use kb_labs_host_agent.Token.{
  Manager, TokenPair, ok, refreshed, do_refresh, access_token, clock_skew_margin_s,
  max_expires_in_s,
}
use kb_labs_host_agent.Daemon.Config.{AgentConfig, parse_config}
use kb_labs_host_agent.Daemon.Config.Accepted.{accepted_config}
use kb_labs_host_agent.Daemon.{
  Daemon, client_does, refresh_answers, step, after_refresh, ws_reconnect, client_step, then_step,
  with_client, with_token, after_actions, after_action, get_access_token, ok_or_none,
  gateway_options, token_options, get_status,
}

-- A pair that the manager takes, and that is valid for longer than the clock skew.
abbrev pub IsUsable : TokenPair → Type 0
IsUsable pair = (clock_skew_margin_s < pair.expires_in) × (pair.expires_in ≤ max_expires_in_s)

do_refresh-usable :
    (now : ℕ) (m : Manager) (pair : TokenPair)
    → IsUsable pair
    → ((do_refresh token_options now m (ok pair) none).1 ≡ refreshed pair)
      × (access_token now (do_refresh token_options now m (ok pair) none).0 ≡ ok pair.access_token)
unfolding do_refresh access_token
do_refresh-usable now m pair h = (ground arith, ground arith)

stop_lem :
    (c : Client) (s : ℕ)
    → c.ws ≡ some s
    → ((stop c).1 ≡ close_socket s 1000 ∷ []) × ((stop c).0.next_socket ≡ c.next_socket)
unfolding stop close_ws clear_timers
stop_lem c s h = (ground arith, ground arith)

connect_lem :
    (c : Client) (url : Text) (token : String)
    → ((connect (dial url token) c).1 ≡ open_socket c.next_socket url token ∷ [])
      × ((connect (dial url token) c).0.ws ≡ some c.next_socket)
      × ((connect (dial url token) c).0.ready c.next_socket ≡ connecting)
unfolding connect do_connect
connect_lem c url token = (refl, refl, rw (==_refl c.next_socket) refl)

plan_lem :
    (config : AgentConfig) (explicit : Bool) (token : String)
    → is_allowed explicit (connect_url (codes config.gateway_url)) ≡ true
    → plan_connect (gateway_options config) explicit (some token)
      ≡ dial (connect_url (codes config.gateway_url)) token
unfolding plan_connect gateway_options
plan_lem config explicit token h = rw h refl

reconnect_lem :
    (config : AgentConfig) (explicit : Bool) (now s : ℕ) (token : String) (d : Daemon)
    → is_allowed explicit (connect_url (codes config.gateway_url)) ≡ true
    → access_token now d.manager ≡ ok token
    → d.client.ws ≡ some s
    → let (d', acts) = ws_reconnect config explicit now d in
      let url = connect_url (codes config.gateway_url) in
      (acts
        ≡ client_does (close_socket s 1000)
          ∷ client_does (open_socket d.client.next_socket url token)
          ∷ [])
      × (d'.client.ws ≡ some d.client.next_socket)
      × (d'.client.ready d.client.next_socket ≡ connecting)
      × (d'.connected ≡ d.connected)
      × (d'.manager ≡ d.manager)
unfolding ws_reconnect then_step client_step with_client with_token get_access_token ok_or_none
    after_actions after_action Events.step
reconnect_lem config explicit now s token d allowed live held =
    let (closes, kept) = stop_lem d.client s held in
    let url = connect_url (codes config.gateway_url) in
    let c = (stop d.client).0 in
    let (opens, holds, dials) = connect_lem c url token in
    rw (live, plan_lem config explicit token allowed, closes, opens)
      (
        ap (λ n. client_does (close_socket s 1000) ∷ client_does (open_socket n url token) ∷ [])
            kept,
        holds ∙ ap some kept,
        subst (λ n. (connect (dial url token) c).0.ready n ≡ connecting) kept dials,
        refl,
        refl,
      )

-- A rotation of the token, with a configuration that was loaded, from any state in which the client
-- holds a socket: on an answer with a usable pair the manager gives the new token, and the daemon
-- closes the socket and then dials the gateway with that token. Its status says the same as before,
-- though the new socket is only connecting. The URL is one that `WebSocket` takes, which is more than
-- the configuration asks of it.
pub rotation :
    (is_url : String → Bool) (explicit : Bool) (v : Json) (config : AgentConfig) (now s : ℕ)
    (pair : TokenPair) (d : Daemon)
    → parse_config is_url v ≡ some config
    → IsUsable pair
    → d.client.ws ≡ some s
    → let (d', acts) = step config explicit now (refresh_answers (ok pair)) d in
      let new = d.client.next_socket in
      let url = connect_url (codes config.gateway_url) in
      (access_token now d'.manager ≡ ok pair.access_token)
      × (acts
          ≡ client_does (close_socket s 1000)
            ∷ client_does (open_socket new url pair.access_token)
            ∷ [])
      × (d'.client.ws ≡ some new)
      × (d'.client.ready new ≡ connecting)
      × (get_status config explicit d' ≡ get_status config explicit d)
unfolding step after_refresh get_status
rotation is_url explicit v config now s pair d valid usable held =
    let (_, _, allowed, _, _) = accepted_config is_url explicit v config valid in
    let (done, live) = do_refresh-usable now d.manager pair usable in
    let d₂ : Daemon = record d {
      manager = (do_refresh token_options now d.manager (ok pair) none).0;
    } in
    let (acts, holds, dials, same, kept) =
      reconnect_lem config explicit now s pair.access_token d₂ allowed live held in
    rw done (
      ap (λ m. access_token now m) kept ∙ live,
      acts,
      holds,
      dials,
      ap (λ b. get_status config explicit (record d { connected = b })) same,
    )
