-- ===== src/Daemon/Serving.antt =====
-- What the daemon does with a message on its local socket: the IPC server that `startDaemon` makes
-- (apps/host-agent-app/src/daemon.ts), over the gateway client, whose token comes from the token
-- manager. `handleMessage` is called with `void`: an error in it is a rejection that nobody handles.
use kb_labs_host_agent.Common.{
  ℕ, ◌+◌, ◌*◌, ◌≤◌, ◌≡◌, refl, ap, Bool, true, String, Option, none, some, leb, ltb, ◌<◌,
  Bool-cases, inl, inr, if◌then◌else◌, List, [], ◌∷◌, map, arith, ◌<◌, ◌++◌,
}
use kb_labs_host_agent.Common.Json.{Json, Fields, obj}
use kb_labs_host_agent.Common.Text.{Text, codes}
use kb_labs_host_agent.Gateway.Tunnel.{
  Post, ExecuteBody, execute_body, execute_tunnel, cancel_execute,
}
use kb_labs_host_agent.HostClient.{status_json, execute_json}
use kb_labs_host_agent.Ipc.{
  Action, warns, sends, tunnels, cancels, IpcResponse, handle_message, handle_execute,
}
use kb_labs_host_agent.Ipc
use kb_labs_host_agent.Ipc.Requests.{client_requests}
use kb_labs_host_agent.Token.{access_token, clock_skew_margin_s, Manager, TokenPair}
use kb_labs_host_agent.Token.Access.{access_token_iff}
use kb_labs_host_agent.Daemon.Config.{AgentConfig}
use kb_labs_host_agent.Daemon.{Daemon, get_status, get_access_token, ok_or_none}

pub data Served : Type 0 where
  warns_of : Json → Served
  answers : IpcResponse → Served
  posts_execute : (request_id : String) → Post ExecuteBody → Served
  posts_cancel : Post String → Served
  unhandled_rejection : Served

unfoldable pub posted : String → Option (Post ExecuteBody) → Served
posted request_id none = unhandled_rejection
posted request_id (some post) = posts_execute request_id post

unfoldable pub cancelled : Option (Post String) → Served
cancelled none = unhandled_rejection
cancelled (some post) = posts_cancel post

abbrev params_json : Option Fields → Option Json
params_json none = none
params_json (some fs) = some (obj fs)

-- An action of the server, with the token at that time.
unfoldable pub serve_action : (gateway_url : Text) → (token : Option String) → Action → Served
unfolding posted cancelled
serve_action gateway_url token (warns raw) = warns_of raw
serve_action gateway_url token (sends response) = answers response
serve_action gateway_url token (tunnels req) =
    posted req.request_id
      (execute_tunnel gateway_url token (codes req.command) (params_json req.params))
serve_action gateway_url token (cancels execution_id reason) =
    cancelled (cancel_execute gateway_url token (codes execution_id) (some reason))

live_token :
    (now : ℕ) (m : Manager) (pair : TokenPair)
    → m.tokens ≡ some pair
    → now + clock_skew_margin_s * 1000 < m.token_expires_at
    → get_access_token now m ≡ some pair.access_token
unfolding get_access_token ok_or_none
live_token now m pair held live =
    ap ok_or_none ((access_token_iff now m pair.access_token).1 (pair, held, refl, live))

dead_token :
    (now : ℕ) (m : Manager) (pair : TokenPair)
    → m.tokens ≡ some pair
    → m.token_expires_at ≤ now + clock_skew_margin_s * 1000
    → get_access_token now m ≡ none
unfolding get_access_token access_token ok_or_none
dead_token now m pair held dead =
    let passed : leb m.token_expires_at (now + clock_skew_margin_s * 1000) ≡ true = ground arith in
    rw (held, passed) refl

module _ (config : AgentConfig) (explicit : Bool) (now : ℕ) (d : Daemon) where
  unfoldable pub serve : (raw : Json) → List Served
  serve raw =
      map (serve_action (codes config.gateway_url) (get_access_token now d.manager))
        (handle_message true (get_status config explicit d) raw)

  -- What a request of the client comes to. A status request is answered with the daemon's status,
  -- whatever the token is. An `execute` with an object of parameters is posted to the gateway with
  -- the token that the manager holds, if that is good for longer than the margin, and is then not
  -- answered yet; from the margin on, it is neither posted nor answered: the error of the getter
  -- is a rejection that nothing handles.
  pub serve_requests :
      (id command : String) (fs : Fields) (pair : TokenPair)
      → d.manager.tokens ≡ some pair
      → let post : Post ExecuteBody = record {
        url = codes config.gateway_url ++ codes "/api/v1/execute";
        token = pair.access_token;
        content = execute_body (codes command) (some (obj fs));
      } in
        let is_live = ltb (now + clock_skew_margin_s * 1000) d.manager.token_expires_at in
        (serve (status_json id) ≡ answers (Ipc.status (get_status config explicit d)) ∷ [])
        × (serve (execute_json id command (obj fs))
            ≡ (if is_live then posts_execute id post else unhandled_rejection) ∷ [])
  unfolding serve serve_action handle_message handle_execute posted execute_tunnel
  serve_requests id command fs pair held =
      let read = client_requests id command (obj fs) fs in
      let executes = read.1.1 refl in
      (
        rw read.0 refl,
        elim (Bool-cases (ltb (now + clock_skew_margin_s * 1000) d.manager.token_expires_at)) [
          | inl live ↦ rw (live, executes, live_token now d.manager pair held (ground arith)) refl
          | inr dead ↦ rw (dead, executes, dead_token now d.manager pair held (ground arith)) refl
        ],
      )
