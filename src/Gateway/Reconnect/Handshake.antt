-- ===== src/Gateway/Reconnect/Handshake.antt =====
-- The handshake's reply: what is accepted, and what a refused reply does.
use kb_labs_host_agent.Common.{
  ℕ, ◌≡◌, ◌≢◌, refl, String, [], ◌∷◌, none, some, arith, eq_iff, ◌↔◌, Option-cases, inl, inr,
}
use kb_labs_host_agent.Common.Json.{Json, null, str, get, as_text, as_text_iff}
use kb_labs_host_agent.Gateway.State.{Client, throws, null_dereference, clear_timer}
use kb_labs_host_agent.Gateway.Methods.{
  connected_host, handshake_with, handshake_frame, on_handshake, close_ws,
}

-- A reply is accepted, with the host id `host`, exactly when its `type` is the text "connected" and
-- its `hostId` is the text `host`, not the empty one.
pub connected_host_iff :
    (msg : Json) (host : String)
    → (connected_host msg ≡ some host) ↔ (
        (get msg "type" ≡ some (str "connected"))
        × (get msg "hostId" ≡ some (str host))
        × (host ≢ ""))
unfolding connected_host
connected_host_iff msg host = (
  λ e. elim (Option-cases (as_text (get msg "type"))) [
    | inl no_type ↦ ground arith
    | inr (type, is_type) ↦ elim (Option-cases (as_text (get msg "hostId"))) [
      | inl no_host ↦ ground arith
      | inr (h, is_host) ↦ ground (
        arith,
        eq_iff type "connected",
        eq_iff h "",
        (as_text_iff (get msg "type") type).0,
        (as_text_iff (get msg "hostId") h).0,
      )
    ]
  ],
  λ (typed, hosted, named). ground (
    arith,
    (as_text_iff (get msg "type") "connected").1 typed,
    (as_text_iff (get msg "hostId") host).1 hosted,
    eq_iff "connected" "connected",
    eq_iff host "",
  ),
)

-- Any other reply, and one that is not JSON, closes the socket that the client holds, and changes
-- nothing but that socket and the handshake's timer. A reply `null` throws instead.
pub on_handshake_refused :
    (t : ℕ) (c : Client) (msg : Json)
    → msg ≢ null
    → connected_host msg ≡ none
    → (on_handshake t (some msg) c ≡ close_ws 1008 (clear_timer t c))
      × (on_handshake t none c ≡ close_ws 1008 (clear_timer t c))
      × (on_handshake t (some null) c ≡ (clear_timer t c, throws null_dereference ∷ []))
unfolding on_handshake handshake_frame handshake_with
on_handshake_refused t c null object refused = absurd (object refl)
on_handshake_refused t c msg object refused = (rw refused, refl, refl)
