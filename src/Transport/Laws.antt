-- ===== src/Transport/Laws.antt =====
-- What the users of the transport rely on.
use kb_labs_host_agent.Common.{true, false, ◌≡◌, ◌↔◌, refl, ap, sym, none, Bool-cases, inl, inr}
use kb_labs_host_agent.Gateway.State.{AdapterCallInput, AdapterCallResponse}
use kb_labs_host_agent.Transport.{
  AdapterCall, GatewayTransport, asks, throws_closed, send, map_response, is_truthy, call_input,
  close, is_closed,
}

-- An open transport asks the client once, for the adapter, the method, the arguments and the
-- timeout of the call, in the name of its host and of the execution of the call, and never for what
-- else the caller puts in the context; a closed one throws and asks nothing; to close it twice is
-- to close it once.
pub send_lem :
    (t : GatewayTransport) (call : AdapterCall) (input : AdapterCallInput)
    → ((send call t ≡ asks input)
        ↔ ((is_closed t ≡ false) × (input ≡ call_input t.default_context call)))
      × (send call (close t) ≡ throws_closed)
      × (close (close t) ≡ close t)
unfolding send close is_closed
send_lem t call input = (
  elim (Bool-cases t.closed) [
    | inl shut ↦ rw shut (λ e. cc, λ e. cc)
    | inr open_ ↦ rw open_ (λ e. (refl, cc), λ e. ap asks (sym e.1))
  ],
  refl,
  refl,
)

-- A response never has both a result and an error, and it has an error exactly if that of the
-- client counts as true: a call that the gateway answers with a missing or an empty error has
-- succeeded for the caller, with the result that the client had.
pub map_response_lem :
    (r : AdapterCallResponse)
    → ((map_response r).request_id ≡ r.request_id)
      × ((is_truthy r.error ≡ true)
          → ((map_response r).error ≡ r.error) × ((map_response r).result ≡ none))
      × ((is_truthy r.error ≡ false)
          → ((map_response r).error ≡ none) × ((map_response r).result ≡ r.result))
unfolding map_response
map_response_lem r = elim (Bool-cases (is_truthy r.error)) [
  | inl failed ↦ rw failed (refl, λ e. (refl, refl), λ e. cc)
  | inr fine ↦ rw fine (refl, λ e. cc, λ e. (refl, refl))
]
