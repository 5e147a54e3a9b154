-- ===== src/Gateway/Pending/Methods.antt =====
-- What each method does to the ledger.
mod Frames
pub use kb_labs_host_agent.Gateway.Pending.Methods.Frames.{
  Keeps, settled_in-send, send_adapter_call-Keeps, followed_by-Keeps, close_ws-Keeps, connect-Keeps,
  reconnect-Keeps, on_open-Keeps, on_message-Keeps,
}
use kb_labs_host_agent.Gateway.Pending.Methods.Frames.{
  Inv-arm, clear_timers-pending, reject_each-owned, reject_each-settled, clear_timers-Inv,
}
use kb_labs_host_agent.Common.{
  ℕ, ◌+◌, ◌≡◌, refl, ap, String, List, [], ◌∷◌, Option, none, some, Bool, true, false, arith, All,
  str_eq, if◌then◌else◌, Option-cases, Bool-cases, inl, inr,
}
use kb_labs_host_agent.Common.Dict.{lookup, count, count-insert}
use kb_labs_host_agent.Common.Json.{Json, null}
use kb_labs_host_agent.Gateway.State.{
  on_disconnected, Client, Options, AdapterCallInput, Armed, Timer, Message, Action,
  on_disconnected, is_open, clear_timer,
}
use kb_labs_host_agent.Gateway.Methods.{
  followed_by, send, timeout_of, send_adapter_call, clear_timers, close_ws, stop, Plan, refuse,
  dial, do_connect, connect, on_open, start_heartbeat, on_handshake, handshake_with,
  handshake_frame, message_of_type, message_typed, handle_call, settle, on_message, reject_each,
  reject_all_pending_adapter_calls, schedule_reconnect, on_close, or_now, reconnect,
}
use kb_labs_host_agent.Gateway.Pending.Ledger.{
  Pending, OwnsKind, Owns, Inv, settled_in, settled_in-append, Inv-disarm, Inv-call, Inv-settle,
  count-settle, All-Owns-tail,
}

pub stop-Keeps :
    (k : String) (c : Client)
    → Inv c.pending_adapter_calls c.timers
    → Keeps k 0 c.pending_adapter_calls (stop c)
unfolding stop
stop-Keeps k c v =
    let c₁ : Client = record c { stopped = true } in
    let h = close_ws-Keeps k (clear_timers c₁) (clear_timers-Inv k c₁ v) 1000 in
    record {
      inv = h.inv;
      balance = omega (arith, h.balance, ap (count k) (clear_timers-pending c₁));
    }

handshake_with-Keeps :
    (k : String) (c : Client) (host : Option String) (msg : Json)
    → Inv c.pending_adapter_calls c.timers
    → Keeps k 0 c.pending_adapter_calls (handshake_with host msg c)
unfolding handshake_with start_heartbeat
handshake_with-Keeps k c none msg v = close_ws-Keeps k c v 1008
handshake_with-Keeps k c (some host) msg v = record {
  inv = Inv-arm _ _ c.next_timer _ Timer.heartbeat tt v;
  balance = omega arith;
}

handshake_frame-Keeps :
    (k : String) (c : Client) (frame : Option Json)
    → Inv c.pending_adapter_calls c.timers
    → Keeps k 0 c.pending_adapter_calls (handshake_frame frame c)
unfolding handshake_frame
handshake_frame-Keeps k c none v = close_ws-Keeps k c v 1008
handshake_frame-Keeps k c (some null) v = record { inv = v; balance = omega arith }
handshake_frame-Keeps k c (some msg) v = handshake_with-Keeps k c _ _ v

pub on_handshake-Keeps :
    (k : String) (c : Client) (t : ℕ) (frame : Option Json)
    → Inv c.pending_adapter_calls c.timers
    → Keeps k 0 c.pending_adapter_calls (on_handshake t frame c)
unfolding on_handshake
on_handshake-Keeps k c t frame v =
    handshake_frame-Keeps k (clear_timer t c) frame
      (Inv-disarm t c.pending_adapter_calls c.timers v)

reject_all-settled :
    (k : String) (c : Client)
    → settled_in k (reject_all_pending_adapter_calls c).1 ≡ count k c.pending_adapter_calls
unfolding reject_all_pending_adapter_calls
reject_all-settled k c = reject_each-settled k c.pending_adapter_calls c

reject_all-Inv :
    (c : Client)
    → Inv c.pending_adapter_calls c.timers
    → Inv
        (reject_all_pending_adapter_calls c).0.pending_adapter_calls
        (reject_all_pending_adapter_calls c).0.timers
unfolding reject_all_pending_adapter_calls count
reject_all-Inv c v = record {
  owned = reject_each-owned c.pending_adapter_calls c v.owned;
  unique = λ k. omega arith;
}

pub reject_all-pending :
    (c : Client) → (reject_all_pending_adapter_calls c).0.pending_adapter_calls ≡ []
unfolding reject_all_pending_adapter_calls
reject_all-pending c = refl

reconnect_unless-Inv :
    (stopped : Bool) (c : Client)
    → Inv c.pending_adapter_calls c.timers
    → c.pending_adapter_calls ≡ []
    → let c' = if stopped then c else schedule_reconnect c in
      Inv c'.pending_adapter_calls c'.timers × (c'.pending_adapter_calls ≡ [])
unfolding schedule_reconnect
reconnect_unless-Inv true c v e = (v, e)
reconnect_unless-Inv false c v e = (Inv-arm _ _ c.next_timer _ Timer.reconnect tt v, e)

-- A closed socket leaves no call pending: all are rejected.
pub on_close-Keeps :
    (k : String) (now : ℕ) (c : Client)
    → Inv c.pending_adapter_calls c.timers
    → Keeps k 0 c.pending_adapter_calls (on_close now c)
      × ((on_close now c).0.pending_adapter_calls ≡ [])
unfolding on_close count
on_close-Keeps k now c v =
    let c₁ : Client = record (clear_timers c) {
      disconnected_at = some (or_now c.disconnected_at now);
    } in
    let c₂ = (reject_all_pending_adapter_calls c₁).0 in
    let (inv, empty) =
      reconnect_unless-Inv c₂.stopped c₂ (reject_all-Inv c₁ (clear_timers-Inv k c v))
        (reject_all-pending c₁) in
    (
      record {
        inv = inv;
        balance = omega (
          arith,
          ap (count k) empty,
          settled_in-append k (reject_all_pending_adapter_calls c₁).1 (on_disconnected ∷ []),
          reject_all-settled k c₁,
          ap (count k) (clear_timers-pending c),
        );
      },
      empty,
    )
