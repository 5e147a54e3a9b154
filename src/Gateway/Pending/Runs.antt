-- ===== src/Gateway/Pending/Runs.antt =====
-- The ledger over single events and over whole histories.
use kb_labs_host_agent.Common.{
  ℕ, ◌+◌, ◌≡◌, refl, ap, All, Bool-cases, ◌==◌, String, List, [], ◌∷◌, Option, none, some, Bool,
  arith, str_eq, if◌then◌else◌, inl, inr,
}
use mathlib.Core.Path.{subst₂}
use kb_labs_host_agent.Common.Dict.{lookup, count}
use kb_labs_host_agent.Common.Json.{Json, null}
use kb_labs_host_agent.Gateway.State.{
  Client, Options, Armed, Timer, initial, beat, set_ready, open_, closed, clear_timer,
}
use kb_labs_host_agent.Gateway.Methods.{
  followed_by, register_handler, adapter_call_timeout, on_message, handler_returned, handler_threw,
}
use kb_labs_host_agent.Gateway.Events.{
  Event, connects_rejected, token_refreshed_rejected, registers, sends_call, connects, stops,
  opened, received, lost, fires, token_refreshed, returned, threw, find_timer, fire, handshake_if,
  receive, step, run, find_handshake,
}
use kb_labs_host_agent.Gateway.Pending.Ledger.{
  OwnsKind, Owns, Inv, initial-Inv, settled_in, settled_in-append, Inv-disarm, Inv-settle,
  count-settle,
}
use kb_labs_host_agent.Gateway.Pending.Methods.{
  Keeps, settled_in-send, followed_by-Keeps, send_adapter_call-Keeps, close_ws-Keeps, stop-Keeps,
  connect-Keeps, reconnect-Keeps, on_open-Keeps, on_message-Keeps, on_handshake-Keeps,
  on_close-Keeps,
}

-- A call is sent under an id that no pending call has, as `randomUUID` gives it.
abbrev pub IsFresh : Client → Event → Type 0
IsFresh c (sends_call r call) = lookup r c.pending_adapter_calls ≡ none
IsFresh c _ = Unit

-- The calls that an event begins under the id `k`.
abbrev pub begun : String → Event → ℕ
begun k (sends_call r call) = if str_eq r k then 1 else 0
begun k _ = 0

find_timer-Owns :
    (p : List (String × ℕ)) (t : ℕ) (ts : List Armed) (kind : Timer)
    → All (Owns p) ts
    → find_timer t ts ≡ some kind
    → OwnsKind p t kind
unfolding find_timer
find_timer-Owns p t [] kind h e = cc
find_timer-Owns p t (a ∷ ts) kind h e = elim (Bool-cases (a.id == t)) [
  | inl same ↦
      let found : some a.kind ≡ some kind = ground arith in
      let kind_is : a.kind ≡ kind = cc in
      let id_is : a.id ≡ t = ground arith in subst₂ (λ i q. OwnsKind p i q) id_is kind_is h.0
  | inr other ↦ find_timer-Owns p t ts kind h.1 (ground arith)
]

fire-Keeps :
    (k : String) (c : Client) (kind : Option Timer) (t : ℕ)
    → Inv c.pending_adapter_calls c.timers
    → find_timer t c.timers ≡ kind
    → Keeps k 0 c.pending_adapter_calls (fire kind t c)
unfolding fire adapter_call_timeout
fire-Keeps k c none t v e = record { inv = v; balance = omega arith }
fire-Keeps k c (some Timer.heartbeat) t v e = record {
  inv = v;
  balance = omega (arith, settled_in-send k c beat);
}
fire-Keeps k c (some Timer.reconnect) t v e = elim (Bool-cases c.stopped) [
  | inl halted ↦ simp halted (record { inv = Inv-disarm t _ _ v; balance = omega arith })
  | inr going ↦ simp going (record { inv = Inv-disarm t _ _ v; balance = omega arith })
]
fire-Keeps k c (some Timer.hello) t v e =
    close_ws-Keeps k (clear_timer t c) (Inv-disarm t c.pending_adapter_calls c.timers v) 1008
fire-Keeps k c (some (Timer.adapter_call r ms a m)) t v e =
    let found =
      find_timer-Owns c.pending_adapter_calls t c.timers (Timer.adapter_call r ms a m) v.owned e in
    record {
      inv = Inv-settle c.pending_adapter_calls c.timers t r found v;
      balance = omega (arith, count-settle c.pending_adapter_calls c.timers t r k found v);
    }

handshake_if-Keeps :
    (k : String) (c : Client) (listener : Option ℕ) (s : ℕ) (frame : Option Json)
    → Inv c.pending_adapter_calls c.timers
    → Keeps k 0 c.pending_adapter_calls (handshake_if listener s frame c)
unfolding handshake_if
handshake_if-Keeps k c none s frame v = record { inv = v; balance = omega arith }
handshake_if-Keeps k c (some t) s frame v = on_handshake-Keeps k _ t frame v

receive_with-Keeps :
    (k : String) (c : Client) (s : ℕ) (frame : Option Json)
    → Inv c.pending_adapter_calls c.timers
    → Keeps k 0 c.pending_adapter_calls (
        followed_by
          (on_message frame c)
          λ c'. handshake_if (find_handshake s c'.handshakes) s frame c')
receive_with-Keeps k c s frame v =
    followed_by-Keeps k 0 c.pending_adapter_calls (on_message frame c)
      (λ c'. handshake_if (find_handshake s c'.handshakes) s frame c')
      (on_message-Keeps k c v frame) (λ w. handshake_if-Keeps k _ _ s frame w)

receive-Keeps :
    (k : String) (c : Client) (s : ℕ) (frame : Option Json)
    → Inv c.pending_adapter_calls c.timers
    → Keeps k 0 c.pending_adapter_calls (receive s frame c)
unfolding receive
receive-Keeps k c s none v = receive_with-Keeps k c s none v
receive-Keeps k c s (some null) v = on_message-Keeps k c v (some null)
receive-Keeps k c s (some msg) v = receive_with-Keeps k c s (some msg) v

-- Every event keeps the invariant; and of the calls under an id, those pending before and the one
-- that the event begins are those that the event settles and those pending after it. The id of a
-- call that is sent is new.
pub step-Keeps :
    (opts : Options) (explicit : Bool) (now : ℕ) (k : String) (c : Client) (e : Event)
    → IsFresh c e
    → Inv c.pending_adapter_calls c.timers
    → Keeps k (begun k e) c.pending_adapter_calls (step opts explicit now c e)
unfolding step register_handler handler_returned handler_threw
step-Keeps opts explicit now k c (registers adapter handler) f v = record {
  inv = v;
  balance = omega arith;
}
step-Keeps opts explicit now k c (sends_call r call) f v = send_adapter_call-Keeps k c r call f v
step-Keeps opts explicit now k c (connects token) f v = connect-Keeps k c v _
step-Keeps opts explicit now k c (connects_rejected token) f v = connect-Keeps k c v _
step-Keeps opts explicit now k c stops f v = stop-Keeps k c v
step-Keeps opts explicit now k c (opened s) f v = on_open-Keeps k (set_ready s open_ c) v opts
step-Keeps opts explicit now k c (received s frame) f v = receive-Keeps k c s frame v
step-Keeps opts explicit now k c (lost s) f v = (on_close-Keeps k now (set_ready s closed c) v).0
step-Keeps opts explicit now k c (fires t) f v = fire-Keeps k c _ t v refl
step-Keeps opts explicit now k c (token_refreshed token) f v = reconnect-Keeps k _ v _
step-Keeps opts explicit now k c (token_refreshed_rejected token) f v = reconnect-Keeps k _ v _
step-Keeps opts explicit now k c (returned request_id value) f v = record {
  inv = v;
  balance = omega (arith, settled_in-send, settled_in-append);
}
step-Keeps opts explicit now k c (threw request_id message) f v = record {
  inv = v;
  balance = omega (arith, settled_in-send);
}

-- Every event of a history that sends a call does so under an id that is new then.
abbrev pub AllFresh : Options → Bool → Client → List (ℕ × Event) → Type 0
AllFresh opts explicit c [] = Unit
AllFresh opts explicit c ((now, e) ∷ es) =
    IsFresh c e × AllFresh opts explicit (step opts explicit now c e).0 es

abbrev pub begun_in : String → List (ℕ × Event) → ℕ
begun_in k [] = 0
begun_in k ((now, e) ∷ es) = begun k e + begun_in k es

run-Keeps :
    (opts : Options) (explicit : Bool) (k : String) (c : Client) (es : List (ℕ × Event))
    → AllFresh opts explicit c es
    → Inv c.pending_adapter_calls c.timers
    → Keeps k (begun_in k es) c.pending_adapter_calls (run opts explicit c es)
unfolding run
run-Keeps opts explicit k c [] f v = record { inv = v; balance = omega arith }
run-Keeps opts explicit k c ((now, e) ∷ es) f v =
    let h = step-Keeps opts explicit now k c e f.0 v in
    let c' = (step opts explicit now c e).0 in
    let later = run-Keeps opts explicit k c' es f.1 h.inv in
    record {
      inv = later.inv;
      balance = omega (
        arith,
        settled_in-append k (step opts explicit now c e).1 (run opts explicit c' es).1,
        h.balance,
        later.balance,
      );
    }

-- Over every history of a new client in which the ids of the calls that are sent are new: of the
-- calls begun under an id, each is still pending or has been settled, once and not again.
pub run_settles :
    (opts : Options) (explicit : Bool) (k : String) (es : List (ℕ × Event))
    → AllFresh opts explicit initial es
    → let (c, acts) = run opts explicit initial es in
      count k c.pending_adapter_calls + settled_in k acts ≡ begun_in k es
unfolding count
run_settles opts explicit k es f =
    omega (arith, (run-Keeps opts explicit k initial es f initial-Inv).balance)

-- When a socket is then lost, every call that was begun has been settled exactly as often as it
-- was begun, and none is pending.
pub run_settles_lost :
    (opts : Options) (explicit : Bool) (k : String) (es : List (ℕ × Event)) (now s : ℕ)
    → AllFresh opts explicit initial es
    → let (c, acts) = run opts explicit initial es in
      let (c', rejected) = step opts explicit now c (lost s) in
      (c'.pending_adapter_calls ≡ []) × (settled_in k acts + settled_in k rejected ≡ begun_in k es)
unfolding count step
run_settles_lost opts explicit k es now s f =
    let r = run-Keeps opts explicit k initial es f initial-Inv in
    let c = (run opts explicit initial es).0 in
    let (h, empty) = on_close-Keeps k now (set_ready s closed c) r.inv in
    (empty, omega (arith, r.balance, h.balance, ap (count k) empty))
