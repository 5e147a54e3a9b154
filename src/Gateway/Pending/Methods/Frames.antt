-- ===== src/Gateway/Pending/Methods/Frames.antt =====
-- The methods for a connection and its frames keep the ledger of adapter calls.
use kb_labs_host_agent.Common.{
  ℕ, ◌+◌, ◌≡◌, refl, String, List, [], ◌∷◌, Option, none, some, arith, All, str_eq, if◌then◌else◌,
  Option-cases, Bool-cases, inl, inr,
}
use kb_labs_host_agent.Common.Dict.{lookup, count, count-insert}
use kb_labs_host_agent.Common.Json.{Json, null}
use kb_labs_host_agent.Gateway.State.{
  Client, Options, AdapterCallInput, Armed, Timer, Message, Action, is_open, clear_timer,
}
use kb_labs_host_agent.Gateway.Methods.{
  followed_by, send, timeout_of, send_adapter_call, clear_timers, close_ws, Plan, refuse, dial,
  do_connect, connect, on_open, message_of_type, message_typed, handle_call, settle, on_message,
  reject_each, reconnect,
}
use kb_labs_host_agent.Gateway.Pending.Ledger.{
  Pending, OwnsKind, Owns, Inv, settled_in, settled_in-append, Inv-disarm, Inv-call, Inv-settle,
  count-settle, All-Owns-tail,
}

-- The invariant holds after an operation, and what it settles, with what is still pending, is what
-- was pending and the `n` calls that it began.
pub record Keeps (k : String) (n : ℕ) (p : Pending) (o : Client × List Action) : Type 0 where
  pub inv : Inv o.0.pending_adapter_calls o.0.timers
  pub balance : count k o.0.pending_adapter_calls + settled_in k o.1 ≡ count k p + n

pub settled_in-send : (k : String) (c : Client) (m : Message) → settled_in k (send c m) ≡ 0
unfolding send
settled_in-send k c m = ground arith

pub Inv-arm :
    (p : Pending) (ts : List Armed) (t delay : ℕ) (kind : Timer)
    → OwnsKind p t kind
    → Inv p ts
    → Inv p (record { id = t; kind = kind; delay = delay } ∷ ts)
Inv-arm p ts t delay kind o v = record { owned = (o, v.owned); unique = v.unique }

-- A call begins a promise, which is rejected at once if the socket is not open.
pub send_adapter_call-Keeps :
    (k : String) (c : Client) (r : String) (call : AdapterCallInput)
    → lookup r c.pending_adapter_calls ≡ none
    → Inv c.pending_adapter_calls c.timers
    → Keeps k (if str_eq r k then 1 else 0) c.pending_adapter_calls (send_adapter_call r call c)
unfolding send_adapter_call
send_adapter_call-Keeps k c r call fresh v = elim (Option-cases c.ws) [
  | inl e ↦ rw (e, send_adapter_call) (record { inv = v; balance = omega arith })
  | inr (s, e) ↦ elim (Bool-cases (is_open (c.ready s))) [
    | inl up ↦
        rw (e, send_adapter_call, up)
          (record {
            inv =
                Inv-call c.pending_adapter_calls c.timers c.next_timer (timeout_of call) r
                  (timeout_of call) call.adapter call.method fresh v;
            balance = omega (
              arith,
              settled_in-send,
              count-insert r k c.next_timer c.pending_adapter_calls fresh,
            );
          })
    | inr down ↦ rw (e, send_adapter_call, down) (record { inv = v; balance = omega arith })
  ]
]

pub clear_timers-pending :
    (c : Client) → (clear_timers c).pending_adapter_calls ≡ c.pending_adapter_calls
unfolding clear_timers
clear_timers-pending c = ground arith

pub followed_by-Keeps :
    (k : String) (n : ℕ) (p : Pending) (o : Client × List Action)
    (f : Client → Client × List Action)
    → Keeps k n p o
    → (Inv o.0.pending_adapter_calls o.0.timers → Keeps k 0 o.0.pending_adapter_calls (f o.0))
    → Keeps k n p (followed_by o f)
followed_by-Keeps k n p (c, acts) f h g =
    let later = g h.inv in
    record {
      inv = later.inv;
      balance = omega (arith, settled_in-append k acts (f c).1, h.balance, later.balance);
    }

-- The loop leaves no timer of a call that it went through, and rejects each call once.
pub reject_each-owned :
    (p : Pending) (c : Client) → All (Owns p) c.timers → All (Owns []) (reject_each p c).0.timers
unfolding reject_each
reject_each-owned [] c h = h
reject_each-owned ((r, t) ∷ p) c h =
    reject_each-owned p (clear_timer t c) (All-Owns-tail r t p c.timers h)

pub reject_each-settled :
    (k : String) (p : Pending) (c : Client) → settled_in k (reject_each p c).1 ≡ count k p
unfolding reject_each count
reject_each-settled k [] c = refl
reject_each-settled k ((r, t) ∷ p) c = omega (arith, reject_each-settled k p (clear_timer t c))

module _ (k : String) (c : Client) (v : Inv c.pending_adapter_calls c.timers) where
  pub close_ws-Keeps : (code : ℕ) → Keeps k 0 c.pending_adapter_calls (close_ws code c)
  unfolding close_ws
  close_ws-Keeps code = elim (Option-cases c.ws) [
    | inl e ↦ rw (e, close_ws) (record { inv = v; balance = omega arith })
    | inr (s, e) ↦ rw (e, close_ws) (record { inv = v; balance = omega arith })
  ]

  pub clear_timers-Inv : Inv (clear_timers c).pending_adapter_calls (clear_timers c).timers
  unfolding clear_timers
  clear_timers-Inv = grind (arith, Inv-disarm)

  pub do_connect-Keeps : (plan : Plan) → Keeps k 0 c.pending_adapter_calls (do_connect plan c)
  unfolding do_connect
  do_connect-Keeps (refuse e) = record { inv = v; balance = omega arith }
  do_connect-Keeps (dial url token) = record { inv = v; balance = omega arith }

  pub connect-Keeps : (plan : Plan) → Keeps k 0 c.pending_adapter_calls (connect plan c)
  unfolding connect do_connect
  connect-Keeps (refuse e) = record { inv = v; balance = omega arith }
  connect-Keeps (dial url token) = record { inv = v; balance = omega arith }

  pub reconnect-Keeps : (plan : Plan) → Keeps k 0 c.pending_adapter_calls (reconnect plan c)
  unfolding reconnect do_connect
  reconnect-Keeps (refuse e) = record { inv = v; balance = omega arith }
  reconnect-Keeps (dial url token) = record { inv = v; balance = omega arith }

  pub on_open-Keeps : (opts : Options) → Keeps k 0 c.pending_adapter_calls (on_open opts c)
  unfolding on_open
  on_open-Keeps opts = elim (Option-cases c.ws) [
    | inl e ↦
        rw (e, on_open)
          (record {
            inv = Inv-arm _ _ c.next_timer _ Timer.hello tt v;
            balance = omega (arith, settled_in-send, settled_in-append);
          })
    | inr (s, e) ↦
        rw (e, on_open)
          (record {
            inv = Inv-arm _ _ c.next_timer _ Timer.hello tt v;
            balance = omega (arith, settled_in-send, settled_in-append);
          })
  ]

  pub settle-Keeps :
      (r : Option String) (res err : Option Json)
      → Keeps k 0 c.pending_adapter_calls (settle r res err c)
  unfolding settle
  settle-Keeps none res err = record { inv = v; balance = omega arith }
  settle-Keeps (some r) res err = elim (Option-cases (lookup r c.pending_adapter_calls)) [
    | inl e ↦ rw (e, settle) (record { inv = v; balance = omega arith })
    | inr (t, e) ↦
        rw (e, settle)
          (record {
            inv = Inv-settle c.pending_adapter_calls c.timers t r e v;
            balance = omega (arith, count-settle c.pending_adapter_calls c.timers t r k e v);
          })
  ]

  settled_in-handle_call : (msg : Json) → settled_in k (handle_call msg c) ≡ 0
  unfolding handle_call
  settled_in-handle_call msg = grind (arith, settled_in-send)

  message_of_type-Keeps :
      (type : String) (msg : Json) → Keeps k 0 c.pending_adapter_calls (message_of_type type msg c)
  unfolding message_of_type
  message_of_type-Keeps type msg = elim (Bool-cases (str_eq type "call")) [
    | inl e ↦ rw e (record { inv = v; balance = omega (arith, settled_in-handle_call msg) })
    | inr e ↦ rw e (elim (Bool-cases (str_eq type "adapter:response")) [
      | inl e' ↦ rw e' (settle-Keeps _ _ _)
      | inr e' ↦ rw e' (elim (Bool-cases (str_eq type "adapter:error")) [
        | inl e'' ↦ rw e'' (settle-Keeps _ _ _)
        | inr e'' ↦ rw e'' (record { inv = v; balance = omega arith })
      ])
    ])
  ]

  message_typed-Keeps :
      (type : Option String) (msg : Json)
      → Keeps k 0 c.pending_adapter_calls (message_typed type msg c)
  unfolding message_typed
  message_typed-Keeps none msg = record { inv = v; balance = omega arith }
  message_typed-Keeps (some type) msg = message_of_type-Keeps type msg

  pub on_message-Keeps :
      (frame : Option Json) → Keeps k 0 c.pending_adapter_calls (on_message frame c)
  unfolding on_message
  on_message-Keeps none = record { inv = v; balance = omega arith }
  on_message-Keeps (some null) = record { inv = v; balance = omega arith }
  on_message-Keeps (some msg) = message_typed-Keeps _ _
