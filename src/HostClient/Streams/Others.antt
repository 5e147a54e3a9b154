-- ===== src/HostClient/Streams/Others.antt =====
-- What messages leave as it is: the requests that they are not about.
use kb_labs_host_agent.Common.{
  ◌≡◌, ◌≢◌, refl, sym, ◌∙◌, String, Bool, true, false, Option, none, some, List, [], ◌∷◌, arith,
  str_eq, eq_iff, if◌then◌else◌, Option-cases, Bool-cases, inl, inr, ◌≤◌, ◌++◌,
}
use kb_labs_host_agent.Common.Dict.{
  lookup, lookup-remove, count, count-remove, lookup-eq-none_of_count,
}
use kb_labs_host_agent.Common.Json.{Json, get, as_text}
use kb_labs_host_agent.HostClient.{
  Client, Stream, Kind, status_call, execute_call, Error, failed, change, finished, pushed, resolve,
  reject, taken, type_is, answer_status, answer, handle_message, is_object, with_id, error_message,
  push,
}

-- The messages in the order in which they come.
unfoldable pub handle_all : List Json → Client → Client
handle_all [] c = c
handle_all (m ∷ ms) c = handle_all ms (handle_message m c).0

-- Whether a message is about the request `id`: an object that is no status answer, with that id.
unfoldable pub is_for : String → Json → Bool
is_for id m =
    if is_object m
    then (if type_is m "status" then false else elim (as_text (get m "requestId")) [
      | none ↦ false
      | some k ↦ if str_eq k "" then false else str_eq k id
    ])
    else false

-- What the messages say of the request `id`, from a stream `s`: an event adds its data, and the
-- first `done` or `error` ends it.
unfoldable pub told : String → List Json → Stream → Stream
told id [] s = s
told id (m ∷ ms) s =
    let more = told id ms s in
    let event = told id ms (record s { queue = s.queue ++ (get m "data" ∷ []) }) in
    if is_for id m
    then (if type_is m "event"
        then event
        else if type_is m "done"
        then record s { done = true }
        else if type_is m "error"
        then record s {
          done = true;
          error = some (failed (error_message (as_text (get m "message"))));
        }
        else more)
    else more

pub lookup-change :
    (f : Stream → Stream) (id k : String) (ss : List (String × Stream)) (s : Stream)
    → lookup k ss ≡ some s
    → lookup k (change f id ss) ≡ some (if str_eq k id then f s else s)
unfolding lookup change
lookup-change f id k [] s h = cc
lookup-change f id k ((j, x) ∷ ss) s h =
    ground (arith, eq_iff j k, eq_iff j id, eq_iff k id, lookup-change f id k ss s)

lookup-change_ne :
    (f : Stream → Stream) (id k : String) (ss : List (String × Stream))
    → str_eq k id ≡ false
    → lookup id (change f k ss) ≡ lookup id ss
unfolding lookup change
lookup-change_ne f id k [] ne = refl
lookup-change_ne f id k ((j, x) ∷ ss) ne =
    ground (arith, eq_iff j k, eq_iff j id, eq_iff k id, lookup-change_ne f id k ss ne)

-- As far as `id` goes, `g` is as `c`.
abbrev pub Same : String → Client → Client → Type 0
Same id c g =
    (lookup id g.pending ≡ lookup id c.pending)
    × (lookup id g.streams ≡ lookup id c.streams)
    × (count id g.pending ≡ count id c.pending)

taken-Same : (id k : String) (c : Client) → str_eq k id ≡ false → Same id c (taken k c)
taken-Same id k c ne = (
  ground (arith, lookup-remove k id c.pending),
  refl,
  ground (arith, count-remove k id c.pending),
)

resolve-Same :
    (kind : Kind) (k : String) (v : Option Json) (c : Client) (id : String)
    → str_eq k id ≡ false
    → Same id c (resolve kind k v (taken k c)).0
unfolding resolve
resolve-Same status_call k v c id ne = taken-Same id k c ne
resolve-Same execute_call k v c id ne =
    let (p, s, n) = taken-Same id k c ne in
    (p, lookup-change_ne (finished none) id k c.streams ne, n)

reject-Same :
    (kind : Kind) (k : String) (e : Error) (c : Client) (id : String)
    → str_eq k id ≡ false
    → Same id c (reject kind k e (taken k c)).0
unfolding reject
reject-Same status_call k e c id ne = taken-Same id k c ne
reject-Same execute_call k e c id ne =
    let (p, s, n) = taken-Same id k c ne in
    (p, lookup-change_ne (finished (some e)) id k c.streams ne, n)

push-Same :
    (kind : Kind) (k : String) (v : Option Json) (c : Client) (id : String)
    → str_eq k id ≡ false
    → Same id c (push kind k v c).0
unfolding push
push-Same status_call k v c id ne = (refl, refl, refl)
push-Same execute_call k v c id ne = (refl, lookup-change_ne (pushed v) id k c.streams ne, refl)

answer-Same :
    (p : Option Kind) (k : String) (msg : Json) (c : Client) (id : String)
    → str_eq k id ≡ false
    → Same id c (answer p k msg c).0
unfolding answer
answer-Same none k msg c id ne = (refl, refl, refl)
answer-Same (some kind) k msg c id ne = elim (Bool-cases (type_is msg "event")) [
  | inl event ↦ rw event (push-Same kind k (get msg "data") c id ne)
  | inr other ↦ rw other (elim (Bool-cases (type_is msg "done")) [
    | inl done ↦ rw done (resolve-Same kind k (get msg "result") c id ne)
    | inr going ↦ rw going (elim (Bool-cases (type_is msg "error")) [
      | inl error ↦ rw error (reject-Same kind k _ c id ne)
      | inr unknown ↦ rw unknown (refl, refl, refl)
    ])
  ])
]

status-Same :
    (rest : List (String × Kind)) (msg : Json) (c : Client) (id : String)
    → count id rest ≤ 1
    → lookup id rest ≢ some status_call
    → Same id c (answer_status rest msg c).0
unfolding answer_status lookup count
status-Same [] msg c id one h = (refl, refl, refl)
status-Same ((k, execute_call) ∷ rest) msg c id one h =
    status-Same rest msg c id (omega arith) (elim (Bool-cases (str_eq k id)) [
      | inl same ↦ let gone = lookup-eq-none_of_count id rest (ground arith) in λ e. cc
      | inr ne ↦ λ e. h (rw ne e)
    ])
status-Same ((k, status_call) ∷ rest) msg c id one h = elim (Bool-cases (str_eq k id)) [
  | inl same ↦ elim (h (rw same refl)) [ ]
  | inr ne ↦ resolve-Same status_call k (some msg) c id ne
]

pub is_for-id :
    (id k : String) (msg : Json)
    → is_object msg ≡ true
    → type_is msg "status" ≡ false
    → as_text (get msg "requestId") ≡ some k
    → is_for id msg ≡ (if str_eq k "" then false else str_eq k id)
unfolding is_for
is_for-id id k msg object req named = rw (object, req, named) refl

with_id-Same :
    (k : String) (msg : Json) (c : Client) (id : String)
    → (if str_eq k "" then false else str_eq k id) ≡ false
    → Same id c (with_id (some k) msg c).0
unfolding with_id
with_id-Same k msg c id other = elim (Bool-cases (str_eq k "")) [
  | inl empty ↦ rw empty (refl, refl, refl)
  | inr filled ↦ rw filled (answer-Same (lookup k c.pending) k msg c id (ground arith))
]

pub handle-Same :
    (msg : Json) (c : Client) (id : String)
    → is_for id msg ≡ false
    → count id c.pending ≤ 1
    → lookup id c.pending ≢ some status_call
    → Same id c (handle_message msg c).0
unfolding handle_message is_for
handle-Same msg c id other one h = elim (Bool-cases (is_object msg)) [
  | inr bare ↦ rw bare ((refl, refl, refl))
  | inl object ↦ elim (Bool-cases (type_is msg "status")) [
    | inl st ↦ rw (object, st) (status-Same c.pending msg c id one h)
    | inr req ↦ elim (Option-cases (as_text (get msg "requestId"))) [
      | inl nameless ↦ rw (object, req, nameless, with_id) (refl, refl, refl)
      | inr (k, named) ↦
          rw (object, req, named)
            (with_id-Same k msg c id (sym (is_for-id id k msg object req named) ∙ other))
    ]
  ]
]
