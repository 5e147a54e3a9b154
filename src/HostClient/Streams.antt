-- ===== src/HostClient/Streams.antt =====
-- What a generator of `execute` yields.
mod Others
pub use kb_labs_host_agent.HostClient.Streams.Others.{lookup-change}
unfoldable pub use kb_labs_host_agent.HostClient.Streams.Others.{handle_all, is_for, told}
use kb_labs_host_agent.HostClient.Streams.Others.{is_for-id, handle-Same}
use kb_labs_host_agent.Common.{
  ◌≡◌, ◌≢◌, refl, ap, sym, ◌∙◌, String, Bool, true, false, Option, none, some, List, [], ◌∷◌, arith,
  str_eq, eq_iff, eq_refl, if◌then◌else◌, Option-cases, Bool-cases, inl, inr, ◌≤◌, ◌++◌,
}
use kb_labs_host_agent.Common.Dict.{
  lookup, lookup-remove, count, count-remove, lookup-eq-none_of_count, count_of_lookup-eq-none,
}
use kb_labs_host_agent.Common.Json.{Json, get, as_text}
use kb_labs_host_agent.HostClient.{
  Client, Stream, Kind, status_call, execute_call, Error, failed, change, finished, pushed, resolve,
  reject, taken, type_is, answer_status, answer, handle_message, is_object, with_id, error_message,
  push,
}

handle_own :
    (msg : Json) (c : Client) (id : String)
    → is_for id msg ≡ true
    → handle_message msg c ≡ answer (lookup id c.pending) id msg c
unfolding handle_message is_for with_id
handle_own msg c id own = elim (Bool-cases (is_object msg)) [
  | inr bare ↦ cc
  | inl object ↦ elim (Bool-cases (type_is msg "status")) [
    | inl st ↦ let off : is_for id msg ≡ false = rw (object, st) refl in cc
    | inr req ↦ elim (Option-cases (as_text (get msg "requestId"))) [
      | inl nameless ↦ let off : is_for id msg ≡ false = rw (object, req, nameless) refl in cc
      | inr (k, named) ↦
          let same = is_for-id id k msg object req named in
          let filled : str_eq k "" ≡ false = ground arith in
          let here : k ≡ id = ground (arith, eq_iff k id) in
          rw (object, req, named, filled, here) refl
    ]
  ]
]

answer-none : (id : String) (m : Json) (c : Client) → answer none id m c ≡ (c, [])
unfolding answer
answer-none id m c = refl

-- A request that does not wait any more hears of no message.
idle :
    (ms : List Json) (c : Client) (id : String)
    → lookup id c.pending ≡ none
    → lookup id (handle_all ms c).streams ≡ lookup id c.streams
unfolding handle_all
idle [] c id gone = refl
idle (m ∷ ms) c id gone = elim (Bool-cases (is_for id m)) [
  | inl own ↦
      let same = handle_own m c id own ∙ ap (λ p. answer p id m c) gone ∙ answer-none id m c in
      ap (λ x. lookup id (handle_all ms x.0).streams) same ∙ idle ms c id gone
  | inr other ↦
      let n = count_of_lookup-eq-none id c.pending gone in
      let (p, s, k) = handle-Same m c id other (omega (arith, n)) (λ e. cc) in
      idle ms (handle_message m c).0 id (p ∙ gone) ∙ s
]

taken-idle : (id : String) (c : Client) → lookup id (taken id c).pending ≡ none
taken-idle id c = ground (arith, lookup-remove id id c.pending, eq_refl id)

changed_own :
    (f : Stream → Stream) (id : String) (c : Client) (s : Stream)
    → lookup id c.streams ≡ some s
    → lookup id (change f id c.streams) ≡ some (f s)
changed_own f id c s h = lookup-change f id id c.streams s h ∙ rw (eq_refl id) refl

-- A generator of `execute` that waits and holds the stream `s` holds, after any messages at all, to
-- whomever they are addressed, what the messages with its request id say: the data of its events in
-- the order in which they came, and no more after the first `done` or `error`. The id is taken once.
pub events_in_order :
    (ms : List Json) (c : Client) (id : String) (s : Stream)
    → lookup id c.pending ≡ some execute_call
    → count id c.pending ≤ 1
    → lookup id c.streams ≡ some s
    → lookup id (handle_all ms c).streams ≡ some (told id ms s)
unfolding handle_all told answer push resolve reject
events_in_order [] c id s waiting one held = held
events_in_order (m ∷ ms) c id s waiting one held = elim (Bool-cases (is_for id m)) [
  | inr other ↦
      let (p, q, k) = handle-Same m c id other one (λ e. cc) in
      rw other
        (events_in_order ms (handle_message m c).0 id s (p ∙ waiting) (omega (arith, k)) (q ∙ held))
  | inl own ↦
      ap (λ x. lookup id (handle_all ms x.0).streams)
        (handle_own m c id own ∙ ap (λ p. answer p id m c) waiting)
      ∙ rw own (elim (Bool-cases (type_is m "event")) [
        | inl event ↦ rw event (
            events_in_order ms (record c { streams = change (pushed (get m "data")) id c.streams })
              id (pushed (get m "data") s) waiting one
              (changed_own (pushed (get m "data")) id c s held))
        | inr more ↦ elim (Bool-cases (type_is m "done")) [
          | inl done ↦
              rw (more, done)
                (idle ms (record (taken id c) { streams = change (finished none) id c.streams }) id
                    (taken-idle id c)
                  ∙ changed_own (finished none) id c s held)
          | inr going ↦ elim (Bool-cases (type_is m "error")) [
            | inl error ↦
                rw (more, going, error)
                  (let e = failed (error_message (as_text (get m "message"))) in
                    idle ms
                      (record (taken id c) { streams = change (finished (some e)) id c.streams }) id
                      (taken-idle id c)
                    ∙ changed_own (finished (some e)) id c s held)
            | inr unknown ↦ rw (more, going, unknown) (events_in_order ms c id s waiting one held)
          ]
        ]
      ])
]
