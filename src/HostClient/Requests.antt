-- ===== src/HostClient/Requests.antt =====
-- How the requests of a client end: closing, status answers, timers, and the reader of a generator.
use kb_labs_host_agent.Common.{
  ℕ, zero, suc, ◌≡◌, refl, ap, sym, ◌∙◌, String, true, false, Option, some, List, [], ◌∷◌, ◌++◌,
  map, arith, str_eq, eq_iff, eq_refl, if◌then◌else◌, Bool-cases, inl, inr, All, length,
}
use kb_labs_host_agent.Common.Dict.{lookup, remove}
use kb_labs_host_agent.Common.Json.{Json}
use kb_labs_host_agent.HostClient.{
  Client, Stream, Kind, status_call, execute_call, Error, closed, execute_timed_out, Pull, yields,
  pull, change, finished, resolve, reject, reject_each, close, closes_transport, rejects, resolves,
  taken, type_is, answer_status, handle_message, is_object, fire, ended, throws,
}
use kb_labs_host_agent.HostClient.Streams.{lookup-change}

-- The status requests of a map, in its order.
unfoldable pub status_ids : List (String × Kind) → List String
status_ids [] = []
status_ids ((id, status_call) ∷ rest) = id ∷ status_ids rest
status_ids ((id, execute_call) ∷ rest) = status_ids rest

reject_each-actions :
    (es : List (String × Kind)) (c : Client)
    → (reject_each es c).1 ≡ map (λ id. rejects id closed) (status_ids es)
unfolding reject_each reject status_ids
reject_each-actions [] c = refl
reject_each-actions ((id, status_call) ∷ es) c =
    ap (λ more. rejects id closed ∷ more)
      (reject_each-actions es (record c { armed = remove id c.armed }))
reject_each-actions ((id, execute_call) ∷ es) c = reject_each-actions es _

-- A stream that has been ended by a rejection.
abbrev pub IsClosed : Stream → Stream → Type 0
IsClosed s t = (t.queue ≡ s.queue) × (t.done ≡ true) × (t.error ≡ some closed)

reject_each-connected :
    (es : List (String × Kind)) (c : Client) → (reject_each es c).0.connected ≡ c.connected
unfolding reject_each reject
reject_each-connected [] c = refl
reject_each-connected ((k, status_call) ∷ es) c =
    reject_each-connected es (record c { armed = remove k c.armed })
reject_each-connected ((k, execute_call) ∷ es) c =
    reject_each-connected es
      (record c { armed = remove k c.armed; streams = change (finished (some closed)) k c.streams })

-- What one rejection does to the stream of `id`.
closed_by : String → String → Stream → Stream
closed_by id k s = if str_eq id k then finished (some closed) s else s

closed_by-IsClosed : (s t : Stream) (id k : String) → IsClosed s t → IsClosed s (closed_by id k t)
unfolding closed_by
closed_by-IsClosed s t id k h = elim (Bool-cases (str_eq id k)) [
  | inl same ↦ rw same (h.0, refl, refl)
  | inr ne ↦ rw ne h
]

reject_each-keeps :
    (es : List (String × Kind)) (c : Client) (id : String) (s t : Stream)
    → lookup id c.streams ≡ some t
    → IsClosed s t
    → (u : Stream) × (lookup id (reject_each es c).0.streams ≡ some u) × IsClosed s u
unfolding reject_each reject
reject_each-keeps [] c id s t held h = (t, held, h)
reject_each-keeps ((k, status_call) ∷ es) c id s t held h =
    reject_each-keeps es (record c { armed = remove k c.armed }) id s t held h
reject_each-keeps ((k, execute_call) ∷ es) c id s t held h =
    reject_each-keeps es
      (record c { armed = remove k c.armed; streams = change (finished (some closed)) k c.streams })
      id s (closed_by id k t)
      (unfold closed_by in (lookup-change (finished (some closed)) k id c.streams t held))
      (closed_by-IsClosed s t id k h)

reject_each-closes :
    (es : List (String × Kind)) (c : Client) (id : String) (s : Stream)
    → lookup id es ≡ some execute_call
    → lookup id c.streams ≡ some s
    → (t : Stream) × (lookup id (reject_each es c).0.streams ≡ some t) × IsClosed s t
unfolding reject_each reject lookup
reject_each-closes [] c id s waiting held = cc
reject_each-closes ((k, status_call) ∷ es) c id s waiting held =
    reject_each-closes es (record c { armed = remove k c.armed }) id s (ground (arith)) held
reject_each-closes ((k, execute_call) ∷ es) c id s waiting held = elim (Bool-cases (str_eq k id)) [
  | inl same ↦
      reject_each-keeps es
        (record c {
          armed = remove k c.armed;
          streams = change (finished (some closed)) k c.streams;
        })
        id s (finished (some closed) s)
        (ground (
          arith,
          eq_iff k id,
          eq_iff id k,
          lookup-change (finished (some closed)) k id c.streams s held,
        ))
        (refl, refl, refl)
  | inr ne ↦
      reject_each-closes es
        (record c {
          armed = remove k c.armed;
          streams = change (finished (some closed)) k c.streams;
        })
        id s (sym (ap (λ b. if b then some execute_call else lookup id es) ne) ∙ waiting)
        (ground (
          arith,
          eq_iff k id,
          eq_iff id k,
          lookup-change (finished (some closed)) k id c.streams s held,
        ))
]

-- What the reader of a generator gets, one call of `next()` after the other.
unfoldable pub pulls : ℕ → Stream → List Pull
pulls zero s = []
pulls (suc n) s = (pull s).1 ∷ pulls n (pull s).0

pulls_queue :
    (q : List (Option Json)) (command : String) (error : Option Error)
    → pulls (suc (length q)) (record { command = command; queue = q; done = true; error = error })
      ≡ map yields q ++ (ended error ∷ [])
unfolding pulls pull
pulls_queue [] command error = refl
pulls_queue (v ∷ q) command error = ap (λ more. yields v ∷ more) (pulls_queue q command error)

-- A generator that has ended gives its reader all that is queued, in order, and only then its end:
-- the error if there was one.
pub pulls_lem :
    (s : Stream)
    → s.done ≡ true
    → pulls (suc (length s.queue)) s ≡ map yields s.queue ++ (ended s.error ∷ [])
pulls_lem s done = rw done (pulls_queue s.queue s.command s.error)

closed_pulls :
    (s t : Stream)
    → IsClosed s t
    → pulls (suc (length s.queue)) t ≡ map yields s.queue ++ (throws closed ∷ [])
unfolding ended
closed_pulls s t (same, done, failed_) =
    ap (λ q. pulls (suc (length q)) t) (sym same)
    ∙ pulls_lem t done
    ∙ ap (λ q. map yields q ++ (ended t.error ∷ [])) same
    ∙ ap (λ e. map yields s.queue ++ (ended e ∷ [])) failed_

-- Closing: every status request that waits is rejected once, in the order of the requests, then the
-- transport is closed; no request waits any more; and the generator of an `execute` that waits
-- yields what it has queued and then throws.
pub close_lem :
    (c : Client)
    → ((close c).1
        ≡ map (λ id. rejects id closed) (status_ids c.pending) ++ (closes_transport ∷ []))
      × ((close c).0.pending ≡ [])
      × ((close c).0.connected ≡ false)
      × ((id : String) (s : Stream)
          → lookup id c.pending ≡ some execute_call
          → lookup id c.streams ≡ some s
          → (t : Stream) × (lookup id (close c).0.streams ≡ some t)
            × IsClosed s t
            × (pulls (suc (length s.queue)) t ≡ map yields s.queue ++ (throws closed ∷ [])))
unfolding close
close_lem c = (
  ap (λ more. more ++ (closes_transport ∷ []))
      (reject_each-actions c.pending (record c { connected = false })),
  refl,
  reject_each-connected c.pending (record c { connected = false }),
  λ id s waiting held.
      let (t, at, over) =
        reject_each-closes c.pending (record c { connected = false }) id s waiting held in
      (t, at, over, closed_pulls s t over),
)

answer_status-skip :
    (before after : List (String × Kind)) (id : String) (msg : Json) (c : Client)
    → All (λ e. e.1 ≡ execute_call) before
    → answer_status (before ++ ((id, status_call) ∷ after)) msg c
      ≡ (taken id c, resolves id (some msg) ∷ [])
unfolding answer_status resolve
answer_status-skip [] after id msg c executes = refl
answer_status-skip ((k, kind) ∷ before) after id msg c (here, rest) =
    rw here (answer_status-skip before after id msg c rest)

-- A status answer settles the first status request that waits, whatever request id it carries, and
-- nothing else: the others, and every `execute`, wait on.
pub status_answers_first :
    (before after : List (String × Kind)) (id : String) (msg : Json) (c : Client)
    → All (λ e. e.1 ≡ execute_call) before
    → c.pending ≡ before ++ ((id, status_call) ∷ after)
    → is_object msg ≡ true
    → type_is msg "status" ≡ true
    → handle_message msg c ≡ (taken id c, resolves id (some msg) ∷ [])
unfolding handle_message
status_answers_first before after id msg c executes all object st =
    rw (object, st)
      (ap (λ p. answer_status p msg c) all ∙ answer_status-skip before after id msg c executes)

-- The timer of an `execute` ends its generator with the timeout error, and leaves the request in
-- the map of those that wait.
pub execute_times_out :
    (c : Client) (id : String) (s : Stream)
    → lookup id c.streams ≡ some s
    → ((fire id execute_call c).0.pending ≡ c.pending)
      × (lookup id (fire id execute_call c).0.streams
          ≡ some (record s { done = true; error = some (execute_timed_out s.command) }))
unfolding fire
execute_times_out c id s held =
    (refl, lookup-change _ id id c.streams s held ∙ rw (eq_refl id) refl)
