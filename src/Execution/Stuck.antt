-- ===== src/Execution/Stuck.antt =====
-- What is left of an execution whose plugin the resolver, or the proxy platform, did not give.
use kb_labs_host_agent.Common.{
  ℕ, ◌≡◌, refl, ap, sym, ◌∙◌, String, false, none, some, [], ◌∷◌, arith, str_eq, eq_iff,
  Option-cases, Bool-cases, inl, inr, ◌≢◌,
}
use kb_labs_host_agent.Common.Dict.{lookup, lookup-insert, lookup-remove}
use kb_labs_host_agent.Execution.{
  Request, JournalEntry, started, Options, Handler, Stage, resolving, resolved, running, throws,
  Event, calls, answers, cleans, step, execute, continue, Answer, resolved_with, rejected_with,
  finish, cleanup_journal, completed_entry, in_progress, replay, advance,
}
use kb_labs_host_agent.Execution.Journal.{
  Inv, step-Inv, begin-kept, lookup-cleanup, not-expired_of_started,
}
use kb_labs_host_agent.Execution.Once.{History, final}

-- The journal says that `id` has started, and no call for it is under way.
abbrev Stuck : String → Handler → Type 0
Stuck id h =
    (e : JournalEntry) × (lookup id h.journal ≡ some e)
    × (e.status ≡ started)
    × (lookup id h.pending ≡ none)

replay-started :
    (id : String) (e : JournalEntry) → e.status ≡ started → replay id e ≡ throws (in_progress id)
unfolding replay
replay-started id e going = rw going refl

execute-Stuck :
    (opts : Options) (now : ℕ) (req : Request) (h : Handler) (id : String)
    → Stuck id h
    → Stuck id (execute opts now req h).0
unfolding execute
execute-Stuck opts now req h id (e, found, going, idle) =
    elim (Option-cases (lookup req.execution_id h.journal)) [
      | inr (entry, known) ↦ rw known (e, found, going, idle)
      | inl new ↦ rw new (elim (Bool-cases (str_eq req.execution_id id)) [
        | inl same ↦
            let own = ap (λ k. lookup k h.journal) ((eq_iff req.execution_id id).0 same) in cc
        | inr ne ↦
            let (jk, pk) = begin-kept opts now req h id ne in (e, jk ∙ found, going, pk ∙ idle)
      ])
    ]

finish-other :
    (k : String) (answer : Answer) (h : Handler) (id : String)
    → str_eq k id ≡ false
    → (lookup id (finish k answer h).0.journal ≡ lookup id h.journal)
      × (lookup id (finish k answer h).0.pending ≡ lookup id h.pending)
unfolding finish
finish-other k (resolved_with v) h id ne = elim (Option-cases (lookup k h.journal)) [
  | inl nothing ↦ rw nothing (refl, ground (arith, lookup-remove k id h.pending))
  | inr (x, known) ↦ rw known (
    ground (arith, lookup-insert k id (completed_entry v none x) h.journal),
    ground (arith, lookup-remove k id h.pending),
  )
]
finish-other k (rejected_with m) h id ne = elim (Option-cases (lookup k h.journal)) [
  | inl nothing ↦ rw nothing (refl, ground (arith, lookup-remove k id h.pending))
  | inr (x, known) ↦ rw known (
    ground (arith, lookup-insert k id (completed_entry none (some m) x) h.journal),
    ground (arith, lookup-remove k id h.pending),
  )
]

advance-other :
    (opts : Options) (s : Stage) (req : Request) (answer : Answer) (h : Handler) (id : String)
    → str_eq req.execution_id id ≡ false
    → (lookup id (advance opts s req answer h).0.journal ≡ lookup id h.journal)
      × (lookup id (advance opts s req answer h).0.pending ≡ lookup id h.pending)
unfolding advance
advance-other opts resolving req (resolved_with v) h id ne =
    (refl, ground (arith, lookup-insert req.execution_id id (resolved, req) h.pending))
advance-other opts resolved req (resolved_with v) h id ne =
    (refl, ground (arith, lookup-insert req.execution_id id (running, req) h.pending))
advance-other opts resolving req (rejected_with m) h id ne =
    (refl, ground (arith, lookup-remove req.execution_id id h.pending))
advance-other opts resolved req (rejected_with m) h id ne =
    (refl, ground (arith, lookup-remove req.execution_id id h.pending))
advance-other opts running req answer h id ne = finish-other req.execution_id answer h id ne

continue-Stuck :
    (opts : Options) (k : String) (answer : Answer) (h : Handler) (id : String)
    → Inv h
    → Stuck id h
    → Stuck id (continue opts k answer h).0
unfolding continue
continue-Stuck opts k answer h id inv (e, found, going, idle) =
    elim (Option-cases (lookup k h.pending)) [
      | inl nothing ↦ rw nothing (e, found, going, idle)
      | inr ((s, req), held) ↦
          let own = (inv k s req held).0 in
          rw held (elim (Bool-cases (str_eq req.execution_id id)) [
            | inl same ↦
                let there : lookup k h.pending ≡ none =
                  ap (λ k. lookup k h.pending) (sym own ∙ (eq_iff req.execution_id id).0 same)
                  ∙ idle in
                cc
            | inr ne ↦
                let (jk, pk) = advance-other opts s req answer h id ne in
                (e, jk ∙ found, going, pk ∙ idle)
          ])
    ]

step-Stuck :
    (opts : Options) (now : ℕ) (h : Handler) (ev : Event) (id : String)
    → Inv h
    → Stuck id h
    → Stuck id (step opts now h ev).0
unfolding step cleanup_journal
step-Stuck opts now h (calls req) id inv stuck = execute-Stuck opts now req h id stuck
step-Stuck opts now h (answers k a) id inv stuck = continue-Stuck opts k a h id inv stuck
step-Stuck opts now h cleans id inv (e, found, going, idle) =
    (e, lookup-cleanup now id e h.journal found (not-expired_of_started now e going), going, idle)

final-Stuck :
    (opts : Options) (h : Handler) (es : History) (id : String)
    → Inv h
    → Stuck id h
    → Stuck id (final opts h es)
unfolding final
final-Stuck opts h [] id inv stuck = stuck
final-Stuck opts h ((now, e) ∷ es) id inv stuck =
    final-Stuck opts (step opts now h e).0 es id (step-Inv opts now h e inv)
      (step-Stuck opts now h e id inv stuck)

refused-Stuck :
    (opts : Options) (now : ℕ) (h : Handler) (id : String) (s : Stage) (req : Request)
    (message : String)
    → Inv h
    → lookup id h.pending ≡ some (s, req)
    → s ≢ running
    → Stuck id (step opts now h (answers id (rejected_with message))).0
unfolding step continue
refused-Stuck opts now h id resolving req message inv held before =
    let (own, (e, found, going)) = inv id resolving req held in
    rw held (
      e,
      found,
      going,
      let own2 = (eq_iff req.execution_id id).1 own in
          ground (arith, lookup-remove req.execution_id id h.pending),
    )
refused-Stuck opts now h id resolved req message inv held before =
    let (own, (e, found, going)) = inv id resolved req held in
    rw held (
      e,
      found,
      going,
      let own2 = (eq_iff req.execution_id id).1 own in
          ground (arith, lookup-remove req.execution_id id h.pending),
    )
refused-Stuck opts now h id running req message inv held before = elim (before refl) [ ]

-- Once the resolver or the proxy platform refuses an execution, before the plugin runs, every later
-- call with its id is told that it is in progress, whatever calls, answers and cleanups came in
-- between and however much later it is: the execution can not be tried again.
pub refused_stays :
    (opts : Options) (now : ℕ) (h : Handler) (s : Stage) (req : Request) (message : String)
    (es : History) (later : ℕ) (again : Request)
    → Inv h
    → lookup again.execution_id h.pending ≡ some (s, req)
    → s ≢ running
    → let g =
        final opts (step opts now h (answers again.execution_id (rejected_with message))).0 es in
      step opts later g (calls again) ≡ (g, throws (in_progress again.execution_id) ∷ [])
refused_stays opts now h s req message es later again inv held before =
    let g0 = (step opts now h (answers again.execution_id (rejected_with message))).0 in
    let (e, found, going, idle) =
      final-Stuck opts g0 es again.execution_id
        (step-Inv opts now h (answers again.execution_id (rejected_with message)) inv)
        (refused-Stuck opts now h again.execution_id s req message inv held before) in
    unfold step in (unfold execute in (rw (found, replay-started again.execution_id e going) refl))
