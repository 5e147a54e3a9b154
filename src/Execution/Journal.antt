-- ===== src/Execution/Journal.antt =====
-- The journal: every call under way has its entry, and a cleanup leaves what is not old.
mod Begun
pub use kb_labs_host_agent.Execution.Journal.Begun.{
  Inv, lookup-cleanup, lookup-cleanup-none, not-expired_of_started, begin-kept,
}
use kb_labs_host_agent.Execution.Journal.Begun.{execute-Inv}
use kb_labs_host_agent.Common.{
  ℕ, ◌≡◌, refl, ap, String, false, none, some, [], ◌∷◌, arith, str_eq, eq_iff, Option-cases,
  Bool-cases, inl, inr, ◌∙◌, sym, subst,
}
use kb_labs_host_agent.Common.Dict.{
  lookup, insert, remove, lookup-insert, lookup-remove, lookup-insert_self,
}
use kb_labs_host_agent.Execution.{
  Request, JournalEntry, started, Options, Journal, Handler, Stage, resolving, resolved, running,
  fresh_entry, is_plugin_allowed, begin, execute, Answer, resolved_with, rejected_with, continue,
  is_expired, cleanup, cleanup_journal, Event, calls, answers, cleans, step, with_permissions,
  finish, completed_entry,
}

-- The journal, and the calls under way but that of `id`, as they were; that of `id` may have moved.
moved-Inv :
    (h g : Handler) (id : String)
    → Inv h
    → g.journal ≡ h.journal
    → ((j : String) → str_eq id j ≡ false → lookup j g.pending ≡ lookup j h.pending)
    → ((s : Stage) (r : Request)
        → lookup id g.pending ≡ some (s, r)
        → (t : Stage) × (lookup id h.pending ≡ some (t, r)))
    → Inv g
moved-Inv h g id v same others own j s r e = elim (Bool-cases (str_eq id j)) [
  | inl here ↦
      let there = (eq_iff id j).0 here in
      let (t, held) = own s r (ap (λ k. lookup k g.pending) there ∙ e) in
      rw same (v j t r (sym (ap (λ k. lookup k h.pending) there) ∙ held))
  | inr ne ↦ rw same (v j s r (sym (others j ne) ∙ e))
]

finished-Inv :
    (h g : Handler) (id : String)
    → Inv h
    → ((j : String) → str_eq id j ≡ false → lookup j g.journal ≡ lookup j h.journal)
    → g.pending ≡ remove id h.pending
    → Inv g
finished-Inv h g id v others gone j s r e = elim (Bool-cases (str_eq id j)) [
  | inl here ↦ let n = lookup-remove id j h.pending in let z = ap (lookup j) gone in cc
  | inr ne ↦ rw (others j ne) (
      v j s r
        (let n = lookup-remove id j h.pending in let z = ap (lookup j) gone in ground (arith)))
]

set_pending-Inv :
    (h : Handler) (id : String) (t u : Stage) (req : Request)
    → lookup id h.pending ≡ some (t, req)
    → Inv h
    → Inv (record h { pending = insert id (u, req) h.pending })
set_pending-Inv h id t u req held v =
    moved-Inv h (record h { pending = insert id (u, req) h.pending }) id v refl
      (λ j ne. ground (arith, lookup-insert id j (u, req) h.pending))
      (λ s r e. (t, let n = lookup-insert_self id (u, req) h.pending in cc))

remove_pending-Inv :
    (h : Handler) (id : String) → Inv h → Inv (record h { pending = remove id h.pending })
remove_pending-Inv h id v =
    finished-Inv h (record h { pending = remove id h.pending }) id v (λ j ne. refl) refl

finish-Inv :
    (id : String) (s : Stage) (req : Request) (answer : Answer) (h : Handler)
    → lookup id h.pending ≡ some (s, req)
    → Inv h
    → Inv (finish id answer h).0
unfolding finish
finish-Inv id s req (resolved_with a) h held v =
    let (same, (entry, found, going)) = v id s req held in
    rw found (
      finished-Inv h _ id v
        (λ j ne. ground (arith, lookup-insert id j (completed_entry a none entry) h.journal)) refl)
finish-Inv id s req (rejected_with m) h held v =
    let (same, (entry, found, going)) = v id s req held in
    rw found (
      finished-Inv h _ id v
        (λ j ne. ground (arith, lookup-insert id j (completed_entry none (some m) entry) h.journal))
        refl)

answered-Inv :
    (opts : Options) (s : Stage) (req : Request) (answer : Answer) (h : Handler)
    → lookup req.execution_id h.pending ≡ some (s, req)
    → Inv h
    → Inv (continue opts req.execution_id answer h).0
unfolding continue
answered-Inv opts resolving req (resolved_with a) h held v =
    rw held (set_pending-Inv h req.execution_id resolving resolved req held v)
answered-Inv opts resolved req (resolved_with a) h held v =
    rw held (set_pending-Inv h req.execution_id resolved running req held v)
answered-Inv opts running req answer h held v =
    rw held (finish-Inv req.execution_id running req answer h held v)
answered-Inv opts resolving req (rejected_with m) h held v =
    rw held (remove_pending-Inv h req.execution_id v)
answered-Inv opts resolved req (rejected_with m) h held v =
    rw held (remove_pending-Inv h req.execution_id v)

continue-Inv :
    (opts : Options) (id : String) (answer : Answer) (h : Handler)
    → Inv h
    → Inv (continue opts id answer h).0
unfolding continue lookup
continue-Inv opts id answer h v = elim (Option-cases (lookup id h.pending)) [
  | inl nothing ↦ rw nothing v
  | inr ((s, req), held) ↦
      let own = (v id s req held).0 in
      subst (λ k. Inv (continue opts k answer h).0) own
        (answered-Inv opts s req answer h (ap (λ k. lookup k h.pending) own ∙ held) v)
]

-- Every event keeps it.
pub step-Inv :
    (opts : Options) (now : ℕ) (h : Handler) (e : Event) → Inv h → Inv (step opts now h e).0
unfolding step cleanup_journal
step-Inv opts now h (calls req) v = execute-Inv opts now req h v
step-Inv opts now h (answers id answer) v = continue-Inv opts id answer h v
step-Inv opts now h cleans v = λ id s req e.
    let (own, (entry, found, going)) = v id s req e in
    (
      own,
      (
        entry,
        lookup-cleanup now id entry h.journal found (not-expired_of_started now entry going),
        going,
      ),
    )
