-- ===== src/Execution/Credit.antt =====
-- How often the plugin can still run for an execution: no step adds to it, and a run takes from it.
use kb_labs_host_agent.Common.{
  ℕ, ◌+◌, ◌≤◌, ◌≡◌, refl, ap, ◌∙◌, subst, String, Option, none, some, List, [], ◌∷◌, arith, str_eq,
  eq_iff, if◌then◌else◌, Option-cases, inl, inr,
}
use kb_labs_host_agent.Common.Dict.{lookup, insert, lookup-insert, lookup-remove}
use kb_labs_host_agent.Execution.{
  Request, JournalEntry, Options, Handler, Stage, resolving, resolved, running, Action,
  run_in_process, run_in_subprocess, execute, begin, continue, Answer, resolved_with, rejected_with,
  finish, with_permissions, fresh_entry, Mode, in_process, subprocess, completed_entry, replay,
  runs,
}
use kb_labs_host_agent.Execution.Journal.{Inv}

-- Whether an action runs the plugin for `id`.
unfoldable pub run_of : String → Action → ℕ
run_of id (run_in_process req) = if str_eq req.execution_id id then 1 else 0
run_of id (run_in_subprocess req) = if str_eq req.execution_id id then 1 else 0
run_of id _ = 0

unfoldable pub runs_of : String → List Action → ℕ
runs_of id [] = 0
runs_of id (a ∷ more) = run_of id a + runs_of id more

unfoldable pub stage_credit : Stage → ℕ
stage_credit running = 0
stage_credit _ = 1

unfoldable pub pending_credit : Option (Stage × Request) → ℕ
unfolding stage_credit
pending_credit none = 0
pending_credit (some (s, r)) = stage_credit s

-- How often the plugin can still run for an execution that the journal has, or does not have.
unfoldable pub credit : Option JournalEntry → Option (Stage × Request) → ℕ
unfolding pending_credit
credit none p = 1
credit (some e) p = pending_credit p

unfoldable pub credit_of : String → Handler → ℕ
unfolding credit
credit_of id h = credit (lookup id h.journal) (lookup id h.pending)

replay-runs : (id k : String) (e : JournalEntry) → run_of id (replay k e) ≡ 0
unfolding replay run_of
replay-runs id k e = ground (arith)

begin-credit :
    (opts : Options) (now : ℕ) (req : Request) (h : Handler) (id : String)
    → lookup req.execution_id h.journal ≡ none
    → runs_of id (begin opts now req h).1 + credit_of id (begin opts now req h).0 ≤ credit_of id h
unfolding begin run_of runs_of credit_of
begin-credit opts now req h id new =
    let k = req.execution_id in
    let e = fresh_entry now in
    let more = record req { descriptor = with_permissions req.descriptor } in
    ground (
      arith,
      eq_iff k id,
      lookup-insert k id e h.journal,
      lookup-remove k id (insert k e h.journal),
      lookup-insert k id (resolving, more) h.pending,
    )

pub execute-credit :
    (opts : Options) (now : ℕ) (req : Request) (h : Handler) (id : String)
    → runs_of id (execute opts now req h).1 + credit_of id (execute opts now req h).0
      ≤ credit_of id h
unfolding execute runs_of
execute-credit opts now req h id = elim (Option-cases (lookup req.execution_id h.journal)) [
  | inl new ↦ rw new (begin-credit opts now req h id new)
  | inr (entry, known) ↦ rw (known, replay-runs id req.execution_id entry) (omega arith)
]

finish-credit :
    (k : String) (answer : Answer) (h : Handler) (id : String) (e : JournalEntry)
    → lookup k h.journal ≡ some e
    → runs_of id (finish k answer h).1 + credit_of id (finish k answer h).0 ≤ credit_of id h
unfolding finish run_of runs_of credit_of
finish-credit k (resolved_with v) h id e known = rw known (
    ground (
      arith,
      eq_iff k id,
      lookup-insert k id (completed_entry v none e) h.journal,
      lookup-remove k id h.pending,
    ))
finish-credit k (rejected_with m) h id e known = rw known (
    ground (
      arith,
      eq_iff k id,
      lookup-insert k id (completed_entry none (some m) e) h.journal,
      lookup-remove k id h.pending,
    ))

runs-run_of :
    (m : Mode) (id : String) (req : Request)
    → run_of id (runs m req) ≡ (if str_eq req.execution_id id then 1 else 0)
unfolding run_of runs
runs-run_of in_process id req = refl
runs-run_of subprocess id req = refl

answered-credit :
    (opts : Options) (s : Stage) (req : Request) (answer : Answer) (h : Handler) (id : String)
    (e : JournalEntry)
    → lookup req.execution_id h.pending ≡ some (s, req)
    → lookup req.execution_id h.journal ≡ some e
    → runs_of id (continue opts req.execution_id answer h).1
        + credit_of id (continue opts req.execution_id answer h).0
      ≤ credit_of id h
unfolding continue run_of runs_of credit_of
answered-credit opts resolving req (resolved_with v) h id e held known = rw held (
    ground (
      arith,
      eq_iff req.execution_id id,
      lookup-insert req.execution_id id (resolved, req) h.pending,
    ))
answered-credit opts resolved req (resolved_with v) h id e held known =
    rw (held, runs-run_of opts.execution_mode id req)
      (ground (
        arith,
        eq_iff req.execution_id id,
        lookup-insert req.execution_id id (running, req) h.pending,
      ))
answered-credit opts running req answer h id e held known =
    rw held (finish-credit req.execution_id answer h id e known)
answered-credit opts resolving req (rejected_with m) h id e held known =
    rw held
      (ground (arith, eq_iff req.execution_id id, lookup-remove req.execution_id id h.pending))
answered-credit opts resolved req (rejected_with m) h id e held known =
    rw held
      (ground (arith, eq_iff req.execution_id id, lookup-remove req.execution_id id h.pending))

pub continue-credit :
    (opts : Options) (k : String) (answer : Answer) (h : Handler) (id : String)
    → Inv h
    → runs_of id (continue opts k answer h).1 + credit_of id (continue opts k answer h).0
      ≤ credit_of id h
unfolding continue runs_of
continue-credit opts k answer h id inv = elim (Option-cases (lookup k h.pending)) [
  | inl nothing ↦ rw nothing (omega arith)
  | inr ((s, req), held) ↦
      let (own, (e, found, going)) = inv k s req held in
      subst
        (λ k.
          runs_of id (continue opts k answer h).1 + credit_of id (continue opts k answer h).0
          ≤ credit_of id h)
        own
        (answered-credit opts s req answer h id e (ap (λ k. lookup k h.pending) own ∙ held)
          (ap (λ k. lookup k h.journal) own ∙ found))
]
