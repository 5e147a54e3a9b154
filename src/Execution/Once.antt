-- ===== src/Execution/Once.antt =====
-- How often an execution runs.
use kb_labs_host_agent.Common.{
  ℕ, ◌+◌, ◌≤◌, ◌≡◌, ap, sym, ◌∙◌, subst, String, false, Option, none, some, List, [], ◌∷◌, arith,
  str_eq, if◌then◌else◌, Option-cases, Bool-cases, inl, inr,
}
use kb_labs_host_agent.Common.Dict.{lookup, insert, remove, lookup-insert, lookup-remove}
use kb_labs_host_agent.Execution.{
  Request, JournalEntry, Options, Journal, Handler, Stage, resolving, resolved, running, Event,
  calls, answers, cleans, step, execute, begin, continue, Answer, resolved_with, rejected_with,
  journal_ttl_ms, finish, is_plugin_allowed, fresh_entry, cleanup_journal, cleanup, is_expired,
  completed_entry, initial, answer_pending,
}
use kb_labs_host_agent.Execution.Journal.{Inv, step-Inv, lookup-cleanup-none, lookup-cleanup}
use kb_labs_host_agent.Execution.Credit.{runs_of, credit_of, execute-credit, continue-credit}

-- A history: the events, each with its time.
abbrev pub History : Type 0
History = List (ℕ × Event)

unfoldable pub final : Options → Handler → History → Handler
final opts h [] = h
final opts h ((now, e) ∷ more) = final opts (step opts now h e).0 more

unfoldable pub runs_in : String → Options → Handler → History → ℕ
runs_in id opts h [] = 0
runs_in id opts h ((now, e) ∷ more) =
    runs_of id (step opts now h e).1 + runs_in id opts (step opts now h e).0 more

-- No time of the history is before `t`, nor more than five minutes after it.
unfoldable pub Within : ℕ → History → Type 0
Within t [] = Unit
Within t ((now, e) ∷ more) = (t ≤ now) × (now ≤ t + journal_ttl_ms) × Within t more

-- No entry of the journal is from before `t`.
Since : ℕ → Journal → Type 0
Since t j = (id : String) (e : JournalEntry) → lookup id j ≡ some e → t ≤ e.started_at

young :
    (now t : ℕ) (e : JournalEntry)
    → t ≤ e.started_at
    → now ≤ t + journal_ttl_ms
    → is_expired now e ≡ false
unfolding is_expired
young now t e low high = ground arith

insert-Since :
    (k : String) (x : JournalEntry) (j : Journal) (t : ℕ)
    → t ≤ x.started_at
    → Since t j
    → Since t (insert k x j)
unfolding Since
insert-Since k x j t low since id e found = elim (Bool-cases (str_eq k id)) [
  | inl same ↦
      let b : some x ≡ some e =
        sym (lookup-insert k id x j ∙ ap (λ b. if b then some x else lookup id j) same) ∙ found in
      let b2 : x ≡ e = cc in subst (λ y. t ≤ y.started_at) b2 low
  | inr other ↦
      since id e
        (sym (lookup-insert k id x j ∙ ap (λ b. if b then some x else lookup id j) other) ∙ found)
]

remove-Since : (k : String) (j : Journal) (t : ℕ) → Since t j → Since t (remove k j)
unfolding Since
remove-Since k j t since id e found = since id e (let a = lookup-remove k id j in ground (arith))

-- The cleanup does not reach an entry of the last five minutes.
lookup-cleanup_young :
    (now : ℕ) (j : Journal) (id : String) (t : ℕ)
    → Since t j
    → now ≤ t + journal_ttl_ms
    → lookup id (cleanup now j) ≡ lookup id j
unfolding Since
lookup-cleanup_young now j id t since w = elim (Option-cases (lookup id j)) [
  | inl nothing ↦ lookup-cleanup-none now id j nothing ∙ sym nothing
  | inr (e, found) ↦
      lookup-cleanup now id e j found (young now t e (since id e found) w) ∙ sym found
]

cleanup-Since :
    (now : ℕ) (j : Journal) (t : ℕ) → Since t j → now ≤ t + journal_ttl_ms → Since t (cleanup now j)
unfolding Since
cleanup-Since now j t since high id e found =
    since id e (sym (lookup-cleanup_young now j id t since high) ∙ found)

begin-Since :
    (opts : Options) (now : ℕ) (req : Request) (h : Handler) (t : ℕ)
    → Since t h.journal
    → t ≤ now
    → Since t (begin opts now req h).0.journal
unfolding begin
begin-Since opts now req h t since w =
    let k = req.execution_id in
    let entered = insert-Since k (fresh_entry now) h.journal t w since in
    elim (Bool-cases (is_plugin_allowed opts.allowed_plugins req.plugin_id)) [
      | inl ok ↦ rw ok entered
      | inr refused ↦ rw refused (remove-Since k (insert k (fresh_entry now) h.journal) t entered)
    ]

execute-Since :
    (opts : Options) (now : ℕ) (req : Request) (h : Handler) (t : ℕ)
    → Since t h.journal
    → t ≤ now
    → Since t (execute opts now req h).0.journal
unfolding execute
execute-Since opts now req h t since w = elim (Option-cases (lookup req.execution_id h.journal)) [
  | inl new ↦ rw new (begin-Since opts now req h t since w)
  | inr (entry, known) ↦ rw known since
]

finish-Since :
    (k : String) (answer : Answer) (h : Handler) (t : ℕ)
    → Since t h.journal
    → Since t (finish k answer h).0.journal
unfolding finish Since
finish-Since k (resolved_with v) h t since = elim (Option-cases (lookup k h.journal)) [
  | inl nothing ↦ rw nothing since
  | inr (x, known) ↦
      rw known (insert-Since k (completed_entry v none x) h.journal t (since k x known) since)
]
finish-Since k (rejected_with m) h t since = elim (Option-cases (lookup k h.journal)) [
  | inl nothing ↦ rw nothing since
  | inr (x, known) ↦
      rw known
        (insert-Since k (completed_entry none (some m) x) h.journal t (since k x known) since)
]

answered-Since :
    (p : Option (Stage × Request)) (opts : Options) (answer : Answer) (h : Handler) (t : ℕ)
    → Since t h.journal
    → Since t (answer_pending p opts answer h).0.journal
unfolding answer_pending
answered-Since none opts answer h t since = since
answered-Since (some (resolving, req)) opts (resolved_with v) h t since = since
answered-Since (some (resolved, req)) opts (resolved_with v) h t since = since
answered-Since (some (resolving, req)) opts (rejected_with m) h t since = since
answered-Since (some (resolved, req)) opts (rejected_with m) h t since = since
answered-Since (some (running, req)) opts answer h t since =
    finish-Since req.execution_id answer h t since

step-Since :
    (opts : Options) (now : ℕ) (h : Handler) (e : Event) (t : ℕ)
    → Since t h.journal
    → t ≤ now
    → now ≤ t + journal_ttl_ms
    → Since t (step opts now h e).0.journal
unfolding step continue cleanup_journal
step-Since opts now h (calls req) t since w high = execute-Since opts now req h t since w
step-Since opts now h (answers k a) t since w high =
    answered-Since (lookup k h.pending) opts a h t since
step-Since opts now h cleans t since w high = cleanup-Since now h.journal t since high

step-credit :
    (opts : Options) (now : ℕ) (h : Handler) (e : Event) (id : String) (t : ℕ)
    → Inv h
    → Since t h.journal
    → now ≤ t + journal_ttl_ms
    → runs_of id (step opts now h e).1 + credit_of id (step opts now h e).0 ≤ credit_of id h
unfolding step runs_of credit_of cleanup_journal
step-credit opts now h (calls req) id t inv since w = execute-credit opts now req h id
step-credit opts now h (answers k a) id t inv since w = continue-credit opts k a h id inv
step-credit opts now h cleans id t inv since w =
    rw (lookup-cleanup_young now h.journal id t since w) (omega arith)

runs_in-credit :
    (opts : Options) (h : Handler) (es : History) (id : String) (t : ℕ)
    → Inv h
    → Since t h.journal
    → Within t es
    → runs_in id opts h es ≤ credit_of id h
unfolding runs_in Within
runs_in-credit opts h [] id t inv since w = omega arith
runs_in-credit opts h ((now, e) ∷ es) id t inv since (low, high, w) = omega (
  arith,
  step-credit opts now h e id t inv since high,
  runs_in-credit opts (step opts now h e).0 es id t (step-Inv opts now h e inv)
      (step-Since opts now h e t since low high) w,
)

-- From the start, in a history of calls, answers and cleanups in any order that spans no more than
-- five minutes, the plugin runs at most once for an execution id, in either mode and whatever the
-- calls with that id ask.
pub runs_at_most_once :
    (opts : Options) (es : History) (id : String) (t : ℕ)
    → Within t es
    → runs_in id opts initial es ≤ 1
unfolding lookup credit_of Since
runs_at_most_once opts es id t w =
    runs_in-credit opts initial es id t (λ id s r e. cc) (λ id e h. cc) w
