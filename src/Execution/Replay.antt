-- ===== src/Execution/Replay.antt =====
-- What the journal answers to an execution that has finished, and what a cleanup leaves in it.
use kb_labs_host_agent.Common.{
  ℕ, ◌≡◌, refl, String, false, Option, none, some, [], ◌∷◌, str_eq, if◌then◌else◌, Bool-cases, inl,
  inr, All,
}
use kb_labs_host_agent.Common.Dict.{lookup, lookup-insert_self}
use kb_labs_host_agent.Common.Json.{Json}
use kb_labs_host_agent.Execution.{
  Request, JournalEntry, started, Options, Journal, Handler, running, returns, throws, recorded,
  replay, execute, resolved_with, rejected_with, continue, is_expired, cleanup, calls, answers,
  step, finish, completed_entry,
}
use kb_labs_host_agent.Execution.Journal.{Inv, lookup-cleanup, not-expired_of_started}

-- A handler, at any state that a history reaches, finishes the plugin's run of an execution with
-- the value `v`: the next call with that execution id, whatever else it asks and whenever before a
-- cleanup it comes, returns `v`, starts nothing and changes nothing.
pub replay_result :
    (opts : Options) (now later : ℕ) (h : Handler) (req again : Request) (v : Option Json)
    → Inv h
    → lookup again.execution_id h.pending ≡ some (running, req)
    → let g = (step opts now h (answers again.execution_id (resolved_with v))).0 in
      step opts later g (calls again) ≡ (g, returns v ∷ [])
unfolding step continue execute finish replay
replay_result opts now later h req again v inv held =
    let (own, (entry, found, going)) = inv again.execution_id running req held in
    rw
      (
        held,
        own,
        found,
        lookup-insert_self again.execution_id (completed_entry v none entry) h.journal,
      )
      refl

-- A handler, at any state that a history reaches, ends the plugin's run of an execution with an
-- error message: the next call with that execution id, whatever else it asks and whenever before a
-- cleanup it comes, starts nothing, changes nothing and throws that message again; only if the
-- message is the empty text it returns `undefined`, as if the plugin had succeeded.
pub replay_error :
    (opts : Options) (now later : ℕ) (h : Handler) (req again : Request) (message : String)
    → Inv h
    → lookup again.execution_id h.pending ≡ some (running, req)
    → let g = (step opts now h (answers again.execution_id (rejected_with message))).0 in
      step opts later g (calls again)
      ≡ (g, (if str_eq message "" then returns none else throws (recorded message)) ∷ [])
unfolding step continue execute finish replay
replay_error opts now later h req again message inv held =
    let (own, (entry, found, going)) = inv again.execution_id running req held in
    let self =
      lookup-insert_self again.execution_id (completed_entry none (some message) entry) h.journal in
    elim (Bool-cases (str_eq message "")) [
      | inl empty ↦ rw (held, own, found, self, empty) refl
      | inr filled ↦ rw (held, own, found, self, filled) refl
    ]

cleaned-All : (now : ℕ) (j : Journal) → All (λ x. is_expired now x.1 ≡ false) (cleanup now j)
unfolding cleanup
cleaned-All now [] = tt
cleaned-All now ((i, x) ∷ j) = elim (Bool-cases (is_expired now x)) [
  | inl old ↦ rw old (cleaned-All now j)
  | inr young ↦ rw young (young, cleaned-All now j)
]

-- A cleanup leaves no entry that is completed and older than five minutes, and each entry that a
-- call could find and that is not so stays as it is; an execution that is going on stays.
pub cleanup_lem :
    (now : ℕ) (j : Journal)
    → All (λ x. is_expired now x.1 ≡ false) (cleanup now j)
      × ((id : String) (e : JournalEntry)
          → lookup id j ≡ some e
          → is_expired now e ≡ false
          → lookup id (cleanup now j) ≡ some e)
      × ((e : JournalEntry) → e.status ≡ started → is_expired now e ≡ false)
cleanup_lem now j =
    (cleaned-All now j, λ id e. lookup-cleanup now id e j, not-expired_of_started now)
