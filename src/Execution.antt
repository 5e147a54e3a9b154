-- ===== src/Execution.antt =====
-- apps/host-agent-app/src/handlers/execution-handler.ts: the class `ExecutionHandler`, with its
-- journal. A call of `execute` awaits the plugin resolver, the proxy platform and the plugin, so it
-- is a start and one step for each answer; calls interleave at the awaits. What the plugin runtime,
-- the resolver and the proxy platform answer are arguments.
pub mod Journal
pub mod Replay
pub mod Credit
pub mod Once
pub mod Stuck
pub mod Subprocess
pub mod Examples
use kb_labs_host_agent.Common.{
  ℕ, ◌+◌, ◌-◌, ◌*◌, String, Bool, true, false, not, ◌&&◌, ◌||◌, Option, none, some, List, [], ◌∷◌,
  ltb, str_eq, if◌then◌else◌,
}
use kb_labs_host_agent.Common.Dict.{lookup, insert, remove}
use kb_labs_host_agent.Common.Json.{Json, null}

pub data Mode : Type 0 where
  in_process subprocess : Mode

-- The permissions of a descriptor are not looked into, only whether they are given.
pub data Permissions : Type 0 where
  given : Json → Permissions
  -- `fs` read and write `.`, no network, no environment, `llm` and `cache`.
  defaulted : Permissions

pub record Request : Type 0 where
  pub execution_id : String
  pub plugin_id : String
  pub handler_ref : String
  pub export_name : Option String
  pub input : Json
  -- `none` is a missing descriptor, `some none` one without permissions.
  pub descriptor : Option (Option Permissions)
  pub timeout_ms : Option ℕ

pub data Status : Type 0 where
  started completed : Status

pub record JournalEntry : Type 0 where
  pub status : Status
  pub result : Option Json
  pub error : Option String
  pub started_at : ℕ

pub record Options : Type 0 where
  pub execution_mode : Mode
  pub timeout_ms : ℕ
  pub allowed_plugins : Option (List String)

abbrev pub journal_ttl_ms : ℕ
journal_ttl_ms = 5 * 60 * 1000

abbrev pub Journal : Type 0
Journal = List (String × JournalEntry)

-- How far a call of `execute` has come.
pub data Stage : Type 0 where
  resolving resolved running : Stage

pub record Handler : Type 0 where
  pub journal : Journal
  -- The calls that await an answer, with their requests.
  pub pending : List (String × (Stage × Request))

pub data Error : Type 0 where
  recorded thrown : String → Error
  in_progress not_allowed : String → Error

-- What a call does outside, in order; a call ends with `returns` or `throws`.
pub data Action : Type 0 where
  resolve_plugin : (plugin_id handler_ref : String) → Action
  create_platform : Action
  set_timeout : ℕ → Action
  run_in_process run_in_subprocess : Request → Action
  clear_timeout : Action
  returns : Option Json → Action
  throws : Error → Action

-- A text is true as a condition if it is not empty.
abbrev pub is_truthy : Option String → Bool
is_truthy none = false
is_truthy (some s) = not (str_eq s "")

pub includes : List String → String → Bool
includes [] p = false
includes (q ∷ qs) p = str_eq q p || includes qs p

-- `!this.opts.allowedPlugins || length === 0 || includes(pluginId)`.
unfoldable pub is_plugin_allowed : Option (List String) → String → Bool
is_plugin_allowed none p = true
is_plugin_allowed (some []) p = true
is_plugin_allowed (some (q ∷ qs)) p = includes (q ∷ qs) p

-- The permissions that step 3 fills in.
unfoldable pub with_permissions : Option (Option Permissions) → Option (Option Permissions)
with_permissions none = none
with_permissions (some none) = some (some defaulted)
with_permissions (some (some p)) = some (some p)

or_text : Option String → String
or_text none = ""
or_text (some s) = s

-- The answer from the journal to an execution that it knows.
replay_status : Status → String → JournalEntry → Action
unfolding or_text
replay_status completed id entry =
    if is_truthy entry.error then throws (recorded (or_text entry.error)) else returns entry.result
replay_status started id entry = throws (in_progress id)

unfoldable pub replay : String → JournalEntry → Action
unfolding replay_status
replay id entry = replay_status entry.status id entry

abbrev pub fresh_entry : ℕ → JournalEntry
fresh_entry now = record { status = started; result = none; error = none; started_at = now }

-- A call for an execution that the journal does not know: the entry, the allowlist, the defaults,
-- and on to the plugin resolver.
unfoldable pub begin : Options → ℕ → Request → Handler → Handler × List Action
begin opts now req h =
    let id = req.execution_id in
    let entered : Journal = insert id (fresh_entry now) h.journal in
    if is_plugin_allowed opts.allowed_plugins req.plugin_id
    then (
      record {
        journal = entered;
        pending =
            insert id (resolving, record req { descriptor = with_permissions req.descriptor })
              h.pending;
      },
      resolve_plugin req.plugin_id req.handler_ref ∷ [],
    )
    else (record h { journal = remove id entered }, throws (not_allowed req.plugin_id) ∷ [])

unfoldable pub execute_known :
    Option JournalEntry → Options → ℕ → Request → Handler → Handler × List Action
execute_known (some entry) opts now req h = (h, replay req.execution_id entry ∷ [])
execute_known none opts now req h = begin opts now req h

-- `execute` up to its first `await`.
unfoldable pub execute : Options → ℕ → Request → Handler → Handler × List Action
unfolding execute_known
execute opts now req h = execute_known (lookup req.execution_id h.journal) opts now req h

-- An awaited promise: resolved with a value where one is used, or rejected with a message.
pub data Answer : Type 0 where
  resolved_with : Option Json → Answer
  rejected_with : String → Answer

unfoldable pub timeout_of : Options → Request → ℕ
timeout_of opts req = elim req.timeout_ms [ none ↦ opts.timeout_ms | some ms ↦ ms ]

unfoldable pub runs : Mode → Request → Action
runs in_process req = run_in_process req
runs subprocess req = run_in_subprocess req

-- `this.journal.get(executionId)!.startedAt` throws where the entry is gone.
unfoldable pub completed_entry : Option Json → Option String → JournalEntry → JournalEntry
completed_entry result error entry = record {
  status = completed;
  result = result;
  error = error;
  started_at = entry.started_at;
}

-- Step 8: the journal takes the outcome, and the timeout is cleared.
unfoldable pub record_outcome :
    Option JournalEntry
    → String
    → Option Json
    → Option String
    → Action
    → Handler
    → Handler × List Action
unfolding completed_entry
record_outcome (some entry) id result error last h = (
  record {
    journal = insert id (completed_entry result error entry) h.journal;
    pending = remove id h.pending;
  },
  clear_timeout ∷ last ∷ [],
)
record_outcome none id result error last h = (
  record h { pending = remove id h.pending },
  clear_timeout ∷ throws (thrown "startedAt of undefined") ∷ [],
)

-- The plugin's promise resolves with `v`, or rejects.
unfoldable pub finish : String → Answer → Handler → Handler × List Action
unfolding record_outcome
finish id (resolved_with v) h = record_outcome (lookup id h.journal) id v none (returns v) h
finish id (rejected_with message) h =
    record_outcome (lookup id h.journal) id none (some message) (throws (thrown message)) h

-- One of the calls that await gets its answer. A rejection before the `try` leaves the call, and
-- the journal as it is.
unfoldable pub advance : Options → Stage → Request → Answer → Handler → Handler × List Action
unfolding finish timeout_of runs
advance opts resolving req (resolved_with v) h =
    (record h { pending = insert req.execution_id (resolved, req) h.pending }, create_platform ∷ [])
advance opts resolved req (resolved_with v) h = (
  record h { pending = insert req.execution_id (running, req) h.pending },
  set_timeout (timeout_of opts req) ∷ runs opts.execution_mode req ∷ [],
)
advance opts running req answer h = finish req.execution_id answer h
advance opts _ req (rejected_with message) h =
    (record h { pending = remove req.execution_id h.pending }, throws (thrown message) ∷ [])

unfoldable pub answer_pending :
    Option (Stage × Request) → Options → Answer → Handler → Handler × List Action
unfolding advance
answer_pending none opts answer h = (h, [])
answer_pending (some (stage, req)) opts answer h = advance opts stage req answer h

unfoldable pub continue : Options → String → Answer → Handler → Handler × List Action
unfolding answer_pending
continue opts id answer h = answer_pending (lookup id h.pending) opts answer h

is_expired_status : Status → ℕ → ℕ → Bool
is_expired_status completed now at = ltb (at + journal_ttl_ms) now
is_expired_status started now at = false

-- `entry.status === 'completed' && now - entry.startedAt > JOURNAL_TTL_MS`.
unfoldable pub is_expired : ℕ → JournalEntry → Bool
unfolding is_expired_status
is_expired now entry = is_expired_status entry.status now entry.started_at

unfoldable pub cleanup : ℕ → Journal → Journal
cleanup now [] = []
cleanup now ((id, entry) ∷ rest) =
    if is_expired now entry then cleanup now rest else (id, entry) ∷ cleanup now rest

unfoldable pub cleanup_journal : ℕ → Handler → Handler
cleanup_journal now h = record h { journal = cleanup now h.journal }

pub data Event : Type 0 where
  calls : Request → Event
  answers : String → Answer → Event
  cleans : Event

unfoldable pub step : Options → ℕ → Handler → Event → Handler × List Action
step opts now h (calls req) = execute opts now req h
step opts now h (answers id answer) = continue opts id answer h
step opts now h cleans = (cleanup_journal now h, [])

abbrev pub initial : Handler
initial = record { journal = []; pending = [] }
