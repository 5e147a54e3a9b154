-- ===== src/Execution/Subprocess.antt =====
-- apps/host-agent-app/src/handlers/execution-handler.ts: what is around `execute`: the dispatch of
-- `handle`, and `executeInSubprocess`, which bridges the plugin's process to the proxy platform by
-- a socket server. Its three awaits are `start` of the server, the run, and `close` in `finally`.
use kb_labs_host_agent.Common.{
  ℕ, ◌≡◌, refl, String, Option, none, some, List, [], ◌∷◌, ◌++◌, str_eq, if◌then◌else◌,
}
use kb_labs_host_agent.Common.Json.{Json}
use kb_labs_host_agent.Common.Text.{Text, codes}
use kb_labs_host_agent.Resolver.{Resolver, FileSystem, ManifestEntry, list_plugins}
use kb_labs_host_agent.Execution.{Request, Answer, resolved_with, rejected_with}

-- What a call of the capability does.
pub data Dispatched : Type 0 where
  executes : Request → Dispatched
  lists : List ManifestEntry → Dispatched
  throws_unknown_method : String → Dispatched
  -- The fields of `undefined`.
  throws_type_error : Dispatched

unfoldable pub execute_first : Option Request → Dispatched
execute_first none = throws_type_error
execute_first (some request) = executes request

-- `discover`.
unfoldable pub discover : FileSystem → (cwd allowed : List Text) → Resolver → Resolver × Dispatched
discover fs cwd allowed r = let (r', entries) = list_plugins fs cwd allowed r in (r', lists entries)

-- `handle`; `first` is `call.args[0]`.
unfoldable pub handle_call :
    FileSystem
    → (cwd allowed : List Text) → String
    → Option Request
    → Resolver
    → Resolver × Dispatched
unfolding execute_first discover
handle_call fs cwd allowed method first r =
    if str_eq method "execute"
    then (r, execute_first first)
    else if str_eq method "discover"
    then discover fs cwd allowed r
    else (r, throws_unknown_method method)

-- `join(tmpdir(), …)` of a directory without a separator at its end.
unfoldable pub socket_path : (tmp_dir uuid : Text) → Text
socket_path tmp_dir uuid = tmp_dir ++ (codes "/kb-ws-agent-" ++ (uuid ++ codes ".sock"))

-- How far `executeInSubprocess` has come; a run that is over holds its outcome while the server
-- closes.
pub data Phase : Type 0 where
  starting at_work : Phase
  closing ended : Answer → Phase

pub data Call : Type 0 where
  starts_server : Text → Call
  runs_subprocess : Text → (timeout_ms : ℕ) → Call
  closes_server : Call

unfoldable pub bridge_begin : Text → Phase × List Call
bridge_begin path = (starting, starts_server path ∷ [])

-- A promise that is awaited is settled. What `close` rejects with replaces the outcome of the run.
unfoldable pub bridge_next : Text → ℕ → Phase → Answer → Phase × List Call
bridge_next path ms starting (resolved_with v) = (at_work, runs_subprocess path ms ∷ [])
bridge_next path ms starting (rejected_with message) = (ended (rejected_with message), [])
bridge_next path ms at_work outcome = (closing outcome, closes_server ∷ [])
bridge_next path ms (closing outcome) (resolved_with v) = (ended outcome, [])
bridge_next path ms (closing outcome) (rejected_with message) = (ended (rejected_with message), [])
bridge_next path ms (ended outcome) answer = (ended outcome, [])

unfoldable pub bridge_run : Text → ℕ → Phase → List Answer → Phase × List Call
bridge_run path ms phase [] = (phase, [])
bridge_run path ms phase (a ∷ as_) =
    let (phase', made) = bridge_next path ms phase a in
    let (last, more) = bridge_run path ms phase' as_ in (last, made ++ more)

-- The outcome of the run and the settling of `close`, as what the caller awaits.
abbrev pub after_close : (outcome closed : Answer) → Answer
after_close outcome (resolved_with v) = outcome
after_close outcome (rejected_with message) = rejected_with message

-- A server that started is closed whatever the run gives, once and after it.
pub bridge_closes :
    (path : Text) (ms : ℕ) (v : Option Json) (outcome closed : Answer)
    → bridge_run path ms starting (resolved_with v ∷ outcome ∷ closed ∷ [])
      ≡ (ended (after_close outcome closed), runs_subprocess path ms ∷ closes_server ∷ [])
unfolding bridge_run bridge_next
bridge_closes path ms v outcome (resolved_with w) = refl
bridge_closes path ms v outcome (rejected_with message) = refl
