-- ===== src/Daemon/Calls.antt =====
-- What the calls of the gateway make the daemon do: the handlers that `startDaemon`
-- (apps/host-agent-app/src/daemon.ts) makes, with the paths of its configuration.
use mathlib.Core.List.{Memᴰ}
use kb_labs_host_agent.Files.Parts.{HasNoSep}
use kb_labs_host_agent.Token.{Result, TokenPair}
use kb_labs_host_agent.Common.{
  ℕ, zero, suc, Bool, String, Option, List, map, ◌≡◌, All, refl, ◌∷◌, subst, sym, ap, ◌∙◌, some, [],
}
use kb_labs_host_agent.Common.Json.{Json, str, get}
use kb_labs_host_agent.Common.Text.{Text, codes}
use kb_labs_host_agent.Execution.{Request}
use kb_labs_host_agent.Execution.Subprocess.{Dispatched, handle_call}
use kb_labs_host_agent.Files.Filesystem
use kb_labs_host_agent.Files.Filesystem.{IsContained, handle-IsContained}
use kb_labs_host_agent.Files.Search.Grep
use kb_labs_host_agent.Files.Search.Grep.{GrepOptions, GlobOptions}
use kb_labs_host_agent.Files.Search.Grep.Calls.{IsConfined, AreSafe, search_contained}
use kb_labs_host_agent.Files.Shell
use kb_labs_host_agent.Files.Shell.{ShellOptions, IsInside, handle_contained}
use kb_labs_host_agent.Files.Shell.Blocked.{Pattern, blocked_commands}
use kb_labs_host_agent.Files.Shell.Blocked.Occurs.{Occurs}
use kb_labs_host_agent.Resolver.{Resolver, FileSystem}
use kb_labs_host_agent.Daemon.Config.{AgentConfig}
use kb_labs_host_agent.Daemon.Handlers.{place, answer_to, IsCalm, daemon_serves}
use kb_labs_host_agent.Daemon.{DaemonEvent, created, run, start_daemon}
use kb_labs_host_agent.Gateway.State.{invoke}
use kb_labs_host_agent.Gateway.Methods.{on_message}
use kb_labs_host_agent.Gateway.Frames.{HasType}

-- What a handler makes of a call.
pub data Reached : Type 0 where
  file_call : Filesystem.Outcome → Reached
  search_call : Grep.Call → Reached
  shell_call : Shell.Outcome → Reached
  execution_call : Resolver → Dispatched → Reached

-- A call as the handlers read it: its arguments, which are also taken as options or as a request.
pub record HandlerCall : Type 0 where
  pub method : String
  pub args : List Json
  pub grep_options : GrepOptions
  pub glob_options : GlobOptions
  pub shell_options : ShellOptions
  pub request : Option Request

unfoldable pub allowed_paths : AgentConfig → List Text
allowed_paths config = map codes config.workspace_paths

module _ (config : AgentConfig) (cwd : List Text) (has_ripgrep : Bool) (fs : FileSystem)
    (plugins : Resolver) where
  reached_execution : Resolver × Dispatched → Reached
  reached_execution (r, d) = execution_call r d

  -- The handlers by their places.
  unfoldable pub reached : (handler : ℕ) → HandlerCall → Reached
  unfolding reached_execution
  reached zero call = file_call (Filesystem.handle cwd (allowed_paths config) call.method call.args)
  reached (suc zero) call = search_call (
      Grep.handle cwd (allowed_paths config) has_ripgrep call.method call.args call.grep_options
        call.glob_options)
  reached (suc (suc zero)) call =
      shell_call (Shell.handle cwd (allowed_paths config) call.method call.args call.shell_options)
  reached (suc (suc (suc n))) call =
      reached_execution (handle_call fs cwd (allowed_paths config) call.method call.request plugins)

-- A command of the shell that runs in an allowed directory and has no blocked expression.
abbrev pub IsTame : List Text → List Text → Shell.Run → Type 0
IsTame cwd allowed r =
    ((p : Pattern) → Memᴰ p blocked_commands → ¬ Occurs p (codes r.command))
    × IsInside cwd allowed r.cwd

-- What touches files or runs commands does so in the allowed paths.
unfoldable pub StaysIn : Bool → List Text → List Text → HandlerCall → Reached → Type 0
StaysIn rg cwd allowed call (file_call outcome) = IsContained cwd allowed outcome
StaysIn rg cwd allowed call (search_call (Grep.throws e)) = Unit
StaysIn rg cwd allowed call (search_call (Grep.runs command)) =
    IsConfined cwd allowed rg call.method call.args call.grep_options call.glob_options command
StaysIn rg cwd allowed call (shell_call (Shell.throws e)) = Unit
StaysIn rg cwd allowed call (shell_call (Shell.runs r)) = IsTame cwd allowed r
StaysIn rg cwd allowed call (execution_call r d) = Unit

searched-StaysIn :
    (rg : Bool) (cwd allowed : List Text) (call : HandlerCall) (outcome : Grep.Call)
    → ((command : Text)
        → outcome ≡ Grep.runs command
        → IsConfined cwd allowed rg call.method call.args call.grep_options call.glob_options
            command)
    → StaysIn rg cwd allowed call (search_call outcome)
unfolding StaysIn
searched-StaysIn rg cwd allowed call (Grep.throws e) h = tt
searched-StaysIn rg cwd allowed call (Grep.runs command) h = h command refl

shell-StaysIn :
    (rg : Bool) (cwd allowed : List Text) (call : HandlerCall) (outcome : Shell.Outcome)
    → ((r : Shell.Run) → outcome ≡ Shell.runs r → IsTame cwd allowed r)
    → StaysIn rg cwd allowed call (shell_call outcome)
unfolding StaysIn
shell-StaysIn rg cwd allowed call (Shell.throws e) h = tt
shell-StaysIn rg cwd allowed call (Shell.runs r) h = h r refl

shell-IsTame :
    (cwd allowed : List Text) (first : ℕ) (path : Text) (others : List Text) (call : HandlerCall)
    (r : Shell.Run)
    → All HasNoSep cwd
    → allowed ≡ (first ∷ path) ∷ others
    → Shell.handle cwd allowed call.method call.args call.shell_options ≡ Shell.runs r
    → IsTame cwd allowed r
shell-IsTame cwd allowed first path others call r c full e =
    let ran =
      subst (λ a. Shell.handle cwd a call.method call.args call.shell_options ≡ Shell.runs r) full
        e in
    let (given, fine, inside) =
      handle_contained cwd first path others call.method call.args call.shell_options r c ran in
    (fine, subst (λ a. IsInside cwd a r.cwd) (sym full) inside)

reached-StaysIn :
    (config : AgentConfig) (cwd : List Text) (rg : Bool) (fs : FileSystem) (plugins : Resolver)
    (first : ℕ) (path : Text) (others : List Text) (call : HandlerCall) (handler : ℕ)
    → All HasNoSep cwd
    → allowed_paths config ≡ (first ∷ path) ∷ others
    → AreSafe call.grep_options call.glob_options
    → StaysIn rg cwd (allowed_paths config) call (reached config cwd rg fs plugins handler call)
unfolding reached reached_execution
reached-StaysIn config cwd rg fs plugins first path others call zero c full safe =
    unfold StaysIn in (handle-IsContained cwd (allowed_paths config) c call.method call.args)
reached-StaysIn config cwd rg fs plugins first path others call (suc zero) c full safe =
    searched-StaysIn rg cwd (allowed_paths config) call _ (λ command e.
      search_contained cwd (allowed_paths config) rg c call.method call.args call.grep_options
        call.glob_options command safe e)
reached-StaysIn config cwd rg fs plugins first path others call (suc (suc zero)) c full safe =
    shell-StaysIn rg cwd (allowed_paths config) call _
      (λ r e. shell-IsTame cwd (allowed_paths config) first path others call r c full e)
reached-StaysIn config cwd rg fs plugins first path others call (suc (suc (suc n))) c full safe =
    unfold StaysIn in tt

-- However the daemon starts and whatever events come after it, in any order, a `call` frame that one
-- of its handlers serves is given to that handler and to nothing else, with no change of the
-- client; and whatever its method and its arguments are, what the handler then asks of the file
-- system is on a path in the workspace paths of the configuration; a command of a search is read
-- by a POSIX shell as one `rg`, `grep` or `find` for the pattern and in the directory of the call,
-- which is in one of those paths, with the flags of the options and with nothing else but, behind
-- a `find`, a pipe into `head`; and a command of the shell runs in one of those paths and has no
-- blocked expression in it. It is required of the options of a search, which the code does not
-- check, that the texts to exclude are made of letters, digits and the signs `-_./=!`, that the
-- texts to include have no quote in them, and that the counts are natural numbers: with other
-- options a search can run anything. The first workspace path is not the empty text. What a plugin
-- does is left open, and so is what a command of the shell does in its directory.
pub calls_confined :
    (config : AgentConfig) (explicit : Bool) (cwd : List Text) (rg : Bool) (fs : FileSystem)
    (plugins : Resolver) (now : ℕ) (answer : Result TokenPair) (es : List (ℕ × DaemonEvent))
    (msg : Json) (adapter : String) (handler : ℕ) (first : ℕ) (path : Text) (others : List Text)
    (call : HandlerCall)
    → All (λ x. IsCalm x.1) es
    → HasType msg "call"
    → get msg "adapter" ≡ some (str adapter)
    → place adapter ≡ some handler
    → All HasNoSep cwd
    → allowed_paths config ≡ (first ∷ path) ∷ others
    → AreSafe call.grep_options call.glob_options
    → let c = (run config explicit es (start_daemon config explicit now answer created).0).client in
      (on_message (some msg) c ≡ (c, invoke handler msg ∷ []))
      × StaysIn rg cwd (allowed_paths config) call (reached config cwd rg fs plugins handler call)
calls_confined config explicit cwd rg fs plugins now answer es msg adapter handler first path others
      call calm typed named at plain full safe =
    let c = (run config explicit es (start_daemon config explicit now answer created).0).client in
    (
      daemon_serves config explicit now answer es msg adapter calm typed named
          ∙ ap (λ o. (c, answer_to o adapter msg c)) at,
      reached-StaysIn config cwd rg fs plugins first path others call handler plain full safe,
    )
