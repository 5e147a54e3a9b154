-- ===== src/Files/Shell.antt =====
-- packages/host-agent-fs/src/shell-handler.ts: the class `ShellHandler`, as what it runs. Whether a
-- blocked pattern matches is an argument, and so is what `execSync` makes of a command.
pub mod Blocked
use mathlib.Core.List.{Memᴰ}
use mathlib.Core.Bool.{false≢true}
use kb_labs_host_agent.Common.{
  ℕ, ◌*◌, Bool, false, ◌≡◌, refl, ap, sym, subst, append-nil, ◌∙◌, String, Option, none, some, List,
  [], ◌∷◌, str_eq, if◌then◌else◌, All, Option-cases, Bool-cases, inl, inr, append-nil, subst, ◌≤◌,
  arith,
}
use kb_labs_host_agent.Common.Dict.{lookup, insert, count, lookup-insert, lookup-eq-none_of_count}
use kb_labs_host_agent.Common.Json.{Json}
use kb_labs_host_agent.Common.Text.{Text, codes}
use kb_labs_host_agent.Files.{validate_path, arg_string, path_text, resolve}
use kb_labs_host_agent.Files.Shell.Blocked.{is_blocked, Pattern, blocked_commands}
use kb_labs_host_agent.Files.Shell.Blocked.Occurs.{Occurs, is_blocked_iff}
use kb_labs_host_agent.Files.Paths.{IsAllowed, validate_path_contains}
use kb_labs_host_agent.Files.Parts.{HasNoSep, IsPlain, resolve-IsPlain}

pub record ShellResult : Type 0 where
  pub stdout : String
  pub stderr : String
  pub exit_code : ℕ

pub record ShellOptions : Type 0 where
  pub cwd : Option String
  pub timeout_ms : Option ℕ
  pub env : Option (List (String × String))

abbrev pub default_timeout_ms : ℕ
default_timeout_ms = 30_000

abbrev pub max_buffer : ℕ
max_buffer = 10 * 1024 * 1024

pub data Error : Type 0 where
  unknown_method blocked access_denied : String → Error
  no_string : (index : ℕ) → Error

-- A command for `execSync`.
pub record Run : Type 0 where
  pub command : String
  pub cwd : Text
  pub timeout : ℕ
  pub env : Option (List (String × String))

pub data Outcome : Type 0 where
  throws : Error → Outcome
  runs : Run → Outcome

-- What `execSync` throws: the fields that are there.
pub record ExecError : Type 0 where
  pub stdout : Option String
  pub stderr : Option String
  pub message : Option String
  pub status : Option ℕ

abbrev or_default {ℓ} : {A : Type ℓ} → Option A → A → A
or_default none d = d
or_default (some a) d = a

-- `{ ...process.env, ...options.env }`.
unfoldable pub merged_env : List (String × String) → List (String × String) → List (String × String)
merged_env env [] = env
merged_env env ((key, value) ∷ given) = merged_env (insert key value env) given

-- The `env` of `execSync`: none leaves the command with the environment of the process.
unfoldable pub run_env :
    (process_env : List (String × String))
    → Option (List (String × String))
    → Option (List (String × String))
run_env process_env none = none
run_env process_env (some given) = some (merged_env process_env given)

-- The result of a command that `execSync` returned from, or threw for.
unfoldable pub result_of_stdout : String → ShellResult
result_of_stdout out = record { stdout = out; stderr = ""; exit_code = 0 }

unfoldable pub result_of_error : ExecError → ShellResult
result_of_error e = record {
  stdout = or_default e.stdout "";
  stderr = or_default e.stderr (or_default e.message "");
  exit_code = or_default e.status 1;
}

module _ (process_cwd allowed_paths : List Text) where
  -- `none` where the path is not allowed. An empty `cwd` is none.
  given_cwd : String → Option Text
  given_cwd path = validate_path process_cwd allowed_paths (codes path)

  -- Without a `cwd`: the first allowed path, if it is there and not empty.
  unfoldable pub default_cwd : List Text → Text
  default_cwd [] = path_text process_cwd
  default_cwd ([] ∷ ps) = path_text process_cwd
  default_cwd ((c ∷ p) ∷ ps) = path_text (resolve process_cwd (c ∷ p))

  unfoldable pub cwd_of : Option String → Option Text
  unfolding given_cwd
  cwd_of none = some (default_cwd allowed_paths)
  cwd_of (some path) = if str_eq path "" then some (default_cwd allowed_paths) else given_cwd path

  run_in : Option Text → String → ShellOptions → Outcome
  run_in none command options = throws (access_denied (or_default options.cwd ""))
  run_in (some cwd) command options = runs (record {
    command = command;
    cwd = cwd;
    timeout = or_default options.timeout_ms default_timeout_ms;
    env = options.env;
  })

  unfoldable pub exec : String → ShellOptions → Outcome
  unfolding run_in
  exec command options =
      if is_blocked (codes command)
      then throws (blocked command)
      else run_in (cwd_of options.cwd) command options

  exec_arg : Option String → ShellOptions → Outcome
  exec_arg none options = throws (no_string 0)
  exec_arg (some command) options = exec command options

  unfoldable pub handle : String → List Json → ShellOptions → Outcome
  unfolding exec_arg
  handle method args options =
      if str_eq method "exec"
      then exec_arg (arg_string args 0) options
      else throws (unknown_method method)

-- A variable has the value that the caller gives, once, and otherwise that of the process.
pub lookup-merged_env :
    (key : String) (env given : List (String × String))
    → count key given ≤ 1
    → lookup key (merged_env env given)
      ≡ elim (lookup key given) [ none ↦ lookup key env | some value ↦ some value ]
unfolding merged_env lookup count
lookup-merged_env key env [] once = refl
lookup-merged_env key env ((name, value) ∷ given) once =
    let rest = lookup-merged_env key (insert name value env) given (ground arith) in
    let here = lookup-insert name key value env in
    elim (Bool-cases (str_eq name key)) [
      | inl same ↦
          let gone = lookup-eq-none_of_count key given (ground arith) in
          rw same ((rw gone at rest) ∙ here ∙ rw same refl)
      | inr other ↦
          let under = here ∙ rw other refl in
          rw other
            (rest ∙ ap (λ o. elim (lookup key given) [ none ↦ o | some own ↦ some own ]) under)
    ]

-- A directory that is one of the allowed paths, or below one.
abbrev pub IsInside : List Text → List Text → Text → Type 0
IsInside cwd allowed dir =
    (ps : List Text) × (dir ≡ path_text ps) × All IsPlain ps × IsAllowed cwd allowed ps

module _ (process_cwd : List Text) (first : ℕ) (path : Text) (others : List Text) where
  abbrev allowed : List Text
  allowed = (first ∷ path) ∷ others

  default-IsInside :
      All HasNoSep process_cwd
      → IsInside process_cwd allowed (default_cwd process_cwd allowed allowed)
  unfolding default_cwd IsAllowed
  default-IsInside c =
      let ps = resolve process_cwd (first ∷ path) in
      (ps, refl, resolve-IsPlain process_cwd (first ∷ path) c, inl ([], sym (append-nil ps)))

  cwd_of-IsInside :
      (given : Option String) (dir : Text)
      → All HasNoSep process_cwd
      → cwd_of process_cwd allowed given ≡ some dir
      → IsInside process_cwd allowed dir
  unfolding cwd_of given_cwd
  cwd_of-IsInside none dir c e =
      let same : default_cwd process_cwd allowed allowed ≡ dir = cc in
      subst (IsInside process_cwd allowed) same (default-IsInside c)
  cwd_of-IsInside (some p) dir c e = elim (Bool-cases (str_eq p "")) [
    | inl empty ↦
        let at : cwd_of process_cwd allowed (some p)
            ≡ some (default_cwd process_cwd allowed allowed) =
          rw empty refl in
        let same : default_cwd process_cwd allowed allowed ≡ dir = cc in
        subst (IsInside process_cwd allowed) same (default-IsInside c)
    | inr full ↦
        let at : cwd_of process_cwd allowed (some p) ≡ validate_path process_cwd allowed (codes p) =
          rw full refl in
        validate_path_contains process_cwd allowed (codes p) dir c (sym at ∙ e)
  ]

  -- With an allowed path that is not empty in front, every command that runs does so in an allowed
  -- directory or below one, whatever directory the caller names, and none of the blocked expressions
  -- occurs in it.
  pub exec_contained :
      (command : String) (options : ShellOptions) (r : Run)
      → All HasNoSep process_cwd
      → exec process_cwd allowed command options ≡ runs r
      → (r.command ≡ command)
        × ((p : Pattern) → Memᴰ p blocked_commands → ¬ Occurs p (codes command))
        × IsInside process_cwd allowed r.cwd
  unfolding exec run_in
  exec_contained command options r c e = elim (Bool-cases (is_blocked (codes command))) [
    | inl bad ↦
        let thrown : exec process_cwd allowed command options ≡ throws (blocked command) =
          rw bad refl in
        cc
    | inr fine ↦ elim (Option-cases (cwd_of process_cwd allowed options.cwd)) [
      | inl no_dir ↦
          let thrown : exec process_cwd allowed command options
              ≡ throws (access_denied (or_default options.cwd "")) =
            rw (fine, no_dir) refl in
          cc
      | inr (dir, found) ↦
          let ran : Run = record {
            command = command;
            cwd = dir;
            timeout = or_default options.timeout_ms default_timeout_ms;
            env = options.env;
          } in
          let at : exec process_cwd allowed command options ≡ runs ran = rw (fine, found) refl in
          let same : ran ≡ r = cc in
          (
            sym (ap (λ x. x.command) same),
            λ p m o. false≢true (sym fine ∙ (is_blocked_iff (codes command)).1 (p, m, o)),
            subst (IsInside process_cwd allowed) (ap (λ x. x.cwd) same)
                (cwd_of-IsInside options.cwd dir c found),
          )
    ]
  ]

  -- The same of `handle`: a call that runs a command runs its first argument.
  pub handle_contained :
      (method : String) (args : List Json) (options : ShellOptions) (r : Run)
      → All HasNoSep process_cwd
      → handle process_cwd allowed method args options ≡ runs r
      → (arg_string args 0 ≡ some r.command)
        × ((p : Pattern) → Memᴰ p blocked_commands → ¬ Occurs p (codes r.command))
        × IsInside process_cwd allowed r.cwd
  unfolding handle exec_arg
  handle_contained method args options r c e = elim (Bool-cases (str_eq method "exec")) [
    | inr unknown ↦ let bad = rw unknown at e in cc
    | inl known ↦ elim (Option-cases (arg_string args 0)) [
      | inl missing ↦ let bad = rw (known, missing) at e in cc
      | inr (command, given) ↦
          let ran = rw (known, given) at e in
          let (same, fine, inside) = exec_contained command options r c ran in
          (
            given ∙ ap some (sym same),
            subst (λ x. (p : Pattern) → Memᴰ p blocked_commands → ¬ Occurs p (codes x)) (sym same)
                fine,
            inside,
          )
    ]
  ]
