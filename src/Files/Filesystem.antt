-- ===== src/Files/Filesystem.antt =====
-- packages/host-agent-fs/src/filesystem-handler.ts: the class `FilesystemHandler`, as what it asks
-- of the file system. The walk of `fetchWorkspace` below its root is left out.
use kb_labs_host_agent.Common.{
  ℕ, Bool, true, false, ◌≡◌, refl, ◌∙◌, String, Option, none, some, List, str_eq, if◌then◌else◌,
  All, Option-cases, inl, inr,
}
use kb_labs_host_agent.Common.Json.{Json}
use kb_labs_host_agent.Common.Text.{Text, codes}
use kb_labs_host_agent.Files.{validate_path, arg_string, path_text}
use kb_labs_host_agent.Files.Paths.{IsAllowed, validate_path_contains}
use kb_labs_host_agent.Files.Parts.{HasNoSep, IsPlain}

pub data Error : Type 0 where
  unknown_method : String → Error
  no_string : (index : ℕ) → Error
  access_denied : (path : String) → Error

-- An operation of the file system, on a path that has been checked.
pub data Operation : Type 0 where
  read_file read_dir stat : Text → Operation
  write_file : Text → String → Operation
  -- `stat`, whose failure is an answer.
  stat_exists : Text → Operation
  collect_files : (root : Text) → Operation

pub data Outcome : Type 0 where
  throws : Error → Outcome
  asks : Operation → Outcome
  answers_false : Outcome

module _ (cwd allowed_paths : List Text) where
  denied : Option Text → String → (Text → Outcome) → Outcome
  denied none path ask = throws (access_denied path)
  denied (some resolved) path ask = ask resolved

  on_path : String → (Text → Outcome) → Outcome
  unfolding denied
  on_path path ask = denied (validate_path cwd allowed_paths (codes path)) path ask

  exists_of : Option Text → Outcome
  exists_of none = answers_false
  exists_of (some resolved) = asks (stat_exists resolved)

  with_arg : Option String → ℕ → (String → Outcome) → Outcome
  with_arg none index ask = throws (no_string index)
  with_arg (some s) index ask = ask s

  read_file_method : List Json → Outcome
  unfolding with_arg on_path
  read_file_method args = with_arg (arg_string args 0) 0 (λ p. on_path p (λ r. asks (read_file r)))

  -- Both arguments are read before the path is checked.
  write_file_method : List Json → Outcome
  unfolding with_arg on_path
  write_file_method args = with_arg (arg_string args 0) 0 (λ p.
      with_arg (arg_string args 1) 1 (λ content. on_path p (λ r. asks (write_file r content))))

  list_dir : List Json → Outcome
  unfolding with_arg on_path
  list_dir args = with_arg (arg_string args 0) 0 (λ p. on_path p (λ r. asks (read_dir r)))

  stat_method : List Json → Outcome
  unfolding with_arg on_path
  stat_method args = with_arg (arg_string args 0) 0 (λ p. on_path p (λ r. asks (stat r)))

  -- A path that is not allowed does not exist.
  exists : List Json → Outcome
  unfolding with_arg exists_of
  exists args =
      with_arg (arg_string args 0) 0 (λ p. exists_of (validate_path cwd allowed_paths (codes p)))

  fetch_workspace : List Json → Outcome
  unfolding with_arg on_path
  fetch_workspace args =
      with_arg (arg_string args 0) 0 (λ p. on_path p (λ r. asks (collect_files r)))

  unfoldable pub handle : String → List Json → Outcome
  unfolding read_file_method write_file_method list_dir stat_method exists fetch_workspace
  handle method args =
      if str_eq method "readFile"
      then read_file_method args
      else if str_eq method "writeFile"
      then write_file_method args
      else if str_eq method "listDir"
      then list_dir args
      else if str_eq method "stat"
      then stat_method args
      else if str_eq method "exists"
      then exists args
      else if str_eq method "fetchWorkspace"
      then fetch_workspace args
      else throws (unknown_method method)

-- The path of an operation.
abbrev pub path_of : Operation → Text
path_of (read_file p) = p
path_of (read_dir p) = p
path_of (stat p) = p
path_of (write_file p content) = p
path_of (stat_exists p) = p
path_of (collect_files p) = p

-- An outcome that touches the file system only below the allowed paths.
unfoldable pub IsContained : List Text → List Text → Outcome → Type 0
IsContained cwd allowed (throws e) = Unit
IsContained cwd allowed answers_false = Unit
IsContained cwd allowed (asks op) =
    (ps : List Text) × (path_of op ≡ path_text ps) × All IsPlain ps × IsAllowed cwd allowed ps

module _ (cwd allowed : List Text) (c : All HasNoSep cwd) where
  on_path-IsContained :
      (path : String) (ask : Text → Outcome)
      → ((r : Text)
          → validate_path cwd allowed (codes path) ≡ some r
          → IsContained cwd allowed (ask r))
      → IsContained cwd allowed (on_path cwd allowed path ask)
  unfolding on_path denied IsContained
  on_path-IsContained path ask h = elim (Option-cases (validate_path cwd allowed (codes path))) [
    | inl no_path ↦ rw no_path tt
    | inr (r, ok) ↦ rw ok (h r ok)
  ]

  exists-IsContained :
      (path : String)
      → IsContained cwd allowed (exists_of cwd allowed (validate_path cwd allowed (codes path)))
  unfolding exists_of IsContained
  exists-IsContained path = elim (Option-cases (validate_path cwd allowed (codes path))) [
    | inl no_path ↦ rw no_path tt
    | inr (r, ok) ↦ rw ok (validate_path_contains cwd allowed (codes path) r c ok)
  ]

  with_arg-IsContained :
      (arg : Option String) (index : ℕ) (ask : String → Outcome)
      → ((s : String) → IsContained cwd allowed (ask s))
      → IsContained cwd allowed (with_arg cwd allowed arg index ask)
  unfolding with_arg IsContained
  with_arg-IsContained none index ask h = tt
  with_arg-IsContained (some s) index ask h = h s

  asked :
      (path : String) (op : Text → Operation)
      → ((r : Text) → path_of (op r) ≡ r)
      → IsContained cwd allowed (on_path cwd allowed path (λ r. asks (op r)))
  unfolding IsContained
  asked path op same =
      on_path-IsContained path (λ r. asks (op r))
        (λ r ok.
          let (ps, text, plain, below) = validate_path_contains cwd allowed (codes path) r c ok in
          (ps, same r ∙ text, plain, below))

  choice-IsContained :
      (b : Bool) (x y : Outcome)
      → IsContained cwd allowed x
      → IsContained cwd allowed y
      → IsContained cwd allowed (if b then x else y)
  choice-IsContained true x y h k = h
  choice-IsContained false x y h k = k

  -- Whatever method and arguments a call has, it either throws, or is told that the path does not
  -- exist, or the one operation that it asks of the file system is on a path without `.` and `..`
  -- whose parts are those of an allowed path with none or more behind them.
  pub handle-IsContained :
      (method : String) (args : List Json)
      → IsContained cwd allowed (handle cwd allowed method args)
  unfolding handle on_path exists_of IsContained
  handle-IsContained method args =
      let one : (op : Text → Operation)
          → ((r : Text) → path_of (op r) ≡ r)
          → IsContained cwd allowed (
              with_arg cwd allowed (arg_string args 0) 0
                (λ p. on_path cwd allowed p (λ r. asks (op r)))) =
        λ op same.
          with_arg-IsContained (arg_string args 0) 0 (λ p. on_path cwd allowed p (λ r. asks (op r)))
            (λ p. asked p op same) in
      choice-IsContained (str_eq method "readFile") (read_file_method cwd allowed args) _
        (one read_file (λ r. refl))
        (choice-IsContained (str_eq method "writeFile") (write_file_method cwd allowed args) _
          (with_arg-IsContained (arg_string args 0) 0 _ (λ p.
            with_arg-IsContained (arg_string args 1) 1 _
              (λ content. asked p (λ r. write_file r content) (λ r. refl))))
          (choice-IsContained (str_eq method "listDir") (list_dir cwd allowed args) _
            (one read_dir (λ r. refl))
            (choice-IsContained (str_eq method "stat") (stat_method cwd allowed args) _
              (one stat (λ r. refl))
              (choice-IsContained (str_eq method "exists") (exists cwd allowed args) _
                (with_arg-IsContained (arg_string args 0) 0 _ (λ p. exists-IsContained p))
                (choice-IsContained (str_eq method "fetchWorkspace")
                  (fetch_workspace cwd allowed args) _ (one collect_files (λ r. refl)) tt)))))
