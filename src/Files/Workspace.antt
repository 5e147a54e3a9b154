-- ===== src/Files/Workspace.antt =====
-- packages/host-agent-fs/src/filesystem-handler.ts: `fetchWorkspace` with its walk `collectFiles`.
-- What the file system answers is a record; a path is the list of its parts. The source sets no
-- bound on the depth of the walk: it is the fuel here, and Files/Workspace/Walk says how much is
-- enough.
pub mod Walk
pub mod Found
pub mod Fetched
pub mod Examples
use kb_labs_host_agent.Common.{
  ℕ, zero, suc, ◌*◌, Bool, true, false, ◌&&◌, ◌||◌, Option, none, some, List, [], ◌∷◌, ◌++◌, ltb,
  if◌then◌else◌, map,
}
use kb_labs_host_agent.Common.Text.{Text, codes, starts_with}
use kb_labs_host_agent.Files.{sep, up, text_eq, parts, enter_all, reversed}

pub record WorkspaceFile : Type 0 where
  pub path : Text
  pub content : Text

pub record Stat : Type 0 where
  pub is_directory : Bool
  pub is_file : Bool
  pub size : ℕ

-- `readdir`, `stat` and `readFile` as UTF-8; `none` where they reject.
pub record Disk : Type 0 where
  pub read_dir : List Text → Option (List Text)
  pub stat : List Text → Option Stat
  pub read_file : List Text → Option Text

abbrev pub fetch_exclude : List Text
fetch_exclude =
    codes "node_modules"
    ∷ codes ".git"
    ∷ codes "dist"
    ∷ codes ".kb/cache"
    ∷ codes ".kb/runtime"
    ∷ codes ".kb/logs"
    ∷ []

abbrev pub max_file_size : ℕ
max_file_size = 5 * 1024 * 1024

-- `join(dir, entry)` for an absolute `dir`.
unfoldable pub join : List Text → Text → List Text
join dir entry = reversed (enter_all true (reversed dir []) (parts entry)) []

-- `relative(from, to)` for absolute paths: up from where they part, and down again.
unfoldable pub relative : List Text → List Text → List Text
relative [] to = to
relative (p ∷ from) [] = map (λ _. up) (p ∷ from)
relative (p ∷ from) (q ∷ to) =
    if text_eq p q then relative from to else map (λ _. up) (p ∷ from) ++ (q ∷ to)

-- The text of a relative path.
unfoldable pub relative_text : List Text → Text
relative_text [] = []
relative_text (p ∷ []) = p
relative_text (p ∷ q ∷ ps) = p ++ (sep ∷ relative_text (q ∷ ps))

-- The test on each entry of a directory, for one excluded pattern and for a list of them.
unfoldable pub hits : (ex rel_path entry : Text) → Bool
hits ex rel_path entry =
    text_eq rel_path ex || starts_with (ex ++ (sep ∷ [])) rel_path || text_eq entry ex

unfoldable pub is_excluded : List Text → (rel_path entry : Text) → Bool
is_excluded [] rel_path entry = false
is_excluded (ex ∷ more) rel_path entry = hits ex rel_path entry || is_excluded more rel_path entry

module _ (disk : Disk) (root : List Text) where
  -- A file that cannot be read is left out.
  unfoldable pub pushed : Option Text → Text → List WorkspaceFile → List WorkspaceFile
  pushed none rel_path out = out
  pushed (some content) rel_path out = out ++ (record { path = rel_path; content = content } ∷ [])

  -- The walk of a directory, for those below, is the argument `walk`.
  unfoldable pub visit :
      (walk : List Text → List WorkspaceFile → Option (List WorkspaceFile))
      → Option Stat
      → List Text
      → Text
      → List WorkspaceFile
      → Option (List WorkspaceFile)
  visit walk none full_path rel_path out = some out
  visit walk (some s) full_path rel_path out =
      if s.is_directory
      then walk full_path out
      else if s.is_file && ltb s.size max_file_size
      then some (pushed (disk.read_file full_path) rel_path out)
      else some out

  unfoldable pub collect_entry :
      (walk : List Text → List WorkspaceFile → Option (List WorkspaceFile))
      → List Text
      → Text
      → List WorkspaceFile
      → Option (List WorkspaceFile)
  collect_entry walk dir entry out =
      let full_path = join dir entry in
      let rel_path = relative_text (relative root full_path) in
      if is_excluded fetch_exclude rel_path entry
      then some out
      else visit walk (disk.stat full_path) full_path rel_path out

  unfoldable pub then_entries :
      Option (List WorkspaceFile)
      → (List WorkspaceFile → Option (List WorkspaceFile))
      → Option (List WorkspaceFile)
  then_entries none rest = none
  then_entries (some out) rest = rest out

  unfoldable pub collect_entries :
      (walk : List Text → List WorkspaceFile → Option (List WorkspaceFile))
      → List Text
      → List Text
      → List WorkspaceFile
      → Option (List WorkspaceFile)
  collect_entries walk dir [] out = some out
  collect_entries walk dir (entry ∷ entries) out =
      then_entries (collect_entry walk dir entry out)
        (λ more. collect_entries walk dir entries more)

  -- A directory that cannot be read is left out.
  unfoldable pub collect_dir :
      (walk : List Text → List WorkspaceFile → Option (List WorkspaceFile))
      → Option (List Text)
      → List Text
      → List WorkspaceFile
      → Option (List WorkspaceFile)
  collect_dir walk none dir out = some out
  collect_dir walk (some entries) dir out = collect_entries walk dir entries out

  -- `collectFiles`: `none` where the fuel runs out.
  unfoldable pub collect_files : ℕ → List Text → List WorkspaceFile → Option (List WorkspaceFile)
  collect_files zero dir out = none
  collect_files (suc fuel) dir out = collect_dir (collect_files fuel) (disk.read_dir dir) dir out

  -- `fetchWorkspace` behind its path check.
  unfoldable pub fetch_files : ℕ → Option (List WorkspaceFile)
  fetch_files fuel = collect_files fuel root []
