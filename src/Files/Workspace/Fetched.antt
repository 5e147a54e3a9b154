-- ===== src/Files/Workspace/Fetched.antt =====
-- What `fetchWorkspace` returns, and where its files lie.
use mathlib.Core.List.{Memᴰ}
use mathlib.Core.List.Memᴰ
use kb_labs_host_agent.Common.{
  ℕ, ◌≤◌, ◌<◌, false, ◌≡◌, ap, ◌∙◌, none, some, List, [], ◌∷◌, ◌++◌, append_assoc, All, arith,
  length, ◌↔◌, inl, inr,
}
use kb_labs_host_agent.Common.Text.{Text, starts_with}
use kb_labs_host_agent.Files.{sep, resolve, path_text, validate_path}
use kb_labs_host_agent.Files.Parts.{HasNoSep}
use kb_labs_host_agent.Files.Paths.{IsAllowed, validate_path_contains}
use kb_labs_host_agent.Files.Workspace.{
  Disk, WorkspaceFile, fetch_exclude, relative_text, fetch_files,
}
use kb_labs_host_agent.Files.Workspace.Found.{Found, HasNames, root-Lies, Avoids}
use kb_labs_host_agent.Files.Workspace.Walk.{files-Collects}

-- The fetch of a workspace ends, with fuel for more levels than a path has parts, and what it
-- returns are the files of the workspace and no others: those that a way of entries that are not
-- excluded leads to, through directories that can be read, and that are files below the bound of
-- their size and can be read, binary ones too, as the text that decoding makes of them. It is required that `readdir` gives names, and fails on a path with
-- `depth` or more parts.
pub fetch_files_lem :
    (disk : Disk) (root : List Text) (depth fuel : ℕ)
    → HasNames disk
    → ((dir : List Text) → depth ≤ length dir → disk.read_dir dir ≡ none)
    → depth < fuel
    → (files : List WorkspaceFile) × (fetch_files disk root fuel ≡ some files)
      × ((f : WorkspaceFile) → Memᴰ f files ↔ Found disk root root f)
unfolding fetch_files
fetch_files_lem disk root depth fuel names deep enough =
    let (files, e, iff) =
      files-Collects disk root names depth deep fuel root [] (omega arith) (omega arith) in
    (
      files,
      e,
      λ f. (
        λ m. elim ((iff f).0 m) [ inl old ↦ absurd (Memᴰ.not-nil old) | inr found ↦ found ],
        λ found. (iff f).1 (inr found),
      ),
    )

IsAllowed-append :
    (cwd allowed ps qs : List Text) → IsAllowed cwd allowed ps → IsAllowed cwd allowed (ps ++ qs)
unfolding IsAllowed
IsAllowed-append cwd [] ps qs h = h
IsAllowed-append cwd (a ∷ allowed) ps qs (inl (rest, e)) =
    inl (rest ++ qs, ap (λ x. x ++ qs) e ∙ append_assoc (resolve cwd a) rest qs)
IsAllowed-append cwd (a ∷ allowed) ps qs (inr h) = inr (IsAllowed-append cwd allowed ps qs h)

-- A file was read below an allowed path, at its relative path.
abbrev pub LiesAllowed : (cwd allowed : List Text) → Disk → List Text → WorkspaceFile → Type 0
LiesAllowed cwd allowed disk root f =
    (ps : List Text) × (f.path ≡ relative_text ps)
    × (disk.read_file (root ++ ps) ≡ some f.content)
    × All (Avoids fetch_exclude) ps
    × ((ex : Text) → Memᴰ ex fetch_exclude → starts_with (ex ++ (sep ∷ [])) f.path ≡ false)
    × IsAllowed cwd allowed (root ++ ps)

-- The fetch of a workspace that the path check lets through ends, and each file that it returns
-- was read at a path whose parts are those of an allowed path with none or more behind them. The
-- relative path that it is returned with leads there from the root, by names none of which is an
-- excluded pattern, and does not begin with an excluded pattern and a separator. It is
-- required that `readdir` gives names, and fails on a path with `depth` or more parts, and that
-- the fuel is more than `depth`.
pub fetch_contained :
    (cwd allowed : List Text) (path r : Text) (disk : Disk) (depth fuel : ℕ)
    → All HasNoSep cwd
    → HasNames disk
    → ((dir : List Text) → depth ≤ length dir → disk.read_dir dir ≡ none)
    → depth < fuel
    → validate_path cwd allowed path ≡ some r
    → (root : List Text) × (files : List WorkspaceFile) × (r ≡ path_text root)
      × (fetch_files disk root fuel ≡ some files)
      × ((f : WorkspaceFile) → Memᴰ f files → LiesAllowed cwd allowed disk root f)
fetch_contained cwd allowed path r disk depth fuel c names deep enough valid =
    let (root, text, plain, inside) = validate_path_contains cwd allowed path r c valid in
    let (files, e, iff) = fetch_files_lem disk root depth fuel names deep enough in
    (
      root,
      files,
      text,
      e,
      λ f m.
          let (ps, at, read, names_, clean, outside) = root-Lies disk names root ((iff f).0 m) in
          (ps, at, read, clean, outside, IsAllowed-append cwd allowed root ps inside),
    )
