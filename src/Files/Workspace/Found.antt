-- ===== src/Files/Workspace/Found.antt =====
-- The files of a workspace, with no order and no fuel in it, and where they lie.
use mathlib.Core.List.{Memᴰ}
use kb_labs_host_agent.Common.{
  true, false, ◌&&◌, ◌≡◌, ◌≢◌, refl, ap, sym, ◌∙◌, subst, some, List, [], ◌∷◌, ◌++◌, arith, ltb,
  All, All-append, append-nil, append_assoc,
}
use kb_labs_host_agent.Common.Text.{Text, starts_with}
use kb_labs_host_agent.Files.{sep, text_eq, parts, joined_part, enter, enter_all, reversed}
use kb_labs_host_agent.Files.Parts.{IsPlain, HasNoSep, text_eq_refl}
use kb_labs_host_agent.Files.Workspace.{
  Disk, Stat, WorkspaceFile, fetch_exclude, max_file_size, join, relative, relative_text, hits,
  is_excluded,
}

-- The relative path of an entry of a directory.
abbrev pub rel_path_of : List Text → List Text → Text → Text
rel_path_of root dir entry = relative_text (relative root (join dir entry))

mutual
  -- The file lies in the directory or below it.
  pub data Found (disk : Disk) (root : List Text) : List Text → WorkspaceFile → Type 0 where
    listed :
        {dir entries : List Text} {entry : Text} {f : WorkspaceFile}
        → disk.read_dir dir ≡ some entries
        → Memᴰ entry entries
        → FoundAt disk root dir entry f
        → Found disk root dir f

  -- The file is this entry of the directory, or lies below it.
  pub data FoundAt (disk : Disk) (root : List Text)
      : List Text → Text → WorkspaceFile → Type 0 where
    file :
        {dir : List Text} {entry content : Text} {s : Stat} {f : WorkspaceFile}
        → is_excluded fetch_exclude (rel_path_of root dir entry) entry ≡ false
        → disk.stat (join dir entry) ≡ some s
        → s.is_directory ≡ false
        → (s.is_file && ltb s.size max_file_size) ≡ true
        → disk.read_file (join dir entry) ≡ some content
        → f ≡ record { path = rel_path_of root dir entry; content = content }
        → FoundAt disk root dir entry f
    below :
        {dir : List Text} {entry : Text} {s : Stat} {f : WorkspaceFile}
        → is_excluded fetch_exclude (rel_path_of root dir entry) entry ≡ false
        → disk.stat (join dir entry) ≡ some s
        → s.is_directory ≡ true
        → Found disk root (join dir entry) f
        → FoundAt disk root dir entry f

-- `readdir` gives names, without a separator and none of them empty, `.` or `..`.
abbrev pub HasNames : Disk → Type 0
HasNames disk =
    (dir entries : List Text)
    → disk.read_dir dir ≡ some entries
    → (entry : Text) → Memᴰ entry entries
    → IsPlain entry

parts-plain : (entry : Text) → HasNoSep entry → parts entry ≡ entry ∷ []
unfolding parts joined_part
parts-plain [] h = refl
parts-plain (c ∷ cs) (h, hs) = rw h (ap (joined_part c) (parts-plain cs hs))

reversed_lem : (ps done qs : List Text) → reversed (reversed ps done) qs ≡ reversed done (ps ++ qs)
unfolding reversed
reversed_lem [] done qs = refl
reversed_lem (p ∷ ps) done qs = reversed_lem ps (p ∷ done) qs

enter-plain :
    (stack : List Text) (entry : Text) → IsPlain entry → enter true stack entry ≡ entry ∷ stack
unfolding enter
enter-plain stack entry h = rw (h.filled, h.moves, h.stays) refl

pub join_lem :
    (dir : List Text) (entry : Text) → IsPlain entry → join dir entry ≡ dir ++ (entry ∷ [])
unfolding join enter_all reversed
join_lem dir entry h =
    rw (parts-plain entry h.whole)
      (rw (enter-plain (reversed dir []) entry h) (reversed_lem dir [] (entry ∷ [])))

pub relative_lem : (root ps : List Text) → relative root (root ++ ps) ≡ ps
unfolding relative
relative_lem [] ps = refl
relative_lem (p ∷ root) ps = rw (text_eq_refl p) (relative_lem root ps)

-- What a name that was not excluded is not.
abbrev pub Avoids : List Text → Text → Type 0
Avoids excluded name = (ex : Text) → Memᴰ ex excluded → name ≢ ex

-- An entry that is not excluded passes the test of each pattern.
not_excluded :
    (xs : List Text) (rel name ex : Text)
    → is_excluded xs rel name ≡ false
    → Memᴰ ex xs
    → hits ex rel name ≡ false
unfolding is_excluded
not_excluded [] rel name ex h m = elim m [ ]
not_excluded (x ∷ xs) rel name ex h (Memᴰ.head e) = rw e (ground arith)
not_excluded (x ∷ xs) rel name ex h (Memᴰ.tail m) = not_excluded xs rel name ex (ground arith) m

name-ne : (ex rel name : Text) → hits ex rel name ≡ false → name ≢ ex
unfolding hits
name-ne ex rel name h same =
    let here : text_eq name ex ≡ true =
      subst (λ t. text_eq name t ≡ true) same (text_eq_refl name) in
    ground arith

path-outside :
    (ex rel name : Text) → hits ex rel name ≡ false → starts_with (ex ++ (sep ∷ [])) rel ≡ false
unfolding hits
path-outside ex rel name h = ground arith

-- Where a file of the workspace lies: its path is that of names below the root, none of them
-- excluded, and its content is what is read there.
abbrev pub Lies : Disk → List Text → WorkspaceFile → Type 0
Lies disk root f =
    (ps : List Text) × (f.path ≡ relative_text ps)
    × (disk.read_file (root ++ ps) ≡ some f.content)
    × All IsPlain ps
    × All (Avoids fetch_exclude) ps
    × ((ex : Text) → Memᴰ ex fetch_exclude → starts_with (ex ++ (sep ∷ [])) f.path ≡ false)

module _ (disk : Disk) (names : HasNames disk) (root : List Text) where
  entry_path :
      (dir qs : List Text) (entry : Text)
      → IsPlain entry
      → dir ≡ root ++ qs
      → join dir entry ≡ root ++ (qs ++ (entry ∷ []))
  entry_path dir qs entry h at =
      join_lem dir entry h ∙ (ap (λ d. d ++ (entry ∷ [])) at ∙ append_assoc root qs (entry ∷ []))

  rel_path_lem :
      (dir qs : List Text) (entry : Text)
      → IsPlain entry
      → dir ≡ root ++ qs
      → rel_path_of root dir entry ≡ relative_text (qs ++ (entry ∷ []))
  rel_path_lem dir qs entry h at =
      ap (λ p. relative_text (relative root p)) (entry_path dir qs entry h at)
      ∙ ap relative_text (relative_lem root (qs ++ (entry ∷ [])))

  avoids :
      (dir : List Text) (entry : Text)
      → is_excluded fetch_exclude (rel_path_of root dir entry) entry ≡ false
      → Avoids fetch_exclude entry
  avoids dir entry kept ex m =
      name-ne ex (rel_path_of root dir entry) entry
        (not_excluded fetch_exclude (rel_path_of root dir entry) entry ex kept m)

  mutual
    Found-Lies :
        (qs : List Text) {dir : List Text} {f : WorkspaceFile}
        → dir ≡ root ++ qs
        → All IsPlain qs
        → All (Avoids fetch_exclude) qs
        → Found disk root dir f
        → Lies disk root f
    Found-Lies qs {dir} at plain clean (listed {entries} {entry} there m found) =
        FoundAt-Lies qs entry (names dir entries there entry m) at plain clean found

    FoundAt-Lies :
        (qs : List Text) (entry : Text) {dir : List Text} {f : WorkspaceFile}
        → IsPlain entry
        → dir ≡ root ++ qs
        → All IsPlain qs
        → All (Avoids fetch_exclude) qs
        → FoundAt disk root dir entry f
        → Lies disk root f
    FoundAt-Lies qs entry {dir} {f} h at plain clean
          (file {content} kept stated not_dir small read same) =
        (
          qs ++ (entry ∷ []),
          ap (λ x. x.path) same ∙ rel_path_lem dir qs entry h at,
          subst (λ p. disk.read_file p ≡ some f.content) (entry_path dir qs entry h at)
              (read ∙ ap some (sym (ap (λ x. x.content) same))),
          All-append IsPlain qs (entry ∷ []) plain (h, tt),
          All-append (Avoids fetch_exclude) qs (entry ∷ []) clean (avoids dir entry kept, tt),
          λ ex m.
              subst (λ t. starts_with (ex ++ (sep ∷ [])) t ≡ false) (sym (ap (λ x. x.path) same))
                (path-outside ex (rel_path_of root dir entry) entry
                  (not_excluded fetch_exclude (rel_path_of root dir entry) entry ex kept m)),
        )
    FoundAt-Lies qs entry {dir} h at plain clean (below kept stated is_dir found) =
        Found-Lies (qs ++ (entry ∷ [])) (entry_path dir qs entry h at)
          (All-append IsPlain qs (entry ∷ []) plain (h, tt))
          (All-append (Avoids fetch_exclude) qs (entry ∷ []) clean (avoids dir entry kept, tt))
          found

  pub root-Lies : {f : WorkspaceFile} → Found disk root root f → Lies disk root f
  root-Lies found = Found-Lies [] (sym (append-nil root)) tt tt found
