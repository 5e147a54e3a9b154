-- ===== src/Files/Workspace/Walk.antt =====
-- The walk of `collectFiles` ends, and collects the files of the workspace.
use mathlib.Core.List.{Memᴰ}
use mathlib.Core.List.Memᴰ
use mathlib.Core.Bool.{false≢true}
use kb_labs_host_agent.Common.{
  ℕ, zero, suc, ◌+◌, ◌≤◌, ◌<◌, true, false, ◌&&◌, ◌≢◌, ◌≡◌, refl, ap, sym, ◌∙◌, subst, Option, none,
  some, List, [], ◌∷◌, ◌++◌, arith, ltb, length, length-append, ◌↔◌, ◌⊎◌, inl, inr, Bool-cases,
}
use kb_labs_host_agent.Common.Text.{Text}
use kb_labs_host_agent.Files.Workspace.{
  Disk, Stat, WorkspaceFile, fetch_exclude, max_file_size, join, is_excluded, visit, pushed,
  collect_entry, then_entries, collect_entries, collect_dir, collect_files,
}
use kb_labs_host_agent.Files.Workspace.Found.{
  Found, FoundAt, listed, file, below, rel_path_of, HasNames, join_lem,
}

abbrev pub Walk : Type 0
Walk = List Text → List WorkspaceFile → Option (List WorkspaceFile)

-- A call ends, and what it collected beside `out` are the files that fit.
abbrev pub Collects :
    (WorkspaceFile → Type 0) → List WorkspaceFile → Option (List WorkspaceFile) → Type 0
Collects Fits out r =
    (res : List WorkspaceFile) × (r ≡ some res)
    × ((f : WorkspaceFile) → Memᴰ f res ↔ (Memᴰ f out ⊎ Fits f))

nothing :
    (Fits : WorkspaceFile → Type 0) (out : List WorkspaceFile)
    → ((f : WorkspaceFile) → ¬ Fits f)
    → Collects Fits out (some out)
nothing Fits out h = (out, refl, λ f. (inl, λ s. elim s [ inl m ↦ m | inr bad ↦ absurd (h f bad) ]))

-- The same files by another description.
described :
    (P Q : WorkspaceFile → Type 0) (out : List WorkspaceFile) (r : Option (List WorkspaceFile))
    → ((f : WorkspaceFile) → P f ↔ Q f)
    → Collects P out r
    → Collects Q out r
described P Q out r same (res, e, iff) = (
  res,
  e,
  λ f. (
    λ m. elim ((iff f).0 m) [ inl old ↦ inl old | inr new ↦ inr ((same f).0 new) ],
    λ s. (iff f).1 (elim s [ inl old ↦ inl old | inr new ↦ inr ((same f).1 new) ]),
  ),
)

module _ (disk : Disk) (root : List Text) where
  abbrev At : List Text → Text → WorkspaceFile → Type 0
  At dir entry f = FoundAt disk root dir entry f

  At-below :
      (dir : List Text) (entry : Text) (s : Stat)
      → is_excluded fetch_exclude (rel_path_of root dir entry) entry ≡ false
      → disk.stat (join dir entry) ≡ some s
      → s.is_directory ≡ true
      → (f : WorkspaceFile) → Found disk root (join dir entry) f ↔ At dir entry f
  At-below dir entry s kept stated is_dir f = (
    λ found. below kept stated is_dir found,
    λ at. elim at [
      | file {s = t} kept' stated' not_dir small read same ↦
          let e : t ≡ s = cc in
          absurd (false≢true (sym not_dir ∙ ap (λ x. x.is_directory) e ∙ is_dir))
      | below kept' stated' is_dir' found ↦ found
    ],
  )

  At-file :
      (dir : List Text) (entry : Text) (s : Stat) (f : WorkspaceFile)
      → disk.stat (join dir entry) ≡ some s
      → s.is_directory ≡ false
      → At dir entry f
      → ((s.is_file && ltb s.size max_file_size) ≡ true)
        × ((content : Text) × (disk.read_file (join dir entry) ≡ some content)
            × (f ≡ record { path = rel_path_of root dir entry; content = content }))
  At-file dir entry s f stated not_dir
        (file {content} {s = t} kept stated' not_dir' small read same) =
      let e : t ≡ s = cc in
      (subst (λ x. (x.is_file && ltb x.size max_file_size) ≡ true) e small, (content, read, same))
  At-file dir entry s f stated not_dir (below {s = t} kept stated' is_dir found) =
      let e : t ≡ s = cc in
      absurd (false≢true (sym not_dir ∙ sym (ap (λ x. x.is_directory) e) ∙ is_dir))

  At-kept :
      (dir : List Text) (entry : Text) (f : WorkspaceFile)
      → At dir entry f
      → (is_excluded fetch_exclude (rel_path_of root dir entry) entry ≡ false)
        × (disk.stat (join dir entry) ≢ none)
  At-kept dir entry f (file kept stated not_dir small read same) = (kept, λ e. cc)
  At-kept dir entry f (below kept stated is_dir found) = (kept, λ e. cc)

  module _ (dir : List Text) (entry : Text)
      (kept : is_excluded fetch_exclude (rel_path_of root dir entry) entry ≡ false) where
    pushed-Collects :
        (s : Stat) (out : List WorkspaceFile)
        → disk.stat (join dir entry) ≡ some s
        → s.is_directory ≡ false
        → (s.is_file && ltb s.size max_file_size) ≡ true
        → (o : Option Text) → disk.read_file (join dir entry) ≡ o
        → Collects (At dir entry) out (some (pushed disk root o (rel_path_of root dir entry) out))
    unfolding pushed
    pushed-Collects s out stated not_dir small none read =
        nothing (At dir entry) out (λ f at.
          let (fits, (content, read', same)) = At-file dir entry s f stated not_dir at in cc)
    pushed-Collects s out stated not_dir small (some content) read =
        let new : WorkspaceFile = record { path = rel_path_of root dir entry; content = content } in
        (
          out ++ (new ∷ []),
          refl,
          λ f. (
            λ m. elim (Memᴰ.append_cases out m) [
              | inl old ↦ inl old
              | inr last ↦ inr (file kept stated not_dir small read (Memᴰ.eq_of_singleton last))
            ],
            λ s'. elim s' [
              | inl old ↦ Memᴰ.append_left (new ∷ []) old
              | inr at ↦
                  let (fits, (content', read', same)) = At-file dir entry s f stated not_dir at in
                  Memᴰ.append_right out (Memᴰ.head (cc))
            ],
          ),
        )

    visit-Collects :
        (walk : Walk) (out : List WorkspaceFile)
        → Collects (Found disk root (join dir entry)) out (walk (join dir entry) out)
        → (o : Option Stat) → disk.stat (join dir entry) ≡ o
        → Collects
            (At dir entry)
            out
            (visit disk root walk o (join dir entry) (rel_path_of root dir entry) out)
    unfolding visit
    visit-Collects walk out h none stated =
        nothing (At dir entry) out (λ f at. (At-kept dir entry f at).1 stated)
    visit-Collects walk out h (some s) stated = elim (Bool-cases s.is_directory) [
      | inl is_dir ↦ rw is_dir (
          described (Found disk root (join dir entry)) (At dir entry) out _
            (At-below dir entry s kept stated is_dir) h)
      | inr not_dir ↦ elim (Bool-cases (s.is_file && ltb s.size max_file_size)) [
        | inl small ↦
            rw (not_dir, small)
              (pushed-Collects s out stated not_dir small (disk.read_file (join dir entry)) refl)
        | inr large ↦
            rw (not_dir, large)
              (nothing (At dir entry) out (λ f at.
                let fits = (At-file dir entry s f stated not_dir at).0 in
                false≢true (sym large ∙ fits)))
      ]
    ]

  entry-Collects :
      (dir : List Text) (entry : Text) (walk : Walk) (out : List WorkspaceFile)
      → Collects (Found disk root (join dir entry)) out (walk (join dir entry) out)
      → Collects (At dir entry) out (collect_entry disk root walk dir entry out)
  unfolding collect_entry
  entry-Collects dir entry walk out h =
      elim (Bool-cases (is_excluded fetch_exclude (rel_path_of root dir entry) entry)) [
        | inl left_out ↦ rw left_out (
            nothing (At dir entry) out
              (λ f at. false≢true (sym (At-kept dir entry f at).0 ∙ left_out)))
        | inr kept ↦
            rw kept (visit-Collects dir entry kept walk out h (disk.stat (join dir entry)) refl)
      ]

  -- The file is one of these entries of the directory, or lies below one.
  abbrev AtSome : List Text → List Text → WorkspaceFile → Type 0
  AtSome dir entries f = (entry : Text) × Memᴰ entry entries × At dir entry f

  entries-Collects :
      (dir : List Text) (walk : Walk) (entries : List Text) (out : List WorkspaceFile)
      → ((entry : Text)
          → Memᴰ entry entries
          → (out' : List WorkspaceFile)
          → Collects (Found disk root (join dir entry)) out' (walk (join dir entry) out'))
      → Collects (AtSome dir entries) out (collect_entries disk root walk dir entries out)
  unfolding collect_entries then_entries
  entries-Collects dir walk [] out h = nothing (AtSome dir []) out (λ f at. Memᴰ.not-nil at.1)
  entries-Collects dir walk (entry ∷ entries) out h =
      let (mid, e, first) = entry-Collects dir entry walk out (h entry (Memᴰ.head refl) out) in
      let (res, e', others) = entries-Collects dir walk entries mid (λ x m. h x (Memᴰ.tail m)) in
      (
        res,
        rw e e',
        λ f. (
          λ m. elim ((others f).0 m) [
            | inl m' ↦ elim ((first f).0 m') [
              | inl old ↦ inl old
              | inr at ↦ inr (entry, Memᴰ.head refl, at)
            ]
            | inr (x, mx, at) ↦ inr (x, Memᴰ.tail mx, at)
          ],
          λ s. elim s [
            | inl old ↦ (others f).1 (inl ((first f).1 (inl old)))
            | inr (x, Memᴰ.head same, at) ↦
                (others f).1 (inl ((first f).1 (inr (subst (λ y. At dir y f) same at))))
            | inr (x, Memᴰ.tail mx, at) ↦ (others f).1 (inr (x, mx, at))
          ],
        ),
      )

  dir-Collects :
      (dir : List Text) (walk : Walk) (out : List WorkspaceFile) (o : Option (List Text))
      → disk.read_dir dir ≡ o
      → ((entries : List Text) (entry : Text)
          → o ≡ some entries
          → Memᴰ entry entries
          → (out' : List WorkspaceFile)
          → Collects (Found disk root (join dir entry)) out' (walk (join dir entry) out'))
      → Collects (Found disk root dir) out (collect_dir disk root walk o dir out)
  unfolding collect_dir
  dir-Collects dir walk out none there h =
      nothing (Found disk root dir) out (λ f found. elim found [ listed there' m at ↦ cc ])
  dir-Collects dir walk out (some entries) there h =
      described (AtSome dir entries) (Found disk root dir) out _
        (λ f. (
          λ at. listed there at.1 at.2,
          λ found. elim found [
            | listed {entries = others} {entry} there' m at ↦
                let same : others ≡ entries = cc in (entry, subst (λ xs. Memᴰ entry xs) same m, at)
          ],
        ))
        (entries-Collects dir walk entries out (λ entry m. h entries entry refl m))

  -- A directory whose path has as many parts as `depth` cannot be read: paths are bounded.
  module _ (names : HasNames disk) (depth : ℕ)
      (deep : (dir : List Text) → depth ≤ length dir → disk.read_dir dir ≡ none) where
    pub files-Collects :
        (fuel : ℕ) (dir : List Text) (out : List WorkspaceFile)
        → 0 < fuel
        → depth < length dir + fuel
        → Collects (Found disk root dir) out (collect_files disk root fuel dir out)
    unfolding collect_files
    files-Collects zero dir out h k = absurd (omega arith)
    files-Collects (suc fuel) dir out h k =
        dir-Collects dir (collect_files disk root fuel) out (disk.read_dir dir) refl
          (λ entries entry there m out'.
            let longer : length (join dir entry) ≡ length dir + 1 =
              ap length (join_lem dir entry (names dir entries there entry m))
              ∙ length-append dir (entry ∷ []) in
            let shallow : length dir < depth = shallow_lem dir entries there in
            files-Collects fuel (join dir entry) out' (omega arith) (omega arith))
      where
        shallow_lem : (d es : List Text) → disk.read_dir d ≡ some es → length d < depth
        shallow_lem d es there = elim (Bool-cases (ltb (length d) depth)) [
          | inl lt ↦ ground arith
          | inr ge ↦ let bad = deep d (ground arith) in cc
        ]
