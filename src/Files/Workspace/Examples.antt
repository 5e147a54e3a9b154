-- ===== src/Files/Workspace/Examples.antt =====
-- Tests of the walk on a small disk, and its theorems there: `/w` holds a file, the directory
-- `dist`, which is excluded, and `src` with `.kb` in it, whose `cache` is not excluded there.
use mathlib.Core.List.{Memᴰ}
use mathlib.Core.List.Memᴰ
use kb_labs_host_agent.Common.{
  ◌≤◌, Bool, true, false, ◌≡◌, refl, Option, none, some, List, [], ◌∷◌, ◌++◌, arith, ◌↔◌, subst,
  sym, length, All,
}
use kb_labs_host_agent.Common.Text.{Text, codes, starts_with}
use kb_labs_host_agent.Files.{
  text_eq, parts, joined_part, enter, enter_all, reversed, path_text, validate_path, is_some_below,
  is_below, resolve, normalize, is_absolute, joined,
}
use kb_labs_host_agent.Files.Parts.{IsPlain}
use kb_labs_host_agent.Files.Workspace.{
  Disk, WorkspaceFile, join, relative, relative_text, hits, is_excluded, visit, pushed,
  collect_entry, then_entries, collect_entries, collect_dir, collect_files, fetch_files,
}
use kb_labs_host_agent.Files.Workspace.Found.{Found, HasNames}
use kb_labs_host_agent.Files.Workspace.Fetched.{fetch_files_lem, fetch_contained, LiesAllowed}

abbrev names : List Text
names = codes "a" ∷ codes "dist" ∷ codes "src" ∷ []

abbrev read_dir : List Text → Option (List Text)
read_dir [] = none
read_dir (p ∷ []) = some names
read_dir (p ∷ q ∷ []) = some (codes ".kb" ∷ [])
read_dir (p ∷ q ∷ r ∷ []) = some (codes "cache" ∷ [])
read_dir (p ∷ q ∷ r ∷ s ∷ ps) = none

abbrev is_dir : List Text → Bool
is_dir [] = true
is_dir (p ∷ []) = true
is_dir (p ∷ q ∷ []) = text_eq q (codes "src")
is_dir (p ∷ q ∷ r ∷ []) = true
is_dir (p ∷ q ∷ r ∷ s ∷ ps) = false

abbrev disk : Disk
disk = record {
  read_dir = read_dir;
  stat = λ ps. some (record { is_directory = is_dir ps; is_file = true; size = 7 });
  read_file = λ ps. some (codes "text");
}

abbrev root : List Text
root = codes "w" ∷ []

fetch_test :
    fetch_files disk root 5
    ≡ some (
        record { path = codes "a"; content = codes "text" }
        ∷ record { path = codes "src/.kb/cache"; content = codes "text" }
        ∷ [])
unfolding fetch_files collect_files collect_dir collect_entries collect_entry then_entries visit
    pushed join relative relative_text is_excluded hits text_eq parts joined_part enter enter_all
    reversed starts_with
fetch_test = refl

-- `.kb/cache` is excluded below the root alone.
excluded_tests :
    (is_excluded (codes ".kb/cache" ∷ []) (codes ".kb/cache/x") (codes "x") ≡ true)
    × (is_excluded (codes ".kb/cache" ∷ []) (codes "src/.kb/cache") (codes "cache") ≡ false)
unfolding is_excluded hits text_eq starts_with
excluded_tests = (refl, refl)

abbrev all_names : List Text
all_names = codes "a" ∷ codes "dist" ∷ codes "src" ∷ codes ".kb" ∷ codes "cache" ∷ []

all_names-IsPlain : All IsPlain all_names
unfolding text_eq
all_names-IsPlain = (
  record { whole = (refl, tt); filled = refl; moves = refl; stays = refl },
  (
    record {
      whole = (refl, (refl, (refl, (refl, tt))));
      filled = refl;
      moves = refl;
      stays = refl;
    },
    (
      record { whole = (refl, (refl, (refl, tt))); filled = refl; moves = refl; stays = refl },
      (
        record { whole = (refl, (refl, (refl, tt))); filled = refl; moves = refl; stays = refl },
        (
          record {
            whole = (refl, (refl, (refl, (refl, (refl, tt)))));
            filled = refl;
            moves = refl;
            stays = refl;
          },
          tt,
        ),
      ),
    ),
  ),
)

member_All : (P : Text → Type 0) (xs : List Text) {x : Text} → Memᴰ x xs → All P xs → P x
member_All P [] m h = elim m [ ]
member_All P (y ∷ xs) (Memᴰ.head e) (h, hs) = subst P (sym e) h
member_All P (y ∷ xs) (Memᴰ.tail m) (h, hs) = member_All P xs m hs

listed_name :
    (dir entries : List Text) (x : Text)
    → read_dir dir ≡ some entries
    → Memᴰ x entries
    → Memᴰ x all_names
listed_name [] entries x e m = cc
listed_name (p ∷ []) entries x e m =
    let same : names ≡ entries = cc in
    Memᴰ.append_left (codes ".kb" ∷ codes "cache" ∷ []) (subst (λ xs. Memᴰ x xs) (sym same) m)
listed_name (p ∷ q ∷ []) entries x e m =
    let same : codes ".kb" ∷ [] ≡ entries = cc in
    Memᴰ.append_right names
      (Memᴰ.append_left (codes "cache" ∷ []) (subst (λ xs. Memᴰ x xs) (sym same) m))
listed_name (p ∷ q ∷ r ∷ []) entries x e m =
    let same : codes "cache" ∷ [] ≡ entries = cc in
    Memᴰ.append_right (names ++ (codes ".kb" ∷ [])) (subst (λ xs. Memᴰ x xs) (sym same) m)
listed_name (p ∷ q ∷ r ∷ s ∷ ps) entries x e m = cc

disk-HasNames : HasNames disk
disk-HasNames dir entries e x m =
    member_All IsPlain all_names (listed_name dir entries x e m) all_names-IsPlain

disk_deep : (dir : List Text) → 4 ≤ length dir → disk.read_dir dir ≡ none
disk_deep [] h = refl
disk_deep (p ∷ []) h = absurd (omega arith)
disk_deep (p ∷ q ∷ []) h = absurd (omega arith)
disk_deep (p ∷ q ∷ r ∷ []) h = absurd (omega arith)
disk_deep (p ∷ q ∷ r ∷ s ∷ ps) h = refl

fetch_files_lem_example :
    (files : List WorkspaceFile) × (fetch_files disk root 5 ≡ some files)
    × ((f : WorkspaceFile) → Memᴰ f files ↔ Found disk root root f)
fetch_files_lem_example = fetch_files_lem disk root 4 5 disk-HasNames disk_deep (omega arith)

fetch_contained_example :
    (root' : List Text) × (files : List WorkspaceFile) × (codes "/w" ≡ path_text root')
    × (fetch_files disk root' 5 ≡ some files)
    × ((f : WorkspaceFile) → Memᴰ f files → LiesAllowed root (codes "." ∷ []) disk root' f)
unfolding validate_path is_some_below is_below text_eq path_text resolve reversed normalize
    is_absolute enter_all parts enter joined starts_with
fetch_contained_example =
    fetch_contained root (codes "." ∷ []) (codes "/w/./") (codes "/w") disk 4 5 ((refl, tt), tt)
      disk-HasNames disk_deep (omega arith) refl
