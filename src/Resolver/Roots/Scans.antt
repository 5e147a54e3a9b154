-- ===== src/Resolver/Roots/Scans.antt =====
-- What a scan finds lies below the allowed paths.
use kb_labs_host_agent.Common.{
  Bool, true, false, ◌≡◌, inl, inr, refl, ap, sym, ◌∙◌, subst, String, Option, none, some, List, [],
  ◌∷◌, ◌++◌, str_eq, append-nil, append_assoc, if◌then◌else◌, Bool-cases, Option-cases,
}
use kb_labs_host_agent.Common.Dict.{lookup, insert, lookup-insert}
use kb_labs_host_agent.Common.Text.{Text, codes}
use kb_labs_host_agent.Files.{resolve}
use kb_labs_host_agent.Files.Paths.{IsAllowed}
use kb_labs_host_agent.Resolver.{
  ManifestEntry, FileSystem, Cache, Resolver, try_load_manifest, store, entry_of, scan_packages,
  packages_of, scan_sub, scan_entries, entries_of, scan_dir, scan_all, scan, scanned_once, is_full,
  Manifest, entry_from,
}

entry_from-root :
    (o : Option (String × String)) (dir : List Text) (e : ManifestEntry)
    → entry_from o dir ≡ some e
    → dir ≡ e.root
unfolding entry_from
entry_from-root none dir e h = cc
entry_from-root (some (id, version)) dir e h =
    let same : record { id = id; version = version; root = dir } ≡ e = cc in ap (λ x. x.root) same

entry_of-root :
    (o : Option Manifest) (dir : List Text) (e : ManifestEntry)
    → entry_of o dir ≡ some e
    → dir ≡ e.root
unfolding entry_of
entry_of-root none dir e h = cc
entry_of-root (some m) dir e h = entry_from-root (is_full m.id m.version) dir e h

module _ (P : List Text → Type 0) where
  -- Each plugin of the cache lies where `P` holds.
  abbrev pub Roots : Cache → Type 0
  Roots c = (id : String) (e : ManifestEntry) → lookup id c ≡ some e → P e.root

  insert-Roots : (c : Cache) (e : ManifestEntry) → P e.root → Roots c → Roots (insert e.id e c)
  insert-Roots c e h roots id x held = elim (Bool-cases (str_eq e.id id)) [
    | inl same ↦
        let a : some e ≡ some x =
          sym (lookup-insert e.id id e c ∙ ap (λ b. if b then some e else lookup id c) same)
          ∙ held in
        let b : e ≡ x = cc in subst (λ y. P y.root) b h
    | inr other ↦
        roots id x (
          sym (lookup-insert e.id id e c ∙ ap (λ b. if b then some e else lookup id c) other)
          ∙ held)
  ]

  store-Roots :
      (o : Option ManifestEntry) (c next : Cache)
      → ((e : ManifestEntry) → o ≡ some e → P e.root)
      → Roots c
      → Roots next
      → Roots (store o c next)
  unfolding store
  store-Roots none c next h roots more = more
  store-Roots (some e) c next h roots more = insert-Roots c e (h e refl) roots

  try_load-Roots :
      (fs : FileSystem) (dir : List Text) (c : Cache)
      → P dir
      → Roots c
      → Roots (try_load_manifest fs dir c)
  unfolding try_load_manifest
  try_load-Roots fs dir c h roots =
      let second = fs.read_manifest (dir ++ (codes "manifest.json" ∷ [])) in
      let first = fs.read_manifest (dir ++ (codes "dist" ∷ codes "manifest.json" ∷ [])) in
      store-Roots (entry_of first dir) c (store (entry_of second dir) c c)
        (λ e held. subst P (entry_of-root first dir e held) h) roots
        (store-Roots (entry_of second dir) c c
          (λ e held. subst P (entry_of-root second dir e held) h) roots roots)

  choice-Roots : (b : Bool) (c d : Cache) → Roots c → Roots d → Roots (if b then c else d)
  choice-Roots true c d h k = h
  choice-Roots false c d h k = k

  module _ (closed : (dir : List Text) (e : Text) → P dir → P (dir ++ (e ∷ []))) where
    packages-Roots :
        (fs : FileSystem) (dir es : List Text) (c : Cache)
        → P dir
        → Roots c
        → Roots (scan_packages fs dir es c)
    unfolding scan_packages
    packages-Roots fs dir [] c h roots = roots
    packages-Roots fs dir (e ∷ es) c h roots = packages-Roots fs dir es _ h (
        choice-Roots _ c (try_load_manifest fs (dir ++ (e ∷ [])) c) roots
          (try_load-Roots fs (dir ++ (e ∷ [])) c (closed dir e h) roots))

    sub-Roots :
        (fs : FileSystem) (here : List Text) (c : Cache)
        → P here
        → Roots c
        → Roots (scan_sub fs here c)
    unfolding scan_sub packages_of
    sub-Roots fs here c h roots =
        let pkg = here ++ (codes "packages" ∷ []) in
        elim (Option-cases (fs.read_dir pkg)) [
          | inl unread ↦ rw unread (try_load-Roots fs here c h roots)
          | inr (es, read) ↦ rw read (
              packages-Roots fs pkg es (try_load_manifest fs here c)
                (closed here (codes "packages") h) (try_load-Roots fs here c h roots))
        ]

    entries-Roots :
        (fs : FileSystem) (dir es : List Text) (c : Cache)
        → P dir
        → Roots c
        → Roots (scan_entries fs dir es c)
    unfolding scan_entries
    entries-Roots fs dir [] c h roots = roots
    entries-Roots fs dir (e ∷ es) c h roots = entries-Roots fs dir es _ h (
        choice-Roots _ c (scan_sub fs (dir ++ (e ∷ [])) c) roots
          (sub-Roots fs (dir ++ (e ∷ [])) c (closed dir e h) roots))

    dir-Roots :
        (fs : FileSystem) (dir : List Text) (c : Cache)
        → P dir
        → Roots c
        → Roots (scan_dir fs dir c)
    unfolding scan_dir entries_of
    dir-Roots fs dir c h roots = elim (Option-cases (fs.read_dir dir)) [
      | inl unread ↦ rw unread (try_load-Roots fs dir c h roots)
      | inr (es, read) ↦
          rw read (
            entries-Roots fs dir es (try_load_manifest fs dir c) h
              (try_load-Roots fs dir c h roots))
    ]

    all-Roots :
        (fs : FileSystem) (cwd ps : List Text) (c : Cache)
        → ((rest : List Text) → IsAllowed cwd ps rest → P rest)
        → Roots c
        → Roots (scan_all fs cwd ps c)
    unfolding scan_all IsAllowed
    all-Roots fs cwd [] c allowed roots = roots
    all-Roots fs cwd (p ∷ ps) c allowed roots =
        all-Roots fs cwd ps (scan_dir fs (resolve cwd p) c)
          (λ rest inside. allowed rest (inr inside))
          (dir-Roots fs (resolve cwd p) c
            (allowed (resolve cwd p) (inl ([], sym (append-nil (resolve cwd p))))) roots)

-- A resolver that has scanned nothing else than the allowed paths.
abbrev pub Scanned : List Text → List Text → Resolver → Type 0
Scanned cwd allowed r = Roots (IsAllowed cwd allowed) r.cache

IsAllowed-closed :
    (cwd allowed dir : List Text) (e : Text)
    → IsAllowed cwd allowed dir
    → IsAllowed cwd allowed (dir ++ (e ∷ []))
unfolding IsAllowed
IsAllowed-closed cwd [] dir e h = h
IsAllowed-closed cwd (a ∷ allowed) dir e (inl (rest, split)) =
    inl
      (rest ++ (e ∷ []), ap (λ d. d ++ (e ∷ [])) split ∙ append_assoc (resolve cwd a) rest (e ∷ []))
IsAllowed-closed cwd (a ∷ allowed) dir e (inr h) = inr (IsAllowed-closed cwd allowed dir e h)

pub scanned_once-Scanned :
    (fs : FileSystem) (cwd allowed : List Text) (r : Resolver)
    → Scanned cwd allowed r
    → Scanned cwd allowed (scanned_once fs cwd allowed r)
unfolding scanned_once scan
scanned_once-Scanned fs cwd allowed r h = elim (Bool-cases r.scanned) [
  | inl done ↦ rw done h
  | inr fresh ↦ rw fresh (
      all-Roots (IsAllowed cwd allowed) (IsAllowed-closed cwd allowed) fs cwd allowed r.cache
        (λ rest h. h) h)
]
