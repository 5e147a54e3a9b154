-- ===== src/Resolver/Roots.antt =====
-- Where the plugins lie that the resolver gives.
mod Scans
pub use kb_labs_host_agent.Resolver.Roots.Scans.{Scanned}
use kb_labs_host_agent.Resolver.Roots.Scans.{scanned_once-Scanned, Roots}
use kb_labs_host_agent.Common.{
  Bool, true, false, ◌≡◌, ◌⊎◌, inl, inr, refl, ap, sym, ◌∙◌, subst, String, Option, none, some,
  List, [], ◌∷◌, ◌++◌, str_eq, append-nil, append_assoc, if◌then◌else◌, Bool-cases, Option-cases,
  arith,
}
use kb_labs_host_agent.Common.Dict.{lookup, insert, lookup-insert}
use kb_labs_host_agent.Common.Text.{Text, codes, starts_with, starts_with_sound}
use kb_labs_host_agent.Files.{resolve, sep}
use kb_labs_host_agent.Files.Paths.{IsAllowed}
use kb_labs_host_agent.Files.Parts.{text_eq_sound}
use kb_labs_host_agent.Resolver.{
  ManifestEntry, FileSystem, Cache, Resolver, try_load_manifest, store, entry_of, scan_packages,
  packages_of, scan_sub, scan_entries, entries_of, scan_dir, scan_all, scan, scanned_once, found,
  checked, is_outside, resolve_plugin, ResolvedPlugin, ok, err, escapes_root, handler_not_found,
  path_traversal, rejected, is_traversal, is_full, Manifest, entry_from,
}

-- The text of a path that is `root`, or goes on behind it with a separator.
abbrev pub Below : Text → Text → Type 0
Below root real = (real ≡ root) ⊎ ((rest : Text) × (real ≡ (root ++ (sep ∷ [])) ++ rest))

is_outside-Below : (root real : Text) → is_outside root real ≡ false → Below root real
unfolding is_outside
is_outside-Below root real inside = elim (Bool-cases (starts_with (root ++ (sep ∷ [])) real)) [
  | inl below ↦ inr (starts_with_sound (root ++ (sep ∷ [])) real below)
  | inr other ↦ inl (text_eq_sound real root (ground arith))
]

found-ok :
    (fs : FileSystem) (o : Option ManifestEntry) (plugin_id handler_ref : String)
    (p : ResolvedPlugin)
    → found fs o plugin_id handler_ref ≡ ok p
    → (e : ManifestEntry) × (o ≡ some e)
      × (p.plugin_root ≡ e.root)
      × (is_traversal (codes handler_ref) ≡ false)
      × ((root real : Text) × (fs.real_path p.plugin_root ≡ some root)
          × (fs.real_path p.handler_path ≡ some real)
          × Below root real)
unfolding found checked
found-ok fs none plugin_id handler_ref p h = cc
found-ok fs (some e) plugin_id handler_ref p h =
    let path = resolve e.root (codes handler_ref) in
    let start = found fs (some e) plugin_id handler_ref in
    elim (Bool-cases (is_traversal (codes handler_ref))) [
      | inl bad ↦ let e1 : start ≡ err (path_traversal handler_ref) = rw bad refl in cc
      | inr plain ↦ elim (Option-cases (fs.is_directory path)) [
        | inl gone ↦ let e1 : start ≡ err (handler_not_found path) = rw (plain, gone) refl in cc
        | inr (d, there) ↦ elim (Option-cases (fs.real_path path)) [
          | inl lost ↦ let e1 : start ≡ err rejected = rw (plain, there, lost) refl in cc
          | inr (real, links) ↦ elim (Option-cases (fs.real_path e.root)) [
            | inl lost ↦ let e1 : start ≡ err rejected = rw (plain, there, links, lost) refl in cc
            | inr (root, rooted) ↦ elim (Bool-cases (is_outside root real)) [
              | inl out ↦
                  let e1 : start ≡ err (escapes_root path) =
                    rw (plain, there, links, rooted, out) refl in
                  cc
              | inr inside ↦
                  let q : ResolvedPlugin = record { plugin_root = e.root; handler_path = path } in
                  let e1 : start ≡ ok q = rw (plain, there, links, rooted, inside) refl in
                  let same : q ≡ p = cc in
                  (
                    e,
                    refl,
                    sym (ap (λ x. x.plugin_root) same),
                    plain,
                    (
                      root,
                      real,
                      ap (λ x. fs.real_path x.plugin_root) (sym same) ∙ rooted,
                      ap (λ x. fs.real_path x.handler_path) (sym same) ∙ links,
                      is_outside-Below root real inside,
                    ),
                  )
            ]
          ]
        ]
      ]
    ]

-- A plugin that the resolver gives lies in an allowed path or below one, and the file of its
-- handler, with all links followed, is the root of the plugin or below it, with all links followed;
-- the handler names no parent directory. The resolver has scanned the allowed paths or nothing
-- before, and is so again.
pub resolve_plugin_contained :
    (fs : FileSystem) (cwd allowed : List Text) (plugin_id handler_ref : String) (r : Resolver)
    (p : ResolvedPlugin)
    → Scanned cwd allowed r
    → (resolve_plugin fs cwd allowed plugin_id handler_ref r).1 ≡ ok p
    → IsAllowed cwd allowed p.plugin_root
      × (is_traversal (codes handler_ref) ≡ false)
      × ((root real : Text) × (fs.real_path p.plugin_root ≡ some root)
          × (fs.real_path p.handler_path ≡ some real)
          × Below root real)
      × Scanned cwd allowed (resolve_plugin fs cwd allowed plugin_id handler_ref r).0
unfolding resolve_plugin
resolve_plugin_contained fs cwd allowed plugin_id handler_ref r p h good =
    let scanned = scanned_once-Scanned fs cwd allowed r h in
    let cache = (scanned_once fs cwd allowed r).cache in
    let (e, held, root, plain, real) =
      found-ok fs (lookup plugin_id cache) plugin_id handler_ref p good in
    (subst (IsAllowed cwd allowed) (sym root) (scanned plugin_id e held), plain, real, scanned)
