-- ===== src/Resolver/Examples.antt =====
-- Tests of the resolver, and its theorem at a concrete file system.
use mathlib.Core.Bool.{false≢true}
use kb_labs_host_agent.Common.Dict.{lookup, insert}
use kb_labs_host_agent.Common.{true, false, ◌≡◌, refl, none, some, [], ◌∷◌, if◌then◌else◌}
use kb_labs_host_agent.Common.Text.{starts_with, Text, codes}
use kb_labs_host_agent.Files.{
  normalize, is_absolute, enter_all, parts, joined_part, enter, joined, reversed, resolve,
  path_text, text_eq,
}
use kb_labs_host_agent.Files.Paths.{IsAllowed}
use kb_labs_host_agent.Resolver.{
  scanned_once, scan, scan_all, scan_dir, entries_of, try_load_manifest, entry_of, entry_from,
  is_full, store, found, normal_text, relative_text, ends_with_sep, contains, checked, is_outside,
  is_directory, packages_of, scan_entries, scan_packages, scan_sub, FileSystem, Resolver,
  resolve_plugin, ResolvedPlugin, ok, err, path_traversal, is_traversal,
}
use kb_labs_host_agent.Resolver.Roots.{Scanned, Below, resolve_plugin_contained}

-- `/w` is a plugin; there are no other directories, and no links.
abbrev files : FileSystem
files = record {
  read_dir = λ dir. none;
  is_directory = λ path. some false;
  read_manifest = λ path.
      if text_eq (path_text path) (codes "/w/manifest.json")
      then some (record { id = some "p"; version = some "1" })
      else none;
  real_path = λ path. some (path_text path);
}

abbrev fresh : Resolver
fresh = record { cache = []; scanned = false }

abbrev plugin : ResolvedPlugin
plugin = record { plugin_root = codes "w" ∷ []; handler_path = codes "w" ∷ codes "h.js" ∷ [] }

resolve_tests :
    ((resolve_plugin files [] (codes "/w" ∷ []) "p" "./a/../h.js" fresh).1 ≡ ok plugin)
    × ((resolve_plugin files [] (codes "/w" ∷ []) "p" "../h.js" fresh).1
        ≡ err (path_traversal "../h.js"))
unfolding resolve_plugin lookup insert starts_with scanned_once scan scan_all scan_dir entries_of
    try_load_manifest entry_of entry_from is_full store found is_traversal normal_text relative_text
    ends_with_sep contains checked is_outside is_directory packages_of scan_entries scan_packages
    scan_sub normalize is_absolute enter_all parts joined_part enter joined reversed resolve
    path_text text_eq
resolve_tests = (refl, refl)

fresh-Scanned : Scanned [] (codes "/w" ∷ []) fresh
unfolding lookup
fresh-Scanned id e h = let bad : false ≡ true = cc in absurd (false≢true bad)

resolve_plugin_contained_example :
    IsAllowed [] (codes "/w" ∷ []) plugin.plugin_root
    × (is_traversal (codes "h.js") ≡ false)
    × ((root real : Text) × (files.real_path plugin.plugin_root ≡ some root)
        × (files.real_path plugin.handler_path ≡ some real)
        × Below root real)
    × Scanned [] (codes "/w" ∷ []) (resolve_plugin files [] (codes "/w" ∷ []) "p" "h.js" fresh).0
unfolding resolve_plugin lookup insert starts_with scanned_once scan scan_all scan_dir entries_of
    try_load_manifest entry_of entry_from is_full store found is_traversal normal_text relative_text
    ends_with_sep contains checked is_outside is_directory packages_of scan_entries scan_packages
    scan_sub normalize is_absolute enter_all parts joined_part enter joined reversed resolve
    path_text text_eq
resolve_plugin_contained_example =
    resolve_plugin_contained files [] (codes "/w" ∷ []) "p" "h.js" fresh plugin fresh-Scanned refl
