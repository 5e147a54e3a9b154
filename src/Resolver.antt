-- ===== src/Resolver.antt =====
-- apps/host-agent-app/src/handlers/local-plugin-resolver.ts: the class `LocalPluginResolver`. The
-- file system is a record of what its calls give; a directory is the list of its parts.
pub mod Roots
pub mod Examples
use kb_labs_host_agent.Common.{
  ℕ, Bool, true, false, not, ◌&&◌, ◌||◌, String, Option, none, some, List, [], ◌∷◌, ◌++◌, str_eq,
  ◌==◌, map, if◌then◌else◌,
}
use kb_labs_host_agent.Common.Dict.{lookup, insert}
use kb_labs_host_agent.Common.Text.{Text, codes, starts_with}
use kb_labs_host_agent.Files.{sep, dot, up, text_eq, normalize, resolve, joined, path_text, parts}

pub record ManifestEntry : Type 0 where
  pub id : String
  pub version : String
  pub root : List Text

-- The fields of a manifest that is JSON; `none` where one is missing.
pub record Manifest : Type 0 where
  pub id : Option String
  pub version : Option String

pub record FileSystem : Type 0 where
  -- `readdir`; `none` where it rejects.
  pub read_dir : List Text → Option (List Text)
  -- `stat` and `isDirectory`; `none` where `stat` rejects.
  pub is_directory : List Text → Option Bool
  -- `readFile` and `JSON.parse`; `none` where one of them throws.
  pub read_manifest : List Text → Option Manifest
  -- `realpath`; `none` where it rejects.
  pub real_path : List Text → Option Text

abbrev pub Cache : Type 0
Cache = List (String × ManifestEntry)

pub record Resolver : Type 0 where
  pub cache : Cache
  pub scanned : Bool

pub record ResolvedPlugin : Type 0 where
  pub plugin_root : List Text
  pub handler_path : List Text

pub data Error : Type 0 where
  plugin_not_found path_traversal : String → Error
  handler_not_found escapes_root : List Text → Error
  rejected : Error

pub data Resolved : Type 0 where
  ok : ResolvedPlugin → Resolved
  err : Error → Resolved

-- An `id` and a `version` that are there and not empty.
unfoldable pub is_full : Option String → Option String → Option (String × String)
is_full (some id) (some version) =
    if str_eq id "" || str_eq version "" then none else some (id, version)
is_full _ _ = none

unfoldable pub entry_from : Option (String × String) → List Text → Option ManifestEntry
entry_from none dir = none
entry_from (some (id, version)) dir = some (record { id = id; version = version; root = dir })

unfoldable pub entry_of : Option Manifest → List Text → Option ManifestEntry
unfolding is_full
entry_of none dir = none
entry_of (some m) dir = entry_from (is_full m.id m.version) dir

-- `cache.set(id, entry)`, or the next file.
unfoldable pub store : Option ManifestEntry → Cache → Cache → Cache
store none cache next = next
store (some e) cache next = insert e.id e cache

-- `tryLoadManifest`: the first of the two files that is a manifest.
unfoldable pub try_load_manifest : FileSystem → List Text → Cache → Cache
unfolding entry_of store
try_load_manifest fs dir cache =
    store (entry_of (fs.read_manifest (dir ++ (codes "dist" ∷ codes "manifest.json" ∷ []))) dir)
      cache
      (store (entry_of (fs.read_manifest (dir ++ (codes "manifest.json" ∷ []))) dir) cache cache)

unfoldable pub is_directory : Option Bool → Bool
is_directory none = false
is_directory (some b) = b

-- The packages of a monorepo directory.
unfoldable pub scan_packages : FileSystem → List Text → List Text → Cache → Cache
unfolding is_directory
scan_packages fs dir [] cache = cache
scan_packages fs dir (e ∷ es) cache =
    let here = dir ++ (e ∷ []) in
    scan_packages fs dir es (
      if starts_with (codes ".") e || not (is_directory (fs.is_directory here))
      then cache
      else try_load_manifest fs here cache)

unfoldable pub packages_of : FileSystem → List Text → Option (List Text) → Cache → Cache
packages_of fs dir none cache = cache
packages_of fs dir (some es) cache = scan_packages fs dir es cache

-- One subdirectory, with its `packages`.
unfoldable pub scan_sub : FileSystem → List Text → Cache → Cache
unfolding packages_of
scan_sub fs here cache =
    let pkg = here ++ (codes "packages" ∷ []) in
    packages_of fs pkg (fs.read_dir pkg) (try_load_manifest fs here cache)

unfoldable pub scan_entries : FileSystem → List Text → List Text → Cache → Cache
unfolding is_directory
scan_entries fs dir [] cache = cache
scan_entries fs dir (e ∷ es) cache =
    let here = dir ++ (e ∷ []) in
    let skipped =
      starts_with (codes ".") e || text_eq e (codes "node_modules") || text_eq e (codes "dist") in
    scan_entries fs dir es (
      if skipped || not (is_directory (fs.is_directory here))
      then cache
      else scan_sub fs here cache)

unfoldable pub entries_of : FileSystem → List Text → Option (List Text) → Cache → Cache
entries_of fs dir none cache = cache
entries_of fs dir (some es) cache = scan_entries fs dir es cache

unfoldable pub scan_dir : FileSystem → List Text → Cache → Cache
unfolding entries_of
scan_dir fs dir cache = entries_of fs dir (fs.read_dir dir) (try_load_manifest fs dir cache)

-- `scan`, over the allowed paths.
unfoldable pub scan_all : FileSystem → List Text → List Text → Cache → Cache
scan_all fs cwd [] cache = cache
scan_all fs cwd (p ∷ ps) cache = scan_all fs cwd ps (scan_dir fs (resolve cwd p) cache)

unfoldable pub scan : FileSystem → List Text → List Text → Resolver → Resolver
scan fs cwd allowed r = record { cache = scan_all fs cwd allowed r.cache; scanned = true }

-- The first call scans.
unfoldable pub scanned_once : FileSystem → List Text → List Text → Resolver → Resolver
scanned_once fs cwd allowed r = if r.scanned then r else scan fs cwd allowed r

unfoldable pub list_plugins :
    FileSystem → List Text → List Text → Resolver → Resolver × List ManifestEntry
list_plugins fs cwd allowed r = let s = scanned_once fs cwd allowed r in (s, map (λ x. x.1) s.cache)

unfoldable pub rescan : FileSystem → List Text → List Text → Resolver → Resolver
rescan fs cwd allowed r = scan fs cwd allowed (record { cache = []; scanned = false })

unfoldable pub relative_text : List Text → Text
relative_text [] = dot ∷ []
relative_text (p ∷ ps) = p ++ joined ps

unfoldable pub ends_with_sep : Text → Bool
ends_with_sep [] = false
ends_with_sep (c ∷ []) = c == sep
ends_with_sep (c ∷ d ∷ s) = ends_with_sep (d ∷ s)

-- The text of a normalized path: a separator at the end of the path stays.
unfoldable pub normal_text : Text → Text
normal_text path =
    let (absolute, ps) = normalize path in
    (if absolute then path_text ps else relative_text ps)
    ++ (if ends_with_sep path then sep ∷ [] else [])

unfoldable pub contains : Text → Text → Bool
contains p [] = starts_with p []
contains p (c ∷ s) = starts_with p (c ∷ s) || contains p s

-- `normalized.startsWith('..') || normalized.includes('../')`.
unfoldable pub is_traversal : Text → Bool
is_traversal handler_ref =
    let normalized = normal_text handler_ref in
    starts_with up normalized || contains (up ++ (sep ∷ [])) normalized

-- `!realHandler.startsWith(realRoot + sep) && realHandler !== realRoot`.
unfoldable pub is_outside : (real_root real_handler : Text) → Bool
is_outside real_root real_handler =
    not (starts_with (real_root ++ (sep ∷ [])) real_handler) && not (text_eq real_handler real_root)

unfoldable pub checked : Option Text → Option Text → List Text → List Text → Resolved
checked (some real_handler) (some real_root) root path =
    if is_outside real_root real_handler
    then err (escapes_root path)
    else ok (record { plugin_root = root; handler_path = path })
checked _ _ root path = err rejected

unfoldable pub found : FileSystem → Option ManifestEntry → String → String → Resolved
unfolding checked
found fs none plugin_id handler_ref = err (plugin_not_found plugin_id)
found fs (some e) plugin_id handler_ref =
    let path = resolve e.root (codes handler_ref) in
    if is_traversal (codes handler_ref)
    then err (path_traversal handler_ref)
    else elim (fs.is_directory path) [
      | none ↦ err (handler_not_found path)
      | some d ↦ checked (fs.real_path path) (fs.real_path e.root) e.root path
    ]

-- `resolve`.
unfoldable pub resolve_plugin :
    FileSystem → List Text → List Text → String → String → Resolver → Resolver × Resolved
unfolding found
resolve_plugin fs cwd allowed plugin_id handler_ref r =
    let s = scanned_once fs cwd allowed r in
    (s, found fs (lookup plugin_id s.cache) plugin_id handler_ref)
