-- ===== src/Files.antt =====
-- packages/host-agent-fs/src: `validatePath` and `argString`, which the handlers of the package
-- share word for word, on the POSIX paths of `node:path`. The handlers are in Files/Filesystem,
-- Files/Shell and Files/Search.
pub mod Parts
pub mod Paths
pub mod Filesystem
pub mod Shell
pub mod Search
pub mod Workspace
pub mod Examples
use kb_labs_host_agent.Common.{
  ℕ, zero, suc, Bool, true, false, not, ◌&&◌, ◌||◌, String, Option, none, some, List, [], ◌∷◌, ◌++◌,
  str_eq, ◌==◌, if◌then◌else◌, suc,
}
use kb_labs_host_agent.Common.Json.{Json, str}
use kb_labs_host_agent.Common.Text.{Text, codes, starts_with}

abbrev pub sep : ℕ
sep = 47

abbrev pub dot : ℕ
dot = 46

unfoldable pub text_eq : Text → Text → Bool
text_eq [] [] = true
text_eq (c ∷ s) (d ∷ t) = c == d && text_eq s t
text_eq _ _ = false

unfoldable pub joined_part : ℕ → List Text → List Text
joined_part c [] = (c ∷ []) ∷ []
joined_part c (p ∷ ps) = (c ∷ p) ∷ ps

-- The parts of a path between its separators.
unfoldable pub parts : Text → List Text
unfolding joined_part
parts [] = [] ∷ []
parts (c ∷ cs) = let more = parts cs in if c == sep then [] ∷ more else joined_part c more

unfoldable pub is_absolute : Text → Bool
is_absolute [] = false
is_absolute (c ∷ cs) = c == sep

abbrev pub up : Text
up = dot ∷ dot ∷ []

-- One part after those before it, the last first: an absolute path has nothing above its root.
unfoldable pub enter : (absolute : Bool) → List Text → Text → List Text
enter absolute stack part =
    if text_eq part [] || text_eq part (dot ∷ [])
    then stack
    else if not (text_eq part up)
    then part ∷ stack
    else elim stack [
      | [] ↦ if absolute then [] else up ∷ []
      | top ∷ rest ↦ if text_eq top up then up ∷ top ∷ rest else rest
    ]

unfoldable pub enter_all : Bool → List Text → List Text → List Text
enter_all absolute stack [] = stack
enter_all absolute stack (p ∷ ps) = enter_all absolute (enter absolute stack p) ps

unfoldable pub reversed : List Text → List Text → List Text
reversed [] done = done
reversed (p ∷ ps) done = reversed ps (p ∷ done)

-- `normalize`, as far as `resolve` looks at it: whether it is absolute, and its parts.
unfoldable pub normalize : Text → Bool × List Text
normalize path = (is_absolute path, reversed (enter_all (is_absolute path) [] (parts path)) [])

-- `resolve(normalize(path))` in the working directory `cwd`: the parts of an absolute path.
unfoldable pub resolve : (cwd : List Text) → Text → List Text
resolve cwd path =
    let (absolute, ps) = normalize path in
    reversed (if absolute then enter_all true [] ps else enter_all true (enter_all true [] cwd) ps)
      []

-- The text of an absolute path.
unfoldable pub joined : List Text → Text
joined [] = []
joined (p ∷ ps) = (sep ∷ p) ++ joined ps

unfoldable pub path_text : List Text → Text
path_text [] = sep ∷ []
path_text (p ∷ ps) = joined (p ∷ ps)

-- `resolved === base || resolved.startsWith(base + sep)`.
unfoldable pub is_below : (base resolved : Text) → Bool
is_below base resolved = text_eq resolved base || starts_with (base ++ (sep ∷ [])) resolved

unfoldable pub is_some_below : (cwd : List Text) → List Text → Text → Bool
is_some_below cwd [] resolved = false
is_some_below cwd (p ∷ ps) resolved =
    is_below (path_text (resolve cwd p)) resolved || is_some_below cwd ps resolved

-- `validatePath`: the resolved path, or `none` where it throws `Access denied`.
unfoldable pub validate_path : (cwd : List Text) → (allowed_paths : List Text) → Text → Option Text
validate_path cwd allowed_paths path =
    let resolved = path_text (resolve cwd path) in
    if is_some_below cwd allowed_paths resolved then some resolved else none

unfoldable pub nth : List Json → ℕ → Option Json
nth [] n = none
nth (a ∷ as_) zero = some a
nth (a ∷ as_) (suc n) = nth as_ n

unfoldable pub filled : Option Json → Option String
filled (some (str s)) = if str_eq s "" then none else some s
filled _ = none

-- `argString`: `none` where it throws.
unfoldable pub arg_string : List Json → ℕ → Option String
unfolding filled
arg_string args index = filled (nth args index)
