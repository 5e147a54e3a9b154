-- ===== src/Files/Examples.antt =====
-- Tests of the file handlers, and their theorems at concrete inputs.
use kb_labs_host_agent.Common.{true, false, ◌↔◌, ◌≡◌, refl, none, some, List, [], ◌∷◌}
use kb_labs_host_agent.Common.Json.{str}
use kb_labs_host_agent.Common.Text.{starts_with, Text, codes}
use kb_labs_host_agent.Files.{
  arg_string, nth, filled, joined_part, joined, enter, parts, enter_all, is_absolute, normalize,
  reversed, resolve, text_eq, is_below, is_some_below, validate_path, path_text,
}
use kb_labs_host_agent.Files.Filesystem.{
  handle, handle-IsContained, IsContained, asks, read_file, throws, access_denied, no_string,
  answers_false, unknown_method,
}
use kb_labs_host_agent.Files.Shell.Blocked.{
  is_blocked, some_test, test, matches_at, is_line_end, Pattern, blocked_commands,
}
use kb_labs_host_agent.Files.Shell.Blocked.Occurs.{Occurs, is_blocked_iff}
use kb_labs_host_agent.Common.Text.{is_space}
use mathlib.Core.List.{Memᴰ}
use kb_labs_host_agent.Files.Shell.{default_cwd, cwd_of, exec, exec_contained, IsInside, Run}

abbrev cwd : List Text
cwd = codes "w" ∷ []

abbrev allowed : List Text
allowed = codes "/home/user" ∷ codes "sub" ∷ []

validate_tests :
    (validate_path cwd allowed (codes "/home/user/a//./b/../c/") ≡ some (codes "/home/user/a/c"))
    × (validate_path cwd allowed (codes "/home/user") ≡ some (codes "/home/user"))
    × (validate_path cwd allowed (codes "/home/user2/a") ≡ none)
    × (validate_path cwd allowed (codes "/home/user/../x") ≡ none)
    × (validate_path cwd allowed (codes "sub/x") ≡ some (codes "/w/sub/x"))
    × (validate_path cwd (codes "/" ∷ []) (codes "/etc") ≡ none)
unfolding validate_path is_some_below is_below text_eq path_text resolve reversed normalize
    is_absolute enter_all parts enter joined starts_with
validate_tests = (refl, refl, refl, refl, refl, refl)

handle_tests :
    (handle cwd allowed "readFile" (str "/home/user/a" ∷ [])
      ≡ asks (read_file (codes "/home/user/a")))
    × (handle cwd allowed "readFile" (str "/etc" ∷ []) ≡ throws (access_denied "/etc"))
    × (handle cwd allowed "writeFile" (str "/home/user/a" ∷ []) ≡ throws (no_string 1))
    × (handle cwd allowed "exists" (str "/etc" ∷ []) ≡ answers_false)
    × (handle cwd allowed "unlink" [] ≡ throws (unknown_method "unlink"))
unfolding handle arg_string nth filled validate_path is_some_below is_below text_eq path_text
    resolve reversed normalize is_absolute enter_all parts joined_part enter joined starts_with
handle_tests = (refl, refl, refl, refl, refl)

handle-IsContained_example :
    IsContained cwd allowed (handle cwd allowed "readFile" (str "/home/user/a" ∷ []))
handle-IsContained_example =
    handle-IsContained cwd allowed ((refl, tt), tt) "readFile" (str "/home/user/a" ∷ [])

blocked_tests :
    (is_blocked (codes "sudo rm  -rf  /tmp") ≡ true)
    × (is_blocked (codes ":(){ :|:& };:") ≡ true)
    × (is_blocked (codes "rm -fr /") ≡ false)
    × (is_blocked (codes "rm -r -f /") ≡ false)
    × (is_blocked (codes "ls -l") ≡ false)
unfolding is_blocked some_test test matches_at is_space is_line_end
blocked_tests = (refl, refl, refl, refl, refl)

abbrev run : Run
run = record { command = "ls"; cwd = codes "/home/user"; timeout = 30_000; env = none }

exec_contained_example :
    (run.command ≡ "ls")
    × ((p : Pattern) → Memᴰ p blocked_commands → ¬ Occurs p (codes "ls"))
    × IsInside cwd allowed run.cwd
unfolding exec cwd_of default_cwd path_text resolve reversed normalize is_absolute enter_all parts
    enter text_eq joined is_blocked some_test test matches_at
exec_contained_example =
    exec_contained cwd 47 (codes "home/user") (codes "sub" ∷ []) "ls"
      (record { cwd = none; timeout_ms = none; env = none }) run ((refl, tt), tt) refl

is_blocked_iff_example :
    (is_blocked (codes "mkfs.ext4") ≡ true)
    ↔ ((p : Pattern) × Memᴰ p blocked_commands × Occurs p (codes "mkfs.ext4"))
is_blocked_iff_example = is_blocked_iff (codes "mkfs.ext4")
