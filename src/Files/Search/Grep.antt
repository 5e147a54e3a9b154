-- ===== src/Files/Search/Grep.antt =====
-- packages/host-agent-fs/src/search-handler.ts: the commands of `grep` and `glob`, what their output
-- becomes, and `handle`. What `execSync` makes of a command is an argument, and so is whether
-- `rg` is installed.
pub mod Lines
pub mod Argv
pub mod Pieces
pub mod Reads
pub mod Calls
pub mod Examples
use kb_labs_host_agent.Common.{
  ℕ, zero, suc, ◌+◌, ◌-◌, ◌*◌, ◌/◌, ◌%◌, Bool, true, false, ◌&&◌, ◌||◌, not, String, Option, none,
  some, List, [], ◌∷◌, ◌++◌, map, ◌==◌, leb, ltb, length, str_eq, if◌then◌else◌,
}
use kb_labs_host_agent.Common.Json.{Json}
use kb_labs_host_agent.Common.Text.{Text, codes, trim, decimal}
use kb_labs_host_agent.Ndjson.{cut}
use kb_labs_host_agent.Files.{validate_path, arg_string}
use kb_labs_host_agent.Files.Shell.Blocked.{is_line_end}
use kb_labs_host_agent.Files.Search.{
  shell_escape, default_max_results, take, GlobResult, glob_result,
}

pub record GrepMatch : Type 0 where
  pub file : Text
  pub line : ℕ
  pub content : Text

pub record GrepResult : Type 0 where
  pub matches : List GrepMatch
  pub truncated : Bool
  pub total_matches : ℕ

pub record GrepOptions : Type 0 where
  pub includes : Option (List Text)
  pub excludes : Option (List Text)
  pub max_results : Option ℕ
  pub context_lines : Option ℕ

pub record GlobOptions : Type 0 where
  pub excludes : Option (List Text)
  pub max_results : Option ℕ

abbrev pub default_excludes : List Text
default_excludes =
    codes "node_modules"
    ∷ codes ".git"
    ∷ codes "dist"
    ∷ codes ".next"
    ∷ codes ".kb/cache"
    ∷ codes ".kb/runtime"
    ∷ []

abbrev pub or_default {ℓ} : {A : Type ℓ} → Option A → A → A
or_default none d = d
or_default (some a) d = a

-- `join(' ')`.
unfoldable pub spaced : List Text → Text
spaced [] = []
spaced (w ∷ []) = w
spaced (w ∷ v ∷ ws) = w ++ (32 ∷ spaced (v ∷ ws))

-- `--glob='${ext}'`, and so on: what stands before and behind each text.
unfoldable pub flags : (front back : Text) → List Text → Text
flags front back xs = spaced (map (λ x. front ++ (x ++ back)) xs)

unfoldable pub include_flags : (front : Text) → Option (List Text) → Text
include_flags front none = []
include_flags front (some exts) = flags front (codes "'") exts

-- No context lines, and none of them asked for, give no flag.
unfoldable pub context_flag : Option ℕ → Text
context_flag none = []
context_flag (some zero) = []
context_flag (some (suc n)) = codes "-C " ++ decimal (suc n)

-- The end of both commands of `grep`; the parts before it take what follows them.
unfoldable pub operands : (pattern dir : Text) → Text
operands pattern dir = codes " -- " ++ (shell_escape pattern ++ (32 ∷ shell_escape dir))

unfoldable pub rg_front : GrepOptions → (rest : Text) → Text
rg_front options rest =
    codes "rg --no-heading --line-number --max-count="
    ++ (decimal (or_default options.max_results default_max_results)
        ++ (32
              ∷ flags (codes "--glob='!") (codes "'") (or_default options.excludes default_excludes)
            ++ (32 ∷ include_flags (codes "--glob='") options.includes
                ++ (32 ∷ context_flag options.context_lines ++ rest))))

unfoldable pub grep_front : GrepOptions → (rest : Text) → Text
grep_front options rest =
    codes "grep -rn "
    ++ (flags (codes "--exclude-dir=") [] (or_default options.excludes default_excludes)
        ++ (32 ∷ include_flags (codes "--include='") options.includes
            ++ (32 ∷ context_flag options.context_lines
                ++ (codes " -m "
                    ++ (decimal (or_default options.max_results default_max_results) ++ rest)))))

unfoldable pub grep_command : (has_ripgrep : Bool) → (pattern dir : Text) → GrepOptions → Text
grep_command has_ripgrep pattern dir options =
    if has_ripgrep
    then rg_front options (operands pattern dir)
    else grep_front options (operands pattern dir)

unfoldable pub glob_command : (pattern dir : Text) → GlobOptions → Text
glob_command pattern dir options =
    codes "find "
    ++ (shell_escape dir
        ++ (codes " -type f -name "
            ++ (shell_escape pattern
                ++ (32
                      ∷ flags (codes "! -path \"*/") (codes "/*\"")
                          (or_default options.excludes default_excludes)
                    ++ (codes " | head -n "
                        ++ decimal (or_default options.max_results default_max_results + 1))))))

abbrev pub colon : ℕ
colon = 58

unfoldable pub is_digit : ℕ → Bool
is_digit c = leb 48 c && leb c 57

-- `(\d+):`, with the number so far, and whether there is one; and what follows.
unfoldable pub read_number : ℕ → Bool → Text → Option (ℕ × Text)
read_number n seen [] = none
read_number n seen (c ∷ s) =
    let more = read_number (10 * n + (c - 48)) true s in
    if is_digit c then more else if (c == colon) && seen then some (n, s) else none

unfoldable pub has_line_end : Text → Bool
has_line_end [] = false
has_line_end (c ∷ s) = is_line_end c || has_line_end s

-- `(.*)$`.
unfoldable pub whole : Option (ℕ × Text) → Option (ℕ × Text)
whole none = none
whole (some (n, content)) = if has_line_end content then none else some (n, content)

-- `:(\d+):(.*)$`.
unfoldable pub read_tail : Text → Option (ℕ × Text)
read_tail [] = none
read_tail (c ∷ s) = if c == colon then whole (read_number 0 false s) else none

unfoldable pub longer : ℕ → Option GrepMatch → Option GrepMatch
longer c none = none
longer c (some m) = some (record m { file = c ∷ m.file })

unfoldable pub first_end : ℕ → Option (ℕ × Text) → Option GrepMatch → Option GrepMatch
first_end c (some (n, content)) later = some (record { file = c ∷ []; line = n; content = content })
first_end c none later = longer c later

-- `^(.+?):(\d+):(.*)$` on a line: the file is the shortest that fits. The number is `parseInt`.
unfoldable pub read_match : Text → Option GrepMatch
read_match [] = none
read_match (c ∷ s) =
    let later = read_match s in if is_line_end c then none else first_end c (read_tail s) later

unfoldable pub add_match : Option GrepMatch → List GrepMatch → List GrepMatch
add_match none ms = ms
add_match (some m) ms = m ∷ ms

-- The loop over the lines.
unfoldable pub matches_of : List Text → List GrepMatch
matches_of [] = []
matches_of (l ∷ ls) = add_match (read_match l) (matches_of ls)

-- `filter(Boolean)`.
unfoldable pub filled_lines : List Text → List Text
filled_lines [] = []
filled_lines ([] ∷ ls) = filled_lines ls
filled_lines ((c ∷ l) ∷ ls) = (c ∷ l) ∷ filled_lines ls

-- `stdout.trim().split('\n').filter(Boolean)`.
unfoldable pub output_lines : Text → List Text
output_lines stdout = let (lines, last) = cut (trim stdout) in filled_lines (lines ++ (last ∷ []))

unfoldable pub grep_result : (max_results : ℕ) → List GrepMatch → GrepResult
grep_result max_results ms = record {
  matches = take max_results ms;
  truncated = leb max_results (length ms);
  total_matches = length ms;
}

-- What `execSync` returns or throws, with its `status` if there is one.
pub data Executed : Type 0 where
  printed : Text → Executed
  failed : Option ℕ → Executed

pub data Grepped : Type 0 where
  gives : GrepResult → Grepped
  throws_again : Grepped

-- A command that fails with status 1 has found nothing.
unfoldable pub grep_after : ℕ → Executed → Grepped
grep_after max_results (printed stdout) =
    gives (grep_result max_results (matches_of (output_lines stdout)))
grep_after max_results (failed (some status)) =
    if status == 1
    then gives (record { matches = []; truncated = false; total_matches = 0 })
    else throws_again
grep_after max_results (failed none) = throws_again

-- The result of `glob` from the lines that its command printed; a failure is no error.
unfoldable pub glob_after : ℕ → Executed → GlobResult
glob_after max_results (printed stdout) = glob_result max_results (output_lines stdout)
glob_after max_results (failed status) = record { files = []; truncated = false; total_files = 0 }

pub data Error : Type 0 where
  unknown_method : String → Error
  no_string : (index : ℕ) → Error
  access_denied : (path : String) → Error

pub data Call : Type 0 where
  throws : Error → Call
  runs : (command : Text) → Call

module _ (cwd allowed_paths : List Text) (has_ripgrep : Bool) where
  unfoldable pub in_dir : Option Text → String → (Text → Text) → Call
  in_dir none directory command = throws (access_denied directory)
  in_dir (some dir) directory command = runs (command dir)

  -- The arguments are read in their order, and then the directory is checked.
  unfoldable pub with_args :
      Option String → Option String → (pattern_command : Text → Text → Text) → Call
  with_args none directory command = throws (no_string 0)
  with_args (some pattern) none command = throws (no_string 1)
  with_args (some pattern) (some directory) command =
      in_dir (validate_path cwd allowed_paths (codes directory)) directory (command (codes pattern))

  unfoldable pub handle : String → List Json → GrepOptions → GlobOptions → Call
  handle method args grep_options glob_options =
      if str_eq method "grep"
      then with_args (arg_string args 0) (arg_string args 1)
          (λ pattern dir. grep_command has_ripgrep pattern dir grep_options)
      else if str_eq method "glob"
      then with_args (arg_string args 0) (arg_string args 1)
          (λ pattern dir. glob_command pattern dir glob_options)
      else throws (unknown_method method)
