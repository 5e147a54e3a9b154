-- ===== src/Files/Search/Grep/Examples.antt =====
-- Tests of the search, and its theorems at concrete inputs.
use kb_labs_host_agent.Common.{
  ◌≤◌, true, false, ◌≡◌, refl, ◌↔◌, none, some, List, [], ◌∷◌, ◌++◌, length,
}
use kb_labs_host_agent.Common.Json.{str}
use kb_labs_host_agent.Common.Text.{
  digits, decimal, Text, codes, trim, trim_start, trim_end, is_space, starts_with,
}
use kb_labs_host_agent.Ndjson.{cut}
use kb_labs_host_agent.Files.{
  arg_string, nth, filled, validate_path, is_some_below, is_below, text_eq, path_text, resolve,
  reversed, normalize, is_absolute, enter_all, parts, enter, joined,
}
use kb_labs_host_agent.Files.Shell.Blocked.{is_line_end}
use kb_labs_host_agent.Files.Search.{take, shell_escape, replaced}
use kb_labs_host_agent.Files.Search.Grep.{
  GrepMatch, GrepResult, GrepOptions, GlobOptions, spaced, flags, include_flags, context_flag,
  operands, rg_front, grep_front, grep_command, glob_command, read_match, output_lines,
  filled_lines, grep_after, printed, gives, failed, throws_again, is_digit, read_number,
  has_line_end, whole, read_tail, longer, first_end, handle, with_args, in_dir,
}
use kb_labs_host_agent.Files.Search.Words.{
  shell_words, read_from, next, in_word, is_bare, act, put_letter, put_token, finish, arg, pipe,
  all_bare, has_no_quote,
}
use kb_labs_host_agent.Files.Search.Grep.Lines.{grep_after_lem, readable}
use kb_labs_host_agent.Files.Search.Grep.Calls.{search_contained, IsConfined}

abbrev options : GrepOptions
options = record {
  includes = some (codes "*.ts" ∷ []);
  excludes = some (codes "dist" ∷ codes "x" ∷ []);
  max_results = none;
  context_lines = some 2;
}

abbrev glob_options : GlobOptions
glob_options = record { excludes = some (codes "dist" ∷ []); max_results = some 5 }

command_tests :
    (grep_command true (codes "a'b") (codes "/w") options
      ≡ codes
          "rg --no-heading --line-number --max-count=100 --glob='!dist' --glob='!x' --glob='*.ts' -C 2 -- 'a'\\''b' '/w'")
    × (grep_command false (codes "a") (codes "/w") options
        ≡ codes
            "grep -rn --exclude-dir=dist --exclude-dir=x --include='*.ts' -C 2 -m 100 -- 'a' '/w'")
    × (glob_command (codes "*.md") (codes "/w") glob_options
        ≡ codes "find '/w' -type f -name '*.md' ! -path \"*/dist/*\" | head -n 6")
unfolding grep_command glob_command operands rg_front grep_front flags include_flags context_flag
    spaced decimal digits shell_escape replaced
command_tests = (refl, refl, refl)

-- Quotes of both kinds, a protected sign, a pipe; and a sign that the shell would act on.
word_tests :
    (shell_words (codes "ls 'a b'\\''c' \"d e\"f | head")
      ≡ some (
          arg (codes "ls")
          ∷ arg (codes "a b'c")
          ∷ arg (codes "d ef")
          ∷ pipe
          ∷ arg (codes "head")
          ∷ []))
    × (shell_words (codes "ls x; cat") ≡ none)
    × (shell_words (codes "ls 'x") ≡ none)
unfolding shell_words read_from next in_word is_bare act put_letter put_token finish
word_tests = (refl, refl, refl)

-- A text to exclude that is not safe makes another command.
unsafe_exclude :
    shell_words (
      grep_command false
        (codes "a")
        (codes "/w")
        (record options { excludes = some (codes "x; ls" ∷ []) }))
    ≡ none
unfolding shell_words read_from next in_word is_bare act put_letter put_token finish grep_command
    operands grep_front flags include_flags context_flag spaced decimal digits shell_escape replaced
unsafe_exclude = refl

read_tests :
    (read_match (codes "a:b:12:x:3:y")
      ≡ some (record { file = codes "a:b"; line = 12; content = codes "x:3:y" }))
    × (read_match (codes ":7:") ≡ none)
    × (read_match (codes "a-7-x") ≡ none)
unfolding read_match read_tail read_number is_digit whole has_line_end is_line_end first_end longer
read_tests = (refl, refl, refl)

after_tests :
    (grep_after 9 (failed (some 1))
      ≡ gives (record { matches = []; truncated = false; total_matches = 0 }))
    × (grep_after 9 (failed (some 2)) ≡ throws_again)
unfolding grep_after
after_tests = (refl, refl)

-- The second of these matches is in a file with the line ends of Windows.
abbrev ms : List GrepMatch
ms =
    record { file = codes "f"; line = 3; content = codes "x" }
    ∷ record { file = codes "g"; line = 10; content = 121 ∷ 13 ∷ [] }
    ∷ record { file = codes "h"; line = 4; content = codes "z" }
    ∷ []

abbrev stdout : Text
stdout = codes "f:3:x" ++ (10 ∷ codes "g:10:y" ++ (13 ∷ 10 ∷ codes "h:4:z" ++ (10 ∷ [])))

grep_after_lem_example :
    (r : GrepResult) × (grep_after 2 (printed stdout) ≡ gives r)
    × (r.matches ≡ take 2 (readable ms))
    × (r.total_matches ≡ length (readable ms))
    × ((r.truncated ≡ true) ↔ (2 ≤ length (readable ms)))
unfolding output_lines filled_lines cut trim trim_start trim_end is_space decimal digits is_line_end
grep_after_lem_example =
    grep_after_lem 2 stdout ms refl ((refl, tt), ((refl, tt), ((refl, tt), tt)))

abbrev cwd : List Text
cwd = codes "w" ∷ []

abbrev command : Text
command = grep_command true (codes "a") (codes "/w/src") options

search_contained_example :
    IsConfined cwd
      (codes "/w" ∷ [])
      true
      "grep"
      (str "a" ∷ str "src" ∷ [])
      options
      glob_options
      command
unfolding all_bare is_bare has_no_quote handle with_args in_dir arg_string nth filled validate_path
    is_some_below is_below text_eq path_text resolve reversed normalize is_absolute enter_all parts
    enter joined starts_with
search_contained_example =
    search_contained cwd (codes "/w" ∷ []) true ((refl, tt), tt) "grep" (str "a" ∷ str "src" ∷ [])
      options glob_options command ((refl, (refl, tt)), (refl, tt), (refl, tt)) refl
