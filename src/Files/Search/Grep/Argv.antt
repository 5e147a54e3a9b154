-- ===== src/Files/Search/Grep/Argv.antt =====
-- The words that the commands of a search are meant to have, one by one.
use kb_labs_host_agent.Common.{
  ℕ, zero, suc, ◌+◌, true, ◌≡◌, Option, none, some, List, [], ◌∷◌, ◌++◌, All, false, Bool,
}
use kb_labs_host_agent.Common.Text.{Text, codes, decimal}
use kb_labs_host_agent.Files.Search.{default_max_results}
use kb_labs_host_agent.Files.Search.Words.{Token, arg, pipe, all_bare, has_no_quote}
use kb_labs_host_agent.Files.Search.Grep.{GrepOptions, GlobOptions, default_excludes, or_default}

unfoldable pub each : (Text → List Token) → List Text → List Token
each words [] = []
each words (x ∷ xs) = words x ++ each words xs

-- One word with a text at its end.
abbrev pub flag_word : (front x : Text) → List Token
flag_word front x = arg (front ++ x) ∷ []

unfoldable pub context_words : Option ℕ → List Token
context_words none = []
context_words (some zero) = []
context_words (some (suc n)) = arg (codes "-C") ∷ arg (decimal (suc n)) ∷ []

abbrev pub operand_words : (pattern dir : Text) → List Token
operand_words pattern dir = arg (codes "--") ∷ arg pattern ∷ arg dir ∷ []

unfoldable pub rg_words : GrepOptions → (pattern dir : Text) → List Token
rg_words options pattern dir =
    arg (codes "rg")
    ∷ arg (codes "--no-heading")
    ∷ arg (codes "--line-number")
    ∷ arg (codes "--max-count=" ++ decimal (or_default options.max_results default_max_results))
    ∷ (each (flag_word (codes "--glob=!")) (or_default options.excludes default_excludes)
        ++ (each (flag_word (codes "--glob=")) (or_default options.includes [])
            ++ (context_words options.context_lines ++ operand_words pattern dir)))

unfoldable pub grep_words : GrepOptions → (pattern dir : Text) → List Token
grep_words options pattern dir =
    arg (codes "grep")
    ∷ arg (codes "-rn")
    ∷ (each (flag_word (codes "--exclude-dir=")) (or_default options.excludes default_excludes)
        ++ (each (flag_word (codes "--include=")) (or_default options.includes [])
            ++ (context_words options.context_lines
                ++ (arg (codes "-m")
                    ∷ arg (decimal (or_default options.max_results default_max_results))
                    ∷ operand_words pattern dir))))

abbrev pub not_words : Text → List Token
not_words d = arg (codes "!") ∷ arg (codes "-path") ∷ arg (codes "*/" ++ (d ++ codes "/*")) ∷ []

unfoldable pub find_words : GlobOptions → (pattern dir : Text) → List Token
find_words options pattern dir =
    arg (codes "find")
    ∷ arg dir
    ∷ arg (codes "-type")
    ∷ arg (codes "f")
    ∷ arg (codes "-name")
    ∷ arg pattern
    ∷ (each not_words (or_default options.excludes default_excludes)
        ++ (pipe
            ∷ arg (codes "head")
            ∷ arg (codes "-n")
            ∷ arg (decimal (or_default options.max_results default_max_results + 1))
            ∷ []))

-- Options that are safe in a command.
abbrev pub HasPlain : Option (List Text) → Type 0
HasPlain excludes = All (λ d. all_bare d ≡ true) (or_default excludes default_excludes)

abbrev pub HasNoQuotes : Option (List Text) → Type 0
HasNoQuotes includes = All (λ e. has_no_quote e ≡ true) (or_default includes [])

-- The words that a command of `grep`, by either program, or of `glob` is meant to have.
unfoldable pub search_words :
    Bool → (is_grep : Bool) → GrepOptions → GlobOptions → (pattern dir : Text) → List Token
search_words true true go glo pattern dir = rg_words go pattern dir
search_words false true go glo pattern dir = grep_words go pattern dir
search_words rg false go glo pattern dir = find_words glo pattern dir
