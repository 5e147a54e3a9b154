-- ===== src/Files/Search/Grep/Calls.antt =====
-- What the commands of a search run, and where they look.
use kb_labs_host_agent.Common.{
  Bool, ◌≡◌, ap, sym, ◌∙◌, inl, inr, String, some, List, str_eq, All, Bool-cases, Option-cases,
  subst,
}
use kb_labs_host_agent.Common.Json.{Json}
use kb_labs_host_agent.Common.Text.{Text, codes}
use kb_labs_host_agent.Files.{validate_path, arg_string}
use kb_labs_host_agent.Files.Parts.{HasNoSep}
use kb_labs_host_agent.Files.Paths.{validate_path_contains}
use kb_labs_host_agent.Files.Shell.{IsInside}
use kb_labs_host_agent.Files.Search.Words.{shell_words}
use kb_labs_host_agent.Files.Search.Grep.{
  GrepOptions, GlobOptions, runs, in_dir, with_args, handle, grep_command, glob_command,
}
use kb_labs_host_agent.Files.Search.Grep.Argv.{search_words, HasPlain, HasNoQuotes}
use kb_labs_host_agent.Files.Search.Grep.Reads.{grep_command-words, glob_command-words}

-- Options whose texts the shell takes as they are: in a text to exclude only letters, digits and the
-- signs `-_./=!`, and in a text to include no quote.
abbrev pub AreSafe : GrepOptions → GlobOptions → Type 0
AreSafe go glo = HasPlain go.excludes × HasNoQuotes go.includes × HasPlain glo.excludes

-- A command that the shell reads as one `rg`, `grep` or `find` in an allowed directory, that of its
-- call, for the pattern of its call, with the flags of its options and no other word; behind a
-- `find`, its output goes through `head`.
abbrev pub IsConfined :
    (cwd allowed : List Text)
    → Bool
    → String
    → List Json
    → GrepOptions
    → GlobOptions
    → Text
    → Type 0
IsConfined cwd allowed rg method args go glo command =
    (pattern : String) × (directory : String) × (dir : Text) × (arg_string args 0 ≡ some pattern)
    × (arg_string args 1 ≡ some directory)
    × (validate_path cwd allowed (codes directory) ≡ some dir)
    × IsInside cwd allowed dir
    × (shell_words command
        ≡ some (search_words rg (str_eq method "grep") go glo (codes pattern) dir))

module _ (cwd allowed : List Text) (rg : Bool) (c : All HasNoSep cwd) where
  with_args-IsConfined :
      (method : String) (args : List Json) (go : GrepOptions) (glo : GlobOptions)
      (build : Text → Text → Text) (command : Text)
      → ((pattern dir : Text)
          → shell_words (build pattern dir)
            ≡ some (search_words rg (str_eq method "grep") go glo pattern dir))
      → with_args cwd allowed rg (arg_string args 0) (arg_string args 1) build ≡ runs command
      → IsConfined cwd allowed rg method args go glo command
  unfolding with_args in_dir
  with_args-IsConfined method args go glo build command looks e =
      elim (Option-cases (arg_string args 0)) [
        | inl no_pattern ↦
            let bad =
              subst (λ o. with_args cwd allowed rg o (arg_string args 1) build ≡ runs command)
                no_pattern e in
            cc
        | inr (pattern, given) ↦ elim (Option-cases (arg_string args 1)) [
          | inl no_dir ↦
              let step =
                subst (λ o. with_args cwd allowed rg o (arg_string args 1) build ≡ runs command)
                  given e in
              let bad =
                subst (λ o. with_args cwd allowed rg (some pattern) o build ≡ runs command) no_dir
                  step in
              cc
          | inr (directory, given') ↦
              let step =
                subst (λ o. with_args cwd allowed rg o (arg_string args 1) build ≡ runs command)
                  given e in
              let step' =
                subst (λ o. with_args cwd allowed rg (some pattern) o build ≡ runs command) given'
                  step in
              elim (Option-cases (validate_path cwd allowed (codes directory))) [
                | inl denied ↦
                    let bad =
                      subst
                        (λ o.
                          in_dir cwd allowed rg o directory (build (codes pattern)) ≡ runs command)
                        denied step' in
                    cc
                | inr (dir, ok) ↦
                    let ran =
                      subst
                        (λ o.
                          in_dir cwd allowed rg o directory (build (codes pattern)) ≡ runs command)
                        ok step' in
                    let same : build (codes pattern) dir ≡ command = cc in
                    (
                      pattern,
                      directory,
                      dir,
                      given,
                      given',
                      ok,
                      validate_path_contains cwd allowed (codes directory) dir c ok,
                      ap shell_words (sym same) ∙ looks (codes pattern) dir,
                    )
              ]
        ]
      ]

  -- Every command that a search runs, of `grep` or of `glob`, is read by a POSIX shell as the
  -- command that it is meant to be, and as nothing more: one `rg`, `grep` or `find`, whose words
  -- are the flags of the options of the call, the pattern of the call and the directory of the
  -- call, which is an allowed path or lies below one; in `grep` the last two stand behind `--`, and
  -- a `find` is followed by a pipe into `head` alone. Pattern and directory may have whatever
  -- signs. It is required that the texts to exclude, which are put into the command without quotes
  -- or in double ones, are made of letters, digits and the signs `-_./=!`, as those by default are,
  -- that the texts to include have no quote in them, and that the counts are natural numbers:
  -- options are not checked, and with others the shell can be made to run anything.
  pub search_contained :
      (method : String) (args : List Json) (grep_options : GrepOptions) (glob_options : GlobOptions)
      (command : Text)
      → AreSafe grep_options glob_options
      → handle cwd allowed rg method args grep_options glob_options ≡ runs command
      → IsConfined cwd allowed rg method args grep_options glob_options command
  unfolding handle
  search_contained method args go glo command (plain, free, plain') e =
      elim (Bool-cases (str_eq method "grep")) [
        | inl grep ↦
            with_args-IsConfined method args go glo (λ pattern dir. grep_command rg pattern dir go)
              command
              (λ pattern dir.
                grep_command-words rg go glo pattern dir plain free
                ∙ ap (λ b. some (search_words rg b go glo pattern dir)) (sym grep))
              (rw grep at e)
        | inr other ↦ elim (Bool-cases (str_eq method "glob")) [
          | inl glob ↦
              with_args-IsConfined method args go glo (λ pattern dir. glob_command pattern dir glo)
                command
                (λ pattern dir.
                  glob_command-words rg go glo pattern dir plain'
                  ∙ ap (λ b. some (search_words rg b go glo pattern dir)) (sym other))
                (rw (other, glob) at e)
          | inr unknown ↦ let bad = rw (other, unknown) at e in cc
        ]
      ]
