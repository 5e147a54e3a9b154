-- ===== src/Files/Search/Grep/Reads.antt =====
-- The shell reads the commands of a search as the words that they are meant to have.
use kb_labs_host_agent.Common.{
  ℕ, zero, suc, ◌+◌, Bool, true, false, ◌≡◌, refl, ap, sym, ◌∙◌, Option, none, some, List, [], ◌∷◌,
  ◌++◌, append-nil, subst,
}
use kb_labs_host_agent.Common.Text.{Text, codes, decimal}
use kb_labs_host_agent.Files.Search.{shell_escape, default_max_results}
use kb_labs_host_agent.Files.Search.Words.{
  Token, arg, pipe, gap, bare, read_from, next, in_word, is_bare, act, put_token, put_letter,
  finish, shell_words, all_bare, has_no_quote, bare-Ends, gap-bare, gap-shell_escape,
}
use kb_labs_host_agent.Files.Search.Grep.{
  GrepOptions, GlobOptions, default_excludes, or_default, include_flags, context_flag, operands,
  rg_front, grep_front, grep_command, glob_command,
}
use kb_labs_host_agent.Files.Search.Grep.Argv.{
  each, flag_word, context_words, operand_words, rg_words, grep_words, not_words, find_words,
  search_words, HasPlain, HasNoQuotes,
}
use kb_labs_host_agent.Files.Search.Grep.Pieces.{
  Reads, decimal-bare, decimal-filled, ends, space, escaped_word, plain_word, glob_not, glob_flag,
  include_flag, exclude_dir, not_path, flags-Reads,
}

-- Flags for texts that may be left out.
include_flags-Reads :
    (front : Text) (word : Text)
    (item : (x : Text)
      → has_no_quote x ≡ true
      → (rest : Text) (ts : List Token) → Reads rest ts
      → Reads ((front ++ (x ++ codes "'")) ++ (32 ∷ rest)) (flag_word word x ++ ts))
    (includes : Option (List Text))
    → HasNoQuotes includes
    → (rest : Text) (ts : List Token) → Reads rest ts
    → Reads
        (include_flags front includes ++ (32 ∷ rest))
        (each (flag_word word) (or_default includes []) ++ ts)
unfolding include_flags each
include_flags-Reads front word item none ok rest ts h = space rest ts h
include_flags-Reads front word item (some exts) ok rest ts h =
    flags-Reads front (codes "'") (flag_word word) (λ x. has_no_quote x ≡ true) item exts ok rest ts
      h

decimal-Reads :
    (n : ℕ) (rest : Text) (ts : List Token)
    → Reads rest ts
    → Reads (decimal n ++ (32 ∷ rest)) (arg (decimal n) ∷ ts)
decimal-Reads n rest ts h =
    let (d, s, filled) = decimal-filled n in
    subst (λ t. Reads (t ++ (32 ∷ rest)) (arg t ∷ ts)) (sym filled)
      (plain_word rest ts h d s (subst (λ t. all_bare t ≡ true) filled (decimal-bare n)))

plain_m : all_bare (codes "-m") ≡ true
unfolding all_bare is_bare
plain_m = refl

plain_c : all_bare (codes "-C") ≡ true
unfolding all_bare is_bare
plain_c = refl

context-Reads :
    (context : Option ℕ) (rest : Text) (ts : List Token)
    → Reads rest ts
    → Reads (context_flag context ++ (32 ∷ rest)) (context_words context ++ ts)
unfolding context_flag context_words
context-Reads none rest ts h = space rest ts h
context-Reads (some zero) rest ts h = space rest ts h
context-Reads (some (suc n)) rest ts h =
    plain_word (decimal (suc n) ++ (32 ∷ rest)) (arg (decimal (suc n)) ∷ ts)
      (decimal-Reads (suc n) rest ts h) 45 (67 ∷ []) plain_c

operands-Reads : (pattern dir : Text) → Reads (operands pattern dir) (operand_words pattern dir)
unfolding operands read_from next in_word is_bare act put_letter put_token finish
operands-Reads pattern dir =
    let last = gap-shell_escape [] [] [] dir refl ∙ ap (λ x. some (arg x ∷ [])) (append-nil dir) in
    let last' = ap (read_from gap) (sym (append-nil (shell_escape dir))) ∙ last in
    let both = escaped_word (shell_escape dir) (arg dir ∷ []) last' pattern in rw both refl

count-Reads :
    (n : ℕ) (rest : Text) (ts : List Token)
    → Reads rest ts
    → read_from bare (decimal n ++ (32 ∷ rest)) ≡ some (arg (decimal n) ∷ ts)
count-Reads n rest ts h =
    bare-Ends (32 ∷ rest) [] ts (decimal n) (decimal-bare n) (ends rest ts h)
    ∙ ap (λ x. some (arg x ∷ ts)) (append-nil (decimal n))

-- The end of a command is read behind a space as well as by itself.
abbrev behind_space : (pattern dir : Text) → Text
behind_space pattern dir = codes "-- " ++ (shell_escape pattern ++ (32 ∷ shell_escape dir))

behind-Reads : (pattern dir : Text) → Reads (behind_space pattern dir) (operand_words pattern dir)
unfolding operands read_from next act
behind-Reads pattern dir = operands-Reads pattern dir

rg-Reads :
    (options : GrepOptions) (pattern dir : Text)
    → HasPlain options.excludes
    → HasNoQuotes options.includes
    → Reads (rg_front options (operands pattern dir)) (rg_words options pattern dir)
unfolding rg_front rg_words operands read_from next in_word is_bare act put_letter put_token
rg-Reads options pattern dir plain free =
    let excludes = or_default options.excludes default_excludes in
    let context =
      context-Reads options.context_lines (behind_space pattern dir) _ (behind-Reads pattern dir) in
    let includes =
      include_flags-Reads (codes "--glob='") (codes "--glob=") (λ x f r ts h. glob_flag r ts h x f)
        options.includes free _ _ context in
    let excluded =
      flags-Reads (codes "--glob='!") (codes "'") (flag_word (codes "--glob=!"))
        (λ d. all_bare d ≡ true) (λ d p r ts h. glob_not r ts h d p) excludes plain _ _ includes in
    rw (count-Reads (or_default options.max_results default_max_results) _ _ excluded) refl

-- The end of a command of `grep`, from its limit on.
abbrev limited : ℕ → (pattern dir : Text) → Text
limited n pattern dir = codes "-m " ++ (decimal n ++ (32 ∷ behind_space pattern dir))

limited-Reads :
    (n : ℕ) (pattern dir : Text)
    → Reads (limited n pattern dir) (arg (codes "-m") ∷ arg (decimal n) ∷ operand_words pattern dir)
limited-Reads n pattern dir =
    plain_word (decimal n ++ (32 ∷ behind_space pattern dir)) _
      (decimal-Reads n (behind_space pattern dir) _ (behind-Reads pattern dir)) 45 (109 ∷ [])
      plain_m

grep-Reads :
    (options : GrepOptions) (pattern dir : Text)
    → HasPlain options.excludes
    → HasNoQuotes options.includes
    → Reads (grep_front options (operands pattern dir)) (grep_words options pattern dir)
unfolding grep_front grep_words operands read_from next in_word is_bare act put_letter put_token
grep-Reads options pattern dir plain free =
    let excludes = or_default options.excludes default_excludes in
    let n = or_default options.max_results default_max_results in
    let context =
      context-Reads options.context_lines (limited n pattern dir) _ (limited-Reads n pattern dir) in
    let includes =
      include_flags-Reads (codes "--include='") (codes "--include=")
        (λ x f r ts h. include_flag r ts h x f) options.includes free
        (context_flag options.context_lines ++ (32 ∷ limited n pattern dir)) _ context in
    let excluded =
      flags-Reads (codes "--exclude-dir=") [] (flag_word (codes "--exclude-dir="))
        (λ d. all_bare d ≡ true) (λ d p r ts h. exclude_dir r ts h d p) excludes plain
        (include_flags (codes "--include='") options.includes
          ++ (32 ∷ context_flag options.context_lines ++ (32 ∷ limited n pattern dir)))
        _ includes in
    rw excluded refl

bare_end : read_from bare [] ≡ some (arg [] ∷ [])
unfolding read_from finish
bare_end = refl

last_number : (n : ℕ) → Reads (decimal n) (arg (decimal n) ∷ [])
last_number n =
    let (d, s, filled) = decimal-filled n in
    let plain = subst (λ t. all_bare t ≡ true) filled (decimal-bare n) in
    subst (λ t. Reads t (arg t ∷ [])) (sym filled)
      (ap (λ t. read_from gap (d ∷ t)) (sym (append-nil s))
        ∙ gap-bare [] [] [] d s plain bare_end
        ∙ ap (λ t. some (arg (d ∷ t) ∷ [])) (append-nil s))

abbrev head_words : ℕ → List Token
head_words n = pipe ∷ arg (codes "head") ∷ arg (codes "-n") ∷ arg (decimal n) ∷ []

head-Reads : (n : ℕ) → Reads (codes "| head -n " ++ decimal n) (head_words n)
unfolding read_from next in_word is_bare act put_letter put_token
head-Reads n = rw (last_number n) refl

name-Reads :
    (pattern rest : Text) (ts : List Token)
    → Reads rest ts
    → Reads
        (codes "-type f -name " ++ (shell_escape pattern ++ (32 ∷ rest)))
        (arg (codes "-type") ∷ arg (codes "f") ∷ arg (codes "-name") ∷ arg pattern ∷ ts)
unfolding read_from next in_word is_bare act put_letter put_token
name-Reads pattern rest ts h = rw (escaped_word rest ts h pattern) refl

find-Reads :
    (options : GlobOptions) (pattern dir : Text)
    → HasPlain options.excludes
    → Reads (glob_command pattern dir options) (find_words options pattern dir)
unfolding glob_command find_words read_from next in_word is_bare act put_letter put_token
find-Reads options pattern dir plain =
    let n = or_default options.max_results default_max_results + 1 in
    let excluded =
      flags-Reads (codes "! -path \"*/") (codes "/*\"") not_words (λ d. all_bare d ≡ true)
        (λ d p r ts h. not_path r ts h d p) (or_default options.excludes default_excludes) plain
        (codes "| head -n " ++ decimal n) (head_words n) (head-Reads n) in
    rw (escaped_word _ _ (name-Reads pattern _ _ excluded) dir) refl

pub grep_command-words :
    (rg : Bool) (go : GrepOptions) (glo : GlobOptions) (pattern dir : Text)
    → HasPlain go.excludes
    → HasNoQuotes go.includes
    → shell_words (grep_command rg pattern dir go) ≡ some (search_words rg true go glo pattern dir)
unfolding shell_words search_words grep_command
grep_command-words true go glo pattern dir plain free = rg-Reads go pattern dir plain free
grep_command-words false go glo pattern dir plain free = grep-Reads go pattern dir plain free

pub glob_command-words :
    (rg : Bool) (go : GrepOptions) (glo : GlobOptions) (pattern dir : Text)
    → HasPlain glo.excludes
    → shell_words (glob_command pattern dir glo) ≡ some (search_words rg false go glo pattern dir)
unfolding shell_words search_words
glob_command-words rg go glo pattern dir plain = find-Reads glo pattern dir plain
