-- ===== src/Files/Search/Words.antt =====
-- How a POSIX shell takes a command apart: words and pipes. Only what the commands of
-- packages/host-agent-fs/src/search-handler.ts are made of is read: a command with any other sign
-- that means something to the shell, outside of quotes, is not read at all.
use kb_labs_host_agent.Common.{
  ℕ, Bool, true, false, ◌&&◌, ◌||◌, ◌≡◌, refl, ap, ◌∙◌, Option, none, some, List, [], ◌∷◌, ◌++◌,
  ◌==◌, leb, if◌then◌else◌, Bool-cases, inl, inr, arith, append_assoc, ==_iff, sym,
}
use kb_labs_host_agent.Common.Text.{Text}
use kb_labs_host_agent.Files.Search.{quote, backslash, replaced, shell_escape}

pub data Token : Type 0 where
  arg : Text → Token
  pipe : Token

-- Between words, in a word outside of quotes, in quotes of both kinds, and behind a backslash or a
-- pipe.
pub data Mode : Type 0 where
  gap bare quoted double escaped piped : Mode

pub data Act : Type 0 where
  keeps adds ends pipes fails : Act

-- The signs that stand for themselves.
unfoldable pub is_bare : ℕ → Bool
is_bare c =
    (leb b'a' c && leb c b'z')
    || (leb b'A' c && leb c b'Z')
    || (leb b'0' c && leb c b'9')
    || (c == b'-')
    || (c == b'_')
    || (c == b'.')
    || (c == b'/')
    || (c == b'=')
    || (c == b'!')

-- In a word, outside of quotes.
unfoldable pub in_word : ℕ → Mode × Act
in_word c =
    if is_bare c
    then (bare, adds)
    else if c == quote
    then (quoted, keeps)
    else if c == 34
    then (double, keeps)
    else if c == backslash
    then (escaped, keeps)
    else (gap, fails)

unfoldable pub next : Mode → ℕ → Mode × Act
unfolding in_word
next gap c = if c == 32 then (gap, keeps) else if c == 124 then (piped, pipes) else in_word c
next bare c = if c == 32 then (gap, ends) else in_word c
next quoted c = if c == quote then (bare, keeps) else (quoted, adds)
next double c =
    if c == 34
    then (bare, keeps)
    else if (c == 36) || (c == 96) || (c == backslash)
    then (gap, fails)
    else (double, adds)
next escaped c = if c == 10 then (gap, fails) else (bare, adds)
next piped c = if c == 32 then (gap, keeps) else (gap, fails)

unfoldable pub put_letter : ℕ → Option (List Token) → Option (List Token)
put_letter c (some (arg w ∷ ts)) = some (arg (c ∷ w) ∷ ts)
put_letter c _ = none

unfoldable pub put_token : Token → Option (List Token) → Option (List Token)
put_token t none = none
put_token t (some ts) = some (t ∷ ts)

unfoldable pub act : Act → ℕ → Option (List Token) → Option (List Token)
unfolding put_letter put_token
act keeps c r = r
act adds c r = put_letter c r
act ends c r = put_token (arg []) r
act pipes c r = put_token pipe r
act fails c r = none

unfoldable pub finish : Mode → Option (List Token)
finish gap = some []
finish bare = some (arg [] ∷ [])
finish _ = none

unfoldable pub read_from : Mode → Text → Option (List Token)
unfolding finish act next
read_from m [] = finish m
read_from m (c ∷ s) = act (next m c).1 c (read_from (next m c).0 s)

-- The words and pipes of a command.
unfoldable pub shell_words : Text → Option (List Token)
shell_words command = read_from gap command

unfoldable pub all_bare : Text → Bool
all_bare [] = true
all_bare (c ∷ s) = is_bare c && all_bare s

unfoldable pub has_no_quote : Text → Bool
has_no_quote [] = true
has_no_quote (c ∷ s) = if c == quote then false else has_no_quote s

module _ (rest : Text) (w : Text) (ts : List Token) where
  -- What is behind a piece of a word ends the word with `w`.
  abbrev pub Ends : Type 0
  Ends = read_from bare rest ≡ some (arg w ∷ ts)

  pub bare-Ends :
      (s : Text) → all_bare s ≡ true → Ends → read_from bare (s ++ rest) ≡ some (arg (s ++ w) ∷ ts)
  unfolding read_from all_bare next in_word act put_letter is_bare
  bare-Ends [] plain h = h
  bare-Ends (c ∷ s) plain h =
      let same : next bare c ≡ (bare, adds) = ground arith in
      rw (same, bare-Ends s (ground arith) h) refl

  pub gap-bare :
      (c : ℕ) (s : Text)
      → all_bare (c ∷ s) ≡ true
      → Ends
      → read_from gap ((c ∷ s) ++ rest) ≡ some (arg ((c ∷ s) ++ w) ∷ ts)
  unfolding read_from all_bare next in_word act put_letter is_bare
  gap-bare c s plain h =
      let same : next gap c ≡ (bare, adds) = ground arith in
      rw (same, bare-Ends s (ground arith) h) refl

  pub double-bare :
      (s back : Text)
      → all_bare s ≡ true
      → read_from double back ≡ some (arg w ∷ ts)
      → read_from double (s ++ back) ≡ some (arg (s ++ w) ∷ ts)
  unfolding read_from all_bare next act put_letter is_bare
  double-bare [] back plain h = h
  double-bare (c ∷ s) back plain h =
      let same : next double c ≡ (double, adds) = ground arith in
      rw (same, double-bare s back (ground arith) h) refl

  pub quoted_free :
      (s : Text)
      → has_no_quote s ≡ true
      → Ends
      → read_from quoted (s ++ (quote ∷ rest)) ≡ some (arg (s ++ w) ∷ ts)
  unfolding read_from has_no_quote next act put_letter
  quoted_free [] free h = h
  quoted_free (c ∷ s) free h =
      let other : (c == quote) ≡ false = ground arith in
      rw (other, quoted_free s (rw other at free) h) refl

  read_quoted :
      (c : ℕ) (t : Text)
      → (c == quote) ≡ false
      → read_from quoted (c ∷ t) ≡ put_letter c (read_from quoted t)
  unfolding read_from next act
  read_quoted c t other = rw other refl

  pub quoted-replaced :
      (s : Text) → Ends → read_from quoted (replaced s ++ (quote ∷ rest)) ≡ some (arg (s ++ w) ∷ ts)
  unfolding read_from replaced next in_word act put_letter is_bare
  quoted-replaced [] h = h
  quoted-replaced (c ∷ s) h = elim (Bool-cases (c == quote)) [
    | inl at ↦
        let here = (==_iff c quote).0 at in
        rw (at, quoted-replaced s h) (ap (λ x. some (arg (x ∷ s ++ w) ∷ ts)) (sym here))
    | inr other ↦ rw other (
        read_quoted c (replaced s ++ (quote ∷ rest)) other
        ∙ ap (put_letter c) (quoted-replaced s h))
  ]

  -- A quoted text is read as that text.
  pub gap-shell_escape :
      (s : Text) → Ends → read_from gap (shell_escape s ++ rest) ≡ some (arg (s ++ w) ∷ ts)
  unfolding read_from shell_escape next in_word act is_bare
  gap-shell_escape s h =
      ap (read_from quoted) (append_assoc (replaced s) (quote ∷ []) rest) ∙ quoted-replaced s h
