-- ===== src/Files/Search/Grep/Pieces.antt =====
-- How the shell reads the pieces that the commands of a search are made of.
use kb_labs_host_agent.Common.{
  ℕ, zero, suc, ◌+◌, ◌/◌, ◌%◌, true, ◌≡◌, refl, ap, ◌∙◌, some, List, [], ◌∷◌, ◌++◌, All, arith,
  append-nil, ltb, Bool-cases, inl, inr, ◌==◌, append_assoc, false, sym,
}
use kb_labs_host_agent.Common.Text.{Text, codes, digits, decimal}
use kb_labs_host_agent.Files.Search.{shell_escape, quote}
use kb_labs_host_agent.Files.Search.Words.{
  Token, arg, gap, bare, read_from, next, is_bare, act, put_token, all_bare, has_no_quote, gap-bare,
  gap-shell_escape, quoted, in_word, put_letter, quoted_free, double, double-bare,
}
use kb_labs_host_agent.Files.Search.Grep.{flags, spaced}
use kb_labs_host_agent.Files.Search.Grep.Argv.{each, flag_word, not_words}

all_bare-append : (a b : Text) → all_bare a ≡ true → all_bare b ≡ true → all_bare (a ++ b) ≡ true
unfolding all_bare
all_bare-append [] b h k = k
all_bare-append (c ∷ a) b h k = ground (arith, all_bare-append a b (ground arith) k)

digit-bare : (n : ℕ) → ltb n 10 ≡ true → all_bare ((48 + n) ∷ []) ≡ true
unfolding all_bare is_bare
digit-bare n h = ground arith

digits-bare : (fuel n : ℕ) → all_bare (digits fuel n) ≡ true
unfolding digits all_bare
digits-bare zero n = refl
digits-bare (suc fuel) n = elim (Bool-cases (ltb n 10)) [
  | inl small ↦ rw small (digit-bare n small)
  | inr large ↦ rw large (
      all_bare-append (digits fuel (n / 10)) _ (digits-bare fuel (n / 10))
        (digit-bare (n % 10) (ground arith)))
]

filled-append : (a : Text) (c : ℕ) → (d : ℕ) × (s : Text) × (a ++ (c ∷ []) ≡ d ∷ s)
filled-append [] c = (c, [], refl)
filled-append (d ∷ a) c = (d, a ++ (c ∷ []), refl)

pub decimal-bare : (n : ℕ) → all_bare (decimal n) ≡ true
unfolding decimal
decimal-bare n = digits-bare (suc n) n

pub decimal-filled : (n : ℕ) → (d : ℕ) × (s : Text) × (decimal n ≡ d ∷ s)
unfolding decimal digits
decimal-filled n = elim (Bool-cases (ltb n 10)) [
  | inl small ↦ (48 + n, [], rw small refl)
  | inr large ↦
      let (d, s, e) = filled-append (digits n (n / 10)) (48 + n % 10) in (d, s, rw large e)
]

all_bare-has_no_quote : (s : Text) → all_bare s ≡ true → has_no_quote s ≡ true
unfolding all_bare has_no_quote is_bare
all_bare-has_no_quote [] h = refl
all_bare-has_no_quote (c ∷ s) h =
    let other : (c == quote) ≡ false = ground arith in
    rw other (all_bare-has_no_quote s (ground arith))

-- What the shell reads from a place between two words.
abbrev pub Reads : Text → List Token → Type 0
Reads s ts = read_from gap s ≡ some ts

module _ (rest : Text) (ts : List Token) (h : Reads rest ts) where
  pub ends : read_from bare (32 ∷ rest) ≡ some (arg [] ∷ ts)
  unfolding read_from next act put_token
  ends = rw h refl

  pub space : Reads (32 ∷ rest) ts
  unfolding read_from next act
  space = h

  pub escaped_word : (s : Text) → Reads (shell_escape s ++ (32 ∷ rest)) (arg s ∷ ts)
  escaped_word s =
      gap-shell_escape (32 ∷ rest) [] ts s ends ∙ ap (λ x. some (arg x ∷ ts)) (append-nil s)

  pub plain_word :
      (c : ℕ) (s : Text)
      → all_bare (c ∷ s) ≡ true
      → Reads ((c ∷ s) ++ (32 ∷ rest)) (arg (c ∷ s) ∷ ts)
  plain_word c s plain =
      gap-bare (32 ∷ rest) [] ts c s plain ends ∙ ap (λ x. some (arg (c ∷ x) ∷ ts)) (append-nil s)

  -- The end of a text in quotes.
  quoted_end :
      (x : Text)
      → has_no_quote x ≡ true
      → read_from quoted ((x ++ codes "'") ++ (32 ∷ rest)) ≡ some (arg x ∷ ts)
  quoted_end x free =
      ap (read_from quoted) (append_assoc x (codes "'") (32 ∷ rest))
      ∙ quoted_free (32 ∷ rest) [] ts x free ends
      ∙ ap (λ y. some (arg y ∷ ts)) (append-nil x)

  pub glob_not :
      (d : Text)
      → all_bare d ≡ true
      → Reads
          ((codes "--glob='!" ++ (d ++ codes "'")) ++ (32 ∷ rest))
          (flag_word (codes "--glob=!") d ++ ts)
  unfolding read_from next in_word is_bare act put_letter
  glob_not d plain = rw (quoted_end d (all_bare-has_no_quote d plain)) refl

  pub glob_flag :
      (e : Text)
      → has_no_quote e ≡ true
      → Reads
          ((codes "--glob='" ++ (e ++ codes "'")) ++ (32 ∷ rest))
          (flag_word (codes "--glob=") e ++ ts)
  unfolding read_from next in_word is_bare act put_letter
  glob_flag e free = rw (quoted_end e free) refl

  pub include_flag :
      (e : Text)
      → has_no_quote e ≡ true
      → Reads
          ((codes "--include='" ++ (e ++ codes "'")) ++ (32 ∷ rest))
          (flag_word (codes "--include=") e ++ ts)
  unfolding read_from next in_word is_bare act put_letter
  include_flag e free = rw (quoted_end e free) refl

  pub exclude_dir :
      (d : Text)
      → all_bare d ≡ true
      → Reads
          ((codes "--exclude-dir=" ++ (d ++ [])) ++ (32 ∷ rest))
          (flag_word (codes "--exclude-dir=") d ++ ts)
  unfolding all_bare is_bare
  exclude_dir d plain =
      ap (λ y. read_from gap ((codes "--exclude-dir=" ++ y) ++ (32 ∷ rest))) (append-nil d)
      ∙ plain_word 45 (codes "-exclude-dir=" ++ d) plain

  pub not_path :
      (d : Text)
      → all_bare d ≡ true
      → Reads ((codes "! -path \"*/" ++ (d ++ codes "/*\"")) ++ (32 ∷ rest)) (not_words d ++ ts)
  unfolding read_from next in_word is_bare act put_letter put_token
  not_path d plain =
      let closing : read_from double (codes "/*\"" ++ (32 ∷ rest)) ≡ some (arg (codes "/*") ∷ ts) =
        rw h refl in
      let text =
        ap (read_from double) (append_assoc d (codes "/*\"") (32 ∷ rest))
        ∙ double-bare (32 ∷ rest) (codes "/*") ts d (codes "/*\"" ++ (32 ∷ rest)) plain closing in
      rw text refl

-- Flags with a space in between, each of which is read as its words.
module _ (front back : Text) (words : Text → List Token) (Ok : Text → Type 0)
    (item : (x : Text)
      → Ok x
      → (rest : Text) (ts : List Token) → Reads rest ts
      → Reads ((front ++ (x ++ back)) ++ (32 ∷ rest)) (words x ++ ts)) where
  pub flags-Reads :
      (xs : List Text)
      → All Ok xs
      → (rest : Text) (ts : List Token) → Reads rest ts
      → Reads (flags front back xs ++ (32 ∷ rest)) (each words xs ++ ts)
  unfolding flags spaced each
  flags-Reads [] ok rest ts h = space rest ts h
  flags-Reads (x ∷ []) (fine, ok) rest ts h =
      item x fine rest ts h ∙ ap (λ ws. some (ws ++ ts)) (sym (append-nil (words x)))
  flags-Reads (x ∷ y ∷ ys) (fine, ok) rest ts h =
      let later = flags-Reads (y ∷ ys) ok rest ts h in
      ap (read_from gap)
        (append_assoc (front ++ (x ++ back)) (32 ∷ flags front back (y ∷ ys)) (32 ∷ rest))
      ∙ item x fine (flags front back (y ∷ ys) ++ (32 ∷ rest)) (each words (y ∷ ys) ++ ts) later
      ∙ ap some (sym (append_assoc (words x) (each words (y ∷ ys)) ts))
