-- ===== src/Files/Search/Grep/Lines.antt =====
-- Reading back the lines that `grep -n` and `rg --line-number` print.
use kb_labs_host_agent.Common.{
  ℕ, zero, suc, ◌+◌, ◌*◌, ◌/◌, ◌%◌, ◌≤◌, ◌<◌, Bool, true, false, ◌≡◌, refl, ap, ◌∙◌, Option, none,
  some, List, [], ◌∷◌, ◌++◌, append_assoc, map, arith, ◌==◌, ltb, length, All, if◌then◌else◌,
  Bool-cases, inl, inr, ◌↔◌, ◌-◌,
}
use kb_labs_host_agent.Common.Text.{digits, decimal, Text}
use kb_labs_host_agent.Files.Shell.Blocked.{is_line_end}
use kb_labs_host_agent.Files.Search.{take}
use kb_labs_host_agent.Files.Search.Grep.{
  GrepMatch, GrepResult, colon, is_digit, read_number, has_line_end, whole, read_tail, longer,
  first_end, read_match, add_match, matches_of, output_lines, grep_result, printed, gives,
  grep_after,
}

-- The line that is printed for a match.
abbrev pub print_match : GrepMatch → Text
print_match m = m.file ++ (colon ∷ (decimal m.line ++ (colon ∷ m.content)))

-- A name of which the letters are no line ends, and none but the first a colon.
abbrev pub IsName : Text → Type 0
IsName [] = ⊥
IsName (c ∷ cs) =
    (is_line_end c ≡ false) × All (λ d. (is_line_end d ≡ false) × ((d == colon) ≡ false)) cs

read_digit :
    (n : ℕ) (seen : Bool) (d : ℕ) (s : Text)
    → d < 10
    → read_number n seen ((48 + d) ∷ s) ≡ read_number (10 * n + d) true s
unfolding read_number is_digit
read_digit n seen d s h =
    let digit : is_digit (48 + d) ≡ true = ground arith in
    let back : 48 + d - 48 ≡ d = omega arith in rw (digit, back) refl

read_digits :
    (fuel n : ℕ) (s : Text)
    → n < fuel
    → read_number 0 false (digits fuel n ++ s) ≡ read_number n true s
unfolding digits
read_digits zero n s h = absurd (omega arith)
read_digits (suc fuel) n s h = elim (Bool-cases (ltb n 10)) [
  | inl small ↦ rw small (
      read_digit 0 false n s (ground arith)
      ∙ ap (λ k. read_number k true s) (let z : 10 * 0 + n ≡ n = omega arith in z))
  | inr large ↦
      let ih = read_digits fuel (n / 10) ((48 + n % 10) ∷ s) (ground arith) in
      let more : digits fuel (n / 10) ++ ((48 + n % 10) ∷ []) ++ s
          ≡ digits fuel (n / 10) ++ ((48 + n % 10) ∷ s) =
        append_assoc (digits fuel (n / 10)) ((48 + n % 10) ∷ []) s in
      let sum : 10 * (n / 10) + n % 10 ≡ n = omega arith in
      rw large (
        ap (read_number 0 false) more
        ∙ (ih
            ∙ (read_digit (n / 10) true (n % 10) s (omega arith)
                ∙ ap (λ k. read_number k true s) sum)))
]

read_colon : (n : ℕ) (s : Text) → read_number n true (colon ∷ s) ≡ some (n, s)
unfolding read_number is_digit
read_colon n s = refl

read_decimal : (n : ℕ) (s : Text) → read_number 0 false (decimal n ++ (colon ∷ s)) ≡ some (n, s)
unfolding decimal
read_decimal n s = read_digits (suc n) n (colon ∷ s) (omega arith) ∙ read_colon n s

number_rest :
    (n : ℕ) (seen : Bool) (s : Text) (k : ℕ) (r : Text)
    → read_number n seen s ≡ some (k, r)
    → has_line_end s ≡ true
    → has_line_end r ≡ true
unfolding read_number has_line_end
number_rest n seen [] k r e h = cc
number_rest n seen (c ∷ s) k r e h = elim (Bool-cases (is_digit c)) [
  | inl digit ↦
      number_rest (10 * n + (c - 48)) true s k r (ground arith)
        (unfold is_line_end is_digit in ground arith)
  | inr other ↦ unfold is_line_end is_digit in ground arith
]

whole-none :
    (o : Option (ℕ × Text))
    → ((k : ℕ) (r : Text) → o ≡ some (k, r) → has_line_end r ≡ true)
    → whole o ≡ none
unfolding whole
whole-none none h = refl
whole-none (some (k, r)) h = rw (h k r refl) refl

tail-none : (s : Text) → has_line_end s ≡ true → read_tail s ≡ none
unfolding read_tail has_line_end
tail-none [] h = refl
tail-none (c ∷ s) h = elim (Bool-cases (c == colon)) [
  | inl at ↦
      let rest : has_line_end s ≡ true = unfold is_line_end in ground arith in
      rw at (whole-none (read_number 0 false s) (λ k r e. number_rest 0 false s k r e rest))
  | inr other ↦ rw other refl
]

-- A line with a carriage return, or another line end, anywhere is not read.
pub read_match-line_end : (s : Text) → has_line_end s ≡ true → read_match s ≡ none
unfolding read_match has_line_end
read_match-line_end [] h = refl
read_match-line_end (c ∷ s) h = elim (Bool-cases (is_line_end c)) [
  | inl at ↦ rw at refl
  | inr other ↦
      let later : has_line_end s ≡ true = ground arith in
      rw (other, tail-none s later, read_match-line_end s later) (unfold first_end longer in refl)
]

printed_tail :
    (n : ℕ) (content : Text)
    → has_line_end content ≡ false
    → read_tail (colon ∷ (decimal n ++ (colon ∷ content))) ≡ some (n, content)
unfolding read_tail
printed_tail n content clean = ap whole (read_decimal n content) ∙ (unfold whole in rw clean refl)

other_tail : (d : ℕ) (s : Text) → (d == colon) ≡ false → read_tail (d ∷ s) ≡ none
unfolding read_tail
other_tail d s h = rw h refl

grown :
    (c : ℕ) (m : GrepMatch) (later : Option GrepMatch)
    → later ≡ some m
    → first_end c none later ≡ some (record m { file = c ∷ m.file })
unfolding first_end longer
grown c m later e = ap (longer c) e

ended :
    (c n : ℕ) (content : Text) (later : Option GrepMatch)
    → first_end c (some (n, content)) later
      ≡ some (record { file = c ∷ []; line = n; content = content })
unfolding first_end
ended c n content later = refl

-- A line that is printed for a match, without a line end in it, gives the match.
read_match-print :
    (file : Text) (n : ℕ) (content : Text)
    → IsName file
    → has_line_end content ≡ false
    → read_match (print_match (record { file = file; line = n; content = content }))
      ≡ some (record { file = file; line = n; content = content })
unfolding read_match
read_match-print [] n content h clean = absurd h
read_match-print (c ∷ []) n content (h, _) clean =
    rw (h, printed_tail n content clean) (ended c n content _)
read_match-print (c ∷ d ∷ cs) n content (h, ((hd, bare), hs)) clean =
    let ih = read_match-print (d ∷ cs) n content (hd, hs) clean in
    let rest = cs ++ (colon ∷ (decimal n ++ (colon ∷ content))) in
    rw h (
      ap (λ t. first_end c t (read_match (d ∷ rest))) (other_tail d rest bare)
      ∙ grown c _ (read_match (d ∷ rest)) ih)

line_end_back : (a b : Text) → has_line_end b ≡ true → has_line_end (a ++ b) ≡ true
unfolding has_line_end
line_end_back [] b h = h
line_end_back (c ∷ a) b h = ground (arith, line_end_back a b h)

colon_line_end : (s : Text) → has_line_end s ≡ true → has_line_end (colon ∷ s) ≡ true
unfolding has_line_end is_line_end
colon_line_end s h = h

print-line_end :
    (m : GrepMatch) → has_line_end m.content ≡ true → has_line_end (print_match m) ≡ true
print-line_end m h = line_end_back m.file (colon ∷ (decimal m.line ++ (colon ∷ m.content))) (
    colon_line_end (decimal m.line ++ (colon ∷ m.content))
      (line_end_back (decimal m.line) (colon ∷ m.content) (colon_line_end m.content h)))

-- The matches that have no line end in their content.
unfoldable pub readable : List GrepMatch → List GrepMatch
readable [] = []
readable (m ∷ ms) = if has_line_end m.content then readable ms else m ∷ readable ms

matches_of-print :
    (ms : List GrepMatch)
    → All (λ m. IsName m.file) ms
    → matches_of (map print_match ms) ≡ readable ms
unfolding matches_of readable add_match
matches_of-print [] h = refl
matches_of-print (m ∷ ms) (h, hs) = elim (Bool-cases (has_line_end m.content)) [
  | inl bad ↦
      rw (bad, read_match-line_end (print_match m) (print-line_end m bad)) (matches_of-print ms hs)
  | inr clean ↦
      rw (clean, read_match-print m.file m.line m.content h clean)
        (ap (λ xs. m ∷ xs) (matches_of-print ms hs))
]

-- Where the lines of the output are those of matches, as `grep -n` prints them, the search gives
-- those matches, in order and cut to the bound, except that each match with a carriage return or
-- another line end in its content is missing, as each is in a file with the line ends of Windows
-- but the last one, whose line end is trimmed. The total counts what is not missing, and the
-- result says that it was cut also where there are just as many as the bound. No file name has a
-- line end, or a colon behind its first letter.
pub grep_after_lem :
    (max_results : ℕ) (stdout : Text) (ms : List GrepMatch)
    → output_lines stdout ≡ map print_match ms
    → All (λ m. IsName m.file) ms
    → (r : GrepResult) × (grep_after max_results (printed stdout) ≡ gives r)
      × (r.matches ≡ take max_results (readable ms))
      × (r.total_matches ≡ length (readable ms))
      × ((r.truncated ≡ true) ↔ (max_results ≤ length (readable ms)))
unfolding grep_after grep_result
grep_after_lem max_results stdout ms lines names =
    let found : matches_of (output_lines stdout) ≡ readable ms =
      ap matches_of lines ∙ matches_of-print ms names in
    (
      grep_result max_results (readable ms),
      ap (λ xs. gives (grep_result max_results xs)) found,
      refl,
      refl,
      (λ e. ground arith, λ h. ground arith),
    )
