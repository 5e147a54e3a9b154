-- ===== src/Files/Search.antt =====
-- packages/host-agent-fs/src/search-handler.ts: of the class `SearchHandler`, how a text is quoted
-- for the shell, and what becomes of the lines that the commands print. The commands and
-- the lines of `grep` are in Files/Search/Grep.
pub mod Words
pub mod Grep
use kb_labs_host_agent.Common.{
  ℕ, zero, suc, ◌+◌, ◌≤◌, ◌<◌, min, Bool, true, false, ◌≡◌, refl, ap, sym, ◌∙◌, Option, none, some,
  List, [], ◌∷◌, ◌++◌, arith, ◌==◌, ltb, if◌then◌else◌, Bool-cases, inl, inr, ◌↔◌, length, ==_iff,
}
use kb_labs_host_agent.Common.Text.{Text}

abbrev pub quote : ℕ
quote = 39

abbrev pub backslash : ℕ
backslash = 92

-- `s.replace(/'/g, "'\\''")`.
unfoldable pub replaced : Text → Text
replaced [] = []
replaced (c ∷ s) =
    if c == quote then quote ∷ backslash ∷ quote ∷ quote ∷ replaced s else c ∷ replaced s

unfoldable pub shell_escape : Text → Text
shell_escape s = (quote ∷ replaced s) ++ (quote ∷ [])

abbrev pub default_max_results : ℕ
default_max_results = 100

pub record GlobResult : Type 0 where
  pub files : List Text
  pub truncated : Bool
  pub total_files : ℕ

unfoldable pub take {ℓ} : {A : Type ℓ} → ℕ → List A → List A
take zero xs = []
take (suc n) [] = []
take (suc n) (x ∷ xs) = x ∷ take n xs

-- `head -n n` prints no more than that of what `find` finds.
unfoldable pub glob_result : (max_results : ℕ) → (found : List Text) → GlobResult
glob_result max_results found =
    let files = take (suc max_results) found in
    let truncated = ltb max_results (length files) in
    record {
      files = if truncated then take max_results files else files;
      truncated = truncated;
      total_files = length files;
    }

length-take : (n : ℕ) (xs : List Text) → length (take n xs) ≡ min n (length xs)
unfolding take
length-take zero xs = ground arith
length-take (suc n) [] = ground arith
length-take (suc n) (x ∷ xs) = ground (arith, length-take n xs)

take-take : (n : ℕ) (xs : List Text) → take n (take (suc n) xs) ≡ take n xs
unfolding take
take-take zero xs = refl
take-take (suc n) [] = refl
take-take (suc n) (x ∷ xs) = ap (λ ys. x ∷ ys) (take-take n xs)

take_all : (n : ℕ) (xs : List Text) → length xs ≤ n → take n xs ≡ xs
unfolding take
take_all zero [] h = refl
take_all zero (x ∷ xs) h = ground arith
take_all (suc n) [] h = refl
take_all (suc n) (x ∷ xs) h = ap (λ ys. x ∷ ys) (take_all n xs (omega arith))

-- A search for files returns the first of those found, as many as it may, says that it left some
-- out exactly if it did, and as the total the number found, up to one more than it may return.
pub glob_result_lem :
    (n : ℕ) (found : List Text)
    → ((glob_result n found).files ≡ take n found)
      × (((glob_result n found).truncated ≡ true) ↔ (n < length found))
      × ((glob_result n found).total_files ≡ min (n + 1) (length found))
unfolding glob_result
glob_result_lem n found =
    let m = length-take (suc n) found in
    elim (Bool-cases (ltb n (length (take (suc n) found)))) [
      | inl more ↦ rw more (take-take n found, (λ e. ground arith, λ e. refl), ground arith)
      | inr all ↦ rw all (
        take_all (suc n) found (ground arith) ∙ sym (take_all n found (ground arith)),
        (λ e. cc, λ e. ground arith),
        ground arith,
      )
    ]
