-- ===== src/Ndjson/Lines.antt =====
-- Cutting a text into lines, in one go and in pieces.
use kb_labs_host_agent.Common.{
  ℕ, ◌+◌, ◌≤◌, ◌≡◌, refl, ap, ◌∙◌, false, List, [], ◌∷◌, ◌++◌, arith, ◌==◌, Bool-cases, inl, inr,
  All,
}
use kb_labs_host_agent.Common.Text.{Text}
use kb_labs_host_agent.Ndjson.{cut, newline, byte_length, code_bytes, put}

pub byte_length-append : (a b : Text) → byte_length (a ++ b) ≡ byte_length a + byte_length b
unfolding byte_length
byte_length-append [] b = omega arith
byte_length-append (c ∷ a) b = omega (arith, byte_length-append a b)

put-byte_length :
    (c : ℕ) (ls : List Text) (r : Text) → byte_length (put c ls r).1 ≤ code_bytes c + byte_length r
unfolding put byte_length
put-byte_length c [] r = omega arith
put-byte_length c (l ∷ ls) r = omega arith

put-append :
    (c : ℕ) (ls : List Text) (r b : Text)
    → (c == newline) ≡ false
    → put c (ls ++ (cut (r ++ b)).0) (cut (r ++ b)).1
      ≡ ((put c ls r).0 ++ (cut ((put c ls r).1 ++ b)).0, (cut ((put c ls r).1 ++ b)).1)
unfolding put cut
put-append c [] r b h = rw h refl
put-append c (l ∷ ls) r b h = refl

-- What is left of a text takes no more bytes than the text.
pub cut-byte_length : (a : Text) → byte_length (cut a).1 ≤ byte_length a
unfolding cut byte_length
cut-byte_length [] = omega arith
cut-byte_length (c ∷ a) = elim (Bool-cases (c == newline)) [
  | inl end ↦ rw end (omega (arith, cut-byte_length a))
  | inr more ↦ rw more (omega (arith, cut-byte_length a, put-byte_length c (cut a).0 (cut a).1))
]

-- Cutting a text in two pieces: the second piece is cut with what the first left.
pub cut-append :
    (a b : Text) → cut (a ++ b) ≡ ((cut a).0 ++ (cut ((cut a).1 ++ b)).0, (cut ((cut a).1 ++ b)).1)
unfolding cut
cut-append [] b = refl
cut-append (c ∷ a) b = elim (Bool-cases (c == newline)) [
  | inl end ↦ rw end (ap (λ x. ([] ∷ x.0, x.1)) (cut-append a b))
  | inr more ↦
      rw more (ap (λ x. put c x.0 x.1) (cut-append a b) ∙ put-append c (cut a).0 (cut a).1 b more)
]

-- A line with its end is cut off.
pub cut-line :
    (l b : Text)
    → All (λ c. (c == newline) ≡ false) l
    → cut (l ++ (newline ∷ b)) ≡ (l ∷ (cut b).0, (cut b).1)
unfolding cut put
cut-line [] b h = refl
cut-line (c ∷ l) b (h, hs) = rw h (ap (λ x. put c x.0 x.1) (cut-line l b hs))

-- A line without its end: what the framer keeps.
abbrev pub IsPartial : Text → Type 0
IsPartial a = All (λ c. (c == newline) ≡ false) a

pub cut-partial : (a : Text) → IsPartial a → cut a ≡ ([], a)
unfolding cut put
cut-partial [] h = refl
cut-partial (c ∷ a) (h, hs) = rw h (ap (λ x. put c x.0 x.1) (cut-partial a hs))

put-IsPartial :
    (c : ℕ) (ls : List Text) (r : Text)
    → (c == newline) ≡ false
    → IsPartial r
    → IsPartial (put c ls r).1
unfolding put
put-IsPartial c [] r h hs = (h, hs)
put-IsPartial c (l ∷ ls) r h hs = hs

pub cut-IsPartial : (a : Text) → IsPartial (cut a).1
unfolding cut
cut-IsPartial [] = tt
cut-IsPartial (c ∷ a) = elim (Bool-cases (c == newline)) [
  | inl end ↦ rw end (cut-IsPartial a)
  | inr more ↦ rw more (put-IsPartial c (cut a).0 (cut a).1 more (cut-IsPartial a))
]
