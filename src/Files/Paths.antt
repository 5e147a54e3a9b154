-- ===== src/Files/Paths.antt =====
-- What the path check lets through.
use kb_labs_host_agent.Common.{
  ◌⊎◌, ℕ, true, ◌≡◌, ◌≢◌, refl, ap, sym, ◌∙◌, subst, none, some, List, [], ◌∷◌, ◌++◌, arith, ◌==◌,
  ==_iff, Bool-cases, inl, inr, All, append_assoc, append-nil, ◌⊎◌,
}
use kb_labs_host_agent.Common.Text.{Text, starts_with}
use kb_labs_host_agent.Files.{
  sep, text_eq, resolve, joined, path_text, is_below, is_some_below, validate_path,
}
use kb_labs_host_agent.Files.Parts.{text_eq_sound, IsPlain, HasNoSep, resolve-IsPlain}

-- The parts of one path in front of those of another: the second is the first, or below it.
abbrev pub IsBelow : List Text → List Text → Type 0
IsBelow base ps = (rest : List Text) × (ps ≡ base ++ rest)

-- Two texts that go on with a separator, or end.
same_part :
    (p q x y : Text)
    → HasNoSep p
    → HasNoSep q
    → starts_with (p ++ (sep ∷ x)) (q ++ y) ≡ true
    → (y ≡ []) ⊎ ((z : Text) × (y ≡ sep ∷ z))
    → (p ≡ q) × (starts_with (sep ∷ x) y ≡ true)
unfolding starts_with
same_part [] [] x y h k s e = (refl, s)
same_part [] (d ∷ q) x y h (other, ks) s e = ground arith
same_part (c ∷ p) [] x y (other, hs) k s e = elim e [
  | inl end ↦ let none_left = subst (λ v. starts_with (c ∷ (p ++ (sep ∷ x))) v ≡ true) end s in cc
  | inr (z, more) ↦
      let at = subst (λ v. starts_with (c ∷ (p ++ (sep ∷ x))) v ≡ true) more s in ground arith
]
same_part (c ∷ p) (d ∷ q) x y (h, hs) (k, ks) s e =
    let both : ((c == d) ≡ true) × (starts_with (p ++ (sep ∷ x)) (q ++ y) ≡ true) = ground arith in
    let (same, more) = same_part p q x y hs ks both.1 e in
    let first = (==_iff c d).0 both.0 in (cc, more)

joined-end : (ps : List Text) → (joined ps ≡ []) ⊎ ((z : Text) × (joined ps ≡ sep ∷ z))
unfolding joined
joined-end [] = inl refl
joined-end (p ∷ ps) = inr (p ++ joined ps, refl)

joined_tail : (ps : List Text) → (x : Text) × (joined ps ++ (sep ∷ []) ≡ sep ∷ x)
unfolding joined
joined_tail [] = ([], refl)
joined_tail (p ∷ ps) = ((p ++ joined ps) ++ (sep ∷ []), refl)

-- A base in front, with its separator, is a base whose parts come first.
joined_sound :
    (base ps : List Text)
    → All HasNoSep base
    → All HasNoSep ps
    → starts_with (joined base ++ (sep ∷ [])) (joined ps) ≡ true
    → IsBelow base ps
unfolding joined starts_with
joined_sound [] ps h k s = (ps, refl)
joined_sound (b ∷ base) [] h k s = cc
joined_sound (b ∷ base) (p ∷ ps) (h, hs) (k, ks) s =
    let (x, tail) = joined_tail base in
    let there : starts_with (b ++ (sep ∷ x)) (p ++ joined ps) ≡ true =
      ap (λ v. starts_with v (p ++ joined ps))
        (ap (λ t. b ++ t) (sym tail) ∙ sym (append_assoc b (joined base) (sep ∷ [])))
      ∙ s in
    let (same, more) = same_part b p x (joined ps) h k there (joined-end ps) in
    let (rest, split) =
      joined_sound base ps hs ks (ap (λ v. starts_with v (joined ps)) tail ∙ more) in
    (rest, cc)

append_cancel : (q a b : Text) → q ++ a ≡ q ++ b → a ≡ b
append_cancel [] a b e = e
append_cancel (c ∷ q) a b e = append_cancel q a b cc

append-ne-nil : (a : Text) (c : ℕ) → a ++ (c ∷ []) ≢ []
append-ne-nil [] c e = cc
append-ne-nil (d ∷ a) c e = cc

starts_with_self : (s : Text) → starts_with s s ≡ true
unfolding starts_with
starts_with_self [] = refl
starts_with_self (c ∷ s) = ground (arith, starts_with_self s)

joined_injective :
    (ps qs : List Text)
    → All HasNoSep ps
    → All HasNoSep qs
    → joined ps ++ (sep ∷ []) ≡ joined qs ++ (sep ∷ [])
    → ps ≡ qs
unfolding joined
joined_injective [] [] h k e = refl
joined_injective [] (q ∷ qs) h k e = elim (append-ne-nil (q ++ joined qs) sep cc) [ ]
joined_injective (p ∷ ps) [] h k e = elim (append-ne-nil (p ++ joined ps) sep cc) [ ]
joined_injective (p ∷ ps) (q ∷ qs) (h, hs) (k, ks) e =
    let (x, tailx) = joined_tail ps in
    let (y, taily) = joined_tail qs in
    let inner : (p ++ joined ps) ++ (sep ∷ []) ≡ (q ++ joined qs) ++ (sep ∷ []) = cc in
    let both : p ++ (joined ps ++ (sep ∷ [])) ≡ q ++ (joined qs ++ (sep ∷ [])) =
      sym (append_assoc p (joined ps) (sep ∷ [])) ∙ inner ∙ append_assoc q (joined qs) (sep ∷ []) in
    let starts : starts_with (p ++ (sep ∷ x)) (q ++ (joined qs ++ (sep ∷ []))) ≡ true =
      ap (λ v. starts_with (p ++ v) (q ++ (joined qs ++ (sep ∷ [])))) (sym tailx)
      ∙ ap (λ v. starts_with v (q ++ (joined qs ++ (sep ∷ [])))) both
      ∙ starts_with_self (q ++ (joined qs ++ (sep ∷ []))) in
    let (same, more) = same_part p q x (joined qs ++ (sep ∷ [])) h k starts (inr (y, taily)) in
    let rest =
      append_cancel q (joined ps ++ (sep ∷ [])) (joined qs ++ (sep ∷ []))
        (ap (λ v. v ++ (joined ps ++ (sep ∷ []))) (sym same) ∙ both) in
    let others = joined_injective ps qs hs ks rest in cc

plain-HasNoSep : (ps : List Text) → All IsPlain ps → All HasNoSep ps
plain-HasNoSep [] h = tt
plain-HasNoSep (p ∷ ps) (h, hs) = (h.whole, plain-HasNoSep ps hs)

path_text_injective :
    (ps qs : List Text) → All IsPlain ps → All IsPlain qs → path_text ps ≡ path_text qs → ps ≡ qs
unfolding path_text joined
path_text_injective [] [] h k e = refl
path_text_injective [] ([] ∷ qs) h (k, ks) e = let bad = k.filled in unfold text_eq in cc
path_text_injective [] ((c ∷ q) ∷ qs) h k e = cc
path_text_injective ([] ∷ ps) [] (h, hs) k e = let bad = h.filled in unfold text_eq in cc
path_text_injective ((c ∷ p) ∷ ps) [] h k e = cc
path_text_injective (p ∷ ps) (q ∷ qs) h k e =
    joined_injective (p ∷ ps) (q ∷ qs) (plain-HasNoSep (p ∷ ps) h) (plain-HasNoSep (q ∷ qs) k)
      (ap (λ v. v ++ (sep ∷ [])) e)

starts_with-nil : (s : Text) → starts_with s [] ≡ true → s ≡ []
unfolding starts_with
starts_with-nil [] h = refl
starts_with-nil (c ∷ s) h = cc

starts-IsBelow :
    (base ps : List Text)
    → All IsPlain base
    → All IsPlain ps
    → starts_with (path_text base ++ (sep ∷ [])) (path_text ps) ≡ true
    → IsBelow base ps
unfolding path_text joined starts_with
starts-IsBelow [] ps h k s = (ps, refl)
starts-IsBelow (b ∷ base) (p ∷ ps) h k s =
    joined_sound (b ∷ base) (p ∷ ps) (plain-HasNoSep (b ∷ base) h) (plain-HasNoSep (p ∷ ps) k) s
starts-IsBelow (b ∷ base) [] (h, hs) k s =
    elim (append-ne-nil (b ++ joined base) sep
      (starts_with-nil ((b ++ joined base) ++ (sep ∷ [])) s)) [ ]

is_below-IsBelow :
    (base ps : List Text)
    → All IsPlain base
    → All IsPlain ps
    → is_below (path_text base) (path_text ps) ≡ true
    → IsBelow base ps
unfolding is_below
is_below-IsBelow base ps h k below = elim (Bool-cases (text_eq (path_text ps) (path_text base))) [
  | inl same ↦
      let e =
        path_text_injective ps base k h (text_eq_sound (path_text ps) (path_text base) same) in
      ([], e ∙ sym (append-nil base))
  | inr other ↦ starts-IsBelow base ps h k (ground arith)
]

-- The resolved path is one of the allowed paths, or below one.
unfoldable pub IsAllowed : List Text → List Text → List Text → Type 0
IsAllowed cwd [] ps = ⊥
IsAllowed cwd (a ∷ allowed) ps = IsBelow (resolve cwd a) ps ⊎ IsAllowed cwd allowed ps

is_some_below-IsAllowed :
    (cwd allowed ps : List Text)
    → All HasNoSep cwd
    → All IsPlain ps
    → is_some_below cwd allowed (path_text ps) ≡ true
    → IsAllowed cwd allowed ps
unfolding is_some_below IsAllowed
is_some_below-IsAllowed cwd [] ps c k below = cc
is_some_below-IsAllowed cwd (a ∷ allowed) ps c k below =
    elim (Bool-cases (is_below (path_text (resolve cwd a)) (path_text ps))) [
      | inl here ↦ inl (is_below-IsBelow (resolve cwd a) ps (resolve-IsPlain cwd a c) k here)
      | inr other ↦ inr (is_some_below-IsAllowed cwd allowed ps c k (ground arith))
    ]

-- A path that the check lets through is an absolute path without empty, `.` and `..` parts, and
-- its parts are those of an allowed path with none or more behind them: nothing that a handler is
-- asked for, by a relative path or one with `..`, lies outside the allowed paths. The parts of the
-- working directory have no separator.
pub validate_path_contains :
    (cwd allowed : List Text) (path r : Text)
    → All HasNoSep cwd
    → validate_path cwd allowed path ≡ some r
    → (ps : List Text) × (r ≡ path_text ps) × All IsPlain ps × IsAllowed cwd allowed ps
unfolding validate_path
validate_path_contains cwd allowed path r c valid =
    let ps = resolve cwd path in
    let plain = resolve-IsPlain cwd path c in
    elim (Bool-cases (is_some_below cwd allowed (path_text ps))) [
      | inl ok ↦ (
        ps,
        (let good : validate_path cwd allowed path ≡ some (path_text ps) = rw ok refl in cc),
        plain,
        is_some_below-IsAllowed cwd allowed ps c plain ok,
      )
      | inr refused ↦ let bad : validate_path cwd allowed path ≡ none = rw refused refl in cc
    ]
