-- ===== src/Files/Parts.antt =====
-- The parts of a resolved path.
use kb_labs_host_agent.Common.{
  ℕ, Bool, true, false, ◌≡◌, refl, List, [], ◌∷◌, arith, ◌==◌, ==_iff, if◌then◌else◌, Bool-cases,
  inl, inr, All,
}
use kb_labs_host_agent.Common.Text.{Text}
use kb_labs_host_agent.Files.{
  sep, dot, up, text_eq, parts, enter, enter_all, reversed, normalize, resolve, is_absolute,
  joined_part,
}

pub text_eq_sound : (s t : Text) → text_eq s t ≡ true → s ≡ t
unfolding text_eq
text_eq_sound [] [] h = refl
text_eq_sound [] (d ∷ t) h = cc
text_eq_sound (c ∷ s) [] h = cc
text_eq_sound (c ∷ s) (d ∷ t) h =
    let both : ((c == d) ≡ true) × (text_eq s t ≡ true) = ground arith in
    let same = (==_iff c d).0 both.0 in let more = text_eq_sound s t both.1 in cc

pub text_eq_refl : (s : Text) → text_eq s s ≡ true
unfolding text_eq
text_eq_refl [] = refl
text_eq_refl (c ∷ s) = ground (arith, text_eq_refl s)

-- A part of a resolved path: it has no separator, is not empty, and does not stand or go up.
pub record IsPlain (p : Text) : Type 0 where
  pub whole : All (λ c. (c == sep) ≡ false) p
  pub filled : text_eq p [] ≡ false
  pub moves : text_eq p (dot ∷ []) ≡ false
  pub stays : text_eq p up ≡ false

abbrev pub HasNoSep : Text → Type 0
HasNoSep p = All (λ c. (c == sep) ≡ false) p

joined_part-HasNoSep :
    (c : ℕ) (ps : List Text)
    → (c == sep) ≡ false
    → All HasNoSep ps
    → All HasNoSep (joined_part c ps)
unfolding joined_part
joined_part-HasNoSep c [] h hs = ((h, tt), tt)
joined_part-HasNoSep c (p ∷ ps) h (here, hs) = ((h, here), hs)

parts-HasNoSep : (path : Text) → All HasNoSep (parts path)
unfolding parts
parts-HasNoSep [] = (tt, tt)
parts-HasNoSep (c ∷ cs) = elim (Bool-cases (c == sep)) [
  | inl at ↦ rw at (tt, parts-HasNoSep cs)
  | inr in_ ↦ rw in_ (joined_part-HasNoSep c (parts cs) in_ (parts-HasNoSep cs))
]

left-IsPlain :
    (stack : List Text)
    → All IsPlain stack
    → All IsPlain
        (elim stack [ [] ↦ [] | top ∷ rest ↦ if text_eq top up then up ∷ top ∷ rest else rest ])
left-IsPlain [] h = tt
left-IsPlain (top ∷ rest) (h, hs) = rw h.stays hs

enter-IsPlain :
    (stack : List Text) (p : Text)
    → All IsPlain stack
    → HasNoSep p
    → All IsPlain (enter true stack p)
unfolding enter
enter-IsPlain stack p h whole = elim (Bool-cases (text_eq p [])) [
  | inl empty ↦ rw empty h
  | inr full ↦ elim (Bool-cases (text_eq p (dot ∷ []))) [
    | inl here ↦ rw (full, here) h
    | inr there ↦ elim (Bool-cases (text_eq p up)) [
      | inl leaves ↦ rw (full, there, leaves) (left-IsPlain stack h)
      | inr enters ↦
          rw (full, there, enters)
            (record { whole = whole; filled = full; moves = there; stays = enters }, h)
    ]
  ]
]

enter_all-IsPlain :
    (stack ps : List Text)
    → All IsPlain stack
    → All HasNoSep ps
    → All IsPlain (enter_all true stack ps)
unfolding enter_all
enter_all-IsPlain stack [] h hs = h
enter_all-IsPlain stack (p ∷ ps) h (whole, hs) =
    enter_all-IsPlain (enter true stack p) ps (enter-IsPlain stack p h whole) hs

left-HasNoSep :
    (b : Bool) (stack : List Text)
    → All HasNoSep stack
    → All HasNoSep (elim stack [
      | [] ↦ if b then [] else up ∷ []
      | top ∷ rest ↦ if text_eq top up then up ∷ top ∷ rest else rest
    ])
left-HasNoSep true [] h = tt
left-HasNoSep false [] h = ((refl, (refl, tt)), tt)
left-HasNoSep b (top ∷ rest) (h, hs) = elim (Bool-cases (text_eq top up)) [
  | inl above ↦ rw above ((refl, (refl, tt)), (h, hs))
  | inr below ↦ rw below hs
]

enter-HasNoSep :
    (b : Bool) (stack : List Text) (p : Text)
    → All HasNoSep stack
    → HasNoSep p
    → All HasNoSep (enter b stack p)
unfolding enter
enter-HasNoSep b stack p h whole = elim (Bool-cases (text_eq p [])) [
  | inl empty ↦ rw empty h
  | inr full ↦ elim (Bool-cases (text_eq p (dot ∷ []))) [
    | inl here ↦ rw (full, here) h
    | inr there ↦ elim (Bool-cases (text_eq p up)) [
      | inl leaves ↦ rw (full, there, leaves) (left-HasNoSep b stack h)
      | inr enters ↦ rw (full, there, enters) (whole, h)
    ]
  ]
]

enter_all-HasNoSep :
    (b : Bool) (stack ps : List Text)
    → All HasNoSep stack
    → All HasNoSep ps
    → All HasNoSep (enter_all b stack ps)
unfolding enter_all
enter_all-HasNoSep b stack [] h hs = h
enter_all-HasNoSep b stack (p ∷ ps) h (whole, hs) =
    enter_all-HasNoSep b (enter b stack p) ps (enter-HasNoSep b stack p h whole) hs

reversed-All {ℓ} :
    (P : Text → Type ℓ) (ps done : List Text) → All P ps → All P done → All P (reversed ps done)
unfolding reversed
reversed-All P [] done h k = k
reversed-All P (p ∷ ps) done (h, hs) k = reversed-All P ps (p ∷ done) hs (h, k)

resolved-IsPlain :
    (absolute : Bool) (cwd ps : List Text)
    → All HasNoSep cwd
    → All HasNoSep ps
    → All IsPlain (
        reversed
          (if absolute then enter_all true [] ps else enter_all true (enter_all true [] cwd) ps)
          [])
resolved-IsPlain true cwd ps c k =
    reversed-All IsPlain (enter_all true [] ps) [] (enter_all-IsPlain [] ps tt k) tt
resolved-IsPlain false cwd ps c k =
    reversed-All IsPlain (enter_all true (enter_all true [] cwd) ps) []
      (enter_all-IsPlain (enter_all true [] cwd) ps (enter_all-IsPlain [] cwd tt c) k) tt

pub resolve-IsPlain :
    (cwd : List Text) (path : Text) → All HasNoSep cwd → All IsPlain (resolve cwd path)
unfolding resolve normalize
resolve-IsPlain cwd path h =
    let ps = reversed (enter_all (is_absolute path) [] (parts path)) [] in
    let whole =
      reversed-All HasNoSep (enter_all (is_absolute path) [] (parts path)) []
        (enter_all-HasNoSep (is_absolute path) [] (parts path) tt (parts-HasNoSep path)) tt in
    resolved-IsPlain (is_absolute path) cwd ps h whole
