-- ===== src/Files/Shell/Blocked/Occurs.antt =====
-- What it means for a blocked expression to occur in a command, with no search in it.
use mathlib.Core.List.{Memᴰ}
use mathlib.Core.List.Memᴰ
use kb_labs_host_agent.Common.{
  ℕ, true, false, ◌≡◌, refl, ◌↔◌, List, [], ◌∷◌, ◌++◌, arith, Bool-cases, inr, inl, subst,
}
use kb_labs_host_agent.Common.Text.{Text, is_space}
use kb_labs_host_agent.Files.Shell.Blocked.{
  Pattern, letter, blanks, some_blanks, anything, is_line_end, matches_at, test, some_test,
  is_blocked, blocked_commands,
}

-- The whole text is matched.
pub data Matches : Pattern → Text → Type 0 where
  empty : Matches [] []
  one : {c : ℕ} {p : Pattern} {s : Text} → Matches p s → Matches (letter c ∷ p) (c ∷ s)
  no_blank : {p : Pattern} {s : Text} → Matches p s → Matches (blanks ∷ p) s
  blank :
      {c : ℕ} {p : Pattern} {s : Text}
      → is_space c ≡ true
      → Matches (blanks ∷ p) s
      → Matches (blanks ∷ p) (c ∷ s)
  first_blank :
      {c : ℕ} {p : Pattern} {s : Text}
      → is_space c ≡ true
      → Matches (blanks ∷ p) s
      → Matches (some_blanks ∷ p) (c ∷ s)
  none_left : {p : Pattern} {s : Text} → Matches p s → Matches (anything ∷ p) s
  one_more :
      {c : ℕ} {p : Pattern} {s : Text}
      → is_line_end c ≡ false
      → Matches (anything ∷ p) s
      → Matches (anything ∷ p) (c ∷ s)

-- The text begins with a part that is matched.
abbrev pub Begins : Pattern → Text → Type 0
Begins p s = (middle : Text) × (after : Text) × (s ≡ middle ++ after) × Matches p middle

-- Some part of the text is matched.
abbrev pub Occurs : Pattern → Text → Type 0
Occurs p s =
    (before : Text) × (middle : Text) × (after : Text) × (s ≡ before ++ (middle ++ after))
    × Matches p middle

begins : (p : Pattern) (s : Text) → matches_at p s ≡ true → Begins p s
unfolding matches_at
begins [] s h = ([], s, refl, empty)
begins (letter d ∷ p) [] h = cc
begins (letter d ∷ p) (c ∷ s) h =
    let (m, after, e, d') = begins p s (ground arith) in
    let same : c ≡ d = ground arith in (d ∷ m, after, cc, one {s = m} d')
begins (blanks ∷ p) [] h = let (m, after, e, d) = begins p [] h in (m, after, e, no_blank {s = m} d)
begins (blanks ∷ p) (c ∷ s) h = elim (Bool-cases (matches_at p (c ∷ s))) [
  | inl here ↦ let (m, after, e, d) = begins p (c ∷ s) here in (m, after, e, no_blank {s = m} d)
  | inr later ↦
      let (m, after, e, d) = begins (blanks ∷ p) s (ground arith) in
      (c ∷ m, after, cc, blank {s = m} (ground arith) d)
]
begins (some_blanks ∷ p) [] h = cc
begins (some_blanks ∷ p) (c ∷ s) h =
    let (m, after, e, d) = begins (blanks ∷ p) s (ground arith) in
    (c ∷ m, after, cc, first_blank {s = m} (ground arith) d)
begins (anything ∷ p) [] h =
    let (m, after, e, d) = begins p [] h in (m, after, e, none_left {s = m} d)
begins (anything ∷ p) (c ∷ s) h = elim (Bool-cases (matches_at p (c ∷ s))) [
  | inl here ↦ let (m, after, e, d) = begins p (c ∷ s) here in (m, after, e, none_left {s = m} d)
  | inr later ↦
      let (m, after, e, d) = begins (anything ∷ p) s (ground arith) in
      (c ∷ m, after, cc, one_more {s = m} (ground arith) d)
]

matches-blanks : (p : Pattern) (s : Text) → matches_at p s ≡ true → matches_at (blanks ∷ p) s ≡ true
unfolding matches_at
matches-blanks p [] h = h
matches-blanks p (c ∷ s) h = rw h refl

matches-anything :
    (p : Pattern) (s : Text) → matches_at p s ≡ true → matches_at (anything ∷ p) s ≡ true
unfolding matches_at
matches-anything p [] h = h
matches-anything p (c ∷ s) h = rw h refl

begun : (after : Text) {p : Pattern} {m : Text} → Matches p m → matches_at p (m ++ after) ≡ true
unfolding matches_at
begun after empty = refl
begun after (one d) = ground (arith, begun after d)
begun after (no_blank {p} {s} d) = matches-blanks p (s ++ after) (begun after d)
begun after (blank {c} {p} {s} h d) = ground (arith, begun after d)
begun after (first_blank {c} {p} {s} h d) = rw h (begun after d)
begun after (none_left {p} {s} d) = matches-anything p (s ++ after) (begun after d)
begun after (one_more {c} {p} {s} h d) = ground (arith, begun after d)

occurs : (p : Pattern) (s : Text) → test p s ≡ true → Occurs p s
unfolding test
occurs p [] h = let (m, after, e, d) = begins p [] h in ([], m, after, e, d)
occurs p (c ∷ s) h = elim (Bool-cases (matches_at p (c ∷ s))) [
  | inl here ↦ let (m, after, e, d) = begins p (c ∷ s) here in ([], m, after, e, d)
  | inr later ↦
      let (before, m, after, e, d) = occurs p s (ground arith) in (c ∷ before, m, after, cc, d)
]

found : (p : Pattern) (before s : Text) → matches_at p s ≡ true → test p (before ++ s) ≡ true
unfolding test
found p [] [] h = h
found p [] (c ∷ s) h = rw h refl
found p (b ∷ before) s h = ground (arith, found p before s h)

-- `test` finds an expression exactly where it occurs.
pub test_iff : (p : Pattern) (s : Text) → (test p s ≡ true) ↔ Occurs p s
test_iff p s = (
  occurs p s,
  λ o. let (before, m, after, e, d) = o in rw e (found p before (m ++ after) (begun after d)),
)

some_test_iff :
    (ps : List Pattern) (s : Text)
    → (some_test ps s ≡ true) ↔ ((p : Pattern) × Memᴰ p ps × Occurs p s)
unfolding some_test
some_test_iff [] s = (λ h. cc, λ f. absurd (Memᴰ.not-nil f.1))
some_test_iff (q ∷ ps) s = (
  λ h. elim (Bool-cases (test q s)) [
    | inl here ↦ (q, Memᴰ.head refl, (test_iff q s).0 here)
    | inr other ↦ let (p, m, o) = (some_test_iff ps s).0 (ground arith) in (p, Memᴰ.tail m, o)
  ],
  λ f. elim (Memᴰ.cases_cons f.1) [
    | inl same ↦ let at = (test_iff q s).1 (subst (λ x. Occurs x s) same f.2) in rw at refl
    | inr m ↦ let rest = (some_test_iff ps s).1 (f.0, m, f.2) in ground arith
  ],
)

-- A command is blocked exactly if one of the nine expressions occurs in it, anywhere.
pub is_blocked_iff :
    (command : Text)
    → (is_blocked command ≡ true) ↔ ((p : Pattern) × Memᴰ p blocked_commands × Occurs p command)
unfolding is_blocked
is_blocked_iff command = some_test_iff blocked_commands command
