-- ===== src/Files/Shell/Blocked.antt =====
-- packages/host-agent-fs/src/shell-handler.ts: the expressions of `BLOCKED_COMMANDS`, and `test`.
-- A text is its code points: no expression tells them from UTF-16 units.
pub mod Occurs
use kb_labs_host_agent.Common.{
  ℕ, Bool, true, false, ◌||◌, ◌&&◌, List, [], ◌∷◌, ◌++◌, ◌==◌, leb, if◌then◌else◌, map,
}
use kb_labs_host_agent.Common.Text.{Text, codes, is_space}

-- One letter, `\s*`, `\s+` and `.*`: what the expressions are made of.
pub data Item : Type 0 where
  letter : ℕ → Item
  blanks some_blanks anything : Item

abbrev pub Pattern : Type 0
Pattern = List Item

-- The letters that `.` does not match.
unfoldable pub is_line_end : ℕ → Bool
is_line_end c = c == 10 || c == 13 || c == 8232 || c == 8233

abbrev pub word : Text → Pattern
word s = map letter s

abbrev pub rm_root : Pattern
rm_root =
    word (codes "rm") ++ (some_blanks ∷ word (codes "-rf") ++ (some_blanks ∷ word (codes "/")))

abbrev pub blocked_commands : List Pattern
blocked_commands =
    rm_root
    ∷ (word (codes "rm") ++ (some_blanks ∷ word (codes "-rf") ++ (some_blanks ∷ word (codes "/*"))))
    ∷ word (codes "mkfs")
    ∷ (word (codes "dd") ++ (some_blanks ∷ word (codes "if=")))
    ∷ (letter 58 ∷ anything ∷ word (codes "()")
        ++ (blanks
            ∷ letter 123
            ∷ blanks
            ∷ letter 58
            ∷ blanks
            ∷ letter 124
            ∷ anything
            ∷ letter 38
            ∷ blanks
            ∷ letter 125
            ∷ blanks
            ∷ letter 59
            ∷ []))
    ∷ (word (codes "chmod")
        ++ (some_blanks ∷ word (codes "-R")
            ++ (some_blanks ∷ word (codes "777") ++ (some_blanks ∷ letter 47 ∷ []))))
    ∷ (word (codes "chown") ++ (some_blanks ∷ word (codes "-R")))
    ∷ (letter 62 ∷ blanks ∷ word (codes "/dev/sda"))
    ∷ (word (codes "mv") ++ (some_blanks ∷ word (codes "/*")))
    ∷ []

-- Whether a text begins with what the expression matches.
unfoldable pub matches_at : Pattern → Text → Bool
matches_at [] s = true
matches_at (letter d ∷ p) [] = false
matches_at (letter d ∷ p) (c ∷ s) = let rest = matches_at p s in if c == d then rest else false
matches_at (blanks ∷ p) [] = matches_at p []
matches_at (blanks ∷ p) (c ∷ s) =
    let more = matches_at (blanks ∷ p) s in
    if matches_at p (c ∷ s) then true else if is_space c then more else false
matches_at (some_blanks ∷ p) [] = false
matches_at (some_blanks ∷ p) (c ∷ s) =
    let more = matches_at (blanks ∷ p) s in if is_space c then more else false
matches_at (anything ∷ p) [] = matches_at p []
matches_at (anything ∷ p) (c ∷ s) =
    let more = matches_at (anything ∷ p) s in
    if matches_at p (c ∷ s) then true else if is_line_end c then false else more

-- `pattern.test(s)`: from the start, or from a later letter.
unfoldable pub test : Pattern → Text → Bool
test p [] = matches_at p []
test p (c ∷ s) = let later = test p s in if matches_at p (c ∷ s) then true else later

unfoldable pub some_test : List Pattern → Text → Bool
some_test [] s = false
some_test (p ∷ ps) s = let others = some_test ps s in if test p s then true else others

-- The loop over `BLOCKED_COMMANDS`.
unfoldable pub is_blocked : Text → Bool
is_blocked command = some_test blocked_commands command
