-- ===== src/Commands/List/Table.antt =====
-- The table of `workspace:list`.
use kb_labs_host_agent.Common.{
  ◌⊎◌, ℕ, zero, suc, ◌+◌, ◌-◌, ◌*◌, ◌≤◌, ◌<◌, ◌≡◌, ◌≢◌, refl, ap, [], arith, ltb, ◌==◌, length,
  length-append, if◌then◌else◌, Bool-cases, inl, inr, ◌++◌, ◌∷◌,
}
use kb_labs_host_agent.Common.Text.{Text, codes}
use kb_labs_host_agent.Commands.List.{
  HostEntry, ago_parts, blanks, pad_end, joined_by, or_else, row_front, header_front, status_icon,
}

-- The seconds in a unit.
abbrev pub unit_size : ℕ → ℕ
unit_size unit =
    if unit == b's' then 1 else if unit == b'm' then 60 else if unit == b'h' then 3600 else 86400

-- The count and the unit that `ago` shows for an age: the age is that many units and not one more,
-- below a minute in seconds; a count of seconds or minutes is below 60, and one of hours below 24.
pub ago_parts_lem :
    (sec : ℕ)
    → let (n, unit) = ago_parts sec in
      (n * unit_size unit ≤ sec)
      × (sec < (n + 1) * unit_size unit)
      × ((sec < 60) ⊎ (0 < n))
      × ((unit ≡ b'd') ⊎ (n < 60))
      × ((unit ≢ b'h') ⊎ (n < 24))
unfolding ago_parts
ago_parts_lem sec = elim (Bool-cases (ltb sec 60)) [
  | inl s ↦
      rw s
        (omega arith, omega arith, inl (ground arith), inr (ground arith), inl (λ h. ground arith))
  | inr no_s ↦ elim (Bool-cases (ltb sec 3600)) [
    | inl m ↦
        rw (no_s, m)
          (
            omega arith,
            omega arith,
            inr (ground arith),
            inr (ground arith),
            inl (λ h. ground arith),
          )
    | inr no_m ↦ elim (Bool-cases (ltb sec 86400)) [
      | inl hours ↦
          rw (no_s, no_m, hours)
            (omega arith, omega arith, inr (ground arith), inr (ground arith), inr (ground arith))
      | inr days ↦
          rw (no_s, no_m, days)
            (omega arith, omega arith, inr (ground arith), inl refl, inl (λ h. ground arith))
    ]
  ]
]

length-blanks : (n : ℕ) → length (blanks n) ≡ n
unfolding blanks
length-blanks zero = refl
length-blanks (suc n) = ap suc (length-blanks n)

length-pad_end : (n : ℕ) (s : Text) → length s ≤ n → length (pad_end n s) ≡ n
unfolding pad_end
length-pad_end n s h =
    omega (arith, length-append s (blanks (n - length s)), length-blanks (n - length s))

front_length :
    (a b c : Text)
    → length (a ++ (32 ∷ b ++ (32 ∷ c ++ (32 ∷ [])))) ≡ length a + length b + length c + 3
front_length a b c =
    let last = 32 ∷ c ++ (32 ∷ []) in
    let middle = 32 ∷ b ++ last in
    omega (arith, length-append a middle, length-append b last, length-append c (32 ∷ []))

columns_length :
    (icon a b c : Text)
    → length (icon ++ (32 ∷ a ++ (32 ∷ b ++ (32 ∷ c ++ (32 ∷ [])))))
      ≡ length icon + length a + length b + length c + 4
columns_length icon a b c =
    omega
      (arith, length-append icon (32 ∷ a ++ (32 ∷ b ++ (32 ∷ c ++ (32 ∷ [])))), front_length a b c)

-- A row stands under the header: where name, status and capabilities fit their columns, the column
-- `Last Seen` begins at the same place in both, the mark of the status counting as one letter.
pub rows_aligned :
    (h : HostEntry)
    → length h.name ≤ 28
    → length h.status ≤ 14
    → length (joined_by (codes ", ") (or_else h.capabilities [])) ≤ 30
    → length (row_front h) + 1 ≡ length header_front + length (status_icon h.status)
unfolding row_front header_front
rows_aligned h name status caps =
    let caps_text = joined_by (codes ", ") (or_else h.capabilities []) in
    omega (
      arith,
      columns_length (status_icon h.status) (pad_end 28 h.name) (pad_end 14 h.status)
          (pad_end 30 caps_text),
      front_length (pad_end 30 (codes "Name")) (pad_end 14 (codes "Status"))
          (pad_end 30 (codes "Capabilities")),
      length-pad_end 28 h.name name,
      length-pad_end 14 h.status status,
      length-pad_end 30 caps_text caps,
      length-pad_end 30 (codes "Name") (omega arith),
      length-pad_end 14 (codes "Status") (omega arith),
      length-pad_end 30 (codes "Capabilities") (omega arith),
    )
