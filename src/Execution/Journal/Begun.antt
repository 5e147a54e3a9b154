-- ===== src/Execution/Journal/Begun.antt =====
-- The invariant of the journal, and that a call that begins keeps it.
use kb_labs_host_agent.Common.{
  ℕ, ◌≡◌, refl, ap, String, false, none, some, [], ◌∷◌, arith, str_eq, eq_iff, Option-cases,
  Bool-cases, inl, inr, ◌∙◌, sym,
}
use kb_labs_host_agent.Common.Dict.{
  lookup, insert, lookup-insert, lookup-remove, lookup-insert_self,
}
use kb_labs_host_agent.Execution.{
  Request, JournalEntry, started, Options, Journal, Handler, Stage, resolving, fresh_entry,
  is_plugin_allowed, begin, execute, is_expired, cleanup, with_permissions,
}

-- Each call that awaits an answer has an entry, which says that it has started.
abbrev pub Inv : Handler → Type 0
Inv h =
    (id : String) (s : Stage) (req : Request)
    → lookup id h.pending ≡ some (s, req)
    → (req.execution_id ≡ id)
      × ((e : JournalEntry) × (lookup id h.journal ≡ some e) × (e.status ≡ started))

pub lookup-cleanup :
    (now : ℕ) (id : String) (e : JournalEntry) (j : Journal)
    → lookup id j ≡ some e
    → is_expired now e ≡ false
    → lookup id (cleanup now j) ≡ some e
unfolding lookup cleanup
lookup-cleanup now id e [] h k = cc
lookup-cleanup now id e ((i, x) ∷ j) h k = ground (arith, eq_iff i id, lookup-cleanup now id e j)

pub lookup-cleanup-none :
    (now : ℕ) (id : String) (j : Journal) → lookup id j ≡ none → lookup id (cleanup now j) ≡ none
unfolding lookup cleanup
lookup-cleanup-none now id [] h = refl
lookup-cleanup-none now id ((i, x) ∷ j) h =
    ground (arith, eq_iff i id, lookup-cleanup-none now id j)

pub not-expired_of_started :
    (now : ℕ) (e : JournalEntry) → e.status ≡ started → is_expired now e ≡ false
unfolding is_expired
not-expired_of_started now e h = rw h

-- An entry other than those of `id` is as it was.
pub begin-kept :
    (opts : Options) (now : ℕ) (req : Request) (h : Handler) (id : String)
    → str_eq req.execution_id id ≡ false
    → (lookup id (begin opts now req h).0.journal ≡ lookup id h.journal)
      × (lookup id (begin opts now req h).0.pending ≡ lookup id h.pending)
unfolding begin
begin-kept opts now req h id ne =
    let k = req.execution_id in
    let e = fresh_entry now in
    let more = record req { descriptor = with_permissions req.descriptor } in
    ground (
      arith,
      lookup-insert k id e h.journal,
      lookup-remove k id (insert k e h.journal),
      lookup-insert k id (resolving, more) h.pending,
    )

begin-refused :
    (opts : Options) (now : ℕ) (req : Request) (h : Handler)
    → is_plugin_allowed opts.allowed_plugins req.plugin_id ≡ false
    → (begin opts now req h).0.pending ≡ h.pending
unfolding begin
begin-refused opts now req h refused = rw refused refl

begin-own :
    (opts : Options) (now : ℕ) (req : Request) (h : Handler) (s : Stage) (r : Request)
    → lookup req.execution_id h.journal ≡ none
    → Inv h
    → lookup req.execution_id (begin opts now req h).0.pending ≡ some (s, r)
    → (r.execution_id ≡ req.execution_id)
      × (lookup req.execution_id (begin opts now req h).0.journal ≡ some (fresh_entry now))
unfolding begin
begin-own opts now req h s r new v e =
    let k = req.execution_id in
    let entry = fresh_entry now in
    let more = record req { descriptor = with_permissions req.descriptor } in
    elim (Bool-cases (is_plugin_allowed opts.allowed_plugins req.plugin_id)) [
      | inl ok ↦ ground (
        arith,
        lookup-insert_self k entry h.journal,
        lookup-insert_self k (resolving, more) h.pending,
      )
      | inr refused ↦
          let (same, (other, found, going)) =
            v k s r (sym (ap (lookup k) (begin-refused opts now req h refused)) ∙ e) in
          cc
    ]

begin-Inv :
    (opts : Options) (now : ℕ) (req : Request) (h : Handler)
    → lookup req.execution_id h.journal ≡ none
    → Inv h
    → Inv (begin opts now req h).0
begin-Inv opts now req h new v id s r e = elim (Bool-cases (str_eq req.execution_id id)) [
  | inl same ↦
      let here = (eq_iff req.execution_id id).0 same in
      let (own, found) =
        begin-own opts now req h s r new v
          (ap (λ k. lookup k (begin opts now req h).0.pending) here ∙ e) in
      (
        own ∙ here,
        (
          fresh_entry now,
          sym (ap (λ k. lookup k (begin opts now req h).0.journal) here) ∙ found,
          refl,
        ),
      )
  | inr ne ↦ let (jk, pk) = begin-kept opts now req h id ne in rw jk (v id s r (sym pk ∙ e))
]

pub execute-Inv :
    (opts : Options) (now : ℕ) (req : Request) (h : Handler)
    → Inv h
    → Inv (execute opts now req h).0
unfolding execute
execute-Inv opts now req h v = elim (Option-cases (lookup req.execution_id h.journal)) [
  | inl new ↦ rw (new) (begin-Inv opts now req h new v)
  | inr (entry, known) ↦ rw (known) v
]
