-- ===== src/Gateway/Pending/Ledger.antt =====
-- The ledger: which timer belongs to which pending call, and how often a list of actions settles
-- a request.
use kb_labs_host_agent.Common.{
  ℕ, ◌+◌, ◌≤◌, ◌≡◌, ◌≢◌, String, List, [], ◌∷◌, ◌++◌, none, some, arith, All, str_eq, eq_iff,
  if◌then◌else◌,
}
use kb_labs_host_agent.Common.Dict.{
  lookup, insert, remove, count, lookup-insert, lookup-remove, count-insert, count-remove,
  count_of_lookup-eq-none,
}
use kb_labs_host_agent.Gateway.State.{Armed, Timer, Action, resolve, reject, disarm, initial}

abbrev pub Pending : Type 0
Pending = List (String × ℕ)

-- A call's timer is the one that the map holds for the call.
abbrev pub OwnsKind : Pending → ℕ → Timer → Type 0
OwnsKind p t (Timer.adapter_call r ms a m) = lookup r p ≡ some t
OwnsKind p t _ = Unit

abbrev pub Owns : Pending → Armed → Type 0
Owns p a = OwnsKind p a.id a.kind

pub record Inv (p : Pending) (ts : List Armed) : Type 0 where
  pub owned : All (Owns p) ts
  pub unique : (k : String) → count k p ≤ 1

pub initial-Inv : Inv initial.pending_adapter_calls initial.timers
unfolding count
initial-Inv = record { owned = tt; unique = λ k. omega arith }

abbrev settles : String → Action → ℕ
settles r (resolve q response) = if str_eq q r then 1 else 0
settles r (reject q e) = if str_eq q r then 1 else 0
settles r _ = 0

-- How often the actions settle the promise of the request `r`.
abbrev pub settled_in : String → List Action → ℕ
settled_in r [] = 0
settled_in r (a ∷ more) = settles r a + settled_in r more

pub settled_in-append :
    (r : String) (xs ys : List Action) → settled_in r (xs ++ ys) ≡ settled_in r xs + settled_in r ys
settled_in-append r [] ys = omega arith
settled_in-append r (x ∷ xs) ys = omega (arith, settled_in-append r xs ys)

pub disarm-All : (P : Armed → Type 0) (t : ℕ) (ts : List Armed) → All P ts → All P (disarm t ts)
unfolding disarm
disarm-All P t [] h = tt
disarm-All P t (a ∷ ts) h = ground (arith, disarm-All P t ts h.1)

pub Inv-disarm : (t : ℕ) (p : Pending) (ts : List Armed) → Inv p ts → Inv p (disarm t ts)
Inv-disarm t p ts v = record { owned = disarm-All (Owns p) t ts v.owned; unique = v.unique }

OwnsKind-insert :
    (p : Pending) (t u : ℕ) (r : String) (k : Timer)
    → lookup r p ≡ none
    → OwnsKind p u k
    → OwnsKind (insert r t p) u k
OwnsKind-insert p t u r (Timer.adapter_call q ms a m) f h =
    ground (arith, lookup-insert r q t p, eq_iff r q)
OwnsKind-insert p t u r Timer.heartbeat f h = tt
OwnsKind-insert p t u r Timer.reconnect f h = tt
OwnsKind-insert p t u r Timer.hello f h = tt

All-Owns-insert :
    (p : Pending) (t : ℕ) (r : String) (ts : List Armed)
    → lookup r p ≡ none
    → All (Owns p) ts
    → All (Owns (insert r t p)) ts
All-Owns-insert p t r [] f h = tt
All-Owns-insert p t r (a ∷ ts) f h =
    (OwnsKind-insert p t a.id r a.kind f h.0, All-Owns-insert p t r ts f h.1)

unique-insert :
    (p : Pending) (t : ℕ) (r : String)
    → lookup r p ≡ none
    → ((k : String) → count k p ≤ 1)
    → (k : String) → count k (insert r t p) ≤ 1
unique-insert p t r f h k =
    ground (arith, h k, count-insert r k t p, eq_iff r k, count_of_lookup-eq-none r p)

-- A call under a new id, with its timer.
pub Inv-call :
    (p : Pending) (ts : List Armed) (t delay : ℕ) (r : String) (ms : ℕ) (a m : String)
    → lookup r p ≡ none
    → Inv p ts
    → Inv (insert r t p) (record { id = t; kind = Timer.adapter_call r ms a m; delay = delay } ∷ ts)
Inv-call p ts t delay r ms a m f v = record {
  owned = (ground (arith, lookup-insert r r t p, eq_iff r r), All-Owns-insert p t r ts f v.owned);
  unique = unique-insert p t r f v.unique;
}

OwnsKind-remove :
    (p : Pending) (t u : ℕ) (r : String) (k : Timer)
    → lookup r p ≡ some t
    → u ≢ t
    → OwnsKind p u k
    → OwnsKind (remove r p) u k
OwnsKind-remove p t u r (Timer.adapter_call q ms a m) f ne h =
    ground (arith, lookup-remove r q p, eq_iff r q)
OwnsKind-remove p t u r Timer.heartbeat f ne h = tt
OwnsKind-remove p t u r Timer.reconnect f ne h = tt
OwnsKind-remove p t u r Timer.hello f ne h = tt

All-Owns-remove :
    (p : Pending) (t : ℕ) (r : String) (ts : List Armed)
    → lookup r p ≡ some t
    → All (Owns p) ts
    → All (Owns (remove r p)) (disarm t ts)
unfolding disarm
All-Owns-remove p t r [] f h = tt
All-Owns-remove p t r (a ∷ ts) f h =
    ground (arith, All-Owns-remove p t r ts f h.1, OwnsKind-remove p t a.id r a.kind f)

-- A settled call leaves the map with its timer.
pub Inv-settle :
    (p : Pending) (ts : List Armed) (t : ℕ) (r : String)
    → lookup r p ≡ some t
    → Inv p ts
    → Inv (remove r p) (disarm t ts)
Inv-settle p ts t r f v = record {
  owned = All-Owns-remove p t r ts f v.owned;
  unique = λ k. ground (arith, v.unique k, count-remove r k p);
}

count_of_lookup : (p : Pending) (t : ℕ) (r : String) → lookup r p ≡ some t → 1 ≤ count r p
unfolding lookup count
count_of_lookup [] t r h = cc
count_of_lookup ((q, u) ∷ p) t r h = ground (arith, count_of_lookup p t r)

-- What its settling is worth in the ledger.
pub count-settle :
    (p : Pending) (ts : List Armed) (t : ℕ) (r k : String)
    → lookup r p ≡ some t
    → Inv p ts
    → count k (remove r p) + (if str_eq r k then 1 else 0) ≡ count k p
count-settle p ts t r k f v =
    ground (arith, count-remove r k p, eq_iff r k, count_of_lookup p t r f, v.unique k)

OwnsKind-tail :
    (r : String) (t u : ℕ) (p : Pending) (k : Timer)
    → u ≢ t
    → OwnsKind ((r, t) ∷ p) u k
    → OwnsKind p u k
unfolding lookup
OwnsKind-tail r t u p (Timer.adapter_call q ms a m) ne h = ground arith
OwnsKind-tail r t u p Timer.heartbeat ne h = tt
OwnsKind-tail r t u p Timer.reconnect ne h = tt
OwnsKind-tail r t u p Timer.hello ne h = tt

-- Without its timer, the first entry owns nothing.
pub All-Owns-tail :
    (r : String) (t : ℕ) (p : Pending) (ts : List Armed)
    → All (Owns ((r, t) ∷ p)) ts
    → All (Owns p) (disarm t ts)
unfolding disarm
All-Owns-tail r t p [] h = tt
All-Owns-tail r t p (a ∷ ts) h =
    ground (arith, All-Owns-tail r t p ts h.1, OwnsKind-tail r t a.id p a.kind)
