-- ===== src/Token/Timers.antt =====
-- The manager as a state machine over the timer and the server's answers: at most one refresh is
-- scheduled or under way.
use kb_labs_host_agent.Common.{
  ℕ, ◌≤◌, ◌<◌, ◌≡◌, ◌≢◌, Bool, true, false, List, [], ◌∷◌, some, none, Option, arith, length,
}
use kb_labs_host_agent.Token.{
  TokenPair, Options, Manager, initial, Error, Result, ok, stop, start, do_refresh,
  max_expires_in_s, clock_skew_margin_s,
}

-- The manager, and whether a `doRefresh` awaits its answer.
pub record System : Type 0 where
  pub manager : Manager
  pub in_flight : Bool
  pub started : Bool

abbrev pub fresh : System
fresh = record { manager = initial; in_flight = false; started = false }

-- What can happen: the daemon starts the manager once, the armed timer fires and `doRefresh` sends
-- its request, the server answers and `onRefreshed` returns, the daemon stops the manager.
pub data Step (opts : Options) (s : System) : System → Type 0 where
  starts :
      (now : ℕ) (answer : Result TokenPair)
      → s.started ≡ false
      → Step opts s (record s { manager = (start opts now s.manager answer).0; started = true })
  fires :
      (t d : ℕ) (rest : List (ℕ × ℕ))
      → s.manager.armed ≡ (t, d) ∷ rest
      → Step opts s (record s { manager = record s.manager { armed = rest }; in_flight = true })
  answers :
      (now : ℕ) (answer : Result TokenPair)
      → s.in_flight ≡ true
      → Step opts s
          (record s { manager = (do_refresh opts now s.manager answer none).0; in_flight = false })
  stops : Step opts s (record s { manager = stop s.manager })

pub data Reach (opts : Options) : System → Type 0 where
  here : Reach opts fresh
  next : {s t : System} → Reach opts s → Step opts s t → Reach opts t

-- No timer is armed while a refresh is under way or before the start, and otherwise at most one
-- is, the one that the field `timer` names.
abbrev pub IsSingle : Bool → Option ℕ → List (ℕ × ℕ) → Type 0
IsSingle in_flight timer [] = Unit
IsSingle in_flight timer ((t, d) ∷ rest) = (in_flight ≡ false) × (timer ≡ some t) × (rest ≡ [])

pub record Inv (s : System) : Type 0 where
  pub single : IsSingle s.in_flight s.manager.timer s.manager.armed
  pub before_start : s.started ≡ false → (s.manager.armed ≡ []) × (s.in_flight ≡ false)

-- `stop` does not reach a refresh under way: an accepted answer that comes after it arms a timer
-- again, from any state.
pub stop_in_flight :
    (opts : Options) (now : ℕ) (m : Manager) (pair : TokenPair)
    → 0 < pair.expires_in
    → pair.expires_in ≤ max_expires_in_s
    → (do_refresh opts now (stop m) (ok pair) none).0.armed ≢ []
unfolding do_refresh
stop_in_flight opts now m pair lo hi = ground arith

-- A callback `onRefreshed` that throws leaves two timers armed where none was: the refresh of the
-- accepted pair, and a retry that is scheduled beside it.
pub do_refresh_notified_throws :
    (opts : Options) (now : ℕ) (m : Manager) (pair : TokenPair) (e : Error)
    → clock_skew_margin_s < pair.expires_in
    → pair.expires_in ≤ max_expires_in_s
    → 1 < opts.max_retries
    → m.armed ≡ []
    → length (do_refresh opts now m (ok pair) (some e)).0.armed ≡ 2
unfolding do_refresh
do_refresh_notified_throws opts now m pair e lo hi retries h = ground arith
