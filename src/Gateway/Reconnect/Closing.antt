-- ===== src/Gateway/Reconnect/Closing.antt =====
-- The close handler, and one round of losing the socket and dialling again.
use kb_labs_host_agent.Common.{
  ℕ, suc, ◌∙◌, append_assoc, ◌+◌, ◌*◌, ◌≡◌, refl, min, String, List, [], ◌∷◌, ◌++◌, none, some,
  Bool, true, false, arith, if◌then◌else◌,
}
use kb_labs_host_agent.Gateway.State.{
  Client, Options, Armed, Timer, Action, reject, on_disconnected, on_token_expired, open_socket,
  disconnected, disarm, backoff_max_ms, set_ready, closed, clear_timer,
}
use kb_labs_host_agent.Gateway.Url.{connect_url, is_allowed}
use kb_labs_host_agent.Gateway.Methods.{
  clear_timers, reject_each, reject_all_pending_adapter_calls, schedule_reconnect, on_close, or_now,
  dial, do_connect, reconnect, plan_connect,
}
use kb_labs_host_agent.Gateway.Events.{
  Event, lost, fires, token_refreshed, step, run, fire, find_timer,
}

-- The rejections that a list of pending calls stands for.
abbrev pub rejections : List (String × ℕ) → List Action
rejections [] = []
rejections ((r, t) ∷ p) = reject r disconnected ∷ rejections p

abbrev disarm_each : List (String × ℕ) → List Armed → List Armed
disarm_each [] ts = ts
disarm_each ((r, t) ∷ p) ts = disarm_each p (disarm t ts)

reject_each_lem :
    (p : List (String × ℕ)) (c : Client)
    → reject_each p c ≡ (record c { timers = disarm_each p c.timers }, rejections p)
unfolding reject_each
reject_each_lem [] c = refl
reject_each_lem ((r, t) ∷ p) c = rw (reject_each_lem p (clear_timer t c))

clear_timers_lem :
    (c : Client)
    → clear_timers c ≡ record c {
      heartbeat_timer = none;
      reconnect_timer = none;
      timers = (clear_timers c).timers;
    }
unfolding clear_timers
clear_timers_lem c = ground arith

-- The client at the end of the close handler, but for the reconnect.
abbrev down : ℕ → Client → Client
down now c = record c {
  heartbeat_timer = none;
  reconnect_timer = none;
  timers = disarm_each c.pending_adapter_calls (clear_timers c).timers;
  disconnected_at = some (or_now c.disconnected_at now);
  pending_adapter_calls = [];
}

on_close-eq :
    (now : ℕ) (c : Client)
    → on_close now c ≡ (
      if c.stopped then down now c else schedule_reconnect (down now c),
      rejections c.pending_adapter_calls ++ on_disconnected ∷ [],
    )
unfolding on_close reject_all_pending_adapter_calls
on_close-eq now c = rw (clear_timers_lem c, reject_each_lem)

-- What a lost socket does to the client.
abbrev pub Closes : ℕ → Client → Client × List Action → Type 0
Closes now c (c', acts) =
    (acts ≡ rejections c.pending_adapter_calls ++ on_disconnected ∷ [])
    × (c'.pending_adapter_calls ≡ [])
    × (c'.disconnected_at ≡ some (or_now c.disconnected_at now))
    × (c'.heartbeat_timer ≡ none)
    × (c'.backoff_ms ≡ c.backoff_ms)
    × (c'.ws ≡ c.ws)
    × (c'.stopped ≡ c.stopped)
    × (c.stopped ≡ true → (c'.reconnect_timer ≡ none) × (c'.reconnect_count ≡ c.reconnect_count))
    × (c.stopped ≡ false
        → (c'.reconnect_count ≡ c.reconnect_count + 1)
          × (c'.reconnect_timer ≡ some c.next_timer)
          × (find_timer c.next_timer c'.timers ≡ some Timer.reconnect))

-- Losing a socket: the pending calls are rejected in the order in which they were made, and then
-- the owner is told. The moment of the first loss is kept, and so are the backoff and the socket
-- that the client holds. A client that is
-- not stopped counts and arms one reconnect; a stopped one does not.
pub on_close_lem : (now : ℕ) (c : Client) → Closes now c (on_close now c)
unfolding schedule_reconnect find_timer
on_close_lem now c = rw (on_close-eq now c) (
  refl,
  ground arith,
  ground arith,
  ground arith,
  ground arith,
  ground arith,
  ground arith,
  ground arith,
  ground arith,
)

on_close-going :
    (now : ℕ) (c : Client)
    → c.stopped ≡ false
    → on_close now c ≡ (
      schedule_reconnect (down now c),
      rejections c.pending_adapter_calls ++ on_disconnected ∷ [],
    )
on_close-going now c going = on_close-eq now c ∙ rw going

fire-reconnect :
    (t : ℕ) (c : Client)
    → c.stopped ≡ false
    → find_timer t c.timers ≡ some Timer.reconnect
    → fire (find_timer t c.timers) t c
      ≡ (record (clear_timer t c) { awaiting_token = suc c.awaiting_token }, on_token_expired ∷ [])
unfolding fire
fire-reconnect t c going found = rw (found, fire) (ground arith)

plan-allowed :
    (opts : Options) (explicit : Bool) (token : String)
    → is_allowed explicit (connect_url opts.gateway_url) ≡ true
    → plan_connect opts explicit (some token) ≡ dial (connect_url opts.gateway_url) token
unfolding plan_connect
plan-allowed opts explicit token allowed = rw allowed

find_timer-schedule_reconnect :
    (c : Client) → find_timer c.next_timer (schedule_reconnect c).timers ≡ some Timer.reconnect
unfolding find_timer schedule_reconnect
find_timer-schedule_reconnect c = ground arith

schedule_reconnect-stopped :
    (c : Client) → c.stopped ≡ false → (schedule_reconnect c).stopped ≡ false
unfolding schedule_reconnect
schedule_reconnect-stopped c going = going

-- A socket is lost, the reconnect timer fires, and the token is there.
abbrev pub round_events : (lost_at fired_at dialled_at s : ℕ) → String → Client → List (ℕ × Event)
round_events lost_at fired_at dialled_at s token c =
    (lost_at, lost s)
    ∷ (fired_at, fires c.next_timer)
    ∷ (dialled_at, token_refreshed (some token))
    ∷ []

-- One round of a client that is not stopped, with a URL that is allowed and that `WebSocket` takes,
-- so that its constructor does not throw: the calls are rejected,
-- the owner is told and asked for a token, and a new socket is dialled; the backoff then doubles,
-- up to its bound.
pub lost_round :
    (opts : Options) (explicit : Bool) (lost_at fired_at dialled_at s : ℕ) (token : String)
    (c : Client)
    → c.stopped ≡ false
    → is_allowed explicit (connect_url opts.gateway_url) ≡ true
    → let (c', acts) = run opts explicit c (round_events lost_at fired_at dialled_at s token c) in
      (acts
        ≡ rejections c.pending_adapter_calls
          ++ on_disconnected
            ∷ on_token_expired
            ∷ open_socket c.next_socket (connect_url opts.gateway_url) token
            ∷ [])
      × (c'.ws ≡ some c.next_socket)
      × (c'.backoff_ms ≡ min (c.backoff_ms * 2) backoff_max_ms)
      × (c'.stopped ≡ false)
      × (c'.reconnect_count ≡ c.reconnect_count + 1)
unfolding run step
lost_round opts explicit lost_at fired_at dialled_at s token c going allowed =
    let c₁ : Client = set_ready s closed c in
    let d = down lost_at c₁ in
    rw
      (
        on_close-going lost_at c₁ going,
        fire-reconnect c.next_timer (schedule_reconnect d) (schedule_reconnect-stopped d going)
            (find_timer-schedule_reconnect d),
        plan-allowed opts explicit token allowed,
      )
      (unfold reconnect do_connect schedule_reconnect in
        (
          append_assoc (rejections c.pending_adapter_calls) (on_disconnected ∷ []) (
              on_token_expired
              ∷ open_socket c.next_socket (connect_url opts.gateway_url) token
              ∷ []),
          refl,
          refl,
          going,
          refl,
        ))
