-- ===== src/Net/Server.antt =====
-- `Server` of sfu/src/Server.ts, which observer/src/Server.ts repeats: its states, cut at the awaits of
-- `start` and `stop`. What Node's servers answer comes as events.
pub mod Lifecycle
use demo_app.Base.{
  ℕ, suc, ◌≤◌, List, [], ◌∷◌, ◌≡◌, refl, ◌⊎◌, inl, inr, Bool, true, false, Option, none, some,
  if◌then◌else◌, arith, get_elem?, erase_idx,
}

pub data ServerState : Type 0 where
  idle started running stopped aborted : ServerState

-- What a call of `start` or `stop` that passed its guard waits for.
pub data Waiting : Type 0 where
  -- for `listen`
  listening : Waiting
  -- for `close` of the web socket server, then of the HTTP server
  closing_ws closing_http : Waiting

pub record Server (P : Type 0) : Type 0 where
  pub state : ServerState
  -- The calls under way, as many as there may be, the newest first.
  pub waiting : List Waiting
  pub http_server : Bool
  pub ws_server : Bool
  pub processor : Option P
  -- How often `listen` was called.
  pub listens : ℕ

pub data Assigned (P : Type 0) : Type 0 where
  assigned : Server P → Assigned P
  -- `Cannot assign processor twice`
  thrown : Assigned P

pub data Event : Type 0 where
  start_called stop_called : Event
  -- Node answers the call under way with the number.
  has_listened ws_has_closed http_has_closed : (call : ℕ) → Event

module _ {P : Type 0} where
  unfoldable pub init : Server P
  init = record {
    state = idle;
    waiting = [];
    http_server = false;
    ws_server = false;
    processor = none;
    listens = 0;
  }

  unfoldable pub begin_start : Server P → Server P
  begin_start s = record s {
    state = started;
    waiting = listening ∷ s.waiting;
    http_server = true;
    ws_server = true;
    listens = suc s.listens;
  }

  -- `start`, up to the `await` of `listen`. The servers are made without waiting.
  unfoldable pub start : Server P → Server P
  unfolding begin_start
  start s = elim s.state [ idle ↦ begin_start s | _ ↦ s ]

  -- The callback of `listen`, and the rest of `start`.
  pub listened : ℕ → Server P → Server P
  listened call s = elim (get_elem? s.waiting call) [
    | some listening ↦ record s { state = running; waiting = erase_idx s.waiting call }
    | _ ↦ s
  ]

  close_http : Server P → Server P
  close_http s =
      if s.http_server
      then record s { waiting = closing_http ∷ s.waiting }
      else record s { state = idle }

  begin_stop : Server P → Server P
  unfolding close_http
  begin_stop s =
      if s.ws_server
      then record s { state = stopped; waiting = closing_ws ∷ s.waiting }
      else close_http (record s { state = stopped })

  -- `stop`, up to its first `await`.
  pub stop : Server P → Server P
  unfolding begin_stop
  stop s = elim s.state [ running ↦ begin_stop s | _ ↦ s ]

  -- The web socket server has closed, with an error or not.
  pub ws_closed : ℕ → Server P → Server P
  unfolding close_http
  ws_closed call s = elim (get_elem? s.waiting call) [
    | some closing_ws ↦ close_http (record s { waiting = erase_idx s.waiting call })
    | _ ↦ s
  ]

  -- The HTTP server has closed, with an error or not.
  pub http_closed : ℕ → Server P → Server P
  http_closed call s = elim (get_elem? s.waiting call) [
    | some closing_http ↦ record s { state = idle; waiting = erase_idx s.waiting call }
    | _ ↦ s
  ]

  -- The setter of `processor`.
  pub set_processor : Option P → Server P → Assigned P
  set_processor none s = assigned (record s { processor = none })
  set_processor (some p) s = elim s.processor [
    | some q ↦ thrown
    | none ↦ assigned (record s { processor = some p })
  ]

  pub step : Event → Server P → Server P
  unfolding start listened stop ws_closed http_closed
  step start_called s = start s
  step (has_listened n) s = listened n s
  step stop_called s = stop s
  step (ws_has_closed n) s = ws_closed n s
  step (http_has_closed n) s = http_closed n s

  pub run : List Event → Server P → Server P
  run [] s = s
  run (e ∷ es) s = run es (step e s)
