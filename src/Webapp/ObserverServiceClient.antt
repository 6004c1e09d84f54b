-- ===== src/Webapp/ObserverServiceClient.antt =====
-- `ObserverServiceClient` of webapp/src/utils/ObserverServiceClient.ts: the web application's
-- connection to the observer. Web sockets are numbers. A sample stands for its encoding, and the
-- address, which is the same in every attempt, is left out.
--
-- The callbacks that follow an `open` without a wait are one step with it. What a rejected promise
-- means to its holders is not recorded.
pub mod Delivery
pub mod Retries
use demo_app.Base.{
  String, ℕ, suc, ◌-◌, List, [], ◌∷◌, ◌++◌, ◌||◌, Bool, true, false, not, Option, none, some,
  if◌then◌else◌, eqb, ltb, leb, select, map,
}

-- `_connecting`: the promise of the web socket that is waited for.
pub data Connecting : Type 0 where
  idle : Connecting
  dialing : (socket tried : ℕ) → Connecting
  -- The timer before the next attempt runs.
  pausing : (tried : ℕ) → Connecting

-- What waits for `_connecting`.
pub data Waiter : Type 0 where
  for_disconnect for_close : Waiter

pub record ObserverServiceClient : Type 0 where
  pub reconnect : Bool
  pub ws : Option ℕ
  pub connecting : Connecting
  pub closed : Bool
  pub buffer : List String
  pub can_connect : Bool
  pub waiters : List Waiter
  -- The web sockets with `closeListener`.
  pub established : List ℕ
  pub next_socket : ℕ
  -- What was given to a web socket's `send`, in order.
  pub wire : List (ℕ × String)
  -- The web sockets that were told to close, the newest first.
  pub shut : List ℕ

unfoldable pub init : Bool → ObserverServiceClient
init reconnect = record {
  reconnect = reconnect;
  ws = none;
  connecting = idle;
  closed = false;
  buffer = [];
  can_connect = true;
  waiters = [];
  established = [];
  next_socket = 0;
  wire = [];
  shut = [];
}

-- `new WebSocket` with its listeners.
pub dial : ℕ → ObserverServiceClient → ObserverServiceClient
dial tried s = record s {
  connecting = dialing s.next_socket tried;
  next_socket = suc s.next_socket;
}

-- `connect`, or none where it throws.
pub connect : ObserverServiceClient → Option ObserverServiceClient
unfolding dial
connect s =
    if s.closed
    then none
    else (elim s.connecting [ idle ↦ some (dial 0 (record s { can_connect = true })) | _ ↦ some s ])

-- `this._ws?.close()`
pub shut_socket : ObserverServiceClient → ObserverServiceClient
shut_socket s = elim s.ws [ none ↦ s | some w ↦ record s { shut = w ∷ s.shut } ]

pub leave : ObserverServiceClient → ObserverServiceClient
unfolding shut_socket
leave s = shut_socket (record s { can_connect = false })

-- `disconnect`, or none where it throws.
pub disconnect : ObserverServiceClient → Option ObserverServiceClient
unfolding leave
disconnect s = if s.closed then none else (elim s.connecting [
  | idle ↦ some (leave s)
  | _ ↦ some (record s { waiters = s.waiters ++ for_disconnect ∷ [] })
])

pub close : ObserverServiceClient → ObserverServiceClient
unfolding shut_socket
close s = if s.closed then s else (elim s.connecting [
  | idle ↦ shut_socket (record s { closed = true })
  | _ ↦ record s { closed = true; waiters = s.waiters ++ for_close ∷ [] }
])

pub run_waiters : List Waiter → ObserverServiceClient → ObserverServiceClient
unfolding leave shut_socket
run_waiters [] s = s
run_waiters (for_disconnect ∷ ws) s = run_waiters ws (leave s)
run_waiters (for_close ∷ ws) s = run_waiters ws (shut_socket s)

-- The promise is fulfilled: `closeListener` is attached, and what waits goes on.
pub establish : ℕ → ObserverServiceClient → ObserverServiceClient
unfolding run_waiters
establish w s =
    run_waiters s.waiters
      (record s { connecting = idle; ws = some w; established = w ∷ s.established; waiters = [] })

-- The web socket that is dialed opens.
pub opened : ObserverServiceClient → ObserverServiceClient
unfolding establish
opened s = elim s.connecting [ dialing w tried ↦ establish w s | _ ↦ s ]

-- The web socket that is dialed fails: the promise is rejected, or a timer starts.
pub failed : ObserverServiceClient → ObserverServiceClient
failed s = elim s.connecting [
  | dialing w tried ↦
      if ltb 10 tried
      then record s { connecting = idle; waiters = [] }
      else record s { connecting = pausing (suc tried) }
  | _ ↦ s
]

-- The timer has run.
pub elapsed : ObserverServiceClient → ObserverServiceClient
unfolding dial
elapsed s = elim s.connecting [ pausing tried ↦ dial tried s | _ ↦ s ]

abbrev contains : ℕ → List ℕ → Bool
contains n [] = false
contains n (m ∷ ms) = eqb m n || contains n ms

abbrev pub or_same : ObserverServiceClient → Option ObserverServiceClient → ObserverServiceClient
or_same s none = s
or_same s (some t) = t

-- The rest of `closeListener`, once `_ws` is undefined.
pub come_back : ℕ → ObserverServiceClient → ObserverServiceClient
unfolding close connect
come_back code s =
    if not s.can_connect || s.closed
    then s
    else if not s.reconnect || leb 4000 code
    then close s
    else or_same s (connect s)

-- A web socket that was open has closed: `closeListener`.
pub socket_gone : ℕ → ℕ → ObserverServiceClient → ObserverServiceClient
unfolding come_back
socket_gone w code s =
    if contains w s.established
    then come_back code
        (record s { established = select (λ v. not (eqb v w)) s.established; ws = none })
    else s

pub send_all : ℕ → List String → List (ℕ × String)
send_all w [] = []
send_all w (x ∷ xs) = (w, x) ∷ send_all w xs

-- `send`, or none where it throws.
pub send : String → ObserverServiceClient → Option ObserverServiceClient
unfolding send_all
send x s = if s.closed then none else (elim s.ws [
  | none ↦ some (record s { buffer = s.buffer ++ x ∷ [] })
  | some w ↦ some (record s { wire = (s.wire ++ send_all w s.buffer) ++ (w, x) ∷ []; buffer = [] })
])

pub data Event : Type 0 where
  connect_called disconnect_called close_called : Event
  sent : (sample : String) → Event
  has_opened has_failed has_elapsed : Event
  has_closed : (socket code : ℕ) → Event

pub step : Event → ObserverServiceClient → ObserverServiceClient
unfolding connect disconnect close send opened failed elapsed socket_gone
step connect_called s = or_same s (connect s)
step disconnect_called s = or_same s (disconnect s)
step close_called s = close s
step (sent x) s = or_same s (send x s)
step has_opened s = opened s
step has_failed s = failed s
step has_elapsed s = elapsed s
step (has_closed w code) s = socket_gone w code s

pub run : List Event → ObserverServiceClient → ObserverServiceClient
unfolding step
run [] s = s
run (e ∷ es) s = run es (step e s)
