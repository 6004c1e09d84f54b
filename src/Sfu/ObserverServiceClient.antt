-- ===== src/Sfu/ObserverServiceClient.antt =====
-- `ObserverServiceClient` of sfu/src/common/ObserverServiceClient.ts: the SFU's connection to the
-- observer. It differs from the web application's class of the same name in that the listeners of
-- `error` and `close` are removed where they would have to be added, so they never run, and in that
-- `_connecting` is never cleared. An `error` of a web socket then has no listener, which in Node ends the
-- process: no event comes after it, and it is not one of the events here. Web sockets are numbers, and a sample stands for its encoding.
pub mod Once
pub mod Taken
use demo_app.Base.{
  String, ℕ, suc, List, [], ◌∷◌, ◌++◌, Bool, true, false, Option, none, some, if◌then◌else◌,
}

-- `_connecting`: undefined, pending, or fulfilled.
pub data Connecting : Type 0 where
  undefined : Connecting
  pending : (socket : ℕ) → Connecting
  fulfilled : Connecting

pub data Waiter : Type 0 where
  for_disconnect for_close : Waiter

pub record ObserverServiceClient : Type 0 where
  pub ws : Option ℕ
  pub connecting : Connecting
  pub closed : Bool
  pub buffer : List String
  pub can_connect : Bool
  -- What waits for `_connecting`.
  pub waiters : List Waiter
  -- How many web sockets have been made.
  pub next_socket : ℕ
  -- What was given to a web socket's `send`, in order.
  pub wire : List (ℕ × String)
  -- The web sockets that were told to close, the newest first.
  pub shut : List ℕ

pub init : ObserverServiceClient
init = record {
  ws = none;
  connecting = undefined;
  closed = false;
  buffer = [];
  can_connect = true;
  waiters = [];
  next_socket = 0;
  wire = [];
  shut = [];
}

-- `connect`, or none where it throws.
pub connect : ObserverServiceClient → Option ObserverServiceClient
connect s = if s.closed then none else (elim s.connecting [
  | undefined ↦ some (record s {
    connecting = pending s.next_socket;
    can_connect = true;
    next_socket = suc s.next_socket;
  })
  | _ ↦ some s
])

pub shut_socket : ObserverServiceClient → ObserverServiceClient
shut_socket s = elim s.ws [ none ↦ s | some w ↦ record s { shut = w ∷ s.shut } ]

pub leave : ObserverServiceClient → ObserverServiceClient
unfolding shut_socket
leave s = shut_socket (record s { can_connect = false })

-- `disconnect`, or none where it throws.
pub disconnect : ObserverServiceClient → Option ObserverServiceClient
unfolding leave
disconnect s = if s.closed then none else (elim s.connecting [
  | pending w ↦ some (record s { waiters = s.waiters ++ for_disconnect ∷ [] })
  | _ ↦ some (leave s)
])

pub close : ObserverServiceClient → ObserverServiceClient
unfolding shut_socket
close s = if s.closed then s else (elim s.connecting [
  | pending w ↦ record s { closed = true; waiters = s.waiters ++ for_close ∷ [] }
  | _ ↦ shut_socket (record s { closed = true })
])

pub run_waiters : List Waiter → ObserverServiceClient → ObserverServiceClient
unfolding leave shut_socket
run_waiters [] s = s
run_waiters (for_disconnect ∷ ws) s = run_waiters ws (leave s)
run_waiters (for_close ∷ ws) s = run_waiters ws (shut_socket s)

-- The web socket opens: `done`, and what waits for the promise.
pub opened : ObserverServiceClient → ObserverServiceClient
unfolding run_waiters
opened s = elim s.connecting [
  | pending w ↦
      run_waiters s.waiters (record s { connecting = fulfilled; ws = some w; waiters = [] })
  | _ ↦ s
]

pub send_all : ℕ → List String → List (ℕ × String)
send_all w [] = []
send_all w (x ∷ xs) = (w, x) ∷ send_all w xs

-- `send`, or none where it throws.
pub send : String → ObserverServiceClient → Option ObserverServiceClient
unfolding send_all
send x s = if s.closed then none else (elim s.ws [
  | none ↦ some (record s { buffer = s.buffer ++ x ∷ [] })
  | some w ↦ some (record s { wire = (s.wire ++ send_all w s.buffer) ++ (w, x) ∷ []; buffer = [] })
])

pub data Event : Type 0 where
  connect_called disconnect_called close_called : Event
  sent : (sample : String) → Event
  -- The web socket opens; it closes, for which the client has no listener.
  has_opened has_closed : Event

abbrev or_same : ObserverServiceClient → Option ObserverServiceClient → ObserverServiceClient
or_same s none = s
or_same s (some t) = t

pub step : Event → ObserverServiceClient → ObserverServiceClient
unfolding connect disconnect close send opened
step connect_called s = or_same s (connect s)
step disconnect_called s = or_same s (disconnect s)
step close_called s = close s
step (sent x) s = or_same s (send x s)
step has_opened s = opened s
step has_closed s = s

pub run : List Event → ObserverServiceClient → ObserverServiceClient
unfolding step
run [] s = s
run (e ∷ es) s = run es (step e s)
