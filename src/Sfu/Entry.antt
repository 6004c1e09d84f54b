-- ===== src/Sfu/Entry.antt =====
-- The entry point of the SFU (sfu/src/main.ts): web socket connections are put into rooms. A room is
-- the place of its state in `halls`, the number that `MediasoupRooms` knows it by; a web socket is a
-- number. Whoever waits for a room's promise is put into the room when the promise is fulfilled.
pub mod Halls
pub mod Promises
pub mod Waiting
pub mod Opening
pub mod Seating
use demo_app.Base.{
  String, ℕ, suc, ltb, ◌+◌, List, [], ◌∷◌, ◌++◌, Bool, not, ◌&&◌, Option, none, some, if◌then◌else◌,
  eqb, get_elem?, set as set_elem, length, select, truthy,
}
use demo_app.Sfu.Room.State.{Effect, Room, RoomConfig, Router}
use demo_app.Sfu.Room.Step
use demo_app.Sfu.Rooms
use demo_app.Sfu.Rooms.{Rooms, Creation, ready, pending}

-- A connection whose room has been asked for.
pub record Guest : Type 0 where
  pub socket : ℕ
  pub room_id : String
  pub client_id : String
  pub user_id : Option String
  pub promise : ℕ

-- A connection that is in a room: the room, and the handle of its client there.
pub record Seat : Type 0 where
  pub socket : ℕ
  pub room_id : String
  pub room : ℕ
  pub handle : ℕ

pub record Sfu : Type 0 where
  pub ip : String
  pub announced_ip : String
  pub sign : String → String → String → ℕ → String
  pub rooms : Rooms
  pub halls : List Room
  pub waiting : List Guest
  pub seats : List Seat
  -- The web sockets that were closed at once, with the code.
  pub refused : List (ℕ × ℕ)
  -- The rejections of `getOrCreateRoom` that nothing handles.
  pub unhandled : ℕ

unfoldable pub init : String → String → (String → String → String → ℕ → String) → Sfu
unfolding Rooms.init
init ip announced_ip sign = record {
  ip = ip;
  announced_ip = announced_ip;
  sign = sign;
  rooms = Rooms.init;
  halls = [];
  waiting = [];
  seats = [];
  refused = [];
  unhandled = 0;
}

-- `room.add(clientContext)`
pub seat : Guest → ℕ → Sfu → Sfu
unfolding Step.add
seat g n s = elim (get_elem? s.halls n) [
  | none ↦ s
  | some r ↦ record s {
    halls = set_elem s.halls n (Step.add g.client_id g.user_id r);
    seats =
        s.seats
        ++ record { socket = g.socket; room_id = g.room_id; room = n; handle = length r.store }
          ∷ [];
  }
]

-- A connection whose query has a room and a client.
pub answer : ℕ → String → String → Option String → Rooms.Answer → Sfu → Sfu
unfolding seat
answer socket room_id client_id user_id (ready n) s =
    seat
      (record {
        socket = socket;
        room_id = room_id;
        client_id = client_id;
        user_id = user_id;
        promise = 0;
      })
      n s
answer socket room_id client_id user_id (pending p) s = record s {
  waiting =
      s.waiting
      ++ record {
        socket = socket;
        room_id = room_id;
        client_id = client_id;
        user_id = user_id;
        promise = p;
      }
        ∷ [];
}

abbrev or_empty : Option String → String
or_empty none = ""
or_empty (some t) = t

welcome : ℕ → String → String → Option String → Sfu → Sfu
unfolding answer Rooms.get_or_create_room
welcome socket room_id client_id user_id s =
    let asked = Rooms.get_or_create_room room_id s.rooms in
    answer socket room_id client_id user_id asked.1 (record s { rooms = asked.0 })

-- The listener of `websocket-connection`.
pub connected : ℕ → Option String → Option String → Option String → Sfu → Sfu
unfolding welcome
connected socket room_id client_id user_id s =
    if truthy room_id && truthy client_id
    then welcome socket (or_empty room_id) (or_empty client_id) user_id s
    else record s { refused = (socket, 4001) ∷ s.refused }

pub seat_all : List Guest → ℕ → Sfu → Sfu
unfolding seat
seat_all [] n s = s
seat_all (g ∷ gs) n s = seat_all gs n (seat g n s)

abbrev pub waits_for : ℕ → Guest → Bool
waits_for p g = eqb g.promise p

-- The promise is fulfilled with the room.
pub admit : ℕ → ℕ → Sfu → Sfu
unfolding seat_all
admit p n s =
    seat_all (select (waits_for p) s.waiting) n
      (record s { waiting = select (λ g. not (waits_for p g)) s.waiting })

-- The room that `then` makes.
pub open_room : ℕ → Creation → Router → Sfu → Sfu
unfolding Step.init Rooms.make_room
open_room p c router s = record s {
  rooms = Rooms.make_room p c s.rooms;
  halls =
      s.halls
      ++ Step.init (record { ip = s.ip; announced_ip = s.announced_ip; room_id = c.room_id }) router
          s.sign
        ∷ [];
}

pub router_created : ℕ → Router → Sfu → Sfu
unfolding Rooms.find admit open_room
router_created p router s = elim (Rooms.find p s.rooms.creations) [
  | none ↦ s
  | some c ↦ (if c.settled then s else admit p s.rooms.next_room (open_room p c router s))
]

reject : ℕ → Creation → Sfu → Sfu
unfolding Rooms.fail
reject p c s = if c.settled then s else record s {
  rooms = Rooms.fail p c s.rooms;
  waiting = select (λ g. not (waits_for p g)) s.waiting;
  unhandled = s.unhandled + length (select (waits_for p) s.waiting);
}

pub router_failed : ℕ → Sfu → Sfu
unfolding Rooms.find reject
router_failed p s = elim (Rooms.find p s.rooms.creations) [ none ↦ s | some c ↦ reject p c s ]

pub finalized : ℕ → Sfu → Sfu
unfolding Rooms.finalized
finalized p s = record s { rooms = Rooms.finalized p s.rooms }

-- How often a room's `onClosed` has run.
pub hook_runs : List Effect → ℕ
hook_runs [] = 0
hook_runs (Effect.room_closed ∷ es) = suc (hook_runs es)
hook_runs (e ∷ es) = hook_runs es

-- `onClosed`, when the room's event has run it.
pub leave_rooms : Room → Room → Rooms → Rooms
unfolding Rooms.room_closed hook_runs
leave_rooms old new rooms =
    if ltb (hook_runs old.effects) (hook_runs new.effects)
    then Rooms.room_closed new.config.room_id rooms
    else rooms

pub in_room : ℕ → ℕ → Step.Event → Sfu → Sfu
unfolding Step.step leave_rooms
in_room n now e s = elim (get_elem? s.halls n) [
  | none ↦ s
  | some r ↦ record s {
    halls = set_elem s.halls n (Step.step now e r);
    rooms = leave_rooms r (Step.step now e r) s.rooms;
  }
]

pub data Event : Type 0 where
  socket_connected : (socket : ℕ) (room_id client_id user_id : Option String) → Event
  created : (promise : ℕ) → Router → Event
  failed forgotten : (promise : ℕ) → Event
  room_event : (room now : ℕ) → Step.Event → Event

pub step : Event → Sfu → Sfu
unfolding connected router_created router_failed finalized in_room
step (Event.socket_connected socket room_id client_id user_id) s =
    connected socket room_id client_id user_id s
step (Event.created p router) s = router_created p router s
step (Event.failed p) s = router_failed p s
step (Event.forgotten p) s = finalized p s
step (Event.room_event n now e) s = in_room n now e s

unfoldable pub run : List Event → Sfu → Sfu
unfolding step
run [] s = s
run (e ∷ es) s = run es (step e s)
