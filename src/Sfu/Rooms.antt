-- ===== src/Sfu/Rooms.antt =====
-- `MediasoupRooms` of sfu/src/media/Rooms.ts: the rooms by their id, and the creations under way.
-- A promise and a room are numbers. A creation is the promise chain of one call of `createRouter`:
-- `then`, which makes the room, and `finally`, which forgets the promise, are separate events.
pub mod Creations
pub mod Sharing
use demo_app.Base.{
  String, ℕ, suc, List, [], ◌∷◌, Bool, true, false, Option, none, some, if◌then◌else◌, eqb,
}
use demo_app.Base.JsMap
use demo_app.Base.JsMap.{JsMap}

pub record Creation : Type 0 where
  pub promise : ℕ
  pub room_id : String
  -- The router's promise has been fulfilled or rejected.
  pub settled : Bool

pub record Rooms : Type 0 where
  pub rooms : JsMap ℕ
  pub creating : JsMap ℕ
  pub creations : List Creation
  pub next_promise : ℕ
  pub next_room : ℕ
  -- Rejections that nothing handles.
  pub unhandled : ℕ

unfoldable pub init : Rooms
init = record {
  rooms = JsMap.empty;
  creating = JsMap.empty;
  creations = [];
  next_promise = 0;
  next_room = 0;
  unhandled = 0;
}

pub data Answer : Type 0 where
  -- The promise is already fulfilled with the room.
  ready : (room : ℕ) → Answer
  pending : (promise : ℕ) → Answer

unfoldable pub begin : String → Rooms → Rooms × Answer
begin room_id s = (
  record s {
    creating = JsMap.set room_id s.next_promise s.creating;
    creations =
        record { promise = s.next_promise; room_id = room_id; settled = false } ∷ s.creations;
    next_promise = suc s.next_promise;
  },
  pending s.next_promise,
)

unfoldable pub get_or_create_room : String → Rooms → Rooms × Answer
unfolding begin
get_or_create_room room_id s = elim (JsMap.get room_id s.rooms) [
  | some room ↦ (s, ready room)
  | none ↦ elim (JsMap.get room_id s.creating) [
    | some promise ↦ (s, pending promise)
    | none ↦ begin room_id s
  ]
]

unfoldable pub find : ℕ → List Creation → Option Creation
find p [] = none
find p (c ∷ cs) = if eqb c.promise p then some c else find p cs

unfoldable pub settle : ℕ → List Creation → List Creation
settle p [] = []
settle p (c ∷ cs) = if eqb c.promise p then record c { settled = true } ∷ cs else c ∷ settle p cs

unfoldable pub remove : ℕ → List Creation → List Creation
remove p [] = []
remove p (c ∷ cs) = if eqb c.promise p then cs else c ∷ remove p cs

-- `then`: the room is made and stored.
unfoldable pub make_room : ℕ → Creation → Rooms → Rooms
unfolding settle
make_room p c s = if c.settled then s else record s {
  rooms = JsMap.set c.room_id s.next_room s.rooms;
  creations = settle p s.creations;
  next_room = suc s.next_room;
}

unfoldable pub router_created : ℕ → Rooms → Rooms
unfolding find make_room
router_created p s = elim (find p s.creations) [ none ↦ s | some c ↦ make_room p c s ]

-- `createRouter` is rejected; so is the promise that `finally` returns, which nobody handles.
unfoldable pub fail : ℕ → Creation → Rooms → Rooms
unfolding settle
fail p c s =
    if c.settled
    then s
    else record s { creations = settle p s.creations; unhandled = suc s.unhandled }

unfoldable pub router_failed : ℕ → Rooms → Rooms
unfolding find fail
router_failed p s = elim (find p s.creations) [ none ↦ s | some c ↦ fail p c s ]

-- `finally`
unfoldable pub forget : ℕ → Creation → Rooms → Rooms
unfolding remove
forget p c s =
    if c.settled
    then record s { creating = JsMap.delete c.room_id s.creating; creations = remove p s.creations }
    else s

unfoldable pub finalized : ℕ → Rooms → Rooms
unfolding find forget
finalized p s = elim (find p s.creations) [ none ↦ s | some c ↦ forget p c s ]

-- `onClosed` of the room with the id.
unfoldable pub room_closed : String → Rooms → Rooms
room_closed room_id s = record s { rooms = JsMap.delete room_id s.rooms }

pub data Event : Type 0 where
  asked closed : (room_id : String) → Event
  created failed forgotten : (promise : ℕ) → Event

pub step : Event → Rooms → Rooms
unfolding get_or_create_room router_created router_failed finalized room_closed
step (Event.asked id) s = (get_or_create_room id s).0
step (Event.closed id) s = room_closed id s
step (Event.created p) s = router_created p s
step (Event.failed p) s = router_failed p s
step (Event.forgotten p) s = finalized p s

pub run : List Event → Rooms → Rooms
unfolding step
run [] s = s
run (e ∷ es) s = run es (step e s)
