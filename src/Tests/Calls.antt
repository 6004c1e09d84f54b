-- ===== src/Tests/Calls.antt =====
-- A call between Ann and Bob in a room (sfu/src/media/Room.ts, ClientEvents.ts, Rooms.ts).
use demo_app.Base.{none, String, ℕ, ◌≤◌, List, [], ◌∷◌, ◌++◌, ◌≡◌, refl, ◌⊎◌, true, false, some}
use demo_app.Base.JsMap
use demo_app.Protocol.Json.{Json}
use demo_app.Sfu.Room.Consume.{run_loop}
use demo_app.Protocol.Messages.{type_of, Message, Role, TransportInfo, producing, audio}
use demo_app.Protocol.Codec.{Frame, frame_of, to_json}
use demo_app.Protocol.Codec.RoundTrip.{frame_of-to_json}
use demo_app.Sfu.Room.State.{Client, Effect, Producer, Room, RoomConfig, Router, client_at}
use demo_app.Sfu.Room.Handlers.{
  transport_of, set_transport, add_producer, transport_created, producer_created, done,
}
use demo_app.Sfu.Room.Step.{init, add, Event, step, run, new_client}
use demo_app.Sfu.Room.Ending.{run-closings, router_gone-closings, closings}
use demo_app.Sfu.Room.Leaving.{rejoined_lem, disconnected_lem, closed_room, is_empty}
use demo_app.Sfu.Room.Silence.{disconnected-sent_to, sent_to}
use demo_app.Sfu.Room.Transports.{create_transport_twice}
use demo_app.Sfu.Room.Registry.{run-IsRegistered, Holds}
use demo_app.Sfu.Rooms
use demo_app.Sfu.Rooms.{Rooms, get_or_create_room, pending}
use demo_app.Sfu.Rooms.Creations.{IsSound}
use demo_app.Sfu.Rooms.Sharing.{run-init-IsSound}

abbrev config : RoomConfig
config = record { ip = "127.0.0.1"; announced_ip = "10.0.0.1"; room_id = "lobby" }

abbrev router : Router
router = record { id = "call-1"; rtp_capabilities = Json.null; closed = false }

abbrev sign : String → String → String → ℕ → String
sign room client call expires = "token"

abbrev transport : TransportInfo
transport = record {
  id = "t1";
  ice_parameters = Json.null;
  ice_candidates = Json.null;
  dtls_parameters = Json.null;
}

abbrev microphone : Producer
microphone = record { id = "p1"; kind = audio }

abbrev says : Message → Frame
says m = Frame.message m

-- Ann joins and produces; Bob joins, asks for a transport, and his web socket closes before it is made.
abbrev call : List (ℕ × Event)
call =
    (1, Event.added "ann" (some "Ann"))
    ∷ (2, Event.received 0 (says (Message.create_transport_request "r1" producing)))
    ∷ (3, Event.answered 0 (transport_created transport))
    ∷ (4, Event.received 0 (says (Message.create_producer_request "r2" audio Json.null "Ann")))
    ∷ (5, Event.answered 0 (producer_created microphone))
    ∷ (6, Event.added "bob" (some "Bob"))
    ∷ (7, Event.received 1 (says (Message.create_transport_request "r3" Role.consuming)))
    ∷ []

abbrev opened : Room
opened = init config router sign

abbrev in_call : Room
in_call = run call opened

abbrev ann_joined : Room
ann_joined = add "ann" (some "Ann") opened

abbrev ann : Client
ann = new_client "ann" (some "Ann")

-- What follows after Bob has left, and the end of the call.
abbrev rest : List (ℕ × Event)
rest =
    (9, Event.answered 0 (transport_created transport))
    ∷ (10, Event.received 0 (says (Message.pause_producer_request "r4" "p1")))
    ∷ (11, Event.answered 0 done)
    ∷ (12, Event.disconnected 0)
    ∷ (13, Event.router_gone)
    ∷ []

-- Ann has left last, so the hook has run, and once only.
ann_leaves : closings (run rest (step 8 (Event.disconnected 1) in_call)).effects ≡ 1
unfolding run step init closings type_of set_transport run_loop add_producer JsMap.set JsMap.put
    JsMap.delete JsMap.erase JsMap.get JsMap.find
ann_leaves = refl

run-closings_example :
    let s = run (call ++ rest) opened in
    (closings s.effects ≤ 1) × ((s.router.closed ≡ true) ⊎ (closings s.effects ≡ 0))
run-closings_example = run-closings config router sign (call ++ rest)

router_gone-closings_example :
    let s = run rest (step 8 Event.router_gone in_call) in
    (s.router.closed ≡ true) × (closings s.effects ≡ closings in_call.effects)
router_gone-closings_example = router_gone-closings 8 rest in_call

-- Ann leaves as the only client: her entry goes, and the room closes.
disconnected_lem_example :
    let s = step 2 (Event.disconnected 0) ann_joined in
    let left = JsMap.delete "ann" ann_joined.clients in
    (s.clients ≡ left)
    × (s.router.closed ≡ is_empty left.entries)
    × (s.effects ≡ closed_room left.entries ann_joined.effects)
unfolding add init
disconnected_lem_example = disconnected_lem 2 0 ann ann_joined refl refl refl

disconnected-sent_to_example :
    sent_to 0 (run rest (step 2 (Event.disconnected 0) ann_joined)).effects
    ≡ sent_to 0 ann_joined.effects
unfolding add init
disconnected-sent_to_example = disconnected-sent_to 2 0 ann ann_joined rest refl

run-IsRegistered_example : Holds 0 "ann" in_call
unfolding run step add init JsMap.get JsMap.find type_of set_transport run_loop add_producer
    JsMap.set JsMap.put
run-IsRegistered_example = run-IsRegistered config router sign call "ann" 0 refl

frame_of-to_json_example :
    frame_of (some (to_json (Message.create_transport_response "r1" transport)))
    ≡ says (Message.create_transport_response "r1" transport)
frame_of-to_json_example = frame_of-to_json (Message.create_transport_response "r1" transport)

abbrev asks : List Rooms.Event
asks =
    Rooms.Event.asked "lobby"
    ∷ Rooms.Event.asked "lobby"
    ∷ Rooms.Event.asked "attic"
    ∷ Rooms.Event.created 0
    ∷ Rooms.Event.failed 1
    ∷ Rooms.Event.forgotten 0
    ∷ Rooms.Event.closed "lobby"
    ∷ []

run-init-IsSound_example : IsSound (Rooms.run asks Rooms.init)
run-init-IsSound_example = run-init-IsSound asks

abbrev other_transport : TransportInfo
other_transport = record transport { id = "t2" }

create_transport_twice_example :
    let s =
      run
        ((3, Event.received 0 (says (Message.create_transport_request "r1" producing)))
          ∷ (3, Event.received 0 (says (Message.create_transport_request "r2" producing)))
          ∷ (3, Event.answered 0 (transport_created transport))
          ∷ (3, Event.answered 0 (transport_created other_transport))
          ∷ [])
        ann_joined in
    (client_at 0 s ≡ some (set_transport producing other_transport ann))
    × (s.effects
        ≡ Effect.sent 0 (Message.create_transport_response "r2" other_transport)
          ∷ Effect.sent 0 (Message.create_transport_response "r1" transport)
          ∷ Effect.transport_requested "127.0.0.1" "10.0.0.1"
          ∷ Effect.transport_requested "127.0.0.1" "10.0.0.1"
          ∷ ann_joined.effects)
    × (s.tasks ≡ ann_joined.tasks)
unfolding add init transport_of
create_transport_twice_example =
    create_transport_twice 3 0 "r1" "r2" producing transport other_transport ann ann_joined refl
      refl refl

rejoined_lem_example :
    let s = run ((4, Event.added "ann" none) ∷ (4, Event.disconnected 0) ∷ []) ann_joined in
    (JsMap.get "ann" s.clients ≡ none) × (client_at 1 s ≡ some (new_client "ann" none))
unfolding add init
rejoined_lem_example = rejoined_lem 4 0 none ann ann_joined refl refl refl
