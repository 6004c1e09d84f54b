-- ===== src/Tests/Meeting.antt =====
-- Ann produces, and Bob comes to consume her (sfu/src/media/Room.ts).
use demo_app.Base.{
  String, ℕ, ◌≤◌, List, [], ◌∷◌, ◌≡◌, refl, ◌==◌, ◌≢◌, eq_iff, arith, false, true, some, All,
  length,
}
use Prim.Native.String as Text
use text.Mathlib.TextLemmas.{append_cancel_left}
use demo_app.Base.JsMap
use demo_app.Protocol.Json.{Json}
use demo_app.Protocol.Messages.{type_of, Message, TransportInfo, producing, consuming, audio, video}
use demo_app.Protocol.Codec.{Frame}
use demo_app.Sfu.Room.State.{
  Client, Consumer, Consuming, Effect, Job, Loop, Producer, Room, RoomConfig, Router, client_at,
  sent,
}
use demo_app.Sfu.Room.Consume.{
  run_loop, consume_from, next_other, next_producer, ready, is_consumed,
}
use demo_app.Sfu.Room.Handlers.{
  set_transport, set_rtp_capabilities, add_producer, transport_created, producer_created,
}
use demo_app.Sfu.Room.Step.{init, add, Event, step, run, new_client}
use demo_app.Sfu.Room.Answers.{for_producer, responses, requests, only}
use demo_app.Sfu.Room.Answers.Once.{responses-run_le}
use demo_app.Sfu.Room.Feeding.Producers.{consumes}
use demo_app.Sfu.Room.Gathering.Rounds.{gathered}
use demo_app.Sfu.Room.Welcoming.{run-join_call}
use demo_app.Sfu.Room.Overlap.{consumer_requested_twice}

abbrev config : RoomConfig
config = record { ip = "127.0.0.1"; announced_ip = "10.0.0.1"; room_id = "lobby" }

abbrev router : Router
router = record { id = "call-1"; rtp_capabilities = Json.null; closed = false }

abbrev sign : String → String → String → ℕ → String
sign room client call expires = "token"

abbrev transport : TransportInfo
transport = record {
  id = "t1";
  ice_parameters = Json.null;
  ice_candidates = Json.null;
  dtls_parameters = Json.null;
}

abbrev other_transport : TransportInfo
other_transport = record transport { id = "t2" }

abbrev microphone : Producer
microphone = record { id = "p1"; kind = audio }

abbrev camera : Producer
camera = record { id = "p2"; kind = video }

abbrev says : Message → Frame
says m = Frame.message m

-- Ann has a microphone and a camera; Bob has told his capabilities and has a transport.
abbrev meeting : List (ℕ × Event)
meeting =
    (1, Event.added "ann" (some "Ann"))
    ∷ (2, Event.received 0 (says (Message.create_transport_request "r1" producing)))
    ∷ (3, Event.answered 0 (transport_created transport))
    ∷ (4, Event.received 0 (says (Message.create_producer_request "r2" audio Json.null "Ann")))
    ∷ (5, Event.answered 0 (producer_created microphone))
    ∷ (6, Event.received 0 (says (Message.create_producer_request "r3" video Json.null "Ann")))
    ∷ (7, Event.answered 0 (producer_created camera))
    ∷ (8, Event.added "bob" (some "Bob"))
    ∷ (9, Event.received 1 (says (Message.client_rtp_capabilities_notification Json.null)))
    ∷ (10, Event.received 1 (says (Message.create_transport_request "r4" consuming)))
    ∷ (11, Event.answered 0 (transport_created other_transport))
    ∷ []

abbrev met : Room
met = run meeting (init config router sign)

abbrev ann : Client
ann =
    add_producer camera
      (add_producer microphone (set_transport producing transport (new_client "ann" (some "Ann"))))

abbrev bob : Client
bob =
    set_transport consuming other_transport
      (set_rtp_capabilities Json.null (new_client "bob" (some "Bob")))

abbrev consumer_of : String → Consumer
consumer_of q = record {
  id = Text.◌++◌ "c-" q;
  producer_id = q;
  kind = audio;
  rtp_parameters = Json.null;
}

differ : ◌≢◌ {A = String} "bob" "ann"
differ e =
    let same : ("bob" == "ann") ≡ true = (eq_iff "bob" "ann").1 e in absurd (ground (arith, same))

run-join_call_example :
    let s =
      gathered 12
        (length met.tasks)
        consumer_of
        2
        (JsMap.size met.clients)
        (step 12 (Event.received 1 (says (Message.join_call_request "r5"))) met) in
    (s.tasks ≡ met.tasks)
    × ((d : Client) × (client_at 1 s ≡ some d)
        × All (λ x. consumes d x.value.id ≡ true) ann.producers.entries)
    × ((call : String) × (token : String) × (before : List Effect) × (s.effects
          ≡ sent 1 (Message.join_call_response "r5" call token) ∷ before))
unfolding run step add init JsMap.get JsMap.find type_of set_transport set_rtp_capabilities run_loop
    add_producer JsMap.set JsMap.put new_client
run-join_call_example =
    run-join_call config router sign meeting consumer_of Json.null other_transport 12 2 "r5" "bob"
      "ann" 1 0 bob ann (λ q. refl) (λ a b e. append_cancel_left "c-" a b e) refl refl refl refl
      refl tt (omega arith, (omega arith, tt)) refl refl differ

-- Each of Ann's requests for a producer is answered once.
responses-run_le_example :
    responses (only 0 (for_producer "r2")) met.effects
    ≤ requests (only 0 (for_producer "r2")) meeting
responses-run_le_example = responses-run_le config router sign meeting 0 (for_producer "r2")

one_answer : responses (only 0 (for_producer "r2")) met.effects ≡ 1
unfolding run step add init responses only type_of set_transport set_rtp_capabilities run_loop
    add_producer JsMap.set JsMap.put new_client
one_answer = refl

abbrev feeding : Loop
feeding = record { job = Job.feeding; owner = 0; cursor = 2 }

-- The loop of one of Ann's requests has come to Bob, who then asks to join.
consumer_requested_twice_example :
    let k : Consuming = record {
      loop = feeding;
      producing_client_id = "ann";
      producing = 0;
      consuming_client_id = "bob";
      consuming = 1;
      cursor = 0;
    } in
    let request = Effect.consumer_requested "t2" "p1" Json.null in
    (step 12
      (Event.received 1 (Frame.message (Message.join_call_request "r5")))
      (consume_from k met)).effects
    ≡ request ∷ request ∷ met.effects
unfolding run step add init JsMap.get JsMap.find type_of set_transport set_rtp_capabilities run_loop
    add_producer JsMap.set JsMap.put new_client next_other next_producer ready is_consumed
consumer_requested_twice_example =
    consumer_requested_twice 12 0 1 "r5" feeding ann bob
      (record { stamp = 0; key = "ann"; value = 0 })
      (record { stamp = 0; key = "p1"; value = microphone }) Json.null other_transport met refl refl
      refl refl refl refl refl
