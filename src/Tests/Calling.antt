-- ===== src/Tests/Calling.antt =====
-- A call as the web application and the SFU see it: webapp/src/contexts/MediasoupService.tsx,
-- webapp/src/contexts/ServerConnection.tsx, webapp/src/components/Clients/RemoteClients.tsx,
-- webapp/src/store/remoteClientsSlice.tsx and sfu/src/main.ts; and the loggers.
use demo_app.Base.{
  eq_iff, arith, ◌≢◌, String, ℕ, List, [], ◌∷◌, ◌≡◌, refl, true, false, none, some, All, inl, eqb,
  if◌then◌else◌,
}
use demo_app.Base.JsMap
use demo_app.Base.JsMap.{JsMap}
use demo_app.Protocol.Json.{Json}
use demo_app.Protocol.Messages.{
  Message, TransportInfo, audio, category_of, type_of, request_id_of, RemoteClient,
}
use demo_app.Protocol.Codec.{Frame, frame_of, to_json}
use demo_app.Sfu.Room.State.{RoomConfig, Router}
use demo_app.Sfu.Room.Step
use demo_app.Sfu.Entry
use demo_app.Sfu.Entry.Halls.{id_at}
use demo_app.Sfu.Entry.Seating.{id_at-run}
use demo_app.Webapp.ServerConnection
use demo_app.Webapp.ServerConnection.{ServerConnectionConfig, negative, deliver}
use demo_app.Webapp.ServerConnection.Resolving.{IsSent-resolved}
use demo_app.Webapp.MediasoupService.State
use demo_app.Webapp.MediasoupService.State.{MediaObject, MediasoupService}
use demo_app.Webapp.MediasoupService.Media.{find_media_object_by_track, pause_media, resume_media}
use demo_app.Webapp.MediasoupService.Step as Service
use demo_app.Webapp.MediasoupService.Stages.{IsOrdered}
use demo_app.Webapp.MediasoupService.Order.{run-IsOrdered, consumer_created-early}
use demo_app.Webapp.MediasoupService.Pausing.{mark, Switched, find-pause_resume}
use demo_app.Webapp.Store.{initial_state, dispatch_all, added, audio_set, removed}
use demo_app.Webapp.Store.Refinement.{view-dispatch_all, IsUnique, view, replay}
use demo_app.Webapp.LocalMedia
use demo_app.Webapp.LocalMedia.Buttons
use demo_app.Webapp.RemoteClients
use demo_app.Webapp.RemoteClients.Agreement.{Agrees, run-init-Agrees}
use demo_app.Net.Logger
use demo_app.Net.Logger.{LogLevel, Method}
use demo_app.Net.Logger.Levels.{prints, meant, prints-run}

abbrev config : RoomConfig
config = record { ip = "127.0.0.1"; announced_ip = "10.0.0.1"; room_id = "lobby" }

abbrev router : Router
router = record { id = "call-1"; rtp_capabilities = Json.null; closed = false }

abbrev sign : String → String → String → ℕ → String
sign room client call expires = "token"

abbrev asking : List (ℕ × Step.Event)
asking =
    (1, Step.Event.added "ann" none)
    ∷ (2, Step.Event.received 0 (Frame.message (Message.get_router_capabilities_request "r1")))
    ∷ []

abbrev unlimited : ServerConnectionConfig
unlimited = record {
  max_retry = negative;
  max_buffer_time_in_ms = negative;
  max_buffer_size = negative;
}

-- A connection that waits for the answer to `r1`.
abbrev waiting : ServerConnection.ServerConnection ℕ
waiting =
    ServerConnection.request 0 "r1" (Message.get_router_capabilities_request "r1")
      (ServerConnection.init unlimited)

IsSent-resolved_example :
    let m = Message.get_router_capabilities_response "r1" Json.null in
    deliver (frame_of (some (to_json m))) waiting ≡ record waiting { resolved = (0, m) ∷ [] }
unfolding ServerConnection.request ServerConnection.init ServerConnection.pend JsMap.set JsMap.put
    JsMap.get JsMap.find category_of type_of request_id_of Step.run Step.step Step.add Step.init
IsSent-resolved_example =
    IsSent-resolved ℕ [] config router sign asking 0
      (Message.get_router_capabilities_response "r1" Json.null) "r1" 0 waiting (inl refl) refl refl
      refl refl

-- Ann and Bob come while the lobby is being created.
abbrev arrivals : List Entry.Event
arrivals =
    Entry.Event.socket_connected 0 (some "lobby") (some "ann") none
    ∷ Entry.Event.socket_connected 1 (some "lobby") (some "bob") none
    ∷ Entry.Event.socket_connected 2 none (some "eve") none
    ∷ Entry.Event.created 0 router
    ∷ Entry.Event.forgotten 0
    ∷ []

abbrev entered : Entry.Sfu
entered = Entry.run arrivals (Entry.init "127.0.0.1" "10.0.0.1" sign)

abbrev rooms_of : List Entry.Seat → List ℕ
rooms_of [] = []
rooms_of (t ∷ ts) = t.room ∷ rooms_of ts

-- Ann and Bob are in the same room, and Eve has been turned away.
same_room : (rooms_of entered.seats ≡ 0 ∷ 0 ∷ []) × (entered.refused ≡ (2, 4001) ∷ [])
unfolding Entry.run Entry.init JsMap.get JsMap.find JsMap.set JsMap.put
same_room = (refl, refl)

-- The router dies with its worker; Carl is put into the dead room all the same.
dead_room :
    rooms_of
      (Entry.run
        (Entry.Event.room_event 0 9 Step.Event.router_gone
          ∷ Entry.Event.socket_connected 3 (some "lobby") (some "carl") none
          ∷ [])
        entered).seats
    ≡ 0 ∷ 0 ∷ 0 ∷ []
unfolding Entry.run Entry.init JsMap.get JsMap.find JsMap.set JsMap.put
dead_room = refl

id_at-run_example :
    All (λ t. id_at entered.halls t.room ≡ some t.room_id) entered.seats
    × ((k : String) (n : ℕ)
        → JsMap.get k entered.rooms.rooms ≡ some n
        → id_at entered.halls n ≡ some k)
id_at-run_example = id_at-run "127.0.0.1" "10.0.0.1" sign arrivals

abbrev uuid : ℕ → String
uuid n = if eqb n 0 then "u0" else if eqb n 1 then "u1" else if eqb n 2 then "u2" else "u3"

abbrev transport : TransportInfo
transport = record {
  id = "t1";
  ice_parameters = Json.null;
  ice_candidates = Json.null;
  dtls_parameters = Json.null;
}

-- Up to the first transport.
abbrev connecting : List Service.Event
connecting =
    Service.Event.connect_called
    ∷ Service.Event.server_connected
    ∷ Service.Event.received (Message.get_router_capabilities_response "u0" Json.null)
    ∷ Service.Event.device_loaded Json.null
    ∷ Service.Event.received (Message.create_transport_response "u2" transport)
    ∷ []

abbrev half_connected : MediasoupService
half_connected = Service.run connecting (State.init "ann" "lobby" uuid)

run-IsOrdered_example : IsOrdered half_connected
run-IsOrdered_example = run-IsOrdered "ann" "lobby" uuid connecting

abbrev bob : RemoteClient
bob = record { user_id = none; client_id = "bob" }

consumer_created-early_example :
    Service.receive
      (Message.consumer_created_notification "c1" "p1" audio Json.null bob)
      half_connected
    ≡ half_connected
unfolding Service.run State.init
consumer_created-early_example =
    consumer_created-early "ann" "lobby" uuid connecting "c1" "p1" audio Json.null bob refl

-- A service that produces a track.
abbrev producing : MediasoupService
producing =
    Service.run
      (Service.Event.produce_done (record { id = "p1"; track_id = some "mic"; paused = false })
        ∷ [])
      (State.init "ann" "lobby" uuid)

find-pause_resume_example :
    let f = find_media_object_by_track "mic" producing in
    (find_media_object_by_track "mic" (pause_media "mic" producing) ≡ mark true f)
    × Switched true f producing (pause_media "mic" producing)
    × (find_media_object_by_track "mic" (resume_media "mic" producing) ≡ mark false f)
    × Switched false f producing (resume_media "mic" producing)
unfolding Service.run State.init JsMap.set JsMap.put JsMap.find
find-pause_resume_example =
    find-pause_resume "mic" producing (record { producers = (refl, tt); consumers = tt })

-- The service produces a second track, and the box shows both.
abbrev shown : LocalMedia.LocalMedia
shown = LocalMedia.media_ready (some "mic") (some "cam") (
    LocalMedia.init (
      some (
        Service.step
          (Service.Event.produce_done (record { id = "p2"; track_id = some "cam"; paused = false }))
          producing)))

abbrev microphone : String
microphone = "mic"

mic_is_not_cam : microphone ≢ "cam"
mic_is_not_cam e = absurd (ground (arith, (eq_iff "mic" "cam").1 e))

shown-Agrees : Buttons.Agrees "mic" "cam" shown
unfolding LocalMedia.init LocalMedia.media_ready Service.run Service.step State.init JsMap.set
    JsMap.put JsMap.find find_media_object_by_track
shown-Agrees = record {
  service = _;
  there = refl;
  has_audio = refl;
  has_video = refl;
  keyed = record { producers = (refl, (refl, tt)); consumers = tt };
  muted = refl;
  paused = refl;
}

press_all-Agrees_example :
    Buttons.Agrees "mic" "cam"
      (LocalMedia.press_all (LocalMedia.mic ∷ LocalMedia.cam ∷ LocalMedia.mic ∷ []) shown)
press_all-Agrees_example =
    Buttons.press_all-Agrees "mic" "cam" (LocalMedia.mic ∷ LocalMedia.cam ∷ LocalMedia.mic ∷ [])
      shown mic_is_not_cam shown-Agrees

view-dispatch_all_example :
    let actions =
      added (RemoteClients.new_client "bob" none)
      ∷ audio_set "bob" (some "mic")
      ∷ removed "eve"
      ∷ [] in
    IsUnique (dispatch_all actions initial_state).clients
    × (view (dispatch_all actions initial_state) ≡ replay actions (λ k. none))
view-dispatch_all_example = view-dispatch_all (
    added (RemoteClients.new_client "bob" none) ∷ audio_set "bob" (some "mic") ∷ removed "eve" ∷ [])

-- Bob's two tracks come, and one goes.
abbrev tracks : List RemoteClients.Event
tracks =
    RemoteClients.Event.added "bob" none (record { id = "mic"; is_audio = true })
    ∷ RemoteClients.Event.added "bob" none (record { id = "cam"; is_audio = false })
    ∷ RemoteClients.Event.removed "mic"
    ∷ []

run-init-Agrees_example : Agrees "bob" (RemoteClients.run [] tracks RemoteClients.init)
run-init-Agrees_example = run-init-Agrees tracks "bob"

abbrev logging : List Logger.Event
logging =
    Logger.Event.created "main" none
    ∷ Logger.Event.leveled LogLevel.info
    ∷ Logger.Event.created "Room" (some LogLevel.trace)
    ∷ []

prints-run_example :
    prints Method.debugging [] 0 (JsMap.get "main" (Logger.run logging Logger.initial).loggers)
    ≡ meant Method.debugging (some LogLevel.info)
prints-run_example = prints-run logging "main" Method.debugging [] 0
