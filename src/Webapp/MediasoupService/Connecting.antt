-- ===== src/Webapp/MediasoupService/Connecting.antt =====
-- `connect` of webapp/src/contexts/MediasoupService.tsx, cut at its awaits, and `_createTransport`.
use demo_app.Base.{String, ◌==◌, ◌∷◌, Option, none, some, if◌then◌else◌}
use demo_app.Protocol.Json.{Json}
use demo_app.Protocol.Messages.{MediaKind, Message, Role, producing, consuming, TransportInfo}
use demo_app.Webapp.MediasoupService.State.{
  MediasoupService, Phase, Output, output, fresh, take_uuid, enter,
}

-- Up to the await of the server's connection.
unfoldable pub connect : MediasoupService → MediasoupService
unfolding output enter
connect s = enter Phase.connecting (output Output.server_dialed s)

-- The server's connection is there.
unfoldable pub ask_capabilities : MediasoupService → MediasoupService
unfolding output enter take_uuid
ask_capabilities s =
    enter (Phase.asking_capabilities (fresh s))
      (output (Output.requested (Message.get_router_capabilities_request (fresh s))) (take_uuid s))

-- The router's capabilities are there.
unfoldable pub load_device : Json → MediasoupService → MediasoupService
unfolding output enter
load_device caps s = enter Phase.loading (output (Output.device_loading caps) s)

-- A request for a transport.
unfoldable pub ask_transport : Role → MediasoupService → MediasoupService
unfolding output take_uuid
ask_transport role s =
    output (Output.requested (Message.create_transport_request (fresh s) role)) (take_uuid s)

-- The device is loaded and has its capabilities.
unfoldable pub create_transports : Json → MediasoupService → MediasoupService
unfolding output enter ask_transport
create_transports caps s =
    let s₁ = output (Output.notified (Message.client_rtp_capabilities_notification caps)) s in
    let s₂ = ask_transport producing s₁ in
    enter (Phase.creating (fresh s₁) (fresh s₂) none none) (ask_transport consuming s₂)

-- Both transports are there.
unfoldable pub join : TransportInfo → TransportInfo → MediasoupService → MediasoupService
unfolding output enter take_uuid
join snd rcv s = enter (Phase.joining (fresh s)) (
    output (Output.requested (Message.join_call_request (fresh s)))
      (take_uuid (record s { snd_transport = some snd; rcv_transport = some rcv })))

-- What `Promise.all` has now.
unfoldable pub created :
    String
    → String
    → Option TransportInfo
    → Option TransportInfo
    → MediasoupService
    → MediasoupService
unfolding join enter
created i j (some snd) (some rcv) s = join snd rcv s
created i j (some snd) none s = enter (Phase.creating i j (some snd) none) s
created i j none rcv s = enter (Phase.creating i j none rcv) s

-- A transport's options have come, to the request with the identifier.
unfoldable pub transport_created :
    String
    → TransportInfo
    → String
    → String
    → Option TransportInfo
    → Option TransportInfo
    → MediasoupService
    → MediasoupService
unfolding created
transport_created request_id t i j snd rcv s =
    if request_id == i
    then created i j (some t) rcv s
    else if request_id == j
    then created i j snd (some t) s
    else s

-- The call is joined: the service goes on to observe it.
unfoldable pub observe : String → MediasoupService → MediasoupService
unfolding output enter
observe call_id s =
    enter (Phase.joined call_id) (output (Output.observed s.client_id call_id s.room_id) s)

-- The listener of a transport's `connect` event.
unfoldable pub connect_transport : Role → Json → MediasoupService → MediasoupService
unfolding output take_uuid
connect_transport role dtls s =
    output (Output.notified (Message.transport_connected_notification (fresh s) role dtls))
      (take_uuid s)

-- The listener of the sending transport's `produce` event.
unfoldable pub produce : MediaKind → Json → MediasoupService → MediasoupService
unfolding output take_uuid
produce kind rtp s =
    let asked =
      output (Output.requested (Message.create_producer_request (fresh s) kind rtp "userId"))
        (take_uuid s) in
    record asked { producing = fresh s ∷ s.producing }
