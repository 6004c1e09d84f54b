-- ===== src/Webapp/MediasoupService/Step.antt =====
-- The events of `MediasoupService` (webapp/src/contexts/MediasoupService.tsx): what the connection to
-- the server, mediasoup-client and the application call. A response that lacks the field that is read
-- is not modelled.
use demo_app.Base.{String, ◌==◌, ℕ, List, [], ◌∷◌, Bool, not, if◌then◌else◌, select}
use demo_app.Protocol.Json.{Json}
use demo_app.Protocol.Messages.{MediaKind, Role, TransportInfo, Message}
use demo_app.Webapp.MediasoupService.State.{
  MediaObject, MediasoupService, Phase, Output, output, enter,
}
use demo_app.Webapp.MediasoupService.Connecting.{
  connect, ask_capabilities, load_device, create_transports, transport_created, observe,
  connect_transport, produce,
}
use demo_app.Webapp.MediasoupService.Media.{
  consumer_created, consumed, consume_failed, consumer_closed, consumer_gone, producer_gone,
  produce_media, add_producer, pause_media, resume_media,
}

pub listed : String → List String → Bool
listed i [] = Bool.false
listed i (x ∷ xs) = if x == i then Bool.true else listed i xs

-- A `produce` event's request is answered.
unfoldable pub produced : String → String → MediasoupService → MediasoupService
unfolding output listed
produced request_id producer_id s =
    if listed request_id s.producing
    then output (Output.produced_as producer_id)
        (record s { producing = select (λ i. not (i == request_id)) s.producing })
    else s

-- `connect` goes on with an answer of the router's capabilities, or of the call.
unfoldable pub on_capabilities : String → Json → Phase → MediasoupService → MediasoupService
unfolding load_device
on_capabilities i caps (Phase.asking_capabilities j) s = if i == j then load_device caps s else s
on_capabilities i caps p s = s

unfoldable pub on_transport : String → TransportInfo → Phase → MediasoupService → MediasoupService
unfolding transport_created
on_transport i t (Phase.creating j k snd rcv) s = transport_created i t j k snd rcv s
on_transport i t p s = s

unfoldable pub on_joined : String → String → Phase → MediasoupService → MediasoupService
unfolding observe
on_joined i call_id (Phase.joining j) s = if i == j then observe call_id s else s
on_joined i call_id p s = s

-- A message from the server: a response resolves the promise of its request, and two notifications
-- have listeners.
unfoldable pub receive : Message → MediasoupService → MediasoupService
unfolding on_capabilities on_transport on_joined produced consumer_created consumer_closed
receive (Message.get_router_capabilities_response i caps) s = on_capabilities i caps s.phase s
receive (Message.create_transport_response i t) s = on_transport i t s.phase s
receive (Message.join_call_response i call_id token) s = on_joined i call_id s.phase s
receive (Message.create_producer_response i p) s = produced i p s
receive (Message.consumer_created_notification c p k rtp w) s = consumer_created c p k w s
receive (Message.consumer_closed_notification c) s = consumer_closed c s
receive m s = s

unfoldable pub on_server_connected : Phase → MediasoupService → MediasoupService
unfolding ask_capabilities
on_server_connected Phase.connecting s = ask_capabilities s
on_server_connected p s = s

-- A rejection ends `connect`.
unfoldable pub on_failed : Phase → MediasoupService → MediasoupService
unfolding enter
on_failed Phase.connecting s = enter (Phase.failed s.phase) s
on_failed Phase.loading s = enter (Phase.failed s.phase) s
on_failed p s = s

unfoldable pub on_device_loaded : Json → Phase → MediasoupService → MediasoupService
unfolding create_transports
on_device_loaded caps Phase.loading s = create_transports caps s
on_device_loaded caps p s = s

unfoldable pub on_connect_called : Phase → MediasoupService → MediasoupService
unfolding connect
on_connect_called Phase.idle s = connect s
on_connect_called p s = s

pub data Event : Type 0 where
  connect_called server_connected awaited_failed : Event
  received : Message → Event
  -- With the capabilities of the device.
  device_loaded : Json → Event
  transport_connecting : Role → Json → Event
  producing : MediaKind → Json → Event
  consume_done : ℕ → MediaObject → Event
  consume_rejected : ℕ → Event
  consumer_ended producer_ended : (id : String) → Event
  media_added media_paused media_resumed : (track_id : String) → Event
  produce_done : MediaObject → Event

unfoldable pub step : Event → MediasoupService → MediasoupService
unfolding on_connect_called on_server_connected on_failed receive on_device_loaded connect_transport
    produce consumed consume_failed consumer_gone producer_gone produce_media pause_media
    resume_media add_producer
step Event.connect_called s = on_connect_called s.phase s
step Event.server_connected s = on_server_connected s.phase s
step Event.awaited_failed s = on_failed s.phase s
step (Event.received m) s = receive m s
step (Event.device_loaded caps) s = on_device_loaded caps s.phase s
step (Event.transport_connecting role dtls) s = connect_transport role dtls s
step (Event.producing kind rtp) s = produce kind rtp s
step (Event.consume_done n c) s = consumed n c s
step (Event.consume_rejected n) s = consume_failed n s
step (Event.consumer_ended id) s = consumer_gone id s
step (Event.producer_ended id) s = producer_gone id s
step (Event.media_added t) s = produce_media t s
step (Event.media_paused t) s = pause_media t s
step (Event.media_resumed t) s = resume_media t s
step (Event.produce_done p) s = add_producer p s

unfoldable pub run : List Event → MediasoupService → MediasoupService
unfolding step
run [] s = s
run (e ∷ es) s = run es (step e s)
