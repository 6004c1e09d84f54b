-- ===== src/Webapp/MediasoupService/Order.antt =====
-- The order of the steps of `connect` in webapp/src/contexts/MediasoupService.tsx.
use demo_app.Base.{
  String, ℕ, List, [], ◌∷◌, ◌≡◌, refl, Bool, true, false, Bool-cases, Option-cases, inl, inr, arith,
  get_elem?,
}
use demo_app.Base.JsMap
use demo_app.Protocol.Json.{Json}
use demo_app.Protocol.Messages.{MediaKind, RemoteClient, Message}
use demo_app.Webapp.MediasoupService.State.{
  MediaObject, MediasoupService, Output, init, output, fresh,
}
use demo_app.Webapp.MediasoupService.Connecting.{connect_transport, produce}
use demo_app.Webapp.MediasoupService.Media.{
  consumer_created, consumed, consume_failed, consumer_closed, produce_media, pause_media,
  resume_media, switch, switched, Found, find_media_object_by_track, same,
}
use demo_app.Webapp.MediasoupService.Step.{Event, produced, listed, receive, step, run}
use demo_app.Webapp.MediasoupService.Stages.{stage_of, ready, IsOrdered, mute}
use demo_app.Webapp.MediasoupService.Phases.{
  on_connect_called-IsOrdered, on_server_connected-IsOrdered, on_failed-IsOrdered,
  on_device_loaded-IsOrdered, on_capabilities-IsOrdered, on_transport-IsOrdered,
  on_joined-IsOrdered,
}

produced-IsOrdered :
    (i p : String) (s : MediasoupService) → IsOrdered s → IsOrdered (produced i p s)
unfolding produced
produced-IsOrdered i p s v = elim (Bool-cases (listed i s.producing)) [
  | inl hit ↦ rw (produced, hit) (mute (Output.produced_as p) refl v)
  | inr miss ↦ rw (produced, miss) v
]

consumer_created-IsOrdered :
    (c p : String) (k : MediaKind) (w : RemoteClient) (s : MediasoupService)
    → IsOrdered s
    → IsOrdered (consumer_created c p k w s)
unfolding consumer_created output
consumer_created-IsOrdered c p k w s v = elim (Option-cases s.rcv_transport) [
  | inl e ↦ rw (consumer_created, e) v
  | inr (t, e) ↦ rw (consumer_created, e) (mute (Output.consume_asked t.id c p k) refl v)
]

produce_media-IsOrdered :
    (t : String) (s : MediasoupService) → IsOrdered s → IsOrdered (produce_media t s)
unfolding produce_media
produce_media-IsOrdered t s v = elim (Option-cases s.snd_transport) [
  | inl e ↦ rw (produce_media, e) (mute Output.thrown refl v)
  | inr (a, e) ↦ rw (produce_media, e) (mute (Output.produce_asked a.id t) refl v)
]

consumed-IsOrdered :
    (n : ℕ) (c : MediaObject) (s : MediasoupService) → IsOrdered s → IsOrdered (consumed n c s)
unfolding consumed
consumed-IsOrdered n c s v = elim (Option-cases (get_elem? s.consuming n)) [
  | inl e ↦ rw (consumed, e) v
  | inr (w, e) ↦
      rw (consumed, e) (mute (Output.added_media_consumer w.client_id w.user_id c.track_id) refl v)
]

consume_failed-IsOrdered :
    (n : ℕ) (s : MediasoupService) → IsOrdered s → IsOrdered (consume_failed n s)
unfolding consume_failed
consume_failed-IsOrdered n s v = elim (Option-cases (get_elem? s.consuming n)) [
  | inl e ↦ rw (consume_failed, e) v
  | inr (w, e) ↦ rw (consume_failed, e) (mute Output.unhandled refl v)
]

consumer_closed-IsOrdered :
    (c : String) (s : MediasoupService) → IsOrdered s → IsOrdered (consumer_closed c s)
unfolding consumer_closed
consumer_closed-IsOrdered c s v = elim (Option-cases (JsMap.get c s.consumers)) [
  | inl e ↦ rw (consumer_closed, e) v
  | inr (m, e) ↦ rw (consumer_closed, e) (mute (Output.removed_media_consumer m.track_id) refl v)
]

switched-mute : (b : Bool) (id : String) → stage_of (switched b id) ≡ []
switched-mute true id = refl
switched-mute false id = refl

switch-IsOrdered :
    (b : Bool) (f : Found) (s : MediasoupService) → IsOrdered s → IsOrdered (switch b f s)
unfolding switch
switch-IsOrdered b Found.nothing s v = v
switch-IsOrdered b (Found.producer e) s v = elim (Bool-cases (same b e.value.paused)) [
  | inl h ↦ rw (switch, h) v
  | inr h ↦ rw (switch, h) (mute (switched b e.value.id) (switched-mute b e.value.id) v)
]
switch-IsOrdered b (Found.consumer e) s v = elim (Bool-cases (same b e.value.paused)) [
  | inl h ↦ rw (switch, h) v
  | inr h ↦ rw (switch, h) (mute (switched b e.value.id) (switched-mute b e.value.id) v)
]

receive-IsOrdered : (m : Message) (s : MediasoupService) → IsOrdered s → IsOrdered (receive m s)
unfolding receive
receive-IsOrdered (Message.get_router_capabilities_response i caps) s v =
    on_capabilities-IsOrdered i caps s.phase s refl v
receive-IsOrdered (Message.create_transport_response i t) s v =
    on_transport-IsOrdered i t s.phase s refl v
receive-IsOrdered (Message.join_call_response i c t) s v = on_joined-IsOrdered i c s.phase s refl v
receive-IsOrdered (Message.create_producer_response i p) s v = produced-IsOrdered i p s v
receive-IsOrdered (Message.consumer_created_notification c p k rtp w) s v =
    consumer_created-IsOrdered c p k w s v
receive-IsOrdered (Message.consumer_closed_notification c) s v = consumer_closed-IsOrdered c s v
receive-IsOrdered m s v = v

step-IsOrdered : (e : Event) (s : MediasoupService) → IsOrdered s → IsOrdered (step e s)
unfolding step connect_transport produce pause_media resume_media
step-IsOrdered Event.connect_called s v = on_connect_called-IsOrdered s.phase s refl v
step-IsOrdered Event.server_connected s v = on_server_connected-IsOrdered s.phase s refl v
step-IsOrdered Event.awaited_failed s v = on_failed-IsOrdered s.phase s v
step-IsOrdered (Event.received m) s v = receive-IsOrdered m s v
step-IsOrdered (Event.device_loaded caps) s v = on_device_loaded-IsOrdered caps s.phase s refl v
step-IsOrdered (Event.transport_connecting role dtls) s v =
    mute (Output.notified (Message.transport_connected_notification (fresh s) role dtls)) refl v
step-IsOrdered (Event.producing k rtp) s v =
    mute (Output.requested (Message.create_producer_request (fresh s) k rtp "userId")) refl v
step-IsOrdered (Event.consume_done n c) s v = consumed-IsOrdered n c s v
step-IsOrdered (Event.consume_rejected n) s v = consume_failed-IsOrdered n s v
step-IsOrdered (Event.consumer_ended id) s v = v
step-IsOrdered (Event.producer_ended id) s v = v
step-IsOrdered (Event.media_added t) s v = produce_media-IsOrdered t s v
step-IsOrdered (Event.media_paused t) s v =
    switch-IsOrdered true (find_media_object_by_track t s) s v
step-IsOrdered (Event.media_resumed t) s v =
    switch-IsOrdered false (find_media_object_by_track t s) s v
step-IsOrdered (Event.produce_done p) s v = v

run-IsOrdered_from : (es : List Event) (s : MediasoupService) → IsOrdered s → IsOrdered (run es s)
unfolding run
run-IsOrdered_from [] s v = v
run-IsOrdered_from (e ∷ es) s v = run-IsOrdered_from es (step e s) (step-IsOrdered e s v)

-- Any events leave the service with the handshake's requests and messages sent in their one order, up
-- to where its phase says, and with the two transports there exactly when both have been created.
pub run-IsOrdered :
    (client_id room_id : String) (uuid : ℕ → String) (es : List Event)
    → IsOrdered (run es (init client_id room_id uuid))
unfolding init
run-IsOrdered c r uuid es =
    run-IsOrdered_from es (init c r uuid) (record { order = refl; snd = refl; rcv = refl })

-- A consumer that the server announces while `connect` does not have both transports yet is dropped:
-- the service stays as it was.
pub consumer_created-early :
    (client_id room_id : String) (uuid : ℕ → String) (es : List Event) (c p : String)
    (k : MediaKind) (rtp : Json) (w : RemoteClient)
    → ready (run es (init client_id room_id uuid)).phase ≡ false
    → receive
        (Message.consumer_created_notification c p k rtp w)
        (run es (init client_id room_id uuid))
      ≡ run es (init client_id room_id uuid)
unfolding receive consumer_created run
consumer_created-early client_id room_id uuid es c p k rtp w early =
    let s = run es (init client_id room_id uuid) in
    elim (Option-cases s.rcv_transport) [
      | inl e ↦ rw (consumer_created, e) refl
      | inr (t, e) ↦ absurd (ground (arith, (run-IsOrdered client_id room_id uuid es).rcv))
    ]
