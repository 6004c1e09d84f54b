-- ===== src/Sfu/Room/Handlers.antt =====
-- The listeners that `add` of sfu/src/media/Room.ts registers, up to their first `await`, and what
-- follows when an `await` is answered.
use demo_app.Base.{
  String, ℕ, [], ◌∷◌, Bool, true, false, Option, none, some, if◌then◌else◌, is_some,
}
use demo_app.Base.JsMap
use demo_app.Base.JsMap.{JsMap}
use demo_app.Protocol.Json.{Json}
use demo_app.Protocol.Messages.{MediaKind, Role, producing, consuming, Message, TransportInfo}
use demo_app.Protocol.Codec.{Frame}
use demo_app.Sfu.Room.State.{
  Producer, Consumer, Handler, Client, Room, Job, Task, Effect, record_effect, await, modify, send,
  close, on_get_router_capabilities, on_client_rtp_capabilities, on_create_transport, on_join_call,
  on_transport_connected, on_create_producer, on_pause_producer, on_resume_producer, on_close,
}
use demo_app.Sfu.Room.Consume.{run_loop, consumed}

unfoldable pub set_rtp_capabilities : Json → Client → Client
set_rtp_capabilities caps c = record c { rtp_capabilities = some caps }

unfoldable pub set_transport : Role → TransportInfo → Client → Client
set_transport producing t c = record c { snd_transport = some t }
set_transport consuming t c = record c { rcv_transport = some t }

unfoldable pub transport_of : Role → Client → Option TransportInfo
transport_of producing c = c.snd_transport
transport_of consuming c = c.rcv_transport

unfoldable pub add_producer : Producer → Client → Client
add_producer p c = record c { producers = JsMap.set p.id p c.producers }

-- `create-transport-request`
unfoldable pub create_transport : ℕ → Client → String → Role → Room → Room
unfolding transport_of await record_effect
create_transport h c request_id role r =
    if is_some (transport_of role c)
    then r
    else await (Task.creating_transport h request_id role)
        (record_effect (Effect.transport_requested r.config.ip r.config.announced_ip) r)

-- `transport-connected-notification`
unfoldable pub connect_transport : ℕ → Client → Role → Json → Room → Room
unfolding transport_of await record_effect
connect_transport h c role dtls r = elim (transport_of role c) [
  | none ↦ r
  | some t ↦ await (Task.connecting h role) (record_effect (Effect.transport_connected t.id dtls) r)
]

-- `create-producer-request`
unfoldable pub create_producer : ℕ → Client → String → MediaKind → Json → Room → Room
unfolding await record_effect
create_producer h c request_id kind rtp r = elim c.snd_transport [
  | none ↦ r
  | some t ↦
      await (Task.creating_producer h request_id)
        (record_effect (Effect.producer_requested t.id kind rtp) r)
]

-- `pause-producer-request`
unfoldable pub pause_producer : ℕ → Client → String → String → Room → Room
unfolding await record_effect
pause_producer h c request_id producer_id r = elim (JsMap.get producer_id c.producers) [
  | none ↦ r
  | some p ↦ await (Task.pausing h request_id) (record_effect (Effect.producer_paused p.id) r)
]

-- `resume-producer-request`
unfoldable pub resume_producer : ℕ → Client → String → String → Room → Room
unfolding await record_effect
resume_producer h c request_id producer_id r = elim (JsMap.get producer_id c.producers) [
  | none ↦ r
  | some p ↦ await (Task.resuming h request_id) (record_effect (Effect.producer_resumed p.id) r)
]

-- `transport?.close()`
unfoldable pub close_transport : Option TransportInfo → Room → Room
unfolding record_effect
close_transport none r = r
close_transport (some t) r = record_effect (Effect.transport_closed t.id) r

-- `this._clients.delete(clientId)`
unfoldable pub remove_client : String → Room → Room
remove_client id r = record r { clients = JsMap.delete id r.clients }

-- `if (this._clients.size < 1) this.close()`
unfoldable pub close_if_empty : Room → Room
close_if_empty r = elim r.clients.entries [ [] ↦ close r | e ∷ es ↦ r ]

-- `close` of the client's events
unfoldable pub client_closed : Client → Room → Room
unfolding close_transport remove_client close_if_empty
client_closed c r = close_if_empty (
    remove_client c.client_id (close_transport c.rcv_transport (close_transport c.snd_transport r)))

-- A listener runs with the frame that was emitted. A frame of the listener's event that lacks a field
-- is not modelled.
unfoldable pub handle : ℕ → ℕ → Client → Handler → Frame → Room → Room
unfolding create_transport connect_transport create_producer pause_producer resume_producer
    client_closed
handle now h c on_get_router_capabilities
      (Frame.message (Message.get_router_capabilities_request i)) r =
    send h (Message.get_router_capabilities_response i r.router.rtp_capabilities) r
handle now h c on_client_rtp_capabilities
      (Frame.message (Message.client_rtp_capabilities_notification caps)) r =
    modify h (set_rtp_capabilities caps) r
handle now h c on_create_transport (Frame.message (Message.create_transport_request i role)) r =
    create_transport h c i role r
handle now h c on_join_call (Frame.message (Message.join_call_request i)) r =
    run_loop now (record { job = Job.joining i; owner = h; cursor = 0 }) r
handle now h c on_transport_connected
      (Frame.message (Message.transport_connected_notification i role dtls)) r =
    connect_transport h c role dtls r
handle now h c on_create_producer (Frame.message (Message.create_producer_request i kind rtp u)) r =
    create_producer h c i kind rtp r
handle now h c on_pause_producer (Frame.message (Message.pause_producer_request i p)) r =
    pause_producer h c i p r
handle now h c on_resume_producer (Frame.message (Message.resume_producer_request i p)) r =
    resume_producer h c i p r
handle now h c on_close f r = client_closed c r
handle now h c _ f r = r

-- What mediasoup answers to an `await`, or that a turn of the event loop has come.
pub data Outcome : Type 0 where
  rejected : Outcome
  done : Outcome
  transport_created : TransportInfo → Outcome
  producer_created : Producer → Outcome
  consumer_created : Consumer → Outcome

-- The answers that a task can get. `transport.connect`, `pause` and `resume` yield no value.
unfoldable pub fits : Task → Outcome → Bool
fits (Task.creating_transport h i role) (transport_created t) = true
fits (Task.creating_transport h i role) rejected = true
fits (Task.connecting h role) done = true
fits (Task.connecting h role) rejected = true
fits (Task.creating_producer h i) (producer_created p) = true
fits (Task.creating_producer h i) rejected = true
fits (Task.pausing h i) done = true
fits (Task.pausing h i) rejected = true
fits (Task.resuming h i) done = true
fits (Task.resuming h i) rejected = true
fits (Task.looping l) done = true
fits (Task.consuming k p) (consumer_created c) = true
fits (Task.consuming k p) rejected = true
fits _ _ = false

-- The rest of the listener up to its next `await`. A rejection is caught where the source has a
-- `catch`, and is otherwise unhandled.
unfoldable pub resume : ℕ → Task → Outcome → Room → Room
resume now (Task.creating_transport h i role) (transport_created t) r =
    send h (Message.create_transport_response i t) (modify h (set_transport role t) r)
resume now (Task.creating_transport h i role) rejected r = record_effect Effect.unhandled r
resume now (Task.creating_producer h i) (producer_created p) r =
    run_loop now (record { job = Job.feeding; owner = h; cursor = 0 })
      (send h (Message.create_producer_response i p.id) (modify h (add_producer p) r))
resume now (Task.pausing h i) _ r = send h (Message.pause_producer_response i) r
resume now (Task.resuming h i) _ r = send h (Message.pause_producer_response i) r
resume now (Task.looping loop) _ r = run_loop now loop r
resume now (Task.consuming k p) (consumer_created c) r = consumed k p c r
resume now (Task.consuming k p) rejected r = record_effect Effect.unhandled r
resume now _ _ r = r
