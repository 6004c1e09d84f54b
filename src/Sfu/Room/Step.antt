-- ===== src/Sfu/Room/Step.antt =====
-- The events of a room (sfu/src/media/Room.ts): `add`, what comes from the clients' web sockets, and
-- what comes from mediasoup. A schedule is a list of timed events; between two awaits of a listener
-- any others may come.
use demo_app.Base.{
  String, ℕ, List, [], ◌∷◌, ◌++◌, true, Option, none, some, if◌then◌else◌, get_elem?, erase_idx,
  length, is_some,
}
use demo_app.Base.JsMap
use demo_app.Base.JsMap.{JsMap}
use demo_app.Protocol.Messages.{Message}
use demo_app.Protocol.Codec.{Frame}
use demo_app.Sfu.ClientEvents
use demo_app.Sfu.ClientEvents.{ClientEvents, Received, ignored, thrown, fired}
use demo_app.Sfu.Room.State.{
  Handler, Client, RoomConfig, Router, Room, Effect, client_at, record_effect, modify, send, close,
  on_get_router_capabilities, on_client_rtp_capabilities, on_create_transport, on_join_call,
  on_transport_connected, on_create_producer, on_pause_producer, on_resume_producer, on_close,
}
use demo_app.Sfu.Room.Handlers.{handle, Outcome, fits, resume}

-- The constructor, on a new router.
unfoldable pub init : RoomConfig → Router → (String → String → String → ℕ → String) → Room
init config router sign = record {
  config = config;
  router = router;
  sign = sign;
  clients = JsMap.empty;
  store = [];
  tasks = [];
  effects = [];
}

-- The chain of `on` and `once` in `add`.
unfoldable pub room_events : ClientEvents Handler
unfolding ClientEvents.init ClientEvents.on ClientEvents.once
room_events = ClientEvents.once "close" on_close (
    ClientEvents.on "resume-producer-request" on_resume_producer (
      ClientEvents.on "pause-producer-request" on_pause_producer (
        ClientEvents.on "create-producer-request" on_create_producer (
          ClientEvents.on "transport-connected-notification" on_transport_connected (
            ClientEvents.on "join-call-request" on_join_call (
              ClientEvents.on "create-transport-request" on_create_transport (
                ClientEvents.on "client-rtp-capabilities" on_client_rtp_capabilities (
                  ClientEvents.on "get-router-capabilities-request" on_get_router_capabilities
                    ClientEvents.init))))))))

unfoldable pub new_client : String → Option String → Client
unfolding room_events
new_client client_id user_id = record {
  client_id = client_id;
  user_id = user_id;
  events = room_events;
  rtp_capabilities = none;
  snd_transport = none;
  rcv_transport = none;
  producers = JsMap.empty;
  consumers = JsMap.empty;
}

-- `add`: the new client's handle is the length of the store.
unfoldable pub add : String → Option String → Room → Room
unfolding new_client
add client_id user_id r = record r {
  clients = JsMap.set client_id (length r.store) r.clients;
  store = r.store ++ new_client client_id user_id ∷ [];
}

unfoldable pub set_events : ClientEvents Handler → Client → Client
set_events e c = record c { events = e }

-- Listeners run one after another, each on the client as it then is.
unfoldable pub run_handlers : ℕ → ℕ → List Handler → Frame → Room → Room
unfolding handle
run_handlers now h [] f r = r
run_handlers now h (handler ∷ hs) f r = elim (client_at h r) [
  | none ↦ r
  | some c ↦ run_handlers now h hs f (handle now h c handler f r)
]

unfoldable pub run_received : ℕ → ℕ → Received Handler → Frame → Room → Room
unfolding run_handlers record_effect
run_received now h ignored f r = r
run_received now h thrown f r = record_effect Effect.unhandled r
run_received now h (fired hs) f r = run_handlers now h hs f r

-- A text has come from the client's web socket.
unfoldable pub receive : ℕ → ℕ → Frame → Room → Room
unfolding run_received modify set_events ClientEvents.receive
receive now h f r = elim (client_at h r) [
  | none ↦ r
  | some c ↦
      let (e, received) = ClientEvents.receive f c.events in
      run_received now h received f (modify h (set_events e) r)
]

-- The client's web socket is closed. No listener of the room reads the events' listeners, so it does
-- not matter that they are removed before the listeners of `close` run.
unfoldable pub socket_closed : ℕ → ℕ → Room → Room
unfolding run_handlers modify set_events ClientEvents.socket_closed
socket_closed now h r = elim (client_at h r) [
  | none ↦ r
  | some c ↦
      let (e, hs) = ClientEvents.socket_closed c.events in
      run_handlers now h hs Frame.untyped (modify h (set_events e) r)
]

unfoldable pub settled : ℕ → ℕ → Outcome → Room → Room
unfolding fits resume
settled now i o r = elim (get_elem? r.tasks i) [
  | none ↦ r
  | some t ↦ if fits t o then resume now t o (record r { tasks = erase_idx r.tasks i }) else r
]

unfoldable pub remove_producer : String → Client → Client
remove_producer id c = record c { producers = JsMap.delete id c.producers }

unfoldable pub remove_consumer : String → Client → Client
remove_consumer id c = record c { consumers = JsMap.delete id c.consumers }

-- The observer's `close` of a producer of the client.
unfoldable pub producer_closed : ℕ → String → Room → Room
unfolding modify remove_producer
producer_closed h id r = modify h (remove_producer id) r

-- The observer's `close` of a consumer. Its listener is there as long as the entry in `consumers`.
unfoldable pub consumer_closed : ℕ → String → Room → Room
unfolding modify remove_consumer send
consumer_closed h id r = elim (client_at h r) [
  | none ↦ r
  | some c ↦
      if is_some (JsMap.get id c.consumers)
      then send h (Message.consumer_closed_notification id) (modify h (remove_consumer id) r)
      else r
]

-- The router is closed from without, with its worker. Its observer then calls `close`.
unfoldable pub router_closed : Room → Room
unfolding close
router_closed r = close (record r { router = record (r.router) { closed = true } })

pub data Event : Type 0 where
  added : (client_id : String) (user_id : Option String) → Event
  received : (handle : ℕ) → Frame → Event
  disconnected : (handle : ℕ) → Event
  answered : (task : ℕ) → Outcome → Event
  producer_gone consumer_gone : (handle : ℕ) (id : String) → Event
  router_gone : Event

unfoldable pub step : ℕ → Event → Room → Room
unfolding add receive socket_closed settled producer_closed consumer_closed router_closed
step now (Event.added id user) r = add id user r
step now (Event.received h f) r = receive now h f r
step now (Event.disconnected h) r = socket_closed now h r
step now (Event.answered i o) r = settled now i o r
step now (Event.producer_gone h id) r = producer_closed h id r
step now (Event.consumer_gone h id) r = consumer_closed h id r
step now Event.router_gone r = router_closed r

unfoldable pub run : List (ℕ × Event) → Room → Room
unfolding step
run [] r = r
run ((now, e) ∷ es) r = run es (step now e r)
