-- ===== src/Sfu/Room/State.antt =====
-- The state of a room (sfu/src/media/Room.ts), with what it holds of mediasoup's objects, and the
-- updates that the handlers are made of.
--
-- A client is an object that the listeners of its web socket share, and that may outlive its entry
-- in `_clients`: clients stand in a store, and a handle is the place of one there. What an `await`
-- waits for is a task. Calls of mediasoup and of the web sockets are recorded as effects, the newest
-- first; what mediasoup answers comes with the events that resume the tasks.
pub mod Frames
use demo_app.Base.{
  String, ℕ, List, [], ◌∷◌, ◌++◌, Bool, true, Option, none, some, if◌then◌else◌, get_elem?,
  set as set_elem,
}
use demo_app.Base.JsMap.{JsMap}
use demo_app.Protocol.Json.{Json}
use demo_app.Protocol.Messages.{MediaKind, Role, TransportInfo, Message}
use demo_app.Sfu.ClientEvents.{ClientEvents, can_send}

pub record Producer : Type 0 where
  pub id : String
  pub kind : MediaKind

pub record Consumer : Type 0 where
  pub id : String
  pub producer_id : String
  pub kind : MediaKind
  pub rtp_parameters : Json

-- The listeners that `add` registers.
pub data Handler : Type 0 where
  on_get_router_capabilities on_client_rtp_capabilities on_create_transport on_join_call : Handler
  on_transport_connected on_create_producer on_pause_producer on_resume_producer on_close : Handler

pub record Client : Type 0 where
  pub client_id : String
  pub user_id : Option String
  pub events : ClientEvents Handler
  pub rtp_capabilities : Option Json
  pub snd_transport : Option TransportInfo
  pub rcv_transport : Option TransportInfo
  pub producers : JsMap Producer
  pub consumers : JsMap Consumer

pub record RoomConfig : Type 0 where
  pub ip : String
  pub announced_ip : String
  pub room_id : String

pub record Router : Type 0 where
  pub id : String
  pub rtp_capabilities : Json
  pub closed : Bool

-- The loop over the other clients in the listener of `join-call-request`, which then answers the
-- request, or in that of `create-producer-request`.
pub data Job : Type 0 where
  joining : (request_id : String) → Job
  feeding : Job

-- Such a loop: whose listener it is, and where the iterator of `_clients` stands.
pub record Loop : Type 0 where
  pub job : Job
  pub owner : ℕ
  pub cursor : ℕ

-- A call of `_consumeClient` inside a loop: the two clients that it looked up, and where the iterator
-- of the producers stands.
pub record Consuming : Type 0 where
  pub loop : Loop
  pub producing_client_id : String
  pub producing : ℕ
  pub consuming_client_id : String
  pub consuming : ℕ
  pub cursor : ℕ

pub data Task : Type 0 where
  creating_transport : (owner : ℕ) (request_id : String) → Role → Task
  connecting : (owner : ℕ) → Role → Task
  creating_producer : (owner : ℕ) (request_id : String) → Task
  pausing resuming : (owner : ℕ) (request_id : String) → Task
  -- `_consumeClient` has returned to the loop.
  looping : Loop → Task
  -- `consume` is called for the producer with the id.
  consuming : Consuming → (producer_id : String) → Task

pub data Effect : Type 0 where
  sent : (handle : ℕ) → Message → Effect
  transport_requested : (ip announced_ip : String) → Effect
  transport_connected : (transport_id : String) → Json → Effect
  producer_requested : (transport_id : String) → MediaKind → Json → Effect
  consumer_requested : (transport_id producer_id : String) → (rtp_capabilities : Json) → Effect
  producer_paused producer_resumed : (producer_id : String) → Effect
  transport_closed : (transport_id : String) → Effect
  router_closed : Effect
  -- The hook `onClosed` has run.
  room_closed : Effect
  -- A rejected promise or an exception that nothing handles.
  unhandled : Effect

pub record Room : Type 0 where
  pub config : RoomConfig
  pub router : Router
  -- `jwt.sign` of the room's, the client's and the call's id and the time of expiry.
  pub sign : String → String → String → ℕ → String
  pub clients : JsMap ℕ
  pub store : List Client
  pub tasks : List Task
  pub effects : List Effect

abbrev pub client_at : ℕ → Room → Option Client
client_at h r = get_elem? r.store h

unfoldable pub record_effect : Effect → Room → Room
record_effect e r = record r { effects = e ∷ r.effects }

unfoldable pub await : Task → Room → Room
await t r = record r { tasks = r.tasks ++ t ∷ [] }

-- An assignment to a field of a client.
unfoldable pub modify : ℕ → (Client → Client) → Room → Room
modify h f r = elim (client_at h r) [
  | none ↦ r
  | some c ↦ record r { store = set_elem r.store h (f c) }
]

-- `events.send`, which does nothing once the events are closed.
unfoldable pub send : ℕ → Message → Room → Room
unfolding can_send record_effect
send h m r = elim (client_at h r) [
  | none ↦ r
  | some c ↦ if can_send c.events then record_effect (sent h m) r else r
]

-- `close`.
unfoldable pub close : Room → Room
close r = if r.router.closed then r else record r {
  router = record (r.router) { closed = true };
  effects = room_closed ∷ router_closed ∷ r.effects;
}
