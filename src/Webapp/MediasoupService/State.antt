-- ===== src/Webapp/MediasoupService/State.antt =====
-- The state of `MediasoupService` (webapp/src/contexts/MediasoupService.tsx), and what it asks of the
-- connection to the server, of mediasoup-client and of its listeners, in the order of the calls.
use demo_app.Base.{String, ℕ, suc, List, [], ◌∷◌, ◌++◌, Bool, Option, none}
use demo_app.Base.JsMap
use demo_app.Base.JsMap.{JsMap}
use demo_app.Protocol.Json.{Json}
use demo_app.Protocol.Messages.{MediaKind, Message, RemoteClient, TransportInfo}

-- A producer or a consumer of mediasoup-client.
pub record MediaObject : Type 0 where
  pub id : String
  pub track_id : Option String
  pub paused : Bool

-- Where the call of `connect` waits; the application makes one for a service.
pub data Phase : Type 0 where
  idle connecting loading : Phase
  asking_capabilities joining : (request_id : String) → Phase
  -- The two requests of `Promise.all`, and what has come of each.
  creating : (snd_request rcv_request : String) (snd rcv : Option TransportInfo) → Phase
  joined : (call_id : String) → Phase
  -- An await of `connect` was rejected.
  failed : (at : Phase) → Phase

pub data Output : Type 0 where
  server_dialed : Output
  -- `request` and `sendMessage` of the connection.
  requested notified : Message → Output
  device_loading : (rtp_capabilities : Json) → Output
  -- `connect` of the client of the observer, with the query string's values.
  observed : (client_id call_id room_id : String) → Output
  consume_asked : (transport_id consumer_id producer_id : String) → MediaKind → Output
  produce_asked : (transport_id track_id : String) → Output
  -- The callback of a `produce` event.
  produced_as : (producer_id : String) → Output
  added_media_consumer :
      (client_id : String) → (user_id : Option String) → (track_id : Option String) → Output
  removed_media_consumer : (track_id : Option String) → Output
  paused resumed : (id : String) → Output
  -- An error that is thrown to the caller, and a rejection that nothing handles.
  thrown unhandled : Output

pub record MediasoupService : Type 0 where
  pub client_id : String
  pub room_id : String
  -- `uuid()`, by the number of the call.
  pub uuid : ℕ → String
  pub uuids : ℕ
  pub phase : Phase
  pub snd_transport : Option TransportInfo
  pub rcv_transport : Option TransportInfo
  pub producers : JsMap MediaObject
  pub consumers : JsMap MediaObject
  -- The requests of `produce` events, and the clients of the consumers that are awaited.
  pub producing : List String
  pub consuming : List RemoteClient
  pub outputs : List Output

unfoldable pub init : String → String → (ℕ → String) → MediasoupService
init client_id room_id uuid = record {
  client_id = client_id;
  room_id = room_id;
  uuid = uuid;
  uuids = 0;
  phase = Phase.idle;
  snd_transport = none;
  rcv_transport = none;
  producers = JsMap.empty;
  consumers = JsMap.empty;
  producing = [];
  consuming = [];
  outputs = [];
}

unfoldable pub output : Output → MediasoupService → MediasoupService
output o s = record s { outputs = s.outputs ++ o ∷ [] }

-- The identifier that the next call of `uuid` gives.
abbrev pub fresh : MediasoupService → String
fresh s = s.uuid s.uuids

unfoldable pub take_uuid : MediasoupService → MediasoupService
take_uuid s = record s { uuids = suc s.uuids }

unfoldable pub enter : Phase → MediasoupService → MediasoupService
enter p s = record s { phase = p }
