-- ===== src/Protocol/Codec.antt =====
-- How a message is put on the wire and read back: `JSON.stringify` of an instance of a message
-- class, and the dispatch on `type` and the destructuring of the fields that the listeners do
-- (sfu/src/media/ClientEvents.ts, sfu/src/media/Room.ts).
pub mod RoundTrip
use demo_app.Base.{
  String, ◌==◌, List, [], ◌∷◌, Option, none, some, if◌then◌else◌, truthy, ◌≡◌, refl, ap,
}
use demo_app.Protocol.Json.{
  Json, Items, Fields, null, str, arr, obj, nil, cons, end, field, property, fields_of, text_of,
}
use demo_app.Protocol.Messages.{
  MediaKind, audio, video, Role, producing, consuming, RemoteClient, TransportInfo, Message,
  type_of,
}

-- What the listener of a web socket makes of a received text.
pub data Frame : Type 0 where
  -- `JSON.parse` throws.
  unparsable : Frame
  -- The text is `null`, of which no property can be read.
  null_value : Frame
  -- No `type`, one that is no text (for which no listener is registered), or the empty text.
  untyped : Frame
  -- A message of the protocol with all its fields.
  message : Message → Frame
  -- Any other value with a truthy `type`.
  named : String → Frame

infixl 5 ◌>>=◌
abbrev ◌>>=◌ {ℓ κ} : {A : Type ℓ} {B : Type κ} → Option A → (A → Option B) → Option B
none >>= f = none
some a >>= f = f a

kind_text : MediaKind → String
kind_text audio = "audio"
kind_text video = "video"

role_text : Role → String
role_text producing = "producing"
role_text consuming = "consuming"

tracks_json : List String → Items
tracks_json [] = nil
tracks_json (k ∷ ks) = cons (obj (field "kind" (str k) end)) (tracks_json ks)

-- `JSON.stringify` leaves out a property that is undefined.
remote_json : RemoteClient → Fields
remote_json w = elim w.user_id [
  | none ↦ field "clientId" (str w.client_id) end
  | some u ↦ field "userId" (str u) (field "clientId" (str w.client_id) end)
]

info_json : TransportInfo → Fields
info_json t = field "id" (str t.id) (
    field "iceParameters" t.ice_parameters
      (field "iceCandidates" t.ice_candidates (field "dtlsParameters" t.dtls_parameters end)))

-- A `requestId` and the fields behind it.
abbrev request_json : String → Fields → Fields
request_json i fs = field "requestId" (str i) fs

-- The fields of each class but `type`.
body_json : Message → Fields
unfolding kind_text role_text tracks_json remote_json info_json
body_json (Message.consumer_created_notification c p k r w) = field "consumerId" (str c) (
    field "remoteProducerId" (str p) (
      field "kind" (str (kind_text k))
        (field "rtpParameters" r (field "remoteClient" (obj (remote_json w)) end))))
body_json (Message.transport_connected_notification i r d) =
    request_json i (field "role" (str (role_text r)) (field "dtlsParameters" d end))
body_json (Message.client_rtp_capabilities_notification c) = field "rtpCapabilities" c end
body_json (Message.consumer_closed_notification c) = field "consumerId" (str c) end
body_json (Message.observed_samples_notification s) = field "clientSample" (str s) end
body_json (Message.join_call_request i) = request_json i end
body_json (Message.join_call_response i c t) =
    request_json i (field "callId" (str c) (field "observerAccessToken" (str t) end))
body_json (Message.get_router_capabilities_request i) = request_json i end
body_json (Message.get_router_capabilities_response i c) =
    request_json i (field "rtpCapabilities" c end)
body_json (Message.create_producer_request i k r u) =
    request_json i
      (field "kind" (str (kind_text k)) (field "rtpParameters" r (field "userId" (str u) end)))
body_json (Message.create_producer_response i p) = request_json i (field "producerId" (str p) end)
body_json (Message.resume_producer_request i p) = request_json i (field "producerId" (str p) end)
body_json (Message.resume_producer_response i) = request_json i end
body_json (Message.pause_producer_request i p) = request_json i (field "producerId" (str p) end)
body_json (Message.pause_producer_response i) = request_json i end
body_json (Message.create_transport_request i r) =
    request_json i (field "role" (str (role_text r)) end)
body_json (Message.create_transport_response i t) = request_json i (info_json t)
body_json (Message.get_client_stats_request i r) =
    request_json i (field "remoteClientId" (str r) end)
body_json (Message.get_client_stats_response i ts) =
    request_json i (field "tracks" (arr (tracks_json ts)) end)

-- `JSON.stringify(message)`, as a value.
pub to_json : Message → Json
unfolding body_json
to_json m = obj (field "type" (str (type_of m)) (body_json m))

text_at : String → Fields → Option String
unfolding property
text_at k fs = property k fs >>= text_of

kind_at : Fields → Option MediaKind
unfolding text_at
kind_at fs = text_at "kind" fs >>= λ k.
    if k == "audio" then some audio else if k == "video" then some video else none

role_at : Fields → Option Role
unfolding text_at
role_at fs = text_at "role" fs >>= λ r.
    if r == "producing" then some producing else if r == "consuming" then some consuming else none

tracks_of : Items → Option (List String)
unfolding text_at fields_of
tracks_of nil = some []
tracks_of (cons j js) = do k ← text_at "kind" (fields_of j); ks ← tracks_of js; some (k ∷ ks)

items_of : Json → Option Items
items_of (arr js) = some js
items_of _ = none

info_of : Fields → Option TransportInfo
unfolding text_at property
info_of fs = do
  i ← text_at "id" fs
  p ← property "iceParameters" fs
  c ← property "iceCandidates" fs
  d ← property "dtlsParameters" fs
  some (record { id = i; ice_parameters = p; ice_candidates = c; dtls_parameters = d })

-- The types whose first field is `requestId`.
read_answerable : String → String → Fields → Option Message
unfolding text_at kind_at role_at tracks_of items_of info_of property
read_answerable type i fs =
    if type == "transport-connected-notification"
    then (do
      r ← role_at fs
      d ← property "dtlsParameters" fs
      some (Message.transport_connected_notification i r d))
    else if type == "join-call-request"
    then some (Message.join_call_request i)
    else if type == "join-call-response"
    then (do
      c ← text_at "callId" fs
      t ← text_at "observerAccessToken" fs
      some (Message.join_call_response i c t))
    else if type == "get-router-capabilities-request"
    then some (Message.get_router_capabilities_request i)
    else if type == "get-router-capabilities-response"
    then (property "rtpCapabilities" fs >>= λ c.
        some (Message.get_router_capabilities_response i c))
    else if type == "create-producer-request"
    then (do
      k ← kind_at fs
      r ← property "rtpParameters" fs
      u ← text_at "userId" fs
      some (Message.create_producer_request i k r u))
    else if type == "create-producer-response"
    then (text_at "producerId" fs >>= λ p. some (Message.create_producer_response i p))
    else if type == "resume-producer-request"
    then (text_at "producerId" fs >>= λ p. some (Message.resume_producer_request i p))
    else if type == "resume-producer-response"
    then some (Message.resume_producer_response i)
    else if type == "pause-producer-request"
    then (text_at "producerId" fs >>= λ p. some (Message.pause_producer_request i p))
    else if type == "pause-producer-response"
    then some (Message.pause_producer_response i)
    else if type == "create-transport-request"
    then (role_at fs >>= λ r. some (Message.create_transport_request i r))
    else if type == "create-transport-response"
    then (info_of fs >>= λ t. some (Message.create_transport_response i t))
    else if type == "get-client-stats-request"
    then (text_at "remoteClientId" fs >>= λ r. some (Message.get_client_stats_request i r))
    else if type == "get-client-stats-response"
    then (do
      ts ← property "tracks" fs
      js ← items_of ts
      ks ← tracks_of js
      some (Message.get_client_stats_response i ks))
    else none

-- The program takes a parsed value for a message of the class that its type names, and each listener
-- destructures the fields that it needs. Here they are read at once, those that the class declares. A
-- value that lacks one of them is emitted under its type all the same, as a `named` frame.
read_body : String → Fields → Option Message
unfolding text_at kind_at property fields_of read_answerable
read_body type fs =
    if type == "consumer-created-notification"
    then (do
      c ← text_at "consumerId" fs
      p ← text_at "remoteProducerId" fs
      k ← kind_at fs
      r ← property "rtpParameters" fs
      w ← property "remoteClient" fs
      d ← text_at "clientId" (fields_of w)
      some (
          Message.consumer_created_notification c p k r
            (record { user_id = text_at "userId" (fields_of w); client_id = d })))
    else if type == "client-rtp-capabilities"
    then (property "rtpCapabilities" fs >>= λ c.
        some (Message.client_rtp_capabilities_notification c))
    else if type == "consumer-closed-notification"
    then (text_at "consumerId" fs >>= λ c. some (Message.consumer_closed_notification c))
    else if type == "observed-sample-notification"
    then (text_at "clientSample" fs >>= λ s. some (Message.observed_samples_notification s))
    else (text_at "requestId" fs >>= λ i. read_answerable type i fs)

-- The dispatch of `_receive` on a parsed value.
read_typed : Option String → Fields → Frame
unfolding read_body
read_typed none fs = untyped
read_typed (some type) fs =
    if truthy (some type)
    then (elim (read_body type fs) [ none ↦ named type | some m ↦ message m ])
    else untyped

pub frame_of : Option Json → Frame
unfolding read_typed text_at property fields_of
frame_of none = unparsable
frame_of (some null) = null_value
frame_of (some j) = read_typed (text_at "type" (fields_of j)) (fields_of j)
