-- ===== src/Protocol/Messages.antt =====
-- The message classes of sfu/src/media/MessageProtocol.ts and webapp/src/utils/MessageProtocol.tsx:
-- a constructor for each class, with the fields of its constructor in their order.
use demo_app.Base.{String, List, Option, none, some}
use demo_app.Protocol.Json.{Json}

pub data MediaKind : Type 0 where
  audio video : MediaKind

pub data Role : Type 0 where
  producing consuming : Role

-- `userId` comes from a query string that need not have it.
pub record RemoteClient : Type 0 where
  pub user_id : Option String
  pub client_id : String

pub record TransportInfo : Type 0 where
  pub id : String
  pub ice_parameters : Json
  pub ice_candidates : Json
  pub dtls_parameters : Json

pub data Message : Type 0 where
  consumer_created_notification :
      (consumer_id remote_producer_id : String)
      → MediaKind
      → (rtp_parameters : Json) → RemoteClient
      → Message
  transport_connected_notification :
      (request_id : String) → Role → (dtls_parameters : Json) → Message
  client_rtp_capabilities_notification : (rtp_capabilities : Json) → Message
  consumer_closed_notification : (consumer_id : String) → Message
  -- Declared by the web application alone.
  observed_samples_notification : (client_sample : String) → Message
  join_call_request : (request_id : String) → Message
  join_call_response : (request_id call_id observer_access_token : String) → Message
  get_router_capabilities_request : (request_id : String) → Message
  get_router_capabilities_response : (request_id : String) → (rtp_capabilities : Json) → Message
  create_producer_request :
      (request_id : String) → MediaKind → (rtp_parameters : Json) → (user_id : String) → Message
  create_producer_response : (request_id producer_id : String) → Message
  resume_producer_request : (request_id producer_id : String) → Message
  resume_producer_response : (request_id : String) → Message
  pause_producer_request : (request_id producer_id : String) → Message
  pause_producer_response : (request_id : String) → Message
  create_transport_request : (request_id : String) → Role → Message
  create_transport_response : (request_id : String) → TransportInfo → Message
  get_client_stats_request : (request_id remote_client_id : String) → Message
  -- Of each track, its kind.
  get_client_stats_response : (request_id : String) → (tracks : List String) → Message

-- The field `type` of each class.
unfoldable pub type_of : Message → String
type_of (consumer_created_notification c p k r w) = "consumer-created-notification"
type_of (transport_connected_notification i r d) = "transport-connected-notification"
type_of (client_rtp_capabilities_notification c) = "client-rtp-capabilities"
type_of (consumer_closed_notification c) = "consumer-closed-notification"
type_of (observed_samples_notification s) = "observed-sample-notification"
type_of (join_call_request i) = "join-call-request"
type_of (join_call_response i c t) = "join-call-response"
type_of (get_router_capabilities_request i) = "get-router-capabilities-request"
type_of (get_router_capabilities_response i c) = "get-router-capabilities-response"
type_of (create_producer_request i k r u) = "create-producer-request"
type_of (create_producer_response i p) = "create-producer-response"
type_of (resume_producer_request i p) = "resume-producer-request"
type_of (resume_producer_response i) = "resume-producer-response"
type_of (pause_producer_request i p) = "pause-producer-request"
type_of (pause_producer_response i) = "pause-producer-response"
type_of (create_transport_request i r) = "create-transport-request"
type_of (create_transport_response i t) = "create-transport-response"
type_of (get_client_stats_request i r) = "get-client-stats-request"
type_of (get_client_stats_response i t) = "get-client-stats-response"

pub data Category : Type 0 where
  request response notification : Category

-- The unions `Request`, `Response` and `Notification`.
unfoldable pub category_of : Message → Category
category_of (join_call_request i) = request
category_of (get_router_capabilities_request i) = request
category_of (create_producer_request i k r u) = request
category_of (resume_producer_request i p) = request
category_of (pause_producer_request i p) = request
category_of (create_transport_request i r) = request
category_of (get_client_stats_request i r) = request
category_of (join_call_response i c t) = response
category_of (get_router_capabilities_response i c) = response
category_of (create_producer_response i p) = response
category_of (resume_producer_response i) = response
category_of (pause_producer_response i) = response
category_of (create_transport_response i t) = response
category_of (get_client_stats_response i t) = response
category_of _ = notification

-- The field `requestId`, of the classes that have it.
unfoldable pub request_id_of : Message → Option String
request_id_of (transport_connected_notification i r d) = some i
request_id_of (join_call_request i) = some i
request_id_of (join_call_response i c t) = some i
request_id_of (get_router_capabilities_request i) = some i
request_id_of (get_router_capabilities_response i c) = some i
request_id_of (create_producer_request i k r u) = some i
request_id_of (create_producer_response i p) = some i
request_id_of (resume_producer_request i p) = some i
request_id_of (resume_producer_response i) = some i
request_id_of (pause_producer_request i p) = some i
request_id_of (pause_producer_response i) = some i
request_id_of (create_transport_request i r) = some i
request_id_of (create_transport_response i t) = some i
request_id_of (get_client_stats_request i r) = some i
request_id_of (get_client_stats_response i t) = some i
request_id_of _ = none
