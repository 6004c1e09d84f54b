-- ===== src/Protocol/Codec/RoundTrip.antt =====
-- Reading a message back from the wire.
use demo_app.Base.{String, List, [], ◌∷◌, Option, none, some, ◌≡◌, refl}
use demo_app.Protocol.Json.{Json}
use demo_app.Protocol.Messages.{MediaKind, audio, video, producing, consuming, Message, type_of}
use demo_app.Protocol.Codec.{to_json, frame_of, message, tracks_json, tracks_of, read_typed}

tracks_of-tracks_json : (ks : List String) → tracks_of (tracks_json ks) ≡ some ks
unfolding tracks_of tracks_json
tracks_of-tracks_json [] = refl
tracks_of-tracks_json (k ∷ ks) = rw (tracks_of-tracks_json ks)

frame_of-remote :
    (c p : String) (k : MediaKind) (r : Json) (d : String) (u : Option String)
    → frame_of (
        some (
          to_json (
            Message.consumer_created_notification c p k r (record { user_id = u; client_id = d }))))
      ≡ message
          (Message.consumer_created_notification c p k r (record { user_id = u; client_id = d }))
unfolding frame_of to_json type_of read_typed
frame_of-remote c p audio r d none = refl
frame_of-remote c p audio r d (some u) = refl
frame_of-remote c p video r d none = refl
frame_of-remote c p video r d (some u) = refl

-- A message that is put on the wire by `JSON.stringify` is read back as the same message, with its
-- class and every field, whatever the class.
pub frame_of-to_json : (m : Message) → frame_of (some (to_json m)) ≡ message m
unfolding frame_of to_json type_of read_typed
frame_of-to_json (Message.consumer_created_notification c p audio r w) =
    frame_of-remote c p audio r w.client_id w.user_id
frame_of-to_json (Message.consumer_created_notification c p video r w) =
    frame_of-remote c p video r w.client_id w.user_id
frame_of-to_json (Message.transport_connected_notification i producing d) = refl
frame_of-to_json (Message.transport_connected_notification i consuming d) = refl
frame_of-to_json (Message.client_rtp_capabilities_notification c) = refl
frame_of-to_json (Message.consumer_closed_notification c) = refl
frame_of-to_json (Message.observed_samples_notification s) = refl
frame_of-to_json (Message.join_call_request i) = refl
frame_of-to_json (Message.join_call_response i c t) = refl
frame_of-to_json (Message.get_router_capabilities_request i) = refl
frame_of-to_json (Message.get_router_capabilities_response i c) = refl
frame_of-to_json (Message.create_producer_request i audio r u) = refl
frame_of-to_json (Message.create_producer_request i video r u) = refl
frame_of-to_json (Message.create_producer_response i p) = refl
frame_of-to_json (Message.resume_producer_request i p) = refl
frame_of-to_json (Message.resume_producer_response i) = refl
frame_of-to_json (Message.pause_producer_request i p) = refl
frame_of-to_json (Message.pause_producer_response i) = refl
frame_of-to_json (Message.create_transport_request i producing) = refl
frame_of-to_json (Message.create_transport_request i consuming) = refl
frame_of-to_json (Message.create_transport_response i t) = refl
frame_of-to_json (Message.get_client_stats_request i r) = refl
frame_of-to_json (Message.get_client_stats_response i ts) = rw (tracks_of-tracks_json ts)
