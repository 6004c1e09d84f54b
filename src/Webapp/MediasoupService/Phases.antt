-- ===== src/Webapp/MediasoupService/Phases.antt =====
-- The steps of `connect` in webapp/src/contexts/MediasoupService.tsx keep its order.
use demo_app.Base.{String, ◌==◌, ◌≡◌, refl, Option, none, some, Bool-cases, inl, inr}
use demo_app.Protocol.Json.{Json}
use demo_app.Protocol.Messages.{TransportInfo, Message}
use demo_app.Webapp.MediasoupService.State.{MediasoupService, Phase, Output, fresh}
use demo_app.Webapp.MediasoupService.Connecting.{created, transport_created}
use demo_app.Webapp.MediasoupService.Step.{
  on_capabilities, on_transport, on_joined, on_server_connected, on_failed, on_device_loaded,
  on_connect_called,
}
use demo_app.Webapp.MediasoupService.Stages.{IsOrdered, next, InPhase, in_phase}

pub on_connect_called-IsOrdered :
    (p : Phase) (s : MediasoupService)
    → s.phase ≡ p
    → IsOrdered s
    → IsOrdered (on_connect_called p s)
unfolding on_connect_called
on_connect_called-IsOrdered Phase.idle s e v =
    let v' : InPhase Phase.idle s = in_phase s e v in next Output.server_dialed v'
on_connect_called-IsOrdered p s e v = v

pub on_server_connected-IsOrdered :
    (p : Phase) (s : MediasoupService)
    → s.phase ≡ p
    → IsOrdered s
    → IsOrdered (on_server_connected p s)
unfolding on_server_connected
on_server_connected-IsOrdered Phase.connecting s e v =
    let v' : InPhase Phase.connecting s = in_phase s e v in
    next (Output.requested (Message.get_router_capabilities_request (fresh s))) v'
on_server_connected-IsOrdered p s e v = v

pub on_failed-IsOrdered :
    (p : Phase) (s : MediasoupService) → IsOrdered s → IsOrdered (on_failed p s)
unfolding on_failed
on_failed-IsOrdered Phase.connecting s v = v
on_failed-IsOrdered Phase.loading s v = v
on_failed-IsOrdered p s v = v

pub on_device_loaded-IsOrdered :
    (caps : Json) (p : Phase) (s : MediasoupService)
    → s.phase ≡ p
    → IsOrdered s
    → IsOrdered (on_device_loaded caps p s)
unfolding on_device_loaded
on_device_loaded-IsOrdered caps Phase.loading s e v =
    let v' : InPhase Phase.loading s = in_phase s e v in
    next _ (next _ (next (Output.notified (Message.client_rtp_capabilities_notification caps)) v'))
on_device_loaded-IsOrdered caps p s e v = v

pub on_capabilities-IsOrdered :
    (i : String) (caps : Json) (p : Phase) (s : MediasoupService)
    → s.phase ≡ p
    → IsOrdered s
    → IsOrdered (on_capabilities i caps p s)
unfolding on_capabilities
on_capabilities-IsOrdered i caps (Phase.asking_capabilities j) s e v =
    let v' : InPhase (Phase.asking_capabilities j) s = in_phase s e v in
    elim (Bool-cases (i == j)) [
      | inl hit ↦ rw (on_capabilities, hit) (next (Output.device_loading caps) v')
      | inr miss ↦ rw (on_capabilities, miss) v
    ]
on_capabilities-IsOrdered i caps p s e v = v

pub created-IsOrdered :
    (i j : String) (snd rcv : Option TransportInfo) (s : MediasoupService)
    → InPhase (Phase.creating i j none none) s
    → IsOrdered (created i j snd rcv s)
unfolding created
created-IsOrdered i j (some a) (some b) s v =
    let w = next (Output.requested (Message.join_call_request (fresh s))) v in
    record { order = w.order; snd = refl; rcv = refl }
created-IsOrdered i j (some a) none s v = v
created-IsOrdered i j none b s v = v

pub on_transport-IsOrdered :
    (i : String) (t : TransportInfo) (p : Phase) (s : MediasoupService)
    → s.phase ≡ p
    → IsOrdered s
    → IsOrdered (on_transport i t p s)
unfolding on_transport
on_transport-IsOrdered i t (Phase.creating j k snd rcv) s e v =
    let v' : InPhase (Phase.creating j k snd rcv) s = in_phase s e v in
    elim (Bool-cases (i == j)) [
      | inl hit ↦
          rw (on_transport, transport_created, hit) (created-IsOrdered j k (some t) rcv s v')
      | inr miss ↦ elim (Bool-cases (i == k)) [
        | inl hit ↦
            rw (on_transport, transport_created, miss, hit)
              (created-IsOrdered j k snd (some t) s v')
        | inr other ↦ rw (on_transport, transport_created, miss, other) v
      ]
    ]
on_transport-IsOrdered i t p s e v = v

pub on_joined-IsOrdered :
    (i c : String) (p : Phase) (s : MediasoupService)
    → s.phase ≡ p
    → IsOrdered s
    → IsOrdered (on_joined i c p s)
unfolding on_joined
on_joined-IsOrdered i c (Phase.joining j) s e v =
    let v' : InPhase (Phase.joining j) s = in_phase s e v in
    elim (Bool-cases (i == j)) [
      | inl hit ↦ rw (on_joined, hit) (next (Output.observed s.client_id c s.room_id) v')
      | inr miss ↦ rw (on_joined, miss) v
    ]
on_joined-IsOrdered i c p s e v = v
