-- ===== src/Webapp/MediasoupService/Stages.antt =====
-- The steps of the handshake in `connect` of webapp/src/contexts/MediasoupService.tsx, and what holds
-- when it waits in a phase.
use demo_app.Base.{
  List, [], ◌∷◌, ◌++◌, ◌≡◌, sym, ap, subst, ◌∙◌, Bool, true, false, Option, is_some,
}
use mathlib.Core.List.{append-nil, append_assoc}
use demo_app.Protocol.Messages.{Role, TransportInfo, Message}
use demo_app.Webapp.MediasoupService.State.{MediasoupService, Phase, Output}

-- The steps of the handshake.
pub data Stage : Type 0 where
  dialed capabilities_asked device_loading capabilities_sent : Stage
  transport_asked : Role → Stage
  join_asked observing : Stage

abbrev pub stage_of : Output → List Stage
stage_of Output.server_dialed = dialed ∷ []
stage_of (Output.requested (Message.get_router_capabilities_request i)) = capabilities_asked ∷ []
stage_of (Output.requested (Message.create_transport_request i role)) = transport_asked role ∷ []
stage_of (Output.requested (Message.join_call_request i)) = join_asked ∷ []
stage_of (Output.notified (Message.client_rtp_capabilities_notification c)) = capabilities_sent ∷ []
stage_of (Output.device_loading c) = device_loading ∷ []
stage_of (Output.observed c d r) = observing ∷ []
stage_of o = []

abbrev pub stages : List Output → List Stage
stages [] = []
stages (o ∷ os) = stage_of o ++ stages os

-- What has been done when `connect` waits there.
abbrev pub done : Phase → List Stage
done Phase.idle = []
done Phase.connecting = dialed ∷ []
done (Phase.asking_capabilities i) = dialed ∷ capabilities_asked ∷ []
done Phase.loading = dialed ∷ capabilities_asked ∷ device_loading ∷ []
done (Phase.creating i j a b) =
    dialed
    ∷ capabilities_asked
    ∷ device_loading
    ∷ capabilities_sent
    ∷ transport_asked Role.producing
    ∷ transport_asked Role.consuming
    ∷ []
done (Phase.joining i) =
    dialed
    ∷ capabilities_asked
    ∷ device_loading
    ∷ capabilities_sent
    ∷ transport_asked Role.producing
    ∷ transport_asked Role.consuming
    ∷ join_asked
    ∷ []
done (Phase.joined c) =
    dialed
    ∷ capabilities_asked
    ∷ device_loading
    ∷ capabilities_sent
    ∷ transport_asked Role.producing
    ∷ transport_asked Role.consuming
    ∷ join_asked
    ∷ observing
    ∷ []
done (Phase.failed p) = done p

-- Whether `connect` has both transports there.
abbrev pub ready : Phase → Bool
ready (Phase.joining i) = true
ready (Phase.joined c) = true
ready (Phase.failed p) = ready p
ready p = false

pub record Ordered (os : List Output) (ds : List Stage) (r : Bool) (a b : Option TransportInfo)
    : Type 0 where
  pub order : stages os ≡ ds
  pub snd : is_some a ≡ r
  pub rcv : is_some b ≡ r

-- The requests and messages of the handshake are those that the phase says, in this order, and the
-- transports are there from the phase `joining` on.
abbrev pub IsOrdered : MediasoupService → Type 0
IsOrdered s = Ordered s.outputs (done s.phase) (ready s.phase) s.snd_transport s.rcv_transport

pub stages-append :
    (os : List Output) (o : Output) → stages (os ++ o ∷ []) ≡ stages os ++ stage_of o
stages-append [] o = append-nil (stage_of o)
stages-append (p ∷ os) o =
    ap (λ x. stage_of p ++ x) (stages-append os o)
    ∙ sym (append_assoc (stage_of p) (stages os) (stage_of o))

module _ {os : List Output} {ds : List Stage} {r : Bool} {a b : Option TransportInfo} where
  pub next : (o : Output) → Ordered os ds r a b → Ordered (os ++ o ∷ []) (ds ++ stage_of o) r a b
  next o v = record {
    order = stages-append os o ∙ ap (λ x. x ++ stage_of o) v.order;
    snd = v.snd;
    rcv = v.rcv;
  }

  pub mute : (o : Output) → stage_of o ≡ [] → Ordered os ds r a b → Ordered (os ++ o ∷ []) ds r a b
  mute o quiet v = record {
    order = stages-append os o ∙ rw quiet (append-nil (stages os) ∙ v.order);
    snd = v.snd;
    rcv = v.rcv;
  }

-- What a phase with its value known says.
abbrev pub InPhase : Phase → MediasoupService → Type 0
InPhase p s = Ordered s.outputs (done p) (ready p) s.snd_transport s.rcv_transport

pub in_phase : {p : Phase} (s : MediasoupService) → s.phase ≡ p → IsOrdered s → InPhase p s
in_phase s e v = subst (λ q. InPhase q s) e v
