-- ===== src/Sfu/Room/Moves/Events.antt =====
-- The listeners of a room, and what follows their awaits, as moves.
use demo_app.Base.{
  arith, String, ℕ, List, [], ◌∷◌, refl, inl, inr, Option, none, some, Option-cases, Bool-cases,
  is_some,
}
use demo_app.Base.JsMap
use demo_app.Base.JsMap.Stamps.{set-IsStamped}
use demo_app.Protocol.Json.{Json}
use demo_app.Protocol.Codec.{Frame}
use demo_app.Protocol.Messages.{Message, Role, producing, consuming, TransportInfo, MediaKind}
use demo_app.Sfu.Room.State.{
  Handler, Client, Room, Task, client_at, on_get_router_capabilities, on_client_rtp_capabilities,
  on_create_transport, on_join_call, on_transport_connected, on_create_producer, on_pause_producer,
  on_resume_producer, on_close, close,
}
use demo_app.Sfu.Room.Handlers.{
  set_rtp_capabilities, set_transport, transport_of, add_producer, create_transport,
  connect_transport, create_producer, pause_producer, resume_producer, close_transport,
  close_if_empty, client_closed, handle, resume, Outcome, rejected, transport_created,
  producer_created, consumer_created,
}
use demo_app.Sfu.Room.Step.{run_handlers}
use demo_app.Sfu.Room.Moves.{
  calling, awaiting, leaving, closing, Keeps, Moves, stay, next, one, Moves-trans, send-Moves,
  modify-Moves,
}
use demo_app.Sfu.Room.Moves.Loops.{run_loop-Moves, consumed-Moves}

create_transport-Moves :
    (h : ℕ) (c : Client) (i : String) (role : Role) (r : Room)
    → Moves r (create_transport h c i role r)
unfolding create_transport
create_transport-Moves h c i role r = elim (Bool-cases (is_some (transport_of role c))) [
  | inl e ↦ rw (e, create_transport) stay
  | inr e ↦ rw (e, create_transport) (next (one (calling _ refl)) (awaiting _))
]

connect_transport-Moves :
    (h : ℕ) (c : Client) (role : Role) (d : Json) (r : Room)
    → Moves r (connect_transport h c role d r)
unfolding connect_transport
connect_transport-Moves h c role d r = elim (Option-cases (transport_of role c)) [
  | inl e ↦ rw (e, connect_transport) stay
  | inr (t, e) ↦ rw (e, connect_transport) (next (one (calling _ refl)) (awaiting _))
]

create_producer-Moves :
    (h : ℕ) (c : Client) (i : String) (k : MediaKind) (j : Json) (r : Room)
    → Moves r (create_producer h c i k j r)
unfolding create_producer
create_producer-Moves h c i k j r = elim (Option-cases c.snd_transport) [
  | inl e ↦ rw (e, create_producer) stay
  | inr (t, e) ↦ rw (e, create_producer) (next (one (calling _ refl)) (awaiting _))
]

pause_producer-Moves :
    (h : ℕ) (c : Client) (i p : String) (r : Room) → Moves r (pause_producer h c i p r)
unfolding pause_producer
pause_producer-Moves h c i p r = elim (Option-cases (JsMap.get p c.producers)) [
  | inl e ↦ rw (e, pause_producer) stay
  | inr (t, e) ↦ rw (e, pause_producer) (next (one (calling _ refl)) (awaiting _))
]

resume_producer-Moves :
    (h : ℕ) (c : Client) (i p : String) (r : Room) → Moves r (resume_producer h c i p r)
unfolding resume_producer
resume_producer-Moves h c i p r = elim (Option-cases (JsMap.get p c.producers)) [
  | inl e ↦ rw (e, resume_producer) stay
  | inr (t, e) ↦ rw (e, resume_producer) (next (one (calling _ refl)) (awaiting _))
]

close_transport-Moves : (t : Option TransportInfo) (r : Room) → Moves r (close_transport t r)
unfolding close_transport
close_transport-Moves none r = stay
close_transport-Moves (some t) r = one (calling _ refl)

close_if_empty-Moves : (r : Room) → Moves r (close_if_empty r)
unfolding close_if_empty
close_if_empty-Moves r = go r.clients.entries
  where
    go : (es : List (JsMap.Entry ℕ)) → Moves r (elim es [ [] ↦ close r | e ∷ es ↦ r ])
    go [] = one closing
    go (e ∷ es) = stay

client_closed-Moves : (c : Client) (r : Room) → Moves r (client_closed c r)
unfolding client_closed
client_closed-Moves c r =
    Moves-trans
      (next
        (Moves-trans (close_transport-Moves c.snd_transport r)
          (close_transport-Moves c.rcv_transport _))
        (leaving c.client_id))
      (close_if_empty-Moves _)

handle-Moves :
    (now h : ℕ) (c : Client) (l : Handler) (f : Frame) (r : Room) → Moves r (handle now h c l f r)
unfolding handle set_rtp_capabilities
handle-Moves now h c on_get_router_capabilities
      (Frame.message (Message.get_router_capabilities_request i)) r =
    send-Moves h _ r refl
handle-Moves now h c on_client_rtp_capabilities
      (Frame.message (Message.client_rtp_capabilities_notification caps)) r =
    modify-Moves h _ r (λ _ _. record {
      same_id = refl;
      stays_closed = λ s. s;
      fewer = λ g. omega arith;
      stamped = λ v. v;
    })
handle-Moves now h c on_create_transport (Frame.message (Message.create_transport_request i role))
      r =
    create_transport-Moves h c i role r
handle-Moves now h c on_join_call (Frame.message (Message.join_call_request i)) r =
    run_loop-Moves now _ r
handle-Moves now h c on_transport_connected
      (Frame.message (Message.transport_connected_notification i role d)) r =
    connect_transport-Moves h c role d r
handle-Moves now h c on_create_producer (Frame.message (Message.create_producer_request i k j u))
      r =
    create_producer-Moves h c i k j r
handle-Moves now h c on_pause_producer (Frame.message (Message.pause_producer_request i p)) r =
    pause_producer-Moves h c i p r
handle-Moves now h c on_resume_producer (Frame.message (Message.resume_producer_request i p)) r =
    resume_producer-Moves h c i p r
handle-Moves now h c on_close f r = client_closed-Moves c r
handle-Moves now h c _ f r = stay

set_transport-Keeps :
    (role : Role) (t : TransportInfo) (c : Client) → Keeps c (set_transport role t c)
unfolding set_transport
set_transport-Keeps producing t c = record {
  same_id = refl;
  stays_closed = λ s. s;
  fewer = λ g. omega arith;
  stamped = λ v. v;
}
set_transport-Keeps consuming t c = record {
  same_id = refl;
  stays_closed = λ s. s;
  fewer = λ g. omega arith;
  stamped = λ v. v;
}

pub resume-Moves : (now : ℕ) (t : Task) (o : Outcome) (r : Room) → Moves r (resume now t o r)
unfolding resume add_producer
resume-Moves now (Task.creating_transport h i role) (transport_created t) r =
    Moves-trans (modify-Moves h _ r (λ c _. set_transport-Keeps role t c)) (send-Moves h _ _ refl)
resume-Moves now (Task.creating_transport h i role) rejected r = one (calling _ refl)
resume-Moves now (Task.creating_producer h i) (producer_created p) r =
    Moves-trans
      (Moves-trans
        (modify-Moves h _ r (λ _ _. record {
          same_id = refl;
          stays_closed = λ s. s;
          fewer = λ g. omega arith;
          stamped = set-IsStamped p.id p _;
        }))
        (send-Moves h _ _ refl))
      (run_loop-Moves now _ _)
resume-Moves now (Task.pausing h i) _ r = send-Moves h _ r refl
resume-Moves now (Task.resuming h i) _ r = send-Moves h _ r refl
resume-Moves now (Task.looping l) _ r = run_loop-Moves now l r
resume-Moves now (Task.consuming k p) (consumer_created c) r = consumed-Moves k p c r
resume-Moves now (Task.consuming k p) rejected r = one (calling _ refl)
resume-Moves now _ _ r = stay

pub run_handlers-Moves :
    (now h : ℕ) (hs : List Handler) (f : Frame) (r : Room) → Moves r (run_handlers now h hs f r)
unfolding run_handlers
run_handlers-Moves now h [] f r = stay
run_handlers-Moves now h (l ∷ hs) f r = elim (Option-cases (client_at h r)) [
  | inl e ↦ rw (e, run_handlers) stay
  | inr (c, e) ↦
      rw (e, run_handlers)
        (Moves-trans (handle-Moves now h c l f r)
          (run_handlers-Moves now h hs f (handle now h c l f r)))
]
