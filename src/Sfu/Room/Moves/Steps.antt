-- ===== src/Sfu/Room/Moves/Steps.antt =====
-- Every event and every schedule of a room as moves.
use demo_app.Base.{
  arith, String, ℕ, List, [], ◌∷◌, refl, ◌∙◌, inl, inr, Option-cases, Bool-cases, is_some,
  get_elem?,
}
use demo_app.Base.JsMap
use demo_app.Base.JsMap.Stamps.{delete-IsStamped}
use demo_app.Protocol.Codec.{Frame}
use demo_app.Sfu.ClientEvents
use demo_app.Sfu.ClientEvents.{ClientEvents, Received, ignored, thrown, fired}
use demo_app.Sfu.ClientEvents.Closing.{receive-closed, socket_closed-closed}
use demo_app.Sfu.ClientEvents.Firing.{receive-fewer, socket_closed-fewer}
use demo_app.Sfu.Room.State.{Handler, Room, client_at}
use demo_app.Sfu.Room.Handlers.{fits, Outcome}
use demo_app.Sfu.Room.Step.{
  set_events, run_received, receive, socket_closed, settled, remove_producer, remove_consumer,
  producer_closed, consumer_closed, router_closed, Event, step, run,
}
use demo_app.Sfu.Room.Moves.{
  calling, resuming, joining, closing, losing_router, Moves, stay, next, one, Moves-trans,
  send-Moves, modify-Moves, changing,
}
use demo_app.Sfu.Room.Moves.Events.{resume-Moves, run_handlers-Moves}

run_received-Moves :
    (now h : ℕ) (x : Received Handler) (f : Frame) (r : Room) → Moves r (run_received now h x f r)
unfolding run_received
run_received-Moves now h ignored f r = stay
run_received-Moves now h thrown f r = one (calling _ refl)
run_received-Moves now h (fired hs) f r = run_handlers-Moves now h hs f r

receive-Moves : (now h : ℕ) (f : Frame) (r : Room) → Moves r (receive now h f r)
unfolding receive set_events
receive-Moves now h f r = elim (Option-cases (client_at h r)) [
  | inl e ↦ rw (e, receive) stay
  | inr (c, e) ↦
      rw (e, receive)
        (Moves-trans
          (one (
            changing h (set_events (ClientEvents.receive f c.events).0) c e (record {
              same_id = refl;
              stays_closed = λ s. receive-closed f c.events ∙ s;
              fewer = λ g. receive-fewer g f c.events;
              stamped = λ v. v;
            })))
          (run_received-Moves now h (ClientEvents.receive f c.events).1 f _))
]

socket_closed-Moves : (now h : ℕ) (r : Room) → Moves r (socket_closed now h r)
unfolding socket_closed set_events
socket_closed-Moves now h r = elim (Option-cases (client_at h r)) [
  | inl e ↦ rw (e, socket_closed) stay
  | inr (c, e) ↦
      rw (e, socket_closed)
        (Moves-trans
          (one (
            changing h (set_events (ClientEvents.socket_closed c.events).0) c e (record {
              same_id = refl;
              stays_closed = λ _. socket_closed-closed c.events;
              fewer = λ g. socket_closed-fewer g c.events;
              stamped = λ v. v;
            })))
          (run_handlers-Moves now h (ClientEvents.socket_closed c.events).1 Frame.untyped _))
]

settled-Moves : (now i : ℕ) (o : Outcome) (r : Room) → Moves r (settled now i o r)
unfolding settled
settled-Moves now i o r = elim (Option-cases (get_elem? r.tasks i)) [
  | inl e ↦ rw (e, settled) stay
  | inr (t, e) ↦ elim (Bool-cases (fits t o)) [
    | inl ok ↦ rw (e, ok, settled) (Moves-trans (one (resuming i)) (resume-Moves now t o _))
    | inr bad ↦ rw (e, bad, settled) stay
  ]
]

consumer_closed-Moves : (h : ℕ) (id : String) (r : Room) → Moves r (consumer_closed h id r)
unfolding consumer_closed remove_consumer
consumer_closed-Moves h id r = elim (Option-cases (client_at h r)) [
  | inl e ↦ rw (e, consumer_closed) stay
  | inr (c, e) ↦ elim (Bool-cases (is_some (JsMap.get id c.consumers))) [
    | inl there ↦
        rw (e, there, consumer_closed)
          (Moves-trans
            (modify-Moves h _ r (λ _ _. record {
              same_id = refl;
              stays_closed = λ s. s;
              fewer = λ g. omega arith;
              stamped = λ v. v;
            }))
            (send-Moves h _ _ refl))
    | inr gone ↦ rw (e, gone, consumer_closed) stay
  ]
]

-- Every event of a room is a sequence of moves.
pub step-Moves : (now : ℕ) (e : Event) (r : Room) → Moves r (step now e r)
unfolding step producer_closed remove_producer router_closed
step-Moves now (Event.added id user) r = one (joining id user)
step-Moves now (Event.received h f) r = receive-Moves now h f r
step-Moves now (Event.disconnected h) r = socket_closed-Moves now h r
step-Moves now (Event.answered i o) r = settled-Moves now i o r
step-Moves now (Event.producer_gone h id) r = modify-Moves h _ r (λ _ _. record {
  same_id = refl;
  stays_closed = λ s. s;
  fewer = λ g. omega arith;
  stamped = delete-IsStamped id _;
})
step-Moves now (Event.consumer_gone h id) r = consumer_closed-Moves h id r
step-Moves now Event.router_gone r = next (one losing_router) closing

pub run-Moves : (es : List (ℕ × Event)) (r : Room) → Moves r (run es r)
unfolding run
run-Moves [] r = stay
run-Moves ((now, e) ∷ es) r = Moves-trans (step-Moves now e r) (run-Moves es (step now e r))
