-- ===== src/Sfu/Room/Answers/Once.antt =====
-- No request of a client of sfu/src/media/Room.ts is answered twice, and nothing is answered that was
-- not asked.
use demo_app.Base.{
  String, ℕ, List, [], ◌∷◌, ◌≤◌, ◌+◌, ◌≡◌, All, All-get_elem?, All-append_end, All-set, get_elem?,
  erase_idx, is_some, Option-cases, Bool-cases, inl, inr, arith, total, true, total-erase_idx,
}
use demo_app.Base.JsMap
use demo_app.Protocol.Messages.{Message}
use demo_app.Protocol.Codec.{Frame}
use demo_app.Sfu.ClientEvents
use demo_app.Sfu.ClientEvents.{Listener, ClientEvents, Received, ignored, thrown, fired}
use demo_app.Sfu.ClientEvents.Firing.{receive-among, fired_by}
use demo_app.Sfu.Room.State.{
  Handler, Client, Room, RoomConfig, Router, record_effect, modify, await, close, client_at,
}
use demo_app.Sfu.Room.Handlers.{fits, Outcome, remove_client}
use demo_app.Sfu.Room.Moves.{
  Move, speaking, calling, awaiting, resuming, changing, joining, leaving, closing, losing_router,
  Moves, stay, next,
}
use demo_app.Sfu.Room.Moves.Steps.{step-Moves}
use demo_app.Sfu.Room.Step.{
  init, add, new_client, room_events, run_received, receive, socket_closed, settled,
  producer_closed, consumer_closed, remove_producer, remove_consumer, set_events, router_closed,
  Event, step, run,
}
use demo_app.Sfu.Room.Answers.{
  Ticket, Weight, worth, asked_by, answered_by, requests, responses, waiting, held, serves, only,
}
use demo_app.Sfu.Room.Answers.Loops.{held-modify, held-send_le}
use demo_app.Sfu.Room.Answers.Listeners.{run_handlers-held_le, resume-held_le, held-close}

module _ (w : Weight) where
  -- What a frame asks for.
  abbrev asks : ℕ → Frame → ℕ
  asks h (Frame.message m) = worth w h (asked_by m)
  asks h _ = 0

  -- The listeners of a client answer each frame with at most what it asks for.
  abbrev IsServing : Client → Type 0
  IsServing c =
      (h : ℕ) (f : Frame) → total (λ l. serves w h f l.handler) c.events.listeners ≤ asks h f

  room_events-asks :
      (h : ℕ) (f : Frame) → total (λ l. serves w h f l.handler) room_events.listeners ≤ asks h f
  unfolding room_events asked_by
  room_events-asks h (Frame.message (Message.consumer_created_notification c p k r x)) = omega arith
  room_events-asks h (Frame.message (Message.transport_connected_notification i r d)) = omega arith
  room_events-asks h (Frame.message (Message.client_rtp_capabilities_notification c)) = omega arith
  room_events-asks h (Frame.message (Message.consumer_closed_notification c)) = omega arith
  room_events-asks h (Frame.message (Message.observed_samples_notification s)) = omega arith
  room_events-asks h (Frame.message (Message.join_call_request i)) = omega arith
  room_events-asks h (Frame.message (Message.join_call_response i c t)) = omega arith
  room_events-asks h (Frame.message (Message.get_router_capabilities_request i)) = omega arith
  room_events-asks h (Frame.message (Message.get_router_capabilities_response i c)) = omega arith
  room_events-asks h (Frame.message (Message.create_producer_request i k r u)) = omega arith
  room_events-asks h (Frame.message (Message.create_producer_response i p)) = omega arith
  room_events-asks h (Frame.message (Message.resume_producer_request i p)) = omega arith
  room_events-asks h (Frame.message (Message.resume_producer_response i)) = omega arith
  room_events-asks h (Frame.message (Message.pause_producer_request i p)) = omega arith
  room_events-asks h (Frame.message (Message.pause_producer_response i)) = omega arith
  room_events-asks h (Frame.message (Message.create_transport_request i r)) = omega arith
  room_events-asks h (Frame.message (Message.create_transport_response i t)) = omega arith
  room_events-asks h (Frame.message (Message.get_client_stats_request i r)) = omega arith
  room_events-asks h (Frame.message (Message.get_client_stats_response i t)) = omega arith
  room_events-asks h Frame.unparsable = omega arith
  room_events-asks h Frame.null_value = omega arith
  room_events-asks h Frame.untyped = omega arith
  room_events-asks h (Frame.named t) = omega arith

  Move-IsServing : {r s : Room} → Move r s → All IsServing r.store → All IsServing s.store
  unfolding record_effect await modify add new_client remove_client close
  Move-IsServing {r} (changing k f d e keep) v =
      rw (e, modify)
        (All-set IsServing r.store k (f d) v (λ h g. omega (
          arith,
          keep.fewer (λ l. serves w h g l.handler),
          All-get_elem? IsServing r.store k d v e h g,
        )))
  Move-IsServing {r} (joining id user) v = All-append_end IsServing r.store _ v room_events-asks
  Move-IsServing {r} closing v = elim (Bool-cases r.router.closed) [
    | inl e ↦ rw (e, close) v
    | inr e ↦ rw (e, close) v
  ]
  Move-IsServing (speaking k m d e o s) v = v
  Move-IsServing (calling e s) v = v
  Move-IsServing (awaiting t) v = v
  Move-IsServing (resuming i) v = v
  Move-IsServing (leaving id) v = v
  Move-IsServing losing_router v = v

  Moves-IsServing : {r s : Room} → Moves r s → All IsServing r.store → All IsServing s.store
  Moves-IsServing stay v = v
  Moves-IsServing (next p m) v = Move-IsServing m (Moves-IsServing p v)

  run_received-held_le :
      (now h : ℕ) (x : Received Handler) (f : Frame) (r : Room)
      → held w (run_received now h x f r) ≤ total (serves w h f) (fired_by x) + held w r
  unfolding run_received record_effect responses
  run_received-held_le now h ignored f r = omega arith
  run_received-held_le now h thrown f r = omega arith
  run_received-held_le now h (fired hs) f r = run_handlers-held_le w now h hs f r

  receive-held_le :
      (now h : ℕ) (f : Frame) (r : Room)
      → All IsServing r.store
      → held w (receive now h f r) ≤ asks h f + held w r
  unfolding receive
  receive-held_le now h f r v = elim (Option-cases (client_at h r)) [
    | inl e ↦ rw (receive, e) (omega arith)
    | inr (c, e) ↦
        let (d, received) = ClientEvents.receive f c.events in
        rw (receive, e)
          (omega (
            arith,
            run_received-held_le now h (ClientEvents.receive f c.events).1 f
                (modify h (set_events (ClientEvents.receive f c.events).0) r),
            held-modify w h (set_events (ClientEvents.receive f c.events).0) r,
            receive-among (serves w h f) f c.events,
            All-get_elem? IsServing r.store h c v e h f,
          ))
  ]

  none_untyped : (h : ℕ) (hs : List Handler) → total (serves w h Frame.untyped) hs ≤ 0
  none_untyped h [] = omega arith
  none_untyped h (x ∷ hs) = omega (arith, none_untyped h hs)

  socket_closed-held_le : (now h : ℕ) (r : Room) → held w (socket_closed now h r) ≤ held w r
  unfolding socket_closed
  socket_closed-held_le now h r = elim (Option-cases (client_at h r)) [
    | inl e ↦ rw (socket_closed, e) (omega arith)
    | inr (c, e) ↦
        rw (socket_closed, e)
          (omega (
            arith,
            run_handlers-held_le w now h (ClientEvents.socket_closed c.events).1 Frame.untyped
                (modify h (set_events (ClientEvents.socket_closed c.events).0) r),
            held-modify w h (set_events (ClientEvents.socket_closed c.events).0) r,
            none_untyped h (ClientEvents.socket_closed c.events).1,
          ))
  ]

  settled-held_le : (now i : ℕ) (o : Outcome) (r : Room) → held w (settled now i o r) ≤ held w r
  unfolding settled
  settled-held_le now i o r = elim (Option-cases (get_elem? r.tasks i)) [
    | inl e ↦ rw (settled, e) (omega arith)
    | inr (t, e) ↦ elim (Bool-cases (fits t o)) [
      | inl k ↦
          rw (settled, e, k)
            (omega (
              arith,
              resume-held_le w now t o (record r { tasks = erase_idx r.tasks i }),
              total-erase_idx (waiting w) r.tasks i t e,
            ))
      | inr k ↦ rw (settled, e, k) (omega arith)
    ]
  ]

  consumer_closed-held_le :
      (h : ℕ) (id : String) (r : Room) → held w (consumer_closed h id r) ≤ held w r
  unfolding consumer_closed answered_by
  consumer_closed-held_le h id r = elim (Option-cases (client_at h r)) [
    | inl e ↦ rw (consumer_closed, e) (omega arith)
    | inr (c, e) ↦ elim (Bool-cases (is_some (JsMap.get id c.consumers))) [
      | inl k ↦
          rw (consumer_closed, e, k)
            (omega (
              arith,
              held-send_le w h (Message.consumer_closed_notification id)
                  (modify h (remove_consumer id) r),
              held-modify w h (remove_consumer id) r,
            ))
      | inr k ↦ rw (consumer_closed, e, k) (omega arith)
    ]
  ]

  step-held_le :
      (now : ℕ) (e : Event) (r : Room)
      → All IsServing r.store
      → held w (step now e r) ≤ requests w ((now, e) ∷ []) + held w r
  unfolding step add producer_closed router_closed requests
  step-held_le now (Event.added id user) r v = omega arith
  step-held_le now (Event.received h (Frame.message m)) r v =
      omega (arith, receive-held_le now h (Frame.message m) r v)
  step-held_le now (Event.received h Frame.unparsable) r v =
      omega (arith, receive-held_le now h Frame.unparsable r v)
  step-held_le now (Event.received h Frame.null_value) r v =
      omega (arith, receive-held_le now h Frame.null_value r v)
  step-held_le now (Event.received h Frame.untyped) r v =
      omega (arith, receive-held_le now h Frame.untyped r v)
  step-held_le now (Event.received h (Frame.named t)) r v =
      omega (arith, receive-held_le now h (Frame.named t) r v)
  step-held_le now (Event.disconnected h) r v = omega (arith, socket_closed-held_le now h r)
  step-held_le now (Event.answered i o) r v = omega (arith, settled-held_le now i o r)
  step-held_le now (Event.producer_gone h id) r v =
      omega (arith, held-modify w h (remove_producer id) r)
  step-held_le now (Event.consumer_gone h id) r v = omega (arith, consumer_closed-held_le h id r)
  step-held_le now Event.router_gone r v =
      omega (arith, held-close w (record r { router = record (r.router) { closed = true } }))

  requests-cons :
      (now : ℕ) (e : Event) (es : List (ℕ × Event))
      → requests w ((now, e) ∷ es) ≡ requests w ((now, e) ∷ []) + requests w es
  unfolding requests
  requests-cons now (Event.received h (Frame.message m)) es = omega arith
  requests-cons now (Event.received h Frame.unparsable) es = omega arith
  requests-cons now (Event.received h Frame.null_value) es = omega arith
  requests-cons now (Event.received h Frame.untyped) es = omega arith
  requests-cons now (Event.received h (Frame.named t)) es = omega arith
  requests-cons now (Event.added id user) es = omega arith
  requests-cons now (Event.disconnected h) es = omega arith
  requests-cons now (Event.answered i o) es = omega arith
  requests-cons now (Event.producer_gone h id) es = omega arith
  requests-cons now (Event.consumer_gone h id) es = omega arith
  requests-cons now Event.router_gone es = omega arith

  run-held_le :
      (es : List (ℕ × Event)) (r : Room)
      → All IsServing r.store
      → held w (run es r) ≤ requests w es + held w r
  unfolding run requests
  run-held_le [] r v = omega arith
  run-held_le ((now, e) ∷ es) r v = omega (
    arith,
    run-held_le es (step now e r) (Moves-IsServing (step-Moves now e r) v),
    step-held_le now e r v,
    requests-cons now e es,
  )

-- After any events, the room has sent each client no more responses of a kind with a given id than the
-- client has sent requests of that kind with that id: a room answers nothing that was not asked, and a
-- request at most once. (A resume request counts as one to pause, which is how the room answers it.)
pub responses-run_le :
    (config : RoomConfig) (router : Router) (sign : String → String → String → ℕ → String)
    (es : List (ℕ × Event)) (h : ℕ) (t : Ticket)
    → responses (only h t) (run es (init config router sign)).effects ≤ requests (only h t) es
unfolding init responses
responses-run_le config router sign es h t =
    omega (arith, run-held_le (only h t) es (init config router sign) tt)
