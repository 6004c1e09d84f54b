-- ===== src/Sfu/Room/Answers/Listeners.antt =====
-- The listeners of sfu/src/media/Room.ts answer at most the ticket that they are run for.
use demo_app.Base.{
  String, ℕ, List, [], ◌∷◌, ◌≤◌, ◌+◌, ◌≡◌, Option, none, some, Option-cases, Bool-cases, inl, inr,
  refl, is_some, arith, total,
}
use demo_app.Base.JsMap
use demo_app.Protocol.Json.{Json}
use demo_app.Protocol.Messages.{MediaKind, Role, Message, TransportInfo}
use demo_app.Protocol.Codec.{Frame}
use demo_app.Sfu.Room.State.{
  Handler, Client, Room, Task, record_effect, modify, close, client_at, on_get_router_capabilities,
  on_client_rtp_capabilities, on_create_transport, on_join_call, on_transport_connected,
  on_create_producer, on_pause_producer, on_resume_producer, on_close,
}
use demo_app.Sfu.Room.Handlers.{
  create_transport, connect_transport, create_producer, pause_producer, resume_producer,
  close_transport, remove_client, close_if_empty, client_closed, transport_of, set_transport,
  add_producer, handle, Outcome, resume, rejected, transport_created, producer_created,
  consumer_created, set_rtp_capabilities,
}
use demo_app.Sfu.Room.Step.{run_handlers}
use demo_app.Sfu.Room.Answers.{Weight, held, waiting, serves, responses, answered_by}
use demo_app.Sfu.Room.Answers.Loops.{
  held-call_le, held-modify, held-send_le, run_loop-held_le, consumed-held_le,
}

module _ (w : Weight) where
  create_transport-held_le :
      (h : ℕ) (c : Client) (i : String) (role : Role) (r : Room)
      → held w (create_transport h c i role r)
        ≤ waiting w (Task.creating_transport h i role) + held w r
  unfolding create_transport
  create_transport-held_le h c i role r = elim (Bool-cases (is_some (transport_of role c))) [
    | inl e ↦ rw (create_transport, e) (omega arith)
    | inr e ↦ rw (create_transport, e) (held-call_le w (Task.creating_transport h i role) _ r refl)
  ]

  connect_transport-held_le :
      (h : ℕ) (c : Client) (role : Role) (dtls : Json) (r : Room)
      → held w (connect_transport h c role dtls r) ≤ waiting w (Task.connecting h role) + held w r
  unfolding connect_transport
  connect_transport-held_le h c role dtls r = elim (Option-cases (transport_of role c)) [
    | inl e ↦ rw (connect_transport, e) (omega arith)
    | inr (t, e) ↦ rw (connect_transport, e) (held-call_le w (Task.connecting h role) _ r refl)
  ]

  create_producer-held_le :
      (h : ℕ) (c : Client) (i : String) (kind : MediaKind) (rtp : Json) (r : Room)
      → held w (create_producer h c i kind rtp r)
        ≤ waiting w (Task.creating_producer h i) + held w r
  unfolding create_producer
  create_producer-held_le h c i kind rtp r = elim (Option-cases c.snd_transport) [
    | inl e ↦ rw (create_producer, e) (omega arith)
    | inr (t, e) ↦ rw (create_producer, e) (held-call_le w (Task.creating_producer h i) _ r refl)
  ]

  pause_producer-held_le :
      (h : ℕ) (c : Client) (i p : String) (r : Room)
      → held w (pause_producer h c i p r) ≤ waiting w (Task.pausing h i) + held w r
  unfolding pause_producer
  pause_producer-held_le h c i p r = elim (Option-cases (JsMap.get p c.producers)) [
    | inl e ↦ rw (pause_producer, e) (omega arith)
    | inr (t, e) ↦ rw (pause_producer, e) (held-call_le w (Task.pausing h i) _ r refl)
  ]

  resume_producer-held_le :
      (h : ℕ) (c : Client) (i p : String) (r : Room)
      → held w (resume_producer h c i p r) ≤ waiting w (Task.resuming h i) + held w r
  unfolding resume_producer
  resume_producer-held_le h c i p r = elim (Option-cases (JsMap.get p c.producers)) [
    | inl e ↦ rw (resume_producer, e) (omega arith)
    | inr (t, e) ↦ rw (resume_producer, e) (held-call_le w (Task.resuming h i) _ r refl)
  ]

  close_transport-held :
      (t : Option TransportInfo) (r : Room) → held w (close_transport t r) ≡ held w r
  unfolding close_transport record_effect responses
  close_transport-held none r = omega arith
  close_transport-held (some t) r = omega arith

  pub held-close : (r : Room) → held w (close r) ≡ held w r
  unfolding close responses
  held-close r = elim (Bool-cases r.router.closed) [
    | inl e ↦ rw (close, e) (omega arith)
    | inr e ↦ rw (close, e) (omega arith)
  ]

  close_if_empty-held : (r : Room) → held w (close_if_empty r) ≡ held w r
  unfolding close_if_empty
  close_if_empty-held r = go r.clients.entries
    where
      go : (es : List (JsMap.Entry ℕ)) → held w (elim es [ [] ↦ close r | e ∷ rest ↦ r ]) ≡ held w r
      go [] = held-close r
      go (e ∷ rest) = omega arith

  client_closed-held : (c : Client) (r : Room) → held w (client_closed c r) ≡ held w r
  unfolding client_closed remove_client
  client_closed-held c r = omega (
    arith,
    close_if_empty-held (
        remove_client c.client_id
          (close_transport c.rcv_transport (close_transport c.snd_transport r))),
    close_transport-held c.rcv_transport (close_transport c.snd_transport r),
    close_transport-held c.snd_transport r,
  )

  handle-held_le :
      (now h : ℕ) (c : Client) (l : Handler) (f : Frame) (r : Room)
      → held w (handle now h c l f r) ≤ serves w h f l + held w r
  unfolding handle answered_by
  handle-held_le now h c on_get_router_capabilities
        (Frame.message (Message.get_router_capabilities_request i)) r =
      held-send_le w h _ r
  handle-held_le now h c on_client_rtp_capabilities
        (Frame.message (Message.client_rtp_capabilities_notification caps)) r =
      omega (arith, held-modify w h (set_rtp_capabilities caps) r)
  handle-held_le now h c on_create_transport
        (Frame.message (Message.create_transport_request i role)) r =
      create_transport-held_le h c i role r
  handle-held_le now h c on_join_call (Frame.message (Message.join_call_request i)) r =
      run_loop-held_le w now _ r
  handle-held_le now h c on_transport_connected
        (Frame.message (Message.transport_connected_notification i role dtls)) r =
      connect_transport-held_le h c role dtls r
  handle-held_le now h c on_create_producer
        (Frame.message (Message.create_producer_request i kind rtp u)) r =
      create_producer-held_le h c i kind rtp r
  handle-held_le now h c on_pause_producer (Frame.message (Message.pause_producer_request i p)) r =
      pause_producer-held_le h c i p r
  handle-held_le now h c on_resume_producer (Frame.message (Message.resume_producer_request i p))
        r =
      resume_producer-held_le h c i p r
  handle-held_le now h c on_close f r = omega (arith, client_closed-held c r)
  handle-held_le now h c l f r = omega arith

  pub run_handlers-held_le :
      (now h : ℕ) (hs : List Handler) (f : Frame) (r : Room)
      → held w (run_handlers now h hs f r) ≤ total (serves w h f) hs + held w r
  unfolding run_handlers
  run_handlers-held_le now h [] f r = omega arith
  run_handlers-held_le now h (x ∷ hs) f r = elim (Option-cases (client_at h r)) [
    | inl e ↦ rw (run_handlers, e) (omega arith)
    | inr (c, e) ↦
        rw (run_handlers, e)
          (omega (
            arith,
            run_handlers-held_le now h hs f (handle now h c x f r),
            handle-held_le now h c x f r,
          ))
  ]

  pub resume-held_le :
      (now : ℕ) (t : Task) (o : Outcome) (r : Room)
      → held w (resume now t o r) ≤ waiting w t + held w r
  unfolding resume record_effect responses answered_by
  resume-held_le now (Task.creating_transport h i role) (transport_created t) r = omega (
    arith,
    held-send_le w h (Message.create_transport_response i t) (modify h (set_transport role t) r),
    held-modify w h (set_transport role t) r,
  )
  resume-held_le now (Task.creating_transport h i role) rejected r = omega arith
  resume-held_le now (Task.creating_producer h i) (producer_created p) r =
      omega (
        arith,
        run_loop-held_le w now _ _,
        held-send_le w h _ _,
        held-modify w h (add_producer p) r,
      )
  resume-held_le now (Task.pausing h i) _ r = held-send_le w h _ r
  resume-held_le now (Task.resuming h i) _ r = held-send_le w h _ r
  resume-held_le now (Task.looping l) _ r = run_loop-held_le w now l r
  resume-held_le now (Task.consuming k p) (consumer_created c) r = consumed-held_le w k p c r
  resume-held_le now (Task.consuming k p) rejected r = omega arith
  resume-held_le now _ _ r = omega arith
