-- ===== src/Sfu/Room/Answers/Loops.antt =====
-- The loops of sfu/src/media/Room.ts keep the ticket of the listener that they run in.
use demo_app.Base.{
  String, ℕ, ◌≤◌, ◌+◌, ◌≡◌, Option-cases, Bool-cases, inl, inr, arith, total-append_end, true, refl,
  ◌∷◌, List,
}
use demo_app.Base.JsMap
use demo_app.Protocol.Messages.{Message}
use demo_app.Sfu.ClientEvents.{can_send}
use demo_app.Sfu.Room.State.{
  Consumer, Client, Room, Job, Loop, Consuming, Task, Effect, sent, record_effect, await, modify,
  send, client_at,
}
use demo_app.Sfu.Room.Consume.{
  consume_rounds, consume_from, consume_client, next_producer, next_other, finish, loop_rounds,
  run_loop, add_consumer, consumed,
}
use demo_app.Sfu.Room.Moves.{is_call}
use demo_app.Sfu.Room.Answers.{Weight, worth, responses, answered_by, waiting, waiting_job, held}

module _ (w : Weight) where
  pub held-await : (t : Task) (r : Room) → held w (await t r) ≡ waiting w t + held w r
  unfolding await
  held-await t r = omega (arith, total-append_end (waiting w) r.tasks t)

  pub responses-call :
      (e : Effect) (es : List Effect) → is_call e ≡ true → responses w (e ∷ es) ≡ responses w es
  unfolding responses
  responses-call (sent h m) es s = absurd (cc)
  responses-call Effect.unhandled es s = refl
  responses-call _ es s = refl

  -- A call of mediasoup and the `await` of what it returns.
  held-call :
      (t : Task) (e : Effect) (r : Room)
      → is_call e ≡ true
      → held w (await t (record_effect e r)) ≡ waiting w t + held w r
  unfolding record_effect
  held-call t e r s = omega (arith, held-await t (record_effect e r), responses-call e r.effects s)

  pub held-call_le :
      (t : Task) (e : Effect) (r : Room)
      → is_call e ≡ true
      → held w (await t (record_effect e r)) ≤ waiting w t + held w r
  held-call_le t e r s = omega (arith, held-call t e r s)

  pub held-modify : (h : ℕ) (f : Client → Client) (r : Room) → held w (modify h f r) ≡ held w r
  unfolding modify
  held-modify h f r = ground arith

  pub held-send_le :
      (h : ℕ) (m : Message) (r : Room) → held w (send h m r) ≤ worth w h (answered_by m) + held w r
  unfolding send record_effect responses
  held-send_le h m r = elim (Option-cases (client_at h r)) [
    | inl e ↦ rw (send, e) (omega arith)
    | inr (c, e) ↦ elim (Bool-cases (can_send c.events)) [
      | inl o ↦ rw (send, e, o) (omega arith)
      | inr o ↦ rw (send, e, o) (omega arith)
    ]
  ]

  consume_rounds-held :
      (k : Consuming) (p c : Client) (r : Room)
      → held w (consume_rounds k p c r) ≡ waiting_job w k.loop.owner k.loop.job + held w r
  unfolding consume_rounds
  consume_rounds-held k p c r = elim (Option-cases (next_producer c k.cursor p.producers.entries)) [
    | inl e ↦ rw (consume_rounds, e) (held-await (Task.looping k.loop) r)
    | inr ((x, caps, t), e) ↦ rw (consume_rounds, e) (held-call _ _ r refl)
  ]

  consume_from-held :
      (k : Consuming) (r : Room)
      → held w (consume_from k r) ≡ waiting_job w k.loop.owner k.loop.job + held w r
  unfolding consume_from
  consume_from-held k r = elim (Option-cases (client_at k.producing r)) [
    | inl e ↦ rw (consume_from, e) (held-await (Task.looping k.loop) r)
    | inr (p, e) ↦ elim (Option-cases (client_at k.consuming r)) [
      | inl d ↦ rw (consume_from, e, d) (held-await (Task.looping k.loop) r)
      | inr (c, d) ↦ rw (consume_from, e, d) (consume_rounds-held k p c r)
    ]
  ]

  consume_client-held :
      (l : Loop) (p c : String) (r : Room)
      → held w (consume_client l p c r) ≡ waiting_job w l.owner l.job + held w r
  unfolding consume_client
  consume_client-held l p c r = elim (Option-cases (JsMap.get p r.clients)) [
    | inl e ↦ rw (consume_client, e) (held-await (Task.looping l) r)
    | inr (hp, e) ↦ elim (Option-cases (JsMap.get c r.clients)) [
      | inl d ↦ rw (consume_client, e, d) (held-await (Task.looping l) r)
      | inr (hc, d) ↦ rw (consume_client, e, d) (consume_from-held _ r)
    ]
  ]

  finish-held_le :
      (now : ℕ) (j : Job) (h : ℕ) (own : Client) (r : Room)
      → held w (finish now j h own r) ≤ waiting_job w h j + held w r
  unfolding finish answered_by
  finish-held_le now (Job.joining i) h own r = held-send_le h _ r
  finish-held_le now Job.feeding h own r = omega arith

  pub run_loop-held_le :
      (now : ℕ) (l : Loop) (r : Room)
      → held w (run_loop now l r) ≤ waiting_job w l.owner l.job + held w r
  unfolding run_loop loop_rounds
  run_loop-held_le now l r = elim (Option-cases (client_at l.owner r)) [
    | inl e ↦ rw (run_loop, e) (omega arith)
    | inr (own, e) ↦ elim (Option-cases (next_other own.client_id l.cursor r.clients.entries)) [
      | inl n ↦ rw (run_loop, e, loop_rounds, n) (finish-held_le now l.job l.owner own r)
      | inr (x, n) ↦ rw (run_loop, e, loop_rounds, n) (omega (arith, consume_client-held _ _ _ r))
    ]
  ]

  pub consumed-held_le :
      (k : Consuming) (p : String) (c : Consumer) (r : Room)
      → held w (consumed k p c r) ≤ waiting_job w k.loop.owner k.loop.job + held w r
  unfolding consumed answered_by
  consumed-held_le k p c r = elim (Option-cases (client_at k.producing r)) [
    | inl e ↦ rw (consumed, e) (omega arith)
    | inr (x, e) ↦
        rw (consumed, e)
          (omega (
            arith,
            consume_from-held k _,
            held-send_le k.consuming _ _,
            held-modify k.consuming (add_consumer c) r,
          ))
  ]
