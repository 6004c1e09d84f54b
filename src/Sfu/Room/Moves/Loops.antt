-- ===== src/Sfu/Room/Moves/Loops.antt =====
-- The loops of a room as moves.
use demo_app.Base.{arith, String, ℕ, refl, inl, inr, Option-cases}
use demo_app.Base.JsMap
use demo_app.Sfu.Room.State.{Consumer, Client, Room, Job, Loop, Consuming, client_at}
use demo_app.Sfu.Room.Consume.{
  consume_rounds, consume_from, consume_client, next_producer, next_other, finish, loop_rounds,
  run_loop, add_consumer, consumed,
}
use demo_app.Sfu.Room.Moves.{
  calling, awaiting, Moves, stay, next, one, Moves-trans, send-Moves, modify-Moves,
}

consume_rounds-Moves : (k : Consuming) (p c : Client) (r : Room) → Moves r (consume_rounds k p c r)
unfolding consume_rounds
consume_rounds-Moves k p c r = elim (Option-cases (next_producer c k.cursor p.producers.entries)) [
  | inl e ↦ rw (e, consume_rounds) (one (awaiting _))
  | inr ((x, caps, t), e) ↦ rw (e, consume_rounds) (next (one (calling _ refl)) (awaiting _))
]

pub consume_from-Moves : (k : Consuming) (r : Room) → Moves r (consume_from k r)
unfolding consume_from
consume_from-Moves k r = elim (Option-cases (client_at k.producing r)) [
  | inl e ↦ rw (e, consume_from) (one (awaiting _))
  | inr (p, e) ↦ elim (Option-cases (client_at k.consuming r)) [
    | inl d ↦ rw (e, d, consume_from) (one (awaiting _))
    | inr (c, d) ↦ rw (e, d, consume_from) (consume_rounds-Moves k p c r)
  ]
]

consume_client-Moves : (l : Loop) (p c : String) (r : Room) → Moves r (consume_client l p c r)
unfolding consume_client
consume_client-Moves l p c r = elim (Option-cases (JsMap.get p r.clients)) [
  | inl e ↦ rw (e, consume_client) (one (awaiting _))
  | inr (hp, e) ↦ elim (Option-cases (JsMap.get c r.clients)) [
    | inl d ↦ rw (e, d, consume_client) (one (awaiting _))
    | inr (hc, d) ↦ rw (e, d, consume_client) (consume_from-Moves _ r)
  ]
]

finish-Moves :
    (now : ℕ) (j : Job) (h : ℕ) (own : Client) (r : Room) → Moves r (finish now j h own r)
unfolding finish
finish-Moves now (Job.joining i) h own r = send-Moves h _ r refl
finish-Moves now Job.feeding h own r = stay

loop_rounds-Moves :
    (now : ℕ) (l : Loop) (own : Client) (r : Room) → Moves r (loop_rounds now l own r)
unfolding loop_rounds
loop_rounds-Moves now l own r =
    elim (Option-cases (next_other own.client_id l.cursor r.clients.entries)) [
      | inl e ↦ rw (e, loop_rounds) (finish-Moves now l.job l.owner own r)
      | inr (x, e) ↦ rw (e, loop_rounds) (consume_client-Moves _ _ _ r)
    ]

pub run_loop-Moves : (now : ℕ) (l : Loop) (r : Room) → Moves r (run_loop now l r)
unfolding run_loop
run_loop-Moves now l r = elim (Option-cases (client_at l.owner r)) [
  | inl e ↦ rw (e, run_loop) stay
  | inr (own, e) ↦ rw (e, run_loop) (loop_rounds-Moves now l own r)
]

pub consumed-Moves :
    (k : Consuming) (p : String) (c : Consumer) (r : Room) → Moves r (consumed k p c r)
unfolding consumed add_consumer
consumed-Moves k p c r = elim (Option-cases (client_at k.producing r)) [
  | inl e ↦ rw (e, consumed) stay
  | inr (x, e) ↦
      rw (e, consumed)
        (Moves-trans
          (Moves-trans
            (modify-Moves k.consuming (add_consumer c) r (λ _ _. record {
              same_id = refl;
              stays_closed = λ h. h;
              fewer = λ g. omega arith;
              stamped = λ v. v;
            }))
            (send-Moves k.consuming _ _ refl))
          (consume_from-Moves k _))
]
