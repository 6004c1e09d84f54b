-- ===== src/Sfu/Room/Separation/Loops.antt =====
-- The loops of sfu/src/media/Room.ts never pair a client with itself.
use demo_app.Base.{
  String, ◌==◌, eq_iff, ℕ, List, [], ◌∷◌, ◌≡◌, ◌≢◌, ◌∙◌, sym, ap, not, ◌&&◌, leb, Option, none,
  some, All, All-append_end, Option-cases, Bool-cases, inl, inr, arith,
}
use demo_app.Base.JsMap
use demo_app.Base.JsMap.{Entry}
use demo_app.Protocol.Messages.{Message}
use demo_app.Sfu.ClientEvents.{can_send}
use demo_app.Sfu.Room.State.{
  Consumer, Client, Room, Job, Loop, Consuming, Task, record_effect, await, modify, send, client_at,
}
use demo_app.Sfu.Room.Consume.{
  consume_rounds, consume_from, consume_client, next_producer, next_other, finish, loop_rounds,
  run_loop, add_consumer, consumed, producing_of, consuming_of,
}

-- The two clients are different objects, and have been looked up by different ids.
abbrev pub AreTwo : Consuming → Type 0
AreTwo k = (k.producing_client_id ≢ k.consuming_client_id) × (k.producing ≢ k.consuming)

-- A pending `consume` is for two clients.
abbrev pub IsApart : Task → Type 0
IsApart (Task.consuming k p) = AreTwo k
IsApart t = Unit

-- No two ids lead to the same client.
abbrev pub IsInjective : JsMap.JsMap ℕ → Type 0
IsInjective m = (j k : String) (h : ℕ) → JsMap.get j m ≡ some h → JsMap.get k m ≡ some h → j ≡ k

abbrev pub IsSeparate : Room → Type 0
IsSeparate r = IsInjective r.clients × All IsApart r.tasks

pub await-IsSeparate : (t : Task) (r : Room) → IsApart t → IsSeparate r → IsSeparate (await t r)
unfolding await
await-IsSeparate t r a v = (v.0, All-append_end IsApart r.tasks t v.1 a)

pub modify-IsSeparate :
    (h : ℕ) (f : Client → Client) (r : Room) → IsSeparate r → IsSeparate (modify h f r)
unfolding modify
modify-IsSeparate h f r v = elim (Option-cases (client_at h r)) [
  | inl e ↦ rw (modify, e) v
  | inr (c, e) ↦ rw (modify, e) v
]

pub send-IsSeparate : (h : ℕ) (m : Message) (r : Room) → IsSeparate r → IsSeparate (send h m r)
unfolding send record_effect
send-IsSeparate h m r v = elim (Option-cases (client_at h r)) [
  | inl e ↦ rw (send, e) v
  | inr (c, e) ↦ elim (Bool-cases (can_send c.events)) [
    | inl o ↦ rw (send, e, o) v
    | inr o ↦ rw (send, e, o) v
  ]
]

consume_from-IsSeparate :
    (k : Consuming) (r : Room) → AreTwo k → IsSeparate r → IsSeparate (consume_from k r)
unfolding consume_from consume_rounds record_effect
consume_from-IsSeparate k r a v = elim (Option-cases (client_at k.producing r)) [
  | inl e ↦ rw (consume_from, e) (await-IsSeparate (Task.looping k.loop) r tt v)
  | inr (p, e) ↦ elim (Option-cases (client_at k.consuming r)) [
    | inl d ↦ rw (consume_from, e, d) (await-IsSeparate (Task.looping k.loop) r tt v)
    | inr (c, d) ↦ elim (Option-cases (next_producer c k.cursor p.producers.entries)) [
      | inl n ↦
          rw (consume_from, e, d, n, consume_rounds) (await-IsSeparate (Task.looping k.loop) r tt v)
      | inr ((x, caps, t), n) ↦
          rw (consume_from, e, d, n, consume_rounds) (v.0, All-append_end IsApart r.tasks _ v.1 a)
    ]
  ]
]

consume_client-IsSeparate :
    (l : Loop) (p c : String) (r : Room)
    → p ≢ c
    → IsSeparate r
    → IsSeparate (consume_client l p c r)
unfolding consume_client
consume_client-IsSeparate l p c r a v = elim (Option-cases (JsMap.get p r.clients)) [
  | inl e ↦ rw (consume_client, e) (await-IsSeparate (Task.looping l) r tt v)
  | inr (hp, e) ↦ elim (Option-cases (JsMap.get c r.clients)) [
    | inl d ↦ rw (consume_client, e, d) (await-IsSeparate (Task.looping l) r tt v)
    | inr (hc, d) ↦
        rw (consume_client, e, d)
          (consume_from-IsSeparate _ r (a, λ q. a (v.0 p c hp e (d ∙ ap some (sym q)))) v)
  ]
]

abbrev key_or : String → Option (Entry ℕ) → String
key_or own none = own
key_or own (some e) = e.key

-- `continue` skips the client's own id.
next_other-other :
    (own : String) (cursor : ℕ) (es : List (Entry ℕ)) (e : Entry ℕ)
    → next_other own cursor es ≡ some e
    → own ≢ e.key
unfolding next_other
next_other-other own cursor [] e h = absurd (ground (arith, h))
next_other-other own cursor (x ∷ es) e h =
    elim (Bool-cases (leb cursor x.stamp && not (own == x.key))) [
      | inl hit ↦ λ q.
          let first : some x ≡ some e = ground (arith, h) in
          let key : x.key ≡ e.key = ap (key_or own) first in
          absurd (ground (arith, hit, key, q, eq_iff own x.key))
      | inr miss ↦ next_other-other own cursor es e (ground (arith, h))
    ]

different :
    (j : Job) (own other : String)
    → own ≢ other
    → producing_of j own other ≢ consuming_of j own other
different (Job.joining i) own other a = λ e. a (sym e)
different Job.feeding own other a = a

pub run_loop-IsSeparate :
    (now : ℕ) (l : Loop) (r : Room) → IsSeparate r → IsSeparate (run_loop now l r)
unfolding run_loop loop_rounds finish
run_loop-IsSeparate now l r v = elim (Option-cases (client_at l.owner r)) [
  | inl e ↦ rw (run_loop, e) v
  | inr (own, e) ↦ elim (Option-cases (next_other own.client_id l.cursor r.clients.entries)) [
    | inl n ↦ rw (run_loop, e, loop_rounds, n) (ended l.job own)
    | inr (x, n) ↦
        rw (run_loop, e, loop_rounds, n)
          (consume_client-IsSeparate _ _ _ r
            (different l.job own.client_id x.key
              (next_other-other own.client_id l.cursor r.clients.entries x n))
            v)
  ]
]
  where
    ended : (j : Job) (own : Client) → IsSeparate (finish now j l.owner own r)
    ended (Job.joining i) own = send-IsSeparate l.owner _ r v
    ended Job.feeding own = v

pub consumed-IsSeparate :
    (k : Consuming) (p : String) (c : Consumer) (r : Room)
    → AreTwo k
    → IsSeparate r
    → IsSeparate (consumed k p c r)
unfolding consumed
consumed-IsSeparate k p c r a v = elim (Option-cases (client_at k.producing r)) [
  | inl e ↦ rw (consumed, e) v
  | inr (x, e) ↦
      rw (consumed, e)
        (consume_from-IsSeparate k _ a
          (send-IsSeparate k.consuming _ _ (modify-IsSeparate k.consuming (add_consumer c) r v)))
]
