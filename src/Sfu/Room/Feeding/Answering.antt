-- ===== src/Sfu/Room/Feeding/Answering.antt =====
-- The answers of mediasoup to the calls of `consume` of sfu/src/media/Room.ts.
use demo_app.Base.{
  String, ℕ, zero, suc, List, [], ◌∷◌, ◌++◌, ◌≡◌, ◌≢◌, refl, ◌∙◌, ap, none, some, length, get_elem?,
  erase_idx, get_elem?-append_end,
}
use demo_app.Base.JsMap
use demo_app.Protocol.Json.{Json}
use demo_app.Protocol.Messages.{Message, TransportInfo}
use demo_app.Sfu.Room.State.{
  Producer, Consumer, Client, Room, Loop, Consuming, Task, client_at, await, modify, send,
}
use demo_app.Sfu.Room.State.Frames.{modify_frame, send_frame, client_at-modify_ne}
use demo_app.Sfu.Room.Consume.{next_producer, consume_rounds, consume_from, add_consumer, consumed}
use demo_app.Sfu.Room.Handlers.{fits, resume, consumer_created}
use demo_app.Sfu.Room.Step.{settled}
use demo_app.Sfu.Room.Overlap.{calling_consume}

-- Mediasoup answers the task at a place as long as it is a call of `consume`: the consumer that it makes
-- is given by the producer.
unfoldable pub answers : ℕ → ℕ → (String → Consumer) → ℕ → Room → Room
unfolding settled
answers now n make zero r = r
answers now n make (suc fuel) r = elim (get_elem? r.tasks n) [
  | some (Task.consuming k p) ↦
      answers now n make fuel (settled now n (consumer_created (make p)) r)
  | _ ↦ r
]

pub erase_idx-append_end :
    {A : Type 0} (xs : List A) (x : A) → erase_idx (xs ++ x ∷ []) (length xs) ≡ xs
erase_idx-append_end [] x = refl
erase_idx-append_end (y ∷ xs) x = ap (λ l. y ∷ l) (erase_idx-append_end xs x)

pub consume_from-none :
    (k : Consuming) (p c : Client) (r : Room)
    → client_at k.producing r ≡ some p
    → client_at k.consuming r ≡ some c
    → next_producer c k.cursor p.producers.entries ≡ none
    → consume_from k r ≡ await (Task.looping k.loop) r
unfolding consume_from consume_rounds
consume_from-none k p c r e d n = rw (consume_from, e, d, consume_rounds, n) refl

-- A task that waits for no `consume` gets no answer.
pub answers_looping :
    (now n : ℕ) (make : String → Consumer) (fuel : ℕ) (l : Loop) (r : Room)
    → get_elem? r.tasks n ≡ some (Task.looping l)
    → answers now n make fuel r ≡ r
unfolding answers
answers_looping now n make zero l r e = refl
answers_looping now n make (suc fuel) l r e = rw (answers, e) refl

-- The room in which the next round of the loop begins.
abbrev pub announced : Consuming → JsMap.Entry Producer → Client → Consumer → Room → Room
announced k x p c r =
    send k.consuming
      (Message.consumer_created_notification c.id x.value.id c.kind c.rtp_parameters
        (record { user_id = p.user_id; client_id = k.producing_client_id }))
      (modify k.consuming (add_consumer c) r)

answered_lem :
    (now n : ℕ) (k : Consuming) (q : String) (c : Consumer) (r : Room)
    → get_elem? r.tasks n ≡ some (Task.consuming k q)
    → settled now n (consumer_created c) r
      ≡ consumed k q c (record r { tasks = erase_idx r.tasks n })
unfolding settled fits resume
answered_lem now n k q c r e = rw (settled, e) refl

answers_once :
    (now n fuel : ℕ) (make : String → Consumer) (k : Consuming) (q : String) (r : Room)
    → get_elem? r.tasks n ≡ some (Task.consuming k q)
    → answers now n make (suc fuel) r
      ≡ answers now n make fuel (settled now n (consumer_created (make q)) r)
unfolding answers
answers_once now n fuel make k q r e = rw (answers, e) refl

consumed_lem :
    (k : Consuming) (x : JsMap.Entry Producer) (c : Consumer) (p : Client) (r : Room)
    → client_at k.producing r ≡ some p
    → consumed k x.value.id c r ≡ consume_from k (announced k x p c r)
unfolding consumed
consumed_lem k x c p r e = rw (consumed, e) refl

-- A round of the loop, from a call of `consume` to the next `await`.
pub answers_consuming :
    (now fuel : ℕ) (make : String → Consumer) (k : Consuming) (x : JsMap.Entry Producer)
    (caps : Json) (t : TransportInfo) (p : Client) (r : Room)
    → client_at k.producing r ≡ some p
    → answers now (length r.tasks) make (suc fuel) (calling_consume k x caps t r)
      ≡ answers now (length r.tasks) make fuel (
          consume_from
            (record k { cursor = suc x.stamp })
            (announced k x p
              (make x.value.id)
              (record (calling_consume k x caps t r) { tasks = r.tasks })))
answers_consuming now fuel make k x caps t p r e =
    let k' : Consuming = record k { cursor = suc x.stamp } in
    let task = Task.consuming k' x.value.id in
    let s = calling_consume k x caps t r in
    let at = get_elem?-append_end r.tasks task in
    answers_once now (length r.tasks) fuel make k' x.value.id s at
    ∙ ap (answers now (length r.tasks) make fuel) (
        answered_lem now (length r.tasks) k' x.value.id (make x.value.id) s at
        ∙ ap (λ ts. consumed k' x.value.id (make x.value.id) (record s { tasks = ts }))
            (erase_idx-append_end r.tasks task)
        ∙ consumed_lem k' x (make x.value.id) p (record s { tasks = r.tasks }) e)

pub tasks-announced :
    (k : Consuming) (x : JsMap.Entry Producer) (p : Client) (m : Consumer) (r : Room)
    → (announced k x p m r).tasks ≡ r.tasks
tasks-announced k x p m r =
    (send_frame k.consuming _ (modify k.consuming (add_consumer m) r)).3
    ∙ (modify_frame k.consuming (add_consumer m) r).3

-- What stays as it is while one client is fed.
pub record Aside (h : ℕ) (r s : Room) : Type 0 where
  pub same_clients : s.clients ≡ r.clients
  pub others : (g : ℕ) → h ≢ g → client_at g s ≡ client_at g r

pub Aside-trans : (h : ℕ) (r s u : Room) → Aside h r s → Aside h s u → Aside h r u
Aside-trans h r s u a b = record {
  same_clients = b.same_clients ∙ a.same_clients;
  others = λ g n. b.others g n ∙ a.others g n;
}

pub announced-Aside :
    (k : Consuming) (x : JsMap.Entry Producer) (p : Client) (m : Consumer) (r : Room)
    → Aside k.consuming r (announced k x p m r)
announced-Aside k x p m r =
    let s = modify k.consuming (add_consumer m) r in
    let same =
      send_frame k.consuming
        (Message.consumer_created_notification m.id x.value.id m.kind m.rtp_parameters
          (record { user_id = p.user_id; client_id = k.producing_client_id }))
        s in
    record {
      same_clients = same.1 ∙ (modify_frame k.consuming (add_consumer m) r).2;
      others = λ g n.
          ap (λ st. get_elem? st g) same.2 ∙ client_at-modify_ne k.consuming g (add_consumer m) r n;
    }
