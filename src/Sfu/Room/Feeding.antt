-- ===== src/Sfu/Room/Feeding.antt =====
-- `_consumeClient` of sfu/src/media/Room.ts from its call to its end, when mediasoup answers each call of
-- `consume` and nothing else comes in between.
pub mod Producers
pub mod Answering
use demo_app.Base.{
  String, ℕ, zero, suc, ◌≤◌, List, [], ◌∷◌, ◌++◌, ◌≡◌, ◌≢◌, refl, sym, ◌∙◌, ap, true, Option, none,
  some, inl, inr, All, All-weaken, Option-cases, arith, length, get_elem?, erase_idx,
  get_elem?-append_end, leb, false, subst,
}
use demo_app.Base.JsMap
use demo_app.Base.JsMap.Keys.{set-Each}
use demo_app.Base.JsMap.Stamps.{Ascending, ahead, ahead-zero_le}
use demo_app.Protocol.Json.{Json}
use demo_app.Protocol.Messages.{Message, TransportInfo}
use demo_app.Sfu.Room.State.{
  Producer, Consumer, Client, Room, Loop, Consuming, Task, client_at, await, modify, send,
}
use demo_app.Sfu.Room.State.Frames.{
  modify_frame, send_frame, client_at-modify_self, client_at-modify_ne,
}
use demo_app.Sfu.Room.Consume.{
  next_producer, consume_rounds, consume_from, consume_client, add_consumer, consumed,
}
use demo_app.Sfu.Room.Handlers.{fits, resume, consumer_created}
use demo_app.Sfu.Room.Step.{settled}
use demo_app.Sfu.Room.Overlap.{calling_consume, consume_from_lem}
use demo_app.Sfu.Room.Feeding.Producers.{
  consumes, Behind, next_producer-none, next_producer-some, Keyed, Behind-add_consumer, Behind-zero,
  Grown, Grown-refl, Grown-trans, add_consumer-Grown,
}
use demo_app.Sfu.Room.Feeding.Answering.{
  answers, answers_looping, answers_consuming, tasks-announced, consume_from-none, announced, Aside,
  Aside-trans, announced-Aside,
}

-- Where the run ends: the loop goes on, and the consuming client consumes every producer.
abbrev pub Fed :
    (make : String → Consumer)
    → ((q : String) → (make q).producer_id ≡ q)
    → Loop
    → ℕ
    → Client
    → Client
    → List Task
    → Room
    → Room
    → Type 0
Fed make own l h p c ts r s =
    (s.tasks ≡ ts ++ Task.looping l ∷ [])
    × Aside h r s
    × ((d : Client) × (client_at h s ≡ some d)
        × Grown make own c d
        × All (λ x. consumes d x.value.id ≡ true) p.producers.entries)

-- Clients that differ, where the one has what `_consumeClient` looks for and the other its producers.
record Pair (make : String → Consumer) (caps : Json) (t : TransportInfo) (k : Consuming)
    (p c : Client) (store : List Client) : Type 0 where
  apart : k.producing ≢ k.consuming
  at_producing : get_elem? store k.producing ≡ some p
  at_consuming : get_elem? store k.consuming ≡ some c
  has_capabilities : c.rtp_capabilities ≡ some caps
  has_transport : c.rcv_transport ≡ some t
  ascending : Ascending p.producers.entries
  behind : Behind c k.cursor p.producers.entries
  keyed : Keyed make c.consumers

-- Nothing is left to consume.
finished :
    (now fuel : ℕ) (make : String → Consumer) (own : (q : String) → (make q).producer_id ≡ q)
    (caps : Json) (t : TransportInfo) (k : Consuming) (p c : Client) (r : Room)
    → Pair make caps t k p c r.store
    → next_producer c k.cursor p.producers.entries ≡ none
    → Fed make own k.loop k.consuming p c r.tasks r
        (answers now (length r.tasks) make fuel (consume_from k r))
unfolding await
finished now fuel make own caps t k p c r v e =
    rw
      (
        consume_from-none k p c r v.at_producing v.at_consuming e,
        answers_looping now (length r.tasks) make fuel k.loop (await (Task.looping k.loop) r)
            (get_elem?-append_end r.tasks (Task.looping k.loop)),
      )
      (
        refl,
        record { same_clients = refl; others = λ g n. refl },
        (
          c,
          v.at_consuming,
          Grown-refl make own c v.keyed,
          next_producer-none c k.cursor p.producers.entries caps t v.has_capabilities
              v.has_transport e v.behind,
        ),
      )

module _ (make : String → Consumer) (own : (q : String) → (make q).producer_id ≡ q)
    (unlike : (a b : String) → (make a).id ≡ (make b).id → a ≡ b) (caps : Json)
    (t : TransportInfo) where
  announced-Pair :
      (k : Consuming) (x : JsMap.Entry Producer) (y : Json) (u : TransportInfo) (p c : Client)
      (r : Room)
      → Pair make caps t k p c r.store
      → next_producer c k.cursor p.producers.entries ≡ some (x, y, u)
      → Pair make caps t
          (record k { cursor = suc x.stamp })
          p
          (add_consumer (make x.value.id) c)
          (announced k x p (make x.value.id) r).store
  unfolding add_consumer
  announced-Pair k x y u p c r v found =
      let m = make x.value.id in
      let s = modify k.consuming (add_consumer m) r in
      let same =
        (send_frame k.consuming
          (Message.consumer_created_notification m.id x.value.id m.kind m.rtp_parameters
            (record { user_id = p.user_id; client_id = k.producing_client_id }))
          s).2 in
      let stopped =
        next_producer-some c k.cursor p.producers.entries caps t x y u v.has_capabilities
          v.has_transport v.ascending v.behind found in
      record {
        apart = v.apart;
        at_producing =
            ap (λ st. get_elem? st k.producing) same
            ∙ client_at-modify_ne k.consuming k.producing (add_consumer m) r (λ e. v.apart (sym e))
            ∙ v.at_producing;
        at_consuming =
            ap (λ st. get_elem? st k.consuming) same
            ∙ client_at-modify_self k.consuming (add_consumer m) c r v.at_consuming;
        has_capabilities = v.has_capabilities;
        has_transport = v.has_transport;
        ascending = v.ascending;
        behind = Behind-add_consumer make own c x p.producers.entries v.keyed stopped.2;
        keyed =
            set-Each _ m.id m c.consumers (λ q e. own x.value.id ∙ sym (unlike q x.value.id e))
              v.keyed;
      }

  answers-Fed :
      (now fuel : ℕ) (k : Consuming) (p c : Client) (r : Room)
      → Pair make caps t k p c r.store
      → ahead k.cursor p.producers.entries ≤ fuel
      → Fed make own k.loop k.consuming p c r.tasks r
          (answers now (length r.tasks) make fuel (consume_from k r))
  answers-Fed now zero k p c r v h =
      elim (Option-cases (next_producer c k.cursor p.producers.entries)) [
        | inl e ↦ finished now zero make own caps t k p c r v e
        | inr ((x, y, u), e) ↦ absurd (
            omega (
              arith,
              h,
              (next_producer-some c k.cursor p.producers.entries caps t x y u v.has_capabilities
                  v.has_transport v.ascending v.behind e).1,
            ))
      ]
  answers-Fed now (suc fuel) k p c r v h =
      elim (Option-cases (next_producer c k.cursor p.producers.entries)) [
        | inl e ↦ finished now (suc fuel) make own caps t k p c r v e
        | inr ((x, y, u), e) ↦
            let called : Room = record (calling_consume k x y u r) { tasks = r.tasks } in
            let r' = announced k x p (make x.value.id) called in
            let k' : Consuming = record k { cursor = suc x.stamp } in
            let fewer =
              (next_producer-some c k.cursor p.producers.entries caps t x y u v.has_capabilities
                v.has_transport v.ascending v.behind e).1 in
            let later =
              answers-Fed now fuel k' p (add_consumer (make x.value.id) c) r'
                (announced-Pair k x y u p c called v e) (omega (arith, h, fewer)) in
            let told = announced-Aside k x p (make x.value.id) called in
            let (tasks, aside, fed) = later in
            let (d, at_d, grown, all) = fed in
            let result : Fed make own k.loop k.consuming p c r'.tasks r
                (answers now (length r'.tasks) make fuel (consume_from k' r')) =
              (
                tasks,
                Aside-trans k.consuming r r' _
                    (record { same_clients = told.same_clients; others = told.others }) aside,
                (
                  d,
                  at_d,
                  Grown-trans make own c (add_consumer (make x.value.id) c) d
                      (add_consumer-Grown make own unlike x.value.id c v.keyed) grown,
                  all,
                ),
              ) in
            rw
              (
                consume_from_lem k p c x y u r v.at_producing v.at_consuming e,
                answers_consuming now fuel make k x y u p r v.at_producing,
              )
              (subst
                (λ ts.
                  Fed make own k.loop k.consuming p c ts r
                    (answers now (length ts) make fuel (consume_from k' r')))
                (tasks-announced k x p (make x.value.id) called) result)
      ]

  -- When `_consumeClient` is called for two clients of the room, of which the consuming one has told its
  -- capabilities and has its transport, and mediasoup answers each call of `consume` with a consumer with an
  -- id of its own, then as many answers as the other client has producers are enough for the call to
  -- return to its loop, and the consuming client then has a consumer for each of these producers.
  pub consume_client_complete :
      (now fuel : ℕ) (l : Loop) (producing_id consuming_id : String) (producing consuming : ℕ)
      (p c : Client) (r : Room)
      → JsMap.size p.producers ≤ fuel
      → JsMap.get producing_id r.clients ≡ some producing
      → JsMap.get consuming_id r.clients ≡ some consuming
      → producing ≢ consuming
      → client_at producing r ≡ some p
      → client_at consuming r ≡ some c
      → c.rtp_capabilities ≡ some caps
      → c.rcv_transport ≡ some t
      → Ascending p.producers.entries
      → Keyed make c.consumers
      → Fed make own l consuming p c r.tasks r
          (answers now (length r.tasks) make fuel (consume_client l producing_id consuming_id r))
  unfolding consume_client
  consume_client_complete now fuel l producing_id consuming_id producing consuming p c r enough to_p
        to_c apart at_p at_c has_caps has_t ascending keyed =
      let k : Consuming = record {
        loop = l;
        producing_client_id = producing_id;
        producing = producing;
        consuming_client_id = consuming_id;
        consuming = consuming;
        cursor = 0;
      } in
      rw (consume_client, to_p, to_c)
        (answers-Fed now fuel k p c r
          (record {
            apart = apart;
            at_producing = at_p;
            at_consuming = at_c;
            has_capabilities = has_caps;
            has_transport = has_t;
            ascending = ascending;
            behind = Behind-zero c p.producers.entries;
            keyed = keyed;
          })
          (omega (arith, enough, ahead-zero_le p.producers.entries)))
