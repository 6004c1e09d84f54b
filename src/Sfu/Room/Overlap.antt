-- ===== src/Sfu/Room/Overlap.antt =====
-- Two loops of sfu/src/media/Room.ts over the same pair of clients: that of a client which has made a
-- producer, and that of another one which joins meanwhile.
use demo_app.Base.{String, ℕ, suc, [], ◌∷◌, ◌++◌, ◌≡◌, refl, ◌∙◌, ap, some}
use demo_app.Base.JsMap
use demo_app.Protocol.Json.{Json}
use demo_app.Protocol.Messages.{Message, TransportInfo, type_of}
use demo_app.Protocol.Codec.{Frame}
use demo_app.Sfu.ClientEvents
use demo_app.Sfu.ClientEvents.{fired}
use demo_app.Sfu.Room.State.{
  Producer, Client, Room, Job, Loop, Consuming, Task, Effect, client_at, record_effect, await,
  on_join_call,
}
use demo_app.Sfu.Room.Consume.{
  next_producer, next_other, consume_rounds, consume_from, consume_client, loop_rounds, run_loop,
}
use demo_app.Sfu.Room.Handlers.{handle}
use demo_app.Sfu.Room.Step.{Event, step, room_events, receive}
use demo_app.Sfu.Room.Transports.Requests.{receive-fired, run_handlers-one}

-- The call of `consume` for a producer that is found.
abbrev pub calling_consume : Consuming → JsMap.Entry Producer → Json → TransportInfo → Room → Room
calling_consume k x caps t r = record r {
  tasks = r.tasks ++ Task.consuming (record k { cursor = suc x.stamp }) x.value.id ∷ [];
  effects = Effect.consumer_requested t.id x.value.id caps ∷ r.effects;
}

pub consume_from_lem :
    (k : Consuming) (p c : Client) (x : JsMap.Entry Producer) (caps : Json) (t : TransportInfo)
    (r : Room)
    → client_at k.producing r ≡ some p
    → client_at k.consuming r ≡ some c
    → next_producer c k.cursor p.producers.entries ≡ some (x, caps, t)
    → consume_from k r ≡ calling_consume k x caps t r
unfolding consume_from consume_rounds await record_effect
consume_from_lem k p c x caps t r e d n = rw (consume_from, e, d, consume_rounds, n) refl

-- The listener of a join request runs its loop.
pub joined :
    (now h : ℕ) (i : String) (c : Client) (r : Room)
    → client_at h r ≡ some c
    → c.events ≡ room_events
    → receive now h (Frame.message (Message.join_call_request i)) r
      ≡ run_loop now (record { job = Job.joining i; owner = h; cursor = 0 }) r
unfolding handle ClientEvents.receive room_events type_of
joined now h i c r e fresh =
    let f = Frame.message (Message.join_call_request i) in
    receive-fired now h f (on_join_call ∷ []) c r e fresh (ap (ClientEvents.receive f) fresh ∙ refl)
    ∙ run_handlers-one now h on_join_call f c r e

-- The loop of a producing client calls `consume` for another client. That one asks to join before
-- mediasoup has answered, and the producing client is the first that its own loop comes to. The room
-- then calls `consume` for the same producer and the same client once more: it looks for a consumer of
-- the producer before it waits, and keeps the consumer only afterwards.
pub consumer_requested_twice :
    (now producing consuming : ℕ) (i : String) (loop : Loop) (p c : Client) (x : JsMap.Entry ℕ)
    (y : JsMap.Entry Producer) (caps : Json) (t : TransportInfo) (r : Room)
    → client_at producing r ≡ some p
    → client_at consuming r ≡ some c
    → c.events ≡ room_events
    → next_other c.client_id 0 r.clients.entries ≡ some x
    → JsMap.get x.key r.clients ≡ some producing
    → JsMap.get c.client_id r.clients ≡ some consuming
    → next_producer c 0 p.producers.entries ≡ some (y, caps, t)
    → let k : Consuming = record {
      loop = loop;
      producing_client_id = x.key;
      producing = producing;
      consuming_client_id = c.client_id;
      consuming = consuming;
      cursor = 0;
    } in
      let request = Effect.consumer_requested t.id y.value.id caps in
      (step now
        (Event.received consuming (Frame.message (Message.join_call_request i)))
        (consume_from k r)).effects
      ≡ request ∷ request ∷ r.effects
unfolding step run_loop loop_rounds consume_client
consumer_requested_twice now producing consuming i loop p c x y caps t r at_p at_c fresh other to_p
      to_c found =
    let k : Consuming = record {
      loop = loop;
      producing_client_id = x.key;
      producing = producing;
      consuming_client_id = c.client_id;
      consuming = consuming;
      cursor = 0;
    } in
    let own : Loop = record { job = Job.joining i; owner = consuming; cursor = suc x.stamp } in
    let s = calling_consume k y caps t r in
    rw
      (
        consume_from_lem k p c y caps t r at_p at_c found,
        joined now consuming i c s at_c fresh,
        run_loop,
        at_c,
        loop_rounds,
        other,
        consume_client,
        to_p,
        to_c,
        consume_from_lem (record k { loop = own }) p c y caps t s at_p at_c found,
      )
      refl
