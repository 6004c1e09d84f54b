-- ===== src/Sfu/Room/Consume.antt =====
-- `_consumeClient` of sfu/src/media/Room.ts and the two loops that call it, cut at their awaits.
-- Each function runs the code up to the next `await` or the end of the listener.
use demo_app.Base.{
  String, ◌==◌, ℕ, suc, ◌+◌, List, [], ◌∷◌, Bool, false, not, ◌&&◌, ◌||◌, Option, none, some,
  if◌then◌else◌, leb,
}
use demo_app.Base.JsMap
use demo_app.Base.JsMap.{JsMap, Entry}
use demo_app.Protocol.Json.{Json}
use demo_app.Protocol.Messages.{Message, TransportInfo}
use demo_app.Sfu.Room.State.{
  Producer, Consumer, Client, Room, Job, joining, feeding, Loop, Consuming, Task, Effect, client_at,
  record_effect, await, modify, send,
}

-- Whether some consumer consumes the producer.
unfoldable pub is_consumed : String → List Consumer → Bool
is_consumed producer_id [] = false
is_consumed producer_id (c ∷ cs) = c.producer_id == producer_id || is_consumed producer_id cs

-- The body of the loop over the producers goes on to `consume` with the capabilities and the
-- transport, or to the next round.
unfoldable pub ready : Client → Producer → Option (Json × TransportInfo)
ready consumer p =
    if is_consumed p.id (JsMap.values consumer.consumers)
    then none
    else (elim consumer.rtp_capabilities [
      | none ↦ none
      | some caps ↦ elim consumer.rcv_transport [ none ↦ none | some t ↦ some (caps, t) ]
    ])

-- The next producer from the cursor on that is consumed.
unfoldable pub next_producer :
    Client → ℕ → List (Entry Producer) → Option (Entry Producer × Json × TransportInfo)
next_producer consumer cursor [] = none
next_producer consumer cursor (e ∷ es) =
    let later = next_producer consumer cursor es in
    if leb cursor e.stamp
    then (elim (ready consumer e.value) [ none ↦ later | some (caps, t) ↦ some (e, caps, t) ])
    else later

-- The rounds of the loop over the producers up to the next `await`.
unfoldable pub consume_rounds : Consuming → Client → Client → Room → Room
unfolding record_effect await next_producer
consume_rounds k producer consumer r =
    elim (next_producer consumer k.cursor producer.producers.entries) [
      | none ↦ await (Task.looping k.loop) r
      | some (e, caps, t) ↦
          await (Task.consuming (record k { cursor = suc e.stamp }) e.value.id)
            (record_effect (Effect.consumer_requested t.id e.value.id caps) r)
    ]

-- The same at the clients as they are in the store.
unfoldable pub consume_from : Consuming → Room → Room
unfolding consume_rounds await
consume_from k r = elim (client_at k.producing r) [
  | none ↦ await (Task.looping k.loop) r
  | some producer ↦ elim (client_at k.consuming r) [
    | none ↦ await (Task.looping k.loop) r
    | some consumer ↦ consume_rounds k producer consumer r
  ]
]

-- `_consumeClient`.
unfoldable pub consume_client : Loop → String → String → Room → Room
unfolding consume_from await
consume_client loop producing_id consuming_id r = elim (JsMap.get producing_id r.clients) [
  | none ↦ await (Task.looping loop) r
  | some p ↦ elim (JsMap.get consuming_id r.clients) [
    | none ↦ await (Task.looping loop) r
    | some c ↦
        consume_from
          (record {
            loop = loop;
            producing_client_id = producing_id;
            producing = p;
            consuming_client_id = consuming_id;
            consuming = c;
            cursor = 0;
          })
          r
  ]
]

-- The next key from the cursor on that is another than the client's own.
unfoldable pub next_other : String → ℕ → List (Entry ℕ) → Option (Entry ℕ)
next_other own cursor [] = none
next_other own cursor (e ∷ es) =
    let later = next_other own cursor es in
    if leb cursor e.stamp && not (own == e.key) then some e else later

-- 4 * 60 * 1000
abbrev pub token_lifetime : ℕ
token_lifetime = 240000

-- What stands behind the loop.
unfoldable pub finish : ℕ → Job → ℕ → Client → Room → Room
unfolding send
finish now (joining request_id) h own r =
    send h
      (Message.join_call_response request_id r.router.id
        (r.sign r.config.room_id own.client_id r.router.id (now + token_lifetime)))
      r
finish now feeding h own r = r

-- The ids of the producing and the consuming client of a round.
abbrev pub producing_of : Job → String → String → String
producing_of (joining i) own other = other
producing_of feeding own other = own

abbrev pub consuming_of : Job → String → String → String
consuming_of (joining i) own other = own
consuming_of feeding own other = other

unfoldable pub loop_rounds : ℕ → Loop → Client → Room → Room
unfolding next_other finish consume_client
loop_rounds now loop own r = elim (next_other own.client_id loop.cursor r.clients.entries) [
  | none ↦ finish now loop.job loop.owner own r
  | some e ↦
      consume_client (record loop { cursor = suc e.stamp })
        (producing_of loop.job own.client_id e.key) (consuming_of loop.job own.client_id e.key) r
]

-- The rounds of the loop over the clients up to the next `await`.
unfoldable pub run_loop : ℕ → Loop → Room → Room
unfolding loop_rounds
run_loop now loop r = elim (client_at loop.owner r) [
  | none ↦ r
  | some own ↦ loop_rounds now loop own r
]

unfoldable pub add_consumer : Consumer → Client → Client
add_consumer c client = record client { consumers = JsMap.set c.id c client.consumers }

-- `consume` has answered for the producer with the id.
unfoldable pub consumed : Consuming → String → Consumer → Room → Room
unfolding modify send add_consumer consume_from
consumed k producer_id c r = elim (client_at k.producing r) [
  | none ↦ r
  | some producer ↦ consume_from k (
      send k.consuming
        (Message.consumer_created_notification c.id producer_id c.kind c.rtp_parameters
          (record { user_id = producer.user_id; client_id = k.producing_client_id }))
        (modify k.consuming (add_consumer c) r))
]
