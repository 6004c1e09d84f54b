-- ===== src/Sfu/Room/Joining.antt =====
-- Two clients of a room of sfu/src/media/Room.ts, after any events, one of which is to consume the other.
use demo_app.Base.{
  String, ℕ, List, ◌∷◌, [], ◌++◌, ◌≡◌, ◌≢◌, some, All, All-get_elem?, All-append_end, All-set,
  Bool-cases, true, inl, inr, length, arith,
}
use demo_app.Base.JsMap
use demo_app.Base.JsMap.Stamps.{IsStamped}
use demo_app.Protocol.Json.{Json}
use demo_app.Protocol.Messages.{TransportInfo}
use demo_app.Sfu.Room.State.{
  Consumer, Client, Room, RoomConfig, Router, Loop, Task, client_at, record_effect, await, modify,
  close,
}
use demo_app.Sfu.Room.Consume.{consume_client}
use demo_app.Sfu.Room.Handlers.{remove_client}
use demo_app.Sfu.Room.Step.{init, add, new_client, Event, run}
use demo_app.Sfu.Room.Moves.{
  Move, speaking, calling, awaiting, resuming, changing, joining, leaving, closing, losing_router,
  Moves, stay, next,
}
use demo_app.Sfu.Room.Moves.Steps.{run-Moves}
use demo_app.Sfu.Room.Registry.{run-IsRegistered, Holds}
use demo_app.Sfu.Room.Feeding.{consume_client_complete}
use demo_app.Sfu.Room.Feeding.Answering.{answers}
use demo_app.Sfu.Room.Feeding.Producers.{consumes, Keyed}

-- The producers of a client stand in the order in which they were made.
abbrev pub IsOrdered : Client → Type 0
IsOrdered c = IsStamped c.producers

Move-IsOrdered : {r s : Room} → Move r s → All IsOrdered r.store → All IsOrdered s.store
unfolding record_effect await modify add new_client remove_client close
Move-IsOrdered {r} (changing k f d e keep) v =
    rw (e, modify)
      (All-set IsOrdered r.store k (f d) v (keep.stamped (All-get_elem? IsOrdered r.store k d v e)))
Move-IsOrdered {r} (joining id user) v = All-append_end IsOrdered r.store _ v (tt, tt)
Move-IsOrdered {r} closing v = elim (Bool-cases r.router.closed) [
  | inl e ↦ rw (e, close) v
  | inr e ↦ rw (e, close) v
]
Move-IsOrdered (speaking k m d e o s) v = v
Move-IsOrdered (calling e s) v = v
Move-IsOrdered (awaiting t) v = v
Move-IsOrdered (resuming i) v = v
Move-IsOrdered (leaving id) v = v
Move-IsOrdered losing_router v = v

Moves-IsOrdered : {r s : Room} → Moves r s → All IsOrdered r.store → All IsOrdered s.store
Moves-IsOrdered stay v = v
Moves-IsOrdered (next p m) v = Move-IsOrdered m (Moves-IsOrdered p v)

pub run-IsOrdered :
    (config : RoomConfig) (router : Router) (sign : String → String → String → ℕ → String)
    (es : List (ℕ × Event))
    → All IsOrdered (run es (init config router sign)).store
unfolding init
run-IsOrdered config router sign es = Moves-IsOrdered (run-Moves es (init config router sign)) tt

-- Clients with different ids are different objects.
pub Holds-apart : (h g : ℕ) (j k : String) (r : Room) → Holds h j r → Holds g k r → j ≢ k → h ≢ g
Holds-apart h g j k r (c, at_c, id_c) (d, at_d, id_d) n e =
    n (ground (arith, at_c, id_c, at_d, id_d, e))

-- After any events, when `_consumeClient` is called for two clients of the room with different ids, the
-- consuming one of which has told its capabilities and has its transport, mediasoup answers each call of
-- `consume` with a consumer of that producer under an id of its own, and nothing else comes in
-- between: then as many answers as the producing client has producers are enough for the call to
-- return to its loop, and the consuming client then has a consumer for every one of these producers.
run-consume_client :
    (config : RoomConfig) (router : Router) (sign : String → String → String → ℕ → String)
    (es : List (ℕ × Event)) (make : String → Consumer) (caps : Json) (t : TransportInfo) (now : ℕ)
    (l : Loop) (producing_id consuming_id : String) (producing consuming : ℕ) (c : Client)
    → ((q : String) → (make q).producer_id ≡ q)
    → ((a b : String) → (make a).id ≡ (make b).id → a ≡ b)
    → JsMap.get producing_id (run es (init config router sign)).clients ≡ some producing
    → JsMap.get consuming_id (run es (init config router sign)).clients ≡ some consuming
    → producing_id ≢ consuming_id
    → client_at consuming (run es (init config router sign)) ≡ some c
    → c.rtp_capabilities ≡ some caps
    → c.rcv_transport ≡ some t
    → Keyed make c.consumers
    → let r = run es (init config router sign) in
      (p : Client) × (client_at producing r ≡ some p)
      × (let s =
            answers now
              (length r.tasks)
              make
              (JsMap.size p.producers)
              (consume_client l producing_id consuming_id r) in
          (s.tasks ≡ r.tasks ++ Task.looping l ∷ [])
          × ((d : Client) × (client_at consuming s ≡ some d)
              × All (λ x. consumes d x.value.id ≡ true) p.producers.entries))
run-consume_client config router sign es make caps t now l producing_id consuming_id producing
      consuming c own unlike to_p to_c other at_c has_caps has_t keyed =
    let r = run es (init config router sign) in
    let held_p = run-IsRegistered config router sign es producing_id producing to_p in
    let held_c = run-IsRegistered config router sign es consuming_id consuming to_c in
    let (p, at_p, id_p) = held_p in
    let (tasks, aside, fed) =
      consume_client_complete make own unlike caps t now (JsMap.size p.producers) l producing_id
        consuming_id producing consuming p c r (omega arith) to_p to_c
        (Holds-apart producing consuming producing_id consuming_id r held_p held_c other) at_p at_c
        has_caps has_t
        (All-get_elem? IsOrdered r.store producing p (run-IsOrdered config router sign es) at_p).0
        keyed in
    let (d, at_d, grown, all) = fed in (p, at_p, (tasks, (d, at_d, all)))
