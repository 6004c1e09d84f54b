-- ===== src/Sfu/Room/Welcoming.antt =====
-- A client joins a room of sfu/src/media/Room.ts as any events have left it.
use demo_app.Base.{
  false, subst, sym, leb, String, ℕ, List, ◌≡◌, ◌≢◌, ◌∙◌, ap, refl, some, All, All-get_elem?,
  Bool-cases, inl, inr, true, length, ◌≤◌, ◌∷◌, [], arith, ◌==◌, eq_iff,
}
use demo_app.Base.JsMap
use demo_app.Base.JsMap.Keys.{Distinct, set-Distinct, delete-Distinct}
use demo_app.Base.JsMap.Stamps.{IsStamped, set-IsStamped, delete-IsStamped, ahead-zero_le}
use demo_app.Protocol.Json.{Json}
use demo_app.Protocol.Messages.{Message, TransportInfo}
use demo_app.Protocol.Codec.{Frame}
use demo_app.Sfu.Room.State.{
  Consumer, Client, Room, RoomConfig, Router, Effect, sent, client_at, record_effect, await, close,
}
use demo_app.Sfu.Room.Handlers.{remove_client}
use demo_app.Sfu.Room.Step.{init, add, Event, step, run, room_events}
use demo_app.Sfu.Room.Moves.{
  Move, speaking, calling, awaiting, resuming, changing, joining, leaving, closing, losing_router,
  Moves, stay, next,
}
use demo_app.Sfu.Room.Moves.Steps.{run-Moves}
use demo_app.Sfu.Room.State.Frames.{modify_frame}
use demo_app.Sfu.Room.Registry.{run-IsRegistered}
use demo_app.Sfu.Room.Overlap.{joined}
use demo_app.Sfu.Room.Joining.{IsOrdered, run-IsOrdered}
use demo_app.Sfu.Room.Feeding.Producers.{consumes, Keyed}
use demo_app.Sfu.Room.Gathering.{welcome}
use demo_app.Sfu.Room.Gathering.Rounds.{gathered}
use demo_app.Sfu.Room.Gathering.Guests.{Served, Hall, Guest}

-- The clients of a room stand in the order in which they came, each once.
abbrev IsSorted : Room → Type 0
IsSorted r = Distinct r.clients.entries × IsStamped r.clients

Move-IsSorted : {r s : Room} → Move r s → IsSorted r → IsSorted s
unfolding record_effect await remove_client close add
Move-IsSorted {r} (changing k f d e keep) v =
    subst (λ (m : JsMap.JsMap ℕ). Distinct m.entries × IsStamped m) (sym (modify_frame k f r).2) v
Move-IsSorted {r} (joining id user) v = (
  set-Distinct id (length r.store) r.clients v.0,
  set-IsStamped id (length r.store) r.clients v.1,
)
Move-IsSorted {r} (leaving id) v =
    (delete-Distinct id r.clients v.0, delete-IsStamped id r.clients v.1)
Move-IsSorted {r} closing v = elim (Bool-cases r.router.closed) [
  | inl e ↦ rw (e, close) v
  | inr e ↦ rw (e, close) v
]
Move-IsSorted (speaking k m d e o s) v = v
Move-IsSorted (calling e s) v = v
Move-IsSorted (awaiting t) v = v
Move-IsSorted (resuming i) v = v
Move-IsSorted losing_router v = v

Moves-IsSorted : {r s : Room} → Moves r s → IsSorted r → IsSorted s
Moves-IsSorted stay v = v
Moves-IsSorted (next p m) v = Move-IsSorted m (Moves-IsSorted p v)

run-IsSorted :
    (config : RoomConfig) (router : Router) (sign : String → String → String → ℕ → String)
    (es : List (ℕ × Event))
    → IsSorted (run es (init config router sign))
unfolding init
run-IsSorted config router sign es =
    Moves-IsSorted (run-Moves es (init config router sign)) (tt, (tt, tt))

-- No entry is behind the start.
none_behind :
    (P : JsMap.Entry ℕ → Type 0) (es : List (JsMap.Entry ℕ))
    → All (λ y. leb 0 y.stamp ≡ false → P y) es
none_behind P [] = tt
none_behind P (x ∷ es) = (λ b. absurd (ground (arith, b)), none_behind P es)

-- What holds of every entry holds of the one that a key leads to.
All-find :
    (P : JsMap.Entry ℕ → Type 0) (k : String) (g : ℕ) (es : List (JsMap.Entry ℕ))
    → All P es
    → JsMap.find k es ≡ some g
    → (x : JsMap.Entry ℕ) × (x.key ≡ k) × (x.value ≡ g) × P x
unfolding JsMap.find
All-find P k g [] a e = absurd (cc)
All-find P k g (x ∷ es) a e = elim (Bool-cases (x.key == k)) [
  | inl hit ↦ (x, (eq_iff x.key k).0 hit, ground arith, a.0)
  | inr miss ↦ All-find P k g es a.1 (ground arith)
]

-- After any events, a client of the room that has told its capabilities, has its transport and has the
-- listeners that it was given asks to join. Suppose that mediasoup answers each call of `consume` with a
-- consumer of that producer under an id of its own, which no consumer of another producer has that
-- the client has already, that no client has more producers than `most`, and that nothing else comes in
-- between. Then the listener ends within as many rounds as the room has clients: the tasks are
-- those from before, its last effect is the response to the client that asked, and this client
-- then has a consumer for every producer of any other client of the room.
pub run-join_call :
    (config : RoomConfig) (router : Router) (sign : String → String → String → ℕ → String)
    (es : List (ℕ × Event)) (make : String → Consumer) (caps : Json) (t : TransportInfo)
    (now most : ℕ) (i own other : String) (h g : ℕ) (c p : Client)
    → ((q : String) → (make q).producer_id ≡ q)
    → ((a b : String) → (make a).id ≡ (make b).id → a ≡ b)
    → let r = run es (init config router sign) in
      JsMap.get own r.clients ≡ some h
      → client_at h r ≡ some c
      → c.events ≡ room_events
      → c.rtp_capabilities ≡ some caps
      → c.rcv_transport ≡ some t
      → Keyed make c.consumers
      → All (λ (d : Client). JsMap.size d.producers ≤ most) r.store
      → JsMap.get other r.clients ≡ some g
      → client_at g r ≡ some p
      → own ≢ other
      → let s =
          gathered now
            (length r.tasks)
            make
            most
            (JsMap.size r.clients)
            (step now (Event.received h (Frame.message (Message.join_call_request i))) r) in
        (s.tasks ≡ r.tasks)
        × ((d : Client) × (client_at h s ≡ some d)
            × All (λ x. consumes d x.value.id ≡ true) p.producers.entries)
        × ((call : String) × (token : String) × (before : List Effect) × (s.effects
              ≡ sent h (Message.join_call_response i call token) ∷ before))
unfolding step JsMap.get
run-join_call config router sign es make caps t now most i own other h g c p owns unlike to_c at_c
      fresh has_caps has_t keyed few to_p at_p n =
    let r = run es (init config router sign) in
    let sorted = run-IsSorted config router sign es in
    let ordered = run-IsOrdered config router sign es in
    let registered = run-IsRegistered config router sign es in
    let (o, at_o, id_o) = registered own h to_c in
    let hall : Hall h own most r = record {
      distinct = sorted.0;
      ascending = sorted.1.0;
      registered = registered;
      entered = to_c;
      ordered = λ k q at. (All-get_elem? IsOrdered r.store k q ordered at).0;
      few = λ k q at.
          All-get_elem? (λ (d : Client). JsMap.size d.producers ≤ most) r.store k q few at;
    } in
    let guest : Guest make caps t h own 0 c r r = record {
      at_own = at_c;
      has_id = ground (arith, at_c, at_o, id_o);
      has_capabilities = has_caps;
      has_transport = has_t;
      live = ap (λ e. e.closed) fresh;
      keyed = keyed;
      same_clients = refl;
      others = λ k q. refl;
      behind = none_behind (Served r own c) r.clients.entries;
    } in
    let (tasks, (d, at_d, all), told) =
      welcome make owns unlike caps t now i h own most (JsMap.size r.clients) 0 c r r hall guest
        (ahead-zero_le r.clients.entries) in
    let (x, key, value, served) = All-find (Served r own d) other g r.clients.entries all to_p in
    rw (joined now h i c r at_c fresh)
      (tasks, (d, at_d, served (λ q. n (q ∙ key)) p (ap (λ k. client_at k r) value ∙ at_p)), told)
