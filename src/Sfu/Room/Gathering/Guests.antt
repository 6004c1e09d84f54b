-- ===== src/Sfu/Room/Gathering/Guests.antt =====
-- A client that joins a room of sfu/src/media/Room.ts, in the midst of the loop over the other clients.
use demo_app.Base.{
  get_elem?-length, String, ℕ, ◌≤◌, List, [], ◌∷◌, ◌≡◌, ◌≢◌, refl, sym, ◌∙◌, ap, true, false,
  Option, none, some, inl, inr, All, All-weaken, Bool-cases, length, leb, subst,
}
use demo_app.Base.JsMap
use demo_app.Base.JsMap.Keys.{Distinct}
use demo_app.Base.JsMap.Stamps.{Ascending}
use demo_app.Protocol.Json.{Json}
use demo_app.Protocol.Messages.{Message, TransportInfo}
use demo_app.Sfu.Room.State.{
  Consumer, Client, Room, Job, Task, Effect, sent, client_at, record_effect,
}
use demo_app.Sfu.Room.Consume.{next_other, run_loop}
use demo_app.Sfu.Room.Registry.{Holds}
use demo_app.Sfu.Room.Feeding.Producers.{consumes, Keyed, Grown}
use demo_app.Sfu.Room.Gathering.Clients.{next_other-none}
use demo_app.Sfu.Room.Gathering.Rounds.{gathered, gathered-none, run_loop_last}

-- The entry is the client's own, or the client consumes every producer of the entry's.
abbrev pub Served : Room → String → Client → JsMap.Entry ℕ → Type 0
Served r own c y =
    own ≢ y.key
    → (p : Client) → client_at y.value r ≡ some p
    → All (λ z. consumes c z.value.id ≡ true) p.producers.entries

-- A room whose clients are in order, and of which one may join.
pub record Hall (h : ℕ) (own : String) (most : ℕ) (r : Room) : Type 0 where
  pub distinct : Distinct r.clients.entries
  pub ascending : Ascending r.clients.entries
  pub registered : (k : String) (g : ℕ) → JsMap.get k r.clients ≡ some g → Holds g k r
  pub entered : JsMap.get own r.clients ≡ some h
  pub ordered : (g : ℕ) (p : Client) → client_at g r ≡ some p → Ascending p.producers.entries
  pub few : (g : ℕ) (p : Client) → client_at g r ≡ some p → JsMap.size p.producers ≤ most

-- Its client, in the midst of the loop.
pub record Guest (make : String → Consumer) (caps : Json) (t : TransportInfo) (h : ℕ) (own : String)
    (cursor : ℕ) (c : Client) (r0 r : Room) : Type 0 where
  pub at_own : client_at h r ≡ some c
  pub has_id : c.client_id ≡ own
  pub has_capabilities : c.rtp_capabilities ≡ some caps
  pub has_transport : c.rcv_transport ≡ some t
  pub live : c.events.closed ≡ false
  pub keyed : Keyed make c.consumers
  pub same_clients : r.clients ≡ r0.clients
  pub others : (g : ℕ) → h ≢ g → client_at g r ≡ client_at g r0
  pub behind : All (λ y. leb cursor y.stamp ≡ false → Served r0 own c y) r0.clients.entries

-- Where the listener ends.
abbrev pub Welcomed : ℕ → String → String → Room → List Task → Room → Type 0
Welcomed h i own r0 ts s =
    (s.tasks ≡ ts)
    × ((d : Client) × (client_at h s ≡ some d) × All (Served r0 own d) r0.clients.entries)
    × ((call : String) × (token : String) × (es : List Effect) × (s.effects
          ≡ sent h (Message.join_call_response i call token) ∷ es))

pub welcome_last :
    (now : ℕ) (i : String) (make : String → Consumer) (caps : Json) (t : TransportInfo) (h : ℕ)
    (own : String) (most fuel cursor : ℕ) (c : Client) (r0 r : Room)
    → Guest make caps t h own cursor c r0 r
    → next_other c.client_id cursor r.clients.entries ≡ none
    → Welcomed h i own r0 r.tasks (
        gathered now
          (length r.tasks)
          make
          most
          fuel
          (run_loop now (record { job = Job.joining i; owner = h; cursor = cursor }) r))
unfolding record_effect
welcome_last now i make caps t h own most fuel cursor c r0 r v e =
    let (call, token, told) = run_loop_last now i h cursor c r v.at_own v.live e in
    let s = record_effect (sent h (Message.join_call_response i call token)) r in
    let none_left : next_other own cursor r0.clients.entries ≡ none =
      ap (λ k. next_other k cursor r0.clients.entries) (sym v.has_id)
      ∙ ap (λ (m : JsMap.JsMap ℕ). next_other c.client_id cursor m.entries) (sym v.same_clients)
      ∙ e in
    rw (told, gathered-none now (length r.tasks) make most fuel s (get_elem?-length r.tasks))
      (
        refl,
        (
          c,
          v.at_own,
          last r0.clients.entries (next_other-none own cursor r0.clients.entries none_left)
              v.behind,
        ),
        (call, token, r.effects, refl),
      )
  where
    last :
        (es : List (JsMap.Entry ℕ))
        → All (λ y. leb cursor y.stamp ≡ true → own ≡ y.key) es
        → All (λ y. leb cursor y.stamp ≡ false → Served r0 own c y) es
        → All (Served r0 own c) es
    last [] a b = tt
    last (y ∷ es) a b = (
      elim (Bool-cases (leb cursor y.stamp)) [
        | inl before ↦ λ n. absurd (n (a.0 before))
        | inr past ↦ b.0 past
      ],
      last es a.1 b.1,
    )

-- What was served to a client stays so when it gets consumers.
pub Served-Grown :
    (make : String → Consumer) (owns : (q : String) → (make q).producer_id ≡ q) (r : Room)
    (own : String) (c d : Client) (y : JsMap.Entry ℕ)
    → Grown make owns c d
    → Served r own c y
    → Served r own d y
Served-Grown make owns r own c d y g v n p at =
    All-weaken (λ z. consumes c z.value.id ≡ true) (λ z. consumes d z.value.id ≡ true)
      p.producers.entries (λ z h. g.more z.value.id h) (v n p at)

-- The client whose turn it was is served.
pub Served-turn :
    (r : Room) (own : String) (d p : Client) (y : JsMap.Entry ℕ)
    → client_at y.value r ≡ some p
    → All (λ z. consumes d z.value.id ≡ true) p.producers.entries
    → Served r own d y
Served-turn r own d p y at_p all n q at =
    subst (λ (o : Client). All (λ z. consumes d z.value.id ≡ true) o.producers.entries)
      (ap (client_or p) (sym at_p ∙ at)) all
  where
    client_or : Client → Option Client → Client
    client_or c none = c
    client_or c (some o) = o
