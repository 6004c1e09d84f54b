-- ===== src/Sfu/Room/Gathering.antt =====
-- The listener of `join-call-request` of sfu/src/media/Room.ts from the request to its response, when
-- mediasoup answers each call of `consume` and nothing else comes in between.
pub mod Clients
pub mod Rounds
pub mod Guests
use demo_app.Base.{
  String, ℕ, zero, suc, ◌+◌, ◌≤◌, ◌<◌, List, [], ◌∷◌, ◌++◌, ◌≡◌, ◌≢◌, refl, sym, ◌∙◌, ap, true,
  false, Option, none, some, ◌⊎◌, inl, inr, All, All-weaken, Option-cases, Bool-cases, arith,
  length, get_elem?, erase_idx, get_elem?-append_end, leb, subst,
}
use demo_app.Base.JsMap
use demo_app.Base.JsMap.Keys.{Distinct}
use demo_app.Base.JsMap.Stamps.{Ascending, ahead}
use demo_app.Protocol.Json.{Json}
use demo_app.Protocol.Messages.{Message, TransportInfo}
use demo_app.Sfu.ClientEvents.{can_send}
use demo_app.Sfu.Room.State.{
  Consumer, Client, Room, Job, Loop, Task, Effect, sent, client_at, record_effect, send,
}
use demo_app.Sfu.Room.Consume.{
  token_lifetime, next_other, finish, loop_rounds, run_loop, consume_client,
}
use demo_app.Sfu.Room.Handlers.{fits, resume, done}
use demo_app.Sfu.Room.Step.{settled}
use demo_app.Sfu.Room.Registry.{Holds, IsRegistered}
use demo_app.Sfu.Room.Joining.{Holds-apart}
use demo_app.Sfu.Room.Feeding.{Fed, consume_client_complete}
use demo_app.Sfu.Room.Feeding.Answering.{answers, Aside, erase_idx-append_end}
use demo_app.Sfu.Room.Feeding.Producers.{consumes, Keyed, Grown}
use demo_app.Sfu.Room.Gathering.Clients.{next_other-none, next_other-some, Halts}
use demo_app.Sfu.Room.Gathering.Rounds.{
  gathered, gathered-none, gathered-looping, settled-looping, run_loop_last, run_loop_next,
}
use demo_app.Sfu.Room.Gathering.Guests.{
  Served, Hall, Guest, Welcomed, welcome_last, Served-Grown, Served-turn,
}

module _ (make : String → Consumer) (owns : (q : String) → (make q).producer_id ≡ q)
    (unlike : (a b : String) → (make a).id ≡ (make b).id → a ≡ b) (caps : Json)
    (t : TransportInfo) where
  next_Guest :
      (h : ℕ) (own : String) (cursor : ℕ) (c d p : Client) (x : JsMap.Entry ℕ) (r0 r s : Room)
      → Guest make caps t h own cursor c r0 r
      → client_at x.value r0 ≡ some p
      → All
          (λ y. leb (suc x.stamp) y.stamp ≡ false → Served r0 own c y ⊎ (y ≡ x))
          r0.clients.entries
      → Aside h r s
      → client_at h s ≡ some d
      → Grown make owns c d
      → All (λ z. consumes d z.value.id ≡ true) p.producers.entries
      → Guest make caps t h own (suc x.stamp) d r0 (record s { tasks = r.tasks })
  next_Guest h own cursor c d p x r0 r s v at_p behind aside at_d grown all = record {
    at_own = at_d;
    has_id = grown.same_id ∙ v.has_id;
    has_capabilities = grown.same_capabilities ∙ v.has_capabilities;
    has_transport = grown.same_transport ∙ v.has_transport;
    live = ap (λ e. e.closed) grown.same_events ∙ v.live;
    keyed = grown.still_keyed;
    same_clients = aside.same_clients ∙ v.same_clients;
    others = λ g n. aside.others g n ∙ v.others g n;
    behind =
        All-weaken _ _ r0.clients.entries
          (λ y f b. elim (f b) [
            | inl old ↦ Served-Grown make owns r0 own c d y grown old
            | inr turn ↦ subst (Served r0 own d) (sym turn) (Served-turn r0 own d p x at_p all)
          ])
          behind;
  }

  -- The rounds of the loop, by the number of clients that it has before it.
  pub welcome :
      (now : ℕ) (i : String) (h : ℕ) (own : String) (most fuel cursor : ℕ) (c : Client)
      (r0 r : Room)
      → Hall h own most r0
      → Guest make caps t h own cursor c r0 r
      → ahead cursor r0.clients.entries ≤ fuel
      → Welcomed h i own r0 r.tasks (
          gathered now
            (length r.tasks)
            make
            most
            fuel
            (run_loop now (record { job = Job.joining i; owner = h; cursor = cursor }) r))
  unfolding JsMap.get
  welcome now i h own most zero cursor c r0 r hall v few =
      elim (Option-cases (next_other c.client_id cursor r.clients.entries)) [
        | inl e ↦ welcome_last now i make caps t h own most zero cursor c r0 r v e
        | inr (x, e) ↦ absurd (
            omega (
              arith,
              few,
              (next_other-some (Served r0 own c) own (λ y q n. absurd (n q)) cursor
                  r0.clients.entries x hall.ascending hall.distinct v.behind (at_hall x e)).1,
            ))
      ]
    where
      at_hall :
          (x : JsMap.Entry ℕ)
          → next_other c.client_id cursor r.clients.entries ≡ some x
          → next_other own cursor r0.clients.entries ≡ some x
      at_hall x e =
          ap (λ k. next_other k cursor r0.clients.entries) (sym v.has_id)
          ∙ ap (λ (m : JsMap.JsMap ℕ). next_other c.client_id cursor m.entries) (sym v.same_clients)
          ∙ e
  welcome now i h own most (suc fuel) cursor c r0 r hall v few =
      elim (Option-cases (next_other c.client_id cursor r.clients.entries)) [
        | inl e ↦ welcome_last now i make caps t h own most (suc fuel) cursor c r0 r v e
        | inr (x, e) ↦
            let at_hall : next_other own cursor r0.clients.entries ≡ some x =
              ap (λ k. next_other k cursor r0.clients.entries) (sym v.has_id)
              ∙ ap (λ (m : JsMap.JsMap ℕ). next_other c.client_id cursor m.entries)
                  (sym v.same_clients)
              ∙ e in
            let stop =
              next_other-some (Served r0 own c) own (λ y q n. absurd (n q)) cursor
                r0.clients.entries x hall.ascending hall.distinct v.behind at_hall in
            let held = hall.registered x.key x.value stop.3 in
            let (p, at_p, id_p) = held in
            let away =
              Holds-apart h x.value own x.key r0 (hall.registered own h hall.entered) held stop.2 in
            let l : Loop = record { job = Job.joining i; owner = h; cursor = suc x.stamp } in
            let (tasks, aside, fed) =
              consume_client_complete make owns unlike caps t now most l x.key c.client_id x.value h
                p c r (hall.few x.value p at_p) (ap (JsMap.get x.key) v.same_clients ∙ stop.3)
                (ap (λ k. JsMap.get k r.clients) v.has_id
                  ∙ ap (JsMap.get own) v.same_clients
                  ∙ hall.entered)
                (λ q. away (sym q)) (v.others x.value away ∙ at_p) v.at_own v.has_capabilities
                v.has_transport (hall.ordered x.value p at_p) v.keyed in
            let (d, at_d, grown, all) = fed in
            let s = answers now (length r.tasks) make most (consume_client l x.key c.client_id r) in
            let at_task =
              ap (λ ts. get_elem? ts (length r.tasks)) tasks
              ∙ get_elem?-append_end r.tasks (Task.looping l) in
            let later =
              welcome now i h own most fuel (suc x.stamp) d r0 (record s { tasks = r.tasks }) hall
                (next_Guest h own cursor c d p x r0 r s v at_p stop.4 aside at_d grown all)
                (omega (arith, few, stop.1)) in
            let path =
              ap (gathered now (length r.tasks) make most (suc fuel))
                (run_loop_next now i h cursor c x r v.at_own e)
              ∙ gathered-looping now (length r.tasks) make most fuel l
                  (consume_client l x.key c.client_id r) at_task
              ∙ ap (gathered now (length r.tasks) make most fuel) (
                  settled-looping now (length r.tasks) l s at_task
                  ∙ ap (λ ts. run_loop now l (record s { tasks = ts }))
                      (ap (λ ts. erase_idx ts (length r.tasks)) tasks
                        ∙ erase_idx-append_end r.tasks (Task.looping l))) in
            subst (Welcomed h i own r0 r.tasks) (sym path) later
      ]
