-- ===== src/Sfu/Room/Transports.antt =====
-- Requests for transports (sfu/src/media/Room.ts, `create-transport-request`).
pub mod Requests
use demo_app.Base.{
  String, ℕ, suc, zero, List, [], ◌∷◌, ◌++◌, ◌≡◌, refl, sym, ap, ◌∙◌, false, none, some, arith,
  get_elem?, get_elem?-append_end, get_elem?-append_left, erase_idx, length, set as set_elem,
}
use mathlib.Core.List.{append-nil}
use demo_app.Protocol.Messages.{Message, Role, producing, consuming, TransportInfo, type_of}
use demo_app.Protocol.Codec.{Frame}
use demo_app.Sfu.ClientEvents
use demo_app.Sfu.ClientEvents.{Received, fired}
use demo_app.Sfu.Room.State.{
  Client, Room, Task, Effect, client_at, modify, send, await, record_effect, on_create_transport,
  Handler,
}
use demo_app.Sfu.Room.State.Frames.{client_at-modify_self, modify_frame}
use demo_app.Sfu.Room.Handlers.{
  create_transport, transport_of, set_transport, handle, resume, fits, transport_created,
}
use demo_app.Sfu.Room.Step.{
  Event, step, run, receive, run_received, run_handlers, room_events, set_events, settled,
}
use demo_app.Sfu.Room.Transports.Requests.{
  erase_idx_end, room_events-closed, asked, settled_lem, told,
}

set_transport_frame :
    (role : Role) (t : TransportInfo) (c : Client)
    → ((set_transport role t c).events ≡ c.events)
      × ((u : TransportInfo)
          → set_transport role u (set_transport role t c) ≡ set_transport role u c)
unfolding set_transport
set_transport_frame producing t c = (refl, λ u. refl)
set_transport_frame consuming t c = (refl, λ u. refl)

-- The two requests.
waiting :
    (h : ℕ) (i j : String) (role : Role) (c : Client) (r : Room)
    → transport_of role c ≡ none
    → let request = Effect.transport_requested r.config.ip r.config.announced_ip in
      create_transport h c j role (create_transport h c i role r) ≡ record r {
        tasks =
            (r.tasks ++ Task.creating_transport h i role ∷ [])
            ++ Task.creating_transport h j role ∷ [];
        effects = request ∷ request ∷ r.effects;
      }
unfolding create_transport await record_effect
waiting h i j role c r e = rw (e, create_transport) refl

create_transport-store :
    (h : ℕ) (c : Client) (i : String) (role : Role) (r : Room)
    → (create_transport h c i role r).store ≡ r.store
unfolding create_transport await record_effect
create_transport-store h c i role r = ground arith

-- The room once two requests wait.
abbrev both : ℕ → String → String → Role → Room → Room
both h i j role r =
    let request = Effect.transport_requested r.config.ip r.config.announced_ip in
    record r {
      tasks =
          (r.tasks ++ Task.creating_transport h i role ∷ [])
          ++ Task.creating_transport h j role ∷ [];
      effects = request ∷ request ∷ r.effects;
    }

asked_twice :
    (now h : ℕ) (i j : String) (role : Role) (c : Client) (r : Room)
    → client_at h r ≡ some c
    → c.events ≡ room_events
    → transport_of role c ≡ none
    → receive now h
        (Frame.message (Message.create_transport_request j role))
        (receive now h (Frame.message (Message.create_transport_request i role)) r)
      ≡ both h i j role r
asked_twice now h i j role c r e fresh no_transport =
    let there : client_at h (create_transport h c i role r) ≡ some c =
      ap (λ l. get_elem? l h) (create_transport-store h c i role r) ∙ e in
    ap (receive now h (Frame.message (Message.create_transport_request j role)))
      (asked now h i role c r e fresh)
    ∙ asked now h j role c (create_transport h c i role r) there fresh
    ∙ waiting h i j role c r no_transport

answered_lem :
    (now h : ℕ) (i : String) (role : Role) (t : TransportInfo) (c : Client) (q : Room)
    (ts rest : List Task)
    → client_at h q ≡ some c
    → c.events ≡ room_events
    → q.tasks ≡ (ts ++ Task.creating_transport h i role ∷ []) ++ rest
    → let s = settled now (length ts) (transport_created t) q in
      (client_at h s ≡ some (set_transport role t c))
      × (s.effects ≡ Effect.sent h (Message.create_transport_response i t) ∷ q.effects)
      × (s.tasks ≡ ts ++ rest)
answered_lem now h i role t c q ts rest e fresh at =
    let task = Task.creating_transport h i role in
    let found : get_elem? q.tasks (length ts) ≡ some task =
      ap (λ l. get_elem? l (length ts)) at
      ∙ get_elem?-append_left (ts ++ task ∷ []) rest (length ts) task
          (get_elem?-append_end ts task) in
    let live : c.events.closed ≡ false = ap (λ v. v.closed) fresh ∙ room_events-closed in
    let gone : erase_idx q.tasks (length ts) ≡ ts ++ rest =
      ap (λ l. erase_idx l (length ts)) at ∙ erase_idx_end ts rest task in
    let said = told h i role t c (record q { tasks = erase_idx q.tasks (length ts) }) e live in
    rw (settled_lem now (length ts) h i role t q found) (said.0, said.1, said.2 ∙ gone)

-- A client that has no transport of a role, and still the listeners of `add`, asks for one twice before
-- mediasoup has answered. Two transports are made, both requests are answered, and the client keeps
-- the second; no transport is closed.
pub create_transport_twice :
    (now h : ℕ) (i j : String) (role : Role) (t u : TransportInfo) (c : Client) (r : Room)
    → client_at h r ≡ some c
    → c.events ≡ room_events
    → transport_of role c ≡ none
    → let n = length r.tasks in
      let request = Effect.transport_requested r.config.ip r.config.announced_ip in
      let s =
        run
          ((now, Event.received h (Frame.message (Message.create_transport_request i role)))
            ∷ (now, Event.received h (Frame.message (Message.create_transport_request j role)))
            ∷ (now, Event.answered n (transport_created t))
            ∷ (now, Event.answered n (transport_created u))
            ∷ [])
          r in
      (client_at h s ≡ some (set_transport role u c))
      × (s.effects
          ≡ Effect.sent h (Message.create_transport_response j u)
            ∷ Effect.sent h (Message.create_transport_response i t)
            ∷ request
            ∷ request
            ∷ r.effects)
      × (s.tasks ≡ r.tasks)
unfolding run step
create_transport_twice now h i j role t u c r e fresh no_transport =
    let first =
      answered_lem now h i role t c (both h i j role r) r.tasks
        (Task.creating_transport h j role ∷ []) e fresh refl in
    let kept = set_transport_frame role t c in
    let second =
      answered_lem now h j role u (set_transport role t c)
        (settled now (length r.tasks) (transport_created t) (both h i j role r)) r.tasks [] first.0
        (kept.0 ∙ fresh)
        (first.2 ∙ sym (append-nil (r.tasks ++ Task.creating_transport h j role ∷ []))) in
    rw (asked_twice now h i j role c r e fresh no_transport) (
      second.0 ∙ ap some (kept.1 u),
      second.1 ∙ ap (λ es. Effect.sent h (Message.create_transport_response j u) ∷ es) first.1,
      second.2 ∙ append-nil r.tasks,
    )
