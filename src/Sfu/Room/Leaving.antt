-- ===== src/Sfu/Room/Leaving.antt =====
-- What happens when a client's web socket closes (sfu/src/media/Room.ts).
use demo_app.Base.{
  String, eq_iff, ◌≢◌, ap, ◌∙◌, get_elem?, length, get_elem?-append_left, get_elem?-append_end, ℕ,
  List, [], ◌∷◌, ◌≡◌, refl, Bool, true, false, Option, none, some, arith, set as set_elem,
}
use demo_app.Base.JsMap
use demo_app.Base.JsMap.{Entry}
use demo_app.Protocol.Messages.{TransportInfo}
use demo_app.Sfu.ClientEvents
use demo_app.Sfu.Room.State.{Client, Room, Effect, modify, close, client_at, on_close, Handler}
use demo_app.Sfu.Room.State.Frames.{client_at-modify_self, client_at-modify_ne}
use demo_app.Sfu.Room.Handlers.{close_if_empty, client_closed, handle}
use demo_app.Sfu.Room.Step.{
  run, add, new_client, Event, step, socket_closed, set_events, run_handlers, room_events,
}

-- What `client_closed` records, the newest first.
abbrev pub closed_transport : Option TransportInfo → List Effect → List Effect
closed_transport none es = es
closed_transport (some t) es = Effect.transport_closed t.id ∷ es

abbrev pub closed_room : List (Entry ℕ) → List Effect → List Effect
closed_room [] es = Effect.room_closed ∷ Effect.router_closed ∷ es
closed_room (x ∷ xs) es = es

abbrev pub is_empty : List (Entry ℕ) → Bool
is_empty [] = true
is_empty (x ∷ xs) = false

close_if_empty_lem :
    (r : Room)
    → r.router.closed ≡ false
    → let s = close_if_empty r in
      (s.clients ≡ r.clients)
      × (s.router.closed ≡ is_empty r.clients.entries)
      × (s.effects ≡ closed_room r.clients.entries r.effects)
unfolding close_if_empty close
close_if_empty_lem r h = ground arith

client_closed_lem :
    (c : Client) (r : Room)
    → r.router.closed ≡ false
    → let s = client_closed c r in
      let left = JsMap.delete c.client_id r.clients in
      (s.clients ≡ left)
      × (s.router.closed ≡ is_empty left.entries)
      × (s.effects
          ≡ closed_room left.entries
              (closed_transport c.rcv_transport (closed_transport c.snd_transport r.effects)))
unfolding client_closed close
client_closed_lem c r h = ground arith

room_events-socket_closed :
    ClientEvents.socket_closed room_events
    ≡ (record { closed = true; listeners = [] }, on_close ∷ [])
unfolding ClientEvents.socket_closed room_events
room_events-socket_closed = refl

abbrev shut_events : ClientEvents.ClientEvents Handler
shut_events = record { closed = true; listeners = [] }

socket_closed-client_closed :
    (now h : ℕ) (c : Client) (r : Room)
    → client_at h r ≡ some c
    → c.events ≡ room_events
    → socket_closed now h r
      ≡ client_closed (set_events shut_events c) (modify h (set_events shut_events) r)
unfolding socket_closed run_handlers handle
socket_closed-client_closed now h c r e fresh = rw (
  e,
  socket_closed,
  fresh,
  room_events-socket_closed,
  client_at-modify_self h (set_events shut_events) c r e,
  run_handlers,
)

-- The web socket of a client that still has the listeners of `add` closes, in a room whose router is
-- open. The entry of its id is deleted and its transports are closed; the router is closed and the
-- hook runs exactly if no entry is left.
pub disconnected_lem :
    (now h : ℕ) (c : Client) (r : Room)
    → client_at h r ≡ some c
    → c.events ≡ room_events
    → r.router.closed ≡ false
    → let s = step now (Event.disconnected h) r in
      let left = JsMap.delete c.client_id r.clients in
      (s.clients ≡ left)
      × (s.router.closed ≡ is_empty left.entries)
      × (s.effects
          ≡ closed_room left.entries
              (closed_transport c.rcv_transport (closed_transport c.snd_transport r.effects)))
unfolding step
disconnected_lem now h c r e fresh live = rw (socket_closed-client_closed now h c r e fresh) (
    unfold set_events modify in
    rw (e, modify)
      (client_closed_lem (set_events shut_events c)
        (record r { store = set_elem r.store h (set_events shut_events c) }) live))

get_elem?-end : {A : Type 0} (xs : List A) → get_elem? xs (length xs) ≡ none
get_elem?-end [] = refl
get_elem?-end (x ∷ xs) = get_elem?-end xs

-- The handle of a client is not the one that the next client gets.
client_at-next : (h : ℕ) (c : Client) (r : Room) → client_at h r ≡ some c → h ≢ length r.store
client_at-next h c r e same =
    let gone : get_elem? r.store h ≡ none = ap (get_elem? r.store) same ∙ get_elem?-end r.store in
    absurd (cc)

client_closed-store : (c : Client) (r : Room) → (client_closed c r).store ≡ r.store
unfolding client_closed close
client_closed-store c r = ground arith

-- A client comes back with its id before its first web socket closes, in a room whose router is open.
-- The end of the first web socket deletes the entry of the id, although the second client is there with
-- its listeners.
pub rejoined_lem :
    (now h : ℕ) (user : Option String) (c : Client) (r : Room)
    → client_at h r ≡ some c
    → c.events ≡ room_events
    → r.router.closed ≡ false
    → let s = run ((now, Event.added c.client_id user) ∷ (now, Event.disconnected h) ∷ []) r in
      (JsMap.get c.client_id s.clients ≡ none)
      × (client_at (length r.store) s ≡ some (new_client c.client_id user))
unfolding run step add
rejoined_lem now h user c r e fresh live =
    let q = add c.client_id user r in
    let there : client_at h q ≡ some c =
      get_elem?-append_left r.store (new_client c.client_id user ∷ []) h c e in
    let end = disconnected_lem now h c q there fresh live in
    (
      ap (JsMap.get c.client_id) end.0
          ∙ ground (
            arith,
            JsMap.get-delete c.client_id c.client_id q.clients,
            eq_iff c.client_id c.client_id,
          ),
      ap (client_at (length r.store)) (socket_closed-client_closed now h c q there fresh)
          ∙ ap (λ l. get_elem? l (length r.store))
              (client_closed-store (set_events shut_events c) (modify h (set_events shut_events) q))
          ∙ client_at-modify_ne h (length r.store) (set_events shut_events) q
              (client_at-next h c r e)
          ∙ get_elem?-append_end r.store (new_client c.client_id user),
    )
