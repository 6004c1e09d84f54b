-- ===== src/Sfu/Room/Transports/Requests.antt =====
-- One request for a transport and one answer to it (sfu/src/media/Room.ts).
use demo_app.Base.{
  String, ℕ, suc, zero, List, [], ◌∷◌, ◌++◌, ◌≡◌, refl, sym, ap, ◌∙◌, false, some, arith, get_elem?,
  erase_idx, length, set as set_elem,
}
use demo_app.Protocol.Messages.{Message, Role, producing, consuming, TransportInfo, type_of}
use demo_app.Protocol.Codec.{Frame}
use demo_app.Sfu.ClientEvents
use demo_app.Sfu.ClientEvents.{Received, fired}
use demo_app.Sfu.Room.State.{
  Client, Room, Task, Effect, client_at, modify, send, record_effect, on_create_transport, Handler,
}
use demo_app.Sfu.Room.State.Frames.{client_at-modify_self, modify_frame}
use demo_app.Sfu.Room.Handlers.{
  create_transport, set_transport, handle, resume, fits, transport_created,
}
use demo_app.Sfu.Room.Step.{receive, run_received, run_handlers, room_events, set_events, settled}

set_elem_same :
    {A : Type 0} (xs : List A) (i : ℕ) (x : A) → get_elem? xs i ≡ some x → set_elem xs i x ≡ xs
set_elem_same [] i x h = refl
set_elem_same (y ∷ xs) zero x h = ap (λ z. z ∷ xs) (sym cc)
set_elem_same (y ∷ xs) (suc i) x h = ap (λ l. y ∷ l) (set_elem_same xs i x h)

pub erase_idx_end :
    {A : Type 0} (xs ys : List A) (x : A) → erase_idx ((xs ++ x ∷ []) ++ ys) (length xs) ≡ xs ++ ys
erase_idx_end [] ys x = refl
erase_idx_end (z ∷ xs) ys x = ap (λ l. z ∷ l) (erase_idx_end xs ys x)

modify_same :
    (h : ℕ) (f : Client → Client) (c : Client) (r : Room)
    → client_at h r ≡ some c
    → f c ≡ c
    → modify h f r ≡ r
unfolding modify
modify_same h f c r e same =
    rw (e, modify, same) (ap (λ l. record r { store = l }) (set_elem_same r.store h c e))

room_events-receive :
    (i : String) (role : Role)
    → ClientEvents.receive (Frame.message (Message.create_transport_request i role)) room_events
      ≡ (room_events, fired (on_create_transport ∷ []))
unfolding ClientEvents.receive room_events type_of
room_events-receive i role = refl

pub room_events-closed : room_events.closed ≡ false
unfolding room_events
room_events-closed = refl

-- The listeners that a frame fires run on the room as it is.
pub receive-fired :
    (now h : ℕ) (f : Frame) (hs : List Handler) (c : Client) (r : Room)
    → client_at h r ≡ some c
    → c.events ≡ room_events
    → ClientEvents.receive f c.events ≡ (room_events, fired hs)
    → receive now h f r ≡ run_handlers now h hs f r
unfolding receive run_received set_events
receive-fired now h f hs c r e fresh got =
    let same : set_events room_events c ≡ c = ap (λ v. set_events v c) (sym fresh) in
    rw (e, receive, got, modify_same h (set_events room_events) c r e same) refl

pub run_handlers-one :
    (now h : ℕ) (handler : Handler) (f : Frame) (c : Client) (r : Room)
    → client_at h r ≡ some c
    → run_handlers now h (handler ∷ []) f r ≡ handle now h c handler f r
unfolding run_handlers
run_handlers-one now h handler f c r e = rw (e, run_handlers) refl

-- The listener of the request runs.
pub asked :
    (now h : ℕ) (i : String) (role : Role) (c : Client) (r : Room)
    → client_at h r ≡ some c
    → c.events ≡ room_events
    → receive now h (Frame.message (Message.create_transport_request i role)) r
      ≡ create_transport h c i role r
unfolding handle
asked now h i role c r e fresh =
    let f = Frame.message (Message.create_transport_request i role) in
    receive-fired now h f (on_create_transport ∷ []) c r e fresh
      (ap (ClientEvents.receive f) fresh ∙ room_events-receive i role)
    ∙ run_handlers-one now h on_create_transport f c r e

-- The answer of mediasoup to such a request.
pub settled_lem :
    (now k h : ℕ) (i : String) (role : Role) (t : TransportInfo) (r : Room)
    → get_elem? r.tasks k ≡ some (Task.creating_transport h i role)
    → settled now k (transport_created t) r
      ≡ send h
          (Message.create_transport_response i t)
          (modify h (set_transport role t) (record r { tasks = erase_idx r.tasks k }))
unfolding settled fits resume
settled_lem now k h i role t r e = rw (e, settled) refl

-- What `send` and `modify` do for a client that is there and open.
pub told :
    (h : ℕ) (i : String) (role : Role) (t : TransportInfo) (c : Client) (r : Room)
    → client_at h r ≡ some c
    → c.events.closed ≡ false
    → let s = send h (Message.create_transport_response i t) (modify h (set_transport role t) r) in
      (client_at h s ≡ some (set_transport role t c))
      × (s.effects ≡ Effect.sent h (Message.create_transport_response i t) ∷ r.effects)
      × (s.tasks ≡ r.tasks)
unfolding send ClientEvents.can_send record_effect set_transport
told h i producing t c r e live = ground (
  arith,
  client_at-modify_self h (set_transport producing t) c r e,
  modify_frame h (set_transport producing t) r,
)
told h i consuming t c r e live = ground (
  arith,
  client_at-modify_self h (set_transport consuming t) c r e,
  modify_frame h (set_transport consuming t) r,
)
