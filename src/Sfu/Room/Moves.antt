-- ===== src/Sfu/Room/Moves.antt =====
-- An abstract view of a room: the single moves that every event of sfu/src/media/Room.ts is made of,
-- with what the code has checked before each. Invariants are proved for the moves.
pub mod Loops
pub mod Events
pub mod Steps
use demo_app.Base.{
  String, ℕ, List, ◌≡◌, refl, ◌⊎◌, inl, inr, Bool, true, false, Option, none, some, get_elem?,
  erase_idx, ◌≤◌, total, Option-cases, Bool-cases, arith,
}
use demo_app.Base.JsMap.Stamps.{IsStamped}
use demo_app.Protocol.Messages.{Message}
use demo_app.Sfu.ClientEvents.{can_send, Listener}
use demo_app.Sfu.Room.State.{
  Handler, Client, Room, Task, Effect, sent, client_at, record_effect, await, modify, send, close,
}
use demo_app.Sfu.Room.Handlers.{remove_client}
use demo_app.Sfu.Room.Step.{add}

-- The classes of messages that a room sends.
abbrev pub speaks : Message → Bool
speaks (Message.get_router_capabilities_response i c) = true
speaks (Message.create_transport_response i t) = true
speaks (Message.join_call_response i c t) = true
speaks (Message.create_producer_response i p) = true
speaks (Message.pause_producer_response i) = true
speaks (Message.consumer_created_notification c p k r w) = true
speaks (Message.consumer_closed_notification c) = true
speaks _ = false

-- Effects other than a message and the end of the room.
abbrev pub is_call : Effect → Bool
is_call (sent h m) = false
is_call Effect.room_closed = false
is_call Effect.router_closed = false
is_call _ = true

pub record Keeps (c d : Client) : Type 0 where
  pub same_id : d.client_id ≡ c.client_id
  pub stays_closed : c.events.closed ≡ true → d.events.closed ≡ true
  pub fewer : (g : Listener Handler → ℕ) → total g d.events.listeners ≤ total g c.events.listeners
  pub stamped : IsStamped c.producers → IsStamped d.producers

pub data Move (r : Room) : Room → Type 0 where
  speaking :
      (h : ℕ) (m : Message) (c : Client)
      → client_at h r ≡ some c
      → c.events.closed ≡ false
      → speaks m ≡ true
      → Move r (record_effect (sent h m) r)
  calling : (e : Effect) → is_call e ≡ true → Move r (record_effect e r)
  awaiting : (t : Task) → Move r (await t r)
  resuming : (i : ℕ) → Move r (record r { tasks = erase_idx r.tasks i })
  changing :
      (h : ℕ) (f : Client → Client) (c : Client)
      → client_at h r ≡ some c
      → Keeps c (f c)
      → Move r (modify h f r)
  joining : (id : String) (user : Option String) → Move r (add id user r)
  leaving : (id : String) → Move r (remove_client id r)
  closing : Move r (close r)
  losing_router : Move r (record r { router = record (r.router) { closed = true } })

pub data Moves (r : Room) : Room → Type 0 where
  stay : Moves r r
  next : {s t : Room} → Moves r s → Move s t → Moves r t

abbrev pub one : {r s : Room} → Move r s → Moves r s
one m = next stay m

pub Moves-trans : {r s t : Room} → Moves r s → Moves s t → Moves r t
Moves-trans p stay = p
Moves-trans p (next q m) = next (Moves-trans p q) m

pub send-Moves : (h : ℕ) (m : Message) (r : Room) → speaks m ≡ true → Moves r (send h m r)
unfolding send
send-Moves h m r s = elim (Option-cases (client_at h r)) [
  | inl e ↦ rw (e, send) stay
  | inr (c, e) ↦ elim (Bool-cases c.events.closed) [
    | inl shut ↦ rw (e, send, shut) stay
    | inr live ↦ rw (e, send, live) (one (speaking h m c e live s))
  ]
]

pub modify-Moves :
    (h : ℕ) (f : Client → Client) (r : Room)
    → ((c : Client) → client_at h r ≡ some c → Keeps c (f c))
    → Moves r (modify h f r)
modify-Moves h f r k = elim (Option-cases (client_at h r)) [
  | inl e ↦ unfold modify in rw (e, modify) stay
  | inr (c, e) ↦ one (changing h f c e (k c e))
]
