-- ===== src/Sfu/Room/State/Frames.antt =====
-- What the updates of a room leave as it was, and what they change.
use demo_app.Base.{
  ℕ, ◌≡◌, refl, ◌≢◌, some, arith, get_elem?-set_self, get_elem?-set_ne, Option-cases, inl, inr,
}
use demo_app.Protocol.Messages.{Message}
use demo_app.Sfu.Room.State.{Client, Room, client_at, modify, send}

pub modify_frame :
    (h : ℕ) (f : Client → Client) (r : Room)
    → ((modify h f r).effects ≡ r.effects)
      × ((modify h f r).router ≡ r.router)
      × ((modify h f r).clients ≡ r.clients)
      × ((modify h f r).tasks ≡ r.tasks)
unfolding modify
modify_frame h f r = ground arith

pub client_at-modify_self :
    (h : ℕ) (f : Client → Client) (c : Client) (r : Room)
    → client_at h r ≡ some c
    → client_at h (modify h f r) ≡ some (f c)
unfolding modify
client_at-modify_self h f c r e = rw (e, modify) (get_elem?-set_self r.store h (f c) c e)

pub client_at-modify_ne :
    (h k : ℕ) (f : Client → Client) (r : Room) → h ≢ k → client_at k (modify h f r) ≡ client_at k r
unfolding modify
client_at-modify_ne h k f r n = elim (Option-cases (client_at h r)) [
  | inl e ↦ rw (e, modify) refl
  | inr (c, e) ↦ rw (e, modify) (get_elem?-set_ne r.store h k (f c) n)
]

pub send_frame :
    (h : ℕ) (m : Message) (r : Room)
    → ((send h m r).router ≡ r.router)
      × ((send h m r).clients ≡ r.clients)
      × ((send h m r).store ≡ r.store)
      × ((send h m r).tasks ≡ r.tasks)
unfolding send
send_frame h m r = ground arith
