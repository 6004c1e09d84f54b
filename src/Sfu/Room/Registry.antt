-- ===== src/Sfu/Room/Registry.antt =====
-- The map `_clients` of a room (sfu/src/media/Room.ts) against the clients that it holds.
use demo_app.Base.{
  String, ℕ, List, ◌≡◌, ◌∙◌, Option, some, arith, Bool-cases, inl, inr, get_elem?-append_left,
  get_elem?-append_end, ℕ_discrete, ◌==◌, eq_iff, length,
}
use demo_app.Base.JsMap
use demo_app.Sfu.Room.State.{
  Client, Room, RoomConfig, Router, client_at, record_effect, await, modify, close,
}
use demo_app.Sfu.Room.State.Frames.{modify_frame, client_at-modify_self, client_at-modify_ne}
use demo_app.Sfu.Room.Handlers.{remove_client}
use demo_app.Sfu.Room.Step.{add, init, Event, run, new_client}
use demo_app.Sfu.Room.Moves.{
  Move, speaking, calling, awaiting, resuming, changing, joining, leaving, closing, losing_router,
  Keeps, Moves, stay, next,
}
use demo_app.Sfu.Room.Moves.Steps.{run-Moves}

-- A client of the store with the id.
abbrev pub Holds : ℕ → String → Room → Type 0
Holds h k r = (c : Client) × (client_at h r ≡ some c) × (c.client_id ≡ k)

abbrev pub IsRegistered : Room → Type 0
IsRegistered r = (k : String) (h : ℕ) → JsMap.get k r.clients ≡ some h → Holds h k r

changing-Holds :
    (h g : ℕ) (k : String) (f : Client → Client) (c : Client) (r : Room)
    → client_at h r ≡ some c
    → Keeps c (f c)
    → Holds g k r
    → Holds g k (modify h f r)
changing-Holds h g k f c r e keep (d, at, id) = elim (ℕ_discrete h g) [
  | yes p ↦
      let at' : client_at h r ≡ some d = rw p at in
      (f c, rw (← p) (client_at-modify_self h f c r e), keep.same_id ∙ ground arith)
  | no n ↦ (d, client_at-modify_ne h g f r n ∙ at, id)
]

joining-Holds :
    (k : String) (h : ℕ) (id : String) (user : Option String) (r : Room)
    → IsRegistered r
    → JsMap.get k (add id user r).clients ≡ some h
    → Holds h k (add id user r)
unfolding add
joining-Holds k h id user r v e = elim (Bool-cases (id == k)) [
  | inl same ↦
      let e' : some (length r.store) ≡ some h =
        ground (arith, JsMap.get-set id k (length r.store) r.clients) in
      let n : length r.store ≡ h = cc in
      (
        new_client id user,
        rw (← n) (get_elem?-append_end r.store (new_client id user)),
        (eq_iff id k).0 same,
      )
  | inr other ↦
      let (c, at, i) = v k h (ground (arith, JsMap.get-set id k (length r.store) r.clients)) in
      (c, get_elem?-append_left r.store _ h c at, i)
]

leaving-Holds :
    (k : String) (h : ℕ) (id : String) (r : Room)
    → IsRegistered r
    → JsMap.get k (remove_client id r).clients ≡ some h
    → Holds h k r
unfolding remove_client
leaving-Holds k h id r v e = v k h (ground (arith, JsMap.get-delete id k r.clients))

Move-IsRegistered : {r s : Room} → Move r s → IsRegistered r → IsRegistered s
unfolding record_effect await remove_client close
Move-IsRegistered (speaking h m c e o s) v = v
Move-IsRegistered (calling e s) v = v
Move-IsRegistered (awaiting t) v = v
Move-IsRegistered (resuming i) v = v
Move-IsRegistered {r} (changing h f c e keep) v =
    λ k g at. changing-Holds h g k f c r e keep (v k g (rw (← (modify_frame h f r).2) at))
Move-IsRegistered {r} (joining id u) v = λ k h. joining-Holds k h id u r v
Move-IsRegistered {r} (leaving id) v = λ k h. leaving-Holds k h id r v
Move-IsRegistered {r} closing v = elim (Bool-cases r.router.closed) [
  | inl e ↦ rw (e, close) v
  | inr e ↦ rw (e, close) v
]
Move-IsRegistered losing_router v = v

pub Moves-IsRegistered : {r s : Room} → Moves r s → IsRegistered r → IsRegistered s
Moves-IsRegistered stay v = v
Moves-IsRegistered (next p m) v = Move-IsRegistered m (Moves-IsRegistered p v)

pub init-IsRegistered :
    (config : RoomConfig) (router : Router) (sign : String → String → String → ℕ → String)
    → IsRegistered (init config router sign)
unfolding init
init-IsRegistered config router sign = λ k h e. absurd (ground (arith, JsMap.get-empty {V = ℕ} k))

-- After any order of events from the room's creation on, every id that `_clients` holds leads to a
-- client object with that id.
pub run-IsRegistered :
    (config : RoomConfig) (router : Router) (sign : String → String → String → ℕ → String)
    (es : List (ℕ × Event)) (k : String) (h : ℕ)
    → JsMap.get k (run es (init config router sign)).clients ≡ some h
    → Holds h k (run es (init config router sign))
run-IsRegistered config router sign es =
    Moves-IsRegistered (run-Moves es (init config router sign))
      (init-IsRegistered config router sign)
