-- ===== src/Sfu/Room/Separation/Clients.antt =====
-- Clients that come to a room of sfu/src/media/Room.ts and leave it: their handles stay apart.
use demo_app.Base.{
  ◌≡◌, ◌==◌, eq_iff, false, length, get_elem?-length, arith, String, ℕ, List, [], ◌∷◌, Option, none,
  some, Bool-cases, inl, inr, true,
}
use demo_app.Base.JsMap
use demo_app.Protocol.Messages.{TransportInfo}
use demo_app.Sfu.Room.State.{Client, Room, record_effect, close}
use demo_app.Sfu.Room.Handlers.{close_transport, remove_client, close_if_empty, client_closed}
use demo_app.Sfu.Room.Step.{add}
use demo_app.Sfu.Room.Registry.{IsRegistered}
use demo_app.Sfu.Room.Separation.Loops.{IsSeparate}

pub close-IsSeparate : (r : Room) → IsSeparate r → IsSeparate (close r)
unfolding close
close-IsSeparate r v = elim (Bool-cases r.router.closed) [
  | inl e ↦ rw (close, e) v
  | inr e ↦ rw (close, e) v
]

close_transport-IsSeparate :
    (t : Option TransportInfo) (r : Room) → IsSeparate r → IsSeparate (close_transport t r)
unfolding close_transport record_effect
close_transport-IsSeparate none r v = v
close_transport-IsSeparate (some t) r v = v

close_if_empty-IsSeparate : (r : Room) → IsSeparate r → IsSeparate (close_if_empty r)
unfolding close_if_empty
close_if_empty-IsSeparate r v = go r.clients.entries
  where
    go : (es : List (JsMap.Entry ℕ)) → IsSeparate (elim es [ [] ↦ close r | e ∷ rest ↦ r ])
    go [] = close-IsSeparate r v
    go (e ∷ rest) = v

remove_client-IsSeparate : (id : String) (r : Room) → IsSeparate r → IsSeparate (remove_client id r)
unfolding remove_client
remove_client-IsSeparate id r v = (
  λ j k h e d.
      v.0 j k h (ground (arith, JsMap.get-delete id j r.clients, e))
        (ground (arith, JsMap.get-delete id k r.clients, d)),
  v.1,
)

-- The new client's handle is one that no entry has.
pub add-IsSeparate :
    (id : String) (user : Option String) (r : Room)
    → IsRegistered r
    → IsSeparate r
    → IsSeparate (add id user r)
unfolding add
add-IsSeparate id user r registered v = (
  λ j k h e d. elim (Bool-cases (id == j)) [
    | inl at_j ↦ elim (Bool-cases (id == k)) [
      | inl at_k ↦ ground (arith, at_j, at_k, eq_iff id j, eq_iff id k)
      | inr off_k ↦ absurd (fresh k h (new j h at_j e) (old k h off_k d))
    ]
    | inr off_j ↦ elim (Bool-cases (id == k)) [
      | inl at_k ↦ absurd (fresh j h (new k h at_k d) (old j h off_j e))
      | inr off_k ↦ v.0 j k h (old j h off_j e) (old k h off_k d)
    ]
  ],
  v.1,
)
  where
    made : JsMap.JsMap ℕ
    made = JsMap.set id (length r.store) r.clients

    new :
        (j : String) (h : ℕ)
        → (id == j) ≡ true
        → JsMap.get j made ≡ some h
        → some (length r.store) ≡ some h
    new j h at e = ground (arith, JsMap.get-set id j (length r.store) r.clients, at, e)

    old :
        (j : String) (h : ℕ)
        → (id == j) ≡ false
        → JsMap.get j made ≡ some h
        → JsMap.get j r.clients ≡ some h
    old j h off e = ground (arith, JsMap.get-set id j (length r.store) r.clients, off, e)

    fresh :
        (j : String) (h : ℕ) → some (length r.store) ≡ some h → JsMap.get j r.clients ≡ some h → ⊥
    fresh j h same e =
        let (c, at, named) = registered j h e in
        let end = get_elem?-length r.store in ground (arith, at, end, same)

pub client_closed-IsSeparate :
    (c : Client) (r : Room) → IsSeparate r → IsSeparate (client_closed c r)
unfolding client_closed
client_closed-IsSeparate c r v =
    close_if_empty-IsSeparate
      (remove_client c.client_id
        (close_transport c.rcv_transport (close_transport c.snd_transport r)))
      (remove_client-IsSeparate c.client_id
        (close_transport c.rcv_transport (close_transport c.snd_transport r))
        (close_transport-IsSeparate c.rcv_transport (close_transport c.snd_transport r)
          (close_transport-IsSeparate c.snd_transport r v)))
