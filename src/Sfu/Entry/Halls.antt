-- ===== src/Sfu/Entry/Halls.antt =====
-- The ids of the rooms in the list that sfu/src/main.ts's rooms stand in here.
use demo_app.Base.{
  String, ℕ, zero, suc, List, [], ◌∷◌, ◌++◌, ◌≡◌, refl, ap, ◌∙◌, Option, none, some, get_elem?,
  set as set_elem, length, arith, Bool-cases, inl, inr,
}
use demo_app.Sfu.Room.State.{Room, record_effect, await, modify, close}
use demo_app.Sfu.Room.Handlers.{remove_client}
use demo_app.Sfu.Room.Step.{add, step, Event}
use demo_app.Sfu.Room.Moves.{
  Move, Moves, stay, next, speaking, calling, awaiting, resuming, changing, joining, leaving,
  closing, losing_router,
}
use demo_app.Sfu.Room.Moves.Steps.{step-Moves}

abbrev room_id_of : Option Room → Option String
room_id_of none = none
room_id_of (some r) = some r.config.room_id

-- The id of the room with the number.
abbrev pub id_at : List Room → ℕ → Option String
id_at halls n = room_id_of (get_elem? halls n)

Move-config : {r s : Room} → Move r s → s.config ≡ r.config
unfolding record_effect await modify add remove_client close
Move-config (speaking h m c e o s) = refl
Move-config (calling e s) = refl
Move-config (awaiting t) = refl
Move-config (resuming i) = refl
Move-config {r} (changing h f c e k) = rw (modify, e) refl
Move-config (joining id u) = refl
Move-config (leaving id) = refl
Move-config {r} closing = elim (Bool-cases r.router.closed) [
  | inl e ↦ rw (e, close) refl
  | inr e ↦ rw (e, close) refl
]
Move-config losing_router = refl

Moves-config : {r s : Room} → Moves r s → s.config ≡ r.config
Moves-config stay = refl
Moves-config (next p m) = Move-config m ∙ Moves-config p

-- No event changes a room's configuration.
pub config-step : (now : ℕ) (e : Event) (r : Room) → (step now e r).config ≡ r.config
config-step now e r = Moves-config (step-Moves now e r)

pub config-add : (id : String) (u : Option String) (r : Room) → (add id u r).config ≡ r.config
unfolding add
config-add id u r = refl

pub id_at-set :
    (halls : List Room) (n m : ℕ) (r s : Room)
    → get_elem? halls n ≡ some r
    → s.config ≡ r.config
    → id_at (set_elem halls n s) m ≡ id_at halls m
id_at-set [] n m r s e k = refl
id_at-set (x ∷ xs) zero zero r s e k = ground (arith, ap (λ c. c.room_id) k, ap room_id_of e)
id_at-set (x ∷ xs) zero (suc m) r s e k = refl
id_at-set (x ∷ xs) (suc n) zero r s e k = refl
id_at-set (x ∷ xs) (suc n) (suc m) r s e k = id_at-set xs n m r s e k

pub id_at-append_left :
    (halls : List Room) (r : Room) (n : ℕ) (id : String)
    → id_at halls n ≡ some id
    → id_at (halls ++ r ∷ []) n ≡ some id
id_at-append_left [] r n id e = absurd (ground (arith, e))
id_at-append_left (x ∷ xs) r zero id e = e
id_at-append_left (x ∷ xs) r (suc n) id e = id_at-append_left xs r n id e

pub id_at-append_end :
    (halls : List Room) (r : Room) → id_at (halls ++ r ∷ []) (length halls) ≡ some r.config.room_id
id_at-append_end [] r = refl
id_at-append_end (x ∷ xs) r = id_at-append_end xs r
