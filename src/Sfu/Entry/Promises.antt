-- ===== src/Sfu/Entry/Promises.antt =====
-- Which room a promise of `getOrCreateRoom` (sfu/src/media/Rooms.ts) is for.
use demo_app.Base.{
  String, ℕ, ◌<◌, List, [], ◌∷◌, ◌≡◌, refl, ap, Option, none, some, eqb, All, All-weaken, arith,
  Bool-cases, inl, inr,
}
use demo_app.Sfu.Rooms.{Rooms, Creation, find, settle, remove, make_room, fail, forget, begin}
use demo_app.Sfu.Rooms.Creations.{All-find}

settle-All :
    (P : ℕ → String → Type 0) (p : ℕ) (cs : List Creation)
    → All (λ c. P c.promise c.room_id) cs
    → All (λ c. P c.promise c.room_id) (settle p cs)
unfolding settle
settle-All P p [] h = tt
settle-All P p (c ∷ cs) h = elim (Bool-cases (eqb c.promise p)) [
  | inl e ↦ rw (settle, e) h
  | inr e ↦ rw (settle, e) (h.0, settle-All P p cs h.1)
]

remove-All :
    (P : ℕ → String → Type 0) (p : ℕ) (cs : List Creation)
    → All (λ c. P c.promise c.room_id) cs
    → All (λ c. P c.promise c.room_id) (remove p cs)
unfolding remove
remove-All P p [] h = tt
remove-All P p (c ∷ cs) h = elim (Bool-cases (eqb c.promise p)) [
  | inl e ↦ rw (remove, e) h.1
  | inr e ↦ rw (remove, e) (h.0, remove-All P p cs h.1)
]

-- Each creation of the second state has the promise and the id of one of the first, and no promise has
-- been given out in between.
pub record Keeps (rs qs : Rooms) : Type 1 where
  pub same : qs.next_promise ≡ rs.next_promise
  pub keep :
      (P : ℕ → String → Type 0)
      → All (λ c. P c.promise c.room_id) rs.creations
      → All (λ c. P c.promise c.room_id) qs.creations

pub Keeps-refl : (rs : Rooms) → Keeps rs rs
Keeps-refl rs = record { same = refl; keep = λ P h. h }

pub make_room-Keeps : (p : ℕ) (c : Creation) (rs : Rooms) → Keeps rs (make_room p c rs)
unfolding make_room
make_room-Keeps p c rs = elim (Bool-cases c.settled) [
  | inl e ↦ rw (make_room, e) (Keeps-refl rs)
  | inr e ↦ rw (make_room, e) (record { same = refl; keep = λ P. settle-All P p rs.creations })
]

pub fail-Keeps : (p : ℕ) (c : Creation) (rs : Rooms) → Keeps rs (fail p c rs)
unfolding fail
fail-Keeps p c rs = elim (Bool-cases c.settled) [
  | inl e ↦ rw (fail, e) (Keeps-refl rs)
  | inr e ↦ rw (fail, e) (record { same = refl; keep = λ P. settle-All P p rs.creations })
]

pub forget-Keeps : (p : ℕ) (c : Creation) (rs : Rooms) → Keeps rs (forget p c rs)
unfolding forget
forget-Keeps p c rs = elim (Bool-cases c.settled) [
  | inl e ↦ rw (forget, e) (record { same = refl; keep = λ P. remove-All P p rs.creations })
  | inr e ↦ rw (forget, e) (Keeps-refl rs)
]

-- The promise has been given out, and a creation with that promise is for the id.
pub record Belongs (p : ℕ) (id : String) (rs : Rooms) : Type 0 where
  pub given : p < rs.next_promise
  pub mine : All (λ c. c.promise ≡ p → c.room_id ≡ id) rs.creations

pub Keeps-Belongs :
    (p : ℕ) (id : String) {rs qs : Rooms} → Keeps rs qs → Belongs p id rs → Belongs p id qs
Keeps-Belongs p id k b = record {
  given = omega (arith, k.same, b.given);
  mine = k.keep (λ q i. q ≡ p → i ≡ id) b.mine;
}

-- The promises of the creations have been given out.
abbrev pub Given : Rooms → Type 0
Given rs = All (λ c. c.promise < rs.next_promise) rs.creations

pub Keeps-Given : {rs qs : Rooms} → Keeps rs qs → Given rs → Given qs
Keeps-Given {rs} k g = rw k.same (k.keep (λ q i. q < rs.next_promise) g)

pub begin-Given : (id : String) (rs : Rooms) → Given rs → Given (begin id rs).0
unfolding begin
begin-Given id rs g = (
  omega arith,
  All-weaken (λ (c : Creation). c.promise < rs.next_promise) _ rs.creations
      (λ c l. omega (arith, l)) g,
)

-- A promise that was given out before a creation begins is not the creation's.
pub begin-Belongs :
    (p : ℕ) (id new : String) (rs : Rooms) → Belongs p id rs → Belongs p id (begin new rs).0
unfolding begin
begin-Belongs p id new rs b = record {
  given = omega (arith, b.given);
  mine = (λ e. absurd (omega (arith, b.given, e)), b.mine);
}

-- The promise of the creation that begins.
pub begin-Belongs_new :
    (id : String) (rs : Rooms) → Given rs → Belongs rs.next_promise id (begin id rs).0
unfolding begin
begin-Belongs_new id rs g = record {
  given = omega arith;
  mine = (
    λ e. refl,
    All-weaken (λ (c : Creation). c.promise < rs.next_promise) _ rs.creations
        (λ c l e. absurd (omega (arith, l, e))) g,
  );
}

promise-find : (p : ℕ) (c : Creation) (cs : List Creation) → find p cs ≡ some c → c.promise ≡ p
unfolding find
promise-find p c [] e = absurd (ground (arith, e))
promise-find p c (x ∷ cs) e = elim (Bool-cases (eqb x.promise p)) [
  | inl hit ↦
      let same : some x ≡ some c = ground (arith, e) in
      let at : x.promise ≡ p = ground arith in ground (arith, at, ap promise_of same)
  | inr miss ↦ promise-find p c cs (ground (arith, e))
]
  where
    promise_of : Option Creation → ℕ
    promise_of none = p
    promise_of (some c) = c.promise

-- The creation that was found for the promise is for the id.
pub find-Belongs :
    (p : ℕ) (id : String) (c : Creation) (rs : Rooms)
    → find p rs.creations ≡ some c
    → Belongs p id rs
    → c.room_id ≡ id
find-Belongs p id c rs e b =
    All-find (λ d. d.promise ≡ p → d.room_id ≡ id) p rs.creations c b.mine e
      (promise-find p c rs.creations e)
