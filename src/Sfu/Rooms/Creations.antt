-- ===== src/Sfu/Rooms/Creations.antt =====
-- What holds of the creations under way, and how the updates of their list keep it.
use demo_app.Base.{
  String, ℕ, List, [], ◌∷◌, ◌≡◌, ◌≢◌, sym, ◌∙◌, subst, false, none, some, arith, Bool-cases, inl,
  inr, All, eqb, eq_iff,
}
use demo_app.Base.JsMap
use demo_app.Base.JsMap.{JsMap}
use demo_app.Sfu.Rooms.{Creation, Rooms, find, settle, remove}

-- What a creation under way means: its promise is the one that later calls get, and until it has made
-- its room there is none with the id.
pub record IsUnderWay (rooms creating : JsMap ℕ) (c : Creation) : Type 0 where
  pub shared : JsMap.get c.room_id creating ≡ some c.promise
  pub vacant : c.settled ≡ false → JsMap.get c.room_id rooms ≡ none

-- No two creations are for one id.
abbrev pub Apart : List Creation → Type 0
Apart [] = Unit {0}
Apart (c ∷ cs) = All (λ d. d.room_id ≢ c.room_id) cs × Apart cs

pub record IsSound (s : Rooms) : Type 0 where
  pub apart : Apart s.creations
  pub each : All (IsUnderWay s.rooms s.creating) s.creations

pub All-imp :
    {P Q : Creation → Type 0} (cs : List Creation)
    → ((c : Creation) → P c → Q c)
    → All P cs
    → All Q cs
All-imp [] f h = tt
All-imp (c ∷ cs) f h = (f c h.0, All-imp cs f h.1)

pub All-imp₂ :
    {P Q R : Creation → Type 0} (cs : List Creation)
    → ((c : Creation) → P c → Q c → R c)
    → All P cs
    → All Q cs
    → All R cs
All-imp₂ [] f h k = tt
All-imp₂ (c ∷ cs) f h k = (f c h.0 k.0, All-imp₂ cs f h.1 k.1)

pub All-find :
    (P : Creation → Type 0) (p : ℕ) (cs : List Creation) (c : Creation)
    → All P cs
    → find p cs ≡ some c
    → P c
unfolding find
All-find P p [] c h e = absurd (cc)
All-find P p (x ∷ cs) c h e = elim (Bool-cases (eqb x.promise p)) [
  | inl hit ↦ let same : x ≡ c = ground arith in subst P same h.0
  | inr miss ↦ All-find P p cs c h.1 (ground arith)
]

-- A creation for another id does not mind what happens to this one's entries.
pub IsUnderWay-set :
    (rooms creating : JsMap ℕ) (id : String) (n : ℕ) (d : Creation)
    → d.room_id ≢ id
    → IsUnderWay rooms creating d
    → IsUnderWay (JsMap.set id n rooms) creating d
IsUnderWay-set rooms creating id n d other u = record {
  shared = u.shared;
  vacant = λ e.
      let v = u.vacant e in ground (arith, JsMap.get-set id d.room_id n rooms, eq_iff id d.room_id);
}

pub IsUnderWay-set_creating :
    (rooms creating : JsMap ℕ) (id : String) (n : ℕ) (d : Creation)
    → d.room_id ≢ id
    → IsUnderWay rooms creating d
    → IsUnderWay rooms (JsMap.set id n creating) d
IsUnderWay-set_creating rooms creating id n d other u = record {
  shared = ground (arith, JsMap.get-set id d.room_id n creating, eq_iff id d.room_id, u.shared);
  vacant = u.vacant;
}

IsUnderWay-delete_creating :
    (rooms creating : JsMap ℕ) (id : String) (d : Creation)
    → d.room_id ≢ id
    → IsUnderWay rooms creating d
    → IsUnderWay rooms (JsMap.delete id creating) d
IsUnderWay-delete_creating rooms creating id d other u = record {
  shared = ground (arith, JsMap.get-delete id d.room_id creating, eq_iff id d.room_id, u.shared);
  vacant = u.vacant;
}

pub IsUnderWay-delete :
    (rooms creating : JsMap ℕ) (id : String) (d : Creation)
    → IsUnderWay rooms creating d
    → IsUnderWay (JsMap.delete id rooms) creating d
IsUnderWay-delete rooms creating id d u = record {
  shared = u.shared;
  vacant = λ e. let v = u.vacant e in ground (arith, JsMap.get-delete id d.room_id rooms);
}

pub settle-made :
    (rooms creating : JsMap ℕ) (n p : ℕ) (cs : List Creation) (c : Creation)
    → find p cs ≡ some c
    → Apart cs
    → All (IsUnderWay rooms creating) cs
    → All (IsUnderWay (JsMap.set c.room_id n rooms) creating) (settle p cs)
unfolding find settle
settle-made rooms creating n p [] c e a u = tt
settle-made rooms creating n p (x ∷ cs) c e a u = elim (Bool-cases (eqb x.promise p)) [
  | inl hit ↦
      let same : x.room_id ≡ c.room_id = ground arith in
      rw hit (
        record { shared = u.0.shared; vacant = λ t. absurd (cc) },
        All-imp₂ cs
            (λ d other. IsUnderWay-set rooms creating c.room_id n d (λ q. other (q ∙ sym same))) a.0
            u.1,
      )
  | inr miss ↦
      let e' : find p cs ≡ some c = ground arith in
      let other = All-find (λ d. d.room_id ≢ x.room_id) p cs c a.0 e' in
      rw miss (
        IsUnderWay-set rooms creating c.room_id n x (λ q. other (sym q)) u.0,
        settle-made rooms creating n p cs c e' a.1 u.1,
      )
]

pub settle-failed :
    (rooms creating : JsMap ℕ) (p : ℕ) (cs : List Creation)
    → All (IsUnderWay rooms creating) cs
    → All (IsUnderWay rooms creating) (settle p cs)
unfolding settle
settle-failed rooms creating p [] u = tt
settle-failed rooms creating p (x ∷ cs) u = elim (Bool-cases (eqb x.promise p)) [
  | inl hit ↦ rw hit (record { shared = u.0.shared; vacant = λ t. absurd (cc) }, u.1)
  | inr miss ↦ rw miss (u.0, settle-failed rooms creating p cs u.1)
]

pub remove-each :
    (rooms creating : JsMap ℕ) (p : ℕ) (cs : List Creation) (c : Creation)
    → find p cs ≡ some c
    → Apart cs
    → All (IsUnderWay rooms creating) cs
    → All (IsUnderWay rooms (JsMap.delete c.room_id creating)) (remove p cs)
unfolding find remove
remove-each rooms creating p [] c e a u = tt
remove-each rooms creating p (x ∷ cs) c e a u = elim (Bool-cases (eqb x.promise p)) [
  | inl hit ↦
      let same : x.room_id ≡ c.room_id = ground arith in
      rw (hit, ← same)
        (All-imp₂ cs (λ d. IsUnderWay-delete_creating rooms creating x.room_id d) a.0 u.1)
  | inr miss ↦
      let e' : find p cs ≡ some c = ground arith in
      let other = All-find (λ d. d.room_id ≢ x.room_id) p cs c a.0 e' in
      rw miss (
        IsUnderWay-delete_creating rooms creating c.room_id x (λ q. other (sym q)) u.0,
        remove-each rooms creating p cs c e' a.1 u.1,
      )
]

settle-ids :
    (id : String) (p : ℕ) (cs : List Creation)
    → All (λ d. d.room_id ≢ id) cs
    → All (λ d. d.room_id ≢ id) (settle p cs)
unfolding settle
settle-ids id p [] h = tt
settle-ids id p (x ∷ cs) h = elim (Bool-cases (eqb x.promise p)) [
  | inl hit ↦ rw hit h
  | inr miss ↦ rw miss (h.0, settle-ids id p cs h.1)
]

remove-ids :
    (id : String) (p : ℕ) (cs : List Creation)
    → All (λ d. d.room_id ≢ id) cs
    → All (λ d. d.room_id ≢ id) (remove p cs)
unfolding remove
remove-ids id p [] h = tt
remove-ids id p (x ∷ cs) h = elim (Bool-cases (eqb x.promise p)) [
  | inl hit ↦ rw hit h.1
  | inr miss ↦ rw miss (h.0, remove-ids id p cs h.1)
]

pub settle-Apart : (p : ℕ) (cs : List Creation) → Apart cs → Apart (settle p cs)
unfolding settle
settle-Apart p [] h = tt
settle-Apart p (x ∷ cs) h = elim (Bool-cases (eqb x.promise p)) [
  | inl hit ↦ rw hit h
  | inr miss ↦ rw miss (settle-ids x.room_id p cs h.0, settle-Apart p cs h.1)
]

pub remove-Apart : (p : ℕ) (cs : List Creation) → Apart cs → Apart (remove p cs)
unfolding remove
remove-Apart p [] h = tt
remove-Apart p (x ∷ cs) h = elim (Bool-cases (eqb x.promise p)) [
  | inl hit ↦ rw hit h.1
  | inr miss ↦ rw miss (remove-ids x.room_id p cs h.0, remove-Apart p cs h.1)
]
