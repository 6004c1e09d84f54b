-- ===== src/Webapp/Stats/Objects.antt =====
-- Assignments to the properties of an object, for webapp/src/utils/common.tsx and
-- webapp/src/components/Stats.
use demo_app.Base.{
  Option, String, ◌==◌, eq_iff, List, [], ◌∷◌, ◌++◌, ◌≡◌, refl, ◌∙◌, ap, sym, false, All, arith,
}
use demo_app.Protocol.Json.{Json}
use demo_app.Webapp.Stats.{Property, Object, assign, spread}

-- No property has the key.
abbrev pub Fresh : String → Object → Type 0
Fresh key = All (λ p. (p.key == key) ≡ false)

-- Each key stands once.
abbrev pub IsObject : Object → Type 0
IsObject [] = Unit
IsObject (p ∷ o) = Fresh p.key o × IsObject o

assign-Fresh_lem :
    (key : String) (v : Option Json) (o : Object)
    → Fresh key o
    → assign key v o ≡ o ++ record { key = key; value = v } ∷ []
unfolding assign
assign-Fresh_lem key v [] f = refl
assign-Fresh_lem key v (p ∷ o) f =
    rw (assign, f.0) (ap (λ (q : Object). p ∷ q) (assign-Fresh_lem key v o f.1))

-- The keys of the one object are not those of the other.
abbrev pub Apart : Object → Object → Type 0
Apart source o = All (λ p. Fresh p.key o) source

Fresh-append_end :
    (key : String) (o : Object) (p : Property)
    → Fresh key o
    → (p.key == key) ≡ false
    → Fresh key (o ++ p ∷ [])
Fresh-append_end key [] p f e = (e, tt)
Fresh-append_end key (q ∷ o) p f e = (f.0, Fresh-append_end key o p f.1 e)

Apart-append_end :
    (source o : Object) (p : Property)
    → Apart source o
    → Fresh p.key source
    → Apart source (o ++ p ∷ [])
Apart-append_end [] o p a f = tt
Apart-append_end (q ∷ source) o p a f =
    (Fresh-append_end q.key o p a.0 (eq_flip q.key p.key f.0), Apart-append_end source o p a.1 f.1)
  where
    eq_flip : (a b : String) → (a == b) ≡ false → (b == a) ≡ false
    eq_flip a b e = ground (arith, e, eq_iff a b, eq_iff b a)

pub append-cons : {A : Type 0} (xs ys : List A) (x : A) → (xs ++ x ∷ []) ++ ys ≡ xs ++ x ∷ ys
append-cons [] ys x = refl
append-cons (y ∷ xs) ys x = ap (λ l. y ∷ l) (append-cons xs ys x)

pub append-nil : {A : Type 0} (xs : List A) → xs ++ [] ≡ xs
append-nil [] = refl
append-nil (y ∷ xs) = ap (λ l. y ∷ l) (append-nil xs)

-- New keys are put behind the others.
pub spread-Apart :
    (source o : Object) → IsObject source → Apart source o → spread source o ≡ o ++ source
unfolding spread
spread-Apart [] o v a = sym (append-nil o)
spread-Apart (p ∷ source) o v a =
    ap (spread source) (assign-Fresh_lem p.key p.value o a.0)
    ∙ spread-Apart source (o ++ p ∷ []) v.1 (Apart-append_end source o p a.1 v.0)
    ∙ append-cons o source p

pub append_assoc : {A : Type 0} (xs ys zs : List A) → (xs ++ ys) ++ zs ≡ xs ++ (ys ++ zs)
append_assoc [] ys zs = refl
append_assoc (x ∷ xs) ys zs = ap (λ l. x ∷ l) (append_assoc xs ys zs)
