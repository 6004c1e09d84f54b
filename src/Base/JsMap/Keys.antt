-- ===== src/Base/JsMap/Keys.antt =====
-- The keys of a `Map` are distinct.
use Prim.Native.Nat.{ℕ}
use Prim.Native.String.{String}
use mathlib.Core.Path.{◌≡◌, refl, subst}
use mathlib.Core.Logic.{inl, inr}
use mathlib.Core.Option.{none, some}
use mathlib.Core.List.{List, [], ◌∷◌}
use native.Mathlib.Omega.{arith}
use text.Mathlib.Text.{◌==◌}
use text.Mathlib.TextEquality.{eq_iff}
use demo_app.Base.Tests.{Bool-cases}
use demo_app.Base.JsMap.{Entry, JsMap, find, put, erase, set, delete, find-put, find-erase}

module _ {ℓ} {V : Type ℓ} where
  abbrev pub Distinct : List (Entry V) → Type ℓ
  Distinct [] = Unit
  Distinct (e ∷ es) = (find e.key es ≡ none) × Distinct es

  put-Distinct :
      (k : String) (v : V) (n : ℕ) (es : List (Entry V)) → Distinct es → Distinct (put k v n es)
  unfolding put find
  put-Distinct k v n [] d = (refl, tt)
  put-Distinct k v n (e ∷ es) d = elim (Bool-cases (e.key == k)) [
    | inl hit ↦ rw hit d
    | inr miss ↦ rw miss (
      ground (arith, find-put k e.key v n es, eq_iff k e.key, eq_iff e.key k, d.0),
      put-Distinct k v n es d.1,
    )
  ]

  erase-Distinct : (k : String) (es : List (Entry V)) → Distinct es → Distinct (erase k es)
  unfolding erase
  erase-Distinct k [] d = tt
  erase-Distinct k (e ∷ es) d = elim (Bool-cases (e.key == k)) [
    | inl hit ↦ rw hit (erase-Distinct k es d.1)
    | inr miss ↦ rw miss (ground (arith, find-erase k e.key es, d.0), erase-Distinct k es d.1)
  ]

  pub set-Distinct :
      (k : String) (v : V) (m : JsMap V) → Distinct m.entries → Distinct (set k v m).entries
  unfolding set
  set-Distinct k v m = put-Distinct k v m.next m.entries

  pub delete-Distinct :
      (k : String) (m : JsMap V) → Distinct m.entries → Distinct (delete k m).entries
  unfolding delete
  delete-Distinct k m = erase-Distinct k m.entries

  -- What holds of every key with its value.
  abbrev pub Each {κ} : (String → V → Type κ) → List (Entry V) → Type κ
  Each P [] = Unit
  Each P (e ∷ es) = P e.key e.value × Each P es

  put-Each {κ} :
      (P : String → V → Type κ) (k : String) (v : V) (n : ℕ) (es : List (Entry V))
      → P k v
      → Each P es
      → Each P (put k v n es)
  unfolding put
  put-Each P k v n [] p h = (p, tt)
  put-Each P k v n (e ∷ es) p h = elim (Bool-cases (e.key == k)) [
    | inl hit ↦ rw hit (rw ((eq_iff e.key k).0 hit) p, h.1)
    | inr miss ↦ rw miss (h.0, put-Each P k v n es p h.1)
  ]

  erase-Each {κ} :
      (P : String → V → Type κ) (k : String) (es : List (Entry V)) → Each P es → Each P (erase k es)
  unfolding erase
  erase-Each P k [] h = tt
  erase-Each P k (e ∷ es) h = elim (Bool-cases (e.key == k)) [
    | inl hit ↦ rw hit (erase-Each P k es h.1)
    | inr miss ↦ rw miss (h.0, erase-Each P k es h.1)
  ]

  pub set-Each {κ} :
      (P : String → V → Type κ) (k : String) (v : V) (m : JsMap V)
      → P k v
      → Each P m.entries
      → Each P (set k v m).entries
  unfolding set
  set-Each P k v m = put-Each P k v m.next m.entries

  pub delete-Each {κ} :
      (P : String → V → Type κ) (k : String) (m : JsMap V)
      → Each P m.entries
      → Each P (delete k m).entries
  unfolding delete
  delete-Each P k m = erase-Each P k m.entries

  pub Each-get {κ} :
      (P : String → V → Type κ) (k : String) (v : V) (es : List (Entry V))
      → Each P es
      → find k es ≡ some v
      → P k v
  unfolding find
  Each-get P k v [] h e = absurd (cc)
  Each-get P k v (x ∷ es) h e = elim (Bool-cases (x.key == k)) [
    | inl hit ↦
        let same : x.value ≡ v = ground arith in
        subst (λ u. P k u) same (subst (λ j. P j x.value) ((eq_iff x.key k).0 hit) h.0)
    | inr miss ↦ Each-get P k v es h.1 (ground arith)
  ]
