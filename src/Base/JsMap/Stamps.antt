-- ===== src/Base/JsMap/Stamps.antt =====
-- The entries of a `Map` stand in the order of their insertion.
use Prim.Native.Nat.{ℕ, suc, ◌<◌, ◌≤◌}
use Prim.Native.String.{String}
use mathlib.Core.Logic.{inl, inr}
use mathlib.Core.List.{List, [], ◌∷◌}
use native.Mathlib.Omega.{arith}
use text.Mathlib.Text.{◌==◌}
use demo_app.Base.Tests.{Bool-cases, if◌then◌else◌, leb}
use demo_app.Base.Lists.{All, All-weaken, length}
use demo_app.Base.Totals.{total}
use demo_app.Base.JsMap.{Entry, JsMap, put, erase, set, delete}

module _ {ℓ} {V : Type ℓ} where
  abbrev pub Ascending : List (Entry V) → Type 0
  Ascending [] = Unit
  Ascending (e ∷ es) = All (λ x. e.stamp < x.stamp) es × Ascending es

  abbrev Below : ℕ → List (Entry V) → Type 0
  Below n = All (λ x. x.stamp < n)

  -- The stamps ascend, and the next one is above them.
  abbrev pub IsStamped : JsMap V → Type 0
  IsStamped m = Ascending m.entries × Below m.next m.entries

  put-Above :
      (a n : ℕ) (k : String) (v : V) (es : List (Entry V))
      → a < n
      → All (λ x. a < x.stamp) es
      → All (λ x. a < x.stamp) (put k v n es)
  unfolding put
  put-Above a n k v [] h b = (h, tt)
  put-Above a n k v (e ∷ es) h b = elim (Bool-cases (e.key == k)) [
    | inl hit ↦ rw (put, hit) b
    | inr miss ↦ rw (put, miss) (b.0, put-Above a n k v es h b.1)
  ]

  put-Ascending :
      (n : ℕ) (k : String) (v : V) (es : List (Entry V))
      → Ascending es
      → Below n es
      → Ascending (put k v n es)
  unfolding put
  put-Ascending n k v [] a b = (tt, tt)
  put-Ascending n k v (e ∷ es) a b = elim (Bool-cases (e.key == k)) [
    | inl hit ↦ rw (put, hit) a
    | inr miss ↦ rw (put, miss) (put-Above e.stamp n k v es b.0 a.0, put-Ascending n k v es a.1 b.1)
  ]

  put-Below :
      (n : ℕ) (k : String) (v : V) (es : List (Entry V)) → Below n es → Below (suc n) (put k v n es)
  unfolding put
  put-Below n k v [] b = (omega arith, tt)
  put-Below n k v (e ∷ es) b = elim (Bool-cases (e.key == k)) [
    | inl hit ↦ rw (put, hit) (omega (arith, b.0), All-weaken _ _ es (λ x h. omega (arith, h)) b.1)
    | inr miss ↦ rw (put, miss) (omega (arith, b.0), put-Below n k v es b.1)
  ]

  erase-All {κ} :
      (P : Entry V → Type κ) (k : String) (es : List (Entry V)) → All P es → All P (erase k es)
  unfolding erase
  erase-All P k [] h = tt
  erase-All P k (e ∷ es) h = elim (Bool-cases (e.key == k)) [
    | inl hit ↦ rw (erase, hit) (erase-All P k es h.1)
    | inr miss ↦ rw (erase, miss) (h.0, erase-All P k es h.1)
  ]

  erase-Ascending : (k : String) (es : List (Entry V)) → Ascending es → Ascending (erase k es)
  unfolding erase
  erase-Ascending k [] a = tt
  erase-Ascending k (e ∷ es) a = elim (Bool-cases (e.key == k)) [
    | inl hit ↦ rw (erase, hit) (erase-Ascending k es a.1)
    | inr miss ↦ rw (erase, miss) (erase-All _ k es a.0, erase-Ascending k es a.1)
  ]

  pub set-IsStamped : (k : String) (v : V) (m : JsMap V) → IsStamped m → IsStamped (set k v m)
  unfolding set
  set-IsStamped k v m (a, b) =
      (put-Ascending m.next k v m.entries a b, put-Below m.next k v m.entries b)

  pub delete-IsStamped : (k : String) (m : JsMap V) → IsStamped m → IsStamped (delete k m)
  unfolding delete
  delete-IsStamped k m (a, b) = (erase-Ascending k m.entries a, erase-All _ k m.entries b)

  -- How many entries an iterator has before it.
  abbrev pub ahead : ℕ → List (Entry V) → ℕ
  ahead cursor = total (λ x. if leb cursor x.stamp then 1 else 0)

  pub ahead-zero_le : (es : List (Entry V)) → ahead 0 es ≤ length es
  ahead-zero_le [] = omega arith
  ahead-zero_le (x ∷ es) = ground (arith, ahead-zero_le es)

  pub ahead_le : (a b : ℕ) (es : List (Entry V)) → a ≤ b → ahead b es ≤ ahead a es
  ahead_le a b [] h = omega arith
  ahead_le a b (x ∷ es) h = ground (arith, ahead_le a b es h, h)
