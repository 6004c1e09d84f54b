-- ===== src/Base/Totals.antt =====
-- Sums over lists of native numbers.
use Prim.Native.Nat.{ℕ, zero, suc, ◌+◌, ◌≤◌}
use mathlib.Core.Path.{◌≡◌}
use mathlib.Core.Logic.{inl, inr}
use mathlib.Core.List.{List, [], ◌∷◌, ◌++◌, map}
use mathlib.Core.Bool.{Bool}
use mathlib.Core.Option.{some}
use native.Mathlib.Omega.{arith}
use demo_app.Base.Lists.{get_elem?, erase_idx, select}
use demo_app.Base.Tests.{Bool-cases}

module _ {ℓ} {A : Type ℓ} where
  abbrev pub total : (A → ℕ) → List A → ℕ
  total g [] = 0
  total g (x ∷ xs) = g x + total g xs

  pub total-append_end :
      (g : A → ℕ) (xs : List A) (x : A) → total g (xs ++ x ∷ []) ≡ g x + total g xs
  total-append_end g [] x = omega arith
  total-append_end g (y ∷ xs) x = omega (arith, total-append_end g xs x)

  pub total-erase_idx :
      (g : A → ℕ) (xs : List A) (i : ℕ) (x : A)
      → get_elem? xs i ≡ some x
      → g x + total g (erase_idx xs i) ≡ total g xs
  total-erase_idx g [] i x h = absurd (cc)
  total-erase_idx g (y ∷ xs) zero x h = ground arith
  total-erase_idx g (y ∷ xs) (suc i) x h = omega (arith, total-erase_idx g xs i x h)

  pub total-select_le :
      (g : A → ℕ) (test : A → Bool) (xs : List A) → total g (select test xs) ≤ total g xs
  total-select_le g test [] = omega arith
  total-select_le g test (x ∷ xs) = elim (Bool-cases (test x)) [
    | inl e ↦ rw e (omega (arith, total-select_le g test xs))
    | inr e ↦ rw e (omega (arith, total-select_le g test xs))
  ]

pub total-map {ℓ κ} :
    {A : Type ℓ} {B : Type κ} (g : B → ℕ) (f : A → B) (xs : List A)
    → total g (map f xs) ≡ total (λ x. g (f x)) xs
total-map g f [] = omega arith
total-map g f (x ∷ xs) = omega (arith, total-map g f xs)
