-- ===== src/Base/JsMap.antt =====
-- JavaScript's `Map` with text keys, as the program uses it: `set` on a key that is there keeps the
-- entry's place, on a new key it appends, and an iterator is live. An entry carries the stamp of its
-- insertion, and an iterator is the stamp from which it still has to look.
pub mod Keys
pub mod Stamps
use Prim.Native.Nat.{ℕ, suc}
use Prim.Native.String.{String}
use mathlib.Core.Path.{◌≡◌, refl}
use mathlib.Core.Bool.{Bool}
use mathlib.Core.Option.{Option, none, some}
use mathlib.Core.List.{List, [], ◌∷◌, map}
use native.Mathlib.Omega.{arith}
use text.Mathlib.Text.{◌==◌}
use text.Mathlib.TextEquality.{eq_iff}
use demo_app.Base.Tests.{if◌then◌else◌, is_some}
use demo_app.Base.Lists.{length}

pub record Entry {ℓ} (V : Type ℓ) : Type ℓ where
  pub stamp : ℕ
  pub key : String
  pub value : V

pub record JsMap {ℓ} (V : Type ℓ) : Type ℓ where
  pub entries : List (Entry V)
  pub next : ℕ

module _ {ℓ} {V : Type ℓ} where
  abbrev pub empty : JsMap V
  empty = record { entries = []; next = 0 }

  unfoldable pub find : String → List (Entry V) → Option V
  find k [] = none
  find k (e ∷ es) = if e.key == k then some e.value else find k es

  unfoldable pub put : String → V → ℕ → List (Entry V) → List (Entry V)
  put k v n [] = record { stamp = n; key = k; value = v } ∷ []
  put k v n (e ∷ es) = if e.key == k then record e { value = v } ∷ es else e ∷ put k v n es

  unfoldable pub erase : String → List (Entry V) → List (Entry V)
  erase k [] = []
  erase k (e ∷ es) = let rest = erase k es in if e.key == k then rest else e ∷ rest

  unfoldable pub get : String → JsMap V → Option V
  get k m = find k m.entries

  abbrev pub has : String → JsMap V → Bool
  has k m = is_some (get k m)

  unfoldable pub set : String → V → JsMap V → JsMap V
  set k v m = record { entries = put k v m.next m.entries; next = suc m.next }

  unfoldable pub delete : String → JsMap V → JsMap V
  delete k m = record m { entries = erase k m.entries }

  abbrev pub size : JsMap V → ℕ
  size m = length m.entries

  abbrev pub keys : JsMap V → List String
  keys m = map (λ e. e.key) m.entries

  abbrev pub values : JsMap V → List V
  values m = map (λ e. e.value) m.entries

  pub find-put :
      (k j : String) (v : V) (n : ℕ) (es : List (Entry V))
      → find j (put k v n es) ≡ (if k == j then some v else find j es)
  unfolding find put
  find-put k j v n [] = refl
  find-put k j v n (e ∷ es) =
      ground (arith, eq_iff k j, eq_iff e.key k, eq_iff e.key j, find-put k j v n es)

  pub find-erase :
      (k j : String) (es : List (Entry V))
      → find j (erase k es) ≡ (if k == j then none else find j es)
  unfolding find erase
  find-erase k j [] = ground arith
  find-erase k j (e ∷ es) =
      ground (arith, eq_iff k j, eq_iff e.key k, eq_iff e.key j, find-erase k j es)

  pub get-set :
      (k j : String) (v : V) (m : JsMap V)
      → get j (set k v m) ≡ (if k == j then some v else get j m)
  unfolding get set
  get-set k j v m = find-put k j v m.next m.entries

  pub get-delete :
      (k j : String) (m : JsMap V) → get j (delete k m) ≡ (if k == j then none else get j m)
  unfolding get delete
  get-delete k j m = find-erase k j m.entries

  pub get-empty : (k : String) → get k empty ≡ none
  unfolding get find
  get-empty k = refl
