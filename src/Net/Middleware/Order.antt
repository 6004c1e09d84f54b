-- ===== src/Net/Middleware/Order.antt =====
-- Which middlewares of a chain run, and in what order.
use demo_app.Base.{
  ℕ, zero, suc, ◌≤◌, ◌<◌, List, [], ◌∷◌, ◌++◌, ◌≡◌, refl, sym, ◌∙◌, Bool, true, false, eqb, arith,
  if◌then◌else◌, Bool-cases, inl, inr,
}
use mathlib.Core.List.{append_assoc, append-nil}
use demo_app.Net.Middleware.{Middleware, Visitor, repeat, enter, ran_at, visit, process}

abbrev is_zero : ℕ → Bool
is_zero zero = true
is_zero (suc n) = false

-- How many middlewares the input reaches: all up to the first that does not call `next`.
unfoldable pub reach : {T : Type 0} → List (Middleware T) → T → ℕ
reach [] input = 0
reach (m ∷ ms) input = if is_zero (m input) then 1 else suc (reach ms input)

-- `n` numbers from `i` on.
unfoldable pub count_from : ℕ → ℕ → List ℕ
count_from i zero = []
count_from i (suc n) = i ∷ count_from (suc i) n

module _ {T : Type 0} (input : T) where
  visit_refused :
      (ms : List (Middleware T)) (index : ℕ) (v : Visitor)
      → index < v.next_index
      → ((visit ms index input v).ran ≡ v.ran)
        × ((visit ms index input v).next_index ≡ v.next_index)
  unfolding visit
  visit_refused [] index v h = ground arith
  visit_refused (m ∷ ms) index v h = ground arith

  repeat_refused :
      (n : ℕ) (ms : List (Middleware T)) (index : ℕ) (v : Visitor)
      → index < v.next_index
      → ((repeat n (visit ms index input) v).ran ≡ v.ran)
        × ((repeat n (visit ms index input) v).next_index ≡ v.next_index)
  unfolding repeat
  repeat_refused zero ms index v h = (refl, refl)
  repeat_refused (suc n) ms index v h =
      let (a, b) = visit_refused ms index v h in
      let (c, d) = repeat_refused n ms index (visit ms index input v) (rw b h) in (c ∙ a, d ∙ b)

  -- What a visit at an index does to the visitor that expects it.
  abbrev Visits : List (Middleware T) → ℕ → Type 0
  Visits ms index =
      (v : Visitor)
      → v.next_index ≡ index
      → ((visit ms index input v).ran ≡ v.ran ++ count_from index (reach ms input))
        × (index < (visit ms index input v).next_index)

  -- Of several calls of `next` the first one alone visits.
  repeat-ran :
      (n : ℕ) (ms : List (Middleware T)) (index : ℕ) (v : Visitor)
      → Visits ms index
      → v.next_index ≡ index
      → ((repeat n (visit ms index input) v).ran
          ≡ v.ran ++ (if is_zero n then [] else count_from index (reach ms input)))
        × (index ≤ (repeat n (visit ms index input) v).next_index)
  unfolding repeat
  repeat-ran zero ms index v visits e = (sym (append-nil v.ran), omega arith)
  repeat-ran (suc n) ms index v visits e =
      let (ran, past) = visits v e in
      let (same, still) = repeat_refused n ms index (visit ms index input v) past in
      (same ∙ ran, omega (arith, still, past))

  visit-ran : (ms : List (Middleware T)) (index : ℕ) → Visits ms index
  unfolding visit reach count_from
  visit-ran [] index = λ v e. ground (arith, append-nil v.ran)
  visit-ran (m ∷ ms) index = λ v e.
      let expected : eqb index v.next_index ≡ true = ground arith in
      let start = ran_at index (enter index v) in
      let (ran, past) = repeat-ran (m input) ms (suc index) start (visit-ran ms (suc index)) refl in
      rw (expected, visit)
        (elim (Bool-cases (is_zero (m input))) [
          | inl none ↦ (ran ∙ rw none (append-nil (v.ran ++ index ∷ [])), past)
          | inr some ↦ (
            ran
                ∙ rw some
                    (append_assoc v.ran (index ∷ []) (count_from (suc index) (reach ms input))),
            past,
          )
        ])

-- Whatever the middlewares do with `next`, they run in the order of the chain and each at most once:
-- those up to the first that does not call `next`.
pub process-ran :
    (T : Type 0) (input : T) (ms : List (Middleware T))
    → (process ms input).ran ≡ count_from 0 (reach ms input)
unfolding process
process-ran T input ms =
    (visit-ran input ms 0 (record { next_index = 0; ran = []; refused = 0 }) refl).0
