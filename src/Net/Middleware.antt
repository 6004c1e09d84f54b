-- ===== src/Net/Middleware.antt =====
-- `createProcessor` of sfu/src/common/Middleware.ts, which observer/src/common/Middleware.ts repeats.
-- Of a middleware the chain sees how often it calls `next`, which is a function of the input here.
pub mod Order
use demo_app.Base.{ℕ, zero, suc, List, [], ◌∷◌, ◌++◌, Bool, if◌then◌else◌, eqb}

abbrev pub Middleware : Type 0 → Type 0
Middleware T = T → ℕ

-- The visitor of one input: `lastVisited + 1`, the indices of the middlewares that ran, in order, and
-- how many calls were refused with an error.
pub record Visitor : Type 0 where
  pub next_index : ℕ
  pub ran : List ℕ
  pub refused : ℕ

-- `f` as often as a number says.
pub repeat : ℕ → (Visitor → Visitor) → Visitor → Visitor
repeat zero f v = v
repeat (suc n) f v = repeat n f (f v)

abbrev enter : ℕ → Visitor → Visitor
enter index v = record v { next_index = suc index }

abbrev ran_at : ℕ → Visitor → Visitor
ran_at index v = record v { ran = v.ran ++ index ∷ [] }

module _ {T : Type 0} where
  -- `visitMiddleware` at an index, with the middlewares from there on.
  pub visit : List (Middleware T) → ℕ → T → Visitor → Visitor
  visit [] index input v =
      if eqb index v.next_index then enter index v else record v { refused = suc v.refused }
  visit (m ∷ ms) index input v =
      if eqb index v.next_index
      then repeat (m input) (visit ms (suc index) input) (ran_at index (enter index v))
      else record v { refused = suc v.refused }

  pub process : List (Middleware T) → T → Visitor
  unfolding visit repeat
  process ms input = visit ms 0 input (record { next_index = 0; ran = []; refused = 0 })
