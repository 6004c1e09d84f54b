-- ===== src/Webapp/Cells/Cutting.antt =====
-- What the cells of webapp/src/components/Stats/StatsCard.tsx show, described apart from how they are cut.
use demo_app.Base.{
  String, ℕ, suc, ◌-◌, ◌≤◌, ◌<◌, ◌≡◌, refl, sym, ◌∙◌, ap, ◌⊎◌, inl, inr, Option, none, some, ltb,
  Bool-cases, arith,
}
use Prim.Native.String as Text
use demo_app.Protocol.Json.{Json}
use demo_app.Webapp.Cells.{Cell, cell, to_text, units, length_of, start_of}

-- The start and the rest make the text; the start is as long as fits, but for half a character.
abbrev pub Starts : ℕ → String → String → String → Type 0
Starts n start rest t =
    (t ≡ Text.◌++◌ start rest) × (length_of start ≤ n) × (n ≤ suc (length_of start))

-- Undefined is `N/A`, a short value is itself, and of the text of another one stands the start.
abbrev pub Shows : Option Json → Cell → Type 0
Shows none s = s ≡ Cell.text "N/A"
Shows (some v) s =
    ((length_of (to_text v) ≤ 30) × (s ≡ Cell.shown v))
    ⊎ ((30 < length_of (to_text v))
        × ((start : String) × (rest : String) × Starts 30 start rest (to_text v)
            × (s ≡ Cell.text (Text.◌++◌ start "..."))))

start_of_lem :
    (n : ℕ) (t : String)
    → (rest : String) × (t ≡ Text.◌++◌ (start_of n t) rest)
      × (length_of (start_of n t) ≤ n)
      × (n < length_of t → n ≤ suc (length_of (start_of n t)))
start_of_lem n String.[] =
    (String.[], sym (Text.append.nil String.[]), omega arith, λ h. omega (arith, h))
start_of_lem n (String.◌∷◌ c t) = elim (Bool-cases (ltb n (units c))) [
  | inl full ↦ rw full (
    String.◌∷◌ c t,
    sym (Text.append.nil (String.◌∷◌ c t)),
    omega arith,
    λ h. ground (arith, full),
  )
  | inr room ↦
      let (rest, same, short, near) = start_of_lem (n - units c) t in
      rw room (
        rest,
        ap (λ u. String.◌∷◌ c u) same ∙ sym (Text.append.cons c (start_of (n - units c) t) rest),
        ground (arith, room, short),
        λ h.
            let fits : n - units c < length_of t = ground (arith, room, h) in
            ground (arith, room, near fits),
      )
]

pub cell-Shows : (v : Option Json) → Shows v (cell v)
unfolding cell
cell-Shows none = refl
cell-Shows (some v) = elim (Bool-cases (ltb 30 (length_of (to_text v)))) [
  | inl long ↦
      let (rest, same, short, near) = start_of_lem 30 (to_text v) in
      let over : 30 < length_of (to_text v) = ground (arith, long) in
      rw (cell, long) (inr (over, (start_of 30 (to_text v), rest, (same, short, near over), refl)))
  | inr short ↦ rw (cell, short) (inl (ground (arith, short), refl))
]
