-- ===== src/Webapp/Cells.antt =====
-- How a table of webapp/src/components/Stats/StatsCard.tsx shows a value: `N/A` for undefined, and cut
-- short where its text is long.
--
-- A text's length is counted in the UTF-16 units of JavaScript. Where 30 units end in the middle of a
-- character, JavaScript keeps half of it, which is no text here: the character is left out.
pub mod Cutting
use demo_app.Base.{String, ℕ, ◌+◌, ◌-◌, Option, none, some, if◌then◌else◌, ltb}
use Prim.Native.String as Text
use Prim.Native.Char.{Char, code}
use demo_app.Protocol.Json.{Json, Items}

-- An item of an array in a text: null is empty.
abbrev item_text : Json → String → String
item_text Json.null t = ""
item_text v t = t

unfoldable mutual
  -- A value in a template.
  pub to_text : Json → String
  to_text Json.null = "null"
  to_text (Json.bool b) = if b then "true" else "false"
  to_text (Json.num t) = t
  to_text (Json.str t) = t
  to_text (Json.arr Items.nil) = ""
  to_text (Json.arr (Items.cons v rest)) = Text.◌++◌ (item_text v (to_text v)) (rest_text rest)
  to_text (Json.obj fs) = "[object Object]"

  rest_text : Items → String
  rest_text Items.nil = ""
  rest_text (Items.cons v rest) =
      Text.◌++◌ "," (Text.◌++◌ (item_text v (to_text v)) (rest_text rest))

-- The UTF-16 units of a character, and of a text.
abbrev pub units : Char → ℕ
units c = if ltb 65535 (code c) then 2 else 1

abbrev pub length_of : String → ℕ
length_of String.[] = 0
length_of (String.◌∷◌ c t) = units c + length_of t

-- `text.slice(0, n)`
abbrev pub start_of : ℕ → String → String
start_of n String.[] = String.[]
start_of n (String.◌∷◌ c t) =
    let rest = start_of (n - units c) t in if ltb n (units c) then String.[] else String.◌∷◌ c rest

pub data Cell : Type 0 where
  -- A value that React renders, and a text.
  shown : Json → Cell
  text : String → Cell

unfoldable pub cell : Option Json → Cell
unfolding to_text
cell none = Cell.text "N/A"
cell (some v) =
    if ltb 30 (length_of (to_text v))
    then Cell.text (Text.◌++◌ (start_of 30 (to_text v)) "...")
    else Cell.shown v
