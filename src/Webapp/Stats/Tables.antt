-- ===== src/Webapp/Stats/Tables.antt =====
-- What StatsCard.tsx shows of what PeerConnectionStats.tsx collects (webapp/src/components/Stats).
use demo_app.Base.{
  subst, Option, List, String, ◌==◌, eq_iff, [], ◌∷◌, ◌++◌, ◌≡◌, refl, sym, ◌∙◌, ap, map, Bool,
  true, false, not, some, All, Bool-cases, inl, inr, arith, select,
}
use Prim.Native.String as Text
use text.Mathlib.Text.{starts_with}
use text.Mathlib.TextLemmas.{append_cancel_left}
use text.Mathlib.TextPositions.{starts_with-append, slice-append_right, len-append}
use demo_app.Protocol.Json.{Json}
use demo_app.Webapp.Cells.{cell}
use demo_app.Webapp.Cells.Cutting.{Shows, cell-Shows}
use demo_app.Webapp.Stats.{
  Row, Property, Object, assign, spread, make_prefixed_obj, PeerConnection, named, pc_entry,
  own_rows, update_rows, remove_first,
}
use demo_app.Webapp.Stats.Objects.{Fresh, IsObject, Apart, spread-Apart, append-nil}

abbrev mark : String
mark = "updates-"

abbrev prefixed : Object → Object
prefixed = map (λ (p : Property). record p { key = Text.◌++◌ mark p.key })

make_prefixed_obj_lem :
    (capitalize : String → String) (o result : Object)
    → make_prefixed_obj capitalize o (some mark) false result ≡ spread (prefixed o) result
unfolding make_prefixed_obj spread
make_prefixed_obj_lem capitalize [] result = refl
make_prefixed_obj_lem capitalize (p ∷ o) result =
    make_prefixed_obj_lem capitalize o (assign (Text.◌++◌ mark p.key) p.value result)

-- The same prefix keeps keys apart.
eq-prefixed : (a b : String) → (a == b) ≡ false → (Text.◌++◌ mark a == Text.◌++◌ mark b) ≡ false
eq-prefixed a b e = elim (Bool-cases (Text.◌++◌ mark a == Text.◌++◌ mark b)) [
  | inl same ↦
      let p : a ≡ b =
        append_cancel_left mark a b
          (ground (arith, same, eq_iff (Text.◌++◌ mark a) (Text.◌++◌ mark b))) in
      absurd (ground (arith, e, p, eq_iff a b))
  | inr other ↦ other
]

Fresh-prefixed : (key : String) (o : Object) → Fresh key o → Fresh (Text.◌++◌ mark key) (prefixed o)
Fresh-prefixed key [] f = tt
Fresh-prefixed key (p ∷ o) f = (eq-prefixed p.key key f.0, Fresh-prefixed key o f.1)

IsObject-prefixed : (o : Object) → IsObject o → IsObject (prefixed o)
IsObject-prefixed [] v = tt
IsObject-prefixed (p ∷ o) v = (Fresh-prefixed p.key o v.0, IsObject-prefixed o v.1)

Apart-nil : (o : Object) → Apart o []
Apart-nil [] = tt
Apart-nil (p ∷ o) = (tt, Apart-nil o)

-- No key begins like those of the updates.
abbrev pub Unmarked : Object → Type 0
Unmarked = All (λ p. starts_with p.key mark ≡ false)

Fresh-Unmarked : (key : String) (o : Object) → Unmarked o → Fresh (Text.◌++◌ mark key) o
Fresh-Unmarked key [] u = tt
Fresh-Unmarked key (p ∷ o) u = (
  elim (Bool-cases (p.key == Text.◌++◌ mark key)) [
    | inl same ↦
        let e : p.key ≡ Text.◌++◌ mark key =
          ground (arith, same, eq_iff p.key (Text.◌++◌ mark key)) in
        absurd (
          ground
            (arith, u.0, ap (λ (t : String). starts_with t mark) e ∙ starts_with-append mark key))
    | inr other ↦ other
  ],
  Fresh-Unmarked key o u.1,
)

Apart-prefixed : (updates o : Object) → Unmarked o → Apart (prefixed updates) o
Apart-prefixed [] o u = tt
Apart-prefixed (p ∷ updates) o u = (Fresh-Unmarked p.key o u, Apart-prefixed updates o u)

pc_entry_lem :
    (capitalize : String → String) (c : PeerConnection) (stats : Object)
    → IsObject c.updates
    → IsObject stats
    → Unmarked stats
    → pc_entry capitalize c stats
      ≡ assign "id" (some (Json.str (named c))) (stats ++ prefixed c.updates)
unfolding pc_entry
pc_entry_lem capitalize c stats v w u =
    let valid = IsObject-prefixed c.updates v in
    let added : make_prefixed_obj capitalize c.updates (some mark) false [] ≡ prefixed c.updates =
      make_prefixed_obj_lem capitalize c.updates []
      ∙ spread-Apart (prefixed c.updates) [] valid (Apart-nil (prefixed c.updates)) in
    let copied : spread stats [] ≡ stats = spread-Apart stats [] w (Apart-nil stats) in
    ap (λ (a : Object). assign "id" (some (Json.str (named c))) (spread a (spread stats []))) added
    ∙ ap (λ (o : Object). assign "id" (some (Json.str (named c))) (spread (prefixed c.updates) o))
        copied
    ∙ ap (assign "id" (some (Json.str (named c))))
        (spread-Apart (prefixed c.updates) stats valid (Apart-prefixed c.updates stats u))

module _ (test : String → Bool) where
  -- The selection of the properties by their keys.
  abbrev passing : Object → Object
  passing = select (λ p. test p.key)

  passing-append : (o q : Object) → passing (o ++ q) ≡ passing o ++ passing q
  passing-append [] q = refl
  passing-append (p ∷ o) q = elim (Bool-cases (test p.key)) [
    | inl e ↦ rw e (ap (λ (l : Object). p ∷ l) (passing-append o q))
    | inr e ↦ rw e (passing-append o q)
  ]

  passing_all : (o : Object) → All (λ p. test p.key ≡ true) o → passing o ≡ o
  passing_all [] h = refl
  passing_all (p ∷ o) h = rw (h.0) (ap (λ (l : Object). p ∷ l) (passing_all o h.1))

  passing_none : (o : Object) → All (λ p. test p.key ≡ false) o → passing o ≡ []
  passing_none [] h = refl
  passing_none (p ∷ o) h = rw (h.0) (passing_none o h.1)

  passing-assign_out :
      (key : String) (v : Option Json) (o : Object)
      → test key ≡ false
      → passing (assign key v o) ≡ passing o
  unfolding assign
  passing-assign_out key v [] e = rw e refl
  passing-assign_out key v (p ∷ o) e = elim (Bool-cases (p.key == key)) [
    | inl same ↦
        let t : test p.key ≡ false = ap test (ground (arith, same, eq_iff p.key key)) ∙ e in
        rw (assign, same, t) refl
    | inr other ↦
        rw (assign, other)
          (elim (Bool-cases (test p.key)) [
            | inl t ↦ rw t (ap (λ (l : Object). p ∷ l) (passing-assign_out key v o e))
            | inr t ↦ rw t (passing-assign_out key v o e)
          ])
  ]

  passing-assign_in :
      (key : String) (v : Option Json) (o : Object)
      → test key ≡ true
      → passing (assign key v o) ≡ assign key v (passing o)
  unfolding assign
  passing-assign_in key v [] e = rw e refl
  passing-assign_in key v (p ∷ o) e = elim (Bool-cases (p.key == key)) [
    | inl same ↦
        let t : test p.key ≡ true = ap test (ground (arith, same, eq_iff p.key key)) ∙ e in
        rw (same, t, same) refl
    | inr other ↦ elim (Bool-cases (test p.key)) [
      | inl t ↦ rw (other, t, other) (ap (λ (l : Object). p ∷ l) (passing-assign_in key v o e))
      | inr t ↦ rw (other, t) (passing-assign_in key v o e)
    ]
  ]

All-prefixed : (o : Object) → All (λ p. starts_with p.key mark ≡ true) (prefixed o)
All-prefixed [] = tt
All-prefixed (p ∷ o) = (starts_with-append mark p.key, All-prefixed o)

All-unprefixed : (o : Object) → All (λ p. not (starts_with p.key mark) ≡ false) (prefixed o)
All-unprefixed [] = tt
All-unprefixed (p ∷ o) = (ap not (starts_with-append mark p.key), All-unprefixed o)

All-Unmarked : (o : Object) → Unmarked o → All (λ p. not (starts_with p.key mark) ≡ true) o
All-Unmarked [] u = tt
All-Unmarked (p ∷ o) u = (ap not u.0, All-Unmarked o u.1)

remove_first-starts :
    (what text : String)
    → starts_with text what ≡ true
    → remove_first what text ≡ Text.slice text (Text.len what) (Text.len text)
unfolding remove_first
remove_first-starts what String.[] e = sym (Text.slice.nil (Text.len what) (Text.len String.[]))
remove_first-starts what (String.◌∷◌ c t) e = rw (remove_first, e) refl

remove_first-append : (what t : String) → remove_first what (Text.◌++◌ what t) ≡ t
remove_first-append what t =
    remove_first-starts what (Text.◌++◌ what t) (starts_with-append what t)
    ∙ ap (Text.slice (Text.◌++◌ what t) (Text.len what)) (len-append what t)
    ∙ slice-append_right what t

abbrev unmark : Object → List Row
unmark = map (λ (p : Property). record { label = remove_first mark p.key; shown = cell p.value })

-- The row of a property under its own name.
abbrev row : Property → Row
row p = record { label = p.key; shown = cell p.value }

unmark-prefixed : (o : Object) → unmark (prefixed o) ≡ map row o
unmark-prefixed [] = refl
unmark-prefixed (p ∷ o) =
    ap (λ (k : String). record { label = k; shown = cell p.value } ∷ unmark (prefixed o))
      (remove_first-append mark p.key)
    ∙ ap (λ (l : List Row). row p ∷ l) (unmark-prefixed o)

-- The rows of an object: one for each property, in their order.
abbrev pub AreRows : Object → List Row → Type 0
AreRows [] [] = Unit
AreRows (p ∷ o) (r ∷ rs) = (r.label ≡ p.key) × Shows p.value r.shown × AreRows o rs
AreRows _ _ = ⊥

row-AreRows : (o : Object) → AreRows o (map row o)
row-AreRows [] = tt
row-AreRows (p ∷ o) = (refl, cell-Shows p.value, row-AreRows o)

-- The entry that is made of a peer connection falls apart again in its card: when neither the
-- statistics nor the updates have a key twice, and no key of the statistics begins with `updates-`,
-- the second table has a row for each of the monitor's updates, in their order and under their own
-- names, and the first one a row for each of the statistics with the connection's label, or else
-- its id, under `id`. Beside a name stands `N/A` for undefined, the value where its text has at most
-- 30 UTF-16 units, and else the start of its text, of 30 units or 29 where the next character is one
-- of two units, with three dots.
pub rows-pc_entry :
    (capitalize : String → String) (c : PeerConnection) (stats : Object)
    → IsObject c.updates
    → IsObject stats
    → Unmarked stats
    → AreRows c.updates (update_rows (pc_entry capitalize c stats))
      × AreRows
          (assign "id" (some (Json.str (named c))) stats)
          (own_rows (pc_entry capitalize c stats))
unfolding update_rows own_rows
rows-pc_entry capitalize c stats v w u =
    let is_update = λ (k : String). starts_with k mark in
    let is_own = λ (k : String). not (starts_with k mark) in
    let id = some (Json.str (named c)) in
    let entry = stats ++ prefixed c.updates in
    let made = pc_entry_lem capitalize c stats v w u in
    let updates : passing is_update (pc_entry capitalize c stats) ≡ prefixed c.updates =
      ap (passing is_update) made
      ∙ passing-assign_out is_update "id" id entry refl
      ∙ passing-append is_update stats (prefixed c.updates)
      ∙ ap (λ (o : Object). o ++ passing is_update (prefixed c.updates))
          (passing_none is_update stats u)
      ∙ passing_all is_update (prefixed c.updates) (All-prefixed c.updates) in
    let own : passing is_own (pc_entry capitalize c stats) ≡ assign "id" id stats =
      ap (passing is_own) made
      ∙ passing-assign_in is_own "id" id entry refl
      ∙ ap (assign "id" id) (
          passing-append is_own stats (prefixed c.updates)
          ∙ ap (λ (o : Object). o ++ passing is_own (prefixed c.updates))
              (passing_all is_own stats (All-Unmarked stats u))
          ∙ ap (λ (o : Object). stats ++ o)
              (passing_none is_own (prefixed c.updates) (All-unprefixed c.updates))
          ∙ append-nil stats) in
    (
      subst (AreRows c.updates) (sym (ap unmark updates ∙ unmark-prefixed c.updates))
          (row-AreRows c.updates),
      subst (AreRows (assign "id" id stats)) (sym (ap (map row) own))
          (row-AreRows (assign "id" id stats)),
    )
