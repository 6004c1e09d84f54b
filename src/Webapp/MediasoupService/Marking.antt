-- ===== src/Webapp/MediasoupService/Marking.antt =====
-- The flag of one media object among those of webapp/src/contexts/MediasoupService.tsx.
use demo_app.Base.{
  String, ◌==◌, eq_iff, ℕ, List, [], ◌∷◌, ◌≡◌, refl, sym, ap, subst, Bool, true, false, Option,
  none, some, is_some, if◌then◌else◌, map, Bool-cases, inl, inr, arith, ◌∙◌,
}
use demo_app.Base.JsMap
use demo_app.Base.JsMap.{Entry}
use demo_app.Base.JsMap.Keys.{Distinct}
use demo_app.Webapp.MediasoupService.State.{MediaObject}
use demo_app.Webapp.MediasoupService.Media.{find_by_track, has_track, set_paused, same}

abbrev pub marked : Bool → Entry MediaObject → Entry MediaObject
marked b e = record e { value = set_paused b e.value }

-- The entries, that under the key marked.
abbrev pub mark_entries : Bool → String → List (Entry MediaObject) → List (Entry MediaObject)
mark_entries b key = map (λ x. if x.key == key then marked b x else x)

abbrev pub or_entry : Entry MediaObject → Option (Entry MediaObject) → Entry MediaObject
or_entry d none = d
or_entry d (some e) = e

pub find_by_track-is_some :
    (t : String) (e : Entry MediaObject) (es : List (Entry MediaObject))
    → find_by_track t es ≡ some e
    → is_some (JsMap.find e.key es) ≡ true
unfolding find_by_track JsMap.find
find_by_track-is_some t e [] h = absurd (ground (arith, h))
find_by_track-is_some t e (x ∷ es) h = elim (Bool-cases (has_track t x.value.track_id)) [
  | inl hit ↦
      let first : some x ≡ some e = ground (arith, h) in
      subst (λ y. is_some (JsMap.find y.key (x ∷ es)) ≡ true) (ap (or_entry x) first)
        (ground (arith, eq_iff x.key x.key))
  | inr miss ↦ ground (arith, find_by_track-is_some t e es)
]

-- What is found by the track is found by its key.
pub find-by_track :
    (t : String) (e : Entry MediaObject) (es : List (Entry MediaObject))
    → Distinct es
    → find_by_track t es ≡ some e
    → JsMap.find e.key es ≡ some e.value
unfolding find_by_track JsMap.find
find-by_track t e [] d h = absurd (ground (arith, h))
find-by_track t e (x ∷ es) d h = elim (Bool-cases (has_track t x.value.track_id)) [
  | inl hit ↦
      let first : some x ≡ some e = ground (arith, h) in
      subst (λ y. JsMap.find y.key (x ∷ es) ≡ some y.value) (ap (or_entry x) first)
        (rw ((eq_iff x.key x.key).1 refl) refl)
  | inr miss ↦
      let later : find_by_track t es ≡ some e = ground (arith, h) in
      let other : (x.key == e.key) ≡ false =
        ground (arith, d.0, eq_iff x.key e.key, find_by_track-is_some t e es later) in
      rw other (find-by_track t e es d.1 later)
]

mark_entries_other :
    (b : Bool) (key : String) (es : List (Entry MediaObject))
    → JsMap.find key es ≡ none
    → mark_entries b key es ≡ es
unfolding JsMap.find
mark_entries_other b key [] h = refl
mark_entries_other b key (x ∷ es) h = elim (Bool-cases (x.key == key)) [
  | inl hit ↦ absurd (ground (arith, h, hit))
  | inr miss ↦ rw miss (
      ap (λ (l : List (Entry MediaObject)). x ∷ l)
        (mark_entries_other b key es (ground (arith, h, miss))))
]

abbrev value_or : MediaObject → Option MediaObject → MediaObject
value_or m none = m
value_or m (some n) = n

-- An entry that is replaced by its marked one.
pub put-mark_entries :
    (b : Bool) (key : String) (m : MediaObject) (n : ℕ) (es : List (Entry MediaObject))
    → Distinct es
    → JsMap.find key es ≡ some m
    → JsMap.put key (set_paused b m) n es ≡ mark_entries b key es
unfolding JsMap.find JsMap.put
put-mark_entries b key m n [] d h = absurd (ground (arith, h))
put-mark_entries b key m n (x ∷ es) d h = elim (Bool-cases (x.key == key)) [
  | inl hit ↦
      let found : some x.value ≡ some m = ground (arith, h, hit) in
      let none_left : JsMap.find key es ≡ none =
        ap (λ k. JsMap.find k es) (sym ((eq_iff x.key key).0 hit)) ∙ d.0 in
      rw (JsMap.put, hit)
        (rw (mark_entries_other b key es none_left)
          (ap (λ v. record x { value = set_paused b v } ∷ es) (sym (ap (value_or m) found))))
  | inr miss ↦
      rw (JsMap.put, miss)
        (ap (λ (l : List (Entry MediaObject)). x ∷ l)
          (put-mark_entries b key m n es d.1 (ground (arith, h, miss))))
]

pub same-true : (b p : Bool) → same b p ≡ true → b ≡ p
same-true true p h = sym h
same-true false p h = ground arith

-- Marking an entry as it is.
pub mark_entries_same :
    (b : Bool) (key : String) (m : MediaObject) (es : List (Entry MediaObject))
    → Distinct es
    → JsMap.find key es ≡ some m
    → same b m.paused ≡ true
    → mark_entries b key es ≡ es
unfolding JsMap.find
mark_entries_same b key m [] d h k = refl
mark_entries_same b key m (x ∷ es) d h k = elim (Bool-cases (x.key == key)) [
  | inl hit ↦
      let found : some x.value ≡ some m = ground (arith, h, hit) in
      let value : x.value ≡ m = ap (value_or m) found in
      let none_left : JsMap.find key es ≡ none =
        ap (λ k. JsMap.find k es) (sym ((eq_iff x.key key).0 hit)) ∙ d.0 in
      let flag : b ≡ x.value.paused = same-true b m.paused k ∙ ap (λ v. v.paused) (sym value) in
      rw (hit, mark_entries_other b key es none_left) (ap (λ p. marked p x ∷ es) flag)
  | inr miss ↦ rw miss (
      ap (λ (l : List (Entry MediaObject)). x ∷ l)
        (mark_entries_same b key m es d.1 (ground (arith, h, miss)) k))
]
