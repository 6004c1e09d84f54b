-- ===== src/Webapp/MediasoupService/Others.antt =====
-- Pausing one track leaves the other media objects of webapp/src/contexts/MediasoupService.tsx as they
-- are.
use demo_app.Base.{
  String, ◌==◌, eq_iff, ℕ, List, [], ◌∷◌, ◌≡◌, ◌≢◌, refl, sym, ap, ◌∙◌, subst, Bool, true, false,
  Option, none, some, if◌then◌else◌, Bool-cases, Option-cases, inl, inr, arith,
}
use demo_app.Base.JsMap
use demo_app.Base.JsMap.{JsMap, Entry}
use demo_app.Base.JsMap.Keys.{Distinct, set-Distinct}
use demo_app.Webapp.MediasoupService.State.{MediaObject, MediasoupService}
use demo_app.Webapp.MediasoupService.Media.{
  Found, find_by_track, has_track, first_of, find_media_object_by_track, set_paused, same, switch,
}
use demo_app.Webapp.MediasoupService.Marking.{find_by_track-is_some, or_entry}
use demo_app.Webapp.MediasoupService.Pausing.{IsKeyed}

has_track-other :
    (t u : String) (o : Option String) → t ≢ u → has_track t o ≡ true → has_track u o ≡ false
has_track-other t u none n h = refl
has_track-other t u (some x) n h = elim (Bool-cases (x == u)) [
  | inl e ↦ absurd (n (sym ((eq_iff x t).0 h) ∙ (eq_iff x u).0 e))
  | inr e ↦ e
]

find_by_track-put_other :
    (t u : String) (b : Bool) (n : ℕ) (e : Entry MediaObject) (es : List (Entry MediaObject))
    → t ≢ u
    → Distinct es
    → find_by_track t es ≡ some e
    → find_by_track u (JsMap.put e.key (set_paused b e.value) n es) ≡ find_by_track u es
unfolding find_by_track JsMap.put
find_by_track-put_other t u b n e [] other d h = absurd (ground (arith, h))
find_by_track-put_other t u b n e (x ∷ es) other d h =
    elim (Bool-cases (has_track t x.value.track_id)) [
      | inl hit ↦
          let first : some x ≡ some e = ground (arith, h) in
          let not_u = has_track-other t u x.value.track_id other hit in
          subst
            (λ y.
              find_by_track u (JsMap.put y.key (set_paused b y.value) n (x ∷ es))
              ≡ find_by_track u (x ∷ es))
            (ap (or_entry x) first)
            (rw (JsMap.put, (eq_iff x.key x.key).1 refl, find_by_track, not_u) refl)
      | inr miss ↦
          let later : find_by_track t es ≡ some e = ground (arith, h) in
          let apart : (x.key == e.key) ≡ false =
            ground (arith, d.0, eq_iff x.key e.key, find_by_track-is_some t e es later) in
          rw (JsMap.put, apart, find_by_track)
            (ap (λ r. if has_track u x.value.track_id then some x else r)
              (find_by_track-put_other t u b n e es other d.1 later))
    ]

pub find-switch_other :
    (b : Bool) (t u : String) (s : MediasoupService)
    → t ≢ u
    → IsKeyed s
    → find_media_object_by_track u (switch b (find_media_object_by_track t s) s)
      ≡ find_media_object_by_track u s
unfolding find_media_object_by_track switch first_of JsMap.set
find-switch_other b t u s other v = elim (Option-cases (find_by_track t s.producers.entries)) [
  | inr (e, h) ↦ elim (Bool-cases (same b e.value.paused)) [
    | inl k ↦ rw (h, first_of, switch, k) refl
    | inr k ↦
        rw (h, first_of, switch, k)
          (rw
            (find_by_track-put_other t u b s.producers.next e s.producers.entries other v.producers
              h)
            refl)
  ]
  | inl h ↦ elim (Option-cases (find_by_track t s.consumers.entries)) [
    | inl g ↦ rw (h, g, first_of, switch) refl
    | inr (e, g) ↦ elim (Bool-cases (same b e.value.paused)) [
      | inl k ↦ rw (h, g, first_of, switch, k) refl
      | inr k ↦
          rw (h, g, first_of, switch, k)
            (rw
              (find_by_track-put_other t u b s.consumers.next e s.consumers.entries other
                v.consumers g)
              refl)
    ]
  ]
]

pub switch-IsKeyed :
    (b : Bool) (f : Found) (s : MediasoupService) → IsKeyed s → IsKeyed (switch b f s)
unfolding switch
switch-IsKeyed b Found.nothing s v = v
switch-IsKeyed b (Found.producer e) s v = elim (Bool-cases (same b e.value.paused)) [
  | inl k ↦ rw (switch, k) v
  | inr k ↦
      rw (switch, k)
        (record {
          producers = set-Distinct e.key (set_paused b e.value) s.producers v.producers;
          consumers = v.consumers;
        })
]
switch-IsKeyed b (Found.consumer e) s v = elim (Bool-cases (same b e.value.paused)) [
  | inl k ↦ rw (switch, k) v
  | inr k ↦
      rw (switch, k)
        (record {
          producers = v.producers;
          consumers = set-Distinct e.key (set_paused b e.value) s.consumers v.consumers;
        })
]
