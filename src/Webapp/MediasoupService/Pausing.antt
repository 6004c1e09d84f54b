-- ===== src/Webapp/MediasoupService/Pausing.antt =====
-- `pauseMedia` and `resumeMedia` of webapp/src/contexts/MediasoupService.tsx.
use demo_app.Base.{
  ◌++◌, if◌then◌else◌, String, ◌==◌, eq_iff, ℕ, List, [], ◌∷◌, ◌≡◌, refl, sym, ap, subst, Bool,
  true, false, some, Bool-cases, Option-cases, inl, inr, arith,
}
use demo_app.Base.JsMap
use demo_app.Base.JsMap.{JsMap, Entry}
use demo_app.Base.JsMap.Keys.{Distinct}
use demo_app.Webapp.MediasoupService.State.{MediaObject, MediasoupService, Output, output}
use demo_app.Webapp.Stats.Objects.{append-nil}
use demo_app.Webapp.MediasoupService.Marking.{
  same-true, or_entry, marked, mark_entries, find-by_track, mark_entries_same, put-mark_entries,
  find_by_track-is_some,
}
use demo_app.Webapp.MediasoupService.Media.{
  Found, find_by_track, has_track, first_of, find_media_object_by_track, set_paused, same, switched,
  switch, pause_media, resume_media,
}

-- The object that was found, paused or not.
abbrev pub mark : Bool → Found → Found
mark b Found.nothing = Found.nothing
mark b (Found.producer e) = Found.producer (marked b e)
mark b (Found.consumer e) = Found.consumer (marked b e)

pub find_by_track-put :
    (t : String) (b : Bool) (n : ℕ) (e : Entry MediaObject) (es : List (Entry MediaObject))
    → Distinct es
    → find_by_track t es ≡ some e
    → find_by_track t (JsMap.put e.key (set_paused b e.value) n es) ≡ some (marked b e)
unfolding find_by_track JsMap.put
find_by_track-put t b n e [] d h = absurd (ground (arith, h))
find_by_track-put t b n e (x ∷ es) d h = elim (Bool-cases (has_track t x.value.track_id)) [
  | inl hit ↦
      let first : some x ≡ some e = ground (arith, h) in
      subst
        (λ y.
          find_by_track t (JsMap.put y.key (set_paused b y.value) n (x ∷ es)) ≡ some (marked b y))
        (ap (or_entry x) first)
        (rw (JsMap.put, (eq_iff x.key x.key).1 refl, find_by_track, hit) refl)
  | inr miss ↦
      let later : find_by_track t es ≡ some e = ground (arith, h) in
      let other : (x.key == e.key) ≡ false =
        ground (arith, d.0, eq_iff x.key e.key, find_by_track-is_some t e es later) in
      rw (JsMap.put, other, find_by_track, miss) (find_by_track-put t b n e es d.1 later)
]

-- Both maps have each key once.
pub record IsKeyed (s : MediasoupService) : Type 0 where
  pub producers : Distinct s.producers.entries
  pub consumers : Distinct s.consumers.entries

marked-same : (b : Bool) (e : Entry MediaObject) → same b e.value.paused ≡ true → marked b e ≡ e
marked-same b e h = ap (λ p. marked p e) (same-true b e.value.paused h)

pub find-switch :
    (b : Bool) (t : String) (s : MediasoupService)
    → IsKeyed s
    → find_media_object_by_track t (switch b (find_media_object_by_track t s) s)
      ≡ mark b (find_media_object_by_track t s)
unfolding find_media_object_by_track switch first_of JsMap.set
find-switch b t s v = elim (Option-cases (find_by_track t s.producers.entries)) [
  | inr (e, h) ↦ elim (Bool-cases (same b e.value.paused)) [
    | inl k ↦ rw (h, first_of, switch, k) (rw h (ap Found.producer (sym (marked-same b e k))))
    | inr k ↦
        rw (h, first_of, switch, k)
          (rw (find_by_track-put t b s.producers.next e s.producers.entries v.producers h) refl)
  ]
  | inl h ↦ elim (Option-cases (find_by_track t s.consumers.entries)) [
    | inl g ↦ rw (h, g, first_of, switch) (rw (h, g) refl)
    | inr (e, g) ↦ elim (Bool-cases (same b e.value.paused)) [
      | inl k ↦
          rw (h, g, first_of, switch, k) (rw (h, g) (ap Found.consumer (sym (marked-same b e k))))
      | inr k ↦
          rw (h, g, first_of, switch, k)
            (rw (h, find_by_track-put t b s.consumers.next e s.consumers.entries v.consumers g)
              refl)
    ]
  ]
]

-- The entries of the two maps afterwards.
abbrev pub producers_after : Bool → Found → List (Entry MediaObject) → List (Entry MediaObject)
producers_after b (Found.producer e) es = mark_entries b e.key es
producers_after b f es = es

abbrev pub consumers_after : Bool → Found → List (Entry MediaObject) → List (Entry MediaObject)
consumers_after b (Found.consumer e) es = mark_entries b e.key es
consumers_after b f es = es

-- The call of mediasoup: none when the object is so already, or there is none.
abbrev pub calls : Bool → Found → List Output
calls b Found.nothing = []
calls b (Found.producer e) = if same b e.value.paused then [] else switched b e.value.id ∷ []
calls b (Found.consumer e) = if same b e.value.paused then [] else switched b e.value.id ∷ []

-- Of the service, nothing but the flag of the object changes.
abbrev pub Switched : Bool → Found → MediasoupService → MediasoupService → Type 0
Switched b f s r =
    (r.producers.entries ≡ producers_after b f s.producers.entries)
    × (r.consumers.entries ≡ consumers_after b f s.consumers.entries)
    × (r.outputs ≡ s.outputs ++ calls b f)
    × (r ≡ record s { producers = r.producers; consumers = r.consumers; outputs = r.outputs })

switch-Switched :
    (b : Bool) (t : String) (s : MediasoupService)
    → IsKeyed s
    → let f = find_media_object_by_track t s in Switched b f s (switch b f s)
unfolding find_media_object_by_track switch first_of JsMap.set output
switch-Switched b t s v = elim (Option-cases (find_by_track t s.producers.entries)) [
  | inr (e, h) ↦
      let at = find-by_track t e s.producers.entries v.producers h in
      elim (Bool-cases (same b e.value.paused)) [
        | inl k ↦
            rw (h, first_of, switch, k)
              (
                sym (mark_entries_same b e.key e.value s.producers.entries v.producers at k),
                refl,
                sym (append-nil s.outputs),
                refl,
              )
        | inr k ↦
            rw (h, first_of, switch, k)
              (
                put-mark_entries b e.key e.value s.producers.next s.producers.entries v.producers
                    at,
                refl,
                refl,
                refl,
              )
      ]
  | inl h ↦ elim (Option-cases (find_by_track t s.consumers.entries)) [
    | inl g ↦ rw (h, g, first_of, switch) (refl, refl, sym (append-nil s.outputs), refl)
    | inr (e, g) ↦
        let at = find-by_track t e s.consumers.entries v.consumers g in
        elim (Bool-cases (same b e.value.paused)) [
          | inl k ↦
              rw (h, g, first_of, switch, k)
                (
                  refl,
                  sym (mark_entries_same b e.key e.value s.consumers.entries v.consumers at k),
                  sym (append-nil s.outputs),
                  refl,
                )
          | inr k ↦
              rw (h, g, first_of, switch, k)
                (
                  refl,
                  put-mark_entries b e.key e.value s.consumers.next s.consumers.entries v.consumers
                      at,
                  refl,
                  refl,
                )
        ]
  ]
]

-- For a service whose two maps have each key once, as a `Map` has: after `pauseMedia` the object that
-- is found for the track is the one that was found before, and paused, and after `resumeMedia` it is
-- that one, not paused; a track that nothing was found for has nothing still. Nothing else of the
-- service changes: every other producer and consumer, their order and all other fields are as they
-- were, and mediasoup's `pause` or `resume` is called once for the object, if it was not so already.
pub find-pause_resume :
    (t : String) (s : MediasoupService)
    → IsKeyed s
    → let f = find_media_object_by_track t s in
      (find_media_object_by_track t (pause_media t s) ≡ mark true f)
      × Switched true f s (pause_media t s)
      × (find_media_object_by_track t (resume_media t s) ≡ mark false f)
      × Switched false f s (resume_media t s)
unfolding pause_media resume_media
find-pause_resume t s v = (
  find-switch true t s v,
  switch-Switched true t s v,
  find-switch false t s v,
  switch-Switched false t s v,
)
