-- ===== src/Webapp/RemoteClients/Agreement.antt =====
-- The map of streams and the store of webapp/src/components/Clients/RemoteClients.tsx agree.
use demo_app.Base.{
  String, ◌==◌, List, [], ◌∷◌, ◌≡◌, refl, ◌∙◌, Bool, true, false, Option, none, some, is_some,
  if◌then◌else◌, arith, Bool-cases, Option-cases, inl, inr, eq_iff,
}
use demo_app.Base.JsMap
use demo_app.Webapp.Store.{
  RemoteClient, RemoteClientsState, initial_state, find, add, remove, set_audio_track_id,
  set_video_track_id, with_audio, with_video,
}
use demo_app.Webapp.Store.Refinement.{find-append, find-select, find-update}
use demo_app.Webapp.RemoteClients.{
  Track, Shown, init, find_track, add_track, remove_track, set_track_id, added_media_consumer,
  drop_track, visit, remove_from, removed_media_consumer, Event, added, removed, step, run,
  or_no_tracks, new_client,
}

-- Whether there is a stream with tracks.
abbrev pub has_tracks : Option (List Track) → Bool
has_tracks none = false
has_tracks (some []) = false
has_tracks (some (t ∷ ts)) = true

-- What is stored at an id: a stream is listed exactly when the client is in the store, and it has a track.
abbrev pub Agrees : String → Shown → Type 0
Agrees k s =
    (is_some (find k s.store.clients) ≡ JsMap.has k s.info)
    × (has_tracks (JsMap.get k s.info) ≡ JsMap.has k s.info)

is_some-set_track_id :
    (t : Track) (id : String) (v : Option String) (k : String) (s : RemoteClientsState)
    → is_some (find k (set_track_id t id v s).clients) ≡ is_some (find k s.clients)
unfolding set_track_id set_audio_track_id set_video_track_id
is_some-set_track_id t id v k s = ground (
  arith,
  find-update id k (with_audio v) s.clients (λ c. refl),
  find-update id k (with_video v) s.clients (λ c. refl),
)

is_some-add :
    (c : RemoteClient) (k : String) (s : RemoteClientsState)
    → is_some (find k (add c s).clients)
      ≡ (if c.client_id == k then true else is_some (find k s.clients))
unfolding add
is_some-add c k s = ground (arith, find-append k s.clients c, eq_iff c.client_id k)

has_tracks-add_track : (t : Track) (ts : List Track) → has_tracks (some (add_track t ts)) ≡ true
unfolding add_track find_track
has_tracks-add_track t [] = refl
has_tracks-add_track t (x ∷ ts) = ground arith

added-Agrees :
    (id : String) (u : Option String) (t : Track) (s : Shown)
    → ((k : String) → Agrees k s)
    → (k : String) → Agrees k (added_media_consumer [] id u t s)
unfolding added_media_consumer find
added-Agrees id u t s h k =
    let ts = add_track t (or_no_tracks (JsMap.get id s.info)) in
    let store = add (new_client id u) s.store in
    rw
      (
        is_some-set_track_id t id (some t.id) k store,
        is_some-add (new_client id u) k s.store,
        JsMap.get-set id k ts s.info,
      )
      (elim (Bool-cases (id == k)) [
        | inl hit ↦ rw hit (refl, has_tracks-add_track t (or_no_tracks (JsMap.get id s.info)))
        | inr miss ↦ rw miss (h k)
      ])

drop_track-Agrees :
    (id : String) (ts : List Track) (s : Shown)
    → JsMap.has id s.info ≡ true
    → ((k : String) → Agrees k s)
    → (k : String) → Agrees k (drop_track id ts s).0
unfolding drop_track remove
drop_track-Agrees id [] s live h k =
    rw (JsMap.get-delete id k s.info, find-select id k s.store.clients)
      (elim (Bool-cases (id == k)) [ inl hit ↦ rw hit (refl, refl) | inr miss ↦ rw miss (h k) ])
drop_track-Agrees id (t ∷ ts) s live h k =
    rw (JsMap.get-set id k (t ∷ ts) s.info) (elim (Bool-cases (id == k)) [
      | inl hit ↦ rw hit (ground (arith, eq_iff id k, (h k).0, live), refl)
      | inr miss ↦ rw miss (h k)
    ])

find_track-is_some :
    (track_id : String) (o : Option (List Track)) (t : Track)
    → find_track track_id (or_no_tracks o) ≡ some t
    → is_some o ≡ true
unfolding find_track
find_track-is_some track_id none t e = ground arith
find_track-is_some track_id (some ts) t e = refl

visit-Agrees :
    (id track_id : String) (s : Shown)
    → ((k : String) → Agrees k s)
    → (k : String) → Agrees k (visit id track_id s).0
unfolding visit
visit-Agrees id track_id s h =
    let tracks = or_no_tracks (JsMap.get id s.info) in
    elim (Option-cases (find_track track_id tracks)) [
      | inl e ↦ rw (visit, e) h
      | inr (t, e) ↦
          let set = record s { store = set_track_id t id none s.store } in
          let live = find_track-is_some track_id (JsMap.get id s.info) t e in
          rw (visit, e)
            (drop_track-Agrees id (remove_track t.id tracks) set live
              (λ k. (is_some-set_track_id t id none k s.store ∙ (h k).0, (h k).1)))
    ]

remove_from-Agrees :
    (ids : List String) (track_id : String) (s : Shown)
    → ((k : String) → Agrees k s)
    → (k : String) → Agrees k (remove_from ids track_id s)
unfolding remove_from
remove_from-Agrees [] track_id s h = h
remove_from-Agrees (id ∷ ids) track_id s h =
    let now = visit-Agrees id track_id s h in
    elim (Bool-cases (visit id track_id s).1) [
      | inl e ↦ rw e now
      | inr e ↦ rw e (remove_from-Agrees ids track_id (visit id track_id s).0 now)
    ]

step-Agrees :
    (e : Event) (s : Shown) → ((k : String) → Agrees k s) → (k : String) → Agrees k (step [] e s)
unfolding step removed_media_consumer
step-Agrees (added id u t) s h = added-Agrees id u t s h
step-Agrees (removed t) s h = remove_from-Agrees (JsMap.keys s.info) t s h

run-Agrees :
    (es : List Event) (s : Shown)
    → ((k : String) → Agrees k s)
    → (k : String) → Agrees k (run [] es s)
unfolding run
run-Agrees [] s h = h
run-Agrees (e ∷ es) s h = run-Agrees es (step [] e s) (step-Agrees e s h)

-- Any listener calls from the start on, with listeners that were made while there were no remote
-- clients, leave the two agreeing at every id: a client is in the store exactly when it has a stream,
-- and the stream then has a track.
pub run-init-Agrees : (es : List Event) (k : String) → Agrees k (run [] es init)
unfolding init initial_state find JsMap.get JsMap.find
run-init-Agrees es k = run-Agrees es init (λ j. (refl, refl)) k
