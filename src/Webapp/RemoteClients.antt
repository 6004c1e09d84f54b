-- ===== src/Webapp/RemoteClients.antt =====
-- The two listeners of webapp/src/components/Clients/RemoteClients.tsx, over the map
-- `remoteClientInfo` of media streams and the store of the remote clients. A media stream is the list
-- of its tracks. The listeners are registered once, so they see the remote clients of the time when
-- the component was shown first, which are the argument `seen`; there are none yet.
pub mod Agreement
use demo_app.Base.{
  String, ◌==◌, List, [], ◌∷◌, ◌++◌, Bool, not, Option, none, some, if◌then◌else◌, is_some, select,
}
use demo_app.Base.JsMap
use demo_app.Base.JsMap.{JsMap}
use demo_app.Webapp.Store.{
  RemoteClient, RemoteClientsState, initial_state, find, add, remove, set_audio_track_id,
  set_video_track_id,
}

pub record Track : Type 0 where
  pub id : String
  pub is_audio : Bool

pub record Shown : Type 0 where
  pub info : JsMap (List Track)
  pub store : RemoteClientsState

pub init : Shown
init = record { info = JsMap.empty; store = initial_state }

pub find_track : String → List Track → Option Track
find_track id [] = none
find_track id (t ∷ ts) = if t.id == id then some t else find_track id ts

-- `MediaStream.addTrack`, which adds a track once.
pub add_track : Track → List Track → List Track
unfolding find_track
add_track t ts = if is_some (find_track t.id ts) then ts else ts ++ t ∷ []

pub remove_track : String → List Track → List Track
remove_track id ts = select (λ t. not (t.id == id)) ts

-- The action for the kind of a track.
pub set_track_id : Track → String → Option String → RemoteClientsState → RemoteClientsState
unfolding set_audio_track_id set_video_track_id
set_track_id t client_id track_id s =
    if t.is_audio
    then set_audio_track_id client_id track_id s
    else set_video_track_id client_id track_id s

abbrev pub new_client : String → Option String → RemoteClient
new_client client_id user_id = record {
  client_id = client_id;
  user_id = user_id;
  media_stream_id = none;
  audio_track_id = none;
  video_track_id = none;
}

abbrev pub or_no_tracks : Option (List Track) → List Track
or_no_tracks none = []
or_no_tracks (some ts) = ts

module _ (seen : List RemoteClient) where
  pub added_media_consumer : String → Option String → Track → Shown → Shown
  unfolding set_track_id add find add_track
  added_media_consumer client_id user_id track s =
      let store =
        (if is_some (find client_id seen)
          then s.store
          else add (new_client client_id user_id) s.store) in
      record {
        info =
            JsMap.set client_id (add_track track (or_no_tracks (JsMap.get client_id s.info)))
              s.info;
        store = set_track_id track client_id (some track.id) store;
      }

-- The stream after the track is taken from it, and whether the listener returns.
pub drop_track : String → List Track → Shown → Shown × Bool
unfolding remove
drop_track client_id [] s =
    (record { info = JsMap.delete client_id s.info; store = remove client_id s.store }, Bool.false)
drop_track client_id (t ∷ ts) s =
    (record s { info = JsMap.set client_id (t ∷ ts) s.info }, Bool.true)

-- The body of the loop for one entry. A stream is one object, so its tracks are those of now.
pub visit : String → String → Shown → Shown × Bool
unfolding find_track drop_track set_track_id remove_track
visit client_id track_id s =
    let tracks = or_no_tracks (JsMap.get client_id s.info) in
    elim (find_track track_id tracks) [
      | none ↦ (s, Bool.false)
      | some t ↦
          drop_track client_id (remove_track t.id tracks)
            (record s { store = set_track_id t client_id none s.store })
    ]

pub remove_from : List String → String → Shown → Shown
unfolding visit
remove_from [] track_id s = s
remove_from (client_id ∷ rest) track_id s =
    let visited = visit client_id track_id s in
    let go_on = remove_from rest track_id visited.0 in if visited.1 then visited.0 else go_on

pub removed_media_consumer : String → Shown → Shown
unfolding remove_from
removed_media_consumer track_id s = remove_from (JsMap.keys s.info) track_id s

pub data Event : Type 0 where
  added : (client_id : String) (user_id : Option String) (track : Track) → Event
  removed : (track_id : String) → Event

pub step : List RemoteClient → Event → Shown → Shown
unfolding added_media_consumer removed_media_consumer
step seen (added client_id user_id track) s = added_media_consumer seen client_id user_id track s
step seen (removed track_id) s = removed_media_consumer track_id s

pub run : List RemoteClient → List Event → Shown → Shown
unfolding step
run seen [] s = s
run seen (e ∷ rest) s = run seen rest (step seen e s)
