-- ===== src/Webapp/Store.antt =====
-- The reducer of webapp/src/store/remoteClientsSlice.tsx.
pub mod Refinement
use demo_app.Base.{
  String, ◌==◌, List, [], ◌∷◌, ◌++◌, not, Option, none, some, if◌then◌else◌, is_some, select,
}

pub record RemoteClient : Type 0 where
  pub client_id : String
  pub user_id : Option String
  pub media_stream_id : Option String
  pub audio_track_id : Option String
  pub video_track_id : Option String

pub record RemoteClientsState : Type 0 where
  pub clients : List RemoteClient

unfoldable pub initial_state : RemoteClientsState
initial_state = record { clients = [] }

-- `clients.find(c => c.clientId === clientId)`
unfoldable pub find : String → List RemoteClient → Option RemoteClient
find id [] = none
find id (c ∷ cs) = if c.client_id == id then some c else find id cs

-- A change of the first client with the id.
unfoldable pub update :
    String → (RemoteClient → RemoteClient) → List RemoteClient → List RemoteClient
update id f [] = []
update id f (c ∷ cs) = if c.client_id == id then f c ∷ cs else c ∷ update id f cs

unfoldable pub add : RemoteClient → RemoteClientsState → RemoteClientsState
unfolding find
add c s =
    if is_some (find c.client_id s.clients) then s else record s { clients = s.clients ++ c ∷ [] }

unfoldable pub remove : String → RemoteClientsState → RemoteClientsState
remove id s = record s { clients = select (λ c. not (c.client_id == id)) s.clients }

abbrev pub with_audio : Option String → RemoteClient → RemoteClient
with_audio track_id c = record c { audio_track_id = track_id }

abbrev pub with_video : Option String → RemoteClient → RemoteClient
with_video track_id c = record c { video_track_id = track_id }

unfoldable pub set_audio_track_id : String → Option String → RemoteClientsState → RemoteClientsState
unfolding update
set_audio_track_id id track_id s = record s { clients = update id (with_audio track_id) s.clients }

unfoldable pub set_video_track_id : String → Option String → RemoteClientsState → RemoteClientsState
unfolding update
set_video_track_id id track_id s = record s { clients = update id (with_video track_id) s.clients }

pub data Action : Type 0 where
  added : RemoteClient → Action
  removed : (client_id : String) → Action
  audio_set video_set : (client_id : String) (track_id : Option String) → Action

pub reduce : Action → RemoteClientsState → RemoteClientsState
unfolding add remove set_audio_track_id set_video_track_id
reduce (added c) s = add c s
reduce (removed id) s = remove id s
reduce (audio_set id t) s = set_audio_track_id id t s
reduce (video_set id t) s = set_video_track_id id t s

pub dispatch_all : List Action → RemoteClientsState → RemoteClientsState
unfolding reduce
dispatch_all [] s = s
dispatch_all (a ∷ rest) s = dispatch_all rest (reduce a s)
