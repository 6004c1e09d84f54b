-- ===== src/Webapp/LocalMedia.antt =====
-- The buttons of webapp/src/components/Clients/LocalClientMediaBox.tsx, which pause and resume the
-- local tracks.
pub mod Buttons
use demo_app.Base.{String, List, [], ◌∷◌, Bool, true, false, Option, none, some, if◌then◌else◌}
use demo_app.Webapp.MediasoupService.State.{MediasoupService}
use demo_app.Webapp.MediasoupService.Media.{pause_media, resume_media}

pub record LocalMedia : Type 0 where
  pub media_service : Option MediasoupService
  pub audio_track : Option String
  pub video_track : Option String
  pub is_muted : Bool
  pub is_paused : Bool

unfoldable pub init : Option MediasoupService → LocalMedia
init service = record {
  media_service = service;
  audio_track = none;
  video_track = none;
  is_muted = false;
  is_paused = false;
}

-- The rest of `getMedia`, once the tracks are produced.
unfoldable pub media_ready : Option String → Option String → LocalMedia → LocalMedia
media_ready audio video s = record s { audio_track = audio; video_track = video }

pub play_mic : LocalMedia → LocalMedia
play_mic s = elim s.media_service [
  | none ↦ s
  | some m ↦ elim s.audio_track [
    | none ↦ s
    | some t ↦ record s { media_service = some (resume_media t m); is_muted = false }
  ]
]

pub pause_mic : LocalMedia → LocalMedia
pause_mic s = elim s.media_service [
  | none ↦ s
  | some m ↦ elim s.audio_track [
    | none ↦ s
    | some t ↦ record s { media_service = some (pause_media t m); is_muted = true }
  ]
]

pub play_cam : LocalMedia → LocalMedia
play_cam s = elim s.media_service [
  | none ↦ s
  | some m ↦ elim s.video_track [
    | none ↦ s
    | some t ↦ record s { media_service = some (resume_media t m); is_paused = false }
  ]
]

pub pause_cam : LocalMedia → LocalMedia
pause_cam s = elim s.media_service [
  | none ↦ s
  | some m ↦ elim s.video_track [
    | none ↦ s
    | some t ↦ record s { media_service = some (pause_media t m); is_paused = true }
  ]
]

-- The two buttons, which are those for the other state.
pub data Button : Type 0 where
  mic cam : Button

pub press : Button → LocalMedia → LocalMedia
unfolding play_mic pause_mic play_cam pause_cam
press mic s = if s.is_muted then play_mic s else pause_mic s
press cam s = if s.is_paused then play_cam s else pause_cam s

pub press_all : List Button → LocalMedia → LocalMedia
unfolding press
press_all [] s = s
press_all (b ∷ bs) s = press_all bs (press b s)
