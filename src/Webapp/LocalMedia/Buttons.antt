-- ===== src/Webapp/LocalMedia/Buttons.antt =====
-- The buttons of webapp/src/components/Clients/LocalClientMediaBox.tsx show what the media service does.
use demo_app.Base.{
  String, List, [], ◌∷◌, ◌≡◌, ◌≢◌, refl, sym, subst, Bool, true, false, some, Bool-cases, inl, inr,
}
use demo_app.Webapp.MediasoupService.State.{MediasoupService}
use demo_app.Webapp.MediasoupService.Media.{
  Found, find_media_object_by_track, switch, pause_media, resume_media,
}
use demo_app.Webapp.MediasoupService.Pausing.{IsKeyed, mark, find-switch}
use demo_app.Webapp.MediasoupService.Others.{find-switch_other, switch-IsKeyed}
use demo_app.Webapp.LocalMedia.{
  LocalMedia, play_mic, pause_mic, play_cam, pause_cam, Button, mic, cam, press, press_all,
}

-- What was found, if anything, is paused or not.
abbrev pub IsAt : Bool → Found → Type 0
IsAt b Found.nothing = Unit
IsAt b (Found.producer e) = e.value.paused ≡ b
IsAt b (Found.consumer e) = e.value.paused ≡ b

IsAt-mark : (b : Bool) (f : Found) → IsAt b (mark b f)
IsAt-mark b Found.nothing = tt
IsAt-mark b (Found.producer e) = refl
IsAt-mark b (Found.consumer e) = refl

-- There are a media service, with each key once in its maps, and the two tracks, and what the buttons
-- show of the tracks is so.
pub record Agrees (audio video : String) (s : LocalMedia) : Type 0 where
  pub service : MediasoupService
  pub there : s.media_service ≡ some service
  pub has_audio : s.audio_track ≡ some audio
  pub has_video : s.video_track ≡ some video
  pub keyed : IsKeyed service
  pub muted : IsAt s.is_muted (find_media_object_by_track audio service)
  pub paused : IsAt s.is_paused (find_media_object_by_track video service)

module _ {audio video : String} (other : audio ≢ video) where
  switch_mic :
      (b : Bool) (s : LocalMedia) (g : Agrees audio video s)
      → Agrees audio video (record s {
        media_service = some (switch b (find_media_object_by_track audio g.service) g.service);
        is_muted = b;
      })
  switch_mic b s g =
      let found = find_media_object_by_track audio g.service in
      record {
        service = switch b found g.service;
        there = refl;
        has_audio = g.has_audio;
        has_video = g.has_video;
        keyed = switch-IsKeyed b found g.service g.keyed;
        muted = subst (IsAt b) (sym (find-switch b audio g.service g.keyed)) (IsAt-mark b found);
        paused =
            subst (IsAt s.is_paused) (sym (find-switch_other b audio video g.service other g.keyed))
              g.paused;
      }

  switch_cam :
      (b : Bool) (s : LocalMedia) (g : Agrees audio video s)
      → Agrees audio video (record s {
        media_service = some (switch b (find_media_object_by_track video g.service) g.service);
        is_paused = b;
      })
  switch_cam b s g =
      let found = find_media_object_by_track video g.service in
      record {
        service = switch b found g.service;
        there = refl;
        has_audio = g.has_audio;
        has_video = g.has_video;
        keyed = switch-IsKeyed b found g.service g.keyed;
        muted =
            subst (IsAt s.is_muted)
              (sym (find-switch_other b video audio g.service (λ e. other (sym e)) g.keyed))
              g.muted;
        paused = subst (IsAt b) (sym (find-switch b video g.service g.keyed)) (IsAt-mark b found);
      }

  press-Agrees :
      (b : Button) (s : LocalMedia) → Agrees audio video s → Agrees audio video (press b s)
  unfolding press play_mic pause_mic play_cam pause_cam pause_media resume_media
  press-Agrees mic s g = elim (Bool-cases s.is_muted) [
    | inl e ↦ rw (press, e, play_mic, g.there, g.has_audio) (switch_mic false s g)
    | inr e ↦ rw (press, e, pause_mic, g.there, g.has_audio) (switch_mic true s g)
  ]
  press-Agrees cam s g = elim (Bool-cases s.is_paused) [
    | inl e ↦ rw (press, e, play_cam, g.there, g.has_video) (switch_cam false s g)
    | inr e ↦ rw (press, e, pause_cam, g.there, g.has_video) (switch_cam true s g)
  ]

-- While the local audio and video track are different and both there, pressing the buttons in any
-- order keeps each of the two labels true: the microphone shows as muted exactly when the media object
-- that the service has for its track is paused, and so the camera.
pub press_all-Agrees :
    (audio video : String) (bs : List Button) (s : LocalMedia)
    → audio ≢ video
    → Agrees audio video s
    → Agrees audio video (press_all bs s)
unfolding press_all
press_all-Agrees audio video [] s other g = g
press_all-Agrees audio video (b ∷ bs) s other g =
    press_all-Agrees audio video bs (press b s) other (press-Agrees other b s g)
