-- ===== src/Webapp/Stats/Remote.antt =====
-- The listener of webapp/src/components/Stats/RemoteClientStats.tsx: the streams of one remote client.
use demo_app.Base.{
  String, ◌==◌, List, [], ◌∷◌, ◌++◌, ◌≡◌, refl, sym, ◌∙◌, ap, map, Bool, true, false, not, ◌&&◌,
  Option, none, some, if◌then◌else◌, select, Bool-cases, inl, inr,
}
use demo_app.Webapp.Store.{RemoteClient}
use demo_app.Webapp.Stats.{Object, spread, make_prefixed_obj}
use demo_app.Webapp.Stats.Objects.{append-cons, append-nil, append_assoc}

pub record InboundRtp : Type 0 where
  pub track_id : Option String
  pub stats : Object
  pub updates : Object
  -- `getRemoteOutboundRtp()`
  pub remote_outbound : Option Object

pub record Streams : Type 0 where
  pub inbound_rtps : List Object
  pub remote_outbound_rtps : List Object

-- `===` of texts that may be undefined.
abbrev pub same : Option String → Option String → Bool
same none none = true
same (some a) (some b) = a == b
same _ _ = false

abbrev audio_of : Option RemoteClient → Option String
audio_of none = none
audio_of (some c) = c.audio_track_id

abbrev video_of : Option RemoteClient → Option String
video_of none = none
video_of (some c) = c.video_track_id

-- The condition of `continue`.
unfoldable pub is_skipped : Option RemoteClient → InboundRtp → Bool
is_skipped client rtp =
    not (same (audio_of client) rtp.track_id) && not (same (video_of client) rtp.track_id)

unfoldable pub inbound_entry : (String → String) → InboundRtp → Object
unfolding spread make_prefixed_obj
inbound_entry capitalize rtp =
    spread (make_prefixed_obj capitalize rtp.updates (some "updates-") false [])
      (spread rtp.stats [])

unfoldable pub push_rtp : (String → String) → InboundRtp → Streams → Streams
unfolding inbound_entry
push_rtp capitalize rtp s =
    let heard : Streams = elim rtp.remote_outbound [
      | none ↦ s
      | some o ↦ record s { remote_outbound_rtps = s.remote_outbound_rtps ++ o ∷ [] }
    ] in
    record heard { inbound_rtps = heard.inbound_rtps ++ inbound_entry capitalize rtp ∷ [] }

unfoldable pub collect_rtps :
    (String → String) → Option RemoteClient → List InboundRtp → Streams → Streams
unfolding is_skipped push_rtp
collect_rtps capitalize client [] s = s
collect_rtps capitalize client (rtp ∷ rtps) s =
    collect_rtps capitalize client rtps
      (if is_skipped client rtp then s else push_rtp capitalize rtp s)

abbrev outbound_of : InboundRtp → List Object
outbound_of rtp = elim rtp.remote_outbound [ none ↦ [] | some o ↦ o ∷ [] ]

abbrev pub outbounds : List InboundRtp → List Object
outbounds [] = []
outbounds (rtp ∷ rtps) = outbound_of rtp ++ outbounds rtps

push_rtp_lem :
    (capitalize : String → String) (rtp : InboundRtp) (s : Streams)
    → push_rtp capitalize rtp s ≡ record {
      inbound_rtps = s.inbound_rtps ++ inbound_entry capitalize rtp ∷ [];
      remote_outbound_rtps = s.remote_outbound_rtps ++ outbound_of rtp;
    }
unfolding push_rtp
push_rtp_lem capitalize rtp s = go rtp.remote_outbound
  where
    rest : List Object
    rest = s.inbound_rtps ++ inbound_entry capitalize rtp ∷ []

    go :
        (o : Option Object)
        → (let heard : Streams = elim o [
          | none ↦ s
          | some x ↦ record s { remote_outbound_rtps = s.remote_outbound_rtps ++ x ∷ [] }
        ] in
            record heard { inbound_rtps = heard.inbound_rtps ++ inbound_entry capitalize rtp ∷ [] })
          ≡ record {
            inbound_rtps = rest;
            remote_outbound_rtps =
                s.remote_outbound_rtps ++ (elim o [ none ↦ [] | some x ↦ x ∷ [] ]);
          }
    go none =
        ap (λ (l : List Object). record { inbound_rtps = rest; remote_outbound_rtps = l })
          (sym (append-nil s.remote_outbound_rtps))
    go (some x) = refl

-- The two tables of a remote client show its own streams, in their order, and of these the remote
-- counterparts that there are.
pub collect_rtps_lem :
    (capitalize : String → String) (client : Option RemoteClient) (rtps : List InboundRtp)
    (s : Streams)
    → let own = select (λ rtp. not (is_skipped client rtp)) rtps in
      collect_rtps capitalize client rtps s ≡ record {
        inbound_rtps = s.inbound_rtps ++ map (inbound_entry capitalize) own;
        remote_outbound_rtps = s.remote_outbound_rtps ++ outbounds own;
      }
unfolding collect_rtps push_rtp
collect_rtps_lem capitalize client [] s =
    ap
      (λ (l : List Object). record {
        inbound_rtps = l;
        remote_outbound_rtps = s.remote_outbound_rtps;
      })
      (sym (append-nil s.inbound_rtps))
    ∙ ap
        (λ (l : List Object). record {
          inbound_rtps = s.inbound_rtps ++ [];
          remote_outbound_rtps = l;
        })
        (sym (append-nil s.remote_outbound_rtps))
collect_rtps_lem capitalize client (rtp ∷ rtps) s = elim (Bool-cases (is_skipped client rtp)) [
  | inl e ↦ rw (collect_rtps, e) (collect_rtps_lem capitalize client rtps s)
  | inr e ↦
      let own = select (λ (rtp : InboundRtp). not (is_skipped client rtp)) rtps in
      let entries = map (inbound_entry capitalize) own in
      rw (collect_rtps, e)
        (ap (collect_rtps capitalize client rtps) (push_rtp_lem capitalize rtp s)
          ∙ collect_rtps_lem capitalize client rtps _
          ∙ ap
              (λ (l : List Object). record {
                inbound_rtps = l;
                remote_outbound_rtps = (s.remote_outbound_rtps ++ outbound_of rtp) ++ outbounds own;
              })
              (append-cons s.inbound_rtps entries (inbound_entry capitalize rtp))
          ∙ ap
              (λ (l : List Object). record {
                inbound_rtps = s.inbound_rtps ++ inbound_entry capitalize rtp ∷ entries;
                remote_outbound_rtps = l;
              })
              (append_assoc s.remote_outbound_rtps (outbound_of rtp) (outbounds own)))
]
