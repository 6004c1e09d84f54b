-- ===== src/Observer/Evaluators/Common.antt =====
-- `createCommonEvaluator` of observer/src/evaluators/commonEvaluator.ts: 22 counters that an evaluation
-- increases by the lengths of the lists of what changed. A list is taken by its length.
use demo_app.Base.{ℕ, ◌+◌, List, [], ◌∷◌, ◌≡◌, arith, total}

-- The lists of an evaluation's context.
pub record Context : Type 0 where
  pub added_inbound_audio_track_ids : ℕ
  pub added_inbound_video_track_ids : ℕ
  pub added_outbound_audio_track_ids : ℕ
  pub added_outbound_video_track_ids : ℕ
  pub opened_peer_connection_ids : ℕ
  pub joined_client_ids : ℕ
  pub started_call_ids : ℕ
  pub added_sfu_inboun_rtp_pad_ids : ℕ
  pub added_sfu_outboun_rtp_pad_ids : ℕ
  pub opened_sfu_sctp_channel_ids : ℕ
  pub opened_sfu_transport_ids : ℕ
  pub removed_inbound_audio_tracks : ℕ
  pub removed_inbound_video_tracks : ℕ
  pub removed_outbound_audio_tracks : ℕ
  pub removed_outbound_video_tracks : ℕ
  pub closed_peer_connections : ℕ
  pub detached_clients : ℕ
  pub ended_calls : ℕ
  pub removed_sfu_inboun_rtp_pad_ids : ℕ
  pub removed_sfu_outboun_rtp_pad_ids : ℕ
  pub closed_sfu_sctp_channels : ℕ
  pub closed_sfu_transports : ℕ

pub record Counters : Type 0 where
  pub added_inbound_audio_track_ids : ℕ
  pub added_inbound_video_track_ids : ℕ
  pub added_outbound_audio_track_ids : ℕ
  pub added_outbound_video_track_ids : ℕ
  pub opened_peer_connection_ids : ℕ
  pub joined_client_ids : ℕ
  pub started_call_ids : ℕ
  pub added_sfu_inboun_rtp_pad_ids : ℕ
  pub added_sfu_outboun_rtp_pad_ids : ℕ
  pub opened_sfu_sctp_channel_ids : ℕ
  pub opened_sfu_transport_ids : ℕ
  pub removed_inbound_audio_track_ids : ℕ
  pub removed_inbound_video_track_ids : ℕ
  pub removed_outbound_audio_track_ids : ℕ
  pub removed_outbound_video_track_ids : ℕ
  pub closed_peer_connection_ids : ℕ
  pub detached_client_ids : ℕ
  pub ended_call_ids : ℕ
  pub removed_sfu_inbound_rtp_pad_ids : ℕ
  pub removed_sfu_outbound_rtp_pad_ids : ℕ
  pub closed_sfu_sctp_channel_ids : ℕ
  pub closed_sfu_transport_ids : ℕ

pub init : Counters
init = record {
  added_inbound_audio_track_ids = 0;
  added_inbound_video_track_ids = 0;
  added_outbound_audio_track_ids = 0;
  added_outbound_video_track_ids = 0;
  opened_peer_connection_ids = 0;
  joined_client_ids = 0;
  started_call_ids = 0;
  added_sfu_inboun_rtp_pad_ids = 0;
  added_sfu_outboun_rtp_pad_ids = 0;
  opened_sfu_sctp_channel_ids = 0;
  opened_sfu_transport_ids = 0;
  removed_inbound_audio_track_ids = 0;
  removed_inbound_video_track_ids = 0;
  removed_outbound_audio_track_ids = 0;
  removed_outbound_video_track_ids = 0;
  closed_peer_connection_ids = 0;
  detached_client_ids = 0;
  ended_call_ids = 0;
  removed_sfu_inbound_rtp_pad_ids = 0;
  removed_sfu_outbound_rtp_pad_ids = 0;
  closed_sfu_sctp_channel_ids = 0;
  closed_sfu_transport_ids = 0;
}

pub evaluate : Context → Counters → Counters
evaluate x s = record {
  added_inbound_audio_track_ids = s.added_inbound_audio_track_ids + x.added_inbound_audio_track_ids;
  added_inbound_video_track_ids = s.added_inbound_video_track_ids + x.added_inbound_video_track_ids;
  added_outbound_audio_track_ids =
      s.added_outbound_audio_track_ids + x.added_outbound_audio_track_ids;
  added_outbound_video_track_ids =
      s.added_outbound_video_track_ids + x.added_outbound_video_track_ids;
  opened_peer_connection_ids = s.opened_peer_connection_ids + x.opened_peer_connection_ids;
  joined_client_ids = s.joined_client_ids + x.joined_client_ids;
  started_call_ids = s.started_call_ids + x.started_call_ids;
  added_sfu_inboun_rtp_pad_ids = s.added_sfu_inboun_rtp_pad_ids + x.added_sfu_inboun_rtp_pad_ids;
  added_sfu_outboun_rtp_pad_ids = s.added_sfu_outboun_rtp_pad_ids + x.added_sfu_outboun_rtp_pad_ids;
  opened_sfu_sctp_channel_ids = s.opened_sfu_sctp_channel_ids + x.opened_sfu_sctp_channel_ids;
  opened_sfu_transport_ids = s.opened_sfu_transport_ids + x.opened_sfu_transport_ids;
  removed_inbound_audio_track_ids =
      s.removed_inbound_audio_track_ids + x.removed_inbound_audio_tracks;
  removed_inbound_video_track_ids =
      s.removed_inbound_video_track_ids + x.removed_inbound_video_tracks;
  removed_outbound_audio_track_ids =
      s.removed_outbound_audio_track_ids + x.removed_outbound_audio_tracks;
  removed_outbound_video_track_ids =
      s.removed_outbound_video_track_ids + x.removed_outbound_video_tracks;
  closed_peer_connection_ids = s.closed_peer_connection_ids + x.closed_peer_connections;
  detached_client_ids = s.detached_client_ids + x.detached_clients;
  ended_call_ids = s.ended_call_ids + x.ended_calls;
  removed_sfu_inbound_rtp_pad_ids =
      s.removed_sfu_inbound_rtp_pad_ids + x.removed_sfu_inboun_rtp_pad_ids;
  removed_sfu_outbound_rtp_pad_ids =
      s.removed_sfu_outbound_rtp_pad_ids + x.removed_sfu_outboun_rtp_pad_ids;
  closed_sfu_sctp_channel_ids = s.closed_sfu_sctp_channel_ids + x.closed_sfu_sctp_channels;
  closed_sfu_transport_ids = s.closed_sfu_transport_ids + x.closed_sfu_transports;
}

-- The evaluations of a run of the observer.
pub run : List Context → Counters → Counters
unfolding evaluate
run [] s = s
run (x ∷ xs) s = run xs (evaluate x s)

-- What a counter has been increased by.
abbrev pub Totals : List Context → Counters → Counters → Type 0
Totals xs s t =
    (t.added_inbound_audio_track_ids
      ≡ s.added_inbound_audio_track_ids + total (λ x. x.added_inbound_audio_track_ids) xs)
    × (t.added_inbound_video_track_ids
        ≡ s.added_inbound_video_track_ids + total (λ x. x.added_inbound_video_track_ids) xs)
    × (t.added_outbound_audio_track_ids
        ≡ s.added_outbound_audio_track_ids + total (λ x. x.added_outbound_audio_track_ids) xs)
    × (t.added_outbound_video_track_ids
        ≡ s.added_outbound_video_track_ids + total (λ x. x.added_outbound_video_track_ids) xs)
    × (t.opened_peer_connection_ids
        ≡ s.opened_peer_connection_ids + total (λ x. x.opened_peer_connection_ids) xs)
    × (t.joined_client_ids ≡ s.joined_client_ids + total (λ x. x.joined_client_ids) xs)
    × (t.started_call_ids ≡ s.started_call_ids + total (λ x. x.started_call_ids) xs)
    × (t.added_sfu_inboun_rtp_pad_ids
        ≡ s.added_sfu_inboun_rtp_pad_ids + total (λ x. x.added_sfu_inboun_rtp_pad_ids) xs)
    × (t.added_sfu_outboun_rtp_pad_ids
        ≡ s.added_sfu_outboun_rtp_pad_ids + total (λ x. x.added_sfu_outboun_rtp_pad_ids) xs)
    × (t.opened_sfu_sctp_channel_ids
        ≡ s.opened_sfu_sctp_channel_ids + total (λ x. x.opened_sfu_sctp_channel_ids) xs)
    × (t.opened_sfu_transport_ids
        ≡ s.opened_sfu_transport_ids + total (λ x. x.opened_sfu_transport_ids) xs)
    × (t.removed_inbound_audio_track_ids
        ≡ s.removed_inbound_audio_track_ids + total (λ x. x.removed_inbound_audio_tracks) xs)
    × (t.removed_inbound_video_track_ids
        ≡ s.removed_inbound_video_track_ids + total (λ x. x.removed_inbound_video_tracks) xs)
    × (t.removed_outbound_audio_track_ids
        ≡ s.removed_outbound_audio_track_ids + total (λ x. x.removed_outbound_audio_tracks) xs)
    × (t.removed_outbound_video_track_ids
        ≡ s.removed_outbound_video_track_ids + total (λ x. x.removed_outbound_video_tracks) xs)
    × (t.closed_peer_connection_ids
        ≡ s.closed_peer_connection_ids + total (λ x. x.closed_peer_connections) xs)
    × (t.detached_client_ids ≡ s.detached_client_ids + total (λ x. x.detached_clients) xs)
    × (t.ended_call_ids ≡ s.ended_call_ids + total (λ x. x.ended_calls) xs)
    × (t.removed_sfu_inbound_rtp_pad_ids
        ≡ s.removed_sfu_inbound_rtp_pad_ids + total (λ x. x.removed_sfu_inboun_rtp_pad_ids) xs)
    × (t.removed_sfu_outbound_rtp_pad_ids
        ≡ s.removed_sfu_outbound_rtp_pad_ids + total (λ x. x.removed_sfu_outboun_rtp_pad_ids) xs)
    × (t.closed_sfu_sctp_channel_ids
        ≡ s.closed_sfu_sctp_channel_ids + total (λ x. x.closed_sfu_sctp_channels) xs)
    × (t.closed_sfu_transport_ids
        ≡ s.closed_sfu_transport_ids + total (λ x. x.closed_sfu_transports) xs)

total_step : (a b t c : ℕ) → a ≡ b + c → a + t ≡ b + (c + t)
total_step a b t c e = omega arith

-- After any number of evaluations each of the counters has grown by the lengths of its own list in all
-- their contexts together, and by nothing else.
pub run-Totals : (xs : List Context) (s : Counters) → Totals xs s (run xs s)
unfolding run
run-Totals [] s = omega arith
run-Totals (x ∷ xs) s =
    let ih = run-Totals xs (evaluate x s) in unfold evaluate in omega (arith, ih)
