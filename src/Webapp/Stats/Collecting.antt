-- ===== src/Webapp/Stats/Collecting.antt =====
-- The listeners of `stats-collected` (webapp/src/components/Stats) against what they are meant to
-- collect: each list is made of the connections one after another.
use demo_app.Base.{
  String, List, [], ◌∷◌, ◌++◌, ◌≡◌, refl, sym, ◌∙◌, ap, map, not, none, some, Option-cases,
  Bool-cases, inl, inr, select,
}
use demo_app.Webapp.Stats.{
  Object, PeerConnection, Collected, pc_entry, transport_entry, is_audio, push_transports,
  push_sources, push_playouts, push_senders, push_receivers, push_connection, push_all, collect,
  nothing,
}
use demo_app.Webapp.Stats.Objects.{append-cons, append-nil, append_assoc}

-- One connection's entry, if it has statistics.
abbrev pub pcs_of : (String → String) → PeerConnection → List Object
pcs_of capitalize c = elim c.stats [ none ↦ [] | some stats ↦ pc_entry capitalize c stats ∷ [] ]

-- Its transports, if it has statistics itself.
abbrev pub transports_of : PeerConnection → List Object
transports_of c = elim c.stats [ none ↦ [] | some stats ↦ map (transport_entry c) c.transports ]

-- The lists that are meant, of the connections one after another.
abbrev pub each : (PeerConnection → List Object) → List PeerConnection → List Object
each f [] = []
each f (c ∷ cs) = f c ++ each f cs

-- What a connection adds to each list.
abbrev Adds : (String → String) → PeerConnection → Collected → Collected → Type 0
Adds capitalize c s t =
    (t.pcs ≡ s.pcs ++ pcs_of capitalize c)
    × (t.transports ≡ s.transports ++ transports_of c)
    × (t.audio_sources ≡ s.audio_sources ++ select is_audio c.media_sources)
    × (t.video_sources ≡ s.video_sources ++ select (λ m. not (is_audio m)) c.media_sources)
    × (t.audio_playouts ≡ s.audio_playouts ++ c.audio_playouts)
    × (t.senders ≡ s.senders ++ c.senders)
    × (t.receivers ≡ s.receivers ++ c.receivers)

push_transports_lem :
    (c : PeerConnection) (stats : Object) (ts : List Object) (s : Collected)
    → c.stats ≡ some stats
    → push_transports c ts s ≡ record s { transports = s.transports ++ map (transport_entry c) ts }
unfolding push_transports
push_transports_lem c stats [] s e =
    ap (λ (l : List Object). record s { transports = l }) (sym (append-nil s.transports))
push_transports_lem c stats (t ∷ ts) s e =
    rw (push_transports, e)
      (push_transports_lem c stats ts
          (record s { transports = s.transports ++ transport_entry c t ∷ [] }) e
        ∙ ap (λ (l : List Object). record s { transports = l })
            (append-cons s.transports (map (transport_entry c) ts) (transport_entry c t)))

push_transports-none :
    (c : PeerConnection) (ts : List Object) (s : Collected)
    → c.stats ≡ none
    → push_transports c ts s ≡ s
unfolding push_transports
push_transports-none c [] s e = refl
push_transports-none c (t ∷ ts) s e = rw (push_transports, e) (push_transports-none c ts s e)

push_sources_lem :
    (ms : List Object) (s : Collected)
    → push_sources ms s ≡ record s {
      audio_sources = s.audio_sources ++ select is_audio ms;
      video_sources = s.video_sources ++ select (λ m. not (is_audio m)) ms;
    }
unfolding push_sources
push_sources_lem [] s =
    ap (λ (l : List Object). record s { audio_sources = l }) (sym (append-nil s.audio_sources))
    ∙ ap
        (λ (l : List Object). record s { audio_sources = s.audio_sources ++ []; video_sources = l })
        (sym (append-nil s.video_sources))
push_sources_lem (m ∷ ms) s = elim (Bool-cases (is_audio m)) [
  | inl e ↦
      rw (push_sources, e)
        (push_sources_lem ms (record s { audio_sources = s.audio_sources ++ m ∷ [] })
          ∙ ap
              (λ (l : List Object). record s {
                audio_sources = l;
                video_sources = s.video_sources ++ select (λ m. not (is_audio m)) ms;
              })
              (append-cons s.audio_sources (select is_audio ms) m))
  | inr e ↦
      rw (push_sources, e)
        (push_sources_lem ms (record s { video_sources = s.video_sources ++ m ∷ [] })
          ∙ ap
              (λ (l : List Object). record s {
                audio_sources = s.audio_sources ++ select is_audio ms;
                video_sources = l;
              })
              (append-cons s.video_sources (select (λ m. not (is_audio m)) ms) m))
]

push_playouts_lem :
    (ps : List Object) (s : Collected)
    → push_playouts ps s ≡ record s { audio_playouts = s.audio_playouts ++ ps }
unfolding push_playouts
push_playouts_lem [] s =
    ap (λ (l : List Object). record s { audio_playouts = l }) (sym (append-nil s.audio_playouts))
push_playouts_lem (p ∷ ps) s =
    push_playouts_lem ps (record s { audio_playouts = s.audio_playouts ++ p ∷ [] })
    ∙ ap (λ (l : List Object). record s { audio_playouts = l }) (append-cons s.audio_playouts ps p)

push_senders_lem :
    (ps : List Object) (s : Collected) → push_senders ps s ≡ record s { senders = s.senders ++ ps }
unfolding push_senders
push_senders_lem [] s =
    ap (λ (l : List Object). record s { senders = l }) (sym (append-nil s.senders))
push_senders_lem (p ∷ ps) s =
    push_senders_lem ps (record s { senders = s.senders ++ p ∷ [] })
    ∙ ap (λ (l : List Object). record s { senders = l }) (append-cons s.senders ps p)

push_receivers_lem :
    (ps : List Object) (s : Collected)
    → push_receivers ps s ≡ record s { receivers = s.receivers ++ ps }
unfolding push_receivers
push_receivers_lem [] s =
    ap (λ (l : List Object). record s { receivers = l }) (sym (append-nil s.receivers))
push_receivers_lem (p ∷ ps) s =
    push_receivers_lem ps (record s { receivers = s.receivers ++ p ∷ [] })
    ∙ ap (λ (l : List Object). record s { receivers = l }) (append-cons s.receivers ps p)

-- The rest of the round, behind the first list and the transports.
rest_lem :
    (c : PeerConnection) (s : Collected)
    → push_receivers c.receivers
        (push_senders c.senders (push_playouts c.audio_playouts (push_sources c.media_sources s)))
      ≡ record s {
        audio_sources = s.audio_sources ++ select is_audio c.media_sources;
        video_sources = s.video_sources ++ select (λ m. not (is_audio m)) c.media_sources;
        audio_playouts = s.audio_playouts ++ c.audio_playouts;
        senders = s.senders ++ c.senders;
        receivers = s.receivers ++ c.receivers;
      }
rest_lem c s =
    ap
      (λ (v : Collected).
        push_receivers c.receivers (push_senders c.senders (push_playouts c.audio_playouts v)))
      (push_sources_lem c.media_sources s)
    ∙ ap (λ (v : Collected). push_receivers c.receivers (push_senders c.senders v))
        (push_playouts_lem c.audio_playouts _)
    ∙ ap (λ (v : Collected). push_receivers c.receivers v) (push_senders_lem c.senders _)
    ∙ push_receivers_lem c.receivers _

push_connection-Adds :
    (capitalize : String → String) (c : PeerConnection) (s : Collected)
    → Adds capitalize c s (push_connection capitalize c s)
unfolding push_connection
push_connection-Adds capitalize c s = elim (Option-cases c.stats) [
  | inl e ↦
      let d : PeerConnection = record c { stats = none } in
      rw (e, push_connection, push_transports-none d c.transports s refl, rest_lem d s)
        (sym (append-nil s.pcs), sym (append-nil s.transports), refl, refl, refl, refl, refl)
  | inr (stats, e) ↦
      let d : PeerConnection = record c { stats = some stats } in
      let begun : Collected = record s { pcs = s.pcs ++ pc_entry capitalize d stats ∷ [] } in
      let moved : Collected = record begun {
        transports = s.transports ++ map (transport_entry d) c.transports;
      } in
      rw (e, push_connection, push_transports_lem d stats c.transports begun refl, rest_lem d moved)
        (refl, refl, refl, refl, refl, refl, refl)
]

-- What holds of one list of the tables holds of all connections.
module _ (capitalize : String → String) (field : Collected → List Object)
    (f : PeerConnection → List Object)
    (adds : (c : PeerConnection) (s : Collected)
      → field (push_connection capitalize c s) ≡ field s ++ f c) where
  push_all-each :
      (cs : List PeerConnection) (s : Collected)
      → field (push_all capitalize cs s) ≡ field s ++ each f cs
  unfolding push_all
  push_all-each [] s = sym (append-nil (field s))
  push_all-each (c ∷ cs) s =
      push_all-each cs (push_connection capitalize c s)
      ∙ ap (λ (l : List Object). l ++ each f cs) (adds c s)
      ∙ append_assoc (field s) (f c) (each f cs)

-- The listener hands to its seven setters, of the connections in their order: an entry for each one that
-- has statistics, the transports of those, the media sources of the kind `audio`, all other media
-- sources, and the audio playouts, senders and receivers of every connection. Each media source
-- stands in one of the two lists, and nothing is left out or repeated.
pub collect-each :
    (capitalize : String → String) (cs : List PeerConnection)
    → let s = collect capitalize cs in
      (s.pcs ≡ each (pcs_of capitalize) cs)
      × (s.transports ≡ each transports_of cs)
      × (s.audio_sources ≡ each (λ c. select is_audio c.media_sources) cs)
      × (s.video_sources ≡ each (λ c. select (λ m. not (is_audio m)) c.media_sources) cs)
      × (s.audio_playouts ≡ each (λ c. c.audio_playouts) cs)
      × (s.senders ≡ each (λ c. c.senders) cs)
      × (s.receivers ≡ each (λ c. c.receivers) cs)
unfolding collect
collect-each capitalize cs =
    let adds = push_connection-Adds capitalize in
    (
      push_all-each capitalize (λ s. s.pcs) _ (λ c s. (adds c s).0) cs nothing,
      push_all-each capitalize (λ s. s.transports) _ (λ c s. (adds c s).1) cs nothing,
      push_all-each capitalize (λ s. s.audio_sources) _ (λ c s. (adds c s).2) cs nothing,
      push_all-each capitalize (λ s. s.video_sources) _ (λ c s. (adds c s).3) cs nothing,
      push_all-each capitalize (λ s. s.audio_playouts) _ (λ c s. (adds c s).4) cs nothing,
      push_all-each capitalize (λ s. s.senders) _ (λ c s. (adds c s).5) cs nothing,
      push_all-each capitalize (λ s. s.receivers) _ (λ c s. (adds c s).6) cs nothing,
    )
