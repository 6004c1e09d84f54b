-- ===== src/Observer/Sources/Sockets.antt =====
-- Peers over several web sockets: what closing one of them does to a peer that has come back.
use demo_app.Base.{
  String, eq_iff, ℕ, suc, List, [], ◌∷◌, ◌≡◌, ◌≢◌, refl, ◌∙◌, Option, none, some, arith, Bool-cases,
  Option-cases, inl, inr, All,
}
use demo_app.Base.JsMap
use demo_app.Base.JsMap.{JsMap, Entry, get}
use demo_app.Base.JsMap.Keys.{Distinct, set-Distinct, set-Each, Each-get}
use demo_app.Observer.Sources.{
  Peer, Socket, Sources, Effect, setup, create, accept, new_peer, is_disconnected, disconnect,
  close_each,
}
use demo_app.Observer.Sources.Checking.{IsKeyed}

pub record IsValid (s : Sources) : Type 0 where
  pub distinct : Distinct s.peers.entries
  pub keyed : IsKeyed s.peers.entries

setup-IsValid : (p : Peer) (w : ℕ) (s : Sources) → IsValid s → IsValid (setup p w s)
unfolding setup
setup-IsValid p w s v = record {
  distinct = set-Distinct p.id _ s.peers v.distinct;
  keyed = set-Each (λ k q. q.id ≡ k) p.id _ s.peers refl v.keyed;
}

pub accept-IsValid : (id : String) (w : ℕ) (s : Sources) → IsValid s → IsValid (accept id w s)
unfolding accept create
accept-IsValid id w s v = elim (Option-cases (get id s.peers)) [
  | inl e ↦
      let made = record s {
        next_source = suc s.next_source;
        effects = Effect.source_created id s.next_source ∷ s.effects;
      } in
      rw (e, accept)
        (setup-IsValid (new_peer id s.next_source) w made
          (record { distinct = v.distinct; keyed = v.keyed }))
  | inr (p, e) ↦ rw (e, accept) (setup-IsValid p w s v)
]

-- The peer that `accept` leaves under the id.
abbrev pub seated : String → ℕ → ℕ → Option Peer → Peer
seated id w source none = record (new_peer id source) { web_socket = some w }
seated id w source (some p) = record p { disconnected = none; web_socket = some w }

setup-seated :
    (id : String) (p : Peer) (w : ℕ) (s : Sources)
    → p.id ≡ id
    → (get id (setup p w s).peers ≡ some (record p { disconnected = none; web_socket = some w }))
      × ((setup p w s).sockets
          ≡ record { web_socket = w; peer_id = id; source = p.source } ∷ s.sockets)
unfolding setup
setup-seated id p w s e = rw (← e) (
  ground (
    arith,
    JsMap.get-set p.id p.id (record p { disconnected = none; web_socket = some w }) s.peers,
    eq_iff p.id p.id,
  ),
  refl,
)

-- `accept` seats the peer under its id, the old one or a new one, and attaches the web socket.
pub accept_lem :
    (id : String) (w : ℕ) (s : Sources)
    → IsValid s
    → let p = seated id w s.next_source (get id s.peers) in
      (get id (accept id w s).peers ≡ some p)
      × ((accept id w s).sockets
          ≡ record { web_socket = w; peer_id = id; source = p.source } ∷ s.sockets)
unfolding accept create
accept_lem id w s v = elim (Option-cases (get id s.peers)) [
  | inl e ↦
      rw (e, accept)
        (setup-seated id (new_peer id s.next_source) w
          (record s {
            next_source = suc s.next_source;
            effects = Effect.source_created id s.next_source ∷ s.effects;
          })
          refl)
  | inr (p, e) ↦
      rw (e, accept)
        (setup-seated id p w s
          (unfold get in Each-get (λ k q. q.id ≡ k) id p s.peers.entries v.keyed e))
]

-- A peer that is there keeps its source: none is made.
pub next_source-accept :
    (id : String) (w : ℕ) (p : Peer) (s : Sources)
    → get id s.peers ≡ some p
    → (accept id w s).next_source ≡ s.next_source
unfolding accept setup
next_source-accept id w p s e = rw (e, accept)

module _ (on_disconnect : Peer → Peer) where
  pub next_source-disconnect :
      (now : ℕ) (id : String) (s : Sources)
      → (disconnect on_disconnect now id s).next_source ≡ s.next_source
  unfolding disconnect
  next_source-disconnect now id s = ground arith

  close_each_absent :
      (now w : ℕ) (ks : List Socket) (s : Sources)
      → All (λ k. k.web_socket ≢ w) ks
      → close_each on_disconnect now w ks s ≡ s
  unfolding close_each
  close_each_absent now w [] s h = refl
  close_each_absent now w (k ∷ ks) s h = ground (arith, close_each_absent now w ks s h.1, h.0)

  pub disconnect-IsValid :
      (now : ℕ) (id : String) (s : Sources)
      → ((p : Peer) → (on_disconnect p).id ≡ p.id)
      → IsValid s
      → IsValid (disconnect on_disconnect now id s)
  unfolding disconnect
  disconnect-IsValid now id s keeps v = elim (Option-cases (get id s.peers)) [
    | inl e ↦ rw (e, disconnect) v
    | inr (p, e) ↦ elim (Bool-cases (is_disconnected p)) [
      | inl gone ↦ rw (e, gone, disconnect) v
      | inr here ↦
          rw (e, here, disconnect)
            (record {
              distinct = set-Distinct id _ s.peers v.distinct;
              keyed =
                  set-Each (λ k q. q.id ≡ k) id _ s.peers
                    (keeps _
                      ∙ unfold get in Each-get (λ k q. q.id ≡ k) id p s.peers.entries v.keyed e)
                    v.keyed;
            })
    ]
  ]

  pub get-disconnect :
      (now : ℕ) (id : String) (p : Peer) (s : Sources)
      → get id s.peers ≡ some p
      → p.disconnected ≡ none
      → get id (disconnect on_disconnect now id s).peers
        ≡ some (on_disconnect (record p { disconnected = some now }))
  unfolding disconnect
  get-disconnect now id p s e live =
      rw (e, disconnect)
        (ground (
          arith,
          JsMap.get-set id id (on_disconnect (record p { disconnected = some now })) s.peers,
          eq_iff id id,
          live,
        ))

  -- Of the attachments, the second alone is of the web socket that closes.
  pub close_each_second :
      (now w : ℕ) (a b : Socket) (ks js : List Socket) (s : Sources)
      → js ≡ a ∷ b ∷ ks
      → a.web_socket ≢ w
      → b.web_socket ≡ w
      → All (λ k. k.web_socket ≢ w) ks
      → close_each on_disconnect now w js s ≡ disconnect on_disconnect now b.peer_id s
  unfolding close_each
  close_each_second now w a b ks js s e other this absent =
      rw (e, close_each)
        (ground (
          arith,
          other,
          this,
          close_each_absent now w ks (disconnect on_disconnect now b.peer_id s) absent,
        ))
