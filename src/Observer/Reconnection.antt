-- ===== src/Observer/Reconnection.antt =====
-- A client of the observer that loses its web socket and comes back over another one
-- (observer/src/sources/ObservedClients.ts).
use demo_app.Base.{
  String, ℕ, ◌-◌, ◌+◌, ◌≤◌, ◌<◌, ◌∷◌, ◌≡◌, ◌≢◌, refl, sym, ◌∙◌, ap, Option, none, some, arith, All,
  eqb, select, not,
}
use demo_app.Base.JsMap.{get, values}
use demo_app.Observer.Sources
use demo_app.Observer.Sources.{
  Peer, Socket, Sources, accept, check, is_expired, is_disconnected, close_each,
}
use demo_app.Observer.Sources.Checking.{get-check, check_each-Keyed, next_source-check_each}
use demo_app.Observer.Sources.Sockets.{
  IsValid, accept-IsValid, next_source-accept, next_source-disconnect, accept_lem, seated,
  close_each_second, disconnect-IsValid, get-disconnect,
}
use demo_app.Observer.ObservedClients.{on_disconnect, disconnect, socket_closed}

on_disconnect-id : (p : Peer) → (on_disconnect p).id ≡ p.id
unfolding on_disconnect
on_disconnect-id p = refl

-- A peer without a time of disconnection is not removed.
kept_live :
    (limit now : ℕ) (id : String) (p : Peer) (s : Sources)
    → IsValid s
    → get id s.peers ≡ some p
    → p.disconnected ≡ none
    → get id (check limit now s).peers ≡ some p
kept_live limit now id p s v e live =
    get-check limit now id s v.distinct v.keyed ∙ rw e (ground arith)

-- One that has not been disconnected for longer than the limit is neither.
kept_early :
    (limit now since : ℕ) (id : String) (p : Peer) (s : Sources)
    → IsValid s
    → get id s.peers ≡ some p
    → p.disconnected ≡ some since
    → now ≤ since + limit
    → get id (check limit now s).peers ≡ some p
kept_early limit now since id p s v e gone early =
    get-check limit now id s v.distinct v.keyed ∙ rw e (ground arith)

-- A peer that has been disconnected for too long is.
removed_late :
    (limit now since : ℕ) (id : String) (p : Peer) (s : Sources)
    → IsValid s
    → get id s.peers ≡ some p
    → p.disconnected ≡ some since
    → 0 < since
    → limit < now - since
    → get id (check limit now s).peers ≡ none
removed_late limit now since id p s v e gone pos late =
    get-check limit now id s v.distinct v.keyed ∙ rw e (ground arith)

-- The state after a client has come over `w`, then over `v`, and `w` then closes.
abbrev pub overtaken : ℕ → String → ℕ → ℕ → Sources → Sources
overtaken now id w v s = socket_closed now w (accept id v (accept id w s))

seated_fields :
    (id : String) (w n : ℕ) (o : Option Peer)
    → ((seated id w n o).disconnected ≡ none) × ((seated id w n o).web_socket ≡ some w)
seated_fields id w n none = (refl, refl)
seated_fields id w n (some p) = (refl, refl)

-- The second client's state, with the attachments of `w` gone.
abbrev detached : String → ℕ → ℕ → Sources → Sources
detached id w v s =
    let t = accept id v (accept id w s) in
    record t { sockets = select (λ k. not (eqb k.web_socket w)) t.sockets }

overtaken_lem :
    (now : ℕ) (id : String) (w v : ℕ) (s : Sources)
    → IsValid s
    → w ≢ v
    → All (λ k. k.web_socket ≢ w) s.sockets
    → overtaken now id w v s ≡ disconnect now id (detached id w v s)
unfolding socket_closed disconnect
overtaken_lem now id w v s valid n absent =
    let second = accept_lem id v (accept id w s) (accept-IsValid id w s valid) in
    let first = accept_lem id w s valid in
    let source : ℕ =
      (seated id v (accept id w s).next_source (get id (accept id w s).peers)).source in
    let head : Socket = record { web_socket = v; peer_id = id; source = source } in
    close_each_second on_disconnect now w _ _ s.sockets _ (detached id w v s)
      (second.1 ∙ ap (λ ks. head ∷ ks) first.1) (λ e. n (sym e)) refl absent

-- A client that comes back over a second web socket before the first one closes is marked as
-- disconnected when the first one does, although it holds the second one; once that is longer ago
-- than the limit, `check` removes the client.
pub overtaken-check :
    (now later limit : ℕ) (id : String) (w v : ℕ) (s : Sources)
    → IsValid s
    → w ≢ v
    → All (λ k. k.web_socket ≢ w) s.sockets
    → 0 < now
    → limit < later - now
    → ((p : Peer) × (get id (overtaken now id w v s).peers ≡ some p)
        × (p.web_socket ≡ some v)
        × (p.disconnected ≡ some now))
      × (get id (check limit later (overtaken now id w v s)).peers ≡ none)
unfolding disconnect on_disconnect
overtaken-check now later limit id w v s valid n absent pos late =
    let s' = accept id w s in
    let p = seated id v s'.next_source (get id s'.peers) in
    let fields = seated_fields id v s'.next_source (get id s'.peers) in
    let valid' = accept-IsValid id v s' (accept-IsValid id w s valid) in
    let u = detached id w v s in
    let valid_u : IsValid u = record { distinct = valid'.distinct; keyed = valid'.keyed } in
    let marked =
      get-disconnect on_disconnect now id p u (accept_lem id v s' (accept-IsValid id w s valid)).0
        fields.0 in
    rw (overtaken_lem now id w v s valid n absent) (
      (record p { disconnected = some now }, marked, fields.1, refl),
      removed_late limit later now id _ _
          (disconnect-IsValid on_disconnect now id u on_disconnect-id valid_u) marked refl pos late,
    )

check-IsValid : (limit now : ℕ) (s : Sources) → IsValid s → IsValid (check limit now s)
unfolding check
check-IsValid limit now s v =
    let kept = check_each-Keyed limit now (values s.peers) s (v.distinct, v.keyed) in
    record { distinct = kept.0; keyed = kept.1 }

next_source-check : (limit now : ℕ) (s : Sources) → (check limit now s).next_source ≡ s.next_source
unfolding check
next_source-check limit now s = next_source-check_each limit now (values s.peers) s

-- A client whose web socket closes at `now` is found by a `check` at most the limit later, comes back
-- over another web socket, and is found by a `check` at any later time: it is there, connected over
-- that web socket, with the source that it had, and no new source is made.
pub disconnect-accept :
    (now soon later limit : ℕ) (id : String) (w : ℕ) (p : Peer) (s : Sources)
    → IsValid s
    → get id s.peers ≡ some p
    → p.disconnected ≡ none
    → soon ≤ now + limit
    → let back = accept id w (check limit soon (disconnect now id s)) in
      (get id (check limit later back).peers
        ≡ some (record p { disconnected = none; web_socket = some w }))
      × (back.next_source ≡ s.next_source)
unfolding disconnect on_disconnect
disconnect-accept now soon later limit id w p s valid e live in_time =
    let gone = Sources.disconnect on_disconnect now id s in
    let valid_gone = disconnect-IsValid on_disconnect now id s on_disconnect-id valid in
    let marked = get-disconnect on_disconnect now id p s e live in
    let u = check limit soon gone in
    let valid_u = check-IsValid limit soon gone valid_gone in
    let found = kept_early limit soon now id _ gone valid_gone marked refl in_time in
    (
      kept_live limit later id (record p { disconnected = none; web_socket = some w })
          (accept id w u) (accept-IsValid id w u valid_u) ((accept_lem id w u valid_u).0 ∙ rw found)
          refl,
      next_source-accept id w _ u found
          ∙ next_source-check limit soon gone
          ∙ next_source-disconnect on_disconnect now id s,
    )
