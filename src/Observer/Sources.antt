-- ===== src/Observer/Sources.antt =====
-- What observer/src/sources/ObservedClients.ts and ObservedSfus.ts have in common: peers (clients or
-- SFUs) by their id, each with a source of the observer library, and the web sockets that they send
-- their samples over. The two files differ in the query that they accept and in what `_disconnect`
-- assigns, which is the argument `on_disconnect` here.
--
-- Sources and web sockets are numbers; a source's `closed` flag is kept in the list of the closed
-- ones. The time is an argument. Calls of the observer library and of the web sockets are effects, the
-- newest first.
pub mod Checking
pub mod Sockets
use demo_app.Base.{
  String, ℕ, suc, ◌-◌, List, [], ◌∷◌, ◌||◌, Bool, true, false, not, ◌&&◌, Option, none, some,
  if◌then◌else◌, eqb, ltb, select,
}
use demo_app.Base.JsMap
use demo_app.Base.JsMap.{JsMap}

pub record Peer : Type 0 where
  pub id : String
  pub source : ℕ
  pub disconnected : Option ℕ
  pub web_socket : Option ℕ

-- The two listeners that `_setup` leaves on a web socket, with the variables that they close over.
pub record Socket : Type 0 where
  pub web_socket : ℕ
  pub peer_id : String
  pub source : ℕ

pub data Effect : Type 0 where
  -- `webSocket.close(4001, …)`
  refused : (web_socket : ℕ) → Effect
  source_created : (id : String) (source : ℕ) → Effect
  -- `source.accept` of a decoded sample.
  accepted : (source : ℕ) (sample : String) → Effect
  source_closed : (source : ℕ) → Effect

pub record Sources : Type 0 where
  pub peers : JsMap Peer
  pub sockets : List Socket
  pub next_source : ℕ
  pub closed : List ℕ
  pub effects : List Effect

unfoldable pub init : Sources
init = record { peers = JsMap.empty; sockets = []; next_source = 0; closed = []; effects = [] }

abbrev pub contains : ℕ → List ℕ → Bool
contains n [] = false
contains n (m ∷ ms) = eqb m n || contains n ms

-- `_setup`
unfoldable pub setup : Peer → ℕ → Sources → Sources
setup p web_socket s = record s {
  peers = JsMap.set p.id (record p { disconnected = none; web_socket = some web_socket }) s.peers;
  sockets = record { web_socket = web_socket; peer_id = p.id; source = p.source } ∷ s.sockets;
}

abbrev pub new_peer : String → ℕ → Peer
new_peer id source = record { id = id; source = source; disconnected = none; web_socket = none }

-- A peer that is not there is made first, with a new source.
unfoldable pub create : String → ℕ → Sources → Sources
unfolding setup
create id web_socket s = setup (new_peer id s.next_source) web_socket (record s {
  next_source = suc s.next_source;
  effects = Effect.source_created id s.next_source ∷ s.effects;
})

-- `accept` behind the check of the query.
unfoldable pub accept : String → ℕ → Sources → Sources
unfolding setup create
accept id web_socket s = elim (JsMap.get id s.peers) [
  | some existing ↦ setup existing web_socket s
  | none ↦ create id web_socket s
]

unfoldable pub refuse : ℕ → Sources → Sources
refuse web_socket s = record s { effects = Effect.refused web_socket ∷ s.effects }

-- `disconnected` as a condition: undefined and 0 are falsy.
unfoldable pub is_disconnected : Peer → Bool
is_disconnected p = elim p.disconnected [ none ↦ false | some t ↦ ltb 0 t ]

unfoldable pub close_source : ℕ → Sources → Sources
close_source n s =
    if contains n s.closed
    then s
    else record s { closed = n ∷ s.closed; effects = Effect.source_closed n ∷ s.effects }

-- `_remove`
unfoldable pub remove : String → Sources → Sources
unfolding close_source
remove id s = elim (JsMap.get id s.peers) [
  | none ↦ s
  | some p ↦ close_source p.source (record s { peers = JsMap.delete id s.peers })
]

-- `now - observedClient.disconnected` exceeds the limit. A clock that went back does not.
unfoldable pub is_expired : ℕ → ℕ → Peer → Bool
is_expired limit now p = elim p.disconnected [
  | none ↦ false
  | some t ↦ ltb 0 t && ltb limit (now - t)
]

-- `check`
unfoldable pub check_each : ℕ → ℕ → List Peer → Sources → Sources
check_each limit now [] s = s
check_each limit now (p ∷ ps) s =
    check_each limit now ps (if is_expired limit now p then remove p.id s else s)

unfoldable pub check : ℕ → ℕ → Sources → Sources
unfolding check_each is_expired remove
check limit now s = check_each limit now (JsMap.values s.peers) s

module _ (on_disconnect : Peer → Peer) where
  -- `_disconnect`
  unfoldable pub disconnect : ℕ → String → Sources → Sources
  unfolding is_disconnected
  disconnect now id s = elim (JsMap.get id s.peers) [
    | none ↦ s
    | some p ↦ if is_disconnected p then s else record s {
      peers = JsMap.set id (on_disconnect (record p { disconnected = some now })) s.peers;
    }
  ]

  unfoldable pub disconnect_each : ℕ → List String → Sources → Sources
  unfolding disconnect
  disconnect_each now [] s = s
  disconnect_each now (id ∷ ids) s = disconnect_each now ids (disconnect now id s)

  -- `clear`
  unfoldable pub clear : ℕ → Sources → Sources
  unfolding disconnect_each
  clear now s = record (disconnect_each now (JsMap.keys s.peers) s) { peers = JsMap.empty }

  -- The `close` listener of each attachment of a web socket.
  unfoldable pub close_each : ℕ → ℕ → List Socket → Sources → Sources
  unfolding disconnect
  close_each now w [] s = s
  close_each now w (k ∷ ks) s =
      close_each now w ks (if eqb k.web_socket w then disconnect now k.peer_id s else s)

  -- A web socket closes: its listeners go, and those of `close` run.
  unfoldable pub socket_closed : ℕ → ℕ → Sources → Sources
  unfolding close_each
  socket_closed now w s =
      close_each now w s.sockets
        (record s { sockets = select (λ k. not (eqb k.web_socket w)) s.sockets })

-- The `message` listeners of a web socket; the sample stands for its decoding.
unfoldable pub message : ℕ → String → List Socket → Sources → Sources
message w sample [] s = s
message w sample (k ∷ ks) s = message w sample ks (
    if eqb k.web_socket w
    then record s { effects = Effect.accepted k.source sample ∷ s.effects }
    else s)
