-- ===== src/Sfu/ClientEvents.antt =====
-- `ClientEvents` of sfu/src/media/ClientEvents.ts: the listeners of one client's web socket, over
-- Node's `EventEmitter`. A listener is an `L`; what is fired is returned, for the owner to run.
pub mod Closing
pub mod Firing
use demo_app.Base.{
  String, ◌==◌, ℕ, ◌<◌, List, [], ◌∷◌, ◌++◌, map, Bool, true, false, not, ◌&&◌, if◌then◌else◌,
  length, select, ltb,
}
use demo_app.Protocol.Codec.{Frame}
use demo_app.Protocol.Messages.{type_of}

pub record Listener {ℓ} (L : Type ℓ) : Type ℓ where
  pub event : String
  pub once : Bool
  pub handler : L

pub record ClientEvents {ℓ} (L : Type ℓ) : Type ℓ where
  pub closed : Bool
  pub listeners : List (Listener L)

-- What the listener of the web socket's messages does with one of them.
pub data Received {ℓ} (L : Type ℓ) : Type ℓ where
  -- It logs a warning and returns.
  ignored : Received L
  -- An exception leaves it.
  thrown : Received L
  fired : List L → Received L

module _ {ℓ} {L : Type ℓ} where
  unfoldable pub init : ClientEvents L
  init = record { closed = false; listeners = [] }

  unfoldable pub on : String → L → ClientEvents L → ClientEvents L
  on event h e = record e {
    listeners = e.listeners ++ record { event = event; once = false; handler = h } ∷ [];
  }

  unfoldable pub once : String → L → ClientEvents L → ClientEvents L
  once event h e = record e {
    listeners = e.listeners ++ record { event = event; once = true; handler = h } ∷ [];
  }

  abbrev pub listens : String → List (Listener L) → List (Listener L)
  listens event = select (λ l. l.event == event)

  unfoldable pub listener_count : String → ClientEvents L → ℕ
  listener_count event e = length (listens event e.listeners)

  -- `emit`: the listeners of the event run in their order, and those that `once` added are gone.
  unfoldable pub emit : String → ClientEvents L → ClientEvents L × List L
  emit event e = (
    record e { listeners = select (λ l. not (l.event == event && l.once)) e.listeners },
    map (λ l. l.handler) (listens event e.listeners),
  )

  -- Whether `send` hands a message to the web socket.
  unfoldable pub can_send : ClientEvents L → Bool
  can_send e = not e.closed

  receive_typed : String → ClientEvents L → ClientEvents L × Received L
  unfolding listener_count emit
  receive_typed type e =
      let (e', hs) = emit type e in
      if ltb 0 (listener_count type e) then (e', fired hs) else (e, ignored)

  unfoldable pub receive : Frame → ClientEvents L → ClientEvents L × Received L
  unfolding receive_typed
  receive Frame.unparsable e = (e, ignored)
  receive Frame.null_value e = (e, thrown)
  receive Frame.untyped e = (e, ignored)
  receive (Frame.message m) e = receive_typed (type_of m) e
  receive (Frame.named type) e = receive_typed type e

  -- `close`: the flag is set, the listeners of `close` run, and all listeners go.
  unfoldable pub close : ClientEvents L → ClientEvents L × List L
  unfolding emit
  close e =
      if e.closed
      then (e, [])
      else (record { closed = true; listeners = [] }, (emit "close" (record e { closed = true })).1)

  -- The web socket's own `close` event.
  unfoldable pub socket_closed : ClientEvents L → ClientEvents L × List L
  unfolding close
  socket_closed e = if e.closed then (e, []) else close e
