-- ===== src/Webapp/ServerConnection.antt =====
-- `ServerConnection` of webapp/src/contexts/ServerConnection.tsx: the web application's connection to
-- the SFU. Web sockets and the promises of requests are numbers; what a listener of `on` does is an
-- `L`, which is returned for its owner to run. What callers see of a rejected promise is not recorded.
pub mod Receiving
pub mod Buffering
pub mod Bounded
pub mod Conserving
pub mod Draining
pub mod Retrying
pub mod Resolving
use demo_app.Base.{
  String, ◌==◌, ℕ, suc, ◌-◌, List, [], ◌∷◌, ◌++◌, Bool, true, false, ◌&&◌, Option, none, some,
  if◌then◌else◌, ltb, length, select,
}
use demo_app.Base.JsMap
use demo_app.Base.JsMap.{JsMap}
use demo_app.Protocol.Messages.{Message, type_of, request_id_of}
use demo_app.Protocol.Codec.{Frame}

-- A number of the configuration. A negative one means that there is no limit.
pub data Limit : Type 0 where
  negative : Limit
  limit : ℕ → Limit

-- `0 < bound && bound < n`
unfoldable pub exceeds : Limit → ℕ → Bool
exceeds negative n = false
exceeds (limit bound) n = ltb 0 bound && ltb bound n

-- `maxBufferSize < 0 || buffer.length < maxBufferSize`
unfoldable pub has_room : Limit → ℕ → Bool
has_room negative n = true
has_room (limit bound) n = ltb n bound

pub record ServerConnectionConfig : Type 0 where
  pub max_retry : Limit
  pub max_buffer_time_in_ms : Limit
  pub max_buffer_size : Limit

-- `_connecting`: undefined, or a promise. The promise of the first attempt is never settled by a later
-- attempt that is rejected.
pub data Connecting : Type 0 where
  undefined : Connecting
  dialing : (socket retried : ℕ) → Connecting
  pausing : (retried : ℕ) → Connecting
  unsettled : Connecting

pub record Buffered : Type 0 where
  pub message : Message
  pub timestamp : ℕ

pub data Listener {ℓ} (L : Type ℓ) : Type ℓ where
  resolve_request : Listener L
  handler : L → Listener L

pub record Registered {ℓ} (L : Type ℓ) : Type ℓ where
  pub event : String
  pub listener : Listener L

pub record ServerConnection {ℓ} (L : Type ℓ) : Type ℓ where
  pub config : ServerConnectionConfig
  pub listeners : List (Registered L)
  pub ws : Option ℕ
  pub connecting : Connecting
  pub requests : JsMap ℕ
  -- `_timer` is defined.
  pub timer : Bool
  -- Its callback is still to come.
  pub ticking : Bool
  pub buffer : List Buffered
  pub next_socket : ℕ
  pub next_promise : ℕ
  -- What was given to the web socket's `send`, in order.
  pub wire : List Message
  -- The promises that were resolved, each with its response, in order.
  pub resolved : List (ℕ × Message)

-- The responses that the constructor registers `resolveRequest` for.
abbrev pub resolvable : List String
resolvable =
    "get-client-stats-response" ∷ "create-producer-response" ∷ "get-router-capabilities-response"
    ∷ "pause-producer-response" ∷ "create-transport-response" ∷ "join-call-response" ∷ []

pub data Event : Type 0 where
  connect_called has_opened has_failed has_waited : Event
  has_ticked : (now : ℕ) → Event
  sent : (now : ℕ) → Message → Event
  requested : (now : ℕ) → (request_id : String) → Message → Event
  received : Frame → Event

module _ {ℓ} {L : Type ℓ} where
  abbrev pub resolvers : List String → List (Registered L)
  resolvers [] = []
  resolvers (e ∷ es) = record { event = e; listener = resolve_request } ∷ resolvers es

  unfoldable pub init : ServerConnectionConfig → ServerConnection L
  init config = record {
    config = config;
    listeners = resolvers resolvable;
    ws = none;
    connecting = undefined;
    requests = JsMap.empty;
    timer = false;
    ticking = false;
    buffer = [];
    next_socket = 0;
    next_promise = 0;
    wire = [];
    resolved = [];
  }

  unfoldable pub on : String → L → ServerConnection L → ServerConnection L
  on event l s = record s {
    listeners = s.listeners ++ record { event = event; listener = handler l } ∷ [];
  }

  -- `new WebSocket` with its listeners.
  unfoldable pub dial : ℕ → ServerConnection L → ServerConnection L
  dial retried s = record s {
    connecting = dialing s.next_socket retried;
    next_socket = suc s.next_socket;
  }

  unfoldable pub connect : ServerConnection L → ServerConnection L
  unfolding dial
  connect s = elim s.ws [ some w ↦ s | none ↦ elim s.connecting [ undefined ↦ dial 0 s | _ ↦ s ] ]

  unfoldable pub opened : ServerConnection L → ServerConnection L
  opened s = elim s.connecting [
    | dialing w retried ↦ record s { ws = some w; connecting = undefined }
    | _ ↦ s
  ]

  unfoldable pub failed : ServerConnection L → ServerConnection L
  unfolding exceeds
  failed s = elim s.connecting [
    | dialing w retried ↦ record s {
      connecting = if exceeds s.config.max_retry retried then unsettled else pausing (suc retried);
    }
    | _ ↦ s
  ]

  -- The wait before the next attempt is over.
  unfoldable pub retry : ServerConnection L → ServerConnection L
  unfolding dial
  retry s = elim s.connecting [ pausing retried ↦ dial retried s | _ ↦ s ]

  -- A message that cannot be sent yet.
  unfoldable pub keep : ℕ → Message → ServerConnection L → ServerConnection L
  unfolding has_room
  keep now m s = record s {
    buffer =
        if has_room s.config.max_buffer_size (length s.buffer)
        then s.buffer ++ record { message = m; timestamp = now } ∷ []
        else s.buffer;
    timer = true;
    ticking = if s.timer then s.ticking else true;
  }

  unfoldable pub send_message : ℕ → Message → ServerConnection L → ServerConnection L
  unfolding keep
  send_message now m s = elim s.ws [
    | none ↦ keep now m s
    | some w ↦ record s { wire = s.wire ++ m ∷ [] }
  ]

  -- The loop over what was buffered.
  unfoldable pub resend : ℕ → List Buffered → ServerConnection L → ServerConnection L
  unfolding exceeds send_message
  resend now [] s = s
  resend now (b ∷ bs) s = resend now bs (
      if exceeds s.config.max_buffer_time_in_ms (now - b.timestamp)
      then s
      else send_message now b.message s)

  -- The callback of the timer.
  unfoldable pub ticked : ℕ → ServerConnection L → ServerConnection L
  unfolding resend
  ticked now s =
      if s.ticking
      then (elim s.ws [
        | none ↦ s
        | some w ↦ resend now s.buffer (record s { buffer = []; ticking = false })
      ])
      else s

  -- The promise of a request is the next number.
  unfoldable pub pend : String → ServerConnection L → ServerConnection L
  pend request_id s = record s {
    requests = JsMap.set request_id s.next_promise s.requests;
    next_promise = suc s.next_promise;
  }

  -- `request`, for a message with a request id.
  unfoldable pub request : ℕ → String → Message → ServerConnection L → ServerConnection L
  unfolding pend send_message
  request now request_id m s = send_message now m (pend request_id s)

  -- `resolveRequest`. The entry stays.
  unfoldable pub resolve : Message → Option String → ServerConnection L → ServerConnection L
  resolve m none s = s
  resolve m (some i) s = elim (JsMap.get i s.requests) [
    | none ↦ s
    | some p ↦ record s { resolved = s.resolved ++ (p, m) ∷ [] }
  ]

  unfoldable pub notify : Message → Listener L → ServerConnection L → ServerConnection L
  unfolding resolve
  notify m resolve_request s = resolve m (request_id_of m) s
  notify m (handler l) s = s

  abbrev heard : Listener L → List L
  heard resolve_request = []
  heard (handler l) = l ∷ []

  -- `emit`: the listeners of the message's type, in order.
  unfoldable pub emit :
      Message → List (Registered L) → ServerConnection L → ServerConnection L × List L
  unfolding notify
  emit m [] s = (s, [])
  emit m (r ∷ rs) s =
      let here = r.event == type_of m in
      let (s', ls) = emit m rs (if here then notify m r.listener s else s) in
      (s', if here then heard r.listener ++ ls else ls)

  -- `ws.onmessage`, none where it throws. A frame that lacks a field of its class is not modelled.
  unfoldable pub receive : Frame → ServerConnection L → Option (ServerConnection L × List L)
  unfolding emit
  receive Frame.unparsable s = none
  receive Frame.null_value s = none
  receive (Frame.message m) s = some (emit m s.listeners s)
  receive _ s = some (s, [])

  abbrev or_same : ServerConnection L → Option (ServerConnection L × List L) → ServerConnection L
  or_same s none = s
  or_same s (some (t, ls)) = t

  -- A message comes over the web socket; an exception leaves everything as it is.
  unfoldable pub deliver : Frame → ServerConnection L → ServerConnection L
  unfolding receive
  deliver f s = or_same s (receive f s)

  unfoldable pub step : Event → ServerConnection L → ServerConnection L
  unfolding connect opened failed retry ticked send_message request deliver
  step connect_called s = connect s
  step has_opened s = opened s
  step has_failed s = failed s
  step has_waited s = retry s
  step (has_ticked now) s = ticked now s
  step (sent now m) s = send_message now m s
  step (requested now i m) s = request now i m s
  step (received f) s = elim s.ws [ none ↦ s | some w ↦ deliver f s ]

  unfoldable pub run : List Event → ServerConnection L → ServerConnection L
  unfolding step
  run [] s = s
  run (e ∷ es) s = run es (step e s)
