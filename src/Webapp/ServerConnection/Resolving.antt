-- ===== src/Webapp/ServerConnection/Resolving.antt =====
-- Which responses resolve the promises of `request` in webapp/src/contexts/ServerConnection.tsx, and
-- what the responses of the SFU (sfu/src/media/Room.ts) do there.
use demo_app.Base.{
  String, ◌==◌, ℕ, List, [], ◌∷◌, ◌++◌, ◌≡◌, refl, ap, ◌∙◌, Bool, true, false, some, arith,
  if◌then◌else◌, inl, inr, ◌⊎◌, subst,
}
use demo_app.Base.JsMap
use demo_app.Protocol.Messages.{
  Message, type_of, category_of, Category, request, response, notification, request_id_of,
}
use demo_app.Protocol.Codec.{frame_of, to_json}
use demo_app.Protocol.Codec.RoundTrip.{frame_of-to_json}
use demo_app.Sfu.Room.State.{Effect, RoomConfig, Router}
use demo_app.Sfu.Room.Step
use demo_app.Sfu.Room.Silence.{Spoken, run-Spoken}
use demo_app.Sfu.Room.Moves.{speaks}
use demo_app.Webapp.ServerConnection.{
  ServerConnection, Registered, Listener, resolvers, resolvable, notify, resolve, emit, receive,
  deliver,
}

abbrev is_response : Category → Bool
is_response request = false
is_response response = true
is_response notification = false

-- A response that a promise can wait for: any but the one to a request to resume.
unfoldable pub awaits : Message → Bool
awaits (Message.resume_producer_response i) = false
awaits m = is_response (category_of m)

module _ {ℓ} {L : Type ℓ} where
  -- The listeners that `on` adds.
  abbrev pub handlers : List (String × L) → List (Registered L)
  handlers [] = []
  handlers ((e, l) ∷ hs) = record { event = e; listener = Listener.handler l } ∷ handlers hs

  -- The listeners of a connection that `on` was called for any number of times.
  abbrev pub IsListening : List (String × L) → ServerConnection L → Type ℓ
  IsListening hs s = s.listeners ≡ resolvers resolvable ++ handlers hs

  emit-append :
      (m : Message) (rs qs : List (Registered L)) (s : ServerConnection L)
      → (emit m (rs ++ qs) s).0 ≡ (emit m qs (emit m rs s).0).0
  unfolding emit
  emit-append m [] qs s = refl
  emit-append m (r ∷ rs) qs s =
      emit-append m rs qs (if r.event == type_of m then notify m r.listener s else s)

  emit-handlers :
      (m : Message) (hs : List (String × L)) (s : ServerConnection L)
      → (emit m (handlers hs) s).0 ≡ s
  unfolding emit notify
  emit-handlers m [] s = refl
  emit-handlers m ((e, l) ∷ hs) s = ground (arith, emit-handlers m hs s)

  emit-resolvers :
      (m : Message) (s : ServerConnection L)
      → (emit m (resolvers resolvable) s).0
        ≡ (if awaits m then resolve m (request_id_of m) s else s)
  unfolding emit notify awaits type_of category_of
  emit-resolvers (Message.resume_producer_response i) s = refl
  emit-resolvers _ s = refl

-- A message of the protocol that comes to a connection resolves the promise of the request with its
-- id if it is a response other than to a request to resume; it changes nothing else, and any other
-- message changes nothing.
pub deliver-resolve :
    (L : Type 0) (hs : List (String × L)) (m : Message) (s : ServerConnection L)
    → IsListening hs s
    → deliver (frame_of (some (to_json m))) s
      ≡ (if awaits m then resolve m (request_id_of m) s else s)
unfolding deliver receive
deliver-resolve L hs m s on =
    ap (λ f. deliver f s) (frame_of-to_json m)
    ∙ ap (λ l. (emit m l s).0) on
    ∙ emit-append m (resolvers resolvable) (handlers hs) s
    ∙ emit-handlers m hs (emit m (resolvers resolvable) s).0
    ∙ emit-resolvers m s

-- Of the classes that a room sends, those that are responses are awaited.
speaks-awaits : (m : Message) → speaks m ≡ true → category_of m ≡ response → awaits m ≡ true
unfolding awaits category_of
speaks-awaits (Message.resume_producer_response i) s r = absurd (cc)
speaks-awaits _ s r = ground arith

-- A message among those that a room has sent.
abbrev pub IsSent : ℕ → Message → List Effect → Type 0
IsSent h m [] = ⊥
IsSent h m (e ∷ es) = (e ≡ Effect.sent h m) ⊎ IsSent h m es

Spoken-tail : (e : Effect) (es : List Effect) → Spoken (e ∷ es) → Spoken es
Spoken-tail (Effect.sent h m) es v = v.1
Spoken-tail _ es v = v

IsSent-speaks :
    (h : ℕ) (m : Message) (es : List Effect) → Spoken es → IsSent h m es → speaks m ≡ true
IsSent-speaks h m [] v i = absurd i
IsSent-speaks h m (e ∷ es) v i = elim i [
  | inl here ↦ (subst (λ x. Spoken (x ∷ es)) here v).0
  | inr there ↦ IsSent-speaks h m es (Spoken-tail e es v) there
]

-- Every response that a room sends in any run resolves, at a connection that is waiting for its id,
-- the promise of that request with that response, whatever listeners the connection has besides.
pub IsSent-resolved :
    (L : Type 0) (hs : List (String × L)) (config : RoomConfig) (router : Router)
    (sign : String → String → String → ℕ → String) (es : List (ℕ × Step.Event)) (h : ℕ)
    (m : Message) (i : String) (p : ℕ) (s : ServerConnection L)
    → IsSent h m (Step.run es (Step.init config router sign)).effects
    → category_of m ≡ response
    → request_id_of m ≡ some i
    → IsListening hs s
    → JsMap.get i s.requests ≡ some p
    → deliver (frame_of (some (to_json m))) s ≡ record s { resolved = s.resolved ++ (p, m) ∷ [] }
unfolding resolve
IsSent-resolved L hs config router sign es h m i p s sent_it is_resp id on pending =
    let spoken = run-Spoken config router sign es in
    let waits : awaits m ≡ true = speaks-awaits m (IsSent-speaks h m _ spoken sent_it) is_resp in
    deliver-resolve L hs m s on ∙ rw (waits, id) (ground arith)
