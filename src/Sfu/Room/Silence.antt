-- ===== src/Sfu/Room/Silence.antt =====
-- What a room sends, and to whom (sfu/src/media/Room.ts).
use demo_app.Base.{
  ℕ, List, [], ◌∷◌, ◌≡◌, refl, sym, ◌∙◌, true, some, arith, eqb, if◌then◌else◌, Bool-cases, inl,
  inr, get_elem?-append_left, ℕ_discrete, ap, String, subst,
}
use demo_app.Protocol.Messages.{Message}
use demo_app.Protocol.Codec.{Frame}
use demo_app.Sfu.ClientEvents
use demo_app.Sfu.ClientEvents.Closing.{socket_closed-closed}
use demo_app.Sfu.Room.State.{
  Client, Room, RoomConfig, Router, Effect, sent, client_at, record_effect, await, modify, close,
  Handler,
}
use demo_app.Sfu.Room.State.Frames.{modify_frame, client_at-modify_self, client_at-modify_ne}
use demo_app.Sfu.Room.Handlers.{remove_client}
use demo_app.Sfu.Room.Step.{add, init, Event, step, run, socket_closed, set_events, run_handlers}
use demo_app.Sfu.Room.Moves.{
  Move, speaking, calling, awaiting, resuming, changing, joining, leaving, closing, losing_router,
  Keeps, Moves, stay, next, is_call, speaks, Moves-trans,
}
use demo_app.Sfu.Room.Moves.Events.{run_handlers-Moves}
use demo_app.Sfu.Room.Moves.Steps.{run-Moves}

-- The messages that were sent to a client, the newest first.
unfoldable pub sent_to : ℕ → List Effect → List Message
sent_to h [] = []
sent_to h (sent k m ∷ es) = let rest = sent_to h es in if eqb k h then m ∷ rest else rest
sent_to h (_ ∷ es) = sent_to h es

sent_to-call :
    (h : ℕ) (e : Effect) (es : List Effect) → is_call e ≡ true → sent_to h (e ∷ es) ≡ sent_to h es
unfolding sent_to
sent_to-call h (sent k m) es s = absurd (cc)
sent_to-call h Effect.unhandled es s = refl
sent_to-call h _ es s = refl

-- A client whose events are closed.
abbrev pub IsShut : ℕ → Room → Type 0
IsShut h r = (c : Client) × (client_at h r ≡ some c) × (c.events.closed ≡ true)

abbrev Quiet : ℕ → Room → Room → Type 0
Quiet h r s = IsShut h s × (sent_to h s.effects ≡ sent_to h r.effects)

changing-Quiet :
    (h k : ℕ) (f : Client → Client) (d : Client) (r : Room)
    → client_at k r ≡ some d
    → Keeps d (f d)
    → IsShut h r
    → Quiet h r (modify k f r)
changing-Quiet h k f d r e keep (c, at, shut) = elim (ℕ_discrete k h) [
  | yes p ↦
      let same : client_at h r ≡ some d = rw (← p) e in
      let shut' : d.events.closed ≡ true = ground arith in
      (
        (f d, rw (← p) (client_at-modify_self k f d r e), keep.stays_closed shut'),
        ap (sent_to h) (modify_frame k f r).0,
      )
  | no n ↦ ((c, client_at-modify_ne k h f r n ∙ at, shut), ap (sent_to h) (modify_frame k f r).0)
]

Move-Quiet : (h : ℕ) {r s : Room} → Move r s → IsShut h r → Quiet h r s
unfolding record_effect await add remove_client close sent_to
Move-Quiet h (speaking k m d e o s) (c, at, shut) = ((c, at, shut), ground arith)
Move-Quiet h {r} (calling e s) v = (v, sent_to-call h e r.effects s)
Move-Quiet h (awaiting t) v = (v, refl)
Move-Quiet h (resuming i) v = (v, refl)
Move-Quiet h {r} (changing k f d e keep) v = changing-Quiet h k f d r e keep v
Move-Quiet h {r} (joining id u) (c, at, shut) =
    ((c, get_elem?-append_left r.store _ h c at, shut), refl)
Move-Quiet h (leaving id) v = (v, refl)
Move-Quiet h {r} closing v = elim (Bool-cases r.router.closed) [
  | inl e ↦ rw (e, close) (v, refl)
  | inr e ↦ rw (e, close) (v, refl)
]
Move-Quiet h losing_router v = (v, refl)

Moves-Quiet : (h : ℕ) {r s : Room} → Moves r s → IsShut h r → Quiet h r s
Moves-Quiet h stay v = (v, refl)
Moves-Quiet h (next p m) v =
    let (a, b) = Moves-Quiet h p v in let (c, d) = Move-Quiet h m a in (c, d ∙ b)

-- Once a client's web socket has closed, the room sends the client nothing, neither in the listener of
-- `close` nor after any further events, whatever listeners of the client still wait.
pub disconnected-sent_to :
    (now h : ℕ) (c : Client) (r : Room) (es : List (ℕ × Event))
    → client_at h r ≡ some c
    → sent_to h (run es (step now (Event.disconnected h) r)).effects ≡ sent_to h r.effects
unfolding step socket_closed
disconnected-sent_to now h c r es e =
    rw (e, socket_closed) (quiet.1 ∙ ap (sent_to h) (modify_frame h _ r).0)
  where
    e' : ClientEvents.ClientEvents Handler
    e' = (ClientEvents.socket_closed c.events).0

    begun : Room
    begun = modify h (set_events e') r

    shut : IsShut h begun
    shut = (
      set_events e' c,
      client_at-modify_self h (set_events e') c r e,
      socket_closed-closed c.events,
    )

    quiet :
        Quiet h begun
          (run es (run_handlers now h (ClientEvents.socket_closed c.events).1 Frame.untyped begun))
    quiet =
        Moves-Quiet h
          (Moves-trans (run_handlers-Moves now h _ Frame.untyped begun) (run-Moves es _)) shut

-- The messages of a list of effects.
abbrev pub Spoken : List Effect → Type 0
Spoken [] = Unit {0}
Spoken (sent h m ∷ es) = (speaks m ≡ true) × Spoken es
Spoken (_ ∷ es) = Spoken es

Spoken-call : (e : Effect) (es : List Effect) → is_call e ≡ true → Spoken es → Spoken (e ∷ es)
Spoken-call (sent h m) es s v = absurd (cc)
Spoken-call Effect.unhandled es s v = v
Spoken-call _ es s v = v

Move-Spoken : {r s : Room} → Move r s → Spoken r.effects → Spoken s.effects
unfolding record_effect await add remove_client close
Move-Spoken (speaking h m c e o s) v = (s, v)
Move-Spoken {r} (calling e s) v = Spoken-call e r.effects s v
Move-Spoken (awaiting t) v = v
Move-Spoken (resuming i) v = v
Move-Spoken {r} (changing h f c e k) v = subst Spoken (sym (modify_frame h f r).0) v
Move-Spoken (joining id u) v = v
Move-Spoken (leaving id) v = v
Move-Spoken {r} closing v = elim (Bool-cases r.router.closed) [
  | inl e ↦ rw (e, close) v
  | inr e ↦ rw (e, close) v
]
Move-Spoken losing_router v = v

Moves-Spoken : {r s : Room} → Moves r s → Spoken r.effects → Spoken s.effects
Moves-Spoken stay v = v
Moves-Spoken (next p m) v = Move-Spoken m (Moves-Spoken p v)

-- In any order of events a room sends messages of seven classes only: the responses to the router's
-- capabilities, to a new transport, to a new producer, to joining and to pausing, and the notifications
-- of new and of closed consumers. A `resume-producer-response` is never sent.
pub run-Spoken :
    (config : RoomConfig) (router : Router) (sign : String → String → String → ℕ → String)
    (es : List (ℕ × Event))
    → Spoken (run es (init config router sign)).effects
unfolding init
run-Spoken config router sign es = Moves-Spoken (run-Moves es (init config router sign)) tt
