-- ===== src/Sfu/Room/Ending.antt =====
-- The end of a room: `close` and the hook `onClosed` (sfu/src/media/Room.ts).
use demo_app.Base.{
  String, ℕ, suc, ◌≤◌, List, [], ◌∷◌, ◌≡◌, refl, ◌∙◌, true, false, arith, ◌⊎◌, inl, inr, Bool-cases,
}
use demo_app.Sfu.Room.State.{Room, RoomConfig, Router, Effect, record_effect, await, close}
use demo_app.Sfu.Room.State.Frames.{modify_frame}
use demo_app.Sfu.Room.Handlers.{remove_client}
use demo_app.Sfu.Room.Step.{add, init, Event, step, run, router_closed}
use demo_app.Sfu.Room.Moves.{
  Move, speaking, calling, awaiting, resuming, changing, joining, leaving, closing, losing_router,
  Moves, stay, next, is_call,
}
use demo_app.Sfu.Room.Moves.Steps.{run-Moves}

-- How often the hook has run.
unfoldable pub closings : List Effect → ℕ
closings [] = 0
closings (Effect.room_closed ∷ es) = suc (closings es)
closings (_ ∷ es) = closings es

pub record EndsOnce (r : Room) : Type 0 where
  pub at_most_once : closings r.effects ≤ 1
  pub only_closed : r.router.closed ≡ false → closings r.effects ≡ 0

closings-call : (e : Effect) (es : List Effect) → is_call e ≡ true → closings (e ∷ es) ≡ closings es
unfolding closings
closings-call Effect.room_closed es h = absurd (cc)
closings-call Effect.unhandled es h = refl
closings-call _ es h = refl

Move-EndsOnce : {r s : Room} → Move r s → EndsOnce r → EndsOnce s
unfolding record_effect await add remove_client closings close
Move-EndsOnce (speaking h m c e o s) v = record {
  at_most_once = v.at_most_once;
  only_closed = v.only_closed;
}
Move-EndsOnce {r} (calling e s) v = ground (arith, closings-call e r.effects s)
Move-EndsOnce (awaiting t) v = record { at_most_once = v.at_most_once; only_closed = v.only_closed }
Move-EndsOnce (resuming i) v = record { at_most_once = v.at_most_once; only_closed = v.only_closed }
Move-EndsOnce {r} (changing h f c e k) v = ground (arith, modify_frame h f r)
Move-EndsOnce (joining id u) v = record {
  at_most_once = v.at_most_once;
  only_closed = v.only_closed;
}
Move-EndsOnce (leaving id) v = record { at_most_once = v.at_most_once; only_closed = v.only_closed }
Move-EndsOnce closing v = ground arith
Move-EndsOnce losing_router v = ground arith

Moves-EndsOnce : {r s : Room} → Moves r s → EndsOnce r → EndsOnce s
Moves-EndsOnce stay v = v
Moves-EndsOnce (next p m) v = Move-EndsOnce m (Moves-EndsOnce p v)

-- Over a closed router the hook does not run any more.
Move-closings :
    {r s : Room}
    → Move r s
    → r.router.closed ≡ true
    → (s.router.closed ≡ true) × (closings s.effects ≡ closings r.effects)
unfolding record_effect await add remove_client closings close
Move-closings (speaking h m c e o s) v = (v, refl)
Move-closings {r} (calling e s) v = (v, closings-call e r.effects s)
Move-closings (awaiting t) v = (v, refl)
Move-closings (resuming i) v = (v, refl)
Move-closings {r} (changing h f c e k) v = ground (arith, modify_frame h f r)
Move-closings (joining id u) v = (v, refl)
Move-closings (leaving id) v = (v, refl)
Move-closings closing v = ground arith
Move-closings losing_router v = (refl, refl)

Moves-closings :
    {r s : Room}
    → Moves r s
    → r.router.closed ≡ true
    → (s.router.closed ≡ true) × (closings s.effects ≡ closings r.effects)
Moves-closings stay v = (v, refl)
Moves-closings (next p m) v =
    let (a, b) = Moves-closings p v in let (c, d) = Move-closings m a in (c, d ∙ b)

init-EndsOnce :
    (config : RoomConfig) (router : Router) (sign : String → String → String → ℕ → String)
    → EndsOnce (init config router sign)
unfolding init closings
init-EndsOnce config router sign = record { at_most_once = omega arith; only_closed = λ _. refl }

-- Whatever the order of the events of a room from its creation on, the hook `onClosed` runs at most
-- once, and as long as the room's router is open it has not run.
pub run-closings :
    (config : RoomConfig) (router : Router) (sign : String → String → String → ℕ → String)
    (es : List (ℕ × Event))
    → let s = run es (init config router sign) in
      (closings s.effects ≤ 1) × ((s.router.closed ≡ true) ⊎ (closings s.effects ≡ 0))
run-closings config router sign es =
    let v = Moves-EndsOnce (run-Moves es _) (init-EndsOnce config router sign) in
    (
      v.at_most_once,
      elim (Bool-cases (run es (init config router sign)).router.closed) [
        | inl shut ↦ inl shut
        | inr live ↦ inr (v.only_closed live)
      ],
    )

-- When mediasoup closes the router with its worker, the hook does not run then, nor after any further
-- events, although the room's router is closed.
pub router_gone-closings :
    (now : ℕ) (es : List (ℕ × Event)) (r : Room)
    → let s = run es (step now Event.router_gone r) in
      (s.router.closed ≡ true) × (closings s.effects ≡ closings r.effects)
unfolding step router_closed close
router_gone-closings now es r = Moves-closings (run-Moves es _) refl
