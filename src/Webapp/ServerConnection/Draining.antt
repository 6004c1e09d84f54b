-- ===== src/Webapp/ServerConnection/Draining.antt =====
-- When the buffer is emptied, in webapp/src/contexts/ServerConnection.tsx.
use demo_app.Base.{
  ℕ, List, [], ◌∷◌, ◌++◌, ◌≡◌, refl, sym, ap, ◌∙◌, Bool, true, false, Option, none, some, arith,
  Option-cases, Bool-cases, inl, inr, subst,
}
use demo_app.Protocol.Messages.{Message}
use demo_app.Protocol.Codec.{Frame}
use mathlib.Core.List.{append_assoc, append-nil}
use demo_app.Webapp.ServerConnection.{
  ServerConnectionConfig, Buffered, ServerConnection, Event, connect_called, has_opened, has_failed,
  has_waited, has_ticked, sent, requested, received, init, dial, connect, opened, failed, retry,
  keep, send_message, ticked, pend, request, step, run,
}
use demo_app.Webapp.ServerConnection.Buffering.{
  fresh, send_message-open, ticked-open, ticked-closed, ticked-idle, ticked-closed, ticked-idle,
}
use demo_app.Webapp.ServerConnection.Receiving.{received-Resolves}

-- Without a web socket, the timer is there exactly if its callback is still to come.
abbrev Ready : Option ℕ → Bool → Bool → Type 0
Ready none timer ticking = timer ≡ ticking
Ready (some w) timer ticking = Unit {0}

-- Something waits only if the timer's callback is still to come.
abbrev Idle : Bool → List Buffered → Type 0
Idle true bs = Unit {0}
Idle false bs = bs ≡ []

-- Messages that are sent at once.
abbrev pub sends : ℕ → List Message → List Event
sends now [] = []
sends now (m ∷ ms) = sent now m ∷ sends now ms

module _ {ℓ} {L : Type ℓ} where
  abbrev IsTimed : ServerConnection L → Type 0
  IsTimed s = Ready s.ws s.timer s.ticking × Idle s.ticking s.buffer

  keep-IsTimed :
      (now : ℕ) (m : Message) (s : ServerConnection L)
      → s.ws ≡ none
      → IsTimed s
      → IsTimed (keep now m s)
  unfolding keep
  keep-IsTimed now m s e h = ground arith

  send_message-IsTimed :
      (now : ℕ) (m : Message) (s : ServerConnection L) → IsTimed s → IsTimed (send_message now m s)
  unfolding send_message
  send_message-IsTimed now m s h = elim (Option-cases s.ws) [
    | inl e ↦
        let kept : send_message now m s ≡ keep now m s = unfold send_message in ground arith in
        rw kept (keep-IsTimed now m s e h)
    | inr (w, e) ↦ rw (send_message-open now w m s e) h
  ]

  -- What else a step leaves of it.
  abbrev SameTimer : ServerConnection L → ServerConnection L → Type 0
  SameTimer s t =
      (t.ws ≡ s.ws) × (t.timer ≡ s.timer) × (t.ticking ≡ s.ticking) × (t.buffer ≡ s.buffer)

  connect-SameTimer : (s : ServerConnection L) → SameTimer s (connect s)
  unfolding connect dial
  connect-SameTimer s = ground arith

  failed-SameTimer : (s : ServerConnection L) → SameTimer s (failed s)
  unfolding failed
  failed-SameTimer s = ground arith

  retry-SameTimer : (s : ServerConnection L) → SameTimer s (retry s)
  unfolding retry dial
  retry-SameTimer s = ground arith

  received-SameTimer : (f : Frame) (s : ServerConnection L) → SameTimer s (step (received f) s)
  received-SameTimer f s =
      let only = received-Resolves f s in
      (
        ap (λ t. t.ws) only,
        ap (λ t. t.timer) only,
        ap (λ t. t.ticking) only,
        ap (λ t. t.buffer) only,
      )

  SameTimer-IsTimed : (s t : ServerConnection L) → SameTimer s t → IsTimed s → IsTimed t
  SameTimer-IsTimed s t c h = rw (c.0, c.1, c.2, c.3) h

  ticked-IsTimed : (now : ℕ) (s : ServerConnection L) → IsTimed s → IsTimed (ticked now s)
  ticked-IsTimed now s h = elim (Option-cases s.ws) [
    | inl e ↦ rw (ticked-closed now s e) h
    | inr (w, e) ↦ elim (Bool-cases s.ticking) [
      | inl t ↦ rw (ticked-open now w s e t, e) (tt, refl)
      | inr t ↦ rw (ticked-idle now s t) h
    ]
  ]

  step-IsTimed : (e : Event) (s : ServerConnection L) → IsTimed s → IsTimed (step e s)
  unfolding step request pend
  step-IsTimed connect_called s h = SameTimer-IsTimed s (connect s) (connect-SameTimer s) h
  step-IsTimed has_opened s h = unfold opened in ground arith
  step-IsTimed has_failed s h = SameTimer-IsTimed s (failed s) (failed-SameTimer s) h
  step-IsTimed has_waited s h = SameTimer-IsTimed s (retry s) (retry-SameTimer s) h
  step-IsTimed (has_ticked now) s h = ticked-IsTimed now s h
  step-IsTimed (sent now m) s h = send_message-IsTimed now m s h
  step-IsTimed (requested now i m) s h = send_message-IsTimed now m (pend i s) h
  step-IsTimed (received f) s h =
      SameTimer-IsTimed s (step (received f) s) (received-SameTimer f s) h

  run-IsTimed : (es : List Event) (s : ServerConnection L) → IsTimed s → IsTimed (run es s)
  unfolding run
  run-IsTimed [] s h = h
  run-IsTimed (e ∷ es) s h = run-IsTimed es (step e s) (step-IsTimed e s h)

  run-sends :
      (now later w : ℕ) (ms : List Message) (s : ServerConnection L)
      → s.ws ≡ some w
      → run (sends now ms ++ has_ticked later ∷ []) s
        ≡ ticked later (record s { wire = s.wire ++ ms })
  unfolding run step
  run-sends now later w [] s o =
      ap (λ l. ticked later (record s { wire = l })) (sym (append-nil s.wire))
  run-sends now later w (m ∷ ms) s o =
      ap (run (sends now ms ++ has_ticked later ∷ [])) (send_message-open now w m s o)
      ∙ run-sends now later w ms (record s { wire = s.wire ++ m ∷ [] }) o
      ∙ ap (λ l. ticked later (record s { wire = l })) (append_assoc s.wire (m ∷ []) ms)

  -- What the timer does at its turn, and at any other time.
  ticked-drained :
      (now w : ℕ) (s : ServerConnection L)
      → s.ws ≡ some w
      → Idle s.ticking s.buffer
      → ((ticked now s).buffer ≡ [])
        × ((ticked now s).wire ≡ s.wire ++ fresh now s.config.max_buffer_time_in_ms s.buffer)
  ticked-drained now w s o h = elim (Bool-cases s.ticking) [
    | inl t ↦ rw (ticked-open now w s o t) (refl, refl)
    | inr t ↦
        let none_left : s.buffer ≡ [] = subst (λ b. Idle b s.buffer) t h in
        rw (ticked-idle now s t) (none_left, rw none_left (sym (append-nil s.wire)))
  ]

init-IsTimed : (L : Type 0) (config : ServerConnectionConfig) → IsTimed (init {L = L} config)
unfolding init
init-IsTimed L config = (refl, refl)

-- Whenever a connection is established, after any run from the constructor on, the next turn of the
-- timer empties the buffer: what has not expired is sent in order, behind every message that was given
-- to `sendMessage` in the meantime. So a later message overtakes those that wait.
pub run-drained :
    (L : Type 0) (config : ServerConnectionConfig) (es : List Event) (now later w : ℕ)
    (ms : List Message)
    → (run es (init {L = L} config)).ws ≡ some w
    → let s = run es (init {L = L} config) in
      let t = run (sends now ms ++ has_ticked later ∷ []) s in
      (t.buffer ≡ [])
      × (t.wire ≡ (s.wire ++ ms) ++ fresh later s.config.max_buffer_time_in_ms s.buffer)
run-drained L config es now later w ms o =
    let s = run es (init {L = L} config) in
    let timed = run-IsTimed {L = L} es (init config) (init-IsTimed L config) in
    rw (run-sends now later w ms s o)
      (ticked-drained later w (record s { wire = s.wire ++ ms }) o timed.1)
