-- ===== src/Webapp/ServerConnection/Conserving.antt =====
-- No message is lost or doubled by webapp/src/contexts/ServerConnection.tsx.
use demo_app.Base.{
  ℕ, List, [], ◌∷◌, ◌++◌, ◌≡◌, refl, sym, ap, ◌∙◌, true, some, arith, Option-cases, Bool-cases, inl,
  inr, subst,
}
use demo_app.Protocol.Messages.{Message}
use mathlib.Core.List.{append_assoc, append-nil, Perm, perm_append_comm}
use mathlib.Core.List.Perm
use demo_app.Webapp.ServerConnection.{
  negative, exceeds, has_room, ServerConnectionConfig, Buffered, ServerConnection, Event,
  connect_called, has_opened, has_failed, has_waited, has_ticked, sent, requested, received, init,
  connect, opened, failed, retry, keep, send_message, ticked, pend, request, step, run,
}
use demo_app.Webapp.ServerConnection.Buffering.{
  Calm, fresh, connect-Calm, opened-Calm, failed-Calm, retry-Calm, received-Calm, send_message-open,
  ticked-open, ticked-closed, ticked-idle, ticked-closed, ticked-idle,
}

abbrev pub messages : List Buffered → List Message
messages [] = []
messages (b ∷ bs) = b.message ∷ messages bs

messages-append : (xs ys : List Buffered) → messages (xs ++ ys) ≡ messages xs ++ messages ys
messages-append [] ys = refl
messages-append (b ∷ xs) ys = ap (λ l. b.message ∷ l) (messages-append xs ys)

fresh-negative : (now : ℕ) (bs : List Buffered) → fresh now negative bs ≡ messages bs
unfolding exceeds
fresh-negative now [] = refl
fresh-negative now (b ∷ bs) = ap (λ l. b.message ∷ l) (fresh-negative now bs)

-- The message that an event hands over.
unfoldable pub handed_by : Event → List Message
handed_by (sent now m) = m ∷ []
handed_by (requested now i m) = m ∷ []
handed_by _ = []

unfoldable pub handed : List Event → List Message
unfolding handed_by
handed [] = []
handed (e ∷ es) = handed_by e ++ handed es

-- No limit on the buffer's size, and none on how long a message may wait.
abbrev pub IsUnlimited : ServerConnectionConfig → Type 0
IsUnlimited c = (c.max_buffer_size ≡ negative) × (c.max_buffer_time_in_ms ≡ negative)

perm_late :
    (xs ys : List Message) (m : Message) → Perm ((xs ++ m ∷ []) ++ ys) ((xs ++ ys) ++ m ∷ [])
perm_late xs ys m =
    rw (append_assoc xs (m ∷ []) ys, append_assoc xs ys (m ∷ []))
      (Perm.append_left xs (perm_append_comm (m ∷ []) ys))

module _ {ℓ} {L : Type ℓ} where
  -- What was sent, and what waits.
  abbrev pub held : ServerConnection L → List Message
  held s = s.wire ++ messages s.buffer

  -- What a step may do.
  abbrev Holds : List Message → ServerConnection L → ServerConnection L → Type 0
  Holds ms s t = Perm (held t) (held s ++ ms) × (t.config ≡ s.config)

  Calm-Holds : (s t : ServerConnection L) → Calm s t → Holds [] s t
  Calm-Holds s t c =
      (rw (c.0, c.1) (subst (Perm (held s)) (sym (append-nil (held s))) (Perm.refl (held s))), c.2)

  keep-Holds :
      (now : ℕ) (m : Message) (s : ServerConnection L)
      → s.config.max_buffer_size ≡ negative
      → held (keep now m s) ≡ held s ++ m ∷ []
  unfolding keep has_room
  keep-Holds now m s u =
      let b : Buffered = record { message = m; timestamp = now } in
      let kept : (keep now m s).buffer ≡ s.buffer ++ b ∷ [] = ground arith in
      ap (λ l. s.wire ++ messages l) kept
      ∙ ap (λ l. s.wire ++ l) (messages-append s.buffer (b ∷ []))
      ∙ sym (append_assoc s.wire (messages s.buffer) (m ∷ []))

  send_message-Holds :
      (now : ℕ) (m : Message) (s : ServerConnection L)
      → IsUnlimited s.config
      → Holds (m ∷ []) s (send_message now m s)
  unfolding send_message
  send_message-Holds now m s u = elim (Option-cases s.ws) [
    | inl e ↦
        rw (e, send_message) (rw (keep-Holds now m s u.0) (Perm.refl (held s ++ m ∷ [])), refl)
    | inr (w, e) ↦ rw (send_message-open now w m s e) (perm_late s.wire (messages s.buffer) m, refl)
  ]

  -- The timer sends all that waits, if it is the timer's turn and there is a web socket.
  flushed-Holds :
      (now w : ℕ) (s : ServerConnection L)
      → IsUnlimited s.config
      → s.ws ≡ some w
      → s.ticking ≡ true
      → Holds [] s (ticked now s)
  flushed-Holds now w s u o t =
      let all : fresh now s.config.max_buffer_time_in_ms s.buffer ≡ messages s.buffer =
        ap (λ l. fresh now l s.buffer) u.1 ∙ fresh-negative now s.buffer in
      rw (ticked-open now w s o t, all) (Perm.refl (held s ++ []), refl)

  ticked-Holds :
      (now : ℕ) (s : ServerConnection L) → IsUnlimited s.config → Holds [] s (ticked now s)
  ticked-Holds now s u = elim (Option-cases s.ws) [
    | inl e ↦ rw (ticked-closed now s e) (Calm-Holds s s (refl, refl, refl))
    | inr (w, e) ↦ elim (Bool-cases s.ticking) [
      | inl t ↦ flushed-Holds now w s u e t
      | inr t ↦ rw (ticked-idle now s t) (Calm-Holds s s (refl, refl, refl))
    ]
  ]

  step-Holds :
      (e : Event) (s : ServerConnection L) → IsUnlimited s.config → Holds (handed_by e) s (step e s)
  unfolding step handed_by request pend
  step-Holds connect_called s u = Calm-Holds s (connect s) (connect-Calm s)
  step-Holds has_opened s u = Calm-Holds s (opened s) (opened-Calm s)
  step-Holds has_failed s u = Calm-Holds s (failed s) (failed-Calm s)
  step-Holds has_waited s u = Calm-Holds s (retry s) (retry-Calm s)
  step-Holds (has_ticked now) s u = ticked-Holds now s u
  step-Holds (sent now m) s u = send_message-Holds now m s u
  step-Holds (requested now i m) s u = send_message-Holds now m (pend i s) u
  step-Holds (received f) s u = Calm-Holds s (step (received f) s) (received-Calm f s)

  run-Holds :
      (es : List Event) (s : ServerConnection L)
      → IsUnlimited s.config
      → Perm (held (run es s)) (held s ++ handed es)
  unfolding run handed
  run-Holds [] s u = rw (append-nil (held s)) (Perm.refl (held s))
  run-Holds (e ∷ es) s u =
      let here = step-Holds e s u in
      let there = run-Holds es (step e s) (subst IsUnlimited (sym here.1) u) in
      Perm.trans there (
        subst (Perm (held (step e s) ++ handed es))
          (append_assoc (held s) (handed_by e) (handed es)) (Perm.append_right (handed es) here.0))

-- With no limit on the size of the buffer and on the time in it, as in the application's own
-- configuration, no message given to `sendMessage` or `request` is lost or doubled, whatever becomes
-- of the connection: what was sent and what waits are together, up to their order, what was given.
pub held-run :
    (L : Type 0) (config : ServerConnectionConfig) (es : List Event)
    → IsUnlimited config
    → Perm (held (run es (init {L = L} config))) (handed es)
unfolding init
held-run L config es u = run-Holds {L = L} es (init config) u
