-- ===== src/Webapp/ServerConnection/Bounded.antt =====
-- The bound on the buffer of webapp/src/contexts/ServerConnection.tsx.
use demo_app.Base.{String, ℕ, ◌≤◌, List, [], ◌∷◌, ◌≡◌, false, arith, length, length-append}
use demo_app.Protocol.Messages.{Message}
use demo_app.Webapp.ServerConnection.{
  limit, has_room, ServerConnectionConfig, Buffered, ServerConnection, Event, connect_called,
  has_opened, has_failed, has_waited, has_ticked, sent, requested, received, init, connect, opened,
  failed, retry, keep, send_message, resend, ticked, pend, request, step, run,
}
use demo_app.Webapp.ServerConnection.Buffering.{
  Calm, connect-Calm, opened-Calm, failed-Calm, retry-Calm, received-Calm,
}

module _ {ℓ} {L : Type ℓ} where
  abbrev IsWithin : ℕ → ServerConnection L → Type 0
  IsWithin bound s = (length s.buffer ≤ bound) × (s.config.max_buffer_size ≡ limit bound)

  Calm-IsWithin :
      (bound : ℕ) (s t : ServerConnection L) → Calm s t → IsWithin bound s → IsWithin bound t
  Calm-IsWithin bound s t c h = rw (c.1, c.2) h

  send_message-IsWithin :
      (bound now : ℕ) (m : Message) (s : ServerConnection L)
      → IsWithin bound s
      → IsWithin bound (send_message now m s)
  unfolding send_message keep has_room
  send_message-IsWithin bound now m s h =
      ground (arith, length-append s.buffer (record { message = m; timestamp = now } ∷ []))

  resend-IsWithin :
      (bound now : ℕ) (bs : List Buffered) (s : ServerConnection L)
      → IsWithin bound s
      → IsWithin bound (resend now bs s)
  unfolding resend
  resend-IsWithin bound now [] s h = h
  resend-IsWithin bound now (b ∷ bs) s h = ground (
    arith,
    resend-IsWithin bound now bs s,
    resend-IsWithin bound now bs (send_message now b.message s),
    send_message-IsWithin bound now b.message s,
  )

  pend-IsWithin :
      (bound : ℕ) (i : String) (s : ServerConnection L)
      → IsWithin bound s
      → IsWithin bound (pend i s)
  unfolding pend
  pend-IsWithin bound i s h = h

  step-IsWithin :
      (bound : ℕ) (e : Event) (s : ServerConnection L)
      → IsWithin bound s
      → IsWithin bound (step e s)
  unfolding step request ticked
  step-IsWithin bound connect_called s h = Calm-IsWithin bound s (connect s) (connect-Calm s) h
  step-IsWithin bound has_opened s h = Calm-IsWithin bound s (opened s) (opened-Calm s) h
  step-IsWithin bound has_failed s h = Calm-IsWithin bound s (failed s) (failed-Calm s) h
  step-IsWithin bound has_waited s h = Calm-IsWithin bound s (retry s) (retry-Calm s) h
  step-IsWithin bound (has_ticked now) s h =
      ground (arith, resend-IsWithin bound now s.buffer (record s { buffer = []; ticking = false }))
  step-IsWithin bound (sent now m) s h = send_message-IsWithin bound now m s h
  step-IsWithin bound (requested now i m) s h =
      send_message-IsWithin bound now m (pend i s) (pend-IsWithin bound i s h)
  step-IsWithin bound (received f) s h =
      Calm-IsWithin bound s (step (received f) s) (received-Calm f s) h

  run-IsWithin :
      (bound : ℕ) (es : List Event) (s : ServerConnection L)
      → IsWithin bound s
      → IsWithin bound (run es s)
  unfolding run
  run-IsWithin bound [] s h = h
  run-IsWithin bound (e ∷ es) s h = run-IsWithin bound es (step e s) (step-IsWithin bound e s h)

-- With a limit on the buffer's size, which 0 is as well, no run from the constructor on lets the
-- buffer hold more.
pub length-buffer_le :
    (L : Type 0) (bound : ℕ) (config : ServerConnectionConfig) (es : List Event)
    → config.max_buffer_size ≡ limit bound
    → length (run es (init {L = L} config)).buffer ≤ bound
unfolding init
length-buffer_le L bound config es h =
    (run-IsWithin {L = L} bound es (init config) (omega arith, h)).0
