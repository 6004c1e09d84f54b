-- ===== src/Webapp/ServerConnection/Retrying.antt =====
-- How often webapp/src/contexts/ServerConnection.tsx tries to connect.
use demo_app.Base.{
  String, ℕ, suc, ◌+◌, ◌≤◌, ◌<◌, List, [], ◌∷◌, ◌≡◌, refl, ap, ◌∙◌, false, Option, none, some,
  arith,
}
use demo_app.Protocol.Messages.{Message}
use demo_app.Protocol.Codec.{Frame}
use demo_app.Webapp.ServerConnection.{
  limit, exceeds, ServerConnectionConfig, Connecting, undefined, dialing, pausing, unsettled,
  Buffered, ServerConnection, Event, connect_called, has_opened, has_failed, has_waited, has_ticked,
  sent, requested, received, init, dial, connect, opened, failed, retry, keep, send_message, resend,
  ticked, pend, request, step, run,
}
use demo_app.Webapp.ServerConnection.Receiving.{received-Resolves}

abbrev Settled : (bound : ℕ) → Option ℕ → ℕ → Type 0
Settled bound none k = k ≡ 0
Settled bound (some w) k = k ≤ bound + 2

-- How many web sockets have been made, with `bound` for the limit of the configuration.
abbrev Counted : (bound : ℕ) → Connecting → Option ℕ → ℕ → Type 0
Counted bound undefined w k = Settled bound w k
Counted bound (dialing x r) w k = (w ≡ none) × (k ≡ suc r) × (r ≤ suc bound)
Counted bound (pausing r) w k = (w ≡ none) × (k ≡ r) × (r ≤ suc bound)
Counted bound unsettled w k = k ≤ bound + 2

Settled-le : (bound : ℕ) (w : Option ℕ) (k : ℕ) → Settled bound w k → k ≤ bound + 2
Settled-le bound none k h = omega arith
Settled-le bound (some w) k h = h

Counted-le :
    (bound : ℕ) (c : Connecting) (w : Option ℕ) (k : ℕ) → Counted bound c w k → k ≤ bound + 2
Counted-le bound undefined w k h = Settled-le bound w k h
Counted-le bound (dialing x r) w k h = omega arith
Counted-le bound (pausing r) w k h = omega arith
Counted-le bound unsettled w k h = h

module _ {ℓ} {L : Type ℓ} where
  -- The part of the state that connecting is about.
  abbrev Same : ServerConnection L → ServerConnection L → Type 0
  Same s t =
      (t.connecting ≡ s.connecting)
      × (t.ws ≡ s.ws)
      × (t.next_socket ≡ s.next_socket)
      × (t.config ≡ s.config)

  send_message-Same :
      (now : ℕ) (m : Message) (s : ServerConnection L) → Same s (send_message now m s)
  unfolding send_message keep
  send_message-Same now m s = ground arith

  resend-Same : (now : ℕ) (bs : List Buffered) (s : ServerConnection L) → Same s (resend now bs s)
  unfolding resend
  resend-Same now [] s = (refl, refl, refl, refl)
  resend-Same now (b ∷ bs) s = ground (
    arith,
    resend-Same now bs s,
    resend-Same now bs (send_message now b.message s),
    send_message-Same now b.message s,
  )

  ticked-Same : (now : ℕ) (s : ServerConnection L) → Same s (ticked now s)
  unfolding ticked
  ticked-Same now s =
      ground (arith, resend-Same now s.buffer (record s { buffer = []; ticking = false }))

  received-Same : (f : Frame) (s : ServerConnection L) → Same s (step (received f) s)
  received-Same f s =
      let only = received-Resolves f s in
      (
        ap (λ t. t.connecting) only,
        ap (λ t. t.ws) only,
        ap (λ t. t.next_socket) only,
        ap (λ t. t.config) only,
      )

  request-Same :
      (now : ℕ) (i : String) (m : Message) (s : ServerConnection L) → Same s (request now i m s)
  unfolding request
  request-Same now i m s = unfold pend in send_message-Same now m (pend i s)

  abbrev IsCounted : ℕ → ServerConnection L → Type 0
  IsCounted bound s =
      Counted bound s.connecting s.ws s.next_socket × (s.config.max_retry ≡ limit bound)

  Same-IsCounted :
      (bound : ℕ) (s t : ServerConnection L) → Same s t → IsCounted bound s → IsCounted bound t
  Same-IsCounted bound s t h c = rw (h.0, h.1, h.2, h.3) c

  connect-IsCounted :
      (bound : ℕ) (s : ServerConnection L) → IsCounted bound s → IsCounted bound (connect s)
  unfolding connect dial
  connect-IsCounted bound s c = ground arith

  opened-IsCounted :
      (bound : ℕ) (s : ServerConnection L) → IsCounted bound s → IsCounted bound (opened s)
  unfolding opened
  opened-IsCounted bound s c = ground arith

  failed-IsCounted :
      (bound : ℕ) (s : ServerConnection L)
      → 0 < bound
      → IsCounted bound s
      → IsCounted bound (failed s)
  unfolding failed exceeds
  failed-IsCounted bound s h c = ground arith

  retry-IsCounted :
      (bound : ℕ) (s : ServerConnection L) → IsCounted bound s → IsCounted bound (retry s)
  unfolding retry dial
  retry-IsCounted bound s c = ground arith

  step-IsCounted :
      (bound : ℕ) (e : Event) (s : ServerConnection L)
      → 0 < bound
      → IsCounted bound s
      → IsCounted bound (step e s)
  unfolding step
  step-IsCounted bound connect_called s h c = connect-IsCounted bound s c
  step-IsCounted bound has_opened s h c = opened-IsCounted bound s c
  step-IsCounted bound has_failed s h c = failed-IsCounted bound s h c
  step-IsCounted bound has_waited s h c = retry-IsCounted bound s c
  step-IsCounted bound (has_ticked now) s h c =
      Same-IsCounted bound s (ticked now s) (ticked-Same now s) c
  step-IsCounted bound (sent now m) s h c =
      Same-IsCounted bound s (send_message now m s) (send_message-Same now m s) c
  step-IsCounted bound (requested now i m) s h c =
      Same-IsCounted bound s (request now i m s) (request-Same now i m s) c
  step-IsCounted bound (received f) s h c =
      Same-IsCounted bound s (step (received f) s) (received-Same f s) c

  run-IsCounted :
      (bound : ℕ) (es : List Event) (s : ServerConnection L)
      → 0 < bound
      → IsCounted bound s
      → IsCounted bound (run es s)
  unfolding run
  run-IsCounted bound [] s h c = c
  run-IsCounted bound (e ∷ es) s h c =
      run-IsCounted bound es (step e s) h (step-IsCounted bound e s h c)

module _ {ℓ} {L : Type ℓ} where
  -- What stays as it is without a web socket.
  abbrev Stuck : ServerConnection L → ServerConnection L → Type 0
  Stuck s t =
      (t.connecting ≡ unsettled)
      × (t.ws ≡ none)
      × (t.next_socket ≡ s.next_socket)
      × (t.wire ≡ s.wire)

  step-unsettled :
      (e : Event) (s : ServerConnection L)
      → s.connecting ≡ unsettled
      → s.ws ≡ none
      → Stuck s (step e s)
  unfolding step connect opened failed retry ticked send_message keep request pend
  step-unsettled connect_called s u n = ground arith
  step-unsettled has_opened s u n = ground arith
  step-unsettled has_failed s u n = ground arith
  step-unsettled has_waited s u n = ground arith
  step-unsettled (has_ticked now) s u n = ground arith
  step-unsettled (sent now m) s u n = ground arith
  step-unsettled (requested now i m) s u n = ground arith
  step-unsettled (received f) s u n = ground arith

-- With a positive limit of retries a connection makes at most two web sockets more than the limit,
-- whatever is called, however often, and whatever becomes of them.
pub next_socket-run :
    (L : Type 0) (bound : ℕ) (config : ServerConnectionConfig) (es : List Event)
    → 0 < bound
    → config.max_retry ≡ limit bound
    → (run es (init {L = L} config)).next_socket ≤ bound + 2
unfolding init
next_socket-run L bound config es h q =
    let c = run-IsCounted {L = L} bound es (init config) h (refl, q) in Counted-le bound _ _ _ c.0

-- Once the attempts are over, which leaves `_connecting` as a promise that is never settled, the
-- connection is lost for good: no call makes another web socket, and no message is ever sent.
pub run-unsettled :
    (L : Type 0) (es : List Event) (s : ServerConnection L)
    → s.connecting ≡ unsettled
    → s.ws ≡ none
    → let t = run es s in
      (t.connecting ≡ unsettled)
      × (t.ws ≡ none)
      × (t.next_socket ≡ s.next_socket)
      × (t.wire ≡ s.wire)
unfolding run
run-unsettled L [] s u n = (u, n, refl, refl)
run-unsettled L (e ∷ es) s u n =
    let k = step-unsettled e s u n in
    let rest = run-unsettled L es (step e s) k.0 k.1 in (rest.0, rest.1, rest.2 ∙ k.2, rest.3 ∙ k.3)
