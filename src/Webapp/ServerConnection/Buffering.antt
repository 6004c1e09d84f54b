-- ===== src/Webapp/ServerConnection/Buffering.antt =====
-- What becomes of the messages given to `sendMessage` of webapp/src/contexts/ServerConnection.tsx.
use demo_app.Base.{
  ℕ, ◌-◌, List, [], ◌∷◌, ◌++◌, ◌≡◌, sym, ap, ◌∙◌, true, false, none, some, arith, if◌then◌else◌,
  Bool-cases, inl, inr,
}
use mathlib.Core.List.{append_assoc, append-nil}
use demo_app.Protocol.Messages.{Message}
use demo_app.Protocol.Codec.{Frame}
use demo_app.Webapp.ServerConnection.{
  Limit, exceeds, Buffered, ServerConnection, received, dial, connect, opened, failed, retry,
  send_message, resend, ticked, step,
}
use demo_app.Webapp.ServerConnection.Receiving.{received-Resolves}

-- What of the buffer has not expired.
abbrev pub fresh : ℕ → Limit → List Buffered → List Message
fresh now l [] = []
fresh now l (b ∷ bs) =
    let rest = fresh now l bs in if exceeds l (now - b.timestamp) then rest else b.message ∷ rest

module _ {ℓ} {L : Type ℓ} where
  -- The part of the state that sending is about.
  abbrev pub Calm : ServerConnection L → ServerConnection L → Type 0
  Calm s t = (t.wire ≡ s.wire) × (t.buffer ≡ s.buffer) × (t.config ≡ s.config)

  pub connect-Calm : (s : ServerConnection L) → Calm s (connect s)
  unfolding connect dial
  connect-Calm s = ground arith

  pub opened-Calm : (s : ServerConnection L) → Calm s (opened s)
  unfolding opened
  opened-Calm s = ground arith

  pub failed-Calm : (s : ServerConnection L) → Calm s (failed s)
  unfolding failed
  failed-Calm s = ground arith

  pub retry-Calm : (s : ServerConnection L) → Calm s (retry s)
  unfolding retry dial
  retry-Calm s = ground arith

  pub received-Calm : (f : Frame) (s : ServerConnection L) → Calm s (step (received f) s)
  received-Calm f s =
      let only = received-Resolves f s in
      (ap (λ t. t.wire) only, ap (λ t. t.buffer) only, ap (λ t. t.config) only)

  pub send_message-open :
      (now w : ℕ) (m : Message) (s : ServerConnection L)
      → s.ws ≡ some w
      → send_message now m s ≡ record s { wire = s.wire ++ m ∷ [] }
  unfolding send_message
  send_message-open now w m s o = ground arith

  -- The loop over the buffer sends what has not expired, and keeps nothing.
  pub resend-open :
      (now w : ℕ) (bs : List Buffered) (s : ServerConnection L)
      → s.ws ≡ some w
      → resend now bs s ≡ record s { wire = s.wire ++ fresh now s.config.max_buffer_time_in_ms bs }
  unfolding resend
  resend-open now w [] s o = ap (λ l. record s { wire = l }) (sym (append-nil s.wire))
  resend-open now w (b ∷ bs) s o =
      elim (Bool-cases (exceeds s.config.max_buffer_time_in_ms (now - b.timestamp))) [
        | inl old ↦ rw old (resend-open now w bs s o)
        | inr new ↦
            rw (new, send_message-open now w b.message s o)
              (resend-open now w bs (record s { wire = s.wire ++ b.message ∷ [] }) o
                ∙ ap (λ l. record s { wire = l })
                    (append_assoc s.wire (b.message ∷ [])
                      (fresh now s.config.max_buffer_time_in_ms bs)))
      ]

  pub ticked-open :
      (now w : ℕ) (s : ServerConnection L)
      → s.ws ≡ some w
      → s.ticking ≡ true
      → ticked now s ≡ record s {
        wire = s.wire ++ fresh now s.config.max_buffer_time_in_ms s.buffer;
        buffer = [];
        ticking = false;
      }
  unfolding ticked
  ticked-open now w s o t =
      let started = record s { buffer = []; ticking = false } in
      let all : ticked now s ≡ resend now s.buffer started = unfold ticked in ground arith in
      all ∙ resend-open now w s.buffer started o

  pub ticked-closed : (now : ℕ) (s : ServerConnection L) → s.ws ≡ none → ticked now s ≡ s
  unfolding ticked
  ticked-closed now s e = ground arith

  pub ticked-idle : (now : ℕ) (s : ServerConnection L) → s.ticking ≡ false → ticked now s ≡ s
  unfolding ticked
  ticked-idle now s e = ground arith
