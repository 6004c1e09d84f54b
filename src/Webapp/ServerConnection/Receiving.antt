-- ===== src/Webapp/ServerConnection/Receiving.antt =====
-- What a received message changes in webapp/src/contexts/ServerConnection.tsx.
use demo_app.Base.{
  ◌==◌, ℕ, List, [], ◌∷◌, ◌≡◌, refl, ap, ◌∙◌, none, some, arith, Option-cases, Bool-cases, inl, inr,
}
use demo_app.Protocol.Messages.{Message, type_of}
use demo_app.Protocol.Codec.{Frame}
use demo_app.Webapp.ServerConnection.{
  Registered, Listener, ServerConnection, received, resolve, notify, emit, receive, deliver, step,
}

module _ {ℓ} {L : Type ℓ} where
  abbrev with_resolved : List (ℕ × Message) → ServerConnection L → ServerConnection L
  with_resolved l s = record s { resolved = l }

  -- Nothing but the promises resolved.
  abbrev pub Resolves : ServerConnection L → ServerConnection L → Type ℓ
  Resolves s t = t ≡ record s { resolved = t.resolved }

  Resolves-trans : (s t u : ServerConnection L) → Resolves s t → Resolves t u → Resolves s u
  Resolves-trans s t u p q = q ∙ ap (with_resolved u.resolved) p

  notify-Resolves :
      (m : Message) (l : Listener L) (s : ServerConnection L) → Resolves s (notify m l s)
  unfolding notify resolve
  notify-Resolves m Listener.resolve_request s = ground arith
  notify-Resolves m (Listener.handler l) s = refl

  emit-Resolves :
      (m : Message) (rs : List (Registered L)) (s : ServerConnection L) → Resolves s (emit m rs s).0
  unfolding emit
  emit-Resolves m [] s = refl
  emit-Resolves m (r ∷ rs) s = elim (Bool-cases (r.event == type_of m)) [
    | inl hit ↦ rw hit (
        Resolves-trans s (notify m r.listener s) (emit m rs (notify m r.listener s)).0
          (notify-Resolves m r.listener s) (emit-Resolves m rs (notify m r.listener s)))
    | inr miss ↦ rw miss (emit-Resolves m rs s)
  ]

  received_closed : (f : Frame) (s : ServerConnection L) → s.ws ≡ none → step (received f) s ≡ s
  unfolding step
  received_closed f s e = ground arith

  received_open :
      (f : Frame) (w : ℕ) (s : ServerConnection L)
      → s.ws ≡ some w
      → step (received f) s ≡ deliver f s
  unfolding step
  received_open f w s e = ground arith

  deliver-Resolves : (f : Frame) (s : ServerConnection L) → Resolves s (deliver f s)
  unfolding deliver receive
  deliver-Resolves (Frame.message m) s = emit-Resolves m s.listeners s
  deliver-Resolves Frame.unparsable s = refl
  deliver-Resolves Frame.null_value s = refl
  deliver-Resolves Frame.untyped s = refl
  deliver-Resolves (Frame.named t) s = refl

  pub received-Resolves : (f : Frame) (s : ServerConnection L) → Resolves s (step (received f) s)
  received-Resolves f s = elim (Option-cases s.ws) [
    | inl e ↦ rw (received_closed f s e) refl
    | inr (w, e) ↦ rw (received_open f w s e) (deliver-Resolves f s)
  ]
