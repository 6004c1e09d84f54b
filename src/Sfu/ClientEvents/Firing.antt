-- ===== src/Sfu/ClientEvents/Firing.antt =====
-- What a `ClientEvents` fires is among its listeners, and it never gains one by firing.
use demo_app.Base.{
  String, ℕ, ◌≤◌, ◌==◌, not, ◌&&◌, List, [], arith, total, total-select_le, total-map, ltb,
  Bool-cases, inl, inr,
}
use demo_app.Protocol.Codec.{Frame}
use demo_app.Protocol.Messages.{type_of}
use demo_app.Sfu.ClientEvents.{
  Listener, ClientEvents, Received, ignored, thrown, fired, emit, listens, listener_count, receive,
  receive_typed, close, socket_closed,
}

module _ {ℓ} {L : Type ℓ} where
  abbrev pub fired_by : Received L → List L
  fired_by ignored = []
  fired_by thrown = []
  fired_by (fired hs) = hs

  emit-fewer :
      (g : Listener L → ℕ) (t : String) (e : ClientEvents L)
      → total g (emit t e).0.listeners ≤ total g e.listeners
  unfolding emit
  emit-fewer g t e = total-select_le g (λ l. not (l.event == t && l.once)) e.listeners

  emit-among :
      (g : L → ℕ) (t : String) (e : ClientEvents L)
      → total g (emit t e).1 ≤ total (λ l. g l.handler) e.listeners
  unfolding emit
  emit-among g t e = omega (
    arith,
    total-map g (λ (l : Listener L). l.handler) (listens t e.listeners),
    total-select_le (λ l. g l.handler) (λ l. l.event == t) e.listeners,
  )

  receive_typed-fewer :
      (g : Listener L → ℕ) (t : String) (e : ClientEvents L)
      → total g (receive_typed t e).0.listeners ≤ total g e.listeners
  unfolding receive_typed
  receive_typed-fewer g t e = elim (Bool-cases (ltb 0 (listener_count t e))) [
    | inl k ↦ rw (receive_typed, k) (emit-fewer g t e)
    | inr k ↦ rw (receive_typed, k) (omega arith)
  ]

  receive_typed-among :
      (g : L → ℕ) (t : String) (e : ClientEvents L)
      → total g (fired_by (receive_typed t e).1) ≤ total (λ l. g l.handler) e.listeners
  unfolding receive_typed
  receive_typed-among g t e = elim (Bool-cases (ltb 0 (listener_count t e))) [
    | inl k ↦ rw (receive_typed, k) (emit-among g t e)
    | inr k ↦ rw (receive_typed, k) (omega arith)
  ]

  pub receive-fewer :
      (g : Listener L → ℕ) (f : Frame) (e : ClientEvents L)
      → total g (receive f e).0.listeners ≤ total g e.listeners
  unfolding receive
  receive-fewer g (Frame.message m) e = receive_typed-fewer g (type_of m) e
  receive-fewer g (Frame.named t) e = receive_typed-fewer g t e
  receive-fewer g _ e = omega arith

  pub receive-among :
      (g : L → ℕ) (f : Frame) (e : ClientEvents L)
      → total g (fired_by (receive f e).1) ≤ total (λ l. g l.handler) e.listeners
  unfolding receive
  receive-among g (Frame.message m) e = receive_typed-among g (type_of m) e
  receive-among g (Frame.named t) e = receive_typed-among g t e
  receive-among g _ e = omega arith

  pub socket_closed-fewer :
      (g : Listener L → ℕ) (e : ClientEvents L)
      → total g (socket_closed e).0.listeners ≤ total g e.listeners
  unfolding socket_closed close
  socket_closed-fewer g e = elim (Bool-cases e.closed) [
    | inl k ↦ rw (socket_closed, k) (omega arith)
    | inr k ↦ rw (socket_closed, close, k) (omega arith)
  ]
