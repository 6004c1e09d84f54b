-- ===== src/Sfu/ClientEvents/Closing.antt =====
-- The flag `_closed` of a `ClientEvents`, and what is fired under it.
use demo_app.Base.{String, [], ◌≡◌, refl, true, arith}
use demo_app.Protocol.Codec.{Frame}
use demo_app.Protocol.Messages.{type_of}
use demo_app.Sfu.ClientEvents.{ClientEvents, receive, receive_typed, socket_closed}

module _ {ℓ} {L : Type ℓ} where
  receive_typed-closed : (t : String) (e : ClientEvents L) → (receive_typed t e).0.closed ≡ e.closed
  unfolding receive_typed
  receive_typed-closed t e = ground arith

  -- Receiving never changes the flag.
  pub receive-closed : (f : Frame) (e : ClientEvents L) → (receive f e).0.closed ≡ e.closed
  unfolding receive
  receive-closed Frame.unparsable e = refl
  receive-closed Frame.null_value e = refl
  receive-closed Frame.untyped e = refl
  receive-closed (Frame.message m) e = receive_typed-closed (type_of m) e
  receive-closed (Frame.named t) e = receive_typed-closed t e

  -- The socket's `close` always sets it.
  pub socket_closed-closed : (e : ClientEvents L) → (socket_closed e).0.closed ≡ true
  unfolding socket_closed
  socket_closed-closed e = ground arith

  -- A second `close` of the socket changes nothing and fires nothing.
  pub socket_closed_twice :
      (e : ClientEvents L) → socket_closed (socket_closed e).0 ≡ ((socket_closed e).0, [])
  unfolding socket_closed
  socket_closed_twice e = ground arith
