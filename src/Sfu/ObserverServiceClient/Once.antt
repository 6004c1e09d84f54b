-- ===== src/Sfu/ObserverServiceClient/Once.antt =====
-- How often sfu/src/common/ObserverServiceClient.ts connects.
use demo_app.Base.{
  String, ℕ, ◌≤◌, List, [], ◌∷◌, ◌≡◌, refl, Option, none, some, arith, subst, sym, ap, All, ◌++◌,
}
use demo_app.Sfu.ObserverServiceClient.{
  ObserverServiceClient, Connecting, undefined, pending, fulfilled, Waiter, for_disconnect,
  for_close, Event, connect_called, disconnect_called, close_called, sent, has_opened, has_closed,
  init, connect, shut_socket, leave, disconnect, close, run_waiters, opened, send_all, send, step,
  run,
}
use demo_app.Sfu.ObserverServiceClient.Taken.{samples_of, offered, taken-run}

-- All samples went to the first web socket.
abbrev pub OnFirst : List (ℕ × String) → Type 0
OnFirst xs = All (λ x. x.0 ≡ 0) xs

-- Before the one attempt there is no web socket, and after it there is that one.
abbrev Single : Connecting → Option ℕ → ℕ → List (ℕ × String) → Type 0
Single undefined w k xs = (w ≡ none) × (k ≡ 0) × (xs ≡ [])
Single (pending x) w k xs = (x ≡ 0) × (w ≡ none) × (k ≡ 1) × (xs ≡ [])
Single fulfilled w k xs = (w ≡ some 0) × (k ≡ 1) × OnFirst xs

abbrev IsSingle : ObserverServiceClient → Type 0
IsSingle s = Single s.connecting s.ws s.next_socket s.wire

-- What a step may leave as it was.
abbrev Same : ObserverServiceClient → ObserverServiceClient → Type 0
Same s t =
    (t.connecting ≡ s.connecting)
    × (t.ws ≡ s.ws)
    × (t.next_socket ≡ s.next_socket)
    × (t.wire ≡ s.wire)

Same-IsSingle : (s t : ObserverServiceClient) → Same s t → IsSingle s → IsSingle t
Same-IsSingle s t c h = rw (c.0, c.1, c.2, c.3) h

run_waiters-Same : (ws : List Waiter) (s : ObserverServiceClient) → Same s (run_waiters ws s)
unfolding run_waiters leave shut_socket
run_waiters-Same [] s = (refl, refl, refl, refl)
run_waiters-Same (for_disconnect ∷ ws) s = ground (arith, run_waiters-Same ws (leave s))
run_waiters-Same (for_close ∷ ws) s = ground (arith, run_waiters-Same ws (shut_socket s))

connect-IsSingle : (s : ObserverServiceClient) → IsSingle s → IsSingle (step connect_called s)
unfolding step connect
connect-IsSingle s h = ground arith

disconnect-Same : (s : ObserverServiceClient) → Same s (step disconnect_called s)
unfolding step disconnect leave shut_socket
disconnect-Same s = ground arith

close-Same : (s : ObserverServiceClient) → Same s (close s)
unfolding close shut_socket
close-Same s = ground arith

opened-IsSingle :
    (c : Connecting) (s : ObserverServiceClient)
    → s.connecting ≡ c
    → IsSingle s
    → IsSingle (opened s)
unfolding opened
opened-IsSingle undefined s e h = rw (e, opened) h
opened-IsSingle fulfilled s e h = rw (e, opened) h
opened-IsSingle (pending x) s e h =
    let t = record s { connecting = fulfilled; ws = some x; waiters = [] } in
    let before : Single (pending x) s.ws s.next_socket s.wire =
      subst (λ c. Single c s.ws s.next_socket s.wire) e h in
    let after : IsSingle t = (ap some before.0, before.2, subst OnFirst (sym before.3) tt) in
    rw (e, opened) (Same-IsSingle t (run_waiters s.waiters t) (run_waiters-Same s.waiters t) after)

OnFirst-append : (xs ys : List (ℕ × String)) → OnFirst xs → OnFirst ys → OnFirst (xs ++ ys)
OnFirst-append [] ys h k = k
OnFirst-append (x ∷ xs) ys h k = (h.0, OnFirst-append xs ys h.1 k)

send_all-OnFirst : (xs : List String) → OnFirst (send_all 0 xs)
unfolding send_all
send_all-OnFirst [] = tt
send_all-OnFirst (x ∷ xs) = (refl, send_all-OnFirst xs)

send-IsSingle :
    (x : String) (c : Connecting) (s : ObserverServiceClient)
    → s.connecting ≡ c
    → IsSingle s
    → IsSingle (step (sent x) s)
unfolding step send
send-IsSingle x undefined s e h = ground arith
send-IsSingle x (pending y) s e h = ground arith
send-IsSingle x fulfilled s e h =
    let before : Single fulfilled s.ws s.next_socket s.wire =
      subst (λ c. Single c s.ws s.next_socket s.wire) e h in
    let more =
      OnFirst-append (s.wire ++ send_all 0 s.buffer) ((0, x) ∷ [])
        (OnFirst-append s.wire (send_all 0 s.buffer) before.2 (send_all-OnFirst s.buffer))
        (refl, tt) in
    ground (arith, more)

step-IsSingle : (e : Event) (s : ObserverServiceClient) → IsSingle s → IsSingle (step e s)
unfolding step
step-IsSingle connect_called s h = connect-IsSingle s h
step-IsSingle disconnect_called s h =
    Same-IsSingle s (step disconnect_called s) (disconnect-Same s) h
step-IsSingle close_called s h = Same-IsSingle s (close s) (close-Same s) h
step-IsSingle (sent x) s h = send-IsSingle x s.connecting s refl h
step-IsSingle has_opened s h = opened-IsSingle s.connecting s refl h
step-IsSingle has_closed s h = h

run-IsSingle : (es : List Event) (s : ObserverServiceClient) → IsSingle s → IsSingle (run es s)
unfolding run
run-IsSingle [] s h = h
run-IsSingle (e ∷ es) s h = run-IsSingle es (step e s) (step-IsSingle e s h)

Single-le :
    (c : Connecting) (w : Option ℕ) (k : ℕ) (xs : List (ℕ × String))
    → Single c w k xs
    → (k ≤ 1) × OnFirst xs
Single-le undefined w k xs h = (omega arith, subst OnFirst (sym h.2) tt)
Single-le (pending x) w k xs h = (omega arith, subst OnFirst (sym h.3) tt)
Single-le fulfilled w k xs h = (omega arith, h.2)

-- In its whole life the client makes at most one web socket, however often `connect` is called and
-- whatever becomes of the web socket, also when it closes: it does not reconnect. Of the samples that
-- `send` was called with before `close`, none is lost, doubled or overtaken: those given to a web
-- socket, which are given to that one, and after them those that wait in the buffer, are all of
-- them in their order.
pub next_socket-run_once :
    (es : List Event)
    → ((run es init).next_socket ≤ 1)
      × OnFirst (run es init).wire
      × (samples_of (run es init).wire ++ (run es init).buffer ≡ offered es)
unfolding init
next_socket-run_once es =
    let s = run es init in
    let single =
      Single-le s.connecting s.ws s.next_socket s.wire (run-IsSingle es init (refl, refl, refl)) in
    (single.0, single.1, taken-run es init refl)
