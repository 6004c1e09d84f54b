-- ===== src/Sfu/ObserverServiceClient/Taken.antt =====
-- What becomes of the samples given to sfu/src/common/ObserverServiceClient.ts.
use demo_app.Base.{
  true, false, map, ◌∙◌, Option-cases, inl, inr, String, ℕ, List, [], ◌∷◌, ◌≡◌, refl, some, arith,
  sym, ap, ◌++◌,
}
use demo_app.Sfu.ObserverServiceClient.{
  ObserverServiceClient, Connecting, undefined, pending, fulfilled, Waiter, for_disconnect,
  for_close, Event, connect_called, disconnect_called, close_called, sent, has_opened, has_closed,
  connect, shut_socket, leave, disconnect, close, run_waiters, opened, send_all, send, step, run,
}

-- The samples that `send` was called with, in order; after `close` it throws.
abbrev pub offered : List Event → List String
offered [] = []
offered (close_called ∷ es) = []
offered (sent x ∷ es) = x ∷ offered es
offered (e ∷ es) = offered es

abbrev pub samples_of : List (ℕ × String) → List String
samples_of = map (λ p. p.1)

-- What the client has taken: what went to a web socket, and what waits in the buffer.
abbrev pub taken : ObserverServiceClient → List String
taken s = samples_of s.wire ++ s.buffer

samples_of-send_all : (w : ℕ) (xs : List String) → samples_of (send_all w xs) ≡ xs
unfolding send_all
samples_of-send_all w [] = refl
samples_of-send_all w (x ∷ xs) = ap (λ (l : List String). x ∷ l) (samples_of-send_all w xs)

samples_of-append :
    (xs ys : List (ℕ × String)) → samples_of (xs ++ ys) ≡ samples_of xs ++ samples_of ys
samples_of-append [] ys = refl
samples_of-append (x ∷ xs) ys = ap (λ (l : List String). x.1 ∷ l) (samples_of-append xs ys)

append_nil : (xs : List String) → xs ++ [] ≡ xs
append_nil [] = refl
append_nil (x ∷ xs) = ap (λ (l : List String). x ∷ l) (append_nil xs)

append_assoc : (xs ys zs : List String) → (xs ++ ys) ++ zs ≡ xs ++ (ys ++ zs)
append_assoc [] ys zs = refl
append_assoc (x ∷ xs) ys zs = ap (λ (l : List String). x ∷ l) (append_assoc xs ys zs)

-- What a call leaves as it was.
abbrev Quiet : ObserverServiceClient → ObserverServiceClient → Type 0
Quiet s t = (t.closed ≡ s.closed) × (t.wire ≡ s.wire) × (t.buffer ≡ s.buffer)

run_waiters-Quiet : (ws : List Waiter) (s : ObserverServiceClient) → Quiet s (run_waiters ws s)
unfolding run_waiters leave shut_socket
run_waiters-Quiet [] s = (refl, refl, refl)
run_waiters-Quiet (for_disconnect ∷ ws) s = ground (arith, run_waiters-Quiet ws (leave s))
run_waiters-Quiet (for_close ∷ ws) s = ground (arith, run_waiters-Quiet ws (shut_socket s))

opened-Quiet : (s : ObserverServiceClient) → Quiet s (opened s)
unfolding opened
opened-Quiet s = go s.connecting refl
  where
    go : (c : Connecting) → s.connecting ≡ c → Quiet s (opened s)
    go undefined e = rw (e, opened) (refl, refl, refl)
    go fulfilled e = rw (e, opened) (refl, refl, refl)
    go (pending w) e =
        rw (e, opened)
          (run_waiters-Quiet s.waiters
            (record s { connecting = fulfilled; ws = some w; waiters = [] }))

connect-Quiet : (s : ObserverServiceClient) → Quiet s (step connect_called s)
unfolding step connect
connect-Quiet s = ground arith

disconnect-Quiet : (s : ObserverServiceClient) → Quiet s (step disconnect_called s)
unfolding step disconnect leave shut_socket
disconnect-Quiet s = ground arith

close-Quiet :
    (s : ObserverServiceClient)
    → ((close s).closed ≡ true) × ((close s).wire ≡ s.wire) × ((close s).buffer ≡ s.buffer)
unfolding close shut_socket
close-Quiet s = ground arith

taken-send :
    (x : String) (s : ObserverServiceClient)
    → s.closed ≡ false
    → ((step (sent x) s).closed ≡ false) × (taken (step (sent x) s) ≡ taken s ++ x ∷ [])
unfolding step send
taken-send x s live = elim (Option-cases s.ws) [
  | inl e ↦ rw (live, e, send) (live, sym (append_assoc (samples_of s.wire) s.buffer (x ∷ [])))
  | inr (w, e) ↦
      rw (live, e, send)
        (
          live,
          append_nil _
              ∙ samples_of-append (s.wire ++ send_all w s.buffer) ((w, x) ∷ [])
              ∙ ap (λ (l : List String). l ++ x ∷ [])
                  (samples_of-append s.wire (send_all w s.buffer)
                    ∙ ap (λ (l : List String). samples_of s.wire ++ l)
                        (samples_of-send_all w s.buffer)),
        )
]

-- A closed client takes nothing more.
taken-run_closed :
    (es : List Event) (s : ObserverServiceClient) → s.closed ≡ true → taken (run es s) ≡ taken s
unfolding run step send
taken-run_closed [] s c = refl
taken-run_closed (e ∷ es) s c =
    let quiet = closed_step e in
    taken-run_closed es (step e s) (quiet.0 ∙ c)
    ∙ ap (λ (l : List (ℕ × String)). samples_of l ++ (step e s).buffer) quiet.1
    ∙ ap (λ (l : List String). samples_of s.wire ++ l) quiet.2
  where
    closed_step : (e : Event) → Quiet s (step e s)
    closed_step connect_called = connect-Quiet s
    closed_step disconnect_called = disconnect-Quiet s
    closed_step close_called = ((close-Quiet s).0 ∙ sym c, (close-Quiet s).1, (close-Quiet s).2)
    closed_step (sent x) = rw (send, c) (refl, refl, refl)
    closed_step has_opened = opened-Quiet s
    closed_step has_closed = (refl, refl, refl)

Quiet-taken :
    (s t : ObserverServiceClient) (xs : List String)
    → Quiet s t
    → s.closed ≡ false
    → (taken t ++ xs ≡ taken s ++ xs) × (t.closed ≡ false)
Quiet-taken s t xs q live = (rw (q.1, q.2) refl, q.0 ∙ live)

pub taken-run :
    (es : List Event) (s : ObserverServiceClient)
    → s.closed ≡ false
    → taken (run es s) ≡ taken s ++ offered es
unfolding run
taken-run [] s live = sym (append_nil (taken s))
taken-run (close_called ∷ es) s live =
    unfold step in
    taken-run_closed es (close s) (close-Quiet s).0
    ∙ rw ((close-Quiet s).1, (close-Quiet s).2) (sym (append_nil (taken s)))
taken-run (sent x ∷ es) s live =
    let after = taken-send x s live in
    taken-run es (step (sent x) s) after.0
    ∙ ap (λ (l : List String). l ++ offered es) after.1
    ∙ append_assoc (taken s) (x ∷ []) (offered es)
taken-run (connect_called ∷ es) s live =
    let after = Quiet-taken s (step connect_called s) (offered es) (connect-Quiet s) live in
    taken-run es (step connect_called s) after.1 ∙ after.0
taken-run (disconnect_called ∷ es) s live =
    let after = Quiet-taken s (step disconnect_called s) (offered es) (disconnect-Quiet s) live in
    taken-run es (step disconnect_called s) after.1 ∙ after.0
taken-run (has_opened ∷ es) s live =
    unfold step in
    let after = Quiet-taken s (opened s) (offered es) (opened-Quiet s) live in
    taken-run es (opened s) after.1 ∙ after.0
taken-run (has_closed ∷ es) s live = unfold step in taken-run es s live
