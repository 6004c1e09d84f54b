-- ===== src/Webapp/ObserverServiceClient/Delivery.antt =====
-- What becomes of the samples given to `send` of webapp/src/utils/ObserverServiceClient.ts.
use demo_app.Base.{
  String, ℕ, List, [], ◌∷◌, ◌++◌, ◌≡◌, refl, sym, ap, ◌∙◌, true, false, none, if◌then◌else◌, select,
  not, eqb, Bool-cases, Option-cases, inl, inr, arith,
}
use mathlib.Core.List.{append_assoc, append-nil}
use demo_app.Webapp.ObserverServiceClient.{
  ObserverServiceClient, Connecting, idle, dialing, pausing, Waiter, for_disconnect, for_close,
  Event, connect_called, disconnect_called, close_called, sent, has_opened, has_failed, has_elapsed,
  has_closed, dial, connect, shut_socket, leave, disconnect, close, run_waiters, establish, opened,
  failed, elapsed, come_back, socket_gone, send_all, send, step, run, or_same,
}

unfoldable pub texts : List (ℕ × String) → List String
texts [] = []
texts ((w, x) ∷ xs) = x ∷ texts xs

-- The samples that the web sockets have got, and those that wait.
abbrev pub delivered : ObserverServiceClient → List String
delivered s = texts s.wire ++ s.buffer

-- The sample of an event that `send` does not refuse.
unfoldable pub taken_by : Event → ObserverServiceClient → List String
taken_by (sent x) s = if s.closed then [] else x ∷ []
taken_by _ s = []

-- The samples of a run, in order.
unfoldable pub taken : List Event → ObserverServiceClient → List String
unfolding taken_by
taken [] s = []
taken (e ∷ es) s = taken_by e s ++ taken es (step e s)

texts-append : (xs ys : List (ℕ × String)) → texts (xs ++ ys) ≡ texts xs ++ texts ys
unfolding texts
texts-append [] ys = refl
texts-append ((w, x) ∷ xs) ys = ap (λ l. x ∷ l) (texts-append xs ys)

texts-send_all : (w : ℕ) (xs : List String) → texts (send_all w xs) ≡ xs
unfolding texts send_all
texts-send_all w [] = refl
texts-send_all w (x ∷ xs) = ap (λ l. x ∷ l) (texts-send_all w xs)

-- A step that sends nothing.
abbrev Silent : ObserverServiceClient → ObserverServiceClient → Type 0
Silent s t = (t.wire ≡ s.wire) × (t.buffer ≡ s.buffer)

shut_socket-Silent : (s : ObserverServiceClient) → Silent s (shut_socket s)
unfolding shut_socket
shut_socket-Silent s = ground arith

run_waiters-Silent : (ws : List Waiter) (s : ObserverServiceClient) → Silent s (run_waiters ws s)
unfolding run_waiters leave
run_waiters-Silent [] s = (refl, refl)
run_waiters-Silent (for_disconnect ∷ ws) s =
    ground (
      arith,
      run_waiters-Silent ws (leave s),
      shut_socket-Silent (record s { can_connect = false }),
    )
run_waiters-Silent (for_close ∷ ws) s =
    ground (arith, run_waiters-Silent ws (shut_socket s), shut_socket-Silent s)

close-Silent : (s : ObserverServiceClient) → Silent s (close s)
unfolding close
close-Silent s = ground (arith, shut_socket-Silent (record s { closed = true }))

connect-Silent : (s : ObserverServiceClient) → Silent s (or_same s (connect s))
unfolding connect dial
connect-Silent s = ground arith

disconnect-Silent : (s : ObserverServiceClient) → Silent s (or_same s (disconnect s))
unfolding disconnect leave
disconnect-Silent s = ground (arith, shut_socket-Silent (record s { can_connect = false }))

establish-Silent : (w : ℕ) (s : ObserverServiceClient) → Silent s (establish w s)
unfolding establish
establish-Silent w s = run_waiters-Silent s.waiters _

opened-Silent :
    (c : Connecting) (s : ObserverServiceClient) → s.connecting ≡ c → Silent s (opened s)
unfolding opened
opened-Silent idle s e = rw (e, opened) (refl, refl)
opened-Silent (dialing w tried) s e = rw (e, opened) (establish-Silent w s)
opened-Silent (pausing tried) s e = rw (e, opened) (refl, refl)

failed-Silent : (s : ObserverServiceClient) → Silent s (failed s)
unfolding failed
failed-Silent s = ground arith

elapsed-Silent : (s : ObserverServiceClient) → Silent s (elapsed s)
unfolding elapsed dial
elapsed-Silent s = ground arith

come_back-Silent : (code : ℕ) (s : ObserverServiceClient) → Silent s (come_back code s)
unfolding come_back
come_back-Silent code s = ground (arith, close-Silent s, connect-Silent s)

socket_gone-Silent : (w code : ℕ) (s : ObserverServiceClient) → Silent s (socket_gone w code s)
unfolding socket_gone
socket_gone-Silent w code s = ground (
  arith,
  come_back-Silent code
      (record s { established = select (λ v. not (eqb v w)) s.established; ws = none }),
)

-- `send` either throws and changes nothing, or appends the sample to what was delivered.
send-delivered :
    (x : String) (s : ObserverServiceClient)
    → delivered (or_same s (send x s)) ≡ delivered s ++ (if s.closed then [] else x ∷ [])
unfolding send texts
send-delivered x s = elim (Bool-cases s.closed) [
  | inl shut ↦ rw shut (sym (append-nil (delivered s)))
  | inr is_open ↦ elim (Option-cases s.ws) [
    | inl e ↦ rw (is_open, e) (sym (append_assoc (texts s.wire) s.buffer (x ∷ [])))
    | inr (w, e) ↦
        rw (is_open, e)
          (append-nil (texts ((s.wire ++ send_all w s.buffer) ++ (w, x) ∷ []))
            ∙ texts-append (s.wire ++ send_all w s.buffer) ((w, x) ∷ [])
            ∙ ap (λ l. l ++ x ∷ [])
                (texts-append s.wire (send_all w s.buffer)
                  ∙ ap (λ l. texts s.wire ++ l) (texts-send_all w s.buffer)))
  ]
]

Silent-delivered : (s t : ObserverServiceClient) → Silent s t → delivered t ≡ delivered s ++ []
Silent-delivered s t h = rw (h.0, h.1) (sym (append-nil (delivered s)))

step-delivered :
    (e : Event) (s : ObserverServiceClient) → delivered (step e s) ≡ delivered s ++ taken_by e s
unfolding step taken_by
step-delivered connect_called s = Silent-delivered s (or_same s (connect s)) (connect-Silent s)
step-delivered disconnect_called s =
    Silent-delivered s (or_same s (disconnect s)) (disconnect-Silent s)
step-delivered close_called s = Silent-delivered s (close s) (close-Silent s)
step-delivered (sent x) s = send-delivered x s
step-delivered has_opened s = Silent-delivered s (opened s) (opened-Silent s.connecting s refl)
step-delivered has_failed s = Silent-delivered s (failed s) (failed-Silent s)
step-delivered has_elapsed s = Silent-delivered s (elapsed s) (elapsed-Silent s)
step-delivered (has_closed w code) s =
    Silent-delivered s (socket_gone w code s) (socket_gone-Silent w code s)

-- Whatever happens to the connection, no sample that `send` takes is lost, doubled or overtaken
-- between `send` and the web sockets: what they have got, followed by what waits, is in order what it
-- was before followed by the samples taken since.
pub delivered-run :
    (es : List Event) (s : ObserverServiceClient) → delivered (run es s) ≡ delivered s ++ taken es s
unfolding run taken
delivered-run [] s = sym (append-nil (delivered s))
delivered-run (e ∷ es) s =
    delivered-run es (step e s)
    ∙ ap (λ l. l ++ taken es (step e s)) (step-delivered e s)
    ∙ append_assoc (delivered s) (taken_by e s) (taken es (step e s))
