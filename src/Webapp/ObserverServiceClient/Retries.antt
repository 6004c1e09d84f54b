-- ===== src/Webapp/ObserverServiceClient/Retries.antt =====
-- How often webapp/src/utils/ObserverServiceClient.ts tries to connect.
use demo_app.Base.{
  ℕ, zero, suc, ◌+◌, ◌≤◌, ◌<◌, List, [], ◌∷◌, ◌++◌, ◌≡◌, refl, ap, ◌∙◌, true, false, some, arith,
  if◌then◌else◌, leb, inl, inr, Bool-cases,
}
use demo_app.Webapp.ObserverServiceClient.{
  ObserverServiceClient, idle, dialing, Event, connect_called, has_opened, has_failed, has_elapsed,
  dial, connect, failed, elapsed, opened, establish, run_waiters, step, run,
}

-- A number of attempts that fail, and the timers after them.
abbrev pub failures : ℕ → List Event
failures zero = []
failures (suc k) = has_failed ∷ has_elapsed ∷ failures k

-- What an attempt leaves as it was.
abbrev pub dialed : (socket tried : ℕ) → ObserverServiceClient → ObserverServiceClient
dialed socket tried s = record s { connecting = dialing socket tried; next_socket = suc socket }

retry :
    (w n : ℕ) (s : ObserverServiceClient)
    → n ≤ 10
    → run (has_failed ∷ has_elapsed ∷ []) (dialed w n s) ≡ dialed (suc w) (suc n) s
unfolding run step failed elapsed dial
retry w n s h = ground arith

-- The promise is rejected.
abbrev given_up : (socket : ℕ) → ObserverServiceClient → ObserverServiceClient
given_up socket s = record s { connecting = idle; waiters = []; next_socket = suc socket }

give_up :
    (w n : ℕ) (s : ObserverServiceClient)
    → 10 < n
    → run (has_failed ∷ has_elapsed ∷ []) (dialed w n s) ≡ given_up w s
unfolding run step failed elapsed dial
give_up w n s h = ground arith

-- With no attempt under way nothing of an attempt happens.
run-idle :
    (k : ℕ) (s : ObserverServiceClient)
    → s.connecting ≡ idle
    → run (failures k ++ has_opened ∷ []) s ≡ s
unfolding run step failed elapsed opened
run-idle zero s h = rw h refl
run-idle (suc k) s h =
    let once : run (has_failed ∷ has_elapsed ∷ []) s ≡ s = rw h refl in
    ap (run (failures k ++ has_opened ∷ [])) once ∙ run-idle k s h

-- The web socket after some failures, at an attempt with a number.
run-dialed :
    (k w n : ℕ) (s : ObserverServiceClient)
    → n ≤ 11
    → s.waiters ≡ []
    → (run (failures k ++ has_opened ∷ []) (dialed w n s)).ws
      ≡ (if leb (k + n) 11 then some (w + k) else s.ws)
unfolding run step opened establish run_waiters
run-dialed zero w n s h q = rw q (ground arith)
run-dialed (suc k) w n s h q = elim (Bool-cases (leb n 10)) [
  | inl more ↦
      ap (λ t. (run (failures k ++ has_opened ∷ []) t).ws) (retry w n s (ground arith))
      ∙ run-dialed k (suc w) (suc n) s (ground arith) q
      ∙ ground arith
  | inr last ↦
      ap (λ t. (run (failures k ++ has_opened ∷ []) t).ws) (give_up w n s (ground arith))
      ∙ ap (λ t. t.ws) (run-idle k (given_up w s) refl)
      ∙ ground arith
]

-- From a client that is open and idle, `connect` and then any number of failed attempts, each but a
-- last one with the wait after it, and a successful one: the client has the web socket of that attempt
-- if no more than 11 attempts failed; otherwise it has given up and has the one it had before.
pub ws-connect :
    (k : ℕ) (s : ObserverServiceClient)
    → s.closed ≡ false
    → s.connecting ≡ idle
    → s.waiters ≡ []
    → (run (connect_called ∷ failures k ++ has_opened ∷ []) s).ws
      ≡ (if leb k 11 then some (s.next_socket + k) else s.ws)
unfolding run step connect dial
ws-connect k s o i q =
    let begun : step connect_called s ≡ dialed s.next_socket 0 (record s { can_connect = true }) =
      ground arith in
    ap (λ t. (run (failures k ++ has_opened ∷ []) t).ws) begun
    ∙ run-dialed k s.next_socket 0 (record s { can_connect = true }) (omega arith) q
    ∙ ground arith
