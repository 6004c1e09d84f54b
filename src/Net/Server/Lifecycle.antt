-- ===== src/Net/Server/Lifecycle.antt =====
-- The states that a server goes through.
use demo_app.Base.{
  zero, ℕ, suc, List, [], ◌∷◌, ◌≡◌, refl, ap, ◌∙◌, Bool, true, false, ◌&&◌, arith, All, some, none,
}
use demo_app.Net.Server.{
  ServerState, idle, started, running, stopped, Waiting, listening, closing_ws, closing_http,
  Server, Event, start_called, stop_called, has_listened, ws_has_closed, http_has_closed, init,
  step, run, listened, ws_closed, http_closed, set_processor, assigned, thrown,
}

-- Which calls are under way in a state, and which of Node's servers there are.
abbrev pub fits : ServerState → List Waiting → Bool → Bool → Bool
fits idle [] http ws = true
fits started (listening ∷ []) http ws = http && ws
fits running [] http ws = http && ws
fits stopped (closing_ws ∷ []) http ws = http && ws
fits stopped (closing_http ∷ []) http ws = http && ws
fits _ _ http ws = false

-- The callback of a `listen`.
abbrev pub is_listened : Event → Bool
is_listened (has_listened n) = true
is_listened _ = false

module _ {P : Type 0} where
  abbrev pub IsConsistent : Server P → Type 0
  IsConsistent s = fits s.state s.waiting s.http_server s.ws_server ≡ true

  -- There is at most one call under way.
  listened-IsConsistent :
      (n : ℕ) (ws : List Waiting) (s : Server P)
      → s.waiting ≡ ws
      → IsConsistent s
      → IsConsistent (listened n s)
  unfolding listened
  listened-IsConsistent n [] s q h = ground (arith, q)
  listened-IsConsistent zero (w ∷ []) s q h = ground (arith, q)
  listened-IsConsistent (suc n) (w ∷ []) s q h = ground (arith, q)
  listened-IsConsistent n (w ∷ x ∷ ws) s q h = ground (arith, q)

  ws_closed-IsConsistent :
      (n : ℕ) (ws : List Waiting) (s : Server P)
      → s.waiting ≡ ws
      → IsConsistent s
      → IsConsistent (ws_closed n s)
  unfolding ws_closed
  ws_closed-IsConsistent n [] s q h = ground (arith, q)
  ws_closed-IsConsistent zero (w ∷ []) s q h = ground (arith, q)
  ws_closed-IsConsistent (suc n) (w ∷ []) s q h = ground (arith, q)
  ws_closed-IsConsistent n (w ∷ x ∷ ws) s q h = ground (arith, q)

  http_closed-IsConsistent :
      (n : ℕ) (ws : List Waiting) (s : Server P)
      → s.waiting ≡ ws
      → IsConsistent s
      → IsConsistent (http_closed n s)
  unfolding http_closed
  http_closed-IsConsistent n [] s q h = ground (arith, q)
  http_closed-IsConsistent zero (w ∷ []) s q h = ground (arith, q)
  http_closed-IsConsistent (suc n) (w ∷ []) s q h = ground (arith, q)
  http_closed-IsConsistent n (w ∷ x ∷ ws) s q h = ground (arith, q)

  step-IsConsistent : (e : Event) (s : Server P) → IsConsistent s → IsConsistent (step e s)
  unfolding step
  step-IsConsistent start_called s h = ground arith
  step-IsConsistent stop_called s h = ground arith
  step-IsConsistent (has_listened n) s h = listened-IsConsistent n s.waiting s refl h
  step-IsConsistent (ws_has_closed n) s h = ws_closed-IsConsistent n s.waiting s refl h
  step-IsConsistent (http_has_closed n) s h = http_closed-IsConsistent n s.waiting s refl h

  pub run-IsConsistent : (es : List Event) (s : Server P) → IsConsistent s → IsConsistent (run es s)
  unfolding run
  run-IsConsistent [] s h = h
  run-IsConsistent (e ∷ es) s h = run-IsConsistent es (step e s) (step-IsConsistent e s h)

  -- From an idle server, `start` and the callback of `listen` lead to `running`, with one more call of
  -- `listen`; `stop` and the two callbacks of `close` then lead back to `idle`.
  pub run_lifecycle :
      (s : Server P)
      → IsConsistent s
      → s.state ≡ idle
      → let r = run (start_called ∷ has_listened 0 ∷ []) s in
        (r.state ≡ running)
        × (r.listens ≡ suc s.listens)
        × ((run (stop_called ∷ ws_has_closed 0 ∷ http_has_closed 0 ∷ []) r).state ≡ idle)
  unfolding run step
  run_lifecycle s h e = ground arith

  step_not_listened :
      (e : Event) (s : Server P)
      → IsConsistent s
      → s.state ≡ started
      → is_listened e ≡ false
      → step e s ≡ s
  unfolding step
  step_not_listened (has_listened call) s h q n = absurd (ground (arith, n))
  step_not_listened start_called s h q n = ground arith
  step_not_listened stop_called s h q n = ground arith
  step_not_listened (ws_has_closed call) s h q n = ground arith
  step_not_listened (http_has_closed call) s h q n = ground arith

  -- As long as `listen` does not call back, as when the port is taken, a started server stays as it
  -- is whatever is called: it can neither be stopped nor started again.
  pub run_not_listened :
      (es : List Event) (s : Server P)
      → IsConsistent s
      → s.state ≡ started
      → All (λ e. is_listened e ≡ false) es
      → run es s ≡ s
  unfolding run
  run_not_listened [] s h q all = refl
  run_not_listened (e ∷ es) s h q all =
      ap (run es) (step_not_listened e s h q all.0) ∙ run_not_listened es s h q all.1

  -- A processor is assigned once; only after it has been taken back can another one be.
  pub set_processor_lem :
      (p q : P) (s : Server P)
      → s.processor ≡ none
      → (set_processor (some p) s ≡ assigned (record s { processor = some p }))
        × (set_processor (some q) (record s { processor = some p }) ≡ thrown)
        × (set_processor none (record s { processor = some p }) ≡ assigned s)
  unfolding set_processor
  set_processor_lem p q s e = ground arith

-- A new server, after any order of calls and of Node's answers to any of the calls under way, is idle
-- with no call under way, or started with one call that listens, or running with both of Node's servers
-- and no call under way, or stopped with one call that closes one of them: there are never two calls
-- under way, and the state `aborted` is never taken.
pub run-init-IsConsistent : (P : Type 0) (es : List Event) → IsConsistent (run es (init {P = P}))
unfolding init
run-init-IsConsistent P es = run-IsConsistent es (init {P = P}) refl
