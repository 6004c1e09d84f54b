-- ===== src/Tests/Servers.antt =====
-- The servers of the SFU and of the observer: sfu/src/Server.ts, sfu/src/common/Middleware.ts and the
-- controllers.
use demo_app.Base.{ℕ, List, [], ◌∷◌, ◌≡◌}
use demo_app.Net.Server
use demo_app.Net.Server.{
  Server, idle, started, running, start_called, stop_called, has_listened, ws_has_closed,
  http_has_closed, run, init, set_processor, assigned, thrown, start, step,
}
use demo_app.Net.Server.Lifecycle.{run-init-IsConsistent, IsConsistent}
use demo_app.Net.Middleware.{Middleware, process}
use demo_app.Net.Middleware.Order.{process-ran, reach, count_from}

abbrev fresh : Server ℕ
fresh = init

abbrev restart : List Server.Event
restart =
    start_called
    ∷ start_called
    ∷ has_listened 0
    ∷ stop_called
    ∷ ws_has_closed 0
    ∷ http_has_closed 0
    ∷ start_called
    ∷ []

run-init-IsConsistent_example : IsConsistent (run restart fresh)
run-init-IsConsistent_example = run-init-IsConsistent ℕ restart

abbrev calling_twice : List (Middleware ℕ)
calling_twice = (λ n. 1) ∷ (λ n. 2) ∷ (λ n. 0) ∷ (λ n. 1) ∷ []

-- The second middleware calls `next` twice, and the third one still runs once.
process-ran_example : (process calling_twice 7).ran ≡ count_from 0 (reach calling_twice 7)
process-ran_example = process-ran ℕ 7 calling_twice
