-- ===== src/Tests/Connections.antt =====
-- Connections at work: webapp/src/contexts/ServerConnection.tsx, and
-- sfu/src/common/ObserverServiceClient.ts.
use demo_app.Base.{ℕ, ◌≤◌, ◌+◌, List, [], ◌∷◌, ◌++◌, ◌≡◌, refl, none, length, arith}
use mathlib.Core.List.{Perm}
use demo_app.Protocol.Messages.{Message}
use demo_app.Webapp.ServerConnection.{
  ServerConnectionConfig, negative, limit, init, unsettled, Event, connect_called, has_opened,
  has_failed, has_waited, has_ticked, sent, requested, run,
}
use demo_app.Webapp.ServerConnection.Retrying.{next_socket-run, run-unsettled}
use demo_app.Webapp.ServerConnection.Bounded.{length-buffer_le}
use demo_app.Webapp.ServerConnection.Conserving.{held, handed, held-run}
use demo_app.Webapp.ServerConnection.Draining.{sends, run-drained}
use demo_app.Webapp.ServerConnection.Buffering.{fresh}
use demo_app.Sfu.ObserverServiceClient
use demo_app.Sfu.ObserverServiceClient.Once.{OnFirst, next_socket-run_once}
use demo_app.Sfu.ObserverServiceClient.Taken.{samples_of, offered}

abbrev bounded : ServerConnectionConfig
bounded = record { max_retry = limit 1; max_buffer_time_in_ms = limit 5; max_buffer_size = limit 1 }

-- That of the application.
abbrev unlimited : ServerConnectionConfig
unlimited = record {
  max_retry = negative;
  max_buffer_time_in_ms = negative;
  max_buffer_size = negative;
}

abbrev hello : Message
hello = Message.join_call_request "r1"

abbrev bye : Message
bye = Message.get_router_capabilities_request "r2"

-- Three attempts fail, and two messages come.
abbrev gives_up : List Event
gives_up =
    connect_called
    ∷ has_failed
    ∷ has_waited
    ∷ has_failed
    ∷ has_waited
    ∷ has_failed
    ∷ sent 1 hello
    ∷ sent 2 bye
    ∷ connect_called
    ∷ []

next_socket-run_example : (run gives_up (init {L = ℕ} bounded)).next_socket ≤ 1 + 2
next_socket-run_example = next_socket-run ℕ 1 bounded gives_up (omega arith) refl

three_sockets : (run gives_up (init {L = ℕ} bounded)).next_socket ≡ 3
unfolding run init
three_sockets = refl

run-unsettled_example :
    let s = run gives_up (init {L = ℕ} bounded) in
    let t = run (connect_called ∷ has_opened ∷ sent 3 hello ∷ []) s in
    (t.connecting ≡ unsettled) × (t.ws ≡ none) × (t.next_socket ≡ s.next_socket) × (t.wire ≡ s.wire)
unfolding run init
run-unsettled_example =
    run-unsettled ℕ (connect_called ∷ has_opened ∷ sent 3 hello ∷ [])
      (run gives_up (init {L = ℕ} bounded)) refl refl

length-buffer_le_example : length (run gives_up (init {L = ℕ} bounded)).buffer ≤ 1
length-buffer_le_example = length-buffer_le ℕ 1 bounded gives_up refl

-- A message and a request come before the connection is there.
abbrev early : List Event
early = sent 1 hello ∷ requested 2 "r2" bye ∷ connect_called ∷ has_opened ∷ []

held-run_example : Perm (held (run early (init {L = ℕ} unlimited))) (handed early)
held-run_example = held-run ℕ unlimited early (refl, refl)

run-drained_example :
    let s = run early (init {L = ℕ} unlimited) in
    let t = run (sends 3 (bye ∷ []) ++ has_ticked 4 ∷ []) s in
    (t.buffer ≡ [])
    × (t.wire ≡ (s.wire ++ bye ∷ []) ++ fresh 4 s.config.max_buffer_time_in_ms s.buffer)
unfolding run init
run-drained_example = run-drained ℕ unlimited early 3 4 0 (bye ∷ []) refl

-- The message that came last is sent first.
overtaking :
    (run (early ++ sent 3 bye ∷ has_ticked 4 ∷ []) (init {L = ℕ} unlimited)).wire
    ≡ bye ∷ hello ∷ bye ∷ []
unfolding run init
overtaking = refl

abbrev samples : List ObserverServiceClient.Event
samples =
    ObserverServiceClient.Event.connect_called
    ∷ ObserverServiceClient.Event.sent "a"
    ∷ ObserverServiceClient.Event.has_opened
    ∷ ObserverServiceClient.Event.sent "b"
    ∷ ObserverServiceClient.Event.connect_called
    ∷ []

next_socket-run_once_example :
    let s = ObserverServiceClient.run samples ObserverServiceClient.init in
    (s.next_socket ≤ 1) × OnFirst s.wire × (samples_of s.wire ++ s.buffer ≡ offered samples)
next_socket-run_once_example = next_socket-run_once samples
