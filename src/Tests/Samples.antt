-- ===== src/Tests/Samples.antt =====
-- Samples of two clients on their way to the observer: observer/src/sources and
-- observer/src/evaluators.
use demo_app.Base.{
  leb, true, List, ◌++◌, ◌∷◌, [], if◌then◌else◌, ◌+◌, ◌&&◌, is_some, ◌≡◌, refl, none, some, arith,
}
use demo_app.Base.JsMap
use demo_app.Base.JsMap.{get}
use demo_app.Observer.Sources
use demo_app.Observer.Sources.{Peer, Sources, accept, check, setup, create, disconnect}
use demo_app.Observer.Sources.Checking.{get-check, kept}
use demo_app.Observer.Sources.Sockets.{IsValid, accept-IsValid}
use demo_app.Observer.ObservedClients
use demo_app.Observer.Reconnection.{overtaken-check, overtaken, disconnect-accept}
use demo_app.Observer.Evaluators.Calls.{
  EndedCall, Evaluator, report_ended_lem, update_summaries, report_ended, count, ends,
}
use demo_app.Observer.Evaluators.Gauges.{
  PeerConnection, clients_using_turn, clients_using_turn_lem, IsSetLike, includes, relays,
}
use demo_app.Webapp.ObserverServiceClient
use demo_app.Webapp.ObserverServiceClient.{
  ObserverServiceClient, connect_called, close_called, sent, has_opened, has_closed,
}
use demo_app.Webapp.ObserverServiceClient.Delivery.{delivered, taken, delivered-run}
use demo_app.Webapp.ObserverServiceClient.Retries.{failures, ws-connect}

init-IsValid : IsValid Sources.init
unfolding Sources.init
init-IsValid = record { distinct = tt; keyed = tt }

-- Ann and Bob have come over the web sockets 0 and 1.
abbrev joined : Sources
joined = accept "bob" 1 (accept "ann" 0 Sources.init)

joined-IsValid : IsValid joined
joined-IsValid =
    accept-IsValid "bob" 1 (accept "ann" 0 Sources.init)
      (accept-IsValid "ann" 0 Sources.init init-IsValid)

abbrev ann_peer : Peer
ann_peer = record { id = "ann"; source = 0; disconnected = none; web_socket = some 0 }

get-check_example :
    get "ann" (check 5 10 joined).peers
    ≡ kept 5 10 (get "ann" joined.peers) (get "ann" joined.peers)
get-check_example = get-check 5 10 "ann" joined joined-IsValid.distinct joined-IsValid.keyed

overtaken-check_example :
    ((p : Peer) × (get "eve" (overtaken 10 "eve" 2 3 Sources.init).peers ≡ some p)
      × (p.web_socket ≡ some 3)
      × (p.disconnected ≡ some 10))
    × (get "eve" (check 5 20 (overtaken 10 "eve" 2 3 Sources.init)).peers ≡ none)
unfolding Sources.init
overtaken-check_example =
    overtaken-check 10 20 5 "eve" 2 3 Sources.init init-IsValid (omega arith) tt (omega arith)
      (omega arith)

disconnect-accept_example :
    let back = accept "ann" 4 (check 5 14 (ObservedClients.disconnect 10 "ann" joined)) in
    (get "ann" (check 5 40 back).peers
      ≡ some (record ann_peer { disconnected = none; web_socket = some 4 }))
    × (back.next_source ≡ joined.next_source)
unfolding Sources.init accept setup create get JsMap.find JsMap.set JsMap.put
disconnect-accept_example =
    disconnect-accept 10 14 40 5 "ann" 4 ann_peer joined joined-IsValid refl refl (omega arith)

abbrev nothing_seen : Evaluator
nothing_seen = record { summaries = JsMap.empty; durations = []; reports = [] }

abbrev call : EndedCall
call = record {
  call_id = some "call-1";
  service_id = none;
  room_id = "lobby";
  started = 1;
  ended = 9;
}

abbrev seen : Evaluator
seen = update_summaries (("call-1", 2) ∷ ("call-1", 3) ∷ []) nothing_seen

report_ended_lem_example :
    let t = report_ended 9 (call ∷ call ∷ []) seen in
    (count "call-1" t.reports
      ≡ count "call-1" seen.reports
        + (if ends "call-1" (call ∷ call ∷ []) && is_some (get "call-1" seen.summaries)
            then 1
            else 0))
    × (get "call-1" t.summaries
        ≡ (if ends "call-1" (call ∷ call ∷ []) then none else get "call-1" seen.summaries))
report_ended_lem_example = report_ended_lem "call-1" 9 (call ∷ call ∷ []) seen

abbrev relayed : PeerConnection
relayed = record {
  client_id = some "ann";
  ice_remote_candidates = record { id = "c1"; candidate_type = "relay" } ∷ [];
  ice_candidate_pairs = "c1" ∷ [];
}

clients_using_turn_lem_example :
    IsSetLike (clients_using_turn (relayed ∷ relayed ∷ []) [])
    × (includes "ann" (clients_using_turn (relayed ∷ relayed ∷ []) [])
        ≡ relays "ann" (relayed ∷ relayed ∷ []))
clients_using_turn_lem_example = clients_using_turn_lem (relayed ∷ relayed ∷ []) "ann"

abbrev offline : ObserverServiceClient
offline = ObserverServiceClient.init true

-- A sample before the connection, two over it, its loss, and one that waits again.
abbrev session : List ObserverServiceClient.Event
session =
    sent "a"
    ∷ connect_called
    ∷ has_opened
    ∷ sent "b"
    ∷ has_closed 0 1006
    ∷ sent "c"
    ∷ close_called
    ∷ sent "d"
    ∷ []

delivered-run_example :
    delivered (ObserverServiceClient.run session offline)
    ≡ delivered offline ++ taken session offline
delivered-run_example = delivered-run session offline

ws-connect_example :
    (ObserverServiceClient.run (connect_called ∷ failures 3 ++ has_opened ∷ []) offline).ws
    ≡ (if leb 3 11 then some (offline.next_socket + 3) else offline.ws)
unfolding ObserverServiceClient.init
ws-connect_example = ws-connect 3 offline refl refl refl
