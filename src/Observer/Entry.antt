-- ===== src/Observer/Entry.antt =====
-- The entry point of the observer (observer/src/main.ts), with the listeners that observer/src/Server.ts
-- puts on Node's servers: web socket connections go to one of the two sources by their protocol, HTTP
-- requests to the processor, and a signal stops the server. The calls that the loops of Node make of
-- these listeners are the events. What would come after the exit of the process is not an event.
pub mod Routing
use demo_app.Base.{
  String, ◌==◌, ℕ, List, [], ◌∷◌, Bool, true, false, Option, none, some, if◌then◌else◌,
}
use demo_app.Net.Server
use demo_app.Net.Server.{Server}
use demo_app.Net.Middleware.{Middleware, process}
use demo_app.Net.Controllers.{observer_chain}
use demo_app.Observer.Sources
use demo_app.Observer.Sources.{Sources}
use demo_app.Observer.ObservedClients
use demo_app.Observer.ObservedSfus

-- The query of a connection's URL, as far as the sources read it.
pub record Query : Type 0 where
  pub client : ObservedClients.Query
  pub sfu_id : Option String

pub data Effect : Type 0 where
  -- The web socket is closed with the code.
  refused : (web_socket code : ℕ) → Effect
  -- The middlewares that ran for a request to the URL.
  processed : (url : Option String) (ran : List ℕ) → Effect
  -- No processor is assigned: a warning is logged, and nothing answers the request.
  unprocessed : (url : Option String) → Effect
  -- `server.stop()` was called.
  stop_called : Effect
  -- `setTimeout` was called with the exit of the process.
  exit_scheduled : Effect
  exited : Effect

pub record Observer : Type 0 where
  pub server : Server (List (Middleware (Option String)))
  pub clients : Sources
  pub sfus : Sources
  pub stopped : Bool
  pub effects : List Effect

-- What `main` sets up before it calls `start`.
unfoldable pub init : Observer
unfolding Server.init Sources.init
init = record {
  server = record Server.init { processor = some observer_chain };
  clients = Sources.init;
  sfus = Sources.init;
  stopped = false;
  effects = [];
}

unfoldable pub record_effect : Effect → Observer → Observer
record_effect e o = record o { effects = e ∷ o.effects }

-- The listener of `websocket-connection`.
unfoldable pub connected : ℕ → String → Query → Observer → Observer
unfolding record_effect ObservedClients.accept ObservedSfus.accept
connected web_socket protocol query o =
    if protocol == "client-sample"
    then record o { clients = ObservedClients.accept query.client web_socket o.clients }
    else if protocol == "sfu-sample"
    then record o { sfus = ObservedSfus.accept query.sfu_id web_socket o.sfus }
    else record_effect (Effect.refused web_socket 4001) o

-- A web socket's message: the listeners that either source has put on it run.
unfoldable pub message : ℕ → String → Observer → Observer
unfolding Sources.message
message web_socket sample o = record o {
  clients = Sources.message web_socket sample o.clients.sockets o.clients;
  sfus = Sources.message web_socket sample o.sfus.sockets o.sfus;
}

-- A web socket's `close`.
unfoldable pub socket_closed : ℕ → ℕ → Observer → Observer
unfolding ObservedClients.socket_closed ObservedSfus.socket_closed
socket_closed now web_socket o = record o {
  clients = ObservedClients.socket_closed now web_socket o.clients;
  sfus = ObservedSfus.socket_closed now web_socket o.sfus;
}

-- The listener of `request` in `_makeHttpServer`.
unfoldable pub requested : Option String → Observer → Observer
unfolding record_effect
requested url o = elim o.server.processor [
  | none ↦ record_effect (Effect.unprocessed url) o
  | some chain ↦ record_effect (Effect.processed url (process chain url).ran) o
]

-- The listener of `SIGINT`.
unfoldable pub interrupted : Observer → Observer
interrupted o =
    if o.stopped then record o { effects = Effect.exit_scheduled ∷ o.effects } else record o {
      server = Server.stop o.server;
      stopped = true;
      effects = Effect.exit_scheduled ∷ Effect.stop_called ∷ o.effects;
    }

pub data Event : Type 0 where
  socket_connected : (web_socket : ℕ) (protocol : String) → Query → Event
  socket_message : (web_socket : ℕ) (sample : String) → Event
  socket_gone : (now web_socket : ℕ) → Event
  http_requested : (url : Option String) → Event
  -- `start` is called, or one of Node's servers answers a call.
  server_event : Server.Event → Event
  signalled : Event
  time_is_up : Event

unfoldable pub step : Event → Observer → Observer
unfolding connected message socket_closed requested interrupted record_effect
step (Event.socket_connected web_socket protocol query) o = connected web_socket protocol query o
step (Event.socket_message web_socket sample) o = message web_socket sample o
step (Event.socket_gone now web_socket) o = socket_closed now web_socket o
step (Event.http_requested url) o = requested url o
step (Event.server_event e) o = record o { server = Server.step e o.server }
step Event.signalled o = interrupted o
step Event.time_is_up o = record_effect Effect.exited o

unfoldable pub run : List Event → Observer → Observer
unfolding step
run [] o = o
run (e ∷ es) o = run es (step e o)
