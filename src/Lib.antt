-- ===== src/Lib.antt =====
-- demo-app, a demonstration of ObserveRTC: a video call application of three parts. The SFU
-- (sfu/src) keeps rooms of mediasoup and talks to its clients over web sockets; the web application
-- (webapp/src) is a client of it; the observer (observer/src) takes samples from the clients and the
-- SFUs over web sockets and evaluates them.
--
-- Which file models what:
-- - Base: truth values, options, lists, sums and JavaScript's `Map` (JsMap, with its live iterators).
-- - Protocol.Messages: the message classes of sfu/src/media/MessageProtocol.ts and
--   webapp/src/utils/MessageProtocol.tsx. Protocol.Codec: what `JSON.stringify` makes of them, and
--   what a receiver reads.
-- - Sfu.ClientEvents: sfu/src/media/ClientEvents.ts, its class over an event emitter.
-- - Sfu.Room: sfu/src/media/Room.ts. State has the room, its clients and its tasks; Consume is
--   `_consumeClient` and the loops over it; Handlers has the listeners of `add`; Step has the events
--   from without. Each function stops at an `await`; the rest of a listener is a task that an event
--   resumes, so a schedule is a list of events and any interleaving is one. Moves is a relation that
--   every event is a sequence of, by which the invariants are proved (Ending, Silence, Registry);
--   Separation is about whom a client consumes, Leaving is about the end of a client, Transports about
--   requests that overlap, Overlap about loops that do, Answers about requests and their responses. Feeding
--   follows `_consumeClient` from its call to its end, Joining in any room; Gathering
--   follows a join request to its response, Welcoming in any room.
-- - Sfu.Rooms: sfu/src/media/Rooms.ts, with the promises of `getOrCreateRoom`.
-- - Observer.Sources: what observer/src/sources/ObservedClients.ts and ObservedSfus.ts share;
--   Observer.ObservedClients and Observer.ObservedSfus have what each adds. Checking and Reconnection
--   are about it.
-- - Observer.Entry: what observer/src/main.ts does with connections, requests and signals; Routing is about
--   it.
-- - Observer.Evaluators: observer/src/evaluators, a file for each, with both gauges in one.
-- - Webapp.ObserverServiceClient: webapp/src/utils/ObserverServiceClient.ts; Delivery is about its
--   samples, Retries about its attempts to connect.
-- - Webapp.ServerConnection: webapp/src/contexts/ServerConnection.tsx. Bounded, Conserving and Draining
--   are about its buffer, Retrying about its attempts to connect, Resolving about its requests.
-- - Webapp.MediasoupService: webapp/src/contexts/MediasoupService.tsx; Connecting is `connect` cut at
--   its awaits, Media the producers and consumers, Step the events. Order, with Stages
--   and Phases, is about the handshake, Pausing about `pauseMedia` and `resumeMedia`.
-- - Webapp.Store: webapp/src/store/remoteClientsSlice.tsx. Webapp.RemoteClients: the listeners of
--   webapp/src/components/Clients/RemoteClients.tsx. Webapp.LocalMedia: the buttons of
--   LocalClientMediaBox.tsx beside it. Webapp.Logger: webapp/src/utils/logger.tsx.
-- - Sfu.ObserverServiceClient: sfu/src/common/ObserverServiceClient.ts; Taken is about its samples, Once
--   about its web sockets.
-- - Sfu.Entry: how sfu/src/main.ts puts connections into rooms. Halls, Promises, Waiting and Opening are
--   steps of the proof in Seating.
-- - Net.Server, Net.Middleware, Net.Controllers: Server.ts, common/Middleware.ts and controllers of
--   sfu/src and observer/src, which are the same in both but for one controller.
--   Net.Logger: common/logger.ts of both. Net.Config: what sfu/src/appconfig.ts and observer/src/appconfig.ts
--   share, with the schemas in Sfu.Config and Observer.Config. Net.Query: the query strings that
--   webapp/src/contexts/MediaServiceContext.tsx and sfu/src/main.ts make.
-- - Webapp.Stats: the listeners of webapp/src/components/Stats, with `makePrefixedObj` of
--   webapp/src/utils/common.tsx; Collecting is about the lists, Tables about the rows of a card, Remote has
--   RemoteClientStats.tsx; Webapp.Cells is how StatsCard.tsx shows a value, with
--   Cutting about it. Webapp.DisplayName: webapp/src/utils/randomUserIds.tsx.
--
-- How the parts meet: Rooms makes a Room for each id and forgets it when the room's `onClosed` runs;
-- a Room gives each client a ClientEvents, whose fired listeners are the room's handlers; ClientEvents
-- reads a Frame, which Codec makes of a text. Entry asks Rooms for the room of a connection
-- and adds the client there; the promise is settled and `finally` runs with no
-- connection in between, which a schedule need not respect. The web application's MediasoupService
-- speaks through ServerConnection, whose pending requests the room's responses resolve; what it emits
-- is what RemoteClients listens to, which dispatches to Store. Server hands HTTP requests
-- to the Middleware's processor.
--
-- All numbers are natural numbers, since times, lengths and counts are; no arithmetic of the code can
-- overflow at the sizes that occur. Loops are structural, so no fuel is needed; Feeding has
-- a number of answers of mediasoup, of which as many as there are producers are enough. What mediasoup, Node,
-- Prometheus and the observer library do is not modelled: their answers come with events and their
-- calls are recorded as effects. `jsonwebtoken` is an argument of the room (`sign`).
--
-- Not modelled: the rendering of the React components, the hooks and the setup of the store, which hand
-- values to libraries; LocalClientStats.tsx, one more table of the same kind; what a
-- listener does with a frame that lacks a field it reads; a second `connect` of one media service, whose
-- only caller connects once; what the `main` functions
-- do besides the connections, the chains of middlewares and the observer's signals: workers, monitors and
-- the command line.
pub mod Base
pub mod Protocol
pub mod Sfu
pub mod Observer
pub mod Net
pub mod Webapp
mod Tests
