-- ===== src/Lib.antt =====
-- A model of the services of fawa and what is proved of them.
--
-- The repository holds four services that do not call one another: canvaxservice, a whiteboard over a
-- gRPC stream; canvaservice, whiteboards with codes over WebSocket and WebTransport; fileservice,
-- uploads and download links over MinIO and Redis; and greetservice, greetings. Each has a handler, a
-- configuration and a main that wires both.
--
-- * Canvax is canvaxservice/handler/handler.go: the record `CanvaServiceHandler` with the client
--   map, the history and the channel, and one function for each method (`register_client`,
--   `unregister_client`, `clear_history`, `add_to_history`, `broadcast_to_clients`). Canvax/System
--   puts them together: a call of Collaborate, the broadcasting goroutine, its end and Close each
--   take steps, in any order, and a step is what one of them does between two points where another
--   can come in between (a lock, a channel, a stream). The broadcasting goroutine receives an event,
--   takes the lock of the clients, sends to one client after the other, where each send may fail,
--   and releases the lock. A blocked send to a channel, or a wait for the lock, is a step that
--   cannot be made. Turns gives the steps as relations; History, Invariant, Registration, Broadcast,
--   Joining, Bounded, Progress (with Steps) and Hazards hold the proofs. Whiteboard is an abstract
--   service, a board with a box for each member, and Whiteboard/Refinement sets the goroutines
--   against it.
-- * Canvas is canvaservice/handler/handler.go and types.go: sessions stand in a heap, since a
--   client holds on to its session by pointer while the map of sessions changes. Canvas/System has
--   the calls of HandleWebSocket and HandleWebTransport, the writers, the cleaner, and a clock;
--   Turns gives the steps as a relation and Steps single steps. Invariant and Ownership, Pointers
--   and Registration hold invariants of sessions, pointers and clients; Cleaner, Occupied and Filing
--   are about the sessions that a code leads to; Agreement (with Posts), Delivery, Greeting and
--   Reordering about the history and the channel; Bounded, Progress (with Ending) and Jams about the
--   end of calls; Hazards holds further proofs. Rooms is an abstract service, rooms that guests are
--   led to by codes, and Rooms/Refinement sets the goroutines against it. Messages is the JSON of
--   types.go, with Decoding for `encoding/json` on trees, for fields of the kinds that these types
--   have, and RoundTrip for the proof.
-- * File is fileservice: Names is the check of file names, Storage is storage/dragonfly.go, Upload is
--   SendFile of handler/handler.go with UploadFile of storage/minio.go, Download is GetDownloadURL
--   with GetPresignedURL. MinIO, Redis, the JSON encoder and net/url are parameters, with their
--   documented behaviour as records of laws, and Memory has stores that meet them. The stream of a
--   call is the list of its messages and the error that it ends with. Setup is the setup of the two
--   clients, ListObjects and Close. Pipes, Integrity, Overwrite, Errors and Isolation hold proofs.
--   History is a specification of the service that reads the calls of SendFile and their answers, and
--   no store, with the proof that the handlers meet it for calls that come one after the other, and
--   Remote puts the clients and the mux of Route in front of them.
-- * Config is config/viper.go of each service, with viper and fwlog as parameters: LoadAndWatch,
--   InitConfig and the reload. Loading holds the proofs.
-- * Start is main.go of each service: which servers a main starts and what its signal goroutine does,
--   as a list of effects. Choice holds the proofs. Shutdown lets a signal, `Shutdown` of net/http, main
--   and the requests in flight take steps in any order. The requests are those that net/http tracks, so
--   hijacked connections, as those of WebSocket, are none of them.
-- * Route is gen/*/v1/*connect of greetservice, fileservice and canvaxservice: the procedures, the
--   switch on the path, the clients with their URLs and methods, with connect as a parameter. Mux is
--   the mux that main.go of each service sets up; Agreement holds the proofs. Network is a network that
--   serves a mux below an origin, and brings the call of a client to a method; Memory has a runtime of
--   connect that meets the laws.
-- * Greet is greetservice/handler/handler.go; Streams holds the proofs.
-- * Ranges is about the loops of both whiteboards over Go maps.
-- * Common has the numbers, lists, Boolean tests and dictionaries that the others share.
--
-- The bounds are the source's: 1000 events of history and 100 events of channel in canvaxservice, 100
-- events of channel and ten minutes for a session in canvaservice, 25 minutes for the metadata of a
-- file and 5 minutes for a link. No function runs on fuel: loops over messages are recursion on the
-- list of messages, and what goes on for ever is a step relation.
--
-- Random ids and codes, what is read from a connection, and whether a write goes through are choices
-- of the surroundings, so that the theorems hold for all of them. Not modelled: logging, the contents
-- of generated messages beyond their fields, the wire format of connect, CORS, and the interval of the
-- cleaner, which may run at any time here. Of a key that stands twice in a JSON object each value is
-- decoded in its turn.
pub mod Common
pub mod Canvax
pub mod Canvas
pub mod File
pub mod Config
pub mod Greet
pub mod Start
pub mod Route
pub mod Ranges
