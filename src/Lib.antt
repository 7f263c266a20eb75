-- ===== src/Lib.antt =====
-- Wispers Connect hub: a model of the hub (connect/hub) and of the library it shares with its
-- integrators (connect/shared), with the theorems that make them correct.
--
-- The hub lets the nodes of a connectivity group find each other. A node keeps a stream open to the
-- hub; a request for a node goes through the router to that stream and its response comes back to the
-- caller's future. Behind the hub a storage backend keeps groups, nodes, registration tokens and
-- rosters; the standalone backend does so in sqlite. API keys let integrators in, TURN credentials let
-- nodes use a relay, and the version gate refuses clients that are too old.
--
-- Routing (connect/hub/routing.go): Connector, connectivityGroup, FutureResponse, Router. A pointer is
--   a number into a heap of connectors and futures. Each critical section of the group's mutex and each
--   end of a channel operation is a function (connect, disconnect, begin_route, hand_over, refuse,
--   register, process_response); Routing/System.antt makes them events of a transition function over
--   the group and the local states of the calls of routeRequest, so that a list of events is an
--   interleaving. Routing/Clear, NoPanic, Requests, Answers, Departed, Races and Router hold the
--   theorems, Routed the change that a routed request makes.
-- Standalone: the tables (Db), the methods' effects (Exec: errors, the database, and an environment that
--   answers each clock reading, random read and statement, or fails it), and the methods of
--   connect/hub/standalone_grpc.go (Backend) and connect/hub/standalone_rest.go (Rest), with their
--   theorems by topic below each; Messages and Answers hold what these two give back. Steps is the
--   abstract view of the tables: a relation of what one statement may do, with an invariant (Invariant)
--   and deleted rows (Gone); Calls is one function of the call over all methods and requests, and its
--   Histories are runs of it. StartUp is Open of connect/hub/standalone.go.
-- HubServer (connect/hub/hubsrv.go): the node-facing server. Interface has the backend as a record of
--   its methods, the server's state (the backend's, the router, the limiter's buckets) and everything
--   that the server only calls; Laws has what it may rely on of a backend, and OverStandalone the
--   standalone backend as such a client, which keeps them. Exec is the monad of a call, which replies,
--   fails, waits or panics; while one call waits, a parameter says what the others do. Auth, Handlers,
--   Rosters and Serving are the RPCs, Calls one function of the call over them.
-- Process (connect/hub/hub.go, hub_flagdefs.go): from flags and environment to a hub that serves.
-- Metrics (connect/hub/metrics.go): the counting interceptors. Interceptors (connect/hub/servertime.go,
--   newHubGRPCServer of hub.go): the chain of a unary call around its handler.
-- Version, Sharding (connect/hub/version.go, sharding.go, clientIsShedSafe of hubsrv.go).
-- TurnCreds, ApiKeys, RegistrationTokens (connect/shared/turncreds.go, apikeys.go, integratorapi.go).
-- Strings: the functions of Go's strings and strconv that these use. Proto, Grpc: messages and
--   statuses. Base: tests, lists, integers and association lists.
--
-- Numbers: ids and sizes are natural numbers, int32 and int64 values are integers; the request counter
-- wraps at 2 ^ 64. strconv.ParseInt refuses what 64 bits do not hold. The base-62 loops run on the
-- number of characters, or on fuel that bounds the digits, and encode's theorem gives the result.
--
-- Not modelled: SHA-256, HMAC, Ed25519, UUID parsing and protobuf are parameters, and so are the
-- listeners, files and databases that start-up opens, the attestation signer
-- (connect/shared/attestation.go), and the times of the histogram; nor is the range of the int32
-- variables that counts of rows are scanned into. Statements of one method run without another
-- method's between them. The text of an
-- error is a format and its arguments.
pub mod ApiKeys
pub mod Base
pub mod Grpc
pub mod HubServer
pub mod Interceptors
pub mod Metrics
pub mod Process
pub mod Proto
pub mod RegistrationTokens
pub mod Routing
pub mod Sharding
pub mod Standalone
pub mod Strings
pub mod Tests
pub mod TurnCreds
pub mod Version
