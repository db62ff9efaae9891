-- ===== src/Lib.antt =====
-- SysEscape's Engine A and the services around it: a room is a simulation that a player steers over a
-- websocket, and a run of it is a log of numbered actions in Postgres. The state of a run in memory is
-- built from its log and the room's bundle when the run is loaded. Players log in with GitHub, and start
-- runs and publish rooms over GraphQL.
--
-- * Sim models internal/engine/a/service (types.go, sim.go, action.go, wincheck.go, replay.go): the
--   engine, its tick, the effects that drive the metrics, player actions, win checks and replay. Go's
--   maps of metrics and actions are association lists; float64 is the parameter `Float64` (Sim/Types),
--   whose operations the code uses and about which no law is assumed. Sim/Exact has integers in its
--   place for the concrete runs in Tests, which claim nothing of float64.
-- * Store models internal/engine/a/repo/run_repo.go and pkg/models/run.go: the tables `runs` and
--   `run_actions` with the constraints of migrations/0005_runs_actions.up.sql, and each statement as a
--   function of the table that it sees. Other transactions come in as a `Schedule`, which says what
--   each statement of one call sees.
-- * Bundles models internal/engine/a/service/bundle_loader.go and, of internal/roomctl, validate.go,
--   build.go and manifest.go: Go's path.Clean over texts, the loop over an archive, the checks of a room
--   directory, and the walk that packs it. archive/tar, SHA-256, the YAML decoder and the file system are
--   parameters (`Formats`, `BuildTools`, `Disk` and `Decoders`); what the walk meets comes as a tree.
-- * Runtime models cmd/engine-a/runtime.go: a run in memory, loading it from its row, its bundle and its
--   log (Runtime/Load), player actions, subscribers and one round of the tick loop. A mutex makes each
--   of these but loading one step, with the table as an argument; `state` takes the map of runs at the
--   look-up and at the store apart, since others can load the run in between.
-- * Ws models internal/ws and internal/engine/a/transport/ws_handler.go: the messages and their checks,
--   the buffer of recent deltas, the heartbeat, and a connection from its first message to its end.
--   Ws/Session takes each step of the reader, of the two streams and of the heartbeat as an event, so
--   that a list of events is an interleaving; a writeDelta is two events, since it takes the mutex of the
--   tracker and then that of the writer, and others may come between them. Ws/Active has the table of
--   active connections. What the network accepts is an argument. encoding/json and google/uuid are the
--   parameter `Codec` (Ws/Protocol).
-- * Token models internal/token; golang-jwt is the parameter `Jwt` (Token/Tokens), and `JwtLaws`
--   (Token/RoundTrip) has the documented behaviour that minting and verifying rely on.
-- * Starts models internal/engine/a/service/run_service.go: StartRun and its table of idempotency keys,
--   with what a stored response is unmarshalled to in the place of its JSON. A `Weather` says which statements fail and what other calls do to the keys in between.
-- * Publishing models internal/platform/publish/service.go in the same way; it has a copy of the
--   statements on the table of keys, which are modelled once, in Starts/Idempotency. In the database the
--   two services share one table, but their keys differ in the prefix, so each model has its own rows.
-- * Auth models internal/auth: the tables of users and sessions with their constraints (Auth/Tables), the
--   client of GitHub over a parameter for HTTP and JSON (Auth/GitHub), the service, and the handlers and
--   middlewares with their composition in cmd/graphql-bff/main.go (Auth/Transport). The user in a
--   request's context is an argument of the handler. Auth/Steps and
--   Auth/System take the handlers as steps of the tables.
-- * Catalog models internal/catalog/repo/room_repo.go: the join of rooms with their latest published
--   version, and the two queries over it. ORDER BY is a parameter that permutes the rows.
-- * Graphql models internal/graphql/resolvers over Auth, Catalog, Publishing and Starts.
-- * Settings models what cmd/graphql-bff/main.go and cmd/engine-a/config.go read from the environment;
--   time.ParseDuration is a parameter.
-- * Tool models, of internal/roomctl, publish.go and the client of graphql_client.go, with the upload of
--   internal/platform/storage/bundle_store.go; net/http and encoding/json are the parameter `Wire`
--   (Tool/Client), and a `Workplace` (Tool/Publish) says which steps of a call work.
-- * Migrate models the number that cmd/migrate/main.go gives a new migration.
-- * Prelude has what the models share; Tests has concrete runs of them.
--
-- Sequence numbers are counted from 1 and taken from unbounded numbers: Go's int is 64 bits and a run
-- is far too short to reach its bound. Times are nanoseconds. No model runs on fuel.
--
-- Not modelled: the command line of cmd/roomctl; the rest of the wrappers of the database, the logger and
-- the object store, and of the commands' wiring, which are only input and output; the text of error
-- messages; generated code.
mod Prelude
pub mod Sim
pub mod Store
pub mod Ws
pub mod Token
pub mod Starts
pub mod Publishing
pub mod Auth
pub mod Catalog
pub mod Graphql
pub mod Bundles
pub mod Settings
pub mod Tool
pub mod Migrate
pub mod Runtime
mod Tests
