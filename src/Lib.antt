-- ===== src/Lib.antt =====
-- A model of the core of opcua-light-server: a TypeScript control plane that runs an OPC UA
-- server as a child process, feeds it with the values of industrial devices, and reports to its
-- web clients. Source files are named by their path from the repository's root.
--
-- The parts. The process manager (Process.Manager: src/process-manager/index.ts) starts, stops
-- and reloads the runtime and listens to it. The connectors (Connector:
-- src/connectors/core/base-connector.ts and types.ts; Modbus:
-- src/connectors/protocols/modbus-tcp/index.ts) keep connections to devices and give value
-- updates to a callback. The certificate manager (Tofu: src/tofu-manager/tofu-manager.ts) moves
-- client certificates between a trust and a reject store and tells the process manager. The
-- registry (Registry: src/connectors/core/connector-registry.ts) holds all connectors and
-- broadcasts their status; the plugin loader (Plugins: src/connectors/core/plugin-loader.ts)
-- finds them; and the bridge (Ipc: src/connectors/core/ipc-bridge.ts) writes value updates to the
-- runtime's stdin. The log (Log: src/log/index.ts) broadcasts to the event-stream hub (Sse:
-- src/api/sse-hub.ts). The authentication middleware (Auth: src/auth/middleware.ts and config.ts)
-- guards the API, whose requests are checked by the parameter validator (Params:
-- src/connectors/core/params-validator.ts) and whose imports are read as CSV lines (Csv:
-- src/utils/csv.ts), and the validation of requests for a new certificate (Certificate:
-- src/cert-generator/validation.ts) checks names and addresses. The sessions of the runtime's
-- status file are validated in Process.Sessions (src/process-manager/validate-sessions.ts).
--
-- The rows of SQLite are kept by the repositories through one cache (Db: src/db/database.ts,
-- Db.Cache; src/db/repositories/: object-node-repository.ts, Db.ObjectNodes;
-- security-repository.ts, Db.Security; connector-repository.ts, Db.Connectors;
-- node-repository.ts, Db.Nodes; namespace-repository.ts, Db.Namespaces), the node routes export
-- and import them as CSV (NodeRoutes: src/api/routes/nodes.ts), the connector routes tell the
-- connectors what they change (ConnectorRoutes: src/api/routes/connectors.ts), and the generator
-- makes the runtime's configuration of them (Generator: src/config-generator/index.ts).
--
-- The correspondence. The state of a class is a record with the fields of the class, in snake
-- case, and what its methods do to the outside (timers, writes, broadcasts, log lines) is a list
-- of that record, oldest first. A method is a function of the same name from the state to the
-- state, with the outcome where it can throw. What an object receives from Node.js is an
-- argument: the clock, whether a write succeeds, the pid of a child, the failure of a file
-- operation. A callback of the event loop is a function of its own, and the modules Sse.Calls,
-- Process.Manager.Events, Connector.Base.Calls and Tofu.Calls run any sequence of calls and
-- callbacks, Connector.Base.Calls also at the objects of removed connections. Texts that a
-- function reads are lists of UTF-16 code units (Prelude.Texts), and a `Map` is the list of its
-- entries in insertion order (Prelude.Dicts).
--
-- Third-party code is a parameter: `JSON.stringify` and the date test of `Date`, the check of a
-- JWT, `Number` and regular expressions, and the protocol of a connector, of which
-- Connector.Types.KeepsTimers states what the base class relies on.
--
-- SQLite is modelled as far as src/db/schema.sql says: a table is a list of rows or a dictionary
-- by its primary key, and a statement that breaks a constraint changes nothing and fails. Whether
-- the database answers is an argument of each call, and the order of a query's rows is the
-- caller's.
--
-- Bounds. Three loops follow parent ids and count their rounds as fuel, `computeDepth`
-- (Db.ObjectNodes.climb) and `getObjectNodePath` (NodeRoutes.path_parts) with a round for each
-- row and one more, `computeObjectNodePath` (Generator.collect_parts) with any number that the
-- caller gives, for which six suffice; all other loops are over lists. Numbers are exact, where
-- the source has doubles; the two agree below 2 ^ 53. The log keeps 1000 entries.
--
-- Not modelled: the migrations, the bulk and CSV routes of mappings, the other HTTP routes, the
-- connectors of the other protocols, polling and register decoding of the Modbus connector, the
-- listing of certificates, the generation of certificates, the web user interface and the C
-- runtime. Of these some rest on SQL and third-party libraries, and the last two are other
-- programs.
pub mod Prelude
pub mod Csv
pub mod Sse
pub mod Log
pub mod Auth
pub mod Params
pub mod Certificate
pub mod Tofu
pub mod Process
pub mod Connector
pub mod Modbus
pub mod Ipc
pub mod Registry
pub mod ConnectorRoutes
pub mod Db
pub mod Generator
pub mod NodeRoutes
pub mod Plugins
