-- ===== src/Lib.antt =====
-- Verification of clickhouse-mcp, a Model Context Protocol server for ClickHouse written in Go.
--
-- The program. The package internal/query is the pure core: it classifies SQL texts (result.go),
-- wraps a query so that it returns one row more than is shown, cuts the result and turns scanned
-- values into JSON (serialize.go). The package internal/tools has the five tools of the server over
-- a ClickHouse driver; internal/clickhouse has the caps and the statement call that they use. The
-- package internal/config reads the environment, internal/auth checks tokens and brokers logins,
-- and cmd/clickhouse-mcp joins these.
--
-- The files. Prelude has the shared names, tests and lists, and Go's `int` (Prelude/Int). Text has
-- Go's strings with the functions of the package `strings` that the program calls.
--   Query/Keyword   leadingKeyword, IsBlank, IsRowReturning, canBound
--   Query/Output    HasUnsupportedOutputClause, HasTopLevelOrderBy and their helpers
--   Query/Scanner   ContainsMultipleStatements
--   Query/Bound     Bound
--   Query/Shape     Truncation, Result, Shape
--   Query/Types     isDateOnly, typeName, splitTopLevel, elemType, fieldType
--   Query/Serialize ToJSONValue, reflectValue, mapKeyString, u64String, finiteOrNull;
--                   Query/Serialize/Typed has the types of ClickHouse as trees, for its theorem
--   Tools/Limit     limit.go; Tools/Driver: the driver, settings.go and exec.go
--   Tools/RunQuery, RunStatement, ListDatabases, ListTables, Ping: the tools of those names
--   Config          config.go: its types and the readers of variables; Config/Load: the loader
--   Client          client.go, the connection
--   Server          server.go, the five tools behind one request type
--   Auth/Verifier   verifier.go
--   Auth/Broker     broker.go and NewProxy
--   Auth/Proxy      broker_proxy.go: its types; State the signed state, Redirect the redirect check,
--                   Flow the three handlers
--   TestSupport     testsupport/container.go, the shared container of the integration tests
--   Command         main.go: buildHTTPHandler and bearerGate; Command/Shutdown: runHTTP; Command/Main:
--                   main
--   Examples        tests and uses of the theorems at concrete inputs
-- A child module named for a property has the proofs about its parent's definitions. Tools/Ensures has
-- rules for what a run of a tool is sure of, and Config/OnOk those for a result of the loader.
--
-- How it is modelled. A string is the list of its code points; the program compares bytes with
-- ASCII only, so this is exact on valid UTF-8, which JSON input is. `strings.ToUpper` is modelled
-- as far as its result may be ASCII. An `int` is a signed number whose sum with one wraps round. A
-- panic is a value. The driver with the server behind it is a parameter: a record of functions from
-- a call and the state of the server to an answer and a new state. A tool is a function of a
-- session, which holds the state of the server and the log of the calls made. The types of other
-- packages that are only printed (decimal, UUID, IP address, time, floating point) are parameters.
-- The order in which Go ranges over a map is taken as given; a later write to a key wins.
--
-- The environment is a function. go-oidc is a function from a token to its content. URLs, form
-- values, JSON, Base64 and the HMAC are a record of functions; the upstream's token endpoint is a
-- function from a form to what comes of it. The clock is an argument, in nanoseconds. The MCP
-- library, with its middleware for tokens, and the cleaning of paths by the mux are a record of
-- functions, `Packages`; the opening and the ping of a connection are another, `Dialer`. `runHTTP`
-- is run by a schedule of events, in which goroutines, clients and seconds take their turns; `main`
-- by what surrounds it, and it says what it did on its way.
--
-- Fuel. The loops of `leadingKeyword` and `isDateOnly` run on the length of the text plus one, and
-- each round is proved to shorten the text. `itoa` has fuel for 20 digits, which an `int` or a
-- `uint64` does not exceed, and a big integer has fuel for 80, as 256 bits have at most 78.
--
-- Not modelled: log lines and signals (a signal is the cancellation of the context), the closing of
-- rows, the headers that `http.Error` sets itself, the timeout of a container's first connection, and
-- the integration tests, of which TestSupport knows the calls of its helpers and the statements that
-- they execute.
pub mod Prelude
pub mod Text
pub mod Query
pub mod Tools
pub mod Client
pub mod Server
pub mod Config
pub mod Auth
pub mod Command
pub mod TestSupport
mod Examples
