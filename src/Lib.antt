-- ===== src/Lib.antt =====
-- A verification library of mulery, a reverse HTTP proxy over WebSockets. Clients behind a firewall
-- dial out to the server and keep pools of idle connections open; an HTTP request that reaches the
-- server travels through one of these connections to the client, which performs it and sends the
-- response back.
--
-- The parts, and the files that model them:
--
-- - Mulch: mulch/*.go, the messages of the tunnel. `Handshake` and `hash_key_id` stand in Mulch,
--   `serialize_http_request` and `unserialize_http_request` in Mulch/Request, the responses that the
--   proxy makes itself in Mulch/Response.
-- - Server/Connection and Server/Pool: server/connection.go and server/pool.go. A `Pool` holds its
--   connections by number in `heap`; the list `connections`, the channel `idle_chan` and the
--   handlers refer to the same ones. `give`, `take_in`, `close_in`, `new_connection`,
--   `clean_connection` and `clean` are the functions of these names; Server/Pool/Keeper has
--   the goroutine `keepRunning` with the calls that talk to it (`register`, `is_empty`,
--   `ask_for_size`, `shut_down`), `size`, `cleanIdleChan` and `shutdown`.
-- - Server/Dispatch: server/server.go, the main goroutine with the table of pools: `register_pool`,
--   `clean_pools`, `dispatch_request`, `shutdown`. Server/Dispatch/Loop is its loop, which takes
--   one event after the other (`on_event`, `run`, `start_dispatcher`), with what the dispatchers
--   send to `shutdown` as an argument, and Server/Dispatch/Stats what it answers to `HandleStats`.
--   Server/Dispatch/Threads is the same goroutine and the dispatchers once more, as a step relation
--   on where each of them stands.
-- - Server/Metrics: the gauges of server/metrics.go as `saveMetrics` sets them.
-- - Server/Session: `read` of server/connection.go against the handler of a request, as a step
--   relation: the two meet on unbuffered channels, and share the status of the connection.
-- - Server/Proxy and Server/Handlers: server/httpproxy.go and server/handlers.go, one request or one
--   registration as its handler sees it. Server/Serving joins them: `serve_request` is one request
--   from `HandleRequest` through the dispatcher and the tunnel to the pool that takes the connection
--   back.
-- - Client/Config, Client/Pool and Client/Targets: client/client.go and client/pool.go, and of
--   client/connection.go what a pool sees of its connections. Client/Pool has `connector`,
--   `fillConnectionPool`, `remove` and `size`; Client/Pool/Keeper the goroutine that `Start`
--   starts; Client/Pool/Removals that goroutine, its own calls of `Connect` included, against the
--   `Remove` of the connections, as a step relation; Client/Targets the client with its targets,
--   and `restart`.
-- - Client/Serve: one round of `serveHandler` of client/connection.go, with `defaultHandler`, or with
--   the adapter of client/middleware.go for a handler of the application. Client/Session: `serve`,
--   `keepAlive` and the goroutine of the pool on one connection, as a step relation.
-- - Tunnel: one request from `proxyRequest` at the server to `serveHandler` at the client and back.
--   Tunnel/Dialing: a client that dials (Client/Dial has what it says of itself), is registered, and
--   can be reached.
-- - App/Upstreams and App/Paths: upstreams.go, the table of networks whose requests are let in, the
--   goroutine that answers for it, and its text (App/Upstreams/Print); and the labels that
--   `parsePath` of mulery.go gives to requests.
-- - App/Routes and App/Keys: mulery.go, the patterns and the handlers that `Start` composes, and the
--   validator of keys that asks an auth proxy. App/Start: `LoadConfigFile` and `Start` of mulery.go and
--   `main` of cmd/mulery/main.go, which compose them. App/Logs: logging.go, where the lines of
--   the logs go, and the format of the access log; App/Start/Print: the lines of `PrintConfig`.
-- - Rendezvous: a goroutine that many others ask over two shared channels, for the callers of
--   `Contains` (App/Upstreams/Callers) and of `HandleStats` (Server/Dispatch/Loop/Statistics).
-- - Base and Runtime: lists, maps and Go's `int`; and what the Go runtime does at a channel, where a
--   call returns a value, panics, or waits for ever (`Result`).
--
-- How the parts interact. `HandleRegister` queues a `PoolConfig`, which `registerPool` takes up;
-- `Register` puts a new connection into its pool and into the channel of idle ones. `HandleRequest`
-- asks a dispatcher, which gets the pool from the main goroutine, receives from the channel of idle
-- connections and takes the connection; `proxyRequest` exchanges the request and the response, and
-- gives the connection back. A ticker makes `cleanPools` ask each pool to clean itself.
--
-- Sequential functions show one goroutine at a time, with the others at rest. Where the order of
-- goroutines matters there is a step relation: for one connection (Server/Session, Client/Session),
-- for the dispatchers (Server/Dispatch/Threads), for callers that share two channels
-- (Rendezvous), for `Stop` of upstreams.go against them (App/Upstreams/Stopping), and for the
-- connections that leave a pool of the client (Client/Pool/Removals). The main goroutine of the
-- server and the pool of the client take their messages one by one, so that a list of events stands
-- for all that reaches them.
--
-- Bounds and fuel. Times and durations are numbers of nanoseconds, counted from a zero time; Go's
-- `int` is a sign and a magnitude, with the wrap-around where the code can reach it; the counters of
-- connections and requests are not bounded. The loop of `dispatchRequest` runs on fuel: each round
-- takes one connection out of the channel, so that more rounds than the channel holds are enough.
-- The other loops are structural.
--
-- Parameters. SHA-256, JSON, the parser and the printer of URLs, the canonical forms of header keys
-- and of paths, the validity of status codes, addresses, networks and the resolver of names, the
-- auth proxy, what a failed upgrade answers, clocks and the outcome of each read, write and dial
-- are arguments of the definitions that use them.
--
-- Not modelled: the lines that the parts log (Mulch/Logger and App/Start/Print have what the
-- loggers do with one), TLS, the listeners but for their failure, the reader of configuration
-- files, the registration of metrics with Prometheus, the writing of logs, and the JSON of the
-- statistics, which are input and output or calls of other libraries. The header that a handler of
-- the application sets is left out, and the mux takes a request whose URI is `*` for any other.
pub mod App
pub mod Base
pub mod Mulch
pub mod Rendezvous
pub mod Runtime
pub mod Client
pub mod Server
pub mod Tunnel
