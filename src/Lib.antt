-- ===== src/Lib.antt =====
-- A verification of go-proxy-server, a SOCKS5 and HTTP proxy with tunnels, an authentication cache
-- and a web administration. The files under internal/ are modelled as functions on values: what a
-- Go method changes is its record in and its record out, an error is a value of `Result`, and what
-- lies outside the repository (the network, the database, the clock, the hash functions) is an
-- argument. Bytes and all numbers are natural numbers, `uint16` and `uint32` are taken modulo their
-- size where the code computes with them.
--
-- Prelude: shared names, lists measured by native numbers, Go's maps as association lists, hexadecimal
-- digits, `Result`.
--
-- Cache (internal/cache/lru.go). `Cache.Shard` is `lruShard`: the map from keys to elements, and the
-- `container/list` with its elements known by pointer; `get`, `put` and `clean` are the bodies of
-- `Get`, `Put` and `CleanExpired` on one shard. A pointer without an element is a fault, `none`.
-- `Cache.Shard.Spec` is the abstract list of keys and entries, `Cache.Shard.Refines` and `Cleaning`
-- the refinement. `Cache.Sharded` is `ShardedLRU`, with the FNV hash on `uint32`; `Recent` beside each follows the
-- place of one entry while other keys are used. One call under the
-- lock of its shard is one step.
--
-- Tunnel (internal/tunnel). `Tunnel.Frames` is quic_protocol.go: the writers and the readers of the
-- UDP datagrams of the QUIC engine, on lists of bytes. `Tunnel.Ports` is the choice of a public port
-- in managed_server.go, and `Tunnel.Pending` its waiting public connections, a state machine whose
-- steps are the calls on a route's listener in any order. `Tunnel.Routes` is its `applyRoutes`, which
-- makes the listeners of a session those of the routes in the database, with `Tunnel.Routes.Source`
-- for the check of a source address. `Tunnel.UdpSessions` holds the UDP sessions of a route in
-- quic_server.go, a state machine whose steps are packets, the client's datagrams and clean-ups in any
-- order; `Tunnel.UdpSessions.Follows` is what may follow a packet, as seen by its session. `Tunnel.Store` is managed_store.go: `Tunnel.Store.Database` is
-- what it asks of the database and what the database documents of the rows, `Tunnel.Store.Operations`
-- the operations that write, and `Tunnel.Store.History` lists of calls of them.
--
-- Security (internal/security/security.go). `Security.PrivateIp` is `IsPrivateIP`, with the methods of
-- `net.IP` that it asks written out; `Security.Ssrf` is `CheckSSRF` over the cache of `Cache.Sharded`,
-- and `VerifyConnectedIP`.
--
-- Auth (internal/auth). `Auth.Hash` is the hash of a password in auth.go, over SHA-256 as an argument.
-- `Auth.Users` is user.go with `VerifyCredentials` of auth.go, and `Auth.Whitelist` whitelist.go: what
-- is in memory, beside a table with a unique key, `Auth.Table`, each call of which may fail.
--
-- Proxy (internal/proxy). `Proxy.Limiter` is limiter.go, `Acquire` and `Release` being one step each;
-- `Proxy.Limiter.Accounting` relates its counters to the open connections. `Proxy.Socks5.Read` holds
-- the readers of socks5.go, `Proxy.Socks5.Handle` its `HandleSocks5Connection` as the list of what
-- the handler does, which `Proxy.Socks5.Guards` is about. `Proxy.Http` is http.go: what
-- `HandleHTTPConnection` does for each request on a connection, over the credentials, the whitelist
-- and the SSRF check above; `Proxy.Http.Guards` is about one request, `Proxy.Http.Reauth` about the
-- requests of a connection. `Proxy.BindPolicy` is the choice of the
-- source address in bind_policy.go.
--
-- Runtime (internal/runtime). `Runtime.Config`, `Overrides` and `Validate` are config.go without the
-- reading of the file; `Runtime.Plan` and `Runner` are runner.go, `run` being `Runner.Start` as the
-- list of its calls to the manager and its result. Web (internal/web). `Web.TunnelConfig` holds the
-- checks of service_tunnel_server.go, service_tunnel_client.go and service_tunnel_engine.go that the
-- runtime calls. Texts are lists of code points there, and the parsers of IP addresses, URLs, host
-- and port, and decimal numbers are arguments. `Web.Sessions` and `Web.Admin` are admin_auth.go: the
-- sessions, the administrator's password, the bootstrap token and the login, over the table of
-- internal/config/system.go, of which only the three kinds of write and one read are assumed.
--
-- Config (internal/config/limiter.go). `Config.Limits` is the limits of the connections in memory and in
-- the table of the system configuration, `Config.Limits.Restart` a start behind an update.
--
-- Every recursion follows a list, but for the loop of `Tunnel.Ports`, which follows the number of
-- ports left, `last + 1 - first` at its start: no fuel can run out. Not modelled: the interleaving of
-- the atomic operations inside `Acquire` and `Release`, deadlines, logging and metrics, the copying
-- of data once a connection stands, package net/http, and the database, of which only the documented
-- behaviour of its calls is assumed.
--
-- Tests holds the theorems at concrete inputs.
pub mod Auth
pub mod Cache
pub mod Config
pub mod Prelude
pub mod Proxy
pub mod Runtime
pub mod Security
pub mod Tests
pub mod Tunnel
pub mod Web
