-- ===== src/Lib.antt =====
-- awg-proxy-go: a UDP proxy on RouterOS that lets plain WireGuard peers talk AmneziaWG. The program
-- is Go; this library models its logic and proves what makes it correct.
--
-- The parts and how they interact. A packet arrives at one of the proxy's loops
-- (internal/proxy/server.go, internal/proxy/client.go), which asks the poller
-- (internal/router/poller.go) for the last snapshot of the router's keys, takes the obfuscation off
-- or puts it on (internal/awg/transform.go), and, in server mode, looks up or writes the session
-- table (internal/proxy/sessions.go). Snapshots, NAT rules and peers go over the RouterOS API
-- (internal/router/binapi). The configuration (internal/config/config.go) gives the parameters, and
-- the web interface (internal/api) edits it behind a login. A saved configuration reaches the
-- supervisor (cmd/awgproxy/main.go), which starts a stack of the poller, its hooks and the proxy; the
-- hooks keep the NAT rules of the router after each poll.
--
-- Which file models which part:
--   Wg                internal/wg/message.go
--   Awg.Crypto        internal/awg/mac.go
--   Awg.Transform     internal/awg/transform.go: classify, Deobfuscate, Obfuscate
--   Awg.Junk          internal/awg/transform.go: JunkPackets
--   Awg.Identify      internal/awg/identify.go
--   Proxy.Sessions    internal/proxy/sessions.go
--   Proxy.Server      internal/proxy/server.go: clientLoop is client_packet, serverLoop server_packet
--   Proxy.Client      internal/proxy/client.go: routerLoop is router_packet, awgLoop awg_packet; and
--                     the parameters that New of internal/proxy/proxy.go takes
--   Router.Snapshot   internal/router/poller.go: Snapshot and Upstream
--   Router.Binapi     internal/router/binapi: Codec is codec.go, Conn is conn.go and kvWords, Dialer is
--                     client.go with Dial and login of conn.go
--   Router.Nat        internal/router/nat.go: rules, validate, fields, diffFields
--   Router.Nat.Reconcile   internal/router/nat.go: Ensure and Remove of both reconcilers
--   Config            internal/config/config.go: Settings (types), Defaults, Convert (ToConfig),
--                     Check (validate), Store (Load, Read, Write)
--   Router.Settings   internal/router/poller.go: Config and the modes
--   Router.Keys       internal/router/poller.go: parsePubKey; internal/router/keys.go
--   Router.Poller     internal/router/poller.go: pickUpstream, resolveAddrPort; its Fetch is fetchAPI of
--                     internal/router/api.go with tick and Run of the poller
--   Router.Dialers    internal/router/api.go: Dialer with its cache, callPrint, callAdd, callSet,
--                     callRemove
--   Router.Peers      internal/router/peers.go; its Interface is internal/router/iface.go
--   Router.Api, Router.Table   the operations of a router, and the laws of a RouterOS table
--   Service           cmd/awgproxy/main.go: ports, buildRouterConfig, cleanupStaleRules; Hooks (the
--                     divert hooks: client_tick, server_tick), Stack (startStack, the masquerade hook
--                     and the clean-up), Supervisor (supervise)
--   Auth              internal/api/auth.go: Sessions (tokens), Limiter
--   Web               internal/api/server.go: the server's state, authRequired, protect; Login (login,
--                     logout, gateStatic), Handlers, Routes (Handler is serve); Network is
--                     internal/api/netauto.go, ClientConfig is internal/api/peerconfig.go
--   Prelude           shared lists, bytes, maps, results, texts, base64; Tests has concrete runs.
--
-- How code becomes definitions. A function keeps its name in this spelling: clientInit is
-- client_init. Bytes are numbers below 256, a slice is the list of its bytes; where Go checks a slice
-- expression against the capacity, the bytes behind it are given (Wg.Slice). `int` is the ℤ of
-- Prelude.Int, of 64 bits: sums and differences of configured sizes wrap (Prelude.Machine). A
-- run-time panic is `panic` of Prelude.Panics, in Router.Binapi the failure `panicked`; an error is a
-- value. A map is an association list. Sessions are shared by two maps, so they live on a heap
-- (Proxy.Sessions). A method under a mutex is one step; the turns of the loops are sequences of such steps. The supervisor
-- is a step relation (Service.Supervisor), in which the web interface's writes and signals interleave
-- with its own steps. A handler of the web interface takes the request, a body that did or did not
-- decode, and the state of the server and of the router, and gives the new states and an answer.
--
-- Parameters: BLAKE2s, HMAC, X25519 and the AEAD of golang.org/x/crypto; random bytes and numbers;
-- the time, in nanoseconds; whether a write succeeds; the network of the API (Router.Binapi.Dialer.Net);
-- the router of the reconcilers, the poller and the peers (Router.Api); JSON, the file system and
-- netip.ParseAddr (Config.Store); the DNS and Addr.String (Router.Poller.Resolver); the environment, a
-- TCP dial and a login at the router (Web.World); the network interfaces (Web.Routes.Machine). What is
-- relied on of a RouterOS table is Router.Table.TableLaws, which Tests.Tables fills with a list.
--
-- Fuel. The loops of Recv, login and call run on the bytes that are still to come, plus one: each
-- turn takes a byte at least, so it is enough (Router.Binapi.Conn.Total, Router.Binapi.Dialer.Lifetime).
-- strconv.Itoa runs on the number, plus one. All other loops are structural.
--
-- Not modelled: the armv7 build, where an int has 32 bits, but for the words and sentences of
-- Router.Binapi, which have either width; sockets, goroutines and contexts; main, startWeb and the
-- choice of the log level in cmd/awgproxy; HTTP, JSON and QR encoding; the texts of logs and of
-- errors; web assets, scripts and build files.
pub mod Prelude
pub mod Wg
pub mod Awg
pub mod Auth
pub mod Config
pub mod Router
pub mod Proxy
mod Tests
pub mod Service
pub mod Web
