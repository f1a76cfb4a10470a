-- ===== src/Lib.antt =====
-- RouteWire: a mesh VPN whose nodes share one secret (PSK) and find each other through values in
-- a DHT, and the chat room that uses the same store. These files model the Go code under
-- internal/engine, internal/mesh, internal/config and cmd/meshd.
--
-- How the parts fit. A store keeps several values under a key. The reliable store puts a value
-- and reads it back until it is seen. A room seals signed envelopes with a key made from its
-- token, stores them, and on each poll decodes what it reads, keeps the newest, announces what is
-- new and stores the window again. In the mesh every key, identity and address is derived from
-- the PSK and a node's name; each node publishes a signed record under one roster key, folds the
-- records of the others out of the values read there, and dials their candidates in an order that
-- depends on whether both sides share a NAT. The names of spokes are kept in a file. The daemon
-- ties this together: on each tick it publishes its record, plans for the peers of the roster and for
-- its spokes, tells the device, dials the peers that have no live session, and keeps routes and
-- masquerades in step. Device and router are interfaces: the daemon is modelled over a World that
-- has their methods and a clock, and the Linux device and the router over the kernel and the host.
--
-- Files and code:
--   Engine/Store        internal/engine/store.go: Store, ReliableStore (publish, confirm, read)
--   Engine/MockStore    internal/engine/mockstore.go: the in-memory store
--   Engine/Crypto       internal/engine/crypto.go and the keys of identity.go
--   Engine/Envelope     internal/engine/envelope.go and the identities of identity.go
--   Engine/Window       internal/engine/window.go: order, cut and deduplication
--   Engine/Room         internal/engine/engine.go: Send, Reconcile, Current
--   Mesh/Deriver        internal/mesh/crypto.go: names, keys and overlay addresses
--   Mesh/Spokes         internal/mesh/spokes.go: the file of spokes
--   Mesh/Record         internal/mesh/record.go: signing, decoding and binding
--   Mesh/Roster         internal/mesh/roster.go: Publish, Fetch, FetchStable, Names
--   Mesh/Peers          internal/mesh/peers.go: sameNAT and OrderEndpoints
--   Engine/OpenDht      internal/engine/opendhtstore.go: the store behind HTTP proxies
--   Mesh/Candidates     internal/mesh/stun.go and local.go: a node's own candidates
--   Mesh/FakeDevice     internal/mesh/fake.go: the device of tests and dry runs
--   Mesh/LinuxDevice    internal/mesh/device_linux.go: peers and routes of the kernel's link
--   Mesh/Router         internal/mesh/router.go: Host is what it uses of the host, Nft and Scan the
--                       foreign chains, Ports, Forwarding and Masquerade the rules, Lifetime its
--                       start and Close, Cleanup the removal by `meshd stop`
--   Mesh/Daemon         internal/mesh/daemon.go: World is what it talks to, Node its own state,
--                       Cidrs, Spokes, Plans and Race the parts of a tick, Tick the whole, and
--                       Tick/Restored the end of main in cmd/meshd/main.go
--   Mesh/Export         internal/mesh/export.go: the configuration of a device without the daemon
--   Cmd                 cmd/meshd: the arguments and init (main.go) and the system service
--                       (service.go)
--   Config              internal/config: the layers of the settings
--   Base                lists, byte strings, maps, sorting, integers, texts and bits
--   Tests               the theorems at concrete inputs
-- A function keeps its name, in lower case with underscores; the files below a component's file
-- hold its theorems.
--
-- Modelling. Strings and byte slices are lists of numbers. A map is a list of keys and values,
-- and a `range` goes in the order of the list, or of a parameter. An error result is a value. Clocks, nonces, sleeps and failing system calls are arguments. uint64 counters wrap at
-- 2 ^ 64. Ciphers, hashes, signatures, base64, hex, JSON, HKDF and the parsing of addresses are
-- parameters, and so are netlink, nftables, iptables and the file system, as functions over a state of
-- the host; a theorem that needs their documented behaviour takes it as a hypothesis, as in
-- CryptoLaws, NatLaws or ConfigureLaws. The wait of tryConnect has fuel for eighteen turns, which the pauses of
-- 150 ms in 2.5 s use up at most; the retries count down, and the other loops walk over lists.
--
-- Not modelled: sockets and HTTP, one STUN exchange, locks, the texts that are logged, the parsing of
-- flags and of the configuration file, the report of init, and the rest of main, which wires the parts together.
mod Base
pub mod Engine
pub mod Mesh
pub mod Config
pub mod Cmd
mod Tests
