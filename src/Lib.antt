-- ===== src/Lib.antt =====
-- Brisk CDN: a model of the core of the control plane (brisk-control) and of the edge agent
-- (brisk-agent), both written in Go.
--
-- The control plane keeps its state in a database. An agent on every edge sends heartbeats and
-- asks which version to run; the health checker probes the edges; the DNS reconciler turns what
-- is known of the edges into the records of one zone; the rollout engine takes the fleet to a
-- new agent version one edge at a time; the agent installs the binary and goes back if it fails.
--
-- Prelude        shared types and lemmas: native numbers, Booleans, lists, bytes, association
--                lists, decimal text. Its children hold them; it passes their names on.
-- Rollout        brisk-control/internal/rollout/engine.go, internal/store/rollouts.go and
--                internal/api/rollouts.go. Rollout: the tables. Store: the queries, as actions on
--                a World, which is the database, the id sequence and a list that says which of
--                the calls to come fail. Create: CreateRollout with its transaction. Engine:
--                Tick and advance. Api: agentRelease. Admin: the admin handlers. Frame, Listed,
--                OneInFlight, OneTick and Handlers: what the operations keep. System: a step relation for
--                ticks, requests, failures and fleet changes in any order. Offers: what agents
--                are told. RowWise and Halt: single ticks, row by row.
-- Dns            brisk-control/internal/dns. Dns: Endpoint and Record. Rotation: RotationDecision
--                and RotationState. Weight and Region: regions.go. Diff: Diff of reconcile.go.
--                Apply: Client.Apply, with the provider as a parameter; its children Index, Settled,
--                Steps, Writes, Passes, Edge, Run and Converge are proofs about a plan's steps.
--                Zone: zonesync.go, the record sets of the tenants' zones.
-- Drain          brisk-control/internal/api/drain.go: drain and undrain of edges, on the servers
--                table. It asks Dns.Rotation how many edges would stay. dns_set is the set of
--                cmd/brisk-control/main.go.
-- Login          brisk-control/internal/adminauth/ratelimit.go, the login limiter.
-- Health         brisk-control/internal/health/checker.go, the health checker.
-- Purge          brisk-agent/purge/purge.go: which cache files a purge deletes.
-- Waf            brisk-agent/waf: Build compiles the zones on a reload, Inspect decides a request,
--                Buffer keeps the events. Libs is what the agent calls: regular expressions,
--                address ranges, the OWASP engine, the digest of a configuration. Modes and Reuse:
--                the decision and the reload against independent descriptions. Bounds and Refine:
--                the buffer, with one flush at a time, against an unbounded queue.
-- CacheRender    brisk-agent/nginx/cache.go: the cache settings of a zone as directives of nginx. Ttl
--                reads the times. Key: proofs.
-- AgentApi       brisk-control/internal/api/agent.go: the origin shield of a zone, and which hosts a
--                certificate covers. Rows: the rows and the parts of an answer. Answer: agentConfig,
--                over what the reads of one request return. Cover, Shield, Stale: proofs.
-- AgentConfig    brisk-agent/config, config.go and source.go: Defaults, Validate with the quarantine of
--                zones, Fetch. Quarantine: what a bad zone does to the others. An error is a
--                value of its own in place of its text, and Fetch takes the cached answer.
-- CustomDomains  brisk-control/internal/customdomains. Store: the queries of internal/store, each of
--                which may fail. Verify: verify.go. Manager: manager.go, one pass over a domain at one
--                instant; the orders it makes are recorded. Net holds the resolver, the ACME client
--                and the parser of certificates. Points, Orders, Renewal, Retry and Backoff: proofs.
-- SelfUpdate     brisk-agent/selfupdate, the installation of a binary and the check at boot. Marker:
--                the marker read back. Recovery: proofs.
-- The modules called Examples run the code on small inputs.
--
-- A name of the source is kept in snake case: StartSoak is start_soak. Times and durations are
-- native numbers of nanoseconds; Go's int, where a sign is tested, is the type ℤ of Prelude.Int;
-- text is a list of bytes. A float64 is a whole number of small units (millionths for the load
-- factor, billionths of a degree for coordinates), without rounding of its own. A loop is
-- recursion on its list, so every function returns. The one function on fuel prints a decimal
-- (Prelude.Decimal.print_onto): format_int gives it n + 1, more than n has digits.
--
-- Ticks, requests and methods under a mutex are one step each: the interleavings of System are
-- those of whole steps, as a handler's calls in between are not interleaved with others.
--
-- Not modelled: the HTTP handlers that only decode, query and encode; SQL texts; the ACME client;
-- the provisioning over SSH; the message queue; the templates and the runs of nginx; the
-- dashboard. They are input and output, or calls of code that is not in this repository. Nor are
-- load steering, the pass of the DNS syncer as a whole and the parser of access logs. The ordering
-- of the database's collation, the hash and signature functions of the standard library and the
-- region catalogue are parameters.
pub mod Prelude
pub mod Rollout
pub mod Dns
pub mod Drain
pub mod Login
pub mod Health
pub mod Purge
pub mod Waf
pub mod AgentApi
pub mod AgentConfig
pub mod CustomDomains
pub mod SelfUpdate
pub mod CacheRender
