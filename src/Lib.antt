-- ===== src/Lib.antt =====
-- A model of FlowProxy's core: the parts of the reverse proxy that decide which request is served,
-- by which upstream, and with what.
--
-- A request meets these parts in turn, and Pipeline has the guards in their order. The host or the
-- port names the site (Routing), whose names are normalised in Domains. The client's address is read
-- from the connection or, behind trusted proxies, from the forwarding headers (Access/Client). The
-- site's address policy, which internal/iprules assembles from the site's own rules and the shared rule
-- sets (RuleSets), is compiled and asked whether the client is denied (Access). The rate limiter counts
-- the requests of an address in time (Limiter), and slots limit those that run at the same time
-- (Slots). A route and the canary rule choose the pool (Routing), and headers are set and removed
-- (Pipeline/Headers). The response cache may answer (Cache); otherwise the load balancer picks an
-- upstream target, whose marks are kept by the outcome of each exchange and by active probes, and
-- failed exchanges are repeated under the retry policy (Upstream). Each request is counted and goes to
-- the access log (Pipeline/Stats, Logs). A node of a cluster stops serving where its configuration is
-- too old (Cluster); it fetches that configuration from one of several endpoints (Sync), and the
-- controller keeps a registry of the nodes (Nodes). The administration has its own login (Admin). The
-- sites are configured, checked and stored, and compiled into what the pipeline reads (Sites); one part
-- of a compiled site is the web application firewall (Waf). The settings of the program have a store of
-- their own (Settings). A manager makes backups on a schedule and removes old ones (Backups).
--
-- Which file models which code:
--   Http              the part of a request that the decisions read; internal/proxy/retry_buffer.go
--   Upstream/Target   upstreamTarget, its circuit breaker and active probe; internal/proxy/proxy.go
--                     and internal/proxy/healthcheck.go
--   Upstream/Retry    retryPolicy: effectiveAttempts, shouldRetry, backoffDelay; internal/proxy/proxy.go
--   Upstream/Attempts the loop of attempts of ServeHTTP; internal/proxy/proxy.go
--   Upstream/Pool     upstreamPool: healthyTargets, pick, weightedPick; internal/proxy/proxy.go
--   Limiter, Limiter/State
--                     rateLimiter: allow, registerViolation; internal/proxy/proxy.go
--   Cache, Cache/Cacheable
--                     responseCache: Get, Set, PurgeAll, and what may be cached; internal/proxy/proxy.go
--   Access, Access/Rules, Access/Client
--                     parseIPRules, compileIPAccessPolicy, deniedByPolicy, clientIPFromRequest;
--                     internal/proxy/proxy.go
--   Routing           lookupSite, matches, matchRoute, rewritePath, canaryRule; internal/proxy/proxy.go
--   Routing/Load, Domains
--                     Router.Load and lookupSiteByPort; internal/proxy/proxy.go; the names of a site;
--                     internal/site/site.go, internal/proxy/portproxy.go
--   Pipeline/Guards   the guards of ServeHTTP and its deferred releases; internal/proxy/proxy.go
--   Pipeline/Compression
--                     negotiateResponseCompression, shouldCompressResponse, appendVaryHeader;
--                     internal/proxy/proxy.go
--   Pipeline/CacheKey buildCacheKey; internal/proxy/proxy.go
--   Pipeline/Headers  applyRequestHeaders, applyResponseHeaders; internal/proxy/proxy.go
--   Pipeline/Stats    recordAccess, QueryLogs; internal/proxy/proxy.go
--   Slots/Site, Slots/PerIp
--                     tryAcquireRequestSlot, tryAcquirePerIPSlot and their releases; internal/proxy/proxy.go
--   RuleSets, RuleSets/Assembly
--                     ResolveSiteIPAccess; internal/iprules/resolve.go, internal/settings/store.go
--   Cluster           RuntimeState; internal/clustersync/state.go
--   Sync/Client, Sync/Requests
--                     Client: withFailover, doJSON; internal/clustersync/client.go
--   Nodes/Store, Nodes/Sorting
--                     Store: the registry of the nodes; internal/node/store.go
--   Admin/Recovery, Admin/Account
--                     the recovery codes, and Store: the account; internal/adminauth/auth.go
--   Admin/Sessions, Admin/Guard
--                     Manager: its sessions, handlers and Middleware; internal/adminauth/auth.go
--   Logs              AccessLogStore; internal/proxy/log_store.go
--   Sites/Config, Sites/Normalize
--                     Site and its parts, and how they are normalised; internal/site/site.go
--   Sites/Checks, Sites/Limits, Sites/Rules, Sites/Validate
--                     Validate and its checks; internal/site/site.go
--   Sites/Registration, Sites/Store
--                     Store: the stored sites; internal/store/store.go
--   Sites/Pools, Sites/Compile, Sites/Compiled
--                     newUpstreamPool and compileSite; internal/proxy/proxy.go
--   Sites/Transport   newUpstreamTransport; internal/proxy/upstream_tls.go
--   Sites/Tokens      the settings for tokens and sessions; internal/jwtauth/jwtauth.go,
--                     internal/oauth/provider.go
--   Backups           the schedule and the retention; internal/backup/manager.go
--   Settings, Settings/Lists, Settings/Parts, Settings/Store
--                     Normalize and Store: the settings; internal/settings/store.go
--   Waf, Waf/Builtin, Waf/Engine
--                     the rules and the engine of the firewall; internal/waf/rules.go,
--                     internal/waf/engine.go
-- The other files hold proofs about these, and Tests the concrete runs. Prelude has the shared
-- helpers: texts as lists of code points, maps as association lists, integers over native numbers.
--
-- What stands for what. Instants are numbers of nanoseconds, and 0 is Go's zero time where the code
-- tests for it. Tokens of the rate limiter are float64, as numbers of units of which each float64 is
-- a whole number; how a refill rounds is a parameter. A field that the code holds behind a
-- mutex is changed in one step; the counter of a site's requests, which the code changes by
-- compare-and-swap, has a step for each atomic operation in Slots/Site and is one step in
-- Pipeline/Guards. Errors carry no message, except in Sync, where the failover reads it,
-- and in the checks of a site, where they are the formats of their texts. The 64-bit
-- arithmetic of the retry delay and of the round-robin counter wraps around as in Go; other numbers
-- are small enough by their configuration and are not wrapped. ASCII letters only change case.
-- Parameters are the packages net, url and time where they parse addresses, networks, durations and
-- dates, package regexp, the random numbers, the order in which a map is ranged over, the packages bcrypt, sha256, hex
-- and json, strconv.ParseFloat, the float64 arithmetic of a refill, the query and the path functions of url and filepath, and whether a
-- file can be written, read or removed.
--
-- Fuel: the loop that evicts the least recently used entry runs on the number of listed keys and
-- one, which is enough since each turn removes a key. The loop of
-- attempts counts the attempts that are left. Every other loop follows a list.
--
-- Not modelled: the dialling and the writing of responses, the goroutines that schedule probes, the
-- subscribers of the log, the archives of the backups, the administration API behind its login,
-- certificates, the checks of tokens and sessions themselves, alerts, and the package ratelimit, which are input and
-- output, calls of other packages, not used by the program (ratelimit), or still to come.
pub mod Prelude
pub mod Http
pub mod Upstream
pub mod Limiter
pub mod Cache
pub mod RuleSets
pub mod Slots
pub mod Cluster
pub mod Access
pub mod Admin
pub mod Logs
pub mod Domains
pub mod Pipeline
pub mod Sync
pub mod Nodes
pub mod Sites
pub mod Waf
pub mod Settings
pub mod Backups
pub mod Routing
pub mod Tests
