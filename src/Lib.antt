-- ===== src/Lib.antt =====
-- A verification library for dns-cache, a caching DNS server in Go.
--
-- The program: a request reaches the handler (handler.go), which reads the cache (cache/cache.go,
-- entries of cache/entry.go); on a miss the resolver (resolver.go) asks the upstream servers and
-- the answer is stored. In the background the refresher (refresher.go) renews the entries of the
-- usual domains, and persistence.go saves the entries to a database and loads them at the start.
-- config.go reads the settings, and main.go builds the parts from them. stats/ and web/ show
-- counters.
--
-- The files:
-- - Prelude and its children: shared notation, lists, Go's maps as association lists (Assoc),
--   signed integers and int64 (Int), bits and shifts (Bits, Shifts), orders of a list (Shuffle),
--   decimal print (Decimal).
-- - Time: package time as the source uses it. Instants and durations are integers of
--   nanoseconds. A reading of the clock is an argument, a number, since the server runs after
--   1970; UnixNano holds until 2262, which the invariant states where it matters. Sub stops at the
--   ends of int64, and products of durations wrap. `local_day` is `localDay` of cache/entry.go.
-- - Dns: the fields of dns.Msg that the source uses, and the functions of github.com/miekg/dns as
--   a record of parameters with their documented laws. The record type RR is a parameter.
-- - Entry: cache/entry.go. Entry/Key is `Key`, Entry/Message is `CopyAndSetTTL`, Entry/Days is
--   `PackUsedDays`, `MarkUsed` and `DaysUsed`; its children prove what the word records (Word,
--   View), what is counted (Count), against the whole history (History) and against other
--   goroutines (Race).
-- - CacheConfig: `Config` of cache/cache.go with `Usual` and `KeepWindow`.
-- - Window: `recordWindow` and `windowStats` of cache/cache.go; Window/Counts compares the sums with
--   the list of all requests. Window/Race has `recordWindow` again as one atomic access at a time,
--   under a schedule of several calls for one bucket: Turns is about how long a call takes, Bounds
--   about what the bucket counts.
-- - Cache: the state `Cache` with `New`, `Get`, `GetStale`, `Delete` and the counters;
--   Cache/Insert has `Set`, `evictOne` and `LoadEntry`. Proofs: Invariant, Freshness, Reads, Run, and
--   below Insert: Ttl, Evict, Victim, Order, Size, Lookup.
-- - Config: config.go, and the cache configuration that main.go builds from it. Load is `LoadConfig`,
--   and `loadConfigOrDefault` and `getSocketPath` of main.go, over a file system and a YAML package
--   that are arguments.
-- - Resolver: resolver.go over a network that is an argument. Search says whose answer is taken,
--   Query what is asked.
-- - Handler: handler.go. `ServeDNS` is one step on the cache with the readings of the clock, the
--   network and, if the request joins a query in flight, that query's result as arguments. Reply is
--   about the message written, Serve about the answers given and stored: Answered whose answer it
--   is, Again from the cache, Late past the TTL, Failed without an upstream server, Shared with the
--   query of another request, Steps as calls on the cache.
-- - Refresher: refresher.go. Backoff and Choice are about `noteFailure` and `selectCandidates`, Prune
--   about `pruneUnused` and `pruneFailures`; Cycle has `refreshEntry` and `refreshCycle`, with Renew
--   about one refresh, Order about two that swap, Reorder about all of them in any order, and Steps
--   about a cycle as calls on the cache. Cycle/Pool is the loop of a cycle with its goroutines, five
--   at most, and with `Stop`: Ends about how it comes to its end, Sequential about what it leaves;
--   Cycle/Whole puts the snapshot, the selection and the loop together.
--   Prune/Keeps is about `pruneUnused` against `Usual`.
-- - Persistence: persistence.go over a table that is a map. Restart is about a row saved and loaded
--   again, Reload about all the rows of a table, Batch and Rows about `SaveBatch`, Sweep about
--   `Cleanup`, Path about `dirOf`. Schema is `NewPersistence` and `addColumnIfMissing` over an SQL
--   engine that is an argument, whose laws say what each statement does to the columns.
-- - Main: main.go. The cache at the start of `runServer` and `persistLoop`, with Loading about when
--   the database fills it, Saving about one round, Durable about all of them, and Restart about the
--   cache after a restart. Commands is the
--   choice of the command and `runFlush`; Launch is the order in which `runServer` starts and stops
--   its parts. System is the running program: the cache, the refresher's failures and the table,
--   changed by the moves of the goroutines in any order; Sound and Start are about what holds
--   of it always. Shutdown is how the loops of the refresher, of `persistLoop` and of `cleanupLoop` end, with `Stop`
--   of refresher.go and the deferred calls of `runServer`: Order about the calls on the database,
--   Exit about the end of the program.
-- - Stats: the figures of stats/stats.go; Ratios is `Stats` of cache/cache.go, and Snapshot puts both
--   together. Socket is `Start` and
--   `Stop` of stats/server.go, and Socket/Client its `acceptLoop`, with `runStats` of main.go.
-- - Web: the routes and the two handlers of web/server.go; Web/Life is its `Start` and `Stop`, and
--   Web/Bars has the percentages and colours that the template computes.
-- - Tests: runs at concrete inputs, and the theorems applied there.
--
-- Conventions: a method is a function from the state to the new state and its result, one atomic
-- step; sequences of such steps, in any order, are Cache/Run. The counters are uint64 and wrap.
-- `MarkUsed` is one round of its loop where nobody interferes; Entry/Days/Race has the loop, over
-- a list of what the other goroutines store. A map is an association list; where the source ranges
-- over a map, the order is an argument. The local time zone is a function from instants to
-- offsets. `RefreshThreshold` is in hundredths. No definition takes fuel but the decimal print,
-- whose fuel is one more than the number printed. `sort.Slice` is an argument with its laws, and so
-- is the product in float64 that the refresher takes of a duration and the threshold.
--
-- The loops of the goroutines, which wait for tickers and channels, are runs: a list of rounds in
-- Main, a sequence of moves in Main/System, and moves between the `select` and the rounds in
-- Main/Shutdown, where a tick may come at any time. In Main/System a request, the refresh that it
-- starts, a cycle, a round of saving and an hour's cleaning are one move each, and beside them stand
-- the single calls on the cache and the single notes of a failure or a success, so that a run may
-- also interleave the calls of requests and refreshes that are under way. Handler/Serve/Steps and
-- Refresher/Cycle/Steps say which calls on the cache a whole request and a whole cycle are.
--
-- The type float64 is a parameter wherever its values are not scaled: Stats/Ratios takes its
-- operations and the laws of rounding that the percentages rely on, for counts below 2^64 only.
--
-- Not modelled: logging, the text of the HTML page and the JSON (web/server.go and stats/server.go);
-- signals and the listeners of the packages dns and net/http, of which Launch takes only how they
-- end; the durations of tickers and timers; and golang.org/x/sync/singleflight, of whose calls the
-- handler takes the shared result as an argument.
pub mod Prelude
pub mod Time
pub mod Dns
pub mod Entry
pub mod CacheConfig
pub mod Window
pub mod Cache
pub mod Config
pub mod Resolver
pub mod Handler
pub mod Refresher
pub mod Persistence
pub mod Main
pub mod Stats
pub mod Web
mod Tests
