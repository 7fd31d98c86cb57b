-- ===== src/Lib.antt =====
-- Verification library of layercache, a multi-layer cache for Node.js (src/).
--
-- The program keeps values in layers (src/layers), wrapped in envelopes with deadlines
-- (src/internal/StoredValue.ts). A stack (src/CacheStack.ts) reads through the layers, starts one
-- fetch per key (src/stampede/StampedeGuard.ts), fences writes against invalidations
-- (src/internal/CacheStackMaintenance.ts), finds the keys of a tag or a pattern in an index
-- (src/invalidation), and gives up on keys that fail (src/internal/CircuitBreakerManager.ts).
--
-- Which file models which part:
--   JsMap, JsValue               the JavaScript `Map` and values of type `unknown`
--   StoredValue                  src/internal/StoredValue.ts: isStoredValueEnvelope is
--                                as_stored_value_envelope, the other names are the source's
--   Layers/Memory                src/layers/MemoryLayer.ts
--   Invalidation/PatternMatcher  src/invalidation/PatternMatcher.ts
--   Invalidation/TagIndex        src/invalidation/TagIndex.ts, its trie in TagIndex/Tree
--   Redis                        the set commands of a Redis client and their laws; a client in memory
--   Invalidation/RedisTagIndex   src/invalidation/RedisTagIndex.ts: View has the abstract view of its
--                                calls, Refinement that it answers as the view says, Migration
--                                migrateLegacyKnownKeys
--   SingleFlight                 src/singleflight/RedisSingleFlightCoordinator.ts: Runs has a whole call
--                                of execute, Leases the interleavings of processes
--   GenerationStore              src/generation/RedisGenerationStore.ts
--   Stampede                     src/stampede/StampedeGuard.ts
--   Internal/CircuitBreaker      src/internal/CircuitBreakerManager.ts
--   Internal/Maintenance         src/internal/CacheStackMaintenance.ts: Epochs has the epochs of keys,
--                                Writes the admission and the end of serialized writes, WriteBehind the
--                                write-behind queue
--   Internal/Generation          src/internal/CacheStackGeneration.ts
--   Internal/Validation          src/internal/CacheStackValidation.ts
--   Internal/TtlResolver         src/internal/TtlResolver.ts
--   Internal/RuntimePolicy       src/internal/CacheStackRuntimePolicy.ts
--   Internal/NamespaceMetrics    src/internal/CacheNamespaceMetrics.ts
--   Exec                         methods that change the world they run in and may throw
--   Internal/Services            what the stack, the reader and the writer are given: the layers, the
--                                fences, the queue of serialized writes
--   Internal/FencedWrite         runFencedWrite of src/internal/CacheStackMaintenance.ts
--   Internal/LayerWriter         src/internal/CacheStackLayerWriter.ts, its writeBatch in Batch
--   Internal/Reader              src/internal/CacheStackReader.ts: the loop over the layers, backfilling
--                                and fetching; Reader/Guards has the guards of a fetch, the wait for
--                                another process and getPrepared, Reader/Refreshes the background
--                                refreshes
--   Internal/InvalidationSupport src/internal/CacheStackInvalidationSupport.ts
--   Internal/KeyDiscovery        src/internal/CacheKeyDiscovery.ts
--   Internal/RateLimiter         src/internal/FetchRateLimiter.ts; its operations are in Actions
--   CacheStack                   src/CacheStack.ts: storing, deleting, expiring and clearing, and messages
--                                from other processes; Patterns has the operations on patterns and
--                                prefixes, Lookups has and ttl, Degradation the layers that failed,
--                                Background the write-behind batches and the bump of the generation,
--                                Entries getEntry
--   CacheNamespace               src/CacheNamespace.ts
--   Tests                        the theorems at concrete inputs
--
-- State is a record that a method takes and returns; calls at given times form lists, and `run` makes
-- them one after the other. What a JavaScript object shares by reference is a map from identities
-- (the entries of the stampede guard, the tails of writes). Keys are any type with a decidable
-- equality where the code only compares them, and lists of character codes where it reads them. The
-- clock is an argument, and so are random bytes, the local calendar, decimal notation and the order
-- of a sort. Numbers are whole, and their arithmetic is exact.
--
-- The stack, the reader and the writer are functions over any world: a service may change the world as
-- it likes, so what is proved holds also where other operations run in between. Promises that run side
-- by side run in one order.
--
-- Redis is a record of commands over an unknown world, with laws that say what its documentation does; an
-- iteration by a cursor is the list of its pages. A command of the single flight may be rejected
-- or stay without an answer, executed or not. The clients in Redis/Memory and SingleFlight/Memory meet
-- the laws.
--
-- Loops run on fuel in five places. `match_loop` has more rounds than there are pairs of a position in
-- the pattern and one in the value: each round takes a character, or moves the end of the last star's
-- match on. `evict_loop` has the size of the map, and each round removes an entry. `batches_from` has
-- the number of keys, and each round takes one at least if the size is not 0. `collect_loop` has the
-- number of nodes, and each round visits one. The last two return `none` where the fuel runs out.
-- `poll_loop` has one round more than the timeout has milliseconds, and each round that goes on sleeps
-- for one at least.
--
-- Not modelled: the layers over Redis, Memcached and files, the invalidation bus, payload protection,
-- serializers, snapshots, integrations and the command line, which are input and output or calls of
-- other libraries; and, so far, the bulk reads and writes, the cleanup of a generation and
-- the snapshots of the stack, and the collector of metrics.
pub mod Base
pub mod CacheNamespace
pub mod CacheStack
pub mod Exec
pub mod GenerationStore
pub mod Internal
pub mod Invalidation
pub mod JsMap
pub mod JsValue
pub mod Layers
pub mod Redis
pub mod SingleFlight
pub mod Stampede
pub mod StoredValue
pub mod Tests
