-- ===== src/Lib.antt =====
-- sparqly: the parts of the program that keep state or decide, in libs/core and libs/server.
--
-- A project declares sources (globs of RDF files, SPARQL endpoints, references). A command
-- selects one by its address, or `serve` offers a scope of them; split globs expand to one source
-- per file. `serve` answers queries on a pool of worker threads, each with a bounded set of
-- resident stores, builds disk indexes in a pool of child processes, records the transitions of
-- its sources in a ring buffer, and keeps the answers of queries in a cache on disk.
--
-- Files, and the code they model:
--   Base         Boolean tests, texts (lists of UTF-16 code units), lists, results
--   OrderedMap   the JavaScript Map, in insertion order
--   Resident     libs/server/src/lib/sparql/resident-set.ts (ResidentSet)
--   Json         the values of JSON and YAML documents
--   Events/Ring  libs/server/src/lib/sources/source-state-ring-buffer.ts (SourceStateRingBuffer)
--   Events/Broker  libs/server/src/lib/sources/source-state-broker.ts (SourceStateBroker)
--   SourceRows   libs/server/src/lib/sources/source-row-projector.ts (projectSourceRow);
--                SourceRows/Meta the rows of split globs (projectSplitGlobMeta, projectTopLevelRow)
--   Sources      the types and accessors of libs/core/src/lib/sources/source-spec.ts,
--                glob-storage.ts and union-default-graph.ts
--   Sources/Address     libs/core/src/lib/sources/address.ts (parseSourceAddress)
--   Sources/SplitGlobs  libs/core/src/lib/sources/expand-split-globs.ts (expandSplitGlobs) and
--                derive-file-source-id.ts
--   Target       libs/core/src/lib/target/select-target-result.ts (selectTargetResult) and
--                resolve-serve-scope-result.ts (resolveServeScopeResult)
--   Registry     libs/core/src/lib/sources/source-spec.ts (parseSourceSpec on objects,
--                parseSourceSpecs) and transform-spec.ts; Registry/Fields the pickers of
--                source-spec-endpoint.ts, source-spec-git.ts, source-spec-query-cache.ts,
--                glob-storage.ts and union-default-graph.ts
--   GlobIndex    libs/core/src/lib/glob-index/index-manifest.ts (compareGlobIndexManifests) and
--                ensure-glob-index.ts
--   MetaChildren libs/server/src/lib/bootstrap/meta-children-cache.ts (MetaChildrenCache)
--   SavedQueries libs/server/src/lib/saved-queries/saved-queries.service.ts (SavedQueriesService)
--                over libs/core/src/lib/saved-queries (sidecar-io.ts, entry-etag.ts)
--   Templates    libs/common/src/lib/templates (validate.ts, substitute.ts)
--   EngineMap    libs/server/src/lib/bootstrap/engine-map.ts (EngineMap), engine-map-worker-load.ts and
--                engine-map-actions.ts, for a source in memory that a query worker owns
--   Builds       libs/server/src/lib/bootstrap/index-build-pool.ts (IndexBuildPool)
--   Workers      libs/server/src/lib/sparql/query-worker-pool.ts (QueryWorkerPool)
--   QueryCache   libs/core/src/lib/query-cache/cache-store.ts (openQueryCache), ttl-policy.ts
--   QueryCache/Key       libs/core/src/lib/query-cache/cache-key.ts (deriveCacheKey)
--   QueryCache/Executor  libs/core/src/lib/query-cache/caching-query-executor.ts and
--                wrap-with-query-cache.ts; OnDisk fills its interface of a store with the store above
--   Diff/Tabular libs/core/src/lib/diff/tabular-diff.ts (tabularDiff) and tabular-row-key.ts
--   Diff/Rdf     libs/core/src/lib/diff/diff.ts (diffWithPairedBnodes, diffCanonicalStatements)
--
-- State is a record that each operation takes and returns. Calls, events of children and workers,
-- and timers are the constructors of a type `Call`, so a run is a list of them in any order; what
-- the code does to the outside is a trace in the state. Clock readings are arguments. Loops over
-- collections are structural; `decimal` has as much fuel as the number it prints, and a step
-- drops a digit. Numbers are natural: the hash of a source id keeps its 32-bit wrap-around, and a
-- difference of times below 0 counts as 0, which no comparison with a bound tells apart.
--
-- Not modelled: the engine (Comunica, n3), canonicalization, git, SQLite, YAML, HTTP, the command
-- line's output and the web application, which call packages or do input and output; hashing, the
-- walkers of globs, UTF-8 lengths, the order of keys in SQLite, the parsers of human sizes and the
-- shapes of blank nodes are parameters. Logging and the
-- texts of error messages are left out.

pub mod Base
pub mod OrderedMap
pub mod Resident
pub mod EngineMap
pub mod Events
pub mod SourceRows
pub mod Sources
pub mod Target
pub mod Builds
pub mod Workers
pub mod QueryCache
pub mod Diff
pub mod SavedQueries
pub mod MetaChildren
pub mod GlobIndex
pub mod Registry
pub mod Json
pub mod Templates
