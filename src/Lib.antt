-- ===== src/Lib.antt =====
-- beeorm: an ORM over MySQL with a local cache and Redis, the Go package at the repository's root.
--
-- The program's parts and the files that model them:
--   Prelude           lists, texts, Go maps as association lists, decimal numbers, panics
--   Uuid              uuid.go: `uuid`, `SetUUIDServerID` over the three package variables
--   RedisFlusher      redis_flusher.go: `Del`, `Set`, `Publish`, `HSet` record commands by pool, and
--                     `Flush` sends them; Wire and Order are about `Flush`, Record and Events about
--                     what is recorded
--   Db                db.go: `Begin`, `Commit`, `Rollback` of a pool, and the cache updates of the
--                     engine (engine.go) that wait for a commit
--   Cache             the interface of a local cache and of Redis that loading relies on
--   LoadById          load_by_id.go: `loadByID` through the local cache, Redis and MySQL
--   ClearByIds        clear_by_ids.go: `clearByIDs`
--   LocalCache        local_cache.go: 100 LRU lists; `Get`, `MGet`, `Set`, `MSet`, `Remove`,
--                     `Clear`, `GetSet`
--   Locker            locker.go: `Obtain` with its retries, `Refresh` and `Release`
--   EventBroker       event_broker.go: an event, `Ack` and `delete`, and the consumer: `consume`, `digest`,
--                     `digestKeys`, `garbage`; Consume is its loop, Ids is `incrementID`; Acks, Phases
--                     and Loop are proofs
--   Search            where.go, pager.go and `searchIDs` of search.go; Marks is about `NewWhere`,
--                     Totals about the number of rows
--   Enum              the enums of table_schema.go: `initEnum`, `Has`, `Index`
--   Serializer        serializer.go: the buffer of bytes; Bytes is about what each operation appends
--                     and takes away
--   Orm               orm.go: the columns of an entity by kind; Order is the order in which
--                     `serializeFields`, `deserializeFields`, `deserializeStructFromDB` and `build` go
--                     through them, Cells is one column, Entity is `serialize` and `deserialize`,
--                     Rows is `deserializeFromDB`; the modules named RoundTrip, Combine, Kept, Loaded and
--                     Times are proofs
--   Bind              bind_builder.go: what the functions for the kinds share, with the columns in Scalars and
--                     Strings; Build is `build` and, of orm.go, `buildDirtyBind`, `GetDirtyBind` and
--                     `IsDirty`; Escape is `escapeSQLString` of db.go, with its proofs in Literal; Compare compares two entities
--                     without the binary form; Aligned, Cells, Dirty, Bound, Changes, Outcome, Same, Clean and Fresh are
--                     proofs
--   CachedSearch      cached_search.go: the cache pages and the window of identifiers in `cachedSearch`; Window
--                     is its proof
--   Flusher           flusher.go: World is the flusher with the entities behind pointers; Track is `Track`,
--                     `Delete`, `ForceDelete`, `CancelDelete`, `Clear`; Queries is `getCacheQueriesKeys`; Pending and
--                     Caches collect and send cache updates and log events; Execute sends the statements;
--                     Collect is the first loop of `flush`, Flush the rest of it with `flushReferences`,
--                     `flushTrackedEntities`, `FlushWithCheck` and `FlushWithFullCheck`; Loops, Tracked, Frame, Rollback,
--                     Recover, Sent, Single, Held, Cycle, Waiting, Queued, Stale and Saved are proofs
--   Tests             runs on small inputs, and each theorem at an input that meets its hypotheses
--
-- How state is modelled. A Go map is an association list. Its order stands for the iteration order,
-- and a theorem about every list holds for every order. A nil map or slice is `none` where the code
-- tests for nil. A panic is a value of `Result` or an error beside the state. Numbers are natural
-- numbers, and `uint64` wraps at 2 ^ 64; in the binary form and the binds `int64` is an integer that wraps at
-- 2 ^ 63. Times are Unix seconds, the ttl of `GetSet` is in nanoseconds, and outside orm.go a comparison of a difference is written with a sum. The
-- quotients of `cachedSearch` are exact, as float64 is below 2 ^ 53. Logging of queries is left out everywhere.
--
-- Bounds and fuel. `format_uint` divides by 10 with one step of fuel more than the number, which is
-- enough, as the round trip with `parse_uint` shows. All other functions recurse on their lists; the
-- endless loop of `consume` runs over a list of rounds and may be left `running` at its end.
-- `flush_entities` has fuel for the depth of the recursion of `flush` over unsaved references; the source
-- has no bound there: fuel 1 is enough where all references are saved, and none is for an entity that refers to
-- itself.
--
-- How the flusher is modelled. A call takes the world to its result and the world after it, and keeps what was
-- written before a panic. The Redis flusher of the engine that waits for a commit may be the flusher's own object;
-- the field `shared` says so, and the two are then written together. The bind builder, the serializer and the
-- writing of keys and events are parameters, and MySQL answers as a function of the statements sent so far. The maps
-- are gone through in the order of their association lists, one of the orders that Go allows.
--
-- Not modelled: MySQL, Redis, msgpack, redsync and groupcache, which are interfaces with the laws
-- that the code relies on; encoding/binary, JSON and time zones, which are parameters; reflection, where an
-- entity is a function from the path and the kind of a field to its value; SQL statements but those of
-- `searchIDs` and of the flusher; a panic of Redis while a commit sends the commands that waited for it; `FlushLazy` and `flushOnDuplicateKey`; loading by several identifiers, the caches behind `cachedSearch`, background
-- consumers, the registry and the schema comparison.
pub mod Prelude
pub mod Uuid
pub mod RedisFlusher
pub mod Db
pub mod Cache
pub mod LoadById
pub mod ClearByIds
pub mod LocalCache
pub mod Locker
pub mod EventBroker
pub mod Search
pub mod Enum
pub mod Flusher
pub mod Serializer
pub mod Orm
pub mod Bind
pub mod CachedSearch
pub mod Tests
