-- ===== src/Lib.antt =====
-- NOLA, a distributed virtual actor system. Servers send heartbeats to a registry; the registry
-- keeps which server an actor is activated on, fences the storage of the actor by that activation,
-- and keeps all of it in a transactional key-value store. The examples are actors.
--
-- The files, and the code that they model:
-- - Base: the outcome of a Go call (a value, an error, a panic), tests, lists and byte strings.
-- - Types, References: virtual/types/virtual_ref.go, ref.go, namespace.go. A reference is a record;
--   `NewActorReference` is `new_actor_reference`.
-- - Kv: the interface of virtual/registry/kv/kv.go as a record of operations and laws, the parameter
--   of the registry.
-- - LocalKv: virtual/registry/localregistry/local_kv.go. `localKV` is the record `LocalKv`; its
--   lock is a flag, and a call that would wait answers `none`. LocalKv.Prefix fills the interface.
-- - Registry: virtual/registry/kv_registry.go and types.go, a function for each method of
--   `kvRegistry` and `kvTransaction`. Where the code drops the error of a put, `unchecked` goes on in
--   the state before it; `PutNeverFails` is the hypothesis that there are none, as in both stores.
--   A call in `Transact` is the function in it, on the store's state: one that returns an error is
--   rolled back by the store and leaves no state, and the store does not fail by itself there. What
--   its `BeginTransaction`, `Commit` and `Cancel` answer are fields of the interface.
-- - Activations: virtual/activations.go. The map of actors and the futures behind it, with a number
--   for each pointer; Activations.State has `invoke` and `invokeNotExistWithLock` cut at the places
--   where the lock changes hands, and Activations.Running the steps of any number of goroutines, with
--   a flag that says whether the garbage collection may be due before a startup is over.
-- - Activated: `activatedActor` of virtual/activations.go, one actor of that map: its invocations in
--   a transaction of Host, its closing and its GC timer.
-- - Host: virtual/host_capabilities.go. The lazy transaction with its sync.Once, and `Transact`, over
--   any storage and over that of the registry.
-- - Dns: virtual/registry/dnsregistry/dns_registry.go, what a discovery makes of the addresses and
--   what the registry then answers.
-- - Environment: virtual/environment.go. The checks of `InvokeActorDirectStream`, the way of a call
--   from `InvokeActorStream` to a server, heartbeats and their goroutine, the options. It uses the
--   registry's answers (Registry, Dns) and hands calls to the activations (Activations).
-- - Semaphore: examples/semaphore/main.go. The global maps are the record `Semaphore`; Step and
--   Reachable are its calls in any order.
-- - FileCache: examples/file_cache/file_cache.go. FileCache.Chunks has the chunks of a range and the
--   range of a fetch, FileCache.Reading `copyChunk` and `getRange` over a cache and a fetcher, which
--   are parameters with a law each.
-- - Payload: wapcutils/kv.go, with the varints of encoding/binary over bytes as numbers.
-- - Validator: virtual/registry/validator.go, `validateString` with `strings.TrimSpace`, and the
--   calls that it guards: those of Registry, and any storage of Host.
-- - Http: virtual/server.go and http_client.go, the handlers from the body of a request to the
--   response and `InvokeActorRemote`; the transport, the streams of the environment, the encoding of
--   requests and how much of a stream that breaks has been flushed are parameters, and a connection
--   that is cut is a flag of the response.
-- - Wazero: the router of host functions of virtual/wazero.go, over the lazy transaction of Host and
--   the payloads of Payload; Wazero.Calling runs a program by its calls.
-- - Futures: virtual/futures/futures.go, with what a wait for unresolved futures waits for as `none`.
-- - Concrete: packages that keep the promises that are asked of them, for the runs in the tests.
--
-- Parameters. The order, the marshaling and the packing of keys are of packages that the code only
-- calls: google/btree (`BTree`), encoding/json (the codecs of `Deps`) and the tuple layer of
-- FoundationDB, of which virtual/registry/tuple is a copy. Their laws are what they document: an
-- ordered map; unmarshaling undoes marshaling; packing is injective. What `GetVersionStamp` and the
-- clock answer are arguments of the calls that ask them. So are what the activation cache
-- (ristretto) and the resolver of names answer, and the addresses in the router of local
-- environments. The hash ring is a copy of that of groupcache: `HashRing` says that it is empty
-- when nothing was added, and otherwise answers something that was added.
--
-- Numbers. `int64` and `uint64` of the registry are bit patterns, with `% 2 ^ 64` written out, and
-- the duration between two stamps wraps around too. Strings are texts, that is, valid UTF-8. The
-- counts of the semaphore stay at or below their limits. The sizes and offsets of the file cache are
-- not negative and small enough that no sum wraps around.
--
-- Fuel. The loop over the parts of a module takes a byte at least each time, so the length of its
-- encoding is enough; the loop over the chunks of a range likewise takes a byte at least, so the
-- length of the range is enough.
--
-- Not modelled: of the environment, the registration of Go modules, the writing of its caches and
-- the calls of its network; of the activations, the loading of modules; of the host capabilities of
-- Go actors, timers, which are calls of the activations; the loop of the DNS registry; the WASM
-- engines, the FoundationDB store and the commands; in the file cache, writers that fail and fetches
-- that several readers share.
pub mod Activations
pub mod Base
pub mod Types
pub mod References
pub mod Kv
pub mod Host
pub mod Http
pub mod LocalKv
pub mod Dns
pub mod Environment
pub mod FileCache
pub mod Futures
pub mod Payload
pub mod Registry
pub mod Semaphore
pub mod Validator
pub mod Wazero
pub mod Activated
pub mod Concrete
