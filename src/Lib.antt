-- ===== src/Lib.antt =====
-- Verification of the Hazelcast Node.js client (src/ of the repository).
--
-- A proxy of a distributed object sends requests through the invocation service, which picks a
-- connection by the partition table, retries, and settles the promise of the response. The near
-- cache keeps copies of the entries of a map in the client, and follows the members' events to drop
-- those that change. Three proxies have logic of their own: the PN counter, the id generator, and
-- the fenced lock over the sessions of its group.
--
--   Invocations models invocation/InvocationService.ts. Invocations/Request is `Invocation`;
--   Invocations/Routing has the state of `InvocationService` and the choice of a connection,
--   Invocations/Retrying `doInvoke` and `notifyError`, Invocations/Service the other methods and
--   the events. The objects are named by their correlation ids.
--   PartitionTable models PartitionService.ts.
--   NearCache/Store models nearcache/DataStoreHashMap.ts: a map from keys to buckets by hash code.
--   NearCache/Record models nearcache/DataRecord.ts: an entry, its times and its reservation.
--   NearCache/Cache models nearcache/NearCache.ts: `put`, eviction and expiry; Cache/Access has
--   `get` and the reservations. The records are shared by reference between the store and the pool
--   of eviction candidates, so they stand on a heap, and both hold indices into it.
--   NearCache/Metadata and NearCache/Repair model nearcache/MetadataContainer.ts,
--   RepairingHandler.ts and StaleReadDetector.ts: sequences of invalidation events per partition.
--   NearCache/Task models nearcache/RepairingTask.ts and MetadataFetcher.ts: the anti-entropy task.
--   NearCache/Config models config/NearCacheConfig.ts, EvictionPolicy.ts and InMemoryFormat.ts.
--   PnCounter models proxy/PNCounterProxy.ts, and VectorClock proxy/VectorClock.ts.
--   CpSession models proxy/cpsubsystem/CPSessionManager.ts, and FencedLock FencedLockProxy.ts beside
--   it: a lock holds its session in use. FencedLock/Steps has the interleavings of its calls.
--   FlakeId models proxy/flakeid/AutoBatcher.ts: batches of ids and the queue of callers.
--   Codec models frames of protocol/ClientMessage.ts, and CodecUtil.ts and ListMultiFrameCodec.ts of
--   codec/builtin; Codec/FixedSize models FixSizedTypesCodec.ts beside them.
--   Connection/Message is the writing of messages of protocol/ClientMessage.ts, and Connection/Reader
--   `ClientMessageReader` of network/Connection.ts. Connection/Writer is its `PipelinedWriter`: the
--   scheduled ticks are counted, and the writes that the socket has not answered are in flight.
--   Connection/Ordering has the steps that a writer may take, in any order. Connection/Fragments is its
--   `FragmentedClientMessageHandler`, with the callback of `registerResponseCallback`.
--   ConnectionManager/Registry and ConnectionManager/Manager model network/ConnectionManager.ts, with
--   `close` of network/Connection.ts; ConnectionManager/Steps has the orders that its steps may come
--   in. ConnectionManager/Retrying is its attempts to connect, with network/WaitStrategy.ts.
--   Buffers models util/BitsUtil.ts: a buffer is the list of its bytes.
--   ObjectData/Output and ObjectData/Input model the two streams of serialization/ObjectData.ts. New
--   memory has contents of the platform's choice, and UTF-8 is a pair of functions.
--   PatternMatcher models config/ConfigPatternMatcher.ts: which configuration fits a name.
-- Shuffle is `shuffleArray` of util/Util.ts and the sorting of the language; Uuid is core/UUID.ts.
-- JsMap is the language's `Map` as an association list; Prelude has lists, tests and 64-bit
-- integers (`Long`), whose wrap-around is written out. Tests has the theorems at concrete inputs.
--
-- Time is a number of milliseconds and an argument; random draws are arguments, and no theorem
-- assumes anything of them. What other services and the cluster answer is a record of functions or
-- an argument of the step. Loops run along their list, or on the number of rounds that the source
-- gives them. Some functions take fuel. The retries of an invocation that follow each other at once
-- have five rounds, which are enough since the invocation counts its attempts. The retries of a PN
-- counter's call take one element of a list of attempts each, and two more than the cluster has
-- members are enough. The loop that reads a list of frames has a round for every frame, the loops of
-- the reader of a connection have one more than there are bytes, and the attempts to connect have two
-- more than the timeout has milliseconds, which are enough if each takes one. A method
-- that throws returns `none`, or `false` beside the state that it leaves. A promise is its outcome,
-- or two steps where other calls may come in between.
--
-- Not modelled: sockets, the codecs of most types, floats and doubles, logging, the reading of
-- configurations, and the proxies that only encode one request.
pub mod Prelude
pub mod JsMap
pub mod Shuffle
pub mod Uuid
pub mod NearCache
pub mod VectorClock
pub mod PnCounter
pub mod FlakeId
pub mod PartitionTable
pub mod Invocations
pub mod CpSession
pub mod FencedLock
pub mod Codec
pub mod PatternMatcher
pub mod Buffers
pub mod ObjectData
pub mod Connection
pub mod ConnectionManager
mod Tests
