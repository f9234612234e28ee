-- ===== src/NearCache/Cache.antt =====
-- nearcache/NearCache.ts: `NearCacheImpl`. The records are shared by the store and by the pool of
-- eviction candidates, so they stand on a heap and are named by their index; a record is never
-- removed from it. `now` is `Date.now()`, the draws are what `Math.random()` returns, and `none` in
-- place of a new cache is a `TypeError`, whose partial effects are not described.
pub mod Access
pub mod Eviction
pub mod Publication
pub mod Reservations
pub mod Calls
pub mod Invariant
pub mod Shrinking
use hazelcast_nodejs_client.Prelude.{
  ℕ, suc, ◌+◌, ◌-◌, ◌==◌, Bool, true, false, not, ◌&&◌, List, [], ◌∷◌, ◌++◌, Option, none, some,
  ltb, leb, if◌then◌else◌, length, get_elem?, set, take, ℤ, pos, leb_ℤ, long_add,
}
use hazelcast_nodejs_client.Shuffle.{shuffled, sort}
use hazelcast_nodejs_client.NearCache.Config.{
  InMemoryFormat, object, binary, EvictionPolicy, lru, lfu, random, NearCacheConfig,
}
use hazelcast_nodejs_client.NearCache.Store
use hazelcast_nodejs_client.NearCache.Store.{Data, DataKeyedHashMap}
use hazelcast_nodejs_client.NearCache.Record
use hazelcast_nodejs_client.NearCache.Record.{DataRecord, not_reserved, read_permitted}
use hazelcast_nodejs_client.NearCache.Repair.{
  Partitions, StaleReadDetector, always_fresh, repairing, metadata_of, is_stale_read,
}

-- What the cache uses of the serialization service.
pub record SerializationService (V : Type 0) : Type 0 where
  pub to_object : V → V
  pub to_data : V → V

-- The promise that `setReady` settles.
pub data Ready : Type 0 where
  waiting resolved rejected : Ready

-- The random choices of one operation: the draws of `shuffleArray`, and those that stand for the
-- order which the engine gives elements under a random comparison.
pub record Draws : Type 0 where
  pub shuffle : ℕ → ℕ
  pub order : ℕ → ℕ

pub record NearCache (K V : Type 0) : Type 0 where
  pub config : NearCacheConfig
  pub open config use *
  pub heap : List (DataRecord K V)
  pub internal_store : DataKeyedHashMap K ℕ
  pub eviction_candidate_pool : List ℕ
  pub stale_read_detector : StaleReadDetector
  pub reservation_counter : ℤ
  pub evicted_count : ℕ
  pub expired_count : ℕ
  pub miss_count : ℕ
  pub hit_count : ℕ
  pub ready : Ready

unfoldable pub create : {K V : Type 0} → NearCacheConfig → NearCache K V
unfolding Store.create
create config = record {
  config = config;
  heap = [];
  internal_store = Store.create;
  eviction_candidate_pool = [];
  stale_read_detector = always_fresh;
  reservation_counter = pos 0;
  evicted_count = 0;
  expired_count = 0;
  miss_count = 0;
  hit_count = 0;
  ready = waiting;
}

-- A settled promise stays as it is. The argument says whether an error was given.
unfoldable pub set_ready : {K V : Type 0} → NearCache K V → Bool → NearCache K V
set_ready c error = elim c.ready [
  | waiting ↦ record c { ready = if error then rejected else resolved }
  | _ ↦ c
]

module _ {V : Type 0} where
  unfoldable pub to_memory : SerializationService V → InMemoryFormat → V → V
  to_memory s object value = s.to_object value
  to_memory s binary value = s.to_data value

  unfoldable pub from_memory : SerializationService V → InMemoryFormat → Option V → Option V
  from_memory s binary (some value) = some (s.to_object value)
  from_memory s binary none = none
  from_memory s object value = value

module _ {K V : Type 0} where
  unfoldable pub set_stale_read_detector : NearCache K V → StaleReadDetector → NearCache K V
  set_stale_read_detector c detector = record c { stale_read_detector = detector }

  unfoldable pub next_reservation_id : NearCache K V → ℤ × NearCache K V
  next_reservation_id c = (
    c.reservation_counter,
    record c { reservation_counter = long_add c.reservation_counter (pos 1) },
  )

  -- The comparison functions. A reference is always on the heap.
  unfoldable pub may_precede :
      (DataRecord K V → DataRecord K V → ℤ) → List (DataRecord K V) → ℕ → ℕ → Bool
  may_precede comp heap x y = elim (get_elem? heap x) [
    | none ↦ true
    | some r ↦ elim (get_elem? heap y) [ none ↦ false | some s ↦ leb_ℤ (comp r s) (pos 0) ]
  ]

  -- `sort(this.compareFunc)`. With the policy `NONE` the pool is never computed.
  unfoldable pub sort_candidates : NearCache K V → (ℕ → ℕ) → List ℕ → List ℕ
  unfolding may_precede Record.lru_comp Record.lfu_comp sort shuffled
  sort_candidates c order ids = elim c.eviction_policy [
    | lfu ↦ sort (may_precede Record.lfu_comp c.heap) ids
    | lru ↦ sort (may_precede Record.lru_comp c.heap) ids
    | random ↦ shuffled order ids
    | EvictionPolicy.none ↦ ids
  ]

module _ {K V : Type 0} ⦃d : Data K⦄ where
  unfoldable pub expire_record : NearCache K V → K → NearCache K V
  expire_record c key =
      let (store, deleted) = Store.delete c.internal_store key in
      record c {
        internal_store = store;
        expired_count = if deleted then c.expired_count + 1 else c.expired_count;
      }

  unfoldable pub evict_record : NearCache K V → K → NearCache K V
  evict_record c key =
      let (store, deleted) = Store.delete c.internal_store key in
      record c {
        internal_store = store;
        evicted_count = if deleted then c.evicted_count + 1 else c.evicted_count;
      }

  -- `newCandidates.filter(this.filterExpiredRecord, this)`: the candidates that stay, and the cache
  -- without the others.
  unfoldable pub filter_expired : NearCache K V → ℕ → List ℕ → NearCache K V × List ℕ
  unfolding expire_record
  filter_expired c now [] = (c, [])
  filter_expired c now (id ∷ ids) = elim (get_elem? c.heap id) [
    | none ↦ filter_expired c now ids
    | some r ↦ elim (Record.is_expired r c.max_idle_seconds now) [
      | true ↦ filter_expired (expire_record c r.key) now ids
      | false ↦ let (cleaned, kept) = filter_expired c now ids in (cleaned, id ∷ kept)
    ]
  ]

  unfoldable pub is_eviction_required : NearCache K V → Bool
  is_eviction_required c = elim c.eviction_policy [
    | EvictionPolicy.none ↦ false
    | _ ↦ leb c.eviction_max_size c.internal_store.size
  ]

  -- The new cache, and the number of expired elements among the sample.
  unfoldable pub recompute_eviction_pool : NearCache K V → Draws → ℕ → NearCache K V × ℕ
  unfolding filter_expired sort_candidates
  recompute_eviction_pool c draws now =
      let arr = shuffled draws.shuffle (Store.values c.internal_store) in
      let candidates = take c.eviction_sampling_count arr in
      let (cleaned, kept) = filter_expired c now candidates in
      let expired = length candidates - length kept in
      let pool = sort_candidates cleaned draws.order (cleaned.eviction_candidate_pool ++ kept) in
      if ltb 0 expired
      then (cleaned, expired)
      else (record cleaned { eviction_candidate_pool = take c.eviction_sampling_pool_size pool }, 0)

  -- Evicts the first candidate: an empty pool has no key to read.
  unfoldable pub evict_first : NearCache K V → Option (NearCache K V)
  unfolding evict_record
  evict_first c = elim c.eviction_candidate_pool [
    | [] ↦ none
    | id ∷ pool ↦ elim (get_elem? c.heap id) [
      | none ↦ none
      | some r ↦ some (record (evict_record c r.key) { eviction_candidate_pool = pool })
    ]
  ]

  unfoldable pub do_eviction_if_required : NearCache K V → Draws → ℕ → Option (NearCache K V)
  unfolding is_eviction_required recompute_eviction_pool evict_first
  do_eviction_if_required c draws now =
      let (pooled, expired) = recompute_eviction_pool c draws now in
      if is_eviction_required c
      then (if ltb 0 expired then some pooled else evict_first pooled)
      else some c

  -- The record with the metadata of its partition; `none` where there is no container to read.
  unfoldable pub init_invalidation_metadata :
      Partitions K → StaleReadDetector → DataRecord K V → Option (DataRecord K V)
  unfolding Record.set_uuid Record.set_invalidation_sequence
  init_invalidation_metadata p always_fresh r = some r
  init_invalidation_metadata p (repairing h) r = elim (metadata_of p h r.key) [
    | none ↦ none
    | some m ↦ some (Record.set_uuid (Record.set_invalidation_sequence r m.sequence) m.uuid)
  ]

  -- A new record goes on the heap, and its reference into the store.
  unfoldable pub store_record : NearCache K V → K → DataRecord K V → NearCache K V
  store_record c key r = record c {
    heap = c.heap ++ r ∷ [];
    internal_store = Store.set c.internal_store key (length c.heap);
  }

  unfoldable pub put :
      SerializationService V
      → Partitions K
      → NearCache K V
      → K
      → V
      → Draws
      → ℕ
      → Option (NearCache K V)
  unfolding do_eviction_if_required init_invalidation_metadata store_record to_memory Record.create
  put s p c key value draws now = elim (do_eviction_if_required c draws now) [
    | none ↦ none
    | some e ↦
        elim (init_invalidation_metadata p e.stale_read_detector (
          Record.create key (some (to_memory s e.in_memory_format value)) none
            (some e.time_to_live_seconds) now)) [
              | none ↦ none
              | some r ↦ some (store_record e key r)
            ]
  ]

  unfoldable pub invalidate : NearCache K V → K → NearCache K V
  invalidate c key = record c { internal_store = (Store.delete c.internal_store key).0 }

  unfoldable pub clear : NearCache K V → NearCache K V
  unfolding Store.clear
  clear c = record c { internal_store = Store.clear c.internal_store }

-- `getStatistics`, without the name and the time of creation.
pub record NearCacheStatistics : Type 0 where
  pub evicted_count : ℕ
  pub expired_count : ℕ
  pub miss_count : ℕ
  pub hit_count : ℕ
  pub entry_count : ℕ

unfoldable pub get_statistics : {K V : Type 0} → NearCache K V → NearCacheStatistics
get_statistics c = record {
  evicted_count = c.evicted_count;
  expired_count = c.expired_count;
  miss_count = c.miss_count;
  hit_count = c.hit_count;
  entry_count = c.internal_store.size;
}
