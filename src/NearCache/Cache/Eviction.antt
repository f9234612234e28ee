-- ===== src/NearCache/Cache/Eviction.antt =====
-- Which entry `doEvictionIfRequired` takes out, and when it takes out none.
use hazelcast_nodejs_client.Prelude.{
  ℕ, zero, suc, ◌+◌, ◌-◌, ◌≤◌, ◌≡◌, refl, sym, subst, ◌∙◌, leb, inl, inr, Bool, true, false, List,
  [], ◌∷◌, ◌++◌, none, some, arith, if◌then◌else◌, length, get_elem?, take, All, Bool-cases,
  Option-cases, ltb,
}
use hazelcast_nodejs_client.Shuffle.{sort, shuffled}
use hazelcast_nodejs_client.Shuffle.Orders.{IsOrder, IsSorted, sort-IsSorted, All-unsort}
use hazelcast_nodejs_client.NearCache.Config.{lru}
use hazelcast_nodejs_client.NearCache.Store
use hazelcast_nodejs_client.NearCache.Store.{Data, DataKeyedHashMap}
use hazelcast_nodejs_client.NearCache.Store.Invariant.{size-set, size-delete}
use hazelcast_nodejs_client.NearCache.Store.Laws.{get-delete, has_none}
use hazelcast_nodejs_client.NearCache.Record
use hazelcast_nodejs_client.NearCache.Record.{DataRecord}
use hazelcast_nodejs_client.NearCache.Repair.{Partitions}
use hazelcast_nodejs_client.NearCache.Cache.{
  NearCache, Draws, SerializationService, is_eviction_required, recompute_eviction_pool,
  evict_first, evict_record, expire_record, do_eviction_if_required, init_invalidation_metadata,
  put, store_record, to_memory, may_precede, sort_candidates, filter_expired,
}
use hazelcast_nodejs_client.NearCache.Cache.Invariant.{Valid}

All-take : (P : ℕ → Type 0) (n : ℕ) (xs : List ℕ) → All P xs → All P (take n xs)
All-take P zero xs a = tt
All-take P (suc n) [] a = tt
All-take P (suc n) (x ∷ xs) a = (a.0, All-take P n xs a.1)

IsSorted-take : (le : ℕ → ℕ → Bool) (n : ℕ) (xs : List ℕ) → IsSorted le xs → IsSorted le (take n xs)
IsSorted-take le zero xs s = tt
IsSorted-take le (suc n) [] s = tt
IsSorted-take le (suc n) (x ∷ xs) s =
    (All-take (λ y. le x y ≡ true) n xs s.0, IsSorted-take le n xs s.1)

module _ {K V : Type 0} where
  -- The comparisons by access time and by hits are orders.
  lru_total :
      (heap : List (DataRecord K V)) (x y : ℕ)
      → may_precede Record.lru_comp heap x y ≡ false
      → may_precede Record.lru_comp heap y x ≡ true
  unfolding may_precede Record.lru_comp
  lru_total heap x y e = ground arith

  lru_trans :
      (heap : List (DataRecord K V)) (x y z : ℕ)
      → may_precede Record.lru_comp heap x y ≡ true
      → may_precede Record.lru_comp heap y z ≡ true
      → may_precede Record.lru_comp heap x z ≡ true
  unfolding may_precede Record.lru_comp
  lru_trans heap x y z e f = ground arith

  lru-IsOrder : (heap : List (DataRecord K V)) → IsOrder (may_precede Record.lru_comp heap)
  lru-IsOrder heap = record { total = lru_total heap; trans = lru_trans heap }

  lfu_total :
      (heap : List (DataRecord K V)) (x y : ℕ)
      → may_precede Record.lfu_comp heap x y ≡ false
      → may_precede Record.lfu_comp heap y x ≡ true
  unfolding may_precede Record.lfu_comp
  lfu_total heap x y e = ground arith

  lfu_trans :
      (heap : List (DataRecord K V)) (x y z : ℕ)
      → may_precede Record.lfu_comp heap x y ≡ true
      → may_precede Record.lfu_comp heap y z ≡ true
      → may_precede Record.lfu_comp heap x z ≡ true
  unfolding may_precede Record.lfu_comp
  lfu_trans heap x y z e f = ground arith

  lfu-IsOrder : (heap : List (DataRecord K V)) → IsOrder (may_precede Record.lfu_comp heap)
  lfu-IsOrder heap = record { total = lfu_total heap; trans = lfu_trans heap }

module _ {K V : Type 0} (heap : List (DataRecord K V)) where
  -- When a record of the heap was last accessed.
  abbrev pub last_access : ℕ → ℕ
  last_access id = elim (get_elem? heap id) [ none ↦ 0 | some r ↦ r.last_access_time ]

  abbrev pub accessed_before : ℕ → ℕ → Bool
  accessed_before x y = leb (last_access x) (last_access y)

  may_precede-last_access :
      (x y : ℕ) → may_precede Record.lru_comp heap x y ≡ true → last_access x ≤ last_access y
  unfolding may_precede Record.lru_comp
  may_precede-last_access x y e = ground arith

  All-accessed_before :
      (x : ℕ) (ids : List ℕ)
      → All (λ y. may_precede Record.lru_comp heap x y ≡ true) ids
      → All (λ y. accessed_before x y ≡ true) ids
  All-accessed_before x [] a = tt
  All-accessed_before x (y ∷ ids) a =
      (ground (arith, may_precede-last_access x y a.0), All-accessed_before x ids a.1)

  All-last_access :
      (x : ℕ) (ids : List ℕ)
      → All (λ y. may_precede Record.lru_comp heap x y ≡ true) ids
      → All (λ y. last_access x ≤ last_access y) ids
  All-last_access x [] a = tt
  All-last_access x (y ∷ ids) a = (may_precede-last_access x y a.0, All-last_access x ids a.1)

  IsSorted-accessed_before :
      (ids : List ℕ)
      → IsSorted (may_precede Record.lru_comp heap) ids
      → IsSorted accessed_before ids
  IsSorted-accessed_before [] s = tt
  IsSorted-accessed_before (x ∷ ids) s =
      (All-accessed_before x ids s.0, IsSorted-accessed_before ids s.1)

  -- The first one that is taken from a sorted list is a least one of it.
  least_first :
      (n : ℕ) (ids : List ℕ) (first : ℕ) (pool : List ℕ)
      → IsSorted (may_precede Record.lru_comp heap) ids
      → take n ids ≡ first ∷ pool
      → All (λ y. last_access first ≤ last_access y) ids
  least_first zero ids first pool s e = absurd (cc)
  least_first (suc n) [] first pool s e = tt
  least_first (suc n) (x ∷ ids) first pool s e =
      let same : x ≡ first = cc in
      subst (λ f. All (λ y. last_access f ≤ last_access y) (x ∷ ids)) same
        (omega arith, All-last_access x ids s.0)

module _ {K V : Type 0} ⦃d : Data K⦄ (now : ℕ) where
  length-filter_expired-le :
      (c : NearCache K V) (ids : List ℕ) → length (filter_expired c now ids).1 ≤ length ids
  unfolding filter_expired
  length-filter_expired-le c [] = omega arith
  length-filter_expired-le c (id ∷ ids) = elim (Option-cases (get_elem? c.heap id)) [
    | inl e ↦ ground (arith, length-filter_expired-le c ids)
    | inr (r, e) ↦ ground (
      arith,
      length-filter_expired-le c ids,
      length-filter_expired-le (expire_record c r.key) ids,
    )
  ]

  -- Where the filter drops nothing the cache is as before.
  filter_expired-none :
      (c : NearCache K V) (ids : List ℕ)
      → length ids ≤ length (filter_expired c now ids).1
      → (filter_expired c now ids ≡ (c, ids))
  unfolding filter_expired
  filter_expired-none c [] h = refl
  filter_expired-none c (id ∷ ids) h = elim (Option-cases (get_elem? c.heap id)) [
    | inl e ↦ absurd (ground (arith, length-filter_expired-le c ids))
    | inr (r, e) ↦ elim (Bool-cases (Record.is_expired r c.max_idle_seconds now)) [
      | inl x ↦ absurd (ground (arith, length-filter_expired-le (expire_record c r.key) ids))
      | inr x ↦ ground (arith, filter_expired-none c ids)
    ]
  ]

module _ {K V : Type 0} ⦃d : Data K⦄ (c : NearCache K V) (draws : Draws) (now : ℕ) where
  abbrev pub sample : List ℕ
  sample = take c.eviction_sampling_count (shuffled draws.shuffle (Store.values c.internal_store))

  -- The pool that replaces the old one where nothing of the sample is expired.
  abbrev pub next_pool : List ℕ
  next_pool =
      take c.eviction_sampling_pool_size
        (sort_candidates c draws.order (c.eviction_candidate_pool ++ sample))

  pub recompute_eviction_pool_unexpired :
      (recompute_eviction_pool c draws now).1 ≡ 0
      → recompute_eviction_pool c draws now ≡ (record c { eviction_candidate_pool = next_pool }, 0)
  unfolding recompute_eviction_pool
  recompute_eviction_pool_unexpired h =
      let kept = (filter_expired c now sample).1 in
      let same = filter_expired-none now c sample in
      elim (Bool-cases (ltb 0 (length sample - length kept))) [
        | inl e ↦ absurd (ground arith)
        | inr e ↦ ground (arith, same (ground arith))
      ]

  -- With the policy LRU the new pool is in the order of the times of the last access, the least
  -- recently used first, and no record of the old pool or of the sample was last accessed before the
  -- first one of the new pool.
  pub next_pool-IsSorted_lru :
      (first : ℕ) (pool : List ℕ)
      → c.eviction_policy ≡ lru
      → next_pool ≡ first ∷ pool
      → IsSorted (accessed_before c.heap) next_pool
        × All
            (λ y. last_access c.heap first ≤ last_access c.heap y)
            (c.eviction_candidate_pool ++ sample)
  unfolding sort_candidates
  next_pool-IsSorted_lru first pool policy head =
      let le = may_precede Record.lru_comp c.heap in
      let candidates = c.eviction_candidate_pool ++ sample in
      let sorted = sort-IsSorted le (lru-IsOrder c.heap) candidates in
      let ordered : next_pool ≡ take c.eviction_sampling_pool_size (sort le candidates) =
        rw (policy, sort_candidates) refl in
      let head_of : take c.eviction_sampling_pool_size (sort le candidates) ≡ first ∷ pool =
        sym ordered ∙ head in
      (
        subst (IsSorted (accessed_before c.heap)) (sym ordered) (
            IsSorted-accessed_before c.heap
              (take c.eviction_sampling_pool_size (sort le candidates))
              (IsSorted-take le c.eviction_sampling_pool_size (sort le candidates) sorted)),
        All-unsort (λ y. last_access c.heap first ≤ last_access c.heap y) le candidates
            (least_first c.heap c.eviction_sampling_pool_size (sort le candidates) first pool sorted
              head_of),
      )

module _ {K V : Type 0} ⦃d : Data K⦄ (s : SerializationService V) (p : Partitions K)
    (c e : NearCache K V) (key : K) (value : V) (draws : Draws) (now : ℕ) (pool : List ℕ)
    (first : ℕ) (r : DataRecord K V) where
  evicted-store :
      (x : NearCache K V)
      → is_eviction_required c ≡ true
      → (recompute_eviction_pool c draws now).1 ≡ 0
      → next_pool c draws now ≡ first ∷ pool
      → get_elem? c.heap first ≡ some r
      → do_eviction_if_required c draws now ≡ some x
      → x.internal_store ≡ (Store.delete c.internal_store r.key).0
  unfolding do_eviction_if_required evict_first evict_record
  evicted-store x full none_expired head at done =
      ground (arith, recompute_eviction_pool_unexpired c draws now none_expired)

  put-store :
      (x : NearCache K V)
      → do_eviction_if_required c draws now ≡ some x
      → put s p c key value draws now ≡ some e
      → e.internal_store ≡ Store.set x.internal_store key (length x.heap)
  unfolding put store_record
  put-store x evicted done =
      let dr : DataRecord K V =
        Record.create key (some (to_memory s x.in_memory_format value)) none
          (some x.time_to_live_seconds) now in
      elim (Option-cases (init_invalidation_metadata p x.stale_read_detector dr)) [
        | inl n ↦ absurd (ground arith)
        | inr (q, f) ↦ ground arith
      ]

  -- A new key at capacity, with no expired entry in the sample: the cache keeps its size if the
  -- first candidate of the pool is still in the store, and grows by one if it has left the store.
  pub size-put_full :
      Valid c
      → is_eviction_required c ≡ true
      → Store.get c.internal_store key ≡ none
      → (recompute_eviction_pool c draws now).1 ≡ 0
      → next_pool c draws now ≡ first ∷ pool
      → get_elem? c.heap first ≡ some r
      → put s p c key value draws now ≡ some e
      → e.internal_store.size ≡ (
          if Store.has c.internal_store r.key
          then c.internal_store.size
          else c.internal_store.size + 1)
  unfolding put
  size-put_full v full absent none_expired head at done =
      let m = c.internal_store in
      elim (Option-cases (do_eviction_if_required c draws now)) [
        | inl n ↦ absurd (ground arith)
        | inr (x, f) ↦
            let left : Store.get (Store.delete m r.key).0 key ≡ none =
              ground (arith, get-delete m r.key key v.store_valid) in
            ground (
              arith,
              evicted-store x full none_expired head at f,
              put-store x f done,
              size-set (Store.delete m r.key).0 key (length x.heap),
              has_none (Store.delete m r.key).0 key left,
              size-delete m r.key v.store_valid,
            )
      ]
