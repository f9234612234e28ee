-- ===== src/NearCache/Cache/Shrinking.antt =====
-- Eviction and expiration only take entries out of the store, and touch nothing else that a read or
-- a reservation depends on.
use hazelcast_nodejs_client.Prelude.{
  ℕ, ◌-◌, ◌≡◌, refl, ◌∙◌, ◌⊎◌, inl, inr, List, [], ◌∷◌, none, some, arith, ltb, length, get_elem?,
  take, Bool-cases, Option-cases, List-cases, subst,
}
use hazelcast_nodejs_client.Shuffle.{shuffled}
use hazelcast_nodejs_client.NearCache.Store
use hazelcast_nodejs_client.NearCache.Store.{Data, DataKeyedHashMap}
use hazelcast_nodejs_client.NearCache.Store.Invariant.{delete-IsValid}
use hazelcast_nodejs_client.NearCache.Store.Laws.{get-delete}
use hazelcast_nodejs_client.NearCache.Record
use hazelcast_nodejs_client.NearCache.Record.{DataRecord}
use hazelcast_nodejs_client.NearCache.Cache.{
  NearCache, Draws, expire_record, evict_record, filter_expired, recompute_eviction_pool,
  evict_first, is_eviction_required, do_eviction_if_required,
}

module _ {K V : Type 0} ⦃d : Data K⦄ where
  -- `e` is `c` with some entries gone.
  pub record Shrunk (c e : NearCache K V) : Type 0 where
    pub heap : e.heap ≡ c.heap
    pub config : e.config ≡ c.config
    pub detector : e.stale_read_detector ≡ c.stale_read_detector
    pub counter : e.reservation_counter ≡ c.reservation_counter
    pub ready : e.ready ≡ c.ready
    pub valid : Store.Invariant.IsValid e.internal_store
    pub gone :
        (k : K)
        → (Store.get e.internal_store k ≡ none)
          ⊎ (Store.get e.internal_store k ≡ Store.get c.internal_store k)

  pub Shrunk-refl : (c : NearCache K V) → Store.Invariant.IsValid c.internal_store → Shrunk c c
  Shrunk-refl c q = record {
    heap = refl;
    config = refl;
    detector = refl;
    counter = refl;
    ready = refl;
    valid = q;
    gone = λ k. inr refl;
  }

  pub Shrunk-trans : (a b c : NearCache K V) → Shrunk a b → Shrunk b c → Shrunk a c
  Shrunk-trans a b c s t = record {
    heap = t.heap ∙ s.heap;
    config = t.config ∙ s.config;
    detector = t.detector ∙ s.detector;
    counter = t.counter ∙ s.counter;
    ready = t.ready ∙ s.ready;
    valid = t.valid;
    gone = λ k. ground (arith, s.gone k, t.gone k);
  }

  expire_record-Shrunk :
      (c : NearCache K V) (key : K)
      → Store.Invariant.IsValid c.internal_store
      → Shrunk c (expire_record c key)
  unfolding expire_record
  expire_record-Shrunk c key q = record {
    heap = refl;
    config = refl;
    detector = refl;
    counter = refl;
    ready = refl;
    valid = delete-IsValid c.internal_store key q;
    gone = λ k. ground (arith, get-delete c.internal_store key k q);
  }

  evict_record-Shrunk :
      (c : NearCache K V) (key : K)
      → Store.Invariant.IsValid c.internal_store
      → Shrunk c (evict_record c key)
  unfolding evict_record
  evict_record-Shrunk c key q = record {
    heap = refl;
    config = refl;
    detector = refl;
    counter = refl;
    ready = refl;
    valid = delete-IsValid c.internal_store key q;
    gone = λ k. ground (arith, get-delete c.internal_store key k q);
  }

  pub filter_expired-Shrunk :
      (c : NearCache K V) (now : ℕ) (ids : List ℕ)
      → Store.Invariant.IsValid c.internal_store
      → Shrunk c (filter_expired c now ids).0
  unfolding filter_expired
  filter_expired-Shrunk c now [] q = Shrunk-refl c q
  filter_expired-Shrunk c now (id ∷ ids) q = elim (Option-cases (get_elem? c.heap id)) [
    | inl e ↦ rw (e, filter_expired) (filter_expired-Shrunk c now ids q)
    | inr (r, e) ↦ elim (Bool-cases (Record.is_expired r c.max_idle_seconds now)) [
      | inl x ↦
          let s = expire_record-Shrunk c r.key q in
          rw (e, x, filter_expired)
            (Shrunk-trans c (expire_record c r.key)
              (filter_expired (expire_record c r.key) now ids).0 s
              (filter_expired-Shrunk (expire_record c r.key) now ids s.valid))
      | inr x ↦ rw (e, x, filter_expired) (filter_expired-Shrunk c now ids q)
    ]
  ]

  -- The pool is not part of what `Shrunk` compares.
  with_pool-Shrunk :
      (c e : NearCache K V) (pool : List ℕ)
      → Shrunk c e
      → Shrunk c (record e { eviction_candidate_pool = pool })
  with_pool-Shrunk c e pool s = record {
    heap = s.heap;
    config = s.config;
    detector = s.detector;
    counter = s.counter;
    ready = s.ready;
    valid = s.valid;
    gone = s.gone;
  }

  pub recompute_eviction_pool-Shrunk :
      (c : NearCache K V) (draws : Draws) (now : ℕ)
      → Store.Invariant.IsValid c.internal_store
      → Shrunk c (recompute_eviction_pool c draws now).0
  unfolding recompute_eviction_pool
  recompute_eviction_pool-Shrunk c draws now q =
      let arr = shuffled draws.shuffle (Store.values c.internal_store) in
      let candidates = take c.eviction_sampling_count arr in
      let s = filter_expired-Shrunk c now candidates q in
      elim (Bool-cases (ltb 0 (length candidates - length (filter_expired c now candidates).1))) [
        | inl e ↦ rw e s
        | inr e ↦ rw e (with_pool-Shrunk c (filter_expired c now candidates).0 _ s)
      ]

  evict_first-Shrunk :
      (c e : NearCache K V)
      → Store.Invariant.IsValid c.internal_store
      → evict_first c ≡ some e
      → Shrunk c e
  unfolding evict_first
  evict_first-Shrunk c e q h = elim (List-cases c.eviction_candidate_pool) [
    | inl n ↦ absurd (ground arith)
    | inr (id, pool, p) ↦ elim (Option-cases (get_elem? c.heap id)) [
      | inl n ↦ absurd (ground arith)
      | inr (r, f) ↦
          subst (Shrunk c) (ground arith)
            (with_pool-Shrunk c (evict_record c r.key) pool (evict_record-Shrunk c r.key q))
    ]
  ]

  -- So does the whole of `doEvictionIfRequired`.
  pub do_eviction_if_required-Shrunk :
      (c e : NearCache K V) (draws : Draws) (now : ℕ)
      → Store.Invariant.IsValid c.internal_store
      → do_eviction_if_required c draws now ≡ some e
      → Shrunk c e
  unfolding do_eviction_if_required
  do_eviction_if_required-Shrunk c e draws now q h =
      let pooled = (recompute_eviction_pool c draws now).0 in
      let s = recompute_eviction_pool-Shrunk c draws now q in
      elim (Bool-cases (is_eviction_required c)) [
        | inr x ↦ subst (Shrunk c) (ground arith) (Shrunk-refl c q)
        | inl x ↦ elim (Bool-cases (ltb 0 (recompute_eviction_pool c draws now).1)) [
          | inl y ↦ subst (Shrunk c) (ground arith) s
          | inr y ↦ Shrunk-trans c pooled e s (evict_first-Shrunk pooled e s.valid (ground arith))
        ]
      ]
