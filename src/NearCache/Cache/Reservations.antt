-- ===== src/NearCache/Cache/Reservations.antt =====
-- The protocol by which a fetched value enters the cache: reserve, fetch, publish. An invalidation
-- that arrives in between must win.
use hazelcast_nodejs_client.Prelude.{
  ℕ, ◌+◌, ◌^◌, ◌<◌, ◌≡◌, inl, inr, false, [], none, some, arith, length, get_elem?,
  get_elem?-append, get_elem?-set-some, Option-cases, ℤ, pos, eqb_ℤ, long_add, long_add-nonneg,
}
use hazelcast_nodejs_client.NearCache.Store
use hazelcast_nodejs_client.NearCache.Store.{Data, DataKeyedHashMap}
use hazelcast_nodejs_client.NearCache.Store.Laws.{get-set, get-delete}
use hazelcast_nodejs_client.NearCache.Record
use hazelcast_nodejs_client.NearCache.Record.{DataRecord, read_permitted, not_reserved}
use hazelcast_nodejs_client.NearCache.Repair.{Partitions}
use hazelcast_nodejs_client.NearCache.Cache.{
  NearCache, Draws, SerializationService, do_eviction_if_required, invalidate, from_memory,
  next_reservation_id,
}
use hazelcast_nodejs_client.NearCache.Cache.Access.{try_reserve_for_update, try_publish_reserved}
use hazelcast_nodejs_client.NearCache.Cache.Shrinking.{do_eviction_if_required-Shrunk}
use hazelcast_nodejs_client.NearCache.Cache.Invariant.{
  Valid, delete-Valid, try_reserve_for_update-Valid,
}

module _ {K V : Type 0} ⦃d : Data K⦄ where
  -- What a reservation at the time `t` puts under a key.
  unfoldable pub reserved : K → ℕ → ℤ → ℕ → DataRecord K V
  reserved key ttl id t = record (Record.create key none none (some ttl) t) { status = id }

  -- A key that is absent gets a record that nobody can publish but the holder of the new id.
  pub record Reserved (c e : NearCache K V) (key : K) (t : ℕ) (id : ℤ) : Type 0 where
    pub ref : ℕ
    pub named : Store.get e.internal_store key ≡ some ref
    pub at : get_elem? e.heap ref ≡ some (reserved key c.time_to_live_seconds id t)
    pub config : e.config ≡ c.config
    pub detector : e.stale_read_detector ≡ c.stale_read_detector
    pub counter : e.reservation_counter ≡ long_add c.reservation_counter (pos 1)
    pub is_next : id ≡ c.reservation_counter

  pub reserve-Reserved :
      (c e : NearCache K V) (key : K) (draws : Draws) (t : ℕ) (id : ℤ)
      → Valid c
      → Store.get c.internal_store key ≡ none
      → try_reserve_for_update c key draws t ≡ some (e, id)
      → Reserved c e key t id
  unfolding try_reserve_for_update reserved
  reserve-Reserved c e key draws t id v absent done =
      let counted = (next_reservation_id c).1 in
      elim (Option-cases (do_eviction_if_required counted draws t)) [
        | inl n ↦ absurd (ground arith)
        | inr (x, f) ↦
            let s = do_eviction_if_required-Shrunk counted x draws t v.store_valid f in
            let dr : DataRecord K V = Record.create key none none (some x.time_to_live_seconds) t in
            let r = (Record.cas_status dr read_permitted c.reservation_counter).0 in
            record {
              ref = length x.heap;
              named =
                  ground
                    (arith, get-set x.internal_store key key (length x.heap), d.equals_iff key key);
              at = ground (arith, get_elem?-append x.heap [] r, s.config);
              config = ground (arith, s.config);
              detector = ground (arith, s.detector);
              counter = ground (arith, s.counter);
              is_next = ground arith;
            }
      ]

  from_memory-none :
      (s : SerializationService V) (c : NearCache K V)
      → from_memory s c.in_memory_format none ≡ none
  unfolding from_memory
  from_memory-none s c = ground arith

  invalidate-Valid : (c : NearCache K V) (key : K) → Valid c → Valid (invalidate c key)
  unfolding invalidate
  invalidate-Valid c key v = delete-Valid c.heap c.internal_store key v

  -- An invalidation between a reservation and its publication wins: the publication changes
  -- nothing, returns nothing, and the key stays absent.
  pub publish-invalidate :
      (s : SerializationService V) (p : Partitions K) (c : NearCache K V) (key : K) (value : V)
      (id : ℤ) (now : ℕ)
      → Valid c
      → (try_publish_reserved s p (invalidate c key) key value id now
          ≡ some (invalidate c key, none))
        × (Store.get (invalidate c key).internal_store key ≡ none)
  unfolding try_publish_reserved invalidate
  publish-invalidate s p c key value id now v =
      let gone = get-delete c.internal_store key key v.store_valid in
      (ground (arith, gone, d.equals_iff key key), ground (arith, gone, d.equals_iff key key))

  -- Directly after an absent key of a valid cache, whose counter is not negative, was reserved, a second
  -- reservation of it is refused, and leaves the record to its holder.
  pub reserve_twice :
      (c e f : NearCache K V) (key : K) (draws later : Draws) (t u n : ℕ) (id second : ℤ)
      → Valid c
      → Store.get c.internal_store key ≡ none
      → c.reservation_counter ≡ pos n
      → try_reserve_for_update c key draws t ≡ some (e, id)
      → try_reserve_for_update e key later u ≡ some (f, second)
      → (second ≡ not_reserved)
        × ((i : ℕ) × (Store.get f.internal_store key ≡ some i)
            × (get_elem? f.heap i ≡ some (reserved key c.time_to_live_seconds id t)))
  unfolding try_reserve_for_update reserved
  reserve_twice c e f key draws later t u n id second v absent count first again =
      let r = reserve-Reserved c e key draws t id v absent first in
      let mine = reserved key c.time_to_live_seconds id t in
      let differs : eqb_ℤ read_permitted id ≡ false = ground (arith, r.is_next) in
      (
        ground (arith, r.named, r.at, differs),
        (
          r.ref,
          ground (arith, r.named, r.at, differs),
          ground (arith, r.named, r.at, differs, get_elem?-set-some e.heap r.ref mine mine r.at),
        ),
      )

  -- A publication whose reservation was invalidated, and then taken by another caller, changes
  -- nothing: only the second caller may publish.
  pub publish_overtaken :
      (s : SerializationService V) (p : Partitions K) (c e f : NearCache K V) (key : K) (stale : V)
      (draws later : Draws) (t u now n : ℕ) (first second : ℤ)
      → Valid c
      → Store.get c.internal_store key ≡ none
      → c.reservation_counter ≡ pos n
      → n + 1 < 2 ^ 63
      → try_reserve_for_update c key draws t ≡ some (e, first)
      → try_reserve_for_update (invalidate e key) key later u ≡ some (f, second)
      → try_publish_reserved s p f key stale first now ≡ some (f, none)
  unfolding try_publish_reserved reserved invalidate Record.create
  publish_overtaken s p c e f key stale draws later t u now n first second v absent count range a
        b =
      let r = reserve-Reserved c e key draws t first v absent a in
      let ve = try_reserve_for_update-Valid s p c e key draws t first a v in
      let gone = publish-invalidate s p e key stale first now ve in
      let q =
        reserve-Reserved (invalidate e key) f key later u second (invalidate-Valid e key ve) gone.1
          b in
      let other : eqb_ℤ first second ≡ false =
        ground (arith, r.is_next, q.is_next, r.counter, long_add-nonneg n 1) in
      ground (arith, q.named, q.at, other, from_memory-none s f)
