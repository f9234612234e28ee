-- ===== src/NearCache/Cache/Access.antt =====
-- nearcache/NearCache.ts: reads, and the reservations by which a value that is fetched from the
-- cluster enters the cache.
use hazelcast_nodejs_client.Prelude.{
  ℕ, ◌+◌, true, false, Option, none, some, if◌then◌else◌, get_elem?, set, ℤ,
}
use hazelcast_nodejs_client.NearCache.Store
use hazelcast_nodejs_client.NearCache.Store.{Data}
use hazelcast_nodejs_client.NearCache.Record
use hazelcast_nodejs_client.NearCache.Record.{DataRecord, not_reserved, read_permitted}
use hazelcast_nodejs_client.NearCache.Repair.{Partitions, is_stale_read}
use hazelcast_nodejs_client.NearCache.Cache.{
  NearCache, SerializationService, Draws, waiting, resolved, rejected, next_reservation_id,
  expire_record, do_eviction_if_required, init_invalidation_metadata, store_record, to_memory,
  from_memory,
}

-- The outcome of `get`: the promise waits for `setReady`, is rejected with its error or with a
-- `TypeError`, or resolves.
pub data Read (V : Type 0) : Type 0 where
  not_ready fails : Read V
  reads : Option V → Read V

module _ {K V : Type 0} ⦃d : Data K⦄ where
  -- The continuation that runs once the cache is ready.
  unfoldable pub get_ready :
      SerializationService V → Partitions K → NearCache K V → K → ℕ → NearCache K V × Read V
  unfolding expire_record from_memory Record.set_access_time Record.hit_record
  get_ready s p c key now = elim (Store.get c.internal_store key) [
    | none ↦ (record c { miss_count = c.miss_count + 1 }, reads none)
    | some id ↦ elim (get_elem? c.heap id) [
      | none ↦ (c, fails)
      | some r ↦ elim (is_stale_read p c.stale_read_detector r) [
        | none ↦ (c, fails)
        | some true ↦ (
          record c {
            internal_store = (Store.delete c.internal_store key).0;
            miss_count = c.miss_count + 1;
          },
          reads none,
        )
        | some false ↦ elim (Record.is_expired r c.max_idle_seconds now) [
          | true ↦ (record (expire_record c key) { miss_count = c.miss_count + 1 }, reads none)
          | false ↦ (
            record c {
              heap = set c.heap id (Record.hit_record (Record.set_access_time r now));
              hit_count = c.hit_count + 1;
            },
            reads (from_memory s c.in_memory_format r.value),
          )
        ]
      ]
    ]
  ]

  unfoldable pub get :
      SerializationService V → Partitions K → NearCache K V → K → ℕ → NearCache K V × Read V
  unfolding get_ready
  get s p c key now = elim c.ready [
    | waiting ↦ (c, not_ready)
    | rejected ↦ (c, fails)
    | resolved ↦ get_ready s p c key now
  ]

  unfoldable pub try_reserve_for_update : NearCache K V → K → Draws → ℕ → Option (NearCache K V × ℤ)
  unfolding next_reservation_id do_eviction_if_required store_record Record.create Record.cas_status
  try_reserve_for_update c key draws now =
      let (res_id, counted) = next_reservation_id c in
      elim (Store.get c.internal_store key) [
        | none ↦ elim (do_eviction_if_required counted draws now) [
          | none ↦ none
          | some e ↦
              let dr = Record.create key none none (some e.time_to_live_seconds) now in
              some (store_record e key (Record.cas_status dr read_permitted res_id).0, res_id)
        ]
        | some id ↦ elim (get_elem? c.heap id) [
          | none ↦ none
          | some r ↦
              let (updated, done) = Record.cas_status r read_permitted res_id in
              some (
                record counted { heap = set c.heap id updated },
                if done then res_id else not_reserved,
              )
        ]
      ]

  -- The new cache, and the value that is returned.
  unfoldable pub try_publish_reserved :
      SerializationService V
      → Partitions K
      → NearCache K V
      → K
      → V
      → ℤ
      → ℕ
      → Option (NearCache K V × Option V)
  unfolding to_memory from_memory init_invalidation_metadata Record.cas_status
      Record.set_creation_time
  try_publish_reserved s p c key value reservation_id now = elim (Store.get c.internal_store key) [
    | none ↦ some (c, none)
    | some id ↦ elim (get_elem? c.heap id) [
      | none ↦ none
      | some r ↦
          let (permitted, done) = Record.cas_status r reservation_id read_permitted in
          let valued = record permitted { value = some (to_memory s c.in_memory_format value) } in
          if done
          then (elim (init_invalidation_metadata p c.stale_read_detector
              (Record.set_creation_time valued none now)) [
                | none ↦ none
                | some r' ↦ some (record c { heap = set c.heap id r' }, none)
              ])
          else some (c, from_memory s c.in_memory_format r.value)
    ]
  ]
