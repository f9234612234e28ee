-- ===== src/NearCache/Cache/Publication.antt =====
-- What a publication under a reservation stores, and that the next read returns it.
use hazelcast_nodejs_client.Prelude.{
  ℕ, ◌+◌, ◌*◌, ◌≤◌, ◌≡◌, refl, sym, ap, subst, ◌∙◌, ◌⊎◌, false, none, some, arith, get_elem?, set,
  get_elem?-set-some, ℤ, ◌≤ℤ◌, eqb_ℤ_iff,
}
use hazelcast_nodejs_client.Uuid
use hazelcast_nodejs_client.Uuid.{Uuid}
use hazelcast_nodejs_client.NearCache.Config.{NearCacheConfig}
use hazelcast_nodejs_client.NearCache.Store
use hazelcast_nodejs_client.NearCache.Store.{Data, DataKeyedHashMap}
use hazelcast_nodejs_client.NearCache.Record
use hazelcast_nodejs_client.NearCache.Record.{DataRecord, read_permitted, not_reserved}
use hazelcast_nodejs_client.NearCache.Metadata.{MetadataContainer}
use hazelcast_nodejs_client.NearCache.Repair.{
  Partitions, StaleReadDetector, always_fresh, repairing, is_stale_read, metadata_of,
}
use hazelcast_nodejs_client.NearCache.Cache.{
  NearCache, Draws, SerializationService, init_invalidation_metadata, to_memory, from_memory,
}
use hazelcast_nodejs_client.NearCache.Cache.Access.{
  reads, get_ready, try_reserve_for_update, try_publish_reserved,
}
use hazelcast_nodejs_client.NearCache.Cache.Invariant.{Valid}
use hazelcast_nodejs_client.NearCache.Cache.Reservations.{reserved, reserve-Reserved}

-- A detector that has metadata for the key, of a known partition instance that has sent its last
-- event no earlier than the event before which all is stale.
abbrev pub Healthy : {K : Type 0} → Partitions K → StaleReadDetector → K → Type 0
Healthy p always_fresh key = Unit
Healthy p (repairing h) key =
    (m : MetadataContainer) × (u : Uuid) × (metadata_of p h key ≡ some m)
    × (m.uuid ≡ some u)
    × (m.stale_sequence ≤ℤ m.sequence)

module _ {K V : Type 0} ⦃d : Data K⦄ where
  init-fresh :
      (p : Partitions K) (det : StaleReadDetector) (r : DataRecord K V)
      → Healthy p det r.key
      → (q : DataRecord K V) × (init_invalidation_metadata p det r ≡ some q)
        × (is_stale_read p det q ≡ some false)
        × (q ≡ record r { invalidation_sequence = q.invalidation_sequence; uuid = q.uuid })
  unfolding init_invalidation_metadata is_stale_read
  init-fresh p always_fresh r ok = (r, refl, refl, refl)
  init-fresh p (repairing h) r (m, u, here, known, ordered) = (
    record r { invalidation_sequence = m.sequence; uuid = m.uuid },
    ground arith,
    ground (arith, Uuid.equals_iff u u),
    refl,
  )

  get_ready_live :
      (s : SerializationService V) (p : Partitions K) (c : NearCache K V) (key : K) (w i : ℕ)
      (r : DataRecord K V)
      → Store.get c.internal_store key ≡ some i
      → get_elem? c.heap i ≡ some r
      → is_stale_read p c.stale_read_detector r ≡ some false
      → Record.is_expired r c.max_idle_seconds w ≡ false
      → (get_ready s p c key w).1 ≡ reads (from_memory s c.in_memory_format r.value)
  unfolding get_ready
  get_ready_live s p c key w i r e f g h = rw (e, f, g, h, get_ready) refl

  -- The record that a holder of the status `id` publishes at the time `u`, before its metadata.
  valued : SerializationService V → NearCache K V → DataRecord K V → V → ℕ → DataRecord K V
  valued s c r value u =
      Record.set_creation_time
        (record r { value = some (to_memory s c.in_memory_format value); status = read_permitted })
        none u

  publish_own :
      (s : SerializationService V) (p : Partitions K) (c : NearCache K V) (key : K) (value : V)
      (i u : ℕ) (r q : DataRecord K V)
      → Store.get c.internal_store key ≡ some i
      → get_elem? c.heap i ≡ some r
      → init_invalidation_metadata p c.stale_read_detector (valued s c r value u) ≡ some q
      → try_publish_reserved s p c key value r.status u
        ≡ some (record c { heap = set c.heap i q }, none)
  unfolding try_publish_reserved valued
  publish_own s p c key value i u r q e f g = ground (arith, eqb_ℤ_iff r.status r.status)

  published-live :
      (s : SerializationService V) (c : NearCache K V) (r q : DataRecord K V) (key : K) (value : V)
      (t u w ttl idle : ℕ) (id : ℤ)
      → r ≡ reserved key ttl id t
      → q ≡ record (valued s c r value u) {
        invalidation_sequence = q.invalidation_sequence;
        uuid = q.uuid;
      }
      → (idle ≡ 0) ⊎ (w ≤ t + idle * 1000)
      → (ttl ≡ 0) ⊎ (w ≤ u + ttl * 1000)
      → (Record.is_expired q idle w ≡ false)
        × (q.value ≡ some (to_memory s c.in_memory_format value))
  unfolding reserved valued Record.create Record.set_creation_time Record.is_expired
  published-live s c r q key value t u w ttl idle id e f i l = ground (
    arith,
    ap (λ (x : DataRecord K V). x.expiration_time) f,
    ap (λ (x : DataRecord K V). x.last_access_time) f,
    ap (λ (x : DataRecord K V). x.value) f,
    ap (λ (x : DataRecord K V). x.ttl) e,
    ap (λ (x : DataRecord K V). x.last_access_time) e,
    i,
    l,
  )

  -- A value that is published under its reservation is what the next read returns, as long as the
  -- key's time to live counts from the publication, and its idle time from the reservation.
  pub get-publish :
      (s : SerializationService V) (p : Partitions K) (c e : NearCache K V) (key : K) (value : V)
      (draws : Draws) (t u w : ℕ) (id : ℤ)
      → Valid c
      → Store.get c.internal_store key ≡ none
      → Healthy p c.stale_read_detector key
      → try_reserve_for_update c key draws t ≡ some (e, id)
      → (c.max_idle_seconds ≡ 0) ⊎ (w ≤ t + c.max_idle_seconds * 1000)
      → (c.time_to_live_seconds ≡ 0) ⊎ (w ≤ u + c.time_to_live_seconds * 1000)
      → (f : NearCache K V) × (try_publish_reserved s p e key value id u ≡ some (f, none))
        × ((get_ready s p f key w).1
            ≡ reads
                (from_memory s c.in_memory_format (some (to_memory s c.in_memory_format value))))
  unfolding valued Record.set_creation_time reserved Record.create
  get-publish s p c e key value draws t u w id v absent ok taken idle live =
      let r = reserve-Reserved c e key draws t id v absent taken in
      let mine = reserved key c.time_to_live_seconds id t in
      let (q, metadata, fresh, same) =
        init-fresh p e.stale_read_detector (valued s e mine value u)
          (subst (λ x. Healthy p x key) (sym r.detector) ok) in
      let f : NearCache K V = record e { heap = set e.heap r.ref q } in
      let (alive, held) =
        published-live s e mine q key value t u w c.time_to_live_seconds e.max_idle_seconds id refl
          same (rw r.config idle) live in
      (
        f,
        publish_own s p e key value r.ref u mine q r.named r.at metadata,
        get_ready_live s p f key w r.ref q r.named (get_elem?-set-some e.heap r.ref q mine r.at)
              fresh alive
            ∙ ap (λ x. reads (from_memory s e.in_memory_format x)) held
            ∙ ap (λ x. reads (from_memory s x (some (to_memory s x value))))
                (ap (λ (x : NearCacheConfig). x.in_memory_format) r.config),
      )
