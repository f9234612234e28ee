-- ===== src/NearCache/Cache/Invariant.antt =====
-- The store of the near cache names records of its heap, each under its own key.
use hazelcast_nodejs_client.Prelude.{
  ℕ, ◌≡◌, refl, ◌∙◌, ◌⊎◌, inl, inr, true, false, List, [], ◌∷◌, Option, none, some, arith, length,
  get_elem?, set, get_elem?-append, get_elem?-append_left, get_elem?-set-some, get_elem?-set_ne,
  Bool-cases, Option-cases, subst, ℤ, ℕ_discrete,
}
use hazelcast_nodejs_client.NearCache.Config.{NearCacheConfig}
use hazelcast_nodejs_client.NearCache.Store
use hazelcast_nodejs_client.NearCache.Store.{Data, DataKeyedHashMap}
use hazelcast_nodejs_client.NearCache.Store.Invariant.{
  create-IsValid, set-IsValid, delete-IsValid, clear-IsValid,
}
use hazelcast_nodejs_client.NearCache.Store.Laws.{get-set, get-delete, get-create}
use hazelcast_nodejs_client.NearCache.Record
use hazelcast_nodejs_client.NearCache.Record.{DataRecord, read_permitted}
use hazelcast_nodejs_client.NearCache.Repair.{
  Partitions, StaleReadDetector, always_fresh, repairing, is_stale_read,
}
use hazelcast_nodejs_client.NearCache.Cache.{
  Ready, waiting, rejected, resolved, NearCache, Draws, SerializationService, create, expire_record,
  do_eviction_if_required, init_invalidation_metadata, store_record, put, to_memory,
  next_reservation_id,
}
use hazelcast_nodejs_client.NearCache.Cache.Access.{
  get_ready, get, try_reserve_for_update, try_publish_reserved,
}
use hazelcast_nodejs_client.NearCache.Cache.Shrinking.{Shrunk, do_eviction_if_required-Shrunk}

pub Ready-cases : (r : Ready) → ((r ≡ waiting) ⊎ (r ≡ rejected)) ⊎ (r ≡ resolved)
Ready-cases waiting = inl (inl refl)
Ready-cases rejected = inl (inr refl)
Ready-cases resolved = inr refl

module _ {K V : Type 0} ⦃d : Data K⦄ where
  pub record IsValid (heap : List (DataRecord K V)) (store : DataKeyedHashMap K ℕ) : Type 0 where
    pub store_valid : Store.Invariant.IsValid store
    pub keyed :
        (k : K) (id : ℕ)
        → Store.get store k ≡ some id
        → (r : DataRecord K V) × (get_elem? heap id ≡ some r) × (r.key ≡ k)

  abbrev pub Valid : NearCache K V → Type 0
  Valid c = IsValid c.heap c.internal_store

  pub delete-Valid :
      (heap : List (DataRecord K V)) (store : DataKeyedHashMap K ℕ) (key : K)
      → IsValid heap store
      → IsValid heap (Store.delete store key).0
  delete-Valid heap store key v = record {
    store_valid = delete-IsValid store key v.store_valid;
    keyed = λ k id e. v.keyed k id (ground (arith, get-delete store key k v.store_valid));
  }

  pub Shrunk-Valid : (c e : NearCache K V) → Shrunk c e → Valid c → Valid e
  Shrunk-Valid c e s v = record {
    store_valid = s.valid;
    keyed = λ k id f.
        let (r, at, same) = v.keyed k id (ground (arith, s.gone k)) in
        (r, ground (arith, s.heap), same);
  }

  pub store_record-Valid :
      (c : NearCache K V) (key : K) (r : DataRecord K V)
      → r.key ≡ key
      → Valid c
      → Valid (store_record c key r)
  unfolding store_record
  store_record-Valid c key r same v = record {
    store_valid = set-IsValid c.internal_store key (length c.heap) v.store_valid;
    keyed = λ k id f. elim (Bool-cases (d.equals key k)) [
      | inl e ↦ (
        r,
        ground
            (arith, get-set c.internal_store key k (length c.heap), get_elem?-append c.heap [] r),
        ground (arith, d.equals_iff key k),
      )
      | inr e ↦
          let (x, at, named) =
            v.keyed k id (ground (arith, get-set c.internal_store key k (length c.heap))) in
          (x, get_elem?-append_left c.heap (r ∷ []) id x at, named)
    ];
  }

  pub update-Valid :
      (heap : List (DataRecord K V)) (store : DataKeyedHashMap K ℕ) (id : ℕ) (r s : DataRecord K V)
      → get_elem? heap id ≡ some r
      → s.key ≡ r.key
      → IsValid heap store
      → IsValid (set heap id s) store
  update-Valid heap store id r s at same v = record {
    store_valid = v.store_valid;
    keyed = λ k j f. elim (ℕ_discrete id j) [
      | yes e ↦
          let (x, here, named) = v.keyed k j f in
          (s, ground (arith, get_elem?-set-some heap id s r at), ground arith)
      | no e ↦ let (x, here, named) = v.keyed k j f in (x, get_elem?-set_ne heap s e ∙ here, named)
    ];
  }

  init_invalidation_metadata-key :
      (p : Partitions K) (det : StaleReadDetector) (r s : DataRecord K V)
      → init_invalidation_metadata p det r ≡ some s
      → s.key ≡ r.key
  unfolding init_invalidation_metadata
  init_invalidation_metadata-key p always_fresh r s e = ground arith
  init_invalidation_metadata-key p (repairing h) r s e = ground arith

  Valid-of_eq : (a b : NearCache K V) → a ≡ b → Valid a → Valid b
  Valid-of_eq a b e v = subst Valid e v

  expire_record-Valid : (c : NearCache K V) (key : K) → Valid c → Valid (expire_record c key)
  unfolding expire_record
  expire_record-Valid c key v = delete-Valid c.heap c.internal_store key v

  pub create-Valid : (config : NearCacheConfig) → Valid (create config)
  unfolding create
  create-Valid config = record {
    store_valid = create-IsValid;
    keyed = λ k id e. absurd (ground (arith, get-create {V = ℕ} k));
  }

  module _ (sv : SerializationService V) (p : Partitions K) where
    pub put-Valid :
        (c e : NearCache K V) (key : K) (value : V) (draws : Draws) (now : ℕ)
        → put sv p c key value draws now ≡ some e
        → Valid c
        → Valid e
    unfolding put
    put-Valid c e key value draws now done v =
        elim (Option-cases (do_eviction_if_required c draws now)) [
          | inl n ↦ absurd (ground arith)
          | inr (x, f) ↦
              let dr =
                Record.create key (some (to_memory sv x.in_memory_format value)) none
                  (some x.time_to_live_seconds) now in
              elim (Option-cases (init_invalidation_metadata p x.stale_read_detector dr)) [
                | inl n ↦ absurd (ground arith)
                | inr (r, g) ↦ Valid-of_eq (store_record x key r) e (ground arith) (
                    store_record-Valid x key r
                      (init_invalidation_metadata-key p x.stale_read_detector dr r g)
                      (Shrunk-Valid c x
                        (do_eviction_if_required-Shrunk c x draws now v.store_valid f) v))
              ]
        ]

    get_ready-Valid :
        (c : NearCache K V) (key : K) (now : ℕ) → Valid c → Valid (get_ready sv p c key now).0
    unfolding get_ready
    get_ready-Valid c key now v = elim (Option-cases (Store.get c.internal_store key)) [
      | inl n ↦ rw (n, get_ready) v
      | inr (id, e) ↦ elim (Option-cases (get_elem? c.heap id)) [
        | inl n ↦ rw (e, n, get_ready) v
        | inr (r, f) ↦ elim (Option-cases (is_stale_read p c.stale_read_detector r)) [
          | inl n ↦ rw (e, f, n, get_ready) v
          | inr (true, g) ↦ rw (e, f, g, get_ready) (delete-Valid c.heap c.internal_store key v)
          | inr (false, g) ↦ elim (Bool-cases (Record.is_expired r c.max_idle_seconds now)) [
            | inl x ↦ rw (e, f, g, x, get_ready) (expire_record-Valid c key v)
            | inr x ↦
                rw (e, f, g, x, get_ready)
                  (update-Valid c.heap c.internal_store id r
                    (Record.hit_record (Record.set_access_time r now)) f refl v)
          ]
        ]
      ]
    ]

    pub get-Valid : (c : NearCache K V) (key : K) (now : ℕ) → Valid c → Valid (get sv p c key now).0
    unfolding get
    get-Valid c key now v = elim (Ready-cases c.ready) [
      | inl (inl e) ↦ rw (e, get) v
      | inl (inr e) ↦ rw (e, get) v
      | inr e ↦ rw (e, get) (get_ready-Valid c key now v)
    ]

    pub try_reserve_for_update-Valid :
        (c e : NearCache K V) (key : K) (draws : Draws) (now : ℕ) (id : ℤ)
        → try_reserve_for_update c key draws now ≡ some (e, id)
        → Valid c
        → Valid e
    unfolding try_reserve_for_update
    try_reserve_for_update-Valid c e key draws now id done v =
        let counted = (next_reservation_id c).1 in
        elim (Option-cases (Store.get c.internal_store key)) [
          | inl n ↦ elim (Option-cases (do_eviction_if_required counted draws now)) [
            | inl f ↦ absurd (ground arith)
            | inr (x, f) ↦
                let dr = Record.create key none none (some x.time_to_live_seconds) now in
                let r = (Record.cas_status dr read_permitted c.reservation_counter).0 in
                Valid-of_eq (store_record x key r) e (ground arith) (
                  store_record-Valid x key r (ground arith) (
                    Shrunk-Valid counted x
                      (do_eviction_if_required-Shrunk counted x draws now v.store_valid f) v))
          ]
          | inr (i, f) ↦ elim (Option-cases (get_elem? c.heap i)) [
            | inl n ↦ absurd (ground arith)
            | inr (r, g) ↦
                let s = (Record.cas_status r read_permitted c.reservation_counter).0 in
                Valid-of_eq (record counted { heap = set c.heap i s }) e (ground arith)
                  (update-Valid c.heap c.internal_store i r s g (ground arith) v)
          ]
        ]

    -- The branch of `tryPublishReserved` that finds a record.
    published-Valid :
        (c e : NearCache K V) (key : K) (value : V) (id : ℤ) (now : ℕ) (result : Option V) (i : ℕ)
        (r : DataRecord K V)
        → try_publish_reserved sv p c key value id now ≡ some (e, result)
        → Store.get c.internal_store key ≡ some i
        → get_elem? c.heap i ≡ some r
        → Valid c
        → Valid e
    unfolding try_publish_reserved
    published-Valid c e key value id now result i r done f g v =
        elim (Bool-cases (Record.cas_status r id read_permitted).1) [
          | inr n ↦ Valid-of_eq c e (ground arith) v
          | inl y ↦
              let valued = record ((Record.cas_status r id read_permitted).0) {
                value = some (to_memory sv c.in_memory_format value);
              } in
              let timed = Record.set_creation_time valued none now in
              elim (Option-cases (init_invalidation_metadata p c.stale_read_detector timed)) [
                | inl n ↦ absurd (ground arith)
                | inr (s, m) ↦
                    Valid-of_eq (record c { heap = set c.heap i s }) e (ground arith)
                      (update-Valid c.heap c.internal_store i r s g
                        (init_invalidation_metadata-key p c.stale_read_detector timed s m
                          ∙ ground arith)
                        v)
              ]
        ]

    pub try_publish_reserved-Valid :
        (c e : NearCache K V) (key : K) (value : V) (id : ℤ) (now : ℕ) (result : Option V)
        → try_publish_reserved sv p c key value id now ≡ some (e, result)
        → Valid c
        → Valid e
    unfolding try_publish_reserved
    try_publish_reserved-Valid c e key value id now result done v =
        elim (Option-cases (Store.get c.internal_store key)) [
          | inl n ↦ Valid-of_eq c e (ground arith) v
          | inr (i, f) ↦ elim (Option-cases (get_elem? c.heap i)) [
            | inl n ↦ absurd (ground arith)
            | inr (r, g) ↦ published-Valid c e key value id now result i r done f g v
          ]
        ]
