-- ===== src/NearCache/Cache/Calls.antt =====
-- Any sequence of calls of the near cache keeps its invariant.
use hazelcast_nodejs_client.Prelude.{ℕ, ◌≡◌, Bool, inl, inr, Option, some, ℤ, arith}
use hazelcast_nodejs_client.NearCache.Config.{NearCacheConfig}
use hazelcast_nodejs_client.NearCache.Store.{Data}
use hazelcast_nodejs_client.NearCache.Store.Invariant.{clear-IsValid}
use hazelcast_nodejs_client.NearCache.Store.Laws.{get-clear}
use hazelcast_nodejs_client.NearCache.Repair.{Partitions, StaleReadDetector}
use hazelcast_nodejs_client.NearCache.Cache.{
  NearCache, Draws, SerializationService, create, put, invalidate, clear, set_ready,
  set_stale_read_detector,
}
use hazelcast_nodejs_client.NearCache.Cache.Access.{
  get, try_reserve_for_update, try_publish_reserved,
}
use hazelcast_nodejs_client.NearCache.Cache.Invariant.{
  Ready-cases, Valid, create-Valid, delete-Valid, put-Valid, get-Valid,
  try_reserve_for_update-Valid, try_publish_reserved-Valid,
}

module _ {K V : Type 0} ⦃d : Data K⦄ (s : SerializationService V) (p : Partitions K) where
  -- A call that completes. Time, draws and the detector that is installed are the environment's.
  pub data Step : NearCache K V → NearCache K V → Type 0 where
    puts :
        {c e : NearCache K V} (key : K) (value : V) (draws : Draws) (now : ℕ)
        → put s p c key value draws now ≡ some e
        → Step c e
    gets : (c : NearCache K V) (key : K) (now : ℕ) → Step c (get s p c key now).0
    invalidates : (c : NearCache K V) (key : K) → Step c (invalidate c key)
    clears : (c : NearCache K V) → Step c (clear c)
    reserves :
        {c e : NearCache K V} (key : K) (draws : Draws) (now : ℕ) (id : ℤ)
        → try_reserve_for_update c key draws now ≡ some (e, id)
        → Step c e
    publishes :
        {c e : NearCache K V} (key : K) (value : V) (id : ℤ) (now : ℕ) (result : Option V)
        → try_publish_reserved s p c key value id now ≡ some (e, result)
        → Step c e
    becomes_ready : (c : NearCache K V) (error : Bool) → Step c (set_ready c error)
    detects :
        (c : NearCache K V) (detector : StaleReadDetector)
        → Step c (set_stale_read_detector c detector)

  pub data Reach (c : NearCache K V) : NearCache K V → Type 0 where
    here : Reach c c
    next : {e f : NearCache K V} → Reach c e → Step e f → Reach c f

  set_ready-Valid : (c : NearCache K V) (error : Bool) → Valid c → Valid (set_ready c error)
  unfolding set_ready
  set_ready-Valid c error v = elim (Ready-cases c.ready) [
    | inl (inl e) ↦ rw (e, set_ready) v
    | inl (inr e) ↦ rw (e, set_ready) v
    | inr e ↦ rw (e, set_ready) v
  ]

  Step-Valid : {c e : NearCache K V} → Step c e → Valid c → Valid e
  unfolding invalidate clear set_stale_read_detector
  Step-Valid {c} {e} (puts key value draws now done) v =
      put-Valid s p c e key value draws now done v
  Step-Valid (gets c key now) v = get-Valid s p c key now v
  Step-Valid (invalidates c key) v = delete-Valid c.heap c.internal_store key v
  Step-Valid (clears c) v = record {
    store_valid = clear-IsValid c.internal_store;
    keyed = λ k id e. absurd (ground (arith, get-clear c.internal_store k));
  }
  Step-Valid {c} {e} (reserves key draws now id done) v =
      try_reserve_for_update-Valid s p c e key draws now id done v
  Step-Valid {c} {e} (publishes key value id now result done) v =
      try_publish_reserved-Valid s p c e key value id now result done v
  Step-Valid (becomes_ready c error) v = set_ready-Valid c error v
  Step-Valid (detects c detector) v = v

  -- Whatever calls complete on a new cache, in whatever order, its store of buckets stays a map with
  -- an exact size, and every reference in it names a record of the heap that has that key.
  pub Reach-Valid :
      (config : NearCacheConfig) {c : NearCache K V} → Reach (create config) c → Valid c
  Reach-Valid config here = create-Valid config
  Reach-Valid config (next r st) = Step-Valid st (Reach-Valid config r)
