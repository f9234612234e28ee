-- ===== src/NearCache/Task/Staleness.antt =====
-- Which records of the near cache are read as stale once the anti-entropy task has repaired.
use hazelcast_nodejs_client.Prelude.{
  ℕ, zero, suc, ◌^◌, ◌≤◌, ◌<◌, ◌≡◌, ◌≢◌, true, false, List, [], ◌∷◌, map, some, arith, length,
  get_elem?, pos, ◌<ℤ◌, ◌≤ℤ◌, eqb_ℤ_iff, IsLong, long_add-negate,
}
use hazelcast_nodejs_client.Uuid
use hazelcast_nodejs_client.Uuid.{Uuid}
use hazelcast_nodejs_client.NearCache.Record.{DataRecord}
use hazelcast_nodejs_client.NearCache.Metadata.{MetadataContainer}
use hazelcast_nodejs_client.NearCache.Repair.{
  RepairingHandler, Partitions, repairing, metadata_of, is_stale_read,
}
use hazelcast_nodejs_client.NearCache.Task.{RepairingTask, flush_missed, repair_handler}
use hazelcast_nodejs_client.NearCache.Task.Containers.{Reached, Reached-ordered}
use hazelcast_nodejs_client.NearCache.Task.Loops.{
  Counted, sum, update_last_known_stale_sequences-map, is_above-sum,
}

get_elem?-map :
    {A B : Type 0} (f : A → B) (xs : List A) (i : ℕ) (x : A)
    → get_elem? xs i ≡ some x
    → get_elem? (map f xs) i ≡ some (f x)
get_elem?-map f [] i x e = absurd (cc)
get_elem?-map f (y ∷ xs) zero x e = ground arith
get_elem?-map f (y ∷ xs) (suc i) x e = get_elem?-map f xs i x e

-- A container with missed events is flushed: nothing is missed any more, and all that was stored
-- before the last event is stale.
flush_missed-stale :
    (c : MetadataContainer)
    → c.missed_sequence_count ≢ pos 0
    → IsLong c.missed_sequence_count
    → ((flush_missed c).missed_sequence_count ≡ pos 0)
      × (c.sequence ≤ℤ (flush_missed c).stale_sequence)
      × ((flush_missed c).uuid ≡ c.uuid)
      × ((flush_missed c).sequence ≡ c.sequence)
unfolding flush_missed
flush_missed-stale c missed range =
    ground
      (arith, eqb_ℤ_iff c.missed_sequence_count (pos 0), long_add-negate c.missed_sequence_count)

module _ {K V : Type 0} (t : RepairingTask) (p : Partitions K) (h : RepairingHandler)
    (c : MetadataContainer) (r : DataRecord K V) (m : ℕ) (ns : List ℕ)
    (count : length h.containers ≡ t.partition_count) (limit : t.max_tolerated_miss_count ≡ pos m)
    (some_m : 0 < m) (counts : Counted ns h.containers) (range : sum ns < 2 ^ 63)
    (here : metadata_of p h r.key ≡ some c) where
  repaired-metadata :
      m ≤ sum ns → metadata_of p (repair_handler t h).0 r.key ≡ some (flush_missed c)
  unfolding repair_handler metadata_of
  repaired-metadata over = ground (
    arith,
    is_above-sum t h m ns count limit some_m counts range,
    update_last_known_stale_sequences-map t h count,
    get_elem?-map flush_missed h.containers (p.partition_of_key r.key) c here,
  )

  -- Once the counts of missed events add up to the limit, the task makes stale every record of a
  -- partition with missed events that was stored before the last event that the partition sent.
  pub repair_handler-stale :
      m ≤ sum ns
      → c.missed_sequence_count ≢ pos 0
      → IsLong c.missed_sequence_count
      → r.invalidation_sequence <ℤ c.sequence
      → is_stale_read p (repairing (repair_handler t h).0) r ≡ some true
  unfolding is_stale_read
  repair_handler-stale over missed long old =
      ground (arith, repaired-metadata over, flush_missed-stale c missed long)

  -- Below the limit the task changes nothing.
  pub repair_handler_below : sum ns < m → repair_handler t h ≡ (h, true)
  unfolding repair_handler
  repair_handler_below under = ground (arith, is_above-sum t h m ns count limit some_m counts range)

  -- After the repair, a record that was stored under the present instance of its partition, at the
  -- sequence of its last event, is read as fresh, where the container of the partition was initialized
  -- with a sequence that is not negative and then changed by the handler and the task alone.
  pub repair_handler-fresh :
      (u : Uuid)
      → m ≤ sum ns
      → Reached c
      → c.uuid ≡ some u
      → r.uuid ≡ some u
      → r.invalidation_sequence ≡ c.sequence
      → is_stale_read p (repairing (repair_handler t h).0) r ≡ some false
  unfolding is_stale_read flush_missed
  repair_handler-fresh u over reached known same current =
      ground (arith, Reached-ordered reached, repaired-metadata over, Uuid.equals_iff u u)
