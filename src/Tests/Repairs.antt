-- ===== src/Tests/Repairs.antt =====
-- The store of buckets, the shuffle, and the repair of lost invalidations, at concrete inputs.
use mathlib.Core.List.{Perm}
use hazelcast_nodejs_client.Prelude.{
  ℕ, ◌%◌, ◌≡◌, refl, true, false, List, [], ◌∷◌, map, none, some, arith, ◌==◌, ==_iff, pos, length,
  long_subtract, long_add, wrap64, ◌-ℤ◌, ◌+ℤ◌,
}
use hazelcast_nodejs_client.Uuid.{Uuid}
use hazelcast_nodejs_client.Shuffle.{shuffle_array}
use hazelcast_nodejs_client.Shuffle.Orders.{shuffle_array-perm}
use hazelcast_nodejs_client.NearCache.Store
use hazelcast_nodejs_client.NearCache.Store.{Data, DataKeyedHashMap}
use hazelcast_nodejs_client.NearCache.Store.Runs.{Change, sets, deletes, run, contents, run_lem}
use hazelcast_nodejs_client.NearCache.Store.Laws.{get-set}
use hazelcast_nodejs_client.NearCache.Record.{DataRecord}
use hazelcast_nodejs_client.NearCache.Metadata.{MetadataContainer}
use hazelcast_nodejs_client.NearCache.Repair.{
  RepairingHandler, Partitions, handle, handle_batch, metadata_of, get_partition_id_or_default,
  is_stale_read, repairing, repair_sequence,
}
use hazelcast_nodejs_client.NearCache.Repair.Sequences.{
  Counts, handle_batch-Counts, new_uuid_miscounts,
}
use hazelcast_nodejs_client.NearCache.Task.{
  RepairingTask, repair_handler, is_above_max_tolerated_miss_count,
}
use hazelcast_nodejs_client.NearCache.Task.Containers.{Reached, initialized, sequenced}
use hazelcast_nodejs_client.NearCache.Task.Loops.{is_above-sum}
use hazelcast_nodejs_client.NearCache.Task.Staleness.{repair_handler-stale, repair_handler-fresh}

instance abbrev number_data : Data ℕ
number_data = record { equals = ◌==◌; equals_iff = ==_iff; hash_code = λ n. n % 2 }

abbrev entered : DataKeyedHashMap ℕ ℕ
entered = Store.set (Store.set Store.create 1 11) 3 13

get-set_example : Store.get (Store.set entered 3 33) 1 ≡ Store.get entered 1
get-set_example = get-set entered 3 1 33

-- Two keys of one bucket are entered, one of them twice and then deleted.
abbrev changes : List (Change ℕ ℕ)
changes = sets 1 11 ∷ sets 3 13 ∷ sets 1 12 ∷ deletes 1 ∷ []

run_lem_example :
    ((j : ℕ) → Store.get (run changes Store.create) j ≡ contents changes (λ i. none) j)
    × (length (Store.entries (run changes Store.create)) ≡ (run changes Store.create).size)
    × (length (Store.values (run changes Store.create)) ≡ (run changes Store.create).size)
run_lem_example = run_lem changes

shuffle_array-perm_example :
    (ys : List ℕ) × (shuffle_array (λ i. 0) (1 ∷ 2 ∷ 3 ∷ []) ≡ map some ys)
    × Perm {A = ℕ} ys (1 ∷ 2 ∷ 3 ∷ [])
shuffle_array-perm_example = shuffle_array-perm (λ i. 0) (1 ∷ 2 ∷ 3 ∷ [])

abbrev partitions : Partitions ℕ
partitions = record { partition_count = 2; partition_of_key = λ k. k % 2; partition_of_name = 0 }

abbrev old : Uuid
old = record { most_significant = pos 1; least_significant = pos 2 }

abbrev new : Uuid
new = record { most_significant = pos 1; least_significant = pos 3 }

abbrev container : ℕ → ℕ → MetadataContainer
container s missed = record {
  sequence = pos s;
  stale_sequence = pos 0;
  missed_sequence_count = pos missed;
  uuid = some old;
}

abbrev handler : RepairingHandler
handler = record { local_uuid = new; containers = container 5 1 ∷ container 7 2 ∷ [] }

handle_batch-Counts_example :
    Counts partitions 1 old
      (handle_batch partitions handler (
        record { key = some 3; source_uuid = none; partition_uuid = some old; sequence = pos 9 }
        ∷ record { key = some 1; source_uuid = none; partition_uuid = some old; sequence = pos 12 }
        ∷ [])).1
      12
      5
    × ((handle_batch partitions handler (
          record { key = some 3; source_uuid = none; partition_uuid = some old; sequence = pos 9 }
          ∷ record {
            key = some 1;
            source_uuid = none;
            partition_uuid = some old;
            sequence = pos 12;
          }
          ∷ [])).2
        ≡ true)
unfolding get_partition_id_or_default
handle_batch-Counts_example =
    handle_batch-Counts partitions 1 old handler 7 2 ((some 3, none, 9) ∷ (some 1, none, 12) ∷ [])
      (record {
        container = container 7 2;
        at = refl;
        sequence = refl;
        missed = refl;
        known = refl;
      })
      (refl, omega arith, (refl, omega arith, tt)) (omega arith) (omega arith)

new_uuid_miscounts_example :
    Counts partitions 1 new
      (handle partitions
        (handle partitions handler (some 3) none (some new) (pos 8)).1
        (some 3)
        none
        (some new)
        (pos 9)).1
      9
      8
unfolding get_partition_id_or_default
new_uuid_miscounts_example =
    new_uuid_miscounts partitions handler (container 7 2) (some 3) none old new 8 refl refl
      (λ e. absurd (cc)) (omega arith)

abbrev task : RepairingTask
task = record {
  handlers = [];
  reconciliation_interval = 1000;
  max_tolerated_miss_count = pos 3;
  min_allowed_reconciliation_seconds = 1;
  client_uuid = new;
  partition_count = 2;
  started = true;
  running = true;
}

abbrev stored : ℕ → DataRecord ℕ ℕ
stored s = record {
  key = 3;
  value = some 33;
  creation_time = 0;
  expiration_time = none;
  last_access_time = 0;
  access_hit = 0;
  invalidation_sequence = pos s;
  uuid = some old;
  status = pos 0;
  ttl = none;
}

is_above-sum_example : is_above_max_tolerated_miss_count task handler ≡ some true
is_above-sum_example =
    is_above-sum task handler 3 (1 ∷ 2 ∷ []) refl refl (omega arith) (refl, (refl, tt))
      (omega arith)

repair_handler-stale_example :
    is_stale_read partitions (repairing (repair_handler task handler).0) (stored 6) ≡ some true
unfolding metadata_of
repair_handler-stale_example =
    repair_handler-stale task partitions handler (container 7 2) (stored 6) 3 (1 ∷ 2 ∷ []) refl refl
      (omega arith) (refl, (refl, tt)) (omega arith) refl (omega arith) (λ e. absurd (cc))
      (omega arith, omega arith) (omega arith)

-- Two events are lost between the first sequence, 4, and the event 7.
lost_two : Reached (container 7 2)
unfolding repair_sequence long_subtract long_add wrap64 ◌-ℤ◌ ◌+ℤ◌
lost_two = sequenced (pos 7) false (initialized (some old) 4)

repair_handler-fresh_example :
    is_stale_read partitions (repairing (repair_handler task handler).0) (stored 7) ≡ some false
unfolding metadata_of
repair_handler-fresh_example =
    repair_handler-fresh task partitions handler (container 7 2) (stored 7) 3 (1 ∷ 2 ∷ []) refl refl
      (omega arith) (refl, (refl, tt)) (omega arith) refl old (omega arith) lost_two refl refl refl
