-- ===== src/Tests/NearCaches.antt =====
-- The near cache on a map of numbers with two hash codes and two partitions.
use hazelcast_nodejs_client.Prelude.{
  ℕ, ◌+◌, ◌%◌, ◌≡◌, ◌≤◌, All, refl, subst, ◌++◌, inl, true, List, [], ◌∷◌, Option, none, some,
  arith, ◌==◌, ==_iff, pos, long_add, wrap64, ◌+ℤ◌, get_elem?, if◌then◌else◌,
}
use hazelcast_nodejs_client.JsMap.{lookup, insert}
use hazelcast_nodejs_client.Shuffle.{shuffled}
use hazelcast_nodejs_client.Shuffle.Orders.{IsSorted}
use hazelcast_nodejs_client.NearCache.Config.{NearCacheConfig, binary, lru}
use hazelcast_nodejs_client.NearCache.Store
use hazelcast_nodejs_client.NearCache.Store.{Data, DataKeyedHashMap}
use hazelcast_nodejs_client.NearCache.Record
use hazelcast_nodejs_client.NearCache.Record.{DataRecord, not_reserved, read_permitted}
use hazelcast_nodejs_client.NearCache.Repair.{Partitions}
use hazelcast_nodejs_client.NearCache.Cache
use hazelcast_nodejs_client.NearCache.Cache.{
  NearCache, Draws, SerializationService, put, invalidate, recompute_eviction_pool,
}
use hazelcast_nodejs_client.NearCache.Cache.Access.{
  reads, get_ready, try_reserve_for_update, try_publish_reserved,
}
use hazelcast_nodejs_client.NearCache.Cache.Invariant.{Valid, create-Valid}
use hazelcast_nodejs_client.NearCache.Cache.Calls.{
  Reach, here, next, puts, invalidates, Reach-Valid,
}
use hazelcast_nodejs_client.NearCache.Cache.Reservations.{
  publish-invalidate, reserve_twice, publish_overtaken, reserved,
}
use hazelcast_nodejs_client.NearCache.Cache.Publication.{get-publish}
use hazelcast_nodejs_client.NearCache.Cache.Eviction.{
  size-put_full, sample, next_pool, last_access, accessed_before, next_pool-IsSorted_lru,
}

instance abbrev number_data : Data ℕ
number_data = record { equals = ◌==◌; equals_iff = ==_iff; hash_code = λ n. n % 2 }

abbrev service : SerializationService ℕ
service = record { to_object = λ v. v; to_data = λ v. v }

abbrev partitions : Partitions ℕ
partitions = record { partition_count = 2; partition_of_key = λ k. k % 2; partition_of_name = 0 }

abbrev config : NearCacheConfig
config = record {
  invalidate_on_change = true;
  max_idle_seconds = 0;
  in_memory_format = binary;
  time_to_live_seconds = 0;
  eviction_policy = lru;
  eviction_max_size = 2;
  eviction_sampling_count = 8;
  eviction_sampling_pool_size = 16;
}

abbrev draws : Draws
draws = record { shuffle = λ i. 0; order = λ i. 0 }

abbrev empty : NearCache ℕ ℕ
empty = Cache.create config

-- What the tests compute with.
program : Unit {0}
unfolding Cache.create put try_reserve_for_update try_publish_reserved get_ready invalidate lookup
    insert Store.delete Store.get Store.has Store.set Store.values Store.entries
    recompute_eviction_pool shuffled Record.is_expired
program = tt

abbrev after : {A : Type 0} → Option A → A → A
after none a = a
after (some b) a = b

-- The cache after `put` of a key and its tenfold.
abbrev filled : NearCache ℕ ℕ → ℕ → ℕ → NearCache ℕ ℕ
filled c key now = after (put service partitions c key (10 + key) draws now) c

one : NearCache ℕ ℕ
one = filled empty 1 100

two : NearCache ℕ ℕ
two = filled one 2 200

three : NearCache ℕ ℕ
three = filled two 3 300

four : NearCache ℕ ℕ
four = filled three 4 400

five : NearCache ℕ ℕ
five = filled four 5 500

-- The configured maximum of two entries is kept for a while, and then passed.
sizes :
    (two.internal_store.size ≡ 2)
    × (three.internal_store.size ≡ 2)
    × (four.internal_store.size ≡ 2)
    × (five.internal_store.size ≡ 3)
unfolding program one two three four five
sizes = (refl, refl, refl, refl)

-- What the calls of the witnesses return.
reserved_one : NearCache ℕ ℕ
unfolding program
reserved_one = (after (try_reserve_for_update empty 1 draws 100) (empty, pos 0)).0

refused_one : NearCache ℕ ℕ
unfolding program reserved_one
refused_one = (after (try_reserve_for_update reserved_one 1 draws 150) (empty, pos 0)).0

taken_again : NearCache ℕ ℕ
unfolding program reserved_one
taken_again =
    (after (try_reserve_for_update (invalidate reserved_one 1) 1 draws 150) (empty, pos 0)).0

Reach-Valid_example : Valid (invalidate one 1)
unfolding program one
Reach-Valid_example =
    Reach-Valid service partitions config
      (next (next here (puts 1 11 draws 100 refl)) (invalidates one 1))

publish-invalidate_example :
    (try_publish_reserved service partitions (invalidate empty 1) 1 11 (pos 0) 200
      ≡ some (invalidate empty 1, none))
    × (Store.get (invalidate empty 1).internal_store 1 ≡ none)
publish-invalidate_example =
    publish-invalidate service partitions empty 1 11 (pos 0) 200 (create-Valid config)

reserve_twice_example :
    (not_reserved ≡ not_reserved)
    × ((i : ℕ) × (Store.get refused_one.internal_store 1 ≡ some i)
        × (get_elem? refused_one.heap i ≡ some (reserved 1 0 (pos 0) 100)))
unfolding program reserved_one refused_one
reserve_twice_example =
    reserve_twice empty reserved_one refused_one 1 draws draws 100 150 0 (pos 0) not_reserved
      (create-Valid config) refl refl refl refl

publish_overtaken_example :
    try_publish_reserved service partitions taken_again 1 11 (pos 0) 200 ≡ some (taken_again, none)
unfolding program reserved_one taken_again long_add wrap64 ◌+ℤ◌
publish_overtaken_example =
    publish_overtaken service partitions empty reserved_one taken_again 1 11 draws draws 100 150 200
      0 (pos 0) (pos 1) (create-Valid config) refl refl (omega arith) refl refl

get-publish_example :
    (f : NearCache ℕ ℕ) × (try_publish_reserved service partitions reserved_one 1 11 (pos 0) 200
      ≡ some (f, none))
    × ((get_ready service partitions f 1 300).1 ≡ reads (some 11))
unfolding program reserved_one
get-publish_example =
    get-publish service partitions empty reserved_one 1 11 draws 100 200 300 (pos 0)
      (create-Valid config) refl tt refl (inl refl) (inl refl)

four_reached : Reach service partitions empty four
unfolding program one two three four
four_reached =
    next
      (next (next (next here (puts 1 11 draws 100 refl)) (puts 2 12 draws 200 refl))
        (puts 3 13 draws 300 refl))
      (puts 4 14 draws 400 refl)

-- A record as `put` makes it, and a full cache whose pool names the record 1, which has left it.
abbrev entry : ℕ → ℕ → DataRecord ℕ ℕ
entry key t = record {
  key = key;
  value = some (10 + key);
  creation_time = t;
  expiration_time = none;
  last_access_time = t;
  access_hit = 0;
  invalidation_sequence = pos 0;
  uuid = none;
  status = read_permitted;
  ttl = some 0;
}

abbrev heap_of_four : List (DataRecord ℕ ℕ)
heap_of_four = entry 1 100 ∷ entry 2 200 ∷ entry 3 300 ∷ entry 4 400 ∷ []

abbrev full : NearCache ℕ ℕ
full = record empty {
  heap = heap_of_four;
  internal_store = record { size = 2; internal_store = (1, (3, 2) ∷ []) ∷ (0, (4, 3) ∷ []) ∷ [] };
  eviction_candidate_pool = 1 ∷ 2 ∷ [];
  evicted_count = 2;
}

abbrev overfull : NearCache ℕ ℕ
overfull = record empty {
  heap = heap_of_four ++ entry 5 500 ∷ [];
  internal_store = record {
    size = 3;
    internal_store = (1, (3, 2) ∷ (5, 4) ∷ []) ∷ (0, (4, 3) ∷ []) ∷ [];
  };
  eviction_candidate_pool = 2 ∷ 2 ∷ 3 ∷ [];
  evicted_count = 2;
}

four-full : four ≡ full
unfolding program one two three four
four-full = refl

four-Valid : Valid full
four-Valid = subst Valid four-full (Reach-Valid service partitions config four_reached)

-- The candidate that is evicted has left the store, so the cache grows.
size-put_full_example : overfull.internal_store.size ≡ (
    if Store.has full.internal_store 2
    then full.internal_store.size
    else full.internal_store.size + 1)
unfolding program
size-put_full_example =
    size-put_full service partitions full overfull 5 15 draws 500 (2 ∷ 2 ∷ 3 ∷ []) 1 (entry 2 200)
      four-Valid refl refl refl refl refl refl

next_pool-IsSorted_lru_example :
    IsSorted (accessed_before full.heap) (next_pool full draws 500)
    × All
        (λ y. last_access full.heap 1 ≤ last_access full.heap y)
        (full.eviction_candidate_pool ++ sample full draws 500)
unfolding Cache.create Cache.sort_candidates Store.values
next_pool-IsSorted_lru_example = next_pool-IsSorted_lru full draws 500 1 (2 ∷ 2 ∷ 3 ∷ []) refl refl
