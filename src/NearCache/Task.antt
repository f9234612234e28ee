-- ===== src/NearCache/Task.antt =====
-- nearcache/RepairingTask.ts and MetadataFetcher.ts: the handlers of all near caches, and the
-- anti-entropy task that compares their counts of missed events with a limit. A call of the cluster
-- is two steps, the second of which takes the decoded responses.
pub mod Loops
pub mod Containers
pub mod Staleness
use Prim.Native.String.{String}
use hazelcast_nodejs_client.Prelude.{
  ℕ, zero, suc, ◌+◌, ◌*◌, Bool, true, false, not, ◌||◌, List, [], ◌∷◌, Option, none, some, leb,
  ◌==◌, if◌then◌else◌, get_elem?, set, ℤ, pos, leb_ℤ, eqb_ℤ, long_add, long_negate,
}
use hazelcast_nodejs_client.JsMap.{string_eq, lookup, insert, remove}
use hazelcast_nodejs_client.Uuid.{Uuid}
use hazelcast_nodejs_client.NearCache.Metadata
use hazelcast_nodejs_client.NearCache.Metadata.{MetadataContainer}
use hazelcast_nodejs_client.NearCache.Repair
use hazelcast_nodejs_client.NearCache.Repair.{
  RepairingHandler, Partitions, get_metadata_container, check_or_repair_sequence,
  check_or_repair_uuid, init_uuid, init_sequence, update_last_known_stale_sequence,
}

pub record RepairingTask : Type 0 where
  pub handlers : List (String × RepairingHandler)
  pub reconciliation_interval : ℕ
  pub max_tolerated_miss_count : ℤ
  pub min_allowed_reconciliation_seconds : ℕ
  pub client_uuid : Uuid
  pub partition_count : ℕ
  -- Whether the interval of the task was ever started, and whether it runs.
  pub started : Bool
  pub running : Bool

-- `none` is the `RangeError`.
unfoldable pub get_reconciliation_interval_millis : ℕ → ℕ → Option ℕ
get_reconciliation_interval_millis min_allowed seconds =
    if seconds == 0 || leb min_allowed seconds then some (seconds * 1000) else none

unfoldable pub create : ℕ → ℕ → ℤ → Uuid → ℕ → Option RepairingTask
unfolding get_reconciliation_interval_millis
create min_allowed requested max_tolerated client_uuid partition_count =
    elim (get_reconciliation_interval_millis min_allowed requested) [
      | none ↦ none
      | some interval ↦ some (record {
        handlers = [];
        reconciliation_interval = interval;
        max_tolerated_miss_count = max_tolerated;
        min_allowed_reconciliation_seconds = min_allowed;
        client_uuid = client_uuid;
        partition_count = partition_count;
        started = false;
        running = false;
      })
    ]

-- A decoded response: the instance of each partition, and for each map its sequences.
pub record Metadatas : Type 0 where
  pub partition_uuid_list : List (ℕ × Option Uuid)
  pub name_partition_sequence_list : List (String × List (ℕ × ℤ))

-- `MetadataFetcher.initHandler` on the responses; `namePartitionSequenceList[0]` may be missing.
unfoldable pub init_handler : RepairingHandler → List Metadatas → RepairingHandler × Bool
init_handler h [] = (h, true)
init_handler h (r ∷ responses) =
    let (with_uuids, ok) = init_uuid h r.partition_uuid_list in
    let sequenced : RepairingHandler × Bool = elim r.name_partition_sequence_list [
      | [] ↦ (with_uuids, false)
      | (_, sequences) ∷ _ ↦ init_sequence with_uuids sequences
    ] in
    let rest = init_handler sequenced.0 responses in
    if not ok then (with_uuids, false) else if sequenced.1 then rest else sequenced

-- `start` asserts that the interval is positive: `none` is the failed assertion.
unfoldable pub start : RepairingTask → Option RepairingTask
start t =
    if t.reconciliation_interval == 0
    then none
    else some (record t { started = true; running = true })

unfoldable pub shutdown : RepairingTask → RepairingTask
shutdown t = if t.started then record t { running = false } else t

-- The second step of `registerAndGetHandler`, for a name with no handler: `none` is a rejection.
unfoldable pub register_handler :
    {K : Type 0}
    → RepairingTask
    → Partitions K
    → String
    → List Metadatas
    → Option (RepairingTask × RepairingHandler)
unfolding init_handler start
register_handler t p name responses =
    let (handler, ok) = init_handler (Repair.create p t.client_uuid) responses in
    let registered = record t { handlers = insert name handler t.handlers } in
    if not ok
    then none
    else if t.started
    then some (registered, handler)
    else elim (start registered) [ none ↦ none | some s ↦ some (s, handler) ]

unfoldable pub deregister_handler : RepairingTask → String → RepairingTask
deregister_handler t name = record t { handlers = remove name t.handlers }

-- The loop of `isAboveMaxToleratedMissCount` from partition `i` on, with the rounds left; `none` is
-- the error of a partition without a container.
unfoldable pub above_from : ℤ → RepairingHandler → ℕ → ℕ → ℤ → Option Bool
unfolding get_metadata_container
above_from max_tolerated h zero i total = some false
above_from max_tolerated h (suc rounds) i total = elim (get_metadata_container h i) [
  | none ↦ none
  | some c ↦ elim (leb_ℤ max_tolerated (long_add total c.missed_sequence_count)) [
    | true ↦ some true
    | false ↦ above_from max_tolerated h rounds (suc i) (long_add total c.missed_sequence_count)
  ]
]

unfoldable pub is_above_max_tolerated_miss_count : RepairingTask → RepairingHandler → Option Bool
unfolding above_from
is_above_max_tolerated_miss_count t h =
    above_from t.max_tolerated_miss_count h t.partition_count 0 (pos 0)

-- The body of the loop of `updateLastKnownStaleSequences` on one container.
unfoldable pub flush_missed : MetadataContainer → MetadataContainer
unfolding Metadata.increase_missed_sequence_count update_last_known_stale_sequence
flush_missed c =
    if not (eqb_ℤ c.missed_sequence_count (pos 0))
    then update_last_known_stale_sequence
        (Metadata.increase_missed_sequence_count c (long_negate c.missed_sequence_count))
    else c

unfoldable pub update_from : ℕ → ℕ → List MetadataContainer → List MetadataContainer × Bool
unfolding flush_missed
update_from zero i containers = (containers, true)
update_from (suc rounds) i containers = elim (get_elem? containers i) [
  | none ↦ (containers, false)
  | some c ↦ update_from rounds (suc i) (set containers i (flush_missed c))
]

unfoldable pub update_last_known_stale_sequences :
    RepairingTask → RepairingHandler → RepairingHandler × Bool
unfolding update_from
update_last_known_stale_sequences t h =
    let (containers, ok) = update_from t.partition_count 0 h.containers in
    (record h { containers = containers }, ok)

-- The first half of `antiEntropyTask` on one handler.
unfoldable pub repair_handler : RepairingTask → RepairingHandler → RepairingHandler × Bool
unfolding is_above_max_tolerated_miss_count update_last_known_stale_sequences
repair_handler t h = elim (is_above_max_tolerated_miss_count t h) [
  | none ↦ (h, false)
  | some false ↦ (h, true)
  | some true ↦ update_last_known_stale_sequences t h
]

-- `handlers.forEach`, which ends at the first error.
unfoldable pub repair_handlers :
    RepairingTask → List (String × RepairingHandler) → List (String × RepairingHandler) × Bool
unfolding repair_handler
repair_handlers t [] = ([], true)
repair_handlers t ((name, h) ∷ handlers) =
    let (repaired, ok) = repair_handler t h in
    let (rest, done) = repair_handlers t handlers in
    ((name, repaired) ∷ (if ok then rest else handlers), (if ok then done else false))

-- `antiEntropyTask`: the task after it, and whether it goes on to fetch metadata.
unfoldable pub anti_entropy_task : RepairingTask → Bool → RepairingTask × Bool
unfolding repair_handlers shutdown
anti_entropy_task t is_running =
    let (handlers, ok) = repair_handlers t t.handlers in
    if is_running then (record t { handlers = handlers }, ok) else (shutdown t, false)

unfoldable pub repair_uuids : RepairingHandler → List (ℕ × Option Uuid) → RepairingHandler × Bool
repair_uuids h [] = (h, true)
repair_uuids h ((partition_id, u) ∷ rest) = elim (check_or_repair_uuid h partition_id u).1 [
  | true ↦ repair_uuids (check_or_repair_uuid h partition_id u).0 rest
  | false ↦ (h, false)
]

-- The inner loop of `repairSequences`.
unfoldable pub repair_pairs : RepairingHandler → List (ℕ × ℤ) → RepairingHandler × Bool
repair_pairs h [] = (h, true)
repair_pairs h ((partition_id, s) ∷ rest) =
    elim (check_or_repair_sequence h partition_id s true).1 [
      | true ↦ repair_pairs (check_or_repair_sequence h partition_id s true).0 rest
      | false ↦ (h, false)
    ]

unfoldable pub repair_sequences :
    RepairingHandler → List (String × List (ℕ × ℤ)) → RepairingHandler × Bool
unfolding repair_pairs
repair_sequences h [] = (h, true)
repair_sequences h ((name, pairs) ∷ rest) = elim (repair_pairs h pairs).1 [
  | true ↦ repair_sequences (repair_pairs h pairs).0 rest
  | false ↦ repair_pairs h pairs
]

-- `processResponse` on one handler: an error is caught, and what was done before it stays.
unfoldable pub process_handler : Metadatas → RepairingHandler → RepairingHandler
unfolding repair_uuids repair_sequences
process_handler r h =
    let (with_uuids, ok) = repair_uuids h r.partition_uuid_list in
    if ok then (repair_sequences with_uuids r.name_partition_sequence_list).0 else with_uuids

unfoldable pub process_response :
    Metadatas → List (String × RepairingHandler) → List (String × RepairingHandler)
unfolding process_handler
process_response r [] = []
process_response r ((name, h) ∷ handlers) =
    (name, process_handler r h) ∷ process_response r handlers

-- `fetchMetadata` on the responses of all members.
unfoldable pub fetch_metadata :
    List Metadatas → List (String × RepairingHandler) → List (String × RepairingHandler)
unfolding process_response
fetch_metadata [] handlers = handlers
fetch_metadata (r ∷ responses) handlers = fetch_metadata responses (process_response r handlers)
