-- ===== src/NearCache/Repair.antt =====
-- nearcache/RepairingHandler.ts and StaleReadDetector.ts: how the near cache learns that
-- invalidations were lost. Sequences are `Long` values. A method that throws, because a partition
-- has no container, returns `false` beside the state that it leaves.
pub mod Sequences
use hazelcast_nodejs_client.Prelude.{
  ℕ, zero, suc, Bool, true, false, not, ◌||◌, List, [], ◌∷◌, Option, none, some, if◌then◌else◌,
  get_elem?, set, ℤ, pos, ltb_ℤ, leb_ℤ, long_subtract,
}
use hazelcast_nodejs_client.Uuid
use hazelcast_nodejs_client.Uuid.{Uuid}
use hazelcast_nodejs_client.NearCache.Record
use hazelcast_nodejs_client.NearCache.Record.{DataRecord}
use hazelcast_nodejs_client.NearCache.Metadata
use hazelcast_nodejs_client.NearCache.Metadata.{MetadataContainer}

-- What the handler uses of the partition service: the partition of a key and of the map's name.
pub record Partitions (K : Type 0) : Type 0 where
  pub partition_count : ℕ
  pub partition_of_key : K → ℕ
  pub partition_of_name : ℕ

pub record RepairingHandler : Type 0 where
  pub local_uuid : Uuid
  pub containers : List MetadataContainer

abbrev containers_from : ℕ → List MetadataContainer
containers_from zero = []
containers_from (suc n) = Metadata.create ∷ containers_from n

unfoldable pub create : {K : Type 0} → Partitions K → Uuid → RepairingHandler
create p local_uuid = record {
  local_uuid = local_uuid;
  containers = containers_from p.partition_count;
}

unfoldable pub get_metadata_container : RepairingHandler → ℕ → Option MetadataContainer
get_metadata_container h partition_id = get_elem? h.containers partition_id

-- The body of `checkOrRepairSequence` on the container of the partition.
unfoldable pub repair_sequence : MetadataContainer → ℤ → Bool → MetadataContainer
unfolding Metadata.set_sequence Metadata.increase_missed_sequence_count
repair_sequence metadata next_sequence via_anti_entropy =
    let current = metadata.sequence in
    let gap = long_subtract next_sequence current in
    let missed = if not via_anti_entropy then long_subtract gap (pos 1) else gap in
    let updated = Metadata.set_sequence metadata next_sequence in
    if leb_ℤ next_sequence current
    then metadata
    else if ltb_ℤ (pos 0) missed
    then Metadata.increase_missed_sequence_count updated missed
    else updated

-- The body of `checkOrRepairUuid`.
unfoldable pub repair_uuid : MetadataContainer → Option Uuid → MetadataContainer
unfolding Metadata.set_uuid Metadata.reset Uuid.equals?
repair_uuid metadata new_uuid =
    let same : Bool = elim metadata.uuid [ none ↦ false | some u ↦ Uuid.equals? u new_uuid ] in
    if same then metadata else Metadata.reset (Metadata.set_uuid metadata new_uuid)

-- Applies a change to the container of a partition.
abbrev update_container :
    RepairingHandler → ℕ → (MetadataContainer → MetadataContainer) → RepairingHandler × Bool
update_container h partition_id f = elim (get_elem? h.containers partition_id) [
  | none ↦ (h, false)
  | some c ↦ (record h { containers = set h.containers partition_id (f c) }, true)
]

unfoldable pub check_or_repair_sequence : RepairingHandler → ℕ → ℤ → Bool → RepairingHandler × Bool
check_or_repair_sequence h partition_id next_sequence via_anti_entropy =
    update_container h partition_id (λ c. repair_sequence c next_sequence via_anti_entropy)

unfoldable pub check_or_repair_uuid : RepairingHandler → ℕ → Option Uuid → RepairingHandler × Bool
check_or_repair_uuid h partition_id new_uuid =
    update_container h partition_id (λ c. repair_uuid c new_uuid)

unfoldable pub init_uuid : RepairingHandler → List (ℕ × Option Uuid) → RepairingHandler × Bool
unfolding Metadata.set_uuid
init_uuid h [] = (h, true)
init_uuid h ((partition_id, u) ∷ rest) =
    elim (update_container h partition_id (λ c. Metadata.set_uuid c u)).1 [
      | true ↦ init_uuid (update_container h partition_id (λ c. Metadata.set_uuid c u)).0 rest
      | false ↦ (h, false)
    ]

unfoldable pub init_sequence : RepairingHandler → List (ℕ × ℤ) → RepairingHandler × Bool
unfolding Metadata.set_sequence
init_sequence h [] = (h, true)
init_sequence h ((partition_id, s) ∷ rest) =
    elim (update_container h partition_id (λ c. Metadata.set_sequence c s)).1 [
      | true ↦
          init_sequence (update_container h partition_id (λ c. Metadata.set_sequence c s)).0 rest
      | false ↦ (h, false)
    ]

unfoldable pub update_last_known_stale_sequence : MetadataContainer → MetadataContainer
unfolding Metadata.set_stale_sequence
update_last_known_stale_sequence c =
    if ltb_ℤ c.stale_sequence c.sequence then Metadata.set_stale_sequence c c.sequence else c

-- What a handled event asks of the near cache.
pub data Invalidation (K : Type 0) : Type 0 where
  nothing : Invalidation K
  clear : Invalidation K
  invalidate : K → Invalidation K

module _ {K : Type 0} where
  unfoldable pub get_partition_id_or_default : Partitions K → Option K → ℕ
  get_partition_id_or_default p none = p.partition_of_name
  get_partition_id_or_default p (some key) = p.partition_of_key key

  -- An event from this client itself was applied when it was made.
  unfoldable pub invalidation_of : RepairingHandler → Option K → Option Uuid → Invalidation K
  unfolding Uuid.equals?
  invalidation_of h key source_uuid =
      if not (Uuid.equals? h.local_uuid source_uuid)
      then (elim key [ none ↦ clear | some k ↦ invalidate k ])
      else nothing

  unfoldable pub handle :
      Partitions K
      → RepairingHandler
      → Option K
      → Option Uuid
      → Option Uuid
      → ℤ
      → Invalidation K × RepairingHandler × Bool
  unfolding get_partition_id_or_default invalidation_of check_or_repair_sequence
      check_or_repair_uuid
  handle p h key source_uuid partition_uuid sequence =
      let partition_id = get_partition_id_or_default p key in
      let (repaired, found) = check_or_repair_sequence h partition_id sequence false in
      let (checked, done) = check_or_repair_uuid repaired partition_id partition_uuid in
      (
        invalidation_of h key source_uuid,
        (if found then checked else repaired),
        (if found then done else false),
      )

-- An entry of the parallel arrays that `handleBatch` takes.
pub record Event (K : Type 0) : Type 0 where
  pub key : Option K
  pub source_uuid : Option Uuid
  pub partition_uuid : Option Uuid
  pub sequence : ℤ

-- The loop ends at the first event whose handling throws.
unfoldable pub handle_batch :
    {K : Type 0}
    → Partitions K
    → RepairingHandler
    → List (Event K)
    → List (Invalidation K) × RepairingHandler × Bool
unfolding handle
handle_batch p h [] = ([], h, true)
handle_batch p h (e ∷ events) =
    let (invalidation, handled, ok) = handle p h e.key e.source_uuid e.partition_uuid e.sequence in
    let (rest, last, done) = handle_batch p handled events in
    (
      invalidation ∷ (if ok then rest else []),
      (if ok then last else handled),
      (if ok then done else false),
    )

-- `StaleReadDetector`: the implementation over a handler, and the one that finds nothing stale.
pub data StaleReadDetector : Type 0 where
  always_fresh : StaleReadDetector
  repairing : RepairingHandler → StaleReadDetector

-- The metadata of a key's partition, as the implementation reads it.
unfoldable pub metadata_of :
    {K : Type 0} → Partitions K → RepairingHandler → K → Option MetadataContainer
unfolding get_metadata_container
metadata_of p h key = get_metadata_container h (p.partition_of_key key)

-- The condition of `isStaleRead` on a record and the metadata of its partition.
unfoldable pub is_stale : {K V : Type 0} → MetadataContainer → DataRecord K V → Bool
unfolding Record.has_same_uuid
is_stale metadata r =
    not (Record.has_same_uuid r metadata.uuid)
    || ltb_ℤ r.invalidation_sequence metadata.stale_sequence

-- `none` where the partition has no container, and the method throws.
unfoldable pub is_stale_read :
    {K V : Type 0} → Partitions K → StaleReadDetector → DataRecord K V → Option Bool
unfolding metadata_of is_stale
is_stale_read p always_fresh r = some false
is_stale_read p (repairing h) r = elim (metadata_of p h r.key) [
  | none ↦ none
  | some metadata ↦ some (is_stale metadata r)
]
