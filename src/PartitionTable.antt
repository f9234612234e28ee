-- ===== src/PartitionTable.antt =====
-- PartitionService.ts: the table of partition owners that the client takes from the members' events.
pub mod Views
use hazelcast_nodejs_client.Prelude.{
  ℕ, zero, suc, ◌+◌, ◌%◌, Bool, true, false, not, ◌||◌, List, [], ◌∷◌, Option, none, some, ◌==◌,
  if◌then◌else◌, ℤ, pos, negsuc, leb_ℤ, pos_part, neg_part,
}
use hazelcast_nodejs_client.JsMap.{Eq, ℕ_eq, lookup, insert}
use hazelcast_nodejs_client.Uuid.{Uuid}

-- The connections `C` are compared by their `equals`.
pub record PartitionTable (C : Type 0) : Type 0 where
  pub connection : Option C
  pub partition_state_version : ℤ
  pub partitions : List (ℕ × Uuid)

pub record PartitionService (C : Type 0) : Type 0 where
  pub partition_table : PartitionTable C
  pub partition_count : ℕ

abbrev pub new_table : {C : Type 0} → PartitionTable C
new_table = record { connection = none; partition_state_version = negsuc 0; partitions = [] }

abbrev pub create : {C : Type 0} → PartitionService C
create = record { partition_table = new_table; partition_count = 0 }

-- The inner loop of `convertToMap`, and the outer one.
unfoldable pub own : Uuid → List ℕ → List (ℕ × Uuid) → List (ℕ × Uuid)
unfolding insert
own uuid [] m = m
own uuid (p ∷ owned) m = own uuid owned (insert p uuid m)

unfoldable pub convert_from : List (ℕ × Uuid) → List (Uuid × List ℕ) → List (ℕ × Uuid)
unfolding own
convert_from m [] = m
convert_from m ((uuid, owned) ∷ entries) = convert_from (own uuid owned m) entries

unfoldable pub convert_to_map : List (Uuid × List ℕ) → List (ℕ × Uuid)
unfolding convert_from
convert_to_map entries = convert_from [] entries

module _ {C : Type 0} where
  unfoldable pub reset : PartitionService C → PartitionService C
  reset s = record s { partition_table = new_table }

  unfoldable pub get_partition_owner : PartitionService C → ℕ → Option Uuid
  unfolding lookup
  get_partition_owner s partition_id = lookup partition_id s.partition_table.partitions

  -- The partition of a key by its hash, a signed 32-bit integer; `none` is `ClientOfflineError`.
  unfoldable pub get_partition_id : PartitionService C → ℤ → Option ℕ
  get_partition_id s partition_hash = elim s.partition_count [
    | zero ↦ none
    | suc n ↦ some ((pos_part partition_hash + neg_part partition_hash) % suc n)
  ]

  unfoldable pub check_and_set_partition_count : PartitionService C → ℕ → PartitionService C × Bool
  check_and_set_partition_count s new_count =
      if s.partition_count == 0
      then (record s { partition_count = new_count }, true)
      else (s, s.partition_count == new_count)

module _ {C : Type 0} ⦃e : Eq C⦄ where
  unfoldable pub should_be_applied : C → List (Uuid × List ℕ) → ℤ → PartitionTable C → Bool
  should_be_applied connection [] version current = false
  should_be_applied connection (entry ∷ entries) version current = elim current.connection [
    | none ↦ true
    | some old ↦
        if not (e.eqb connection old)
        then true
        else not (leb_ℤ version current.partition_state_version)
  ]

  unfoldable pub handle_partition_view_event :
      PartitionService C → C → List (Uuid × List ℕ) → ℤ → PartitionService C
  unfolding should_be_applied convert_to_map
  handle_partition_view_event s connection partitions version =
      if should_be_applied connection partitions version s.partition_table
      then record s {
        partition_table = record {
          connection = some connection;
          partition_state_version = version;
          partitions = convert_to_map partitions;
        };
      }
      else s
