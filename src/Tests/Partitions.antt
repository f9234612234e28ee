-- ===== src/Tests/Partitions.antt =====
-- Three events of a connection, the second of which is older than the first.
use hazelcast_nodejs_client.Prelude.{ℕ, ◌≡◌, refl, List, [], ◌∷◌, some, ℤ, pos, ◌≤ℤ◌}
use hazelcast_nodejs_client.JsMap.{ℕ_eq}
use hazelcast_nodejs_client.Uuid.{Uuid}
use hazelcast_nodejs_client.PartitionTable.{
  PartitionService, create, handle_partition_view_event, should_be_applied, get_partition_owner,
}
use hazelcast_nodejs_client.PartitionTable.Views.{
  handle_all, handle_all-newest, handle_all-newest_alone, get_partition_owner-handle,
}

abbrev first : Uuid
first = record { most_significant = pos 0; least_significant = pos 1 }

abbrev second : Uuid
second = record { most_significant = pos 0; least_significant = pos 2 }

abbrev views : List (List (Uuid × List ℕ) × ℤ)
views = ((first, 0 ∷ 1 ∷ []) ∷ [], pos 7) ∷ ((second, 0 ∷ []) ∷ [], pos 5) ∷ ([], pos 9) ∷ []

abbrev service : PartitionService ℕ
service = create

handle_all-newest_example :
    pos 5 ≤ℤ (handle_all 3 service views).partition_table.partition_state_version
handle_all-newest_example = handle_all-newest 3 service views 1 (second, 0 ∷ []) [] (pos 5) refl

handle_all-newest_alone_example :
    handle_all 3 service views
    ≡ handle_partition_view_event service 3 ((first, 0 ∷ 1 ∷ []) ∷ []) (pos 7)
handle_all-newest_alone_example = handle_all-newest_alone 3 service views

get_partition_owner-handle_example :
    get_partition_owner
      (handle_partition_view_event service 3 ((first, 0 ∷ 1 ∷ []) ∷ (second, 1 ∷ []) ∷ []) (pos 7))
      1
    ≡ some second
unfolding should_be_applied
get_partition_owner-handle_example =
    get_partition_owner-handle service 3 ((first, 0 ∷ 1 ∷ []) ∷ (second, 1 ∷ []) ∷ []) (pos 7) 1
      refl
