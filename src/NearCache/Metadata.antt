-- ===== src/NearCache/Metadata.antt =====
-- nearcache/MetadataContainer.ts: what the client knows of the invalidations of one partition.
use hazelcast_nodejs_client.Prelude.{ℤ, pos, long_add, Option, none}
use hazelcast_nodejs_client.Uuid.{Uuid}

pub record MetadataContainer : Type 0 where
  pub sequence : ℤ
  pub stale_sequence : ℤ
  pub missed_sequence_count : ℤ
  pub uuid : Option Uuid

-- A new container.
abbrev pub create : MetadataContainer
create = record {
  sequence = pos 0;
  stale_sequence = pos 0;
  missed_sequence_count = pos 0;
  uuid = none;
}

unfoldable pub reset : MetadataContainer → MetadataContainer
reset m = record m { sequence = pos 0; stale_sequence = pos 0; missed_sequence_count = pos 0 }

unfoldable pub set_sequence : MetadataContainer → ℤ → MetadataContainer
set_sequence m s = record m { sequence = s }

unfoldable pub set_stale_sequence : MetadataContainer → ℤ → MetadataContainer
set_stale_sequence m s = record m { stale_sequence = s }

unfoldable pub increase_missed_sequence_count : MetadataContainer → ℤ → MetadataContainer
increase_missed_sequence_count m missed = record m {
  missed_sequence_count = long_add m.missed_sequence_count missed;
}

unfoldable pub set_uuid : MetadataContainer → Option Uuid → MetadataContainer
set_uuid m u = record m { uuid = u }
