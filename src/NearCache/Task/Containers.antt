-- ===== src/NearCache/Task/Containers.antt =====
-- nearcache/MetadataContainer.ts: what the handler and the task make of the container of a partition.
use hazelcast_nodejs_client.Prelude.{ℕ, Bool, Option, ℤ, pos, ◌≤ℤ◌, arith}
use hazelcast_nodejs_client.Uuid.{Uuid}
use hazelcast_nodejs_client.NearCache.Metadata
use hazelcast_nodejs_client.NearCache.Metadata.{MetadataContainer}
use hazelcast_nodejs_client.NearCache.Repair.{repair_sequence, repair_uuid}
use hazelcast_nodejs_client.NearCache.Task.{flush_missed}

-- A container that was initialized with the instance of its partition and a sequence that is not
-- negative, and was then changed by the handler and the task.
pub data Reached : MetadataContainer → Type 0 where
  initialized :
      (uuid : Option Uuid) (n : ℕ)
      → Reached (record Metadata.create { sequence = pos n; uuid = uuid })
  sequenced :
      {c : MetadataContainer} (next_sequence : ℤ) (via_anti_entropy : Bool)
      → Reached c
      → Reached (repair_sequence c next_sequence via_anti_entropy)
  identified :
      {c : MetadataContainer} (new_uuid : Option Uuid)
      → Reached c
      → Reached (repair_uuid c new_uuid)
  flushed : {c : MetadataContainer} → Reached c → Reached (flush_missed c)

repair_sequence-ordered :
    (c : MetadataContainer) (s : ℤ) (via : Bool)
    → c.stale_sequence ≤ℤ c.sequence
    → (repair_sequence c s via).stale_sequence ≤ℤ (repair_sequence c s via).sequence
unfolding repair_sequence
repair_sequence-ordered c s via h = ground arith

repair_uuid-ordered :
    (c : MetadataContainer) (u : Option Uuid)
    → c.stale_sequence ≤ℤ c.sequence
    → (repair_uuid c u).stale_sequence ≤ℤ (repair_uuid c u).sequence
unfolding repair_uuid
repair_uuid-ordered c u h = ground arith

flush_missed-ordered :
    (c : MetadataContainer)
    → c.stale_sequence ≤ℤ c.sequence
    → (flush_missed c).stale_sequence ≤ℤ (flush_missed c).sequence
unfolding flush_missed
flush_missed-ordered c h = ground arith

-- The sequence up to which records are stale never passes the sequence of the last event.
pub Reached-ordered : {c : MetadataContainer} → Reached c → c.stale_sequence ≤ℤ c.sequence
Reached-ordered (initialized uuid n) = omega arith
Reached-ordered (sequenced {c} s via r) = repair_sequence-ordered c s via (Reached-ordered r)
Reached-ordered (identified {c} u r) = repair_uuid-ordered c u (Reached-ordered r)
Reached-ordered (flushed {c} r) = flush_missed-ordered c (Reached-ordered r)
