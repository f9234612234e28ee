-- ===== src/NearCache/Config.antt =====
-- config/NearCacheConfig.ts, EvictionPolicy.ts and InMemoryFormat.ts: what the near cache reads.
use hazelcast_nodejs_client.Prelude.{ℕ, Bool}

pub data InMemoryFormat : Type 0 where
  object binary : InMemoryFormat

pub data EvictionPolicy : Type 0 where
  none lru lfu random : EvictionPolicy

pub record NearCacheConfig : Type 0 where
  pub invalidate_on_change : Bool
  pub max_idle_seconds : ℕ
  pub in_memory_format : InMemoryFormat
  pub time_to_live_seconds : ℕ
  pub eviction_policy : EvictionPolicy
  pub eviction_max_size : ℕ
  pub eviction_sampling_count : ℕ
  pub eviction_sampling_pool_size : ℕ
