-- ===== src/NearCache/Record.antt =====
-- nearcache/DataRecord.ts: an entry of the near cache. `Date.now()` is the argument `now`.
use hazelcast_nodejs_client.Prelude.{
  ℕ, ◌+◌, ◌*◌, ◌<◌, ◌≡◌, ◌↔◌, ◌⊎◌, Bool, true, false, ◌&&◌, ◌||◌, Option, none, some, arith, ltb,
  ◌==◌, if◌then◌else◌, ℤ, pos, negsuc, sub_ℕ, eqb_ℤ,
}
use hazelcast_nodejs_client.Uuid
use hazelcast_nodejs_client.Uuid.{Uuid}

abbrev pub not_reserved : ℤ
not_reserved = negsuc 0

abbrev pub reserved : ℤ
reserved = negsuc 1

abbrev pub read_permitted : ℤ
read_permitted = negsuc 2

-- `value` is `none` while the entry is only reserved.
pub record DataRecord (K V : Type 0) : Type 0 where
  pub key : K
  pub value : Option V
  pub creation_time : ℕ
  pub expiration_time : Option ℕ
  pub last_access_time : ℕ
  pub access_hit : ℕ
  pub invalidation_sequence : ℤ
  pub uuid : Option Uuid
  pub status : ℤ
  pub ttl : Option ℕ

-- An optional number that is missing or 0 is false in a condition.
abbrev pub truthy : Option ℕ → Option ℕ
truthy none = none
truthy (some n) = if n == 0 then none else some n

abbrev or_now : Option ℕ → ℕ → ℕ
or_now creation now = elim (truthy creation) [ none ↦ now | some t ↦ t ]

-- The expiration of an entry that is created at a time and lives `ttl` seconds.
abbrev expires : Option ℕ → ℕ → Option ℕ
expires ttl created = elim (truthy ttl) [ none ↦ none | some s ↦ some (created + s * 1000) ]

module _ {K V : Type 0} where
  -- The constructor.
  unfoldable pub create : K → Option V → Option ℕ → Option ℕ → ℕ → DataRecord K V
  create key value creation_time ttl now = record {
    key = key;
    value = value;
    creation_time = or_now creation_time now;
    expiration_time = expires ttl (or_now creation_time now);
    last_access_time = or_now creation_time now;
    access_hit = 0;
    invalidation_sequence = pos 0;
    uuid = none;
    status = read_permitted;
    ttl = ttl;
  }

  unfoldable pub lru_comp : DataRecord K V → DataRecord K V → ℤ
  lru_comp x y = sub_ℕ x.last_access_time y.last_access_time

  unfoldable pub lfu_comp : DataRecord K V → DataRecord K V → ℤ
  lfu_comp x y = sub_ℕ x.access_hit y.access_hit

  unfoldable pub is_expired : DataRecord K V → ℕ → ℕ → Bool
  is_expired r max_idle_seconds now =
      (elim r.expiration_time [ none ↦ false | some t ↦ ltb 0 t && ltb t now ])
      || (ltb 0 max_idle_seconds && ltb (r.last_access_time + max_idle_seconds * 1000) now)

  unfoldable pub set_access_time : DataRecord K V → ℕ → DataRecord K V
  set_access_time r now = record r { last_access_time = now }

  unfoldable pub hit_record : DataRecord K V → DataRecord K V
  hit_record r = record r { access_hit = r.access_hit + 1 }

  unfoldable pub set_invalidation_sequence : DataRecord K V → ℤ → DataRecord K V
  set_invalidation_sequence r sequence = record r { invalidation_sequence = sequence }

  unfoldable pub has_same_uuid : DataRecord K V → Option Uuid → Bool
  unfolding Uuid.equals
  has_same_uuid r none = false
  has_same_uuid r (some u) = elim r.uuid [ none ↦ false | some v ↦ Uuid.equals v u ]

  unfoldable pub set_uuid : DataRecord K V → Option Uuid → DataRecord K V
  set_uuid r u = record r { uuid = u }

  -- The new record, and whether the status was the expected one.
  unfoldable pub cas_status : DataRecord K V → ℤ → ℤ → DataRecord K V × Bool
  cas_status r expected update =
      if eqb_ℤ expected r.status then (record r { status = update }, true) else (r, false)

  unfoldable pub set_creation_time : DataRecord K V → Option ℕ → ℕ → DataRecord K V
  set_creation_time r creation_time now = record r {
    creation_time = or_now creation_time now;
    expiration_time = expires r.ttl (or_now creation_time now);
  }

  -- An entry with a time to live of `s` seconds, created at a positive time, is expired exactly
  -- once more than `s` seconds have passed since its creation, or more than the idle limit since
  -- its last access where there is one.
  pub is_expired-create :
      (key : K) (value : Option V) (s idle created now : ℕ)
      → 0 < created
      → (is_expired (create key value none (some s) created) idle now ≡ true)
        ↔ (((0 < s) × (created + s * 1000 < now)) ⊎ ((0 < idle) × (created + idle * 1000 < now)))
  unfolding create is_expired
  is_expired-create key value s idle created now h = ground arith

  -- Reading an entry restarts its idle time and never its time to live.
  pub is_expired-set_access_time :
      (r : DataRecord K V) (idle now : ℕ)
      → r.expiration_time ≡ none
      → is_expired (set_access_time r now) idle now ≡ false
  unfolding is_expired set_access_time
  is_expired-set_access_time r idle now h = ground arith
