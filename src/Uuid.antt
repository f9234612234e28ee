-- ===== src/Uuid.antt =====
-- core/UUID.ts: a 128-bit value as two signed 64-bit halves.
use hazelcast_nodejs_client.Prelude.{
  ◌≡◌, ◌↔◌, Bool, true, false, ◌&&◌, arith, ℤ, eqb_ℤ, eqb_ℤ_iff, Option, none, some,
}
use hazelcast_nodejs_client.JsMap.{Eq}

pub record Uuid : Type 0 where
  pub most_significant : ℤ
  pub least_significant : ℤ

unfoldable pub equals : Uuid → Uuid → Bool
equals u other =
    eqb_ℤ other.most_significant u.most_significant
    && eqb_ℤ other.least_significant u.least_significant

-- `equals` on a parameter that may be `null`.
unfoldable pub equals? : Uuid → Option Uuid → Bool
equals? u none = false
equals? u (some other) = equals u other

pub equals_iff : (u v : Uuid) → (equals u v ≡ true) ↔ (u ≡ v)
unfolding equals
equals_iff u v = ground (
  arith,
  eqb_ℤ_iff v.most_significant u.most_significant,
  eqb_ℤ_iff v.least_significant u.least_significant,
)

instance abbrev pub uuid_eq : Eq Uuid
uuid_eq = record { eqb = equals; eqb_iff = equals_iff }
