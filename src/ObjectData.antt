-- ===== src/ObjectData.antt =====
-- serialization/ObjectData.ts: the streams that values are serialized to and read from. Positions of
-- the output are not negative; an assertion or a range error that the code throws is `none`.
pub mod Output
pub mod Input
pub mod Growth
pub mod RoundTrips
pub mod Fields
pub mod Arrays
pub mod Texts
pub mod Streams
use hazelcast_nodejs_client.Prelude.{ℕ, ◌-◌, ◌%◌, ◌^◌, ℤ, pos, negsuc}

-- `Long` of the long package: two signed numbers of 32 bits.
pub record Long : Type 0 where
  pub low : ℤ
  pub high : ℤ

-- `byte & MASK_1BYTE`
unfoldable pub mask_1byte : ℤ → ℕ
mask_1byte (pos n) = n % 2 ^ 8
mask_1byte (negsuc n) = 2 ^ 8 - 1 - n % 2 ^ 8
