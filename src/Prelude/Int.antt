-- ===== src/Prelude/Int.antt =====
-- Signed integers over the native numbers, and `Long` of the long package as an integer with the
-- wrap-around of 64 bits.
use hazelcast_nodejs_client.Prelude.Tests.{ltb, leb, ◌==◌, if◌then◌else◌}
use Prim.Native.Nat.{ℕ, suc, ◌+◌, ◌-◌, ◌*◌, ◌%◌, ◌^◌, ◌≤◌, ◌<◌}
use mathlib.Core.Path.{◌≡◌}
use mathlib.Core.Logic.{◌↔◌}
use mathlib.Core.Bool.{Bool, true, false}
use native.Mathlib.Omega.{arith}

-- `negsuc n` is -(n + 1).
pub data ℤ : Type 0 where
  pos : ℕ → ℤ
  negsuc : ℕ → ℤ

abbrev pub pos_part : ℤ → ℕ
pos_part (pos n) = n
pos_part (negsuc n) = 0

abbrev pub neg_part : ℤ → ℕ
neg_part (pos n) = 0
neg_part (negsuc n) = suc n

-- a - b, as an integer.
abbrev pub sub_ℕ : ℕ → ℕ → ℤ
sub_ℕ a b = if leb b a then pos (a - b) else negsuc (b - a - 1)

infixl 65 ◌+ℤ◌ ◌-ℤ◌
infix 50 ◌≤ℤ◌ ◌<ℤ◌
unfoldable pub ◌+ℤ◌ : ℤ → ℤ → ℤ
a +ℤ b = sub_ℕ (pos_part a + pos_part b) (neg_part a + neg_part b)

unfoldable pub ◌-ℤ◌ : ℤ → ℤ → ℤ
a -ℤ b = sub_ℕ (pos_part a + neg_part b) (neg_part a + pos_part b)

infixl 70 ◌*ℤ◌
unfoldable pub ◌*ℤ◌ : ℤ → ℤ → ℤ
a *ℤ b =
    sub_ℕ (pos_part a * pos_part b + neg_part a * neg_part b)
      (pos_part a * neg_part b + neg_part a * pos_part b)

abbrev pub ◌≤ℤ◌ : ℤ → ℤ → Type 0
a ≤ℤ b = pos_part a + neg_part b ≤ pos_part b + neg_part a

abbrev pub ◌<ℤ◌ : ℤ → ℤ → Type 0
a <ℤ b = pos_part a + neg_part b < pos_part b + neg_part a

abbrev pub ltb_ℤ : ℤ → ℤ → Bool
ltb_ℤ a b = ltb (pos_part a + neg_part b) (pos_part b + neg_part a)

abbrev pub leb_ℤ : ℤ → ℤ → Bool
leb_ℤ a b = leb (pos_part a + neg_part b) (pos_part b + neg_part a)

abbrev pub eqb_ℤ : ℤ → ℤ → Bool
eqb_ℤ (pos m) (pos n) = m == n
eqb_ℤ (negsuc m) (negsuc n) = m == n
eqb_ℤ _ _ = false

pub eqb_ℤ_iff : (a b : ℤ) → (eqb_ℤ a b ≡ true) ↔ (a ≡ b)
eqb_ℤ_iff (pos m) (pos n) = ground arith
eqb_ℤ_iff (pos m) (negsuc n) = ground arith
eqb_ℤ_iff (negsuc m) (pos n) = ground arith
eqb_ℤ_iff (negsuc m) (negsuc n) = ground arith

-- What a signed 64-bit word holds of an integer.
unfoldable pub wrap64 : ℤ → ℤ
wrap64 a =
    let w = (pos_part a + (2 ^ 64 - neg_part a % 2 ^ 64)) % 2 ^ 64 in
    if ltb w (2 ^ 63) then pos w else negsuc (2 ^ 64 - w - 1)

-- The integers that a `Long` represents.
abbrev pub IsLong : ℤ → Type 0
IsLong a = (pos_part a < 2 ^ 63) × (neg_part a ≤ 2 ^ 63)

pub wrap64_of_IsLong : (a : ℤ) → IsLong a → wrap64 a ≡ a
unfolding wrap64
wrap64_of_IsLong (pos n) h = ground arith
wrap64_of_IsLong (negsuc n) h = ground arith

pub wrap64-IsLong : (a : ℤ) → IsLong (wrap64 a)
unfolding wrap64
wrap64-IsLong (pos n) = ground arith
wrap64-IsLong (negsuc n) = ground arith

-- `Long.prototype.add`, `subtract`, `negate` and `multiply`.
unfoldable pub long_add : ℤ → ℤ → ℤ
long_add a b = wrap64 (a +ℤ b)

unfoldable pub long_subtract : ℤ → ℤ → ℤ
long_subtract a b = wrap64 (a -ℤ b)

unfoldable pub long_negate : ℤ → ℤ
long_negate a = wrap64 (pos 0 -ℤ a)

unfoldable pub long_multiply : ℤ → ℤ → ℤ
long_multiply a b = wrap64 (a *ℤ b)

pub long_multiply-nonneg : (m n : ℕ) → m * n < 2 ^ 63 → long_multiply (pos m) (pos n) ≡ pos (m * n)
unfolding long_multiply wrap64 ◌*ℤ◌
long_multiply-nonneg m n h = ground arith

pub long_subtract-nonneg :
    (m n : ℕ) → m < 2 ^ 63 → n ≤ m → long_subtract (pos m) (pos n) ≡ pos (m - n)
unfolding long_subtract wrap64 ◌-ℤ◌
long_subtract-nonneg m n h k = ground arith

pub long_add-nonneg : (m n : ℕ) → m + n < 2 ^ 63 → long_add (pos m) (pos n) ≡ pos (m + n)
unfolding long_add wrap64 ◌+ℤ◌
long_add-nonneg m n h = ground arith

pub long_add-negate : (a : ℤ) → IsLong a → long_add a (long_negate a) ≡ pos 0
unfolding long_add long_negate wrap64 ◌+ℤ◌ ◌-ℤ◌
long_add-negate (pos n) h = ground arith
long_add-negate (negsuc n) h = ground arith
