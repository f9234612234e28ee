-- ===== src/Buffers.antt =====
-- util/BitsUtil.ts: numbers in the bytes of a buffer, in either order. A buffer is the list of its
-- bytes. Access outside a buffer, and a value that does not fit its field, are range errors: `none`.
pub mod Words
use hazelcast_nodejs_client.Prelude.{
  ℕ, zero, suc, ◌+◌, ◌-◌, ◌*◌, ◌/◌, ◌%◌, ◌^◌, Bool, true, false, ◌&&◌, List, [], ◌∷◌, ◌++◌, reverse,
  Option, none, some, ltb, leb, if◌then◌else◌, length, take, drop, min, guard, ◌>>◌, ◌>>=◌, ℤ, pos,
  negsuc,
}

abbrev pub Buffer : Type 0
Buffer = List ℕ

-- `copy` into a buffer from a position on, which stops where the buffer ends.
unfoldable pub overwrite : Buffer → ℕ → List ℕ → Buffer
overwrite [] p bytes = []
overwrite (b ∷ buffer) zero [] = b ∷ buffer
overwrite (b ∷ buffer) zero (x ∷ bytes) = x ∷ overwrite buffer 0 bytes
overwrite (b ∷ buffer) (suc p) bytes = b ∷ overwrite buffer p bytes

unfoldable pub write_bytes : Buffer → ℕ → List ℕ → Option Buffer
unfolding overwrite
write_bytes buffer p bytes =
    if leb (p + length bytes) (length buffer) then some (overwrite buffer p bytes) else none

-- Signed numbers of 16 and 32 bits, and their bit patterns.
unfoldable pub fits16 : ℤ → Bool
fits16 (pos n) = ltb n (2 ^ 15)
fits16 (negsuc n) = ltb n (2 ^ 15)

unfoldable pub fits32 : ℤ → Bool
fits32 (pos n) = ltb n (2 ^ 31)
fits32 (negsuc n) = ltb n (2 ^ 31)

unfoldable pub word16 : ℤ → ℕ
word16 (pos n) = n
word16 (negsuc n) = 2 ^ 16 - 1 - n

unfoldable pub word32 : ℤ → ℕ
word32 (pos n) = n
word32 (negsuc n) = 2 ^ 32 - 1 - n

unfoldable pub signed16 : ℕ → ℤ
signed16 w = if ltb w (2 ^ 15) then pos w else negsuc (2 ^ 16 - 1 - w)

unfoldable pub signed32 : ℕ → ℤ
signed32 w = if ltb w (2 ^ 31) then pos w else negsuc (2 ^ 32 - 1 - w)

-- The bytes of a bit pattern, the most significant one first if `is_big_endian`.
unfoldable pub bytes16 : ℕ → Bool → List ℕ
bytes16 w is_big_endian =
    if is_big_endian then w / 2 ^ 8 ∷ w % 2 ^ 8 ∷ [] else w % 2 ^ 8 ∷ w / 2 ^ 8 ∷ []

unfoldable pub bytes32 : ℕ → Bool → List ℕ
bytes32 w is_big_endian =
    if is_big_endian
    then w / 2 ^ 24 ∷ w / 2 ^ 16 % 2 ^ 8 ∷ w / 2 ^ 8 % 2 ^ 8 ∷ w % 2 ^ 8 ∷ []
    else w % 2 ^ 8 ∷ w / 2 ^ 8 % 2 ^ 8 ∷ w / 2 ^ 16 % 2 ^ 8 ∷ w / 2 ^ 24 ∷ []

unfoldable pub from_bytes16 : ℕ → ℕ → Bool → ℕ
from_bytes16 a b is_big_endian = if is_big_endian then a * 2 ^ 8 + b else b * 2 ^ 8 + a

unfoldable pub from_bytes32 : ℕ → ℕ → ℕ → ℕ → Bool → ℕ
from_bytes32 a b c d is_big_endian =
    if is_big_endian
    then a * 2 ^ 24 + b * 2 ^ 16 + c * 2 ^ 8 + d
    else d * 2 ^ 24 + c * 2 ^ 16 + b * 2 ^ 8 + a

module _ (buffer : Buffer) (p : ℕ) where
  unfoldable pub write_uint8 : ℕ → Option Buffer
  unfolding write_bytes
  write_uint8 val = do guard (ltb val (2 ^ 8)); write_bytes buffer p (val ∷ [])

  unfoldable pub write_uint16 : ℕ → Bool → Option Buffer
  unfolding write_bytes bytes16
  write_uint16 val is_big_endian = do
    guard (ltb val (2 ^ 16))
    write_bytes buffer p (bytes16 val is_big_endian)

  unfoldable pub write_int16 : ℤ → Bool → Option Buffer
  unfolding write_bytes bytes16 fits16 word16
  write_int16 val is_big_endian = do
    guard (fits16 val)
    write_bytes buffer p (bytes16 (word16 val) is_big_endian)

  unfoldable pub write_int32 : ℤ → Bool → Option Buffer
  unfolding write_bytes bytes32 fits32 word32
  write_int32 val is_big_endian = do
    guard (fits32 val)
    write_bytes buffer p (bytes32 (word32 val) is_big_endian)

module _ (buffer : Buffer) where
  unfoldable pub read_uint8 : ℤ → Option ℕ
  read_uint8 (negsuc _) = none
  read_uint8 (pos p) = elim (drop p buffer) [ [] ↦ none | a ∷ _ ↦ some a ]

  unfoldable pub read_uint16 : ℤ → Bool → Option ℕ
  unfolding from_bytes16
  read_uint16 (negsuc _) is_big_endian = none
  read_uint16 (pos p) is_big_endian = elim (drop p buffer) [
    | a ∷ b ∷ _ ↦ some (from_bytes16 a b is_big_endian)
    | _ ↦ none
  ]

  unfoldable pub read_uint32 : ℤ → Bool → Option ℕ
  unfolding from_bytes32
  read_uint32 (negsuc _) is_big_endian = none
  read_uint32 (pos p) is_big_endian = elim (drop p buffer) [
    | a ∷ b ∷ c ∷ d ∷ _ ↦ some (from_bytes32 a b c d is_big_endian)
    | _ ↦ none
  ]

  unfoldable pub read_int16 : ℤ → Bool → Option ℤ
  unfolding read_uint16 signed16
  read_int16 p is_big_endian = do w ← read_uint16 p is_big_endian; some (signed16 w)

  unfoldable pub read_int32 : ℤ → Bool → Option ℤ
  unfolding read_uint32 signed32
  read_int32 p is_big_endian = do w ← read_uint32 p is_big_endian; some (signed32 w)

-- `slice`, where a negative index counts from the end.
unfoldable pub slice_index : ℕ → ℤ → ℕ
slice_index n (pos i) = min i n
slice_index n (negsuc i) = n - suc i

unfoldable pub slice : Buffer → ℤ → ℤ → Buffer
unfolding slice_index
slice buffer start end =
    let from = slice_index (length buffer) start in
    take (slice_index (length buffer) end - from) (drop from buffer)
