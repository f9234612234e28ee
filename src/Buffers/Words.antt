-- ===== src/Buffers/Words.antt =====
-- util/BitsUtil.ts: the numbers written into a buffer are read back from it.
use hazelcast_nodejs_client.Prelude.{
  ℕ, zero, suc, ◌+◌, ◌-◌, min, ◌≡◌, ◌<◌, ◌≤◌, ◌^◌, refl, ap, Bool, true, false, List, [], ◌∷◌, ◌++◌,
  some, arith, length, length-append, take, drop, ℤ, pos, negsuc,
}
use hazelcast_nodejs_client.Buffers.{
  slice, slice_index, Buffer, overwrite, write_bytes, fits16, fits32, word16, word32, signed16,
  signed32, bytes16, bytes32, from_bytes16, from_bytes32, read_uint8, read_uint16, read_int16,
  read_int32, read_uint32,
}

pub signed16-word16 : (z : ℤ) → fits16 z ≡ true → signed16 (word16 z) ≡ z
unfolding signed16 word16 fits16
signed16-word16 (pos n) h = ground arith
signed16-word16 (negsuc n) h = ground arith

pub signed32-word32 : (z : ℤ) → fits32 z ≡ true → signed32 (word32 z) ≡ z
unfolding signed32 word32 fits32
signed32-word32 (pos n) h = ground arith
signed32-word32 (negsuc n) h = ground arith

pub word32-lt : (z : ℤ) → fits32 z ≡ true → word32 z < 2 ^ 32
unfolding word32 fits32
word32-lt (pos n) h = ground arith
word32-lt (negsuc n) h = ground arith

pub drop-append : (before rest : List ℕ) → drop (length before) (before ++ rest) ≡ rest
drop-append [] rest = refl
drop-append (b ∷ before) rest = drop-append before rest

-- The fields that stand behind a prefix.
module _ (rest : List ℕ) where
  pub read_uint8_after :
      (before : List ℕ) (v : ℕ) → read_uint8 (before ++ v ∷ rest) (pos (length before)) ≡ some v
  unfolding read_uint8
  read_uint8_after [] v = refl
  read_uint8_after (x ∷ before) v = read_uint8_after before v

  pub read_uint16_after :
      (before : List ℕ) (v : ℕ) (b : Bool)
      → read_uint16 (before ++ (bytes16 v b ++ rest)) (pos (length before)) b ≡ some v
  unfolding read_uint16 bytes16 from_bytes16
  read_uint16_after [] v true = ap some (omega arith)
  read_uint16_after [] v false = ap some (omega arith)
  read_uint16_after (x ∷ before) v b = read_uint16_after before v b

  pub read_uint32_after :
      (before : List ℕ) (v : ℕ) (b : Bool)
      → read_uint32 (before ++ (bytes32 v b ++ rest)) (pos (length before)) b ≡ some v
  unfolding read_uint32 bytes32 from_bytes32
  read_uint32_after [] v true = ap some (omega arith)
  read_uint32_after [] v false = ap some (omega arith)
  read_uint32_after (x ∷ before) v b = read_uint32_after before v b

  pub read_int16_after :
      (before : List ℕ) (z : ℤ) (b : Bool)
      → fits16 z ≡ true
      → read_int16 (before ++ (bytes16 (word16 z) b ++ rest)) (pos (length before)) b ≡ some z
  unfolding read_int16
  read_int16_after before z b h =
      rw (read_int16, read_uint16_after before (word16 z) b, signed16-word16 z h)

  pub read_int32_after :
      (before : List ℕ) (z : ℤ) (b : Bool)
      → fits32 z ≡ true
      → read_int32 (before ++ (bytes32 (word32 z) b ++ rest)) (pos (length before)) b ≡ some z
  unfolding read_int32
  read_int32_after before z b h =
      rw (read_int32, read_uint32_after before (word32 z) b, signed32-word32 z h)

pub length-overwrite :
    (buffer : Buffer) (p : ℕ) (bytes : List ℕ) → length (overwrite buffer p bytes) ≡ length buffer
unfolding overwrite
length-overwrite [] p bytes = refl
length-overwrite (b ∷ buffer) zero [] = refl
length-overwrite (b ∷ buffer) zero (x ∷ bytes) = ap suc (length-overwrite buffer 0 bytes)
length-overwrite (b ∷ buffer) (suc p) bytes = ap suc (length-overwrite buffer p bytes)

-- The bytes up to the end of what is written.
pub take-overwrite :
    (buffer : Buffer) (p : ℕ) (bytes : List ℕ) (e : ℕ)
    → e ≡ p + length bytes
    → e ≤ length buffer
    → take e (overwrite buffer p bytes) ≡ take p buffer ++ bytes
unfolding overwrite
take-overwrite buffer zero [] zero i h = refl
take-overwrite buffer zero (x ∷ bytes) zero i h = absurd (omega arith)
take-overwrite buffer (suc p) bytes zero i h = absurd (omega arith)
take-overwrite [] p bytes (suc e) i h = absurd (omega arith)
take-overwrite (b ∷ buffer) zero [] (suc e) i h = absurd (omega arith)
take-overwrite (b ∷ buffer) zero (x ∷ bytes) (suc e) i h =
    ap (◌∷◌ x) (take-overwrite buffer 0 bytes e (omega arith) (omega arith))
take-overwrite (b ∷ buffer) (suc p) bytes (suc e) i h =
    ap (◌∷◌ b) (take-overwrite buffer p bytes e (omega arith) (omega arith))

-- Two writes, the second where the first ends, are one.
pub overwrite-overwrite :
    (buffer : Buffer) (p : ℕ) (xs ys : List ℕ) (e : ℕ)
    → e ≡ p + length xs
    → overwrite (overwrite buffer p xs) e ys ≡ overwrite buffer p (xs ++ ys)
unfolding overwrite
overwrite-overwrite [] p xs ys e i = refl
overwrite-overwrite (b ∷ buffer) zero [] ys zero i = refl
overwrite-overwrite (b ∷ buffer) zero [] ys (suc e) i = absurd (omega arith)
overwrite-overwrite (b ∷ buffer) zero (x ∷ xs) ys zero i = absurd (omega arith)
overwrite-overwrite (b ∷ buffer) zero (x ∷ xs) ys (suc e) i =
    ap (◌∷◌ x) (overwrite-overwrite buffer 0 xs ys e (omega arith))
overwrite-overwrite (b ∷ buffer) (suc p) xs ys zero i = absurd (omega arith)
overwrite-overwrite (b ∷ buffer) (suc p) xs ys (suc e) i =
    ap (◌∷◌ b) (overwrite-overwrite buffer p xs ys e (omega arith))

-- A write that is in range succeeds.
pub write_bytes-eq :
    (buffer : Buffer) (p : ℕ) (bytes : List ℕ)
    → p + length bytes ≤ length buffer
    → write_bytes buffer p bytes ≡ some (overwrite buffer p bytes)
unfolding write_bytes
write_bytes-eq buffer p bytes h = ground arith

pub length-bytes16 : (w : ℕ) (b : Bool) → length (bytes16 w b) ≡ 2
unfolding bytes16
length-bytes16 w true = refl
length-bytes16 w false = refl

pub length-bytes32 : (w : ℕ) (b : Bool) → length (bytes32 w b) ≡ 4
unfolding bytes32
length-bytes32 w true = refl
length-bytes32 w false = refl

pub length-take : (p : ℕ) (buffer : Buffer) → p ≤ length buffer → length (take p buffer) ≡ p
length-take zero buffer h = refl
length-take (suc p) [] h = absurd (omega arith)
length-take (suc p) (b ∷ buffer) h = ap suc (length-take p buffer (omega arith))

-- What is read does not depend on the bytes behind it.
pub read_uint32-append :
    (buffer more : Buffer) (p : ℕ) (b : Bool)
    → p + 4 ≤ length buffer
    → read_uint32 buffer (pos p) b ≡ read_uint32 (buffer ++ more) (pos p) b
unfolding read_uint32
read_uint32-append [] more p b h = absurd (omega arith)
read_uint32-append (x ∷ buffer) more (suc p) b h = read_uint32-append buffer more p b (omega arith)
read_uint32-append (x ∷ []) more zero b h = absurd (omega arith)
read_uint32-append (x ∷ y ∷ []) more zero b h = absurd (omega arith)
read_uint32-append (x ∷ y ∷ z ∷ []) more zero b h = absurd (omega arith)
read_uint32-append (x ∷ y ∷ z ∷ w ∷ buffer) more zero b h = refl

pub read_uint16-append :
    (buffer more : Buffer) (p : ℕ) (b : Bool)
    → p + 2 ≤ length buffer
    → read_uint16 buffer (pos p) b ≡ read_uint16 (buffer ++ more) (pos p) b
unfolding read_uint16
read_uint16-append [] more p b h = absurd (omega arith)
read_uint16-append (x ∷ buffer) more (suc p) b h = read_uint16-append buffer more p b (omega arith)
read_uint16-append (x ∷ []) more zero b h = absurd (omega arith)
read_uint16-append (x ∷ y ∷ buffer) more zero b h = refl

pub take-append : (bytes rest : List ℕ) → take (length bytes) (bytes ++ rest) ≡ bytes
take-append [] rest = refl
take-append (b ∷ bytes) rest = ap (◌∷◌ b) (take-append bytes rest)

-- The part of a buffer that stands between two others.
pub slice-append :
    (before bytes rest : List ℕ) (i j : ℕ)
    → i ≡ length before
    → j ≡ length before + length bytes
    → slice (before ++ (bytes ++ rest)) (pos i) (pos j) ≡ bytes
unfolding slice slice_index
slice-append before bytes rest i j e f =
    let n = length (before ++ (bytes ++ rest)) in
    let total : n ≡ length before + (length bytes + length rest) =
      omega (arith, length-append before (bytes ++ rest), length-append bytes rest) in
    let low : min i n ≡ length before = omega (arith, total, e) in
    let size : min j n - length before ≡ length bytes = omega (arith, total, f) in
    rw (low, size, drop-append before (bytes ++ rest), take-append bytes rest)

-- Two ways to split a buffer, of which the first goes further.
pub split-append :
    (xs more ys rest : List ℕ)
    → xs ++ more ≡ ys ++ rest
    → length ys ≤ length xs
    → (zs : List ℕ) × (xs ≡ ys ++ zs) × (zs ++ more ≡ rest)
split-append xs more [] rest e h = (xs, refl, e)
split-append [] more (y ∷ ys) rest e h = absurd (omega arith)
split-append (x ∷ xs) more (y ∷ ys) rest e h =
    let head : x ≡ y = cc in
    let tail : xs ++ more ≡ ys ++ rest = cc in
    let (zs, f, g) = split-append xs more ys rest tail (omega arith) in (zs, cc, g)
