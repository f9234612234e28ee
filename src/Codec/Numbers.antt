-- ===== src/Codec/Numbers.antt =====
-- codec/builtin/FixSizedTypesCodec.ts: longs and numbers are decoded from where they were encoded.
use hazelcast_nodejs_client.Prelude.{
  ℕ, zero, suc, ◌+◌, ◌-◌, ◌/◌, ◌%◌, ◌^◌, ◌≡◌, ◌≤◌, ◌<◌, ◌⊎◌, min, refl, ap, subst, true, false,
  List, [], ◌∷◌, ◌++◌, append_assoc, Option, none, some, arith, leb, inl, inr, length,
  length-append, take, drop, ◌>>=◌, ℤ, pos, negsuc, ◌+ℤ◌, ◌*ℤ◌,
}
use hazelcast_nodejs_client.Buffers.{
  Buffer, overwrite, write_int32, read_int32, fits32, signed32, word32, bytes32,
}
use hazelcast_nodejs_client.Buffers.Words.{
  overwrite-overwrite, length-overwrite, write_bytes-eq, length-bytes32, length-take,
  read_int32_after,
}
use hazelcast_nodejs_client.ObjectData.{Long}
use hazelcast_nodejs_client.Codec.FixedSize.{
  encode_long, decode_long, encode_non_negative_number_as_long, decode_number_from_long,
}

-- A write replaces the bytes of its place.
pub overwrite-split :
    (buffer : Buffer) (p : ℕ) (bytes : List ℕ) (e : ℕ)
    → e ≡ p + length bytes
    → e ≤ length buffer
    → overwrite buffer p bytes ≡ take p buffer ++ (bytes ++ drop e buffer)
unfolding overwrite
overwrite-split [] zero [] zero i h = refl
overwrite-split (b ∷ buffer) zero [] zero i h = refl
overwrite-split buffer zero (x ∷ bytes) zero i h = absurd (omega arith)
overwrite-split buffer (suc p) bytes zero i h = absurd (omega arith)
overwrite-split [] p bytes (suc e) i h = absurd (omega arith)
overwrite-split (b ∷ buffer) zero [] (suc e) i h = absurd (omega arith)
overwrite-split (b ∷ buffer) zero (x ∷ bytes) (suc e) i h =
    ap (◌∷◌ x) (overwrite-split buffer 0 bytes e (omega arith) (omega arith))
overwrite-split (b ∷ buffer) (suc p) bytes (suc e) i h =
    ap (◌∷◌ b) (overwrite-split buffer p bytes e (omega arith) (omega arith))

module _ (buffer : Buffer) (offset : ℕ) (h : offset + 8 ≤ length buffer) (low high : ℤ)
    (fits_low : fits32 low ≡ true) (fits_high : fits32 high ≡ true) where
  abbrev pub two_words : Buffer
  two_words = overwrite buffer offset (bytes32 (word32 low) false ++ bytes32 (word32 high) false)

  pub write_two_words :
      (write_int32 buffer offset low false >>= λ once. write_int32 once (offset + 4) high false)
      ≡ some two_words
  unfolding write_int32
  write_two_words =
      let B = bytes32 (word32 low) false in
      let C = bytes32 (word32 high) false in
      let i = length-bytes32 (word32 low) false in
      let j = length-bytes32 (word32 high) false in
      rw (
        fits_low,
        write_bytes-eq buffer offset B (omega (arith, i)),
        fits_high,
        write_bytes-eq (overwrite buffer offset B) (offset + 4) C
            (omega (arith, i, j, length-overwrite buffer offset B)),
        overwrite-overwrite buffer offset B C (offset + 4) (omega (arith, i)),
      )

  pub read_two_words :
      (read_int32 two_words (pos offset) false ≡ some low)
      × (read_int32 two_words (pos (offset + 4)) false ≡ some high)
  read_two_words =
      let B = bytes32 (word32 low) false in
      let C = bytes32 (word32 high) false in
      let i = length-bytes32 (word32 low) false in
      let j = length-bytes32 (word32 high) false in
      let before = take offset buffer in
      let rest = drop (offset + 8) buffer in
      let at = length-take offset buffer (omega arith) in
      let split =
        overwrite-split buffer offset (B ++ C) (offset + 8) (omega (arith, length-append B C, i, j))
          h in
      let at2 : length (before ++ B) ≡ offset + 4 = omega (arith, length-append before B, at, i) in
      (
        rw (split, append_assoc B C rest)
            (subst (λ p. read_int32 (before ++ (B ++ (C ++ rest))) (pos p) false ≡ some low) at
              (read_int32_after (C ++ rest) before low false fits_low)),
        rw (split, append_assoc B C rest, ← append_assoc before B (C ++ rest))
            (subst (λ p. read_int32 ((before ++ B) ++ (C ++ rest)) (pos p) false ≡ some high) at2
              (read_int32_after rest (before ++ B) high false fits_high)),
      )

signed32-fits32 : (w : ℕ) → w < 2 ^ 32 → fits32 (signed32 w) ≡ true
unfolding signed32 fits32
signed32-fits32 w h = ground arith

word32-signed32 : (w : ℕ) → w < 2 ^ 32 → word32 (signed32 w) ≡ w
unfolding signed32 word32
word32-signed32 w h = ground arith

-- Where 8 bytes fit at the offset, an encoded long is decoded.
pub decode_long-encode_long :
    (buffer : Buffer) (offset : ℕ) (value : Long)
    → offset + 8 ≤ length buffer
    → fits32 value.low ≡ true
    → fits32 value.high ≡ true
    → (after : Buffer) × (encode_long buffer offset value ≡ some after)
      × (length after ≡ length buffer)
      × (decode_long after offset ≡ some value)
unfolding encode_long decode_long
decode_long-encode_long buffer offset value h low high =
    let (first, second) = read_two_words buffer offset h value.low value.high low high in
    (
      two_words buffer offset h value.low value.high low high,
      write_two_words buffer offset h value.low value.high low high,
      length-overwrite buffer offset
          (bytes32 (word32 value.low) false ++ bytes32 (word32 value.high) false),
      rw (first, second),
    )

-- The long of an integer below 2 ^ 63.
abbrev pub long_of : ℕ → Long
long_of n = record { low = signed32 (n % 2 ^ 32); high = signed32 (n / 2 ^ 32 % 2 ^ 32) }

-- What the encoder promises: no negative numbers, and the greatest long where there is none.
abbrev pub saturated : ℤ → Option Long
saturated (negsuc _) = none
saturated (pos n) = some (long_of (min n (2 ^ 63 - 1)))

module _ (buffer : Buffer) (offset : ℕ) (h : offset + 8 ≤ length buffer) where
  -- Two bit patterns, written and decoded as a long.
  patterns-decode_long :
      (low high : ℕ)
      → low < 2 ^ 32
      → high < 2 ^ 32
      → (write_int32 buffer offset (signed32 low) false
          >>= (λ once. write_int32 once (offset + 4) (signed32 high) false)
          >>= λ after. decode_long after offset)
        ≡ some (record { low = signed32 low; high = signed32 high })
  unfolding decode_long
  patterns-decode_long low high p q =
      let l = signed32-fits32 low p in
      let m = signed32-fits32 high q in
      let (first, second) = read_two_words buffer offset h (signed32 low) (signed32 high) l m in
      rw (write_two_words buffer offset h (signed32 low) (signed32 high) l m, first, second)

number_of_words :
    (n : ℕ)
    → n ≤ 2 ^ 53
    → (signed32 (n / 2 ^ 32 % 2 ^ 32) *ℤ pos (2 ^ 32) +ℤ pos (n % 2 ^ 32)) ≡ pos n
unfolding signed32 ◌*ℤ◌ ◌+ℤ◌
number_of_words n exact = ground arith

-- The numbers at which the arithmetic on doubles comes to that on integers: negative ones, which are
-- refused, safe integers, and those from 2 ^ 63 on, which are only compared.
abbrev pub IsExact : ℤ → Type 0
IsExact (negsuc _) = Unit
IsExact (pos n) = (n ≤ 2 ^ 53 - 1) ⊎ (2 ^ 63 ≤ n)

-- Where 8 bytes fit at the offset, encoding a safe integer as a long and decoding it gives the long of
-- the integer; a number from 2 ^ 63 on gives the greatest long, and a negative one is refused.
pub decode_long-encode_non_negative_number_as_long :
    (buffer : Buffer) (offset : ℕ) (value : ℤ)
    → offset + 8 ≤ length buffer
    → IsExact value
    → (encode_non_negative_number_as_long buffer offset value >>= λ after. decode_long after offset)
      ≡ saturated value
unfolding encode_non_negative_number_as_long
decode_long-encode_non_negative_number_as_long buffer offset (negsuc n) h exact = refl
decode_long-encode_non_negative_number_as_long buffer offset (pos n) h (inr huge) =
    let e : leb (2 ^ 63) (n + 1) ≡ true = ground arith in
    let big : min n (2 ^ 63 - 1) ≡ 2 ^ 63 - 1 = ground arith in
    rw (encode_non_negative_number_as_long, e, big)
      (patterns-decode_long buffer offset h 0xffff_ffff 0x7fff_ffff (omega arith) (omega arith))
decode_long-encode_non_negative_number_as_long buffer offset (pos n) h (inl safe) =
    let e : leb (2 ^ 63) (n + 1) ≡ false = ground arith in
    let small : min n (2 ^ 63 - 1) ≡ n = ground arith in
    rw (encode_non_negative_number_as_long, e, small)
      (patterns-decode_long buffer offset h (n % 2 ^ 32) (n / 2 ^ 32 % 2 ^ 32) (omega arith)
        (omega arith))

-- Up to 2 ^ 53, where doubles are exact, the number itself is decoded.
pub decode_number_from_long-encode_non_negative_number_as_long :
    (buffer : Buffer) (offset : ℕ) (n : ℕ)
    → offset + 8 ≤ length buffer
    → n ≤ 2 ^ 53
    → (encode_non_negative_number_as_long buffer offset (pos n) >>= λ after.
        decode_number_from_long after offset)
      ≡ some (pos n)
unfolding encode_non_negative_number_as_long decode_number_from_long
decode_number_from_long-encode_non_negative_number_as_long buffer offset n h exact =
    let low = n % 2 ^ 32 in
    let high = n / 2 ^ 32 % 2 ^ 32 in
    let l = signed32-fits32 low (omega arith) in
    let m = signed32-fits32 high (omega arith) in
    let e : leb (2 ^ 63) (n + 1) ≡ false = ground arith in
    let (first, second) = read_two_words buffer offset h (signed32 low) (signed32 high) l m in
    let w = word32-signed32 low (omega arith) in
    rw (
      encode_non_negative_number_as_long,
      e,
      write_two_words buffer offset h (signed32 low) (signed32 high) l m,
      first,
      second,
      w,
      number_of_words n exact,
    )
