-- ===== src/Codec/FixedSize.antt =====
-- codec/builtin/FixSizedTypesCodec.ts: values of a fixed size at an offset of a frame's buffer, in
-- little-endian order. A number that is written as a long, or read from one, is an integer here, which
-- is what the arithmetic on doubles comes to for safe integers, below 2 ^ 53; between that and 2 ^ 63
-- the source may lose precision.
use hazelcast_nodejs_client.Prelude.{
  ℕ, ◌+◌, ◌/◌, ◌%◌, ◌^◌, Bool, true, false, Option, none, some, leb, ◌==◌, if◌then◌else◌, ◌>>=◌, ℤ,
  pos, negsuc, ◌+ℤ◌, ◌*ℤ◌,
}
use hazelcast_nodejs_client.Buffers.{
  Buffer, write_uint8, write_int32, read_uint8, read_int16, read_int32, signed32, word32,
}
use hazelcast_nodejs_client.ObjectData.{Long}

module _ (buffer : Buffer) (offset : ℕ) where
  unfoldable pub encode_int : ℤ → Option Buffer
  encode_int value = write_int32 buffer offset value false

  unfoldable pub decode_int : Option ℤ
  decode_int = read_int32 buffer (pos offset) false

  unfoldable pub decode_short : Option ℤ
  decode_short = read_int16 buffer (pos offset) false

  unfoldable pub encode_long : Long → Option Buffer
  encode_long value = do
    once ← write_int32 buffer offset value.low false
    write_int32 once (offset + 4) value.high false

  unfoldable pub decode_long : Option Long
  decode_long = do
    low ← read_int32 buffer (pos offset) false
    high ← read_int32 buffer (pos (offset + 4)) false
    let value : Long = record { low = low; high = high }
    some value

  -- `value | 0` is the signed number of the low 32 bits.
  unfoldable pub encode_non_negative_number_as_long : ℤ → Option Buffer
  encode_non_negative_number_as_long (negsuc _) = none
  encode_non_negative_number_as_long (pos value) = elim (leb (2 ^ 63) (value + 1)) [
    | true ↦ do
      once ← write_int32 buffer offset (signed32 0xffff_ffff) false
      write_int32 once (offset + 4) (signed32 0x7fff_ffff) false
    | false ↦ do
      once ← write_int32 buffer offset (signed32 (value % 2 ^ 32)) false
      write_int32 once (offset + 4) (signed32 (value / 2 ^ 32 % 2 ^ 32)) false
  ]

  -- `low >>> 0` is the bit pattern of a signed number.
  unfoldable pub decode_number_from_long : Option ℤ
  decode_number_from_long = do
    low ← read_int32 buffer (pos offset) false
    high ← read_int32 buffer (pos (offset + 4)) false
    some (high *ℤ pos (2 ^ 32) +ℤ pos (word32 low))

  unfoldable pub encode_boolean : Bool → Option Buffer
  encode_boolean value = write_uint8 buffer offset (if value then 1 else 0)

  unfoldable pub decode_boolean : Option Bool
  decode_boolean = do byte ← read_uint8 buffer (pos offset); some (byte == 1)

  unfoldable pub encode_byte : ℕ → Option Buffer
  encode_byte value = write_uint8 buffer offset value

  unfoldable pub decode_byte : Option ℕ
  decode_byte = read_uint8 buffer (pos offset)

-- A UUID is its most and least significant halves.
unfoldable pub encode_uuid : Buffer → ℕ → Option (Long × Long) → Option Buffer
encode_uuid buffer offset none = encode_boolean buffer offset true
encode_uuid buffer offset (some (most_significant, least_significant)) = do
  flagged ← encode_boolean buffer offset false
  half ← encode_long flagged (offset + 1) most_significant
  encode_long half (offset + 1 + 8) least_significant

unfoldable pub decode_uuid : Buffer → ℕ → Option (Option (Long × Long))
decode_uuid buffer offset = do
  is_null ← decode_boolean buffer offset
  elim is_null [
    | true ↦ some none
    | false ↦ do
      most_significant ← decode_long buffer (offset + 1)
      least_significant ← decode_long buffer (offset + 1 + 8)
      some (some (most_significant, least_significant))
  ]
