-- ===== src/ObjectData/Fields.antt =====
-- serialization/ObjectData.ts: the methods for single values meet the contract of RoundTrips.
use hazelcast_nodejs_client.Prelude.{
  ℕ, ◌≡◌, ◌≤◌, ◌<◌, ◌^◌, refl, sym, Bool, true, false, List, [], ◌∷◌, ◌++◌, append_assoc, Option,
  none, some, arith, length, length-append, ◌>>◌, ℤ, pos, ◌+ℤ◌, if◌then◌else◌,
}
use hazelcast_nodejs_client.Buffers.{
  Buffer, fits16, fits32, word16, word32, bytes16, bytes32, read_uint8, read_uint16, read_int16,
  read_int32,
}
use hazelcast_nodejs_client.Buffers.Words.{
  read_uint8_after, read_uint16_after, read_int16_after, read_int32_after, length-bytes16,
  length-bytes32,
}
use hazelcast_nodejs_client.ObjectData.{Long}
use hazelcast_nodejs_client.ObjectData.Output.{
  Output, write_byte, write_boolean, write_char, write_short, write_int, write_long,
}
use hazelcast_nodejs_client.ObjectData.Growth.{Appends, placed, placed-Appends}
use hazelcast_nodejs_client.ObjectData.Input.{
  assert_available, read_field, read, read_boolean, read_char, read_short, read_int, read_long,
  read_two_ints,
}
use hazelcast_nodejs_client.ObjectData.RoundTrips.{
  Codes, stream, assert_available-stream, read_field-stream, write_byte-placed, write_char-placed,
  write_short-placed, write_int-placed, write_long-placed, long_bytes,
}

length-long_bytes : (long : Long) (b : Bool) → length (long_bytes long b) ≡ 8
unfolding bytes32
length-long_bytes long true = refl
length-long_bytes long false = refl

-- The two words of a long, in the order that they stand in.
abbrev long_words : Long → Bool → ℤ × ℤ
long_words long true = (long.high, long.low)
long_words long false = (long.low, long.high)

module _ (before rest : List ℕ) (offset : ℕ) where
  read_two_ints-stream :
      (first second : ℤ) (b : Bool)
      → fits32 first ≡ true
      → fits32 second ≡ true
      → read_two_ints
          (stream before ((bytes32 (word32 first) b ++ bytes32 (word32 second) b) ++ rest) offset b)
          (pos (length before))
        ≡ some (first, second)
  unfolding read_two_ints ◌+ℤ◌
  read_two_ints-stream first second b fits1 fits2 =
      let B = bytes32 (word32 first) b in
      let C = bytes32 (word32 second) b in
      let at : (pos (length before) +ℤ pos 4) ≡ pos (length (before ++ B)) =
        ground (arith, length-append before B, length-bytes32 (word32 first) b) in
      rw (
        append_assoc B C rest,
        read_int32_after (C ++ rest) before first b fits1,
        at,
        ← append_assoc before B (C ++ rest),
        read_int32_after rest (before ++ B) second b fits2,
      )

  -- What is asserted to be available is read.
  read_through :
      {A : Type 0} (bytes : List ℕ) (b : Bool) (size : ℕ) (field : ℤ → Option A) (v : A)
      → size ≡ length bytes
      → field (pos (length before)) ≡ some v
      → (assert_available size none (stream before (bytes ++ rest) offset b)
          >> read_field size field none (stream before (bytes ++ rest) offset b))
        ≡ some (v, stream (before ++ bytes) rest offset b)
  read_through bytes b size field v i e = rw (
    assert_available-stream before bytes rest offset b size (omega (arith, i)),
    read_field-stream before bytes rest offset b size field v i e,
  )

  read_long-stream :
      (long : Long) (b : Bool)
      → fits32 long.low ≡ true
      → fits32 long.high ≡ true
      → read_long none (stream before (long_bytes long b ++ rest) offset b)
        ≡ some (long, stream (before ++ long_bytes long b) rest offset b)
  unfolding read_long
  read_long-stream long true low high =
      let inp = stream before (long_bytes long true ++ rest) offset true in
      rw (
        assert_available-stream before (long_bytes long true) rest offset true 8
            (omega (arith, length-long_bytes long true)),
        read_field-stream before (long_bytes long true) rest offset true 8 (read_two_ints inp)
            (long.high, long.low) (sym (length-long_bytes long true))
            (read_two_ints-stream long.high long.low true high low),
      )
  read_long-stream long false low high =
      let inp = stream before (long_bytes long false ++ rest) offset false in
      rw (
        assert_available-stream before (long_bytes long false) rest offset false 8
            (omega (arith, length-long_bytes long false)),
        read_field-stream before (long_bytes long false) rest offset false 8 (read_two_ints inp)
            (long.low, long.high) (sym (length-long_bytes long false))
            (read_two_ints-stream long.low long.high false low high),
      )

  read-stream :
      (v : ℕ) (b : Bool)
      → read none (stream before (v ∷ rest) offset b)
        ≡ some (v, stream (before ++ v ∷ []) rest offset b)
  unfolding read
  read-stream v b =
      read_through (v ∷ []) b 1 (read_uint8 (before ++ (v ∷ rest))) v refl
        (read_uint8_after rest before v)

  read_boolean-stream :
      (v : Bool) (b : Bool)
      → read_boolean none (stream before ((if v then 1 else 0) ∷ rest) offset b)
        ≡ some (v, stream (before ++ (if v then 1 else 0) ∷ []) rest offset b)
  unfolding read_boolean
  read_boolean-stream true b = rw (read-stream 1 b)
  read_boolean-stream false b = rw (read-stream 0 b)

module _ (alloc_unsafe : ℕ → Buffer)
    (length-alloc_unsafe : (n : ℕ) → length (alloc_unsafe n) ≡ n) where
  codes_written :
      (m : Option Output) (size : ℕ) (bytes : List ℕ) (out : Output)
      → out.position ≤ length out.buffer
      → size ≡ length bytes
      → m ≡ some (placed alloc_unsafe size bytes out)
      → (after : Output) × (m ≡ some after) × Appends bytes out after
  codes_written m size bytes out h i e = (
    placed alloc_unsafe size bytes out,
    e,
    placed-Appends alloc_unsafe length-alloc_unsafe size out h bytes i,
  )

  pub int_Codes : Codes (write_int alloc_unsafe) read_int (λ z. fits32 z ≡ true)
  unfolding read_int
  int_Codes = record {
    bytes = λ z b. bytes32 (word32 z) b;
    writes = λ z out fits h.
        codes_written (write_int alloc_unsafe z out) 4 (bytes32 (word32 z) out.is_big_endian) out h
          (sym (length-bytes32 (word32 z) out.is_big_endian))
          (write_int-placed alloc_unsafe length-alloc_unsafe out h z fits);
    reads = λ z fits before rest offset b.
        read_through before rest offset (bytes32 (word32 z) b) b 4
          (λ p. read_int32 (before ++ (bytes32 (word32 z) b ++ rest)) p b) z
          (sym (length-bytes32 (word32 z) b)) (read_int32_after rest before z b fits);
  }

  pub short_Codes : Codes (write_short alloc_unsafe) read_short (λ z. fits16 z ≡ true)
  unfolding read_short
  short_Codes = record {
    bytes = λ z b. bytes16 (word16 z) b;
    writes = λ z out fits h.
        codes_written (write_short alloc_unsafe z out) 2 (bytes16 (word16 z) out.is_big_endian) out
          h (sym (length-bytes16 (word16 z) out.is_big_endian))
          (write_short-placed alloc_unsafe length-alloc_unsafe out h z fits);
    reads = λ z fits before rest offset b.
        read_through before rest offset (bytes16 (word16 z) b) b 2
          (λ p. read_int16 (before ++ (bytes16 (word16 z) b ++ rest)) p b) z
          (sym (length-bytes16 (word16 z) b)) (read_int16_after rest before z b fits);
  }

  pub char_Codes : Codes (write_char alloc_unsafe) read_char (λ v. v < 2 ^ 16)
  unfolding read_char
  char_Codes = record {
    bytes = λ v b. bytes16 v b;
    writes = λ v out fits h.
        codes_written (write_char alloc_unsafe v out) 2 (bytes16 v out.is_big_endian) out h
          (sym (length-bytes16 v out.is_big_endian))
          (write_char-placed alloc_unsafe length-alloc_unsafe out h v fits);
    reads = λ v fits before rest offset b.
        read_through before rest offset (bytes16 v b) b 2
          (λ p. read_uint16 (before ++ (bytes16 v b ++ rest)) p b) v (sym (length-bytes16 v b))
          (read_uint16_after rest before v b);
  }

  write_boolean-coded :
      (v : Bool) (out : Output)
      → out.position ≤ length out.buffer
      → (after : Output) × (write_boolean alloc_unsafe v out ≡ some after)
        × Appends ((if v then 1 else 0) ∷ []) out after
  unfolding write_boolean
  write_boolean-coded true out h =
      codes_written (write_byte alloc_unsafe (pos 1) out) 1 (1 ∷ []) out h refl
        (write_byte-placed alloc_unsafe length-alloc_unsafe out h 1 (omega arith))
  write_boolean-coded false out h =
      codes_written (write_byte alloc_unsafe (pos 0) out) 1 (0 ∷ []) out h refl
        (write_byte-placed alloc_unsafe length-alloc_unsafe out h 0 (omega arith))

  pub boolean_Codes : Codes (write_boolean alloc_unsafe) read_boolean (λ _. Unit)
  boolean_Codes = record {
    bytes = λ v _. (if v then 1 else 0) ∷ [];
    writes = λ v out _ h. write_boolean-coded v out h;
    reads = λ v _ before rest offset b. read_boolean-stream before rest offset v b;
  }

  pub long_Codes :
      Codes
        (write_long alloc_unsafe)
        read_long
        (λ long. (fits32 long.low ≡ true) × (fits32 long.high ≡ true))
  long_Codes = record {
    bytes = long_bytes;
    writes = λ long out (low, high) h.
        codes_written (write_long alloc_unsafe long out) 8 (long_bytes long out.is_big_endian) out h
          (sym (length-long_bytes long out.is_big_endian))
          (write_long-placed alloc_unsafe length-alloc_unsafe out h long out.is_big_endian refl low
            high);
    reads = λ long (low, high) before rest offset b.
        read_long-stream before rest offset long b low high;
  }
