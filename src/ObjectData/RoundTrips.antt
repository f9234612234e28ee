-- ===== src/ObjectData/RoundTrips.antt =====
-- serialization/ObjectData.ts: what one stream writes, the other reads. `Codes` is the contract of a
-- pair of methods, which each pair meets and the arrays of ObjectData/Arrays.antt take.
use hazelcast_nodejs_client.Prelude.{
  ℕ, ◌+◌, ◌≡◌, ◌≤◌, ◌<◌, ◌^◌, refl, ap, sym, ◌∙◌, Bool, true, false, List, [], ◌∷◌, ◌++◌,
  append_assoc, Option, none, some, arith, length, length-append, ℤ, pos, ◌+ℤ◌, lt→ltb, ◌%◌,
}
use hazelcast_nodejs_client.Buffers.{
  Buffer, fits16, fits32, word16, word32, bytes16, bytes32, overwrite, write_uint8, write_uint16,
  write_int16, write_int32,
}
use hazelcast_nodejs_client.Buffers.Words.{
  overwrite-overwrite, length-overwrite, write_bytes-eq, length-bytes16, length-bytes32,
}
use hazelcast_nodejs_client.ObjectData.{Long, mask_1byte}
use hazelcast_nodejs_client.ObjectData.Output.{
  Output, ensure_available, write_byte, write_buffer, write_char, write_short, write_int,
  write_long,
}
use hazelcast_nodejs_client.ObjectData.Growth.{
  Appends, placed, write_bytes-ensure_available, ensure_available-Grows,
}
use hazelcast_nodejs_client.ObjectData.Input.{
  Input, assert_available, advance, position_or, read_field,
}

-- A stream that stands between the bytes read and those to come.
abbrev pub stream : List ℕ → List ℕ → ℕ → Bool → Input
stream before rest offset is_big_endian = record {
  buffer = before ++ rest;
  offset = offset;
  is_big_endian = is_big_endian;
  position = pos (length before);
}

pub record Codes {A : Type 0} (write : A → Output → Option Output)
    (read_back : Option ℤ → Input → Option (A × Input)) (IsValid : A → Type 0) : Type 0 where
  pub bytes : A → Bool → List ℕ
  pub writes :
      (a : A) (out : Output)
      → IsValid a
      → out.position ≤ length out.buffer
      → (after : Output) × (write a out ≡ some after)
        × Appends (bytes a out.is_big_endian) out after
  pub reads :
      (a : A)
      → IsValid a
      → (before rest : List ℕ) (offset : ℕ) (b : Bool)
      → read_back none (stream before (bytes a b ++ rest) offset b)
        ≡ some (a, stream (before ++ bytes a b) rest offset b)

module _ (before bytes rest : List ℕ) (offset : ℕ) (b : Bool) where
  pub advance-stream :
      (size : ℕ)
      → size ≡ length bytes
      → advance (pos size) (stream before (bytes ++ rest) offset b)
        ≡ stream (before ++ bytes) rest offset b
  unfolding advance ◌+ℤ◌
  advance-stream size i = rw (append_assoc before bytes rest) (
      ap
        (λ p. record {
          buffer = before ++ (bytes ++ rest);
          offset = offset;
          is_big_endian = b;
          position = p;
        })
        (ground (arith, length-append before bytes)))

  pub assert_available-stream :
      (size : ℕ)
      → size ≤ length bytes
      → assert_available size none (stream before (bytes ++ rest) offset b) ≡ some tt
  unfolding assert_available position_or ◌+ℤ◌
  assert_available-stream size h =
      ground (arith, length-append before (bytes ++ rest), length-append bytes rest)

  pub read_field-stream :
      {A : Type 0} (size : ℕ) (field : ℤ → Option A) (v : A)
      → size ≡ length bytes
      → field (pos (length before)) ≡ some v
      → read_field size field none (stream before (bytes ++ rest) offset b)
        ≡ some (v, stream (before ++ bytes) rest offset b)
  unfolding read_field
  read_field-stream size field v i e = rw (e, advance-stream size i)

-- Each method writes the bytes of its field at the position.
module _ (alloc_unsafe : ℕ → Buffer) (length-alloc_unsafe : (n : ℕ) → length (alloc_unsafe n) ≡ n)
    (out : Output) (h : out.position ≤ length out.buffer) where
  pub write_short-placed :
      (z : ℤ)
      → fits16 z ≡ true
      → write_short alloc_unsafe z out
        ≡ some (placed alloc_unsafe 2 (bytes16 (word16 z) out.is_big_endian) out)
  unfolding write_short write_int16 placed
  write_short-placed z fits =
      let G = ensure_available-Grows alloc_unsafe length-alloc_unsafe 2 out h in
      rw (
        fits,
        G.same_order,
        write_bytes-ensure_available alloc_unsafe length-alloc_unsafe 2 out h
            (bytes16 (word16 z) out.is_big_endian)
            (sym (length-bytes16 (word16 z) out.is_big_endian)),
      )

  pub write_int-placed :
      (z : ℤ)
      → fits32 z ≡ true
      → write_int alloc_unsafe z out
        ≡ some (placed alloc_unsafe 4 (bytes32 (word32 z) out.is_big_endian) out)
  unfolding write_int write_int32 placed
  write_int-placed z fits =
      let G = ensure_available-Grows alloc_unsafe length-alloc_unsafe 4 out h in
      rw (
        fits,
        G.same_order,
        write_bytes-ensure_available alloc_unsafe length-alloc_unsafe 4 out h
            (bytes32 (word32 z) out.is_big_endian)
            (sym (length-bytes32 (word32 z) out.is_big_endian)),
      )

  pub write_char-placed :
      (v : ℕ)
      → v < 2 ^ 16
      → write_char alloc_unsafe v out
        ≡ some (placed alloc_unsafe 2 (bytes16 v out.is_big_endian) out)
  unfolding write_char write_uint16 placed
  write_char-placed v fits =
      let G = ensure_available-Grows alloc_unsafe length-alloc_unsafe 2 out h in
      rw (
        lt→ltb v (2 ^ 16) fits,
        G.same_order,
        write_bytes-ensure_available alloc_unsafe length-alloc_unsafe 2 out h
            (bytes16 v out.is_big_endian) (sym (length-bytes16 v out.is_big_endian)),
      )

  pub write_byte-placed :
      (v : ℕ)
      → v < 2 ^ 8
      → write_byte alloc_unsafe (pos v) out ≡ some (placed alloc_unsafe 1 (v ∷ []) out)
  unfolding write_byte write_uint8 placed mask_1byte
  write_byte-placed v fits =
      let low : v % 2 ^ 8 ≡ v = omega arith in
      rw (
        low,
        lt→ltb v (2 ^ 8) fits,
        write_bytes-ensure_available alloc_unsafe length-alloc_unsafe 1 out h (v ∷ []) refl,
      )

  pub write_buffer-placed :
      (bytes : Buffer)
      → write_buffer alloc_unsafe bytes out ≡ some (placed alloc_unsafe (length bytes) bytes out)
  unfolding write_buffer placed
  write_buffer-placed bytes = refl

  -- Two fields of 32 bits, one behind the other.
  module _ (first second : ℤ) (b : Bool) (fits1 : fits32 first ≡ true)
      (fits2 : fits32 second ≡ true) where
    pub two_ints-placed :
        let grown = ensure_available alloc_unsafe 8 out in
        let once = overwrite grown.buffer grown.position (bytes32 (word32 first) b) in
        (write_int32 grown.buffer grown.position first b ≡ some once)
        × (write_int32 once (grown.position + 4) second b
            ≡ some (
                overwrite grown.buffer grown.position
                  (bytes32 (word32 first) b ++ bytes32 (word32 second) b)))
    unfolding write_int32
    two_ints-placed =
        let g = ensure_available alloc_unsafe 8 out in
        let G = ensure_available-Grows alloc_unsafe length-alloc_unsafe 8 out h in
        let B = bytes32 (word32 first) b in
        let C = bytes32 (word32 second) b in
        let i = length-bytes32 (word32 first) b in
        let j = length-bytes32 (word32 second) b in
        let l = length-overwrite g.buffer g.position B in
        (
          rw (
            fits1,
            write_bytes-eq g.buffer g.position B (omega (arith, G.room, G.same_position, i)),
          ),
          rw (
            fits2,
            write_bytes-eq (overwrite g.buffer g.position B) (g.position + 4) C
                (omega (arith, G.room, G.same_position, i, j, l)),
            overwrite-overwrite g.buffer g.position B C (g.position + 4) (omega (arith, i)),
          ),
        )

-- The words of a long stand in the order of their bytes.
abbrev pub long_bytes : Long → Bool → List ℕ
long_bytes long true = bytes32 (word32 long.high) true ++ bytes32 (word32 long.low) true
long_bytes long false = bytes32 (word32 long.low) false ++ bytes32 (word32 long.high) false

module _ (alloc_unsafe : ℕ → Buffer) (length-alloc_unsafe : (n : ℕ) → length (alloc_unsafe n) ≡ n)
    (out : Output) (h : out.position ≤ length out.buffer) where
  pub write_long-placed :
      (long : Long) (b : Bool)
      → out.is_big_endian ≡ b
      → fits32 long.low ≡ true
      → fits32 long.high ≡ true
      → write_long alloc_unsafe long out ≡ some (placed alloc_unsafe 8 (long_bytes long b) out)
  unfolding write_long placed
  write_long-placed long true e low high =
      let g = ensure_available alloc_unsafe 8 out in
      let G = ensure_available-Grows alloc_unsafe length-alloc_unsafe 8 out h in
      let sum : g.position + 4 + 4 ≡ g.position + 8 = omega arith in
      let (once, twice) =
        two_ints-placed alloc_unsafe length-alloc_unsafe out h long.high long.low true high low in
      rw (G.same_order ∙ e, once, twice, sum)
  write_long-placed long false e low high =
      let g = ensure_available alloc_unsafe 8 out in
      let G = ensure_available-Grows alloc_unsafe length-alloc_unsafe 8 out h in
      let sum : g.position + 4 + 4 ≡ g.position + 8 = omega arith in
      let (once, twice) =
        two_ints-placed alloc_unsafe length-alloc_unsafe out h long.low long.high false low high in
      rw (G.same_order ∙ e, once, twice, sum)
