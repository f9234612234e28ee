-- ===== src/ObjectData/Texts.antt =====
-- serialization/ObjectData.ts: strings and byte arrays, which stand behind their length.
use hazelcast_nodejs_client.Prelude.{
  ℕ, suc, ◌+◌, ◌-◌, ◌≡◌, ◌≤◌, ◌<◌, ◌^◌, refl, Bool, List, [], ◌∷◌, ◌++◌, append_assoc, Option, none,
  some, arith, lt→ltb, length, ◌>>=◌, pos, negsuc, ◌+ℤ◌,
}
use hazelcast_nodejs_client.Buffers.{Buffer, fits32, slice}
use hazelcast_nodejs_client.Buffers.Words.{drop-append, take-append, slice-append}
use hazelcast_nodejs_client.ObjectData.Output.{
  Output, write_int, array_length, write_buffer, write_byte_array, write_string,
}
use hazelcast_nodejs_client.ObjectData.Growth.{Appends, placed, placed-Appends}
use hazelcast_nodejs_client.ObjectData.Input.{
  read_byte_array, read_string, text_bytes, text_position, move_to, settle,
}
use hazelcast_nodejs_client.ObjectData.RoundTrips.{
  Codes, stream, write_buffer-placed, advance-stream,
}
use hazelcast_nodejs_client.ObjectData.Fields.{int_Codes}
use hazelcast_nodejs_client.ObjectData.Arrays.{Appends-trans, Appends-nil}

module _ (before bytes rest : List ℕ) where
  text_bytes-append :
      text_bytes
        (before ++ (bytes ++ rest))
        (pos (length before))
        (pos (length before) +ℤ pos (length bytes))
      ≡ bytes
  unfolding text_bytes ◌+ℤ◌
  text_bytes-append =
      let end : (pos (length before) +ℤ pos (length bytes)) ≡ pos (length before + length bytes) =
        ground arith in
      let size : length before + length bytes - length before ≡ length bytes = omega arith in
      rw (end, text_bytes, size, drop-append before (bytes ++ rest), take-append bytes rest)

  slice-append_sum :
      slice
        (before ++ (bytes ++ rest))
        (pos (length before))
        (pos (length before) +ℤ pos (length bytes))
      ≡ bytes
  unfolding ◌+ℤ◌
  slice-append_sum =
      let end : (pos (length before) +ℤ pos (length bytes)) ≡ pos (length before + length bytes) =
        ground arith in
      rw (end)
        (slice-append before bytes rest (length before) (length before + length bytes) refl refl)

abbrev pub IsShort : Option Buffer → Type 0
IsShort none = Unit
IsShort (some bytes) = length bytes < 2 ^ 31

abbrev pub encoded : {Str : Type 0} → (Str → Buffer) → Option Str → Option Buffer
encoded encode none = none
encoded encode (some s) = some (encode s)

module _ (alloc_unsafe : ℕ → Buffer)
    (length-alloc_unsafe : (n : ℕ) → length (alloc_unsafe n) ≡ n) where
  -- The bytes behind their length.
  abbrev pub counted_bytes : Option Buffer → Bool → List ℕ
  counted_bytes none b = (int_Codes alloc_unsafe length-alloc_unsafe).bytes (negsuc 0) b
  counted_bytes (some bytes) b =
      (int_Codes alloc_unsafe length-alloc_unsafe).bytes (pos (length bytes)) b ++ bytes

  write_counted :
      (bytes : Buffer) (out : Output)
      → length bytes < 2 ^ 31
      → out.position ≤ length out.buffer
      → (after : Output) × ((write_int alloc_unsafe (pos (length bytes)) out
            >>= write_buffer alloc_unsafe bytes)
          ≡ some after)
        × Appends (counted_bytes (some bytes) out.is_big_endian) out after
  unfolding fits32
  write_counted bytes out short h =
      let (next, e, p) =
        (int_Codes alloc_unsafe length-alloc_unsafe).writes (pos (length bytes)) out
          (lt→ltb (length bytes) (2 ^ 31) short) h in
      (
        placed alloc_unsafe (length bytes) bytes next,
        rw (e) (write_buffer-placed alloc_unsafe length-alloc_unsafe next (p.sound) bytes),
        Appends-trans p (
            placed-Appends alloc_unsafe length-alloc_unsafe (length bytes) next (p.sound) bytes
              refl),
      )

  write_byte_array-coded :
      (bytes : Option Buffer) (out : Output)
      → IsShort bytes
      → out.position ≤ length out.buffer
      → (after : Output) × (write_byte_array alloc_unsafe bytes out ≡ some after)
        × Appends (counted_bytes bytes out.is_big_endian) out after
  unfolding write_byte_array array_length fits32
  write_byte_array-coded none out _ h =
      (int_Codes alloc_unsafe length-alloc_unsafe).writes (negsuc 0) out refl h
  write_byte_array-coded (some []) out short h =
      let (next, e, p) = (int_Codes alloc_unsafe length-alloc_unsafe).writes (pos 0) out refl h in
      (next, rw (e), Appends-trans p (Appends-nil next (p.sound)))
  write_byte_array-coded (some (x ∷ bytes)) out short h =
      let some_bytes : 0 < suc (length bytes) = omega arith in
      rw (lt→ltb 0 (suc (length bytes)) some_bytes) (write_counted (x ∷ bytes) out short h)

  read_byte_array-stream :
      (bytes : Option Buffer)
      → IsShort bytes
      → (before rest : List ℕ) (offset : ℕ) (b : Bool)
      → read_byte_array none (stream before (counted_bytes bytes b ++ rest) offset b)
        ≡ some (bytes, stream (before ++ counted_bytes bytes b) rest offset b)
  unfolding read_byte_array move_to settle fits32
  read_byte_array-stream none _ before rest offset b =
      rw ((int_Codes alloc_unsafe length-alloc_unsafe).reads (negsuc 0) refl before rest offset b)
  read_byte_array-stream (some bytes) short before rest offset b =
      let B = (int_Codes alloc_unsafe length-alloc_unsafe).bytes (pos (length bytes)) b in
      rw (
        append_assoc B bytes rest,
        (int_Codes alloc_unsafe length-alloc_unsafe).reads (pos (length bytes))
            (lt→ltb (length bytes) (2 ^ 31) short) before (bytes ++ rest) offset b,
        slice-append_sum (before ++ B) bytes rest,
        advance-stream (before ++ B) bytes rest offset b (length bytes) refl,
        append_assoc before B bytes,
      )

  pub byte_array_Codes : Codes (write_byte_array alloc_unsafe) read_byte_array IsShort
  byte_array_Codes = record {
    bytes = counted_bytes;
    writes = λ bytes out short h. write_byte_array-coded bytes out short h;
    reads =
        λ bytes short before rest offset b. read_byte_array-stream bytes short before rest offset b;
  }

  module _ {Str : Type 0} (encode : Str → Buffer) (decode : Buffer → Str)
      (decode-encode : (s : Str) → decode (encode s) ≡ s) where
    write_string-coded :
        (val : Option Str) (out : Output)
        → IsShort (encoded encode val)
        → out.position ≤ length out.buffer
        → (after : Output) × (write_string alloc_unsafe encode val out ≡ some after)
          × Appends (counted_bytes (encoded encode val) out.is_big_endian) out after
    unfolding write_string array_length fits32
    write_string-coded none out _ h =
        (int_Codes alloc_unsafe length-alloc_unsafe).writes (negsuc 0) out refl h
    write_string-coded (some s) out short h = write_counted (encode s) out short h

    read_string-stream :
        (val : Option Str)
        → IsShort (encoded encode val)
        → (before rest : List ℕ) (offset : ℕ) (b : Bool)
        → read_string decode none
            (stream before (counted_bytes (encoded encode val) b ++ rest) offset b)
          ≡ some (val, stream (before ++ counted_bytes (encoded encode val) b) rest offset b)
    unfolding read_string text_position fits32
    read_string-stream none _ before rest offset b =
        rw ((int_Codes alloc_unsafe length-alloc_unsafe).reads (negsuc 0) refl before rest offset b)
    read_string-stream (some s) short before rest offset b =
        let bytes = encode s in
        let B = (int_Codes alloc_unsafe length-alloc_unsafe).bytes (pos (length bytes)) b in
        rw (
          append_assoc B bytes rest,
          (int_Codes alloc_unsafe length-alloc_unsafe).reads (pos (length bytes))
              (lt→ltb (length bytes) (2 ^ 31) short) before (bytes ++ rest) offset b,
          text_bytes-append (before ++ B) bytes rest,
          decode-encode s,
          advance-stream (before ++ B) bytes rest offset b (length bytes) refl,
          append_assoc before B bytes,
        )

    pub string_Codes :
        Codes
          (write_string alloc_unsafe encode)
          (read_string decode)
          (λ val. IsShort (encoded encode val))
    string_Codes = record {
      bytes = λ val b. counted_bytes (encoded encode val) b;
      writes = λ val out short h. write_string-coded val out short h;
      reads = λ val short before rest offset b. read_string-stream val short before rest offset b;
    }
