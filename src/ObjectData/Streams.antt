-- ===== src/ObjectData/Streams.antt =====
-- serialization/ObjectData.ts: a value that is written into an output is read from its buffer.
use hazelcast_nodejs_client.Prelude.{
  ℕ, ◌≡◌, ◌≤◌, ap, sym, ◌∙◌, Bool, true, List, ◌++◌, append_assoc, Option, none, some, length, ℤ,
  pos, arith, length-append,
}
use hazelcast_nodejs_client.Buffers.{Buffer, fits32}
use hazelcast_nodejs_client.Buffers.Words.{length-take}
use hazelcast_nodejs_client.ObjectData.{Long}
use hazelcast_nodejs_client.ObjectData.Output.{
  Output, to_buffer, write_long_array, write_string_array,
}
use hazelcast_nodejs_client.ObjectData.Input.{Input, read_long_array, read_string_array}
use hazelcast_nodejs_client.ObjectData.RoundTrips.{Codes}
use hazelcast_nodejs_client.ObjectData.Fields.{long_Codes}
use hazelcast_nodejs_client.ObjectData.Arrays.{write_array-Codes, IsArray}
use hazelcast_nodejs_client.ObjectData.Texts.{string_Codes, IsShort, encoded}

-- An input on what an output holds, followed by other bytes.
abbrev pub input_at : ℕ → Output → List ℕ → ℕ → Input
input_at position out rest offset = record {
  buffer = to_buffer out ++ rest;
  offset = offset;
  is_big_endian = out.is_big_endian;
  position = pos position;
}

-- Inputs are equal when what they read and where they stand are.
input_eq :
    {buffer buffer' : Buffer} {b b' : Bool} {m n : ℕ} (offset : ℕ)
    → buffer ≡ buffer'
    → b ≡ b'
    → m ≡ n
    → let first : Input = record {
      buffer = buffer;
      offset = offset;
      is_big_endian = b;
      position = pos m;
    } in
      let second : Input = record {
        buffer = buffer';
        offset = offset;
        is_big_endian = b';
        position = pos n;
      } in
      first ≡ second
input_eq offset e f g = rw (e, f, g)

module _ {A : Type 0} {write : A → Output → Option Output}
    {read_back : Option ℤ → Input → Option (A × Input)} {IsValid : A → Type 0}
    (c : Codes write read_back IsValid) (a : A) (out : Output) (valid : IsValid a)
    (h : out.position ≤ length out.buffer) (rest : List ℕ) (offset : ℕ) where
  pub Codes-read_back :
      (after : Output) × (write a out ≡ some after)
      × (to_buffer after ≡ to_buffer out ++ c.bytes a out.is_big_endian)
      × (read_back none (input_at out.position after rest offset)
          ≡ some (a, input_at after.position after rest offset))
  unfolding to_buffer
  Codes-read_back =
      let (after, e, p) = c.writes a out valid h in
      let B = c.bytes a out.is_big_endian in
      let i : out.position ≡ length (to_buffer out) = sym (length-take out.position out.buffer h) in
      let j : after.position ≡ length (to_buffer out ++ B) =
        omega (arith, length-append (to_buffer out) B, i, p.moved) in
      let assoc = ap (λ c. c ++ rest) p.contents ∙ append_assoc (to_buffer out) B rest in
      (
        after,
        e,
        p.contents,
        ap (read_back none) (input_eq offset assoc p.same_order i)
            ∙ c.reads a valid (to_buffer out) rest offset out.is_big_endian
            ∙ ap (λ inp. some (a, inp))
                (sym (input_eq offset (ap (λ c. c ++ rest) p.contents) p.same_order j)),
      )

module _ (alloc_unsafe : ℕ → Buffer)
    (length-alloc_unsafe : (n : ℕ) → length (alloc_unsafe n) ≡ n) where
  -- In an output whose position lies in its buffer, `writeLongArray` of no array, or of fewer than
  -- 2 ^ 31 longs, succeeds whatever the buffer's size and byte order; what was written before stays;
  -- and `readLongArray` of a stream on the new contents, followed by any bytes, gives the array back
  -- and moves to where the output stands. New memory may hold anything, but has the size asked for.
  pub write_long_array-read_long_array :
      (arr : Option (List Long)) (out : Output)
      → IsArray (λ long. (fits32 long.low ≡ true) × (fits32 long.high ≡ true)) arr
      → out.position ≤ length out.buffer
      → (rest : List ℕ) (offset : ℕ)
      → (after : Output) × (bytes : List ℕ) × (write_long_array alloc_unsafe arr out ≡ some after)
        × (to_buffer after ≡ to_buffer out ++ bytes)
        × (read_long_array none (input_at out.position after rest offset)
            ≡ some (arr, input_at after.position after rest offset))
  unfolding write_long_array read_long_array
  write_long_array-read_long_array arr out valid h rest offset =
      let c =
        write_array-Codes alloc_unsafe length-alloc_unsafe
          (long_Codes alloc_unsafe length-alloc_unsafe) in
      let (after, e, contents, reads) = Codes-read_back c arr out valid h rest offset in
      (after, c.bytes arr out.is_big_endian, e, contents, reads)

  -- The same of `writeStringArray` and `readStringArray`, with null strings in the array, each string
  -- of fewer than 2 ^ 31 bytes, for a UTF-8 encoder and decoder that are inverse on these strings.
  pub write_string_array-read_string_array :
      {Str : Type 0} (encode : Str → Buffer) (decode : Buffer → Str)
      (decode-encode : (s : Str) → decode (encode s) ≡ s) (arr : Option (List (Option Str)))
      (out : Output)
      → IsArray (λ val. IsShort (encoded encode val)) arr
      → out.position ≤ length out.buffer
      → (rest : List ℕ) (offset : ℕ)
      → (after : Output) × (bytes : List ℕ) × (write_string_array alloc_unsafe encode arr out
          ≡ some after)
        × (to_buffer after ≡ to_buffer out ++ bytes)
        × (read_string_array decode none (input_at out.position after rest offset)
            ≡ some (arr, input_at after.position after rest offset))
  unfolding write_string_array read_string_array
  write_string_array-read_string_array encode decode decode-encode arr out valid h rest offset =
      let string = string_Codes alloc_unsafe length-alloc_unsafe encode decode decode-encode in
      let c = write_array-Codes alloc_unsafe length-alloc_unsafe string in
      let (after, e, contents, reads) = Codes-read_back c arr out valid h rest offset in
      (after, c.bytes arr out.is_big_endian, e, contents, reads)
