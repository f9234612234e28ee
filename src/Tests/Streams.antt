-- ===== src/Tests/Streams.antt =====
-- Values in the bytes of buffers.
use hazelcast_nodejs_client.Prelude.{
  ℕ, zero, suc, ◌≡◌, refl, ap, true, List, [], ◌∷◌, ◌++◌, Option, none, some, length, arith, pos,
  negsuc, inl, ◌>>=◌, ◌^◌, ◌+◌,
}
use hazelcast_nodejs_client.Buffers.{Buffer, fits32, signed32}
use hazelcast_nodejs_client.Codec.FixedSize.{encode_non_negative_number_as_long, decode_long}
use hazelcast_nodejs_client.Codec.Numbers.{decode_long-encode_non_negative_number_as_long}
use hazelcast_nodejs_client.ObjectData.{Long}
use hazelcast_nodejs_client.ObjectData.Output.{
  Output, to_buffer, write_long_array, write_string_array,
}
use hazelcast_nodejs_client.ObjectData.Input.{read_long_array, read_string_array}
use hazelcast_nodejs_client.ObjectData.Streams.{
  input_at, write_long_array-read_long_array, write_string_array-read_string_array,
}

-- New memory that holds old bytes.
abbrev used_memory : ℕ → Buffer
used_memory zero = []
used_memory (suc n) = 170 ∷ used_memory n

length-used_memory : (n : ℕ) → length (used_memory n) ≡ n
length-used_memory zero = refl
length-used_memory (suc n) = ap suc (length-used_memory n)

-- An output with one byte written and room for another.
abbrev started : Output
started = record { buffer = 7 ∷ 0 ∷ []; is_big_endian = true; position = 1 }

abbrev longs : Option (List Long)
longs =
    some (record { low = negsuc 0; high = negsuc 4 } ∷ record { low = pos 258; high = pos 0 } ∷ [])

write_long_array-read_long_array_example :
    (after : Output) × (bytes : List ℕ) × (write_long_array used_memory longs started ≡ some after)
    × (to_buffer after ≡ to_buffer started ++ bytes)
    × (read_long_array none (input_at 1 after (9 ∷ []) 0)
        ≡ some (longs, input_at after.position after (9 ∷ []) 0))
unfolding fits32
write_long_array-read_long_array_example =
    write_long_array-read_long_array used_memory length-used_memory longs started
      (omega arith, ((refl, refl), ((refl, refl), tt))) (omega arith) (9 ∷ []) 0

-- ASCII texts, whose bytes are their code units.
abbrev ascii : Buffer → Buffer
ascii text = text

abbrev words : Option (List (Option Buffer))
words = some (some (104 ∷ 105 ∷ []) ∷ none ∷ some [] ∷ [])

write_string_array-read_string_array_example :
    (after : Output) × (bytes : List ℕ) × (write_string_array used_memory ascii words started
      ≡ some after)
    × (to_buffer after ≡ to_buffer started ++ bytes)
    × (read_string_array ascii none (input_at 1 after (9 ∷ []) 0)
        ≡ some (words, input_at after.position after (9 ∷ []) 0))
write_string_array-read_string_array_example =
    write_string_array-read_string_array used_memory length-used_memory ascii ascii (λ s. refl)
      words started (omega arith, (omega arith, (tt, (omega arith, tt)))) (omega arith) (9 ∷ []) 0

-- A number behind a message type, in the buffer of a frame.
decode_long-encode_non_negative_number_as_long_example :
    (encode_non_negative_number_as_long (used_memory 12) 4 (pos (2 ^ 40 + 5)) >>= λ after.
    decode_long after 4)
    ≡ some (record { low = pos 5; high = pos 256 })
unfolding signed32
decode_long-encode_non_negative_number_as_long_example =
    decode_long-encode_non_negative_number_as_long (used_memory 12) 4 (pos (2 ^ 40 + 5))
      (omega arith) (inl (omega arith))
