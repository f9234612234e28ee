-- ===== src/Tests/Codecs.antt =====
-- Numbers as the contents of frames.
use hazelcast_nodejs_client.Prelude.{ℕ, ◌≡◌, refl, true, List, [], ◌∷◌, ◌++◌, Option, none, some}
use hazelcast_nodejs_client.Codec.{
  Frame, begin_frame, end_frame, is_end_frame, is_begin_frame, is_null_frame, is_flag_set,
  fast_forward_to_end_frame, decode_list_contains_nullable, encode_list_contains_nullable,
  decode_list_nullable, encode_list_nullable,
}
use hazelcast_nodejs_client.Codec.RoundTrips.{
  Codec, decode-encode_list_contains_nullable, decode-encode_list_nullable,
}
use hazelcast_nodejs_client.Codec.Nesting.{
  empty, plain, structure, fast_forward_to_end_frame-Nested,
}

abbrev frame_of : ℕ → Frame ℕ
frame_of n = record { content = n; flags = 0 }

abbrev read_frame : List (Frame ℕ) → Option (ℕ × List (Frame ℕ))
read_frame [] = none
read_frame (f ∷ frames) = some (f.content, frames)

unfoldable numbers : Codec ℕ ℕ true
unfolding is_end_frame is_null_frame is_flag_set
numbers = record {
  encode = λ n. frame_of n ∷ [];
  decode = read_frame;
  first = frame_of;
  others = λ n. [];
  begins = λ n. refl;
  not_end = λ n. refl;
  not_null = λ n e. refl;
  round_trip = λ n rest. refl;
}

decode-encode_list_contains_nullable_example :
    decode_list_contains_nullable numbers.decode
      (encode_list_contains_nullable 0 numbers.encode (some 4 ∷ none ∷ []) ++ frame_of 9 ∷ [])
    ≡ some (some 4 ∷ none ∷ [], frame_of 9 ∷ [])
decode-encode_list_contains_nullable_example =
    decode-encode_list_contains_nullable 0 numbers (some 4 ∷ none ∷ []) (frame_of 9 ∷ [])

decode-encode_list_nullable_example :
    decode_list_nullable numbers.decode
      (encode_list_nullable 0 numbers.encode none ++ frame_of 9 ∷ [])
    ≡ some (none, frame_of 9 ∷ [])
decode-encode_list_nullable_example = decode-encode_list_nullable 0 numbers none (frame_of 9 ∷ [])

fast_forward_to_end_frame-Nested_example :
    fast_forward_to_end_frame
      ((begin_frame 0 ∷ (frame_of 1 ∷ []) ++ end_frame 0 ∷ []) ++ end_frame 0 ∷ frame_of 9 ∷ [])
    ≡ some (frame_of 9 ∷ [])
unfolding is_end_frame is_begin_frame is_flag_set
fast_forward_to_end_frame-Nested_example =
    fast_forward_to_end_frame-Nested (end_frame 0) (frame_of 9 ∷ [])
      (structure (begin_frame 0) (end_frame 0) (frame_of 1 ∷ []) [] refl refl
        (plain refl refl empty) refl empty)
      refl
