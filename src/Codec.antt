-- ===== src/Codec.antt =====
-- protocol/ClientMessage.ts and codec/builtin: frames, and how lists are written as frames and read.
-- A message that is written is the list of its frames, one that is read the list of those to come;
-- an encoder of an element is the frames that it adds. Reading past the end is a `TypeError`.
pub mod RoundTrips
pub mod Nesting
pub mod FixedSize
pub mod Numbers
use hazelcast_nodejs_client.Prelude.{
  ℕ, zero, suc, ◌+◌, ◌/◌, ◌%◌, ◌^◌, ◌≡◌, Bool, true, false, List, [], ◌∷◌, ◌++◌, Option, none, some,
  ◌==◌, if◌then◌else◌, length,
}

pub record Frame (B : Type 0) : Type 0 where
  pub content : B
  pub flags : ℕ

-- `isFlagSet` for a mask of one bit.
unfoldable pub is_flag_set : ℕ → ℕ → Bool
is_flag_set flags bit = (flags / 2 ^ bit) % 2 == 1

module _ {B : Type 0} where
  unfoldable pub is_begin_frame : Frame B → Bool
  unfolding is_flag_set
  is_begin_frame f = is_flag_set f.flags 12

  unfoldable pub is_end_frame : Frame B → Bool
  unfolding is_flag_set
  is_end_frame f = is_flag_set f.flags 11

  unfoldable pub is_null_frame : Frame B → Bool
  unfolding is_flag_set
  is_null_frame f = is_flag_set f.flags 10

-- The frames without content, with the empty buffer of the platform.
abbrev pub begin_frame : {B : Type 0} → B → Frame B
begin_frame empty = record { content = empty; flags = 2 ^ 12 }

abbrev pub end_frame : {B : Type 0} → B → Frame B
end_frame empty = record { content = empty; flags = 2 ^ 11 }

abbrev pub null_frame : {B : Type 0} → B → Frame B
null_frame empty = record { content = empty; flags = 2 ^ 10 }

-- `CodecUtil.fastForwardToEndFrame`, with the number of expected end frames.
unfoldable pub fast_forward : {B : Type 0} → ℕ → List (Frame B) → Option (List (Frame B))
unfolding is_begin_frame is_end_frame
fast_forward zero frames = some frames
fast_forward (suc n) [] = none
fast_forward (suc n) (f ∷ frames) = elim (is_end_frame f) [
  | true ↦ fast_forward n frames
  | false ↦ elim (is_begin_frame f) [
    | true ↦ fast_forward (suc (suc n)) frames
    | false ↦ fast_forward (suc n) frames
  ]
]

unfoldable pub fast_forward_to_end_frame : {B : Type 0} → List (Frame B) → Option (List (Frame B))
unfolding fast_forward
fast_forward_to_end_frame frames = fast_forward 1 frames

-- The loop of `ListMultiFrameCodec.encode`.
unfoldable pub encode_all : {B A : Type 0} → (A → List (Frame B)) → List A → List (Frame B)
encode_all encoder [] = []
encode_all encoder (a ∷ list) = encoder a ++ encode_all encoder list

module _ {B A : Type 0} (empty : B) (encoder : A → List (Frame B)) where
  -- `CodecUtil.encodeNullable`
  unfoldable pub encode_nullable : Option A → List (Frame B)
  encode_nullable none = null_frame empty ∷ []
  encode_nullable (some a) = encoder a

  unfoldable pub encode_list : List A → List (Frame B)
  unfolding encode_all
  encode_list list = begin_frame empty ∷ encode_all encoder list ++ end_frame empty ∷ []

module _ {B A : Type 0} (decoder : List (Frame B) → Option (A × List (Frame B))) where
  -- `CodecUtil.decodeNullable`
  unfoldable pub decode_nullable : List (Frame B) → Option (Option A × List (Frame B))
  unfolding is_null_frame
  decode_nullable [] = none
  decode_nullable (f ∷ frames) = elim (is_null_frame f) [
    | true ↦ some (none, frames)
    | false ↦ elim (decoder (f ∷ frames)) [ none ↦ none | some (a, rest) ↦ some (some a, rest) ]
  ]

  -- The loop of `ListMultiFrameCodec.decode` and the end frame, with fuel for the rounds.
  unfoldable pub decode_all : ℕ → List (Frame B) → Option (List A × List (Frame B))
  unfolding is_end_frame
  decode_all zero frames = none
  decode_all (suc fuel) [] = none
  decode_all (suc fuel) (f ∷ frames) = elim (is_end_frame f) [
    | true ↦ some ([], frames)
    | false ↦ elim (decoder (f ∷ frames)) [
      | none ↦ none
      | some (a, rest) ↦ elim (decode_all fuel rest) [
        | none ↦ none
        | some (list, after) ↦ some (a ∷ list, after)
      ]
    ]
  ]

  unfoldable pub decode_list : List (Frame B) → Option (List A × List (Frame B))
  unfolding decode_all
  decode_list [] = none
  decode_list (begin ∷ frames) = decode_all (length frames) frames

-- `encodeContainsNullable` and `decodeContainsNullable`.
unfoldable pub encode_list_contains_nullable :
    {B A : Type 0} → B → (A → List (Frame B)) → List (Option A) → List (Frame B)
unfolding encode_list encode_nullable
encode_list_contains_nullable empty encoder list =
    encode_list empty (encode_nullable empty encoder) list

unfoldable pub decode_list_contains_nullable :
    {B A : Type 0}
    → (List (Frame B) → Option (A × List (Frame B)))
    → List (Frame B)
    → Option (List (Option A) × List (Frame B))
unfolding decode_list decode_nullable
decode_list_contains_nullable decoder frames = decode_list (decode_nullable decoder) frames

-- `encodeNullable` and `decodeNullable` of a list.
unfoldable pub encode_list_nullable :
    {B A : Type 0} → B → (A → List (Frame B)) → Option (List A) → List (Frame B)
unfolding encode_list encode_nullable
encode_list_nullable empty encoder list = encode_nullable empty (encode_list empty encoder) list

unfoldable pub decode_list_nullable :
    {B A : Type 0}
    → (List (Frame B) → Option (A × List (Frame B)))
    → List (Frame B)
    → Option (Option (List A) × List (Frame B))
unfolding decode_list decode_nullable
decode_list_nullable decoder frames = decode_nullable (decode_list decoder) frames
