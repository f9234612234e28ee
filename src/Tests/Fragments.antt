-- ===== src/Tests/Fragments.antt =====
-- A message in two fragments, between which a whole message and a fragment of another message arrive.
use hazelcast_nodejs_client.Prelude.{ℕ, refl, [], ◌∷◌, pos_part}
use hazelcast_nodejs_client.JsMap.{ℕ_eq}
use hazelcast_nodejs_client.ObjectData.{Long}
use hazelcast_nodejs_client.Codec.{is_flag_set}
use hazelcast_nodejs_client.Codec.FixedSize.{decode_long}
use hazelcast_nodejs_client.Buffers.{read_int32}
use hazelcast_nodejs_client.Connection.Message.{
  BytesFrame, has_begin_fragment_flag, has_end_fragment_flag, has_unfragmented_message_flag,
}
use hazelcast_nodejs_client.Connection.Reassembly.{
  IsOf, Arrives, ends, other, unfragmented, HandsOn, hand_on_all-reassembles,
}

abbrev to_number : Long → ℕ
to_number l = pos_part l.low

abbrev numbered : ℕ → ℕ → BytesFrame
numbered id flags = record { content = id ∷ 0 ∷ 0 ∷ 0 ∷ 0 ∷ 0 ∷ 0 ∷ 0 ∷ []; flags = flags }

abbrev frame_of : ℕ → BytesFrame
frame_of byte = record { content = byte ∷ []; flags = 0 }

named : (flags : ℕ) → IsOf to_number 7 (numbered 7 flags) 7
unfolding decode_long read_int32
named flags = (_, refl, refl)

named_five : (flags : ℕ) → IsOf to_number 7 (numbered 5 flags) 5
unfolding decode_long read_int32
named_five flags = (_, refl, refl)

between :
    Arrives to_number 7
      ((numbered 1 49152 ∷ [])
        ∷ (numbered 5 32768 ∷ frame_of 3 ∷ [])
        ∷ (numbered 7 16384 ∷ frame_of 2 ∷ frame_of 4 ∷ [])
        ∷ [])
      (frame_of 2 ∷ frame_of 4 ∷ [])
unfolding has_begin_fragment_flag has_end_fragment_flag has_unfragmented_message_flag is_flag_set
between = unfragmented (numbered 1 49152) [] refl (
    other (numbered 5 32768) (frame_of 3 ∷ []) 5 (named_five 32768) refl
      (ends (numbered 7 16384) (frame_of 2) (frame_of 4 ∷ []) (named 16384) refl refl))

hand_on_all-reassembles_example :
    HandsOn to_number 7
      ((numbered 7 32768 ∷ frame_of 1 ∷ [])
        ∷ (numbered 1 49152 ∷ [])
        ∷ (numbered 5 32768 ∷ frame_of 3 ∷ [])
        ∷ (numbered 7 16384 ∷ frame_of 2 ∷ frame_of 4 ∷ [])
        ∷ [])
      []
      (frame_of 1 ∷ frame_of 2 ∷ frame_of 4 ∷ [])
unfolding has_begin_fragment_flag has_end_fragment_flag is_flag_set
hand_on_all-reassembles_example =
    hand_on_all-reassembles to_number 7 [] (numbered 7 32768) (frame_of 1) [] _ _ (named 32768) refl
      refl between
