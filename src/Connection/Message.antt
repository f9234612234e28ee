-- ===== src/Connection/Message.antt =====
-- protocol/ClientMessage.ts: a message is the list of its frames.
use hazelcast_nodejs_client.Prelude.{
  ℕ, ◌+◌, ◌^◌, Bool, false, ◌&&◌, List, [], ◌∷◌, ◌++◌, Option, none, some, if◌then◌else◌, length,
  ◌>>=◌, pos,
}
use hazelcast_nodejs_client.Buffers.{Buffer, overwrite, write_int32, write_uint16}
use hazelcast_nodejs_client.Codec.{Frame, is_flag_set}

abbrev pub BytesFrame : Type 0
BytesFrame = Frame Buffer

abbrev pub Message : Type 0
Message = List BytesFrame

-- `getLength`: the content behind SIZE_OF_FRAME_LENGTH_AND_FLAGS.
unfoldable pub get_length : BytesFrame → ℕ
get_length f = 6 + length f.content

unfoldable pub is_final_frame : BytesFrame → Bool
is_final_frame f = is_flag_set f.flags 13

unfoldable pub has_begin_fragment_flag : BytesFrame → Bool
unfolding is_flag_set
has_begin_fragment_flag f = is_flag_set f.flags 15

unfoldable pub has_end_fragment_flag : BytesFrame → Bool
unfolding is_flag_set
has_end_fragment_flag f = is_flag_set f.flags 14

-- Both bits of UNFRAGMENTED_MESSAGE.
unfoldable pub has_unfragmented_message_flag : BytesFrame → Bool
unfolding has_begin_fragment_flag has_end_fragment_flag
has_unfragmented_message_flag f = has_begin_fragment_flag f && has_end_fragment_flag f

-- `endFrame` of a message that has one.
unfoldable pub end_frame_of : Message → Option BytesFrame
end_frame_of [] = none
end_frame_of (f ∷ []) = some f
end_frame_of (f ∷ g ∷ fs) = end_frame_of (g ∷ fs)

unfoldable pub add_frame : Message → BytesFrame → Message
add_frame message f = message ++ f ∷ []

unfoldable pub get_total_length : Message → ℕ
get_total_length [] = 0
get_total_length (f ∷ fs) = get_length f + get_total_length fs

-- `flags | IS_FINAL_FLAG`
unfoldable pub with_final : ℕ → ℕ
with_final flags = if is_flag_set flags 13 then flags else flags + 2 ^ 13

-- The flags written for a frame, which depend on whether one follows.
unfoldable pub written_flags : BytesFrame → Message → ℕ
written_flags f [] = with_final f.flags
written_flags f (_ ∷ _) = f.flags

unfoldable pub write_to : Message → Buffer → ℕ → Option (Buffer × ℕ)
write_to [] buffer p = some (buffer, p)
write_to (f ∷ fs) buffer p = do
  sized ← write_int32 buffer p (pos (length f.content + 6)) false
  flagged ← write_uint16 sized (p + 4) (written_flags f fs) false
  write_to fs (overwrite flagged (p + 6) f.content) (p + 6 + length f.content)

-- `toBuffer`, in new memory of the platform.
unfoldable pub message_to_buffer : (ℕ → Buffer) → Message → Option Buffer
message_to_buffer alloc_unsafe message = do
  (buffer, _) ← write_to message (alloc_unsafe (get_total_length message)) 0
  some buffer
