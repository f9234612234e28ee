-- ===== src/Connection/Written.antt =====
-- protocol/ClientMessage.ts: `writeTo` and `toBuffer` give the bytes of the frames, one behind the
-- other, with the final flag on the last.
use hazelcast_nodejs_client.Prelude.{
  ℕ, zero, suc, ◌+◌, ◌≡◌, ◌≤◌, ◌<◌, ◌^◌, refl, ap, sym, ◌∙◌, false, [], ◌∷◌, ◌++◌, Option, some,
  arith, lt→ltb, length, length-append, All, ◌>>=◌, pos,
}
use hazelcast_nodejs_client.Buffers.{
  Buffer, overwrite, fits32, word32, bytes16, bytes32, write_int32, write_uint16,
}
use hazelcast_nodejs_client.Buffers.Words.{
  overwrite-overwrite, length-overwrite, write_bytes-eq, length-bytes16, length-bytes32,
}
use hazelcast_nodejs_client.Connection.Message.{
  BytesFrame, Message, get_length, get_total_length, written_flags, write_to, message_to_buffer,
}

abbrev pub frame_header : BytesFrame → Buffer
frame_header f = bytes32 (length f.content + 6) false ++ bytes16 f.flags false

abbrev pub frame_bytes : BytesFrame → Buffer
frame_bytes f = frame_header f ++ f.content

-- Frames as they stand in a stream.
abbrev pub stream_bytes : Message → Buffer
stream_bytes [] = []
stream_bytes (f ∷ fs) = frame_bytes f ++ stream_bytes fs

-- The frames as the writer sends them.
abbrev pub written : Message → Message
written [] = []
written (f ∷ fs) = record f { flags = written_flags f fs } ∷ written fs

-- The size of a frame is a signed, its flags an unsigned number, of 32 and 16 bits.
abbrev pub IsWritable : BytesFrame → Type 0
IsWritable f = (length f.content + 6 < 2 ^ 31) × (f.flags < 2 ^ 16)

pub length-frame_header : (f : BytesFrame) → length (frame_header f) ≡ 6
unfolding bytes32 bytes16
length-frame_header f = refl

pub length-frame_bytes : (f : BytesFrame) → length (frame_bytes f) ≡ get_length f
unfolding get_length
length-frame_bytes f =
    omega (arith, length-append (frame_header f) f.content, length-frame_header f)

get_length-flags :
    (f : BytesFrame) (flags : ℕ) → get_length (record f { flags = flags }) ≡ get_length f
unfolding get_length
get_length-flags f flags = refl

get_length-at : (f : BytesFrame) (p : ℕ) → p + 6 + length f.content ≡ p + get_length f
unfolding get_length
get_length-at f p = omega arith

pub length-stream_bytes-written :
    (fs : Message) → length (stream_bytes (written fs)) ≡ get_total_length fs
unfolding get_total_length get_length
length-stream_bytes-written [] = refl
length-stream_bytes-written (f ∷ fs) =
    let g : BytesFrame = record f { flags = written_flags f fs } in
    omega (
      arith,
      length-append (frame_bytes g) (stream_bytes (written fs)),
      length-frame_bytes g,
      length-stream_bytes-written fs,
    )

module _ (f : BytesFrame) (h : IsWritable f) (buffer : Buffer) (p : ℕ)
    (room : p + get_length f ≤ length buffer) where
  -- Size and flags are two writes, the content a third.
  pub write_frame :
      {A : Type 0} (next : Buffer → Option A)
      → (do
        sized ← write_int32 buffer p (pos (length f.content + 6)) false
        flagged ← write_uint16 sized (p + 4) f.flags false
        next (overwrite flagged (p + 6) f.content))
        ≡ next (overwrite buffer p (frame_bytes f))
  unfolding write_int32 write_uint16 fits32 word32 get_length
  write_frame next =
      let (small, short) = h in
      let B = bytes32 (length f.content + 6) false in
      let C = bytes16 f.flags false in
      let i = length-bytes32 (length f.content + 6) false in
      let j = length-bytes16 f.flags false in
      rw (
        lt→ltb (length f.content + 6) (2 ^ 31) small,
        write_bytes-eq buffer p B (omega (arith, i)),
        lt→ltb f.flags (2 ^ 16) short,
        write_bytes-eq (overwrite buffer p B) (p + 4) C
            (omega (arith, i, j, length-overwrite buffer p B)),
        overwrite-overwrite buffer p B C (p + 4) (omega (arith, i)),
        overwrite-overwrite buffer p (B ++ C) f.content (p + 6)
            (omega (arith, i, j, length-append B C)),
      )

overwrite-nil : (buffer : Buffer) (p : ℕ) → overwrite buffer p [] ≡ buffer
unfolding overwrite
overwrite-nil [] p = refl
overwrite-nil (b ∷ buffer) zero = refl
overwrite-nil (b ∷ buffer) (suc p) = ap (◌∷◌ b) (overwrite-nil buffer p)

-- A buffer that is written from end to end.
overwrite_all :
    (buffer bytes : Buffer) → length bytes ≡ length buffer → overwrite buffer 0 bytes ≡ bytes
unfolding overwrite
overwrite_all [] [] e = refl
overwrite_all [] (x ∷ bytes) e = absurd (omega (arith, e))
overwrite_all (b ∷ buffer) [] e = absurd (omega (arith, e))
overwrite_all (b ∷ buffer) (x ∷ bytes) e =
    ap (◌∷◌ x) (overwrite_all buffer bytes (omega (arith, e)))

pub write_to-written :
    (fs : Message) (buffer : Buffer) (p : ℕ)
    → All IsWritable (written fs)
    → p + get_total_length fs ≤ length buffer
    → write_to fs buffer p
      ≡ some (overwrite buffer p (stream_bytes (written fs)), p + get_total_length fs)
unfolding write_to get_total_length
write_to-written [] buffer p _ room =
    let end : p + 0 ≡ p = omega arith in rw (overwrite-nil buffer p, end)
write_to-written (f ∷ fs) buffer p (fits, others) room =
    let g : BytesFrame = record f { flags = written_flags f fs } in
    let after = overwrite buffer p (frame_bytes g) in
    let l = length-overwrite buffer p (frame_bytes g) in
    let n = length-frame_bytes g in
    let size : get_length g ≡ get_length f = get_length-flags f (written_flags f fs) in
    let at : p + 6 + length f.content ≡ p + get_length f = get_length-at f p in
    let sum : p + get_length f + get_total_length fs ≡ p + (get_length f + get_total_length fs) =
      omega arith in
    write_frame g fits buffer p (omega (arith, size))
      (λ next. write_to fs next (p + 6 + length f.content))
    ∙ rw (
      at,
      write_to-written fs after (p + get_length f) others (omega (arith, l)),
      overwrite-overwrite buffer p (frame_bytes g) (stream_bytes (written fs)) (p + get_length f)
          (omega (arith, n, size)),
      sum,
    )

-- `toBuffer` of frames that fit their fields.
pub message_to_buffer-written :
    (alloc_unsafe : ℕ → Buffer) (length-alloc_unsafe : (n : ℕ) → length (alloc_unsafe n) ≡ n)
    (fs : Message)
    → All IsWritable (written fs)
    → message_to_buffer alloc_unsafe fs ≡ some (stream_bytes (written fs))
unfolding message_to_buffer
message_to_buffer-written alloc_unsafe length-alloc_unsafe fs fits =
    let buffer = alloc_unsafe (get_total_length fs) in
    let size = length-alloc_unsafe (get_total_length fs) in
    rw (
      write_to-written fs buffer 0 fits (omega (arith, size)),
      overwrite_all buffer (stream_bytes (written fs)) (length-stream_bytes-written fs ∙ sym size),
    )
