-- ===== src/Connection/Framing.antt =====
-- network/Connection.ts: what the reader holds of a stream of frames, and one step of it.
use hazelcast_nodejs_client.Prelude.{
  ℕ, ◌+◌, ◌≡◌, ◌≤◌, ◌<◌, ◌^◌, inl, inr, refl, ap, sym, subst, ◌∙◌, false, Bool-cases, List, [], ◌∷◌,
  ◌++◌, append_assoc, append-nil, some, arith, leb, ltb, leb→le, length, length-append, ℤ, pos,
  ltb_ℤ, ◌-ℤ◌,
}
use hazelcast_nodejs_client.Buffers.{
  Buffer, slice, bytes16, bytes32, signed32, read_uint32, read_uint16, read_int32,
}
use hazelcast_nodejs_client.Buffers.Words.{
  read_uint32_after, read_uint16_after, read_uint32-append, read_uint16-append, slice-append,
  length-bytes32,
}
use hazelcast_nodejs_client.Connection.Message.{BytesFrame, Message, get_length}
use hazelcast_nodejs_client.Connection.Reader.{
  Reader, concat, merge_header, read_header, read_frame_size_and_flags, extend_message, take_frame,
}
use hazelcast_nodejs_client.Connection.Written.{
  IsWritable, frame_header, frame_bytes, stream_bytes, length-frame_bytes, length-frame_header,
}

-- The size and the flags that the reader has, if it has read them.
pub data Header : Message → Reader → Type 0 where
  unread : {fs : Message} {r : Reader} → r.frame_size ≡ pos 0 → Header fs r
  known :
      {f : BytesFrame} {fs : Message} {r : Reader}
      → r.frame_size ≡ pos (get_length f)
      → r.flags ≡ f.flags
      → 6 ≤ length (concat r.chunks)
      → Header (f ∷ fs) r

-- The reader holds the first bytes of some frames, of which others are still to come.
pub record Awaits (fs : Message) (future : Buffer) (r : Reader) : Type 0 where
  pub bytes : concat r.chunks ++ future ≡ stream_bytes fs
  pub total : r.chunks_total_size ≡ pos (length (concat r.chunks))
  pub header : Header fs r

merge_header-some :
    (chunks : List Buffer) (merged : Buffer)
    → length merged < 6
    → 6 ≤ length (merged ++ concat chunks)
    → (m more : Buffer) × (merge_header merged chunks ≡ some m)
      × (m ++ more ≡ merged ++ concat chunks)
      × (6 ≤ length m)
unfolding merge_header
merge_header-some [] merged few h = absurd (omega (arith, length-append {A = ℕ} merged []))
merge_header-some (chunk ∷ chunks) merged few h =
    elim (Bool-cases (leb 6 (length (merged ++ chunk)))) [
      | inl e ↦ (
        merged ++ chunk,
        concat chunks,
        rw (e),
        append_assoc merged chunk (concat chunks),
        leb→le 6 (length (merged ++ chunk)) e,
      )
      | inr e ↦
          let (m, more, f, g, l) =
            merge_header-some chunks (merged ++ chunk) (ground arith)
              (rw (append_assoc merged chunk (concat chunks)) h) in
          (m, more, rw (e) f, g ∙ append_assoc merged chunk (concat chunks), l)
    ]

signed32-size :
    (f : BytesFrame)
    → length f.content + 6 < 2 ^ 31
    → signed32 (length f.content + 6) ≡ pos (6 + length f.content)
unfolding signed32
signed32-size f small = ground arith

-- The header of a frame, read from a buffer that starts with it.
module _ (f : BytesFrame) (fits : IsWritable f) (rest : Buffer) where
  frame_start :
      frame_bytes f ++ rest
      ≡ bytes32 (length f.content + 6) false ++ (bytes16 f.flags false ++ (f.content ++ rest))
  frame_start =
      append_assoc (frame_header f) f.content rest
      ∙ append_assoc (bytes32 (length f.content + 6) false) (bytes16 f.flags false)
          (f.content ++ rest)

  read_header-frame_bytes :
      (buffer more : Buffer) (r : Reader)
      → 6 ≤ length buffer
      → buffer ++ more ≡ frame_bytes f ++ rest
      → read_header buffer r ≡ some (record r { frame_size = pos (get_length f); flags = f.flags })
  unfolding read_header read_int32 get_length
  read_header-frame_bytes buffer more r h e =
      let (small, short) = fits in
      let n = length f.content + 6 in
      let B = bytes32 n false in
      let size : read_uint32 buffer (pos 0) false ≡ some n =
        read_uint32-append buffer more 0 false (omega arith)
        ∙ rw (e, frame_start)
            (read_uint32_after (bytes16 f.flags false ++ (f.content ++ rest)) [] n false) in
      let flags : read_uint16 buffer (pos 4) false ≡ some f.flags =
        read_uint16-append buffer more 4 false (omega arith)
        ∙ rw (e, frame_start)
            (subst
              (λ p.
                read_uint16 (B ++ (bytes16 f.flags false ++ (f.content ++ rest))) (pos p) false
                ≡ some f.flags)
              (length-bytes32 n false) (read_uint16_after (f.content ++ rest) B f.flags false)) in
      let sign : signed32 n ≡ pos (6 + length f.content) = signed32-size f small in
      rw (size, flags, sign)

  -- However the chunks cut the header.
  pub header-chunks :
      (r : Reader) (more : Buffer) (chunks : List Buffer)
      → 6 ≤ length (concat chunks)
      → concat chunks ++ more ≡ frame_bytes f ++ rest
      → read_frame_size_and_flags (record r { chunks = chunks })
        ≡ some (record r { chunks = chunks; frame_size = pos (get_length f); flags = f.flags })
  unfolding read_frame_size_and_flags
  header-chunks r more [] h e = absurd (omega arith)
  header-chunks r more (chunk ∷ chunks) h e = elim (Bool-cases (leb 6 (length chunk))) [
    | inl first ↦ rw (
      first,
      read_header-frame_bytes chunk (concat chunks ++ more) (record r { chunks = chunk ∷ chunks })
          (leb→le 6 (length chunk) first) (sym (append_assoc chunk (concat chunks) more) ∙ e),
    )
    | inr few ↦
        let (m, others, g, i, l) = merge_header-some (chunk ∷ chunks) [] (omega arith) h in
        rw (
          few,
          g,
          read_header-frame_bytes m (others ++ more) (record r { chunks = chunk ∷ chunks }) l
              (sym (append_assoc m others more) ∙ ap (λ c. c ++ more) i ∙ e),
        )
  ]

nil_of_length : (xs : Buffer) → length xs ≡ 0 → xs ≡ []
nil_of_length [] e = refl
nil_of_length (x ∷ xs) e = absurd (omega (arith, e))

pub ltb_ℤ-pos : {a b : ℤ} {m n : ℕ} → a ≡ pos m → b ≡ pos n → ltb_ℤ a b ≡ ltb m n
ltb_ℤ-pos {m} {n} e f = rw (e, f) (ground arith)

-- A frame that is complete is taken off the chunks.
module _ (f : BytesFrame) (r : Reader) (left : Buffer)
    (split : concat r.chunks ≡ frame_bytes f ++ left)
    (total : r.chunks_total_size ≡ pos (length (concat r.chunks)))
    (size : r.frame_size ≡ pos (get_length f)) where
  pub length-split : length (concat r.chunks) ≡ get_length f + length left
  length-split =
      omega (arith, ap length split, length-append (frame_bytes f) left, length-frame_bytes f)

  more_iff : ltb_ℤ r.frame_size r.chunks_total_size ≡ ltb (get_length f) (length (concat r.chunks))
  more_iff = ltb_ℤ-pos size total

  nothing_left : ltb_ℤ r.frame_size r.chunks_total_size ≡ false → left ≡ []
  nothing_left end = nil_of_length left (ground (arith, more_iff, length-split))

  slice_rest : slice (concat r.chunks) (pos (get_length f)) (pos (length (concat r.chunks))) ≡ left
  slice_rest =
      let n = length (concat r.chunks) in
      subst (λ c. slice c (pos (get_length f)) (pos n) ≡ left)
        (sym (split ∙ ap (λ c. frame_bytes f ++ c) (sym (append-nil left))))
        (slice-append (frame_bytes f) left [] (get_length f) n (sym (length-frame_bytes f))
          (omega (arith, length-split, length-frame_bytes f)))

  slice_content : (j : ℕ) → j ≡ get_length f → slice (concat r.chunks) (pos 6) (pos j) ≡ f.content
  slice_content j e =
      subst (λ c. slice c (pos 6) (pos j) ≡ f.content)
        (sym (split ∙ append_assoc (frame_header f) f.content left))
        (slice-append (frame_header f) f.content left 6 j (sym (length-frame_header f)) (
          omega (
            arith,
            e,
            length-frame_bytes f,
            length-frame_header f,
            length-append (frame_header f) f.content,
          )))

  pub take_frame-chunks : concat ((take_frame r).chunks) ≡ left
  unfolding take_frame
  take_frame-chunks = elim (Bool-cases (ltb_ℤ r.frame_size r.chunks_total_size)) [
    | inl more ↦
        rw
          (
            more,
            append-nil (slice (concat r.chunks) r.frame_size (pos (length (concat r.chunks)))),
            size,
          )
          slice_rest
    | inr end ↦ rw (end) (sym (nothing_left end))
  ]

  pub take_frame-total : (take_frame r).chunks_total_size ≡ pos (length left)
  unfolding take_frame ◌-ℤ◌
  take_frame-total = rw (total, size, length-split) (ground arith)

  pub take_frame-client_message :
      r.flags ≡ f.flags → (take_frame r).client_message ≡ some (extend_message r.client_message f)
  unfolding take_frame
  take_frame-client_message flags = elim (Bool-cases (ltb_ℤ r.frame_size r.chunks_total_size)) [
    | inl more ↦ rw (more, size, slice_content (get_length f) refl, flags)
    | inr end ↦ rw (
      end,
      slice_content (length (concat r.chunks))
          (omega (arith, length-split, ap length (nothing_left end))),
      flags,
    )
  ]
