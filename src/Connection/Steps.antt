-- ===== src/Connection/Steps.antt =====
-- network/Connection.ts: one step of the reader, from any state that holds a part of a stream.
use hazelcast_nodejs_client.Prelude.{
  ℕ, ◌≡◌, ◌≤◌, ◌<◌, inl, inr, refl, ap, sym, ◌∙◌, All, true, false, Bool-cases, [], ◌∷◌, ◌++◌, some,
  arith, if◌then◌else◌, length, length-append, pos, eqb_ℤ, ltb_ℤ,
}
use hazelcast_nodejs_client.Buffers.{Buffer}
use hazelcast_nodejs_client.Buffers.Words.{split-append}
use hazelcast_nodejs_client.Connection.Message.{BytesFrame, Message, get_length}
use hazelcast_nodejs_client.Connection.Reader.{
  Reader, concat, read_header, read_frame_size_and_flags, extend_message, take_frame,
  complete_frame, read_frame,
}
use hazelcast_nodejs_client.Connection.Written.{
  IsWritable, frame_bytes, stream_bytes, length-frame_bytes,
}
use hazelcast_nodejs_client.Connection.Framing.{
  unread, known, Awaits, header-chunks, ltb_ℤ-pos, length-split, take_frame-chunks,
  take_frame-total, take_frame-client_message,
}

-- Fewer bytes than the first frame has, or no frame at all.
abbrev pub Short : Message → ℕ → Type 0
Short [] n = Unit
Short (f ∷ fs) n = n < get_length f

-- A step of the reader waits for bytes, or takes a frame.
pub data Progress (fs : Message) (future : Buffer) (r : Reader) : Type 0 where
  waits :
      (s : Reader)
      → read_frame r ≡ some (false, s)
      → Awaits fs future s
      → s.client_message ≡ r.client_message
      → Short fs (length (concat s.chunks))
      → Progress fs future r
  takes :
      (f : BytesFrame) (rest : Message) (s : Reader)
      → fs ≡ f ∷ rest
      → read_frame r ≡ some (true, s)
      → Awaits rest future s
      → s.client_message ≡ some (extend_message r.client_message f)
      → length (concat s.chunks) < length (concat r.chunks)
      → Progress fs future r

get_length-le : (f : BytesFrame) → 6 ≤ get_length f
unfolding get_length
get_length-le f = omega arith

-- The reader knows the size and the flags, once there are bytes enough.
sized_reader :
    (f : BytesFrame) (fs : Message) (future : Buffer) (r : Reader)
    → IsWritable f
    → Awaits (f ∷ fs) future r
    → 6 ≤ length (concat r.chunks)
    → (if eqb_ℤ r.frame_size (pos 0) then read_frame_size_and_flags r else some r)
      ≡ some (record r { frame_size = pos (get_length f); flags = f.flags })
unfolding read_frame_size_and_flags read_header
sized_reader f fs future r fits w h = elim w.header [
  | unread e ↦ rw (e) (header-chunks f fits (stream_bytes fs) r future r.chunks h w.bytes)
  | known size flags _ ↦
      let some_bytes : eqb_ℤ (pos (get_length f)) (pos 0) ≡ false =
        ground (arith, get_length-le f) in
      rw (size, some_bytes, flags)
]

take_frame-frame_size : (r : Reader) → (take_frame r).frame_size ≡ pos 0
unfolding take_frame
take_frame-frame_size r = refl

-- A frame that is there in full is taken.
module _ (f : BytesFrame) (fs : Message) (future : Buffer) (r : Reader)
    (w : Awaits (f ∷ fs) future r) (full : get_length f ≤ length (concat r.chunks)) where
  abbrev sized : Reader
  sized = record r { frame_size = pos (get_length f); flags = f.flags }

  take_frame-Progress : read_frame r ≡ some (true, take_frame sized) → Progress (f ∷ fs) future r
  take_frame-Progress e =
      let (left, split, g) =
        split-append (concat r.chunks) future (frame_bytes f) (stream_bytes fs) w.bytes
          (omega (arith, full, length-frame_bytes f)) in
      let chunks = take_frame-chunks f sized left split w.total refl in
      takes f fs (take_frame sized) refl e
        (record {
          bytes = ap (λ c. c ++ future) chunks ∙ g;
          total =
              take_frame-total f sized left split w.total refl
              ∙ ap (λ c. pos (length c)) (sym chunks);
          header = unread (take_frame-frame_size sized);
        })
        (take_frame-client_message f sized left split w.total refl refl)
        (omega
          (arith, ap length chunks, length-split f sized left split w.total refl, get_length-le f))

-- From any state that holds a part of a stream of frames.
pub read_frame-Progress :
    (fs : Message) (future : Buffer) (r : Reader)
    → All IsWritable fs
    → Awaits fs future r
    → Progress fs future r
unfolding read_frame complete_frame
read_frame-Progress [] future r fits w =
    let n : length (concat r.chunks) ≡ 0 =
      omega (arith, ap length w.bytes, length-append (concat r.chunks) future) in
    let few : ltb_ℤ r.chunks_total_size (pos 6) ≡ true =
      ltb_ℤ-pos w.total refl ∙ ground (arith, n) in
    waits r (rw (few)) w refl tt
read_frame-Progress (f ∷ fs) future r (fits, others) w =
    elim (Bool-cases (ltb_ℤ r.chunks_total_size (pos 6))) [
      | inl few ↦
          waits r (rw (few)) w refl
            (ground (arith, few, ltb_ℤ-pos {n = 6} w.total refl, get_length-le f))
      | inr enough ↦
          let h : 6 ≤ length (concat r.chunks) =
            ground (arith, enough, ltb_ℤ-pos {n = 6} w.total refl) in
          let sized : Reader = record r { frame_size = pos (get_length f); flags = f.flags } in
          let e = sized_reader f fs future r fits w h in
          elim (Bool-cases (ltb_ℤ r.chunks_total_size (pos (get_length f)))) [
            | inl short ↦
                waits sized (rw (enough, e, short))
                  (record { bytes = w.bytes; total = w.total; header = known refl refl h }) refl
                  (ground (arith, short, ltb_ℤ-pos {n = get_length f} w.total refl))
            | inr full ↦
                take_frame-Progress f fs future r w
                  (ground (arith, full, ltb_ℤ-pos {n = get_length f} w.total refl))
                  (rw (enough, e, full))
          ]
    ]
