-- ===== src/Connection/Messages.antt =====
-- network/Connection.ts: which messages a stream of whole messages gives, and the messages that are
-- written at one end of a socket and read at the other, in whatever chunks their bytes arrive.
use hazelcast_nodejs_client.Prelude.{
  ℕ, ◌≡◌, refl, ap, sym, subst, ◌∙◌, All, true, false, List, [], ◌∷◌, ◌++◌, map, append_assoc,
  Option, none, some, arith, length, ◌>>=◌,
}
use hazelcast_nodejs_client.Buffers.{Buffer}
use hazelcast_nodejs_client.Codec.{is_flag_set}
use hazelcast_nodejs_client.Connection.Message.{
  BytesFrame, Message, is_final_frame, end_frame_of, add_frame, get_length, with_final,
  written_flags, message_to_buffer,
}
use hazelcast_nodejs_client.Connection.Reader.{
  Reader, new_reader, concat, extend_message, is_complete, on_chunks,
}
use hazelcast_nodejs_client.Connection.Written.{
  IsWritable, written, frame_bytes, stream_bytes, message_to_buffer-written,
}
use hazelcast_nodejs_client.Connection.Framing.{unread}
use hazelcast_nodejs_client.Connection.Steps.{Short}
use hazelcast_nodejs_client.Connection.Receiving.{Emits, done, continues, completes}
use hazelcast_nodejs_client.Connection.Streams.{on_chunks-Received, end_of_stream}

-- A message of which the last frame, and no other, is final.
abbrev pub IsWhole : Message → Type 0
IsWhole [] = false ≡ true
IsWhole (f ∷ []) = is_final_frame f ≡ true
IsWhole (f ∷ g ∷ fs) = (is_final_frame f ≡ false) × IsWhole (g ∷ fs)

-- The frames of several messages, one behind the other.
abbrev pub frames_of : List Message → Message
frames_of [] = []
frames_of (m ∷ ms) = m ++ frames_of ms

-- A message in part, and the rest of it.
abbrev joined : Option Message → Message → Message
joined none m = m
joined (some part) m = part ++ m

end_frame_of-snoc : (part : Message) (f : BytesFrame) → end_frame_of (part ++ f ∷ []) ≡ some f
unfolding end_frame_of
end_frame_of-snoc [] f = refl
end_frame_of-snoc (g ∷ []) f = refl
end_frame_of-snoc (g ∷ h ∷ part) f = end_frame_of-snoc (h ∷ part) f

is_complete-extend_message :
    (c : Option Message) (f : BytesFrame)
    → is_complete (some (extend_message c f)) ≡ is_final_frame f
unfolding is_complete extend_message add_frame end_frame_of
is_complete-extend_message none f = refl
is_complete-extend_message (some part) f = rw (is_complete, end_frame_of-snoc part f)

joined-extend_message :
    (c : Option Message) (f : BytesFrame) (m : Message)
    → joined (some (extend_message c f)) m ≡ joined c (f ∷ m)
unfolding extend_message add_frame
joined-extend_message none f m = refl
joined-extend_message (some part) f m = append_assoc part (f ∷ []) m

extend_message-joined :
    (c : Option Message) (f : BytesFrame) → extend_message c f ≡ joined c (f ∷ [])
unfolding extend_message add_frame
extend_message-joined none f = refl
extend_message-joined (some part) f = refl

-- A whole message is the first that is emitted.
Emits-whole :
    (m : Message) {c d : Option Message} {rest : Message} {ms : List Message}
    → IsWhole m
    → Emits c (m ++ rest) ms d []
    → (others : List Message) × (ms ≡ joined c m ∷ others) × Emits none rest others d []
Emits-whole [] whole p = absurd (cc)
Emits-whole (f ∷ []) {c} whole (continues e p) =
    absurd (cc (e, is_complete-extend_message c f, whole))
Emits-whole (f ∷ []) {c} whole (completes {ms = ns} e p) =
    (ns, ap (λ m. m ∷ ns) (extend_message-joined c f), p)
Emits-whole (f ∷ g ∷ fs) {c} (not_final, whole) (completes e p) =
    absurd (cc (e, is_complete-extend_message c f, not_final))
Emits-whole (f ∷ g ∷ fs) {c} (not_final, whole) (continues e p) =
    let (others, e, q) = Emits-whole (g ∷ fs) whole p in
    (others, e ∙ ap (λ m. m ∷ others) (joined-extend_message c f (g ∷ fs)), q)

-- A stream of whole messages emits these, and nothing is left in part.
Emits-frames_of :
    (ns : List Message) {d : Option Message} {ms : List Message}
    → All IsWhole ns
    → Emits none (frames_of ns) ms d []
    → (ms ≡ ns) × (d ≡ none)
Emits-frames_of [] _ done = (refl, refl)
Emits-frames_of (n ∷ ns) (whole, others) p =
    let (rest, e, q) = Emits-whole n whole p in
    let (f, g) = Emits-frames_of ns others q in (rw (e, f), g)

stream_bytes-append : (m fs : Message) → stream_bytes (m ++ fs) ≡ stream_bytes m ++ stream_bytes fs
stream_bytes-append [] fs = refl
stream_bytes-append (f ∷ m) fs =
    ap (λ b. frame_bytes f ++ b) (stream_bytes-append m fs)
    ∙ sym (append_assoc (frame_bytes f) (stream_bytes m) (stream_bytes fs))

All-append {ℓ κ} :
    {A : Type ℓ} (P : A → Type κ) (xs ys : List A) → All P xs → All P ys → All P (xs ++ ys)
All-append P [] ys p q = q
All-append P (x ∷ xs) ys (h, p) q = (h, All-append P xs ys p q)

-- A message that can be sent: it has frames, no frame but the last is marked as final, and each fits
-- the fields for its size and its flags.
abbrev pub IsUnmarked : Message → Type 0
IsUnmarked [] = false ≡ true
IsUnmarked (f ∷ []) = Unit
IsUnmarked (f ∷ g ∷ fs) = (is_final_frame f ≡ false) × IsUnmarked (g ∷ fs)

abbrev pub IsSendable : Message → Type 0
IsSendable m = IsUnmarked m × All IsWritable (written m)

is_flag_set-with_final : (flags : ℕ) → is_flag_set (with_final flags) 13 ≡ true
unfolding is_flag_set with_final
is_flag_set-with_final flags = ground arith

written-IsWhole : (m : Message) → IsUnmarked m → IsWhole (written m)
unfolding is_final_frame written_flags
written-IsWhole [] h = h
written-IsWhole (f ∷ []) h = is_flag_set-with_final f.flags
written-IsWhole (f ∷ g ∷ fs) (e, h) = (e, written-IsWhole (g ∷ fs) h)

Short-zero : (fs : Message) → Short fs 0
unfolding get_length
Short-zero [] = tt
Short-zero (f ∷ fs) = omega arith

-- The buffers of messages that are written to a socket one after the other.
unfoldable pub send_all : (ℕ → Buffer) → List Message → Option Buffer
send_all alloc_unsafe [] = some []
send_all alloc_unsafe (m ∷ ms) = do
  buffer ← message_to_buffer alloc_unsafe m
  buffers ← send_all alloc_unsafe ms
  some (buffer ++ buffers)

module _ (alloc_unsafe : ℕ → Buffer)
    (length-alloc_unsafe : (n : ℕ) → length (alloc_unsafe n) ≡ n) where
  send_all-stream_bytes :
      (ms : List Message)
      → All IsSendable ms
      → (send_all alloc_unsafe ms ≡ some (stream_bytes (frames_of (map written ms))))
        × All IsWritable (frames_of (map written ms))
        × All IsWhole (map written ms)
  unfolding send_all
  send_all-stream_bytes [] _ = (refl, tt, tt)
  send_all-stream_bytes (m ∷ ms) ((unmarked, fits), sendable) =
      let (e, others, whole) = send_all-stream_bytes ms sendable in
      (
        rw (message_to_buffer-written alloc_unsafe length-alloc_unsafe m fits, e)
            (ap some (sym (stream_bytes-append (written m) (frames_of (map written ms))))),
        All-append IsWritable (written m) (frames_of (map written ms)) fits others,
        (written-IsWhole m unmarked, whole),
      )

  -- Messages of one frame or more, none but the last of them marked as final and all of a size and
  -- flags that fit their fields, can be written; and in whatever chunks the bytes then arrive, empty
  -- ones and cuts inside headers included, the listener for data hands on these messages, in order,
  -- with the flags as written, and it ends with no bytes and no message in part.
  pub on_chunks-send_all :
      (ms : List Message) (chunks : List Buffer)
      → All IsSendable ms
      → send_all alloc_unsafe ms ≡ some (concat chunks)
      → (after : Reader) × (on_chunks chunks new_reader ≡ some (map written ms, after))
        × (after.client_message ≡ none)
        × (concat after.chunks ≡ [])
  on_chunks-send_all ms chunks sendable sent =
      let (e, fits, whole) = send_all-stream_bytes ms sendable in
      let frames = frames_of (map written ms) in
      let bytes : concat chunks ≡ stream_bytes frames = cc in
      let got =
        on_chunks-Received chunks frames new_reader fits
          (record { bytes = bytes; total = refl; header = unread refl }) (Short-zero frames) in
      let (all_read, no_bytes) = end_of_stream got.left got.after got.awaits got.short in
      let (same, no_part) = Emits-frames_of (map written ms) whole (
        subst (λ l. Emits none frames got.messages got.after.client_message l) all_read
          got.emits) in
      (got.after, got.returns ∙ ap (λ n. some (n, got.after)) same, no_part, no_bytes)
