-- ===== src/Connection/Reader.antt =====
-- network/Connection.ts: `ClientMessageReader` and the listener for data of a connection. The loops
-- have fuel; with the bytes that have arrived, and one round more, it suffices.
use hazelcast_nodejs_client.Prelude.{
  ℕ, zero, suc, Bool, true, false, List, [], ◌∷◌, ◌++◌, Option, none, some, leb, if◌then◌else◌,
  length, ◌>>=◌, ℤ, pos, pos_part, ◌+ℤ◌, ◌-ℤ◌, ltb_ℤ, eqb_ℤ,
}
use hazelcast_nodejs_client.Buffers.{Buffer, slice, read_int32, read_uint16}
use hazelcast_nodejs_client.Connection.Message.{
  BytesFrame, Message, is_final_frame, end_frame_of, add_frame,
}

pub record Reader : Type 0 where
  pub chunks : List Buffer
  pub chunks_total_size : ℤ
  pub frame_size : ℤ
  pub flags : ℕ
  pub client_message : Option Message

abbrev pub new_reader : Reader
new_reader = record {
  chunks = [];
  chunks_total_size = pos 0;
  frame_size = pos 0;
  flags = 0;
  client_message = none;
}

-- `Buffer.concat`
abbrev pub concat : List Buffer → Buffer
concat [] = []
concat (chunk ∷ chunks) = chunk ++ concat chunks

unfoldable pub append : Buffer → Reader → Reader
append buffer r = record r {
  chunks_total_size = r.chunks_total_size +ℤ pos (length buffer);
  chunks = r.chunks ++ buffer ∷ [];
}

-- The chunks up to the one that completes the size and the flags, merged.
unfoldable pub merge_header : Buffer → List Buffer → Option Buffer
merge_header merged [] = none
merge_header merged (chunk ∷ chunks) =
    let rest = merge_header (merged ++ chunk) chunks in
    if leb 6 (length (merged ++ chunk)) then some (merged ++ chunk) else rest

unfoldable pub read_header : Buffer → Reader → Option Reader
read_header buffer r = do
  size ← read_int32 buffer (pos 0) false
  flags ← read_uint16 buffer (pos 4) false
  some (record r { frame_size = size; flags = flags })

unfoldable pub read_frame_size_and_flags : Reader → Option Reader
read_frame_size_and_flags r = elim r.chunks [
  | [] ↦ none
  | chunk ∷ chunks ↦
      if leb 6 (length chunk)
      then read_header chunk r
      else (merge_header [] (chunk ∷ chunks) >>= λ merged. read_header merged r)
]

-- The first frame is that of a new message.
unfoldable pub extend_message : Option Message → BytesFrame → Message
extend_message none frame = frame ∷ []
extend_message (some message) frame = add_frame message frame

unfoldable pub take_frame : Reader → Reader
take_frame r =
    let buf = concat r.chunks in
    let more = ltb_ℤ r.frame_size r.chunks_total_size in
    let end = if more then r.frame_size else pos (length buf) in
    let frame : BytesFrame = record { content = slice buf (pos 6) end; flags = r.flags } in
    record {
      chunks = if more then slice buf r.frame_size (pos (length buf)) ∷ [] else [];
      chunks_total_size = r.chunks_total_size -ℤ r.frame_size;
      frame_size = pos 0;
      flags = r.flags;
      client_message = some (extend_message r.client_message frame);
    }

unfoldable pub complete_frame : Reader → Bool × Reader
complete_frame r =
    if ltb_ℤ r.chunks_total_size r.frame_size then (false, r) else (true, take_frame r)

unfoldable pub read_frame : Reader → Option (Bool × Reader)
read_frame r =
    if ltb_ℤ r.chunks_total_size (pos 6)
    then some (false, r)
    else ((if eqb_ℤ r.frame_size (pos 0) then read_frame_size_and_flags r else some r) >>= λ sized.
        some (complete_frame sized))

-- Whether the message that is read ends with a final frame.
unfoldable pub is_complete : Option Message → Bool
is_complete none = false
is_complete (some message) = elim (end_frame_of message) [
  | none ↦ false
  | some f ↦ is_final_frame f
]

-- The rest of a round of `read`, given the next rounds.
unfoldable pub after_frame :
    (Reader → Option (Option Message × Reader)) → Bool × Reader → Option (Option Message × Reader)
after_frame loop (false, next) = some (none, next)
after_frame loop (true, next) = elim (is_complete next.client_message) [
  | true ↦ some (next.client_message, record next { client_message = none })
  | false ↦ loop next
]

unfoldable pub read : ℕ → Reader → Option (Option Message × Reader)
read zero r = none
read (suc fuel) r = read_frame r >>= after_frame (read fuel)

-- The messages that are read from what has arrived.
unfoldable pub read_all : ℕ → Reader → Option (List Message × Reader)
read_all zero r = none
read_all (suc fuel) r = do
  (message, next) ← read (suc (pos_part r.chunks_total_size)) r
  elim message [
    | none ↦ some ([], next)
    | some m ↦ do (messages, rest) ← read_all fuel next; some (m ∷ messages, rest)
  ]

-- The listener for `data`, with the messages that it hands on.
unfoldable pub on_data : Buffer → Reader → Option (List Message × Reader)
on_data buffer r =
    let received = append buffer r in read_all (suc (pos_part received.chunks_total_size)) received

unfoldable pub on_chunks : List Buffer → Reader → Option (List Message × Reader)
on_chunks [] r = some ([], r)
on_chunks (buffer ∷ buffers) r = do
  (messages, next) ← on_data buffer r
  (others, last) ← on_chunks buffers next
  some (messages ++ others, last)
