-- ===== src/Connection/Writer.antt =====
-- network/Connection.ts: `PipelinedWriter`, which writes queued messages in batches. A message is the
-- buffer of its bytes. The ticks are the calls of `process` that are scheduled; what the socket has
-- not flushed yet is in flight, batch by batch. `FROZEN_ARRAY` is the empty queue of a closed writer.
use hazelcast_nodejs_client.Prelude.{
  ℕ, suc, ◌+◌, ◌-◌, Bool, true, false, not, ◌&&◌, ◌||◌, List, [], ◌∷◌, ◌++◌, map, Option, none,
  some, ltb, leb, ◌==◌, if◌then◌else◌, length, take,
}
use hazelcast_nodejs_client.Buffers.{Buffer, overwrite}

-- A message and the promise of its writing.
pub record OutputQueueItem : Type 0 where
  pub resolver : ℕ
  pub message : Buffer

pub data Settled : Type 0 where
  resolved rejected : ℕ → Settled

pub record PipelinedWriter : Type 0 where
  pub queue : List OutputQueueItem
  pub error : Bool
  pub closed : Bool
  pub scheduled : Bool
  pub can_write : Bool
  pub coalesce_buf : Buffer
  pub ticks : ℕ
  pub in_flight : List (List OutputQueueItem)
  pub socket : List Buffer
  pub settled : List Settled

unfoldable pub new_writer : Buffer → PipelinedWriter
new_writer coalesce_buf = record {
  queue = [];
  error = false;
  closed = false;
  scheduled = false;
  can_write = true;
  coalesce_buf = coalesce_buf;
  ticks = 0;
  in_flight = [];
  socket = [];
  settled = [];
}

unfoldable pub schedule : PipelinedWriter → PipelinedWriter
schedule w =
    if not w.scheduled && w.can_write then record w { scheduled = true; ticks = suc w.ticks } else w

-- The listener for `drain`.
unfoldable pub on_drain : PipelinedWriter → PipelinedWriter
on_drain w = schedule (record w { can_write = true })

-- After an error the promise is rejected; the array of a closed writer cannot grow.
unfoldable pub write : OutputQueueItem → PipelinedWriter → Option PipelinedWriter
write item w =
    if w.error
    then some (record w { settled = w.settled ++ rejected item.resolver ∷ [] })
    else if w.closed
    then none
    else some (schedule (record w { queue = w.queue ++ item ∷ [] }))

unfoldable pub close : PipelinedWriter → PipelinedWriter
close w = record w { can_write = false; closed = true; queue = [] }

abbrev pub length_of : OutputQueueItem → ℕ
length_of item = length item.message

unfoldable pub total_length : List OutputQueueItem → ℕ
total_length [] = 0
total_length (item ∷ items) = length_of item + total_length items

-- Whether the loop takes the next message, with what it has taken so far.
unfoldable pub takes_next : ℕ → ℕ → Bool → OutputQueueItem → Bool
takes_next threshold total is_first item =
    ltb total threshold && (is_first || leb (total + length_of item) threshold)

-- The batch, and what stays in the queue.
unfoldable pub take_batch :
    ℕ → ℕ → Bool → List OutputQueueItem → List OutputQueueItem × List OutputQueueItem
take_batch threshold total is_first [] = ([], [])
take_batch threshold total is_first (item ∷ queue) =
    let (batch, rest) = take_batch threshold (total + length_of item) false queue in
    if takes_next threshold total is_first item then (item ∷ batch, rest) else ([], item ∷ queue)

-- The loop that writes a batch into the buffer for coalescing.
unfoldable pub coalesce : Buffer → ℕ → List OutputQueueItem → Buffer
coalesce buffer p [] = buffer
coalesce buffer p (item ∷ batch) =
    coalesce (overwrite buffer p item.message) (p + length_of item) batch

-- One large message is written as it is.
unfoldable pub is_large : ℕ → List OutputQueueItem → Bool
is_large threshold batch = (length batch == 1) && ltb threshold (total_length batch)

unfoldable pub first_message : List OutputQueueItem → Buffer
first_message [] = []
first_message (item ∷ _) = item.message

unfoldable pub batch_buffer : ℕ → Buffer → List OutputQueueItem → Buffer × Buffer
batch_buffer threshold coalesce_buf batch =
    if is_large threshold batch
    then (first_message batch, coalesce_buf)
    else (let written = coalesce coalesce_buf 0 batch in
        (take (total_length batch) written, written))

-- A tick: `process`, with what the socket answers to the write.
unfoldable pub write_batch :
    ℕ → Bool → List OutputQueueItem × List OutputQueueItem → PipelinedWriter → PipelinedWriter
write_batch threshold accepts (batch, rest) w =
    let (buf, coalesced) = batch_buffer threshold w.coalesce_buf batch in
    record w {
      queue = rest;
      coalesce_buf = coalesced;
      can_write = accepts;
      in_flight = w.in_flight ++ batch ∷ [];
      socket = w.socket ++ buf ∷ [];
    }

unfoldable pub process : ℕ → Bool → PipelinedWriter → PipelinedWriter
process threshold accepts w =
    let ticked = record w { ticks = w.ticks - 1 } in
    let (batch, rest) = take_batch threshold 0 true w.queue in
    if w.error
    then ticked
    else if total_length batch == 0
    then record ticked { scheduled = false }
    else write_batch threshold accepts (batch, rest) ticked

unfoldable pub resolve_all : (ℕ → Settled) → List OutputQueueItem → List Settled
resolve_all settle items = map (λ item. settle item.resolver) items

-- The callback of the socket, for the batch that was written first.
unfoldable pub on_flushed : PipelinedWriter → PipelinedWriter
on_flushed w = elim w.in_flight [
  | [] ↦ w
  | batch ∷ others ↦
      let flushed = record w {
        in_flight = others;
        settled = w.settled ++ resolve_all resolved batch;
      } in
      if (length w.queue == 0) || not w.can_write
      then record flushed { scheduled = false }
      else record flushed { ticks = suc w.ticks }
]

-- `handleError`
unfoldable pub on_flush_failed : PipelinedWriter → PipelinedWriter
on_flush_failed w = elim w.in_flight [
  | [] ↦ w
  | batch ∷ others ↦ close (record w {
    error = true;
    in_flight = others;
    settled = w.settled ++ (resolve_all rejected batch ++ resolve_all rejected w.queue);
  })
]
