-- ===== src/Tests/Writers.antt =====
-- A pipelined writer with room for 8 bytes: two messages go in one batch, and a large one waits for the
-- flush.
use hazelcast_nodejs_client.Prelude.{◌≡◌, refl, true, false, [], ◌∷◌, ◌++◌, arith}
use hazelcast_nodejs_client.Buffers.{overwrite}
use hazelcast_nodejs_client.Connection.Writer.{
  OutputQueueItem, PipelinedWriter, new_writer, schedule, write, process, on_flushed, take_batch,
  total_length, takes_next, batch_buffer, is_large, first_message, coalesce, write_batch,
  resolve_all, resolved,
}
use hazelcast_nodejs_client.Connection.Ordering.{Ordered, Reach, begin, writes, ticks, flushes}
use hazelcast_nodejs_client.Connection.Ticking.{Reach-Ordered}
use hazelcast_nodejs_client.Connection.Alone.{IsAlone, Reach-IsAlone}

abbrev three : OutputQueueItem
three = record { resolver = 1; message = 1 ∷ 2 ∷ 3 ∷ [] }

abbrev four : OutputQueueItem
four = record { resolver = 2; message = 4 ∷ 5 ∷ 6 ∷ 7 ∷ [] }

abbrev nine : OutputQueueItem
nine = record { resolver = 3; message = 9 ∷ 9 ∷ 9 ∷ 9 ∷ 9 ∷ 9 ∷ 9 ∷ 9 ∷ 9 ∷ [] }

abbrev fresh : PipelinedWriter
fresh = new_writer (0 ∷ 0 ∷ 0 ∷ 0 ∷ 0 ∷ 0 ∷ 0 ∷ 0 ∷ [])

abbrev queued : OutputQueueItem → PipelinedWriter → PipelinedWriter
queued item w = schedule (record w { queue = w.queue ++ item ∷ [] })

abbrev filled : PipelinedWriter
filled = queued nine (queued four (queued three fresh))

abbrev after_flush : PipelinedWriter
after_flush = process 8 false (on_flushed (process 8 true filled))

filled-Reach : Reach 8 (three ∷ four ∷ nine ∷ []) filled
unfolding write schedule new_writer
filled-Reach = writes nine (writes four (writes three (begin _ refl) refl refl) refl refl) refl refl

after_flush-Reach : Reach 8 (three ∷ four ∷ nine ∷ []) after_flush
unfolding write schedule new_writer process take_batch total_length takes_next batch_buffer is_large
    first_message coalesce overwrite write_batch on_flushed
after_flush-Reach = ticks false (flushes (ticks true filled-Reach (omega arith))) (omega arith)

Reach-Ordered_example : Ordered 8 (three ∷ four ∷ nine ∷ []) after_flush
Reach-Ordered_example = Reach-Ordered after_flush-Reach

Reach-IsAlone_example : IsAlone after_flush
Reach-IsAlone_example = Reach-IsAlone after_flush-Reach

-- Both batches, the second one being the large message itself.
after_flush-socket :
    (after_flush.socket ≡ (1 ∷ 2 ∷ 3 ∷ 4 ∷ 5 ∷ 6 ∷ 7 ∷ []) ∷ nine.message ∷ [])
    × (after_flush.settled ≡ resolved 1 ∷ resolved 2 ∷ [])
unfolding write schedule new_writer process take_batch total_length takes_next batch_buffer is_large
    first_message coalesce overwrite write_batch on_flushed resolve_all
after_flush-socket = (refl, refl)
