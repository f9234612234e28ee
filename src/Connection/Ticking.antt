-- ===== src/Connection/Ticking.antt =====
-- network/Connection.ts: a tick of the pipelined writer and a message that it accepts keep the order.
use hazelcast_nodejs_client.Prelude.{
  ℕ, ◌-◌, ◌≡◌, inl, inr, refl, ap, sym, subst, ◌∙◌, Bool, true, false, List, [], ◌∷◌, ◌++◌,
  append_assoc, Option, none, some, arith, ◌==◌, if◌then◌else◌, length,
}
use hazelcast_nodejs_client.Buffers.{Buffer}
use hazelcast_nodejs_client.Connection.Writer.{
  OutputQueueItem, resolved, PipelinedWriter, new_writer, on_drain, write, total_length, take_batch,
  batch_buffer, write_batch, process, resolve_all,
}
use hazelcast_nodejs_client.Connection.Batches.{
  bytes_of, batches, bytes_of-append, batches-snoc, concat-last, take_batch-queue,
  batch_buffer-bytes_of,
}
use hazelcast_nodejs_client.Connection.Ordering.{
  Ordered, Reach, begin, writes, refuses, ticks, drains, flushes, fails, closes, scheduled-Ordered,
  schedule-Ordered, close-Ordered, on_flushed-Ordered, on_flush_failed-Ordered,
}

-- The closed writer has nothing to take.
take_batch-closed :
    (threshold : ℕ) (queue : List OutputQueueItem)
    → queue ≡ []
    → total_length ((take_batch threshold 0 true queue).0) ≡ 0
unfolding take_batch total_length
take_batch-closed threshold [] e = refl
take_batch-closed threshold (item ∷ queue) e = absurd (cc)

pub accepted_by :
    (error closed : Bool) (refused : Option PipelinedWriter) (w w' : PipelinedWriter)
    → error ≡ false
    → (if error then refused else if closed then none else some w) ≡ some w'
    → (closed ≡ false) × (w ≡ w')
accepted_by true closed refused w w' fine h = absurd (cc)
accepted_by false true refused w w' fine h = absurd (cc)
accepted_by false false refused w w' fine h = (refl, cc)

pub refused_by :
    (error : Bool) (other : Option PipelinedWriter) (w w' : PipelinedWriter)
    → error ≡ true
    → (if error then some w else other) ≡ some w'
    → w ≡ w'
refused_by true other w w' wrong h = cc
refused_by false other w w' wrong h = absurd (cc)

module _ {threshold : ℕ} {accepted : List OutputQueueItem} where
  write_batch-Ordered :
      (accepts : Bool) (n : ℕ) (w : PipelinedWriter)
      → (w.error ≡ false)
        × (o : Ordered threshold accepted w) × (o.rest ≡ w.queue)
        × (w.settled ≡ resolve_all resolved o.done)
      → Ordered threshold accepted (
          write_batch threshold accepts
            (take_batch threshold 0 true w.queue)
            (record w { ticks = n }))
  unfolding write_batch
  write_batch-Ordered accepts n w (fine, o, same, told) =
      let batch = (take_batch threshold 0 true w.queue).0 in
      let left = (take_batch threshold 0 true w.queue).1 in
      let flying = batches w.in_flight in
      let sent : batches (w.in_flight ++ batch ∷ []) ≡ flying ++ batch =
        batches-snoc w.in_flight batch in
      let grown : o.done ++ batches (w.in_flight ++ batch ∷ []) ≡ (o.done ++ flying) ++ batch =
        ap (λ l. o.done ++ l) sent ∙ sym (append_assoc o.done flying batch) in
      let written = batch_buffer-bytes_of threshold w.coalesce_buf w.queue o.size in
      let queued : o.rest ≡ batch ++ left =
        same ∙ sym (take_batch-queue threshold 0 true w.queue) in
      record {
        done = o.done;
        rest = left;
        all =
            o.all
            ∙ ap (λ l. (o.done ++ flying) ++ l) queued
            ∙ sym (append_assoc (o.done ++ flying) batch left)
            ∙ ap (λ l. l ++ left) (sym grown);
        bytes =
            concat-last w.socket ((batch_buffer threshold w.coalesce_buf batch).0)
            ∙ ap (λ l. l ++ (batch_buffer threshold w.coalesce_buf batch).0) o.bytes
            ∙ ap (λ l. bytes_of (o.done ++ flying) ++ l) written.0
            ∙ sym (bytes_of-append (o.done ++ flying) batch)
            ∙ ap bytes_of (sym grown);
        state = inr (fine, refl, told);
        size = written.1;
      }

  choose-Ordered :
      {taken left : PipelinedWriter} (b : Bool)
      → Ordered threshold accepted taken
      → (b ≡ false → Ordered threshold accepted left)
      → Ordered threshold accepted (if b then taken else left)
  choose-Ordered true o p = o
  choose-Ordered false o p = p refl

  pub process-Ordered :
      (accepts : Bool) (w : PipelinedWriter)
      → Ordered threshold accepted w
      → Ordered threshold accepted (process threshold accepts w)
  unfolding process
  process-Ordered accepts w o =
      let idle = scheduled-Ordered false w.can_write (w.ticks - 1) o in
      choose-Ordered w.error (scheduled-Ordered w.scheduled w.can_write (w.ticks - 1) o) (λ fine.
        choose-Ordered (total_length ((take_batch threshold 0 true w.queue).0) == 0) idle
          (λ some_left. elim o.state [
            | inl (shut, empty) ↦
                absurd (ground (arith, take_batch-closed threshold w.queue empty, some_left))
            | inr (sound, same, told) ↦
                write_batch-Ordered accepts (w.ticks - 1) w (fine, o, same, told)
          ]))

  pub on_drain-Ordered :
      (w : PipelinedWriter) → Ordered threshold accepted w → Ordered threshold accepted (on_drain w)
  unfolding on_drain
  on_drain-Ordered w o = schedule-Ordered (scheduled-Ordered w.scheduled true w.ticks o)

  -- An item joins the queue of an open writer.
  queued-Ordered :
      (item : OutputQueueItem) (w : PipelinedWriter)
      → w.closed ≡ false
      → Ordered threshold accepted w
      → Ordered threshold (accepted ++ item ∷ []) (record w { queue = w.queue ++ item ∷ [] })
  queued-Ordered item w unclosed o = record {
    done = o.done;
    rest = o.rest ++ item ∷ [];
    all =
        ap (λ l. l ++ item ∷ []) o.all
        ∙ append_assoc (o.done ++ batches w.in_flight) o.rest (item ∷ []);
    bytes = o.bytes;
    state = elim o.state [
      | inl (shut, empty) ↦ absurd (cc)
      | inr (fine, same, told) ↦ inr (fine, ap (λ l. l ++ item ∷ []) same, told)
    ];
    size = o.size;
  }

  write-Ordered :
      (item : OutputQueueItem) (w w' : PipelinedWriter)
      → w.error ≡ false
      → write item w ≡ some w'
      → Ordered threshold accepted w
      → Ordered threshold (accepted ++ item ∷ []) w'
  unfolding write
  write-Ordered item w w' fine h o =
      let (unclosed, same) = accepted_by w.error w.closed _ _ w' fine h in
      subst (Ordered threshold (accepted ++ item ∷ [])) same
        (schedule-Ordered (queued-Ordered item w unclosed o))

  refused-Ordered :
      (item : OutputQueueItem) (w w' : PipelinedWriter)
      → w.error ≡ true
      → write item w ≡ some w'
      → Ordered threshold accepted w
      → Ordered threshold accepted w'
  unfolding write
  refused-Ordered item w w' wrong h o =
      subst (Ordered threshold accepted) (refused_by w.error _ _ w' wrong h) (record {
        done = o.done;
        rest = o.rest;
        all = o.all;
        bytes = o.bytes;
        state = elim o.state [ inl shut ↦ inl shut | inr (fine, same, told) ↦ absurd (cc) ];
        size = o.size;
      })

begin-Ordered :
    {threshold : ℕ} (coalesce_buf : Buffer)
    → length coalesce_buf ≡ threshold
    → Ordered threshold [] (new_writer coalesce_buf)
unfolding new_writer resolve_all
begin-Ordered coalesce_buf size = record {
  done = [];
  rest = [];
  all = refl;
  bytes = refl;
  state = inr (refl, refl, refl);
  size = size;
}

-- Whatever messages a pipelined writer accepts and however its ticks, flushes, failures, drains and
-- its closing interleave: the socket has got the bytes of a front of the accepted messages, whole and
-- in order. Unless the writer was closed, all other accepted messages wait in its queue in order, and
-- the promises that are settled are those of the flushed messages, resolved in order.
pub Reach-Ordered :
    {threshold : ℕ} {accepted : List OutputQueueItem} {w : PipelinedWriter}
    → Reach threshold accepted w
    → Ordered threshold accepted w
Reach-Ordered (begin coalesce_buf size) = begin-Ordered coalesce_buf size
Reach-Ordered (writes {w} {w'} item r fine h) = write-Ordered item w w' fine h (Reach-Ordered r)
Reach-Ordered (refuses {w} {w'} item r wrong h) =
    refused-Ordered item w w' wrong h (Reach-Ordered r)
Reach-Ordered (ticks {w} accepts r due) = process-Ordered accepts w (Reach-Ordered r)
Reach-Ordered (drains {w} r) = on_drain-Ordered w (Reach-Ordered r)
Reach-Ordered (flushes {w} r) = on_flushed-Ordered w.in_flight w (Reach-Ordered r)
Reach-Ordered (fails {w} r) = on_flush_failed-Ordered w.in_flight w (Reach-Ordered r)
Reach-Ordered (closes r) = close-Ordered (Reach-Ordered r)
