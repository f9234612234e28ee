-- ===== src/Connection/Ordering.antt =====
-- network/Connection.ts: what the socket has got of the messages that the pipelined writer accepted.
use hazelcast_nodejs_client.Prelude.{
  ℕ, suc, ◌≡◌, ◌≤◌, ◌⊎◌, inl, inr, refl, ap, sym, ◌∙◌, Bool, true, false, not, ◌&&◌, ◌||◌, List, [],
  ◌∷◌, ◌++◌, append_assoc, some, ◌==◌, if◌then◌else◌, length,
}
use hazelcast_nodejs_client.Buffers.{Buffer}
use hazelcast_nodejs_client.Connection.Reader.{concat}
use hazelcast_nodejs_client.Connection.Writer.{
  OutputQueueItem, resolved, PipelinedWriter, new_writer, schedule, on_drain, write, close, process,
  resolve_all, on_flushed, on_flush_failed,
}
use hazelcast_nodejs_client.Connection.Batches.{bytes_of, batches, resolve_all-append}

-- The accepted messages are those that were flushed, those in flight, and the rest. The socket has
-- got the bytes of the first two, whole and in order. The rest waits in the queue and the promises of
-- the flushed ones are resolved, in order, unless the writer was closed.
pub record Ordered (threshold : ℕ) (accepted : List OutputQueueItem) (w : PipelinedWriter)
    : Type 0 where
  pub done : List OutputQueueItem
  pub rest : List OutputQueueItem
  pub all : accepted ≡ (done ++ batches w.in_flight) ++ rest
  pub bytes : concat w.socket ≡ bytes_of (done ++ batches w.in_flight)
  pub state :
      ((w.closed ≡ true) × (w.queue ≡ []))
      ⊎ ((w.error ≡ false) × (rest ≡ w.queue) × (w.settled ≡ resolve_all resolved done))
  pub size : length w.coalesce_buf ≡ threshold

-- The messages that a writer accepts, and what may happen to it in between; a tick was scheduled.
pub data Reach (threshold : ℕ) : List OutputQueueItem → PipelinedWriter → Type 0 where
  begin :
      (coalesce_buf : Buffer)
      → length coalesce_buf ≡ threshold
      → Reach threshold [] (new_writer coalesce_buf)
  writes :
      {accepted : List OutputQueueItem} {w w' : PipelinedWriter} (item : OutputQueueItem)
      → Reach threshold accepted w
      → w.error ≡ false
      → write item w ≡ some w'
      → Reach threshold (accepted ++ item ∷ []) w'
  refuses :
      {accepted : List OutputQueueItem} {w w' : PipelinedWriter} (item : OutputQueueItem)
      → Reach threshold accepted w
      → w.error ≡ true
      → write item w ≡ some w'
      → Reach threshold accepted w'
  ticks :
      {accepted : List OutputQueueItem} {w : PipelinedWriter} (accepts : Bool)
      → Reach threshold accepted w
      → 1 ≤ w.ticks
      → Reach threshold accepted (process threshold accepts w)
  drains :
      {accepted : List OutputQueueItem} {w : PipelinedWriter}
      → Reach threshold accepted w
      → Reach threshold accepted (on_drain w)
  flushes :
      {accepted : List OutputQueueItem} {w : PipelinedWriter}
      → Reach threshold accepted w
      → Reach threshold accepted (on_flushed w)
  fails :
      {accepted : List OutputQueueItem} {w : PipelinedWriter}
      → Reach threshold accepted w
      → Reach threshold accepted (on_flush_failed w)
  closes :
      {accepted : List OutputQueueItem} {w : PipelinedWriter}
      → Reach threshold accepted w
      → Reach threshold accepted (close w)

module _ {threshold : ℕ} {accepted : List OutputQueueItem} where
  pub if-Ordered :
      {taken left : PipelinedWriter} (b : Bool)
      → Ordered threshold accepted taken
      → Ordered threshold accepted left
      → Ordered threshold accepted (if b then taken else left)
  if-Ordered true o p = o
  if-Ordered false o p = p

  -- Which ticks are scheduled does not matter to what was sent.
  pub scheduled-Ordered :
      {w : PipelinedWriter} (scheduled can_write : Bool) (n : ℕ)
      → Ordered threshold accepted w
      → Ordered threshold accepted
          (record w { scheduled = scheduled; can_write = can_write; ticks = n })
  scheduled-Ordered scheduled can_write n o = record {
    done = o.done;
    rest = o.rest;
    all = o.all;
    bytes = o.bytes;
    state = o.state;
    size = o.size;
  }

  pub schedule-Ordered :
      {w : PipelinedWriter} → Ordered threshold accepted w → Ordered threshold accepted (schedule w)
  unfolding schedule
  schedule-Ordered {w} o =
      if-Ordered (not w.scheduled && w.can_write)
        (scheduled-Ordered true w.can_write (suc w.ticks) o) o

  pub close-Ordered :
      {w : PipelinedWriter} → Ordered threshold accepted w → Ordered threshold accepted (close w)
  unfolding close
  close-Ordered o = record {
    done = o.done;
    rest = o.rest;
    all = o.all;
    bytes = o.bytes;
    state = inl (refl, refl);
    size = o.size;
  }

  pub on_flushed-Ordered :
      (flying : List (List OutputQueueItem)) (w : PipelinedWriter)
      → Ordered threshold accepted (record w { in_flight = flying })
      → Ordered threshold accepted (on_flushed (record w { in_flight = flying }))
  unfolding on_flushed
  on_flushed-Ordered [] w o = o
  on_flushed-Ordered (batch ∷ others) w o =
      let moved = append_assoc o.done batch (batches others) in
      let flushed : PipelinedWriter = record w {
        in_flight = others;
        settled = w.settled ++ resolve_all resolved batch;
      } in
      let f : Ordered threshold accepted flushed = record {
        done = o.done ++ batch;
        rest = o.rest;
        all = o.all ∙ ap (λ l. l ++ o.rest) (sym moved);
        bytes = o.bytes ∙ ap bytes_of (sym moved);
        state = elim o.state [
          | inl shut ↦ inl shut
          | inr (fine, same, told) ↦ inr (
            fine,
            same,
            ap (λ l. l ++ resolve_all resolved batch) told
                ∙ sym (resolve_all-append resolved o.done batch),
          )
        ];
        size = o.size;
      } in
      if-Ordered ((length w.queue == 0) || not w.can_write)
        (scheduled-Ordered false w.can_write w.ticks f)
        (scheduled-Ordered w.scheduled w.can_write (suc w.ticks) f)

  pub on_flush_failed-Ordered :
      (flying : List (List OutputQueueItem)) (w : PipelinedWriter)
      → Ordered threshold accepted (record w { in_flight = flying })
      → Ordered threshold accepted (on_flush_failed (record w { in_flight = flying }))
  unfolding on_flush_failed close
  on_flush_failed-Ordered [] w o = o
  on_flush_failed-Ordered (batch ∷ others) w o =
      let moved = append_assoc o.done batch (batches others) in
      record {
        done = o.done ++ batch;
        rest = o.rest;
        all = o.all ∙ ap (λ l. l ++ o.rest) (sym moved);
        bytes = o.bytes ∙ ap bytes_of (sym moved);
        state = inl (refl, refl);
        size = o.size;
      }
