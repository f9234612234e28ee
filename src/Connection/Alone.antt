-- ===== src/Connection/Alone.antt =====
-- network/Connection.ts: the pipelined writer has one write in flight at most, so that its buffer for
-- coalescing is free again when it is written anew.
use hazelcast_nodejs_client.Prelude.{
  ℕ, suc, ◌+◌, ◌≡◌, ◌≤◌, inl, inr, refl, ap, subst, Bool, true, false, not, ◌&&◌, ◌||◌, Bool-cases,
  List, [], ◌∷◌, ◌++◌, some, arith, ◌==◌, if◌then◌else◌, length,
}
use hazelcast_nodejs_client.Buffers.{Buffer}
use hazelcast_nodejs_client.Connection.Writer.{
  OutputQueueItem, PipelinedWriter, new_writer, schedule, on_drain, write, close, total_length,
  take_batch, write_batch, process, on_flushed, on_flush_failed,
}
use hazelcast_nodejs_client.Connection.Ticking.{accepted_by, refused_by}
use hazelcast_nodejs_client.Connection.Ordering.{
  Reach, begin, writes, refuses, ticks, drains, flushes, fails, closes,
}

-- One tick or one write at most, and none unless the writer says that it is scheduled.
abbrev pub IsAlone : PipelinedWriter → Type 0
IsAlone w = w.ticks + length w.in_flight ≤ (if w.scheduled then 1 else 0)

snoc-length :
    (flying : List (List OutputQueueItem)) (b : List OutputQueueItem)
    → length (flying ++ b ∷ []) ≡ suc (length flying)
snoc-length [] b = refl
snoc-length (x ∷ flying) b = ap suc (snoc-length flying b)

if-IsAlone :
    (b : Bool) (taken left : PipelinedWriter)
    → (b ≡ true → IsAlone taken)
    → (b ≡ false → IsAlone left)
    → IsAlone (if b then taken else left)
if-IsAlone true taken left o p = o refl
if-IsAlone false taken left o p = p refl

schedule-IsAlone : (w : PipelinedWriter) → IsAlone w → IsAlone (schedule w)
unfolding schedule
schedule-IsAlone w h =
    if-IsAlone (not w.scheduled && w.can_write) _ _ (λ free. ground (arith, h, free)) (λ _. h)

process-IsAlone :
    (threshold : ℕ) (accepts : Bool) (w : PipelinedWriter)
    → 1 ≤ w.ticks
    → IsAlone w
    → IsAlone (process threshold accepts w)
unfolding process write_batch
process-IsAlone threshold accepts w due h =
    if-IsAlone w.error _ _ (λ _. ground (arith, h, due))
      (λ _.
        if-IsAlone (total_length ((take_batch threshold 0 true w.queue).0) == 0) _ _
          (λ _. ground (arith, h, due))
          (λ _.
            ground
              (arith, h, due, snoc-length w.in_flight (take_batch threshold 0 true w.queue).0)))

on_flushed-IsAlone :
    (flying : List (List OutputQueueItem)) (w : PipelinedWriter)
    → IsAlone (record w { in_flight = flying })
    → IsAlone (on_flushed (record w { in_flight = flying }))
unfolding on_flushed
on_flushed-IsAlone [] w h = h
on_flushed-IsAlone (batch ∷ others) w h =
    if-IsAlone ((length w.queue == 0) || not w.can_write) _ _ (λ _. ground (arith, h))
      (λ _. ground (arith, h))

on_flush_failed-IsAlone :
    (flying : List (List OutputQueueItem)) (w : PipelinedWriter)
    → IsAlone (record w { in_flight = flying })
    → IsAlone (on_flush_failed (record w { in_flight = flying }))
unfolding on_flush_failed close
on_flush_failed-IsAlone [] w h = h
on_flush_failed-IsAlone (batch ∷ others) w h = ground (arith, h)

on_drain-IsAlone : (w : PipelinedWriter) → IsAlone w → IsAlone (on_drain w)
unfolding on_drain
on_drain-IsAlone w h = schedule-IsAlone (record w { can_write = true }) h

close-IsAlone : (w : PipelinedWriter) → IsAlone w → IsAlone (close w)
unfolding close
close-IsAlone w h = h

begin-IsAlone : (coalesce_buf : Buffer) → IsAlone (new_writer coalesce_buf)
unfolding new_writer
begin-IsAlone coalesce_buf = omega arith

write-IsAlone :
    (item : OutputQueueItem) (w w' : PipelinedWriter)
    → write item w ≡ some w'
    → IsAlone w
    → IsAlone w'
unfolding write
write-IsAlone item w w' e h = elim (Bool-cases w.error) [
  | inl wrong ↦ subst IsAlone (refused_by w.error _ _ w' wrong e) h
  | inr fine ↦
      subst IsAlone (accepted_by w.error w.closed _ _ w' fine e).1
        (schedule-IsAlone (record w { queue = w.queue ++ item ∷ [] }) h)
]

-- However messages, ticks, flushes, failures, drains and its closing interleave, a pipelined writer has
-- at most one tick scheduled or one write in flight, and neither while it is not marked as scheduled.
pub Reach-IsAlone :
    {threshold : ℕ} {accepted : List OutputQueueItem} {w : PipelinedWriter}
    → Reach threshold accepted w
    → IsAlone w
Reach-IsAlone (begin coalesce_buf size) = begin-IsAlone coalesce_buf
Reach-IsAlone (writes {w} {w'} item r fine h) = write-IsAlone item w w' h (Reach-IsAlone r)
Reach-IsAlone (refuses {w} {w'} item r wrong h) = write-IsAlone item w w' h (Reach-IsAlone r)
Reach-IsAlone (ticks {w} accepts r due) = process-IsAlone _ accepts w due (Reach-IsAlone r)
Reach-IsAlone (drains {w} r) = on_drain-IsAlone w (Reach-IsAlone r)
Reach-IsAlone (flushes {w} r) = on_flushed-IsAlone w.in_flight w (Reach-IsAlone r)
Reach-IsAlone (fails {w} r) = on_flush_failed-IsAlone w.in_flight w (Reach-IsAlone r)
Reach-IsAlone (closes {w} r) = close-IsAlone w (Reach-IsAlone r)
