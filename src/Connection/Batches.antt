-- ===== src/Connection/Batches.antt =====
-- network/Connection.ts: the pipelined writer sends messages whole and in order, whatever batches it
-- makes of them.
use hazelcast_nodejs_client.Prelude.{
  ℕ, ◌+◌, ◌≡◌, ◌≤◌, ◌⊎◌, inl, inr, refl, ap, sym, ◌∙◌, Bool, true, false, Bool-cases, List, [], ◌∷◌,
  ◌++◌, append_assoc, append-nil, arith, leb, length, take,
}
use hazelcast_nodejs_client.Buffers.{Buffer, overwrite}
use hazelcast_nodejs_client.Buffers.Words.{take-overwrite, length-overwrite}
use hazelcast_nodejs_client.Connection.Reader.{concat}
use hazelcast_nodejs_client.Connection.Writer.{
  OutputQueueItem, Settled, length_of, total_length, takes_next, take_batch, coalesce, is_large,
  first_message, batch_buffer, resolve_all,
}

abbrev pub bytes_of : List OutputQueueItem → Buffer
bytes_of [] = []
bytes_of (item ∷ items) = item.message ++ bytes_of items

abbrev pub batches : List (List OutputQueueItem) → List OutputQueueItem
batches [] = []
batches (batch ∷ others) = batch ++ batches others

pub bytes_of-append :
    (xs ys : List OutputQueueItem) → bytes_of (xs ++ ys) ≡ bytes_of xs ++ bytes_of ys
bytes_of-append [] ys = refl
bytes_of-append (x ∷ xs) ys =
    ap (λ b. x.message ++ b) (bytes_of-append xs ys)
    ∙ sym (append_assoc x.message (bytes_of xs) (bytes_of ys))

pub batches-snoc :
    (flying : List (List OutputQueueItem)) (batch : List OutputQueueItem)
    → batches (flying ++ batch ∷ []) ≡ batches flying ++ batch
batches-snoc [] batch = append-nil batch
batches-snoc (b ∷ flying) batch =
    ap (λ l. b ++ l) (batches-snoc flying batch) ∙ sym (append_assoc b (batches flying) batch)

pub concat-last :
    (socket : List Buffer) (buf : Buffer) → concat (socket ++ buf ∷ []) ≡ concat socket ++ buf
concat-last [] buf = append-nil buf
concat-last (b ∷ socket) buf =
    ap (λ l. b ++ l) (concat-last socket buf) ∙ sym (append_assoc b (concat socket) buf)

pub resolve_all-append :
    (settle : ℕ → Settled) (xs ys : List OutputQueueItem)
    → resolve_all settle (xs ++ ys) ≡ resolve_all settle xs ++ resolve_all settle ys
unfolding resolve_all
resolve_all-append settle [] ys = refl
resolve_all-append settle (x ∷ xs) ys =
    ap (◌∷◌ (settle x.resolver)) (resolve_all-append settle xs ys)

-- A batch is the front of the queue; of several messages it fits the threshold.
pub take_batch-queue :
    (threshold total : ℕ) (is_first : Bool) (queue : List OutputQueueItem)
    → (take_batch threshold total is_first queue).0 ++ (take_batch threshold total is_first queue).1
      ≡ queue
unfolding take_batch
take_batch-queue threshold total is_first [] = refl
take_batch-queue threshold total is_first (item ∷ queue) =
    elim (Bool-cases (takes_next threshold total is_first item)) [
      | inl e ↦
          rw (e) (ap (◌∷◌ item) (take_batch-queue threshold (total + length_of item) false queue))
      | inr e ↦ rw (e)
    ]

take_batch-fits :
    (threshold total : ℕ) (queue : List OutputQueueItem)
    → total ≤ threshold
    → total + total_length ((take_batch threshold total false queue).0) ≤ threshold
unfolding take_batch total_length takes_next
take_batch-fits threshold total [] h = omega arith
take_batch-fits threshold total (item ∷ queue) h =
    elim (Bool-cases (takes_next threshold total false item)) [
      | inl e ↦
          let fits : total + length_of item ≤ threshold = ground (arith, e) in
          rw (e) (omega (arith, take_batch-fits threshold (total + length_of item) queue fits))
      | inr e ↦ rw (e) (omega arith)
    ]

length-coalesce :
    (buffer : Buffer) (p : ℕ) (batch : List OutputQueueItem)
    → length (coalesce buffer p batch) ≡ length buffer
unfolding coalesce
length-coalesce buffer p [] = refl
length-coalesce buffer p (item ∷ batch) =
    length-coalesce (overwrite buffer p item.message) (p + length_of item) batch
    ∙ length-overwrite buffer p item.message

take-coalesce :
    (buffer : Buffer) (p : ℕ) (batch : List OutputQueueItem)
    → p + total_length batch ≤ length buffer
    → take (p + total_length batch) (coalesce buffer p batch) ≡ take p buffer ++ bytes_of batch
unfolding coalesce total_length
take-coalesce buffer p [] h =
    let end : p + 0 ≡ p = omega arith in rw (end) (sym (append-nil (take p buffer)))
take-coalesce buffer p (item ∷ batch) h =
    let next = overwrite buffer p item.message in
    let sum : p + (length_of item + total_length batch) ≡ p + length_of item + total_length batch =
      omega arith in
    rw (sum) (
      take-coalesce next (p + length_of item) batch
        (omega (arith, length-overwrite buffer p item.message))
      ∙ ap (λ l. l ++ bytes_of batch)
          (take-overwrite buffer p item.message (p + length_of item) refl (omega arith))
      ∙ append_assoc (take p buffer) item.message (bytes_of batch))

take_batch-full :
    (threshold total : ℕ) (queue : List OutputQueueItem)
    → threshold ≤ total
    → (take_batch threshold total false queue).0 ≡ []
unfolding take_batch takes_next
take_batch-full threshold total [] h = refl
take_batch-full threshold total (item ∷ queue) h =
    let none_left : takes_next threshold total false item ≡ false = ground (arith, h) in
    rw (none_left)

-- A batch of one message, or one that fits the threshold.
take_batch-cases :
    (threshold : ℕ) (queue : List OutputQueueItem)
    → (length ((take_batch threshold 0 true queue).0) ≡ 1)
      ⊎ (total_length ((take_batch threshold 0 true queue).0) ≤ threshold)
unfolding take_batch total_length
take_batch-cases threshold [] = inr (omega arith)
take_batch-cases threshold (item ∷ queue) = elim (Bool-cases (takes_next threshold 0 true item)) [
  | inr e ↦ rw (e) (inr (omega arith))
  | inl e ↦ elim (Bool-cases (leb (0 + length_of item) threshold)) [
    | inl fits ↦ rw (e) (
        inr (
          omega
            (arith, take_batch-fits threshold (0 + length_of item) queue (ground (arith, fits)))))
    | inr large ↦
        let alone = take_batch-full threshold (0 + length_of item) queue (ground (arith, large)) in
        rw (e, alone) (inl refl)
  ]
]

length-one :
    (batch : List OutputQueueItem) → length batch ≡ 1 → first_message batch ≡ bytes_of batch
unfolding first_message
length-one [] e = absurd (omega (arith, e))
length-one (item ∷ []) e = sym (append-nil item.message)
length-one (item ∷ other ∷ batch) e = absurd (omega (arith, e))

-- What is written to the socket are the bytes of the batch.
pub batch_buffer-bytes_of :
    (threshold : ℕ) (coalesce_buf : Buffer) (queue : List OutputQueueItem)
    → length coalesce_buf ≡ threshold
    → let batch = (take_batch threshold 0 true queue).0 in
      ((batch_buffer threshold coalesce_buf batch).0 ≡ bytes_of batch)
      × (length ((batch_buffer threshold coalesce_buf batch).1) ≡ threshold)
unfolding batch_buffer is_large
batch_buffer-bytes_of threshold coalesce_buf queue size =
    let batch = (take_batch threshold 0 true queue).0 in
    elim (Bool-cases (is_large threshold batch)) [
      | inl large ↦ rw (large) (length-one batch (ground (arith, large)), size)
      | inr small ↦
          let fits : total_length batch ≤ threshold =
            ground (arith, small, take_batch-cases threshold queue) in
          let zero_plus : 0 + total_length batch ≡ total_length batch = omega arith in
          rw (small) (
            rw (← zero_plus) (take-coalesce coalesce_buf 0 batch (omega (arith, fits, size))),
            length-coalesce coalesce_buf 0 batch ∙ size,
          )
    ]
