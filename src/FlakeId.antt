-- ===== src/FlakeId.antt =====
-- proxy/flakeid/AutoBatcher.ts: batches of ids, and the queue of the callers that wait for one.
-- Promises are named by the order of their calls of `nextId`; `now` is `Date.now()`, the same for
-- all rounds of one loop.
pub mod Batches
pub mod Callers
use hazelcast_nodejs_client.Prelude.{
  ℕ, suc, ◌+◌, ◌-◌, ◌^◌, Bool, true, false, List, [], ◌∷◌, ◌++◌, map, Option, none, some, ltb, leb,
  if◌then◌else◌, ℤ, pos, eqb_ℤ, long_add, long_multiply,
}

pub record Batch : Type 0 where
  pub next_id_long : ℤ
  pub increment : ℤ
  pub invalid_since : ℕ
  pub first_invalid_id : ℤ

unfoldable pub create_batch : ℕ → ℤ → ℤ → ℕ → ℕ → Batch
create_batch validity_millis base increment batch_size now = record {
  next_id_long = base;
  increment = increment;
  invalid_since = if ltb 0 validity_millis then validity_millis + now else 2 ^ 53 - 1;
  first_invalid_id = long_add base (long_multiply increment (pos batch_size));
}

-- `Batch.nextId`
unfoldable pub next_of_batch : Batch → ℕ → Batch × Option ℤ
next_of_batch b now =
    if leb b.invalid_since now
    then (b, none)
    else if eqb_ℤ b.first_invalid_id b.next_id_long
    then (b, none)
    else (record b { next_id_long = long_add b.next_id_long b.increment }, some b.next_id_long)

-- `none` in place of an id is a rejection.
pub record AutoBatcher : Type 0 where
  pub queue : List ℕ
  pub batch : Option Batch
  pub request_in_flight : Bool
  pub promises : ℕ
  pub settled : List (ℕ × Option ℤ)

abbrev pub create : AutoBatcher
create = record { queue = []; batch = none; request_in_flight = false; promises = 0; settled = [] }

-- The loop of `processIdRequests`: the batch that it leaves, the promises that it settles, and the
-- rest of the queue.
unfoldable pub serve : Option Batch → ℕ → List ℕ → Option Batch × List (ℕ × Option ℤ) × List ℕ
unfolding next_of_batch
serve batch now [] = (batch, [], [])
serve none now (p ∷ queue) = (none, [], p ∷ queue)
serve (some b) now (p ∷ queue) = elim (next_of_batch b now).1 [
  | none ↦ (some (next_of_batch b now).0, [], p ∷ queue)
  | some id ↦
      let (left, answers, rest) = serve (some (next_of_batch b now).0) now queue in
      (left, (p, some id) ∷ answers, rest)
]

-- `assignNewBatch` up to the answer of the supplier: it is asked unless it already is.
unfoldable pub assign_new_batch : AutoBatcher → AutoBatcher
assign_new_batch a = if a.request_in_flight then a else record a { request_in_flight = true }

unfoldable pub process_id_requests : AutoBatcher → ℕ → AutoBatcher
unfolding serve assign_new_batch
process_id_requests a now =
    let (left, answers, rest) = serve a.batch now a.queue in
    let served = record a { batch = left; settled = a.settled ++ answers; queue = rest } in
    elim rest [ [] ↦ served | _ ∷ _ ↦ assign_new_batch served ]

unfoldable pub next_id : AutoBatcher → ℕ → AutoBatcher
unfolding process_id_requests
next_id a now =
    process_id_requests (record a { queue = a.queue ++ a.promises ∷ []; promises = suc a.promises })
      now

-- The supplier's answer, a batch or an error.
unfoldable pub receive_batch : AutoBatcher → Batch → ℕ → AutoBatcher
unfolding process_id_requests
receive_batch a batch now =
    process_id_requests (record a { request_in_flight = false; batch = some batch }) now

unfoldable pub reject_all : AutoBatcher → AutoBatcher
reject_all a = record a { settled = a.settled ++ map (λ p. (p, none)) a.queue; queue = [] }

unfoldable pub receive_error : AutoBatcher → AutoBatcher
unfolding reject_all
receive_error a = reject_all (record a { request_in_flight = false })
