-- ===== src/Tests/FlakeIds.antt =====
-- Three callers on batches of two ids.
use hazelcast_nodejs_client.Prelude.{
  ◌≡◌, refl, [], ◌∷◌, some, none, arith, pos, inr, long_add, long_multiply, wrap64, ◌+ℤ◌, ◌*ℤ◌,
}
use hazelcast_nodejs_client.FlakeId.{
  AutoBatcher, Batch, create, create_batch, next_id, receive_batch, receive_error, serve,
  process_id_requests,
}
use hazelcast_nodejs_client.FlakeId.Batches.{serve-create_batch}
use hazelcast_nodejs_client.FlakeId.Callers.{Fair, here, next, calls, answers, errs, Reach-Fair}

abbrev batch : Batch
batch = create_batch 1000 (pos 40) (pos 10) 2 5

serve-create_batch_example :
    ((serve (some batch) 6 (0 ∷ 1 ∷ 2 ∷ [])).1 ≡ (0, some (pos 40)) ∷ (1, some (pos 50)) ∷ [])
    × ((serve (some batch) 6 (0 ∷ 1 ∷ 2 ∷ [])).2 ≡ 2 ∷ [])
serve-create_batch_example =
    serve-create_batch 1000 5 6 40 10 2 (0 ∷ 1 ∷ 2 ∷ []) (omega arith) (omega arith) (omega arith)
      (inr (omega arith))

abbrev waiting : AutoBatcher
waiting = next_id (next_id (next_id create 3) 4) 5

abbrev failed : AutoBatcher
failed = receive_error (receive_batch waiting batch 6)

-- Two callers get ids, and the third an error.
served : failed.settled ≡ (0, some (pos 40)) ∷ (1, some (pos 50)) ∷ (2, none) ∷ []
unfolding create_batch next_id receive_batch receive_error process_id_requests long_add
    long_multiply wrap64 ◌+ℤ◌ ◌*ℤ◌
served = refl

Reach-Fair_example : Fair failed
unfolding create_batch next_id receive_batch receive_error process_id_requests long_add
    long_multiply wrap64 ◌+ℤ◌ ◌*ℤ◌
Reach-Fair_example = Reach-Fair (
    next
      (next
        (next (next (next here (calls create 3)) (calls (next_id create 3) 4))
          (calls (next_id (next_id create 3) 4) 5))
        (answers batch 6 refl))
      (errs refl))
