-- ===== src/FlakeId/Batches.antt =====
-- The ids that a batch gives out.
use hazelcast_nodejs_client.Prelude.{
  ℕ, zero, suc, ◌+◌, ◌-◌, ◌⊎◌, ◌*◌, ◌^◌, ◌<◌, ◌≡◌, refl, List, [], ◌∷◌, Option, some, arith, take,
  drop, ℤ, pos, long_add-nonneg, long_multiply-nonneg, eqb_ℤ_iff,
}
use hazelcast_nodejs_client.FlakeId.{Batch, create_batch, next_of_batch, serve}

-- Promises with ids from `n` on, `i` apart.
abbrev numbered : ℕ → ℕ → List ℕ → List (ℕ × Option ℤ)
numbered n i [] = []
numbered n i (p ∷ queue) = (p, some (pos n)) ∷ numbered (n + i) i queue

serve-numbered :
    (b : Batch) (n i r now : ℕ) (queue : List ℕ)
    → b.next_id_long ≡ pos n
    → b.increment ≡ pos i
    → b.first_invalid_id ≡ pos (n + r * i)
    → 0 < i
    → n + r * i < 2 ^ 63
    → now < b.invalid_since
    → ((serve (some b) now queue).1 ≡ numbered n i (take r queue))
      × ((serve (some b) now queue).2 ≡ drop r queue)
unfolding serve next_of_batch
serve-numbered b n i zero now [] e f g pos_i range valid = (refl, refl)
serve-numbered b n i (suc r) now [] e f g pos_i range valid = (refl, refl)
serve-numbered b n i zero now (p ∷ queue) e f g pos_i range valid =
    ground (arith, eqb_ℤ_iff b.first_invalid_id b.next_id_long)
serve-numbered b n i (suc r) now (p ∷ queue) e f g pos_i range valid =
    let b' : Batch = record b { next_id_long = pos (n + i) } in
    ground (
      arith,
      eqb_ℤ_iff b.first_invalid_id b.next_id_long,
      long_add-nonneg n i,
      serve-numbered b' (n + i) i r now queue refl f,
    )

-- A new batch of `size` ids answers the first `size` callers, in their order, with the ids from its
-- base on, the increment apart; the others stay in the queue. The batch is read before it expires,
-- which without a validity is at 2^53 - 1.
pub serve-create_batch :
    (validity now later base i size : ℕ) (queue : List ℕ)
    → 0 < i
    → base + size * i < 2 ^ 63
    → later < 2 ^ 53 - 1
    → (validity ≡ 0) ⊎ (later < now + validity)
    → ((serve (some (create_batch validity (pos base) (pos i) size now)) later queue).1
        ≡ numbered base i (take size queue))
      × ((serve (some (create_batch validity (pos base) (pos i) size now)) later queue).2
          ≡ drop size queue)
unfolding create_batch
serve-create_batch validity now later base i size queue h range bound valid =
    let product : i * size ≡ size * i = omega arith in
    serve-numbered (create_batch validity (pos base) (pos i) size now) base i size later queue refl
      refl (ground (arith, long_multiply-nonneg i size, long_add-nonneg base (size * i))) h range
      (ground arith)
