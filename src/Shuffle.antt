-- ===== src/Shuffle.antt =====
-- util/Util.ts: `shuffleArray` with its random draws as an argument, and the stable sort of the
-- language.
pub mod Orders
use hazelcast_nodejs_client.Prelude.{
  ℕ, zero, suc, ◌%◌, ◌≡◌, refl, ap, ◌∙◌, Bool, true, false, List, [], ◌∷◌, Option, none, some,
  arith, if◌then◌else◌, length, map,
}

module _ {ℓ} {A : Type ℓ} where
  -- `array[i]`; `none` is `undefined`.
  unfoldable pub element : List (Option A) → ℕ → Option A
  element [] i = none
  element (x ∷ xs) zero = x
  element (x ∷ xs) (suc i) = element xs i

  -- `array[i] = x`; behind its end the array grows.
  unfoldable pub store : List (Option A) → ℕ → Option A → List (Option A)
  store [] zero x = x ∷ []
  store [] (suc i) x = none ∷ store [] i x
  store (y ∷ ys) zero x = x ∷ ys
  store (y ∷ ys) (suc i) x = y ∷ store ys i x

  -- The body of the loop.
  unfoldable pub swap : List (Option A) → ℕ → ℕ → List (Option A)
  unfolding element store
  swap xs i j = store (store xs i (element xs j)) j (element xs i)

  -- The rounds of the loop for the counter from `i` down. `draw i % i` is the random index below `i`.
  unfoldable pub shuffle_from : (ℕ → ℕ) → ℕ → List (Option A) → List (Option A)
  unfolding swap
  shuffle_from draw zero xs = xs
  shuffle_from draw (suc zero) xs = xs
  shuffle_from draw (suc (suc n)) xs =
      shuffle_from draw (suc n) (swap xs (suc n) (draw (suc (suc n)) % suc (suc n)))

  unfoldable pub shuffle_array : (ℕ → ℕ) → List A → List (Option A)
  unfolding shuffle_from
  shuffle_array draw xs = shuffle_from draw (length xs) (map some xs)

  -- The elements of an array, without what is `undefined`.
  unfoldable pub present : List (Option A) → List A
  present [] = []
  present (none ∷ xs) = present xs
  present (some x ∷ xs) = x ∷ present xs

  -- What is shuffled as others read it; nothing of it is `undefined`, which Shuffle/Orders shows.
  unfoldable pub shuffled : (ℕ → ℕ) → List A → List A
  unfolding shuffle_array present
  shuffled draw xs = present (shuffle_array draw xs)

  -- `Array.prototype.sort`, by a test that says whether an element may stay before another.
  unfoldable pub insert_sorted : (A → A → Bool) → A → List A → List A
  insert_sorted le x [] = x ∷ []
  insert_sorted le x (y ∷ ys) =
      let rest = insert_sorted le x ys in if le x y then x ∷ y ∷ ys else y ∷ rest

  unfoldable pub sort : (A → A → Bool) → List A → List A
  unfolding insert_sorted
  sort le [] = []
  sort le (x ∷ xs) = insert_sorted le x (sort le xs)

  length-insert_sorted :
      (le : A → A → Bool) (x : A) (xs : List A) → length (insert_sorted le x xs) ≡ suc (length xs)
  unfolding insert_sorted
  length-insert_sorted le x [] = refl
  length-insert_sorted le x (y ∷ ys) = ground (arith, length-insert_sorted le x ys)

  pub length-sort : (le : A → A → Bool) (xs : List A) → length (sort le xs) ≡ length xs
  unfolding sort
  length-sort le [] = refl
  length-sort le (x ∷ xs) = length-insert_sorted le x (sort le xs) ∙ ap suc (length-sort le xs)
