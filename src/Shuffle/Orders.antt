-- ===== src/Shuffle/Orders.antt =====
-- `shuffleArray` permutes its argument, and a sorted list begins with a least element.
use mathlib.Core.List.Perm
use mathlib.Core.List.{Perm}
use hazelcast_nodejs_client.Prelude.{
  ℕ, zero, suc, ◌%◌, ◌≡◌, ◌<◌, ◌≤◌, refl, ap, ◌∙◌, map, length-set, inl, inr, Bool, true, false,
  List, [], ◌∷◌, some, arith, length, get_elem?, set, get_elem?-set-some, get_elem?-set_ne, All,
  Bool-cases, ℕ_discrete, subst,
}
use hazelcast_nodejs_client.Shuffle.{
  element, store, swap, shuffle_from, shuffle_array, present, shuffled, insert_sorted, sort,
}

module _ {ℓ} {A : Type ℓ} where
  set-perm :
      (xs : List A) (i : ℕ) (a b : A) → get_elem? xs i ≡ some a → Perm (b ∷ xs) (a ∷ set xs i b)
  set-perm [] i a b e = absurd (cc)
  set-perm (x ∷ xs) zero a b e =
      subst (λ y. Perm (b ∷ x ∷ xs) (y ∷ b ∷ xs)) (ground arith) (Perm.swap x b xs)
  set-perm (x ∷ xs) (suc i) a b e =
      Perm.trans (Perm.swap x b xs)
        (Perm.trans (Perm.cons x (set-perm xs i a b e)) (Perm.swap a x (set xs i b)))

  swap-perm_some :
      (xs : List A) (i j : ℕ) (a b : A)
      → get_elem? xs i ≡ some a
      → get_elem? xs j ≡ some b
      → get_elem? (set xs i b) j ≡ some b
  swap-perm_some xs i j a b e f = elim (ℕ_discrete i j) [
    | yes p ↦ rw (← p) (get_elem?-set-some xs i b a e)
    | no n ↦ get_elem?-set_ne xs b n ∙ f
  ]

  element-some : (xs : List A) (i : ℕ) → element (map some xs) i ≡ get_elem? xs i
  unfolding element
  element-some [] i = refl
  element-some (x ∷ xs) zero = refl
  element-some (x ∷ xs) (suc i) = element-some xs i

  store-some :
      (xs : List A) (i : ℕ) (x : A)
      → i < length xs
      → store (map some xs) i (some x) ≡ map some (set xs i x)
  unfolding store
  store-some [] i x h = absurd (omega arith)
  store-some (y ∷ ys) zero x h = refl
  store-some (y ∷ ys) (suc i) x h = ap (◌∷◌ (some y)) (store-some ys i x (omega arith))

  get_elem?-in_range : (xs : List A) (i : ℕ) → i < length xs → (a : A) × (get_elem? xs i ≡ some a)
  get_elem?-in_range [] i h = absurd (omega arith)
  get_elem?-in_range (x ∷ xs) zero h = (x, refl)
  get_elem?-in_range (x ∷ xs) (suc i) h = get_elem?-in_range xs i (omega arith)

  -- Two elements of an array change places.
  swap-perm :
      (xs : List A) (i j : ℕ)
      → i < length xs
      → j < length xs
      → (ys : List A) × (swap (map some xs) i j ≡ map some ys)
        × Perm ys xs
        × (length ys ≡ length xs)
  unfolding swap
  swap-perm xs i j h k =
      let (a, e) = get_elem?-in_range xs i h in
      let (b, f) = get_elem?-in_range xs j k in
      (
        set (set xs i b) j a,
        rw (
          element-some xs i,
          e,
          element-some xs j,
          f,
          store-some xs i b h,
          store-some (set xs i b) j a (omega (arith, length-set xs i b)),
        ),
        Perm.symm (
            Perm.cons_inv (
              Perm.trans (set-perm xs i a b e)
                (set-perm (set xs i b) j b a (swap-perm_some xs i j a b e f)))),
        length-set (set xs i b) j a ∙ length-set xs i b,
      )

  shuffle_from-perm :
      (draw : ℕ → ℕ) (n : ℕ) (xs : List A)
      → n ≤ length xs
      → (ys : List A) × (shuffle_from draw n (map some xs) ≡ map some ys) × Perm ys xs
  unfolding shuffle_from
  shuffle_from-perm draw zero xs h = (xs, refl, Perm.rfl)
  shuffle_from-perm draw (suc zero) xs h = (xs, refl, Perm.rfl)
  shuffle_from-perm draw (suc (suc n)) xs h =
      let r = draw (suc (suc n)) % suc (suc n) in
      let (ys, swapped, same, size) = swap-perm xs (suc n) r (omega arith) (omega arith) in
      let (zs, done, perm) = shuffle_from-perm draw (suc n) ys (omega (arith, size)) in
      (zs, ap (shuffle_from draw (suc n)) swapped ∙ done, Perm.trans perm same)

  -- Whatever the random draws, shuffling an array only rearranges its elements: no index is out of its
  -- range, so that none of them is lost or `undefined` and the array does not grow.
  pub shuffle_array-perm :
      (draw : ℕ → ℕ) (xs : List A)
      → (ys : List A) × (shuffle_array draw xs ≡ map some ys) × Perm ys xs
  unfolding shuffle_array
  shuffle_array-perm draw xs = shuffle_from-perm draw (length xs) xs (omega arith)

  present-some : (xs : List A) → present (map some xs) ≡ xs
  unfolding present
  present-some [] = refl
  present-some (x ∷ xs) = ap (◌∷◌ x) (present-some xs)

  pub shuffled-perm : (draw : ℕ → ℕ) (xs : List A) → Perm (shuffled draw xs) xs
  unfolding shuffled
  shuffled-perm draw xs =
      let (ys, done, perm) = shuffle_array-perm draw xs in rw (done, present-some ys) perm

  insert_sorted-perm :
      (le : A → A → Bool) (x : A) (xs : List A) → Perm (insert_sorted le x xs) (x ∷ xs)
  unfolding insert_sorted
  insert_sorted-perm le x [] = Perm.rfl
  insert_sorted-perm le x (y ∷ ys) = elim (Bool-cases (le x y)) [
    | inl e ↦ rw e Perm.rfl
    | inr e ↦ rw e (Perm.trans (Perm.cons y (insert_sorted-perm le x ys)) (Perm.swap x y ys))
  ]

  pub sort-perm : (le : A → A → Bool) (xs : List A) → Perm (sort le xs) xs
  unfolding sort
  sort-perm le [] = Perm.rfl
  sort-perm le (x ∷ xs) =
      Perm.trans (insert_sorted-perm le x (sort le xs)) (Perm.cons x (sort-perm le xs))

  All-unsort_insert :
      (P : A → Type ℓ) (le : A → A → Bool) (x : A) (xs : List A)
      → All P (insert_sorted le x xs)
      → P x × All P xs
  unfolding insert_sorted
  All-unsort_insert P le x [] a = a
  All-unsort_insert P le x (y ∷ ys) a = elim (Bool-cases (le x y)) [
    | inl e ↦ rw e at a
    | inr e ↦
        let (first, rest) : P y × All P (insert_sorted le x ys) = rw e at a in
        let (this, others) = All-unsort_insert P le x ys rest in (this, (first, others))
  ]

  -- What holds of all elements in order holds of all elements.
  pub All-unsort :
      (P : A → Type ℓ) (le : A → A → Bool) (xs : List A) → All P (sort le xs) → All P xs
  unfolding sort
  All-unsort P le [] a = tt
  All-unsort P le (x ∷ xs) a =
      let (this, others) = All-unsort_insert P le x (sort le xs) a in
      (this, All-unsort P le xs others)

  -- An order by a test that is total and transitive.
  pub record IsOrder (le : A → A → Bool) : Type ℓ where
    pub total : (x y : A) → le x y ≡ false → le y x ≡ true
    pub trans : (x y z : A) → le x y ≡ true → le y z ≡ true → le x z ≡ true

  abbrev pub IsSorted : (A → A → Bool) → List A → Type ℓ
  IsSorted le [] = Unit
  IsSorted le (x ∷ xs) = All (λ y. le x y ≡ true) xs × IsSorted le xs

  module _ (le : A → A → Bool) (o : IsOrder le) where
    All-trans :
        (x y : A) (ys : List A)
        → le x y ≡ true
        → All (λ z. le y z ≡ true) ys
        → All (λ z. le x z ≡ true) ys
    All-trans x y [] e a = tt
    All-trans x y (z ∷ ys) e a = (o.trans x y z e a.0, All-trans x y ys e a.1)

    All-insert_sorted :
        (x y : A) (ys : List A)
        → le y x ≡ true
        → All (λ z. le y z ≡ true) ys
        → All (λ z. le y z ≡ true) (insert_sorted le x ys)
    unfolding insert_sorted
    All-insert_sorted x y [] e a = (e, tt)
    All-insert_sorted x y (z ∷ ys) e a = elim (Bool-cases (le x z)) [
      | inl f ↦ rw f (e, a)
      | inr f ↦ rw f (a.0, All-insert_sorted x y ys e a.1)
    ]

    insert_sorted-IsSorted :
        (x : A) (xs : List A) → IsSorted le xs → IsSorted le (insert_sorted le x xs)
    unfolding insert_sorted
    insert_sorted-IsSorted x [] s = (tt, tt)
    insert_sorted-IsSorted x (y ∷ ys) s = elim (Bool-cases (le x y)) [
      | inl e ↦ rw e ((e, All-trans x y ys e s.0), s)
      | inr e ↦ rw e (All-insert_sorted x y ys (o.total x y e) s.0, insert_sorted-IsSorted x ys s.1)
    ]

    pub sort-IsSorted : (xs : List A) → IsSorted le (sort le xs)
    unfolding sort
    sort-IsSorted [] = tt
    sort-IsSorted (x ∷ xs) = insert_sorted-IsSorted x (sort le xs) (sort-IsSorted xs)
