-- ===== src/NearCache/Store/Bucket.antt =====
-- One bucket of the table as a map from keys to values.
use hazelcast_nodejs_client.Prelude.{
  ℕ, zero, suc, ◌+◌, ◌≡◌, refl, inl, inr, List, [], ◌∷◌, ◌++◌, none, some, arith, if◌then◌else◌,
  length, get_elem?, Bool-cases, Option-cases,
}
use hazelcast_nodejs_client.JsMap.{lookup}
use hazelcast_nodejs_client.NearCache.Store.{Data, data_eq, splice, find_index, put_value}

module _ {K V : Type 0} ⦃d : Data K⦄ where
  -- No key stands twice in a bucket.
  abbrev pub Distinct : List (K × V) → Type 0
  Distinct [] = Unit
  Distinct ((k, v) ∷ b) = (lookup k b ≡ none) × Distinct b

  pub find_index-none : (k : K) (b : List (K × V)) → find_index k b ≡ none → lookup k b ≡ none
  unfolding find_index lookup
  find_index-none k [] h = refl
  find_index-none k ((j, v) ∷ b) h = ground (arith, d.equals_iff j k, find_index-none k b)

  pub find_index-some :
      (k : K) (b : List (K × V)) (i : ℕ)
      → find_index k b ≡ some i
      → (v : V) × (get_elem? b i ≡ some (k, v)) × (lookup k b ≡ some v)
  unfolding find_index lookup
  find_index-some k [] i h = absurd (cc)
  find_index-some k ((j, v) ∷ b) i h = elim (Bool-cases (d.equals j k)) [
    | inl e ↦ (v, ground (arith, d.equals_iff j k), ground arith)
    | inr e ↦ elim (Option-cases (find_index k b)) [
      | inl n ↦ absurd (ground arith)
      | inr (i', p) ↦ let (w, g, l) = find_index-some k b i' p in (w, ground arith, ground arith)
    ]
  ]

  pub lookup-put_value :
      (k j : K) (v : V) (b : List (K × V)) (i : ℕ)
      → find_index k b ≡ some i
      → lookup j (put_value i v b) ≡ (if d.equals k j then some v else lookup j b)
  unfolding find_index lookup put_value
  lookup-put_value k j v [] i h = absurd (cc)
  lookup-put_value k j v ((l, w) ∷ b) i h = elim (Option-cases (find_index k b)) [
    | inl n ↦ ground (arith, d.equals_iff l k, d.equals_iff k j, d.equals_iff l j)
    | inr (i', p) ↦
        ground (
          arith,
          d.equals_iff l k,
          d.equals_iff k j,
          d.equals_iff l j,
          lookup-put_value k j v b i' p,
        )
  ]

  pub lookup-append_new :
      (k j : K) (v : V) (b : List (K × V))
      → lookup k b ≡ none
      → lookup j (b ++ (k, v) ∷ []) ≡ (if d.equals k j then some v else lookup j b)
  unfolding lookup
  lookup-append_new k j v [] h = refl
  lookup-append_new k j v ((l, w) ∷ b) h =
      ground
        (arith, d.equals_iff k j, d.equals_iff l k, d.equals_iff l j, lookup-append_new k j v b)

  pub lookup-splice :
      (k j : K) (b : List (K × V)) (i : ℕ)
      → Distinct b
      → find_index k b ≡ some i
      → lookup j (splice i b) ≡ (if d.equals k j then none else lookup j b)
  unfolding find_index lookup
  lookup-splice k j [] i q h = absurd (cc)
  lookup-splice k j ((l, w) ∷ b) i q h = elim (Option-cases (find_index k b)) [
    | inl n ↦ ground (arith, d.equals_iff l k, d.equals_iff k j, d.equals_iff l j, q.0)
    | inr (i', p) ↦ ground (
      arith,
      d.equals_iff l k,
      d.equals_iff k j,
      d.equals_iff l j,
      q.0,
      lookup-splice k j b i' q.1 p,
    )
  ]

  -- What each change of a bucket does to its length and to its being distinct.
  pub length-put_value : (v : V) (b : List (K × V)) (i : ℕ) → length (put_value i v b) ≡ length b
  unfolding put_value
  length-put_value v [] i = refl
  length-put_value v (e ∷ b) zero = refl
  length-put_value v (e ∷ b) (suc i) = omega (arith, length-put_value v b i)

  pub length-splice :
      (k : K) (b : List (K × V)) (i : ℕ)
      → find_index k b ≡ some i
      → length (splice i b) + 1 ≡ length b
  unfolding find_index
  length-splice k [] i h = absurd (cc)
  length-splice k ((l, w) ∷ b) i h = elim (Option-cases (find_index k b)) [
    | inl n ↦ ground arith
    | inr (i', p) ↦ ground (arith, length-splice k b i' p)
  ]

  lookup-put_value_none :
      (k : K) (v : V) (b : List (K × V)) (i : ℕ)
      → lookup k b ≡ none
      → lookup k (put_value i v b) ≡ none
  unfolding lookup put_value
  lookup-put_value_none k v [] i h = refl
  lookup-put_value_none k v ((l, w) ∷ b) zero h = ground arith
  lookup-put_value_none k v ((l, w) ∷ b) (suc i) h = ground (arith, lookup-put_value_none k v b i)

  pub put_value-Distinct :
      (v : V) (b : List (K × V)) (i : ℕ) → Distinct b → Distinct (put_value i v b)
  unfolding put_value
  put_value-Distinct v [] i q = tt
  put_value-Distinct v (e ∷ b) zero q = q
  put_value-Distinct v ((l, w) ∷ b) (suc i) q =
      (lookup-put_value_none l v b i q.0, put_value-Distinct v b i q.1)

  lookup-splice_none :
      (k : K) (b : List (K × V)) (i : ℕ) → lookup k b ≡ none → lookup k (splice i b) ≡ none
  unfolding lookup
  lookup-splice_none k [] i h = refl
  lookup-splice_none k ((l, w) ∷ b) zero h = ground arith
  lookup-splice_none k ((l, w) ∷ b) (suc i) h = ground (arith, lookup-splice_none k b i)

  pub splice-Distinct : (b : List (K × V)) (i : ℕ) → Distinct b → Distinct (splice i b)
  splice-Distinct [] i q = tt
  splice-Distinct (e ∷ b) zero q = q.1
  splice-Distinct ((l, w) ∷ b) (suc i) q = (lookup-splice_none l b i q.0, splice-Distinct b i q.1)

  pub append_new-Distinct :
      (k : K) (v : V) (b : List (K × V))
      → lookup k b ≡ none
      → Distinct b
      → Distinct (b ++ (k, v) ∷ [])
  unfolding lookup
  append_new-Distinct k v [] h q = (refl, tt)
  append_new-Distinct k v ((l, w) ∷ b) h q = (
    ground (arith, lookup-append_new k l v b, d.equals_iff k l, d.equals_iff l k, q.0),
    append_new-Distinct k v b (ground arith) q.1,
  )
