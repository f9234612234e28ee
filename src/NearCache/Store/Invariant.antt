-- ===== src/NearCache/Store/Invariant.antt =====
-- The counter of the table is exact, and no key stands twice in a bucket.
use hazelcast_nodejs_client.Prelude.{
  ℕ, ◌+◌, ◌-◌, ◌<◌, ◌≡◌, refl, sym, ◌∙◌, subst, inl, inr, true, List, [], ◌∷◌, ◌++◌, none, some,
  arith, if◌then◌else◌, length, length-append, All, Bool-cases, Option-cases, length-map,
}
use hazelcast_nodejs_client.JsMap.{ℕ_eq, lookup, insert, lookup-insert, All-lookup, All-insert}
use hazelcast_nodejs_client.NearCache.Store
use hazelcast_nodejs_client.NearCache.Store.{
  clear, Data, DataKeyedHashMap, data_eq, splice, find_index, find_index_in_bucket,
  get_or_create_bucket, put_value, create, clear, delete, has, get, entries, values, flat_entries,
}
use hazelcast_nodejs_client.NearCache.Store.Bucket.{
  Distinct, find_index-none, length-put_value, length-splice, put_value-Distinct, splice-Distinct,
  append_new-Distinct,
}

module _ {K V : Type 0} where
  -- The entries of all buckets.
  pub total : List (ℕ × List (K × V)) → ℕ
  total [] = 0
  total ((h, b) ∷ s) = length b + total s

  -- The length that a bucket has before it is written.
  old_length : ℕ → List (ℕ × List (K × V)) → ℕ
  old_length h s = elim (lookup h s) [ none ↦ 0 | some b ↦ length b ]

  total-insert :
      (h : ℕ) (b : List (K × V)) (s : List (ℕ × List (K × V)))
      → total (insert h b s) + old_length h s ≡ total s + length b
  unfolding total old_length insert lookup
  total-insert h b [] = omega arith
  total-insert h b ((g, c) ∷ s) = ground (arith, total-insert h b s)

  -- A bucket that is written changes the total by the difference of its lengths.
  total-rewrite :
      (h : ℕ) (b c : List (K × V)) (s : List (ℕ × List (K × V)))
      → lookup h s ≡ some b
      → total (insert h c s) + length b ≡ total s + length c
  unfolding old_length
  total-rewrite h b c s e = ground (arith, total-insert h c s)

  total-insert_new :
      (h : ℕ) (c : List (K × V)) (s : List (ℕ × List (K × V)))
      → lookup h s ≡ none
      → total (insert h c s) ≡ total s + length c
  unfolding old_length
  total-insert_new h c s e = ground (arith, total-insert h c s)

  total-length : (s : List (ℕ × List (K × V))) → length (flat_entries s) ≡ total s
  unfolding total flat_entries
  total-length [] = refl
  total-length ((h, b) ∷ s) = omega (arith, length-append b (flat_entries s), total-length s)

module _ {K V : Type 0} ⦃d : Data K⦄ where
  abbrev pub D : ℕ × List (K × V) → Type 0
  D e = Distinct e.1

  pub record IsValid (m : DataKeyedHashMap K V) : Type 0 where
    pub counted : m.size ≡ total m.internal_store
    pub distinct : All (λ e. Distinct e.1) m.internal_store

  pub create-IsValid : IsValid (create {K = K} {V = V})
  unfolding create total
  create-IsValid = record { counted = refl; distinct = tt }

  -- A bucket that is rewritten, with the counter kept in step.
  written-IsValid :
      (m : DataKeyedHashMap K V) (n h : ℕ) (b c : List (K × V))
      → IsValid m
      → lookup h m.internal_store ≡ some b
      → n + length b ≡ m.size + length c
      → Distinct c
      → IsValid (record { size = n; internal_store = insert h c m.internal_store })
  written-IsValid m n h b c q e count new = record {
    counted = omega (arith, total-rewrite h b c m.internal_store e, q.counted);
    distinct = All-insert D h c m.internal_store q.distinct new;
  }

  fresh_bucket-IsValid :
      (m : DataKeyedHashMap K V) (h : ℕ)
      → IsValid m
      → lookup h m.internal_store ≡ none
      → IsValid (record m { internal_store = insert h [] m.internal_store })
  fresh_bucket-IsValid m h q e = record {
    counted = omega (arith, total-insert_new h [] m.internal_store e, q.counted);
    distinct = All-insert D h [] m.internal_store q.distinct tt;
  }

  pub set-IsValid :
      (m : DataKeyedHashMap K V) (k : K) (v : V) → IsValid m → IsValid (Store.set m k v)
  unfolding Store.set lookup
  set-IsValid m k v q =
      let s = m.internal_store in
      let h = d.hash_code k in
      elim (Option-cases (lookup h s)) [
        | inl e ↦ subst IsValid (ground arith) (
            written-IsValid (record m { internal_store = insert h [] s }) (m.size + 1) h []
              ((k, v) ∷ []) (fresh_bucket-IsValid m h q e) (ground (arith, lookup-insert h h [] s))
              (omega arith) (refl, tt))
        | inr (b, e) ↦
            let old = All-lookup D h s b q.distinct e in
            elim (Option-cases (find_index k b)) [
              | inl n ↦ subst IsValid (ground arith) (
                  written-IsValid m (m.size + 1) h b (b ++ (k, v) ∷ []) q e
                    (omega (arith, length-append b ((k, v) ∷ [])))
                    (append_new-Distinct k v b (find_index-none k b n) old))
              | inr (i, p) ↦ subst IsValid (ground arith) (
                  written-IsValid m m.size h b (put_value i v b) q e
                    (omega (arith, length-put_value v b i)) (put_value-Distinct v b i old))
            ]
      ]

  pub delete-IsValid : (m : DataKeyedHashMap K V) (k : K) → IsValid m → IsValid (delete m k).0
  unfolding delete
  delete-IsValid m k q =
      let s = m.internal_store in
      let h = d.hash_code k in
      elim (Option-cases (lookup h s)) [
        | inl e ↦ subst IsValid (ground arith) q
        | inr (b, e) ↦ elim (Option-cases (find_index k b)) [
          | inl n ↦ subst IsValid (ground arith) q
          | inr (i, p) ↦ subst IsValid (ground arith) (
              written-IsValid m (m.size - 1) h b (splice i b) q e
                (omega (arith, length-splice k b i p, q.counted, total-rewrite h b [] s e))
                (splice-Distinct b i (All-lookup D h s b q.distinct e)))
        ]
      ]

  -- The counter `size` is the number of entries.
  pub length-entries : (m : DataKeyedHashMap K V) → IsValid m → length (entries m) ≡ m.size
  unfolding entries
  length-entries m q = total-length m.internal_store ∙ sym q.counted

  pub length-values : (m : DataKeyedHashMap K V) → IsValid m → length (values m) ≡ m.size
  unfolding values
  length-values m q = length-map (λ e. e.1) (entries m) ∙ length-entries m q

  -- `clear` empties the table.
  pub clear-IsValid : (m : DataKeyedHashMap K V) → IsValid (clear m)
  unfolding clear total
  clear-IsValid m = record { counted = refl; distinct = tt }

  size-pos : (m : DataKeyedHashMap K V) (k : K) → IsValid m → has m k ≡ true → 0 < m.size
  unfolding has
  size-pos m k q h =
      let s = m.internal_store in
      elim (Option-cases (lookup (d.hash_code k) s)) [
        | inl e ↦ absurd (ground arith)
        | inr (b, e) ↦ elim (Option-cases (find_index k b)) [
          | inl n ↦ absurd (ground arith)
          | inr (i, p) ↦
              omega
                (arith, total-rewrite (d.hash_code k) b [] s e, length-splice k b i p, q.counted)
        ]
      ]

  -- How the counter moves.
  pub size-set :
      (m : DataKeyedHashMap K V) (k : K) (v : V)
      → (Store.set m k v).size ≡ (if has m k then m.size else m.size + 1)
  unfolding Store.set has
  size-set m k v = ground arith

  pub size-delete :
      (m : DataKeyedHashMap K V) (k : K)
      → IsValid m
      → (delete m k).0.size + (if has m k then 1 else 0) ≡ m.size
  unfolding delete has
  size-delete m k q = elim (Bool-cases (has m k)) [
    | inl e ↦ ground (arith, size-pos m k q e)
    | inr e ↦ ground arith
  ]
