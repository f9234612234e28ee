-- ===== src/NearCache/Store/Laws.antt =====
-- The table of buckets is a finite map with an exact size.
use hazelcast_nodejs_client.Prelude.{
  ℕ, ◌≡◌, refl, ◌↔◌, ◌≢◌, inl, inr, true, List, [], ◌∷◌, ◌++◌, Option, none, some, arith, ◌==◌,
  if◌then◌else◌, false, Bool-cases, Option-cases,
}
use hazelcast_nodejs_client.JsMap.{ℕ_eq, lookup, insert, lookup-insert, All-lookup}
use hazelcast_nodejs_client.NearCache.Store
use hazelcast_nodejs_client.NearCache.Store.{
  clear, Data, DataKeyedHashMap, data_eq, splice, find_index, find_index_in_bucket,
  get_or_create_bucket, put_value, create, clear, delete, has, get, entries, values, flat_entries,
}
use hazelcast_nodejs_client.NearCache.Store.Bucket.{
  find_index-none, find_index-some, lookup-put_value, lookup-append_new, lookup-splice,
}
use hazelcast_nodejs_client.NearCache.Store.Invariant.{IsValid, D}

module _ {K V : Type 0} ⦃d : Data K⦄ where
  -- What a store of buckets holds for a key.
  in_store : List (ℕ × List (K × V)) → K → Option V
  in_store s k = elim (lookup (d.hash_code k) s) [ none ↦ none | some b ↦ lookup k b ]

  in_store-insert :
      (h : ℕ) (b : List (K × V)) (s : List (ℕ × List (K × V))) (j : K)
      → in_store (insert h b s) j ≡ (if h == d.hash_code j then lookup j b else in_store s j)
  unfolding in_store
  in_store-insert h b s j = ground (arith, lookup-insert h (d.hash_code j) b s)

  in_store_none :
      (h : ℕ) (s : List (ℕ × List (K × V))) (j : K)
      → lookup h s ≡ none
      → h ≡ d.hash_code j
      → in_store s j ≡ none
  unfolding in_store
  in_store_none h s j e same = ground arith

  in_store-some :
      (h : ℕ) (b : List (K × V)) (s : List (ℕ × List (K × V))) (j : K)
      → lookup h s ≡ some b
      → h ≡ d.hash_code j
      → in_store s j ≡ lookup j b
  unfolding in_store
  in_store-some h b s j e same = ground arith

  get-in_store : (m : DataKeyedHashMap K V) (k : K) → get m k ≡ in_store m.internal_store k
  unfolding get in_store
  get-in_store m k = elim (Option-cases (lookup (d.hash_code k) m.internal_store)) [
    | inl e ↦ ground arith
    | inr (b, e) ↦ elim (Option-cases (find_index k b)) [
      | inl n ↦ ground (arith, find_index-none k b)
      | inr (i, p) ↦ ground (arith, find_index-some k b i p)
    ]
  ]

  in_store-set :
      (m : DataKeyedHashMap K V) (k j : K) (v : V)
      → in_store (Store.set m k v).internal_store j
        ≡ (if d.equals k j then some v else in_store m.internal_store j)
  unfolding Store.set lookup
  in_store-set m k j v =
      let s = m.internal_store in
      let h = d.hash_code k in
      elim (Option-cases (lookup h s)) [
        | inl e ↦ ground (
          arith,
          in_store-insert h ((k, v) ∷ []) (insert h [] s) j,
          in_store_none h s j e,
          in_store-insert h [] s j,
          lookup-append_new k j v [] refl,
          d.equals_iff k j,
        )
        | inr (b, e) ↦ elim (Option-cases (find_index k b)) [
          | inl n ↦ ground (
            arith,
            in_store-some h b s j e,
            in_store-insert h (b ++ (k, v) ∷ []) s j,
            lookup-append_new k j v b (find_index-none k b n),
            d.equals_iff k j,
          )
          | inr (i, p) ↦ ground (
            arith,
            in_store-some h b s j e,
            in_store-insert h (put_value i v b) s j,
            lookup-put_value k j v b i p,
            d.equals_iff k j,
          )
        ]
      ]

  -- `get` after `set`: the new value at that key, the old contents at every other.
  pub get-set :
      (m : DataKeyedHashMap K V) (k j : K) (v : V)
      → get (Store.set m k v) j ≡ (if d.equals k j then some v else get m j)
  get-set m k j v = rw (get-in_store (Store.set m k v) j, get-in_store m j) (in_store-set m k j v)

  -- `get` after `delete`: nothing at that key, the old contents at every other.
  pub get-delete :
      (m : DataKeyedHashMap K V) (k j : K)
      → IsValid m
      → get (delete m k).0 j ≡ (if d.equals k j then none else get m j)
  unfolding delete
  get-delete m k j q =
      let s = m.internal_store in
      let h = d.hash_code k in
      rw (get-in_store (delete m k).0 j, get-in_store m j)
        (elim (Option-cases (lookup h s)) [
          | inl e ↦ ground (arith, in_store_none h s j e, d.equals_iff k j)
          | inr (b, e) ↦ elim (Option-cases (find_index k b)) [
            | inl n ↦
                ground (arith, in_store-some h b s j e, find_index-none k b n, d.equals_iff k j)
            | inr (i, p) ↦ ground (
              arith,
              in_store-some h b s j e,
              in_store-insert h (splice i b) s j,
              lookup-splice k j b i (All-lookup D h s b q.distinct e) p,
              d.equals_iff k j,
            )
          ]
        ])

  -- `has` and the result of `delete` say whether `get` finds a value.
  pub has-get : (m : DataKeyedHashMap K V) (k : K) → (has m k ≡ true) ↔ (get m k ≢ none)
  unfolding has get
  has-get m k = elim (Option-cases (lookup (d.hash_code k) m.internal_store)) [
    | inl e ↦ ground arith
    | inr (b, e) ↦ elim (Option-cases (find_index k b)) [
      | inl n ↦ ground arith
      | inr (i, p) ↦ ground (arith, find_index-some k b i p)
    ]
  ]

  pub delete-has : (m : DataKeyedHashMap K V) (k : K) → (delete m k).1 ≡ has m k
  unfolding delete has
  delete-has m k = ground arith

  pub get-clear : (m : DataKeyedHashMap K V) (k : K) → get (clear m) k ≡ none
  unfolding clear get lookup
  get-clear m k = refl

  pub get-create : (k : K) → get (create {K = K} {V = V}) k ≡ none
  unfolding create get lookup
  get-create k = refl

  pub has_none : (m : DataKeyedHashMap K V) (k : K) → get m k ≡ none → has m k ≡ false
  has_none m k e = elim (Bool-cases (has m k)) [ inl h ↦ absurd ((has-get m k).0 h e) | inr h ↦ h ]
