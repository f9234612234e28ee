-- ===== src/NearCache/Store.antt =====
-- nearcache/DataStoreHashMap.ts: `DataKeyedHashMap`, a table of buckets keyed by the hash code of
-- serialized keys. `Data` enters by what the table uses of it, `equals` and `hashCode`.
pub mod Bucket
pub mod Invariant
pub mod Laws
pub mod Runs
use hazelcast_nodejs_client.Prelude.{
  ℕ, zero, suc, ◌+◌, ◌-◌, ◌≡◌, ◌↔◌, Bool, true, false, List, [], ◌∷◌, ◌++◌, map, Option, none, some,
  if◌then◌else◌, get_elem?,
}
use hazelcast_nodejs_client.JsMap.{Eq, ℕ_eq, lookup, insert}

-- `equals` and `hashCode` of `Data`. Keys are taken up to `equals`, which leaves the bytes of the
-- partition hash out.
pub record Data (K : Type 0) : Type 0 where
  pub equals : K → K → Bool
  pub equals_iff : (a b : K) → (equals a b ≡ true) ↔ (a ≡ b)
  pub hash_code : K → ℕ

-- `Array.prototype.splice(i, 1)`
abbrev pub splice : {A : Type 0} → ℕ → List A → List A
splice i [] = []
splice zero (x ∷ xs) = xs
splice (suc i) (x ∷ xs) = x ∷ splice i xs

-- An `InternalRecord` is the pair of its key and value.
pub record DataKeyedHashMap (K V : Type 0) : Type 0 where
  pub size : ℕ
  pub internal_store : List (ℕ × List (K × V))

unfoldable pub create : {K V : Type 0} → DataKeyedHashMap K V
create = record { size = 0; internal_store = [] }

unfoldable pub clear : {K V : Type 0} → DataKeyedHashMap K V → DataKeyedHashMap K V
clear m = record m { size = 0; internal_store = [] }

module _ {K : Type 0} ⦃d : Data K⦄ where
  instance abbrev pub data_eq : Eq K
  data_eq = record { eqb = d.equals; eqb_iff = d.equals_iff }

module _ {K V : Type 0} ⦃d : Data K⦄ where
  -- `bucket.findIndex`; `none` is -1.
  pub find_index : K → List (K × V) → Option ℕ
  find_index key [] = none
  find_index key ((k, v) ∷ bucket) =
      let rest = find_index key bucket in
      if d.equals k key then some 0 else elim rest [ none ↦ none | some i ↦ some (suc i) ]

  pub find_index_in_bucket : DataKeyedHashMap K V → K → Option ℕ
  unfolding find_index
  find_index_in_bucket m key = elim (lookup (d.hash_code key) m.internal_store) [
    | none ↦ none
    | some bucket ↦ find_index key bucket
  ]

  -- The bucket, and the store, where an empty bucket now stands if there was none.
  pub get_or_create_bucket : DataKeyedHashMap K V → ℕ → List (K × V) × List (ℕ × List (K × V))
  get_or_create_bucket m hash = elim (lookup hash m.internal_store) [
    | none ↦ ([], insert hash [] m.internal_store)
    | some bucket ↦ (bucket, m.internal_store)
  ]

  -- The new map, and whether the key was there. A bucket that is changed in place is written back.
  unfoldable pub delete : DataKeyedHashMap K V → K → DataKeyedHashMap K V × Bool
  unfolding find_index_in_bucket get_or_create_bucket
  delete m key = elim (find_index_in_bucket m key) [
    | none ↦ (m, false)
    | some i ↦
        let (bucket, store) = get_or_create_bucket m (d.hash_code key) in
        (
          record {
            size = m.size - 1;
            internal_store = insert (d.hash_code key) (splice i bucket) store;
          },
          true,
        )
  ]

  unfoldable pub has : DataKeyedHashMap K V → K → Bool
  unfolding find_index_in_bucket
  has m key = elim (find_index_in_bucket m key) [ none ↦ false | some _ ↦ true ]

  unfoldable pub get : DataKeyedHashMap K V → K → Option V
  unfolding find_index_in_bucket get_or_create_bucket
  get m key = elim (find_index_in_bucket m key) [
    | none ↦ none
    | some i ↦ elim (get_elem? (get_or_create_bucket m (d.hash_code key)).0 i) [
      | none ↦ none
      | some (k, v) ↦ some v
    ]
  ]

  -- `bucket[i].value = value`
  pub put_value : ℕ → V → List (K × V) → List (K × V)
  put_value i v [] = []
  put_value zero v ((k, w) ∷ bucket) = (k, v) ∷ bucket
  put_value (suc i) v (e ∷ bucket) = e ∷ put_value i v bucket

  unfoldable pub set : DataKeyedHashMap K V → K → V → DataKeyedHashMap K V
  unfolding find_index_in_bucket get_or_create_bucket put_value
  set m key value =
      let (bucket, store) = get_or_create_bucket m (d.hash_code key) in
      elim (find_index_in_bucket m key) [
        | none ↦ record {
          size = m.size + 1;
          internal_store = insert (d.hash_code key) (bucket ++ (key, value) ∷ []) store;
        }
        | some i ↦ record m {
          internal_store = insert (d.hash_code key) (put_value i value bucket) store;
        }
      ]

-- The snapshots of `entries` and `values`, bucket after bucket.
module _ {K V : Type 0} where
  flat_entries : List (ℕ × List (K × V)) → List (K × V)
  flat_entries [] = []
  flat_entries ((h, bucket) ∷ store) = bucket ++ flat_entries store

  unfoldable pub entries : DataKeyedHashMap K V → List (K × V)
  unfolding flat_entries
  entries m = flat_entries m.internal_store

  unfoldable pub values : DataKeyedHashMap K V → List V
  unfolding entries
  values m = map (λ e. e.1) (entries m)
