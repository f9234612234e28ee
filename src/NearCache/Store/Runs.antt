-- ===== src/NearCache/Store/Runs.antt =====
-- nearcache/DataStoreHashMap.ts: the table after any changes is the map that they describe, and its
-- counter is the number of its entries.
use hazelcast_nodejs_client.Prelude.{
  ◌≡◌, ◌∙◌, ap, List, [], ◌∷◌, Option, none, some, if◌then◌else◌, length,
}
use hazelcast_nodejs_client.NearCache.Store
use hazelcast_nodejs_client.NearCache.Store.{
  Data, DataKeyedHashMap, create, clear, delete, get, entries, values,
}
use hazelcast_nodejs_client.NearCache.Store.Invariant.{
  IsValid, create-IsValid, set-IsValid, delete-IsValid, clear-IsValid, length-entries,
  length-values,
}
use hazelcast_nodejs_client.NearCache.Store.Laws.{get-set, get-delete, get-clear, get-create}

pub data Change (K V : Type 0) : Type 0 where
  sets : K → V → Change K V
  deletes : K → Change K V
  clears : Change K V

module _ {K V : Type 0} ⦃d : Data K⦄ where
  unfoldable pub apply : Change K V → DataKeyedHashMap K V → DataKeyedHashMap K V
  apply (sets k v) m = Store.set m k v
  apply (deletes k) m = (delete m k).0
  apply clears m = clear m

  unfoldable pub run : List (Change K V) → DataKeyedHashMap K V → DataKeyedHashMap K V
  run [] m = m
  run (c ∷ changes) m = run changes (apply c m)

  -- The same changes to a function from keys to values.
  abbrev pub described : Change K V → (K → Option V) → K → Option V
  described (sets k v) f j = if d.equals k j then some v else f j
  described (deletes k) f j = if d.equals k j then none else f j
  described clears f j = none

  abbrev pub contents : List (Change K V) → (K → Option V) → K → Option V
  contents [] f = f
  contents (c ∷ changes) f = contents changes (described c f)

  apply-IsValid : (c : Change K V) (m : DataKeyedHashMap K V) → IsValid m → IsValid (apply c m)
  unfolding apply
  apply-IsValid (sets k v) m q = set-IsValid m k v q
  apply-IsValid (deletes k) m q = delete-IsValid m k q
  apply-IsValid clears m q = clear-IsValid m

  apply-get :
      (c : Change K V) (m : DataKeyedHashMap K V) (f : K → Option V)
      → IsValid m
      → ((j : K) → get m j ≡ f j)
      → (j : K) → get (apply c m) j ≡ described c f j
  unfolding apply
  apply-get (sets k v) m f q same j =
      get-set m k j v ∙ ap (λ o. if d.equals k j then some v else o) (same j)
  apply-get (deletes k) m f q same j =
      get-delete m k j q ∙ ap (λ o. if d.equals k j then none else o) (same j)
  apply-get clears m f q same j = get-clear m j

  run-IsValid :
      (changes : List (Change K V)) (m : DataKeyedHashMap K V) → IsValid m → IsValid (run changes m)
  unfolding run
  run-IsValid [] m q = q
  run-IsValid (c ∷ changes) m q = run-IsValid changes (apply c m) (apply-IsValid c m q)

  run-get :
      (changes : List (Change K V)) (m : DataKeyedHashMap K V) (f : K → Option V)
      → IsValid m
      → ((j : K) → get m j ≡ f j)
      → (j : K) → get (run changes m) j ≡ contents changes f j
  unfolding run
  run-get [] m f q same = same
  run-get (c ∷ changes) m f q same =
      run-get changes (apply c m) (described c f) (apply-IsValid c m q) (apply-get c m f q same)

  -- Whatever sets, deletions and clearings are applied to a new table, `get` gives for each key what
  -- they describe, and the counter `size` is the number of the entries and of the values.
  pub run_lem :
      (changes : List (Change K V))
      → ((j : K) → get (run changes create) j ≡ contents changes (λ i. none) j)
        × (length (entries (run changes create)) ≡ (run changes create).size)
        × (length (values (run changes create)) ≡ (run changes create).size)
  run_lem changes =
      let q = run-IsValid changes create create-IsValid in
      (
        run-get changes create (λ i. none) create-IsValid (λ j. get-create j),
        length-entries (run changes create) q,
        length-values (run changes create) q,
      )
