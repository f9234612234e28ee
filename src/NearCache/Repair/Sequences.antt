-- ===== src/NearCache/Repair/Sequences.antt =====
-- What `checkOrRepairSequence` and `checkOrRepairUuid` count: the invalidations that were lost.
use hazelcast_nodejs_client.Prelude.{
  ℕ, suc, ◌+◌, ◌-◌, ◌^◌, ◌<◌, ◌≤◌, ◌≡◌, refl, subst, ◌∙◌, ◌≢◌, true, false, List, [], ◌∷◌, Option,
  some, arith, length, ℤ, pos, long_subtract-nonneg, long_add-nonneg, get_elem?, set,
  get_elem?-set-some,
}
use hazelcast_nodejs_client.Uuid
use hazelcast_nodejs_client.Uuid.{Uuid}
use hazelcast_nodejs_client.NearCache.Metadata.{MetadataContainer}
use hazelcast_nodejs_client.NearCache.Repair.{
  RepairingHandler, Partitions, repair_sequence, repair_uuid, handle, handle_batch, Event,
  get_partition_id_or_default,
}

-- One event that is later than the last: its own number becomes the sequence, and the numbers that
-- were skipped are counted.
module _ (m : MetadataContainer) (c k n : ℕ) (e : m.sequence ≡ pos c) where
  repair_sequence-sequence : c < n → (repair_sequence m (pos n) false).sequence ≡ pos n
  unfolding repair_sequence
  repair_sequence-sequence h = ground arith

  repair_sequence-missed :
      m.missed_sequence_count ≡ pos k
      → c < n
      → n < 2 ^ 63
      → k + (n - c) < 2 ^ 63
      → (repair_sequence m (pos n) false).missed_sequence_count ≡ pos (k + (n - c - 1))
  unfolding repair_sequence
  repair_sequence-missed f h b' b = ground (
    arith,
    long_subtract-nonneg n c,
    long_subtract-nonneg (n - c) 1,
    long_add-nonneg k (n - c - 1),
  )

repair_sequence-uuid : (m : MetadataContainer) (s : ℤ) → (repair_sequence m s false).uuid ≡ m.uuid
unfolding repair_sequence
repair_sequence-uuid m s = ground arith

repair_uuid_same : (m : MetadataContainer) (u : Uuid) → m.uuid ≡ some u → repair_uuid m (some u) ≡ m
unfolding repair_uuid
repair_uuid_same m u e = ground (arith, Uuid.equals_iff u u)

module _ {K : Type 0} (p : Partitions K) (pid : ℕ) (u : Uuid) where
  -- An event of the known partition instance updates the one container.
  handle_known :
      (h : RepairingHandler) (m : MetadataContainer) (key : Option K) (src : Option Uuid) (s : ℤ)
      → get_partition_id_or_default p key ≡ pid
      → get_elem? h.containers pid ≡ some m
      → m.uuid ≡ some u
      → (get_elem? (handle p h key src (some u) s).1.containers pid
          ≡ some (repair_sequence m s false))
        × ((handle p h key src (some u) s).2 ≡ true)
  unfolding handle
  handle_known h m key src s here at known = ground (
    arith,
    get_elem?-set-some h.containers pid (repair_sequence m s false) m at,
    get_elem?-set-some (set h.containers pid (repair_sequence m s false)) pid
        (repair_uuid (repair_sequence m s false) (some u)) (repair_sequence m s false),
    repair_uuid_same (repair_sequence m s false) u,
    repair_sequence-uuid m s,
  )

  -- Events of one partition instance, by their sequence numbers.
  abbrev in_order : List (Option K × Option Uuid × ℕ) → List (Event K)
  in_order [] = []
  in_order ((key, src, n) ∷ es) =
      record { key = key; source_uuid = src; partition_uuid = some u; sequence = pos n }
      ∷ in_order es

  -- All of them fall into the partition, with rising sequence numbers.
  abbrev Rising : ℕ → List (Option K × Option Uuid × ℕ) → Type 0
  Rising c [] = Unit
  Rising c ((key, src, n) ∷ es) = (get_partition_id_or_default p key ≡ pid) × (c < n) × Rising n es

  abbrev last_sequence : ℕ → List (Option K × Option Uuid × ℕ) → ℕ
  last_sequence c [] = c
  last_sequence c ((key, src, n) ∷ es) = last_sequence n es

  last_sequence-ge :
      (c : ℕ) (es : List (Option K × Option Uuid × ℕ))
      → Rising c es
      → c + length es ≤ last_sequence c es
  last_sequence-ge c [] r = omega arith
  last_sequence-ge c ((key, src, n) ∷ es) r = omega (arith, last_sequence-ge n es r.2, r.1)

  -- A container of the partition with the sequence `c` and `k` missed events.
  pub record Counts (h : RepairingHandler) (c k : ℕ) : Type 0 where
    pub container : MetadataContainer
    pub at : get_elem? h.containers pid ≡ some container
    pub sequence : container.sequence ≡ pos c
    pub missed : container.missed_sequence_count ≡ pos k
    pub known : container.uuid ≡ some u

  handle-Counts :
      (h : RepairingHandler) (c k : ℕ) (key : Option K) (src : Option Uuid) (n : ℕ)
      → Counts h c k
      → get_partition_id_or_default p key ≡ pid
      → c < n
      → n < 2 ^ 63
      → k + (n - c) < 2 ^ 63
      → Counts (handle p h key src (some u) (pos n)).1 n (k + (n - c - 1))
  handle-Counts h c k key src n t here rise range bound = record {
    container = repair_sequence t.container (pos n) false;
    at = (handle_known h t.container key src (pos n) here t.at t.known).0;
    sequence = repair_sequence-sequence t.container c k n t.sequence rise;
    missed = repair_sequence-missed t.container c k n t.sequence t.missed rise range bound;
    known = repair_sequence-uuid t.container (pos n) ∙ t.known;
  }

  -- A batch of events of the partition instance that the container knows already, with rising sequence
  -- numbers above the one of the container and below 2 ^ 63: every event is handled, and the number of
  -- missed events grows by exactly the sequence numbers that the batch skipped.
  pub handle_batch-Counts :
      (h : RepairingHandler) (c k : ℕ) (es : List (Option K × Option Uuid × ℕ))
      → Counts h c k
      → Rising c es
      → last_sequence c es < 2 ^ 63
      → k + (last_sequence c es - c) < 2 ^ 63
      → Counts
          (handle_batch p h (in_order es)).1
          (last_sequence c es)
          (k + (last_sequence c es - c - length es))
        × ((handle_batch p h (in_order es)).2 ≡ true)
  unfolding handle_batch
  handle_batch-Counts h c k [] t r a b = (subst (Counts h c) (omega arith) t, refl)
  handle_batch-Counts h c k ((key, src, n) ∷ es) t r a b =
      let h' = (handle p h key src (some u) (pos n)).1 in
      let more = last_sequence-ge n es r.2 in
      let t' = handle-Counts h c k key src n t r.0 r.1 (omega arith) (omega arith) in
      let (counts, done) = handle_batch-Counts h' n (k + (n - c - 1)) es t' r.2 a (omega arith) in
      let ok = (handle_known h t.container key src (pos n) r.0 t.at t.known).1 in
      let total : k + (n - c - 1) + (last_sequence n es - n - length es)
          ≡ k + (last_sequence n es - c - suc (length es)) =
        omega arith in
      rw ok
        (subst (Counts (handle_batch p h' (in_order es)).1 (last_sequence n es)) total counts, done)

repair_uuid-reset :
    (m : MetadataContainer) (u v : Uuid)
    → m.uuid ≡ some u
    → v ≢ u
    → repair_uuid m (some v) ≡ record {
      sequence = pos 0;
      stale_sequence = pos 0;
      missed_sequence_count = pos 0;
      uuid = some v;
    }
unfolding repair_uuid
repair_uuid-reset m u v known new = ground (arith, Uuid.equals_iff u v)

module _ {K : Type 0} (p : Partitions K) (h : RepairingHandler) (m : MetadataContainer)
    (key : Option K) (src : Option Uuid) (u v : Uuid) (n : ℕ)
    (at : get_elem? h.containers (get_partition_id_or_default p key) ≡ some m)
    (known : m.uuid ≡ some u) (new : v ≢ u) where
  handle_new_uuid :
      Counts p (get_partition_id_or_default p key) v (handle p h key src (some v) (pos n)).1 0 0
  unfolding handle
  handle_new_uuid =
      let pid = get_partition_id_or_default p key in
      let repaired = repair_sequence m (pos n) false in
      let known' = repair_sequence-uuid m (pos n) ∙ known in
      record {
        container = record {
          sequence = pos 0;
          stale_sequence = pos 0;
          missed_sequence_count = pos 0;
          uuid = some v;
        };
        at = ground (
          arith,
          get_elem?-set-some h.containers pid repaired m at,
          get_elem?-set-some (set h.containers pid repaired) pid (repair_uuid repaired (some v))
              repaired,
          repair_uuid-reset repaired u v known' new,
        );
        sequence = refl;
        missed = refl;
        known = refl;
      }

  -- An event that announces a new instance of its partition resets the sequence to 0, and with it
  -- the number `n` that the event carries: the event `n + 1` that follows it without a gap then
  -- counts `n` missed events.
  pub new_uuid_miscounts :
      n + 1 < 2 ^ 63
      → Counts p
          (get_partition_id_or_default p key)
          v
          (handle p (handle p h key src (some v) (pos n)).1 key src (some v) (pos (n + 1))).1
          (n + 1)
          n
  new_uuid_miscounts range =
      let h' = (handle p h key src (some v) (pos n)).1 in
      let pid = get_partition_id_or_default p key in
      subst (Counts p pid v (handle p h' key src (some v) (pos (n + 1))).1 (n + 1)) (omega arith) (
        handle-Counts p pid v h' 0 0 key src (n + 1) handle_new_uuid refl (omega arith) range
          (omega arith))
