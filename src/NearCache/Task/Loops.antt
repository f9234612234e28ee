-- ===== src/NearCache/Task/Loops.antt =====
-- The loops of RepairingTask.ts over the partitions, against their specifications on the list of
-- containers.
use hazelcast_nodejs_client.Prelude.{
  ℕ, suc, ◌+◌, ◌^◌, ◌<◌, ◌≡◌, refl, sym, ◌∙◌, true, List, [], ◌∷◌, ◌++◌, map, append_assoc, some,
  arith, length, get_elem?-append, set-append, length-append, pos, long_add-nonneg, Bool-cases, leb,
  inl, inr,
}
use hazelcast_nodejs_client.NearCache.Metadata.{MetadataContainer}
use hazelcast_nodejs_client.NearCache.Repair.{RepairingHandler, get_metadata_container}
use hazelcast_nodejs_client.NearCache.Task.{
  RepairingTask, above_from, is_above_max_tolerated_miss_count, flush_missed, update_from,
  update_last_known_stale_sequences,
}

length-snoc : {A : Type 0} (xs : List A) (x : A) → length (xs ++ x ∷ []) ≡ suc (length xs)
length-snoc xs x = omega (arith, length-append xs (x ∷ []))

update_from-map :
    (done rest : List MetadataContainer)
    → update_from (length rest) (length done) (done ++ rest) ≡ (done ++ map flush_missed rest, true)
unfolding update_from
update_from-map done [] = refl
update_from-map done (c ∷ rest) =
    rw (get_elem?-append done rest c, update_from)
      (rw (set-append done rest c (flush_missed c)) (
        rw
          (
            ← append_assoc done (flush_missed c ∷ []) rest,
            ← length-snoc done (flush_missed c),
            ← append_assoc done (flush_missed c ∷ []) (map flush_missed rest),
          )
          (update_from-map (done ++ flush_missed c ∷ []) rest)))

-- The loop over the partitions changes every container, each on its own.
pub update_last_known_stale_sequences-map :
    (t : RepairingTask) (h : RepairingHandler)
    → length h.containers ≡ t.partition_count
    → update_last_known_stale_sequences t h
      ≡ (record h { containers = map flush_missed h.containers }, true)
unfolding update_last_known_stale_sequences
update_last_known_stale_sequences-map t h e = ground (arith, update_from-map [] h.containers)

-- Counts of missed events that are natural numbers.
abbrev pub Counted : List ℕ → List MetadataContainer → Type 0
Counted [] [] = Unit
Counted (n ∷ ns) (c ∷ cs) = (c.missed_sequence_count ≡ pos n) × Counted ns cs
Counted _ _ = ⊥

abbrev pub sum : List ℕ → ℕ
sum [] = 0
sum (n ∷ ns) = n + sum ns

container_at :
    (h : RepairingHandler) (done rest : List MetadataContainer) (c : MetadataContainer)
    → h.containers ≡ done ++ c ∷ rest
    → get_metadata_container h (length done) ≡ some c
unfolding get_metadata_container
container_at h done rest c e = rw e (get_elem?-append done rest c)

above_from-sum :
    (m : ℕ) (h : RepairingHandler) (done rest : List MetadataContainer) (ns : List ℕ) (t : ℕ)
    → h.containers ≡ done ++ rest
    → Counted ns rest
    → t < m
    → t + sum ns < 2 ^ 63
    → above_from (pos m) h (length rest) (length done) (pos t) ≡ some (leb m (t + sum ns))
unfolding above_from
above_from-sum m h done [] [] t e q below range = ground arith
above_from-sum m h done [] (n ∷ ns) t e q below range = absurd q
above_from-sum m h done (c ∷ rest) [] t e q below range = absurd q
above_from-sum m h done (c ∷ rest) (n ∷ ns) t e q below range =
    let at = container_at h done rest c e in
    let next =
      above_from-sum m h (done ++ c ∷ []) rest ns (t + n)
        (e ∙ sym (append_assoc done (c ∷ []) rest)) q.1 in
    elim (Bool-cases (leb m (t + n))) [
      | inl over ↦ ground (arith, at, long_add-nonneg t n, q.0)
      | inr under ↦ ground (
        arith,
        at,
        long_add-nonneg t n,
        q.0,
        next (ground arith) (omega arith),
        length-snoc done c,
      )
    ]

-- The loop stops early, and still decides whether the counts of all partitions add up to the limit.
pub is_above-sum :
    (t : RepairingTask) (h : RepairingHandler) (m : ℕ) (ns : List ℕ)
    → length h.containers ≡ t.partition_count
    → t.max_tolerated_miss_count ≡ pos m
    → 0 < m
    → Counted ns h.containers
    → sum ns < 2 ^ 63
    → is_above_max_tolerated_miss_count t h ≡ some (leb m (sum ns))
unfolding is_above_max_tolerated_miss_count
is_above-sum t h m ns e limit some_m q range =
    rw (limit, ← e)
      (above_from-sum m h [] h.containers ns 0 refl q some_m (omega arith) ∙ ground arith)
