-- ===== src/PartitionTable/Views.antt =====
-- The table after a sequence of events of one connection, and the owners that it names.
use hazelcast_nodejs_client.Prelude.{
  ℕ, zero, suc, ◌≡◌, refl, ap, ◌∙◌, inl, inr, Bool, true, false, ◌||◌, List, [], ◌∷◌, Option, none,
  some, arith, ◌==◌, if◌then◌else◌, get_elem?, Bool-cases, Option-cases, ℤ, ◌≤ℤ◌, ◌<ℤ◌, leb_ℤ,
}
use hazelcast_nodejs_client.JsMap.{Eq, ℕ_eq, lookup, insert, lookup-insert}
use hazelcast_nodejs_client.Uuid.{Uuid}
use hazelcast_nodejs_client.PartitionTable.{
  PartitionService, own, convert_from, convert_to_map, should_be_applied,
  handle_partition_view_event, get_partition_owner,
}

-- An event: the partitions of each member, and the version of the table.
abbrev pub View : Type 0
View = List (Uuid × List ℕ) × ℤ

-- The newer one of two events, the first one where they have one version.
abbrev pub newer_of :
    (Uuid × List ℕ) × View → Option ((Uuid × List ℕ) × View) → Option ((Uuid × List ℕ) × View)
newer_of x none = some x
newer_of x (some y) = if leb_ℤ (y.1.1) (x.1.1) then some x else some y

-- The first event of the greatest version among those that name any partition.
abbrev pub newest : List View → Option ((Uuid × List ℕ) × View)
newest [] = none
newest (([], v) ∷ views) = newest views
newest ((entry ∷ entries, v) ∷ views) = newer_of (entry, (entries, v)) (newest views)

module _ {C : Type 0} ⦃e : Eq C⦄ (connection : C) where
  abbrev pub handle_all : PartitionService C → List View → PartitionService C
  handle_all s [] = s
  handle_all s ((partitions, version) ∷ views) =
      handle_all (handle_partition_view_event s connection partitions version) views

  abbrev version : PartitionService C → ℤ
  version s = s.partition_table.partition_state_version

  -- A view with no partition is not applied; after any other the table is of this connection, and
  -- at least as new as the view.
  handle-applied :
      (s : PartitionService C) (entry : Uuid × List ℕ) (entries : List (Uuid × List ℕ)) (v : ℤ)
      → ((handle_partition_view_event s connection (entry ∷ entries) v).partition_table.connection
          ≡ some connection)
        × (v ≤ℤ version (handle_partition_view_event s connection (entry ∷ entries) v))
  unfolding handle_partition_view_event should_be_applied
  handle-applied s entry entries v = elim (Option-cases s.partition_table.connection) [
    | inl n ↦ ground arith
    | inr (old, n) ↦ ground (arith, e.eqb_iff connection old)
  ]

  handle_mono :
      (s : PartitionService C) (partitions : List (Uuid × List ℕ)) (v : ℤ)
      → s.partition_table.connection ≡ some connection
      → ((handle_partition_view_event s connection partitions v).partition_table.connection
          ≡ some connection)
        × (version s ≤ℤ version (handle_partition_view_event s connection partitions v))
  unfolding handle_partition_view_event should_be_applied
  handle_mono s [] v n = ground arith
  handle_mono s (entry ∷ entries) v n = ground (arith, e.eqb_iff connection connection)

  handle_all_mono :
      (s : PartitionService C) (views : List View)
      → s.partition_table.connection ≡ some connection
      → version s ≤ℤ version (handle_all s views)
  handle_all_mono s [] n = omega arith
  handle_all_mono s ((partitions, v) ∷ views) n =
      let (same, le) = handle_mono s partitions v n in
      omega (
        arith,
        le,
        handle_all_mono (handle_partition_view_event s connection partitions v) views same,
      )

  -- After any events of one connection, the table is as new as each of them that names any
  -- partition, in whatever order they came.
  pub handle_all-newest :
      (s : PartitionService C) (views : List View) (i : ℕ) (entry : Uuid × List ℕ)
      (entries : List (Uuid × List ℕ)) (v : ℤ)
      → get_elem? views i ≡ some (entry ∷ entries, v)
      → v ≤ℤ version (handle_all s views)
  handle_all-newest s [] i entry entries v at = absurd (cc)
  handle_all-newest s ((partitions, w) ∷ views) (suc i) entry entries v at =
      handle_all-newest (handle_partition_view_event s connection partitions w) views i entry
        entries v at
  handle_all-newest s ((partitions, w) ∷ views) zero entry entries v at =
      let t = handle_partition_view_event s connection (entry ∷ entries) v in
      let (same, le) = handle-applied s entry entries v in
      let names : partitions ≡ entry ∷ entries = ground arith in
      let numbers : w ≡ v = ground arith in
      rw (names, numbers) (omega (arith, le, handle_all_mono t views same))

  handle_empty :
      (s : PartitionService C) (v : ℤ) → handle_partition_view_event s connection [] v ≡ s
  unfolding handle_partition_view_event should_be_applied
  handle_empty s v = refl

  abbrev pub handle_one : PartitionService C → (Uuid × List ℕ) × View → PartitionService C
  handle_one s (entry, (entries, v)) = handle_partition_view_event s connection (entry ∷ entries) v

  -- An event that is not newer than one that was handled changes nothing.
  handle_older :
      (s : PartitionService C) (x y : (Uuid × List ℕ) × View)
      → y.1.1 ≤ℤ x.1.1
      → handle_one (handle_one s x) y ≡ handle_one s x
  unfolding handle_partition_view_event should_be_applied
  handle_older s (a, (p, v)) (b, (q, w)) h = elim (Option-cases s.partition_table.connection) [
    | inl n ↦ ground (arith, e.eqb_iff connection connection)
    | inr (old, n) ↦ ground (arith, e.eqb_iff connection old, e.eqb_iff connection connection)
  ]

  -- An event that is newer hides one that was handled.
  handle_newer :
      (s : PartitionService C) (x y : (Uuid × List ℕ) × View)
      → x.1.1 <ℤ y.1.1
      → handle_one (handle_one s x) y ≡ handle_one s y
  unfolding handle_partition_view_event should_be_applied
  handle_newer s (a, (p, v)) (b, (q, w)) h = elim (Option-cases s.partition_table.connection) [
    | inl n ↦ ground (arith, e.eqb_iff connection connection)
    | inr (old, n) ↦ ground (arith, e.eqb_iff connection old, e.eqb_iff connection connection)
  ]

  abbrev pub handle_newest :
      PartitionService C → Option ((Uuid × List ℕ) × View) → PartitionService C
  handle_newest s none = s
  handle_newest s (some x) = handle_one s x

  handle_newest-newer_of :
      (s : PartitionService C) (x : (Uuid × List ℕ) × View) (best : Option ((Uuid × List ℕ) × View))
      → handle_newest (handle_one s x) best ≡ handle_newest s (newer_of x best)
  handle_newest-newer_of s x none = refl
  handle_newest-newer_of s x (some y) = elim (Bool-cases (leb_ℤ (y.1.1) (x.1.1))) [
    | inl f ↦ rw (f) (handle_older s x y (ground (arith, f)))
    | inr f ↦ rw (f) (handle_newer s x y (ground (arith, f)))
  ]

  -- Handling any events of one connection comes to handling the newest of them alone: the first one of
  -- the greatest version among those that name any partition, or none at all.
  pub handle_all-newest_alone :
      (s : PartitionService C) (views : List View)
      → handle_all s views ≡ handle_newest s (newest views)
  handle_all-newest_alone s [] = refl
  handle_all-newest_alone s (([], v) ∷ views) =
      ap (λ t. handle_all t views) (handle_empty s v) ∙ handle_all-newest_alone s views
  handle_all-newest_alone s ((entry ∷ entries, v) ∷ views) =
      handle_all-newest_alone (handle_one s (entry, (entries, v))) views
      ∙ handle_newest-newer_of s (entry, (entries, v)) (newest views)

abbrev member : ℕ → List ℕ → Bool
member q [] = false
member q (p ∷ ps) = (p == q) || member q ps

-- The last member that claims a partition.
abbrev pub last_owner : ℕ → List (Uuid × List ℕ) → Option Uuid → Option Uuid
last_owner q [] before = before
last_owner q ((uuid, owned) ∷ entries) before =
    last_owner q entries (if member q owned then some uuid else before)

lookup-own :
    (uuid : Uuid) (owned : List ℕ) (m : List (ℕ × Uuid)) (q : ℕ)
    → lookup q (own uuid owned m) ≡ (if member q owned then some uuid else lookup q m)
unfolding own
lookup-own uuid [] m q = refl
lookup-own uuid (p ∷ owned) m q =
    ground (arith, lookup-own uuid owned (insert p uuid m) q, lookup-insert p q uuid m)

lookup-convert_from :
    (m : List (ℕ × Uuid)) (entries : List (Uuid × List ℕ)) (q : ℕ)
    → lookup q (convert_from m entries) ≡ last_owner q entries (lookup q m)
unfolding convert_from
lookup-convert_from m [] q = refl
lookup-convert_from m ((uuid, owned) ∷ entries) q =
    lookup-convert_from (own uuid owned m) entries q
    ∙ ap (λ o. last_owner q entries o) (lookup-own uuid owned m q)

-- The owner of a partition after an event that is applied: the last member that claims it.
pub get_partition_owner-handle :
    {C : Type 0} ⦃e : Eq C⦄ (s : PartitionService C) (connection : C)
    (partitions : List (Uuid × List ℕ)) (v : ℤ) (q : ℕ)
    → should_be_applied connection partitions v s.partition_table ≡ true
    → get_partition_owner (handle_partition_view_event s connection partitions v) q
      ≡ last_owner q partitions none
unfolding get_partition_owner handle_partition_view_event convert_to_map lookup
get_partition_owner-handle s connection partitions v q h =
    ground (arith, lookup-convert_from [] partitions q)
