-- ===== src/VectorClock.antt =====
-- proxy/VectorClock.ts: the timestamps of the replicas of a counter.
use Prim.Native.String.{String}
use hazelcast_nodejs_client.Prelude.{
  ◌≡◌, Bool, true, false, ◌||◌, List, [], ◌∷◌, none, some, arith, ltb, length, if◌then◌else◌, ℤ,
  ltb_ℤ, ◌<ℤ◌,
}
use hazelcast_nodejs_client.JsMap.{string_eq, lookup, insert}

abbrev pub VectorClock : Type 0
VectorClock = List (String × ℤ)

-- `atLeastOneBigger` after `forEach` over the other clock: a `return` of the callback ends the
-- callback only.
unfoldable pub at_least_one_bigger : VectorClock → VectorClock → Bool
unfolding lookup
at_least_one_bigger c [] = false
at_least_one_bigger c ((replica_id, other_timestamp) ∷ rest) =
    let later = at_least_one_bigger c rest in
    elim (lookup replica_id c) [
      | none ↦ later
      | some this_timestamp ↦
          if ltb_ℤ this_timestamp other_timestamp
          then later
          else (if ltb_ℤ other_timestamp this_timestamp then true else later)
    ]

unfoldable pub is_after : VectorClock → VectorClock → Bool
unfolding at_least_one_bigger
is_after c other = at_least_one_bigger c other || ltb (length other) (length c)

unfoldable pub set_replica_timestamp : VectorClock → String → ℤ → VectorClock
unfolding insert
set_replica_timestamp c replica_id timestamp = insert replica_id timestamp c

unfoldable pub entry_set : VectorClock → List (String × ℤ)
entry_set c = c

at_least_one_bigger-lookup :
    (c other : VectorClock) (r : String) (x y : ℤ)
    → lookup r c ≡ some x
    → lookup r other ≡ some y
    → y <ℤ x
    → at_least_one_bigger c other ≡ true
unfolding at_least_one_bigger lookup
at_least_one_bigger-lookup c [] r x y e f h = absurd (cc)
at_least_one_bigger-lookup c ((s, t) ∷ rest) r x y e f h =
    ground (arith, string_eq.eqb_iff s r, at_least_one_bigger-lookup c rest r x y)

-- One replica with a later timestamp is enough for `isAfter`, whatever the other replicas have.
pub is_after-lookup :
    (c other : VectorClock) (r : String) (x y : ℤ)
    → lookup r c ≡ some x
    → lookup r other ≡ some y
    → y <ℤ x
    → is_after c other ≡ true
unfolding is_after
is_after-lookup c other r x y e f h = ground (arith, at_least_one_bigger-lookup c other r x y)

-- Two clocks, each with a replica of which it knows more than the other, are after each other.
pub is_after_both :
    (c other : VectorClock) (r s : String) (x y u v : ℤ)
    → lookup r c ≡ some x
    → lookup r other ≡ some y
    → y <ℤ x
    → lookup s c ≡ some u
    → lookup s other ≡ some v
    → u <ℤ v
    → (is_after c other ≡ true) × (is_after other c ≡ true)
is_after_both c other r s x y u v e f h g k l =
    (is_after-lookup c other r x y e f h, is_after-lookup other c s v u k g l)
