-- ===== src/PnCounter.antt =====
-- proxy/PNCounterProxy.ts: the counter's choice of a replica, its retries, and the clock that it has
-- observed. A call runs from its start to its answer; what an attempt meets is an argument.
pub mod Settling
pub mod Observation
use Prim.Native.String.{String}
use hazelcast_nodejs_client.Prelude.{
  ℕ, suc, ◌%◌, min, Bool, true, false, not, ◌||◌, List, [], ◌∷◌, ◌++◌, Option, none, some, ltb,
  length, get_elem?, take, select, if◌then◌else◌, ℤ, pos, negsuc, long_negate,
}
use hazelcast_nodejs_client.JsMap.{Eq}
use hazelcast_nodejs_client.VectorClock.{VectorClock, is_after, set_replica_timestamp, entry_set}

-- The outcome of a request.
pub data Fallible (E A : Type 0) : Type 0 where
  done : A → Fallible E A
  fails : E → Fallible E A

-- The requests that a replica gets.
pub data Operation : Type 0 where
  reads : Operation
  adds : ℤ → Bool → Operation

pub record Response : Type 0 where
  pub value : ℤ
  pub replica_timestamps : List (String × ℤ)

-- The outcome of a call. It is pending if none of the attempts that it was given has settled it.
pub data Answer (E : Type 0) : Type 0 where
  pending no_data_member : Answer E
  resolved : ℤ → Answer E
  rejected : E → Answer E

pub record PnCounter (M : Type 0) : Type 0 where
  pub last_observed_vector_clock : VectorClock
  pub maximum_replica_count : ℕ
  pub current_target_replica_address : Option M

abbrev pub create : {M : Type 0} → PnCounter M
create = record {
  last_observed_vector_clock = [];
  maximum_replica_count = 0;
  current_target_replica_address = none;
}

-- What one attempt meets: the data members of the cluster, the answer to a request for the number
-- of replicas, a draw, and the replica's answer to a request that carries a clock.
pub record Attempt (M E : Type 0) : Type 0 where
  pub data_members : List M
  pub configured : Fallible E ℕ
  pub draw : ℕ
  pub call : M → Operation → List (String × ℤ) → Fallible E Response

unfoldable pub to_vector_clock : VectorClock → List (String × ℤ) → VectorClock
unfolding set_replica_timestamp
to_vector_clock clock [] = clock
to_vector_clock clock ((replica_id, timestamp) ∷ rest) =
    to_vector_clock (set_replica_timestamp clock replica_id timestamp) rest

module _ {M : Type 0} where
  unfoldable pub update_observed_replica_timestamps : PnCounter M → List (String × ℤ) → PnCounter M
  unfolding is_after to_vector_clock
  update_observed_replica_timestamps c observed =
      let observed_clock = to_vector_clock [] observed in
      if is_after observed_clock c.last_observed_vector_clock
      then record c { last_observed_vector_clock = observed_clock }
      else c

  unfoldable pub reset : PnCounter M → PnCounter M
  reset c = record c { last_observed_vector_clock = [] }

-- `randomInt` draws below the number of addresses.
unfoldable pub pick : {M : Type 0} → List M → ℕ → Option M
pick [] draw = none
pick (m ∷ ms) draw = get_elem? (m ∷ ms) (draw % suc (length ms))

module _ {M : Type 0} ⦃e : Eq M⦄ where
  -- `excludedAddresses.some(member.equals.bind(member))`
  unfoldable pub excluded : List M → M → Bool
  excluded [] m = false
  excluded (x ∷ xs) m = e.eqb m x || excluded xs m

  unfoldable pub get_replica_addresses : List M → ℕ → List M → List M
  unfolding excluded
  get_replica_addresses data_members replica_count excluded_addresses =
      select (λ m. not (excluded excluded_addresses m))
        (take (min replica_count (length data_members)) data_members)

module _ {M E : Type 0} where
  unfoldable pub get_max_configured_replica_count :
      PnCounter M → Attempt M E → PnCounter M × Fallible E ℕ
  get_max_configured_replica_count c a =
      if ltb 0 c.maximum_replica_count
      then (c, done c.maximum_replica_count)
      else elim a.configured [
        | fails err ↦ (c, fails err)
        | done count ↦ (record c { maximum_replica_count = count }, done count)
      ]

module _ {M E : Type 0} ⦃e : Eq M⦄ where
  unfoldable pub choose_target_replica :
      PnCounter M → Attempt M E → List M → PnCounter M × Fallible E (Option M)
  unfolding get_max_configured_replica_count get_replica_addresses pick
  choose_target_replica c a excluded_addresses =
      let (asked, count) = get_max_configured_replica_count c a in
      elim count [
        | fails err ↦ (asked, fails err)
        | done n ↦
            (asked, done (pick (get_replica_addresses a.data_members n excluded_addresses) a.draw))
      ]

  -- A choice becomes the current target, also where there is none to choose.
  unfoldable pub choose_and_keep :
      PnCounter M → Attempt M E → List M → PnCounter M × Fallible E (Option M)
  unfolding choose_target_replica
  choose_and_keep c a excluded_addresses =
      let (asked, target) = choose_target_replica c a excluded_addresses in
      elim target [
        | fails err ↦ (asked, fails err)
        | done t ↦ (record asked { current_target_replica_address = t }, done t)
      ]

  unfoldable pub get_crdt_operation_target :
      PnCounter M → Attempt M E → List M → PnCounter M × Fallible E (Option M)
  unfolding choose_and_keep excluded
  get_crdt_operation_target c a excluded_addresses = elim c.current_target_replica_address [
    | none ↦ choose_and_keep c a excluded_addresses
    | some t ↦ elim (excluded excluded_addresses t) [
      | false ↦ (c, done (some t))
      | true ↦ choose_and_keep c a excluded_addresses
    ]
  ]

  -- Every retry takes the next of the attempts.
  unfoldable pub invoke_internal :
      PnCounter M → List M → Option E → Operation → List (Attempt M E) → PnCounter M × Answer E
  unfolding get_crdt_operation_target update_observed_replica_timestamps entry_set
  invoke_internal c excluded_addresses last_error op [] = (c, pending)
  invoke_internal c excluded_addresses last_error op (a ∷ attempts) =
      elim (get_crdt_operation_target c a excluded_addresses).1 [
        | fails err ↦ ((get_crdt_operation_target c a excluded_addresses).0, rejected err)
        | done none ↦ (
          (get_crdt_operation_target c a excluded_addresses).0,
          elim last_error [ none ↦ no_data_member | some err ↦ rejected err ],
        )
        | done (some target) ↦
            let t = (get_crdt_operation_target c a excluded_addresses).0 in
            elim (a.call target op (entry_set t.last_observed_vector_clock)) [
              | done r ↦
                  (update_observed_replica_timestamps t r.replica_timestamps, resolved r.value)
              | fails err ↦
                  invoke_internal t (excluded_addresses ++ target ∷ []) (some err) op attempts
            ]
      ]

  module _ (c : PnCounter M) (attempts : List (Attempt M E)) where
    unfoldable pub get : PnCounter M × Answer E
    unfolding invoke_internal
    get = invoke_internal c [] none reads attempts

    unfoldable pub get_and_add : ℤ → PnCounter M × Answer E
    unfolding invoke_internal
    get_and_add delta = invoke_internal c [] none (adds delta true) attempts

    unfoldable pub add_and_get : ℤ → PnCounter M × Answer E
    unfolding invoke_internal
    add_and_get delta = invoke_internal c [] none (adds delta false) attempts

    unfoldable pub get_and_subtract : ℤ → PnCounter M × Answer E
    unfolding invoke_internal
    get_and_subtract delta = invoke_internal c [] none (adds (long_negate delta) true) attempts

    unfoldable pub subtract_and_get : ℤ → PnCounter M × Answer E
    unfolding invoke_internal
    subtract_and_get delta = invoke_internal c [] none (adds (long_negate delta) false) attempts

    unfoldable pub decrement_and_get : PnCounter M × Answer E
    unfolding invoke_internal
    decrement_and_get = invoke_internal c [] none (adds (negsuc 0) false) attempts

    unfoldable pub increment_and_get : PnCounter M × Answer E
    unfolding invoke_internal
    increment_and_get = invoke_internal c [] none (adds (pos 1) false) attempts

    unfoldable pub get_and_decrement : PnCounter M × Answer E
    unfolding invoke_internal
    get_and_decrement = invoke_internal c [] none (adds (negsuc 0) true) attempts

    unfoldable pub get_and_increment : PnCounter M × Answer E
    unfolding invoke_internal
    get_and_increment = invoke_internal c [] none (adds (pos 1) true) attempts
