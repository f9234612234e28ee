-- ===== src/Tests/PnCounters.antt =====
-- The counter with three data members, of which the first answers no request.
use Prim.Native.String.{String}
use hazelcast_nodejs_client.Prelude.{
  ℕ, ◌≡◌, refl, ◌≢◌, List, [], ◌∷◌, some, none, arith, ℤ, pos, leb, if◌then◌else◌,
}
use hazelcast_nodejs_client.JsMap.{ℕ_eq, string_eq, lookup, insert}
use hazelcast_nodejs_client.PnCounter.{
  PnCounter, Attempt, done, fails, pending, reads, create, to_vector_clock,
  update_observed_replica_timestamps, invoke_internal,
}
use hazelcast_nodejs_client.PnCounter.Settling.{invoke_internal-settles}
use hazelcast_nodejs_client.PnCounter.Observation.{update_observed_forgets}

abbrev first_later : List (String × ℤ)
first_later = ("a", pos 3) ∷ ("b", pos 1) ∷ []

abbrev second_later : List (String × ℤ)
second_later = ("a", pos 2) ∷ ("b", pos 2) ∷ []

abbrev counter : PnCounter ℕ
counter = record create { last_observed_vector_clock = first_later }

update_observed_forgets_example :
    lookup "a" (update_observed_replica_timestamps counter second_later).last_observed_vector_clock
    ≡ some (pos 2)
unfolding lookup to_vector_clock insert
update_observed_forgets_example =
    update_observed_forgets counter second_later "b" "a" (pos 1) (pos 2) (pos 3) (pos 2) refl refl
      (omega arith) refl refl (omega arith)

abbrev attempt : Attempt ℕ ℕ
attempt = record {
  data_members = 0 ∷ 1 ∷ 2 ∷ [];
  configured = done 3;
  draw = 0;
  call = λ m op clock.
      if leb m 0 then fails 7 else done (record { value = pos 5; replica_timestamps = [] });
}

invoke_internal-settles_example :
    (invoke_internal counter [] none reads (attempt ∷ attempt ∷ attempt ∷ attempt ∷ attempt ∷ [])).1
    ≢ pending
invoke_internal-settles_example =
    invoke_internal-settles (0 ∷ 1 ∷ 2 ∷ []) (attempt ∷ attempt ∷ attempt ∷ attempt ∷ attempt ∷ [])
      counter reads (refl, (refl, (refl, (refl, (refl, tt))))) (omega arith)
