-- ===== src/PnCounter/Observation.antt =====
-- What the counter keeps of the clocks that it observes.
use Prim.Native.String.{String}
use hazelcast_nodejs_client.Prelude.{◌≡◌, List, [], some, arith, ℤ, ◌<ℤ◌}
use hazelcast_nodejs_client.JsMap.{string_eq, lookup}
use hazelcast_nodejs_client.VectorClock.{is_after-lookup}
use hazelcast_nodejs_client.PnCounter.{
  PnCounter, to_vector_clock, update_observed_replica_timestamps,
}

-- A response of which one replica is later, and another earlier, than the observed clock replaces
-- the clock: the counter forgets an update of the second replica that it had seen.
pub update_observed_forgets :
    {M : Type 0} (c : PnCounter M) (observed : List (String × ℤ)) (r s : String) (x y u v : ℤ)
    → lookup r c.last_observed_vector_clock ≡ some x
    → lookup r (to_vector_clock [] observed) ≡ some y
    → x <ℤ y
    → lookup s c.last_observed_vector_clock ≡ some u
    → lookup s (to_vector_clock [] observed) ≡ some v
    → v <ℤ u
    → lookup s (update_observed_replica_timestamps c observed).last_observed_vector_clock ≡ some v
unfolding update_observed_replica_timestamps
update_observed_forgets c observed r s x y u v e f h g k l = ground (
  arith,
  is_after-lookup (to_vector_clock [] observed) c.last_observed_vector_clock r y x f e h,
  k,
)
