-- ===== src/ConnectionManager/Retrying.antt =====
-- network/ConnectionManager.ts and WaitStrategy.ts: the attempts to connect to a candidate cluster.
-- What members, address provider and clock answer at each attempt is a record of functions.
pub mod Returning
use hazelcast_nodejs_client.Prelude.{
  ℕ, zero, suc, ◌+◌, ◌-◌, Bool, true, false, not, List, [], ◌∷◌, ◌++◌, select, Option, none, some,
  ltb, if◌then◌else◌, min,
}
use hazelcast_nodejs_client.JsMap.{Eq, string_eq, lookup}
use hazelcast_nodejs_client.Uuid.{Uuid}
use hazelcast_nodejs_client.ConnectionManager.Manager.{Address}

-- A member of the list, or an address that is configured or discovered.
pub record Target : Type 0 where
  pub address : Address
  pub member : Option Uuid

-- What `connect` gives: a connection, `null`, or one of the two errors that it throws on.
pub data Attempt : Type 0 where
  accepted failed refused : Attempt

-- `shuffleArray` and the translation of addresses have been applied; an address provider that fails
-- gives no addresses.
pub record Environment : Type 0 where
  pub members : ℕ → List Target
  pub provided : ℕ → List Target
  pub connect : ℕ → Target → Attempt
  pub is_running : ℕ → ℕ → Bool
  pub is_running_after : ℕ → Bool
  pub now : ℕ → ℕ

pub record WaitStrategy : Type 0 where
  pub initial_backoff_millis : ℕ
  pub max_backoff_millis : ℕ
  pub cluster_connect_timeout_millis : ℕ
  pub attempt : ℕ
  pub current_backoff_millis : ℕ
  pub cluster_connect_attempt_begin : ℕ

unfoldable pub reset_wait : ℕ → WaitStrategy → WaitStrategy
reset_wait now w = record w {
  attempt = 0;
  cluster_connect_attempt_begin = now;
  current_backoff_millis = min w.max_backoff_millis w.initial_backoff_millis;
}

-- `sleep`: whether the timeout is not reached, with the rounding of the product with the multiplier.
-- The clock does not go backwards.
unfoldable pub sleep : (ℕ → ℕ) → ℕ → WaitStrategy → Bool × WaitStrategy
sleep times_multiplier now w =
    let counted = record w { attempt = w.attempt + 1 } in
    if ltb w.cluster_connect_timeout_millis (now - w.cluster_connect_attempt_begin)
    then (false, counted)
    else (
      true,
      record counted {
        current_backoff_millis =
            min (times_multiplier w.current_backoff_millis) w.max_backoff_millis;
      },
    )

abbrev pub is_tried : Address → List Address → Bool
is_tried address [] = false
is_tried address (a ∷ tried) =
    let rest = is_tried address tried in if string_eq.eqb a address then true else rest

-- `Set.prototype.add`
unfoldable pub add_address : Address → List Address → List Address
add_address address tried = if is_tried address tried then tried else tried ++ address ∷ []

unfoldable pub add_addresses : List Address → List Address → List Address
add_addresses [] tried = tried
add_addresses (a ∷ more) tried = add_addresses more (add_address a tried)

-- How a round over targets ends.
pub data Round : Type 0 where
  connects connects_none throws_not_active throws_refused : Round

-- One target: whether the client runs, what connecting to it gives, the addresses tried before and
-- with it, and the rest of the round.
unfoldable pub try_one :
    Bool → Attempt → List Address → List Address → Round × List Address → Round × List Address
try_one false attempt before tried rest = (throws_not_active, before)
try_one true accepted before tried rest = (connects, tried)
try_one true refused before tried rest = (throws_refused, tried)
try_one true failed before tried rest = rest

-- `tryConnecting`, with the addresses that it tries.
unfoldable pub try_connecting :
    (Target → Attempt) → (ℕ → Bool) → ℕ → List Target → List Address → Round × List Address
try_connecting connect is_running index [] tried = (connects_none, tried)
try_connecting connect is_running index (item ∷ items) before =
    let tried = add_address item.address before in
    try_one (is_running index) (connect item) before tried
      (try_connecting connect is_running (index + 1) items tried)

-- The addresses of the provider come after the members.
unfoldable pub after_members :
    (List Address → Round × List Address) → Round × List Address → Round × List Address
after_members provided (connects_none, tried) = provided tried
after_members provided (round, tried) = (round, tried)

-- The members first, then the addresses of the provider that were not tried.
unfoldable pub try_addresses : Environment → ℕ → Round × List Address
try_addresses env n =
    after_members
      (λ tried.
        try_connecting (env.connect n) (env.is_running n) 0
          (select (λ item. not (is_tried item.address tried)) (env.provided n)) tried)
      (try_connecting (env.connect n) (env.is_running n) 0 (env.members n) [])

-- What `doConnectToCandidateCluster` is settled with: `true`, `false`, or the error of a client that
-- is not active.
pub data Outcome : Type 0 where
  joined gave_up client_not_active : Outcome

-- What follows a round: the lifecycle is checked again, and the client sleeps or gives up.
unfoldable pub after_round :
    Round
    → Bool
    → Bool
    → List Address
    → List Address
    → Option (Outcome × List Address)
    → Option (Outcome × List Address)
after_round connects is_running not_timed_out tried all_tried rest = some (joined, tried)
after_round throws_not_active is_running not_timed_out tried all_tried rest =
    some (client_not_active, tried)
after_round throws_refused is_running not_timed_out tried all_tried rest = some (gave_up, tried)
after_round connects_none false not_timed_out tried all_tried rest =
    some (client_not_active, all_tried)
after_round connects_none true true tried all_tried rest = rest
after_round connects_none true false tried all_tried rest = some (gave_up, all_tried)

-- `tryConnectingToAddresses` from an attempt on, with fuel for the attempts.
unfoldable pub try_connecting_to_addresses :
    Environment → (ℕ → ℕ) → ℕ → ℕ → List Address → WaitStrategy → Option (Outcome × List Address)
try_connecting_to_addresses env times_multiplier zero n tried w = none
try_connecting_to_addresses env times_multiplier (suc fuel) n tried w =
    let all_tried = add_addresses ((try_addresses env n).1) tried in
    let waited = sleep times_multiplier (env.now n) w in
    after_round ((try_addresses env n).0) (env.is_running_after n) (waited.0) tried all_tried
      (try_connecting_to_addresses env times_multiplier fuel (suc n) all_tried (waited.1))

-- One attempt more than the timeout has milliseconds, and another.
unfoldable pub do_connect_to_candidate_cluster :
    Environment → (ℕ → ℕ) → ℕ → WaitStrategy → Option (Outcome × List Address)
do_connect_to_candidate_cluster env times_multiplier now w =
    try_connecting_to_addresses env times_multiplier (suc (suc w.cluster_connect_timeout_millis)) 0
      [] (reset_wait now w)
