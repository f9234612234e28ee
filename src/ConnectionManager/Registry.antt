-- ===== src/ConnectionManager/Registry.antt =====
-- network/ConnectionManager.ts: `ConnectionRegistryImpl`.
use hazelcast_nodejs_client.Prelude.{
  ℕ, Bool, true, false, not, ◌&&◌, List, [], ◌∷◌, map, Option, none, some, if◌then◌else◌,
}
use hazelcast_nodejs_client.JsMap.{lookup, insert, remove}
use hazelcast_nodejs_client.Uuid.{Uuid, uuid_eq}

pub data ConnectionState : Type 0 where
  initial connected_to_cluster initialized_on_cluster : ConnectionState

unfoldable pub is_initialized : ConnectionState → Bool
is_initialized initialized_on_cluster = true
is_initialized _ = false

pub data ReconnectMode : Type 0 where
  on off async : ReconnectMode

pub record Registry : Type 0 where
  pub active : Bool
  pub active_connections : List (Uuid × ℕ)
  pub connection_state : ConnectionState

abbrev pub new_registry : Registry
new_registry = record { active = false; active_connections = []; connection_state = initial }

unfoldable pub is_empty : Registry → Bool
is_empty r = elim r.active_connections [ [] ↦ true | _ ∷ _ ↦ false ]

unfoldable pub get_connections : Registry → List ℕ
get_connections r = map (λ entry. entry.1) r.active_connections

unfoldable pub get_connection : Uuid → Registry → Option ℕ
get_connection uuid r = lookup uuid r.active_connections

unfoldable pub delete_connection : Uuid → Registry → Registry
delete_connection uuid r = record r { active_connections = remove uuid r.active_connections }

unfoldable pub set_connection : Uuid → ℕ → Registry → Registry
set_connection uuid connection r = record r {
  active_connections = insert uuid connection r.active_connections;
}

unfoldable pub set_connection_state : ConnectionState → Registry → Registry
set_connection_state state r = record r { connection_state = state }

unfoldable pub activate : Registry → Registry
activate r = record r { active = true }

unfoldable pub deactivate : Registry → Registry
deactivate r = record r { active = false }

-- The errors of `checkIfInvocationAllowed`.
pub data NotAllowed : Type 0 where
  client_offline no_connection_at_start no_connection : NotAllowed

unfoldable pub check_if_invocation_allowed : Bool → ReconnectMode → Registry → Option NotAllowed
unfolding is_initialized is_empty
check_if_invocation_allowed async_start reconnect_mode r =
    elim (is_initialized r.connection_state && not (is_empty r)) [
      | true ↦ none
      | false ↦ elim r.connection_state [
        | initial ↦ if async_start then some client_offline else some no_connection_at_start
        | _ ↦ elim reconnect_mode [ async ↦ some client_offline | _ ↦ some no_connection ]
      ]
    ]

-- What the load balancer answers, and whether a member is a data member, if it is known.
pub record Balancer : Type 0 where
  pub can_get_next_data_member : Bool
  pub next_data_member : Option Uuid
  pub next : Option Uuid
  pub is_data_member : Uuid → Option Bool

unfoldable pub balanced_member : Bool → Balancer → Option Uuid
balanced_member data_member b =
    if data_member
    then (if b.can_get_next_data_member then b.next_data_member else none)
    else b.next

-- The first connection of the loop that is not skipped.
unfoldable pub first_connection : Bool → Balancer → List (Uuid × ℕ) → Option ℕ
first_connection data_member b [] = none
first_connection data_member b ((uuid, connection) ∷ entries) =
    let rest = first_connection data_member b entries in
    if data_member
    then elim (b.is_data_member uuid) [ some true ↦ some connection | _ ↦ rest ]
    else some connection

unfoldable pub get_random_connection : Bool → Balancer → Bool → Registry → Option ℕ
unfolding balanced_member get_connection first_connection
get_random_connection smart_routing b data_member r =
    let chosen =
      if smart_routing
      then elim (balanced_member data_member b) [ none ↦ none | some uuid ↦ get_connection uuid r ]
      else none in
    elim chosen [
      | some connection ↦ some connection
      | none ↦ first_connection data_member b r.active_connections
    ]
