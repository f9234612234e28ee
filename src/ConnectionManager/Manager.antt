-- ===== src/ConnectionManager/Manager.antt =====
-- network/ConnectionManager.ts: what happens when connections are opened, authenticated and closed.
use hazelcast_nodejs_client.Prelude.{
  ℕ, Bool, true, false, not, List, [], ◌∷◌, ◌++◌, Option, none, some, if◌then◌else◌, ◌==◌,
  get_elem?, set,
}
use Prim.Native.String.{String}
use hazelcast_nodejs_client.JsMap.{string_eq}
use hazelcast_nodejs_client.Uuid.{Uuid, equals, equals?}
use hazelcast_nodejs_client.ConnectionManager.Registry.{
  connected_to_cluster, initialized_on_cluster, is_initialized, ReconnectMode, off, Registry,
  new_registry, is_empty, get_connections, get_connection, delete_connection, set_connection,
  set_connection_state, activate, deactivate,
}

abbrev pub Address : Type 0
Address = String

-- A connection: whether it is closed, and who is at its other end.
pub record Connection : Type 0 where
  pub remote_address : Option Address
  pub remote_uuid : Option Uuid
  pub closed : Bool

pub data Event : Type 0 where
  connected disconnected changed_cluster : Event
  connection_added connection_removed : ℕ → Event
  cluster_restart shutdown_client connect_to_cluster : Event
  send_state : Uuid → Event

pub record Config : Type 0 where
  pub reconnect_mode : ReconnectMode
  pub failover_config_provided : Bool

-- `is_running` is the lifecycle service's, and the events are what other parts are told.
pub record Manager : Type 0 where
  pub registry : Registry
  pub connections : List Connection
  pub cluster_id : Option Uuid
  pub switching_to_next_cluster : Bool
  pub connect_to_cluster_task_submitted : Bool
  pub is_running : Bool
  pub events : List Event

abbrev pub new_manager : Manager
new_manager = record {
  registry = new_registry;
  connections = [];
  cluster_id = none;
  switching_to_next_cluster = false;
  connect_to_cluster_task_submitted = false;
  is_running = true;
  events = [];
}

unfoldable pub emit : Event → Manager → Manager
emit event m = record m { events = m.events ++ event ∷ [] }

unfoldable pub set_registry : (Registry → Registry) → Manager → Manager
set_registry change m = record m { registry = change m.registry }

unfoldable pub set_connection_at : ℕ → Connection → Manager → Manager
set_connection_at id connection m = record m { connections = set m.connections id connection }

unfoldable pub submit_connect_to_cluster_task : Manager → Manager
submit_connect_to_cluster_task m =
    if m.connect_to_cluster_task_submitted
    then m
    else record (emit connect_to_cluster m) { connect_to_cluster_task_submitted = true }

-- What follows when the task has connected, and when it has failed.
unfoldable pub connect_task_done : Manager → Manager
connect_task_done m =
    let finished = record m { connect_to_cluster_task_submitted = false } in
    if is_empty m.registry then submit_connect_to_cluster_task finished else finished

unfoldable pub connect_task_failed : Manager → Manager
connect_task_failed m = emit shutdown_client m

unfoldable pub trigger_cluster_reconnection : Config → Manager → Manager
trigger_cluster_reconnection c m = elim c.reconnect_mode [
  | off ↦ emit shutdown_client m
  | _ ↦ if m.is_running then submit_connect_to_cluster_task m else m
]

-- The registered connection of a member was closed.
unfoldable pub remove_connection : Config → Uuid → ℕ → Manager → Manager
remove_connection c uuid id m =
    let removed = set_registry (delete_connection uuid) m in
    let told =
      if is_initialized m.registry.connection_state then emit disconnected removed else removed in
    let reconnected =
      if is_empty removed.registry then trigger_cluster_reconnection c told else removed in
    emit (connection_removed id) reconnected

unfoldable pub on_connection_close : Config → ℕ → Connection → Manager → Manager
on_connection_close c id connection m = elim connection.remote_address [
  | none ↦ m
  | some _ ↦ elim connection.remote_uuid [
    | none ↦ m
    | some uuid ↦ elim (get_connection uuid m.registry) [
      | none ↦ m
      | some active ↦ if active == id then remove_connection c uuid id m else m
    ]
  ]
]

-- `Connection.close`, which does nothing a second time.
unfoldable pub close : Config → ℕ → Manager → Manager
close c id m = elim (get_elem? m.connections id) [
  | none ↦ m
  | some connection ↦ elim connection.closed [
    | true ↦ m
    | false ↦
        on_connection_close c id connection
          (set_connection_at id (record connection { closed = true }) m)
  ]
]

-- A socket was opened to an address: `new Connection`.
unfoldable pub open_connection : Address → Manager → Manager
open_connection address m = record m {
  connections =
      m.connections
      ++ record { remote_address = some address; remote_uuid = none; closed = false } ∷ [];
}

unfoldable pub initialize_client_on_cluster : Uuid → Manager → Manager
initialize_client_on_cluster target m =
    if equals? target m.cluster_id then emit (send_state target) m else m

-- The state was sent to the cluster, and it could not be sent.
unfoldable pub state_sent : Uuid → Manager → Manager
state_sent target m =
    if equals? target m.cluster_id
    then emit connected (set_registry (set_connection_state initialized_on_cluster) m)
    else m

unfoldable pub state_not_sent : Uuid → Manager → Manager
state_not_sent target m =
    if equals? target m.cluster_id then initialize_client_on_cluster target m else m

-- `ClientAuthenticationCodec.decodeResponse`, of a status that is authenticated, where the member
-- tells who it is. `checkPartitionCount` is the partition service's answer.
pub record Response : Type 0 where
  pub address : Address
  pub member_uuid : Uuid
  pub cluster_id : Uuid
  pub same_partition_count : Bool

-- What the promise of the connection is settled with.
pub data Outcome : Type 0 where
  connection_of : ℕ → Outcome
  client_not_allowed_in_cluster illegal_state : Outcome

-- `checkConnectionStateOnClusterIdChange`: an error, or leave to go on.
unfoldable pub check_connection_state_on_cluster_id_change :
    Config → ℕ → Manager → Manager × Option Outcome
check_connection_state_on_cluster_id_change c id m =
    if is_empty m.registry
    then (if not c.failover_config_provided
        then (m, none)
        else (if m.switching_to_next_cluster
            then (record m { switching_to_next_cluster = false }, none)
            else (close c id m, some client_not_allowed_in_cluster)))
    else (close c id m, some illegal_state)

-- A connection to a member that had none.
unfoldable pub register : ℕ → Response → Bool → Manager → Manager
register id response cluster_id_changed m =
    let registered = set_registry (set_connection response.member_uuid id) m in
    let joined = record registered { cluster_id = some response.cluster_id } in
    let settled =
      if is_empty m.registry
      then (if cluster_id_changed
          then initialize_client_on_cluster response.cluster_id
              (set_registry (set_connection_state connected_to_cluster) joined)
          else emit connected (set_registry (set_connection_state initialized_on_cluster) joined))
      else registered in
    emit (connection_added id) settled

unfoldable pub cluster_id_changes : Response → Manager → Bool
cluster_id_changes response m = elim m.cluster_id [
  | none ↦ false
  | some current ↦ not (equals response.cluster_id current)
]

-- After the check: the error is thrown, or the client follows its cluster.
unfoldable pub follow_cluster : ℕ → Response → Manager × Option Outcome → Manager × Outcome
follow_cluster id response (checked, some error) = (checked, error)
follow_cluster id response (checked, none) =
    (register id response true (emit cluster_restart checked), connection_of id)

-- The rest of `onAuthenticated`, once the connection has its address and its member.
unfoldable pub join_cluster : Config → ℕ → Response → Manager → Manager × Outcome
join_cluster c id response m =
    if cluster_id_changes response m
    then follow_cluster id response (check_connection_state_on_cluster_id_change c id m)
    else (register id response false m, connection_of id)

-- `setRemoteAddress` and `setRemoteUuid`
unfoldable pub identify : ℕ → Response → Manager → Manager
identify id response m = elim (get_elem? m.connections id) [
  | none ↦ m
  | some connection ↦
      set_connection_at id
        (record connection {
          remote_address = some response.address;
          remote_uuid = some response.member_uuid;
        })
        m
]

-- A second connection to a member is closed.
unfoldable pub admit_member : Config → ℕ → Response → Manager → Manager × Outcome
admit_member c id response identified =
    elim (get_connection response.member_uuid identified.registry) [
      | some existing ↦ (close c id identified, connection_of existing)
      | none ↦ join_cluster c id response identified
    ]

unfoldable pub on_authenticated : Config → ℕ → Response → Manager → Manager × Outcome
on_authenticated c id response m =
    if not response.same_partition_count
    then (m, client_not_allowed_in_cluster)
    else admit_member c id response (identify id response m)

-- `forEachConnection` closes what is registered at its start.
unfoldable pub close_all : Config → List ℕ → Manager → Manager
close_all c [] m = m
close_all c (id ∷ ids) m = close_all c ids (close c id m)

unfoldable pub shutdown : Config → Manager → Manager
shutdown c m =
    if m.registry.active
    then close_all c (get_connections m.registry) (set_registry deactivate m)
    else m

unfoldable pub reset : Config → Manager → Manager
reset c m = close_all c (get_connections m.registry) m

-- `start`, which connects at once or in the background.
unfoldable pub start : Bool → Manager → Manager
start async_start m =
    if m.registry.active
    then m
    else (let activated = set_registry activate m in
        if async_start
        then submit_connect_to_cluster_task activated
        else emit connect_to_cluster activated)

-- The start of `cleanupAndTryNextCluster`, and its end once the member list has come.
unfoldable pub switch_to_next_cluster : Manager → Manager
switch_to_next_cluster m = record m { switching_to_next_cluster = true }

unfoldable pub switched_cluster : Manager → Manager
switched_cluster m = emit changed_cluster m
