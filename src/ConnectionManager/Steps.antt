-- ===== src/ConnectionManager/Steps.antt =====
-- network/ConnectionManager.ts: the steps that follow each other in any order.
use hazelcast_nodejs_client.Prelude.{
  ℕ, ◌≡◌, refl, Bool, true, false, some, get_elem?-append_left, if◌then◌else◌,
}
use hazelcast_nodejs_client.JsMap.{lookup}
use hazelcast_nodejs_client.Uuid.{Uuid, uuid_eq, equals?}
use hazelcast_nodejs_client.ConnectionManager.Registry.{
  is_empty, get_connection, get_connections, set_connection_state, activate, deactivate,
}
use hazelcast_nodejs_client.ConnectionManager.Manager.{
  Address, Event, Config, Response, Manager, new_manager, set_registry, connect_task_done,
  connect_task_failed, open_connection, close, state_sent, state_not_sent, on_authenticated,
  shutdown, reset, start, switch_to_next_cluster, switched_cluster,
}
use hazelcast_nodejs_client.ConnectionManager.Alive.{
  IsAlive, IsOpenTo, SameConnections, SameConnections-IsAlive, SameConnections-trans,
  SameConnections-refl, if-SameConnections, emit-SameConnections, submit-SameConnections,
}
use hazelcast_nodejs_client.ConnectionManager.Closing.{close-IsAlive, close_all-IsAlive}
use hazelcast_nodejs_client.ConnectionManager.Joining.{
  IsFresh, initialize-SameConnections, on_authenticated-IsAlive,
}

-- What may happen to the connections of a client. A member answers an authentication request on a
-- connection that is open, once.
pub data Step (c : Config) : Manager → Manager → Type 0 where
  started : {m : Manager} (async_start : Bool) → Step c m (start async_start m)
  opened : {m : Manager} (address : Address) → Step c m (open_connection address m)
  authenticated :
      {m : Manager} (id : ℕ) (response : Response)
      → IsFresh id m
      → Step c m ((on_authenticated c id response m).0)
  closes : {m : Manager} (id : ℕ) → Step c m (close c id m)
  sent : {m : Manager} (target : Uuid) → Step c m (state_sent target m)
  not_sent : {m : Manager} (target : Uuid) → Step c m (state_not_sent target m)
  task_done : {m : Manager} → Step c m (connect_task_done m)
  task_failed : {m : Manager} → Step c m (connect_task_failed m)
  switching : {m : Manager} → Step c m (switch_to_next_cluster m)
  switched : {m : Manager} → Step c m (switched_cluster m)
  stops_running : {m : Manager} → Step c m (record m { is_running = false })
  shuts_down : {m : Manager} → Step c m (shutdown c m)
  resets : {m : Manager} → Step c m (reset c m)

pub data Reach (c : Config) : Manager → Type 0 where
  begin : Reach c new_manager
  next : {m m' : Manager} → Reach c m → Step c m m' → Reach c m'

start-SameConnections : (async_start : Bool) (m : Manager) → SameConnections m (start async_start m)
unfolding start set_registry activate
start-SameConnections async_start m =
    let activated = set_registry activate m in
    if-SameConnections m.registry.active (SameConnections-refl m) (
      SameConnections-trans (record { same_active = refl; same_connections = refl })
        (if-SameConnections async_start (submit-SameConnections activated)
          (emit-SameConnections Event.connect_to_cluster activated)))

open_connection-IsAlive :
    (address : Address) (m : Manager) → IsAlive m → IsAlive (open_connection address m)
unfolding open_connection
open_connection-IsAlive address m alive = record {
  all_open = λ uuid id e.
      let o = alive.all_open uuid id e in
      record {
        connection = o.connection;
        stands = get_elem?-append_left m.connections _ id o.connection o.stands;
        is_open = o.is_open;
        member = o.member;
        address = o.address;
        has_address = o.has_address;
      };
}

state_sent-SameConnections : (target : Uuid) (m : Manager) → SameConnections m (state_sent target m)
unfolding state_sent set_registry set_connection_state
state_sent-SameConnections target m =
    if-SameConnections (equals? target m.cluster_id)
      (SameConnections-trans (record { same_active = refl; same_connections = refl })
        (emit-SameConnections Event.connected _))
      (SameConnections-refl m)

state_not_sent-SameConnections :
    (target : Uuid) (m : Manager) → SameConnections m (state_not_sent target m)
unfolding state_not_sent
state_not_sent-SameConnections target m =
    if-SameConnections (equals? target m.cluster_id) (initialize-SameConnections target m)
      (SameConnections-refl m)

connect_task_done-SameConnections : (m : Manager) → SameConnections m (connect_task_done m)
unfolding connect_task_done
connect_task_done-SameConnections m =
    let finished = record m { connect_to_cluster_task_submitted = false } in
    if-SameConnections (is_empty m.registry)
      (SameConnections-trans (record { same_active = refl; same_connections = refl })
        (submit-SameConnections finished))
      (record { same_active = refl; same_connections = refl })

if_then_IsAlive : (m n : Manager) (b : Bool) → IsAlive m → IsAlive n → IsAlive (if b then m else n)
if_then_IsAlive m n true p q = p
if_then_IsAlive m n false p q = q

pub Step-IsAlive : {c : Config} {m m' : Manager} → Step c m m' → IsAlive m → IsAlive m'
unfolding connect_task_failed switch_to_next_cluster switched_cluster shutdown reset set_registry
    deactivate
Step-IsAlive {m} (started async_start) alive =
    SameConnections-IsAlive (start-SameConnections async_start m) alive
Step-IsAlive {m} (opened address) alive = open_connection-IsAlive address m alive
Step-IsAlive {c} {m} (authenticated id response fresh) alive =
    on_authenticated-IsAlive c id response m alive fresh
Step-IsAlive {c} {m} (closes id) alive = close-IsAlive c id m alive
Step-IsAlive {m} (sent target) alive =
    SameConnections-IsAlive (state_sent-SameConnections target m) alive
Step-IsAlive {m} (not_sent target) alive =
    SameConnections-IsAlive (state_not_sent-SameConnections target m) alive
Step-IsAlive {m} task_done alive =
    SameConnections-IsAlive (connect_task_done-SameConnections m) alive
Step-IsAlive {m} task_failed alive =
    SameConnections-IsAlive (emit-SameConnections Event.shutdown_client m) alive
Step-IsAlive switching alive = alive
Step-IsAlive {m} switched alive =
    SameConnections-IsAlive (emit-SameConnections Event.changed_cluster m) alive
Step-IsAlive stops_running alive = alive
Step-IsAlive {c} {m} shuts_down alive =
    if_then_IsAlive _ m m.registry.active
      (close_all-IsAlive c (get_connections m.registry) (set_registry deactivate m) alive) alive
Step-IsAlive {c} {m} resets alive = close_all-IsAlive c (get_connections m.registry) m alive

Reach-IsAlive : {c : Config} {m : Manager} → Reach c m → IsAlive m
unfolding lookup
Reach-IsAlive begin = record { all_open = λ uuid id e. absurd (cc) }
Reach-IsAlive (next r s) = Step-IsAlive s (Reach-IsAlive r)

-- Whatever sequence of openings, authentications, closings, shutdowns and changes of the cluster led
-- to a state, a connection that the registry gives for a member is open, was authenticated by that
-- member, and has an address, so that its closing removes it from the registry.
pub Reach-IsOpenTo :
    {c : Config} {m : Manager}
    → Reach c m
    → (uuid : Uuid) (id : ℕ) → get_connection uuid m.registry ≡ some id
    → IsOpenTo uuid m.connections id
unfolding get_connection
Reach-IsOpenTo r uuid id e = (Reach-IsAlive r).all_open uuid id e
