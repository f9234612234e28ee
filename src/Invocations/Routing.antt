-- ===== src/Invocations/Routing.antt =====
-- invocation/InvocationService.ts: the state of `InvocationService`, and the connection that a
-- request is written to. An invocation is named by its correlation id. What the other services
-- answer is an argument, and the handler of a promise that is rejected at once runs at once. The
-- contents of the request, its flags included, are left out.
use hazelcast_nodejs_client.Prelude.{
  ℕ, Bool, true, false, List, [], ◌∷◌, ◌++◌, Option, none, some, if◌then◌else◌,
}
use hazelcast_nodejs_client.JsMap.{ℕ_eq, insert, remove}
use hazelcast_nodejs_client.Uuid.{Uuid}
use hazelcast_nodejs_client.Invocations.Request.{Error, io, client_not_active, Invocation}

pub record InvocationService (C A : Type 0) : Type 0 where
  pub smart_routing : Bool
  pub redo_operation : Bool
  pub fail_on_indeterminate_state : Bool
  pub backup_ack_to_client_enabled : Bool
  pub operation_backup_timeout_millis : ℕ
  pub invocation_timeout_millis : ℕ
  -- The objects, and the maps that hold them by their correlation id.
  pub invocations : List (ℕ × Invocation C A)
  pub pending : List (ℕ × Unit {0})
  pub event_handlers : List (ℕ × Unit {0})
  pub correlation_counter : ℕ
  pub is_shutdown : Bool
  -- The writes of requests, and the invocations that a timer will invoke again.
  pub written : List (ℕ × C)
  pub timers : List ℕ

-- What the other services answer while one call runs.
pub record Environment (C : Type 0) : Type 0 where
  pub now : ℕ
  pub is_running : Bool
  pub not_allowed : Option Error
  pub random_connection : Option C
  pub connection_of : Uuid → Option C
  pub owner_of : ℕ → Option Uuid
  pub is_alive : C → Bool

module _ {C A : Type 0} where
  unfoldable pub register_invocation :
      InvocationService C A → ℕ → Invocation C A → InvocationService C A
  unfolding insert
  register_invocation s id i = record s {
    event_handlers = if i.has_handler then insert id tt s.event_handlers else s.event_handlers;
    pending = insert id tt s.pending;
  }

  unfoldable pub deregister_invocation : InvocationService C A → ℕ → InvocationService C A
  unfolding remove
  deregister_invocation s id = record s { pending = remove id s.pending }

  unfoldable pub remove_event_handler : InvocationService C A → ℕ → InvocationService C A
  unfolding remove
  remove_event_handler s id = record s { event_handlers = remove id s.event_handlers }

  -- The error is the rejection.
  unfoldable pub send :
      InvocationService C A → ℕ → Invocation C A → C → InvocationService C A × Option Error
  unfolding register_invocation
  send s id i connection =
      let registered = register_invocation s id i in
      if s.is_shutdown
      then (s, some client_not_active)
      else (record registered { written = s.written ++ (id, connection) ∷ [] }, none)

  unfoldable pub invoke_on_random_connection :
      Environment C
      → InvocationService C A
      → ℕ
      → Invocation C A
      → InvocationService C A × Option Error
  unfolding send
  invoke_on_random_connection env s id i = elim env.random_connection [
    | none ↦ (s, some io)
    | some c ↦ send s id i c
  ]

  unfoldable pub invoke_on_uuid :
      Environment C
      → InvocationService C A
      → ℕ
      → Invocation C A
      → Uuid
      → InvocationService C A × Option Error
  unfolding send
  invoke_on_uuid env s id i target = elim (env.connection_of target) [
    | none ↦ (s, some io)
    | some c ↦ send s id i c
  ]

  unfoldable pub invoke_on_partition_owner :
      Environment C
      → InvocationService C A
      → ℕ
      → Invocation C A
      → ℕ
      → InvocationService C A × Option Error
  unfolding invoke_on_uuid
  invoke_on_partition_owner env s id i partition_id = elim (env.owner_of partition_id) [
    | none ↦ (s, some io)
    | some owner ↦ invoke_on_uuid env s id i owner
  ]

  -- The first choice of `invokeSmart` where the invocation is bound to no connection.
  unfoldable pub invoke_directed :
      Environment C
      → InvocationService C A
      → ℕ
      → Invocation C A
      → InvocationService C A × Option Error
  unfolding invoke_on_partition_owner invoke_on_random_connection invoke_on_uuid
  invoke_directed env s id i = elim i.partition_id [
    | some p ↦ invoke_on_partition_owner env s id i p
    | none ↦ elim i.uuid [
      | some u ↦ invoke_on_uuid env s id i u
      | none ↦ invoke_on_random_connection env s id i
    ]
  ]

  -- Where the request goes: `invokeSmart` and `invokeNonSmart` after their check.
  unfoldable pub route :
      Environment C
      → InvocationService C A
      → ℕ
      → Invocation C A
      → InvocationService C A × Option Error
  unfolding invoke_directed invoke_on_random_connection send
  route env s id i = elim i.connection [
    | some c ↦ send s id i c
    | none ↦ elim s.smart_routing [
      | false ↦ invoke_on_random_connection env s id i
      | true ↦ elim (invoke_directed env s id i).1 [
        | none ↦ invoke_directed env s id i
        | some _ ↦ invoke_on_random_connection env (invoke_directed env s id i).0 id i
      ]
    ]
  ]
