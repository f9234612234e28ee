-- ===== src/Invocations/Service.antt =====
-- invocation/InvocationService.ts: the methods of `InvocationService`, and the events that it
-- handles: responses, acknowledgements of backups, the ends of writes and of timers.
use hazelcast_nodejs_client.Prelude.{
  ℕ, suc, Bool, true, false, not, ◌||◌, List, [], ◌∷◌, Option, none, some, if◌then◌else◌,
}
use hazelcast_nodejs_client.JsMap.{ℕ_eq, lookup, insert, has}
use hazelcast_nodejs_client.Uuid.{Uuid}
use hazelcast_nodejs_client.Invocations.Request
use hazelcast_nodejs_client.Invocations.Request.{
  Error, io, target_disconnected, client_not_active, operation_timeout, Message, Outcome, rejected,
  Invocation, settle, should_retry, notify, notify_backup_complete,
  detect_and_handle_backup_timeout,
}
use hazelcast_nodejs_client.Invocations.Routing.{
  InvocationService, Environment, deregister_invocation, invoke_on_random_connection,
}
use hazelcast_nodejs_client.Invocations.Retrying.{
  max_fast_invocation_count, do_invoke, notify_error,
}

module _ {C A : Type 0} where
  -- Puts the object back, and deregisters it where it says so.
  abbrev keep : ℕ → InvocationService C A × Invocation C A → InvocationService C A
  keep id (s, i) = record s { invocations = insert id i s.invocations }

  abbrev finish : InvocationService C A → ℕ → Invocation C A × Bool → InvocationService C A
  finish s id (i, deregistered) =
      keep id ((if deregistered then deregister_invocation s id else s), i)

  -- `invoke`: the id of the new request is its number.
  unfoldable pub invoke :
      Environment C → InvocationService C A → Invocation C A → InvocationService C A × ℕ
  unfolding do_invoke insert
  invoke env s i =
      let id = s.correlation_counter in
      let numbered = record s { correlation_counter = suc id } in
      (
        keep id
            (do_invoke max_fast_invocation_count env numbered id (record i { deferred = none })),
        id,
      )

  unfoldable pub invoke_urgent :
      Environment C → InvocationService C A → Invocation C A → InvocationService C A × ℕ
  unfolding invoke
  invoke_urgent env s i = invoke env s (record i { urgent = true })

  unfoldable pub invoke_on_connection :
      Environment C → InvocationService C A → C → Bool → Bool → InvocationService C A × ℕ
  unfolding invoke Request.create
  invoke_on_connection env s connection is_retryable handler =
      let i = Request.create is_retryable s.invocation_timeout_millis none env.now in
      invoke env s (record i { connection = some connection; has_handler = handler })

  unfoldable pub invoke_on_partition :
      Environment C → InvocationService C A → Bool → ℕ → Option ℕ → InvocationService C A × ℕ
  unfolding invoke Request.create
  invoke_on_partition env s is_retryable partition_id timeout =
      let i = Request.create is_retryable s.invocation_timeout_millis timeout env.now in
      invoke env s (record i { partition_id = some partition_id })

  unfoldable pub invoke_on_target :
      Environment C → InvocationService C A → Bool → Uuid → InvocationService C A × ℕ
  unfolding invoke Request.create
  invoke_on_target env s is_retryable target =
      let i = Request.create is_retryable s.invocation_timeout_millis none env.now in
      invoke env s (record i { uuid = some target })

  unfoldable pub invoke_on_random_target :
      Environment C → InvocationService C A → Bool → InvocationService C A × ℕ
  unfolding invoke Request.create
  invoke_on_random_target env s is_retryable =
      invoke env s (Request.create is_retryable s.invocation_timeout_millis none env.now)

  -- The pending invocation of a correlation id.
  unfoldable pub pending_invocation : InvocationService C A → ℕ → Option (Invocation C A)
  unfolding lookup has
  pending_invocation s id = elim (has id s.pending) [
    | true ↦ lookup id s.invocations
    | false ↦ none
  ]

  unfoldable pub backup_event_handler : InvocationService C A → ℕ → InvocationService C A
  unfolding pending_invocation notify_backup_complete deregister_invocation insert
  backup_event_handler s id = elim (pending_invocation s id) [
    | none ↦ s
    | some i ↦ finish s id (notify_backup_complete i)
  ]

  -- `processResponse` on a message that is no event: an error or a response.
  unfoldable pub process_response :
      Environment C → InvocationService C A → ℕ → Outcome A → InvocationService C A
  unfolding pending_invocation notify notify_error deregister_invocation insert
  process_response env s id message = elim (pending_invocation s id) [
    | none ↦ s
    | some i ↦ elim message [
      | rejected err ↦ keep id (notify_error env s id i err)
      | Outcome.resolved m ↦ finish s id (notify i m env.now)
    ]
  ]

  -- One round of the loop of the clean resources task.
  unfoldable pub clean_resource : Environment C → InvocationService C A → ℕ → InvocationService C A
  unfolding pending_invocation notify_error detect_and_handle_backup_timeout deregister_invocation
      insert
  clean_resource env s id = elim (pending_invocation s id) [
    | none ↦ s
    | some i ↦ elim i.send_connection [
      | none ↦ s
      | some c ↦ elim (env.is_alive c) [
        | false ↦ keep id (notify_error env s id i target_disconnected)
        | true ↦
            if s.backup_ack_to_client_enabled
            then finish s id (
                detect_and_handle_backup_timeout s.fail_on_indeterminate_state
                  s.operation_backup_timeout_millis i env.now)
            else s
      ]
    ]
  ]

  -- The loop of `shutdown` over the pending invocations.
  unfoldable pub reject_pending :
      Environment C → InvocationService C A → List (ℕ × Unit {0}) → InvocationService C A
  unfolding pending_invocation notify_error insert
  reject_pending env s [] = s
  reject_pending env s ((id, _) ∷ ids) = elim (pending_invocation s id) [
    | none ↦ reject_pending env s ids
    | some i ↦ reject_pending env (keep id (notify_error env s id i client_not_active)) ids
  ]

  unfoldable pub shutdown : Environment C → InvocationService C A → InvocationService C A
  unfolding reject_pending
  shutdown env s = elim s.is_shutdown [
    | true ↦ s
    | false ↦ reject_pending env (record s { is_shutdown = true }) s.pending
  ]

  -- A write has ended: the invocation knows where it was sent.
  unfoldable pub write_done : InvocationService C A → ℕ → C → InvocationService C A
  unfolding lookup insert
  write_done s id connection = elim (lookup id s.invocations) [
    | none ↦ s
    | some i ↦ keep id (s, record i { send_connection = some connection })
  ]

  -- A write has failed. The first failure of a request that is routed smartly is followed by a
  -- random connection; `first` says whether it is the first.
  unfoldable pub write_failed :
      Environment C → InvocationService C A → ℕ → Bool → Error → InvocationService C A
  unfolding lookup insert notify_error invoke_on_random_connection
  write_failed env s id first err = elim (lookup id s.invocations) [
    | none ↦ s
    | some i ↦
        let bound : Bool = elim i.connection [ none ↦ false | some _ ↦ true ] in
        if bound || not s.smart_routing || not first
        then keep id (notify_error env s id i err)
        else (let again = invoke_on_random_connection env s id i in
            elim again.1 [ none ↦ again.0 | some e ↦ keep id (notify_error env again.0 id i e) ])
  ]

  -- A timer of `notifyError` runs out.
  unfoldable pub invoke_again : Environment C → InvocationService C A → ℕ → InvocationService C A
  unfolding lookup insert do_invoke
  invoke_again env s id = elim (lookup id s.invocations) [
    | none ↦ s
    | some i ↦ keep id (do_invoke max_fast_invocation_count env s id i)
  ]
