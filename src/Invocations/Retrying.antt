-- ===== src/Invocations/Retrying.antt =====
-- invocation/InvocationService.ts: `doInvoke` and `notifyError`, which retry an invocation at once
-- up to five times, and then by a timer.
use hazelcast_nodejs_client.Prelude.{
  ℕ, zero, suc, true, false, not, [], ◌∷◌, ◌++◌, Option, none, some, ltb, if◌then◌else◌,
}
use hazelcast_nodejs_client.JsMap.{ℕ_eq}
use hazelcast_nodejs_client.Invocations.Request.{
  Error, client_not_active, operation_timeout, rejected, Invocation, settle, should_retry,
}
use hazelcast_nodejs_client.Invocations.Routing.{
  InvocationService, Environment, deregister_invocation, route,
}

abbrev pub max_fast_invocation_count : ℕ
max_fast_invocation_count = 5

module _ {C A : Type 0} where
  -- The error that `rejectIfNotRetryable` rejects with; `none` where the invocation is to be
  -- retried.
  unfoldable pub reject_if_not_retryable :
      Environment C → InvocationService C A → Invocation C A → Error → Option Error
  unfolding should_retry
  reject_if_not_retryable env s i err =
      if not env.is_running
      then some client_not_active
      else if not (should_retry s.redo_operation i err)
      then some err
      else if ltb i.deadline env.now
      then some operation_timeout
      else none

  -- A request that is not urgent waits for the cluster's permission.
  unfoldable pub admit :
      Environment C
      → InvocationService C A
      → ℕ
      → Invocation C A
      → InvocationService C A × Option Error
  unfolding route
  admit env s id i = elim env.not_allowed [
    | none ↦ route env s id i
    | some err ↦ if i.urgent then route env s id i else (s, some err)
  ]

  -- `doInvoke`, with fuel for the retries that follow each other at once.
  unfoldable pub do_invoke :
      ℕ
      → Environment C
      → InvocationService C A
      → ℕ
      → Invocation C A
      → InvocationService C A × Invocation C A
  unfolding admit reject_if_not_retryable deregister_invocation settle
  do_invoke zero env s id i = (s, i)
  do_invoke (suc fuel) env s id i =
      let counted = record i { invoke_count = suc i.invoke_count } in
      let sent = (admit env s id counted).0 in
      elim (admit env s id counted).1 [
        | none ↦ (sent, counted)
        | some err ↦ elim (reject_if_not_retryable env sent counted err) [
          | some rejection ↦ (deregister_invocation sent id, settle counted (rejected rejection))
          | none ↦ elim (ltb counted.invoke_count max_fast_invocation_count) [
            | true ↦ do_invoke fuel env sent id counted
            | false ↦ (record sent { timers = sent.timers ++ id ∷ [] }, counted)
          ]
        ]
      ]

  unfoldable pub notify_error :
      Environment C
      → InvocationService C A
      → ℕ
      → Invocation C A
      → Error
      → InvocationService C A × Invocation C A
  unfolding do_invoke
  notify_error env s id i err = elim (reject_if_not_retryable env s i err) [
    | some rejection ↦ (deregister_invocation s id, settle i (rejected rejection))
    | none ↦ elim (ltb i.invoke_count max_fast_invocation_count) [
      | true ↦ do_invoke max_fast_invocation_count env s id i
      | false ↦ (record s { timers = s.timers ++ id ∷ [] }, i)
    ]
  ]
