-- ===== src/Invocations/Shutdown.antt =====
-- `shutdown` of the invocation service leaves nothing pending.
use hazelcast_nodejs_client.Prelude.{
  ℕ, ◌≡◌, ◌≢◌, refl, inl, inr, true, false, not, ◌&&◌, List, [], ◌∷◌, none, some, arith, Bool-cases,
  Option-cases, ==_iff,
}
use hazelcast_nodejs_client.JsMap.{ℕ_eq, has, has-remove, lookup, insert, lookup-insert}
use hazelcast_nodejs_client.Invocations.Request.{client_not_active, rejected, Invocation, settle}
use hazelcast_nodejs_client.Invocations.Routing.{
  InvocationService, Environment, deregister_invocation,
}
use hazelcast_nodejs_client.Invocations.Retrying.{reject_if_not_retryable, notify_error}
use hazelcast_nodejs_client.Invocations.Service.{pending_invocation, reject_pending, shutdown}

module _ {C A : Type 0} where
  -- Every pending id has its invocation.
  abbrev pub Known : InvocationService C A → Type 0
  Known s = (k : ℕ) → has k s.pending ≡ true → lookup k s.invocations ≢ none

  rejected_one : InvocationService C A → ℕ → Invocation C A → InvocationService C A
  rejected_one s id i = record (deregister_invocation s id) {
    invocations = insert id (settle i (rejected client_not_active)) s.invocations;
  }

  rejected_one-Known :
      (s : InvocationService C A) (id : ℕ) (i : Invocation C A)
      → Known s
      → Known (rejected_one s id i)
  unfolding rejected_one deregister_invocation
  rejected_one-Known s id i known k h =
      let o = settle i (rejected client_not_active) in
      elim (Bool-cases (ℕ_eq.eqb id k)) [
        | inl e ↦ ground (arith, lookup-insert id k o s.invocations)
        | inr e ↦
            ground (arith, lookup-insert id k o s.invocations, has-remove k id s.pending, known k)
      ]

module _ {C A : Type 0} (env : Environment C) (stopped : env.is_running ≡ false) where
  notify_error-stopped :
      (s : InvocationService C A) (id : ℕ) (i : Invocation C A)
      → notify_error env s id i client_not_active
        ≡ (deregister_invocation s id, settle i (rejected client_not_active))
  unfolding notify_error reject_if_not_retryable
  notify_error-stopped s id i = ground (arith, stopped)

  reject_pending_skip :
      (s : InvocationService C A) (id : ℕ) (u : Unit {0}) (ids : List (ℕ × Unit {0}))
      → has id s.pending ≡ false
      → reject_pending env s ((id, u) ∷ ids) ≡ reject_pending env s ids
  unfolding reject_pending pending_invocation
  reject_pending_skip s id u ids e = rw (e, reject_pending, pending_invocation) refl

  reject_pending_take :
      (s : InvocationService C A) (id : ℕ) (u : Unit {0}) (ids : List (ℕ × Unit {0}))
      (i : Invocation C A)
      → has id s.pending ≡ true
      → lookup id s.invocations ≡ some i
      → reject_pending env s ((id, u) ∷ ids) ≡ reject_pending env (rejected_one s id i) ids
  unfolding reject_pending pending_invocation rejected_one deregister_invocation
  reject_pending_take s id u ids i e f =
      rw (e, f, notify_error-stopped s id i, reject_pending, pending_invocation) refl

  reject_pending-has :
      (ids : List (ℕ × Unit {0})) (s : InvocationService C A) (k : ℕ)
      → Known s
      → has k (reject_pending env s ids).pending ≡ (has k s.pending && not (has k ids))
  unfolding reject_pending has rejected_one deregister_invocation
  reject_pending-has [] s k known = ground arith
  reject_pending-has ((id, u) ∷ ids) s k known = elim (Bool-cases (has id s.pending)) [
    | inr e ↦
        rw (reject_pending_skip s id u ids e)
          (ground (arith, reject_pending-has ids s k known, ==_iff id k))
    | inl e ↦ elim (Option-cases (lookup id s.invocations)) [
      | inl f ↦ absurd (known id e f)
      | inr (i, f) ↦
          let rest =
            reject_pending-has ids (rejected_one s id i) k (rejected_one-Known s id i known) in
          rw (reject_pending_take s id u ids i e f)
            (ground (arith, rest, has-remove k id s.pending, ==_iff id k))
    ]
  ]

  -- The loop leaves what is not pending alone.
  reject_pending-lookup :
      (ids : List (ℕ × Unit {0})) (s : InvocationService C A) (k : ℕ)
      → Known s
      → has k s.pending ≡ false
      → lookup k (reject_pending env s ids).invocations ≡ lookup k s.invocations
  unfolding reject_pending rejected_one deregister_invocation
  reject_pending-lookup [] s k known h = refl
  reject_pending-lookup ((id, u) ∷ ids) s k known h = elim (Bool-cases (has id s.pending)) [
    | inr e ↦ rw (reject_pending_skip s id u ids e) (reject_pending-lookup ids s k known h)
    | inl e ↦ elim (Option-cases (lookup id s.invocations)) [
      | inl f ↦ absurd (known id e f)
      | inr (i, f) ↦
          let o = settle i (rejected client_not_active) in
          let rest =
            reject_pending-lookup ids (rejected_one s id i) k (rejected_one-Known s id i known) in
          rw (reject_pending_take s id u ids i e f) (
            ground (
              arith,
              rest,
              has-remove k id s.pending,
              lookup-insert id k o s.invocations,
              ==_iff id k,
            ))
    ]
  ]

  reject_pending-rejects :
      (ids : List (ℕ × Unit {0})) (s : InvocationService C A) (k : ℕ) (i : Invocation C A)
      → Known s
      → has k ids ≡ true
      → has k s.pending ≡ true
      → lookup k s.invocations ≡ some i
      → lookup k (reject_pending env s ids).invocations
        ≡ some (settle i (rejected client_not_active))
  unfolding reject_pending has rejected_one deregister_invocation
  reject_pending-rejects [] s k i known a h l = absurd (cc)
  reject_pending-rejects ((id, u) ∷ ids) s k i known a h l = elim (Bool-cases (has id s.pending)) [
    | inr e ↦
        rw (reject_pending_skip s id u ids e)
          (ground (arith, reject_pending-rejects ids s k i known, ==_iff id k))
    | inl e ↦ elim (Option-cases (lookup id s.invocations)) [
      | inl f ↦ absurd (known id e f)
      | inr (j, f) ↦
          let t = rejected_one s id j in
          let o = settle j (rejected client_not_active) in
          let known' = rejected_one-Known s id j known in
          rw (reject_pending_take s id u ids j e f) (
            ground (
              arith,
              reject_pending-rejects ids t k i known',
              reject_pending-lookup ids t k known',
              has-remove k id s.pending,
              lookup-insert id k o s.invocations,
              ==_iff id k,
            ))
    ]
  ]

  -- After `shutdown` of a client that no longer runs nothing is pending, and an invocation that was
  -- pending and unsettled is rejected with `ClientNotActiveError`, where every pending id had its
  -- invocation.
  pub shutdown-rejects :
      (s : InvocationService C A) (j k : ℕ) (i : Invocation C A)
      → s.is_shutdown ≡ false
      → Known s
      → has k s.pending ≡ true
      → lookup k s.invocations ≡ some i
      → i.deferred ≡ none
      → (has j (shutdown env s).pending ≡ false)
        × (lookup k (shutdown env s).invocations
            ≡ some (record i { deferred = some (rejected client_not_active) }))
  unfolding shutdown settle
  shutdown-rejects s j k i e known h l d =
      let s' : InvocationService C A = record s { is_shutdown = true } in
      (
        ground (arith, reject_pending-has s.pending s' j known),
        ground (arith, reject_pending-rejects s.pending s' k i known h h l),
      )
