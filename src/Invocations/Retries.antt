-- ===== src/Invocations/Retries.antt =====
-- The retries of an invocation: they stop, and lose no invocation.
use hazelcast_nodejs_client.Prelude.{
  ℕ, zero, suc, ◌+◌, ◌≤◌, ◌<◌, ◌≡◌, ◌≢◌, refl, subst, ◌∙◌, ◌⊎◌, inl, inr, true, List, [], ◌∷◌, ◌++◌,
  none, arith, ltb, Bool-cases, Option-cases,
}
use hazelcast_nodejs_client.JsMap.{ℕ_eq, has, has-insert}
use hazelcast_nodejs_client.Uuid.{Uuid}
use hazelcast_nodejs_client.Invocations.Request.{Error, Outcome, rejected, Invocation, settle}
use hazelcast_nodejs_client.Invocations.Routing.{
  InvocationService, Environment, register_invocation, send, invoke_on_random_connection,
  invoke_on_uuid, invoke_on_partition_owner, invoke_directed, route,
}
use hazelcast_nodejs_client.Invocations.Retrying.{
  admit, reject_if_not_retryable, max_fast_invocation_count, do_invoke, notify_error,
}

module _ {C A : Type 0} where
  -- The request has been written, and its invocation waits for the response.
  abbrev pub Sent : InvocationService C A → ℕ → Type 0
  Sent s id =
      (has id s.pending ≡ true) × ((ws : List (ℕ × C)) × (c : C) × (s.written ≡ ws ++ (id, c) ∷ []))

  -- An invocation that is not lost: its request is written, its promise is settled, or a timer will
  -- invoke it again.
  abbrev pub Kept : InvocationService C A × Invocation C A → ℕ → Type 0
  Kept (s, i) id = Sent s id ⊎ (i.deferred ≢ none) ⊎ ((ts : List ℕ) × (s.timers ≡ ts ++ id ∷ []))

module _ {C A : Type 0} (env : Environment C) where
  -- Fuel of which there is enough for the retries at once makes no difference.
  do_invoke-fuel :
      (fuel : ℕ) (s : InvocationService C A) (id : ℕ) (i : Invocation C A)
      → 0 < fuel
      → 5 ≤ fuel + i.invoke_count
      → do_invoke (suc fuel) env s id i ≡ do_invoke fuel env s id i
  unfolding do_invoke
  do_invoke-fuel zero s id i h k = absurd (omega (arith, h))
  do_invoke-fuel (suc fuel) s id i h k =
      let counted : Invocation C A = record i { invoke_count = suc i.invoke_count } in
      let sent = (admit env s id counted).0 in
      elim (Option-cases (admit env s id counted).1) [
        | inl e ↦ rw (e, do_invoke) refl
        | inr (err, e) ↦ elim (Option-cases (reject_if_not_retryable env sent counted err)) [
          | inr (r, f) ↦ rw (e, f, do_invoke) refl
          | inl f ↦ elim (Bool-cases (ltb counted.invoke_count max_fast_invocation_count)) [
            | inr g ↦ rw (e, f, g, do_invoke) refl
            | inl g ↦
                rw (e, f, g, do_invoke)
                  (do_invoke-fuel fuel sent id counted (ground arith) (omega (arith, k)))
          ]
        ]
      ]

  send-Sent :
      (s : InvocationService C A) (id : ℕ) (i : Invocation C A) (c : C)
      → (send s id i c).1 ≡ none
      → Sent (send s id i c).0 id
  unfolding send register_invocation
  send-Sent s id i c h = elim (Bool-cases s.is_shutdown) [
    | inl e ↦ absurd (ground arith)
    | inr e ↦ rw (e, send) (has-insert id tt s.pending, (s.written, c, refl))
  ]

  random-Sent :
      (s : InvocationService C A) (id : ℕ) (i : Invocation C A)
      → (invoke_on_random_connection env s id i).1 ≡ none
      → Sent (invoke_on_random_connection env s id i).0 id
  unfolding invoke_on_random_connection
  random-Sent s id i h = elim (Option-cases env.random_connection) [
    | inl e ↦ absurd (ground arith)
    | inr (c, e) ↦ rw (e, invoke_on_random_connection) (send-Sent s id i c (ground arith))
  ]

  uuid-Sent :
      (s : InvocationService C A) (id : ℕ) (i : Invocation C A) (target : Uuid)
      → (invoke_on_uuid env s id i target).1 ≡ none
      → Sent (invoke_on_uuid env s id i target).0 id
  unfolding invoke_on_uuid
  uuid-Sent s id i target h = elim (Option-cases (env.connection_of target)) [
    | inl e ↦ absurd (ground arith)
    | inr (c, e) ↦ rw (e, invoke_on_uuid) (send-Sent s id i c (ground arith))
  ]

  directed-Sent :
      (s : InvocationService C A) (id : ℕ) (i : Invocation C A)
      → (invoke_directed env s id i).1 ≡ none
      → Sent (invoke_directed env s id i).0 id
  unfolding invoke_directed invoke_on_partition_owner
  directed-Sent s id i h = elim (Option-cases i.partition_id) [
    | inr (p, e) ↦ elim (Option-cases (env.owner_of p)) [
      | inl f ↦ absurd (ground arith)
      | inr (owner, f) ↦
          rw (e, f, invoke_directed, invoke_on_partition_owner)
            (uuid-Sent s id i owner (ground arith))
    ]
    | inl e ↦ elim (Option-cases i.uuid) [
      | inl f ↦ rw (e, f, invoke_directed) (random-Sent s id i (ground arith))
      | inr (u, f) ↦ rw (e, f, invoke_directed) (uuid-Sent s id i u (ground arith))
    ]
  ]

  route-Sent :
      (s : InvocationService C A) (id : ℕ) (i : Invocation C A)
      → (route env s id i).1 ≡ none
      → Sent (route env s id i).0 id
  unfolding route
  route-Sent s id i h = elim (Option-cases i.connection) [
    | inr (c, e) ↦ rw (e, route) (send-Sent s id i c (ground arith))
    | inl e ↦ elim (Bool-cases s.smart_routing) [
      | inr f ↦ rw (e, f, route) (random-Sent s id i (ground arith))
      | inl f ↦ elim (Option-cases (invoke_directed env s id i).1) [
        | inl g ↦ rw (e, f, g, route) (directed-Sent s id i g)
        | inr (err, g) ↦
            rw (e, f, g, route) (random-Sent (invoke_directed env s id i).0 id i (ground arith))
      ]
    ]
  ]

  admit-Sent :
      (s : InvocationService C A) (id : ℕ) (i : Invocation C A)
      → (admit env s id i).1 ≡ none
      → Sent (admit env s id i).0 id
  unfolding admit
  admit-Sent s id i h = elim (Option-cases env.not_allowed) [
    | inl e ↦ rw (e, admit) (route-Sent s id i (ground arith))
    | inr (err, e) ↦ elim (Bool-cases i.urgent) [
      | inl f ↦ rw (e, f, admit) (route-Sent s id i (ground arith))
      | inr f ↦ absurd (ground arith)
    ]
  ]

  settle-settled : (i : Invocation C A) (o : Outcome A) → (settle i o).deferred ≢ none
  unfolding settle
  settle-settled i o = elim (Option-cases i.deferred) [
    | inl e ↦ rw (e, settle) (λ q. absurd (cc))
    | inr (d, e) ↦ rw (e, settle) (λ q. absurd (cc))
  ]

  do_invoke-Kept :
      (fuel : ℕ) (s : InvocationService C A) (id : ℕ) (i : Invocation C A)
      → 0 < fuel
      → 5 ≤ fuel + i.invoke_count
      → Kept (do_invoke fuel env s id i) id
  unfolding do_invoke
  do_invoke-Kept zero s id i h k = absurd (omega (arith, h))
  do_invoke-Kept (suc fuel) s id i h k =
      let counted : Invocation C A = record i { invoke_count = suc i.invoke_count } in
      let sent = (admit env s id counted).0 in
      elim (Option-cases (admit env s id counted).1) [
        | inl e ↦ rw (e, do_invoke) (inl (admit-Sent s id counted e))
        | inr (err, e) ↦ elim (Option-cases (reject_if_not_retryable env sent counted err)) [
          | inr (r, f) ↦ rw (e, f, do_invoke) (inr (inl (settle-settled counted (rejected r))))
          | inl f ↦ elim (Bool-cases (ltb counted.invoke_count max_fast_invocation_count)) [
            | inr g ↦ rw (e, f, g, do_invoke) (inr (inr (sent.timers, refl)))
            | inl g ↦
                rw (e, f, g, do_invoke)
                  (do_invoke-Kept fuel sent id counted (ground arith) (omega (arith, k)))
          ]
        ]
      ]

  -- Whatever the other services answer, an error of an invocation loses nothing: its promise is
  -- settled, its request is written again and its invocation pending, or a timer will retry it.
  pub notify_error-Kept :
      (s : InvocationService C A) (id : ℕ) (i : Invocation C A) (err : Error)
      → Kept (notify_error env s id i err) id
  unfolding notify_error
  notify_error-Kept s id i err = elim (Option-cases (reject_if_not_retryable env s i err)) [
    | inr (r, f) ↦ rw (f, notify_error) (inr (inl (settle-settled i (rejected r))))
    | inl f ↦ elim (Bool-cases (ltb i.invoke_count max_fast_invocation_count)) [
      | inr g ↦ rw (f, g, notify_error) (inr (inr (s.timers, refl)))
      | inl g ↦ rw (f, g, notify_error) (do_invoke-Kept 5 s id i (omega arith) (omega arith))
    ]
  ]

  -- The retries of an invocation that follow each other at once stop after five: with more fuel the
  -- result is the same.
  pub do_invoke-enough :
      (more : ℕ) (s : InvocationService C A) (id : ℕ) (i : Invocation C A)
      → do_invoke (5 + more) env s id i ≡ do_invoke 5 env s id i
  do_invoke-enough zero s id i = refl
  do_invoke-enough (suc more) s id i =
      subst (λ n. do_invoke n env s id i ≡ do_invoke 5 env s id i) (omega arith)
        (do_invoke-fuel (5 + more) s id i (omega arith) (omega arith)
          ∙ do_invoke-enough more s id i)
