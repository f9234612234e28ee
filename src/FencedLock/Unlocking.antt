-- ===== src/FencedLock/Unlocking.antt =====
-- The calls of `unlock` and their replies, and sessions that are lost.
use Prim.Native.String.{String}
use hazelcast_nodejs_client.Prelude.{
  ℕ, ◌+◌, ◌≡◌, ◌≢◌, sym, subst, ◌⊎◌, inl, inr, none, some, arith, Bool-cases, Option-cases, ℤ,
  eqb_ℤ, eqb_ℤ_iff,
}
use hazelcast_nodejs_client.JsMap.{ℕ_eq, string_eq, lookup, remove}
use hazelcast_nodejs_client.CpSession.{
  SessionManager, SessionState, no_session_id, get_session_id, invalidate_session,
}
use hazelcast_nodejs_client.FencedLock.{
  FencedLock, unlock, unlock_reply, unlocked, destroyed, done, session_is_expired,
}
use hazelcast_nodejs_client.FencedLock.Holders.{
  count, holds, one, holds-remove_none, holds-remove, remove-Once,
}
use hazelcast_nodejs_client.FencedLock.Balance.{World, Balanced, release-count, invalidate-lookup}

module _ (group : String) where
  -- A thread that does not hold the lock by the present session is dropped.
  pub unlocked-Balanced :
      (w : World) (thread : ℕ)
      → ((x : ℤ) (t : SessionState)
          → lookup thread w.lock.locked_session_ids ≡ some x
          → lookup group w.manager.sessions ≡ some t
          → one t.id x ≡ 0)
      → Balanced group w
      → Balanced group (record w { lock = unlocked w.lock thread })
  unlocked-Balanced w thread foreign b = record {
    once = remove-Once thread w.lock.locked_session_ids b.once;
    in_use = λ t f.
        let held = w.lock.locked_session_ids in
        let (n, real) = b.in_use t f in
        elim (Option-cases (lookup thread held)) [
          | inl e ↦ (ground (arith, n, holds-remove_none t.id thread held), real)
          | inr (x, e) ↦
              (ground (arith, n, holds-remove t.id x thread held b.once, foreign x t e f), real)
        ];
  }

  -- `unlock` drops a thread only if it does not hold the lock by the present session.
  unlock-cases :
      (m : SessionManager) (l : FencedLock) (thread : ℕ)
      → ((unlock group m l thread).0 ≡ l)
        ⊎ (((unlock group m l thread).0 ≡ unlocked l thread)
            × ((x : ℤ) (t : SessionState)
                → lookup thread l.locked_session_ids ≡ some x
                → lookup group m.sessions ≡ some t
                → t.id ≢ no_session_id
                → one t.id x ≡ 0))
  unfolding unlock get_session_id
  unlock-cases m l thread =
      let session_id = get_session_id m group in
      elim (Option-cases (lookup thread l.locked_session_ids)) [
        | inl e ↦ elim (Bool-cases (eqb_ℤ no_session_id session_id)) [
          | inl f ↦ inr (ground arith, λ x t g h real. absurd (ground arith))
          | inr f ↦ inl (ground arith)
        ]
        | inr (y, e) ↦ elim (Bool-cases (eqb_ℤ y session_id)) [
          | inr d ↦ inr (
            ground arith,
            λ x t g h real. ground (arith, eqb_ℤ_iff t.id x, eqb_ℤ_iff y session_id),
          )
          | inl d ↦ elim (Bool-cases (eqb_ℤ no_session_id session_id)) [
            | inl f ↦ inr (
              ground arith,
              λ x t g h real. absurd (ground (arith, eqb_ℤ_iff no_session_id session_id)),
            )
            | inr f ↦ inl (ground arith)
          ]
        ]
      ]

  pub unlock-Balanced :
      (w : World) (thread : ℕ)
      → Balanced group w
      → Balanced group (record w { lock = (unlock group w.manager w.lock thread).0 })
  unlock-Balanced w thread b = elim (unlock-cases w.manager w.lock thread) [
    | inl e ↦ subst (λ l. Balanced group (record w { lock = l })) (sym e) b
    | inr (e, foreign) ↦
        subst (λ l. Balanced group (record w { lock = l })) (sym e)
          (unlocked-Balanced w thread (λ x t f g. foreign x t f g (b.in_use t g).1) b)
  ]

  pub unlock_succeeds-Balanced :
      (w : World) (thread : ℕ) (id : ℤ)
      → lookup thread w.lock.locked_session_ids ≡ some id
      → Balanced group w
      → Balanced group (record w {
        manager = (unlock_reply group w.manager w.lock thread id done).0;
        lock = (unlock_reply group w.manager w.lock thread id done).1;
      })
  unfolding unlock_reply
  unlock_succeeds-Balanced w thread id e b =
      let held = w.lock.locked_session_ids in
      record {
        once = remove-Once thread held b.once;
        in_use = λ t f.
            let (s, g, same, counts) = release-count group w.manager id t f in
            let (n, real) = b.in_use s g in
            (
              counts (count t.id w.asking + holds t.id (remove thread held) + w.abandoned t.id)
                  (ground (arith, n, same, holds-remove s.id id thread held b.once e)),
              ground (arith, same, real),
            );
      }

  pub unlock_expires-Balanced :
      (w : World) (thread : ℕ) (id : ℤ)
      → (lookup thread w.lock.locked_session_ids ≡ some id)
        ⊎ (lookup thread w.lock.locked_session_ids ≡ none)
      → Balanced group w
      → Balanced group (record w {
        manager = (unlock_reply group w.manager w.lock thread id session_is_expired).0;
        lock = (unlock_reply group w.manager w.lock thread id session_is_expired).1;
      })
  unfolding unlock_reply
  unlock_expires-Balanced w thread id e b =
      let held = w.lock.locked_session_ids in
      record {
        once = remove-Once thread held b.once;
        in_use = λ t f.
            let (g, differs) = invalidate-lookup group w.manager id t f in
            let (n, real) = b.in_use t g in
            elim e [
              | inl x ↦
                  (ground (arith, n, differs, holds-remove t.id id thread held b.once x), real)
              | inr x ↦ (ground (arith, n, holds-remove_none t.id thread held x), real)
            ];
      }

  pub heartbeat_fails-Balanced :
      (w : World) (id : ℤ)
      → Balanced group w
      → Balanced group (record w { manager = invalidate_session w.manager group id })
  heartbeat_fails-Balanced w id b = record {
    once = b.once;
    in_use = λ t f. b.in_use t (invalidate-lookup group w.manager id t f).0;
  }

  -- The sessions of the locks that are held are not given back.
  pub destroyed-Balanced :
      (w : World)
      → Balanced group w
      → Balanced group (record w {
        lock = destroyed w.lock;
        abandoned = λ id. holds id w.lock.locked_session_ids + w.abandoned id;
      })
  unfolding destroyed
  destroyed-Balanced w b = record {
    once = tt;
    in_use = λ t f. let (n, real) = b.in_use t f in (ground (arith, n), real);
  }
