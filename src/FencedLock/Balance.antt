-- ===== src/FencedLock/Balance.antt =====
-- A session of the group is in use exactly by the calls that wait for a reply and by the locks that
-- are held, so its heartbeats go on as long as any of them does.
use Prim.Native.String.{String}
use hazelcast_nodejs_client.Prelude.{
  ℕ, ◌+◌, ◌≡◌, ◌≢◌, inl, inr, List, ◌∷◌, ◌++◌, none, some, arith, Bool-cases, Option-cases, ℤ, pos,
  eqb_ℤ, ◌-ℤ◌,
}
use hazelcast_nodejs_client.JsMap.{
  ℕ_eq, string_eq, lookup, insert, lookup-insert, lookup-remove, eqb_refl,
}
use hazelcast_nodejs_client.CpSession.{
  SessionManager, SessionState, no_session_id, release, release_session, invalidate_session,
}
use hazelcast_nodejs_client.FencedLock.{FencedLock}
use hazelcast_nodejs_client.FencedLock.Holders.{
  count, holds, one, Once, count-append, holds-insert, insert-Once,
}

-- The calls that wait for a reply, by the sessions that they acquired, and how many locks of each
-- session were held when the lock was destroyed.
pub record World : Type 0 where
  pub manager : SessionManager
  pub lock : FencedLock
  pub asking : List ℤ
  pub abandoned : ℤ → ℕ

module _ (group : String) where
  pub record Balanced (w : World) : Type 0 where
    pub once : Once w.lock.locked_session_ids
    pub in_use :
        (s : SessionState)
        → lookup group w.manager.sessions ≡ some s
        → (s.acquire_count
            ≡ pos (count s.id w.asking + holds s.id w.lock.locked_session_ids + w.abandoned s.id))
          × (s.id ≢ no_session_id)

  pub release-count :
      (m : SessionManager) (session_id : ℤ) (t : SessionState)
      → lookup group (release_session m group session_id 1).sessions ≡ some t
      → (s : SessionState) × (lookup group m.sessions ≡ some s)
        × (t.id ≡ s.id)
        × ((n : ℕ) → s.acquire_count ≡ pos (n + one s.id session_id) → t.acquire_count ≡ pos n)
  unfolding release_session release ◌-ℤ◌
  release-count m session_id t e = elim (Option-cases (lookup group m.sessions)) [
    | inl f ↦ absurd (ground arith)
    | inr (s, f) ↦
        let here = lookup-insert group group (release s 1) m.sessions in
        let same = eqb_refl group in
        elim (Bool-cases (eqb_ℤ s.id session_id)) [
          | inl g ↦ (s, f, ground (arith, here, same), λ n h. ground (arith, here, same))
          | inr g ↦ (s, f, ground arith, λ n h. ground arith)
        ]
  ]

  pub invalidate-lookup :
      (m : SessionManager) (session_id : ℤ) (t : SessionState)
      → lookup group (invalidate_session m group session_id).sessions ≡ some t
      → (lookup group m.sessions ≡ some t) × (one t.id session_id ≡ 0)
  unfolding invalidate_session
  invalidate-lookup m session_id t e = elim (Option-cases (lookup group m.sessions)) [
    | inl f ↦ absurd (ground arith)
    | inr (s, f) ↦ ground (arith, lookup-remove group group m.sessions, eqb_refl group)
  ]

  -- A call that ends without the lock gives its session back.
  pub released-Balanced :
      (m : SessionManager) (l : FencedLock) (session_id : ℤ) (xs ys : List ℤ) (gone : ℤ → ℕ)
      → Balanced
          (record { manager = m; lock = l; asking = xs ++ session_id ∷ ys; abandoned = gone })
      → Balanced (record {
        manager = release_session m group session_id 1;
        lock = l;
        asking = xs ++ ys;
        abandoned = gone;
      })
  released-Balanced m l session_id xs ys gone b = record {
    once = b.once;
    in_use = λ t e.
        let (s, f, same, counts) = release-count m session_id t e in
        let (n, real) = b.in_use s f in
        (
          counts (count t.id (xs ++ ys) + holds t.id l.locked_session_ids + gone t.id)
              (ground (arith, n, same, count-append s.id session_id xs ys)),
          ground (arith, same, real),
        );
  }

  pub invalidated-Balanced :
      (m : SessionManager) (l : FencedLock) (session_id : ℤ) (xs ys : List ℤ) (gone : ℤ → ℕ)
      → Balanced
          (record { manager = m; lock = l; asking = xs ++ session_id ∷ ys; abandoned = gone })
      → Balanced (record {
        manager = invalidate_session m group session_id;
        lock = l;
        asking = xs ++ ys;
        abandoned = gone;
      })
  invalidated-Balanced m l session_id xs ys gone b = record {
    once = b.once;
    in_use = λ t e.
        let (f, differs) = invalidate-lookup m session_id t e in
        let (n, real) = b.in_use t f in
        (ground (arith, n, differs, count-append t.id session_id xs ys), real);
  }

  pub granted-Balanced :
      (m : SessionManager) (l : FencedLock) (thread_id : ℕ) (session_id : ℤ) (xs ys : List ℤ)
      (gone : ℤ → ℕ)
      → lookup thread_id l.locked_session_ids ≡ none
      → Balanced
          (record { manager = m; lock = l; asking = xs ++ session_id ∷ ys; abandoned = gone })
      → Balanced (record {
        manager = m;
        lock = record l { locked_session_ids = insert thread_id session_id l.locked_session_ids };
        asking = xs ++ ys;
        abandoned = gone;
      })
  granted-Balanced m l thread_id session_id xs ys gone new b = record {
    once = insert-Once thread_id session_id l.locked_session_ids b.once;
    in_use = λ t e.
        let (n, real) = b.in_use t e in
        (
          ground (
            arith,
            n,
            count-append t.id session_id xs ys,
            holds-insert t.id session_id thread_id l.locked_session_ids new,
          ),
          real,
        );
  }
