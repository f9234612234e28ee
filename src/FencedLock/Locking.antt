-- ===== src/FencedLock/Locking.antt =====
-- Sessions that are acquired, and the replies to requests to lock.
use Prim.Native.String.{String}
use hazelcast_nodejs_client.Prelude.{
  ℕ, ◌≡◌, ◌≢◌, inl, inr, List, ◌∷◌, ◌++◌, none, some, arith, Bool-cases, ℤ, pos, eqb_ℤ_iff, ◌+ℤ◌,
}
use hazelcast_nodejs_client.JsMap.{ℕ_eq, string_eq, lookup, lookup-insert, eqb_refl}
use hazelcast_nodejs_client.CpSession.{
  SessionManager, SessionState, no_session_id, acquire, acquire_session, receive_session,
}
use hazelcast_nodejs_client.FencedLock.{
  FencedLock, Reply, fence, session_expired, wait_key_cancelled, fails, lock_reply, try_lock_reply,
  is_valid_fence,
}
use hazelcast_nodejs_client.FencedLock.Holders.{count, holds}
use hazelcast_nodejs_client.FencedLock.Balance.{
  World, Balanced, released-Balanced, invalidated-Balanced, granted-Balanced,
}

module _ (group : String) where
  pub acquires-Balanced :
      (w : World) (s : SessionState)
      → lookup group w.manager.sessions ≡ some s
      → Balanced group w
      → Balanced group
          (record w { manager = acquire_session w.manager group s 1; asking = s.id ∷ w.asking })
  unfolding acquire_session acquire ◌+ℤ◌
  acquires-Balanced w s e b = record {
    once = b.once;
    in_use = λ t f.
        let (n, real) = b.in_use s e in
        let here = lookup-insert group group (acquire s 1) w.manager.sessions in
        ground (arith, n, real, here, eqb_refl group, eqb_ℤ_iff s.id s.id);
  }

  pub arrives-Balanced :
      (w : World) (id : ℤ) (ttl now : ℕ)
      → id ≢ no_session_id
      → count id w.asking ≡ 0
      → holds id w.lock.locked_session_ids ≡ 0
      → w.abandoned id ≡ 0
      → Balanced group w
      → Balanced group (record w { manager = receive_session w.manager group id ttl now })
  unfolding receive_session
  arrives-Balanced w id ttl now real c h a b = record {
    once = b.once;
    in_use = λ t f.
        let s : SessionState = record {
          id = id;
          ttl_millis = ttl;
          creation_time = now;
          acquire_count = pos 0;
        } in
        let here = lookup-insert group group s w.manager.sessions in
        ground (arith, here, eqb_refl group);
  }

  pub lock_reply-Balanced :
      (m : SessionManager) (l : FencedLock) (thread : ℕ) (id : ℤ) (xs ys : List ℤ) (gone : ℤ → ℕ)
      (reply : Reply)
      → lookup thread l.locked_session_ids ≡ none
      → Balanced group (record { manager = m; lock = l; asking = xs ++ id ∷ ys; abandoned = gone })
      → Balanced group (record {
        manager = (lock_reply group m l thread id reply).0;
        lock = (lock_reply group m l thread id reply).1;
        asking = xs ++ ys;
        abandoned = gone;
      })
  unfolding lock_reply
  lock_reply-Balanced m l thread id xs ys gone (fence f) new b =
      elim (Bool-cases (is_valid_fence f)) [
        | inl e ↦ rw (e, lock_reply) (granted-Balanced group m l thread id xs ys gone new b)
        | inr e ↦ rw (e, lock_reply) (released-Balanced group m l id xs ys gone b)
      ]
  lock_reply-Balanced m l thread id xs ys gone session_expired new b =
      invalidated-Balanced group m l id xs ys gone b
  lock_reply-Balanced m l thread id xs ys gone wait_key_cancelled new b =
      released-Balanced group m l id xs ys gone b
  lock_reply-Balanced m l thread id xs ys gone fails new b =
      released-Balanced group m l id xs ys gone b

  pub try_lock_reply-Balanced :
      (m : SessionManager) (l : FencedLock) (thread timeout elapsed : ℕ) (id : ℤ) (xs ys : List ℤ)
      (gone : ℤ → ℕ) (reply : Reply)
      → lookup thread l.locked_session_ids ≡ none
      → Balanced group (record { manager = m; lock = l; asking = xs ++ id ∷ ys; abandoned = gone })
      → Balanced group (record {
        manager = (try_lock_reply group m l thread id timeout elapsed reply).0;
        lock = (try_lock_reply group m l thread id timeout elapsed reply).1;
        asking = xs ++ ys;
        abandoned = gone;
      })
  unfolding try_lock_reply
  try_lock_reply-Balanced m l thread timeout elapsed id xs ys gone (fence f) new b =
      elim (Bool-cases (is_valid_fence f)) [
        | inl e ↦ rw (e, try_lock_reply) (granted-Balanced group m l thread id xs ys gone new b)
        | inr e ↦ rw (e, try_lock_reply) (released-Balanced group m l id xs ys gone b)
      ]
  try_lock_reply-Balanced m l thread timeout elapsed id xs ys gone session_expired new b =
      invalidated-Balanced group m l id xs ys gone b
  try_lock_reply-Balanced m l thread timeout elapsed id xs ys gone wait_key_cancelled new b =
      released-Balanced group m l id xs ys gone b
  try_lock_reply-Balanced m l thread timeout elapsed id xs ys gone fails new b =
      released-Balanced group m l id xs ys gone b
