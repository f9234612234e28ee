-- ===== src/FencedLock/Steps.antt =====
-- The calls and replies of the lock, and the answers about its session, as steps.
use Prim.Native.String.{String}
use hazelcast_nodejs_client.Prelude.{
  ℕ, ◌+◌, ◌≡◌, ◌≢◌, ◌⊎◌, false, List, [], ◌∷◌, ◌++◌, none, some, ℤ,
}
use hazelcast_nodejs_client.JsMap.{ℕ_eq, string_eq, lookup}
use hazelcast_nodejs_client.CpSession.{
  unscheduled, SessionManager, SessionState, no_session_id, acquire_session, invalidate_session,
  receive_session, closed,
}
use hazelcast_nodejs_client.FencedLock.{
  FencedLock, Reply, lock_reply, try_lock_reply, unlock, unlock_reply, done, session_is_expired,
  is_not_owner, destroyed,
}
use hazelcast_nodejs_client.FencedLock.Holders.{count, holds}
use hazelcast_nodejs_client.FencedLock.Balance.{World}

-- The steps. A new session has an id that no call and no lock knows. A reply reaches a call that
-- waits; the member unlocks only for the thread and the session that hold the lock, and finds a
-- thread not to be the owner only if this client does not either.
pub data Step (group : String) : World → World → Type 0 where
  acquires :
      {w : World} (s : SessionState)
      → lookup group w.manager.sessions ≡ some s
      → Step group w
          (record w { manager = acquire_session w.manager group s 1; asking = s.id ∷ w.asking })
  arrives :
      {w : World} (id : ℤ) (ttl now : ℕ)
      → id ≢ no_session_id
      → count id w.asking ≡ 0
      → holds id w.lock.locked_session_ids ≡ 0
      → w.abandoned id ≡ 0
      → Step group w (record w { manager = receive_session w.manager group id ttl now })
  lock_replies :
      {m : SessionManager} {l : FencedLock} (thread : ℕ) (id : ℤ) (xs ys : List ℤ) (gone : ℤ → ℕ)
      (reply : Reply)
      → lookup thread l.locked_session_ids ≡ none
      → Step group
          (record { manager = m; lock = l; asking = xs ++ id ∷ ys; abandoned = gone })
          (record {
            manager = (lock_reply group m l thread id reply).0;
            lock = (lock_reply group m l thread id reply).1;
            asking = xs ++ ys;
            abandoned = gone;
          })
  try_lock_replies :
      {m : SessionManager} {l : FencedLock} (thread timeout elapsed : ℕ) (id : ℤ) (xs ys : List ℤ)
      (gone : ℤ → ℕ) (reply : Reply)
      → lookup thread l.locked_session_ids ≡ none
      → Step group
          (record { manager = m; lock = l; asking = xs ++ id ∷ ys; abandoned = gone })
          (record {
            manager = (try_lock_reply group m l thread id timeout elapsed reply).0;
            lock = (try_lock_reply group m l thread id timeout elapsed reply).1;
            asking = xs ++ ys;
            abandoned = gone;
          })
  unlocks :
      {w : World} (thread : ℕ)
      → Step group w (record w { lock = (unlock group w.manager w.lock thread).0 })
  unlock_succeeds :
      {w : World} (thread : ℕ) (id : ℤ)
      → lookup thread w.lock.locked_session_ids ≡ some id
      → Step group w (record w {
        manager = (unlock_reply group w.manager w.lock thread id done).0;
        lock = (unlock_reply group w.manager w.lock thread id done).1;
      })
  unlock_expires :
      {w : World} (thread : ℕ) (id : ℤ)
      → (lookup thread w.lock.locked_session_ids ≡ some id)
        ⊎ (lookup thread w.lock.locked_session_ids ≡ none)
      → Step group w (record w {
        manager = (unlock_reply group w.manager w.lock thread id session_is_expired).0;
        lock = (unlock_reply group w.manager w.lock thread id session_is_expired).1;
      })
  unlock_refused :
      {w : World} (thread : ℕ) (id : ℤ)
      → lookup thread w.lock.locked_session_ids ≡ none
      → Step group w (record w {
        manager = (unlock_reply group w.manager w.lock thread id is_not_owner).0;
        lock = (unlock_reply group w.manager w.lock thread id is_not_owner).1;
      })
  heartbeat_fails :
      {w : World} (id : ℤ)
      → Step group w (record w { manager = invalidate_session w.manager group id })
  destroys :
      {w : World}
      → Step group w (record w {
        lock = destroyed w.lock;
        abandoned = λ id. holds id w.lock.locked_session_ids + w.abandoned id;
      })
  closes : {w : World} → Step group w (record w { manager = closed w.manager })

pub data Reach (group : String) (v : World) : World → Type 0 where
  here : Reach group v v
  next : {w x : World} → Reach group v w → Step group w x → Reach group v x

abbrev pub start : World
start = record {
  manager = record {
    sessions = [];
    in_flight_create_session_requests = [];
    heartbeat_task = unscheduled;
    is_shutdown = false;
  };
  lock = record { locked_session_ids = []; thread_id_seq = 0 };
  asking = [];
  abandoned = λ id. 0;
}
