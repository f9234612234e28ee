-- ===== src/Tests/Locks.antt =====
-- A lock that is acquired under a new session, and released.
use hazelcast_nodejs_client.Prelude.{◌≡◌, refl, [], ◌∷◌, some, pos, ◌+ℤ◌, ◌-ℤ◌}
use hazelcast_nodejs_client.JsMap.{ℕ_eq, string_eq, lookup, insert}
use hazelcast_nodejs_client.CpSession.{
  SessionState, receive_session, acquire_session, acquire, release_session, release,
}
use hazelcast_nodejs_client.FencedLock.{fence, lock_reply, unlock_reply, done, is_valid_fence}
use hazelcast_nodejs_client.FencedLock.Balance.{World, Balanced}
use hazelcast_nodejs_client.FencedLock.Steps.{
  here, next, start, acquires, arrives, lock_replies, unlock_succeeds,
}
use hazelcast_nodejs_client.FencedLock.Accounting.{Reach-Balanced}

abbrev session : SessionState
session = record { id = pos 7; ttl_millis = 1000; creation_time = 5; acquire_count = pos 0 }

abbrev arrived : World
arrived = record start { manager = receive_session start.manager "g" (pos 7) 1000 5 }

abbrev asked : World
asked = record arrived {
  manager = acquire_session arrived.manager "g" session 1;
  asking = pos 7 ∷ [];
}

abbrev locked : World
locked = record {
  manager = (lock_reply "g" asked.manager asked.lock 0 (pos 7) (fence (pos 3))).0;
  lock = (lock_reply "g" asked.manager asked.lock 0 (pos 7) (fence (pos 3))).1;
  asking = [];
  abandoned = λ id. 0;
}

abbrev released : World
released = record locked {
  manager = (unlock_reply "g" locked.manager locked.lock 0 (pos 7) done).0;
  lock = (unlock_reply "g" locked.manager locked.lock 0 (pos 7) done).1;
}

Reach-Balanced_example : Balanced "g" released
unfolding lookup receive_session lock_reply insert
Reach-Balanced_example = Reach-Balanced "g" (
    next
      (next
        (next (next here (arrives (pos 7) 1000 5 (λ e. absurd (cc)) refl refl refl))
          (acquires session refl))
        (lock_replies 0 (pos 7) [] [] (λ id. 0) (fence (pos 3)) refl))
      (unlock_succeeds 0 (pos 7) refl))

-- The session is in use while the lock is held, and then no longer.
counts :
    (lookup "g" locked.manager.sessions ≡ some (record session { acquire_count = pos 1 }))
    × (lookup "g" released.manager.sessions ≡ some session)
unfolding lookup receive_session lock_reply unlock_reply acquire_session acquire release_session
    release insert is_valid_fence ◌+ℤ◌ ◌-ℤ◌
counts = (refl, refl)
