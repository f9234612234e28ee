-- ===== src/FencedLock/Accounting.antt =====
-- Any interleaving of calls and replies of the lock keeps the counts of its session balanced.
use Prim.Native.String.{String}
use hazelcast_nodejs_client.Prelude.{arith}
use hazelcast_nodejs_client.JsMap.{ℕ_eq, string_eq, lookup}
use hazelcast_nodejs_client.CpSession.{closed}
use hazelcast_nodejs_client.FencedLock.{unlock_reply}
use hazelcast_nodejs_client.FencedLock.Balance.{World, Balanced}
use hazelcast_nodejs_client.FencedLock.Steps.{
  Step, acquires, arrives, lock_replies, try_lock_replies, unlocks, unlock_succeeds, unlock_expires,
  unlock_refused, heartbeat_fails, destroys, closes, Reach, here, next, start,
}
use hazelcast_nodejs_client.FencedLock.Locking.{
  acquires-Balanced, arrives-Balanced, lock_reply-Balanced, try_lock_reply-Balanced,
}
use hazelcast_nodejs_client.FencedLock.Unlocking.{
  unlocked-Balanced, unlock-Balanced, unlock_succeeds-Balanced, unlock_expires-Balanced,
  heartbeat_fails-Balanced, destroyed-Balanced,
}

module _ (group : String) where
  Step-Balanced : {v w : World} → Step group v w → Balanced group v → Balanced group w
  unfolding closed lookup unlock_reply
  Step-Balanced {v} (acquires s e) b = acquires-Balanced group v s e b
  Step-Balanced {v} (arrives id ttl now real c h a) b =
      arrives-Balanced group v id ttl now real c h a b
  Step-Balanced (lock_replies {m} {l} thread id xs ys gone reply new) b =
      lock_reply-Balanced group m l thread id xs ys gone reply new b
  Step-Balanced (try_lock_replies {m} {l} thread timeout elapsed id xs ys gone reply new) b =
      try_lock_reply-Balanced group m l thread timeout elapsed id xs ys gone reply new b
  Step-Balanced {v} (unlocks thread) b = unlock-Balanced group v thread b
  Step-Balanced {v} (unlock_succeeds thread id e) b = unlock_succeeds-Balanced group v thread id e b
  Step-Balanced {v} (unlock_expires thread id e) b = unlock_expires-Balanced group v thread id e b
  Step-Balanced {v} (unlock_refused thread id e) b =
      unlocked-Balanced group v thread (λ x t f g. absurd (ground (arith, e, f))) b
  Step-Balanced {v} (heartbeat_fails id) b = heartbeat_fails-Balanced group v id b
  Step-Balanced {v} destroys b = destroyed-Balanced group v b
  Step-Balanced (closes) b = record { once = b.once; in_use = λ t f. absurd (ground arith) }

  -- Whatever calls of `lock`, `tryLock`, `unlock` and `destroy`, replies and failures of sessions
  -- follow each other, the session of the group is in use by exactly as many acquisitions as there
  -- are calls that wait under it, locks that are held under it, and locks that were held under it when
  -- the lock was destroyed, which does not give them back; and no thread holds the lock twice. New
  -- sessions have new ids, and the member unlocks only what this client holds.
  pub Reach-Balanced : {w : World} → Reach group start w → Balanced group w
  unfolding lookup
  Reach-Balanced here = record { once = tt; in_use = λ t f. absurd (ground arith) }
  Reach-Balanced (next r s) = Step-Balanced s (Reach-Balanced r)
