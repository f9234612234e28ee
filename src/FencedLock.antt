-- ===== src/FencedLock.antt =====
-- proxy/cpsubsystem/FencedLockProxy.ts: the lock of one group. Every call of `lock` and `tryLock`
-- has a thread id of its own, which the fence that it returns carries.
pub mod Holders
pub mod Balance
pub mod Steps
pub mod Locking
pub mod Unlocking
pub mod Accounting
use Prim.Native.String.{String}
use hazelcast_nodejs_client.Prelude.{
  ℕ, suc, ◌-◌, Bool, true, false, not, List, [], ◌∷◌, Option, none, some, ltb, if◌then◌else◌, ℤ,
  pos, ltb_ℤ, eqb_ℤ,
}
use hazelcast_nodejs_client.JsMap.{ℕ_eq, lookup, insert, remove}
use hazelcast_nodejs_client.CpSession.{
  SessionManager, no_session_id, get_session_id, release_session, invalidate_session,
}

pub record FencedLock : Type 0 where
  -- The session by which each thread id holds the lock.
  pub locked_session_ids : List (ℕ × ℤ)
  pub thread_id_seq : ℕ

unfoldable pub next_thread_id : FencedLock → FencedLock × ℕ
next_thread_id l = (record l { thread_id_seq = suc l.thread_id_seq }, l.thread_id_seq)

unfoldable pub is_valid_fence : ℤ → Bool
is_valid_fence fence = ltb_ℤ (pos 0) fence

-- The answer to a request to lock.
pub data Reply : Type 0 where
  fence : ℤ → Reply
  session_expired wait_key_cancelled fails : Reply

-- The outcome of a call. After `retries` it starts over, with what is left of its time.
pub data LockResult : Type 0 where
  granted : ℤ → ℕ → LockResult
  not_granted illegal_monitor_state assertion_error rethrows : LockResult
  retries : ℕ → LockResult

abbrev locked : FencedLock → ℕ → ℤ → FencedLock
locked l thread_id session_id = record l {
  locked_session_ids = insert thread_id session_id l.locked_session_ids;
}

-- `doLock` from the reply on.
unfoldable pub lock_reply :
    String → SessionManager → FencedLock → ℕ → ℤ → Reply → SessionManager × FencedLock × LockResult
unfolding insert is_valid_fence release_session invalidate_session
lock_reply group m l thread_id session_id reply =
    let released = release_session m group session_id 1 in
    elim reply [
      | fence f ↦ elim (is_valid_fence f) [
        | true ↦ (m, locked l thread_id session_id, granted f thread_id)
        | false ↦ (released, l, assertion_error)
      ]
      | session_expired ↦ (invalidate_session m group session_id, l, retries 0)
      | wait_key_cancelled ↦ (released, l, illegal_monitor_state)
      | fails ↦ (released, l, rethrows)
    ]

-- `doTryLock` from the reply on, with the time-out and the time that passed.
unfoldable pub try_lock_reply :
    String
    → SessionManager
    → FencedLock
    → ℕ
    → ℤ
    → ℕ
    → ℕ
    → Reply
    → SessionManager × FencedLock × LockResult
unfolding insert is_valid_fence release_session invalidate_session
try_lock_reply group m l thread_id session_id timeout elapsed reply =
    let released = release_session m group session_id 1 in
    elim reply [
      | fence f ↦ elim (is_valid_fence f) [
        | true ↦ (m, locked l thread_id session_id, granted f thread_id)
        | false ↦ (released, l, not_granted)
      ]
      | session_expired ↦ (
        invalidate_session m group session_id,
        l,
        if ltb timeout elapsed then not_granted else retries (timeout - elapsed),
      )
      | wait_key_cancelled ↦ (released, l, not_granted)
      | fails ↦ (released, l, rethrows)
    ]

abbrev unlocked : FencedLock → ℕ → FencedLock
unlocked l thread_id = record l { locked_session_ids = remove thread_id l.locked_session_ids }

-- What `unlock` does before its request: it fails, or asks under a session.
pub data Unlock : Type 0 where
  ownership_lost not_owner : Unlock
  asks : ℤ → Unlock

unfoldable pub unlock : String → SessionManager → FencedLock → ℕ → FencedLock × Unlock
unfolding lookup remove get_session_id
unlock group m l thread_id =
    let session_id = get_session_id m group in
    let lost : Bool = elim (lookup thread_id l.locked_session_ids) [
      | none ↦ false
      | some id ↦ not (eqb_ℤ id session_id)
    ] in
    if lost
    then (unlocked l thread_id, ownership_lost)
    else if eqb_ℤ no_session_id session_id
    then (unlocked l thread_id, not_owner)
    else (l, asks session_id)

-- The answer to a request to unlock.
pub data UnlockReply : Type 0 where
  done session_is_expired is_not_owner other : UnlockReply

unfoldable pub unlock_reply :
    String → SessionManager → FencedLock → ℕ → ℤ → UnlockReply → SessionManager × FencedLock
unfolding remove release_session invalidate_session
unlock_reply group m l thread_id session_id reply = elim reply [
  | done ↦ (release_session m group session_id 1, unlocked l thread_id)
  | session_is_expired ↦ (invalidate_session m group session_id, unlocked l thread_id)
  | is_not_owner ↦ (m, unlocked l thread_id)
  | other ↦ (m, l)
]

-- The end of `destroy`.
unfoldable pub destroyed : FencedLock → FencedLock
destroyed l = record l { locked_session_ids = [] }
