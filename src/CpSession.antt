-- ===== src/CpSession.antt =====
-- proxy/cpsubsystem/CPSessionManager.ts: the sessions that this client shares among its locks and
-- semaphores, by the string id of their group. The continuation of a promise that is settled runs at
-- once; a request that is sent and its answer are two steps.
use Prim.Native.String.{String}
use hazelcast_nodejs_client.Prelude.{
  ℕ, ◌+◌, Bool, true, not, ◌||◌, List, [], ◌∷◌, none, some, ltb, if◌then◌else◌, ℤ, pos, negsuc,
  ◌+ℤ◌, ◌-ℤ◌, ltb_ℤ, eqb_ℤ,
}
use hazelcast_nodejs_client.JsMap.{string_eq, lookup, insert, remove, has}

pub record SessionState : Type 0 where
  pub id : ℤ
  pub ttl_millis : ℕ
  pub creation_time : ℕ
  pub acquire_count : ℤ

unfoldable pub acquire : SessionState → ℕ → SessionState
acquire s count = record s { acquire_count = s.acquire_count +ℤ pos count }

unfoldable pub release : SessionState → ℕ → SessionState
release s count = record s { acquire_count = s.acquire_count -ℤ pos count }

unfoldable pub is_in_use : SessionState → Bool
is_in_use s = ltb_ℤ (pos 0) s.acquire_count

unfoldable pub is_expired : SessionState → ℕ → Bool
is_expired s timestamp = ltb (s.creation_time + s.ttl_millis) timestamp

unfoldable pub is_valid : SessionState → ℕ → Bool
unfolding is_in_use is_expired
is_valid s now = is_in_use s || not (is_expired s now)

abbrev pub no_session_id : ℤ
no_session_id = negsuc 0

-- The repeated task of the heartbeats. Once it is cancelled it is not scheduled again.
pub data Heartbeat : Type 0 where
  unscheduled runs cancelled : Heartbeat

pub record SessionManager : Type 0 where
  pub sessions : List (String × SessionState)
  pub in_flight_create_session_requests : List (String × Unit {0})
  pub heartbeat_task : Heartbeat
  pub is_shutdown : Bool

unfoldable pub get_session_id : SessionManager → String → ℤ
unfolding lookup
get_session_id m group = elim (lookup group m.sessions) [ none ↦ no_session_id | some s ↦ s.id ]

-- What `getOrCreateSession` finds: it fails, there is a valid session, another call's request is
-- under way, or a request is made.
pub data Found : Type 0 where
  fails waits requests : Found
  present : SessionState → Found

unfoldable pub get_or_create_session : SessionManager → String → ℕ → SessionManager × Found
unfolding lookup has insert is_valid
get_or_create_session m group now =
    let asked = record m {
      in_flight_create_session_requests = insert group tt m.in_flight_create_session_requests;
    } in
    let creates : SessionManager × Found =
      if has group m.in_flight_create_session_requests then (m, waits) else (asked, requests) in
    if m.is_shutdown then (m, fails) else elim (lookup group m.sessions) [
      | none ↦ creates
      | some s ↦ if is_valid s now then (m, present s) else creates
    ]

-- The answer to a request for a session, or its failure.
unfoldable pub receive_session : SessionManager → String → ℤ → ℕ → ℕ → SessionManager
unfolding insert remove
receive_session m group session_id ttl_millis now =
    let s : SessionState = record {
      id = session_id;
      ttl_millis = ttl_millis;
      creation_time = now;
      acquire_count = pos 0;
    } in
    record m {
      sessions = insert group s m.sessions;
      in_flight_create_session_requests = remove group m.in_flight_create_session_requests;
      heartbeat_task = (elim m.heartbeat_task [ unscheduled ↦ runs | h ↦ h ]);
    }

unfoldable pub receive_session_error : SessionManager → String → SessionManager
unfolding remove
receive_session_error m group = record m {
  in_flight_create_session_requests = remove group m.in_flight_create_session_requests;
}

-- The continuation of `acquireSession` on the session that the group has.
unfoldable pub acquire_session : SessionManager → String → SessionState → ℕ → SessionManager
unfolding insert acquire
acquire_session m group s permits = record m {
  sessions = insert group (acquire s permits) m.sessions;
}

unfoldable pub release_session : SessionManager → String → ℤ → ℕ → SessionManager
unfolding lookup insert release
release_session m group session_id permits = elim (lookup group m.sessions) [
  | none ↦ m
  | some s ↦
      if eqb_ℤ s.id session_id
      then record m { sessions = insert group (release s permits) m.sessions }
      else m
]

unfoldable pub invalidate_session : SessionManager → String → ℤ → SessionManager
unfolding lookup remove
invalidate_session m group session_id = elim (lookup group m.sessions) [
  | none ↦ m
  | some s ↦ if eqb_ℤ s.id session_id then record m { sessions = remove group m.sessions } else m
]

-- The sessions that one round of the heartbeat task sends a request for.
unfoldable pub heartbeats : List (String × SessionState) → List (String × ℤ)
unfolding is_in_use
heartbeats [] = []
heartbeats ((group, s) ∷ sessions) =
    let rest = heartbeats sessions in if is_in_use s then (group, s.id) ∷ rest else rest

-- `shutdown` up to the requests to close the sessions, and after them.
unfoldable pub shutdown : SessionManager → SessionManager
shutdown m = if m.is_shutdown then m else record m {
  is_shutdown = true;
  heartbeat_task = (elim m.heartbeat_task [ runs ↦ cancelled | h ↦ h ]);
}

unfoldable pub closed : SessionManager → SessionManager
closed m = record m { sessions = []; in_flight_create_session_requests = [] }
