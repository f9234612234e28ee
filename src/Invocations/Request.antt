-- ===== src/Invocations/Request.antt =====
-- invocation/InvocationService.ts: `Invocation`, one request with the promise of its response.
use hazelcast_nodejs_client.Prelude.{
  ℕ, ◌+◌, suc, Bool, true, false, not, ◌&&◌, ◌||◌, Option, none, some, ltb, if◌then◌else◌, ℤ, pos,
  negsuc, ◌+ℤ◌, ltb_ℤ, eqb_ℤ,
}
use hazelcast_nodejs_client.Uuid.{Uuid}

-- The classes of errors that the code tells apart. `TargetNotMemberError` is a
-- `RetryableHazelcastError`; `retryable` stands for the others of those.
pub data Error : Type 0 where
  io target_disconnected target_not_member instance_not_active retryable : Error
  client_not_active operation_timeout indeterminate_state other : Error

-- A response, with the number of backups that will be acknowledged.
pub record Message (A : Type 0) : Type 0 where
  pub number_of_backup_acks : ℕ
  pub payload : A

pub data Outcome (A : Type 0) : Type 0 where
  resolved : Message A → Outcome A
  rejected : Error → Outcome A

pub record Invocation (C A : Type 0) : Type 0 where
  pub partition_id : Option ℕ
  pub uuid : Option Uuid
  pub connection : Option C
  pub send_connection : Option C
  pub is_retryable : Bool
  pub deadline : ℕ
  pub pending_response : Option (Message A)
  pub pending_response_received_millis : ℤ
  pub backups_acks_received : ℕ
  pub backups_acks_expected : ℤ
  pub invoke_count : ℕ
  pub has_handler : Bool
  pub urgent : Bool
  -- What the promise is settled with.
  pub deferred : Option (Outcome A)

module _ {C A : Type 0} where
  -- A new invocation; the time-out is the service's where the caller gives none.
  unfoldable pub create : Bool → ℕ → Option ℕ → ℕ → Invocation C A
  create is_retryable service_timeout timeout now = record {
    partition_id = none;
    uuid = none;
    connection = none;
    send_connection = none;
    is_retryable = is_retryable;
    deadline = now + (elim timeout [ none ↦ service_timeout | some t ↦ t ]);
    pending_response = none;
    pending_response_received_millis = negsuc 0;
    backups_acks_received = 0;
    backups_acks_expected = negsuc 0;
    invoke_count = 0;
    has_handler = false;
    urgent = false;
    deferred = none;
  }

  -- The first settlement of a promise counts.
  unfoldable pub settle : Invocation C A → Outcome A → Invocation C A
  settle i o = elim i.deferred [ none ↦ record i { deferred = some o } | some _ ↦ i ]

  unfoldable pub should_retry : Bool → Invocation C A → Error → Bool
  should_retry redo_operation i err =
      let bound : Bool = elim i.connection [ none ↦ false | some _ ↦ true ] in
      let directed : Bool = elim i.uuid [ none ↦ false | some _ ↦ true ] in
      elim err [
        | io ↦ not bound
        | target_disconnected ↦ not bound && (i.is_retryable || redo_operation)
        | target_not_member ↦ not directed
        | instance_not_active ↦ true
        | retryable ↦ true
        | _ ↦ false
      ]

  -- The methods below say beside the invocation whether it was deregistered.
  unfoldable pub complete : Invocation C A → Message A → Invocation C A × Bool
  unfolding settle
  complete i message = (settle i (resolved message), true)

  unfoldable pub complete_with_error : Invocation C A → Error → Invocation C A × Bool
  unfolding settle
  complete_with_error i err = (settle i (rejected err), true)

  unfoldable pub notify : Invocation C A → Message A → ℕ → Invocation C A × Bool
  unfolding complete
  notify i message now =
      if ltb i.backups_acks_received message.number_of_backup_acks
      then (
        record i {
          pending_response_received_millis = pos now;
          backups_acks_expected = pos message.number_of_backup_acks;
          pending_response = some message;
        },
        false,
      )
      else complete i message

  unfoldable pub notify_backup_complete : Invocation C A → Invocation C A × Bool
  unfolding complete
  notify_backup_complete i =
      let counted = record i { backups_acks_received = suc i.backups_acks_received } in
      elim i.pending_response [
        | none ↦ (counted, false)
        | some message ↦
            if not (eqb_ℤ i.backups_acks_expected (pos (suc i.backups_acks_received)))
            then (counted, false)
            else complete counted message
      ]

  unfoldable pub detect_and_handle_backup_timeout :
      Bool → ℕ → Invocation C A → ℕ → Invocation C A × Bool
  unfolding complete complete_with_error ◌+ℤ◌
  detect_and_handle_backup_timeout fail_on_indeterminate_state timeout_millis i now =
      let expiration = i.pending_response_received_millis +ℤ pos timeout_millis in
      elim i.pending_response [
        | none ↦ (i, false)
        | some message ↦
            if eqb_ℤ i.backups_acks_expected (pos i.backups_acks_received)
            then (i, false)
            else if not (ltb_ℤ (pos 0) expiration && ltb_ℤ expiration (pos now))
            then (i, false)
            else if fail_on_indeterminate_state
            then complete_with_error i indeterminate_state
            else complete i message
      ]
