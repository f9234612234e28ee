-- ===== src/Tests/Connections.antt =====
-- Messages on sockets, and connections of a client.
use hazelcast_nodejs_client.Prelude.{
  ◌+◌, ◌*◌, ◌==◌, if◌then◌else◌, ℕ, zero, suc, ◌≡◌, refl, ap, true, false, List, [], ◌∷◌, none,
  some, map, length, arith, pos,
}
use hazelcast_nodejs_client.Buffers.{
  Buffer, overwrite, write_bytes, write_int32, write_uint16, fits32, word32, bytes16, bytes32,
}
use hazelcast_nodejs_client.Codec.{is_flag_set}
use hazelcast_nodejs_client.Connection.Message.{
  Message, get_length, get_total_length, is_final_frame, with_final, written_flags, write_to,
  message_to_buffer,
}
use hazelcast_nodejs_client.Connection.Reader.{Reader, new_reader, concat, on_chunks}
use hazelcast_nodejs_client.Connection.Written.{written}
use hazelcast_nodejs_client.Connection.Messages.{send_all, on_chunks-send_all}
use hazelcast_nodejs_client.JsMap.{lookup, insert}
use hazelcast_nodejs_client.Uuid.{Uuid, equals}
use hazelcast_nodejs_client.ConnectionManager.Registry.{
  on, is_empty, get_connection, set_connection, set_connection_state, activate,
}
use hazelcast_nodejs_client.ConnectionManager.Manager.{
  Config, Response, Manager, new_manager, emit, set_registry, set_connection_at, start,
  open_connection, identify, register, cluster_id_changes, join_cluster, admit_member,
  on_authenticated,
}
use hazelcast_nodejs_client.ConnectionManager.Alive.{IsOpenTo}
use hazelcast_nodejs_client.ConnectionManager.Steps.{
  begin, next, started, opened, authenticated, Reach-IsOpenTo,
}
use hazelcast_nodejs_client.ConnectionManager.Retrying.{
  Target, accepted, failed, Environment, WaitStrategy, reset_wait, sleep, add_address,
  add_addresses, try_one, try_connecting, after_members, try_addresses, joined, after_round,
  try_connecting_to_addresses, do_connect_to_candidate_cluster,
}
use hazelcast_nodejs_client.ConnectionManager.Retrying.Returning.{
  Returns, do_connect_to_candidate_cluster-Returns,
}

-- New memory that holds old bytes.
abbrev old_memory : ℕ → Buffer
old_memory zero = []
old_memory (suc n) = 170 ∷ old_memory n

length-old_memory : (n : ℕ) → length (old_memory n) ≡ n
length-old_memory zero = refl
length-old_memory (suc n) = ap suc (length-old_memory n)

-- A message of one frame and one of two.
abbrev sent : List Message
sent =
    (record { content = 1 ∷ 2 ∷ 3 ∷ []; flags = 49152 } ∷ [])
    ∷ (record { content = []; flags = 49152 } ∷ record { content = 7 ∷ []; flags = 0 } ∷ [])
    ∷ []

-- Their bytes, cut inside a header, with an empty chunk.
abbrev arrived : List Buffer
arrived =
    (9 ∷ [])
    ∷ []
    ∷ (0 ∷ 0 ∷ 0 ∷ 0 ∷ 224 ∷ 1 ∷ 2 ∷ 3 ∷ 6 ∷ 0 ∷ 0 ∷ 0 ∷ 0 ∷ 192 ∷ 7 ∷ [])
    ∷ (0 ∷ 0 ∷ 0 ∷ 0 ∷ 32 ∷ 7 ∷ [])
    ∷ []

on_chunks-send_all_example :
    (after : Reader) × (on_chunks arrived new_reader ≡ some (map written sent, after))
    × (after.client_message ≡ none)
    × (concat after.chunks ≡ [])
unfolding send_all message_to_buffer write_to get_total_length get_length written_flags with_final
    is_final_frame is_flag_set write_int32 write_uint16 write_bytes overwrite fits32 word32 bytes16
    bytes32
on_chunks-send_all_example =
    on_chunks-send_all old_memory length-old_memory sent arrived
      (
        (tt, ((omega arith, omega arith), tt)),
        (((refl, tt), ((omega arith, omega arith), ((omega arith, omega arith), tt))), tt),
      )
      refl

-- A client that starts, opens a connection, and is authenticated by a member.
abbrev config : Config
config = record { reconnect_mode = on; failover_config_provided = false }

abbrev member : Uuid
member = record { most_significant = pos 1; least_significant = pos 2 }

abbrev answer : Response
answer = record {
  address = "10.0.0.1:5701";
  member_uuid = member;
  cluster_id = record { most_significant = pos 3; least_significant = pos 4 };
  same_partition_count = true;
}

abbrev opened_one : Manager
opened_one = open_connection "10.0.0.1:5701" (start false new_manager)

Reach-IsOpenTo_example :
    IsOpenTo member ((on_authenticated config 0 answer opened_one).0.connections) 0
unfolding on_authenticated admit_member join_cluster cluster_id_changes register identify
    set_connection_at set_registry emit start open_connection is_empty get_connection set_connection
    set_connection_state activate lookup insert equals
Reach-IsOpenTo_example =
    Reach-IsOpenTo {c = config}
      (next (next (next begin (started false)) (opened "10.0.0.1:5701"))
        (authenticated 0 answer (some "10.0.0.1:5701", refl)))
      member 0 refl

-- A cluster of one member that accepts the connection at the third attempt.
abbrev only_member : Target
only_member = record { address = "10.0.0.1:5701"; member = some member }

abbrev third_time : Environment
third_time = record {
  members = λ n. only_member ∷ [];
  provided = λ n. [];
  connect = λ n t. if n == 2 then accepted else failed;
  is_running = λ n i. true;
  is_running_after = λ n. true;
  now = λ n. 1000 + n * 10;
}

abbrev patient : WaitStrategy
patient = record {
  initial_backoff_millis = 10;
  max_backoff_millis = 40;
  cluster_connect_timeout_millis = 100;
  attempt = 0;
  current_backoff_millis = 0;
  cluster_connect_attempt_begin = 0;
}

do_connect_to_candidate_cluster-Returns_example :
    Returns third_time 100 1000
      (do_connect_to_candidate_cluster third_time (λ b. b * 2) 1000 patient)
do_connect_to_candidate_cluster-Returns_example =
    do_connect_to_candidate_cluster-Returns third_time (λ b. b * 2) 1000 patient (λ n. omega arith)

third_time-joined :
    do_connect_to_candidate_cluster third_time (λ b. b * 2) 1000 patient
    ≡ some (joined, "10.0.0.1:5701" ∷ [])
unfolding do_connect_to_candidate_cluster try_connecting_to_addresses after_round try_addresses
    after_members try_connecting try_one add_address add_addresses sleep reset_wait
third_time-joined = refl
