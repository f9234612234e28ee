-- ===== src/Tests/Requests.antt =====
-- The invocation service with one connection, one pending request, and a response of one backup.
use hazelcast_nodejs_client.Prelude.{ℕ, ◌≡◌, refl, [], ◌∷◌, some, none, Bool, true, false, arith}
use hazelcast_nodejs_client.JsMap.{ℕ_eq, has, lookup}
use hazelcast_nodejs_client.Invocations.Request
use hazelcast_nodejs_client.Invocations.Request.{
  Message, Invocation, io, client_not_active, resolved, rejected, notify,
}
use hazelcast_nodejs_client.Invocations.Routing.{InvocationService, Environment}
use hazelcast_nodejs_client.Invocations.Retrying.{do_invoke, notify_error}
use hazelcast_nodejs_client.Invocations.Service.{shutdown}
use hazelcast_nodejs_client.Invocations.Acknowledgements.{acknowledged, acknowledged-notify}
use hazelcast_nodejs_client.Invocations.Retries.{Kept, notify_error-Kept, do_invoke-enough}
use hazelcast_nodejs_client.Invocations.Shutdown.{shutdown-rejects}

abbrev request : Invocation ℕ ℕ
request = Request.create true 100 none 5

abbrev response : Message ℕ
response = record { number_of_backup_acks = 1; payload = 42 }

acknowledged-notify_example :
    ((acknowledged 0 request).deferred ≡ none)
    × ((acknowledged 1 (notify (acknowledged 0 request) response 9).0).deferred
        ≡ some (resolved response))
unfolding Request.create
acknowledged-notify_example = acknowledged-notify 0 1 9 request response refl refl refl

abbrev service : InvocationService ℕ ℕ
service = record {
  smart_routing = true;
  redo_operation = false;
  fail_on_indeterminate_state = false;
  backup_ack_to_client_enabled = true;
  operation_backup_timeout_millis = 50;
  invocation_timeout_millis = 100;
  invocations = (1, request) ∷ [];
  pending = (1, tt) ∷ [];
  event_handlers = [];
  correlation_counter = 2;
  is_shutdown = false;
  written = (1, 8) ∷ [];
  timers = [];
}

-- A cluster to which the client has no connection.
abbrev disconnected : Bool → Environment ℕ
disconnected running = record {
  now = 20;
  is_running = running;
  not_allowed = some io;
  random_connection = none;
  connection_of = λ u. none;
  owner_of = λ p. none;
  is_alive = λ c. false;
}

notify_error-Kept_example : Kept (notify_error (disconnected true) service 1 request io) 1
notify_error-Kept_example = notify_error-Kept (disconnected true) service 1 request io

do_invoke-enough_example :
    do_invoke 8 (disconnected true) service 1 request
    ≡ do_invoke 5 (disconnected true) service 1 request
do_invoke-enough_example = do_invoke-enough (disconnected true) 3 service 1 request

shutdown-rejects_example :
    (has 1 (shutdown (disconnected false) service).pending ≡ false)
    × (lookup 1 (shutdown (disconnected false) service).invocations
        ≡ some (record request { deferred = some (rejected client_not_active) }))
unfolding has lookup Request.create
shutdown-rejects_example =
    shutdown-rejects (disconnected false) refl service 1 1 request refl
      (λ k h n. absurd (ground arith)) refl refl refl
