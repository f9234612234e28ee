-- ===== src/ConnectionManager/Joining.antt =====
-- network/ConnectionManager.ts: an authenticated connection is registered for its member.
use hazelcast_nodejs_client.Prelude.{
  ℕ, ◌≡◌, refl, sym, subst, ◌∙◌, inl, inr, Bool, true, false, not, Bool-cases, Option-cases, List,
  Option, none, some, if◌then◌else◌, get_elem?, get_elem?-set-some,
}
use hazelcast_nodejs_client.JsMap.{insert, lookup-insert}
use hazelcast_nodejs_client.Uuid.{Uuid, uuid_eq, equals, equals?, equals_iff}
use hazelcast_nodejs_client.ConnectionManager.Registry.{
  is_empty, get_connection, set_connection, set_connection_state,
}
use hazelcast_nodejs_client.ConnectionManager.Manager.{
  Address, Connection, Event, Config, Response, Outcome, Manager, emit, set_registry,
  set_connection_at, close, initialize_client_on_cluster,
  check_connection_state_on_cluster_id_change, register, cluster_id_changes, follow_cluster,
  join_cluster, identify, admit_member, on_authenticated,
}
use hazelcast_nodejs_client.ConnectionManager.Alive.{
  Alive, IsAlive, IsOpenTo, SameConnections, SameConnections-IsAlive, SameConnections-trans,
  SameConnections-refl, if-SameConnections, emit-SameConnections, Alive-set, registered_member,
}
use hazelcast_nodejs_client.ConnectionManager.Closing.{close-IsAlive}

pub Alive-insert :
    {active : List (Uuid × ℕ)} {connections : List Connection} (uuid : Uuid) (id : ℕ)
    → IsOpenTo uuid connections id
    → Alive active connections
    → Alive (insert uuid id active) connections
Alive-insert {active} {connections} uuid id o alive = record {
  all_open = λ other j e. elim (Bool-cases (equals uuid other)) [
    | inl same ↦
        let equal : uuid ≡ other = (equals_iff uuid other).0 same in
        let self : id ≡ j = cc (e, lookup-insert uuid other id active, same) in
        subst (λ u. IsOpenTo u connections j) equal
          (subst (λ k. IsOpenTo uuid connections k) self o)
    | inr different ↦
        alive.all_open other j (sym (lookup-insert uuid other id active ∙ rw (different)) ∙ e)
  ];
}

pub initialize-SameConnections :
    (target : Uuid) (m : Manager) → SameConnections m (initialize_client_on_cluster target m)
unfolding initialize_client_on_cluster
initialize-SameConnections target m =
    if-SameConnections (equals? target m.cluster_id)
      (emit-SameConnections (Event.send_state target) m) (SameConnections-refl m)

register-SameConnections :
    (id : ℕ) (response : Response) (changed : Bool) (m : Manager)
    → SameConnections
        (set_registry (set_connection response.member_uuid id) m)
        (register id response changed m)
unfolding register set_registry set_connection_state
register-SameConnections id response changed m =
    SameConnections-trans
      (if-SameConnections (is_empty m.registry)
        (if-SameConnections changed
          (SameConnections-trans (record { same_active = refl; same_connections = refl })
            (initialize-SameConnections response.cluster_id _))
          (SameConnections-trans (record { same_active = refl; same_connections = refl })
            (emit-SameConnections Event.connected _)))
        (SameConnections-refl _))
      (emit-SameConnections (Event.connection_added id) _)

module _ (c : Config) (id : ℕ) (response : Response) (m : Manager) (alive : IsAlive m)
    (o : IsOpenTo response.member_uuid m.connections id) where
  register-IsAlive :
      (changed : Bool) (n : Manager)
      → SameConnections m n
      → IsAlive (register id response changed n)
  unfolding set_registry set_connection
  register-IsAlive changed n same =
      SameConnections-IsAlive (register-SameConnections id response changed n) (
        Alive-insert response.member_uuid id
          (subst (λ cs. IsOpenTo response.member_uuid cs id) (sym same.same_connections) o)
          (SameConnections-IsAlive same alive))

  -- Whether or not the connection is refused.
  data Checked (result : Manager × Option Outcome) : Type 0 where
    refused :
        (n : Manager) (error : Outcome) → result ≡ (n, some error) → IsAlive n → Checked result
    let_go : (n : Manager) → result ≡ (n, none) → SameConnections m n → Checked result

  check-Checked : Checked (check_connection_state_on_cluster_id_change c id m)
  unfolding check_connection_state_on_cluster_id_change
  check-Checked = elim (Bool-cases (is_empty m.registry)) [
    | inr e ↦ refused (close c id m) Outcome.illegal_state (rw (e)) (close-IsAlive c id m alive)
    | inl e ↦ elim (Bool-cases c.failover_config_provided) [
      | inr f ↦ let_go m (rw (e, f)) (SameConnections-refl m)
      | inl f ↦ elim (Bool-cases m.switching_to_next_cluster) [
        | inl g ↦
            let_go (record m { switching_to_next_cluster = false }) (rw (e, f, g))
              (record { same_active = refl; same_connections = refl })
        | inr g ↦
            refused (close c id m) Outcome.client_not_allowed_in_cluster (rw (e, f, g))
              (close-IsAlive c id m alive)
      ]
    ]
  ]

  join_cluster-IsAlive : IsAlive ((join_cluster c id response m).0)
  unfolding join_cluster follow_cluster
  join_cluster-IsAlive = elim (Bool-cases (cluster_id_changes response m)) [
    | inr e ↦ rw (e) (register-IsAlive false m (SameConnections-refl m))
    | inl e ↦ elim check-Checked [
      | refused n error f safe ↦ rw (e, f) safe
      | let_go n f same ↦
          rw (e, f)
            (register-IsAlive true (emit Event.cluster_restart n)
              (SameConnections-trans same (emit-SameConnections Event.cluster_restart n)))
    ]
  ]

if-IsAlive :
    (taken left : Manager × Outcome) (b : Bool)
    → IsAlive (taken.0)
    → IsAlive (left.0)
    → IsAlive ((if b then taken else left).0)
if-IsAlive taken left true p q = p
if-IsAlive taken left false p q = q

-- A connection that is open and has not been authenticated before.
abbrev pub IsFresh : ℕ → Manager → Type 0
IsFresh id m =
    (address : Option Address) × (get_elem? m.connections id
      ≡ some (record { remote_address = address; remote_uuid = none; closed = false }))

admit_member-IsAlive :
    (c : Config) (id : ℕ) (response : Response) (m : Manager)
    → IsAlive m
    → IsOpenTo response.member_uuid m.connections id
    → IsAlive ((admit_member c id response m).0)
unfolding admit_member
admit_member-IsAlive c id response m alive o =
    elim (Option-cases (get_connection response.member_uuid m.registry)) [
      | inl g ↦ rw (admit_member, g) (join_cluster-IsAlive c id response m alive o)
      | inr (existing, g) ↦ rw (admit_member, g) (close-IsAlive c id m alive)
    ]

pub on_authenticated-IsAlive :
    (c : Config) (id : ℕ) (response : Response) (m : Manager)
    → IsAlive m
    → IsFresh id m
    → IsAlive ((on_authenticated c id response m).0)
unfolding on_authenticated identify set_connection_at
on_authenticated-IsAlive c id response m alive (address, stands) =
    let joined : Connection = record {
      remote_address = some response.address;
      remote_uuid = some response.member_uuid;
      closed = false;
    } in
    let identified = set_connection_at id joined m in
    let e : identify id response m ≡ identified = rw (identify, stands) in
    let safe : IsAlive identified =
      Alive-set id joined (λ uuid f. absurd (cc (registered_member alive id _ stands uuid f)))
        alive in
    let o : IsOpenTo response.member_uuid identified.connections id = record {
      connection = joined;
      stands = get_elem?-set-some m.connections id joined _ stands;
      is_open = refl;
      member = refl;
      address = response.address;
      has_address = refl;
    } in
    if-IsAlive _ (admit_member c id response (identify id response m))
      (not response.same_partition_count) alive
      (subst (λ n. IsAlive ((admit_member c id response n).0)) (sym e)
        (admit_member-IsAlive c id response identified safe o))
