-- ===== src/ConnectionManager/Alive.antt =====
-- network/ConnectionManager.ts: the connections of the registry are open, and to the members that
-- they are registered for.
use hazelcast_nodejs_client.Prelude.{
  ℕ, ◌≡◌, ◌≢◌, refl, ap, sym, subst, ◌∙◌, inl, inr, Bool, true, false, Bool-cases, List, some,
  if◌then◌else◌, get_elem?, set, get_elem?-set_ne,
}
use hazelcast_nodejs_client.JsMap.{lookup, remove, lookup-remove}
use hazelcast_nodejs_client.Uuid.{Uuid, uuid_eq, equals, equals_iff}
use hazelcast_nodejs_client.ConnectionManager.Registry.{
  ReconnectMode, on, off, async, is_empty, is_initialized, delete_connection,
}
use hazelcast_nodejs_client.ConnectionManager.Manager.{
  Address, Connection, Event, Config, Manager, emit, set_registry, submit_connect_to_cluster_task,
  trigger_cluster_reconnection, remove_connection,
}

-- A connection that can carry requests to a member.
pub record IsOpenTo (uuid : Uuid) (connections : List Connection) (id : ℕ) : Type 0 where
  pub connection : Connection
  pub stands : get_elem? connections id ≡ some connection
  pub is_open : connection.closed ≡ false
  pub member : connection.remote_uuid ≡ some uuid
  pub address : Address
  pub has_address : connection.remote_address ≡ some address

pub record Alive (active : List (Uuid × ℕ)) (connections : List Connection) : Type 0 where
  pub all_open :
      (uuid : Uuid) (id : ℕ) → lookup uuid active ≡ some id → IsOpenTo uuid connections id

abbrev pub IsAlive : Manager → Type 0
IsAlive m = Alive m.registry.active_connections m.connections

-- What telling others about does not change.
pub record SameConnections (m m' : Manager) : Type 0 where
  pub same_active : m'.registry.active_connections ≡ m.registry.active_connections
  pub same_connections : m'.connections ≡ m.connections

pub SameConnections-IsAlive : {m m' : Manager} → SameConnections m m' → IsAlive m → IsAlive m'
SameConnections-IsAlive {m} {m'} s alive =
    subst (λ a. Alive a m'.connections) (sym s.same_active)
      (subst (λ cs. Alive m.registry.active_connections cs) (sym s.same_connections) alive)

pub SameConnections-trans :
    {m m' m'' : Manager} → SameConnections m m' → SameConnections m' m'' → SameConnections m m''
SameConnections-trans s t = record {
  same_active = t.same_active ∙ s.same_active;
  same_connections = t.same_connections ∙ s.same_connections;
}

pub emit-SameConnections : (event : Event) (m : Manager) → SameConnections m (emit event m)
unfolding emit
emit-SameConnections event m = record { same_active = refl; same_connections = refl }

pub SameConnections-refl : (m : Manager) → SameConnections m m
SameConnections-refl m = record { same_active = refl; same_connections = refl }

-- In both branches of a test.
pub if-SameConnections :
    {m yes no : Manager} (b : Bool)
    → SameConnections m yes
    → SameConnections m no
    → SameConnections m (if b then yes else no)
if-SameConnections true s t = s
if-SameConnections false s t = t

pub submit-SameConnections : (m : Manager) → SameConnections m (submit_connect_to_cluster_task m)
unfolding submit_connect_to_cluster_task emit
submit-SameConnections m =
    if-SameConnections m.connect_to_cluster_task_submitted (SameConnections-refl m)
      (record { same_active = refl; same_connections = refl })

trigger-SameConnections :
    (mode : ReconnectMode) (c : Config) (m : Manager)
    → SameConnections m (trigger_cluster_reconnection (record c { reconnect_mode = mode }) m)
unfolding trigger_cluster_reconnection
trigger-SameConnections off c m = emit-SameConnections Event.shutdown_client m
trigger-SameConnections on c m =
    if-SameConnections m.is_running (submit-SameConnections m) (SameConnections-refl m)
trigger-SameConnections async c m =
    if-SameConnections m.is_running (submit-SameConnections m) (SameConnections-refl m)

pub remove_connection-SameConnections :
    (c : Config) (uuid : Uuid) (id : ℕ) (m : Manager)
    → SameConnections (set_registry (delete_connection uuid) m) (remove_connection c uuid id m)
unfolding remove_connection
remove_connection-SameConnections c uuid id m =
    let removed = set_registry (delete_connection uuid) m in
    let disconnects = is_initialized m.registry.connection_state in
    let told = if disconnects then emit Event.disconnected removed else removed in
    let told_same =
      if-SameConnections disconnects (emit-SameConnections Event.disconnected removed)
        (SameConnections-refl removed) in
    SameConnections-trans
      (if-SameConnections (is_empty removed.registry)
        (SameConnections-trans told_same (trigger-SameConnections c.reconnect_mode c told))
        (SameConnections-refl removed))
      (emit-SameConnections (Event.connection_removed id) _)

-- What a connection becomes does not matter to the others.
pub IsOpenTo-set :
    {uuid : Uuid} {connections : List Connection} {j : ℕ} (id : ℕ) (connection : Connection)
    → id ≢ j
    → IsOpenTo uuid connections j
    → IsOpenTo uuid (set connections id connection) j
IsOpenTo-set {connections} id connection ne o = record {
  connection = o.connection;
  stands = get_elem?-set_ne connections connection ne ∙ o.stands;
  is_open = o.is_open;
  member = o.member;
  address = o.address;
  has_address = o.has_address;
}

-- A connection that no member is registered with may change.
pub Alive-set :
    {active : List (Uuid × ℕ)} {connections : List Connection} (id : ℕ) (connection : Connection)
    → ((uuid : Uuid) → lookup uuid active ≢ some id)
    → Alive active connections
    → Alive active (set connections id connection)
Alive-set {active} id connection unregistered alive = record {
  all_open = λ uuid j e.
      IsOpenTo-set id connection
        (λ same. unregistered uuid (subst (λ k. lookup uuid active ≡ some k) (sym same) e))
        (alive.all_open uuid j e);
}

module _ {active : List (Uuid × ℕ)} {connections : List Connection}
    (alive : Alive active connections) (id : ℕ) (connection : Connection)
    (stands : get_elem? connections id ≡ some connection) where
  -- The member that a registered connection is registered for.
  pub registered_member :
      (uuid : Uuid) → lookup uuid active ≡ some id → connection.remote_uuid ≡ some uuid
  registered_member uuid e =
      let o = alive.all_open uuid id e in
      let same : connection ≡ o.connection = cc (stands, o.stands) in
      ap (λ k. k.remote_uuid) same ∙ o.member

  pub registered_address :
      (uuid : Uuid)
      → lookup uuid active ≡ some id
      → (a : Address) × (connection.remote_address ≡ some a)
  registered_address uuid e =
      let o = alive.all_open uuid id e in
      let same : connection ≡ o.connection = cc (stands, o.stands) in
      (o.address, ap (λ k. k.remote_address) same ∙ o.has_address)

  -- The registered connection of a member, removed and changed.
  pub Alive-remove :
      (uuid : Uuid) (changed : Connection)
      → connection.remote_uuid ≡ some uuid
      → Alive (remove uuid active) (set connections id changed)
  Alive-remove uuid changed member = record {
    all_open = λ other j e. elim (Bool-cases (equals uuid other)) [
      | inl same ↦ absurd (cc (e, lookup-remove uuid other active, same))
      | inr different ↦
          let before : lookup other active ≡ some j =
            sym (lookup-remove uuid other active ∙ rw (different)) ∙ e in
          IsOpenTo-set id changed
            (λ self.
              let registered : lookup other active ≡ some id =
                subst (λ k. lookup other active ≡ some k) (sym self) before in
              let this = registered_member other registered in
              let equal : uuid ≡ other = cc (this, member) in
              absurd (cc (different, (equals_iff uuid other).1 equal)))
            (alive.all_open other j before)
    ];
  }
