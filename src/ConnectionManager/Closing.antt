-- ===== src/ConnectionManager/Closing.antt =====
-- network/ConnectionManager.ts: closing connections leaves the others registered and open.
use hazelcast_nodejs_client.Prelude.{
  ℕ, ◌≡◌, refl, inl, inr, Bool, true, false, Bool-cases, Option-cases, List, [], ◌∷◌, Option, none,
  some, ◌==◌, ==_iff, get_elem?,
}
use hazelcast_nodejs_client.JsMap.{lookup}
use hazelcast_nodejs_client.Uuid.{Uuid, uuid_eq}
use hazelcast_nodejs_client.ConnectionManager.Registry.{get_connection, delete_connection}
use hazelcast_nodejs_client.ConnectionManager.Manager.{
  Address, Connection, Config, Manager, set_registry, set_connection_at, on_connection_close, close,
  close_all,
}
use hazelcast_nodejs_client.ConnectionManager.Alive.{
  IsAlive, SameConnections-IsAlive, remove_connection-SameConnections, Alive-set, Alive-remove,
  registered_member, registered_address,
}

module _ (c : Config) (id : ℕ) (m : Manager) (alive : IsAlive m) where
  -- Whoever is at its other end, and whether or not it is registered.
  on_connection_close-IsAlive :
      (address : Option Address) (member : Option Uuid) (closed : Bool)
      → get_elem? m.connections id
        ≡ some (record { remote_address = address; remote_uuid = member; closed = closed })
      → IsAlive (
          on_connection_close c id
            (record { remote_address = address; remote_uuid = member; closed = closed })
            (set_connection_at id
              (record { remote_address = address; remote_uuid = member; closed = true })
              m))
  unfolding on_connection_close set_connection_at set_registry get_connection delete_connection
  on_connection_close-IsAlive none member closed stands =
      Alive-set id _
        (λ uuid e. let (a, f) = registered_address alive id _ stands uuid e in absurd (cc (f)))
        alive
  on_connection_close-IsAlive (some a) none closed stands =
      Alive-set id _ (λ uuid e. absurd (cc (registered_member alive id _ stands uuid e))) alive
  on_connection_close-IsAlive (some a) (some uuid) closed stands =
      let changed : Connection = record {
        remote_address = some a;
        remote_uuid = some uuid;
        closed = true;
      } in
      elim (Option-cases (lookup uuid m.registry.active_connections)) [
        | inl e ↦
            rw (on_connection_close, get_connection, e)
              (Alive-set id changed
                (λ other f. absurd (cc (e, f, registered_member alive id _ stands other f))) alive)
        | inr (j, e) ↦ elim (Bool-cases (j == id)) [
          | inl same ↦
              rw (on_connection_close, get_connection, e, same)
                (SameConnections-IsAlive
                  (remove_connection-SameConnections c uuid id (set_connection_at id changed m))
                  (Alive-remove alive id _ stands uuid changed refl))
          | inr other ↦
              rw (on_connection_close, get_connection, e, other)
                (Alive-set id changed
                  (λ uuid' f.
                    let member = registered_member alive id _ stands uuid' f in
                    let equal : j ≡ id = cc (e, f, member) in
                    absurd (cc (other, (==_iff j id).1 equal)))
                  alive)
        ]
      ]

  close-stands :
      (address : Option Address) (member : Option Uuid) (closed : Bool)
      → get_elem? m.connections id
        ≡ some (record { remote_address = address; remote_uuid = member; closed = closed })
      → IsAlive (close c id m)
  unfolding close
  close-stands address member true stands = rw (close, stands) alive
  close-stands address member false stands =
      rw (close, stands) (on_connection_close-IsAlive address member false stands)

  pub close-IsAlive : IsAlive (close c id m)
  unfolding close
  close-IsAlive = elim (Option-cases (get_elem? m.connections id)) [
    | inl e ↦ rw (close, e) alive
    | inr (k, e) ↦ close-stands k.remote_address k.remote_uuid k.closed e
  ]

pub close_all-IsAlive :
    (c : Config) (ids : List ℕ) (m : Manager) → IsAlive m → IsAlive (close_all c ids m)
unfolding close_all
close_all-IsAlive c [] m alive = alive
close_all-IsAlive c (id ∷ ids) m alive =
    close_all-IsAlive c ids (close c id m) (close-IsAlive c id m alive)
