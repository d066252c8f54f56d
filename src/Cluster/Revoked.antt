-- ===== src/Cluster/Revoked.antt =====
-- What the operations on nodes do to a node that is revoked.
use vrrelay.Prelude.{
  ℕ, ◌+◌, ◌==◌, String, Bool, true, false, Option, none, some, ◌≡◌, ◌≢◌, arith, eq_iff,
  Option-cases, Bool-cases, inl, inr,
}
use vrrelay.Prelude.Maps.{get, get-set, get-delete}
use vrrelay.Repository.{Versioned, WriteResult, compare_and_set}
use vrrelay.Cluster.Record.{
  NodeState, Capability, ClusterNode, Certificate, Db, is_revoked, is_protected,
}
use vrrelay.Cluster.Nodes.{
  Reported, Operational, of_operational, at_revision, write_node, any_state, unprotected_state,
  create_node, ensured, ensure_local, beaten, record_heartbeat, drained, set_drain, set_operational,
  revoke_node, remove_node,
}

abbrev pub revoked_row : Option (Versioned ClusterNode) → Bool
revoked_row none = false
revoked_row (some row) = is_revoked row.value.state

-- The node is there and revoked.
abbrev pub IsRevoked : String → Db → Type 0
IsRevoked id db = revoked_row (get id db.nodes) ≡ true

module _ (j : String) (db : Db) where
  pub write_node-IsRevoked :
      (allowed : ClusterNode → Bool) (id : String) (value : ClusterNode) (expected : ℕ)
      (row : Versioned ClusterNode)
      → get id db.nodes ≡ some row
      → (is_revoked row.value.state ≡ true → is_revoked value.state ≡ true)
      → IsRevoked j db
      → IsRevoked j (write_node db allowed id value expected).0
  unfolding write_node compare_and_set
  write_node-IsRevoked allowed id value expected row h same g = ground (
    arith,
    h,
    same,
    g,
    get-set j id (record { value = value; revision = expected + 1 }) db.nodes,
    eq_iff id j,
  )

  pub at_revision-IsRevoked :
      (id : String) (expected : ℕ) (act : Versioned ClusterNode → Db × WriteResult ClusterNode)
      → ((row : Versioned ClusterNode) → get id db.nodes ≡ some row → IsRevoked j (act row).0)
      → IsRevoked j db
      → IsRevoked j (at_revision db (get id db.nodes) expected act).0
  unfolding at_revision
  at_revision-IsRevoked id expected act k g = elim (Option-cases (get id db.nodes)) [
    | inl n ↦ rw (n, at_revision) g
    | inr (row, h) ↦ elim (Bool-cases (row.revision == expected)) [
      | inl y ↦ rw (h, at_revision, y) (k row h)
      | inr x ↦ rw (h, at_revision, x) g
    ]
  ]

  pub record_heartbeat-IsRevoked :
      (id : String) (expected : ℕ) (c : Capability) (r : Reported) (now : ℕ)
      → IsRevoked j db
      → IsRevoked j (record_heartbeat db id expected c r now).0
  unfolding record_heartbeat beaten
  record_heartbeat-IsRevoked id expected c r now g =
      at_revision-IsRevoked id expected _
        (λ row h.
          write_node-IsRevoked any_state id (beaten c r now row.value) expected row h
            (λ q. ground (arith, q)) g)
        g

  pub set_drain-IsRevoked :
      (id : String) (expected : ℕ) (on : Bool) (now : ℕ)
      → IsRevoked j db
      → IsRevoked j (set_drain db id expected on now).0
  unfolding set_drain
  set_drain-IsRevoked id expected on now g =
      at_revision-IsRevoked id expected _
        (λ row h. elim (Bool-cases (is_revoked row.value.state)) [
          | inl y ↦ rw y g
          | inr n ↦ rw n (
              write_node-IsRevoked any_state id (drained on now row.value) expected row h
                (λ q. absurd (ground (arith, n, q))) g)
        ])
        g

  pub set_operational-IsRevoked :
      (id : String) (expected : ℕ) (s : Operational) (now : ℕ)
      → IsRevoked j db
      → IsRevoked j (set_operational db id expected s now).0
  unfolding set_operational
  set_operational-IsRevoked id expected s now g =
      at_revision-IsRevoked id expected _
        (λ row h. elim (Bool-cases (is_protected row.value.state)) [
          | inl y ↦ rw y g
          | inr n ↦ rw n (
              write_node-IsRevoked unprotected_state id
                (record row.value { state = of_operational s; updated_at = now }) expected row h
                (λ q. absurd (ground (arith, n, q))) g)
        ])
        g

  pub ensure_local-IsRevoked : (n : ClusterNode) → IsRevoked j db → IsRevoked j (ensure_local db n)
  unfolding ensure_local ensured
  ensure_local-IsRevoked n g = elim (Option-cases (get n.id db.nodes)) [
    | inl e ↦
        rw (e, ensure_local)
          (ground (
            arith,
            e,
            g,
            get-set j n.id (record { value = n; revision = 1 }) db.nodes,
            eq_iff n.id j,
          ))
    | inr (row, e) ↦
        rw (e, ensure_local)
          (write_node-IsRevoked any_state n.id (ensured n row.value) row.revision row e
            (λ q. ground (arith, q)) g)
  ]

  pub create_node-IsRevoked :
      (d : Db) (n : ClusterNode) (c : Option Certificate)
      → create_node db n c ≡ some d
      → IsRevoked j db
      → IsRevoked j d
  unfolding create_node
  create_node-IsRevoked d n none e g =
      ground
        (arith, e, g, get-set j n.id (record { value = n; revision = 1 }) db.nodes, eq_iff n.id j)
  create_node-IsRevoked d n (some c) e g =
      ground
        (arith, e, g, get-set j n.id (record { value = n; revision = 1 }) db.nodes, eq_iff n.id j)

  pub revoke_node-IsRevoked :
      (id : String) (expected now : ℕ)
      → IsRevoked j db
      → IsRevoked j (revoke_node db id expected now).0
  unfolding revoke_node at_revision write_node compare_and_set
  revoke_node-IsRevoked id expected now g = elim (Option-cases (get id db.nodes)) [
    | inl n ↦ ground (arith, n, g)
    | inr (row, h) ↦ ground (
      arith,
      h,
      g,
      eq_iff id j,
      get-set j id
          (record {
            value = record row.value { state = NodeState.revoked; updated_at = now };
            revision = expected + 1;
          })
          db.nodes,
    )
  ]

  pub remove_node-IsRevoked :
      (id : String) (expected : ℕ)
      → id ≢ j
      → IsRevoked j db
      → IsRevoked j (remove_node db id expected).0
  unfolding remove_node
  remove_node-IsRevoked id expected other g =
      ground (arith, g, other, get-delete j id db.nodes, eq_iff id j)
