-- ===== src/Cluster/Certificates.antt =====
-- What the operations on nodes do to certificates.
use vrrelay.Prelude.{
  ℕ, suc, ◌+◌, ◌≤◌, String, Bool, false, not, ◌&&◌, Option, none, some, List, [], ◌∷◌, ◌==◌, str_eq,
  ◌≡◌, if◌then◌else◌, is_some, arith, eq_iff, Option-cases, Bool-cases, inl, inr,
}
use vrrelay.Prelude.Maps.{get, get-set, get-delete}
use vrrelay.Repository.{Versioned, WriteResult, compare_and_set}
use vrrelay.Cluster.Record.{
  NodeState, Capability, ClusterNode, Certificate, Db, is_revoked, is_protected,
}
use vrrelay.Cluster.Nodes.{
  Reported, of_report, Operational, of_operational, at_revision, write_node, any_state,
  unprotected_state, revoke_certificates, put_certificate, create_node, ensured, ensure_local,
  beaten, record_heartbeat, drained, set_drain, set_operational, revoke_node, remove_node,
}

-- How many certificates of a node are not revoked.
unfoldable pub active_count : String → List Certificate → ℕ
active_count id [] = 0
active_count id (c ∷ cs) =
    let rest = active_count id cs in
    if str_eq c.node_id id && not (is_some c.revoked_at) then suc rest else rest

pub active_count-revoke :
    (id node : String) (at : ℕ) (cs : List Certificate)
    → active_count id (revoke_certificates node at cs)
      ≡ (if str_eq node id then 0 else active_count id cs)
unfolding active_count revoke_certificates
active_count-revoke id node at [] = ground arith
active_count-revoke id node at (c ∷ cs) = ground (
  arith,
  active_count-revoke id node at cs,
  eq_iff c.node_id node,
  eq_iff c.node_id id,
  eq_iff node id,
)

active_count-put :
    (id : String) (c : Certificate) (cs ds : List Certificate)
    → put_certificate c cs ≡ some ds
    → c.revoked_at ≡ none
    → active_count id ds
      ≡ (if str_eq c.node_id id then suc (active_count id cs) else active_count id cs)
unfolding active_count put_certificate
active_count-put id c cs ds h e = ground (arith, h, e)

-- A node that is there and not revoked may have one valid certificate, any other has none.
unfoldable pub allowance : Option (Versioned ClusterNode) → ℕ
allowance none = 0
allowance (some row) = if is_revoked row.value.state then 0 else 1

abbrev pub IsGuarded : Db → Type 0
IsGuarded db = (id : String) → active_count id db.certificates ≤ allowance (get id db.nodes)

-- A write that does not revoke a node and does not bring a revoked one back.
module _ (db : Db) (allowed : ClusterNode → Bool) (id : String) (value : ClusterNode) (expected : ℕ)
    (row : Versioned ClusterNode) (h : get id db.nodes ≡ some row) where
  write_node-kept :
      is_revoked value.state ≡ is_revoked row.value.state
      → IsGuarded db
      → IsGuarded (write_node db allowed id value expected).0
  unfolding write_node compare_and_set allowance
  write_node-kept same g j = ground (
    arith,
    h,
    same,
    g j,
    get-set j id (record { value = value; revision = expected + 1 }) db.nodes,
    eq_iff id j,
  )

-- The test of the revision changes nothing.
at_revision-IsGuarded :
    (db : Db) (id : String) (expected : ℕ)
    (act : Versioned ClusterNode → Db × WriteResult ClusterNode)
    → ((row : Versioned ClusterNode) → get id db.nodes ≡ some row → IsGuarded (act row).0)
    → IsGuarded db
    → IsGuarded (at_revision db (get id db.nodes) expected act).0
unfolding at_revision
at_revision-IsGuarded db id expected act k g = elim (Option-cases (get id db.nodes)) [
  | inl n ↦ rw (n, at_revision) g
  | inr (row, h) ↦ elim (Bool-cases (row.revision == expected)) [
    | inl y ↦ rw (h, at_revision, y) (k row h)
    | inr x ↦ rw (h, at_revision, x) g
  ]
]

pub record_heartbeat-IsGuarded :
    (db : Db) (id : String) (expected : ℕ) (c : Capability) (r : Reported) (now : ℕ)
    → IsGuarded db
    → IsGuarded (record_heartbeat db id expected c r now).0
unfolding record_heartbeat beaten
record_heartbeat-IsGuarded db id expected c r now g =
    at_revision-IsGuarded db id expected _
      (λ row h.
        write_node-kept db any_state id (beaten c r now row.value) expected row h
          (kept row.value.state r) g)
      g
  where
    kept :
        (s : NodeState) (r : Reported)
        → is_revoked (if is_protected s then s else of_report r) ≡ is_revoked s
    kept s r = ground arith

pub set_drain-IsGuarded :
    (db : Db) (id : String) (expected : ℕ) (drains : Bool) (now : ℕ)
    → IsGuarded db
    → IsGuarded (set_drain db id expected drains now).0
unfolding set_drain drained
set_drain-IsGuarded db id expected drains now g =
    at_revision-IsGuarded db id expected _
      (λ row h. elim (Bool-cases (is_revoked row.value.state)) [
        | inl y ↦ rw y g
        | inr n ↦ rw n (
            write_node-kept db any_state id (drained drains now row.value) expected row h
              (ground (arith, n)) g)
      ])
      g

pub set_operational-IsGuarded :
    (db : Db) (id : String) (expected : ℕ) (s : Operational) (now : ℕ)
    → IsGuarded db
    → IsGuarded (set_operational db id expected s now).0
unfolding set_operational
set_operational-IsGuarded db id expected s now g =
    at_revision-IsGuarded db id expected _
      (λ row h. elim (Bool-cases (is_protected row.value.state)) [
        | inl y ↦ rw y g
        | inr n ↦ rw n (
            write_node-kept db unprotected_state id
              (record row.value { state = of_operational s; updated_at = now }) expected row h
              (ground (arith, n)) g)
      ])
      g

pub ensure_local-IsGuarded :
    (db : Db) (n : ClusterNode)
    → is_revoked n.state ≡ false
    → IsGuarded db
    → IsGuarded (ensure_local db n)
unfolding ensure_local ensured allowance
ensure_local-IsGuarded db n fresh g = elim (Option-cases (get n.id db.nodes)) [
  | inl e ↦
      rw (e, ensure_local)
        (λ j. ground (
          arith,
          e,
          fresh,
          g j,
          get-set j n.id (record { value = n; revision = 1 }) db.nodes,
          eq_iff n.id j,
        ))
  | inr (row, e) ↦
      rw (e, ensure_local)
        (write_node-kept db any_state n.id (ensured n row.value) row.revision row e
          (kept row.value.state n.state fresh) g)
]
  where
    kept :
        (s t : NodeState)
        → is_revoked t ≡ false
        → is_revoked (if is_protected s then s else t) ≡ is_revoked s
    kept s t h = ground arith

pub create_node-IsGuarded :
    (db d : Db) (n : ClusterNode) (c : Option Certificate)
    → is_revoked n.state ≡ false
    → create_node db n c ≡ some d
    → IsGuarded db
    → IsGuarded d
unfolding create_node allowance
create_node-IsGuarded db d n none fresh e g j = ground (
  arith,
  e,
  fresh,
  g j,
  get-set j n.id (record { value = n; revision = 1 }) db.nodes,
  eq_iff n.id j,
)
create_node-IsGuarded db d n (some c) fresh e g j =
    elim (Option-cases (put_certificate c db.certificates)) [
      | inl x ↦ absurd (ground (arith, e, x))
      | inr (cs, x) ↦ elim (Option-cases c.revoked_at) [
        | inr (at, r) ↦ absurd (ground (arith, e, r))
        | inl r ↦ ground (
          arith,
          e,
          x,
          r,
          fresh,
          g j,
          g n.id,
          active_count-put j c db.certificates cs x r,
          get-set j n.id (record { value = n; revision = 1 }) db.nodes,
          eq_iff n.id j,
          eq_iff c.node_id n.id,
          eq_iff c.node_id j,
        )
      ]
    ]

pub revoke_node-IsGuarded :
    (db : Db) (id : String) (expected now : ℕ)
    → IsGuarded db
    → IsGuarded (revoke_node db id expected now).0
unfolding revoke_node at_revision write_node compare_and_set allowance
revoke_node-IsGuarded db id expected now g j = elim (Option-cases (get id db.nodes)) [
  | inl n ↦ ground (arith, n, g j)
  | inr (row, h) ↦ ground (
    arith,
    h,
    g j,
    active_count-revoke j id now db.certificates,
    eq_iff id j,
    get-set j id
        (record {
          value = record row.value { state = NodeState.revoked; updated_at = now };
          revision = expected + 1;
        })
        db.nodes,
  )
]

pub remove_node-IsGuarded :
    (db : Db) (id : String) (expected : ℕ) → IsGuarded db → IsGuarded (remove_node db id expected).0
unfolding remove_node allowance
remove_node-IsGuarded db id expected g j = elim (Option-cases (get id db.nodes)) [
  | inl n ↦ ground (arith, n, g j)
  | inr (row, h) ↦ ground (arith, h, g j, get-delete j id db.nodes, eq_iff id j)
]
