-- ===== src/Cluster/Nodes.antt =====
-- The operations on nodes of packages/adapters/src/sqlite-repository.ts. Each is one transaction, or
-- a read and a compare-and-set that both test the expected revision, and takes effect at once. `none`
-- is an error that is thrown and leaves the tables as they were.
use vrrelay.Prelude.{
  ℕ, ◌+◌, String, Bool, true, false, not, ◌&&◌, ◌||◌, Option, none, some, List, [], ◌∷◌, ◌==◌,
  str_eq, map, any, filter, if◌then◌else◌, is_some,
}
use vrrelay.Prelude.Maps.{get, set, delete}
use vrrelay.Repository.{
  Versioned, WriteResult, applied, not_found, revision_conflict, invalid_state, compare_and_set,
}
use vrrelay.Cluster.Record.{
  NodeState, Capability, ClusterNode, Certificate, BindingState, Binding, Db, is_revoked,
  is_protected,
}

abbrev pub Written : Type 0
Written = Db × WriteResult ClusterNode

-- A node that says how it is.
pub data Reported : Type 0 where
  online degraded draining : Reported

abbrev pub of_report : Reported → NodeState
of_report online = NodeState.online
of_report degraded = NodeState.degraded
of_report draining = NodeState.draining

pub data Operational : Type 0 where
  online degraded offline : Operational

abbrev pub of_operational : Operational → NodeState
of_operational Operational.online = NodeState.online
of_operational Operational.degraded = NodeState.degraded
of_operational offline = NodeState.offline

-- The test of the row and its revision with which every operation begins.
unfoldable pub at_revision :
    Db → Option (Versioned ClusterNode) → ℕ → (Versioned ClusterNode → Written) → Written
at_revision db none expected act = (db, not_found)
at_revision db (some row) expected act =
    if row.revision == expected then act row else (db, revision_conflict row)

-- `#compareAndSetVersioned` on the table of nodes.
unfoldable pub write_node : Db → (ClusterNode → Bool) → String → ClusterNode → ℕ → Written
write_node db allowed id value expected =
    let w = compare_and_set allowed db.nodes id value expected in (record db { nodes = w.0 }, w.1)

abbrev pub any_state : ClusterNode → Bool
any_state n = true

abbrev pub unrevoked_state : ClusterNode → Bool
unrevoked_state n = not (is_revoked n.state)

abbrev pub unprotected_state : ClusterNode → Bool
unprotected_state n = not (is_protected n.state)

-- `#revokeNodeCertificates`
unfoldable pub revoke_certificates : String → ℕ → List Certificate → List Certificate
revoke_certificates node_id at [] = []
revoke_certificates node_id at (c ∷ cs) =
    (if str_eq c.node_id node_id && not (is_some c.revoked_at)
      then record c { revoked_at = some at }
      else c)
    ∷ revoke_certificates node_id at cs

-- `#putNodeCertificate`; the serial number is the primary key.
unfoldable pub put_certificate : Certificate → List Certificate → Option (List Certificate)
put_certificate c cs =
    if any (λ d. str_eq d.serial_number c.serial_number) cs then none else some (c ∷ cs)

inserted : Db → ClusterNode → Option (List Certificate) → Option Db
inserted db n none = none
inserted db n (some cs) = some (record db {
  nodes = set n.id (record { value = n; revision = 1 }) db.nodes;
  certificates = cs;
})

initial_certificates : Option Certificate → String → List Certificate → Option (List Certificate)
initial_certificates none id cs = some cs
initial_certificates (some c) id cs =
    if not (str_eq c.node_id id) || is_some c.revoked_at then none else put_certificate c cs

-- The identifier is the primary key.
unfoldable pub create_node : Db → ClusterNode → Option Certificate → Option Db
unfolding inserted initial_certificates
create_node db n initial =
    if is_some (get n.id db.nodes)
    then none
    else inserted db n (initial_certificates initial n.id db.certificates)

abbrev pub or_former : Option ℕ → Option ℕ → Option ℕ
or_former none former = former
or_former (some at) former = some at

-- The record of the local node over the one that is there.
unfoldable pub ensured : ClusterNode → ClusterNode → ClusterNode
ensured node current = record node {
  state = if is_protected current.state then current.state else node.state;
  created_at = current.created_at;
  certificate_expires_at = or_former node.certificate_expires_at current.certificate_expires_at;
}

ensure_found : Db → ClusterNode → Option (Versioned ClusterNode) → Db
ensure_found db n none = record db {
  nodes = set n.id (record { value = n; revision = 1 }) db.nodes;
}
ensure_found db n (some row) = (write_node db any_state n.id (ensured n row.value) row.revision).0

unfoldable pub ensure_local : Db → ClusterNode → Db
unfolding ensure_found write_node
ensure_local db n = ensure_found db n (get n.id db.nodes)

-- The value that a heartbeat writes.
unfoldable pub beaten : Capability → Reported → ℕ → ClusterNode → ClusterNode
beaten capabilities reported now n = record n {
  capabilities = capabilities;
  state = if is_protected n.state then n.state else of_report reported;
  last_heartbeat_at = now;
  updated_at = now;
}

unfoldable pub record_heartbeat : Db → String → ℕ → Capability → Reported → ℕ → Written
unfolding at_revision write_node
record_heartbeat db id expected capabilities reported now =
    at_revision db (get id db.nodes) expected
      (λ row. write_node db any_state id (beaten capabilities reported now row.value) expected)

abbrev pub undrained : NodeState → NodeState
undrained NodeState.draining = NodeState.online
undrained s = s

unfoldable pub drained : Bool → ℕ → ClusterNode → ClusterNode
drained drains now n = record n {
  state = if drains then NodeState.draining else undrained n.state;
  updated_at = now;
}

unfoldable pub set_drain : Db → String → ℕ → Bool → ℕ → Written
unfolding at_revision write_node
set_drain db id expected drains now = at_revision db (get id db.nodes) expected (λ row.
    if is_revoked row.value.state
    then (db, invalid_state row)
    else write_node db any_state id (drained drains now row.value) expected)

unfoldable pub set_operational : Db → String → ℕ → Operational → ℕ → Written
unfolding at_revision write_node
set_operational db id expected state now = at_revision db (get id db.nodes) expected (λ row.
    if is_protected row.value.state
    then (db, invalid_state row)
    else write_node db unprotected_state id
        (record row.value { state = of_operational state; updated_at = now }) expected)

-- The certificates after a rotation that was applied.
unfoldable pub with_certificates : Written → Option (List Certificate) → Option Written
with_certificates w none = none
with_certificates w (some cs) = some (record w.0 { certificates = cs }, w.1)

unfoldable pub rotated : Db → String → Certificate → ℕ → Written → Option Written
rotated db id c now (d, applied row) =
    with_certificates (d, applied row)
      (put_certificate c (revoke_certificates id now d.certificates))
rotated db id c now (d, not_found) = some (d, not_found)
rotated db id c now (d, revision_conflict row) = some (d, revision_conflict row)
rotated db id c now (d, invalid_state row) = some (d, invalid_state row)

unfoldable pub rotate_certificate : Db → String → ℕ → Certificate → ℕ → Option Written
unfolding at_revision write_node rotated with_certificates
rotate_certificate db id expected c now =
    if not (str_eq c.node_id id) || is_some c.revoked_at
    then none
    else rotated db id c now (
        at_revision db (get id db.nodes) expected (λ row.
          if is_revoked row.value.state
          then (db, invalid_state row)
          else write_node db unrevoked_state id
              (record row.value { certificate_expires_at = some c.expires_at; updated_at = now })
              expected))

abbrev pub revoked_message : String
revoked_message = "Node revoked; provider credential cleanup requires administrator acknowledgement"

unfoldable pub revoke_bindings : String → ℕ → List Binding → List Binding
revoke_bindings node_id now bs =
    map
      (λ b.
        if str_eq b.node_id node_id
        then record b {
          reachable = false;
          state = BindingState.revoked;
          last_error = some revoked_message;
          updated_at = now;
          revision = b.revision + 1;
        }
        else b)
      bs

unfoldable pub revoked_after : String → ℕ → Written → Written
revoked_after id now (d, applied row) = (
  record d {
    certificates = revoke_certificates id now d.certificates;
    bindings = revoke_bindings id now d.bindings;
  },
  applied row,
)
revoked_after id now (d, not_found) = (d, not_found)
revoked_after id now (d, revision_conflict row) = (d, revision_conflict row)
revoked_after id now (d, invalid_state row) = (d, invalid_state row)

unfoldable pub revoke_node : Db → String → ℕ → ℕ → Written
unfolding at_revision write_node revoked_after
revoke_node db id expected now = revoked_after id now (
    at_revision db (get id db.nodes) expected (λ row.
      write_node db any_state id (record row.value { state = NodeState.revoked; updated_at = now })
        expected))

pub data RemoveResult : Type 0 where
  removed : Versioned ClusterNode → RemoveResult
  absent : RemoveResult
  changed unrevoked : Versioned ClusterNode → RemoveResult
  depended : Versioned ClusterNode → List Binding → RemoveResult

abbrev remove_free : Db → String → Versioned ClusterNode → List Binding → Db × RemoveResult
remove_free db id row [] = (record db { nodes = delete id db.nodes }, removed row)
remove_free db id row (b ∷ bs) = (db, depended row (b ∷ bs))

remove_found : Db → String → ℕ → Option (Versioned ClusterNode) → Db × RemoveResult
remove_found db id expected none = (db, absent)
remove_found db id expected (some row) =
    if not (row.revision == expected)
    then (db, changed row)
    else if not (is_revoked row.value.state)
    then (db, unrevoked row)
    else remove_free db id row (filter (λ b. str_eq b.node_id id) db.bindings)

unfoldable pub remove_node : Db → String → ℕ → Db × RemoveResult
unfolding remove_found
remove_node db id expected = remove_found db id expected (get id db.nodes)
