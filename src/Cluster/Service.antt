-- ===== src/Cluster/Service.antt =====
-- `ClusterService` of packages/application/src/cluster-service.ts: the methods that change a node's
-- record in up to five rounds of a read and an operation of the repository. What other processes do
-- is `others`: `others (2 * k + 1)` before the read and `others (2 * k)` between the read and the write of
-- the round that has `k` rounds after it. The first field of a result is the tables afterwards.
use vrrelay.Prelude.{
  ℕ, zero, suc, ◌+◌, String, Bool, false, not, ◌&&◌, Option, none, some, List, [], ◌∷◌, ltb, str_eq,
  filter, if◌then◌else◌, is_some,
}
use vrrelay.Prelude.Maps.{get}
use vrrelay.Repository.{
  Versioned, WriteResult, applied, not_found, revision_conflict, invalid_state,
}
use vrrelay.Cluster.Record.{Capability, ClusterNode, Certificate, Db, is_revoked}
use vrrelay.Cluster.Nodes.{
  Reported, Operational, record_heartbeat, set_drain, set_operational, rotate_certificate,
  revoke_node, RemoveResult, removed, absent, changed, unrevoked, depended, remove_node,
}

-- How a method ends: with the record that it returns, with nothing, or with an error.
pub data Ended : Type 0 where
  returns : ClusterNode → Ended
  nothing : Ended
  missing conflict failed : Ended

-- The answer of one round: the tables, and the end, if it is not another round.
abbrev pub Round : Type 0
Round = Db × Option Ended

-- Whether to stop at what is read, and what to do otherwise at the revision that was read.
pub record Method : Type 0 where
  pub judge : Option (Versioned ClusterNode) → Option Ended
  pub act : Versioned ClusterNode → Db → Round

unfoldable pub revision_of : Method → Option (Versioned ClusterNode) → Db → Round
revision_of m none db = (db, some missing)
revision_of m (some row) db = m.act row db

unfoldable pub round : Method → String → (Db → Db) → Db → Round
unfolding revision_of
round m id between read = elim (m.judge (get id read.nodes)) [
  | some e ↦ (read, some e)
  | none ↦ revision_of m (get id read.nodes) (between read)
]

unfoldable pub attempts : Method → ℕ → (ℕ → Db → Db) → String → Db → Db × Ended
attempts m zero others id db = (db, conflict)
attempts m (suc rounds) others id db =
    let r = round m id (others (rounds + rounds)) (others (rounds + rounds + 1) db) in
    elim r.1 [ some e ↦ (r.0, e) | none ↦ attempts m rounds others id r.0 ]

abbrev pub gone : Option (Versioned ClusterNode) → Option Ended
gone none = some missing
gone (some row) = none

-- What `heartbeat` makes of a write's result.
unfoldable pub heartbeat_result : Db × WriteResult ClusterNode → Round
heartbeat_result (d, applied row) = (d, some (returns row.value))
heartbeat_result (d, not_found) = (d, some missing)
heartbeat_result (d, invalid_state row) = (d, some (returns row.value))
heartbeat_result (d, revision_conflict row) = (d, none)

unfoldable pub heartbeat_judge : Option (Versioned ClusterNode) → Option Ended
heartbeat_judge none = some missing
heartbeat_judge (some row) = if is_revoked row.value.state then some (returns row.value) else none

unfoldable pub heartbeat : (ℕ → Db → Db) → String → Capability → Reported → ℕ → Db → Db × Ended
unfolding heartbeat_result heartbeat_judge
heartbeat others id capabilities reported now db =
    attempts
      (record {
        judge = heartbeat_judge;
        act = λ row d.
            heartbeat_result (record_heartbeat d id row.revision capabilities reported now);
      })
      5 others id db

unfoldable pub drain_result : Db × WriteResult ClusterNode → Round
drain_result (d, applied row) = (d, some (returns row.value))
drain_result (d, not_found) = (d, some missing)
drain_result (d, invalid_state row) = (d, some failed)
drain_result (d, revision_conflict row) = (d, none)

unfoldable pub drain : (ℕ → Db → Db) → String → Bool → ℕ → Db → Db × Ended
unfolding drain_result
drain others id drains now db =
    attempts
      (record {
        judge = gone;
        act = λ row d. drain_result (set_drain d id row.revision drains now);
      })
      5 others id db

unfoldable pub rotation_result : Db → Option (Db × WriteResult ClusterNode) → Round
rotation_result before none = (before, some failed)
rotation_result before (some (d, applied row)) = (d, some nothing)
rotation_result before (some (d, not_found)) = (d, some missing)
rotation_result before (some (d, invalid_state row)) = (d, some missing)
rotation_result before (some (d, revision_conflict row)) = (d, none)

unfoldable pub rotation_judge : Option (Versioned ClusterNode) → Option Ended
rotation_judge none = some missing
rotation_judge (some row) = if is_revoked row.value.state then some missing else none

-- `nothing` stands for the certificate, which is returned as it was given.
unfoldable pub activate_certificate : (ℕ → Db → Db) → String → Certificate → ℕ → Db → Db × Ended
unfolding rotation_result rotation_judge
activate_certificate others id c now db =
    attempts
      (record {
        judge = rotation_judge;
        act = λ row d. rotation_result d (rotate_certificate d id row.revision c now);
      })
      5 others id db

unfoldable pub revocation_result : Db × WriteResult ClusterNode → Round
revocation_result (d, applied row) = (d, some (returns row.value))
revocation_result (d, not_found) = (d, some missing)
revocation_result (d, invalid_state row) = (d, none)
revocation_result (d, revision_conflict row) = (d, none)

unfoldable pub revoke : (ℕ → Db → Db) → String → ℕ → Db → Db × Ended
unfolding revocation_result
revoke others id now db =
    attempts
      (record {
        judge = gone;
        act = λ row d. revocation_result (revoke_node d id row.revision now);
      })
      5 others id db

unfoldable pub removal_result : Db × RemoveResult → Round
removal_result (d, removed row) = (d, some nothing)
removal_result (d, absent) = (d, some missing)
removal_result (d, unrevoked row) = (d, some failed)
removal_result (d, depended row bs) = (d, some failed)
removal_result (d, changed row) = (d, none)

unfoldable pub removal_judge : Option (Versioned ClusterNode) → Option Ended
removal_judge none = some missing
removal_judge (some row) = if is_revoked row.value.state then none else some failed

unfoldable pub remove : (ℕ → Db → Db) → String → Db → Db × Ended
unfolding removal_result removal_judge
remove others id db =
    attempts
      (record {
        judge = removal_judge;
        act = λ row d. removal_result (remove_node d id row.revision);
      })
      5 others id db

-- `#setOperationalState`, with the choice of the state.
unfoldable pub operational_judge :
    (ClusterNode → Option Operational) → Option (Versioned ClusterNode) → Option Ended
operational_judge select none = some nothing
operational_judge select (some row) =
    if is_some (select row.value) then none else some (returns row.value)

unfoldable pub operational_result : Db × WriteResult ClusterNode → Round
operational_result (d, applied row) = (d, some (returns row.value))
operational_result (d, not_found) = (d, some nothing)
operational_result (d, invalid_state row) = (d, some (returns row.value))
operational_result (d, revision_conflict row) = (d, none)

unfoldable pub operational_act :
    Option Operational → String → ℕ → Versioned ClusterNode → Db → Round
operational_act none id now row d = (d, some (returns row.value))
operational_act (some s) id now row d = operational_result (set_operational d id row.revision s now)

unfoldable pub set_state :
    (ClusterNode → Option Operational) → (ℕ → Db → Db) → String → ℕ → Db → Db × Ended
unfolding operational_judge operational_act operational_result
set_state select others id now db =
    attempts
      (record {
        judge = operational_judge select;
        act = λ row d. operational_act (select row.value) id now row d;
      })
      5 others id db

unfoldable pub first_match : (Certificate → Bool) → List Certificate → Option Certificate
first_match matches [] = none
first_match matches (c ∷ cs) = if matches c then some c else first_match matches cs

unfoldable pub is_valid_now : ℕ → Option Certificate → Bool
is_valid_now now none = false
is_valid_now now (some c) = not (is_some c.revoked_at) && ltb now c.expires_at

unfoldable pub trusted :
    Db → String → (Certificate → Bool) → ℕ → Option (Versioned ClusterNode) → Bool
trusted db id matches now none = false
trusted db id matches now (some row) =
    if is_revoked row.value.state
    then false
    else is_valid_now now (first_match matches (filter (λ c. str_eq c.node_id id) db.certificates))

-- `certificateIsActive`; `matches` is the comparison with the serial number or the fingerprint that was
-- presented. The certificates stand with the latest first.
unfoldable pub certificate_is_active : Db → String → (Certificate → Bool) → ℕ → Bool
unfolding trusted is_valid_now first_match
certificate_is_active db id matches now = trusted db id matches now (get id db.nodes)
