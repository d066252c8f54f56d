-- ===== src/Cluster/Trust.antt =====
-- Who is trusted, whatever the controllers do at the same time.
use vrrelay.Prelude.{
  ℕ, zero, suc, ◌+◌, String, Bool, false, Option, none, some, [], ◌≡◌, refl, or_else, arith,
  Option-cases, inl, inr,
}
use vrrelay.Prelude.Maps.{get}
use vrrelay.Repository.{
  Versioned, WriteResult, applied, not_found, revision_conflict, invalid_state,
}
use vrrelay.Cluster.Record.{Capability, ClusterNode, Certificate, Db, is_revoked}
use vrrelay.Cluster.Nodes.{
  Reported, Operational, create_node, ensure_local, record_heartbeat, set_drain, set_operational,
  rotate_certificate, revoke_node, RemoveResult, removed, absent, changed, unrevoked, depended,
  remove_node,
}
use vrrelay.Cluster.Rotation.{rotate_certificate-IsGuarded}
use vrrelay.Cluster.Certificates.{
  active_count, IsGuarded, create_node-IsGuarded, ensure_local-IsGuarded,
  record_heartbeat-IsGuarded, set_drain-IsGuarded, set_operational-IsGuarded, revoke_node-IsGuarded,
  remove_node-IsGuarded,
}
use vrrelay.Cluster.Service.{
  Ended, Round, Method, revision_of, round, attempts, heartbeat_result, heartbeat, drain_result,
  drain, rotation_result, activate_certificate, revocation_result, revoke, removal_result, remove,
  operational_result, operational_act, set_state,
}

-- What changes the tables: an enrolment, the start of a local node, or a method of the service.
pub data Call : Type 0 where
  enrols : ClusterNode → Option Certificate → Call
  starts : ClusterNode → Call
  beats : String → Capability → Reported → ℕ → Call
  drains : String → Bool → ℕ → Call
  activates : String → Certificate → ℕ → Call
  revokes : String → ℕ → Call
  removes : String → Call
  judges : (ClusterNode → Option Operational) → String → ℕ → Call

unfoldable pub perform : Call → (ℕ → Db → Db) → Db → Db
perform (enrols n c) others db = or_else (create_node db n c) db
perform (starts n) others db = ensure_local db n
perform (beats id capabilities reported now) others db =
    (heartbeat others id capabilities reported now db).0
perform (drains id on now) others db = (drain others id on now db).0
perform (activates id c now) others db = (activate_certificate others id c now db).0
perform (revokes id now) others db = (revoke others id now db).0
perform (removes id) others db = (remove others id db).0
perform (judges select id now) others db = (set_state select others id now db).0

-- What a method's act keeps, its attempts keep.
module _ (P : Db → Type 0) (m : Method) (id : String) (others : ℕ → Db → Db)
    (fair : (n : ℕ) (d : Db) → P d → P (others n d))
    (acts : (row : Versioned ClusterNode) (d : Db) → P d → P (m.act row d).0) where
  revision_of-keeps : (o : Option (Versioned ClusterNode)) (d : Db) → P d → P (revision_of m o d).0
  unfolding revision_of
  revision_of-keeps none d p = p
  revision_of-keeps (some row) d p = acts row d p

  round-keeps : (n : ℕ) (d : Db) → P d → P (round m id (others n) d).0
  unfolding round
  round-keeps n d p = by_judgement (m.judge (get id d.nodes))
    where
      by_judgement :
          (j : Option Ended)
          → P
              (elim j as (λ _. Round) [
                | some e ↦ (d, some e)
                | none ↦ revision_of m (get id d.nodes) (others n d)
              ]).0
      by_judgement (some e) = p
      by_judgement none = revision_of-keeps (get id d.nodes) (others n d) (fair n d p)

  pub attempts-keeps : (rounds : ℕ) (d : Db) → P d → P (attempts m rounds others id d).0
  unfolding attempts
  attempts-keeps zero d p = p
  attempts-keeps (suc rounds) d p =
      by_end (attempts-keeps rounds)
        (round m id (others (rounds + rounds)) (others (rounds + rounds + 1) d))
        (round-keeps (rounds + rounds) _ (fair (rounds + rounds + 1) d p))
    where
      by_end :
          ((u : Db) → P u → P (attempts m rounds others id u).0)
          → (r : Round) → P r.0
          → P
              (elim r.1 as (λ _. Db × Ended) [
                | some e ↦ (r.0, e)
                | none ↦ attempts m rounds others id r.0
              ]).0
      by_end ih (u, some e) q = q
      by_end ih (u, none) q = ih u q

-- The result of a round is about the tables that the operation left.
pub heartbeat_result-fst : (w : Db × WriteResult ClusterNode) → (heartbeat_result w).0 ≡ w.0
unfolding heartbeat_result
heartbeat_result-fst (d, applied row) = refl
heartbeat_result-fst (d, not_found) = refl
heartbeat_result-fst (d, invalid_state row) = refl
heartbeat_result-fst (d, revision_conflict row) = refl

pub drain_result-fst : (w : Db × WriteResult ClusterNode) → (drain_result w).0 ≡ w.0
unfolding drain_result
drain_result-fst (d, applied row) = refl
drain_result-fst (d, not_found) = refl
drain_result-fst (d, invalid_state row) = refl
drain_result-fst (d, revision_conflict row) = refl

pub revocation_result-fst : (w : Db × WriteResult ClusterNode) → (revocation_result w).0 ≡ w.0
unfolding revocation_result
revocation_result-fst (d, applied row) = refl
revocation_result-fst (d, not_found) = refl
revocation_result-fst (d, invalid_state row) = refl
revocation_result-fst (d, revision_conflict row) = refl

pub removal_result-fst : (w : Db × RemoveResult) → (removal_result w).0 ≡ w.0
unfolding removal_result
removal_result-fst (d, removed row) = refl
removal_result-fst (d, absent) = refl
removal_result-fst (d, unrevoked row) = refl
removal_result-fst (d, depended row bs) = refl
removal_result-fst (d, changed row) = refl

pub operational_result-fst : (w : Db × WriteResult ClusterNode) → (operational_result w).0 ≡ w.0
unfolding operational_result
operational_result-fst (d, applied row) = refl
operational_result-fst (d, not_found) = refl
operational_result-fst (d, invalid_state row) = refl
operational_result-fst (d, revision_conflict row) = refl

pub rotation_result-fst :
    (d u : Db) (r : WriteResult ClusterNode) → (rotation_result d (some (u, r))).0 ≡ u
unfolding rotation_result
rotation_result-fst d u (applied row) = refl
rotation_result-fst d u not_found = refl
rotation_result-fst d u (invalid_state row) = refl
rotation_result-fst d u (revision_conflict row) = refl

operational_act-IsGuarded :
    (o : Option Operational) (id : String) (now : ℕ) (row : Versioned ClusterNode) (d : Db)
    → IsGuarded d
    → IsGuarded (operational_act o id now row d).0
unfolding operational_act
operational_act-IsGuarded none id now row d g = g
operational_act-IsGuarded (some s) id now row d g =
    rw (operational_result-fst (set_operational d id row.revision s now))
      (set_operational-IsGuarded d id row.revision s now g)

rotation_result-IsGuarded :
    (d : Db) (id : String) (expected : ℕ) (c : Certificate) (now : ℕ)
    (o : Option (Db × WriteResult ClusterNode))
    → rotate_certificate d id expected c now ≡ o
    → IsGuarded d
    → IsGuarded (rotation_result d o).0
unfolding rotation_result
rotation_result-IsGuarded d id expected c now none e g = g
rotation_result-IsGuarded d id expected c now (some (u, r)) e g =
    rw (rotation_result-fst d u r) (rotate_certificate-IsGuarded d u id expected c now r e g)

-- A new node is not revoked.
abbrev pub IsFresh : Call → Type 0
IsFresh (enrols n c) = is_revoked n.state ≡ false
IsFresh (starts n) = is_revoked n.state ≡ false
IsFresh _ = Unit

pub empty-IsGuarded : IsGuarded (record { nodes = []; certificates = []; bindings = [] })
unfolding active_count
empty-IsGuarded id = omega arith

-- No node ever has two certificates that are not revoked, and one that is revoked or not there has
-- none: this holds at the empty tables, and an enrolment, the start of a local node and every method
-- of the service keep it, whatever others do between their reads and writes that keeps it too. A
-- node that is enrolled or started is not in the state `revoked`.
pub perform-IsGuarded :
    (c : Call) (others : ℕ → Db → Db) (db : Db)
    → IsFresh c
    → ((n : ℕ) (d : Db) → IsGuarded d → IsGuarded (others n d))
    → IsGuarded db
    → IsGuarded (perform c others db)
unfolding perform heartbeat drain activate_certificate revoke remove set_state
perform-IsGuarded (enrols n c) others db fresh fair g = elim (Option-cases (create_node db n c)) [
  | inl e ↦ rw (e, perform) g
  | inr (d, e) ↦ rw (e, perform) (create_node-IsGuarded db d n c fresh e g)
]
perform-IsGuarded (starts n) others db fresh fair g = ensure_local-IsGuarded db n fresh g
perform-IsGuarded (beats id capabilities reported now) others db fresh fair g =
    attempts-keeps IsGuarded _ id others fair
      (λ row d k.
        rw (heartbeat_result-fst (record_heartbeat d id row.revision capabilities reported now))
          (record_heartbeat-IsGuarded d id row.revision capabilities reported now k))
      5 db g
perform-IsGuarded (drains id on now) others db fresh fair g =
    attempts-keeps IsGuarded _ id others fair
      (λ row d k.
        rw (drain_result-fst (set_drain d id row.revision on now))
          (set_drain-IsGuarded d id row.revision on now k))
      5 db g
perform-IsGuarded (activates id c now) others db fresh fair g =
    attempts-keeps IsGuarded _ id others fair
      (λ row d k. rotation_result-IsGuarded d id row.revision c now _ refl k) 5 db g
perform-IsGuarded (revokes id now) others db fresh fair g =
    attempts-keeps IsGuarded _ id others fair
      (λ row d k.
        rw (revocation_result-fst (revoke_node d id row.revision now))
          (revoke_node-IsGuarded d id row.revision now k))
      5 db g
perform-IsGuarded (removes id) others db fresh fair g =
    attempts-keeps IsGuarded _ id others fair
      (λ row d k.
        rw (removal_result-fst (remove_node d id row.revision))
          (remove_node-IsGuarded d id row.revision k))
      5 db g
perform-IsGuarded (judges select id now) others db fresh fair g =
    attempts-keeps IsGuarded _ id others fair
      (λ row d k. operational_act-IsGuarded (select row.value) id now row d k) 5 db g
