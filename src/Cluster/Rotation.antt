-- ===== src/Cluster/Rotation.antt =====
-- What the rotation of a certificate does.
use vrrelay.Prelude.{
  ℕ, ◌+◌, String, false, none, some, ◌∷◌, ◌==◌, str_eq, ◌≡◌, ◌≢◌, arith, eq_iff, eq_refl,
  Option-cases, Bool-cases, inl, inr, ◌⊎◌,
}
use vrrelay.Prelude.Maps.{get, get-set}
use vrrelay.Repository.{Versioned, WriteResult, applied, compare_and_set}
use vrrelay.Cluster.Record.{ClusterNode, Certificate, Db, is_revoked}
use vrrelay.Cluster.Nodes.{
  at_revision, write_node, revoke_certificates, put_certificate, rotate_certificate,
}
use vrrelay.Cluster.Certificates.{active_count, active_count-revoke, allowance, IsGuarded}

-- What a rotation leaves: the tables as they were, or the new certificate before the old ones, all
-- revoked, and the node not revoked.
pub record Rotated (db d : Db) (id : String) (c : Certificate) (now : ℕ) : Type 0 where
  pub row : Versioned ClusterNode
  pub stands : get id d.nodes ≡ some row
  pub unrevoked : is_revoked row.value.state ≡ false
  pub others : (j : String) → j ≢ id → get j d.nodes ≡ get j db.nodes
  pub was_unrevoked :
      (former : Versioned ClusterNode)
      → get id db.nodes ≡ some former
      → is_revoked former.value.state ≡ false
  pub own : c.node_id ≡ id
  pub valid : c.revoked_at ≡ none
  pub certificates : d.certificates ≡ c ∷ revoke_certificates id now db.certificates

module _ (db d : Db) (id : String) (expected : ℕ) (c : Certificate) (now : ℕ)
    (r : WriteResult ClusterNode) (e : rotate_certificate db id expected c now ≡ some (d, r)) where
  pub rotate_applied :
      (row : Versioned ClusterNode)
      → get id db.nodes ≡ some row
      → row.revision ≡ expected
      → is_revoked row.value.state ≡ false
      → Rotated db d id c now
  unfolding rotate_certificate at_revision write_node compare_and_set put_certificate
  rotate_applied row h same alive = record {
    row = next;
    stands = ground (arith, e, h, same, alive, get-set id id next db.nodes, eq_refl id);
    unrevoked = alive;
    others = λ j other.
        ground (arith, e, h, same, alive, other, get-set j id next db.nodes, eq_iff id j);
    was_unrevoked = λ former q. ground (arith, h, q, alive);
    own = ground (arith, e, eq_iff c.node_id id);
    valid = ground (arith, e);
    certificates = ground (arith, e, h, same, alive);
  }
    where
      next : Versioned ClusterNode
      next = record {
        value = record row.value { certificate_expires_at = some c.expires_at; updated_at = now };
        revision = expected + 1;
      }

  pub rotate_cases :
      ((d ≡ db) × ((row : Versioned ClusterNode) → r ≢ applied row)) ⊎ Rotated db d id c now
  unfolding rotate_certificate at_revision
  rotate_cases = elim (Option-cases (get id db.nodes)) [
    | inl n ↦ inl (ground (arith, e, n), λ row q. ground (arith, e, n, q))
    | inr (row, h) ↦ elim (Bool-cases (row.revision == expected)) [
      | inr x ↦ inl (ground (arith, e, h, x), λ row q. ground (arith, e, h, x, q))
      | inl y ↦ elim (Bool-cases (is_revoked row.value.state)) [
        | inl z ↦ inl (ground (arith, e, h, y, z), λ row q. ground (arith, e, h, y, z, q))
        | inr z ↦ inr (rotate_applied row h (ground (arith, y)) z)
      ]
    ]
  ]

  pub rotate_certificate-IsGuarded : IsGuarded db → IsGuarded d
  unfolding allowance active_count
  rotate_certificate-IsGuarded g = elim rotate_cases [
    | inl (same, other) ↦ rw same g
    | inr f ↦ λ j. elim (Bool-cases (str_eq j id)) [
      | inl y ↦ ground (
        arith,
        y,
        f.stands,
        f.unrevoked,
        f.own,
        f.valid,
        f.certificates,
        eq_iff j id,
        eq_iff c.node_id j,
        active_count-revoke j id now db.certificates,
      )
      | inr n ↦ ground (
        arith,
        n,
        g j,
        f.others j,
        f.own,
        f.certificates,
        eq_iff j id,
        eq_iff id j,
        eq_iff c.node_id j,
        active_count-revoke j id now db.certificates,
      )
    ]
  ]
