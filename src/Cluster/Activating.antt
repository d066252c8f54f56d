-- ===== src/Cluster/Activating.antt =====
-- What the activation of a certificate leaves behind.
use vrrelay.Prelude.{
  ℕ, String, Bool, false, ◌&&◌, Option, none, some, List, [], ◌∷◌, ltb, str_eq, filter, ◌≡◌, refl,
  arith, eq_iff, inl, inr,
}
use vrrelay.Prelude.Maps.{get}
use vrrelay.Repository.{
  Versioned, WriteResult, applied, not_found, revision_conflict, invalid_state,
}
use vrrelay.Cluster.Record.{ClusterNode, Certificate, Db}
use vrrelay.Cluster.Nodes.{revoke_certificates, rotate_certificate}
use vrrelay.Cluster.Rotation.{Rotated, rotate_cases}
use vrrelay.Cluster.Service.{
  Ended, nothing, missing, rotation_result, rotation_judge, activate_certificate, first_match,
  is_valid_now, trusted, certificate_is_active,
}
use vrrelay.Cluster.Ending.{attempts-ends}

no_revoked-is_valid :
    (id : String) (now at : ℕ) (matches : Certificate → Bool) (cs : List Certificate)
    → is_valid_now at
        (first_match matches (filter (λ c. str_eq c.node_id id) (revoke_certificates id now cs)))
      ≡ false
unfolding is_valid_now first_match revoke_certificates
no_revoked-is_valid id now at matches [] = refl
no_revoked-is_valid id now at matches (c ∷ cs) =
    ground (arith, no_revoked-is_valid id now at matches cs)

-- The certificates that are accepted after the rotation of one.
Rotated-certificate_is_active :
    (db d : Db) (id : String) (c : Certificate) (now : ℕ) (matches : Certificate → Bool) (at : ℕ)
    → Rotated db d id c now
    → certificate_is_active d id matches at ≡ (matches c && ltb at c.expires_at)
unfolding certificate_is_active trusted first_match is_valid_now
Rotated-certificate_is_active db d id c now matches at f =
    rw (f.stands, trusted, f.unrevoked, f.certificates) head
  where
    head :
        is_valid_now at (
          first_match matches
            (filter (λ v. str_eq v.node_id id) (c ∷ revoke_certificates id now db.certificates)))
        ≡ (matches c && ltb at c.expires_at)
    head = ground (
      arith,
      f.own,
      f.valid,
      eq_iff c.node_id id,
      no_revoked-is_valid id now at matches db.certificates,
    )

rotation_result-Rotated :
    (d : Db) (id : String) (expected : ℕ) (c : Certificate) (now : ℕ)
    (o : Option (Db × WriteResult ClusterNode))
    → rotate_certificate d id expected c now ≡ o
    → (rotation_result d o).1 ≡ some nothing
    → Rotated d (rotation_result d o).0 id c now
unfolding rotation_result
rotation_result-Rotated d id expected c now none e h = absurd (ground (arith, h))
rotation_result-Rotated d id expected c now (some (u, applied row)) e h =
    elim (rotate_cases d u id expected c now (applied row) e) [
      | inl (same, other) ↦ absurd (other row refl)
      | inr f ↦ f
    ]
rotation_result-Rotated d id expected c now (some (u, not_found)) e h = absurd (ground (arith, h))
rotation_result-Rotated d id expected c now (some (u, invalid_state row)) e h =
    absurd (ground (arith, h))
rotation_result-Rotated d id expected c now (some (u, revision_conflict row)) e h =
    absurd (ground (arith, h))

-- When an activation succeeds, whatever others do meanwhile, the node's new certificate is the only
-- one that is accepted: what is presented is accepted exactly when it is the new certificate and the
-- certificate has not expired.
pub activate_certificate-certificate_is_active :
    (others : ℕ → Db → Db) (id : String) (c : Certificate) (now : ℕ) (db : Db)
    (matches : Certificate → Bool) (at : ℕ)
    → (activate_certificate others id c now db).1 ≡ nothing
    → certificate_is_active (activate_certificate others id c now db).0 id matches at
      ≡ (matches c && ltb at c.expires_at)
unfolding activate_certificate rotation_judge
activate_certificate-certificate_is_active others id c now db matches at h =
    attempts-ends
      (λ d e.
        e ≡ nothing → certificate_is_active d id matches at ≡ (matches c && ltb at c.expires_at))
      _ id others (λ d e j q. absurd (ground (arith, j, q, stopped (get id d.nodes) e)))
      (λ row d e x q.
        Rotated-certificate_is_active d _ id c now matches at
          (rotation_result-Rotated d id row.revision c now _ refl (ground (arith, x, q))))
      (λ d q. absurd (ground (arith, q))) (λ d q. absurd (ground (arith, q))) 5 db h
  where
    stopped :
        (o : Option (Versioned ClusterNode)) (e : Ended) → rotation_judge o ≡ some e → e ≡ missing
    stopped none e q = ground (arith, q)
    stopped (some row) e q = ground (arith, q)
