-- ===== src/Cluster/Revoking.antt =====
-- What a revocation and an activation leave behind.
use vrrelay.Prelude.{
  ℕ, ◌+◌, String, Bool, false, Option, none, some, List, [], ◌∷◌, str_eq, All, ◌≡◌, ◌≢◌, refl,
  arith, eq_iff, eq_refl, Option-cases, Bool-cases, inl, inr, length,
}
use vrrelay.Prelude.Maps.{get, get-set}
use vrrelay.Repository.{Versioned, WriteResult, compare_and_set}
use vrrelay.Cluster.Record.{NodeState, ClusterNode, Certificate, Db}
use vrrelay.Cluster.Nodes.{
  Operational, at_revision, write_node, create_node, record_heartbeat, set_drain, set_operational,
  rotate_certificate, revoke_node, remove_node,
}
use vrrelay.Cluster.Rotation.{rotate_cases}
use vrrelay.Cluster.Service.{
  Ended, returns, missing, gone, heartbeat, drain, rotation_result, activate_certificate,
  revocation_result, revoke, remove, operational_act, set_state, trusted, certificate_is_active,
}
use vrrelay.Cluster.Trust.{
  Call, enrols, starts, beats, drains, activates, revokes, removes, judges, perform, attempts-keeps,
  heartbeat_result-fst, drain_result-fst, revocation_result-fst, removal_result-fst,
  rotation_result-fst, operational_result-fst,
}
use vrrelay.Cluster.Ending.{attempts-ends}
use vrrelay.Cluster.Revoked.{
  IsRevoked, record_heartbeat-IsRevoked, set_drain-IsRevoked, set_operational-IsRevoked,
  ensure_local-IsRevoked, create_node-IsRevoked, revoke_node-IsRevoked, remove_node-IsRevoked,
}

-- Calls that leave the node where it is.
abbrev pub Spares : String → Call → Type 0
Spares id (removes j) = j ≢ id
Spares id _ = Unit

operational_act-IsRevoked :
    (j : String) (o : Option Operational) (id : String) (now : ℕ) (row : Versioned ClusterNode)
    (d : Db)
    → IsRevoked j d
    → IsRevoked j (operational_act o id now row d).0
unfolding operational_act
operational_act-IsRevoked j none id now row d g = g
operational_act-IsRevoked j (some s) id now row d g =
    rw (operational_result-fst (set_operational d id row.revision s now))
      (set_operational-IsRevoked j d id row.revision s now g)

rotation_result-IsRevoked :
    (j : String) (d : Db) (id : String) (expected : ℕ) (c : Certificate) (now : ℕ)
    (o : Option (Db × WriteResult ClusterNode))
    → rotate_certificate d id expected c now ≡ o
    → IsRevoked j d
    → IsRevoked j (rotation_result d o).0
unfolding rotation_result
rotation_result-IsRevoked j d id expected c now none e g = g
rotation_result-IsRevoked j d id expected c now (some (u, r)) e g =
    rw (rotation_result-fst d u r) (elim (rotate_cases d u id expected c now r e) [
      | inl (same, other) ↦ rw same g
      | inr f ↦ elim (Bool-cases (str_eq j id)) [
        | inl y ↦ elim (Option-cases (get id d.nodes)) [
          | inl x ↦ absurd (ground (arith, y, x, g, eq_iff j id))
          | inr (former, x) ↦
              absurd (ground (arith, y, x, g, f.was_unrevoked former x, eq_iff j id))
        ]
        | inr n ↦ ground (arith, n, g, f.others j, eq_iff j id)
      ]
    ])

perform-IsRevoked :
    (j : String) (c : Call) (others : ℕ → Db → Db) (db : Db)
    → Spares j c
    → ((n : ℕ) (d : Db) → IsRevoked j d → IsRevoked j (others n d))
    → IsRevoked j db
    → IsRevoked j (perform c others db)
unfolding perform heartbeat drain activate_certificate revoke remove set_state
perform-IsRevoked j (enrols n c) others db spares fair g =
    elim (Option-cases (create_node db n c)) [
      | inl e ↦ rw (e, perform) g
      | inr (d, e) ↦ rw (e, perform) (create_node-IsRevoked j db d n c e g)
    ]
perform-IsRevoked j (starts n) others db spares fair g = ensure_local-IsRevoked j db n g
perform-IsRevoked j (beats id capabilities reported now) others db spares fair g =
    attempts-keeps (IsRevoked j) _ id others fair
      (λ row d k.
        rw (heartbeat_result-fst (record_heartbeat d id row.revision capabilities reported now))
          (record_heartbeat-IsRevoked j d id row.revision capabilities reported now k))
      5 db g
perform-IsRevoked j (drains id on now) others db spares fair g =
    attempts-keeps (IsRevoked j) _ id others fair
      (λ row d k.
        rw (drain_result-fst (set_drain d id row.revision on now))
          (set_drain-IsRevoked j d id row.revision on now k))
      5 db g
perform-IsRevoked j (activates id c now) others db spares fair g =
    attempts-keeps (IsRevoked j) _ id others fair
      (λ row d k. rotation_result-IsRevoked j d id row.revision c now _ refl k) 5 db g
perform-IsRevoked j (revokes id now) others db spares fair g =
    attempts-keeps (IsRevoked j) _ id others fair
      (λ row d k.
        rw (revocation_result-fst (revoke_node d id row.revision now))
          (revoke_node-IsRevoked j d id row.revision now k))
      5 db g
perform-IsRevoked j (removes id) others db spares fair g =
    attempts-keeps (IsRevoked j) _ id others fair
      (λ row d k.
        rw (removal_result-fst (remove_node d id row.revision))
          (remove_node-IsRevoked j d id row.revision spares k))
      5 db g
perform-IsRevoked j (judges select id now) others db spares fair g =
    attempts-keeps (IsRevoked j) _ id others fair
      (λ row d k. operational_act-IsRevoked j (select row.value) id now row d k) 5 db g

-- Calls one after the other; `others n` is what others do during the call that has `n` calls after it.
unfoldable pub run : (ℕ → ℕ → Db → Db) → List Call → Db → Db
run others [] db = db
run others (c ∷ cs) db = run others cs (perform c (others (length cs)) db)

run-IsRevoked :
    (j : String) (others : ℕ → ℕ → Db → Db) (cs : List Call) (db : Db)
    → All (Spares j) cs
    → ((i n : ℕ) (d : Db) → IsRevoked j d → IsRevoked j (others i n d))
    → IsRevoked j db
    → IsRevoked j (run others cs db)
unfolding run
run-IsRevoked j others [] db spares fair g = g
run-IsRevoked j others (c ∷ cs) db (spared, spares) fair g =
    run-IsRevoked j others cs _ spares fair
      (perform-IsRevoked j c (others (length cs)) db spared (fair (length cs)) g)

IsRevoked-certificate_is_active :
    (id : String) (db : Db) (matches : Certificate → Bool) (at : ℕ)
    → IsRevoked id db
    → certificate_is_active db id matches at ≡ false
unfolding certificate_is_active trusted
IsRevoked-certificate_is_active id db matches at g = elim (Option-cases (get id db.nodes)) [
  | inl n ↦ ground (arith, n, g)
  | inr (row, h) ↦ rw (h, trusted) (ground (arith, h, g))
]

revocation-revokes :
    (id : String) (now : ℕ) (row : Versioned ClusterNode) (d : Db) (e : Ended)
    → (revocation_result (revoke_node d id row.revision now)).1 ≡ some e
    → (n : ClusterNode) → e ≡ returns n
    → IsRevoked id (revocation_result (revoke_node d id row.revision now)).0
unfolding revocation_result revoke_node at_revision write_node compare_and_set
revocation-revokes id now row d e h n q = elim (Option-cases (get id d.nodes)) [
  | inl x ↦ absurd (ground (arith, x, h, q))
  | inr (former, x) ↦ ground (
    arith,
    x,
    h,
    q,
    eq_refl id,
    get-set id id
        (record {
          value = record former.value { state = NodeState.revoked; updated_at = now };
          revision = row.revision + 1;
        })
        d.nodes,
  )
]

-- When a revocation returns the node, none of the node's certificates is accepted any more, whichever
-- it is and whenever it is presented, after any further calls but a removal of the node. What others
-- do during the revocation is arbitrary; during the calls they leave the node revoked.
pub revoke-certificate_is_active :
    (others : ℕ → Db → Db) (later : ℕ → ℕ → Db → Db) (id : String) (now : ℕ) (db : Db)
    (n : ClusterNode) (cs : List Call) (matches : Certificate → Bool) (at : ℕ)
    → (revoke others id now db).1 ≡ returns n
    → ((i k : ℕ) (d : Db) → IsRevoked id d → IsRevoked id (later i k d))
    → All (Spares id) cs
    → certificate_is_active (run later cs (revoke others id now db).0) id matches at ≡ false
unfolding revoke
revoke-certificate_is_active others later id now db n cs matches at h fair spares =
    IsRevoked-certificate_is_active id _ matches at (
      run-IsRevoked id later cs _ spares fair (
        attempts-ends (λ d e. (v : ClusterNode) → e ≡ returns v → IsRevoked id d) _ id others
          (λ d e j v q. absurd (ground (arith, j, q, gone_cases (get id d.nodes) e)))
          (λ row d e x v q. revocation-revokes id now row d e x v q)
          (λ d v q. absurd (ground (arith, q))) (λ d v q. absurd (ground (arith, q))) 5 db n h))
  where
    gone_cases : (o : Option (Versioned ClusterNode)) (e : Ended) → gone o ≡ some e → e ≡ missing
    gone_cases o e q = ground (arith, q)
