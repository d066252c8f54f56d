-- ===== src/Cluster/Ending.antt =====
-- What the end of a method of the service tells.
use vrrelay.Prelude.{ℕ, zero, suc, ◌+◌, String, Option, none, some, ◌≡◌, refl, arith}
use vrrelay.Prelude.Maps.{get}
use vrrelay.Repository.{Versioned}
use vrrelay.Cluster.Record.{ClusterNode, Db}
use vrrelay.Cluster.Service.{Ended, missing, conflict, Round, Method, revision_of, round, attempts}

-- What the end of every round tells of the tables, the end of the attempts tells of them.
module _ (Q : Db → Ended → Type 0) (m : Method) (id : String) (others : ℕ → Db → Db)
    (judges_so : (d : Db) (e : Ended) → m.judge (get id d.nodes) ≡ some e → Q d e)
    (acts_so : (row : Versioned ClusterNode) (d : Db) (e : Ended)
      → (m.act row d).1 ≡ some e
      → Q (m.act row d).0 e)
    (missing_so : (d : Db) → Q d missing) (conflict_so : (d : Db) → Q d conflict) where
  revision_of-ends :
      (o : Option (Versioned ClusterNode)) (d : Db) (e : Ended)
      → (revision_of m o d).1 ≡ some e
      → Q (revision_of m o d).0 e
  unfolding revision_of
  revision_of-ends none d e h = rw same (missing_so d)
    where
      same : e ≡ missing
      same = ground (arith, h)
  revision_of-ends (some row) d e h = acts_so row d e h

  round-ends :
      (n : ℕ) (d : Db) (e : Ended)
      → (round m id (others n) d).1 ≡ some e
      → Q (round m id (others n) d).0 e
  unfolding round
  round-ends n d e h = by_judgement (m.judge (get id d.nodes)) refl h
    where
      ended : Option Ended → Round
      ended j = elim j [ some v ↦ (d, some v) | none ↦ revision_of m (get id d.nodes) (others n d) ]

      by_judgement :
          (j : Option Ended) → m.judge (get id d.nodes) ≡ j → (ended j).1 ≡ some e → Q (ended j).0 e
      by_judgement (some v) x y = judges_so d e (ground (arith, x, y))
      by_judgement none x y = revision_of-ends (get id d.nodes) (others n d) e y

  pub attempts-ends :
      (rounds : ℕ) (d : Db) → Q (attempts m rounds others id d).0 (attempts m rounds others id d).1
  unfolding attempts
  attempts-ends zero d = conflict_so d
  attempts-ends (suc rounds) d =
      by_end (attempts-ends rounds)
        (round m id (others (rounds + rounds)) (others (rounds + rounds + 1) d))
        (round-ends (rounds + rounds) (others (rounds + rounds + 1) d))
    where
      settled : Round → Db × Ended
      settled r = elim r.1 [ some e ↦ (r.0, e) | none ↦ attempts m rounds others id r.0 ]

      by_end :
          ((u : Db) → Q (attempts m rounds others id u).0 (attempts m rounds others id u).1)
          → (r : Round) → ((e : Ended) → r.1 ≡ some e → Q r.0 e)
          → Q (settled r).0 (settled r).1
      by_end ih (u, some e) q = q e refl
      by_end ih (u, none) q = ih u
