-- ===== src/Producer/Recovery.antt =====
-- `recoverExpired` of vod-producer-coordinator.ts: records whose owner is gone become idle.
use vrrelay.Prelude.{
  ℕ, suc, String, Bool, true, ◌&&◌, Option, none, some, List, [], ◌∷◌, leb, if◌then◌else◌,
}
use vrrelay.Repository.{Table}
use vrrelay.Repository.Loop
use vrrelay.Repository.Loop.{Loop, Others, Outcome, wrote, stopped_by, conflicted}
use vrrelay.Producer.Record.{VodProducer, is_active}
use vrrelay.Producer.Updates.{set_recovered}
use vrrelay.Producer.Transition.{allows_active}

-- No lease, or one that has run out.
abbrev pub has_expired : Option ℕ → ℕ → Bool
has_expired none now = true
has_expired (some at) now = leb at now

unfoldable pub is_orphan : ℕ → VodProducer → Bool
is_orphan now p = is_active p.state && has_expired p.lease_expires_at now

abbrev pub orphans : ℕ → Loop VodProducer (Unit {0})
orphans now = record {
  judge = λ p. if is_orphan now p then none else some tt;
  missing = tt;
  allowed = allows_active;
  refused = λ _. tt;
}

-- The five attempts for one session.
unfoldable pub recover_one :
    ℕ
    → Others VodProducer
    → Table VodProducer
    → String
    → Table VodProducer × Outcome VodProducer (Unit {0})
recover_one now others table session_id =
    Loop.run (orphans now) 5 others table session_id (set_recovered now)

abbrev pub counted : Outcome VodProducer (Unit {0}) → ℕ → ℕ
counted (wrote row) n = suc n
counted (stopped_by _) n = n
counted conflicted n = n

-- The loop over the listed records, as they were when they were listed. `others` acts during the
-- attempts for each of them.
unfoldable pub recover_expired :
    ℕ
    → (VodProducer → Others VodProducer)
    → List VodProducer
    → Table VodProducer
    → Table VodProducer × ℕ
recover_expired now others [] table = (table, 0)
recover_expired now others (p ∷ ps) table =
    let tried = recover_one now (others p) table p.session_id in
    let next = if is_orphan now p then tried.0 else table in
    let rest = recover_expired now others ps next in
    (rest.0, if is_orphan now p then counted tried.1 rest.1 else rest.1)
