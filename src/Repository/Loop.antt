-- ===== src/Repository/Loop.antt =====
-- The optimistic write that the coordinators repeat: up to a number of rounds of read, judgement,
-- update and compare-and-set, while other processes write to the same table. It is the loop of
-- `#transition` and `recoverExpired` in packages/application/src/vod-producer-coordinator.ts and of
-- five methods of packages/application/src/session-jobs.ts.
use vrrelay.Prelude.{ℕ, zero, suc, ◌+◌, String, Bool, Option, none, some}
use vrrelay.Prelude.Maps.{get}
use vrrelay.Repository.{
  Versioned, WriteResult, applied, not_found, revision_conflict, invalid_state, Table,
  compare_and_set,
}

-- What the others do while a process waits: `others n` acts with `2 * k + 1` before the read, and with
-- `2 * k` between the read and the write, of the round that has `k` rounds after it.
abbrev pub Others : Type 0 → Type 0
Others V = ℕ → Table V → Table V

-- How a loop ends: with a write, for a reason of its own, or after a conflict in the last round.
pub data Outcome (V E : Type 0) : Type 0 where
  wrote : Versioned V → Outcome V E
  stopped_by : E → Outcome V E
  conflicted : Outcome V E

-- What a loop does with the row it reads, or with none.
pub data Judgement (V E : Type 0) : Type 0 where
  goes_on : Versioned V → Judgement V E
  stops : E → Judgement V E

-- A loop: when it stops, for which states it writes, and why it stops when the write finds no row or
-- a row in another state.
pub record Loop (V E : Type 0) : Type 0 where
  pub judge : V → Option E
  pub missing : E
  pub allowed : V → Bool
  pub refused : V → E

module _ {V E : Type 0} where
  judged : Option E → Versioned V → Judgement V E
  judged none row = goes_on row
  judged (some e) row = stops e

  unfoldable pub judgement : Loop V E → Option (Versioned V) → Judgement V E
  unfolding judged
  judgement l none = stops l.missing
  judgement l (some row) = judged (l.judge row.value) row

  unfoldable pub after_write :
      Loop V E → Table V × WriteResult V → Table V × Outcome V E → Table V × Outcome V E
  after_write l (t, applied row) again = (t, wrote row)
  after_write l (t, not_found) again = (t, stopped_by l.missing)
  after_write l (t, invalid_state row) again = (t, stopped_by (l.refused row.value))
  after_write l (t, revision_conflict row) again = again

  unfoldable pub run : Loop V E → ℕ → Others V → Table V → String → (V → V) → Table V × Outcome V E
  run l zero others table key update = (table, conflicted)
  run l (suc rounds) others table key update =
      let read = others (rounds + rounds + 1) table in
      elim (judgement l (get key read)) [
        | stops e ↦ (read, stopped_by e)
        | goes_on row ↦
            let written =
              compare_and_set l.allowed (others (rounds + rounds) read) key (update row.value)
                row.revision in
            after_write l written (run l rounds others written.0 key update)
      ]
