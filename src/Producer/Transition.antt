-- ===== src/Producer/Transition.antt =====
-- `#transition` of vod-producer-coordinator.ts: an update of the session's record by the producer of
-- one generation, while the record is active.
use vrrelay.Prelude.{ℕ, String, Bool, Option, none, some, ◌==◌, if◌then◌else◌}
use vrrelay.Repository.{Table}
use vrrelay.Repository.Loop
use vrrelay.Repository.Loop.{Loop, Others, Outcome}
use vrrelay.Producer.Record.{VodProducer, is_active}

abbrev pub allows_active : VodProducer → Bool
allows_active p = is_active p.state

-- A record of another generation ends the loop.
abbrev pub other_generation : ℕ → VodProducer → Option (Unit {0})
other_generation generation p = if p.generation == generation then none else some tt

abbrev pub of_generation : ℕ → Loop VodProducer (Unit {0})
of_generation generation = record {
  judge = other_generation generation;
  missing = tt;
  allowed = allows_active;
  refused = λ _. tt;
}

-- `stopped_by tt` is a return without a write, `conflicted` the `ConflictError` of the fifth round.
unfoldable pub transition :
    Others VodProducer
    → Table VodProducer
    → String
    → ℕ
    → (VodProducer → VodProducer)
    → Table VodProducer × Outcome VodProducer (Unit {0})
transition others table session_id generation update =
    Loop.run (of_generation generation) 5 others table session_id update
