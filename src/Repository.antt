-- ===== src/Repository.antt =====
-- The versioned tables of packages/adapters/src/sqlite-repository.ts. A table is a map from the key
-- column to the stored value with its revision. A compare-and-set is one SQL UPDATE, so it is
-- atomic; `JSON.parse` gives back the value that `JSON.stringify` stored. The column `state` of
-- `vod_producers` is written from the value together with its JSON.
pub mod Interference
pub mod Loop
pub mod Rounds
pub mod Quiet
use vrrelay.Prelude.{
  ℕ, ◌+◌, String, Bool, true, false, ◌&&◌, not, Option, none, some, ◌==◌, Map, if◌then◌else◌,
}
use vrrelay.Prelude.Maps.{get, set}

pub record Versioned (V : Type 0) : Type 0 where
  pub value : V
  pub revision : ℕ

-- `AtomicWriteResult`
pub data WriteResult (V : Type 0) : Type 0 where
  applied : Versioned V → WriteResult V
  not_found : WriteResult V
  revision_conflict : Versioned V → WriteResult V
  invalid_state : Versioned V → WriteResult V

abbrev pub Table : Type 0 → Type 0
Table V = Map (Versioned V)

module _ {V : Type 0} where
  -- `INSERT ... ON CONFLICT DO NOTHING`, and the record that stands there afterwards.
  insert_found : Option (Versioned V) → Table V → String → V → Table V × Bool × Versioned V
  insert_found none table key value =
      let row : Versioned V = record { value = value; revision = 1 } in
      (set key row table, true, row)
  insert_found (some row) table key value = (table, false, row)

  unfoldable pub insert : Table V → String → V → Table V × Bool × Versioned V
  unfolding insert_found
  insert table key value = insert_found (get key table) table key value

  cas_found : Option (Versioned V) → (V → Bool) → Table V → String → V → ℕ → Table V × WriteResult V
  cas_found none allowed table key value expected = (table, not_found)
  cas_found (some row) allowed table key value expected =
      if row.revision == expected
      then (if allowed row.value
          then (let next : Versioned V = record { value = value; revision = expected + 1 } in
              (set key next table, applied next))
          else (table, invalid_state row))
      else (table, revision_conflict row)

  -- `allowed` is the test of the row's state against the declared states.
  unfoldable pub compare_and_set : (V → Bool) → Table V → String → V → ℕ → Table V × WriteResult V
  unfolding cas_found
  compare_and_set allowed table key value expected =
      cas_found (get key table) allowed table key value expected
