-- ===== src/Repository/Quiet.antt =====
-- What an optimistic write does where nobody else writes.
use vrrelay.Prelude.{ℕ, suc, ◌+◌, String, ◌≡◌, refl, true, none, some, arith}
use vrrelay.Prelude.Maps.{get, set}
use vrrelay.Repository.{Versioned, Table, compare_and_set}
use vrrelay.Repository.Loop.{Others, wrote, stopped_by, Loop, judgement, after_write, run}

-- Where nobody else writes, the first round decides.
module _ {V E : Type 0} (l : Loop V E) (rounds : ℕ) (t : Table V) (key : String)
    (update : V → V) where
  abbrev pub quiet : Others V
  quiet n u = u

  pub quiet_missing :
      get key t ≡ none → run l (suc rounds) quiet t key update ≡ (t, stopped_by l.missing)
  unfolding run judgement
  quiet_missing h = rw (h, run) refl

  module _ (row : Versioned V) (h : get key t ≡ some row) where
    pub quiet_stopped :
        (e : E)
        → l.judge row.value ≡ some e
        → run l (suc rounds) quiet t key update ≡ (t, stopped_by e)
    unfolding run judgement
    quiet_stopped e j = rw (h, j, run) refl

    pub quiet_wrote :
        l.judge row.value ≡ none
        → l.allowed row.value ≡ true
        → let next : Versioned V = record {
          value = update row.value;
          revision = row.revision + 1;
        } in
          run l (suc rounds) quiet t key update ≡ (set key next t, wrote next)
    unfolding run judgement compare_and_set after_write
    quiet_wrote j a = ground arith
