-- ===== src/Producer/Fencing.antt =====
-- A producer of an old generation cannot write: what `transition` guarantees against interference.
use vrrelay.Prelude.{ℕ, ◌+◌, ◌≤◌, String, ◌≡◌, true, some, arith}
use vrrelay.Prelude.Maps.{get, set}
use vrrelay.Repository.{Versioned, Table}
use vrrelay.Repository.Interference.{Grows}
use vrrelay.Repository.Loop.{Others, wrote, conflicted}
use vrrelay.Repository.Rounds.{run-Replaced, run-conflicted}
use vrrelay.Producer.Record.{VodProducer, is_active}
use vrrelay.Producer.Transition.{of_generation, transition}

-- The row that a transition's write replaced, what it became, and the table `end` after it.
pub record Fenced (session_id : String) (generation : ℕ) (update : VodProducer → VodProducer)
    (table end : Table VodProducer) (next : Versioned VodProducer) : Type 0 where
  pub before : Table VodProducer
  pub row : Versioned VodProducer
  pub later : Grows table before
  pub stood : get session_id before ≡ some row
  pub same_generation : row.value.generation ≡ generation
  pub was_active : is_active row.value.state ≡ true
  pub value : next.value ≡ update row.value
  pub revision : next.revision ≡ row.revision + 1
  pub after : end ≡ set session_id next before

module _ (others : Others VodProducer)
    (grow : (n : ℕ) (t : Table VodProducer) → Grows t (others n t)) (session_id : String)
    (generation : ℕ) (update : VodProducer → VodProducer) (t : Table VodProducer) where
  -- Fencing. Whatever other processes do to the table between its reads and its writes, as long as
  -- they only add rows and move revisions on, a transition that writes has replaced a row of its own
  -- generation, in an active state, by the update of just that row, and the row's revision went up
  -- by one; and the table ends as it was before the write, with just that row replaced.
  pub transition-Fenced :
      (next : Versioned VodProducer)
      → (transition others t session_id generation update).1 ≡ wrote next
      → Fenced session_id generation update t
          (transition others t session_id generation update).0
          next
  unfolding transition
  transition-Fenced next e =
      let r = run-Replaced (of_generation generation) others grow session_id update 5 t next e in
      record {
        before = r.before;
        row = r.row;
        later = r.later;
        stood = r.stood;
        same_generation = ground (arith, r.passed);
        was_active = r.was_allowed;
        value = r.value;
        revision = r.revision;
        after = r.after;
      }

  -- A transition gives up with a conflict only if others wrote the row in each of its five rounds:
  -- its revision is then higher by five at least.
  pub transition-conflicted :
      (row : Versioned VodProducer)
      → get session_id t ≡ some row
      → (transition others t session_id generation update).1 ≡ conflicted
      → (row' : Versioned VodProducer) × (get session_id
            (transition others t session_id generation update).0
          ≡ some row')
        × (row.revision + 5 ≤ row'.revision)
  unfolding transition
  transition-conflicted row stood e =
      run-conflicted (of_generation generation) others grow session_id update 5 t row stood e
