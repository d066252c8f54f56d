-- ===== src/Jobs/Restarting.antt =====
-- What starting a job does to a record that is there already.
use vrrelay.Prelude.{
  ℕ, ◌+◌, none, some, ◌==◌, if◌then◌else◌, ◌≡◌, ◌≢◌, ◌⊎◌, inl, inr, arith, Option-cases, Bool-cases,
}
use vrrelay.Prelude.Maps.{get, set}
use vrrelay.Repository.{Versioned, insert}
use vrrelay.Repository.Interference.{Grows, Grows-refl}
use vrrelay.Repository.Loop.{Others, wrote}
use vrrelay.Repository.Rounds.{run-Replaced}
use vrrelay.Jobs.Record.{cancelled, SegmentJob}
use vrrelay.Jobs.Writes.{Jobs, start_loop, start_job, restarted}

-- The others of all rounds but for the first read.
abbrev later_others : Others SegmentJob → Others SegmentJob
later_others others n t = if n == 9 then t else others n t

later_others-Grows :
    (others : Others SegmentJob)
    → ((n : ℕ) (u : Jobs) → Grows u (others n u))
    → (n : ℕ) (u : Jobs) → Grows u (later_others others n u)
later_others-Grows others grow n u = elim (Bool-cases (n == 9)) [
  | inl y ↦ rw y (Grows-refl u)
  | inr x ↦ rw x (grow n u)
]

-- The row that a start replaced, and the table `end` after it.
pub record Restarts (initial : SegmentJob) (t end : Jobs) (next : Versioned SegmentJob)
    : Type 0 where
  pub before : Jobs
  pub row : Versioned SegmentJob
  pub later : Grows t before
  pub stood : get initial.id before ≡ some row
  pub not_cancelled : row.value.state ≢ cancelled
  pub value : next.value ≡ restarted initial row.value
  pub attempts : next.value.attempts ≡ row.value.attempts
  pub history : next.value.worker_history ≡ row.value.worker_history
  pub revision : next.revision ≡ row.revision + 1
  pub after : end ≡ set initial.id next before

-- Whatever other processes write meanwhile, as long as rows stay and revisions move on: a start that
-- writes has either created the job's record where there was none, or replaced a record that was not
-- cancelled by the new lease, which keeps the number of attempts and their history, one revision on. Either
-- way nothing else in the table changes.
pub start_job-Restarts :
    (others : Others SegmentJob)
    → ((n : ℕ) (u : Jobs) → Grows u (others n u))
    → (t : Jobs) (initial : SegmentJob) (next : Versioned SegmentJob)
    → (start_job others t initial).1 ≡ wrote next
    → ((get initial.id t ≡ none)
        × (next ≡ record { value = initial; revision = 1 })
        × ((start_job others t initial).0 ≡ set initial.id next t))
      ⊎ Restarts initial t (start_job others t initial).0 next
unfolding start_job insert restarted
start_job-Restarts others grow t initial next e = elim (Option-cases (get initial.id t)) [
  | inl n ↦ inl (n, ground (arith, n, e), ground (arith, n, e))
  | inr (old, m) ↦
      let r =
        run-Replaced start_loop (later_others others) (later_others-Grows others grow) initial.id
          (restarted initial) 5 t next (simp m at e) in
      inr (record {
        before = r.before;
        row = r.row;
        later = r.later;
        stood = r.stood;
        not_cancelled = ground (arith, r.was_allowed);
        value = r.value;
        attempts = ground (arith, r.value);
        history = ground (arith, r.value);
        revision = r.revision;
        after = simp m r.after;
      })
]
