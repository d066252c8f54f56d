-- ===== src/Tests/Jobs.antt =====
-- A running job that is completed, and a cancelled one that is retried.
use vrrelay.Prelude.{◌+◌, ◌≡◌, ◌⊎◌, refl, none, some, [], ◌∷◌}
use vrrelay.Prelude.Maps.{get, set}
use vrrelay.Repository.{Versioned, compare_and_set, insert}
use vrrelay.Repository.Interference.{Grows, Grows-refl}
use vrrelay.Repository.Loop.{Others, run, judgement, after_write}
use vrrelay.Jobs.Record.{JobState, SegmentJob}
use vrrelay.Jobs.Writes.{Jobs, completed, complete_job, restarted, start_job}
use vrrelay.Jobs.Restarting.{Restarts, start_job-Restarts}
use vrrelay.Jobs.Lifecycle.{completes, perform, Moves, perform-Moves}

abbrev job : JobState → SegmentJob
job state = record {
  id = "j";
  content_key = "k";
  session_id = "s";
  segment_index = 4;
  state = state;
  attempts = 1;
  owner_node_id = some "node";
  lease_expires_at = some 60000;
  started_at = some 1000;
  completed_at = none;
  error_message = none;
  worker_history = [];
  created_at = 1000;
  updated_at = 1000;
}

abbrev row : JobState → Versioned SegmentJob
row state = record { value = job state; revision = 3 }

abbrev jobs : JobState → Jobs
jobs state = ("j", row state) ∷ []

abbrev nobody : Others SegmentJob
nobody n t = t

abbrev done : Versioned SegmentJob
done = record { value = completed 9000 (job JobState.running); revision = 4 }

perform-Moves_example :
    (before : Jobs) × (r : Versioned SegmentJob) × Grows (jobs JobState.running) before
    × (get "j" before ≡ some r)
    × Moves (completes 9000) r.value.state done.value.state
    × (4 ≡ r.revision + 1)
    × ((perform (completes 9000) nobody (jobs JobState.running) "j").0 ≡ set "j" done before)
unfolding perform complete_job run judgement compare_and_set after_write get set
perform-Moves_example =
    perform-Moves (completes 9000) nobody (λ _ t. Grows-refl t) (jobs JobState.running) "j" done
      refl

-- A new lease over the running job.
abbrev renewed : Versioned SegmentJob
renewed = record { value = restarted (job JobState.leased) (job JobState.running); revision = 4 }

start_job-Restarts_example :
    ((get "j" (jobs JobState.running) ≡ none)
      × (renewed ≡ record { value = job JobState.leased; revision = 1 })
      × ((start_job nobody (jobs JobState.running) (job JobState.leased)).0
          ≡ set "j" renewed (jobs JobState.running)))
    ⊎ Restarts
        (job JobState.leased)
        (jobs JobState.running)
        (start_job nobody (jobs JobState.running) (job JobState.leased)).0
        renewed
unfolding start_job insert run judgement compare_and_set after_write get set
start_job-Restarts_example =
    start_job-Restarts nobody (λ _ t. Grows-refl t) (jobs JobState.running) (job JobState.leased)
      renewed refl
