-- ===== src/Jobs/Record.antt =====
-- `SegmentJobSchema` of packages/domain/src/index.ts with the types that it names, and
-- `finishLatestAttempt` of packages/application/src/session-jobs.ts.
use vrrelay.Prelude.{ℕ, String, Bool, true, false, Option, some, List, [], ◌∷◌, if◌then◌else◌}
use vrrelay.Producer.Updates.{with_error}

pub data JobState : Type 0 where
  queued leased running complete failed cancelled : JobState

pub data AttemptState : Type 0 where
  running complete failed cancelled : AttemptState

pub record JobAttempt : Type 0 where
  pub attempt : ℕ
  pub node_id : String
  pub state : AttemptState
  pub started_at : ℕ
  pub completed_at : Option ℕ
  pub error_message : Option String

pub record SegmentJob : Type 0 where
  pub id : String
  pub content_key : String
  pub session_id : String
  pub segment_index : ℕ
  pub state : JobState
  pub attempts : ℕ
  pub owner_node_id : Option String
  pub lease_expires_at : Option ℕ
  pub started_at : Option ℕ
  pub completed_at : Option ℕ
  pub error_message : Option String
  pub worker_history : List JobAttempt
  pub created_at : ℕ
  pub updated_at : ℕ

abbrev pub is_running : AttemptState → Bool
is_running AttemptState.running = true
is_running _ = false

-- Closes the last attempt if it runs.
unfoldable pub close_latest : AttemptState → Option String → ℕ → List JobAttempt → List JobAttempt
close_latest state error now [] = []
close_latest state error now (a ∷ []) =
    (if is_running a.state
      then record a {
        state = state;
        completed_at = some now;
        error_message = with_error error a.error_message;
      }
      else a)
    ∷ []
close_latest state error now (a ∷ b ∷ rest) = a ∷ close_latest state error now (b ∷ rest)

unfoldable pub finish_latest : SegmentJob → AttemptState → Option String → ℕ → SegmentJob
finish_latest job state error now = record job {
  worker_history = close_latest state error now job.worker_history;
}
