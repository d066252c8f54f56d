-- ===== src/Jobs/Writes.antt =====
-- The methods of `SessionJobCoordinator` that change a job's record, with a repository: each is the
-- optimistic loop with five rounds. A loop that ends without a write gives the reason.
use vrrelay.Prelude.{
  ℕ, ◌+◌, String, Bool, true, false, not, ◌==◌, Option, none, some, [], ◌∷◌, ◌++◌, if◌then◌else◌,
}
use vrrelay.Repository.{Table, Versioned}
use vrrelay.Repository
use vrrelay.Repository.Loop
use vrrelay.Repository.Loop.{Loop, Others, Outcome, wrote, stopped_by, conflicted}
use vrrelay.Jobs.Record.{JobState, AttemptState, JobAttempt, SegmentJob, finish_latest}

abbrev pub Jobs : Type 0
Jobs = Table SegmentJob

-- Why a method ends without a write: an error that it throws, or the record that it returns.
pub data Stop : Type 0 where
  not_found cancelled_error conflict : Stop
  returns : SegmentJob → Stop
  nothing : Stop

abbrev pub Result : Type 0
Result = Jobs × Outcome SegmentJob Stop

abbrev pub is_leased_or_running : JobState → Bool
is_leased_or_running JobState.leased = true
is_leased_or_running JobState.running = true
is_leased_or_running _ = false

abbrev pub is_final : JobState → Bool
is_final JobState.complete = true
is_final JobState.failed = true
is_final JobState.cancelled = true
is_final _ = false

abbrev pub is_failed_or_cancelled : JobState → Bool
is_failed_or_cancelled JobState.failed = true
is_failed_or_cancelled JobState.cancelled = true
is_failed_or_cancelled _ = false

abbrev pub is_cancelled : JobState → Bool
is_cancelled JobState.cancelled = true
is_cancelled _ = false

abbrev pub is_complete : JobState → Bool
is_complete JobState.complete = true
is_complete _ = false

abbrev pub run_loop :
    Loop SegmentJob Stop → Others SegmentJob → Jobs → String → (SegmentJob → SegmentJob) → Result
run_loop l others table id update = Loop.run l 5 others table id update

-- `#transitionActiveJob`
abbrev pub active_loop : Loop SegmentJob Stop
active_loop = record {
  judge = λ j.
      if is_cancelled j.state
      then some cancelled_error
      else if is_leased_or_running j.state
      then none
      else some conflict;
  missing = not_found;
  allowed = λ j. is_leased_or_running j.state;
  refused = λ j. if is_cancelled j.state then cancelled_error else conflict;
}

unfoldable pub transition_active :
    Others SegmentJob → Jobs → String → (SegmentJob → SegmentJob) → Result
transition_active others table id update = run_loop active_loop others table id update

-- `#completeJob` over `completeSegmentJob` of the repository.
unfoldable pub completed : ℕ → SegmentJob → SegmentJob
unfolding finish_latest
completed at j = record (finish_latest j AttemptState.complete none at) {
  state = JobState.complete;
  lease_expires_at = none;
  completed_at = some at;
  updated_at = at;
}

abbrev pub complete_loop : Loop SegmentJob Stop
complete_loop = record {
  judge = λ j.
      if is_cancelled j.state
      then some cancelled_error
      else if is_complete j.state
      then some (returns j)
      else none;
  missing = not_found;
  allowed = λ j. is_leased_or_running j.state;
  refused = λ j.
      if is_cancelled j.state
      then cancelled_error
      else if is_complete j.state
      then returns j
      else conflict;
}

unfoldable pub complete_job : ℕ → Others SegmentJob → Jobs → String → Result
complete_job at others table id = run_loop complete_loop others table id (completed at)

-- `#failJob`
unfoldable pub failed : String → ℕ → SegmentJob → SegmentJob
unfolding finish_latest
failed message now j = record (finish_latest j AttemptState.failed (some message) now) {
  state = JobState.failed;
  error_message = some message;
  updated_at = now;
}

abbrev pub is_open : JobState → Bool
is_open JobState.queued = true
is_open JobState.leased = true
is_open JobState.running = true
is_open _ = false

abbrev pub fail_loop : Loop SegmentJob Stop
fail_loop = record {
  judge = λ j. if is_final j.state then some (returns j) else none;
  missing = not_found;
  allowed = λ j. is_open j.state;
  refused = returns;
}

unfoldable pub fail_job : String → ℕ → Others SegmentJob → Jobs → String → Result
fail_job message now others table id = run_loop fail_loop others table id (failed message now)

-- `#startJob` where the job exists already: the new lease, over the attempts and the history so far.
-- The first round takes the record that the creation found as read. (A row that is gone at the write
-- is read again there and ends the loop here; rows are never deleted.)
unfoldable pub restarted : SegmentJob → SegmentJob → SegmentJob
restarted initial j = record initial {
  attempts = j.attempts;
  worker_history = j.worker_history;
  created_at = j.created_at;
}

abbrev pub is_not_cancelled : JobState → Bool
is_not_cancelled s = not (is_cancelled s)

abbrev pub start_loop : Loop SegmentJob Stop
start_loop = record {
  judge = λ j. if is_cancelled j.state then some cancelled_error else none;
  missing = not_found;
  allowed = λ j. is_not_cancelled j.state;
  refused = λ j. if is_cancelled j.state then cancelled_error else conflict;
}

abbrev pub start_created :
    Jobs × Bool × Versioned SegmentJob → Others SegmentJob → SegmentJob → Result
start_created (table, true, row) others initial = (table, wrote row)
start_created (table, false, row) others initial =
    run_loop start_loop (λ n t. if n == 9 then t else others n t) table initial.id
      (restarted initial)

unfoldable pub start_job : Others SegmentJob → Jobs → SegmentJob → Result
start_job others table initial =
    start_created (Repository.insert table initial.id initial) others initial

-- The updates that `generateDistributedSegment` hands to `#transitionActiveJob`.
unfoldable pub lease_renewed : ℕ → SegmentJob → SegmentJob
lease_renewed now j = record j { lease_expires_at = some (now + 120000); updated_at = now }

unfoldable pub attempt_begun : ℕ → String → ℕ → SegmentJob → SegmentJob
attempt_begun attempt node_id now j = record j {
  owner_node_id = some node_id;
  attempts = attempt;
  worker_history = j.worker_history ++ begun ∷ [];
  updated_at = now;
}
  where
    begun : JobAttempt
    begun = record {
      attempt = attempt;
      node_id = node_id;
      state = AttemptState.running;
      started_at = now;
      completed_at = none;
      error_message = none;
    }

unfoldable pub attempt_ended : AttemptState → Option String → ℕ → SegmentJob → SegmentJob
unfolding finish_latest
attempt_ended state error now j = record (finish_latest j state error now) { updated_at = now }
