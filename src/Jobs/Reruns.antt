-- ===== src/Jobs/Reruns.antt =====
-- The methods of `SessionJobCoordinator` that send a job back or end it from outside: retry, cancel
-- and recover.
use vrrelay.Prelude.{ℕ, String, Bool, true, false, ◌&&◌, none, some, if◌then◌else◌}
use vrrelay.Repository.Loop.{Loop, Others}
use vrrelay.Producer.Recovery.{has_expired}
use vrrelay.Jobs.Record.{JobState, AttemptState, SegmentJob, finish_latest}
use vrrelay.Jobs.Writes.{
  Jobs, Stop, not_found, conflict, nothing, Result, is_leased_or_running, is_final,
  is_failed_or_cancelled, run_loop,
}

-- `#retryJobTransition`
unfoldable pub requeued : ℕ → SegmentJob → SegmentJob
requeued now j = record j {
  state = JobState.queued;
  attempts = 0;
  owner_node_id = none;
  lease_expires_at = none;
  completed_at = none;
  error_message = none;
  updated_at = now;
}

abbrev pub retry_loop : Loop SegmentJob Stop
retry_loop = record {
  judge = λ j. if is_failed_or_cancelled j.state then none else some conflict;
  missing = not_found;
  allowed = λ j. is_failed_or_cancelled j.state;
  refused = λ _. conflict;
}

unfoldable pub retry_transition : ℕ → Others SegmentJob → Jobs → String → Result
retry_transition now others table id = run_loop retry_loop others table id (requeued now)

-- `cancelJob` up to the write, over `cancelSegmentJob` of the repository.
unfoldable pub cancelled : ℕ → SegmentJob → SegmentJob
unfolding finish_latest
cancelled now j =
    record (finish_latest j AttemptState.cancelled (some "Cancelled by an administrator") now) {
      state = JobState.cancelled;
      lease_expires_at = none;
      updated_at = now;
    }

abbrev pub is_cancellable : JobState → Bool
is_cancellable JobState.complete = false
is_cancellable JobState.cancelled = false
is_cancellable _ = true

abbrev pub cancel_loop : Loop SegmentJob Stop
cancel_loop = record {
  judge = λ j. if is_final j.state then some nothing else none;
  missing = nothing;
  allowed = λ j. is_cancellable j.state;
  refused = λ _. nothing;
}

unfoldable pub cancel_job : ℕ → Others SegmentJob → Jobs → String → Result
cancel_job now others table id = run_loop cancel_loop others table id (cancelled now)

-- The attempts of `recoverExpiredJobs` for one job.
unfoldable pub recovered : ℕ → SegmentJob → SegmentJob
unfolding finish_latest
recovered now j =
    record (finish_latest j AttemptState.failed (some "Recovered expired segment job lease") now) {
      state = JobState.queued;
      owner_node_id = none;
      lease_expires_at = none;
      error_message = none;
      updated_at = now;
    }

abbrev pub recover_loop : ℕ → Loop SegmentJob Stop
recover_loop now = record {
  judge = λ j.
      if is_leased_or_running j.state && has_expired j.lease_expires_at now
      then none
      else some nothing;
  missing = nothing;
  allowed = λ j. is_leased_or_running j.state;
  refused = λ _. nothing;
}

unfoldable pub recover_job : ℕ → Others SegmentJob → Jobs → String → Result
recover_job now others table id = run_loop (recover_loop now) others table id (recovered now)
