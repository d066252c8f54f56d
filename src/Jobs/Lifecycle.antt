-- ===== src/Jobs/Lifecycle.antt =====
-- Which states a job goes through, whatever the nodes do at the same time.
use vrrelay.Prelude.{
  ℕ, ◌+◌, String, true, false, Option, none, some, ◌≡◌, refl, ◌⊎◌, inl, inr, arith,
}
use vrrelay.Prelude.Maps.{get, set}
use vrrelay.Repository.{Versioned}
use vrrelay.Repository.Interference.{Grows}
use vrrelay.Repository.Loop
use vrrelay.Repository.Loop.{Loop, Others, Outcome, wrote, stopped_by, conflicted}
use vrrelay.Repository.Rounds.{run-Replaced}
use vrrelay.Jobs.Record.{
  JobState, queued, leased, running, complete, failed, cancelled, AttemptState, SegmentJob,
}
use vrrelay.Jobs.Writes
use vrrelay.Jobs.Writes.{
  Jobs, Stop, active_loop, complete_loop, fail_loop, start_loop, transition_active, complete_job,
  fail_job, lease_renewed, attempt_begun, attempt_ended, restarted, is_cancelled,
}
use vrrelay.Jobs.Reruns
use vrrelay.Jobs.Reruns.{
  retry_loop, cancel_loop, recover_loop, retry_transition, cancel_job, recover_job,
}

-- The methods that write a job which exists.
pub data Method : Type 0 where
  renews : ℕ → Method
  begins : ℕ → String → ℕ → Method
  ends : AttemptState → Option String → ℕ → Method
  completes : ℕ → Method
  fails : String → ℕ → Method
  retries cancels recovers : ℕ → Method

unfoldable pub perform : Method → Others SegmentJob → Jobs → String → Writes.Result
unfolding transition_active complete_job fail_job retry_transition cancel_job recover_job
perform (renews now) others t id = transition_active others t id (lease_renewed now)
perform (begins attempt node now) others t id =
    transition_active others t id (attempt_begun attempt node now)
perform (ends state error now) others t id =
    transition_active others t id (attempt_ended state error now)
perform (completes at) others t id = complete_job at others t id
perform (fails message now) others t id = fail_job message now others t id
perform (retries now) others t id = retry_transition now others t id
perform (cancels now) others t id = cancel_job now others t id
perform (recovers now) others t id = recover_job now others t id

-- The lifecycle: the states that a method may find, and the state that it leaves.
pub data Moves : Method → JobState → JobState → Type 0 where
  renewed : (s : JobState) (now : ℕ) → (s ≡ leased) ⊎ (s ≡ running) → Moves (renews now) s s
  begun :
      (s : JobState) (k : ℕ) (node : String) (now : ℕ)
      → (s ≡ leased) ⊎ (s ≡ running)
      → Moves (begins k node now) s s
  ended :
      (s : JobState) (a : AttemptState) (error : Option String) (now : ℕ)
      → (s ≡ leased) ⊎ (s ≡ running)
      → Moves (ends a error now) s s
  completed :
      (s u : JobState) (now : ℕ)
      → (s ≡ leased) ⊎ (s ≡ running)
      → u ≡ complete
      → Moves (completes now) s u
  failed_from :
      (s u : JobState) (m : String) (now : ℕ)
      → (s ≡ queued) ⊎ (s ≡ leased) ⊎ (s ≡ running)
      → u ≡ failed
      → Moves (fails m now) s u
  requeued :
      (s u : JobState) (now : ℕ)
      → (s ≡ failed) ⊎ (s ≡ cancelled)
      → u ≡ queued
      → Moves (retries now) s u
  cancelled_from :
      (s u : JobState) (now : ℕ)
      → (s ≡ queued) ⊎ (s ≡ leased) ⊎ (s ≡ running)
      → u ≡ cancelled
      → Moves (cancels now) s u
  recovered :
      (s u : JobState) (now : ℕ)
      → (s ≡ leased) ⊎ (s ≡ running)
      → u ≡ queued
      → Moves (recovers now) s u

abbrev loop_of : Method → Loop SegmentJob Stop
loop_of (renews now) = active_loop
loop_of (begins attempt node now) = active_loop
loop_of (ends state error now) = active_loop
loop_of (completes at) = complete_loop
loop_of (fails message now) = fail_loop
loop_of (retries now) = retry_loop
loop_of (cancels now) = cancel_loop
loop_of (recovers now) = recover_loop now

abbrev update_of : Method → SegmentJob → SegmentJob
update_of (renews now) = lease_renewed now
update_of (begins attempt node now) = attempt_begun attempt node now
update_of (ends state error now) = attempt_ended state error now
update_of (completes at) = Writes.completed at
update_of (fails message now) = Writes.failed message now
update_of (retries now) = Reruns.requeued now
update_of (cancels now) = Reruns.cancelled now
update_of (recovers now) = Reruns.recovered now

perform_lem :
    (m : Method) (others : Others SegmentJob) (t : Jobs) (id : String)
    → perform m others t id ≡ Loop.run (loop_of m) 5 others t id (update_of m)
unfolding perform
perform_lem (renews now) others t id = refl
perform_lem (begins attempt node now) others t id = refl
perform_lem (ends state error now) others t id = refl
perform_lem (completes at) others t id = refl
perform_lem (fails message now) others t id = refl
perform_lem (retries now) others t id = refl
perform_lem (cancels now) others t id = refl
perform_lem (recovers now) others t id = refl

active_states :
    (j : SegmentJob) → active_loop.judge j ≡ none → (j.state ≡ leased) ⊎ (j.state ≡ running)
active_states j p = ground arith

open_states :
    (s : JobState) → Writes.is_final s ≡ false → (s ≡ queued) ⊎ (s ≡ leased) ⊎ (s ≡ running)
open_states queued h = inl refl
open_states leased h = inr (inl refl)
open_states running h = inr (inr refl)
open_states complete h = cc
open_states failed h = cc
open_states cancelled h = cc

leased_or_running :
    (s : JobState) → Writes.is_leased_or_running s ≡ true → (s ≡ leased) ⊎ (s ≡ running)
leased_or_running s h = ground arith

fits :
    (m : Method) (j : SegmentJob)
    → (loop_of m).judge j ≡ none
    → (loop_of m).allowed j ≡ true
    → Moves m j.state (update_of m j).state
unfolding lease_renewed attempt_begun attempt_ended Writes.completed Writes.failed Reruns.requeued
    Reruns.cancelled Reruns.recovered
fits (renews now) j p a = renewed _ now (active_states j p)
fits (begins attempt node now) j p a = begun _ attempt node now (active_states j p)
fits (ends state error now) j p a = ended _ state error now (active_states j p)
fits (completes at) j p a = completed _ _ at (leased_or_running j.state a) refl
fits (fails message now) j p a =
    failed_from _ _ message now (open_states j.state (ground arith)) refl
fits (retries now) j p a = requeued _ _ now (ground arith) refl
fits (cancels now) j p a = cancelled_from _ _ now (open_states j.state (ground arith)) refl
fits (recovers now) j p a = recovered _ _ now (leased_or_running j.state a) refl

-- Whatever other processes write meanwhile, as long as rows stay and revisions move on: a method
-- that writes has replaced a row of the job, found in a state from which the lifecycle lets the
-- method go, by one in the state to which it leads, one revision on, and nothing else in the table.
pub perform-Moves :
    (m : Method) (others : Others SegmentJob)
    → ((n : ℕ) (u : Jobs) → Grows u (others n u))
    → (t : Jobs) (id : String) (next : Versioned SegmentJob)
    → (perform m others t id).1 ≡ wrote next
    → (before : Jobs) × (row : Versioned SegmentJob) × Grows t before
      × (get id before ≡ some row)
      × Moves m row.value.state next.value.state
      × (next.revision ≡ row.revision + 1)
      × ((perform m others t id).0 ≡ set id next before)
perform-Moves m others grow t id next e =
    let r =
      run-Replaced (loop_of m) others grow id (update_of m) 5 t next
        (rw (perform_lem m others t id) at e) in
    (
      r.before,
      r.row,
      r.later,
      r.stood,
      rw r.value (fits m r.row.value r.passed r.was_allowed),
      r.revision,
      rw (perform_lem m others t id) r.after,
    )
