-- ===== src/Producer/Fences.antt =====
-- `ensure`, `stop`, `close` and `drain` of vod-producer-coordinator.ts, as far as they keep apart the
-- requests made before a stop from those made after it: the fences, and the tests that a request
-- makes against them. Each function is what the code does between two waits.
use vrrelay.Prelude.{
  ℕ, ◌+◌, ◌-◌, String, Bool, true, false, not, ◌||◌, ◌==◌, Option, none, some, Map, ltb,
  if◌then◌else◌, or_else, is_some,
}
use vrrelay.Prelude.Maps.{get, set, delete}
use vrrelay.Producer.Refresh.{SessionView, absent, stopped, present}

-- `stops` holds for each session the number of its latest stop operation.
pub record Fences : Type 0 where
  pub lifecycle : ℕ
  pub closed : Bool
  pub draining : Bool
  pub sessions : Map ℕ
  pub pending : Map ℕ
  pub stops : Map ℕ

-- The fences that a request read when it began.
pub record Token : Type 0 where
  pub lifecycle : ℕ
  pub session : ℕ

abbrev pub fence_of : String → Fences → ℕ
fence_of session f = or_else (get session f.sessions) 0

-- The beginning of `ensure`; `none` is one of its three errors.
unfoldable pub begin_ensure : Fences → String → Option (Fences × Token)
begin_ensure f session =
    if f.closed || f.draining || is_some (get session f.stops)
    then none
    else some (
      record f { pending = set session (or_else (get session f.pending) 0 + 1) f.pending },
      record { lifecycle = f.lifecycle; session = fence_of session f },
    )

-- The `finally` of `ensure`.
unfoldable pub end_ensure : Fences → String → Fences
end_ensure f session =
    let remaining = or_else (get session f.pending) 1 - 1 in
    if ltb 0 remaining then record f { pending = set session remaining f.pending } else record f {
      pending = delete session f.pending;
      sessions = if is_some (get session f.stops) then f.sessions else delete session f.sessions;
    }

-- `stop` up to its first wait, after the wait for the previous stop, and its `finally`.
unfoldable pub call_stop : Fences → String → ℕ → Fences
call_stop f session operation = record f { stops = set session operation f.stops }

unfoldable pub raise_fence : Fences → String → Fences
raise_fence f session = record f { sessions = set session (fence_of session f + 1) f.sessions }

abbrev is_operation : ℕ → Option ℕ → Bool
is_operation operation none = false
is_operation operation (some o) = o == operation

unfoldable pub end_stop : Fences → String → ℕ → Fences
end_stop f session operation =
    if is_operation operation (get session f.stops)
    then record f {
      stops = delete session f.stops;
      sessions = if is_some (get session f.pending) then f.sessions else delete session f.sessions;
    }
    else f

unfoldable pub close : Fences → Fences
close f = record f { closed = true; lifecycle = f.lifecycle + 1 }

unfoldable pub begin_drain : Fences → Fences
begin_drain f = if f.closed then f else record f { draining = true; lifecycle = f.lifecycle + 1 }

unfoldable pub end_drain : Fences → Fences
end_drain f = record f { draining = false }

pub data FenceError : Type 0 where
  was_stopped not_found session_stopped : FenceError

-- `#assertLifecycleNotFenced`
unfoldable pub lifecycle_fenced : Fences → ℕ → Bool
lifecycle_fenced f lifecycle = f.closed || f.draining || not (lifecycle == f.lifecycle)

unfoldable pub session_fenced : Fences → String → ℕ → Bool
session_fenced f session fence = not (fence == fence_of session f) || is_some (get session f.stops)

abbrev pub fence_error : SessionView → FenceError
fence_error absent = not_found
fence_error stopped = session_stopped
fence_error present = was_stopped

-- `#assertRequestNotFenced`: the error that it throws, if any.
unfoldable pub assert_request : Fences → String → Token → SessionView → Option FenceError
unfolding lifecycle_fenced session_fenced
assert_request f session token view =
    if lifecycle_fenced f token.lifecycle
    then some was_stopped
    else if session_fenced f session token.session
    then some (fence_error view)
    else none
