-- ===== src/Producer/Active.antt =====
-- The state that the coordinator keeps in memory for a producer that runs here, `ActiveProducer` of
-- vod-producer-coordinator.ts, and the methods that change it without waiting. The set of waiters is
-- their number; `aborted` is the controller's signal.
use vrrelay.Prelude.{
  ℕ, ◌+◌, ◌-◌, ◌*◌, String, max, Bool, true, false, ◌&&◌, ◌||◌, not, Option, none, some, ◌==◌, ltb,
  leb, if◌then◌else◌,
}
use vrrelay.Producer.Record.{BufferState, catching_up, buffered}
use vrrelay.Producer.Watermarks.{
  is_covered, buffer_ms, Rate, catchup_rate, Pacer, pacer_state, set_rate,
}

pub data StopState : Type 0 where
  idle switching cancelled : StopState

pub record SwitchCandidate : Type 0 where
  pub index : ℕ
  pub viewers : ℕ
  pub observed_at : ℕ

pub record Active : Type 0 where
  pub generation : ℕ
  pub aborted : Bool
  pub owner : String
  pub provider_id : String
  pub start_segment_index : ℕ
  pub anchor_segment : ℕ
  pub anchor_at : ℕ
  pub last_applied_anchor_at : ℕ
  pub demanded_segment_index : ℕ
  pub last_published : Option ℕ
  pub last_demand_at : ℕ
  pub placement_locked : Bool
  pub pacing : Pacer
  pub published_any : Bool
  pub pending_waiters : ℕ
  pub watch_started_at : Option ℕ
  pub switch_candidate : Option SwitchCandidate
  pub progress_stall : Bool
  pub stop_state : Option StopState

-- The options that the methods read, their defaults filled in.
pub record Options : Type 0 where
  pub idle_timeout_ms : ℕ
  pub low_watermark_ms : ℕ
  pub high_watermark_ms : ℕ
  pub maximum_rate : Rate
  pub stall_timeout_ms : Option ℕ

abbrev pub is_catching_up : BufferState → Bool
is_catching_up catching_up = true
is_catching_up buffered = false

-- The audience's position that wins, as `#dominantDemand` returns it.
pub record Dominant : Type 0 where
  pub index : ℕ
  pub viewers : ℕ
  pub current_viewers : ℕ
  pub observed_at : ℕ
  pub anchor : Option (ℕ × ℕ)

apply_found : Option (ℕ × ℕ) → Active → Active
apply_found none a = a
apply_found (some (segment, observed_at)) a =
    if leb observed_at a.last_applied_anchor_at then a else record a {
      anchor_segment = segment;
      anchor_at = observed_at;
      last_applied_anchor_at = observed_at;
    }

-- `#applyPlaybackAnchor`
unfoldable pub apply_anchor : Active → Dominant → Active
unfolding apply_found
apply_anchor a d = apply_found d.anchor a

-- `#shouldSwitch`
unfoldable pub should_switch : Options → Active → ℕ → ℕ → ℕ → ℕ → Bool
should_switch o a demanded current_viewers demanded_viewers segment_ms =
    not (is_covered a.start_segment_index a.last_published demanded o.low_watermark_ms segment_ms)
    && ((current_viewers == 0) || ltb current_viewers demanded_viewers)

-- `#resetProgressWatch`
unfoldable pub reset_watch : Active → ℕ → Active
reset_watch a observed_at = record a {
  watch_started_at =
      if a.published_any && ltb 0 a.pending_waiters && is_catching_up (pacer_state a.pacing)
      then some observed_at
      else none;
}

-- With a new pace: a producer that begins to catch up again starts the watch again.
unfoldable pub with_pace : Pacer → Active → ℕ → Active
unfolding reset_watch
with_pace p a now =
    let b = record a { pacing = p } in
    if not (is_catching_up (pacer_state a.pacing)) && is_catching_up (pacer_state p)
    then reset_watch b now
    else b

paced : Option Pacer → Active → ℕ → Option Active
paced none a now = none
paced (some p) a now = some (with_pace p a now)

set_paced : Option Rate → Active → ℕ → Option Active
unfolding paced
set_paced none a now = none
set_paced (some r) a now = paced (set_rate a.pacing r) a now

-- `#reconcilePacing`; `none` is an error that it throws.
unfoldable pub reconcile_pacing : Options → ℕ → Active → ℕ → Option Active
unfolding set_paced
reconcile_pacing o segment_ms a now =
    set_paced
      (catchup_rate (buffer_ms a.anchor_segment a.last_published segment_ms a.anchor_at now)
        o.low_watermark_ms o.high_watermark_ms o.maximum_rate)
      a now

-- `#progressStalled`'s time limit: the configured one if it is positive.
unfoldable pub stall_timeout : Option ℕ → ℕ → ℕ
stall_timeout none segment_ms = max 45000 (2 * segment_ms)
stall_timeout (some ms) segment_ms = if ltb 0 ms then ms else max 45000 (2 * segment_ms)

stalled_since : Option ℕ → ℕ → ℕ → Bool
stalled_since none timeout observed_at = false
stalled_since (some since) timeout observed_at = leb (since + timeout) observed_at

-- `#progressStalled`
unfoldable pub progress_stalled : Options → ℕ → Active → ℕ → Bool
unfolding stalled_since stall_timeout
progress_stalled o segment_ms a observed_at =
    a.published_any
    && ltb 0 a.pending_waiters
    && is_catching_up (pacer_state a.pacing)
    && stalled_since a.watch_started_at (stall_timeout o.stall_timeout_ms segment_ms) observed_at

-- A waiter of `#waitForObject` comes: the first one starts the watch.
unfoldable pub add_waiter : Active → ℕ → Active
unfolding reset_watch
add_waiter a now =
    let b = record a { pending_waiters = a.pending_waiters + 1 } in
    if a.pending_waiters == 0 then reset_watch b now else b

-- A waiter goes: the last one ends the watch.
unfoldable pub remove_waiter : Active → Active
remove_waiter a =
    let left = a.pending_waiters - 1 in
    record a {
      pending_waiters = left;
      watch_started_at = if left == 0 then none else a.watch_started_at;
    }
