-- ===== src/Producer/Refresh.antt =====
-- `#refreshDemand` of vod-producer-coordinator.ts: the periodic check of a running producer. What it
-- awaits is an argument: the session as the callback returns it, the recent demands of the two reads
-- and the readings of the clock. `refresh` is the check up to its write, `refresh_demand` is all of it.
use vrrelay.Prelude.{
  ℕ, ◌+◌, max, String, Bool, true, false, ◌&&◌, Option, none, some, ◌==◌, leb, if◌then◌else◌, List,
}
use vrrelay.Repository.{Table}
use vrrelay.Repository.Loop.{Others, Outcome, wrote, stopped_by, conflicted}
use vrrelay.Coordination.Demands.{SegmentDemand}
use vrrelay.Producer.Record.{BufferState, VodProducer}
use vrrelay.Producer.Updates.{set_demand}
use vrrelay.Producer.Transition.{transition}
use vrrelay.Producer.Watermarks.{forward_join, pacer_state}
use vrrelay.Producer.Active.{
  Active, Options, idle, switching, cancelled, SwitchCandidate, Dominant, apply_anchor,
  should_switch, reconcile_pacing, progress_stalled,
}
use vrrelay.Producer.Demand.{distance, dominant_demand, latest}

-- What the callback says of the session.
pub data SessionView : Type 0 where
  absent stopped present : SessionView

pub record Inputs : Type 0 where
  pub session : SessionView
  pub demands : List SegmentDemand
  pub demands_again : List SegmentDemand
  pub now : ℕ
  pub now_again : ℕ
  pub now_last : ℕ

-- The update that is handed to `#transition`.
pub record DemandWrite : Type 0 where
  pub index : ℕ
  pub anchor : ℕ
  pub anchor_at : ℕ
  pub buffer : BufferState
  pub demanded_at : ℕ

pub record Refreshed : Type 0 where
  pub active : Active
  pub drops_retry : Bool
  pub write : Option DemandWrite

abbrev pub ended : Active → Bool → Refreshed
ended a drops = record { active = record a { aborted = true }; drops_retry = drops; write = none }

-- Whether a candidate asks for the same switch as the dominant demand, and since a second.
unfoldable pub is_confirmed : Options → ℕ → Option SwitchCandidate → Dominant → ℕ → Bool
is_confirmed o segment_ms none d now = false
is_confirmed o segment_ms (some c) d now =
    (c.viewers == d.viewers)
    && leb (distance c.index d.index) (forward_join o.low_watermark_ms segment_ms)
    && leb (c.observed_at + 1000) now

-- The end of the check, after the demand was followed or a switch proposed.
unfoldable pub settle : Options → ℕ → Inputs → Dominant → Option Active → Option Refreshed
settle o segment_ms i d none = none
settle o segment_ms i d (some a) = some (
    if progress_stalled o segment_ms a i.now_last
    then ended (record a { progress_stall = true }) false
    else record {
      active = a;
      drops_retry = false;
      write = some (record {
        index = d.index;
        anchor = a.anchor_segment;
        anchor_at = a.anchor_at;
        buffer = pacer_state a.pacing;
        demanded_at = a.last_demand_at;
      });
    })

-- The candidate that is observed now.
abbrev pub proposed : Active → Dominant → ℕ → Active
proposed a d now = record a {
  switch_candidate = some (record { index = d.index; viewers = d.viewers; observed_at = now });
}

abbrev pub followed : Active → Dominant → Active
followed a d = record (apply_anchor (record a { switch_candidate = none }) d) {
  demanded_segment_index = d.index;
}

unfoldable pub follow : Options → ℕ → Inputs → Active → Dominant → Option Refreshed
unfolding settle
follow o segment_ms i a d =
    if should_switch o a d.index d.current_viewers d.viewers segment_ms
    then (if is_confirmed o segment_ms a.switch_candidate d i.now
        then some (ended (record a { stop_state = some switching }) false)
        else settle o segment_ms i d
            (reconcile_pacing o segment_ms (proposed a d i.now) i.now_again))
    else settle o segment_ms i d (reconcile_pacing o segment_ms (followed a d) i.now_again)

unfoldable pub check_demand : Options → ℕ → Inputs → Active → Option Refreshed
unfolding follow
check_demand o segment_ms i a =
    let b = record a { last_demand_at = max a.last_demand_at (latest i.demands) } in
    if (a.pending_waiters == 0) && leb (b.last_demand_at + o.idle_timeout_ms) i.now
    then some (ended (record b { stop_state = some idle }) false)
    else follow o segment_ms i b
        (dominant_demand i.demands_again segment_ms b.demanded_segment_index (some b) i.now_again)

unfoldable pub check_session : SessionView → Options → ℕ → Inputs → Active → Option Refreshed
unfolding check_demand
check_session absent o segment_ms i a = some (ended (record a { stop_state = some cancelled }) true)
check_session stopped o segment_ms i a =
    some (ended (record a { stop_state = some cancelled }) true)
check_session present o segment_ms i a = check_demand o segment_ms i a

-- The check up to its write, if it comes to one. `none` is an error that the pacer throws.
unfoldable pub refresh : Options → ℕ → Inputs → Active → Option Refreshed
unfolding check_session
refresh o segment_ms i a =
    if a.aborted
    then some (record { active = a; drops_retry = false; write = none })
    else check_session i.session o segment_ms i a

-- How the whole check ends: it returns, or it throws the pacer's error or the `ConflictError` of the write.
pub data Checked : Type 0 where
  returns : Refreshed → Checked
  bad_pace : Checked
  conflicts : Refreshed → Checked

unfoldable pub wrote_demand : Refreshed → Outcome VodProducer (Unit {0}) → Checked
wrote_demand r (wrote row) = returns r
wrote_demand r (stopped_by e) = returns r
wrote_demand r conflicted = conflicts r

-- The update of the record that a check hands to `#transition`.
unfoldable pub demand_update : Options → DemandWrite → ℕ → VodProducer → VodProducer
demand_update o w now =
    set_demand w.index w.anchor w.anchor_at w.buffer w.demanded_at o.idle_timeout_ms now

unfoldable pub write_demand :
    Options
    → Others VodProducer
    → String
    → ℕ
    → ℕ
    → Table VodProducer
    → Refreshed
    → Option DemandWrite
    → Table VodProducer × Checked
write_demand o others session_id generation now t r none = (t, returns r)
write_demand o others session_id generation now t r (some w) =
    let written = transition others t session_id generation (demand_update o w now) in
    (written.0, wrote_demand r written.1)

unfoldable pub checked :
    Options
    → Others VodProducer
    → String
    → ℕ
    → ℕ
    → Table VodProducer
    → Option Refreshed
    → Table VodProducer × Checked
checked o others session_id generation now t none = (t, bad_pace)
checked o others session_id generation now t (some r) =
    write_demand o others session_id generation now t r r.write

-- `#refreshDemand`: others write to the table while it waits, and `now` is the time of its write.
unfoldable pub refresh_demand :
    Options
    → ℕ
    → Inputs
    → Active
    → Others VodProducer
    → String
    → ℕ
    → Table VodProducer
    → Table VodProducer × Checked
refresh_demand o segment_ms i a others session_id now t =
    checked o others session_id a.generation now t (refresh o segment_ms i a)
