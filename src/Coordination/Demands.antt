-- ===== src/Coordination/Demands.antt =====
-- `recordSegmentDemand` and `listSegmentDemands` of local-infrastructure.ts: for each session, the
-- segment that each viewer asked for last. A comparison with `observedAtMs - windowMs`, which may
-- be negative, is written with the window on the other side.
use vrrelay.Prelude.{
  ℕ, ◌+◌, String, Bool, false, not, Option, none, some, [], ltb, leb, Map, if◌then◌else◌,
}
use vrrelay.Prelude.Maps.{get, set, put_inner, inner}
use vrrelay.Prelude.Unique.{retain}

pub record SegmentDemand : Type 0 where
  pub segment_index : ℕ
  pub observed_at : ℕ
  pub anchor_segment : Option ℕ
  pub anchor_observed_at : Option ℕ

pub record DemandInput : Type 0 where
  pub session_id : String
  pub viewer_hash : String
  pub segment_index : ℕ
  pub observed_at : ℕ
  pub window : ℕ
  pub discontinuity : Bool

-- `demand.observedAtMs < observedAtMs - windowMs`
unfoldable pub is_stale : ℕ → ℕ → SegmentDemand → Bool
is_stale observed_at window d = ltb (d.observed_at + window) observed_at

-- `preserveAnchor`
abbrev pub keeps_anchor : ℕ → ℕ → Option ℕ → Bool
keeps_anchor observed_at window none = false
keeps_anchor observed_at window (some at) = leb observed_at (at + window)

-- The anchor of the viewer's former entry, where it is still inside the window.
unfoldable pub carried : DemandInput → Option SegmentDemand → SegmentDemand → SegmentDemand
carried i none demand = demand
carried i (some former) demand =
    if keeps_anchor i.observed_at i.window former.anchor_observed_at
    then record demand {
      anchor_segment = former.anchor_segment;
      anchor_observed_at = former.anchor_observed_at;
    }
    else demand

-- The entry that a viewer's request leaves, given the viewer's former entry.
unfoldable pub new_demand : DemandInput → Option SegmentDemand → SegmentDemand
unfolding carried
new_demand i former =
    let bare : SegmentDemand = record {
      segment_index = i.segment_index;
      observed_at = i.observed_at;
      anchor_segment = none;
      anchor_observed_at = none;
    } in
    if i.discontinuity
    then record bare {
      anchor_segment = some i.segment_index;
      anchor_observed_at = some i.observed_at;
    }
    else carried i former bare

unfoldable pub record_demand : DemandInput → Map (Map SegmentDemand) → Map (Map SegmentDemand)
unfolding new_demand put_inner inner is_stale retain
record_demand i all =
    let demands = inner i.session_id all in
    let demand = new_demand i (get i.viewer_hash demands) in
    put_inner i.session_id
      (retain (λ d. not (is_stale i.observed_at i.window d)) (set i.viewer_hash demand demands)) all

list_found :
    Option (Map SegmentDemand)
    → String
    → ℕ
    → ℕ
    → Map (Map SegmentDemand)
    → Map (Map SegmentDemand) × Map SegmentDemand
list_found none session_id observed_at window all = (all, [])
list_found (some demands) session_id observed_at window all =
    let recent = retain (λ d. not (is_stale observed_at window d)) demands in
    (put_inner session_id recent all, recent)

-- The store afterwards, and the recent demands with their viewers.
unfoldable pub list_demands :
    String → ℕ → ℕ → Map (Map SegmentDemand) → Map (Map SegmentDemand) × Map SegmentDemand
unfolding list_found put_inner is_stale retain
list_demands session_id observed_at window all =
    list_found (get session_id all) session_id observed_at window all
