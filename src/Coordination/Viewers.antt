-- ===== src/Coordination/Viewers.antt =====
-- `recordViewer`, `countViewers` and `#pruneViewers` of local-infrastructure.ts: when each viewer of a
-- session was last seen, per edge and in total. The two keys of a session are taken to differ.
use Prim.Native.String
use vrrelay.Prelude.{ℕ, ◌+◌, String, Option, none, some, ltb, Map, length}
use vrrelay.Prelude.Maps.{get, set, put_inner, inner}
use vrrelay.Prelude.Unique.{retain}

pub record ViewerInput : Type 0 where
  pub session_id : String
  pub edge_node_id : String
  pub viewer_hash : String
  pub observed_at : ℕ
  pub window : ℕ

pub record ViewerCounts : Type 0 where
  pub edge_viewers : ℕ
  pub total_viewers : ℕ

abbrev pub total_key : String → String
total_key session_id = String.◌++◌ "viewers:" (String.◌++◌ session_id ":total")

abbrev pub edge_key : String → String → String
edge_key session_id node_id =
    String.◌++◌ "viewers:" (String.◌++◌ session_id (String.◌++◌ ":edge:" node_id))

-- `#pruneViewers`: a viewer stays while `observedAt > observedAtMs - windowMs`.
unfoldable pub prune_viewers : ℕ → ℕ → Map ℕ → Map ℕ
unfolding retain
prune_viewers observed_at window viewers = retain (λ at. ltb observed_at (at + window)) viewers

unfoldable pub record_viewer : ViewerInput → Map (Map ℕ) → Map (Map ℕ) × ViewerCounts
record_viewer i viewers =
    let edge_id = edge_key i.session_id i.edge_node_id in
    let total_id = total_key i.session_id in
    let edge =
      prune_viewers i.observed_at i.window
        (set i.viewer_hash i.observed_at (inner edge_id viewers)) in
    let total =
      prune_viewers i.observed_at i.window
        (set i.viewer_hash i.observed_at (inner total_id viewers)) in
    (
      put_inner total_id total (put_inner edge_id edge viewers),
      record { edge_viewers = length edge; total_viewers = length total },
    )

count_found : Option (Map ℕ) → String → ℕ → ℕ → Map (Map ℕ) → Map (Map ℕ) × ℕ
count_found none session_id observed_at window viewers = (viewers, 0)
count_found (some total) session_id observed_at window viewers =
    let recent = prune_viewers observed_at window total in
    (put_inner (total_key session_id) recent viewers, length recent)

unfoldable pub count_viewers : String → ℕ → ℕ → Map (Map ℕ) → Map (Map ℕ) × ℕ
unfolding count_found
count_viewers session_id observed_at window viewers =
    count_found (get (total_key session_id) viewers) session_id observed_at window viewers
