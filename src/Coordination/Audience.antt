-- ===== src/Coordination/Audience.antt =====
-- How many viewers a session has.
use vrrelay.Prelude.{
  ℕ, ◌+◌, ◌≤◌, ltb, String, str_eq, Bool, true, false, not, ◌&&◌, none, [], ◌∷◌, ◌≡◌, refl, Map,
  length, arith, eq_refl, eq_iff, inl, inr, Option-cases, Bool-cases,
}
use vrrelay.Prelude.Maps.{get, set, inner, inner-put_inner}
use vrrelay.Prelude.Unique.{Unique, retain}
use vrrelay.Coordination.Viewers.{
  ViewerInput, ViewerCounts, total_key, edge_key, prune_viewers, record_viewer, count_viewers,
}

count_viewers_lem :
    (s : String) (at window : ℕ) (all : Map (Map ℕ))
    → (count_viewers s at window all).1 ≡ length (prune_viewers at window (inner (total_key s) all))
unfolding count_viewers inner prune_viewers
count_viewers_lem s at window all = elim (Option-cases (get (total_key s) all)) [
  | inl e ↦ rw (e, count_viewers) refl
  | inr (m, e) ↦ rw (e, count_viewers) refl
]

-- The viewers but one who were seen less than a window before a time: one to count for each entry.
abbrev one_if : Bool → ℕ
one_if true = 1
one_if false = 0

unfoldable pub others_seen : String → ℕ → ℕ → Map ℕ → ℕ
others_seen viewer at window [] = 0
others_seen viewer at window ((v, seen) ∷ m) =
    one_if (not (str_eq v viewer) && ltb at (seen + window)) + others_seen viewer at window m

module _ (viewer : String) (at window : ℕ) where
  length-prune_absent :
      (m : Map ℕ)
      → get viewer m ≡ none
      → length (prune_viewers at window m) ≡ others_seen viewer at window m
  unfolding prune_viewers retain others_seen get
  length-prune_absent [] h = refl
  length-prune_absent ((v, seen) ∷ m) h = elim (Bool-cases (str_eq v viewer)) [
    | inl y ↦ absurd (ground (arith, h, y))
    | inr n ↦ ground (arith, n, h, length-prune_absent m)
  ]

  length-prune-set :
      (now : ℕ) (m : Map ℕ)
      → Unique m
      → length (prune_viewers at window (set viewer now m))
        ≡ one_if (ltb at (now + window)) + others_seen viewer at window m
  unfolding prune_viewers retain others_seen set
  length-prune-set now [] u = ground arith
  length-prune-set now ((v, seen) ∷ m) (fresh, u) = elim (Bool-cases (str_eq v viewer)) [
    | inl y ↦
        let absent : get viewer m ≡ none = ground (arith, fresh, y, eq_iff v viewer) in
        ground (arith, y, length-prune_absent m absent)
    | inr n ↦ ground (arith, n, length-prune-set now m u)
  ]

  -- Whoever is seen at a later time is also seen at this one.
  prune-prune :
      (later : ℕ) (m : Map ℕ)
      → at ≤ later
      → prune_viewers later window (prune_viewers at window m) ≡ prune_viewers later window m
  unfolding prune_viewers retain
  prune-prune later [] le = refl
  prune-prune later ((v, seen) ∷ m) le = ground (arith, prune-prune later m)

-- The answer to a request and the count at a later time `at`: the viewer who asked counts as long as
-- the window since the request has not passed, and so does each other viewer since last seen.
pub record Counted (i : ViewerInput) (at : ℕ) (edge total : Map ℕ) (answer : ViewerCounts)
    (count : ℕ) : Type 0 where
  pub on_edge :
      answer.edge_viewers
      ≡ one_if (ltb 0 i.window) + others_seen i.viewer_hash i.observed_at i.window edge
  pub in_total :
      answer.total_viewers
      ≡ one_if (ltb 0 i.window) + others_seen i.viewer_hash i.observed_at i.window total
  pub at_later :
      count
      ≡ one_if (ltb at (i.observed_at + i.window)) + others_seen i.viewer_hash at i.window total

-- A request is answered with the number of viewers, on its edge and in total: the viewer who asks, if the
-- window is not empty, and each other viewer who was last seen less than a window before. Counting the
-- session's viewers at that time or later, with the same window, then gives the viewer who asked, while
-- less than a window has passed since, and each other viewer who was seen less than a window before the
-- count; with the entries as they were before the request, in which each viewer stands once.
pub count_viewers-record_viewer :
    (i : ViewerInput) (all : Map (Map ℕ)) (at : ℕ)
    → i.observed_at ≤ at
    → Unique (inner (edge_key i.session_id i.edge_node_id) all)
    → Unique (inner (total_key i.session_id) all)
    → Counted i at
        (inner (edge_key i.session_id i.edge_node_id) all)
        (inner (total_key i.session_id) all)
        (record_viewer i all).1
        (count_viewers i.session_id at i.window (record_viewer i all).0).1
unfolding record_viewer
count_viewers-record_viewer i all at le edge_once total_once = record {
  on_edge =
      let n = length-prune-set i.viewer_hash i.observed_at i.window i.observed_at _ edge_once in
      ground (arith, n);
  in_total =
      let n = length-prune-set i.viewer_hash i.observed_at i.window i.observed_at _ total_once in
      ground (arith, n);
  at_later =
      rw
        (
          count_viewers_lem i.session_id at i.window (record_viewer i all).0,
          inner-put_inner (total_key i.session_id) (total_key i.session_id),
          eq_refl (total_key i.session_id),
          prune-prune i.viewer_hash i.observed_at i.window at _ le,
        )
        (length-prune-set i.viewer_hash at i.window i.observed_at _ total_once);
}
