-- ===== src/Coordination/Windows.antt =====
-- What a reader of the segment demands sees.
use vrrelay.Prelude.{
  ℕ, ◌+◌, ◌≤◌, ◌<◌, ◌⊎◌, ltb, true, false, Option, none, String, ◌≡◌, refl, ◌≢◌, Bool, not, some,
  Map, if◌then◌else◌, arith, str_eq, eq_refl, eq_iff, inl, inr, Option-cases, Bool-cases,
}
use vrrelay.Prelude.Maps.{get, set, get-set, inner, inner-put_inner}
use vrrelay.Prelude.Unique.{retain, Unique, keep_if, get-retain, retain-Unique, set-Unique}
use vrrelay.Coordination.Anchors.{Anchored, new_demand-Anchored, new_demand-request}
use vrrelay.Coordination.Demands.{
  SegmentDemand, DemandInput, is_stale, new_demand, record_demand, list_demands,
}

abbrev Demands : Type 0
Demands = Map (Map SegmentDemand)

-- Each viewer stands once in each session's map.
abbrev pub EachOnce : Demands → Type 0
EachOnce all = (s : String) → Unique (inner s all)

abbrev pub is_recent : ℕ → ℕ → SegmentDemand → Bool
is_recent observed_at window d = not (is_stale observed_at window d)

-- The session's map after `record_demand`.
abbrev recorded : DemandInput → Demands → Map SegmentDemand
recorded i all =
    let demands = inner i.session_id all in
    retain (is_recent i.observed_at i.window)
      (set i.viewer_hash (new_demand i (get i.viewer_hash demands)) demands)

demands-record :
    (i : DemandInput) (t : String) (all : Demands)
    → inner t (record_demand i all)
      ≡ (if str_eq i.session_id t then recorded i all else inner t all)
unfolding record_demand
demands-record i t all = inner-put_inner t i.session_id (recorded i all) all

-- A list of entries stays a map.
record_demand-EachOnce :
    (i : DemandInput) (all : Demands) → EachOnce all → EachOnce (record_demand i all)
record_demand-EachOnce i all u t = elim (Bool-cases (str_eq i.session_id t)) [
  | inl e ↦
      rw (demands-record i t all, e)
        (retain-Unique _ _ (set-Unique i.viewer_hash _ _ (u i.session_id)))
  | inr e ↦ rw (demands-record i t all, e) (u t)
]

list_demands_lem :
    (s : String) (at window : ℕ) (all : Demands)
    → (list_demands s at window all).1 ≡ retain (is_recent at window) (inner s all)
unfolding list_demands inner
list_demands_lem s at window all = elim (Option-cases (get s all)) [
  | inl e ↦ rw (e, list_demands) refl
  | inr (ds, e) ↦ rw (e, list_demands) refl
]

seen_after :
    (i : DemandInput) (all : Demands) (viewer : String) (at window : ℕ)
    → EachOnce all
    → get viewer (list_demands i.session_id at window (record_demand i all)).1
      ≡ keep_if (is_recent at window) (
          keep_if (is_recent i.observed_at i.window) (
            if str_eq i.viewer_hash viewer
            then some (new_demand i (get i.viewer_hash (inner i.session_id all)))
            else get viewer (inner i.session_id all)))
seen_after i all viewer at window u =
    let old = inner i.session_id all in
    let asked = new_demand i (get i.viewer_hash old) in
    let once = set-Unique i.viewer_hash asked old (u i.session_id) in
    rw
      (
        list_demands_lem i.session_id at window (record_demand i all),
        demands-record i i.session_id all,
        eq_refl i.session_id,
        get-retain (is_recent at window) viewer _
            (retain-Unique (is_recent i.observed_at i.window) _ once),
        get-retain (is_recent i.observed_at i.window) viewer _ once,
        get-set viewer i.viewer_hash asked old,
      )
      refl

-- What a reader finds for a viewer after a request, given the viewer's former entry.
pub data Sees (i : DemandInput) (viewer : String) (at window : ℕ)
    (former found : Option SegmentDemand) : Type 0 where
  asked :
      (d : SegmentDemand)
      → viewer ≡ i.viewer_hash
      → found ≡ some d
      → d.segment_index ≡ i.segment_index
      → d.observed_at ≡ i.observed_at
      → Anchored i former d
      → at ≤ i.observed_at + window
      → Sees i viewer at window former found
  asked_long_ago :
      viewer ≡ i.viewer_hash
      → found ≡ none
      → i.observed_at + window < at
      → Sees i viewer at window former found
  stays :
      (d : SegmentDemand)
      → viewer ≢ i.viewer_hash
      → former ≡ some d
      → found ≡ some d
      → i.observed_at ≤ d.observed_at + i.window
      → at ≤ d.observed_at + window
      → Sees i viewer at window former found
  goes :
      (d : SegmentDemand)
      → viewer ≢ i.viewer_hash
      → former ≡ some d
      → found ≡ none
      → (d.observed_at + i.window < i.observed_at) ⊎ (d.observed_at + window < at)
      → Sees i viewer at window former found
  unknown :
      viewer ≢ i.viewer_hash → former ≡ none → found ≡ none → Sees i viewer at window former found

module _ (i : DemandInput) where
  -- What a reader finds for any viewer of a session just after a request was recorded for it. For the
  -- viewer who asked it is an entry with the segment and the time of the request, as long as that time
  -- is within the reader's window, and else nothing. The entry's anchor is the request itself after a
  -- jump; or else that of the viewer's former entry, if the request's window reaches back to it; or
  -- else there is none. For any other viewer it is the former entry, if its time is within the windows
  -- of the request and of the reader, and else nothing. A viewer has one entry at most before.
  pub list_demands-record_demand :
      (all : Demands) (viewer : String) (at window : ℕ)
      → EachOnce all
      → Sees i viewer at window
          (get viewer (inner i.session_id all))
          (get viewer (list_demands i.session_id at window (record_demand i all)).1)
  unfolding is_stale
  list_demands-record_demand all viewer at window u = by_viewer (str_eq i.viewer_hash viewer) refl
    where
      found : Option SegmentDemand
      found = get viewer (list_demands i.session_id at window (record_demand i all)).1

      shown :
          (b : Bool)
          → str_eq i.viewer_hash viewer ≡ b
          → found
            ≡ keep_if (is_recent at window) (
                keep_if (is_recent i.observed_at i.window) (
                  if b
                  then some (new_demand i (get i.viewer_hash (inner i.session_id all)))
                  else get viewer (inner i.session_id all)))
      shown b h = rw h at (seen_after i all viewer at window u)

      by_viewer :
          (b : Bool)
          → str_eq i.viewer_hash viewer ≡ b
          → Sees i viewer at window (get viewer (inner i.session_id all)) found
      by_viewer true h =
          let same : viewer ≡ i.viewer_hash = ground (arith, h, eq_iff i.viewer_hash viewer) in
          let d = new_demand i (get i.viewer_hash (inner i.session_id all)) in
          let (segment, time) = new_demand-request i (get i.viewer_hash (inner i.session_id all)) in
          elim (Bool-cases (ltb (i.observed_at + window) at)) [
            | inl y ↦
                asked_long_ago same (ground (arith, shown true h, time, y)) (ground (arith, y))
            | inr n ↦
                asked d same (ground (arith, shown true h, time, n)) segment time
                  (rw same (new_demand-Anchored i _)) (ground (arith, n))
          ]
      by_viewer false h =
          let other : viewer ≢ i.viewer_hash =
            λ e. absurd (ground (arith, h, e, eq_iff i.viewer_hash viewer)) in
          elim (Option-cases (get viewer (inner i.session_id all))) [
            | inl e ↦ unknown other e (ground (arith, shown false h, e))
            | inr (d, e) ↦ elim (Bool-cases (ltb (d.observed_at + i.window) i.observed_at)) [
              | inl y ↦
                  goes d other e (ground (arith, shown false h, e, y)) (inl (ground (arith, y)))
              | inr n ↦ elim (Bool-cases (ltb (d.observed_at + window) at)) [
                | inl y ↦
                    goes d other e (ground (arith, shown false h, e, n, y))
                      (inr (ground (arith, y)))
                | inr m ↦
                    stays d other e (ground (arith, shown false h, e, n, m)) (ground (arith, n))
                      (ground (arith, m))
              ]
            ]
          ]

-- A request leaves every other session's demands as they were, for any reader at any time.
pub record_demand-other_session :
    (i : DemandInput) (all : Demands) (s : String) (at window : ℕ)
    → s ≢ i.session_id
    → (list_demands s at window (record_demand i all)).1 ≡ (list_demands s at window all).1
record_demand-other_session i all s at window h =
    rw
      (
        list_demands_lem s at window (record_demand i all),
        list_demands_lem s at window all,
        demands-record i s all,
      )
      (ground (arith, eq_iff i.session_id s))
