-- ===== src/Coordination/Anchors.antt =====
-- The entry that a viewer's request leaves, and its anchor.
use vrrelay.Prelude.{
  ℕ, ◌+◌, ◌≤◌, ◌<◌, true, false, Option, none, some, ◌≡◌, leb, arith, inl, inr, Option-cases,
  Bool-cases,
}
use vrrelay.Coordination.Demands.{SegmentDemand, DemandInput, carried, new_demand}

-- The anchor of a viewer's new entry, given the former one: that of this request after a jump; or else
-- the former anchor, as long as its time is within the window of the request; or else none.
pub data Anchored (i : DemandInput) (former : Option SegmentDemand) (d : SegmentDemand)
    : Type 0 where
  jumped :
      i.discontinuity ≡ true
      → d.anchor_segment ≡ some i.segment_index
      → d.anchor_observed_at ≡ some i.observed_at
      → Anchored i former d
  kept :
      (f : SegmentDemand) (time : ℕ)
      → i.discontinuity ≡ false
      → former ≡ some f
      → f.anchor_observed_at ≡ some time
      → i.observed_at ≤ time + i.window
      → d.anchor_segment ≡ f.anchor_segment
      → d.anchor_observed_at ≡ some time
      → Anchored i former d
  outdated :
      (f : SegmentDemand) (time : ℕ)
      → i.discontinuity ≡ false
      → former ≡ some f
      → f.anchor_observed_at ≡ some time
      → time + i.window < i.observed_at
      → d.anchor_segment ≡ none
      → d.anchor_observed_at ≡ none
      → Anchored i former d
  never_anchored :
      (f : SegmentDemand)
      → i.discontinuity ≡ false
      → former ≡ some f
      → f.anchor_observed_at ≡ none
      → d.anchor_segment ≡ none
      → d.anchor_observed_at ≡ none
      → Anchored i former d
  newcomer :
      i.discontinuity ≡ false
      → former ≡ none
      → d.anchor_segment ≡ none
      → d.anchor_observed_at ≡ none
      → Anchored i former d

module _ (i : DemandInput) where
  pub new_demand-Anchored :
      (former : Option SegmentDemand) → Anchored i former (new_demand i former)
  unfolding new_demand carried
  new_demand-Anchored former = elim (Bool-cases i.discontinuity) [
    | inl y ↦ jumped y (ground (arith, y)) (ground (arith, y))
    | inr n ↦ elim (Option-cases former) [
      | inl e ↦ newcomer n e (ground (arith, n, e)) (ground (arith, n, e))
      | inr (f, e) ↦ elim (Option-cases f.anchor_observed_at) [
        | inl m ↦ never_anchored f n e m (ground (arith, n, e, m)) (ground (arith, n, e, m))
        | inr (time, m) ↦ elim (Bool-cases (leb i.observed_at (time + i.window))) [
          | inl y ↦
              kept f time n e m (ground (arith, y)) (ground (arith, n, e, m, y))
                (ground (arith, n, e, m, y))
          | inr x ↦
              outdated f time n e m (ground (arith, x)) (ground (arith, n, e, m, x))
                (ground (arith, n, e, m, x))
        ]
      ]
    ]
  ]

  pub new_demand-request :
      (former : Option SegmentDemand)
      → ((new_demand i former).segment_index ≡ i.segment_index)
        × ((new_demand i former).observed_at ≡ i.observed_at)
  unfolding new_demand carried
  new_demand-request none = ground arith
  new_demand-request (some f) = elim (Option-cases f.anchor_observed_at) [
    | inl m ↦ (ground arith, ground arith)
    | inr (time, m) ↦ (ground arith, ground arith)
  ]
