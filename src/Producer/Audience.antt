-- ===== src/Producer/Audience.antt =====
-- Which position wins.
use vrrelay.Prelude.{
  ℕ, ◌≤◌, ◌<◌, false, Option, or_else, List, [], ◌∷◌, arith, ◌≡◌, refl, sym, ap, ◌∙◌, ◌⊎◌,
}
use vrrelay.Prelude.Sorting.{
  sort, IsOrder, Member, sort_head, sort-nil, Member-map, map-Member, All-Member,
}
use vrrelay.Coordination.Demands.{SegmentDemand}
use vrrelay.Producer.Active.{Active}
use vrrelay.Producer.Demand.{
  distance, radius, viewers_at, Scored, comes_before, scored, dominant_demand, choose,
  current_index, later_anchor,
}

comes_before-IsOrder : (p : ℕ) → IsOrder (comes_before p)
unfolding comes_before
comes_before-IsOrder p = record {
  irreflexive = λ a. ground arith;
  asymmetric = λ a b h. ground arith;
  transitive = λ a b c h k. ground arith;
}

later_anchor-IsOrder : IsOrder later_anchor
later_anchor-IsOrder = record {
  irreflexive = λ a. ground arith;
  asymmetric = λ a b h. ground arith;
  transitive = λ a b c h k. ground arith;
}

-- A position that no other beats: no position has more viewers near it, and none with as many is
-- nearer to `position`.
abbrev pub Wins : ℕ → List SegmentDemand → ℕ → ℕ → Type 0
Wins r demands position index =
    (d : SegmentDemand)
    → Member d demands
    → (viewers_at r demands d.segment_index < viewers_at r demands index)
      ⊎ ((viewers_at r demands d.segment_index ≡ viewers_at r demands index)
          × (distance index position ≤ distance d.segment_index position))

beaten :
    (position : ℕ) (s w : Scored) (count : ℕ)
    → w.viewers ≡ count
    → comes_before position s w ≡ false
    → (s.viewers < count)
      ⊎ ((s.viewers ≡ count) × (distance w.index position ≤ distance s.index position))
unfolding comes_before
beaten position s w count e h = ground arith

abbrev Winner : ℕ → List SegmentDemand → ℕ → Scored → Type 0
Winner r demands position w =
    ((d : SegmentDemand) × Member d demands × (w.index ≡ d.segment_index))
    × (w.viewers ≡ viewers_at r demands w.index)
    × Wins r demands position w.index

best_scored :
    (r position : ℕ) (demands : List SegmentDemand) (w : Scored) (rest : List Scored)
    → sort (comes_before position) (scored r demands) ≡ w ∷ rest
    → Winner r demands position w
unfolding scored
best_scored r position demands w rest e =
    let (there, least) =
      sort_head (comes_before position) (comes_before-IsOrder position) _ w rest e in
    let (d, listed, same) = Member-map score w demands there in
    let index : w.index ≡ d.segment_index = ap (λ (s : Scored). s.index) same in
    let count : w.viewers ≡ viewers_at r demands w.index =
      ap (λ (s : Scored). s.viewers) same ∙ ap (viewers_at r demands) (sym index) in
    (
      (d, listed, index),
      count,
      λ c m.
          beaten position (score c) w (viewers_at r demands w.index) count
            (All-Member _ (score c) _ least (map-Member score c demands m)),
    )
  where
    score : SegmentDemand → Scored
    score d = record { index = d.segment_index; viewers = viewers_at r demands d.segment_index }

-- When somebody has asked lately, the dominant demand is one of the recent demands; its number of
-- viewers is that of the demands within the radius; no demand's segment has more viewers near it,
-- and none with as many is nearer to the position that the audience had (the requested one, where no
-- producer runs).
pub dominant_demand-Wins :
    (d : SegmentDemand) (ds : List SegmentDemand) (segment_ms requested : ℕ)
    (active : Option Active) (now : ℕ)
    → let w = dominant_demand (d ∷ ds) segment_ms requested active now in
      ((c : SegmentDemand) × Member c (d ∷ ds) × (w.index ≡ c.segment_index))
      × (w.viewers ≡ viewers_at (radius segment_ms) (d ∷ ds) w.index)
      × Wins (radius segment_ms) (d ∷ ds) (or_else (current_index active) requested) w.index
unfolding dominant_demand
dominant_demand-Wins d ds segment_ms requested active now =
    chosen (sort (comes_before position) (scored r (d ∷ ds))) refl
  where
    r : ℕ
    r = radius segment_ms

    position : ℕ
    position = or_else (current_index active) requested

    chosen :
        (s : List Scored)
        → sort (comes_before position) (scored r (d ∷ ds)) ≡ s
        → let w = choose s r requested (d ∷ ds) (current_index active) now in
          ((c : SegmentDemand) × Member c (d ∷ ds) × (w.index ≡ c.segment_index))
          × (w.viewers ≡ viewers_at r (d ∷ ds) w.index)
          × Wins r (d ∷ ds) position w.index
    chosen [] e = absurd (cc (sort-nil (comes_before position) (comes_before-IsOrder position) _ e))
    chosen (w ∷ rest) e = best_scored r position (d ∷ ds) w rest e
