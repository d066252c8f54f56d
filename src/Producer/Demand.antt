-- ===== src/Producer/Demand.antt =====
-- `#dominantDemand` of vod-producer-coordinator.ts: where most of a session's recent audience is.
use vrrelay.Prelude.{
  ℕ, ◌+◌, ◌-◌, min, max, Bool, ◌&&◌, ◌||◌, Option, none, some, ◌==◌, ltb, leb, if◌then◌else◌,
  or_else, List, [], ◌∷◌, map, filter, length,
}
use vrrelay.Prelude.Sorting.{sort}
use vrrelay.Coordination.Demands.{SegmentDemand}
use vrrelay.Producer.Watermarks.{ceil_div}
use vrrelay.Producer.Active.{Active, Dominant}

-- `Math.abs(a - b)`
abbrev pub distance : ℕ → ℕ → ℕ
distance a b = (a - b) + (b - a)

unfoldable pub radius : ℕ → ℕ
radius segment_ms = min 5 (max 2 (ceil_div 10000 segment_ms))

-- How many demands are within the radius of a segment.
unfoldable pub viewers_at : ℕ → List SegmentDemand → ℕ → ℕ
viewers_at r demands index = length (filter (λ d. leb (distance d.segment_index index) r) demands)

pub record Scored : Type 0 where
  pub index : ℕ
  pub viewers : ℕ

-- The comparison of the sort: more viewers first, then nearer to the current position.
unfoldable pub comes_before : ℕ → Scored → Scored → Bool
comes_before position a b =
    ltb b.viewers a.viewers
    || ((a.viewers == b.viewers) && ltb (distance a.index position) (distance b.index position))

unfoldable pub scored : ℕ → List SegmentDemand → List Scored
scored r demands =
    map (λ d. record { index = d.segment_index; viewers = viewers_at r demands d.segment_index })
      demands

-- The anchors within the radius of the winner, of demands within it: segment and time.
anchor_of : ℕ → ℕ → SegmentDemand → Option ℕ → Option ℕ → List (ℕ × ℕ) → List (ℕ × ℕ)
anchor_of r winner d none at rest = rest
anchor_of r winner d (some segment) none rest = rest
anchor_of r winner d (some segment) (some at) rest =
    if leb (distance d.segment_index winner) r && leb (distance segment winner) r
    then (segment, at) ∷ rest
    else rest

unfoldable pub anchors : ℕ → ℕ → List SegmentDemand → List (ℕ × ℕ)
unfolding anchor_of
anchors r winner [] = []
anchors r winner (d ∷ ds) =
    anchor_of r winner d d.anchor_segment d.anchor_observed_at (anchors r winner ds)

-- Later anchors first.
abbrev pub later_anchor : ℕ × ℕ → ℕ × ℕ → Bool
later_anchor a b = ltb b.1 a.1

abbrev pub head? {ℓ} : {A : Type ℓ} → List A → Option A
head? [] = none
head? (x ∷ xs) = some x

abbrev pub latest : List SegmentDemand → ℕ
latest [] = 0
latest (d ∷ ds) = max d.observed_at (latest ds)

-- `active?.demandedSegmentIndex ?? active?.startSegmentIndex`
abbrev pub current_index : Option Active → Option ℕ
current_index none = none
current_index (some a) = some a.demanded_segment_index

unfoldable pub current_viewers : Option ℕ → ℕ → List SegmentDemand → ℕ
unfolding viewers_at
current_viewers none r demands = 0
current_viewers (some index) r demands = viewers_at r demands index

unfoldable pub choose : List Scored → ℕ → ℕ → List SegmentDemand → Option ℕ → ℕ → Dominant
unfolding anchors current_viewers
choose [] r requested demands current now = record {
  index = requested;
  viewers = 1;
  current_viewers = 0;
  observed_at = now;
  anchor = none;
}
choose (winner ∷ rest) r requested demands current now = record {
  index = winner.index;
  viewers = winner.viewers;
  current_viewers = current_viewers current r demands;
  observed_at = latest demands;
  anchor = head? (sort later_anchor (anchors r winner.index demands));
}

-- `demands` are the recent ones, read at the time `now`. With none, `scored` is empty.
unfoldable pub dominant_demand : List SegmentDemand → ℕ → ℕ → Option Active → ℕ → Dominant
unfolding choose scored radius
dominant_demand demands segment_ms requested active now =
    let r = radius segment_ms in
    let current = current_index active in
    choose (sort (comes_before (or_else current requested)) (scored r demands)) r requested demands
      current now
