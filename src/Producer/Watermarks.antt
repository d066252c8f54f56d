-- ===== src/Producer/Watermarks.antt =====
-- The arithmetic of vod-producer-coordinator.ts on buffers and rates, and the pacer of
-- packages/application/src/vod-source-pacing.ts. A segment's duration is a whole number of
-- milliseconds, so every quotient here is one of whole numbers; a rate is a fraction. The tests for
-- values that are not finite have no counterpart.
use vrrelay.Prelude.{
  ℕ, ◌+◌, ◌-◌, ◌*◌, ◌/◌, min, max, Bool, ◌&&◌, ◌||◌, not, Option, none, some, ◌==◌, ltb, leb,
  if◌then◌else◌, or_else,
}
use vrrelay.Producer.Record.{BufferState, catching_up, buffered}

-- `Math.ceil(a / b)`
abbrev pub ceil_div : ℕ → ℕ → ℕ
ceil_div a b = (a + b - 1) / b

-- `vodProducerForwardJoinSegments`
unfoldable pub forward_join : ℕ → ℕ → ℕ
forward_join low_ms segment_ms = max 2 (ceil_div (min low_ms 10000) segment_ms)

-- `isVodProducerDemandCovered`
unfoldable pub is_covered : ℕ → Option ℕ → ℕ → ℕ → ℕ → Bool
is_covered start last_published demanded low_ms segment_ms =
    leb start demanded
    && leb demanded (or_else last_published start + forward_join low_ms segment_ms)

-- `estimateVodProducerBufferMs`: subtraction on ℕ stops at 0, as both calls of `Math.max` do.
unfoldable pub buffer_ms : ℕ → Option ℕ → ℕ → ℕ → ℕ → ℕ
buffer_ms anchor none segment_ms anchor_at observed_at = 0
buffer_ms anchor (some last_published) segment_ms anchor_at observed_at =
    (last_published + 1) * segment_ms - (anchor * segment_ms + (observed_at - anchor_at))

pub record Rate : Type 0 where
  pub num : ℕ
  pub den : ℕ

abbrev pub one : Rate
one = record { num = 1; den = 1 }

abbrev pub rate_le : Rate → Rate → Bool
rate_le r s = leb (r.num * s.den) (s.num * r.den)

-- Between 1 and 2.
abbrev pub is_valid_maximum : Rate → Bool
is_valid_maximum m = ltb 0 m.den && leb m.den m.num && leb m.num (2 * m.den)

-- The part of the catch-up between the watermarks: `1 + (max - 1) * deficit / window`.
unfoldable pub partial_rate : Rate → ℕ → ℕ → Rate
partial_rate m deficit window = record {
  num = m.den * window + (m.num - m.den) * min window deficit;
  den = m.den * window;
}

unfoldable pub chosen_rate : ℕ → ℕ → ℕ → Rate → Rate
unfolding partial_rate
chosen_rate buffer low high m =
    if (m.num == m.den) || leb high buffer
    then one
    else if leb buffer low
    then m
    else partial_rate m (high - buffer) (high - low)

-- `vodProducerCatchupRate`; `none` is the error of a maximum that is out of range.
unfoldable pub catchup_rate : ℕ → ℕ → ℕ → Rate → Option Rate
catchup_rate buffer low high m =
    if not (is_valid_maximum m) then none else some (chosen_rate buffer low high m)

-- `VodProducerSourcePacer`
pub record Pacer : Type 0 where
  pub maximum : Rate
  pub rate : Rate

-- The constructor.
unfoldable pub new_pacer : Rate → Option Pacer
new_pacer m = if is_valid_maximum m then some (record { maximum = m; rate = m }) else none

unfoldable pub pacer_state : Pacer → BufferState
pacer_state p = if rate_le p.rate one then buffered else catching_up

-- `none` is the error that `setRate` throws.
unfoldable pub set_rate : Pacer → Rate → Option Pacer
set_rate p r =
    if not (rate_le one r) || not (rate_le r p.maximum) then none else some (record p { rate = r })
