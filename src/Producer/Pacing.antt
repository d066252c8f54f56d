-- ===== src/Producer/Pacing.antt =====
-- The rate at which a producer catches up.
use vrrelay.Prelude.{
  ℕ, ◌+◌, ◌-◌, ◌*◌, ◌/◌, ◌≤◌, ◌<◌, min, true, false, ◌||◌, some, ◌==◌, leb, ◌≡◌, refl, ◌↔◌, arith,
  Bool-cases, inl, inr, ap, ◌⊎◌,
}
use native.Mathlib.Decide.{dec_le}
use vrrelay.Producer.Record.{catching_up}
use vrrelay.Producer.Watermarks.{
  forward_join, Rate, one, rate_le, is_valid_maximum, partial_rate, chosen_rate, catchup_rate,
  Pacer, pacer_state, set_rate,
}

mul_mono : (s a b : ℕ) → a ≤ b → s * a ≤ s * b
mul_mono s a b h = grind arith

quotient_le : (x s : ℕ) → x < 11 * s → x / s ≤ 10
quotient_le x s h = elim (dec_le (x / s) 10) [
  | yes p ↦ p
  | no p ↦ absurd (omega (arith, mul_mono s 11 (x / s)))
]

-- With segments of at least a second, a producer is joined from two to ten segments ahead.
pub forward_join_bounds :
    (low segment : ℕ)
    → 1000 ≤ segment
    → (2 ≤ forward_join low segment) × (forward_join low segment ≤ 10)
unfolding forward_join
forward_join_bounds low segment h =
    (omega arith, omega (arith, quotient_le (min low 10000 + segment - 1) segment (omega arith)))

le→leb : (a b : ℕ) → a ≤ b → leb a b ≡ true
le→leb a b h = ground arith

module _ (m : Rate) (above : m.den ≤ m.num) where
  excess : m.num ≡ m.den + (m.num - m.den)
  excess = omega arith

  partial_rate-ge-one : (deficit window : ℕ) → rate_le one (partial_rate m deficit window) ≡ true
  unfolding partial_rate
  partial_rate-ge-one deficit window = le→leb _ _ (omega arith)

  partial_rate-le-maximum : (deficit window : ℕ) → rate_le (partial_rate m deficit window) m ≡ true
  unfolding partial_rate
  partial_rate-le-maximum deficit window = le→leb _ _ (
      omega (
        arith,
        mul_mono ((m.num - m.den) * m.den) (min window deficit) window (omega arith),
        ap (λ (n : ℕ). n * (m.den * window)) excess,
      ))

  partial_rate_mono :
      (deficit deficit' window : ℕ)
      → deficit ≤ deficit'
      → rate_le (partial_rate m deficit window) (partial_rate m deficit' window) ≡ true
  unfolding partial_rate
  partial_rate_mono deficit deficit' window h = le→leb _ _ (
      omega (
        arith,
        mul_mono ((m.num - m.den) * (m.den * window)) (min window deficit) (min window deficit')
            (omega arith),
      ))

  chosen_rate-ge-one : (b low high : ℕ) → rate_le one (chosen_rate b low high m) ≡ true
  unfolding chosen_rate
  chosen_rate-ge-one b low high = ground (arith, partial_rate-ge-one (high - b) (high - low))

  -- The three ways to choose a rate, each with the buffers for which it is taken.
  chosen_cases :
      (b low high : ℕ)
      → ((chosen_rate b low high m ≡ one) × ((m.num ≡ m.den) ⊎ (high ≤ b)))
        ⊎ ((chosen_rate b low high m ≡ m) × (b ≤ low) × (b < high) × (m.den < m.num))
        ⊎ ((chosen_rate b low high m ≡ partial_rate m (high - b) (high - low))
            × (low < b)
            × (b < high)
            × (m.den < m.num))
  unfolding chosen_rate
  chosen_cases b low high = elim (Bool-cases ((m.num == m.den) || leb high b)) [
    | inl e ↦ inl (rw e refl, ground arith)
    | inr e ↦ elim (Bool-cases (leb b low)) [
      | inl f ↦ inr (inl (rw (e, f) refl, ground arith, ground arith, ground arith))
      | inr f ↦ inr (inr (rw (e, f) refl, ground arith, ground arith, ground arith))
    ]
  ]

  chosen_rate-le-maximum : (b low high : ℕ) → rate_le (chosen_rate b low high m) m ≡ true
  chosen_rate-le-maximum b low high = elim (chosen_cases b low high) [
    | inl (e, _) ↦ rw e (le→leb _ _ (omega arith))
    | inr (inl (e, _, _, _)) ↦ rw e (le→leb _ _ (omega arith))
    | inr (inr (e, _, _, _)) ↦ rw e (partial_rate-le-maximum (high - b) (high - low))
  ]

  chosen_rate_antitone :
      (b b' low high : ℕ)
      → b ≤ b'
      → rate_le (chosen_rate b' low high m) (chosen_rate b low high m) ≡ true
  chosen_rate_antitone b b' low high h = elim (chosen_cases b' low high) [
    | inl (e, _) ↦ rw e (chosen_rate-ge-one b low high)
    | inr (inl (e, under, below, strict)) ↦ elim (chosen_cases b low high) [
      | inl (f, full) ↦ absurd (omega (arith, full))
      | inr (inl (f, _, _, _)) ↦ rw (e, f) (le→leb _ _ (omega arith))
      | inr (inr (f, over, _, _)) ↦ absurd (omega arith)
    ]
    | inr (inr (e, over, below, strict)) ↦ elim (chosen_cases b low high) [
      | inl (f, full) ↦ absurd (omega (arith, full))
      | inr (inl (f, _, _, _)) ↦ rw (e, f) (partial_rate-le-maximum (high - b') (high - low))
      | inr (inr (f, _, _, _)) ↦
          rw (e, f) (partial_rate_mono (high - b') (high - b) (high - low) (omega arith))
    ]
  ]

-- Whatever the buffer and the watermarks are, the coordinator's rate for a valid maximum is defined,
-- and the pacer of that maximum accepts it: it is between 1 and the maximum.
pub catchup_rate-set_rate :
    (p : Pacer) (buffer low high : ℕ)
    → is_valid_maximum p.maximum ≡ true
    → (r : Rate) × (catchup_rate buffer low high p.maximum ≡ some r)
      × (set_rate p r ≡ some (record p { rate = r }))
unfolding catchup_rate set_rate
catchup_rate-set_rate p buffer low high h = (
  chosen_rate buffer low high p.maximum,
  rw h refl,
  rw
      (
        chosen_rate-ge-one p.maximum above buffer low high,
        chosen_rate-le-maximum p.maximum above buffer low high,
      )
      refl,
)
  where
    above : p.maximum.den ≤ p.maximum.num
    above = ground arith

-- For a valid maximum, a fuller buffer never gets a faster rate.
pub catchup_rate_antitone :
    (m : Rate) (b b' low high : ℕ) (r r' : Rate)
    → b ≤ b'
    → catchup_rate b low high m ≡ some r
    → catchup_rate b' low high m ≡ some r'
    → rate_le r' r ≡ true
unfolding catchup_rate
catchup_rate_antitone m b b' low high r r' k e e' =
    ground (arith, chosen_rate_antitone m (ground arith) b b' low high k)

partial_above_one :
    (m : Rate) (deficit window : ℕ)
    → m.den < m.num
    → 0 < deficit
    → 0 < window
    → rate_le (partial_rate m deficit window) one ≡ false
unfolding partial_rate
partial_above_one m deficit window h d w =
    let some_of : 1 ≤ min window deficit = omega arith in
    let more = mul_mono (m.num - m.den) 1 (min window deficit) some_of in ground (arith, more)

above_one_iff :
    (m : Rate) (b low high : ℕ)
    → m.den ≤ m.num
    → 0 < m.den
    → (rate_le (chosen_rate b low high m) one ≡ false) ↔ ((b < high) × (m.den < m.num))
above_one_iff m b low high above positive = elim (chosen_cases m above b low high) [
  | inl (e, full) ↦ rw e ((λ h. absurd (ground arith)), λ h. absurd (ground arith))
  | inr (inl (e, under, below, strict)) ↦ rw e ((λ h. (below, strict)), λ h. ground arith)
  | inr (inr (e, over, below, strict)) ↦ rw e (
    (λ h. (below, strict)),
    λ h. partial_above_one m (high - b) (high - low) strict (omega arith) (omega arith),
  )
]

-- The pacer that is given this rate catches up exactly while the buffer is below the high watermark
-- and the maximum is above 1.
pub catching_up_iff :
    (m : Rate) (buffer low high : ℕ) (r : Rate)
    → catchup_rate buffer low high m ≡ some r
    → (pacer_state (record { maximum = m; rate = r }) ≡ catching_up)
      ↔ ((buffer < high) × (m.den < m.num))
unfolding catchup_rate pacer_state
catching_up_iff m buffer low high r e =
    let chosen : r ≡ chosen_rate buffer low high m = ground arith in
    let test = above_one_iff m buffer low high (ground arith) (ground arith) in
    rw chosen ((λ h. test.0 (ground arith)), λ h. rw (test.1 h) refl)
