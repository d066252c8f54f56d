-- ===== src/Producer/Refreshing.antt =====
-- When the periodic check ends a producer.
use vrrelay.Prelude.{
  ℕ, true, some, ◌≡◌, refl, ap, ◌∙◌, arith, ◌⊎◌, inl, inr, Bool-cases, Option-cases,
}
use vrrelay.Producer.Watermarks.{is_valid_maximum, Rate, catchup_rate, set_rate, buffer_ms}
use vrrelay.Producer.Pacing.{catchup_rate-set_rate}
use vrrelay.Producer.Active.{
  Active, Options, switching, Dominant, apply_anchor, with_pace, should_switch, reconcile_pacing,
}
use vrrelay.Producer.Refresh.{Inputs, Refreshed, is_confirmed, settle, proposed, followed, follow}

module _ (o : Options) (segment_ms : ℕ) where
  -- Reconciling the pace leaves alone what decides about the producer's life.
  record Kept (a b : Active) : Type 0 where
    maximum : b.pacing.maximum ≡ a.pacing.maximum
    stop_state : b.stop_state ≡ a.stop_state

  with_pace-Kept :
      (a : Active) (r : Rate) (now : ℕ) → Kept a (with_pace (record a.pacing { rate = r }) a now)
  unfolding with_pace
  with_pace-Kept a r now = record { maximum = ground arith; stop_state = ground arith }

  reconcile_pacing-Kept :
      (a : Active) (now : ℕ)
      → a.pacing.maximum ≡ o.maximum_rate
      → is_valid_maximum o.maximum_rate ≡ true
      → (b : Active) × (reconcile_pacing o segment_ms a now ≡ some b) × Kept a b
  unfolding reconcile_pacing
  reconcile_pacing-Kept a now e v =
      let (r, chosen, accepted) =
        catchup_rate-set_rate a.pacing
          (buffer_ms a.anchor_segment a.last_published segment_ms a.anchor_at now)
          o.low_watermark_ms o.high_watermark_ms (ap is_valid_maximum e ∙ v) in
      (
        with_pace (record a.pacing { rate = r }) a now,
        rw (← e, chosen, accepted) refl,
        with_pace-Kept a r now,
      )

  reconcile_pacing-stop_state :
      (a : Active) (now : ℕ) (b : Active)
      → reconcile_pacing o segment_ms a now ≡ some b
      → b.stop_state ≡ a.stop_state
  unfolding reconcile_pacing with_pace set_rate
  reconcile_pacing-stop_state a now b e =
      elim (Option-cases (
        catchup_rate (buffer_ms a.anchor_segment a.last_published segment_ms a.anchor_at now)
          o.low_watermark_ms o.high_watermark_ms o.maximum_rate)) [
            | inl h ↦ absurd (ground arith)
            | inr (r, h) ↦ ground arith
          ]

  pub followed_fields :
      (a : Active) (d : Dominant)
      → ((followed a d).pacing ≡ a.pacing) × ((followed a d).stop_state ≡ a.stop_state)
  unfolding apply_anchor
  followed_fields a d = (ground arith, ground arith)

  settle-stop_state :
      (i : Inputs) (d : Dominant) (a : Active) (now : ℕ) (r : Refreshed)
      → settle o segment_ms i d (reconcile_pacing o segment_ms a now) ≡ some r
      → r.active.stop_state ≡ a.stop_state
  unfolding settle
  settle-stop_state i d a now r e = elim (Option-cases (reconcile_pacing o segment_ms a now)) [
    | inl h ↦ absurd (ground arith)
    | inr (b, h) ↦ ground (arith, reconcile_pacing-stop_state a now b h)
  ]

  pub settle_total :
      (i : Inputs) (d : Dominant) (a : Active) (now : ℕ)
      → a.pacing.maximum ≡ o.maximum_rate
      → is_valid_maximum o.maximum_rate ≡ true
      → (r : Refreshed) × (settle o segment_ms i d (reconcile_pacing o segment_ms a now) ≡ some r)
  unfolding settle
  settle_total i d a now e v =
      let (b, made, _) = reconcile_pacing-Kept a now e v in rw made (_, refl)

  -- The stop state that following the demand leads to: a switch only when it is asked for and has
  -- been confirmed.
  pub follow-stop_state :
      (i : Inputs) (a : Active) (d : Dominant) (r : Refreshed)
      → follow o segment_ms i a d ≡ some r
      → ((r.active.stop_state ≡ some switching)
          × (should_switch o a d.index d.current_viewers d.viewers segment_ms ≡ true)
          × (is_confirmed o segment_ms a.switch_candidate d i.now ≡ true))
        ⊎ (r.active.stop_state ≡ a.stop_state)
  unfolding follow
  follow-stop_state i a d r e =
      elim (Bool-cases (should_switch o a d.index d.current_viewers d.viewers segment_ms)) [
        | inl s ↦ elim (Bool-cases (is_confirmed o segment_ms a.switch_candidate d i.now)) [
          | inl c ↦ inl (ground arith, s, c)
          | inr c ↦ inr (settle-stop_state i d (proposed a d i.now) i.now_again r (ground arith))
        ]
        | inr s ↦ inr (
            settle-stop_state i d (followed a d) i.now_again r (ground arith)
            ∙ (followed_fields a d).1)
      ]
