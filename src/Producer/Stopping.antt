-- ===== src/Producer/Stopping.antt =====
-- Why the periodic check stops a producer.
use vrrelay.Prelude.{
  ℕ, ◌+◌, ◌≤◌, ◌<◌, max, true, false, ◌&&◌, Option, some, ◌==◌, leb, List, [], ◌∷◌, ◌≡◌, refl,
  arith, ◌⊎◌, inl, inr, All, Bool-cases, Option-cases, ap, ◌∙◌,
}
use vrrelay.Coordination.Demands.{SegmentDemand}
use vrrelay.Producer.Watermarks.{forward_join, is_valid_maximum, is_covered, Pacer}
use vrrelay.Producer.Active.{
  Active, Options, StopState, idle, switching, cancelled, SwitchCandidate, Dominant, should_switch,
}
use vrrelay.Producer.Demand.{distance, dominant_demand, latest}
use vrrelay.Producer.Refresh.{
  SessionView, absent, stopped, present, Inputs, Refreshed, is_confirmed, proposed, followed,
  follow, check_demand, check_session, refresh,
}
use vrrelay.Producer.Refreshing.{follow-stop_state, settle_total, followed_fields}

module _ (o : Options) (segment_ms : ℕ) (i : Inputs) (a : Active) where
  -- The producer as the check sees it, with the latest demand noted.
  abbrev pub seen : Active
  seen = record a { last_demand_at = max a.last_demand_at (latest i.demands) }

  abbrev pub wanted : Dominant
  wanted =
      dominant_demand i.demands_again segment_ms a.demanded_segment_index (some seen) i.now_again

  -- Nobody waits, and nobody has asked for as long as the idle timeout.
  pub record IsQuiet : Type 0 where
    pub present : i.session ≡ SessionView.present
    pub no_waiters : a.pending_waiters ≡ 0
    pub last : a.last_demand_at + o.idle_timeout_ms ≤ i.now
    pub all_old : All (λ d. d.observed_at + o.idle_timeout_ms ≤ i.now) i.demands

  -- The audience is elsewhere: its position is not covered, nobody is left at the old one or more
  -- are at the new one, and the same was observed at least a second before.
  pub record HasMoved : Type 0 where
    pub present : i.session ≡ SessionView.present
    pub uncovered :
        is_covered a.start_segment_index a.last_published wanted.index o.low_watermark_ms segment_ms
        ≡ false
    pub outvoted : (wanted.current_viewers ≡ 0) ⊎ (wanted.current_viewers < wanted.viewers)
    pub candidate : SwitchCandidate
    pub observed : a.switch_candidate ≡ some candidate
    pub same_size : candidate.viewers ≡ wanted.viewers
    pub near : distance candidate.index wanted.index ≤ forward_join o.low_watermark_ms segment_ms
    pub second : candidate.observed_at + 1000 ≤ i.now

  pub data Reason : Option StopState → Type 0 where
    none_given : (s : Option StopState) → s ≡ a.stop_state → Reason s
    gone :
        (s : Option StopState)
        → s ≡ some cancelled
        → (i.session ≡ absent) ⊎ (i.session ≡ stopped)
        → Reason s
    quiet : (s : Option StopState) → s ≡ some idle → IsQuiet → Reason s
    moved : (s : Option StopState) → s ≡ some switching → HasMoved → Reason s

latest_bound :
    (t now : ℕ) (ds : List SegmentDemand)
    → latest ds + t ≤ now
    → All (λ d. d.observed_at + t ≤ now) ds
latest_bound t now [] h = tt
latest_bound t now (d ∷ ds) h = (omega arith, latest_bound t now ds (omega arith))

module _ (o : Options) (segment_ms : ℕ) (i : Inputs) (a : Active) where
  moved_of_test :
      i.session ≡ present
      → should_switch o
          (seen o segment_ms i a)
          (wanted o segment_ms i a).index
          (wanted o segment_ms i a).current_viewers
          (wanted o segment_ms i a).viewers
          segment_ms
        ≡ true
      → is_confirmed o segment_ms a.switch_candidate (wanted o segment_ms i a) i.now ≡ true
      → HasMoved o segment_ms i a
  unfolding should_switch is_confirmed
  moved_of_test p s c = elim (Option-cases a.switch_candidate) [
    | inl e ↦ absurd (ground arith)
    | inr (candidate, e) ↦ record {
      present = p;
      uncovered = ground arith;
      outvoted = ground arith;
      candidate = candidate;
      observed = e;
      same_size = ground arith;
      near = ground arith;
      second = ground arith;
    }
  ]

  check_demand-Reason :
      (r : Refreshed)
      → i.session ≡ present
      → check_demand o segment_ms i a ≡ some r
      → Reason o segment_ms i a r.active.stop_state
  unfolding check_demand
  check_demand-Reason r p e =
      elim (Bool-cases (
        (a.pending_waiters == 0)
        && leb ((seen o segment_ms i a).last_demand_at + o.idle_timeout_ms) i.now)) [
          | inl q ↦ quiet _ (ground arith) (record {
            present = p;
            no_waiters = ground arith;
            last = ground arith;
            all_old = latest_bound o.idle_timeout_ms i.now i.demands (ground arith);
          })
          | inr q ↦
              elim (follow-stop_state o segment_ms i (seen o segment_ms i a)
                (wanted o segment_ms i a) r (ground arith)) [
                  | inl (s, asked, confirmed) ↦ moved _ s (moved_of_test p asked confirmed)
                  | inr s ↦ none_given _ s
                ]
        ]

-- A check that ends without an error leaves the stop state as it was, or sets one for a reason:
-- `cancelled` only when the session is gone or stopped; `idle` only when nobody waits and neither the
-- producer's last demand nor any recent one is within the idle timeout; `switching` only when the
-- audience's position is not covered, the old one is deserted or outvoted, and the same candidate
-- was observed a second before.
pub refresh-Reason :
    (o : Options) (segment_ms : ℕ) (i : Inputs) (a : Active) (r : Refreshed)
    → refresh o segment_ms i a ≡ some r
    → Reason o segment_ms i a r.active.stop_state
unfolding refresh
refresh-Reason o segment_ms i a r e = elim (Bool-cases a.aborted) [
  | inl b ↦ none_given _ (ground arith)
  | inr b ↦ in_session i.session refl (ground arith)
]
  where
    in_session :
        (v : SessionView)
        → i.session ≡ v
        → check_session v o segment_ms i a ≡ some r
        → Reason o segment_ms i a r.active.stop_state
    in_session absent p f = gone _ (ground arith) (inl p)
    in_session stopped p f = gone _ (ground arith) (inr p)
    in_session present p f = check_demand-Reason o segment_ms i a r p f

follow_total :
    (o : Options) (segment_ms : ℕ) (i : Inputs) (a : Active) (d : Dominant)
    → a.pacing.maximum ≡ o.maximum_rate
    → is_valid_maximum o.maximum_rate ≡ true
    → (r : Refreshed) × (follow o segment_ms i a d ≡ some r)
unfolding follow
follow_total o segment_ms i a d e v =
    elim (Bool-cases (should_switch o a d.index d.current_viewers d.viewers segment_ms)) [
      | inl s ↦ elim (Bool-cases (is_confirmed o segment_ms a.switch_candidate d i.now)) [
        | inl c ↦ rw (s, c) (_, refl)
        | inr c ↦ rw (s, c) (settle_total o segment_ms i d (proposed a d i.now) i.now_again e v)
      ]
      | inr s ↦ rw s (
          settle_total o segment_ms i d (followed a d) i.now_again
            (ap (λ (p : Pacer). p.maximum) (followed_fields o segment_ms a d).0 ∙ e) v)
    ]

check_demand_total :
    (o : Options) (segment_ms : ℕ) (i : Inputs) (a : Active)
    → a.pacing.maximum ≡ o.maximum_rate
    → is_valid_maximum o.maximum_rate ≡ true
    → (r : Refreshed) × (check_demand o segment_ms i a ≡ some r)
unfolding check_demand
check_demand_total o segment_ms i a e v =
    elim (Bool-cases (
      (a.pending_waiters == 0)
      && leb ((seen o segment_ms i a).last_demand_at + o.idle_timeout_ms) i.now)) [
        | inl q ↦ rw q (_, refl)
        | inr q ↦
            rw q (follow_total o segment_ms i (seen o segment_ms i a) (wanted o segment_ms i a) e v)
      ]

-- Up to its write the check does not throw: the rate that it computes is one that the pacer accepts, as
-- long as the pacer was made with the configured maximum and that is valid.
pub refresh_total :
    (o : Options) (segment_ms : ℕ) (i : Inputs) (a : Active)
    → a.pacing.maximum ≡ o.maximum_rate
    → is_valid_maximum o.maximum_rate ≡ true
    → (r : Refreshed) × (refresh o segment_ms i a ≡ some r)
unfolding refresh
refresh_total o segment_ms i a e v = elim (Bool-cases a.aborted) [
  | inl b ↦ rw b (_, refl)
  | inr b ↦ let (r, f) = in_session i.session in (r, simp b f)
]
  where
    in_session : (s : SessionView) → (r : Refreshed) × (check_session s o segment_ms i a ≡ some r)
    in_session absent = (_, refl)
    in_session stopped = (_, refl)
    in_session present = check_demand_total o segment_ms i a e v
