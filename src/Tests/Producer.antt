-- ===== src/Tests/Producer.antt =====
-- A producer's record and its periodic check.
use vrrelay.Prelude.{ℕ, ◌-◌, ◌/◌, ◌≤◌, ◌≡◌, refl, true, false, none, some, List, [], ◌∷◌, or_else}
use vrrelay.Prelude.Maps.{get, set}
use vrrelay.Prelude.Sorting.{Member}
use vrrelay.Coordination.Demands.{SegmentDemand}
use vrrelay.Repository.{Versioned, Table, compare_and_set}
use vrrelay.Repository.Interference.{compare_and_set-Grows}
use vrrelay.Repository.Loop.{Others, run, judgement, after_write}
use vrrelay.Producer.Record.{VodProducer}
use vrrelay.Producer.Updates.{started, set_running, set_complete}
use vrrelay.Producer.History.{IsConsistent, starts, completes, update, update-IsConsistent}
use vrrelay.Producer.Transition.{transition}
use vrrelay.Producer.Fencing.{Fenced, transition-Fenced, transition-conflicted}
use vrrelay.Producer.Watermarks.{Rate}
use vrrelay.Producer.Active.{Active, Options}
use vrrelay.Producer.Demand.{dominant_demand, radius, viewers_at, current_index}
use vrrelay.Producer.Audience.{Wins, dominant_demand-Wins}
use vrrelay.Producer.Refresh.{present, Inputs, Refreshed, refresh}
use vrrelay.Producer.Stopping.{Reason, refresh-Reason, refresh_total}

-- The first producer of a session, in generation 1.
abbrev first : VodProducer
first = started none "s" "node" 4 60000 90000 1000

abbrev row : Versioned VodProducer
row = record { value = first; revision = 1 }

abbrev table : Table VodProducer
table = ("s", row) ∷ []

-- Another process that writes once, between the first read and the first write.
abbrev racer : Others VodProducer
racer n t = (compare_and_set (λ _. true) t "s" (set_running 1500 first) (n - 7)).0

abbrev replaced : Versioned VodProducer
replaced = record { value = set_running 2000 (set_running 1500 first); revision = 3 }

transition-Fenced_example :
    Fenced "s" 1
      (set_running 2000)
      table
      (transition racer table "s" 1 (set_running 2000)).0
      replaced
unfolding transition run judgement compare_and_set after_write get set started set_running
transition-Fenced_example =
    transition-Fenced racer
      (λ n t. compare_and_set-Grows (λ _. true) t "s" (set_running 1500 first) (n - 7)) "s" 1
      (set_running 2000) table replaced refl

-- Another process that writes in each of the five rounds.
abbrev rival : Others VodProducer
rival n t = (compare_and_set (λ _. true) t "s" first ((10 - n) / 2)).0

transition-conflicted_example :
    (row' : Versioned VodProducer) × (get "s" (transition rival table "s" 1 (set_running 2000)).0
      ≡ some row')
    × (6 ≤ row'.revision)
unfolding transition run judgement compare_and_set after_write get set started
transition-conflicted_example =
    transition-conflicted rival
      (λ n t. compare_and_set-Grows (λ _. true) t "s" first ((10 - n) / 2)) "s" 1 (set_running 2000)
      table row refl refl

first-IsConsistent : IsConsistent first
unfolding started
first-IsConsistent = record { only_last = λ _. refl; idle_closed = λ e. cc }

update-IsConsistent_example :
    IsConsistent (update (starts "s" "next" 9 60000 90000 9500) (update (completes 9000) first))
unfolding update set_complete
update-IsConsistent_example =
    update-IsConsistent (starts "s" "next" 9 60000 90000 9500) (update (completes 9000) first) refl
      (update-IsConsistent (completes 9000) first tt first-IsConsistent)

abbrev asked_at : ℕ → ℕ → SegmentDemand
asked_at index at = record {
  segment_index = index;
  observed_at = at;
  anchor_segment = none;
  anchor_observed_at = none;
}

abbrev audience : List SegmentDemand
audience = asked_at 41 9000 ∷ asked_at 40 9500 ∷ []

dominant_demand-Wins_example :
    ((c : SegmentDemand) × Member c (asked_at 3 8000 ∷ audience)
      × ((dominant_demand (asked_at 3 8000 ∷ audience) 6000 3 none 10000).index ≡ c.segment_index))
    × ((dominant_demand (asked_at 3 8000 ∷ audience) 6000 3 none 10000).viewers
        ≡ viewers_at
            (radius 6000)
            (asked_at 3 8000 ∷ audience)
            (dominant_demand (asked_at 3 8000 ∷ audience) 6000 3 none 10000).index)
    × Wins
        (radius 6000)
        (asked_at 3 8000 ∷ audience)
        (or_else (current_index none) 3)
        (dominant_demand (asked_at 3 8000 ∷ audience) 6000 3 none 10000).index
dominant_demand-Wins_example = dominant_demand-Wins (asked_at 3 8000) audience 6000 3 none 10000

abbrev fastest : Rate
fastest = record { num = 5; den = 4 }

abbrev options : Options
options = record {
  idle_timeout_ms = 90000;
  low_watermark_ms = 30000;
  high_watermark_ms = 60000;
  maximum_rate = fastest;
  stall_timeout_ms = none;
}

abbrev running : Active
running = record {
  generation = 1;
  aborted = false;
  owner = "node:p";
  provider_id = "p";
  start_segment_index = 3;
  anchor_segment = 3;
  anchor_at = 1000;
  last_applied_anchor_at = 0;
  demanded_segment_index = 3;
  last_published = some 5;
  last_demand_at = 8000;
  placement_locked = false;
  pacing = record { maximum = fastest; rate = fastest };
  published_any = true;
  pending_waiters = 0;
  watch_started_at = none;
  switch_candidate = some (record { index = 41; viewers = 2; observed_at = 8500 });
  progress_stall = false;
  stop_state = none;
}

abbrev inputs : Inputs
inputs = record {
  session = present;
  demands = audience;
  demands_again = audience;
  now = 10000;
  now_again = 10001;
  now_last = 10002;
}

outcome : (r : Refreshed) × (refresh options 6000 inputs running ≡ some r)
outcome = refresh_total options 6000 inputs running refl refl

refresh-Reason_example : Reason options 6000 inputs running outcome.0.active.stop_state
refresh-Reason_example = refresh-Reason options 6000 inputs running outcome.0 outcome.1

-- An audience near the producer: the check follows it, and its write loses all five rounds.
abbrev near : Inputs
near = record inputs { demands = asked_at 5 9000 ∷ []; demands_again = asked_at 5 9000 ∷ [] }
