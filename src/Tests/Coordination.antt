-- ===== src/Tests/Coordination.antt =====
-- The coordination service on small stores.
use vrrelay.Prelude.{
  ℕ, String, ◌≡◌, refl, ◌≢◌, ◌<◌, ◌≤◌, ◌↔◌, true, false, none, some, List, [], ◌∷◌, Map, arith,
  eq_iff,
}
use vrrelay.Prelude.Maps.{get, inner}
use vrrelay.Coordination.Leases.{is_taken, acquire, renew}
use vrrelay.Coordination.Exclusion.{Call, acquires, releases, run, acquire-excludes, renew_in_time}
use vrrelay.Coordination.Refinement.{answers, hold_all, holders, answers-refine}
use vrrelay.Coordination.Values
use vrrelay.Coordination.Values.{StoredValue, get-set_until}
use vrrelay.Coordination.Demands.{SegmentDemand, DemandInput, record_demand, list_demands}
use vrrelay.Coordination.Windows.{EachOnce, Sees, list_demands-record_demand}
use vrrelay.Coordination.Viewers.{ViewerInput, total_key, edge_key, record_viewer, count_viewers}
use vrrelay.Coordination.Audience.{Counted, count_viewers-record_viewer}

-- Two calls of another node while `a` holds the lease.
abbrev others_calls : List Call
others_calls = acquires "producer" "b" 5 8 ∷ releases "producer" "b" 9 ∷ []

b_not_a : ◌≢◌ {A = String} "b" "a"
b_not_a e = cc ((eq_iff _ _).1 e)

acquire-excludes_example :
    acquire (run (acquire [] "producer" "a" 10 5).0 others_calls) "producer" "b" 10 14
    ≡ (run (acquire [] "producer" "a" 10 5).0 others_calls, false)
unfolding acquire is_taken get
acquire-excludes_example =
    acquire-excludes [] "producer" "a" "b" 10 10 5 14 others_calls refl
      ((b_not_a, omega arith), ((b_not_a, omega arith), tt)) b_not_a (omega arith)

renew_in_time_example :
    ((renew (run (acquire [] "producer" "a" 10 5).0 others_calls) "producer" "a" 10 12).1 ≡ true)
    ↔ (12 < 15)
unfolding acquire is_taken get
renew_in_time_example =
    renew_in_time [] "producer" "a" 10 10 5 12 others_calls refl
      ((b_not_a, omega arith), ((b_not_a, omega arith), tt))

get-set_until_example :
    ((12 < 15) → (Values.get (Values.set [] "key" "v" 10 5) "key" 12).1 ≡ some "v")
    × ((15 ≤ 12) → (Values.get (Values.set [] "key" "v" 10 5) "key" 12).1 ≡ none)
get-set_until_example = get-set_until [] "key" "v" 10 5 12

abbrev input : DemandInput
input = record {
  session_id = "s";
  viewer_hash = "v";
  segment_index = 7;
  observed_at = 100;
  window = 30;
  discontinuity = true;
}

-- The demands of two sessions.
abbrev old_demand : SegmentDemand
old_demand = record {
  segment_index = 3;
  observed_at = 90;
  anchor_segment = none;
  anchor_observed_at = none;
}

abbrev stored : Map (Map SegmentDemand)
stored = ("s", ("w", old_demand) ∷ []) ∷ ("t", ("v", old_demand) ∷ []) ∷ []

stored-EachOnce : EachOnce stored
unfolding inner get
stored-EachOnce s = ground arith

list_demands-record_demand_example :
    Sees input "v" 110 30
      (get "v" (inner "s" stored))
      (get "v" (list_demands "s" 110 30 (record_demand input stored)).1)
list_demands-record_demand_example =
    list_demands-record_demand input stored "v" 110 30 stored-EachOnce

abbrev watching : ViewerInput
watching = record {
  session_id = "s";
  edge_node_id = "edge";
  viewer_hash = "v";
  observed_at = 100;
  window = 30;
}

-- Two viewers, of whom one is watching again, and a third who has left.
abbrev seen_before : Map (Map ℕ)
seen_before =
    (total_key "s", ("v", 95) ∷ ("w", 90) ∷ ("x", 60) ∷ [])
    ∷ (edge_key "s" "edge", ("v", 95) ∷ [])
    ∷ []

count_viewers-record_viewer_example :
    Counted watching 110
      (inner (edge_key "s" "edge") seen_before)
      (inner (total_key "s") seen_before)
      (record_viewer watching seen_before).1
      (count_viewers "s" 110 30 (record_viewer watching seen_before).0).1
unfolding inner get
count_viewers-record_viewer_example =
    count_viewers-record_viewer watching seen_before 110 (omega arith) (refl, tt)
      (refl, (refl, (refl, tt)))

answers-refine_example :
    answers [] (acquires "k" "a" 10 5 ∷ acquires "k" "b" 10 6 ∷ acquires "k" "b" 10 16 ∷ [])
    ≡ hold_all
        (holders [])
        (acquires "k" "a" 10 5 ∷ acquires "k" "b" 10 6 ∷ acquires "k" "b" 10 16 ∷ [])
answers-refine_example =
    answers-refine [] 0
      (acquires "k" "a" 10 5 ∷ acquires "k" "b" 10 6 ∷ acquires "k" "b" 10 16 ∷ [])
      (omega arith, (omega arith, (omega arith, tt)))
