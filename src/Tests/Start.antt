-- ===== src/Tests/Start.antt =====
-- Starts that succeed, fail and lose a race.
use vrrelay.Prelude.{
  ℕ, ◌+◌, ◌≤◌, ◌≡◌, Map, String, refl, false, none, some, [], ◌∷◌, str_eq, if◌then◌else◌, arith,
  eq_iff,
}
use vrrelay.Prelude.Maps.{get, set, delete, get-set, get-delete}
use vrrelay.Coordination.Leases.{acquire, is_taken}
use vrrelay.Repository.{insert}
use vrrelay.Repository.Interference.{insert-Grows}
use vrrelay.Producer.Record.{VodProducer}
use vrrelay.Producer.Updates.{started}
use vrrelay.Producer.Watermarks.{new_pacer}
use vrrelay.Producer.Active.{Active}
use vrrelay.Producer.Admission.{reserve, reserved_for, total, active_for}
use vrrelay.Producer.Start.{
  SessionInfo, World, Env, lease_key, start_exclusive, new_active, start_from, with_slot,
  with_lease, settle_start, attempt_start, check_fresh, check_source, take_over, write_record,
  after_store, store_record, with_pacer, locked_elsewhere,
}
use vrrelay.Producer.Starting
use vrrelay.Producer.Starting.{Settled, reserved_slots, met_slots, start_exclusive-Settled}
use vrrelay.Producer.Holding.{Foreign, Returned, start_exclusive-Returned}
use vrrelay.Producer.Owning.{Owns, start_exclusive-Owns}

abbrev watched : SessionInfo
watched = record {
  provider_id = some "p";
  stopped = false;
  placement_locked = false;
  assigned_node_id = none;
}

-- Another process creates the record between the read and the write.
abbrev rival : VodProducer
rival = started none "s" "other" 9 60000 90000 900

abbrev env : Env
env = record {
  session_id = "s";
  node_id = "node";
  owner = "node:1";
  lease_ms = 60000;
  idle_ms = 90000;
  limits = record { all = 2; per_provider = 1 };
  maximum_rate = record { num = 5; den = 4 };
  session = watched;
  fresh = some watched;
  index = 4;
  now = 1000;
  later = 2000;
  aborted = λ _. false;
  fails_at = λ _. false;
  stop_state = none;
  before_read = λ t. t;
  before_write = λ t. (insert t "s" rival).0;
  others = λ n t. t;
  others_leases = λ l. l;
  others_slots = λ s. record s {
    reservations = set "q" (reserved_for "q" s.reservations + 1) (delete "x" s.reservations);
  };
}

abbrev empty : World
empty = record { leases = []; table = []; slots = record { active = []; reservations = [] } }

-- Another start holds a reservation for "x" and gives it back, and a third one takes one for "q".
abbrev busy : World
busy = record {
  leases = [];
  table = [];
  slots = record { active = []; reservations = ("x", 1) ∷ [] };
}

abbrev took : String → ℕ
took q = if str_eq "q" q then 1 else 0

abbrev gave : String → ℕ
gave q = if str_eq "x" q then 1 else 0

moved :
    (x y q : String) (m : Map ℕ)
    → str_eq x y ≡ false
    → reserved_for x m ≡ 1
    → reserved_for q (set y (reserved_for y m + 1) (delete x m)) + (if str_eq x q then 1 else 0)
      ≡ reserved_for q m + (if str_eq y q then 1 else 0)
moved x y q m e h = ground (
  arith,
  get-set q y (reserved_for y m + 1) (delete x m),
  get-delete q x m,
  eq_iff x q,
  eq_iff y q,
  eq_iff x y,
)

held : (x q : String) → (if str_eq x q then 1 else 0) ≤ reserved_for q ((x, 1) ∷ [])
unfolding get
held x q = ground (arith, eq_iff x q)

busy-Foreign : Starting.Foreign busy.slots (reserved_slots env busy) (met_slots env busy) took gave
unfolding reserve total active_for get set
busy-Foreign = record {
  counts = λ q. moved "x" "q" q (reserved_slots env busy).reservations refl refl;
  own = λ q. omega (arith, held "x" q);
}

start_exclusive-Settled_example :
    Settled env busy.slots
      (met_slots env busy)
      took
      gave
      (start_exclusive env busy).0.slots
      (start_exclusive env busy).1
start_exclusive-Settled_example = start_exclusive-Settled env busy took gave busy-Foreign

nobody_holds : Foreign (lease_key "s") "node:1" []
unfolding get
nobody_holds l h = cc

start_exclusive-Returned_example : Returned env (start_exclusive env empty)
start_exclusive-Returned_example = start_exclusive-Returned env empty nobody_holds

abbrev producer : Active
producer =
    new_active env watched "p" 1
      (record { maximum = record { num = 5; den = 4 }; rate = record { num = 5; den = 4 } })

start_exclusive-Owns_example : Owns env [] (start_exclusive env empty).0.table producer
unfolding start_exclusive start_from with_slot with_lease settle_start attempt_start check_fresh
    check_source take_over write_record after_store store_record with_pacer locked_elsewhere acquire
    is_taken reserve total active_for get set new_pacer
start_exclusive-Owns_example =
    start_exclusive-Owns env empty (λ u. insert-Grows u "s" rival) producer refl
