-- ===== src/Producer/Start.antt =====
-- `#startExclusive` of vod-producer-coordinator.ts: a producer is started under a reservation and a
-- lease, and everything is given back unless it is handed over to `#run`. The callback that reads the
-- session and the reads and writes of the record may throw; acquiring and releasing the lease and the
-- clean-up do not, in this model.
use Prim.Native.String
use vrrelay.Prelude.{
  ℕ, ◌+◌, String, Bool, true, false, not, ◌&&◌, Option, none, some, Map, if◌then◌else◌, str_eq,
}
use vrrelay.Prelude.Maps.{get}
use vrrelay.Coordination.Leases.{Lease, acquire, release}
use vrrelay.Repository
use vrrelay.Repository.{
  Versioned, WriteResult, applied, not_found, revision_conflict, invalid_state, Table,
  compare_and_set,
}
use vrrelay.Repository.Loop.{Others}
use vrrelay.Producer.Record.{ProducerState, VodProducer, is_startable}
use vrrelay.Producer.Updates.{started, set_stopped, generation_of}
use vrrelay.Producer.Transition.{transition}
use vrrelay.Producer.Watermarks.{Rate, Pacer, new_pacer}
use vrrelay.Producer.Active.{StopState, idle, switching, cancelled, Active}
use vrrelay.Producer.Admission.{Slots, Limits, reserve, release_reservation, hand_over}

-- What the start reads of a session. An empty identifier counts as none.
pub record SessionInfo : Type 0 where
  pub provider_id : Option String
  pub stopped : Bool
  pub placement_locked : Bool
  pub assigned_node_id : Option String

-- What is shared: the leases, the records and this worker's slots.
pub record World : Type 0 where
  pub leases : Map Lease
  pub table : Table VodProducer
  pub slots : Slots

-- The arguments and options, the answers of the callbacks and the clock, and what others do: before
-- the read of the record, before its write, during the clean-up, and to the leases meanwhile; and what
-- the other starts and the ends of producers of this worker do to its slots while this one waits: its
-- own changes are made at once, the first before its first wait and the last after its last.
-- `aborted` gives the readings of the signal, in the order of the source. `fails_at` tells whether the
-- callback (0), the read (1) or the write throws, the last before (2) or after (3) it is stored.
pub record Env : Type 0 where
  pub session_id : String
  pub node_id : String
  pub owner : String
  pub lease_ms : ℕ
  pub idle_ms : ℕ
  pub limits : Limits
  pub maximum_rate : Rate
  pub session : SessionInfo
  pub fresh : Option SessionInfo
  pub index : ℕ
  pub now : ℕ
  pub later : ℕ
  pub aborted : ℕ → Bool
  pub fails_at : ℕ → Bool
  pub stop_state : Option StopState
  pub before_read : Table VodProducer → Table VodProducer
  pub before_write : Table VodProducer → Table VodProducer
  pub others : Others VodProducer
  pub others_leases : Map Lease → Map Lease
  pub others_slots : Slots → Slots

pub data StartError : Type 0 where
  no_source locked at_capacity no_session session_stopped source_changed ownership_changed bad_rate
        unavailable :
      StartError

-- How the guarded part ends: with the generation that was persisted, if any.
pub data Trial : Type 0 where
  gives_up : Option ℕ → Trial
  fails : StartError → Option ℕ → Trial
  hands_off : Active → Trial

pub data Outcome : Type 0 where
  nothing : Outcome
  throws : StartError → Outcome
  handed : Active → Outcome

abbrev is_other : String → Option String → Bool
is_other node none = false
is_other node (some n) = not (str_eq n node)

unfoldable pub locked_elsewhere : String → SessionInfo → Bool
locked_elsewhere node s = s.placement_locked && is_other node s.assigned_node_id

abbrev pub lease_key : String → String
lease_key session_id = String.◌++◌ "vod-producer:" session_id

abbrev pub value_of : Option (Versioned VodProducer) → Option VodProducer
value_of none = none
value_of (some r) = some r.value

-- The record over the former one.
abbrev pub new_record : Env → Option (Versioned VodProducer) → VodProducer
new_record e former =
    started (value_of former) e.session_id e.node_id e.index e.lease_ms e.idle_ms e.now

abbrev pub new_active : Env → SessionInfo → String → ℕ → Pacer → Active
new_active e f provider generation pace = record {
  generation = generation;
  aborted = false;
  owner = e.owner;
  provider_id = provider;
  start_segment_index = e.index;
  anchor_segment = e.index;
  anchor_at = e.now;
  last_applied_anchor_at = e.now;
  demanded_segment_index = e.index;
  last_published = none;
  last_demand_at = e.now;
  placement_locked = f.placement_locked;
  pacing = pace;
  published_any = false;
  pending_waiters = 0;
  watch_started_at = none;
  switch_candidate = none;
  progress_stall = false;
  stop_state = e.stop_state;
}

abbrev pub was_applied : WriteResult VodProducer → Bool
was_applied (applied r) = true
was_applied not_found = false
was_applied (revision_conflict r) = false
was_applied (invalid_state r) = false

-- The write, and whether the source goes on after it: a creation has no field `applied`, so the
-- source goes on also when the record was there already.
unfoldable pub store_record :
    Option (Versioned VodProducer)
    → Table VodProducer
    → String
    → VodProducer
    → Table VodProducer × Bool
store_record none t session_id p = ((Repository.insert t session_id p).0, true)
store_record (some r) t session_id p =
    let w = compare_and_set (λ q. is_startable q.state) t session_id p r.revision in
    (w.0, was_applied w.1)

unfoldable pub with_pacer : Env → SessionInfo → String → ℕ → Option Pacer → Trial
with_pacer e f provider generation none = fails bad_rate (some generation)
with_pacer e f provider generation (some pace) = hands_off (new_active e f provider generation pace)

unfoldable pub after_store :
    Env → SessionInfo → String → ℕ → Table VodProducer × Bool → Table VodProducer × Trial
unfolding with_pacer
after_store e f provider generation (t, false) = (t, fails ownership_changed none)
after_store e f provider generation (t, true) = (
  t,
  if e.aborted 3
      then gives_up (some generation)
      else with_pacer e f provider generation (new_pacer e.maximum_rate),
)

unfoldable pub write_record :
    Env
    → SessionInfo
    → String
    → Table VodProducer
    → Option (Versioned VodProducer)
    → Table VodProducer × Trial
unfolding after_store store_record
write_record e f provider read former =
    let stored = store_record former (e.before_write read) e.session_id (new_record e former) in
    if e.fails_at 2
    then (e.before_write read, fails unavailable none)
    else if e.fails_at 3
    then (stored.0, fails unavailable none)
    else after_store e f provider (generation_of (value_of former) + 1) stored

unfoldable pub take_over :
    Env → SessionInfo → String → Table VodProducer → Table VodProducer × Trial
unfolding write_record
take_over e f provider t =
    let read = e.before_read t in
    if e.fails_at 1
    then (read, fails unavailable none)
    else if e.aborted 2
    then (read, gives_up none)
    else write_record e f provider read (get e.session_id read)

unfoldable pub check_source :
    Env → SessionInfo → String → Table VodProducer → Option String → Table VodProducer × Trial
unfolding take_over locked_elsewhere
check_source e f provider t none = (t, fails no_source none)
check_source e f provider t (some q) =
    if not (str_eq q provider)
    then (t, fails source_changed none)
    else if locked_elsewhere e.node_id f
    then (t, fails locked none)
    else take_over e f provider t

unfoldable pub check_fresh :
    Env → String → Table VodProducer → Option SessionInfo → Table VodProducer × Trial
unfolding check_source
check_fresh e provider t none = (t, fails no_session none)
check_fresh e provider t (some f) =
    if f.stopped then (t, fails session_stopped none) else check_source e f provider t f.provider_id

unfoldable pub attempt_start : Env → String → Table VodProducer → Table VodProducer × Trial
unfolding check_fresh
attempt_start e provider t =
    if e.aborted 0
    then (t, gives_up none)
    else if e.fails_at 0
    then (t, fails unavailable none)
    else if e.aborted 1
    then (t, gives_up none)
    else check_fresh e provider t e.fresh

abbrev pub state_of : Option StopState → ProducerState
state_of none = ProducerState.cancelled
state_of (some idle) = ProducerState.idle
state_of (some switching) = ProducerState.switching
state_of (some cancelled) = ProducerState.cancelled

unfoldable pub cleaned : Env → Option ℕ → Table VodProducer → Table VodProducer
cleaned e none t = t
cleaned e (some generation) t =
    (transition e.others t e.session_id generation (set_stopped (state_of e.stop_state) e.later)).0

-- The end of a start that holds the lease and was not handed over.
unfoldable pub given_up : Env → String → World → Table VodProducer → Option ℕ → World
unfolding cleaned
given_up e provider w t persisted = record {
  leases = release (e.others_leases w.leases) (lease_key e.session_id) e.owner;
  table = cleaned e persisted t;
  slots = release_reservation w.slots provider;
}

unfoldable pub settle_start : Env → String → World → Table VodProducer × Trial → World × Outcome
unfolding given_up
settle_start e provider w (t, gives_up persisted) = (given_up e provider w t persisted, nothing)
settle_start e provider w (t, fails error persisted) =
    (given_up e provider w t persisted, if e.aborted 4 then nothing else throws error)
settle_start e provider w (t, hands_off a) =
    (record w { table = t; slots = hand_over w.slots e.session_id provider }, handed a)

unfoldable pub with_lease : Env → String → World → Map Lease × Bool → World × Outcome
unfolding settle_start attempt_start
with_lease e provider w (leases, false) =
    (record w { leases = leases; slots = release_reservation w.slots provider }, nothing)
with_lease e provider w (leases, true) =
    settle_start e provider (record w { leases = leases }) (attempt_start e provider w.table)

unfoldable pub with_slot : Env → String → World → Slots × Bool → World × Outcome
unfolding with_lease
with_slot e provider w (slots, false) = (w, throws at_capacity)
with_slot e provider w (slots, true) =
    with_lease e provider (record w { slots = e.others_slots slots })
      (acquire w.leases (lease_key e.session_id) e.owner e.lease_ms e.now)

unfoldable pub start_from : Env → World → Option String → World × Outcome
unfolding with_slot locked_elsewhere
start_from e w none = (w, throws no_source)
start_from e w (some provider) =
    if locked_elsewhere e.node_id e.session
    then (w, throws locked)
    else with_slot e provider w (reserve e.limits w.slots provider)

unfoldable pub start_exclusive : Env → World → World × Outcome
unfolding start_from
start_exclusive e w = start_from e w e.session.provider_id
