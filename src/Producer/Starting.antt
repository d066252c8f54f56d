-- ===== src/Producer/Starting.antt =====
-- What a start leaves behind.
use vrrelay.Prelude.{
  ℕ, ◌+◌, ◌-◌, ◌≤◌, String, Bool, true, false, Map, Option, none, some, or_else, str_eq,
  if◌then◌else◌, ◌≡◌, ◌≢◌, refl, sym, ap, arith, eq_iff, eq_refl,
}
use vrrelay.Prelude.Maps.{set, get-set, get-delete}
use vrrelay.Coordination.Leases.{Lease, acquire}
use vrrelay.Repository.{Table}
use vrrelay.Producer.Record.{VodProducer}
use vrrelay.Producer.Admission.{
  Slots, Limits, reserved_for, reserve, release_reservation, hand_over,
}
use vrrelay.Producer.Active.{Active}
use vrrelay.Producer.Start.{
  World, Env, StartError, locked, Trial, gives_up, fails, hands_off, Outcome, nothing, throws,
  handed, lease_key, settle_start, with_lease, with_slot, start_from, start_exclusive,
  attempt_start, given_up, locked_elsewhere,
}

-- What others do to the reserved slots `r` until they are `u`, where the slots were `s` before the
-- reservation: for each provider they take and give so many reservations, and give back only what they
-- took or held before.
pub record Foreign (s r u : Slots) (took gave : String → ℕ) : Type 0 where
  pub counts :
      (q : String) → reserved_for q u.reservations + gave q ≡ reserved_for q r.reservations + took q
  pub own : (q : String) → gave q ≤ reserved_for q s.reservations + took q

-- The slots once a start has its reservation, and after what others do while it waits.
abbrev pub reserved_slots : Env → World → Slots
reserved_slots e w = (reserve e.limits w.slots (or_else e.session.provider_id "")).0

abbrev pub met_slots : Env → World → Slots
met_slots e w = e.others_slots (reserved_slots e w)

-- The slots `t` after a start that ends with `o`, where the slots were `s` before it and others left
-- `u` while it waited.
pub data Settled (e : Env) (s u : Slots) (took gave : String → ℕ) (t : Slots) (o : Outcome)
    : Type 0 where
  refused : (x : StartError) → o ≡ throws x → t ≡ s → Settled e s u took gave t o
  left :
      ((a : Active) → o ≢ handed a)
      → t.active ≡ u.active
      → ((q : String)
          → reserved_for q t.reservations + gave q ≡ reserved_for q s.reservations + took q)
      → Settled e s u took gave t o
  taken :
      (a : Active) (provider : String)
      → o ≡ handed a
      → e.session.provider_id ≡ some provider
      → t.active ≡ set e.session_id provider u.active
      → ((q : String)
          → reserved_for q t.reservations + gave q ≡ reserved_for q s.reservations + took q)
      → Settled e s u took gave t o

reserve-reserved :
    (limits : Limits) (s : Slots) (p q : String)
    → (reserve limits s p).1 ≡ true
    → reserved_for q (reserve limits s p).0.reservations
      ≡ reserved_for q s.reservations + (if str_eq p q then 1 else 0)
unfolding reserve
reserve-reserved limits s p q h =
    ground
      (arith, get-set q p (reserved_for p s.reservations + 1) s.reservations, eq_iff p q, eq_refl p)

release_reservation-reserved :
    (u : Slots) (p q : String)
    → reserved_for q (release_reservation u p).reservations
      ≡ reserved_for q u.reservations - (if str_eq p q then 1 else 0)
unfolding release_reservation
release_reservation-reserved u p q = ground (
  arith,
  get-set q p (reserved_for p u.reservations - 1) u.reservations,
  get-delete q p u.reservations,
  eq_iff p q,
)

-- A thrown or an absent result is not a hand-over.
throws_or_nothing :
    (b : Bool) (x : StartError) (a : Active) → (if b then nothing else throws x) ≢ handed a
throws_or_nothing b x a = ground arith

module _ (e : Env) (s u : Slots) (took gave : String → ℕ) (p : String)
    (source : e.session.provider_id ≡ some p) (admitted : (reserve e.limits s p).1 ≡ true)
    (foreign : Foreign s (reserve e.limits s p).0 u took gave) where
  returned :
      (active : Map String) (q : String)
      → reserved_for q
            (release_reservation
              (record { active = active; reservations = u.reservations })
              p).reservations
          + gave q
        ≡ reserved_for q s.reservations + took q
  returned active q = ground (
    arith,
    release_reservation-reserved (record { active = active; reservations = u.reservations }) p q,
    reserve-reserved e.limits s p q admitted,
    foreign.counts q,
    foreign.own q,
  )

  -- The world of a start that holds a reservation.
  abbrev holding : Map Lease → Table VodProducer → World
  holding leases t = record { leases = leases; table = t; slots = u }

  abbrev SlotsSettled : World × Outcome → Type 0
  SlotsSettled r = Settled e s u took gave r.0.slots r.1

  settle_start-Settled :
      (leases : Map Lease) (t : Table VodProducer) (r : Table VodProducer × Trial)
      → SlotsSettled (settle_start e p (holding leases t) r)
  unfolding settle_start given_up release_reservation hand_over
  settle_start-Settled leases t (_, gives_up g) = left (λ a. cc) refl (returned u.active)
  settle_start-Settled leases t (_, fails x g) =
      left (throws_or_nothing (e.aborted 4) x) refl (returned u.active)
  settle_start-Settled leases t (_, hands_off a) =
      taken a p refl source refl (returned (set e.session_id p u.active))

  with_lease-Settled :
      (t : Table VodProducer) (l : Map Lease × Bool) (old : Map Lease)
      → SlotsSettled (with_lease e p (holding old t) l)
  unfolding with_lease release_reservation
  with_lease-Settled t (leases, false) old = left (λ a. cc) refl (returned u.active)
  with_lease-Settled t (leases, true) old = settle_start-Settled leases t (attempt_start e p t)

-- However a start ends, it gives back exactly the one reservation that it made, whatever the other
-- starts and the ends of producers do to the worker's slots while it waits. A start that is refused
-- before it has a reservation leaves the slots as they were. After any other the reservations of every
-- provider are those before the start, with what the others took and without what they gave back;
-- and the sessions with a producer are those that the others left, with this session
-- and its provider added exactly if the start was handed over. The others give back only what they
-- took or held before. The session's callback and the calls of the record's store may throw; those of
-- the lease's do not.
pub start_exclusive-Settled :
    (e : Env) (w : World) (took gave : String → ℕ)
    → Foreign w.slots (reserved_slots e w) (met_slots e w) took gave
    → Settled e w.slots
        (met_slots e w)
        took
        gave
        (start_exclusive e w).0.slots
        (start_exclusive e w).1
unfolding start_exclusive start_from
start_exclusive-Settled e w took gave = by_source e.session.provider_id refl
  where
    met : String → Slots
    met p = e.others_slots (reserve e.limits w.slots p).0

    by_slot :
        (p : String)
        → e.session.provider_id ≡ some p
        → Foreign w.slots (reserve e.limits w.slots p).0 (met p) took gave
        → (r : Slots × Bool) → reserve e.limits w.slots p ≡ r
        → Settled e w.slots (met p) took gave (with_slot e p w r).0.slots (with_slot e p w r).1
    by_slot p source f (slots, false) h = refused _ refl refl
    by_slot p source f (slots, true) h =
        let same : slots ≡ (reserve e.limits w.slots p).0 =
          ap (λ (r : Slots × Bool). r.0) (sym h) in
        let admitted = ap (λ (r : Slots × Bool). r.1) h in
        rw same (
          with_lease-Settled e w.slots (met p) took gave p source admitted f w.table
            (acquire w.leases (lease_key e.session_id) e.owner e.lease_ms e.now) w.leases)

    by_lock :
        (p : String)
        → e.session.provider_id ≡ some p
        → Foreign w.slots (reserve e.limits w.slots p).0 (met p) took gave
        → (b : Bool)
        → let r = if b then (w, throws locked) else with_slot e p w (reserve e.limits w.slots p) in
          Settled e w.slots (met p) took gave r.0.slots r.1
    by_lock p source f true = refused _ refl refl
    by_lock p source f false = by_slot p source f _ refl

    by_source :
        (o : Option String)
        → e.session.provider_id ≡ o
        → Foreign w.slots (reserve e.limits w.slots (or_else o "")).0 (met (or_else o "")) took gave
        → Settled e w.slots
            (met (or_else o ""))
            took
            gave
            (start_from e w o).0.slots
            (start_from e w o).1
    by_source none source f = refused _ refl refl
    by_source (some p) source f = by_lock p source f (locked_elsewhere e.node_id e.session)
