-- ===== src/Producer/Holding.antt =====
-- What a start holds afterwards: the lease and the record.
use vrrelay.Prelude.{
  ℕ, String, Bool, true, false, some, Map, if◌then◌else◌, ◌≡◌, ◌≢◌, refl, ◌⊎◌, inl, inr, arith,
  eq_iff, eq_refl, Option-cases,
}
use vrrelay.Prelude.Maps.{get, get-delete}
use vrrelay.Coordination.Leases.{Lease, is_taken, acquire, release}
use vrrelay.Repository.{Table}
use vrrelay.Producer.Record.{VodProducer}
use vrrelay.Producer.Admission.{Slots, reserve}
use vrrelay.Producer.Active.{Active}
use vrrelay.Producer.Start.{
  World, Env, locked, Trial, gives_up, fails, hands_off, Outcome, throws, handed, lease_key,
  settle_start, with_lease, with_slot, start_from, start_exclusive, attempt_start, given_up,
  locked_elsewhere,
}

-- No lease of the key is the owner's.
abbrev pub Foreign : String → String → Map Lease → Type 0
Foreign key owner leases = (l : Lease) → get key leases ≡ some l → l.owner ≢ owner

release-Foreign :
    (leases : Map Lease) (key owner : String) → Foreign key owner (release leases key owner)
unfolding release
release-Foreign leases key owner l h = elim (Option-cases (get key leases)) [
  | inl e ↦ absurd (ground arith)
  | inr (old, e) ↦
      λ same. ground (arith, get-delete key key leases, eq_refl key, eq_iff old.owner owner)
]

refused-Foreign :
    (leases : Map Lease) (key owner : String) (ttl now : ℕ)
    → (acquire leases key owner ttl now).1 ≡ false
    → Foreign key owner (acquire leases key owner ttl now).0
unfolding acquire is_taken
refused-Foreign leases key owner ttl now h l e same = elim (Option-cases (get key leases)) [
  | inl n ↦ ground arith
  | inr (old, m) ↦ ground (arith, eq_iff old.owner owner)
]

-- A start was handed over, or its lease is not held.
abbrev pub Returned : Env → World × Outcome → Type 0
Returned e r =
    ((a : Active) × (r.1 ≡ handed a)) ⊎ Foreign (lease_key e.session_id) e.owner r.0.leases

settle_start-Returned :
    (e : Env) (p : String) (w : World) (r : Table VodProducer × Trial)
    → Returned e (settle_start e p w r)
unfolding settle_start given_up
settle_start-Returned e p w (t, gives_up g) = inr (release-Foreign _ _ _)
settle_start-Returned e p w (t, fails x g) = inr (release-Foreign _ _ _)
settle_start-Returned e p w (t, hands_off a) = inl (a, refl)

with_lease-Returned :
    (e : Env) (p : String) (w : World) (l : Map Lease × Bool)
    → ((l.1 ≡ false) → Foreign (lease_key e.session_id) e.owner l.0)
    → Returned e (with_lease e p w l)
unfolding with_lease
with_lease-Returned e p w (leases, false) h = inr (h refl)
with_lease-Returned e p w (leases, true) h =
    settle_start-Returned e p (record w { leases = leases }) (attempt_start e p w.table)

-- A start that is not handed over keeps no lease, as long as its owner, which is made for it, held
-- none before.
pub start_exclusive-Returned :
    (e : Env) (w : World)
    → Foreign (lease_key e.session_id) e.owner w.leases
    → Returned e (start_exclusive e w)
unfolding start_exclusive start_from
start_exclusive-Returned e w before = elim (Option-cases e.session.provider_id) [
  | inl h ↦ rw (h, start_exclusive) (inr before)
  | inr (p, h) ↦ rw (h, start_exclusive) (by_lock p (locked_elsewhere e.node_id e.session))
]
  where
    by_slot : (p : String) (r : Slots × Bool) → Returned e (with_slot e p w r)
    by_slot p (slots, false) = inr before
    by_slot p (slots, true) =
        with_lease-Returned e p (record w { slots = e.others_slots slots })
          (acquire w.leases (lease_key e.session_id) e.owner e.lease_ms e.now)
          (refused-Foreign w.leases (lease_key e.session_id) e.owner e.lease_ms e.now)

    by_lock :
        (p : String) (b : Bool)
        → Returned e
            (if b then (w, throws locked) else with_slot e p w (reserve e.limits w.slots p))
    by_lock p true = inr before
    by_lock p false = by_slot p (reserve e.limits w.slots p)
