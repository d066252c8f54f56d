-- ===== src/Producer/Admission.antt =====
-- `#reserveProducer` and `#releaseReservation` of vod-producer-coordinator.ts: how many producers may
-- run here, in all and for one provider. `active` holds the provider of each session's producer.
use vrrelay.Prelude.{
  ℕ, suc, ◌+◌, ◌-◌, String, Bool, true, false, ◌||◌, [], ◌∷◌, leb, Map, if◌then◌else◌, or_else,
  str_eq, length,
}
use vrrelay.Prelude.Maps.{get, set, delete}

pub record Slots : Type 0 where
  pub active : Map String
  pub reservations : Map ℕ

-- `maxConcurrentProducers` and `maxConcurrentProducersPerProvider`, their defaults filled in.
pub record Limits : Type 0 where
  pub all : ℕ
  pub per_provider : ℕ

unfoldable pub total : Map ℕ → ℕ
total [] = 0
total ((k, n) ∷ m) = n + total m

unfoldable pub active_for : String → Map String → ℕ
active_for provider [] = 0
active_for provider ((session, p) ∷ m) =
    let rest = active_for provider m in if str_eq p provider then suc rest else rest

abbrev pub reserved_for : String → Map ℕ → ℕ
reserved_for provider m = or_else (get provider m) 0

unfoldable pub reserve : Limits → Slots → String → Slots × Bool
reserve limits s provider =
    if leb limits.all (length s.active + total s.reservations)
      || leb limits.per_provider
          (active_for provider s.active + reserved_for provider s.reservations)
    then (s, false)
    else (
      record s {
        reservations = set provider (reserved_for provider s.reservations + 1) s.reservations;
      },
      true,
    )

unfoldable pub release_reservation : Slots → String → Slots
release_reservation s provider =
    let current = reserved_for provider s.reservations in
    record s {
      reservations =
          if leb current 1
          then delete provider s.reservations
          else set provider (current - 1) s.reservations;
    }

-- `#startExclusive` hands a start over: the producer becomes active, then its reservation goes.
unfoldable pub hand_over : Slots → String → String → Slots
unfolding release_reservation
hand_over s session provider =
    release_reservation (record s { active = set session provider s.active }) provider

-- `#run` ends.
unfoldable pub remove_active : Slots → String → Slots
remove_active s session = record s { active = delete session s.active }
