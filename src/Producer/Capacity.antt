-- ===== src/Producer/Capacity.antt =====
-- The limits hold at all times.
use vrrelay.Prelude.{
  ℕ, ◌+◌, ◌-◌, ◌≤◌, ◌<◌, String, Bool, true, false, [], ◌∷◌, Map, str_eq, length, ◌≡◌, arith,
  eq_iff,
}
use vrrelay.Prelude.Maps.{get, set, delete, get-set, get-delete}
use vrrelay.Producer.Admission.{
  Slots, Limits, total, active_for, reserved_for, reserve, release_reservation, hand_over,
  remove_active,
}

total-set : (k : String) (n : ℕ) (m : Map ℕ) → total (set k n m) + reserved_for k m ≡ total m + n
unfolding total set get
total-set k n [] = omega arith
total-set k n ((j, v) ∷ m) = ground (arith, total-set k n m)

total-delete : (k : String) (m : Map ℕ) → total (delete k m) + reserved_for k m ≤ total m
unfolding total delete get
total-delete k [] = omega arith
total-delete k ((j, v) ∷ m) = ground (arith, total-delete k m)

-- 1 for the provider itself.
abbrev one_if : Bool → ℕ
one_if true = 1
one_if false = 0

active_for-set :
    (p q session : String) (m : Map String)
    → active_for p (set session q m) ≤ active_for p m + one_if (str_eq q p)
unfolding active_for set
active_for-set p q session [] = ground arith
active_for-set p q session ((j, v) ∷ m) = ground (arith, active_for-set p q session m)

active_for-delete :
    (p session : String) (m : Map String) → active_for p (delete session m) ≤ active_for p m
unfolding active_for delete
active_for-delete p session [] = omega arith
active_for-delete p session ((j, v) ∷ m) = ground (arith, active_for-delete p session m)

length-set : (k : String) (v : String) (m : Map String) → length (set k v m) ≤ length m + 1
unfolding set
length-set k v [] = omega arith
length-set k v ((j, w) ∷ m) = ground (arith, length-set k v m)

length-delete : (k : String) (m : Map String) → length (delete k m) ≤ length m
unfolding delete
length-delete k [] = omega arith
length-delete k ((j, w) ∷ m) = ground (arith, length-delete k m)

module _ (limits : Limits) where
  pub record IsAdmitted (s : Slots) : Type 0 where
    pub all : length s.active + total s.reservations ≤ limits.all
    pub per_provider :
        (p : String) → active_for p s.active + reserved_for p s.reservations ≤ limits.per_provider

  -- What the coordinator does with its slots. A start that is handed over or given up holds a
  -- reservation for its provider.
  pub data Step (s : Slots) : Slots → Type 0 where
    reserves : (provider : String) → Step s (reserve limits s provider).0
    hands_over :
        (session provider : String)
        → 0 < reserved_for provider s.reservations
        → Step s (hand_over s session provider)
    gives_up : (provider : String) → Step s (release_reservation s provider)
    ends : (session : String) → Step s (remove_active s session)

  pub data Reach : Slots → Type 0 where
    start : Reach (record { active = []; reservations = [] })
    next : {s t : Slots} → Reach s → Step s t → Reach t

  reserve-IsAdmitted : (s : Slots) (q : String) → IsAdmitted s → IsAdmitted (reserve limits s q).0
  unfolding reserve
  reserve-IsAdmitted s q h = record {
    all = ground (arith, h.all, total-set q (reserved_for q s.reservations + 1) s.reservations);
    per_provider = λ p. ground (
      arith,
      h.per_provider p,
      get-set p q (reserved_for q s.reservations + 1) s.reservations,
      eq_iff q p,
    );
  }

  release-IsAdmitted :
      (s : Slots) (q : String) → IsAdmitted s → IsAdmitted (release_reservation s q)
  unfolding release_reservation
  release-IsAdmitted s q h = record {
    all = ground (
      arith,
      h.all,
      total-set q (reserved_for q s.reservations - 1) s.reservations,
      total-delete q s.reservations,
    );
    per_provider = λ p. ground (
      arith,
      h.per_provider p,
      get-set p q (reserved_for q s.reservations - 1) s.reservations,
      get-delete p q s.reservations,
      eq_iff q p,
    );
  }

  hand_over-IsAdmitted :
      (s : Slots) (session q : String)
      → 0 < reserved_for q s.reservations
      → IsAdmitted s
      → IsAdmitted (hand_over s session q)
  unfolding hand_over
  hand_over-IsAdmitted s session q held h = record {
    all = ground (
      arith,
      h.all,
      length-set session q s.active,
      total-set q (reserved_for q s.reservations - 1) s.reservations,
      total-delete q s.reservations,
    );
    per_provider = λ p. ground (
      arith,
      h.per_provider p,
      active_for-set p q session s.active,
      get-set p q (reserved_for q s.reservations - 1) s.reservations,
      get-delete p q s.reservations,
      eq_iff q p,
    );
  }

  remove_active-IsAdmitted :
      (s : Slots) (session : String) → IsAdmitted s → IsAdmitted (remove_active s session)
  unfolding remove_active
  remove_active-IsAdmitted s session h = record {
    all = omega (arith, h.all, length-delete session s.active);
    per_provider = λ p. omega (arith, h.per_provider p, active_for-delete p session s.active);
  }

  Step-IsAdmitted : {s t : Slots} → Step s t → IsAdmitted s → IsAdmitted t
  Step-IsAdmitted {s} (reserves q) h = reserve-IsAdmitted s q h
  Step-IsAdmitted {s} (hands_over session q held) h = hand_over-IsAdmitted s session q held h
  Step-IsAdmitted {s} (gives_up q) h = release-IsAdmitted s q h
  Step-IsAdmitted {s} (ends session) h = remove_active-IsAdmitted s session h

-- Through any sequence of reservations, starts that are handed over or given up, and ends, the
-- producers that run and the reservations together stay within both limits: the one for all and,
-- for every provider, the one per provider. A start that is handed over holds a reservation.
pub Reach-IsAdmitted : (limits : Limits) (s : Slots) → Reach limits s → IsAdmitted limits s
unfolding total active_for get
Reach-IsAdmitted limits _ start = record { all = omega arith; per_provider = λ p. omega arith }
Reach-IsAdmitted limits _ (next {s} r st) = Step-IsAdmitted limits st (Reach-IsAdmitted limits s r)
