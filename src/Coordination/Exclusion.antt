-- ===== src/Coordination/Exclusion.antt =====
-- What a lease promises: while it runs, nobody but its owner changes it or gets another.
use vrrelay.Prelude.{
  ℕ, ◌+◌, ◌<◌, String, ◌≡◌, ◌≢◌, true, false, some, List, [], ◌∷◌, All, Map, arith, eq_iff, eq_refl,
  Option-cases, ◌↔◌, inl, inr,
}
use vrrelay.Prelude.Maps.{get, get-set, get-delete}
use vrrelay.Coordination.Leases.{Lease, acquire, renew, release}

-- A call of one client at one time.
pub data Call : Type 0 where
  acquires renews : String → String → ℕ → ℕ → Call
  releases : String → String → ℕ → Call

abbrev pub caller : Call → String
caller (acquires key owner ttl now) = owner
caller (renews key owner ttl now) = owner
caller (releases key owner now) = owner

abbrev pub time : Call → ℕ
time (acquires key owner ttl now) = now
time (renews key owner ttl now) = now
time (releases key owner now) = now

unfoldable pub step : Map Lease → Call → Map Lease
step leases (acquires key owner ttl now) = (acquire leases key owner ttl now).0
step leases (renews key owner ttl now) = (renew leases key owner ttl now).0
step leases (releases key owner now) = release leases key owner

unfoldable pub run : Map Lease → List Call → Map Lease
unfolding step
run leases [] = leases
run leases (c ∷ cs) = run (step leases c) cs

module _ (key : String) (l : Lease) where
  renew-get :
      (leases : Map Lease) (k o : String) (ttl now : ℕ)
      → get key leases ≡ some l
      → o ≢ l.owner
      → get key (renew leases k o ttl now).0 ≡ some l
  unfolding renew
  renew-get leases k o ttl now h other = elim (Option-cases (get k leases)) [
    | inl e ↦ rw (e, renew) h
    | inr (l', e) ↦ ground (
      arith,
      get-set key k (record l' { expires_at = now + ttl }) leases,
      eq_iff k key,
      eq_iff l'.owner o,
    )
  ]

  release-get :
      (leases : Map Lease) (k o : String)
      → get key leases ≡ some l
      → o ≢ l.owner
      → get key (release leases k o) ≡ some l
  unfolding release
  release-get leases k o h other = elim (Option-cases (get k leases)) [
    | inl e ↦ rw (e, release) h
    | inr (l', e) ↦ ground (arith, get-delete key k leases, eq_iff k key, eq_iff l'.owner o)
  ]

  -- A call by another client, made before the lease runs out, leaves the lease as it is.
  step-get :
      (leases : Map Lease) (c : Call)
      → get key leases ≡ some l
      → caller c ≢ l.owner
      → time c < l.expires_at
      → get key (step leases c) ≡ some l
  unfolding step acquire
  step-get leases (acquires k o ttl now) h other early = ground (
    arith,
    get-set key k (record { owner = o; expires_at = now + ttl }) leases,
    eq_iff k key,
    eq_iff l.owner o,
  )
  step-get leases (renews k o ttl now) h other early = renew-get leases k o ttl now h other
  step-get leases (releases k o now) h other early = release-get leases k o h other

  abbrev Foreign : Call → Type 0
  Foreign c = (caller c ≢ l.owner) × (time c < l.expires_at)

  run-get :
      (leases : Map Lease) (cs : List Call)
      → get key leases ≡ some l
      → All Foreign cs
      → get key (run leases cs) ≡ some l
  unfolding run
  run-get leases [] h _ = h
  run-get leases (c ∷ cs) h ((other, early), rest) =
      run-get (step leases c) cs (step-get leases c h other early) rest

granted :
    (leases : Map Lease) (key owner : String) (ttl now : ℕ)
    → (acquire leases key owner ttl now).1 ≡ true
    → get key (acquire leases key owner ttl now).0
      ≡ some (record { owner = owner; expires_at = now + ttl })
unfolding acquire
granted leases key owner ttl now h =
    ground (
      arith,
      get-set key key (record { owner = owner; expires_at = now + ttl }) leases,
      eq_refl key,
    )

refused_taken :
    (leases : Map Lease) (l : Lease) (key owner : String) (ttl now : ℕ)
    → get key leases ≡ some l
    → owner ≢ l.owner
    → now < l.expires_at
    → acquire leases key owner ttl now ≡ (leases, false)
unfolding acquire
refused_taken leases l key owner ttl now h other early = ground (arith, eq_iff l.owner owner)

-- Mutual exclusion. When `acquire` has granted a lease, then through any sequence of calls on any
-- keys that other clients make before it runs out, every further `acquire` of the same key by
-- another client, at a time before it runs out, is refused and changes nothing.
pub acquire-excludes :
    (leases : Map Lease) (key owner other : String) (ttl ttl' now later : ℕ) (cs : List Call)
    → (acquire leases key owner ttl now).1 ≡ true
    → All (λ c. (caller c ≢ owner) × (time c < now + ttl)) cs
    → other ≢ owner
    → later < now + ttl
    → let s = run (acquire leases key owner ttl now).0 cs in
      acquire s key other ttl' later ≡ (s, false)
acquire-excludes leases key owner other ttl ttl' now later cs h foreign distinct early =
    refused_taken _ (record { owner = owner; expires_at = now + ttl }) key other ttl' later
      (run-get key _ _ cs (granted leases key owner ttl now h) foreign) distinct early

-- The owner can always renew in time: after a grant and calls of other clients before it runs out,
-- `renew` by the owner succeeds exactly when the lease has not run out.
pub renew_in_time :
    (leases : Map Lease) (key owner : String) (ttl ttl' now later : ℕ) (cs : List Call)
    → (acquire leases key owner ttl now).1 ≡ true
    → All (λ c. (caller c ≢ owner) × (time c < now + ttl)) cs
    → let s = run (acquire leases key owner ttl now).0 cs in
      ((renew s key owner ttl' later).1 ≡ true) ↔ (later < now + ttl)
unfolding renew
renew_in_time leases key owner ttl ttl' now later cs h foreign =
    let held =
      run-get key (record { owner = owner; expires_at = now + ttl }) _ cs
        (granted leases key owner ttl now h) foreign in
    ground (arith, held, eq_refl owner)
