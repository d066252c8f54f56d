-- ===== src/Coordination/Refinement.antt =====
-- The leases as a client sees them: who holds which key at which time.
use vrrelay.Prelude.{
  ℕ, ◌+◌, ◌≤◌, String, Bool, true, false, not, Option, none, some, List, [], ◌∷◌, ltb, str_eq, Map,
  if◌then◌else◌, ◌≡◌, refl, arith, eq_iff, Option-cases, inl, inr, ap, ◌∙◌,
}
use vrrelay.Prelude.Maps.{get, get-set, get-delete}
use vrrelay.Coordination.Leases.{Lease, is_taken, acquire, renew, release}
use vrrelay.Coordination.Exclusion.{Call, acquires, renews, releases, time}

-- Who holds a key from now on, time by time.
abbrev pub Holders : Type 0
Holders = String → ℕ → Option String

abbrev pub held_until : Option Lease → ℕ → Option String
held_until none at = none
held_until (some l) at = if ltb at l.expires_at then some l.owner else none

-- The holders by a table of leases.
abbrev pub holders : Map Lease → Holders
holders leases key at = held_until (get key leases) at

abbrev is_other : Option String → String → Bool
is_other none owner = false
is_other (some o) owner = not (str_eq o owner)

abbrev is_own : Option String → String → Bool
is_own none owner = false
is_own (some o) owner = str_eq o owner

abbrev with_holder : Holders → String → (ℕ → Option String) → Holders
with_holder h key f k at = if str_eq key k then f at else h k at

abbrev until : String → ℕ → ℕ → Option String
until owner end at = if ltb at end then some owner else none

-- What a call does to the holders, and its answer: a key is acquired unless another client holds it,
-- renewed if the client itself holds it, and given up if the client holds it.
unfoldable pub hold : Holders → Call → Holders × Bool
hold h (acquires key owner ttl now) =
    if is_other (h key now) owner
    then (h, false)
    else (with_holder h key (until owner (now + ttl)), true)
hold h (renews key owner ttl now) =
    if is_own (h key now) owner
    then (with_holder h key (until owner (now + ttl)), true)
    else (h, false)
hold h (releases key owner now) =
    ((if is_own (h key now) owner then with_holder h key (λ at. none) else h), true)

-- The same calls of the store.
unfoldable pub answer : Map Lease → Call → Map Lease × Bool
answer leases (acquires key owner ttl now) = acquire leases key owner ttl now
answer leases (renews key owner ttl now) = renew leases key owner ttl now
answer leases (releases key owner now) = (release leases key owner, true)

unfoldable pub answers : Map Lease → List Call → List Bool
answers leases [] = []
answers leases (c ∷ cs) = let r = answer leases c in r.1 ∷ answers r.0 cs

unfoldable pub hold_all : Holders → List Call → List Bool
hold_all h [] = []
hold_all h (c ∷ cs) = let r = hold h c in r.1 ∷ hold_all r.0 cs

-- Calls in the order of their times.
abbrev pub InOrder : ℕ → List Call → Type 0
InOrder now [] = Unit
InOrder now (c ∷ cs) = (now ≤ time c) × InOrder (time c) cs

-- From a time on, the table and the holders agree.
abbrev Agrees : ℕ → Map Lease → Holders → Type 0
Agrees now leases h = (k : String) (at : ℕ) → now ≤ at → holders leases k at ≡ h k at

acquire-Agrees :
    (leases : Map Lease) (h : Holders) (key owner : String) (ttl now : ℕ)
    → Agrees now leases h
    → let r = acquire leases key owner ttl now in
      let s = hold h (acquires key owner ttl now) in (r.1 ≡ s.1) × Agrees now r.0 s.0
unfolding acquire hold is_taken
acquire-Agrees leases h key owner ttl now agrees = elim (Option-cases (get key leases)) [
  | inl n ↦ (
    ground (arith, n, agrees key now),
    λ k at late. ground (
      arith,
      n,
      agrees key now,
      agrees k at late,
      eq_iff key k,
      get-set k key (record { owner = owner; expires_at = now + ttl }) leases,
    ),
  )
  | inr (l, e) ↦ (
    ground (arith, e, agrees key now),
    λ k at late. ground (
      arith,
      e,
      agrees key now,
      agrees k at late,
      eq_iff key k,
      eq_iff l.owner owner,
      get-set k key (record { owner = owner; expires_at = now + ttl }) leases,
    ),
  )
]

renew-Agrees :
    (leases : Map Lease) (h : Holders) (key owner : String) (ttl now : ℕ)
    → Agrees now leases h
    → let r = renew leases key owner ttl now in
      let s = hold h (renews key owner ttl now) in (r.1 ≡ s.1) × Agrees now r.0 s.0
unfolding renew hold
renew-Agrees leases h key owner ttl now agrees = elim (Option-cases (get key leases)) [
  | inl n ↦ (
    ground (arith, n, agrees key now),
    λ k at late. ground (arith, n, agrees key now, agrees k at late, eq_iff key k),
  )
  | inr (l, e) ↦ (
    ground (arith, e, agrees key now, eq_iff l.owner owner),
    λ k at late. ground (
      arith,
      e,
      agrees key now,
      agrees k at late,
      eq_iff key k,
      eq_iff l.owner owner,
      get-set k key (record l { expires_at = now + ttl }) leases,
    ),
  )
]

release-Agrees :
    (leases : Map Lease) (h : Holders) (key owner : String) (now : ℕ)
    → Agrees now leases h
    → Agrees now (release leases key owner) (hold h (releases key owner now)).0
unfolding release hold
release-Agrees leases h key owner now agrees k at late = elim (Option-cases (get key leases)) [
  | inl n ↦ ground (arith, n, agrees key now, agrees k at late, eq_iff key k)
  | inr (l, e) ↦ ground (
    arith,
    e,
    agrees key now,
    agrees k at late,
    eq_iff key k,
    eq_iff l.owner owner,
    get-delete k key leases,
  )
]

answer-Agrees :
    (leases : Map Lease) (h : Holders) (c : Call)
    → Agrees (time c) leases h
    → ((answer leases c).1 ≡ (hold h c).1) × Agrees (time c) (answer leases c).0 (hold h c).0
unfolding answer hold
answer-Agrees leases h (acquires key owner ttl now) g = acquire-Agrees leases h key owner ttl now g
answer-Agrees leases h (renews key owner ttl now) g = renew-Agrees leases h key owner ttl now g
answer-Agrees leases h (releases key owner now) g = (refl, release-Agrees leases h key owner now g)

answers-hold :
    (now : ℕ) (leases : Map Lease) (h : Holders) (cs : List Call)
    → InOrder now cs
    → Agrees now leases h
    → answers leases cs ≡ hold_all h cs
unfolding answers hold_all
answers-hold now leases h [] ordered g = refl
answers-hold now leases h (c ∷ cs) (later, ordered) g =
    let (same, agrees) =
      answer-Agrees leases h c (λ k at late. g k at (omega (arith, later, late))) in
    let rest = answers-hold (time c) (answer leases c).0 (hold h c).0 cs ordered agrees in
    ap (λ b. b ∷ answers (answer leases c).0 cs) same ∙ ap (λ bs. (hold h c).1 ∷ bs) rest

-- The store of leases is an implementation of exclusive holders: any sequence of calls of any clients
-- on any keys, in the order of their times, gets the answers that it gets from the holders by the
-- table, where a key is acquired unless another client holds it at the time, renewed if the client
-- holds it, and given up if the client holds it. Leases that have run out make no difference.
pub answers-refine :
    (leases : Map Lease) (now : ℕ) (cs : List Call)
    → InOrder now cs
    → answers leases cs ≡ hold_all (holders leases) cs
answers-refine leases now cs ordered =
    answers-hold now leases (holders leases) cs ordered (λ k at late. refl)
