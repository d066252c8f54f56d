-- ===== src/Producer/Recovering.antt =====
-- What a recovery leaves behind.
use vrrelay.Prelude.{
  ℕ, ◌+◌, String, true, false, Option, none, some, List, [], ◌∷◌, if◌then◌else◌, ◌≡◌, refl, ap, ◌∙◌,
  ◌⊎◌, inl, inr, arith, Bool-cases, Option-cases, str_eq, eq_refl, All,
}
use vrrelay.Prelude.Maps.{get, set, get-set}
use vrrelay.Repository.{Table, Versioned}
use vrrelay.Repository.Interference.{Grows}
use vrrelay.Repository.Loop.{Others, wrote}
use vrrelay.Repository.Rounds.{run-Replaced}
use vrrelay.Repository.Quiet.{quiet_missing, quiet_stopped, quiet_wrote}
use vrrelay.Producer.Record.{ProducerState, VodProducer, is_active}
use vrrelay.Producer.Updates.{set_recovered}
use vrrelay.Producer.Recovery.{is_orphan, orphans, recover_one, recover_expired}

abbrev nobody : Others VodProducer
nobody n t = t

set_recovered-orphan : (now at : ℕ) (p : VodProducer) → is_orphan at (set_recovered now p) ≡ false
unfolding is_orphan set_recovered
set_recovered-orphan now at p = refl

module _ (now : ℕ) where
  -- The session's row, if any, is not an orphan.
  abbrev Settled : Option (Versioned VodProducer) → Type 0
  Settled none = Unit
  Settled (some row) = is_orphan now row.value ≡ false

  -- Each row is as before, or is settled.
  abbrev Progress : Table VodProducer → Table VodProducer → Type 0
  Progress t u = (k : String) → (get k u ≡ get k t) ⊎ Settled (get k u)

  active_of_orphan : (p : VodProducer) → is_orphan now p ≡ true → is_active p.state ≡ true
  unfolding is_orphan
  active_of_orphan p h = ground arith

  abbrev recovered : Versioned VodProducer → Versioned VodProducer
  recovered row = record { value = set_recovered now row.value; revision = row.revision + 1 }

  written-Settled :
      (t : Table VodProducer) (s : String) (row : Versioned VodProducer)
      → Settled (get s (set s (recovered row) t)) × Progress t (set s (recovered row) t)
  written-Settled t s row = (
    rw (get-set s s (recovered row) t, eq_refl s) (set_recovered-orphan now now row.value),
    λ k. elim (Bool-cases (str_eq s k)) [
      | inl e ↦ inr (rw (get-set k s (recovered row) t, e) (set_recovered-orphan now now row.value))
      | inr e ↦ inl (rw (get-set k s (recovered row) t, e) refl)
    ],
  )

  recover_one-Settled :
      (t : Table VodProducer) (s : String)
      → Settled (get s (recover_one now nobody t s).0) × Progress t (recover_one now nobody t s).0
  unfolding recover_one
  recover_one-Settled t s = elim (Option-cases (get s t)) [
    | inl h ↦ rw (quiet_missing (orphans now) 4 t s (set_recovered now) h) (rw h tt, λ k. inl refl)
    | inr (row, h) ↦ elim (Bool-cases (is_orphan now row.value)) [
      | inl o ↦
          rw
            (quiet_wrote (orphans now) 4 t s (set_recovered now) row h (rw o refl)
              (active_of_orphan row.value o))
            (written-Settled t s row)
      | inr o ↦
          rw (quiet_stopped (orphans now) 4 t s (set_recovered now) row h tt (rw o refl))
            (rw h o, λ k. inl refl)
    ]
  ]

  -- What the snapshot says of a listed record: it is still that value, or nothing is left to do.
  abbrev Known : Table VodProducer → VodProducer → Type 0
  Known t p =
      ((row : Versioned VodProducer) × (get p.session_id t ≡ some row) × (row.value ≡ p))
      ⊎ Settled (get p.session_id t)

  Known-Progress :
      (t u : Table VodProducer) (p : VodProducer) → Progress t u → Known t p → Known u p
  Known-Progress t u p g k = elim (g p.session_id) [
    | inr done ↦ inr done
    | inl same ↦ elim k [ inl (row, h, v) ↦ inl (row, same ∙ h, v) | inr done ↦ inr (rw same done) ]
  ]

  All-Known :
      (t u : Table VodProducer) (ps : List VodProducer)
      → Progress t u
      → All (Known t) ps
      → All (Known u) ps
  All-Known t u [] g k = tt
  All-Known t u (p ∷ ps) g (k, ks) = (Known-Progress t u p g k, All-Known t u ps g ks)

  Settled-Progress :
      (t u : Table VodProducer) (k : String) → Progress t u → Settled (get k t) → Settled (get k u)
  Settled-Progress t u k g d = elim (g k) [ inl same ↦ rw same d | inr done ↦ done ]

  Progress-trans : (t u w : Table VodProducer) → Progress t u → Progress u w → Progress t w
  Progress-trans t u w g h k = elim (h k) [
    | inr done ↦ inr done
    | inl same ↦ elim (g k) [ inl before ↦ inl (same ∙ before) | inr done ↦ inr (rw same done) ]
  ]

  abbrev after : VodProducer → Table VodProducer → Table VodProducer
  after p t = if is_orphan now p then (recover_one now nobody t p.session_id).0 else t

  after-Settled :
      (t : Table VodProducer) (p : VodProducer)
      → Known t p
      → Settled (get p.session_id (after p t)) × Progress t (after p t)
  after-Settled t p k = elim (Bool-cases (is_orphan now p)) [
    | inl o ↦ rw o (recover_one-Settled t p.session_id)
    | inr o ↦ rw o (skipped o k, λ j. inl refl)
  ]
    where
      skipped : is_orphan now p ≡ false → Known t p → Settled (get p.session_id t)
      skipped o (inl (row, h, v)) = rw h (rw v o)
      skipped o (inr done) = done

  recover-Progress :
      (ps : List VodProducer) (t : Table VodProducer)
      → All (Known t) ps
      → All (λ p. Settled (get p.session_id (recover_expired now (λ _. nobody) ps t).0)) ps
        × Progress t (recover_expired now (λ _. nobody) ps t).0
  unfolding recover_expired
  recover-Progress [] t k = (tt, λ j. inl refl)
  recover-Progress (p ∷ ps) t (k, ks) =
      let (done, step) = after-Settled t p k in
      let (rest, further) = recover-Progress ps (after p t) (All-Known t (after p t) ps step ks) in
      (
        (Settled-Progress (after p t) _ p.session_id further done, rest),
        Progress-trans t (after p t) _ step further,
      )

-- When nobody else writes meanwhile and the listed records are those of the table, no listed record
-- is left active with no lease or one that has run out.
pub recover_expired-clears :
    (now : ℕ) (ps : List VodProducer) (t : Table VodProducer)
    → All
        (λ p. (row : Versioned VodProducer) × (get p.session_id t ≡ some row) × (row.value ≡ p))
        ps
    → All
        (λ p.
          (row : Versioned VodProducer)
          → get p.session_id (recover_expired now (λ _. nobody) ps t).0 ≡ some row
          → is_orphan now row.value ≡ false)
        ps
recover_expired-clears now ps t k = named ps (recover-Progress now ps t (known ps k)).0
  where
    known :
        (qs : List VodProducer)
        → All
            (λ p. (row : Versioned VodProducer) × (get p.session_id t ≡ some row) × (row.value ≡ p))
            qs
        → All (Known now t) qs
    known [] k = tt
    known (q ∷ qs) (k, rest) = (inl k, known qs rest)

    named :
        (qs : List VodProducer)
        → All (λ p. Settled now (get p.session_id (recover_expired now (λ _. nobody) ps t).0)) qs
        → All
            (λ p.
              (row : Versioned VodProducer)
              → get p.session_id (recover_expired now (λ _. nobody) ps t).0 ≡ some row
              → is_orphan now row.value ≡ false)
            qs
    named [] d = tt
    named (q ∷ qs) (d, rest) = ((λ row h. rw h at d), named qs rest)

-- Whatever others write meanwhile, as long as rows stay and revisions move on: a record that
-- recovery has written was active with no lease or one that had run out when it was replaced, and it
-- became idle and without an owner or a lease.
pub recover_one-orphan :
    (now : ℕ) (others : Others VodProducer)
    → ((n : ℕ) (u : Table VodProducer) → Grows u (others n u))
    → (t : Table VodProducer) (s : String) (next : Versioned VodProducer)
    → (recover_one now others t s).1 ≡ wrote next
    → ((before : Table VodProducer) × (row : Versioned VodProducer) × Grows t before
        × (get s before ≡ some row)
        × (is_orphan now row.value ≡ true))
      × (next.value.state ≡ ProducerState.idle)
      × (next.value.owner_node_id ≡ none)
      × (next.value.lease_expires_at ≡ none)
unfolding recover_one set_recovered
recover_one-orphan now others grow t s next e =
    let r = run-Replaced (orphans now) others grow s (set_recovered now) 5 t next e in
    (
      (r.before, r.row, r.later, r.stood, ground (arith, r.passed)),
      ap (λ (p : VodProducer). p.state) r.value,
      ap (λ (p : VodProducer). p.owner_node_id) r.value,
      ap (λ (p : VodProducer). p.lease_expires_at) r.value,
    )
