-- ===== src/Repository/Rounds.antt =====
-- What an optimistic write guarantees against interference.
use vrrelay.Prelude.{
  ℕ, zero, suc, ◌+◌, ◌≤◌, ◌<◌, String, ◌≡◌, refl, sym, ap, ◌∙◌, ◌≢◌, ◌⊎◌, inl, inr, true, Option,
  none, some, arith, Option-cases,
}
use vrrelay.Prelude.Maps.{get, set}
use vrrelay.Repository.{
  Versioned, WriteResult, applied, not_found, revision_conflict, invalid_state, Table,
  compare_and_set,
}
use vrrelay.Repository.Interference.{
  Grows, Grows-trans, compare_and_set-Grows, compare_and_set-applied, compare_and_set-conflict,
  same_revision,
}
use vrrelay.Repository.Loop.{
  Others, Outcome, wrote, stopped_by, conflicted, Judgement, goes_on, stops, Loop, judgement,
  after_write, run,
}

-- The row that a write replaced, what it became, and the table `end` after it.
pub record Replaced {V E : Type 0} (l : Loop V E) (key : String) (update : V → V)
    (table end : Table V) (next : Versioned V) : Type 0 where
  pub before : Table V
  pub row : Versioned V
  pub later : Grows table before
  pub stood : get key before ≡ some row
  pub passed : l.judge row.value ≡ none
  pub was_allowed : l.allowed row.value ≡ true
  pub value : next.value ≡ update row.value
  pub revision : next.revision ≡ row.revision + 1
  pub after : end ≡ set key next before

module _ {V E : Type 0} (l : Loop V E) (others : Others V)
    (grow : (n : ℕ) (t : Table V) → Grows t (others n t)) (key : String) (update : V → V) where
  judgement_inv :
      (o : Option (Versioned V)) (row : Versioned V)
      → judgement l o ≡ goes_on row
      → (o ≡ some row) × (l.judge row.value ≡ none)
  unfolding judgement
  judgement_inv none row e = cc
  judgement_inv (some r) row e = elim (Option-cases (l.judge r.value)) [
    | inl h ↦ (ground arith, ground arith)
    | inr (x, h) ↦ absurd (ground arith)
  ]

  judgement_cases :
      (o : Option (Versioned V))
      → ((e : E) × (judgement l o ≡ stops e))
        ⊎ ((row : Versioned V) × (judgement l o ≡ goes_on row))
  judgement_cases o = by_result (judgement l o) refl
    where
      by_result :
          (j : Judgement V E)
          → judgement l o ≡ j
          → ((e : E) × (judgement l o ≡ stops e))
            ⊎ ((row : Versioned V) × (judgement l o ≡ goes_on row))
      by_result (stops e) h = inl (e, h)
      by_result (goes_on row) h = inr (row, h)

  module _ (rounds : ℕ) (t : Table V) where
    abbrev read : Table V
    read = others (rounds + rounds + 1) t

    abbrev raced : Table V
    raced = others (rounds + rounds) read

    abbrev written : Versioned V → Table V × WriteResult V
    written row = compare_and_set l.allowed raced key (update row.value) row.revision

    abbrev again : Versioned V → Table V × Outcome V E
    again row = run l rounds others (written row).0 key update

    run_stopped :
        (e : E)
        → judgement l (get key read) ≡ stops e
        → run l (suc rounds) others t key update ≡ (read, stopped_by e)
    unfolding run
    run_stopped e h = rw (h, run) refl

    run_went_on :
        (row : Versioned V)
        → judgement l (get key read) ≡ goes_on row
        → run l (suc rounds) others t key update ≡ after_write l (written row) (again row)
    unfolding run
    run_went_on row h = rw (h, run) refl

    raced-Grows : Grows t raced
    raced-Grows = Grows-trans t read raced (grow _ t) (grow _ read)

    written-Grows : (row : Versioned V) → Grows t (written row).0
    written-Grows row =
        Grows-trans t raced _ raced-Grows
          (compare_and_set-Grows l.allowed raced key (update row.value) row.revision)

  later-Replaced :
      (t u end : Table V) (next : Versioned V)
      → Grows t u
      → Replaced l key update u end next
      → Replaced l key update t end next
  later-Replaced t u end next g r = record {
    before = r.before;
    row = r.row;
    later = Grows-trans t u r.before g r.later;
    stood = r.stood;
    passed = r.passed;
    was_allowed = r.was_allowed;
    value = r.value;
    revision = r.revision;
    after = r.after;
  }

  settled :
      (rounds : ℕ) (t : Table V) (next row : Versioned V)
      → ((u : Table V)
          → (run l rounds others u key update).1 ≡ wrote next
          → Replaced l key update u (run l rounds others u key update).0 next)
      → get key (read rounds t) ≡ some row
      → l.judge row.value ≡ none
      → (o : WriteResult V) → (written rounds t row).1 ≡ o
      → let end = after_write l ((written rounds t row).0, o) (again rounds t row) in
        end.1 ≡ wrote next → Replaced l key update t end.0 next
  unfolding after_write
  settled rounds t next row ih stood same (applied r) w f =
      let (old, at, revision, active, written_row, table) =
        compare_and_set-applied l.allowed (raced rounds t) key (update row.value) row.revision r
          w in
      let same_row =
        same_revision (read rounds t) (raced rounds t) key row old (grow _ (read rounds t)) stood at
          revision in
      let same_next : next ≡ record { value = update row.value; revision = row.revision + 1 } =
        cc (f, written_row) in
      let same_end : (written rounds t row).0 ≡ set key next (raced rounds t) =
        table ∙ ap (λ v. set key v (raced rounds t)) cc in
      record {
        before = raced rounds t;
        row = row;
        later = raced-Grows rounds t;
        stood = at ∙ ap some (sym same_row);
        passed = same;
        was_allowed = ap (λ (v : Versioned V). l.allowed v.value) same_row ∙ active;
        value = ap (λ (v : Versioned V). v.value) same_next;
        revision = ap (λ (v : Versioned V). v.revision) same_next;
        after = same_end;
      }
  settled rounds t next row ih stood same not_found w f = cc
  settled rounds t next row ih stood same (invalid_state r) w f = cc
  settled rounds t next row ih stood same (revision_conflict r) w f =
      later-Replaced t (written rounds t row).0 _ next (written-Grows rounds t row) (ih _ f)

  -- Fencing. Whatever other processes do to the table between its reads and its writes, as long as
  -- they only add rows and move revisions on, a loop that writes has replaced a row that it judged
  -- fit and whose state is allowed, by the update of just that row, and the row's revision went up
  -- by one; nothing else in the table changed with it.
  pub run-Replaced :
      (rounds : ℕ) (t : Table V) (next : Versioned V)
      → (run l rounds others t key update).1 ≡ wrote next
      → Replaced l key update t (run l rounds others t key update).0 next
  unfolding run
  run-Replaced zero t next e = cc
  run-Replaced (suc rounds) t next e = elim (judgement_cases (get key (read rounds t))) [
    | inl (x, h) ↦ cc (run_stopped rounds t x h)
    | inr (row, h) ↦
        let (stood, same) = judgement_inv _ row h in
        rw (run_went_on rounds t row h) (
          settled rounds t next row (λ u. run-Replaced rounds u next) stood same
            (written rounds t row).1 refl (rw (run_went_on rounds t row h) at e))
  ]

  -- A race moves the row's revision on.
  raced_revision :
      (rounds : ℕ) (t : Table V) (row now : Versioned V)
      → get key (read rounds t) ≡ some row
      → (written rounds t row).1 ≡ revision_conflict now
      → (get key (written rounds t row).0 ≡ some now) × (row.revision < now.revision)
  raced_revision rounds t row now stood w =
      let (unchanged, at, moved) =
        compare_and_set-conflict l.allowed (raced rounds t) key (update row.value) row.revision now
          w in
      (
        rw unchanged at,
        ahead (rw at at (grow (rounds + rounds) (read rounds t) key row stood)) moved,
      )
    where
      ahead :
          (row ≡ now) ⊎ (row.revision < now.revision)
          → now.revision ≢ row.revision
          → row.revision < now.revision
      ahead (inl same) moved = absurd (moved (ap (λ (v : Versioned V). v.revision) (sym same)))
      ahead (inr later) moved = later

  abbrev Conflicts : ℕ → Versioned V → Table V → Type 0
  Conflicts rounds row t =
      (row' : Versioned V) × (get key t ≡ some row') × (row.revision + rounds ≤ row'.revision)

  conflict_settled :
      (rounds : ℕ) (t : Table V) (row now : Versioned V)
      → ((u : Table V) (r : Versioned V)
          → get key u ≡ some r
          → (run l rounds others u key update).1 ≡ conflicted
          → Conflicts rounds r (run l rounds others u key update).0)
      → get key (read rounds t) ≡ some now
      → row.revision ≤ now.revision
      → (o : WriteResult V) → (written rounds t now).1 ≡ o
      → let end = after_write l ((written rounds t now).0, o) (again rounds t now) in
        end.1 ≡ conflicted → Conflicts (suc rounds) row end.0
  unfolding after_write
  conflict_settled rounds t row now ih stood le (applied r) w f = cc
  conflict_settled rounds t row now ih stood le not_found w f = cc
  conflict_settled rounds t row now ih stood le (invalid_state r) w f = cc
  conflict_settled rounds t row now ih stood le (revision_conflict r) w f =
      let (at, moved) = raced_revision rounds t now r stood w in
      let (last, there, far) = ih (written rounds t now).0 r at f in (last, there, omega arith)

  -- A loop gives up only if the row was written by others in each of its rounds: each
  -- conflict has moved the row's revision on by one at least.
  pub run-conflicted :
      (rounds : ℕ) (t : Table V) (row : Versioned V)
      → get key t ≡ some row
      → (run l rounds others t key update).1 ≡ conflicted
      → (row' : Versioned V) × (get key (run l rounds others t key update).0 ≡ some row')
        × (row.revision + rounds ≤ row'.revision)
  unfolding run
  run-conflicted zero t row stood e = (row, stood, omega arith)
  run-conflicted (suc rounds) t row stood e = elim (judgement_cases (get key (read rounds t))) [
    | inl (x, h) ↦ absurd (ground (arith, run_stopped rounds t x h))
    | inr (now, h) ↦
        let (here, same) = judgement_inv _ now h in
        rw (run_went_on rounds t now h) (
          conflict_settled rounds t row now (λ u r. run-conflicted rounds u r) here
            (advanced now (rw here at (grow (rounds + rounds + 1) t key row stood)))
            (written rounds t now).1 refl (rw (run_went_on rounds t now h) at e))
  ]
    where
      advanced :
          (now : Versioned V)
          → (row ≡ now) ⊎ (row.revision < now.revision)
          → row.revision ≤ now.revision
      advanced now (inl same) = omega (arith, ap (λ (v : Versioned V). v.revision) same)
      advanced now (inr later) = omega arith
