-- ===== src/Live/Writing.antt =====
-- What a write of a channel leaves while others write.
use vrrelay.Prelude.{
  ℕ, zero, suc, ◌+◌, ◌<◌, String, Bool, true, false, Option, none, some, ◌≡◌, ◌⊎◌, inl, inr, refl,
  arith, Option-cases,
}
use vrrelay.Prelude.Maps.{get, set}
use vrrelay.Repository.{
  Versioned, WriteResult, applied, not_found, revision_conflict, invalid_state, compare_and_set,
}
use vrrelay.Repository.Interference.{compare_and_set-applied}
use vrrelay.Live.Record.{LiveChannel, Channels}
use vrrelay.Live.Channels.{any_channel, write_channel}
use vrrelay.Live.Service.{
  Rewritten, wrote, refused, Others, after_write, rewrite_from, rewrite_read, rewrite, is_written,
}

-- A row stays as it is, is deleted, or its revision grows.
abbrev pub Stays : Versioned LiveChannel → Option (Versioned LiveChannel) → Type 0
Stays row none = Unit
Stays row (some row') = (row ≡ row') ⊎ (row.revision < row'.revision)

-- What others do to the channel.
abbrev pub IsSteady : String → Others → Type 0
IsSteady id others =
    (n : ℕ) (u : Channels) (row : Versioned LiveChannel)
    → get id u ≡ some row
    → Stays row (get id (others n u))

-- What a write leaves: in place of a row for which the test held, its update.
pub record Stored (accepts : LiveChannel → Bool) (update : LiveChannel → LiveChannel) (id : String)
    (next : Versioned LiveChannel) (after : Channels) : Type 0 where
  pub before : Channels
  pub former : Versioned LiveChannel
  pub stood : get id before ≡ some former
  pub accepted : accepts former.value ≡ true
  pub updated : next ≡ record { value = update former.value; revision = former.revision + 1 }
  pub replaced : after ≡ set id next before

abbrev pub quiet : Others
quiet n t = t

module _ (accepts : LiveChannel → Bool) (update : LiveChannel → LiveChannel) (id : String) where
  write_channel-Stored :
      (t : Channels) (row next : Versioned LiveChannel)
      → accepts row.value ≡ true
      → Stays row (get id t)
      → (write_channel t id (update row.value) row.revision).1 ≡ applied next
      → Stored accepts update id next (write_channel t id (update row.value) row.revision).0
  unfolding write_channel compare_and_set
  write_channel-Stored t row next a stays h =
      let (old, e, r, _, same, _) =
        compare_and_set-applied any_channel t id (update row.value) row.revision next h in
      record {
        before = t;
        former = row;
        stood = ground (arith, e, r, unmoved old e r (rw e at stays));
        accepted = a;
        updated = same;
        replaced = ground (arith, e, r, same);
      }
    where
      unmoved :
          (old : Versioned LiveChannel)
          → get id t ≡ some old
          → old.revision ≡ row.revision
          → Stays row (some old)
          → row ≡ old
      unmoved old e r (inl same) = same
      unmoved old e r (inr later) = absurd (omega (arith, r, later))

  -- The row that a conflicting write returns stands in the table.
  write_channel-stands :
      (t : Channels) (c : LiveChannel) (expected : ℕ) (row : Versioned LiveChannel)
      → ((write_channel t id c expected).1 ≡ revision_conflict row)
        ⊎ ((write_channel t id c expected).1 ≡ invalid_state row)
      → get id (write_channel t id c expected).0 ≡ some row
  unfolding write_channel compare_and_set
  write_channel-stands t c expected row h = elim (Option-cases (get id t)) [
    | inl n ↦ absurd (ground (arith, n, h))
    | inr (old, e) ↦ ground (arith, e, h)
  ]

  after_write-Stored :
      (w : Channels × WriteResult LiveChannel)
      (again : Versioned LiveChannel → Channels × Rewritten)
      → ((next : Versioned LiveChannel) → w.1 ≡ applied next → Stored accepts update id next w.0)
      → ((r next : Versioned LiveChannel)
          → (w.1 ≡ revision_conflict r) ⊎ (w.1 ≡ invalid_state r)
          → (again r).1 ≡ wrote next
          → Stored accepts update id next (again r).0)
      → (next : Versioned LiveChannel) → (after_write w again).1 ≡ wrote next
      → Stored accepts update id next (after_write w again).0
  unfolding after_write
  after_write-Stored (t, applied row) again now later next h = now next (ground (arith, h))
  after_write-Stored (t, not_found) again now later next h = absurd (ground (arith, h))
  after_write-Stored (t, revision_conflict row) again now later next h = later row next (inl refl) h
  after_write-Stored (t, invalid_state row) again now later next h = later row next (inr refl) h

  module _ (others : Others) (steady : IsSteady id others) where
    rewrite_from-Stored :
        (n : ℕ) (row next : Versioned LiveChannel) (t : Channels)
        → get id t ≡ some row
        → (rewrite_from accepts update n others id row t).1 ≡ wrote next
        → Stored accepts update id next (rewrite_from accepts update n others id row t).0
    unfolding rewrite_from
    rewrite_from-Stored zero row next t stands h = absurd (ground (arith, h))
    rewrite_from-Stored (suc n) row next t stands h =
        by_test (λ r m. rewrite_from-Stored n r m) (accepts row.value) refl h
      where
        written : Channels × WriteResult LiveChannel
        written = write_channel (others n t) id (update row.value) row.revision

        rest : Bool → Channels × Rewritten
        rest b = elim b [
          | false ↦ (t, refused)
          | true ↦ after_write written (λ r. rewrite_from accepts update n others id r written.0)
        ]

        by_test :
            ((r m : Versioned LiveChannel) (u : Channels)
              → get id u ≡ some r
              → (rewrite_from accepts update n others id r u).1 ≡ wrote m
              → Stored accepts update id m (rewrite_from accepts update n others id r u).0)
            → (b : Bool) → accepts row.value ≡ b
            → (rest b).1 ≡ wrote next
            → Stored accepts update id next (rest b).0
        by_test ih false e k = absurd (ground (arith, k))
        by_test ih true e k =
            after_write-Stored written _
              (λ m q. write_channel-Stored (others n t) row m e (steady n t row stands) q)
              (λ r m s q.
                ih r m written.0
                  (write_channel-stands (others n t) (update row.value) row.revision r s) q)
              next k

    rewrite_read-Stored :
        (o : Option (Versioned LiveChannel)) (next : Versioned LiveChannel) (t : Channels)
        → get id t ≡ o
        → (rewrite_read accepts update others id o t).1 ≡ wrote next
        → Stored accepts update id next (rewrite_read accepts update others id o t).0
    unfolding rewrite_read
    rewrite_read-Stored none next t e h = absurd (ground (arith, h))
    rewrite_read-Stored (some row) next t e h = rewrite_from-Stored 5 row next t e h

    pub rewrite-Stored :
        (next : Versioned LiveChannel) (t : Channels)
        → (rewrite accepts update others id t).1 ≡ wrote next
        → Stored accepts update id next (rewrite accepts update others id t).0
    unfolding rewrite
    rewrite-Stored next t h = rewrite_read-Stored (get id (others 5 t)) next (others 5 t) refl h

  -- A channel that the test refuses when it is read first is not written.
  pub rewrite-refused :
      (others : Others) (t : Channels) (row : Versioned LiveChannel)
      → get id (others 5 t) ≡ some row
      → accepts row.value ≡ false
      → is_written (rewrite accepts update others id t).1 ≡ false
  unfolding rewrite rewrite_read rewrite_from
  rewrite-refused others t row e a = rw (e, rewrite, rewrite_read, rewrite_from, a) refl

  -- Where nobody else writes, the first round decides.
  pub quiet_wrote :
      (t : Channels) (row : Versioned LiveChannel)
      → get id t ≡ some row
      → accepts row.value ≡ true
      → let next : Versioned LiveChannel = record {
        value = update row.value;
        revision = row.revision + 1;
      } in
        rewrite accepts update quiet id t ≡ (set id next t, wrote next)
  unfolding rewrite rewrite_read rewrite_from after_write write_channel compare_and_set
  quiet_wrote t row e a = rw (e, rewrite, rewrite_read, rewrite_from, a) (ground (arith, e))
