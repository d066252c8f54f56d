-- ===== src/Producer/Owning.antt =====
-- Which record a producer that was handed over owns.
use vrrelay.Prelude.{
  ℕ, ◌+◌, String, Bool, true, false, Option, none, some, Map, if◌then◌else◌, str_eq, ◌==◌, ◌≡◌,
  refl, sym, ap, ◌∙◌, inl, inr, arith, eq_refl, Bool-cases, Option-cases,
}
use vrrelay.Prelude.Maps.{get, get-set}
use vrrelay.Coordination.Leases.{Lease, acquire}
use vrrelay.Repository.{Versioned, Table, compare_and_set, insert}
use vrrelay.Repository.Interference.{Grows, same_revision}
use vrrelay.Producer.Record.{VodProducer, is_startable}
use vrrelay.Producer.Updates.{generation_of}
use vrrelay.Producer.Admission.{Slots, reserve}
use vrrelay.Producer.Watermarks.{Pacer, new_pacer}
use vrrelay.Producer.Active.{Active}
use vrrelay.Producer.Start.{
  SessionInfo, World, Env, locked, Trial, gives_up, fails, hands_off, Outcome, throws, handed,
  lease_key, settle_start, with_lease, with_slot, start_from, start_exclusive, attempt_start,
  locked_elsewhere, value_of, new_record, was_applied, store_record, with_pacer, after_store,
  write_record, take_over, check_source, check_fresh,
}

-- The table as it is read, and as it is when the record is written.
abbrev pub read_table : Env → Table VodProducer → Table VodProducer
read_table e t = e.before_read t

abbrev pub raced_table : Env → Table VodProducer → Table VodProducer
raced_table e t = e.before_write (e.before_read t)

-- The record behind a producer: the next generation over the row that was read, which nobody had
-- written since and whose state allowed it; the first generation where there was no row; or, with no
-- row read, a row that another process created in between and that the start left alone.
pub data Owns (e : Env) (t u : Table VodProducer) (a : Active) : Type 0 where
  next_generation :
      (row : Versioned VodProducer)
      → get e.session_id (read_table e t) ≡ some row
      → get e.session_id (raced_table e t) ≡ some row
      → is_startable row.value.state ≡ true
      → a.generation ≡ row.value.generation + 1
      → get e.session_id u
        ≡ some (record { value = new_record e (some row); revision = row.revision + 1 })
      → Owns e t u a
  first_generation :
      get e.session_id (raced_table e t) ≡ none
      → a.generation ≡ 1
      → get e.session_id u ≡ some (record { value = new_record e none; revision = 1 })
      → Owns e t u a
  lost_creation :
      (row : Versioned VodProducer)
      → get e.session_id (read_table e t) ≡ none
      → get e.session_id (raced_table e t) ≡ some row
      → a.generation ≡ 1
      → u ≡ raced_table e t
      → Owns e t u a

-- The two ways to write a record, at any table.
module _ (t : Table VodProducer) (key : String) (p : VodProducer) where
  insert_stored :
      get key t ≡ none → get key (insert t key p).0 ≡ some (record { value = p; revision = 1 })
  unfolding insert
  insert_stored h =
      ground (arith, get-set key key (record { value = p; revision = 1 }) t, eq_refl key)

  insert_kept : (row : Versioned VodProducer) → get key t ≡ some row → (insert t key p).0 ≡ t
  unfolding insert
  insert_kept row h = rw (h, insert) refl

  module _ (row now : Versioned VodProducer) (h : get key t ≡ some now) where
    replaced :
        was_applied (compare_and_set (λ q. is_startable q.state) t key p row.revision).1 ≡ true
        → (now.revision ≡ row.revision)
          × (is_startable now.value.state ≡ true)
          × (get key (compare_and_set (λ q. is_startable q.state) t key p row.revision).0
              ≡ some (record { value = p; revision = row.revision + 1 }))
    unfolding compare_and_set
    replaced w = elim (Bool-cases (now.revision == row.revision)) [
      | inl y ↦ elim (Bool-cases (is_startable now.value.state)) [
        | inl z ↦ (
          ground arith,
          z,
          ground (
            arith,
            get-set key key (record { value = p; revision = row.revision + 1 }) t,
            eq_refl key,
          ),
        )
        | inr z ↦ absurd (ground (arith, h, w, y, z))
      ]
      | inr n ↦ absurd (ground (arith, h, w, n))
    ]

module _ (e : Env) (t : Table VodProducer) where
  abbrev HandsOver : Table VodProducer × Trial → Type 0
  HandsOver r = (a : Active) → r.1 ≡ hands_off a → Owns e t r.0 a

  with_pacer-generation :
      (f : SessionInfo) (p : String) (g : ℕ) (o : Option Pacer) (a : Active)
      → with_pacer e f p g o ≡ hands_off a
      → a.generation ≡ g
  unfolding with_pacer
  with_pacer-generation f p g none a h = cc
  with_pacer-generation f p g (some pace) a h = ground arith

  after_store-HandsOver :
      (f : SessionInfo) (p : String) (g : ℕ) (r : Table VodProducer × Bool)
      → ((r.1 ≡ true) → (a : Active) → a.generation ≡ g → Owns e t r.0 a)
      → HandsOver (after_store e f p g r)
  unfolding after_store
  after_store-HandsOver f p g (u, false) h a x = cc
  after_store-HandsOver f p g (u, true) h a x = elim (Bool-cases (e.aborted 3)) [
    | inl y ↦ absurd (ground arith)
    | inr n ↦ h refl a (with_pacer-generation f p g (new_pacer e.maximum_rate) a (ground arith))
  ]

  module _ (grow : (u : Table VodProducer) → Grows u (e.before_write u)) where
    stored :
        (o : Option (Versioned VodProducer))
        → get e.session_id (read_table e t) ≡ o
        → let r = store_record o (raced_table e t) e.session_id (new_record e o) in
          (r.1 ≡ true)
          → (a : Active) → a.generation ≡ generation_of (value_of o) + 1
          → Owns e t r.0 a
    unfolding store_record
    stored none h k a g = elim (Option-cases (get e.session_id (raced_table e t))) [
      | inl n ↦
          first_generation n g (insert_stored (raced_table e t) e.session_id (new_record e none) n)
      | inr (row, m) ↦
          lost_creation row h m g
            (insert_kept (raced_table e t) e.session_id (new_record e none) row m)
    ]
    stored (some row) h k a g = elim (Option-cases (get e.session_id (raced_table e t))) [
      | inl n ↦ absurd (rw n at (grow (read_table e t) e.session_id row h))
      | inr (now, m) ↦
          let (revision, startable, written) =
            replaced (raced_table e t) e.session_id (new_record e (some row)) row now m k in
          let same =
            same_revision (read_table e t) (raced_table e t) e.session_id row now
              (grow (read_table e t)) h m revision in
          next_generation row h (m ∙ ap some (sym same))
            (ap (λ (v : Versioned VodProducer). is_startable v.value.state) same ∙ startable) g
            written
    ]

    write_record-HandsOver :
        (f : SessionInfo) (p : String)
        → HandsOver (write_record e f p (read_table e t) (get e.session_id (read_table e t)))
    unfolding write_record
    write_record-HandsOver f p a x = elim (Bool-cases (e.fails_at 2)) [
      | inl y ↦ absurd (ground arith)
      | inr m ↦ elim (Bool-cases (e.fails_at 3)) [
        | inl y ↦ absurd (ground arith)
        | inr n ↦
            rw (m, n, write_record)
              (after_store-HandsOver f p _ _ (stored (get e.session_id (read_table e t)) refl) a
                (rw (m, n, write_record) at x))
      ]
    ]

    take_over-HandsOver : (f : SessionInfo) (p : String) → HandsOver (take_over e f p t)
    unfolding take_over
    take_over-HandsOver f p a x = elim (Bool-cases (e.fails_at 1)) [
      | inl y ↦ absurd (ground arith)
      | inr m ↦ elim (Bool-cases (e.aborted 2)) [
        | inl y ↦ absurd (ground arith)
        | inr n ↦ rw (m, n, take_over) (write_record-HandsOver f p a (rw (m, n, take_over) at x))
      ]
    ]

    check_source-HandsOver :
        (f : SessionInfo) (p : String) (o : Option String) → HandsOver (check_source e f p t o)
    unfolding check_source
    check_source-HandsOver f p none a x = cc
    check_source-HandsOver f p (some q) a x = elim (Bool-cases (str_eq q p)) [
      | inr y ↦ absurd (ground arith)
      | inl y ↦ elim (Bool-cases (locked_elsewhere e.node_id f)) [
        | inl l ↦ absurd (ground arith)
        | inr l ↦ rw (y, l, check_source) (take_over-HandsOver f p a (rw (y, l, check_source) at x))
      ]
    ]

    check_fresh-HandsOver : (p : String) (o : Option SessionInfo) → HandsOver (check_fresh e p t o)
    unfolding check_fresh
    check_fresh-HandsOver p none a x = cc
    check_fresh-HandsOver p (some f) a x = elim (Bool-cases f.stopped) [
      | inl y ↦ absurd (ground arith)
      | inr n ↦
          rw (n, check_fresh)
            (check_source-HandsOver f p f.provider_id a (rw (n, check_fresh) at x))
    ]

    attempt_start-HandsOver : (p : String) → HandsOver (attempt_start e p t)
    unfolding attempt_start
    attempt_start-HandsOver p a x = elim (Bool-cases (e.aborted 0)) [
      | inl y ↦ absurd (ground arith)
      | inr n ↦ elim (Bool-cases (e.fails_at 0)) [
        | inl y ↦ absurd (ground arith)
        | inr l ↦ elim (Bool-cases (e.aborted 1)) [
          | inl y ↦ absurd (ground arith)
          | inr m ↦
              rw (n, l, m, attempt_start)
                (check_fresh-HandsOver p e.fresh a (rw (n, l, m, attempt_start) at x))
        ]
      ]
    ]

  abbrev StartOwns : World × Outcome → Type 0
  StartOwns r = (a : Active) → r.1 ≡ handed a → Owns e t r.0.table a

  handed_inj : (a b : Active) → ◌≡◌ {A = Outcome} (handed a) (handed b) → a ≡ b
  handed_inj a b h = cc

  settle_start-StartOwns :
      (p : String) (w : World) (r : Table VodProducer × Trial)
      → HandsOver r
      → StartOwns (settle_start e p w r)
  unfolding settle_start
  settle_start-StartOwns p w (u, gives_up g) h a x = cc
  settle_start-StartOwns p w (u, fails y g) h a x = absurd (ground (arith, x))
  settle_start-StartOwns p w (u, hands_off b) h a x = h a (ap hands_off (handed_inj b a x))

-- A producer that is handed over owns the session's record: it is the next generation over the row
-- that was read, in a state that allows a start and written by nobody since, or the first generation
-- where there was no row. The one other case is a creation that found a row of another process: the
-- producer is then handed over as the first generation although the row is not its own. Others may
-- do anything meanwhile, as long as between the read and the write rows stay and revisions move on.
pub start_exclusive-Owns :
    (e : Env) (w : World)
    → ((u : Table VodProducer) → Grows u (e.before_write u))
    → (a : Active) → (start_exclusive e w).1 ≡ handed a
    → Owns e w.table (start_exclusive e w).0.table a
unfolding start_exclusive start_from with_slot with_lease
start_exclusive-Owns e w grow = by_source e.session.provider_id
  where
    by_lease :
        (p : String) (v : World) (l : Map Lease × Bool)
        → v.table ≡ w.table
        → StartOwns e w.table (with_lease e p v l)
    by_lease p v (leases, false) same = λ a x. cc
    by_lease p v (leases, true) same =
        settle_start-StartOwns e w.table p (record v { leases = leases })
          (attempt_start e p v.table) (rw same (attempt_start-HandsOver e w.table grow p))

    by_slot : (p : String) (r : Slots × Bool) → StartOwns e w.table (with_slot e p w r)
    by_slot p (slots, false) = λ a x. cc
    by_slot p (slots, true) =
        by_lease p (record w { slots = e.others_slots slots })
          (acquire w.leases (lease_key e.session_id) e.owner e.lease_ms e.now) refl

    by_lock :
        (p : String) (b : Bool)
        → StartOwns e w.table
            (if b then (w, throws locked) else with_slot e p w (reserve e.limits w.slots p))
    by_lock p true = λ a x. cc
    by_lock p false = by_slot p (reserve e.limits w.slots p)

    by_source : (o : Option String) → StartOwns e w.table (start_from e w o)
    by_source none = λ a x. cc
    by_source (some p) = by_lock p (locked_elsewhere e.node_id e.session)
