-- ===== src/Repository/Interference.antt =====
-- What a process may rely on when others write to the same table between its read and its write.
use vrrelay.Prelude.{
  ℕ, ◌+◌, ◌<◌, String, ◌≡◌, refl, ◌⊎◌, ◌≢◌, inl, inr, Bool, true, Option, none, some, arith,
  Option-cases, eq_iff, false, Bool-cases, ◌∙◌, ap, sym,
}
use vrrelay.Prelude.Maps.{get, set, get-set}
use vrrelay.Repository.{
  Versioned, WriteResult, applied, invalid_state, revision_conflict, Table, insert, compare_and_set,
}

module _ {V : Type 0} where
  -- A row stays as it is, or its revision grows.
  abbrev pub Advances : Versioned V → Option (Versioned V) → Type 0
  Advances row none = ⊥
  Advances row (some row') = (row ≡ row') ⊎ (row.revision < row'.revision)

  -- Every row of the first table is still there in the second.
  abbrev pub Grows : Table V → Table V → Type 0
  Grows t u = (k : String) (row : Versioned V) → get k t ≡ some row → Advances row (get k u)

  Advances-trans :
      (row row' : Versioned V) (o : Option (Versioned V))
      → (row ≡ row') ⊎ (row.revision < row'.revision)
      → Advances row' o
      → Advances row o
  Advances-trans row row' none h k = k
  Advances-trans row row' (some row'') h k = ground arith

  pub Grows-refl : (t : Table V) → Grows t t
  Grows-refl t k row h = rw h (inl refl)

  pub Grows-trans : (t u w : Table V) → Grows t u → Grows u w → Grows t w
  Grows-trans t u w g h k row e = elim (Option-cases (get k u)) [
    | inl n ↦ absurd (rw n at (g k row e))
    | inr (row', m) ↦ Advances-trans row row' (get k w) (rw m at (g k row e)) (h k row' m)
  ]

  pub compare_and_set-Grows :
      (allowed : V → Bool) (t : Table V) (key : String) (value : V) (expected : ℕ)
      → Grows t (compare_and_set allowed t key value expected).0
  unfolding compare_and_set
  compare_and_set-Grows allowed t key value expected k row h = elim (Option-cases (get key t)) [
    | inl n ↦ rw (n, compare_and_set) (Grows-refl t k row h)
    | inr (old, e) ↦
        ground
          (arith, get-set k key (record { value = value; revision = expected + 1 }) t, eq_iff key k)
  ]

  pub insert-Grows : (t : Table V) (key : String) (value : V) → Grows t (insert t key value).0
  unfolding insert
  insert-Grows t key value k row h = elim (Option-cases (get key t)) [
    | inl n ↦ ground (arith, get-set k key (record { value = value; revision = 1 }) t, eq_iff key k)
    | inr (old, e) ↦ rw (e, insert) (Grows-refl t k row h)
  ]

  -- How a compare-and-set ends that follows a read of `row`: what is then in the table, the answer,
  -- and why.
  pub data Settles (allowed : V → Bool) (u : Table V) (key : String) (row next : Versioned V)
      (r : Table V × WriteResult V) : Type 0 where
    stores :
        get key u ≡ some row
        → allowed row.value ≡ true
        → r ≡ (set key next u, applied next)
        → Settles allowed u key row next r
    forbids :
        get key u ≡ some row
        → allowed row.value ≡ false
        → r ≡ (u, invalid_state row)
        → Settles allowed u key row next r
    loses :
        (now : Versioned V)
        → get key u ≡ some now
        → row.revision < now.revision
        → r ≡ (u, revision_conflict now)
        → Settles allowed u key row next r

  -- A compare-and-set after a read ends in one of three ways, whatever else has happened to the table
  -- as long as rows stay and revisions move on. If nobody has written the row in between and the state
  -- read is allowed, it stores the new value with the next revision, changes nothing else and says so.
  -- If nobody has written the row and its state is not allowed, it leaves the table as it is and
  -- answers that. If the row was written, it leaves the table as it is and answers with the newer row.
  pub read-compare_and_set :
      (allowed : V → Bool) (t u : Table V) (key : String) (value : V) (row : Versioned V)
      → get key t ≡ some row
      → Grows t u
      → Settles allowed u key row
          (record { value = value; revision = row.revision + 1 })
          (compare_and_set allowed u key value row.revision)
  unfolding compare_and_set
  read-compare_and_set allowed t u key value row h g = elim (Option-cases (get key u)) [
    | inl n ↦ absurd (rw n at (g key row h))
    | inr (now, e) ↦ settled now e (rw e at (g key row h))
  ]
    where
      settled :
          (now : Versioned V)
          → get key u ≡ some now
          → (row ≡ now) ⊎ (row.revision < now.revision)
          → Settles allowed u key row
              (record { value = value; revision = row.revision + 1 })
              (compare_and_set allowed u key value row.revision)
      settled now e (inl same) =
          let f : get key u ≡ some row = e ∙ ap some (sym same) in
          elim (Bool-cases (allowed row.value)) [
            | inl y ↦ stores f y (ground (arith, f, y))
            | inr n ↦ forbids f n (ground (arith, f, n))
          ]
      settled now e (inr later) = loses now e later (ground (arith, e, later))

  -- A write that was applied replaced the expected revision, in an allowed state, and nothing else.
  pub compare_and_set-applied :
      (allowed : V → Bool) (t : Table V) (key : String) (value : V) (expected : ℕ)
      (next : Versioned V)
      → (compare_and_set allowed t key value expected).1 ≡ applied next
      → (old : Versioned V) × (get key t ≡ some old)
        × (old.revision ≡ expected)
        × (allowed old.value ≡ true)
        × (next ≡ record { value = value; revision = expected + 1 })
        × ((compare_and_set allowed t key value expected).0 ≡ set key next t)
  unfolding compare_and_set
  compare_and_set-applied allowed t key value expected next h = elim (Option-cases (get key t)) [
    | inl n ↦ absurd (ground arith)
    | inr (old, e) ↦ (old, e, ground arith, ground arith, ground arith, ground arith)
  ]

  -- Only another write of the row makes a write that follows a read conflict.
  pub compare_and_set-conflict :
      (allowed : V → Bool) (t : Table V) (key : String) (value : V) (expected : ℕ)
      (now : Versioned V)
      → (compare_and_set allowed t key value expected).1 ≡ revision_conflict now
      → (compare_and_set allowed t key value expected).0 ≡ t
        × (get key t ≡ some now)
        × (now.revision ≢ expected)
  unfolding compare_and_set
  compare_and_set-conflict allowed t key value expected now h = elim (Option-cases (get key t)) [
    | inl n ↦ (ground arith, ground arith, ground arith)
    | inr (old, e) ↦ (ground arith, ground arith, ground arith)
  ]

  -- A row that is still of the revision that was read is the row that was read.
  pub same_revision :
      (t u : Table V) (key : String) (row row' : Versioned V)
      → Grows t u
      → get key t ≡ some row
      → get key u ≡ some row'
      → row'.revision ≡ row.revision
      → row ≡ row'
  same_revision t u key row row' g h e r = unchanged (rw e at (g key row h))
    where
      unchanged : (row ≡ row') ⊎ (row.revision < row'.revision) → row ≡ row'
      unchanged (inl same) = same
      unchanged (inr later) = absurd (omega arith)
