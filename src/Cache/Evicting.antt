-- ===== src/Cache/Evicting.antt =====
-- What a clean-up of the cache leaves.
use vrrelay.Prelude.{
  ℕ, ◌+◌, ◌-◌, ◌≤◌, ◌<◌, String, true, false, List, [], ◌∷◌, leb, All, ◌≡◌, ◌⊎◌, inl, inr, refl,
  arith, Bool-cases,
}
use vrrelay.Prelude.Sorting.{sort, insert, Member}
use vrrelay.Cache.Eviction.{File, is_protected, total_size, Swept, evict, is_older}

-- The least recently used come first.
abbrev pub IsSorted : List File → Type 0
IsSorted [] = Unit
IsSorted (f ∷ fs) = All (λ g. f.modified_at ≤ g.modified_at) fs × IsSorted fs

module _ (P : File → Type 0) where
  insert-All : (f : File) (fs : List File) → P f → All P fs → All P (insert is_older f fs)
  unfolding insert
  insert-All f [] p all = (p, tt)
  insert-All f (g ∷ fs) p (q, all) = elim (Bool-cases (is_older g f)) [
    | inl y ↦ rw y (q, insert-All f fs p all)
    | inr n ↦ rw n (p, (q, all))
  ]

  pub sort-All : (fs : List File) → All P fs → All P (sort is_older fs)
  unfolding sort
  sort-All [] all = tt
  sort-All (f ∷ fs) (p, all) = insert-All f (sort is_older fs) p (sort-All fs all)

later_All :
    (f g : File) (fs : List File)
    → f.modified_at ≤ g.modified_at
    → All (λ h. g.modified_at ≤ h.modified_at) fs
    → All (λ h. f.modified_at ≤ h.modified_at) fs
later_All f g [] le all = tt
later_All f g (h ∷ fs) le (q, all) = (omega (arith, le, q), later_All f g fs le all)

insert-IsSorted : (f : File) (fs : List File) → IsSorted fs → IsSorted (insert is_older f fs)
unfolding insert
insert-IsSorted f [] s = (tt, tt)
insert-IsSorted f (g ∷ fs) (all, s) = elim (Bool-cases (is_older g f)) [
  | inl y ↦ rw y (
    insert-All (λ h. g.modified_at ≤ h.modified_at) f fs (ground (arith, y)) all,
    insert-IsSorted f fs s,
  )
  | inr n ↦
      let le : f.modified_at ≤ g.modified_at = ground (arith, n) in
      rw n ((le, later_All f g fs le all), (all, s))
]

pub sort-IsSorted : (fs : List File) → IsSorted (sort is_older fs)
unfolding sort
sort-IsSorted [] = tt
sort-IsSorted (f ∷ fs) = insert-IsSorted f (sort is_older fs) (sort-IsSorted fs)

total_size-insert :
    (f : File) (fs : List File) → total_size (insert is_older f fs) ≡ f.size + total_size fs
unfolding total_size insert
total_size-insert f [] = omega arith
total_size-insert f (g ∷ fs) = ground (arith, total_size-insert f fs)

pub total_size-sort : (fs : List File) → total_size (sort is_older fs) ≡ total_size fs
unfolding total_size sort
total_size-sort [] = refl
total_size-sort (f ∷ fs) = omega (arith, total_size-insert f (sort is_older fs), total_size-sort fs)

Member-insert :
    (a f : File) (fs : List File) → (a ≡ f) ⊎ Member a fs → Member a (insert is_older f fs)
unfolding insert
Member-insert a f [] (inl e) = inl e
Member-insert a f [] (inr m) = absurd m
Member-insert a f (g ∷ fs) m = elim (Bool-cases (is_older g f)) [
  | inl y ↦ rw y (elim m [
    | inl e ↦ inr (Member-insert a f fs (inl e))
    | inr (inl e) ↦ inl e
    | inr (inr k) ↦ inr (Member-insert a f fs (inr k))
  ])
  | inr n ↦ rw n m
]

pub Member-sort : (a : File) (fs : List File) → Member a fs → Member a (sort is_older fs)
unfolding sort
Member-sort a [] m = absurd m
Member-sort a (f ∷ fs) (inl e) = Member-insert a f (sort is_older fs) (inl e)
Member-sort a (f ∷ fs) (inr m) = Member-insert a f (sort is_older fs) (inr (Member-sort a fs m))

-- Files that are evicted in this order until `total` is counted: the size that is still counted when
-- one of them goes, which is its own and that of those after it beside the total, exceeds the limit.
abbrev pub IsNeeded : ℕ → ℕ → List File → Type 0
IsNeeded limit total [] = Unit
IsNeeded limit total (f ∷ fs) = (limit < total + total_size (f ∷ fs)) × IsNeeded limit total fs

-- What is right about files that are kept and evicted.
pub record IsSwept (paths : List String) (limit base : ℕ) (files : List File) (s : Swept)
    : Type 0 where
  -- A file that is protected stays.
  pub protects : (f : File) → Member f files → is_protected paths f ≡ true → Member f s.kept
  -- The counted size is that of the files that stay, with what is counted beside them.
  pub counts : s.total ≡ base + total_size s.kept
  -- The limit is kept, unless all that is left is protected.
  pub fits : (s.total ≤ limit) ⊎ All (λ f. is_protected paths f ≡ true) s.kept
  -- What is evicted is not protected and not younger than what stays without protection.
  pub oldest :
      All
        (λ f.
          (is_protected paths f ≡ false)
          × All (λ g. (is_protected paths g ≡ true) ⊎ (f.modified_at ≤ g.modified_at)) s.kept)
        s.evicted
  -- The size that is freed is that of the evicted files.
  pub frees : s.total + total_size s.evicted ≡ base + total_size files
  -- Each of them is evicted while the limit is still exceeded.
  pub needed : IsNeeded limit s.total s.evicted

module _ (paths : List String) (limit : ℕ) where
  pub evict-All :
      (P : File → Type 0) (total : ℕ) (fs : List File)
      → All P fs
      → All P (evict paths limit total fs).kept
  unfolding evict
  evict-All P total [] all = tt
  evict-All P total (f ∷ fs) (p, all) = elim (Bool-cases (leb total limit)) [
    | inl y ↦ rw y (p, all)
    | inr x ↦ elim (Bool-cases (is_protected paths f)) [
      | inl k ↦ rw (x, k) (p, evict-All P total fs all)
      | inr n ↦ rw (x, n) (evict-All P (total - f.size) fs all)
    ]
  ]

  -- Another file that is kept, protected or not younger.
  keep_also :
      (Q : File → Type 0) (R : File → File → Type 0) (k : File) (kept es : List File)
      → ((f : File) → R f k)
      → All (λ f. Q f × All (λ g. R f g) kept) es
      → All (λ f. Q f × All (λ g. R f g) (k ∷ kept)) es
  keep_also Q R k kept [] r all = tt
  keep_also Q R k kept (e ∷ es) r ((q, each), all) =
      ((q, (r e, each)), keep_also Q R k kept es r all)

  weaken :
      (f : File) (fs : List File)
      → All (λ g. f.modified_at ≤ g.modified_at) fs
      → All (λ g. (is_protected paths g ≡ true) ⊎ (f.modified_at ≤ g.modified_at)) fs
  weaken f [] all = tt
  weaken f (g ∷ fs) (le, all) = (inr le, weaken f fs all)

  pub evict-IsSwept :
      (base total : ℕ) (fs : List File)
      → IsSorted fs
      → total ≡ base + total_size fs
      → IsSwept paths limit base fs (evict paths limit total fs)
  unfolding evict total_size
  evict-IsSwept base total [] sorted e = record {
    protects = λ f m h. m;
    counts = e;
    fits = inr tt;
    oldest = tt;
    frees = omega (arith, e);
    needed = tt;
  }
  evict-IsSwept base total (f ∷ fs) (least, sorted) e = elim (Bool-cases (leb total limit)) [
    | inl y ↦ rw y (record {
      protects = λ g m h. m;
      counts = e;
      fits = inl (ground (arith, y));
      oldest = tt;
      frees = omega (arith, e);
      needed = tt;
    })
    | inr x ↦ elim (Bool-cases (is_protected paths f)) [
      | inl k ↦
          let s = evict-IsSwept (base + f.size) total fs sorted (omega (arith, e)) in
          rw (x, k)
            (record {
              protects =
                  λ g m h. elim m [ inl same ↦ inl same | inr there ↦ inr (s.protects g there h) ];
              counts = omega (arith, s.counts);
              fits = elim s.fits [ inl le ↦ inl le | inr all ↦ inr (k, all) ];
              oldest =
                  keep_also (λ g. is_protected paths g ≡ false)
                    (λ h g. (is_protected paths g ≡ true) ⊎ (h.modified_at ≤ g.modified_at)) f _ _
                    (λ h. inl k) s.oldest;
              frees = omega (arith, s.frees);
              needed = s.needed;
            })
      | inr n ↦
          let s = evict-IsSwept base (total - f.size) fs sorted (omega (arith, e)) in
          rw (x, n)
            (record {
              protects = λ g m h. elim m [
                | inl same ↦ absurd (ground (arith, same, h, n))
                | inr there ↦ s.protects g there h
              ];
              counts = s.counts;
              fits = s.fits;
              oldest = (
                (
                  n,
                  weaken f _
                      (evict-All (λ g. f.modified_at ≤ g.modified_at) (total - f.size) fs least),
                ),
                s.oldest,
              );
              frees = omega (arith, s.frees);
              needed = (ground (arith, x, e, s.frees), s.needed);
            })
    ]
  ]
