-- ===== src/Cache/Cleaning.antt =====
-- What `cleanupExpired` leaves.
use vrrelay.Prelude.{
  ℕ, ◌+◌, ◌≤◌, ◌<◌, String, true, false, not, Option, none, some, List, [], ◌==◌, filter, All, ◌≡◌,
  ◌≢◌, ◌⊎◌, inl, inr, refl, arith, Bool-cases,
}
use vrrelay.Prelude.Sorting.{sort, Member, Member-All, filter-Member, Member-filter}
use vrrelay.Cache.Eviction.{
  File, is_protected, is_expired, total_size, Swept, evict, is_older, cleanup_expired, within_limit,
}
use mathlib.Core.Path.{subst}
use vrrelay.Cache.Evicting.{
  IsNeeded, evict-All, evict-IsSwept, sort-All, sort-IsSorted, total_size-sort, Member-sort,
}

-- What is right about the files that a clean-up leaves.
pub record IsClean (paths : List String) (ttl : ℕ) (limit : Option ℕ) (scratch now : ℕ)
    (files : List File) (s : Swept) : Type 0 where
  pub protects : (f : File) → Member f files → is_protected paths f ≡ true → Member f s.kept
  pub current : All (λ f. is_expired paths ttl now f ≡ false) s.kept
  pub counts : s.total ≡ scratch + total_size s.kept
  pub fits :
      (n : ℕ)
      → limit ≡ some n
      → 0 < n
      → (s.total ≤ n) ⊎ All (λ f. is_protected paths f ≡ true) s.kept
  pub oldest :
      All
        (λ f.
          (is_protected paths f ≡ false)
          × All (λ g. (is_protected paths g ≡ true) ⊎ (f.modified_at ≤ g.modified_at)) s.kept)
        s.evicted
  pub needed : (n : ℕ) → limit ≡ some n → IsNeeded n s.total s.evicted
  pub unlimited : (limit ≡ none) ⊎ (limit ≡ some 0) → s.evicted ≡ []
  pub spares :
      (limit ≡ none) ⊎ (limit ≡ some 0)
      → (f : File) → Member f files
      → is_expired paths ttl now f ≡ false
      → Member f s.kept

module _ (paths : List String) (ttl scratch now : ℕ) (files : List File) where
  fresh : List File
  fresh = filter (λ f. not (is_expired paths ttl now f)) files

  fresh-current : All (λ f. is_expired paths ttl now f ≡ false) fresh
  unfolding fresh
  fresh-current =
      Member-All (λ f. is_expired paths ttl now f ≡ false) fresh
        (λ f m.
          let (there, h) = Member-filter (λ g. not (is_expired paths ttl now g)) f files m in
          ground (arith, h))

  fresh-Member : (f : File) → Member f files → is_expired paths ttl now f ≡ false → Member f fresh
  unfolding fresh
  fresh-Member f m h =
      filter-Member (λ g. not (is_expired paths ttl now g)) f files m (ground (arith, h))

  protected-fresh : (f : File) → is_protected paths f ≡ true → is_expired paths ttl now f ≡ false
  unfolding is_expired
  protected-fresh f h = ground (arith, h)

  whole : Swept
  whole = record { kept = fresh; evicted = []; total = scratch + total_size fresh }

  whole-IsClean :
      (limit : Option ℕ)
      → ((n : ℕ) → limit ≡ some n → n ≡ 0)
      → IsClean paths ttl limit scratch now files whole
  unfolding whole
  whole-IsClean limit unlimited = record {
    protects = λ f m h. fresh-Member f m (protected-fresh f h);
    current = fresh-current;
    counts = refl;
    fits = λ n e positive. absurd (omega (arith, positive, unlimited n e));
    oldest = tt;
    needed = λ n e. tt;
    unlimited = λ e. refl;
    spares = λ e. fresh-Member;
  }

  swept-IsClean :
      (limit : ℕ)
      → limit ≢ 0
      → IsClean paths ttl
          (some limit)
          scratch
          now
          files
          (evict paths limit (scratch + total_size fresh) (sort is_older fresh))
  swept-IsClean limit positive =
      let s =
        evict-IsSwept paths limit scratch (scratch + total_size fresh) (sort is_older fresh)
          (sort-IsSorted fresh) (omega (arith, total_size-sort fresh)) in
      let final = evict paths limit (scratch + total_size fresh) (sort is_older fresh) in
      record {
        protects =
            λ f m h. s.protects f (Member-sort f fresh (fresh-Member f m (protected-fresh f h))) h;
        current =
            evict-All paths limit (λ f. is_expired paths ttl now f ≡ false)
              (scratch + total_size fresh) (sort is_older fresh)
              (sort-All (λ f. is_expired paths ttl now f ≡ false) fresh fresh-current);
        counts = s.counts;
        fits = λ n e h. ground (arith, e, s.fits);
        oldest = s.oldest;
        needed =
            λ n e. subst (λ k. IsNeeded k final.total final.evicted) (ground (arith, e)) s.needed;
        unlimited = λ e. absurd (positive (ground (arith, e)));
        spares = λ e. absurd (positive (ground (arith, e)));
      }

-- A clean-up removes every file that has outlived its time and is not protected, keeps every file that
-- is protected, and evicts others only for the sake of the limit: without one (or with 0) it keeps all
-- files that have not outlived their time. With a limit, each file is evicted only while the size
-- that is still counted then, its own included, exceeds the limit. At the end the size that is
-- counted, which is that of the producer's files and all that stay, is within the limit, or all that
-- stay are protected. No file that is evicted is protected, or younger than one that stays without
-- protection.
pub cleanup_expired-IsClean :
    (paths : List String) (ttl : ℕ) (limit : Option ℕ) (scratch now : ℕ) (files : List File)
    → IsClean paths ttl limit scratch now files (cleanup_expired paths ttl limit scratch now files)
unfolding cleanup_expired within_limit fresh whole
cleanup_expired-IsClean paths ttl none scratch now files =
    whole-IsClean paths ttl scratch now files none (λ n e. absurd (ground (arith, e)))
cleanup_expired-IsClean paths ttl (some n) scratch now files = elim (Bool-cases (n == 0)) [
  | inl y ↦ rw y (whole-IsClean paths ttl scratch now files (some n) (λ m e. ground (arith, e, y)))
  | inr x ↦ rw x (swept-IsClean paths ttl scratch now files n (ground (arith, x)))
]
