-- ===== src/Cache/Eviction.antt =====
-- `cleanupExpired` of packages/application/src/session-cache.ts, on the files that it finds: those that
-- have outlived their time and then the least recently used ones, down to the limit.
use vrrelay.Prelude.{
  ℕ, ◌+◌, ◌-◌, String, Bool, not, ◌&&◌, Option, none, some, List, [], ◌∷◌, ltb, leb, ◌==◌, str_eq,
  any, filter, length, if◌then◌else◌,
}
use vrrelay.Prelude.Sorting.{sort}

pub record File : Type 0 where
  pub path : String
  pub size : ℕ
  pub modified_at : ℕ

abbrev pub is_protected : List String → File → Bool
is_protected paths f = any (str_eq f.path) paths

-- `now - info.mtimeMs > cacheTtlMs`, for a file that is not protected.
unfoldable pub is_expired : List String → ℕ → ℕ → File → Bool
is_expired paths ttl now f = not (is_protected paths f) && ltb (f.modified_at + ttl) now

unfoldable pub total_size : List File → ℕ
total_size [] = 0
total_size (f ∷ fs) = f.size + total_size fs

-- What is left, what is evicted, and the size that is counted.
pub record Swept : Type 0 where
  pub kept : List File
  pub evicted : List File
  pub total : ℕ

-- The loop over the files, the least recently used first.
unfoldable pub evict : List String → ℕ → ℕ → List File → Swept
evict paths limit total [] = record { kept = []; evicted = []; total = total }
evict paths limit total (f ∷ fs) =
    let passed = evict paths limit total fs in
    let freed = evict paths limit (total - f.size) fs in
    if leb total limit
    then record { kept = f ∷ fs; evicted = []; total = total }
    else if is_protected paths f
    then record passed { kept = f ∷ passed.kept }
    else record freed { evicted = f ∷ freed.evicted }

abbrev pub is_older : File → File → Bool
is_older a b = ltb a.modified_at b.modified_at

unfoldable pub within_limit : List String → Option ℕ → ℕ → List File → Swept
within_limit paths none total fs = record { kept = fs; evicted = []; total = total }
within_limit paths (some limit) total fs =
    if limit == 0
    then record { kept = fs; evicted = []; total = total }
    else evict paths limit total (sort is_older fs)

-- `scratch` is the size of the producer's files, which are not evicted.
unfoldable pub cleanup_expired : List String → ℕ → Option ℕ → ℕ → ℕ → List File → Swept
unfolding within_limit
cleanup_expired paths ttl limit scratch now files =
    let fresh = filter (λ f. not (is_expired paths ttl now f)) files in
    within_limit paths limit (scratch + total_size fresh) fresh

-- The number of files that are removed.
unfoldable pub removed_count : List String → ℕ → Option ℕ → ℕ → ℕ → List File → ℕ
removed_count paths ttl limit scratch now files =
    length (filter (is_expired paths ttl now) files)
    + length (cleanup_expired paths ttl limit scratch now files).evicted
