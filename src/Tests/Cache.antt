-- ===== src/Tests/Cache.antt =====
-- Three files of which the oldest is evicted.
use vrrelay.Prelude.{ℕ, String, some, List, [], ◌∷◌}
use vrrelay.Cache.Eviction.{File, cleanup_expired}
use vrrelay.Cache.Cleaning.{IsClean, cleanup_expired-IsClean}

abbrev file : String → ℕ → ℕ → File
file path size modified_at = record { path = path; size = size; modified_at = modified_at }

abbrev files : List File
files = file "a" 40 900 ∷ file "b" 40 700 ∷ file "c" 40 800 ∷ []

cleanup_expired-IsClean_example :
    IsClean
      ("c" ∷ [])
      500
      (some 100)
      10
      1000
      files
      (cleanup_expired ("c" ∷ []) 500 (some 100) 10 1000 files)
cleanup_expired-IsClean_example = cleanup_expired-IsClean ("c" ∷ []) 500 (some 100) 10 1000 files
