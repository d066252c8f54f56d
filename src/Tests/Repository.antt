-- ===== src/Tests/Repository.antt =====
-- A write that races with another one.
use vrrelay.Prelude.{ℕ, refl, true, [], ◌∷◌}
use vrrelay.Prelude.Maps.{get}
use vrrelay.Repository.{Versioned, Table, compare_and_set}
use vrrelay.Repository.Interference.{Settles, compare_and_set-Grows, read-compare_and_set}

abbrev row : Versioned ℕ
row = record { value = 5; revision = 2 }

abbrev table : Table ℕ
table = ("k", row) ∷ []

-- Another process writes first.
abbrev raced : Table ℕ
raced = (compare_and_set (λ _. true) table "k" 6 2).0

read-compare_and_set_example :
    Settles
      (λ _. true)
      raced
      "k"
      row
      (record { value = 7; revision = 3 })
      (compare_and_set (λ _. true) raced "k" 7 2)
unfolding get
read-compare_and_set_example =
    read-compare_and_set (λ _. true) table raced "k" 7 row refl
      (compare_and_set-Grows (λ _. true) table "k" 6 2)
