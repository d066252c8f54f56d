-- ===== src/Tests/Recovery.antt =====
-- Recovery of a producer whose lease has run out.
use vrrelay.Prelude.{◌≡◌, refl, false, none, some, [], ◌∷◌, All}
use vrrelay.Prelude.Maps.{get}
use vrrelay.Repository.{Versioned, Table}
use vrrelay.Repository.Loop.{Others}
use vrrelay.Producer.Record.{VodProducer}
use vrrelay.Producer.Updates.{started}
use vrrelay.Producer.Recovery.{is_orphan, recover_expired}
use vrrelay.Producer.Recovering.{recover_expired-clears}

abbrev first : VodProducer
first = started none "s" "node" 4 60000 90000 1000

abbrev row : Versioned VodProducer
row = record { value = first; revision = 1 }

abbrev table : Table VodProducer
table = ("s", row) ∷ []

abbrev nobody : Others VodProducer
nobody n t = t

recover_expired-clears_example :
    All
      (λ p.
        (r : Versioned VodProducer)
        → get p.session_id (recover_expired 99000 (λ _. nobody) (first ∷ []) table).0 ≡ some r
        → is_orphan 99000 r.value ≡ false)
      (first ∷ [])
unfolding get started
recover_expired-clears_example =
    recover_expired-clears 99000 (first ∷ []) table ((row, refl, refl), tt)
