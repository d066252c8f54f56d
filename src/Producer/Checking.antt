-- ===== src/Producer/Checking.antt =====
-- How the periodic check of a running producer ends.
use vrrelay.Prelude.{ℕ, ◌+◌, ◌≤◌, String, none, some, ◌≡◌}
use vrrelay.Prelude.Maps.{get}
use vrrelay.Repository.{Versioned, Table}
use vrrelay.Repository.Loop.{Others, stopped_by}
use vrrelay.Producer.Record.{VodProducer}
use vrrelay.Producer.Transition.{transition}
use vrrelay.Producer.Fencing.{Fenced}
use vrrelay.Producer.Active.{Active, Options}
use vrrelay.Producer.Refresh.{DemandWrite, Refreshed, Checked, returns, conflicts, demand_update}

module _ (o : Options) (others : Others VodProducer) (session_id : String) (generation now : ℕ)
    (t : Table VodProducer) (row : Versioned VodProducer) where
  -- How the check ends that comes to `r`: what it leaves in the table, and whether it throws.
  pub data Ends (r : Refreshed) (end : Table VodProducer × Checked) : Type 0 where
    without_write : r.write ≡ none → end ≡ (t, returns r) → Ends r end
    written :
        (w : DemandWrite) (next : Versioned VodProducer)
        → r.write ≡ some w
        → end.1 ≡ returns r
        → Fenced session_id generation (demand_update o w now) t end.0 next
        → Ends r end
    not_allowed :
        (w : DemandWrite)
        → r.write ≡ some w
        → end.1 ≡ returns r
        → (transition others t session_id generation (demand_update o w now)).1 ≡ stopped_by tt
        → Ends r end
    throws_conflict :
        (w : DemandWrite) (row' : Versioned VodProducer)
        → r.write ≡ some w
        → end.1 ≡ conflicts r
        → get session_id end.0 ≡ some row'
        → row.revision + 5 ≤ row'.revision
        → Ends r end
