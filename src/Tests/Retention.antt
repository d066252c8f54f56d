-- ===== src/Tests/Retention.antt =====
-- A sweep over two unseen users, one of them an owner.
use vrrelay.Prelude.{ℕ, ◌+◌, String, true, false, none, some, [], ◌∷◌}
use vrrelay.Relay.Audit.{ok}
use vrrelay.Relay.Retention.{User, owner, other, Services, sweep}
use vrrelay.Relay.Retaining.{IsSound, sweep-IsSound}

abbrev kept : User
kept = record { id = "u"; roles = owner ∷ []; revision = 1 }

abbrev stale : User
stale = record { id = "v"; roles = other ∷ []; revision = 4 }

-- The state counts the operations.
abbrev services : Services ℕ String
services = record {
  configuration = λ _. record { inactivity_hours = none; purge_days = some 30 };
  deletion_pending = λ _ _. "s" ∷ [];
  inactive_sessions = λ _ _ _. [];
  last_seen_before = λ _ _ _. kept ∷ stale ∷ [];
  has_browser_session = λ _ _ _. false;
  delete_session = λ _ n. (n + 1, ok tt);
  delete_if_inactive = λ _ _ n. (n + 1, ok false);
  delete_user = λ _ _ n. (n + 1, ok true);
  attempt = λ _ n. (n, none);
  conclude = λ _ n. n;
}

sweep-IsSound_example :
    IsSound services 9000000000 (services.configuration 0) 0 (sweep services 9000000000 0)
sweep-IsSound_example = sweep-IsSound services 9000000000 0
