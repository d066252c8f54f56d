-- ===== src/Relay/Retention.antt =====
-- `sweep` of apps/relay/src/retention-service.ts. The repository, the sessions, the users and the
-- audit records that it calls are one state and the operations on it, an argument. A try is a call of
-- the audited operation, kept with the state in which it was made; the latest stands first.
-- A cut-off before the beginning of time is that beginning.
use vrrelay.Prelude.{
  ℕ, ◌+◌, ◌-◌, ◌*◌, String, Bool, true, false, ◌||◌, Option, none, some, List, [], ◌∷◌, any,
  if◌then◌else◌,
}
use vrrelay.Relay.Audit.{Result, ok, error}

pub data Role : Type 0 where
  admin owner other : Role

pub record User : Type 0 where
  pub id : String
  pub roles : List Role
  pub revision : ℕ

-- `none` turns a rule off.
pub record Configuration : Type 0 where
  pub inactivity_hours : Option ℕ
  pub purge_days : Option ℕ

pub record SweepResult : Type 0 where
  pub sessions_deleted : ℕ
  pub users_deleted : ℕ
  pub failures : ℕ

-- `attempt` writes the record before an operation, `conclude` the one after it.
pub record Services (S E : Type 0) : Type 0 where
  pub configuration : S → Configuration
  pub deletion_pending : ℕ → S → List String
  pub inactive_sessions : ℕ → ℕ → S → List String
  pub last_seen_before : ℕ → ℕ → S → List User
  pub has_browser_session : String → ℕ → S → Bool
  pub delete_session : String → S → S × Result E (Unit {0})
  pub delete_if_inactive : String → ℕ → S → S × Result E Bool
  pub delete_user : User → ℕ → S → S × Result E Bool
  pub attempt : String → S → S × Option E
  pub conclude : String → S → S

pub data Try (S : Type 0) : Type 0 where
  retries : S → String → Try S
  expires : S → String → ℕ → Try S
  purges : S → User → ℕ → Try S

pub record Progress (S : Type 0) : Type 0 where
  pub state : S
  pub result : SweepResult
  pub tries : List (Try S)

abbrev pub sweep_limit : ℕ
sweep_limit = 100

abbrev pub is_privileged : Role → Bool
is_privileged admin = true
is_privileged owner = true
is_privileged other = false

-- A deletion that does not throw.
unfoldable pub count_retry : {E : Type 0} → Result E (Unit {0}) → SweepResult → SweepResult
count_retry (error x) r = record r { failures = r.failures + 1 }
count_retry (ok _) r = record r { sessions_deleted = r.sessions_deleted + 1 }

unfoldable pub count_session : {E : Type 0} → Result E Bool → SweepResult → SweepResult
count_session (error x) r = record r { failures = r.failures + 1 }
count_session (ok true) r = record r { sessions_deleted = r.sessions_deleted + 1 }
count_session (ok false) r = r

unfoldable pub count_user : {E : Type 0} → Result E Bool → SweepResult → SweepResult
count_user (error x) r = record r { failures = r.failures + 1 }
count_user (ok true) r = record r { users_deleted = r.users_deleted + 1 }
count_user (ok false) r = r

module _ {S E : Type 0} (services : Services S E) where
  -- `auditedOperation` on the state.
  audited_after : {A : Type 0} → String → (S → S × Result E A) → S × Option E → S × Result E A
  audited_after id operation (s, some x) = (s, error x)
  audited_after id operation (s, none) =
      let done = operation s in (services.conclude id done.0, done.1)

  unfoldable pub audited : {A : Type 0} → String → (S → S × Result E A) → S → S × Result E A
  unfolding audited_after
  audited id operation s = audited_after id operation (services.attempt id s)

  unfoldable pub retry_sessions : List String → Progress S → Progress S
  unfolding audited count_retry
  retry_sessions [] p = p
  retry_sessions (id ∷ ids) p =
      let r = audited id (services.delete_session id) p.state in
      retry_sessions ids (record {
        state = r.0;
        result = count_retry r.1 p.result;
        tries = retries p.state id ∷ p.tries;
      })

  unfoldable pub expire_sessions : ℕ → List String → Progress S → Progress S
  unfolding audited count_session
  expire_sessions before [] p = p
  expire_sessions before (id ∷ ids) p =
      let r = audited id (services.delete_if_inactive id before) p.state in
      expire_sessions before ids (record {
        state = r.0;
        result = count_session r.1 p.result;
        tries = expires p.state id before ∷ p.tries;
      })

  -- The two tests by which a user is passed over.
  unfoldable pub is_kept : User → ℕ → S → Bool
  is_kept u now s = any is_privileged u.roles || services.has_browser_session u.id now s

  unfoldable pub purge_user : ℕ → ℕ → User → Progress S → Progress S
  unfolding audited count_user is_kept
  purge_user now before u p =
      if is_kept u now p.state
      then p
      else (let r = audited u.id (services.delete_user u before) p.state in
          record {
            state = r.0;
            result = count_user r.1 p.result;
            tries = purges p.state u before ∷ p.tries;
          })

  unfoldable pub purge_users : ℕ → ℕ → List User → Progress S → Progress S
  unfolding purge_user
  purge_users now before [] p = p
  purge_users now before (u ∷ us) p = purge_users now before us (purge_user now before u p)

  unfoldable pub expire_rule : ℕ → Option ℕ → Progress S → Progress S
  unfolding expire_sessions
  expire_rule now none p = p
  expire_rule now (some hours) p =
      let before = now - hours * 60 * 60 * 1000 in
      expire_sessions before (services.inactive_sessions before sweep_limit p.state) p

  unfoldable pub purge_rule : ℕ → Option ℕ → Progress S → Progress S
  unfolding purge_users
  purge_rule now none p = p
  purge_rule now (some days) p =
      let before = now - days * 24 * 60 * 60 * 1000 in
      purge_users now before (services.last_seen_before before sweep_limit p.state) p

  unfoldable pub sweep : ℕ → S → Progress S
  unfolding retry_sessions expire_rule purge_rule
  sweep now s =
      let c = services.configuration s in
      let start : Progress S = record {
        state = s;
        result = record { sessions_deleted = 0; users_deleted = 0; failures = 0 };
        tries = [];
      } in
      purge_rule now c.purge_days (
        expire_rule now c.inactivity_hours
          (retry_sessions (services.deletion_pending sweep_limit s) start))
