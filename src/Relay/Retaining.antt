-- ===== src/Relay/Retaining.antt =====
-- What a sweep leaves alone, and what its counts mean.
use vrrelay.Prelude.{
  ℕ, ◌+◌, ◌-◌, ◌*◌, ◌≤◌, String, Bool, true, false, Option, none, some, List, [], ◌∷◌, any, ◌≡◌,
  refl, inl, inr, arith, All, length, Bool-cases,
}
use vrrelay.Prelude.Sorting.{Member}
use vrrelay.Relay.Audit.{Result, ok, error}
use vrrelay.Relay.Retention.{
  User, Configuration, SweepResult, Services, Try, retries, expires, purges, Progress, sweep_limit,
  is_privileged, count_retry, count_session, count_user, audited, retry_sessions, expire_sessions,
  is_kept, purge_user, purge_users, expire_rule, purge_rule, sweep,
}

abbrev pub counted : SweepResult → ℕ
counted r = r.sessions_deleted + r.users_deleted + r.failures

count_retry-counted :
    {E : Type 0} (x : Result E (Unit {0})) (r : SweepResult)
    → counted (count_retry x r) ≤ counted r + 1
unfolding count_retry
count_retry-counted (error x) r = omega arith
count_retry-counted (ok _) r = omega arith

count_session-counted :
    {E : Type 0} (x : Result E Bool) (r : SweepResult) → counted (count_session x r) ≤ counted r + 1
unfolding count_session
count_session-counted (error x) r = omega arith
count_session-counted (ok true) r = omega arith
count_session-counted (ok false) r = omega arith

count_user-counted :
    {E : Type 0} (x : Result E Bool) (r : SweepResult) → counted (count_user x r) ≤ counted r + 1
unfolding count_user
count_user-counted (error x) r = omega arith
count_user-counted (ok true) r = omega arith
count_user-counted (ok false) r = omega arith

module _ {S E : Type 0} (services : Services S E) (now : ℕ) (c : Configuration) (first : S) where
  -- Why a try was made. The lists are those of the repository in some state of the sweep.
  abbrev pub IsJustified : Try S → Type 0
  IsJustified (retries s id) = Member id (services.deletion_pending sweep_limit first)
  IsJustified (expires s id before) =
      (hours : ℕ) × (at : S) × (c.inactivity_hours ≡ some hours)
      × (before ≡ now - hours * 60 * 60 * 1000)
      × Member id (services.inactive_sessions before sweep_limit at)
  IsJustified (purges s u before) =
      (days : ℕ) × (at : S) × (c.purge_days ≡ some days)
      × (before ≡ now - days * 24 * 60 * 60 * 1000)
      × Member u (services.last_seen_before before sweep_limit at)
      × (any is_privileged u.roles ≡ false)
      × (services.has_browser_session u.id now s ≡ false)

  pub record IsSound (p : Progress S) : Type 0 where
    pub justified : All IsJustified p.tries
    pub within : counted p.result ≤ length p.tries

  retry_sessions-IsSound :
      (ids : List String) (p : Progress S)
      → ((id : String) → Member id ids → Member id (services.deletion_pending sweep_limit first))
      → IsSound p
      → IsSound (retry_sessions services ids p)
  unfolding retry_sessions
  retry_sessions-IsSound [] p k h = h
  retry_sessions-IsSound (id ∷ ids) p k h =
      let r = audited services id (services.delete_session id) p.state in
      retry_sessions-IsSound ids _ (λ i m. k i (inr m))
        (record {
          justified = (k id (inl refl), h.justified);
          within = omega (arith, h.within, count_retry-counted r.1 p.result);
        })

  expire_sessions-IsSound :
      (hours : ℕ) (at : S)
      → c.inactivity_hours ≡ some hours
      → let before = now - hours * 60 * 60 * 1000 in
        (ids : List String) (p : Progress S)
        → ((id : String)
            → Member id ids
            → Member id (services.inactive_sessions before sweep_limit at))
        → IsSound p
        → IsSound (expire_sessions services before ids p)
  unfolding expire_sessions
  expire_sessions-IsSound hours at e [] p k h = h
  expire_sessions-IsSound hours at e (id ∷ ids) p k h =
      let before = now - hours * 60 * 60 * 1000 in
      let r = audited services id (services.delete_if_inactive id before) p.state in
      expire_sessions-IsSound hours at e ids _ (λ i m. k i (inr m))
        (record {
          justified = ((hours, at, e, refl, k id (inl refl)), h.justified);
          within = omega (arith, h.within, count_session-counted r.1 p.result);
        })

  module _ (days : ℕ) (at : S) (e : c.purge_days ≡ some days) where
    abbrev cut_off : ℕ
    cut_off = now - days * 24 * 60 * 60 * 1000

    purge_user-IsSound :
        (u : User) (p : Progress S)
        → Member u (services.last_seen_before cut_off sweep_limit at)
        → IsSound p
        → IsSound (purge_user services now cut_off u p)
    unfolding purge_user is_kept
    purge_user-IsSound u p m h = elim (Bool-cases (is_kept services u now p.state)) [
      | inl y ↦ rw (y, purge_user) h
      | inr n ↦
          let r = audited services u.id (services.delete_user u cut_off) p.state in
          rw (n, purge_user)
            (record {
              justified =
                  ((days, at, e, refl, m, ground (arith, n), ground (arith, n)), h.justified);
              within = omega (arith, h.within, count_user-counted r.1 p.result);
            })
    ]

    purge_users-IsSound :
        (us : List User) (p : Progress S)
        → ((u : User) → Member u us → Member u (services.last_seen_before cut_off sweep_limit at))
        → IsSound p
        → IsSound (purge_users services now cut_off us p)
    unfolding purge_users
    purge_users-IsSound [] p k h = h
    purge_users-IsSound (u ∷ us) p k h =
        purge_users-IsSound us _ (λ v m. k v (inr m)) (purge_user-IsSound u p (k u (inl refl)) h)

  expire_rule-IsSound :
      (o : Option ℕ)
      → c.inactivity_hours ≡ o
      → (p : Progress S) → IsSound p
      → IsSound (expire_rule services now o p)
  unfolding expire_rule
  expire_rule-IsSound none e p h = h
  expire_rule-IsSound (some hours) e p h = expire_sessions-IsSound hours p.state e _ p (λ i m. m) h

  purge_rule-IsSound :
      (o : Option ℕ)
      → c.purge_days ≡ o
      → (p : Progress S) → IsSound p
      → IsSound (purge_rule services now o p)
  unfolding purge_rule
  purge_rule-IsSound none e p h = h
  purge_rule-IsSound (some days) e p h = purge_users-IsSound days p.state e _ p (λ u m. m) h

-- Everything that a sweep tries is justified by the configuration it read: a deletion is retried only
-- for a session listed as pending; a session expires only if that rule is on, and is listed as
-- inactive since the rule's cut-off; a user is purged only if that rule is on and the user is listed
-- as unseen since its cut-off, is no administrator or owner, and has no browser session open in
-- the state in which the purge is tried. The deletions and failures that it counts are no more than
-- its tries.
pub sweep-IsSound :
    {S E : Type 0} (services : Services S E) (now : ℕ) (s : S)
    → IsSound services now (services.configuration s) s (sweep services now s)
unfolding sweep
sweep-IsSound services now s =
    let c = services.configuration s in
    purge_rule-IsSound services now c s c.purge_days refl _ (
      expire_rule-IsSound services now c s c.inactivity_hours refl _ (
        retry_sessions-IsSound services now c s _ _ (λ i m. m)
          (record { justified = tt; within = omega arith })))
