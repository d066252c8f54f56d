-- ===== src/Cluster/OtherTokens.antt =====
-- Enrollments with one token leave the claims of the others alone.
use vrrelay.Prelude.{
  ℕ, ◌+◌, String, Bool, true, false, Option, none, some, str_eq, leb, max, ◌-◌, if◌then◌else◌, ◌≡◌,
  ◌≢◌, inl, inr, refl, arith, eq_iff, Bool-cases, ◌∙◌,
}
use vrrelay.Prelude.Maps.{Map, get, set, get-set}
use vrrelay.Cluster.Record.{ClusterNode, Db}
use vrrelay.Cluster.Enrollment.{
  Signed, Enrollment, JoinClaim, Kept, World, Outside, Fault, works, fails_before, fails_after,
  fails_unread, Input, rejected, read_claim, store_claim, new_node, retry_ms, complete, settled,
  finish, sign_with, with_enrollment, with_claim, consume,
}

-- An enrollment with another token.
module _ (key j : String) (other : key ≢ j) where
  abbrev kept : World → Option Kept
  kept w = get j w.claims

  stored-other :
      (c : JoinClaim) (ttl now : ℕ) (claims : Map Kept)
      → get j (set key (record { claim = c; until = now + max 1 ttl }) claims) ≡ get j claims
  stored-other c ttl now claims = ground (
    arith,
    other,
    eq_iff key j,
    get-set j key (record { claim = c; until = now + max 1 ttl }) claims,
  )

  store_claim-other :
      (f : Fault) (c : JoinClaim) (ttl now : ℕ) (claims : Map Kept)
      → get j (store_claim f key c ttl now claims).0 ≡ get j claims
  unfolding store_claim
  store_claim-other works c ttl now claims = stored-other c ttl now claims
  store_claim-other fails_before c ttl now claims = refl
  store_claim-other fails_after c ttl now claims = stored-other c ttl now claims
  store_claim-other fails_unread c ttl now claims = stored-other c ttl now claims

  module _ (o : Outside) (c : JoinClaim) (i : Input) (others : ℕ → Db → Db) where
    settled-other :
        (e : Enrollment) (w : World) (d : Db × Option ClusterNode)
        → kept (settled c e key i w d).0 ≡ kept w
    unfolding settled complete
    settled-other e w (d, none) = refl
    settled-other e w (d, some n) = elim (Bool-cases e.is_completed) [
      | inl y ↦ rw y refl
      | inr x ↦ rw x (
          store_claim-other i.completed_fault
            (record c { enrollment = some (record e { is_completed = true }) }) retry_ms i.now
            w.claims)
    ]

    finish-other : (e : Enrollment) (w : World) → kept (finish o c e key i others w).0 ≡ kept w
    unfolding finish
    finish-other e w = settled-other e w _

    sign_with-other :
        (w : World) (s : Option Signed) → kept (sign_with o c key i others w s).0 ≡ kept w
    unfolding sign_with
    sign_with-other w none = refl
    sign_with-other w (some s) = by_test stored.1
      where
        e : Enrollment
        e = record {
          csr_hash = o.hash i.csr;
          node = new_node c i s;
          certificate = s;
          is_completed = false;
        }

        stored : Map Kept × Bool
        stored =
            store_claim i.pending_fault key (record c { enrollment = some e })
              (max retry_ms (c.expires_at - i.now)) i.now w.claims

        unmoved : get j stored.0 ≡ get j w.claims
        unmoved =
            store_claim-other i.pending_fault (record c { enrollment = some e })
              (max retry_ms (c.expires_at - i.now)) i.now w.claims

        by_test :
            (b : Bool)
            → kept
                (if b
                  then finish o c e key i others (record w { claims = stored.0 })
                  else (record w { claims = stored.0 }, rejected)).0
              ≡ kept w
        by_test true = finish-other e (record w { claims = stored.0 }) ∙ unmoved
        by_test false = unmoved

    with_enrollment-other :
        (w : World) (e : Option Enrollment) → kept (with_enrollment o c key i others w e).0 ≡ kept w
    unfolding with_enrollment
    with_enrollment-other w none = elim (Bool-cases (leb c.expires_at i.now)) [
      | inl y ↦ rw y refl
      | inr n ↦ rw n (sign_with-other w (o.sign i.fresh_id i.csr))
    ]
    with_enrollment-other w (some e) = elim (Bool-cases (str_eq e.csr_hash (o.hash i.csr))) [
      | inl y ↦ rw y (finish-other e w)
      | inr n ↦ rw n refl
    ]

  pub consume-other :
      (o : Outside) (i : Input) (others : ℕ → Db → Db) (w : World)
      → kept (consume o key i others w).0 ≡ kept w
  unfolding consume with_claim
  consume-other o i others w = by_claim (read_claim (get key w.claims) i.now)
    where
      by_claim : (c : Option JoinClaim) → kept (with_claim o key i others w c).0 ≡ kept w
      by_claim none = refl
      by_claim (some c) = with_enrollment-other o c i others w c.enrollment
