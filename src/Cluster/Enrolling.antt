-- ===== src/Cluster/Enrolling.antt =====
-- What a join token gives.
use vrrelay.Prelude.{
  ℕ, ◌+◌, String, Bool, if◌then◌else◌, true, false, Option, none, some, str_eq, leb, max, ◌-◌, ◌≡◌,
  ◌⊎◌, inl, inr, refl, arith, eq_refl, Bool-cases, ap,
}
use vrrelay.Prelude.Maps.{Map, get, set, get-set}
use vrrelay.Cluster.Record.{ClusterNode, Db}
use vrrelay.Cluster.Enrollment.{
  Signed, Enrollment, JoinClaim, Kept, World, Outside, Fault, works, fails_before, fails_after,
  fails_unread, Input, Outcome, enrolled, rejected, read_claim, store_claim, reconcile, new_node,
  retry_ms, node_of, complete, settled, finish, sign_with, with_enrollment, with_claim, consume,
}

-- A token that is not there, that nobody has used, or that a certificate was issued for.
pub data Status : Type 0 where
  absent unused : Status
  issued : Signed → Status

abbrev pub by_enrollment : Option Enrollment → Status
by_enrollment none = unused
by_enrollment (some e) = issued e.certificate

abbrev pub status : Option Kept → Status
status none = absent
status (some k) = by_enrollment k.claim.enrollment

-- An outcome that gives no certificate but this one.
abbrev pub Only : Signed → Outcome → Type 0
Only s (enrolled n s') = s' ≡ s
Only s rejected = Unit

-- What an enrollment with the token may give and leave.
abbrev pub Follows : Status → Outcome → Status → Type 0
Follows absent r after = (after ≡ absent) × (r ≡ rejected)
Follows unused r after =
    ((after ≡ unused) × (r ≡ rejected)) ⊎ ((s : Signed) × (after ≡ issued s) × Only s r)
Follows (issued s) r after = (after ≡ issued s) × Only s r

module _ (key : String) where
  abbrev at : World → Status
  at w = status (get key w.claims)

  stored-status :
      (c : JoinClaim) (ttl now : ℕ) (claims : Map Kept)
      → status (get key (set key (record { claim = c; until = now + max 1 ttl }) claims))
        ≡ by_enrollment c.enrollment
  stored-status c ttl now claims =
      ground
        (arith, get-set key key (record { claim = c; until = now + max 1 ttl }) claims, eq_refl key)

  -- The claim is stored, or nothing is and the failure is reported.
  store_claim-status :
      (f : Fault) (c : JoinClaim) (ttl now : ℕ) (claims : Map Kept)
      → (store_claim f key c ttl now claims ≡ (claims, false))
        ⊎ (status (get key (store_claim f key c ttl now claims).0) ≡ by_enrollment c.enrollment)
  unfolding store_claim
  store_claim-status works c ttl now claims = inr (stored-status c ttl now claims)
  store_claim-status fails_before c ttl now claims = inl refl
  store_claim-status fails_after c ttl now claims = inr (stored-status c ttl now claims)
  store_claim-status fails_unread c ttl now claims = inr (stored-status c ttl now claims)

  Only-test :
      (s : Signed) (n : ClusterNode) (b : Bool) → Only s (if b then enrolled n s else rejected)
  Only-test s n true = refl
  Only-test s n false = tt

  module _ (c : JoinClaim) (e : Enrollment) (i : Input) where
    complete-issued :
        (n : ClusterNode) (w : World)
        → at w ≡ issued e.certificate
        → (at (complete c e key i n w).0 ≡ issued e.certificate)
          × Only e.certificate (complete c e key i n w).1
    unfolding complete
    complete-issued n w h = elim (Bool-cases e.is_completed) [
      | inl y ↦ rw y (h, refl)
      | inr x ↦
          elim (store_claim-status i.completed_fault
            (record c { enrollment = some (record e { is_completed = true }) }) retry_ms i.now
            w.claims) [
              | inl same ↦ rw (x, same) (h, tt)
              | inr stands ↦ rw x (stands, Only-test e.certificate n _)
            ]
    ]

    settled-issued :
        (w : World) (d : Db × Option ClusterNode)
        → at w ≡ issued e.certificate
        → (at (settled c e key i w d).0 ≡ issued e.certificate)
          × Only e.certificate (settled c e key i w d).1
    unfolding settled
    settled-issued w (d, none) h = (h, tt)
    settled-issued w (d, some n) h = complete-issued n (record w { db = d }) h

    finish-issued :
        (o : Outside) (others : ℕ → Db → Db) (w : World)
        → at w ≡ issued e.certificate
        → Follows
            (issued e.certificate)
            (finish o c e key i others w).1
            (at (finish o c e key i others w).0)
    unfolding finish
    finish-issued o others w h =
        settled-issued w
          (node_of o.lower e i.creation_fault others (reconcile o.lower e (others 1 w.db))
            (others 1 w.db))
          h

  module _ (o : Outside) (i : Input) (others : ℕ → Db → Db) (w : World) where
    sign_with-Follows :
        (c : JoinClaim) (s : Option Signed)
        → at w ≡ unused
        → Follows unused (sign_with o c key i others w s).1 (at (sign_with o c key i others w s).0)
    unfolding sign_with
    sign_with-Follows c none h = inl (h, refl)
    sign_with-Follows c (some s) h =
        elim (store_claim-status i.pending_fault (record c { enrollment = some e })
          (max retry_ms (c.expires_at - i.now)) i.now w.claims) [
            | inl same ↦ rw same (inl (h, refl))
            | inr stands ↦ by_test stored.1 stands
          ]
      where
        e : Enrollment
        e = record {
          csr_hash = o.hash i.csr;
          node = new_node c i s;
          certificate = s;
          is_completed = false;
        }

        stored : Map Kept × Bool
        stored =
            store_claim i.pending_fault key (record c { enrollment = some e })
              (max retry_ms (c.expires_at - i.now)) i.now w.claims

        by_test :
            (b : Bool)
            → status (get key stored.0) ≡ issued s
            → let kept = record w { claims = stored.0 } in
              let r = if b then finish o c e key i others kept else (kept, rejected) in
              Follows unused r.1 (at r.0)
        by_test true stands =
            let (stays, only) =
              finish-issued c e i o others (record w { claims = stored.0 }) stands in
            inr (s, stays, only)
        by_test false stands = inr (s, stands, tt)

    with_enrollment-Follows :
        (c : JoinClaim) (e : Option Enrollment)
        → at w ≡ by_enrollment e
        → Follows
            (by_enrollment e)
            (with_enrollment o c key i others w e).1
            (at (with_enrollment o c key i others w e).0)
    unfolding with_enrollment
    with_enrollment-Follows c none h = elim (Bool-cases (leb c.expires_at i.now)) [
      | inl y ↦ rw y (inl (h, refl))
      | inr n ↦ rw n (sign_with-Follows c (o.sign i.fresh_id i.csr) h)
    ]
    with_enrollment-Follows c (some e) h = elim (Bool-cases (str_eq e.csr_hash (o.hash i.csr))) [
      | inl y ↦ rw y (finish-issued c e i o others w h)
      | inr n ↦ rw n (h, tt)
    ]

    pub consume-Follows :
        Follows (at w) (consume o key i others w).1 (at (consume o key i others w).0)
    unfolding consume with_claim read_claim
    consume-Follows = by_claim (get key w.claims) refl
      where
        unread :
            (e : Option Enrollment)
            → at w ≡ by_enrollment e
            → Follows (by_enrollment e) rejected (at w)
        unread none h = inl (h, refl)
        unread (some e) h = (h, tt)

        by_claim :
            (k : Option Kept)
            → get key w.claims ≡ k
            → Follows
                (status k)
                (with_claim o key i others w (read_claim k i.now)).1
                (at (with_claim o key i others w (read_claim k i.now)).0)
        by_claim none h = (ap status h, refl)
        by_claim (some k) h = elim (Bool-cases (leb k.until i.now)) [
          | inl y ↦ rw y (unread k.claim.enrollment (ap status h))
          | inr n ↦ rw n (with_enrollment-Follows k.claim k.claim.enrollment (ap status h))
        ]
