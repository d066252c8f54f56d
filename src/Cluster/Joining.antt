-- ===== src/Cluster/Joining.antt =====
-- What any number of enrollments give to a join token.
use vrrelay.Prelude.{
  ℕ, String, Bool, true, false, List, [], ◌∷◌, str_eq, if◌then◌else◌, ◌≡◌, ◌≢◌, inl, inr, refl,
  arith, eq_iff, ◌∙◌, sym, All,
}
use mathlib.Core.Path.{subst}
use vrrelay.Prelude.Maps.{get}
use vrrelay.Prelude.Sorting.{Member, All-Member}
use vrrelay.Coordination.Leases.{acquire, release}
use vrrelay.Cluster.Record.{Db}
use vrrelay.Cluster.Enrollment.{
  Signed, World, Outside, Input, Outcome, enrolled, rejected, consume, enroll,
}
use vrrelay.Cluster.OtherTokens.{consume-other}
use vrrelay.Cluster.Enrolling.{
  Status, absent, unused, issued, status, Only, Follows, consume-Follows,
}

module _ (o : Outside) (i : Input) (others : ℕ → Db → Db) (w : World) where
  inside : World
  inside = record w { leases = (acquire w.leases (o.hash i.token) i.owner 60000 i.now).0 }

  unfoldable entered : Bool → World × Outcome
  entered b =
      if b
      then (let r = consume o (o.hash i.token) i others inside in
          (record r.0 { leases = release r.0.leases (o.hash i.token) i.owner }, r.1))
      else (w, rejected)

  unused_up : (s : Status) → Follows s rejected s
  unused_up absent = (refl, refl)
  unused_up unused = inl (refl, refl)
  unused_up (issued s) = (refl, tt)

  enroll-Follows :
      (key : String)
      → o.hash i.token ≡ key
      → Follows
          (status (get key w.claims))
          (enroll o i others w).1
          (status (get key (enroll o i others w).0.claims))
  unfolding enroll inside entered
  enroll-Follows key same =
      subst
        (λ k.
          Follows (status (get k w.claims)) (enroll o i others w).1
            (status (get k (enroll o i others w).0.claims)))
        same (by_lease (acquire w.leases (o.hash i.token) i.owner 60000 i.now).1)
    where
      by_lease :
          (b : Bool)
          → Follows
              (status (get (o.hash i.token) w.claims))
              (entered b).1
              (status (get (o.hash i.token) (entered b).0.claims))
      by_lease true = consume-Follows (o.hash i.token) o i others inside
      by_lease false = unused_up (status (get (o.hash i.token) w.claims))

  enroll-other :
      (key : String)
      → o.hash i.token ≢ key
      → get key (enroll o i others w).0.claims ≡ get key w.claims
  unfolding enroll inside entered
  enroll-other key other = by_lease (acquire w.leases (o.hash i.token) i.owner 60000 i.now).1
    where
      by_lease : (b : Bool) → get key (entered b).0.claims ≡ get key w.claims
      by_lease true = consume-other (o.hash i.token) key other o i others inside
      by_lease false = refl

-- One enrollment and what others do to the nodes during it.
abbrev pub Call : Type 0
Call = Input × (ℕ → Db → Db)

unfoldable certificate_of : Outcome → List Signed → List Signed
certificate_of (enrolled n s) rest = s ∷ rest
certificate_of rejected rest = rest

-- The certificates that enrollments with a token are given, one after the other.
unfoldable pub certificates : Outside → String → List Call → World → List Signed
unfolding certificate_of
certificates o key [] w = []
certificates o key ((i, others) ∷ cs) w =
    let r = enroll o i others w in
    let rest = certificates o key cs r.0 in
    if str_eq (o.hash i.token) key then certificate_of r.1 rest else rest

-- What enrollments give to a token: nothing, if it is not there; always the same certificate, and the
-- one that was issued before, if there is one.
abbrev pub Gives : Status → List Signed → Type 0
Gives absent ss = ss ≡ []
Gives unused ss = (s s' : Signed) → Member s ss → Member s' ss → s ≡ s'
Gives (issued s) ss = All (λ s'. s' ≡ s) ss

Only-certificate_of :
    (s : Signed) (r : Outcome) (ss : List Signed)
    → Only s r
    → All (λ v. v ≡ s) ss
    → All (λ v. v ≡ s) (certificate_of r ss)
unfolding certificate_of
Only-certificate_of s (enrolled n s') ss only all = (only, all)
Only-certificate_of s rejected ss only all = all

Follows-Gives :
    (before after : Status) (r : Outcome) (ss : List Signed)
    → Follows before r after
    → Gives after ss
    → Gives before (certificate_of r ss)
unfolding certificate_of
Follows-Gives absent after r ss (e, x) g = rw x (rw e at g)
Follows-Gives unused after r ss (inl (e, x)) g = rw x (rw e at g)
Follows-Gives unused after r ss (inr (s, e, only)) g = λ a b m m'.
    let all = Only-certificate_of s r ss only (rw e at g) in
    All-Member (λ v. v ≡ s) a (certificate_of r ss) all m
    ∙ sym (All-Member (λ v. v ≡ s) b (certificate_of r ss) all m')
Follows-Gives (issued s) after r ss (e, only) g = Only-certificate_of s r ss only (rw e at g)

-- A join token gives one certificate: however many enrollments with it are tried, by whoever, one
-- after the other, whichever effects fail and whatever is enrolled with other tokens or done to the
-- nodes in between, all that succeed are given the same certificate. If one was issued before, it is
-- that one, and with a token that is not there none succeeds.
pub certificates-Gives :
    (o : Outside) (key : String) (cs : List Call) (w : World)
    → Gives (status (get key w.claims)) (certificates o key cs w)
unfolding certificates
certificates-Gives o key [] w = empty (status (get key w.claims))
  where
    empty : (s : Status) → Gives s []
    empty absent = refl
    empty unused = λ s s' m m'. absurd m
    empty (issued s) = tt
certificates-Gives o key ((i, others) ∷ cs) w =
    by_token (certificates-Gives o key cs (enroll o i others w).0) (str_eq (o.hash i.token) key)
      refl
  where
    rest : List Signed
    rest = certificates o key cs (enroll o i others w).0

    by_token :
        Gives (status (get key (enroll o i others w).0.claims)) rest
        → (b : Bool) → str_eq (o.hash i.token) key ≡ b
        → Gives
            (status (get key w.claims))
            (if b then certificate_of (enroll o i others w).1 rest else rest)
    by_token ih true h =
        Follows-Gives _ _ _ rest
          (enroll-Follows o i others w key (ground (arith, h, eq_iff (o.hash i.token) key))) ih
    by_token ih false h =
        subst (λ k. Gives (status k) rest)
          (enroll-other o i others w key
            (λ e. absurd (ground (arith, h, e, eq_iff (o.hash i.token) key))))
          ih
