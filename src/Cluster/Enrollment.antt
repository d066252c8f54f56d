-- ===== src/Cluster/Enrollment.antt =====
-- `createJoinToken`, `enroll` and what they call of packages/application/src/cluster-service.ts. A claim is
-- kept under the hash of its token in the coordination store, as JSON text that is read back as it
-- was written. An enrollment runs while it holds the token's lease; what others do to the nodes
-- meanwhile is `others`. An effect may fail before or after it is stored, and after it is stored the read
-- that looks for it may fail too.
use vrrelay.Prelude.{
  ℕ, ◌+◌, ◌*◌, ◌-◌, max, String, Bool, true, false, not, ◌&&◌, Option, none, some, List, leb, ◌==◌,
  str_eq, filter, Map, if◌then◌else◌, is_some,
}
use vrrelay.Prelude.Maps.{get, set}
use vrrelay.Repository.{Versioned}
use vrrelay.Coordination.Leases.{Lease, acquire, release}
use vrrelay.Cluster.Record.{NodeState, NodeRole, Capability, ClusterNode, Certificate, Db}
use vrrelay.Cluster.Nodes.{create_node}
use vrrelay.Cluster.Service.{first_match}

-- `SignedCertificate`
pub record Signed : Type 0 where
  pub serial_number : String
  pub fingerprint : String
  pub expires_at : ℕ

-- `JoinEnrollmentClaim`
pub record Enrollment : Type 0 where
  pub csr_hash : String
  pub node : ClusterNode
  pub certificate : Signed
  pub is_completed : Bool

pub record JoinClaim : Type 0 where
  pub name : String
  pub roles : List NodeRole
  pub region : String
  pub expires_at : ℕ
  pub enrollment : Option Enrollment

-- A claim with the time until which the store keeps it.
pub record Kept : Type 0 where
  pub claim : JoinClaim
  pub until : ℕ

pub record World : Type 0 where
  pub leases : Map Lease
  pub claims : Map Kept
  pub db : Db

-- The hash of a text, the certificate authority, which may refuse, and the lower case of a text.
pub record Outside : Type 0 where
  pub hash : String → String
  pub sign : String → String → Option Signed
  pub lower : String → String

pub data Fault : Type 0 where
  works fails_before fails_after fails_unread : Fault

pub record Input : Type 0 where
  pub token : String
  pub name : String
  pub public_url : String
  pub internal_url : Option String
  pub capabilities : Capability
  pub csr : String
  -- The random owner of the lease and the random identifier of a new node.
  pub owner : String
  pub fresh_id : String
  pub now : ℕ
  pub pending_fault : Fault
  pub creation_fault : Fault
  pub completed_fault : Fault

pub data Outcome : Type 0 where
  enrolled : ClusterNode → Signed → Outcome
  rejected : Outcome

unfoldable pub read_claim : Option Kept → ℕ → Option JoinClaim
read_claim none now = none
read_claim (some k) now = if leb k.until now then none else some k.claim

-- `#storeJoinClaim`; a failure is an error unless the claim is read again and turns out to be stored.
unfoldable pub store_claim : Fault → String → JoinClaim → ℕ → ℕ → Map Kept → Map Kept × Bool
store_claim fails_before key c ttl now claims = (claims, false)
store_claim fails_unread key c ttl now claims =
    (set key (record { claim = c; until = now + max 1 ttl }) claims, false)
store_claim _ key c ttl now claims =
    (set key (record { claim = c; until = now + max 1 ttl }) claims, true)

-- `createJoinToken`
unfoldable pub create_join_token :
    Outside → String → String → List NodeRole → String → ℕ → ℕ → World → World
create_join_token o token name roles region seconds now w = record w {
  claims =
      set (o.hash token)
        (record {
          claim = record {
            name = name;
            roles = roles;
            region = region;
            expires_at = now + seconds * 1000;
            enrollment = none;
          };
          until = now + seconds * 1000;
        })
        w.claims;
}

-- `#certificateState`
unfoldable pub certificate_state : String → Signed → ℕ → Certificate
certificate_state id s now = record {
  node_id = id;
  serial_number = s.serial_number;
  fingerprint = s.fingerprint;
  expires_at = s.expires_at;
  revoked_at = none;
  created_at = now;
}

pub data Reconciled : Type 0 where
  found : ClusterNode → Reconciled
  not_created differs : Reconciled

is_same_certificate : (String → String) → Signed → Certificate → Bool
is_same_certificate lower s c =
    str_eq c.serial_number s.serial_number && str_eq (lower c.fingerprint) (lower s.fingerprint)

certified : Signed → Option Certificate → Bool
certified s none = false
certified s (some c) = not (is_some c.revoked_at) && c.expires_at == s.expires_at

reconcile_found :
    (String → String) → Enrollment → List Certificate → Option (Versioned ClusterNode) → Reconciled
reconcile_found lower e cs none = not_created
reconcile_found lower e cs (some row) =
    if certified e.certificate (
        first_match (is_same_certificate lower e.certificate)
          (filter (λ c. str_eq c.node_id e.node.id) cs))
      && row.value.created_at == e.node.created_at
    then found row.value
    else differs

-- `#reconcileEnrollment`
unfoldable pub reconcile : (String → String) → Enrollment → Db → Reconciled
unfolding reconcile_found certified is_same_certificate
reconcile lower e db = reconcile_found lower e db.certificates (get e.node.id db.nodes)

-- The node that a claim is for.
unfoldable pub new_node : JoinClaim → Input → Signed → ClusterNode
new_node c i s = record {
  id = i.fresh_id;
  name = if str_eq i.name "" then c.name else i.name;
  roles = c.roles;
  region = c.region;
  public_url = i.public_url;
  internal_url = i.internal_url;
  state = NodeState.online;
  capabilities = i.capabilities;
  weight = 100;
  certificate_expires_at = some s.expires_at;
  last_heartbeat_at = i.now;
  created_at = i.now;
  updated_at = i.now;
}

abbrev pub retry_ms : ℕ
retry_ms = 300000

unfoldable pub as_found : Reconciled → Option ClusterNode
as_found (found n) = some n
as_found _ = none

-- The creation of the node, and what is found where it fails.
unfoldable pub created_or :
    (String → String) → Enrollment → Fault → Option Db → Db → Db × Option ClusterNode
created_or lower e works none db = (db, as_found (reconcile lower e db))
created_or lower e works (some d) db = (d, some e.node)
created_or lower e fails_before d db = (db, as_found (reconcile lower e db))
created_or lower e fails_unread none db = (db, none)
created_or lower e fails_unread (some d) db = (d, none)
created_or lower e fails_after none db = (db, as_found (reconcile lower e db))
created_or lower e fails_after (some d) db = (d, as_found (reconcile lower e d))

-- The node of an enrollment: the one that is there, or else a new one, unless it was completed before.
unfoldable pub node_of :
    (String → String)
    → Enrollment
    → Fault
    → (ℕ → Db → Db)
    → Reconciled
    → Db
    → Db × Option ClusterNode
node_of lower e f others (found n) db = (db, some n)
node_of lower e f others differs db = (db, none)
node_of lower e f others not_created db =
    if e.is_completed
    then (db, none)
    else (let d = others 0 db in
        created_or lower e f
          (create_node d e.node
            (some (certificate_state e.node.id e.certificate e.node.created_at)))
          d)

unfoldable pub complete :
    JoinClaim → Enrollment → String → Input → ClusterNode → World → World × Outcome
complete c e key i n w =
    if e.is_completed
    then (w, enrolled n e.certificate)
    else (let s =
          store_claim i.completed_fault key
            (record c { enrollment = some (record e { is_completed = true }) }) retry_ms i.now
            w.claims in
        (record w { claims = s.0 }, if s.1 then enrolled n e.certificate else rejected))

unfoldable pub settled :
    JoinClaim → Enrollment → String → Input → World → Db × Option ClusterNode → World × Outcome
settled c e key i w (d, none) = (record w { db = d }, rejected)
settled c e key i w (d, some n) = complete c e key i n (record w { db = d })

-- The rest of an enrollment, from the claim's enrollment on.
unfoldable pub finish :
    Outside → JoinClaim → Enrollment → String → Input → (ℕ → Db → Db) → World → World × Outcome
unfolding as_found created_or node_of complete settled
finish o c e key i others w =
    let d = others 1 w.db in
    settled c e key i w (node_of o.lower e i.creation_fault others (reconcile o.lower e d) d)

unfoldable pub sign_with :
    Outside → JoinClaim → String → Input → (ℕ → Db → Db) → World → Option Signed → World × Outcome
sign_with o c key i others w none = (w, rejected)
sign_with o c key i others w (some s) =
    let e : Enrollment = record {
      csr_hash = o.hash i.csr;
      node = new_node c i s;
      certificate = s;
      is_completed = false;
    } in
    let stored =
      store_claim i.pending_fault key (record c { enrollment = some e })
        (max retry_ms (c.expires_at - i.now)) i.now w.claims in
    let kept = record w { claims = stored.0 } in
    if stored.1 then finish o c e key i others kept else (kept, rejected)

-- Whether the claim has an enrollment already, which is then the one to finish.
unfoldable pub with_enrollment :
    Outside
    → JoinClaim
    → String
    → Input
    → (ℕ → Db → Db)
    → World
    → Option Enrollment
    → World × Outcome
with_enrollment o c key i others w (some e) =
    if str_eq e.csr_hash (o.hash i.csr) then finish o c e key i others w else (w, rejected)
with_enrollment o c key i others w none =
    if leb c.expires_at i.now
    then (w, rejected)
    else sign_with o c key i others w (o.sign i.fresh_id i.csr)

unfoldable pub with_claim :
    Outside → String → Input → (ℕ → Db → Db) → World → Option JoinClaim → World × Outcome
with_claim o key i others w none = (w, rejected)
with_claim o key i others w (some c) = with_enrollment o c key i others w c.enrollment

-- What an enrollment does while it holds the lease.
unfoldable pub consume : Outside → String → Input → (ℕ → Db → Db) → World → World × Outcome
unfolding sign_with with_enrollment with_claim
consume o key i others w = with_claim o key i others w (read_claim (get key w.claims) i.now)

-- `enroll`
unfoldable pub enroll : Outside → Input → (ℕ → Db → Db) → World → World × Outcome
enroll o i others w =
    let key = o.hash i.token in
    let got = acquire w.leases key i.owner 60000 i.now in
    if got.1
    then (let r = consume o key i others (record w { leases = got.0 }) in
        (record r.0 { leases = release r.0.leases key i.owner }, r.1))
    else (w, rejected)
