-- ===== src/Tests/Cluster.antt =====
-- A node with one certificate that is rotated, revoked and presented again.
use vrrelay.Prelude.{
  ℕ, String, Bool, true, false, ◌&&◌, Option, none, some, [], ◌∷◌, ltb, str_eq, ◌≡◌, refl,
}
use vrrelay.Prelude.Maps.{get, set}
use vrrelay.Repository.{compare_and_set}
use vrrelay.Cluster.Record.{NodeState, NodeRole, ClusterNode, Certificate, Db}
use vrrelay.Cluster.Nodes.{
  at_revision, write_node, revoke_certificates, put_certificate, rotated, with_certificates,
  rotate_certificate, revoked_after, revoke_node,
}
use vrrelay.Cluster.Certificates.{IsGuarded}
use vrrelay.Cluster.Service.{
  revision_of, round, attempts, rotation_judge, rotation_result, activate_certificate,
  revocation_result, revoke, certificate_is_active,
}
use vrrelay.Cluster.Trust.{enrols, drains, activates, perform, perform-IsGuarded, empty-IsGuarded}
use vrrelay.Cluster.Activating.{activate_certificate-certificate_is_active}
use vrrelay.Cluster.Revoking.{run, revoke-certificate_is_active}

abbrev pub node : NodeState → Option ℕ → ℕ → ClusterNode
node state expires now = record {
  id = "edge-1";
  name = "Edge";
  roles = NodeRole.edge ∷ [];
  region = "eu";
  public_url = "https://edge.example";
  internal_url = none;
  state = state;
  capabilities = record {
    encoders = [];
    video_codecs = none;
    hardware_devices = [];
    max_workers = 2;
    active_workers = 0;
    queued_workers = 0;
    cache_bytes = 0;
    cache_limit_bytes = none;
    egress_mbps = 0;
    provider_ids = [];
    producer_version = 1;
  };
  weight = 100;
  certificate_expires_at = expires;
  last_heartbeat_at = 0;
  created_at = 0;
  updated_at = now;
}

abbrev certificate : String → Certificate
certificate serial = record {
  node_id = "edge-1";
  serial_number = serial;
  fingerprint = serial;
  expires_at = 9000;
  revoked_at = none;
  created_at = 0;
}

abbrev db : Db
db = record {
  nodes = ("edge-1", record { value = node NodeState.online (some 9000) 0; revision = 1 }) ∷ [];
  certificates = certificate "01" ∷ [];
  bindings = [];
}

abbrev pub empty : Db
empty = record { nodes = []; certificates = []; bindings = [] }

abbrev nobody : ℕ → Db → Db
nobody n d = d

perform-IsGuarded_example :
    IsGuarded
      (perform (enrols (node NodeState.online none 0) (some (certificate "01"))) nobody empty)
perform-IsGuarded_example =
    perform-IsGuarded (enrols (node NodeState.online none 0) (some (certificate "01"))) nobody empty
      refl (λ n d g. g) empty-IsGuarded

abbrev by_serial : String → Certificate → Bool
by_serial serial c = str_eq c.serial_number serial

revoke-certificate_is_active_example :
    certificate_is_active
      (run
        (λ i. nobody)
        (drains "edge-1" true 70 ∷ activates "edge-1" (certificate "02") 80 ∷ [])
        (revoke nobody "edge-1" 50 db).0)
      "edge-1"
      (by_serial "01")
      90
    ≡ false
unfolding revoke attempts round revision_of revocation_result revoke_node at_revision write_node
    compare_and_set revoked_after get set
revoke-certificate_is_active_example =
    revoke-certificate_is_active nobody (λ i. nobody) "edge-1" 50 db
      (node NodeState.revoked (some 9000) 50)
      (drains "edge-1" true 70 ∷ activates "edge-1" (certificate "02") 80 ∷ []) (by_serial "01") 90
      refl (λ i k d g. g) (tt, (tt, tt))

activate_certificate-certificate_is_active_example :
    certificate_is_active
      (activate_certificate nobody "edge-1" (certificate "02") 80 db).0
      "edge-1"
      (by_serial "01")
      90
    ≡ (by_serial "01" (certificate "02") && ltb 90 9000)
unfolding activate_certificate attempts round revision_of rotation_judge rotation_result
    rotate_certificate at_revision write_node compare_and_set rotated with_certificates
    put_certificate revoke_certificates get set
activate_certificate-certificate_is_active_example =
    activate_certificate-certificate_is_active nobody "edge-1" (certificate "02") 80 db
      (by_serial "01") 90 refl
