-- ===== src/Cluster/Record.antt =====
-- `ClusterNodeSchema` and the types that it names in packages/domain/src/index.ts, with the
-- certificates and bindings that the repository keeps beside the nodes.
use vrrelay.Prelude.{ℕ, String, Bool, true, false, Option, List}
use vrrelay.Repository.{Table}

pub data NodeState : Type 0 where
  joining online degraded draining offline revoked : NodeState

pub data NodeRole : Type 0 where
  controller source_worker ingest_origin edge : NodeRole

pub data VideoCodec : Type 0 where
  h264 h265 av1 copy : VideoCodec

-- The bandwidth is a whole number.
pub record Capability : Type 0 where
  pub encoders : List String
  pub video_codecs : Option (List VideoCodec)
  pub hardware_devices : List String
  pub max_workers : ℕ
  pub active_workers : ℕ
  pub queued_workers : ℕ
  pub cache_bytes : ℕ
  pub cache_limit_bytes : Option ℕ
  pub egress_mbps : ℕ
  pub provider_ids : List String
  pub producer_version : ℕ

pub record ClusterNode : Type 0 where
  pub id : String
  pub name : String
  pub roles : List NodeRole
  pub region : String
  pub public_url : String
  pub internal_url : Option String
  pub state : NodeState
  pub capabilities : Capability
  pub weight : ℕ
  pub certificate_expires_at : Option ℕ
  pub last_heartbeat_at : ℕ
  pub created_at : ℕ
  pub updated_at : ℕ

-- `NodeCertificateState`
pub record Certificate : Type 0 where
  pub node_id : String
  pub serial_number : String
  pub fingerprint : String
  pub expires_at : ℕ
  pub revoked_at : Option ℕ
  pub created_at : ℕ

pub data BindingState : Type 0 where
  pending healthy degraded revoked : BindingState

-- `ProviderBinding`, with the revision of its row.
pub record Binding : Type 0 where
  pub id : String
  pub provider_id : String
  pub node_id : String
  pub secret_ref : String
  pub reachable : Bool
  pub state : BindingState
  pub deletion_pending : Bool
  pub last_error : Option String
  pub validated_at : Option ℕ
  pub created_at : ℕ
  pub updated_at : ℕ
  pub revision : ℕ

-- The three tables.
pub record Db : Type 0 where
  pub nodes : Table ClusterNode
  pub certificates : List Certificate
  pub bindings : List Binding

abbrev pub is_revoked : NodeState → Bool
is_revoked NodeState.revoked = true
is_revoked _ = false

-- The states that a report of the node itself does not change.
abbrev pub is_protected : NodeState → Bool
is_protected NodeState.draining = true
is_protected NodeState.revoked = true
is_protected _ = false
