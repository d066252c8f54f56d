-- ===== src/Live/Creation.antt =====
-- `create` of packages/application/src/live-service.ts, without the texts of the addresses. The identifier,
-- the path and the token's hash of a new channel are random and arguments.
use vrrelay.Prelude.{
  ℕ, String, Bool, true, false, ◌&&◌, Option, none, some, List, [], ◌∷◌, str_eq, any, filter,
  if◌then◌else◌, or_else,
}
use vrrelay.Cluster.Record.{NodeState, NodeRole, ClusterNode}
use vrrelay.Live.Record.{PublisherState, LiveChannel, Db}
use vrrelay.Live.Channels.{Limits, Created, create_within}

-- `CreateLiveChannelRequest`, with what is random; `ingest_path` is the path with its suffix.
pub record Request : Type 0 where
  pub id : String
  pub name : String
  pub path : String
  pub ingest_path : String
  pub owner_id : Option String
  pub preferred_region : Option String
  pub normalize : Bool
  pub token_hash : String

abbrev pub is_ingest_origin : NodeRole → Bool
is_ingest_origin NodeRole.ingest_origin = true
is_ingest_origin _ = false

abbrev pub is_online_node : NodeState → Bool
is_online_node NodeState.online = true
is_online_node _ = false

abbrev pub first_in : String → List ClusterNode → Option ClusterNode
first_in r [] = none
first_in r (n ∷ ns) = if str_eq n.region r then some n else first_in r ns

abbrev pub first_of : List ClusterNode → Option ClusterNode
first_of [] = none
first_of (n ∷ ns) = some n

preferred_origin : Option String → List ClusterNode → Option ClusterNode
preferred_origin none ns = none
preferred_origin (some r) ns = if str_eq r "" then none else first_in r ns

or_first : Option ClusterNode → List ClusterNode → Option ClusterNode
or_first none ns = first_of ns
or_first (some n) ns = some n

-- The node of `#selectOrigin`.
unfoldable pub select_origin : Option String → List ClusterNode → Option ClusterNode
unfolding preferred_origin or_first
select_origin preferred nodes =
    let origins = filter (λ n. any is_ingest_origin n.roles && is_online_node n.state) nodes in
    or_first (preferred_origin preferred origins) origins

abbrev pub given_text : Option String → Option String
given_text none = none
given_text (some s) = if str_eq s "" then none else some s

origin_region : Option String → Option ClusterNode → Option String
origin_region preferred none = given_text preferred
origin_region preferred (some n) = given_text (some n.region)

origin_id : Option ClusterNode → Option String
origin_id none = none
origin_id (some n) = given_text (some n.id)

unfoldable pub new_channel : Request → Option ClusterNode → ℕ → LiveChannel
unfolding origin_region origin_id
new_channel r origin now = record {
  id = r.id;
  owner_id = given_text r.owner_id;
  name = r.name;
  path = r.path;
  ingest_path = if r.normalize then some r.ingest_path else none;
  origin_node_id = origin_id origin;
  region = origin_region r.preferred_region origin;
  normalization_profile_id = none;
  normalize = r.normalize;
  publisher_state = PublisherState.offline;
  publisher_updated_at = none;
  publish_token_hash = r.token_hash;
  replacement_token_hash = none;
  replacement_requested_at = none;
  created_at = now;
}

-- The limits where none are configured.
unfoldable pub limits_of : Option ℕ → Option ℕ → Limits
limits_of total per_owner = record {
  max_total = or_else total 32;
  max_per_owner = or_else per_owner 4;
}

-- `create`, given the nodes that are listed.
unfoldable pub create : Request → Limits → List ClusterNode → ℕ → Db → Db × Created
create r l nodes now db =
    create_within db (new_channel r (select_origin r.preferred_region nodes) now) l
