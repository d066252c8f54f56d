-- ===== src/Cluster/Placement.antt =====
-- `StaticTrafficDirector` and `previewPlacement` of packages/application/src/cluster-service.ts.
use vrrelay.Prelude.{
  String, Bool, true, false, not, ◌&&◌, ◌||◌, Option, none, some, List, [], ◌∷◌, ltb, leb, ◌==◌,
  str_eq, filter, any, if◌then◌else◌, max, is_some,
}
use vrrelay.Prelude.Sorting.{sort}
use vrrelay.Prelude.Fractions.{Fraction, less}
use vrrelay.Cluster.Record.{VideoCodec, Capability, ClusterNode}
use vrrelay.Cluster.Routing.{
  Context, is_eligible, is_online, is_source_worker, in_region, or_nodes, head,
}
use text.Mathlib.Text.{find?}

-- `StaticTrafficDirectorOptions`
pub record Options : Type 0 where
  pub node_id : Option String
  pub region : Option String

-- A text that is given and not empty.
abbrev pub given : Option String → Option String
given none = none
given (some s) = if str_eq s "" then none else some s

abbrev pub with_id : String → List ClusterNode → Option ClusterNode
with_id id [] = none
with_id id (n ∷ ns) = if str_eq n.id id then some n else with_id id ns

abbrev pub is_elsewhere : Option String → ClusterNode → Bool
is_elsewhere none n = false
is_elsewhere (some r) n = not (str_eq n.region r)

unfoldable fixed : Option String → Option String → Option ClusterNode → Option ClusterNode
fixed legacy region none = none
fixed legacy region (some n) =
    if is_elsewhere legacy n then none else if is_elsewhere region n then none else some n

requested : Context → List ClusterNode → List ClusterNode
requested c ns =
    if is_some (given c.viewer_region)
    then in_region c.viewer_region ns
    else in_region c.preferred_region ns

-- A greater weight comes first; among equal weights, `before` is the comparison of names by locale.
unfoldable pub heavier : (String → String → Bool) → ClusterNode → ClusterNode → Bool
heavier before a b = ltb b.weight a.weight || (a.weight == b.weight && before a.id b.id)

static_choice :
    (String → String → Bool)
    → Options
    → Context
    → Option String
    → Option String
    → List ClusterNode
    → Option ClusterNode
static_choice before o c legacy (some id) ns = fixed legacy (given o.region) (with_id id ns)
static_choice before o c legacy none ns =
    head (sort (heavier before) (or_nodes (in_region o.region ns) (or_nodes (requested c ns) ns)))

-- `StaticTrafficDirector.selectEdge`; `legacy` is the region that is given beside a bare session.
unfoldable pub select_static :
    (String → String → Bool)
    → Options
    → Context
    → Option String
    → List ClusterNode
    → Option ClusterNode
unfolding static_choice fixed requested
select_static before o c legacy nodes =
    static_choice before o c (given legacy) (given o.node_id) (filter is_eligible nodes)

-- `name.toLowerCase()` is `lower`.
abbrev pub encodes : (String → String) → String → List String → Bool
encodes lower codec names = any (λ name. is_some (find? (lower name) codec)) names

abbrev same_codec : VideoCodec → VideoCodec → Bool
same_codec VideoCodec.h264 VideoCodec.h264 = true
same_codec VideoCodec.h265 VideoCodec.h265 = true
same_codec VideoCodec.av1 VideoCodec.av1 = true
same_codec VideoCodec.copy VideoCodec.copy = true
same_codec _ _ = false

by_encoder : (String → String) → List String → VideoCodec → Bool
by_encoder lower names VideoCodec.h264 = encodes lower "264" names
by_encoder lower names VideoCodec.h265 = encodes lower "265" names || encodes lower "hevc" names
by_encoder lower names VideoCodec.av1 = encodes lower "av1" names
by_encoder lower names VideoCodec.copy = true

by_codecs : (String → String) → Capability → VideoCodec → Option (List VideoCodec) → Bool
by_codecs lower c codec none = by_encoder lower c.encoders codec
by_codecs lower c codec (some codecs) = any (same_codec codec) codecs

-- `supportsVideoCodec`
unfoldable pub supports_video_codec : (String → String) → Capability → VideoCodec → Bool
unfolding by_encoder by_codecs
supports_video_codec lower c VideoCodec.copy = true
supports_video_codec lower c codec = by_codecs lower c codec c.video_codecs

-- What a placement is asked for; `is_hls` is the delivery of the profile.
pub record Request : Type 0 where
  pub codec : VideoCodec
  pub is_hls : Bool
  pub provider_id : Option String
  pub preferred_node_id : Option String
  pub preferred_region : Option String
  pub is_connected : String → Bool

abbrev pub provides : Option String → List String → Bool
provides none ids = true
provides (some p) ids = any (str_eq p) ids

unfoldable pub is_compatible : (String → String) → Request → ClusterNode → Bool
is_compatible lower r n =
    is_online n.state
    && any is_source_worker n.roles
    && r.is_connected n.id
    && supports_video_codec lower n.capabilities r.codec
    && (not r.is_hls || leb 1 n.capabilities.producer_version)
    && provides (given r.provider_id) n.capabilities.provider_ids

pub data Placement : Type 0 where
  preferred_node_unavailable no_compatible_source_worker : Placement
  preferred_node preferred_region policy_capacity : ClusterNode → Placement

unfoldable pub load : ClusterNode → Fraction
load n = record { num = n.capabilities.active_workers; den = max 1 n.capabilities.max_workers }

unfoldable pub wanted : Option ClusterNode → Placement
wanted none = preferred_node_unavailable
wanted (some n) = preferred_node n

unfoldable pub placed : Bool → Option ClusterNode → Placement
placed regional none = no_compatible_source_worker
placed regional (some n) = if regional then preferred_region n else policy_capacity n

abbrev pub is_empty : List ClusterNode → Bool
is_empty [] = true
is_empty (n ∷ ns) = false

unfoldable pub preview : Request → Option String → List ClusterNode → Placement
unfolding wanted placed
preview r (some id) compatible = wanted (with_id id compatible)
preview r none compatible =
    let regional = in_region r.preferred_region compatible in
    placed (not (is_empty regional))
      (head (sort (λ a b. less (load a) (load b)) (or_nodes regional compatible)))

-- `previewPlacement` on the nodes that `list` gave.
unfoldable pub preview_placement : (String → String) → Request → List ClusterNode → Placement
unfolding wanted placed preview
preview_placement lower r nodes =
    preview r (given r.preferred_node_id) (filter (is_compatible lower r) nodes)
