-- ===== src/Tests/Routing.antt =====
-- A choice among two edges and a source worker.
use vrrelay.Prelude.{String, true, none, some, List, [], ◌∷◌}
use vrrelay.Cluster.Record.{NodeState, NodeRole, VideoCodec, ClusterNode}
use vrrelay.Cluster.Routing.{Context, select_edge}
use vrrelay.Cluster.Choosing.{IsChosen, select_edge-IsChosen}
use vrrelay.Cluster.Placement.{Request, preview_placement}
use vrrelay.Cluster.Placing.{IsPlaced, preview_placement-IsPlaced}
use vrrelay.Tests.Cluster.{node}

abbrev member : String → NodeRole → String → ClusterNode
member id role region = record (node NodeState.online none 0) {
  id = id;
  roles = role ∷ [];
  region = region;
}

abbrev nodes : List ClusterNode
nodes =
    member "a" NodeRole.edge "us"
    ∷ member "b" NodeRole.edge "eu"
    ∷ member "w" NodeRole.source_worker "eu"
    ∷ []

abbrev context : Context
context = record { affinity_key = "s"; viewer_region = some "eu"; preferred_region = none }

select_edge-IsChosen_example :
    IsChosen (λ key id. 7) context nodes (select_edge (λ key id. 7) context nodes)
select_edge-IsChosen_example = select_edge-IsChosen (λ key id. 7) context nodes

abbrev wish : Request
wish = record {
  codec = VideoCodec.copy;
  is_hls = true;
  provider_id = none;
  preferred_node_id = none;
  preferred_region = some "eu";
  is_connected = λ id. true;
}

preview_placement-IsPlaced_example :
    IsPlaced (λ s. s) wish nodes (preview_placement (λ s. s) wish nodes)
preview_placement-IsPlaced_example = preview_placement-IsPlaced (λ s. s) wish nodes
