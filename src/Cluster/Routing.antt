-- ===== src/Cluster/Routing.antt =====
-- The choice of an edge and of a source worker: `BuiltinTrafficDirector`, `StaticTrafficDirector`,
-- `list` and `previewPlacement` of packages/application/src/cluster-service.ts. A score is a fraction;
-- the code computes it in floating point.
use vrrelay.Prelude.{
  ℕ, ◌+◌, ◌*◌, ◌-◌, ◌^◌, String, Bool, true, false, not, ◌&&◌, Option, none, some, List, [], ◌∷◌,
  ltb, ◌==◌, str_eq, filter, any, if◌then◌else◌,
}
use vrrelay.Prelude.Sorting.{sort}
use vrrelay.Prelude.Fractions.{Fraction, less}
use vrrelay.Cluster.Record.{NodeState, NodeRole, Capability, ClusterNode, Db, is_revoked}
use vrrelay.Cluster.Nodes.{Operational}
use vrrelay.Cluster.Service.{Ended, returns, conflict, set_state}

abbrev pub is_edge : NodeRole → Bool
is_edge NodeRole.edge = true
is_edge _ = false

abbrev pub is_source_worker : NodeRole → Bool
is_source_worker NodeRole.source_worker = true
is_source_worker _ = false

abbrev pub is_offline : NodeState → Bool
is_offline NodeState.offline = true
is_offline _ = false

abbrev pub is_online : NodeState → Bool
is_online NodeState.online = true
is_online _ = false

abbrev pub is_eligible : ClusterNode → Bool
is_eligible n = any is_edge n.roles && is_online n.state

-- `EdgeSelectionContext`
pub record Context : Type 0 where
  pub affinity_key : String
  pub viewer_region : Option String
  pub preferred_region : Option String

-- The nodes in a region, and none if no region is given; an empty text is no region.
abbrev pub in_region : Option String → List ClusterNode → List ClusterNode
in_region none ns = []
in_region (some r) ns = if str_eq r "" then [] else filter (λ n. str_eq n.region r) ns

abbrev pub or_nodes : List ClusterNode → List ClusterNode → List ClusterNode
or_nodes [] ns = ns
or_nodes (m ∷ ms) ns = m ∷ ms

unfoldable pub edge_pool : Context → List ClusterNode → List ClusterNode
edge_pool c nodes =
    let eligible = filter is_eligible nodes in
    or_nodes (in_region c.viewer_region eligible)
      (or_nodes (in_region c.preferred_region eligible) eligible)

-- `Math.max(0.05, 1 - activeWorkers / maxWorkers)`
unfoldable pub worker_headroom : Capability → Fraction
worker_headroom c =
    if c.max_workers == 0
    then record { num = 1; den = 1 }
    else if ltb c.max_workers (20 * (c.max_workers - c.active_workers))
    then record { num = c.max_workers - c.active_workers; den = c.max_workers }
    else record { num = 1; den = 20 }

unfoldable pub limit_headroom : ℕ → Option ℕ → Fraction
limit_headroom bytes none = record { num = 1; den = 1 }
limit_headroom bytes (some limit) =
    if limit == 0
    then record { num = 1; den = 1 }
    else if ltb limit (4 * (limit - bytes))
    then record { num = limit - bytes; den = limit }
    else record { num = 1; den = 4 }

-- `Math.max(0.25, 1 - Math.min(1, cacheBytes / cacheLimitBytes))`
unfoldable pub cache_headroom : Capability → Fraction
unfolding limit_headroom
cache_headroom c = limit_headroom c.cache_bytes c.cache_limit_bytes

-- `#score`; `digest` is the first 32 bits of the hash of `sessionId:node.id`.
unfoldable pub score : (String → String → ℕ) → String → ClusterNode → Fraction
score digest key n =
    let w = worker_headroom n.capabilities in
    let c = cache_headroom n.capabilities in
    record {
      num = digest key n.id * n.weight * w.num * 100 * c.num;
      den = (2 ^ 32 - 1) * w.den * (100 + n.capabilities.egress_mbps) * c.den;
    }

abbrev pub head : List ClusterNode → Option ClusterNode
head [] = none
head (n ∷ ns) = some n

-- `BuiltinTrafficDirector.selectEdge`
unfoldable pub select_edge : (String → String → ℕ) → Context → List ClusterNode → Option ClusterNode
select_edge digest c nodes = head (
    sort (λ a b. less (score digest c.affinity_key b) (score digest c.affinity_key a))
      (edge_pool c nodes))

-- Whether the reason of a route is the viewer's region, the preferred one or capacity.
pub data Reason : Type 0 where
  in_viewer_region in_preferred_region by_capacity : Reason

abbrev pub is_in : Option String → ClusterNode → Bool
is_in none n = false
is_in (some r) n = not (str_eq r "") && str_eq n.region r

unfoldable pub route_reason : Context → ClusterNode → Reason
route_reason c n =
    if is_in c.viewer_region n
    then in_viewer_region
    else if is_in c.preferred_region n
    then in_preferred_region
    else by_capacity

-- When a silent node is taken for offline or for degraded, and what becomes of it.
unfoldable pub offline_when : ℕ → ClusterNode → Option Operational
offline_when now n = elim n.state [
  | NodeState.revoked ↦ none
  | NodeState.draining ↦ none
  | NodeState.offline ↦ none
  | _ ↦ if ltb (n.last_heartbeat_at + 90000) now then some Operational.offline else none
]

unfoldable pub degraded_when : ℕ → ClusterNode → Option Operational
degraded_when now n =
    if is_online n.state && ltb (n.last_heartbeat_at + 45000) now
    then some Operational.degraded
    else none

-- `none` is the error of a repeated conflict.
listed : ClusterNode → Db × Ended → Db × Option ClusterNode
listed n (db, returns m) = (db, some m)
listed n (db, conflict) = (db, none)
listed n (db, _) = (db, some n)

-- What `list` does with one of the nodes that it reads.
unfoldable pub list_one : (ℕ → Db → Db) → ℕ → ClusterNode → Db → Db × Option ClusterNode
unfolding listed
list_one others now n db =
    if not (is_revoked n.state) && ltb (n.last_heartbeat_at + 90000) now && not (is_offline n.state)
    then listed n (set_state (offline_when now) others n.id now db)
    else if is_online n.state && ltb (n.last_heartbeat_at + 45000) now
    then listed n (set_state (degraded_when now) others n.id now db)
    else (db, some n)
