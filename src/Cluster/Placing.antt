-- ===== src/Cluster/Placing.antt =====
-- Which source worker is chosen.
use vrrelay.Prelude.{
  String, Bool, true, false, not, Option, none, some, List, [], ◌∷◌, str_eq, filter, ◌≡◌, inl, inr,
  refl, arith, eq_iff, Bool-cases,
}
use mathlib.Core.Path.{subst}
use vrrelay.Prelude.Sorting.{
  sort, sort_head, sort-nil, Member, All-Member, filter-Member, Member-filter, IsOrder,
}
use vrrelay.Prelude.Fractions.{less, less-IsOrder_ascending}
use vrrelay.Cluster.Record.{ClusterNode}
use vrrelay.Cluster.Routing.{in_region, or_nodes, head, is_in}
use vrrelay.Cluster.Choosing.{inside, within}
use vrrelay.Cluster.Placement.{
  given, with_id, Request, is_compatible, Placement, preferred_node_unavailable,
  no_compatible_source_worker, preferred_node, preferred_region, policy_capacity, load, wanted,
  placed, is_empty, preview, preview_placement,
}

module _ (lower : String → String) (r : Request) (nodes : List ClusterNode) where
  -- Among the nodes for which `p` holds, and which are compatible, this one, with the least load.
  abbrev pub IsLeast : (ClusterNode → Bool) → ClusterNode → Type 0
  IsLeast p n =
      Member n nodes
      × (is_compatible lower r n ≡ true)
      × (p n ≡ true)
      × ((m : ClusterNode)
          → Member m nodes
          → is_compatible lower r m ≡ true
          → p m ≡ true
          → less (load m) (load n) ≡ false)

  abbrev pub Lacks : (ClusterNode → Bool) → Type 0
  Lacks p = (m : ClusterNode) → Member m nodes → is_compatible lower r m ≡ true → p m ≡ false

  -- What is right about a placement.
  abbrev pub IsPlaced : Placement → Type 0
  IsPlaced preferred_node_unavailable =
      (id : String) × (given r.preferred_node_id ≡ some id) × Lacks (λ m. str_eq m.id id)
  IsPlaced (preferred_node n) =
      (given r.preferred_node_id ≡ some n.id) × Member n nodes × (is_compatible lower r n ≡ true)
  IsPlaced no_compatible_source_worker = Lacks (λ m. true)
  IsPlaced (preferred_region n) =
      (given r.preferred_node_id ≡ none) × IsLeast (is_in r.preferred_region) n
  IsPlaced (policy_capacity n) =
      (given r.preferred_node_id ≡ none) × Lacks (is_in r.preferred_region) × IsLeast (λ m. true) n

  unfoldable compatible : List ClusterNode
  compatible = filter (is_compatible lower r) nodes

  unfoldable by_load : ClusterNode → ClusterNode → Bool
  by_load a b = less (load a) (load b)

  by_load-IsOrder : IsOrder by_load
  unfolding load by_load
  by_load-IsOrder = less-IsOrder_ascending load (λ n. omega arith)

  with_id-some :
      (id : String) (ns : List ClusterNode) (n : ClusterNode)
      → with_id id ns ≡ some n
      → Member n ns × (n.id ≡ id)
  with_id-some id [] n e = cc (e)
  with_id-some id (m ∷ ns) n e = elim (Bool-cases (str_eq m.id id)) [
    | inl y ↦ (inl (ground (arith, e, y)), ground (arith, e, y, eq_iff m.id id))
    | inr x ↦ let (there, q) = with_id-some id ns n (ground (arith, e, x)) in (inr there, q)
  ]

  with_id-none :
      (id : String) (ns : List ClusterNode)
      → with_id id ns ≡ none
      → (m : ClusterNode) → Member m ns
      → str_eq m.id id ≡ false
  with_id-none id [] e m k = absurd k
  with_id-none id (n ∷ ns) e m (inl same) = rw same (ground (arith, e))
  with_id-none id (n ∷ ns) e m (inr k) = with_id-none id ns (ground (arith, e)) m k

  -- The head of the compatible nodes for which `p` holds, sorted by load.
  module _ (p : ClusterNode → Bool) (pool : List ClusterNode)
      (sound : (m : ClusterNode) → Member m pool → Member m compatible × (p m ≡ true))
      (complete : (m : ClusterNode) → Member m compatible → p m ≡ true → Member m pool) where
    head-IsLeast :
        (w : ClusterNode) (ws : List ClusterNode) → sort by_load pool ≡ w ∷ ws → IsLeast p w
    unfolding compatible by_load
    head-IsLeast w ws e =
        let (there, least) = sort_head by_load by_load-IsOrder pool w ws e in
        let (among, h) = sound w there in
        let (found, q) = Member-filter (is_compatible lower r) w nodes among in
        (
          found,
          q,
          h,
          λ m k c g.
              All-Member (λ a. by_load a w ≡ false) m pool least
                (complete m (filter-Member (is_compatible lower r) m nodes k c) g),
        )

    nil-Lacks : pool ≡ [] → Lacks p
    unfolding compatible
    nil-Lacks e m k c = elim (Bool-cases (p m)) [
      | inr n ↦ n
      | inl y ↦
          absurd
            (subst (Member m) e (complete m (filter-Member (is_compatible lower r) m nodes k c) y))
    ]

  wanted-IsPlaced :
      (id : String) (o : Option ClusterNode)
      → given r.preferred_node_id ≡ some id
      → with_id id compatible ≡ o
      → IsPlaced (wanted o)
  unfolding wanted compatible
  wanted-IsPlaced id none g e = (
    id,
    g,
    λ m k c. with_id-none id compatible e m (filter-Member (is_compatible lower r) m nodes k c),
  )
  wanted-IsPlaced id (some n) g e =
      let (there, same) = with_id-some id compatible n e in
      let (found, q) = Member-filter (is_compatible lower r) n nodes there in
      (ground (arith, g, same), found, q)

  placed-IsPlaced :
      (rs : List ClusterNode)
      → given r.preferred_node_id ≡ none
      → in_region r.preferred_region compatible ≡ rs
      → (ws : List ClusterNode) → sort by_load (or_nodes rs compatible) ≡ ws
      → IsPlaced (placed (not (is_empty rs)) (head ws))
  unfolding placed
  placed-IsPlaced rs g e [] h =
      nil-Lacks (λ m. true) compatible (λ m k. (k, refl)) (λ m k q. k)
        (all_empty rs compatible (sort-nil by_load by_load-IsOrder (or_nodes rs compatible) h))
    where
      all_empty : (ms ns : List ClusterNode) → or_nodes ms ns ≡ [] → ns ≡ []
      all_empty [] ns q = q
      all_empty (m ∷ ms) ns q = cc (q)
  placed-IsPlaced [] g e (w ∷ ws) h = (
    g,
    nil-Lacks (is_in r.preferred_region) [] (inside r.preferred_region compatible [] e)
        (within r.preferred_region compatible [] e) refl,
    head-IsLeast (λ m. true) compatible (λ m k. (k, refl)) (λ m k q. k) w ws h,
  )
  placed-IsPlaced (n ∷ rs) g e (w ∷ ws) h = (
    g,
    head-IsLeast (is_in r.preferred_region) (n ∷ rs)
        (inside r.preferred_region compatible (n ∷ rs) e)
        (within r.preferred_region compatible (n ∷ rs) e) w ws h,
  )

-- A source worker is placed on compatible nodes only: nodes that are online source workers, connected,
-- and support the codec, the delivery and the provider. If a node is asked for, it is that node, or it
-- is said that it is unavailable and no compatible node has its identifier. Otherwise it is a node of
-- the preferred region with the least load of those, or, if there is none, one with the least load of
-- all, or it is said that no node is compatible.
pub preview_placement-IsPlaced :
    (lower : String → String) (r : Request) (nodes : List ClusterNode)
    → IsPlaced lower r nodes (preview_placement lower r nodes)
unfolding preview_placement compatible by_load
preview_placement-IsPlaced lower r nodes = by_given (given r.preferred_node_id) refl
  where
    by_given :
        (o : Option String)
        → given r.preferred_node_id ≡ o
        → IsPlaced lower r nodes (preview r o (filter (is_compatible lower r) nodes))
    by_given none g =
        placed-IsPlaced lower r nodes
          (in_region r.preferred_region (filter (is_compatible lower r) nodes)) g refl _ refl
    by_given (some id) g = wanted-IsPlaced lower r nodes id _ g refl
