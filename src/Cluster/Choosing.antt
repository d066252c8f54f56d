-- ===== src/Cluster/Choosing.antt =====
-- Which edge is chosen.
use vrrelay.Prelude.{
  ℕ, ◌<◌, String, Bool, true, false, Option, none, some, List, [], ◌∷◌, str_eq, filter, All,
  if◌then◌else◌, ◌≡◌, ◌⊎◌, inl, inr, refl, arith, Bool-cases,
}
use mathlib.Core.Path.{subst, sym}
use vrrelay.Prelude.Sorting.{
  sort, sort_head, sort-nil, Member, All-Member, Member-All, filter-Member, Member-filter, IsOrder,
}
use vrrelay.Prelude.Fractions.{less, less-IsOrder, mul_positive}
use vrrelay.Cluster.Record.{Capability, ClusterNode}
use vrrelay.Cluster.Routing.{
  Context, is_eligible, in_region, or_nodes, edge_pool, worker_headroom, cache_headroom,
  limit_headroom, score, head, select_edge, Reason, in_viewer_region, in_preferred_region,
  by_capacity, is_in, route_reason,
}

-- A region that the viewer is in counts more than a preferred one, and that more than no region.
abbrev pub precedence : Reason → ℕ
precedence in_viewer_region = 2
precedence in_preferred_region = 1
precedence by_capacity = 0

abbrev pub rank : Context → ClusterNode → ℕ
rank c n = precedence (route_reason c n)

-- What is right about a choice.
abbrev pub IsChosen :
    (String → String → ℕ) → Context → List ClusterNode → Option ClusterNode → Type 0
IsChosen digest c nodes none = All (λ m. is_eligible m ≡ false) nodes
IsChosen digest c nodes (some n) =
    Member n nodes
    × (is_eligible n ≡ true)
    × ((m : ClusterNode)
        → Member m nodes
        → is_eligible m ≡ true
        → (rank c m < rank c n)
          ⊎ ((rank c m ≡ rank c n)
              × (less (score digest c.affinity_key n) (score digest c.affinity_key m) ≡ false)))

-- The members of a region.
pub in_region-Member :
    (r : Option String) (m : ClusterNode) (ns : List ClusterNode)
    → Member m ns
    → is_in r m ≡ true
    → Member m (in_region r ns)
in_region-Member none m ns k h = cc (h)
in_region-Member (some r) m ns k h = elim (Bool-cases (str_eq r "")) [
  | inl y ↦ absurd (ground (arith, h, y))
  | inr n ↦ rw n (filter-Member _ m ns k (ground (arith, h, n)))
]

Member-in_region :
    (r : Option String) (m : ClusterNode) (ns : List ClusterNode)
    → Member m (in_region r ns)
    → Member m ns × (is_in r m ≡ true)
Member-in_region none m ns k = absurd k
Member-in_region (some r) m ns k = by_test (str_eq r "") refl k
  where
    by_test :
        (b : Bool)
        → str_eq r "" ≡ b
        → Member m (if b then [] else filter (λ n. str_eq n.region r) ns)
        → Member m ns × (is_in (some r) m ≡ true)
    by_test true h k = absurd k
    by_test false h k =
        let (there, q) = Member-filter (λ n. str_eq n.region r) m ns k in
        (there, ground (arith, h, q))

-- The members of what a region's list is, and the others.
module _ (r : Option String) (ns ps : List ClusterNode) (e : in_region r ns ≡ ps)
    (m : ClusterNode) where
  pub inside : Member m ps → Member m ns × (is_in r m ≡ true)
  inside k = Member-in_region r m ns (subst (Member m) (sym e) k)

  pub within : Member m ns → is_in r m ≡ true → Member m ps
  within k h = subst (Member m) e (in_region-Member r m ns k h)

pub outside :
    (r : Option String) (ns : List ClusterNode)
    → in_region r ns ≡ []
    → (m : ClusterNode) → Member m ns
    → is_in r m ≡ false
outside r ns e m k = elim (Bool-cases (is_in r m)) [
  | inl y ↦ absurd (within r ns [] e m k y)
  | inr n ↦ n
]

-- What a pool of nodes must be for the best of it to be the choice.
record IsPool (c : Context) (nodes pool : List ClusterNode) : Type 0 where
  top : ℕ
  empty : pool ≡ [] → top ≡ 0
  sound :
      (m : ClusterNode) → Member m pool → Member m nodes × (is_eligible m ≡ true) × (rank c m ≡ top)
  complete :
      (m : ClusterNode)
      → Member m nodes
      → is_eligible m ≡ true
      → (rank c m < top) ⊎ ((rank c m ≡ top) × Member m pool)

module _ (c : Context) (nodes : List ClusterNode) where
  eligible : List ClusterNode
  eligible = filter is_eligible nodes

  edge_pool-IsPool : IsPool c nodes (edge_pool c nodes)
  unfolding edge_pool route_reason eligible
  edge_pool-IsPool =
      by_viewer (in_region c.viewer_region eligible) refl (in_region c.preferred_region eligible)
        refl
    where
      by_viewer :
          (vs : List ClusterNode)
          → in_region c.viewer_region eligible ≡ vs
          → (ps : List ClusterNode) → in_region c.preferred_region eligible ≡ ps
          → IsPool c nodes (or_nodes vs (or_nodes ps eligible))
      by_viewer (v ∷ vs) e ps f = record {
        top = 2;
        empty = λ h. cc (h);
        sound = λ m k.
            let (there, h) = inside c.viewer_region eligible (v ∷ vs) e m k in
            let (found, q) = Member-filter is_eligible m nodes there in
            (found, q, ground (arith, h));
        complete = λ m k q. elim (Bool-cases (is_in c.viewer_region m)) [
          | inl y ↦ inr (
            ground (arith, y),
            within c.viewer_region eligible (v ∷ vs) e m (filter-Member is_eligible m nodes k q) y,
          )
          | inr n ↦ inl (ground (arith, n))
        ];
      }
      by_viewer [] e (p ∷ ps) f = record {
        top = 1;
        empty = λ h. cc (h);
        sound = λ m k.
            let (there, h) = inside c.preferred_region eligible (p ∷ ps) f m k in
            let (found, q) = Member-filter is_eligible m nodes there in
            (found, q, ground (arith, h, outside c.viewer_region eligible e m there));
        complete = λ m k q.
            let there = filter-Member is_eligible m nodes k q in
            let away = outside c.viewer_region eligible e m there in
            elim (Bool-cases (is_in c.preferred_region m)) [
              | inl y ↦
                  inr (
                    ground (arith, y, away),
                    within c.preferred_region eligible (p ∷ ps) f m there y,
                  )
              | inr n ↦ inl (ground (arith, n, away))
            ];
      }
      by_viewer [] e [] f = record {
        top = 0;
        empty = λ h. refl;
        sound = λ m k.
            let (found, q) = Member-filter is_eligible m nodes k in
            (
              found,
              q,
              ground (
                arith,
                outside c.viewer_region eligible e m k,
                outside c.preferred_region eligible f m k,
              ),
            );
        complete = λ m k q.
            let there = filter-Member is_eligible m nodes k q in
            inr (
              ground (
                arith,
                outside c.viewer_region eligible e m there,
                outside c.preferred_region eligible f m there,
              ),
              there,
            );
      }

worker_headroom-den : (c : Capability) → 0 < (worker_headroom c).den
unfolding worker_headroom
worker_headroom-den c = ground arith

cache_headroom-den : (c : Capability) → 0 < (cache_headroom c).den
unfolding cache_headroom limit_headroom
cache_headroom-den c = by_limit c.cache_limit_bytes
  where
    by_limit : (o : Option ℕ) → 0 < (limit_headroom c.cache_bytes o).den
    by_limit none = omega arith
    by_limit (some limit) = ground arith

score-den :
    (digest : String → String → ℕ) (key : String) (n : ClusterNode) → 0 < (score digest key n).den
unfolding score
score-den digest key n =
    mul_positive _ _
      (mul_positive _ _ (mul_positive _ _ (omega arith) (worker_headroom-den n.capabilities))
        (omega arith))
      (cache_headroom-den n.capabilities)

-- An edge is chosen unless no node is an edge that is online. The one that is chosen is, and none that
-- is comes before it: one in the viewer's region comes before one that is only in the preferred
-- region, that before the others, and among nodes that are equal in this no score is higher.
pub select_edge-IsChosen :
    (digest : String → String → ℕ) (c : Context) (nodes : List ClusterNode)
    → IsChosen digest c nodes (select_edge digest c nodes)
unfolding select_edge
select_edge-IsChosen digest c nodes = by_sorted (sort best (edge_pool c nodes)) refl
  where
    best : ClusterNode → ClusterNode → Bool
    best a b = less (score digest c.affinity_key b) (score digest c.affinity_key a)

    pool : IsPool c nodes (edge_pool c nodes)
    pool = edge_pool-IsPool c nodes

    is_order : IsOrder best
    is_order = less-IsOrder (score digest c.affinity_key) (score-den digest c.affinity_key)

    by_sorted :
        (ws : List ClusterNode)
        → sort best (edge_pool c nodes) ≡ ws
        → IsChosen digest c nodes (head ws)
    by_sorted [] e =
        let nothing : edge_pool c nodes ≡ [] = sort-nil best is_order (edge_pool c nodes) e in
        Member-All (λ m. is_eligible m ≡ false) nodes
          (λ m k. elim (Bool-cases (is_eligible m)) [
            | inr n ↦ n
            | inl y ↦ elim (pool.complete m k y) [
              | inl lower ↦ absurd (omega (arith, lower, pool.empty nothing))
              | inr (same, inside_pool) ↦ absurd (subst (Member m) nothing inside_pool)
            ]
          ])
    by_sorted (w ∷ ws) e =
        let (there, least) = sort_head best is_order (edge_pool c nodes) w ws e in
        let (found, q, high) = pool.sound w there in
        (
          found,
          q,
          λ m k h. elim (pool.complete m k h) [
            | inl lower ↦ inl (omega (arith, lower, high))
            | inr (same, inside_pool) ↦ inr (
              omega (arith, same, high),
              All-Member (λ a. best a w ≡ false) m (edge_pool c nodes) least inside_pool,
            )
          ],
        )
