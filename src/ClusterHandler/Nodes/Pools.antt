-- ===== src/ClusterHandler/Nodes/Pools.antt =====
-- What `getNodes` makes of the nodes: which are in the control plane, and which in each pool.
use ror_agent.Prelude.{
  String, ◌==◌, ◌≡◌, ap, sym, ◌∙◌, inl, inr, Bool, true, false, ◌&&◌, not, List, [], ◌∷◌, ◌++◌, map,
  Assoc, lookup, lookup-insert, eq_iff, Bool-cases, keep, Shuffle, DistinctKeys,
  insert-DistinctKeys, lookup-Shuffle, if◌then◌else◌,
}
use mathlib.Core.List.{append-nil, append_assoc}
use ror_agent.ClusterHandler.Nodes.{
  ClusterNode, NodeUsage, NodeQuery, NodeInfo, StatusNodes, get_node_metrics_map, node_info,
  is_control_plane, pool_name, members, append_to_pool, group_nodes, get_nodes,
}

module _ {Q : Type 0} where
  -- A worker of the pool of the name.
  abbrev pub is_in : String → ClusterNode Q → Bool
  is_in name node = not (is_control_plane node) && pool_name node == name

  -- What is reported of the nodes that pass a test.
  abbrev pub reported : NodeQuery Q → (ClusterNode Q → Bool) → List (NodeInfo Q)
  reported query p =
      map (node_info query.zero_quantity (get_node_metrics_map query)) (keep p query.nodes)

  members-append_to_pool :
      (k j : String) (info : NodeInfo Q) (pools : Assoc (List (NodeInfo Q)))
      → members (lookup j (append_to_pool k info pools))
        ≡ (if k == j then members (lookup j pools) ++ info ∷ [] else members (lookup j pools))
  unfolding append_to_pool
  members-append_to_pool k j info pools = elim (Bool-cases (k == j)) [
    | inl e ↦
        rw (lookup-insert k j (members (lookup k pools) ++ info ∷ []) pools, e, (eq_iff k j).0 e)
    | inr e ↦ rw (lookup-insert k j (members (lookup k pools) ++ info ∷ []) pools, e)
  ]

  append_to_pool-DistinctKeys :
      (k : String) (info : NodeInfo Q) (pools : Assoc (List (NodeInfo Q)))
      → DistinctKeys pools
      → DistinctKeys (append_to_pool k info pools)
  unfolding append_to_pool
  append_to_pool-DistinctKeys k info pools d =
      insert-DistinctKeys k (members (lookup k pools) ++ info ∷ []) pools d

module _ {Q : Type 0} (zero : Q) (metrics : Assoc (NodeUsage Q)) where
  abbrev infos : (ClusterNode Q → Bool) → List (ClusterNode Q) → List (NodeInfo Q)
  infos p nodes = map (node_info zero metrics) (keep p nodes)

  -- The two branches of the loop.
  to_plane :
      (n : ClusterNode Q) (ns : List (ClusterNode Q)) (plane : List (NodeInfo Q))
      (pools : Assoc (List (NodeInfo Q)))
      → is_control_plane n ≡ true
      → group_nodes zero metrics (n ∷ ns) (plane, pools)
        ≡ group_nodes zero metrics ns (plane ++ node_info zero metrics n ∷ [], pools)
  unfolding group_nodes
  to_plane n ns plane pools e = ap (group_nodes zero metrics ns) (rw e)

  to_pool :
      (n : ClusterNode Q) (ns : List (ClusterNode Q)) (plane : List (NodeInfo Q))
      (pools : Assoc (List (NodeInfo Q)))
      → is_control_plane n ≡ false
      → group_nodes zero metrics (n ∷ ns) (plane, pools)
        ≡ group_nodes zero metrics ns
            (plane, append_to_pool (pool_name n) (node_info zero metrics n) pools)
  unfolding group_nodes
  to_pool n ns plane pools e = ap (group_nodes zero metrics ns) (rw e)

  group_nodes-plane :
      (nodes : List (ClusterNode Q)) (plane : List (NodeInfo Q)) (pools : Assoc (List (NodeInfo Q)))
      → (group_nodes zero metrics nodes (plane, pools)).0 ≡ plane ++ infos is_control_plane nodes
  group_nodes-plane [] plane pools = unfold group_nodes in sym (append-nil plane)
  group_nodes-plane (n ∷ ns) plane pools = elim (Bool-cases (is_control_plane n)) [
    | inl e ↦
        rw (to_plane n ns plane pools e, e)
          (group_nodes-plane ns (plane ++ node_info zero metrics n ∷ []) pools
            ∙ append_assoc plane (node_info zero metrics n ∷ []) (infos is_control_plane ns))
    | inr e ↦
        rw (to_pool n ns plane pools e, e)
          (group_nodes-plane ns plane
            (append_to_pool (pool_name n) (node_info zero metrics n) pools))
  ]

  group_nodes-pools :
      (nodes : List (ClusterNode Q)) (plane : List (NodeInfo Q)) (pools : Assoc (List (NodeInfo Q)))
      (name : String)
      → members (lookup name (group_nodes zero metrics nodes (plane, pools)).1)
        ≡ members (lookup name pools) ++ infos (is_in name) nodes
  group_nodes-pools [] plane pools name =
      unfold group_nodes in sym (append-nil (members (lookup name pools)))
  group_nodes-pools (n ∷ ns) plane pools name =
      let info = node_info zero metrics n in
      let next = append_to_pool (pool_name n) info pools in
      let rest = group_nodes-pools ns plane next name in
      let added = members-append_to_pool (pool_name n) name info pools in
      let others = infos (is_in name) ns in
      elim (Bool-cases (is_control_plane n)) [
        | inl e ↦
            rw (to_plane n ns plane pools e, e)
              (group_nodes-pools ns (plane ++ info ∷ []) pools name)
        | inr e ↦ elim (Bool-cases (pool_name n == name)) [
          | inl f ↦
              rw (to_pool n ns plane pools e, e, f)
                (rest
                  ∙ ap (λ l. l ++ others) (rw f at added)
                  ∙ append_assoc (members (lookup name pools)) (info ∷ []) others)
          | inr f ↦
              rw (to_pool n ns plane pools e, e, f) (rest ∙ ap (λ l. l ++ others) (rw f at added))
        ]
      ]

  group_nodes-DistinctKeys :
      (nodes : List (ClusterNode Q)) (plane : List (NodeInfo Q)) (pools : Assoc (List (NodeInfo Q)))
      → DistinctKeys pools
      → DistinctKeys (group_nodes zero metrics nodes (plane, pools)).1
  group_nodes-DistinctKeys [] plane pools d = unfold group_nodes in d
  group_nodes-DistinctKeys (n ∷ ns) plane pools d =
      let info = node_info zero metrics n in
      elim (Bool-cases (is_control_plane n)) [
        | inl e ↦
            rw (to_plane n ns plane pools e)
              (group_nodes-DistinctKeys ns (plane ++ info ∷ []) pools d)
        | inr e ↦ rw (to_pool n ns plane pools e) (
            group_nodes-DistinctKeys ns plane (append_to_pool (pool_name n) info pools)
              (append_to_pool-DistinctKeys (pool_name n) info pools d))
      ]

-- The nodes of the status: those of the control plane, those of each pool, by name, and the names.
pub record Grouped {Q : Type 0} (query : NodeQuery Q) (s : StatusNodes Q) : Type 0 where
  pub plane : s.control_plane ≡ reported query is_control_plane
  pub pools : (name : String) → members (lookup name s.nodepools) ≡ reported query (is_in name)
  pub names : DistinctKeys s.nodepools

-- If the loop over the map of pools ranges over all pools in any order, the status of getNodes
-- has the nodes with the label of the control plane as its control plane, in order, and each
-- other node in the pool of its name, in order, and no two pools have one name.
pub get_nodes-Grouped :
    {Q : Type 0} (query : NodeQuery Q)
    (order : Assoc (List (NodeInfo Q)) → List (String × List (NodeInfo Q)))
    → ((m : Assoc (List (NodeInfo Q))) → Shuffle m (order m))
    → Grouped query (get_nodes query order)
unfolding get_nodes lookup
get_nodes-Grouped query order shuffled =
    let metrics = get_node_metrics_map query in
    let zero = query.zero_quantity in
    let (d, same) =
      lookup-Shuffle (shuffled (group_nodes zero metrics query.nodes ([], [])).1)
        (group_nodes-DistinctKeys zero metrics query.nodes [] [] tt) in
    record {
      plane = group_nodes-plane zero metrics query.nodes [] [];
      pools =
          λ name. ap members (same name) ∙ group_nodes-pools zero metrics query.nodes [] [] name;
      names = d;
    }
