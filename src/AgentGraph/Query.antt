-- ===== src/AgentGraph/Query.antt =====
-- swarmline/multi_agent/graph_store.py: the queries of the tree.
use swarmline.Base.{
  ℕ, zero, suc, String, true, false, Option, none, some, List, [], ◌∷◌, ◌++◌, ◌==◌, length, elem,
  select,
}
use swarmline.Base.Dict.{Dict, get, values}
use swarmline.Governance.{AgentNode}
use swarmline.AgentGraph.{GraphEdge, GraphSnapshot, new_children}

module _ {Any : Type 0} where
  abbrev edges_of : List (AgentNode Any) → List GraphEdge
  edges_of [] = []
  edges_of (n ∷ ns) = elim n.parent_id [
    | none ↦ edges_of ns
    | some p ↦ record { source_id = n.id; target_id = p } ∷ edges_of ns
  ]

  abbrev first_root : List (AgentNode Any) → Option (AgentNode Any)
  first_root [] = none
  first_root (n ∷ ns) = elim n.parent_id [ none ↦ some n | some p ↦ first_root ns ]

  abbrev id_of : Option (AgentNode Any) → Option String
  id_of none = none
  id_of (some n) = some n.id

  unfoldable pub get_root : Dict (AgentNode Any) → Option (AgentNode Any)
  get_root nodes = first_root (values nodes)

  -- The two ways to take the first root give the same.
  unfoldable pub snapshot : Dict (AgentNode Any) → GraphSnapshot Any
  snapshot nodes = record {
    nodes = values nodes;
    edges = edges_of (values nodes);
    root_id = id_of (first_root (values nodes));
  }

  unfoldable pub find_by_role : String → Dict (AgentNode Any) → List (AgentNode Any)
  find_by_role role nodes = select (λ n. n.role == role) (values nodes)

  -- The `while` loop of `get_chain_of_command`, on fuel; the empty string ends it.
  unfoldable pub chain_from :
      ℕ → Dict (AgentNode Any) → List String → Option String → List (AgentNode Any)
  chain_from zero nodes visited current = []
  chain_from (suc fuel) nodes visited none = []
  chain_from (suc fuel) nodes visited (some id) = elim (id == "") [
    | true ↦ []
    | false ↦ elim (elem id visited) [
      | true ↦ []
      | false ↦ elim (get id nodes) [
        | none ↦ []
        | some node ↦ node ∷ chain_from fuel nodes (id ∷ visited) node.parent_id
      ]
    ]
  ]

  unfoldable pub get_chain_of_command : String → Dict (AgentNode Any) → List (AgentNode Any)
  unfolding chain_from
  get_chain_of_command id nodes = chain_from (suc (length nodes)) nodes [] (some id)

  -- The `while` loop of `get_subtree`, on fuel.
  unfoldable pub subtree_from :
      ℕ
      → Dict (AgentNode Any)
      → List String
      → List String
      → List (AgentNode Any)
      → Option (List (AgentNode Any))
  subtree_from fuel nodes [] visited result = some result
  subtree_from zero nodes (nid ∷ queue) visited result = none
  subtree_from (suc fuel) nodes (nid ∷ queue) visited result = elim (elem nid visited) [
    | true ↦ subtree_from fuel nodes queue visited result
    | false ↦
        let seen = visited ++ nid ∷ [] in
        elim (get nid nodes) [
          | none ↦ subtree_from fuel nodes queue seen result
          | some node ↦
              subtree_from fuel nodes (queue ++ new_children nodes nid seen) seen
                (result ++ node ∷ [])
        ]
  ]
