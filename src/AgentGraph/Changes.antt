-- ===== src/AgentGraph/Changes.antt =====
-- swarmline/multi_agent/graph_store.py: every store that changes lead to is a tree.
use mathlib.Core.Path.{subst}
use swarmline.Base.{
  String, Bool, true, Option, List, [], ◌≡◌, refl, sym, ap, ◌∙◌, Bool-cases, inl, inr,
}
use swarmline.Base.Dict.{Dict, get, has}
use swarmline.Base.Forest.{top}
use swarmline.Governance.{AgentNode}
use swarmline.AgentGraph.{done, NodeUpdate, add_node, remove_node, update_node}
use swarmline.AgentGraph.Removal.{IsTree, remove_node-IsTree}
use swarmline.AgentGraph.Trees.{add_node-IsTree, of_done}
use swarmline.AgentGraph.Updates.{keeps_id, update_node-IsTree}

module _ {Any : Type 0} where
  -- A call that raises no error and, for an update, does not name the identifier.
  pub data Change (nodes nodes' : Dict (AgentNode Any)) : Type 0 where
    by_add : (node : AgentNode Any) → add_node node nodes ≡ done nodes' → Change nodes nodes'
    by_remove :
        (id : String) {answer : Bool}
        → remove_node id nodes ≡ done (answer, nodes')
        → Change nodes nodes'
    by_update :
        (id : String) (updates : List (NodeUpdate Any)) {answer : Option (AgentNode Any)}
        → keeps_id updates ≡ true
        → update_node id updates nodes ≡ done (answer, nodes')
        → Change nodes nodes'

  pub data Changes : Dict (AgentNode Any) → Type 0 where
    empty : Changes []
    after :
        {nodes nodes' : Dict (AgentNode Any)} → Changes nodes → Change nodes nodes' → Changes nodes'

  empty-IsTree : IsTree {Any = Any} []
  unfolding get
  empty-IsTree = record { keyed = tt; attached = λ k p parent. absurd cc; rooted = λ k. top refl }

  Change-IsTree :
      {nodes nodes' : Dict (AgentNode Any)} → IsTree nodes → Change nodes nodes' → IsTree nodes'
  unfolding remove_node
  Change-IsTree {nodes} tree (by_add node e) = (add_node-IsTree node nodes tree e).0
  Change-IsTree {nodes} tree (by_update id updates keeps e) =
      update_node-IsTree id updates nodes tree keeps e
  Change-IsTree {nodes} tree (by_remove id e) = elim (Bool-cases (has id nodes)) [
    | inl stored ↦
        let (rest, ids, removed, found, here, held, still) =
          remove_node-IsTree id nodes tree stored in
        subst IsTree (ap (λ (r : Bool × Dict (AgentNode Any)). r.1) (of_done (sym removed ∙ e)))
          still
    | inr unknown ↦
        subst IsTree
          (ap (λ (r : Bool × Dict (AgentNode Any)). r.1) (of_done (rw (remove_node, unknown) at e)))
          tree
  ]

  -- Whatever additions, removals and updates that raise no error lead from an empty store to another,
  -- as long as no update names an identifier: each node stands under its own identifier, its parent
  -- is stored, and its chain of parents comes to an end.
  pub Changes-IsTree : {nodes : Dict (AgentNode Any)} → Changes nodes → IsTree nodes
  Changes-IsTree empty = empty-IsTree
  Changes-IsTree (after before change) = Change-IsTree (Changes-IsTree before) change
