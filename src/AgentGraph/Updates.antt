-- ===== src/AgentGraph/Updates.antt =====
-- swarmline/multi_agent/graph_store.py: a change of a parent keeps the tree.
use mathlib.Core.Path.{subst}
use swarmline.Base.{
  String, Bool, true, false, not, ◌&&◌, Option, none, some, List, [], ◌∷◌, ◌==◌, ◌≡◌, refl, sym, ap,
  ◌∙◌, ◌⊎◌, arith, Bool-cases, Option-cases, inl, inr, eq_iff, eq_refl, elem, of_some,
}
use swarmline.Base.Dict.{Dict, get, put, has}
use swarmline.Base.Keyed.{IsKeyed}
use swarmline.Base.Forest.{top, step, Rooted-cong}
use swarmline.Governance.{AgentNode}
use swarmline.AgentGraph.{
  done, NodeUpdate, set_id, is_dangling, is_moved, apply, apply_all, check_parent, checked_move,
  update_node,
}
use swarmline.AgentGraph.Levels.{key, link, parent_in}
use swarmline.AgentGraph.Search.{Found, collect_subtree_ids-total}
use swarmline.AgentGraph.Removal.{IsTree, key-has}
use swarmline.AgentGraph.Trees.{put-IsTree, avoiding-Rooted, parent_in-put, of_done, failing}

unmoved : (new old : Option String) → is_moved new old ≡ false → new ≡ old
unmoved none none h = refl
unmoved none (some q) h = absurd cc
unmoved (some p) none h = absurd cc
unmoved (some p) (some q) h = ap some ((eq_iff p q).0 (ground arith))

module _ {Any : Type 0} where
  abbrev pub renames : NodeUpdate Any → Bool
  renames (set_id x) = true
  renames _ = false

  -- No update names the identifier.
  abbrev pub keeps_id : List (NodeUpdate Any) → Bool
  keeps_id [] = true
  keeps_id (u ∷ us) = not (renames u) && keeps_id us

  apply-id : (u : NodeUpdate Any) (n : AgentNode Any) → renames u ≡ false → (apply u n).id ≡ n.id
  unfolding apply
  apply-id (set_id x) n h = absurd cc
  apply-id _ n h = refl

  apply_all-id :
      (us : List (NodeUpdate Any)) (n : AgentNode Any)
      → keeps_id us ≡ true
      → (apply_all us n).id ≡ n.id
  unfolding apply_all
  apply_all-id [] n h = refl
  apply_all-id (u ∷ us) n h =
      apply_all-id us (apply u n) (ground (arith, h)) ∙ apply-id u n (ground (arith, h))

  parent_in-same :
      (node updated : AgentNode Any) (nodes : Dict (AgentNode Any)) (k : String)
      → get updated.id nodes ≡ some node
      → updated.parent_id ≡ node.parent_id
      → parent_in (put updated.id updated nodes) k ≡ parent_in nodes k
  parent_in-same node updated nodes k held same =
      parent_in-put k updated nodes ∙ elim (Bool-cases (updated.id == k)) [
        | inl here ↦
            rw here
              (same ∙ (ap link (sym held) ∙ ap (parent_in nodes) ((eq_iff updated.id k).0 here)))
        | inr other ↦ rw other refl
      ]

  -- What a check of a new parent that raises no error says.
  checked :
      (id : String) (old new : Option String) (nodes : Dict (AgentNode Any))
      → IsTree nodes
      → has id nodes ≡ true
      → check_parent id old new nodes ≡ none
      → (new ≡ old)
        ⊎ ((is_dangling new nodes ≡ false)
            × ((new ≡ none)
                ⊎ ((p : String) × (ids : List String) × (new ≡ some p)
                    × Found nodes ids
                    × (elem id ids ≡ true)
                    × (elem p ids ≡ false))))
  unfolding check_parent
  checked id old new nodes tree stored e = elim (Bool-cases (is_moved new old)) [
    | inr still ↦ inl (unmoved new old still)
    | inl moved ↦ elim (Bool-cases (is_dangling new nodes)) [
      | inl dangling ↦ absurd (cc (rw (check_parent, moved, dangling) at e))
      | inr fine ↦ inr (
        fine,
        elim (Option-cases new) [
          | inl root ↦ inl root
          | inr (p, parent) ↦
              let (ids, searched, here, found) =
                collect_subtree_ids-total nodes id tree.keyed (key-has id nodes stored) in
              elim (Bool-cases (elem p ids)) [
                | inr out ↦ inr (p, ids, parent, found, here, out)
                | inl inside ↦ absurd (
                    cc
                      (rw (check_parent, moved, fine, searched, parent, checked_move, inside) at e))
              ]
        ],
      )
    ]
  ]

  parent-stored :
      (k : String) (parent : Option String) (nodes : Dict (AgentNode Any))
      → IsTree nodes
      → parent_in nodes k ≡ parent
      → is_dangling parent nodes ≡ false
  parent-stored k none nodes tree e = refl
  parent-stored k (some p) nodes tree e = rw (tree.attached k p e) refl

  put-checked :
      (node updated : AgentNode Any) (nodes : Dict (AgentNode Any))
      → IsTree nodes
      → get updated.id nodes ≡ some node
      → check_parent updated.id node.parent_id updated.parent_id nodes ≡ none
      → IsTree (put updated.id updated nodes)
  put-checked node updated nodes tree held e =
      let stored : has updated.id nodes ≡ true = rw held refl in
      elim (checked updated.id node.parent_id updated.parent_id nodes tree stored e) [
        | inl same ↦
            put-IsTree updated nodes tree
              (parent-stored updated.id updated.parent_id nodes tree (ap link held ∙ sym same))
              (Rooted-cong (λ j. parent_in-same node updated nodes j held same)
                (tree.rooted updated.id))
        | inr (fine, inl root) ↦
            put-IsTree updated nodes tree fine
              (top (parent_in-put updated.id updated nodes ∙ rw (eq_refl updated.id) root))
        | inr (fine, inr (p, ids, parent, found, here, out)) ↦ put-IsTree updated nodes tree fine (
            step p (parent_in-put updated.id updated nodes ∙ rw (eq_refl updated.id) parent)
              (avoiding-Rooted updated nodes ids found here out (tree.rooted p)))
      ]

  get-own :
      (id : String) (nodes : Dict (AgentNode Any)) {node : AgentNode Any}
      → IsKeyed key nodes
      → get id nodes ≡ some node
      → node.id ≡ id
  unfolding get
  get-own id [] keyed h = absurd cc
  get-own id ((j, n) ∷ nodes) keyed h = elim (Bool-cases (j == id)) [
    | inl same ↦
        ap (λ (m : AgentNode Any). m.id) (sym (of_some (rw (get, same) at h)))
        ∙ (keyed.0 ∙ (eq_iff j id).0 same)
    | inr other ↦ get-own id nodes keyed.2 (rw (get, other) at h)
  ]

  -- In a tree, an update of a stored node that raises no error and that does not name the identifier
  -- leaves a tree, whatever new parent it names.
  pub update_node-IsTree :
      (id : String) (updates : List (NodeUpdate Any)) (nodes : Dict (AgentNode Any))
      {answer : Option (AgentNode Any)} {nodes' : Dict (AgentNode Any)}
      → IsTree nodes
      → keeps_id updates ≡ true
      → update_node id updates nodes ≡ done (answer, nodes')
      → IsTree nodes'
  unfolding update_node
  update_node-IsTree id updates nodes tree keeps e = elim (Option-cases (get id nodes)) [
    | inl missing ↦
        subst IsTree
          (ap (λ (r : Option (AgentNode Any) × Dict (AgentNode Any)). r.1)
            (of_done (rw (update_node, missing) at e)))
          tree
    | inr (node, held) ↦
        let updated = apply_all updates node in
        let same : updated.id ≡ id =
          apply_all-id updates node keeps ∙ get-own id nodes tree.keyed held in
        elim (Option-cases (check_parent id node.parent_id updated.parent_id nodes)) [
          | inr (g, refused) ↦ absurd (failing (rw (update_node, held, refused) at e))
          | inl ok ↦
              subst IsTree
                (ap (λ (r : Option (AgentNode Any) × Dict (AgentNode Any)). r.1)
                  (of_done (rw (update_node, held, ok) at e)))
                (subst (λ (i : String). IsTree (put i updated nodes)) same
                  (put-checked node updated nodes tree
                    (subst (λ (i : String). get i nodes ≡ some node) (sym same) held)
                    (subst
                      (λ (i : String). check_parent i node.parent_id updated.parent_id nodes ≡ none)
                      (sym same) ok)))
        ]
  ]
