-- ===== src/AgentGraph/Trees.antt =====
-- swarmline/multi_agent/graph_store.py: additions and updates keep the tree.
use mathlib.Core.Path.{subst}
use swarmline.Base.{
  String, true, false, Option, none, some, List, ◌==◌, ◌≡◌, refl, ◌∙◌, arith, Bool-cases,
  Option-cases, inl, inr, eq_iff, eq_refl, elem, if◌then◌else◌, of_some,
}
use swarmline.Base.Dict.{Dict, get, put, has, get-put, get-put_self}
use swarmline.Base.Keyed.{put-IsKeyed}
use swarmline.Base.Forest.{Rooted, top, step}
use swarmline.Governance.{AgentNode}
use swarmline.AgentGraph.{done, error, GraphError, is_dangling, add_node}
use swarmline.AgentGraph.Levels.{key, parent_in, false_of}
use swarmline.AgentGraph.Search.{Found}
use swarmline.AgentGraph.Removal.{IsTree}

apart : (j k : String) (ks : List String) → elem j ks ≡ true → elem k ks ≡ false → (j == k) ≡ false
apart j k ks m out =
    false_of (j == k)
      (λ same. cc (subst (λ (i : String). elem i ks ≡ true) ((eq_iff j k).0 same) m, out))

unlike :
    {V : Type 0} (j k : String) (d : Dict V) → has j d ≡ false → has k d ≡ true → (j == k) ≡ false
unlike j k d fresh held =
    false_of (j == k)
      (λ same. cc (subst (λ (i : String). has i d ≡ false) ((eq_iff j k).0 same) fresh, held))

pub of_done : {A : Type 0} {x y : A} → done x ≡ done y → x ≡ y
of_done e = cc

pub failing : {A : Type 0} {x : A} {g : GraphError} → ¬ (error g ≡ done x)
failing e = cc

module _ {Any : Type 0} where
  pub parent_in-put :
      (k : String) (node : AgentNode Any) (nodes : Dict (AgentNode Any))
      → parent_in (put node.id node nodes) k
        ≡ (if node.id == k then node.parent_id else parent_in nodes k)
  parent_in-put k node nodes = elim (Bool-cases (node.id == k)) [
    | inl same ↦ rw (get-put node.id k node nodes, same) refl
    | inr other ↦ rw (get-put node.id k node nodes, other) refl
  ]

  has-put :
      (k : String) (node : AgentNode Any) (nodes : Dict (AgentNode Any))
      → has k nodes ≡ true
      → has k (put node.id node nodes) ≡ true
  has-put k node nodes h = elim (Bool-cases (node.id == k)) [
    | inl same ↦ rw (get-put node.id k node nodes, same) refl
    | inr other ↦ rw (get-put node.id k node nodes, other) h
  ]

  pub attached-some :
      (parent : Option String) (p : String) (nodes : Dict (AgentNode Any))
      → is_dangling parent nodes ≡ false
      → parent ≡ some p
      → has p nodes ≡ true
  attached-some none p nodes h e = absurd cc
  attached-some (some q) p nodes h e =
      let stored : has q nodes ≡ true = ground arith in
      subst (λ (i : String). has i nodes ≡ true) (of_some e) stored

  -- A write of a node whose parent is stored keeps parents stored.
  put-attached :
      (node : AgentNode Any) (nodes : Dict (AgentNode Any))
      → IsTree nodes
      → is_dangling node.parent_id nodes ≡ false
      → (k p : String) → parent_in (put node.id node nodes) k ≡ some p
      → has p (put node.id node nodes) ≡ true
  put-attached node nodes tree fine k p parent = elim (Bool-cases (node.id == k)) [
    | inl same ↦ has-put p node nodes (
        attached-some node.parent_id p nodes fine (rw (parent_in-put k node nodes, same) at parent))
    | inr other ↦
        has-put p node nodes (tree.attached k p (rw (parent_in-put k node nodes, other) at parent))
  ]

  -- If the chain of the written node ends after the write, then so do all.
  put-Rooted :
      (node : AgentNode Any) (nodes : Dict (AgentNode Any)) {k : String}
      → Rooted (parent_in (put node.id node nodes)) node.id
      → Rooted (parent_in nodes) k
      → Rooted (parent_in (put node.id node nodes)) k
  put-Rooted node nodes anchored (top {k = k} h) = elim (Bool-cases (node.id == k)) [
    | inl same ↦
        subst (Rooted (parent_in (put node.id node nodes))) ((eq_iff node.id k).0 same) anchored
    | inr other ↦ top (parent_in-put k node nodes ∙ rw other h)
  ]
  put-Rooted node nodes anchored (step {k = k} p h r) = elim (Bool-cases (node.id == k)) [
    | inl same ↦
        subst (Rooted (parent_in (put node.id node nodes))) ((eq_iff node.id k).0 same) anchored
    | inr other ↦
        step p (parent_in-put k node nodes ∙ rw other h) (put-Rooted node nodes anchored r)
  ]

  pub put-IsTree :
      (node : AgentNode Any) (nodes : Dict (AgentNode Any))
      → IsTree nodes
      → is_dangling node.parent_id nodes ≡ false
      → Rooted (parent_in (put node.id node nodes)) node.id
      → IsTree (put node.id node nodes)
  put-IsTree node nodes tree fine anchored = record {
    keyed = put-IsKeyed key node nodes tree.keyed;
    attached = put-attached node nodes tree fine;
    rooted = λ k. put-Rooted node nodes anchored (tree.rooted k);
  }

  -- A key whose chain does not come to the written node keeps its chain.
  pub avoiding-Rooted :
      (node : AgentNode Any) (nodes : Dict (AgentNode Any)) (ids : List String) {k : String}
      → Found nodes ids
      → elem node.id ids ≡ true
      → elem k ids ≡ false
      → Rooted (parent_in nodes) k
      → Rooted (parent_in (put node.id node nodes)) k
  avoiding-Rooted node nodes ids found here out (top {k = k} h) =
      top (parent_in-put k node nodes ∙ rw (apart node.id k ids here out) h)
  avoiding-Rooted node nodes ids found here out (step {k = k} p h r) =
      step p (parent_in-put k node nodes ∙ rw (apart node.id k ids here out) h) (
        avoiding-Rooted node nodes ids found here (false_of _ (λ m. cc (found.closed k p h m, out)))
          r)

  -- The chain of a stored key does not come to a key that is not stored.
  fresh-Rooted :
      (node : AgentNode Any) (nodes : Dict (AgentNode Any)) {k : String}
      → IsTree nodes
      → has node.id nodes ≡ false
      → has k nodes ≡ true
      → Rooted (parent_in nodes) k
      → Rooted (parent_in (put node.id node nodes)) k
  fresh-Rooted node nodes tree fresh held (top {k = k} h) =
      top (parent_in-put k node nodes ∙ rw (unlike node.id k nodes fresh held) h)
  fresh-Rooted node nodes tree fresh held (step {k = k} p h r) =
      step p (parent_in-put k node nodes ∙ rw (unlike node.id k nodes fresh held) h)
        (fresh-Rooted node nodes tree fresh (tree.attached k p h) r)

  anchored-fresh :
      (node : AgentNode Any) (nodes : Dict (AgentNode Any))
      → IsTree nodes
      → has node.id nodes ≡ false
      → is_dangling node.parent_id nodes ≡ false
      → Rooted (parent_in (put node.id node nodes)) node.id
  anchored-fresh node nodes tree fresh fine = elim (Option-cases node.parent_id) [
    | inl root ↦ top (parent_in-put node.id node nodes ∙ rw (eq_refl node.id) root)
    | inr (p, parent) ↦ step p (parent_in-put node.id node nodes ∙ rw (eq_refl node.id) parent) (
        fresh-Rooted node nodes tree fresh (attached-some node.parent_id p nodes fine parent)
          (tree.rooted p))
  ]

  -- An addition that raises no error turns a tree into a tree, in which the node is stored.
  pub add_node-IsTree :
      (node : AgentNode Any) (nodes : Dict (AgentNode Any)) {nodes' : Dict (AgentNode Any)}
      → IsTree nodes
      → add_node node nodes ≡ done nodes'
      → IsTree nodes' × (get node.id nodes' ≡ some node)
  unfolding add_node
  add_node-IsTree node nodes tree e = elim (Bool-cases (has node.id nodes)) [
    | inl known ↦ absurd (failing (rw (add_node, known) at e))
    | inr fresh ↦ elim (Bool-cases (is_dangling node.parent_id nodes)) [
      | inl dangling ↦ absurd (failing (rw (add_node, fresh, dangling) at e))
      | inr fine ↦
          let written : put node.id node nodes ≡ _ = of_done (rw (add_node, fresh, fine) at e) in
          (
            subst IsTree written
                (put-IsTree node nodes tree fine (anchored-fresh node nodes tree fresh fine)),
            subst (λ (d : Dict (AgentNode Any)). get node.id d ≡ some node) written
                (get-put_self node.id node nodes),
          )
    ]
  ]
