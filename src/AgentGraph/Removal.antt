-- ===== src/AgentGraph/Removal.antt =====
-- swarmline/multi_agent/graph_store.py: the removal of a subtree leaves a tree.
use mathlib.Core.Path.{subst}
use swarmline.Base.{
  String, true, false, ◌||◌, none, some, List, [], ◌∷◌, ◌==◌, ◌≡◌, refl, sym, ◌∙◌, arith,
  Bool-cases, Option-cases, inl, inr, eq_iff, eq_refl, elem, Distinct, if◌then◌else◌,
}
use swarmline.Base.Dict.{Dict, get, keys, has, remove, get-remove}
use swarmline.Base.Keyed.{IsKeyed}
use swarmline.Base.Walk.{elem-keys}
use swarmline.Base.Forest.{Rooted, top, step, IsForest}
use swarmline.Governance.{AgentNode}
use swarmline.AgentGraph.{done, delete_each, deleted, remove_node, collect_subtree_ids}
use swarmline.AgentGraph.Levels.{key, parent_in, false_of}
use swarmline.AgentGraph.Search.{Found, collect_subtree_ids-total}

module _ {V : Type 0} where
  pub has-key : (k : String) (d : Dict V) → elem k (keys d) ≡ true → has k d ≡ true
  unfolding get keys
  has-key k [] m = absurd cc
  has-key k ((j, v) ∷ d) m = elim (Bool-cases (j == k)) [
    | inl same ↦ rw (get, same) refl
    | inr other ↦ rw (get, other) (has-key k d (ground arith))
  ]

  pub key-has : (k : String) (d : Dict V) → has k d ≡ true → elem k (keys d) ≡ true
  key-has k d h = elim (Option-cases (get k d)) [
    | inl missing ↦ absurd cc
    | inr (v, held) ↦ elem-keys k d held
  ]

  elem-keys-remove :
      (k j : String) (d : Dict V) → elem k (keys (remove j d)) ≡ true → elem k (keys d) ≡ true
  unfolding keys remove
  elem-keys-remove k j [] m = m
  elem-keys-remove k j ((i, v) ∷ d) m = ground (arith, m, elem-keys-remove k j d)

  remove-IsKeyed :
      (id : V → String) (k : String) (d : Dict V) → IsKeyed id d → IsKeyed id (remove k d)
  unfolding keys remove
  remove-IsKeyed id k [] keyed = tt
  remove-IsKeyed id k ((j, v) ∷ d) keyed = elim (Bool-cases (j == k)) [
    | inl same ↦ rw (remove, same) (remove-IsKeyed id k d keyed.2)
    | inr other ↦
        rw (remove, other)
          (
            keyed.0,
            false_of _ (λ m. cc (elem-keys-remove j k d m, keyed.1)),
            remove-IsKeyed id k d keyed.2,
          )
  ]

module _ {Any : Type 0} where
  -- Each node stands under its own key, its parent is stored, and its chain of parents ends.
  pub record IsTree (nodes : Dict (AgentNode Any)) : Type 0 where
    pub keyed : IsKeyed key nodes
    pub attached : (k p : String) → parent_in nodes k ≡ some p → has p nodes ≡ true
    pub rooted : IsForest (parent_in nodes)

  -- The store without some keys.
  pub record Without (ids : List String) (nodes rest : Dict (AgentNode Any)) : Type 0 where
    pub keyed : IsKeyed key rest
    pub held : (k : String) → get k rest ≡ (if elem k ids then none else get k nodes)

  held-after :
      (id k : String) (ids : List String) (nodes : Dict (AgentNode Any))
      → (if elem k ids then none else get k (remove id nodes))
        ≡ (if (id == k) || elem k ids then none else get k nodes)
  held-after id k ids nodes = elim (Bool-cases (id == k)) [
    | inl same ↦ elim (Bool-cases (elem k ids)) [
      | inl taken ↦ rw (same, taken) refl
      | inr kept ↦ rw (same, kept, get-remove id k nodes, same) refl
    ]
    | inr other ↦ elim (Bool-cases (elem k ids)) [
      | inl taken ↦ rw (other, taken) refl
      | inr kept ↦ rw (other, kept, get-remove id k nodes, other) refl
    ]
  ]

  delete_each-done :
      (ids : List String) (nodes : Dict (AgentNode Any))
      → IsKeyed key nodes
      → Distinct ids
      → ((k : String) → elem k ids ≡ true → has k nodes ≡ true)
      → (rest : Dict (AgentNode Any)) × (delete_each ids nodes ≡ done rest) × Without ids nodes rest
  unfolding delete_each
  delete_each-done [] nodes keyed distinct stored =
      (nodes, refl, record { keyed = keyed; held = λ k. refl })
  delete_each-done (id ∷ ids) nodes keyed distinct stored =
      let here : has id nodes ≡ true = stored id (rw (eq_refl id) refl) in
      let still : (k : String) → elem k ids ≡ true → has k (remove id nodes) ≡ true = λ k m.
        let other : (id == k) ≡ false = false_of (id == k) (λ same.
          cc (
            distinct.0,
            subst (λ (i : String). elem i ids ≡ true) (sym ((eq_iff id k).0 same)) m,
          )) in
        rw (get-remove id k nodes, other) (stored k (rw (other, m) refl)) in
      let (rest, e, without) =
        delete_each-done ids (remove id nodes) (remove-IsKeyed key id nodes keyed) distinct.1
          still in
      (
        rest,
        rw (delete_each, here) e,
        record { keyed = without.keyed; held = λ k. without.held k ∙ held-after id k ids nodes },
      )

  parent_in-Without :
      (ids : List String) (nodes rest : Dict (AgentNode Any)) (k : String)
      → Without ids nodes rest
      → parent_in rest k ≡ (if elem k ids then none else parent_in nodes k)
  parent_in-Without ids nodes rest k without = elim (Bool-cases (elem k ids)) [
    | inl taken ↦ rw (without.held k, taken) refl
    | inr kept ↦ rw (without.held k, kept) refl
  ]

  Rooted-Without :
      {nodes : Dict (AgentNode Any)} (ids : List String) (rest : Dict (AgentNode Any)) {k : String}
      → Without ids nodes rest
      → Rooted (parent_in nodes) k
      → Rooted (parent_in rest) k
  Rooted-Without {nodes} ids rest without (top {k = k} h) = top (
      parent_in-Without ids nodes rest k without
      ∙ elim (Bool-cases (elem k ids)) [ inl taken ↦ rw taken refl | inr kept ↦ rw kept h ])
  Rooted-Without {nodes} ids rest without (step {k = k} p h r) = elim (Bool-cases (elem k ids)) [
    | inl taken ↦ top (parent_in-Without ids nodes rest k without ∙ rw taken refl)
    | inr kept ↦
        step p (parent_in-Without ids nodes rest k without ∙ rw kept h)
          (Rooted-Without ids rest without r)
  ]

  -- Without a set of keys that holds with a node all its children, a tree is a tree.
  Without-IsTree :
      (ids : List String) (nodes rest : Dict (AgentNode Any))
      → IsTree nodes
      → Found nodes ids
      → Without ids nodes rest
      → IsTree rest
  Without-IsTree ids nodes rest tree found without = record {
    keyed = without.keyed;
    attached = λ k p parent. elim (Bool-cases (elem k ids)) [
      | inl taken ↦ absurd (
          cc (
            parent_in-Without ids nodes rest k without,
            parent,
            (rw (parent_in-Without ids nodes rest k without, taken) at parent),
          ))
      | inr kept ↦
          let before : parent_in nodes k ≡ some p =
            rw (parent_in-Without ids nodes rest k without, kept) at parent in
          let parent_kept : elem p ids ≡ false =
            false_of _ (λ m. cc (found.closed k p before m, kept)) in
          rw (without.held p, parent_kept) (tree.attached k p before)
    ];
    rooted = λ k. Rooted-Without ids rest without (tree.rooted k);
  }

  deleted-done :
      (ids : List String) (nodes rest : Dict (AgentNode Any))
      → delete_each ids nodes ≡ done rest
      → deleted (some ids) nodes ≡ done (true, rest)
  deleted-done ids nodes rest e = rw (deleted, e) refl

  -- In a tree, the removal of a stored node raises no error and answers `true`; what is left is a tree
  -- without the node, and the node's subtree is found and exactly its keys are gone.
  pub remove_node-IsTree :
      (id : String) (nodes : Dict (AgentNode Any))
      → IsTree nodes
      → has id nodes ≡ true
      → (rest : Dict (AgentNode Any)) × (ids : List String) × (remove_node id nodes
          ≡ done (true, rest))
        × (collect_subtree_ids nodes id ≡ some ids)
        × (elem id ids ≡ true)
        × ((k : String) → get k rest ≡ (if elem k ids then none else get k nodes))
        × IsTree rest
  unfolding remove_node
  remove_node-IsTree id nodes tree stored =
      let (ids, e, here, found) =
        collect_subtree_ids-total nodes id tree.keyed (key-has id nodes stored) in
      let (rest, e', without) =
        delete_each-done ids nodes tree.keyed found.once
          (λ k m. has-key k nodes (found.stored k m)) in
      (
        rest,
        ids,
        rw (remove_node, stored, e) (deleted-done ids nodes rest e'),
        e,
        here,
        without.held,
        Without-IsTree ids nodes rest tree found without,
      )
