-- ===== src/AgentGraph/Search.antt =====
-- swarmline/multi_agent/graph_store.py: the search for a subtree ends, with what it finds.
use mathlib.Core.Path.{subst}
use swarmline.Base.{
  of_some, ℕ, zero, suc, ◌≤◌, ◌<◌, String, Bool, true, false, ◌||◌, some, List, [], ◌∷◌, ◌++◌, ◌==◌,
  ◌≡◌, refl, sym, ap, ◌∙◌, arith, Bool-cases, inl, inr, eq_iff, eq_refl, elem, Distinct,
  elem-append, Distinct-append, Distinct-middle, length, append_assoc, append-nil,
}
use swarmline.Base.Dict.{Dict, keys}
use swarmline.Base.Keyed.{IsKeyed}
use swarmline.Base.Walk.{unseen, unseen-same, unseen-le-length, unseen-cons-lt}
use swarmline.Governance.{AgentNode}
use swarmline.AgentGraph.{new_children, collect, collect_subtree_ids}
use swarmline.AgentGraph.Levels.{
  key, parent_in, false_of, new_children-key, new_children-parent, new_children_complete,
  new_children-Distinct,
}

elem-append_one : (k j : String) (xs : List String) → elem k (xs ++ j ∷ []) ≡ elem k (j ∷ xs)
elem-append_one k j xs = elem-append k xs (j ∷ []) ∙ ground arith

length-keys : {V : Type 0} (d : Dict V) → length (keys d) ≡ length d
unfolding keys
length-keys [] = refl
length-keys ((k, v) ∷ d) = ap suc (length-keys d)

elem-one : (k : String) → elem k (k ∷ []) ≡ true
elem-one k = rw (eq_refl k) refl

or_true : (b : Bool) → (b || true) ≡ true
or_true true = refl
or_true false = refl

module _ {Any : Type 0} (nodes : Dict (AgentNode Any)) where
  -- The result and the queue hold each key once, keys of the store, all children of the result, and
  -- in the queue only such children.
  pub record Invariant (queue result : List String) : Type 0 where
    pub distinct : Distinct (result ++ queue)
    pub stored : (k : String) → elem k (result ++ queue) ≡ true → elem k (keys nodes) ≡ true
    pub below :
        (k : String)
        → elem k queue ≡ true
        → (p : String) × (parent_in nodes k ≡ some p) × (elem p result ≡ true)
    pub closed :
        (k p : String)
        → parent_in nodes k ≡ some p
        → elem p result ≡ true
        → elem k (result ++ queue) ≡ true

  shifted :
      (nid : String) (queue result new : List String)
      → (result ++ nid ∷ []) ++ (queue ++ new) ≡ (result ++ nid ∷ queue) ++ new
  shifted nid queue result new =
      append_assoc result (nid ∷ []) (queue ++ new) ∙ sym (append_assoc result (nid ∷ queue) new)

  step-apart :
      (nid : String) (queue result : List String)
      → IsKeyed key nodes
      → Invariant (nid ∷ queue) result
      → (k : String) → elem k (new_children nodes nid (result ++ nid ∷ [])) ≡ true
      → elem k (result ++ nid ∷ queue) ≡ false
  step-apart nid queue result keyed inv k m =
      let (child, new) = new_children-parent k nid nodes (result ++ nid ∷ []) keyed m in
      let unvisited : elem nid result ≡ false = Distinct-middle result nid queue inv.distinct in
      let unqueued : elem k (nid ∷ queue) ≡ false = false_of _ (λ q.
        let (p, parent, visited) = inv.below k q in
        cc (visited, unvisited, of_some (sym parent ∙ child))) in
      elem-append k result (nid ∷ queue)
      ∙ ground (arith, unqueued, new, elem-append k result (nid ∷ []))

  step-Invariant :
      (nid : String) (queue result : List String)
      → IsKeyed key nodes
      → Invariant (nid ∷ queue) result
      → Invariant (queue ++ new_children nodes nid (result ++ nid ∷ [])) (result ++ nid ∷ [])
  step-Invariant nid queue result keyed inv =
      let new = new_children nodes nid (result ++ nid ∷ []) in
      let moved : (k : String)
          → elem k ((result ++ nid ∷ []) ++ (queue ++ new))
            ≡ (elem k (result ++ nid ∷ queue) || elem k new) =
        λ k.
          ap (elem k) (shifted nid queue result new) ∙ elem-append k (result ++ nid ∷ queue) new in
      record {
        distinct = subst Distinct (sym (shifted nid queue result new)) (
            Distinct-append (result ++ nid ∷ queue) new inv.distinct
              (new_children-Distinct nid nodes (result ++ nid ∷ []) keyed)
              (step-apart nid queue result keyed inv));
        stored = λ k m. ground (
          arith,
          m,
          moved k,
          inv.stored k,
          new_children-key k nid nodes (result ++ nid ∷ []) keyed,
        );
        below = λ k m. elim (Bool-cases (elem k new)) [
          | inl added ↦ (
            nid,
            (new_children-parent k nid nodes (result ++ nid ∷ []) keyed added).0,
            rw (elem-append nid result (nid ∷ []), eq_refl nid) (or_true (elem nid result)),
          )
          | inr old ↦
              let queued : elem k (nid ∷ queue) ≡ true =
                ground (arith, m, old, elem-append k queue new) in
              let (p, parent, visited) = inv.below k queued in
              (p, parent, rw (elem-append p result (nid ∷ []), visited) refl)
        ];
        closed = λ k p parent visited. elim (Bool-cases (elem k (result ++ nid ∷ queue))) [
          | inl held ↦ moved k ∙ rw held refl
          | inr out ↦ elim (Bool-cases (elem p result)) [
            | inl before ↦ absurd (cc (inv.closed k p parent before, out))
            | inr now ↦
                let it : nid ≡ p =
                  ground (arith, visited, now, elem-append p result (nid ∷ []), eq_iff nid p) in
                let absent : elem k (result ++ nid ∷ []) ≡ false = ground (
                  arith,
                  out,
                  elem-append k result (nid ∷ []),
                  elem-append k result (nid ∷ queue),
                ) in
                let added : elem k new ≡ true =
                  new_children_complete k nid nodes (result ++ nid ∷ []) keyed
                    (parent ∙ ap some (sym it)) absent in
                moved k ∙ rw (out, added) refl
          ]
        ];
      }

  -- What the search finds: each key once, keys of the store, and with a node all its children.
  pub record Found (result : List String) : Type 0 where
    pub once : Distinct result
    pub stored : (k : String) → elem k result ≡ true → elem k (keys nodes) ≡ true
    pub closed :
        (k p : String) → parent_in nodes k ≡ some p → elem p result ≡ true → elem k result ≡ true

  ended : (result : List String) → Invariant [] result → Found result
  ended result inv =
      let all : (result ++ []) ≡ result = append-nil result in
      record {
        once = subst Distinct all inv.distinct;
        stored = λ k m. inv.stored k (ap (elem k) all ∙ m);
        closed = λ k p parent visited. sym (ap (elem k) all) ∙ inv.closed k p parent visited;
      }

  fewer :
      (nid : String) (result : List String)
      → elem nid (keys nodes) ≡ true
      → elem nid result ≡ false
      → unseen (result ++ nid ∷ []) (keys nodes) < unseen result (keys nodes)
  fewer nid result stored new = omega (
    arith,
    unseen-cons-lt nid result (keys nodes) stored new,
    unseen-same (result ++ nid ∷ []) (nid ∷ result) (keys nodes)
        (λ k. elem-append_one k nid result),
  )

  fewer_left :
      (nid : String) (queue result : List String)
      → Invariant (nid ∷ queue) result
      → unseen (result ++ nid ∷ []) (keys nodes) < unseen result (keys nodes)
  fewer_left nid queue result inv =
      fewer nid result
        (inv.stored nid
          (elem-append nid result (nid ∷ queue) ∙ rw (eq_refl nid) (or_true (elem nid result))))
        (Distinct-middle result nid queue inv.distinct)

  collect-total :
      (fuel : ℕ) (queue result : List String)
      → IsKeyed key nodes
      → Invariant queue result
      → unseen result (keys nodes) ≤ fuel
      → (found : List String) × (collect fuel nodes queue result ≡ some found)
        × ((k : String) → elem k result ≡ true → elem k found ≡ true)
        × Found found
  unfolding collect
  collect-total fuel [] result keyed inv h = (result, refl, λ k m. m, ended result inv)
  collect-total zero (nid ∷ queue) result keyed inv h =
      absurd (omega (arith, fewer_left nid queue result inv))
  collect-total (suc fuel) (nid ∷ queue) result keyed inv h =
      let (found, e, kept, finding) =
        collect-total fuel (queue ++ new_children nodes nid (result ++ nid ∷ []))
          (result ++ nid ∷ []) keyed (step-Invariant nid queue result keyed inv)
          (omega (arith, fewer_left nid queue result inv)) in
      (found, e, λ k m. kept k (elem-append k result (nid ∷ []) ∙ rw m refl), finding)

  start-Invariant :
      (id : String)
      → IsKeyed key nodes
      → elem id (keys nodes) ≡ true
      → Invariant (new_children nodes id (id ∷ [])) (id ∷ [])
  start-Invariant id keyed is_node =
      let new = new_children nodes id (id ∷ []) in
      record {
        distinct = (
          false_of _ (λ m. cc ((new_children-parent id id nodes (id ∷ []) keyed m).1, elem-one id)),
          new_children-Distinct id nodes (id ∷ []) keyed,
        );
        stored = λ k m. elim (Bool-cases (elem k new)) [
          | inl added ↦ new_children-key k id nodes (id ∷ []) keyed added
          | inr other ↦
              subst (λ (i : String). elem i (keys nodes) ≡ true)
                ((eq_iff id k).0 (ground (arith, m, other))) is_node
        ];
        below =
            λ k m. (id, (new_children-parent k id nodes (id ∷ []) keyed m).0, rw (eq_refl id) refl);
        closed = λ k p parent visited. elim (Bool-cases (id == k)) [
          | inl same ↦ rw same refl
          | inr other ↦
              let it : id ≡ p = (eq_iff id p).0 (ground (arith, visited)) in
              let added : elem k new ≡ true =
                new_children_complete k id nodes (id ∷ []) keyed (parent ∙ ap some (sym it))
                  (ground (arith, other)) in
              rw (other, added) refl
        ];
      }

  collect-first :
      (fuel : ℕ) (id : String)
      → IsKeyed key nodes
      → elem id (keys nodes) ≡ true
      → unseen [] (keys nodes) ≤ fuel
      → (found : List String) × (collect fuel nodes (id ∷ []) [] ≡ some found)
        × (elem id found ≡ true)
        × Found found
  unfolding collect
  collect-first zero id keyed is_node h = absurd (omega (arith, fewer id [] is_node refl))
  collect-first (suc fuel) id keyed is_node h =
      let (found, e, kept, finding) =
        collect-total fuel (new_children nodes id (id ∷ [])) (id ∷ []) keyed
          (start-Invariant id keyed is_node) (omega (arith, fewer id [] is_node refl)) in
      (found, e, kept id (elem-one id), finding)

  -- In a store that keeps each node under its own key, the search for the subtree of a stored node
  -- ends within as many steps as there are nodes, even if parents form a cycle. It finds the node
  -- itself, no key twice, only keys of the store, and with a node all its children.
  pub collect_subtree_ids-total :
      (id : String)
      → IsKeyed key nodes
      → elem id (keys nodes) ≡ true
      → (found : List String) × (collect_subtree_ids nodes id ≡ some found)
        × (elem id found ≡ true)
        × Found found
  unfolding collect_subtree_ids
  collect_subtree_ids-total id keyed is_node =
      collect-first (length nodes) id keyed is_node
        (omega (arith, unseen-le-length [] (keys nodes), length-keys nodes))
