-- ===== src/AgentGraph/Levels.antt =====
-- swarmline/multi_agent/graph_store.py: the breadth-first search for the subtree of a node.
use mathlib.Core.Path.{subst}
use swarmline.Base.{
  String, Bool, true, false, not, ◌&&◌, Option, none, some, List, [], ◌∷◌, ◌==◌, ◌≡◌, refl, sym, ap,
  ◌∙◌, arith, Bool-cases, inl, inr, eq_iff, eq_refl, elem, Distinct, if◌then◌else◌,
}
use swarmline.Base.Dict.{Dict, get, keys}
use swarmline.Base.Keyed.{IsKeyed}
use swarmline.Governance.{AgentNode}
use swarmline.AgentGraph.{is_at, new_children}

is_at-some : (parent : Option String) (p : String) → is_at parent p ≡ true → parent ≡ some p
is_at-some none p h = absurd cc
is_at-some (some q) p h = ap some ((eq_iff q p).0 h)

both_true : (a b : Bool) → (a && not b) ≡ true → (a ≡ true) × (b ≡ false)
both_true a b h = (ground arith, ground arith)

kept :
    (c : Bool) (k j : String) (rest : List String)
    → elem k (if c then j ∷ rest else rest) ≡ true
    → elem k rest ≡ false
    → c ≡ true
kept true k j rest h gone = refl
kept false k j rest h gone = absurd cc

passed :
    (c : Bool) (k j : String) (rest : List String)
    → elem k (if c then j ∷ rest else rest) ≡ true
    → (j == k) ≡ false
    → elem k rest ≡ true
passed true k j rest h other = ground arith
passed false k j rest h other = h

dropped :
    (c : Bool) (k j : String) (rest : List String)
    → elem k rest ≡ true
    → elem k (if c then j ∷ rest else rest) ≡ true
dropped true k j rest h = ground arith
dropped false k j rest h = h

pub false_of : (b : Bool) → ¬ (b ≡ true) → b ≡ false
false_of true h = absurd (h refl)
false_of false h = refl

module _ {Any : Type 0} where
  abbrev pub link : Option (AgentNode Any) → Option String
  link none = none
  link (some n) = n.parent_id

  -- The parent of a key.
  abbrev pub parent_in : Dict (AgentNode Any) → String → Option String
  parent_in nodes k = link (get k nodes)

  abbrev pub key : AgentNode Any → String
  key n = n.id

  pub new_children-key :
      (k p : String) (nodes : Dict (AgentNode Any)) (result : List String)
      → IsKeyed key nodes
      → elem k (new_children nodes p result) ≡ true
      → elem k (keys nodes) ≡ true
  unfolding new_children keys
  new_children-key k p [] result keyed h = h
  new_children-key k p ((j, n) ∷ nodes) result keyed h =
      ground (arith, h, keyed.0, new_children-key k p nodes result keyed.2)

  -- What the search adds for a node are its children that are not in the result.
  pub new_children-parent :
      (k p : String) (nodes : Dict (AgentNode Any)) (result : List String)
      → IsKeyed key nodes
      → elem k (new_children nodes p result) ≡ true
      → (parent_in nodes k ≡ some p) × (elem k result ≡ false)
  unfolding new_children get keys
  new_children-parent k p [] result keyed h = absurd cc
  new_children-parent k p ((j, n) ∷ nodes) result keyed h = elim (Bool-cases (j == k)) [
    | inl same ↦
        let it : j ≡ k = (eq_iff j k).0 same in
        let no_key : elem k (keys nodes) ≡ false =
          subst (λ (i : String). elem i (keys nodes) ≡ false) it keyed.1 in
        let gone : elem k (new_children nodes p result) ≡ false =
          false_of _ (λ m. cc (new_children-key k p nodes result keyed.2 m, no_key)) in
        let (at, new) =
          both_true (is_at n.parent_id p) (elem n.id result) (kept _ k n.id _ h gone) in
        (
          rw (get, same) (is_at-some n.parent_id p at),
          subst (λ (i : String). elem i result ≡ false) (keyed.0 ∙ it) new,
        )
    | inr other ↦
        let different : (n.id == k) ≡ false = rw keyed.0 other in
        rw (get, other)
          (new_children-parent k p nodes result keyed.2 (passed _ k n.id _ h different))
  ]

  pub new_children_complete :
      (k p : String) (nodes : Dict (AgentNode Any)) (result : List String)
      → IsKeyed key nodes
      → parent_in nodes k ≡ some p
      → elem k result ≡ false
      → elem k (new_children nodes p result) ≡ true
  unfolding new_children get
  new_children_complete k p [] result keyed h new = absurd cc
  new_children_complete k p ((j, n) ∷ nodes) result keyed h new = elim (Bool-cases (j == k)) [
    | inl same ↦
        let it : n.id ≡ k = keyed.0 ∙ (eq_iff j k).0 same in
        let at : n.parent_id ≡ some p = rw (get, same) at h in
        rw (new_children, at, eq_refl p, it, new, eq_refl k) refl
    | inr other ↦
        dropped _ k n.id _
          (new_children_complete k p nodes result keyed.2 (rw (get, other) at h) new)
  ]

  pub new_children-Distinct :
      (p : String) (nodes : Dict (AgentNode Any)) (result : List String)
      → IsKeyed key nodes
      → Distinct (new_children nodes p result)
  unfolding new_children keys
  new_children-Distinct p [] result keyed = tt
  new_children-Distinct p ((j, n) ∷ nodes) result keyed =
      let no_key : elem n.id (keys nodes) ≡ false =
        subst (λ (i : String). elem i (keys nodes) ≡ false) (sym keyed.0) keyed.1 in
      let gone : elem n.id (new_children nodes p result) ≡ false =
        false_of _ (λ m. cc (new_children-key n.id p nodes result keyed.2 m, no_key)) in
      elim (Bool-cases (is_at n.parent_id p && not (elem n.id result))) [
        | inl taken ↦ rw (new_children, taken) (gone, new_children-Distinct p nodes result keyed.2)
        | inr passed_over ↦
            rw (new_children, passed_over) (new_children-Distinct p nodes result keyed.2)
      ]
