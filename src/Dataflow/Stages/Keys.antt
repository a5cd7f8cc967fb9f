-- ===== src/Dataflow/Stages/Keys.antt =====
-- swarmline/pipeline/stages/fanout_stage.py: the deduplicated outputs of the items.
use swarmline.Base.{
  String, true, false, none, List, [], ◌∷◌, ◌≡◌, refl, ap, ◌⊎◌, arith, Bool-cases, inl, inr, elem,
  Distinct, eq_iff, eq_refl, take,
}
use swarmline.Dataflow.{raised}
use swarmline.Dataflow.Stages.{Answer, answers, raises, Answer-cases}
use swarmline.Dataflow.Stages.FanOut.{
  FanOutStage, skip_item, deduplicated, put_first, dedup, flatten_with, successes, combined,
  finished, run_fanout_stage,
}

-- Some entries of a list, in their order.
pub data Subsequence (A : Type 0) : List A → List A → Type 0 where
  ended : Subsequence A [] []
  kept : {x : A} {xs ys : List A} → Subsequence A xs ys → Subsequence A (x ∷ xs) (x ∷ ys)
  left_out : {y : A} {xs ys : List A} → Subsequence A xs ys → Subsequence A xs (y ∷ ys)

abbrev pub elements_of : {Element : Type 0} → List (Element × String) → List Element
elements_of [] = []
elements_of ((e, k) ∷ pairs) = e ∷ elements_of pairs

abbrev pub keys_of : {Element : Type 0} → List (Element × String) → List String
keys_of [] = []
keys_of ((e, k) ∷ pairs) = k ∷ keys_of pairs

-- Every element is read and has a key: the elements with their keys.
pub data Reads {Element : Type 0} (key : Element → Answer String)
    : List (Answer Element) → List (Element × String) → Type 0 where
  no_more : Reads key [] []
  read :
      {e : Element} {k : String} {xs : List (Answer Element)} {pairs : List (Element × String)}
      → key e ≡ answers k
      → Reads key xs pairs
      → Reads key (answers e ∷ xs) ((e, k) ∷ pairs)

-- The first exception, of the iteration or of the key.
pub data Breaks {Element : Type 0} (key : Element → Answer String)
    : List (Answer Element) → String → Type 0 where
  no_element : {m : String} {xs : List (Answer Element)} → Breaks key (raises m ∷ xs) m
  no_key :
      {e : Element} {m : String} {xs : List (Answer Element)}
      → key e ≡ raises m
      → Breaks key (answers e ∷ xs) m
  breaks_later :
      {e : Element} {k m : String} {xs : List (Answer Element)}
      → key e ≡ answers k
      → Breaks key xs m
      → Breaks key (answers e ∷ xs) m

-- What the deduplication gives when the keys of `seen` are behind it.
data Deduped {Element : Type 0} (key : Element → Answer String) (seen : List String)
    (xs : List (Answer Element)) (r : Answer (List Element)) : Type 0 where
  broke : (m : String) → Breaks key xs m → r ≡ raises m → Deduped key seen xs r
  chose :
      (pairs chosen : List (Element × String))
      → Reads key xs pairs
      → Subsequence (Element × String) chosen pairs
      → Distinct (keys_of chosen)
      → ((j : String) → elem j seen ≡ true → elem j (keys_of chosen) ≡ false)
      → ((j : String) → elem j seen ≡ false → elem j (keys_of chosen) ≡ elem j (keys_of pairs))
      → r ≡ answers (elements_of chosen)
      → Deduped key seen xs r

module _ {Element : Type 0} (key : Element → Answer String) where
  old_key :
      {e : Element} {k : String} {seen : List String} {xs : List (Answer Element)}
      {r : Answer (List Element)}
      → key e ≡ answers k
      → elem k seen ≡ true
      → Deduped key seen xs r
      → Deduped key seen (answers e ∷ xs) r
  old_key found old (broke m b same) = broke m (breaks_later found b) same
  old_key {e} {k} found old (chose pairs chosen reads sub distinct unseen covers same) =
      chose ((e, k) ∷ pairs) chosen (read found reads) (left_out sub) distinct unseen
        (λ j fresh. ground (arith, covers j fresh, eq_iff k j, old, fresh)) same

  new_key :
      {e : Element} {k : String} {seen : List String} {xs : List (Answer Element)}
      {r : Answer (List Element)}
      → key e ≡ answers k
      → elem k seen ≡ false
      → Deduped key (k ∷ seen) xs r
      → Deduped key seen (answers e ∷ xs) (put_first e r)
  new_key {e} found fresh (broke m b same) = broke m (breaks_later found b) (ap (put_first e) same)
  new_key {e} {k} found fresh (chose pairs chosen reads sub distinct unseen covers same) =
      chose ((e, k) ∷ pairs) ((e, k) ∷ chosen) (read found reads) (kept sub)
        (unseen k (rw (eq_refl k) refl), distinct)
        (λ j old. ground (arith, unseen j, old, eq_iff k j, fresh))
        (λ j other. ground (arith, covers j, other)) (ap (put_first e) same)

  dedup-Deduped :
      (seen : List String) (xs : List (Answer Element)) → Deduped key seen xs (dedup key seen xs)
  unfolding dedup
  dedup-Deduped seen [] = chose [] [] no_more ended tt (λ j old. refl) (λ j fresh. refl) refl
  dedup-Deduped seen (raises m ∷ xs) = broke m no_element refl
  dedup-Deduped seen (answers e ∷ xs) = elim (Answer-cases (key e)) [
    | inl (m, failed) ↦ rw (dedup, failed) (broke m (no_key failed) refl)
    | inr (k, found) ↦ elim (Bool-cases (elem k seen)) [
      | inl old ↦ rw (dedup, found, old) (old_key found old (dedup-Deduped seen xs))
      | inr fresh ↦ rw (dedup, found, fresh) (new_key found fresh (dedup-Deduped (k ∷ seen) xs))
    ]
  ]

module _ {Item Value Context Output Element : Type 0} (s : FanOutStage Value Output Element)
    (elements : Output → List (Answer Element)) (key : Element → Answer String)
    (of_list : List Element → Value) where
  -- With a deduplication key and no joiner, under `skip`, the elements are those in the outputs of
  -- the calls that succeed, among the first `max_n` items, in their order. If the iteration of an
  -- output or a key raises, the stage raises the first such exception. Otherwise it ends with an
  -- outcome, whose value is made of some of the elements in their order: no two of them have the
  -- same key, and their keys are those of all elements.
  pub run_fanout_stage-dedup :
      (items : List Item) (ran : Item → Answer Output) (ctx : Context)
      → s.combine ≡ deduplicated elements key of_list
      → s.joiner ≡ none
      → s.on_item_error ≡ skip_item
      → ((m : String) × Breaks key (flatten_with elements (successes ran (take s.max_n items))) m
          × (run_fanout_stage s (answers items) ran ctx ≡ (raised m, ctx, [])))
        ⊎ ((pairs : List (Element × String)) × (chosen : List (Element × String)) × Reads key
              (flatten_with elements (successes ran (take s.max_n items)))
              pairs
            × Subsequence (Element × String) chosen pairs
            × Distinct (keys_of chosen)
            × ((k : String) → elem k (keys_of chosen) ≡ elem k (keys_of pairs))
            × (run_fanout_stage s (answers items) ran ctx
                ≡ (finished (answers (of_list (elements_of chosen))), ctx, [])))
  unfolding run_fanout_stage combined
  run_fanout_stage-dedup items ran ctx keyed unjoined skips =
      elim (dedup-Deduped key [] (flatten_with elements (successes ran (take s.max_n items)))) [
        | broke m b same ↦ inl (m, b, rw (run_fanout_stage, skips, unjoined, keyed, same) refl)
        | chose pairs chosen reads sub distinct unseen covers same ↦ inr (
          pairs,
          chosen,
          reads,
          sub,
          distinct,
          λ k. covers k refl,
          rw (run_fanout_stage, skips, unjoined, keyed, same) refl,
        )
      ]
