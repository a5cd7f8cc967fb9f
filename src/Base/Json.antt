-- ===== src/Base/Json.antt =====
-- JSON-like values: what `dict[str, Any]` fields hold and what the serializers write. `Float` is the
-- type of numbers, which the program does not implement.
use Prim.Native.String.{String}
use mathlib.Core.Path.{◌≡◌, refl}
use mathlib.Core.Bool.{Bool}
use mathlib.Core.Option
use mathlib.Core.Option.{Option, none, some}
use mathlib.Core.List.{List, [], ◌∷◌}
use package.text.Mathlib.Text.{◌==◌}
use swarmline.Base.Tests.{if◌then◌else◌}

mutual
  pub data Json (Float : Type 0) : Type 0 where
    null : Json Float
    bool : Bool → Json Float
    num : Float → Json Float
    str : String → Json Float
    arr : Items Float → Json Float
    obj : Fields Float → Json Float

  pub data Items (Float : Type 0) : Type 0 where
    nil : Items Float
    cons : Json Float → Items Float → Items Float

  pub data Fields (Float : Type 0) : Type 0 where
    end : Fields Float
    field : String → Json Float → Fields Float → Fields Float

module _ {Float : Type 0} where
  -- `data.get(k)`
  unfoldable pub field_at : String → Fields Float → Option (Json Float)
  field_at k end = none
  field_at k (field j v fs) = if j == k then some v else field_at k fs

  -- `data[k]`, read as a value of a type; a missing key or a value of another type is `none`.
  abbrev pub read_field : {A : Type 0} → (Json Float → Option A) → Option (Json Float) → Option A
  read_field read none = none
  read_field read (some v) = read v

  -- `data.get(k, default)`
  abbrev pub read_or : {A : Type 0} → A → (Json Float → Option A) → Option (Json Float) → Option A
  read_or default read none = some default
  read_or default read (some v) = read v

  unfoldable pub to_text : Json Float → Option String
  to_text (str s) = some s
  to_text _ = none

  unfoldable pub to_bool : Json Float → Option Bool
  to_bool (bool b) = some b
  to_bool _ = none

  unfoldable pub to_num : Json Float → Option Float
  to_num (num x) = some x
  to_num _ = none

  unfoldable pub to_fields : Json Float → Option (Fields Float)
  to_fields (obj fs) = some fs
  to_fields _ = none

  -- `None` is written as `null`.
  unfoldable pub maybe_text : Option String → Json Float
  maybe_text none = null
  maybe_text (some s) = str s

  unfoldable pub to_maybe_text : Json Float → Option (Option String)
  to_maybe_text null = some none
  to_maybe_text (str s) = some (some s)
  to_maybe_text _ = none

  unfoldable pub maybe_num : Option Float → Json Float
  maybe_num none = null
  maybe_num (some x) = num x

  unfoldable pub to_maybe_num : Json Float → Option (Option Float)
  to_maybe_num null = some none
  to_maybe_num (num x) = some (some x)
  to_maybe_num _ = none

  unfoldable pub texts : List String → Items Float
  texts [] = nil
  texts (s ∷ ss) = cons (str s) (texts ss)

  unfoldable pub from_items : Items Float → Option (List String)
  from_items nil = some []
  from_items (cons (str s) xs) = Option.map (λ ss. s ∷ ss) (from_items xs)
  from_items (cons v xs) = none

  unfoldable pub to_texts : Json Float → Option (List String)
  unfolding from_items
  to_texts (arr xs) = from_items xs
  to_texts _ = none

module _ (Float : Type 0) where
  pub to_maybe_text-maybe_text :
      (o : Option String) → to_maybe_text (maybe_text {Float = Float} o) ≡ some o
  unfolding to_maybe_text maybe_text
  to_maybe_text-maybe_text none = refl
  to_maybe_text-maybe_text (some s) = refl

  pub to_maybe_num-maybe_num : (o : Option Float) → to_maybe_num (maybe_num o) ≡ some o
  unfolding to_maybe_num maybe_num
  to_maybe_num-maybe_num none = refl
  to_maybe_num-maybe_num (some x) = refl

  from_items-texts : (ss : List String) → from_items (texts {Float = Float} ss) ≡ some ss
  unfolding from_items texts
  from_items-texts [] = refl
  from_items-texts (s ∷ ss) = rw (from_items-texts ss) refl

  pub to_texts-texts : (ss : List String) → to_texts {Float = Float} (arr (texts ss)) ≡ some ss
  unfolding to_texts
  to_texts-texts ss = from_items-texts ss

pub ruleset json_laws = (to_maybe_text-maybe_text, to_maybe_num-maybe_num, to_texts-texts)

-- A chain of reads, each of which may fail.
infixl 5 ◌>>=◌
abbrev pub ◌>>=◌ : {A B : Type 0} → Option A → (A → Option B) → Option B
none >>= f = none
some a >>= f = f a
