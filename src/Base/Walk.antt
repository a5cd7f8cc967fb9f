-- ===== src/Base/Walk.antt =====
-- Walks over keys that keep a set of visited keys: how many keys are left, which bounds the rounds.
use Prim.Native.Nat.{ℕ, suc, ◌≤◌, ◌<◌}
use Prim.Native.String.{String}
use mathlib.Core.Path.{◌≡◌, refl}
use mathlib.Core.Bool.{true, false}
use mathlib.Core.Option.{some}
use mathlib.Core.List.{List, [], ◌∷◌}
use native.Mathlib.Omega.{arith}
use text.Mathlib.Text.{◌==◌}
use text.Mathlib.TextEquality.{eq_iff}
use swarmline.Base.Tests.{if◌then◌else◌, Bool-cases}
use mathlib.Core.Logic.{inl, inr}
use swarmline.Base.Seq.{length, elem}
use swarmline.Base.Dict.{Dict, get, keys}

-- The number of keys that are not visited.
pub unseen : List String → List String → ℕ
unseen visited [] = 0
unseen visited (k ∷ ks) = let rest = unseen visited ks in if elem k visited then rest else suc rest

pub unseen-nil : (ks : List String) → unseen [] ks ≡ length ks
unfolding unseen
unseen-nil [] = refl
unseen-nil (k ∷ ks) = ground (arith, unseen-nil ks)

pub unseen-le-length : (visited ks : List String) → unseen visited ks ≤ length ks
unfolding unseen
unseen-le-length visited [] = omega arith
unseen-le-length visited (k ∷ ks) = ground (arith, unseen-le-length visited ks)

pub unseen-cons-le :
    (c : String) (visited ks : List String) → unseen (c ∷ visited) ks ≤ unseen visited ks
unfolding unseen
unseen-cons-le c visited [] = omega arith
unseen-cons-le c visited (k ∷ ks) = ground (arith, unseen-cons-le c visited ks)

-- A visit of a new key leaves fewer.
pub unseen-cons-lt :
    (c : String) (visited ks : List String)
    → elem c ks ≡ true
    → elem c visited ≡ false
    → unseen (c ∷ visited) ks < unseen visited ks
unfolding unseen
unseen-cons-lt c visited [] h new = absurd (cc)
unseen-cons-lt c visited (k ∷ ks) h new =
    ground (arith, unseen-cons-le c visited ks, unseen-cons-lt c visited ks, eq_iff k c, eq_iff c k)

-- A key under which a dictionary holds a value is one of its keys.
pub elem-keys {ℓ} :
    {V : Type ℓ} (k : String) (d : Dict V) {v : V} → get k d ≡ some v → elem k (keys d) ≡ true
unfolding get keys
elem-keys k [] {v} h = absurd (cc)
elem-keys k ((j, w) ∷ d) {v} h = elim (Bool-cases (j == k)) [
  | inl same ↦ rw same refl
  | inr other ↦ ground (arith, elem-keys k d {v = v})
]

pub unseen-same :
    (a b ks : List String) → ((k : String) → elem k a ≡ elem k b) → unseen a ks ≡ unseen b ks
unfolding unseen
unseen-same a b [] same = refl
unseen-same a b (k ∷ ks) same = rw (unseen, same k, unseen-same a b ks same) refl
