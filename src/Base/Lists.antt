-- ===== src/Base/Lists.antt =====
-- Lists measured and searched by native numbers, predicates by recursion, and `Map` and `Set` of
-- the source over number keys.
pub mod Sort
pub mod Take
use Prim.Native.Nat.{ℕ, suc}
use mathlib.Core.Path.{◌≡◌, refl}
use mathlib.Core.Logic.{◌⊎◌, inl, inr}
use mathlib.Core.Bool.{Bool, true, false, not, ◌&&◌, ◌||◌}
use mathlib.Core.Option.{Option, none, some}
use mathlib.Core.List.{List, [], ◌∷◌}
use native.Mathlib.Omega.{arith}
use ai_agent_runner.Base.Tests.{nat_beq, if◌then◌else◌}

module _ {ℓ} {A : Type ℓ} where
  abbrev pub length : List A → ℕ
  length [] = 0
  length (x ∷ xs) = suc (length xs)

  abbrev pub all : (A → Bool) → List A → Bool
  all p [] = true
  all p (x ∷ xs) = p x && all p xs

  abbrev pub any : (A → Bool) → List A → Bool
  any p [] = false
  any p (x ∷ xs) = p x || any p xs

  abbrev pub keep : (A → Bool) → List A → List A
  keep p [] = []
  keep p (x ∷ xs) = let rest = keep p xs in if p x then x ∷ rest else rest

  abbrev pub head_of : List A → Option A
  head_of [] = none
  head_of (x ∷ xs) = some x

abbrev pub All {ℓ κ} : {A : Type ℓ} → (A → Type κ) → List A → Type κ
All P [] = Unit
All P (x ∷ xs) = P x × All P xs

-- `xs.includes(x)` and `set.has(x)`.
abbrev pub includes : List ℕ → ℕ → Bool
includes xs x = any (nat_beq x) xs

-- `new Set(xs).size === xs.length`.
abbrev pub distinct : List ℕ → Bool
distinct [] = true
distinct (x ∷ xs) = not (includes xs x) && distinct xs

-- `new Map(entries).get(key)`: a later entry replaces an earlier one.
abbrev pub map_get {ℓ} : {V : Type ℓ} → List (ℕ × V) → ℕ → Option V
map_get [] key = none
map_get ((k, v) ∷ rest) key = elim (map_get rest key) [
  | some w ↦ some w
  | none ↦ if nat_beq k key then some v else none
]

-- Membership by recursion.
abbrev pub In : {A : Type 0} → A → List A → Type 0
In a [] = ⊥
In a (x ∷ xs) = (a ≡ x) ⊎ In a xs

abbrev pub keys_of {ℓ} : {V : Type ℓ} → List (ℕ × V) → List ℕ
keys_of [] = []
keys_of ((k, v) ∷ rest) = k ∷ keys_of rest

module _ {V : Type 0} where
  map_get-absent : (m : List (ℕ × V)) (k : ℕ) → includes (keys_of m) k ≡ false → map_get m k ≡ none
  map_get-absent [] k h = refl
  map_get-absent ((j, v) ∷ m) k h = ground (arith, map_get-absent m k)

  includes_of_In : (m : List (ℕ × V)) (k : ℕ) (v : V) → In (k, v) m → includes (keys_of m) k ≡ true
  includes_of_In [] k v h = elim h [ ]
  includes_of_In ((j, w) ∷ m) k v (inl e) = ground arith
  includes_of_In ((j, w) ∷ m) k v (inr h) = ground (arith, includes_of_In m k v h)

  -- With distinct keys every entry is found.
  pub map_get_of_In :
      (m : List (ℕ × V)) (k : ℕ) (v : V)
      → distinct (keys_of m) ≡ true
      → In (k, v) m
      → map_get m k ≡ some v
  map_get_of_In [] k v d h = elim h [ ]
  map_get_of_In ((j, w) ∷ m) k v d (inl e) = ground (arith, map_get-absent m j)
  map_get_of_In ((j, w) ∷ m) k v d (inr h) =
      ground (arith, map_get_of_In m k v, h, includes_of_In m k v h)
