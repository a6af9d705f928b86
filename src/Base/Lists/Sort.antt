-- ===== src/Base/Lists/Sort.antt =====
-- A stable sort by a Boolean order, and what it keeps.
use mathlib.Core.Path.{◌≡◌, refl}
use mathlib.Core.Logic.{inl, inr}
use mathlib.Core.Bool.{Bool, true, false}
use mathlib.Core.List.{List, [], ◌∷◌}
use ai_agent_runner.Base.Tests.{if◌then◌else◌, Bool-cases}
use ai_agent_runner.Base.Lists.{All}

module _ {A : Type 0} (le : A → A → Bool) where
  abbrev pub insert : A → List A → List A
  insert x [] = x ∷ []
  insert x (y ∷ ys) = let rest = insert x ys in if le x y then x ∷ y ∷ ys else y ∷ rest

  -- `Array.prototype.sort`, which is stable.
  abbrev pub sort : List A → List A
  sort [] = []
  sort (x ∷ xs) = insert x (sort xs)

  -- Neighbours are in order.
  abbrev pub InOrder : List A → Type 0
  InOrder [] = Unit
  InOrder (x ∷ []) = Unit
  InOrder (x ∷ y ∷ rest) = (le x y ≡ true) × InOrder (y ∷ rest)

  -- A list that is in order is left as it is.
  pub sort_of_InOrder : (xs : List A) → InOrder xs → sort xs ≡ xs
  sort_of_InOrder [] h = refl
  sort_of_InOrder (x ∷ []) h = refl
  sort_of_InOrder (x ∷ y ∷ rest) (q, h) = rw (sort_of_InOrder (y ∷ rest) h, q) refl

  module _ (P : A → Type 0) where
    insert-All : (x : A) (ys : List A) → P x → All P ys → All P (insert x ys)
    insert-All x [] p h = (p, tt)
    insert-All x (y ∷ ys) p (q, h) = elim (Bool-cases (le x y)) [
      | inl e ↦ rw e (p, (q, h))
      | inr e ↦ rw e (q, insert-All x ys p h)
    ]

    pub sort-All : (xs : List A) → All P xs → All P (sort xs)
    sort-All [] h = tt
    sort-All (x ∷ xs) (p, h) = insert-All x (sort xs) p (sort-All xs h)

  module _ (total : (x y : A) → le x y ≡ false → le y x ≡ true) where
    insert_behind :
        (x y : A) (ys : List A)
        → le y x ≡ true
        → InOrder (y ∷ ys)
        → InOrder (insert x ys)
        → InOrder (y ∷ insert x ys)
    insert_behind x y [] h k r = (h, tt)
    insert_behind x y (z ∷ zs) h (k, ks) r = elim (Bool-cases (le x z)) [
      | inl q ↦ rw q (h, (q, ks))
      | inr q ↦ let r' : InOrder (z ∷ insert x zs) = rw q at r in rw q (k, r')
    ]

    insert-InOrder : (x : A) (ys : List A) → InOrder ys → InOrder (insert x ys)
    insert-InOrder x [] h = tt
    insert-InOrder x (y ∷ []) h = elim (Bool-cases (le x y)) [
      | inl q ↦ rw q (q, tt)
      | inr q ↦ rw q (total x y q, tt)
    ]
    insert-InOrder x (y ∷ z ∷ zs) (k, h) = elim (Bool-cases (le x y)) [
      | inl q ↦ rw q (q, (k, h))
      | inr q ↦ rw q (insert_behind x y (z ∷ zs) (total x y q) (k, h) (insert-InOrder x (z ∷ zs) h))
    ]

    pub sort-InOrder : (xs : List A) → InOrder (sort xs)
    sort-InOrder [] = tt
    sort-InOrder (x ∷ xs) = insert-InOrder x (sort xs) (sort-InOrder xs)

    -- Sorting twice is sorting once.
    pub sort-sort : (xs : List A) → sort (sort xs) ≡ sort xs
    sort-sort xs = sort_of_InOrder (sort xs) (sort-InOrder xs)
