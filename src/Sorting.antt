-- ===== src/Sorting.antt =====
-- `slices.Sort`, `slices.SortFunc` and `slices.Compact` where values that compare equal are equal,
-- so that the order of the result does not depend on the algorithm.
pub mod Laws
use osvpy.Prelude.{ℕ, ◌≡◌, Bool, true, false, List, [], ◌∷◌, if◌then◌else◌, ◌||◌}
use osvpy.Maps.{Comparable, nat_comparable, list_comparable}
use osvpy.Text.{Text, text_ltb, text_ltb_irrefl, text_ltb_trans, text_ltb_total}

-- A strict total order, by its test.
pub record Ordered (A : Type 0) : Type 0 where
  pub less : A → A → Bool
  pub irrefl : (a : A) → less a a ≡ false
  pub trans : (a b c : A) → less a b ≡ true → less b c ≡ true → less a c ≡ true
  pub total : (a b : A) → less a b ≡ false → less b a ≡ false → a ≡ b

instance abbrev pub text_ordered : Ordered Text
text_ordered = record {
  less = text_ltb;
  irrefl = text_ltb_irrefl;
  trans = text_ltb_trans;
  total = text_ltb_total;
}

module _ {A : Type 0} ⦃o : Ordered A⦄ where
  unfoldable pub place : A → List A → List A
  place x [] = x ∷ []
  place x (y ∷ ys) = let rest = place x ys in if o.less y x then y ∷ rest else x ∷ y ∷ ys

  unfoldable pub sort : List A → List A
  unfolding place
  sort [] = []
  sort (x ∷ xs) = place x (sort xs)

-- `slices.SortFunc` by a test, where elements that are equal by it do not occur together.
module _ {A : Type 0} (less : A → A → Bool) where
  unfoldable pub place_by : A → List A → List A
  place_by x [] = x ∷ []
  place_by x (y ∷ ys) = let rest = place_by x ys in if less y x then y ∷ rest else x ∷ y ∷ ys

  unfoldable pub sort_by : List A → List A
  unfolding place_by
  sort_by [] = []
  sort_by (x ∷ xs) = place_by x (sort_by xs)

module _ {A : Type 0} ⦃c : Comparable A⦄ where
  -- The elements behind `x` that start a new run.
  unfoldable pub compact_from : A → List A → List A
  compact_from x [] = []
  compact_from x (y ∷ ys) = let rest = compact_from y ys in if c.eq x y then rest else y ∷ rest

  unfoldable pub compact : List A → List A
  unfolding compact_from
  compact [] = []
  compact (x ∷ xs) = x ∷ compact_from x xs

  unfoldable pub member : A → List A → Bool
  member a [] = false
  member a (x ∷ xs) = c.eq x a || member a xs
