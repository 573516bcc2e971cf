-- ===== src/Index/Ordering.antt =====
-- The sorting of one key's values by `makeIndex` (go/indexes.go), as a list.
use osvpy.Prelude.{
  ℕ, suc, ◌+◌, ◌≡◌, refl, sym, ap, ◌∙◌, List, [], ◌∷◌, length, set, get_elem?, true, false, ltb,
  arith, ◌||◌,
}
use osvpy.Maps.{nat_comparable}
use osvpy.Sorting.{Ordered, place, sort, compact, member}
use osvpy.Sorting.Laws.{
  IsSorted, IsSortedFrom, place-IsSorted, member-place, compact-IsAscending, member-compact,
  compact-sort, ascending_unique,
}
use osvpy.Slabs.{uint32_zero}

pub ltb_irrefl : (a : ℕ) → ltb a a ≡ false
ltb_irrefl a = ground arith

pub ltb_trans : (a b c : ℕ) → ltb a b ≡ true → ltb b c ≡ true → ltb a c ≡ true
ltb_trans a b c h k = ground arith

pub ltb_total : (a b : ℕ) → ltb a b ≡ false → ltb b a ≡ false → a ≡ b
ltb_total a b h k = ground arith

instance abbrev pub ascending : Ordered ℕ
ascending = record { less = ltb; irrefl = ltb_irrefl; trans = ltb_trans; total = ltb_total }

abbrev pub descending : Ordered ℕ
descending = record {
  less = λ a b. ltb b a;
  irrefl = ltb_irrefl;
  trans = λ a b c h k. ltb_trans c b a k h;
  total = λ a b h k. ltb_total a b k h;
}

-- A value takes its place among those before it, the last first.
abbrev pub sunk : ℕ → List ℕ → List ℕ
sunk x rs = place ⦃o = descending⦄ x rs

unfoldable pub reverse_onto : List ℕ → List ℕ → List ℕ
reverse_onto [] l = l
reverse_onto (x ∷ rs) l = reverse_onto rs (x ∷ l)

unfoldable pub inserted : List ℕ → List ℕ → List ℕ
inserted rs [] = rs
inserted rs (x ∷ xs) = inserted (sunk x rs) xs

-- What the window holds in the end.
unfoldable pub ordered : List ℕ → List ℕ
ordered vs = reverse_onto (inserted [] vs) []

pub get_elem?-reverse_onto :
    (rs l : List ℕ) (i : ℕ) → get_elem? (reverse_onto rs l) (length rs + i) ≡ get_elem? l i
unfolding reverse_onto
get_elem?-reverse_onto [] l i = ap (get_elem? l) (omega arith)
get_elem?-reverse_onto (x ∷ rs) l i =
    ap (get_elem? (reverse_onto rs (x ∷ l))) (omega arith)
    ∙ get_elem?-reverse_onto rs (x ∷ l) (suc i)

pub set-reverse_onto :
    (rs l : List ℕ) (i v : ℕ)
    → set (reverse_onto rs l) (length rs + i) v ≡ reverse_onto rs (set l i v)
unfolding reverse_onto
set-reverse_onto [] l i v = ap (λ k. set l k v) (omega arith)
set-reverse_onto (x ∷ rs) l i v =
    ap (λ k. set (reverse_onto rs (x ∷ l)) k v) (omega arith)
    ∙ set-reverse_onto rs (x ∷ l) (suc i) v

pub length-reverse_onto : (rs l : List ℕ) → length (reverse_onto rs l) ≡ length rs + length l
unfolding reverse_onto
length-reverse_onto [] l = omega arith
length-reverse_onto (x ∷ rs) l = omega (arith, length-reverse_onto rs (x ∷ l))

pub length-sunk : (x : ℕ) (rs : List ℕ) → length (sunk x rs) ≡ suc (length rs)
unfolding place
length-sunk x [] = refl
length-sunk x (y ∷ rs) = ground (arith, length-sunk x rs)

length-inserted : (rs vs : List ℕ) → length (inserted rs vs) ≡ length rs + length vs
unfolding inserted
length-inserted rs [] = omega arith
length-inserted rs (x ∷ xs) = omega (arith, length-inserted (sunk x rs) xs, length-sunk x rs)

pub length-ordered : (vs : List ℕ) → length (ordered vs) ≡ length vs
unfolding ordered
length-ordered vs = omega (arith, length-reverse_onto (inserted [] vs) [], length-inserted [] vs)

inserted-IsSorted :
    (rs vs : List ℕ) → IsSorted ⦃o = descending⦄ rs → IsSorted ⦃o = descending⦄ (inserted rs vs)
unfolding inserted
inserted-IsSorted rs [] h = h
inserted-IsSorted rs (x ∷ xs) h =
    inserted-IsSorted (sunk x rs) xs (place-IsSorted ⦃o = descending⦄ x rs h)

reversed_from :
    (d : ℕ) (ds l : List ℕ)
    → IsSortedFrom ⦃o = descending⦄ d ds
    → IsSortedFrom ⦃o = ascending⦄ d l
    → IsSorted ⦃o = ascending⦄ (reverse_onto ds (d ∷ l))
unfolding reverse_onto
reversed_from d [] l h k = k
reversed_from d (e ∷ ds) l h k = reversed_from e ds (d ∷ l) h.1 (h.0, k)

reversed :
    (ds : List ℕ) → IsSorted ⦃o = descending⦄ ds → IsSorted ⦃o = ascending⦄ (reverse_onto ds [])
unfolding reverse_onto
reversed [] h = tt
reversed (d ∷ ds) h = reversed_from d ds [] h tt

ordered-IsSorted : (vs : List ℕ) → IsSorted ⦃o = ascending⦄ (ordered vs)
unfolding ordered
ordered-IsSorted vs = reversed (inserted [] vs) (inserted-IsSorted [] vs tt)

member-reverse_onto :
    (a : ℕ) (rs l : List ℕ) → member a (reverse_onto rs l) ≡ (member a rs || member a l)
unfolding reverse_onto member
member-reverse_onto a [] l = refl
member-reverse_onto a (x ∷ rs) l = ground (arith, member-reverse_onto a rs (x ∷ l))

member-inserted :
    (a : ℕ) (rs vs : List ℕ) → member a (inserted rs vs) ≡ (member a rs || member a vs)
unfolding inserted member
member-inserted a rs [] = ground arith
member-inserted a rs (x ∷ xs) =
    ground (arith, member-inserted a (sunk x rs) xs, member-place ⦃o = descending⦄ a x rs)

member-ordered : (a : ℕ) (vs : List ℕ) → member a (ordered vs) ≡ member a vs
unfolding ordered member
member-ordered a vs =
    ground (arith, member-reverse_onto a (inserted [] vs) [], member-inserted a [] vs)

-- Compaction leaves each value once, in ascending order.
pub compact-ordered : (vs : List ℕ) → compact (ordered vs) ≡ compact (sort vs)
compact-ordered vs =
    let (up, same) = compact-sort vs in
    ascending_unique (compact (ordered vs)) (compact (sort vs))
      (compact-IsAscending (ordered vs) (ordered-IsSorted vs)) up
      (λ a. member-compact a (ordered vs) ∙ member-ordered a vs ∙ sym (same a))
