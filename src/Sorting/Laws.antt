-- ===== src/Sorting/Laws.antt =====
-- A sorted and compacted list depends only on the members.
use osvpy.Prelude.{
  ◌≡◌, refl, sym, ap, ap₂, subst, ◌∙◌, true, false, List, [], ◌∷◌, ◌||◌, arith, Bool-cases, inl,
  inr,
}
use osvpy.Maps.{Comparable}
use osvpy.Sorting.{Ordered, place, sort, compact_from, compact, member}

module _ {A : Type 0} ⦃o : Ordered A⦄ ⦃c : Comparable A⦄ where
  -- Each element is below the next, or equal to it.
  abbrev pub IsSortedFrom : A → List A → Type 0
  IsSortedFrom x [] = Unit
  IsSortedFrom x (y ∷ ys) = (o.less y x ≡ false) × IsSortedFrom y ys

  abbrev pub IsSorted : List A → Type 0
  IsSorted [] = Unit
  IsSorted (x ∷ xs) = IsSortedFrom x xs

  -- Each element is below the next.
  abbrev pub IsAscendingFrom : A → List A → Type 0
  IsAscendingFrom x [] = Unit
  IsAscendingFrom x (y ∷ ys) = (o.less x y ≡ true) × IsAscendingFrom y ys

  abbrev pub IsAscending : List A → Type 0
  IsAscending [] = Unit
  IsAscending (x ∷ xs) = IsAscendingFrom x xs

  less_asym : (a b : A) → o.less a b ≡ true → o.less b a ≡ false
  less_asym a b h = ground (arith, o.irrefl a, o.trans a b a)

  place-from :
      (x y : A) (ys : List A) → o.less x y ≡ false → IsSortedFrom y ys → IsSortedFrom y (place x ys)
  unfolding place
  place-from x y [] h s = (h, tt)
  place-from x y (z ∷ zs) h s = elim (Bool-cases (o.less z x)) [
    | inl e ↦ rw e (s.0, place-from x z zs (less_asym z x e) s.1)
    | inr e ↦ rw e (h, (e, s.1))
  ]

  pub place-IsSorted : (x : A) (ys : List A) → IsSorted ys → IsSorted (place x ys)
  unfolding place
  place-IsSorted x [] s = tt
  place-IsSorted x (y ∷ ys) s = elim (Bool-cases (o.less y x)) [
    | inl e ↦ rw e (place-from x y ys (less_asym y x e) s)
    | inr e ↦ rw e (e, s)
  ]

  pub sort-IsSorted : (xs : List A) → IsSorted (sort xs)
  unfolding sort
  sort-IsSorted [] = tt
  sort-IsSorted (x ∷ xs) = place-IsSorted x (sort xs) (sort-IsSorted xs)

  pub member-place : (a x : A) (ys : List A) → member a (place x ys) ≡ (c.eq x a || member a ys)
  unfolding place member
  member-place a x [] = refl
  member-place a x (y ∷ ys) = ground (arith, member-place a x ys)

  member-sort : (a : A) (xs : List A) → member a (sort xs) ≡ member a xs
  unfolding sort member
  member-sort a [] = refl
  member-sort a (x ∷ xs) = member-place a x (sort xs) ∙ ap (λ b. c.eq x a || b) (member-sort a xs)

  compact_from-ascends :
      (x : A) (xs : List A) → IsSortedFrom x xs → IsAscendingFrom x (compact_from x xs)
  unfolding compact_from
  compact_from-ascends x [] s = tt
  compact_from-ascends x (y ∷ ys) s = elim (Bool-cases (c.eq x y)) [
    | inl e ↦
        let same : y ≡ x = sym ((c.eq_iff x y).0 e) in
        rw e
          (subst (λ z. IsAscendingFrom z (compact_from y ys)) same (compact_from-ascends y ys s.1))
    | inr e ↦
        let up : o.less x y ≡ true = ground (arith, s.0, o.total x y, c.eq_iff x y) in
        rw e (up, compact_from-ascends y ys s.1)
  ]

  pub compact-IsAscending : (xs : List A) → IsSorted xs → IsAscending (compact xs)
  unfolding compact
  compact-IsAscending [] s = tt
  compact-IsAscending (x ∷ xs) s = compact_from-ascends x xs s

  member-compact_from :
      (a x : A) (xs : List A)
      → (c.eq x a || member a (compact_from x xs)) ≡ (c.eq x a || member a xs)
  unfolding compact_from member
  member-compact_from a x [] = refl
  member-compact_from a x (y ∷ ys) = ground (arith, member-compact_from a y ys, c.eq_iff x y)

  pub member-compact : (a : A) (xs : List A) → member a (compact xs) ≡ member a xs
  unfolding compact member
  member-compact a [] = refl
  member-compact a (x ∷ xs) = member-compact_from a x xs

  ascends-below :
      (x a : A) (xs : List A) → IsAscendingFrom x xs → member a xs ≡ true → o.less x a ≡ true
  unfolding member
  ascends-below x a [] s e = absurd (ground arith)
  ascends-below x a (y ∷ ys) s e = elim (Bool-cases (c.eq y a)) [
    | inl h ↦ let same : y ≡ a = (c.eq_iff y a).0 h in rw (← same) (s.0)
    | inr h ↦ o.trans x y a s.0 (ascends-below y a ys s.1 (ground arith))
  ]

  IsAscending-tail : (x : A) (xs : List A) → IsAscendingFrom x xs → IsAscending xs
  IsAscending-tail x [] s = tt
  IsAscending-tail x (y ∷ ys) s = s.1

  abbrev pub SameMembers : List A → List A → Type 0
  SameMembers xs ys = (a : A) → member a xs ≡ member a ys

  same_head :
      (x y : A) (xs ys : List A)
      → IsAscendingFrom x xs
      → IsAscendingFrom y ys
      → SameMembers (x ∷ xs) (y ∷ ys)
      → x ≡ y
  unfolding member
  same_head x y xs ys s t h = elim (Bool-cases (c.eq x y)) [
    | inl e ↦ (c.eq_iff x y).0 e
    | inr e ↦
        let up = ascends-below x y xs s (ground (arith, h y, c.eq_iff y y)) in
        let down =
          ascends-below y x ys t (ground (arith, h x, c.eq_iff x x, c.eq_iff y x, c.eq_iff x y)) in
        absurd (ground (arith, less_asym x y up))
  ]

  same_tail :
      (x : A) (xs ys : List A)
      → IsAscendingFrom x xs
      → IsAscendingFrom x ys
      → SameMembers (x ∷ xs) (x ∷ ys)
      → SameMembers xs ys
  unfolding member
  same_tail x xs ys s t h a =
      ground (arith, h a, c.eq_iff x a, ascends-below x a xs s, ascends-below x a ys t, o.irrefl x)

  -- An ascending list is determined by its members.
  pub ascending_unique :
      (xs ys : List A) → IsAscending xs → IsAscending ys → SameMembers xs ys → xs ≡ ys
  unfolding member
  ascending_unique [] [] s t h = refl
  ascending_unique [] (y ∷ ys) s t h = absurd (ground (arith, h y, c.eq_iff y y))
  ascending_unique (x ∷ xs) [] s t h = absurd (ground (arith, h x, c.eq_iff x x))
  ascending_unique (x ∷ xs) (y ∷ ys) s t h =
      let head = same_head x y xs ys s t h in
      ap₂ ◌∷◌ head (
        ascending_unique xs ys (IsAscending-tail x xs s) (IsAscending-tail y ys t) (
          same_tail x xs ys s (rw head t)
            (λ a. h a ∙ ap (λ z. c.eq z a || member a ys) (sym head))))

  -- The canonical list of the members of a list.
  pub compact-sort :
      (xs : List A)
      → IsAscending (compact (sort xs)) × ((a : A) → member a (compact (sort xs)) ≡ member a xs)
  compact-sort xs = (
    compact-IsAscending (sort xs) (sort-IsSorted xs),
    λ a. member-compact a (sort xs) ∙ member-sort a xs,
  )
