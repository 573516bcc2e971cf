-- ===== src/Alias/Linking.antt =====
-- The link that `union` (go/store.go) writes, from one root to a preferred one.
use osvpy.Prelude.{refl, ℕ, ◌<◌, ◌≡◌, ◌≢◌, subst, length, some, arith, Bool-cases, if◌then◌else◌}
use osvpy.Prelude.{◌⊎◌, inl, inr, get_elem?, set, get_elem?-some_lt}
use native.Mathlib.Decide.{ℕ_discrete}
use osvpy.Text.{Text}
use osvpy.Maps.{nat_comparable, list_comparable}
use osvpy.Alias.{AliasState, preferred}
use osvpy.Alias.Order.{preferred_total}
use osvpy.Alias.Forest.{Better, RootOf, linked-IsForest, linked-RootOf, linked_root}
use osvpy.Alias.Groups.{IsGrouped}

-- Of two roots, the preferred one, and the other.
abbrev pub winner : Text → Text → ℕ → ℕ → ℕ
winner nc na c a = if preferred nc na then c else a

abbrev pub loser : Text → Text → ℕ → ℕ → ℕ
loser nc na c a = if preferred nc na then a else c

module _ (s : AliasState) (g : IsGrouped s) (a c : ℕ) (na nc : Text)
    (at_a : get_elem? s.names a ≡ some na) (at_c : get_elem? s.names c ≡ some nc)
    (root_a : get_elem? s.parent a ≡ some a) (root_c : get_elem? s.parent c ≡ some c) where
  abbrev pub w : ℕ
  w = winner nc na c a

  abbrev pub l : ℕ
  l = loser nc na c a

  -- Two names that are not the same differ, and one of them is preferred.
  wins : (w ≡ l) ⊎ Better s.names w l
  wins = elim (Bool-cases (preferred nc na)) [
    | inl e ↦ rw e (inr (record { better = nc; worse = na; at_p = at_c; at_i = at_a; order = e }))
    | inr e ↦ rw e (elim (Bool-cases (preferred na nc)) [
      | inl e' ↦ inr (record { better = na; worse = nc; at_p = at_a; at_i = at_c; order = e' })
      | inr e' ↦
          let same : nc ≡ na = preferred_total nc na e e' in
          inl (ground (arith, g.listed na a at_a, g.listed nc c at_c))
    ])
  ]

  root_w : get_elem? s.parent w ≡ some w
  root_w = elim (Bool-cases (preferred nc na)) [ inl e ↦ rw e root_c | inr e ↦ rw e root_a ]

  root_l : get_elem? s.parent l ≡ some l
  root_l = elim (Bool-cases (preferred nc na)) [ inl e ↦ rw e root_a | inr e ↦ rw e root_c ]

  abbrev pub linked : AliasState
  linked = record s { parent = set s.parent l w }

  pub linked-IsGrouped : IsGrouped linked
  linked-IsGrouped = record {
    forest = linked-IsForest s.names s.parent g.forest l w root_l root_w wins;
    known = g.known;
    listed = g.listed;
  }

  pub linked_top : get_elem? linked.parent w ≡ some w
  linked_top = linked_root s.names s.parent g.forest l w root_l root_w wins

  pub loser_inside : l < length s.parent
  loser_inside = get_elem?-some_lt s.parent l root_l

  -- A class moves to `w` as a whole, or stays.
  pub linked-RootOf_either :
      (q : ℕ)
      → ((j : ℕ) → RootOf s.parent j q → RootOf linked.parent j q)
        ⊎ ((j : ℕ) → RootOf s.parent j q → RootOf linked.parent j w)
  linked-RootOf_either q = elim (ℕ_discrete q l) [
    | yes e ↦ inr (λ j d. (linked-RootOf s.names s.parent g.forest l w root_l root_w wins d).0 e)
    | no e ↦ inl (λ j d. (linked-RootOf s.names s.parent g.forest l w root_l root_w wins d).1 e)
  ]

  -- Both classes have the root `w`.
  pub linked-RootOf_both :
      {j q : ℕ} → RootOf s.parent j q → (q ≡ a) ⊎ (q ≡ c) → RootOf linked.parent j w
  linked-RootOf_both {j} {q} d which =
      let (moved, kept) = linked-RootOf s.names s.parent g.forest l w root_l root_w wins d in
      elim (ℕ_discrete q l) [
        | yes e ↦ moved e
        | no e ↦ subst (λ x. RootOf linked.parent j x) (other e) (kept e)
      ]
    where
      other : q ≢ l → q ≡ w
      other = elim (Bool-cases (preferred nc na)) [
        | inl e ↦ rw e (λ ne. elim which [ inl x ↦ absurd (ne x) | inr x ↦ x ])
        | inr e ↦ rw e (λ ne. elim which [ inl x ↦ x | inr x ↦ absurd (ne x) ])
      ]

  -- Another class keeps its root.
  pub linked-RootOf_other :
      {j q : ℕ} → RootOf s.parent j q → q ≢ a → q ≢ c → RootOf linked.parent j q
  linked-RootOf_other {j} {q} d not_a not_c =
      (linked-RootOf s.names s.parent g.forest l w root_l root_w wins d).1 not_l
    where
      not_l : q ≢ l
      not_l = elim (Bool-cases (preferred nc na)) [ inl e ↦ rw e not_a | inr e ↦ rw e not_c ]

  pub winner_cases : (w ≡ a) ⊎ (w ≡ c)
  winner_cases = elim (Bool-cases (preferred nc na)) [
    | inl e ↦ rw e (inr refl)
    | inr e ↦ rw e (inl refl)
  ]
