-- ===== src/Alias/Forest.antt =====
-- The forest of parents, whose links go to preferred names, and what halving a path keeps.
use osvpy.Prelude.{ℕ, ◌<◌, ◌≡◌, ◌≢◌, sym, subst, ◌∙◌, List, length, some, arith, true}
use osvpy.Prelude.{
  ◌⊎◌, inl, inr, get_elem?, set, get_elem?-set_self, get_elem?-set_ne, get_elem?-some_lt,
  length-set,
}
use native.Mathlib.Decide.{ℕ_discrete}
use osvpy.Text.{Text}
use osvpy.Alias.{preferred}
use osvpy.Alias.Order.{preferred_trans}

-- Name `p` is preferred to name `i`.
pub record Better (names : List Text) (p i : ℕ) : Type 0 where
  pub better : Text
  pub worse : Text
  pub at_p : get_elem? names p ≡ some better
  pub at_i : get_elem? names i ≡ some worse
  pub order : preferred better worse ≡ true

pub Better-trans :
    {names : List Text} {p q i : ℕ} → Better names p q → Better names q i → Better names p i
Better-trans x y = record {
  better = x.better;
  worse = y.worse;
  at_p = x.at_p;
  at_i = y.at_i;
  order = preferred_trans x.better x.worse y.worse x.order (ground arith);
}

-- Every name has a parent, itself or a preferred one.
pub record IsForest (names : List Text) (parent : List ℕ) : Type 0 where
  pub size : length parent ≡ length names
  pub links : (i p : ℕ) → get_elem? parent i ≡ some p → (p ≡ i) ⊎ Better names p i

-- The root of `i`: where the links lead.
pub data RootOf (parent : List ℕ) : ℕ → ℕ → Type 0 where
  here : {i : ℕ} → get_elem? parent i ≡ some i → RootOf parent i i
  up : {i p r : ℕ} → get_elem? parent i ≡ some p → RootOf parent p r → RootOf parent i r

pub RootOf-root : {parent : List ℕ} {i r : ℕ} → RootOf parent i r → get_elem? parent r ≡ some r
RootOf-root (here e) = e
RootOf-root (up e d) = RootOf-root d

pub RootOf-step :
    {parent : List ℕ} {i q r : ℕ}
    → get_elem? parent i ≡ some q
    → RootOf parent i r
    → RootOf parent q r
RootOf-step {q = q} at (here {i = i} e) = let to : q ≡ i = ground arith in rw to (here e)
RootOf-step {q = q} at (up {p = p} e d) = let to : q ≡ p = ground arith in rw to d

-- `parent[i] = g` where `p` is the parent of `i`, not `i` itself, and `g` that of `p`.
module _ (names : List Text) (parent : List ℕ) (f : IsForest names parent) (i p g : ℕ)
    (at_i : get_elem? parent i ≡ some p) (at_p : get_elem? parent p ≡ some g) (ne : p ≢ i) where
  inside : i < length parent
  inside = get_elem?-some_lt parent i at_i

  pub halved_self : get_elem? (set parent i g) i ≡ some g
  halved_self = get_elem?-set_self parent i g inside

  pub climbs : Better names p i
  climbs = elim (f.links i p at_i) [ inl e ↦ absurd (ne e) | inr b ↦ b ]

  pub climbs_twice : Better names g i
  climbs_twice = elim (f.links p g at_p) [ inl e ↦ rw e climbs | inr b ↦ Better-trans b climbs ]

  pub halved-IsForest : IsForest names (set parent i g)
  halved-IsForest = record {
    size = length-set parent i g ∙ f.size;
    links = λ j q e. elim (ℕ_discrete i j) [
      | yes same ↦
          let to : q ≡ g = ground (arith, halved_self) in inr (rw (to, ← same) climbs_twice)
      | no other ↦ f.links j q (sym (get_elem?-set_ne parent i j g other) ∙ e)
    ];
  }

  -- Two links up from `i`, where the path is shortened.
  halved_above : {r : ℕ} → RootOf (set parent i g) p r → RootOf (set parent i g) g r
  halved_above d' = RootOf-step (get_elem?-set_ne parent i p g (λ e. ne (sym e)) ∙ at_p) d'

  -- No name changes its root.
  pub halved-RootOf : {j r : ℕ} → RootOf parent j r → RootOf (set parent i g) j r
  halved-RootOf (here {i = j} e) = elim (ℕ_discrete i j) [
    | yes same ↦ absurd (ne (ground arith))
    | no other ↦ here (get_elem?-set_ne parent i j g other ∙ e)
  ]
  halved-RootOf (up {i = j} {p = q} {r = r} e d) = elim (ℕ_discrete i j) [
    | no other ↦ up (get_elem?-set_ne parent i j g other ∙ e) (halved-RootOf d)
    | yes same ↦
        let to : q ≡ p = ground arith in
        rw (← same) (
          up halved_self
            (halved_above (subst (λ x. RootOf (set parent i g) x r) to (halved-RootOf d))))
  ]

-- `parent[c] = w` for two roots, where `w` is `c` itself or a preferred name.
module _ (names : List Text) (parent : List ℕ) (f : IsForest names parent) (c w : ℕ)
    (root_c : get_elem? parent c ≡ some c) (root_w : get_elem? parent w ≡ some w)
    (order : (w ≡ c) ⊎ Better names w c) where
  linked_self : get_elem? (set parent c w) c ≡ some w
  linked_self = get_elem?-set_self parent c w (get_elem?-some_lt parent c root_c)

  pub linked-IsForest : IsForest names (set parent c w)
  linked-IsForest = record {
    size = length-set parent c w ∙ f.size;
    links = λ j q e. elim (ℕ_discrete c j) [
      | yes same ↦ let to : q ≡ w = ground (arith, linked_self) in rw (to, ← same) order
      | no other ↦ f.links j q (sym (get_elem?-set_ne parent c j w other) ∙ e)
    ];
  }

  pub linked_root : get_elem? (set parent c w) w ≡ some w
  linked_root = elim (ℕ_discrete c w) [
    | yes same ↦ subst (λ x. get_elem? (set parent c w) x ≡ some w) same linked_self
    | no other ↦ get_elem?-set_ne parent c w w other ∙ root_w
  ]

  -- The class of `c` has the root `w`, and no other class changes its root.
  pub linked-RootOf :
      {j q : ℕ}
      → RootOf parent j q
      → (q ≡ c → RootOf (set parent c w) j w) × (q ≢ c → RootOf (set parent c w) j q)
  linked-RootOf (here {i = j} e) = (
    (λ same. rw same (up linked_self (here linked_root))),
    (λ other. here (get_elem?-set_ne parent c j w (λ e. other (sym e)) ∙ e)),
  )
  linked-RootOf (up {i = j} {p = p} {r = r} e d) = elim (ℕ_discrete c j) [
    | yes same ↦
        let to : p ≡ j = ground arith in
        subst (λ x. (r ≡ c → RootOf (set parent c w) x w) × (r ≢ c → RootOf (set parent c w) x r))
          to (linked-RootOf d)
    | no other ↦
        let step = get_elem?-set_ne parent c j w other ∙ e in
        (λ same. up step ((linked-RootOf d).0 same), λ ne. up step ((linked-RootOf d).1 ne))
  ]
