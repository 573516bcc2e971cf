-- ===== src/Alias/Classes.antt =====
-- The classes of names that have one root, before and after `union` (go/store.go) joins some.
use osvpy.Prelude.{
  ◌≢◌, Option-cases, ℕ, ◌≤◌, ◌<◌, ◌≡◌, sym, subst, List, [], ◌∷◌, length, some, none, arith,
}
use osvpy.Prelude.{◌⊎◌, inl, inr, get_elem?, get_elem?-some_lt, All}
use osvpy.Text.{Text}
use osvpy.Maps.{lookup, nat_comparable, list_comparable}
use osvpy.Alias.{AliasState}
use osvpy.Alias.Forest.{IsForest, RootOf, here, RootOf-root}
use osvpy.Alias.Groups.{IsGrouped, Interned}
use osvpy.Alias.Root.{a_root, RootOf-unique, RootOf-self}

-- A name is in the class of the root `w`.
abbrev pub Sits : AliasState → ℕ → Text → Type 0
Sits s w t = (i : ℕ) × (lookup t s.alias_id ≡ some i) × RootOf s.parent i w

-- What joining the class of `a` with others promises, with `w` the root of the new class.
pub record Joined (a : ℕ) (s : AliasState) (w : ℕ) (s' : AliasState) : Type 0 where
  pub grouped : IsGrouped s'
  pub top : get_elem? s'.parent w ≡ some w
  pub kept : (t : Text) (i : ℕ) → lookup t s.alias_id ≡ some i → lookup t s'.alias_id ≡ some i
  pub moves :
      (q : ℕ)
      → ((j : ℕ) → RootOf s.parent j q → RootOf s'.parent j q)
        ⊎ ((j : ℕ) → RootOf s.parent j q → RootOf s'.parent j w)
  pub joins : (j : ℕ) → RootOf s.parent j a → RootOf s'.parent j w
  pub new :
      (t : Text) (i : ℕ)
      → lookup t s'.alias_id ≡ some i
      → (lookup t s.alias_id ≡ some i) ⊎ Sits s' w t
  pub calm : s'.ctx ≡ none

-- The other classes are left alone: those that neither are that of `a` nor hold one of the names.
pub record Spares (a : ℕ) (ids : List Text) (s : AliasState) (w : ℕ) (s' : AliasState)
    : Type 0 where
  pub spared :
      (j q : ℕ) → q ≢ a → All (λ t. ¬ Sits s q t) ids → RootOf s.parent j q → RootOf s'.parent j q
  pub apart : (q : ℕ) → get_elem? s.parent q ≡ some q → q ≢ a → All (λ t. ¬ Sits s q t) ids → q ≢ w

-- The class of an interned name is an old one or that of a new number.
pub origin :
    (id : Text) (s : AliasState) (r : ℕ × AliasState) (c : ℕ)
    → IsGrouped s
    → Interned id s r
    → RootOf r.1.parent r.0 c
    → Sits s c id ⊎ (length s.names ≤ c)
origin id s r c g h d = elim (Option-cases (lookup id s.alias_id)) [
  | inr (i, e) ↦
      let same : r.0 ≡ i = ground (arith, h.kept id i e, h.found) in
      let (q, d') = a_root s i g.forest (get_elem?-some_lt s.names i (g.known id i e)) in
      let to : q ≡ c = RootOf-unique (h.roots i q d') (subst (λ k. RootOf r.1.parent k c) same d) in
      inl (i, e, subst (λ k. RootOf s.parent i k) to d')
  | inl e ↦ let (number, own) = h.lone e in inr (omega (arith, number, RootOf-self own d))
]

pub root_inside :
    (s : AliasState) (q : ℕ)
    → IsForest s.names s.parent
    → get_elem? s.parent q ≡ some q
    → q < length s.names
root_inside s q f e = subst (λ n. q < n) f.size (get_elem?-some_lt s.parent q e)

pub not_joined :
    (id : Text) (s : AliasState) (q c : ℕ)
    → Sits s c id ⊎ (length s.names ≤ c)
    → q < length s.names
    → ¬ Sits s q id
    → q ≢ c
not_joined id s q c from inside not e = elim from [
  | inl sits ↦ not (subst (λ k. Sits s k id) (sym e) sits)
  | inr over ↦ absurd (omega arith)
]

-- A name of a class that has not been joined was in that class before.
back :
    (a : ℕ) (s : AliasState) (w : ℕ) (s' : AliasState) (t : Text) (q : ℕ)
    → IsGrouped s
    → Joined a s w s'
    → q ≢ w
    → Sits s' q t
    → Sits s q t
back a s w s' t q g h ne (i, e, d) = elim (h.new t i e) [
  | inr (i', e', d') ↦
      let same : i' ≡ i = ground arith in
      absurd (ne (RootOf-unique d (subst (λ k. RootOf s'.parent k w) same d')))
  | inl old ↦
      let (q0, d0) = a_root s i g.forest (get_elem?-some_lt s.names i (g.known t i old)) in
      elim (h.moves q0) [
        | inl f ↦ (i, old, subst (λ k. RootOf s.parent i k) (RootOf-unique (f i d0) d) d0)
        | inr f ↦ absurd (ne (RootOf-unique d (f i d0)))
      ]
]

-- The class of a name moves along when its root joins another class.
pub follow :
    (a : ℕ) (s : AliasState) (w : ℕ) (s' : AliasState) (t : Text)
    → Joined a s w s'
    → Sits s a t
    → Sits s' w t
follow a s w s' t h (i, e, d) = (i, h.kept t i e, h.joins i d)

pub Joined-trans :
    {a b c : ℕ} {s s1 s2 : AliasState} → Joined a s b s1 → Joined b s1 c s2 → Joined a s c s2
Joined-trans {a} {b} {c} {s} {s1} {s2} h k = record {
  grouped = k.grouped;
  top = k.top;
  kept = λ t i e. k.kept t i (h.kept t i e);
  moves = λ q. elim (h.moves q) [
    | inr f ↦ inr (λ j d. k.joins j (f j d))
    | inl f ↦ elim (k.moves q) [
      | inl f' ↦ inl (λ j d. f' j (f j d))
      | inr f' ↦ inr (λ j d. f' j (f j d))
    ]
  ];
  joins = λ j d. k.joins j (h.joins j d);
  new = λ t i e. elim (k.new t i e) [
    | inr sits ↦ inr sits
    | inl old ↦ elim (h.new t i old) [ inl x ↦ inl x | inr x ↦ inr (follow b s1 c s2 t k x) ]
  ];
  calm = k.calm;
}

-- Names of a class that has not been joined are those of before.
pub still_apart :
    (a : ℕ) (s : AliasState) (w : ℕ) (s' : AliasState) (q : ℕ) (ts : List Text)
    → IsGrouped s
    → Joined a s w s'
    → q ≢ w
    → All (λ t. ¬ Sits s q t) ts
    → All (λ t. ¬ Sits s' q t) ts
still_apart a s w s' q [] g h ne nots = tt
still_apart a s w s' q (t ∷ ts) g h ne nots =
    (λ sits. nots.0 (back a s w s' t q g h ne sits), still_apart a s w s' q ts g h ne nots.1)

pub Spares-trans :
    (a b c : ℕ) (id : Text) (ids : List Text) (s s1 s2 : AliasState)
    → IsGrouped s
    → Joined a s b s1
    → Spares a (id ∷ []) s b s1
    → Spares b ids s1 c s2
    → Spares a (id ∷ ids) s c s2
Spares-trans a b c id ids s s1 s2 g h m k = record {
  spared = λ j q ne nots d.
      let ne' = m.apart q (RootOf-root d) ne (nots.0, tt) in
      k.spared j q ne' (still_apart a s b s1 q ids g h ne' nots.1) (m.spared j q ne (nots.0, tt) d);
  apart = λ q top ne nots.
      let ne' = m.apart q top ne (nots.0, tt) in
      let top' = RootOf-root (m.spared q q ne (nots.0, tt) (here top)) in
      k.apart q top' ne' (still_apart a s b s1 q ids g h ne' nots.1);
}
