-- ===== src/Index/Edges.antt =====
-- The values of a key among a list of edges, and where they stand in a table that lists the values
-- of all keys one after the other.
use osvpy.Prelude.{
  ℕ, zero, suc, ◌+◌, ◌≤◌, ◌<◌, ◌≡◌, ◌≢◌, refl, ap, subst, ◌∙◌, List, [], ◌∷◌, length, set,
  get_elem?, some, Bool-cases, inl, inr, ◌==◌, ltb, if◌then◌else◌, arith, All, length-set,
  get_elem?-set_self, get_elem?-set_ne, get_elem?-some_lt,
}
use native.Mathlib.Decide.{ℕ_discrete}
use osvpy.Index.Make.{Visit, polls, edge}

abbrev pub Edge : Type 0
Edge = ℕ × ℕ

-- The edges of a visit.
unfoldable pub edges_of : List Visit → List Edge
edges_of [] = []
edges_of (polls ∷ vs) = edges_of vs
edges_of (edge key value ∷ vs) = (key, value) ∷ edges_of vs

-- The values of key `k`.
unfoldable pub values : ℕ → List Edge → List ℕ
values k [] = []
values k (e ∷ es) = let rest = values k es in if e.0 == k then e.1 ∷ rest else rest

-- The number of edges with a smaller key.
unfoldable pub below : ℕ → List Edge → ℕ
below k [] = 0
below k (e ∷ es) = let rest = below k es in if ltb e.0 k then suc rest else rest

pub below-zero : (es : List Edge) → below 0 es ≡ 0
unfolding below
below-zero [] = refl
below-zero (e ∷ es) = ground (arith, below-zero es)

pub below-suc : (k : ℕ) (es : List Edge) → below (suc k) es ≡ below k es + length (values k es)
unfolding below values
below-suc k [] = omega arith
below-suc k (e ∷ es) = ground (arith, below-suc k es)

pub below-le : (k : ℕ) (es : List Edge) → below k es ≤ length es
unfolding below
below-le k [] = omega arith
below-le k (e ∷ es) = ground (arith, below-le k es)

pub below_mono : (k l : ℕ) (es : List Edge) → k ≤ l → below k es ≤ below l es
unfolding below
below_mono k l [] h = omega arith
below_mono k l (e ∷ es) h = ground (arith, below_mono k l es h)

pub values-All :
    (P : ℕ → Type 0) (k : ℕ) (es : List Edge) → All (λ e. P e.1) es → All P (values k es)
unfolding values
values-All P k [] h = tt
values-All P k (e ∷ es) h = elim (Bool-cases (e.0 == k)) [
  | inl x ↦ rw x (h.0, values-All P k es h.1)
  | inr x ↦ rw x (values-All P k es h.1)
]

-- A list that tabulates `f`.
pub record Tabulates (n : ℕ) (f : ℕ → ℕ) (xs : List ℕ) : Type 0 where
  pub size : length xs ≡ n
  pub entries : (i : ℕ) → i < n → get_elem? xs i ≡ some (f i)

-- One entry is changed.
pub set-Tabulates :
    (n : ℕ) (f g : ℕ → ℕ) (xs : List ℕ) (i v : ℕ)
    → Tabulates n f xs
    → v ≡ g i
    → ((j : ℕ) → i ≢ j → f j ≡ g j)
    → Tabulates n g (set xs i v)
set-Tabulates n f g xs i v t here there = record {
  size = length-set xs i v ∙ t.size;
  entries = λ j less. elim (ℕ_discrete i j) [
    | yes e ↦
        subst (λ k. get_elem? (set xs i v) k ≡ some (g k)) e
          (get_elem?-set_self xs i v (omega (arith, t.size)) ∙ ap some here)
    | no ne ↦ get_elem?-set_ne xs i j v ne ∙ t.entries j less ∙ ap some (there j ne)
  ];
}

pub Tabulates-ext :
    (n : ℕ) (f g : ℕ → ℕ) (xs : List ℕ)
    → ((i : ℕ) → i < n → f i ≡ g i)
    → Tabulates n f xs
    → Tabulates n g xs
Tabulates-ext n f g xs h t = record {
  size = t.size;
  entries = λ i less. t.entries i less ∙ ap some (h i less);
}

-- The list `vs` stands in `ms` from position `o` on.
pub record At (ms : List ℕ) (o : ℕ) (vs : List ℕ) : Type 0 where
  pub found : (i v : ℕ) → get_elem? vs i ≡ some v → get_elem? ms (o + i) ≡ some v

-- Two lists agree outside of the positions from `a` up to `b`.
pub record Outside (a b : ℕ) (ms ns : List ℕ) : Type 0 where
  pub size : length ns ≡ length ms
  pub lower : (p : ℕ) → p < a → get_elem? ns p ≡ get_elem? ms p
  pub upper : (p : ℕ) → b ≤ p → get_elem? ns p ≡ get_elem? ms p

pub Outside-refl : (a b : ℕ) (ms : List ℕ) → Outside a b ms ms
Outside-refl a b ms = record { size = refl; lower = λ p h. refl; upper = λ p h. refl }

pub Outside-widen :
    (a b a' b' : ℕ) (ms ns : List ℕ) → a' ≤ a → b ≤ b' → Outside a b ms ns → Outside a' b' ms ns
Outside-widen a b a' b' ms ns low high h = record {
  size = h.size;
  lower = λ p less. h.lower p (omega arith);
  upper = λ p more. h.upper p (omega arith);
}

pub Outside-trans :
    (a b : ℕ) (ms ns ps : List ℕ) → Outside a b ms ns → Outside a b ns ps → Outside a b ms ps
Outside-trans a b ms ns ps h k = record {
  size = k.size ∙ h.size;
  lower = λ p less. k.lower p less ∙ h.lower p less;
  upper = λ p less. k.upper p less ∙ h.upper p less;
}

pub set-Outside : (a b i v : ℕ) (ms : List ℕ) → a ≤ i → i < b → Outside a b ms (set ms i v)
set-Outside a b i v ms low high = record {
  size = length-set ms i v;
  lower = λ p less. get_elem?-set_ne ms i p v (λ e. omega arith);
  upper = λ p less. get_elem?-set_ne ms i p v (λ e. omega arith);
}

pub At-nil : (ms : List ℕ) (o : ℕ) → At ms o []
At-nil ms o = record { found = λ i v e. absurd (cc) }

pub At-head : (ms : List ℕ) (o v : ℕ) (vs : List ℕ) → At ms o (v ∷ vs) → get_elem? ms o ≡ some v
At-head ms o v vs h = subst (λ k. get_elem? ms k ≡ some v) (omega arith) (h.found 0 v refl)

pub At-tail : (ms : List ℕ) (o v : ℕ) (vs : List ℕ) → At ms o (v ∷ vs) → At ms (o + 1) vs
At-tail ms o v vs h = record {
  found = λ i x e. subst (λ k. get_elem? ms k ≡ some x) (omega arith) (h.found (suc i) x e);
}

pub At-cons :
    (ms : List ℕ) (o v : ℕ) (vs : List ℕ)
    → get_elem? ms o ≡ some v
    → At ms (o + 1) vs
    → At ms o (v ∷ vs)
At-cons ms o v vs e h = record { found = found }
  where
    found : (i x : ℕ) → get_elem? (v ∷ vs) i ≡ some x → get_elem? ms (o + i) ≡ some x
    found zero x d = subst (λ k. get_elem? ms k ≡ some x) (omega arith) (e ∙ d)
    found (suc i) x d = subst (λ k. get_elem? ms k ≡ some x) (omega arith) (h.found i x d)

-- A list outside of the change stays.
pub At-below :
    (a b o : ℕ) (ms ns vs : List ℕ)
    → Outside a b ms ns
    → o + length vs ≤ a
    → At ms o vs
    → At ns o vs
At-below a b o ms ns vs out low h = record {
  found = λ i v e. out.lower (o + i) (omega (arith, get_elem?-some_lt vs i e)) ∙ h.found i v e;
}

pub At-above : (a b o : ℕ) (ms ns vs : List ℕ) → Outside a b ms ns → b ≤ o → At ms o vs → At ns o vs
At-above a b o ms ns vs out high h = record {
  found = λ i v e. out.upper (o + i) (omega arith) ∙ h.found i v e;
}
