-- ===== src/Finish/Flat.antt =====
-- The first loop of `finishAliases` (go/store.go), after which each parent is a root.
use osvpy.Prelude.{
  ℕ, zero, suc, ◌+◌, ◌%◌, ◌^◌, ◌<◌, ◌≡◌, ◌≢◌, ◌⊎◌, refl, sym, ap, subst, ◌∙◌, List, [], ◌∷◌, ◌++◌,
  length, set, get_elem?, some, none, Bool-cases, Option-cases, inl, inr, ◌==◌, ltb, if◌then◌else◌,
  arith, get_elem?_of_lt, get_elem?-some_lt, get_elem?-set_self, get_elem?-set_ne, length-set,
}
use native.Mathlib.Decide.{ℕ_discrete}
use osvpy.Text.{Text}
use osvpy.Run.{◌>>=◌, Returns, Ends, Ends-ok, Ends-bind, index, index_lem, store, store_lem}
use osvpy.Context.{check_context}
use osvpy.Alias.{AliasState, find_root, root}
use osvpy.Alias.Forest.{IsForest, Better, Better-trans, RootOf, here, up, RootOf-root}
use osvpy.Alias.Root.{RootOf-self, RootOf-unique, root_lem}
use osvpy.Finish.{FlatState, flatten_name}

-- The parent of `j` is the root `q`.
unfoldable pub IsFlat : List ℕ → ℕ → ℕ → Type 0
IsFlat parent j q = (get_elem? parent j ≡ some q) × (get_elem? parent q ≡ some q)

found : (parent : List ℕ) (i : ℕ) → Ends (λ p. get_elem? parent i ≡ some p) (index parent i)
unfolding index
found parent i = elim (Option-cases (get_elem? parent i)) [
  | inr (p, e) ↦ rw (e, index) (Ends-ok p refl)
  | inl e ↦ rw (e, index) (record { holds = λ b e'. absurd (cc) })
]

stored :
    (parent : List ℕ) (i v : ℕ)
    → Ends (λ ps. (ps ≡ set parent i v) × (i < length parent)) (store parent i v)
unfolding store
stored parent i v = elim (Bool-cases (ltb i (length parent))) [
  | inl e ↦ rw (e, store) (Ends-ok (set parent i v) (refl, ground arith))
  | inr e ↦ rw (e, store) (record { holds = λ b e'. absurd (cc) })
]

halved-IsFlat :
    (parent : List ℕ) (i p g j q : ℕ)
    → IsFlat parent j q
    → get_elem? parent i ≡ some p
    → get_elem? parent p ≡ some g
    → p ≢ i
    → IsFlat (set parent i g) j q
unfolding IsFlat
halved-IsFlat parent i p g j q h at_i at_p ne =
    let apart : i ≢ q = λ e. ne (ground (arith)) in
    let inside = get_elem?-some_lt parent i at_i in
    (
      elim (ℕ_discrete i j) [
        | yes same ↦
            let at_j : get_elem? parent i ≡ some q = rw same (h.0) in
            let to : g ≡ q = ground arith in
            rw (← same, to)
              (subst (λ v. get_elem? (set parent i v) i ≡ some v) to
                (get_elem?-set_self parent i g inside))
        | no other ↦ get_elem?-set_ne parent i j g other ∙ h.0
      ],
      get_elem?-set_ne parent i q g apart ∙ h.1,
    )

find_root-IsFlat :
    (fuel : ℕ) (parent : List ℕ) (i j q : ℕ)
    → IsFlat parent j q
    → Ends (λ (r : ℕ × List ℕ). IsFlat r.1 j q) (find_root fuel parent i)
unfolding find_root
find_root-IsFlat zero parent i j q h = Ends-bind (index parent i) (found parent i) λ p e.
    elim (Bool-cases (p == i)) [
      | inl same ↦ rw same (Ends-ok (i, parent) h)
      | inr other ↦ rw other (record { holds = λ b e'. absurd (cc) })
    ]
find_root-IsFlat (suc fuel) parent i j q h = Ends-bind (index parent i) (found parent i) λ p at_i.
    elim (Bool-cases (p == i)) [
      | inl same ↦ rw same (Ends-ok (i, parent) h)
      | inr other ↦ rw other (
          Ends-bind (index parent p) (found parent p) λ g at_p.
            Ends-bind (store parent i g) (stored parent i g) λ ps e. rw e.0 (
              find_root-IsFlat fuel (set parent i g) g j q
                (halved-IsFlat parent i p g j q h at_i at_p (λ s. absurd (ground arith)))))
    ]

root-IsFlat :
    (id : ℕ) (s : AliasState) (j q : ℕ)
    → IsFlat s.parent j q
    → Ends (λ (r : ℕ × AliasState). IsFlat r.1.parent j q) (root id s)
unfolding root
root-IsFlat id s j q h =
    Ends-bind (find_root (length s.names) s.parent id)
      (find_root-IsFlat (length s.names) s.parent id j q h)
      λ r e. Ends-ok (r.0, record s { parent = r.1 }) e

RootOf-Better :
    {names : List Text} {parent : List ℕ} {i r : ℕ}
    → IsForest names parent
    → RootOf parent i r
    → (r ≡ i) ⊎ Better names r i
RootOf-Better f (here e) = inl refl
RootOf-Better {names = names} {r = r} f (up {i = i} {p = p} e d) = elim (f.links i p e) [
  | inl same ↦ subst (λ k. (r ≡ k) ⊎ Better names r k) same (RootOf-Better f d)
  | inr b ↦ elim (RootOf-Better f d) [ inl to ↦ inr (rw to b) | inr b' ↦ inr (Better-trans b' b) ]
]

-- `parent[i] = r` where `r` is the root of `i`.
module _ (names : List Text) (parent : List ℕ) (f : IsForest names parent) (i r : ℕ)
    (d : RootOf parent i r) (inside : i < length parent) where
  short_self : get_elem? (set parent i r) i ≡ some r
  short_self = get_elem?-set_self parent i r inside

  short_top : get_elem? (set parent i r) r ≡ some r
  short_top = elim (ℕ_discrete i r) [
    | yes same ↦ subst (λ k. get_elem? (set parent i r) k ≡ some r) same short_self
    | no other ↦ get_elem?-set_ne parent i r r other ∙ RootOf-root d
  ]

  short-IsForest : IsForest names (set parent i r)
  short-IsForest = record {
    size = length-set parent i r ∙ f.size;
    links = λ j q e. elim (ℕ_discrete i j) [
      | yes same ↦
          let to : q ≡ r = ground (arith, short_self) in rw (to, ← same) (RootOf-Better f d)
      | no other ↦ f.links j q (sym (get_elem?-set_ne parent i j r other) ∙ e)
    ];
  }

  short-RootOf : {j q : ℕ} → RootOf parent j q → RootOf (set parent i r) j q
  short-RootOf (here {i = j} e) = elim (ℕ_discrete i j) [
    | yes same ↦
        let to : r ≡ j = RootOf-self e (subst (λ k. RootOf parent k r) same d) in
        here (rw (← to) short_top)
    | no other ↦ here (get_elem?-set_ne parent i j r other ∙ e)
  ]
  short-RootOf (up {i = j} {p = p} {r = q} e d') = elim (ℕ_discrete i j) [
    | yes same ↦
        let to : r ≡ q = RootOf-unique (subst (λ k. RootOf parent k r) same d) (up e d') in
        rw (← to, ← same) (up short_self (here short_top))
    | no other ↦ up (get_elem?-set_ne parent i j r other ∙ e) (short-RootOf d')
  ]

  short-IsFlat : (j q : ℕ) → IsFlat parent j q → IsFlat (set parent i r) j q
  unfolding IsFlat
  short-IsFlat j q h =
      let top : get_elem? (set parent i r) q ≡ some q = elim (ℕ_discrete i q) [
        | yes same ↦
            let to : r ≡ q = RootOf-self h.1 (subst (λ k. RootOf parent k r) same d) in
            rw (← to) short_top
        | no other ↦ get_elem?-set_ne parent i q r other ∙ h.1
      ] in
      (
        elim (ℕ_discrete i j) [
          | yes same ↦
              let to : r ≡ q =
                RootOf-unique (subst (λ k. RootOf parent k r) same d) (up h.0 (here h.1)) in
              rw (← to, ← same) short_self
          | no other ↦ get_elem?-set_ne parent i j r other ∙ h.0
        ],
        top,
      )

-- The names below `id` have their roots of `s` as parents.
pub record FlatBelow (s : AliasState) (id : ℕ) (t : FlatState) : Type 0 where
  pub same_names : t.alias.names ≡ s.names
  pub same_ids : t.alias.alias_id ≡ s.alias_id
  pub calm : t.alias.ctx ≡ none
  pub forest : IsForest s.names t.alias.parent
  pub kept : (j q : ℕ) → RootOf s.parent j q → RootOf t.alias.parent j q
  pub flat : (j q : ℕ) → j < id → RootOf s.parent j q → IsFlat t.alias.parent j q
  pub sized : length t.counts ≡ length s.names

-- A root is counted, and listed when it is counted first.
unfoldable pub Tallied : ℕ → FlatState → FlatState → Type 0
Tallied q t t' =
    (c : ℕ) × (get_elem? t.counts q ≡ some c)
    × (t'.counts ≡ set t.counts q ((c + 1) % 2 ^ 32))
    × (t'.roots ≡ (if c == 0 then t.roots ++ q ∷ [] else t.roots))

-- The variables after a round.
next-FlatBelow :
    (s : AliasState) (id r : ℕ) (t : FlatState) (parent counts roots : List ℕ)
    → FlatBelow s id t
    → RootOf s.parent id r
    → RootOf parent id r
    → IsForest s.names parent
    → id < length parent
    → ((j q : ℕ) → RootOf t.alias.parent j q → RootOf parent j q)
    → ((j q : ℕ) → IsFlat t.alias.parent j q → IsFlat parent j q)
    → length counts ≡ length s.names
    → FlatBelow s (id + 1) (record {
      alias = record t.alias { ctx = none; parent = set parent id r };
      counts = counts;
      roots = roots;
    })
unfolding IsFlat
next-FlatBelow s id r t parent counts roots h origin d f inside keep keep_flat sized = record {
  same_names = h.same_names;
  same_ids = h.same_ids;
  calm = refl;
  forest = short-IsForest s.names parent f id r d inside;
  kept = λ j q x. short-RootOf s.names parent f id r d inside (keep j q (h.kept j q x));
  flat = λ j q less x. elim (ℕ_discrete id j) [
    | yes same ↦
        let to : r ≡ q = RootOf-unique origin (subst (λ k. RootOf s.parent k q) (sym same) x) in
        rw (← to, ← same)
          (short_self s.names parent f id r d inside, short_top s.names parent f id r d inside)
    | no other ↦
        short-IsFlat s.names parent f id r d inside j q
          (keep_flat j q (h.flat j q (omega (arith, other)) x))
  ];
  sized = sized;
}

module _ (s : AliasState) where
  pub flatten_name-FlatBelow :
      (id q : ℕ) (t : FlatState)
      → id < length s.names
      → RootOf s.parent id q
      → FlatBelow s id t
      → Returns (flatten_name id t) λ t'. FlatBelow s (id + 1) t' × Tallied q t t'
  unfolding flatten_name check_context Tallied
  flatten_name-FlatBelow id q t less origin h =
      let a : AliasState = record t.alias { ctx = none } in
      let many : length a.names ≡ length s.names = ap length h.same_names in
      let (r, parent, run, d, f, keep) =
        root_lem id a (subst (λ ns. IsForest ns a.parent) (sym h.same_names) h.forest)
          (omega (arith, many)) in
      let to : r ≡ q = RootOf-unique d (h.kept id q origin) in
      let f' : IsForest s.names parent = subst (λ ns. IsForest ns parent) h.same_names f in
      let inside : id < length parent = omega (arith, f'.size) in
      let below : r < length t.counts =
        omega (arith, get_elem?-some_lt parent r (RootOf-root (keep id r d)), f'.size, h.sized) in
      let (c, at_r) = get_elem?_of_lt t.counts r below in
      let counts = set t.counts r ((c + 1) % 2 ^ 32) in
      let t' : FlatState = record {
        alias = record a { parent = set parent id r };
        counts = counts;
        roots = if c == 0 then t.roots ++ r ∷ [] else t.roots;
      } in
      (
        t',
        rw
            (
              h.calm,
              ◌>>=◌,
              run,
              store_lem parent id r inside,
              index_lem t.counts r at_r,
              store_lem t.counts r ((c + 1) % 2 ^ 32) below,
            )
            refl,
        (
          next-FlatBelow s id r t parent counts _ h (rw to origin) (keep id r d) f' inside keep
              (λ j p x. (root-IsFlat id a j p x).holds _ run) (length-set t.counts r _ ∙ h.sized),
          subst (λ p. Tallied p t t') to (c, at_r, refl, refl),
        ),
      )
