-- ===== src/Finish/Roots.antt =====
-- The roots that the first loop of `finishAliases` (go/store.go) lists.
use osvpy.Prelude.{
  ℕ, zero, suc, ◌+◌, ◌%◌, ◌^◌, ◌≤◌, ◌<◌, ◌≡◌, ◌≢◌, ◌⊎◌, ◌↔◌, refl, sym, ap, subst, ◌∙◌, List, [],
  ◌∷◌, ◌++◌, length, set, replicate, get_elem?, some, none, Bool-cases, inl, inr, ◌==◌,
  if◌then◌else◌, arith, get_elem?-some_lt, get_elem?-set_self, get_elem?-set_ne, length-replicate,
  get_elem?-snoc, get_elem?-snoc_cases, get_elem?-append_some,
}
use native.Mathlib.Decide.{ℕ_discrete}
use osvpy.Run.{◌>>=◌, Returns, max_uint32}
use osvpy.Alias.{AliasState}
use osvpy.Alias.Forest.{IsForest, RootOf, here, up, RootOf-root}
use osvpy.Alias.Root.{a_root, RootOf-unique}
use osvpy.Finish.{FlatState, flatten_names}
use osvpy.Finish.Flat.{IsFlat, FlatBelow, Tallied, flatten_name-FlatBelow}

-- No root is listed twice.
unfoldable pub IsOnce : List ℕ → Type 0
IsOnce roots = (i k q : ℕ) → get_elem? roots i ≡ some q → get_elem? roots k ≡ some q → i ≡ k

-- The counts and the listed roots of the names below `id`.
pub record Counted (parent : List ℕ) (id : ℕ) (counts roots : List ℕ) : Type 0 where
  pub tops : (i q : ℕ) → get_elem? roots i ≡ some q → get_elem? parent q ≡ some q
  pub once : IsOnce roots
  pub few : (q c : ℕ) → get_elem? counts q ≡ some c → c ≤ id
  pub unlisted : (q i : ℕ) → get_elem? counts q ≡ some 0 → get_elem? roots i ≢ some q
  pub listed :
      (q c : ℕ) → get_elem? counts q ≡ some c → 0 < c → (i : ℕ) × (get_elem? roots i ≡ some q)
  pub covers : (j q : ℕ) → j < id → RootOf parent j q → (i : ℕ) × (get_elem? roots i ≡ some q)

-- A root that is added behind others is found there, and the others stay.
IsOnce-snoc :
    (q : ℕ) (roots : List ℕ)
    → ((i : ℕ) → get_elem? roots i ≢ some q)
    → IsOnce roots
    → IsOnce (roots ++ q ∷ [])
unfolding IsOnce
IsOnce-snoc q roots new h i k p e d = elim (get_elem?-snoc_cases roots q i e) [
  | inl old ↦ elim (get_elem?-snoc_cases roots q k d) [
    | inl old' ↦ h i k p old old'
    | inr (last, same) ↦ absurd (new i (old ∙ ap some (ground arith)))
  ]
  | inr (last, same) ↦ elim (get_elem?-snoc_cases roots q k d) [
    | inl old' ↦ absurd (new k (old' ∙ ap some (ground arith)))
    | inr (last', same') ↦ ground arith
  ]
]

set_cases :
    (xs : List ℕ) (q n p m : ℕ)
    → q < length xs
    → get_elem? (set xs q n) p ≡ some m
    → ((p ≡ q) × (m ≡ n)) ⊎ ((p ≢ q) × (get_elem? xs p ≡ some m))
set_cases xs q n p m inside e = elim (ℕ_discrete q p) [
  | yes same ↦
      let at_q = get_elem?-set_self xs q n inside in
      let at_p : get_elem? (set xs q n) q ≡ some m =
        subst (λ k. get_elem? (set xs q n) k ≡ some m) (sym same) e in
      inl (sym same, ground arith)
  | no other ↦ inr (λ s. other (sym s), sym (get_elem?-set_ne xs q p n other) ∙ e)
]

module _ (parent : List ℕ) (id q c : ℕ) (counts roots : List ℕ) (h : Counted parent id counts roots)
    (d : RootOf parent id q) (e : get_elem? counts q ≡ some c) (small : id < max_uint32) where
  count : (c + 1) % 2 ^ 32 ≡ c + 1
  count = omega (arith, h.few q c e)

  counts' : List ℕ
  counts' = set counts q (c + 1)

  cases :
      (p m : ℕ)
      → get_elem? counts' p ≡ some m
      → ((p ≡ q) × (m ≡ c + 1)) ⊎ ((p ≢ q) × (get_elem? counts p ≡ some m))
  unfolding counts'
  cases p m at = set_cases counts q (c + 1) p m (get_elem?-some_lt counts q e) at

  few' : (p m : ℕ) → get_elem? counts' p ≡ some m → m ≤ id + 1
  few' p m at = elim (cases p m at) [
    | inl (same, one) ↦ omega (arith, one, h.few q c e)
    | inr (other, old) ↦ omega (arith, h.few p m old)
  ]

  old-covers :
      (roots' : List ℕ)
      → ((p i : ℕ) → get_elem? roots i ≡ some p → get_elem? roots' i ≡ some p)
      → (i : ℕ) × (get_elem? roots' i ≡ some q)
      → (j p : ℕ) → j < id + 1
      → RootOf parent j p
      → (i : ℕ) × (get_elem? roots' i ≡ some p)
  old-covers roots' more now j p less x = elim (ℕ_discrete id j) [
    | yes same ↦
        let to : q ≡ p = RootOf-unique d (subst (λ k. RootOf parent k p) (sym same) x) in
        subst (λ k. (i : ℕ) × (get_elem? roots' i ≡ some k)) to now
    | no other ↦ let (i, at) = h.covers j p (omega (arith, other)) x in (i, more p i at)
  ]

  Counted-again : 0 < c → Counted parent (id + 1) counts' roots
  Counted-again positive = record {
    tops = h.tops;
    once = h.once;
    few = few';
    unlisted = λ p i at found. elim (cases p 0 at) [
      | inl (same, one) ↦ absurd (omega (arith, one))
      | inr (other, old) ↦ h.unlisted p i old found
    ];
    listed = λ p m at more. elim (cases p m at) [
      | inl (same, one) ↦ rw same (h.listed q c e positive)
      | inr (other, old) ↦ h.listed p m old more
    ];
    covers = old-covers roots (λ p i at. at) (h.listed q c e positive);
  }

  Counted-first : c ≡ 0 → Counted parent (id + 1) counts' (roots ++ q ∷ [])
  Counted-first zeroed =
      let new : (i : ℕ) → get_elem? roots i ≢ some q = λ i. h.unlisted q i (rw (← zeroed) e) in
      let keep : (p i : ℕ) → get_elem? roots i ≡ some p → get_elem? (roots ++ q ∷ []) i ≡ some p =
        λ p i. get_elem?-append_some roots (q ∷ []) i in
      record {
        tops = λ i p at. elim (get_elem?-snoc_cases roots q i at) [
          | inl old ↦ h.tops i p old
          | inr (last, same) ↦ rw same (RootOf-root d)
        ];
        once = IsOnce-snoc q roots new h.once;
        few = few';
        unlisted = λ p i at found. elim (cases p 0 at) [
          | inl (same, one) ↦ absurd (omega (arith, one))
          | inr (other, old) ↦ elim (get_elem?-snoc_cases roots q i found) [
            | inl at' ↦ h.unlisted p i old at'
            | inr (last, same) ↦ other same
          ]
        ];
        listed = λ p m at more. elim (cases p m at) [
          | inl (same, one) ↦ rw same (length roots, get_elem?-snoc roots q)
          | inr (other, old) ↦ let (i, at') = h.listed p m old more in (i, keep p i at')
        ];
        covers = old-covers (roots ++ q ∷ []) keep (length roots, get_elem?-snoc roots q);
      }

  Counted-next :
      Counted parent
        (id + 1)
        (set counts q ((c + 1) % 2 ^ 32))
        (if c == 0 then roots ++ q ∷ [] else roots)
  unfolding counts'
  Counted-next = rw count (elim (Bool-cases (c == 0)) [
    | inl z ↦ rw z (Counted-first (ground arith))
    | inr p ↦ rw p (Counted-again (ground arith))
  ])

module _ (s : AliasState) (f : IsForest s.names s.parent) (few : length s.names ≤ max_uint32) where
  flatten_names_lem :
      (rounds id : ℕ) (t : FlatState)
      → id + rounds ≡ length s.names
      → FlatBelow s id t
      → Counted s.parent id t.counts t.roots
      → Returns (flatten_names rounds id t) λ t'.
        FlatBelow s (length s.names) t' × Counted s.parent (length s.names) t'.counts t'.roots
  unfolding flatten_names Tallied
  flatten_names_lem zero id t e h k =
      let all : id ≡ length s.names = omega arith in
      (
        t,
        refl,
        (
          subst (λ n. FlatBelow s n t) all h,
          subst (λ n. Counted s.parent n t.counts t.roots) all k,
        ),
      )
  flatten_names_lem (suc rounds) id t e h k =
      let (q, d) = a_root s id f (omega arith) in
      let (t1, run, (h', (c, at, counts, roots))) =
        flatten_name-FlatBelow s id q t (omega arith) d h in
      let k' = Counted-next s.parent id q c t.counts t.roots k d at (omega arith) in
      let (t', runs, good) =
        flatten_names_lem rounds (id + 1) t1 (omega arith) h' (rw (counts, roots) k') in
      (t', rw (run, ◌>>=◌) runs, good)

-- Each root of a forest, once.
unfoldable pub ListsRoots : List ℕ → List ℕ → Type 0
ListsRoots parent roots =
    IsOnce roots
    × ((q : ℕ) → ((i : ℕ) × (get_elem? roots i ≡ some q)) ↔ (get_elem? parent q ≡ some q))

-- The variables before the first loop.
unfoldable pub unflattened : AliasState → FlatState
unflattened s = record { alias = s; counts = replicate (length s.names) 0; roots = [] }

zeros : (n q c : ℕ) → get_elem? (replicate n 0) q ≡ some c → c ≡ 0
unfolding replicate
zeros zero q c e = absurd (cc)
zeros (suc n) zero c e = ground arith
zeros (suc n) (suc q) c e = zeros n q c e

RootOf-inside : {parent : List ℕ} {j q : ℕ} → RootOf parent j q → j < length parent
RootOf-inside {parent} (here {i = j} e) = get_elem?-some_lt parent j e
RootOf-inside {parent} (up {i = j} e d) = get_elem?-some_lt parent j e

-- For alias groups whose parents are a well-formed forest, with at most 2^32 - 1 names and a
-- context that is never cancelled, the first loop of `finish_aliases` returns; the names are the
-- same, each one has its root as its parent, and the roots of the forest are listed, each of them
-- once.
pub flatten_names-flat :
    (s : AliasState)
    → IsForest s.names s.parent
    → s.ctx ≡ none
    → length s.names ≤ max_uint32
    → Returns (flatten_names (length s.names) 0 (unflattened s)) λ t.
      (t.alias.names ≡ s.names)
      × ((j q : ℕ) → RootOf s.parent j q → get_elem? t.alias.parent j ≡ some q)
      × ListsRoots s.parent t.roots
unfolding unflattened IsFlat ListsRoots IsOnce
flatten_names-flat s f calm few =
    let under : (j q : ℕ) → RootOf s.parent j q → j < length s.names =
      λ j q d. omega (arith, f.size, RootOf-inside d) in
    let start : FlatBelow s 0 (unflattened s) = record {
      same_names = refl;
      same_ids = refl;
      calm = calm;
      forest = f;
      kept = λ j q d. d;
      flat = λ j q less. absurd (omega arith);
      sized = length-replicate (length s.names) 0;
    } in
    let count : Counted s.parent 0 (replicate (length s.names) 0) [] = record {
      tops = λ i q e. absurd (cc);
      once = λ i k q e. absurd (cc);
      few = λ q c e. omega (arith, zeros (length s.names) q c e);
      unlisted = λ q i e found. absurd (cc);
      listed = λ q c e more. absurd (omega (arith, zeros (length s.names) q c e));
      covers = λ j q less. absurd (omega arith);
    } in
    let (t, run, (h, k)) =
      flatten_names_lem s f few (length s.names) 0 (unflattened s) (omega arith) start count in
    (
      t,
      run,
      (
        h.same_names,
        λ j q d. (h.flat j q (under j q d) d).0,
        (k.once, λ q. (λ x. k.tops x.0 q x.1, λ e. k.covers q q (under q q (here e)) (here e))),
      ),
    )
