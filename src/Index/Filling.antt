-- ===== src/Index/Filling.antt =====
-- The second visit of `makeIndex` (go/indexes.go), which puts each value behind its key's others.
use osvpy.Prelude.{
  ltb, ltb→lt, get_elem?_of_lt, ℕ, ◌+◌, ◌%◌, ◌^◌, ◌≤◌, ◌<◌, ◌≡◌, ◌≢◌, refl, sym, subst, ◌∙◌, List,
  [], ◌∷◌, length, set, get_elem?, some, none, true, false, Bool-cases, inl, inr, ◌⊎◌, ◌==◌, ==_iff,
  if◌then◌else◌, arith, All, get_elem?-set_self, get_elem?-set_ne, length-set,
}
use osvpy.Run.{ok, ◌>>=◌, max_uint32, checked_lem}
use osvpy.Slabs.{Slabs, uint32_zero}
use osvpy.Slabs.Rows.{Models}
use osvpy.Slabs.Laws.{at-some, write-set}
use osvpy.Context.{check_context}
use osvpy.Index.Make.{Visit, polls, edge, fill_edge, fill_edges}
use osvpy.Index.Edges.{Edge, edges_of, values, Tabulates, set-Tabulates, At, At-nil, At-cons}

-- The cursor of key `k` moves on.
unfoldable pub advance : ℕ → (ℕ → ℕ) → ℕ → ℕ
advance k c i = if i == k then c i + 1 else c i

-- Between its cursor and the next key's, each key has room for its values.
pub record HasRoom (size room : ℕ) (c : ℕ → ℕ) (es : List Edge) : Type 0 where
  pub apart : (k l : ℕ) → k < l → l < size → c k + length (values k es) ≤ c l
  pub inside : (k : ℕ) → k < size → c k + length (values k es) ≤ room

-- A position where no value of the edges goes.
abbrev pub Free : ℕ → (ℕ → ℕ) → List Edge → ℕ → Type 0
Free size c es p = (k : ℕ) → k < size → (p < c k) ⊎ (c k + length (values k es) ≤ p)

module _ (size room k v : ℕ) (c : ℕ → ℕ) (es : List Edge) where
  advance-HasRoom : HasRoom size room c ((k, v) ∷ es) → HasRoom size room (advance k c) es
  unfolding values advance
  advance-HasRoom h = record {
    apart = λ a b less high. let old = h.apart a b less high in ground arith;
    inside = λ a less. let old = h.inside a less in ground arith;
  }

  -- The new value's position is free from then on.
  advance-Free : k < size → HasRoom size room c ((k, v) ∷ es) → Free size (advance k c) es (c k)
  unfolding values advance
  advance-Free key h j less = elim (Bool-cases (ltb j k)) [
    | inl e ↦ let old = h.apart j k (ltb→lt j k e) key in inr (ground arith)
    | inr e ↦ elim (Bool-cases (j == k)) [
      | inl same ↦ inl (ground arith)
      | inr other ↦ let old = h.apart k j (ground arith) less in inl (ground arith)
    ]
  ]

  Free-advance : (p : ℕ) → Free size c ((k, v) ∷ es) p → Free size (advance k c) es p
  unfolding values advance
  Free-advance p free j less = elim (free j less) [
    | inl low ↦ inl (ground arith)
    | inr high ↦ inr (ground arith)
  ]

  Free-other : (p : ℕ) → k < size → Free size c ((k, v) ∷ es) p → c k ≢ p
  unfolding values
  Free-other p key free =
      λ e. elim (free k key) [ inl low ↦ omega arith | inr high ↦ absurd (ground arith) ]

  At-advance :
      (ms : List ℕ) (j : ℕ)
      → get_elem? ms (c k) ≡ some v
      → At ms (advance k c j) (values j es)
      → At ms (c j) (values j ((k, v) ∷ es))
  unfolding values advance
  At-advance ms j here rest = elim (Bool-cases (k == j)) [
    | inl e ↦
        let same : k ≡ j = (==_iff k j).0 e in
        let back : (j == k) ≡ true = ground arith in
        rw e (
          At-cons ms (c j) v (values j es) (subst (λ i. get_elem? ms (c i) ≡ some v) same here)
            (rw back at rest))
    | inr e ↦ let back : (j == k) ≡ false = ground arith in rw e (rw back at rest)
  ]

module _ (size : ℕ) where
  fill_edge_lem :
      (k v : ℕ) (c : ℕ → ℕ) (cursor members : Slabs ℕ) (cur ms : List ℕ)
      → Models cursor cur
      → Tabulates size c cur
      → Models members ms
      → k < size
      → v < 2 ^ 32
      → c k < length ms
      → length ms ≤ max_uint32
      → (cursor' members' : Slabs ℕ) × (cur' : List ℕ) × (fill_edge k v cursor members
          ≡ ok (cursor', members'))
        × Models cursor' cur'
        × Tabulates size (advance k c) cur'
        × Models members' (set ms (c k) v)
  unfolding fill_edge advance
  fill_edge_lem k v c cursor members cur ms mc t m key small room fits =
      let (old, there) = get_elem?_of_lt ms (c k) room in
      let (members', run, m') = write-set members ms m (c k) v room in
      let (cursor', runs, mc') = write-set cursor cur mc k (c k + 1) (omega (arith, t.size)) in
      let wrap : (c k + 1) % 2 ^ 32 ≡ c k + 1 = omega arith in
      (
        cursor',
        members',
        set cur k (c k + 1),
        rw
            (
              at-some cursor cur mc k (t.entries k key),
              ◌>>=◌,
              at-some members ms m (c k) there,
              checked_lem v small,
              run,
              wrap,
              runs,
            )
            refl,
        mc',
        set-Tabulates size c (advance k c) cur k (c k + 1) t (ground arith) (λ j ne. ground arith),
        m',
      )

  -- After the second visit, the values of each key stand from its cursor on.
  pub fill_edges_lem :
      (vs : List Visit) (c : ℕ → ℕ) (cursor members : Slabs ℕ) (cur ms : List ℕ)
      → Models cursor cur
      → Tabulates size c cur
      → Models members ms
      → All (λ (e : Edge). (e.0 < size) × (e.1 < 2 ^ 32)) (edges_of vs)
      → length ms ≤ max_uint32
      → HasRoom size (length ms) c (edges_of vs)
      → (members' : Slabs ℕ) × (ms' : List ℕ) × (fill_edges vs none cursor members
          ≡ ok (none, members'))
        × Models members' ms'
        × (length ms' ≡ length ms)
        × ((k : ℕ) → k < size → At ms' (c k) (values k (edges_of vs)))
        × ((p : ℕ) → Free size c (edges_of vs) p → get_elem? ms' p ≡ get_elem? ms p)
  unfolding fill_edges check_context edges_of values
  fill_edges_lem [] c cursor members cur ms mc t m keys fits h =
      (members, ms, refl, m, refl, λ k less. At-nil ms (c k), λ p free. refl)
  fill_edges_lem (polls ∷ vs) c cursor members cur ms mc t m keys fits h =
      fill_edges_lem vs c cursor members cur ms mc t m keys fits h
  fill_edges_lem (edge k v ∷ vs) c cursor members cur ms mc t m keys fits h =
      let es = edges_of vs in
      let room : c k < length ms = let i = h.inside k keys.0.0 in ground arith in
      let (cursor1, members1, cur1, run, mc1, t1, m1) =
        fill_edge_lem k v c cursor members cur ms mc t m keys.0.0 keys.0.1 room fits in
      let h1 = advance-HasRoom size (length ms) k v c es h in
      let wide = length-set ms (c k) v in
      let (members2, ms2, runs, m2, wide2, found, kept) =
        fill_edges_lem vs (advance k c) cursor1 members1 cur1 (set ms (c k) v) mc1 t1 m1 keys.1
          (omega (arith, wide)) (subst (λ n. HasRoom size n (advance k c) es) (sym wide) h1) in
      let here : get_elem? ms2 (c k) ≡ some v =
        kept (c k) (advance-Free size (length ms) k v c es keys.0.0 h)
        ∙ get_elem?-set_self ms (c k) v room in
      (
        members2,
        ms2,
        rw run runs,
        m2,
        wide2 ∙ wide,
        λ j less. At-advance size (length ms) k v c es ms2 j here (found j less),
        λ p free.
            kept p (Free-advance size (length ms) k v c es p free)
            ∙ get_elem?-set_ne ms (c k) p v (Free-other size (length ms) k v c es p keys.0.0 free),
      )
