-- ===== src/Index/Counting.antt =====
-- The first visit of `makeIndex` (go/indexes.go), the sums of its counts, and the cursors.
use osvpy.Prelude.{
  ℕ, zero, suc, ◌+◌, ◌≤◌, ◌<◌, ◌≡◌, ◌≢◌, refl, ap, subst, ◌∙◌, List, [], ◌∷◌, ◌++◌, length, set,
  get_elem?, some, none, Bool-cases, inl, inr, ◌==◌, if◌then◌else◌, arith, All,
  get_elem?-append_some, get_elem?-snoc, length-append,
}
use osvpy.Run.{ok, ◌>>=◌, max_uint32}
use osvpy.Slabs.{Slabs, uint32_zero}
use osvpy.Slabs.Rows.{Models}
use osvpy.Slabs.Laws.{at-some, write-set, append-snoc}
use osvpy.Context.{check_context}
use osvpy.Index.{prefix_index_counts}
use osvpy.Index.Sums.{sums, total, add_index_count_lem, prefix_index_counts_lem}
use osvpy.Index.Make.{Visit, polls, edge, poll_at, count_edge, count_edges, copy_offsets}
use osvpy.Index.Edges.{
  Edge, edges_of, values, below, below-zero, below-suc, below-le, Tabulates, set-Tabulates,
  Tabulates-ext,
}

pub poll_at-none : (i : ℕ) → poll_at i none ≡ ok none
unfolding check_context
poll_at-none i = ground arith

-- The counts stand one position further than their keys.
unfoldable pub counted : List Edge → ℕ → ℕ
counted es zero = 0
counted es (suc k) = length (values k es)

-- One more at position `k + 1`.
unfoldable pub bump : ℕ → (ℕ → ℕ) → ℕ → ℕ
bump k f i = if i == k + 1 then f i + 1 else f i

bump-here : (k : ℕ) (f : ℕ → ℕ) → f (k + 1) + 1 ≡ bump k f (k + 1)
unfolding bump
bump-here k f = ground arith

bump-there : (k : ℕ) (f : ℕ → ℕ) (i : ℕ) → k + 1 ≢ i → f i ≡ bump k f i
unfolding bump
bump-there k f i ne = ground arith

bump-counted :
    (k v : ℕ) (es : List Edge) (f : ℕ → ℕ) (i : ℕ)
    → bump k f i + counted es i ≡ f i + counted ((k, v) ∷ es) i
unfolding bump counted values
bump-counted k v es f zero = ground arith
bump-counted k v es f (suc i) = ground arith

counted-nil : (f : ℕ → ℕ) (i : ℕ) → f i ≡ f i + counted [] i
unfolding counted values
counted-nil f zero = omega arith
counted-nil f (suc i) = omega arith

bump-le : (k : ℕ) (f : ℕ → ℕ) (sum : ℕ) → ((i : ℕ) → f i ≤ sum) → (i : ℕ) → bump k f i ≤ sum + 1
unfolding bump
bump-le k f sum few i = let h = few i in ground arith

sums-entries :
    (g f : ℕ → ℕ) (xs : List ℕ)
    → ((i : ℕ) → i < length xs → get_elem? xs i ≡ some (f i))
    → ((i : ℕ) → i < length xs → g (suc i) ≡ g i + f i)
    → (i : ℕ) → i < length xs
    → get_elem? (sums (g 0) xs) i ≡ some (g (suc i))
unfolding sums
sums-entries g f [] h step i less = absurd (omega arith)
sums-entries g f (x ∷ xs) h step zero less =
    let head : x ≡ f 0 = ground (arith, h 0) in ground (arith, step 0)
sums-entries g f (x ∷ xs) h step (suc i) less =
    let head : x ≡ f 0 = ground (arith, h 0) in
    let next : x + g 0 ≡ g 1 = ground (arith, step 0) in
    rw next (
      sums-entries (λ j. g (suc j)) (λ j. f (suc j)) xs (λ j l. h (suc j) (omega arith))
        (λ j l. step (suc j) (omega arith)) i (omega arith))

total-entries :
    (g f : ℕ → ℕ) (xs : List ℕ)
    → ((i : ℕ) → i < length xs → get_elem? xs i ≡ some (f i))
    → ((i : ℕ) → i < length xs → g (suc i) ≡ g i + f i)
    → total (g 0) xs ≡ g (length xs)
unfolding total
total-entries g f [] h step = refl
total-entries g f (x ∷ xs) h step =
    let head : x ≡ f 0 = ground (arith, h 0) in
    let next : x + g 0 ≡ g 1 = ground (arith, step 0) in
    rw next (
      total-entries (λ j. g (suc j)) (λ j. f (suc j)) xs (λ j l. h (suc j) (omega arith))
        (λ j l. step (suc j) (omega arith)))

length-sums : (sum : ℕ) (xs : List ℕ) → length (sums sum xs) ≡ length xs
unfolding sums
length-sums sum [] = refl
length-sums sum (x ∷ xs) = ap suc (length-sums (x + sum) xs)

sums-Tabulates :
    (g : ℕ → ℕ) (x : ℕ) (xs : List ℕ)
    → x ≡ g 0
    → ((i : ℕ) → i < length xs → get_elem? (sums (g 0) xs) i ≡ some (g (suc i)))
    → Tabulates (suc (length xs)) g (x ∷ sums x xs)
sums-Tabulates g x xs e h = record { size = ap suc (length-sums x xs); entries = entries }
  where
    entries : (i : ℕ) → i < suc (length xs) → get_elem? (x ∷ sums x xs) i ≡ some (g i)
    entries zero less = ap some e
    entries (suc i) less = ap (λ y. get_elem? (sums y xs) i) e ∙ h i (omega arith)

-- One entry more.
pub snoc-Tabulates :
    (n : ℕ) (f : ℕ → ℕ) (xs : List ℕ) → Tabulates n f xs → Tabulates (n + 1) f (xs ++ f n ∷ [])
snoc-Tabulates n f xs t = record {
  size = omega (arith, length-append xs (f n ∷ []), t.size);
  entries = λ i less. elim (Bool-cases (i == n)) [
    | inl e ↦
        let same : length xs ≡ i = ground (arith, t.size) in
        let it : n ≡ i = ground arith in
        subst (λ k. get_elem? (xs ++ f n ∷ []) k ≡ some (f i)) same
          (get_elem?-snoc xs (f n) ∙ ap (λ k. some (f k)) it)
    | inr e ↦ get_elem?-append_some xs (f n ∷ []) i (t.entries i (ground arith))
  ];
}

module _ (size : ℕ) where
  count_edge_lem :
      (k sum : ℕ) (f : ℕ → ℕ) (s : Slabs ℕ) (offs : List ℕ)
      → Models s offs
      → Tabulates (size + 1) f offs
      → k < size
      → sum < max_uint32
      → f (k + 1) < max_uint32
      → (s' : Slabs ℕ) × (offs' : List ℕ) × (count_edge k sum none s ≡ ok (sum + 1, none, s'))
        × Models s' offs'
        × Tabulates (size + 1) (bump k f) offs'
  unfolding count_edge
  count_edge_lem k sum f s offs m t less room few =
      let (s', run, m') = write-set s offs m (k + 1) (f (k + 1) + 1) (omega (arith, t.size)) in
      (
        s',
        set offs (k + 1) (f (k + 1) + 1),
        rw
            (
              poll_at-none sum,
              ◌>>=◌,
              add_index_count_lem sum 1 (omega arith),
              at-some s offs m (k + 1) (t.entries (k + 1) (omega arith)),
              add_index_count_lem (f (k + 1)) 1 (omega arith),
              run,
            )
            refl,
        m',
        set-Tabulates (size + 1) f (bump k f) offs (k + 1) (f (k + 1) + 1) t (bump-here k f)
            (bump-there k f),
      )

  -- After the first visit, each key has its count.
  pub count_edges_lem :
      (vs : List Visit) (sum : ℕ) (f : ℕ → ℕ) (s : Slabs ℕ) (offs : List ℕ)
      → Models s offs
      → Tabulates (size + 1) f offs
      → All (λ (e : Edge). e.0 < size) (edges_of vs)
      → sum + length (edges_of vs) ≤ max_uint32
      → ((i : ℕ) → f i ≤ sum)
      → (s' : Slabs ℕ) × (offs' : List ℕ) × (count_edges vs sum none s ≡ ok (none, s'))
        × Models s' offs'
        × Tabulates (size + 1) (λ i. f i + counted (edges_of vs) i) offs'
  unfolding count_edges check_context edges_of
  count_edges_lem [] sum f s offs m t keys room few =
      (s, offs, refl, m, Tabulates-ext (size + 1) f _ offs (λ i less. counted-nil f i) t)
  count_edges_lem (polls ∷ vs) sum f s offs m t keys room few =
      count_edges_lem vs sum f s offs m t keys room few
  count_edges_lem (edge k v ∷ vs) sum f s offs m t keys room few =
      let (s1, offs1, run, m1, t1) =
        count_edge_lem k sum f s offs m t keys.0 (omega arith) (omega (arith, few (k + 1))) in
      let (s2, offs2, runs, m2, t2) =
        count_edges_lem vs (sum + 1) (bump k f) s1 offs1 m1 t1 keys.1 (omega arith)
          (bump-le k f sum few) in
      (
        s2,
        offs2,
        rw run runs,
        m2,
        Tabulates-ext (size + 1) _ _ offs2 (λ i less. bump-counted k v (edges_of vs) f i) t2,
      )

  -- The sums of the counts are the first positions.
  pub prefix-below :
      (es : List Edge) (s : Slabs ℕ) (offs : List ℕ)
      → Models s offs
      → Tabulates (size + 1) (counted es) offs
      → length es ≤ max_uint32
      → (s' : Slabs ℕ) × (offs' : List ℕ) × (prefix_index_counts none s ≡ ok (none, s'))
        × Models s' offs'
        × Tabulates (size + 1) (λ k. below k es) offs'
  unfolding counted
  prefix-below es s [] m t small = absurd (omega (arith, t.size))
  prefix-below es s (x ∷ xs) m t small =
      let g = λ (k : ℕ). below k es in
      let f = λ (k : ℕ). length (values k es) in
      let wide : length xs ≡ size = omega (arith, t.size) in
      let zero_first : x ≡ g 0 = ground (arith, t.entries 0, below-zero es) in
      let h : (i : ℕ) → i < length xs → get_elem? xs i ≡ some (f i) =
        λ i less. t.entries (suc i) (omega arith) in
      let step : (i : ℕ) → i < length xs → g (suc i) ≡ g i + f i = λ i less. below-suc i es in
      let sum : total x xs ≡ g (length xs) =
        ap (λ y. total y xs) zero_first ∙ total-entries g f xs h step in
      let (r, run, (calm, m')) =
        prefix_index_counts_lem s x xs m (omega (arith, sum, below-le (length xs) es)) in
      (
        r.1,
        x ∷ sums x xs,
        run ∙ ap (λ c. ok (c, r.1)) calm,
        m',
        subst (λ n. Tabulates n g (x ∷ sums x xs)) (omega (arith, wide))
            (sums-Tabulates g x xs zero_first (sums-entries g f xs h step)),
      )

  -- The cursors start at the first positions.
  pub copy_offsets_lem :
      (rounds i : ℕ) (f : ℕ → ℕ) (s cursor : Slabs ℕ) (offs cur : List ℕ)
      → i + rounds ≡ size
      → size ≤ max_uint32
      → Models s offs
      → Tabulates (size + 1) f offs
      → Models cursor cur
      → Tabulates i f cur
      → (cursor' : Slabs ℕ) × (cur' : List ℕ) × (copy_offsets rounds i s cursor ≡ ok cursor')
        × Models cursor' cur'
        × Tabulates size f cur'
  unfolding copy_offsets
  copy_offsets_lem zero i f s cursor offs cur e small m t mc tc =
      (cursor, cur, refl, mc, subst (λ n. Tabulates n f cur) (omega arith) tc)
  copy_offsets_lem (suc rounds) i f s cursor offs cur e small m t mc tc =
      let (c1, run, m1) = append-snoc cursor cur mc (f i) (omega (arith, mc.size, tc.size)) in
      let (c2, cur2, runs, m2, t2) =
        copy_offsets_lem rounds (i + 1) f s c1 offs (cur ++ f i ∷ []) (omega arith) small m t m1
          (snoc-Tabulates i f cur tc) in
      (c2, cur2, rw (at-some s offs m i (t.entries i (omega arith)), ◌>>=◌, run) runs, m2, t2)
