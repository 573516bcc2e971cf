-- ===== src/Index/Rows.antt =====
-- The loop of `makeIndex` (go/indexes.go) over the keys.
use osvpy.Prelude.{
  ℕ, zero, suc, ◌+◌, ◌-◌, ◌≤◌, ◌<◌, ◌≡◌, refl, ap, subst, ◌∙◌, List, [], ◌∷◌, length, set,
  get_elem?, some, none, pos, arith, get_elem?-set_self, get_elem?-set_ne, length-set,
}
use native.Mathlib.Decide.{ℕ_discrete}
use osvpy.Run.{ok, ◌>>=◌, max_uint32, checked_lem}
use osvpy.Context.{check_context}
use osvpy.Maps.{nat_comparable}
use osvpy.Sorting.{sort, compact, compact_from}
use osvpy.Slabs.{Slabs, uint32_zero}
use osvpy.Slabs.Rows.{Models}
use osvpy.Slabs.Laws.{at-some, write-set}
use osvpy.Slabs
use osvpy.Index.Make.{BuildState, build_row, build_rows, sort_window, compact_members}
use osvpy.Index.Edges.{
  Edge, values, below, below-suc, below_mono, At, At-below, At-above, Outside, Outside-trans,
  Outside-widen,
}
use osvpy.Index.Ordering.{ascending, ordered, length-ordered, compact-ordered}
use osvpy.Index.Sinking.{sort_window_lem}
use osvpy.Index.Compaction.{compact_members_lem}

-- The row of key `k`: its values, each once and in ascending order.
unfoldable pub row : ℕ → List Edge → List ℕ
row k es = compact (sort (values k es))

-- Where it starts.
unfoldable pub starts : ℕ → List Edge → ℕ
starts zero es = 0
starts (suc k) es = starts k es + length (row k es)

length-compact_from : (x : ℕ) (xs : List ℕ) → length (compact_from x xs) ≤ length xs
unfolding compact_from
length-compact_from x [] = omega arith
length-compact_from x (y ∷ ys) = ground (arith, length-compact_from y ys)

length-compact : (xs : List ℕ) → length (compact xs) ≤ length xs
unfolding compact
length-compact [] = omega arith
length-compact (x ∷ xs) = omega (arith, length-compact_from x xs)

pub row-compact : (k : ℕ) (es : List Edge) → compact (ordered (values k es)) ≡ row k es
unfolding row
row-compact k es = compact-ordered (values k es)

pub length-row : (k : ℕ) (es : List Edge) → length (row k es) ≤ length (values k es)
length-row k es =
    subst (λ r. length r ≤ length (values k es)) (row-compact k es)
      (omega (arith, length-compact (ordered (values k es)), length-ordered (values k es)))

pub starts-le : (k : ℕ) (es : List Edge) → starts k es ≤ below k es
unfolding starts
starts-le zero es = omega arith
starts-le (suc k) es = omega (arith, starts-le k es, length-row k es, below-suc k es)

pub starts_mono : (k n : ℕ) (es : List Edge) → starts k es ≤ starts (n + k) es
unfolding starts
starts_mono k zero es = let e : zero + k ≡ k = omega arith in rw e (omega arith)
starts_mono k (suc n) es =
    let e : suc n + k ≡ suc (n + k) = omega arith in rw e (omega (arith, starts_mono k n es))

kept_next :
    (i : ℕ) (es : List Edge)
    → starts i es + length (compact (ordered (values i es))) ≡ starts (i + 1) es
kept_next i es =
    let next : suc i ≡ i + 1 = omega arith in
    ap (λ r. starts i es + length r) (row-compact i es)
    ∙ subst (λ k. starts i es + length (row i es) ≡ starts k es) next (unfold starts in refl)

-- A row ends before a later one starts.
pub starts-next : (j i : ℕ) (es : List Edge) → j < i → starts j es + length (row j es) ≤ starts i es
starts-next j i es less =
    let e : i - suc j + suc j ≡ i = omega arith in
    let next : starts (suc j) es ≡ starts j es + length (row j es) = unfold starts in refl in
    subst (λ n. starts j es + length (row j es) ≤ n) (ap (λ k. starts k es) e)
      (omega (arith, starts_mono (suc j) (i - suc j) es, next))

build_row_run :
    (i : ℕ) (s : BuildState) (start stop n kept : ℕ) (offsets' members1 members2 : Slabs ℕ)
    → s.ctx ≡ none
    → s.kept ≡ n
    → n ≤ max_uint32
    → Slabs.at s.offsets (pos i) ≡ ok start
    → Slabs.at s.offsets (pos (i + 1)) ≡ ok stop
    → sort_window (record { start = start; stop = stop }) none s.members ≡ ok (none, members1)
    → Slabs.write s.offsets (pos i) n ≡ ok offsets'
    → compact_members (stop - start) start start n 0 none members1 ≡ ok (kept, none, members2)
    → build_row i s
      ≡ ok (record { ctx = none; kept = kept; offsets = offsets'; members = members2 })
unfolding build_row check_context
build_row_run i s start stop n kept offsets' members1 members2 calm e small at_i at_next sorted
      wrote packed =
    rw (calm, ◌>>=◌, at_i, at_next, sorted, e, checked_lem n (omega arith), wrote, packed) refl

module _ (size : ℕ) (es : List Edge) where
  -- The first `i` keys have their rows, and the others still their values.
  pub record Progress (i : ℕ) (offs ms : List ℕ) : Type 0 where
    pub long : length offs ≡ size + 1
    pub wide : length ms ≡ below size es
    pub offs_done : (j : ℕ) → j < i → get_elem? offs j ≡ some (starts j es)
    pub offs_left : (j : ℕ) → i ≤ j → j < size + 1 → get_elem? offs j ≡ some (below j es)
    pub rows_done : (j : ℕ) → j < i → At ms (starts j es) (row j es)
    pub rows_left : (j : ℕ) → i ≤ j → j < size → At ms (below j es) (values j es)

  pub record BuiltTo (i : ℕ) (s : BuildState) : Type 0 where
    pub calm : s.ctx ≡ none
    pub kept : s.kept ≡ starts i es
    pub offs : List ℕ
    pub ms : List ℕ
    pub offs_models : Models s.offsets offs
    pub ms_models : Models s.members ms
    pub progress : Progress i offs ms

  -- One more row.
  next-Progress :
      (i : ℕ) (offs ms ms' : List ℕ)
      → i < size
      → Progress i offs ms
      → At ms' (starts i es) (row i es)
      → Outside (starts i es) (below (suc i) es) ms ms'
      → Progress (i + 1) (set offs i (starts i es)) ms'
  next-Progress i offs ms ms' less p at out = record {
    long = length-set offs i (starts i es) ∙ p.long;
    wide = out.size ∙ p.wide;
    offs_done = λ j low. elim (ℕ_discrete i j) [
      | yes e ↦
          subst (λ k. get_elem? (set offs i (starts i es)) k ≡ some (starts k es)) e
            (get_elem?-set_self offs i (starts i es) (omega (arith, p.long)))
      | no ne ↦ get_elem?-set_ne offs i j (starts i es) ne ∙ p.offs_done j (omega arith)
    ];
    offs_left = λ j high inside.
        get_elem?-set_ne offs i j (starts i es) (λ e. omega arith)
        ∙ p.offs_left j (omega arith) inside;
    rows_done = λ j low. elim (ℕ_discrete i j) [
      | yes e ↦ subst (λ k. At ms' (starts k es) (row k es)) e at
      | no ne ↦
          At-below (starts i es) (below (suc i) es) (starts j es) ms ms' (row j es) out
            (starts-next j i es (omega arith)) (p.rows_done j (omega arith))
    ];
    rows_left = λ j high inside.
        At-above (starts i es) (below (suc i) es) (below j es) ms ms' (values j es) out
          (below_mono (suc i) j es (omega arith)) (p.rows_left j (omega arith) inside);
  }

  build_row_lem :
      (i : ℕ) (s : BuildState)
      → i < size
      → below size es ≤ max_uint32
      → BuiltTo i s
      → (s' : BuildState) × (build_row i s ≡ ok s') × BuiltTo (i + 1) s'
  build_row_lem i s less small b =
      let p = b.progress in
      let vs = values i es in
      let step : below (suc i) es ≡ below i es + length vs = below-suc i es in
      let read_start =
        at-some s.offsets b.offs b.offs_models i (p.offs_left i (omega arith) (omega arith)) in
      let next : i + 1 ≡ suc i = omega arith in
      let read_stop =
        at-some s.offsets b.offs b.offs_models (i + 1)
          (p.offs_left (i + 1) (omega arith) (omega arith)) in
      let stop_is : below (i + 1) es ≡ below i es + length vs = ap (λ k. below k es) next ∙ step in
      let (members1, sorted, (ms1, m1, at1, out1)) =
        sort_window_lem (below i es) (below (i + 1) es) vs s.members b.ms stop_is b.ms_models
          (p.rows_left i (omega arith) less) in
      let n = starts i es in
      let (offsets', wrote, mo) =
        write-set s.offsets b.offs b.offs_models i n (omega (arith, p.long)) in
      let (members2, packed, (ms2, m2, at2, out2)) =
        compact_members_lem (below i es) (ordered vs) n members1 ms1 m1 at1 (starts-le i es) in
      let rounds : below (i + 1) es - below i es ≡ length (ordered vs) =
        omega (arith, stop_is, length-ordered vs) in
      let stays : Outside n (below (suc i) es) b.ms ms2 =
        Outside-trans n (below (suc i) es) b.ms ms1 ms2
          (Outside-widen (below i es) (below (i + 1) es) n (below (suc i) es) b.ms ms1
            (starts-le i es) (omega (arith, stop_is, step)) out1)
          (Outside-widen n (below i es + length (ordered vs)) n (below (suc i) es) ms1 ms2
            (omega arith) (omega (arith, step, length-ordered vs)) out2) in
      (
        record {
          ctx = none;
          kept = n + length (compact (ordered vs));
          offsets = offsets';
          members = members2;
        },
        build_row_run i s (below i es) (below (i + 1) es) n (n + length (compact (ordered vs)))
            offsets' members1 members2 b.calm b.kept
            (omega (arith, starts-le i es, below_mono i size es (omega arith))) read_start read_stop
            sorted wrote
            (ap (λ k. compact_members k (below i es) (below i es) n 0 none members1) rounds
              ∙ packed),
        record {
          calm = refl;
          kept = kept_next i es;
          offs = set b.offs i n;
          ms = ms2;
          offs_models = mo;
          ms_models = m2;
          progress =
              next-Progress i b.offs b.ms ms2 less p (subst (At ms2 n) (row-compact i es) at2)
                stays;
        },
      )

  pub build_rows_lem :
      (rounds i : ℕ) (s : BuildState)
      → i + rounds ≡ size
      → below size es ≤ max_uint32
      → BuiltTo i s
      → (s' : BuildState) × (build_rows rounds i s ≡ ok s') × BuiltTo size s'
  unfolding build_rows
  build_rows_lem zero i s e small b = (s, refl, subst (λ k. BuiltTo k s) (omega arith) b)
  build_rows_lem (suc rounds) i s e small b =
      let (s1, run, b1) = build_row_lem i s (omega arith) small b in
      let (s2, runs, b2) = build_rows_lem rounds (i + 1) s1 (omega arith) small b1 in
      (s2, rw run runs, b2)
