-- ===== src/Index/Built.antt =====
-- `makeIndex` (go/indexes.go) from its edges to the finished index.
use osvpy.Prelude.{
  ℕ, zero, suc, ◌+◌, ◌-◌, ◌^◌, ◌≤◌, ◌<◌, ◌≡◌, refl, ap, subst, ◌∙◌, List, [], ◌∷◌, ◌++◌, length,
  set, take, replicate, get_elem?, some, none, pos, true, false, arith, All, get_elem?-some_lt,
  get_elem?-set_self, get_elem?-set_ne, get_elem?-take, length-set, length-replicate, take-nil,
}
use native.Mathlib.Decide.{ℕ_discrete}
use osvpy.Text.{Text}
use osvpy.Run.{ok, ◌>>=◌, Returns, max_uint32, checked_lem}
use osvpy.Slabs.{Slabs, uint32_zero, empty}
use osvpy.Slabs
use osvpy.Slabs.Rows.{Models}
use osvpy.Slabs.Laws.{empty-Models, at-some, write-set}
use osvpy.Slabs.Resize.{resize-take, truncate-take}
use osvpy.Store.{ReportIndex}
use osvpy.Index.{prefix_index_counts}
use osvpy.Index.Make.{
  Visit, Visits, count_edges, copy_offsets, fill_edges, BuildState, build_rows, make_index,
}
use osvpy.Index.Edges.{
  Edge, edges_of, below, below-suc, below-le, below_mono, Tabulates, Tabulates-ext, At,
}
use osvpy.Index.Counting.{counted, count_edges_lem, prefix-below, copy_offsets_lem}
use osvpy.Index.Filling.{HasRoom, fill_edges_lem}
use osvpy.Index.Rows.{row, starts, starts-le, starts-next, BuiltTo, build_rows_lem}

-- Edges whose keys and values fit the index.
pub record Fits (size : ℕ) (es : List Edge) : Type 0 where
  pub keys : All (λ (e : Edge). (e.0 < size) × (e.1 < 2 ^ 32)) es
  pub few : length es ≤ max_uint32
  pub rows : size < max_uint32

-- The index lists, for each key, the values of its edges.
pub record ListsRows (size : ℕ) (es : List Edge) (idx : ReportIndex) : Type 0 where
  pub offs : List ℕ
  pub ms : List ℕ
  pub offs_models : Models idx.offsets offs
  pub ms_models : Models idx.members ms
  pub starts_at : Tabulates (size + 1) (λ k. starts k es) offs
  pub rows_at : (k : ℕ) → k < size → At ms (starts k es) (row k es)
  pub listed : idx.range ≡ false

-- The index has the numbers of edges with smaller keys.
pub record HasCounts (size : ℕ) (es : List Edge) (idx : ReportIndex) : Type 0 where
  pub offs : List ℕ
  pub offs_models : Models idx.offsets offs
  pub starts_at : Tabulates (size + 1) (λ k. below k es) offs
  pub ranged : idx.range ≡ true

zeros-Tabulates : (n : ℕ) → Tabulates n (λ i. 0) (replicate n 0)
unfolding replicate
zeros-Tabulates n = record { size = length-replicate n 0; entries = entries n }
  where
    entries : (n i : ℕ) → i < n → get_elem? {A = ℕ} (replicate n 0) i ≡ some 0
    entries zero i less = absurd (omega arith)
    entries (suc n) zero less = refl
    entries (suc n) (suc i) less = entries n i (omega arith)

-- A fresh table of zeros.
zeroed :
    (n : ℕ)
    → n < 2 ^ 32
    → (s : Slabs ℕ) × (Slabs.resize empty (pos n) ≡ ok s) × Models s (replicate n 0)
zeroed n h =
    let (s, run, m) = resize-take (empty {A = ℕ}) [] empty-Models n h in
    let rest : n - 0 ≡ n = omega arith in
    (
      s,
      run,
      subst (Models s)
          (ap (λ r. r ++ replicate (n - 0) 0) (take-nil n) ∙ ap (λ k. replicate k 0) rest) m,
    )

below-HasRoom :
    (size room : ℕ) (es : List Edge) → room ≡ below size es → HasRoom size room (λ k. below k es) es
below-HasRoom size room es e = record {
  apart = λ k l less high. omega (arith, below-suc k es, below_mono (suc k) l es (omega arith));
  inside = λ k less. omega (arith, below-suc k es, below_mono (suc k) size es (omega arith), e);
}

fitting_keys :
    (size : ℕ) (es : List Edge)
    → All (λ (e : Edge). (e.0 < size) × (e.1 < 2 ^ 32)) es
    → All (λ (e : Edge). e.0 < size) es
fitting_keys size [] h = tt
fitting_keys size (e ∷ es) h = (h.0.0, fitting_keys size es h.1)

module _ (size : ℕ) (vs : List Visit) (fits : Fits size (edges_of vs)) where
  abbrev es : List Edge
  es = edges_of vs

  -- The first visit and the sums.
  count_phase :
      (s0 s1 s2 : Slabs ℕ) × (offs : List ℕ) × (Slabs.resize empty (pos (size + 1)) ≡ ok s0)
      × (count_edges vs 0 none s0 ≡ ok (none, s1))
      × (prefix_index_counts none s1 ≡ ok (none, s2))
      × Models s2 offs
      × Tabulates (size + 1) (λ k. below k es) offs
  count_phase =
      let (s0, run0, m0) = zeroed (size + 1) (omega (arith, fits.rows)) in
      let (s1, offs1, run1, m1, t1) =
        count_edges_lem size vs 0 (λ i. 0) s0 (replicate (size + 1) 0) m0
          (zeros-Tabulates (size + 1)) (fitting_keys size es fits.keys) (omega (arith, fits.few))
          (λ i. omega arith) in
      let t1' =
        Tabulates-ext (size + 1) (λ i. 0 + counted es i) (counted es) offs1 (λ i less. omega arith)
          t1 in
      let (s2, offs2, run2, m2, t2) = prefix-below size es s1 offs1 m1 t1' fits.few in
      (s0, s1, s2, offs2, run0, run1, run2, m2, t2)

  -- The second visit.
  fill_phase :
      (offsets : Slabs ℕ) (offs : List ℕ)
      → Models offsets offs
      → Tabulates (size + 1) (λ k. below k es) offs
      → (m0 m1 cursor : Slabs ℕ) × (Slabs.resize empty (pos (below size es)) ≡ ok m0)
        × (copy_offsets size 0 offsets empty ≡ ok cursor)
        × (fill_edges vs none cursor m0 ≡ ok (none, m1))
        × BuiltTo size es 0 (record { ctx = none; kept = 0; offsets = offsets; members = m1 })
  unfolding starts
  fill_phase offsets offs m t =
      let (m0, run0, models0) =
        zeroed (below size es) (omega (arith, below-le size es, fits.few)) in
      let wide = length-replicate {A = ℕ} (below size es) 0 in
      let (cursor, cur, run1, mc, tc) =
        copy_offsets_lem size size 0 (λ k. below k es) offsets empty offs [] (omega arith)
          (omega (arith, fits.rows)) m t (empty-Models {A = ℕ})
          (record { size = refl; entries = λ i less. absurd (omega arith) }) in
      let (m1, ms1, run2, models1, wide1, found, kept) =
        fill_edges_lem size vs (λ k. below k es) cursor m0 cur (replicate (below size es) 0) mc tc
          models0 fits.keys (omega (arith, wide, below-le size es, fits.few))
          (below-HasRoom size (length (replicate (below size es) 0)) es wide) in
      (
        m0,
        m1,
        cursor,
        run0,
        run1,
        run2,
        record {
          calm = refl;
          kept = refl;
          offs = offs;
          ms = ms1;
          offs_models = m;
          ms_models = models1;
          progress = record {
            long = t.size;
            wide = wide1 ∙ wide;
            offs_done = λ j low. absurd (omega arith);
            offs_left = λ j high inside. t.entries j inside;
            rows_done = λ j low. absurd (omega arith);
            rows_left = λ j high inside. found j inside;
          };
        },
      )

  -- The last position and the release of what is not used.
  finish_phase :
      (name : Text) (s : BuildState)
      → BuiltTo size es size s
      → (offsets members : Slabs ℕ) × (Slabs.write s.offsets (pos size) (starts size es)
          ≡ ok offsets)
        × (Slabs.truncate s.members (pos (starts size es)) ≡ ok members)
        × ListsRows size es
            (record { name = name; offsets = offsets; members = members; range = false })
  finish_phase name s b =
      let p = b.progress in
      let n = starts size es in
      let (offsets, run, mo) =
        write-set s.offsets b.offs b.offs_models size n (omega (arith, p.long)) in
      let (members, runs, mm) =
        truncate-take s.members b.ms b.ms_models n
          (omega (arith, b.ms_models.size, p.wide, starts-le size es)) in
      (
        offsets,
        members,
        run,
        runs,
        record {
          offs = set b.offs size n;
          ms = take n b.ms;
          offs_models = mo;
          ms_models = mm;
          starts_at = record {
            size = length-set b.offs size n ∙ p.long;
            entries = λ j less. elim (ℕ_discrete size j) [
              | yes e ↦
                  subst (λ k. get_elem? (set b.offs size n) k ≡ some (starts k es)) e
                    (get_elem?-set_self b.offs size n (omega (arith, p.long)))
              | no ne ↦ get_elem?-set_ne b.offs size j n ne ∙ p.offs_done j (omega arith)
            ];
          };
          rows_at = λ k less. record {
            found = λ i v e.
                get_elem?-take n b.ms (starts k es + i)
                  (omega (arith, starts-next k size es less, get_elem?-some_lt (row k es) i e))
                ∙ (p.rows_done k less).found i v e;
          };
          listed = refl;
        },
      )

make_index_run :
    (name : Text) (size n kept : ℕ) (edges : Visits)
    (s0 s1 s2 m0 m1 cursor offsets members : Slabs ℕ) (s : BuildState)
    → Slabs.resize empty (pos (size + 1)) ≡ ok s0
    → count_edges edges.visits 0 none s0 ≡ ok (none, s1)
    → edges.finally ≡ ok tt
    → prefix_index_counts none s1 ≡ ok (none, s2)
    → Slabs.at s2 (pos size) ≡ ok n
    → Slabs.resize empty (pos n) ≡ ok m0
    → copy_offsets size 0 s2 empty ≡ ok cursor
    → fill_edges edges.visits none cursor m0 ≡ ok (none, m1)
    → build_rows size 0 (record { ctx = none; kept = 0; offsets = s2; members = m1 }) ≡ ok s
    → s.kept ≡ kept
    → kept < 2 ^ 32
    → Slabs.write s.offsets (pos size) kept ≡ ok offsets
    → Slabs.truncate s.members (pos kept) ≡ ok members
    → make_index none name size false edges
      ≡ ok (s.ctx, record { name = name; offsets = offsets; members = members; range = false })
unfolding make_index
make_index_run name size n kept edges s0 s1 s2 m0 m1 cursor offsets members s a b c d e f g h i j k
      l m =
    rw (a, ◌>>=◌, b, c, d, e, f, g, h, i) (rw (j, checked_lem kept k, ◌>>=◌, l, m) refl)

module _ (name : Text) (size : ℕ) (edges : Visits) (fits : Fits size (edges_of edges.visits))
    (ends : edges.finally ≡ ok tt) where
  pub make_index-ListsRows :
      Returns
        (make_index none name size false edges)
        λ r. (r.0 ≡ none) × ListsRows size (edges_of edges.visits) r.1
  make_index-ListsRows =
      let vs = edges.visits in
      let (s0, s1, s2, offs, run0, run1, run2, m, t) = count_phase size vs fits in
      let (m0, m1, cursor, run3, run4, run5, b0) = fill_phase size vs fits s2 offs m t in
      let small = below-le size (edges_of vs) in
      let (s, run6, b) =
        build_rows_lem size (edges_of vs) size 0 _ (omega arith) (omega (arith, small, fits.few))
          b0 in
      let (offsets, members, run7, run8, lists) = finish_phase size vs fits name s b in
      (
        (s.ctx, record { name = name; offsets = offsets; members = members; range = false }),
        make_index_run name size (below size (edges_of vs)) (starts size (edges_of vs)) edges s0 s1
            s2 m0 m1 cursor offsets members s run0 run1 ends run2
            (at-some s2 offs m size (t.entries size (omega arith))) run3 run4 run5 run6 b.kept
            (omega (arith, small, fits.few, starts-le size (edges_of vs))) run7 run8,
        (b.calm, lists),
      )

  pub make_index-HasCounts :
      Returns
        (make_index none name size true edges)
        λ r. (r.0 ≡ none) × HasCounts size (edges_of edges.visits) r.1
  unfolding make_index
  make_index-HasCounts =
      let vs = edges.visits in
      let (s0, s1, s2, offs, run0, run1, run2, m, t) = count_phase size vs fits in
      (
        (none, record { name = name; offsets = s2; members = empty; range = true }),
        rw (run0, ◌>>=◌, run1, ends, run2) refl,
        (refl, record { offs = offs; offs_models = m; starts_at = t; ranged = refl }),
      )
