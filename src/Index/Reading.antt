-- ===== src/Index/Reading.antt =====
-- An index of `makeIndex` (go/indexes.go), read by `indexValue` (go/abi.go).
use osvpy.Prelude.{
  ℕ, zero, suc, ◌+◌, ◌-◌, ◌%◌, ◌^◌, ◌≤◌, ◌<◌, ◌≡◌, refl, sym, ap, subst, ◌∙◌, List, [], ◌∷◌, length,
  set, get_elem?, some, none, pos, negsuc, ℤ, Bool, true, false, Bool-cases, Option-cases, inl, inr,
  ◌==◌, ==_iff, ltb, leb, lt→ltb, if◌then◌else◌, arith, All, get_elem?-some_lt, get_elem?_of_lt,
  get_elem?-set_self,
}
use osvpy.Text.{Text}
use osvpy.Run.{Run, ok, panic, ◌>>=◌, Returns, index_lem, invalid_index}
use osvpy.Maps.{nat_comparable}
use osvpy.Sorting.{compact, sort}
use osvpy.Sorting.Laws.{IsAscending, IsAscendingFrom, ascending_unique, compact-sort}
use osvpy.Slabs.{Slabs, uint32_zero}
use osvpy.Slabs
use osvpy.Slabs.Laws.{at-some}
use osvpy.Store.{ReportStore, ReportIndex}
use osvpy.Abi.{NativeValue, ref_value, seq_value, sequence, index_value}
use osvpy.Index.Make.{Visits, make_index}
use osvpy.Index.Edges.{Edge, edges_of, values, below, below-suc, below-le}
use osvpy.Index.Ordering.{ascending}
use osvpy.Index.Rows.{row, starts, starts-le}
use osvpy.Index.Built.{Fits, ListsRows, HasCounts, make_index-ListsRows, make_index-HasCounts}

-- A list of row numbers as a sequence property.
unfoldable pub list_value : ℕ → List ℕ → ℤ → Run NativeValue
list_value kind rows (negsuc i) = seq_value (length rows)
list_value kind rows (pos i) = elim (get_elem? rows i) [
  | some v ↦ ok (ref_value kind v 0)
  | none ↦ panic invalid_index
]

-- The values are numbered in their order, and the keys ascend.
abbrev pub IsNumbered : ℕ → List Edge → Type 0
IsNumbered n [] = Unit
IsNumbered n (e ∷ es) = (e.1 ≡ n) × All (λ (f : Edge). e.0 ≤ f.0) es × IsNumbered (n + 1) es

past : (rows : List ℕ) (i : ℕ) → get_elem? rows i ≡ none → leb (length rows) i ≡ true
past rows i e = elim (Bool-cases (leb (length rows) i)) [
  | inl h ↦ h
  | inr h ↦ let (v, found) = get_elem?_of_lt rows i (ground arith) in absurd (cc)
]

module _ (r : ReportStore) (id k kind start : ℕ) (rows : List ℕ) (idx : ReportIndex)
    (found : get_elem? r.indexes id ≡ some idx) (at_start : Slabs.at idx.offsets (pos k) ≡ ok start)
    (at_stop : Slabs.at idx.offsets (pos (k + 1)) ≡ ok (start + length rows))
    (small : start + length rows < 2 ^ 32) where
  -- A row of the index reads as the list `rows`, if its elements do.
  index_value_lem :
      ((i v : ℕ)
        → get_elem? rows i ≡ some v
        → (if idx.range
            then ok (ref_value kind (start + i) 0)
            else (do m ← Slabs.at idx.members (pos (start + i)); ok (ref_value kind m 0)))
          ≡ ok (ref_value kind v 0))
      → (i : ℤ) → index_value r id k kind i ≡ list_value kind rows i
  unfolding index_value sequence list_value
  index_value_lem element (negsuc i) =
      let n : (start + length rows + 2 ^ 32 - start) % 2 ^ 32 ≡ length rows = omega arith in
      rw (index_lem r.indexes id found, ◌>>=◌, at_start, at_stop, n) refl
  index_value_lem element (pos i) =
      let n : (start + length rows + 2 ^ 32 - start) % 2 ^ 32 ≡ length rows = omega arith in
      elim (Option-cases (get_elem? rows i)) [
        | inr (v, e) ↦
            let inside = get_elem?-some_lt rows i e in
            let test : leb (length rows) i ≡ false = ground arith in
            let sum : (start + i % 2 ^ 32) % 2 ^ 32 ≡ start + i = omega arith in
            rw (index_lem r.indexes id found, ◌>>=◌, at_start, at_stop, n, test, sum, e, list_value)
              (element i v e)
        | inl e ↦
            let test : leb (length rows) i ≡ true = past rows i e in
            rw (index_lem r.indexes id found, ◌>>=◌, at_start, at_stop, n, test, e, list_value) refl
      ]

pub ListsRows-reads :
    (r : ReportStore) (id size k kind : ℕ) (es : List Edge) (idx : ReportIndex)
    → get_elem? r.indexes id ≡ some idx
    → Fits size es
    → ListsRows size es idx
    → k < size
    → (i : ℤ) → index_value r id k kind i ≡ list_value kind (row k es) i
ListsRows-reads r id size k kind es idx found fits h less =
    let next : starts (k + 1) es ≡ starts k es + length (row k es) =
      let e : k + 1 ≡ suc k = omega arith in ap (λ j. starts j es) e ∙ (unfold starts in refl) in
    index_value_lem r id k kind (starts k es) (row k es) idx found
      (at-some idx.offsets h.offs h.offs_models k (h.starts_at.entries k (omega arith)))
      (at-some idx.offsets h.offs h.offs_models (k + 1) (h.starts_at.entries (k + 1) (omega arith))
        ∙ ap ok next)
      (omega (arith, next, starts-le (k + 1) es, below-le (k + 1) es, fits.few))
      (λ i v e.
        rw
          (
            h.listed,
            at-some idx.members h.ms h.ms_models (starts k es + i) ((h.rows_at k less).found i v e),
          )
          refl)

none_below : (k : ℕ) (es : List Edge) → All (λ (f : Edge). k ≤ f.0) es → below k es ≡ 0
unfolding below
none_below k [] h = refl
none_below k (e ∷ es) h = ground (arith, none_below k es h.1, h.0)

none_valued : (k l : ℕ) (es : List Edge) → k < l → All (λ (f : Edge). l ≤ f.0) es → values k es ≡ []
unfolding values
none_valued k l [] less h = refl
none_valued k l (e ∷ es) less h = ground (arith, none_valued k l es less h.1, h.0)

head_value :
    (n b x : ℕ) (xs : List ℕ)
    → x ≡ n
    → b ≡ 0
    → ((i v : ℕ) → get_elem? xs i ≡ some v → v ≡ n + 1 + b + i)
    → (i v : ℕ) → get_elem? (x ∷ xs) i ≡ some v
    → v ≡ n + b + i
head_value n b x xs e z rest zero v d = ground arith
head_value n b x xs e z rest (suc i) v d = omega (arith, rest i v d)

-- The values of numbered edges follow one another.
values-IsNumbered :
    (n k : ℕ) (es : List Edge)
    → IsNumbered n es
    → (i v : ℕ) → get_elem? (values k es) i ≡ some v
    → v ≡ n + below k es + i
unfolding values below
values-IsNumbered n k [] h i v e = absurd (cc)
values-IsNumbered n k (f ∷ es) h i v e = elim (Bool-cases (f.0 == k)) [
  | inl same ↦
      let d =
        subst (λ b. get_elem? (if b then f.1 ∷ values k es else values k es) i ≡ some v) same e in
      let to : f.0 ≡ k = (==_iff f.0 k).0 same in
      let first : below k es ≡ 0 =
        none_below k es (subst (λ j. All (λ (g : Edge). j ≤ g.0) es) to h.1) in
      let low : ltb f.0 k ≡ false = ground arith in
      rw low (
        head_value n (below k es) f.1 (values k es) h.0 first (values-IsNumbered (n + 1) k es h.2) i
          v d)
  | inr other ↦
      let e' : get_elem? (values k es) i ≡ some v =
        subst (λ b. get_elem? (if b then f.1 ∷ values k es else values k es) i ≡ some v) other e in
      elim (Bool-cases (ltb f.0 k)) [
        | inl low ↦ rw low (omega (arith, values-IsNumbered (n + 1) k es h.2 i v e'))
        | inr high ↦ let no = none_valued k f.0 es (ground arith) h.1 in absurd (ground (arith, no))
      ]
]

following :
    (b x : ℕ) (xs : List ℕ)
    → x ≡ b
    → ((i v : ℕ) → get_elem? xs i ≡ some v → v ≡ b + 1 + i)
    → IsAscendingFrom x xs
following b x [] e h = tt
following b x (y ∷ ys) e h =
    let next : y ≡ b + 1 = omega (arith, h 0 y refl) in
    (lt→ltb x y (omega arith), following (b + 1) y ys next (λ i v d. omega (arith, h (suc i) v d)))

values-IsAscending :
    (b : ℕ) (xs : List ℕ) → ((i v : ℕ) → get_elem? xs i ≡ some v → v ≡ b + i) → IsAscending xs
values-IsAscending b [] h = tt
values-IsAscending b (x ∷ xs) h =
    following b x xs (omega (arith, h 0 x refl)) (λ i v d. omega (arith, h (suc i) v d))

-- The row of a key is then the list of its values.
pub row-IsNumbered : (k : ℕ) (es : List Edge) → IsNumbered 0 es → row k es ≡ values k es
unfolding row
row-IsNumbered k es h =
    let (up, same) = compact-sort (values k es) in
    ascending_unique (compact (sort (values k es))) (values k es) up
      (values-IsAscending (below k es) (values k es)
        (λ i v d. omega (arith, values-IsNumbered 0 k es h i v d)))
      same

pub HasCounts-reads :
    (r : ReportStore) (id size k kind : ℕ) (es : List Edge) (idx : ReportIndex)
    → get_elem? r.indexes id ≡ some idx
    → Fits size es
    → HasCounts size es idx
    → IsNumbered 0 es
    → k < size
    → (i : ℤ) → index_value r id k kind i ≡ list_value kind (values k es) i
HasCounts-reads r id size k kind es idx found fits h numbered less =
    let next : below (k + 1) es ≡ below k es + length (values k es) =
      let e : k + 1 ≡ suc k = omega arith in ap (λ j. below j es) e ∙ below-suc k es in
    index_value_lem r id k kind (below k es) (values k es) idx found
      (at-some idx.offsets h.offs h.offs_models k (h.starts_at.entries k (omega arith)))
      (at-some idx.offsets h.offs h.offs_models (k + 1) (h.starts_at.entries (k + 1) (omega arith))
        ∙ ap ok next)
      (omega (arith, next, below-le (k + 1) es, fits.few))
      (λ i v e.
        let it : v ≡ below k es + i = omega (arith, values-IsNumbered 0 k es numbered i v e) in
        rw h.ranged (ap (λ j. ok (ref_value kind j 0)) (sym it)))

-- For a size below 2^32 - 1 and edges whose keys are below it, whose values are below 2^32 and of
-- which there are at most 2^32 - 1, whose visit ends without a panic, and which are numbered in the
-- order of their keys where the index is to be contiguous, and with a context that is never
-- cancelled, `make_index` returns an index that, put into any slot of a report, reads at each key
-- and at any index argument as the ascending list without repetitions of the values of that key.
pub make_index-row :
    (name : Text) (contiguous : Bool) (edges : Visits) (r : ReportStore) (id size k kind : ℕ)
    (i : ℤ)
    → Fits size (edges_of edges.visits)
    → edges.finally ≡ ok tt
    → (contiguous ≡ true → IsNumbered 0 (edges_of edges.visits))
    → id < length r.indexes
    → k < size
    → Returns (make_index none name size contiguous edges) λ x.
      index_value (record r { indexes = set r.indexes id x.1 }) id k kind i
      ≡ list_value kind (row k (edges_of edges.visits)) i
make_index-row name false edges r id size k kind i fits ends numbered inside less =
    let es = edges_of edges.visits in
    let (x, run, (calm, lists)) = make_index-ListsRows name size edges fits ends in
    let r' : ReportStore = record r { indexes = set r.indexes id x.1 } in
    (
      x,
      run,
      ListsRows-reads r' id size k kind es x.1 (get_elem?-set_self r.indexes id x.1 inside) fits
          lists less i,
    )
make_index-row name true edges r id size k kind i fits ends numbered inside less =
    let es = edges_of edges.visits in
    let (x, run, (calm, counts)) = make_index-HasCounts name size edges fits ends in
    let r' : ReportStore = record r { indexes = set r.indexes id x.1 } in
    (
      x,
      run,
      HasCounts-reads r' id size k kind es x.1 (get_elem?-set_self r.indexes id x.1 inside) fits
            counts (numbered refl) less i
          ∙ ap (λ rows. list_value kind rows i) (sym (row-IsNumbered k es (numbered refl))),
    )
