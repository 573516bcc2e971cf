-- ===== src/Index/Finished.antt =====
-- `buildIndexes` (go/indexes.go) on a report whose rows are linked.
use osvpy.Prelude.{
  ℕ, ◌<◌, ◌≡◌, ◌⊎◌, refl, sym, ap, subst, ◌∙◌, List, [], ◌∷◌, length, set, replicate, get_elem?,
  some, none, ℤ, true, Bool-cases, inl, inr, ◌==◌, ==_iff, arith, All, All-get_elem?,
  get_elem?-some_lt, get_elem?-set_self, get_elem?-set_ne, ◌≢◌, length-set, length-replicate,
}
use osvpy.Run.{◌>>=◌, Returns, store_lem}
use osvpy.Report.Stored.{occurrence_zero, license_zero}
use osvpy.Store.{ReportStore, ReportIndex}
use osvpy.Abi.{index_value}
use osvpy.Index.Make.{make_index}
use osvpy.Index.Edges.{edges_of}
use osvpy.Index.Rows.{row}
use osvpy.Index.Built.{make_index-ListsRows, make_index-HasCounts}
use osvpy.Index.Reading.{list_value, ListsRows-reads, HasCounts-reads, row-IsNumbered}
use osvpy.Index.Visits.{visit}
use osvpy.Index.Plan.{IndexDefinition, IndexBuild, definitions}
use osvpy.Index.Build.{no_index, build_each, build_indexes}
use osvpy.Index.Linked.{IsLinked}
use osvpy.Index.Planned.{IsReady, definitions-IsReady}
use osvpy.Index.Scheduled.{has_slot, IsPlaced, index_build_order_lem}

-- The index has the rows of a definition, in whatever report it stands.
unfoldable IsBuilt : ReportStore → IndexDefinition → ReportIndex → Type 0
IsBuilt r d idx =
    (r' : ReportStore) (id k kind : ℕ) (i : ℤ)
    → get_elem? r'.indexes id ≡ some idx
    → k < d.size
    → index_value r' id k kind i ≡ list_value kind (row k (edges_of (visit r d.name).visits)) i

unfoldable Holds : ReportStore → List ReportIndex → ℕ → IndexDefinition → Type 0
Holds r indexes s d = (idx : ReportIndex) × (get_elem? indexes s ≡ some idx) × IsBuilt r d idx

built :
    (r : ReportStore) (d : IndexDefinition)
    → IsReady r d
    → Returns
        (make_index none d.name d.size d.contiguous (visit r d.name))
        λ x. (x.0 ≡ none) × IsBuilt r d x.1
unfolding IsBuilt
built r d h = elim (Bool-cases d.contiguous) [
  | inr e ↦
      let (x, run, (calm, lists)) =
        make_index-ListsRows d.name d.size (visit r d.name) h.fits h.ends in
      (
        x,
        rw e run,
        (
          calm,
          λ r' id k kind i found less.
              ListsRows-reads r' id d.size k kind _ x.1 found h.fits lists less i,
        ),
      )
  | inl e ↦
      let (x, run, (calm, counts)) =
        make_index-HasCounts d.name d.size (visit r d.name) h.fits h.ends in
      (
        x,
        rw e run,
        (
          calm,
          λ r' id k kind i found less.
              HasCounts-reads r' id d.size k kind _ x.1 found h.fits counts (h.numbered e) less i
              ∙ ap (λ rows. list_value kind rows i) (sym (row-IsNumbered k _ (h.numbered e))),
        ),
      )
]

-- A write to one slot.
Holds-set :
    (r : ReportStore) (indexes : List ReportIndex) (b : IndexBuild) (idx : ReportIndex)
    (bs : List IndexBuild) (s : ℕ) (d : IndexDefinition)
    → b.slot < length indexes
    → IsBuilt r b.definition idx
    → (s ≡ b.slot → d ≡ b.definition)
    → (has_slot s (b ∷ bs) ≡ true) ⊎ Holds r indexes s d
    → (has_slot s bs ≡ true) ⊎ Holds r (set indexes b.slot idx) s d
unfolding has_slot Holds
Holds-set r indexes b idx bs s d less h same k = elim (Bool-cases (b.slot == s)) [
  | inl e ↦
      let here : b.slot ≡ s = (==_iff b.slot s).0 e in
      inr (
        idx,
        subst (λ j. get_elem? (set indexes b.slot idx) j ≡ some idx) here
            (get_elem?-set_self indexes b.slot idx less),
        subst (λ c. IsBuilt r c idx) (sym (same (sym here))) h,
      )
  | inr e ↦
      let apart : b.slot ≢ s = λ same'. absurd (ground (arith, same')) in
      let kept = get_elem?-set_ne indexes b.slot s idx apart in
      let left : has_slot s (b ∷ bs) ≡ has_slot s bs = rw e refl in
      elim k [
        | inl f ↦ inl (sym left ∙ f)
        | inr (old, found, reads) ↦ inr (old, kept ∙ found, reads)
      ]
]

found_same : {c d : IndexDefinition} → some c ≡ some d → c ≡ d
found_same e = cc

module _ (r : ReportStore) (h : IsLinked r) where
  build_each_lem :
      (bs : List IndexBuild) (indexes : List ReportIndex)
      → All (IsPlaced 0 (definitions r)) bs
      → length indexes ≡ length (definitions r)
      → Returns (build_each r bs none indexes) λ x.
        (x.1 ≡ none)
        × ((s : ℕ) (d : IndexDefinition)
            → get_elem? (definitions r) s ≡ some d
            → (has_slot s bs ≡ true) ⊎ Holds r indexes s d
            → Holds r x.0 s d)
  unfolding build_each has_slot IsPlaced
  build_each_lem [] indexes placed many =
      ((indexes, none), refl, (refl, λ s d e k. elim k [ inl f ↦ absurd (cc) | inr g ↦ g ]))
  build_each_lem (b ∷ bs) indexes placed many =
      let (n, place, what) = placed.0 in
      let here : b.slot ≡ n = omega (arith, place) in
      let (x, made, (calm, reads)) =
        built r b.definition
          (All-get_elem? (IsReady r) (definitions r) n (definitions-IsReady r h) what) in
      let inside : b.slot < length indexes =
        omega (arith, here, many, get_elem?-some_lt (definitions r) n what) in
      let ((all, ctx), run, (calm', held)) =
        build_each_lem bs (set indexes b.slot x.1) placed.1
          (length-set indexes b.slot x.1 ∙ many) in
      (
        (all, ctx),
        rw (made, ◌>>=◌, calm, store_lem indexes b.slot x.1 inside, run) refl,
        (
          calm',
          λ s d e k. held s d e (
              Holds-set r indexes b x.1 bs s d inside reads
                (λ same. found_same (sym e ∙ ap (get_elem? (definitions r)) (same ∙ here) ∙ what))
                k),
        ),
      )

pub build_indexes_lem :
    (r : ReportStore)
    → IsLinked r
    → Returns (build_indexes none r) λ x.
      (s k kind : ℕ) (i : ℤ) (d : IndexDefinition)
      → get_elem? (definitions r) s ≡ some d
      → k < d.size
      → index_value x.1 s k kind i ≡ list_value kind (row k (edges_of (visit r d.name).visits)) i
unfolding build_indexes Holds IsBuilt
build_indexes_lem r h =
    let ((order, ctx), planned, (calm, many, placed, covered)) = index_build_order_lem r h in
    let ((indexes, ctx'), run, (calm', held)) =
      build_each_lem r h order (replicate (length order) no_index) placed
        (length-replicate (length order) no_index ∙ many) in
    let r' : ReportStore = record r { indexes = indexes } in
    (
      (ctx', r'),
      rw (planned, ◌>>=◌, calm, run) refl,
      λ s k kind i d e less.
          let (idx, found, reads) =
            held s d e (inl (covered s (get_elem?-some_lt (definitions r) s e))) in
          reads r' s k kind i found less,
    )

-- For a report whose rows refer to rows that are there, with a vulnerability for each advisory,
-- whose occurrences are in the order of their images and whose findings are in the order of their
-- occurrences, whose tables of keys have fewer than 2^32 - 1 rows and which has at most 2^32 - 1
-- occurrences and findings together, and with a context that is never cancelled, `build_indexes`
-- returns a report in which each of the planned indexes reads, at each of its keys and at any index
-- argument, as the ascending list without repetitions of the values that `visit` hands out for that
-- key.
pub build_indexes-row :
    (r : ReportStore) (s k kind : ℕ) (i : ℤ) (d : IndexDefinition)
    → IsLinked r
    → get_elem? (definitions r) s ≡ some d
    → k < d.size
    → Returns (build_indexes none r) λ x.
      index_value x.1 s k kind i ≡ list_value kind (row k (edges_of (visit r d.name).visits)) i
build_indexes-row r s k kind i d h e less =
    let (x, run, reads) = build_indexes_lem r h in (x, run, reads s k kind i d e less)
