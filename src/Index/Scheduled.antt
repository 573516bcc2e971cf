-- ===== src/Index/Scheduled.antt =====
-- `indexBuildOrder` (go/indexes.go) on a report whose rows are linked.
use osvpy.Prelude.{
  ℕ, zero, suc, ◌+◌, ◌%◌, ◌^◌, ◌≤◌, ◌<◌, ◌≡◌, refl, sym, ap, subst, ◌∙◌, List, [], ◌∷◌, length,
  get_elem?, some, none, true, false, Bool, Bool-cases, inl, inr, ◌==◌, ◌||◌, ltb, if◌then◌else◌,
  arith, All, All-get_elem?, get_elem?_of_lt,
}
use osvpy.Text.{Text, bytes}
use osvpy.Run.{◌>>=◌, Returns, max_uint32}
use osvpy.Context.{check_context}
use osvpy.Sorting.{place_by, sort_by}
use osvpy.Slabs.Laws.{at-some}
use osvpy.Report.Stored.{occurrence_zero, license_zero}
use osvpy.Store.{ReportStore}
use osvpy.Index.Counting.{poll_at-none}
use osvpy.Index.Visits.{is_name, named}
use osvpy.Index.Plan.{
  IndexDefinition, IndexBuild, definitions, count_noncompliant, raw_edges, index_build,
  index_builds, is_built_before, index_build_order,
}
use osvpy.Index.Linked.{IsLinked, OccurrenceLinked, noncompliant_status}

-- A build of the plan has the slot `s`.
unfoldable pub has_slot : ℕ → List IndexBuild → Bool
has_slot s [] = false
has_slot s (b ∷ bs) = b.slot == s || has_slot s bs

module _ (less : IndexBuild → IndexBuild → Bool) where
  has_slot-place_by :
      (s : ℕ) (b : IndexBuild) (bs : List IndexBuild)
      → has_slot s (place_by less b bs) ≡ (b.slot == s || has_slot s bs)
  unfolding has_slot place_by
  has_slot-place_by s b [] = refl
  has_slot-place_by s b (c ∷ bs) = ground (arith, has_slot-place_by s b bs)

  has_slot-sort_by : (s : ℕ) (bs : List IndexBuild) → has_slot s (sort_by less bs) ≡ has_slot s bs
  unfolding has_slot sort_by
  has_slot-sort_by s [] = refl
  has_slot-sort_by s (b ∷ bs) =
      ground (arith, has_slot-place_by s b (sort_by less bs), has_slot-sort_by s bs)

  length-place_by :
      (b : IndexBuild) (bs : List IndexBuild) → length (place_by less b bs) ≡ suc (length bs)
  unfolding place_by
  length-place_by b [] = refl
  length-place_by b (c ∷ bs) = ground (arith, length-place_by b bs)

  length-sort_by : (bs : List IndexBuild) → length (sort_by less bs) ≡ length bs
  unfolding sort_by
  length-sort_by [] = refl
  length-sort_by (b ∷ bs) = omega (arith, length-place_by b (sort_by less bs), length-sort_by bs)

  All-place_by :
      (P : IndexBuild → Type 0) (b : IndexBuild) (bs : List IndexBuild)
      → P b
      → All P bs
      → All P (place_by less b bs)
  unfolding place_by
  All-place_by P b [] h k = (h, tt)
  All-place_by P b (c ∷ bs) h k = elim (Bool-cases (less c b)) [
    | inl e ↦ rw e (k.0, All-place_by P b bs h k.1)
    | inr e ↦ rw e (h, k)
  ]

  All-sort_by :
      (P : IndexBuild → Type 0) (bs : List IndexBuild) → All P bs → All P (sort_by less bs)
  unfolding sort_by
  All-sort_by P [] h = tt
  All-sort_by P (b ∷ bs) h = All-place_by P b (sort_by less bs) h.0 (All-sort_by P bs h.1)

-- A build stands at its definition's place, counted from `slot`.
unfoldable pub IsPlaced : ℕ → List IndexDefinition → IndexBuild → Type 0
IsPlaced slot ds b = (i : ℕ) × (b.slot ≡ slot + i) × (get_elem? ds i ≡ some b.definition)

All-IsPlaced :
    (slot : ℕ) (d : IndexDefinition) (ds : List IndexDefinition) (bs : List IndexBuild)
    → All (IsPlaced (slot + 1) ds) bs
    → All (IsPlaced slot (d ∷ ds)) bs
unfolding IsPlaced
All-IsPlaced slot d ds [] h = tt
All-IsPlaced slot d ds (b ∷ bs) h =
    let (i, place, what) = h.0 in
    ((suc i, omega (arith, place), what), All-IsPlaced slot d ds bs h.1)

has_slot-cons :
    (slot n : ℕ) (b : IndexBuild) (bs : List IndexBuild)
    → b.slot ≡ slot
    → ((i : ℕ) → i < n → has_slot (slot + 1 + i) bs ≡ true)
    → (i : ℕ) → i < suc n
    → has_slot (slot + i) (b ∷ bs) ≡ true
unfolding has_slot
has_slot-cons slot n b bs here rest zero less = ground (arith, here)
has_slot-cons slot n b bs here rest (suc i) less =
    let next : slot + suc i ≡ slot + 1 + i = omega arith in
    let found : has_slot (slot + suc i) bs ≡ true =
      ap (λ s. has_slot s bs) next ∙ rest i (omega arith) in
    ground (arith, found)

module _ (r : ReportStore) (h : IsLinked r) where
  count_noncompliant_lem :
      (rounds o count : ℕ)
      → o + rounds ≡ r.occurrences.n
      → Returns
          (count_noncompliant r rounds o count none)
          λ x. (x.1 ≡ none) × (x.0 ≤ count + rounds)
  unfolding count_noncompliant
  count_noncompliant_lem zero o count e = ((count, none), refl, (refl, omega arith))
  count_noncompliant_lem (suc rounds) o count e =
      let (occ, d) = get_elem?_of_lt h.occs o (omega (arith, h.occs_models.size)) in
      let linked = All-get_elem? (OccurrenceLinked r) h.occs o h.occs_linked d in
      let (l, c) =
        get_elem?_of_lt h.lics occ.license (omega (arith, linked.2, h.lics_models.size)) in
      let (status, known) = noncompliant_status in
      let more = if l.status == status then count + 1 else count in
      let few : more ≤ count + 1 = ground arith in
      let (x, run, (calm, most)) = count_noncompliant_lem rounds (o + 1) more (omega arith) in
      (
        x,
        rw
            (
              poll_at-none o,
              ◌>>=◌,
              at-some r.occurrences h.occs h.occs_models o d,
              at-some r.licenses h.lics h.lics_models occ.license c,
              known,
            )
            run,
        (calm, omega arith),
      )

  raw_edges-le :
      (noncompliant : ℕ) (name : Text)
      → noncompliant ≤ r.occurrences.n
      → raw_edges r noncompliant name ≤ max_uint32
  unfolding raw_edges
  raw_edges-le noncompliant name few =
      let fits = h.rows_fit in
      let sum : (r.findings.n + noncompliant) % 2 ^ 64 ≡ r.findings.n + noncompliant =
        omega arith in
      rw sum (
        choose
          (named name (
            bytes "image_occurrences"
            ∷ bytes "image_packages"
            ∷ bytes "package_present_images"
            ∷ []))
          (omega arith)
          (choose
            (named name
              (bytes "image_noncompliant_packages" ∷ bytes "package_noncompliant_images" ∷ []))
            (omega arith)
            (choose (is_name name (bytes "package_affected_images")) (omega arith) (omega arith))))
    where
      choose :
          (b : Bool) {m n : ℕ} → m ≤ max_uint32 → n ≤ max_uint32 → (if b then m else n) ≤ max_uint32
      choose true p q = p
      choose false p q = q

  index_build_lem :
      (noncompliant slot : ℕ) (d : IndexDefinition)
      → noncompliant ≤ r.occurrences.n
      → Returns (index_build r noncompliant slot d) λ b. (b.slot ≡ slot) × (b.definition ≡ d)
  unfolding index_build
  index_build_lem noncompliant slot d few =
      let small : ltb max_uint32 (raw_edges r noncompliant d.name) ≡ false =
        ground (arith, raw_edges-le noncompliant d.name few) in
      rw small (_, refl, (refl, refl))

  -- The builds of the definitions from slot `slot` on.
  index_builds_lem :
      (noncompliant : ℕ)
      → noncompliant ≤ r.occurrences.n
      → (slot : ℕ) (ds : List IndexDefinition)
      → Returns (index_builds r noncompliant slot ds none) λ x.
        (x.1 ≡ none)
        × (length x.0 ≡ length ds)
        × All (IsPlaced slot ds) x.0
        × ((i : ℕ) → i < length ds → has_slot (slot + i) x.0 ≡ true)
  unfolding index_builds check_context IsPlaced
  index_builds_lem noncompliant few slot [] =
      (([], none), refl, (refl, refl, tt, λ i less. absurd (omega arith)))
  index_builds_lem noncompliant few slot (d ∷ ds) =
      let (b, made, (here, what)) = index_build_lem noncompliant slot d few in
      let ((bs, ctx), run, (calm, many, placed, covered)) =
        index_builds_lem noncompliant few (slot + 1) ds in
      let head : b.slot ≡ slot + 0 = omega (arith, here) in
      (
        (b ∷ bs, ctx),
        rw (made, ◌>>=◌, run) refl,
        (
          calm,
          ap suc many,
          ((0, head, ap some (sym what)), All-IsPlaced slot d ds bs placed),
          has_slot-cons slot (length ds) b bs here covered,
        ),
      )

  -- The plan has each definition, at its place.
  pub index_build_order_lem : Returns (index_build_order r none) λ x.
      (x.1 ≡ none)
      × (length x.0 ≡ length (definitions r))
      × All (IsPlaced 0 (definitions r)) x.0
      × ((s : ℕ) → s < length (definitions r) → has_slot s x.0 ≡ true)
  unfolding index_build_order
  index_build_order_lem =
      let ((n, ctx), counted, (calm, few)) =
        count_noncompliant_lem r.occurrences.n 0 0 (omega arith) in
      let ((bs, ctx'), run, (calm', many, placed, covered)) =
        index_builds_lem n (omega (arith, few)) 0 (definitions r) in
      (
        (sort_by is_built_before bs, ctx'),
        rw (counted, ◌>>=◌, calm, run) refl,
        (
          calm',
          length-sort_by is_built_before bs ∙ many,
          All-sort_by is_built_before (IsPlaced 0 (definitions r)) bs placed,
          λ s less.
              has_slot-sort_by is_built_before s bs
              ∙ (let zeroed : 0 + s ≡ s = omega arith in
                  subst (λ j. has_slot j bs ≡ true) zeroed (covered s less)),
        ),
      )
