-- ===== src/Index/Affected.antt =====
-- The images that a package affects: the index `package_affected_images` (go/indexes.go).
use osvpy.Prelude.{
  ℕ, ◌+◌, ◌≤◌, ◌<◌, ◌≡◌, ◌⊎◌, ◌↔◌, refl, sym, ap, ◌∙◌, get_elem?, some, none, pos, true, Bool-cases,
  inl, inr, ◌==◌, ◌||◌, ◌&&◌, arith, All-get_elem?, get_elem?_of_lt, get_elem?-some_lt,
}
use osvpy.Text.{Text, bytes}
use osvpy.Maps.{list_eq, nat_comparable}
use osvpy.Run.{ok, ok_injective, Returns}
use osvpy.Slabs.Laws.{at-some}
use osvpy.Report.Stored.{
  OccurrenceRow, FindingRow, StoredLicense, occurrence_zero, finding_zero, license_zero,
}
use osvpy.Slabs.{uint32_zero}
use osvpy.Store.{ReportStore}
use osvpy.Payload.Pack.{status_id}
use osvpy.Abi.{ref_value, index_value}
use osvpy.Index.Edges.{edges_of}
use osvpy.Index.Rows.{row}
use osvpy.Index.Visits.{
  reading, visits_from, noncompliant_edge, visit_occurrence, visit_finding, visit,
}
use osvpy.Index.Plan.{definitions}
use osvpy.Index.Build.{build_indexes}
use osvpy.Index.Linked.{
  IsLinked, Below, occurrence_keys, OccurrenceLinked, FindingLinked, noncompliant_status,
  visit_occurrence-Emits, visit_finding-Emits,
}
use osvpy.Index.Emits.{Emits-visits_from}
use osvpy.Index.Numbered.{edges_of-polled_at}
use osvpy.Index.Lookup.{has_edge, list_value-has_edge, has_edge-followed_by, has_edge-visits_from}
use osvpy.Index.Finished.{build_indexes_lem}

-- The occurrence `o` has a license that is not allowed.
unfoldable pub IsForbidden : (r : ReportStore) → IsLinked r → OccurrenceRow → Type 0
IsForbidden r h o =
    (l : StoredLicense) × (get_elem? h.lics o.license ≡ some l)
    × (status_id (bytes "noncompliant") ≡ ok l.status)

-- There is a finding on the occurrence in row `j`.
unfoldable pub IsFound : (r : ReportStore) → IsLinked r → ℕ → Type 0
IsFound r h j =
    (f : ℕ) × (row : FindingRow) × (get_elem? h.finds f ≡ some row) × (row.occurrence ≡ j)

-- The package is in the image, with a license that is not allowed or with a finding.
unfoldable pub Affects : (r : ReportStore) → IsLinked r → ℕ → ℕ → Type 0
Affects r h package_id image =
    (j : ℕ) × (o : OccurrenceRow) × (get_elem? h.occs j ≡ some o)
    × (o.package_id ≡ package_id)
    × (o.image ≡ image)
    × (IsForbidden r h o ⊎ IsFound r h j)

abbrev name : Text
name = bytes "package_affected_images"

found_same : {c d : StoredLicense} → some c ≡ some d → c ≡ d
found_same e = cc

module _ (r : ReportStore) (h : IsLinked r) (p im : ℕ) where
  occurrence_edge :
      (j : ℕ) (o : OccurrenceRow) (l : StoredLicense) (status : ℕ)
      → get_elem? h.occs j ≡ some o
      → get_elem? h.lics o.license ≡ some l
      → status_id (bytes "noncompliant") ≡ ok status
      → has_edge p im (edges_of (visit_occurrence r name j).visits)
        ≡ (l.status == status && o.package_id == p && o.image == im)
  unfolding visit_occurrence noncompliant_edge list_eq edges_of has_edge
  occurrence_edge j o l status e d known =
      ap (has_edge p im) (edges_of-polled_at j _)
      ∙ rw
          (
            at-some r.occurrences h.occs h.occs_models j e,
            reading,
            at-some r.licenses h.lics h.lics_models o.license d,
            known,
          )
          (elim (Bool-cases (l.status == status)) [
            | inl x ↦ rw x (ground arith)
            | inr x ↦ rw x refl
          ])

  of_occurrence :
      (j : ℕ) (o : OccurrenceRow)
      → get_elem? h.occs j ≡ some o
      → (has_edge p im (edges_of (visit_occurrence r name j).visits) ≡ true)
        ↔ ((o.package_id ≡ p) × (o.image ≡ im) × IsForbidden r h o)
  unfolding IsForbidden
  of_occurrence j o e =
      let linked = All-get_elem? (OccurrenceLinked r) h.occs j h.occs_linked e in
      let (l, d) = get_elem?_of_lt h.lics o.license (omega (arith, linked.2, h.lics_models.size)) in
      let (status, known) = noncompliant_status in
      let edge = occurrence_edge j o l status e d known in
      (
        λ x.
            let same : l.status ≡ status = ground (arith, edge) in
            (ground (arith, edge), ground (arith, edge), (l, d, known ∙ ap ok (sym same))),
        λ (to_p, to_im, (l', d', known')).
            let same_l : l' ≡ l = found_same (sym d' ∙ d) in
            let same : status ≡ l'.status = ok_injective (sym known ∙ known') in
            let same' : l.status ≡ status = ap StoredLicense.status (sym same_l) ∙ sym same in
            ground (arith, edge),
      )

  of_finding :
      (f : ℕ) (row : FindingRow) (o : OccurrenceRow)
      → get_elem? h.finds f ≡ some row
      → get_elem? h.occs row.occurrence ≡ some o
      → has_edge p im (edges_of (visit_finding r name f).visits)
        ≡ (o.package_id == p && o.image == im)
  unfolding visit_finding list_eq edges_of has_edge
  of_finding f row o e c =
      let linked = All-get_elem? (FindingLinked r) h.finds f h.finds_linked e in
      let (v, d) =
        get_elem?_of_lt h.vulns row.advisory
          (omega (arith, linked.1, h.vulns_models.size, h.paired)) in
      ap (has_edge p im) (edges_of-polled_at f _)
      ∙ rw
          (
            at-some r.findings h.finds h.finds_models f e,
            reading,
            at-some r.advisory_vulnerabilities h.vulns h.vulns_models row.advisory d,
            at-some r.occurrences h.occs h.occs_models row.occurrence c,
          )
          (ground arith)

  visit-Affects : (has_edge p im (edges_of (visit r name).visits) ≡ true) ↔ Affects r h p im
  unfolding visit list_eq Affects IsFound
  visit-Affects =
      let occs = visits_from (visit_occurrence r name) r.occurrences.n 0 in
      let finds = visits_from (visit_finding r name) r.findings.n 0 in
      let ends : (j : ℕ)
          → 0 ≤ j
          → j < 0 + r.occurrences.n
          → (visit_occurrence r name j).finally ≡ ok tt =
        λ j low high. (visit_occurrence-Emits r h name j (omega arith)).ends in
      let ends' : (f : ℕ)
          → 0 ≤ f
          → f < 0 + r.findings.n
          → (visit_finding r name f).finally ≡ ok tt =
        λ f low high. (visit_finding-Emits r h name f (omega arith)).ends in
      let all : occs.finally ≡ ok tt =
        (Emits-visits_from (Below (occurrence_keys r name)) (visit_occurrence r name)
          r.occurrences.n 0 (λ j low high. visit_occurrence-Emits r h name j (omega arith))).ends in
      let split : has_edge p im (edges_of (visit r name).visits)
          ≡ (has_edge p im (edges_of occs.visits) || has_edge p im (edges_of finds.visits)) =
        has_edge-followed_by p im occs finds all in
      let first = has_edge-visits_from p im (visit_occurrence r name) r.occurrences.n 0 ends in
      let second = has_edge-visits_from p im (visit_finding r name) r.findings.n 0 ends' in
      (
        λ e. elim (Bool-cases (has_edge p im (edges_of occs.visits))) [
          | inl x ↦
              let (j, low, high, y) = first.0 x in
              let (o, c) = get_elem?_of_lt h.occs j (omega (arith, h.occs_models.size)) in
              let (a, b, forbidden) = (of_occurrence j o c).0 y in (j, o, c, a, b, inl forbidden)
          | inr x ↦
              let (f, low, high, y) = second.0 (ground (arith, split)) in
              let (row, d) = get_elem?_of_lt h.finds f (omega (arith, h.finds_models.size)) in
              let linked = All-get_elem? (FindingLinked r) h.finds f h.finds_linked d in
              let (o, c) =
                get_elem?_of_lt h.occs row.occurrence
                  (omega (arith, linked.0, h.occs_models.size)) in
              let edge = of_finding f row o d c in
              (
                row.occurrence,
                o,
                c,
                ground (arith, edge),
                ground (arith, edge),
                inr (f, row, d, refl),
              )
        ],
        λ (j, o, c, a, b, why). elim why [
          | inl forbidden ↦
              let inside = get_elem?-some_lt h.occs j c in
              let there = first.1 (
                j,
                omega arith,
                omega (arith, h.occs_models.size),
                (of_occurrence j o c).1 (a, b, forbidden),
              ) in
              ground (arith, split, there)
          | inr (f, row, d, same) ↦
              let inside = get_elem?-some_lt h.finds f d in
              let edge = of_finding f row o d (ap (get_elem? h.occs) same ∙ c) in
              let there =
                second.1
                  (f, omega arith, omega (arith, h.finds_models.size), ground (arith, edge)) in
              ground (arith, split, there)
        ],
      )

-- For a report whose rows refer to rows that are there, with a vulnerability for each advisory,
-- whose occurrences are in the order of their images and whose findings are in the order of their
-- occurrences, whose tables of keys have fewer than 2^32 - 1 rows and which has at most 2^32 - 1
-- occurrences and findings together, and with a context that is never cancelled, `build_indexes`
-- returns a report whose index `package_affected_images` reads, at a package and at some index
-- argument, as a given image exactly when an occurrence of the package in that image has a finding
-- or a license with the status `noncompliant`.
pub build_indexes-affected :
    (r : ReportStore) (p kind im : ℕ) (h : IsLinked r)
    → p < r.packages.n
    → Returns (build_indexes none r) λ x.
      ((i : ℕ) × (index_value x.1 10 p kind (pos i) ≡ ok (ref_value kind im 0))) ↔ Affects r h p im
unfolding definitions
build_indexes-affected r p kind im h less =
    let (x, run, reads) = build_indexes_lem r h in
    let listed = list_value-has_edge kind p im (edges_of (visit r name).visits) in
    let known = visit-Affects r h p im in
    (
      x,
      run,
      (
        λ found.
            known.0 (listed.0 (found.0, sym (reads 10 p kind (pos found.0) _ refl less) ∙ found.1)),
        λ affects.
            let (i, read) = listed.1 (known.1 affects) in
            (i, reads 10 p kind (pos i) _ refl less ∙ read),
      ),
    )
