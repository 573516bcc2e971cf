-- ===== src/Index/Linked.antt =====
-- A report whose rows refer to rows that are there (go/store.go), and what `visit` (go/indexes.go)
-- hands out on it.
use osvpy.Prelude.{
  ℕ, ◌+◌, ◌^◌, ◌≤◌, ◌<◌, ◌≡◌, refl, List, [], ◌∷◌, get_elem?, some, pos, true, false, Bool, ◌==◌,
  if◌then◌else◌, arith, All, All-get_elem?, get_elem?_of_lt,
}
use osvpy.Text.{Text, bytes}
use osvpy.Maps.{list_eq, nat_comparable, list_comparable}
use osvpy.Run.{ok, max_uint32}
use osvpy.Slabs.{Slabs, uint32_zero}
use osvpy.Slabs
use osvpy.Slabs.Rows.{Models}
use osvpy.Slabs.Laws.{at-some}
use osvpy.Report.Stored.{
  OccurrenceRow, FindingRow, StoredLicense, occurrence_zero, finding_zero, license_zero,
}
use osvpy.Store.{ReportStore}
use osvpy.Payload.Pack.{status_id}
use osvpy.Index.Make.{Visits}
use osvpy.Index.Edges.{Edge}
use osvpy.Index.Visits.{
  is_name, named, nothing, one_edge, noncompliant_edge, visit_occurrence, finding_edge,
  visit_finding,
}
use osvpy.Index.Emits.{Emits, Emits-nothing, Emits-one_edge, Emits-polled_at, Emits-reading}

abbrev pub OccurrenceLinked : ReportStore → OccurrenceRow → Type 0
OccurrenceLinked r o =
    (o.image < r.images.n) × (o.package_id < r.packages.n) × (o.license < r.licenses.n)

abbrev pub FindingLinked : ReportStore → FindingRow → Type 0
FindingLinked r f = (f.occurrence < r.occurrences.n) × (f.advisory < r.advisory_sources.n)

pub record IsLinked (r : ReportStore) : Type 0 where
  pub occs : List OccurrenceRow
  pub finds : List FindingRow
  pub lics : List StoredLicense
  pub vulns : List ℕ
  pub occs_models : Models r.occurrences occs
  pub finds_models : Models r.findings finds
  pub lics_models : Models r.licenses lics
  pub vulns_models : Models r.advisory_vulnerabilities vulns
  pub occs_linked : All (OccurrenceLinked r) occs
  pub finds_linked : All (FindingLinked r) finds
  pub vulns_linked : All (λ v. v < r.vulnerabilities.n) vulns
  pub paired : r.advisory_vulnerabilities.n ≡ r.advisory_sources.n
  pub images_fit : r.images.n < max_uint32
  pub packages_fit : r.packages.n < max_uint32
  pub vulnerabilities_fit : r.vulnerabilities.n < max_uint32
  pub sources_fit : r.advisory_sources.n < max_uint32
  pub occurrences_fit : r.occurrences.n < max_uint32
  pub rows_fit : r.occurrences.n + r.findings.n ≤ max_uint32
  pub images_ascend :
      (j l : ℕ) (a b : OccurrenceRow)
      → j ≤ l
      → get_elem? occs j ≡ some a
      → get_elem? occs l ≡ some b
      → a.image ≤ b.image
  pub occurrences_ascend :
      (j l : ℕ) (a b : FindingRow)
      → j ≤ l
      → get_elem? finds j ≡ some a
      → get_elem? finds l ≡ some b
      → a.occurrence ≤ b.occurrence

-- The number of keys for the edges of occurrences, by the index's name, and for those of findings.
unfoldable pub occurrence_keys : ReportStore → Text → ℕ
occurrence_keys r name =
    if is_name name (bytes "image_occurrences")
    then r.images.n
    else if is_name name (bytes "image_packages")
    then r.images.n
    else if is_name name (bytes "package_present_images")
    then r.packages.n
    else if is_name name (bytes "image_noncompliant_packages")
    then r.images.n
    else r.packages.n

unfoldable pub finding_keys : ReportStore → Text → ℕ
finding_keys r name =
    if is_name name (bytes "image_findings")
    then r.images.n
    else if is_name name (bytes "occurrence_findings")
    then r.occurrences.n
    else if is_name name (bytes "image_vulnerabilities")
    then r.images.n
    else if is_name name (bytes "image_vulnerable_packages")
    then r.images.n
    else if named name (bytes "package_vulnerable_images" ∷ bytes "package_affected_images" ∷ [])
    then r.packages.n
    else if is_name name (bytes "vulnerability_affected_images")
    then r.vulnerabilities.n
    else if is_name name (bytes "advisory_affected_images")
    then r.advisory_sources.n
    else if is_name name (bytes "vulnerability_findings")
    then r.vulnerabilities.n
    else if is_name name (bytes "advisory_findings")
    then r.advisory_sources.n
    else r.packages.n

abbrev pub Below : ℕ → Edge → Type 0
Below keys e = (e.0 < keys) × (e.1 < 2 ^ 32)

pub noncompliant_status : (i : ℕ) × (status_id (bytes "noncompliant") ≡ ok i)
unfolding status_id list_eq
noncompliant_status = (_, refl)

-- The keys of a branch are those of its edges.
Emits-if :
    (b : Bool) (k l : ℕ) (v w : Visits)
    → Emits (Below k) 1 v
    → Emits (Below l) 1 w
    → Emits (Below (if b then k else l)) 1 (if b then v else w)
Emits-if true k l v w h g = h
Emits-if false k l v w h g = g

Emits-when :
    (P : Edge → Type 0) (b : Bool) (v : Visits) → Emits P 1 v → Emits P 1 (if b then v else nothing)
Emits-when P true v h = h
Emits-when P false v h = Emits-nothing P 1

single : (keys k v : ℕ) → k < keys → v < 2 ^ 32 → Emits (Below keys) 1 (one_edge k v)
single keys k v low small = Emits-one_edge (Below keys) k v (low, small)

last_finding :
    (b : Bool) (keys k v : ℕ)
    → k < keys
    → v < 2 ^ 32
    → Emits (Below keys) 1 (if b then one_edge k v else nothing)
last_finding b keys k v low small =
    Emits-when (Below keys) b (one_edge k v) (single keys k v low small)

module _ (r : ReportStore) (h : IsLinked r) (name : Text) where
  pub visit_occurrence-Emits :
      (o : ℕ)
      → o < r.occurrences.n
      → Emits (Below (occurrence_keys r name)) 1 (visit_occurrence r name o)
  unfolding visit_occurrence occurrence_keys noncompliant_edge
  visit_occurrence-Emits o inside =
      let P = Below (occurrence_keys r name) in
      let (row, e) = get_elem?_of_lt h.occs o (omega (arith, h.occs_models.size)) in
      let linked = All-get_elem? (OccurrenceLinked r) h.occs o h.occs_linked e in
      let (l, d) =
        get_elem?_of_lt h.lics row.license (omega (arith, linked.2, h.lics_models.size)) in
      let (status, known) = noncompliant_status in
      let im : row.image < 2 ^ 32 = omega (arith, linked.0, h.images_fit) in
      let pk : row.package_id < 2 ^ 32 = omega (arith, linked.1, h.packages_fit) in
      let D = is_name name (bytes "image_noncompliant_packages") in
      let last : Emits (Below (if D then r.images.n else r.packages.n)) 1
          (noncompliant_edge r name row.image row.package_id row.license) =
        Emits-reading _ 1 (Slabs.at r.licenses (pos row.license)) l _
          (at-some r.licenses h.lics h.lics_models row.license d)
          (Emits-reading _ 1 (status_id (bytes "noncompliant")) status _ known (
            Emits-when _ (l.status == status) _ (
              Emits-if D r.images.n r.packages.n _ _
                (single r.images.n row.image row.package_id linked.0 pk)
                (single r.packages.n row.package_id row.image linked.1 im)))) in
      Emits-polled_at P 1 o _ (
        Emits-reading P 1 (Slabs.at r.occurrences (pos o)) row _
          (at-some r.occurrences h.occs h.occs_models o e)
          (Emits-if (is_name name (bytes "image_occurrences")) _ _ _ _
            (single r.images.n row.image o linked.0 (omega (arith, h.occurrences_fit)))
            (Emits-if (is_name name (bytes "image_packages")) _ _ _ _
              (single r.images.n row.image row.package_id linked.0 pk)
              (Emits-if (is_name name (bytes "package_present_images")) _ _ _ _
                (single r.packages.n row.package_id row.image linked.1 im) last))))

  pub visit_finding-Emits :
      (f : ℕ) → f < r.findings.n → Emits (Below (finding_keys r name)) 1 (visit_finding r name f)
  unfolding visit_finding finding_keys finding_edge
  visit_finding-Emits f inside =
      let P = Below (finding_keys r name) in
      let (row, e) = get_elem?_of_lt h.finds f (omega (arith, h.finds_models.size)) in
      let linked = All-get_elem? (FindingLinked r) h.finds f h.finds_linked e in
      let (v, d) =
        get_elem?_of_lt h.vulns row.advisory
          (omega (arith, linked.1, h.vulns_models.size, h.paired)) in
      let known =
        All-get_elem? (λ x. x < r.vulnerabilities.n) h.vulns row.advisory h.vulns_linked d in
      let (occ, c) =
        get_elem?_of_lt h.occs row.occurrence (omega (arith, linked.0, h.occs_models.size)) in
      let owner = All-get_elem? (OccurrenceLinked r) h.occs row.occurrence h.occs_linked c in
      let im : occ.image < 2 ^ 32 = omega (arith, owner.0, h.images_fit) in
      let pk : occ.package_id < 2 ^ 32 = omega (arith, owner.1, h.packages_fit) in
      let vu : v < 2 ^ 32 = omega (arith, known, h.vulnerabilities_fit) in
      let fi : f < 2 ^ 32 = omega (arith, h.rows_fit) in
      Emits-polled_at P 1 f _ (
        Emits-reading P 1 (Slabs.at r.findings (pos f)) row _
          (at-some r.findings h.finds h.finds_models f e)
          (Emits-reading P 1 (Slabs.at r.advisory_vulnerabilities (pos row.advisory)) v _
            (at-some r.advisory_vulnerabilities h.vulns h.vulns_models row.advisory d)
            (Emits-reading P 1 (Slabs.at r.occurrences (pos row.occurrence)) occ _
              (at-some r.occurrences h.occs h.occs_models row.occurrence c)
              (Emits-if (is_name name (bytes "image_findings")) _ _ _ _
                (single _ occ.image f owner.0 fi)
                (Emits-if (is_name name (bytes "occurrence_findings")) _ _ _ _
                  (single _ row.occurrence f linked.0 fi)
                  (Emits-if (is_name name (bytes "image_vulnerabilities")) _ _ _ _
                    (single _ occ.image v owner.0 vu)
                    (Emits-if (is_name name (bytes "image_vulnerable_packages")) _ _ _ _
                      (single _ occ.image occ.package_id owner.0 pk)
                      (Emits-if
                        (named name (
                          bytes "package_vulnerable_images" ∷ bytes "package_affected_images" ∷ []))
                        _ _ _ _ (single _ occ.package_id occ.image owner.1 im)
                        (Emits-if (is_name name (bytes "vulnerability_affected_images")) _ _ _ _
                          (single _ v occ.image known im)
                          (Emits-if (is_name name (bytes "advisory_affected_images")) _ _ _ _
                            (single _ row.advisory occ.image linked.1 im)
                            (Emits-if (is_name name (bytes "vulnerability_findings")) _ _ _ _
                              (single _ v f known fi)
                              (Emits-if (is_name name (bytes "advisory_findings")) _ _ _ _
                                (single _ row.advisory f linked.1 fi)
                                (last_finding (is_name name (bytes "package_findings")) r.packages.n
                                  occ.package_id f owner.1 fi)))))))))))))
