-- ===== src/Index/Numbered.antt =====
-- The indexes of `buildIndexes` (go/indexes.go) that hold no members: their edges are numbered in the
-- order of their keys, on a report whose rows are linked.
use osvpy.Prelude.{
  ℕ, ◌%◌, ◌≤◌, ◌<◌, ◌≡◌, refl, ◌∙◌, List, [], ◌∷◌, append-nil, get_elem?, some, none, Bool-cases,
  inl, inr, ◌==◌, arith, All-get_elem?, get_elem?_of_lt,
}
use osvpy.Text.{bytes}
use osvpy.Maps.{list_eq, nat_comparable, list_comparable}
use osvpy.Run.{ok}
use osvpy.Slabs.Laws.{at-some}
use osvpy.Report.Stored.{OccurrenceRow, FindingRow, occurrence_zero, finding_zero}
use osvpy.Store.{ReportStore}
use osvpy.Index.Make.{Visits}
use osvpy.Index.Edges.{edges_of}
use osvpy.Index.Reading.{IsNumbered}
use osvpy.Index.Visits.{
  nothing, reading, polled_at, followed_by, visits_from, visit_occurrence, visit_finding, visit,
}
use osvpy.Index.Emits.{Emits, Emits-visits_from, visits_from-IsNumbered}
use osvpy.Index.Linked.{
  IsLinked, FindingLinked, Below, occurrence_keys, finding_keys, visit_occurrence-Emits,
  visit_finding-Emits,
}

pub edges_of-polled_at : (i : ℕ) (v : Visits) → edges_of (polled_at i v).visits ≡ edges_of v.visits
unfolding polled_at edges_of
edges_of-polled_at i v = elim (Bool-cases (i % 1024 == 0)) [ inl e ↦ rw e refl | inr e ↦ rw e refl ]

alone-IsNumbered :
    (v : Visits)
    → v.finally ≡ ok tt
    → IsNumbered 0 (edges_of v.visits)
    → IsNumbered 0 (edges_of (followed_by v nothing).visits)
unfolding followed_by
alone-IsNumbered v e h = rw (e, append-nil v.visits) h

-- The keys of the three indexes that hold no members.
unfoldable image_of : List OccurrenceRow → ℕ → ℕ
image_of os j = elim (get_elem? os j) [ some o ↦ o.image | none ↦ 0 ]

unfoldable occurrence_of : List FindingRow → ℕ → ℕ
occurrence_of fs j = elim (get_elem? fs j) [ some f ↦ f.occurrence | none ↦ 0 ]

image_of_lem :
    (os : List OccurrenceRow) (j : ℕ) (o : OccurrenceRow)
    → get_elem? os j ≡ some o
    → image_of os j ≡ o.image
unfolding image_of
image_of_lem os j o e = rw (e, image_of) refl

occurrence_of_lem :
    (fs : List FindingRow) (j : ℕ) (f : FindingRow)
    → get_elem? fs j ≡ some f
    → occurrence_of fs j ≡ f.occurrence
unfolding occurrence_of
occurrence_of_lem fs j f e = rw (e, occurrence_of) refl

module _ (r : ReportStore) (h : IsLinked r) where
  image_of_mono : (j l : ℕ) → j ≤ l → l < r.occurrences.n → image_of h.occs j ≤ image_of h.occs l
  image_of_mono j l le inside =
      let (a, e) = get_elem?_of_lt h.occs j (omega (arith, h.occs_models.size)) in
      let (b, d) = get_elem?_of_lt h.occs l (omega (arith, h.occs_models.size)) in
      rw (image_of_lem h.occs j a e, image_of_lem h.occs l b d) (h.images_ascend j l a b le e d)

  occurrence_of_mono :
      (j l : ℕ) → j ≤ l → l < r.findings.n → occurrence_of h.finds j ≤ occurrence_of h.finds l
  occurrence_of_mono j l le inside =
      let (a, e) = get_elem?_of_lt h.finds j (omega (arith, h.finds_models.size)) in
      let (b, d) = get_elem?_of_lt h.finds l (omega (arith, h.finds_models.size)) in
      rw (occurrence_of_lem h.finds j a e, occurrence_of_lem h.finds l b d)
        (h.occurrences_ascend j l a b le e d)

  occurrence_of_below : (j : ℕ) → j < r.findings.n → occurrence_of h.finds j < r.occurrences.n
  occurrence_of_below j inside =
      let (f, e) = get_elem?_of_lt h.finds j (omega (arith, h.finds_models.size)) in
      rw (occurrence_of_lem h.finds j f e)
        (All-get_elem? (FindingLinked r) h.finds j h.finds_linked e).0

  -- A loop over all rows that hands out an edge to each row.
  loop-IsNumbered :
      (keys : ℕ) (key : ℕ → ℕ) (step : ℕ → Visits) (n : ℕ)
      → ((j : ℕ) → j < n → Emits (Below keys) 1 (step j))
      → ((j : ℕ) → j < n → edges_of (step j).visits ≡ (key j, j) ∷ [])
      → ((j l : ℕ) → j ≤ l → l < n → key j ≤ key l)
      → ((visits_from step n 0).finally ≡ ok tt)
        × IsNumbered 0 (edges_of (visits_from step n 0).visits)
  loop-IsNumbered keys key step n emits edges mono = (
    (Emits-visits_from (Below keys) step n 0 (λ j low high. emits j (omega arith))).ends,
    visits_from-IsNumbered key step n 0
        (λ j low high. ((emits j (omega arith)).ends, edges j (omega arith)))
        (λ j l le high. mono j l le (omega arith)),
  )

  image_occurrences-edge :
      (j : ℕ)
      → j < r.occurrences.n
      → edges_of (visit_occurrence r (bytes "image_occurrences") j).visits
        ≡ (image_of h.occs j, j) ∷ []
  unfolding visit_occurrence list_eq edges_of
  image_occurrences-edge j inside =
      let (row, e) = get_elem?_of_lt h.occs j (omega (arith, h.occs_models.size)) in
      edges_of-polled_at j _
      ∙ rw (at-some r.occurrences h.occs h.occs_models j e, reading, image_of_lem h.occs j row e)
          refl

  module _ (j : ℕ) (inside : j < r.findings.n) where
    occurrence_findings-edge :
        edges_of (visit_finding r (bytes "occurrence_findings") j).visits
        ≡ (occurrence_of h.finds j, j) ∷ []
    unfolding visit_finding list_eq edges_of
    occurrence_findings-edge =
        let (row, e) = get_elem?_of_lt h.finds j (omega (arith, h.finds_models.size)) in
        let linked = All-get_elem? (FindingLinked r) h.finds j h.finds_linked e in
        let (v, d) =
          get_elem?_of_lt h.vulns row.advisory
            (omega (arith, linked.1, h.vulns_models.size, h.paired)) in
        let (occ, c) =
          get_elem?_of_lt h.occs row.occurrence (omega (arith, linked.0, h.occs_models.size)) in
        edges_of-polled_at j _
        ∙ rw
            (
              at-some r.findings h.finds h.finds_models j e,
              reading,
              at-some r.advisory_vulnerabilities h.vulns h.vulns_models row.advisory d,
              at-some r.occurrences h.occs h.occs_models row.occurrence c,
              occurrence_of_lem h.finds j row e,
            )
            refl

    image_findings-edge :
        edges_of (visit_finding r (bytes "image_findings") j).visits
        ≡ (image_of h.occs (occurrence_of h.finds j), j) ∷ []
    unfolding visit_finding list_eq edges_of
    image_findings-edge =
        let (row, e) = get_elem?_of_lt h.finds j (omega (arith, h.finds_models.size)) in
        let linked = All-get_elem? (FindingLinked r) h.finds j h.finds_linked e in
        let (v, d) =
          get_elem?_of_lt h.vulns row.advisory
            (omega (arith, linked.1, h.vulns_models.size, h.paired)) in
        let (occ, c) =
          get_elem?_of_lt h.occs row.occurrence (omega (arith, linked.0, h.occs_models.size)) in
        edges_of-polled_at j _
        ∙ rw
            (
              at-some r.findings h.finds h.finds_models j e,
              reading,
              at-some r.advisory_vulnerabilities h.vulns h.vulns_models row.advisory d,
              at-some r.occurrences h.occs h.occs_models row.occurrence c,
              occurrence_of_lem h.finds j row e,
              image_of_lem h.occs row.occurrence occ c,
            )
            refl

  pub image_occurrences-IsNumbered :
      IsNumbered 0 (edges_of (visit r (bytes "image_occurrences")).visits)
  unfolding visit list_eq
  image_occurrences-IsNumbered =
      let name = bytes "image_occurrences" in
      let (ends, numbered) =
        loop-IsNumbered (occurrence_keys r name) (image_of h.occs) (visit_occurrence r name)
          r.occurrences.n (visit_occurrence-Emits r h name) image_occurrences-edge image_of_mono in
      alone-IsNumbered (visits_from (visit_occurrence r name) r.occurrences.n 0) ends numbered

  pub occurrence_findings-IsNumbered :
      IsNumbered 0 (edges_of (visit r (bytes "occurrence_findings")).visits)
  unfolding visit list_eq followed_by
  occurrence_findings-IsNumbered =
      let name = bytes "occurrence_findings" in
      (loop-IsNumbered (finding_keys r name) (occurrence_of h.finds) (visit_finding r name)
        r.findings.n (visit_finding-Emits r h name) occurrence_findings-edge occurrence_of_mono).1

  pub image_findings-IsNumbered : IsNumbered 0 (edges_of (visit r (bytes "image_findings")).visits)
  unfolding visit list_eq followed_by
  image_findings-IsNumbered =
      let name = bytes "image_findings" in
      (loop-IsNumbered (finding_keys r name) (λ j. image_of h.occs (occurrence_of h.finds j))
        (visit_finding r name) r.findings.n (visit_finding-Emits r h name) image_findings-edge
        (λ j l le inside.
          image_of_mono _ _ (occurrence_of_mono j l le inside) (occurrence_of_below l inside))).1
