-- ===== src/Index/Planned.antt =====
-- The indexes that `indexBuildOrder` (go/indexes.go) plans, on a report whose rows are linked.
use osvpy.Prelude.{
  ℕ, ◌+◌, ◌<◌, ◌≡◌, refl, subst, List, [], ◌∷◌, true, false, Bool-cases, inl, inr, if◌then◌else◌,
  arith, All,
}
use osvpy.Text.{Text, bytes}
use osvpy.Maps.{list_eq, nat_comparable, list_comparable}
use osvpy.Run.{ok, max_uint32}
use osvpy.Report.Stored.{occurrence_zero, finding_zero}
use osvpy.Store.{ReportStore}
use osvpy.Index.Edges.{edges_of}
use osvpy.Index.Built.{Fits}
use osvpy.Index.Reading.{IsNumbered}
use osvpy.Index.Visits.{named, nothing, visits_from, visit_occurrence, visit_finding, visit}
use osvpy.Index.Plan.{IndexDefinition, definitions}
use osvpy.Index.Emits.{Emits, Emits-nothing, Emits-followed_by, Emits-visits_from}
use osvpy.Index.Linked.{
  IsLinked, Below, occurrence_keys, finding_keys, visit_occurrence-Emits, visit_finding-Emits,
}
use osvpy.Index.Numbered.{
  image_occurrences-IsNumbered, occurrence_findings-IsNumbered, image_findings-IsNumbered,
}

-- The index of a definition can be built.
pub record IsReady (r : ReportStore) (d : IndexDefinition) : Type 0 where
  pub fits : Fits d.size (edges_of (visit r d.name).visits)
  pub ends : (visit r d.name).finally ≡ ok tt
  pub numbered : d.contiguous ≡ true → IsNumbered 0 (edges_of (visit r d.name).visits)

abbrev with_occurrences : List Text
with_occurrences =
    bytes "image_occurrences"
    ∷ bytes "image_packages"
    ∷ bytes "package_present_images"
    ∷ bytes "image_noncompliant_packages"
    ∷ bytes "package_noncompliant_images"
    ∷ bytes "package_affected_images"
    ∷ []

abbrev without_findings : List Text
without_findings =
    bytes "image_occurrences"
    ∷ bytes "image_packages"
    ∷ bytes "package_present_images"
    ∷ bytes "image_noncompliant_packages"
    ∷ bytes "package_noncompliant_images"
    ∷ []

module _ (r : ReportStore) (h : IsLinked r) where
  visit-Emits :
      (name : Text) (size : ℕ)
      → (named name with_occurrences ≡ true → occurrence_keys r name ≡ size)
      → (named name without_findings ≡ false → finding_keys r name ≡ size)
      → Emits (Below size) (r.occurrences.n + r.findings.n) (visit r name)
  unfolding visit
  visit-Emits name size a b =
      let P = Below size in
      let first : Emits P r.occurrences.n (
          if named name with_occurrences
          then visits_from (visit_occurrence r name) r.occurrences.n 0
          else nothing) =
        elim (Bool-cases (named name with_occurrences)) [
          | inr e ↦ rw e (Emits-nothing P r.occurrences.n)
          | inl e ↦ rw e (
              Emits-visits_from P (visit_occurrence r name) r.occurrences.n 0 λ j low high.
                subst (λ k. Emits (Below k) 1 (visit_occurrence r name j)) (a e)
                  (visit_occurrence-Emits r h name j (omega arith)))
        ] in
      let second : Emits P r.findings.n (
          if named name without_findings
          then nothing
          else visits_from (visit_finding r name) r.findings.n 0) =
        elim (Bool-cases (named name without_findings)) [
          | inl e ↦ rw e (Emits-nothing P r.findings.n)
          | inr e ↦ rw e (
              Emits-visits_from P (visit_finding r name) r.findings.n 0 λ j low high.
                subst (λ k. Emits (Below k) 1 (visit_finding r name j)) (b e)
                  (visit_finding-Emits r h name j (omega arith)))
        ] in
      Emits-followed_by P r.occurrences.n r.findings.n _ _ first second

  ready :
      (d : IndexDefinition)
      → (named d.name with_occurrences ≡ true → occurrence_keys r d.name ≡ d.size)
      → (named d.name without_findings ≡ false → finding_keys r d.name ≡ d.size)
      → d.size < max_uint32
      → (d.contiguous ≡ true → IsNumbered 0 (edges_of (visit r d.name).visits))
      → IsReady r d
  ready d a b small numbered =
      let emits = visit-Emits d.name d.size a b in
      record {
        fits = record {
          keys = emits.holds;
          few = omega (arith, emits.few, h.rows_fit);
          rows = small;
        };
        ends = emits.ends;
        numbered = numbered;
      }

  pub definitions-IsReady : All (IsReady r) (definitions r)
  unfolding definitions list_eq occurrence_keys finding_keys
  definitions-IsReady = (
    ready _ (λ e. refl) (λ e. absurd (cc)) h.images_fit (λ e. image_occurrences-IsNumbered r h),
    (
      ready _ (λ e. absurd (cc)) (λ e. refl) h.images_fit (λ e. image_findings-IsNumbered r h),
      (
        ready _ (λ e. absurd (cc)) (λ e. refl) h.occurrences_fit
            (λ e. occurrence_findings-IsNumbered r h),
        (
          ready _ (λ e. refl) (λ e. absurd (cc)) h.images_fit (λ e. absurd (cc)),
          (
            ready _ (λ e. absurd (cc)) (λ e. refl) h.images_fit (λ e. absurd (cc)),
            (
              ready _ (λ e. refl) (λ e. absurd (cc)) h.images_fit (λ e. absurd (cc)),
              (
                ready _ (λ e. absurd (cc)) (λ e. refl) h.images_fit (λ e. absurd (cc)),
                (
                  ready _ (λ e. refl) (λ e. absurd (cc)) h.packages_fit (λ e. absurd (cc)),
                  (
                    ready _ (λ e. absurd (cc)) (λ e. refl) h.packages_fit (λ e. absurd (cc)),
                    (
                      ready _ (λ e. refl) (λ e. absurd (cc)) h.packages_fit (λ e. absurd (cc)),
                      (
                        ready _ (λ e. refl) (λ e. refl) h.packages_fit (λ e. absurd (cc)),
                        (
                          ready _ (λ e. absurd (cc)) (λ e. refl) h.vulnerabilities_fit
                              (λ e. absurd (cc)),
                          (
                            ready _ (λ e. absurd (cc)) (λ e. refl) h.sources_fit (λ e. absurd (cc)),
                            (
                              ready _ (λ e. absurd (cc)) (λ e. refl) h.vulnerabilities_fit
                                  (λ e. absurd (cc)),
                              (
                                ready _ (λ e. absurd (cc)) (λ e. refl) h.sources_fit
                                    (λ e. absurd (cc)),
                                (
                                  ready _ (λ e. absurd (cc)) (λ e. refl) h.packages_fit
                                      (λ e. absurd (cc)),
                                  tt,
                                ),
                              ),
                            ),
                          ),
                        ),
                      ),
                    ),
                  ),
                ),
              ),
            ),
          ),
        ),
      ),
    ),
  )
