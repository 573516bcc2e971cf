-- ===== src/Projection/Advisories.antt =====
-- `projectAdvisory` (go/report.go) on advisories that differ in the order of their lists.
use osvpy.Prelude.{◌≡◌, refl, List, [], ◌∷◌, map, none, arith}
use osvpy.Maps.{Comparable, nat_comparable, list_comparable}
use osvpy.Sorting.{Ordered, text_ordered, member}
use osvpy.Sorting.Laws.{SameMembers}
use osvpy.Report.{items}
use osvpy.Report.Orders.{
  severity_ordered, severity_comparable, reference_ordered, reference_comparable,
}
use osvpy.Report.Canonical.{
  sorted_slice, sorted_slice-SameMembers, unique_copy, unique-SameMembers, canonical_severities,
  canonical_references,
}
use osvpy.Upstream.{Vulnerability}
use osvpy.Projection.{append_slice, project_severity, project_reference, project_advisory}

collected :
    {A : Type 0} ⦃o : Ordered A⦄ ⦃c : Comparable A⦄ (vs ws : List A)
    → SameMembers vs ws
    → sorted_slice (append_slice none vs) ≡ sorted_slice (append_slice none ws)
unfolding append_slice member
collected [] [] same = refl
collected ⦃c = c⦄ [] (w ∷ ws) same = absurd (ground (arith, same w, c.eq_iff w w))
collected ⦃c = c⦄ (v ∷ vs) [] same = absurd (ground (arith, same v, c.eq_iff v v))
collected (v ∷ vs) (w ∷ ws) same = sorted_slice-SameMembers (v ∷ vs) (w ∷ ws) same

-- Two advisories with the same texts, times and database fields, whose aliases, severities and
-- references have the same members, in any order and with any repetitions, are projected to the
-- same result.
pub project_advisory-SameMembers :
    (a b : Vulnerability)
    → a.id ≡ b.id
    → a.summary ≡ b.summary
    → a.modified ≡ b.modified
    → a.published ≡ b.published
    → a.withdrawn ≡ b.withdrawn
    → a.database_specific ≡ b.database_specific
    → SameMembers (items a.aliases) (items b.aliases)
    → SameMembers (map project_severity a.severity) (map project_severity b.severity)
    → SameMembers (map project_reference a.references) (map project_reference b.references)
    → project_advisory a ≡ project_advisory b
unfolding project_advisory unique_copy canonical_severities canonical_references
project_advisory-SameMembers a b id summary modified published withdrawn database aliases severities
      references =
    rw
      (
        id,
        summary,
        modified,
        published,
        withdrawn,
        database,
        (unique-SameMembers a.aliases b.aliases).1 aliases,
        collected (map project_severity a.severity) (map project_severity b.severity) severities,
        collected (map project_reference a.references) (map project_reference b.references)
            references,
      )
      refl
