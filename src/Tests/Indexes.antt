-- ===== src/Tests/Indexes.antt =====
-- The theorems on the derived indexes, at concrete edges and a small report.
use osvpy.Prelude.{
  ℕ, zero, suc, ◌≤◌, ◌≡◌, ◌↔◌, refl, List, [], ◌∷◌, set, get_elem?, some, none, pos, false, arith,
}
use osvpy.Text.{bytes}
use osvpy.Run.{ok, Returns}
use osvpy.Slabs.{uint32_zero}
use osvpy.Report.Stored.{
  OccurrenceRow, FindingRow, StoredLicense, occurrence_zero, finding_zero, license_zero,
  advisory_zero, package_zero, vulnerability_zero,
}
use osvpy.Store.{ReportStore, image_zero}
use osvpy.Operation.{no_report}
use osvpy.Abi.{ref_value, index_value}
use osvpy.Index.Make.{Visits, polls, edge, make_index}
use osvpy.Index.Edges.{edges_of}
use osvpy.Index.Rows.{row}
use osvpy.Index.Built.{Fits}
use osvpy.Index.Reading.{list_value, make_index-row}
use osvpy.Index.Visits.{visit}
use osvpy.Index.Plan.{IndexDefinition, definitions}
use osvpy.Index.Build.{no_index, build_indexes}
use osvpy.Index.Linked.{IsLinked}
use osvpy.Index.Finished.{build_indexes-row}
use osvpy.Index.Affected.{Affects, build_indexes-affected}
use osvpy.Tests.Tables.{two_rows, two_rows-Models}

-- The key 0 has the value 5 twice, and the value 2 after it.
abbrev some_edges : Visits
some_edges = record {
  visits = polls ∷ edge 0 5 ∷ edge 1 3 ∷ edge 0 5 ∷ edge 0 2 ∷ [];
  finally = ok tt;
}

some_edges-Fits : Fits 2 (edges_of some_edges.visits)
unfolding edges_of
some_edges-Fits = record {
  keys = (
    (omega arith, omega arith),
    ((omega arith, omega arith), ((omega arith, omega arith), ((omega arith, omega arith), tt))),
  );
  few = omega arith;
  rows = omega arith;
}

abbrev one_index : ReportStore
one_index = record no_report { indexes = no_index ∷ [] }

make_index-row_example : Returns (make_index none (bytes "image_packages") 2 false some_edges) λ x.
    index_value (record one_index { indexes = set one_index.indexes 0 x.1 }) 0 0 3 (pos 1)
    ≡ list_value 3 (row 0 (edges_of some_edges.visits)) (pos 1)
make_index-row_example =
    make_index-row (bytes "image_packages") false some_edges one_index 0 2 0 3 (pos 1)
      some_edges-Fits refl (λ e. absurd (cc)) (omega arith) (omega arith)

abbrev occurrence : ℕ → ℕ → ℕ → OccurrenceRow
occurrence image package_id license = record {
  image = image;
  package_id = package_id;
  context = 0;
  license = license;
}

abbrev finding : ℕ → ℕ → FindingRow
finding occurrence advisory = record {
  occurrence = occurrence;
  advisory = advisory;
  fix = 0;
  assessment = 0;
}

abbrev occurrence_rows : List OccurrenceRow
occurrence_rows = occurrence 0 1 0 ∷ occurrence 1 0 1 ∷ []

abbrev finding_rows : List FindingRow
finding_rows = finding 0 1 ∷ finding 1 0 ∷ []

abbrev allowed : StoredLicense
allowed = record license_zero.value { status = 1 }

abbrev forbidden : StoredLicense
forbidden = record license_zero.value { status = 3 }

abbrev small : ReportStore
small = record no_report {
  images = two_rows image_zero.value image_zero.value;
  packages = two_rows package_zero.value package_zero.value;
  licenses = two_rows allowed forbidden;
  occurrences = two_rows (occurrence 0 1 0) (occurrence 1 0 1);
  findings = two_rows (finding 0 1) (finding 1 0);
  advisory_sources = two_rows advisory_zero.value advisory_zero.value;
  advisory_vulnerabilities = two_rows 1 0;
  vulnerabilities = two_rows vulnerability_zero.value vulnerability_zero.value;
}

images_ascend :
    (j l : ℕ) (a b : OccurrenceRow)
    → j ≤ l
    → get_elem? occurrence_rows j ≡ some a
    → get_elem? occurrence_rows l ≡ some b
    → a.image ≤ b.image
images_ascend zero l a b less e d = ground arith
images_ascend (suc zero) zero a b less e d = absurd (omega arith)
images_ascend (suc zero) (suc zero) a b less e d = ground arith
images_ascend (suc zero) (suc (suc l)) a b less e d = absurd (ground arith)
images_ascend (suc (suc j)) l a b less e d = absurd (ground arith)

occurrences_ascend :
    (j l : ℕ) (a b : FindingRow)
    → j ≤ l
    → get_elem? finding_rows j ≡ some a
    → get_elem? finding_rows l ≡ some b
    → a.occurrence ≤ b.occurrence
occurrences_ascend zero l a b less e d = ground arith
occurrences_ascend (suc zero) zero a b less e d = absurd (omega arith)
occurrences_ascend (suc zero) (suc zero) a b less e d = ground arith
occurrences_ascend (suc zero) (suc (suc l)) a b less e d = absurd (ground arith)
occurrences_ascend (suc (suc j)) l a b less e d = absurd (ground arith)

small-IsLinked : IsLinked small
small-IsLinked = record {
  occs = occurrence_rows;
  finds = finding_rows;
  lics = allowed ∷ forbidden ∷ [];
  vulns = 1 ∷ 0 ∷ [];
  occs_models = two_rows-Models (occurrence 0 1 0) (occurrence 1 0 1);
  finds_models = two_rows-Models (finding 0 1) (finding 1 0);
  lics_models = two_rows-Models allowed forbidden;
  vulns_models = two_rows-Models 1 0;
  occs_linked =
      ((omega arith, omega arith, omega arith), ((omega arith, omega arith, omega arith), tt));
  finds_linked = ((omega arith, omega arith), ((omega arith, omega arith), tt));
  vulns_linked = (omega arith, (omega arith, tt));
  paired = refl;
  images_fit = omega arith;
  packages_fit = omega arith;
  vulnerabilities_fit = omega arith;
  sources_fit = omega arith;
  occurrences_fit = omega arith;
  rows_fit = omega arith;
  images_ascend = images_ascend;
  occurrences_ascend = occurrences_ascend;
}

abbrev image_packages : IndexDefinition
image_packages = record { name = bytes "image_packages"; size = 2; contiguous = false }

at_three : get_elem? (definitions small) 3 ≡ some image_packages
unfolding definitions
at_three = refl

build_indexes-row_example : Returns (build_indexes none small) λ x.
    index_value x.1 3 1 3 (pos 0)
    ≡ list_value 3 (row 1 (edges_of (visit small image_packages.name).visits)) (pos 0)
build_indexes-row_example =
    build_indexes-row small 3 1 3 (pos 0) image_packages small-IsLinked at_three (omega arith)

build_indexes-affected_example : Returns (build_indexes none small) λ x.
    ((i : ℕ) × (index_value x.1 10 0 1 (pos i) ≡ ok (ref_value 1 1 0)))
    ↔ Affects small small-IsLinked 0 1
build_indexes-affected_example = build_indexes-affected small 0 1 1 small-IsLinked (omega arith)
