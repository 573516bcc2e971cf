-- ===== src/Store.antt =====
-- `reportStore` and `reportIndex`: the tables of a finished report (go/report.go, go/indexes.go).
use osvpy.Prelude.{ℕ, List, [], Bool, none}
use osvpy.Text.{Text}
use osvpy.Slabs.{Slabs, Zero}
use osvpy.Report.{ReportImage}
use osvpy.Report.Stored.{StoredPackage, StoredAdvisory, StoredVulnerability, StoredContext}
use osvpy.Report.Stored.{StoredAssessment, StoredLicense, StoredFix, OccurrenceRow, FindingRow}

pub record ReportIndex : Type 0 where
  pub name : Text
  pub offsets : Slabs ℕ
  pub members : Slabs ℕ
  pub range : Bool

pub record ReportStore : Type 0 where
  pub indexes : List ReportIndex
  pub images : Slabs ReportImage
  pub packages : Slabs StoredPackage
  pub vulnerabilities : Slabs StoredVulnerability
  pub advisory_sources : Slabs StoredAdvisory
  pub contexts : Slabs StoredContext
  pub assessments : Slabs StoredAssessment
  pub licenses : Slabs StoredLicense
  pub fixes : Slabs StoredFix
  pub occurrences : Slabs OccurrenceRow
  pub findings : Slabs FindingRow
  pub advisory_vulnerabilities : Slabs ℕ
  pub strings : Slabs Text
  pub words : Slabs ℕ

instance abbrev pub image_zero : Zero ReportImage
image_zero = record {
  value = record { requested = []; os = none; status = []; diagnostics = none };
}
