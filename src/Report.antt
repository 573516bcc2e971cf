-- ===== src/Report.antt =====
-- The records of go/report.go and the packed records of go/payload.go.
--
-- A slice is `none` when it is nil, which packs unlike an empty one; a pointer to a string or a
-- Boolean is `none` when it is nil.
pub mod Stored
pub mod Canonical
pub mod Orders
use osvpy.Prelude.{ℕ, Bool, List, [], Option, none, some}
use osvpy.Text.{Text}

abbrev pub Slice : Type 0 → Type 0
Slice A = Option (List A)

-- The elements that a range loop visits, and that `len` counts.
abbrev pub items : {A : Type 0} → Slice A → List A
items none = []
items (some xs) = xs

pub record ReportPackage : Type 0 where
  pub name : Text
  pub version : Text
  pub ecosystem : Text
  pub commit : Text
  pub os_package_name : Text
  pub purl : Text

pub record ReportSeverity : Type 0 where
  pub type : Text
  pub source : Text
  pub vector : Text

pub record ReportReference : Type 0 where
  pub type : Text
  pub url : Text

pub record ReportAdvisory : Type 0 where
  pub id : Text
  pub aliases : Slice Text
  pub summary : Text
  pub modified : Option Text
  pub published : Option Text
  pub withdrawn : Option Text
  pub severities : Slice ReportSeverity
  pub references : Slice ReportReference
  pub database_severity : Option Text

pub record ReportVulnerability : Type 0 where
  pub id : Text
  pub aliases : Slice Text

pub record ReportContext : Type 0 where
  pub path : Text
  pub source_type : Text
  pub layer : Option Text
  pub dependency_groups : Slice Text

pub record ReportAssessment : Type 0 where
  pub called : Option Bool
  pub unimportant : Option Bool
  pub max_severity : Text

pub record ReportLicense : Type 0 where
  pub licenses : Slice Text
  pub policy : Slice Text
  pub violations : Slice Text
  pub status : Text

pub record ReportFix : Type 0 where
  pub versions : Slice Text
  pub status : Text
  pub severities : Slice ReportSeverity
  pub urgencies : Slice Text

pub record NativeError : Type 0 where
  pub code : Text
  pub message : Text

pub record ReportImage : Type 0 where
  pub requested : Text
  pub os : Option Text
  pub status : Text
  pub diagnostics : Slice NativeError
