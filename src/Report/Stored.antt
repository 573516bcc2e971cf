-- ===== src/Report/Stored.antt =====
-- The compact rows of go/payload.go and go/report.go, which Go compares field by field.
use osvpy.Prelude.{ℕ, ◌&&◌, ◌==◌, ◌≡◌, ◌↔◌, Bool, true, arith}
use osvpy.Maps.{Comparable}
use osvpy.Slabs.{Zero}

pub record Span : Type 0 where
  pub start : ℕ
  pub count : ℕ

-- `nilSpanStart` is ^uint32(0).
abbrev pub nil_span_start : ℕ
nil_span_start = 0xffff_ffff

pub record ListEntry : Type 0 where
  pub span : Span
  pub next : ℕ

pub record StoredPackage : Type 0 where
  pub name : ℕ
  pub version : ℕ
  pub ecosystem : ℕ
  pub commit : ℕ
  pub os_package_name : ℕ
  pub purl : ℕ

pub record StoredAdvisory : Type 0 where
  pub id : ℕ
  pub aliases : Span
  pub summary : ℕ
  pub modified : ℕ
  pub published : ℕ
  pub withdrawn : ℕ
  pub severities : Span
  pub references : Span
  pub database_severity : ℕ

pub record StoredVulnerability : Type 0 where
  pub id : ℕ
  pub aliases : Span

pub record StoredContext : Type 0 where
  pub path : ℕ
  pub source_type : ℕ
  pub layer : ℕ
  pub dependency_groups : Span

pub record StoredAssessment : Type 0 where
  pub called : ℕ
  pub unimportant : ℕ
  pub max_severity : ℕ

pub record StoredLicense : Type 0 where
  pub licenses : Span
  pub policy : Span
  pub violations : Span
  pub status : ℕ

pub record StoredFix : Type 0 where
  pub versions : Span
  pub status : ℕ
  pub severities : Span
  pub urgencies : Span

pub record OccurrenceRow : Type 0 where
  pub image : ℕ
  pub package_id : ℕ
  pub context : ℕ
  pub license : ℕ

pub record FindingRow : Type 0 where
  pub occurrence : ℕ
  pub advisory : ℕ
  pub fix : ℕ
  pub assessment : ℕ

unfoldable pub span_eq : Span → Span → Bool
span_eq a b = a.start == b.start && a.count == b.count

pub span_eq_iff : (a b : Span) → (span_eq a b ≡ true) ↔ (a ≡ b)
unfolding span_eq
span_eq_iff a b = ground arith

instance abbrev pub span_comparable : Comparable Span
span_comparable = record { eq = span_eq; eq_iff = span_eq_iff }

unfoldable pub package_eq : StoredPackage → StoredPackage → Bool
package_eq a b =
    a.name == b.name
    && a.version == b.version
    && a.ecosystem == b.ecosystem
    && a.commit == b.commit
    && a.os_package_name == b.os_package_name
    && a.purl == b.purl

pub package_eq_iff : (a b : StoredPackage) → (package_eq a b ≡ true) ↔ (a ≡ b)
unfolding package_eq
package_eq_iff a b = ground arith

instance abbrev pub package_comparable : Comparable StoredPackage
package_comparable = record { eq = package_eq; eq_iff = package_eq_iff }

unfoldable pub context_eq : StoredContext → StoredContext → Bool
unfolding span_eq
context_eq a b =
    a.path == b.path
    && a.source_type == b.source_type
    && a.layer == b.layer
    && span_eq a.dependency_groups b.dependency_groups

pub context_eq_iff : (a b : StoredContext) → (context_eq a b ≡ true) ↔ (a ≡ b)
unfolding context_eq
context_eq_iff a b = ground arith

instance abbrev pub context_comparable : Comparable StoredContext
context_comparable = record { eq = context_eq; eq_iff = context_eq_iff }

unfoldable pub assessment_eq : StoredAssessment → StoredAssessment → Bool
assessment_eq a b =
    a.called == b.called && a.unimportant == b.unimportant && a.max_severity == b.max_severity

pub assessment_eq_iff : (a b : StoredAssessment) → (assessment_eq a b ≡ true) ↔ (a ≡ b)
unfolding assessment_eq
assessment_eq_iff a b = ground arith

instance abbrev pub assessment_comparable : Comparable StoredAssessment
assessment_comparable = record { eq = assessment_eq; eq_iff = assessment_eq_iff }

unfoldable pub license_eq : StoredLicense → StoredLicense → Bool
unfolding span_eq
license_eq a b =
    span_eq a.licenses b.licenses
    && span_eq a.policy b.policy
    && span_eq a.violations b.violations
    && a.status == b.status

pub license_eq_iff : (a b : StoredLicense) → (license_eq a b ≡ true) ↔ (a ≡ b)
unfolding license_eq
license_eq_iff a b = ground arith

instance abbrev pub license_comparable : Comparable StoredLicense
license_comparable = record { eq = license_eq; eq_iff = license_eq_iff }

unfoldable pub fix_eq : StoredFix → StoredFix → Bool
unfolding span_eq
fix_eq a b =
    span_eq a.versions b.versions
    && a.status == b.status
    && span_eq a.severities b.severities
    && span_eq a.urgencies b.urgencies

pub fix_eq_iff : (a b : StoredFix) → (fix_eq a b ≡ true) ↔ (a ≡ b)
unfolding fix_eq
fix_eq_iff a b = ground arith

instance abbrev pub fix_comparable : Comparable StoredFix
fix_comparable = record { eq = fix_eq; eq_iff = fix_eq_iff }

unfoldable pub advisory_eq : StoredAdvisory → StoredAdvisory → Bool
unfolding span_eq
advisory_eq a b =
    a.id == b.id
    && span_eq a.aliases b.aliases
    && a.summary == b.summary
    && a.modified == b.modified
    && a.published == b.published
    && a.withdrawn == b.withdrawn
    && span_eq a.severities b.severities
    && span_eq a.references b.references
    && a.database_severity == b.database_severity

pub advisory_eq_iff : (a b : StoredAdvisory) → (advisory_eq a b ≡ true) ↔ (a ≡ b)
unfolding advisory_eq
advisory_eq_iff a b = ground arith

instance abbrev pub advisory_comparable : Comparable StoredAdvisory
advisory_comparable = record { eq = advisory_eq; eq_iff = advisory_eq_iff }

abbrev no_span : Span
no_span = record { start = 0; count = 0 }

instance abbrev pub entry_zero : Zero ListEntry
entry_zero = record { value = record { span = no_span; next = 0 } }

instance abbrev pub package_zero : Zero StoredPackage
package_zero = record {
  value = record {
    name = 0;
    version = 0;
    ecosystem = 0;
    commit = 0;
    os_package_name = 0;
    purl = 0;
  };
}

instance abbrev pub advisory_zero : Zero StoredAdvisory
advisory_zero = record {
  value = record {
    id = 0;
    aliases = no_span;
    summary = 0;
    modified = 0;
    published = 0;
    withdrawn = 0;
    severities = no_span;
    references = no_span;
    database_severity = 0;
  };
}

instance abbrev pub vulnerability_zero : Zero StoredVulnerability
vulnerability_zero = record { value = record { id = 0; aliases = no_span } }

instance abbrev pub context_zero : Zero StoredContext
context_zero = record {
  value = record { path = 0; source_type = 0; layer = 0; dependency_groups = no_span };
}

instance abbrev pub assessment_zero : Zero StoredAssessment
assessment_zero = record { value = record { called = 0; unimportant = 0; max_severity = 0 } }

instance abbrev pub license_zero : Zero StoredLicense
license_zero = record {
  value = record { licenses = no_span; policy = no_span; violations = no_span; status = 0 };
}

instance abbrev pub fix_zero : Zero StoredFix
fix_zero = record {
  value = record { versions = no_span; status = 0; severities = no_span; urgencies = no_span };
}

instance abbrev pub occurrence_zero : Zero OccurrenceRow
occurrence_zero = record { value = record { image = 0; package_id = 0; context = 0; license = 0 } }

instance abbrev pub finding_zero : Zero FindingRow
finding_zero = record { value = record { occurrence = 0; advisory = 0; fix = 0; assessment = 0 } }
