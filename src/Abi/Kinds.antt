-- ===== src/Abi/Kinds.antt =====
-- The cases of `value`, one function for each record kind: its fields by number, and the panic
-- behind the switches for any other.
use osvpy.Prelude.{ℕ, ◌%◌, ◌^◌, some, none, ◌==◌, if◌then◌else◌, ℤ, pos, length}
use osvpy.Slabs
use osvpy.Run.{Run, ok, panic, ◌>>=◌, index, invalid_property}
use osvpy.Report.{items}
use osvpy.Report.Stored.{nil_span_start}
use osvpy.Store.{ReportStore}
use osvpy.Payload.Pack.{status_names}
use osvpy.Abi.{
  NativeValue, absent, text_value, ref_value, optional_bool_value, sequence, rows_value,
}
use osvpy.Abi.{record_list_value, text_at, optional_string_value, string_list_value, index_value}
use osvpy.Abi.{nested_text}

-- `textValue(statusNames[v.Status])`
unfoldable pub status_value : ℕ → Run NativeValue
status_value status = do s ← index status_names status; ok (text_value s)

module _ (r : ReportStore) where
  unfoldable pub batch_value : ℕ → ℤ → Run NativeValue
  batch_value field i =
      if field == 1
      then rows_value r.images.n 2 i
      else if field == 2
      then rows_value r.packages.n 3 i
      else if field == 3
      then rows_value r.vulnerabilities.n 4 i
      else if field == 4
      then rows_value r.advisory_sources.n 5 i
      else if field == 5
      then rows_value r.findings.n 7 i
      else panic invalid_property

  unfoldable pub image_value : ℕ → ℕ → ℤ → Run NativeValue
  image_value row field i = do
    v ← Slabs.at r.images (pos row)
    if field == 1
        then ok (text_value v.requested)
        else if field == 2
        then ok (elim v.os [ none ↦ absent | some s ↦ text_value s ])
        else if field == 3
        then ok (text_value v.status)
        else if field == 5
        then sequence (length (items v.diagnostics)) (λ j. ok (ref_value 13 row (j % 2 ^ 32))) i
        else if field == 6
        then index_value r 0 row 6 i
        else if field == 7
        then index_value r 1 row 7 i
        else if field == 8
        then index_value r 3 row 3 i
        else if field == 9
        then index_value r 4 row 3 i
        else if field == 10
        then index_value r 5 row 3 i
        else if field == 11
        then index_value r 6 row 4 i
        else panic invalid_property

  unfoldable pub package_value : ℕ → ℕ → ℤ → Run NativeValue
  package_value row field i = do
    v ← Slabs.at r.packages (pos row)
    if field == 1
        then text_at r v.name
        else if field == 2
        then text_at r v.version
        else if field == 3
        then text_at r v.ecosystem
        else if field == 4
        then text_at r v.commit
        else if field == 5
        then text_at r v.os_package_name
        else if field == 6
        then text_at r v.purl
        else if field == 7
        then index_value r 7 row 2 i
        else if field == 8
        then index_value r 8 row 2 i
        else if field == 9
        then index_value r 9 row 2 i
        else if field == 10
        then index_value r 10 row 2 i
        else if field == 11
        then index_value r 15 row 7 i
        else panic invalid_property

  unfoldable pub vulnerability_value : ℕ → ℕ → ℤ → Run NativeValue
  vulnerability_value row field i = do
    v ← Slabs.at r.vulnerabilities (pos row)
    if field == 1
        then text_at r v.id
        else if field == 2
        then string_list_value r v.aliases i
        else if field == 3
        then index_value r 11 row 2 i
        else if field == 4
        then index_value r 13 row 7 i
        else panic invalid_property

  unfoldable pub advisory_value : ℕ → ℕ → ℤ → Run NativeValue
  advisory_value row field i = do
    v ← Slabs.at r.advisory_sources (pos row)
    if field == 1
        then text_at r v.id
        else if field == 2
        then string_list_value r v.aliases i
        else if field == 3
        then text_at r v.summary
        else if field == 4
        then optional_string_value r v.modified
        else if field == 5
        then optional_string_value r v.published
        else if field == 6
        then optional_string_value r v.withdrawn
        else if field == 7
        then optional_string_value r v.database_severity
        else if field == 8
        then record_list_value v.severities 3 14 row i
        else if field == 9
        then record_list_value v.references 2 15 row i
        else if field == 10
        then index_value r 12 row 2 i
        else if field == 11
        then index_value r 14 row 7 i
        else panic invalid_property

  unfoldable pub occurrence_value : ℕ → ℕ → ℤ → Run NativeValue
  occurrence_value row field i = do
    v ← Slabs.at r.occurrences (pos row)
    if field == 1
        then ok (ref_value 2 v.image 0)
        else if field == 2
        then ok (ref_value 3 v.package_id 0)
        else if field == 3
        then ok (ref_value 8 v.context 0)
        else if field == 4
        then ok (ref_value 10 v.license 0)
        else if field == 5
        then index_value r 2 row 7 i
        else panic invalid_property

  unfoldable pub finding_value : ℕ → ℕ → ℤ → Run NativeValue
  finding_value row field i = do
    v ← Slabs.at r.findings (pos row)
    if field == 1
        then ok (ref_value 6 v.occurrence 0)
        else if field == 2
        then ok (ref_value 5 v.advisory 0)
        else if field == 3
        then ok (ref_value 11 v.fix 0)
        else if field == 4
        then ok (ref_value 9 v.assessment 0)
        else if field == 5
        then (do g ← Slabs.at r.advisory_vulnerabilities (pos v.advisory); ok (ref_value 4 g 0))
        else panic invalid_property

  unfoldable pub context_value : ℕ → ℕ → ℤ → Run NativeValue
  context_value row field i = do
    v ← Slabs.at r.contexts (pos row)
    if field == 1
        then text_at r v.path
        else if field == 2
        then text_at r v.source_type
        else if field == 3
        then optional_string_value r v.layer
        else if field == 4
        then string_list_value r v.dependency_groups i
        else panic invalid_property

  unfoldable pub assessment_value : ℕ → ℕ → ℤ → Run NativeValue
  assessment_value row field i = do
    v ← Slabs.at r.assessments (pos row)
    if field == 1
        then ok (optional_bool_value v.called)
        else if field == 2
        then ok (optional_bool_value v.unimportant)
        else if field == 3
        then text_at r v.max_severity
        else panic invalid_property

  unfoldable pub license_value : ℕ → ℕ → ℤ → Run NativeValue
  license_value row field i = do
    v ← Slabs.at r.licenses (pos row)
    if field == 1
        then string_list_value r v.licenses i
        else if field == 2
        then (if v.policy.start == nil_span_start
            then ok absent
            else string_list_value r v.policy i)
        else if field == 3
        then string_list_value r v.violations i
        else if field == 4
        then status_value v.status
        else panic invalid_property

  unfoldable pub fix_value : ℕ → ℕ → ℤ → Run NativeValue
  fix_value row field i = do
    v ← Slabs.at r.fixes (pos row)
    if field == 1
        then string_list_value r v.versions i
        else if field == 2
        then status_value v.status
        else if field == 3
        then record_list_value v.severities 3 16 row i
        else if field == 4
        then string_list_value r v.urgencies i
        else panic invalid_property

  unfoldable pub diagnostic_value : ℕ → ℕ → ℕ → Run NativeValue
  diagnostic_value row sub field = do
    v ← Slabs.at r.images (pos row)
    d ← index (items v.diagnostics) sub
    if field == 1
        then ok (text_value d.code)
        else if field == 2
        then ok (text_value d.message)
        else panic invalid_property

  unfoldable pub advisory_severity_value : ℕ → ℕ → ℕ → Run NativeValue
  advisory_severity_value row sub field = do
    v ← Slabs.at r.advisory_sources (pos row)
    nested_text r v.severities 3 sub field

  unfoldable pub advisory_reference_value : ℕ → ℕ → ℕ → Run NativeValue
  advisory_reference_value row sub field = do
    v ← Slabs.at r.advisory_sources (pos row)
    nested_text r v.references 2 sub field

  unfoldable pub fix_severity_value : ℕ → ℕ → ℕ → Run NativeValue
  fix_severity_value row sub field = do
    v ← Slabs.at r.fixes (pos row)
    nested_text r v.severities 3 sub field
