-- ===== src/Abi/Value.antt =====
-- The dispatch of `value` on the kind of the record.
use osvpy.Prelude.{ℕ, ◌==◌, if◌then◌else◌, ℤ}
use osvpy.Run.{Run, panic, invalid_property}
use osvpy.Store.{ReportStore}
use osvpy.Abi.{NativeValue}
use osvpy.Abi.Kinds.{batch_value, image_value, package_value, vulnerability_value, advisory_value}
use osvpy.Abi.Kinds.{occurrence_value, finding_value, context_value, assessment_value}
use osvpy.Abi.Kinds.{license_value, fix_value, diagnostic_value, advisory_severity_value}
use osvpy.Abi.Kinds.{advisory_reference_value, fix_severity_value}

unfoldable pub value : ReportStore → ℕ → ℕ → ℕ → ℕ → ℤ → Run NativeValue
value r kind row sub field i =
    if kind == 1
    then batch_value r field i
    else if kind == 2
    then image_value r row field i
    else if kind == 3
    then package_value r row field i
    else if kind == 4
    then vulnerability_value r row field i
    else if kind == 5
    then advisory_value r row field i
    else if kind == 6
    then occurrence_value r row field i
    else if kind == 7
    then finding_value r row field i
    else if kind == 8
    then context_value r row field i
    else if kind == 9
    then assessment_value r row field i
    else if kind == 10
    then license_value r row field i
    else if kind == 11
    then fix_value r row field i
    else if kind == 13
    then diagnostic_value r row sub field
    else if kind == 14
    then advisory_severity_value r row sub field
    else if kind == 15
    then advisory_reference_value r row sub field
    else if kind == 16
    then fix_severity_value r row sub field
    else panic invalid_property
