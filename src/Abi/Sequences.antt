-- ===== src/Abi/Sequences.antt =====
-- How `value` (go/abi.go) answers a length request and an index, for every kind and field.
use osvpy.Prelude.{ℕ, ◌≤◌, ◌≡◌, ◌≢◌, arith, Bool, true, false, if◌then◌else◌, ℤ, pos, negsuc, leb}
use osvpy.Prelude.{◌==◌, some, none, Option, zero, suc, ◌+◌, ◌*◌, ◌-◌, ◌/◌, ◌||◌, ltb}
use osvpy.Text.{Text}
use osvpy.Slabs
use osvpy.Report.Stored.{Span, nil_span_start}
use osvpy.Run.{Run, Panic, ok, panic, hang, ◌>>=◌, checked, index, invalid_index, invalid_property}
use osvpy.Report.{items}
use osvpy.Store.{ReportStore}
use osvpy.Payload.{string_at}
use osvpy.Payload.Pack.{status_names}
use osvpy.Abi.{NativeValue, absent, text_value, ref_value, optional_bool_value}
use osvpy.Abi.{sequence, rows_value, record_list_value, text_at, optional_string_value}
use osvpy.Abi.{string_list_value, index_value, nested_text, sub32}
use osvpy.Abi.Kinds.{status_value, batch_value, image_value, package_value, vulnerability_value}
use osvpy.Abi.Kinds.{advisory_value, occurrence_value, finding_value, context_value}
use osvpy.Abi.Kinds.{assessment_value, license_value, fix_value, diagnostic_value}
use osvpy.Abi.Kinds.{advisory_severity_value, advisory_reference_value, fix_severity_value}
use osvpy.Abi.Value.{value}

-- The answer `v` to a length request, against the answers to the indexes.
record Agrees (f : ℤ → Run NativeValue) (v : NativeValue) : Type 0 where
  past_end : v.tag ≡ 5 → (i : ℕ) → v.number ≤ i → f (pos i) ≡ panic invalid_index
  scalar : v.tag ≢ 5 → (i : ℕ) → f (pos i) ≡ ok v

record Uniform (f : ℤ → Run NativeValue) : Type 0 where
  agrees : (j : ℕ) (v : NativeValue) → f (negsuc j) ≡ ok v → Agrees f v

IsScalar : Run NativeValue → Type 0
IsScalar m = (v : NativeValue) → m ≡ ok v → v.tag ≢ 5

constant : (m : Run NativeValue) → IsScalar m → Uniform (λ i. m)
unfolding IsScalar
constant m h = record {
  agrees = λ j v e. record { past_end = λ t. absurd (h v e t); scalar = λ n i. e };
}

either :
    (b : Bool) {f g : ℤ → Run NativeValue}
    → Uniform f
    → Uniform g
    → Uniform (λ i. if b then f i else g i)
either true u v = u
either false u v = v

after :
    {A : Type 0} (m : Run A) {f : A → ℤ → Run NativeValue}
    → ((a : A) → Uniform (f a))
    → Uniform (λ i. m >>= λ a. f a i)
after (ok a) u = u a
after (panic p) u = record { agrees = λ j v e. absurd (cc) }
after hang u = record { agrees = λ j v e. absurd (cc) }

none_such : (p : Panic) → Uniform (λ i. panic p)
none_such p = record { agrees = λ j v e. absurd (cc) }

sequence-Uniform : (n : ℕ) (element : ℕ → Run NativeValue) → Uniform (sequence n element)
unfolding sequence checked
sequence-Uniform n element = record {
  agrees =
      λ j v e. record { past_end = λ t i h. ground arith; scalar = λ t i. absurd (ground arith) };
}

ok-IsScalar : (v : NativeValue) → v.tag ≢ 5 → IsScalar (ok v)
unfolding IsScalar
ok-IsScalar v h w e t = h (ground arith)

text-IsScalar :
    {A : Type 0} (m : Run A) (f : A → Text) → IsScalar (m >>= λ a. ok (text_value (f a)))
unfolding IsScalar
text-IsScalar (ok a) f v e t = ground arith
text-IsScalar (panic p) f v e t = cc
text-IsScalar hang f v e t = cc

ref-IsScalar :
    {A : Type 0} (m : Run A) (f : A → ℕ) (k : ℕ) → IsScalar (m >>= λ a. ok (ref_value k (f a) 0))
unfolding IsScalar
ref-IsScalar (ok a) f k v e t = ground arith
ref-IsScalar (panic p) f k v e t = cc
ref-IsScalar hang f k v e t = cc

bind-IsScalar :
    {A : Type 0} (m : Run A) (f : A → Run NativeValue)
    → ((a : A) → IsScalar (f a))
    → IsScalar (m >>= f)
unfolding IsScalar
bind-IsScalar (ok a) f h v e = h a v e
bind-IsScalar (panic p) f h v e = absurd (cc)
bind-IsScalar hang f h v e = absurd (cc)

panic-IsScalar : (p : Panic) → IsScalar (panic p)
unfolding IsScalar
panic-IsScalar p v e = absurd (cc)

either-IsScalar :
    (b : Bool) (m n : Run NativeValue) → IsScalar m → IsScalar n → IsScalar (if b then m else n)
either-IsScalar true m n h k = h
either-IsScalar false m n h k = k

optional_bool-IsScalar : (t : ℕ) → IsScalar (ok (optional_bool_value t))
unfolding optional_bool_value IsScalar
optional_bool-IsScalar t v e h = ground arith

module _ (r : ReportStore) where
  text_at-IsScalar : (id : ℕ) → IsScalar (text_at r id)
  unfolding text_at
  text_at-IsScalar id = text-IsScalar (string_at r.strings id) (λ s. s)

  optional_string-IsScalar : (id : ℕ) → IsScalar (optional_string_value r id)
  unfolding optional_string_value
  optional_string-IsScalar zero = ok-IsScalar absent (omega arith)
  optional_string-IsScalar (suc i) = text_at-IsScalar (suc i)

  string_list-Uniform : (s : Span) → Uniform (string_list_value r s)
  unfolding string_list_value
  string_list-Uniform s = sequence-Uniform s.count _

  index-Uniform : (id row kind : ℕ) → Uniform (index_value r id row kind)
  unfolding index_value
  index-Uniform id row kind = after (index r.indexes id) λ idx.
      after (Slabs.at idx.offsets (pos row)) λ start.
        after (Slabs.at idx.offsets (pos (row + 1))) λ stop. sequence-Uniform (sub32 stop start) _

  nested-IsScalar : (s : Span) (width sub field : ℕ) → IsScalar (nested_text r s width sub field)
  unfolding nested_text
  nested-IsScalar s width sub field =
      either-IsScalar (leb (s.count / width) sub || ltb field 1 || ltb width field) _ _
        (panic-IsScalar invalid_property)
        (bind-IsScalar (Slabs.at r.words (pos (s.start + sub * width + field - 1))) (text_at r)
          text_at-IsScalar)

  os-IsScalar :
      (os : Option Text) → IsScalar (ok (elim os [ none ↦ absent | some s ↦ text_value s ]))
  os-IsScalar none = ok-IsScalar absent (omega arith)
  os-IsScalar (some s) = ok-IsScalar (text_value s) (omega arith)

  batch-Uniform : (field : ℕ) → Uniform (batch_value r field)
  unfolding batch_value rows_value
  batch-Uniform field = either (field == 1) (sequence-Uniform _ _) (
      either (field == 2) (sequence-Uniform _ _) (
        either (field == 3) (sequence-Uniform _ _) (
          either (field == 4) (sequence-Uniform _ _)
            (either (field == 5) (sequence-Uniform _ _) (none_such invalid_property)))))

  image-Uniform : (row field : ℕ) → Uniform (image_value r row field)
  unfolding image_value
  image-Uniform row field = after (Slabs.at r.images (pos row)) λ v.
      either (field == 1) (constant _ (ok-IsScalar _ (omega arith))) (
        either (field == 2) (constant _ (os-IsScalar v.os)) (
          either (field == 3) (constant _ (ok-IsScalar _ (omega arith))) (
            either (field == 5) (sequence-Uniform _ _) (
              either (field == 6) (index-Uniform 0 row 6) (
                either (field == 7) (index-Uniform 1 row 7) (
                  either (field == 8) (index-Uniform 3 row 3) (
                    either (field == 9) (index-Uniform 4 row 3) (
                      either (field == 10) (index-Uniform 5 row 3) (
                        either (field == 11) (index-Uniform 6 row 4)
                          (none_such invalid_property))))))))))

  package-Uniform : (row field : ℕ) → Uniform (package_value r row field)
  unfolding package_value
  package-Uniform row field = after (Slabs.at r.packages (pos row)) λ v.
      either (field == 1) (constant _ (text_at-IsScalar v.name)) (
        either (field == 2) (constant _ (text_at-IsScalar v.version)) (
          either (field == 3) (constant _ (text_at-IsScalar v.ecosystem)) (
            either (field == 4) (constant _ (text_at-IsScalar v.commit)) (
              either (field == 5) (constant _ (text_at-IsScalar v.os_package_name)) (
                either (field == 6) (constant _ (text_at-IsScalar v.purl)) (
                  either (field == 7) (index-Uniform 7 row 2) (
                    either (field == 8) (index-Uniform 8 row 2) (
                      either (field == 9) (index-Uniform 9 row 2) (
                        either (field == 10) (index-Uniform 10 row 2) (
                          either (field == 11) (index-Uniform 15 row 7)
                            (none_such invalid_property)))))))))))

  vulnerability-Uniform : (row field : ℕ) → Uniform (vulnerability_value r row field)
  unfolding vulnerability_value
  vulnerability-Uniform row field = after (Slabs.at r.vulnerabilities (pos row)) λ v.
      either (field == 1) (constant _ (text_at-IsScalar v.id)) (
        either (field == 2) (string_list-Uniform v.aliases) (
          either (field == 3) (index-Uniform 11 row 2)
            (either (field == 4) (index-Uniform 13 row 7) (none_such invalid_property))))

  advisory-Uniform : (row field : ℕ) → Uniform (advisory_value r row field)
  unfolding advisory_value record_list_value
  advisory-Uniform row field = after (Slabs.at r.advisory_sources (pos row)) λ v.
      either (field == 1) (constant _ (text_at-IsScalar v.id)) (
        either (field == 2) (string_list-Uniform v.aliases) (
          either (field == 3) (constant _ (text_at-IsScalar v.summary)) (
            either (field == 4) (constant _ (optional_string-IsScalar v.modified)) (
              either (field == 5) (constant _ (optional_string-IsScalar v.published)) (
                either (field == 6) (constant _ (optional_string-IsScalar v.withdrawn)) (
                  either (field == 7) (constant _ (optional_string-IsScalar v.database_severity)) (
                    either (field == 8) (sequence-Uniform _ _) (
                      either (field == 9) (sequence-Uniform _ _) (
                        either (field == 10) (index-Uniform 12 row 2) (
                          either (field == 11) (index-Uniform 14 row 7)
                            (none_such invalid_property)))))))))))

  occurrence-Uniform : (row field : ℕ) → Uniform (occurrence_value r row field)
  unfolding occurrence_value
  occurrence-Uniform row field = after (Slabs.at r.occurrences (pos row)) λ v.
      either (field == 1) (constant _ (ok-IsScalar _ (omega arith))) (
        either (field == 2) (constant _ (ok-IsScalar _ (omega arith))) (
          either (field == 3) (constant _ (ok-IsScalar _ (omega arith))) (
            either (field == 4) (constant _ (ok-IsScalar _ (omega arith)))
              (either (field == 5) (index-Uniform 2 row 7) (none_such invalid_property)))))

  finding-Uniform : (row field : ℕ) → Uniform (finding_value r row field)
  unfolding finding_value
  finding-Uniform row field = after (Slabs.at r.findings (pos row)) λ v.
      either (field == 1) (constant _ (ok-IsScalar _ (omega arith))) (
        either (field == 2) (constant _ (ok-IsScalar _ (omega arith))) (
          either (field == 3) (constant _ (ok-IsScalar _ (omega arith))) (
            either (field == 4) (constant _ (ok-IsScalar _ (omega arith))) (
              either (field == 5)
                (constant _
                  (ref-IsScalar (Slabs.at r.advisory_vulnerabilities (pos v.advisory)) (λ g. g) 4))
                (none_such invalid_property)))))

  context-Uniform : (row field : ℕ) → Uniform (context_value r row field)
  unfolding context_value
  context-Uniform row field = after (Slabs.at r.contexts (pos row)) λ v.
      either (field == 1) (constant _ (text_at-IsScalar v.path)) (
        either (field == 2) (constant _ (text_at-IsScalar v.source_type)) (
          either (field == 3) (constant _ (optional_string-IsScalar v.layer)) (
            either (field == 4) (string_list-Uniform v.dependency_groups)
              (none_such invalid_property))))

  assessment-Uniform : (row field : ℕ) → Uniform (assessment_value r row field)
  unfolding assessment_value
  assessment-Uniform row field = after (Slabs.at r.assessments (pos row)) λ v.
      either (field == 1) (constant _ (optional_bool-IsScalar v.called)) (
        either (field == 2) (constant _ (optional_bool-IsScalar v.unimportant)) (
          either (field == 3) (constant _ (text_at-IsScalar v.max_severity))
            (none_such invalid_property)))

  license-Uniform : (row field : ℕ) → Uniform (license_value r row field)
  unfolding license_value status_value
  license-Uniform row field = after (Slabs.at r.licenses (pos row)) λ v.
      either (field == 1) (string_list-Uniform v.licenses) (
        either (field == 2)
          (either (v.policy.start == nil_span_start) (constant _ (ok-IsScalar _ (omega arith)))
            (string_list-Uniform v.policy))
          (either (field == 3) (string_list-Uniform v.violations) (
            either (field == 4) (constant _ (text-IsScalar (index status_names v.status) (λ s. s)))
              (none_such invalid_property))))

  fix-Uniform : (row field : ℕ) → Uniform (fix_value r row field)
  unfolding fix_value record_list_value status_value
  fix-Uniform row field = after (Slabs.at r.fixes (pos row)) λ v.
      either (field == 1) (string_list-Uniform v.versions) (
        either (field == 2) (constant _ (text-IsScalar (index status_names v.status) (λ s. s))) (
          either (field == 3) (sequence-Uniform _ _)
            (either (field == 4) (string_list-Uniform v.urgencies) (none_such invalid_property))))

  diagnostic-IsScalar : (row sub field : ℕ) → IsScalar (diagnostic_value r row sub field)
  unfolding diagnostic_value
  diagnostic-IsScalar row sub field = bind-IsScalar (Slabs.at r.images (pos row)) _ λ v.
      bind-IsScalar (index (items v.diagnostics) sub) _ λ d.
        either-IsScalar (field == 1) _ _ (ok-IsScalar _ (omega arith)) (
          either-IsScalar (field == 2) _ _ (ok-IsScalar _ (omega arith))
            (panic-IsScalar invalid_property))

  advisory_severity-IsScalar :
      (row sub field : ℕ) → IsScalar (advisory_severity_value r row sub field)
  unfolding advisory_severity_value
  advisory_severity-IsScalar row sub field =
      bind-IsScalar (Slabs.at r.advisory_sources (pos row)) _
        λ v. nested-IsScalar v.severities 3 sub field

  advisory_reference-IsScalar :
      (row sub field : ℕ) → IsScalar (advisory_reference_value r row sub field)
  unfolding advisory_reference_value
  advisory_reference-IsScalar row sub field =
      bind-IsScalar (Slabs.at r.advisory_sources (pos row)) _
        λ v. nested-IsScalar v.references 2 sub field

  fix_severity-IsScalar : (row sub field : ℕ) → IsScalar (fix_severity_value r row sub field)
  unfolding fix_severity_value
  fix_severity-IsScalar row sub field =
      bind-IsScalar (Slabs.at r.fixes (pos row)) _ λ v. nested-IsScalar v.severities 3 sub field

  value-Uniform : (kind row sub field : ℕ) → Uniform (value r kind row sub field)
  unfolding value
  value-Uniform kind row sub field = either (kind == 1) (batch-Uniform field) (
      either (kind == 2) (image-Uniform row field) (
        either (kind == 3) (package-Uniform row field) (
          either (kind == 4) (vulnerability-Uniform row field) (
            either (kind == 5) (advisory-Uniform row field) (
              either (kind == 6) (occurrence-Uniform row field) (
                either (kind == 7) (finding-Uniform row field) (
                  either (kind == 8) (context-Uniform row field) (
                    either (kind == 9) (assessment-Uniform row field) (
                      either (kind == 10) (license-Uniform row field) (
                        either (kind == 11) (fix-Uniform row field) (
                          either (kind == 13) (constant _ (diagnostic-IsScalar row sub field)) (
                            either (kind == 14)
                              (constant _ (advisory_severity-IsScalar row sub field))
                              (either (kind == 15)
                                (constant _ (advisory_reference-IsScalar row sub field))
                                (either (kind == 16)
                                  (constant _ (fix_severity-IsScalar row sub field))
                                  (none_such invalid_property)))))))))))))))

  -- Where `value` returns a sequence for a negative index, it panics with `invalid index` for every
  -- index from the length of the sequence on.
  pub value-past_end :
      (kind row sub field j i : ℕ) (v : NativeValue)
      → value r kind row sub field (negsuc j) ≡ ok v
      → v.tag ≡ 5
      → v.number ≤ i
      → value r kind row sub field (pos i) ≡ panic invalid_index
  value-past_end kind row sub field j i v e t h =
      ((value-Uniform kind row sub field).agrees j v e).past_end t i h

  -- Where `value` returns anything but a sequence for a negative index, it returns the same value
  -- for every index that is not negative.
  value-scalar :
      (kind row sub field j i : ℕ) (v : NativeValue)
      → value r kind row sub field (negsuc j) ≡ ok v
      → v.tag ≢ 5
      → value r kind row sub field (pos i) ≡ ok v
  value-scalar kind row sub field j i v e t =
      ((value-Uniform kind row sub field).agrees j v e).scalar t i
