-- ===== src/Payload/Unpack.antt =====
-- The decoders of go/payload_test.go, which read a whole record back.
use osvpy.Prelude.{ℕ, zero, suc, ◌+◌, ◌/◌, List, [], ◌∷◌, Option, some, none, ◌==◌, pos}
use osvpy.Prelude.{Bool, if◌then◌else◌}
use osvpy.Text.{Text}
use osvpy.Slabs.{Slabs}
use osvpy.Slabs
use osvpy.Run.{Run, ok, ◌>>=◌, index}
use osvpy.Report.{Slice, ReportPackage, ReportSeverity, ReportReference, ReportAdvisory}
use osvpy.Report.{ReportVulnerability, ReportContext, ReportAssessment, ReportLicense, ReportFix}
use osvpy.Report.Stored.{Span, StoredPackage, StoredAdvisory, StoredVulnerability, StoredContext}
use osvpy.Report.Stored.{StoredAssessment, StoredLicense, StoredFix, nil_span_start}
use osvpy.Payload.{string_at}
use osvpy.Payload.Pack.{status_names}

unfoldable pub bool_pointer : ℕ → Option Bool
bool_pointer b = if b == 0 then none else some (b == 2)

-- The tables that the decoders read.
module _ (strings : Slabs Text) (words : Slabs ℕ) where
  unfoldable pub optional_string_at : ℕ → Run (Option Text)
  optional_string_at zero = ok none
  optional_string_at (suc i) = do s ← string_at strings (suc i); ok (some s)

  -- The text whose number is word `i`.
  unfoldable pub word_text : ℕ → Run Text
  word_text i = do w ← Slabs.at words (pos i); string_at strings w

  -- The loops, on the number of elements that are left.
  unfoldable pub read_strings : ℕ → ℕ → Run (List Text)
  unfolding word_text
  read_strings zero start = ok []
  read_strings (suc n) start = do v ← word_text start; vs ← read_strings n (start + 1); ok (v ∷ vs)

  unfoldable pub read_severities : ℕ → ℕ → Run (List ReportSeverity)
  unfolding word_text
  read_severities zero start = ok []
  read_severities (suc n) start = do
    type ← word_text start
    source ← word_text (start + 1)
    vector ← word_text (start + 2)
    vs ← read_severities n (start + 3)
    ok (record { type = type; source = source; vector = vector } ∷ vs)

  unfoldable pub read_references : ℕ → ℕ → Run (List ReportReference)
  unfolding word_text
  read_references zero start = ok []
  read_references (suc n) start = do
    type ← word_text start
    url ← word_text (start + 1)
    vs ← read_references n (start + 2)
    ok (record { type = type; url = url } ∷ vs)

  unfoldable pub unpack_strings : Span → Run (Slice Text)
  unfolding read_strings
  unpack_strings s =
      if s.start == nil_span_start
      then ok none
      else (do vs ← read_strings s.count s.start; ok (some vs))

  unfoldable pub unpack_severities : Span → Run (Slice ReportSeverity)
  unfolding read_severities
  unpack_severities s =
      if s.start == nil_span_start
      then ok none
      else (do vs ← read_severities (s.count / 3) s.start; ok (some vs))

  unfoldable pub unpack_references : Span → Run (Slice ReportReference)
  unfolding read_references
  unpack_references s =
      if s.start == nil_span_start
      then ok none
      else (do vs ← read_references (s.count / 2) s.start; ok (some vs))

  -- The records, at a row that has been read from its table.
  unfoldable pub package_of : StoredPackage → Run ReportPackage
  package_of v = do
    name ← string_at strings v.name
    version ← string_at strings v.version
    ecosystem ← string_at strings v.ecosystem
    commit ← string_at strings v.commit
    os_package_name ← string_at strings v.os_package_name
    purl ← string_at strings v.purl
    ok (record {
      name = name;
      version = version;
      ecosystem = ecosystem;
      commit = commit;
      os_package_name = os_package_name;
      purl = purl;
    })

  unfoldable pub advisory_of : StoredAdvisory → Run ReportAdvisory
  advisory_of v = do
    id ← string_at strings v.id
    aliases ← unpack_strings v.aliases
    summary ← string_at strings v.summary
    modified ← optional_string_at v.modified
    published ← optional_string_at v.published
    withdrawn ← optional_string_at v.withdrawn
    severities ← unpack_severities v.severities
    references ← unpack_references v.references
    database_severity ← optional_string_at v.database_severity
    ok (record {
      id = id;
      aliases = aliases;
      summary = summary;
      modified = modified;
      published = published;
      withdrawn = withdrawn;
      severities = severities;
      references = references;
      database_severity = database_severity;
    })

  unfoldable pub vulnerability_of : StoredVulnerability → Run ReportVulnerability
  vulnerability_of v = do
    id ← string_at strings v.id
    aliases ← unpack_strings v.aliases
    ok (record { id = id; aliases = aliases })

  unfoldable pub context_of : StoredContext → Run ReportContext
  context_of v = do
    path ← string_at strings v.path
    source_type ← string_at strings v.source_type
    layer ← optional_string_at v.layer
    dependency_groups ← unpack_strings v.dependency_groups
    ok (record {
      path = path;
      source_type = source_type;
      layer = layer;
      dependency_groups = dependency_groups;
    })

  unfoldable pub assessment_of : StoredAssessment → Run ReportAssessment
  assessment_of v = do
    max_severity ← string_at strings v.max_severity
    ok (record {
      called = bool_pointer v.called;
      unimportant = bool_pointer v.unimportant;
      max_severity = max_severity;
    })

  unfoldable pub license_of : StoredLicense → Run ReportLicense
  license_of v = do
    licenses ← unpack_strings v.licenses
    policy ← unpack_strings v.policy
    violations ← unpack_strings v.violations
    status ← index status_names v.status
    ok (record { licenses = licenses; policy = policy; violations = violations; status = status })

  unfoldable pub fix_of : StoredFix → Run ReportFix
  fix_of v = do
    versions ← unpack_strings v.versions
    status ← index status_names v.status
    severities ← unpack_severities v.severities
    urgencies ← unpack_strings v.urgencies
    ok (record {
      versions = versions;
      status = status;
      severities = severities;
      urgencies = urgencies;
    })
