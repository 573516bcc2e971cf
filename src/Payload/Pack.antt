-- ===== src/Payload/Pack.antt =====
-- The `pack` methods: each text becomes its number, each list a span. Go evaluates the fields of
-- a composite literal in the order in which they are written.
use osvpy.Prelude.{ℕ, suc, List, [], ◌∷◌, some, none, if◌then◌else◌}
use osvpy.Text.{Text, bytes}
use osvpy.Maps.{Comparable, nat_comparable, list_comparable}
use osvpy.Run.{Run, ok, panic, invalid_status}
use osvpy.State.{pure, lift, ◌>>=◌}
use osvpy.Report.{Slice, ReportPackage, ReportSeverity, ReportReference, ReportAdvisory}
use osvpy.Report.{ReportVulnerability, ReportContext, ReportAssessment, ReportLicense, ReportFix}
use osvpy.Report.Stored.{Span, StoredPackage, StoredAdvisory, StoredVulnerability, StoredContext}
use osvpy.Report.Stored.{StoredAssessment, StoredLicense, StoredFix, nil_span_start}
use osvpy.Payload.{M, string_id, optional_string, optional_bool}
use osvpy.Payload.Words.{pack_words}

abbrev pub status_names : List Text
status_names =
    bytes "not_evaluated"
    ∷ bytes "compliant"
    ∷ bytes "unknown"
    ∷ bytes "noncompliant"
    ∷ bytes "no_reported_fix"
    ∷ bytes "reported"
    ∷ []

-- The loop of `statusID` over the names that are left, of which the first has number `i`.
unfoldable pub status_from : ℕ → List Text → Text → Run ℕ
status_from i [] s = panic invalid_status
status_from i (n ∷ ns) s =
    let rest = status_from (suc i) ns s in if Comparable.eq list_comparable s n then ok i else rest

unfoldable pub status_id : Text → Run ℕ
unfolding status_from
status_id s = status_from 0 status_names s

-- The loops of `packStrings`, `packSeverities` and `packReferences`.
unfoldable pub string_words : List Text → M (List ℕ)
string_words [] = pure []
string_words (v ∷ vs) = do id ← string_id v; ids ← string_words vs; pure (id ∷ ids)

unfoldable pub severity_words : List ReportSeverity → M (List ℕ)
severity_words [] = pure []
severity_words (v ∷ vs) = do
  type ← string_id v.type
  source ← string_id v.source
  vector ← string_id v.vector
  ids ← severity_words vs
  pure (type ∷ source ∷ vector ∷ ids)

unfoldable pub reference_words : List ReportReference → M (List ℕ)
reference_words [] = pure []
reference_words (v ∷ vs) = do
  type ← string_id v.type
  url ← string_id v.url
  ids ← reference_words vs
  pure (type ∷ url ∷ ids)

-- `b.payload.scratch = words`
unfoldable pub keep_scratch : List ℕ → M (Unit {0})
keep_scratch words p = ok (tt, record p { payload = record p.payload { scratch = words } })

-- The three packers of lists differ in the words of an element.
unfoldable pub pack_with : {A : Type 0} → (List A → M (List ℕ)) → Slice A → M Span
unfolding keep_scratch
pack_with words none = pure (record { start = nil_span_start; count = 0 })
pack_with words (some []) = pure (record { start = 0; count = 0 })
pack_with words (some (v ∷ vs)) = do
  ws ← words (v ∷ vs)
  s ← pack_words (some ws)
  _ ← keep_scratch ws
  pure s

unfoldable pub pack_strings : Slice Text → M Span
unfolding pack_with string_words
pack_strings = pack_with string_words

unfoldable pub pack_severities : Slice ReportSeverity → M Span
unfolding pack_with severity_words
pack_severities = pack_with severity_words

unfoldable pub pack_references : Slice ReportReference → M Span
unfolding pack_with reference_words
pack_references = pack_with reference_words

unfoldable pub pack_package : ReportPackage → M StoredPackage
pack_package v = do
  name ← string_id v.name
  version ← string_id v.version
  ecosystem ← string_id v.ecosystem
  commit ← string_id v.commit
  os_package_name ← string_id v.os_package_name
  purl ← string_id v.purl
  pure (record {
    name = name;
    version = version;
    ecosystem = ecosystem;
    commit = commit;
    os_package_name = os_package_name;
    purl = purl;
  })

unfoldable pub pack_advisory : ReportAdvisory → M StoredAdvisory
pack_advisory v = do
  id ← string_id v.id
  aliases ← pack_strings v.aliases
  summary ← string_id v.summary
  modified ← optional_string v.modified
  published ← optional_string v.published
  withdrawn ← optional_string v.withdrawn
  severities ← pack_severities v.severities
  references ← pack_references v.references
  database_severity ← optional_string v.database_severity
  pure (record {
    id = id;
    aliases = aliases;
    summary = summary;
    modified = modified;
    published = published;
    withdrawn = withdrawn;
    severities = severities;
    references = references;
    database_severity = database_severity;
  })

unfoldable pub pack_vulnerability : ReportVulnerability → M StoredVulnerability
pack_vulnerability v = do
  id ← string_id v.id
  aliases ← pack_strings v.aliases
  pure (record { id = id; aliases = aliases })

unfoldable pub pack_context : ReportContext → M StoredContext
pack_context v = do
  path ← string_id v.path
  source_type ← string_id v.source_type
  layer ← optional_string v.layer
  dependency_groups ← pack_strings v.dependency_groups
  pure (record {
    path = path;
    source_type = source_type;
    layer = layer;
    dependency_groups = dependency_groups;
  })

unfoldable pub pack_assessment : ReportAssessment → M StoredAssessment
pack_assessment v = do
  max_severity ← string_id v.max_severity
  pure (record {
    called = optional_bool v.called;
    unimportant = optional_bool v.unimportant;
    max_severity = max_severity;
  })

unfoldable pub pack_license : ReportLicense → M StoredLicense
pack_license v = do
  licenses ← pack_strings v.licenses
  policy ← pack_strings v.policy
  violations ← pack_strings v.violations
  status ← lift (status_id v.status)
  pure (record { licenses = licenses; policy = policy; violations = violations; status = status })

unfoldable pub pack_fix : ReportFix → M StoredFix
pack_fix v = do
  versions ← pack_strings v.versions
  status ← lift (status_id v.status)
  severities ← pack_severities v.severities
  urgencies ← pack_strings v.urgencies
  pure (record {
    versions = versions;
    status = status;
    severities = severities;
    urgencies = urgencies;
  })
