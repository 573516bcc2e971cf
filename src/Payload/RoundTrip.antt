-- ===== src/Payload/RoundTrip.antt =====
-- Reading back rows that have been packed (go/payload.go), with the readers of go/payload_test.go.
use osvpy.Prelude.{ℕ, ◌+◌, ◌≡◌, arith}
use osvpy.Run.{Run, ok, ◌>>=◌, Returns, index_lem}
use osvpy.Report.{ReportPackage, ReportAdvisory, ReportVulnerability, ReportContext}
use osvpy.Report.{ReportAssessment, ReportLicense, ReportFix}
use osvpy.Report.Stored.{StoredPackage, StoredAdvisory, StoredVulnerability, StoredContext}
use osvpy.Report.Stored.{StoredAssessment, StoredLicense, StoredFix}
use osvpy.Payload.{PayloadState, M}
use osvpy.Payload.Pack.{pack_package, pack_advisory, pack_vulnerability, pack_context}
use osvpy.Payload.Pack.{pack_assessment, pack_license, pack_fix, status_id, status_names}
use osvpy.Payload.Unpack.{package_of, advisory_of, vulnerability_of, context_of, assessment_of}
use osvpy.Payload.Unpack.{license_of, fix_of}
use osvpy.Payload.Ledger.{Ledger, Represents, Room, Does, IsStable}
use osvpy.Payload.Rules.{Room-le, pure_Does, bind}
use osvpy.Payload.Decode.{bool_pointer-optional_bool, string_at_lem, optional_string_at_lem}
use osvpy.Payload.Decode.{unpack_strings_lem, unpack_severities_lem, unpack_references_lem}
use osvpy.Payload.Records.{KnownPackage, KnownAdvisory, KnownVulnerability, KnownContext}
use osvpy.Payload.Records.{KnownAssessment, KnownLicense, KnownFix, status_id-get_elem?}
use osvpy.Payload.Identity.{pack_both}
use osvpy.Payload.Identity.{
  KnownPackage-IsStable, KnownAdvisory-IsStable, KnownVulnerability-IsStable, KnownContext-IsStable,
  KnownAssessment-IsStable, KnownLicense-IsStable, KnownFix-IsStable,
}
use osvpy.Payload.Packs.{
  pack_package_Does, pack_advisory_Does, pack_vulnerability_Does, pack_context_Does,
  pack_assessment_Does, pack_license_Does, pack_fix_Does,
}
use osvpy.Payload.Packs.{
  package_cost, advisory_cost, vulnerability_cost, context_cost, assessment_cost, license_cost,
  fix_cost,
}

module _ (p : PayloadState) (l : Ledger) (rep : Represents p l) (room : Room l 0) where
  package_of_lem :
      (v : ReportPackage) (a : StoredPackage)
      → KnownPackage l v a
      → package_of p.strings p.words a ≡ ok v
  unfolding package_of
  package_of_lem v a h = rw (
    string_at_lem p l rep v.name h.name,
    ◌>>=◌,
    string_at_lem p l rep v.version h.version,
    string_at_lem p l rep v.ecosystem h.ecosystem,
    string_at_lem p l rep v.commit h.commit,
    string_at_lem p l rep v.os_package_name h.os_package_name,
    string_at_lem p l rep v.purl h.purl,
  )

  advisory_of_lem :
      (v : ReportAdvisory) (a : StoredAdvisory)
      → KnownAdvisory l v a
      → advisory_of p.strings p.words a ≡ ok v
  unfolding advisory_of
  advisory_of_lem v a h = rw (
    string_at_lem p l rep v.id h.id,
    ◌>>=◌,
    unpack_strings_lem p l rep room v.aliases a.aliases h.aliases,
    string_at_lem p l rep v.summary h.summary,
    optional_string_at_lem p l rep v.modified a.modified h.modified,
    optional_string_at_lem p l rep v.published a.published h.published,
    optional_string_at_lem p l rep v.withdrawn a.withdrawn h.withdrawn,
    unpack_severities_lem p l rep room v.severities a.severities h.severities,
    unpack_references_lem p l rep room v.references a.references h.references,
    optional_string_at_lem p l rep v.database_severity a.database_severity h.database_severity,
  )

  vulnerability_of_lem :
      (v : ReportVulnerability) (a : StoredVulnerability)
      → KnownVulnerability l v a
      → vulnerability_of p.strings p.words a ≡ ok v
  unfolding vulnerability_of
  vulnerability_of_lem v a h = rw (
    string_at_lem p l rep v.id h.id,
    ◌>>=◌,
    unpack_strings_lem p l rep room v.aliases a.aliases h.aliases,
  )

  context_of_lem :
      (v : ReportContext) (a : StoredContext)
      → KnownContext l v a
      → context_of p.strings p.words a ≡ ok v
  unfolding context_of
  context_of_lem v a h = rw (
    string_at_lem p l rep v.path h.path,
    ◌>>=◌,
    string_at_lem p l rep v.source_type h.source_type,
    optional_string_at_lem p l rep v.layer a.layer h.layer,
    unpack_strings_lem p l rep room v.dependency_groups a.dependency_groups h.dependency_groups,
  )

  assessment_of_lem :
      (v : ReportAssessment) (a : StoredAssessment)
      → KnownAssessment l v a
      → assessment_of p.strings p.words a ≡ ok v
  unfolding assessment_of
  assessment_of_lem v a h = rw (
    string_at_lem p l rep v.max_severity h.max_severity,
    ◌>>=◌,
    ← h.called,
    bool_pointer-optional_bool v.called,
    ← h.unimportant,
    bool_pointer-optional_bool v.unimportant,
  )

  license_of_lem :
      (v : ReportLicense) (a : StoredLicense)
      → KnownLicense l v a
      → license_of p.strings p.words a ≡ ok v
  unfolding license_of
  license_of_lem v a h = rw (
    unpack_strings_lem p l rep room v.licenses a.licenses h.licenses,
    ◌>>=◌,
    unpack_strings_lem p l rep room v.policy a.policy h.policy,
    unpack_strings_lem p l rep room v.violations a.violations h.violations,
    index_lem status_names a.status (status_id-get_elem? v.status h.status),
  )

  fix_of_lem : (v : ReportFix) (a : StoredFix) → KnownFix l v a → fix_of p.strings p.words a ≡ ok v
  unfolding fix_of
  fix_of_lem v a h = rw (
    unpack_strings_lem p l rep room v.versions a.versions h.versions,
    ◌>>=◌,
    index_lem status_names a.status (status_id-get_elem? v.status h.status),
    unpack_severities_lem p l rep room v.severities a.severities h.severities,
    unpack_strings_lem p l rep room v.urgencies a.urgencies h.urgencies,
  )

module _ {V A : Type 0} (pack : V → M A) (decode : PayloadState → A → Run V)
    (Known : Ledger → V → A → Type 0) where
  pack_round_trip :
      ((v : V) (a : A) → IsStable (λ l. Known l v a))
      → ((p : PayloadState) (l : Ledger)
          → Represents p l
          → Room l 0
          → (v : V) (a : A) → Known l v a
          → decode p a ≡ ok v)
      → (v w : V) (j k : ℕ) → Does (pack v) j (λ l a. Known l v a)
      → Does (pack w) k (λ l a. Known l w a)
      → (p : PayloadState) (l : Ledger) → Represents p l
      → Room l (j + k)
      → Returns (pack_both pack v w p) λ r. (decode r.1 r.0.0 ≡ ok v) × (decode r.1 r.0.1 ≡ ok w)
  pack_round_trip keep back v w j k d e p l rep room =
      let both : Does (pack_both pack v w) (j + (k + 0)) (λ l' r. Known l' v r.0 × Known l' w r.1) =
        bind (keep v) d λ a. bind (keep w) e λ b. pure_Does (a, b) λ l' hb ha. (ha, hb) in
      let (r, p', l', run, rep', ext, left, (ha, hb)) =
        both.runs p l 0 rep (Room-le l (j + (k + 0) + 0) (j + k) (omega arith) room) in
      ((r, p'), run, (back p' l' rep' left v r.0 ha, back p' l' rep' left w r.1 hb))

-- On payload tables that represent a ledger with room for both, packing two package records one
-- after the other returns, and reading back both rows from the tables as they are then gives both
-- records unchanged, nil and empty lists and absent texts told apart.
pub pack_package-round_trip :
    (v w : ReportPackage) (p : PayloadState) (l : Ledger)
    → Represents p l
    → Room l (package_cost v + package_cost w)
    → Returns (pack_both pack_package v w p) λ r.
      (package_of r.1.strings r.1.words r.0.0 ≡ ok v)
      × (package_of r.1.strings r.1.words r.0.1 ≡ ok w)
pack_package-round_trip v w p l rep room =
    pack_round_trip pack_package (λ p a. package_of p.strings p.words a) KnownPackage
      KnownPackage-IsStable package_of_lem v w _ _ (pack_package_Does v) (pack_package_Does w) p l
      rep room

-- On payload tables that represent a ledger with room for both, packing two advisory records one
-- after the other returns, and reading back both rows from the tables as they are then gives both
-- records unchanged, nil and empty lists and absent texts told apart.
pub pack_advisory-round_trip :
    (v w : ReportAdvisory) (p : PayloadState) (l : Ledger)
    → Represents p l
    → Room l (advisory_cost v + advisory_cost w)
    → Returns (pack_both pack_advisory v w p) λ r.
      (advisory_of r.1.strings r.1.words r.0.0 ≡ ok v)
      × (advisory_of r.1.strings r.1.words r.0.1 ≡ ok w)
pack_advisory-round_trip v w p l rep room =
    pack_round_trip pack_advisory (λ p a. advisory_of p.strings p.words a) KnownAdvisory
      KnownAdvisory-IsStable advisory_of_lem v w _ _ (pack_advisory_Does v) (pack_advisory_Does w) p
      l rep room

-- On payload tables that represent a ledger with room for both, packing two vulnerability records
-- one after the other returns, and reading back both rows from the tables as they are then gives
-- both records unchanged, nil and empty lists and absent texts told apart.
pub pack_vulnerability-round_trip :
    (v w : ReportVulnerability) (p : PayloadState) (l : Ledger)
    → Represents p l
    → Room l (vulnerability_cost v + vulnerability_cost w)
    → Returns (pack_both pack_vulnerability v w p) λ r.
      (vulnerability_of r.1.strings r.1.words r.0.0 ≡ ok v)
      × (vulnerability_of r.1.strings r.1.words r.0.1 ≡ ok w)
pack_vulnerability-round_trip v w p l rep room =
    pack_round_trip pack_vulnerability (λ p a. vulnerability_of p.strings p.words a)
      KnownVulnerability KnownVulnerability-IsStable vulnerability_of_lem v w _ _
      (pack_vulnerability_Does v) (pack_vulnerability_Does w) p l rep room

-- On payload tables that represent a ledger with room for both, packing two context records one
-- after the other returns, and reading back both rows from the tables as they are then gives both
-- records unchanged, nil and empty lists and absent texts told apart.
pub pack_context-round_trip :
    (v w : ReportContext) (p : PayloadState) (l : Ledger)
    → Represents p l
    → Room l (context_cost v + context_cost w)
    → Returns (pack_both pack_context v w p) λ r.
      (context_of r.1.strings r.1.words r.0.0 ≡ ok v)
      × (context_of r.1.strings r.1.words r.0.1 ≡ ok w)
pack_context-round_trip v w p l rep room =
    pack_round_trip pack_context (λ p a. context_of p.strings p.words a) KnownContext
      KnownContext-IsStable context_of_lem v w _ _ (pack_context_Does v) (pack_context_Does w) p l
      rep room

-- On payload tables that represent a ledger with room for both, packing two assessment records one
-- after the other returns, and reading back both rows from the tables as they are then gives both
-- records unchanged, nil and empty lists and absent texts told apart.
pub pack_assessment-round_trip :
    (v w : ReportAssessment) (p : PayloadState) (l : Ledger)
    → Represents p l
    → Room l (assessment_cost v + assessment_cost w)
    → Returns (pack_both pack_assessment v w p) λ r.
      (assessment_of r.1.strings r.1.words r.0.0 ≡ ok v)
      × (assessment_of r.1.strings r.1.words r.0.1 ≡ ok w)
pack_assessment-round_trip v w p l rep room =
    pack_round_trip pack_assessment (λ p a. assessment_of p.strings p.words a) KnownAssessment
      KnownAssessment-IsStable assessment_of_lem v w _ _ (pack_assessment_Does v)
      (pack_assessment_Does w) p l rep room

-- On payload tables that represent a ledger with room for both, packing two license records whose
-- statuses are known names one after the other returns, and reading back both rows from the tables
-- as they are then gives both records unchanged, nil and empty lists and absent texts told apart.
pub pack_license-round_trip :
    (v w : ReportLicense) (p : PayloadState) (l : Ledger)
    → Represents p l
    → (i j : ℕ) → status_id v.status ≡ ok i
    → status_id w.status ≡ ok j
    → Room l (license_cost v + license_cost w)
    → Returns (pack_both pack_license v w p) λ r.
      (license_of r.1.strings r.1.words r.0.0 ≡ ok v)
      × (license_of r.1.strings r.1.words r.0.1 ≡ ok w)
pack_license-round_trip v w p l rep i j hv hw room =
    pack_round_trip pack_license (λ p a. license_of p.strings p.words a) KnownLicense
      KnownLicense-IsStable license_of_lem v w _ _ (pack_license_Does v i hv)
      (pack_license_Does w j hw) p l rep room

-- On payload tables that represent a ledger with room for both, packing two fix records whose
-- statuses are known names one after the other returns, and reading back both rows from the tables
-- as they are then gives both records unchanged, nil and empty lists and absent texts told apart.
pub pack_fix-round_trip :
    (v w : ReportFix) (p : PayloadState) (l : Ledger)
    → Represents p l
    → (i j : ℕ) → status_id v.status ≡ ok i
    → status_id w.status ≡ ok j
    → Room l (fix_cost v + fix_cost w)
    → Returns (pack_both pack_fix v w p) λ r.
      (fix_of r.1.strings r.1.words r.0.0 ≡ ok v) × (fix_of r.1.strings r.1.words r.0.1 ≡ ok w)
pack_fix-round_trip v w p l rep i j hv hw room =
    pack_round_trip pack_fix (λ p a. fix_of p.strings p.words a) KnownFix KnownFix-IsStable
      fix_of_lem v w _ _ (pack_fix_Does v i hv) (pack_fix_Does w j hw) p l rep room
