-- ===== src/Payload/Identity.antt =====
-- Packing two records (go/payload.go): `table.intern` compares their rows in place of the records.
use osvpy.Prelude.{ℕ, ◌+◌, ◌≡◌, ◌↔◌, subst, arith, sym}
use osvpy.Run.{ok, Returns}
use osvpy.State.{pure, ◌>>=◌}
use osvpy.Report.{ReportPackage, ReportAdvisory, ReportVulnerability, ReportContext}
use osvpy.Report.{ReportAssessment, ReportLicense, ReportFix}
use osvpy.Report.Stored.{StoredPackage, StoredAdvisory, StoredVulnerability, StoredContext}
use osvpy.Report.Stored.{StoredAssessment, StoredLicense, StoredFix}
use osvpy.Payload.{PayloadState, M}
use osvpy.Payload.Pack.{pack_package, pack_advisory, pack_vulnerability, pack_context}
use osvpy.Payload.Pack.{pack_assessment, pack_license, pack_fix, status_id}
use osvpy.Payload.Ledger.{Ledger, Represents, Room, Does, IsStable}
use osvpy.Payload.Rules.{Room-le, pure_Does, bind}
use osvpy.Payload.Known.{severity_texts, reference_texts, over, KnownText-IsStable}
use osvpy.Payload.Known.{KnownOption-IsStable, KnownSlice-IsStable}
use osvpy.Payload.Records.{KnownPackage, KnownAdvisory, KnownVulnerability, KnownContext}
use osvpy.Payload.Records.{KnownAssessment, KnownLicense, KnownFix}
use osvpy.Payload.Records.{
  KnownPackage-functional, KnownAdvisory-functional, KnownVulnerability-functional,
  KnownContext-functional, KnownAssessment-functional, KnownLicense-functional, KnownFix-functional,
}
use osvpy.Payload.Records.{
  KnownPackage-injective, KnownAdvisory-injective, KnownVulnerability-injective,
  KnownContext-injective, KnownAssessment-injective, KnownLicense-injective, KnownFix-injective,
}
use osvpy.Payload.Packs.{
  pack_package_Does, pack_advisory_Does, pack_vulnerability_Does, pack_context_Does,
  pack_assessment_Does, pack_license_Does, pack_fix_Does,
}
use osvpy.Payload.Packs.{
  package_cost, advisory_cost, vulnerability_cost, context_cost, assessment_cost, license_cost,
  fix_cost,
}

pub KnownPackage-IsStable :
    (v : ReportPackage) (a : StoredPackage) → IsStable (λ l. KnownPackage l v a)
KnownPackage-IsStable v a l l' x h = record {
  name = KnownText-IsStable v.name a.name l l' x h.name;
  version = KnownText-IsStable v.version a.version l l' x h.version;
  ecosystem = KnownText-IsStable v.ecosystem a.ecosystem l l' x h.ecosystem;
  commit = KnownText-IsStable v.commit a.commit l l' x h.commit;
  os_package_name = KnownText-IsStable v.os_package_name a.os_package_name l l' x h.os_package_name;
  purl = KnownText-IsStable v.purl a.purl l l' x h.purl;
}

pub KnownAdvisory-IsStable :
    (v : ReportAdvisory) (a : StoredAdvisory) → IsStable (λ l. KnownAdvisory l v a)
KnownAdvisory-IsStable v a l l' x h = record {
  id = KnownText-IsStable v.id a.id l l' x h.id;
  aliases = KnownSlice-IsStable v.aliases a.aliases l l' x h.aliases;
  summary = KnownText-IsStable v.summary a.summary l l' x h.summary;
  modified = KnownOption-IsStable v.modified a.modified l l' x h.modified;
  published = KnownOption-IsStable v.published a.published l l' x h.published;
  withdrawn = KnownOption-IsStable v.withdrawn a.withdrawn l l' x h.withdrawn;
  severities =
      KnownSlice-IsStable (over severity_texts v.severities) a.severities l l' x h.severities;
  references =
      KnownSlice-IsStable (over reference_texts v.references) a.references l l' x h.references;
  database_severity =
      KnownOption-IsStable v.database_severity a.database_severity l l' x h.database_severity;
}

pub KnownVulnerability-IsStable :
    (v : ReportVulnerability) (a : StoredVulnerability) → IsStable (λ l. KnownVulnerability l v a)
KnownVulnerability-IsStable v a l l' x h = record {
  id = KnownText-IsStable v.id a.id l l' x h.id;
  aliases = KnownSlice-IsStable v.aliases a.aliases l l' x h.aliases;
}

pub KnownContext-IsStable :
    (v : ReportContext) (a : StoredContext) → IsStable (λ l. KnownContext l v a)
KnownContext-IsStable v a l l' x h = record {
  path = KnownText-IsStable v.path a.path l l' x h.path;
  source_type = KnownText-IsStable v.source_type a.source_type l l' x h.source_type;
  layer = KnownOption-IsStable v.layer a.layer l l' x h.layer;
  dependency_groups =
      KnownSlice-IsStable v.dependency_groups a.dependency_groups l l' x h.dependency_groups;
}

pub KnownAssessment-IsStable :
    (v : ReportAssessment) (a : StoredAssessment) → IsStable (λ l. KnownAssessment l v a)
KnownAssessment-IsStable v a l l' x h = record {
  called = h.called;
  unimportant = h.unimportant;
  max_severity = KnownText-IsStable v.max_severity a.max_severity l l' x h.max_severity;
}

pub KnownLicense-IsStable :
    (v : ReportLicense) (a : StoredLicense) → IsStable (λ l. KnownLicense l v a)
KnownLicense-IsStable v a l l' x h = record {
  licenses = KnownSlice-IsStable v.licenses a.licenses l l' x h.licenses;
  policy = KnownSlice-IsStable v.policy a.policy l l' x h.policy;
  violations = KnownSlice-IsStable v.violations a.violations l l' x h.violations;
  status = h.status;
}

pub KnownFix-IsStable : (v : ReportFix) (a : StoredFix) → IsStable (λ l. KnownFix l v a)
KnownFix-IsStable v a l l' x h = record {
  versions = KnownSlice-IsStable v.versions a.versions l l' x h.versions;
  status = h.status;
  severities =
      KnownSlice-IsStable (over severity_texts v.severities) a.severities l l' x h.severities;
  urgencies = KnownSlice-IsStable v.urgencies a.urgencies l l' x h.urgencies;
}

-- A packer, what the ledger knows of its results, and the laws of that knowledge.
abbrev pub pack_both : {V A : Type 0} → (V → M A) → V → V → M (A × A)
pack_both pack v w = do a ← pack v; b ← pack w; pure (a, b)

module _ {V A : Type 0} (pack : V → M A) (Known : Ledger → V → A → Type 0) where
  pub pack_identity :
      ((v : V) (a : A) → IsStable (λ l. Known l v a))
      → ((l : Ledger) (v : V) (a b : A) → Known l v a → Known l v b → a ≡ b)
      → ((p : PayloadState) (l : Ledger)
          → Represents p l
          → (v w : V) (a : A) → Known l v a
          → Known l w a
          → v ≡ w)
      → (v w : V) (j k : ℕ) → Does (pack v) j (λ l a. Known l v a)
      → Does (pack w) k (λ l a. Known l w a)
      → (p : PayloadState) (l : Ledger) → Represents p l
      → Room l (j + k)
      → Returns (pack_both pack v w p) λ r. (r.0.0 ≡ r.0.1) ↔ (v ≡ w)
  pack_identity keep one_row one_record v w j k d e p l rep room =
      let both : Does (pack_both pack v w) (j + (k + 0)) (λ l' r. Known l' v r.0 × Known l' w r.1) =
        bind (keep v) d λ a. bind (keep w) e λ b. pure_Does (a, b) λ l' hb ha. (ha, hb) in
      let (r, p', l', run, rep', ext, left, (ha, hb)) =
        both.runs p l 0 rep (Room-le l (j + (k + 0) + 0) (j + k) (omega arith) room) in
      (
        (r, p'),
        run,
        (
          λ same. one_record p' l' rep' v w r.0 ha (subst (λ a. Known l' w a) (sym same) hb),
          λ same. one_row l' w r.0 r.1 (subst (λ u. Known l' u r.0) same ha) hb,
        ),
      )

-- On payload tables that represent a ledger with room for both, packing two package records one
-- after the other returns, and the two rows are equal exactly when the records are equal.
pub pack_package-identity :
    (v w : ReportPackage) (p : PayloadState) (l : Ledger)
    → Represents p l
    → Room l (package_cost v + package_cost w)
    → Returns (pack_both pack_package v w p) λ r. (r.0.0 ≡ r.0.1) ↔ (v ≡ w)
pack_package-identity v w p l rep room =
    pack_identity pack_package KnownPackage KnownPackage-IsStable KnownPackage-functional
      KnownPackage-injective v w _ _ (pack_package_Does v) (pack_package_Does w) p l rep room

-- On payload tables that represent a ledger with room for both, packing two advisory records one
-- after the other returns, and the two rows are equal exactly when the records are equal.
pub pack_advisory-identity :
    (v w : ReportAdvisory) (p : PayloadState) (l : Ledger)
    → Represents p l
    → Room l (advisory_cost v + advisory_cost w)
    → Returns (pack_both pack_advisory v w p) λ r. (r.0.0 ≡ r.0.1) ↔ (v ≡ w)
pack_advisory-identity v w p l rep room =
    pack_identity pack_advisory KnownAdvisory KnownAdvisory-IsStable KnownAdvisory-functional
      KnownAdvisory-injective v w _ _ (pack_advisory_Does v) (pack_advisory_Does w) p l rep room

-- On payload tables that represent a ledger with room for both, packing two vulnerability records
-- one after the other returns, and the two rows are equal exactly when the records are equal.
pub pack_vulnerability-identity :
    (v w : ReportVulnerability) (p : PayloadState) (l : Ledger)
    → Represents p l
    → Room l (vulnerability_cost v + vulnerability_cost w)
    → Returns (pack_both pack_vulnerability v w p) λ r. (r.0.0 ≡ r.0.1) ↔ (v ≡ w)
pack_vulnerability-identity v w p l rep room =
    pack_identity pack_vulnerability KnownVulnerability KnownVulnerability-IsStable
      KnownVulnerability-functional KnownVulnerability-injective v w _ _ (pack_vulnerability_Does v)
      (pack_vulnerability_Does w) p l rep room

-- On payload tables that represent a ledger with room for both, packing two context records one
-- after the other returns, and the two rows are equal exactly when the records are equal.
pub pack_context-identity :
    (v w : ReportContext) (p : PayloadState) (l : Ledger)
    → Represents p l
    → Room l (context_cost v + context_cost w)
    → Returns (pack_both pack_context v w p) λ r. (r.0.0 ≡ r.0.1) ↔ (v ≡ w)
pack_context-identity v w p l rep room =
    pack_identity pack_context KnownContext KnownContext-IsStable KnownContext-functional
      KnownContext-injective v w _ _ (pack_context_Does v) (pack_context_Does w) p l rep room

-- On payload tables that represent a ledger with room for both, packing two assessment records one
-- after the other returns, and the two rows are equal exactly when the records are equal.
pub pack_assessment-identity :
    (v w : ReportAssessment) (p : PayloadState) (l : Ledger)
    → Represents p l
    → Room l (assessment_cost v + assessment_cost w)
    → Returns (pack_both pack_assessment v w p) λ r. (r.0.0 ≡ r.0.1) ↔ (v ≡ w)
pack_assessment-identity v w p l rep room =
    pack_identity pack_assessment KnownAssessment KnownAssessment-IsStable
      KnownAssessment-functional KnownAssessment-injective v w _ _ (pack_assessment_Does v)
      (pack_assessment_Does w) p l rep room

-- On payload tables that represent a ledger with room for both, packing two license records whose
-- statuses are known names one after the other returns, and the two rows are equal exactly when the
-- records are equal.
pub pack_license-identity :
    (v w : ReportLicense) (p : PayloadState) (l : Ledger)
    → Represents p l
    → (i j : ℕ) → status_id v.status ≡ ok i
    → status_id w.status ≡ ok j
    → Room l (license_cost v + license_cost w)
    → Returns (pack_both pack_license v w p) λ r. (r.0.0 ≡ r.0.1) ↔ (v ≡ w)
pack_license-identity v w p l rep i j hv hw room =
    pack_identity pack_license KnownLicense KnownLicense-IsStable KnownLicense-functional
      KnownLicense-injective v w _ _ (pack_license_Does v i hv) (pack_license_Does w j hw) p l rep
      room

-- On payload tables that represent a ledger with room for both, packing two fix records whose
-- statuses are known names one after the other returns, and the two rows are equal exactly when the
-- records are equal.
pub pack_fix-identity :
    (v w : ReportFix) (p : PayloadState) (l : Ledger)
    → Represents p l
    → (i j : ℕ) → status_id v.status ≡ ok i
    → status_id w.status ≡ ok j
    → Room l (fix_cost v + fix_cost w)
    → Returns (pack_both pack_fix v w p) λ r. (r.0.0 ≡ r.0.1) ↔ (v ≡ w)
pack_fix-identity v w p l rep i j hv hw room =
    pack_identity pack_fix KnownFix KnownFix-IsStable KnownFix-functional KnownFix-injective v w _ _
      (pack_fix_Does v i hv) (pack_fix_Does w j hw) p l rep room
