-- ===== src/Payload/Records.antt =====
-- What it means that the ledger knows a record under a packed row: field by field. A row stands
-- for one record, and a record has one row.
use osvpy.Prelude.{
  ℕ, suc, ◌+◌, ◌≡◌, refl, ap, ◌∙◌, sym, List, [], ◌∷◌, Option, some, none, Bool, arith,
}
use osvpy.Prelude.{get_elem?, Bool-cases, inl, inr}
use osvpy.Maps.{nat_comparable, list_comparable, list_eq, list_eq_iff}
use osvpy.Text.{Text}
use osvpy.Run.{ok}
use osvpy.Report.{Slice, ReportPackage, ReportSeverity, ReportReference, ReportAdvisory}
use osvpy.Report.{ReportVulnerability, ReportContext, ReportAssessment, ReportLicense, ReportFix}
use osvpy.Report.Stored.{Span, StoredPackage, StoredAdvisory, StoredVulnerability, StoredContext}
use osvpy.Report.Stored.{StoredAssessment, StoredLicense, StoredFix}
use osvpy.Payload.{PayloadState, optional_bool}
use osvpy.Payload.Pack.{status_id, status_names, status_from}
use osvpy.Payload.Ledger.{Ledger, Represents}
use osvpy.Payload.Known.{KnownText, KnownOption, KnownSlice, severity_texts, reference_texts, over}
use osvpy.Payload.Known.{KnownText-functional, KnownText-injective, KnownOption-functional}
use osvpy.Payload.Known.{KnownOption-injective, KnownSlice-functional, KnownSlice-injective}
use osvpy.Payload.Known.{severity_texts-injective, reference_texts-injective}

pub record KnownPackage (l : Ledger) (v : ReportPackage) (a : StoredPackage) : Type 0 where
  pub name : KnownText l v.name a.name
  pub version : KnownText l v.version a.version
  pub ecosystem : KnownText l v.ecosystem a.ecosystem
  pub commit : KnownText l v.commit a.commit
  pub os_package_name : KnownText l v.os_package_name a.os_package_name
  pub purl : KnownText l v.purl a.purl

pub record KnownAdvisory (l : Ledger) (v : ReportAdvisory) (a : StoredAdvisory) : Type 0 where
  pub id : KnownText l v.id a.id
  pub aliases : KnownSlice l v.aliases a.aliases
  pub summary : KnownText l v.summary a.summary
  pub modified : KnownOption l v.modified a.modified
  pub published : KnownOption l v.published a.published
  pub withdrawn : KnownOption l v.withdrawn a.withdrawn
  pub severities : KnownSlice l (over severity_texts v.severities) a.severities
  pub references : KnownSlice l (over reference_texts v.references) a.references
  pub database_severity : KnownOption l v.database_severity a.database_severity

pub record KnownVulnerability (l : Ledger) (v : ReportVulnerability) (a : StoredVulnerability)
    : Type 0 where
  pub id : KnownText l v.id a.id
  pub aliases : KnownSlice l v.aliases a.aliases

pub record KnownContext (l : Ledger) (v : ReportContext) (a : StoredContext) : Type 0 where
  pub path : KnownText l v.path a.path
  pub source_type : KnownText l v.source_type a.source_type
  pub layer : KnownOption l v.layer a.layer
  pub dependency_groups : KnownSlice l v.dependency_groups a.dependency_groups

pub record KnownAssessment (l : Ledger) (v : ReportAssessment) (a : StoredAssessment) : Type 0 where
  pub called : optional_bool v.called ≡ a.called
  pub unimportant : optional_bool v.unimportant ≡ a.unimportant
  pub max_severity : KnownText l v.max_severity a.max_severity

pub record KnownLicense (l : Ledger) (v : ReportLicense) (a : StoredLicense) : Type 0 where
  pub licenses : KnownSlice l v.licenses a.licenses
  pub policy : KnownSlice l v.policy a.policy
  pub violations : KnownSlice l v.violations a.violations
  pub status : status_id v.status ≡ ok a.status

pub record KnownFix (l : Ledger) (v : ReportFix) (a : StoredFix) : Type 0 where
  pub versions : KnownSlice l v.versions a.versions
  pub status : status_id v.status ≡ ok a.status
  pub severities : KnownSlice l (over severity_texts v.severities) a.severities
  pub urgencies : KnownSlice l v.urgencies a.urgencies

-- Two slices of severities, or of references, that share a span are one.
module _ (p : PayloadState) (l : Ledger) (rep : Represents p l) where
  severities-injective :
      (v w : Slice ReportSeverity) (s : Span)
      → KnownSlice l (over severity_texts v) s
      → KnownSlice l (over severity_texts w) s
      → v ≡ w
  severities-injective none none s h k = refl
  severities-injective none (some ys) s h k =
      absurd (ground (arith, KnownSlice-injective p l rep none (some (severity_texts ys)) s h k))
  severities-injective (some xs) none s h k =
      absurd (ground (arith, KnownSlice-injective p l rep (some (severity_texts xs)) none s h k))
  severities-injective (some xs) (some ys) s h k = ground (
    arith,
    KnownSlice-injective p l rep (some (severity_texts xs)) (some (severity_texts ys)) s h k,
    severity_texts-injective xs ys,
  )

  references-injective :
      (v w : Slice ReportReference) (s : Span)
      → KnownSlice l (over reference_texts v) s
      → KnownSlice l (over reference_texts w) s
      → v ≡ w
  references-injective none none s h k = refl
  references-injective none (some ys) s h k =
      absurd (ground (arith, KnownSlice-injective p l rep none (some (reference_texts ys)) s h k))
  references-injective (some xs) none s h k =
      absurd (ground (arith, KnownSlice-injective p l rep (some (reference_texts xs)) none s h k))
  references-injective (some xs) (some ys) s h k = ground (
    arith,
    KnownSlice-injective p l rep (some (reference_texts xs)) (some (reference_texts ys)) s h k,
    reference_texts-injective xs ys,
  )

pub optional_bool-injective : (a b : Option Bool) → optional_bool a ≡ optional_bool b → a ≡ b
unfolding optional_bool
optional_bool-injective a b e = ground arith

-- A status number is an index of the list of names, so it has one name.
status_from_sound :
    (i : ℕ) (names : List Text) (s : Text) {k : ℕ}
    → status_from i names s ≡ ok k
    → (j : ℕ) × (k ≡ i + j) × (get_elem? names j ≡ some s)
unfolding status_from
status_from_sound i [] s e = absurd (ground arith)
status_from_sound i (n ∷ ns) s {k} e = elim (Bool-cases (list_eq nat_comparable.eq s n)) [
  | inl h ↦ (0, ground arith, ap some (sym ((list_eq_iff nat_comparable s n).0 h)))
  | inr h ↦
      let (j, same, found) = status_from_sound (suc i) ns s {k = k} (ground arith) in
      (suc j, omega arith, found)
]

pub status_id-get_elem? :
    (s : Text) {k : ℕ} → status_id s ≡ ok k → get_elem? status_names k ≡ some s
unfolding status_id
status_id-get_elem? s {k} e =
    let (j, same, found) = status_from_sound 0 status_names s e in
    let here : k ≡ j = omega arith in rw here found

status_id-injective : (s t : Text) {k : ℕ} → status_id s ≡ ok k → status_id t ≡ ok k → s ≡ t
status_id-injective s t h k = ground (arith, status_id-get_elem? s h, status_id-get_elem? t k)

pub KnownPackage-functional :
    (l : Ledger) (v : ReportPackage) (a b : StoredPackage)
    → KnownPackage l v a
    → KnownPackage l v b
    → a ≡ b
KnownPackage-functional l v a b h k = ground (
  arith,
  KnownText-functional l v.name h.name k.name,
  KnownText-functional l v.version h.version k.version,
  KnownText-functional l v.ecosystem h.ecosystem k.ecosystem,
  KnownText-functional l v.commit h.commit k.commit,
  KnownText-functional l v.os_package_name h.os_package_name k.os_package_name,
  KnownText-functional l v.purl h.purl k.purl,
)

pub KnownAdvisory-functional :
    (l : Ledger) (v : ReportAdvisory) (a b : StoredAdvisory)
    → KnownAdvisory l v a
    → KnownAdvisory l v b
    → a ≡ b
KnownAdvisory-functional l v a b h k = ground (
  arith,
  KnownText-functional l v.id h.id k.id,
  KnownSlice-functional l v.aliases h.aliases k.aliases,
  KnownText-functional l v.summary h.summary k.summary,
  KnownOption-functional l v.modified h.modified k.modified,
  KnownOption-functional l v.published h.published k.published,
  KnownOption-functional l v.withdrawn h.withdrawn k.withdrawn,
  KnownSlice-functional l (over severity_texts v.severities) h.severities k.severities,
  KnownSlice-functional l (over reference_texts v.references) h.references k.references,
  KnownOption-functional l v.database_severity h.database_severity k.database_severity,
)

pub KnownVulnerability-functional :
    (l : Ledger) (v : ReportVulnerability) (a b : StoredVulnerability)
    → KnownVulnerability l v a
    → KnownVulnerability l v b
    → a ≡ b
KnownVulnerability-functional l v a b h k = ground (
  arith,
  KnownText-functional l v.id h.id k.id,
  KnownSlice-functional l v.aliases h.aliases k.aliases,
)

pub KnownContext-functional :
    (l : Ledger) (v : ReportContext) (a b : StoredContext)
    → KnownContext l v a
    → KnownContext l v b
    → a ≡ b
KnownContext-functional l v a b h k = ground (
  arith,
  KnownText-functional l v.path h.path k.path,
  KnownText-functional l v.source_type h.source_type k.source_type,
  KnownOption-functional l v.layer h.layer k.layer,
  KnownSlice-functional l v.dependency_groups h.dependency_groups k.dependency_groups,
)

pub KnownAssessment-functional :
    (l : Ledger) (v : ReportAssessment) (a b : StoredAssessment)
    → KnownAssessment l v a
    → KnownAssessment l v b
    → a ≡ b
KnownAssessment-functional l v a b h k =
    ground (arith, KnownText-functional l v.max_severity h.max_severity k.max_severity)

pub KnownLicense-functional :
    (l : Ledger) (v : ReportLicense) (a b : StoredLicense)
    → KnownLicense l v a
    → KnownLicense l v b
    → a ≡ b
KnownLicense-functional l v a b h k = ground (
  arith,
  KnownSlice-functional l v.licenses h.licenses k.licenses,
  KnownSlice-functional l v.policy h.policy k.policy,
  KnownSlice-functional l v.violations h.violations k.violations,
)

pub KnownFix-functional :
    (l : Ledger) (v : ReportFix) (a b : StoredFix) → KnownFix l v a → KnownFix l v b → a ≡ b
KnownFix-functional l v a b h k = ground (
  arith,
  KnownSlice-functional l v.versions h.versions k.versions,
  KnownSlice-functional l (over severity_texts v.severities) h.severities k.severities,
  KnownSlice-functional l v.urgencies h.urgencies k.urgencies,
)

module _ (p : PayloadState) (l : Ledger) (rep : Represents p l) where
  pub KnownPackage-injective :
      (v w : ReportPackage) (a : StoredPackage) → KnownPackage l v a → KnownPackage l w a → v ≡ w
  KnownPackage-injective v w a h k = ground (
    arith,
    KnownText-injective l v.name w.name h.name k.name,
    KnownText-injective l v.version w.version h.version k.version,
    KnownText-injective l v.ecosystem w.ecosystem h.ecosystem k.ecosystem,
    KnownText-injective l v.commit w.commit h.commit k.commit,
    KnownText-injective l v.os_package_name w.os_package_name h.os_package_name k.os_package_name,
    KnownText-injective l v.purl w.purl h.purl k.purl,
  )

  pub KnownAdvisory-injective :
      (v w : ReportAdvisory) (a : StoredAdvisory)
      → KnownAdvisory l v a
      → KnownAdvisory l w a
      → v ≡ w
  KnownAdvisory-injective v w a h k = ground (
    arith,
    KnownText-injective l v.id w.id h.id k.id,
    KnownSlice-injective p l rep v.aliases w.aliases a.aliases h.aliases k.aliases,
    KnownText-injective l v.summary w.summary h.summary k.summary,
    KnownOption-injective l v.modified w.modified a.modified h.modified k.modified,
    KnownOption-injective l v.published w.published a.published h.published k.published,
    KnownOption-injective l v.withdrawn w.withdrawn a.withdrawn h.withdrawn k.withdrawn,
    severities-injective p l rep v.severities w.severities a.severities h.severities k.severities,
    references-injective p l rep v.references w.references a.references h.references k.references,
    KnownOption-injective l v.database_severity w.database_severity a.database_severity
        h.database_severity k.database_severity,
  )

  pub KnownVulnerability-injective :
      (v w : ReportVulnerability) (a : StoredVulnerability)
      → KnownVulnerability l v a
      → KnownVulnerability l w a
      → v ≡ w
  KnownVulnerability-injective v w a h k = ground (
    arith,
    KnownText-injective l v.id w.id h.id k.id,
    KnownSlice-injective p l rep v.aliases w.aliases a.aliases h.aliases k.aliases,
  )

  pub KnownContext-injective :
      (v w : ReportContext) (a : StoredContext) → KnownContext l v a → KnownContext l w a → v ≡ w
  KnownContext-injective v w a h k = ground (
    arith,
    KnownText-injective l v.path w.path h.path k.path,
    KnownText-injective l v.source_type w.source_type h.source_type k.source_type,
    KnownOption-injective l v.layer w.layer a.layer h.layer k.layer,
    KnownSlice-injective p l rep v.dependency_groups w.dependency_groups a.dependency_groups
        h.dependency_groups k.dependency_groups,
  )

  pub KnownAssessment-injective :
      (v w : ReportAssessment) (a : StoredAssessment)
      → KnownAssessment l v a
      → KnownAssessment l w a
      → v ≡ w
  KnownAssessment-injective v w a h k = ground (
    arith,
    optional_bool-injective v.called w.called (h.called ∙ sym k.called),
    optional_bool-injective v.unimportant w.unimportant (h.unimportant ∙ sym k.unimportant),
    KnownText-injective l v.max_severity w.max_severity h.max_severity k.max_severity,
  )

  pub KnownLicense-injective :
      (v w : ReportLicense) (a : StoredLicense) → KnownLicense l v a → KnownLicense l w a → v ≡ w
  KnownLicense-injective v w a h k = ground (
    arith,
    KnownSlice-injective p l rep v.licenses w.licenses a.licenses h.licenses k.licenses,
    KnownSlice-injective p l rep v.policy w.policy a.policy h.policy k.policy,
    KnownSlice-injective p l rep v.violations w.violations a.violations h.violations k.violations,
    status_id-injective v.status w.status h.status k.status,
  )

  pub KnownFix-injective :
      (v w : ReportFix) (a : StoredFix) → KnownFix l v a → KnownFix l w a → v ≡ w
  KnownFix-injective v w a h k = ground (
    arith,
    KnownSlice-injective p l rep v.versions w.versions a.versions h.versions k.versions,
    status_id-injective v.status w.status h.status k.status,
    severities-injective p l rep v.severities w.severities a.severities h.severities k.severities,
    KnownSlice-injective p l rep v.urgencies w.urgencies a.urgencies h.urgencies k.urgencies,
  )
