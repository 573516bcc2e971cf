-- ===== src/Payload/Packs.antt =====
-- The `pack` methods (go/payload.go) on the ledger.
use osvpy.Prelude.{ℕ, ◌+◌, ◌≡◌, refl, arith}
use osvpy.Run.{ok}
use osvpy.Report.{ReportPackage, ReportAdvisory, ReportVulnerability, ReportContext}
use osvpy.Report.{ReportAssessment, ReportLicense, ReportFix}
use osvpy.Payload.Pack.{pack_package, pack_advisory, pack_vulnerability, pack_context}
use osvpy.Payload.Pack.{pack_assessment, pack_license, pack_fix, status_id}
use osvpy.Payload.Ledger.{Does}
use osvpy.Payload.Rules.{pure_Does, lift_Does, weaken, bind}
use osvpy.Payload.Intern.{string_id_Does}
use osvpy.Payload.Lists.{slice_cost, optional_string_Does, pack_strings_Does, pack_severities_Does}
use osvpy.Payload.Lists.{pack_references_Does}
use osvpy.Payload.Known.{severity_texts, reference_texts, over, KnownText-IsStable}
use osvpy.Payload.Known.{KnownOption-IsStable, KnownSlice-IsStable}
use osvpy.Payload.Records.{KnownPackage, KnownAdvisory, KnownVulnerability, KnownContext}
use osvpy.Payload.Records.{KnownAssessment, KnownLicense, KnownFix}

-- How much room each record takes at most.
abbrev pub package_cost : ReportPackage → ℕ
package_cost v = 6

abbrev pub advisory_cost : ReportAdvisory → ℕ
advisory_cost v =
    6
    + slice_cost v.aliases
    + slice_cost (over severity_texts v.severities)
    + slice_cost (over reference_texts v.references)

abbrev pub vulnerability_cost : ReportVulnerability → ℕ
vulnerability_cost v = 1 + slice_cost v.aliases

abbrev pub context_cost : ReportContext → ℕ
context_cost v = 3 + slice_cost v.dependency_groups

abbrev pub assessment_cost : ReportAssessment → ℕ
assessment_cost v = 1

abbrev pub license_cost : ReportLicense → ℕ
license_cost v = slice_cost v.licenses + slice_cost v.policy + slice_cost v.violations

abbrev pub fix_cost : ReportFix → ℕ
fix_cost v =
    slice_cost v.versions + slice_cost (over severity_texts v.severities) + slice_cost v.urgencies

pub pack_package_Does :
    (v : ReportPackage) → Does (pack_package v) (package_cost v) (λ l a. KnownPackage l v a)
unfolding pack_package
pack_package_Does v =
    weaken (package_cost v) (omega arith) (λ l a h. h)
      (bind (KnownText-IsStable v.name) (string_id_Does v.name) λ name.
        bind (KnownText-IsStable v.version) (string_id_Does v.version) λ version.
          bind (KnownText-IsStable v.ecosystem) (string_id_Does v.ecosystem) λ ecosystem.
            bind (KnownText-IsStable v.commit) (string_id_Does v.commit) λ commit.
              bind (KnownText-IsStable v.os_package_name) (string_id_Does v.os_package_name)
                λ os_package_name. bind (KnownText-IsStable v.purl) (string_id_Does v.purl) λ purl.
                  pure_Does _ λ l h_purl h_os_package_name h_commit h_ecosystem h_version h_name.
                    record {
                      name = h_name;
                      version = h_version;
                      ecosystem = h_ecosystem;
                      commit = h_commit;
                      os_package_name = h_os_package_name;
                      purl = h_purl;
                    })

pub pack_advisory_Does :
    (v : ReportAdvisory) → Does (pack_advisory v) (advisory_cost v) (λ l a. KnownAdvisory l v a)
unfolding pack_advisory
pack_advisory_Does v =
    weaken (advisory_cost v) (omega arith) (λ l a h. h)
      (bind (KnownText-IsStable v.id) (string_id_Does v.id) λ id.
        bind (KnownSlice-IsStable v.aliases) (pack_strings_Does v.aliases) λ aliases.
          bind (KnownText-IsStable v.summary) (string_id_Does v.summary) λ summary.
            bind (KnownOption-IsStable v.modified) (optional_string_Does v.modified) λ modified.
              bind (KnownOption-IsStable v.published) (optional_string_Does v.published)
                λ published.
                  bind (KnownOption-IsStable v.withdrawn) (optional_string_Does v.withdrawn)
                    λ withdrawn.
                      bind (KnownSlice-IsStable (over severity_texts v.severities))
                        (pack_severities_Does v.severities)
                        λ severities.
                          bind (KnownSlice-IsStable (over reference_texts v.references))
                            (pack_references_Does v.references)
                            λ references.
                              bind (KnownOption-IsStable v.database_severity)
                                (optional_string_Does v.database_severity)
                                λ database_severity.
                                  pure_Does _
                                    λ l h_database_severity h_references h_severities h_withdrawn
                                        h_published h_modified h_summary h_aliases h_id.
                                      record {
                                        id = h_id;
                                        aliases = h_aliases;
                                        summary = h_summary;
                                        modified = h_modified;
                                        published = h_published;
                                        withdrawn = h_withdrawn;
                                        severities = h_severities;
                                        references = h_references;
                                        database_severity = h_database_severity;
                                      })

pub pack_vulnerability_Does :
    (v : ReportVulnerability)
    → Does (pack_vulnerability v) (vulnerability_cost v) (λ l a. KnownVulnerability l v a)
unfolding pack_vulnerability
pack_vulnerability_Does v =
    weaken (vulnerability_cost v) (omega arith) (λ l a h. h)
      (bind (KnownText-IsStable v.id) (string_id_Does v.id) λ id.
        bind (KnownSlice-IsStable v.aliases) (pack_strings_Does v.aliases)
          λ aliases. pure_Does _ λ l h_aliases h_id. record { id = h_id; aliases = h_aliases })

pub pack_context_Does :
    (v : ReportContext) → Does (pack_context v) (context_cost v) (λ l a. KnownContext l v a)
unfolding pack_context
pack_context_Does v =
    weaken (context_cost v) (omega arith) (λ l a h. h)
      (bind (KnownText-IsStable v.path) (string_id_Does v.path) λ path.
        bind (KnownText-IsStable v.source_type) (string_id_Does v.source_type) λ source_type.
          bind (KnownOption-IsStable v.layer) (optional_string_Does v.layer) λ layer.
            bind (KnownSlice-IsStable v.dependency_groups) (pack_strings_Does v.dependency_groups)
              λ dependency_groups. pure_Does _ λ l h_dependency_groups h_layer h_source_type h_path.
                record {
                  path = h_path;
                  source_type = h_source_type;
                  layer = h_layer;
                  dependency_groups = h_dependency_groups;
                })

pub pack_assessment_Does :
    (v : ReportAssessment)
    → Does (pack_assessment v) (assessment_cost v) (λ l a. KnownAssessment l v a)
unfolding pack_assessment
pack_assessment_Does v =
    weaken (assessment_cost v) (omega arith) (λ l a h. h)
      (bind (KnownText-IsStable v.max_severity) (string_id_Does v.max_severity) λ max_severity.
        pure_Does _ λ l h_max_severity. record {
          called = refl;
          unimportant = refl;
          max_severity = h_max_severity;
        })

pub pack_license_Does :
    (v : ReportLicense)
    → (k : ℕ) → status_id v.status ≡ ok k
    → Does (pack_license v) (license_cost v) (λ l a. KnownLicense l v a)
unfolding pack_license
pack_license_Does v k known =
    weaken (license_cost v) (omega arith) (λ l a h. h)
      (bind (KnownSlice-IsStable v.licenses) (pack_strings_Does v.licenses) λ licenses.
        bind (KnownSlice-IsStable v.policy) (pack_strings_Does v.policy) λ policy.
          bind (KnownSlice-IsStable v.violations) (pack_strings_Does v.violations) λ violations.
            bind (λ j l l' x h. h)
              (lift_Does {Q = λ l j. status_id v.status ≡ ok j} k known (λ l. known))
              λ status. pure_Does _ λ l h_status h_violations h_policy h_licenses. record {
                licenses = h_licenses;
                policy = h_policy;
                violations = h_violations;
                status = h_status;
              })

pub pack_fix_Does :
    (v : ReportFix)
    → (k : ℕ) → status_id v.status ≡ ok k
    → Does (pack_fix v) (fix_cost v) (λ l a. KnownFix l v a)
unfolding pack_fix
pack_fix_Does v k known =
    weaken (fix_cost v) (omega arith) (λ l a h. h)
      (bind (KnownSlice-IsStable v.versions) (pack_strings_Does v.versions) λ versions.
        bind (λ j l l' x h. h)
          (lift_Does {Q = λ l j. status_id v.status ≡ ok j} k known (λ l. known))
          λ status.
            bind (KnownSlice-IsStable (over severity_texts v.severities))
              (pack_severities_Does v.severities)
              λ severities.
                bind (KnownSlice-IsStable v.urgencies) (pack_strings_Does v.urgencies) λ urgencies.
                  pure_Does _ λ l h_urgencies h_severities h_status h_versions. record {
                    versions = h_versions;
                    status = h_status;
                    severities = h_severities;
                    urgencies = h_urgencies;
                  })
