-- ===== src/Tests/Scans.antt =====
-- The theorems on projections and on the merging of images, at a concrete scan.
use osvpy.Prelude.{arith, ◌≡◌, ◌↔◌, refl, true, false, [], ◌∷◌, some, none}
use osvpy.Text.{bytes, has_prefix}
use osvpy.Maps.{nat_comparable, list_comparable, list_eq, lookup}
use osvpy.Run.{ok, Returns}
use osvpy.Sorting.{text_ordered, member}
use osvpy.Sorting.Laws.{SameMembers}
use osvpy.Slabs
use osvpy.Report.{ReportImage, ReportSeverity}
use osvpy.Report.Orders.{
  severity_ordered, severity_comparable, reference_ordered, reference_comparable,
}
use osvpy.Report.Canonical.{
  unique, unique_copy, canonical_severities, canonical_references, unique-SameMembers,
  canonical_severities-members,
}
use osvpy.Upstream.{
  Versions, Affected, Range, range_git, range_semver, Vulnerability, PackageInfo, PackageVulns,
}
use osvpy.Projection.{project_advisory, extension_string, package_fixes, is_about}
use osvpy.Projection.Advisories.{project_advisory-SameMembers}
use osvpy.Projection.Fixes.{package_fixes-git, package_fixes-foreign}
use osvpy.Projection.Verdict.{verdict, package_fixes-status}
use osvpy.Context.{check_context}
use osvpy.Operation.{Request, no_request, no_report}
use osvpy.Image.{Response, project_image, package_record}
use osvpy.Builder.{BatchBuilder, PendingImage, pending_image, merge, add}
use osvpy.Builder.Equivalence.{merge-add}
use osvpy.Builder.Total.{pending_image-Returns}

abbrev pub lib : Versions
lib = record { accepts = λ s v. true; parses = λ v e. true; compare = λ v e f. none }

unique-SameMembers_example :
    (unique (some (bytes "b" ∷ bytes "a" ∷ []))
      ≡ unique (some (bytes "a" ∷ bytes "b" ∷ bytes "a" ∷ [])))
    ↔ SameMembers (bytes "b" ∷ bytes "a" ∷ []) (bytes "a" ∷ bytes "b" ∷ bytes "a" ∷ [])
unique-SameMembers_example =
    unique-SameMembers (some (bytes "b" ∷ bytes "a" ∷ []))
      (some (bytes "a" ∷ bytes "b" ∷ bytes "a" ∷ []))

abbrev cvss : ReportSeverity
cvss = record { type = bytes "CVSS_V3"; source = []; vector = bytes "AV:N" }

abbrev ubuntu : ReportSeverity
ubuntu = record { type = bytes "Ubuntu"; source = []; vector = bytes "low" }

canonical_severities-members_example :
    (canonical_severities (some (cvss ∷ ubuntu ∷ []))
      ≡ canonical_severities (some (ubuntu ∷ cvss ∷ [])))
    ↔ SameMembers (cvss ∷ ubuntu ∷ []) (ubuntu ∷ cvss ∷ [])
canonical_severities-members_example =
    canonical_severities-members (cvss ∷ ubuntu ∷ []) (ubuntu ∷ cvss ∷ [])

abbrev git_range : Range
git_range = record { type = range_git; events = bytes "abc" ∷ [] }

abbrev fixed_range : Range
fixed_range = record { type = range_semver; events = bytes "2" ∷ [] }

abbrev about : Affected
about = record {
  ecosystem = bytes "Go";
  name = bytes "m";
  severity = [];
  ecosystem_specific = [];
  ranges = fixed_range ∷ git_range ∷ [];
}

abbrev foreign : Affected
foreign = record about { name = bytes "n" }

abbrev info : PackageInfo
info = record {
  name = bytes "m";
  version = bytes "1";
  ecosystem = bytes "Go";
  commit = [];
  os_package_name = [];
  inventory = none;
  deprecated = false;
  image_origin = none;
}

abbrev advisory : Vulnerability
advisory = record {
  id = bytes "GO-1";
  aliases = some (bytes "CVE-1" ∷ bytes "CVE-2" ∷ []);
  summary = bytes "s";
  modified = none;
  published = none;
  withdrawn = none;
  severity = [];
  references = [];
  database_specific = [];
  affected = foreign ∷ about ∷ [];
}

abbrev reordered : Vulnerability
reordered = record advisory { aliases = some (bytes "CVE-2" ∷ bytes "CVE-1" ∷ bytes "CVE-1" ∷ []) }

same_aliases :
    SameMembers
      (bytes "CVE-1" ∷ bytes "CVE-2" ∷ [])
      (bytes "CVE-2" ∷ bytes "CVE-1" ∷ bytes "CVE-1" ∷ [])
unfolding member
same_aliases a = ground arith

project_advisory-SameMembers_example : project_advisory advisory ≡ project_advisory reordered
project_advisory-SameMembers_example =
    project_advisory-SameMembers advisory reordered refl refl refl refl refl refl same_aliases
      (λ a. refl) (λ a. refl)

about-is_about : is_about lib info about ≡ true
unfolding is_about list_eq has_prefix
about-is_about = refl

foreign-is_about : is_about lib info foreign ≡ false
unfolding is_about list_eq has_prefix
foreign-is_about = refl

package_fixes-git_example : (package_fixes lib info advisory).status ≡ bytes "unknown"
package_fixes-git_example =
    package_fixes-git lib info (foreign ∷ []) about [] (fixed_range ∷ []) git_range [] advisory refl
      refl about-is_about refl

abbrev other : Vulnerability
other = record advisory { affected = foreign ∷ [] }

package_fixes-foreign_example :
    package_fixes lib info other
    ≡ record { versions = none; status = bytes "unknown"; severities = none; urgencies = none }
package_fixes-foreign_example = package_fixes-foreign lib info other (foreign-is_about, tt)

package_fixes-status_example : (package_fixes lib info advisory).status ≡ verdict lib info advisory
package_fixes-status_example = package_fixes-status lib info advisory

abbrev request : Request
request = record no_request { image = bytes "alpine"; all_packages = true }

abbrev scanned : PackageVulns
scanned = record {
  info = info;
  dep_groups = none;
  vulnerabilities = some (record { address = 1; value = advisory }) ∷ [];
  groups = [];
  licenses = [];
  license_violations = [];
}

abbrev pub response : Response
response = record {
  result = record {
    metadata = none;
    generic_findings = 0;
    results =
        record { path = bytes "/m"; type = bytes "lockfile"; signals = 0; packages = scanned ∷ [] }
        ∷ [];
  };
  error = none;
}

abbrev image : ReportImage
image = record {
  requested = bytes "alpine";
  os = none;
  status = bytes "complete";
  diagnostics = some (
      record {
        code = bytes "missing_assessment";
        message = bytes "Advisory has no upstream group assessment";
      }
      ∷ []);
}

abbrev facts : PendingImage
facts = record {
  image = image;
  occurrences =
      record {
        pkg = package_record info;
        context = record {
          path = bytes "/m";
          source_type = bytes "lockfile";
          layer = none;
          dependency_groups = none;
        };
        license = record {
          licenses = none;
          policy = none;
          violations = none;
          status = bytes "not_evaluated";
        };
        findings =
            record {
              advisory = record {
                address = 1;
                value = record {
                  id = bytes "GO-1";
                  aliases = unique_copy (some (bytes "CVE-1" ∷ bytes "CVE-2" ∷ []));
                  summary = bytes "s";
                  modified = none;
                  published = none;
                  withdrawn = none;
                  severities = none;
                  references = none;
                  database_severity = none;
                };
              };
              fix = package_fixes lib info advisory;
              assessment = record { called = none; unimportant = none; max_severity = [] };
            }
            ∷ [];
      }
      ∷ [];
  aliases = (bytes "GO-1" ∷ bytes "CVE-1" ∷ bytes "CVE-2" ∷ []) ∷ [];
}

projected : (project_image lib request response).1 ≡ ok image
unfolding project_image list_eq lookup project_advisory
projected = refl

pending_image-Returns_example :
    Returns (pending_image lib request response none) λ r. (r.0 ≡ none) × (r.1.image ≡ image)
pending_image-Returns_example = pending_image-Returns lib request response image projected

collected : pending_image lib request response none ≡ ok (none, facts)
unfolding pending_image project_image list_eq lookup project_advisory check_context unique_copy
    unique canonical_severities canonical_references extension_string
collected = refl

-- `newBuilder`, with a context that is never cancelled.
abbrev pub builder : BatchBuilder
builder = record {
  alias = record { ctx = none; alias_id = []; names = []; parent = [] };
  rows = record {
    report = no_report;
    packages = record { ids = [] };
    payload = record { strings = []; lists = []; entries = Slabs.empty; scratch = [] };
    advisory = record { ids = [] };
    image_advisories = [];
    context = record { ids = [] };
    assessment = record { ids = [] };
    license = record { ids = [] };
    fix = record { ids = [] };
  };
}

-- The builder with the image.
abbrev merged : BatchBuilder
merged = elim (merge facts builder) [ ok b ↦ b | _ ↦ builder ]

merge-add_example :
    (merge facts builder ≡ ok merged) ↔ (add lib request response builder ≡ ok merged)
merge-add_example = merge-add lib request response none facts builder merged collected refl
