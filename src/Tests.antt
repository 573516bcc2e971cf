-- ===== src/Tests.antt =====
-- The theorems at concrete tables and records.
mod Tables
mod Indexes
mod Scans
mod Groups
mod Coordination
mod Calls
use osvpy.Prelude.{
  ℕ, zero, suc, ◌+◌, ◌<◌, ◌≡◌, ◌≢◌, ◌↔◌, refl, ap, sym, ◌∙◌, List, [], ◌∷◌, ◌++◌, length, Option,
  some, none, Bool, true, false,
}
use osvpy.Prelude.{arith, pos, negsuc, get_elem?, set, take, replicate, inl, inr}
use osvpy.Run.{
  Run, ok, panic, ◌>>=◌, Returns, max_uint32, invalid_index, invalid_length, report_overflow,
}
use osvpy.Text.{Text, bytes}
use osvpy.Maps.{list_eq, lookup, nat_comparable, list_comparable}
use osvpy.Slabs.{Slabs, uint32_zero}
use osvpy.Slabs
use osvpy.Slabs.Rows.{Models}
use osvpy.Slabs.Laws.{empty-Models, append-snoc, at_lem, write-set}
use osvpy.Slabs.Resize.{truncate-take, resize-take}
use osvpy.Table.{Table, intern}
use osvpy.Table.Laws.{
  Interned, empty-Interned, intern_row, intern-refines, intern_row-Interns, Interns, index_from,
}
use osvpy.Report.{
  ReportPackage, ReportSeverity, ReportReference, ReportAdvisory, ReportVulnerability,
}
use osvpy.Report.{ReportContext, ReportAssessment, ReportLicense, ReportFix}
use osvpy.Report.Stored.{Span, ListEntry, entry_zero}
use osvpy.Payload.{chain_head, PayloadState, string_id, string_zero}
use osvpy.Payload.Pack.{
  pack_package, pack_advisory, pack_vulnerability, pack_context, pack_assessment,
}
use osvpy.Payload.Pack.{pack_license, pack_fix, status_id}
use osvpy.Payload.Unpack.{
  package_of, advisory_of, vulnerability_of, context_of, assessment_of, license_of, fix_of,
}
use osvpy.Payload.Words.{find_words, intern_words}
use osvpy.Payload.Ledger.{Ledger, Represents, Room, Chain, end, link}
use osvpy.Payload.Packs.{
  advisory_cost, license_cost, fix_cost, context_cost, package_cost, vulnerability_cost,
  assessment_cost,
}
use osvpy.Payload.Identity.{pack_both}
use osvpy.Payload.Identity
use osvpy.Payload.RoundTrip
use osvpy.Payload.Collisions
use osvpy.Payload.Chain.{find_words_lem}

-- A new builder's tables.
abbrev no_payload : PayloadState
no_payload = record {
  strings = Slabs.empty;
  words = Slabs.empty;
  payload = record { strings = []; lists = []; entries = Slabs.empty; scratch = [] };
}

abbrev no_ledger : Ledger
no_ledger = record { strs = []; words = []; entries = []; chain = λ h. [] }

no_payload-Represents : Represents no_payload no_ledger
unfolding lookup index_from chain_head
no_payload-Represents = record {
  strings = empty-Models;
  words = empty-Models;
  entries = empty-Models;
  ids = λ s. refl;
  distinct = λ i v e. absurd (ground arith);
  chains = λ h. end;
}

room : (k : ℕ) → k < max_uint32 → Room no_ledger k
room k h = record { strings = omega arith; words = omega arith; entries = omega arith }

abbrev high : ReportSeverity
high = record { type = bytes "CVSS_V3"; source = []; vector = bytes "AV:N" }

abbrev link_to : ReportReference
link_to = record { type = bytes "WEB"; url = bytes "u" }

abbrev advisory : ReportAdvisory
advisory = record {
  id = bytes "A";
  aliases = some (bytes "CVE-1" ∷ []);
  summary = bytes "s";
  modified = some (bytes "m");
  published = none;
  withdrawn = some [];
  severities = some (high ∷ []);
  references = some (link_to ∷ link_to ∷ []);
  database_severity = none;
}

abbrev later_advisory : ReportAdvisory
later_advisory = record advisory {
  aliases = some [];
  published = some (bytes "m");
  severities = none;
}

abbrev context : ReportContext
context = record {
  path = bytes "p";
  source_type = bytes "s";
  layer = some (bytes "p");
  dependency_groups = some (bytes "s" ∷ bytes "d" ∷ []);
}

abbrev later_context : ReportContext
later_context = record context { layer = none; dependency_groups = none }

abbrev license : ReportLicense
license = record {
  licenses = some (bytes "MIT" ∷ bytes "GPL" ∷ []);
  policy = none;
  violations = some [];
  status = bytes "compliant";
}

abbrev later_license : ReportLicense
later_license = record license {
  policy = some [];
  violations = some (bytes "GPL" ∷ []);
  status = bytes "noncompliant";
}

abbrev fix : ReportFix
fix = record {
  versions = some (bytes "1" ∷ bytes "2" ∷ []);
  status = bytes "reported";
  severities = some (high ∷ high ∷ []);
  urgencies = none;
}

abbrev later_fix : ReportFix
later_fix = record fix { versions = some []; urgencies = some (bytes "2" ∷ []) }

license-status : status_id license.status ≡ ok 1
unfolding status_id list_eq
license-status = refl

later_license-status : status_id later_license.status ≡ ok 3
unfolding status_id list_eq
later_license-status = refl

fix-status : status_id fix.status ≡ ok 5
unfolding status_id list_eq
fix-status = refl

pack_advisory-round_trip_example :
    Returns (pack_both pack_advisory advisory later_advisory no_payload) λ r.
      (advisory_of r.1.strings r.1.words r.0.0 ≡ ok advisory)
      × (advisory_of r.1.strings r.1.words r.0.1 ≡ ok later_advisory)
pack_advisory-round_trip_example =
    RoundTrip.pack_advisory-round_trip advisory later_advisory no_payload no_ledger
      no_payload-Represents
      (room (advisory_cost advisory + advisory_cost later_advisory) (omega arith))

pack_context-round_trip_example :
    Returns (pack_both pack_context context later_context no_payload) λ r.
      (context_of r.1.strings r.1.words r.0.0 ≡ ok context)
      × (context_of r.1.strings r.1.words r.0.1 ≡ ok later_context)
pack_context-round_trip_example =
    RoundTrip.pack_context-round_trip context later_context no_payload no_ledger
      no_payload-Represents (room (context_cost context + context_cost later_context) (omega arith))

pack_license-round_trip_example :
    Returns (pack_both pack_license license later_license no_payload) λ r.
      (license_of r.1.strings r.1.words r.0.0 ≡ ok license)
      × (license_of r.1.strings r.1.words r.0.1 ≡ ok later_license)
pack_license-round_trip_example =
    RoundTrip.pack_license-round_trip license later_license no_payload no_ledger
      no_payload-Represents 1 3 license-status later_license-status
      (room (license_cost license + license_cost later_license) (omega arith))

pack_fix-round_trip_example : Returns (pack_both pack_fix fix later_fix no_payload) λ r.
    (fix_of r.1.strings r.1.words r.0.0 ≡ ok fix)
    × (fix_of r.1.strings r.1.words r.0.1 ≡ ok later_fix)
pack_fix-round_trip_example =
    RoundTrip.pack_fix-round_trip fix later_fix no_payload no_ledger no_payload-Represents 5 5
      fix-status fix-status (room (fix_cost fix + fix_cost later_fix) (omega arith))

pack_advisory-identity_example :
    Returns
      (pack_both pack_advisory advisory later_advisory no_payload)
      λ r. (r.0.0 ≡ r.0.1) ↔ (advisory ≡ later_advisory)
pack_advisory-identity_example =
    Identity.pack_advisory-identity advisory later_advisory no_payload no_ledger
      no_payload-Represents
      (room (advisory_cost advisory + advisory_cost later_advisory) (omega arith))

pack_context-identity_example :
    Returns
      (pack_both pack_context context later_context no_payload)
      λ r. (r.0.0 ≡ r.0.1) ↔ (context ≡ later_context)
pack_context-identity_example =
    Identity.pack_context-identity context later_context no_payload no_ledger no_payload-Represents
      (room (context_cost context + context_cost later_context) (omega arith))

pack_license-identity_example :
    Returns
      (pack_both pack_license license later_license no_payload)
      λ r. (r.0.0 ≡ r.0.1) ↔ (license ≡ later_license)
pack_license-identity_example =
    Identity.pack_license-identity license later_license no_payload no_ledger no_payload-Represents
      1 3 license-status later_license-status
      (room (license_cost license + license_cost later_license) (omega arith))

pack_fix-identity_example :
    Returns (pack_both pack_fix fix later_fix no_payload) λ r. (r.0.0 ≡ r.0.1) ↔ (fix ≡ later_fix)
pack_fix-identity_example =
    Identity.pack_fix-identity fix later_fix no_payload no_ledger no_payload-Represents 5 5
      fix-status fix-status (room (fix_cost fix + fix_cost later_fix) (omega arith))

string_id-identity_example :
    Returns
      (pack_both string_id (bytes "a") (bytes "b") no_payload)
      λ r. (r.0.0 ≡ r.0.1) ↔ (bytes "a" ≡ bytes "b")
string_id-identity_example =
    Collisions.string_id-identity (bytes "a") (bytes "b") no_payload no_ledger no_payload-Represents
      (room 2 (omega arith))

-- Two lists that share a fingerprint.
abbrev ones : List ℕ
ones = 1 ∷ 2 ∷ []

abbrev others : List ℕ
others = 1 ∷ 3 ∷ []

intern_words-identity_example :
    Returns
      (pack_both (λ us. intern_words us 5) ones others no_payload)
      λ r. (r.0.0 ≡ r.0.1) ↔ (ones ≡ others)
intern_words-identity_example =
    Collisions.intern_words-identity 5 ones others no_payload no_ledger no_payload-Represents
      (room 6 (omega arith))
