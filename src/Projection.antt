-- ===== src/Projection.antt =====
-- go/report.go: advisories and fixes out of what the scanner hands over.
pub mod Fixes
pub mod Verdict
pub mod Advisories
use osvpy.Prelude.{
  ℕ, zero, suc, ◌-◌, Bool, true, false, ◌&&◌, ◌||◌, not, if◌then◌else◌, ltb, List, [], ◌∷◌, ◌++◌,
  length, map, Option, some, none, ℤ, pos, negsuc,
}
use osvpy.Maps.{Map, lookup, list_eq, nat_comparable, list_comparable}
use osvpy.Text.{Text, bytes, has_prefix}
use osvpy.Run.{Run, ok, panic, ◌>>=◌, invalid_timestamp}
use osvpy.Report.{Slice, items, ReportSeverity, ReportReference, ReportAdvisory, ReportFix}
use osvpy.Report.Canonical.{unique, unique_copy, canonical_severities, canonical_references}
use osvpy.Upstream.{
  Timestamp, Value, string_value, other_value, Severity, Reference, RangeType, range_ecosystem,
  range_semver, range_git, range_other, Range, Affected, Vulnerability, PackageInfo, System, pypi,
  npm, cargo, nuget, ruby_gems, composer, go, default_system, Versions,
}

-- `append` to a nil slice: nil stays nil when nothing is added.
unfoldable pub append_slice : {A : Type 0} → Slice A → List A → Slice A
append_slice v [] = v
append_slice none (x ∷ xs) = some (x ∷ xs)
append_slice (some vs) (x ∷ xs) = some (vs ++ x ∷ xs)

unfoldable pub timestamp : Option Timestamp → Run (Option Text)
timestamp none = ok none
timestamp (some t) = if t.is_valid then ok (some t.formatted) else panic invalid_timestamp

unfoldable pub extension_string : Map Text (Option Value) → Text → Option Text
extension_string fields key = elim (lookup key fields) [
  | some (some (string_value s)) ↦ some s
  | _ ↦ none
]

abbrev pub project_severity : Severity → ReportSeverity
project_severity s = record { type = s.type; source = s.source; vector = s.score }

abbrev pub project_reference : Reference → ReportReference
project_reference r = record { type = r.type; url = r.url }

unfoldable pub project_advisory : Vulnerability → Run ReportAdvisory
unfolding timestamp
project_advisory a = do
  modified ← timestamp a.modified
  published ← timestamp a.published
  withdrawn ← timestamp a.withdrawn
  ok (record {
    id = a.id;
    aliases = unique_copy a.aliases;
    summary = a.summary;
    modified = modified;
    published = published;
    withdrawn = withdrawn;
    severities = canonical_severities (append_slice none (map project_severity a.severity));
    references = canonical_references (append_slice none (map project_reference a.references));
    database_severity = extension_string a.database_specific (bytes "severity");
  })

-- `strings.ReplaceAll(s, old, "")` for an `old` that is not empty: `skip` bytes of a match are left.
unfoldable pub remove_all : Text → ℕ → Text → Text
remove_all old skip [] = []
remove_all old (suc skip) (c ∷ s) = remove_all old skip s
remove_all old zero (c ∷ s) = elim (has_prefix (c ∷ s) old) [
  | true ↦ remove_all old (length old - 1) s
  | false ↦ c ∷ remove_all old 0 s
]

unfoldable pub ecosystem : Text → Text
unfolding remove_all
ecosystem s =
    if has_prefix s (bytes "Ubuntu:")
    then remove_all (bytes ":LTS") 0 (remove_all (bytes ":Pro") 0 s)
    else s

-- `strings.SplitN(s, ":", 2)[0]`: the part before the first colon.
unfoldable pub before_colon : Text → Text
before_colon [] = []
before_colon (c ∷ s) =
    let rest = before_colon s in
    if list_eq nat_comparable.eq (c ∷ []) (bytes ":") then [] else c ∷ rest

abbrev pub is_text : Text → Text → Bool
is_text = list_eq nat_comparable.eq

abbrev pub one_of : Text → List Text → Bool
one_of s [] = false
one_of s (t ∷ ts) = is_text s t || one_of s ts

-- The ecosystems with the default version system.
abbrev pub default_ecosystems : List Text
default_ecosystems =
    bytes "Bitnami"
    ∷ bytes "Bioconductor"
    ∷ bytes "ConanCenter"
    ∷ bytes "Docker Hardened Images"
    ∷ bytes "GHC"
    ∷ bytes "Hex"
    ∷ bytes "Julia"
    ∷ bytes "SwiftURL"
    ∷ bytes "Pub"
    ∷ []

module _ (lib : Versions) where
  unfoldable pub version_known : Text → Text → Bool
  unfolding before_colon
  version_known version eco =
      let name = before_colon eco in
      if is_text name (bytes "PyPI")
      then lib.accepts pypi version
      else if is_text name (bytes "npm")
      then lib.accepts npm version
      else if is_text name (bytes "crates.io")
      then lib.accepts cargo version
      else if is_text name (bytes "NuGet")
      then lib.accepts nuget version
      else if is_text name (bytes "RubyGems")
      then lib.accepts ruby_gems version
      else if is_text name (bytes "Packagist")
      then lib.accepts composer version
      else if is_text name (bytes "Go")
      then lib.accepts go (if has_prefix version (bytes "v") then version else bytes "v" ++ version)
      else if one_of name default_ecosystems
      then lib.accepts default_system version
      else not (is_text version [])

-- The variables of a fix while the entries of an advisory are read.
pub record FixState : Type 0 where
  pub versions : Slice Text
  pub severities : Slice ReportSeverity
  pub urgencies : Slice Text
  pub matched : Bool
  pub unknown : Bool

abbrev pub no_fix : FixState
no_fix = record {
  versions = none;
  severities = none;
  urgencies = none;
  matched = false;
  unknown = false;
}

abbrev pub is_versioned : RangeType → Bool
is_versioned range_ecosystem = true
is_versioned range_semver = true
is_versioned other = false

abbrev pub is_git : RangeType → Bool
is_git range_git = true
is_git other = false

-- Is the installed version at the fix or past it?
abbrev pub is_past : ℤ → Bool
is_past (pos n) = true
is_past (negsuc n) = false

module _ (lib : Versions) (pkg : PackageInfo) where
  unfoldable pub is_known : Bool
  unfolding version_known ecosystem
  is_known =
      lib.parses pkg.version (ecosystem pkg.ecosystem)
      && version_known lib pkg.version pkg.ecosystem

  unfoldable pub add_version : Text → FixState → FixState
  unfolding append_slice
  add_version fix st = record st { versions = append_slice st.versions (fix ∷ []) }

  -- The loop over the events of a range.
  unfoldable pub fix_event : Text → FixState → FixState
  unfolding is_known version_known add_version
  fix_event fix st =
      if is_text fix []
      then st
      else if not is_known || not (version_known lib fix pkg.ecosystem)
      then add_version fix (record st { unknown = true })
      else elim (lib.compare pkg.version (ecosystem pkg.ecosystem) fix) [
        | none ↦ add_version fix (record st { unknown = true })
        | some order ↦ if is_past order then st else add_version fix st
      ]

  unfoldable pub fix_events : List Text → FixState → FixState
  unfolding fix_event
  fix_events [] st = st
  fix_events (fix ∷ fixes) st = fix_events fixes (fix_event fix st)

  unfoldable pub fix_range : Range → FixState → FixState
  unfolding fix_events
  fix_range rg st =
      let st' = if is_versioned rg.type then st else record st { unknown = true } in
      if is_git rg.type then record st' { unknown = true } else fix_events rg.events st'

  unfoldable pub fix_ranges : List Range → FixState → FixState
  unfolding fix_range
  fix_ranges [] st = st
  fix_ranges (rg ∷ rgs) st = fix_ranges rgs (fix_range rg st)

  -- Is the entry about this package?
  unfoldable pub is_about : Affected → Bool
  unfolding ecosystem
  is_about a = not (
      not (is_text (ecosystem a.ecosystem) (ecosystem pkg.ecosystem))
      || (not (is_text a.name pkg.name)
          && (is_text pkg.os_package_name [] || not (is_text a.name pkg.os_package_name))))

  unfoldable pub fix_affected : Affected → FixState → FixState
  unfolding is_about fix_ranges append_slice extension_string
  fix_affected a st =
      let urgency : List Text = elim (extension_string a.ecosystem_specific (bytes "urgency")) [
        | some s ↦ s ∷ []
        | none ↦ []
      ] in
      let st' : FixState = record st {
        matched = true;
        severities = append_slice st.severities (map project_severity a.severity);
        urgencies = append_slice st.urgencies urgency;
      } in
      if is_about a then fix_ranges a.ranges st' else st

  unfoldable pub fix_all : List Affected → FixState → FixState
  unfolding fix_affected
  fix_all [] st = st
  fix_all (a ∷ rest) st = fix_all rest (fix_affected a st)

  -- The canonical lists and the status.
  unfoldable pub fix_result : FixState → ReportFix
  fix_result st =
      let versions = unique st.versions in
      let status =
        if ltb 0 (length (items versions)) then bytes "reported" else bytes "no_reported_fix" in
      record {
        versions = versions;
        status = if not st.matched || st.unknown then bytes "unknown" else status;
        severities = canonical_severities st.severities;
        urgencies = unique st.urgencies;
      }

  unfoldable pub package_fixes : Vulnerability → ReportFix
  unfolding fix_all fix_result
  package_fixes a = fix_result (fix_all a.affected no_fix)
