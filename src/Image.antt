-- ===== src/Image.antt =====
-- `projectImage` (go/store.go).
pub mod Order
use osvpy.Prelude.{
  ℕ, zero, suc, ◌+◌, Bool, true, false, ◌&&◌, ◌||◌, not, if◌then◌else◌, ltb, List, [], ◌∷◌, ◌++◌,
  length, Option, some, none, ℤ, pos, negsuc, get_elem?,
}
use osvpy.Text.{Text, bytes}
use osvpy.Maps.{Map, lookup, insert, list_eq, nat_comparable, list_comparable}
use osvpy.Run
use osvpy.Run.{Run, ok, panic, hang, index}
use osvpy.Report.{
  Slice, items, ReportPackage, ReportContext, ReportLicense, ReportFix, ReportAssessment,
  ReportImage, NativeError,
}
use osvpy.Report.Canonical.{unique, unique_copy}
use osvpy.Upstream.{
  PackageInfo, Inventory, PackageVulns, PackageSource, GroupInfo, ImageMetadata,
  VulnerabilityResults, VulnerabilityPointer, Vulnerability, Versions,
}
use osvpy.Projection.{append_slice, project_advisory, package_fixes}
use osvpy.Operation.{Request}
use osvpy.Sink.{
  Call, poll, occurrence, finding, union, ProjectState, AdvisoryPointer, Project, pure, lift, ◌>>=◌,
  ◌>>◌, emit, diagnostic,
}

-- go/bridge.go
pub record Response : Type 0 where
  pub result : VulnerabilityResults
  pub error : Option NativeError

abbrev when : Bool → Project (Unit {0}) → Project (Unit {0})
when b m = if b then m else pure tt

abbrev is_empty : Text → Bool
is_empty = list_eq nat_comparable.eq []

abbrev is_none : {A : Type 0} → Option A → Bool
is_none none = true
is_none (some a) = false

abbrev signals : Option Inventory → ℕ
signals none = 0
signals (some i) = i.signals

-- The package and, as far as the package tells it, the context.
unfoldable pub package_record : PackageInfo → ReportPackage
package_record p = record {
  name = p.name;
  version = p.version;
  ecosystem = p.ecosystem;
  commit = p.commit;
  os_package_name = p.os_package_name;
  purl = elim p.inventory [ none ↦ [] | some i ↦ elim i.purl [ none ↦ [] | some u ↦ u ] ];
}

unfoldable pub context_path : PackageSource → PackageInfo → Text
context_path source p = elim p.inventory [
  | none ↦ source.path
  | some i ↦ if is_empty i.location then source.path else i.location
]

-- The identifier of the layer with that index.
unfoldable pub layer_at : ℤ → List Text → Option Text
layer_at (pos i) layers = get_elem? layers i
layer_at (negsuc i) layers = none

unfoldable pub project_layer : PackageInfo → Option ImageMetadata → Project (Option Text)
unfolding layer_at diagnostic ◌>>=◌
project_layer p metadata = elim p.image_origin [
  | none ↦ pure none
  | some li ↦ elim metadata [
    | none ↦ pure none
    | some m ↦ elim (layer_at li m.layers) [
      | some s ↦ pure (some s)
      | none ↦ (do
        diagnostic (bytes "unknown_layer") (bytes "Package layer index is unavailable")
        pure none)
    ]
  ]
]

unfoldable pub project_license : Request → PackageVulns → Project ReportLicense
unfolding append_slice diagnostic ◌>>=◌
project_license req pkg =
    let lic : ReportLicense = record {
      licenses = unique (append_slice none pkg.licenses);
      policy = req.allowed_licenses;
      violations = unique (append_slice none pkg.license_violations);
      status = bytes "not_evaluated";
    } in
    if is_none req.allowed_licenses
    then pure lic
    else if not (ltb 0 (length (items lic.licenses)))
    then (do
      diagnostic (bytes "unknown_license") (bytes "License assessment is incomplete")
      pure (record lic { status = bytes "unknown" }))
    else if ltb 0 (length (items lic.violations))
    then pure (record lic { status = bytes "noncompliant" })
    else pure (record lic { status = bytes "compliant" })

unfoldable pub emit_groups : List GroupInfo → Project (Unit {0})
unfolding ◌>>=◌
emit_groups [] = pure tt
emit_groups (g ∷ gs) = emit (union (items g.ids ++ items g.aliases)) >> emit_groups gs

-- The loops that fill `groupsByID`.
unfoldable pub index_ids : ℕ → List Text → Map Text (List ℕ) → Map Text (List ℕ)
index_ids i [] m = m
index_ids i (id ∷ ids) m =
    index_ids i ids (insert id (elim (lookup id m) [ none ↦ i ∷ [] | some l ↦ l ++ i ∷ [] ]) m)

unfoldable pub index_groups : ℕ → List GroupInfo → Map Text (List ℕ) → Map Text (List ℕ)
unfolding index_ids
index_groups i [] m = m
index_groups i (g ∷ gs) m = index_groups (i + 1) gs (index_ids i (items g.ids) m)

unfoldable pub assess : GroupInfo → Text → ReportAssessment
assess g id =
    let plain : ReportAssessment = record {
      called = none;
      unimportant = none;
      max_severity = g.max_severity;
    } in
    elim (lookup id g.analysis) [
      | none ↦ plain
      | some v ↦ record plain { called = some v.called; unimportant = some v.unimportant }
    ]

-- The findings of the groups with the given positions.
unfoldable pub emit_findings :
    List GroupInfo → Text → AdvisoryPointer → ReportFix → List ℕ → Project (Unit {0})
unfolding assess ◌>>=◌
emit_findings groups id a fix [] = pure tt
emit_findings groups id a fix (gi ∷ gis) = do
  g ← lift (index groups gi)
  emit (finding a fix (assess g id))
  emit_findings groups id a fix gis

-- The advisory at the address, projected once for an image.
unfoldable pub memoized : VulnerabilityPointer → Project AdvisoryPointer
unfolding ◌>>=◌
memoized p s = elim (lookup p.address s.local) [
  | some a ↦ pure (record { address = p.address; value = a }) s
  | none ↦
      (lift (project_advisory p.value) >>= λ value t. (
        [],
        ok (
          record { address = p.address; value = value },
          record t { local = insert p.address value t.local },
        ),
      ))
        s
]

abbrev plain_assessment : ReportAssessment
plain_assessment = record { called = none; unimportant = none; max_severity = [] }

module _ (lib : Versions) (req : Request) where
  unfoldable pub project_vulnerability :
      PackageVulns → Map Text (List ℕ) → VulnerabilityPointer → Project (Unit {0})
  unfolding memoized emit_findings diagnostic ◌>>=◌
  project_vulnerability pkg by_id p = do
    a ← memoized p
    emit (union (p.value.id ∷ items p.value.aliases))
    let fix = package_fixes lib pkg.info p.value
    elim (lookup p.value.id by_id) [
      | some gis ↦ emit_findings pkg.groups p.value.id a fix gis
      | none ↦ (do
        diagnostic (bytes "missing_assessment") (bytes "Advisory has no upstream group assessment")
        emit (finding a fix plain_assessment))
    ]

  unfoldable pub project_vulnerabilities :
      PackageVulns → Map Text (List ℕ) → List (Option VulnerabilityPointer) → Project (Unit {0})
  unfolding project_vulnerability
  project_vulnerabilities pkg by_id [] = pure tt
  project_vulnerabilities pkg by_id (v ∷ vs) = do
    emit poll
    let missing =
        diagnostic (bytes "unsupported_advisory") (bytes "Advisory has no source identifier")
    elim v [
      | none ↦ missing
      | some p ↦ if is_empty p.value.id then missing else project_vulnerability pkg by_id p
    ]
    project_vulnerabilities pkg by_id vs

  -- The test of the `continue` in the loop over packages.
  unfoldable pub is_skipped : PackageVulns → Bool
  is_skipped pkg =
      not req.all_packages
      && (not (ltb 0 (length pkg.vulnerabilities))
          && (not (ltb 0 (length pkg.license_violations))
              && not (not (is_none req.allowed_licenses) && not (ltb 0 (length pkg.licenses)))))

  abbrev assessment_gap : Project (Unit {0})
  assessment_gap =
      diagnostic (bytes "unsupported_assessment")
        (bytes "Package exploitability signals are not represented")

  unfoldable pub project_package :
      Option ImageMetadata → PackageSource → PackageVulns → Project (Unit {0})
  unfolding project_layer project_license emit_groups index_groups project_vulnerabilities
      context_path package_record diagnostic ◌>>=◌
  project_package metadata source pkg = do
    when (ltb 0 (signals pkg.info.inventory)) assessment_gap
    layer ← project_layer pkg.info metadata
    license ← project_license req pkg
    let context : ReportContext = record {
      path = context_path source pkg.info;
      source_type = source.type;
      layer = layer;
      dependency_groups = unique_copy pkg.dep_groups;
    }
    emit (occurrence (package_record pkg.info) context license)
    emit_groups pkg.groups
    project_vulnerabilities pkg (index_groups 0 pkg.groups []) pkg.vulnerabilities

  unfoldable pub project_packages :
      Option ImageMetadata → PackageSource → List PackageVulns → Project (Unit {0})
  unfolding project_package is_skipped
  project_packages metadata source [] = pure tt
  project_packages metadata source (pkg ∷ pkgs) = do
    emit poll
    when pkg.info.deprecated (
        diagnostic (bytes "unsupported_deprecation")
          (bytes "Package deprecation is outside vulnerability/license reporting"))
    if is_skipped pkg then pure tt else project_package metadata source pkg
    project_packages metadata source pkgs

  unfoldable pub project_sources : Option ImageMetadata → List PackageSource → Project (Unit {0})
  unfolding project_packages
  project_sources metadata [] = pure tt
  project_sources metadata (source ∷ sources) = do
    when (ltb 0 source.signals) assessment_gap
    project_packages metadata source source.packages
    project_sources metadata sources

  unfoldable pub project_results : VulnerabilityResults → Project (Unit {0})
  unfolding project_sources
  project_results result = do
    when (ltb 0 result.generic_findings) (
        diagnostic (bytes "unsupported_findings")
          (bytes "Generic upstream findings are not represented"))
    project_sources result.metadata result.results

  -- The calls on the sink, and the image.
  unfoldable pub project_image : Response → List Call × Run ReportImage
  unfolding project_results
  project_image resp =
      let failed : NativeError → ReportImage = λ e. record {
        requested = req.image;
        os = none;
        status = bytes "failed";
        diagnostics = some (e ∷ []);
      } in
      let start : ReportImage = record {
        requested = req.image;
        os = elim resp.result.metadata [ none ↦ none | some m ↦ some m.os ];
        status = bytes "complete";
        diagnostics = none;
      } in
      elim resp.error [
        | some e ↦ ([], ok (failed e))
        | none ↦
            let r = project_results resp.result (record { image = start; local = [] }) in
            (r.0, Run.◌>>=◌ r.1 λ s. ok s.1.image)
      ]
