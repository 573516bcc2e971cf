-- ===== src/Index/Plan.antt =====
-- `indexBuildOrder` (go/indexes.go): the indexes and the order in which they are built.
--
-- A `uint64` is a natural number, whose sums, products and differences wrap.
use osvpy.Prelude.{
  ℕ, zero, suc, ◌+◌, ◌-◌, ◌*◌, ◌/◌, ◌%◌, ◌^◌, List, [], ◌∷◌, Bool, true, false, ◌||◌, ◌&&◌, ◌==◌,
  ltb, if◌then◌else◌, pos, min,
}
use osvpy.Text.{Text, bytes}
use osvpy.Run.{Run, ok, panic, ◌>>=◌, max_uint32, report_overflow}
use osvpy.Context.{Context, check_context}
use osvpy.Sorting.{sort_by}
use osvpy.Slabs
use osvpy.Store.{ReportStore}
use osvpy.Payload.Pack.{status_id}
use osvpy.Index.Make.{poll_at}
use osvpy.Index.Visits.{is_name, named}

pub record IndexDefinition : Type 0 where
  pub name : Text
  pub size : ℕ
  pub contiguous : Bool

pub record IndexBuild : Type 0 where
  pub definition : IndexDefinition
  pub slot : ℕ
  pub raw : ℕ
  pub retained : ℕ
  pub temporary : ℕ

unfoldable pub index_member_bytes : ℕ → ℕ
index_member_bytes n = ((n + 1024 - 1) % 2 ^ 64 / 1024 * 1024 * 4) % 2 ^ 64

abbrev ranged : Text → ℕ → IndexDefinition
ranged name size = record { name = name; size = size; contiguous = true }

abbrev listed : Text → ℕ → IndexDefinition
listed name size = record { name = name; size = size; contiguous = false }

-- More temporary bytes first, then more edges, then the smaller slot.
unfoldable pub is_built_before : IndexBuild → IndexBuild → Bool
is_built_before a b =
    ltb b.temporary a.temporary
    || a.temporary == b.temporary && (ltb b.raw a.raw || a.raw == b.raw && ltb a.slot b.slot)

module _ (r : ReportStore) where
  unfoldable pub definitions : List IndexDefinition
  definitions =
      ranged (bytes "image_occurrences") r.images.n
      ∷ ranged (bytes "image_findings") r.images.n
      ∷ ranged (bytes "occurrence_findings") r.occurrences.n
      ∷ listed (bytes "image_packages") r.images.n
      ∷ listed (bytes "image_vulnerable_packages") r.images.n
      ∷ listed (bytes "image_noncompliant_packages") r.images.n
      ∷ listed (bytes "image_vulnerabilities") r.images.n
      ∷ listed (bytes "package_present_images") r.packages.n
      ∷ listed (bytes "package_vulnerable_images") r.packages.n
      ∷ listed (bytes "package_noncompliant_images") r.packages.n
      ∷ listed (bytes "package_affected_images") r.packages.n
      ∷ listed (bytes "vulnerability_affected_images") r.vulnerabilities.n
      ∷ listed (bytes "advisory_affected_images") r.advisory_sources.n
      ∷ listed (bytes "vulnerability_findings") r.vulnerabilities.n
      ∷ listed (bytes "advisory_findings") r.advisory_sources.n
      ∷ listed (bytes "package_findings") r.packages.n
      ∷ []

  -- The occurrences from `o` on whose license has the status `noncompliant`.
  unfoldable pub count_noncompliant : ℕ → ℕ → ℕ → Context → Run (ℕ × Context)
  count_noncompliant zero o count ctx = ok (count, ctx)
  count_noncompliant (suc rounds) o count ctx = do
    ctx ← poll_at o ctx
    occ ← Slabs.at r.occurrences (pos o)
    l ← Slabs.at r.licenses (pos occ.license)
    status ← status_id (bytes "noncompliant")
    count_noncompliant rounds (o + 1) (if l.status == status then count + 1 else count) ctx

  -- The numbers of edges before and after repetitions are dropped, the second one a bound.
  unfoldable pub raw_edges : ℕ → Text → ℕ
  raw_edges noncompliant name =
      if named name
        (bytes "image_occurrences" ∷ bytes "image_packages" ∷ bytes "package_present_images" ∷ [])
      then r.occurrences.n
      else if named name
          (bytes "image_noncompliant_packages" ∷ bytes "package_noncompliant_images" ∷ [])
      then noncompliant
      else if is_name name (bytes "package_affected_images")
      then (r.findings.n + noncompliant) % 2 ^ 64
      else r.findings.n

  unfoldable pub bound_edges : Text → ℕ
  bound_edges name =
      if named name (
        bytes "image_occurrences"
        ∷ bytes "image_packages"
        ∷ bytes "package_present_images"
        ∷ bytes "image_noncompliant_packages"
        ∷ bytes "package_noncompliant_images"
        ∷ bytes "image_vulnerable_packages"
        ∷ bytes "package_vulnerable_images"
        ∷ bytes "package_affected_images"
        ∷ [])
      then r.images.n * r.packages.n % 2 ^ 64
      else if named name
          (bytes "image_vulnerabilities" ∷ bytes "vulnerability_affected_images" ∷ [])
      then r.images.n * r.vulnerabilities.n % 2 ^ 64
      else if is_name name (bytes "advisory_affected_images")
      then r.images.n * r.advisory_sources.n % 2 ^ 64
      else r.findings.n

  unfoldable pub index_build : ℕ → ℕ → IndexDefinition → Run IndexBuild
  unfolding index_member_bytes raw_edges bound_edges
  index_build noncompliant slot d =
      let raw = raw_edges noncompliant d.name in
      let most = min raw (bound_edges d.name) in
      let temporary =
        (index_member_bytes raw + 2 ^ 64 - index_member_bytes most + index_member_bytes d.size)
        % 2 ^ 64 in
      if ltb max_uint32 raw
      then panic report_overflow
      else ok (record {
        definition = d;
        slot = slot;
        raw = raw;
        retained = if d.contiguous then 0 else most;
        temporary = if d.contiguous then 0 else temporary;
      })

  unfoldable pub index_builds :
      ℕ → ℕ → List IndexDefinition → Context → Run (List IndexBuild × Context)
  unfolding index_build
  index_builds noncompliant slot [] ctx = ok ([], ctx)
  index_builds noncompliant slot (d ∷ ds) ctx = do
    ctx ← check_context ctx
    b ← index_build noncompliant slot d
    (bs, ctx) ← index_builds noncompliant (slot + 1) ds ctx
    ok (b ∷ bs, ctx)

  unfoldable pub index_build_order : Context → Run (List IndexBuild × Context)
  unfolding count_noncompliant index_builds definitions is_built_before
  index_build_order ctx = do
    (noncompliant, ctx) ← count_noncompliant r.occurrences.n 0 0 ctx
    (builds, ctx) ← index_builds noncompliant 0 definitions ctx
    ok (sort_by is_built_before builds, ctx)
