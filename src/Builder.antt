-- ===== src/Builder.antt =====
-- The rows of a `batchBuilder` (go/store.go): `occurrence`, `finding`, `add` and `merge`, and the
-- `pendingImage` of an image that is projected out of turn.
--
-- The state has two parts: the alias groups with the context, and the tables.
pub mod Split
pub mod Merging
pub mod Collected
pub mod Equivalence
pub mod Total
use osvpy.Prelude.{ℕ, ◌+◌, pos, List, [], ◌∷◌, ◌++◌, Option, some, none, sub_ℕ}
use osvpy.Text.{Text}
use osvpy.Maps.{Map, lookup, insert, nat_comparable}
use osvpy.Run.{Run, ok, panic, ◌>>=◌, ◌>>◌, checked, index_out_of_range}
use osvpy.State.{St}
use osvpy.State
use osvpy.Slabs.{Slabs, Zero, uint32_zero}
use osvpy.Slabs
use osvpy.Table.{Table, intern}
use osvpy.Report.{
  Slice, ReportPackage, ReportContext, ReportLicense, ReportAdvisory, ReportFix, ReportAssessment,
  ReportImage,
}
use osvpy.Report.Stored.{
  StoredPackage, StoredAdvisory, StoredContext, StoredAssessment, StoredLicense, StoredFix,
  package_comparable, advisory_comparable, context_comparable, assessment_comparable,
  license_comparable, fix_comparable, package_zero, advisory_zero, context_zero, assessment_zero,
  license_zero, fix_zero, occurrence_zero, finding_zero,
}
use osvpy.Store.{ReportStore, image_zero}
use osvpy.Payload.{PayloadBuilder, PayloadState, M}
use osvpy.Payload.Pack.{
  pack_package, pack_context, pack_license, pack_advisory, pack_fix, pack_assessment,
}
use osvpy.Context.{Context, check_context}
use osvpy.Alias.{AliasState}
use osvpy.Alias
use osvpy.Upstream.{Versions}
use osvpy.Operation.{Request}
use osvpy.Sink.{Call, poll, occurrence, finding, union, AdvisoryPointer}
use osvpy.Image.{Response, project_image}

pub record RowState : Type 0 where
  pub report : ReportStore
  pub packages : Table StoredPackage
  pub payload : PayloadBuilder
  pub advisory : Table StoredAdvisory
  pub image_advisories : Map ℕ ℕ
  pub context : Table StoredContext
  pub assessment : Table StoredAssessment
  pub license : Table StoredLicense
  pub fix : Table StoredFix

pub record BatchBuilder : Type 0 where
  pub alias : AliasState
  pub rows : RowState

-- Packing works on the payload and on two tables of the report.
unfoldable pub packing : {A : Type 0} → M A → St RowState A
packing m s = do
  (a, p) ← m (record { strings = s.report.strings; words = s.report.words; payload = s.payload })
  ok (
    a,
    record s {
      report = record s.report { strings = p.strings; words = p.words };
      payload = p.payload;
    },
  )

unfoldable pub intern_package : StoredPackage → St RowState ℕ
intern_package v s = do
  (i, t, rows) ← intern s.packages s.report.packages v
  ok (i, record s { packages = t; report = record s.report { packages = rows } })

unfoldable pub intern_context : StoredContext → St RowState ℕ
intern_context v s = do
  (i, t, rows) ← intern s.context s.report.contexts v
  ok (i, record s { context = t; report = record s.report { contexts = rows } })

unfoldable pub intern_license : StoredLicense → St RowState ℕ
intern_license v s = do
  (i, t, rows) ← intern s.license s.report.licenses v
  ok (i, record s { license = t; report = record s.report { licenses = rows } })

unfoldable pub intern_advisory : StoredAdvisory → St RowState ℕ
intern_advisory v s = do
  (i, t, rows) ← intern s.advisory s.report.advisory_sources v
  ok (i, record s { advisory = t; report = record s.report { advisory_sources = rows } })

unfoldable pub intern_fix : StoredFix → St RowState ℕ
intern_fix v s = do
  (i, t, rows) ← intern s.fix s.report.fixes v
  ok (i, record s { fix = t; report = record s.report { fixes = rows } })

unfoldable pub intern_assessment : StoredAssessment → St RowState ℕ
intern_assessment v s = do
  (i, t, rows) ← intern s.assessment s.report.assessments v
  ok (i, record s { assessment = t; report = record s.report { assessments = rows } })

-- `occurrence` behind its `checkContext`.
unfoldable pub add_occurrence :
    ReportPackage → ReportContext → ReportLicense → RowState → Run RowState
unfolding packing intern_package intern_context intern_license
add_occurrence pkg ctx lic s = do
  (p, s) ← packing (pack_package pkg) s
  (pi, s) ← intern_package p s
  (c, s) ← packing (pack_context ctx) s
  (ci, s) ← intern_context c s
  (l, s) ← packing (pack_license lic) s
  (li, s) ← intern_license l s
  checked (pos (s.report.occurrences.n + 1))
  image ← checked (pos s.report.images.n)
  package_id ← checked (pos pi)
  context_row ← checked (pos ci)
  license_row ← checked (pos li)
  (_, rows) ← Slabs.append s.report.occurrences (record {
    image = image;
    package_id = package_id;
    context = context_row;
    license = license_row;
  })
  ok (record s { report = record s.report { occurrences = rows } })

-- The row of an advisory, which an image interns once for each address.
unfoldable pub advisory_row : AdvisoryPointer → St RowState ℕ
unfolding packing intern_advisory
advisory_row a s = elim (lookup a.address s.image_advisories) [
  | some ai ↦ ok (ai, s)
  | none ↦ do
    (v, s) ← packing (pack_advisory a.value) s
    (ai, s) ← intern_advisory v s
    ok (ai, record s { image_advisories = insert a.address ai s.image_advisories })
]

-- `finding` behind its `checkContext`.
unfoldable pub add_finding :
    AdvisoryPointer → ReportFix → ReportAssessment → RowState → Run RowState
unfolding advisory_row packing intern_fix intern_assessment
add_finding a fix assessment s = do
  (ai, s) ← advisory_row a s
  (f, s) ← packing (pack_fix fix) s
  (fi, s) ← intern_fix f s
  (v, s) ← packing (pack_assessment assessment) s
  (si, s) ← intern_assessment v s
  checked (pos (s.report.findings.n + 1))
  occurrence_row ← checked (sub_ℕ s.report.occurrences.n 1)
  advisory_id ← checked (pos ai)
  fix_row ← checked (pos fi)
  assessment_row ← checked (pos si)
  (_, rows) ← Slabs.append s.report.findings (record {
    occurrence = occurrence_row;
    advisory = advisory_id;
    fix = fix_row;
    assessment = assessment_row;
  })
  ok (record s { report = record s.report { findings = rows } })

abbrev pub poll_context : BatchBuilder → Run BatchBuilder
poll_context b =
    check_context b.alias.ctx >>= λ ctx. ok (record b { alias = record b.alias { ctx = ctx } })

-- A builder as the sink of a projection.
unfoldable pub perform : Call → BatchBuilder → Run BatchBuilder
unfolding add_occurrence add_finding
perform poll b = poll_context b
perform (occurrence pkg ctx lic) b = poll_context b >>= λ b.
    add_occurrence pkg ctx lic b.rows >>= λ rows. ok (record b { rows = rows })
perform (finding a fix assessment) b = poll_context b >>= λ b.
    add_finding a fix assessment b.rows >>= λ rows. ok (record b { rows = rows })
perform (union ids) b = Alias.union ids b.alias >>= λ alias. ok (record b { alias = alias })

unfoldable pub replay : List Call → BatchBuilder → Run BatchBuilder
unfolding perform
replay [] b = ok b
replay (c ∷ cs) b = perform c b >>= λ b. replay cs b

abbrev pub with_advisories : Map ℕ ℕ → BatchBuilder → BatchBuilder
with_advisories m b = record b { rows = record b.rows { image_advisories = m } }

unfoldable pub append_image : ReportImage → BatchBuilder → Run BatchBuilder
append_image im b = do
  (_, images) ← Slabs.append b.rows.report.images im
  ok (record b { rows = record b.rows { report = record b.rows.report { images = images } } })

unfoldable pub add : Versions → Request → Response → BatchBuilder → Run BatchBuilder
unfolding replay append_image
add lib req resp b =
    let r = project_image lib req resp in
    replay r.0 (with_advisories [] b) >>= λ b.
    r.1 >>= λ im. append_image im b >>= λ b. ok (with_advisories [] b)

pub record PendingFinding : Type 0 where
  pub advisory : AdvisoryPointer
  pub fix : ReportFix
  pub assessment : ReportAssessment

pub record PendingOccurrence : Type 0 where
  pub pkg : ReportPackage
  pub context : ReportContext
  pub license : ReportLicense
  pub findings : List PendingFinding

pub record PendingImage : Type 0 where
  pub image : ReportImage
  pub occurrences : List PendingOccurrence
  pub aliases : List (List Text)

-- The finding joins the last occurrence.
unfoldable pub add_to_last : PendingFinding → List PendingOccurrence → Run (List PendingOccurrence)
add_to_last f [] = panic index_out_of_range
add_to_last f (o ∷ []) = ok (record o { findings = o.findings ++ f ∷ [] } ∷ [])
add_to_last f (o ∷ o' ∷ os) = add_to_last f (o' ∷ os) >>= λ os'. ok (o ∷ os')

-- A `pendingImage` as the sink of a projection, with the context that the projection polls.
unfoldable pub collect_call : Call → Context × PendingImage → Run (Context × PendingImage)
unfolding add_to_last
collect_call poll (ctx, p) = check_context ctx >>= λ ctx'. ok (ctx', p)
collect_call (occurrence pkg ctx lic) (c, p) =
    let o : PendingOccurrence = record { pkg = pkg; context = ctx; license = lic; findings = [] } in
    ok (c, record p { occurrences = p.occurrences ++ o ∷ [] })
collect_call (finding a fix assessment) (c, p) =
    add_to_last (record { advisory = a; fix = fix; assessment = assessment }) p.occurrences
    >>= λ os. ok (c, record p { occurrences = os })
collect_call (union ids) (c, p) = ok (c, record p { aliases = p.aliases ++ ids ∷ [] })

unfoldable pub collect : List Call → Context × PendingImage → Run (Context × PendingImage)
unfolding collect_call
collect [] s = ok s
collect (c ∷ cs) s = collect_call c s >>= λ s'. collect cs s'

-- `pendingImage{}`
abbrev pub no_facts : PendingImage
no_facts = record { image = image_zero.value; occurrences = []; aliases = [] }

-- The branch of the coordinator for an image out of turn (go/operation.go).
unfoldable pub pending_image :
    Versions → Request → Response → Context → Run (Context × PendingImage)
unfolding collect
pending_image lib req resp ctx =
    let r = project_image lib req resp in
    collect r.0 (ctx, no_facts) >>= λ s. r.1 >>= λ im. ok (s.0, record s.1 { image = im })

-- The loops of `merge`.
unfoldable pub union_all : List (List Text) → BatchBuilder → Run BatchBuilder
unfolding perform
union_all [] b = ok b
union_all (ids ∷ rest) b = perform (union ids) b >>= λ b. union_all rest b

unfoldable pub merge_findings : List PendingFinding → BatchBuilder → Run BatchBuilder
unfolding perform
merge_findings [] b = ok b
merge_findings (f ∷ fs) b =
    perform (finding f.advisory f.fix f.assessment) b >>= λ b. merge_findings fs b

unfoldable pub merge_occurrences : List PendingOccurrence → BatchBuilder → Run BatchBuilder
unfolding perform merge_findings
merge_occurrences [] b = ok b
merge_occurrences (o ∷ os) b = perform (occurrence o.pkg o.context o.license) b >>= λ b.
    merge_findings o.findings b >>= λ b. merge_occurrences os b

unfoldable pub merge : PendingImage → BatchBuilder → Run BatchBuilder
unfolding union_all merge_occurrences append_image
merge p b = union_all p.aliases (with_advisories [] b) >>= λ b.
    merge_occurrences p.occurrences b >>= λ b.
    append_image p.image b >>= λ b. ok (with_advisories [] b)
