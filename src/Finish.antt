-- ===== src/Finish.antt =====
-- The end of a `batchBuilder` (go/store.go): `finishAliases`, which numbers the groups of names in
-- the order of their first names, and `finish`.
pub mod Flat
pub mod Roots
use osvpy.Prelude.{
  ℕ, zero, suc, ◌+◌, ◌-◌, ◌%◌, ◌^◌, List, [], ◌∷◌, ◌++◌, length, replicate, take, drop, some, none,
  Bool, true, false, ◌==◌, ◌&&◌, leb, if◌then◌else◌, pos,
}
use osvpy.Text.{Text, text_ltb}
use osvpy.Maps.{Map, lookup, nat_comparable, list_comparable}
use osvpy.Run.{Run, ok, panic, ◌>>=◌, ◌>>◌, checked, index, store, index_out_of_range}
use osvpy.Context.{Context, check_context}
use osvpy.Sorting.{sort, text_ordered}
use osvpy.Slabs.{uint32_zero}
use osvpy.Slabs
use osvpy.Report.Stored.{vulnerability_zero, advisory_zero}
use osvpy.Store.{ReportStore}
use osvpy.Payload.{string_at}
use osvpy.Payload.Pack.{pack_vulnerability}
use osvpy.Alias.{AliasState, root}
use osvpy.Builder.{BatchBuilder, RowState, packing}
use osvpy.Index.Build.{build_indexes}

-- The variables of the first loop.
pub record FlatState : Type 0 where
  pub alias : AliasState
  pub counts : List ℕ
  pub roots : List ℕ

unfoldable pub flatten_name : ℕ → FlatState → Run FlatState
flatten_name id s = do
  ctx ← check_context s.alias.ctx
  (r, a) ← root id (record s.alias { ctx = ctx })
  parent ← store a.parent id r
  c ← index s.counts r
  counts ← store s.counts r ((c + 1) % 2 ^ 32)
  ok (record {
    alias = record a { parent = parent };
    counts = counts;
    roots = if c == 0 then s.roots ++ r ∷ [] else s.roots;
  })

unfoldable pub flatten_names : ℕ → ℕ → FlatState → Run FlatState
unfolding flatten_name
flatten_names zero id s = ok s
flatten_names (suc rounds) id s = flatten_name id s >>= λ s. flatten_names rounds (id + 1) s

-- `slices.SortFunc` of the roots by their names, written as insertion.
unfoldable pub root_before : List Text → ℕ → ℕ → Run Bool
root_before names a c = do x ← index names a; y ← index names c; ok (text_ltb x y)

unfoldable pub place_root : List Text → ℕ → List ℕ → Run (List ℕ)
unfolding root_before
place_root names a [] = ok (a ∷ [])
place_root names a (c ∷ cs) = do
  less ← root_before names c a
  let further = (do cs' ← place_root names a cs; ok (c ∷ cs'))
  if less then further else ok (a ∷ c ∷ cs)

unfoldable pub sort_roots : List Text → List ℕ → Run (List ℕ)
unfolding place_root
sort_roots names [] = ok []
sort_roots names (a ∷ cs) = sort_roots names cs >>= λ cs. place_root names a cs

-- The loop over the counts, which become the first free positions of the groups.
unfoldable pub spread_counts : ℕ → ℕ → Context → List ℕ → List ℕ → Run (Context × List ℕ × List ℕ)
spread_counts zero id ctx offsets counts = ok (ctx, offsets, counts)
spread_counts (suc rounds) id ctx offsets counts = do
  count ← index counts id
  ctx ← check_context ctx
  from ← index offsets id
  offsets ← store offsets (id + 1) ((from + count) % 2 ^ 32)
  counts ← store counts id from
  spread_counts rounds (id + 1) ctx offsets counts

unfoldable pub group_members : List ℕ → ℕ → Context → List ℕ → List ℕ → Run (Context × List ℕ)
group_members [] id ctx counts members = ok (ctx, members)
group_members (r ∷ rs) id ctx counts members = do
  ctx ← check_context ctx
  p ← index counts r
  members ← store members p id
  counts ← store counts r ((p + 1) % 2 ^ 32)
  group_members rs (id + 1) ctx counts members

-- `xs[from:to]`, of a slice without spare capacity.
unfoldable pub slice_of : List ℕ → ℕ → ℕ → Run (List ℕ)
slice_of xs from to =
    if leb from to && leb to (length xs)
    then ok (take (to - from) (drop from xs))
    else panic index_out_of_range

-- The members of a group get its number, and those but the root are its aliases.
unfoldable pub number_members :
    List Text → ℕ → ℕ → List ℕ → Context → List ℕ → List Text → Run (Context × List ℕ × List Text)
number_members names r vi [] ctx numbers aliases = ok (ctx, numbers, aliases)
number_members names r vi (id ∷ ids) ctx numbers aliases = do
  ctx ← check_context ctx
  numbers ← store numbers id vi
  more ← (if id == r then ok aliases else (do name ← index names id; ok (aliases ++ name ∷ [])))
  number_members names r vi ids ctx numbers more

-- The variables of the loop over the roots.
pub record NumberState : Type 0 where
  pub ctx : Context
  pub rows : RowState
  pub numbers : List ℕ

module _ (names : List Text) (offsets members : List ℕ) where
  unfoldable pub number_group : ℕ → NumberState → Run NumberState
  unfolding number_members slice_of packing
  number_group r s = do
    ctx ← check_context s.ctx
    checked (pos (s.rows.report.vulnerabilities.n + 1))
    vi ← checked (pos s.rows.report.vulnerabilities.n)
    from ← index offsets r
    to ← index offsets (r + 1)
    ids ← slice_of members from to
    (ctx, numbers, aliases) ← number_members names r vi ids ctx s.numbers []
    name ← index names r
    (v, rows) ←
        packing (pack_vulnerability (record { id = name; aliases = some (sort aliases) })) s.rows
    (_, vulnerabilities) ← Slabs.append rows.report.vulnerabilities v
    ok (record {
      ctx = ctx;
      rows = record rows { report = record rows.report { vulnerabilities = vulnerabilities } };
      numbers = numbers;
    })

  unfoldable pub number_groups : List ℕ → NumberState → Run NumberState
  unfolding number_group
  number_groups [] s = ok s
  number_groups (r ∷ rs) s = number_group r s >>= λ s. number_groups rs s

-- The loop over the advisories: each one gets the number of the group of its id.
module _ (alias_id : Map Text ℕ) (numbers : List ℕ) where
  unfoldable pub number_advisory : ℕ → ReportStore → Run ReportStore
  number_advisory i r = do
    row ← Slabs.at r.advisory_sources (pos i)
    name ← string_at r.strings row.id
    vi ← elim (lookup name alias_id) [ some id ↦ index numbers id | none ↦ ok 0 ]
    (_, rows) ← Slabs.append r.advisory_vulnerabilities vi
    ok (record r { advisory_vulnerabilities = rows })

  unfoldable pub number_advisories : ℕ → ℕ → Context → ReportStore → Run (Context × ReportStore)
  unfolding number_advisory
  number_advisories zero i ctx r = ok (ctx, r)
  number_advisories (suc rounds) i ctx r = do
    ctx ← check_context ctx
    r ← number_advisory i r
    number_advisories rounds (i + 1) ctx r

unfoldable pub finish_aliases : BatchBuilder → Run BatchBuilder
unfolding flatten_names sort_roots spread_counts group_members number_groups number_advisories
finish_aliases b = do
  let count = length b.alias.names
  ctx ← check_context b.alias.ctx
  s ←
      flatten_names count 0
        (record { alias = record b.alias { ctx = ctx }; counts = replicate count 0; roots = [] })
  let names = s.alias.names
  roots ← sort_roots names s.roots
  (ctx, offsets, counts) ← spread_counts count 0 s.alias.ctx (replicate (count + 1) 0) s.counts
  (ctx, members) ← group_members s.alias.parent 0 ctx counts (replicate count 0)
  n ←
      number_groups names offsets members roots
        (record { ctx = ctx; rows = b.rows; numbers = replicate count 0 })
  let report = n.rows.report
  (ctx, report) ←
      number_advisories s.alias.alias_id n.numbers report.advisory_sources.n 0 n.ctx report
  ok (record {
    alias = record { ctx = ctx; alias_id = []; names = []; parent = [] };
    rows = record n.rows { report = report };
  })

-- `finish`, which gives the report away.
unfoldable pub finish_builder : BatchBuilder → Run (Context × ReportStore)
unfolding finish_aliases build_indexes
finish_builder b = do b ← finish_aliases b; build_indexes b.alias.ctx b.rows.report
