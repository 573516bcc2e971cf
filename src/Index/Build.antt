-- ===== src/Index/Build.antt =====
-- `buildIndexes` (go/indexes.go).
use osvpy.Prelude.{List, [], ◌∷◌, length, replicate, false}
use osvpy.Run.{Run, ok, ◌>>=◌, store}
use osvpy.Context.{Context}
use osvpy.Slabs.{empty}
use osvpy.Store.{ReportStore, ReportIndex}
use osvpy.Index.Make.{make_index}
use osvpy.Index.Visits.{visit}
use osvpy.Index.Plan.{IndexBuild, index_build_order}

-- `reportIndex{}`
abbrev pub no_index : ReportIndex
no_index = record { name = []; offsets = empty; members = empty; range = false }

-- The loop over the builds that are left, with the indexes so far. The visits read other tables.
unfoldable pub build_each :
    ReportStore → List IndexBuild → Context → List ReportIndex → Run (List ReportIndex × Context)
unfolding visit make_index
build_each r [] ctx indexes = ok (indexes, ctx)
build_each r (b ∷ bs) ctx indexes = do
  (ctx, idx) ←
      make_index ctx b.definition.name b.definition.size b.definition.contiguous
        (visit r b.definition.name)
  indexes ← store indexes b.slot idx
  build_each r bs ctx indexes

unfoldable pub build_indexes : Context → ReportStore → Run (Context × ReportStore)
unfolding index_build_order build_each
build_indexes ctx r = do
  (order, ctx) ← index_build_order r ctx
  (indexes, ctx) ← build_each r order ctx (replicate (length order) no_index)
  ok (ctx, record r { indexes = indexes })
