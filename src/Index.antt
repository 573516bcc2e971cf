-- ===== src/Index.antt =====
-- The prefix sums of an index's counts and the window that is sorted (go/indexes.go).
pub mod Sums
pub mod Window
pub mod Make
pub mod Edges
pub mod Counting
pub mod Filling
pub mod Ordering
pub mod Sinking
pub mod Compaction
pub mod Rows
pub mod Built
pub mod Reading
pub mod Visits
pub mod Plan
pub mod Build
pub mod Emits
pub mod Linked
pub mod Numbered
pub mod Planned
pub mod Scheduled
pub mod Finished
pub mod Lookup
pub mod Affected
use osvpy.Prelude.{ℕ, zero, suc, ◌+◌, ◌-◌, Bool, ltb, pos, if◌then◌else◌}
use osvpy.Run.{Run, ok, panic, ◌>>=◌, max_uint32, report_overflow}
use osvpy.Slabs.{Slabs, uint32_zero}
use osvpy.Slabs
use osvpy.Context.{Context, check_context}

-- `memberWindow`, whose table is passed beside it.
pub record MemberWindow : Type 0 where
  pub start : ℕ
  pub stop : ℕ

unfoldable pub window_len : MemberWindow → ℕ
window_len w = w.stop - w.start

unfoldable pub window_less : MemberWindow → ℕ → ℕ → Slabs ℕ → Run Bool
window_less w i j members = do
  a ← Slabs.at members (pos (w.start + i))
  b ← Slabs.at members (pos (w.start + j))
  ok (ltb a b)

unfoldable pub window_swap : MemberWindow → ℕ → ℕ → Context → Slabs ℕ → Run (Context × Slabs ℕ)
window_swap w i j ctx members = do
  ctx' ← check_context ctx
  a ← Slabs.at members (pos (w.start + i))
  b ← Slabs.at members (pos (w.start + j))
  once ← Slabs.write members (pos (w.start + i)) b
  twice ← Slabs.write once (pos (w.start + j)) a
  ok (ctx', twice)

-- On `uint32`, where the difference is no smaller than 0.
unfoldable pub add_index_count : ℕ → ℕ → Run ℕ
add_index_count a b = if ltb (max_uint32 - a) b then panic report_overflow else ok (a + b)

-- The loop of `prefixIndexCounts` from `i` on, with the number of its rounds.
unfoldable pub prefix_from : ℕ → ℕ → Context → Slabs ℕ → Run (Context × Slabs ℕ)
unfolding add_index_count
prefix_from zero i ctx offsets = ok (ctx, offsets)
prefix_from (suc rounds) i ctx offsets = do
  ctx' ← check_context ctx
  a ← Slabs.at offsets (pos i)
  b ← Slabs.at offsets (pos (i - 1))
  c ← add_index_count a b
  offsets' ← Slabs.write offsets (pos i) c
  prefix_from rounds (i + 1) ctx' offsets'

unfoldable pub prefix_index_counts : Context → Slabs ℕ → Run (Context × Slabs ℕ)
unfolding prefix_from
prefix_index_counts ctx offsets = prefix_from (offsets.n - 1) 1 ctx offsets
