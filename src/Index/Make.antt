-- ===== src/Index/Make.antt =====
-- `makeIndex` (go/indexes.go): the values of a key's edges, each once and in ascending order.
--
-- A visit of the edges is the sequence of the edges that it hands to its callback and of its own
-- polls of the context, with its end, as the callback returns nothing. `sort.Sort` is written as
-- insertion by the window's `Less` and `Swap`.
use osvpy.Prelude.{
  ℕ, zero, suc, ◌+◌, ◌-◌, ◌%◌, ◌^◌, List, [], ◌∷◌, Bool, true, false, not, ◌||◌, ◌==◌,
  if◌then◌else◌, pos,
}
use osvpy.Text.{Text}
use osvpy.Run.{Run, ok, ◌>>=◌, ◌>>◌, checked}
use osvpy.Slabs.{Slabs, uint32_zero, empty}
use osvpy.Slabs
use osvpy.Context.{Context, check_context}
use osvpy.Store.{ReportIndex}
use osvpy.Index.{
  MemberWindow, window_len, window_less, window_swap, add_index_count, prefix_index_counts,
}

pub data Visit : Type 0 where
  polls : Visit
  edge : (key value : ℕ) → Visit

pub record Visits : Type 0 where
  pub visits : List Visit
  pub finally : Run (Unit {0})

-- The poll that one round in 1024 makes.
abbrev pub poll_at : ℕ → Context → Run Context
poll_at i ctx = if i % 1024 == 0 then check_context ctx else ok ctx

-- The callback of the first visit, with the edges so far.
unfoldable pub count_edge : ℕ → ℕ → Context → Slabs ℕ → Run (ℕ × Context × Slabs ℕ)
unfolding add_index_count
count_edge key total ctx offsets = do
  ctx ← poll_at total ctx
  total ← add_index_count total 1
  p ← Slabs.at offsets (pos (key + 1))
  c ← add_index_count p 1
  offsets ← Slabs.write offsets (pos (key + 1)) c
  ok (total, ctx, offsets)

unfoldable pub count_edges : List Visit → ℕ → Context → Slabs ℕ → Run (Context × Slabs ℕ)
unfolding count_edge
count_edges [] total ctx offsets = ok (ctx, offsets)
count_edges (polls ∷ vs) total ctx offsets =
    check_context ctx >>= λ ctx. count_edges vs total ctx offsets
count_edges (edge key value ∷ vs) total ctx offsets =
    count_edge key total ctx offsets >>= λ r. count_edges vs r.0 r.1 r.2

-- The first positions, to move on from: `size` of them, from key `i` on.
unfoldable pub copy_offsets : ℕ → ℕ → Slabs ℕ → Slabs ℕ → Run (Slabs ℕ)
copy_offsets zero i offsets cursor = ok cursor
copy_offsets (suc rounds) i offsets cursor = do
  o ← Slabs.at offsets (pos i)
  (row, cursor) ← Slabs.append cursor o
  copy_offsets rounds (i + 1) offsets cursor

-- The callback of the second visit.
unfoldable pub fill_edge : ℕ → ℕ → Slabs ℕ → Slabs ℕ → Run (Slabs ℕ × Slabs ℕ)
fill_edge key value cursor members = do
  p ← Slabs.at cursor (pos key)
  Slabs.at members (pos p)
  v ← checked (pos value)
  members ← Slabs.write members (pos p) v
  cursor ← Slabs.write cursor (pos key) ((p + 1) % 2 ^ 32)
  ok (cursor, members)

unfoldable pub fill_edges : List Visit → Context → Slabs ℕ → Slabs ℕ → Run (Context × Slabs ℕ)
unfolding fill_edge
fill_edges [] ctx cursor members = ok (ctx, members)
fill_edges (polls ∷ vs) ctx cursor members =
    check_context ctx >>= λ ctx. fill_edges vs ctx cursor members
fill_edges (edge key value ∷ vs) ctx cursor members =
    fill_edge key value cursor members >>= λ r. fill_edges vs ctx r.0 r.1

-- `sort.Sort`: element `j` sinks to its place among those before it.
unfoldable pub sink : MemberWindow → ℕ → Context → Slabs ℕ → Run (Context × Slabs ℕ)
unfolding window_less window_swap
sink w zero ctx members = ok (ctx, members)
sink w (suc j) ctx members = do
  less ← window_less w (suc j) j members
  let further = window_swap w (suc j) j ctx members >>= λ r. sink w j r.0 r.1
  if less then further else ok (ctx, members)

unfoldable pub sink_from : MemberWindow → ℕ → ℕ → Context → Slabs ℕ → Run (Context × Slabs ℕ)
unfolding sink
sink_from w zero j ctx members = ok (ctx, members)
sink_from w (suc rounds) j ctx members =
    sink w j ctx members >>= λ r. sink_from w rounds (j + 1) r.0 r.1

unfoldable pub sort_window : MemberWindow → Context → Slabs ℕ → Run (Context × Slabs ℕ)
unfolding sink_from window_len
sort_window w ctx members = sink_from w (window_len w) 0 ctx members

-- The loop that drops the repetitions, from position `j` on, with `n` members kept so far.
unfoldable pub compact_members : ℕ → ℕ → ℕ → ℕ → ℕ → Context → Slabs ℕ → Run (ℕ × Context × Slabs ℕ)
compact_members zero start j n previous ctx members = ok (n, ctx, members)
compact_members (suc rounds) start j n previous ctx members = do
  ctx ← poll_at j ctx
  value ← Slabs.at members (pos j)
  let next = (do
    members ← Slabs.write members (pos n) value
    compact_members rounds start (j + 1) (n + 1) value ctx members)
  let skip = compact_members rounds start (j + 1) n previous ctx members
  if j == start || not (value == previous) then next else skip

-- The state of the loop over the keys.
pub record BuildState : Type 0 where
  pub ctx : Context
  pub kept : ℕ
  pub offsets : Slabs ℕ
  pub members : Slabs ℕ

unfoldable pub build_row : ℕ → BuildState → Run BuildState
unfolding sort_window compact_members
build_row i s = do
  ctx ← check_context s.ctx
  start ← Slabs.at s.offsets (pos i)
  stop ← Slabs.at s.offsets (pos (i + 1))
  (ctx, members) ← sort_window (record { start = start; stop = stop }) ctx s.members
  n ← checked (pos s.kept)
  offsets ← Slabs.write s.offsets (pos i) n
  (kept, ctx, members) ← compact_members (stop - start) start start s.kept 0 ctx members
  ok (record { ctx = ctx; kept = kept; offsets = offsets; members = members })

-- From key `i` on, with the number of rounds.
unfoldable pub build_rows : ℕ → ℕ → BuildState → Run BuildState
unfolding build_row
build_rows zero i s = ok s
build_rows (suc rounds) i s = build_row i s >>= λ s. build_rows rounds (i + 1) s

unfoldable pub make_index : Context → Text → ℕ → Bool → Visits → Run (Context × ReportIndex)
unfolding count_edges copy_offsets fill_edges build_rows
make_index ctx name size contiguous edges = do
  offsets ← Slabs.resize empty (pos (size + 1))
  (ctx, offsets) ← count_edges edges.visits 0 ctx offsets
  edges.finally
  (ctx, offsets) ← prefix_index_counts ctx offsets
  let range = ok (ctx, record { name = name; offsets = offsets; members = empty; range = true })
  let listed = (do
    n ← Slabs.at offsets (pos size)
    members ← Slabs.resize empty (pos n)
    cursor ← copy_offsets size 0 offsets empty
    (ctx, members) ← fill_edges edges.visits ctx cursor members
    edges.finally
    s ← build_rows size 0 (record { ctx = ctx; kept = 0; offsets = offsets; members = members })
    n ← checked (pos s.kept)
    offsets ← Slabs.write s.offsets (pos size) n
    members ← Slabs.truncate s.members (pos s.kept)
    ok (s.ctx, record { name = name; offsets = offsets; members = members; range = false }))
  if contiguous then range else listed
