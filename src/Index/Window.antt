-- ===== src/Index/Window.antt =====
-- `Swap` of the window that is sorted, for a context that is not cancelled.
use osvpy.Prelude.{
  refl, ℕ, ◌+◌, ◌≡◌, List, some, none, set, get_elem?, get_elem?-some_lt, length-set, arith,
}
use osvpy.Run.{◌>>=◌, Returns}
use osvpy.Slabs.{Slabs, uint32_zero}
use osvpy.Slabs.Rows.{Models}
use osvpy.Slabs.Laws.{at-some, write-set}
use osvpy.Context.{check_context}
use osvpy.Index.{MemberWindow, window_swap}

-- The two elements are exchanged, and the context is still not cancelled.
pub window_swap_lem :
    (w : MemberWindow) (i j : ℕ) (s : Slabs ℕ) (xs : List ℕ) (x y : ℕ)
    → Models s xs
    → get_elem? xs (w.start + i) ≡ some x
    → get_elem? xs (w.start + j) ≡ some y
    → Returns
        (window_swap w i j none s)
        λ r. (r.0 ≡ none) × Models r.1 (set (set xs (w.start + i) y) (w.start + j) x)
unfolding window_swap check_context
window_swap_lem w i j s xs x y m at_i at_j =
    let first = get_elem?-some_lt xs (w.start + i) at_i in
    let second = get_elem?-some_lt xs (w.start + j) at_j in
    let (s', run, m') = write-set s xs m (w.start + i) y first in
    let ys = set xs (w.start + i) y in
    let (s'', runs, m'') =
      write-set s' ys m' (w.start + j) x (omega (arith, second, length-set xs (w.start + i) y)) in
    (
      (none, s''),
      rw (at-some s xs m (w.start + i) at_i, ◌>>=◌, at-some s xs m (w.start + j) at_j, run, runs),
      (refl, m''),
    )

-- For slabs that represent a list, two positions of a window that lie inside it, and a context that
-- is never cancelled, `window_swap` returns slabs that represent the list with the two elements
-- exchanged.
pub window_swap-set :
    (w : MemberWindow) (i j : ℕ) (s : Slabs ℕ) (xs : List ℕ) (x y : ℕ)
    → Models s xs
    → get_elem? xs (w.start + i) ≡ some x
    → get_elem? xs (w.start + j) ≡ some y
    → Returns
        (window_swap w i j none s)
        λ r. Models r.1 (set (set xs (w.start + i) y) (w.start + j) x)
window_swap-set w i j s xs x y m at_i at_j =
    let (r, run, (calm, m')) = window_swap_lem w i j s xs x y m at_i at_j in (r, run, m')
