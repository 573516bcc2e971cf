-- ===== src/Tests/Calls.antt =====
-- The theorems on index sums, the sorted window and ended operations, at concrete values.
use osvpy.Prelude.{
  ℕ, suc, ◌+◌, ◌≡◌, ◌≤◌, refl, ap, [], ◌∷◌, length, none, set, replicate, flatten, append-nil,
  length-replicate, false, arith,
}
use osvpy.Run.{Returns}
use osvpy.Slabs.{Slabs, uint32_zero}
use osvpy.Slabs.Rows.{Models}
use osvpy.Index.{MemberWindow, prefix_index_counts, window_swap}
use osvpy.Index.Sums.{sums, total, prefix_index_counts-sums}
use osvpy.Index.Window.{window_swap-set}
use osvpy.Operation.{Operation, no_report, no_request}
use osvpy.Operation.Delivery.{cancels, releases, finishes, delivered, delivered-once}

abbrev counts : Slabs ℕ
counts = record { chunks = (4 ∷ 0 ∷ 2 ∷ replicate 1021 0) ∷ []; n = 3 }

counts-Models : Models counts (4 ∷ 0 ∷ 2 ∷ [])
unfolding flatten
counts-Models = record {
  count = refl;
  size = refl;
  padded = record {
    full = (ap (λ k. suc (suc (suc k))) (length-replicate 1021 0), tt);
    fits = omega arith;
    shape = append-nil (4 ∷ 0 ∷ 2 ∷ replicate 1021 0);
  };
}

counts-total : total 4 (0 ∷ 2 ∷ []) ≡ 6
unfolding total
counts-total = refl

prefix_index_counts-sums_example :
    Returns (prefix_index_counts none counts) λ r. Models r.1 (4 ∷ sums 4 (0 ∷ 2 ∷ []))
prefix_index_counts-sums_example =
    prefix_index_counts-sums counts 4 (0 ∷ 2 ∷ []) counts-Models (omega (arith, counts-total))

abbrev tail_window : MemberWindow
tail_window = record { start = 1; stop = 3 }

window_swap-set_example :
    Returns
      (window_swap tail_window 0 1 none counts)
      λ r. Models r.1 (set (set (4 ∷ 0 ∷ 2 ∷ []) (1 + 0) 2) (1 + 1) 0)
window_swap-set_example =
    window_swap-set tail_window 0 1 counts (4 ∷ 0 ∷ 2 ∷ []) 0 2 counts-Models refl refl

abbrev ended : Operation
ended = record {
  request = no_request;
  is_canceled = false;
  finished = false;
  report = no_report;
  status = 0;
}

delivered-once_example :
    length (delivered (finishes ∷ finishes ∷ cancels ∷ releases ∷ finishes ∷ []) ended) ≤ 1
delivered-once_example =
    delivered-once (finishes ∷ finishes ∷ cancels ∷ releases ∷ finishes ∷ []) ended
