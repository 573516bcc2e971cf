-- ===== src/Index/Sums.antt =====
-- `prefixIndexCounts` against running sums, for a context that is not cancelled meanwhile.
use osvpy.Prelude.{
  ℕ, suc, ◌+◌, ◌-◌, ◌≤◌, ◌≡◌, refl, ap, sym, subst, ◌∙◌, List, [], ◌∷◌, ◌++◌, length, some, none,
  set, get_elem?,
}
use osvpy.Prelude.{
  arith, length-append, append_assoc, get_elem?-length_append, get_elem?-some_lt, set-append_right,
}
use osvpy.Run.{ok, ◌>>=◌, Returns, max_uint32}
use osvpy.Slabs.{Slabs, uint32_zero}
use osvpy.Slabs.Rows.{Models}
use osvpy.Slabs.Laws.{at-some, write-set}
use osvpy.Context.{check_context}
use osvpy.Index.{add_index_count, prefix_from, prefix_index_counts}

-- The running sums, from `sum` on.
unfoldable pub sums : ℕ → List ℕ → List ℕ
sums sum [] = []
sums sum (x ∷ xs) = (x + sum) ∷ sums (x + sum) xs

-- The last of them.
unfoldable pub total : ℕ → List ℕ → ℕ
total sum [] = sum
total sum (x ∷ xs) = total (x + sum) xs

total-le : (sum : ℕ) (xs : List ℕ) → sum ≤ total sum xs
unfolding total
total-le sum [] = omega arith
total-le sum (x ∷ xs) = omega (arith, total-le (x + sum) xs)

pub add_index_count_lem : (a b : ℕ) → a + b ≤ max_uint32 → add_index_count a b ≡ ok (a + b)
unfolding add_index_count
add_index_count_lem a b h = ground arith

prefix_from_lem :
    (s : Slabs ℕ) (pre : List ℕ) (sum : ℕ) (xs : List ℕ) (i : ℕ)
    → Models s (pre ++ sum ∷ xs)
    → i ≡ suc (length pre)
    → total sum xs ≤ max_uint32
    → Returns
        (prefix_from (length xs) i none s)
        λ r. (r.0 ≡ none) × Models r.1 (pre ++ sum ∷ sums sum xs)
unfolding prefix_from check_context sums total
prefix_from_lem s pre sum [] i m e h = ((none, s), refl, (refl, m))
prefix_from_lem s pre sum (x ∷ xs) i m e h =
    let snoc = append_assoc pre (sum ∷ []) (x ∷ xs) in
    let len : i ≡ length (pre ++ sum ∷ []) = omega (arith, length-append pre (sum ∷ [])) in
    let here : get_elem? (pre ++ sum ∷ x ∷ xs) i ≡ some x =
      ap (λ l. get_elem? l i) (sym snoc)
      ∙ rw len (get_elem?-length_append (pre ++ sum ∷ []) x xs) in
    let before : get_elem? (pre ++ sum ∷ x ∷ xs) (i - 1) ≡ some sum =
      let back : i - 1 ≡ length pre = omega arith in
      rw back (get_elem?-length_append pre sum (x ∷ xs)) in
    let small : x + sum ≤ max_uint32 = omega (arith, total-le (x + sum) xs) in
    let (s', run, m') =
      write-set s (pre ++ sum ∷ x ∷ xs) m i (x + sum)
        (get_elem?-some_lt (pre ++ sum ∷ x ∷ xs) i here) in
    let step : set (pre ++ sum ∷ x ∷ xs) i (x + sum) ≡ (pre ++ sum ∷ []) ++ (x + sum) ∷ xs =
      let at : i ≡ length (pre ++ sum ∷ []) + 0 = omega (arith, len) in
      ap (λ l. set l i (x + sum)) (sym snoc)
      ∙ rw at (set-append_right (pre ++ sum ∷ []) (x ∷ xs) 0 (x + sum)) in
    let (r, runs, (calm, m'')) =
      prefix_from_lem s' (pre ++ sum ∷ []) (x + sum) xs (i + 1) (subst (Models s') step m')
        (omega arith) h in
    (
      r,
      rw
          (
            at-some s (pre ++ sum ∷ x ∷ xs) m i here,
            ◌>>=◌,
            at-some s (pre ++ sum ∷ x ∷ xs) m (i - 1) before,
            add_index_count_lem x sum small,
            run,
          )
          runs,
      (calm, subst (Models r.1) (append_assoc pre (sum ∷ []) ((x + sum) ∷ sums (x + sum) xs)) m''),
    )

-- The sums, and a context that is still not cancelled.
pub prefix_index_counts_lem :
    (s : Slabs ℕ) (x : ℕ) (xs : List ℕ)
    → Models s (x ∷ xs)
    → total x xs ≤ max_uint32
    → Returns (prefix_index_counts none s) λ r. (r.0 ≡ none) × Models r.1 (x ∷ sums x xs)
unfolding prefix_index_counts
prefix_index_counts_lem s x xs m h =
    let rounds : s.n - 1 ≡ length xs = omega (arith, m.size) in
    rw rounds (prefix_from_lem s [] x xs 1 m refl h)

-- For slabs that represent a list of counts with at least one element, whose sum is at most 2^32 -
-- 1, and a context that is never cancelled, `prefix_index_counts` returns slabs that represent the
-- running sums of the counts.
pub prefix_index_counts-sums :
    (s : Slabs ℕ) (x : ℕ) (xs : List ℕ)
    → Models s (x ∷ xs)
    → total x xs ≤ max_uint32
    → Returns (prefix_index_counts none s) λ r. Models r.1 (x ∷ sums x xs)
prefix_index_counts-sums s x xs m h =
    let (r, run, (calm, m')) = prefix_index_counts_lem s x xs m h in (r, run, m')
