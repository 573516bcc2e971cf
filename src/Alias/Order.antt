-- ===== src/Alias/Order.antt =====
-- `preferred` (go/store.go) as an order on names: CVE names first, then by bytes.
use osvpy.Prelude.{
  ℕ, zero, suc, ◌≤◌, ◌<◌, ◌≡◌, List, [], ◌∷◌, length, true, false, arith, if◌then◌else◌,
}
use osvpy.Prelude.{get_elem?, some}
use osvpy.Text.{Text, text_ltb_irrefl, text_ltb_trans, text_ltb_total}
use osvpy.Alias.{preferred}

pub preferred_irrefl : (a : Text) → preferred a a ≡ false
unfolding preferred
preferred_irrefl a = ground (arith, text_ltb_irrefl a)

-- When `a` is preferred to `b` and `b` to `c`, `a` is preferred to `c`.
pub preferred_trans :
    (a b c : Text) → preferred a b ≡ true → preferred b c ≡ true → preferred a c ≡ true
unfolding preferred
preferred_trans a b c h k = ground (arith, text_ltb_trans a b c)

-- When neither of two names is preferred to the other, they are equal.
pub preferred_total : (a b : Text) → preferred a b ≡ false → preferred b a ≡ false → a ≡ b
unfolding preferred
preferred_total a b h k = ground (arith, text_ltb_total a b)

-- How many of the names are preferred to `t`.
pub rank : Text → List Text → ℕ
rank t [] = 0
rank t (x ∷ xs) = if preferred x t then suc (rank t xs) else rank t xs

pub rank-le-length : (t : Text) (xs : List Text) → rank t xs ≤ length xs
unfolding rank
rank-le-length t [] = omega arith
rank-le-length t (x ∷ xs) = ground (arith, rank-le-length t xs)

rank_mono : (a b : Text) (xs : List Text) → preferred a b ≡ true → rank a xs ≤ rank b xs
unfolding rank
rank_mono a b [] h = omega arith
rank_mono a b (x ∷ xs) h = ground (arith, rank_mono a b xs h, preferred_trans x a b)

-- A preferred name of the list has a smaller rank.
pub rank-lt :
    (a b : Text) (xs : List Text) (i : ℕ)
    → get_elem? xs i ≡ some a
    → preferred a b ≡ true
    → rank a xs < rank b xs
unfolding rank
rank-lt a b [] i e h = absurd (ground arith)
rank-lt a b (x ∷ xs) zero e h = ground (arith, rank_mono a b xs h, preferred_irrefl a)
rank-lt a b (x ∷ xs) (suc i) e h = ground (arith, rank-lt a b xs i e h, preferred_trans x a b)
