-- ===== src/Alias.antt =====
-- The alias groups of a `batchBuilder` (go/store.go): `internAlias`, `root`, `preferred`, `union`.
--
-- `names` and `parent` are the union-find forest. `root` is bounded by the number of names, which
-- is enough as every link goes to a preferred name.
pub mod Order
pub mod Forest
pub mod Root
pub mod Polls
pub mod Groups
pub mod Linking
pub mod Classes
pub mod Union
use osvpy.Prelude.{
  ℕ, zero, suc, ◌+◌, List, [], ◌∷◌, ◌++◌, length, some, none, pos, ◌==◌, Bool, true, false,
}
use osvpy.Prelude.{◌&&◌, ◌||◌, not, if◌then◌else◌}
use osvpy.Text.{Text, bytes, text_ltb, has_prefix}
use osvpy.Maps.{Map, lookup, insert, nat_comparable, list_comparable}
use osvpy.Context.{Context, check_context}
use osvpy.Run.{Run, ok, hang, ◌>>=◌, ◌>>◌, checked, index, store}

pub record AliasState : Type 0 where
  pub ctx : Context
  pub alias_id : Map Text ℕ
  pub names : List Text
  pub parent : List ℕ

-- `ac == bc` on Booleans
abbrev same : Bool → Bool → Bool
same true b = b
same false b = not b

unfoldable pub preferred : Text → Text → Bool
unfolding has_prefix
preferred a b =
    let ac = has_prefix a (bytes "CVE-") in
    let bc = has_prefix b (bytes "CVE-") in ac && not bc || same ac bc && text_ltb a b

unfoldable pub intern_alias : Text → AliasState → Run (ℕ × AliasState)
intern_alias name s = elim (lookup name s.alias_id) [
  | some id ↦ ok (id, s)
  | none ↦ checked (pos (length s.names + 1)) >>= λ _. do
    id ← checked (pos (length s.names))
    ok (
      id,
      record s {
        alias_id = insert name id s.alias_id;
        names = s.names ++ name ∷ [];
        parent = s.parent ++ id ∷ [];
      },
    )
]

-- The loop of `root`, with path halving: returns the root and the parents as they are then.
unfoldable pub find_root : ℕ → List ℕ → ℕ → Run (ℕ × List ℕ)
find_root zero parent id = do p ← index parent id; if p == id then ok (id, parent) else hang
find_root (suc fuel) parent id = do
  p ← index parent id
  let next = (do g ← index parent p; parent' ← store parent id g; find_root fuel parent' g)
  if p == id then ok (id, parent) else next

unfoldable pub root : ℕ → AliasState → Run (ℕ × AliasState)
unfolding find_root
root id s = do
  (r, parent) ← find_root (length s.names) s.parent id
  ok (r, record s { parent = parent })

-- One round of the loop of `union`: the class of `id` joins that of the root `a`.
unfoldable pub union_one : ℕ → Text → AliasState → Run (ℕ × AliasState)
unfolding intern_alias root preferred
union_one a id s = do
  ctx ← check_context s.ctx
  (i, s₁) ← intern_alias id (record s { ctx = ctx })
  (c, s₂) ← root i s₁
  nc ← index s₂.names c
  na ← index s₂.names a
  let winner = if preferred nc na then c else a
  let loser = if preferred nc na then a else c
  parent ← store s₂.parent loser winner
  ok (winner, record s₂ { parent = parent })

unfoldable pub union_rest : ℕ → List Text → AliasState → Run AliasState
unfolding union_one
union_rest a [] s = ok s
union_rest a (id ∷ ids) s = do (b, s') ← union_one a id s; union_rest b ids s'

unfoldable pub union : List Text → AliasState → Run AliasState
unfolding union_rest check_context
union [] s = ok s
union (id ∷ ids) s = do
  ctx ← check_context s.ctx
  (i, s₁) ← intern_alias id (record s { ctx = ctx })
  (a, s₂) ← root i s₁
  union_rest a ids s₂
