-- ===== src/Table.antt =====
-- `table[T]` (go/store.go): each distinct value is stored once, and known by its row number.
pub mod Laws
use osvpy.Prelude.{ℕ, some, none}
use osvpy.Maps.{Comparable, Map, lookup, insert}
use osvpy.Slabs.{Slabs, Zero}
use osvpy.Slabs
use osvpy.Run.{Run, ok, ◌>>=◌}

pub record Table (A : Type 0) : Type 0 where
  pub ids : Map A ℕ

module _ {A : Type 0} ⦃c : Comparable A⦄ ⦃z : Zero A⦄ where
  -- Returns the row number, the table and the rows.
  unfoldable pub intern : Table A → Slabs A → A → Run (ℕ × Table A × Slabs A)
  intern t dst value = elim (lookup value t.ids) [
    | some i ↦ ok (i, t, dst)
    | none ↦ do
      (i, dst') ← Slabs.append dst value
      ok (i, record { ids = insert value i t.ids }, dst')
  ]
