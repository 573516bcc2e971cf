-- ===== src/Builder/Split.antt =====
-- A replay works on two parts of a `batchBuilder` (go/store.go) that do not touch: the alias groups
-- and the tables.
use osvpy.Prelude.{◌≡◌, ◌↔◌, refl, ap, ap₂, List, [], ◌∷◌, none}
use osvpy.Text.{Text}
use osvpy.Run.{Run, ok, panic, hang, ◌>>=◌, Ends, ok_injective}
use osvpy.Context.{check_context}
use osvpy.Alias.{AliasState}
use osvpy.Alias
use osvpy.Alias.Polls.{union-Keeps}
use osvpy.Sink.{Call, poll, occurrence, finding, union}
use osvpy.Builder.{
  RowState, BatchBuilder, add_occurrence, add_finding, perform, replay, poll_context,
}

-- The calls that the tables see.
unfoldable pub rows_of : List Call → List Call
rows_of [] = []
rows_of (poll ∷ cs) = rows_of cs
rows_of (union ids ∷ cs) = rows_of cs
rows_of (occurrence pkg ctx lic ∷ cs) = occurrence pkg ctx lic ∷ rows_of cs
rows_of (finding a fix assessment ∷ cs) = finding a fix assessment ∷ rows_of cs

-- The lists that the alias groups see.
unfoldable pub aliases_of : List Call → List (List Text)
aliases_of [] = []
aliases_of (union ids ∷ cs) = ids ∷ aliases_of cs
aliases_of (other ∷ cs) = aliases_of cs

unfoldable pub row_step : Call → RowState → Run RowState
row_step (occurrence pkg ctx lic) r = add_occurrence pkg ctx lic r
row_step (finding a fix assessment) r = add_finding a fix assessment r
row_step other r = ok r

unfoldable pub rows_all : List Call → RowState → Run RowState
unfolding row_step
rows_all [] r = ok r
rows_all (c ∷ cs) r = row_step c r >>= λ r. rows_all cs r

unfoldable pub alias_all : List (List Text) → AliasState → Run AliasState
alias_all [] a = ok a
alias_all (ids ∷ rest) a = Alias.union ids a >>= λ a. alias_all rest a

-- Both parts reach what `b` holds.
pub record Reaches (a : Run AliasState) (r : Run RowState) (b : BatchBuilder) : Type 0 where
  pub alias : a ≡ ok b.alias
  pub rows : r ≡ ok b.rows

pub polled : (b : BatchBuilder) → b.alias.ctx ≡ none → poll_context b ≡ ok b
unfolding check_context
polled b h = rw h refl

module _ (P : BatchBuilder → Run BatchBuilder) (fs : AliasState → Run AliasState)
    (gs : RowState → Run RowState) (b' : BatchBuilder) where
  abbrev Meets : BatchBuilder → Type 0
  Meets b = (P b ≡ ok b') ↔ Reaches (fs b.alias) (gs b.rows) b'

  on_rows :
      (b : BatchBuilder) (m : Run RowState)
      → ((r : RowState) → Meets (record b { rows = r }))
      → ((m >>= λ r. ok (record b { rows = r })) >>= P ≡ ok b') ↔ Reaches (fs b.alias) (m >>= gs) b'
  on_rows b hang k = (λ e. cc, λ h. absurd (let e = h.rows in cc))
  on_rows b (panic p) k = (λ e. cc, λ h. absurd (let e = h.rows in cc))
  on_rows b (ok r) k = k r

  on_alias :
      (b : BatchBuilder) (m : Run AliasState)
      → Ends (λ a. a.ctx ≡ none) m
      → ((a : AliasState) → a.ctx ≡ none → Meets (record b { alias = a }))
      → ((m >>= λ a. ok (record b { alias = a })) >>= P ≡ ok b') ↔ Reaches (m >>= fs) (gs b.rows) b'
  on_alias b hang q k = (λ e. cc, λ h. absurd (let e = h.alias in cc))
  on_alias b (panic p) q k = (λ e. cc, λ h. absurd (let e = h.alias in cc))
  on_alias b (ok a) q k = k a (q.holds a refl)

pub replay-Reaches :
    (cs : List Call) (b b' : BatchBuilder)
    → b.alias.ctx ≡ none
    → (replay cs b ≡ ok b')
      ↔ Reaches (alias_all (aliases_of cs) b.alias) (rows_all (rows_of cs) b.rows) b'
unfolding replay perform rows_of aliases_of rows_all alias_all row_step
replay-Reaches [] b b' h = (
  λ e. record {
    alias = ap (λ b. ok b.alias) (ok_injective e);
    rows = ap (λ b. ok b.rows) (ok_injective e);
  },
  λ r.
      ap₂ (λ a s. ok (record { alias = a; rows = s })) (ok_injective r.alias) (ok_injective r.rows),
)
replay-Reaches (poll ∷ cs) b b' h = rw (polled b h) (replay-Reaches cs b b' h)
replay-Reaches (occurrence pkg ctx lic ∷ cs) b b' h = rw (polled b h) (
    on_rows (replay cs) (alias_all (aliases_of cs)) (rows_all (rows_of cs)) b' b
      (add_occurrence pkg ctx lic b.rows) λ r. replay-Reaches cs (record b { rows = r }) b' h)
replay-Reaches (finding a fix assessment ∷ cs) b b' h = rw (polled b h) (
    on_rows (replay cs) (alias_all (aliases_of cs)) (rows_all (rows_of cs)) b' b
      (add_finding a fix assessment b.rows) λ r. replay-Reaches cs (record b { rows = r }) b' h)
replay-Reaches (union ids ∷ cs) b b' h =
    on_alias (replay cs) (alias_all (aliases_of cs)) (rows_all (rows_of cs)) b' b
      (Alias.union ids b.alias) (union-Keeps ids b.alias h)
      λ a e. replay-Reaches cs (record b { alias = a }) b' e
