-- ===== src/Table/Laws.antt =====
-- Interning against a list of distinct rows.
use osvpy.Prelude.{ℕ, suc, ◌+◌, ◌<◌, ◌≤◌, ◌≡◌, refl, ap, ◌∙◌, List, [], ◌∷◌, ◌++◌, length}
use osvpy.Prelude.{get_elem?, some, none, Option, Option-cases, Bool-cases, inl, inr, arith}
use osvpy.Prelude.{if◌then◌else◌, get_elem?-append_some, get_elem?-snoc, get_elem?-snoc_cases}
use osvpy.Maps.{Comparable, lookup, insert, lookup-insert}
use osvpy.Slabs.{Slabs, Zero}
use osvpy.Slabs.Rows.{Models}
use osvpy.Slabs.Laws.{append-snoc, append_full, empty-Models, at-some}
use osvpy.Slabs
use osvpy.Table.{Table, intern}
use osvpy.Run.{ok, Returns, max_uint32, panic, report_overflow}
use osvpy.Prelude.{pos}

module _ {A : Type 0} ⦃c : Comparable A⦄ where
  -- The first row that holds `v`, counted from `i`.
  unfoldable pub index_from : ℕ → A → List A → Option ℕ
  index_from i v [] = none
  index_from i v (x ∷ xs) = if c.eq x v then some i else index_from (suc i) v xs

  abbrev pub index_of : A → List A → Option ℕ
  index_of = index_from 0

  pub index_from-snoc :
      (i : ℕ) (v w : A) (xs : List A)
      → index_from i w (xs ++ v ∷ []) ≡ elim (index_from i w xs) [
        | some j ↦ some j
        | none ↦ if c.eq v w then some (i + length xs) else none
      ]
  unfolding index_from
  index_from-snoc i v w [] = ground arith
  index_from-snoc i v w (x ∷ xs) = ground (arith, index_from-snoc (suc i) v w xs)

  pub index_from_sound :
      (i : ℕ) (v : A) (xs : List A) {k : ℕ}
      → index_from i v xs ≡ some k
      → (j : ℕ) × (k ≡ i + j) × (get_elem? xs j ≡ some v)
  unfolding index_from
  index_from_sound i v [] e = absurd (ground arith)
  index_from_sound i v (x ∷ xs) {k} e = elim (Bool-cases (c.eq x v)) [
    | inl h ↦ (0, ground arith, ap some ((c.eq_iff x v).0 h))
    | inr h ↦
        let (j, same, found) = index_from_sound (suc i) v xs {k = k} (ground arith) in
        (suc j, omega arith, found)
  ]

  -- The abstract operation: the row of `v`, added behind the others if there is none.
  unfoldable pub intern_row : A → List A → ℕ × List A
  intern_row v xs = elim (index_of v xs) [ some i ↦ (i, xs) | none ↦ (length xs, xs ++ v ∷ []) ]

  -- No value stands in two rows.
  abbrev pub IsDistinct : List A → Type 0
  IsDistinct xs = (i : ℕ) (v : A) → get_elem? xs i ≡ some v → index_of v xs ≡ some i

  -- A value that is added behind distinct rows, none of which holds it, leaves them distinct.
  pub IsDistinct-snoc :
      (v : A) (xs : List A) → index_of v xs ≡ none → IsDistinct xs → IsDistinct (xs ++ v ∷ [])
  IsDistinct-snoc v xs new d i w e = elim (get_elem?-snoc_cases xs v i e) [
    | inl old ↦ index_from-snoc 0 v w xs ∙ rw (d i w old)
    | inr (last, same) ↦
        rw (same, last)
          (index_from-snoc 0 v v xs ∙ rw (new, (c.eq_iff v v).1 refl) (ap some (omega arith)))
  ]

module _ {A : Type 0} ⦃c : Comparable A⦄ where
  -- What `intern_row` promises of any rows, whatever stores them.
  pub record Interns (v : A) (xs : List A) (r : ℕ × List A) : Type 0 where
    pub row : get_elem? r.1 r.0 ≡ some v
    pub keeps : (i : ℕ) (w : A) → get_elem? xs i ≡ some w → get_elem? r.1 i ≡ some w
    pub distinct : IsDistinct r.1

  pub intern_row-Interns : (v : A) (xs : List A) → IsDistinct xs → Interns v xs (intern_row v xs)
  unfolding intern_row
  intern_row-Interns v xs d = elim (Option-cases (index_of v xs)) [
    | inl e ↦
        rw (e, intern_row)
          (record {
            row = get_elem?-snoc xs v;
            keeps = λ i w. get_elem?-append_some xs (v ∷ []) i;
            distinct = IsDistinct-snoc v xs e d;
          })
    | inr (i, e) ↦
        let (j, same, found) = index_from_sound 0 v xs e in
        let here : i ≡ j = omega arith in
        rw (e, intern_row) (record { row = rw here found; keeps = λ i w h. h; distinct = d })
  ]

module _ {A : Type 0} ⦃c : Comparable A⦄ ⦃z : Zero A⦄ where
  -- The table knows the first row of each value, and no value has two.
  pub record Interned (t : Table A) (s : Slabs A) (xs : List A) : Type 0 where
    pub models : Models s xs
    pub ids : (v : A) → lookup v t.ids ≡ index_of v xs
    pub distinct : IsDistinct xs

  pub empty-Interned : Interned (record { ids = [] }) Slabs.empty []
  unfolding lookup index_from
  empty-Interned = record {
    models = empty-Models;
    ids = λ v. refl;
    distinct = λ i v e. absurd (ground arith);
  }

  -- On a table that represents a list of distinct rows with fewer than 2^32 - 1 rows, `intern`
  -- returns the row number that the list operation `intern_row` gives, and then represents the list
  -- that `intern_row` gives.
  pub intern-refines :
      (t : Table A) (s : Slabs A) (xs : List A) (v : A)
      → Interned t s xs
      → length xs < max_uint32
      → Returns
          (intern t s v)
          λ r. (r.0 ≡ (intern_row v xs).0) × Interned r.1 r.2 (intern_row v xs).1
  unfolding intern intern_row
  intern-refines t s xs v inv h = elim (Option-cases (index_of v xs)) [
    | inr (i, e) ↦
        let known = inv.ids v ∙ e in
        ((i, t, s), rw (known, intern), (rw (e, intern_row), rw (e, intern_row) inv))
    | inl e ↦
        let known = inv.ids v ∙ e in
        let (s', run, m) = append-snoc s xs inv.models v (omega (arith, inv.models.size)) in
        (
          (s.n, record { ids = insert v s.n t.ids }, s'),
          rw (known, intern, run),
          (
            rw (e, intern_row) inv.models.size,
            rw (e, intern_row)
                (record {
                  models = m;
                  ids = λ w.
                      lookup-insert v w s.n t.ids
                      ∙ ground (
                        arith,
                        inv.ids w,
                        index_from-snoc 0 v w xs,
                        c.eq_iff v w,
                        inv.models.size,
                      );
                  distinct = IsDistinct-snoc v xs e inv.distinct;
                }),
          ),
        )
  ]

  -- On a table that represents a list of distinct rows with fewer than 2^32 - 1 rows, `intern`
  -- returns a row number at which the rows then hold the value.
  intern-at :
      (t : Table A) (s : Slabs A) (xs : List A) (v : A)
      → Interned t s xs
      → length xs < max_uint32
      → Returns (intern t s v) λ r. Slabs.at r.2 (pos r.0) ≡ ok v
  intern-at t s xs v inv h =
      let (r, run, (row, inv')) = intern-refines t s xs v inv h in
      let found = (intern_row-Interns v xs inv.distinct).row in
      (r, run, rw row (at-some r.2 (intern_row v xs).1 inv'.models (intern_row v xs).0 found))

  -- On a table that represents a list of distinct rows with fewer than 2^32 - 1 rows, `intern`
  -- returns, and interning the same value once more returns the same row number and leaves the
  -- table and the rows unchanged.
  pub intern-again :
      (t : Table A) (s : Slabs A) (xs : List A) (v : A)
      → Interned t s xs
      → length xs < max_uint32
      → Returns (intern t s v) λ r. intern r.1 r.2 v ≡ ok r
  unfolding intern
  intern-again t s xs v inv h =
      let (r, run, (row, inv')) = intern-refines t s xs v inv h in
      let known = intern_row-Interns v xs inv.distinct in
      let seen = inv'.ids v ∙ known.distinct (intern_row v xs).0 v known.row in
      (r, run, rw (seen, intern, ← row))

  -- A full table still finds the values it has, and refuses a new one.
  pub intern_full :
      (t : Table A) (s : Slabs A) (xs : List A) (v : A)
      → Interned t s xs
      → max_uint32 ≤ length xs
      → index_of v xs ≡ none
      → intern t s v ≡ panic report_overflow
  unfolding intern
  intern_full t s xs v inv h e =
      rw (inv.ids v ∙ e, intern, append_full s xs inv.models v (omega (arith, inv.models.size)))
