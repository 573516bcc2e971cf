-- ===== src/Index/Lookup.antt =====
-- Whether a pair is among the edges of a visit (go/indexes.go), and in the list of its key.
use osvpy.Prelude.{
  ℕ, zero, suc, ◌+◌, ◌≤◌, ◌<◌, ◌≡◌, ◌↔◌, refl, sym, ap, subst, ◌∙◌, List, [], ◌∷◌, ◌++◌, get_elem?,
  some, none, pos, Bool, true, false, Bool-cases, Option-cases, inl, inr, ◌==◌, ◌||◌, ◌&&◌, arith,
}
use native.Mathlib.Decide.{ℕ_discrete}
use osvpy.Run.{ok, panic, invalid_index, ok_injective}
use osvpy.Maps.{nat_comparable}
use osvpy.Sorting.{member}
use osvpy.Sorting.Laws.{compact-sort}
use osvpy.Abi.{NativeValue, ref_value}
use osvpy.Index.Ordering.{ascending}
use osvpy.Index.Make.{Visits}
use osvpy.Index.Edges.{Edge, edges_of, values}
use osvpy.Index.Rows.{row}
use osvpy.Index.Reading.{list_value}
use osvpy.Index.Visits.{followed_by, visits_from}
use osvpy.Index.Emits.{edges_of-append}

unfoldable pub has_edge : ℕ → ℕ → List Edge → Bool
has_edge k v [] = false
has_edge k v (e ∷ es) = e.0 == k && e.1 == v || has_edge k v es

member-values : (k v : ℕ) (es : List Edge) → member v (values k es) ≡ has_edge k v es
unfolding member values has_edge
member-values k v [] = refl
member-values k v (e ∷ es) = elim (Bool-cases (e.0 == k)) [
  | inl b ↦ rw (b, member-values k v es) refl
  | inr b ↦ rw (b, member-values k v es) refl
]

has_edge-append :
    (k v : ℕ) (es fs : List Edge) → has_edge k v (es ++ fs) ≡ (has_edge k v es || has_edge k v fs)
unfolding has_edge
has_edge-append k v [] fs = refl
has_edge-append k v (e ∷ es) fs = ground (arith, has_edge-append k v es fs)

found-member : (v : ℕ) (xs : List ℕ) (i : ℕ) → get_elem? xs i ≡ some v → member v xs ≡ true
unfolding member
found-member v [] i e = absurd (cc)
found-member v (x ∷ xs) zero e = ground arith
found-member v (x ∷ xs) (suc i) e = ground (arith, found-member v xs i e)

member-found : (v : ℕ) (xs : List ℕ) → member v xs ≡ true → (i : ℕ) × (get_elem? xs i ≡ some v)
unfolding member
member-found v [] e = absurd (cc)
member-found v (x ∷ xs) e = elim (ℕ_discrete x v) [
  | yes same ↦ (0, ap some same)
  | no other ↦ let (i, d) = member-found v xs (ground arith) in (suc i, d)
]

-- The list of key `k`, as a reader gets it, has the values of the edges with that key.
pub list_value-has_edge :
    (kind k v : ℕ) (es : List Edge)
    → ((i : ℕ) × (list_value kind (row k es) (pos i) ≡ ok (ref_value kind v 0)))
      ↔ (has_edge k v es ≡ true)
unfolding list_value row
list_value-has_edge kind k v es =
    let same : member v (row k es) ≡ has_edge k v es =
      (compact-sort (values k es)).1 v ∙ member-values k v es in
    (
      λ x. elim (Option-cases (get_elem? (row k es) x.0)) [
        | inr (w, e) ↦
            let read : ok (ref_value kind w 0) ≡ ok (ref_value kind v 0) =
              subst
                (λ o.
                  elim o [ some u ↦ ok (ref_value kind u 0) | none ↦ panic invalid_index ]
                  ≡ ok (ref_value kind v 0))
                e x.1 in
            sym same
            ∙ found-member v (row k es) x.0 (e ∙ ap some (ap NativeValue.row (ok_injective read)))
        | inl e ↦
            let read : panic invalid_index ≡ ok (ref_value kind v 0) =
              subst
                (λ o.
                  elim o [ some u ↦ ok (ref_value kind u 0) | none ↦ panic invalid_index ]
                  ≡ ok (ref_value kind v 0))
                e x.1 in
            absurd (cc)
      ],
      λ e. let (i, d) = member-found v (row k es) (same ∙ e) in (i, rw (d, list_value) refl),
    )

pub has_edge-followed_by :
    (k v : ℕ) (a b : Visits)
    → a.finally ≡ ok tt
    → has_edge k v (edges_of (followed_by a b).visits)
      ≡ (has_edge k v (edges_of a.visits) || has_edge k v (edges_of b.visits))
unfolding followed_by
has_edge-followed_by k v a b e =
    rw (e, edges_of-append a.visits b.visits)
      (has_edge-append k v (edges_of a.visits) (edges_of b.visits))

pub has_edge-visits_from :
    (k v : ℕ) (step : ℕ → Visits) (rounds i : ℕ)
    → ((j : ℕ) → i ≤ j → j < i + rounds → (step j).finally ≡ ok tt)
    → (has_edge k v (edges_of (visits_from step rounds i).visits) ≡ true)
      ↔ ((j : ℕ) × (i ≤ j) × (j < i + rounds) × (has_edge k v (edges_of (step j).visits) ≡ true))
unfolding visits_from edges_of has_edge
has_edge-visits_from k v step zero i ends =
    (λ e. absurd (cc), λ x. absurd (omega (arith, x.1, x.2)))
has_edge-visits_from k v step (suc rounds) i ends =
    let split =
      has_edge-followed_by k v (step i) (visits_from step rounds (i + 1))
        (ends i (omega arith) (omega arith)) in
    let rest =
      has_edge-visits_from k v step rounds (i + 1)
        (λ j low high. ends j (omega arith) (omega arith)) in
    (
      λ e. elim (Bool-cases (has_edge k v (edges_of (step i).visits))) [
        | inl x ↦ (i, omega arith, omega arith, x)
        | inr x ↦
            let (j, low, high, y) = rest.0 (ground (arith, split)) in
            (j, omega arith, omega arith, y)
      ],
      λ x. elim (ℕ_discrete i x.0) [
        | yes same ↦
            let here : has_edge k v (edges_of (step i).visits) ≡ true = rw same x.3 in
            split ∙ (rw here refl)
        | no other ↦
            let later = rest.1 (x.0, omega (arith, x.1, other), omega (arith, x.2), x.3) in
            ground (arith, split, later)
      ],
    )
