-- ===== src/Report/Canonical.antt =====
-- `unique`, `uniqueCopy`, `canonicalSeverities` and the sorting of references (go/report.go).
use osvpy.Prelude.{◌≢◌, arith, ◌≡◌, ◌↔◌, ◌∙◌, ap, sym, refl, List, [], ◌∷◌, some, none}
use osvpy.Maps.{Comparable, list_eq_iff, nat_comparable, list_comparable}
use osvpy.Text.{Text}
use osvpy.Sorting.{Ordered, sort, compact, member, text_ordered}
use osvpy.Sorting.Laws.{SameMembers, IsAscending, ascending_unique, compact-sort}
use osvpy.Report.{Slice, items, ReportSeverity, ReportReference}
use osvpy.Report.Orders.{
  severity_ordered, severity_comparable, reference_ordered, reference_comparable,
}

unfoldable pub unique : Slice Text → Slice Text
unique none = none
unique (some []) = none
unique (some (v ∷ vs)) = some (compact (sort (v ∷ vs)))

-- `slices.Clone` keeps nil, and the model has no sharing.
unfoldable pub unique_copy : Slice Text → Slice Text
unfolding unique
unique_copy values = unique values

-- `slices.SortFunc` and `slices.Compact`, which keep a nil slice.
unfoldable pub sorted_slice : {A : Type 0} ⦃o : Ordered A⦄ ⦃c : Comparable A⦄ → Slice A → Slice A
sorted_slice none = none
sorted_slice (some vs) = some (compact (sort vs))

unfoldable pub canonical_severities : Slice ReportSeverity → Slice ReportSeverity
unfolding sorted_slice
canonical_severities = sorted_slice

-- The same on references, inside `projectAdvisory`.
unfoldable pub canonical_references : Slice ReportReference → Slice ReportReference
unfolding sorted_slice
canonical_references = sorted_slice

pub sorted_slice-SameMembers :
    {A : Type 0} ⦃o : Ordered A⦄ ⦃c : Comparable A⦄ (vs ws : List A)
    → SameMembers vs ws
    → sorted_slice (some vs) ≡ sorted_slice (some ws)
unfolding sorted_slice
sorted_slice-SameMembers vs ws same =
    let left = compact-sort vs in
    let right = compact-sort ws in
    ap some (
      ascending_unique (compact (sort vs)) (compact (sort ws)) left.0 right.0
        (λ a. left.1 a ∙ same a ∙ sym (right.1 a)))

items-unique : (v : Slice Text) → items (unique v) ≡ compact (sort (items v))
unfolding unique sort compact
items-unique none = refl
items-unique (some []) = refl
items-unique (some (v ∷ vs)) = refl

-- A list with elements does not become empty.
pub not_empty : (v : Text) (vs : List Text) → compact (sort (v ∷ vs)) ≢ []
unfolding member
not_empty v vs e =
    ground (arith, (compact-sort (v ∷ vs)).1 v, list_eq_iff nat_comparable v v, ap (member v) e)

unique_ext : (v w : Slice Text) → items (unique v) ≡ items (unique w) → unique v ≡ unique w
unfolding unique
unique_ext none none e = refl
unique_ext none (some []) e = refl
unique_ext none (some (y ∷ ys)) e = absurd (not_empty y ys (sym e))
unique_ext (some []) none e = refl
unique_ext (some []) (some []) e = refl
unique_ext (some []) (some (y ∷ ys)) e = absurd (not_empty y ys (sym e))
unique_ext (some (x ∷ xs)) none e = absurd (not_empty x xs e)
unique_ext (some (x ∷ xs)) (some []) e = absurd (not_empty x xs e)
unique_ext (some (x ∷ xs)) (some (y ∷ ys)) e = ap some e

-- `unique` gives two lists of texts the same result exactly when they have the same members, in any
-- order and with any repetitions; nil and empty lists count as the same.
pub unique-SameMembers :
    (v w : Slice Text) → (unique v ≡ unique w) ↔ SameMembers (items v) (items w)
unique-SameMembers v w =
    let left = compact-sort (items v) in
    let right = compact-sort (items w) in
    (
      λ e a.
          sym (left.1 a)
          ∙ ap (member a) (sym (items-unique v) ∙ ap items e ∙ items-unique w)
          ∙ right.1 a,
      λ same. unique_ext v w (
          items-unique v
          ∙ ascending_unique (compact (sort (items v))) (compact (sort (items w))) left.0 right.0
              (λ a. left.1 a ∙ same a ∙ sym (right.1 a))
          ∙ sym (items-unique w)),
    )

-- placeholder
pub unique-IsAscending :
    (v : Slice Text) → IsAscending (items (unique v)) × SameMembers (items (unique v)) (items v)
unique-IsAscending v = rw items-unique (compact-sort (items v))

-- `canonical_severities` gives two lists of severities, neither of them nil, the same result
-- exactly when they have the same members, in any order and with any repetitions.
pub canonical_severities-members :
    (vs ws : List ReportSeverity)
    → (canonical_severities (some vs) ≡ canonical_severities (some ws)) ↔ SameMembers vs ws
unfolding canonical_severities
canonical_severities-members vs ws =
    let left = compact-sort vs in
    let right = compact-sort ws in
    (
      λ e a. sym (left.1 a) ∙ ap (λ v. member a (items v)) e ∙ right.1 a,
      sorted_slice-SameMembers vs ws,
    )
