-- ===== src/Maps.antt =====
-- Go's `comparable` types and `map`s over them, as association lists. A nil map reads like an
-- empty one, and the code makes one before it writes.
use osvpy.Prelude.{ℕ, ◌≡◌, refl, ◌↔◌, Bool, true, false, ◌&&◌, List, [], ◌∷◌, Option}
use osvpy.Prelude.{some, none, ◌==◌, ==_iff, if◌then◌else◌, arith}

-- `==` on a comparable type, with what it means.
pub record Comparable (K : Type 0) : Type 0 where
  pub eq : K → K → Bool
  pub eq_iff : (a b : K) → (eq a b ≡ true) ↔ (a ≡ b)

instance abbrev pub nat_comparable : Comparable ℕ
nat_comparable = record { eq = λ a b. a == b; eq_iff = ==_iff }

unfoldable pub list_eq : {A : Type 0} → (A → A → Bool) → List A → List A → Bool
list_eq eq [] [] = true
list_eq eq [] (y ∷ ys) = false
list_eq eq (x ∷ xs) [] = false
list_eq eq (x ∷ xs) (y ∷ ys) = eq x y && list_eq eq xs ys

pub list_eq_iff :
    {A : Type 0} (c : Comparable A) (xs ys : List A) → (list_eq c.eq xs ys ≡ true) ↔ (xs ≡ ys)
unfolding list_eq
list_eq_iff c [] [] = (λ _. refl, λ _. refl)
list_eq_iff c [] (y ∷ ys) = (λ e. cc, λ e. cc)
list_eq_iff c (x ∷ xs) [] = (λ e. cc, λ e. cc)
list_eq_iff c (x ∷ xs) (y ∷ ys) = (
  λ e. ground (arith, c.eq_iff x y, list_eq_iff c xs ys),
  λ e. ground (arith, c.eq_iff x y, list_eq_iff c xs ys),
)

instance abbrev pub list_comparable : {A : Type 0} ⦃c : Comparable A⦄ → Comparable (List A)
list_comparable ⦃c⦄ = record { eq = list_eq c.eq; eq_iff = list_eq_iff c }

abbrev pub Map : Type 0 → Type 0 → Type 0
Map K V = List (K × V)

module _ {K V : Type 0} ⦃c : Comparable K⦄ where
  -- `m[k]`, with whether the key is there
  unfoldable pub lookup : K → Map K V → Option V
  lookup k [] = none
  lookup k (e ∷ m) = if c.eq e.0 k then some e.1 else lookup k m

  -- `m[k] = v`
  unfoldable pub insert : K → V → Map K V → Map K V
  insert k v [] = (k, v) ∷ []
  insert k v (e ∷ m) = if c.eq e.0 k then (k, v) ∷ m else e ∷ insert k v m

  pub lookup-insert :
      (k j : K) (v : V) (m : Map K V)
      → lookup j (insert k v m) ≡ (if c.eq k j then some v else lookup j m)
  unfolding lookup insert
  lookup-insert k j v [] = refl
  lookup-insert k j v (e ∷ m) =
      ground (arith, c.eq_iff k j, c.eq_iff e.0 k, c.eq_iff e.0 j, lookup-insert k j v m)
