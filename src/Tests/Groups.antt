-- ===== src/Tests/Groups.antt =====
-- The theorem on `union`, at two names that are new.
use osvpy.Prelude.{◌⊎◌, ◌≡◌, ℕ, some, refl, [], ◌∷◌, arith, none, All}
use osvpy.Text.{Text, bytes}
use osvpy.Maps.{lookup, nat_comparable, list_comparable}
use osvpy.Run.{Returns}
use osvpy.Alias.{AliasState, union}
use osvpy.Alias.Forest.{RootOf}
use osvpy.Alias.Groups.{IsGrouped}
use osvpy.Alias.Classes.{Sits}
use osvpy.Alias.Union.{union-Joined}

abbrev fresh : AliasState
fresh = record { ctx = none; alias_id = []; names = []; parent = [] }

fresh-IsGrouped : IsGrouped fresh
unfolding lookup
fresh-IsGrouped = record {
  forest = record { size = refl; links = λ i p e. absurd (cc) };
  known = λ t i e. absurd (cc);
  listed = λ t i e. absurd (cc);
}

union-Joined_example : Returns (union (bytes "GHSA-1" ∷ bytes "CVE-1" ∷ []) fresh) λ s'.
    IsGrouped s'
    × (w : ℕ) × All (Sits s' w) (bytes "GHSA-1" ∷ bytes "CVE-1" ∷ [])
    × ((t : Text) (i : ℕ) → lookup t fresh.alias_id ≡ some i → lookup t s'.alias_id ≡ some i)
    × ((q : ℕ)
        → ((j : ℕ) → RootOf fresh.parent j q → RootOf s'.parent j q)
          ⊎ ((j : ℕ) → RootOf fresh.parent j q → RootOf s'.parent j w))
    × ((j q : ℕ)
        → RootOf fresh.parent j q
        → All (λ t. ¬ Sits fresh q t) (bytes "GHSA-1" ∷ bytes "CVE-1" ∷ [])
        → RootOf s'.parent j q)
union-Joined_example =
    union-Joined (bytes "GHSA-1") (bytes "CVE-1" ∷ []) fresh fresh-IsGrouped refl (omega arith)
