-- ===== src/Coordinator/Jobs.antt =====
-- The jobs of the coordinator (go/operation.go) that are running, and the images that wait.
use osvpy.Prelude.{
  ℕ, ◌+◌, ◌<◌, ◌≡◌, refl, ap, Bool, true, false, ◌||◌, ◌==◌, ==_iff, if◌then◌else◌, List, [], ◌∷◌,
  ◌++◌, Option, some, none, arith, Bool-cases, inl, inr,
}
use osvpy.Maps.{Map, lookup, insert, lookup-insert, nat_comparable}
use osvpy.Builder.{PendingImage}
use osvpy.Coordinator.{RunState, remove}

pub lookup-remove :
    (k key : ℕ) (m : Map ℕ PendingImage)
    → lookup k (remove key m) ≡ (if k == key then none else lookup k m)
unfolding lookup remove
lookup-remove k key [] = ground arith
lookup-remove k key (e ∷ m) = ground (arith, lookup-remove k key m)

unfoldable pub runs : ℕ → List ℕ → Bool
runs k [] = false
runs k (j ∷ js) = j == k || runs k js

unfoldable pub is_some : Option PendingImage → Bool
is_some none = false
is_some (some p) = true

pub runs-++ : (k : ℕ) (js ks : List ℕ) → runs k (js ++ ks) ≡ (runs k js || runs k ks)
unfolding runs
runs-++ k [] ks = refl
runs-++ k (j ∷ js) ks = ground (arith, runs-++ k js ks)

-- A job that runs can be singled out.
pub runs-split :
    (k : ℕ) (js : List ℕ)
    → runs k js ≡ true
    → (before : List ℕ) × (after : List ℕ) × (js ≡ before ++ k ∷ after)
unfolding runs
runs-split k [] e = absurd (cc)
runs-split k (j ∷ js) e = elim (Bool-cases (j == k)) [
  | inl same ↦ ([], js, ap (λ i. i ∷ js) ((==_iff j k).0 same))
  | inr other ↦
      let (before, after, it) = runs-split k js (ground (arith)) in
      (j ∷ before, after, ap (λ l. j ∷ l) it)
]

pub runs-without :
    (k j : ℕ) (before after : List ℕ)
    → (k == j) ≡ false
    → runs k (before ++ j ∷ after) ≡ runs k (before ++ after)
unfolding runs
runs-without k j before after other =
    ground (arith, runs-++ k before (j ∷ after), runs-++ k before after)

pub runs-here : (j : ℕ) (before after : List ℕ) → runs j (before ++ j ∷ after) ≡ true
unfolding runs
runs-here j before after = ground (arith, runs-++ j before (j ∷ after))

pub still_runs :
    (k j : ℕ) (before after : List ℕ)
    → runs k (before ++ after) ≡ true
    → runs k (before ++ j ∷ after) ≡ true
unfolding runs
still_runs k j before after e = ground (arith, runs-++ k before (j ∷ after), runs-++ k before after)

pub is_some-insert :
    (k j : ℕ) (p : PendingImage) (m : Map ℕ PendingImage)
    → is_some (lookup k (insert j p m)) ≡ (j == k || is_some (lookup k m))
unfolding is_some
is_some-insert k j p m = ground (arith, lookup-insert j k p m)

-- Job `k` is with a worker, or its image waits for its turn.
abbrev pub Owed : ℕ → RunState → Type 0
Owed k c = (runs k c.running || is_some (lookup k c.pending)) ≡ true

pub admit-Owed :
    (c : RunState) (k : ℕ)
    → (k < c.admitted → Owed k c)
    → k < c.admitted + 1
    → (runs k (c.running ++ c.admitted ∷ []) || is_some (lookup k c.pending)) ≡ true
unfolding runs
admit-Owed c k h less = elim (Bool-cases (c.admitted == k)) [
  | inl e ↦ ground (arith, runs-++ k c.running (c.admitted ∷ []))
  | inr e ↦
      let old : Owed k c = h (ground (arith)) in
      ground (arith, runs-++ k c.running (c.admitted ∷ []))
]

-- Nothing waits that could be merged at once.
abbrev pub IsSettled : RunState → Type 0
IsSettled c = lookup c.merged c.pending ≡ none

-- Only jobs below `n` are running.
abbrev pub RunsBelow : ℕ → RunState → Type 0
RunsBelow n c = (k : ℕ) → runs k c.running ≡ true → k < n

pub admit-RunsBelow :
    (n : ℕ) (c : RunState)
    → RunsBelow n c
    → c.admitted < n
    → (k : ℕ) → runs k (c.running ++ c.admitted ∷ []) ≡ true
    → k < n
unfolding runs
admit-RunsBelow n c h less k e = elim (Bool-cases (runs k c.running)) [
  | inl old ↦ h k old
  | inr new ↦ ground (arith, runs-++ k c.running (c.admitted ∷ []))
]
